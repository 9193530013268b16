-- ===== src/Carlfw/Matches.antt =====
-- The first descriptor that compares, whatever its place in the list: what deleting another one and
-- appending do to it.
use mathlib.Core.Option.{some-injective, some-ne-none}
use carl9170fw.Base.{
  ℕ, zero, suc, ◌+◌, ◌-◌, ◌≡◌, ◌≤◌, refl, sym, ◌∙◌, ap, if◌then◌else◌, List, [], ◌∷◌, ◌++◌, get_or,
  true, false, Option, some, none, Bool-cases, inl, inr, arith, All,
}
use carl9170fw.Carlfw.Desc.{Bytes, desc_length, desc_cmp, chk_magic, otus_magic, check_hdr_version}
use carl9170fw.Carlfw.Descs.{
  Carlfw, find_entry, find_from, remove_at, replace_at, desc_unlink, desc_del,
}
use carl9170fw.Carlfw.Checksum.{without_chk, del_found}
use carl9170fw.Carlfw.Replaced.{find_from-Found}
use carl9170fw.Carlfw.Checked.{find_from-bound}
use carl9170fw.Carlfw.Counts.{total}
use carl9170fw.Carlfw.Resize.{replace_at-All}

abbrev pub first_match : Bytes → ℕ → ℕ → List Bytes → Option Bytes
first_match id len rev [] = none
first_match id len rev (d ∷ ds) =
    let rest = first_match id len rev ds in if desc_cmp d id len rev then some d else rest

module _ (id : Bytes) (len rev : ℕ) where
  -- It is at the place where the search finds one.
  pub find_from-first_match :
      (k : ℕ) (d : Bytes) (ds : List Bytes)
      → first_match id len rev ds ≡ some d
      → (n : ℕ) × (find_from k id len rev ds ≡ some (k + n)) × (get_or ds n [] ≡ d)
  find_from-first_match k d [] p = absurd (some-ne-none d (sym p))
  find_from-first_match k d (x ∷ ds) p = elim (Bool-cases (desc_cmp x id len rev)) [
    | inl t ↦
        let is : some x ≡ some d = rw t at p in
        let here : k ≡ k + 0 = omega arith in (0, rw t (ap some here), some-injective x d is)
    | inr t ↦
        let later : first_match id len rev ds ≡ some d = rw t at p in
        let (n, e, at) = find_from-first_match (suc k) d ds later in
        let next : suc k + n ≡ k + suc n = omega arith in (suc n, rw t (e ∙ ap some next), at)
  ]

  pub first_match-get_or :
      (k n : ℕ) (ds : List Bytes)
      → find_from k id len rev ds ≡ some n
      → first_match id len rev ds ≡ some (get_or ds (n - k) [])
  first_match-get_or k n [] p = absurd (some-ne-none n (sym p))
  first_match-get_or k n (d ∷ ds) p = elim (Bool-cases (desc_cmp d id len rev)) [
    | inl t ↦
        let here : k ≡ n = some-injective k n (rw t at p) in
        let first : 0 ≡ n - k = omega (arith, here) in
        rw t (ap (λ (i : ℕ). some (get_or (d ∷ ds) i [])) first)
    | inr t ↦
        let later : find_from (suc k) id len rev ds ≡ some n = rw t at p in
        let after = find_from-bound (suc k) id len rev ds n later in
        let next : suc (n - suc k) ≡ n - k = omega (arith, after.0) in
        rw t
          (first_match-get_or (suc k) n ds later ∙ ap (λ (i : ℕ). some (get_or (d ∷ ds) i [])) next)
  ]

  pub first_match-append :
      (d : Bytes) (ds es : List Bytes)
      → first_match id len rev ds ≡ some d
      → first_match id len rev (ds ++ es) ≡ some d
  first_match-append d [] es p = absurd (some-ne-none d (sym p))
  first_match-append d (x ∷ ds) es p = elim (Bool-cases (desc_cmp x id len rev)) [
    | inl t ↦ rw t (rw t at p)
    | inr t ↦ rw t (first_match-append d ds es (rw t at p))
  ]

  -- A descriptor that does not compare can go.
  pub first_match-remove_at :
      (i : ℕ) (ds : List Bytes)
      → desc_cmp (get_or ds i []) id len rev ≡ false
      → first_match id len rev (remove_at i ds) ≡ first_match id len rev ds
  first_match-remove_at i [] p = refl
  first_match-remove_at zero (d ∷ ds) p = rw p refl
  first_match-remove_at (suc i) (d ∷ ds) p =
      ap (λ (o : Option Bytes). if desc_cmp d id len rev then some d else o)
        (first_match-remove_at i ds p)

-- A checksum descriptor is no OTUS descriptor.
pub desc_cmp-chk_otus :
    (d : Bytes) → desc_cmp d chk_magic 16 2 ≡ true → desc_cmp d otus_magic 32 7 ≡ false
unfolding desc_cmp check_hdr_version
desc_cmp-chk_otus d p = ground (arith, p)

pub remove_replace-All {ℓ} :
    (P : Bytes → Type ℓ) (c i : ℕ) (e : Bytes) (ds : List Bytes)
    → P e
    → All P (remove_at c ds)
    → All P (remove_at c (replace_at i e ds))
remove_replace-All P c i e [] q p = tt
remove_replace-All P zero zero e (d ∷ ds) q p = p
remove_replace-All P zero (suc i) e (d ∷ ds) q p = replace_at-All P i e ds q p
remove_replace-All P (suc c) zero e (d ∷ ds) q p = (q, p.1)
remove_replace-All P (suc c) (suc i) e (d ∷ ds) q p = (p.0, remove_replace-All P c i e ds q p.1)

-- The list without the descriptor that was found.
abbrev pub remove_found : Option ℕ → List Bytes → List Bytes
remove_found none ds = ds
remove_found (some c) ds = remove_at c ds

pub descs-without_chk :
    (fw : Carlfw) → (without_chk fw).descs ≡ remove_found (find_entry fw chk_magic 16 2) fw.descs
unfolding without_chk desc_del desc_unlink
descs-without_chk fw = go (find_entry fw chk_magic 16 2)
  where
    go : (o : Option ℕ) → (del_found fw o).descs ≡ remove_found o fw.descs
    go none = refl
    go (some c) = refl

remove_at-All {ℓ} :
    (P : Bytes → Type ℓ) (c : ℕ) (ds : List Bytes) → All P ds → All P (remove_at c ds)
remove_at-All P c [] p = tt
remove_at-All P zero (d ∷ ds) p = p.1
remove_at-All P (suc c) (d ∷ ds) p = (p.0, remove_at-All P c ds p.1)

pub remove_found-All {ℓ} :
    (P : Bytes → Type ℓ) (o : Option ℕ) (ds : List Bytes) → All P ds → All P (remove_found o ds)
remove_found-All P none ds p = p
remove_found-All P (some c) ds p = remove_at-All P c ds p

pub remove_found-replace {ℓ} :
    (P : Bytes → Type ℓ) (o : Option ℕ) (i : ℕ) (e : Bytes) (ds : List Bytes)
    → P e
    → All P (remove_found o ds)
    → All P (remove_found o (replace_at i e ds))
remove_found-replace P none i e ds q p = replace_at-All P i e ds q p
remove_found-replace P (some c) i e ds q p = remove_replace-All P c i e ds q p

total-remove_le : (c : ℕ) (ds : List Bytes) → total (remove_at c ds) ≤ total ds
total-remove_le c [] = omega arith
total-remove_le zero (d ∷ ds) = omega arith
total-remove_le (suc c) (d ∷ ds) = omega (arith, total-remove_le c ds)

pub total-remove_found : (o : Option ℕ) (ds : List Bytes) → total (remove_found o ds) ≤ total ds
total-remove_found none ds = omega arith
total-remove_found (some c) ds = total-remove_le c ds

-- The OTUS descriptor stays the first where the checksums go.
pub first_match-remove_found :
    (fw : Carlfw) (o : Option ℕ)
    → find_entry fw chk_magic 16 2 ≡ o
    → first_match otus_magic 32 7 (remove_found o fw.descs) ≡ first_match otus_magic 32 7 fw.descs
unfolding find_entry
first_match-remove_found fw none e = refl
first_match-remove_found fw (some c) e =
    let w = find_from-Found 0 c chk_magic 16 2 fw.descs e in
    let same : c - 0 ≡ c = omega arith in
    let compares : desc_cmp (get_or fw.descs c []) chk_magic 16 2 ≡ true =
      ap (λ (n : ℕ). desc_cmp (get_or fw.descs n []) chk_magic 16 2) (sym same) ∙ w.compares in
    first_match-remove_at otus_magic 32 7 c fw.descs
      (desc_cmp-chk_otus (get_or fw.descs c []) compares)

pub total-replace_same :
    (i : ℕ) (e : Bytes) (ds : List Bytes)
    → desc_length e ≡ desc_length (get_or ds i [])
    → total (replace_at i e ds) ≡ total ds
total-replace_same i e [] p = refl
total-replace_same zero e (d ∷ ds) p = ap (λ (n : ℕ). n + total ds) p
total-replace_same (suc i) e (d ∷ ds) p =
    ap (λ (n : ℕ). desc_length d + n) (total-replace_same i e ds p)
