-- ===== src/Carlfw/Replaced.antt =====
-- A descriptor of the list is replaced by one of the same length, and what the search finds then.
use mathlib.Core.Option.{some-ne-none}
use carl9170fw.Carlfw.Checked.{find_from-bound}
use carl9170fw.Base.{
  ℕ, zero, suc, ◌-◌, ◌≡◌, ◌≢◌, ◌<◌, refl, sym, ◌∙◌, ap, subst, if◌then◌else◌, List, [], ◌∷◌, get_or,
  length, Bool, true, Option, some, Bool-cases, inl, inr, arith, u32,
}
use carl9170fw.Carlfw.Desc.{Bytes, desc_length, desc_cmp}
use carl9170fw.Carlfw.Descs.{Carlfw, find_from, desc_at, replace_at}
use carl9170fw.Carlfw.Counts.{IsWhole, IsValid}
use carl9170fw.Carlfw.Resize.{replace_at-All, get_or-All, length-replace_at, total-replace_at}

-- What is found is in the list, and compares.
pub record Found (id : Bytes) (len rev i : ℕ) (ds : List Bytes) : Type 0 where
  pub inside : i < length ds
  pub compares : desc_cmp (get_or ds i []) id len rev ≡ true

pub find_from-Found :
    (k n : ℕ) (id : Bytes) (len rev : ℕ) (ds : List Bytes)
    → find_from k id len rev ds ≡ some n
    → Found id len rev (n - k) ds
find_from-Found k n id len rev [] p = absurd (some-ne-none n (sym p))
find_from-Found k n id len rev (d ∷ ds) p = elim (Bool-cases (desc_cmp d id len rev)) [
  | inl t ↦
      let here : k ≡ n = ground (arith, t) in
      let first : 0 ≡ n - k = omega (arith, here) in
      subst (λ j. Found id len rev j (d ∷ ds)) first (record { inside = omega arith; compares = t })
  | inr t ↦
      let there : find_from (suc k) id len rev ds ≡ some n = ground (arith, t) in
      let after = find_from-bound (suc k) id len rev ds n there in
      let w : Found id len rev (n - suc k) ds = find_from-Found (suc k) n id len rev ds there in
      let next : suc (n - suc k) ≡ n - k = omega (arith, after.0) in
      subst (λ j. Found id len rev j (d ∷ ds)) next
        (record { inside = omega (arith, w.inside); compares = w.compares })
]

pub get_or-replace_at :
    (i : ℕ) (e : Bytes) (ds : List Bytes) → i < length ds → get_or (replace_at i e ds) i [] ≡ e
get_or-replace_at i e [] p = absurd (omega arith)
get_or-replace_at zero e (d ∷ ds) p = refl
get_or-replace_at (suc i) e (d ∷ ds) p = get_or-replace_at i e ds (omega arith)

pub get_or-replace_at_ne :
    (i j : ℕ) (e : Bytes) (ds : List Bytes)
    → j ≢ i
    → get_or (replace_at i e ds) j [] ≡ get_or ds j []
get_or-replace_at_ne i j e [] p = refl
get_or-replace_at_ne zero zero e (d ∷ ds) p = absurd (p refl)
get_or-replace_at_ne zero (suc j) e (d ∷ ds) p = refl
get_or-replace_at_ne (suc i) zero e (d ∷ ds) p = refl
get_or-replace_at_ne (suc i) (suc j) e (d ∷ ds) p =
    get_or-replace_at_ne i j e ds (λ q. p (ap suc q))

-- A descriptor that compares as the one it replaces does not change the search.
pub find_from-replace_at :
    (k i : ℕ) (id : Bytes) (len rev : ℕ) (e : Bytes) (ds : List Bytes)
    → desc_cmp e id len rev ≡ desc_cmp (get_or ds i []) id len rev
    → find_from k id len rev (replace_at i e ds) ≡ find_from k id len rev ds
find_from-replace_at k i id len rev e [] p = refl
find_from-replace_at k zero id len rev e (d ∷ ds) p =
    ap (λ (b : Bool). if b then some k else find_from (suc k) id len rev ds) p
find_from-replace_at k (suc i) id len rev e (d ∷ ds) p =
    ap (λ (r : Option ℕ). if desc_cmp d id len rev then some k else r)
      (find_from-replace_at (suc k) i id len rev e ds p)

-- A descriptor is replaced by one of the same length.
pub same_length-IsValid :
    (fw : Carlfw) (i : ℕ) (e image : Bytes)
    → IsValid fw
    → i < length fw.descs
    → length e ≡ length (desc_at fw i)
    → desc_length e ≡ desc_length (desc_at fw i)
    → IsValid (record fw { image = image; descs = replace_at i e fw.descs })
same_length-IsValid fw i e image v p n l =
    let w : IsWhole (desc_at fw i) = get_or-All IsWhole i fw.descs p v.whole in
    record {
      whole =
          replace_at-All IsWhole i e fw.descs
            (record { headed = omega (arith, l, w.headed); sized = omega (arith, n, l, w.sized) })
            v.whole;
      entries_are = v.entries_are ∙ ap u32 (sym (length-replace_at i e fw.descs));
      len_is = v.len_is ∙ ap u32 (omega (arith, l, total-replace_at i e fw.descs p));
    }
