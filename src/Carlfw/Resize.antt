-- ===== src/Carlfw/Resize.antt =====
-- The length of a descriptor changes, and the counters keep step.
use carl9170fw.Base.{
  ℕ, zero, suc, ◌+◌, ◌-◌, ◌/◌, ◌%◌, ◌≡◌, ◌≤◌, ◌<◌, refl, sym, ◌∙◌, ap, List, [], ◌∷◌, ◌++◌, get_or,
  length, take, drop, u32, arith, All, length-append, length-take, length-drop,
}
use carl9170fw.Carlfw.Desc.{Bytes, byte, desc_length, desc_head_size, desc_max_length, le16}
use carl9170fw.Carlfw.Descs.{Carlfw, desc_at, replace_at, resized}
use carl9170fw.Carlfw.Counts.{IsWhole, IsValid, total}

pub replace_at-All {ℓ} :
    (P : Bytes → Type ℓ) (i : ℕ) (e : Bytes) (ds : List Bytes)
    → P e
    → All P ds
    → All P (replace_at i e ds)
replace_at-All P i e [] q p = tt
replace_at-All P zero e (d ∷ ds) q p = (q, p.1)
replace_at-All P (suc i) e (d ∷ ds) q p = (p.0, replace_at-All P i e ds q p.1)

pub get_or-All {ℓ} :
    (P : Bytes → Type ℓ) (i : ℕ) (ds : List Bytes) → i < length ds → All P ds → P (get_or ds i [])
get_or-All P i [] p q = absurd (omega arith)
get_or-All P zero (d ∷ ds) p q = q.0
get_or-All P (suc i) (d ∷ ds) p q = get_or-All P i ds (omega arith) q.1

pub length-replace_at :
    (i : ℕ) (e : Bytes) (ds : List Bytes) → length (replace_at i e ds) ≡ length ds
length-replace_at i e [] = refl
length-replace_at zero e (d ∷ ds) = refl
length-replace_at (suc i) e (d ∷ ds) = ap suc (length-replace_at i e ds)

pub total-replace_at :
    (i : ℕ) (e : Bytes) (ds : List Bytes)
    → i < length ds
    → total (replace_at i e ds) + desc_length (get_or ds i []) ≡ total ds + desc_length e
total-replace_at i e [] p = absurd (omega arith)
total-replace_at zero e (d ∷ ds) p = omega arith
total-replace_at (suc i) e (d ∷ ds) p = omega (arith, total-replace_at i e ds (omega arith))

-- The resized descriptor has the length that was asked for, in its field and in octets.
take-four :
    (d rest : Bytes) (a b : ℕ)
    → 4 ≤ length d
    → (byte (take 4 d ++ a ∷ b ∷ rest) 4 ≡ a) × (byte (take 4 d ++ a ∷ b ∷ rest) 5 ≡ b)
take-four [] rest a b p = absurd (omega arith)
take-four (p ∷ []) rest a b h = absurd (omega arith)
take-four (p ∷ q ∷ []) rest a b h = absurd (omega arith)
take-four (p ∷ q ∷ r ∷ []) rest a b h = absurd (omega arith)
take-four (p ∷ q ∷ r ∷ s ∷ d) rest a b h = (refl, refl)

desc_length-resized :
    (added d : Bytes) (n : ℕ)
    → 4 ≤ length d
    → n ≤ desc_max_length
    → desc_length (resized added d n) ≡ n
desc_length-resized added d n h p =
    let w = take-four d (drop 6 (take n (d ++ added))) (n % 256) (n / 256 % 256) h in
    omega (arith, w.0, w.1)

length-resized :
    (added d : Bytes) (n : ℕ)
    → 4 ≤ length d
    → 6 ≤ n
    → n ≤ length d + length added
    → length (resized added d n) ≡ n
length-resized added d n h s p =
    let rest : Bytes = drop 6 (take n (d ++ added)) in
    let all : length (resized added d n) ≡ length (take 4 d) + suc (suc (length rest)) =
      length-append (take 4 d) (le16 n ++ rest) in
    omega (
      arith,
      all,
      length-take 4 d,
      length-drop 6 (take n (d ++ added)),
      length-take n (d ++ added),
      length-append d added,
    )

-- An entry is replaced by one of another length.
pub replaced-IsValid :
    (fw : Carlfw) (i n : ℕ) (added : Bytes) (len : ℕ)
    → IsValid fw
    → i < length fw.descs
    → desc_head_size ≤ n
    → n ≤ desc_max_length
    → n ≤ length (desc_at fw i) + length added
    → len ≡ u32 (total fw.descs + n - desc_length (desc_at fw i))
    → IsValid (record fw {
      descs = replace_at i (resized added (desc_at fw i) n) fw.descs;
      desc_list_len = len;
    })
replaced-IsValid fw i n added len v p h m s e =
    let d : Bytes = desc_at fw i in
    let w : IsWhole d = get_or-All IsWhole i fw.descs p v.whole in
    let long : 4 ≤ length d = omega (arith, w.headed, w.sized) in
    let is : desc_length (resized added d n) ≡ n = desc_length-resized added d n long m in
    record {
      whole =
          replace_at-All IsWhole i (resized added d n) fw.descs
            (record {
              headed = omega (arith, is);
              sized = omega (arith, is, length-resized added d n long (omega arith) s);
            })
            v.whole;
      entries_are = v.entries_are ∙ ap u32 (sym (length-replace_at i (resized added d n) fw.descs));
      len_is = e ∙ ap u32 (omega (arith, is, total-replace_at i (resized added d n) fw.descs p));
    }
