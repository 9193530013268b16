-- ===== src/Carlfw/Counts.antt =====
-- The counters of the list of descriptors are right.
use carl9170fw.Base.{
  ℕ, zero, suc, ◌+◌, ◌*◌, ◌≡◌, ◌≤◌, ◌<◌, refl, ◌∙◌, ap₂, ltb, List, [], ◌∷◌, ◌++◌, get_or, length,
  take, drop, true, false, u16, u32, arith, All, length-append, length-take, All-append,
}
use carl9170fw.Carlfw.Desc.{einval, Result, ok, err, Bytes, byte, desc_length, desc_head_size}
use carl9170fw.Carlfw.Descs.{Carlfw, desc_add_tail, desc_add_before, insert_at, remove_at, desc_del}

-- A descriptor has as many octets as its length says, and a head.
pub record IsWhole (d : Bytes) : Type 0 where
  pub headed : desc_head_size ≤ desc_length d
  pub sized : length d ≡ desc_length d

-- The octets of several descriptors.
abbrev pub total : List Bytes → ℕ
total [] = 0
total (d ∷ ds) = desc_length d + total ds

pub record IsValid (fw : Carlfw) : Type 0 where
  pub whole : All IsWhole fw.descs
  pub entries_are : fw.desc_list_entries ≡ u32 (length fw.descs)
  pub len_is : fw.desc_list_len ≡ u32 (total fw.descs)

pub total-append : (ds es : List Bytes) → total (ds ++ es) ≡ total ds + total es
total-append [] es = omega arith
total-append (d ∷ ds) es = omega (arith, total-append ds es)

pub All-take {ℓ κ} :
    {A : Type ℓ} (P : A → Type κ) (n : ℕ) (xs : List A) → All P xs → All P (take n xs)
All-take P zero xs p = tt
All-take P (suc n) [] p = tt
All-take P (suc n) (x ∷ xs) p = (p.0, All-take P n xs p.1)

pub All-drop {ℓ κ} :
    {A : Type ℓ} (P : A → Type κ) (n : ℕ) (xs : List A) → All P xs → All P (drop n xs)
All-drop P zero xs p = p
All-drop P (suc n) [] p = tt
All-drop P (suc n) (x ∷ xs) p = All-drop P n xs p.1

byte-take : (n i : ℕ) (bs : Bytes) → i < n → byte (take n bs) i ≡ byte bs i
byte-take zero i bs p = absurd (omega arith)
byte-take (suc n) i [] p = refl
byte-take (suc n) zero (b ∷ bs) p = refl
byte-take (suc n) (suc i) (b ∷ bs) p = byte-take n i bs (omega arith)

pub desc_length-take : (n : ℕ) (bs : Bytes) → 8 ≤ n → desc_length (take n bs) ≡ desc_length bs
desc_length-take n bs p =
    ap₂ (λ (a b : ℕ). u16 (a + b * 256)) (byte-take n 4 bs (omega arith))
      (byte-take n 5 bs (omega arith))

pub copy-IsWhole :
    (d : Bytes)
    → desc_head_size ≤ desc_length d
    → desc_length d ≤ length d
    → IsWhole (take (desc_length d) d)
copy-IsWhole d h m = record {
  headed = omega (arith, desc_length-take (desc_length d) d h);
  sized = length-take (desc_length d) d ∙ omega (arith, desc_length-take (desc_length d) d h);
}

-- The list with one more entry.
added-IsValid :
    (fw : Carlfw) (ds : List Bytes) (len : ℕ)
    → IsValid fw
    → All IsWhole ds
    → length ds ≡ suc (length fw.descs)
    → total ds ≡ total fw.descs + len
    → IsValid (record fw {
      descs = ds;
      desc_list_entries = u32 (fw.desc_list_entries + 1);
      desc_list_len = u32 (fw.desc_list_len + len);
    })
added-IsValid fw ds len v w n t = record {
  whole = w;
  entries_are = omega (arith, v.entries_are);
  len_is = omega (arith, v.len_is);
}

-- What adding a descriptor promises.
pub record Added (fw : Carlfw) (d : Bytes) (ds : List Bytes) (r : Result Carlfw) : Type 0 where
  pub short : desc_length d < desc_head_size → r ≡ err einval
  pub added :
      desc_head_size ≤ desc_length d
      → (fw' : Carlfw) × (r ≡ ok fw') × (fw'.descs ≡ ds) × (fw'.image ≡ fw.image) × IsValid fw'

-- Adding a descriptor that is in memory to a valid list: one whose length is below that of a head is
-- refused with EINVAL. Otherwise a valid list is returned, with the octets that the length says
-- at its end, and the image is the one before.
pub add-tail-Added :
    (fw : Carlfw) (d : Bytes)
    → IsValid fw
    → desc_length d ≤ length d
    → Added fw d (fw.descs ++ take (desc_length d) d ∷ []) (desc_add_tail fw d)
unfolding desc_add_tail
add-tail-Added fw d v m = record {
  short = λ s. let t : ltb (desc_length d) desc_head_size ≡ true = ground arith in rw t refl;
  added = λ h.
      let t : ltb (desc_length d) desc_head_size ≡ false = ground arith in
      let e : Bytes = take (desc_length d) d in
      (
        record fw {
          descs = fw.descs ++ e ∷ [];
          desc_list_entries = u32 (fw.desc_list_entries + 1);
          desc_list_len = u32 (fw.desc_list_len + desc_length d);
        },
        rw t refl,
        refl,
        refl,
        added-IsValid fw (fw.descs ++ e ∷ []) (desc_length d) v
            (All-append IsWhole fw.descs (e ∷ []) v.whole (copy-IsWhole d h m, tt))
            (length-append fw.descs (e ∷ []) ∙ omega arith)
            (total-append fw.descs (e ∷ []) ∙ omega (arith, desc_length-take (desc_length d) d h)),
      );
}

take-drop-total : (i : ℕ) (ds : List Bytes) → total (take i ds) + total (drop i ds) ≡ total ds
take-drop-total zero ds = omega arith
take-drop-total (suc i) [] = refl
take-drop-total (suc i) (d ∷ ds) = omega (arith, take-drop-total i ds)

length-take-drop : (i : ℕ) (ds : List Bytes) → length (take i ds) + length (drop i ds) ≡ length ds
length-take-drop zero ds = omega arith
length-take-drop (suc i) [] = refl
length-take-drop (suc i) (d ∷ ds) = omega (arith, length-take-drop i ds)

pub add-before-Added :
    (fw : Carlfw) (d : Bytes) (i : ℕ)
    → IsValid fw
    → desc_length d ≤ length d
    → Added fw d (insert_at i (take (desc_length d) d) fw.descs) (desc_add_before fw d i)
unfolding desc_add_before
add-before-Added fw d i v m = record {
  short = λ s. let t : ltb (desc_length d) desc_head_size ≡ true = ground arith in rw t refl;
  added = λ h.
      let t : ltb (desc_length d) desc_head_size ≡ false = ground arith in
      let e : Bytes = take (desc_length d) d in
      let ds : List Bytes = insert_at i e fw.descs in
      (
        record fw {
          descs = ds;
          desc_list_entries = u32 (fw.desc_list_entries + 1);
          desc_list_len = u32 (fw.desc_list_len + desc_length d);
        },
        rw t refl,
        refl,
        refl,
        added-IsValid fw ds (desc_length d) v
            (All-append IsWhole (take i fw.descs) (e ∷ drop i fw.descs)
              (All-take IsWhole i fw.descs v.whole)
              (copy-IsWhole d h m, All-drop IsWhole i fw.descs v.whole))
            (length-append (take i fw.descs) (e ∷ drop i fw.descs)
              ∙ omega (arith, length-take-drop i fw.descs))
            (total-append (take i fw.descs) (e ∷ drop i fw.descs)
              ∙ omega (arith, take-drop-total i fw.descs, desc_length-take (desc_length d) d h)),
      );
}

-- Removing an entry.
remove_at-All {ℓ} :
    (P : Bytes → Type ℓ) (i : ℕ) (ds : List Bytes) → All P ds → All P (remove_at i ds)
remove_at-All P i [] p = tt
remove_at-All P zero (d ∷ ds) p = p.1
remove_at-All P (suc i) (d ∷ ds) p = (p.0, remove_at-All P i ds p.1)

length-remove_at :
    (i : ℕ) (ds : List Bytes) → i < length ds → suc (length (remove_at i ds)) ≡ length ds
length-remove_at i [] p = absurd (omega arith)
length-remove_at zero (d ∷ ds) p = omega arith
length-remove_at (suc i) (d ∷ ds) p = omega (arith, length-remove_at i ds (omega arith))

pub total-remove_at :
    (i : ℕ) (ds : List Bytes)
    → i < length ds
    → desc_length (get_or ds i []) + total (remove_at i ds) ≡ total ds
total-remove_at i [] p = absurd (omega arith)
total-remove_at zero (d ∷ ds) p = refl
total-remove_at (suc i) (d ∷ ds) p = omega (arith, total-remove_at i ds (omega arith))

pub del-IsValid : (fw : Carlfw) (i : ℕ) → IsValid fw → i < length fw.descs → IsValid (desc_del fw i)
unfolding desc_del
del-IsValid fw i v p = record {
  whole = remove_at-All IsWhole i fw.descs v.whole;
  entries_are = omega (arith, v.entries_are, length-remove_at i fw.descs p);
  len_is = omega (arith, v.len_is, total-remove_at i fw.descs p);
}
