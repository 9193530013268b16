-- ===== src/Carlfw/Checked.antt =====
-- The checksums that are applied are the ones that the check wants.
use carl9170fw.Base.{
  ℕ, zero, suc, ◌+◌, ◌^◌, ◌≡◌, ◌≤◌, ◌<◌, refl, sym, ◌∙◌, ap, ap₂, ltb, if◌then◌else◌, List, [], ◌∷◌,
  ◌++◌, get_or, length, take, Bool, true, false, u32, Option, none, some, bit_xor, All, arith,
  Bool-cases, inl, inr,
}
use carl9170fw.Carlfw.Desc.{
  Result, ok, ◌>>=◌, Bytes, word32, desc_length, desc_cmp, le32, chk_magic,
}
use carl9170fw.Carlfw.Descs.{Carlfw, find_from, find_entry, desc_add_tail, desc_del}
use carl9170fw.Carlfw.Counts.{IsValid, total, add-tail-Added, del-IsValid}
use carl9170fw.Carlfw.Checksum.{
  crc_bit, crc_bits, crc32_le, is_chk, chk_desc, without_chk, del_found, sum_descs, apply_checksums,
  check_descs, check_crc32s, compare_sums, check_at,
}

crc_bits-bound : (n crc : ℕ) → crc < 2 ^ 32 → crc_bits n crc < 2 ^ 32
crc_bits-bound zero crc p = p
crc_bits-bound (suc n) crc p = crc_bits-bound n (crc_bit crc) (omega arith)

crc32_le-bound : (crc : ℕ) (bs : Bytes) → crc < 2 ^ 32 → crc32_le crc bs < 2 ^ 32
crc32_le-bound crc [] p = p
crc32_le-bound crc (b ∷ bs) p =
    crc32_le-bound (crc_bits 8 (u32 (bit_xor crc b))) bs
      (crc_bits-bound 8 (u32 (bit_xor crc b)) (omega arith))

pub find_from-bound :
    (k : ℕ) (id : Bytes) (len rev : ℕ) (ds : List Bytes) (i : ℕ)
    → find_from k id len rev ds ≡ some i
    → (k ≤ i) × (i < k + length ds)
find_from-bound k id len rev [] i e = absurd (ground arith)
find_from-bound k id len rev (d ∷ ds) i e = elim (Bool-cases (desc_cmp d id len rev)) [
  | inl t ↦ ground (arith, t)
  | inr t ↦ let w = find_from-bound (suc k) id len rev ds i (ground (arith, t)) in ground arith
]

without_chk-IsValid : (fw : Carlfw) → IsValid fw → IsValid (without_chk fw)
unfolding without_chk find_entry
without_chk-IsValid fw v = go (find_entry fw chk_magic 16 2) refl
  where
    go : (o : Option ℕ) → find_entry fw chk_magic 16 2 ≡ o → IsValid (del_found fw o)
    go none e = v
    go (some i) e =
        del-IsValid fw i v (omega (arith, (find_from-bound 0 chk_magic 16 2 fw.descs i e).1))

-- A list without checksum descriptors.
abbrev pub NoChk : List Bytes → Type 0
NoChk ds = All (λ d. is_chk d ≡ false) ds

sum_descs-ok :
    (max_len len crc : ℕ) (ds : List Bytes)
    → NoChk ds
    → len + total ds ≤ max_len
    → max_len < 2 ^ 32
    → sum_descs max_len len crc ds ≡ ok (check_descs crc ds)
sum_descs-ok max_len len crc [] n p q = refl
sum_descs-ok max_len len crc (d ∷ ds) n p q =
    let t : ltb max_len (u32 (len + desc_length d)) ≡ false = ground arith in
    let ih =
      sum_descs-ok max_len (u32 (len + desc_length d)) (crc32_le crc (take (desc_length d) d)) ds
        n.1 (omega arith) q in
    rw t rw n.0 ih

check_descs-chk :
    (crc : ℕ) (ds : List Bytes) (c : Bytes)
    → is_chk c ≡ true
    → check_descs crc (ds ++ c ∷ []) ≡ check_descs crc ds
check_descs-chk crc [] c t = rw t refl
check_descs-chk crc (d ∷ ds) c t =
    ap₂ (λ (a b : ℕ). if is_chk d then a else b) (check_descs-chk crc ds c t)
      (check_descs-chk (crc32_le crc (take (desc_length d) d)) ds c t)

find_from-chk :
    (k : ℕ) (ds : List Bytes) (c : Bytes)
    → NoChk ds
    → is_chk c ≡ true
    → find_from k chk_magic 16 2 (ds ++ c ∷ []) ≡ some (k + length ds)
find_from-chk k [] c n t =
    let here : k ≡ k + 0 = omega arith in
    ap (λ (b : Bool). if b then some k else none) t ∙ ap some here
find_from-chk k (d ∷ ds) c n t =
    let ih : find_from (suc k) chk_magic 16 2 (ds ++ c ∷ []) ≡ some (k + suc (length ds)) =
      find_from-chk (suc k) ds c n.1 t ∙ ap some (omega arith) in
    rw n.0 ih

get_or-last : (ds : List Bytes) (c : Bytes) → get_or (ds ++ c ∷ []) (length ds) [] ≡ c
get_or-last [] c = refl
get_or-last (d ∷ ds) c = get_or-last ds c

word32-le32 : (n : ℕ) → n < 2 ^ 32 → word32 (le32 n) 0 ≡ n
word32-le32 n p = omega arith

check_descs-bound : (crc : ℕ) (ds : List Bytes) → crc < 2 ^ 32 → check_descs crc ds < 2 ^ 32
check_descs-bound crc [] p = p
check_descs-bound crc (d ∷ ds) p =
    let a = check_descs-bound crc ds p in
    let b =
      check_descs-bound (crc32_le crc (take (desc_length d) d)) ds
        (crc32_le-bound crc (take (desc_length d) d) p) in
    ground arith

is_chk-chk_desc : (a b : ℕ) → is_chk (chk_desc a b) ≡ true
unfolding desc_cmp
is_chk-chk_desc a b = refl

compare_sums-agree : (a b c d : ℕ) → b ≡ a → c ≡ d → compare_sums a b c d ≡ ok tt
compare_sums-agree a b c d p q = ground arith

-- The check of a list that ends in its checksums.
check_crc32s-chk :
    (fw : Carlfw) (ds : List Bytes)
    → NoChk ds
    → fw.descs
      ≡ ds
        ++ chk_desc (crc32_le 0xffffffff fw.image) (check_descs (crc32_le 0xffffffff fw.image) ds)
          ∷ []
    → check_crc32s fw ≡ ok tt
unfolding check_crc32s find_entry
check_crc32s-chk fw ds n e =
    let crc : ℕ = crc32_le 0xffffffff fw.image in
    let sum : ℕ = check_descs crc ds in
    let c : Bytes = chk_desc crc sum in
    let found : find_from 0 chk_magic 16 2 fw.descs ≡ some (length ds) =
      ap (find_from 0 chk_magic 16 2) e
      ∙ find_from-chk 0 ds c n (is_chk-chk_desc crc sum)
      ∙ ap some (omega arith) in
    let at : get_or fw.descs (length ds) [] ≡ c =
      ap (λ (xs : List Bytes). get_or xs (length ds) []) e ∙ get_or-last ds c in
    let first : word32 (get_or fw.descs (length ds) []) 8 ≡ crc =
      ap (λ (d : Bytes). word32 d 8) at
      ∙ word32-le32 crc (crc32_le-bound 0xffffffff fw.image (omega arith)) in
    let second : word32 (get_or fw.descs (length ds) []) 12 ≡ sum =
      ap (λ (d : Bytes). word32 d 12) at
      ∙ word32-le32 sum
          (check_descs-bound crc ds (crc32_le-bound 0xffffffff fw.image (omega arith))) in
    let all : check_descs crc fw.descs ≡ sum =
      ap (check_descs crc) e ∙ check_descs-chk crc ds c (is_chk-chk_desc crc sum) in
    ap (check_at fw) found ∙ compare_sums-agree crc _ _ _ first (all ∙ sym second)

-- What applying the checksums promises of its result.
pub record Stored (fw : Carlfw) (r : Result Carlfw) : Type 0 where
  pub file : Carlfw
  pub returns : r ≡ ok file
  pub passes : check_crc32s file ≡ ok tt
  pub valid : IsValid file
  pub kept : file.image ≡ fw.image
  pub listed : (a : ℕ) × (b : ℕ) × (file.descs ≡ (without_chk fw).descs ++ chk_desc a b ∷ [])

image-without_chk : (fw : Carlfw) → (without_chk fw).image ≡ fw.image
unfolding without_chk desc_del
image-without_chk fw = go (find_entry fw chk_magic 16 2)
  where
    go : (o : Option ℕ) → (del_found fw o).image ≡ fw.image
    go none = refl
    go (some i) = refl

-- On a valid list whose descriptors have less than 2 ^ 32 octets in all, and in which no checksum
-- descriptor is left when the first is deleted, applying the checksums returns a file. The check
-- passes it, it is valid, and its image is the one before.
pub apply_checksums-Stored :
    (fw : Carlfw)
    → IsValid fw
    → NoChk (without_chk fw).descs
    → total (without_chk fw).descs < 2 ^ 32
    → Stored fw (apply_checksums fw)
unfolding apply_checksums
apply_checksums-Stored fw v n p =
    let fw' : Carlfw = without_chk fw in
    let v' : IsValid fw' = without_chk-IsValid fw v in
    let crc : ℕ = crc32_le 0xffffffff fw'.image in
    let sum : ℕ = check_descs crc fw'.descs in
    let c : Bytes = chk_desc crc sum in
    let summed : sum_descs fw'.desc_list_len 0 crc fw'.descs ≡ ok sum =
      sum_descs-ok fw'.desc_list_len 0 crc fw'.descs n (omega (arith, v'.len_is, p))
        (omega (arith, v'.len_is)) in
    let w = (add-tail-Added fw' c v' (omega arith)).added (omega arith) in
    record {
      file = w.0;
      returns =
          ap (λ (r : Result ℕ). r >>= λ hdr. desc_add_tail fw' (chk_desc crc hdr)) summed ∙ w.1;
      passes = check_crc32s-chk w.0 fw'.descs n (
          w.2
          ∙ ap
              (λ (im : Bytes).
                fw'.descs
                ++ chk_desc (crc32_le 0xffffffff im)
                    (check_descs (crc32_le 0xffffffff im) fw'.descs)
                  ∷ [])
              (sym w.3));
      valid = w.4;
      kept = w.3 ∙ image-without_chk fw;
      listed = (crc, sum, w.2);
    }
