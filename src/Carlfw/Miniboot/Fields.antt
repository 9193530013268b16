-- ===== src/Carlfw/Miniboot/Fields.antt =====
-- The fields of the descriptor after they are written.
use carl9170fw.Base.{
  ℕ, suc, ◌+◌, ◌/◌, ◌%◌, ◌^◌, ◌≡◌, ◌≢◌, ◌≤◌, ◌<◌, refl, ◌∙◌, ==-ne, not, true, ap, [], ◌∷◌, length,
  set, length-set, get_or-set_self, get_or-set_ne, arith, bit_and, bit_or, bit_and-digit,
  bit_or-digit, bit_and-first,
}
use carl9170fw.Carlfw.Desc.{Bytes, byte, le16, le32, desc_length, desc_cmp, check_hdr_version}
use carl9170fw.Carlfw.File.{is_hdr}
use carl9170fw.Carlfw.Miniboot.{fw_supports, put_octets, feature_set, miniboot_size, with_mini}

length-put_octets : (i : ℕ) (new d : Bytes) → length (put_octets i new d) ≡ length d
length-put_octets i [] d = refl
length-put_octets i (x ∷ new) d = length-put_octets (suc i) new (set d i x) ∙ length-set d i x

-- Octets before the place stay.
byte-put_octets : (i j : ℕ) (new d : Bytes) → j < i → byte (put_octets i new d) j ≡ byte d j
byte-put_octets i j [] d p = refl
byte-put_octets i j (x ∷ new) d p =
    let apart : i ≢ j = λ e. omega (arith, e) in
    byte-put_octets (suc i) j new (set d i x) (omega arith) ∙ get_or-set_ne d i j x 0 apart

-- The octet at the place is the first.
byte-put_octets_first :
    (i x : ℕ) (new d : Bytes) → i < length d → byte (put_octets i (x ∷ new) d) i ≡ x
byte-put_octets_first i x new d p =
    byte-put_octets (suc i) i new (set d i x) (omega arith) ∙ get_or-set_self d i x 0 p

module _ (features size : ℕ) (d : Bytes) where
  pub length-with_mini : length (with_mini features size d) ≡ length d
  length-with_mini =
      length-put_octets 22 (le16 size) (put_octets 8 (le32 features) d)
      ∙ length-put_octets 8 (le32 features) d

  kept_head : (j : ℕ) → j < 8 → byte (with_mini features size d) j ≡ byte d j
  kept_head j p =
      byte-put_octets 22 j (le16 size) (put_octets 8 (le32 features) d) (omega arith)
      ∙ byte-put_octets 8 j (le32 features) d p

  pub desc_length-with_mini : desc_length (with_mini features size d) ≡ desc_length d
  desc_length-with_mini = rw (kept_head 4 (omega arith)) rw (kept_head 5 (omega arith)) refl

  -- The descriptor is found as before.
  pub desc_cmp-with_mini :
      (id : Bytes) (len rev : ℕ)
      → desc_cmp (with_mini features size d) id len rev ≡ desc_cmp d id len rev
  unfolding desc_cmp check_hdr_version
  desc_cmp-with_mini id len rev =
      rw (kept_head 0 (omega arith)) rw (kept_head 1 (omega arith)) rw (kept_head 2 (omega arith))
        rw (kept_head 3 (omega arith)) rw (kept_head 4 (omega arith)) rw (kept_head 5 (omega arith))
        rw (kept_head 6 (omega arith)) rw (kept_head 7 (omega arith)) refl

  pub is_hdr-with_mini : is_hdr (with_mini features size d) ≡ is_hdr d
  is_hdr-with_mini =
      rw (kept_head 0 (omega arith)) rw (kept_head 1 (omega arith)) rw (kept_head 2 (omega arith))
        rw (kept_head 3 (omega arith)) rw (kept_head 4 (omega arith)) rw (kept_head 5 (omega arith))
        refl

  module _ (long : 32 ≤ length d) where
    pub miniboot_size-with_mini : size < 65536 → miniboot_size (with_mini features size d) ≡ size
    miniboot_size-with_mini p =
        let e : Bytes = put_octets 8 (le32 features) d in
        let n : length e ≡ length d = length-put_octets 8 (le32 features) d in
        let low : byte (with_mini features size d) 22 ≡ size % 256 =
          byte-put_octets_first 22 (size % 256) (size / 256 % 256 ∷ []) e (omega (arith, n)) in
        let high : byte (with_mini features size d) 23 ≡ size / 256 % 256 =
          byte-put_octets_first 23 (size / 256 % 256) [] (set e 22 (size % 256))
            (omega (arith, n, length-set e 22 (size % 256))) in
        omega (arith, low, high)

    pub feature_set-with_mini : feature_set (with_mini features size d) ≡ features % 2 ^ 32
    feature_set-with_mini =
        let a : ℕ = features % 256 in
        let b : ℕ = features / 256 % 256 in
        let c : ℕ = features / 65536 % 256 in
        let e : ℕ = features / 16777216 % 256 in
        let d1 : Bytes = set d 8 a in
        let d2 : Bytes = set d1 9 b in
        let d3 : Bytes = set d2 10 c in
        let n1 : length d1 ≡ length d = length-set d 8 a in
        let n2 : length d2 ≡ length d1 = length-set d1 9 b in
        let n3 : length d3 ≡ length d2 = length-set d2 10 c in
        let after : Bytes = put_octets 8 (le32 features) d in
        let at : (j : ℕ) → j < 22 → byte (with_mini features size d) j ≡ byte after j =
          λ j p. byte-put_octets 22 j (le16 size) after p in
        let f0 : byte after 8 ≡ a = byte-put_octets_first 8 a (b ∷ c ∷ e ∷ []) d (omega arith) in
        let f1 : byte after 9 ≡ b = byte-put_octets_first 9 b (c ∷ e ∷ []) d1 (omega arith) in
        let f2 : byte after 10 ≡ c = byte-put_octets_first 10 c (e ∷ []) d2 (omega arith) in
        let f3 : byte after 11 ≡ e = byte-put_octets_first 11 e [] d3 (omega arith) in
        omega (
          arith,
          at 8 (omega arith) ∙ f0,
          at 9 (omega arith) ∙ f1,
          at 10 (omega arith) ∙ f2,
          at 11 (omega arith) ∙ f3,
        )

-- The bit that is set is read as set, in 32 bits.
second_bit : (v : ℕ) → bit_and v 2 ≡ v / 2 % 2 + v / 2 % 2
second_bit v = omega (arith, bit_and-digit v 2, bit_and-first (v / 2))

set_bit : (v : ℕ) → bit_or v 2 / 2 % 2 ≡ 1
set_bit v = omega (arith, bit_or-digit v 2, bit_or-digit (v / 2) 1)

pub fw_supports-bit_or : (v : ℕ) → fw_supports (bit_or v 2 % 2 ^ 32) 1 ≡ true
fw_supports-bit_or v =
    let w : ℕ = bit_or v 2 % 2 ^ 32 in
    let two : bit_and w 2 ≡ 2 = omega (arith, second_bit w, set_bit v) in
    ap not (==-ne (bit_and w 2) 0 (λ e. omega (arith, e, two)))
