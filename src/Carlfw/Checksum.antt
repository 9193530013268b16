-- ===== src/Carlfw/Checksum.antt =====
-- The two checksums of a firmware file: one of the image, and one of the descriptors that is
-- seeded with the first.
use carl9170fw.Base.{
  ℕ, zero, suc, ◌+◌, ◌/◌, ◌%◌, ◌==◌, ltb, if◌then◌else◌, List, [], ◌∷◌, ◌++◌, take, Bool, u32,
  Option, none, some, bit_xor,
}
use carl9170fw.Carlfw.Desc.{
  einval, enodata, emsgsize, Result, ok, err, ◌>>=◌, Bytes, word32, desc_length, desc_cmp, le32,
  fill_head, chk_magic,
}
use carl9170fw.Carlfw.Descs.{Carlfw, find_entry, desc_at, desc_add_tail, desc_del}

-- `crc32_le`: one bit, eight bits, and all octets.
abbrev pub crc_bit : ℕ → ℕ
crc_bit crc = u32 (bit_xor (crc / 2) (if crc % 2 == 1 then 0xedb88320 else 0))

abbrev pub crc_bits : ℕ → ℕ → ℕ
crc_bits zero crc = crc
crc_bits (suc n) crc = crc_bits n (crc_bit crc)

abbrev pub crc32_le : ℕ → Bytes → ℕ
crc32_le crc [] = crc
crc32_le crc (b ∷ bs) = crc32_le (crc_bits 8 (u32 (bit_xor crc b))) bs

-- CHK_MAGIC, sizeof(struct carl9170fw_chk_desc) and CARL9170FW_CHK_DESC_CUR_VER
abbrev pub is_chk : Bytes → Bool
is_chk d = desc_cmp d chk_magic 16 2

abbrev pub chk_desc : ℕ → ℕ → Bytes
chk_desc fw_crc32 hdr_crc32 = fill_head chk_magic 16 1 2 ++ (le32 fw_crc32 ++ le32 hdr_crc32)

-- The checksum descriptor that was there is deleted.
abbrev pub del_found : Carlfw → Option ℕ → Carlfw
del_found fw none = fw
del_found fw (some i) = desc_del fw i

unfoldable pub without_chk : Carlfw → Carlfw
without_chk fw = del_found fw (find_entry fw chk_magic 16 2)

-- The loop over the descriptors, with `len` and `crc32`.
abbrev pub sum_descs : ℕ → ℕ → ℕ → List Bytes → Result ℕ
sum_descs max_len len crc [] = ok crc
sum_descs max_len len crc (d ∷ ds) =
    let elen = desc_length d in
    let rest = sum_descs max_len (u32 (len + elen)) (crc32_le crc (take elen d)) ds in
    if ltb max_len (u32 (len + elen)) then err emsgsize else rest

-- `carlfw_apply_checksums`
unfoldable pub apply_checksums : Carlfw → Result Carlfw
unfolding without_chk
apply_checksums fw =
    let fw' = without_chk fw in
    let fw_crc32 = crc32_le 0xffffffff fw'.image in
    sum_descs fw'.desc_list_len 0 fw_crc32 fw'.descs >>= λ hdr_crc32.
    desc_add_tail fw' (chk_desc fw_crc32 hdr_crc32)

-- The loop of the check, which passes over checksum descriptors.
abbrev pub check_descs : ℕ → List Bytes → ℕ
check_descs crc [] = crc
check_descs crc (d ∷ ds) =
    let skipped = check_descs crc ds in
    let summed = check_descs (crc32_le crc (take (desc_length d) d)) ds in
    if is_chk d then skipped else summed

-- The verdict on a sum that is computed and one that is stored, twice.
abbrev pub compare_sums : ℕ → ℕ → ℕ → ℕ → Result Unit
compare_sums fw_sum fw_crc32 hdr_sum hdr_crc32 =
    if fw_sum == fw_crc32 then (if hdr_sum == hdr_crc32 then ok tt else err einval) else err einval

-- `carlfw_check_crc32s`, for the checksum descriptor that is found.
abbrev pub check_at : Carlfw → Option ℕ → Result Unit
check_at fw none = err enodata
check_at fw (some i) =
    let crc32 = crc32_le 0xffffffff fw.image in
    compare_sums crc32 (word32 (desc_at fw i) 8) (check_descs crc32 fw.descs)
      (word32 (desc_at fw i) 12)

unfoldable pub check_crc32s : Carlfw → Result Unit
check_crc32s fw = check_at fw (find_entry fw chk_magic 16 2)
