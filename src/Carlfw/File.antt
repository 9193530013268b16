-- ===== src/Carlfw/File.antt =====
-- Reading and writing a firmware file: the image, then the descriptors, the last of which is
-- LAST. The file is the list of its octets.
use carl9170fw.Base.{
  ℕ, zero, suc, ◌+◌, ◌-◌, ◌==◌, leb, ltb, if◌then◌else◌, List, [], ◌∷◌, ◌++◌, length, take, drop,
  Bool, not, ◌&&◌, ◌||◌, Option, none, some,
}
use carl9170fw.Carlfw.Desc.{
  einval, enodata, e2big, stale_errno, Result, ok, err, fault, ◌>>=◌, Bytes, byte, desc_length,
  desc_head_size, desc_max_length, check_hdr_version, same_magic, size_check, fill_head, otus_magic,
  last_magic,
}
use carl9170fw.Carlfw.Descs.{Carlfw, desc_add_tail}
use carl9170fw.Carlfw.Checksum.{apply_checksums, check_crc32s}

-- The scan of `__carlfw_find_desc` from the end, for the magic's octets from the last on.
abbrev pub scan_back : Bytes → Bytes → ℕ → ℕ → Option ℕ
scan_back bytes descid zero found = none
scan_back bytes descid (suc scan) found =
    let found' = if byte bytes (suc scan) == byte descid (4 - found - 1) then found + 1 else 0 in
    let rest = scan_back bytes descid scan found' in if found' == 4 then some (suc scan) else rest

-- What is found counts if its version fits, and it is long enough and in the file.
abbrev pub accept_desc : Bytes → ℕ → ℕ → Option ℕ → Option ℕ
accept_desc bytes len rev none = none
accept_desc bytes len rev (some scan) =
    let tmp = drop scan bytes in
    if not (check_hdr_version tmp rev)
      && (leb (scan + desc_length tmp) (length bytes) && leb len (desc_length tmp))
    then some scan
    else none

-- `__carlfw_find_desc`. The scan begins where the magic of a descriptor at the end would end.
unfoldable pub file_find_desc : Bytes → Bytes → ℕ → ℕ → Option ℕ
unfolding check_hdr_version
file_find_desc bytes descid len rev =
    accept_desc bytes len rev (scan_back bytes descid (length bytes - 1 - 4) 0)

-- `carl9170fw_for_each_hdr` goes on at a descriptor that is not LAST and whose length is sound.
abbrev pub is_hdr : Bytes → Bool
is_hdr d =
    not (same_magic last_magic d)
    && (leb desc_head_size (desc_length d) && ltb (desc_length d) desc_max_length)

-- The head that the loop looks at is not all there.
abbrev pub out_of_file : Bytes → Bool
out_of_file d = ltb (length d) 4 || (not (same_magic last_magic d) && ltb (length d) desc_head_size)

-- `carlfw_parse_descs`, on fuel for the loop. A read out of the file is a fault, and so is a loop
-- that is not entered, after which the variable that is returned was never written.
abbrev pub parse_loop : ℕ → Carlfw → Bytes → Result Carlfw
parse_loop zero fw bytes = fault
parse_loop (suc fuel) fw bytes =
    let rest =
      desc_add_tail fw bytes >>= λ fw'. parse_loop fuel fw' (drop (desc_length bytes) bytes) in
    if out_of_file bytes
    then fault
    else (if is_hdr bytes
        then (if ltb (length bytes) (desc_length bytes) then fault else rest)
        else ok fw)

abbrev pub parse_descs : Carlfw → Bytes → Result Carlfw
parse_descs fw bytes = if is_hdr bytes then parse_loop (suc (length bytes)) fw bytes else fault

abbrev pub otus_desc_size : ℕ
otus_desc_size = 32

abbrev pub last_desc_size : ℕ
last_desc_size = 8

-- The end of `carlfw_load`: a file without checksums is accepted.
abbrev pub check_loaded : Carlfw → Result Unit → Result Carlfw
check_loaded fw (ok t) = ok fw
check_loaded fw (err enodata) = ok fw
check_loaded fw (err e) = err e
check_loaded fw fault = fault

abbrev pub finish : Bytes → Result Carlfw → Result Carlfw
finish image r = r >>= λ fw.
    check_loaded (record fw { image = image }) (check_crc32s (record fw { image = image }))

-- `carlfw_load` with the descriptors that it finds. What is left as the image is the file without
-- them.
abbrev pub load_at : Bytes → Option ℕ → Option ℕ → Result Carlfw
load_at bytes none last = err enodata
load_at bytes (some otus) none = err enodata
load_at bytes (some otus) (some last) =
    let fin = last + last_desc_size in
    let image = take otus bytes ++ drop fin bytes in
    let fw : Carlfw = record {
      image = bytes;
      descs = [];
      desc_list_entries = 0;
      desc_list_len = 0;
    } in
    if ltb last otus then err enodata else finish image (parse_descs fw (drop otus bytes))

unfoldable pub load : Bytes → Result Carlfw
load bytes =
    load_at bytes (file_find_desc bytes otus_magic otus_desc_size 7)
      (file_find_desc bytes last_magic last_desc_size 2)

-- The descriptors as `carlfw_store` writes them, one after the other.
abbrev pub write_descs : List Bytes → Result Bytes
write_descs [] = ok []
write_descs (d ∷ ds) =
    let rest = write_descs ds in
    if ltb desc_max_length (desc_length d)
    then err e2big
    else (rest >>= λ bs. ok (take (desc_length d) d ++ bs))

abbrev pub last_desc : Bytes
last_desc = fill_head last_magic last_desc_size 1 2

-- `carlfw_store`: the list with its checksums, and the file. `fwrite` of an image without octets
-- returns 0, which counts as a failure.
abbrev pub write_file : Carlfw → Result (Carlfw × Bytes)
write_file fw =
    let rest = write_descs fw.descs >>= λ bs. ok (fw, fw.image ++ (bs ++ last_desc)) in
    if length fw.image == 0 then err stale_errno else rest

unfoldable pub store : Carlfw → Result (Carlfw × Bytes)
store fw = apply_checksums fw >>= write_file

-- `carlfw_mod_tailroom`, for a length that grows, with the octets that `realloc` adds, and for one
-- that shrinks.
unfoldable pub grow_tailroom : Carlfw → Bytes → Result Carlfw
unfolding size_check
grow_tailroom fw added =
    if size_check (length fw.image + length added)
    then ok (record fw { image = fw.image ++ added })
    else err einval

unfoldable pub shrink_tailroom : Carlfw → ℕ → Result Carlfw
unfolding size_check
shrink_tailroom fw len =
    if leb len (length fw.image) && size_check (length fw.image - len)
    then ok (record fw { image = take (length fw.image - len) fw.image })
    else err einval

-- `carlfw_mod_headroom` for a length that grows. The room keeps the octets that were there.
unfoldable pub grow_headroom : Carlfw → Bytes → Result Carlfw
unfolding grow_tailroom
grow_headroom fw added = grow_tailroom fw added >>= λ fw'. ok (record fw' {
  image = take (length added) fw'.image ++ take (length fw'.image - length added) fw'.image;
})
