-- ===== src/Carlfw/Miniboot.antt =====
-- tools/src/miniboot.c: a boot image is put in front of the firmware, and taken away again. The
-- files can be opened and read.
use carl9170fw.Base.{
  ℕ, suc, ◌-◌, ◌^◌, ◌==◌, leb, if◌then◌else◌, List, [], ◌∷◌, ◌++◌, length, drop, set, Bool, not,
  ◌&&◌, Option, none, some, bit_and, bit_or,
}
use carl9170fw.Carlfw.Desc.{
  einval, enodata, Result, ok, err, fault, Bytes, word16, word32, le16, le32, otus_magic,
  size_check,
}
use carl9170fw.Carlfw.Descs.{Carlfw, find_entry, desc_at, replace_at}
use carl9170fw.Carlfw.Checksum.{without_chk, apply_checksums}
use carl9170fw.Carlfw.File.{store, grow_headroom, otus_desc_size}
pub mod Fields
pub mod Marked
pub mod Listed
pub mod Added
mod Tests

-- `carl9170fw_supports`
abbrev pub fw_supports : ℕ → ℕ → Bool
fw_supports list feature = not (bit_and list (2 ^ feature) == 0)

-- CARL9170FW_MINIBOOT
abbrev pub miniboot_feature : ℕ
miniboot_feature = 1

-- Octets written at a place.
abbrev pub put_octets : ℕ → Bytes → Bytes → Bytes
put_octets i [] d = d
put_octets i (x ∷ new) d = put_octets (suc i) new (set d i x)

-- `feature_set` and `miniboot_size` of `struct carl9170fw_otus_desc`, read and written.
abbrev pub feature_set : Bytes → ℕ
feature_set d = word32 d 8

abbrev pub miniboot_size : Bytes → ℕ
miniboot_size d = word16 d 22

abbrev pub with_mini : ℕ → ℕ → Bytes → Bytes
with_mini features size d = put_octets 22 (le16 size) (put_octets 8 (le32 features) d)

abbrev pub find_otus : Carlfw → Option ℕ
find_otus fw = find_entry fw otus_magic otus_desc_size 7

-- A call: the number that it returns, the file in memory after it, and what `carlfw_store` gave if it
-- was called. Its error is ignored.
pub record Run : Type 0 where
  pub code : Result Unit
  pub list : Carlfw
  pub stored : Option (Result (Carlfw × Bytes))

abbrev pub stopped : Result Unit → Carlfw → Run
stopped code fw = record { code = code; list = fw; stored = none }

-- What `carlfw_store` leaves in memory: it fails after the old checksums are deleted and before the new
-- ones are added, or the list has them.
abbrev pub after_store : Carlfw → Result Carlfw → Carlfw
after_store fw (ok fw') = fw'
after_store fw (err e) = without_chk fw
after_store fw fault = without_chk fw

abbrev pub finished : Carlfw → Run
finished fw = record {
  code = ok tt;
  list = after_store fw (apply_checksums fw);
  stored = some (store fw);
}

-- The end of `add_mini`, from `fread` on. On each failure `err` is still the 0 of `fstat`, save
-- that `fread` returns 0 itself for an empty file.
abbrev pub load_mini : Carlfw → Bytes → Result Carlfw → Run
load_mini marked mini (ok fw) =
    if length mini == 0
    then stopped (ok tt) fw
    else finished (record fw { image = mini ++ drop (length mini) fw.image })
load_mini marked mini (err e) = stopped (ok tt) marked
load_mini marked mini fault = stopped fault marked

-- `add_mini` with the descriptor that it finds.
abbrev pub add_at : Carlfw → Bytes → Bytes → Option ℕ → Run
add_at fw mini added none = stopped (ok tt) fw
add_at fw mini added (some i) =
    let d = desc_at fw i in
    let marked : Carlfw = record fw {
      descs =
          replace_at i (with_mini (bit_or (feature_set d) (2 ^ miniboot_feature)) (length mini) d)
            fw.descs;
    } in
    if fw_supports (feature_set d) miniboot_feature
    then stopped (ok tt) fw
    else load_mini marked mini (grow_headroom marked added)

-- `add_mini`, with the octets that `realloc` adds.
pub add_mini : Carlfw → Bytes → Bytes → Run
add_mini fw mini added = add_at fw mini added (find_otus fw)

-- `carlfw_mod_headroom` for a length that shrinks. `memmove` reads from before the image on.
abbrev pub shrink_headroom : Carlfw → ℕ → Result Carlfw
shrink_headroom fw len =
    if leb len (length fw.image) && size_check (length fw.image - len)
    then (if len == 0 then ok fw else fault)
    else err einval

-- The end of `del_mini`.
abbrev pub clear_mini : ℕ → Carlfw → Result Carlfw → Run
clear_mini i fw (ok fw') =
    let d = desc_at fw' i in
    let features = bit_and (feature_set d) (0xffffffff - 2 ^ miniboot_feature) in
    finished (record fw' { descs = replace_at i (with_mini features 0 d) fw'.descs })
clear_mini i fw (err e) = stopped (err e) fw
clear_mini i fw fault = stopped fault fw

-- `del_mini` with the descriptor that it finds.
abbrev pub del_at : Carlfw → Option ℕ → Run
del_at fw none = stopped (err enodata) fw
del_at fw (some i) =
    let d = desc_at fw i in
    if fw_supports (feature_set d) miniboot_feature
    then clear_mini i fw (shrink_headroom fw (miniboot_size d))
    else stopped (err einval) fw

-- `del_mini`
pub del_mini : Carlfw → Run
del_mini fw = del_at fw (find_otus fw)
