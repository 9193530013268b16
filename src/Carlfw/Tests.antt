-- ===== src/Carlfw/Tests.antt =====
-- Runs of the firmware file library, and the theorems at concrete inputs.
use carl9170fw.Base.{◌^◌, ◌≡◌, ◌<◌, refl, [], ◌∷◌, ◌++◌, replicate, some, arith, All, sym, subst}
use carl9170fw.Carlfw.Desc.{ok, Bytes, otus_magic, fill_head, desc_cmp, check_hdr_version}
use carl9170fw.Carlfw.Descs.{Carlfw, desc_add_tail, entry_add_prepare, find_entry}
use carl9170fw.Carlfw.Counts.{IsValid, total}
use carl9170fw.Carlfw.Checksum.{without_chk, crc32_le, apply_checksums}
use carl9170fw.Carlfw.Checked.{NoChk}
use carl9170fw.Carlfw.File.{store, load, file_find_desc, last_desc}
use carl9170fw.Carlfw.Parse.{IsHdr}
use carl9170fw.Carlfw.Roundtrip.{Written, store-Written, load-store}
use carl9170fw.Carlfw.Invariant.{Holds, step, grow, step-IsValid}

abbrev otus_desc : Bytes
otus_desc = fill_head otus_magic 32 6 7 ++ replicate 24 7

abbrev small_file : Carlfw
small_file = record {
  image = 1 ∷ 2 ∷ 3 ∷ [];
  descs = otus_desc ∷ [];
  desc_list_entries = 1;
  desc_list_len = 32;
}

crc_of_digits : crc32_le 0xffffffff (0x31 ∷ 0x32 ∷ 0x33 ∷ []) ≡ 0x77b79c2d
crc_of_digits = refl

abbrev stored_chk : Bytes
stored_chk =
    0x43 ∷ 0x48 ∷ 0x4b ∷ 0 ∷ 16 ∷ 0 ∷ 1 ∷ 2 ∷ 226 ∷ 127 ∷ 67 ∷ 170 ∷ 242 ∷ 218 ∷ 138 ∷ 167 ∷ []

abbrev stored_list : Carlfw
stored_list = record {
  image = 1 ∷ 2 ∷ 3 ∷ [];
  descs = otus_desc ∷ stored_chk ∷ [];
  desc_list_entries = 2;
  desc_list_len = 48;
}

abbrev stored_file : Bytes
stored_file = 1 ∷ 2 ∷ 3 ∷ (otus_desc ++ (stored_chk ++ last_desc))

stored : store small_file ≡ ok (stored_list, stored_file)
unfolding store apply_checksums without_chk find_entry desc_cmp check_hdr_version desc_add_tail
    entry_add_prepare
stored = refl

small-IsValid : IsValid small_file
small-IsValid = record {
  whole = (record { headed = omega arith; sized = refl }, tt);
  entries_are = refl;
  len_is = refl;
}

unchanged : without_chk small_file ≡ small_file
unfolding without_chk find_entry desc_cmp check_hdr_version
unchanged = refl

small-NoChk : NoChk (without_chk small_file).descs
unfolding without_chk find_entry desc_cmp check_hdr_version
small-NoChk = (refl, tt)

small_total : total (without_chk small_file).descs < 2 ^ 32
small_total = subst (λ (f : Carlfw). total f.descs < 2 ^ 32) (sym unchanged) (omega arith)

small_hdrs : All IsHdr (without_chk small_file).descs
small_hdrs =
    subst (λ (f : Carlfw). All IsHdr f.descs) (sym unchanged)
      (record { is_whole = small-IsValid.whole.0; goes_on = refl }, tt)

otus_found : file_find_desc stored_file otus_magic 32 7 ≡ some 3
unfolding file_find_desc check_hdr_version
otus_found = refl

load-store_example :
    (fw' : Carlfw) × (load stored_file ≡ ok fw')
    × (fw'.image ≡ 1 ∷ 2 ∷ 3 ∷ [])
    × (fw'.descs ≡ otus_desc ∷ stored_chk ∷ [])
load-store_example =
    load-store small_file (stored_list, stored_file) small-IsValid small-NoChk small_total
      small_hdrs (omega arith) stored otus_found

store-Written_example : Written small_file
store-Written_example =
    store-Written small_file small-IsValid small-NoChk small_total small_hdrs (omega arith)

step-IsValid_example : Holds IsValid (step small_file (grow 0 4 (9 ∷ 9 ∷ 9 ∷ 9 ∷ [])))
step-IsValid_example =
    step-IsValid small_file (grow 0 4 (9 ∷ 9 ∷ 9 ∷ 9 ∷ [])) small-IsValid (omega arith, refl)
