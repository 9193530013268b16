-- ===== src/Carlfw/Miniboot/Tests.antt =====
-- Runs of miniboot.c, and its theorem at a concrete input.
use carl9170fw.Base.{◌≡◌, refl, [], ◌∷◌, ◌++◌, replicate, some, arith}
use carl9170fw.Carlfw.Desc.{
  ok, err, enodata, einval, Bytes, otus_magic, fill_head, desc_cmp, check_hdr_version,
}
use carl9170fw.Carlfw.Descs.{Carlfw, find_entry}
use carl9170fw.Carlfw.Counts.{IsValid}
use carl9170fw.Carlfw.Checksum.{without_chk}
use carl9170fw.Carlfw.Checked.{NoChk}
use carl9170fw.Carlfw.Miniboot.{find_otus, stopped, add_mini, del_mini}
use carl9170fw.Carlfw.Miniboot.Added.{Added, add_mini-Added}

abbrev otus_desc : Bytes
otus_desc = fill_head otus_magic 32 6 7 ++ replicate 24 0

abbrev firmware : Carlfw
firmware = record {
  image = replicate 32 9;
  descs = otus_desc ∷ [];
  desc_list_entries = 1;
  desc_list_len = 32;
}

firmware-IsValid : IsValid firmware
firmware-IsValid = record {
  whole = (record { headed = omega arith; sized = refl }, tt);
  entries_are = refl;
  len_is = refl;
}

otus_first : find_otus firmware ≡ some 0
unfolding find_entry desc_cmp check_hdr_version
otus_first = refl

firmware-NoChk : NoChk (without_chk firmware).descs
unfolding without_chk find_entry desc_cmp check_hdr_version
firmware-NoChk = (refl, tt)

-- Both calls return when there is nothing to do, one of them with no error.
abbrev bare : Carlfw
bare = record { image = []; descs = []; desc_list_entries = 0; desc_list_len = 0 }

add_without_otus : add_mini bare (5 ∷ 6 ∷ []) (0 ∷ 0 ∷ []) ≡ stopped (ok tt) bare
unfolding add_mini find_entry
add_without_otus = refl

del_without_otus : del_mini bare ≡ stopped (err enodata) bare
unfolding del_mini find_entry
del_without_otus = refl

del_without_mini : del_mini firmware ≡ stopped (err einval) firmware
unfolding del_mini find_entry desc_cmp check_hdr_version
del_without_mini = refl

add_mini-Added_example : Added firmware (5 ∷ 6 ∷ []) 0 (add_mini firmware (5 ∷ 6 ∷ []) (0 ∷ 0 ∷ []))
add_mini-Added_example =
    add_mini-Added firmware (5 ∷ 6 ∷ []) (0 ∷ 0 ∷ []) 0 firmware-IsValid firmware-NoChk
      (omega arith) (record { is_whole = firmware-IsValid.whole.0; goes_on = refl }, tt) otus_first
      refl refl (omega arith) (omega arith) (omega arith)
