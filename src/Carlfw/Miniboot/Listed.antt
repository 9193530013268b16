-- ===== src/Carlfw/Miniboot/Listed.antt =====
-- What `carlfw_store` needs of the list that `add_mini` hands to it.
use carl9170fw.Base.{
  ℕ, ◌+◌, ◌-◌, ◌^◌, ◌≡◌, ◌≤◌, ◌<◌, refl, sym, ◌∙◌, ap, subst, [], ◌++◌, get_or, length, false,
  Option, some, Bool-cases, inl, inr, arith, bit_or, All,
}
use carl9170fw.Carlfw.Desc.{Bytes, otus_magic, chk_magic}
use carl9170fw.Carlfw.Descs.{Carlfw, find_entry, desc_at}
use carl9170fw.Carlfw.Counts.{IsValid, total}
use carl9170fw.Carlfw.Resize.{replace_at-All, get_or-All}
use carl9170fw.Carlfw.Checksum.{is_chk, without_chk}
use carl9170fw.Carlfw.Checked.{NoChk}
use carl9170fw.Carlfw.Parse.{IsHdr}
use carl9170fw.Carlfw.Replaced.{find_from-replace_at, same_length-IsValid}
use carl9170fw.Carlfw.Matches.{
  first_match, first_match-get_or, first_match-remove_found, remove_found, remove_found-All,
  remove_found-replace, total-remove_found, total-replace_same, descs-without_chk,
  desc_cmp-chk_otus,
}
use carl9170fw.Carlfw.Miniboot.{feature_set, find_otus}
use carl9170fw.Carlfw.Miniboot.Fields.{
  length-with_mini, desc_length-with_mini, desc_cmp-with_mini, is_hdr-with_mini,
}
use carl9170fw.Carlfw.Miniboot.Marked.{new_desc, after, there, found_again, now}

module _ (fw : Carlfw) (mini added : Bytes) (i : ℕ) (fits : length mini + length fw.image ≤ 16384)
    (real : 32 ≤ length fw.image) (v : IsValid fw) (found : find_otus fw ≡ some i) where
  abbrev pub new : Bytes
  new = new_desc fw mini added i

  abbrev pub list : Carlfw
  list = after fw mini added i fits real v found

  abbrev features : ℕ
  features = bit_or (feature_set (desc_at fw i)) 2

  -- It is no checksum descriptor.
  pub new_is_otus : is_chk new ≡ false
  new_is_otus = elim (Bool-cases (is_chk (desc_at fw i))) [
    | inl t ↦ absurd (
        ground (
          arith,
          desc_cmp-chk_otus (desc_at fw i) t,
          (there fw mini added i fits real v found).compares,
        ))
    | inr t ↦ desc_cmp-with_mini features (length mini) (desc_at fw i) chk_magic 16 2 ∙ t
  ]

  pub same_chk : find_entry list chk_magic 16 2 ≡ find_entry fw chk_magic 16 2
  unfolding find_entry
  same_chk =
      find_from-replace_at 0 i chk_magic 16 2 new fw.descs
        (desc_cmp-with_mini features (length mini) (desc_at fw i) chk_magic 16 2)

  pub no_chk : NoChk (without_chk fw).descs → NoChk (without_chk list).descs
  no_chk n =
      let before : NoChk (remove_found (find_entry fw chk_magic 16 2) fw.descs) =
        subst NoChk (descs-without_chk fw) n in
      subst NoChk
        (sym (descs-without_chk list ∙ ap (λ (o : Option ℕ). remove_found o list.descs) same_chk))
        (remove_found-replace (λ d. is_chk d ≡ false) (find_entry fw chk_magic 16 2) i new fw.descs
          new_is_otus before)

  pub hdrs : All IsHdr fw.descs → All IsHdr (without_chk list).descs
  hdrs h =
      let old : IsHdr (desc_at fw i) =
        get_or-All IsHdr i fw.descs (there fw mini added i fits real v found).inside h in
      let l = length-with_mini features (length mini) (desc_at fw i) in
      let n = desc_length-with_mini features (length mini) (desc_at fw i) in
      let hdr : IsHdr new = record {
        is_whole = record {
          headed = omega (arith, n, old.is_whole.headed);
          sized = omega (arith, n, l, old.is_whole.sized);
        };
        goes_on = is_hdr-with_mini features (length mini) (desc_at fw i) ∙ old.goes_on;
      } in
      subst (All IsHdr) (sym (descs-without_chk list)) (
        remove_found-All IsHdr (find_entry list chk_magic 16 2) list.descs
          (replace_at-All IsHdr i new fw.descs hdr h))

  pub bounded : total fw.descs < 2 ^ 32 → total (without_chk list).descs < 2 ^ 32
  bounded t = omega (
    arith,
    t,
    ap (λ ds. total ds) (descs-without_chk list),
    total-remove_found (find_entry list chk_magic 16 2) list.descs,
    total-replace_same i new fw.descs (desc_length-with_mini features (length mini) (desc_at fw i)),
  )

  pub list-IsValid : IsValid list
  list-IsValid =
      same_length-IsValid fw i new (mini ++ fw.image) v
        (there fw mini added i fits real v found).inside
        (length-with_mini features (length mini) (desc_at fw i))
        (desc_length-with_mini features (length mini) (desc_at fw i))

  -- The descriptor is still the first that is found.
  pub first_is : first_match otus_magic 32 7 (without_chk list).descs ≡ some new
  unfolding find_entry
  first_is =
      let same : i - 0 ≡ i = omega arith in
      ap (λ ds. first_match otus_magic 32 7 ds) (descs-without_chk list)
      ∙ first_match-remove_found list (find_entry list chk_magic 16 2) refl
      ∙ first_match-get_or otus_magic 32 7 0 i list.descs
          (found_again fw mini added i fits real v found)
      ∙ ap (λ (n : ℕ). some (get_or list.descs n [])) same
      ∙ ap some (now fw mini added i fits real v found)
