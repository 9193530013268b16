-- ===== src/Carlfw/Miniboot/Marked.antt =====
-- The list that `add_mini` hands to `carlfw_store`: the OTUS descriptor announces the boot image.

use carl9170fw.Base.{
  ℕ, ◌+◌, ◌-◌, ◌^◌, ◌≡◌, ◌≤◌, ◌<◌, ◌∙◌, ap, subst, ◌==◌, leb, ◌++◌, length, take, drop, true, false,
  some, arith, length-append, length-take, ==-ne, bit_or,
}
use carl9170fw.Carlfw.Desc.{Bytes, desc_length, desc_cmp, otus_magic, size_check}
use carl9170fw.Carlfw.Descs.{Carlfw, find_entry, desc_at, replace_at}
use carl9170fw.Carlfw.Counts.{IsWhole, IsValid}
use carl9170fw.Carlfw.Resize.{get_or-All}
use carl9170fw.Carlfw.File.{grow_headroom, grow_tailroom}
use carl9170fw.Carlfw.Parse.{take-length-append, drop-length-append}
use carl9170fw.Carlfw.Miniboot.{
  fw_supports, miniboot_feature, feature_set, miniboot_size, with_mini, find_otus, finished,
  add_mini, load_mini,
}
use carl9170fw.Carlfw.Miniboot.Fields.{
  desc_cmp-with_mini, miniboot_size-with_mini, feature_set-with_mini, fw_supports-bit_or,
}
use carl9170fw.Carlfw.Replaced.{Found, find_from-Found, get_or-replace_at, find_from-replace_at}

module _ (fw : Carlfw) (mini added : Bytes) (i : ℕ) where
  abbrev pub new_desc : Bytes
  new_desc =
      let d = desc_at fw i in
      with_mini (bit_or (feature_set d) (2 ^ miniboot_feature)) (length mini) d

  abbrev pub with_image : Bytes → Carlfw
  with_image image = record fw { image = image; descs = replace_at i new_desc fw.descs }

  module _ (fits : length mini + length fw.image ≤ 16384) (real : 32 ≤ length fw.image) where
    -- The image moves up behind the room, into which the boot image is read.
    moved :
        length added ≡ length mini
        → 0 < length mini
        → load_mini (with_image fw.image) mini (grow_headroom (with_image fw.image) added)
          ≡ finished (with_image (mini ++ fw.image))
    unfolding grow_headroom grow_tailroom size_check
    moved e p =
        let small : leb (length fw.image + length added) 16384 ≡ true = ground (arith, e) in
        let large : leb 32 (length fw.image + length added) ≡ true = ground (arith, e) in
        let full : (length mini == 0) ≡ false = ==-ne (length mini) 0 (λ q. omega (arith, q)) in
        let all : Bytes = fw.image ++ added in
        let n : length all ≡ length fw.image + length added = length-append fw.image added in
        let head : Bytes = take (length added) all in
        let tail : Bytes = take (length all - length added) all in
        let head_long : length mini ≡ length head =
          omega (arith, e, n, length-take (length added) all) in
        let same : length all - length added ≡ length fw.image = omega (arith, n) in
        let rest : drop (length mini) (head ++ tail) ≡ fw.image =
          ap (λ (k : ℕ). drop k (head ++ tail)) head_long
          ∙ drop-length-append head tail
          ∙ ap (λ (k : ℕ). take k all) same
          ∙ take-length-append fw.image added in
        rw small rw large rw full (ap (λ (bs : Bytes). finished (with_image (mini ++ bs))) rest)

    module _ (v : IsValid fw) (found : find_otus fw ≡ some i) where
      pub there : Found otus_magic 32 7 i fw.descs
      unfolding find_entry
      there =
          let same : i - 0 ≡ i = omega arith in
          subst (λ j. Found otus_magic 32 7 j fw.descs) same
            (find_from-Found 0 i otus_magic 32 7 fw.descs found)

      pub headed : IsWhole (desc_at fw i)
      headed = get_or-All IsWhole i fw.descs there.inside v.whole

      pub long : 32 ≤ length (desc_at fw i)
      unfolding desc_cmp
      long =
          let enough : 32 ≤ desc_length (desc_at fw i) = ground (arith, there.compares) in
          omega (arith, headed.sized, enough)

      pub found_again : find_otus (with_image (mini ++ fw.image)) ≡ some i
      unfolding find_entry
      found_again =
          find_from-replace_at 0 i otus_magic 32 7 new_desc fw.descs (
            desc_cmp-with_mini (bit_or (feature_set (desc_at fw i)) 2) (length mini) (desc_at fw i)
              otus_magic 32 7)
          ∙ found

      abbrev pub after : Carlfw
      after = with_image (mini ++ fw.image)

      pub now : desc_at after i ≡ new_desc
      now = get_or-replace_at i new_desc fw.descs there.inside

      pub marked : fw_supports (feature_set new_desc) miniboot_feature ≡ true
      marked =
          let features : ℕ = bit_or (feature_set (desc_at fw i)) 2 in
          ap (λ (w : ℕ). fw_supports w 1)
            (feature_set-with_mini features (length mini) (desc_at fw i) long)
          ∙ fw_supports-bit_or (feature_set (desc_at fw i))

      pub sized : miniboot_size new_desc ≡ length mini
      sized =
          miniboot_size-with_mini (bit_or (feature_set (desc_at fw i)) 2) (length mini)
            (desc_at fw i) long (omega arith)

      pub runs :
          length added ≡ length mini
          → 0 < length mini
          → fw_supports (feature_set (desc_at fw i)) miniboot_feature ≡ false
          → add_mini fw mini added ≡ finished after
      unfolding add_mini
      runs e p none_yet = rw found rw none_yet (moved e p)
