-- ===== src/Carlfw/Miniboot/Added.antt =====
-- What adding a boot image does, and what the removal does after it.
use carl9170fw.Base.{
  ℕ, ◌+◌, ◌-◌, ◌^◌, ◌≡◌, ◌≤◌, ◌<◌, refl, sym, ◌∙◌, ap, ap₂, subst, ◌==◌, leb, if◌then◌else◌, [],
  ◌∷◌, ◌++◌, length, Bool, true, false, Option, some, arith, length-append, ==-ne, All, All-append,
}
use carl9170fw.Carlfw.Desc.{Result, ok, err, einval, fault, ◌>>=◌, Bytes, otus_magic, size_check}
use carl9170fw.Carlfw.Descs.{Carlfw, find_entry, desc_at, replace_at}
use carl9170fw.Carlfw.Counts.{IsValid, total}
use carl9170fw.Carlfw.Checksum.{chk_desc, without_chk, apply_checksums, check_crc32s}
use carl9170fw.Carlfw.Checked.{NoChk, Stored, apply_checksums-Stored}
use carl9170fw.Carlfw.File.{store, write_file, last_desc}
use carl9170fw.Carlfw.Parse.{IsHdr, octets}
use carl9170fw.Carlfw.Roundtrip.{IsHdr-chk_desc, write_file-octets}
use carl9170fw.Carlfw.Matches.{first_match, find_from-first_match, first_match-append}
use carl9170fw.Carlfw.Miniboot.{
  fw_supports, miniboot_feature, feature_set, miniboot_size, find_otus, Run, stopped, after_store,
  finished, add_mini, shrink_headroom, clear_mini, del_mini, del_at,
}
use carl9170fw.Carlfw.Miniboot.Listed.{list-IsValid, no_chk, bounded, hdrs, first_is}
use carl9170fw.Carlfw.Miniboot.Marked.{new_desc, after, marked, sized, runs}

-- The call, where `fw` was the file in memory before it.
pub record Added (fw : Carlfw) (mini : Bytes) (i : ℕ) (r : Run) : Type 0 where
  pub place : ℕ
  pub found : find_otus r.list ≡ some place
  pub supported : fw_supports (feature_set (desc_at r.list place)) miniboot_feature ≡ true
  pub size_is : miniboot_size (desc_at r.list place) ≡ length mini
  pub image_is : r.list.image ≡ mini ++ fw.image
  pub listed :
      (a : ℕ) × (b : ℕ) × (r.list.descs
        ≡ (without_chk (record fw {
          image = mini ++ fw.image;
          descs = replace_at i (desc_at r.list place) fw.descs;
        })).descs
          ++ chk_desc a b ∷ [])
  pub valid : IsValid r.list
  pub passes : check_crc32s r.list ≡ ok tt
  pub stored_is : r.stored ≡ some (ok (r.list, r.list.image ++ (octets r.list.descs ++ last_desc)))
  pub removed : (del_mini r.list).code ≡ fault

-- The removal reads before the image.
del_mini-fault :
    (mini image : Bytes) (gw : Carlfw) (j : ℕ)
    → length mini + length image ≤ 16384
    → 32 ≤ length image
    → 0 < length mini
    → gw.image ≡ mini ++ image
    → find_otus gw ≡ some j
    → fw_supports (feature_set (desc_at gw j)) miniboot_feature ≡ true
    → miniboot_size (desc_at gw j) ≡ length mini
    → (del_mini gw).code ≡ fault
unfolding del_mini size_check
del_mini-fault mini image gw j fits real p e found marked sized =
    let n : length gw.image ≡ length mini + length image =
      ap (λ (b : Bytes). length b) e ∙ length-append mini image in
    let inside : leb (length mini) (length gw.image) ≡ true = ground (arith, n) in
    let small : leb (length gw.image - length mini) 16384 ≡ true = ground (arith, n) in
    let large : leb 32 (length gw.image - length mini) ≡ true = ground (arith, n) in
    let full : (length mini == 0) ≡ false = ==-ne (length mini) 0 (λ q. omega (arith, q)) in
    let moved : shrink_headroom gw (length mini) ≡ fault =
      rw inside rw small rw large rw full refl in
    ap (λ (o : Option ℕ). (del_at gw o).code) found
    ∙ ap
        (λ (b : Bool).
          (if b
            then clear_mini j gw (shrink_headroom gw (miniboot_size (desc_at gw j)))
            else stopped (err einval) gw).code)
        marked
    ∙ ap (λ (n : ℕ). (clear_mini j gw (shrink_headroom gw n)).code) sized
    ∙ ap (λ (r : Result Carlfw). (clear_mini j gw r).code) moved

module _ (fw : Carlfw) (mini added : Bytes) (i : ℕ) (fits : length mini + length fw.image ≤ 16384)
    (real : 32 ≤ length fw.image) (v : IsValid fw) (found : find_otus fw ≡ some i) where
  abbrev given : Carlfw
  given = after fw mini added i fits real v found

  abbrev changed : Bytes
  changed = new_desc fw mini added i

  stored-Added :
      NoChk (without_chk fw).descs
      → total fw.descs < 2 ^ 32
      → All IsHdr fw.descs
      → 0 < length mini
      → Added fw mini i (finished given)
  unfolding find_entry store
  stored-Added n t h p =
      let s : Stored given (apply_checksums given) =
        apply_checksums-Stored given (list-IsValid fw mini added i fits real v found)
          (no_chk fw mini added i fits real v found n)
          (bounded fw mini added i fits real v found t) in
      let (a, b, e) = s.listed in
      let is : after_store given (apply_checksums given) ≡ s.file =
        ap (after_store given) s.returns in
      let (j, f, at) = find_from-first_match otus_magic 32 7 0 changed s.file.descs (
        ap (λ ds. first_match otus_magic 32 7 ds) e
        ∙ first_match-append otus_magic 32 7 changed (without_chk given).descs (chk_desc a b ∷ [])
            (first_is fw mini added i fits real v found)) in
      let here : 0 + j ≡ j = omega arith in
      let f' : find_otus s.file ≡ some j = f ∙ ap some here in
      let image : s.file.image ≡ mini ++ fw.image = s.kept in
      let all : All IsHdr s.file.descs = subst (All IsHdr) (sym e) (
        All-append IsHdr (without_chk given).descs (chk_desc a b ∷ [])
          (hdrs fw mini added i fits real v found h) (IsHdr-chk_desc a b, tt)) in
      let full : 0 < length s.file.image =
        omega (arith, real, ap (λ (bs : Bytes). length bs) image, length-append mini fw.image) in
      let written : store given ≡ ok (s.file, s.file.image ++ (octets s.file.descs ++ last_desc)) =
        ap (λ (r : Result Carlfw). r >>= write_file) s.returns
        ∙ write_file-octets s.file all full in
      let marks : fw_supports (feature_set (desc_at s.file j)) miniboot_feature ≡ true =
        ap (λ (d : Bytes). fw_supports (feature_set d) miniboot_feature) at
        ∙ marked fw mini added i fits real v found in
      let sizes : miniboot_size (desc_at s.file j) ≡ length mini =
        ap miniboot_size at ∙ sized fw mini added i fits real v found in
      let done : Run = record {
        code = ok tt;
        list = s.file;
        stored = some (ok (s.file, s.file.image ++ (octets s.file.descs ++ last_desc)));
      } in
      let same : done ≡ finished given =
        ap₂
          (λ (l : Carlfw) (r : Result (Carlfw × Bytes)). record {
            code = ok tt;
            list = l;
            stored = some r;
          })
          (sym is) (sym written) in
      subst (Added fw mini i) same (record {
        place = j;
        found = f';
        supported = marks;
        size_is = sizes;
        image_is = image;
        listed = (
          a,
          b,
          e
              ∙ ap
                  (λ (d : Bytes).
                    (without_chk (record fw {
                      image = mini ++ fw.image;
                      descs = replace_at i d fw.descs;
                    })).descs
                    ++ chk_desc a b ∷ [])
                  (sym at),
        );
        valid = s.valid;
        passes = s.passes;
        stored_is = refl;
        removed = del_mini-fault mini fw.image s.file j fits real p image f' marks sizes;
      })

-- A boot image that is not empty is added to a valid file of at least 32 octets, whose OTUS
-- descriptor, the first that is found, does not announce one, where both images have at most 16384
-- octets together, and the list of descriptors is one that reading would go on at, of less than
-- 2 ^ 32 octets, with no checksum descriptor left when the first is deleted. The call stores the
-- file. In memory the boot image then stands before the old image, the list is the one before with
-- the OTUS descriptor changed, the old checksums deleted and new ones at its end, which the check
-- passes, and it is valid. The OTUS descriptor that the search finds announces a boot image of the right
-- size. The file is the images, the list and LAST. `del_mini` on it reads before the image.
pub add_mini-Added :
    (fw : Carlfw) (mini added : Bytes) (i : ℕ)
    → IsValid fw
    → NoChk (without_chk fw).descs
    → total fw.descs < 2 ^ 32
    → All IsHdr fw.descs
    → find_otus fw ≡ some i
    → fw_supports (feature_set (desc_at fw i)) miniboot_feature ≡ false
    → length added ≡ length mini
    → 0 < length mini
    → length mini + length fw.image ≤ 16384
    → 32 ≤ length fw.image
    → Added fw mini i (add_mini fw mini added)
add_mini-Added fw mini added i v n t h f none_yet e p fits real =
    subst (Added fw mini i) (sym (runs fw mini added i fits real v f e p none_yet))
      (stored-Added fw mini added i fits real v f n t h p)
