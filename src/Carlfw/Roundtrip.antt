-- ===== src/Carlfw/Roundtrip.antt =====
-- What is stored is what is loaded.
use carl9170fw.Base.{
  ℕ, zero, suc, ◌+◌, ◌-◌, ◌^◌, ◌≡◌, ◌≤◌, ◌<◌, refl, sym, ◌∙◌, ap, ap₂, subst, leb, ltb, ◌==◌, ==-ne,
  if◌then◌else◌, List, [], ◌∷◌, ◌++◌, append_assoc, append-nil, length, take, drop, Bool, true,
  false, arith, All, length-append, some, All-append,
}
use carl9170fw.Carlfw.Desc.{
  Result, enodata, ok, err, fault, ◌>>=◌, Bytes, byte, desc_length, last_magic, otus_magic,
  check_hdr_version,
}
use carl9170fw.Carlfw.Descs.{Carlfw, find_entry}
use carl9170fw.Carlfw.Counts.{IsValid, total}
use carl9170fw.Carlfw.Checksum.{chk_desc, without_chk, apply_checksums, check_crc32s}
use carl9170fw.Carlfw.Checked.{NoChk, Stored, apply_checksums-Stored}
use carl9170fw.Carlfw.File.{
  scan_back, accept_desc, file_find_desc, parse_descs, load_at, load, finish, check_loaded,
  write_file, last_desc, store, otus_desc_size, last_desc_size,
}
use carl9170fw.Carlfw.Parse.{
  IsHdr, octets, take-length-append, drop-length-append, Parsed, parse_descs-Parsed,
  write_descs-octets,
}

byte-shift : (pre bs : Bytes) (j : ℕ) → byte (pre ++ bs) (length pre + j) ≡ byte bs j
byte-shift [] bs j = ap (byte bs) (omega arith)
byte-shift (x ∷ pre) bs j =
    let e : suc (length pre) + j ≡ suc (length pre + j) = omega arith in
    ap (byte (x ∷ (pre ++ bs))) e ∙ byte-shift pre bs j

byte-at :
    (x : ℕ) (pre bs : Bytes) (j n : ℕ)
    → suc (length pre) + j ≡ n
    → byte (x ∷ (pre ++ bs)) n ≡ byte bs j
byte-at x pre bs j n e = ap (byte (x ∷ (pre ++ bs))) (sym e) ∙ byte-shift (x ∷ pre) bs j

-- The scan finds LAST where it was written, at the end of a file that has more before it.
find-last :
    (x : ℕ) (pre : Bytes)
    → file_find_desc (x ∷ (pre ++ last_desc)) last_magic last_desc_size 2 ≡ some (suc (length pre))
unfolding file_find_desc check_hdr_version
find-last x pre =
    let file : Bytes = x ∷ (pre ++ last_desc) in
    let k : ℕ = length pre in
    let long : length file ≡ suc (suc (suc (suc (k + 5)))) =
      omega (arith, length-append pre last_desc) in
    let b3 : byte file (suc (suc (suc (suc k)))) ≡ 0x54 =
      byte-at x pre last_desc 3 (suc (suc (suc (suc k)))) (omega arith) in
    let b2 : byte file (suc (suc (suc k))) ≡ 0x53 =
      byte-at x pre last_desc 2 (suc (suc (suc k))) (omega arith) in
    let b1 : byte file (suc (suc k)) ≡ 0x41 =
      byte-at x pre last_desc 1 (suc (suc k)) (omega arith) in
    let b0 : byte file (suc k) ≡ 0x4c = byte-at x pre last_desc 0 (suc k) (omega arith) in
    let there : drop (suc k) file ≡ last_desc = drop-length-append (x ∷ pre) last_desc in
    let start : length file - 1 - 4 ≡ suc (suc (suc (suc k))) = omega (arith, long) in
    let scanned : scan_back file last_magic (suc (suc (suc (suc k)))) 0 ≡ some (suc k) =
      rw b3 rw b2 rw b1 rw b0 refl in
    let len : desc_length (drop (suc k) file) ≡ 8 = ap desc_length there in
    let version : check_hdr_version (drop (suc k) file) 2 ≡ false =
      ap (λ (d : Bytes). check_hdr_version d 2) there in
    let inside : leb (suc k + desc_length (drop (suc k) file)) (length file) ≡ true =
      ground (arith, len, long) in
    let enough : leb 8 (desc_length (drop (suc k) file)) ≡ true = ground (arith, len) in
    let accepted : accept_desc file last_desc_size 2 (some (suc k)) ≡ some (suc k) =
      rw version rw inside rw enough refl in
    ap (accept_desc file last_desc_size 2)
      (ap (λ (n : ℕ). scan_back file last_magic n 0) start ∙ scanned)
    ∙ accepted

-- The check looks at the image and the descriptors.
check_crc32s-same :
    (fw gw : Carlfw) → fw.image ≡ gw.image → fw.descs ≡ gw.descs → check_crc32s fw ≡ check_crc32s gw
unfolding check_crc32s find_entry
check_crc32s-same fw gw e f =
    ap₂
      (λ (im : Bytes) (ds : List Bytes).
        check_crc32s (record { image = im; descs = ds; desc_list_entries = 0; desc_list_len = 0 }))
      e f

pub IsHdr-chk_desc : (a b : ℕ) → IsHdr (chk_desc a b)
IsHdr-chk_desc a b = record {
  is_whole = record { headed = omega arith; sized = refl };
  goes_on = refl;
}

-- A list that reading would go on at is written as it is.
pub write_file-octets :
    (fw : Carlfw)
    → All IsHdr fw.descs
    → 0 < length fw.image
    → write_file fw ≡ ok (fw, fw.image ++ (octets fw.descs ++ last_desc))
write_file-octets fw h p =
    let full : (length fw.image == 0) ≡ false =
      ==-ne (length fw.image) 0 (λ e. omega (arith, e, p)) in
    rw full (
      ap (λ (r : Result Bytes). r >>= λ bs. ok (fw, fw.image ++ (bs ++ last_desc)))
        (write_descs-octets fw.descs h))

-- What storing promises: it returns the list that it wrote and the file.
pub record Written (fw : Carlfw) : Type 0 where
  pub list : Carlfw
  pub returns : store fw ≡ ok (list, list.image ++ (octets list.descs ++ last_desc))
  pub passes : check_crc32s list ≡ ok tt
  pub hdrs : All IsHdr list.descs
  pub kept : list.image ≡ fw.image
  pub listed : (a : ℕ) × (b : ℕ) × (list.descs ≡ (without_chk fw).descs ++ chk_desc a b ∷ [])

-- A valid list of descriptors that reading would go on at, with less than 2 ^ 32 octets in all and
-- with no checksum descriptor left when the first is deleted, and an image that is not empty, are
-- stored: the call returns, the file is the image, the descriptors and LAST, the list is the one before with new checksums at its end,
-- and the check passes it.
pub store-Written :
    (fw : Carlfw)
    → IsValid fw
    → NoChk (without_chk fw).descs
    → total (without_chk fw).descs < 2 ^ 32
    → All IsHdr (without_chk fw).descs
    → 0 < length fw.image
    → Written fw
unfolding store
store-Written fw v n p h q =
    let s : Stored fw (apply_checksums fw) = apply_checksums-Stored fw v n p in
    let hdrs : All IsHdr s.file.descs = subst (All IsHdr) (sym s.listed.2) (
      All-append IsHdr (without_chk fw).descs (chk_desc s.listed.0 s.listed.1 ∷ []) h
        (IsHdr-chk_desc s.listed.0 s.listed.1, tt)) in
    let long : 0 < length s.file.image = omega (arith, q, ap (λ (b : Bytes). length b) s.kept) in
    record {
      list = s.file;
      returns =
          ap (λ (r : Result Carlfw). r >>= write_file) s.returns
          ∙ write_file-octets s.file hdrs long;
      passes = s.passes;
      hdrs = hdrs;
      kept = s.kept;
      listed = s.listed;
    }

drop-all : (n : ℕ) (bs : Bytes) → length bs ≤ n → drop n bs ≡ []
drop-all zero [] p = refl
drop-all zero (b ∷ bs) p = absurd (omega arith)
drop-all (suc n) [] p = refl
drop-all (suc n) (b ∷ bs) p = drop-all n bs (omega arith)

-- Reading a file with the layout of a stored one.
load-layout :
    (fw : Carlfw) (x : ℕ) (image : Bytes)
    → fw.image ≡ x ∷ image
    → check_crc32s fw ≡ ok tt
    → All IsHdr fw.descs
    → 0 < length fw.descs
    → file_find_desc ((x ∷ image) ++ (octets fw.descs ++ last_desc)) otus_magic otus_desc_size 7
      ≡ some (suc (length image))
    → (fw' : Carlfw) × (load ((x ∷ image) ++ (octets fw.descs ++ last_desc)) ≡ ok fw')
      × (fw'.image ≡ fw.image)
      × (fw'.descs ≡ fw.descs)
unfolding load
load-layout fw x image e c h p f =
    let body : Bytes = octets fw.descs ++ last_desc in
    let bytes : Bytes = (x ∷ image) ++ body in
    let pre : Bytes = image ++ octets fw.descs in
    let same : x ∷ (pre ++ last_desc) ≡ bytes =
      ap (λ (bs : Bytes). x ∷ bs) (append_assoc image (octets fw.descs) last_desc) in
    let l : file_find_desc bytes last_magic last_desc_size 2 ≡ some (suc (length pre)) =
      ap (λ (bs : Bytes). file_find_desc bs last_magic last_desc_size 2) (sym same)
      ∙ find-last x pre in
    let sizes : length pre ≡ length image + length (octets fw.descs) =
      length-append image (octets fw.descs) in
    let in_order : ltb (suc (length pre)) (suc (length image)) ≡ false = ground (arith, sizes) in
    let blank : Carlfw = record {
      image = bytes;
      descs = [];
      desc_list_entries = 0;
      desc_list_len = 0;
    } in
    let blank_valid : IsValid blank = record { whole = tt; entries_are = refl; len_is = refl } in
    let start : drop (suc (length image)) bytes ≡ body = drop-length-append (x ∷ image) body in
    let parsed : Parsed blank fw.descs (parse_descs blank body) =
      parse_descs-Parsed blank fw.descs [] blank_valid h p in
    let list : Carlfw = record parsed.list { image = x ∷ image } in
    let rest : drop (suc (length pre) + 8) bytes ≡ [] = drop-all (suc (length pre) + 8) bytes (
      omega (
        arith,
        sizes,
        length-append (x ∷ image) body,
        length-append (octets fw.descs) last_desc,
      )) in
    let whole : take (suc (length image)) bytes ++ drop (suc (length pre) + 8) bytes ≡ x ∷ image =
      ap₂ (λ (a b : Bytes). a ++ b) (take-length-append (x ∷ image) body) rest
      ∙ append-nil (x ∷ image) in
    let read : parse_descs blank (drop (suc (length image)) bytes) ≡ ok parsed.list =
      ap (parse_descs blank) start ∙ parsed.returns in
    let found : load bytes ≡ load_at bytes (some (suc (length image))) (some (suc (length pre))) =
      ap₂ (load_at bytes) f l in
    let ordered : load_at bytes (some (suc (length image))) (some (suc (length pre)))
        ≡ finish (take (suc (length image)) bytes ++ drop (suc (length pre) + 8) bytes)
            (parse_descs blank (drop (suc (length image)) bytes)) =
      ap
        (λ (b : Bool).
          if b
          then err enodata
          else finish (take (suc (length image)) bytes ++ drop (suc (length pre) + 8) bytes)
              (parse_descs blank (drop (suc (length image)) bytes)))
        in_order in
    (
      list,
      found
          ∙ ordered
          ∙ ap₂ finish whole read
          ∙ ap (check_loaded list) (check_crc32s-same list fw (sym e) parsed.entries ∙ c),
      sym e,
      parsed.entries,
    )

load-file :
    (fw : Carlfw) (image : Bytes)
    → fw.image ≡ image
    → 0 < length image
    → check_crc32s fw ≡ ok tt
    → All IsHdr fw.descs
    → 0 < length fw.descs
    → file_find_desc (image ++ (octets fw.descs ++ last_desc)) otus_magic otus_desc_size 7
      ≡ some (length image)
    → (fw' : Carlfw) × (load (image ++ (octets fw.descs ++ last_desc)) ≡ ok fw')
      × (fw'.image ≡ fw.image)
      × (fw'.descs ≡ fw.descs)
load-file fw [] e q c h p f = absurd (omega arith)
load-file fw (x ∷ image) e q c h p f = load-layout fw x image e c h p f

abbrev from_ok : {A : Type 0} → A → Result A → A
from_ok a (ok b) = b
from_ok a (err e) = a
from_ok a fault = a

-- A valid list of descriptors that reading would go on at, with less than 2 ^ 32 octets in all and
-- with no checksum descriptor left when the first is deleted, and an image that is not empty, are
-- stored. If the last OTUS_MAGIC that a search in the file accepts is the one that follows the image,
-- loading the file returns the image, and the list with the checksums.
pub load-store :
    (fw : Carlfw) (r : Carlfw × Bytes)
    → IsValid fw
    → NoChk (without_chk fw).descs
    → total (without_chk fw).descs < 2 ^ 32
    → All IsHdr (without_chk fw).descs
    → 0 < length fw.image
    → store fw ≡ ok r
    → file_find_desc r.1 otus_magic otus_desc_size 7 ≡ some (length fw.image)
    → (fw' : Carlfw) × (load r.1 ≡ ok fw') × (fw'.image ≡ fw.image) × (fw'.descs ≡ r.0.descs)
load-store fw r v n p h q s f =
    let w : Written fw = store-Written fw v n p h q in
    let file : Bytes = w.list.image ++ (octets w.list.descs ++ last_desc) in
    let is : r ≡ (w.list, file) = ap (from_ok r) (sym s ∙ w.returns) in
    let some_desc : 0 < length w.list.descs = omega (
      arith,
      ap (λ (ds : List Bytes). length ds) w.listed.2,
      length-append (without_chk fw).descs (chk_desc w.listed.0 w.listed.1 ∷ []),
    ) in
    let a =
      load-file w.list w.list.image refl (omega (arith, ap (λ (b : Bytes). length b) w.kept))
        w.passes w.hdrs some_desc
        (ap (λ (x : Carlfw × Bytes). file_find_desc x.1 otus_magic otus_desc_size 7) (sym is)
          ∙ f
          ∙ ap (λ (b : Bytes). some (length b)) (sym w.kept)) in
    (
      a.0,
      ap (λ (x : Carlfw × Bytes). load x.1) is ∙ a.1,
      a.2 ∙ w.kept,
      a.3 ∙ ap (λ (x : Carlfw × Bytes). x.0.descs) (sym is),
    )
