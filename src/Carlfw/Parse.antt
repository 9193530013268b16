-- ===== src/Carlfw/Parse.antt =====
-- The loop over the descriptors of a file reads back the list that was written.
use carl9170fw.Base.{
  ℕ, zero, suc, ◌+◌, ◌≡◌, ◌≤◌, ◌<◌, refl, sym, ◌∙◌, ap, ap₂, subst, ltb, if◌then◌else◌, List, [],
  ◌∷◌, ◌++◌, append_assoc, append-nil, length, take, drop, Bool, true, false, arith, All,
  length-append,
}
use carl9170fw.Carlfw.Desc.{Result, ok, fault, Bytes, desc_length, desc_max_length}
use carl9170fw.Carlfw.Descs.{Carlfw, desc_add_tail}
use carl9170fw.Carlfw.Counts.{IsWhole, IsValid, add-tail-Added}
use carl9170fw.Carlfw.File.{is_hdr, out_of_file, parse_loop, parse_descs, write_descs, last_desc}

-- The octets of descriptors, one after the other.
abbrev pub octets : List Bytes → Bytes
octets [] = []
octets (d ∷ ds) = d ++ octets ds

-- A descriptor that the loop reads.
pub record IsHdr (d : Bytes) : Type 0 where
  pub is_whole : IsWhole d
  pub goes_on : is_hdr d ≡ true

head-append :
    (d rest : Bytes)
    → 8 ≤ length d
    → (desc_length (d ++ rest) ≡ desc_length d) × (is_hdr (d ++ rest) ≡ is_hdr d)
head-append [] rest p = absurd (omega arith)
head-append (a ∷ []) rest p = absurd (omega arith)
head-append (a ∷ b ∷ []) rest p = absurd (omega arith)
head-append (a ∷ b ∷ c ∷ []) rest p = absurd (omega arith)
head-append (a ∷ b ∷ c ∷ d ∷ []) rest p = absurd (omega arith)
head-append (a ∷ b ∷ c ∷ d ∷ e ∷ []) rest p = absurd (omega arith)
head-append (a ∷ b ∷ c ∷ d ∷ e ∷ f ∷ ds) rest p = (refl, refl)

pub take-length-append : (xs ys : Bytes) → take (length xs) (xs ++ ys) ≡ xs
take-length-append [] ys = refl
take-length-append (x ∷ xs) ys = ap (λ (zs : Bytes). x ∷ zs) (take-length-append xs ys)

pub drop-length-append : (xs ys : Bytes) → drop (length xs) (xs ++ ys) ≡ ys
drop-length-append [] ys = refl
drop-length-append (x ∷ xs) ys = drop-length-append xs ys

pub take-all : (d : Bytes) → IsWhole d → take (desc_length d) d ≡ d
take-all d w =
    ap₂ (λ (n : ℕ) (x : Bytes). take n x) (sym w.sized) (sym (append-nil d))
    ∙ take-length-append d []

is_hdr-bound : (d : Bytes) → is_hdr d ≡ true → desc_length d < desc_max_length
is_hdr-bound d h = ground arith

-- Writing them returns their octets.
pub write_descs-octets : (ds : List Bytes) → All IsHdr ds → write_descs ds ≡ ok (octets ds)
write_descs-octets [] h = refl
write_descs-octets (d ∷ ds) h =
    let t : ltb desc_max_length (desc_length d) ≡ false =
      ground (arith, is_hdr-bound d h.0.goes_on) in
    let ih : write_descs ds ≡ ok (octets ds) = write_descs-octets ds h.1 in
    let this : ok (take (desc_length d) d ++ octets ds) ≡ ok (d ++ octets ds) =
      ap (λ (x : Bytes). ok (x ++ octets ds)) (take-all d h.0.is_whole) in
    rw t rw ih this

-- What reading promises.
pub record Parsed (fw : Carlfw) (ds : List Bytes) (r : Result Carlfw) : Type 0 where
  pub list : Carlfw
  pub returns : r ≡ ok list
  pub entries : list.descs ≡ fw.descs ++ ds
  pub kept : list.image ≡ fw.image
  pub valid : IsValid list

-- One turn of the loop.
loop-step :
    (fuel : ℕ) (fw fw' : Carlfw) (d rest : Bytes)
    → IsHdr d
    → desc_add_tail fw (d ++ rest) ≡ ok fw'
    → parse_loop (suc fuel) fw (d ++ rest) ≡ parse_loop fuel fw' rest
loop-step fuel fw fw' d rest h e =
    let w = head-append d rest (omega (arith, h.is_whole.headed, h.is_whole.sized)) in
    let long : length (d ++ rest) ≡ length d + length rest = length-append d rest in
    let inside : out_of_file (d ++ rest) ≡ false =
      ground (arith, long, h.is_whole.headed, h.is_whole.sized) in
    let on : is_hdr (d ++ rest) ≡ true = w.1 ∙ h.goes_on in
    let all : ltb (length (d ++ rest)) (desc_length (d ++ rest)) ≡ false =
      ground (arith, long, w.0, h.is_whole.sized) in
    let next : drop (desc_length (d ++ rest)) (d ++ rest) ≡ rest =
      ap (λ (n : ℕ). drop n (d ++ rest)) (w.0 ∙ sym h.is_whole.sized) ∙ drop-length-append d rest in
    let after : parse_loop fuel fw' (drop (desc_length (d ++ rest)) (d ++ rest))
        ≡ parse_loop fuel fw' rest =
      ap (parse_loop fuel fw') next in
    rw inside rw on rw all rw e after

-- At LAST the loop ends.
loop-last :
    (fuel : ℕ) (fw : Carlfw) (rest : Bytes) → parse_loop (suc fuel) fw (last_desc ++ rest) ≡ ok fw
loop-last fuel fw rest =
    let inside : out_of_file (last_desc ++ rest) ≡ false = ground arith in rw inside refl

-- On a valid list, with fuel for each descriptor and one more, the loop reads descriptors that
-- are written one after the other and are followed by LAST, and adds all of them to the list.
pub parse_loop-Parsed :
    (fuel : ℕ) (fw : Carlfw) (ds : List Bytes) (rest : Bytes)
    → IsValid fw
    → All IsHdr ds
    → length ds < fuel
    → Parsed fw ds (parse_loop fuel fw (octets ds ++ (last_desc ++ rest)))
parse_loop-Parsed zero fw ds rest v h p = absurd (omega arith)
parse_loop-Parsed (suc fuel) fw [] rest v h p = record {
  list = fw;
  returns = loop-last fuel fw rest;
  entries = sym (append-nil fw.descs);
  kept = refl;
  valid = v;
}
parse_loop-Parsed (suc fuel) fw (d ∷ ds) rest v h p =
    let whole : IsWhole d = h.0.is_whole in
    let after : Bytes = octets ds ++ (last_desc ++ rest) in
    let w = head-append d after (omega (arith, whole.headed, whole.sized)) in
    let a =
      (add-tail-Added fw (d ++ after) v
          (omega (arith, w.0, whole.sized, length-append d after))).added
        (omega (arith, w.0, whole.headed)) in
    let it : take (desc_length (d ++ after)) (d ++ after) ≡ d =
      ap (λ (n : ℕ). take n (d ++ after)) (w.0 ∙ sym whole.sized) ∙ take-length-append d after in
    let ih = parse_loop-Parsed fuel a.0 ds rest a.4 h.1 (omega arith) in
    record {
      list = ih.list;
      returns =
          ap (parse_loop (suc fuel) fw) (append_assoc d (octets ds) (last_desc ++ rest))
          ∙ loop-step fuel fw a.0 d after h.0 a.1
          ∙ ih.returns;
      entries =
          ih.entries
          ∙ ap (λ (xs : List Bytes). xs ++ ds) (a.2 ∙ ap (λ (x : Bytes). fw.descs ++ x ∷ []) it)
          ∙ append_assoc fw.descs (d ∷ []) ds;
      kept = ih.kept ∙ a.3;
      valid = ih.valid;
    }

length-octets : (ds : List Bytes) → All IsHdr ds → length ds ≤ length (octets ds)
length-octets [] h = omega arith
length-octets (d ∷ ds) h = omega (
  arith,
  length-octets ds h.1,
  length-append d (octets ds),
  h.0.is_whole.headed,
  h.0.is_whole.sized,
)

-- Reading at least one descriptor, with the fuel that reading takes.
pub parse_descs-Parsed :
    (fw : Carlfw) (ds : List Bytes) (rest : Bytes)
    → IsValid fw
    → All IsHdr ds
    → 0 < length ds
    → Parsed fw ds (parse_descs fw (octets ds ++ (last_desc ++ rest)))
parse_descs-Parsed fw [] rest v h p = absurd (omega arith)
parse_descs-Parsed fw (d ∷ ds) rest v h p =
    let bytes : Bytes = octets (d ∷ ds) ++ (last_desc ++ rest) in
    let after : Bytes = octets ds ++ (last_desc ++ rest) in
    let w = head-append d after (omega (arith, h.0.is_whole.headed, h.0.is_whole.sized)) in
    let on : is_hdr bytes ≡ true =
      ap is_hdr (append_assoc d (octets ds) (last_desc ++ rest)) ∙ w.1 ∙ h.0.goes_on in
    let it : Parsed fw (d ∷ ds) (parse_loop (suc (length bytes)) fw bytes) =
      parse_loop-Parsed (suc (length bytes)) fw (d ∷ ds) rest v h (
        omega
          (arith, length-octets (d ∷ ds) h, length-append (octets (d ∷ ds)) (last_desc ++ rest))) in
    subst
      (λ (b : Bool).
        Parsed fw (d ∷ ds) (if b then parse_loop (suc (length bytes)) fw bytes else fault))
      (sym on) it
