-- ===== src/Wol/Found.antt =====
-- That the scanner finds a magic packet.
use carl9170fw.Base.{
  ℕ, zero, suc, ◌+◌, ◌%◌, ◌==◌, ◌≤◌, ◌<◌, ◌≡◌, ◌≢◌, refl, sym, ◌∙◌, ap, if◌then◌else◌, List, [],
  ◌∷◌, ◌++◌, length, get_or, true, false, arith, Bool-cases, ◌⊎◌, inl, inr,
}
use carl9170fw.Wol.Magic.{magic_len, magic_step, magic_scan, wol_magic_packet, expected, Stands}

step_expected :
    (mac : List ℕ) (found octet : ℕ)
    → octet ≡ expected mac found
    → magic_step mac found octet ≡ suc found
unfolding magic_step
step_expected mac found octet e = ground arith

-- From any part of the pattern on, the rest of it is found.
pub scan-rest :
    (n : ℕ) (found : ℕ) (mac octets : List ℕ)
    → found + suc n ≡ magic_len
    → suc n ≤ length octets
    → ((i : ℕ) → i < suc n → get_or octets i 0 ≡ expected mac (found + i))
    → magic_scan mac found octets ≡ true
unfolding magic_scan
scan-rest n found mac [] e len at = ground arith
scan-rest zero found mac (octet ∷ octets) e len at =
    let here : found + 0 ≡ found = omega arith in
    let grown : magic_step mac found octet ≡ suc found =
      step_expected mac found octet (at 0 (omega arith) ∙ ap (expected mac) here) in
    let all : (magic_step mac found octet == magic_len) ≡ true = ground arith in rw all refl
scan-rest (suc n) found mac (octet ∷ octets) e len at =
    let here : found + 0 ≡ found = omega arith in
    let grown : magic_step mac found octet ≡ suc found =
      step_expected mac found octet (at 0 (omega arith) ∙ ap (expected mac) here) in
    let more : (magic_step mac found octet == magic_len) ≡ false = ground arith in
    let rest : magic_scan mac (suc found) octets ≡ true =
      scan-rest n (suc found) mac octets (omega arith) (omega arith) (λ i lt.
        at (suc i) (omega arith)
        ∙ ap (expected mac) {x = found + suc i} {y = suc found + i} (omega arith)) in
    rw more (ap (λ (f : ℕ). magic_scan mac f octets) grown ∙ rest)

-- Behind an octet that is not FFh, the scanner is at the start or expects the address.
step_other :
    (mac : List ℕ) (found octet : ℕ)
    → octet ≢ 0xff
    → (magic_step mac found octet ≡ 0) ⊎ (7 ≤ magic_step mac found octet)
unfolding magic_step
step_other mac found octet ne = ground arith

step_restart :
    (mac : List ℕ) (found : ℕ)
    → ((i : ℕ) → get_or mac i 0 ≢ 0xff)
    → (found ≡ 0) ⊎ (7 ≤ found)
    → magic_step mac found 0xff ≡ magic_step mac 0 0xff
unfolding magic_step
step_restart mac found free h =
    let a : get_or mac (found % 6) 0 ≢ 0xff = free (found % 6) in ground arith

scan_restart :
    (mac octets : List ℕ) (found : ℕ)
    → ((i : ℕ) → get_or mac i 0 ≢ 0xff)
    → (found ≡ 0) ⊎ (7 ≤ found)
    → magic_scan mac found (0xff ∷ octets) ≡ magic_scan mac 0 (0xff ∷ octets)
unfolding magic_scan
scan_restart mac octets found free h =
    ap (λ (f : ℕ). if f == magic_len then true else magic_scan mac f octets)
      (step_restart mac found free h)

scan-behind :
    (front octets mac : List ℕ) (x found : ℕ)
    → ((i : ℕ) → get_or mac i 0 ≢ 0xff)
    → x ≢ 0xff
    → magic_scan mac 0 (0xff ∷ octets) ≡ true
    → magic_scan mac found (front ++ x ∷ 0xff ∷ octets) ≡ true
unfolding magic_scan
scan-behind [] octets mac x found free ne e =
    elim (Bool-cases (magic_step mac found x == magic_len)) [
      | inl b ↦ rw b refl
      | inr b ↦
          rw b
            (scan_restart mac octets (magic_step mac found x) free (step_other mac found x ne) ∙ e)
    ]
scan-behind (y ∷ front) octets mac x found free ne e =
    let rest = scan-behind front octets mac x (magic_step mac found y) free ne e in
    elim (Bool-cases (magic_step mac found y == magic_len)) [
      | inl b ↦ rw b refl
      | inr b ↦ rw b rest
    ]

-- The scanner finds a magic packet behind anything that does not end in FFh, if the address has no
-- octet FFh. (Another FFh before the six would make it start over too late.)
wol_magic_packet-found :
    (front octets mac : List ℕ) (x : ℕ)
    → ((i : ℕ) → get_or mac i 0 ≢ 0xff)
    → x ≢ 0xff
    → magic_len ≤ length octets
    → Stands mac octets 0 magic_len
    → wol_magic_packet mac (front ++ x ∷ octets) ≡ true
unfolding wol_magic_packet Stands
wol_magic_packet-found front [] mac x free ne len at = ground arith
wol_magic_packet-found front (octet ∷ octets) mac x free ne len at =
    let first : octet ≡ 0xff = at 0 (omega arith) in
    let all : magic_scan mac 0 (octet ∷ octets) ≡ true =
      scan-rest 101 0 mac (octet ∷ octets) (omega arith) len (λ i lt.
        ap (λ (j : ℕ). get_or (octet ∷ octets) j 0) {x = i} {y = 0 + i} (omega arith)
        ∙ at i lt
        ∙ ap (expected mac) {x = i} {y = 0 + i} (omega arith)) in
    ap (λ (o : ℕ). magic_scan mac 0 (front ++ x ∷ o ∷ octets)) first
    ∙ scan-behind front octets mac x 0 free ne
        (ap (λ (o : ℕ). magic_scan mac 0 (o ∷ octets)) (sym first) ∙ all)
