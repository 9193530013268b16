-- ===== src/Wol/Magic.antt =====
-- The scanner of `wlan_rx_wol_magic_packet`, and that what it finds is a magic packet.
use carl9170fw.Base.{
  ℕ, suc, ◌+◌, ◌*◌, ◌%◌, ◌==◌, ◌≤◌, ◌<◌, ◌≡◌, refl, sym, ◌∙◌, ap, subst, leb, ltb, if◌then◌else◌,
  List, [], ◌∷◌, length, get_or, Bool, true, false, arith, Bool-cases, ◌⊎◌, inl, inr,
}
use native.Mathlib.Decide.{dec_le}

-- The length of a magic packet: six octets of FFh, and the address 16 times.
abbrev pub magic_len : ℕ
magic_len = 6 + 16 * 6

-- The loop's body: how much of the pattern has been found after the next octet.
unfoldable pub magic_step : List ℕ → ℕ → ℕ → ℕ
magic_step mac found octet =
    let found1 =
      if leb 6 found then (if octet == get_or mac (found % 6) 0 then found + 1 else 0) else found in
    if ltb found1 6 then (if octet == 0xff then found1 + 1 else 0) else found1

-- The loop over the octets behind the header.
unfoldable pub magic_scan : List ℕ → ℕ → List ℕ → Bool
magic_scan mac found [] = false
magic_scan mac found (octet ∷ octets) =
    let rest = magic_scan mac (magic_step mac found octet) octets in
    if magic_step mac found octet == magic_len then true else rest

-- `wlan_rx_wol_magic_packet`, on the octets between the header and the end.
unfoldable pub wol_magic_packet : List ℕ → List ℕ → Bool
wol_magic_packet mac octets = magic_scan mac 0 octets

-- The octet at a place of the pattern.
abbrev pub expected : List ℕ → ℕ → ℕ
expected mac i = if ltb i 6 then 0xff else get_or mac (i % 6) 0

-- The first `n` octets of the pattern stand in the octets from `p` on.
unfoldable pub Stands : List ℕ → List ℕ → ℕ → ℕ → Type 0
Stands mac octets p n = (i : ℕ) → i < n → get_or octets (p + i) 0 ≡ expected mac i

-- A magic packet for this address stands somewhere in the octets.
pub HasMagic : List ℕ → List ℕ → Type 0
HasMagic mac octets = (p : ℕ) × (p + magic_len ≤ length octets) × Stands mac octets p magic_len

step-grows : (mac : List ℕ) (found octet : ℕ) → magic_step mac found octet ≤ suc found
unfolding magic_step
step-grows mac found octet = ground arith

-- An octet either is the next of the pattern, or the first, or none.
step-cases :
    (mac : List ℕ) (found octet : ℕ)
    → ((magic_step mac found octet ≡ suc found) × (octet ≡ expected mac found))
      ⊎ (((magic_step mac found octet ≡ 1) × (octet ≡ 0xff)) ⊎ (magic_step mac found octet ≡ 0))
unfolding magic_step
step-cases mac found octet = ground arith

-- After an octet, the part found ends with it.
Stands-step :
    (mac xs : List ℕ) (p found octet : ℕ)
    → octet ≡ get_or xs (p + found) 0
    → Stands mac xs p found
    → (p' : ℕ) × (p' + magic_step mac found octet ≡ p + suc found)
      × Stands mac xs p' (magic_step mac found octet)
unfolding Stands
Stands-step mac xs p found octet at st = elim (step-cases mac found octet) [
  | inl (grown, is) ↦ (
    p,
    omega arith,
    λ i lt. elim (dec_le found i) [
      | yes q ↦
          (let e : i ≡ found = omega arith in
            ap (λ (j : ℕ). get_or xs (p + j) 0) e ∙ sym at ∙ is ∙ ap (expected mac) (sym e))
      | no q ↦ st i (omega arith)
    ],
  )
  | inr (inl (one, is)) ↦ (
    p + found,
    omega arith,
    λ i lt.
        let e : i ≡ 0 = omega arith in
        let f : p + found + i ≡ p + found = omega arith in
        ap (λ (j : ℕ). get_or xs j 0) f ∙ sym at ∙ is ∙ ap (expected mac) (sym e),
  )
  | inr (inr none) ↦ (p + suc found, omega arith, λ i lt. absurd (omega arith))
]

scan-HasMagic :
    (rest mac xs : List ℕ) (p found : ℕ)
    → ((i : ℕ) → get_or rest i 0 ≡ get_or xs (p + found + i) 0)
    → p + found + length rest ≡ length xs
    → Stands mac xs p found
    → magic_scan mac found rest ≡ true
    → HasMagic mac xs
unfolding magic_scan HasMagic
scan-HasMagic [] mac xs p found at len st e = ground arith
scan-HasMagic (octet ∷ rest) mac xs p found at len st e =
    let zero_at : get_or xs (p + found + 0) 0 ≡ get_or xs (p + found) 0 =
      ap (λ (j : ℕ). get_or xs j 0) {x = p + found + 0} {y = p + found} (omega arith) in
    let (p', ends, st') = Stands-step mac xs p found octet (at 0 ∙ zero_at) st in
    elim (Bool-cases (magic_step mac found octet == magic_len)) [
      | inl found_all ↦
          let full : magic_step mac found octet ≡ 102 = ground arith in
          (p', omega arith, subst (Stands mac xs p') full st')
      | inr more ↦
          let same : magic_scan mac found (octet ∷ rest)
              ≡ magic_scan mac (magic_step mac found octet) rest =
            rw more refl in
          scan-HasMagic rest mac xs p' (magic_step mac found octet)
            (λ i.
              at (suc i)
              ∙ ap (λ (j : ℕ). get_or xs j 0) {x = p + found + suc i}
                  {y = p' + magic_step mac found octet + i} (omega arith))
            (omega arith) st' (sym same ∙ e)
    ]

-- What the scanner takes for a magic packet is one: the six octets FFh and 16 times the device's
-- address stand in the frame behind its header, without a gap.
pub wol_magic_packet-HasMagic :
    (mac octets : List ℕ) → wol_magic_packet mac octets ≡ true → HasMagic mac octets
unfolding wol_magic_packet Stands
wol_magic_packet-HasMagic mac octets e =
    scan-HasMagic octets mac octets 0 0
      (λ i. ap (λ (j : ℕ). get_or octets j 0) {x = i} {y = 0 + 0 + i} (omega arith)) (omega arith)
      (λ i lt. absurd (omega arith)) e
