-- ===== src/Wol/Sent.antt =====
-- tools/src/wol.c: the frame that the tool sends to wake a device, and the firmware's scanner on it.
use carl9170fw.Base.{
  ℕ, zero, suc, ◌+◌, ◌-◌, ◌*◌, ◌%◌, ◌≤◌, ◌<◌, ◌≡◌, refl, sym, ◌∙◌, ap, List, ◌∷◌, ◌++◌, length,
  get_or, set, drop, replicate, length-set, get_or-set_self, get_or-set_ne, true, false, ltb,
  get_or-drop, length-drop, arith, ◌⊎◌, inl,
}
use native.Mathlib.Decide.{dec_le}
use carl9170fw.Wol.Magic.{magic_len, wol_magic_packet, expected}
use carl9170fw.Wol.Found.{scan-rest}

-- `wol_magic_tmpl`. The octets that the source leaves out are 0.
abbrev pub wol_magic_tmpl : List ℕ
wol_magic_tmpl =
    0x08 ∷ 0 ∷ 0 ∷ 0 ∷ (replicate 18 0xff ++ 0 ∷ 0 ∷ (replicate 6 0xff ++ replicate 102 0))

-- `memcpy` of `n` octets to the place `p`.
unfoldable pub memcpy_at : ℕ → ℕ → List ℕ → List ℕ → List ℕ
memcpy_at zero p from to = to
memcpy_at (suc n) p from to = set (memcpy_at n p from to) (p + n) (get_or from n 0)

-- The loop of `prepare_wol` over the first `n` copies of the address.
unfoldable pub prepare_loop : ℕ → List ℕ → List ℕ → List ℕ
unfolding memcpy_at
prepare_loop zero mac wol_magic = wol_magic
prepare_loop (suc n) mac wol_magic = memcpy_at 6 (30 + n * 6) mac (prepare_loop n mac wol_magic)

-- `prepare_wol`
unfoldable pub prepare_wol : List ℕ → List ℕ → List ℕ
unfolding prepare_loop
prepare_wol mac wol_magic = prepare_loop 16 mac wol_magic

length-memcpy_at : (n p : ℕ) (from to : List ℕ) → length (memcpy_at n p from to) ≡ length to
unfolding memcpy_at
length-memcpy_at zero p from to = refl
length-memcpy_at (suc n) p from to =
    length-set (memcpy_at n p from to) (p + n) (get_or from n 0) ∙ length-memcpy_at n p from to

-- The octets that are copied.
memcpy_at-inside :
    (n p i : ℕ) (from to : List ℕ)
    → p + n ≤ length to
    → i < n
    → get_or (memcpy_at n p from to) (p + i) 0 ≡ get_or from i 0
unfolding memcpy_at
memcpy_at-inside zero p i from to fits lt = absurd (omega arith)
memcpy_at-inside (suc n) p i from to fits lt =
    let rest : List ℕ = memcpy_at n p from to in
    elim (dec_le n i) [
      | yes q ↦
          let e : i ≡ n = omega arith in
          let len = length-memcpy_at n p from to in
          let v : ℕ = get_or from n 0 in
          ap (λ (k : ℕ). get_or (set rest (p + n) v) (p + k) 0) e
          ∙ get_or-set_self rest (p + n) v 0 (omega (arith, len))
          ∙ ap (λ (k : ℕ). get_or from k 0) (sym e)
      | no q ↦
          get_or-set_ne rest (p + n) (p + i) (get_or from n 0) 0 (λ e. omega arith)
          ∙ memcpy_at-inside n p i from to (omega arith) (omega arith)
    ]

-- The octets before them stay, and those behind.
memcpy_at-outside :
    (n p j : ℕ) (from to : List ℕ)
    → (j < p) ⊎ (p + n ≤ j)
    → get_or (memcpy_at n p from to) j 0 ≡ get_or to j 0
unfolding memcpy_at
memcpy_at-outside zero p j from to out = refl
memcpy_at-outside (suc n) p j from to out =
    get_or-set_ne (memcpy_at n p from to) (p + n) j (get_or from n 0) 0 (λ e. ground arith)
    ∙ memcpy_at-outside n p j from to (ground arith)

length-prepare_loop : (n : ℕ) (mac f : List ℕ) → length (prepare_loop n mac f) ≡ length f
unfolding prepare_loop
length-prepare_loop zero mac f = refl
length-prepare_loop (suc n) mac f =
    length-memcpy_at 6 (30 + n * 6) mac (prepare_loop n mac f) ∙ length-prepare_loop n mac f

-- Behind the six octets FFh stand the copies of the address.
prepare_loop-copies :
    (n i : ℕ) (mac f : List ℕ)
    → 30 + n * 6 ≤ length f
    → i < n * 6
    → get_or (prepare_loop n mac f) (30 + i) 0 ≡ get_or mac (i % 6) 0
unfolding prepare_loop
prepare_loop-copies zero i mac f fits lt = absurd (omega arith)
prepare_loop-copies (suc n) i mac f fits lt =
    let rest : List ℕ = prepare_loop n mac f in
    let p : ℕ = 30 + n * 6 in
    let len = length-prepare_loop n mac f in
    elim (dec_le (n * 6) i) [
      | yes q ↦
          let at : ℕ = i - n * 6 in
          let e : 30 + i ≡ p + at = omega arith in
          ap (λ (k : ℕ). get_or (memcpy_at 6 p mac rest) k 0) e
          ∙ memcpy_at-inside 6 p at mac rest (omega (arith, len)) (omega arith)
          ∙ ap (λ (k : ℕ). get_or mac k 0) {x = at} {y = i % 6} (omega arith)
      | no q ↦
          memcpy_at-outside 6 p (30 + i) mac rest (inl (omega arith))
          ∙ prepare_loop-copies n i mac f (omega arith) (omega arith)
    ]

prepare_loop-front :
    (n j : ℕ) (mac f : List ℕ) → j < 30 → get_or (prepare_loop n mac f) j 0 ≡ get_or f j 0
unfolding prepare_loop
prepare_loop-front zero j mac f lt = refl
prepare_loop-front (suc n) j mac f lt =
    memcpy_at-outside 6 (30 + n * 6) j mac (prepare_loop n mac f) (inl (omega arith))
    ∙ prepare_loop-front n j mac f lt

sync_octets : (i : ℕ) → i < 6 → get_or wol_magic_tmpl (24 + i) 0 ≡ 0xff
sync_octets zero lt = refl
sync_octets (suc zero) lt = refl
sync_octets (suc (suc zero)) lt = refl
sync_octets (suc (suc (suc zero))) lt = refl
sync_octets (suc (suc (suc (suc zero)))) lt = refl
sync_octets (suc (suc (suc (suc (suc zero))))) lt = refl
sync_octets (suc (suc (suc (suc (suc (suc i)))))) lt = absurd (omega arith)

-- The length of a header of data, which the frame starts with.
abbrev pub data_hdrlen : ℕ
data_hdrlen = 24

sent_len : (mac : List ℕ) → length (prepare_wol mac wol_magic_tmpl) ≡ 132
unfolding prepare_wol
sent_len mac = length-prepare_loop 16 mac wol_magic_tmpl

-- The frame that `prepare_wol` makes for an address holds the pattern right behind its header.
sent-expected :
    (mac : List ℕ) (i : ℕ)
    → i < magic_len
    → get_or (drop data_hdrlen (prepare_wol mac wol_magic_tmpl)) i 0 ≡ expected mac i
unfolding prepare_wol
sent-expected mac i lt =
    let sent : List ℕ = prepare_loop 16 mac wol_magic_tmpl in
    get_or-drop data_hdrlen sent i 0 ∙ elim (dec_le 6 i) [
      | yes q ↦
          let same : ltb i 6 ≡ false = ground arith in
          let copied =
            prepare_loop-copies 16 (i - 6) mac wol_magic_tmpl (omega arith) (omega arith) in
          rw same (
            ap (λ (k : ℕ). get_or sent k 0) {x = 24 + i} {y = 30 + (i - 6)} (omega arith)
            ∙ copied
            ∙ ap (λ (k : ℕ). get_or mac k 0) {x = (i - 6) % 6} {y = i % 6} (omega arith))
      | no q ↦
          let same : ltb i 6 ≡ true = ground arith in
          rw same (
            prepare_loop-front 16 (24 + i) mac wol_magic_tmpl (omega arith)
            ∙ sync_octets i (omega arith))
    ]

-- The frame that the tool sends for an address is a magic packet for the firmware of the device
-- with that address: behind the frame's header, the scanner finds it, whatever the octets of
-- the address.
pub prepare_wol-found :
    (mac : List ℕ) → wol_magic_packet mac (drop data_hdrlen (prepare_wol mac wol_magic_tmpl)) ≡ true
unfolding wol_magic_packet
prepare_wol-found mac =
    let sent : List ℕ = prepare_wol mac wol_magic_tmpl in
    let len = length-drop data_hdrlen sent in
    scan-rest 101 0 mac (drop data_hdrlen sent) (omega arith) (omega (arith, len, sent_len mac))
      (λ i lt. sent-expected mac i lt ∙ ap (expected mac) {x = i} {y = 0 + i} (omega arith))
