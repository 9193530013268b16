-- ===== src/Usb/Control/Sent.antt =====
-- What `usb_ep0tx_data` writes is what the host reads.
use carl9170fw.Base.{
  ℕ, zero, suc, ◌-◌, ◌^◌, ◌==◌, if◌then◌else◌, ◌≡◌, ◌≤◌, refl, ◌∙◌, ap, List, [], ◌∷◌, ◌++◌, length,
  take, min, Bool, true, false, not, ◌||◌, Option, none, some, ◌>>=◌, arith, Bool-cases, inl, inr,
  ◌⊎◌,
}
use carl9170fw.Usb.Control.{Bytes, Control, ep0tx_data, Ep0, fifo_size, word, ep0tx_loop}

-- The octets that arrive, from the mask that the size register has on; none, if a word has another
-- number of octets than the mask.
abbrev pub received : ℕ → List Ep0 → Option Bytes
received mask [] = some []
received mask (fifo_size m ∷ es) = received m es
received mask (word bs ∷ es) =
    let rest = received mask es >>= λ cs. some (bs ++ cs) in
    if mask == 2 ^ length bs - 1 then rest else none

-- The register as the loop finds it: never written, or right for the next block.
abbrev IsReady : ℕ → ℕ → Bytes → Type 0
IsReady mask last_block bs = (last_block ≡ 0) ⊎ ((last_block ≡ min (length bs) 4) × (mask ≡ 15))

or-true : (b : Bool) → b || true ≡ true
or-true true = refl
or-true false = refl

-- Where no size is written, the one for four octets stands.
mask_is :
    (mask last n : ℕ)
    → min n 4 ≡ 4
    → (not (last == 4) || false) ≡ false
    → (last ≡ 0) ⊎ ((last ≡ min n 4) × (mask ≡ 15))
    → mask ≡ 15
mask_is mask last n e t (inl z) = absurd (ground (arith, t, z))
mask_is mask last n e t (inr p) = p.1

loop-received :
    (fuel mask last : ℕ) (bs : Bytes)
    → length bs ≤ fuel
    → IsReady mask last bs
    → received mask (ep0tx_loop fuel last bs ++ fifo_size 0xf ∷ []) ≡ some bs
loop-received fuel mask last [] p r = refl
loop-received zero mask last (b ∷ bs) p r = absurd (omega arith)
loop-received (suc fuel) mask last (a ∷ []) p r = rw (or-true (not (last == 1))) refl
loop-received (suc fuel) mask last (a ∷ b ∷ []) p r = rw (or-true (not (last == 2))) refl
loop-received (suc fuel) mask last (a ∷ b ∷ c ∷ []) p r = rw (or-true (not (last == 3))) refl
loop-received (suc fuel) mask last (a ∷ b ∷ c ∷ d ∷ bs) p r =
    let e : min (suc (suc (suc (suc (length bs))))) 4 ≡ 4 = omega arith in
    let four : Bytes = a ∷ b ∷ c ∷ d ∷ [] in
    let put : List Ep0 = word four ∷ ep0tx_loop fuel (min (length bs) 4) bs in
    let test : Bool = not (last == 4) || false in
    let whole : Bool → Option Bytes =
      λ t. received mask ((if t then fifo_size 15 ∷ put else put) ++ fifo_size 0xf ∷ []) in
    let ih = loop-received fuel 15 (min (length bs) 4) bs (omega arith) (inr (refl, refl)) in
    let core : received 15 (put ++ fifo_size 0xf ∷ []) ≡ some (a ∷ b ∷ c ∷ d ∷ bs) =
      ap (λ (o : Option Bytes). o >>= λ cs. some (four ++ cs)) ih in
    let done : whole test ≡ some (a ∷ b ∷ c ∷ d ∷ bs) = elim (Bool-cases test) [
      | inl t ↦ ap whole t ∙ core
      | inr t ↦
          ap whole t
          ∙ ap (λ (m : ℕ). received m (put ++ fifo_size 0xf ∷ []))
              (mask_is mask last (suc (suc (suc (suc (length bs))))) e t r)
          ∙ core
    ] in
    rw e done

-- What `usb_ep0tx_data` adds to the writes for some octets, the host reads as the first `len` of them,
-- whatever the size register had on before: each word is announced with a mask of its octets.
pub ep0tx_data-received :
    (bytes : Bytes) (len mask : ℕ) (s : Control)
    → (es : List Ep0) × ((ep0tx_data bytes len s).1.written ≡ s.written ++ es)
      × (received mask es ≡ some (take len bytes))
unfolding ep0tx_data
ep0tx_data-received bytes len mask s =
    let sent : Bytes = take len bytes in
    (
      ep0tx_loop (length sent) 0 sent ++ fifo_size 0xf ∷ [],
      refl,
      loop-received (length sent) mask 0 sent (omega arith) (inl refl),
    )
