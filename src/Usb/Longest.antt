-- ===== src/Usb/Longest.antt =====
-- What `usb_status_in` packs is the longest run of messages that fits a certain room.
use carl9170fw.Base.{
  ℕ, ◌+◌, ◌-◌, ◌≤◌, ◌<◌, ◌≡◌, refl, ap, List, [], ◌∷◌, ◌++◌, arith, ltb, Bool-cases, inl, inr,
}
use carl9170fw.Usb.{Rsp}
use carl9170fw.Usb.Status.{packed, left}

-- The octets that messages occupy.
abbrev pub size : List Rsp → ℕ
size [] = 0
size (m ∷ ms) = m.len + 4 + size ms

abbrev pub Overflows : ℕ → ℕ → List Rsp → Type 0
Overflows room used [] = Unit
Overflows room used (m ∷ ms) = room < used + (m.len + 4)

-- `taken` is the longest run of the oldest messages that has no more than `room` octets.
pub record IsLongest (room : ℕ) (taken rest all : List Rsp) : Type 0 where
  pub whole : taken ++ rest ≡ all
  pub fits : size taken ≤ room
  pub longest : Overflows room (size taken) rest

Overflows-weaken :
    (room used more room' used' : ℕ) (ms : List Rsp)
    → room' + more ≡ room
    → used ≡ more + used'
    → Overflows room' used' ms
    → Overflows room used ms
Overflows-weaken room used more room' used' [] p q o = tt
Overflows-weaken room used more room' used' (m ∷ ms) p q o = omega (arith, p, q, o)

-- The loop's own test leaves four octets of the room free.
pub packed-IsLongest :
    (rem : ℕ) (ms : List Rsp) → 4 ≤ rem → IsLongest (rem - 4) (packed rem ms) (left rem ms) ms
packed-IsLongest rem [] p = record { whole = refl; fits = omega arith; longest = tt }
packed-IsLongest rem (m ∷ ms) p = elim (Bool-cases (ltb rem (m.len + 8))) [
  | inl t ↦
      let over : rem - 4 < 0 + (m.len + 4) = ground (arith, t) in
      rw t (record { whole = refl; fits = omega arith; longest = over })
  | inr t ↦
      let room : m.len + 8 ≤ rem = ground (arith, t) in
      let rem' : ℕ = rem - (m.len + 4) in
      let w : IsLongest (rem' - 4) (packed rem' ms) (left rem' ms) ms =
        packed-IsLongest rem' ms (omega arith) in
      rw t (record {
        whole = ap (λ xs. m ∷ xs) w.whole;
        fits = omega (arith, w.fits, room);
        longest =
            Overflows-weaken (rem - 4) (m.len + 4 + size (packed rem' ms)) (m.len + 4) (rem' - 4)
              (size (packed rem' ms)) (left rem' ms) (omega (arith, room)) (omega arith) w.longest;
      })
]
