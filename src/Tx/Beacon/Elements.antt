-- ===== src/Tx/Beacon/Elements.antt =====
-- What `beacon_find_ie` finds.
use carl9170fw.Base.{
  ℕ, zero, suc, ◌+◌, ◌-◌, ◌==◌, ◌≡◌, ◌≤◌, ◌<◌, refl, ◌∙◌, ap, ap₂, subst, ltb, if◌then◌else◌,
  Option, none, some, sub32, Bool, true, false, arith, Bool-cases, inl, inr, ◌^◌, List, [], ◌∷◌,
}
use native.Mathlib.Decide.{dec_le}
use carl9170fw.Tx.Beacon.{find_loop, beacon_find_ie, variable}

-- Elements, each an identifier and a length, lie one behind the other from a place to the end.
abbrev pub Lies : (ℕ → ℕ) → ℕ → ℕ → List (ℕ × ℕ) → Type 0
Lies octets pos end [] = pos ≡ end
Lies octets pos end (e ∷ es) =
    (octets pos ≡ e.0) × (octets (pos + 1) ≡ e.1) × Lies octets (pos + 2 + e.1) end es

-- The place of the first element with an identifier.
abbrev pub place : ℕ → ℕ → List (ℕ × ℕ) → Option ℕ
place ie pos [] = none
place ie pos (e ∷ es) =
    let rest = place ie (pos + 2 + e.1) es in if e.0 == ie then some pos else rest

Lies-end : (octets : ℕ → ℕ) (pos end : ℕ) (es : List (ℕ × ℕ)) → Lies octets pos end es → pos ≤ end
Lies-end octets pos end [] l = omega arith
Lies-end octets pos end (e ∷ es) l =
    let h : pos + 2 + e.1 ≤ end = Lies-end octets (pos + 2 + e.1) end es l.2 in omega arith

find_loop-place :
    (fuel ie : ℕ) (octets : ℕ → ℕ) (pos end : ℕ) (es : List (ℕ × ℕ))
    → Lies octets pos end es
    → end < fuel + pos
    → find_loop fuel ie octets pos end ≡ some (place ie pos es)
find_loop-place zero ie octets pos end es l f =
    let h : pos ≤ end = Lies-end octets pos end es l in absurd (omega arith)
find_loop-place (suc fuel) ie octets pos end [] l f =
    let over : ltb pos end ≡ false = ground arith in rw over refl
find_loop-place (suc fuel) ie octets pos end (e ∷ es) l f =
    let h : pos + 2 + e.1 ≤ end = Lies-end octets (pos + 2 + e.1) end es l.2 in
    let rest : find_loop fuel ie octets (pos + 2 + e.1) end ≡ some (place ie (pos + 2 + e.1) es) =
      find_loop-place fuel ie octets (pos + 2 + e.1) end es l.2 (omega arith) in
    let next : pos + (octets (pos + 1) + 2) ≡ pos + 2 + e.1 = omega (arith, l.1) in
    let a : ltb pos end ≡ true = ground arith in
    let b : ltb end (pos + 2 + octets (pos + 1)) ≡ false = ground (arith, l.1) in
    let on : find_loop fuel ie octets (pos + (octets (pos + 1) + 2)) end
        ≡ some (place ie (pos + 2 + e.1) es) =
      ap (λ (n : ℕ). find_loop fuel ie octets n end) next ∙ rest in
    rw a (
      rw b (
        ap₂ (λ (t : ℕ) r. if t == ie then some (some pos) else r) l.0 on
        ∙ found (e.0 == ie) (place ie (pos + 2 + e.1) es)))
  where
    found :
        (t : Bool) (r : Option ℕ)
        → (if t then some (some pos) else some r) ≡ some (if t then some pos else r)
    found true r = refl
    found false r = refl

-- In a beacon whose elements lie without a gap from the fixed fields to the check sequence,
-- `beacon_find_ie` returns the first element with the identifier, or the null pointer if there is
-- none. One unit of fuel for each octet, and one more, is enough.
pub beacon_find_ie-place :
    (fuel ie : ℕ) (octets : ℕ → ℕ) (len : ℕ) (es : List (ℕ × ℕ))
    → 4 ≤ len
    → len < 2 ^ 32
    → Lies octets variable (len - 4) es
    → len < fuel
    → beacon_find_ie fuel ie octets len ≡ some (place ie variable es)
unfolding beacon_find_ie
beacon_find_ie-place fuel ie octets len es four word l f =
    let end : sub32 len 4 ≡ len - 4 = omega arith in
    ap (λ (n : ℕ). find_loop fuel ie octets variable n) end
    ∙ find_loop-place fuel ie octets variable (len - 4) es l (omega arith)

-- What can be said of any octets: the search ends, and an element that is found has the
-- identifier and lies in front of the end with all of its length.
unfoldable pub Within : ℕ → (ℕ → ℕ) → ℕ → Option ℕ → Type 0
Within ie octets end r = (p : ℕ) → r ≡ some p → (octets p ≡ ie) × (p + 2 + octets (p + 1) ≤ end)

find_loop-Within :
    (fuel ie : ℕ) (octets : ℕ → ℕ) (pos end : ℕ)
    → end < fuel + pos
    → 0 < fuel
    → (r : Option ℕ) × (find_loop fuel ie octets pos end ≡ some r) × Within ie octets end r
unfolding Within
find_loop-Within zero ie octets pos end f g = absurd (omega arith)
find_loop-Within (suc fuel) ie octets pos end f g = elim (dec_le end pos) [
  | yes out ↦ let a : ltb pos end ≡ false = ground arith in (none, rw a refl, λ p e. ground arith)
  | no in_range ↦ elim (dec_le (pos + 2 + octets (pos + 1)) end) [
    | no clipped ↦
        let a : ltb pos end ≡ true = ground arith in
        let b : ltb end (pos + 2 + octets (pos + 1)) ≡ true = ground arith in
        (none, rw a (rw b refl), λ p e. ground arith)
    | yes whole ↦
        let a : ltb pos end ≡ true = ground arith in
        let b : ltb end (pos + 2 + octets (pos + 1)) ≡ false = ground arith in
        let (r, e, w) =
          find_loop-Within fuel ie octets (pos + (octets (pos + 1) + 2)) end (omega arith)
            (omega arith) in
        elim (Bool-cases (octets pos == ie)) [
          | inl t ↦ (
            some pos,
            rw a (rw b (rw t refl)),
            λ p q.
                let same : pos ≡ p = ground arith in
                let is : octets pos ≡ ie = ground arith in
                subst (λ (n : ℕ). (octets n ≡ ie) × (n + 2 + octets (n + 1) ≤ end)) same
                  (is, whole),
          )
          | inr t ↦ (r, rw a (rw b (rw t e)), w)
        ]
  ]
]

-- Whatever the octets of a beacon are, with one unit of fuel for each `beacon_find_ie` returns, and
-- what it returns is no more than an element with the identifier that ends in front of the check
-- sequence.
pub beacon_find_ie-Within :
    (fuel ie : ℕ) (octets : ℕ → ℕ) (len : ℕ)
    → 4 ≤ len
    → len < 2 ^ 32
    → len < fuel
    → (r : Option ℕ) × (beacon_find_ie fuel ie octets len ≡ some r) × Within ie octets (len - 4) r
unfolding beacon_find_ie
beacon_find_ie-Within fuel ie octets len four word f =
    let end : sub32 len 4 ≡ len - 4 = omega arith in
    let (r, e, w) =
      find_loop-Within fuel ie octets variable (len - 4) (omega arith) (omega arith) in
    (r, ap (λ (n : ℕ). find_loop fuel ie octets variable n) end ∙ e, w)
