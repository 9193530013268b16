-- ===== src/Print/Reading.antt =====
-- Reading digits back, and the digits of a quotient.
use carl9170fw.Base.{
  ℕ, zero, suc, ◌+◌, ◌-◌, ◌*◌, ◌≡◌, ◌<◌, refl, ◌∙◌, ap, ap₂, leb, ltb, if◌then◌else◌, List, [], ◌∷◌,
  ◌++◌, Bool, true, false, Option, some, u8, arith,
}
use native.Mathlib.Decide.{dec_le}
use carl9170fw.Print.{digit, div_loop}

-- Reading a character, and a string of them onto a value.
abbrev pub undigit : Bool → ℕ → ℕ
undigit uc c = if ltb c 58 then c - 48 else (if uc then c - 55 else c - 87)

abbrev pub read_on : Bool → ℕ → ℕ → List ℕ → ℕ
read_on uc base v [] = v
read_on uc base v (c ∷ cs) = read_on uc base (v * base + undigit uc c) cs

pub undigit-digit : (uc : Bool) (n : ℕ) → n < 36 → undigit uc (digit uc n) ≡ n
undigit-digit uc n p = ground arith

pub read_on-append :
    (uc : Bool) (base v : ℕ) (cs : List ℕ) (c : ℕ)
    → read_on uc base v (cs ++ c ∷ []) ≡ read_on uc base v cs * base + undigit uc c
read_on-append uc base v [] c = refl
read_on-append uc base v (d ∷ cs) c = read_on-append uc base (v * base + undigit uc d) cs c

abbrev pub some_pair : ℕ → ℕ → Option (ℕ × ℕ)
some_pair x y = some (x, y)

pub zero_more : (n : ℕ) → n ≡ n + 0
zero_more n = omega arith

pub div_loop-counts :
    (q fuel d r num dgt : ℕ)
    → r < d
    → num ≡ q * d + r
    → dgt + q < 256
    → q < fuel
    → div_loop fuel d num dgt ≡ some (r, dgt + q)
div_loop-counts q zero d r num dgt a b c e = absurd (omega arith)
div_loop-counts zero (suc fuel) d r num dgt a b c e =
    let n : num ≡ r = omega arith in
    let t : leb d num ≡ false = ground arith in rw t (ap₂ some_pair n (zero_more dgt))
div_loop-counts (suc q) (suc fuel) d r num dgt a b c e =
    let n : num ≡ d + (q * d + r) = grind arith in
    let t : leb d num ≡ true = ground arith in
    let m : num - d ≡ q * d + r = omega arith in
    let g : u8 (dgt + 1) ≡ suc dgt = omega arith in
    rw t (
      ap (div_loop fuel d (num - d)) g
      ∙ div_loop-counts q fuel d r (num - d) (suc dgt) a m (omega arith) (omega arith)
      ∙ ap (some_pair r) {x = suc dgt + q} {y = dgt + suc q} (omega arith))

pub identity : (v b i q r : ℕ) → v * (b * i) + (q * i + r) ≡ (v * b + q) * i + r
identity v b i q r = grind arith

-- A number below `b` times `i` has a digit below `b` at the power `i`.
pub quotient :
    (b i num : ℕ) → num < b * i → (q : ℕ) × (r : ℕ) × (q < b) × (r < i) × (num ≡ q * i + r)
quotient zero i num p = absurd (grind arith)
quotient (suc b) i num p = elim (dec_le i num) [
  | no less ↦ (0, num, omega arith, omega arith, grind arith)
  | yes more ↦
      let below : num - i < b * i = grind arith in
      let (q, r, qb, ri, e) = quotient b i (num - i) below in
      (suc q, r, omega arith, ri, grind arith)
]
