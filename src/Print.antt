-- ===== src/Print.antt =====
-- carlfw/src/printf.c: the digits of a number. A character is its code.
pub mod Reading
pub mod Digits
mod Tests
use carl9170fw.Base.{
  ℕ, zero, suc, ◌+◌, ◌-◌, ◌/◌, ◌^◌, ◌==◌, leb, ltb, if◌then◌else◌, List, [], ◌∷◌, ◌++◌, Bool, true,
  false, ◌||◌, Option, none, some, ◌>>=◌, u8,
}

-- `num`, `zs` and what has been written to `bf`.
pub record Printer : Type 0 where
  pub num : ℕ
  pub zs : Bool
  pub bf : List ℕ

-- The character of a digit. `uc` chooses upper case letters.
abbrev pub digit : Bool → ℕ → ℕ
digit uc dgt = u8 (if ltb dgt 10 then dgt + 48 else (if uc then dgt + 55 else dgt + 87))

-- `outDgt`
unfoldable pub out_dgt : Bool → ℕ → Printer → Printer
out_dgt uc dgt p = record p { bf = p.bf ++ digit uc dgt ∷ []; zs = true }

-- The loop of `divOut`: what is left of the number, and the digit.
abbrev pub div_loop : ℕ → ℕ → ℕ → ℕ → Option (ℕ × ℕ)
div_loop zero d num dgt = none
div_loop (suc fuel) d num dgt =
    let rest = div_loop fuel d (num - d) (u8 (dgt + 1)) in
    if leb d num then rest else some (num, dgt)

-- `divOut`
unfoldable pub div_out : ℕ → Bool → ℕ → Printer → Option Printer
div_out fuel uc d p = div_loop fuel d p.num 0 >>= λ r.
    (let left : Printer = record p { num = r.0 } in
      some (if left.zs || ltb 0 r.1 then out_dgt uc r.1 left else left))

-- The loop of `tfp_printf` over the powers of the base, and the last digit.
abbrev pub powers_loop : ℕ → ℕ → Bool → ℕ → ℕ → Printer → Option Printer
powers_loop zero fuel uc base i p = none
powers_loop (suc rounds) fuel uc base i p = div_out fuel uc i p >>= λ q.
    (let rest = powers_loop rounds fuel uc base (i / base) q in
      if i / base == 1 then some (out_dgt uc q.num q) else rest)

abbrev pub start : ℕ → List ℕ → Printer
start num bf = record { num = num; zs = false; bf = bf }

-- What `tfp_printf` puts in its buffer for `%u`, `%d` and `%x` or `%X`, with fuel for its loops.
-- The first power is not 1, so the loop runs at least once.
unfoldable pub print_u : ℕ → Option (List ℕ)
print_u num = powers_loop 8 50 false 10 100000000 (start num []) >>= λ p. some p.bf

unfoldable pub print_d : ℕ → Option (List ℕ)
print_d num =
    (if leb (2 ^ 31) num
      then powers_loop 8 50 false 10 100000000 (start (2 ^ 32 - num) (45 ∷ []))
      else powers_loop 8 50 false 10 100000000 (start num []))
    >>= λ p. some p.bf

unfoldable pub print_x : Bool → ℕ → Option (List ℕ)
print_x uc num = powers_loop 7 50 uc 16 0x10000000 (start num []) >>= λ p. some p.bf
