-- ===== src/Print/Digits.antt =====
-- The digits that are printed are those of the number.
use carl9170fw.Base.{
  ℕ, zero, suc, ◌+◌, ◌*◌, ◌/◌, ◌^◌, ◌==◌, ◌≡◌, ◌≤◌, ◌<◌, refl, sym, ◌∙◌, ap, subst, ==-ne, ltb,
  if◌then◌else◌, List, [], ◌∷◌, ◌++◌, Bool, false, ◌||◌, Option, some, ◌>>=◌, arith, Bool-cases,
  inl, inr,
}
use native.Mathlib.Nat.{div_self, mul-div_cancel_left}
use carl9170fw.Print.{
  Printer, digit, out_dgt, div_loop, div_out, powers_loop, start, print_u, print_x,
}
use carl9170fw.Print.Reading.{
  read_on, undigit-digit, read_on-append, div_loop-counts, identity, quotient,
}

-- What has been written so far, read as digits above the power `i`, and the rest make up the
-- number. As long as nothing but zeros has come up, nothing is written.
record Written (uc : Bool) (base i total : ℕ) (p : Printer) : Type 0 where
  sums : read_on uc base 0 p.bf * i + p.num ≡ total
  rest_in : p.num < i
  fresh : p.zs ≡ false → p.bf ≡ []

abbrev noted : Bool → Printer → ℕ → ℕ → Printer
noted uc p r q =
    if p.zs || ltb 0 q then out_dgt uc q (record p { num = r }) else record p { num = r }

-- A digit that is written, and a zero that is not.
digit-Written :
    (uc : Bool) (base i total q r : ℕ) (p : Printer)
    → q < 36
    → r < i
    → read_on uc base 0 p.bf * (base * i) + (q * i + r) ≡ total
    → Written uc base i total (out_dgt uc q (record p { num = r }))
unfolding out_dgt
digit-Written uc base i total q r p qb ri e =
    let read : read_on uc base 0 (p.bf ++ digit uc q ∷ []) ≡ read_on uc base 0 p.bf * base + q =
      read_on-append uc base 0 p.bf (digit uc q)
      ∙ ap (λ (n : ℕ). read_on uc base 0 p.bf * base + n) (undigit-digit uc q qb) in
    record {
      sums =
          ap (λ (v : ℕ). v * i + r) read ∙ sym (identity (read_on uc base 0 p.bf) base i q r) ∙ e;
      rest_in = ri;
      fresh = λ f. ground arith;
    }

skip-Written :
    (uc : Bool) (base i total r : ℕ) (p : Printer)
    → r < i
    → p.zs ≡ false
    → (p.zs ≡ false → p.bf ≡ [])
    → read_on uc base 0 p.bf * (base * i) + r ≡ total
    → Written uc base i total (record p { num = r })
skip-Written uc base i total r p ri z f e =
    let nothing : read_on uc base 0 p.bf ≡ 0 = ap (read_on uc base 0) (f z) in
    record {
      sums =
          ap (λ (v : ℕ). v * i + r) nothing
          ∙ none_at (base * i)
          ∙ sym (ap (λ (v : ℕ). v * (base * i) + r) nothing)
          ∙ e;
      rest_in = ri;
      fresh = f;
    }
  where
    none_at : (j : ℕ) → 0 * i + r ≡ 0 * j + r
    none_at j = omega arith

noted-Written :
    (uc : Bool) (base i total q r : ℕ) (p : Printer)
    → q < 36
    → r < i
    → (p.zs ≡ false → p.bf ≡ [])
    → read_on uc base 0 p.bf * (base * i) + (q * i + r) ≡ total
    → Written uc base i total (noted uc p r q)
noted-Written uc base i total q r p qb ri f e = elim (Bool-cases (p.zs || ltb 0 q)) [
  | inl t ↦ rw t (digit-Written uc base i total q r p qb ri e)
  | inr t ↦
      let zs : p.zs ≡ false = ground arith in
      let zero : q ≡ 0 = ground arith in
      let e1 : read_on uc base 0 p.bf * (base * i) + (0 * i + r) ≡ total =
        ap (λ (n : ℕ). read_on uc base 0 p.bf * (base * i) + (n * i + r)) (sym zero) ∙ e in
      let e0 : read_on uc base 0 p.bf * (base * i) + r ≡ total = omega arith in
      rw t (skip-Written uc base i total r p ri zs f e0)
]

Written-step :
    (fuel : ℕ) (uc : Bool) (base i total : ℕ) (p : Printer)
    → base ≤ 36
    → base < fuel
    → Written uc base (base * i) total p
    → (p' : Printer) × (div_out fuel uc i p ≡ some p') × Written uc base i total p'
unfolding div_out
Written-step fuel uc base i total p bs fl w =
    let (q, r, qb, ri, e) = quotient base i p.num w.rest_in in
    let div : div_loop fuel i p.num 0 ≡ some (r, 0 + q) =
      div_loop-counts q fuel i r p.num 0 ri e (omega arith) (omega arith) in
    let sums : read_on uc base 0 p.bf * (base * i) + (q * i + r) ≡ total =
      ap (λ (n : ℕ). read_on uc base 0 p.bf * (base * i) + n) (sym e) ∙ w.sums in
    (
      noted uc p r (0 + q),
      ap (λ (o : Option (ℕ × ℕ)). o >>= λ r. some (noted uc p r.0 r.1)) div,
      noted-Written uc base i total (0 + q) r p (omega arith) ri w.fresh (
          ap (λ (n : ℕ). read_on uc base 0 p.bf * (base * i) + (n * i + r)) {x = 0 + q} {y = q}
            (omega arith)
          ∙ sums),
    )

-- The power `base ^ suc k`, and what the loop leaves from there on.
abbrev power : ℕ → ℕ → ℕ
power base zero = base
power base (suc k) = base * power base k

record Printed (uc : Bool) (base total : ℕ) (o : Option Printer) : Type 0 where
  written : (p : Printer) × (o ≡ some p) × (read_on uc base 0 p.bf ≡ total)

power-big : (base k : ℕ) → 2 ≤ base → 2 ≤ power base k
power-big base zero p = p
power-big base (suc k) p = let h : 2 ≤ power base k = power-big base k p in grind arith

last-Printed :
    (uc : Bool) (base total : ℕ) (p : Printer)
    → base ≤ 36
    → Written uc base base total p
    → Printed uc base total (some (out_dgt uc p.num p))
unfolding out_dgt
last-Printed uc base total p bs w = record {
  written = (
    out_dgt uc p.num p,
    refl,
    read_on-append uc base 0 p.bf (digit uc p.num)
        ∙ ap (λ (n : ℕ). read_on uc base 0 p.bf * base + n)
            (undigit-digit uc p.num (omega (arith, w.rest_in)))
        ∙ w.sums,
  );
}

abbrev and_on : ℕ → ℕ → Bool → ℕ → ℕ → Printer → Option Printer
and_on rounds fuel uc base j q =
    if j == 1 then some (out_dgt uc q.num q) else powers_loop rounds fuel uc base j q

powers_loop-Printed :
    (k rounds fuel : ℕ) (uc : Bool) (base total : ℕ) (p : Printer)
    → 2 ≤ base
    → base ≤ 36
    → base < fuel
    → k < rounds
    → Written uc base (base * power base k) total p
    → Printed uc base total (powers_loop rounds fuel uc base (power base k) p)
powers_loop-Printed k zero fuel uc base total p b2 bs fl kr w = absurd (omega arith)
powers_loop-Printed zero (suc rounds) fuel uc base total p b2 bs fl kr w =
    let (p', e, w') = Written-step fuel uc base base total p bs fl w in
    let one : base / base ≡ 1 = div_self (omega arith) in
    subst (Printed uc base total)
      (sym (
        ap (λ o. o >>= and_on rounds fuel uc base (base / base)) e
        ∙ ap (λ (j : ℕ). and_on rounds fuel uc base j p') one))
      (last-Printed uc base total p' bs w')
powers_loop-Printed (suc k) (suc rounds) fuel uc base total p b2 bs fl kr w =
    let (p', e, w') = Written-step fuel uc base (base * power base k) total p bs fl w in
    let less : base * power base k / base ≡ power base k =
      mul-div_cancel_left (power base k) (omega arith) in
    let more : (power base k == 1) ≡ false =
      ==-ne (power base k) 1 (omega (arith, power-big base k b2)) in
    subst (Printed uc base total)
      (sym (
        ap (λ o. o >>= and_on rounds fuel uc base (base * power base k / base)) e
        ∙ ap (λ (j : ℕ). and_on rounds fuel uc base j p') less
        ∙ ap
            (λ b.
              if b
              then some (out_dgt uc p'.num p')
              else powers_loop rounds fuel uc base (power base k) p')
            more))
      (powers_loop-Printed k rounds fuel uc base total p' b2 bs fl (omega arith) w')

fresh-Written : (uc : Bool) (base i num : ℕ) → num < i → Written uc base i num (start num [])
fresh-Written uc base i num p = record { sums = omega arith; rest_in = p; fresh = λ e. refl }

buffer_of :
    (uc : Bool) (base num : ℕ) (o : Option Printer)
    → Printed uc base num o
    → (cs : List ℕ) × ((o >>= λ p. some p.bf) ≡ some cs) × (read_on uc base 0 cs ≡ num)
buffer_of uc base num o w = let (p, e, v) = w.written in (p.bf, ap (λ o. o >>= λ p. some p.bf) e, v)

-- Below 1,000,000,000, `%u` prints: the digits read back as the number.
pub print_u-digits :
    (num : ℕ)
    → num < 1000000000
    → (cs : List ℕ) × (print_u num ≡ some cs) × (read_on false 10 0 cs ≡ num)
unfolding print_u
print_u-digits num p = buffer_of false 10 num _ (
    powers_loop-Printed 7 8 50 false 10 num (start num []) (omega arith) (omega arith) (omega arith)
      (omega arith) (fresh-Written false 10 1000000000 num p))

-- `%x` and `%X` print every word of 32 bits: the digits read back as the number.
pub print_x-digits :
    (uc : Bool) (num : ℕ)
    → num < 2 ^ 32
    → (cs : List ℕ) × (print_x uc num ≡ some cs) × (read_on uc 16 0 cs ≡ num)
unfolding print_x
print_x-digits uc num p = buffer_of uc 16 num _ (
    powers_loop-Printed 6 7 50 uc 16 num (start num []) (omega arith) (omega arith) (omega arith)
      (omega arith) (fresh-Written uc 16 0x100000000 num p))
