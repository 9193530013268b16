-- ===== src/Tx/Retry/Attempts.antt =====
-- How often a frame that always fails is sent.
use carl9170fw.Base.{
  ℕ, zero, suc, ◌+◌, ◌-◌, ◌==◌, ◌≤◌, ◌<◌, ◌≡◌, ◌≢◌, refl, ◌∙◌, ap, leb, if◌then◌else◌, List, get_or,
  u8, Bool, true, false, max, Option, none, some, ◌>>=◌, arith,
}
use native.Mathlib.Decide.{dec_le}
use carl9170fw.Tx.Retry.{
  RateInfo, no_rate, Super, rate, retry_rate, max_retry_rates, tx_consume_retry,
}

-- Send, fail, ask for a retry, until there is none.
pub transmissions : ℕ → Super → Option ℕ
transmissions zero s = none
transmissions (suc fuel) s =
    let r = tx_consume_retry s in
    let rest = transmissions fuel r.1 in if r.0 then (rest >>= λ n. some (suc n)) else some 1

-- The tries at the rates behind the rate `i`, of which `n` can be used: one at least at each rate
-- that the chain of alternatives reaches.
abbrev pub later : List RateInfo → List ℕ → ℕ → ℕ → ℕ
later ri rr zero i = 0
later ri rr (suc n) i =
    let rest = later ri rr n (suc i) in
    if get_or rr i 0 == 0 then 0 else max 1 (get_or ri (suc i) no_rate).tries + rest

-- The tries left with the current rate, and the later ones.
abbrev pub left : ℕ → Super → ℕ
left n s = suc ((rate s s.rix).tries - s.cnt) + later s.ri s.rr n s.rix

-- The two ways to go on: the next rate, and the current one again.
abbrev change : Super → ℕ → Super
change s i = record s {
  phy = retry_rate s s.rix;
  rix = i;
  erp_prot = (rate s i).erp_prot;
  ampdu = (rate s i).ampdu;
  cnt = 1;
}

abbrev again : Super → ℕ → Super
again s c = record s { cnt = c }

abbrev go_on : Super → Bool × Super
go_on s = (true, s)

consume-again :
    (s : Super)
    → s.cnt < (rate s s.rix).tries
    → (rate s s.rix).tries < 8
    → tx_consume_retry s ≡ go_on (again s (suc s.cnt))
unfolding tx_consume_retry
consume-again s p q =
    let b : leb (rate s s.rix).tries s.cnt ≡ false = ground arith in
    let e : u8 (s.cnt + 1) ≡ suc s.cnt = omega arith in rw b (ap (λ (c : ℕ). go_on (again s c)) e)

consume-change :
    (s : Super)
    → (rate s s.rix).tries ≤ s.cnt
    → s.rix < max_retry_rates
    → retry_rate s s.rix ≢ 0
    → tx_consume_retry s ≡ go_on (change s (suc s.rix))
unfolding tx_consume_retry
consume-change s p q r =
    let b : leb (rate s s.rix).tries s.cnt ≡ true = ground arith in
    let c : (s.rix == max_retry_rates) ≡ false = ground arith in
    let d : (retry_rate s s.rix == 0) ≡ false = ground arith in
    let e : u8 (s.rix + 1) ≡ suc s.rix = omega arith in
    rw b (rw c (rw d (ap (λ (i : ℕ). go_on (change s i)) e)))

consume-last :
    (s : Super)
    → (rate s s.rix).tries ≤ s.cnt
    → s.rix ≡ max_retry_rates
    → tx_consume_retry s ≡ (false, s)
unfolding tx_consume_retry
consume-last s p q =
    let b : leb (rate s s.rix).tries s.cnt ≡ true = ground arith in
    let c : (s.rix == max_retry_rates) ≡ true = ground arith in rw b (rw c refl)

consume-none :
    (s : Super)
    → (rate s s.rix).tries ≤ s.cnt
    → s.rix < max_retry_rates
    → retry_rate s s.rix ≡ 0
    → tx_consume_retry s ≡ (false, s)
unfolding tx_consume_retry
consume-none s p q r =
    let b : leb (rate s s.rix).tries s.cnt ≡ true = ground arith in
    let c : (s.rix == max_retry_rates) ≡ false = ground arith in
    let d : (retry_rate s s.rix == 0) ≡ true = ground arith in rw b (rw c (rw d refl))

abbrev after : ℕ → Bool × Super → Option ℕ
after fuel r = if r.0 then (transmissions fuel r.1 >>= λ n. some (suc n)) else some 1

transmissions-after :
    (fuel : ℕ) (s : Super) (r : Bool × Super)
    → tx_consume_retry s ≡ r
    → transmissions (suc fuel) s ≡ after fuel r
unfolding transmissions
transmissions-after fuel s r e = ap (after fuel) e

one_more : (o : Option ℕ) (n : ℕ) → o ≡ some n → (o >>= λ k. some (suc k)) ≡ some (suc n)
one_more o n e = ap (λ o. o >>= λ k. some (suc k)) e

left-again :
    (fuel n : ℕ) (s : Super)
    → ((i : ℕ) → (rate s i).tries < 8)
    → (left n (again s (suc s.cnt)) ≤ fuel
        → transmissions fuel (again s (suc s.cnt)) ≡ some (left n (again s (suc s.cnt))))
    → s.cnt < (rate s s.rix).tries
    → left n s ≤ suc fuel
    → transmissions (suc fuel) s ≡ some (left n s)
left-again fuel n s t rec q p =
    let fewer : left n (again s (suc s.cnt))
        ≡ suc ((rate s s.rix).tries - suc s.cnt) + later s.ri s.rr n s.rix =
      refl in
    transmissions-after fuel s _ (consume-again s q (t s.rix))
    ∙ one_more _ (left n (again s (suc s.cnt))) (rec (omega arith))
    ∙ ap some (omega arith)

left-change :
    (fuel n : ℕ) (s : Super)
    → ((m : ℕ)
        → suc s.rix + m ≡ max_retry_rates
        → left m (change s (suc s.rix)) ≤ fuel
        → transmissions fuel (change s (suc s.rix)) ≡ some (left m (change s (suc s.rix))))
    → (rate s s.rix).tries ≤ s.cnt
    → s.rix + n ≡ max_retry_rates
    → left n s ≤ suc fuel
    → transmissions (suc fuel) s ≡ some (left n s)
left-change fuel zero s rec q e p =
    transmissions-after fuel s _ (consume-last s q (omega arith)) ∙ ap some (omega arith)
left-change fuel (suc n) s rec q e p = elim (dec_le (retry_rate s s.rix) 0) [
  | yes z ↦
      let b : (retry_rate s s.rix == 0) ≡ true = ground arith in
      transmissions-after fuel s _ (consume-none s q (omega arith) (omega arith))
      ∙ ap some (rw b (omega arith))
  | no z ↦
      let b : (retry_rate s s.rix == 0) ≡ false = ground arith in
      let first : left n (change s (suc s.rix))
          ≡ suc ((rate s (suc s.rix)).tries - 1) + later s.ri s.rr n (suc s.rix) =
        refl in
      let same : left (suc n) s
          ≡ suc ((rate s s.rix).tries - s.cnt)
            + (max 1 (rate s (suc s.rix)).tries + later s.ri s.rr n (suc s.rix)) =
        rw b refl in
      transmissions-after fuel s _ (consume-change s q (omega arith) (omega arith))
      ∙ one_more _ (left n (change s (suc s.rix))) (rec n (omega arith) (omega arith))
      ∙ ap some (omega arith)
]

-- A frame whose every transmission fails is sent again as often as the tries left with its rate and
-- with the alternatives that can still be reached, at least once with each of these, and no further
-- time: with that much fuel the retries end. The try counts are fields of three bits.
pub transmissions-left :
    (fuel n : ℕ) (s : Super)
    → ((i : ℕ) → (rate s i).tries < 8)
    → s.rix + n ≡ max_retry_rates
    → left n s ≤ fuel
    → transmissions fuel s ≡ some (left n s)
transmissions-left zero n s t e p = absurd (omega arith)
transmissions-left (suc fuel) n s t e p = elim (dec_le (rate s s.rix).tries s.cnt) [
  | no q ↦
      left-again fuel n s t (transmissions-left fuel n (again s (suc s.cnt)) t e) (omega arith) p
  | yes q ↦ left-change fuel n s (λ m. transmissions-left fuel m (change s (suc s.rix)) t) q e p
]
