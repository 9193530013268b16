-- ===== src/Main/Tally.antt =====
-- The counters of time against the time that has passed.
use carl9170fw.Base.{
  ℕ, ◌+◌, ◌-◌, ◌≡◌, ◌≤◌, ◌<◌, ◌^◌, refl, ◌∙◌, ap, if◌then◌else◌, List, [], ◌∷◌, length, Bool, true,
  false, ◌&&◌, u32, sub32, arith,
}
use carl9170fw.Main.{Times, tally_update, has_bit, backoff_tx_pe, backoff_cca}

-- One round of the main loop: the time, which the clock shows in 32 bits, the status of the
-- transmitter, and whether the radio is on.
pub record Round : Type 0 where
  pub now : ℕ
  pub boff : ℕ
  pub phy_on : Bool

abbrev pub run_tally : List Round → Times → Times
run_tally [] t = t
run_tally (r ∷ rs) t = run_tally rs (tally_update (u32 r.now) r.boff r.phy_on t)

-- Time goes on, by less than the clock's range from round to round.
abbrev pub Passes : ℕ → List Round → Type 0
Passes before [] = Unit
Passes before (r ∷ rs) = (before ≤ r.now) × (r.now < before + 2 ^ 32) × Passes r.now rs

-- The time up to the rounds that a test picks.
abbrev pub spent : (Round → Bool) → ℕ → List Round → ℕ
spent p before [] = 0
spent p before (r ∷ rs) = (if p r then r.now - before else 0) + spent p r.now rs

abbrev pub last_time : ℕ → List Round → ℕ
last_time before [] = before
last_time before (r ∷ rs) = last_time r.now rs

-- A count that is up to date.
pub record Counts (t t' : Times) (before : ℕ) (rs : List Round) : Type 0 where
  pub active : t'.active ≡ u32 (t.active + spent (λ r. r.phy_on) before rs)
  pub tx_time :
      t'.tx_time ≡ u32 (t.tx_time + spent (λ r. r.phy_on && has_bit r.boff backoff_tx_pe) before rs)
  pub cca : t'.cca ≡ u32 (t.cca + spent (λ r. r.phy_on && has_bit r.boff backoff_cca) before rs)
  pub clock : t'.tally_clock ≡ u32 (last_time before rs)
  pub counter : t'.counter ≡ u32 (t.counter + length rs)

-- Counters are words.
pub record IsWords (t : Times) : Type 0 where
  pub active : t.active < 2 ^ 32
  pub tx_time : t.tx_time < 2 ^ 32
  pub cca : t.cca < 2 ^ 32
  pub counter : t.counter < 2 ^ 32

-- The difference of two readings is the time between them.
difference :
    (now before clock : ℕ)
    → clock ≡ u32 before
    → before ≤ now
    → now < before + 2 ^ 32
    → sub32 (u32 now) clock ≡ now - before
difference now before clock e p q = omega arith

-- A counter after a difference.
added : Bool → Bool → ℕ → ℕ → ℕ
added on b count delta = if on then (if b then u32 (count + delta) else count) else count

-- Two differences in a row.
added-then :
    (on b : Bool) (count delta rest time : ℕ)
    → count < 2 ^ 32
    → delta ≡ time
    → u32 (added on b count delta + rest) ≡ u32 (count + ((if on && b then time else 0) + rest))
unfolding added
added-then true true count delta rest time w e = omega arith
added-then true false count delta rest time w e = omega arith
added-then false b count delta rest time w e = omega arith

added-small : (on b : Bool) (count delta : ℕ) → count < 2 ^ 32 → added on b count delta < 2 ^ 32
unfolding added
added-small on b count delta w = ground arith

and_true : (b : Bool) → (b && true) ≡ b
and_true true = refl
and_true false = refl

-- From a reading of the clock on, and while less than its range passes from one round to the next, the
-- counters grow by the time that passed: `active` by that of the rounds with the radio on, and
-- `tx_time` and `cca` by that of those in which the transmitter was busy or the channel was, all
-- modulo the range of a word, which neither the clock's own overflow changes.
pub run_tally-Counts :
    (rs : List Round) (t : Times) (before : ℕ)
    → IsWords t
    → t.tally_clock ≡ u32 before
    → Passes before rs
    → Counts t (run_tally rs t) before rs
unfolding tally_update added
run_tally-Counts [] t before w e p = record {
  active = omega (arith, w.active);
  tx_time = omega (arith, w.tx_time);
  cca = omega (arith, w.cca);
  clock = e;
  counter = omega (arith, w.counter);
}
run_tally-Counts (r ∷ rs) t before w e p =
    let delta : ℕ = sub32 (u32 r.now) t.tally_clock in
    let is : delta ≡ r.now - before = difference r.now before t.tally_clock e p.0 p.1 in
    let tx : Bool = has_bit r.boff backoff_tx_pe in
    let busy : Bool = has_bit r.boff backoff_cca in
    let next : Times = tally_update (u32 r.now) r.boff r.phy_on t in
    let words : IsWords next = record {
      active = added-small r.phy_on true t.active delta w.active;
      tx_time = added-small r.phy_on tx t.tx_time delta w.tx_time;
      cca = added-small r.phy_on busy t.cca delta w.cca;
      counter = omega arith;
    } in
    let c = run_tally-Counts rs next r.now words refl p.2 in
    record {
      active =
          c.active
          ∙ added-then r.phy_on true t.active delta _ (r.now - before) w.active is
          ∙ ap
              (λ (b : Bool).
                u32
                  (t.active + ((if b then r.now - before else 0) + spent (λ r. r.phy_on) r.now rs)))
              (and_true r.phy_on);
      tx_time = c.tx_time ∙ added-then r.phy_on tx t.tx_time delta _ (r.now - before) w.tx_time is;
      cca = c.cca ∙ added-then r.phy_on busy t.cca delta _ (r.now - before) w.cca is;
      clock = c.clock;
      counter = omega (arith, c.counter);
    }
