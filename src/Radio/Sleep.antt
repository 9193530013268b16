-- ===== src/Radio/Sleep.antt =====
-- A sleep that is ordered ends.
use carl9170fw.Base.{ℕ, zero, suc, ◌+◌, ◌≡◌, ◌<◌, refl, ◌∙◌, ap, true, false, arith}
use carl9170fw.Radio.{Radio, psm_sleep, rf_psm, run}

-- While steps are left, a call takes one.
step-left :
    (r : Radio) (n : ℕ)
    → r.psm_state ≡ suc (suc n)
    → suc (suc n) < psm_sleep
    → ((rf_psm r).psm_state ≡ suc n) × ((rf_psm r).is_on ≡ r.is_on)
unfolding rf_psm
step-left r n e p = ground arith

-- The last step wakes the radio.
step-last : (r : Radio) → r.psm_state ≡ 1 → ((rf_psm r).psm_state ≡ 0) × ((rf_psm r).is_on ≡ true)
unfolding rf_psm
step-last r e = ground arith

step-sleep :
    (r : Radio) (n : ℕ)
    → r.psm_state ≡ psm_sleep + n
    → n < psm_sleep
    → ((rf_psm r).psm_state ≡ n) × ((rf_psm r).is_on ≡ false)
unfolding rf_psm
step-sleep r n e p = ground arith

step-rest : (r : Radio) → r.psm_state ≡ 0 → rf_psm r ≡ r
unfolding rf_psm
step-rest r e = ground arith

off-while :
    (k n : ℕ) (r : Radio)
    → r.psm_state ≡ n
    → k < n
    → n < psm_sleep
    → r.is_on ≡ false
    → (run k r).is_on ≡ false
off-while zero n r e p q o = o
off-while (suc k) zero r e p q o = absurd (omega arith)
off-while (suc k) (suc zero) r e p q o = absurd (omega arith)
off-while (suc k) (suc (suc n)) r e p q o =
    let s = step-left r n e q in
    off-while k (suc n) (rf_psm r) s.0 (omega arith) (omega arith) (s.1 ∙ o)

on-after :
    (n : ℕ) (r : Radio)
    → r.psm_state ≡ suc n
    → suc n < psm_sleep
    → ((run (suc n) r).is_on ≡ true) × ((run (suc n) r).psm_state ≡ 0)
on-after zero r e q = let s = step-last r e in (s.1, s.0)
on-after (suc n) r e q = on-after n (rf_psm r) (step-left r n e q).0 (omega arith)

stays : (m : ℕ) (r : Radio) → r.psm_state ≡ 0 → run m r ≡ r
stays zero r e = refl
stays (suc m) r e =
    stays m (rf_psm r) (ap (λ (t : Radio). t.psm_state) (step-rest r e) ∙ e) ∙ step-rest r e

run-run : (k m : ℕ) (r : Radio) → run (k + m) r ≡ run m (run k r)
run-run zero m r = let e : 0 + m ≡ m = omega arith in ap (λ (i : ℕ). run i r) e
run-run (suc k) m r =
    let e : suc k + m ≡ suc (k + m) = omega arith in
    ap (λ (i : ℕ). run i r) e ∙ run-run k m (rf_psm r)

-- When the driver orders a sleep of `n` beacon intervals, at least one and below 4096, the next call
-- puts the radio off. It is off for the `n` calls from this one on, the call after them wakes it,
-- and it stays awake in all calls that follow.
pub run-sleeps :
    (n : ℕ) (r : Radio)
    → 0 < n
    → n < psm_sleep
    → r.psm_state ≡ psm_sleep + n
    → ((k : ℕ) → k < n → (run (suc k) r).is_on ≡ false)
      × ((m : ℕ) → (run (suc n + m) r).is_on ≡ true)
run-sleeps zero r p q e = absurd (omega arith)
run-sleeps (suc n) r p q e =
    let s = step-sleep r (suc n) e q in
    let woken = on-after n (rf_psm r) s.0 q in
    (
      λ k h. off-while k (suc n) (rf_psm r) s.0 h q s.1,
      λ m.
          ap (λ (t : Radio). t.is_on)
            (run-run (suc (suc n)) m r ∙ stays m (run (suc (suc n)) r) woken.1)
          ∙ woken.0,
    )

-- A sleep of no interval, which is the bit alone: the radio goes off, and no number of calls wakes
-- it.
pub run-never_wakes : (r : Radio) (k : ℕ) → r.psm_state ≡ psm_sleep → (run (suc k) r).is_on ≡ false
run-never_wakes r k e =
    let s = step-sleep r 0 e (omega arith) in
    ap (λ (t : Radio). t.is_on) (stays k (rf_psm r) s.0) ∙ s.1
