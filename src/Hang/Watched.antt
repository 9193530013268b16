-- ===== src/Hang/Watched.antt =====
-- A queue that is stuck makes `wlan_timer` reset the MAC.
use carl9170fw.Base.{
  ℕ, suc, ◌+◌, ◌≡◌, ◌≢◌, ◌≤◌, ◌<◌, ◌^◌, refl, ◌∙◌, ap, leb, if◌then◌else◌, List, [], ◌∷◌, length,
  get_elem?, Option, some, false, arith, inl, inr, ◌⊎◌, All, subst,
}
use native.Mathlib.Decide.{dec_le}
use carl9170fw.Hang.Counted.{IsStuckFor, check_hang-Counts}
use carl9170fw.Hang.Reported.{clear_nums, get_elem?-clear_nums, length-clear_nums}
use carl9170fw.Hang.{Seen, tx_mac_reset, check_hang}
use carl9170fw.Hang.Timer.{Timer, check_rx_overrun, follow, pairs, wlan_timer, mac_reset_reset}

-- What one round finds: the queues, the packets where they would go on, and the two registers.
pub record Round : Type 0 where
  pub seen : List Seen
  pub pending : List (Option ℕ)
  pub total : ℕ
  pub overruns : ℕ
  -- the queues whose frames the hardware has reported on since the round before
  pub reported : List ℕ

abbrev pub with_reports : Round → Timer → Timer
with_reports r t = record t { watches = clear_nums r.reported t.watches }

abbrev pub run_timer : List Round → Timer → Timer
run_timer [] t = t
run_timer (r ∷ rs) t =
    run_timer rs (wlan_timer r.seen r.pending r.total r.overruns (with_reports r t))

abbrev pub Shows : ℕ → ℕ → Round → Type 0
Shows k d r = get_elem? r.seen k ≡ some (record { is_empty = false; payload = d })

-- The round shows the frame in front of the queue, and no frame of the queue was reported.
abbrev pub IsSilent : ℕ → ℕ → Round → Type 0
IsSilent k d r = Shows k d r × All (λ q. q ≢ k) r.reported

-- Either the MAC was reset since it was counted `before`, or the queue has been counted `n` times, and
-- its request is there if it has made one.
abbrev pub Progress : ℕ → ℕ → ℕ → ℕ → ℕ → Timer → Type 0
Progress before k d n queues t =
    (before < t.resets)
    ⊎ ((n < 8)
        × (before ≤ t.resets)
        × IsStuckFor k d n t.watches
        × (t.mac_reset < mac_reset_reset)
        × ((if leb tx_mac_reset n then 1 else 0) ≤ t.mac_reset)
        × (length t.watches ≤ queues))

with_reports-Progress :
    (before k d n queues : ℕ) (r : Round) (t : Timer)
    → All (λ q. q ≢ k) r.reported
    → Progress before k d n queues t
    → Progress before k d n queues (with_reports r t)
with_reports-Progress before k d n queues r t quiet (inl done) = inl done
with_reports-Progress before k d n queues r t quiet (inr (early, b, w, m, a, l)) = inr (
  early,
  b,
  get_elem?-clear_nums r.reported k t.watches quiet ∙ w,
  m,
  a,
  omega (arith, l, length-clear_nums r.reported t.watches),
)

-- The check for overruns: at most one request more, and nothing else that counts here.
overrun-adds :
    (total overruns : ℕ) (t : Timer)
    → t.mac_reset + 1 < 2 ^ 32
    → (t.mac_reset ≤ (check_rx_overrun total overruns t).mac_reset)
      × ((check_rx_overrun total overruns t).mac_reset ≤ t.mac_reset + 1)
      × ((check_rx_overrun total overruns t).watches ≡ t.watches)
      × ((check_rx_overrun total overruns t).resets ≡ t.resets)
unfolding check_rx_overrun
overrun-adds total overruns t p = (ground arith, ground arith, refl, refl)

overrun-resets :
    (total overruns : ℕ) (t : Timer) → (check_rx_overrun total overruns t).resets ≡ t.resets
unfolding check_rx_overrun
overrun-resets total overruns t = refl

-- While there are less than two requests, the seventh repetition has not been seen before.
not_yet :
    (n m cached : ℕ)
    → (if leb tx_mac_reset n then 1 else 0) ≤ cached
    → cached + (if leb tx_mac_reset (suc n) then 1 else 0) ≤ m
    → ¬ (mac_reset_reset ≤ m)
    → suc n < 8
not_yet n m cached a b q = ground (arith, q)

follow-keeps :
    (pending : List (Option ℕ)) (cached : ℕ) (t : Timer)
    → t.resets ≤ (follow pending cached t).resets
unfolding follow
follow-keeps pending cached t = ground arith

-- From two requests on, the reset is made.
follow-resets :
    (pending : List (Option ℕ)) (cached : ℕ) (t : Timer)
    → mac_reset_reset ≤ t.mac_reset
    → (follow pending cached t).resets ≡ t.resets + 1
unfolding follow
follow-resets pending cached t p = ground arith

follow-waits :
    (pending : List (Option ℕ)) (cached n : ℕ) (t : Timer)
    → t.mac_reset < mac_reset_reset
    → cached + (if leb tx_mac_reset n then 1 else 0) ≤ t.mac_reset
    → ((follow pending cached t).watches ≡ t.watches)
      × ((follow pending cached t).mac_reset < mac_reset_reset)
      × ((if leb tx_mac_reset n then 1 else 0) ≤ (follow pending cached t).mac_reset)
unfolding follow
follow-waits pending cached n t p q = (ground arith, ground arith, ground arith)

module _ (before k d queues : ℕ) (few : queues + 3 < 2 ^ 32) where
  -- What a round finds before it decides.
  record Checked (n cached : ℕ) (t : Timer) : Type 0 where
    kept : before ≤ t.resets
    again : IsStuckFor k d (suc n) t.watches
    asked : cached + (if leb tx_mac_reset (suc n) then 1 else 0) ≤ t.mac_reset
    no_more : length t.watches ≤ queues

  round-Checked :
      (n : ℕ) (r : Round) (t : Timer)
      → Shows k d r
      → suc n < 2 ^ 32
      → before ≤ t.resets
      → IsStuckFor k d n t.watches
      → t.mac_reset < mac_reset_reset
      → length t.watches ≤ queues
      → (let hang = check_hang (pairs r.seen t.watches) t.mac_reset in
          Checked n t.mac_reset (
            check_rx_overrun r.total r.overruns
              (record t { watches = hang.0; mac_reset = hang.1 })))
  round-Checked n r t s p b w m l =
      let hang = check_hang (pairs r.seen t.watches) t.mac_reset in
      let c = check_hang-Counts k d n t.mac_reset r.seen t.watches s w p (omega arith) in
      let t1 : Timer = record t { watches = hang.0; mac_reset = hang.1 } in
      let o = overrun-adds r.total r.overruns t1 (omega (arith, c.at_most)) in
      record {
        kept = omega (arith, o.3);
        again = ap (λ ws. get_elem? ws k) o.2 ∙ c.seen_again;
        asked = omega (arith, c.at_least, o.0);
        no_more =
            let e : length (check_rx_overrun r.total r.overruns t1).watches ≡ length hang.0 =
              ap (λ ws. length ws) o.2 in
            omega (arith, e, c.no_more);
      }

  round-Progress :
      (n : ℕ) (r : Round) (t : Timer)
      → Shows k d r
      → suc n < 2 ^ 32
      → Progress before k d n queues t
      → Progress before k d (suc n) queues (wlan_timer r.seen r.pending r.total r.overruns t)
  unfolding wlan_timer
  round-Progress n r t s p (inl done) =
      let hang = check_hang (pairs r.seen t.watches) t.mac_reset in
      let t1 : Timer = record t { watches = hang.0; mac_reset = hang.1 } in
      let t2 : Timer = check_rx_overrun r.total r.overruns t1 in
      let same = overrun-resets r.total r.overruns t1 in
      inl (omega (arith, same, done, follow-keeps r.pending t.mac_reset t2))
  round-Progress n r t s p (inr (early, b, w, m, a, l)) =
      let hang = check_hang (pairs r.seen t.watches) t.mac_reset in
      let t1 : Timer = record t { watches = hang.0; mac_reset = hang.1 } in
      let t2 : Timer = check_rx_overrun r.total r.overruns t1 in
      let c = round-Checked n r t s p b w m l in
      elim (dec_le mac_reset_reset t2.mac_reset) [
        | yes q ↦ inl (omega (arith, follow-resets r.pending t.mac_reset t2 q, c.kept))
        | no q ↦
            let f = follow-waits r.pending t.mac_reset (suc n) t2 (omega arith) c.asked in
            let e : length (follow r.pending t.mac_reset t2).watches ≡ length t2.watches =
              ap (λ ws. length ws) f.0 in
            inr (
              not_yet n t2.mac_reset t.mac_reset a c.asked q,
              omega (arith, follow-keeps r.pending t.mac_reset t2, c.kept),
              ap (λ ws. get_elem? ws k) f.0 ∙ c.again,
              f.1,
              f.2,
              omega (arith, e, c.no_more),
            )
      ]

  run-Progress :
      (rs : List Round) (n : ℕ) (t : Timer)
      → All (IsSilent k d) rs
      → n + length rs < 2 ^ 32
      → Progress before k d n queues t
      → Progress before k d (n + length rs) queues (run_timer rs t)
  run-Progress [] n t s p a =
      subst (λ n. Progress before k d n queues t) {x = n} {y = n + 0} (omega arith) a
  run-Progress (r ∷ rs) n t s p a =
      let between : Timer = with_reports r t in
      let next : Timer = wlan_timer r.seen r.pending r.total r.overruns between in
      subst (λ m. Progress before k d m queues (run_timer rs next)) {x = suc n + length rs}
        {y = n + suc (length rs)} (omega arith)
        (run-Progress rs (suc n) next s.1 (omega arith) (
          round-Progress n r between s.0.0 (omega arith)
            (with_reports-Progress before k d n queues r t s.0.1 a)))

-- A queue that shows the same frame in each of eight rounds of the timer, after a first time, and of
-- which the hardware reports no frame in between, makes the firmware reset the MAC within them,
-- whatever the other queues and the receiver do. At the start less than two resets are asked
-- for.
pub run_timer-resets :
    (rs : List Round) (k d : ℕ) (t : Timer)
    → length rs ≡ 8
    → All (IsSilent k d) rs
    → IsStuckFor k d 0 t.watches
    → t.mac_reset < mac_reset_reset
    → length t.watches + 3 < 2 ^ 32
    → t.resets < (run_timer rs t).resets
run_timer-resets rs k d t eight shows w m few =
    elim (run-Progress t.resets k d (length t.watches) few rs 0 t shows (omega (arith, eight))
      (inr (omega arith, omega arith, w, m, omega arith, omega arith))) [
        | inl p ↦ p
        | inr p ↦ absurd (omega (arith, p.0, eight))
      ]
