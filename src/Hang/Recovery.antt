-- ===== src/Hang/Recovery.antt =====
-- The reset of the MAC and the round of the main loop after it, for a queue that is stuck.
use carl9170fw.Base.{ℕ, ◌≡◌, ◌≢◌, ◌≤◌, ◌<◌, refl, sym, ◌∙◌, ap, subst, List, Bool, true, some, All}
use carl9170fw.Tx.Status.Waiting.{IsValid}
use carl9170fw.Tx.Retry.{rate}
use carl9170fw.Tx.Path.{Sender, upd}
use carl9170fw.Tx.Path.Done.{tx_status}
use carl9170fw.Hang.Reset.{Mac, saved, reset_regs, queue_order, mac_reset}
use carl9170fw.Hang.Given.{Stuck, queues-give_up, queues-Rest}
use carl9170fw.Hang.Released.{Released, given_up-Released}

-- What the reset, with what the hardware does to its registers, leads to.
pub record Recovered (hw_reset : (ℕ → ℕ) → ℕ → ℕ) (is_back_req : ℕ → Bool) (i d : ℕ) (ds : List ℕ)
    (m : Mac) : Type 0 where
  pub restored : All (λ r. (mac_reset hw_reset m).regs r.1 ≡ m.regs r.0) saved
  pub after : Sender
  pub goes_on : tx_status is_back_req i d (mac_reset hw_reset m).sender ≡ some (true, after)
  pub released :
      Released d ds i
        (record {
          cookie = (m.sender.frame d).cookie;
          queue = (m.sender.frame d).queue;
          rix = 3;
          cnt = 7;
        })
        (mac_reset hw_reset m).sender
        after

-- The writes after the reset, one by one.
regs-restored :
    (hw_reset : (ℕ → ℕ) → ℕ → ℕ) (m : Mac)
    → All (λ r. (mac_reset hw_reset m).regs r.1 ≡ m.regs r.0) saved
unfolding mac_reset reset_regs
regs-restored hw_reset m =
    let start : ℕ × Mac = (0x100, record m { regs = reset_regs hw_reset m.regs }) in
    subst (λ (g : ℕ → ℕ). All (λ r. upd g 0x1c3d28 m.rx_head r.1 ≡ m.regs r.0) saved)
      (sym (queues-Rest queue_order start).regs)
      (refl, (refl, (refl, (refl, (refl, (refl, (refl, (refl, (refl, (refl, tt))))))))))

-- Where a frame of the host is stuck in front of its queue at the time of the reset, stands in no other
-- queue, and has no rate with more than seven tries: whatever the reset does to the registers,
-- each that is saved reads as before, also at the place where the radio's is written; and the
-- handler of completed frames then takes the frame off its queue without another try, gives it
-- back, reports it as failed, and goes on with the next one.
pub mac_reset-Recovered :
    (hw_reset : (ℕ → ℕ) → ℕ → ℕ) (is_back_req : ℕ → Bool) (i d : ℕ) (ds : List ℕ) (m : Mac)
    → i < 5
    → Stuck i d ds m
    → (rate (m.sender.frame d).retry 3).tries ≤ 7
    → d ≢ m.sender.fw_desc_data
    → IsValid m.sender.reports
    → Recovered hw_reset is_back_req i d ds m
unfolding mac_reset
mac_reset-Recovered hw_reset is_back_req i d ds m p h tries host v =
    let start : ℕ × Mac = (0x100, record m { regs = reset_regs hw_reset m.regs }) in
    let stuck : Stuck i d ds start.1 = record {
      front = h.front;
      only = h.only;
      not_done = h.not_done;
      stuck = h.stuck;
    } in
    let kept = queues-Rest queue_order start in
    let given = queues-give_up i d ds start p stuck in
    let done =
      given_up-Released is_back_req i d ds (m.sender.frame d) (mac_reset hw_reset m).sender
        (ap (λ (qs : ℕ → List ℕ). qs i) kept.queues ∙ h.front) given tries
        (subst IsValid (sym kept.reports) v) (λ e. host (e ∙ kept.own)) in
    record {
      restored = regs-restored hw_reset m;
      after = done.0;
      goes_on = done.1;
      released = done.2;
    }
