-- ===== src/Hang/Tests.antt =====
-- Two queues, one stuck.
use carl9170fw.Base.{
  ℕ, zero, suc, ◌≡◌, ◌<◌, refl, List, [], ◌∷◌, ◌==◌, if◌then◌else◌, none, some, true, false, arith,
  replicate,
}
use carl9170fw.Tx.Path.{trigger, restart}
use carl9170fw.Tx.Path.Samples.{busy, some_frame, back_req, no_reports-IsValid}
use carl9170fw.Hang.{check_queue}
use carl9170fw.Hang.Timer.{Timer, wlan_timer, follow, check_rx_overrun}
use carl9170fw.Hang.Watched.{Round, IsSilent, run_timer, run_timer-resets}
use carl9170fw.Hang.Reset.{Mac, mac_reset, reset_queue, kill_stuck, killed}
use carl9170fw.Hang.Given.{OnlyIn}
use carl9170fw.Hang.Recovery.{Recovered, mac_reset-Recovered}

-- Queue 1 shows the frame 4 in each round, of the other nothing is seen.
abbrev round : Round
round = record {
  seen = record { is_empty = true; payload = 0 } ∷ record { is_empty = false; payload = 4 } ∷ [];
  pending = none ∷ some 4 ∷ [];
  total = 5;
  overruns = 0;
  reported = 0 ∷ 0 ∷ [];
}

abbrev timer : Timer
timer = record {
  watches =
      record { last_super = 0; last_super_num = 0 }
      ∷ record { last_super = 4; last_super_num = 0 }
      ∷ [];
  rx_total = 0;
  rx_overrun = 0;
  mac_reset = 0;
  rx_triggers = 0;
  resets = 0;
}

quiet : IsSilent 1 4 round
quiet = (refl, ((λ e. omega (arith, e)), ((λ e. omega (arith, e)), tt)))

run_timer-resets_example : 0 < (run_timer (replicate 8 round) timer).resets
run_timer-resets_example =
    run_timer-resets (replicate 8 round) 1 4 timer refl
      (quiet, (quiet, (quiet, (quiet, (quiet, (quiet, (quiet, (quiet, tt)))))))) refl (omega arith)
      (omega arith)

-- Seven rounds are not enough, and the frame is forgotten in the eighth.
seven : (run_timer (replicate 7 round) timer).resets ≡ 0
unfolding wlan_timer follow check_rx_overrun check_queue
seven = refl

forgotten :
    (run_timer (replicate 8 round) timer).watches
    ≡ record { last_super = 0; last_super_num = 0 }
      ∷ record { last_super = 0; last_super_num = 0 }
      ∷ []
unfolding wlan_timer follow check_rx_overrun check_queue
forgotten = refl

-- The frame 4 is stuck in front of queue 1.
abbrev stuck_queues : ℕ → List ℕ
stuck_queues zero = []
stuck_queues (suc zero) = 4 ∷ 5 ∷ []
stuck_queues (suc (suc zero)) = 6 ∷ []
stuck_queues (suc (suc (suc q))) = []

abbrev mac : Mac
mac = record {
  sender = record busy {
    frame = λ i. record (some_frame i) { status = 1 };
    tx_queue = stuck_queues;
    last_super_num = λ q. 7;
  };
  last_super = λ q. if q == 1 then 4 else 0;
  soft_int = 0;
  rx_head = 4096;
  regs = λ a. a;
}

only_there : OnlyIn 1 4 stuck_queues
only_there zero ne = tt
only_there (suc zero) ne = absurd (ne refl)
only_there (suc (suc zero)) ne = (λ e. absurd (omega arith), tt)
only_there (suc (suc (suc j))) ne = tt

mac_reset-Recovered_example : Recovered (λ regs a. 0) back_req 1 4 (5 ∷ []) mac
mac_reset-Recovered_example =
    mac_reset-Recovered (λ regs a. 0) back_req 1 4 (5 ∷ []) mac (omega arith)
      (record { front = refl; only = only_there; not_done = refl; stuck = refl }) (omega arith)
      (λ e. absurd (omega arith)) no_reports-IsValid

-- The queue goes on behind it.
restarts :
    (mac_reset (λ regs a. 0) mac).sender.events
    ≡ trigger 0x106
      ∷ restart 0 none
      ∷ restart 1 (some 5)
      ∷ restart 2 (some 6)
      ∷ restart 3 none
      ∷ restart 4 none
      ∷ []
unfolding mac_reset reset_queue kill_stuck killed
restarts = refl
