-- ===== src/Tx/Tests.antt =====
-- The transmit path on small inputs.
use carl9170fw.Base.{ℕ, zero, suc, ◌≡◌, ◌<◌, refl, [], ◌∷◌, some, arith, replicate, true, false}
use carl9170fw.Usb.{Usb, blank}
use carl9170fw.Tx.Status.{
  Reports, Attempt, blank_status, send_buffered_tx_status, tx_complete, report,
}
use carl9170fw.Tx.Status.Waiting.{IsValid, waiting}
use carl9170fw.Usb.Fifo
use carl9170fw.Tx.Status.Delivered.{Told, send_buffered_tx_status-delivers}
use carl9170fw.Tx.Status.Report.{Filed, tx_complete-Filed}
use carl9170fw.Tx.Retry.{Super, no_rate, rate}
use carl9170fw.Tx.Retry.Attempts.{transmissions, transmissions-left}

abbrev quiet : Usb
quiet = record {
  int_pending = 0;
  int_head_index = 0;
  int_tail_index = 0;
  int_buf = replicate 16 blank;
  int_desc_available = true;
  in_triggers = 0;
}

-- A full cache whose reports go round its end.
abbrev full : Reports
full = record {
  usb = quiet;
  pending = 30;
  head_idx = 28;
  tail_idx = 28;
  cache = replicate 30 (record blank_status { cookie = 7 });
  behind = 0 ∷ 0 ∷ [];
}

full-IsValid : IsValid full
full-IsValid = record {
  in_bounds = record { slots = refl; head_in = omega arith; pending_in = omega arith };
  tail_is = refl;
}

abbrev failed : Attempt
failed = record { cookie = 9; queue = 2; rix = 1; cnt = 3 }

tx_complete-Filed_example :
    (s' : Reports) × (tx_complete 3 failed false full ≡ some (record failed { cookie = 0 }, s'))
    × Filed full s' (report failed false)
tx_complete-Filed_example = tx_complete-Filed full failed false 0 full-IsValid

quiet-IsValid : Fifo.IsValid quiet
quiet-IsValid = omega arith

quiet-IsSized : Fifo.IsSized quiet
quiet-IsSized = (
  refl,
  (
    refl,
    (
      refl,
      (
        refl,
        (
          refl,
          (
            refl,
            (refl, (refl, (refl, (refl, (refl, (refl, (refl, (refl, (refl, (refl, tt)))))))))),
          ),
        ),
      ),
    ),
  ),
)

send_buffered_tx_status-delivers_example :
    (s' : Reports) × (send_buffered_tx_status 3 full ≡ some s')
    × (s'.pending ≡ 0)
    × IsValid s'
    × Told (waiting full) quiet s'.usb
send_buffered_tx_status-delivers_example =
    send_buffered_tx_status-delivers full 0 full-IsValid (omega arith) quiet-IsValid quiet-IsSized
      (omega arith)

-- Two tries at the first rate, at the second none, which still means one, and no third rate.
abbrev frame : Super
frame = record {
  rix = 0;
  cnt = 1;
  ri = record no_rate { tries = 2 } ∷ no_rate ∷ record no_rate { tries = 5 } ∷ no_rate ∷ [];
  rr = 11 ∷ 0 ∷ 33 ∷ [];
  phy = 10;
  erp_prot = 0;
  ampdu = false;
}

tries_in : (i : ℕ) → (rate frame i).tries < 8
tries_in zero = omega arith
tries_in (suc zero) = omega arith
tries_in (suc (suc zero)) = omega arith
tries_in (suc (suc (suc zero))) = omega arith
tries_in (suc (suc (suc (suc i)))) = omega arith

transmissions-left_example : transmissions 5 frame ≡ some 3
transmissions-left_example = transmissions-left 5 3 frame tries_in refl (omega arith)
