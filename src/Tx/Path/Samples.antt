-- ===== src/Tx/Path/Samples.antt =====
-- Small inputs for the tests of the transmit path.
use carl9170fw.Base.{
  ℕ, refl, [], ◌∷◌, none, Bool, true, false, ◌==◌, if◌then◌else◌, arith, replicate, bit_and,
}
use carl9170fw.Usb.{Usb, blank}
use carl9170fw.Tx.Status.{Reports, blank_status}
use carl9170fw.Tx.Status.Waiting.{IsValid}
use carl9170fw.Tx.Retry.{Super, no_rate}
use carl9170fw.Tx.Path.{TxFrame, Sender}

abbrev pub quiet : Usb
quiet = record {
  int_pending = 0;
  int_head_index = 0;
  int_tail_index = 0;
  int_buf = replicate 16 blank;
  int_desc_available = true;
  in_triggers = 0;
}

abbrev pub no_reports : Reports
no_reports = record {
  usb = quiet;
  pending = 0;
  head_idx = 0;
  tail_idx = 0;
  cache = replicate 30 blank_status;
  behind = [];
}

abbrev pub fresh : Super
fresh = record {
  rix = 0;
  cnt = 1;
  ri = record no_rate { tries = 2 } ∷ [];
  rr = [];
  phy = 0;
  erp_prot = 0;
  ampdu = false;
}

-- The frames 1, 2 and 3 are done: the first was sent, the second failed and has a try left, of the
-- third the block ack failed. Those from 7 on are for many receivers.
abbrev pub some_frame : ℕ → TxFrame
some_frame i = record {
  retry = fresh;
  len = 90;
  cookie = i;
  queue = 1;
  vif_id = 0;
  cab = if i == 7 then true else false;
  assign_seq = true;
  fill_in_tsf = false;
  ampdu_commit_density = false;
  ampdu_commit_factor = false;
  ampdu_density = 0;
  ampdu_factor = 0;
  ba_end = false;
  frame_control = 8;
  duration = 0;
  addr_words = [];
  seq_ctrl = 0;
  qos_ctl = 0;
  timestamp = (0, 0);
  ctrl = if i == 2 then 1 else (if i == 3 then 2 else 0);
  status = 0;
  data_size = 100;
  total_len = 100;
}

abbrev pub busy : Sender
busy = record {
  frame = some_frame;
  tx_queue = λ q. if q == 1 then 1 ∷ 3 ∷ 2 ∷ 4 ∷ [] else [];
  tx_retry = [];
  cab_queue = λ v. if v == 0 then 7 ∷ 8 ∷ [] else [];
  cab_queue_len = λ v. 2;
  down_queue = [];
  ampdu_prev = λ q. none;
  last_super_num = λ q. 5;
  sequence = λ v. 16;
  queued_bar = 0;
  fw_desc_available = true;
  fw_desc_data = 0;
  fw_desc_callback = false;
  called_back = [];
  reports = no_reports;
  tsf = (0, 0);
  density_reg = 0;
  factor_reg = 0;
  events = [];
}

pub no_reports-IsValid : IsValid no_reports
no_reports-IsValid = record {
  in_bounds = record { slots = refl; head_in = omega arith; pending_in = omega arith };
  tail_is = refl;
}

-- Block ack requests, by their frame control.
abbrev pub back_req : ℕ → Bool
back_req control = bit_and control 0xfc == 0x84
