-- ===== src/Rx/Tests.antt =====
-- The receive path on small inputs.
use carl9170fw.Base.{ℕ, ◌≡◌, refl, [], ◌∷◌, true, false, some, arith}
use carl9170fw.Wol.Wake.{Wol, host_awake}
use carl9170fw.Rx.{BarCtx, Bars, no_bar, handle_bar, next_ba, rx_filter, Received, Receiver}
use carl9170fw.Rx.Requests.{IsValid, Taken, handle_bar-Taken, next_ba-oldest, requests}
use carl9170fw.Rx.Overflow.{handle_bar-stale}
use carl9170fw.Rx.Filter.{Classified, rx_filter-Classified}

abbrev request : ℕ → BarCtx
request n = record { ta = []; ra = []; start_seq_num = n; control = 4 }

-- Two requests that go round the end.
abbrev ring : Bars
ring = record {
  ba_cache = request 8 ∷ request 5 ∷ request 6 ∷ request 7 ∷ [];
  ba_head_idx = 3;
  ba_tail_idx = 1;
  queued_ba = 2;
}

ring-IsValid : IsValid ring
ring-IsValid = record {
  slots = refl;
  head_in = omega arith;
  queued_in = omega arith;
  tail_is = refl;
}

handle_bar-Taken_example : Taken (request 9) 24 0 ring (handle_bar (request 9) 24 0 ring)
handle_bar-Taken_example = handle_bar-Taken (request 9) 24 0 ring ring-IsValid (omega arith)

next_ba-oldest_example :
    (b' : Bars) × (next_ba true ring ≡ (some (request 7), b'))
    × (requests b' ≡ request 8 ∷ [])
    × IsValid b'
next_ba-oldest_example = next_ba-oldest ring (request 7) (request 8 ∷ []) ring-IsValid refl

abbrev full : Bars
full = record ring { ba_tail_idx = 3; queued_ba = 4 }

-- The full ring after one more request, and answers to all.
abbrev drained : Bars
drained = record ring {
  ba_cache = request 8 ∷ request 5 ∷ request 6 ∷ request 9 ∷ [];
  ba_tail_idx = 0;
  queued_ba = 0;
}

handle_bar-stale_example :
    (next_ba true (handle_bar (request 10) 24 0 drained)).0 ≡ some (request 9)
handle_bar-stale_example =
    handle_bar-stale (request 10) 24 0 drained
      (record { head_in = omega arith; tail_in = omega arith; queued_in = omega arith }) refl
      (λ e. absurd (omega arith)) refl

abbrev awake : Wol
awake = record {
  flags = 0;
  null_interval = 0;
  last_beacon = 0;
  lost_null = 0;
  last_null = 0;
  wake_up = false;
  mac = [];
  bssid = [];
  suspend_mode = host_awake;
  fw_desc_available = true;
  wake_signals = 0;
  null_frames = 0;
}

-- A block ack that the application waits for.
abbrev block_ack_frame : Received
block_ack_frame = record {
  data_len = 32;
  total_len = 64;
  mac_err = 0;
  is_data = false;
  is_ctl = true;
  frame_control = 0x94;
  bar = no_bar;
  hdr = record {
    is_deauth = false;
    is_disassoc = false;
    is_beacon = false;
    is_probe_req = false;
    addr3 = [];
    hdrlen = 16;
    len = 32;
    octets = λ i. 0;
  };
}

abbrev receiver : Receiver
receiver = record { bars = ring; queued_bar = 1; wol = awake }

rx_filter-Classified_example :
    Classified
      (rx_filter (λ a b. true) [] 0 0 8192 block_ack_frame receiver).0
      8192
      block_ack_frame
      1
rx_filter-Classified_example =
    rx_filter-Classified (λ a b. true) [] 0 0 8192 block_ack_frame receiver
