-- ===== src/Up/Tests.antt =====
-- The way to the host on small inputs.
use carl9170fw.Base.{ℕ, ◌≡◌, refl, List, [], ◌∷◌, true, false, some, arith, replicate}
use carl9170fw.Wol.Wake.{Wol, host_awake, Hdr}
use carl9170fw.Rx.{no_bar, rx_filter, Received, Receiver, is_bad, rx_filter_errors, rx_filter_class}
use carl9170fw.Up.{
  emptied, UpPacket, Uplink, handle_wlan_rx, rx_loop, rx_packet, handle_upload, put_status, pass_on,
}
use carl9170fw.Up.Sorting.{Sorted, handle_wlan_rx-Sorted}
use carl9170fw.Up.Upload.{Uploaded, handle_upload-Uploaded}
use carl9170fw.Up.Steps.{Reach, here, next, arrives, wlan_rx, status, started, Kept, Reach-Kept}

abbrev no_hdr : Hdr
no_hdr = record {
  is_deauth = false;
  is_disassoc = false;
  is_beacon = false;
  is_probe_req = false;
  addr3 = [];
  hdrlen = 24;
  len = 32;
  octets = λ i. 0;
}

-- A frame of data, and one that the hardware found damaged.
abbrev good : Received
good = record {
  data_len = 32;
  total_len = 64;
  mac_err = 0;
  is_data = true;
  is_ctl = false;
  frame_control = 0x08;
  bar = no_bar;
  hdr = no_hdr;
}

abbrev damaged : Received
damaged = record good { mac_err = 0x08 }

abbrev awake : Wol
awake = record {
  flags = 0;
  null_interval = 0;
  last_beacon = 0;
  lost_null = 0;
  last_null = 0;
  wake_up = false;
  mac = [];
  bssid = [];
  suspend_mode = host_awake;
  fw_desc_available = true;
  wake_signals = 0;
  null_frames = 0;
}

abbrev receiver : Receiver
receiver = record {
  bars = record { ba_cache = replicate 4 no_bar; ba_head_idx = 0; ba_tail_idx = 0; queued_ba = 0 };
  queued_bar = 0;
  wol = awake;
}

-- The filter keeps damaged frames from the host.
abbrev fresh : Uplink
fresh = started 1000 (1 ∷ 2 ∷ 3 ∷ []) good receiver 0x01

abbrev packet : List ℕ → ℕ → Received → UpPacket
packet blocks owner f = record { blocks = blocks; owner = owner; frame = f }

-- A damaged frame of two blocks, a good one of one.
abbrev two_in : Uplink
two_in = record fresh {
  rx_queue = packet (1 ∷ 2 ∷ []) 2 damaged ∷ packet (3 ∷ []) 2 good ∷ packet (4 ∷ []) 1 good ∷ [];
}

handle_wlan_rx-Sorted_example :
    (v : Uplink) × (handle_wlan_rx (λ a b. true) [] 0 0 8192 4 two_in ≡ some v)
    × Sorted (λ a b. true) [] 0 0 8192 two_in two_in.rx_queue [] v
handle_wlan_rx-Sorted_example =
    handle_wlan_rx-Sorted (λ a b. true) [] 0 0 8192 4 two_in (omega arith)

-- The host has the response and a frame, but not the next one.
abbrev got : Uplink
got = record fresh {
  up_queue = packet (1000 ∷ []) 2 good ∷ packet (3 ∷ []) 2 good ∷ packet (2 ∷ []) 1 good ∷ [];
  rx_queue = [];
  int_desc_available = false;
}

handle_upload-Uploaded_example :
    (v : Uplink) × (handle_upload 4 1000 got ≡ some v) × Uploaded 1000 got got.up_queue v
handle_upload-Uploaded_example = handle_upload-Uploaded 4 1000 got (omega arith)

-- A frame arrives and goes up, with a response behind it; the host gets the frame.
abbrev arrived_one : Uplink
arrived_one = record fresh {
  rx_queue = packet (1 ∷ 2 ∷ []) 2 good ∷ packet (3 ∷ []) 1 (emptied good) ∷ [];
}

abbrev passed_up : Uplink
passed_up =
    pass_on (packet (1 ∷ 2 ∷ []) 2 good) receiver
      (record arrived_one { rx_queue = packet (3 ∷ []) 1 (emptied good) ∷ [] })

abbrev answered : Uplink
answered = put_status passed_up

to_answered : Reach 1000 fresh answered
unfolding handle_wlan_rx rx_loop rx_packet rx_filter is_bad rx_filter_errors rx_filter_class
to_answered =
    next
      (next
        (next here (
          arrives [] (packet (1 ∷ []) 1 (emptied good) ∷ packet (2 ∷ []) 1 (emptied good) ∷ [])
            (packet (3 ∷ []) 1 (emptied good) ∷ []) 2 good refl (refl, (refl, tt)) refl))
        (wlan_rx (λ a b. true) [] 0 0 8192 4 refl))
      (status refl refl)

Reach-Kept_example : Kept 1000 (1 ∷ 2 ∷ 3 ∷ []) answered
Reach-Kept_example =
    Reach-Kept 1000 (1 ∷ 2 ∷ 3 ∷ []) good receiver 0x01 answered (omega arith) (omega arith)
      to_answered
