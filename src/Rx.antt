-- ===== src/Rx.antt =====
-- carlfw/src/wlanrx.c, with the part of wlantx.c that answers: the ring of block ack requests, and
-- the filter for received frames. CONFIG_CARL9170FW_BACK_REQS_NUM, the number of requests that the
-- ring holds, is 4 in carlfw/include/config.h.
pub mod Requests
pub mod Overflow
pub mod Filter
mod Tests
use carl9170fw.Base.{
  ℕ, suc, ◌+◌, ◌-◌, ◌*◌, ◌%◌, ◌==◌, ltb, if◌then◌else◌, List, [], ◌∷◌, set, get_or, take, replicate,
  u32, bit_and, bit_or, min, Bool, true, false, not, ◌&&◌, ◌||◌, Option, none, some,
}
use carl9170fw.Wol.Wake.{Wol, Hdr, has, is_suspended, wol_rx}

-- CONFIG_CARL9170FW_BACK_REQS_NUM
abbrev pub back_reqs_num : ℕ
back_reqs_num = 4

-- `struct carl9170_bar_ctx`
pub record BarCtx : Type 0 where
  pub ta : List ℕ
  pub ra : List ℕ
  pub start_seq_num : ℕ
  pub control : ℕ

abbrev pub no_bar : BarCtx
no_bar = record { ta = []; ra = []; start_seq_num = 0; control = 0 }

-- The part of `fw.wlan` for block acks.
pub record Bars : Type 0 where
  pub ba_cache : List BarCtx
  pub ba_head_idx : ℕ
  pub ba_tail_idx : ℕ
  pub queued_ba : ℕ

-- `wlan_get_bar_cache_buffer`: the index of the slot that the caller fills, and the state.
pub get_bar_cache_buffer : Bars → ℕ × Bars
get_bar_cache_buffer b = (
  b.ba_tail_idx,
  record b {
    ba_tail_idx = u32 (b.ba_tail_idx + 1) % back_reqs_num;
    queued_ba = if ltb b.queued_ba back_reqs_num then b.queued_ba + 1 else b.queued_ba;
  },
)

-- `handle_bar`, on the request's fields, its length and the error bits.
pub handle_bar : BarCtx → ℕ → ℕ → Bars → Bars
handle_bar bar len mac_err b =
    if not (mac_err == 0)
    then b
    else (if ltb len (20 + 4)
        then b
        else (if not (bit_and bar.control 0x0002 == 0) || bit_and bar.control 0x0004 == 0
            then b
            else (let (i, b') = get_bar_cache_buffer b in
                record b' { ba_cache = set b'.ba_cache i bar })))

-- The start of `wlan_send_buffered_ba`: the request that is answered, if the descriptor is
-- available, and the state.
pub next_ba : Bool → Bars → Option BarCtx × Bars
next_ba fw_desc_available b =
    if b.queued_ba == 0
    then (none, b)
    else (if not fw_desc_available then (none, b) else (
      some (get_or b.ba_cache b.ba_head_idx no_bar),
      record b {
        ba_head_idx = u32 (b.ba_head_idx + 1) % back_reqs_num;
        queued_ba = b.queued_ba - 1;
      },
    ))

-- The answer: `struct ieee80211_ba`, its frame control and duration aside.
pub record BlockAck : Type 0 where
  pub ra : List ℕ
  pub ta : List ℕ
  pub control : ℕ
  pub start_seq_num : ℕ
  pub bitmap : List ℕ

-- What `wlan_send_buffered_ba` writes of it.
pub block_ack : BarCtx → BlockAck
block_ack ctx = record {
  ra = take 6 ctx.ta;
  ta = take 6 ctx.ra;
  control = bit_or ctx.control 1;
  start_seq_num = ctx.start_seq_num;
  bitmap = replicate 8 0;
}

-- What `wlan_rx_filter` reads of a received frame: the length of the MPDU, the length of all
-- descriptors, the error bits, the frame control's tests and bits, and the fields of a request.
pub record Received : Type 0 where
  pub data_len : ℕ
  pub total_len : ℕ
  pub mac_err : ℕ
  pub is_data : Bool
  pub is_ctl : Bool
  pub frame_control : ℕ
  pub bar : BarCtx
  pub hdr : Hdr

-- The state that `wlan_rx_filter` works on.
pub record Receiver : Type 0 where
  pub bars : Bars
  pub queued_bar : ℕ
  pub wol : Wol

-- The switch on the frame control's subtype: the filter bit, which is 0 for a block ack that the
-- application may wait for.
pub rx_filter_ctl : ℕ → ℕ → ℕ
rx_filter_ctl stype queued_bar =
    if stype == 0x80
    then 0x20
    else (if stype == 0xa0
        then 0x10
        else (if stype == 0x90 && not (queued_bar == 0) then 0 else 0x08))

-- The class of a frame: CARL9170_RX_FILTER_DATA, a control frame's, or _MGMT.
unfoldable pub rx_filter_class : Received → ℕ → ℕ
rx_filter_class r queued_bar =
    if r.is_data
    then 0x80
    else (if r.is_ctl then rx_filter_ctl (bit_and r.frame_control 0xf0) queued_bar else 0x40)

-- CARL9170_RX_FILTER_OTHER_RA and _DECRY_FAIL for AR9170_RX_ERROR_WRONG_RA and _DECRYPT
unfoldable pub rx_filter_errors : ℕ → ℕ
rx_filter_errors mac_err =
    bit_or (if has mac_err 0x10 then 0x02 else 0) (if has mac_err 0x04 then 0x04 else 0)

-- What makes a frame too damaged: its length, with AR9170_RX_ERROR_FCS and _PLCP. The longest frame is
-- CONFIG_CARL9170FW_RX_FRAME_LEN.
unfoldable pub is_bad : ℕ → Received → Bool
is_bad rx_frame_len r =
    ltb r.data_len (4 + 6 + 4) || ltb rx_frame_len r.total_len || has r.mac_err 0x28

-- `wlan_rx_filter` after its first test, with the two parts of the filter bits.
abbrev pub rx_accept : (ℕ → Hdr → Wol → Wol) → ℕ → Received → Receiver → ℕ × Receiver
rx_accept wake bits r s =
    let requests : Bars =
      if not r.is_data && (r.is_ctl && (bit_and r.frame_control 0xf0 == 0x80))
      then handle_bar r.bar r.data_len r.mac_err s.bars
      else s.bars in
    let s1 : Receiver = record s { bars = requests } in
    (
      bits,
      if is_suspended s1.wol.suspend_mode
          then record s1 { wol = wake bits (record r.hdr { len = min r.data_len 320 }) s1.wol }
          else s1,
    )

-- `wlan_rx_filter`: the filter bits and the state. `wol_rx`, with what it needs of the build and the
-- clock, is called for a suspended host, and sees one block of the frame at most.
unfoldable pub rx_filter :
    (List ℕ → List ℕ → Bool) → List ℕ → ℕ → ℕ → ℕ → Received → Receiver → ℕ × Receiver
rx_filter same_address ssid ssid_len now rx_frame_len r s =
    if is_bad rx_frame_len r
    then (0x01, s)
    else rx_accept (wol_rx same_address ssid ssid_len now)
        (bit_or (rx_filter_errors r.mac_err) (rx_filter_class r s.queued_bar)) r s
