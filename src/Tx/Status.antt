-- ===== src/Tx/Status.antt =====
-- The cache of transmit reports for the host: `wlan_tx_complete`, `wlan_get_tx_status_buffer` and
-- `wlan_send_buffered_tx_status`.
pub mod Waiting
pub mod Flush
pub mod Report
pub mod Delivered
use carl9170fw.Base.{
  ℕ, zero, suc, ◌+◌, ◌-◌, ◌*◌, ◌/◌, ◌%◌, ◌==◌, if◌then◌else◌, List, [], ◌∷◌, ◌++◌, Option, none,
  some, ◌>>=◌, min, drop, set, get_or, u8, u32, sub32, Bool, true, false, replicate,
}
use carl9170fw.Usb.{Usb, send_cmd_to_host}

-- `struct carl9170_tx_status`
pub record TxStatus : Type 0 where
  pub cookie : ℕ
  pub queue : ℕ
  pub rix : ℕ
  pub tries : ℕ
  pub success : ℕ

abbrev pub blank_status : TxStatus
blank_status = record { cookie = 0; queue = 0; rix = 0; tries = 0; success = 0 }

-- Its two bytes: the cookie, and the bit fields of 2, 2, 3 and 1 bits from the lowest on.
abbrev pub status_bytes : List TxStatus → List ℕ
status_bytes [] = []
status_bytes (s ∷ ss) =
    s.cookie ∷ (s.queue + s.rix * 4 + s.tries * 16 + s.success * 128) ∷ status_bytes ss

-- CARL9170_TX_STATUS_NUM, the size of the cache, which is CARL9170_RSP_TX_STATUS_NUM, the number
-- of reports that fit a message.
abbrev pub tx_status_num : ℕ
tx_status_num = 60 / 2

-- CARL9170_RSP_TXCOMP
abbrev pub rsp_txcomp : ℕ
rsp_txcomp = 0xc1

-- The part of `fw.wlan` that keeps reports, with the message ring that they go to.
pub record Reports : Type 0 where
  pub usb : Usb
  pub pending : ℕ
  pub head_idx : ℕ
  pub tail_idx : ℕ
  pub cache : List TxStatus
  -- the bytes in memory behind the cache
  pub behind : List ℕ

-- What a message about `len` reports from index `h` on is copied from.
abbrev pub spliced : Reports → ℕ → List ℕ
spliced s h = drop (2 * h) (status_bytes s.cache ++ s.behind)

-- One round of the loop of `wlan_send_buffered_tx_status`: a run of reports that does not go round
-- the end of the cache. `& ~3` clears the two low bits.
pub send_run : Reports → Reports
send_run s =
    let len = min (min s.pending tx_status_num) (sub32 tx_status_num s.head_idx) in
    record s {
      usb =
          send_cmd_to_host (u8 ((len * 2 + 3) / 4 * 4)) rsp_txcomp (u8 len) (spliced s s.head_idx)
            s.usb;
      pending = sub32 s.pending len;
      head_idx = u32 (s.head_idx + len) % tx_status_num;
    }

-- `wlan_send_buffered_tx_status`; `none` means that the fuel ran out.
pub send_buffered_tx_status : ℕ → Reports → Option Reports
send_buffered_tx_status zero s = none
send_buffered_tx_status (suc fuel) s =
    let rest = send_buffered_tx_status fuel (send_run s) in if s.pending == 0 then some s else rest

-- `wlan_get_tx_status_buffer`: the index of the report that the caller fills, and the state.
pub get_tx_status_buffer : ℕ → Reports → Option (ℕ × Reports)
get_tx_status_buffer fuel s =
    let tmp = s.tail_idx in
    let s1 : Reports = record s { tail_idx = u32 (s.tail_idx + 1) % tx_status_num } in
    let flushed = send_buffered_tx_status fuel s1 in
    (if s1.pending == tx_status_num then flushed else some s1) >>= λ s2.
    some (tmp, record s2 { pending = u32 (s2.pending + 1) })

-- What `wlan_tx_complete` reads in the frame's descriptor.
pub record Attempt : Type 0 where
  pub cookie : ℕ
  pub queue : ℕ
  pub rix : ℕ
  pub cnt : ℕ

-- The report on a frame: what does not fit a bit field is cut off.
abbrev pub report : Attempt → Bool → TxStatus
report a txs = record {
  cookie = a.cookie;
  queue = a.queue % 4;
  rix = a.rix % 4;
  tries = a.cnt % 8;
  success = if txs then 1 else 0;
}

-- `wlan_tx_complete`: the frame, whose cookie is reset, and the state.
pub tx_complete : ℕ → Attempt → Bool → Reports → Option (Attempt × Reports)
tx_complete fuel a txs s = get_tx_status_buffer fuel s >>= λ r.
    some (record a { cookie = 0 }, record r.1 { cache = set r.1.cache r.0 (report a txs) })
