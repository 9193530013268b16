-- ===== src/Tx/Path/Buffered.antt =====
-- Frames for many receivers wait for a beacon: `wlan_cab_flush_queue` and
-- `wlan_send_buffered_cab`, and the firmware's own packet, `wlan_tx_fw`.
use carl9170fw.Base.{
  ℕ, zero, suc, if◌then◌else◌, List, [], ◌∷◌, bit_and, bit_or, Bool, true, false, ◌&&◌, u16,
}
use carl9170fw.Tx.Beacon.{CabTrigger, empty, armed, defer}
use carl9170fw.Tx.Path.{TxFrame, Sender, upd, write_frame, tx, tx_try, tx_prepare, trigger_queue}
use carl9170fw.Tx.Path.Done.{is_empty}

-- IEEE80211_FCTL_MOREDATA, set in all frames but the last.
abbrev pub more_data : Bool → ℕ → ℕ
more_data is_last frame_control =
    if is_last then bit_and frame_control 0xdfff else bit_or frame_control 0x2000

-- One round of the loop of `wlan_cab_flush_queue`, for a packet that was taken from the queue.
abbrev pub flush_frame : ℕ → Bool → Sender → Sender
flush_frame d is_last s =
    let f = s.frame d in
    let s1 = write_frame d (record f { frame_control = more_data is_last f.frame_control }) s in
    trigger_queue f.queue (tx_try d (tx_prepare d s1))

-- `wlan_cab_flush_queue`
abbrev pub flush_all : ℕ → List ℕ → Sender → Sender
flush_all vif [] s = s
flush_all vif (d ∷ ds) s =
    flush_all vif ds (flush_frame d (is_empty ds) (record s { cab_queue = upd s.cab_queue vif ds }))

unfoldable pub cab_flush_queue : ℕ → Sender → Sender
cab_flush_queue vif s = flush_all vif (s.cab_queue vif) s

-- `wlan_send_buffered_cab` for the interfaces below a number, in their order, with the triggers.
-- Whether CARL9170_TBTT_DELTA has passed since `cab_flush_time` is an argument.
abbrev pub is_armed : CabTrigger → Bool
is_armed empty = false
is_armed armed = true
is_armed defer = false

abbrev pub send_buffered_cab : ℕ → Bool → (ℕ → CabTrigger) × Sender → (ℕ → CabTrigger) × Sender
send_buffered_cab zero is_after s = s
send_buffered_cab (suc i) is_after s =
    let r = send_buffered_cab i is_after s in
    if is_armed (r.0 i) && is_after then (upd r.0 i defer, cab_flush_queue i r.1) else r

-- `wlan_tx_fw`: the firmware's packet is filled with the superframe `d` of `len` octets, if it is
-- there, and sent.
unfoldable pub tx_fw : (ℕ → Bool) → ℕ → ℕ → Bool → Sender → Sender
tx_fw is_back_req d len cb s =
    let f : TxFrame = record (s.frame d) {
      ctrl = 0x300;
      status = 0;
      total_len = u16 len;
      data_size = u16 len;
    } in
    let sent = tx is_back_req d (record (write_frame d f s) {
      fw_desc_available = false;
      fw_desc_data = d;
      fw_desc_callback = cb;
    }) in
    if s.fw_desc_available then sent else s
