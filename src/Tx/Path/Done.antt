-- ===== src/Tx/Path/Done.antt =====
-- What happens to a frame that the hardware is done with: `wlan_tx_status` and
-- `handle_wlan_tx_completion`.
use carl9170fw.Base.{
  ℕ, zero, suc, ◌^◌, ◌==◌, if◌then◌else◌, List, [], ◌∷◌, ◌++◌, Option, none, some, ◌>>=◌, bit_and,
  bit_or, Bool, true, false, not, sub32,
}
use carl9170fw.Tx.Status.{Attempt, tx_complete}
use carl9170fw.Tx.Retry.{tx_consume_retry}
use carl9170fw.Dma.{own_bits_hw}
use carl9170fw.Tx.Path.{
  TxFrame, trigger, restart, Sender, upd, write_frame, tx_ampdu_reset, tx_ampdu_end, tx_try,
  unhide_super, trigger_queue,
}

-- The packet at which `__for_each_desc_bits` stops: the first that is not done, or the terminator.
abbrev pub first_pending : (ℕ → TxFrame) → List ℕ → Option ℕ
first_pending frame [] = none
first_pending frame (d ∷ ds) =
    let rest = first_pending frame ds in if bit_and (frame d).status 3 == 0 then rest else some d

-- `wlan_txunstuck`
abbrev pub txunstuck : ℕ → Sender → Sender
txunstuck qidx s = record s {
  events = trigger (2 ^ qidx) ∷ restart qidx (first_pending s.frame (s.tx_queue qidx)) ∷ s.events;
}

-- `dma_unlink_head`, for a queue that `tx_queue` has at `q`.
abbrev pub tail : List ℕ → List ℕ
tail [] = []
tail (d ∷ ds) = ds

abbrev pub unlink_tx : ℕ → Sender → Sender
unlink_tx q s = record s { tx_queue = upd s.tx_queue q (tail (s.tx_queue q)) }

-- A frame that is tried again, after `wlan_tx_consume_retry` said so. The first result is the
-- return value.
unfoldable pub retry_frame : ℕ → ℕ → Bool → Sender → Bool × Sender
retry_frame q d txfail s =
    let f = s.frame d in
    let f1 : TxFrame =
      if f.retry.ampdu then f else record f { frame_control = bit_or f.frame_control 0x800 } in
    let s1 = write_frame d f1 s in
    if txfail
    then (
      false,
      txunstuck f.queue
          (write_frame d (record f1 { status = bit_or (bit_and f1.status 0xfffc) own_bits_hw }) s1),
    )
    else (
      true,
      record (unlink_tx q (write_frame d (record f1 { status = own_bits_hw }) s1)) {
        tx_retry = s.tx_retry ++ d ∷ [];
      },
    )

-- The report of a frame, for `wlan_tx_complete`, with fuel for the cache that is flushed.
abbrev pub attempt : TxFrame → Attempt
attempt f = record { cookie = f.cookie; queue = f.queue; rix = f.retry.rix; cnt = f.retry.cnt }

-- The end of `wlan_tx_status` for a frame of the host: it is reported and its packet goes back.
unfoldable pub release_frame : (ℕ → Bool) → ℕ → Bool → Sender → Option Sender
release_frame is_back_req d success s =
    let f = s.frame d in
    let vif = f.vif_id in
    tx_complete 3 (attempt f) success s.reports >>= λ r. some (
      write_frame d (record f { cookie = r.0.cookie })
        (record s {
          cab_queue_len =
              if f.cab
              then upd s.cab_queue_len vif (sub32 (s.cab_queue_len vif) 1)
              else s.cab_queue_len;
          reports = r.1;
          queued_bar = if is_back_req f.frame_control then sub32 s.queued_bar 1 else s.queued_bar;
          down_queue = s.down_queue ++ d ∷ [];
        }))

-- The end of `wlan_tx_status` for the firmware's own packet.
abbrev pub release_own : ℕ → Bool → Sender → Sender
release_own d success s = record s {
  fw_desc_available = true;
  called_back = if s.fw_desc_callback then (d, success) ∷ s.called_back else s.called_back;
}

-- A frame that has no tries left, or was sent.
unfoldable pub finish_frame : (ℕ → Bool) → ℕ → ℕ → Bool → Bool → Sender → Option Sender
unfolding release_frame
finish_frame is_back_req q d txfail success s =
    let s1 = unlink_tx q s in
    let s2 = if txfail then txunstuck (s.frame d).queue s1 else s1 in
    let s3 = write_frame d (unhide_super (s2.frame d)) s2 in
    if d == s3.fw_desc_data
    then some (release_own d success s3)
    else release_frame is_back_req d success s3

-- `wlan_tx_status` for the packet `d` at the head of the queue `q`. The first result is what it
-- returns. `none` does not happen where the cache of reports is well-formed.
unfoldable pub tx_status : (ℕ → Bool) → ℕ → ℕ → Sender → Option (Bool × Sender)
unfolding retry_frame finish_frame
tx_status is_back_req q d s =
    let f = s.frame d in
    let s0 : Sender = record s { last_super_num = upd s.last_super_num f.queue 0 } in
    let txfail = not (bit_and f.ctrl 1 == 0) in
    let again = tx_consume_retry f.retry in
    let f1 : TxFrame = record f { ctrl = bit_and f.ctrl 0xfffc; retry = again.1 } in
    let s1 = write_frame d f1 s0 in
    let given_up = finish_frame is_back_req q d txfail false s1 >>= λ s2. some (not txfail, s2) in
    let sent = finish_frame is_back_req q d false true s0 >>= λ s2. some (true, s2) in
    if bit_and f.ctrl 3 == 0
    then sent
    else (if again.0 then some (retry_frame q d txfail s1) else given_up)

-- The loop of `handle_wlan_tx_completion` over the packets that are done, on fuel.
abbrev pub completed_loop : ℕ → (ℕ → Bool) → ℕ → Sender → List ℕ → Option Sender
completed_loop zero is_back_req q s ds = none
completed_loop (suc fuel) is_back_req q s [] = some s
completed_loop (suc fuel) is_back_req q s (d ∷ ds) =
    let rest = tx_status is_back_req q d s >>= λ r.
    if r.0 then completed_loop fuel is_back_req q r.1 (r.1.tx_queue q) else some r.1 in
    if bit_and (s.frame d).status 3 == 0 then rest else some s

-- The loop over the packets to retry, which takes each from the queue.
abbrev pub retry_all : List ℕ → Sender → Sender
retry_all [] s = s
retry_all (d ∷ ds) s = retry_all ds (tx_try d (record s { tx_retry = ds }))

abbrev pub is_empty : List ℕ → Bool
is_empty [] = true
is_empty (d ∷ ds) = false

-- What follows that loop for a queue.
abbrev pub after_completed : ℕ → Sender → Sender
after_completed q s =
    let s1 = tx_ampdu_reset q s in
    let s2 = tx_ampdu_end q (retry_all s1.tx_retry s1) in
    if is_empty (s2.tx_queue q) then s2 else trigger_queue q s2

abbrev pub complete_queue : ℕ → (ℕ → Bool) → ℕ → Sender → Option Sender
complete_queue fuel is_back_req q s =
    completed_loop fuel is_back_req q s (s.tx_queue q) >>= λ s1. some (after_completed q s1)

-- `handle_wlan_tx_completion`: the queues from AR9170_TXQ_SPECIAL down to AR9170_TXQ0.
unfoldable pub handle_tx_completion : ℕ → (ℕ → Bool) → Sender → Option Sender
handle_tx_completion fuel is_back_req s =
    complete_queue fuel is_back_req 4 s
    >>= complete_queue fuel is_back_req 3
    >>= complete_queue fuel is_back_req 2
    >>= complete_queue fuel is_back_req 1
    >>= complete_queue fuel is_back_req 0
