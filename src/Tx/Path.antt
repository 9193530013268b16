-- ===== src/Tx/Path.antt =====
-- The way of a frame through the queues: `wlan_tx` and what it calls, in carlfw/src/wlantx.c. The
-- queues are the lists of packets that the theorems on Dma make of them, `dma_put` puts a packet
-- at the end and `dma_unlink_head` takes the first. A packet goes by the address of its
-- superframe, which stays when its first descriptor is copied.
pub mod Done
pub mod Buffered
pub mod Held
pub mod Kept
pub mod Released
pub mod Completion
pub mod Arrival
pub mod Samples
mod Tests
use carl9170fw.Base.{
  ℕ, zero, suc, ◌+◌, ◌-◌, ◌*◌, ◌%◌, ◌^◌, ◌==◌, if◌then◌else◌, List, [], ◌∷◌, ◌++◌, Option, none,
  some, bit_and, bit_or, bit_xor, Bool, true, false, not, ◌&&◌, ◌||◌, u8, u16, u32, sub32, get_or,
}
use carl9170fw.Dma.{own_bits_hw}
use carl9170fw.Tx.Status.{Reports}
use carl9170fw.Tx.Retry.{Super}

-- `struct carl9170_tx_superframe`, with what the code here reads and writes: the superdesc, the
-- hardware's header, and the header of the 802.11 frame in words and with the octet of its TID, and
-- the descriptor of the packet.
pub record TxFrame : Type 0 where
  pub retry : Super
  pub len : ℕ
  pub cookie : ℕ
  pub queue : ℕ
  pub vif_id : ℕ
  pub cab : Bool
  pub assign_seq : Bool
  pub fill_in_tsf : Bool
  pub ampdu_commit_density : Bool
  pub ampdu_commit_factor : Bool
  pub ampdu_density : ℕ
  pub ampdu_factor : ℕ
  pub ba_end : Bool
  pub frame_control : ℕ
  pub duration : ℕ
  pub addr_words : List ℕ
  pub seq_ctrl : ℕ
  pub qos_ctl : ℕ
  pub timestamp : ℕ × ℕ
  pub ctrl : ℕ
  pub status : ℕ
  pub data_size : ℕ
  pub total_len : ℕ

-- Writes to registers that start the hardware: a trigger, and the packet that a queue goes on with,
-- which is none at the terminator.
pub data Event : Type 0 where
  trigger : ℕ → Event
  restart : ℕ → Option ℕ → Event

-- What `fw` keeps for this, the packets that went back to the down queue, the registers, and what
-- was written to them, the last first.
pub record Sender : Type 0 where
  pub frame : ℕ → TxFrame
  pub tx_queue : ℕ → List ℕ
  pub tx_retry : List ℕ
  pub cab_queue : ℕ → List ℕ
  pub cab_queue_len : ℕ → ℕ
  pub down_queue : List ℕ
  pub ampdu_prev : ℕ → Option ℕ
  pub last_super_num : ℕ → ℕ
  pub sequence : ℕ → ℕ
  pub queued_bar : ℕ
  pub fw_desc_available : Bool
  pub fw_desc_data : ℕ
  pub fw_desc_callback : Bool
  pub called_back : List (ℕ × Bool)
  pub reports : Reports
  pub tsf : ℕ × ℕ
  pub density_reg : ℕ
  pub factor_reg : ℕ
  pub events : List Event

abbrev pub upd {ℓ} : {A : Type ℓ} → (ℕ → A) → ℕ → A → ℕ → A
upd f i v j = if j == i then v else f j

-- A write to a superframe, or to the packet's descriptor.
abbrev pub write_frame : ℕ → TxFrame → Sender → Sender
write_frame d f s = record s { frame = upd s.frame d f }

-- `get_tid`
abbrev pub get_tid : TxFrame → ℕ
get_tid f = bit_and f.qos_ctl 0xf

-- The first word of the header.
abbrev pub first_word : TxFrame → ℕ
first_word f = f.frame_control + f.duration * 65536

abbrev pub word_xor : TxFrame → TxFrame → ℕ → ℕ
word_xor a b i = bit_xor (get_or a.addr_words i 0) (get_or b.addr_words i 0)

-- `same_hdr`
unfoldable pub same_hdr : TxFrame → TxFrame → Bool
same_hdr a b =
    bit_or
      (bit_or
        (bit_or (bit_or (bit_xor (first_word a) (first_word b)) (word_xor a b 0)) (word_xor a b 1))
        (word_xor a b 2))
      (word_xor a b 3)
    == 0

-- `same_aggr`
unfoldable pub same_aggr : TxFrame → TxFrame → Bool
unfolding same_hdr
same_aggr a b = (get_tid a == get_tid b) || same_hdr a b

-- `wlan_tx_ampdu_reset`
unfoldable pub tx_ampdu_reset : ℕ → Sender → Sender
tx_ampdu_reset qidx s = record s { ampdu_prev = upd s.ampdu_prev qidx none }

-- `ht_prev->f.hdr.mac.ba_end = 1`
abbrev pub end_aggr : ℕ → Sender → Sender
end_aggr prev s = write_frame prev (record (s.frame prev) { ba_end = true }) s

abbrev pub end_prev : Option ℕ → Sender → Sender
end_prev none s = s
end_prev (some prev) s = end_aggr prev s

-- `wlan_tx_ampdu_end`
unfoldable pub tx_ampdu_end : ℕ → Sender → Sender
unfolding tx_ampdu_reset
tx_ampdu_end qidx s = tx_ampdu_reset qidx (end_prev (s.ampdu_prev qidx) s)

-- The test of `wlan_tx_ampdu` against the aggregate before.
abbrev pub tx_ampdu_prev : Option ℕ → ℕ → Sender → Sender
tx_ampdu_prev none d s = write_frame d (record (s.frame d) { ba_end = false }) s
tx_ampdu_prev (some prev) d s =
    if same_aggr (s.frame d) (s.frame prev)
    then write_frame d (record (s.frame d) { ba_end = false }) s
    else end_aggr prev s

-- `wlan_tx_ampdu`
unfoldable pub tx_ampdu : ℕ → Sender → Sender
unfolding tx_ampdu_end
tx_ampdu d s =
    let qidx = (s.frame d).queue in
    let s1 = tx_ampdu_prev (s.ampdu_prev qidx) d s in
    if (s.frame d).retry.ampdu
    then record s1 { ampdu_prev = upd s1.ampdu_prev qidx (some d) }
    else tx_ampdu_end qidx s

-- `dma_put` on the queue of a packet.
abbrev pub put_tx : ℕ → Sender → Sender
put_tx d s =
    let q = (s.frame d).queue in
    let s1 = write_frame d (record (s.frame d) { status = own_bits_hw }) s in
    record s1 { tx_queue = upd s1.tx_queue q (s1.tx_queue q ++ d ∷ []) }

-- `__wlan_tx`, for all tries.
unfoldable pub tx_try : ℕ → Sender → Sender
unfolding tx_ampdu
tx_try d s =
    let s1 =
      if (s.frame d).fill_in_tsf
      then write_frame d (record (s.frame d) { timestamp = s.tsf }) s
      else s in
    put_tx d (tx_ampdu d s1)

-- `wlan_assign_seq`. The counter is a word, of which the frame gets sixteen bits.
unfoldable pub assign_seq_to : ℕ → Sender → Sender
assign_seq_to d s =
    let vif = (s.frame d).vif_id in
    let seq_ctrl = bit_or (bit_and (s.frame d).seq_ctrl 0xf) (u16 (s.sequence vif)) in
    let s1 = write_frame d (record (s.frame d) { seq_ctrl = seq_ctrl }) s in
    if bit_and seq_ctrl 0xf == 0
    then record s1 { sequence = upd s1.sequence vif (u32 (s1.sequence vif + 0x10)) }
    else s1

-- `_wlan_tx`, for the first try.
unfoldable pub tx_prepare : ℕ → Sender → Sender
unfolding assign_seq_to
tx_prepare d s =
    let f = s.frame d in
    let s1 = if f.assign_seq then assign_seq_to d s else s in
    let s2 =
      if f.ampdu_commit_density
      then record s1 {
        density_reg = bit_or (bit_and s1.density_reg 0xfffffff8) (bit_and f.ampdu_density 7);
      }
      else s1 in
    if f.ampdu_commit_factor
    then record s2 {
      factor_reg =
          bit_or (bit_and s2.factor_reg 0xff80ffff)
            (bit_and (8 * 2 ^ f.ampdu_factor * 65536) 0x7f0000);
    }
    else s2

-- `hide_super`, on the sizes. CARL9170_TX_SUPERDESC_LEN
abbrev pub superdesc_len : ℕ
superdesc_len = 24

abbrev pub hide_super : TxFrame → TxFrame
hide_super f = record f {
  data_size = u16 (f.data_size + 2 ^ 16 - superdesc_len);
  total_len = u16 (f.total_len + 2 ^ 16 - superdesc_len);
}

abbrev pub unhide_super : TxFrame → TxFrame
unhide_super f = record f {
  data_size = u16 (f.data_size + superdesc_len);
  total_len = u16 (f.total_len + superdesc_len);
}

-- The start of `wlan_tx`: the counters of a new frame.
abbrev pub tx_start : (ℕ → Bool) → ℕ → Sender → Sender
tx_start is_back_req d s =
    let f = s.frame d in
    write_frame d (hide_super (record f { retry = record f.retry { rix = 0; cnt = 1 } }))
      (record s {
        queued_bar = if is_back_req f.frame_control then u32 (s.queued_bar + 1) else s.queued_bar;
      })

abbrev pub put_cab : ℕ → Sender → Sender
put_cab d s =
    let vif = (s.frame d).vif_id in
    record (write_frame d (record (s.frame d) { status = own_bits_hw }) s) {
      cab_queue_len = upd s.cab_queue_len vif (u32 (s.cab_queue_len vif + 1));
      cab_queue = upd s.cab_queue vif (s.cab_queue vif ++ d ∷ []);
    }

abbrev pub trigger_queue : ℕ → Sender → Sender
trigger_queue q s = record s { events = trigger (2 ^ q) ∷ s.events }

-- `wlan_tx`. Which frames are block ack requests is a test of linux/ieee80211.h.
unfoldable pub tx : (ℕ → Bool) → ℕ → Sender → Sender
unfolding tx_prepare tx_try
tx is_back_req d s =
    let s1 = tx_start is_back_req d s in
    if (s.frame d).cab
    then put_cab d s1
    else trigger_queue (s.frame d).queue (tx_try d (tx_prepare d s1))
