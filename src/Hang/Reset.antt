-- ===== src/Hang/Reset.antt =====
-- `wlan_mac_reset`: the MAC is reset, its registers are written again, and each transmit queue goes on
-- at the first packet that is not done, or behind it if that is the stuck one.
use carl9170fw.Base.{
  ℕ, ◌^◌, ◌==◌, leb, if◌then◌else◌, List, [], ◌∷◌, Option, none, some, bit_and, bit_or, Bool, ◌&&◌,
}
use carl9170fw.Tx.Path.{TxFrame, trigger, restart, Sender, upd, write_frame}
use carl9170fw.Tx.Path.Done.{first_pending}
use carl9170fw.Hang.{tx_mac_reset}

-- What the reset works on: the queues, `fw.wlan.last_super`, `fw.wlan.soft_int`, the head of the receive
-- queue, and the registers.
pub record Mac : Type 0 where
  pub sender : Sender
  pub last_super : ℕ → ℕ
  pub soft_int : ℕ
  pub rx_head : ℕ
  pub regs : ℕ → ℕ

-- The registers that are saved, each with the one that it is written to.
abbrev pub saved : List (ℕ × ℕ)
saved =
    (0x1c3b9c, 0x1c3b9c)
    ∷ (0x1c3ba0, 0x1c3ba0)
    ∷ (0x1c3d84, 0x1c3d84)
    ∷ (0x1c3700, 0x1c3700)
    ∷ (0x1c3704, 0x1c3704)
    ∷ (0x1c3708, 0x1c3708)
    ∷ (0x1c3bb4, 0x1c3bb4)
    ∷ (0x1c3694, 0x1c3694)
    ∷ (0x1c3638, 0x1c3638)
    ∷ (0x1c5960, 0x1c7960)
    ∷ []

-- The writes of the values from before.
abbrev pub restore_regs : List (ℕ × ℕ) → (ℕ → ℕ) → (ℕ → ℕ) → ℕ → ℕ
restore_regs [] before regs = regs
restore_regs (r ∷ rs) before regs = restore_regs rs before (upd regs r.1 (before r.0))

-- AR9170_MAC_REG_POWER_STATE_CTRL with AR9170_MAC_POWER_STATE_CTRL_RESET. What the hardware then does
-- to its registers is `hw_reset`.
unfoldable pub reset_regs : ((ℕ → ℕ) → ℕ → ℕ) → (ℕ → ℕ) → ℕ → ℕ
reset_regs hw_reset regs =
    restore_regs saved regs (hw_reset (upd regs 0x1c3500 (bit_or (regs 0x1c3500) 0x20)))

-- The packet behind one in a queue, or the terminator.
abbrev pub first : List ℕ → Option ℕ
first [] = none
first (d ∷ ds) = some d

abbrev pub next_behind : ℕ → List ℕ → Option ℕ
next_behind d [] = none
next_behind d (x ∷ xs) = let rest = next_behind d xs in if x == d then first xs else rest

-- The stuck frame is marked as failed: AR9170_OWN_BITS_SW, AR9170_CTRL_BAFAIL, and the most tries at
-- the last rate.
unfoldable pub give_up : TxFrame → TxFrame
give_up f = record f {
  status = 0;
  ctrl = bit_or (bit_and f.ctrl 0xfffc) 2;
  retry = record f.retry { cnt = 7; rix = 3 };
}

-- The test for the stuck frame.
abbrev pub is_stuck : ℕ → ℕ → Mac → Bool
is_stuck i d m = leb tx_mac_reset (m.sender.last_super_num i) && (m.last_super i == d)

-- The state in which the stuck frame `d` of the queue `i` is given up.
unfoldable pub killed : ℕ → ℕ → Mac → Mac
unfolding give_up
killed i d m = record m {
  sender =
      write_frame d (give_up (m.sender.frame d))
        (record m.sender { last_super_num = upd m.sender.last_super_num i 0 });
  last_super = upd m.last_super i 0;
}

-- The `if` of the loop, for the packet at which the queue would go on.
unfoldable pub kill_stuck : ℕ → Option ℕ → Mac → Option ℕ × Mac
unfolding killed
kill_stuck i none m = (none, m)
kill_stuck i (some d) m =
    if is_stuck i d m then (next_behind d (m.sender.tx_queue i), killed i d m) else (some d, m)

abbrev pub trigger_bit : ℕ → Option ℕ → ℕ → ℕ
trigger_bit i none val = val
trigger_bit i (some d) val = bit_or val (2 ^ i)

abbrev pub write_event : ℕ → Option ℕ → Mac → Mac
write_event i it m = record m {
  sender = record m.sender { events = restart i it ∷ m.sender.events };
}

-- The loop's body: the triggers and the state.
unfoldable pub reset_queue : ℕ → ℕ × Mac → ℕ × Mac
unfolding kill_stuck
reset_queue i r =
    let m = r.1 in
    let k = kill_stuck i (first_pending m.sender.frame (m.sender.tx_queue i)) m in
    (trigger_bit i k.0 r.0, write_event i k.0 k.1)

-- The loop over the queues.
abbrev pub reset_queues : List ℕ → ℕ × Mac → ℕ × Mac
reset_queues [] r = r
reset_queues (i ∷ is) r = reset_queues is (reset_queue i r)

-- From AR9170_TXQ_SPECIAL down to AR9170_TXQ0.
abbrev pub queue_order : List ℕ
queue_order = 4 ∷ 3 ∷ 2 ∷ 1 ∷ 0 ∷ []

-- `wlan_mac_reset`. AR9170_DMA_TRIGGER_RXQ is set from the start, AR9170_MAC_INT_TXC, _RXC and
-- _RETRY_FAIL are the interrupts that the next round of the main loop handles.
unfoldable pub mac_reset : ((ℕ → ℕ) → ℕ → ℕ) → Mac → Mac
unfolding reset_regs reset_queue
mac_reset hw_reset m =
    let r = reset_queues queue_order (0x100, record m { regs = reset_regs hw_reset m.regs }) in
    record r.1 {
      soft_int = bit_or r.1.soft_int 7;
      regs = upd r.1.regs 0x1c3d28 m.rx_head;
      sender = record r.1.sender { events = trigger r.0 ∷ r.1.sender.events };
    }
