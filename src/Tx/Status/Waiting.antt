-- ===== src/Tx/Status/Waiting.antt =====
-- The reports that wait in the cache, and the messages that are to carry them.
use carl9170fw.Base.{
  ℕ, ◌+◌, ◌-◌, ◌*◌, ◌/◌, ◌%◌, ◌==◌, ◌≤◌, ◌<◌, ◌≡◌, ◌∙◌, ap, ap₂, List, ◌++◌, arith, length, take,
  drop, Bool, true, false, if◌then◌else◌, ltb,
}
use native.Mathlib.Decide.{dec_le}
use carl9170fw.Ring.{window, window-take, window-drop}
use carl9170fw.Usb.{Usb, send_cmd_to_host}
use carl9170fw.Tx.Status.{TxStatus, Reports, blank_status, tx_status_num, rsp_txcomp, spliced}

-- The reports that wait, oldest first.
abbrev pub waiting : Reports → List TxStatus
waiting s = window blank_status tx_status_num s.cache s.head_idx s.pending

-- What the cache's own indices promise, and the place of its tail.
pub record IsInBounds (s : Reports) : Type 0 where
  pub slots : length s.cache ≡ tx_status_num
  pub head_in : s.head_idx < tx_status_num
  pub pending_in : s.pending ≤ tx_status_num

pub record IsValid (s : Reports) : Type 0 where
  pub in_bounds : IsInBounds s
  pub tail_is : s.tail_idx ≡ (s.head_idx + s.pending) % tx_status_num

-- A run of `len` reports from index `h` on, as one message.
abbrev pub send_chunk : Reports → ℕ → ℕ → Usb → Usb
send_chunk s h len u = send_cmd_to_host ((len * 2 + 3) / 4 * 4) rsp_txcomp len (spliced s h) u

-- Do the reports that wait go round the end of the cache?
abbrev pub goes_round : Reports → Bool
goes_round s = ltb tx_status_num (s.head_idx + s.pending)

-- The messages that carry the reports that wait: none, one, or two if they go round the end.
abbrev pub deliver : Reports → Usb
deliver s =
    if s.pending == 0
    then s.usb
    else (if goes_round s
        then send_chunk s 0 (s.head_idx + s.pending - tx_status_num)
            (send_chunk s s.head_idx (tx_status_num - s.head_idx) s.usb)
        else send_chunk s s.head_idx s.pending s.usb)

-- The reports in those messages.
abbrev pub delivered : Reports → List TxStatus
delivered s =
    if goes_round s
    then take (tx_status_num - s.head_idx) (drop s.head_idx s.cache)
      ++ take (s.head_idx + s.pending - tx_status_num) s.cache
    else take s.pending (drop s.head_idx s.cache)

pub ltb-true : (a b : ℕ) → a < b → ltb a b ≡ true
ltb-true a b p = ground arith

pub ltb-false : (a b : ℕ) → b ≤ a → ltb a b ≡ false
ltb-false a b p = ground arith

pub window-round :
    (xs : List TxStatus) (h p : ℕ)
    → length xs ≡ tx_status_num
    → h < tx_status_num
    → p ≤ tx_status_num
    → tx_status_num < h + p
    → window blank_status tx_status_num xs h p
      ≡ take (tx_status_num - h) (drop h xs) ++ take (h + p - tx_status_num) xs
window-round xs h p len hh hp q =
    let parts : p ≡ (30 - h) + (h + p - 30) = omega arith in
    let back : (h + (30 - h)) % 30 ≡ 0 =
      ap (λ (n : ℕ). n % 30) {x = h + (30 - h)} {y = 30} (omega arith) in
    ap (window blank_status 30 xs h) parts
    ∙ window-drop blank_status 30 xs h (30 - h) (h + p - 30) hh
    ∙ ap₂ ◌++◌ (window-take blank_status 30 xs h (30 - h) (omega arith) (omega arith)) (
        ap (λ (n : ℕ). window blank_status 30 xs n (h + p - 30)) back
        ∙ window-take blank_status 30 xs 0 (h + p - 30) (omega arith) (omega arith))

-- Those messages are about all reports that wait, in order.
pub waiting-delivered : (s : Reports) → IsInBounds s → waiting s ≡ delivered s
waiting-delivered s v = elim (dec_le (s.head_idx + s.pending) tx_status_num) [
  | yes p ↦
      let e : goes_round s ≡ false = ltb-false _ _ p in
      rw e (window-take blank_status 30 s.cache s.head_idx s.pending p (omega (arith, v.slots)))
  | no p ↦
      let e : goes_round s ≡ true = ltb-true _ _ (omega arith) in
      rw e (window-round s.cache s.head_idx s.pending v.slots v.head_in v.pending_in (omega arith))
]
