-- ===== src/Tx/Status/Flush.antt =====
-- A flush puts every report that waits into messages for the host, once and in order.
use carl9170fw.Base.{
  ℕ, suc, ◌+◌, ◌-◌, ◌*◌, ◌/◌, ◌%◌, ◌==◌, ◌≤◌, ◌<◌, ◌≡◌, ◌≢◌, refl, sym, ◌∙◌, ap, ap₂, some, arith,
  min, u8, u32, sub32, true, false,
}
use native.Mathlib.Decide.{dec_le}
use native.Mathlib.Nat.{mod-eq_of_lt}
use carl9170fw.Usb.{Usb}
use carl9170fw.Tx.Status.{Reports, tx_status_num, send_run, send_buffered_tx_status}
use carl9170fw.Tx.Status.Waiting.{IsInBounds, send_chunk, goes_round, deliver, ltb-true, ltb-false}

-- The state once some reports have been sent.
unfoldable pub moved : Reports → Usb → ℕ → ℕ → Reports
moved s u p h = record s { usb = u; pending = p; head_idx = h }

send_run-moved :
    (s : Reports) (len : ℕ)
    → IsInBounds s
    → len ≡ min s.pending (tx_status_num - s.head_idx)
    → send_run s
      ≡ moved s
          (send_chunk s s.head_idx len s.usb)
          (s.pending - len)
          ((s.head_idx + len) % tx_status_num)
unfolding send_run moved
send_run-moved s len v e =
    let hh : s.head_idx < 30 = v.head_in in
    let hp : s.pending ≤ 30 = v.pending_in in
    let a : min (min s.pending 30) (sub32 30 s.head_idx) ≡ len = omega arith in
    let b : u8 ((len * 2 + 3) / 4 * 4) ≡ (len * 2 + 3) / 4 * 4 = omega arith in
    let c : u8 len ≡ len = omega arith in
    let d : sub32 s.pending len ≡ s.pending - len = omega arith in
    let f : u32 (s.head_idx + len) % 30 ≡ (s.head_idx + len) % 30 = omega arith in cc

flush-done :
    (s : Reports) (fuel : ℕ) → s.pending ≡ 0 → send_buffered_tx_status (suc fuel) s ≡ some s
unfolding send_buffered_tx_status
flush-done s fuel e = let t : (s.pending == 0) ≡ true = ground arith in rw t refl

flush-step :
    (s : Reports) (fuel : ℕ)
    → s.pending ≢ 0
    → send_buffered_tx_status (suc fuel) s ≡ send_buffered_tx_status fuel (send_run s)
unfolding send_buffered_tx_status
flush-step s fuel e = let t : (s.pending == 0) ≡ false = ground arith in rw t refl

moved_self : (s : Reports) (p h : ℕ) → p ≡ s.pending → h ≡ s.head_idx → s ≡ moved s s.usb p h
unfolding moved
moved_self s p h e f = sym (ap₂ (λ (a b : ℕ). moved s s.usb a b) e f)

-- One round is enough for reports that do not go round the end.
flush-once :
    (s : Reports) (fuel : ℕ)
    → IsInBounds s
    → s.pending ≢ 0
    → s.head_idx + s.pending ≤ tx_status_num
    → send_buffered_tx_status (suc (suc fuel)) s
      ≡ some (
          moved s
            (send_chunk s s.head_idx s.pending s.usb)
            0
            ((s.head_idx + s.pending) % tx_status_num))
unfolding moved
flush-once s fuel v ne q =
    flush-step s (suc fuel) ne
    ∙ ap (send_buffered_tx_status (suc fuel)) (
        send_run-moved s s.pending v (omega (arith, v.pending_in))
        ∙ ap
            (λ (n : ℕ).
              moved s (send_chunk s s.head_idx s.pending s.usb) n ((s.head_idx + s.pending) % 30))
            {x = s.pending - s.pending} {y = 0} (omega arith))
    ∙ flush-done _ fuel refl

-- Two are enough for reports that do.
flush-twice :
    (s : Reports) (fuel : ℕ)
    → IsInBounds s
    → tx_status_num < s.head_idx + s.pending
    → send_buffered_tx_status (suc (suc (suc fuel))) s
      ≡ some (
          moved s
            (send_chunk s 0
              (s.head_idx + s.pending - tx_status_num)
              (send_chunk s s.head_idx (tx_status_num - s.head_idx) s.usb))
            0
            ((s.head_idx + s.pending) % tx_status_num))
unfolding moved
flush-twice s fuel v q =
    let h : ℕ = s.head_idx in
    let hh : s.head_idx < 30 = v.head_in in
    let hp : s.pending ≤ 30 = v.pending_in in
    let u : Usb = send_chunk s s.head_idx (30 - s.head_idx) s.usb in
    let left : s.pending - (30 - s.head_idx) ≡ s.head_idx + s.pending - 30 = omega arith in
    let front : (s.head_idx + (30 - s.head_idx)) % 30 ≡ 0 =
      ap (λ (n : ℕ). n % 30) {x = s.head_idx + (30 - s.head_idx)} {y = 30} (omega arith) in
    let s1 : Reports = moved s u (s.head_idx + s.pending - 30) 0 in
    let v1 : IsInBounds s1 = record {
      slots = v.slots;
      head_in = omega arith;
      pending_in = omega arith;
    } in
    let end : (0 + (s.head_idx + s.pending - 30)) % 30 ≡ (s.head_idx + s.pending) % 30 =
      omega arith in
    flush-step s (suc (suc fuel)) (omega arith)
    ∙ ap (send_buffered_tx_status (suc (suc fuel))) (
        send_run-moved s (30 - s.head_idx) v (omega arith)
        ∙ ap₂ (λ (n m : ℕ). moved s u n m) left front)
    ∙ flush-once s1 fuel v1 (omega arith) (omega arith)
    ∙ ap (λ (n : ℕ). some (moved s (send_chunk s 0 (s.head_idx + s.pending - 30) u) 0 n)) end

-- Three rounds are enough fuel.
pub send_buffered_tx_status-moved :
    (s : Reports) (fuel : ℕ)
    → IsInBounds s
    → send_buffered_tx_status (suc (suc (suc fuel))) s
      ≡ some (moved s (deliver s) 0 ((s.head_idx + s.pending) % tx_status_num))
send_buffered_tx_status-moved s fuel v = elim (dec_le s.pending 0) [
  | yes z ↦
      let e : s.pending ≡ 0 = omega arith in
      let t : (s.pending == 0) ≡ true = ground arith in
      rw t (
        flush-done s (suc (suc fuel)) e
        ∙ ap some (
            moved_self s 0 _ (sym e)
              (omega (arith, v.head_in, mod-eq_of_lt {n = s.head_idx} {m = 30} v.head_in))))
  | no nz ↦
      let t : (s.pending == 0) ≡ false = ground arith in
      elim (dec_le (s.head_idx + s.pending) tx_status_num) [
        | yes p ↦
            let e : goes_round s ≡ false = ltb-false _ _ p in
            rw t (rw e (flush-once s (suc fuel) v (omega arith) p))
        | no p ↦
            let e : goes_round s ≡ true = ltb-true _ _ (omega arith) in
            rw t (rw e (flush-twice s fuel v (omega arith)))
      ]
]
