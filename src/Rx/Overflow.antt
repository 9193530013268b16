-- ===== src/Rx/Overflow.antt =====
-- What is left of a full ring of block ack requests.
use carl9170fw.Base.{
  ℕ, ◌+◌, ◌-◌, ◌%◌, ◌==◌, ◌≤◌, ◌<◌, ◌≡◌, ◌≢◌, refl, ◌∙◌, ap, ltb, if◌then◌else◌, get_or,
  get_or-set_ne, u32, Bool, true, false, ◌&&◌, some, arith, Bool-cases, inl, inr,
}
use carl9170fw.Rx.{Bars, BarCtx, no_bar, back_reqs_num, handle_bar, next_ba}
use carl9170fw.Rx.Requests.{is_taken, entered, handle_bar-entered}

-- The indices are in range.
pub record IsInBounds (b : Bars) : Type 0 where
  pub head_in : b.ba_head_idx < back_reqs_num
  pub tail_in : b.ba_tail_idx < back_reqs_num
  pub queued_in : b.queued_ba ≤ back_reqs_num

-- How far the tail is ahead of where the requests that wait end: 0 in a well-formed ring.
abbrev pub lag : Bars → ℕ
lag b = (b.ba_tail_idx + 16 - (b.ba_head_idx + b.queued_ba)) % back_reqs_num

abbrev grows : BarCtx → ℕ → ℕ → Bars → Bool
grows bar len mac_err b = is_taken bar len mac_err && (b.queued_ba == back_reqs_num)

lag-entered :
    (bar : BarCtx) (b : Bars)
    → IsInBounds b
    → lag (
        entered bar b
          (u32 (b.ba_tail_idx + 1) % back_reqs_num)
          (if ltb b.queued_ba back_reqs_num then b.queued_ba + 1 else b.queued_ba))
      ≡ (if b.queued_ba == back_reqs_num then (lag b + 1) % back_reqs_num else lag b)
lag-entered bar b v = ground arith

-- Each request that is taken while the ring is full moves the tail one slot further ahead of the
-- end of the requests that wait; nothing else that `handle_bar` does changes that distance.
pub handle_bar-lag :
    (bar : BarCtx) (len mac_err : ℕ) (b : Bars)
    → IsInBounds b
    → lag (handle_bar bar len mac_err b) ≡ (
        if is_taken bar len mac_err && (b.queued_ba == back_reqs_num)
        then (lag b + 1) % back_reqs_num
        else lag b)
handle_bar-lag bar len mac_err b v =
    ap lag (handle_bar-entered bar len mac_err b) ∙ (elim (Bool-cases (is_taken bar len mac_err)) [
      | inl t ↦ rw t (lag-entered bar b v)
      | inr t ↦ rw t refl
    ])

-- Answers do not bring the tail back.
next_ba-lag : (available : Bool) (b : Bars) → IsInBounds b → lag (next_ba available b).1 ≡ lag b
unfolding next_ba
next_ba-lag available b v = ground arith

-- In a ring that is empty while its tail is ahead, a request that is taken is not the one that is
-- answered next: that is an old one, which stands at the head.
pub handle_bar-stale :
    (bar : BarCtx) (len mac_err : ℕ) (b : Bars)
    → IsInBounds b
    → b.queued_ba ≡ 0
    → lag b ≢ 0
    → is_taken bar len mac_err ≡ true
    → (next_ba true (handle_bar bar len mac_err b)).0
      ≡ some (get_or b.ba_cache b.ba_head_idx no_bar)
unfolding next_ba
handle_bar-stale bar len mac_err b v z l t =
    let apart : b.ba_tail_idx ≢ b.ba_head_idx = omega (arith, v.head_in, v.tail_in) in
    let some_queued : ((if ltb b.queued_ba back_reqs_num then b.queued_ba + 1 else b.queued_ba)
          == 0)
        ≡ false =
      ground arith in
    ap (λ c. (next_ba true c).0) (handle_bar-entered bar len mac_err b)
    ∙ rw t (
        rw some_queued
          (ap some (get_or-set_ne b.ba_cache b.ba_tail_idx b.ba_head_idx bar no_bar apart)))
