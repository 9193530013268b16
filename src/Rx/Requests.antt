-- ===== src/Rx/Requests.antt =====
-- The ring of block ack requests.
use carl9170fw.Base.{
  ℕ, suc, ◌+◌, ◌-◌, ◌%◌, ◌==◌, ◌≤◌, ◌<◌, ◌≡◌, ◌≢◌, refl, sym, ◌∙◌, ap, ap₂, subst, Bool-cases, inl,
  inr, ltb, if◌then◌else◌, List, [], ◌∷◌, ◌++◌, set, get_or, length, length-set, drop, u32, bit_and,
  Bool, true, false, ==-ne, not, ◌&&◌, Option, some, arith,
}
use carl9170fw.Ring.{window, window-set, length-window}
use carl9170fw.Rx.{Bars, BarCtx, no_bar, back_reqs_num, get_bar_cache_buffer, handle_bar, next_ba}

pub record IsValid (b : Bars) : Type 0 where
  pub slots : length b.ba_cache ≡ back_reqs_num
  pub head_in : b.ba_head_idx < back_reqs_num
  pub queued_in : b.queued_ba ≤ back_reqs_num
  pub tail_is : b.ba_tail_idx ≡ (b.ba_head_idx + b.queued_ba) % back_reqs_num

-- The requests that wait for an answer, the next to be answered first.
abbrev pub requests : Bars → List BarCtx
requests b = window no_bar back_reqs_num b.ba_cache b.ba_head_idx b.queued_ba

-- The requests that `handle_bar` takes: undamaged, whole, for one TID, compressed.
abbrev pub is_taken : BarCtx → ℕ → ℕ → Bool
is_taken bar len mac_err =
    mac_err == 0
    && (not (ltb len 24)
        && (bit_and bar.control 0x0002 == 0 && not (bit_and bar.control 0x0004 == 0)))

-- The state once a request has its slot.
abbrev pub entered : BarCtx → Bars → ℕ → ℕ → Bars
entered bar b tail queued = record b {
  ba_cache = set b.ba_cache b.ba_tail_idx bar;
  ba_tail_idx = tail;
  queued_ba = queued;
}

pub handle_bar-entered :
    (bar : BarCtx) (len mac_err : ℕ) (b : Bars)
    → handle_bar bar len mac_err b ≡ (
        if is_taken bar len mac_err
        then entered bar b
            (u32 (b.ba_tail_idx + 1) % back_reqs_num)
            (if ltb b.queued_ba back_reqs_num then b.queued_ba + 1 else b.queued_ba)
        else b)
unfolding handle_bar get_bar_cache_buffer
handle_bar-entered bar len mac_err b = ground arith

-- A request that is taken goes behind those that wait, and the ring stays well-formed.
pub record Taken (bar : BarCtx) (len mac_err : ℕ) (b b' : Bars) : Type 0 where
  pub valid : IsValid b'
  pub are : requests b' ≡ (if is_taken bar len mac_err then requests b ++ bar ∷ [] else requests b)

entered-IsValid :
    (bar : BarCtx) (b : Bars)
    → IsValid b
    → b.queued_ba < back_reqs_num
    → IsValid (entered bar b ((b.ba_tail_idx + 1) % back_reqs_num) (suc b.queued_ba))
entered-IsValid bar b v p = record {
  slots = length-set b.ba_cache b.ba_tail_idx bar ∙ v.slots;
  head_in = v.head_in;
  queued_in = omega arith;
  tail_is = omega (arith, v.tail_is);
}

handle_bar-room :
    (bar : BarCtx) (len mac_err : ℕ) (b : Bars)
    → IsValid b
    → b.queued_ba < back_reqs_num
    → handle_bar bar len mac_err b ≡ (
        if is_taken bar len mac_err
        then entered bar b ((b.ba_tail_idx + 1) % back_reqs_num) (suc b.queued_ba)
        else b)
handle_bar-room bar len mac_err b v p =
    let room : (if ltb b.queued_ba back_reqs_num then b.queued_ba + 1 else b.queued_ba)
        ≡ suc b.queued_ba =
      ground arith in
    let tail : u32 (b.ba_tail_idx + 1) % 4 ≡ (b.ba_tail_idx + 1) % 4 = omega (arith, v.tail_is) in
    handle_bar-entered bar len mac_err b
    ∙ ap₂ (λ (t q : ℕ). if is_taken bar len mac_err then entered bar b t q else b) tail room

-- While the ring has room, `handle_bar` puts each undamaged and whole request for a compressed
-- block ack of one TID behind those that wait and drops all others, and the ring stays well-formed.
pub handle_bar-Taken :
    (bar : BarCtx) (len mac_err : ℕ) (b : Bars)
    → IsValid b
    → b.queued_ba < back_reqs_num
    → Taken bar len mac_err b (handle_bar bar len mac_err b)
handle_bar-Taken bar len mac_err b v p =
    subst (Taken bar len mac_err b) (sym (handle_bar-room bar len mac_err b v p))
      (elim (Bool-cases (is_taken bar len mac_err)) [
        | inl t ↦ rw t (record {
          valid = entered-IsValid bar b v p;
          are = rw t (
              window-set no_bar 4 b.ba_cache bar b.queued_ba b.ba_head_idx b.ba_tail_idx
                (omega (arith, v.slots)) v.head_in p v.tail_is);
        })
        | inr t ↦ rw t (record { valid = v; are = rw t refl })
      ])

first_of : BarCtx → List BarCtx → BarCtx
first_of d [] = d
first_of d (x ∷ xs) = x

split :
    (b : Bars) (n : ℕ)
    → b.queued_ba ≡ suc n
    → requests b
      ≡ get_or b.ba_cache b.ba_head_idx no_bar
        ∷ window no_bar back_reqs_num b.ba_cache ((b.ba_head_idx + 1) % back_reqs_num) n
split b n e = ap (window no_bar 4 b.ba_cache b.ba_head_idx) e

count : (b : Bars) (x : BarCtx) (rest : List BarCtx) → requests b ≡ x ∷ rest → b.queued_ba ≢ 0
count b x rest e z =
    let n : b.queued_ba ≡ suc (length rest) =
      sym (length-window no_bar 4 b.ba_cache b.ba_head_idx b.queued_ba) ∙ ap length e in
    absurd (omega arith)

answered : BarCtx → Bars → Option BarCtx × Bars
answered x b = (some x, b)

-- When the descriptor is available, `wlan_send_buffered_ba` takes the oldest of the requests that
-- wait, leaves the others in order, and keeps the ring well-formed.
pub next_ba-oldest :
    (b : Bars) (x : BarCtx) (rest : List BarCtx)
    → IsValid b
    → requests b ≡ x ∷ rest
    → (b' : Bars) × (next_ba true b ≡ (some x, b')) × (requests b' ≡ rest) × IsValid b'
unfolding next_ba first_of answered
next_ba-oldest b x rest v e =
    let ne : (b.queued_ba == 0) ≡ false = ==-ne b.queued_ba 0 (count b x rest e) in
    let n : b.queued_ba ≡ suc (b.queued_ba - 1) = omega (arith, count b x rest e) in
    let h : u32 (b.ba_head_idx + 1) % 4 ≡ (b.ba_head_idx + 1) % 4 = omega (arith, v.head_in) in
    let parts = sym (split b (b.queued_ba - 1) n) ∙ e in
    (
      record b { ba_head_idx = u32 (b.ba_head_idx + 1) % 4; queued_ba = b.queued_ba - 1 },
      rw ne (
          ap
            (λ y.
              answered y (record b {
                ba_head_idx = u32 (b.ba_head_idx + 1) % 4;
                queued_ba = b.queued_ba - 1;
              }))
            (ap (first_of no_bar) parts)),
      ap (λ (k : ℕ). window no_bar 4 b.ba_cache k (b.queued_ba - 1)) h ∙ ap (drop 1) parts,
      record {
        slots = v.slots;
        head_in = omega arith;
        queued_in = omega (arith, v.queued_in);
        tail_is = omega (arith, v.tail_is, v.head_in, v.queued_in);
      },
    )
