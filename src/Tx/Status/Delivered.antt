-- ===== src/Tx/Status/Delivered.antt =====
-- A flush puts every report that waits into messages for the host, once and in order.
use carl9170fw.Base.{
  ℕ, zero, suc, ◌+◌, ◌-◌, ◌*◌, ◌/◌, ◌%◌, ◌==◌, ◌≤◌, ◌<◌, ◌≡◌, refl, sym, ◌∙◌, ap, ap₂, subst, List,
  [], ◌∷◌, ◌++◌, append-nil, append_assoc, some, arith, length, take, drop, All, set, true, false,
  if◌then◌else◌, ==-ne, length-append, length-drop,
}
use native.Mathlib.Decide.{dec_le}
use carl9170fw.Usb.{Rsp, Usb, int_rq_caches, max_payload}
use carl9170fw.Usb.Fifo
use carl9170fw.Usb.Fifo.{
  IsSized, IsFilled, messages, composed, composed-IsFilled, tail_in, send_cmd_to_host-sent,
  send_cmd_to_host-messages, send_cmd_to_host-IsValid,
}
use carl9170fw.Tx.Status.{
  TxStatus, Reports, status_bytes, tx_status_num, rsp_txcomp, spliced, send_buffered_tx_status,
}
use carl9170fw.Tx.Status.Waiting.{
  waiting, IsInBounds, IsValid, send_chunk, goes_round, deliver, delivered, ltb-true, ltb-false,
  waiting-delivered,
}
use carl9170fw.Tx.Status.Flush.{moved, send_buffered_tx_status-moved}

set-All : (P : Rsp → Type 0) (ms : List Rsp) (i : ℕ) (m : Rsp) → P m → All P ms → All P (set ms i m)
set-All P [] i m q p = tt
set-All P (x ∷ ms) zero m q p = (q, p.1)
set-All P (x ∷ ms) (suc i) m q p = (p.0, set-All P ms i m q p.1)

take-take : (n k : ℕ) (xs : List ℕ) → n ≤ k → take n (take k xs) ≡ take n xs
take-take zero k xs p = refl
take-take (suc n) zero xs p = absurd (omega arith)
take-take (suc n) (suc k) [] p = refl
take-take (suc n) (suc k) (x ∷ xs) p = ap (λ ys. x ∷ ys) (take-take n k xs (omega arith))

length-status_bytes : (rs : List TxStatus) → length (status_bytes rs) ≡ 2 * length rs
length-status_bytes [] = refl
length-status_bytes (r ∷ rs) = omega (arith, length-status_bytes rs)

status_bytes-append :
    (rs ss : List TxStatus) → status_bytes (rs ++ ss) ≡ status_bytes rs ++ status_bytes ss
status_bytes-append [] ss = refl
status_bytes-append (r ∷ rs) ss =
    ap (λ xs. r.cookie ∷ (r.queue + r.rix * 4 + r.tries * 16 + r.success * 128) ∷ xs)
      (status_bytes-append rs ss)

-- Two octets for each report, from the one at `h` on.
bytes-run :
    (h n : ℕ) (rs : List TxStatus) (behind : List ℕ)
    → h + n ≤ length rs
    → take (2 * n) (drop (2 * h) (status_bytes rs ++ behind)) ≡ status_bytes (take n (drop h rs))
bytes-run zero zero rs behind p = refl
bytes-run zero (suc n) [] behind p = absurd (omega arith)
bytes-run zero (suc n) (r ∷ rs) behind p =
    let two : 2 * suc n ≡ suc (suc (2 * n)) = omega arith in
    ap (λ (k : ℕ). take k (status_bytes (r ∷ rs) ++ behind)) two
    ∙ ap (λ xs. r.cookie ∷ (r.queue + r.rix * 4 + r.tries * 16 + r.success * 128) ∷ xs)
        (bytes-run zero n rs behind (omega arith))
bytes-run (suc h) n [] behind p = absurd (omega arith)
bytes-run (suc h) n (r ∷ rs) behind p =
    let two : 2 * suc h ≡ suc (suc (2 * h)) = omega arith in
    ap (λ (k : ℕ). take (2 * n) (drop k (status_bytes (r ∷ rs) ++ behind))) two
    ∙ bytes-run h n rs behind (omega arith)

-- The octets of the reports that messages carry, two for each of as many as a message's `ext` says.
abbrev pub reported : List Rsp → List ℕ
reported [] = []
reported (m ∷ ms) = take (2 * m.ext) m.body ++ reported ms

-- One message joins the ring, about these reports.
record Joined (rs : List TxStatus) (u u' : Usb) : Type 0 where
  message : Rsp
  joined : messages u' ≡ messages u ++ message ∷ []
  kind : message.cmd ≡ rsp_txcomp
  told : take (2 * message.ext) message.body ≡ status_bytes rs
  valid : Fifo.IsValid u'
  sized : IsSized u'
  pending : u'.int_pending ≡ u.int_pending + 1

send_chunk-Joined :
    (s : Reports) (h n : ℕ) (u : Usb)
    → length s.cache ≡ tx_status_num
    → 2 ≤ length s.behind
    → h + n ≤ tx_status_num
    → Fifo.IsValid u
    → IsSized u
    → u.int_pending < int_rq_caches
    → Joined (take n (drop h s.cache)) u (send_chunk s h n u)
send_chunk-Joined s h n u slots more run v sized room =
    let len : ℕ = (n * 2 + 3) / 4 * 4 in
    let body : List ℕ = spliced s h in
    let small : len ≤ max_payload = omega (arith, run) in
    let given : len ≤ length body = omega (
      arith,
      run,
      more,
      slots,
      length-drop {0} (2 * h) (status_bytes s.cache ++ s.behind),
      length-append {0} (status_bytes s.cache) s.behind,
      length-status_bytes s.cache,
    ) in
    let (m, e, f) = send_cmd_to_host-messages len rsp_txcomp n body u v sized small given room in
    let sent = send_cmd_to_host-sent len rsp_txcomp n body u (tail_in len rsp_txcomp n body u v) in
    let c = composed-IsFilled len rsp_txcomp n body u v sized small given in
    record {
      message = m;
      joined = e;
      kind = f.type_is;
      told =
          ap (λ (k : ℕ). take (2 * k) m.body) f.ext_is
          ∙ sym (take-take (2 * n) len m.body (omega arith))
          ∙ ap (take (2 * n)) f.payload
          ∙ take-take (2 * n) len body (omega arith)
          ∙ bytes-run h n s.cache s.behind (omega (arith, slots));
      valid = send_cmd_to_host-IsValid len rsp_txcomp n body u v room;
      sized = subst IsSized (sym sent) (
          set-All (λ m. length m.body ≡ max_payload) u.int_buf u.int_tail_index
            (composed len rsp_txcomp n body u) c.slot sized);
      pending =
          ap (λ (u : Usb). u.int_pending) sent
          ∙ ap (λ b. if b then u.int_pending else u.int_pending + 1)
              (==-ne u.int_pending int_rq_caches (λ q. omega (arith, q, room)));
    }

-- What a flush adds to the messages for the host.
pub record Told (rs : List TxStatus) (u u' : Usb) : Type 0 where
  pub new : List Rsp
  pub joined : messages u' ≡ messages u ++ new
  pub kinds : All (λ m. m.cmd ≡ rsp_txcomp) new
  pub told : reported new ≡ status_bytes rs
  pub few : length new ≤ 2
  pub valid : Fifo.IsValid u'

Told-one : (rs : List TxStatus) (u u' : Usb) → Joined rs u u' → Told rs u u'
Told-one rs u u' j = record {
  new = j.message ∷ [];
  joined = j.joined;
  kinds = (j.kind, tt);
  told = append-nil _ ∙ j.told;
  few = omega arith;
  valid = j.valid;
}

Told-two :
    (rs ss : List TxStatus) (u u' u'' : Usb)
    → Joined rs u u'
    → Joined ss u' u''
    → Told (rs ++ ss) u u''
Told-two rs ss u u' u'' j k = record {
  new = j.message ∷ k.message ∷ [];
  joined =
      k.joined
      ∙ ap (λ ms. ms ++ k.message ∷ []) j.joined
      ∙ append_assoc (messages u) (j.message ∷ []) (k.message ∷ []);
  kinds = (j.kind, (k.kind, tt));
  told = ap₂ ◌++◌ j.told (append-nil _ ∙ k.told) ∙ sym (status_bytes-append rs ss);
  few = omega arith;
  valid = k.valid;
}

module _ (s : Reports) (v : IsInBounds s) (more : 2 ≤ length s.behind) (u : Fifo.IsValid s.usb)
    (sized : IsSized s.usb) (room : s.usb.int_pending + 2 ≤ int_rq_caches) where
  deliver-Told : Told (waiting s) s.usb (deliver s)
  deliver-Told = elim (dec_le s.pending 0) [
    | yes z ↦
        let e : s.pending ≡ 0 = omega arith in
        let t : (s.pending == 0) ≡ true = ground arith in
        let nothing : waiting s ≡ [] = rw e refl in
        rw t (record {
          new = [];
          joined = sym (append-nil (messages s.usb));
          kinds = tt;
          told = sym (ap status_bytes nothing);
          few = omega arith;
          valid = u;
        })
    | no nz ↦
        let t : (s.pending == 0) ≡ false = ground arith in
        let all : waiting s ≡ delivered s = waiting-delivered s v in
        elim (dec_le (s.head_idx + s.pending) tx_status_num) [
          | yes p ↦
              let e : goes_round s ≡ false = ltb-false _ _ p in
              let j =
                send_chunk-Joined s s.head_idx s.pending s.usb v.slots more p u sized
                  (omega arith) in
              rw t (rw all (rw e (Told-one _ _ _ j)))
          | no p ↦
              let e : goes_round s ≡ true = ltb-true _ _ (omega arith) in
              let first : ℕ = tx_status_num - s.head_idx in
              let j =
                send_chunk-Joined s s.head_idx first s.usb v.slots more (omega (arith, v.head_in)) u
                  sized (omega arith) in
              let k =
                send_chunk-Joined s 0 (s.head_idx + s.pending - tx_status_num)
                  (send_chunk s s.head_idx first s.usb) v.slots more
                  (omega (arith, v.head_in, v.pending_in)) j.valid j.sized
                  (omega (arith, j.pending)) in
              rw t (rw all (rw e (Told-two _ _ _ _ _ j k)))
        ]
  ]

-- A flush with fuel for three rounds returns, where the ring of messages is well-formed and has room
-- for two, and memory goes on for two octets behind the cache. It leaves no report, keeps the cache
-- well-formed, and appends at most two messages to those that wait for the host, all of them with
-- reports: in their first octets, twice as many as the header's `ext` says, stand the reports that
-- waited, each once and in order.
pub send_buffered_tx_status-delivers :
    (s : Reports) (fuel : ℕ)
    → IsValid s
    → 2 ≤ length s.behind
    → Fifo.IsValid s.usb
    → IsSized s.usb
    → s.usb.int_pending + 2 ≤ int_rq_caches
    → (s' : Reports) × (send_buffered_tx_status (suc (suc (suc fuel))) s ≡ some s')
      × (s'.pending ≡ 0)
      × IsValid s'
      × Told (waiting s) s.usb s'.usb
unfolding moved
send_buffered_tx_status-delivers s fuel v more u sized room = (
  moved s (deliver s) 0 ((s.head_idx + s.pending) % 30),
  send_buffered_tx_status-moved s fuel v.in_bounds,
  refl,
  record {
    in_bounds = record {
      slots = v.in_bounds.slots;
      head_in = omega arith;
      pending_in = omega arith;
    };
    tail_is = omega (arith, v.tail_is);
  },
  deliver-Told s v.in_bounds more u sized room,
)
