-- ===== src/Usb/Status.antt =====
-- `usb_status_in` packs the oldest messages that fit into the interrupt descriptor.
use carl9170fw.Base.{
  ℕ, zero, suc, ◌+◌, ◌-◌, ◌^◌, ◌≤◌, ◌<◌, ◌≡◌, ◌≢◌, refl, sym, ◌∙◌, ap, List, [], ◌∷◌, ◌++◌,
  append-nil, append_assoc, Option, some, none, arith, length, take, drop, All, ltb, if◌then◌else◌,
  ==-ne, true, false, Bool-cases, inl, inr, take-append, length-append, length-take, length-drop,
  sub32,
}
use carl9170fw.Ring.{length-window}
use carl9170fw.Usb.{
  Rsp, Usb, max_payload, bytes, blit, dequeue_int_buf, status_loop, blank, int_rq_caches,
}
use carl9170fw.Usb.Fifo.{IsValid, messages, dequeue_int_buf_refines, dequeue_int_buf-IsValid}

-- The messages that go out with `rem` bytes of room, and those that stay.
abbrev pub packed : ℕ → List Rsp → List Rsp
packed rem [] = []
packed rem (m ∷ ms) =
    let more = m ∷ packed (rem - (m.len + 4)) ms in if ltb rem (m.len + 8) then [] else more

abbrev pub left : ℕ → List Rsp → List Rsp
left rem [] = []
left rem (m ∷ ms) =
    let more = left (rem - (m.len + 4)) ms in if ltb rem (m.len + 8) then m ∷ ms else more

-- What a message occupies in the descriptor: its header and as much payload as it says.
abbrev pub image : List Rsp → List ℕ
image [] = []
image (m ∷ ms) = take (m.len + 4) (bytes m) ++ image ms

-- A message in a slot of the ring, that claims no more payload than it has.
abbrev pub IsMessage : Rsp → Type 0
IsMessage m = (length m.body ≡ max_payload) × (m.len ≤ max_payload)

-- What the loop has done when it stops, started with `rem` bytes of room behind `tlen`.
pub record Packed (rem tlen : ℕ) (payload : List ℕ) (u : Usb) (r : ℕ × List ℕ × Usb) : Type 0 where
  pub stays : messages r.2 ≡ left rem (messages u)
  pub valid : IsValid r.2
  pub copied : take r.0 r.1 ≡ take tlen payload ++ image (packed rem (messages u))
  pub within : r.0 ≤ tlen + rem
  pub grows : tlen ≤ r.0
  pub size : length r.1 ≡ length payload
  pub kept : r.2.int_desc_available ≡ u.int_desc_available

dequeue_int_buf-available :
    (space : ℕ) (u : Usb) → (dequeue_int_buf space u).1.int_desc_available ≡ u.int_desc_available
unfolding dequeue_int_buf
dequeue_int_buf-available space u = ground arith

blit-size :
    (buf : List ℕ) (off : ℕ) (src : List ℕ) (n : ℕ)
    → off + n ≤ length buf
    → n ≤ length src
    → length (blit buf off src n) ≡ length buf
blit-size buf off src n h k = omega (
  arith,
  length-append {0} (take off buf) (take n src ++ drop (off + n) buf),
  length-append {0} (take n src) (drop (off + n) buf),
  length-take {0} off buf,
  length-take {0} n src,
  length-drop {0} (off + n) buf,
)

blit-take :
    (buf : List ℕ) (off : ℕ) (src : List ℕ) (n : ℕ)
    → off + n ≤ length buf
    → n ≤ length src
    → take (off + n) (blit buf off src n) ≡ take off buf ++ take n src
blit-take buf off src n h k =
    let a : length (take off buf) ≡ off = omega (arith, length-take {0} off buf) in
    let b : length (take n src) ≡ n = omega (arith, length-take {0} n src) in
    let e : off + n ≡ length (take off buf) + (length (take n src) + 0) = omega arith in
    ap (λ (k : ℕ). take k (blit buf off src n)) e
    ∙ take-append (take off buf) (take n src ++ drop (off + n) buf) (length (take n src) + 0)
    ∙ ap (λ xs. take off buf ++ xs)
        (take-append (take n src) (drop (off + n) buf) 0 ∙ append-nil (take n src))

-- One message goes out: what the rest of the loop does, put behind it.
Packed-step :
    (rem tlen : ℕ) (payload : List ℕ) (u u' : Usb) (m : Rsp) (ms : List Rsp) (r : ℕ × List ℕ × Usb)
    → messages u ≡ m ∷ ms
    → messages u' ≡ ms
    → u'.int_desc_available ≡ u.int_desc_available
    → IsMessage m
    → ltb rem (m.len + 8) ≡ false
    → tlen + rem ≤ length payload
    → Packed (rem - (m.len + 4)) (tlen + (m.len + 4)) (blit payload tlen (bytes m) (m.len + 4)) u' r
    → Packed rem tlen payload u r
Packed-step rem tlen payload u u' m ms r e e' k good fits room p = record {
  stays = p.stays ∙ rw (e, e', fits);
  valid = p.valid;
  copied =
      p.copied
      ∙ rw (e, e', fits, blit-take payload tlen (bytes m) (m.len + 4) (ground arith) (ground arith))
          (append_assoc (take tlen payload) (take (m.len + 4) (bytes m)) _);
  within = ground (arith, p.within);
  grows = omega (arith, p.grows);
  size = p.size ∙ blit-size payload tlen (bytes m) (m.len + 4) (ground arith) (ground arith);
  kept = p.kept ∙ k;
}

status_loop-stop :
    (fuel rem tlen : ℕ) (payload : List ℕ) (u : Usb)
    → u.int_pending ≢ 0
    → (dequeue_int_buf rem u).0 ≡ none
    → status_loop (suc fuel) rem tlen payload u ≡ some (tlen, payload, (dequeue_int_buf rem u).1)
unfolding status_loop
status_loop-stop fuel rem tlen payload u n e = rw (==-ne u.int_pending 0 n, e)

status_loop-next :
    (fuel rem tlen : ℕ) (payload : List ℕ) (u : Usb) (m : Rsp)
    → u.int_pending ≢ 0
    → (dequeue_int_buf rem u).0 ≡ some m
    → ltb max_payload m.len ≡ false
    → status_loop (suc fuel) rem tlen payload u
      ≡ status_loop fuel
          (sub32 rem (m.len + 4))
          (tlen + (m.len + 4))
          (blit payload tlen (bytes m) (m.len + 4))
          (dequeue_int_buf rem u).1
unfolding status_loop
status_loop-next fuel rem tlen payload u m n e k = rw (==-ne u.int_pending 0 n, e, k)

-- The number of messages that wait is the length of their list.
length-messages : (u : Usb) (ms : List Rsp) → messages u ≡ ms → u.int_pending ≡ length ms
length-messages u ms e =
    sym (length-window blank int_rq_caches u.int_buf u.int_head_index u.int_pending)
    ∙ ap (λ xs. length xs) e

module _ (rem : ℕ) (u : Usb) (m : Rsp) (ms : List Rsp) (e : messages u ≡ m ∷ ms) where
  dequeued-big :
      ltb rem (m.len + 8) ≡ true
      → ◌≡◌ {A = Option Rsp × List Rsp}
          ((dequeue_int_buf rem u).0, messages (dequeue_int_buf rem u).1)
          (none, m ∷ ms)
  dequeued-big big = dequeue_int_buf_refines rem u ∙ rw (e, big)

  dequeued-fits :
      ltb rem (m.len + 8) ≡ false
      → ◌≡◌ {A = Option Rsp × List Rsp}
          ((dequeue_int_buf rem u).0, messages (dequeue_int_buf rem u).1)
          (some m, ms)
  dequeued-fits fits = dequeue_int_buf_refines rem u ∙ rw (e, fits)

-- On a well-formed ring whose messages claim no more than they have, and with a payload of at least
-- `tlen + rem` bytes, the loop of `usb_status_in` stops if its fuel exceeds the number of messages.
-- It has packed the longest run of oldest messages that fit, in order and byte for byte, behind the
-- first `tlen` bytes; the others stay in the ring, and no byte past `tlen + rem` is used.
pub status_loop-Packed :
    (fuel rem tlen : ℕ) (payload : List ℕ) (u : Usb) (ms : List Rsp)
    → messages u ≡ ms
    → u.int_pending < fuel
    → IsValid u
    → All IsMessage ms
    → tlen + rem ≤ length payload
    → rem < 2 ^ 31
    → (r : ℕ × List ℕ × Usb) × (status_loop fuel rem tlen payload u ≡ some r)
      × Packed rem tlen payload u r
status_loop-Packed zero rem tlen payload u ms e f v good room small = absurd (omega arith)
status_loop-Packed (suc fuel) rem tlen payload u [] e f v good room small = (
  (tlen, payload, u),
  unfold status_loop in simp (length-messages u [] e),
  record {
    stays = rw e;
    valid = v;
    copied = rw e (sym (append-nil (take tlen payload)));
    within = omega arith;
    grows = omega arith;
    size = refl;
    kept = refl;
  },
)
status_loop-Packed (suc fuel) rem tlen payload u (m ∷ ms) e f v good room small =
    elim (Bool-cases (ltb rem (m.len + 8))) [
      | inl big ↦
          let d = dequeued-big rem u m ms e big in
          (
            (tlen, payload, (dequeue_int_buf rem u).1),
            status_loop-stop fuel rem tlen payload u some_wait (ap (λ p. p.0) d),
            record {
              stays = ap (λ p. p.1) d ∙ rw (e, big);
              valid = dequeue_int_buf-IsValid rem u v;
              copied = rw (e, big) (sym (append-nil (take tlen payload)));
              within = omega arith;
              grows = omega arith;
              size = refl;
              kept = dequeue_int_buf-available rem u;
            },
          )
      | inr fits ↦
          let d = dequeued-fits rem u m ms e fits in
          let u' = (dequeue_int_buf rem u).1 in
          let (r, runs, p) =
            status_loop-Packed fuel (rem - (m.len + 4)) (tlen + (m.len + 4))
              (blit payload tlen (bytes m) (m.len + 4)) u' ms (ap (λ p. p.1) d)
              (fewer (ap (λ p. p.1) d)) (dequeue_int_buf-IsValid rem u v) good.1 (next_room fits)
              (omega arith) in
          (
            r,
            status_loop-next fuel rem tlen payload u m some_wait (ap (λ p. p.0) d) (ground arith)
                ∙ ap
                    (λ k.
                      status_loop fuel k (tlen + (m.len + 4))
                        (blit payload tlen (bytes m) (m.len + 4)) u')
                    (no_wrap fits)
                ∙ runs,
            Packed-step rem tlen payload u u' m ms r e (ap (λ p. p.1) d)
                (dequeue_int_buf-available rem u) good.0 fits room p,
          )
    ]
  where
    some_wait : u.int_pending ≢ 0
    some_wait = omega (arith, length-messages u (m ∷ ms) e)

    fewer : messages (dequeue_int_buf rem u).1 ≡ ms → (dequeue_int_buf rem u).1.int_pending < fuel
    fewer e' =
        omega (arith, length-messages u (m ∷ ms) e, length-messages (dequeue_int_buf rem u).1 ms e')

    no_wrap : ltb rem (m.len + 8) ≡ false → sub32 rem (m.len + 4) ≡ rem - (m.len + 4)
    no_wrap fits = ground arith

    next_room :
        ltb rem (m.len + 8) ≡ false
        → tlen + (m.len + 4) + (rem - (m.len + 4))
          ≤ length (blit payload tlen (bytes m) (m.len + 4))
    next_room fits =
        ground (arith, blit-size payload tlen (bytes m) (m.len + 4) (ground arith) (ground arith))
