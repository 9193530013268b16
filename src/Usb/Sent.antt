-- ===== src/Usb/Sent.antt =====
-- All of `usb_status_in`: the interrupt packet joins the up queue.
use carl9170fw.Base.{
  ℕ, ◌+◌, ◌-◌, ◌≡◌, ◌≢◌, ◌≤◌, ◌<◌, refl, sym, ◌∙◌, ap, ap₂, subst, List, [], ◌∷◌, ◌++◌, length,
  take, length-append, length-take, All, Option, some, ◌>>=◌, true, false, ◌==◌, ==-ne, ==-self,
  ltb, if◌then◌else◌, arith,
}
use carl9170fw.Dma
use carl9170fw.Dma.{Heap, Desc, Queue, update, block_size, own_bits_hw}
use carl9170fw.Dma.Shape.{
  Packet, IsQueue, IsPacket, Agree, NotIn, All-map, members, frames, buffer, Packets-frame,
  frames-frame,
}
use carl9170fw.Dma.Append.{put-Appended}
use carl9170fw.Usb.{
  Rsp, Usb, Host, bytes, int_magic_header_size, fill_status, usb_status_in, reset_in,
  up_dma_trigger, trigger_out,
}
use carl9170fw.Usb.Fifo.{IsValid, messages}
use carl9170fw.Usb.Longest.{IsLongest, packed-IsLongest}
use carl9170fw.Usb.Status.{packed, left, image, IsMessage, status_loop-Packed}

-- A write to a descriptor that is in no packet of a queue.
fill-Agree : (d tlen : ℕ) (h : Heap) (xs : List ℕ) → NotIn d xs → Agree h (fill_status d tlen h) xs
unfolding fill_status
fill-Agree d tlen h xs n =
    All-map (λ x. d ≢ x) (λ x. fill_status d tlen h x ≡ h x) xs (λ x ne. rw (==-ne d x ne) refl) n

-- The interrupt descriptor, with the queue that it goes to.
pub record IsReady (s : Host) (ps : List Packet) : Type 0 where
  pub queue : IsQueue s.heap s.up_queue ps
  pub alone : (s.heap s.int_desc).last_addr ≡ s.int_desc
  pub apart : NotIn s.int_desc (s.up_queue.terminator ∷ members ps)

-- The descriptor is filled and put into the queue.
put-filled :
    (s : Host) (ps : List Packet) (tlen : ℕ)
    → IsReady s ps
    → (r : Heap × Queue) × (Dma.put 1 s.up_queue s.int_desc (fill_status s.int_desc tlen s.heap)
        ≡ some r)
      × IsQueue r.0 r.1 (ps ++ (s.up_queue.terminator, []) ∷ [])
      × (frames r.0 (ps ++ (s.up_queue.terminator, []) ∷ [])
          ≡ frames s.heap ps ++ (((s.heap s.int_desc).data_addr, tlen) ∷ []) ∷ [])
unfolding fill_status
put-filled s ps tlen h =
    let d : ℕ = s.int_desc in
    let h1 : Heap = fill_status d tlen s.heap in
    let agree : Agree s.heap h1 (members ps) = fill-Agree d tlen s.heap (members ps) h.apart.1 in
    let filled : IsQueue h1 s.up_queue ps = record {
      linked =
          Packets-frame s.heap h1 s.up_queue.head ps s.up_queue.terminator agree h.queue.linked;
      distinct = h.queue.distinct;
    } in
    let packet : IsPacket h1 (d, []) = (rw (==-self d) h.alone, tt) in
    let (r, runs, a) =
      put-Appended 1 s.up_queue d [] h1 ps (omega arith) filled packet (tt, tt)
        (All-map (λ x. d ≢ x) (λ x. NotIn x (d ∷ [])) (s.up_queue.terminator ∷ members ps)
          (λ x ne. (λ e. ne (sym e), tt)) h.apart) in
    (
      r,
      runs,
      a.queue,
      a.carried
          ∙ ap₂ (λ xs x. xs ++ x ∷ [])
              (frames-frame s.heap h1 ps (
                All-map (λ x. h1 x ≡ s.heap x) (λ x. buffer h1 x ≡ buffer s.heap x) (members ps)
                  (λ x e. ap (λ (c : Desc). (c.data_addr, c.data_size)) e) agree))
              (rw (==-self d) refl),
    )

-- What `usb_status_in` has done when messages waited.
pub record Sent (s : Host) (ps : List Packet) (ms : List Rsp) (s' : Host) : Type 0 where
  pub tlen : ℕ
  pub queue : IsQueue s'.heap s'.up_queue (ps ++ (s.up_queue.terminator, []) ∷ [])
  pub carried :
      frames s'.heap (ps ++ (s.up_queue.terminator, []) ∷ [])
      ≡ frames s.heap ps ++ (((s.heap s.int_desc).data_addr, tlen) ∷ []) ∷ []
  pub sent : List Rsp
  pub split : IsLongest 304 sent (messages s'.usb) ms
  pub content : take tlen s'.payload ≡ take 12 s.payload ++ image sent
  pub not_empty : int_magic_header_size < tlen
  pub within : tlen ≤ block_size
  pub taken : s'.usb.int_desc_available ≡ false
  pub told : s'.events ≡ s.events ++ reset_in ∷ up_dma_trigger ∷ trigger_out ∷ []

-- A message always fits into an empty packet.
packed-first :
    (m : Rsp) (ms : List Rsp) (payload r : List ℕ) (n : ℕ)
    → IsMessage m
    → take n r ≡ take 12 payload ++ image (packed 308 (m ∷ ms))
    → 12 ≤ length payload
    → n ≤ length r
    → 12 < n
packed-first m ms payload r n good e long fits =
    let room : ltb 308 (m.len + 8) ≡ false = ground (arith, good.1) in
    let first : image (packed 308 (m ∷ ms))
        ≡ take (m.len + 4) (bytes m) ++ image (packed (308 - (m.len + 4)) ms) =
      rw room refl in
    let a : length (take n r) ≡ length (take 12 payload ++ image (packed 308 (m ∷ ms))) =
      ap (λ xs. length xs) e in
    let b : length (image (packed 308 (m ∷ ms)))
        ≡ length (take (m.len + 4) (bytes m) ++ image (packed (308 - (m.len + 4)) ms)) =
      ap (λ xs. length xs) first in
    omega (
      arith,
      a,
      b,
      length-take {0} n r,
      length-take {0} 12 payload,
      length-take {0} (m.len + 4) (bytes m),
      length-append {0} (take 12 payload) (image (packed 308 (m ∷ ms))),
      length-append {0} (take (m.len + 4) (bytes m)) (image (packed (308 - (m.len + 4)) ms)),
      good.0,
      good.1,
    )

IsValid-taken : (u : Usb) → IsValid u → IsValid (record u { int_desc_available = false })
IsValid-taken u v = record {
  slots = v.slots;
  head_in = v.head_in;
  pending_in = v.pending_in;
  tail_is = v.tail_is;
}

-- With the interrupt descriptor available and apart from the up queue, and on a well-formed ring where
-- messages wait that claim no more than they have, `usb_status_in` returns if its fuel exceeds
-- their number. The descriptor's buffer has joined the up queue behind all that it carried, at the
-- length that is filled: behind the twelve octets of the header stand, in order, the longest run of
-- oldest messages that has at most 304 octets, four less than there are, and at least one; the
-- others stay in the ring. The descriptor counts as taken.
pub usb_status_in-Sent :
    (fuel : ℕ) (s : Host) (ps : List Packet) (m : Rsp) (ms : List Rsp)
    → s.usb.int_desc_available ≡ true
    → messages s.usb ≡ m ∷ ms
    → s.usb.int_pending < fuel
    → IsValid s.usb
    → All IsMessage (m ∷ ms)
    → block_size ≤ length s.payload
    → IsReady s ps
    → (s' : Host) × (usb_status_in fuel s ≡ some s') × Sent s ps (m ∷ ms) s'
unfolding usb_status_in
usb_status_in-Sent fuel s ps m ms available e f v good long ready =
    let u : Usb = record s.usb { int_desc_available = false } in
    let (r, runs, p) =
      status_loop-Packed fuel 308 12 s.payload u (m ∷ ms) e f (IsValid-taken s.usb v) good
        (omega arith) (omega arith) in
    let content : take r.0 r.1 ≡ take 12 s.payload ++ image (packed 308 (m ∷ ms)) =
      p.copied ∙ ap (λ ms. take 12 s.payload ++ image (packed 308 ms)) e in
    let more : 12 < r.0 =
      packed-first m ms s.payload r.1 r.0 good.0 content (omega (arith, long))
        (omega (arith, p.within, p.size, long)) in
    let (q, puts, queue, carried) = put-filled s ps r.0 ready in
    let some_sent : (r.0 == int_magic_header_size) ≡ false = ground (arith, more) in
    let finish : ℕ × List ℕ × Usb → Heap × Queue → Option Host = λ r q. some (record s {
      usb = r.2;
      heap = q.0;
      up_queue = q.1;
      payload = r.1;
      events = s.events ++ reset_in ∷ up_dma_trigger ∷ trigger_out ∷ [];
    }) in
    let close : ℕ × List ℕ × Usb → Option Host = λ r.
      if r.0 == int_magic_header_size
      then some (record s {
        usb = record r.2 { int_desc_available = true };
        payload = r.1;
        events = s.events ++ reset_in ∷ [];
      })
      else Dma.put 1 s.up_queue s.int_desc (fill_status s.int_desc r.0 s.heap) >>= finish r in
    let s' : Host = record s {
      usb = r.2;
      heap = q.0;
      up_queue = q.1;
      payload = r.1;
      events = s.events ++ reset_in ∷ up_dma_trigger ∷ trigger_out ∷ [];
    } in
    let sends : close r ≡ some s' =
      rw some_sent (ap (λ (o : Option (Heap × Queue)). o >>= finish r) puts) in
    (
      s',
      rw available (ap (λ (o : Option (ℕ × List ℕ × Usb)). o >>= close) runs ∙ sends),
      record {
        tlen = r.0;
        queue = queue;
        carried = carried;
        sent = packed 308 (m ∷ ms);
        split =
            subst (λ rest. IsLongest 304 (packed 308 (m ∷ ms)) rest (m ∷ ms))
              (sym (p.stays ∙ ap (left 308) e)) (packed-IsLongest 308 (m ∷ ms) (omega arith));
        content = content;
        not_empty = more;
        within = omega (arith, p.within);
        taken = p.kept;
        told = refl;
      },
    )
