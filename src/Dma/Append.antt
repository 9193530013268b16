-- ===== src/Dma/Append.antt =====
-- `dma_put` refines appending to a list of packets.
use carl9170fw.Base.{
  ℕ, ◌<◌, ◌≡◌, ◌≢◌, refl, sym, ◌∙◌, ap, ap₂, List, [], ◌∷◌, ◌++◌, append-nil, map-append, some,
  length, All, All-append,
}
use carl9170fw.Dma.{Heap, Desc, Queue, put_tail, put, own_bits_hw}
use carl9170fw.Dma.Shape.{
  Packet, last_of, IsPacket, members, NotIn, Distinct, Apart, Agree, buffer, frame, frames, IsQueue,
  All-map, All-zip, Apart-sym, Distinct-append, members-append, Packets-frame, Packets-append,
  buffers-frame, frames-frame,
}
use carl9170fw.Dma.Cells.{last_of-ne}
use carl9170fw.Dma.Mark.{put_loop_lem}
use carl9170fw.Dma.Put.{
  marked, marked-first, Moved, put_tail-single, put_tail-multi, Moved-single, Moved-multi,
}

-- The packet at `d` has joined the queue behind the packets `ps`.
pub record Appended (h : Heap) (q : Queue) (ps : List Packet) (d : ℕ) (ds : List ℕ)
    (r : Heap × Queue) : Type 0 where
  pub queue : IsQueue r.0 r.1 (ps ++ (q.terminator, ds) ∷ [])
  pub carried : frames r.0 (ps ++ (q.terminator, ds) ∷ []) ≡ frames h ps ++ frame h (d, ds) ∷ []
  pub owned : All (λ x. (r.0 x).status ≡ own_bits_hw) (q.terminator ∷ ds)
  pub rest : (a : ℕ) → NotIn a (q.terminator ∷ d ∷ ds) → r.0 a ≡ h a

module _ (t : ℕ) (ms : List ℕ) (d : ℕ) (ds : List ℕ) (old : Distinct (t ∷ ms))
    (distinct : Distinct (d ∷ ds)) (apart : Apart (t ∷ ms) (d ∷ ds)) where
  -- The addresses that a queue holds are none of those that an exchange changes.
  pub away : All (λ a. NotIn a (t ∷ d ∷ ds)) ms
  away =
      All-zip (λ a. t ≢ a) (λ a. NotIn a (d ∷ ds)) (λ a. NotIn a (t ∷ d ∷ ds)) ms
        (λ a n n'. (λ e. n (sym e), n')) old.0 apart.1

  -- After an exchange the addresses are distinct again.
  pub joined-Distinct : Distinct (d ∷ (ms ++ t ∷ ds))
  joined-Distinct =
      let back = Apart-sym (t ∷ ms) (d ∷ ds) apart in
      (
        All-append (λ y. d ≢ y) ms (t ∷ ds) back.0.1 (back.0.0, distinct.0),
        Distinct-append ms (t ∷ ds) old.1 (apart.0.1, distinct.1)
            (All-map (λ a. NotIn a (t ∷ d ∷ ds)) (λ a. NotIn a (t ∷ ds)) ms (λ a n. (n.0, n.1.1))
              away),
      )

  pub away-Agree : (h h' : Heap) → ((a : ℕ) → NotIn a (t ∷ d ∷ ds) → h' a ≡ h a) → Agree h h' ms
  away-Agree h h' rest =
      All-map (λ a. NotIn a (t ∷ d ∷ ds)) (λ a. h' a ≡ h a) ms (λ a n. rest a n) away

module _ (h h' : Heap) (q : Queue) (ps : List Packet) (d : ℕ) (ds : List ℕ) (v : IsQueue h q ps)
    (distinct : Distinct (d ∷ ds)) (apart : Apart (q.terminator ∷ members ps) (d ∷ ds))
    (moved : Moved h h' q.terminator d ds) where
  abbrev t : ℕ
  t = q.terminator

  agree : Agree h h' (members ps)
  agree = away-Agree t (members ps) d ds v.distinct distinct apart h h' moved.rest

  Moved-IsQueue : IsQueue h' (record q { terminator = d }) (ps ++ (t, ds) ∷ [])
  Moved-IsQueue = record {
    linked =
        Packets-append h' q.head ps t ds d (Packets-frame h h' q.head ps t agree v.linked)
          moved.packet moved.back;
    distinct =
        rw (members-append ps (t, ds), append-nil ds)
          (joined-Distinct t (members ps) d ds v.distinct distinct apart);
  }

  Moved-frames : frames h' (ps ++ (t, ds) ∷ []) ≡ frames h ps ++ frame h (d, ds) ∷ []
  Moved-frames =
      map-append (frame h') ps ((t, ds) ∷ [])
      ∙ ap₂ (λ xs x. xs ++ x ∷ [])
          (frames-frame h h' ps (
            All-map (λ a. h' a ≡ h a) (λ a. buffer h' a ≡ buffer h a) (members ps)
              (λ a e. ap (λ (c : Desc). (c.data_addr, c.data_size)) e) agree))
          (ap₂ ◌∷◌ moved.first (buffers-frame h h' ds moved.others))

  Moved-Appended : Appended h q ps d ds (h', record q { terminator = d })
  Moved-Appended = record {
    queue = Moved-IsQueue;
    carried = Moved-frames;
    owned = moved.owned;
    rest = moved.rest;
  }

put_tail-Moved :
    (q : Queue) (d : ℕ) (ds : List ℕ) (h : Heap)
    → NotIn q.terminator (d ∷ ds)
    → Distinct (d ∷ ds)
    → IsPacket h (d, ds)
    → (h' : Heap) × (put_tail q d (marked d ds h) ≡ (h', record q { terminator = d }))
      × Moved h h' q.terminator d ds
put_tail-Moved q d [] h n distinct packet = (
  (_),
  put_tail-single q d (marked d [] h)
      (ap (λ (c : Desc). c.last_addr) (marked-first d [] h distinct)),
  Moved-single q.terminator d h n.0,
)
put_tail-Moved q d (x ∷ xs) h n distinct packet = (
  (_),
  put_tail-multi q d (marked d (x ∷ xs) h) (last_of x xs)
      (ap (λ (c : Desc). c.last_addr) (marked-first d (x ∷ xs) h distinct))
      (last_of-ne d x xs distinct),
  Moved-multi q.terminator d x xs h n distinct packet.1,
)

-- With a queue that holds the packets `ps` and a packet of other, distinct descriptors, `dma_put`
-- ends if its fuel exceeds the number of further descriptors. The queue then is well formed again
-- and carries the buffers that it carried, in order, and those of the new packet behind them. The
-- new packet belongs to the hardware, and no descriptor outside it and the terminator changes.
pub put-Appended :
    (fuel : ℕ) (q : Queue) (d : ℕ) (ds : List ℕ) (h : Heap) (ps : List Packet)
    → length ds < fuel
    → IsQueue h q ps
    → IsPacket h (d, ds)
    → Distinct (d ∷ ds)
    → Apart (q.terminator ∷ members ps) (d ∷ ds)
    → (r : Heap × Queue) × (put fuel q d h ≡ some r) × Appended h q ps d ds r
unfolding put
put-Appended fuel q d ds h ps f v packet distinct apart =
    let (h', e, moved) = put_tail-Moved q d ds h apart.0 distinct packet in
    (
      (h', record q { terminator = d }),
      rw
          (put_loop_lem fuel d d ds h (h d).total_len (last_of d ds) f refl packet.0 refl packet.1
            distinct)
          (ap some e),
      Moved-Appended h h' q ps d ds v distinct apart moved,
    )
