-- ===== src/Dma/Reclaim.antt =====
-- `dma_reclaim` hands the descriptors of a packet back to a queue as empty ones, one by one.
use carl9170fw.Base.{
  ℕ, ◌<◌, ◌≡◌, ◌≢◌, refl, sym, ◌∙◌, ap, ap₂, List, [], ◌∷◌, ◌++◌, map, map-append, some, length,
  All,
}
use carl9170fw.Dma.{
  Heap, Desc, Queue, reclaim, reclaim_tail, own_bits_hw, block_size, exchange, set_next, set_last,
}
use carl9170fw.Dma.Cells.{
  set_next_self, set_next-ne, set_next_keeps, set_last_self, set_last-ne, exchange-term,
  exchange-other, Linked-set_next,
}
use carl9170fw.Dma.Shape.{
  Packet, last_of, Linked, IsPacket, members, NotIn, Distinct, Apart, Agree, Buffer, buffer, frame,
  frames, IsQueue, All-map, All-zip, All-last_of, Packets-frame, frames-frame, Linked-next,
}
use carl9170fw.Dma.Mark.{
  mark_all, reclaim_mark, mark_all-mem, mark_all-other, mark_all-next, reclaim_loop_lem,
}
use carl9170fw.Dma.Append.{joined-Distinct, away-Agree}
use carl9170fw.Dma.Singles.{
  singles, empty_frame, IsFree, members-singles, Packets-singles, Packets-join, frames-singles,
  Linked-copied, last_of-copied,
}

-- The packet of `d` has been reclaimed into the queue behind the packets `ps`.
pub record Reclaimed (h : Heap) (q : Queue) (ps : List Packet) (d : ℕ) (ds : List ℕ)
    (r : Heap × Queue) : Type 0 where
  pub queue : IsQueue r.0 r.1 (ps ++ singles (q.terminator ∷ ds))
  pub carried :
      frames r.0 (ps ++ singles (q.terminator ∷ ds)) ≡ frames h ps ++ map (empty_frame h) (d ∷ ds)
  pub free : All (λ x. IsFree (r.0 x)) (q.terminator ∷ ds)
  pub rest : (a : ℕ) → NotIn a (q.terminator ∷ d ∷ ds) → r.0 a ≡ h a

module _ (t d : ℕ) (ds : List ℕ) (h : Heap) (apart : NotIn t (d ∷ ds))
    (distinct : Distinct (d ∷ ds)) (linked : Linked h d ds) where
  abbrev last : ℕ
  last = last_of d ds

  abbrev m : Heap
  m = mark_all reclaim_mark (d ∷ ds) h

  abbrev h1 : Heap
  h1 = set_next last d m

  abbrev h2 : Heap
  h2 = set_last d t h1

  abbrev after : Heap
  after = exchange t d (record (h2 d) { status = 0 }) h2

  marks : All (λ y. m y ≡ reclaim_mark y (h y)) (d ∷ ds)
  marks = mark_all-mem reclaim_mark (d ∷ ds) h distinct

  at_t : after t ≡ record (h1 d) { status = own_bits_hw; last_addr = t }
  at_t =
      exchange-term t d (record (h2 d) { status = 0 }) h2
      ∙ ap (λ (c : Desc). let r : Desc = record c { status = own_bits_hw } in r)
          (set_last_self d t h1)

  at_others : All (λ y. after y ≡ h1 y) ds
  at_others =
      All-zip (λ y. t ≢ y) (λ y. d ≢ y) (λ y. after y ≡ h1 y) ds
        (λ y n n'.
          exchange-other t d (record (h2 d) { status = 0 }) h2 y n n' ∙ set_last-ne d t h1 y n')
        apart.1 distinct.0

  -- What the loop writes stands in the packet at last, but for the links.
  fields_t :
      ◌≡◌ {A = Desc}
        (record (after t) { next_addr = 0 })
        (record (reclaim_mark t (h d)) { next_addr = 0 })
  fields_t =
      ap (λ (c : Desc). let r : Desc = record c { next_addr = 0 } in r) at_t
      ∙ ap (λ (c : Desc). let r : Desc = record c { status = own_bits_hw; last_addr = t } in r)
          (set_next_keeps last d m d 0)
      ∙ ap
          (λ (c : Desc).
            let r : Desc = record c { status = own_bits_hw; last_addr = t; next_addr = 0 } in r)
          marks.0

  fields_others :
      All
        (λ y.
          ◌≡◌ {A = Desc}
            (record (after y) { next_addr = 0 })
            (record (reclaim_mark y (h y)) { next_addr = 0 }))
        ds
  fields_others =
      All-zip (λ y. after y ≡ h1 y) (λ y. m y ≡ reclaim_mark y (h y))
        (λ y.
          ◌≡◌ {A = Desc} (record (after y) { next_addr = 0 })
            (record (reclaim_mark y (h y)) { next_addr = 0 }))
        ds
        (λ y e e'.
          ap (λ (c : Desc). let r : Desc = record c { next_addr = 0 } in r) e
          ∙ set_next_keeps last d m y 0
          ∙ ap (λ (c : Desc). let r : Desc = record c { next_addr = 0 } in r) e')
        at_others marks.1

  after-Linked : Linked after t ds
  after-Linked = Linked-copied h1 after d t ds (ap (λ (c : Desc). c.next_addr) at_t) at_others (
      Linked-set_next d m d ds distinct
        (Linked-next h m d ds (mark_all-next reclaim_mark (λ b c. refl) (d ∷ ds) h) linked))

  after-back : (after (last_of t ds)).next_addr ≡ d
  after-back =
      last_of-copied h1 after d t ds (ap (λ (c : Desc). c.next_addr) at_t) at_others
      ∙ ap (λ (c : Desc). c.next_addr) (set_next_self last d m)

  after_self : All (λ x. (after x).last_addr ≡ x) (t ∷ ds)
  after_self = (
    ap (λ (c : Desc). c.last_addr) fields_t,
    All-map
        (λ y.
          ◌≡◌ {A = Desc} (record (after y) { next_addr = 0 })
            (record (reclaim_mark y (h y)) { next_addr = 0 }))
        (λ y. (after y).last_addr ≡ y) ds (λ y e. ap (λ (c : Desc). c.last_addr) e) fields_others,
  )

  IsFree-after : All (λ x. IsFree (after x)) (t ∷ ds)
  IsFree-after = (
    IsFree-of t (h d) fields_t,
    All-map
        (λ y.
          ◌≡◌ {A = Desc} (record (after y) { next_addr = 0 })
            (record (reclaim_mark y (h y)) { next_addr = 0 }))
        (λ y. IsFree (after y)) ds (λ y e. IsFree-of y (h y) e) fields_others,
  )
    where
      IsFree-of :
          (y : ℕ) (c : Desc)
          → ◌≡◌ {A = Desc}
              (record (after y) { next_addr = 0 })
              (record (reclaim_mark y c) { next_addr = 0 })
          → IsFree (after y)
      IsFree-of y c e = (
        ap (λ (c : Desc). c.status) e,
        ap (λ (c : Desc). c.ctrl) e,
        ap (λ (c : Desc). c.data_size) e,
        ap (λ (c : Desc). c.total_len) e,
      )

  after-frames : frames after (singles (t ∷ ds)) ≡ map (empty_frame h) (d ∷ ds)
  after-frames =
      ap₂ (λ (b : Buffer) bs. (b ∷ []) ∷ bs)
        (ap (λ (c : Desc). (c.data_addr, c.data_size)) fields_t)
        (frames-singles h after ds (
          All-map
            (λ y.
              ◌≡◌ {A = Desc} (record (after y) { next_addr = 0 })
                (record (reclaim_mark y (h y)) { next_addr = 0 }))
            (λ y. buffer after y ≡ ((h y).data_addr, block_size)) ds
            (λ y e. ap (λ (c : Desc). (c.data_addr, c.data_size)) e) fields_others))

  after-rest : (a : ℕ) → NotIn a (t ∷ d ∷ ds) → after a ≡ h a
  after-rest a n =
      exchange-other t d (record (h2 d) { status = 0 }) h2 a (λ e. n.0 (sym e)) (λ e. n.1.0 (sym e))
      ∙ set_last-ne d t h1 a (λ e. n.1.0 (sym e))
      ∙ set_next-ne last d m a (λ e. All-last_of (λ y. a ≢ y) d ds n.1 (sym e))
      ∙ mark_all-other reclaim_mark (d ∷ ds) h a n.1

-- With a queue that holds the packets `ps` and a packet of other, distinct descriptors,
-- `dma_reclaim` ends if its fuel exceeds the number of further descriptors. The queue then is well
-- formed again: behind what it carried stands each block of the packet on its own, at its full
-- size and in order, and each new descriptor is empty and belongs to the hardware. No descriptor
-- outside the packet and the terminator changes.
pub reclaim-Reclaimed :
    (fuel : ℕ) (q : Queue) (d : ℕ) (ds : List ℕ) (h : Heap) (ps : List Packet)
    → length ds < fuel
    → IsQueue h q ps
    → IsPacket h (d, ds)
    → Distinct (d ∷ ds)
    → Apart (q.terminator ∷ members ps) (d ∷ ds)
    → (r : Heap × Queue) × (reclaim fuel q d h ≡ some r) × Reclaimed h q ps d ds r
unfolding reclaim reclaim_tail
reclaim-Reclaimed fuel q d ds h ps f v packet distinct apart = (
  (h', record q { terminator = d }),
  rw (packet.0, reclaim_loop_lem fuel (last_of d ds) d ds h f refl packet.1 distinct) refl,
  record {
    queue = record {
      linked =
          Packets-join h' q.head ps (singles (q.terminator ∷ ds)) q.terminator d
            (Packets-frame h h' q.head ps q.terminator agree v.linked)
            (Packets-singles h' q.terminator ds d
              (after-Linked q.terminator d ds h apart.0 distinct packet.1)
              (after_self q.terminator d ds h apart.0 distinct packet.1)
              (after-back q.terminator d ds h apart.0 distinct packet.1));
      distinct =
          rw (members-singles ps (q.terminator ∷ ds))
            (joined-Distinct q.terminator (members ps) d ds v.distinct distinct apart);
    };
    carried =
        map-append (frame h') ps (singles (q.terminator ∷ ds))
        ∙ ap₂ ◌++◌
            (frames-frame h h' ps (
              All-map (λ a. h' a ≡ h a) (λ a. buffer h' a ≡ buffer h a) (members ps)
                (λ a e. ap (λ (c : Desc). (c.data_addr, c.data_size)) e) agree))
            (after-frames q.terminator d ds h apart.0 distinct packet.1);
    free = IsFree-after q.terminator d ds h apart.0 distinct packet.1;
    rest = after-rest q.terminator d ds h apart.0 distinct packet.1;
  },
)
  where
    h' : Heap
    h' = after q.terminator d ds h apart.0 distinct packet.1

    agree : Agree h h' (members ps)
    agree =
        away-Agree q.terminator (members ps) d ds v.distinct distinct apart h h'
          (after-rest q.terminator d ds h apart.0 distinct packet.1)
