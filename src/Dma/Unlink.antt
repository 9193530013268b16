-- ===== src/Dma/Unlink.antt =====
-- `dma_unlink_head` takes the first packet off a queue.
use carl9170fw.Base.{
  ℕ, ◌≡◌, ◌≢◌, refl, sym, ◌∙◌, ap, subst, fun_ext, List, [], ◌∷◌, map, Option, some, none, ==-self,
  ==-ne, All-right,
}
use carl9170fw.Dma.{Heap, Desc, Queue, unlink_head, set_next, set_last}
use carl9170fw.Dma.Cells.{
  set_next_self, set_next-ne, set_next-last, set_last-ne, set_last-last, set_last-next,
  set_last-buffer, set_next-buffer, Linked-set_next,
}
use carl9170fw.Dma.Shape.{
  Packet, last_of, IsPacket, members, NotIn, Agree, buffer, frame, frames, frames-frame, IsQueue,
  All-map, All-last_of, Distinct-left, Distinct-right, Distinct-Apart, Packets-frame, Linked-next,
}

-- On an empty queue there is nothing to take, and nothing changes.
pub unlink_head-empty : (q : Queue) (h : Heap) → IsQueue h q [] → unlink_head q h ≡ (none, h, q)
unfolding unlink_head
unlink_head-empty q h v = rw (v.linked, ==-self q.terminator)

-- What is left after `dma_unlink_head` on a queue that starts with the packet `p`.
pub record Unlinked (h : Heap) (q : Queue) (p : Packet) (ps : List Packet)
    (r : Option ℕ × Heap × Queue) : Type 0 where
  pub taken : r.0 ≡ some p.0
  pub queue : IsQueue r.1 r.2 ps
  pub carried : frames r.1 ps ≡ frames h ps
  pub packet : IsPacket r.1 p
  pub same : frame r.1 p ≡ frame h p
  pub ends : (r.1 (last_of p.0 p.1)).next_addr ≡ last_of p.0 p.1
  pub rest : (a : ℕ) → a ≢ last_of p.0 p.1 → r.1 a ≡ h a

module _ (h : Heap) (q : Queue) (d : ℕ) (ds : List ℕ) (ps : List Packet)
    (v : IsQueue h q ((d, ds) ∷ ps)) where
  abbrev last : ℕ
  last = last_of d ds

  abbrev after : Heap
  after = set_last last last (set_next last last h)

  pub unlink_head-some : unlink_head q h ≡ (some d, after, record q { head = (h last).next_addr })
  unfolding unlink_head
  unlink_head-some = simp (
    v.linked.0,
    ==-ne d q.terminator (λ e. v.distinct.0.0 (sym e)),
    v.linked.1.0,
    set_next-last last last h d,
  )

  after-other : (a : ℕ) → a ≢ last → after a ≡ h a
  after-other a n =
      set_last-ne last last (set_next last last h) a (λ e. n (sym e))
      ∙ set_next-ne last last h a (λ e. n (sym e))

  after-buffer : (a : ℕ) → buffer after a ≡ buffer h a
  after-buffer a =
      set_last-buffer last last (set_next last last h) a ∙ set_next-buffer last last h a

  agree : Agree h after (members ps)
  agree =
      let behind = Distinct-Apart (d ∷ ds) (members ps) v.distinct.1 in
      All-map (λ a. last ≢ a) (λ a. after a ≡ h a) (members ps)
        (λ a n. after-other a (λ e. n (sym e)))
        (All-last_of (λ x. NotIn x (members ps)) d ds behind)

  unlinked : Unlinked h q (d, ds) ps (some d, after, record q { head = (h last).next_addr })
  unlinked = record {
    taken = refl;
    queue = record {
      linked = Packets-frame h after (h last).next_addr ps q.terminator agree v.linked.2;
      distinct = (
        All-right (λ x. q.terminator ≢ x) (d ∷ ds) (members ps) v.distinct.0,
        Distinct-right (d ∷ ds) (members ps) v.distinct.1,
      );
    };
    carried = frames-frame h after ps (
        All-map (λ a. after a ≡ h a) (λ a. buffer after a ≡ buffer h a) (members ps)
          (λ a e. after-buffer a) agree);
    packet = (
      set_last-last last last (set_next last last h) d (set_next-last last last h d ∙ v.linked.1.0),
      Linked-next (set_next last last h) after d ds (set_last-next last last (set_next last last h))
          (Linked-set_next last h d ds (Distinct-left (d ∷ ds) (members ps) v.distinct.1)
            v.linked.1.1),
    );
    same = ap (λ f. map f (d ∷ ds)) (fun_ext after-buffer);
    ends =
        set_last-next last last (set_next last last h) last
        ∙ ap (λ (c : Desc). c.next_addr) (set_next_self last last h);
    rest = after-other;
  }

-- On a well-formed queue whose first packet is `p`, `dma_unlink_head` returns the first descriptor
-- of `p`. The queue is left with the other packets, in order and with their buffers, and is well
-- formed; the packet taken off keeps its descriptors and buffers, and ends in itself. Only its last
-- descriptor has changed.
pub unlink_head-Unlinked :
    (h : Heap) (q : Queue) (p : Packet) (ps : List Packet)
    → IsQueue h q (p ∷ ps)
    → Unlinked h q p ps (unlink_head q h)
unlink_head-Unlinked h q (d, ds) ps v =
    subst (Unlinked h q (d, ds) ps) (sym (unlink_head-some h q d ds ps v)) (unlinked h q d ds ps v)
