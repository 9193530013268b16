-- ===== src/Dma/Put.antt =====
-- `dma_put` appends a packet to a queue, without touching the packets that stand there.
use carl9170fw.Base.{ℕ, ◌≡◌, ◌≢◌, refl, sym, ◌∙◌, ap, List, [], ◌∷◌, arith, All, ==-self, ==-ne}
use carl9170fw.Dma.{Heap, Desc, Queue, put_tail, own_bits_hw, exchange, set_next, set_last, disown}
use carl9170fw.Dma.Cells.{
  set_next_self, set_next-ne, set_next-last, set_next_keeps, Linked-set_next, set_last_self,
  set_last-ne, exchange-disown, exchange-other,
}
use carl9170fw.Dma.Shape.{
  last_of, Linked, IsPacket, NotIn, Distinct, buffer, All-map, All-zip, All-last_of, Linked-next,
  Linked-frame,
}
use carl9170fw.Dma.Mark.{mark_all, put_mark, mark_all-mem, mark_all-other, mark_all-next}

module _ (q : Queue) (d : ℕ) (h : Heap) where
  -- A packet of one descriptor: its copy in the terminator is its own last one.
  pub put_tail-single :
      (h d).last_addr ≡ d
      → let h2 = set_last d q.terminator (set_next d d h) in
        put_tail q d h ≡ (exchange q.terminator d (disown (h2 d)) h2, record q { terminator = d })
  unfolding put_tail
  put_tail-single e = rw (e, set_next-last, e, ==-self d)

  pub put_tail-multi :
      (l : ℕ)
      → (h d).last_addr ≡ l
      → l ≢ d
      → put_tail q d h
        ≡ (exchange q.terminator d (disown (h d)) (set_next l d h), record q { terminator = d })
  unfolding put_tail
  put_tail-multi l e n = simp (e, ==-ne l d n, set_next-ne l d h d n)

-- What `dma_put` leaves in memory: the packet from `d` on has moved to the terminator `t` and
-- ends at `d`, with its buffers, its length and all of it owned by the hardware.
pub record Moved (h h' : Heap) (t d : ℕ) (ds : List ℕ) : Type 0 where
  pub first : buffer h' t ≡ buffer h d
  pub others : All (λ x. buffer h' x ≡ buffer h x) ds
  pub packet : IsPacket h' (t, ds)
  pub back : (h' (last_of t ds)).next_addr ≡ d
  pub owned : All (λ x. (h' x).status ≡ own_bits_hw) (t ∷ ds)
  pub sized : All (λ x. (h' x).total_len ≡ (h d).total_len) (t ∷ ds)
  pub rest : (a : ℕ) → NotIn a (t ∷ d ∷ ds) → h' a ≡ h a

abbrev pub marked : ℕ → List ℕ → Heap → Heap
marked d ds h = mark_all (put_mark (h d).total_len (last_of d ds)) (d ∷ ds) h

pub marked-first :
    (d : ℕ) (ds : List ℕ) (h : Heap)
    → Distinct (d ∷ ds)
    → marked d ds h d ≡ put_mark (h d).total_len (last_of d ds) d (h d)
marked-first d ds h n = (mark_all-mem (put_mark (h d).total_len (last_of d ds)) (d ∷ ds) h n).0

pub Moved-single :
    (t d : ℕ) (h : Heap)
    → t ≢ d
    → let h2 = set_last d t (set_next d d (marked d [] h)) in
      Moved h (exchange t d (disown (h2 d)) h2) t d []
Moved-single t d h apart = record {
  first = ap (λ (c : Desc). (c.data_addr, c.data_size)) at_t;
  others = tt;
  packet = (ap (λ (c : Desc). c.last_addr) at_t, tt);
  back = ap (λ (c : Desc). c.next_addr) at_t;
  owned = (ap (λ (c : Desc). c.status) at_t, tt);
  sized = (ap (λ (c : Desc). c.total_len) at_t, tt);
  rest = λ a n.
      exchange-other t d (disown (h2 d)) h2 a (λ e. n.0 (sym e)) (λ e. n.1.0 (sym e))
      ∙ set_last-ne d t (set_next d d m) a (λ e. n.1.0 (sym e))
      ∙ set_next-ne d d m a (λ e. n.1.0 (sym e))
      ∙ mark_all-other (put_mark (h d).total_len d) (d ∷ []) h a n.1;
}
  where
    m : Heap
    m = marked d [] h

    h2 : Heap
    h2 = set_last d t (set_next d d m)

    at_d : h2 d ≡ record (h d) { status = own_bits_hw; last_addr = t; next_addr = d }
    at_d =
        set_last_self d t (set_next d d m)
        ∙ ground (
          arith,
          set_next_self d d m,
          (mark_all-mem (put_mark (h d).total_len d) (d ∷ []) h (tt, tt)).0,
        )

    at_t :
        exchange t d (disown (h2 d)) h2 t
        ≡ record (h d) { status = own_bits_hw; last_addr = t; next_addr = d }
    at_t = exchange-disown t d (h2 d) h2 (ap (λ (c : Desc). c.status) at_d) ∙ at_d

module _ (t d x : ℕ) (xs : List ℕ) (h : Heap) (apart : NotIn t (d ∷ x ∷ xs))
    (distinct : Distinct (d ∷ x ∷ xs)) (linked : Linked h d (x ∷ xs)) where
  abbrev pub last : ℕ
  last = last_of x xs

  abbrev pub m : Heap
  m = marked d (x ∷ xs) h

  abbrev pub after : Heap
  after = exchange t d (disown (m d)) (set_next last d m)

  marks : All (λ y. m y ≡ put_mark (h d).total_len last y (h y)) (d ∷ x ∷ xs)
  marks = mark_all-mem (put_mark (h d).total_len last) (d ∷ x ∷ xs) h distinct

  at_t : after t ≡ put_mark (h d).total_len last d (h d)
  at_t =
      exchange-disown t d (m d) (set_next last d m) (ap (λ (c : Desc). c.status) marks.0) ∙ marks.0

  at_others : All (λ y. after y ≡ set_next last d m y) (x ∷ xs)
  at_others =
      All-zip (λ y. t ≢ y) (λ y. d ≢ y) (λ y. after y ≡ set_next last d m y) (x ∷ xs)
        (λ y n n'. exchange-other t d (disown (m d)) (set_next last d m) y n n') apart.1 distinct.0

  marked-next : (a : ℕ) → (m a).next_addr ≡ (h a).next_addr
  marked-next a = mark_all-next (put_mark (h d).total_len last) (λ b c. refl) (d ∷ x ∷ xs) h a

  fields_others :
      All
        (λ y.
          ◌≡◌ {A = Desc}
            (record (after y) { next_addr = (h y).next_addr })
            (put_mark (h d).total_len last y (h y)))
        (x ∷ xs)
  fields_others =
      All-zip (λ y. after y ≡ set_next last d m y)
        (λ y. m y ≡ put_mark (h d).total_len last y (h y))
        (λ y.
          ◌≡◌ {A = Desc} (record (after y) { next_addr = (h y).next_addr })
            (put_mark (h d).total_len last y (h y)))
        (x ∷ xs)
        (λ y e e'.
          ap (λ (c : Desc). let r : Desc = record c { next_addr = (h y).next_addr } in r) e
          ∙ set_next_keeps last d m y (h y).next_addr
          ∙ ap (λ (c : Desc). let r : Desc = record c { next_addr = (h y).next_addr } in r) e')
        at_others marks.1

  -- A field other than `nextAddr` is as the loop has written it.
  field_of {ℓ} :
      {A : Type ℓ} (f : ℕ → Desc → A)
      → ((y k : ℕ) (c : Desc) → f y (record c { next_addr = k }) ≡ f y c)
      → All (λ y. f y (after y) ≡ f y (put_mark (h d).total_len last y (h y))) (x ∷ xs)
  field_of f keep =
      All-map
        (λ y.
          ◌≡◌ {A = Desc} (record (after y) { next_addr = (h y).next_addr })
            (put_mark (h d).total_len last y (h y)))
        (λ y. f y (after y) ≡ f y (put_mark (h d).total_len last y (h y))) (x ∷ xs)
        (λ y e. sym (keep y (h y).next_addr (after y)) ∙ ap (f y) e) fields_others

  pub Moved-multi : Moved h after t d (x ∷ xs)
  Moved-multi = record {
    first = ap (λ (c : Desc). (c.data_addr, c.data_size)) at_t;
    others = field_of (λ y c. (c.data_addr, c.data_size)) (λ y k c. refl);
    packet = (
      ap (λ (c : Desc). c.last_addr) at_t,
      (
        ap (λ (c : Desc). c.next_addr) at_t ∙ linked.0,
        Linked-frame (set_next last d m) after x xs at_others
            (Linked-set_next d m x xs distinct.1 (Linked-next h m x xs marked-next linked.1)),
      ),
    );
    back =
        ap (λ (c : Desc). c.next_addr)
          (All-last_of (λ y. after y ≡ set_next last d m y) x xs at_others
            ∙ set_next_self last d m);
    owned = (ap (λ (c : Desc). c.status) at_t, field_of (λ y c. c.status) (λ y k c. refl));
    sized = (ap (λ (c : Desc). c.total_len) at_t, field_of (λ y c. c.total_len) (λ y k c. refl));
    rest = λ a n.
        exchange-other t d (disown (m d)) (set_next last d m) a (λ e. n.0 (sym e))
          (λ e. n.1.0 (sym e))
        ∙ set_next-ne last d m a (λ e. All-last_of (λ y. a ≢ y) x xs n.1.1 (sym e))
        ∙ mark_all-other (put_mark (h d).total_len last) (d ∷ x ∷ xs) h a n.1;
  }
