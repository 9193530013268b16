-- ===== src/Dma/Mark.antt =====
-- The loops of `dma_put` and `dma_reclaim` change each descriptor of a packet once, and end.
use carl9170fw.Base.{
  ℕ, zero, suc, ◌<◌, ◌≡◌, ◌≢◌, refl, sym, ◌∙◌, List, [], ◌∷◌, some, arith, ap, fun_ext, length, All,
  ==-self, ==-ne,
}
use carl9170fw.Dma.{
  Heap, Desc, update, put_round, reclaim_round, put_loop, reclaim_loop, own_bits_hw, block_size,
}
use carl9170fw.Dma.Cells.{last_of-ne}
use carl9170fw.Dma.Shape.{last_of, Linked, NotIn, Distinct, Linked-next, All-zip}

-- Each listed descriptor is replaced by what `f` makes of its address and value.
abbrev pub mark_all : (ℕ → Desc → Desc) → List ℕ → Heap → Heap
mark_all f [] h = h
mark_all f (x ∷ xs) h = mark_all f xs (update h x (f x (h x)))

pub mark_all-other :
    (f : ℕ → Desc → Desc) (xs : List ℕ) (h : Heap) (a : ℕ) → NotIn a xs → mark_all f xs h a ≡ h a
mark_all-other f [] h a n = refl
mark_all-other f (x ∷ xs) h a n =
    mark_all-other f xs (update h x (f x (h x))) a n.1 ∙ ground (arith, n.0)

pub mark_all-mem :
    (f : ℕ → Desc → Desc) (xs : List ℕ) (h : Heap)
    → Distinct xs
    → All (λ a. mark_all f xs h a ≡ f a (h a)) xs
mark_all-mem f [] h d = tt
mark_all-mem f (x ∷ xs) h d = (
  mark_all-other f xs h1 x d.0 ∙ ground (arith, ==-self x),
  All-zip (λ a. mark_all f xs h1 a ≡ f a (h1 a)) (λ a. x ≢ a) (λ a. mark_all f xs h1 a ≡ f a (h a))
      xs (λ a e n. e ∙ ap (f a) (ground (arith, ==-ne x a n))) (mark_all-mem f xs h1 d.1) d.0,
)
  where
    h1 : Heap
    h1 = update h x (f x (h x))

-- What `dma_put` writes into each descriptor.
abbrev pub put_mark : ℕ → ℕ → ℕ → Desc → Desc
put_mark total last a c = record c { total_len = total; status = own_bits_hw; last_addr = last }

-- What `dma_reclaim` writes into each descriptor.
abbrev pub reclaim_mark : ℕ → Desc → Desc
reclaim_mark a c = record c {
  status = own_bits_hw;
  ctrl = 0;
  total_len = 0;
  data_size = block_size;
  last_addr = a;
}

put_round-update :
    (desc tmp : ℕ) (h : Heap) (total last : ℕ)
    → (h desc).total_len ≡ total
    → (h desc).last_addr ≡ last
    → put_round desc tmp h ≡ update h tmp (put_mark total last tmp (h tmp))
unfolding put_round
put_round-update desc tmp h total last et el =
    fun_ext λ b. ground (arith, ap (λ a. (h a).last_addr), ==-self tmp)

update-next :
    (h : Heap) (x : ℕ) (c : Desc)
    → c.next_addr ≡ (h x).next_addr
    → (a : ℕ) → (update h x c a).next_addr ≡ (h a).next_addr
update-next h x c e a = ground arith

update-last :
    (h : Heap) (x : ℕ) (c : Desc) (a last : ℕ)
    → c.last_addr ≡ last
    → (h a).last_addr ≡ last
    → (update h x c a).last_addr ≡ last
update-last h x c a last e e' = ground arith

update-total :
    (h : Heap) (x : ℕ) (c : Desc) (a total : ℕ)
    → c.total_len ≡ total
    → (h a).total_len ≡ total
    → (update h x c a).total_len ≡ total
update-total h x c a total e e' = ground arith

update_self : (h : Heap) (x : ℕ) (c : Desc) → update h x c x ≡ c
update_self h x c = ground (arith, ==-self x)

-- With as much fuel as the packet has descriptors, the loop of `dma_put` ends at the last one and
-- has changed each of them once.
pub put_loop_lem :
    (fuel desc tmp : ℕ) (xs : List ℕ) (h : Heap) (total last : ℕ)
    → length xs < fuel
    → (h desc).total_len ≡ total
    → (h desc).last_addr ≡ last
    → last_of tmp xs ≡ last
    → Linked h tmp xs
    → Distinct (tmp ∷ xs)
    → put_loop fuel desc tmp h ≡ some (mark_all (put_mark total last) (tmp ∷ xs) h)
unfolding put_loop
put_loop_lem zero desc tmp xs h total last f et el e l d = absurd (omega arith)
put_loop_lem (suc fuel) desc tmp [] h total last f et el e l d = rw (
  put_round-update desc tmp h total last et el,
  update-last h tmp (put_mark total last tmp (h tmp)) desc last refl el,
  e,
  ==-self last,
)
put_loop_lem (suc fuel) desc tmp (x ∷ xs) h total last f et el e l d =
    rw
      (
        put_round-update desc tmp h total last et el,
        update-last h tmp c desc last refl el,
        ==-ne last tmp (λ p. last_of-ne tmp x xs d (e ∙ p)),
        update_self h tmp c,
      )
      (ap (λ k. put_loop fuel desc k (update h tmp c)) l.0
        ∙ put_loop_lem fuel desc x xs (update h tmp c) total last (omega arith)
            (update-total h tmp c desc total refl et) (update-last h tmp c desc last refl el) e
            (Linked-next h (update h tmp c) x xs (update-next h tmp c refl) l.1) d.1)
  where
    c : Desc
    c = put_mark total last tmp (h tmp)

-- The same of `dma_reclaim`, which reads the last address before the loop.
pub reclaim_loop_lem :
    (fuel last tmp : ℕ) (xs : List ℕ) (h : Heap)
    → length xs < fuel
    → last_of tmp xs ≡ last
    → Linked h tmp xs
    → Distinct (tmp ∷ xs)
    → reclaim_loop fuel last tmp h ≡ some (mark_all reclaim_mark (tmp ∷ xs) h, last)
unfolding reclaim_loop reclaim_round
reclaim_loop_lem zero last tmp xs h f e l d = absurd (omega arith)
reclaim_loop_lem (suc fuel) last tmp [] h f e l d = rw (e, ==-self last)
reclaim_loop_lem (suc fuel) last tmp (x ∷ xs) h f e l d =
    rw (==-ne tmp last (λ p. last_of-ne tmp x xs d (e ∙ sym p)), update_self h tmp c)
      (ap (λ k. reclaim_loop fuel last k (update h tmp c)) l.0
        ∙ reclaim_loop_lem fuel last x xs (update h tmp c) (omega arith) e
            (Linked-next h (update h tmp c) x xs (update-next h tmp c refl) l.1) d.1)
  where
    c : Desc
    c = reclaim_mark tmp (h tmp)

-- Marking leaves the links, if what is written does.
pub mark_all-next :
    (f : ℕ → Desc → Desc)
    → ((a : ℕ) (c : Desc) → (f a c).next_addr ≡ c.next_addr)
    → (xs : List ℕ) (h : Heap) (a : ℕ) → (mark_all f xs h a).next_addr ≡ (h a).next_addr
mark_all-next f keep [] h a = refl
mark_all-next f keep (x ∷ xs) h a =
    mark_all-next f keep xs (update h x (f x (h x))) a
    ∙ update-next h x (f x (h x)) (keep x (h x)) a
