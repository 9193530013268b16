-- ===== src/Dma/Cells.antt =====
-- The field writes and the exchange of `dma_put` and `dma_reclaim`, address by address.
use carl9170fw.Base.{
  ℕ, ◌≡◌, ◌≢◌, ◌∙◌, sym, ap, List, [], ◌∷◌, arith, bit_and, bit_or, ==-self, ==-ne,
}
use carl9170fw.Dma.{
  Heap, Desc, clear_descriptor, own_bits_hw, not_own_bits, set_next, set_last, exchange, disown,
}
use carl9170fw.Dma.Shape.{buffer, last_of, Linked, Distinct, All-last_of}

pub set_next_self : (a v : ℕ) (h : Heap) → set_next a v h a ≡ record (h a) { next_addr = v }
unfolding set_next
set_next_self a v h = ground (arith, ==-self a)

pub set_next-ne : (a v : ℕ) (h : Heap) (b : ℕ) → a ≢ b → set_next a v h b ≡ h b
unfolding set_next
set_next-ne a v h b n = ground (arith, ==-ne a b n)

pub set_next-last : (a v : ℕ) (h : Heap) (b : ℕ) → (set_next a v h b).last_addr ≡ (h b).last_addr
unfolding set_next
set_next-last a v h b = ground arith

-- Only the link changes.
pub set_next_keeps :
    (a v : ℕ) (h : Heap) (b k : ℕ)
    → ◌≡◌ {A = Desc} (record (set_next a v h b) { next_addr = k }) (record (h b) { next_addr = k })
unfolding set_next
set_next_keeps a v h b k = ground arith

pub set_last_self : (a v : ℕ) (h : Heap) → set_last a v h a ≡ record (h a) { last_addr = v }
unfolding set_last
set_last_self a v h = ground (arith, ==-self a)

pub set_last-ne : (a v : ℕ) (h : Heap) (b : ℕ) → a ≢ b → set_last a v h b ≡ h b
unfolding set_last
set_last-ne a v h b n = ground (arith, ==-ne a b n)

pub set_last-last :
    (a v : ℕ) (h : Heap) (b : ℕ) → (h b).last_addr ≡ v → (set_last a v h b).last_addr ≡ v
unfolding set_last
set_last-last a v h b e = ground arith

pub set_last-next : (a v : ℕ) (h : Heap) (b : ℕ) → (set_last a v h b).next_addr ≡ (h b).next_addr
unfolding set_last
set_last-next a v h b = ground arith

pub set_last-buffer : (a v : ℕ) (h : Heap) (b : ℕ) → buffer (set_last a v h) b ≡ buffer h b
unfolding set_last
set_last-buffer a v h b = ground arith

pub set_next-buffer : (a v : ℕ) (h : Heap) (b : ℕ) → buffer (set_next a v h) b ≡ buffer h b
unfolding set_next
set_next-buffer a v h b = ground arith

pub exchange-term :
    (t d : ℕ) (c : Desc) (h : Heap)
    → exchange t d c h t ≡ record c { status = bit_or c.status own_bits_hw }
unfolding exchange
exchange-term t d c h = ground (arith, ==-self t)

-- What the hardware owned before is in the terminator as it was.
pub exchange-disown :
    (t d : ℕ) (c : Desc) (h : Heap) → c.status ≡ own_bits_hw → exchange t d (disown c) h t ≡ c
unfolding disown
exchange-disown t d c h e =
    exchange-term t d (disown c) h ∙ ground (arith, ap (λ s. bit_or (bit_and s not_own_bits) 1) e)

pub exchange-desc :
    (t d : ℕ) (c : Desc) (h : Heap) → t ≢ d → exchange t d c h d ≡ clear_descriptor d h d
unfolding exchange
exchange-desc t d c h n = ground (arith, ==-ne t d n)

pub exchange-other :
    (t d : ℕ) (c : Desc) (h : Heap) (a : ℕ) → t ≢ a → d ≢ a → exchange t d c h a ≡ h a
unfolding exchange
exchange-other t d c h a n m = ground (arith, ==-ne t a n, ==-ne d a m)

pub last_of-ne : (d x : ℕ) (xs : List ℕ) → Distinct (d ∷ x ∷ xs) → last_of x xs ≢ d
last_of-ne d x xs n e = All-last_of (λ y. d ≢ y) x xs n.0 (sym e)

-- Redirecting the last descriptor of a chain leaves the chain.
pub Linked-set_next :
    (v : ℕ) (h : Heap) (d : ℕ) (xs : List ℕ)
    → Distinct (d ∷ xs)
    → Linked h d xs
    → Linked (set_next (last_of d xs) v h) d xs
Linked-set_next v h d [] n l = tt
Linked-set_next v h d (x ∷ xs) n l = (
  ap (λ (c : Desc). c.next_addr) (set_next-ne (last_of x xs) v h d (last_of-ne d x xs n)) ∙ l.0,
  Linked-set_next v h x xs n.1 l.1,
)
