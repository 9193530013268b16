-- ===== src/Dma/Singles.antt =====
-- Packets of one descriptor, which is what a reclaimed packet becomes, and chains with a new start.
use carl9170fw.Base.{
  ℕ, ◌≡◌, refl, sym, ◌∙◌, ap, ap₂, subst, List, [], ◌∷◌, ◌++◌, map, append_assoc, All,
}
use carl9170fw.Dma.{Heap, Desc, own_bits_hw, block_size}
use carl9170fw.Dma.Shape.{
  Packet, last_of, Linked, Packets, members, Agree, Buffer, buffer, frames, All-last_of,
  Linked-frame,
}

-- Packets of one descriptor each.
abbrev pub singles : List ℕ → List Packet
singles [] = []
singles (x ∷ xs) = (x, []) ∷ singles xs

-- The block that a descriptor points to, at its full size.
abbrev pub empty_frame : Heap → ℕ → List Buffer
empty_frame h a = ((h a).data_addr, block_size) ∷ []

-- A descriptor that the hardware may fill.
abbrev pub IsFree : Desc → Type 0
IsFree c = (c.status ≡ own_bits_hw) × (c.ctrl ≡ 0) × (c.data_size ≡ block_size) × (c.total_len ≡ 0)

pub members-singles :
    (ps : List Packet) (xs : List ℕ) → members (ps ++ singles xs) ≡ members ps ++ xs
members-singles [] [] = refl
members-singles [] (x ∷ xs) = ap (λ ys. x ∷ ys) (members-singles [] xs)
members-singles (p ∷ ps) xs =
    ap (λ ys. p.0 ∷ ys)
      (ap (λ ys. p.1 ++ ys) (members-singles ps xs) ∙ sym (append_assoc p.1 (members ps) xs))

pub Packets-singles :
    (h : Heap) (a : ℕ) (xs : List ℕ) (e : ℕ)
    → Linked h a xs
    → All (λ x. (h x).last_addr ≡ x) (a ∷ xs)
    → (h (last_of a xs)).next_addr ≡ e
    → Packets h a (singles (a ∷ xs)) e
Packets-singles h a [] e l s n = (refl, (s.0, tt), n)
Packets-singles h a (x ∷ xs) e l s n = (
  refl,
  (s.0, tt),
  subst (λ b. Packets h b (singles (x ∷ xs)) e) (sym l.0) (Packets-singles h x xs e l.1 s.1 n),
)

pub Packets-join :
    (h : Heap) (a : ℕ) (ps rs : List Packet) (t e : ℕ)
    → Packets h a ps t
    → Packets h t rs e
    → Packets h a (ps ++ rs) e
Packets-join h a [] rs t e l r = subst (λ b. Packets h b rs e) (sym l) r
Packets-join h a (p ∷ ps) rs t e l r =
    (l.0, l.1, Packets-join h (h (last_of p.0 p.1)).next_addr ps rs t e l.2 r)

pub frames-singles :
    (h h' : Heap) (xs : List ℕ)
    → All (λ x. buffer h' x ≡ ((h x).data_addr, block_size)) xs
    → frames h' (singles xs) ≡ map (empty_frame h) xs
frames-singles h h' [] e = refl
frames-singles h h' (x ∷ xs) e = ap₂ (λ b bs. (b ∷ []) ∷ bs) e.0 (frames-singles h h' xs e.1)

-- A chain whose first descriptor has been copied to `t`.
pub Linked-copied :
    (h h' : Heap) (d t : ℕ) (ds : List ℕ)
    → (h' t).next_addr ≡ (h d).next_addr
    → Agree h h' ds
    → Linked h d ds
    → Linked h' t ds
Linked-copied h h' d t [] e a l = tt
Linked-copied h h' d t (x ∷ xs) e a l = (e ∙ l.0, Linked-frame h h' x xs a l.1)

pub last_of-copied :
    (h h' : Heap) (d t : ℕ) (ds : List ℕ)
    → (h' t).next_addr ≡ (h d).next_addr
    → Agree h h' ds
    → (h' (last_of t ds)).next_addr ≡ (h (last_of d ds)).next_addr
last_of-copied h h' d t [] e a = e
last_of-copied h h' d t (x ∷ xs) e a =
    ap (λ (c : Desc). c.next_addr) (All-last_of (λ y. h' y ≡ h y) x xs a)
