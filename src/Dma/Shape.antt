-- ===== src/Dma/Shape.antt =====
-- What a well-formed queue looks like in memory: packets of descriptors, linked by `nextAddr`, the
-- first of each knowing its last one by `lastAddr`, up to the terminator.
use carl9170fw.Base.{
  ℕ, ◌≡◌, ◌≢◌, refl, sym, ◌∙◌, List, [], ◌∷◌, ◌++◌, map, append_assoc, ap, ap₂, subst, All,
  All-append, All-left, All-right,
}
use carl9170fw.Dma.{Heap, Desc, Queue}

-- A packet's first descriptor and the others in order.
abbrev pub Packet : Type 0
Packet = ℕ × List ℕ

abbrev pub last_of : ℕ → List ℕ → ℕ
last_of d [] = d
last_of d (x ∷ xs) = last_of x xs

-- Following `nextAddr` from `d` passes through `xs`.
abbrev pub Linked : Heap → ℕ → List ℕ → Type 0
Linked h d [] = Unit
Linked h d (x ∷ xs) = ((h d).next_addr ≡ x) × Linked h x xs

abbrev pub IsPacket : Heap → Packet → Type 0
IsPacket h p = ((h p.0).last_addr ≡ last_of p.0 p.1) × Linked h p.0 p.1

-- From `a` on stand the packets `ps`, and behind them the terminator `t`.
abbrev pub Packets : Heap → ℕ → List Packet → ℕ → Type 0
Packets h a [] t = a ≡ t
Packets h a (p ∷ ps) t = (a ≡ p.0) × IsPacket h p × Packets h (h (last_of p.0 p.1)).next_addr ps t

abbrev pub members : List Packet → List ℕ
members [] = []
members (p ∷ ps) = p.0 ∷ (p.1 ++ members ps)

abbrev pub NotIn : ℕ → List ℕ → Type 0
NotIn a xs = All (λ x. a ≢ x) xs

abbrev pub Distinct : List ℕ → Type 0
Distinct [] = Unit
Distinct (x ∷ xs) = NotIn x xs × Distinct xs

-- No address of the first list stands in the second.
abbrev pub Apart : List ℕ → List ℕ → Type 0
Apart xs ys = All (λ x. NotIn x ys) xs

-- The buffer that a descriptor points to and its size.
abbrev pub Buffer : Type 0
Buffer = ℕ × ℕ

abbrev pub buffer : Heap → ℕ → Buffer
buffer h a = ((h a).data_addr, (h a).data_size)

-- The abstract view of a packet: the buffers that it carries, in order.
abbrev pub frame : Heap → Packet → List Buffer
frame h p = map (buffer h) (p.0 ∷ p.1)

abbrev pub frames : Heap → List Packet → List (List Buffer)
frames h ps = map (frame h) ps

-- A well-formed queue that holds the packets `ps`.
pub record IsQueue (h : Heap) (q : Queue) (ps : List Packet) : Type 0 where
  pub linked : Packets h q.head ps q.terminator
  pub distinct : Distinct (q.terminator ∷ members ps)

-- Two heaps that agree on a list of addresses.
abbrev pub Agree : Heap → Heap → List ℕ → Type 0
Agree h h' xs = All (λ x. h' x ≡ h x) xs

-- A field of every element, and one that follows from two others.
pub All-map {ℓ κ μ} :
    {A : Type ℓ} (P : A → Type κ) (Q : A → Type μ) (xs : List A)
    → ((a : A) → P a → Q a)
    → All P xs
    → All Q xs
All-map P Q [] f p = tt
All-map P Q (x ∷ xs) f p = (f x p.0, All-map P Q xs f p.1)

pub All-zip {ℓ κ μ ν} :
    {A : Type ℓ} (P : A → Type κ) (Q : A → Type μ) (R : A → Type ν) (xs : List A)
    → ((a : A) → P a → Q a → R a)
    → All P xs
    → All Q xs
    → All R xs
All-zip P Q R [] f p q = tt
All-zip P Q R (x ∷ xs) f p q = (f x p.0 q.0, All-zip P Q R xs f p.1 q.1)

Apart-nil : (ys : List ℕ) → Apart ys []
Apart-nil [] = tt
Apart-nil (y ∷ ys) = (tt, Apart-nil ys)

Apart-cons : (x : ℕ) (xs ys : List ℕ) → NotIn x ys → Apart ys xs → Apart ys (x ∷ xs)
Apart-cons x xs [] n p = tt
Apart-cons x xs (y ∷ ys) n p = ((λ e. n.0 (sym e), p.0), Apart-cons x xs ys n.1 p.1)

pub Apart-sym : (xs ys : List ℕ) → Apart xs ys → Apart ys xs
Apart-sym [] ys p = Apart-nil ys
Apart-sym (x ∷ xs) ys p = Apart-cons x xs ys p.0 (Apart-sym xs ys p.1)

pub Distinct-append :
    (xs ys : List ℕ) → Distinct xs → Distinct ys → Apart xs ys → Distinct (xs ++ ys)
Distinct-append [] ys p q r = q
Distinct-append (x ∷ xs) ys p q r =
    (All-append (λ y. x ≢ y) xs ys p.0 r.0, Distinct-append xs ys p.1 q r.1)

pub Distinct-left : (xs ys : List ℕ) → Distinct (xs ++ ys) → Distinct xs
Distinct-left [] ys d = tt
Distinct-left (x ∷ xs) ys d = (All-left (λ y. x ≢ y) xs ys d.0, Distinct-left xs ys d.1)

pub Distinct-right : (xs ys : List ℕ) → Distinct (xs ++ ys) → Distinct ys
Distinct-right [] ys d = d
Distinct-right (x ∷ xs) ys d = Distinct-right xs ys d.1

pub Distinct-Apart : (xs ys : List ℕ) → Distinct (xs ++ ys) → Apart xs ys
Distinct-Apart [] ys d = tt
Distinct-Apart (x ∷ xs) ys d = (All-right (λ y. x ≢ y) xs ys d.0, Distinct-Apart xs ys d.1)

-- A property of every listed address holds of the last one.
pub All-last_of {κ} : (P : ℕ → Type κ) (d : ℕ) (xs : List ℕ) → All P (d ∷ xs) → P (last_of d xs)
All-last_of P d [] p = p.0
All-last_of P d (x ∷ xs) p = All-last_of P x xs p.1

pub members-append :
    (ps : List Packet) (p : Packet) → members (ps ++ p ∷ []) ≡ members ps ++ p.0 ∷ (p.1 ++ [])
members-append [] p = refl
members-append (q ∷ ps) p =
    ap (λ ys. q.0 ∷ ys)
      (ap (λ ys. q.1 ++ ys) (members-append ps p) ∙ sym (append_assoc q.1 (members ps) _))

-- Links survive in a heap that keeps `nextAddr`.
pub Linked-next :
    (h h' : Heap) (d : ℕ) (xs : List ℕ)
    → ((a : ℕ) → (h' a).next_addr ≡ (h a).next_addr)
    → Linked h d xs
    → Linked h' d xs
Linked-next h h' d [] e l = tt
Linked-next h h' d (x ∷ xs) e l = (e d ∙ l.0, Linked-next h h' x xs e l.1)

pub Linked-frame :
    (h h' : Heap) (d : ℕ) (xs : List ℕ) → Agree h h' (d ∷ xs) → Linked h d xs → Linked h' d xs
Linked-frame h h' d [] e l = tt
Linked-frame h h' d (x ∷ xs) e l =
    (ap (λ (c : Desc). c.next_addr) e.0 ∙ l.0, Linked-frame h h' x xs e.1 l.1)

pub IsPacket-frame :
    (h h' : Heap) (p : Packet) → Agree h h' (p.0 ∷ p.1) → IsPacket h p → IsPacket h' p
IsPacket-frame h h' (d, ds) e i =
    (ap (λ (c : Desc). c.last_addr) e.0 ∙ i.0, Linked-frame h h' d ds e i.1)

-- A queue's packets survive in a heap that agrees on their descriptors.
pub Packets-frame :
    (h h' : Heap) (a : ℕ) (ps : List Packet) (t : ℕ)
    → Agree h h' (members ps)
    → Packets h a ps t
    → Packets h' a ps t
Packets-frame h h' a [] t e l = l
Packets-frame h h' a ((d, ds) ∷ ps) t e l =
    let mine : Agree h h' (d ∷ ds) = (e.0, All-left (λ x. h' x ≡ h x) ds (members ps) e.1) in
    let step = ap (λ (c : Desc). c.next_addr) (All-last_of (λ x. h' x ≡ h x) d ds mine) in
    (
      l.0,
      IsPacket-frame h h' (d, ds) mine l.1,
      Packets-frame h h' (h' (last_of d ds)).next_addr ps t
          (All-right (λ x. h' x ≡ h x) ds (members ps) e.1)
          (subst (λ b. Packets h b ps t) (sym step) l.2),
    )

-- One more packet behind the others, whose first descriptor was the terminator.
pub Packets-append :
    (h : Heap) (a : ℕ) (ps : List Packet) (t : ℕ) (ds : List ℕ) (t' : ℕ)
    → Packets h a ps t
    → IsPacket h (t, ds)
    → (h (last_of t ds)).next_addr ≡ t'
    → Packets h a (ps ++ (t, ds) ∷ []) t'
Packets-append h a [] t ds t' l i n = (l, i, n)
Packets-append h a (p ∷ ps) t ds t' l i n =
    (l.0, l.1, Packets-append h (h (last_of p.0 p.1)).next_addr ps t ds t' l.2 i n)

pub buffers-frame :
    (h h' : Heap) (xs : List ℕ)
    → All (λ x. buffer h' x ≡ buffer h x) xs
    → map (buffer h') xs ≡ map (buffer h) xs
buffers-frame h h' [] e = refl
buffers-frame h h' (x ∷ xs) e = ap₂ ◌∷◌ e.0 (buffers-frame h h' xs e.1)

pub frame-frame :
    (h h' : Heap) (p : Packet)
    → All (λ x. buffer h' x ≡ buffer h x) (p.0 ∷ p.1)
    → frame h' p ≡ frame h p
frame-frame h h' p e = buffers-frame h h' (p.0 ∷ p.1) e

pub frames-frame :
    (h h' : Heap) (ps : List Packet)
    → All (λ x. buffer h' x ≡ buffer h x) (members ps)
    → frames h' ps ≡ frames h ps
frames-frame h h' [] e = refl
frames-frame h h' ((d, ds) ∷ ps) e =
    ap₂ ◌∷◌
      (buffers-frame h h' (d ∷ ds)
        (e.0, All-left (λ x. buffer h' x ≡ buffer h x) ds (members ps) e.1))
      (frames-frame h h' ps (All-right (λ x. buffer h' x ≡ buffer h x) ds (members ps) e.1))
