-- ===== src/Host/Exception/Round.antt =====
-- One packet is put back at the end of its queue.
use carl9170fw.Base.{
  ℕ, ◌≡◌, ◌≢◌, ◌<◌, refl, sym, ◌∙◌, ap, ap₂, subst, List, [], ◌∷◌, ◌++◌, length, map, map-append,
  Option, some, All, All-append, All-left, All-right, drop,
}
use carl9170fw.Dma.{Heap, Desc, Queue, block_size, unlink_head, reclaim}
use carl9170fw.Dma.Shape.{
  Packet, IsQueue, NotIn, Distinct, Distinct-left, Distinct-Apart, Apart, Apart-sym, members,
  frames, Buffer, buffer, All-map, All-last_of, Agree, frame, frames-frame,
}
use carl9170fw.Dma.Unlink.{unlink_head-some, unlink_head-Unlinked}
use carl9170fw.Dma.Append.{away}
use carl9170fw.Dma.Singles.{singles, empty_frame}
use carl9170fw.Dma.Reclaim.{reclaim-Reclaimed}

-- What one round makes of the queue.
pub record PutBack (h : Heap) (q : Queue) (d : ℕ) (ds : List ℕ) (ps : List Packet)
    (r : Heap × Queue) : Type 0 where
  pub queue : IsQueue r.0 r.1 (ps ++ singles (q.terminator ∷ ds))
  pub carried :
      frames r.0 (ps ++ singles (q.terminator ∷ ds)) ≡ frames h ps ++ map (empty_frame h) (d ∷ ds)
  pub same : All (λ a. r.0 a ≡ h a) (members ps)

-- Empty frames know only the buffers' addresses.
pub emptied-buffers :
    (h h' : Heap) (xs : List ℕ)
    → map (buffer h') xs ≡ map (buffer h) xs
    → map (empty_frame h') xs ≡ map (empty_frame h) xs
emptied-buffers h h' xs e = of_buffers h' xs ∙ ap (map emptied) e ∙ sym (of_buffers h xs)
  where
    emptied : Buffer → List Buffer
    emptied b = (b.0, block_size) ∷ []

    of_buffers : (g : Heap) (ys : List ℕ) → map (empty_frame g) ys ≡ map emptied (map (buffer g) ys)
    of_buffers g [] = refl
    of_buffers g (y ∷ ys) = ap (λ zs. empty_frame g y ∷ zs) (of_buffers g ys)

pub round-PutBack :
    (rounds : ℕ) (q : Queue) (h : Heap) (d : ℕ) (ds : List ℕ) (ps : List Packet)
    → IsQueue h q ((d, ds) ∷ ps)
    → length ds < rounds
    → (r : Heap × Queue) × (reclaim rounds (unlink_head q h).2 d (unlink_head q h).1 ≡ some r)
      × PutBack h q d ds ps r
round-PutBack rounds q h d ds ps v f =
    let e = unlink_head-some h q d ds ps v in
    let u = unlink_head-Unlinked h q (d, ds) ps v in
    let same_term : (unlink_head q h).2.terminator ≡ q.terminator =
      ap (λ (x : Option ℕ × Heap × Queue). x.2.terminator) e in
    let h1 : Heap = (unlink_head q h).1 in
    let q1 : Queue = (unlink_head q h).2 in
    let distinct = Distinct-left (d ∷ ds) (members ps) v.distinct.1 in
    let apart : Apart (q.terminator ∷ members ps) (d ∷ ds) = (
      All-left (λ x. q.terminator ≢ x) (d ∷ ds) (members ps) v.distinct.0,
      Apart-sym (d ∷ ds) (members ps) (Distinct-Apart (d ∷ ds) (members ps) v.distinct.1),
    ) in
    let (r, runs, c) =
      reclaim-Reclaimed rounds q1 d ds h1 ps f u.queue u.packet distinct
        (subst (λ t. Apart (t ∷ members ps) (d ∷ ds)) (sym same_term) apart) in
    let old : Distinct (q.terminator ∷ members ps) =
      subst (λ t. Distinct (t ∷ members ps)) same_term u.queue.distinct in
    (
      r,
      runs,
      record {
        queue = subst (λ t. IsQueue r.0 r.1 (ps ++ singles (t ∷ ds))) same_term c.queue;
        carried =
            ap (λ t. frames r.0 (ps ++ singles (t ∷ ds))) (sym same_term)
            ∙ c.carried
            ∙ ap₂ ◌++◌ u.carried (emptied-buffers h h1 (d ∷ ds) u.same);
        same =
            All-map (λ a. NotIn a (q.terminator ∷ d ∷ ds)) (λ a. r.0 a ≡ h a) (members ps)
              (λ a n.
                c.rest a (subst (λ t. NotIn a (t ∷ d ∷ ds)) (sym same_term) n)
                ∙ u.rest a (All-last_of (λ y. a ≢ y) d ds n.1))
              (away q.terminator (members ps) d ds old distinct apart);
      },
    )

pub Agree-front :
    (h h' : Heap) (front behind : List Packet)
    → Agree h h' (members (front ++ behind))
    → Agree h h' (members front)
Agree-front h h' [] behind a = tt
Agree-front h h' ((d, ds) ∷ front) behind a = (
  a.0,
  All-append (λ x. h' x ≡ h x) ds (members front)
      (All-left (λ x. h' x ≡ h x) ds (members (front ++ behind)) a.1)
      (Agree-front h h' front behind
        (All-right (λ x. h' x ≡ h x) ds (members (front ++ behind)) a.1)),
)

pub Agree-behind :
    (h h' : Heap) (front behind : List Packet)
    → Agree h h' (members (front ++ behind))
    → Agree h h' (members behind)
Agree-behind h h' [] behind a = a
Agree-behind h h' ((d, ds) ∷ front) behind a =
    Agree-behind h h' front behind (All-right (λ x. h' x ≡ h x) ds (members (front ++ behind)) a.1)

pub frames-Agree :
    (h h' : Heap) (ps : List Packet) → Agree h h' (members ps) → frames h' ps ≡ frames h ps
frames-Agree h h' ps a = frames-frame h h' ps (
    All-map (λ x. h' x ≡ h x) (λ x. buffer h' x ≡ buffer h x) (members ps)
      (λ x e. ap (λ (c : Desc). (c.data_addr, c.data_size)) e) a)

pub buffers-Agree :
    (h h' : Heap) (xs : List ℕ) → Agree h h' xs → map (buffer h') xs ≡ map (buffer h) xs
buffers-Agree h h' [] a = refl
buffers-Agree h h' (x ∷ xs) a =
    ap₂ ◌∷◌ (ap (λ (c : Desc). (c.data_addr, c.data_size)) a.0) (buffers-Agree h h' xs a.1)

drop-length {ℓ} : {A : Type ℓ} (xs ys : List A) → drop (length xs) (xs ++ ys) ≡ ys
drop-length [] ys = refl
drop-length (x ∷ xs) ys = drop-length xs ys

-- What a round puts at the end.
pub PutBack-fresh :
    (h : Heap) (q : Queue) (d : ℕ) (ds : List ℕ) (ps : List Packet) (r : Heap × Queue)
    → PutBack h q d ds ps r
    → frames r.0 (singles (q.terminator ∷ ds)) ≡ map (empty_frame h) (d ∷ ds)
PutBack-fresh h q d ds ps r b =
    let s : List Packet = singles (q.terminator ∷ ds) in
    let kept : frames r.0 ps ≡ frames h ps = frames-Agree h r.0 ps b.same in
    let both : frames h ps ++ frames r.0 s ≡ frames h ps ++ map (empty_frame h) (d ∷ ds) =
      ap (λ xs. xs ++ frames r.0 s) (sym kept) ∙ sym (map-append (frame r.0) ps s) ∙ b.carried in
    sym (drop-length (frames h ps) (frames r.0 s))
    ∙ ap (drop (length (frames h ps))) both
    ∙ drop-length (frames h ps) (map (empty_frame h) (d ∷ ds))
