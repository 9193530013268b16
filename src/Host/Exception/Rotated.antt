-- ===== src/Host/Exception/Rotated.antt =====
-- The first loop of `handle_download_exception` ends at the packet of the hardware.
use carl9170fw.Base.{
  ℕ, zero, suc, ◌≡◌, ◌≢◌, ◌<◌, refl, sym, ◌∙◌, ap, ap₂, subst, ◌==◌, ==-ne, ==-self, List, [], ◌∷◌,
  ◌++◌, length, map, append_assoc, map-append, Option, some, ◌>>=◌, bit_and, true, false, All,
  All-left, All-right, arith, append-nil, Bool-cases, inl, inr,
}
use carl9170fw.Dma.{Heap, Desc, Queue, queue_empty, unlink_head, reclaim, own_bits, own_bits_hw}
use carl9170fw.Dma.Shape.{Packet, IsQueue, NotIn, members, frames, Buffer, Agree, frame}
use carl9170fw.Dma.Singles.{singles, empty_frame}
use carl9170fw.Host.Exception.{put_back_loop}
use carl9170fw.Host.Exception.Round.{
  emptied-buffers, round-PutBack, Agree-front, Agree-behind, frames-Agree, buffers-Agree,
  PutBack-fresh,
}

-- Every packet starts with a descriptor of the hardware's, and has fewer descriptors than the fuel.
abbrev pub Passed : ℕ → Heap → List Packet → Type 0
Passed rounds h = All (λ (p : Packet).
    ((bit_and (h p.0).status own_bits == own_bits_hw) ≡ true) × (length p.1 < rounds))

Passed-same :
    (rounds : ℕ) (h h' : Heap) (ps : List Packet)
    → All (λ a. h' a ≡ h a) (members ps)
    → Passed rounds h ps
    → Passed rounds h' ps
Passed-same rounds h h' [] s p = tt
Passed-same rounds h h' ((d, ds) ∷ ps) s p = (
  (ap (λ (c : Desc). bit_and c.status own_bits == own_bits_hw) s.0 ∙ p.0.0, p.0.1),
  Passed-same rounds h h' ps (All-right (λ a. h' a ≡ h a) ds (members ps) s.1) p.1,
)

-- The blocks of packets, each on its own and empty.
abbrev pub emptied_all : Heap → List Packet → List (List Buffer)
emptied_all h [] = []
emptied_all h (p ∷ ps) = map (empty_frame h) (p.0 ∷ p.1) ++ emptied_all h ps

-- What the first loop leaves: the packets from the target on, and behind them the blocks of the others.
pub record Rotated (h : Heap) (target : ℕ) (front behind : List Packet) (r : Heap × Queue)
    : Type 0 where
  pub moved : List Packet
  pub queue : IsQueue r.0 r.1 (behind ++ moved)
  pub head_is : r.1.head ≡ target
  pub carried : frames r.0 (behind ++ moved) ≡ frames h behind ++ emptied_all h front

emptied_all-Agree :
    (h h' : Heap) (ps : List Packet)
    → Agree h h' (members ps)
    → emptied_all h' ps ≡ emptied_all h ps
emptied_all-Agree h h' [] a = refl
emptied_all-Agree h h' ((d, ds) ∷ ps) a =
    ap₂ ◌++◌
      (emptied-buffers h h' (d ∷ ds) (
        ap₂ ◌∷◌ (ap (λ (c : Desc). (c.data_addr, c.data_size)) a.0)
          (buffers-Agree h h' ds (All-left (λ x. h' x ≡ h x) ds (members ps) a.1))))
      (emptied_all-Agree h h' ps (All-right (λ x. h' x ≡ h x) ds (members ps) a.1))

not_target :
    (d target : ℕ) (ds : List ℕ) (front post : List Packet)
    → NotIn d (members (front ++ (target, ds) ∷ post))
    → d ≢ target
not_target d target ds [] post n = n.0
not_target d target ds ((e, es) ∷ front) post n =
    not_target d target ds front post
      (All-right (λ x. d ≢ x) es (members (front ++ (target, ds) ∷ post)) n.1)

-- On a well-formed down queue in which a packet starts at the descriptor where the hardware stands, and
-- all packets before it start with a descriptor of the hardware's, the loop ends if its fuel
-- exceeds their number, and that for giving one back the descriptors of each. The queue is well
-- formed and starts at that packet; behind the packets from there on, which carry what they
-- carried, stand the blocks of the others, in order, each on its own and empty.
pub put_back_loop-Rotated :
    (fuel rounds target : ℕ) (front : List Packet) (ds : List ℕ) (post : List Packet) (q : Queue)
    (h : Heap)
    → IsQueue h q (front ++ (target, ds) ∷ post)
    → Passed rounds h front
    → length front < fuel
    → (r : Heap × Queue) × (put_back_loop fuel rounds target q h ≡ some r)
      × Rotated h target front ((target, ds) ∷ post) r
unfolding put_back_loop
put_back_loop-Rotated zero rounds target front ds post q h v p f = absurd (omega arith)
put_back_loop-Rotated (suc fuel) rounds target [] ds post q h v p f =
    let used : queue_empty q ≡ false =
      ap (λ (a : ℕ). a == q.terminator) v.linked.0
      ∙ ==-ne target q.terminator (λ e. v.distinct.0.0 (sym e)) in
    let there : (q.head == target) ≡ true =
      ap (λ (a : ℕ). a == target) v.linked.0 ∙ ==-self target in
    let left : Rotated h target [] ((target, ds) ∷ post) (h, q) = record {
      moved = [];
      queue = subst (IsQueue h q) (sym (append-nil ((target, ds) ∷ post))) v;
      head_is = v.linked.0;
      carried =
          ap (frames h) (append-nil ((target, ds) ∷ post))
          ∙ sym (append-nil (frames h ((target, ds) ∷ post)));
    } in
    elim (Bool-cases (bit_and (h q.head).status own_bits == own_bits_hw)) [
      | inl t ↦ ((h, q), rw (used, t, there) refl, left)
      | inr t ↦ ((h, q), rw (used, t) refl, left)
    ]
put_back_loop-Rotated (suc fuel) rounds target ((d, es) ∷ front) ds post q h v p f =
    let behind : List Packet = (target, ds) ∷ post in
    let s : List Packet = singles (q.terminator ∷ es) in
    let (r1, runs, b) = round-PutBack rounds q h d es (front ++ behind) v p.0.1 in
    let split : (front ++ behind) ++ s ≡ front ++ (behind ++ s) = append_assoc front behind s in
    let agree : Agree h r1.0 (members front) = Agree-front h r1.0 front behind b.same in
    let (r, loops, w) =
      put_back_loop-Rotated fuel rounds target front ds (post ++ s) r1.1 r1.0
        (subst (IsQueue r1.0 r1.1) split b.queue) (Passed-same rounds h r1.0 front agree p.1)
        (omega arith) in
    let used : queue_empty q ≡ false =
      ap (λ (a : ℕ). a == q.terminator) v.linked.0
      ∙ ==-ne d q.terminator (λ e. v.distinct.0.0 (sym e)) in
    let waits : (bit_and (h q.head).status own_bits == own_bits_hw) ≡ true =
      ap (λ (a : ℕ). bit_and (h a).status own_bits == own_bits_hw) v.linked.0 ∙ p.0.0 in
    let apart : NotIn d (members (front ++ behind)) =
      All-right (λ x. d ≢ x) es (members (front ++ behind)) v.distinct.1.0 in
    let elsewhere : (q.head == target) ≡ false =
      ap (λ (a : ℕ). a == target) v.linked.0
      ∙ ==-ne d target (not_target d target ds front post apart) in
    let go : Heap × Queue → Option (Heap × Queue) = λ r. put_back_loop fuel rounds target r.1 r.0 in
    let u = unlink_head q h in
    let round : (reclaim rounds u.2 q.head u.1 >>= go) ≡ some r =
      ap (λ (a : ℕ). reclaim rounds u.2 a u.1 >>= go) v.linked.0
      ∙ ap (λ (o : Option (Heap × Queue)). o >>= go) runs
      ∙ loops in
    let gone : List (List Buffer) = map (empty_frame h) (d ∷ es) in
    let carried : frames r1.0 (behind ++ s) ≡ frames h behind ++ gone =
      map-append (frame r1.0) behind s
      ∙ ap₂ ◌++◌ (frames-Agree h r1.0 behind (Agree-behind h r1.0 front behind b.same))
          (PutBack-fresh h q d es (front ++ behind) r1 b) in
    (
      r,
      rw (used, waits, elsewhere) round,
      record {
        moved = s ++ w.moved;
        queue = subst (IsQueue r.0 r.1) (append_assoc behind s w.moved) w.queue;
        head_is = w.head_is;
        carried =
            ap (frames r.0) (sym (append_assoc behind s w.moved))
            ∙ w.carried
            ∙ ap₂ ◌++◌ carried (emptied_all-Agree h r1.0 front agree)
            ∙ append_assoc (frames h behind) gone (emptied_all h front);
      },
    )
