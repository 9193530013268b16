-- ===== src/Hang/Given.antt =====
-- A stuck frame is given up by the reset and reported as failed.
use carl9170fw.Base.{
  ℕ, zero, suc, ◌≡◌, ◌≢◌, ◌<◌, refl, sym, ◌∙◌, ap, ap₂, ◌==◌, ==-ne, ==-self, leb, List, [], ◌∷◌,
  ◌++◌, Option, none, some, bit_and, true, false, ◌&&◌, arith, Bool-cases, inl, inr, All, subst,
}
use mathlib.Core.Option.{some-injective, some-ne-none}
use carl9170fw.Tx.Path.{TxFrame}
use carl9170fw.Tx.Path.Done.{first_pending}
use carl9170fw.Hang.{tx_mac_reset}
use carl9170fw.Hang.Reset.{
  Mac, give_up, is_stuck, killed, kill_stuck, reset_queue, reset_queues, queue_order,
}

-- What a step leaves alone, as far as the frame `d` and the queue `i` go.
pub record Same (i d : ℕ) (m m' : Mac) : Type 0 where
  pub frame : m'.sender.frame d ≡ m.sender.frame d
  pub num : m'.sender.last_super_num i ≡ m.sender.last_super_num i
  pub last : m'.last_super i ≡ m.last_super i

-- What no step of the reset touches.
pub record Rest (m m' : Mac) : Type 0 where
  pub queues : m'.sender.tx_queue ≡ m.sender.tx_queue
  pub reports : m'.sender.reports ≡ m.sender.reports
  pub own : m'.sender.fw_desc_data ≡ m.sender.fw_desc_data
  pub regs : m'.regs ≡ m.regs

Rest-trans : {m m' m'' : Mac} → Rest m m' → Rest m' m'' → Rest m m''
Rest-trans p q = record {
  queues = q.queues ∙ p.queues;
  reports = q.reports ∙ p.reports;
  own = q.own ∙ p.own;
  regs = q.regs ∙ p.regs;
}

Same-trans : (i d : ℕ) {m m' m'' : Mac} → Same i d m m' → Same i d m' m'' → Same i d m m''
Same-trans i d p q = record {
  frame = q.frame ∙ p.frame;
  num = q.num ∙ p.num;
  last = q.last ∙ p.last;
}

first_pending-All {κ} :
    (P : ℕ → Type κ) (frame : ℕ → TxFrame) (ds : List ℕ) (x : ℕ)
    → All P ds
    → first_pending frame ds ≡ some x
    → P x
first_pending-All P frame [] x a e = absurd (some-ne-none x (sym e))
first_pending-All P frame (d ∷ ds) x a e = elim (Bool-cases (bit_and (frame d).status 3 == 0)) [
  | inl t ↦
      let goes : first_pending frame (d ∷ ds) ≡ first_pending frame ds = rw t refl in
      first_pending-All P frame ds x a.1 (sym goes ∙ e)
  | inr t ↦
      let stops : first_pending frame (d ∷ ds) ≡ some d = rw t refl in
      subst P (some-injective d x (sym stops ∙ e)) a.0
]

Rest-refl : (m : Mac) → Rest m m
Rest-refl m = record { queues = refl; reports = refl; own = refl; regs = refl }

Same-refl : (i d : ℕ) (m : Mac) → Same i d m m
Same-refl i d m = record { frame = refl; num = refl; last = refl }

killed-Rest : (j x : ℕ) (m : Mac) → Rest m (killed j x m)
unfolding killed
killed-Rest j x m = record { queues = refl; reports = refl; own = refl; regs = refl }

killed-Same : (i d j x : ℕ) (m : Mac) → i ≢ j → d ≢ x → Same i d m (killed j x m)
unfolding killed
killed-Same i d j x m ne away = record {
  frame = rw (==-ne d x away) refl;
  num = rw (==-ne i j ne) refl;
  last = rw (==-ne i j ne) refl;
}

-- A step on another queue, in which the frame is not.
kill_other :
    (i d j : ℕ) (o : Option ℕ) (m : Mac)
    → i ≢ j
    → ((x : ℕ) → o ≡ some x → d ≢ x)
    → Same i d m (kill_stuck j o m).1 × Rest m (kill_stuck j o m).1
unfolding kill_stuck
kill_other i d j none m ne away = (Same-refl i d m, Rest-refl m)
kill_other i d j (some x) m ne away = elim (Bool-cases (is_stuck j x m)) [
  | inl t ↦ rw t (killed-Same i d j x m ne (away x refl), killed-Rest j x m)
  | inr t ↦ rw t (Same-refl i d m, Rest-refl m)
]

kill_any : (j : ℕ) (o : Option ℕ) (m : Mac) → Rest m (kill_stuck j o m).1
unfolding kill_stuck
kill_any j none m = Rest-refl m
kill_any j (some x) m = elim (Bool-cases (is_stuck j x m)) [
  | inl t ↦ rw t (killed-Rest j x m)
  | inr t ↦ rw t (Rest-refl m)
]

-- The frame `d` stands in no queue but `i`.
abbrev pub OnlyIn : ℕ → ℕ → (ℕ → List ℕ) → Type 0
OnlyIn i d queues = (j : ℕ) → i ≢ j → All (λ x. d ≢ x) (queues j)

-- A step on another queue.
queue_other :
    (i d j : ℕ) (r : ℕ × Mac)
    → i ≢ j
    → OnlyIn i d r.1.sender.tx_queue
    → Same i d r.1 (reset_queue j r).1
unfolding reset_queue
queue_other i d j r ne away =
    let m : Mac = r.1 in
    let at = first_pending m.sender.frame (m.sender.tx_queue j) in
    let one = kill_other i d j at m ne (λ x e.
      first_pending-All (λ x. d ≢ x) m.sender.frame (m.sender.tx_queue j) x (away j ne) e) in
    record { frame = one.0.frame; num = one.0.num; last = one.0.last }

queue_any : (j : ℕ) (r : ℕ × Mac) → Rest r.1 (reset_queue j r).1
unfolding reset_queue
queue_any j r =
    let m : Mac = r.1 in
    let one = kill_any j (first_pending m.sender.frame (m.sender.tx_queue j)) m in
    record { queues = one.queues; reports = one.reports; own = one.own; regs = one.regs }

pub queues-Rest : (js : List ℕ) (r : ℕ × Mac) → Rest r.1 (reset_queues js r).1
queues-Rest [] r = Rest-refl r.1
queues-Rest (j ∷ js) r = Rest-trans (queue_any j r) (queues-Rest js (reset_queue j r))

others-Same :
    (i d : ℕ) (js : List ℕ) (r : ℕ × Mac)
    → All (λ j. i ≢ j) js
    → OnlyIn i d r.1.sender.tx_queue
    → Same i d r.1 (reset_queues js r).1
others-Same i d [] r ne away = Same-refl i d r.1
others-Same i d (j ∷ js) r ne away = Same-trans i d (queue_other i d j r ne.0 away) (
    others-Same i d js (reset_queue j r) ne.1
      (subst (OnlyIn i d) (sym (queue_any j r).queues) away))

-- The stuck frame is in front of its queue, and not done.
pub record Stuck (i d : ℕ) (ds : List ℕ) (m : Mac) : Type 0 where
  pub front : m.sender.tx_queue i ≡ d ∷ ds
  pub only : OnlyIn i d m.sender.tx_queue
  pub not_done : (bit_and (m.sender.frame d).status 3 == 0) ≡ false
  pub stuck : is_stuck i d m ≡ true

Stuck-Same :
    (i d : ℕ) (ds : List ℕ) (m m' : Mac)
    → Same i d m m'
    → Rest m m'
    → Stuck i d ds m
    → Stuck i d ds m'
Stuck-Same i d ds m m' p q h = record {
  front = ap (λ (qs : ℕ → List ℕ). qs i) q.queues ∙ h.front;
  only = subst (OnlyIn i d) (sym q.queues) h.only;
  not_done = ap (λ (f : TxFrame). bit_and f.status 3 == 0) p.frame ∙ h.not_done;
  stuck = ap₂ (λ (n l : ℕ). leb tx_mac_reset n && (l == d)) p.num p.last ∙ h.stuck;
}

queue_own :
    (i d : ℕ) (ds : List ℕ) (r : ℕ × Mac)
    → Stuck i d ds r.1
    → (reset_queue i r).1.sender.frame d ≡ give_up (r.1.sender.frame d)
unfolding reset_queue kill_stuck killed
queue_own i d ds r h =
    let at : first_pending r.1.sender.frame (r.1.sender.tx_queue i) ≡ some d =
      ap (first_pending r.1.sender.frame) h.front ∙ rw h.not_done refl in
    rw (at, h.stuck, ==-self d) refl

-- The place of a queue in the loop.
queue_place :
    (i : ℕ)
    → i < 5
    → (js ks : List ℕ) × (queue_order ≡ js ++ i ∷ ks) × All (λ j. i ≢ j) js × All (λ j. i ≢ j) ks
queue_place zero p = (
  4 ∷ 3 ∷ 2 ∷ 1 ∷ [],
  [],
  refl,
  (
    λ e. absurd (omega arith),
    (λ e. absurd (omega arith), (λ e. absurd (omega arith), (λ e. absurd (omega arith), tt))),
  ),
  tt,
)
queue_place (suc zero) p = (
  4 ∷ 3 ∷ 2 ∷ [],
  0 ∷ [],
  refl,
  (λ e. absurd (omega arith), (λ e. absurd (omega arith), (λ e. absurd (omega arith), tt))),
  (λ e. absurd (omega arith), tt),
)
queue_place (suc (suc zero)) p = (
  4 ∷ 3 ∷ [],
  1 ∷ 0 ∷ [],
  refl,
  (λ e. absurd (omega arith), (λ e. absurd (omega arith), tt)),
  (λ e. absurd (omega arith), (λ e. absurd (omega arith), tt)),
)
queue_place (suc (suc (suc zero))) p = (
  4 ∷ [],
  2 ∷ 1 ∷ 0 ∷ [],
  refl,
  (λ e. absurd (omega arith), tt),
  (λ e. absurd (omega arith), (λ e. absurd (omega arith), (λ e. absurd (omega arith), tt))),
)
queue_place (suc (suc (suc (suc zero)))) p = (
  [],
  3 ∷ 2 ∷ 1 ∷ 0 ∷ [],
  refl,
  tt,
  (
    λ e. absurd (omega arith),
    (λ e. absurd (omega arith), (λ e. absurd (omega arith), (λ e. absurd (omega arith), tt))),
  ),
)
queue_place (suc (suc (suc (suc (suc i))))) p = absurd (omega arith)

reset_queues-append :
    (js ks : List ℕ) (r : ℕ × Mac) → reset_queues (js ++ ks) r ≡ reset_queues ks (reset_queues js r)
reset_queues-append [] ks r = refl
reset_queues-append (j ∷ js) ks r = reset_queues-append js ks (reset_queue j r)

-- The loop gives the stuck frame up.
pub queues-give_up :
    (i d : ℕ) (ds : List ℕ) (r : ℕ × Mac)
    → i < 5
    → Stuck i d ds r.1
    → (reset_queues queue_order r).1.sender.frame d ≡ give_up (r.1.sender.frame d)
queues-give_up i d ds r p h =
    let (js, ks, order, before, behind) = queue_place i p in
    let r1 : ℕ × Mac = reset_queues js r in
    let r2 : ℕ × Mac = reset_queue i r1 in
    let a = others-Same i d js r before h.only in
    let q1 = queues-Rest js r in
    let h1 = Stuck-Same i d ds r.1 r1.1 a q1 h in
    let q2 = queue_any i r1 in
    let c =
      others-Same i d ks r2 behind (subst (OnlyIn i d) (sym (Rest-trans q1 q2).queues) h.only) in
    ap (λ is. (reset_queues is r).1.sender.frame d) order
    ∙ ap (λ (t : ℕ × Mac). t.1.sender.frame d) (reset_queues-append js (i ∷ ks) r)
    ∙ c.frame
    ∙ queue_own i d ds r1 h1
    ∙ ap give_up a.frame
