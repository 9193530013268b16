-- ===== src/Tx/Path/Held.antt =====
-- Counting the packets in the queues, each with a weight.
use carl9170fw.Base.{
  ℕ, zero, suc, ◌+◌, ◌≡◌, ◌≤◌, ◌<◌, refl, ◌∙◌, ap, ◌==◌, List, [], ◌∷◌, ◌++◌, true, false, arith,
  subst, Bool-cases, inl, inr,
}
use native.Mathlib.Decide.{dec_le}
use carl9170fw.Tx.Path.{TxFrame, Sender, upd, write_frame}

abbrev pub weight : (ℕ → ℕ) → List ℕ → ℕ
weight w [] = 0
weight w (x ∷ xs) = w x + weight w xs

-- The weight of the queues below a number.
abbrev pub weights : (ℕ → ℕ) → ℕ → (ℕ → List ℕ) → ℕ
weights w zero qs = 0
weights w (suc n) qs = weights w n qs + weight w (qs n)

pub weight-append : (w : ℕ → ℕ) (xs ys : List ℕ) → weight w (xs ++ ys) ≡ weight w xs + weight w ys
weight-append w [] ys = omega arith
weight-append w (x ∷ xs) ys = omega (arith, weight-append w xs ys)

weights-upd_above :
    (w : ℕ → ℕ) (n i : ℕ) (qs : ℕ → List ℕ) (v : List ℕ)
    → n ≤ i
    → weights w n (upd qs i v) ≡ weights w n qs
weights-upd_above w zero i qs v p = refl
weights-upd_above w (suc n) i qs v p =
    let t : (n == i) ≡ false = ground arith in
    rw t (ap (λ (k : ℕ). k + weight w (qs n)) (weights-upd_above w n i qs v (omega arith)))

-- One queue is replaced.
pub weights-upd :
    (w : ℕ → ℕ) (n i : ℕ) (qs : ℕ → List ℕ) (v : List ℕ)
    → i < n
    → weights w n (upd qs i v) + weight w (qs i) ≡ weights w n qs + weight w v
weights-upd w zero i qs v p = absurd (omega arith)
weights-upd w (suc n) i qs v p = elim (dec_le n i) [
  | yes q ↦
      let e : n ≡ i = omega arith in
      let t : (n == i) ≡ true = ground arith in
      let below = weights-upd_above w n i qs v q in
      let here : weight w (qs n) ≡ weight w (qs i) = ap (λ (k : ℕ). weight w (qs k)) e in
      rw t (omega (arith, below, here))
  | no q ↦
      let t : (n == i) ≡ false = ground arith in
      rw t (omega (arith, weights-upd w n i qs v (omega arith)))
]

-- The packets in all queues, where there are `n` interfaces.
abbrev pub held : ℕ → (ℕ → ℕ) → Sender → ℕ
held n w s =
    weights w 5 s.tx_queue + weight w s.tx_retry + weights w n s.cab_queue + weight w s.down_queue

-- The fields of a superframe that say where its packet goes.
pub record SameTarget (f g : TxFrame) : Type 0 where
  pub queue_is : f.queue ≡ g.queue
  pub vif_is : f.vif_id ≡ g.vif_id
  pub cab_is : f.cab ≡ g.cab

pub SameTarget-refl : (f : TxFrame) → SameTarget f f
SameTarget-refl f = record { queue_is = refl; vif_is = refl; cab_is = refl }

pub SameTarget-trans : {f g h : TxFrame} → SameTarget f g → SameTarget g h → SameTarget f h
SameTarget-trans p q = record {
  queue_is = p.queue_is ∙ q.queue_is;
  vif_is = p.vif_is ∙ q.vif_is;
  cab_is = p.cab_is ∙ q.cab_is;
}

-- Every superframe keeps its target.
abbrev pub Steady : Sender → Sender → Type 0
Steady s t = (x : ℕ) → SameTarget (t.frame x) (s.frame x)

-- A state with the same packets in the same places.
pub record SameQueues (s t : Sender) : Type 0 where
  pub steady : Steady s t
  pub tx_is : t.tx_queue ≡ s.tx_queue
  pub retry_is : t.tx_retry ≡ s.tx_retry
  pub cab_is : t.cab_queue ≡ s.cab_queue
  pub len_is : t.cab_queue_len ≡ s.cab_queue_len
  pub down_is : t.down_queue ≡ s.down_queue
  pub reports_is : t.reports ≡ s.reports
  pub own_is : t.fw_desc_data ≡ s.fw_desc_data

pub SameQueues-refl : (s : Sender) → SameQueues s s
SameQueues-refl s = record {
  steady = λ x. SameTarget-refl (s.frame x);
  tx_is = refl;
  retry_is = refl;
  cab_is = refl;
  len_is = refl;
  down_is = refl;
  reports_is = refl;
  own_is = refl;
}

pub SameQueues-trans : {s t u : Sender} → SameQueues s t → SameQueues t u → SameQueues s u
SameQueues-trans p q = record {
  steady = λ x. SameTarget-trans (q.steady x) (p.steady x);
  tx_is = q.tx_is ∙ p.tx_is;
  retry_is = q.retry_is ∙ p.retry_is;
  cab_is = q.cab_is ∙ p.cab_is;
  len_is = q.len_is ∙ p.len_is;
  down_is = q.down_is ∙ p.down_is;
  reports_is = q.reports_is ∙ p.reports_is;
  own_is = q.own_is ∙ p.own_is;
}

pub steady-upd :
    (s : Sender) (d : ℕ) (f : TxFrame)
    → SameTarget f (s.frame d)
    → (x : ℕ) → SameTarget (upd s.frame d f x) (s.frame x)
steady-upd s d f p x = elim (Bool-cases (x == d)) [
  | inl t ↦
      let e : d ≡ x = ground (arith, t) in
      let at : SameTarget f (s.frame x) = subst (λ (y : ℕ). SameTarget f (s.frame y)) e p in rw t at
  | inr t ↦ rw t (SameTarget-refl (s.frame x))
]

pub write_frame-SameQueues :
    (s : Sender) (d : ℕ) (f : TxFrame) → SameTarget f (s.frame d) → SameQueues s (write_frame d f s)
write_frame-SameQueues s d f p = record {
  steady = steady-upd s d f p;
  tx_is = refl;
  retry_is = refl;
  cab_is = refl;
  len_is = refl;
  down_is = refl;
  reports_is = refl;
  own_is = refl;
}

pub held-SameQueues : (n : ℕ) (w : ℕ → ℕ) (s t : Sender) → SameQueues s t → held n w t ≡ held n w s
held-SameQueues n w s t p =
    let a : weights w 5 t.tx_queue ≡ weights w 5 s.tx_queue = ap (weights w 5) p.tx_is in
    let b : weight w t.tx_retry ≡ weight w s.tx_retry = ap (weight w) p.retry_is in
    let c : weights w n t.cab_queue ≡ weights w n s.cab_queue = ap (weights w n) p.cab_is in
    let e : weight w t.down_queue ≡ weight w s.down_queue = ap (weight w) p.down_is in
    omega (arith, a, b, c, e)
