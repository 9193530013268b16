-- ===== src/Tx/Path/Released.antt =====
-- A packet that the hardware is done with leaves its queue and is held elsewhere.
use carl9170fw.Base.{
  ℕ, ◌+◌, ◌≡◌, ◌≤◌, ◌<◌, refl, sym, ◌∙◌, ap, subst, ◌==◌, if◌then◌else◌, List, [], ◌∷◌, ◌++◌,
  Option, some, ◌>>=◌, Bool, true, false, arith, bit_and, bit_or, sub32, Bool-cases, inl, inr,
}
use carl9170fw.Tx.Status.{Reports, Attempt}
use carl9170fw.Tx.Status.Waiting.{IsValid}
use carl9170fw.Tx.Status.Report.{tx_complete-Filed}
use carl9170fw.Dma.{own_bits_hw}
use carl9170fw.Tx.Path.{TxFrame, Sender, upd, write_frame, unhide_super}
use carl9170fw.Tx.Path.Done.{
  txunstuck, tail, unlink_tx, retry_frame, attempt, release_frame, release_own, finish_frame,
}
use carl9170fw.Tx.Path.Held.{
  weight, weight-append, weights-upd, held, SameTarget, SameTarget-refl, SameTarget-trans, Steady,
  steady-upd, SameQueues, SameQueues-refl, SameQueues-trans, write_frame-SameQueues,
  held-SameQueues,
}
use carl9170fw.Tx.Path.Kept.{if-SameQueues}

-- The packets are still held when `s` has become `t`, but for the firmware's own, which is at rest
-- when it is not in a queue.
pub record Holds (s t : Sender) : Type 0 where
  pub valid : IsValid t.reports
  pub steady : Steady s t
  pub own_is : t.fw_desc_data ≡ s.fw_desc_data
  pub at_most : (n : ℕ) (w : ℕ → ℕ) → held n w t ≤ held n w s
  pub all : (n : ℕ) (w : ℕ → ℕ) → w s.fw_desc_data ≡ 0 → held n w t ≡ held n w s

pub Holds-trans : {s t u : Sender} → Holds s t → Holds t u → Holds s u
Holds-trans {s} {t} {u} p q = record {
  valid = q.valid;
  steady = λ x. SameTarget-trans (q.steady x) (p.steady x);
  own_is = q.own_is ∙ p.own_is;
  at_most = λ n w. omega (arith, p.at_most n w, q.at_most n w);
  all = λ n w e. q.all n w (ap w p.own_is ∙ e) ∙ p.all n w e;
}

-- A step that holds exactly what was held.
pub exact :
    {s t : Sender}
    → IsValid t.reports
    → Steady s t
    → t.fw_desc_data ≡ s.fw_desc_data
    → ((n : ℕ) (w : ℕ → ℕ) → held n w t ≡ held n w s)
    → Holds s t
exact v p o h = record {
  valid = v;
  steady = p;
  own_is = o;
  at_most = λ n w. omega (arith, h n w);
  all = λ n w e. h n w;
}

pub SameQueues-Holds : {s t : Sender} → IsValid s.reports → SameQueues s t → Holds s t
SameQueues-Holds {s} {t} v p =
    exact (subst IsValid (sym p.reports_is) v) p.steady p.own_is (λ n w. held-SameQueues n w s t p)

pub txunstuck-SameQueues : (q : ℕ) (s : Sender) → SameQueues s (txunstuck q s)
txunstuck-SameQueues q s = record {
  steady = λ x. SameTarget-refl (s.frame x);
  tx_is = refl;
  retry_is = refl;
  cab_is = refl;
  len_is = refl;
  down_is = refl;
  reports_is = refl;
  own_is = refl;
}

unlink_tx-held :
    (n : ℕ) (w : ℕ → ℕ) (q d : ℕ) (ds : List ℕ) (s : Sender)
    → q < 5
    → s.tx_queue q ≡ d ∷ ds
    → held n w (unlink_tx q s) + w d ≡ held n w s
unlink_tx-held n w q d ds s p e =
    let a = weights-upd w 5 q s.tx_queue (tail (s.tx_queue q)) p in
    let b : weight w (s.tx_queue q) ≡ w d + weight w ds = ap (weight w) e in
    let c : weight w (tail (s.tx_queue q)) ≡ weight w ds =
      ap (λ (xs : List ℕ). weight w (tail xs)) e in
    omega (arith, a, b, c)

==→≡ : (a b : ℕ) → (a == b) ≡ true → a ≡ b
==→≡ a b t = ground arith

-- What one frame that is done leads to.
pub record Outcome (q : ℕ) (s : Sender) (r : Option (Bool × Sender)) : Type 0 where
  pub result : Bool × Sender
  pub returns : r ≡ some result
  pub holds : Holds s result.1
  pub moves_on : result.0 ≡ true → result.1.tx_queue q ≡ tail (s.tx_queue q)

-- The queue of a packet that was taken off, elsewhere.
unlinked : (q : ℕ) (s : Sender) → (unlink_tx q s).tx_queue q ≡ tail (s.tx_queue q)
unlinked q s = let t : (q == q) ≡ true = ground arith in rw t refl

if-SameTarget :
    (b : Bool) (f g h : TxFrame)
    → SameTarget f h
    → SameTarget g h
    → SameTarget (if b then f else g) h
if-SameTarget true f g h p q = p
if-SameTarget false f g h p q = q

SameTarget-sym : {f g : TxFrame} → SameTarget f g → SameTarget g f
SameTarget-sym p = record {
  queue_is = sym p.queue_is;
  vif_is = sym p.vif_is;
  cab_is = sym p.cab_is;
}

-- A second write to a superframe.
write-twice :
    (d : ℕ) (f g : TxFrame) (s : Sender)
    → SameTarget f (s.frame d)
    → SameTarget g (s.frame d)
    → SameQueues s (write_frame d g (write_frame d f s))
write-twice d f g s p q =
    let one : SameQueues s (write_frame d f s) = write_frame-SameQueues s d f p in
    SameQueues-trans one (
      write_frame-SameQueues (write_frame d f s) d g
        (SameTarget-trans q (SameTarget-sym (one.steady d))))

-- The superframe with the flag of a second try.
abbrev flagged : TxFrame → TxFrame
flagged f = if f.retry.ampdu then f else record f { frame_control = bit_or f.frame_control 0x800 }

flagged-SameTarget : (f : TxFrame) → SameTarget (flagged f) f
flagged-SameTarget f =
    if-SameTarget f.retry.ampdu f (record f { frame_control = bit_or f.frame_control 0x800 }) f
      (SameTarget-refl f) (record { queue_is = refl; vif_is = refl; cab_is = refl })

with_status :
    (f g : TxFrame) (status : ℕ) → SameTarget f g → SameTarget (record f { status = status }) g
with_status f g status p = record { queue_is = p.queue_is; vif_is = p.vif_is; cab_is = p.cab_is }

-- A frame to be tried again stays at the head of its queue, or moves to the queue for retries.
pub retry_frame-Outcome :
    (q d : ℕ) (ds : List ℕ) (txfail : Bool) (s : Sender)
    → q < 5
    → s.tx_queue q ≡ d ∷ ds
    → IsValid s.reports
    → Outcome q s (some (retry_frame q d txfail s))
unfolding retry_frame
retry_frame-Outcome q d ds true s p e v =
    let f1 : TxFrame = flagged (s.frame d) in
    let to : SameTarget f1 (s.frame d) = flagged-SameTarget (s.frame d) in
    let f2 : TxFrame = record f1 { status = bit_or (bit_and f1.status 0xfffc) own_bits_hw } in
    let s2 : Sender = write_frame d f2 (write_frame d f1 s) in
    let same : SameQueues s (txunstuck (s.frame d).queue s2) =
      SameQueues-trans
        (write-twice d f1 f2 s to
          (with_status f1 (s.frame d) (bit_or (bit_and f1.status 0xfffc) own_bits_hw) to))
        (txunstuck-SameQueues (s.frame d).queue s2) in
    record {
      result = (false, txunstuck (s.frame d).queue s2);
      returns = refl;
      holds = SameQueues-Holds v same;
      moves_on = λ t. absurd (ground (arith, t));
    }
retry_frame-Outcome q d ds false s p e v =
    let f1 : TxFrame = flagged (s.frame d) in
    let to : SameTarget f1 (s.frame d) = flagged-SameTarget (s.frame d) in
    let f2 : TxFrame = record f1 { status = own_bits_hw } in
    let s2 : Sender = write_frame d f2 (write_frame d f1 s) in
    let same : SameQueues s s2 =
      write-twice d f1 f2 s to (with_status f1 (s.frame d) own_bits_hw to) in
    let t : Sender = record (unlink_tx q s2) { tx_retry = s.tx_retry ++ d ∷ [] } in
    record {
      result = (true, t);
      returns = refl;
      holds = exact v same.steady refl (λ n w.
          omega (arith, unlink_tx-held n w q d ds s p e, weight-append w s.tx_retry (d ∷ [])));
      moves_on = λ x. unlinked q s2;
    }

-- The end for a frame of the host.
release_frame-done :
    (is_back_req : ℕ → Bool) (d : ℕ) (success : Bool) (s : Sender)
    → IsValid s.reports
    → (t : Sender) × (release_frame is_back_req d success s ≡ some t)
      × IsValid t.reports
      × Steady s t
      × (t.fw_desc_data ≡ s.fw_desc_data)
      × (t.tx_queue ≡ s.tx_queue)
      × ((n : ℕ) (w : ℕ → ℕ) → held n w t ≡ held n w s + w d)
unfolding release_frame
release_frame-done is_back_req d success s v =
    let f : TxFrame = s.frame d in
    let a = tx_complete-Filed s.reports (attempt f) success 0 v in
    let file : Attempt × Reports → Option Sender = λ r. some (
      write_frame d (record f { cookie = r.0.cookie })
        (record s {
          cab_queue_len =
              if f.cab
              then upd s.cab_queue_len f.vif_id (sub32 (s.cab_queue_len f.vif_id) 1)
              else s.cab_queue_len;
          reports = r.1;
          queued_bar = if is_back_req f.frame_control then sub32 s.queued_bar 1 else s.queued_bar;
          down_queue = s.down_queue ++ d ∷ [];
        })) in
    let t : Sender =
      write_frame d (record f { cookie = 0 })
        (record s {
          cab_queue_len =
              if f.cab
              then upd s.cab_queue_len f.vif_id (sub32 (s.cab_queue_len f.vif_id) 1)
              else s.cab_queue_len;
          reports = a.0;
          queued_bar = if is_back_req f.frame_control then sub32 s.queued_bar 1 else s.queued_bar;
          down_queue = s.down_queue ++ d ∷ [];
        }) in
    (
      t,
      ap (λ (o : Option (Attempt × Reports)). o >>= file) a.1,
      a.2.valid,
      steady-upd s d (record f { cookie = 0 })
          (record { queue_is = refl; vif_is = refl; cab_is = refl }),
      refl,
      refl,
      λ n w. omega (arith, weight-append w s.down_queue (d ∷ [])),
    )

-- A frame that is sent or given up leaves its queue.
pub finish_frame-done :
    (is_back_req : ℕ → Bool) (q d : ℕ) (ds : List ℕ) (txfail success : Bool) (s : Sender)
    → q < 5
    → s.tx_queue q ≡ d ∷ ds
    → IsValid s.reports
    → (t : Sender) × (finish_frame is_back_req q d txfail success s ≡ some t)
      × Holds s t
      × (t.tx_queue q ≡ tail (s.tx_queue q))
unfolding finish_frame
finish_frame-done is_back_req q d ds txfail success s p e v =
    let s1 : Sender = unlink_tx q s in
    let s2 : Sender = if txfail then txunstuck (s.frame d).queue s1 else s1 in
    let s3 : Sender = write_frame d (unhide_super (s2.frame d)) s2 in
    let same : SameQueues s1 s3 =
      SameQueues-trans
        (if-SameQueues txfail s1 (txunstuck (s.frame d).queue s1) s1
          (txunstuck-SameQueues (s.frame d).queue s1) (SameQueues-refl s1))
        (write_frame-SameQueues s2 d (unhide_super (s2.frame d))
          (record { queue_is = refl; vif_is = refl; cab_is = refl })) in
    let less : (n : ℕ) (w : ℕ → ℕ) → held n w s3 + w d ≡ held n w s =
      λ n w. omega (arith, held-SameQueues n w s1 s3 same, unlink_tx-held n w q d ds s p e) in
    let gone : s3.tx_queue q ≡ tail (s.tx_queue q) =
      ap (λ (qs : ℕ → List ℕ). qs q) same.tx_is ∙ unlinked q s in
    let v3 : IsValid s3.reports = subst IsValid (sym same.reports_is) v in
    elim (Bool-cases (d == s3.fw_desc_data)) [
      | inl t ↦
          let is : d ≡ s.fw_desc_data = omega (arith, same.own_is, ==→≡ d s3.fw_desc_data t) in
          let h : Holds s (release_own d success s3) = record {
            valid = v3;
            steady = same.steady;
            own_is = same.own_is;
            at_most = λ n w. omega (arith, less n w);
            all = λ n w z. let zd : w d ≡ 0 = ap w is ∙ z in omega (arith, less n w, zd);
          } in
          (
            release_own d success s3,
            ap
                (λ (b : Bool).
                  if b
                  then some (release_own d success s3)
                  else release_frame is_back_req d success s3)
                t,
            h,
            gone,
          )
      | inr t ↦
          let a = release_frame-done is_back_req d success s3 v3 in
          let h : Holds s a.0 =
            exact a.2 (λ x. SameTarget-trans (a.3 x) (same.steady x)) (a.4 ∙ same.own_is)
              (λ n w. omega (arith, a.6 n w, less n w)) in
          (
            a.0,
            ap
                  (λ (b : Bool).
                    if b
                    then some (release_own d success s3)
                    else release_frame is_back_req d success s3)
                  t
                ∙ a.1,
            h,
            ap (λ (qs : ℕ → List ℕ). qs q) a.5 ∙ gone,
          )
    ]
