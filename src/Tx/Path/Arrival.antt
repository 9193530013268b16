-- ===== src/Tx/Path/Arrival.antt =====
-- Where a new frame goes, and where the buffered frames go when they are flushed.
use carl9170fw.Base.{
  ℕ, ◌+◌, ◌≡◌, ◌≢◌, ◌<◌, refl, sym, ◌∙◌, ap, ap₂, subst, ◌==◌, if◌then◌else◌, List, [], ◌∷◌, ◌++◌,
  Bool, true, false, arith, Bool-cases, inl, inr, ==-ne,
}
use carl9170fw.Dma.{own_bits_hw}
use carl9170fw.Tx.Path.{
  TxFrame, Sender, upd, write_frame, tx_try, tx_prepare, tx, tx_start, put_cab, trigger_queue,
  hide_super,
}
use carl9170fw.Tx.Path.Done.{is_empty}
use carl9170fw.Tx.Path.Buffered.{more_data, flush_frame, flush_all, cab_flush_queue}
use carl9170fw.Tx.Path.Held.{
  weight, weights, weight-append, weights-upd, SameTarget-refl, SameTarget-trans, Steady,
  steady-upd, SameQueues, SameQueues-trans, write_frame-SameQueues,
}
use carl9170fw.Tx.Path.Kept.{tx_prepare-SameQueues, tx_try-Steady, tx_try-others, tx_try-puts}

-- Where a new frame goes.
pub record Arrived (d : ℕ) (s t : Sender) : Type 0 where
  pub sent :
      (s.frame d).cab ≡ false
      → (t.tx_queue ≡ upd s.tx_queue (s.frame d).queue (s.tx_queue (s.frame d).queue ++ d ∷ []))
        × (t.cab_queue ≡ s.cab_queue)
  pub buffered :
      (s.frame d).cab ≡ true
      → (t.cab_queue
          ≡ upd s.cab_queue (s.frame d).vif_id (s.cab_queue (s.frame d).vif_id ++ d ∷ []))
        × (t.tx_queue ≡ s.tx_queue)
  pub others : (t.tx_retry ≡ s.tx_retry) × (t.down_queue ≡ s.down_queue)
  pub reports_is : t.reports ≡ s.reports
  pub steady : Steady s t

start-SameQueues :
    (is_back_req : ℕ → Bool) (d : ℕ) (s : Sender) → SameQueues s (tx_start is_back_req d s)
start-SameQueues is_back_req d s = record {
  steady =
      steady-upd s d
        (hide_super (record (s.frame d) { retry = record (s.frame d).retry { rix = 0; cnt = 1 } }))
        (record { queue_is = refl; vif_is = refl; cab_is = refl });
  tx_is = refl;
  retry_is = refl;
  cab_is = refl;
  len_is = refl;
  down_is = refl;
  reports_is = refl;
  own_is = refl;
}

true≢false : true ≢ false
true≢false e = ground (arith, e)

-- A frame that is sent at once, prepared in `s`.
sent-puts :
    (d : ℕ) (s r : Sender)
    → SameQueues s r
    → (tx_try d r).tx_queue
      ≡ upd s.tx_queue (s.frame d).queue (s.tx_queue (s.frame d).queue ++ d ∷ [])
sent-puts d s r p =
    tx_try-puts d r
    ∙ ap₂ (λ (q : ℕ) (qs : ℕ → List ℕ). upd qs q (qs q ++ d ∷ [])) (p.steady d).queue_is p.tx_is

cab-Arrived :
    (d : ℕ) (s r : Sender) → SameQueues s r → (s.frame d).cab ≡ true → Arrived d s (put_cab d r)
cab-Arrived d s r p t = record {
  sent = λ f. absurd (true≢false (sym t ∙ f));
  buffered = λ x. (
    ap₂ (λ (v : ℕ) (qs : ℕ → List ℕ). upd qs v (qs v ++ d ∷ [])) (p.steady d).vif_is p.cab_is,
    p.tx_is,
  );
  others = (p.retry_is, p.down_is);
  reports_is = p.reports_is;
  steady = λ x.
      SameTarget-trans
        (steady-upd r d (record (r.frame d) { status = own_bits_hw })
          (record { queue_is = refl; vif_is = refl; cab_is = refl }) x)
        (p.steady x);
}

sent-Arrived :
    (d q : ℕ) (s r : Sender)
    → SameQueues s r
    → (s.frame d).cab ≡ false
    → Arrived d s (trigger_queue q (tx_try d r))
sent-Arrived d q s r p t =
    let o = tx_try-others d r in
    record {
      sent = λ x. (sent-puts d s r p, o.3 ∙ p.cab_is);
      buffered = λ f. absurd (true≢false (sym f ∙ t));
      others = (o.0 ∙ p.retry_is, o.4 ∙ p.down_is);
      reports_is = o.1 ∙ p.reports_is;
      steady = λ x. SameTarget-trans (tx_try-Steady d r x) (p.steady x);
    }

-- A new frame is put at the end of the queue that it names, or, if it is for many receivers, at the
-- end of the buffered frames of its interface. No other queue changes.
pub tx-Arrived : (is_back_req : ℕ → Bool) (d : ℕ) (s : Sender) → Arrived d s (tx is_back_req d s)
unfolding tx
tx-Arrived is_back_req d s =
    let s1 : Sender = tx_start is_back_req d s in
    let p1 : SameQueues s s1 = start-SameQueues is_back_req d s in
    let s2 : Sender = tx_prepare d s1 in
    let p2 : SameQueues s s2 = SameQueues-trans p1 (tx_prepare-SameQueues d s1) in
    let at : Bool → Type 0 = λ b.
      Arrived d s (if b then put_cab d s1 else trigger_queue (s.frame d).queue (tx_try d s2)) in
    elim (Bool-cases (s.frame d).cab) [
      | inl t ↦ subst at (sym t) (cab-Arrived d s s1 p1 t)
      | inr t ↦ subst at (sym t) (sent-Arrived d (s.frame d).queue s s2 p2 t)
    ]

-- What a flush of an interface's buffered frames promises.
pub record Flushed (vif : ℕ) (s t : Sender) : Type 0 where
  pub emptied : t.cab_queue vif ≡ []
  pub moved :
      (w : ℕ → ℕ) → weights w 5 t.tx_queue ≡ weights w 5 s.tx_queue + weight w (s.cab_queue vif)
  pub other : (v : ℕ) → v ≢ vif → t.cab_queue v ≡ s.cab_queue v
  pub elsewhere : (t.tx_retry ≡ s.tx_retry) × (t.down_queue ≡ s.down_queue)
  pub steady : Steady s t

flush_all-Flushed :
    (vif : ℕ) (ds : List ℕ) (s : Sender)
    → s.cab_queue vif ≡ ds
    → ((x : ℕ) → (s.frame x).queue < 4)
    → Flushed vif s (flush_all vif ds s)
flush_all-Flushed vif [] s e h = record {
  emptied = e;
  moved = λ w.
      let none_left : weight w (s.cab_queue vif) ≡ 0 = ap (weight w) e in omega (arith, none_left);
  other = λ v n. refl;
  elsewhere = (refl, refl);
  steady = λ x. SameTarget-refl (s.frame x);
}
flush_all-Flushed vif (d ∷ ds) s e h =
    let s0 : Sender = record s { cab_queue = upd s.cab_queue vif ds } in
    let f : TxFrame = record (s.frame d) {
      frame_control = more_data (is_empty ds) (s.frame d).frame_control;
    } in
    let s1 : Sender = write_frame d f s0 in
    let p1 : SameQueues s0 s1 =
      write_frame-SameQueues s0 d f (record { queue_is = refl; vif_is = refl; cab_is = refl }) in
    let s2 : Sender = tx_prepare d s1 in
    let p2 : SameQueues s0 s2 = SameQueues-trans p1 (tx_prepare-SameQueues d s1) in
    let t : Sender = flush_frame d (is_empty ds) s0 in
    let o = tx_try-others d s2 in
    let puts : t.tx_queue
        ≡ upd s.tx_queue (s.frame d).queue (s.tx_queue (s.frame d).queue ++ d ∷ []) =
      sent-puts d s0 s2 p2 in
    let steady : Steady s t = λ x. SameTarget-trans (tx_try-Steady d s2 x) (p2.steady x) in
    let cabs : t.cab_queue ≡ upd s.cab_queue vif ds = o.3 ∙ p2.cab_is in
    let here : upd s.cab_queue vif ds vif ≡ ds =
      (let b : (vif == vif) ≡ true = ground arith in rw b refl) in
    let ih : Flushed vif t (flush_all vif ds t) =
      flush_all-Flushed vif ds t (ap (λ (qs : ℕ → List ℕ). qs vif) cabs ∙ here)
        (λ x. omega (arith, h x, (steady x).queue_is)) in
    record {
      emptied = ih.emptied;
      moved = λ w.
          let before : weight w (s.cab_queue vif) ≡ w d + weight w ds = ap (weight w) e in
          let q : (s.frame d).queue < 5 = omega (arith, h d) in
          let one : weights w 5 t.tx_queue
              ≡ weights w 5
                  (upd s.tx_queue (s.frame d).queue (s.tx_queue (s.frame d).queue ++ d ∷ [])) =
            ap (weights w 5) puts in
          let left : weight w (t.cab_queue vif) ≡ weight w ds =
            ap (weight w) (ap (λ (qs : ℕ → List ℕ). qs vif) cabs ∙ here) in
          omega (
            arith,
            before,
            one,
            left,
            ih.moved w,
            weights-upd w 5 (s.frame d).queue s.tx_queue (s.tx_queue (s.frame d).queue ++ d ∷ []) q,
            weight-append w (s.tx_queue (s.frame d).queue) (d ∷ []),
          );
      other = λ v n.
          let b : (v == vif) ≡ false = ==-ne v vif n in
          let kept : upd s.cab_queue vif ds v ≡ s.cab_queue v = rw b refl in
          ih.other v n ∙ ap (λ (qs : ℕ → List ℕ). qs v) cabs ∙ kept;
      elsewhere = (ih.elsewhere.0 ∙ o.0 ∙ p2.retry_is, ih.elsewhere.1 ∙ o.4 ∙ p2.down_is);
      steady = λ x. SameTarget-trans (ih.steady x) (steady x);
    }

-- Where each packet names one of the first four queues, a flush empties the buffered frames of the
-- interface and moves each of them to a transmit queue, as often as it was there. The other
-- interfaces' frames, the retries and the down queue stay.
pub cab_flush_queue-Flushed :
    (vif : ℕ) (s : Sender)
    → ((x : ℕ) → (s.frame x).queue < 4)
    → Flushed vif s (cab_flush_queue vif s)
unfolding cab_flush_queue
cab_flush_queue-Flushed vif s h = flush_all-Flushed vif (s.cab_queue vif) s refl h
