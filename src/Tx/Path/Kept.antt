-- ===== src/Tx/Path/Kept.antt =====
-- What the steps on the way of a frame leave as it is, and what queueing it adds.
use carl9170fw.Base.{
  ℕ, ◌+◌, ◌≡◌, ◌<◌, refl, ap₂, ◌==◌, if◌then◌else◌, List, [], ◌∷◌, ◌++◌, Option, none, some, Bool,
  true, false, arith, bit_and, bit_or, ◌*◌, ◌^◌, u16, u32,
}
use carl9170fw.Dma.{own_bits_hw}
use carl9170fw.Tx.Path.{
  TxFrame, Sender, upd, write_frame, same_aggr, tx_ampdu_reset, tx_ampdu_end, end_aggr, end_prev,
  tx_ampdu_prev, tx_ampdu, put_tx, tx_try, assign_seq_to, tx_prepare,
}
use carl9170fw.Tx.Path.Held.{
  weight-append, weights-upd, held, SameTarget-refl, SameTarget-trans, Steady, steady-upd,
  SameQueues, SameQueues-refl, SameQueues-trans, write_frame-SameQueues, held-SameQueues,
}

pub if-SameQueues :
    (b : Bool) (s t u : Sender)
    → SameQueues s t
    → SameQueues s u
    → SameQueues s (if b then t else u)
if-SameQueues true s t u p q = p
if-SameQueues false s t u p q = q

pub tx_ampdu_reset-SameQueues : (q : ℕ) (s : Sender) → SameQueues s (tx_ampdu_reset q s)
unfolding tx_ampdu_reset
tx_ampdu_reset-SameQueues q s = record {
  steady = λ x. SameTarget-refl (s.frame x);
  tx_is = refl;
  retry_is = refl;
  cab_is = refl;
  len_is = refl;
  down_is = refl;
  reports_is = refl;
  own_is = refl;
}

end_aggr-SameQueues : (prev : ℕ) (s : Sender) → SameQueues s (end_aggr prev s)
end_aggr-SameQueues prev s =
    write_frame-SameQueues s prev (record (s.frame prev) { ba_end = true })
      (record { queue_is = refl; vif_is = refl; cab_is = refl })

pub tx_ampdu_end-SameQueues : (q : ℕ) (s : Sender) → SameQueues s (tx_ampdu_end q s)
unfolding tx_ampdu_end
tx_ampdu_end-SameQueues q s =
    SameQueues-trans (prev (s.ampdu_prev q))
      (tx_ampdu_reset-SameQueues q (end_prev (s.ampdu_prev q) s))
  where
    prev : (o : Option ℕ) → SameQueues s (end_prev o s)
    prev none = SameQueues-refl s
    prev (some p) = end_aggr-SameQueues p s

tx_ampdu_prev-SameQueues : (o : Option ℕ) (d : ℕ) (s : Sender) → SameQueues s (tx_ampdu_prev o d s)
tx_ampdu_prev-SameQueues none d s =
    write_frame-SameQueues s d (record (s.frame d) { ba_end = false })
      (record { queue_is = refl; vif_is = refl; cab_is = refl })
tx_ampdu_prev-SameQueues (some prev) d s =
    if-SameQueues (same_aggr (s.frame d) (s.frame prev)) s
      (write_frame d (record (s.frame d) { ba_end = false }) s) (end_aggr prev s)
      (write_frame-SameQueues s d (record (s.frame d) { ba_end = false })
        (record { queue_is = refl; vif_is = refl; cab_is = refl }))
      (end_aggr-SameQueues prev s)

pub tx_ampdu-SameQueues : (d : ℕ) (s : Sender) → SameQueues s (tx_ampdu d s)
unfolding tx_ampdu
tx_ampdu-SameQueues d s =
    let q : ℕ = (s.frame d).queue in
    let s1 : Sender = tx_ampdu_prev (s.ampdu_prev q) d s in
    let p : SameQueues s s1 = tx_ampdu_prev-SameQueues (s.ampdu_prev q) d s in
    if-SameQueues (s.frame d).retry.ampdu s
      (record s1 { ampdu_prev = upd s1.ampdu_prev q (some d) }) (tx_ampdu_end q s)
      (record {
        steady = p.steady;
        tx_is = p.tx_is;
        retry_is = p.retry_is;
        cab_is = p.cab_is;
        len_is = p.len_is;
        down_is = p.down_is;
        reports_is = p.reports_is;
        own_is = p.own_is;
      })
      (tx_ampdu_end-SameQueues q s)

pub assign_seq_to-SameQueues : (d : ℕ) (s : Sender) → SameQueues s (assign_seq_to d s)
unfolding assign_seq_to
assign_seq_to-SameQueues d s =
    let vif : ℕ = (s.frame d).vif_id in
    let seq_ctrl : ℕ = bit_or (bit_and (s.frame d).seq_ctrl 0xf) (u16 (s.sequence vif)) in
    let s1 : Sender = write_frame d (record (s.frame d) { seq_ctrl = seq_ctrl }) s in
    let p : SameQueues s s1 =
      write_frame-SameQueues s d (record (s.frame d) { seq_ctrl = seq_ctrl })
        (record { queue_is = refl; vif_is = refl; cab_is = refl }) in
    if-SameQueues (bit_and seq_ctrl 0xf == 0) s
      (record s1 { sequence = upd s1.sequence vif (u32 (s1.sequence vif + 0x10)) }) s1
      (record {
        steady = p.steady;
        tx_is = p.tx_is;
        retry_is = p.retry_is;
        cab_is = p.cab_is;
        len_is = p.len_is;
        down_is = p.down_is;
        reports_is = p.reports_is;
        own_is = p.own_is;
      })
      p

pub tx_prepare-SameQueues : (d : ℕ) (s : Sender) → SameQueues s (tx_prepare d s)
unfolding tx_prepare
tx_prepare-SameQueues d s =
    let f : TxFrame = s.frame d in
    let s1 : Sender = if f.assign_seq then assign_seq_to d s else s in
    let p1 : SameQueues s s1 =
      if-SameQueues f.assign_seq s (assign_seq_to d s) s (assign_seq_to-SameQueues d s)
        (SameQueues-refl s) in
    let s2 : Sender =
      if f.ampdu_commit_density
      then record s1 {
        density_reg = bit_or (bit_and s1.density_reg 0xfffffff8) (bit_and f.ampdu_density 7);
      }
      else s1 in
    let p2 : SameQueues s s2 =
      if-SameQueues f.ampdu_commit_density s
        (record s1 {
          density_reg = bit_or (bit_and s1.density_reg 0xfffffff8) (bit_and f.ampdu_density 7);
        })
        s1
        (record {
          steady = p1.steady;
          tx_is = p1.tx_is;
          retry_is = p1.retry_is;
          cab_is = p1.cab_is;
          len_is = p1.len_is;
          down_is = p1.down_is;
          reports_is = p1.reports_is;
          own_is = p1.own_is;
        })
        p1 in
    if-SameQueues f.ampdu_commit_factor s
      (record s2 {
        factor_reg =
            bit_or (bit_and s2.factor_reg 0xff80ffff)
              (bit_and (8 * 2 ^ f.ampdu_factor * 65536) 0x7f0000);
      })
      s2
      (record {
        steady = p2.steady;
        tx_is = p2.tx_is;
        retry_is = p2.retry_is;
        cab_is = p2.cab_is;
        len_is = p2.len_is;
        down_is = p2.down_is;
        reports_is = p2.reports_is;
        own_is = p2.own_is;
      })
      p2

-- Queueing a packet adds it to its queue.
pub put_tx-held :
    (n : ℕ) (w : ℕ → ℕ) (d : ℕ) (s : Sender)
    → (s.frame d).queue < 5
    → held n w (put_tx d s) ≡ held n w s + w d
put_tx-held n w d s p =
    let q : ℕ = (s.frame d).queue in
    omega (
      arith,
      weights-upd w 5 q s.tx_queue (s.tx_queue q ++ d ∷ []) p,
      weight-append w (s.tx_queue q) (d ∷ []),
    )

-- What `tx_try` does before the packet is queued.
abbrev before_put : ℕ → Sender → Sender
before_put d s = tx_ampdu d (
    if (s.frame d).fill_in_tsf
    then write_frame d (record (s.frame d) { timestamp = s.tsf }) s
    else s)

before_put-SameQueues : (d : ℕ) (s : Sender) → SameQueues s (before_put d s)
before_put-SameQueues d s =
    let s1 : Sender =
      if (s.frame d).fill_in_tsf
      then write_frame d (record (s.frame d) { timestamp = s.tsf }) s
      else s in
    SameQueues-trans
      (if-SameQueues (s.frame d).fill_in_tsf s
        (write_frame d (record (s.frame d) { timestamp = s.tsf }) s) s
        (write_frame-SameQueues s d (record (s.frame d) { timestamp = s.tsf })
          (record { queue_is = refl; vif_is = refl; cab_is = refl }))
        (SameQueues-refl s))
      (tx_ampdu-SameQueues d s1)

pub tx_try-held :
    (n : ℕ) (w : ℕ → ℕ) (d : ℕ) (s : Sender)
    → (s.frame d).queue < 5
    → held n w (tx_try d s) ≡ held n w s + w d
unfolding tx_try
tx_try-held n w d s p =
    let same : SameQueues s (before_put d s) = before_put-SameQueues d s in
    let q : ((before_put d s).frame d).queue < 5 = omega (arith, p, (same.steady d).queue_is) in
    omega (arith, put_tx-held n w d (before_put d s) q, held-SameQueues n w s (before_put d s) same)

pub tx_try-Steady : (d : ℕ) (s : Sender) → Steady s (tx_try d s)
unfolding tx_try
tx_try-Steady d s x =
    let t : Sender = before_put d s in
    SameTarget-trans
      (steady-upd t d (record (t.frame d) { status = own_bits_hw })
        (record { queue_is = refl; vif_is = refl; cab_is = refl }) x)
      ((before_put-SameQueues d s).steady x)

-- The other queues stay.
pub tx_try-others :
    (d : ℕ) (s : Sender)
    → ((tx_try d s).tx_retry ≡ s.tx_retry)
      × ((tx_try d s).reports ≡ s.reports)
      × ((tx_try d s).fw_desc_data ≡ s.fw_desc_data)
      × ((tx_try d s).cab_queue ≡ s.cab_queue)
      × ((tx_try d s).down_queue ≡ s.down_queue)
unfolding tx_try
tx_try-others d s =
    let p : SameQueues s (before_put d s) = before_put-SameQueues d s in
    (p.retry_is, p.reports_is, p.own_is, p.cab_is, p.down_is)

pub tx_try-puts :
    (d : ℕ) (s : Sender)
    → (tx_try d s).tx_queue
      ≡ upd s.tx_queue (s.frame d).queue (s.tx_queue (s.frame d).queue ++ d ∷ [])
unfolding tx_try
tx_try-puts d s =
    let p : SameQueues s (before_put d s) = before_put-SameQueues d s in
    ap₂ (λ (q : ℕ) (qs : ℕ → List ℕ). upd qs q (qs q ++ d ∷ [])) (p.steady d).queue_is p.tx_is
