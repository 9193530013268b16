-- ===== src/Host/Download.antt =====
-- `handle_download`: the frames that the host has sent are transmitted, or given back if they are
-- clipped. The down queue is the list of its packets.
use carl9170fw.Base.{
  ℕ, ◌+◌, ◌≡◌, ◌<◌, inl, inr, refl, sym, ◌∙◌, ap, subst, ◌==◌, ltb, if◌then◌else◌, List, [], ◌∷◌,
  ◌++◌, Option, some, ◌>>=◌, Bool, true, false, not, ◌&&◌, arith, bit_and, Bool-cases,
}
use carl9170fw.Dma.{own_bits_hw}
use carl9170fw.Tx.Status.{Reports, Attempt, tx_complete}
use carl9170fw.Tx.Status.Waiting.{IsValid}
use carl9170fw.Tx.Status.Report.{tx_complete-Filed}
use carl9170fw.Tx.Path.{TxFrame, Sender, upd, write_frame, tx, superdesc_len}
use carl9170fw.Tx.Path.Done.{attempt}
use carl9170fw.Tx.Path.Held.{weight, weights, weight-append, weights-upd, held, Steady, steady-upd}
use carl9170fw.Tx.Path.Arrival.{Arrived, tx-Arrived}

-- `length_check`: the packet has a superdesc and was not clipped.
unfoldable pub length_check : TxFrame → Bool
length_check f = not (ltb f.total_len superdesc_len) && not (ltb f.total_len f.len)

-- A frame that was clipped is reported as failed, and its packet goes back to the hardware, empty, as
-- `dma_reclaim` leaves it; that it is then one packet for each of its blocks is in Dma/Reclaim.
unfoldable pub give_back : ℕ → Sender → Option Sender
give_back d s = tx_complete 3 (attempt (s.frame d)) false s.reports >>= λ r. some (
    write_frame d (record (s.frame d) { cookie = r.0.cookie; status = own_bits_hw; total_len = 0 })
      (record s { reports = r.1; down_queue = s.down_queue ++ d ∷ [] }))

-- The loop of `handle_download` over the packets of the down queue, up to the first that belongs to
-- the hardware. It returns the packets that are left too.
unfoldable pub handle_download : (ℕ → Bool) → List ℕ → Sender → Option (List ℕ × Sender)
unfolding length_check give_back
handle_download is_back_req [] s = some ([], s)
handle_download is_back_req (d ∷ ds) s =
    let sent = handle_download is_back_req ds (tx is_back_req d s) in
    let returned = give_back d s >>= handle_download is_back_req ds in
    if bit_and (s.frame d).status 3 == 1
    then some (d ∷ ds, s)
    else (if length_check (s.frame d) then sent else returned)

-- Every frame names a queue that there is, and one of `n` interfaces.
pub record IsAddressed (n : ℕ) (s : Sender) : Type 0 where
  pub queues : (x : ℕ) → (s.frame x).queue < 4
  pub vifs : (x : ℕ) → (s.frame x).vif_id < n

Steady-IsAddressed : (n : ℕ) (s t : Sender) → Steady s t → IsAddressed n s → IsAddressed n t
Steady-IsAddressed n s t p a = record {
  queues = λ x. omega (arith, a.queues x, (p x).queue_is);
  vifs = λ x. omega (arith, a.vifs x, (p x).vif_is);
}

tx-held :
    (n : ℕ) (w : ℕ → ℕ) (is_back_req : ℕ → Bool) (d : ℕ) (s : Sender)
    → IsAddressed n s
    → held n w (tx is_back_req d s) ≡ held n w s + w d
tx-held n w is_back_req d s a =
    let t : Sender = tx is_back_req d s in
    let p : Arrived d s t = tx-Arrived is_back_req d s in
    let retries : weight w t.tx_retry ≡ weight w s.tx_retry = ap (weight w) p.others.0 in
    let downs : weight w t.down_queue ≡ weight w s.down_queue = ap (weight w) p.others.1 in
    let q : ℕ = (s.frame d).queue in
    let v : ℕ = (s.frame d).vif_id in
    let q_in : q < 5 = omega (arith, a.queues d) in
    elim (Bool-cases (s.frame d).cab) [
      | inl c ↦
          let b = p.buffered c in
          let cabs : weights w n t.cab_queue
              ≡ weights w n (upd s.cab_queue v (s.cab_queue v ++ d ∷ [])) =
            ap (weights w n) b.0 in
          let txs : weights w 5 t.tx_queue ≡ weights w 5 s.tx_queue = ap (weights w 5) b.1 in
          omega (
            arith,
            retries,
            downs,
            cabs,
            txs,
            weights-upd w n v s.cab_queue (s.cab_queue v ++ d ∷ []) (a.vifs d),
            weight-append w (s.cab_queue v) (d ∷ []),
          )
      | inr c ↦
          let b = p.sent c in
          let cabs : weights w n t.cab_queue ≡ weights w n s.cab_queue = ap (weights w n) b.1 in
          let txs : weights w 5 t.tx_queue
              ≡ weights w 5 (upd s.tx_queue q (s.tx_queue q ++ d ∷ [])) =
            ap (weights w 5) b.0 in
          omega (
            arith,
            retries,
            downs,
            cabs,
            txs,
            weights-upd w 5 q s.tx_queue (s.tx_queue q ++ d ∷ []) q_in,
            weight-append w (s.tx_queue q) (d ∷ []),
          )
    ]

-- The packets that are left start with one of the hardware's.
abbrev pub Stops : Sender → List ℕ → Type 0
Stops s [] = Unit
Stops s (d ∷ ds) = (bit_and (s.frame d).status 3 == 1) ≡ true

-- What handling the down queue promises.
pub record Downloaded (n : ℕ) (ds : List ℕ) (s : Sender) (r : Option (List ℕ × Sender))
    : Type 0 where
  pub left : List ℕ
  pub result : Sender
  pub returns : r ≡ some (left, result)
  pub stops : Stops result left
  pub valid : IsValid result.reports
  pub retries : result.tx_retry ≡ s.tx_retry
  pub all : (w : ℕ → ℕ) → held n w result + weight w left ≡ held n w s + weight w ds

give_back-done :
    (d : ℕ) (s : Sender)
    → IsValid s.reports
    → (t : Sender) × (give_back d s ≡ some t)
      × IsValid t.reports
      × Steady s t
      × (t.tx_retry ≡ s.tx_retry)
      × ((n : ℕ) (w : ℕ → ℕ) → held n w t ≡ held n w s + w d)
unfolding give_back
give_back-done d s v =
    let f : TxFrame = s.frame d in
    let a = tx_complete-Filed s.reports (attempt f) false 0 v in
    let file : Attempt × Reports → Option Sender = λ r. some (
      write_frame d (record f { cookie = r.0.cookie; status = own_bits_hw; total_len = 0 })
        (record s { reports = r.1; down_queue = s.down_queue ++ d ∷ [] })) in
    (
      write_frame d (record f { cookie = 0; status = own_bits_hw; total_len = 0 })
          (record s { reports = a.0; down_queue = s.down_queue ++ d ∷ [] }),
      ap (λ (o : Option (Attempt × Reports)). o >>= file) a.1,
      a.2.valid,
      steady-upd s d (record f { cookie = 0; status = own_bits_hw; total_len = 0 })
          (record { queue_is = refl; vif_is = refl; cab_is = refl }),
      refl,
      λ n w. omega (arith, weight-append w s.down_queue (d ∷ [])),
    )

-- Where each frame names one of the first four queues and one of `n` interfaces, and with a valid
-- cache of reports, the down queue is handled up to the first packet that belongs to the
-- hardware. Every packet before it is held in a transmit queue, among the buffered frames, or
-- in the down queue again, and all that were held before still are: the frames to be tried again
-- stay as they were, and of the packets counted with any weight none is lost and none appears.
pub handle_download-Downloaded :
    (n : ℕ) (is_back_req : ℕ → Bool) (ds : List ℕ) (s : Sender)
    → IsAddressed n s
    → IsValid s.reports
    → Downloaded n ds s (handle_download is_back_req ds s)
unfolding handle_download
handle_download-Downloaded n is_back_req [] s a v = record {
  left = [];
  result = s;
  returns = refl;
  stops = tt;
  valid = v;
  retries = refl;
  all = λ w. refl;
}
handle_download-Downloaded n is_back_req (d ∷ ds) s a v =
    let t : Sender = tx is_back_req d s in
    let p : Arrived d s t = tx-Arrived is_back_req d s in
    let g = give_back-done d s v in
    let sent =
      handle_download-Downloaded n is_back_req ds t (Steady-IsAddressed n s t p.steady a)
        (subst IsValid (sym p.reports_is) v) in
    let given =
      handle_download-Downloaded n is_back_req ds g.0 (Steady-IsAddressed n s g.0 g.3 a) g.2 in
    let rest : Option (List ℕ × Sender) = give_back d s >>= handle_download is_back_req ds in
    let other : Bool → Option (List ℕ × Sender) =
      λ b. if b then handle_download is_back_req ds t else rest in
    let whole : Bool → Option (List ℕ × Sender) =
      λ b. if b then some (d ∷ ds, s) else other (length_check (s.frame d)) in
    elim (Bool-cases (bit_and (s.frame d).status 3 == 1)) [
      | inl x ↦ record {
        left = d ∷ ds;
        result = s;
        returns = ap whole x;
        stops = x;
        valid = v;
        retries = refl;
        all = λ w. refl;
      }
      | inr x ↦ elim (Bool-cases (length_check (s.frame d))) [
        | inl y ↦ record {
          left = sent.left;
          result = sent.result;
          returns = ap whole x ∙ ap other y ∙ sent.returns;
          stops = sent.stops;
          valid = sent.valid;
          retries = sent.retries ∙ p.others.0;
          all = λ w. omega (arith, sent.all w, tx-held n w is_back_req d s a);
        }
        | inr y ↦ record {
          left = given.left;
          result = given.result;
          returns =
              ap whole x
              ∙ ap other y
              ∙ ap (λ (o : Option Sender). o >>= handle_download is_back_req ds) g.1
              ∙ given.returns;
          stops = given.stops;
          valid = given.valid;
          retries = given.retries ∙ g.4;
          all = λ w. omega (arith, given.all w, g.5 n w);
        }
      ]
    ]
