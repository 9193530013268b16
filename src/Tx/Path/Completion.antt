-- ===== src/Tx/Path/Completion.antt =====
-- `handle_wlan_tx_completion` ends and loses no packet.
use carl9170fw.Base.{
  ℕ, zero, suc, ◌+◌, ◌≡◌, ◌≤◌, ◌<◌, refl, sym, ◌∙◌, ap, subst, ◌==◌, if◌then◌else◌, List, [], ◌∷◌,
  length, Option, some, ◌>>=◌, Bool, true, false, not, arith, bit_and, Bool-cases, inl, inr,
}
use native.Mathlib.Decide.{dec_le}
use carl9170fw.Tx.Retry.{Super, tx_consume_retry}
use carl9170fw.Tx.Status.Waiting.{IsValid}
use carl9170fw.Tx.Path.{
  TxFrame, Sender, upd, write_frame, tx_ampdu_reset, tx_ampdu_end, tx_try, trigger_queue,
}
use carl9170fw.Tx.Path.Done.{
  tail, finish_frame, tx_status, completed_loop, retry_all, is_empty, after_completed,
  complete_queue, handle_tx_completion,
}
use carl9170fw.Tx.Path.Held.{
  weight, weights, held, SameTarget-refl, Steady, SameQueues, SameQueues-refl, SameQueues-trans,
  write_frame-SameQueues,
}
use carl9170fw.Tx.Path.Kept.{
  tx_ampdu_reset-SameQueues, tx_ampdu_end-SameQueues, tx_try-held, tx_try-Steady, tx_try-others,
}
use carl9170fw.Tx.Path.Released.{
  Holds, Holds-trans, exact, SameQueues-Holds, Outcome, retry_frame-Outcome, finish_frame-done,
}

-- Another state before, with the same packets.
earlier :
    (q : ℕ) (s t : Sender) (r : Option (Bool × Sender))
    → SameQueues s t
    → IsValid s.reports
    → Outcome q t r
    → Outcome q s r
earlier q s t r p v o = record {
  result = o.result;
  returns = o.returns;
  holds = Holds-trans (SameQueues-Holds v p) o.holds;
  moves_on = λ m. o.moves_on m ∙ ap (λ (qs : ℕ → List ℕ). tail (qs q)) p.tx_is;
}

if-Outcome :
    (q : ℕ) (s : Sender) (b : Bool) (r r' : Option (Bool × Sender))
    → Outcome q s r
    → Outcome q s r'
    → Outcome q s (if b then r else r')
if-Outcome q s true r r' o o' = o
if-Outcome q s false r r' o o' = o'

finish-Outcome :
    (is_back_req : ℕ → Bool) (q d : ℕ) (ds : List ℕ) (txfail success value : Bool) (s : Sender)
    → q < 5
    → s.tx_queue q ≡ d ∷ ds
    → IsValid s.reports
    → Outcome q s (finish_frame is_back_req q d txfail success s >>= λ t. some (value, t))
finish-Outcome is_back_req q d ds txfail success value s p e v =
    let a = finish_frame-done is_back_req q d ds txfail success s p e v in
    record {
      result = (value, a.0);
      returns = ap (λ (o : Option Sender). o >>= λ t. some (value, t)) a.1;
      holds = a.2;
      moves_on = λ m. a.3;
    }

-- The packet at the head of a queue, whatever became of it: the call returns, the packet is held in
-- one of the queues or was the firmware's own, and if the return value says to go on, the queue
-- goes on with the next packet.
tx_status-Outcome :
    (is_back_req : ℕ → Bool) (q d : ℕ) (ds : List ℕ) (s : Sender)
    → q < 5
    → s.tx_queue q ≡ d ∷ ds
    → IsValid s.reports
    → Outcome q s (tx_status is_back_req q d s)
unfolding tx_status
tx_status-Outcome is_back_req q d ds s p e v =
    let f : TxFrame = s.frame d in
    let s0 : Sender = record s { last_super_num = upd s.last_super_num f.queue 0 } in
    let same0 : SameQueues s s0 = record {
      steady = λ x. SameTarget-refl (s.frame x);
      tx_is = refl;
      retry_is = refl;
      cab_is = refl;
      len_is = refl;
      down_is = refl;
      reports_is = refl;
      own_is = refl;
    } in
    let txfail : Bool = not (bit_and f.ctrl 1 == 0) in
    let again : Bool × Super = tx_consume_retry f.retry in
    let f1 : TxFrame = record f { ctrl = bit_and f.ctrl 0xfffc; retry = again.1 } in
    let s1 : Sender = write_frame d f1 s0 in
    let same1 : SameQueues s s1 =
      SameQueues-trans same0 (
        write_frame-SameQueues s0 d f1
          (record { queue_is = refl; vif_is = refl; cab_is = refl })) in
    let sent =
      earlier q s s0 _ same0 v (finish-Outcome is_back_req q d ds false true true s0 p e v) in
    let given_up =
      earlier q s s1 _ same1 v
        (finish-Outcome is_back_req q d ds txfail false (not txfail) s1 p e v) in
    let retried = earlier q s s1 _ same1 v (retry_frame-Outcome q d ds txfail s1 p e v) in
    if-Outcome q s (bit_and f.ctrl 3 == 0) _ _ sent (if-Outcome q s again.0 _ _ retried given_up)

-- With fuel for each packet of the queue and one more, the loop over those that are done ends.
completed_loop-done :
    (fuel : ℕ) (is_back_req : ℕ → Bool) (q : ℕ) (s : Sender) (ds : List ℕ)
    → q < 5
    → s.tx_queue q ≡ ds
    → length ds < fuel
    → IsValid s.reports
    → (t : Sender) × (completed_loop fuel is_back_req q s ds ≡ some t) × Holds s t
completed_loop-done zero is_back_req q s ds p e m v = absurd (omega arith)
completed_loop-done (suc fuel) is_back_req q s [] p e m v =
    (s, refl, SameQueues-Holds v (SameQueues-refl s))
completed_loop-done (suc fuel) is_back_req q s (d ∷ ds) p e m v =
    let o = tx_status-Outcome is_back_req q d ds s p e v in
    let next : Bool × Sender → Option Sender =
      λ r. if r.0 then completed_loop fuel is_back_req q r.1 (r.1.tx_queue q) else some r.1 in
    let stop : (b : Bool) → Option Sender =
      λ b. if b then tx_status is_back_req q d s >>= next else some s in
    let after : tx_status is_back_req q d s >>= next ≡ next o.result =
      ap (λ (r : Option (Bool × Sender)). r >>= next) o.returns in
    elim (Bool-cases (bit_and (s.frame d).status 3 == 0)) [
      | inr t ↦ (s, ap stop t, SameQueues-Holds v (SameQueues-refl s))
      | inl t ↦ elim (Bool-cases o.result.0) [
        | inr u ↦ (
          o.result.1,
          ap stop t
              ∙ after
              ∙ ap
                  (λ (b : Bool).
                    if b
                    then completed_loop fuel is_back_req q o.result.1 (o.result.1.tx_queue q)
                    else some o.result.1)
                  u,
          o.holds,
        )
        | inl u ↦
            let rest : o.result.1.tx_queue q ≡ ds = o.moves_on u ∙ ap tail e in
            let ih =
              completed_loop-done fuel is_back_req q o.result.1 ds p rest (omega arith)
                o.holds.valid in
            (
              ih.0,
              ap stop t
                  ∙ after
                  ∙ ap
                      (λ (b : Bool).
                        if b
                        then completed_loop fuel is_back_req q o.result.1 (o.result.1.tx_queue q)
                        else some o.result.1)
                      u
                  ∙ ap (λ (xs : List ℕ). completed_loop fuel is_back_req q o.result.1 xs) rest
                  ∙ ih.1,
              Holds-trans o.holds ih.2,
            )
      ]
    ]

-- Every packet is for one of the four queues that a field of two bits can name.
abbrev pub HasQueues : Sender → Type 0
HasQueues s = (x : ℕ) → (s.frame x).queue < 4

Steady-HasQueues : (s t : Sender) → Steady s t → HasQueues s → HasQueues t
Steady-HasQueues s t p h x = omega (arith, h x, (p x).queue_is)

retry_all-Holds :
    (ds : List ℕ) (s : Sender)
    → s.tx_retry ≡ ds
    → HasQueues s
    → IsValid s.reports
    → Holds s (retry_all ds s)
retry_all-Holds [] s e h v = SameQueues-Holds v (SameQueues-refl s)
retry_all-Holds (d ∷ ds) s e h v =
    let taken : Sender = record s { tx_retry = ds } in
    let t : Sender = tx_try d taken in
    let o = tx_try-others d taken in
    let vt : IsValid t.reports = subst IsValid (sym o.1) v in
    let step : Holds s t = exact vt (tx_try-Steady d taken) o.2 (λ n w.
      let q : (s.frame d).queue < 5 = omega (arith, h d) in
      let before : weight w s.tx_retry ≡ w d + weight w ds = ap (weight w) e in
      omega (arith, tx_try-held n w d taken q, before)) in
    Holds-trans step
      (retry_all-Holds ds t o.0 (Steady-HasQueues taken t (tx_try-Steady d taken) h) vt)

if-Holds : (b : Bool) (s t u : Sender) → Holds s t → Holds s u → Holds s (if b then t else u)
if-Holds true s t u p q = p
if-Holds false s t u p q = q

after_completed-Holds :
    (q : ℕ) (s : Sender) → HasQueues s → IsValid s.reports → Holds s (after_completed q s)
after_completed-Holds q s h v =
    let s1 : Sender = tx_ampdu_reset q s in
    let p1 : SameQueues s s1 = tx_ampdu_reset-SameQueues q s in
    let v1 : IsValid s1.reports = subst IsValid (sym p1.reports_is) v in
    let s2 : Sender = retry_all s1.tx_retry s1 in
    let h2 : Holds s1 s2 =
      retry_all-Holds s1.tx_retry s1 refl (Steady-HasQueues s s1 p1.steady h) v1 in
    let s3 : Sender = tx_ampdu_end q s2 in
    let h3 : Holds s s3 =
      Holds-trans (SameQueues-Holds v p1)
        (Holds-trans h2 (SameQueues-Holds h2.valid (tx_ampdu_end-SameQueues q s2))) in
    if-Holds (is_empty (s3.tx_queue q)) s s3 (trigger_queue q s3) h3 (record {
      valid = h3.valid;
      steady = h3.steady;
      own_is = h3.own_is;
      at_most = h3.at_most;
      all = h3.all;
    })

length-weight : (xs : List ℕ) → length xs ≡ weight (λ x. 1) xs
length-weight [] = refl
length-weight (x ∷ xs) = omega (arith, length-weight xs)

weight-weights : (w : ℕ → ℕ) (n q : ℕ) (qs : ℕ → List ℕ) → q < n → weight w (qs q) ≤ weights w n qs
weight-weights w zero q qs p = absurd (omega arith)
weight-weights w (suc n) q qs p = elim (dec_le n q) [
  | yes r ↦
      let e : q ≡ n = omega arith in
      let here : weight w (qs q) ≡ weight w (qs n) = ap (λ (k : ℕ). weight w (qs k)) e in
      omega (arith, here)
  | no r ↦ omega (arith, weight-weights w n q qs (omega arith))
]

-- What a step on the way promises: it returns, and all is held.
pub record Returns (s : Sender) (r : Option Sender) : Type 0 where
  pub result : Sender
  pub returns : r ≡ some result
  pub holds : Holds s result

complete_queue-Returns :
    (fuel : ℕ) (is_back_req : ℕ → Bool) (q : ℕ) (s : Sender)
    → q < 5
    → held 0 (λ x. 1) s < fuel
    → HasQueues s
    → IsValid s.reports
    → Returns s (complete_queue fuel is_back_req q s)
complete_queue-Returns fuel is_back_req q s p m h v =
    let few : length (s.tx_queue q) < fuel =
      omega (arith, length-weight (s.tx_queue q), weight-weights (λ x. 1) 5 q s.tx_queue p) in
    let a = completed_loop-done fuel is_back_req q s (s.tx_queue q) p refl few v in
    record {
      result = after_completed q a.0;
      returns = ap (λ (o : Option Sender). o >>= λ t. some (after_completed q t)) a.1;
      holds =
          Holds-trans a.2
            (after_completed-Holds q a.0 (Steady-HasQueues s a.0 a.2.steady h) a.2.valid);
    }

-- One more queue.
chain :
    (s : Sender) (r : Option Sender) (f : Sender → Option Sender)
    → HasQueues s
    → (fuel : ℕ) → held 0 (λ x. 1) s < fuel
    → Returns s r
    → ((t : Sender) → HasQueues t → held 0 (λ x. 1) t < fuel → IsValid t.reports → Returns t (f t))
    → Returns s (r >>= f)
chain s r f h fuel m a k =
    let b : Returns a.result (f a.result) =
      k a.result (Steady-HasQueues s a.result a.holds.steady h)
        (omega (arith, a.holds.at_most 0 (λ x. 1))) a.holds.valid in
    record {
      result = b.result;
      returns = ap (λ (o : Option Sender). o >>= f) a.returns ∙ b.returns;
      holds = Holds-trans a.holds b.holds;
    }

-- With fuel for each packet that is held and one more, with a valid cache of reports, and where each
-- packet names one of the first four queues, the handling of completed transmissions ends. The
-- cache stays valid, and every packet but the firmware's own is held as often as before: in a
-- transmit queue, among the retries, among the buffered frames or in the down queue.
pub handle_tx_completion-Returns :
    (fuel : ℕ) (is_back_req : ℕ → Bool) (s : Sender)
    → held 0 (λ x. 1) s < fuel
    → HasQueues s
    → IsValid s.reports
    → Returns s (handle_tx_completion fuel is_back_req s)
unfolding handle_tx_completion
handle_tx_completion-Returns fuel is_back_req s m h v =
    let one : (q : ℕ)
        → q < 5
        → (t : Sender) → HasQueues t
        → held 0 (λ x. 1) t < fuel
        → IsValid t.reports
        → Returns t (complete_queue fuel is_back_req q t) =
      λ q p t ht mt vt. complete_queue-Returns fuel is_back_req q t p mt ht vt in
    let c : ℕ → Sender → Option Sender = complete_queue fuel is_back_req in
    chain s (c 4 s >>= c 3 >>= c 2 >>= c 1) (c 0) h fuel m
      (chain s (c 4 s >>= c 3 >>= c 2) (c 1) h fuel m
        (chain s (c 4 s >>= c 3) (c 2) h fuel m
          (chain s (c 4 s) (c 3) h fuel m (one 4 (omega arith) s h m v) (one 3 (omega arith)))
          (one 2 (omega arith)))
        (one 1 (omega arith)))
      (one 0 (omega arith))
