-- ===== src/Hang/Released.antt =====
-- What becomes of a frame that the reset has given up, in `wlan_tx_status`.
use carl9170fw.Base.{
  ℕ, ◌/◌, ◌%◌, ◌≡◌, ◌≢◌, ◌≤◌, refl, ◌∙◌, ap, subst, ◌==◌, ==-ne, ==-self, leb, if◌then◌else◌, List,
  [], ◌∷◌, ◌++◌, Option, some, ◌>>=◌, bit_and, bit_or, Bool, true, false, not, sub32, arith,
  bit_and-digit, bit_or-digit, bit_and-first, bit_and-two,
}
use carl9170fw.Tx.Status.{Reports, Attempt, report}
use carl9170fw.Tx.Status.Waiting.{IsValid}
use carl9170fw.Tx.Status.Report.{Filed, tx_complete-Filed}
use carl9170fw.Tx.Retry.{Super, rate, tx_consume_retry}
use carl9170fw.Tx.Path.{TxFrame, Sender, upd, write_frame, unhide_super}
use carl9170fw.Tx.Path.Done.{
  tail, unlink_tx, retry_frame, attempt, release_frame, finish_frame, tx_status,
}
use carl9170fw.Hang.Reset.{give_up}

-- The marks of a frame that was given up.
failed_bits :
    (c : ℕ)
    → (bit_and (bit_or (bit_and c 0xfffc) 2) 3 ≡ 2) × (bit_and (bit_or (bit_and c 0xfffc) 2) 1 ≡ 0)
failed_bits c =
    let x : ℕ = bit_and c 0xfffc in
    let low : x % 4 ≡ 0 = omega (arith, bit_and-digit c 0xfffc, bit_and-digit (c / 2) 0x7ffe) in
    let v : bit_or x 2 % 4 ≡ 2 = omega (arith, low, bit_or-digit x 2, bit_or-digit (x / 2) 1) in
    (omega (arith, v, bit_and-two (bit_or x 2)), omega (arith, v, bit_and-first (bit_or x 2)))

-- It has no tries left: no rate has more than seven.
no_tries :
    (r : Super)
    → (rate r 3).tries ≤ 7
    → tx_consume_retry (record r { cnt = 7; rix = 3 }) ≡ (false, record r { cnt = 7; rix = 3 })
unfolding tx_consume_retry
no_tries r p = let spent : leb (rate r 3).tries 7 ≡ true = ground arith in rw spent refl

-- What `wlan_tx_status` does with it, in front of its queue.
pub record Released (d : ℕ) (ds : List ℕ) (q : ℕ) (a : Attempt) (s t : Sender) : Type 0 where
  pub moved_on : t.tx_queue q ≡ ds
  pub returned : t.down_queue ≡ s.down_queue ++ d ∷ []
  pub reported : Filed s.reports t.reports (report a false)

release-Filed :
    (is_back_req : ℕ → Bool) (d : ℕ) (s : Sender)
    → IsValid s.reports
    → (t : Sender) × (release_frame is_back_req d false s ≡ some t)
      × (t.tx_queue ≡ s.tx_queue)
      × (t.down_queue ≡ s.down_queue ++ d ∷ [])
      × Filed s.reports t.reports (report (attempt (s.frame d)) false)
unfolding release_frame
release-Filed is_back_req d s v =
    let f : TxFrame = s.frame d in
    let a = tx_complete-Filed s.reports (attempt f) false 0 v in
    let file : Attempt × Reports → Option Sender = λ r. some (
      write_frame d (record f { cookie = r.0.cookie })
        (record s {
          cab_queue_len =
              if f.cab
              then upd s.cab_queue_len f.vif_id (sub32 (s.cab_queue_len f.vif_id) 1)
              else s.cab_queue_len;
          reports = r.1;
          queued_bar = if is_back_req f.frame_control then sub32 s.queued_bar 1 else s.queued_bar;
          down_queue = s.down_queue ++ d ∷ [];
        })) in
    (
      write_frame d (record f { cookie = 0 })
          (record s {
            cab_queue_len =
                if f.cab
                then upd s.cab_queue_len f.vif_id (sub32 (s.cab_queue_len f.vif_id) 1)
                else s.cab_queue_len;
            reports = a.0;
            queued_bar = if is_back_req f.frame_control then sub32 s.queued_bar 1 else s.queued_bar;
            down_queue = s.down_queue ++ d ∷ [];
          }),
      ap (λ (o : Option (Attempt × Reports)). o >>= file) a.1,
      refl,
      refl,
      a.2,
    )

-- `wlan_tx_status` after the counters were set: the frame leaves its queue.
finish-Released :
    (is_back_req : ℕ → Bool) (q d : ℕ) (ds : List ℕ) (a : Attempt) (s : Sender)
    → s.tx_queue q ≡ d ∷ ds
    → IsValid s.reports
    → d ≢ s.fw_desc_data
    → attempt (s.frame d) ≡ a
    → (t : Sender) × (finish_frame is_back_req q d false false s ≡ some t) × Released d ds q a s t
unfolding finish_frame
finish-Released is_back_req q d ds a s e v host is =
    let s3 : Sender = write_frame d (unhide_super (s.frame d)) (unlink_tx q s) in
    let same : attempt (s3.frame d) ≡ a = rw (==-self d) is in
    let (t, runs, queues, downs, filed) = release-Filed is_back_req d s3 v in
    (
      t,
      rw (==-ne d s.fw_desc_data host) runs,
      record {
        moved_on = ap (λ (qs : ℕ → List ℕ). qs q) queues ∙ rw (==-self q) (ap tail e);
        returned = downs;
        reported = subst (λ a. Filed s.reports t.reports (report a false)) same filed;
      },
    )

-- A frame that was given up and is in front of its queue is not tried again.
pub given_up-Released :
    (is_back_req : ℕ → Bool) (q d : ℕ) (ds : List ℕ) (f : TxFrame) (s : Sender)
    → s.tx_queue q ≡ d ∷ ds
    → s.frame d ≡ give_up f
    → (rate f.retry 3).tries ≤ 7
    → IsValid s.reports
    → d ≢ s.fw_desc_data
    → (t : Sender) × (tx_status is_back_req q d s ≡ some (true, t))
      × Released d ds q (record { cookie = f.cookie; queue = f.queue; rix = 3; cnt = 7 }) s t
unfolding tx_status give_up
given_up-Released is_back_req q d ds f s e g tries v host =
    let n : TxFrame = give_up f in
    let bits = failed_bits f.ctrl in
    let s1 : Sender =
      write_frame d (record n { ctrl = bit_and n.ctrl 0xfffc; retry = n.retry })
        (record s { last_super_num = upd s.last_super_num n.queue 0 }) in
    let done =
      finish-Released is_back_req q d ds
        (record { cookie = f.cookie; queue = f.queue; rix = 3; cnt = 7 }) s1 e v host
        (rw (==-self d) refl) in
    let body : TxFrame → Option (Bool × Sender) = λ g.
      let again = tx_consume_retry g.retry in
      let txfail = not (bit_and g.ctrl 1 == 0) in
      let s0 : Sender = record s { last_super_num = upd s.last_super_num g.queue 0 } in
      let s2 : Sender =
        write_frame d (record g { ctrl = bit_and g.ctrl 0xfffc; retry = again.1 }) s0 in
      if bit_and g.ctrl 3 == 0
      then finish_frame is_back_req q d false true s0 >>= (λ t. some (true, t))
      else (if again.0
          then some (retry_frame q d txfail s2)
          else finish_frame is_back_req q d txfail false s2 >>= (λ t. some (not txfail, t))) in
    let spent = no_tries f.retry tries in
    let failed : (bit_and n.ctrl 3 == 0) ≡ false = ground (arith, bits.0) in
    let seen : (bit_and n.ctrl 1 == 0) ≡ true = ground (arith, bits.1) in
    let last : body n ≡ some (true, done.0) =
      rw (failed, seen, spent) (ap (λ (o : Option Sender). o >>= λ t. some (true, t)) done.1) in
    (
      done.0,
      ap body g ∙ last,
      record { moved_on = done.2.moved_on; returned = done.2.returned; reported = done.2.reported },
    )
