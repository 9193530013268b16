-- ===== src/Tx/Status/Report.antt =====
-- Every report is kept until it goes into a message, and the cache never overflows.
use carl9170fw.Base.{
  ℕ, suc, ◌+◌, ◌%◌, ◌==◌, ◌≡◌, refl, ◌∙◌, ap, ap₂, [], ◌∷◌, ◌++◌, Option, some, ◌>>=◌, arith, set,
  length-set, u32, Bool, true, false, if◌then◌else◌,
}
use native.Mathlib.Decide.{dec_le}
use carl9170fw.Ring.{window-set}
use carl9170fw.Usb.{Usb}
use carl9170fw.Tx.Status.{
  TxStatus, Reports, Attempt, blank_status, tx_status_num, get_tx_status_buffer, report,
  tx_complete,
}
use carl9170fw.Tx.Status.Waiting.{waiting, IsInBounds, IsValid, deliver}
use carl9170fw.Tx.Status.Flush.{moved, send_buffered_tx_status-moved}

-- The first part of `tx_complete`: the slot, and the reports sent where the cache was full.
abbrev pub flushed : Reports → Reports
flushed s = if s.pending == tx_status_num then moved s (deliver s) 0 s.head_idx else s

-- The state after a report.
pub filed : Reports → TxStatus → Reports
filed s t = record (flushed s) {
  tail_idx = (s.tail_idx + 1) % tx_status_num;
  pending = suc (flushed s).pending;
  cache = set s.cache s.tail_idx t;
}

abbrev out : Reports → Attempt → Bool → Usb → ℕ → ℕ → ℕ → Option (Attempt × Reports)
out s a txs u p h t = some (
  record a { cookie = 0 },
  record s {
    usb = u;
    pending = p;
    head_idx = h;
    tail_idx = t;
    cache = set s.cache s.tail_idx (report a txs);
  },
)

abbrev then_file : ℕ → Attempt → Bool → Option Reports → Option (Attempt × Reports)
then_file tmp a txs o =
    ◌>>=◌ {A = ℕ × Reports} (o >>= λ s2. some (tmp, record s2 { pending = u32 (s2.pending + 1) }))
      (λ r. some (record a { cookie = 0 }, record r.1 { cache = set r.1.cache r.0 (report a txs) }))

-- What `tx_complete` does with a report, where three rounds of fuel are given.
pub tx_complete-filed :
    (s : Reports) (a : Attempt) (txs : Bool) (fuel : ℕ)
    → IsValid s
    → tx_complete (suc (suc (suc fuel))) a txs s
      ≡ some (record a { cookie = 0 }, filed s (report a txs))
unfolding tx_complete get_tx_status_buffer filed moved
tx_complete-filed s a txs fuel v =
    let tail : u32 (s.tail_idx + 1) % 30 ≡ (s.tail_idx + 1) % 30 = omega (arith, v.tail_is) in
    elim (dec_le 30 s.pending) [
      | yes p ↦
          let e : s.pending ≡ 30 = omega (arith, v.in_bounds.pending_in) in
          let b : (s.pending == 30) ≡ true = ground arith in
          let s1 : Reports = record s { tail_idx = u32 (s.tail_idx + 1) % 30 } in
          let v1 : IsInBounds s1 = record {
            slots = v.in_bounds.slots;
            head_in = v.in_bounds.head_in;
            pending_in = v.in_bounds.pending_in;
          } in
          let head : (s.head_idx + s.pending) % 30 ≡ s.head_idx =
            omega (arith, v.in_bounds.head_in) in
          rw b (
            ap (then_file s.tail_idx a txs) (send_buffered_tx_status-moved s1 fuel v1)
            ∙ ap₂ (λ (h t : ℕ). out s a txs (deliver s) 1 h t) head tail)
      | no n ↦
          let b : (s.pending == 30) ≡ false = ground arith in
          let p : u32 (s.pending + 1) ≡ suc s.pending = omega (arith, v.in_bounds.pending_in) in
          rw b (ap₂ (λ (p t : ℕ). out s a txs s.usb p s.head_idx t) p tail)
    ]

-- A report goes behind those that wait, which are sent first where the cache is full, and the
-- state stays well-formed.
pub record Filed (s s' : Reports) (t : TxStatus) : Type 0 where
  pub valid : IsValid s'
  pub reports : waiting s' ≡ (if s.pending == tx_status_num then [] else waiting s) ++ t ∷ []
  pub sent : s'.usb ≡ (if s.pending == tx_status_num then deliver s else s.usb)

filed-Filed : (s : Reports) (t : TxStatus) → IsValid s → Filed s (filed s t) t
unfolding filed moved
filed-Filed s t v = elim (dec_le 30 s.pending) [
  | yes p ↦
      let e : s.pending ≡ 30 = omega (arith, v.in_bounds.pending_in) in
      let b : (s.pending == 30) ≡ true = ground arith in
      rw b (record {
        valid = record {
          in_bounds = record {
            slots = length-set s.cache s.tail_idx t ∙ v.in_bounds.slots;
            head_in = v.in_bounds.head_in;
            pending_in = omega arith;
          };
          tail_is = omega (arith, v.tail_is);
        };
        reports = rw b (
            window-set blank_status 30 s.cache t 0 s.head_idx s.tail_idx
              (omega (arith, v.in_bounds.slots)) v.in_bounds.head_in (omega arith)
              (omega (arith, v.tail_is)));
        sent = rw b refl;
      })
  | no n ↦
      let b : (s.pending == 30) ≡ false = ground arith in
      rw b (record {
        valid = record {
          in_bounds = record {
            slots = length-set s.cache s.tail_idx t ∙ v.in_bounds.slots;
            head_in = v.in_bounds.head_in;
            pending_in = omega (arith, v.in_bounds.pending_in);
          };
          tail_is = omega (arith, v.tail_is);
        };
        reports = rw b (
            window-set blank_status 30 s.cache t s.pending s.head_idx s.tail_idx
              (omega (arith, v.in_bounds.slots)) v.in_bounds.head_in
              (omega (arith, v.in_bounds.pending_in)) v.tail_is);
        sent = rw b refl;
      })
]

-- From a well-formed cache, and with fuel for three rounds, `wlan_tx_complete` returns. It resets
-- the frame's cookie, the frame's report is then the last of those that wait, all others that
-- waited either still do or, if the cache was full, went into messages for the host before, and
-- the cache is well-formed.
pub tx_complete-Filed :
    (s : Reports) (a : Attempt) (txs : Bool) (fuel : ℕ)
    → IsValid s
    → (s' : Reports) × (tx_complete (suc (suc (suc fuel))) a txs s
        ≡ some (record a { cookie = 0 }, s'))
      × Filed s s' (report a txs)
tx_complete-Filed s a txs fuel v =
    (filed s (report a txs), tx_complete-filed s a txs fuel v, filed-Filed s (report a txs) v)
