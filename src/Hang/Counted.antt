-- ===== src/Hang/Counted.antt =====
-- What one check of all queues does for a stuck one.
use carl9170fw.Base.{
  ℕ, zero, suc, ◌+◌, ◌≡◌, ◌≤◌, ◌<◌, ◌^◌, refl, sym, ◌∙◌, ap, ap₂, leb, if◌then◌else◌, List, [], ◌∷◌,
  length, get_elem?, some, false, arith,
}
use mathlib.Core.Option.{some-injective, some-ne-none}
use carl9170fw.Hang.Stuck.{counted, stuck-round}
use carl9170fw.Hang.{Seen, Watch, tx_mac_reset, check_queue, check_hang}
use carl9170fw.Hang.Timer.{pairs}

-- The queue at place `k` has the frame `d` in front, and this was seen `n` times again.
abbrev pub IsStuckFor : ℕ → ℕ → ℕ → List Watch → Type 0
IsStuckFor k d n ws = get_elem? ws k ≡ some (record { last_super = d; last_super_num = n })

-- A queue asks for one reset at most, and takes no request back.
check_queue-adds :
    (q : Seen) (w : Watch) (m : ℕ)
    → m + 1 < 2 ^ 32
    → (m ≤ (check_queue q w m).1) × ((check_queue q w m).1 ≤ m + 1)
unfolding check_queue
check_queue-adds q w m p = ground arith

check_hang-adds :
    (qs : List Seen) (ws : List Watch) (m : ℕ)
    → m + length ws < 2 ^ 32
    → (m ≤ (check_hang (pairs qs ws) m).1)
      × ((check_hang (pairs qs ws) m).1 ≤ m + length ws)
      × (length (check_hang (pairs qs ws) m).0 ≤ length ws)
check_hang-adds [] ws m p = (omega arith, omega arith, omega arith)
check_hang-adds (q ∷ qs) [] m p = (omega arith, omega arith, omega arith)
check_hang-adds (q ∷ qs) (w ∷ ws) m p =
    let a = check_queue-adds q w m (omega arith) in
    let b = check_hang-adds qs ws (check_queue q w m).1 (omega (arith, a.1)) in
    (omega (arith, a.0, b.0), omega (arith, a.1, b.1), omega (arith, b.2))

-- What the check of all queues does for the stuck one at place `k`.
pub record Counts (k d n m : ℕ) (ws : List Watch) (r : List Watch × ℕ) : Type 0 where
  pub seen_again : IsStuckFor k d (suc n) r.0
  pub at_least : m + (if leb tx_mac_reset (suc n) then 1 else 0) ≤ r.1
  pub at_most : r.1 ≤ m + length ws
  pub no_more : length r.0 ≤ length ws

pub check_hang-Counts :
    (k d n m : ℕ) (qs : List Seen) (ws : List Watch)
    → get_elem? qs k ≡ some (record { is_empty = false; payload = d })
    → IsStuckFor k d n ws
    → suc n < 2 ^ 32
    → m + length ws < 2 ^ 32
    → Counts k d n m ws (check_hang (pairs qs ws) m)
check_hang-Counts k d n m [] ws s w p q = absurd (some-ne-none _ (sym s))
check_hang-Counts k d n m (x ∷ qs) [] s w p q = absurd (some-ne-none _ (sym w))
check_hang-Counts zero d n m (x ∷ qs) (y ∷ ws) s w p q =
    let m1 : ℕ = if leb tx_mac_reset (suc n) then suc m else m in
    let own : check_queue x y m ≡ counted d (suc n) m1 =
      ap₂ (λ (x : Seen) (y : Watch). check_queue x y m) (some-injective _ _ s)
        (some-injective _ _ w)
      ∙ stuck-round d n m m1 p (omega arith) refl in
    let watch : (check_queue x y m).0 ≡ record { last_super = d; last_super_num = suc n } =
      ap (λ (r : Watch × ℕ). r.0) own in
    let count : (check_queue x y m).1 ≡ m1 = ap (λ (r : Watch × ℕ). r.1) own in
    let a = check_queue-adds x y m (omega arith) in
    let b = check_hang-adds qs ws (check_queue x y m).1 (omega (arith, a.1)) in
    record {
      seen_again = ap (λ (w : Watch). some w) watch;
      at_least = ground (arith, count, b.0);
      at_most = omega (arith, a.1, b.1);
      no_more = omega (arith, b.2);
    }
check_hang-Counts (suc k) d n m (x ∷ qs) (y ∷ ws) s w p q =
    let a = check_queue-adds x y m (omega arith) in
    let rest = check_hang-Counts k d n (check_queue x y m).1 qs ws s w p (omega (arith, a.1)) in
    record {
      seen_again = rest.seen_again;
      at_least = omega (arith, a.0, rest.at_least);
      at_most = omega (arith, a.1, rest.at_most);
      no_more = omega (arith, rest.no_more);
    }
