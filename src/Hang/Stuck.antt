-- ===== src/Hang/Stuck.antt =====
-- When `wlan_check_hang` asks for a reset.
use carl9170fw.Base.{
  ℕ, zero, suc, ◌+◌, ◌-◌, ◌≡◌, ◌≢◌, ◌<◌, ◌^◌, refl, ◌∙◌, ap, leb, if◌then◌else◌, List, [], ◌∷◌,
  true, false, arith, All, ◌⊎◌,
}
use carl9170fw.Hang.{Watch, Seen, tx_mac_reset, check_queue, check_hang}

-- Rounds of the check on a queue that shows the same frame each time.
abbrev pub rounds : ℕ → Seen → Watch × ℕ → Watch × ℕ
rounds zero q r = r
rounds (suc n) q r = let before = rounds n q r in check_queue q before.0 before.1

abbrev pub counted : ℕ → ℕ → ℕ → Watch × ℕ
counted payload n mac_reset = (record { last_super = payload; last_super_num = n }, mac_reset)

pub stuck-round :
    (payload n mac_reset m' : ℕ)
    → suc n < 2 ^ 32
    → suc mac_reset < 2 ^ 32
    → m' ≡ (if leb tx_mac_reset (suc n) then suc mac_reset else mac_reset)
    → check_queue
        (record { is_empty = false; payload = payload })
        (record { last_super = payload; last_super_num = n })
        mac_reset
      ≡ counted payload (suc n) m'
unfolding check_queue
stuck-round payload n mac_reset m' p q e = ground arith

-- While the counters stay below 2 ^ 32, a queue that shows the same frame again in each of `n`
-- rounds has asked for a reset of the MAC in each of them from the seventh on, and not before.
pub rounds-stuck :
    (n payload mac_reset : ℕ)
    → mac_reset + n < 2 ^ 32
    → rounds n (record { is_empty = false; payload = payload }) (counted payload 0 mac_reset)
      ≡ counted payload n (mac_reset + (n - 6))
rounds-stuck zero payload mac_reset p =
    ap (counted payload 0) {x = mac_reset} {y = mac_reset + (0 - 6)} (omega arith)
rounds-stuck (suc n) payload mac_reset p =
    ap (λ (r : Watch × ℕ). check_queue (record { is_empty = false; payload = payload }) r.0 r.1)
      (rounds-stuck n payload mac_reset (omega arith))
    ∙ stuck-round payload n (mac_reset + (n - 6)) (mac_reset + (suc n - 6)) (omega arith)
        (omega arith) (ground arith)

-- A queue that is empty or has moved on.
abbrev pub Moves : Seen × Watch → Type 0
Moves q = (q.0.is_empty ≡ true) ⊎ (q.0.payload ≢ q.1.last_super)

moves-keeps :
    (q : Seen) (w : Watch) (mac_reset : ℕ)
    → (q.is_empty ≡ true) ⊎ (q.payload ≢ w.last_super)
    → (check_queue q w mac_reset).1 ≡ mac_reset
unfolding check_queue
moves-keeps q w mac_reset m = ground arith

-- As long as each queue is empty or has moved on since the last round, no reset is asked for.
pub check_hang-moving :
    (qs : List (Seen × Watch)) (mac_reset : ℕ)
    → All Moves qs
    → (check_hang qs mac_reset).1 ≡ mac_reset
check_hang-moving [] mac_reset a = refl
check_hang-moving (q ∷ qs) mac_reset a =
    check_hang-moving qs (check_queue q.0 q.1 mac_reset).1 a.1 ∙ moves-keeps q.0 q.1 mac_reset a.0
