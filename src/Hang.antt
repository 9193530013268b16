-- ===== src/Hang.antt =====
-- carlfw/src/wlan.c: `wlan_check_hang`. A queue that shows the same frame in front at each round is
-- stuck; after some rounds it asks for a reset of the MAC.
pub mod Stuck
pub mod Timer
pub mod Reported
pub mod Counted
pub mod Watched
pub mod Reset
pub mod Given
pub mod Released
pub mod Recovery
mod Tests
use carl9170fw.Base.{
  ℕ, zero, suc, ◌+◌, ◌-◌, ◌==◌, leb, if◌then◌else◌, List, [], ◌∷◌, u32, Bool, true, false, not,
  ◌&&◌,
}

-- CARL9170FW_TX_MAC_RESET
abbrev pub tx_mac_reset : ℕ
tx_mac_reset = 7

-- What `wlan_check_hang` keeps of a queue, `last_super[i]` and `last_super_num[i]`.
pub record Watch : Type 0 where
  pub last_super : ℕ
  pub last_super_num : ℕ

-- What it sees of the queue: whether it is empty, and the payload at the hardware's position.
pub record Seen : Type 0 where
  pub is_empty : Bool
  pub payload : ℕ

-- The loop's body, without CONFIG_CARL9170FW_DEBUG and the bump: the queue and `mac_reset`.
unfoldable pub check_queue : Seen → Watch → ℕ → Watch × ℕ
check_queue q w mac_reset =
    if q.is_empty
    then (w, mac_reset)
    else (if q.payload == w.last_super
        then (let num = u32 (w.last_super_num + 1) in
            (
              record w { last_super_num = num },
              if leb tx_mac_reset num then u32 (mac_reset + 1) else mac_reset,
            ))
        else (record { last_super = q.payload; last_super_num = 0 }, mac_reset))

-- `wlan_check_hang`, on the queues in the order of the loop.
abbrev pub check_hang : List (Seen × Watch) → ℕ → List Watch × ℕ
check_hang [] mac_reset = ([], mac_reset)
check_hang (q ∷ qs) mac_reset =
    let r = check_queue q.0 q.1 mac_reset in let rest = check_hang qs r.1 in (r.0 ∷ rest.0, rest.1)
