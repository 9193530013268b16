-- ===== src/Hang/Timer.antt =====
-- `wlan_timer` and `wlan_check_rx_overrun`: requests for a reset of the MAC, and when they are
-- followed.
use carl9170fw.Base.{
  ℕ, ◌+◌, ◌-◌, ◌≡◌, ◌<◌, ◌==◌, leb, if◌then◌else◌, List, [], ◌∷◌, Option, none, some, not, ◌&&◌,
  u32, arith,
}
use carl9170fw.Hang.{Seen, Watch, tx_mac_reset, check_hang}

-- The counters of `fw.tally` that the check writes, `fw.wlan.mac_reset`, the triggers of the receive
-- queue, and how often the MAC was reset.
pub record Timer : Type 0 where
  pub watches : List Watch
  pub rx_total : ℕ
  pub rx_overrun : ℕ
  pub mac_reset : ℕ
  pub rx_triggers : ℕ
  pub resets : ℕ

-- `wlan_check_rx_overrun`, for what the two registers read.
unfoldable pub check_rx_overrun : ℕ → ℕ → Timer → Timer
check_rx_overrun total overruns t = record t {
  rx_total = u32 (t.rx_total + total);
  rx_overrun = u32 (t.rx_overrun + overruns);
  mac_reset =
      if not (overruns == 0) && (overruns == total) then u32 (t.mac_reset + 1) else t.mac_reset;
  rx_triggers = if overruns == 0 then t.rx_triggers else t.rx_triggers + 1;
}

-- CARL9170_MAC_RESET_RESET
abbrev pub mac_reset_reset : ℕ
mac_reset_reset = 2

-- What `wlan_mac_reset` does to what is kept of a queue that would go on at `pending`: the stuck
-- frame is forgotten.
abbrev pub reset_watch : Option ℕ → Watch → Watch
reset_watch none w = w
reset_watch (some d) w =
    if leb tx_mac_reset w.last_super_num && (w.last_super == d)
    then record { last_super = 0; last_super_num = 0 }
    else w

abbrev pub reset_watches : List (Option ℕ) → List Watch → List Watch
reset_watches [] ws = ws
reset_watches (o ∷ os) [] = []
reset_watches (o ∷ os) (w ∷ ws) = reset_watch o w ∷ reset_watches os ws

-- The end of `wlan_timer`, where `cached` is the counter from before the checks. What else the
-- reset does is in Hang/Reset.
unfoldable pub follow : List (Option ℕ) → ℕ → Timer → Timer
follow pending cached t =
    if leb mac_reset_reset t.mac_reset
    then record t {
      resets = t.resets + 1;
      mac_reset = 0;
      watches = reset_watches pending t.watches;
    }
    else (if not (t.mac_reset == 0) && (cached == t.mac_reset)
        then record t { mac_reset = t.mac_reset - 1 }
        else t)

-- The pairs of what is seen of a queue and what is kept of it.
abbrev pub pairs : List Seen → List Watch → List (Seen × Watch)
pairs [] ws = []
pairs (q ∷ qs) [] = []
pairs (q ∷ qs) (w ∷ ws) = (q, w) ∷ pairs qs ws

-- `wlan_timer`
unfoldable pub wlan_timer : List Seen → List (Option ℕ) → ℕ → ℕ → Timer → Timer
unfolding check_rx_overrun follow
wlan_timer seen pending total overruns t =
    let hang = check_hang (pairs seen t.watches) t.mac_reset in
    let t1 : Timer = record t { watches = hang.0; mac_reset = hang.1 } in
    follow pending t.mac_reset (check_rx_overrun total overruns t1)

-- With the counter at 0 or 1 and `requests` more in this round, the MAC is reset exactly if there
-- are two in all, the counter then is 0, a round without a request lowers it, and it is at most 1
-- again.
pub follow-decides :
    (pending : List (Option ℕ)) (cached requests : ℕ) (t : Timer)
    → cached < mac_reset_reset
    → t.mac_reset ≡ cached + requests
    → ((follow pending cached t).resets
        ≡ (if leb 2 (cached + requests) then t.resets + 1 else t.resets))
      × ((follow pending cached t).mac_reset ≡ (
          if leb 2 (cached + requests)
          then 0
          else (if requests == 0 then cached - 1 else cached + requests)))
      × ((follow pending cached t).mac_reset < mac_reset_reset)
unfolding follow
follow-decides pending cached requests t p e = ground arith
