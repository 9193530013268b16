-- ===== src/Wol/Wake.antt =====
-- The decision to wake the host: `wol_rx`, `wol_janitor` and what they call, for a build with
-- CONFIG_CARL9170FW_WOL_NL80211_TRIGGERS and CONFIG_CARL9170FW_WOL_PROBE_REQUEST.
pub mod Ssid
pub mod Lost
use carl9170fw.Base.{
  ℕ, zero, suc, ◌+◌, ◌-◌, ◌*◌, ◌/◌, ◌==◌, leb, ltb, if◌then◌else◌, List, [], ◌∷◌, map, get_or, u32,
  sub32, Bool, true, false, not, ◌&&◌, ◌||◌, bit_and,
}
use carl9170fw.Wol.Magic.{wol_magic_packet}

-- `is_after_msecs`: the clock counter, and `fw.ticks_per_usec`.
abbrev pub is_after_msecs : ℕ → ℕ → ℕ → ℕ → Bool
is_after_msecs now ticks_per_usec t0 msecs =
    ltb (u32 (msecs * ticks_per_usec)) (sub32 now t0 / 1000)

-- `enum carl9170_suspend_mode`
pub data SuspendMode : Type 0 where
  host_awake : SuspendMode
  host_suspended : SuspendMode
  awake_host : SuspendMode

-- `fw.wol`, with what else this code reads and writes: the addresses in the MAC's registers,
-- `fw.suspend_mode`, `fw.wlan.fw_desc_available`, and how often it has told the USB part to wake
-- the host and asked for a nullfunc frame.
pub record Wol : Type 0 where
  pub flags : ℕ
  pub null_interval : ℕ
  pub last_beacon : ℕ
  pub lost_null : ℕ
  pub last_null : ℕ
  pub wake_up : Bool
  pub mac : List ℕ
  pub bssid : List ℕ
  pub suspend_mode : SuspendMode
  pub fw_desc_available : Bool
  pub wake_signals : ℕ
  pub null_frames : ℕ

-- A received frame: what the `ieee80211_is_` tests of linux/ieee80211.h say of its frame control,
-- its third address, its length, its octets from the header on as far as memory goes, and those
-- between the header and the end.
pub record Hdr : Type 0 where
  pub is_deauth : Bool
  pub is_disassoc : Bool
  pub is_beacon : Bool
  pub is_probe_req : Bool
  pub addr3 : List ℕ
  pub hdrlen : ℕ
  pub len : ℕ
  pub octets : ℕ → ℕ

-- `n` octets of memory from a place on, and those between the header and the end.
abbrev pub slice : (ℕ → ℕ) → ℕ → ℕ → List ℕ
slice octets i zero = []
slice octets i (suc n) = octets i ∷ slice octets (i + 1) n

abbrev pub body : Hdr → List ℕ
body hdr = slice hdr.octets hdr.hdrlen (hdr.len - hdr.hdrlen)

-- `word & bit`, as a condition.
abbrev pub has : ℕ → ℕ → Bool
has word bit = not (bit_and word bit == 0)

-- CARL9170_WOL_DISCONNECT and CARL9170_WOL_MAGIC_PKT
abbrev pub wol_disconnect : ℕ
wol_disconnect = 1

abbrev pub wol_magic_pkt : ℕ
wol_magic_pkt = 2

-- CARL9170_RX_FILTER_OTHER_RA, _MGMT and _DATA
abbrev pub filter_other_ra : ℕ
filter_other_ra = 0x02

abbrev pub filter_mgmt : ℕ
filter_mgmt = 0x40

abbrev pub filter_data : ℕ
filter_data = 0x80

-- `wlan_wol_connect_callback`
abbrev pub connect_callback : Bool → Wol → Wol
connect_callback success w = record w { lost_null = if success then 0 else u32 (w.lost_null + 1) }

-- `wlan_wol_connection_monitor`, without the format of the frame that it gives to `wlan_tx_fw`,
-- which takes the descriptor.
abbrev pub connection_monitor : Wol → Wol
connection_monitor w =
    if w.fw_desc_available
    then record w { fw_desc_available = false; null_frames = suc w.null_frames }
    else w

-- `compare_ether_address`, the equality of six octets, is a parameter of what uses it.
module _ (same_address : List ℕ → List ℕ → Bool) where
  -- `wlan_rx_wol_disconnect`, at a clock counter
  pub rx_wol_disconnect : ℕ → ℕ → Hdr → Wol → Bool × Wol
  rx_wol_disconnect now rx_filter hdr w =
      if not (has rx_filter filter_other_ra) && (hdr.is_deauth || hdr.is_disassoc)
      then (true, w)
      else (if hdr.is_beacon && same_address hdr.addr3 w.bssid
          then (false, record w { last_beacon = now })
          else (false, w))

-- The information element that a probe request is compared with: `probe_req`.
abbrev pub probe_req : ℕ → List ℕ → List ℕ
probe_req ssid_len ssid = 0 ∷ ssid_len ∷ ssid

-- The offset of the elements in a probe request: `u.probe_req.variable`
abbrev pub variable : ℕ
variable = 24

-- The loop of `wlan_rx_wol_probe_ssid` with `n` rounds to go at the index `i`.
abbrev pub probe_loop : ℕ → ℕ → List ℕ → Hdr → Bool
probe_loop zero i scan hdr = true
probe_loop (suc n) i scan hdr =
    let rest = probe_loop n (i + 1) scan hdr in
    if ltb hdr.len variable
    then false
    else (if get_or scan i 0 == hdr.octets (variable + i) then rest else false)

-- `wlan_rx_wol_probe_ssid`
unfoldable pub rx_wol_probe_ssid : ℕ → List ℕ → Hdr → Bool
rx_wol_probe_ssid ssid_len ssid hdr =
    if hdr.is_probe_req then probe_loop (ssid_len + 1) 0 (probe_req ssid_len ssid) hdr else false

-- `wol_rx`
pub wol_rx : (List ℕ → List ℕ → Bool) → List ℕ → ℕ → ℕ → ℕ → Hdr → Wol → Wol
wol_rx same_address ssid ssid_len now rx_filter hdr w =
    let d : Bool × Wol =
      if has w.flags wol_disconnect && has rx_filter filter_mgmt
      then rx_wol_disconnect same_address now rx_filter hdr w
      else (false, w) in
    let w1 : Wol = record d.1 { wake_up = d.1.wake_up || d.0 } in
    let w2 : Wol = record w1 {
      wake_up =
          w1.wake_up
          || (has w1.flags wol_magic_pkt
              && has rx_filter filter_data
              && wol_magic_packet w1.mac (body hdr));
    } in
    record w2 {
      wake_up = w2.wake_up || (has rx_filter filter_mgmt && rx_wol_probe_ssid ssid_len ssid hdr);
    }

abbrev pub is_suspended : SuspendMode → Bool
is_suspended host_awake = false
is_suspended host_suspended = true
is_suspended awake_host = false

-- The part of `wol_janitor` for CARL9170_WOL_DISCONNECT.
pub watch_connection : ℕ → ℕ → Wol → Wol
watch_connection now ticks w =
    let w1 : Wol = record w {
      wake_up = w.wake_up || is_after_msecs now ticks w.last_beacon 10000;
    } in
    let w2 : Wol =
      if not (w1.null_interval == 0) && is_after_msecs now ticks w1.last_null w1.null_interval
      then connection_monitor w1
      else w1 in
    record w2 { wake_up = w2.wake_up || leb 5 w2.lost_null }

-- `wol_janitor`
pub wol_janitor : ℕ → ℕ → Wol → Wol
wol_janitor now ticks w =
    if is_suspended w.suspend_mode
    then (let w1 : Wol = if has w.flags wol_disconnect then watch_connection now ticks w else w in
        if w1.wake_up
        then record w1 { suspend_mode = awake_host; wake_signals = suc w1.wake_signals }
        else w1)
    else w
