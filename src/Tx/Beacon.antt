-- ===== src/Tx/Beacon.antt =====
-- The information elements of a beacon: `beacon_find_ie` and the part of `wlan_modify_beacon` that
-- signals buffered frames.
pub mod Elements
pub mod Signal
mod Tests
use carl9170fw.Base.{
  ℕ, zero, suc, ◌+◌, ◌-◌, ◌*◌, ◌%◌, ◌==◌, leb, ltb, if◌then◌else◌, Option, none, some, ◌>>=◌, sub32,
  Bool, true, false, not, ◌&&◌, ◌||◌, bit_and, bit_or,
}

-- The loop of `beacon_find_ie` over the octets of the beacon, places counted from its start; `none`
-- means that the fuel ran out, the inner `none` is the null pointer.
abbrev pub find_loop : ℕ → ℕ → (ℕ → ℕ) → ℕ → ℕ → Option (Option ℕ)
find_loop zero ie octets pos end = none
find_loop (suc fuel) ie octets pos end =
    let rest = find_loop fuel ie octets (pos + (octets (pos + 1) + 2)) end in
    if ltb pos end
    then (if ltb end (pos + 2 + octets (pos + 1))
        then some none
        else (if octets pos == ie then some (some pos) else rest))
    else some none

-- The place of the elements, `u.beacon.variable`: the header, and the fixed fields.
abbrev pub variable : ℕ
variable = 24 + 12

-- `beacon_find_ie`
unfoldable pub beacon_find_ie : ℕ → ℕ → (ℕ → ℕ) → ℕ → Option (Option ℕ)
beacon_find_ie fuel ie octets len = find_loop fuel ie octets variable (sub32 len 4)

-- `enum carl9170_cab_trigger`
pub data CabTrigger : Type 0 where
  empty : CabTrigger
  armed : CabTrigger
  defer : CabTrigger

-- A trigger as a condition.
abbrev pub is_triggered : CabTrigger → Bool
is_triggered empty = false
is_triggered armed = true
is_triggered defer = true

-- What `wlan_modify_beacon` works on: the beacon's octets, whether there are frames in
-- `cab_queue[vif]`, how many wait for their transmission, and `cab_flush_trigger[vif]`.
pub record Cab : Type 0 where
  pub octets : ℕ → ℕ
  pub queue_empty : Bool
  pub queue_len : ℕ
  pub flush_trigger : CabTrigger

abbrev pub write : ℕ → ℕ → (ℕ → ℕ) → ℕ → ℕ
write place value octets i = if i == place then value else octets i

-- WLAN_EID_TIM
abbrev pub eid_tim : ℕ
eid_tim = 5

-- `wlan_modify_beacon` on the element at a place: `dtim_count` is the octet 2 of it, and
-- `bitmap_ctrl` the octet 4.
unfoldable pub update_tim : ℕ → Cab → Cab
update_tim ie c =
    let c1 : Cab =
      if not c.queue_empty && (c.octets (ie + 2) == 0)
      then record c { flush_trigger = armed }
      else (if (c.queue_len == 0) && is_triggered c.flush_trigger
          then record c {
            octets = write (ie + 4) (bit_and (c.octets (ie + 4)) 0xfe) c.octets;
            flush_trigger = empty;
          }
          else c) in
    if is_triggered c1.flush_trigger
    then record c1 { octets = write (ie + 4) (bit_or (c1.octets (ie + 4)) 1) c1.octets }
    else c1

-- `wlan_modify_beacon`, up to the sequence number.
unfoldable pub modify_beacon : ℕ → ℕ → Cab → Option Cab
modify_beacon fuel len c = beacon_find_ie fuel eid_tim c.octets len >>= λ found.
    some (elim found [ none ↦ c | some ie ↦ update_tim ie c ])
