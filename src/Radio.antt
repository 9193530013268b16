-- ===== src/Radio.antt =====
-- carlfw/src/rf.c: the power save steps of the radio, `rf_psm`. The registers of the converters
-- are written along with the one that is kept here.
pub mod Sleep
mod Tests
use carl9170fw.Base.{
  ℕ, zero, suc, ◌+◌, ◌-◌, ◌/◌, ◌%◌, ◌==◌, ltb, if◌then◌else◌, List, [], ◌∷◌, bit_or, Bool, true,
  false,
}

-- The part of `fw.phy`, with what was written to the synthesizer's register, the last first.
-- `psm_state` is a word, `is_on` says that the state is CARL9170_PHY_ON.
pub record Radio : Type 0 where
  pub frequency : ℕ
  pub psm_state : ℕ
  pub is_on : Bool
  pub bank3 : List ℕ

-- CARL9170_PSM_SLEEP, the bit 12, and the tests of it.
abbrev pub psm_sleep : ℕ
psm_sleep = 0x1000

abbrev pub has_sleep : ℕ → Bool
has_sleep state = state / psm_sleep % 2 == 1

-- The write to the synthesizer at the end. The value gets a bit below 3 GHz.
abbrev pub write_bank3 : ℕ → Radio → Radio
write_bank3 value r = record r {
  bank3 = (if ltb r.frequency 3000000 then bit_or value 0x00800000 else value) ∷ r.bank3;
}

-- `rf_psm`. CARL9170_PSM_SOFTWARE and CARL9170_PSM_WAKE are 0.
unfoldable pub rf_psm : Radio → Radio
rf_psm r =
    let asleep : Radio = record r { psm_state = r.psm_state - psm_sleep; is_on = false } in
    let next : Radio = record r { psm_state = r.psm_state - 1 } in
    if r.psm_state == 0
    then r
    else (if has_sleep r.psm_state
        then write_bank3 0x00400018 asleep
        else (if next.psm_state == 0
            then write_bank3 0x01420098 (record next { is_on = true })
            else next))

-- The calls of `rf_psm`, one for each beacon interval (`handle_pretbtt`, carlfw/src/wlan.c).
abbrev pub run : ℕ → Radio → Radio
run zero r = r
run (suc k) r = run k (rf_psm r)
