-- ===== src/Main.antt =====
-- carlfw/src/main.c and timer.c: the counters of time that each round of the main loop updates, and the
-- speed of the clock.
pub mod Tally
mod Tests
use carl9170fw.Base.{
  ℕ, suc, ◌+◌, ◌*◌, ◌/◌, ◌%◌, ◌^◌, ◌==◌, ltb, if◌then◌else◌, List, [], ◌∷◌, Bool, true, false,
  bit_and, bit_or, u32, sub32,
}

-- The counters of `fw.tally` that are about time, `fw.tally_clock` and `fw.counter`.
pub record Times : Type 0 where
  pub active : ℕ
  pub tx_time : ℕ
  pub cca : ℕ
  pub tally_clock : ℕ
  pub counter : ℕ

-- AR9170_MAC_BACKOFF_TX_PE and AR9170_MAC_BACKOFF_CCA
abbrev pub backoff_tx_pe : ℕ
backoff_tx_pe = 0x10000000

abbrev pub backoff_cca : ℕ
backoff_cca = 0x1000000

abbrev pub has_bit : ℕ → ℕ → Bool
has_bit word flag = if bit_and word flag == 0 then false else true

-- `tally_update`, for what the clock and AR9170_MAC_REG_BACKOFF_STATUS read, and with
-- `fw.phy.state == CARL9170_PHY_ON`.
unfoldable pub tally_update : ℕ → ℕ → Bool → Times → Times
tally_update time boff phy_on t =
    let delta = sub32 time t.tally_clock in
    record t {
      active = if phy_on then u32 (t.active + delta) else t.active;
      tx_time =
          if phy_on
          then (if has_bit boff backoff_tx_pe then u32 (t.tx_time + delta) else t.tx_time)
          else t.tx_time;
      cca =
          if phy_on
          then (if has_bit boff backoff_cca then u32 (t.cca + delta) else t.cca)
          else t.cca;
      tally_clock = time;
      counter = u32 (t.counter + 1);
    }

-- `enum cpu_clock_t`
pub data CpuClock : Type 0 where
  ahb_40mhz_osc ahb_20_22mhz ahb_40_44mhz ahb_80_88mhz : CpuClock

-- `fw.phy.frequency`, `fw.ticks_per_usec`, and the registers.
pub record Clock : Type 0 where
  pub frequency : ℕ
  pub ticks_per_usec : ℕ
  pub regs : ℕ → ℕ

abbrev pub set_reg : ℕ → ℕ → Clock → Clock
set_reg a v c = record c { regs = λ b. if b == a then v else c.regs b }

-- The number of a clock, as `clock_set` writes it.
abbrev pub clock_number : CpuClock → ℕ
clock_number ahb_40mhz_osc = 0
clock_number ahb_20_22mhz = 1
clock_number ahb_40_44mhz = 2
clock_number ahb_80_88mhz = 3

-- The switch of `clock_set`, whose cases fall through.
abbrev pub halved : CpuClock → ℕ → ℕ
halved ahb_20_22mhz ticks = ticks / 2 / 2
halved ahb_40mhz_osc ticks = ticks / 2
halved ahb_40_44mhz ticks = ticks / 2
halved ahb_80_88mhz ticks = ticks

-- `clock_set`, with AR9170_PWR_REG_PLL_ADDAC, whose field AR9170_PWR_PLL_ADDAC_DIV is read again, and
-- AR9170_PWR_REG_CLOCK_SEL.
unfoldable pub clock_set : CpuClock → Bool → Clock → Clock
clock_set clock on c =
    let c1 = set_reg 0x1d4014 (if ltb c.frequency 3000000 then 0x5163 else 0x5143) c in
    let c2 : Clock = record c1 { ticks_per_usec = bit_and (c1.regs 0x1d4014) 0xffc / 4 } in
    let c3 = set_reg 0x1d4008 (bit_or (if on then 0x70 else 0x600) (clock_number clock)) c2 in
    record c3 { ticks_per_usec = halved clock c3.ticks_per_usec }
