-- ===== src/Main/Tests.antt =====
-- The main loop on small inputs.
use carl9170fw.Base.{ℕ, ◌≡◌, refl, List, [], ◌∷◌, true, false, arith, map}
use carl9170fw.Main.{
  Times, Clock, CpuClock, ahb_20_22mhz, ahb_40_44mhz, ahb_80_88mhz, clock_set, tally_update,
}
use carl9170fw.Main.Tally.{Round, run_tally, Counts, run_tally-Counts}

-- The clock overflows in the second round, the radio goes off for the third.
abbrev rounds : List Round
rounds =
    record { now = 4294967290; boff = 0x10000000; phy_on = true }
    ∷ record { now = 4294967300; boff = 0x11000000; phy_on = true }
    ∷ record { now = 4294967400; boff = 0x11000000; phy_on = false }
    ∷ []

abbrev zeroed : Times
zeroed = record { active = 7; tx_time = 0; cca = 0; tally_clock = 4294967200; counter = 0 }

run_tally-Counts_example : Counts zeroed (run_tally rounds zeroed) 4294967200 rounds
run_tally-Counts_example =
    run_tally-Counts rounds zeroed 4294967200
      (record {
        active = omega arith;
        tx_time = omega arith;
        cca = omega arith;
        counter = omega arith;
      })
      refl (omega arith)

counted :
    run_tally rounds zeroed
    ≡ record { active = 107; tx_time = 100; cca = 10; tally_clock = 104; counter = 3 }
unfolding tally_update
counted = refl

-- The clocks run as their names say, on 2.4 GHz and on 5 GHz.
abbrev tuned : ℕ → Clock
tuned frequency = record { frequency = frequency; ticks_per_usec = 0; regs = λ a. 0 }

abbrev ticks : ℕ → CpuClock → ℕ
ticks frequency clock = (clock_set clock true (tuned frequency)).ticks_per_usec

speeds_2ghz :
    map (ticks 2412000) (ahb_20_22mhz ∷ ahb_40_44mhz ∷ ahb_80_88mhz ∷ []) ≡ 22 ∷ 44 ∷ 88 ∷ []
unfolding clock_set
speeds_2ghz = refl

speeds_5ghz :
    map (ticks 5180000) (ahb_20_22mhz ∷ ahb_40_44mhz ∷ ahb_80_88mhz ∷ []) ≡ 20 ∷ 40 ∷ 80 ∷ []
unfolding clock_set
speeds_5ghz = refl
