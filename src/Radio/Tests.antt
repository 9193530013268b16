-- ===== src/Radio/Tests.antt =====
-- The radio's sleep on small inputs.
use carl9170fw.Base.{ℕ, suc, ◌+◌, ◌≡◌, ◌<◌, refl, [], true, false, arith}
use carl9170fw.Radio.{Radio, run}
use carl9170fw.Radio.Sleep.{run-sleeps}

abbrev ordered : Radio
ordered = record { frequency = 2412000; psm_state = 0x1000 + 3; is_on = true; bank3 = [] }

run-sleeps_example :
    ((k : ℕ) → k < 3 → (run (suc k) ordered).is_on ≡ false)
    × ((m : ℕ) → (run (4 + m) ordered).is_on ≡ true)
run-sleeps_example = run-sleeps 3 ordered (omega arith) (omega arith) refl
