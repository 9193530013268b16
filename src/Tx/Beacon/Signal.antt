-- ===== src/Tx/Beacon/Signal.antt =====
-- What `wlan_modify_beacon` writes.
use carl9170fw.Base.{ℕ, ◌+◌, ◌≡◌, ◌≢◌, ap, if◌then◌else◌, Option, ==-ne}
use carl9170fw.Tx.Beacon.{write, variable}

write-other :
    (place value i : ℕ) (octets : ℕ → ℕ) → i ≢ place → write place value octets i ≡ octets i
write-other place value i octets ne = ap (λ b. if b then value else octets i) (==-ne i place ne)

-- The places that the lengths of the elements lead to, one after the other.
pub data Starts (octets : ℕ → ℕ) : ℕ → Type 0 where
  first : Starts octets variable
  next : {p : ℕ} → Starts octets p → Starts octets (p + (octets (p + 1) + 2))
