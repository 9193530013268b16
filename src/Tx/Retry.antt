-- ===== src/Tx/Retry.antt =====
-- Retries: `wlan_tx_consume_retry` and what it keeps in the frame.
pub mod Attempts
use carl9170fw.Base.{ℕ, ◌+◌, ◌==◌, leb, if◌then◌else◌, List, get_or, u8, Bool, true, false}

-- `struct ar9170_tx_rate_info`
pub record RateInfo : Type 0 where
  pub tries : ℕ
  pub erp_prot : ℕ
  pub ampdu : Bool

abbrev pub no_rate : RateInfo
no_rate = record { tries = 0; erp_prot = 0; ampdu = false }

-- What the retries read and write in a superframe: the counters `s.rix` and `s.cnt`, the rates
-- `s.ri` and the words `s.rr[].set`, and in the hardware's header `phy.set`, `mac.erp_prot` and
-- `mac.ampdu`.
pub record Super : Type 0 where
  pub rix : ℕ
  pub cnt : ℕ
  pub ri : List RateInfo
  pub rr : List ℕ
  pub phy : ℕ
  pub erp_prot : ℕ
  pub ampdu : Bool

-- CARL9170_TX_MAX_RETRY_RATES
abbrev pub max_retry_rates : ℕ
max_retry_rates = 3

-- `s.ri[i]` and `s.rr[i].set`
abbrev pub rate : Super → ℕ → RateInfo
rate s i = get_or s.ri i no_rate

abbrev pub retry_rate : Super → ℕ → ℕ
retry_rate s i = get_or s.rr i 0

-- `wlan_tx_consume_retry`
unfoldable pub tx_consume_retry : Super → Bool × Super
tx_consume_retry s =
    if leb (rate s s.rix).tries s.cnt
    then (if s.rix == max_retry_rates
        then (false, s)
        else (if retry_rate s s.rix == 0
            then (false, s)
            else (let rix = u8 (s.rix + 1) in
                (
                  true,
                  record s {
                    phy = retry_rate s s.rix;
                    rix = rix;
                    erp_prot = (rate s rix).erp_prot;
                    ampdu = (rate s rix).ampdu;
                    cnt = 1;
                  },
                ))))
    else (true, record s { cnt = u8 (s.cnt + 1) })
