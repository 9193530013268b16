-- ===== src/Rx/Filter.antt =====
-- Which frames `wlan_rx_filter` can keep from the host.
use carl9170fw.Base.{
  ℕ, ◌==◌, ◌≡◌, if◌then◌else◌, List, bit_and, bit_or, refl, sym, arith, Bool, true, false, not,
  ◌&&◌, Bool-cases, inl, inr, ◌⊎◌, subst,
}
use carl9170fw.Wol.Wake.{has}
use carl9170fw.Rx.{
  Receiver, Received, rx_filter, rx_filter_class, rx_filter_ctl, rx_filter_errors, is_bad,
}

-- A block ack, while the application waits for some.
abbrev pub is_awaited : Received → ℕ → Bool
is_awaited r queued_bar =
    not r.is_data && (r.is_ctl && ((bit_and r.frame_control 0xf0 == 0x90) && not (queued_bar == 0)))

abbrev pub is_ctl_of : Received → ℕ → Bool
is_ctl_of r stype = not r.is_data && (r.is_ctl && (bit_and r.frame_control 0xf0 == stype))

-- Any other control frame, which a block ack is that the application does not wait for.
abbrev pub is_other_ctl : Received → ℕ → Bool
is_other_ctl r queued_bar =
    not r.is_data
    && (r.is_ctl
        && (not (is_ctl_of r 0xa0) && (not (is_ctl_of r 0x80) && not (is_awaited r queued_bar))))

-- What each filter bit of a frame says.
pub record Classified (bits rx_frame_len : ℕ) (r : Received) (queued_bar : ℕ) : Type 0 where
  pub bad : has bits 0x01 ≡ is_bad rx_frame_len r
  pub other_ra : has bits 0x02 ≡ (not (is_bad rx_frame_len r) && has r.mac_err 0x10)
  pub decry_fail : has bits 0x04 ≡ (not (is_bad rx_frame_len r) && has r.mac_err 0x04)
  pub ctl_other : has bits 0x08 ≡ (not (is_bad rx_frame_len r) && is_other_ctl r queued_bar)
  pub ctl_pspoll : has bits 0x10 ≡ (not (is_bad rx_frame_len r) && is_ctl_of r 0xa0)
  pub ctl_backr : has bits 0x20 ≡ (not (is_bad rx_frame_len r) && is_ctl_of r 0x80)
  pub mgmt : has bits 0x40 ≡ (not (is_bad rx_frame_len r) && (not r.is_data && not r.is_ctl))
  pub is_data : has bits 0x80 ≡ (not (is_bad rx_frame_len r) && r.is_data)
  pub none : (bits == 0) ≡ (
      not (is_bad rx_frame_len r)
      && (not (has r.mac_err 0x10) && (not (has r.mac_err 0x04) && is_awaited r queued_bar)))

-- The filter bits as Booleans give them: damaged, the two errors, and the class.
abbrev pub bits_of : Bool → Bool → Bool → ℕ → ℕ
bits_of bad a b class =
    if bad then 0x01 else bit_or (bit_or (if a then 0x02 else 0) (if b then 0x04 else 0)) class

bits_of-Classified :
    (rx_frame_len : ℕ) (r : Received) (queued_bar : ℕ)
    → Classified
        (bits_of
          (is_bad rx_frame_len r)
          (has r.mac_err 0x10)
          (has r.mac_err 0x04)
          (rx_filter_class r queued_bar))
        rx_frame_len
        r
        queued_bar
unfolding rx_filter_class rx_filter_ctl
bits_of-Classified n r q = record {
  bad = ground arith;
  other_ra = ground arith;
  decry_fail = ground arith;
  ctl_other = ground arith;
  ctl_pspoll = ground arith;
  ctl_backr = ground arith;
  mgmt = ground arith;
  is_data = ground arith;
  none = ground arith;
}

-- Each bit of the word that `wlan_rx_filter` returns says just what its name does: a damaged frame
-- has the bit for bad frames alone; any other has the bits of its two errors and of its class. A
-- frame has no bit at all, so that no filter setting keeps it from the host, exactly if it is a
-- block ack without these errors while the application has queued requests for some.
pub rx_filter-Classified :
    (same_address : List ℕ → List ℕ → Bool) (ssid : List ℕ) (ssid_len now rx_frame_len : ℕ)
    (r : Received) (s : Receiver)
    → Classified
        (rx_filter same_address ssid ssid_len now rx_frame_len r s).0
        rx_frame_len
        r
        s.queued_bar
unfolding rx_filter rx_filter_errors
rx_filter-Classified same_address ssid ssid_len now n r s =
    subst (λ bits. Classified bits n r s.queued_bar) (sym (bits (Bool-cases (is_bad n r))))
      (bits_of-Classified n r s.queued_bar)
  where
    bits :
        ((is_bad n r) ≡ true) ⊎ ((is_bad n r) ≡ false)
        → (rx_filter same_address ssid ssid_len now n r s).0
          ≡ bits_of
              (is_bad n r)
              (has r.mac_err 0x10)
              (has r.mac_err 0x04)
              (rx_filter_class r s.queued_bar)
    bits (inl e) = rw e refl
    bits (inr e) = rw e refl
