-- ===== src/Wol/Wake/Ssid.antt =====
-- What `wlan_rx_wol_probe_ssid` compares.
use carl9170fw.Base.{
  ℕ, zero, suc, ◌+◌, ◌≤◌, ◌<◌, ◌≡◌, if◌then◌else◌, List, get_or, true, false, arith, ◌↔◌, refl, ap,
  sym, ◌∙◌,
}
use carl9170fw.Wol.Wake.{Hdr, probe_req, variable, probe_loop, rx_wol_probe_ssid}

-- The octets from `i` on for `n` places are those of the element.
pub Agrees : ℕ → ℕ → List ℕ → Hdr → Type 0
Agrees n i scan hdr = (j : ℕ) → j < n → get_or scan (i + j) 0 ≡ hdr.octets (variable + (i + j))

first : (i : ℕ) → i ≡ i + 0
first i = omega arith

probe_loop-true :
    (n i : ℕ) (scan : List ℕ) (hdr : Hdr)
    → variable ≤ hdr.len
    → Agrees n i scan hdr
    → probe_loop n i scan hdr ≡ true
unfolding Agrees
probe_loop-true zero i scan hdr p at = refl
probe_loop-true (suc n) i scan hdr p at =
    let rest : probe_loop n (i + 1) scan hdr ≡ true = probe_loop-true n (i + 1) scan hdr p (λ j lt.
      let e : i + 1 + j ≡ i + suc j = omega arith in
      ap (λ (k : ℕ). get_or scan k 0) e
      ∙ at (suc j) (omega arith)
      ∙ ap (λ (k : ℕ). hdr.octets (variable + k)) (sym e)) in
    let here : get_or scan i 0 ≡ hdr.octets (variable + i) =
      ap (λ (k : ℕ). get_or scan k 0) (first i)
      ∙ at 0 (omega arith)
      ∙ ap (λ (k : ℕ). hdr.octets (variable + k)) (sym (first i)) in
    ground arith

probe_loop-Agrees :
    (n i : ℕ) (scan : List ℕ) (hdr : Hdr) → probe_loop n i scan hdr ≡ true → Agrees n i scan hdr
unfolding Agrees
probe_loop-Agrees zero i scan hdr e j lt = absurd (omega arith)
probe_loop-Agrees (suc n) i scan hdr e zero lt =
    let here : get_or scan i 0 ≡ hdr.octets (variable + i) = ground arith in
    ap (λ (k : ℕ). get_or scan k 0) (sym (first i))
    ∙ here
    ∙ ap (λ (k : ℕ). hdr.octets (variable + k)) (first i)
probe_loop-Agrees (suc n) i scan hdr e (suc j) lt =
    let rest : probe_loop n (i + 1) scan hdr ≡ true = ground arith in
    let f : i + suc j ≡ i + 1 + j = omega arith in
    ap (λ (k : ℕ). get_or scan k 0) f
    ∙ probe_loop-Agrees n (i + 1) scan hdr rest j (omega arith)
    ∙ ap (λ (k : ℕ). hdr.octets (variable + k)) (sym f)

-- A probe request that is long enough for its fixed part wakes exactly if its elements start with
-- the SSID element's identifier, the length, and all octets of the SSID but the last, which is not
-- compared.
pub rx_wol_probe_ssid_iff :
    (ssid_len : ℕ) (ssid : List ℕ) (hdr : Hdr)
    → hdr.is_probe_req ≡ true
    → variable ≤ hdr.len
    → (rx_wol_probe_ssid ssid_len ssid hdr ≡ true)
      ↔ Agrees (suc ssid_len) 0 (probe_req ssid_len ssid) hdr
unfolding rx_wol_probe_ssid
rx_wol_probe_ssid_iff ssid_len ssid hdr r p =
    let n : ssid_len + 1 ≡ suc ssid_len = omega arith in
    let same : rx_wol_probe_ssid ssid_len ssid hdr
        ≡ probe_loop (suc ssid_len) 0 (probe_req ssid_len ssid) hdr =
      ap (λ b. if b then probe_loop (ssid_len + 1) 0 (probe_req ssid_len ssid) hdr else false) r
      ∙ ap (λ (k : ℕ). probe_loop k 0 (probe_req ssid_len ssid) hdr) n in
    (
      λ e. probe_loop-Agrees (suc ssid_len) 0 (probe_req ssid_len ssid) hdr (sym same ∙ e),
      λ a. same ∙ probe_loop-true (suc ssid_len) 0 (probe_req ssid_len ssid) hdr p a,
    )
