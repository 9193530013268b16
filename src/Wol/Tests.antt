-- ===== src/Wol/Tests.antt =====
-- Wake-on-WLAN on small inputs.
use carl9170fw.Base.{
  ℕ, zero, suc, u32, ◌+◌, ◌≡◌, refl, List, [], ◌∷◌, ◌++◌, replicate, drop, get_or, Bool, true,
  false, arith, if◌then◌else◌, ◌↔◌, ◌==◌, ap, sym, ◌∙◌,
}
use native.Mathlib.Decide.{dec_le}
use carl9170fw.Wol.Magic.{
  magic_step, magic_scan, wol_magic_packet, expected, Stands, HasMagic, wol_magic_packet-HasMagic,
}
use carl9170fw.Wol.Sent.{data_hdrlen, prepare_wol, wol_magic_tmpl, prepare_wol-found}
use carl9170fw.Wol.Wake.{Wol, Hdr, host_suspended, rx_wol_probe_ssid, probe_req}
use carl9170fw.Wol.Wake.Ssid.{Agrees, rx_wol_probe_ssid_iff}
use carl9170fw.Wol.Wake.Lost.{Decides, wol_janitor-Decides}

abbrev mac : List ℕ
mac = 0x00 ∷ 0x1b ∷ 0x2c ∷ 0x3d ∷ 0x4e ∷ 0x5f ∷ []

abbrev copies : ℕ → List ℕ
copies zero = []
copies (suc n) = mac ++ copies n

abbrev packet : List ℕ
packet = replicate 6 0xff ++ copies 16

abbrev frame : List ℕ
frame = 0xff ∷ 0xaa ∷ packet ++ 9 ∷ []

wol_magic_packet-HasMagic_example : HasMagic mac frame
unfolding wol_magic_packet magic_scan magic_step
wol_magic_packet-HasMagic_example = wol_magic_packet-HasMagic mac frame refl

-- Another FFh hides the packet.
hidden : wol_magic_packet mac (0xff ∷ packet) ≡ false
unfolding wol_magic_packet magic_scan magic_step
hidden = refl

-- The first `n` places hold what is expected, tested one by one.
abbrev stands_to : List ℕ → List ℕ → ℕ → Bool
stands_to address octets zero = true
stands_to address octets (suc n) =
    if get_or octets n 0 == expected address n then stands_to address octets n else false

stands_to-Stands :
    (address octets : List ℕ) (n : ℕ)
    → stands_to address octets n ≡ true
    → Stands address octets 0 n
unfolding Stands
stands_to-Stands address octets zero e i lt = absurd (omega arith)
stands_to-Stands address octets (suc n) e i lt = elim (dec_le n i) [
  | yes p ↦
      let same : i ≡ n = omega arith in
      let here : get_or octets n 0 ≡ expected address n = ground arith in
      ap (λ (k : ℕ). get_or octets k 0) {x = 0 + i} {y = n} (omega arith)
      ∙ here
      ∙ ap (expected address) (sym same)
  | no p ↦ stands_to-Stands address octets n (ground arith) i (omega arith)
]

-- A probe request for "net", whose last octet is "x" instead.
abbrev probe : Hdr
probe = record {
  is_deauth = false;
  is_disassoc = false;
  is_beacon = false;
  is_probe_req = true;
  addr3 = [];
  hdrlen = 24;
  len = 29;
  octets = λ i. get_or (replicate 24 0 ++ 0 ∷ 3 ∷ 0x6e ∷ 0x65 ∷ 0x78 ∷ []) i 0;
}

accepted : rx_wol_probe_ssid 3 (0x6e ∷ 0x65 ∷ 0x74 ∷ []) probe ≡ true
unfolding rx_wol_probe_ssid
accepted = refl

rx_wol_probe_ssid_iff_example :
    (rx_wol_probe_ssid 3 (0x6e ∷ 0x65 ∷ 0x74 ∷ []) probe ≡ true)
    ↔ Agrees 4 0 (probe_req 3 (0x6e ∷ 0x65 ∷ 0x74 ∷ [])) probe
rx_wol_probe_ssid_iff_example =
    rx_wol_probe_ssid_iff 3 (0x6e ∷ 0x65 ∷ 0x74 ∷ []) probe refl (omega arith)

-- A host that sleeps, with the connection watched, at 40 ticks per microsecond.
abbrev asleep : Wol
asleep = record {
  flags = 1;
  null_interval = 1000;
  last_beacon = 5000;
  lost_null = 0;
  last_null = 0;
  wake_up = false;
  mac = mac;
  bssid = [];
  suspend_mode = host_suspended;
  fw_desc_available = true;
  wake_signals = 0;
  null_frames = 0;
}

wol_janitor-Decides_example : Decides (u32 (asleep.last_beacon + 400001000)) 40 true asleep
wol_janitor-Decides_example =
    wol_janitor-Decides 400001000 40 asleep (omega arith) (omega arith) (omega arith)

prepare_wol-found_example :
    wol_magic_packet mac (drop data_hdrlen (prepare_wol mac wol_magic_tmpl)) ≡ true
prepare_wol-found_example = prepare_wol-found mac
