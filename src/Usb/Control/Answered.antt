-- ===== src/Usb/Control/Answered.antt =====
-- Every request is answered, and one that is refused changes nothing else.
use carl9170fw.Base.{
  ℕ, ◌+◌, ◌/◌, ◌*◌, ◌%◌, ◌==◌, leb, if◌then◌else◌, ◌≡◌, refl, ap, [], ◌∷◌, get_or, set, take, u8,
  bit_and, Bool, true, false, not, arith,
}
use carl9170fw.Usb.Control.{
  Bytes, Request, Control, ep0tx_data, check_reqtype, dir, recip, dir_in, refuse, status_of,
  get_status, get_string_desc, get_device_desc, get_config_desc, get_qualifier_desc, get_descriptor,
  word_octets, get_configuration, configure, set_configuration, set_address, configured,
  get_interface, device_feature_of, upd, halt, manipulate_feature, standard_command, act, ep0setup,
  reset_eps,
}

-- A command that returns -1 left the state, and one that returns 1 left the answer to its caller.
pub record IsFair (s : Control) (r : Bool × Control) : Type 0 where
  pub refused : r.0 ≡ false → r.1 ≡ s
  pub stall_is : r.1.ep0_stall ≡ s.ep0_stall
  pub trigger_is : r.1.ep0_trigger ≡ s.ep0_trigger

refuse-IsFair : (s : Control) → IsFair s (refuse s)
refuse-IsFair s = record { refused = λ e. refl; stall_is = refl; trigger_is = refl }

if-IsFair :
    (b : Bool) (s : Control) (r r' : Bool × Control)
    → IsFair s r
    → IsFair s r'
    → IsFair s (if b then r else r')
if-IsFair true s r r' p q = p
if-IsFair false s r r' p q = q

-- A command that returns 1.
taken :
    (s t : Control) → t.ep0_stall ≡ s.ep0_stall → t.ep0_trigger ≡ s.ep0_trigger → IsFair s (true, t)
taken s t p q = record { refused = λ e. absurd (ground (arith, e)); stall_is = p; trigger_is = q }

-- Refused, or what follows.
guarded :
    (b : Bool) (s : Control) (r : Bool × Control)
    → IsFair s r
    → IsFair s (if b then refuse s else r)
guarded b s r p = if-IsFair b s (refuse s) r (refuse-IsFair s) p

ep0tx_data-IsFair :
    (bytes : Bytes) (len : ℕ) (s t : Control)
    → t.ep0_stall ≡ s.ep0_stall
    → t.ep0_trigger ≡ s.ep0_trigger
    → IsFair s (ep0tx_data bytes len t)
unfolding ep0tx_data
ep0tx_data-IsFair bytes len s t p q = record {
  refused = λ e. absurd (ground (arith, e));
  stall_is = p;
  trigger_is = q;
}

get_status-IsFair : (ctrl : Request) (s : Control) → IsFair s (get_status ctrl s)
unfolding get_status
get_status-IsFair ctrl s =
    let status : ℕ = status_of ctrl s in
    if-IsFair (dir ctrl.request_type == dir_in) s _ _
      (ep0tx_data-IsFair (status % 256 ∷ status / 256 ∷ []) 2 s s refl refl) (refuse-IsFair s)

get_string_desc-IsFair : (ctrl : Request) (s : Control) → IsFair s (get_string_desc ctrl s)
unfolding get_string_desc
get_string_desc-IsFair ctrl s =
    let v : ℕ = bit_and ctrl.value 0xff in
    let string : (i : ℕ)
        → IsFair s (ep0tx_data (s.string_descs i) (get_or (s.string_descs i) 0 0) s) =
      λ i. ep0tx_data-IsFair (s.string_descs i) (get_or (s.string_descs i) 0 0) s s refl refl in
    if-IsFair (v == 0x00) s _ _ (string 0) (
      if-IsFair (v == 0x10) s _ _ (string 1) (
        if-IsFair (v == 0x20) s _ _ (string 2)
          (if-IsFair (v == 0x30) s _ _ (string 3) (refuse-IsFair s))))

get_descriptor-IsFair : (ctrl : Request) (s : Control) → IsFair s (get_descriptor ctrl s)
unfolding get_descriptor get_device_desc get_config_desc get_qualifier_desc
get_descriptor-IsFair ctrl s =
    let kind : ℕ = ctrl.value / 256 in
    let desc : Bytes = set s.cfg_desc 1 2 in
    let q1 : Bytes = set (take 10 s.device_desc) 1 6 in
    let q3 : Bytes = set (set q1 0 10) 8 (get_or s.device_desc 17 0) in
    guarded (check_reqtype ctrl 0 dir_in) s _ (
      if-IsFair (kind == 1) s _ _
        (ep0tx_data-IsFair s.device_desc (get_or s.device_desc 0 0) s s refl refl)
        (if-IsFair (kind == 2) s _ _
          (ep0tx_data-IsFair desc (get_or desc 2 0 + get_or desc 3 0 * 256) s
            (record s { cfg_desc = desc }) refl refl)
          (if-IsFair (kind == 3) s _ _ (get_string_desc-IsFair ctrl s) (
            if-IsFair (kind == 6) s _ _ (ep0tx_data-IsFair (set q3 9 0) 10 s s refl refl)
              (refuse-IsFair s)))))

get_configuration-IsFair : (ctrl : Request) (s : Control) → IsFair s (get_configuration ctrl s)
unfolding get_configuration
get_configuration-IsFair ctrl s =
    guarded (check_reqtype ctrl 0 dir_in) s _
      (ep0tx_data-IsFair (word_octets s.config) s.config s s refl refl)

configure-IsFair : (config address : ℕ) (s : Control) → IsFair s (configure config address s)
unfolding reset_eps
configure-IsFair config address s = record {
  refused = λ e. absurd (ground (arith, e));
  stall_is = refl;
  trigger_is = refl;
}

set_configuration-IsFair : (ctrl : Request) (s : Control) → IsFair s (set_configuration ctrl s)
unfolding set_configuration
set_configuration-IsFair ctrl s = guarded (check_reqtype ctrl 0 0) s _ (
    if-IsFair (ctrl.value == 0) s _ _ (configure-IsFair 0 (bit_and s.device_address 0x7f) s)
      (if-IsFair (ctrl.value == 1) s _ _ (configure-IsFair 1 s.device_address s) (refuse-IsFair s)))

set_address-IsFair : (ctrl : Request) (s : Control) → IsFair s (set_address ctrl s)
unfolding set_address
set_address-IsFair ctrl s = guarded (check_reqtype ctrl 0 0) s _ (
    guarded (leb 0x80 ctrl.value) s _
      (taken s (record s { device_address = u8 ctrl.value }) refl refl))

get_interface-IsFair : (ctrl : Request) (s : Control) → IsFair s (get_interface ctrl s)
unfolding get_interface
get_interface-IsFair ctrl s = guarded (check_reqtype ctrl 1 dir_in) s _ (
    guarded (not (configured s)) s _ (
      if-IsFair (s.config == 1) s _ _
        (ep0tx_data-IsFair (word_octets s.alternate_interface_setting) 1 s s refl refl)
        (refuse-IsFair s)))

manipulate_feature-IsFair :
    (ctrl : Request) (clear : Bool) (s : Control) → IsFair s (manipulate_feature ctrl clear s)
unfolding manipulate_feature
manipulate_feature-IsFair ctrl clear s =
    let ep : ℕ = bit_and ctrl.index 0xf in
    guarded (not (dir ctrl.request_type == 0)) s _ (
      guarded (not (configured s)) s _ (
        if-IsFair (recip ctrl.request_type == 0) s _ _
          (taken s (device_feature_of ctrl.value clear s) refl refl)
          (if-IsFair (recip ctrl.request_type == 2) s _ _
            (guarded (ep == 0) s _ (
              if-IsFair (dir ctrl.index == dir_in) s _ _
                (taken s (record s { ep_in = upd s.ep_in ep (halt clear (s.ep_in ep)) }) refl refl)
                (taken s (record s { ep_out = upd s.ep_out ep (halt clear (s.ep_out ep)) }) refl
                  refl)))
            (refuse-IsFair s))))

standard_command-IsFair : (ctrl : Request) (s : Control) → IsFair s (standard_command ctrl s)
unfolding standard_command
standard_command-IsFair ctrl s =
    let r : ℕ = ctrl.request in
    if-IsFair (r == 0x00) s _ _ (get_status-IsFair ctrl s) (
      if-IsFair (r == 0x01) s _ _ (manipulate_feature-IsFair ctrl true s) (
        if-IsFair (r == 0x03) s _ _ (manipulate_feature-IsFair ctrl false s) (
          if-IsFair (r == 0x05) s _ _ (set_address-IsFair ctrl s) (
            if-IsFair (r == 0x06) s _ _ (get_descriptor-IsFair ctrl s) (
              if-IsFair (r == 0x08) s _ _ (get_configuration-IsFair ctrl s) (
                if-IsFair (r == 0x09) s _ _ (set_configuration-IsFair ctrl s) (
                  if-IsFair (r == 0x0a) s _ _ (get_interface-IsFair ctrl s) (refuse-IsFair s))))))))

-- The answer to a request is a stall, with nothing else changed, or the trigger, with the stall as
-- it was.
pub data Answer (s t : Control) : Type 0 where
  stalls : t ≡ record s { ep0_stall = true } → Answer s t
  triggers : t.ep0_trigger ≡ true → t.ep0_stall ≡ s.ep0_stall → Answer s t

act-Answer : (s : Control) (r : Bool × Control) → IsFair s r → Answer s (act r)
act-Answer s (true, t) p = triggers refl p.stall_is
act-Answer s (false, t) p =
    stalls (ap (λ (u : Control). record u { ep0_stall = true }) (p.refused refl))

-- Every request is answered: it stalls and nothing else of the state changes, or the endpoint is
-- triggered and the stall is as it was.
pub ep0setup-Answer : (ctrl : Request) (s : Control) → Answer s (ep0setup ctrl s)
unfolding ep0setup
ep0setup-Answer ctrl s =
    let kind : ℕ = bit_and ctrl.request_type 0x60 in
    act-Answer s (if kind == 0 then standard_command ctrl s else refuse s) (
      if-IsFair (kind == 0) s (standard_command ctrl s) (refuse s) (standard_command-IsFair ctrl s)
        (refuse-IsFair s))
