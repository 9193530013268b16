-- ===== src/Usb/Control.antt =====
-- carlfw/usb/usb.c: the requests on the control endpoint, in a build with the standard commands and
-- wake on WLAN, and without the mode switch. The descriptors in the device's read-only memory
-- are fields of the state.
pub mod Sent
pub mod Answered
mod Tests
use carl9170fw.Base.{
  ℕ, zero, suc, ◌+◌, ◌-◌, ◌*◌, ◌/◌, ◌%◌, ◌^◌, ◌==◌, leb, ltb, if◌then◌else◌, List, [], ◌∷◌, ◌++◌,
  length, take, drop, set, get_or, min, bit_and, bit_or, Bool, true, false, not, ◌&&◌, ◌||◌, u8,
  u16,
}

abbrev pub Bytes : Type 0
Bytes = List ℕ

-- `struct usb_ctrlrequest`
pub record Request : Type 0 where
  pub request_type : ℕ
  pub request : ℕ
  pub value : ℕ
  pub index : ℕ

-- Writes to the endpoint's registers: the size of the next words, as a mask of their octets, and a
-- word, of which the octets that were copied into it are kept.
pub data Ep0 : Type 0 where
  fifo_size : ℕ → Ep0
  word : Bytes → Ep0

-- The part of `fw.usb` for the control endpoint, the registers that the requests read or write, and
-- the descriptors. `high_speed` is what `usb_detect_highspeed` reads.
pub record Control : Type 0 where
  pub config : ℕ
  pub alternate_interface_setting : ℕ
  pub device_feature : ℕ
  pub ep0_stall : Bool
  pub ep0_trigger : Bool
  pub cfg_desc : Bytes
  pub device_address : ℕ
  pub cx_config_status : ℕ
  pub ep_in : ℕ → ℕ
  pub ep_out : ℕ → ℕ
  pub high_speed : Bool
  pub remote_wakeup : Bool
  pub global_int : Bool
  pub out_triggers : ℕ
  pub written : List Ep0
  pub device_desc : Bytes
  pub string_descs : ℕ → Bytes

-- `usb_config_highspeed` and `usb_config_fullspeed`: the configuration, its interface, and the four
-- endpoints.
abbrev pub config_head : Bytes
config_head =
    9 ∷ 2 ∷ 46 ∷ 0 ∷ 1 ∷ 1 ∷ 0 ∷ 0xa0 ∷ 0xfa ∷ 9 ∷ 4 ∷ 0 ∷ 0 ∷ 4 ∷ 0xff ∷ 0xff ∷ 0 ∷ 0 ∷ []

abbrev pub endpoint : ℕ → ℕ → ℕ → ℕ → Bytes
endpoint address attributes max_packet interval =
    7 ∷ 5 ∷ address ∷ attributes ∷ max_packet % 256 ∷ max_packet / 256 ∷ interval ∷ []

abbrev pub config_highspeed : Bytes
config_highspeed =
    config_head
    ++ (endpoint 0x01 2 512 0
        ++ (endpoint 0x82 2 512 0 ++ (endpoint 0x83 3 64 1 ++ endpoint 0x04 3 64 1)))

abbrev pub config_fullspeed : Bytes
config_fullspeed =
    config_head
    ++ (endpoint 0x01 2 64 0
        ++ (endpoint 0x82 2 64 0 ++ (endpoint 0x83 3 64 1 ++ endpoint 0x04 2 64 1)))

-- `usb_init` and the choice of `usb_pta_init`. The request can wake the host.
unfoldable pub usb_init : Control → Control
usb_init s = record s {
  cfg_desc = if s.high_speed then config_highspeed else config_fullspeed;
  config = 1;
  device_feature = bit_or s.device_feature 1;
  remote_wakeup = true;
}

-- `usb_reset_eps` on the register of an endpoint: the toggle bit is set and cleared, and the
-- stall bit is cleared.
abbrev pub reset_ep : ℕ → ℕ
reset_ep reg = bit_and (bit_and (bit_or reg 0x10) 0xef) 0xf7

abbrev pub reset_regs : (ℕ → ℕ) → ℕ → ℕ
reset_regs regs i = if leb 1 i && ltb i 10 then reset_ep (regs i) else regs i

unfoldable pub reset_eps : Control → Control
reset_eps s = record s { ep_in = reset_regs s.ep_in; ep_out = reset_regs s.ep_out }

-- The loop of `usb_ep0tx_data`, with one round for each unit of fuel. `last_block` is the size of the
-- block before, or 0.
abbrev pub ep0tx_loop : ℕ → ℕ → Bytes → List Ep0
ep0tx_loop fuel last_block [] = []
ep0tx_loop zero last_block (b ∷ bs) = []
ep0tx_loop (suc fuel) last_block (b ∷ bs) =
    let block = min (length (b ∷ bs)) 4 in
    let rest = drop block (b ∷ bs) in
    let put = word (take block (b ∷ bs)) ∷ ep0tx_loop fuel (min (length rest) 4) rest in
    if not (last_block == block) || ltb block 4 then fifo_size (2 ^ block - 1) ∷ put else put

-- `usb_ep0tx_data` for the first `len` octets. It takes at most a round for each octet, and returns
-- 1.
unfoldable pub ep0tx_data : Bytes → ℕ → Control → Bool × Control
ep0tx_data bytes len s =
    let sent = take len bytes in
    (
      true,
      record s { written = s.written ++ (ep0tx_loop (length sent) 0 sent ++ fifo_size 0xf ∷ []) },
    )

-- The fields of `bRequestType`: USB_DIR_MASK, USB_TYPE_MASK and USB_RECIP_MASK.
abbrev pub dir : ℕ → ℕ
dir t = bit_and t 0x80

abbrev pub recip : ℕ → ℕ
recip t = bit_and t 0x1f

abbrev pub dir_in : ℕ
dir_in = 0x80

-- USB_CHECK_REQTYPE: is the request of another kind?
abbrev pub check_reqtype : Request → ℕ → ℕ → Bool
check_reqtype ctrl r d = not (recip ctrl.request_type == r) || not (dir ctrl.request_type == d)

abbrev pub refuse : Control → Bool × Control
refuse s = (false, s)

-- The status of an endpoint, and that of the request's recipient.
abbrev pub stalled : ℕ → ℕ
stalled reg = if bit_and reg 8 == 0 then 0 else 1

abbrev pub endpoint_status : Request → Control → ℕ
endpoint_status ctrl s =
    let ep = bit_and ctrl.index 0xf in
    if ep == 0
    then (if bit_and s.cx_config_status 4 == 0 then 0 else 1)
    else (if dir ctrl.index == dir_in then stalled (s.ep_in ep) else stalled (s.ep_out ep))

abbrev pub status_of : Request → Control → ℕ
status_of ctrl s =
    let status = u16 s.device_feature in
    if recip ctrl.request_type == 0
    then bit_and (bit_and status 0xffff) 0xfffe
    else (if recip ctrl.request_type == 1
        then 0
        else (if recip ctrl.request_type == 2 then endpoint_status ctrl s else status))

-- `usb_get_status`
unfoldable pub get_status : Request → Control → Bool × Control
unfolding ep0tx_data
get_status ctrl s =
    let status = status_of ctrl s in
    if dir ctrl.request_type == dir_in
    then ep0tx_data (status % 256 ∷ status / 256 ∷ []) 2 s
    else refuse s

-- `usb_get_string_desc`: four strings, of which the first octet is the length.
unfoldable pub get_string_desc : Request → Control → Bool × Control
unfolding ep0tx_data
get_string_desc ctrl s =
    let v = bit_and ctrl.value 0xff in
    let string = λ (i : ℕ). ep0tx_data (s.string_descs i) (get_or (s.string_descs i) 0 0) s in
    if v == 0x00
    then string 0
    else (if v == 0x10
        then string 1
        else (if v == 0x20 then string 2 else (if v == 0x30 then string 3 else refuse s)))

-- `usb_get_device_desc`
unfoldable pub get_device_desc : Control → Bool × Control
unfolding ep0tx_data
get_device_desc s = ep0tx_data s.device_desc (get_or s.device_desc 0 0) s

-- `usb_get_config_desc`: the type is written, and wTotalLength octets are sent.
unfoldable pub get_config_desc : Control → Bool × Control
unfolding ep0tx_data
get_config_desc s =
    let desc = set s.cfg_desc 1 2 in
    ep0tx_data desc (get_or desc 2 0 + get_or desc 3 0 * 256) (record s { cfg_desc = desc })

-- `usb_get_qualifier_desc`: ten octets of the device's descriptor, of which the length, the type, the
-- number of configurations, which stands at another place, and the last are written.
unfoldable pub get_qualifier_desc : Control → Bool × Control
unfolding ep0tx_data
get_qualifier_desc s =
    let q1 = set (take 10 s.device_desc) 1 6 in
    let q2 = set q1 0 10 in
    let q3 = set q2 8 (get_or s.device_desc 17 0) in ep0tx_data (set q3 9 0) 10 s

-- `usb_get_descriptor`
unfoldable pub get_descriptor : Request → Control → Bool × Control
unfolding get_device_desc get_config_desc get_string_desc get_qualifier_desc
get_descriptor ctrl s =
    let kind = ctrl.value / 256 in
    if check_reqtype ctrl 0 dir_in
    then refuse s
    else (if kind == 1
        then get_device_desc s
        else (if kind == 2
            then get_config_desc s
            else (if kind == 3
                then get_string_desc ctrl s
                else (if kind == 6 then get_qualifier_desc s else refuse s))))

-- The octets of a word in memory.
abbrev pub word_octets : ℕ → Bytes
word_octets n = n % 256 ∷ n / 256 % 256 ∷ n / 65536 % 256 ∷ n / 16777216 % 256 ∷ []

-- `usb_get_configuration`. The number of octets is the configuration.
unfoldable pub get_configuration : Request → Control → Bool × Control
unfolding ep0tx_data
get_configuration ctrl s =
    if check_reqtype ctrl 0 dir_in then refuse s else ep0tx_data (word_octets s.config) s.config s

-- `usb_set_configuration` on a configuration that there is, for the register's value then.
abbrev pub configure : ℕ → ℕ → Control → Bool × Control
configure config address s = (
  true,
  record (reset_eps (record s { config = config; device_address = address })) {
    device_address = bit_or address 0x80;
    global_int = true;
    out_triggers = s.out_triggers + 1;
  },
)

unfoldable pub set_configuration : Request → Control → Bool × Control
unfolding reset_eps
set_configuration ctrl s =
    if check_reqtype ctrl 0 0
    then refuse s
    else (if ctrl.value == 0
        then configure 0 (bit_and s.device_address 0x7f) s
        else (if ctrl.value == 1 then configure 1 s.device_address s else refuse s))

-- `usb_set_address`
unfoldable pub set_address : Request → Control → Bool × Control
set_address ctrl s =
    if check_reqtype ctrl 0 0
    then refuse s
    else (if leb 0x80 ctrl.value
        then refuse s
        else (true, record s { device_address = u8 ctrl.value }))

-- `usb_configured`
abbrev pub configured : Control → Bool
configured s = not (bit_and s.device_address 0x80 == 0)

-- `usb_get_interface`
unfoldable pub get_interface : Request → Control → Bool × Control
unfolding ep0tx_data
get_interface ctrl s =
    if check_reqtype ctrl 1 dir_in
    then refuse s
    else (if not (configured s)
        then refuse s
        else (if s.config == 1
            then ep0tx_data (word_octets s.alternate_interface_setting) 1 s
            else refuse s))

-- `usb_manipulate_feature` on the device, and on an endpoint.
abbrev pub device_feature_of : ℕ → Bool → Control → Control
device_feature_of feature clear s = record s {
  remote_wakeup = if bit_and feature 1 == 0 then s.remote_wakeup else not clear;
  device_feature =
      if clear
      then bit_and s.device_feature (2 ^ 32 - 1 - feature)
      else bit_or s.device_feature feature;
}

abbrev pub halt : Bool → ℕ → ℕ
halt clear reg = if clear then bit_and reg 0xf7 else bit_or reg 8

abbrev pub upd : (ℕ → ℕ) → ℕ → ℕ → ℕ → ℕ
upd f i v j = if j == i then v else f j

abbrev pub endpoint_feature_of : Request → Bool → Control → Bool × Control
endpoint_feature_of ctrl clear s =
    let ep = bit_and ctrl.index 0xf in
    if ep == 0
    then refuse s
    else (if dir ctrl.index == dir_in
        then (true, record s { ep_in = upd s.ep_in ep (halt clear (s.ep_in ep)) })
        else (true, record s { ep_out = upd s.ep_out ep (halt clear (s.ep_out ep)) }))

unfoldable pub manipulate_feature : Request → Bool → Control → Bool × Control
manipulate_feature ctrl clear s =
    if not (dir ctrl.request_type == 0)
    then refuse s
    else (if not (configured s)
        then refuse s
        else (if recip ctrl.request_type == 0
            then (true, device_feature_of ctrl.value clear s)
            else (if recip ctrl.request_type == 2
                then endpoint_feature_of ctrl clear s
                else refuse s)))

-- `usb_standard_command`
unfoldable pub standard_command : Request → Control → Bool × Control
unfolding get_status manipulate_feature set_address get_descriptor get_configuration
    set_configuration get_interface
standard_command ctrl s =
    let r = ctrl.request in
    if r == 0x00
    then get_status ctrl s
    else (if r == 0x01
        then manipulate_feature ctrl true s
        else (if r == 0x03
            then manipulate_feature ctrl false s
            else (if r == 0x05
                then set_address ctrl s
                else (if r == 0x06
                    then get_descriptor ctrl s
                    else (if r == 0x08
                        then get_configuration ctrl s
                        else (if r == 0x09
                            then set_configuration ctrl s
                            else (if r == 0x0a then get_interface ctrl s else refuse s)))))))

-- `usb_ep0setup` for the request that it reads. Class and vendor commands are refused.
abbrev pub act : Bool × Control → Control
act r = if r.0 then record r.1 { ep0_trigger = true } else record r.1 { ep0_stall = true }

unfoldable pub ep0setup : Request → Control → Control
unfolding standard_command
ep0setup ctrl s =
    let kind = bit_and ctrl.request_type 0x60 in
    act (if kind == 0 then standard_command ctrl s else refuse s)
