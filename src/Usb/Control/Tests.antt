-- ===== src/Usb/Control/Tests.antt =====
-- Control requests on a small state.
use carl9170fw.Base.{◌≡◌, refl, [], ◌∷◌, true, false}
use carl9170fw.Usb.Control.{
  Request, Control, fifo_size, config_fullspeed, ep0tx_data, ep0setup, standard_command,
  get_config_desc, set_configuration, reset_eps, configured, get_configuration,
}
use carl9170fw.Usb.Control.Answered.{Answer, ep0setup-Answer}

abbrev plugged : Control
plugged = record {
  config = 1;
  alternate_interface_setting = 0;
  device_feature = 1;
  ep0_stall = false;
  ep0_trigger = false;
  cfg_desc = config_fullspeed;
  device_address = 5;
  cx_config_status = 0;
  ep_in = λ i. 0;
  ep_out = λ i. 0;
  high_speed = false;
  remote_wakeup = true;
  global_int = false;
  out_triggers = 0;
  written = [];
  device_desc = 18 ∷ 1 ∷ [];
  string_descs = λ i. 2 ∷ 3 ∷ [];
}

abbrev get_config : Request
get_config = record { request_type = 0x80; request = 6; value = 0x200; index = 0 }

-- The host takes the configuration back.
abbrev unset_config : Request
unset_config = record { request_type = 0; request = 9; value = 0; index = 0 }

sizes : (get_config_desc plugged).1.cfg_desc ≡ config_fullspeed
unfolding get_config_desc ep0tx_data
sizes = refl

-- The device stays configured, with the number 0.
unset_keeps : configured (ep0setup unset_config plugged) ≡ true
unfolding ep0setup standard_command set_configuration reset_eps
unset_keeps = refl

-- Configuration 0 is answered without an octet.
unset_silent :
    (get_configuration
      (record { request_type = 0x80; request = 8; value = 0; index = 0 })
      (record plugged { config = 0 })).1.written
    ≡ fifo_size 15 ∷ []
unfolding get_configuration ep0tx_data
unset_silent = refl

ep0setup-Answer_example : Answer plugged (ep0setup get_config plugged)
ep0setup-Answer_example = ep0setup-Answer get_config plugged
