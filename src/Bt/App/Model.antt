-- ===== src/Bt/App/Model.antt =====
-- bt/bluetooth.c: the static variables of the application, with the ring of usb/hid_keyboard.c that
-- it writes to, and the calls made so far, the last one first. `local_address` is only printed, and
-- the texts on the CDC port are left out.
use picow_bt_kb_hid.Base.{ℕ, Bool, List, ◌∷◌}
use picow_bt_kb_hid.Bt.Control.{BdAddr}
use picow_bt_kb_hid.Bt.State.{State}
use picow_bt_kb_hid.Bt.Channels.{HidChannels}
use picow_bt_kb_hid.Bt.RequestQueue.{Queue}
use picow_bt_kb_hid.Bt.Devices.{DeviceManager}
use picow_bt_kb_hid.Bt.Sdp.Feed.{SdpParser}
use picow_bt_kb_hid.Usb.Keyboard.{ReportQueue}
use picow_bt_kb_hid.Bt.App.Platform.{Effect}

-- The static variables. `command` is `command_buffer[0..command_length)`. `inquiry_count` has no
-- upper limit here (an `int` in the source), as it is only printed.
pub record App : Type 0 where
  pub connected_device_addr : BdAddr
  pub connecting_device_addr : BdAddr
  pub connecting_device_valid : Bool
  pub connection_cancel_requested : Bool
  pub stack_working : Bool
  pub startup_logged : Bool
  pub current_state : State
  pub inquiry_count : ℕ
  pub inquiry_timer_armed : Bool
  pub devices : DeviceManager
  pub acl_handle : ℕ
  pub hid_channels : HidChannels
  pub command : List ℕ
  pub sdp_parser : SdpParser
  pub selected_device_addr : BdAddr
  pub selected_device_valid : Bool
  pub auto_connect_enabled : Bool
  pub pairing_pin_pending : Bool
  pub pairing_pin_timer_armed : Bool
  pub control_requests : Queue
  pub keyboard : ReportQueue
  pub effects : List Effect

-- A call to the outside.
abbrev pub emit : Effect → App → App
emit e a = record a { effects = e ∷ a.effects }
