-- ===== src/Bt/Snapshot.antt =====
-- include/bluetooth_control.h: the snapshot of the connection that the web page shows. An array of
-- characters is the list of its bytes.
use picow_bt_kb_hid.Base.{ℕ, ◌≡◌, Bool, false, List, replicate, length, All}
use picow_bt_kb_hid.Base.Text.{Ends}
use picow_bt_kb_hid.Bt.Control.{BdAddr}

-- `BLUETOOTH_CONTROL_MAX_DEVICES` and the sizes of the arrays.
abbrev pub max_control_devices : ℕ
max_control_devices = 16

abbrev pub name_size : ℕ
name_size = 64

abbrev pub state_size : ℕ
state_size = 24

abbrev pub pin_size : ℕ
pin_size = 7

abbrev pub version_size : ℕ
version_size = 32

-- `bluetooth_control_device_t`. `rssi` is the bit pattern of an `int8_t`.
pub record ControlDevice : Type 0 where
  pub address : BdAddr
  pub name : List ℕ
  pub rssi : ℕ
  pub has_rssi : Bool
  pub keyboard : Bool
  pub bonded : Bool
  pub connected : Bool
  pub report_descriptor_present : Bool
  pub report_descriptor_too_large : Bool
  pub report_descriptor_valid : Bool
  pub report_has_keyboard : Bool
  pub report_has_consumer_control : Bool
  pub report_has_nkro_keyboard : Bool
  pub report_uses_ids : Bool

-- `bluetooth_control_snapshot_t`.
pub record Snapshot : Type 0 where
  pub version : List ℕ
  pub state : List ℕ
  pub auto_connect : Bool
  pub has_pairing_pin : Bool
  pub pairing_pin : List ℕ
  pub has_selected_device : Bool
  pub selected_device : BdAddr
  pub device_count : ℕ
  pub devices : List ControlDevice

-- A device of zero bytes.
abbrev pub zero_device : ControlDevice
zero_device = record {
  address = replicate 6 0;
  name = replicate name_size 0;
  rssi = 0;
  has_rssi = false;
  keyboard = false;
  bonded = false;
  connected = false;
  report_descriptor_present = false;
  report_descriptor_too_large = false;
  report_descriptor_valid = false;
  report_has_keyboard = false;
  report_has_consumer_control = false;
  report_has_nkro_keyboard = false;
  report_uses_ids = false;
}

-- The types of C, and a zero byte at the end of each text.
pub record DeviceFits (d : ControlDevice) : Type 0 where
  pub name_length : length d.name ≡ name_size
  pub name_ends : Ends d.name

pub record SnapshotFits (s : Snapshot) : Type 0 where
  pub version_length : length s.version ≡ version_size
  pub version_ends : Ends s.version
  pub state_length : length s.state ≡ state_size
  pub state_ends : Ends s.state
  pub pin_length : length s.pairing_pin ≡ pin_size
  pub pin_ends : Ends s.pairing_pin
  pub devices_length : length s.devices ≡ max_control_devices
  pub devices_fit : All DeviceFits s.devices
