-- ===== src/Bt/App/Snapshot.antt =====
-- bt/bluetooth.c: `bluetooth_control_get_snapshot`. The version is that of the generated header.
pub mod Laws
use picow_bt_kb_hid.Base.{
  ℕ, zero, suc, ◌-◌, ◌≤◌, ◌≡◌, refl, ◌∙◌, ap, ap₂, Bool, true, false, List, [], ◌∷◌, ◌++◌, map,
  replicate, take, length, length-append, length-map, length-take_le, length-take, if◌then◌else◌,
  ltb, leb, All, arith, if_rule,
}
use picow_bt_kb_hid.Base.Text.{
  codes, c_string, strncpy, c_string-strncpy, length-strncpy, strncpy-Ends, Ends,
}
use picow_bt_kb_hid.Bt.State.{State, bt_state_name}
use picow_bt_kb_hid.Bt.Devices.{Device, DeviceManager}
use picow_bt_kb_hid.Bt.Snapshot.{
  Snapshot, SnapshotFits, ControlDevice, DeviceFits, zero_device, max_control_devices, name_size,
  state_size, pin_size, version_size,
}
use picow_bt_kb_hid.Bt.App.Model.{App}

-- The body of the loop, into a device of zero bytes.
unfoldable pub device_snapshot : Device → ControlDevice
device_snapshot source = record {
  address = source.address;
  name = if source.has_name then strncpy name_size source.name else replicate name_size 0;
  rssi = source.rssi;
  has_rssi = source.has_rssi;
  keyboard = source.hid_supported;
  bonded = source.bonded;
  connected = source.connected;
  report_descriptor_present = source.report_descriptor_present;
  report_descriptor_too_large = source.report_descriptor_too_large;
  report_descriptor_valid = source.report_descriptor_valid;
  report_has_keyboard = source.report_has_keyboard;
  report_has_consumer_control = source.report_has_consumer_control;
  report_has_nkro_keyboard = source.report_has_nkro_keyboard;
  report_uses_ids = source.report_uses_ids;
}

-- The devices of the snapshot, behind which its array stays zero.
abbrev pub snapshot_count : DeviceManager → ℕ
snapshot_count devices =
    if ltb max_control_devices (length devices) then max_control_devices else length devices

unfoldable pub device_snapshots : DeviceManager → List ControlDevice
device_snapshots devices =
    map device_snapshot (take (snapshot_count devices) devices)
    ++ replicate (max_control_devices - snapshot_count devices) zero_device

-- `bluetooth_control_get_snapshot`.
unfoldable pub bluetooth_control_get_snapshot : List ℕ → App → Snapshot
bluetooth_control_get_snapshot version a = record {
  version = strncpy version_size version;
  state = strncpy state_size (codes (bt_state_name a.current_state));
  auto_connect = a.auto_connect_enabled;
  has_pairing_pin = a.pairing_pin_pending;
  pairing_pin =
      if a.pairing_pin_pending then strncpy pin_size (codes "0000") else replicate pin_size 0;
  has_selected_device = a.selected_device_valid;
  selected_device = if a.selected_device_valid then a.selected_device_addr else replicate 6 0;
  device_count = snapshot_count a.devices;
  devices = device_snapshots a.devices;
}
