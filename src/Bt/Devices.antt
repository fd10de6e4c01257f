-- ===== src/Bt/Devices.antt =====
-- bt/device_manager.c and bt/device_manager.h: the devices that an inquiry found. The list holds the
-- first `count` slots of the array, whose other slots are set to zero before they are read. A pointer
-- into the array is the address of its device: a write through it is `modify` at that address.
pub mod Laws
pub mod Upsert
pub mod Target
use picow_bt_kb_hid.Base.{
  ℕ, ◌+◌, ◌-◌, Bool, true, false, not, ◌&&◌, ◌||◌, List, [], ◌∷◌, ◌++◌, map, Option, none, some,
  if◌then◌else◌, ◌==◌, leb, length, take, drop, replicate, bit_and,
}
use picow_bt_kb_hid.Base.Bytes.{bytes_eq}
use picow_bt_kb_hid.Bt.Control.{BdAddr}

-- `DEVICE_MANAGER_MAX_DEVICES`.
abbrev pub max_devices : ℕ
max_devices = 16

-- `DEVICE_MANAGER_NAME_MAX_LENGTH`.
abbrev pub name_max_length : ℕ
name_max_length = 64

-- `Device`. `name` is the whole array of 64 bytes, and `rssi` the bit pattern of an `int8_t`.
pub record Device : Type 0 where
  pub address : BdAddr
  pub name : List ℕ
  pub rssi : ℕ
  pub class_of_device : ℕ
  pub connected : Bool
  pub bonded : Bool
  pub hid_supported : Bool
  pub has_rssi : Bool
  pub has_name : Bool
  pub hid_service_found : Bool
  pub hid_control_psm : ℕ
  pub hid_interrupt_psm : ℕ
  pub sdp_completed : Bool
  pub report_descriptor_present : Bool
  pub report_descriptor_too_large : Bool
  pub report_descriptor_valid : Bool
  pub report_has_keyboard : Bool
  pub report_has_consumer_control : Bool
  pub report_has_nkro_keyboard : Bool
  pub report_uses_ids : Bool

-- `DeviceManager`.
abbrev pub DeviceManager : Type 0
DeviceManager = List Device

-- `device_manager_init`.
abbrev pub device_manager_init : DeviceManager
device_manager_init = []

-- `device_manager_find`.
unfoldable pub device_manager_find : DeviceManager → BdAddr → Option Device
device_manager_find [] address = none
device_manager_find (d ∷ rest) address =
    if bytes_eq d.address address then some d else device_manager_find rest address

-- A write through the pointer that `device_manager_find` returns.
unfoldable pub modify : BdAddr → (Device → Device) → DeviceManager → DeviceManager
modify address f [] = []
modify address f (d ∷ rest) =
    if bytes_eq d.address address then f d ∷ rest else d ∷ modify address f rest

-- A slot set to zero, with the address of its device.
abbrev pub blank_device : BdAddr → Device
blank_device address = record {
  address = address;
  name = replicate name_max_length 0;
  rssi = 0;
  class_of_device = 0;
  connected = false;
  bonded = false;
  hid_supported = false;
  has_rssi = false;
  has_name = false;
  hid_service_found = false;
  hid_control_psm = 0;
  hid_interrupt_psm = 0;
  sdp_completed = false;
  report_descriptor_present = false;
  report_descriptor_too_large = false;
  report_descriptor_valid = false;
  report_has_keyboard = false;
  report_has_consumer_control = false;
  report_has_nkro_keyboard = false;
  report_uses_ids = false;
}

-- A keyboard by its class: peripheral as major class, and the keyboard bit of the minor class.
unfoldable pub is_keyboard_class : ℕ → Bool
is_keyboard_class class_of_device =
    bit_and class_of_device 0x1f00 == 0x0500 && not (bit_and class_of_device 0x40 == 0)

-- The end of `device_manager_upsert`: `name_length` bytes of the name, at most 63, and a zero byte.
unfoldable pub copy_name : List ℕ → List ℕ → ℕ → List ℕ
copy_name old name name_length =
    let n = if leb name_max_length name_length then name_max_length - 1 else name_length in
    take n name ++ (0 ∷ drop (n + 1) old)

-- The name of the device, if the inquiry gave one.
abbrev pub set_name : Option (List ℕ) → ℕ → Device → Device
set_name none name_length d = d
set_name (some name) name_length d =
    if name_length == 0
    then d
    else record d { name = copy_name d.name name name_length; has_name = true }

-- What `device_manager_upsert` writes to the device, found or new.
unfoldable pub describe : Bool → ℕ → ℕ → Option (List ℕ) → ℕ → Device → Device
describe has_rssi rssi class_of_device name name_length d = set_name name name_length (record d {
  class_of_device = class_of_device;
  hid_supported = is_keyboard_class class_of_device;
  has_rssi = has_rssi;
  rssi = if has_rssi then rssi else d.rssi;
})

-- `device_manager_upsert`: the devices, the device that the result points to, and `*created`.
unfoldable pub device_manager_upsert :
    DeviceManager
    → BdAddr
    → Bool
    → ℕ
    → ℕ
    → Option (List ℕ)
    → ℕ
    → DeviceManager × Option Device × Bool
device_manager_upsert m address has_rssi rssi class_of_device name name_length =
    elim (device_manager_find m address) [
      | some d ↦ (
        modify address (describe has_rssi rssi class_of_device name name_length) m,
        some (describe has_rssi rssi class_of_device name name_length d),
        false,
      )
      | none ↦
          if length m == max_devices
          then (m, none, false)
          else let d =
              describe has_rssi rssi class_of_device name name_length (blank_device address) in
            (m ++ (d ∷ []), some d, true)
    ]

-- The first device that passes a test, as the two loops of `device_manager_get_connection_target`
-- look for it.
unfoldable pub first_address : (Device → Bool) → DeviceManager → Option BdAddr
first_address test [] = none
first_address test (d ∷ rest) = if test d then some d.address else first_address test rest

-- `device_manager_get_connection_target`.
unfoldable pub device_manager_get_connection_target : DeviceManager → Option BdAddr
device_manager_get_connection_target m = elim (first_address (λ d. d.hid_supported && d.bonded) m) [
  | some address ↦ some address
  | none ↦ first_address (λ d. d.hid_supported) m
]

-- `device_manager_clear_connections`.
unfoldable pub device_manager_clear_connections : DeviceManager → DeviceManager
device_manager_clear_connections m = map {A = Device} (λ d. record d { connected = false }) m

-- `device_manager_clear_bonded`.
unfoldable pub device_manager_clear_bonded : DeviceManager → DeviceManager
device_manager_clear_bonded m = map {A = Device} (λ d. record d { bonded = false }) m
