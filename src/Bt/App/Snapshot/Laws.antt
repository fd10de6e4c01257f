-- ===== src/Bt/App/Snapshot/Laws.antt =====
-- bt/bluetooth.c: what `bluetooth_control_get_snapshot` copies, as texts.
use picow_bt_kb_hid.Base.{
  ℕ, ◌-◌, ◌≤◌, ◌<◌, ◌≡◌, refl, sym, ◌∙◌, ap, ap₂, Bool, true, false, List, [], ◌∷◌, map, replicate,
  take, length, length-append, length-map, length-take, length-replicate, take-append, All,
  All-append, All-replicate, All-map, if◌then◌else◌, ltb, ◌+◌, take_all, Bool-cases, inl, inr,
  arith, if_rule,
}
use picow_bt_kb_hid.Base.Text.{
  codes, c_string, strncpy, c_string-strncpy, c_string-strncpy_fits, length-strncpy, strncpy-Ends,
  Ends,
}
use picow_bt_kb_hid.Bt.State.{State, bt_state_name}
use picow_bt_kb_hid.Bt.Devices.{Device, DeviceManager}
use picow_bt_kb_hid.Bt.Snapshot.{
  Snapshot, SnapshotFits, ControlDevice, DeviceFits, zero_device, max_control_devices, name_size,
  state_size, pin_size, version_size,
}
use picow_bt_kb_hid.Bt.App.Model.{App}
use picow_bt_kb_hid.Bt.App.Snapshot.{
  device_snapshot, snapshot_count, device_snapshots, bluetooth_control_get_snapshot,
}

-- The name that a device is shown with.
abbrev pub shown_name : Device → List ℕ
shown_name d = if d.has_name then take (name_size - 1) (c_string d.name) else []

zeros_end : Ends (replicate name_size 0)
unfolding c_string
zeros_end = omega arith

device_snapshot-DeviceFits : (d : Device) → DeviceFits (device_snapshot d)
unfolding device_snapshot
device_snapshot-DeviceFits d = record {
  name_length =
      if_rule (λ (xs : List ℕ). length xs ≡ name_size) d.has_name
        (λ e. length-strncpy name_size d.name (omega arith)) (λ e. refl);
  name_ends =
      if_rule Ends d.has_name (λ e. strncpy-Ends name_size d.name (omega arith)) (λ e. zeros_end);
}

device_name : (d : Device) → c_string (device_snapshot d).name ≡ shown_name d
unfolding device_snapshot c_string
device_name d = by_name d.has_name
  where
    by_name :
        (b : Bool)
        → c_string (if b then strncpy name_size d.name else replicate name_size 0)
          ≡ (if b then take (name_size - 1) (c_string d.name) else [])
    by_name true = c_string-strncpy name_size d.name
    by_name false = refl

snapshot_count-le : (m : DeviceManager) → snapshot_count m ≤ max_control_devices
snapshot_count-le m = ground arith

used_length :
    (m : DeviceManager)
    → length (map device_snapshot (take (snapshot_count m) m)) ≡ snapshot_count m
used_length m =
    length-map (take (snapshot_count m) m) device_snapshot
    ∙ length-take (snapshot_count m) m (ground arith)

-- The part of the array that is in use.
shown_devices :
    (m : DeviceManager)
    → take (snapshot_count m) (device_snapshots m) ≡ map device_snapshot (take (snapshot_count m) m)
unfolding device_snapshots
shown_devices m =
    let used = map device_snapshot (take (snapshot_count m) m) in
    ap (λ n. take n (device_snapshots m)) (sym (used_length m))
    ∙ take-append used (replicate (max_control_devices - snapshot_count m) zero_device)

first_devices : (m : DeviceManager) → take (snapshot_count m) m ≡ take max_control_devices m
first_devices m = elim (Bool-cases (ltb max_control_devices (length m))) [
  | inl e ↦ rw e refl
  | inr e ↦
      rw e
        (take_all (length m) m (omega arith) ∙ sym (take_all max_control_devices m (ground arith)))
]

device_snapshots-fit :
    (m : DeviceManager)
    → (length (device_snapshots m) ≡ max_control_devices) × All DeviceFits (device_snapshots m)
unfolding device_snapshots
device_snapshots-fit m =
    let used = map device_snapshot (take (snapshot_count m) m) in
    (
      length-append used (replicate (max_control_devices - snapshot_count m) zero_device)
          ∙ ap₂ ◌+◌ (used_length m)
              (length-replicate (max_control_devices - snapshot_count m) zero_device)
          ∙ omega (arith, snapshot_count-le m),
      All-append DeviceFits used (replicate (max_control_devices - snapshot_count m) zero_device)
          (All-map DeviceFits device_snapshot (take (snapshot_count m) m)
            device_snapshot-DeviceFits)
          (All-replicate DeviceFits (max_control_devices - snapshot_count m) zero_device
            (record { name_length = refl; name_ends = zeros_end })),
    )

-- Two functions that agree on every item give the same list.
map-same : {A B : Type 0} (f g : A → B) (xs : List A) → ((x : A) → f x ≡ g x) → map f xs ≡ map g xs
map-same f g [] h = refl
map-same f g (x ∷ xs) h = ap₂ ◌∷◌ (h x) (map-same f g xs h)

map-map :
    {A B C : Type 0} (g : B → C) (f : A → B) (xs : List A)
    → map g (map f xs) ≡ map (λ x. g (f x)) xs
map-map g f [] = refl
map-map g f (x ∷ xs) = ap (λ ys. g (f x) ∷ ys) (map-map g f xs)

-- A view of the devices in use.
module _ {B : Type 0} (view : ControlDevice → B) (source : Device → B)
    (same : (d : Device) → view (device_snapshot d) ≡ source d) where
  views :
      (m : DeviceManager)
      → map view (take (snapshot_count m) (device_snapshots m))
        ≡ map source (take max_control_devices m)
  views m =
      ap (map view) (shown_devices m ∙ ap (map device_snapshot) (first_devices m))
      ∙ map-map view device_snapshot (take max_control_devices m)
      ∙ map-same _ source (take max_control_devices m) same

pub record Shows (version : List ℕ) (a : App) (s : Snapshot) : Type 0 where
  pub fits : SnapshotFits s
  pub version_text : c_string s.version ≡ take (version_size - 1) (c_string version)
  pub state_text : c_string s.state ≡ codes (bt_state_name a.current_state)
  pub pin_text : c_string s.pairing_pin ≡ (if a.pairing_pin_pending then codes "0000" else [])
  pub names :
      map (λ (d : ControlDevice). c_string d.name) (take s.device_count s.devices)
      ≡ map shown_name (take max_control_devices a.devices)
  pub addresses :
      map (λ (d : ControlDevice). d.address) (take s.device_count s.devices)
      ≡ map (λ (d : Device). d.address) (take max_control_devices a.devices)

-- The name of each state is a text that fits into the array.
IsShort : List ℕ → Type 0
IsShort text = (c_string text ≡ text) × (length (c_string text) < state_size)

state_name-IsShort : (s : State) → IsShort (codes (bt_state_name s))
unfolding bt_state_name c_string IsShort
state_name-IsShort State.initializing = (refl, omega arith)
state_name-IsShort State.idle = (refl, omega arith)
state_name-IsShort State.inquiry = (refl, omega arith)
state_name-IsShort State.connecting = (refl, omega arith)
state_name-IsShort State.connected = (refl, omega arith)
state_name-IsShort State.service_discovery = (refl, omega arith)
state_name-IsShort State.authenticating = (refl, omega arith)
state_name-IsShort State.ready = (refl, omega arith)
state_name-IsShort State.disconnected = (refl, omega arith)
state_name-IsShort State.opening_control = (refl, omega arith)
state_name-IsShort State.setting_boot_protocol = (refl, omega arith)
state_name-IsShort State.opening_interrupt = (refl, omega arith)
state_name-IsShort State.hid_connected = (refl, omega arith)

pin-Ends : (b : Bool) → Ends (if b then strncpy pin_size (codes "0000") else replicate pin_size 0)
unfolding c_string
pin-Ends true = strncpy-Ends pin_size (codes "0000") (omega arith)
pin-Ends false = omega arith

pin_text_lem :
    (b : Bool)
    → c_string (if b then strncpy pin_size (codes "0000") else replicate pin_size 0)
      ≡ (if b then codes "0000" else [])
unfolding c_string strncpy
pin_text_lem true = refl
pin_text_lem false = refl

device_address : (d : Device) → (device_snapshot d).address ≡ d.address
unfolding device_snapshot
device_address d = refl

-- A snapshot has the name of the state in full, the PIN exactly while one is displayed, and the
-- first sixteen devices in the order of the list, each with its address and, where it has a name,
-- up to 63 bytes of it; the version is cut to 31 bytes. Each text has a zero byte within its array.
pub get_snapshot-Shows :
    (version : List ℕ) (a : App) → Shows version a (bluetooth_control_get_snapshot version a)
unfolding bluetooth_control_get_snapshot IsShort
get_snapshot-Shows version a = record {
  fits = record {
    version_length = length-strncpy version_size version (omega arith);
    version_ends = strncpy-Ends version_size version (omega arith);
    state_length = length-strncpy state_size (codes (bt_state_name a.current_state)) (omega arith);
    state_ends = strncpy-Ends state_size (codes (bt_state_name a.current_state)) (omega arith);
    pin_length =
        if_rule (λ (xs : List ℕ). length xs ≡ pin_size) a.pairing_pin_pending
          (λ e. length-strncpy pin_size (codes "0000") (omega arith)) (λ e. refl);
    pin_ends = pin-Ends a.pairing_pin_pending;
    devices_length = (device_snapshots-fit a.devices).0;
    devices_fit = (device_snapshots-fit a.devices).1;
  };
  version_text = c_string-strncpy version_size version;
  state_text =
      c_string-strncpy_fits state_size (codes (bt_state_name a.current_state))
        (state_name-IsShort a.current_state).1
      ∙ (state_name-IsShort a.current_state).0;
  pin_text = pin_text_lem a.pairing_pin_pending;
  names = views (λ (d : ControlDevice). c_string d.name) shown_name device_name a.devices;
  addresses =
      views (λ (d : ControlDevice). d.address) (λ (d : Device). d.address) device_address a.devices;
}
