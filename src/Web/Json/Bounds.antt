-- ===== src/Web/Json/Bounds.antt =====
-- web/control_json.c and web/control_json.h: how long the text of a snapshot can be.
use picow_bt_kb_hid.Base.{
  ℕ, zero, suc, ◌+◌, ◌-◌, ◌*◌, ◌<◌, ◌≤◌, ◌≡◌, Bool, true, false, List, [], ◌∷◌, length, take,
  length-take_le, All, arith,
}
use picow_bt_kb_hid.Base.Text.{codes, c_string, Ends}
use picow_bt_kb_hid.Base.AtMost.{AtMost, ◌and◌, exact, looser, either, decimal-AtMost}
use picow_bt_kb_hid.Base.Format.{decimal_int8}
use picow_bt_kb_hid.Bt.Snapshot.{Snapshot, SnapshotFits, ControlDevice, DeviceFits}
use picow_bt_kb_hid.Web.Json.{
  escape, address_text, flag, device_flags, shown_count, max_snapshot_size,
}
use picow_bt_kb_hid.Web.Json.Printer.{escapes, render_string, render_device, render_devices, render}

flag-AtMost : (b : Bool) → AtMost 5 (flag b)
flag-AtMost b = record { bound = ground arith }

decimal_int8-AtMost : (b : ℕ) → AtMost 11 (decimal_int8 b)
unfolding decimal_int8
decimal_int8-AtMost b = record {
  bound = ground (arith, (decimal-AtMost b).bound, (decimal-AtMost (256 - b)).bound);
}

address_text-AtMost : (address : List ℕ) → AtMost 19 (address_text address)
address_text-AtMost address = record { bound = omega arith }

escape-AtMost : (ch : ℕ) → AtMost 6 (escape ch)
escape-AtMost ch = record { bound = ground arith }

escapes-AtMost : (value : List ℕ) → AtMost (6 * length value) (escapes value)
unfolding escapes
escapes-AtMost [] = record { bound = omega arith }
escapes-AtMost (ch ∷ value) = looser (escape-AtMost ch and escapes-AtMost value) (omega arith)

render_string-AtMost :
    (n : ℕ) (value : List ℕ)
    → length value ≡ suc n
    → Ends value
    → AtMost (2 + 6 * n) (render_string value)
unfolding render_string
render_string-AtMost n value e ends =
    looser (exact (b'"' ∷ []) and escapes-AtMost (c_string value) and exact (b'"' ∷ []))
      (omega arith)

device_flags-AtMost : (d : ControlDevice) → AtMost 271 (device_flags d)
unfolding device_flags
device_flags-AtMost d =
    looser
      (exact (codes ",\"rssi\":")
        and decimal_int8-AtMost d.rssi
        and exact (codes ",\"hasRssi\":")
        and flag-AtMost d.has_rssi
        and exact (codes ",\"keyboard\":")
        and flag-AtMost d.keyboard
        and exact (codes ",\"bonded\":")
        and flag-AtMost d.bonded
        and exact (codes ",\"connected\":")
        and flag-AtMost d.connected
        and exact (codes ",\"reportDescriptorPresent\":")
        and flag-AtMost d.report_descriptor_present
        and exact (codes ",\"reportDescriptorTooLarge\":")
        and flag-AtMost d.report_descriptor_too_large
        and exact (codes ",\"reportDescriptorValid\":")
        and flag-AtMost d.report_descriptor_valid
        and exact (codes ",\"reportKeyboard\":")
        and flag-AtMost d.report_has_keyboard
        and exact (codes ",\"reportConsumerControl\":")
        and flag-AtMost d.report_has_consumer_control
        and exact (codes ",\"reportNkro\":")
        and flag-AtMost d.report_has_nkro_keyboard
        and exact (codes ",\"reportIds\":")
        and flag-AtMost d.report_uses_ids
        and exact (codes "}"))
      (omega arith)

render_device-AtMost :
    (first : Bool) (d : ControlDevice) → DeviceFits d → AtMost 690 (render_device first d)
unfolding render_device
render_device-AtMost first d v =
    looser
      (either first (looser (exact []) (omega arith)) (exact (codes ","))
        and exact (codes "{\"address\":")
        and address_text-AtMost d.address
        and exact (codes ",\"name\":")
        and render_string-AtMost 63 d.name v.name_length v.name_ends
        and device_flags-AtMost d)
      (omega arith)

render_devices-AtMost :
    (first : Bool) (devices : List ControlDevice)
    → All DeviceFits devices
    → AtMost (690 * length devices) (render_devices first devices)
unfolding render_devices
render_devices-AtMost first [] h = record { bound = omega arith }
render_devices-AtMost first (d ∷ devices) h =
    looser (render_device-AtMost first d h.0 and render_devices-AtMost false devices h.1)
      (omega arith)

All-take : {A : Type 0} (P : A → Type 0) (n : ℕ) (xs : List A) → All P xs → All P (take n xs)
All-take P zero xs h = tt
All-take P (suc n) [] h = tt
All-take P (suc n) (x ∷ xs) h = (h.0, All-take P n xs h.1)

few_devices : (s : Snapshot) → 690 * length (take (shown_count s) s.devices) ≤ 11040
few_devices s = ground (arith, length-take_le (shown_count s) s.devices)

render-AtMost : (s : Snapshot) → SnapshotFits s → AtMost 11511 (render s)
unfolding render
render-AtMost s v =
    looser
      (exact (codes "{\"version\":")
        and render_string-AtMost 31 s.version v.version_length v.version_ends
        and exact (codes ",\"state\":")
        and render_string-AtMost 23 s.state v.state_length v.state_ends
        and (exact (codes ",\"autoConnect\":")
            and flag-AtMost s.auto_connect
            and exact (codes ",\"pairingPin\":"))
        and either s.has_pairing_pin (render_string-AtMost 6 s.pairing_pin v.pin_length v.pin_ends)
            (looser (exact (codes "null")) (omega arith))
        and exact (codes ",\"selectedDevice\":")
        and either s.has_selected_device (address_text-AtMost s.selected_device)
            (looser (exact (codes "null")) (omega arith))
        and exact (codes ",\"devices\":[")
        and looser
            (render_devices-AtMost true (take (shown_count s) s.devices)
              (All-take DeviceFits (shown_count s) s.devices v.devices_fit))
            (few_devices s)
        and exact (codes "]}"))
      (omega arith)

-- The text of any snapshot whose arrays have the sizes of the header and hold a zero byte each is
-- shorter than CONTROL_JSON_MAX_SNAPSHOT_SIZE: it has at most 11511 bytes.
pub render-lt : (s : Snapshot) → SnapshotFits s → length (render s) < max_snapshot_size
render-lt s v = omega (arith, (render-AtMost s v).bound)
