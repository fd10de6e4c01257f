-- ===== src/Web/Json/Printer.antt =====
-- web/control_json.c: the text of a snapshot, as a printer without any bound makes it.
use picow_bt_kb_hid.Base.{ℕ, Bool, true, false, List, [], ◌∷◌, ◌++◌, if◌then◌else◌, take}
use picow_bt_kb_hid.Base.Text.{codes, c_string}
use picow_bt_kb_hid.Bt.Snapshot.{Snapshot, ControlDevice}
use picow_bt_kb_hid.Web.Json.{escape, address_text, flag, device_flags, shown_count}

-- The characters of a string.
unfoldable pub escapes : List ℕ → List ℕ
escapes [] = []
escapes (ch ∷ value) = escape ch ++ escapes value

-- An array of characters as a JSON string.
unfoldable pub render_string : List ℕ → List ℕ
render_string value = (b'"' ∷ []) ++ escapes (c_string value) ++ (b'"' ∷ [])

unfoldable pub render_device : Bool → ControlDevice → List ℕ
render_device first d =
    ((if first then [] else codes ",") ++ codes "{\"address\":")
    ++ address_text d.address
    ++ codes ",\"name\":"
    ++ render_string d.name
    ++ device_flags d

unfoldable pub render_devices : Bool → List ControlDevice → List ℕ
render_devices first [] = []
render_devices first (d ∷ devices) = render_device first d ++ render_devices false devices

-- The text of a snapshot, without any bound.
unfoldable pub render : Snapshot → List ℕ
render s =
    codes "{\"version\":"
    ++ render_string s.version
    ++ codes ",\"state\":"
    ++ render_string s.state
    ++ (codes ",\"autoConnect\":" ++ flag s.auto_connect ++ codes ",\"pairingPin\":")
    ++ (if s.has_pairing_pin then render_string s.pairing_pin else codes "null")
    ++ codes ",\"selectedDevice\":"
    ++ (if s.has_selected_device then address_text s.selected_device else codes "null")
    ++ codes ",\"devices\":["
    ++ render_devices true (take (shown_count s) s.devices)
    ++ codes "]}"
