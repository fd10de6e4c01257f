-- ===== src/Web/Json.antt =====
-- web/control_json.c: the snapshot as JSON, in a buffer of fixed size. `vsnprintf` writes what fits
-- of a text and a zero byte behind it; a text is what its format makes of its arguments. With these
-- formats it does not fail, and the pointers that the source tests for NULL are arguments.
pub mod Printer
pub mod Render
pub mod Bounds
pub mod Strings
pub mod ReadBack
pub mod Status
use picow_bt_kb_hid.Base.{
  ℕ, zero, suc, ◌+◌, ◌-◌, Bool, true, false, not, ◌||◌, List, [], ◌∷◌, ◌++◌, Option, none, some,
  if◌then◌else◌, ◌==◌, ltb, leb, length, get_or, set, take, drop,
}
use picow_bt_kb_hid.Base.Text.{codes}
use picow_bt_kb_hid.Base.Format.{upper_byte, lower_word, decimal_int8}
use picow_bt_kb_hid.Bt.Control.{BdAddr}
use picow_bt_kb_hid.Bt.Snapshot.{Snapshot, ControlDevice, max_control_devices}

-- `json_writer_t`, with the bytes of its buffer.
pub record Writer : Type 0 where
  pub buffer : List ℕ
  pub capacity : ℕ
  pub length : ℕ
  pub valid : Bool

-- `vsnprintf(buffer + at, room, ...)`.
abbrev pub vsnprintf : List ℕ → ℕ → ℕ → List ℕ → List ℕ
vsnprintf buffer at room text =
    let written = take (room - 1) text in
    if room == 0
    then buffer
    else take at buffer ++ (written ++ (0 ∷ drop (at + length written + 1) buffer))

-- `append_format`, on the formatted text.
unfoldable pub append_format : List ℕ → Writer → Writer
append_format text w =
    let room = w.capacity - w.length in
    let buffer = vsnprintf w.buffer w.length room text in
    if not w.valid
    then w
    else if leb room (length text)
    then record w { buffer = buffer; valid = false }
    else record w { buffer = buffer; length = w.length + length text }

-- The text of one character in a string.
abbrev pub escape : ℕ → List ℕ
escape ch =
    if ch == b'"' || ch == b'\\'
    then b'\\' ∷ ch ∷ []
    else if ltb ch 0x20
    then b'\\' ∷ b'u' ∷ lower_word ch
    else ch ∷ []

-- The loop over the characters of a string.
unfoldable pub append_characters : List ℕ → Writer → Writer
append_characters [] w = w
append_characters (ch ∷ value) w =
    let next = append_characters value (append_format (escape ch) w) in
    if not w.valid || ch == 0 then w else next

-- `append_json_string`.
unfoldable pub append_json_string : List ℕ → Writer → Writer
append_json_string value w =
    append_format (b'"' ∷ []) (append_characters value (append_format (b'"' ∷ []) w))

-- The text of `append_address`.
abbrev pub address_text : BdAddr → List ℕ
address_text address =
    b'"' ∷ upper_byte (get_or address 0 0)
    ++ (b':' ∷ upper_byte (get_or address 1 0))
    ++ (b':' ∷ upper_byte (get_or address 2 0))
    ++ (b':' ∷ upper_byte (get_or address 3 0))
    ++ (b':' ∷ upper_byte (get_or address 4 0))
    ++ (b':' ∷ upper_byte (get_or address 5 0))
    ++ (b'"' ∷ [])

-- `append_address`.
unfoldable pub append_address : BdAddr → Writer → Writer
append_address address w = append_format (address_text address) w

-- `%s` of a flag.
abbrev pub flag : Bool → List ℕ
flag b = if b then codes "true" else codes "false"

-- The text of the flags of a device.
unfoldable pub device_flags : ControlDevice → List ℕ
device_flags d =
    codes ",\"rssi\":"
    ++ decimal_int8 d.rssi
    ++ codes ",\"hasRssi\":"
    ++ flag d.has_rssi
    ++ codes ",\"keyboard\":"
    ++ flag d.keyboard
    ++ codes ",\"bonded\":"
    ++ flag d.bonded
    ++ codes ",\"connected\":"
    ++ flag d.connected
    ++ codes ",\"reportDescriptorPresent\":"
    ++ flag d.report_descriptor_present
    ++ codes ",\"reportDescriptorTooLarge\":"
    ++ flag d.report_descriptor_too_large
    ++ codes ",\"reportDescriptorValid\":"
    ++ flag d.report_descriptor_valid
    ++ codes ",\"reportKeyboard\":"
    ++ flag d.report_has_keyboard
    ++ codes ",\"reportConsumerControl\":"
    ++ flag d.report_has_consumer_control
    ++ codes ",\"reportNkro\":"
    ++ flag d.report_has_nkro_keyboard
    ++ codes ",\"reportIds\":"
    ++ flag d.report_uses_ids
    ++ codes "}"

-- One call after another.
infixl 2 ◌>>>◌
abbrev pub ◌>>>◌ : (Writer → Writer) → (Writer → Writer) → Writer → Writer
(f >>> g) w = g (f w)

-- The body of the loop over the devices; a comma stands before each but the first.
unfoldable pub append_device : Bool → ControlDevice → Writer → Writer
append_device first d =
    append_format ((if first then [] else codes ",") ++ codes "{\"address\":")
    >>> append_address d.address
    >>> append_format (codes ",\"name\":")
    >>> append_json_string d.name
    >>> append_format (device_flags d)

unfoldable pub append_devices : Bool → List ControlDevice → Writer → Writer
append_devices first [] = λ w. w
append_devices first (d ∷ devices) = append_device first d >>> append_devices false devices

-- `size_t device_count`, at most 16.
abbrev pub shown_count : Snapshot → ℕ
shown_count s =
    if ltb max_control_devices s.device_count then max_control_devices else s.device_count

-- The calls of `control_json_write_snapshot`.
unfoldable pub append_snapshot : Snapshot → Writer → Writer
append_snapshot s =
    append_format (codes "{\"version\":")
    >>> append_json_string s.version
    >>> append_format (codes ",\"state\":")
    >>> append_json_string s.state
    >>> append_format (codes ",\"autoConnect\":" ++ flag s.auto_connect ++ codes ",\"pairingPin\":")
    >>> (if s.has_pairing_pin
        then append_json_string s.pairing_pin
        else append_format (codes "null"))
    >>> append_format (codes ",\"selectedDevice\":")
    >>> (if s.has_selected_device
        then append_address s.selected_device
        else append_format (codes "null"))
    >>> append_format (codes ",\"devices\":[")
    >>> append_devices true (take (shown_count s) s.devices)
    >>> append_format (codes "]}")

-- `control_json_write_snapshot`: the buffer, and `*written` where the result is `true`.
unfoldable pub control_json_write_snapshot : Snapshot → List ℕ → ℕ → List ℕ × Option ℕ
control_json_write_snapshot s buffer capacity =
    let w =
      append_snapshot s
        (record { buffer = set buffer 0 0; capacity = capacity; length = 0; valid = true }) in
    if capacity == 0
    then (buffer, none)
    else if w.valid
    then (w.buffer, some w.length)
    else (set w.buffer (capacity - 1) 0, none)

-- `CONTROL_JSON_MAX_SNAPSHOT_SIZE`.
abbrev pub max_snapshot_size : ℕ
max_snapshot_size = 14336
