-- ===== src/Usb/Descriptors.antt =====
-- usb/usb_descriptors.c: the string descriptors. The serial number that the board answers, as
-- characters of 16 bits, and the type of a string descriptor are parameters.
use picow_bt_kb_hid.Base.{
  ℕ, ◌+◌, ◌*◌, ◌%◌, ◌^◌, Bool, true, false, List, [], ◌∷◌, Option, none, some, if◌then◌else◌, ◌==◌,
  ltb, length, set, take, get_or, bit_or,
}
use picow_bt_kb_hid.Base.Text.{codes}

-- `string_descriptors`, of which the entry of the serial number is NULL.
abbrev pub string_descriptors : List (Option (List ℕ))
string_descriptors =
    some (0x09 ∷ 0x04 ∷ [])
    ∷ some (codes "Pico BT Keyboard")
    ∷ some (codes "Pico W USB HID Keyboard")
    ∷ none
    ∷ []

-- The loop that copies characters from place `i` of the array on.
unfoldable pub copy_characters : ℕ → List ℕ → List ℕ → List ℕ
copy_characters i [] descriptor = descriptor
copy_characters i (ch ∷ text) descriptor = copy_characters (i + 1) text (set descriptor i ch)

-- The header of `count` characters, in place 0.
abbrev pub with_header : ℕ → ℕ → List ℕ → List ℕ
with_header tusb_desc_string count descriptor =
    set descriptor 0 (bit_or (tusb_desc_string * 2 ^ 8) (2 * count + 2) % 2 ^ 16)

-- `tud_descriptor_string_cb`: the array `string_descriptor` after it, and whether it is the result;
-- the result is NULL for an index without a string.
unfoldable pub tud_descriptor_string_cb : ℕ → List ℕ → ℕ → List ℕ → List ℕ × Bool
tud_descriptor_string_cb tusb_desc_string serial index descriptor =
    if index == 0
    then (with_header tusb_desc_string 1 (set descriptor 1 (0x09 + 0x04 * 2 ^ 8)), true)
    else if index == 3
    then (with_header tusb_desc_string (length serial) (copy_characters 1 serial descriptor), true)
    else elim (get_or string_descriptors index none) [
      | none ↦ (descriptor, false)
      | some text ↦
          let count = if ltb 32 (length text) then 32 else length text in
          (
            with_header tusb_desc_string count (copy_characters 1 (take count text) descriptor),
            true,
          )
    ]
