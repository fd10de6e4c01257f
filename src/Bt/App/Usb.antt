-- ===== src/Bt/App/Usb.antt =====
-- usb/hid_keyboard.c and bt/bluetooth.c: what USB asks of the Bluetooth application, and the two
-- functions between them.
use picow_bt_kb_hid.Base.{
  ℕ, ◌≡◌, refl, Bool, ◌&&◌, List, Option, none, some, if◌then◌else◌, leb, get_or, bit_and,
}
use picow_bt_kb_hid.Bt.Channels.{hid_channels_set_leds}
use picow_bt_kb_hid.Usb.Keyboard.{keyboard_press, keyboard_release}
use picow_bt_kb_hid.Bt.App.Platform.{Btstack, Answers, Event}
use picow_bt_kb_hid.Bt.App.Model.{App}
use picow_bt_kb_hid.Bt.App.Events.{handle}

-- `bluetooth_set_keyboard_leds`.
unfoldable pub bluetooth_set_keyboard_leds : ℕ → App → App
bluetooth_set_keyboard_leds leds a = record a {
  hid_channels = (hid_channels_set_leds a.hid_channels leds).0;
}

-- `bluetooth_forward_key_event`.
unfoldable pub bluetooth_forward_key_event : Bool → ℕ → ℕ → App → App
bluetooth_forward_key_event pressed modifier keycode a =
    if pressed
    then record a { keyboard = keyboard_press a.keyboard modifier keycode }
    else record a { keyboard = keyboard_release a.keyboard }

-- `tud_hid_set_report_cb`, on whether the type of the report is `HID_REPORT_TYPE_OUTPUT` and on the
-- bytes at `buffer`, `none` if it is NULL.
unfoldable pub tud_hid_set_report_cb : Bool → Option (List ℕ) → ℕ → App → App
tud_hid_set_report_cb output none bufsize a = a
tud_hid_set_report_cb output (some buffer) bufsize a =
    if output && leb 1 bufsize
    then bluetooth_set_keyboard_leds (bit_and (get_or buffer 0 0) 0x1f) a
    else a

-- `tud_hid_get_report_cb` has no report to give.
abbrev pub tud_hid_get_report_cb : ℕ
tud_hid_get_report_cb = 0

-- The application takes the LEDs as an event.
pub set_keyboard_leds-handle :
    (btstack : Btstack) (answers : Answers) (leds : ℕ) (a : App)
    → bluetooth_set_keyboard_leds leds a ≡ handle btstack answers (Event.set_leds leds) a
unfolding bluetooth_set_keyboard_leds handle
set_keyboard_leds-handle btstack answers leds a = refl
