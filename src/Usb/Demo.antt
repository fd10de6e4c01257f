-- ===== src/Usb/Demo.antt =====
-- usb/keyboard_demo.c: eight keys typed one by one once the host has mounted the keyboard. The
-- times of `to_ms_since_boot` and the answers of TinyUSB are parameters.
pub mod Typing
use picow_bt_kb_hid.Base.{
  ℕ, zero, suc, ◌+◌, ◌-◌, ◌*◌, ◌%◌, ◌^◌, ◌≤◌, ◌<◌, ◌≡◌, refl, Bool, true, false, not, ◌||◌, List,
  [], ◌∷◌, ◌++◌, if◌then◌else◌, ◌==◌, ltb, leb, length, get_or, take, arith,
}
use picow_bt_kb_hid.Usb.Keyboard.{ReportQueue, keyboard_type}

-- `keyboard_demo_key_t`: the modifier and the keycode.
abbrev pub Key : Type 0
Key = ℕ × ℕ

-- The constants of TinyUSB that the table names: `HID_KEY_A` to `HID_KEY_C`, `HID_KEY_ENTER` and the
-- modifiers of the left Shift and Control.
pub record Tinyusb : Type 0 where
  pub key_a : ℕ
  pub key_b : ℕ
  pub key_c : ℕ
  pub key_enter : ℕ
  pub left_shift : ℕ
  pub left_ctrl : ℕ

-- `demo_keys`.
abbrev pub demo_keys : Tinyusb → List Key
demo_keys t =
    (0, t.key_a)
    ∷ (0, t.key_b)
    ∷ (0, t.key_c)
    ∷ (t.left_shift, t.key_a)
    ∷ (t.left_shift, t.key_b)
    ∷ (t.left_shift, t.key_c)
    ∷ (t.left_ctrl, t.key_a)
    ∷ (0, t.key_enter)
    ∷ []

-- The static variables of `keyboard_demo_task`.
pub record Demo : Type 0 where
  pub mounted : Bool
  pub completed : Bool
  pub key_index : ℕ
  pub next_key_ms : ℕ

unfoldable pub power_on : Demo
power_on = record { mounted = false; completed = false; key_index = 0; next_key_ms = 0 }

-- `(int32_t) (now - next) < 0` on two values of 32 bits.
abbrev pub is_before : ℕ → ℕ → Bool
is_before now next = leb (2 ^ 31) ((now + 2 ^ 32 - next) % 2 ^ 32)

-- `keyboard_demo_task`, on the times at its three calls of the clock.
unfoldable pub keyboard_demo_task :
    Tinyusb → Bool → Bool → ℕ → ℕ → ℕ → Demo → ReportQueue → Demo × ReportQueue
keyboard_demo_task t tud_mounted tud_hid_ready first now after demo queue =
    if demo.completed || not tud_mounted
    then (demo, queue)
    else let demo' =
        if demo.mounted
        then demo
        else record demo { mounted = true; next_key_ms = (first + 5000) % 2 ^ 32 } in
      if is_before now demo'.next_key_ms || not tud_hid_ready
      then (demo', queue)
      else let (modifier, keycode) = get_or (demo_keys t) demo'.key_index (0, 0) in
        (
          record demo' {
            key_index = (demo'.key_index + 1) % 2 ^ 32;
            completed = (demo'.key_index + 1) % 2 ^ 32 == length (demo_keys t);
            next_key_ms = (after + 50) % 2 ^ 32;
          },
          keyboard_type queue modifier keycode,
        )
