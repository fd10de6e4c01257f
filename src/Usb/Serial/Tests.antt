-- ===== src/Usb/Serial/Tests.antt =====
-- The theorems on the log ring of usb/usb_serial.c at concrete rings and ports.
use picow_bt_kb_hid.Base.{
  ℕ, ◌-◌, ◌≤◌, ◌≡◌, true, List, [], ◌∷◌, ◌++◌, some, if◌then◌else◌, leb, length, arith,
}
use picow_bt_kb_hid.Base.Text.{codes}
use picow_bt_kb_hid.Usb.Serial.{Log, empty_log, append_bytes, usb_serial_printf}
use picow_bt_kb_hid.Usb.Serial.Refine.{
  IsValid, IsPrinted, pending, printf_refines, empty_log-IsValid, append_bytes-IsAppended,
}
use picow_bt_kb_hid.Usb.Serial.Run.{Step, print, task, run, entered, run_delivers}

-- A port with room for a number of bytes.
abbrev room_write : List ℕ → ℕ → ℕ × ℕ
room_write bytes room =
    let n = if leb (length bytes) room then length bytes else room in (n, room - n)

abbrev room_available : ℕ → ℕ
room_available room = room

room_write-takes : (bytes : List ℕ) (room : ℕ) → (room_write bytes room).0 ≤ length bytes
room_write-takes bytes room = ground arith

-- The log after one line.
abbrev one_line : Log
one_line = append_bytes (codes "ok\r\n") empty_log

one_line-IsValid : IsValid one_line
unfolding empty_log
one_line-IsValid =
    (append_bytes-IsAppended (codes "ok\r\n") empty_log empty_log-IsValid (omega arith)).valid

printf_refines_example :
    IsPrinted true
      (some (codes "more\r\n"))
      one_line
      (usb_serial_printf true (some (codes "more\r\n")) one_line)
printf_refines_example = printf_refines true (some (codes "more\r\n")) one_line one_line-IsValid

abbrev session : List Step
session =
    print true (some (codes "ok\r\n"))
    ∷ task true
    ∷ print true (some (codes "more\r\n"))
    ∷ task true
    ∷ []

run_delivers_example :
    (run room_available room_write session empty_log 3).2
      ++ pending (run room_available room_write session empty_log 3).0
    ≡ entered room_available room_write room_write-takes session empty_log 3
run_delivers_example = run_delivers room_available room_write room_write-takes session 3
