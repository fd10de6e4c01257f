-- ===== src/Usb/Serial.antt =====
-- usb/usb_serial.c: the ring of log bytes between the program and the CDC port. What `vsnprintf`
-- makes of a format is a parameter, `none` where it fails; TinyUSB's CDC port is a parameter with a
-- state of its own.
pub mod Refine
pub mod Drain
pub mod Termination
pub mod Run
mod Tests
use picow_bt_kb_hid.Base.{
  ℕ, zero, suc, ◌+◌, ◌-◌, ◌%◌, ◌^◌, Bool, true, false, not, ◌&&◌, ◌||◌, List, [], ◌∷◌, ◌++◌,
  replicate, Option, none, some, if◌then◌else◌, ◌==◌, ltb, leb, set, take, drop, length,
}
use picow_bt_kb_hid.Base.Text.{codes}

-- `USB_SERIAL_LOG_BUFFER_SIZE`.
abbrev pub log_size : ℕ
log_size = 8192

-- `sizeof(message)`.
abbrev pub message_size : ℕ
message_size = 128

-- `log_buffer`, `log_head`, `log_count` and `log_overflowed`.
pub record Log : Type 0 where
  pub buffer : List ℕ
  pub head : ℕ
  pub count : ℕ
  pub overflowed : Bool

-- The static storage at power-on.
unfoldable pub empty_log : Log
empty_log = record { buffer = replicate log_size 0; head = 0; count = 0; overflowed = false }

-- The loop that appends a message.
unfoldable pub append_bytes : List ℕ → Log → Log
append_bytes [] l = l
append_bytes (b ∷ bs) l =
    let tail = (l.head + l.count) % log_size % 2 ^ 16 in
    append_bytes bs (record l { buffer = set l.buffer tail b; count = (l.count + 1) % 2 ^ 16 })

-- What is kept of a text of `vsnprintf`.
abbrev pub message_of : List ℕ → List ℕ
message_of text =
    take (if leb message_size (length text) then message_size - 1 else length text) text

-- `usb_serial_printf`, on the answer of `tud_cdc_connected` and the formatted text.
unfoldable pub usb_serial_printf : Bool → Option (List ℕ) → Log → Log
usb_serial_printf false text l = l
usb_serial_printf true none l = l
usb_serial_printf true (some text) l =
    if length text == 0
    then l
    else let length = if leb message_size (length text) then message_size - 1 else length text in
      if ltb (log_size - l.count) (length % 2 ^ 16)
      then record l { overflowed = true }
      else append_bytes (take length text) l

-- The text of the notice.
abbrev pub notice : List ℕ
notice = codes "[USB] CDC log queue overflow; messages dropped\r\n"

-- The CDC port of TinyUSB: `tud_cdc_write_available` and `tud_cdc_write`, which answers how many of
-- the bytes it has taken.
module _ {S : Type 0} (write_available : S → ℕ) (write : List ℕ → S → ℕ × S) where
  -- The number of bytes that one round of the loop offers to the port, and those bytes.
  abbrev pub contiguous : Log → S → ℕ
  contiguous l port =
      let behind = log_size - l.head in
      let waiting = if ltb l.count behind then l.count else behind in
      let available = write_available port in if ltb available waiting then available else waiting

  abbrev pub offered : Log → S → List ℕ
  offered l port = take (contiguous l port) (drop l.head l.buffer)

  -- The step of the ring behind the bytes that were written.
  abbrev pub advance : ℕ → Log → Log
  advance written l = record l {
    head = (l.head + written) % log_size % 2 ^ 16;
    count = (l.count - written) % 2 ^ 16;
  }

  -- The loop of `usb_serial_task`, with the bytes that the port has taken.
  unfoldable pub drain : ℕ → Log → S → Log × S × List ℕ
  drain zero l port = (l, port, [])
  drain (suc fuel) l port =
      let (written, port') = write (offered l port) port in
      let (l', port'', sent) = drain fuel (advance written l) port' in
      if l.count == 0 || write_available port == 0
      then (l, port, [])
      else if written == 0
      then (l, port', [])
      else (l', port'', take written (offered l port) ++ sent)

  -- The notice about lost messages.
  unfoldable pub report_overflow : Bool → Log → Log
  unfolding usb_serial_printf
  report_overflow connected l =
      if l.overflowed && ltb l.count (log_size - 48)
      then usb_serial_printf connected (some notice) (record l { overflowed = false })
      else l

  -- `usb_serial_task`, with the bytes that the port has taken. The loop has as much fuel as there are
  -- bytes.
  unfoldable pub usb_serial_task : Bool → Log → S → Log × S × List ℕ
  unfolding drain report_overflow
  usb_serial_task false l port = (l, port, [])
  usb_serial_task true l port =
      let (l', port', sent) = drain l.count l port in (report_overflow true l', port', sent)

-- `usb_serial_read`, on the answer of `tud_cdc_connected` and on `tud_cdc_read`, which is given a
-- size and answers the bytes it has copied.
unfoldable pub usb_serial_read : Bool → ℕ → (ℕ → List ℕ) → List ℕ
usb_serial_read connected size tud_cdc_read =
    if not connected || size == 0 then [] else tud_cdc_read size
