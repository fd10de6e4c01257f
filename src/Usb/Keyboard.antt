-- ===== src/Usb/Keyboard.antt =====
-- usb/hid_keyboard.c: the ring of 64 keyboard reports between Bluetooth and USB.
pub mod Refine
use picow_bt_kb_hid.Base.{
  ℕ, ◌+◌, ◌-◌, ◌%◌, Bool, true, false, not, ◌&&◌, List, [], ◌∷◌, replicate, Option, none, some,
  if◌then◌else◌, ◌==◌, set, get_or, take,
}

-- `KEYBOARD_REPORT_QUEUE_SIZE`.
abbrev pub queue_size : ℕ
queue_size = 64

-- `keyboard_report_t`, with its six keycodes.
pub record Report : Type 0 where
  pub modifier : ℕ
  pub keycodes : List ℕ

-- `report_queue`, `report_queue_head` and `report_queue_count`, the last two of type `uint8_t`.
pub record ReportQueue : Type 0 where
  pub queue : List Report
  pub head : ℕ
  pub count : ℕ

abbrev pub released : Report
released = record { modifier = 0; keycodes = replicate 6 0 }

-- The static storage before the first report.
unfoldable pub start : ReportQueue
start = record { queue = replicate queue_size released; head = 0; count = 0 }

-- `keyboard_send_report`.
unfoldable pub keyboard_send_report : ReportQueue → ℕ → List ℕ → ReportQueue
keyboard_send_report q modifier keycodes =
    let q' = if q.count == queue_size then record q { head = 0; count = 0 } else q in
    let tail = (q'.head + q'.count) % queue_size % 256 in
    record q' {
      queue = set q'.queue tail (record { modifier = modifier; keycodes = keycodes });
      count = (q'.count + 1) % 256;
    }

-- `keyboard_press`.
unfoldable pub keyboard_press : ReportQueue → ℕ → ℕ → ReportQueue
unfolding keyboard_send_report
keyboard_press q modifier keycode =
    keyboard_send_report q modifier (keycode ∷ 0 ∷ 0 ∷ 0 ∷ 0 ∷ 0 ∷ [])

-- `keyboard_release`.
unfoldable pub keyboard_release : ReportQueue → ReportQueue
unfolding keyboard_send_report
keyboard_release q = keyboard_send_report q 0 (replicate 6 0)

-- `keyboard_release_all`.
unfoldable pub keyboard_release_all : ReportQueue → ReportQueue
unfolding keyboard_release
keyboard_release_all q = keyboard_release (record q { head = 0; count = 0 })

-- `keyboard_type`, without the wait of 10 ms.
unfoldable pub keyboard_type : ReportQueue → ℕ → ℕ → ReportQueue
unfolding keyboard_press keyboard_release
keyboard_type q modifier keycode = keyboard_release (keyboard_press q modifier keycode)

-- The report that `hid_keyboard_task` hands to TinyUSB, and the queue behind it. `ready` is the
-- answer of `tud_hid_ready` and `accepts` that of `tud_hid_keyboard_report`. The calls around it, of
-- `usb_serial_task` and of the demo where it is built in, are definitions of their own.
unfoldable pub hid_keyboard_task :
    Bool → (Report → Bool) → ReportQueue → ReportQueue × Option Report
hid_keyboard_task ready accepts q =
    if not (q.count == 0) && ready
    then (let report = get_or q.queue q.head released in
        if accepts report
        then (record q { head = (q.head + 1) % queue_size % 256; count = q.count - 1 }, some report)
        else (q, none))
    else (q, none)
