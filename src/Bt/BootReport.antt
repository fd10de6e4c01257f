-- ===== src/Bt/BootReport.antt =====
-- bt/hid_boot_report.c and bt/hid_boot_report.h: HIDP boot keyboard reports.
pub mod Validity
pub mod RoundTrip
use picow_bt_kb_hid.Base.{
  ℕ, ◌%◌, ◌+◌, Bool, true, false, not, ◌&&◌, ◌||◌, List, [], ◌∷◌, if◌then◌else◌, ◌==◌, leb, get_or,
  take, drop, bit_and,
}

-- `hid_boot_parse_result_t`.
pub data ParseResult : Type 0 where
  ok unsupported invalid : ParseResult

-- `hid_boot_keyboard_report_t`.
pub record BootKeyboardReport : Type 0 where
  pub report_id : ℕ
  pub modifier : ℕ
  pub keycodes : List ℕ

-- The test `keycode >= 1 && keycode <= 3`.
abbrev pub is_error_usage : ℕ → Bool
is_error_usage keycode = leb 1 keycode && leb keycode 3

-- The loop of `hid_boot_keyboard_report_valid` over the slots left, with its two flags:
-- `contains_error_usage` and `all_same_error_usage`.
unfoldable pub scan_keycodes : ℕ → List ℕ → Bool → Bool → Bool × Bool
scan_keycodes first [] contains same = (contains, same)
scan_keycodes first (keycode ∷ rest) contains same =
    scan_keycodes first rest (if is_error_usage keycode then true else contains)
      (if not (keycode == first) then false else same)

-- `hid_boot_keyboard_report_valid`, on a report of eight bytes.
unfoldable pub hid_boot_keyboard_report_valid : List ℕ → Bool
hid_boot_keyboard_report_valid report =
    if not (get_or report 1 0 == 0)
    then false
    else let first = get_or report 2 0 in
      let (contains, same) =
        scan_keycodes first (take 6 (drop 2 report)) false (is_error_usage first) in
      not contains || same

-- `hid_boot_keyboard_parse_input`. The report that the caller passes in is written in part: the
-- report id also where the report is then found invalid.
unfoldable pub hid_boot_keyboard_parse_input :
    List ℕ → ℕ → BootKeyboardReport → ParseResult × BootKeyboardReport
hid_boot_keyboard_parse_input packet size report =
    if not (size == 9) && not (size == 10)
    then (unsupported, report)
    else if not (get_or packet 0 0 == 0xa1)
    then (unsupported, report)
    else let report_id = if size == 10 then get_or packet 1 0 else 0 in
      let boot_report = if size == 10 then drop 2 packet else drop 1 packet in
      if not (hid_boot_keyboard_report_valid boot_report)
      then (invalid, record report { report_id = report_id })
      else (
        ok,
        record {
          report_id = report_id;
          modifier = get_or boot_report 0 0;
          keycodes = take 6 (drop 2 boot_report);
        },
      )

-- `hid_boot_keyboard_output_packet`: the packet, of the two bytes that the result counts.
unfoldable pub hid_boot_keyboard_output_packet : ℕ → List ℕ
hid_boot_keyboard_output_packet leds = 0xa2 ∷ bit_and leds 0x1f ∷ []
