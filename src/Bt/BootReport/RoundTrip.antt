-- ===== src/Bt/BootReport/RoundTrip.antt =====
-- Reading back what a keyboard sends, as bt/hid_boot_report.c reads it.
use picow_bt_kb_hid.Base.{
  ℕ, ◌≡◌, refl, ◌⊎◌, true, List, [], ◌∷◌, get_or, length, if◌then◌else◌, ◌==◌, arith,
}
use picow_bt_kb_hid.Bt.BootReport.{
  ok, invalid, BootKeyboardReport, hid_boot_keyboard_report_valid, hid_boot_keyboard_parse_input,
}

-- The eight bytes of a boot report.
abbrev pub boot_bytes : BootKeyboardReport → List ℕ
boot_bytes r = r.modifier ∷ 0 ∷ r.keycodes

-- A HIDP input message: with a report id where that is not 0.
abbrev pub input_packet : BootKeyboardReport → List ℕ
input_packet r = if r.report_id == 0 then 0xa1 ∷ boot_bytes r else 0xa1 ∷ r.report_id ∷ boot_bytes r

abbrev report_of : ℕ → ℕ → List ℕ → BootKeyboardReport
report_of id m keys = record { report_id = id; modifier = m; keycodes = keys }

parse_input_six :
    (id m k0 k1 k2 k3 k4 k5 : ℕ) (before : BootKeyboardReport)
    → let r = report_of id m (k0 ∷ k1 ∷ k2 ∷ k3 ∷ k4 ∷ k5 ∷ []) in
      let (result, report) =
        hid_boot_keyboard_parse_input (input_packet r) (length (input_packet r)) before in
      (result ≡ (if hid_boot_keyboard_report_valid (boot_bytes r) then ok else invalid))
      × ((result ≡ ok) → report ≡ r)
unfolding hid_boot_keyboard_parse_input
parse_input_six id m k0 k1 k2 k3 k4 k5 before = ground arith

-- Six keycodes, each by name.
six_items : (xs : List ℕ) → length xs ≡ 6 → (a b c d e f : ℕ) × (xs ≡ a ∷ b ∷ c ∷ d ∷ e ∷ f ∷ [])
six_items (a ∷ b ∷ c ∷ d ∷ e ∷ f ∷ []) h = (a, b, c, d, e, f, refl)
six_items _ h = absurd (omega arith)

-- What the keyboard sends for a report of six keycodes is read back as that report where the report
-- is valid, and refused as invalid where it is not.
pub parse_input-input_packet :
    (r before : BootKeyboardReport)
    → length r.keycodes ≡ 6
    → let (result, report) =
        hid_boot_keyboard_parse_input (input_packet r) (length (input_packet r)) before in
      (result ≡ (if hid_boot_keyboard_report_valid (boot_bytes r) then ok else invalid))
      × ((result ≡ ok) → report ≡ r)
parse_input-input_packet r before h =
    let (a, b, c, d, e, f, eq) = six_items r.keycodes h in
    rw eq (parse_input_six r.report_id r.modifier a b c d e f before)

-- The reserved byte of a valid report is 0.
valid_reserved :
    (report : List ℕ) → hid_boot_keyboard_report_valid report ≡ true → get_or report 1 0 ≡ 0
unfolding hid_boot_keyboard_report_valid
valid_reserved report h = ground arith

-- A packet that is accepted is the header of an input message, perhaps the report id, and the eight
-- bytes of a valid boot report, and those are what is returned.
pub parse_input_ok :
    (packet : List ℕ) (before : BootKeyboardReport)
    → (hid_boot_keyboard_parse_input packet (length packet) before).0 ≡ ok
    → let report = (hid_boot_keyboard_parse_input packet (length packet) before).1 in
      (hid_boot_keyboard_report_valid (boot_bytes report) ≡ true)
      × ((packet ≡ 0xa1 ∷ boot_bytes report)
          ⊎ (packet ≡ 0xa1 ∷ report.report_id ∷ boot_bytes report))
unfolding hid_boot_keyboard_parse_input
parse_input_ok (b0 ∷ b1 ∷ b2 ∷ b3 ∷ b4 ∷ b5 ∷ b6 ∷ b7 ∷ b8 ∷ []) before h =
    ground (arith, valid_reserved (b1 ∷ b2 ∷ b3 ∷ b4 ∷ b5 ∷ b6 ∷ b7 ∷ b8 ∷ []))
parse_input_ok (b0 ∷ b1 ∷ b2 ∷ b3 ∷ b4 ∷ b5 ∷ b6 ∷ b7 ∷ b8 ∷ b9 ∷ []) before h =
    ground (arith, valid_reserved (b2 ∷ b3 ∷ b4 ∷ b5 ∷ b6 ∷ b7 ∷ b8 ∷ b9 ∷ []))
parse_input_ok _ before h = ground arith
