-- ===== src/Bt/ReportDescriptor/Tests.antt =====
-- The report descriptor parser on a concrete descriptor, and its theorems there.
use picow_bt_kb_hid.Base.{ℕ, ◌≡◌, ◌≢◌, refl, true, false, List, [], ◌∷◌, arith}
use picow_bt_kb_hid.Bt.ReportDescriptor.Usage.{append_usage}
use picow_bt_kb_hid.Bt.ReportDescriptor.Item.{short_item}
use picow_bt_kb_hid.Bt.ReportDescriptor.Parse.{
  initial, Outcome, item_value, read_item, parse_items, hid_report_descriptor_parse,
}
use picow_bt_kb_hid.Bt.ReportDescriptor.Bounds.{IsValid, initial-IsValid, parse_items-IsValid}
use picow_bt_kb_hid.Bt.ReportDescriptor.Termination.{parse_items-ends}

-- A keyboard that saves and restores the global items: Usage Page (Generic Desktop), Usage
-- (Keyboard), Collection (Application), Push, Pop, End Collection.
abbrev keyboard : List ℕ
keyboard = 0x05 ∷ 0x01 ∷ 0x09 ∷ 0x06 ∷ 0xa1 ∷ 0x01 ∷ 0xa4 ∷ 0xb4 ∷ 0xc0 ∷ []

keyboard_is_found : hid_report_descriptor_parse keyboard ≡ record {
  valid = true;
  has_keyboard = true;
  has_consumer_control = false;
  has_nkro_keyboard = false;
  uses_report_ids = false;
}
unfolding hid_report_descriptor_parse parse_items read_item short_item append_usage item_value
keyboard_is_found = refl

parse_items-ends_example : parse_items 9 initial keyboard ≢ Outcome.out_of_fuel
parse_items-ends_example = parse_items-ends 9 initial keyboard (omega arith)

-- Only the first two items, which a parser goes through.
abbrev beginning : List ℕ
beginning = 0x05 ∷ 0x01 ∷ 0xa4 ∷ []

parse_items-IsValid_example : IsValid (record initial {
  globals = record { usage_page = 1; report_size = 0; report_count = 0 };
  stack = record { usage_page = 1; report_size = 0; report_count = 0 } ∷ [];
})
unfolding parse_items read_item short_item item_value
parse_items-IsValid_example =
    parse_items-IsValid 3 initial beginning
      (record initial {
        globals = record { usage_page = 1; report_size = 0; report_count = 0 };
        stack = record { usage_page = 1; report_size = 0; report_count = 0 } ∷ [];
      })
      initial-IsValid refl
