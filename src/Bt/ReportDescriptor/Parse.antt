-- ===== src/Bt/ReportDescriptor/Parse.antt =====
-- bt/hid_report_descriptor.c: the loop over the items of a descriptor.
use picow_bt_kb_hid.Base.{
  ℕ, zero, suc, ◌+◌, ◌*◌, ◌/◌, ◌%◌, true, false, not, ◌||◌, List, [], ◌∷◌, Option, none, some,
  if◌then◌else◌, ◌==◌, ltb, get_or, drop, length,
}
use picow_bt_kb_hid.Bt.ReportDescriptor.Usage.{reset_usage_sets}
use picow_bt_kb_hid.Bt.ReportDescriptor.Item.{Info, no_info, Parser, short_item}

-- `item_value`: the bytes of a little-endian number of `size` bytes.
unfoldable pub item_value : List ℕ → ℕ → ℕ
item_value bytes zero = 0
item_value [] (suc size) = 0
item_value (b ∷ bytes) (suc size) = b + 256 * item_value bytes size

-- The variables at the start.
abbrev pub initial : Parser
initial = record {
  info = no_info;
  globals = record { usage_page = 0; report_size = 0; report_count = 0 };
  stack = [];
  usage_sets = reset_usage_sets;
  usage_set_count = 1;
  current_usage_set = 0;
  usage_minimum_pending = false;
  usage_minimum_page = 0;
  usage_minimum = 0;
  delimiter_open = false;
  collection_depth = 0;
  keyboard_depth = 0;
}

-- How the loop ends.
pub data Outcome : Type 0 where
  finished : Parser → Outcome
  invalid : Outcome
  out_of_fuel : Outcome

-- What one round of the loop does with the bytes that are left: a long item is skipped, a short item
-- read and applied. `none` is an invalid descriptor.
unfoldable pub read_item : Parser → ℕ → List ℕ → Option (Parser × List ℕ)
read_item p prefix rest =
    if prefix == 0xfe
    then (if ltb (length rest) 2
        then none
        else if ltb (length rest) (2 + get_or rest 0 0)
        then none
        else some (p, drop (2 + get_or rest 0 0) rest))
    else let size_code = prefix % 4 in
      let data_size = if size_code == 3 then 4 else size_code in
      if ltb (length rest) data_size
      then none
      else elim (short_item p (prefix / 4 % 4) (prefix / 16) data_size
          (item_value rest data_size)) [ none ↦ none | some q ↦ some (q, drop data_size rest) ]

-- The loop, on the bytes from `offset` on.
unfoldable pub parse_items : ℕ → Parser → List ℕ → Outcome
parse_items fuel p [] = finished p
parse_items zero p (prefix ∷ rest) = out_of_fuel
parse_items (suc fuel) p (prefix ∷ rest) = elim (read_item p prefix rest) [
  | none ↦ invalid
  | some (q, rest') ↦ parse_items fuel q rest'
]

-- The tests behind the loop.
abbrev pub conclude : Outcome → Info
conclude (finished p) =
    if not (p.collection_depth == 0)
      || not (length p.stack == 0)
      || p.delimiter_open
      || p.usage_minimum_pending
    then no_info
    else record (p.info) { valid = true }
conclude invalid = no_info
conclude out_of_fuel = no_info

-- `hid_report_descriptor_parse`. Each round takes a byte at least, so the length is enough fuel.
unfoldable pub hid_report_descriptor_parse : List ℕ → Info
hid_report_descriptor_parse [] = no_info
hid_report_descriptor_parse (b ∷ bytes) =
    conclude (parse_items (length (b ∷ bytes)) initial (b ∷ bytes))
