-- ===== src/Bt/ReportDescriptor/Usage.antt =====
-- bt/hid_report_descriptor.c: the usages that local items collect for the next main item.
use picow_bt_kb_hid.Base.{
  ℕ, zero, suc, ◌+◌, ◌/◌, ◌%◌, ◌^◌, Bool, true, false, not, ◌&&◌, List, [], ◌∷◌, if◌then◌else◌,
  ◌==◌, ltb, leb, set, get_or, replicate, bit_and, bit_or,
}

-- `local_usage_set_t`: 256 positions of 16 bits, and 32 bytes of flags.
pub record UsageSet : Type 0 where
  pub keyboard_positions : List ℕ
  pub non_key_positions : List ℕ
  pub position : ℕ
  pub first_consumer_position : ℕ
  pub has_consumer_usage : Bool
  pub has_usage : Bool
  pub first_is_keyboard_application : Bool
  pub first_is_consumer_application : Bool

-- `HID_LOCAL_USAGE_SET_COUNT` and `HID_USAGE_POSITION_LIMIT`.
abbrev pub usage_set_limit : ℕ
usage_set_limit = 4

abbrev pub position_limit : ℕ
position_limit = 256

-- A usage set as `reset_usage_sets` leaves it.
abbrev pub empty_usage_set : UsageSet
empty_usage_set = record {
  keyboard_positions = replicate 256 0xffff;
  non_key_positions = replicate 32 0;
  position = 0;
  first_consumer_position = 0;
  has_consumer_usage = false;
  has_usage = false;
  first_is_keyboard_application = false;
  first_is_consumer_application = false;
}

-- `reset_usage_sets`.
abbrev pub reset_usage_sets : List UsageSet
reset_usage_sets = replicate usage_set_limit empty_usage_set

-- The first `if` of `append_usage`: the first usage of the set names an application collection.
abbrev pub note_first : UsageSet → ℕ → ℕ → UsageSet
note_first s page usage =
    if not s.has_usage
    then record s {
      has_usage = true;
      first_is_keyboard_application = page == 0x01 && usage == 0x06;
      first_is_consumer_application = page == 0x0c && usage == 0x01;
    }
    else s

-- The second `if`: the first consumer usage.
abbrev pub note_consumer : UsageSet → ℕ → ℕ → UsageSet
note_consumer s page usage =
    if page == 0x0c && not (usage == 0) && not s.has_consumer_usage
    then record s { has_consumer_usage = true; first_consumer_position = s.position }
    else s

-- The third: where a keyboard usage stands first, and where a usage below 4, which is no key, stands.
abbrev pub note_keyboard : UsageSet → ℕ → ℕ → UsageSet
note_keyboard s page usage =
    if page == 0x07 && ltb usage 4 && ltb s.position position_limit
    then record s {
      non_key_positions =
          set s.non_key_positions (s.position / 8)
            (bit_or (get_or s.non_key_positions (s.position / 8) 0) (2 ^ (s.position % 8)));
    }
    else if page == 0x07 && leb usage 255 && ltb s.position position_limit
    then (if get_or s.keyboard_positions usage 0 == 0xffff
        then record s { keyboard_positions = set s.keyboard_positions usage s.position }
        else s)
    else s

-- `append_usage`.
unfoldable pub append_usage : UsageSet → ℕ → ℕ → UsageSet
append_usage s page usage =
    let s' = note_keyboard (note_consumer (note_first s page usage) page usage) page usage in
    if not (s'.position == 0xffff_ffff) then record s' { position = s'.position + 1 } else s'

-- The loop that appends `rounds` usages from `item` on.
unfoldable pub append_usages : ℕ → UsageSet → ℕ → ℕ → UsageSet
append_usages zero s page item = s
append_usages (suc rounds) s page item =
    append_usages rounds (append_usage s page item) page (item + 1)

-- The loop of `non_key_position_count`, with `rounds` positions left from `position` on.
unfoldable pub count_non_keys : ℕ → UsageSet → ℕ → ℕ
count_non_keys zero s position = 0
count_non_keys (suc rounds) s position =
    (if bit_and (get_or s.non_key_positions (position / 8) 0) (2 ^ (position % 8)) == 0
      then 0
      else 1)
    + count_non_keys rounds s (position + 1)

-- `non_key_position_count`.
unfoldable pub non_key_position_count : UsageSet → ℕ → ℕ
unfolding count_non_keys
non_key_position_count s report_count = count_non_keys report_count s 0

-- The loop of `keyboard_usage_count`.
unfoldable pub count_below : List ℕ → ℕ → ℕ
count_below [] report_count = 0
count_below (p ∷ positions) report_count =
    (if ltb p report_count then 1 else 0) + count_below positions report_count

-- `keyboard_usage_count`.
unfoldable pub keyboard_usage_count : UsageSet → ℕ → ℕ
unfolding count_below
keyboard_usage_count s report_count = count_below s.keyboard_positions report_count
