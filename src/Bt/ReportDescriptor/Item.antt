-- ===== src/Bt/ReportDescriptor/Item.antt =====
-- bt/hid_report_descriptor.c: what one short item does to the state of the parser. `none` is
-- `return invalid_descriptor()`.
use picow_bt_kb_hid.Base.{
  ℕ, ◌+◌, ◌-◌, ◌/◌, ◌%◌, ◌^◌, Bool, true, false, not, ◌&&◌, ◌||◌, List, [], ◌∷◌, Option, none, some,
  if◌then◌else◌, ◌==◌, ltb, leb, set, get_or, take, length,
}
use picow_bt_kb_hid.Bt.ReportDescriptor.Usage.{
  UsageSet, usage_set_limit, position_limit, empty_usage_set, reset_usage_sets, append_usage,
  append_usages, non_key_position_count, keyboard_usage_count,
}

-- `hid_report_descriptor_info_t`.
pub record Info : Type 0 where
  pub valid : Bool
  pub has_keyboard : Bool
  pub has_consumer_control : Bool
  pub has_nkro_keyboard : Bool
  pub uses_report_ids : Bool

abbrev pub no_info : Info
no_info = record {
  valid = false;
  has_keyboard = false;
  has_consumer_control = false;
  has_nkro_keyboard = false;
  uses_report_ids = false;
}

-- `global_state_t`.
pub record GlobalState : Type 0 where
  pub usage_page : ℕ
  pub report_size : ℕ
  pub report_count : ℕ

-- The variables of `hid_report_descriptor_parse`. The list `stack` is `stack[0..stack_depth)`, the
-- top of the stack first.
pub record Parser : Type 0 where
  pub info : Info
  pub globals : GlobalState
  pub stack : List GlobalState
  pub usage_sets : List UsageSet
  pub usage_set_count : ℕ
  pub current_usage_set : ℕ
  pub usage_minimum_pending : Bool
  pub usage_minimum_page : ℕ
  pub usage_minimum : ℕ
  pub delimiter_open : Bool
  pub collection_depth : ℕ
  pub keyboard_depth : ℕ

-- `HID_GLOBAL_STACK_DEPTH`.
abbrev pub stack_limit : ℕ
stack_limit = 4

-- `scalar_size_valid`.
abbrev pub scalar_size_valid : ℕ → Bool
scalar_size_valid size = size == 1 || size == 2 || size == 4

-- `qualified_usage_page`.
abbrev pub qualified_usage_page : ℕ → ℕ → ℕ → ℕ
qualified_usage_page value size global_page = if size == 4 then value / 2 ^ 16 else global_page

-- The branch for global items.
abbrev pub pop_globals : Parser → List GlobalState → Option Parser
pop_globals p [] = none
pop_globals p (g ∷ rest) = some (record p { globals = g; stack = rest })

unfoldable pub global_item : Parser → ℕ → ℕ → ℕ → Option Parser
global_item p tag data_size value =
    if tag == 0
    then (if not (scalar_size_valid data_size)
        then none
        else some (record p { globals = record (p.globals) { usage_page = value } }))
    else if tag == 7
    then (if not (scalar_size_valid data_size)
        then none
        else some (record p { globals = record (p.globals) { report_size = value } }))
    else if tag == 9
    then (if not (scalar_size_valid data_size)
        then none
        else some (record p { globals = record (p.globals) { report_count = value } }))
    else if tag == 8
    then (if not (data_size == 1) || value == 0
        then none
        else some (record p { info = record (p.info) { uses_report_ids = true } }))
    else if tag == 10
    then (if not (data_size == 0) || length p.stack == stack_limit
        then none
        else some (record p { stack = p.globals ∷ p.stack }))
    else if tag == 11
    then (if not (data_size == 0) then none else pop_globals p p.stack)
    else some p

-- `usage_sets[current_usage_set]` written.
abbrev pub write_set : Parser → (UsageSet → UsageSet) → Parser
write_set p f = record p {
  usage_sets =
      set p.usage_sets p.current_usage_set
        (f (get_or p.usage_sets p.current_usage_set empty_usage_set));
}

-- The branch for the items Usage, Usage Minimum and Usage Maximum.
unfoldable pub usage_item : Parser → ℕ → ℕ → ℕ → Option Parser
usage_item p tag data_size value =
    if not (scalar_size_valid data_size)
    then none
    else let usage_page = qualified_usage_page value data_size p.globals.usage_page in
      let usage = value % 2 ^ 16 in
      if tag == 0
      then some (write_set p (λ s. append_usage s usage_page usage))
      else if tag == 1
      then (if p.usage_minimum_pending
          then none
          else some (record p {
            usage_minimum_pending = true;
            usage_minimum_page = usage_page;
            usage_minimum = usage;
          }))
      else if not p.usage_minimum_pending
          || not (usage_page == p.usage_minimum_page)
          || ltb usage p.usage_minimum
      then none
      else let p' =
          write_set p
            (λ s. append_usages (usage + 1 - p.usage_minimum) s usage_page p.usage_minimum) in
        some (record p' { usage_minimum_pending = false })

-- The branch for the item Delimiter.
unfoldable pub delimiter_item : Parser → ℕ → ℕ → Option Parser
delimiter_item p data_size value =
    if p.usage_minimum_pending
      || not (data_size == 1)
      || (not (value == 0) && not (value == 1))
      || (value == 1 && p.delimiter_open)
      || (value == 0 && not p.delimiter_open)
    then none
    else if value == 1
    then (if p.usage_set_count == usage_set_limit
        then none
        else some (record p {
          current_usage_set = p.usage_set_count;
          usage_set_count = p.usage_set_count + 1;
          delimiter_open = true;
        }))
    else some (record p { current_usage_set = 0; delimiter_open = false })

-- The loop that looks for a usage before a collection.
unfoldable pub any_usage : List UsageSet → Bool
any_usage [] = false
any_usage (s ∷ sets) = s.has_usage || any_usage sets

-- The loop over the usage sets of an application collection, with `keyboard_depth`.
unfoldable pub open_application : List UsageSet → ℕ → Info × ℕ → Info × ℕ
open_application [] depth r = r
open_application (s ∷ sets) depth (info, keyboard_depth) =
    let (info1, keyboard_depth1) =
      if s.first_is_keyboard_application
      then (record info { has_keyboard = true }, depth)
      else (info, keyboard_depth) in
    let info2 =
      if s.first_is_consumer_application
      then record info1 { has_consumer_control = true }
      else info1 in
    open_application sets depth (info2, keyboard_depth1)

-- A Collection item.
unfoldable pub collection_item : Parser → ℕ → ℕ → Option Parser
unfolding any_usage open_application
collection_item p data_size value =
    if not (data_size == 1)
    then none
    else if not (any_usage (take p.usage_set_count p.usage_sets))
    then none
    else let depth = (p.collection_depth + 1) % 2 ^ 32 in
      if value == 1
      then (let (info, keyboard_depth) =
            open_application (take p.usage_set_count p.usage_sets) depth
              (p.info, p.keyboard_depth) in
          some
            (record p { collection_depth = depth; info = info; keyboard_depth = keyboard_depth }))
      else some (record p { collection_depth = depth })

-- An End Collection item.
unfoldable pub end_collection_item : Parser → ℕ → Option Parser
end_collection_item p data_size =
    if not (data_size == 0) || p.collection_depth == 0
    then none
    else some (record p {
      keyboard_depth = if p.keyboard_depth == p.collection_depth then 0 else p.keyboard_depth;
      collection_depth = p.collection_depth - 1;
    })

-- The test for a keyboard that reports each key by a bit.
unfoldable pub is_nkro_input : Parser → ℕ → UsageSet → Bool
is_nkro_input p value s =
    let count = p.globals.report_count in
    let key_count = keyboard_usage_count s count in
    not (p.keyboard_depth == 0)
    && value % 4 == 2
    && p.globals.report_size == 1
    && ltb 8 count
    && leb count position_limit
    && ltb 8 key_count
    && leb count (key_count + non_key_position_count s count)

-- The test for consumer controls.
unfoldable pub is_consumer_input : Parser → ℕ → UsageSet → Bool
is_consumer_input p value s =
    value % 2 == 0
    && s.has_consumer_usage
    && (value / 2 % 2 == 0 || ltb s.first_consumer_position p.globals.report_count)

-- The loop over the usage sets of an Input item.
unfoldable pub input_item : Parser → ℕ → List UsageSet → Info → Info
unfolding is_nkro_input is_consumer_input
input_item p value [] info = info
input_item p value (s ∷ sets) info =
    let info1 =
      if is_nkro_input p value s then record info { has_nkro_keyboard = true } else info in
    let info2 =
      if is_consumer_input p value s then record info1 { has_consumer_control = true } else info1 in
    input_item p value sets info2

-- The branches of a main item by its tag.
unfoldable pub main_effect : Parser → ℕ → ℕ → ℕ → Option Parser
unfolding collection_item end_collection_item input_item
main_effect p tag data_size value =
    if tag == 10
    then collection_item p data_size value
    else if tag == 12
    then end_collection_item p data_size
    else if tag == 8 && scalar_size_valid data_size
    then some (record p { info = input_item p value (take p.usage_set_count p.usage_sets) p.info })
    else some p

-- The branch for main items: its effect, and the usage sets reset.
unfoldable pub main_item : Parser → ℕ → ℕ → ℕ → Option Parser
unfolding main_effect
main_item p tag data_size value =
    if p.delimiter_open || p.usage_minimum_pending
    then none
    else if (tag == 8 || tag == 9 || tag == 11) && not (scalar_size_valid data_size)
    then none
    else elim (main_effect p tag data_size value) [
      | none ↦ none
      | some q ↦
          some
            (record q { usage_sets = reset_usage_sets; usage_set_count = 1; current_usage_set = 0 })
    ]

-- The body of the loop behind the reading of a short item.
unfoldable pub short_item : Parser → ℕ → ℕ → ℕ → ℕ → Option Parser
unfolding global_item usage_item delimiter_item main_item
short_item p type tag data_size value =
    if type == 1
    then global_item p tag data_size value
    else if type == 2 && (tag == 0 || tag == 1 || tag == 2)
    then usage_item p tag data_size value
    else if type == 2 && tag == 10
    then delimiter_item p data_size value
    else if type == 0
    then main_item p tag data_size value
    else some p
