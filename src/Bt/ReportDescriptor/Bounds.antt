-- ===== src/Bt/ReportDescriptor/Bounds.antt =====
-- bt/hid_report_descriptor.c: the parser's indices and its arrays.
use picow_bt_kb_hid.Base.{
  ℕ, zero, suc, ◌≡◌, refl, ◌≤◌, ◌<◌, ◌+◌, ◌/◌, ◌%◌, ◌^◌, not, ◌&&◌, ◌||◌, List, [], ◌∷◌, ◌∙◌,
  Option, none, some, if◌then◌else◌, if_rule, option_rule, ◌==◌, ltb, arith, take, length,
  length-set, get_or,
}
use mathlib.Core.Path.{subst}
use picow_bt_kb_hid.Bt.ReportDescriptor.Usage.{UsageSet, append_usage}
use picow_bt_kb_hid.Bt.ReportDescriptor.Item.{
  Parser, scalar_size_valid, qualified_usage_page, global_item, usage_item, delimiter_item,
  any_usage, open_application, collection_item, end_collection_item, main_effect, main_item,
  short_item, write_set,
}
use picow_bt_kb_hid.Bt.ReportDescriptor.Parse.{initial, Outcome, item_value, read_item, parse_items}

-- The indices of the parser within its arrays: at most 4 saved global states, and the current set of
-- usages among those in use, of which there are at most 4.
pub record IsValid (p : Parser) : Type 0 where
  pub stack_fits : length p.stack ≤ 4
  pub sets : length p.usage_sets ≡ 4
  pub used : p.usage_set_count ≤ 4
  pub current : p.current_usage_set < p.usage_set_count

-- Of the parser that an item leaves, if it is no error.
abbrev pub Stays : Option Parser → Type 0
Stays none = Unit
Stays (some q) = IsValid q

global_item-Stays :
    (p : Parser) (tag size value : ℕ) → IsValid p → Stays (global_item p tag size value)
unfolding global_item
global_item-Stays p tag size value v = ground arith

write_set-IsValid : (p : Parser) (f : UsageSet → UsageSet) → IsValid p → IsValid (write_set p f)
write_set-IsValid p f v = record {
  stack_fits = v.stack_fits;
  sets = length-set p.usage_sets p.current_usage_set _ ∙ v.sets;
  used = v.used;
  current = v.current;
}

usage_item-Stays :
    (p : Parser) (tag size value : ℕ) → IsValid p → Stays (usage_item p tag size value)
unfolding usage_item
usage_item-Stays p tag size value v =
    let usage_page = qualified_usage_page value size p.globals.usage_page in
    let usage = value % 2 ^ 16 in
    if_rule Stays (not (scalar_size_valid size)) (λ _. tt)
      λ _.
        if_rule Stays (tag == 0) (λ _. write_set-IsValid p (λ s. append_usage s usage_page usage) v)
          λ _.
            if_rule Stays (tag == 1)
              (λ _.
                if_rule Stays p.usage_minimum_pending (λ _. tt)
                  (λ _. record {
                    stack_fits = v.stack_fits;
                    sets = v.sets;
                    used = v.used;
                    current = v.current;
                  }))
              λ _.
                if_rule Stays
                  (not p.usage_minimum_pending
                    || not (usage_page == p.usage_minimum_page)
                    || ltb usage p.usage_minimum)
                  (λ _. tt)
                  (λ _. record {
                    stack_fits = v.stack_fits;
                    sets = length-set p.usage_sets p.current_usage_set _ ∙ v.sets;
                    used = v.used;
                    current = v.current;
                  })

delimiter_item-Stays :
    (p : Parser) (size value : ℕ) → IsValid p → Stays (delimiter_item p size value)
unfolding delimiter_item
delimiter_item-Stays p size value v = ground arith

end_collection_item-Stays : (p : Parser) (size : ℕ) → IsValid p → Stays (end_collection_item p size)
unfolding end_collection_item
end_collection_item-Stays p size v = ground arith

-- Of what a collection does: the arrays are untouched, so is their use.
collection_item-Stays :
    (p : Parser) (size value : ℕ) → IsValid p → Stays (collection_item p size value)
unfolding collection_item any_usage open_application
collection_item-Stays p size value v =
    if_rule Stays (not (size == 1)) (λ _. tt)
      λ _.
        if_rule Stays (not (any_usage (take p.usage_set_count p.usage_sets))) (λ _. tt)
          λ _.
            if_rule Stays (value == 1)
              (λ _. record {
                stack_fits = v.stack_fits;
                sets = v.sets;
                used = v.used;
                current = v.current;
              })
              (λ _. record {
                stack_fits = v.stack_fits;
                sets = v.sets;
                used = v.used;
                current = v.current;
              })

main_effect-Stays :
    (p : Parser) (tag size value : ℕ) → IsValid p → Stays (main_effect p tag size value)
unfolding main_effect
main_effect-Stays p tag size value v =
    if_rule Stays (tag == 10) (λ _. collection_item-Stays p size value v)
      λ _.
        if_rule Stays (tag == 12) (λ _. end_collection_item-Stays p size v)
          λ _.
            if_rule Stays (tag == 8 && scalar_size_valid size)
              (λ _. record {
                stack_fits = v.stack_fits;
                sets = v.sets;
                used = v.used;
                current = v.current;
              })
              (λ _. v)

main_item-Stays : (p : Parser) (tag size value : ℕ) → IsValid p → Stays (main_item p tag size value)
unfolding main_item
main_item-Stays p tag size value v =
    if_rule Stays (p.delimiter_open || p.usage_minimum_pending) (λ _. tt)
      λ _.
        if_rule Stays ((tag == 8 || tag == 9 || tag == 11) && not (scalar_size_valid size))
          (λ _. tt)
          λ _.
            option_rule Stays (main_effect p tag size value) (λ _. tt)
              λ q e.
                let w : IsValid q = subst Stays e (main_effect-Stays p tag size value v) in
                record {
                  stack_fits = w.stack_fits;
                  sets = refl;
                  used = omega arith;
                  current = omega arith;
                }

-- A short item, whatever its type, tag and value, is an error or leaves the indices in their arrays.
pub short_item-Stays :
    (p : Parser) (type tag size value : ℕ) → IsValid p → Stays (short_item p type tag size value)
unfolding short_item
short_item-Stays p type tag size value v =
    if_rule Stays (type == 1) (λ _. global_item-Stays p tag size value v)
      λ _.
        if_rule Stays (type == 2 && (tag == 0 || tag == 1 || tag == 2))
          (λ _. usage_item-Stays p tag size value v)
          λ _.
            if_rule Stays (type == 2 && tag == 10) (λ _. delimiter_item-Stays p size value v)
              λ _. if_rule Stays (type == 0) (λ _. main_item-Stays p tag size value v) (λ _. v)

read_item-Stays :
    (p : Parser) (prefix : ℕ) (rest : List ℕ) (r : Parser × List ℕ)
    → IsValid p
    → read_item p prefix rest ≡ some r
    → IsValid r.0
unfolding read_item
read_item-Stays p prefix rest r v e = reads r e
  where
    Leaves : Option (Parser × List ℕ) → Type 0
    Leaves o = (r : Parser × List ℕ) → o ≡ some r → IsValid r.0

    Valid : Option (Parser × List ℕ) → Type 0
    Valid none = Unit
    Valid (some (p, left)) = IsValid p

    reads : Leaves (read_item p prefix rest)
    reads =
        let size = if prefix % 4 == 3 then 4 else prefix % 4 in
        let item = short_item p (prefix / 4 % 4) (prefix / 16) size (item_value rest size) in
        if_rule Leaves (prefix == 0xfe)
          (λ _.
            if_rule Leaves (ltb (length rest) 2) (λ _. λ r e. cc)
              λ _.
                if_rule Leaves (ltb (length rest) (2 + get_or rest 0 0)) (λ _. λ r e. cc)
                  (λ _. λ r e. subst Valid e v))
          λ _.
            if_rule Leaves (ltb (length rest) size) (λ _. λ r e. cc)
              λ _.
                option_rule Leaves item (λ _. λ r e. cc)
                  (λ q f. λ r e. subst Valid e (
                    subst Stays f (
                      short_item-Stays p (prefix / 4 % 4) (prefix / 16) size (item_value rest size)
                        v)))

-- From a parser whose indices lie within its arrays, the loop over any bytes, where it finishes,
-- ends in such a parser: at most 4 global states are saved, and the current set of usages is one of
-- those in use, of which there are at most 4.
pub parse_items-IsValid :
    (fuel : ℕ) (p : Parser) (bytes : List ℕ) (q : Parser)
    → IsValid p
    → parse_items fuel p bytes ≡ Outcome.finished q
    → IsValid q
unfolding parse_items
parse_items-IsValid fuel p [] q v e = subst At e v
  where
    At : Outcome → Type 0
    At (Outcome.finished p) = IsValid p
    At _ = Unit
parse_items-IsValid zero p (prefix ∷ rest) q v e = cc
parse_items-IsValid (suc fuel) p (prefix ∷ rest) q v e =
    option_rule (λ (o : Outcome). o ≡ Outcome.finished q → IsValid q) (read_item p prefix rest)
      (λ _. λ e. cc)
      (λ r f. λ e. parse_items-IsValid fuel r.0 r.1 q (read_item-Stays p prefix rest r v f) e) e

pub initial-IsValid : IsValid initial
initial-IsValid = record {
  stack_fits = omega arith;
  sets = refl;
  used = omega arith;
  current = omega arith;
}
