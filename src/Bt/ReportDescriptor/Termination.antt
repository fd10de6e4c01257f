-- ===== src/Bt/ReportDescriptor/Termination.antt =====
-- bt/hid_report_descriptor.c: the fuel of the loop over the items.
use picow_bt_kb_hid.Base.{
  ℕ, zero, suc, ◌≡◌, ◌≢◌, ◌≤◌, ◌+◌, ◌/◌, ◌%◌, List, [], ◌∷◌, Option, none, some, if◌then◌else◌,
  if_rule, option_rule, ◌==◌, ltb, arith, drop, length, get_or,
}
use mathlib.Core.Path.{subst}
use picow_bt_kb_hid.Bt.ReportDescriptor.Item.{Parser, short_item}
use picow_bt_kb_hid.Bt.ReportDescriptor.Parse.{Outcome, item_value, read_item, parse_items}

length-drop : {A : Type 0} (n : ℕ) (l : List A) → length (drop n l) ≤ length l
length-drop zero l = omega arith
length-drop (suc n) [] = omega arith
length-drop (suc n) (x ∷ l) = omega (arith, length-drop n l)

-- What a round of the loop leaves is no longer than what it is given.
Shorter : List ℕ → Option (Parser × List ℕ) → Type 0
Shorter rest none = Unit
Shorter rest (some (p, left)) = length left ≤ length rest

read_item-Shorter :
    (p : Parser) (prefix : ℕ) (rest : List ℕ) → Shorter rest (read_item p prefix rest)
unfolding read_item Shorter
read_item-Shorter p prefix rest =
    if_rule (Shorter rest) (prefix == 0xfe)
      (λ _.
        if_rule (Shorter rest) (ltb (length rest) 2) (λ _. tt)
          λ _.
            if_rule (Shorter rest) (ltb (length rest) (2 + get_or rest 0 0)) (λ _. tt)
              (λ _. length-drop (2 + get_or rest 0 0) rest))
      λ _.
        let size = if prefix % 4 == 3 then 4 else prefix % 4 in
        if_rule (Shorter rest) (ltb (length rest) size) (λ _. tt)
          λ _.
            option_rule (Shorter rest)
              (short_item p (prefix / 4 % 4) (prefix / 16) size (item_value rest size)) (λ _. tt)
              (λ q _. length-drop size rest)

-- Each round of the loop takes a byte, so the parser ends within as many rounds as there are bytes.
pub parse_items-ends :
    (fuel : ℕ) (p : Parser) (bytes : List ℕ)
    → length bytes ≤ fuel
    → parse_items fuel p bytes ≢ Outcome.out_of_fuel
unfolding parse_items Shorter
parse_items-ends fuel p [] enough = λ e. cc
parse_items-ends zero p (prefix ∷ rest) enough = ground arith
parse_items-ends (suc fuel) p (prefix ∷ rest) enough =
    option_rule (λ (o : Outcome). o ≢ Outcome.out_of_fuel) (read_item p prefix rest) (λ _. λ e. cc)
      λ r e. parse_items-ends fuel r.0 r.1 (omega (arith, shorter r e))
  where
    shorter : (r : Parser × List ℕ) → read_item p prefix rest ≡ some r → length r.1 ≤ length rest
    shorter r e = subst (Shorter rest) e (read_item-Shorter p prefix rest)
