-- ===== src/Bt/Sdp/Within.antt =====
-- bt/sdp_parser.c: where a data element lies.
use picow_bt_kb_hid.Base.{
  ℕ, zero, suc, ◌+◌, ◌-◌, ◌/◌, ◌%◌, ◌^◌, ◌≡◌, ◌≤◌, ◌<◌, ap, false, not, ◌||◌, List, Option, none,
  some, ◌==◌, ltb, leb, get_or, drop, if_rule, arith,
}
use mathlib.Core.Path.{subst}
use picow_bt_kb_hid.Bt.Sdp.Element.{
  DataElement, size_index_valid, element_sizes, make_element, read_element,
}

-- Where an element lies: it takes a byte at least and no more than there are, and its payload is what
-- its header leaves of it.
pub record IsWithin (buffer : List ℕ) (available : ℕ) (e : DataElement) : Type 0 where
  pub takes : 0 < e.total_size
  pub fits : e.total_size ≤ available
  pub inside : e.data_size < e.total_size
  pub behind_header : e.payload ≡ drop (e.total_size - e.data_size) buffer

Within : List ℕ → ℕ → Option DataElement → Type 0
Within buffer available none = Unit
Within buffer available (some e) = IsWithin buffer available e

-- A header has 1 to 5 bytes.
IsHeader : Option (ℕ × ℕ) → Type 0
IsHeader none = Unit
IsHeader (some (header_size, data_size)) = (1 ≤ header_size) × (header_size ≤ 5)

power_small : (n : ℕ) → n ≤ 2 → 2 ^ n ≤ 4
power_small zero h = omega arith
power_small (suc zero) h = omega arith
power_small (suc (suc zero)) h = omega arith
power_small (suc (suc (suc n))) h = omega arith

element_sizes-IsHeader :
    (type size_index : ℕ) (buffer : List ℕ) (available : ℕ)
    → size_index < 8
    → IsHeader (element_sizes type size_index buffer available)
unfolding element_sizes IsHeader
element_sizes-IsHeader type size_index buffer available small =
    let bytes = 2 ^ (size_index - 5) in
    if_rule IsHeader (type == 0) (λ _. (omega arith, omega arith))
      λ _.
        if_rule IsHeader (leb size_index 4) (λ _. (omega arith, omega arith))
          λ _.
            if_rule IsHeader (ltb available (1 + bytes)) (λ _. tt)
              (λ _. (omega arith, omega (arith, power_small (size_index - 5) (omega arith))))

make_element-Within :
    (type size_index : ℕ) (buffer : List ℕ) (available : ℕ) (sizes : Option (ℕ × ℕ))
    → available < 2 ^ 16
    → IsHeader sizes
    → Within buffer available (make_element type size_index buffer available sizes)
unfolding make_element IsHeader Within
make_element-Within type size_index buffer available none small h = tt
make_element-Within type size_index buffer available (some (header, size)) small (low, high) =
    if_rule (Within buffer available) (ltb 0xffff size || ltb available ((header + size) % 2 ^ 32))
      (λ _. tt)
      λ e.
        let fit = fits header size low high e in
        record {
          takes = omega (arith, fit);
          fits = omega (arith, fit);
          inside = omega (arith, fit);
          behind_header = ap (λ n. drop n buffer) (omega (arith, fit));
        }
  where
    fits :
        (h d : ℕ)
        → 1 ≤ h
        → h ≤ 5
        → (ltb 0xffff d || ltb available ((h + d) % 2 ^ 32)) ≡ false
        → h + d ≤ available
    fits h d low high e = ground arith

-- An element that is read from fewer than 2 ^ 16 bytes takes at least one and at most all of them,
-- its payload is shorter than it is, and lies behind its header.
pub read_element-IsWithin :
    (buffer : List ℕ) (available : ℕ) (e : DataElement)
    → available < 2 ^ 16
    → read_element buffer available ≡ some e
    → IsWithin buffer available e
unfolding read_element Within
read_element-IsWithin buffer available e small found = subst (Within buffer available) found (
    if_rule (Within buffer available) (available == 0) (λ _. tt)
      λ _.
        if_rule (Within buffer available)
          (not (size_index_valid (get_or buffer 0 0 / 8) (get_or buffer 0 0 % 8))) (λ _. tt)
          λ _. make_element-Within _ _ buffer available _ small (
            element_sizes-IsHeader (get_or buffer 0 0 / 8) (get_or buffer 0 0 % 8) buffer available
              (omega arith)))
