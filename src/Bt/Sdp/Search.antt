-- ===== src/Bt/Sdp/Search.antt =====
-- bt/sdp_parser.c: walks over nested data elements. A walk goes over `remaining` bytes of a sequence,
-- on fuel: each element takes a byte at least, and each nested one is smaller.
use picow_bt_kb_hid.Base.{
  ℕ, zero, suc, ◌+◌, ◌-◌, Bool, true, false, not, ◌&&◌, ◌||◌, List, Option, none, some,
  if◌then◌else◌, ◌==◌, leb, get_or, drop,
}
use picow_bt_kb_hid.Bt.Sdp.Element.{
  DataElement, de_uint, de_uuid, de_string, de_sequence, read_element, element_uint16,
}

-- The loop of `validate_element_tree`; `validate` is the call on a child.
unfoldable pub validate_children : (List ℕ → ℕ → Bool) → ℕ → List ℕ → ℕ → Bool
validate_children validate zero bytes remaining = remaining == 0
validate_children validate (suc fuel) bytes remaining =
    if remaining == 0 then true else elim (read_element bytes remaining) [
      | none ↦ false
      | some child ↦
          if not (validate bytes child.total_size)
          then false
          else validate_children validate fuel (drop child.total_size bytes)
              (remaining - child.total_size)
    ]

-- `validate_element_tree`; `levels` is 5 less `depth`, so that 0 is a depth over 4.
unfoldable pub validate_element_tree : ℕ → List ℕ → ℕ → Bool
validate_element_tree zero buffer size = false
validate_element_tree (suc levels) buffer size = elim (read_element buffer size) [
  | none ↦ false
  | some root ↦
      if not (root.total_size == size)
      then false
      else if not (root.type == de_sequence)
      then true
      else validate_children (validate_element_tree levels) root.data_size root.payload
          root.data_size
]

-- The tests on an entry of the descriptor list: the kind and the text of the descriptor.
unfoldable pub entry_parts : DataElement → Option (DataElement × DataElement)
entry_parts child =
    if not (child.type == de_sequence)
    then none
    else elim (read_element child.payload child.data_size) [
      | none ↦ none
      | some kind ↦
          if not (kind.type == de_uint)
            || not (kind.data_size == 1)
            || leb child.data_size kind.total_size
          then none
          else elim (read_element (drop kind.total_size child.payload)
              (child.data_size - kind.total_size)) [
                | none ↦ none
                | some value ↦
                    if not (value.type == de_string)
                      || not (kind.total_size + value.total_size == child.data_size)
                    then none
                    else some (kind, value)
              ]
    ]

-- The loop of `find_report_descriptor`. `found` holds `*descriptor` and `*descriptor_size`; the
-- result is `none` for `return false`.
unfoldable pub find_entries : ℕ → List ℕ → ℕ → ℕ → Option (List ℕ × ℕ) → Option (List ℕ × ℕ)
find_entries zero bytes remaining entry_index found = found
find_entries (suc fuel) bytes remaining entry_index found =
    if remaining == 0 then found else elim (read_element bytes remaining) [
      | none ↦ none
      | some child ↦ elim (entry_parts child) [
        | none ↦ none
        | some (kind, value) ↦
            if (entry_index == 0 && not (get_or kind.payload 0 0 == 0x22))
              || (not (entry_index == 0) && get_or kind.payload 0 0 == 0x22)
            then none
            else find_entries fuel (drop child.total_size bytes) (remaining - child.total_size)
                (entry_index + 1)
                (if entry_index == 0 then some (value.payload, value.data_size) else found)
      ]
    ]

-- `find_report_descriptor`: the descriptor, from its first byte on, and its size.
unfoldable pub find_report_descriptor : List ℕ → ℕ → Option (List ℕ × ℕ)
find_report_descriptor buffer size =
    if not (validate_element_tree 5 buffer size) then none else elim (read_element buffer size) [
      | none ↦ none
      | some root ↦
          if not (root.type == de_sequence) || not (root.total_size == size)
          then none
          else find_entries root.data_size root.payload root.data_size 0 none
    ]

-- The test for the L2CAP entry of a protocol descriptor: its UUID, 0x0100, and behind it the PSM.
unfoldable pub l2cap_entry : DataElement → Option ℕ
l2cap_entry child = elim (read_element child.payload child.data_size) [
  | none ↦ none
  | some first ↦ if not (first.type == de_uuid) then none else elim (element_uint16 first) [
    | none ↦ none
    | some uuid ↦
        if not (uuid == 0x0100) || leb child.data_size first.total_size
        then none
        else elim (read_element (drop first.total_size child.payload)
            (child.data_size - first.total_size)) [
              | none ↦ none
              | some second ↦ if not (second.type == de_uint) then none else element_uint16 second
            ]
  ]
]

-- The loop of `find_l2cap_psm`; `find` is the call on a child.
unfoldable pub find_in_children : (List ℕ → ℕ → Option ℕ) → ℕ → List ℕ → ℕ → Option ℕ
find_in_children find zero bytes remaining = none
find_in_children find (suc fuel) bytes remaining =
    if remaining == 0 then none else elim (read_element bytes remaining) [
      | none ↦ none
      | some child ↦
          let later =
            find_in_children find fuel (drop child.total_size bytes)
              (remaining - child.total_size) in
          if not (child.type == de_sequence) then later else elim (l2cap_entry child) [
            | some psm ↦ some psm
            | none ↦ elim (find bytes child.total_size) [ some psm ↦ some psm | none ↦ later ]
          ]
    ]

-- `find_l2cap_psm`, on fuel for the nesting.
unfoldable pub find_l2cap_psm : ℕ → List ℕ → ℕ → Option ℕ
find_l2cap_psm zero buffer size = none
find_l2cap_psm (suc nesting) buffer size = elim (read_element buffer size) [
  | none ↦ none
  | some root ↦
      if not (root.type == de_sequence)
      then none
      else find_in_children (find_l2cap_psm nesting) root.data_size root.payload root.data_size
]
