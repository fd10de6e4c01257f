-- ===== src/Bt/Sdp/Element.antt =====
-- bt/sdp_parser.c: data elements. A pointer into the buffer is the list of the bytes from there on.
use picow_bt_kb_hid.Base.{
  ℕ, zero, suc, ◌+◌, ◌-◌, ◌*◌, ◌/◌, ◌%◌, ◌^◌, Bool, false, not, ◌&&◌, ◌||◌, List, Option, none,
  some, if◌then◌else◌, ◌==◌, ltb, leb, get_or, drop,
}

-- `DE_TYPE_UINT` and the others.
abbrev pub de_uint : ℕ
de_uint = 1

abbrev pub de_uuid : ℕ
de_uuid = 3

abbrev pub de_string : ℕ
de_string = 4

abbrev pub de_sequence : ℕ
de_sequence = 6

-- `DataElement`; `payload` is the field `data`.
pub record DataElement : Type 0 where
  pub type : ℕ
  pub size_index : ℕ
  pub payload : List ℕ
  pub data_size : ℕ
  pub total_size : ℕ

-- `size_index_valid`.
unfoldable pub size_index_valid : ℕ → ℕ → Bool
size_index_valid type size_index =
    if type == 0
    then size_index == 0
    else if type == 1 || type == 2
    then leb size_index 4
    else if type == 3
    then size_index == 1 || size_index == 2 || size_index == 4
    else if type == 4 || type == 6 || type == 7 || type == 8
    then leb 5 size_index
    else if type == 5
    then size_index == 0
    else false

-- The loop that reads a big-endian length of `rounds` bytes.
unfoldable pub read_length : ℕ → List ℕ → ℕ → ℕ
read_length zero bytes acc = acc
read_length (suc rounds) bytes acc =
    read_length rounds (drop 1 bytes) ((acc * 256 + get_or bytes 0 0) % 2 ^ 32)

-- `header_size` and `data_size` of `read_element`; `none` is its early `return false`.
unfoldable pub element_sizes : ℕ → ℕ → List ℕ → ℕ → Option (ℕ × ℕ)
element_sizes type size_index buffer available =
    if type == 0
    then some (1, 0)
    else if leb size_index 4
    then some (1, 2 ^ size_index)
    else let length_bytes = 2 ^ (size_index - 5) in
      if ltb available (1 + length_bytes)
      then none
      else some (1 + length_bytes, read_length length_bytes (drop 1 buffer) 0)

-- The end of `read_element`.
unfoldable pub make_element : ℕ → ℕ → List ℕ → ℕ → Option (ℕ × ℕ) → Option DataElement
make_element type size_index buffer available none = none
make_element type size_index buffer available (some (header_size, data_size)) =
    if ltb 0xffff data_size || ltb available ((header_size + data_size) % 2 ^ 32)
    then none
    else some (record {
      type = type;
      size_index = size_index;
      payload = drop header_size buffer;
      data_size = data_size % 2 ^ 16;
      total_size = (header_size + data_size) % 2 ^ 16;
    })

-- `read_element`.
unfoldable pub read_element : List ℕ → ℕ → Option DataElement
unfolding make_element element_sizes
read_element buffer available =
    if available == 0
    then none
    else let type = get_or buffer 0 0 / 8 in
      let size_index = get_or buffer 0 0 % 8 in
      if not (size_index_valid type size_index)
      then none
      else make_element type size_index buffer available
          (element_sizes type size_index buffer available)

-- `element_uint16`.
unfoldable pub element_uint16 : DataElement → Option ℕ
element_uint16 e =
    if not (e.data_size == 2) || (not (e.type == de_uint) && not (e.type == de_uuid))
    then none
    else some (get_or e.payload 0 0 * 256 + get_or e.payload 1 0)
