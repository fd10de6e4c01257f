-- ===== src/Web/Request.antt =====
-- web/web_config.c: the text of an HTTP request. A text is the list of its characters up to the zero
-- byte, so reading behind its end reads 0.
pub mod Address
use picow_bt_kb_hid.Base.{
  ℕ, zero, suc, ◌+◌, ◌-◌, ◌*◌, Bool, true, false, not, ◌&&◌, ◌||◌, List, [], ◌∷◌, Option, none,
  some, if◌then◌else◌, ◌==◌, leb, get_or, take, drop,
}
use picow_bt_kb_hid.Base.Bytes.{bytes_eq}
use picow_bt_kb_hid.Base.Text.{codes}
use picow_bt_kb_hid.Bt.Control.{BdAddr, Request, Action}

-- `hex_value`; `none` is -1.
unfoldable pub hex_value : ℕ → Option ℕ
hex_value ch =
    if leb b'0' ch && leb ch b'9'
    then some (ch - b'0')
    else if leb b'a' ch && leb ch b'f'
    then some (ch - b'a' + 10)
    else if leb b'A' ch && leb ch b'F'
    then some (ch - b'A' + 10)
    else none

-- The two digits of a byte, `(high << 4) | low`.
unfoldable pub hex_pair : List ℕ → Option ℕ
hex_pair text = elim (hex_value (get_or text 0 0)) [
  | none ↦ none
  | some high ↦ elim (hex_value (get_or text 1 0)) [
    | none ↦ none
    | some low ↦ some (high * 16 + low)
  ]
]

-- The loop of `parse_address` with `rounds` bytes to read: the bytes and the text behind them.
unfoldable pub parse_pairs : ℕ → List ℕ → Option (List ℕ × List ℕ)
parse_pairs zero text = some ([], text)
parse_pairs (suc rounds) text = elim (hex_pair text) [
  | none ↦ none
  | some b ↦
      let last = rounds == 0 in
      if not last && not (get_or text 2 0 == b':')
      then none
      else elim (parse_pairs rounds (if last then drop 2 text else drop 3 text)) [
        | none ↦ none
        | some (bytes, rest) ↦ some (b ∷ bytes, rest)
      ]
]

-- `parse_address`.
unfoldable pub parse_address : List ℕ → Option BdAddr
parse_address text = elim (parse_pairs 6 text) [
  | none ↦ none
  | some (bytes, rest) ↦
      let end = get_or rest 0 0 in
      if end == b' ' || end == 0 || end == b'&' then some bytes else none
]

-- The white space of `isspace`.
abbrev pub is_space : ℕ → Bool
is_space ch = ch == b' ' || leb 9 ch && leb ch 13

unfoldable pub skip_spaces : List ℕ → List ℕ
skip_spaces [] = []
skip_spaces (ch ∷ text) = let rest = skip_spaces text in if is_space ch then rest else ch ∷ text

-- Up to `width` characters before the next white space, and what is behind them.
unfoldable pub scan_characters : ℕ → List ℕ → List ℕ × List ℕ
scan_characters zero text = ([], text)
scan_characters (suc width) [] = ([], [])
scan_characters (suc width) (ch ∷ text) =
    let (word, rest) = scan_characters width text in
    if is_space ch then ([], ch ∷ text) else (ch ∷ word, rest)

-- The conversion `%<width>s` of `sscanf`; it fails where nothing is left.
unfoldable pub scan_word : ℕ → List ℕ → Option (List ℕ × List ℕ)
scan_word width text = elim (skip_spaces text) [
  | [] ↦ none
  | ch ∷ rest ↦ some (scan_characters width (ch ∷ rest))
]

-- `sscanf(client->request, "%7s %127s", method, target) == 2`: the method and the target.
unfoldable pub scan_request : List ℕ → Option (List ℕ × List ℕ)
scan_request text = elim (scan_word 7 text) [
  | none ↦ none
  | some (method, rest) ↦ elim (scan_word 127 rest) [
    | none ↦ none
    | some (target, _) ↦ some (method, target)
  ]
]

-- The endpoint that connects, up to its address.
abbrev pub connect_prefix : List ℕ
connect_prefix = codes "/api/connect?address="

abbrev pub simple_request : Action → Request
simple_request action = record { action = action; address = 0 ∷ 0 ∷ 0 ∷ 0 ∷ 0 ∷ 0 ∷ [] }

-- The address of the endpoint that connects.
unfoldable pub connect_address : List ℕ → Option BdAddr
connect_address target =
    let address = parse_address (drop 21 target) in
    if bytes_eq (take 21 target) connect_prefix then address else none

-- The tests of the target of a POST; `none` is an unknown endpoint.
unfoldable pub request_of_target : List ℕ → Option Request
request_of_target target =
    let rest =
      if bytes_eq target (codes "/api/disconnect")
      then some (simple_request Action.disconnect)
      else if bytes_eq target (codes "/api/reconnect")
      then some (simple_request Action.reconnect)
      else if bytes_eq target (codes "/api/forget")
      then some (simple_request Action.forget)
      else none in
    if bytes_eq target (codes "/api/scan")
    then some (simple_request Action.scan)
    else elim (connect_address target) [
      | some address ↦ some (record { action = Action.connect; address = address })
      | none ↦ rest
    ]
