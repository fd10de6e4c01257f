-- ===== src/Bt/Command.antt =====
-- bt/control_command.c and bt/control_command.h: the text commands of the CDC port. A line is the
-- list of its characters up to the zero byte, so reading behind its end reads 0.
pub mod Address
use picow_bt_kb_hid.Base.{
  ℕ, zero, suc, ◌+◌, ◌-◌, ◌*◌, Bool, not, ◌&&◌, ◌||◌, List, [], ◌∷◌, Option, none, some,
  if◌then◌else◌, ◌==◌, leb, get_or, take, drop, length,
}
use picow_bt_kb_hid.Base.Bytes.{bytes_eq}
use picow_bt_kb_hid.Base.Text.{codes}
use picow_bt_kb_hid.Bt.Control.{BdAddr}

-- `control_command_type_t`, without the two values that a parsed command never has.
pub data Command : Type 0 where
  help status scan disconnect reconnect forget : Command
  connect : BdAddr → Command

-- `tolower` on the letters of ASCII.
abbrev pub to_lower : ℕ → ℕ
to_lower ch = if leb b'A' ch && leb ch b'Z' then ch + 32 else ch

-- `hex_value`; `none` is -1.
unfoldable pub hex_value : ℕ → Option ℕ
hex_value ch =
    if leb b'0' ch && leb ch b'9'
    then some (ch - b'0')
    else if leb b'a' (to_lower ch) && leb (to_lower ch) b'f'
    then some (to_lower ch - b'a' + 10)
    else none

-- Two digits, `(high << 4) | low`.
unfoldable pub hex_byte : List ℕ → Option ℕ
hex_byte text = elim (hex_value (get_or text 0 0)) [
  | none ↦ none
  | some high ↦ elim (hex_value (get_or text 1 0)) [
    | none ↦ none
    | some low ↦ some (high * 16 + low)
  ]
]

-- The loop of `parse_address` with `rounds` bytes to read: the bytes and the text behind them. A
-- colon stands behind each byte but the last.
unfoldable pub parse_bytes : ℕ → List ℕ → Option (List ℕ × List ℕ)
parse_bytes zero text = some ([], text)
parse_bytes (suc rounds) text = elim (hex_byte text) [
  | none ↦ none
  | some b ↦
      let last = rounds == 0 in
      if not last && not (get_or text 2 0 == b':')
      then none
      else elim (parse_bytes rounds (if last then drop 2 text else drop 3 text)) [
        | none ↦ none
        | some (bytes, rest) ↦ some (b ∷ bytes, rest)
      ]
]

-- `parse_address`.
unfoldable pub parse_address : List ℕ → Option BdAddr
parse_address text = elim (parse_bytes 6 text) [
  | none ↦ none
  | some (bytes, rest) ↦ if get_or rest 0 0 == 0 then some bytes else none
]

abbrev pub is_blank : ℕ → Bool
is_blank ch = ch == b' ' || ch == b'\t'

-- The loop over the leading blanks.
unfoldable pub skip_blanks : List ℕ → List ℕ
skip_blanks [] = []
skip_blanks (ch ∷ line) = let rest = skip_blanks line in if is_blank ch then rest else ch ∷ line

-- The loop that lowers `length` over the trailing blanks.
unfoldable pub trim_length : ℕ → List ℕ → ℕ
trim_length zero line = zero
trim_length (suc n) line =
    let shorter = trim_length n line in if is_blank (get_or line n 0) then shorter else suc n

-- `length == n && strncmp(line, word, length) == 0`, for a word of `n` characters.
abbrev pub is_word : List ℕ → ℕ → List ℕ → Bool
is_word line n word = n == length word && bytes_eq (take n line) word

-- The chain of tests on the line without its leading blanks; `none` is `CONTROL_COMMAND_INVALID`.
unfoldable pub parse_word : List ℕ → ℕ → Option Command
parse_word line n =
    if is_word line n (codes "help")
    then some help
    else if is_word line n (codes "status")
    then some status
    else if is_word line n (codes "scan")
    then some scan
    else if is_word line n (codes "disconnect")
    then some disconnect
    else if is_word line n (codes "reconnect")
    then some reconnect
    else if is_word line n (codes "forget")
    then some forget
    else if n == 25 && bytes_eq (take 8 line) (codes "connect ")
    then elim (parse_address (drop 8 line)) [ none ↦ none | some address ↦ some (connect address) ]
    else none

-- `control_command_parse`.
unfoldable pub control_command_parse : List ℕ → Option Command
control_command_parse line =
    let rest = skip_blanks line in parse_word rest (trim_length (length rest) rest)
