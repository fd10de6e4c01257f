-- ===== src/Web/Json/Strings.antt =====
-- A reader of JSON strings, and what it reads of the texts of the strings that web/control_json.c
-- writes.
use picow_bt_kb_hid.Base.{
  ℕ, ◌+◌, ◌-◌, ◌*◌, ◌/◌, ◌%◌, ◌<◌, ◌≡◌, refl, ap, ◌∙◌, false, ◌&&◌, ◌||◌, List, [], ◌∷◌, ◌++◌,
  Option, none, some, if◌then◌else◌, ◌==◌, ltb, leb, Bool-cases, inl, inr, arith,
}
use mathlib.Core.List.{append_assoc}
use picow_bt_kb_hid.Base.Format.{lower_digit, lower_word}
use picow_bt_kb_hid.Web.Json.{escape}
use picow_bt_kb_hid.Base.Text.{c_string}
use picow_bt_kb_hid.Web.Json.Printer.{escapes, render_string}

-- The value of a hexadecimal digit.
unfoldable pub digit_value : ℕ → Option ℕ
digit_value ch =
    if leb b'0' ch && leb ch b'9'
    then some (ch - b'0')
    else if leb b'a' ch && leb ch b'f'
    then some (ch - b'a' + 10)
    else if leb b'A' ch && leb ch b'F'
    then some (ch - b'A' + 10)
    else none

-- The states of the reader: within the string, behind a backslash, and with digits of `\u` to come
-- on the value read so far.
pub data Reading : Type 0 where
  plain backslash : Reading
  unicode : ℕ → ℕ → Reading

-- A character in front of the result.
abbrev also : ℕ → Option (List ℕ × List ℕ) → Option (List ℕ × List ℕ)
also ch none = none
also ch (some (value, rest)) = some (ch ∷ value, rest)

-- The rest of a JSON string and what stands behind its closing quote. Of the escapes, those of a
-- quote, of a backslash and `\u` are read.
unfoldable pub read_string : Reading → List ℕ → Option (List ℕ × List ℕ)
unfolding digit_value
read_string state [] = none
read_string plain (ch ∷ text) =
    let closed = some ([], text) in
    let escaped = read_string backslash text in
    let next = also ch (read_string plain text) in
    if ch == b'"'
    then closed
    else if ch == b'\\'
    then escaped
    else if ltb ch 0x20
    then none
    else next
read_string backslash (ch ∷ text) =
    let quoted = also ch (read_string plain text) in
    let coded = read_string (unicode 3 0) text in
    if ch == b'"' || ch == b'\\' then quoted else if ch == b'u' then coded else none
read_string (unicode left value) (ch ∷ text) = elim (digit_value ch) [
  | none ↦ none
  | some d ↦
      let last = also (value * 16 + d) (read_string plain text) in
      let next = read_string (unicode (left - 1) (value * 16 + d)) text in
      if left == 0 then last else next
]

-- A JSON string at the front of a text.
unfoldable pub read_json : List ℕ → Option (List ℕ × List ℕ)
unfolding read_string
read_json [] = none
read_json (ch ∷ text) = let inside = read_string plain text in if ch == b'"' then inside else none

digit_value-lower_digit : (d : ℕ) → d < 16 → digit_value (lower_digit d) ≡ some d
unfolding digit_value
digit_value-lower_digit d h = ground arith

-- One digit of a code, and the last one.
read_digit :
    (left value d : ℕ) (text : List ℕ)
    → (left == 0) ≡ false
    → d < 16
    → read_string (unicode left value) (lower_digit d ∷ text)
      ≡ read_string (unicode (left - 1) (value * 16 + d)) text
unfolding read_string
read_digit left value d text e h = rw (read_string, digit_value-lower_digit d h, e) refl

read_last :
    (value d : ℕ) (text : List ℕ)
    → d < 16
    → read_string (unicode 0 value) (lower_digit d ∷ text)
      ≡ also (value * 16 + d) (read_string plain text)
unfolding read_string
read_last value d text h = rw (read_string, digit_value-lower_digit d h) refl

read_code :
    (ch : ℕ) (text : List ℕ)
    → ch < 0x20
    → read_string plain (b'\\' ∷ b'u' ∷ lower_word ch ++ text) ≡ also ch (read_string plain text)
unfolding read_string
read_code ch text h =
    read_digit 3 0 0 (lower_digit 0 ∷ lower_digit (ch / 16) ∷ lower_digit (ch % 16) ∷ text) refl
      (omega arith)
    ∙ read_digit 2 0 0 (lower_digit (ch / 16) ∷ lower_digit (ch % 16) ∷ text) refl (omega arith)
    ∙ read_digit 1 0 (ch / 16) (lower_digit (ch % 16) ∷ text) refl (omega arith)
    ∙ read_last (0 * 16 + ch / 16) (ch % 16) text (omega arith)
    ∙ ap (λ c. also c (read_string plain text)) (omega arith)

read_escape :
    (ch : ℕ) (text : List ℕ)
    → read_string plain (escape ch ++ text) ≡ also ch (read_string plain text)
unfolding read_string
read_escape ch text = elim (Bool-cases (ch == b'"' || ch == b'\\')) [
  | inl e ↦ rw (e, read_string, e) refl
  | inr e ↦ elim (Bool-cases (ltb ch 0x20)) [
    | inl low ↦ rw (e, low) (read_code ch text (ground arith))
    | inr high ↦
        let not_quote : (ch == b'"') ≡ false = ground arith in
        let not_backslash : (ch == b'\\') ≡ false = ground arith in
        rw (e, high, read_string, not_quote, not_backslash, high) refl
  ]
]

read_escapes :
    (value rest : List ℕ) → read_string plain (escapes value ++ (b'"' ∷ rest)) ≡ some (value, rest)
unfolding read_string escapes
read_escapes [] rest = refl
read_escapes (ch ∷ value) rest =
    ap (read_string plain) (append_assoc (escape ch) (escapes value) (b'"' ∷ rest))
    ∙ read_escape ch (escapes value ++ (b'"' ∷ rest))
    ∙ ap (also ch) (read_escapes value rest)

pub read_json-render_string :
    (value rest : List ℕ) → read_json (render_string value ++ rest) ≡ some (c_string value, rest)
unfolding read_json render_string
read_json-render_string value rest =
    ap (read_string plain) (append_assoc (escapes (c_string value)) (b'"' ∷ []) rest)
    ∙ read_escapes (c_string value) rest
