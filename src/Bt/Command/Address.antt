-- ===== src/Bt/Command/Address.antt =====
-- bt/control_command.c: the command that names an address. In upper case the address is as the
-- firmware prints it (`%02X` in `append_address` of web/control_json.c); users may type lower case.
use picow_bt_kb_hid.Base.{
  Bool, ap, ◌==◌, ℕ, suc, ◌/◌, ◌%◌, ◌<◌, ◌≡◌, refl, false, List, [], ◌∷◌, ◌++◌, none, some,
  if◌then◌else◌, arith,
}
use picow_bt_kb_hid.Base.Bytes.{bytes_eq}
use picow_bt_kb_hid.Base.Text.{codes}
use picow_bt_kb_hid.Base.Format.{upper_digit, lower_digit}
use picow_bt_kb_hid.Bt.Command.{
  Command, hex_value, hex_byte, parse_bytes, parse_address, skip_blanks, trim_length, is_blank,
  parse_word, control_command_parse,
}

-- A hexadecimal digit, in upper or in lower case.
abbrev pub hex_digit : Bool → ℕ → ℕ
hex_digit upper d = if upper then upper_digit d else lower_digit d

-- The text of a byte, with what follows it.
abbrev pub print_byte : Bool → ℕ → List ℕ → List ℕ
print_byte upper b rest = hex_digit upper (b / 16) ∷ hex_digit upper (b % 16) ∷ rest

-- `XX:XX:XX:XX:XX:XX`.
abbrev pub print_address : Bool → ℕ → ℕ → ℕ → ℕ → ℕ → ℕ → List ℕ
print_address upper a b c d e f = print_byte upper a (
    b':'
    ∷ print_byte upper b (
        b':'
        ∷ print_byte upper c
            (b':' ∷ print_byte upper d (b':' ∷ print_byte upper e (b':' ∷ print_byte upper f [])))))

hex_value-hex_digit : (upper : Bool) (d : ℕ) → d < 16 → hex_value (hex_digit upper d) ≡ some d
unfolding hex_value
hex_value-hex_digit upper d h = ground arith

hex_byte-print_byte :
    (upper : Bool) (b : ℕ) (rest : List ℕ) → b < 256 → hex_byte (print_byte upper b rest) ≡ some b
unfolding hex_byte
hex_byte-print_byte upper b rest h =
    rw
      (
        hex_byte,
        hex_value-hex_digit upper (b / 16) (omega arith),
        hex_value-hex_digit upper (b % 16) (omega arith),
      )
      (ap (λ (n : ℕ). some n) (omega arith))

not_blank : (upper : Bool) (d : ℕ) → is_blank (hex_digit upper d) ≡ false
not_blank upper d = ground arith

trim_length-print :
    (upper : Bool) (a b c d e f : ℕ)
    → trim_length 25 (codes "connect " ++ print_address upper a b c d e f) ≡ 25
unfolding trim_length
trim_length-print upper a b c d e f = rw (not_blank upper (f % 16)) refl

-- A byte that is followed by another one, and the last byte.
bytes_step :
    (upper : Bool) (m b : ℕ) (rest : List ℕ)
    → (m == 0) ≡ false
    → b < 256
    → parse_bytes (suc m) (print_byte upper b (b':' ∷ rest))
      ≡ (elim (parse_bytes m rest) [ none ↦ none | some (bytes, text) ↦ some (b ∷ bytes, text) ])
unfolding parse_bytes
bytes_step upper m b rest more h =
    rw (parse_bytes, hex_byte-print_byte upper b (b':' ∷ rest) h, more) refl

bytes_end :
    (upper : Bool) (b : ℕ) → b < 256 → parse_bytes 1 (print_byte upper b []) ≡ some (b ∷ [], [])
unfolding parse_bytes
bytes_end upper b h = rw (parse_bytes, hex_byte-print_byte upper b [] h) refl

parse_address-print_address :
    (upper : Bool) (a b c d e f : ℕ)
    → a < 256
    → b < 256
    → c < 256
    → d < 256
    → e < 256
    → f < 256
    → parse_address (print_address upper a b c d e f) ≡ some (a ∷ b ∷ c ∷ d ∷ e ∷ f ∷ [])
unfolding parse_address
parse_address-print_address upper a b c d e f ha hb hc hd he hf =
    rw
      (
        parse_address,
        bytes_step upper 5 a _ refl ha,
        bytes_step upper 4 b _ refl hb,
        bytes_step upper 3 c _ refl hc,
        bytes_step upper 2 d _ refl hd,
        bytes_step upper 1 e _ refl he,
        bytes_end upper f hf,
      )
      refl

-- The command `connect` with an address, as six bytes are printed in upper case or in lower case, is
-- read as the command to connect to that address.
pub control_command_parse-print_address :
    (upper : Bool) (a b c d e f : ℕ)
    → a < 256
    → b < 256
    → c < 256
    → d < 256
    → e < 256
    → f < 256
    → control_command_parse (codes "connect " ++ print_address upper a b c d e f)
      ≡ some (Command.connect (a ∷ b ∷ c ∷ d ∷ e ∷ f ∷ []))
unfolding control_command_parse skip_blanks parse_word bytes_eq
control_command_parse-print_address upper a b c d e f ha hb hc hd he hf =
    rw
      (
        control_command_parse,
        trim_length-print upper a b c d e f,
        parse_word,
        parse_address-print_address upper a b c d e f ha hb hc hd he hf,
      )
      refl
