-- ===== src/Base/Format.antt =====
-- What the conversions of `printf` print: `%d`, `%u`, `%02X` and `%04x`, on the values that the
-- source gives them.
use picow_bt_kb_hid.Base.Tests.{◌==◌, ltb, if◌then◌else◌}
use Prim.Native.Nat.{ℕ, zero, suc, ◌+◌, ◌-◌, ◌/◌, ◌%◌}
use mathlib.Core.List.{List, [], ◌∷◌}

abbrev pub lower_digit : ℕ → ℕ
lower_digit d = if ltb d 10 then 48 + d else 87 + d

abbrev pub upper_digit : ℕ → ℕ
upper_digit d = if ltb d 10 then 48 + d else 55 + d

-- `%02X` of a byte.
abbrev pub upper_byte : ℕ → List ℕ
upper_byte b = upper_digit (b / 16) ∷ upper_digit (b % 16) ∷ []

-- `%04x` of a byte.
abbrev pub lower_word : ℕ → List ℕ
lower_word b = b'0' ∷ b'0' ∷ lower_digit (b / 16) ∷ lower_digit (b % 16) ∷ []

-- The last digits of a number, at most `places`, in front of a text.
unfoldable pub digits : ℕ → ℕ → List ℕ → List ℕ
digits zero n rest = rest
digits (suc places) n rest =
    let text = (48 + n % 10) ∷ rest in
    let more = digits places (n / 10) text in if n / 10 == 0 then text else more

-- `%u` of a number of 32 bits.
unfoldable pub decimal : ℕ → List ℕ
unfolding digits
decimal n = digits 10 n []

-- `%d` of an `int8_t` with the bit pattern `b`.
unfoldable pub decimal_int8 : ℕ → List ℕ
unfolding decimal
decimal_int8 b = if ltb b 128 then decimal b else b'-' ∷ decimal (256 - b)
