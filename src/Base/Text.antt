-- ===== src/Base/Text.antt =====
-- Texts of the source as lists of character codes.
use picow_bt_kb_hid.Base.Tests.{◌==◌, if◌then◌else◌, if_rule}
use picow_bt_kb_hid.Base.Lists.{
  length, take, replicate, All, length-append, length-replicate, length-take_le, take_all,
}
use Prim.Native.Nat.{ℕ, zero, suc, ◌+◌, ◌-◌, ◌<◌}
use mathlib.Core.Path.{◌≡◌, refl, ap, ◌∙◌}
use mathlib.Core.Bool.{false}
use native.Mathlib.Omega.{arith}
use Prim.Native.Char.{code}
use Prim.Native.String.{String}
use mathlib.Core.List.{List, [], ◌∷◌, ◌++◌}

-- The character codes of a literal, without the zero byte at its end.
abbrev pub codes : String → List ℕ
codes String.[] = []
codes (String.◌∷◌ c s) = code c ∷ codes s

-- The bytes of an array of characters up to its first zero byte, as `strlen` counts them.
unfoldable pub c_string : List ℕ → List ℕ
c_string [] = []
c_string (b ∷ bs) = let rest = c_string bs in if b == 0 then [] else b ∷ rest

-- An array of `size` zero bytes after `strncpy(array, source, size - 1)`.
unfoldable pub strncpy : ℕ → List ℕ → List ℕ
unfolding c_string
strncpy size source =
    let text = take (size - 1) (c_string source) in text ++ replicate (size - length text) 0

-- A zero byte ends the text within the array.
abbrev pub Ends : List ℕ → Type 0
Ends array = length (c_string array) < length array

-- A text without zero bytes.
abbrev pub NoZero : List ℕ → Type 0
NoZero text = All (λ b. 0 < b) text

pub c_string-NoZero : (bs : List ℕ) → NoZero (c_string bs)
unfolding c_string
c_string-NoZero [] = tt
c_string-NoZero (b ∷ bs) =
    if_rule NoZero (b == 0) (λ e. tt) (λ e. (ground arith, c_string-NoZero bs))

take-NoZero : (n : ℕ) (bs : List ℕ) → NoZero bs → NoZero (take n bs)
take-NoZero zero bs h = tt
take-NoZero (suc n) [] h = tt
take-NoZero (suc n) (b ∷ bs) h = (h.0, take-NoZero n bs h.1)

c_string-zeros : (n : ℕ) → c_string (replicate n 0) ≡ []
unfolding c_string
c_string-zeros zero = refl
c_string-zeros (suc n) = refl

-- Only what stands before a zero byte matters.
pub c_string_ended : (text rest : List ℕ) → c_string (text ++ (0 ∷ rest)) ≡ c_string text
unfolding c_string
c_string_ended [] rest = refl
c_string_ended (b ∷ text) rest =
    ap (λ (xs : List ℕ). if b == 0 then [] else b ∷ xs) (c_string_ended text rest)

-- A text without zero bytes, in an array of zeros behind it.
pub c_string-append :
    (text rest : List ℕ) → NoZero text → c_string rest ≡ [] → c_string (text ++ rest) ≡ text
unfolding c_string
c_string-append [] rest h e = e
c_string-append (b ∷ text) rest h e =
    let more : (b == 0) ≡ false = ground (arith, h.0) in
    rw more (ap (λ xs. b ∷ xs) (c_string-append text rest h.1 e))

pub c_string-strncpy :
    (size : ℕ) (source : List ℕ)
    → c_string (strncpy size source) ≡ take (size - 1) (c_string source)
unfolding strncpy
c_string-strncpy size source =
    let text = take (size - 1) (c_string source) in
    c_string-append text (replicate (size - length text) 0)
      (take-NoZero (size - 1) (c_string source) (c_string-NoZero source))
      (c_string-zeros (size - length text))

pub length-strncpy : (size : ℕ) (source : List ℕ) → 0 < size → length (strncpy size source) ≡ size
unfolding strncpy
length-strncpy size source h =
    let text = take (size - 1) (c_string source) in
    length-append text (replicate (size - length text) 0)
    ∙ ap (λ n. length text + n) (length-replicate (size - length text) 0)
    ∙ omega (arith, length-take_le (size - 1) (c_string source))

pub strncpy-Ends : (size : ℕ) (source : List ℕ) → 0 < size → Ends (strncpy size source)
strncpy-Ends size source h =
    rw (c_string-strncpy size source, length-strncpy size source h)
      (omega (arith, length-take_le (size - 1) (c_string source)))

-- A text that is shorter than the array is copied whole.
pub c_string-strncpy_fits :
    (size : ℕ) (source : List ℕ)
    → length (c_string source) < size
    → c_string (strncpy size source) ≡ c_string source
c_string-strncpy_fits size source h =
    c_string-strncpy size source ∙ take_all (size - 1) (c_string source) (omega arith)
