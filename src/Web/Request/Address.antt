-- ===== src/Web/Request/Address.antt =====
-- web/web_config.c: the request that the web page sends for an address that the status shows.
use picow_bt_kb_hid.Base.{
  ℕ, zero, suc, ◌/◌, ◌%◌, ◌<◌, ◌≡◌, refl, ap, Bool, false, ◌||◌, List, [], ◌∷◌, ◌++◌, none, some,
  ◌==◌, length, arith,
}
use picow_bt_kb_hid.Base.Bytes.{bytes_eq}
use picow_bt_kb_hid.Base.Text.{codes}
use picow_bt_kb_hid.Base.Format.{upper_digit, upper_byte}
use picow_bt_kb_hid.Bt.Control.{Action}
use picow_bt_kb_hid.Web.Json.{address_text}
use picow_bt_kb_hid.Web.Request.{
  hex_value, hex_pair, parse_pairs, parse_address, is_space, skip_spaces, scan_characters,
  scan_word, scan_request, connect_prefix, connect_address, request_of_target,
}

hex_value-upper_digit : (d : ℕ) → d < 16 → hex_value (upper_digit d) ≡ some d
unfolding hex_value
hex_value-upper_digit d h = ground arith

hex_pair-upper_byte : (b : ℕ) (rest : List ℕ) → b < 256 → hex_pair (upper_byte b ++ rest) ≡ some b
unfolding hex_pair
hex_pair-upper_byte b rest h =
    rw
      (
        hex_pair,
        hex_value-upper_digit (b / 16) (omega arith),
        hex_value-upper_digit (b % 16) (omega arith),
      )
      (ap (λ (n : ℕ). some n) (omega arith))

-- The text of an address, between the quotes.
abbrev pub plain_address : ℕ → ℕ → ℕ → ℕ → ℕ → ℕ → List ℕ → List ℕ
plain_address a b c d e f rest =
    upper_byte a
    ++ (b':' ∷ upper_byte b
        ++ (b':' ∷ upper_byte c
            ++ (b':' ∷ upper_byte d ++ (b':' ∷ upper_byte e ++ (b':' ∷ upper_byte f ++ rest)))))

shown_address :
    (a b c d e f : ℕ)
    → address_text (a ∷ b ∷ c ∷ d ∷ e ∷ f ∷ []) ≡ b'"' ∷ plain_address a b c d e f (b'"' ∷ [])
shown_address a b c d e f = refl

-- A byte that is followed by another one, and the last byte.
pairs_step :
    (m b : ℕ) (rest : List ℕ)
    → (m == 0) ≡ false
    → b < 256
    → parse_pairs (suc m) (upper_byte b ++ (b':' ∷ rest))
      ≡ (elim (parse_pairs m rest) [ none ↦ none | some (bytes, text) ↦ some (b ∷ bytes, text) ])
unfolding parse_pairs
pairs_step m b rest more h = rw (parse_pairs, hex_pair-upper_byte b (b':' ∷ rest) h, more) refl

pairs_end :
    (b : ℕ) (rest : List ℕ) → b < 256 → parse_pairs 1 (upper_byte b ++ rest) ≡ some (b ∷ [], rest)
unfolding parse_pairs
pairs_end b rest h = rw (parse_pairs, hex_pair-upper_byte b rest h) refl

parse_address-plain :
    (a b c d e f : ℕ)
    → a < 256
    → b < 256
    → c < 256
    → d < 256
    → e < 256
    → f < 256
    → parse_address (plain_address a b c d e f []) ≡ some (a ∷ b ∷ c ∷ d ∷ e ∷ f ∷ [])
unfolding parse_address
parse_address-plain a b c d e f ha hb hc hd he hf =
    rw
      (
        parse_address,
        pairs_step 5 a _ refl ha,
        pairs_step 4 b _ refl hb,
        pairs_step 3 c _ refl hc,
        pairs_step 2 d _ refl hd,
        pairs_step 1 e _ refl he,
        pairs_end f [] hf,
      )
      refl

plain_digit : (d : ℕ) → is_space (upper_digit d) ≡ false
plain_digit d = ground arith

has_space : List ℕ → Bool
has_space [] = false
has_space (ch ∷ word) = is_space ch || has_space word

record PlainWord (word : List ℕ) : Type 0 where
  plain : has_space word ≡ false

plain_byte : (b : ℕ) (rest : List ℕ) → PlainWord rest → PlainWord (upper_byte b ++ rest)
unfolding has_space
plain_byte b rest h = record { plain = rw (plain_digit (b / 16), plain_digit (b % 16)) h.plain }

plain_more : (b : ℕ) (rest : List ℕ) → PlainWord rest → PlainWord (upper_byte b ++ (b':' ∷ rest))
unfolding has_space
plain_more b rest h = plain_byte b (b':' ∷ rest) (record { plain = h.plain })

address-PlainWord : (a b c d e f : ℕ) → PlainWord (plain_address a b c d e f [])
unfolding has_space
address-PlainWord a b c d e f = plain_more a _ (
    plain_more b _ (
      plain_more c _ (plain_more d _ (plain_more e _ (plain_byte f [] (record { plain = refl }))))))

-- A word without white space is scanned up to the space behind it.
scan_characters-plain :
    (width : ℕ) (word rest : List ℕ)
    → has_space word ≡ false
    → length word < width
    → scan_characters width (word ++ (b' ' ∷ rest)) ≡ (word, b' ' ∷ rest)
unfolding scan_characters has_space
scan_characters-plain zero word rest h le = absurd (omega arith)
scan_characters-plain (suc width) [] rest h le = refl
scan_characters-plain (suc width) (ch ∷ word) rest h le =
    let here : is_space ch ≡ false = ground arith in
    let inner = scan_characters-plain width word rest (ground arith) (omega arith) in
    rw (scan_characters, here, inner) refl

-- The target of the request that connects to an address.
abbrev pub connect_target : ℕ → ℕ → ℕ → ℕ → ℕ → ℕ → List ℕ
connect_target a b c d e f = connect_prefix ++ plain_address a b c d e f []

connect_target-plain : (a b c d e f : ℕ) → has_space (connect_target a b c d e f) ≡ false
unfolding has_space
connect_target-plain a b c d e f = (address-PlainWord a b c d e f).plain

scan_method :
    (rest : List ℕ) → scan_word 7 (codes "POST " ++ rest) ≡ some (codes "POST", b' ' ∷ rest)
unfolding scan_word skip_spaces scan_characters
scan_method rest = refl

scan_target :
    (a b c d e f : ℕ) (rest : List ℕ)
    → scan_word 127 (b' ' ∷ connect_target a b c d e f ++ (b' ' ∷ rest))
      ≡ some (connect_target a b c d e f, b' ' ∷ rest)
unfolding scan_word skip_spaces
scan_target a b c d e f rest =
    ap (λ (r : List ℕ × List ℕ). some r)
      (scan_characters-plain 127 (connect_target a b c d e f) rest
        (connect_target-plain a b c d e f) (omega arith))

-- The status shows an address of six bytes as these bytes in upper-case hexadecimal with colons
-- between them, in quotes. The request "POST /api/connect?address=" with this text without the
-- quotes, then a space and anything, has the method POST and a target that is read as the request
-- to connect to these bytes.
pub connect_request-plain_address :
    (a b c d e f : ℕ) (rest : List ℕ)
    → a < 256
    → b < 256
    → c < 256
    → d < 256
    → e < 256
    → f < 256
    → (scan_request (codes "POST " ++ connect_target a b c d e f ++ (b' ' ∷ rest))
        ≡ some (codes "POST", connect_target a b c d e f))
      × (request_of_target (connect_target a b c d e f)
          ≡ some (record { action = Action.connect; address = a ∷ b ∷ c ∷ d ∷ e ∷ f ∷ [] }))
      × (address_text (a ∷ b ∷ c ∷ d ∷ e ∷ f ∷ []) ≡ b'"' ∷ plain_address a b c d e f (b'"' ∷ []))
unfolding scan_request request_of_target connect_address bytes_eq
connect_request-plain_address a b c d e f rest ha hb hc hd he hf = (
  rw (scan_request, scan_method, scan_target a b c d e f rest) refl,
  rw (request_of_target, connect_address, parse_address-plain a b c d e f ha hb hc hd he hf) refl,
  refl,
)
