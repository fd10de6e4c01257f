-- ===== src/Web/Config/HeaderEnd.antt =====
-- web/web_config.c: what `strstr` finds in the text of a request.
use picow_bt_kb_hid.Base.{
  ℕ, zero, suc, ◌≡◌, refl, ap, ◌∙◌, true, false, List, [], ◌∷◌, ◌++◌, ◌↔◌, take, drop, Bool-cases,
  inl, inr, arith,
}
use picow_bt_kb_hid.Base.Bytes.{bytes_eq, bytes_eq_iff}
use picow_bt_kb_hid.Base.Text.{codes}
use picow_bt_kb_hid.Web.Config.Callbacks.{has_header_end}

-- An empty line, the end of a header, stands somewhere in a text.
pub record HasEmptyLine (text : List ℕ) : Type 0 where
  pub front : List ℕ
  pub behind : List ℕ
  pub text_is : text ≡ front ++ (codes "\r\n\r\n" ++ behind)

take_and_drop : (n : ℕ) (xs : List ℕ) → xs ≡ take n xs ++ drop n xs
take_and_drop zero xs = refl
take_and_drop (suc n) [] = refl
take_and_drop (suc n) (x ∷ xs) = ap (λ ys. x ∷ ys) (take_and_drop n xs)

further : (ch : ℕ) {text : List ℕ} → HasEmptyLine text → HasEmptyLine (ch ∷ text)
further ch h = record {
  front = ch ∷ h.front;
  behind = h.behind;
  text_is = ap (λ t. ch ∷ t) h.text_is;
}

finds-HasEmptyLine : (text : List ℕ) → has_header_end text ≡ true → HasEmptyLine text
unfolding has_header_end
finds-HasEmptyLine [] e = absurd (ground arith)
finds-HasEmptyLine (ch ∷ text) e =
    elim (Bool-cases (bytes_eq (take 4 (ch ∷ text)) (codes "\r\n\r\n"))) [
      | inl here ↦ record {
        front = [];
        behind = drop 4 (ch ∷ text);
        text_is =
            take_and_drop 4 (ch ∷ text)
            ∙ ap (λ t. t ++ drop 4 (ch ∷ text)) ((bytes_eq_iff _ _).0 here);
      }
      | inr elsewhere ↦ further ch (finds-HasEmptyLine text (ground arith))
    ]

finds_behind :
    (front behind : List ℕ) → has_header_end (front ++ (codes "\r\n\r\n" ++ behind)) ≡ true
unfolding has_header_end bytes_eq
finds_behind [] behind = refl
finds_behind (ch ∷ front) behind = let later = finds_behind front behind in ground (arith, later)

-- The search finds the end of a header exactly if there is one.
pub has_header_end_iff : (text : List ℕ) → (has_header_end text ≡ true) ↔ HasEmptyLine text
has_header_end_iff text =
    (finds-HasEmptyLine text, λ h. ap has_header_end h.text_is ∙ finds_behind h.front h.behind)

pub none_found : {text : List ℕ} → has_header_end text ≡ false → ¬ HasEmptyLine text
none_found {text} e h = let found = (has_header_end_iff text).1 h in absurd (ground arith)
