-- ===== src/Web/Json/ReadBack.antt =====
-- web/control_json.c: what a reader of JSON makes of the buffer behind `append_json_string`.
use picow_bt_kb_hid.Base.{
  ℕ, ◌+◌, ◌<◌, ◌≡◌, refl, sym, ap, ap₂, ◌∙◌, true, List, [], ◌∷◌, ◌++◌, some, inl, inr, length,
  take, drop, length-append, take-append, arith,
}
use mathlib.Core.List.{append-nil}
use picow_bt_kb_hid.Base.Text.{c_string}
use picow_bt_kb_hid.Web.Json.{Writer, append_json_string}
use picow_bt_kb_hid.Web.Json.Printer.{render_string}
use picow_bt_kb_hid.Web.Json.Render.{Holds, IsWriting, append_json_string-Appends}
use picow_bt_kb_hid.Web.Json.Strings.{read_json, read_json-render_string}

drop-append : (xs ys : List ℕ) → drop (length xs) (xs ++ ys) ≡ ys
drop-append [] ys = refl
drop-append (x ∷ xs) ys = drop-append xs ys

-- A writer that has room for a text holds it.
fitting :
    (c : ℕ) {text : List ℕ} {w : Writer} → length text < c → IsWriting c text w → Holds c text w
fitting c short v = elim v.outcome [ inl h ↦ h | inr (lost, full) ↦ absurd (omega arith) ]

-- In a buffer of `c` bytes that holds a text, with room behind it for the value of an array as a JSON
-- string and for a zero byte, `append_json_string` keeps the text and does not fail; a reader of JSON
-- reads from what was written behind the text, up to the length of the writer, the bytes of the array
-- before its first zero byte, whatever they are, and leaves nothing.
pub read_json-append_json_string :
    (c : ℕ) (value text : List ℕ) (w : Writer)
    → length text + length (render_string value) < c
    → IsWriting c text w
    → let w' = append_json_string value w in
      let written = take w'.length w'.buffer in
      (w'.valid ≡ true)
      × (take (length text) written ≡ text)
      × (read_json (drop (length text) written) ≡ some (c_string value, []))
read_json-append_json_string c value text w room v =
    let w' = append_json_string value w in
    let string = render_string value in
    let h : Holds c (text ++ string) w' =
      fitting c (omega (arith, length-append text string))
        (append_json_string-Appends c value text w v) in
    let written : take w'.length w'.buffer ≡ text ++ string =
      ap₂ take h.length_is h.buffer_is ∙ take-append (text ++ string) (0 ∷ h.rest) in
    let behind : drop (length text) (take w'.length w'.buffer) ≡ string =
      ap (drop (length text)) written ∙ drop-append text string in
    (
      h.valid,
      ap (take (length text)) written ∙ take-append text string,
      ap read_json (behind ∙ sym (append-nil string)) ∙ read_json-render_string value [],
    )
