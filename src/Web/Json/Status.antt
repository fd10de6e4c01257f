-- ===== src/Web/Json/Status.antt =====
-- web/control_json.c on the snapshots of bt/bluetooth.c, as /api/status calls the two.
use picow_bt_kb_hid.Base.{
  ℕ, suc, ◌<◌, ◌≡◌, refl, sym, ap, ◌∙◌, Bool, true, List, [], ◌∷◌, ◌++◌, Option, some,
  if◌then◌else◌, ltb, ltb-true, length, take, take-take, take-append, drop, ◌-◌, arith,
}
use mathlib.Core.Path.{subst}
use picow_bt_kb_hid.Bt.Snapshot.{Snapshot}
use picow_bt_kb_hid.Bt.App.Model.{App}
use picow_bt_kb_hid.Bt.App.Snapshot.{bluetooth_control_get_snapshot}
use picow_bt_kb_hid.Bt.App.Snapshot.Laws.{get_snapshot-Shows}
use picow_bt_kb_hid.Web.Json.{control_json_write_snapshot, max_snapshot_size}
use picow_bt_kb_hid.Web.Json.Printer.{render}
use picow_bt_kb_hid.Web.Json.Render.{IsWritten, write_snapshot-IsWritten}
use picow_bt_kb_hid.Web.Json.Bounds.{render-lt}

-- The answer, the text and the size of the buffer where a snapshot is written in full.
pub record IsWhole (text : List ℕ) (result : List ℕ × Option ℕ) : Type 0 where
  pub answer : result.1 ≡ some (length text)
  pub text_is : take (length text) result.0 ≡ text
  pub storage : length result.0 ≡ max_snapshot_size

written-IsWhole :
    (s : Snapshot) (result : List ℕ × Option ℕ)
    → length (render s) < max_snapshot_size
    → IsWritten max_snapshot_size (render s) result
    → IsWhole (render s) result
written-IsWhole s result short w =
    let fits : ltb (length (render s)) max_snapshot_size ≡ true =
      ltb-true (length (render s)) max_snapshot_size short in
    let text : take (suc (length (render s))) result.0 ≡ render s ++ (0 ∷ []) =
      subst
        (λ (b : Bool).
          (if b
            then take (suc (length (render s))) result.0
            else drop (max_snapshot_size - 1) result.0)
          ≡ (if b then render s ++ (0 ∷ []) else 0 ∷ []))
        fits w.contents in
    record {
      answer = w.answer ∙ rw fits refl;
      text_is =
          sym (take-take (length (render s)) (suc (length (render s))) result.0 (omega arith))
          ∙ ap (take (length (render s))) text
          ∙ take-append (render s) (0 ∷ []);
      storage = w.storage;
    }

-- In a buffer of CONTROL_JSON_MAX_SNAPSHOT_SIZE bytes the snapshot of any state of the application,
-- with any version, is written in full: the writer answers the length of its whole text, which
-- stands at the front of the buffer.
pub write_snapshot-get_snapshot :
    (version : List ℕ) (a : App) (buffer : List ℕ)
    → length buffer ≡ max_snapshot_size
    → IsWhole (render (bluetooth_control_get_snapshot version a)) (
        control_json_write_snapshot
          (bluetooth_control_get_snapshot version a)
          buffer
          max_snapshot_size)
write_snapshot-get_snapshot version a buffer e =
    let s = bluetooth_control_get_snapshot version a in
    written-IsWhole s (control_json_write_snapshot s buffer max_snapshot_size)
      (render-lt s (get_snapshot-Shows version a).fits)
      (write_snapshot-IsWritten s buffer max_snapshot_size e (omega arith))
