-- ===== src/Usb/Serial/Run.antt =====
-- usb/usb_serial.c: a session of the log, in which prints and tasks come in any order.
use picow_bt_kb_hid.Base.{
  ℕ, ◌≤◌, ◌≡◌, sym, ap, ◌∙◌, Bool, List, [], ◌∷◌, ◌++◌, Option, if◌then◌else◌, length,
}
use mathlib.Core.List.{append_assoc, append-nil}
use picow_bt_kb_hid.Usb.Serial.{Log, empty_log, usb_serial_printf, notice, usb_serial_task}
use picow_bt_kb_hid.Usb.Serial.Refine.{
  IsValid, pending, accepted, printf_refines, empty_log-IsValid,
}
use picow_bt_kb_hid.Usb.Serial.Drain.{is_told, task_delivers}

-- A call of `usb_serial_printf` or of `usb_serial_task`, with whether the port is connected.
pub data Step : Type 0 where
  print : Bool → Option (List ℕ) → Step
  task : Bool → Step

module _ {S : Type 0} (write_available : S → ℕ) (write : List ℕ → S → ℕ × S) where
  -- The log and the port after the steps, and all the bytes that the port has taken.
  unfoldable pub run : List Step → Log → S → Log × S × List ℕ
  run [] l port = (l, port, [])
  run (print connected text ∷ steps) l port = run steps (usb_serial_printf connected text l) port
  run (task connected ∷ steps) l port =
      let (l', port', sent) = usb_serial_task write_available write connected l port in
      let (l'', port'', more) = run steps l' port' in (l'', port'', sent ++ more)

module _ {S : Type 0} (write_available : S → ℕ) (write : List ℕ → S → ℕ × S)
    (takes : (bytes : List ℕ) (port : S) → (write bytes port).0 ≤ length bytes) where
  -- The messages and notices that go into the log, one behind the other.
  unfoldable pub entered : List Step → Log → S → List ℕ
  entered [] l port = []
  entered (print connected text ∷ steps) l port =
      accepted connected text l ++ entered steps (usb_serial_printf connected text l) port
  entered (task connected ∷ steps) l port =
      let (l', port', sent) = usb_serial_task write_available write connected l port in
      (if is_told write_available write takes connected l port then notice else [])
      ++ entered steps l' port'

  run_delivers_from :
      (steps : List Step) (l : Log) (port : S)
      → IsValid l
      → (run write_available write steps l port).2
          ++ pending (run write_available write steps l port).0
        ≡ pending l ++ entered steps l port
  unfolding run entered
  run_delivers_from [] l port v = sym (append-nil (pending l))
  run_delivers_from (print connected text ∷ steps) l port v =
      let p = printf_refines connected text l v in
      run_delivers_from steps (usb_serial_printf connected text l) port p.valid
      ∙ ap (λ xs. xs ++ entered steps (usb_serial_printf connected text l) port) p.bytes
      ∙ append_assoc (pending l) _ _
  run_delivers_from (task connected ∷ steps) l port v =
      let t = task_delivers write_available write takes connected l port v in
      let (l', port', sent) = usb_serial_task write_available write connected l port in
      append_assoc sent _ _
      ∙ ap (λ xs. sent ++ xs) (run_delivers_from steps l' port' t.valid)
      ∙ sym (append_assoc sent (pending l') _)
      ∙ ap (λ xs. xs ++ entered steps l' port') t.bytes
      ∙ append_assoc (pending l) _ _

  -- From power-on, whatever prints and tasks follow, the bytes that the CDC port has taken and
  -- those that wait are, in order and each once, the messages that were accepted and the notices
  -- that were printed, where the port takes no more bytes than it is offered.
  pub run_delivers :
      (steps : List Step) (port : S)
      → (run write_available write steps empty_log port).2
          ++ pending (run write_available write steps empty_log port).0
        ≡ entered steps empty_log port
  unfolding empty_log
  run_delivers steps port = run_delivers_from steps empty_log port empty_log-IsValid
