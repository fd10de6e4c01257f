-- ===== src/Bt/App/Run.antt =====
-- bt/bluetooth.c: the states that the application reaches from power-on, with the rounds of
-- usb/hid_keyboard.c that take the reports.
use picow_bt_kb_hid.Base.{ℕ, refl, Bool, List, Option, none, some}
use picow_bt_kb_hid.Bt.Control.{Request}
use picow_bt_kb_hid.Usb.Keyboard.{Report, hid_keyboard_task}
use picow_bt_kb_hid.Bt.App.Platform.{Btstack, Answers, Event}
use picow_bt_kb_hid.Bt.App.Model.{App}
use picow_bt_kb_hid.Bt.App.Events.{handle}
use picow_bt_kb_hid.Bt.App.Task.{
  initial, load_selected_device, bluetooth_init, bluetooth_control_submit, bluetooth_task,
}
use picow_bt_kb_hid.Bt.App.Consistent.{IsConsistent}
use picow_bt_kb_hid.Bt.App.Consistent.Handle.{HandleOk, handle-IsConsistent}
use picow_bt_kb_hid.Bt.App.Consistent.Requests.{bluetooth_task-IsConsistent}

-- `bluetooth_init`, then any sequence of events, tasks and submitted requests, and of rounds of
-- `hid_keyboard_task` that take the oldest report from the ring or do not, with any answers.
pub data Reachable (btstack : Btstack) : App → Type 0 where
  started :
      (stored : Option (ℕ × List ℕ)) → Reachable btstack (bluetooth_init stored (initial btstack))
  handled :
      {a : App} (answers : Answers) (e : Event)
      → HandleOk btstack e
      → Reachable btstack a
      → Reachable btstack (handle btstack answers e a)
  polled :
      {a : App} (answers : Answers) (later : ℕ → Answers) (input : List ℕ) (connected : Bool)
      → Reachable btstack a
      → Reachable btstack (bluetooth_task btstack answers later input connected a)
  submitted :
      {a : App} (r : Request)
      → Reachable btstack a
      → Reachable btstack (bluetooth_control_submit r a).0
  reported :
      {a : App} (ready : Bool) (accepts : Report → Bool)
      → Reachable btstack a
      → Reachable btstack (record a { keyboard = (hid_keyboard_task ready accepts a.keyboard).0 })

module _ (btstack : Btstack) where
  started-IsConsistent :
      (stored : Option (ℕ × List ℕ))
      → IsConsistent btstack (bluetooth_init stored (initial btstack))
  unfolding bluetooth_init load_selected_device initial
  started-IsConsistent none = record {
    agrees = record { pin = refl; pending = λ e. cc; timer = λ e. cc; link = λ e. cc };
  }
  started-IsConsistent (some (size, bytes)) = record {
    agrees = record { pin = refl; pending = λ e. cc; timer = λ e. cc; link = λ e. cc };
  }

  -- In every state that the application reaches, if BTstack reports no connection as made that has
  -- the invalid handle: a PIN is displayed exactly while its timer runs, a pending connection has
  -- the address to cancel it by, the retry timer is off during an inquiry, a connection attempt,
  -- authentication and service discovery, and a link in these has a handle.
  pub Reachable-IsConsistent : {a : App} → Reachable btstack a → IsConsistent btstack a
  unfolding bluetooth_control_submit
  Reachable-IsConsistent (started stored) = started-IsConsistent stored
  Reachable-IsConsistent (handled answers e ok r) =
      handle-IsConsistent btstack answers e _ ok (Reachable-IsConsistent r)
  Reachable-IsConsistent (polled answers later input connected r) =
      bluetooth_task-IsConsistent btstack answers later input connected _ (Reachable-IsConsistent r)
  Reachable-IsConsistent (submitted q r) =
      let v = Reachable-IsConsistent r in record { agrees = v.agrees }
  Reachable-IsConsistent (reported ready accepts r) =
      let v = Reachable-IsConsistent r in record { agrees = v.agrees }
