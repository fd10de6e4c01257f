-- ===== src/Bt/App/Poll.antt =====
-- bt/bluetooth.c: the requests that wait after a call of `bluetooth_task`.
use picow_bt_kb_hid.Base.{ℕ, suc, ◌<◌, ◌≡◌, Bool, not, ◌&&◌, List, [], length, if_rule, arith}
use picow_bt_kb_hid.Base.Window.{length-window}
use picow_bt_kb_hid.Bt.RequestQueue.{capacity, zero_request}
use picow_bt_kb_hid.Bt.RequestQueue.Refine.{waiting}
use picow_bt_kb_hid.Bt.App.Platform.{Btstack, Answers}
use picow_bt_kb_hid.Bt.App.Model.{App}
use picow_bt_kb_hid.Bt.App.Hid.{schedule_keyboard_led_report}
use picow_bt_kb_hid.Bt.App.Task.{read_characters, execute_requests, bluetooth_task}
use picow_bt_kb_hid.Bt.App.Drain.{execute_requests_drain}
use picow_bt_kb_hid.Bt.App.Inputs.{
  HasInputs, read_characters-HasInputs, schedule-HasInputs, Reachable-HasInputs,
}
use picow_bt_kb_hid.Bt.App.Run.{Reachable}

-- After a call of `bluetooth_task` in any state that the application reaches, with any input and
-- any answers, no request waits, if BTstack reports no connection as made that has the invalid
-- handle.
pub poll-drains :
    (btstack : Btstack) (answers : Answers) (later : ℕ → Answers) (input : List ℕ)
    (connected : Bool) {a : App}
    → Reachable btstack a
    → waiting (bluetooth_task btstack answers later input connected a).control_requests ≡ []
unfolding bluetooth_task
poll-drains btstack answers later input connected {a} r =
    let a1 = read_characters input (schedule_keyboard_led_report btstack answers a) in
    let v : HasInputs a1 =
      read_characters-HasInputs input _
        (schedule-HasInputs btstack answers a (Reachable-HasInputs btstack r)) in
    let q = a1.control_requests in
    let a2 = execute_requests btstack (suc capacity) later a1 in
    let few : length (waiting q) < suc capacity =
      omega (
        arith,
        length-window zero_request capacity q.requests q.head q.count,
        v.requests.count_in,
      ) in
    let drained = execute_requests_drain btstack (suc capacity) later a1 v.requests few in
    if_rule (λ (b : App). waiting b.control_requests ≡ [])
      (a2.stack_working && not a2.startup_logged && connected) (λ _. drained) (λ _. drained)
