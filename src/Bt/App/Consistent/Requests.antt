-- ===== src/Bt/App/Consistent/Requests.antt =====
-- bt/bluetooth.c: the flags and the state after `execute_control_request` and `bluetooth_task`.
use picow_bt_kb_hid.Base.{
  ℕ, zero, suc, true, false, Bool, not, ◌&&◌, ◌||◌, List, [], ◌∷◌, length, ◌==◌, if_rule,
  option_rule, ltb,
}
use picow_bt_kb_hid.Base.Text.{c_string}
use picow_bt_kb_hid.Bt.Control.{BdAddr, Action, Request}
use picow_bt_kb_hid.Bt.Command.{control_command_parse}
use picow_bt_kb_hid.Bt.RequestQueue.{capacity, control_request_queue_pop}
use picow_bt_kb_hid.Bt.State.{idle, connecting, ◌==ₛ◌}
use picow_bt_kb_hid.Bt.Devices.{device_manager_find}
use picow_bt_kb_hid.Bt.App.Platform.{Btstack, Answers}
use picow_bt_kb_hid.Bt.App.Model.{App}
use picow_bt_kb_hid.Bt.App.Link.{store_selected_device, delete_selected_device}
use picow_bt_kb_hid.Bt.App.Hid.{schedule_keyboard_led_report}
use picow_bt_kb_hid.Bt.App.Events.{is_hid_supported}
use picow_bt_kb_hid.Bt.App.Requests.{
  request_scan, reconnect_target, request_connect, request_disconnect, request_reconnect,
  request_forget, execute_action, execute_control_request,
}
use picow_bt_kb_hid.Bt.App.Task.{
  bluetooth_control_submit, submit_parsed_command, end_of_line, read_character, read_characters,
  execute_requests, bluetooth_task,
}
use picow_bt_kb_hid.Bt.App.Consistent.{IsConsistent}
use picow_bt_kb_hid.Bt.App.Consistent.Link.{
  start_inquiry-IsConsistent, begin_connection-IsConsistent, cancel_pending_connection-IsConsistent,
}
use picow_bt_kb_hid.Bt.App.Consistent.Hid.{schedule-IsConsistent}
use picow_bt_kb_hid.Bt.App.Consistent.Events.{adopt_target-IsConsistent}

module _ (btstack : Btstack) where
  abbrev Good : App → Type 0
  Good = IsConsistent btstack

  store-IsConsistent :
      (answers : Answers) (a : App) → Good a → Good (store_selected_device answers a)
  unfolding store_selected_device
  store-IsConsistent answers a v =
      if_rule Good answers.has_tlv (λ _. record { agrees = v.agrees }) (λ _. v)

  delete-IsConsistent :
      (answers : Answers) (a : App) → Good a → Good (delete_selected_device answers a)
  unfolding delete_selected_device
  delete-IsConsistent answers a v =
      if_rule Good answers.has_tlv (λ _. record { agrees = v.agrees }) (λ _. v)

  scan-IsConsistent : (a : App) → Good a → Good (request_scan a)
  unfolding request_scan
  scan-IsConsistent a v =
      if_rule Good (not (a.current_state ==ₛ idle)) (λ _. v)
        (λ _. start_inquiry-IsConsistent btstack _ (record { agrees = v.agrees }))

  connect-IsConsistent :
      (answers : Answers) (address : BdAddr) (a : App)
      → Good a
      → Good (request_connect btstack answers address a)
  unfolding request_connect
  connect-IsConsistent answers address a v =
      if_rule Good (not (is_hid_supported (device_manager_find a.devices address))) (λ _. v)
        λ _.
          if_rule Good (not (a.current_state ==ₛ idle)) (λ _. v)
            λ _.
              begin_connection-IsConsistent btstack answers _ _
                (store-IsConsistent answers _ (record { agrees = v.agrees }))

  disconnect-IsConsistent :
      (answers : Answers) (a : App) → Good a → Good (request_disconnect btstack answers a)
  unfolding request_disconnect
  disconnect-IsConsistent answers a v =
      if_rule Good (not (a.acl_handle == btstack.invalid_handle))
        (λ _. record { agrees = v.agrees })
        λ _.
          if_rule Good (a.current_state ==ₛ connecting && a.connecting_device_valid)
            (λ _. cancel_pending_connection-IsConsistent btstack _ (record { agrees = v.agrees }))
            (λ _. record { agrees = v.agrees })

  reconnect-IsConsistent :
      (answers : Answers) (a : App) → Good a → Good (request_reconnect btstack answers a)
  unfolding request_reconnect
  reconnect-IsConsistent answers a v =
      let a1 = record a { auto_connect_enabled = true } in
      let w : Good a1 = record { agrees = v.agrees } in
      if_rule Good (not (a1.acl_handle == btstack.invalid_handle)) (λ _. w)
        λ _.
          if_rule Good (not (a1.current_state ==ₛ idle)) (λ _. w)
            λ _.
              option_rule Good (reconnect_target a1) (λ _. start_inquiry-IsConsistent btstack a1 w)
                (λ target _.
                  begin_connection-IsConsistent btstack answers target _
                    (adopt_target-IsConsistent btstack answers target a1 w))

  forget-IsConsistent :
      (answers : Answers) (a : App) → Good a → Good (request_forget btstack answers a)
  unfolding request_forget
  forget-IsConsistent answers a v =
      let a0 = record a { auto_connect_enabled = false; selected_device_valid = false } in
      let w = delete-IsConsistent answers a0 (record { agrees = v.agrees }) in
      if_rule Good (not ((delete_selected_device answers a0).acl_handle == btstack.invalid_handle))
        (λ _. record { agrees = w.agrees })
        (λ _. cancel_pending_connection-IsConsistent btstack _ (record { agrees = w.agrees }))

  -- Every request keeps the flags consistent with the state.
  pub execute_control_request-IsConsistent :
      (answers : Answers) (r : Request) (a : App)
      → IsConsistent btstack a
      → IsConsistent btstack (execute_control_request btstack answers r a)
  unfolding execute_control_request execute_action
  execute_control_request-IsConsistent answers r a v = of_action r.action
    where
      of_action : (action : Action) → Good (execute_action btstack answers action r.address a)
      of_action Action.help = v
      of_action Action.status = v
      of_action Action.scan = scan-IsConsistent a v
      of_action Action.connect = connect-IsConsistent answers r.address a v
      of_action Action.disconnect = disconnect-IsConsistent answers a v
      of_action Action.reconnect = reconnect-IsConsistent answers a v
      of_action Action.forget = forget-IsConsistent answers a v

  end_of_line-IsConsistent : (a : App) → Good a → Good (end_of_line a)
  unfolding end_of_line submit_parsed_command bluetooth_control_submit
  end_of_line-IsConsistent a v =
      if_rule Good (length a.command == 0) (λ _. v)
        λ _.
          option_rule Good (control_command_parse (c_string a.command))
            (λ _. record { agrees = v.agrees }) (λ _ _. record { agrees = v.agrees })

  read_characters-IsConsistent :
      (input : List ℕ) (a : App) → Good a → Good (read_characters input a)
  unfolding read_characters read_character
  read_characters-IsConsistent [] a v = v
  read_characters-IsConsistent (ch ∷ input) a v = read_characters-IsConsistent input _ (
      if_rule Good (ch == b'\r' || ch == b'\n') (λ _. end_of_line-IsConsistent a v)
        λ _.
          if_rule Good (ltb (length a.command) 31) (λ _. record { agrees = v.agrees })
            (λ _. record { agrees = v.agrees }))

  execute_requests-IsConsistent :
      (fuel : ℕ) (answers : ℕ → Answers) (a : App)
      → Good a
      → Good (execute_requests btstack fuel answers a)
  unfolding execute_requests
  execute_requests-IsConsistent zero answers a v = v
  execute_requests-IsConsistent (suc fuel) answers a v =
      option_rule Good (control_request_queue_pop a.control_requests).1
        (λ _. record { agrees = v.agrees })
        (λ r _.
          execute_requests-IsConsistent fuel answers _ (
            execute_control_request-IsConsistent (answers fuel) r _ (record { agrees = v.agrees })))

  pub bluetooth_task-IsConsistent :
      (answers : Answers) (later : ℕ → Answers) (input : List ℕ) (connected : Bool) (a : App)
      → Good a
      → Good (bluetooth_task btstack answers later input connected a)
  unfolding bluetooth_task
  bluetooth_task-IsConsistent answers later input connected a v =
      let a1 = read_characters input (schedule_keyboard_led_report btstack answers a) in
      let a2 = execute_requests btstack (suc capacity) later a1 in
      let w : Good a2 =
        execute_requests-IsConsistent (suc capacity) later a1
          (read_characters-IsConsistent input _ (schedule-IsConsistent btstack answers a v)) in
      if_rule Good (a2.stack_working && not a2.startup_logged && connected)
        (λ _. record { agrees = w.agrees }) (λ _. w)
