-- ===== src/Bt/App/Inputs.antt =====
-- bt/bluetooth.c: the ring of reports, the queue of requests and the line of text in every state
-- that the application reaches.
use picow_bt_kb_hid.Base.{
  ℕ, zero, suc, ◌≤◌, refl, sym, Bool, not, ◌&&◌, ◌||◌, inl, inr, List, [], ◌∷◌, length,
  length-append, Option, none, some, arith, ◌==◌, ltb, if_rule, option_rule,
}
use mathlib.Core.Path.{subst}
use picow_bt_kb_hid.Base.Text.{c_string}
use picow_bt_kb_hid.Bt.Control.{Request}
use picow_bt_kb_hid.Bt.State.{hid_connected, ◌==ₛ◌}
use picow_bt_kb_hid.Bt.Command.{control_command_parse}
use picow_bt_kb_hid.Bt.BootReport.{hid_boot_keyboard_output_packet, hid_boot_keyboard_parse_input}
use picow_bt_kb_hid.Bt.RequestQueue.{capacity, control_request_queue_pop}
use picow_bt_kb_hid.Bt.RequestQueue.Refine as RequestRing
use picow_bt_kb_hid.Usb.Keyboard.Refine as ReportRing
use picow_bt_kb_hid.Bt.App.Platform.{Btstack, Answers, Event}
use picow_bt_kb_hid.Bt.App.Model.{App}
use picow_bt_kb_hid.Bt.App.Hid.{schedule_keyboard_led_report}
use picow_bt_kb_hid.Bt.App.Events.{send_led_report, on_can_send_now, handle}
use picow_bt_kb_hid.Bt.App.Task.{
  initial, load_selected_device, bluetooth_init, bluetooth_control_submit, submit_parsed_command,
  request_of, end_of_line, read_character, read_characters, execute_requests, bluetooth_task,
}
use picow_bt_kb_hid.Bt.App.Kept.Events.{send_boot_protocol-Kept}
use picow_bt_kb_hid.Bt.App.Kept.Handle.{handle_split}
use picow_bt_kb_hid.Bt.App.Kept.Forward.{unread, Forwarded, data_packet_split}
use picow_bt_kb_hid.Bt.App.Kept.Requests.{KeepsInputs, Kept-KeepsInputs, execute-KeepsInputs}
use picow_bt_kb_hid.Bt.App.Run.{Reachable, started, handled, polled, submitted, reported}

-- The rings are valid, and the line leaves a place of the 32 for its zero byte.
pub record HasInputs (a : App) : Type 0 where
  pub keys : ReportRing.IsValid a.keyboard
  pub requests : RequestRing.IsValid a.control_requests
  pub line : length a.command ≤ 31

after : {a b : App} → KeepsInputs a b → HasInputs a → HasInputs b
after {a} {b} k v = record {
  keys = k.keys v.keys;
  requests = subst RequestRing.IsValid (sym k.same) v.requests;
  line = subst (λ (xs : List ℕ). length xs ≤ 31) (sym k.line) v.line;
}

module _ (btstack : Btstack) (answers : Answers) where
  can_send_now-KeepsInputs :
      (cid : ℕ) (a : App) → KeepsInputs a (on_can_send_now btstack answers cid a)
  unfolding on_can_send_now send_led_report
  can_send_now-KeepsInputs cid a =
      let kept : KeepsInputs a a = record { same = refl; line = refl; keys = λ v. v } in
      if_rule (KeepsInputs a)
        (cid == a.hid_channels.control_cid && a.hid_channels.boot_protocol_request_pending)
        (λ _. Kept-KeepsInputs (send_boot_protocol-Kept btstack answers a))
        λ _.
          if_rule (KeepsInputs a)
            (cid == a.hid_channels.control_cid && a.hid_channels.led_can_send_requested)
            (λ _.
              if_rule (KeepsInputs a)
                (answers.l2cap_send a.hid_channels.control_cid
                    (hid_boot_keyboard_output_packet a.hid_channels.led_state)
                  == btstack.success)
                (λ _. record { same = refl; line = refl; keys = λ v. v })
                (λ _. record { same = refl; line = refl; keys = λ v. v }))
            (λ _. kept)

  forwarded-HasInputs :
      (channel : ℕ) (packet : List ℕ) {a b : App}
      → Forwarded channel packet a b
      → HasInputs a
      → HasInputs b
  forwarded-HasInputs channel packet {a} {b} f v =
      let report = (hid_boot_keyboard_parse_input packet (length packet) unread).1 in
      subst HasInputs (sym f.3) (record {
        keys = ReportRing.send-IsValid report.modifier report.keycodes v.keys;
        requests = v.requests;
        line = v.line;
      })

  handle-HasInputs : (e : Event) (a : App) → HasInputs a → HasInputs (handle btstack answers e a)
  unfolding handle
  handle-HasInputs e a v = elim (handle_split btstack answers e a) [
    | inl k ↦ after (Kept-KeepsInputs k) v
    | inr (inl (leds, same)) ↦
        rw same (record { keys = v.keys; requests = v.requests; line = v.line })
    | inr (inr (inl (cid, same))) ↦ rw same (after (can_send_now-KeepsInputs cid a) v)
    | inr (inr (inr (channel, packet, same))) ↦
        rw same (elim (data_packet_split btstack answers channel packet a) [
          | inl k ↦ after (Kept-KeepsInputs k) v
          | inr f ↦ forwarded-HasInputs channel packet f v
        ])
  ]

  pub schedule-HasInputs :
      (a : App) → HasInputs a → HasInputs (schedule_keyboard_led_report btstack answers a)
  unfolding schedule_keyboard_led_report
  schedule-HasInputs a v =
      let c = a.hid_channels in
      if_rule HasInputs
        (not c.led_report_pending
          || c.led_can_send_requested
          || not c.control_open
          || not (a.current_state ==ₛ hid_connected))
        (λ _. v)
        λ _.
          if_rule HasInputs
            (answers.l2cap_request_can_send_now_event c.control_cid == btstack.success)
            (λ _. record { keys = v.keys; requests = v.requests; line = v.line })
            (λ _. record { keys = v.keys; requests = v.requests; line = v.line })

submit-HasInputs :
    (r : Request) (a : App) → HasInputs a → HasInputs (bluetooth_control_submit r a).0
unfolding bluetooth_control_submit
submit-HasInputs r a v = record {
  keys = v.keys;
  requests = RequestRing.push-IsValid r v.requests;
  line = v.line;
}

end_of_line-HasInputs : (a : App) → HasInputs a → HasInputs (end_of_line a)
unfolding end_of_line submit_parsed_command
end_of_line-HasInputs a v =
    if_rule HasInputs (length a.command == 0) (λ _. v)
      λ _.
        option_rule HasInputs (control_command_parse (c_string a.command))
          (λ _. record { keys = v.keys; requests = v.requests; line = omega arith })
          (λ command _.
            let w = submit-HasInputs (request_of command) a v in
            record { keys = w.keys; requests = w.requests; line = omega arith })

pub read_characters-HasInputs :
    (input : List ℕ) (a : App) → HasInputs a → HasInputs (read_characters input a)
unfolding read_characters read_character
read_characters-HasInputs [] a v = v
read_characters-HasInputs (ch ∷ input) a v = read_characters-HasInputs input _ (
    if_rule HasInputs (ch == b'\r' || ch == b'\n') (λ _. end_of_line-HasInputs a v)
      λ _.
        if_rule HasInputs (ltb (length a.command) 31)
          (λ short. record {
            keys = v.keys;
            requests = v.requests;
            line = ground (arith, length-append a.command (ch ∷ []));
          })
          (λ _. record { keys = v.keys; requests = v.requests; line = omega arith }))

module _ (btstack : Btstack) where
  execute_requests-HasInputs :
      (fuel : ℕ) (answers : ℕ → Answers) (a : App)
      → HasInputs a
      → HasInputs (execute_requests btstack fuel answers a)
  unfolding execute_requests
  execute_requests-HasInputs zero answers a v = v
  execute_requests-HasInputs (suc fuel) answers a v =
      let popped : HasInputs
          (record a { control_requests = (control_request_queue_pop a.control_requests).0 }) =
        record { keys = v.keys; requests = RequestRing.pop-IsValid v.requests; line = v.line } in
      option_rule HasInputs (control_request_queue_pop a.control_requests).1 (λ _. popped)
        (λ r _.
          execute_requests-HasInputs fuel answers _
            (after (execute-KeepsInputs btstack (answers fuel) r _) popped))

  task-HasInputs :
      (answers : Answers) (later : ℕ → Answers) (input : List ℕ) (connected : Bool) (a : App)
      → HasInputs a
      → HasInputs (bluetooth_task btstack answers later input connected a)
  unfolding bluetooth_task
  task-HasInputs answers later input connected a v =
      let a1 = read_characters input (schedule_keyboard_led_report btstack answers a) in
      let a2 = execute_requests btstack (suc capacity) later a1 in
      let w : HasInputs a2 =
        execute_requests-HasInputs (suc capacity) later a1
          (read_characters-HasInputs input _ (schedule-HasInputs btstack answers a v)) in
      if_rule HasInputs (a2.stack_working && not a2.startup_logged && connected)
        (λ _. record { keys = w.keys; requests = w.requests; line = w.line }) (λ _. w)

  started-HasInputs :
      (stored : Option (ℕ × List ℕ)) → HasInputs (bluetooth_init stored (initial btstack))
  unfolding bluetooth_init load_selected_device initial
  started-HasInputs none = record {
    keys = ReportRing.start-IsValid;
    requests = RequestRing.init-IsValid;
    line = omega arith;
  }
  started-HasInputs (some (size, bytes)) = record {
    keys = ReportRing.start-IsValid;
    requests = RequestRing.init-IsValid;
    line = omega arith;
  }

  -- In every state that the application reaches, if BTstack reports no connection as made that has
  -- the invalid handle, and whatever rounds of the USB task come between: the head and the count of
  -- the ring of keyboard reports and of the queue of requests lie within their arrays, and the line
  -- of text that is being read has at most 31 characters.
  pub Reachable-HasInputs : {a : App} → Reachable btstack a → HasInputs a
  Reachable-HasInputs (started stored) = started-HasInputs stored
  Reachable-HasInputs (handled answers e ok r) =
      handle-HasInputs btstack answers e _ (Reachable-HasInputs r)
  Reachable-HasInputs (polled answers later input connected r) =
      task-HasInputs answers later input connected _ (Reachable-HasInputs r)
  Reachable-HasInputs (submitted q r) = submit-HasInputs q _ (Reachable-HasInputs r)
  Reachable-HasInputs (reported ready accepts r) =
      let v = Reachable-HasInputs r in
      record {
        keys = ReportRing.task-IsValid ready accepts v.keys;
        requests = v.requests;
        line = v.line;
      }
