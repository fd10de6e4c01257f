-- ===== src/Bt/App/Kept/Requests.antt =====
-- bt/bluetooth.c: what executing a request leaves alone.
use picow_bt_kb_hid.Base.{
  ◌≡◌, inl, inr, refl, sym, ◌∙◌, true, false, not, ◌&&◌, ◌||◌, ◌==◌, if_rule, option_rule,
}
use mathlib.Core.Path.{subst}
use picow_bt_kb_hid.Bt.Control.{BdAddr, Action, Request}
use picow_bt_kb_hid.Usb.Keyboard.Refine.{IsValid, release_all-IsValid}
use picow_bt_kb_hid.Bt.State.{idle, inquiry, connecting, ◌==ₛ◌}
use picow_bt_kb_hid.Bt.Devices.{device_manager_find}
use picow_bt_kb_hid.Bt.App.Platform.{Btstack, Answers}
use picow_bt_kb_hid.Bt.App.Model.{App}
use picow_bt_kb_hid.Bt.App.Link.{
  start_inquiry, cancel_pending_connection, store_selected_device, delete_selected_device,
  disarm_inquiry_timer,
}
use picow_bt_kb_hid.Bt.App.Events.{is_hid_supported}
use picow_bt_kb_hid.Bt.App.Requests.{
  request_scan, reconnect_target, request_connect, request_disconnect, request_reconnect,
  request_forget, execute_action, execute_control_request,
}
use picow_bt_kb_hid.Bt.App.Kept.{Kept}
use picow_bt_kb_hid.Bt.App.Kept.Link.{
  transition-Kept, disarm-Kept, store-Kept, begin_connection-Kept,
}
use picow_bt_kb_hid.Bt.App.Kept.Events.{adopt_target-Kept}

-- The inputs that wait: the queue of requests and the line of text are the same, and the ring of
-- reports stays valid.
pub record KeepsInputs (a b : App) : Type 0 where
  pub same : b.control_requests ≡ a.control_requests
  pub line : b.command ≡ a.command
  pub keys : IsValid a.keyboard → IsValid b.keyboard

-- The reports of a state that keeps its events' share.
pub keys-IsValid : {a b : App} → Kept a b → IsValid a.keyboard → IsValid b.keyboard
keys-IsValid k v = elim k.keys_stay [
  | inl e ↦ subst IsValid (sym e) v
  | inr e ↦ subst IsValid (sym e) (release_all-IsValid v)
]

joined : {a b c : App} → KeepsInputs a b → KeepsInputs b c → KeepsInputs a c
joined v w = record {
  same = w.same ∙ v.same;
  line = w.line ∙ v.line;
  keys = λ k. w.keys (v.keys k);
}

pub Kept-KeepsInputs : {a b : App} → Kept a b → KeepsInputs a b
Kept-KeepsInputs v = record { same = v.requests_stay; line = v.line_stays; keys = keys-IsValid v }

start_inquiry-KeepsInputs : (a : App) → KeepsInputs a (start_inquiry a)
unfolding start_inquiry
start_inquiry-KeepsInputs a =
    if_rule (KeepsInputs a) (not (a.current_state ==ₛ idle))
      (λ _. record { same = refl; line = refl; keys = λ v. v })
      (λ _. joined (Kept-KeepsInputs (disarm-Kept a)) (
        joined (Kept-KeepsInputs (transition-Kept inquiry (disarm_inquiry_timer a)))
          (record { same = refl; line = refl; keys = λ v. v })))

cancel-KeepsInputs : (a : App) → KeepsInputs a (cancel_pending_connection a)
unfolding cancel_pending_connection
cancel-KeepsInputs a =
    if_rule (KeepsInputs a) (not (a.current_state ==ₛ connecting) || not a.connecting_device_valid)
      (λ _. record { same = refl; line = refl; keys = λ v. v })
      (λ _. record { same = refl; line = refl; keys = λ v. v })

module _ (btstack : Btstack) (answers : Answers) where
  scan-KeepsInputs : (a : App) → KeepsInputs a (request_scan a)
  unfolding request_scan
  scan-KeepsInputs a =
      if_rule (KeepsInputs a) (not (a.current_state ==ₛ idle))
        (λ _. record { same = refl; line = refl; keys = λ v. v })
        (λ _.
          joined (record { same = refl; line = refl; keys = λ v. v }) (start_inquiry-KeepsInputs _))

  connect-KeepsInputs :
      (address : BdAddr) (a : App) → KeepsInputs a (request_connect btstack answers address a)
  unfolding request_connect
  connect-KeepsInputs address a =
      let a0 = record a {
        selected_device_addr = address;
        selected_device_valid = true;
        auto_connect_enabled = true;
      } in
      let stored = store-Kept answers a0 in
      if_rule (KeepsInputs a) (not (is_hid_supported (device_manager_find a.devices address)))
        (λ _. record { same = refl; line = refl; keys = λ v. v })
        λ _.
          if_rule (KeepsInputs a) (not (a.current_state ==ₛ idle))
            (λ _. record { same = refl; line = refl; keys = λ v. v })
            (λ _.
              joined
                (record {
                  same = stored.requests_stay;
                  line = stored.line_stays;
                  keys = keys-IsValid stored;
                })
                (Kept-KeepsInputs (
                  begin_connection-Kept btstack answers
                    (store_selected_device answers a0).selected_device_addr
                    (store_selected_device answers a0) stored.policy)))

  disconnect-KeepsInputs : (a : App) → KeepsInputs a (request_disconnect btstack answers a)
  unfolding request_disconnect
  disconnect-KeepsInputs a =
      if_rule (KeepsInputs a) (not (a.acl_handle == btstack.invalid_handle))
        (λ _. record { same = refl; line = refl; keys = λ v. v })
        λ _.
          if_rule (KeepsInputs a) (a.current_state ==ₛ connecting && a.connecting_device_valid)
            (λ _.
              joined (record { same = refl; line = refl; keys = λ v. v }) (cancel-KeepsInputs _))
            (λ _. record { same = refl; line = refl; keys = λ v. v })

  reconnect-KeepsInputs : (a : App) → KeepsInputs a (request_reconnect btstack answers a)
  unfolding request_reconnect
  reconnect-KeepsInputs a =
      let a1 = record a { auto_connect_enabled = true } in
      if_rule (KeepsInputs a) (not (a1.acl_handle == btstack.invalid_handle))
        (λ _. record { same = refl; line = refl; keys = λ v. v })
        λ _.
          if_rule (KeepsInputs a) (not (a1.current_state ==ₛ idle))
            (λ _. record { same = refl; line = refl; keys = λ v. v })
            λ _.
              option_rule (KeepsInputs a) (reconnect_target a1)
                (λ _.
                  joined (record { same = refl; line = refl; keys = λ v. v })
                    (start_inquiry-KeepsInputs a1))
                λ target _.
                  let adopted = adopt_target-Kept btstack answers target a1 in
                  joined
                    (record {
                      same = adopted.requests_stay;
                      line = adopted.line_stays;
                      keys = keys-IsValid adopted;
                    })
                    (Kept-KeepsInputs
                      (begin_connection-Kept btstack answers target _ adopted.policy))

  forget-KeepsInputs : (a : App) → KeepsInputs a (request_forget btstack answers a)
  unfolding request_forget delete_selected_device
  forget-KeepsInputs a =
      let a0 = record a { auto_connect_enabled = false; selected_device_valid = false } in
      let deleted : KeepsInputs a (delete_selected_device answers a0) =
        if_rule (KeepsInputs a) answers.has_tlv
          (λ _. record { same = refl; line = refl; keys = λ v. v })
          (λ _. record { same = refl; line = refl; keys = λ v. v }) in
      if_rule (KeepsInputs a)
        (not ((delete_selected_device answers a0).acl_handle == btstack.invalid_handle))
        (λ _. record { same = deleted.same; line = deleted.line; keys = deleted.keys })
        (λ _.
          joined (record { same = deleted.same; line = deleted.line; keys = deleted.keys })
            (cancel-KeepsInputs _))

  pub execute-KeepsInputs :
      (r : Request) (a : App) → KeepsInputs a (execute_control_request btstack answers r a)
  unfolding execute_control_request execute_action
  execute-KeepsInputs r a = of_action r.action
    where
      of_action :
          (action : Action) → KeepsInputs a (execute_action btstack answers action r.address a)
      of_action Action.help = record { same = refl; line = refl; keys = λ v. v }
      of_action Action.status = record { same = refl; line = refl; keys = λ v. v }
      of_action Action.scan = scan-KeepsInputs a
      of_action Action.connect = connect-KeepsInputs r.address a
      of_action Action.disconnect = disconnect-KeepsInputs a
      of_action Action.reconnect = reconnect-KeepsInputs a
      of_action Action.forget = forget-KeepsInputs a
