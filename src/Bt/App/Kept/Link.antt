-- ===== src/Bt/App/Kept/Link.antt =====
-- What the helpers of bt/bluetooth.c leave alone.
use picow_bt_kb_hid.Base.{◌≡◌, Bool, true, false, not, ◌&&◌, ◌||◌, if_rule, ◌==◌, arith, ◌∙◌}
use picow_bt_kb_hid.Bt.Control.{BdAddr}
use picow_bt_kb_hid.Bt.Channels.{hid_channels_reset_connection}
use picow_bt_kb_hid.Bt.State.{
  State, idle, inquiry, connecting, authenticating, ◌==ₛ◌, bt_state_transition_allowed,
}
use picow_bt_kb_hid.Bt.App.Platform.{Btstack, Answers, create_connection}
use picow_bt_kb_hid.Bt.App.Model.{App, emit}
use picow_bt_kb_hid.Bt.App.Link.{
  clear_pairing_pin, enter_state, transition_to_state, disarm_inquiry_timer, start_idle_timer,
  restore_saved, request_connection, begin_connection, inquiry_timer_handler,
  disconnect_acl_after_error, release_usb_keyboard, reset_hid_channels, store_selected_device,
}
use picow_bt_kb_hid.Bt.App.Link.Shape.{restore_saved_shape}
use picow_bt_kb_hid.Bt.App.Kept.{Kept, Kept-refl, Kept-trans, unchanged, freed}

pub clear_pairing_pin-Kept : (a : App) → Kept a (clear_pairing_pin a)
unfolding clear_pairing_pin
clear_pairing_pin-Kept a =
    if_rule (Kept a) a.pairing_pin_timer_armed (λ _. record { keeps = unchanged })
      (λ _. record { keeps = unchanged })

enter_state-Kept : (s : State) (a : App) → Kept a (enter_state s a)
unfolding enter_state
enter_state-Kept s a =
    if_rule (Kept a) (not (a.current_state ==ₛ s))
      (λ _.
        if_rule (Kept a) (not (bt_state_transition_allowed a.current_state s))
          (λ _. record { keeps = unchanged }) (λ _. record { keeps = unchanged }))
      (λ _. Kept-refl a)

pub transition-Kept : (s : State) (a : App) → Kept a (transition_to_state s a)
unfolding transition_to_state
transition-Kept s a =
    Kept-trans
      (if_rule (Kept a) (not (s ==ₛ authenticating)) (λ _. clear_pairing_pin-Kept a)
        (λ _. Kept-refl a))
      (enter_state-Kept s _)

pub disarm-Kept : (a : App) → Kept a (disarm_inquiry_timer a)
unfolding disarm_inquiry_timer
disarm-Kept a =
    if_rule (Kept a) a.inquiry_timer_armed (λ _. record { keeps = unchanged }) (λ _. Kept-refl a)

pub start_idle_timer-Kept : (a : App) → Kept a (start_idle_timer a)
unfolding start_idle_timer
start_idle_timer-Kept a =
    if_rule (Kept a) (not a.auto_connect_enabled || not a.selected_device_valid) (λ _. Kept-refl a)
      λ _.
        if_rule (Kept a) a.inquiry_timer_armed (λ _. Kept-refl a)
          (λ _. record { keeps = unchanged })

-- Back to `Idle`.
pub idle-Kept : (a : App) → Kept a (start_idle_timer (transition_to_state idle a))
idle-Kept a = Kept-trans (transition-Kept idle a) (start_idle_timer-Kept _)

restore_saved-Kept :
    (answers : Answers) (address : BdAddr) (a : App) → Kept a (restore_saved answers address a)
restore_saved-Kept answers address a =
    rw (restore_saved_shape answers address a) (record { keeps = unchanged })

pub store-Kept : (answers : Answers) (a : App) → Kept a (store_selected_device answers a)
unfolding store_selected_device
store-Kept answers a =
    if_rule (Kept a) answers.has_tlv (λ _. record { keeps = unchanged }) (λ _. Kept-refl a)

module _ (btstack : Btstack) (answers : Answers) where
  request_connection-Kept :
      (address : BdAddr) (a : App)
      → a.auto_connect_enabled ≡ true
      → Kept a (request_connection btstack answers address a).0
  unfolding request_connection
  request_connection-Kept address a auto =
      let target = record a {
        connecting_device_addr = address;
        connecting_device_valid = true;
        connection_cancel_requested = false;
      } in
      let t = transition-Kept connecting target in
      let sent : Kept a (emit (create_connection address) (transition_to_state connecting target)) =
        record {
          keeps = record {
            policy = t.policy;
            quiet = λ e. cc;
            leds_stay = t.leds_stay;
            leds_wait = t.leds_wait;
            keys_stay = t.keys_stay;
            requests_stay = t.requests_stay;
            line_stays = t.line_stays;
          };
        } in
      if_rule (λ (r : App × Bool). Kept a r.0)
        (not (answers.create_connection address == btstack.success))
        (λ _. Kept-trans sent (Kept-trans (record { keeps = unchanged }) (idle-Kept _))) (λ _. sent)

  -- A connection begins only where automatic connections are wanted.
  pub begin_connection-Kept :
      (address : BdAddr) (a : App)
      → a.auto_connect_enabled ≡ true
      → Kept a (begin_connection btstack answers address a).0
  unfolding begin_connection
  begin_connection-Kept address a auto =
      if_rule (λ (r : App × Bool). Kept a r.0)
        (not (a.current_state ==ₛ idle) && not (a.current_state ==ₛ inquiry)) (λ _. Kept-refl a)
        λ _.
          let ready =
            Kept-trans (disarm-Kept a)
              (restore_saved-Kept answers address (disarm_inquiry_timer a)) in
          Kept-trans ready (request_connection-Kept address _ (ready.policy ∙ auto))

  pub inquiry_timer_handler-Kept : (a : App) → Kept a (inquiry_timer_handler btstack answers a)
  unfolding inquiry_timer_handler
  inquiry_timer_handler-Kept a =
      let a1 = record a { inquiry_timer_armed = false } in
      let fired : Kept a a1 = record { keeps = unchanged } in
      if_rule (Kept a)
        (a.current_state ==ₛ idle && a.auto_connect_enabled && a.selected_device_valid)
        (λ e. Kept-trans fired (
          begin_connection-Kept a.selected_device_addr a1
            (wanted (a.current_state ==ₛ idle) a.auto_connect_enabled a.selected_device_valid e)))
        (λ _. fired)
    where
      wanted : (x y z : Bool) → (x && y && z) ≡ true → y ≡ true
      wanted x y z e = ground arith

  pub disconnect_acl_after_error-Kept :
      (a : App) → Kept a (disconnect_acl_after_error btstack answers a)
  unfolding disconnect_acl_after_error release_usb_keyboard reset_hid_channels
      hid_channels_reset_connection
  disconnect_acl_after_error-Kept a =
      if_rule (Kept a) (not (a.acl_handle == btstack.invalid_handle))
        (λ _. record { keeps = freed }) (λ _. Kept-trans (record { keeps = freed }) (idle-Kept _))
