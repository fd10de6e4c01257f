-- ===== src/Bt/App/Consistent/Link.antt =====
-- The flags and the state after the helpers of bt/bluetooth.c.
use picow_bt_kb_hid.Base.{
  ◌≡◌, ◌≢◌, refl, ap, Bool, true, false, not, ◌&&◌, arith, if_rule, ◌==◌, ◌||◌, ◌+◌,
}
use picow_bt_kb_hid.Bt.Control.{BdAddr}
use picow_bt_kb_hid.Bt.State.{State, idle, inquiry, connecting, ◌==ₛ◌}
use picow_bt_kb_hid.Bt.App.Platform.{Btstack, Answers, inquiry_start}
use picow_bt_kb_hid.Bt.App.Model.{App, emit}
use picow_bt_kb_hid.Bt.App.Link.{
  transition_to_state, disarm_inquiry_timer, start_inquiry, start_idle_timer, restore_saved,
  request_connection, begin_connection, inquiry_timer_handler, disconnect_acl_after_error,
  release_usb_keyboard, reset_hid_channels, cancel_pending_connection,
}
use picow_bt_kb_hid.Bt.App.Link.Shape.{
  transition_shape, disarm_shape, start_idle_timer_shape, restore_saved_shape, keep_pin,
}
use picow_bt_kb_hid.Bt.App.Consistent.{IsConsistent, is_busy, is_linked}

keep_pin_eq : (s : State) (x y : Bool) → x ≡ y → keep_pin s x ≡ keep_pin s y
keep_pin_eq s x y e = ap (keep_pin s) e

-- A PIN is shown exactly while its timer runs.
abbrev pub PinAgrees : App → Type 0
PinAgrees a = a.pairing_pin_pending ≡ a.pairing_pin_timer_armed

module _ (btstack : Btstack) where
  -- To a state outside the attempt, where the retry timer may run and no link is needed.
  pub leave :
      (s : State) (a : App)
      → is_busy s ≡ false
      → PinAgrees a
      → IsConsistent btstack (transition_to_state s a)
  leave s a quiet pin = rw (transition_shape s a) (record {
    agrees = record {
      pin = keep_pin_eq s a.pairing_pin_pending a.pairing_pin_timer_armed pin;
      pending = λ e. ground (arith, quiet, e);
      timer = λ _. quiet;
      link = λ e. ground (arith, quiet, e);
    };
  })

  -- To a state of the attempt, with the retry timer off and what the state needs.
  pub advance :
      (s : State) (a : App)
      → a.inquiry_timer_armed ≡ false
      → (s ≡ connecting → a.connecting_device_valid ≡ true)
      → (is_linked s ≡ true → a.acl_handle ≢ btstack.invalid_handle)
      → PinAgrees a
      → IsConsistent btstack (transition_to_state s a)
  advance s a off target handle pin = rw (transition_shape s a) (record {
    agrees = record {
      pin = keep_pin_eq s a.pairing_pin_pending a.pairing_pin_timer_armed pin;
      pending = target;
      timer = λ e. cc;
      link = handle;
    };
  })

  -- The retry timer is off in a busy state.
  pub timer_off :
      {a : App}
      → IsConsistent btstack a
      → is_busy a.current_state ≡ true
      → a.inquiry_timer_armed ≡ false
  timer_off {a} v busy = off a.inquiry_timer_armed (is_busy a.current_state) v.timer busy
    where
      off : (t b : Bool) → (t ≡ true → b ≡ false) → b ≡ true → t ≡ false
      off t b h e = ground arith

  pub start_idle_timer-IsConsistent :
      (a : App)
      → is_busy a.current_state ≡ false
      → IsConsistent btstack a
      → IsConsistent btstack (start_idle_timer a)
  start_idle_timer-IsConsistent a quiet v = rw (start_idle_timer_shape a) (record {
    agrees = record { pin = v.pin; pending = v.pending; timer = λ _. quiet; link = v.link };
  })

  pub to_idle :
      (a : App) → PinAgrees a → IsConsistent btstack (start_idle_timer (transition_to_state idle a))
  to_idle a pin =
      start_idle_timer-IsConsistent (transition_to_state idle a) (rw (transition_shape idle a) refl)
        (leave idle a refl pin)

  pub disarm-IsConsistent :
      (a : App) → IsConsistent btstack a → IsConsistent btstack (disarm_inquiry_timer a)
  disarm-IsConsistent a v = rw (disarm_shape a) (record {
    agrees = record { pin = v.pin; pending = v.pending; timer = λ e. cc; link = v.link };
  })

  pub start_inquiry-IsConsistent :
      (a : App) → IsConsistent btstack a → IsConsistent btstack (start_inquiry a)
  unfolding start_inquiry
  start_inquiry-IsConsistent a v =
      if_rule (IsConsistent btstack) (not (a.current_state ==ₛ idle)) (λ _. v)
        λ _. emitted (
          advance inquiry (disarm_inquiry_timer a) (rw (disarm_shape a) refl) (λ e. cc) (λ e. cc)
            (disarm-IsConsistent a v).pin)
    where
      emitted :
          {b : App}
          → IsConsistent btstack b
          → IsConsistent btstack
              (emit inquiry_start (record b { inquiry_count = b.inquiry_count + 1 }))
      emitted w = record { agrees = w.agrees }

  pub cancel_pending_connection-IsConsistent :
      (a : App) → IsConsistent btstack a → IsConsistent btstack (cancel_pending_connection a)
  unfolding cancel_pending_connection
  cancel_pending_connection-IsConsistent a v =
      if_rule (IsConsistent btstack)
        (not (a.current_state ==ₛ connecting) || not a.connecting_device_valid) (λ _. v)
        λ _. record { agrees = v.agrees }

  module _ (answers : Answers) where
    pub restore_saved-IsConsistent :
        (address : BdAddr) (a : App)
        → IsConsistent btstack a
        → IsConsistent btstack (restore_saved answers address a)
    restore_saved-IsConsistent address a v =
        rw (restore_saved_shape answers address a) (record { agrees = v.agrees })

    request_connection-IsConsistent :
        (address : BdAddr) (a : App)
        → a.inquiry_timer_armed ≡ false
        → PinAgrees a
        → IsConsistent btstack (request_connection btstack answers address a).0
    unfolding request_connection
    request_connection-IsConsistent address a off pin =
        if_rule (λ (r : App × Bool). IsConsistent btstack r.0)
          (not (answers.create_connection address == btstack.success)) (λ _. to_idle _ started.pin)
          (λ _. record { agrees = started.agrees })
      where
        target : App
        target = record a {
          connecting_device_addr = address;
          connecting_device_valid = true;
          connection_cancel_requested = false;
        }

        started : IsConsistent btstack (transition_to_state connecting target)
        started = advance connecting target off (λ _. refl) (λ e. cc) pin

    pub begin_connection-IsConsistent :
        (address : BdAddr) (a : App)
        → IsConsistent btstack a
        → IsConsistent btstack (begin_connection btstack answers address a).0
    unfolding begin_connection
    begin_connection-IsConsistent address a v =
        if_rule (λ (r : App × Bool). IsConsistent btstack r.0)
          (not (a.current_state ==ₛ idle) && not (a.current_state ==ₛ inquiry)) (λ _. v)
          λ _.
            request_connection-IsConsistent address _
              (rw (restore_saved_shape answers address (disarm_inquiry_timer a), disarm_shape a)
                refl)
              (restore_saved-IsConsistent address (disarm_inquiry_timer a)
                (disarm-IsConsistent a v)).pin

    pub inquiry_timer_handler-IsConsistent :
        (a : App)
        → IsConsistent btstack a
        → IsConsistent btstack (inquiry_timer_handler btstack answers a)
    unfolding inquiry_timer_handler
    inquiry_timer_handler-IsConsistent a v =
        let w : IsConsistent btstack (record a { inquiry_timer_armed = false }) = record {
          agrees = record { pin = v.pin; pending = v.pending; timer = λ e. cc; link = v.link };
        } in
        if_rule (IsConsistent btstack)
          (a.current_state ==ₛ idle && a.auto_connect_enabled && a.selected_device_valid)
          (λ _. begin_connection-IsConsistent a.selected_device_addr _ w) (λ _. w)

    pub disconnect_acl_after_error-IsConsistent :
        (a : App)
        → IsConsistent btstack a
        → IsConsistent btstack (disconnect_acl_after_error btstack answers a)
    unfolding disconnect_acl_after_error release_usb_keyboard reset_hid_channels
    disconnect_acl_after_error-IsConsistent a v =
        if_rule (IsConsistent btstack) (not (a.acl_handle == btstack.invalid_handle))
          (λ _. record { agrees = v.agrees }) (λ _. to_idle _ v.pin)
