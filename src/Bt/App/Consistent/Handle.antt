-- ===== src/Bt/App/Consistent/Handle.antt =====
-- The flags and the state of bt/bluetooth.c after an event.
use picow_bt_kb_hid.Base.{ltb, ℕ, ◌≡◌, ◌≢◌, refl, true, not, ◌&&◌, ◌||◌, if_rule, ◌==◌, leb, ◌⊎◌}
use picow_bt_kb_hid.Bt.Control.{BdAddr}
use picow_bt_kb_hid.Bt.State.{authenticating, disconnected, ◌==ₛ◌}
use picow_bt_kb_hid.Bt.App.Platform.{
  Btstack, Answers, LinkKey, Event, pin_code_reply, add_pin_timer,
}
use picow_bt_kb_hid.Bt.App.Model.{App, emit}
use picow_bt_kb_hid.Bt.App.Link.{
  is_some, release_usb_keyboard, reset_hid_channels, pairing_pin_timeout, show_pairing_pin,
  clear_pairing_pin, disconnect_acl_after_error,
}
use picow_bt_kb_hid.Bt.App.Link.Shape.{clear_pairing_pin_shape}
use picow_bt_kb_hid.Bt.App.Pairing.{
  is_verified, on_pin_code_request, on_link_key_request, on_link_key_notification,
}
use picow_bt_kb_hid.Bt.App.Events.{
  handle_disconnected_state, on_security_level, on_authentication_complete, on_encryption_change,
  on_disconnection_complete, handle,
}
use picow_bt_kb_hid.Bt.App.Consistent.{IsConsistent}
use picow_bt_kb_hid.Bt.App.Consistent.Link.{
  leave, to_idle, inquiry_timer_handler-IsConsistent, disconnect_acl_after_error-IsConsistent,
}
use picow_bt_kb_hid.Bt.App.Consistent.Hid.{
  start_sdp-IsConsistent, data_packet-IsConsistent, sdp_attribute-IsConsistent,
  sdp_complete-IsConsistent,
}
use picow_bt_kb_hid.Bt.App.Consistent.Events.{
  btstack_state-IsConsistent, inquiry_result-IsConsistent, inquiry_complete-IsConsistent,
  connection_complete-IsConsistent,
}
use picow_bt_kb_hid.Bt.App.Consistent.Channel.{
  channel_opened-IsConsistent, can_send_now-IsConsistent, channel_closed-IsConsistent,
}

-- A connection that BTstack reports as made has a handle: `HCI_CON_HANDLE_INVALID` is none.
abbrev pub HandleOk : Btstack → Event → Type 0
HandleOk btstack (Event.connection_complete status h address) =
    (status ≡ 0) ⊎ (status ≡ btstack.success) → h ≢ btstack.invalid_handle
HandleOk btstack _ = Unit

module _ (btstack : Btstack) (answers : Answers) where
  abbrev Good : App → Type 0
  Good = IsConsistent btstack

  fails : (a : App) → Good a → Good (disconnect_acl_after_error btstack answers a)
  fails a v = disconnect_acl_after_error-IsConsistent btstack answers a v

  security_level-IsConsistent :
      (h status level : ℕ) (a : App)
      → Good a
      → Good (on_security_level btstack answers h status level a)
  unfolding on_security_level
  security_level-IsConsistent h status level a v =
      if_rule Good (not (h == a.acl_handle) || not (a.current_state ==ₛ authenticating)) (λ _. v)
        λ _.
          if_rule Good (status == btstack.success && leb btstack.level_2 level)
            (λ _. start_sdp-IsConsistent btstack answers a v) (λ _. fails a v)

  authentication-IsConsistent :
      (h status : ℕ) (a : App)
      → Good a
      → Good (on_authentication_complete btstack answers h status a)
  unfolding on_authentication_complete
  authentication-IsConsistent h status a v =
      if_rule Good
        (h == a.acl_handle && a.current_state ==ₛ authenticating && not (status == btstack.success))
        (λ _. fails a v) (λ _. v)

  encryption-IsConsistent :
      (h status enabled : ℕ) (a : App)
      → Good a
      → Good (on_encryption_change btstack answers h status enabled a)
  unfolding on_encryption_change
  encryption-IsConsistent h status enabled a v =
      if_rule Good (not (h == a.acl_handle) || not (a.current_state ==ₛ authenticating)) (λ _. v)
        λ _.
          if_rule Good (status == btstack.success && not (enabled == 0))
            (λ _. start_sdp-IsConsistent btstack answers a v) (λ _. fails a v)

  disconnection-IsConsistent :
      (a : App) → Good a → Good (on_disconnection_complete btstack answers a)
  unfolding on_disconnection_complete handle_disconnected_state release_usb_keyboard
      reset_hid_channels
  disconnection-IsConsistent a v = to_idle btstack _ (leave btstack disconnected a refl v.pin).pin

  pin_code-IsConsistent :
      (address : BdAddr) (a : App) → Good a → Good (on_pin_code_request answers address a)
  unfolding on_pin_code_request show_pairing_pin
  pin_code-IsConsistent address a v = shown (
      if_rule Good (is_some (answers.link_key address)) (λ _. record { agrees = v.agrees })
        (λ _. v))
    where
      shown :
          {b : App}
          → Good b
          → Good (
              emit (pin_code_reply address) (
                emit add_pin_timer (record (clear_pairing_pin b) {
                  pairing_pin_pending = true;
                  pairing_pin_timer_armed = true;
                })))
      shown {b} w = rw (clear_pairing_pin_shape b) (record {
        agrees = record { pin = refl; pending = w.pending; timer = w.timer; link = w.link };
      })

  link_key-IsConsistent :
      (size : ℕ) (address : BdAddr) (notified : LinkKey) (a : App)
      → Good a
      → Good (on_link_key_notification answers size address notified a)
  unfolding on_link_key_notification
  link_key-IsConsistent size address notified a v =
      if_rule Good (ltb size 25) (λ _. v)
        λ _.
          if_rule Good (is_verified (answers.link_key address) notified)
            (λ _. record { agrees = v.agrees }) (λ _. record { agrees = v.agrees })

  -- Whatever BTstack answers, an event that respects `HandleOk` keeps this: a PIN is displayed
  -- exactly while its timer runs, a pending connection can be cancelled, the retry timer is off
  -- during an inquiry or a connection attempt, and a link that is being secured or searched has a
  -- handle.
  pub handle-IsConsistent :
      (e : Event) (a : App)
      → HandleOk btstack e
      → IsConsistent btstack a
      → IsConsistent btstack (handle btstack answers e a)
  unfolding handle on_link_key_request pairing_pin_timeout
  handle-IsConsistent (Event.btstack_state working) a ok v =
      btstack_state-IsConsistent btstack answers working a v
  handle-IsConsistent (Event.inquiry_result address has_rssi rssi cod name n) a ok v =
      inquiry_result-IsConsistent btstack answers address has_rssi rssi cod name n a v
  handle-IsConsistent Event.inquiry_complete a ok v =
      inquiry_complete-IsConsistent btstack answers a v
  handle-IsConsistent (Event.connection_complete status h address) a ok v =
      connection_complete-IsConsistent btstack answers status h address a ok v
  handle-IsConsistent (Event.channel_opened status psm cid) a ok v =
      channel_opened-IsConsistent btstack answers status psm cid a v
  handle-IsConsistent (Event.can_send_now cid) a ok v =
      can_send_now-IsConsistent btstack answers cid a v
  handle-IsConsistent (Event.channel_closed cid) a ok v =
      channel_closed-IsConsistent btstack answers cid a v
  handle-IsConsistent (Event.security_level h status level) a ok v =
      security_level-IsConsistent h status level a v
  handle-IsConsistent (Event.authentication_complete h status) a ok v =
      authentication-IsConsistent h status a v
  handle-IsConsistent (Event.encryption_change h status enabled) a ok v =
      encryption-IsConsistent h status enabled a v
  handle-IsConsistent (Event.disconnection_complete h) a ok v = disconnection-IsConsistent a v
  handle-IsConsistent (Event.pin_code_request address) a ok v = pin_code-IsConsistent address a v
  handle-IsConsistent (Event.link_key_request address) a ok v = record { agrees = v.agrees }
  handle-IsConsistent (Event.link_key_notification size address notified) a ok v =
      link_key-IsConsistent size address notified a v
  handle-IsConsistent (Event.data_packet channel packet) a ok v =
      data_packet-IsConsistent btstack answers channel packet a v
  handle-IsConsistent (Event.sdp_attribute_value id len off byte) a ok v =
      sdp_attribute-IsConsistent btstack answers id len off byte a v
  handle-IsConsistent (Event.sdp_query_complete status) a ok v =
      sdp_complete-IsConsistent btstack answers status a v
  handle-IsConsistent Event.inquiry_timer_fired a ok v =
      inquiry_timer_handler-IsConsistent btstack answers a v
  handle-IsConsistent Event.pin_timer_fired a ok v = record {
    agrees = record { pin = refl; pending = v.pending; timer = v.timer; link = v.link };
  }
  handle-IsConsistent (Event.set_leds leds) a ok v = record { agrees = v.agrees }
  handle-IsConsistent Event.other a ok v = v
