-- ===== src/Bt/App/Kept/Handle.antt =====
-- What `hci_event_handler` and the other callbacks of bt/bluetooth.c leave alone.
use picow_bt_kb_hid.Base.{
  ℕ, ◌≡◌, refl, not, ◌&&◌, ◌||◌, if◌then◌else◌, arith, if_rule, ◌==◌, List, leb, bit_and, ◌⊎◌, inl,
  inr, ltb, ◌∙◌,
}
use picow_bt_kb_hid.Bt.Control.{BdAddr}
use picow_bt_kb_hid.Bt.State.{authenticating, disconnected, ◌==ₛ◌}
use picow_bt_kb_hid.Bt.Channels.{
  HidChannels, closed_none, closed_interrupt, hid_channels_closed, hid_channels_reset_connection,
}
use picow_bt_kb_hid.Usb.Keyboard.{keyboard_release_all}
use picow_bt_kb_hid.Bt.App.Platform.{Btstack, Answers, LinkKey, Event}
use picow_bt_kb_hid.Bt.App.Model.{App}
use picow_bt_kb_hid.Bt.App.Link.{
  is_some, release_usb_keyboard, reset_hid_channels, pairing_pin_timeout, show_pairing_pin,
}
use picow_bt_kb_hid.Bt.App.Hid.{sdp_attribute_byte}
use picow_bt_kb_hid.Bt.App.Pairing.{
  is_verified, on_pin_code_request, on_link_key_request, on_link_key_notification,
}
use picow_bt_kb_hid.Bt.App.Events.{
  handle_disconnected_state, on_channel_closed, on_security_level, on_authentication_complete,
  on_encryption_change, on_disconnection_complete, handle,
}
use picow_bt_kb_hid.Bt.App.Kept.{Kept, Kept-refl, Kept-trans, unchanged, freed}
use picow_bt_kb_hid.Bt.App.Kept.Link.{
  transition-Kept, disconnect_acl_after_error-Kept, clear_pairing_pin-Kept, idle-Kept,
  inquiry_timer_handler-Kept,
}
use picow_bt_kb_hid.Bt.App.Kept.Hid.{start_sdp-Kept, sdp_complete-Kept}
use picow_bt_kb_hid.Bt.App.Kept.Events.{
  btstack_state-Kept, inquiry_result-Kept, inquiry_complete-Kept, connection_complete-Kept,
  channel_opened-Kept,
}

-- A closed channel leaves the LED state and its pending report.
closed_leds :
    (c : HidChannels) (cid : ℕ)
    → ((hid_channels_closed c cid).0.led_state ≡ c.led_state)
      × ((hid_channels_closed c cid).0.led_report_pending ≡ c.led_report_pending)
unfolding hid_channels_closed
closed_leds c cid = ground arith

module _ (btstack : Btstack) (answers : Answers) where
  channel_closed-Kept : (cid : ℕ) (a : App) → Kept a (on_channel_closed btstack answers cid a)
  unfolding on_channel_closed release_usb_keyboard
  channel_closed-Kept cid a =
      let (c, closed) = hid_channels_closed a.hid_channels cid in
      let a1 = record a { hid_channels = c } in
      let leds = closed_leds a.hid_channels cid in
      let first : Kept a a1 = record {
        keeps = record {
          policy = refl;
          quiet = λ _. refl;
          leds_stay = leds.0;
          leds_wait = λ e. leds.1 ∙ e;
          keys_stay = inl refl;
          requests_stay = refl;
          line_stays = refl;
        };
      } in
      let a2 =
        if not (bit_and closed closed_interrupt == 0)
        then record a1 { keyboard = keyboard_release_all a1.keyboard }
        else a1 in
      let second : Kept a a2 = Kept-trans first (
        if_rule (Kept a1) (not (bit_and closed closed_interrupt == 0))
          (λ _. record { keeps = freed }) (λ _. Kept-refl a1)) in
      if_rule (Kept a)
        (not (closed == closed_none)
          && not (a2.current_state ==ₛ disconnected)
          && not (a2.acl_handle == btstack.invalid_handle))
        (λ _. Kept-trans second (record { keeps = unchanged })) (λ _. second)

  security_level-Kept :
      (h status level : ℕ) (a : App) → Kept a (on_security_level btstack answers h status level a)
  unfolding on_security_level
  security_level-Kept h status level a =
      if_rule (Kept a) (not (h == a.acl_handle) || not (a.current_state ==ₛ authenticating))
        (λ _. Kept-refl a)
        λ _.
          if_rule (Kept a) (status == btstack.success && leb btstack.level_2 level)
            (λ _. start_sdp-Kept btstack answers a)
            (λ _. disconnect_acl_after_error-Kept btstack answers a)

  authentication-Kept :
      (h status : ℕ) (a : App) → Kept a (on_authentication_complete btstack answers h status a)
  unfolding on_authentication_complete
  authentication-Kept h status a =
      if_rule (Kept a)
        (h == a.acl_handle && a.current_state ==ₛ authenticating && not (status == btstack.success))
        (λ _. disconnect_acl_after_error-Kept btstack answers a) (λ _. Kept-refl a)

  encryption-Kept :
      (h status enabled : ℕ) (a : App)
      → Kept a (on_encryption_change btstack answers h status enabled a)
  unfolding on_encryption_change
  encryption-Kept h status enabled a =
      if_rule (Kept a) (not (h == a.acl_handle) || not (a.current_state ==ₛ authenticating))
        (λ _. Kept-refl a)
        λ _.
          if_rule (Kept a) (status == btstack.success && not (enabled == 0))
            (λ _. start_sdp-Kept btstack answers a)
            (λ _. disconnect_acl_after_error-Kept btstack answers a)

  disconnection-Kept : (a : App) → Kept a (on_disconnection_complete btstack answers a)
  unfolding on_disconnection_complete handle_disconnected_state release_usb_keyboard
      reset_hid_channels hid_channels_reset_connection
  disconnection-Kept a =
      Kept-trans (transition-Kept disconnected a)
        (Kept-trans (record { keeps = freed }) (idle-Kept _))

  pin_code-Kept : (address : BdAddr) (a : App) → Kept a (on_pin_code_request answers address a)
  unfolding on_pin_code_request show_pairing_pin
  pin_code-Kept address a =
      Kept-trans
        (if_rule (Kept a) (is_some (answers.link_key address)) (λ _. record { keeps = unchanged })
          (λ _. Kept-refl a))
        (Kept-trans (clear_pairing_pin-Kept _) (record { keeps = unchanged }))

  link_key-Kept :
      (size : ℕ) (address : BdAddr) (notified : LinkKey) (a : App)
      → Kept a (on_link_key_notification answers size address notified a)
  unfolding on_link_key_notification
  link_key-Kept size address notified a =
      if_rule (Kept a) (ltb size 25) (λ _. Kept-refl a)
        λ _.
          if_rule (Kept a) (is_verified (answers.link_key address) notified)
            (λ _. record { keeps = unchanged }) (λ _. record { keeps = unchanged })

  -- An event keeps all this, but for three kinds of them.
  abbrev pub Cases : Event → App → Type 0
  Cases e a =
      Kept a (handle btstack answers e a)
      ⊎ ((leds : ℕ) × (e ≡ Event.set_leds leds))
      ⊎ ((cid : ℕ) × (e ≡ Event.can_send_now cid))
      ⊎ ((channel : ℕ) × (packet : List ℕ) × (e ≡ Event.data_packet channel packet))

  pub handle_split : (e : Event) (a : App) → Cases e a
  unfolding handle on_link_key_request pairing_pin_timeout sdp_attribute_byte
  handle_split (Event.btstack_state working) a = inl (btstack_state-Kept btstack answers working a)
  handle_split (Event.inquiry_result address has_rssi rssi cod name n) a =
      inl (inquiry_result-Kept btstack answers address has_rssi rssi cod name n a)
  handle_split Event.inquiry_complete a = inl (inquiry_complete-Kept btstack answers a)
  handle_split (Event.connection_complete status h address) a =
      inl (connection_complete-Kept btstack answers status h address a)
  handle_split (Event.channel_opened status psm cid) a =
      inl (channel_opened-Kept btstack answers status psm cid a)
  handle_split (Event.can_send_now cid) a = inr (inr (inl (cid, refl)))
  handle_split (Event.channel_closed cid) a = inl (channel_closed-Kept cid a)
  handle_split (Event.security_level h status level) a = inl (security_level-Kept h status level a)
  handle_split (Event.authentication_complete h status) a = inl (authentication-Kept h status a)
  handle_split (Event.encryption_change h status enabled) a =
      inl (encryption-Kept h status enabled a)
  handle_split (Event.disconnection_complete h) a = inl (disconnection-Kept a)
  handle_split (Event.pin_code_request address) a = inl (pin_code-Kept address a)
  handle_split (Event.link_key_request address) a = inl (record { keeps = unchanged })
  handle_split (Event.link_key_notification size address notified) a =
      inl (link_key-Kept size address notified a)
  handle_split (Event.data_packet channel packet) a = inr (inr (inr (channel, packet, refl)))
  handle_split (Event.sdp_attribute_value id len off byte) a = inl (record { keeps = unchanged })
  handle_split (Event.sdp_query_complete status) a =
      inl (sdp_complete-Kept btstack answers status a)
  handle_split Event.inquiry_timer_fired a = inl (inquiry_timer_handler-Kept btstack answers a)
  handle_split Event.pin_timer_fired a = inl (record { keeps = unchanged })
  handle_split (Event.set_leds leds) a = inr (inl (leds, refl))
  handle_split Event.other a = inl (Kept-refl a)
