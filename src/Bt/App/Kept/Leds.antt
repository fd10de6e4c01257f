-- ===== src/Bt/App/Kept/Leds.antt =====
-- bt/bluetooth.c: the LED report that waits.
use picow_bt_kb_hid.Base.{◌∷◌, ℕ, ◌≡◌, ◌≢◌, refl, true, ◌&&◌, if_rule, ◌==◌, ==_iff, ◌⊎◌, inl, inr}
use picow_bt_kb_hid.Bt.BootReport.{hid_boot_keyboard_output_packet}
use picow_bt_kb_hid.Bt.App.Platform.{Btstack, Answers, Event}
use picow_bt_kb_hid.Bt.App.Model.{App}
use picow_bt_kb_hid.Bt.App.Events.{send_led_report, on_can_send_now, handle}
use picow_bt_kb_hid.Bt.App.Kept.{Kept, Kept-refl}
use picow_bt_kb_hid.Bt.App.Kept.Handle.{handle_split}
use picow_bt_kb_hid.Bt.App.Kept.Events.{send_boot_protocol-Kept}
use picow_bt_kb_hid.Bt.App.Platform.{send}
use picow_bt_kb_hid.Bt.App.Kept.Forward.{data_packet_split}

module _ (btstack : Btstack) (answers : Answers) where
  -- From one state to another the LED state stays, and a report that is due stays due unless the
  -- report of this LED state is sent on the control channel and BTstack takes it.
  record LedsHold (a b : App) : Type 0 where
    state : b.hid_channels.led_state ≡ a.hid_channels.led_state
    due :
        a.hid_channels.led_report_pending ≡ true
        → (b.hid_channels.led_report_pending ≡ true)
          ⊎ ((answers.l2cap_send a.hid_channels.control_cid
                  (hid_boot_keyboard_output_packet a.hid_channels.led_state)
                ≡ btstack.success)
              × (b.effects
                  ≡ send a.hid_channels.control_cid
                      (hid_boot_keyboard_output_packet a.hid_channels.led_state)
                    ∷ a.effects))

  Kept-LedsHold : {a b : App} → Kept a b → LedsHold a b
  Kept-LedsHold v = record { state = v.leds_stay; due = λ e. inl (v.leds_wait e) }

  can_send_now-LedsHold : (cid : ℕ) (a : App) → LedsHold a (on_can_send_now btstack answers cid a)
  unfolding on_can_send_now send_led_report
  can_send_now-LedsHold cid a =
      let packet = hid_boot_keyboard_output_packet a.hid_channels.led_state in
      if_rule (LedsHold a)
        (cid == a.hid_channels.control_cid && a.hid_channels.boot_protocol_request_pending)
        (λ _. Kept-LedsHold (send_boot_protocol-Kept btstack answers a))
        λ _.
          if_rule (LedsHold a)
            (cid == a.hid_channels.control_cid && a.hid_channels.led_can_send_requested)
            (λ _.
              if_rule (LedsHold a)
                (answers.l2cap_send a.hid_channels.control_cid packet == btstack.success)
                (λ e. record {
                  state = refl;
                  due = λ _. inr (
                    (==_iff (answers.l2cap_send a.hid_channels.control_cid packet)
                          btstack.success).0
                        e,
                    refl,
                  );
                })
                (λ _. record { state = refl; due = λ e. inl e }))
            (λ _. Kept-LedsHold (Kept-refl a))

  -- Whatever event arrives but new LEDs from USB: the LED state is the one before, and a pending LED
  -- report stays pending, unless BTstack took the report of that very LED state.
  pub handle_leds :
      (e : Event) (a : App)
      → ((leds : ℕ) → e ≢ Event.set_leds leds)
      → let b = handle btstack answers e a in
        (b.hid_channels.led_state ≡ a.hid_channels.led_state)
        × (a.hid_channels.led_report_pending ≡ true
            → (b.hid_channels.led_report_pending ≡ true)
              ⊎ ((answers.l2cap_send a.hid_channels.control_cid
                      (hid_boot_keyboard_output_packet a.hid_channels.led_state)
                    ≡ btstack.success)
                  × (b.effects
                      ≡ send a.hid_channels.control_cid
                          (hid_boot_keyboard_output_packet a.hid_channels.led_state)
                        ∷ a.effects)))
  unfolding handle
  handle_leds e a not_leds = (held.state, held.due)
    where
      held : LedsHold a (handle btstack answers e a)
      held = elim (handle_split btstack answers e a) [
        | inl v ↦ Kept-LedsHold v
        | inr (inl (leds, same)) ↦ elim (not_leds leds same) [ ]
        | inr (inr (inl (cid, same))) ↦ rw same (can_send_now-LedsHold cid a)
        | inr (inr (inr (channel, packet, same))) ↦
            rw same (elim (data_packet_split btstack answers channel packet a) [
              | inl v ↦ Kept-LedsHold v
              | inr (_, _, _, f) ↦ rw f (record { state = refl; due = λ e. inl e })
            ])
      ]
