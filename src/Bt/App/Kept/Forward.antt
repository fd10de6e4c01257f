-- ===== src/Bt/App/Kept/Forward.antt =====
-- bt/bluetooth.c: which keyboard reports reach USB.
use picow_bt_kb_hid.Base.{
  replicate, ℕ, ◌≡◌, refl, Bool, true, false, not, ◌&&◌, ◌||◌, arith, if_rule, ◌==◌, List, length,
  ◌⊎◌, inl, inr,
}
use picow_bt_kb_hid.Bt.BootReport.{hid_boot_keyboard_output_packet}
use picow_bt_kb_hid.Usb.Keyboard.{keyboard_release_all}
use picow_bt_kb_hid.Bt.App.Platform.{Btstack, Answers, Event}
use picow_bt_kb_hid.Bt.App.Model.{App}
use picow_bt_kb_hid.Bt.App.Events.{send_led_report, on_can_send_now, handle}
use picow_bt_kb_hid.Bt.App.Kept.{Kept, Kept-refl}
use picow_bt_kb_hid.Bt.App.Kept.Hid.{control_packet-Kept}
use picow_bt_kb_hid.Bt.App.Kept.Handle.{handle_split}
use picow_bt_kb_hid.Bt.App.Kept.Events.{send_boot_protocol-Kept}
use picow_bt_kb_hid.Bt.BootReport.{ParseResult, BootKeyboardReport, hid_boot_keyboard_parse_input}
use picow_bt_kb_hid.Bt.App.Hid.{handle_hid_data_packet}
use picow_bt_kb_hid.Usb.Keyboard.{keyboard_send_report}

-- A keyboard report as the code prepares it for the parser.
abbrev pub unread : BootKeyboardReport
unread = record { report_id = 0; modifier = 0; keycodes = replicate 6 0 }

-- What a data packet does: it keeps all, or it forwards a keyboard report.
abbrev pub Forwarded : ℕ → List ℕ → App → App → Type 0
Forwarded channel packet a b =
    (channel ≡ a.hid_channels.interrupt_cid)
    × (a.hid_channels.interrupt_open ≡ true)
    × ((hid_boot_keyboard_parse_input packet (length packet) unread).0 ≡ ParseResult.ok)
    × (b ≡ record a {
      keyboard =
          keyboard_send_report a.keyboard
            (hid_boot_keyboard_parse_input packet (length packet) unread).1.modifier
            (hid_boot_keyboard_parse_input packet (length packet) unread).1.keycodes;
    })

module _ (btstack : Btstack) (answers : Answers) where
  pub data_packet_split :
      (channel : ℕ) (packet : List ℕ) (a : App)
      → Kept a (handle_hid_data_packet btstack answers channel packet a)
        ⊎ Forwarded channel packet a (handle_hid_data_packet btstack answers channel packet a)
  unfolding handle_hid_data_packet
  data_packet_split channel packet a =
      if_rule (λ b. Kept a b ⊎ Forwarded channel packet a b) (channel == a.hid_channels.control_cid)
        (λ _. inl (control_packet-Kept btstack answers packet a))
        λ _.
          if_rule (λ b. Kept a b ⊎ Forwarded channel packet a b)
            (not (channel == a.hid_channels.interrupt_cid) || not a.hid_channels.interrupt_open)
            (λ _. inl (Kept-refl a))
            (λ e.
              parsed (hid_boot_keyboard_parse_input packet (length packet) unread).0 refl
                (open_channel channel a.hid_channels.interrupt_cid a.hid_channels.interrupt_open e))
    where
      open_channel : (x y : ℕ) (o : Bool) → (not (x == y) || not o) ≡ false → (x ≡ y) × (o ≡ true)
      open_channel x y o e = ground arith

      parsed :
          (result : ParseResult)
          → (hid_boot_keyboard_parse_input packet (length packet) unread).0 ≡ result
          → (channel ≡ a.hid_channels.interrupt_cid) × (a.hid_channels.interrupt_open ≡ true)
          → (Kept a (elim result [
            | ParseResult.ok ↦ record a {
              keyboard =
                  keyboard_send_report a.keyboard
                    (hid_boot_keyboard_parse_input packet (length packet) unread).1.modifier
                    (hid_boot_keyboard_parse_input packet (length packet) unread).1.keycodes;
            }
            | ParseResult.unsupported ↦ a
            | ParseResult.invalid ↦ a
          ]))
            ⊎ Forwarded channel packet a (elim result [
              | ParseResult.ok ↦ record a {
                keyboard =
                    keyboard_send_report a.keyboard
                      (hid_boot_keyboard_parse_input packet (length packet) unread).1.modifier
                      (hid_boot_keyboard_parse_input packet (length packet) unread).1.keycodes;
              }
              | ParseResult.unsupported ↦ a
              | ParseResult.invalid ↦ a
            ])
      parsed ParseResult.ok e (same, opened) = inr (same, opened, e, refl)
      parsed ParseResult.unsupported e o = inl (Kept-refl a)
      parsed ParseResult.invalid e o = inl (Kept-refl a)

  record KeysHold (a b : App) : Type 0 where
    held : (b.keyboard ≡ a.keyboard) ⊎ (b.keyboard ≡ keyboard_release_all a.keyboard)

  Kept-KeysHold : {a b : App} → Kept a b → KeysHold a b
  Kept-KeysHold v = record { held = v.keys_stay }

  can_send_now-KeysHold : (cid : ℕ) (a : App) → KeysHold a (on_can_send_now btstack answers cid a)
  unfolding on_can_send_now send_led_report
  can_send_now-KeysHold cid a =
      if_rule (KeysHold a)
        (cid == a.hid_channels.control_cid && a.hid_channels.boot_protocol_request_pending)
        (λ _. Kept-KeysHold (send_boot_protocol-Kept btstack answers a))
        λ _.
          if_rule (KeysHold a)
            (cid == a.hid_channels.control_cid && a.hid_channels.led_can_send_requested)
            (λ _.
              if_rule (KeysHold a)
                (answers.l2cap_send a.hid_channels.control_cid
                    (hid_boot_keyboard_output_packet a.hid_channels.led_state)
                  == btstack.success)
                (λ _. record { held = inl refl }) (λ _. record { held = inl refl }))
            (λ _. record { held = inl refl })

  -- The reports stay, or all keys are released, or something else holds.
  extend : {A B C : Type 0} → A ⊎ B → A ⊎ B ⊎ C
  extend (inl x) = inl x
  extend (inr y) = inr (inl y)

  -- Whatever event arrives, the reports for USB stay the same, or all keys are released, or the
  -- report of a data packet is added, which came on the open interrupt channel and which the parser
  -- accepts.
  pub handle_keyboard :
      (e : Event) (a : App)
      → let b = handle btstack answers e a in
        (b.keyboard ≡ a.keyboard)
        ⊎ (b.keyboard ≡ keyboard_release_all a.keyboard)
        ⊎ ((channel : ℕ) × (packet : List ℕ) × (e ≡ Event.data_packet channel packet)
            × Forwarded channel packet a b)
  unfolding handle
  handle_keyboard e a = elim (handle_split btstack answers e a) [
    | inl v ↦ extend v.keys_stay
    | inr (inl (leds, same)) ↦ inl (rw same refl)
    | inr (inr (inl (cid, same))) ↦ extend (rw same ((can_send_now-KeysHold cid a).held))
    | inr (inr (inr (channel, packet, same))) ↦ elim (data_packet_split channel packet a) [
      | inl v ↦ extend (rw same v.keys_stay)
      | inr f ↦ inr (inr (channel, packet, same, rw same f))
    ]
  ]
