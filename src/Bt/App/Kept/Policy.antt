-- ===== src/Bt/App/Kept/Policy.antt =====
-- bt/bluetooth.c: when connections are made without a request.
use picow_bt_kb_hid.Base.{ℕ, ◌≡◌, refl, false, ◌&&◌, if_rule, ◌==◌, inl, inr}
use picow_bt_kb_hid.Bt.BootReport.{hid_boot_keyboard_output_packet}
use picow_bt_kb_hid.Bt.App.Platform.{Btstack, Answers, Event}
use picow_bt_kb_hid.Bt.App.Model.{App}
use picow_bt_kb_hid.Bt.App.Events.{send_led_report, on_can_send_now, handle}
use picow_bt_kb_hid.Bt.App.Kept.{requested, Kept}
use picow_bt_kb_hid.Bt.App.Kept.Handle.{handle_split}
use picow_bt_kb_hid.Bt.App.Kept.Events.{send_boot_protocol-Kept}
use picow_bt_kb_hid.Bt.App.Kept.Forward.{data_packet_split}

-- The policy for automatic connections, from one state to another.
record Obeys (a b : App) : Type 0 where
  policy : b.auto_connect_enabled ≡ a.auto_connect_enabled
  quiet : a.auto_connect_enabled ≡ false → requested b.effects ≡ requested a.effects

Kept-Obeys : {a b : App} → Kept a b → Obeys a b
Kept-Obeys v = record { policy = v.policy; quiet = v.quiet }

module _ (btstack : Btstack) (answers : Answers) where
  can_send_now-Obeys : (cid : ℕ) (a : App) → Obeys a (on_can_send_now btstack answers cid a)
  unfolding on_can_send_now send_led_report
  can_send_now-Obeys cid a =
      if_rule (Obeys a)
        (cid == a.hid_channels.control_cid && a.hid_channels.boot_protocol_request_pending)
        (λ _. Kept-Obeys (send_boot_protocol-Kept btstack answers a))
        λ _.
          if_rule (Obeys a)
            (cid == a.hid_channels.control_cid && a.hid_channels.led_can_send_requested)
            (λ _.
              if_rule (Obeys a)
                (answers.l2cap_send a.hid_channels.control_cid
                    (hid_boot_keyboard_output_packet a.hid_channels.led_state)
                  == btstack.success)
                (λ _. record { policy = refl; quiet = λ _. refl })
                (λ _. record { policy = refl; quiet = λ _. refl }))
            (λ _. record { policy = refl; quiet = λ _. refl })

  handle-Obeys : (e : Event) (a : App) → Obeys a (handle btstack answers e a)
  unfolding handle
  handle-Obeys e a = elim (handle_split btstack answers e a) [
    | inl v ↦ Kept-Obeys v
    | inr (inl (leds, same)) ↦ rw same (record { policy = refl; quiet = λ _. refl })
    | inr (inr (inl (cid, same))) ↦ rw same (can_send_now-Obeys cid a)
    | inr (inr (inr (channel, packet, same))) ↦
        rw same (elim (data_packet_split btstack answers channel packet a) [
          | inl v ↦ Kept-Obeys v
          | inr (_, _, _, f) ↦ rw f (record { policy = refl; quiet = λ _. refl })
        ])
  ]

  -- No event changes whether automatic connections are wanted, and none requests a connection while
  -- they are not.
  pub handle_policy :
      (e : Event) (a : App)
      → let b = handle btstack answers e a in
        (b.auto_connect_enabled ≡ a.auto_connect_enabled)
        × (a.auto_connect_enabled ≡ false → requested b.effects ≡ requested a.effects)
  handle_policy e a = ((handle-Obeys e a).policy, (handle-Obeys e a).quiet)
