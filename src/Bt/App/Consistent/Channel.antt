-- ===== src/Bt/App/Consistent/Channel.antt =====
-- The flags and the state after the cases of `hci_event_handler` in bt/bluetooth.c for L2CAP.
use picow_bt_kb_hid.Base.{
  [], ◌∷◌, ℕ, refl, not, ◌&&◌, if◌then◌else◌, if_rule, option_rule, ◌==◌, bit_and,
}
use picow_bt_kb_hid.Bt.State.{disconnected, setting_boot_protocol, hid_connected, ◌==ₛ◌}
use picow_bt_kb_hid.Bt.Channels.{
  closed_none, closed_interrupt, hid_channels_control_opened, hid_channels_interrupt_opened,
  hid_channels_closed,
}
use picow_bt_kb_hid.Bt.BootReport.{hid_boot_keyboard_output_packet}
use picow_bt_kb_hid.Usb.Keyboard.{keyboard_release_all}
use picow_bt_kb_hid.Bt.App.Platform.{Btstack, Answers}
use picow_bt_kb_hid.Bt.App.Model.{App}
use picow_bt_kb_hid.Bt.App.Link.{
  transition_to_state, release_usb_keyboard, disconnect_acl_after_error,
}
use picow_bt_kb_hid.Bt.App.Hid.{get_connected_device}
use picow_bt_kb_hid.Bt.App.Events.{
  set_boot_protocol_request, control_channel_opened, interrupt_channel_opened, on_channel_opened,
  send_boot_protocol, send_led_report, on_can_send_now, on_channel_closed,
}
use picow_bt_kb_hid.Bt.App.Consistent.{IsConsistent}
use picow_bt_kb_hid.Bt.App.Consistent.Link.{leave, disconnect_acl_after_error-IsConsistent}
use picow_bt_kb_hid.Bt.App.Consistent.Hid.{schedule-IsConsistent}

module _ (btstack : Btstack) (answers : Answers) where
  abbrev Good : App → Type 0
  Good = IsConsistent btstack

  fails : (a : App) → Good a → Good (disconnect_acl_after_error btstack answers a)
  fails a v = disconnect_acl_after_error-IsConsistent btstack answers a v

  control_opened-IsConsistent :
      (cid : ℕ) (a : App) → Good a → Good (control_channel_opened btstack answers cid a)
  unfolding control_channel_opened
  control_opened-IsConsistent cid a v =
      let opened = record a { hid_channels = hid_channels_control_opened a.hid_channels cid } in
      let ready = leave btstack setting_boot_protocol opened refl v.pin in
      if_rule Good
        (not (
          answers.l2cap_request_can_send_now_event
            (transition_to_state setting_boot_protocol opened).hid_channels.control_cid
          == btstack.success))
        (λ _. fails _ (record { agrees = ready.agrees })) (λ _. record { agrees = ready.agrees })

  interrupt_opened-IsConsistent :
      (cid : ℕ) (a : App) → Good a → Good (interrupt_channel_opened btstack answers cid a)
  unfolding interrupt_channel_opened
  interrupt_opened-IsConsistent cid a v =
      let opened = record a { hid_channels = hid_channels_interrupt_opened a.hid_channels cid } in
      let ready = leave btstack hid_connected opened refl v.pin in
      schedule-IsConsistent btstack answers _ (record { agrees = ready.agrees })

  pub channel_opened-IsConsistent :
      (status psm cid : ℕ) (a : App)
      → Good a
      → Good (on_channel_opened btstack answers status psm cid a)
  unfolding on_channel_opened
  channel_opened-IsConsistent status psm cid a v =
      if_rule Good (not (status == 0)) (λ _. fails a v)
        λ _.
          option_rule Good (get_connected_device a) (λ _. fails a v)
            λ dev _.
              if_rule Good (psm == dev.hid_control_psm) (λ _. control_opened-IsConsistent cid a v)
                λ _.
                  if_rule Good (psm == dev.hid_interrupt_psm)
                    (λ _. interrupt_opened-IsConsistent cid a v) (λ _. v)

  send_boot_protocol-IsConsistent : (a : App) → Good a → Good (send_boot_protocol btstack answers a)
  unfolding send_boot_protocol
  send_boot_protocol-IsConsistent a v =
      if_rule Good
        (not (
          answers.l2cap_send a.hid_channels.control_cid (set_boot_protocol_request btstack ∷ [])
          == btstack.success))
        (λ _. fails _ (record { agrees = v.agrees })) (λ _. record { agrees = v.agrees })

  send_led_report-IsConsistent : (a : App) → Good a → Good (send_led_report btstack answers a)
  unfolding send_led_report
  send_led_report-IsConsistent a v =
      if_rule Good
        (answers.l2cap_send a.hid_channels.control_cid
            (hid_boot_keyboard_output_packet a.hid_channels.led_state)
          == btstack.success)
        (λ _. record { agrees = v.agrees }) (λ _. record { agrees = v.agrees })

  pub can_send_now-IsConsistent :
      (cid : ℕ) (a : App) → Good a → Good (on_can_send_now btstack answers cid a)
  unfolding on_can_send_now
  can_send_now-IsConsistent cid a v =
      if_rule Good
        (cid == a.hid_channels.control_cid && a.hid_channels.boot_protocol_request_pending)
        (λ _. send_boot_protocol-IsConsistent a v)
        λ _.
          if_rule Good (cid == a.hid_channels.control_cid && a.hid_channels.led_can_send_requested)
            (λ _. send_led_report-IsConsistent a v) (λ _. v)

  pub channel_closed-IsConsistent :
      (cid : ℕ) (a : App) → Good a → Good (on_channel_closed btstack answers cid a)
  unfolding on_channel_closed release_usb_keyboard
  channel_closed-IsConsistent cid a v =
      let c = (hid_channels_closed a.hid_channels cid).0 in
      let closed = (hid_channels_closed a.hid_channels cid).1 in
      let a1 = record a { hid_channels = c } in
      let a2 =
        if not (bit_and closed closed_interrupt == 0)
        then record a1 { keyboard = keyboard_release_all a1.keyboard }
        else a1 in
      let w : Good a2 =
        if_rule Good (not (bit_and closed closed_interrupt == 0))
          (λ _. record { agrees = v.agrees }) (λ _. record { agrees = v.agrees }) in
      if_rule Good
        (not (closed == closed_none)
          && not (a2.current_state ==ₛ disconnected)
          && not (a2.acl_handle == btstack.invalid_handle))
        (λ _. record { agrees = w.agrees }) (λ _. w)
