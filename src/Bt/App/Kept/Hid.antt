-- ===== src/Bt/App/Kept/Hid.antt =====
-- What the HID functions of bt/bluetooth.c leave alone.
use picow_bt_kb_hid.Base.{
  ℕ, not, ◌&&◌, ◌||◌, if_rule, option_rule, ◌==◌, List, length, get_or, ◌/◌, ◌%◌,
}
use picow_bt_kb_hid.Bt.State.{
  authenticating, service_discovery, opening_control, opening_interrupt, setting_boot_protocol,
  hid_connected, ◌==ₛ◌,
}
use picow_bt_kb_hid.Bt.App.Platform.{Btstack, Answers}
use picow_bt_kb_hid.Bt.App.Model.{App}
use picow_bt_kb_hid.Bt.App.Link.{transition_to_state, disconnect_acl_after_error}
use picow_bt_kb_hid.Bt.App.Hid.{
  get_connected_device, psm_of, prepare_discovery, complete_discovery, schedule_keyboard_led_report,
  open_interrupt_channel, open_control_channel, start_sdp_discovery, handle_control_packet,
  sdp_device_complete, sdp_complete,
}
use picow_bt_kb_hid.Bt.App.Kept.{Kept, Kept-refl, Kept-trans, unchanged}
use picow_bt_kb_hid.Bt.App.Kept.Link.{transition-Kept, disconnect_acl_after_error-Kept}

module _ (btstack : Btstack) (answers : Answers) where
  fails : (a : App) → Kept a (disconnect_acl_after_error btstack answers a)
  fails a = disconnect_acl_after_error-Kept btstack answers a

  pub schedule-Kept : (a : App) → Kept a (schedule_keyboard_led_report btstack answers a)
  unfolding schedule_keyboard_led_report
  schedule-Kept a =
      if_rule (Kept a)
        (not a.hid_channels.led_report_pending
          || a.hid_channels.led_can_send_requested
          || not a.hid_channels.control_open
          || not (a.current_state ==ₛ hid_connected))
        (λ _. Kept-refl a)
        λ _.
          if_rule (Kept a)
            (answers.l2cap_request_can_send_now_event a.hid_channels.control_cid == btstack.success)
            (λ _. record { keeps = unchanged }) (λ _. record { keeps = unchanged })

  open_interrupt-Kept : (a : App) → Kept a (open_interrupt_channel btstack answers a)
  unfolding open_interrupt_channel
  open_interrupt-Kept a =
      let psm = psm_of (λ d. d.hid_interrupt_psm) (get_connected_device a) in
      let t = transition-Kept opening_interrupt a in
      if_rule (Kept a) (psm == 0) (λ _. fails a)
        λ _.
          if_rule (Kept a) (not ((answers.l2cap_create_channel psm).0 == btstack.success))
            (λ _. Kept-trans t (Kept-trans (record { keeps = unchanged }) (fails _)))
            (λ _. Kept-trans t (record { keeps = unchanged }))

  open_control-Kept : (a : App) → Kept a (open_control_channel btstack answers a)
  unfolding open_control_channel
  open_control-Kept a =
      let psm = psm_of (λ d. d.hid_control_psm) (get_connected_device a) in
      let t = transition-Kept opening_control a in
      if_rule (Kept a) (psm == 0) (λ _. fails a)
        λ _.
          if_rule (Kept a) (not ((answers.l2cap_create_channel psm).0 == btstack.success))
            (λ _. Kept-trans t (Kept-trans (record { keeps = unchanged }) (fails _)))
            (λ _. Kept-trans t (record { keeps = unchanged }))

  pub start_sdp-Kept : (a : App) → Kept a (start_sdp_discovery btstack answers a)
  unfolding start_sdp_discovery
  start_sdp-Kept a =
      let ready : Kept a (prepare_discovery a) = record { keeps = unchanged } in
      let t = Kept-trans ready (transition-Kept service_discovery (prepare_discovery a)) in
      if_rule (Kept a) (not (a.current_state ==ₛ authenticating)) (λ _. Kept-refl a)
        λ _.
          if_rule (Kept a)
            (not (
              answers.sdp_client_query_uuid16
                (transition_to_state service_discovery (prepare_discovery a)).connected_device_addr
              == btstack.success))
            (λ _. Kept-trans t (Kept-trans (record { keeps = unchanged }) (fails _)))
            (λ _. Kept-trans t (record { keeps = unchanged }))

  pub control_packet-Kept :
      (packet : List ℕ) (a : App) → Kept a (handle_control_packet btstack answers packet a)
  unfolding handle_control_packet
  control_packet-Kept packet a =
      if_rule (Kept a) (length packet == 0) (λ _. Kept-refl a)
        λ _.
          if_rule (Kept a)
            (a.current_state ==ₛ setting_boot_protocol
              && get_or packet 0 0 / 16 == btstack.handshake)
            (λ _.
              if_rule (Kept a) (get_or packet 0 0 % 16 == btstack.handshake_successful)
                (λ _. open_interrupt-Kept a) (λ _. fails a))
            (λ _. Kept-refl a)

  pub sdp_complete-Kept : (status : ℕ) (a : App) → Kept a (sdp_complete btstack answers status a)
  unfolding sdp_complete sdp_device_complete
  sdp_complete-Kept status a =
      if_rule (Kept a) (status == 0)
        (λ _.
          option_rule (Kept a) (get_connected_device a) (λ _. fails a)
            λ dev _.
              if_rule (Kept a)
                (not ((complete_discovery dev).hid_control_psm == 0)
                  && not ((complete_discovery dev).hid_interrupt_psm == 0))
                (λ _. Kept-trans (record { keeps = unchanged }) (open_control-Kept _))
                (λ _. Kept-trans (record { keeps = unchanged }) (fails _)))
        (λ _. fails a)
