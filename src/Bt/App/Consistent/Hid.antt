-- ===== src/Bt/App/Consistent/Hid.antt =====
-- The flags and the state after the HID functions of bt/bluetooth.c.
use picow_bt_kb_hid.Base.{
  ℕ, refl, ap, not, ◌&&◌, ◌||◌, arith, if_rule, option_rule, ◌==◌, List, length, get_or, ◌/◌, ◌%◌,
}
use picow_bt_kb_hid.Bt.State.{
  authenticating, service_discovery, opening_control, opening_interrupt, setting_boot_protocol,
  hid_connected, ◌==ₛ◌,
}
use picow_bt_kb_hid.Bt.BootReport.{ParseResult}
use picow_bt_kb_hid.Usb.Keyboard.{ReportQueue}
use picow_bt_kb_hid.Bt.App.Platform.{Btstack, Answers}
use picow_bt_kb_hid.Bt.App.Model.{App}
use picow_bt_kb_hid.Bt.App.Link.{transition_to_state}
use picow_bt_kb_hid.Bt.App.Link.Shape.{state_eq}
use picow_bt_kb_hid.Bt.App.Hid.{
  get_connected_device, psm_of, prepare_discovery, complete_discovery, schedule_keyboard_led_report,
  open_interrupt_channel, open_control_channel, start_sdp_discovery, handle_control_packet,
  handle_hid_data_packet, sdp_attribute_byte, sdp_device_complete, sdp_complete,
}
use picow_bt_kb_hid.Bt.App.Consistent.{IsConsistent, is_busy, is_linked}
use picow_bt_kb_hid.Bt.App.Consistent.Link.{
  leave, advance, timer_off, disconnect_acl_after_error-IsConsistent,
}

module _ (btstack : Btstack) (answers : Answers) where
  abbrev Good : App → Type 0
  Good = IsConsistent btstack

  pub schedule-IsConsistent :
      (a : App) → Good a → Good (schedule_keyboard_led_report btstack answers a)
  unfolding schedule_keyboard_led_report
  schedule-IsConsistent a v =
      if_rule Good
        (not a.hid_channels.led_report_pending
          || a.hid_channels.led_can_send_requested
          || not a.hid_channels.control_open
          || not (a.current_state ==ₛ hid_connected))
        (λ _. v)
        λ _.
          if_rule Good
            (answers.l2cap_request_can_send_now_event a.hid_channels.control_cid == btstack.success)
            (λ _. record { agrees = v.agrees }) (λ _. record { agrees = v.agrees })

  pub open_interrupt-IsConsistent :
      (a : App) → Good a → Good (open_interrupt_channel btstack answers a)
  unfolding open_interrupt_channel
  open_interrupt-IsConsistent a v =
      if_rule Good (psm_of (λ d. d.hid_interrupt_psm) (get_connected_device a) == 0)
        (λ _. disconnect_acl_after_error-IsConsistent btstack answers a v)
        λ _.
          let opened = leave btstack opening_interrupt a refl v.pin in
          if_rule Good
            (not (
              (answers.l2cap_create_channel
                (psm_of (λ d. d.hid_interrupt_psm) (get_connected_device a))).0
              == btstack.success))
            (λ _.
              disconnect_acl_after_error-IsConsistent btstack answers _
                (record { agrees = opened.agrees }))
            (λ _. record { agrees = opened.agrees })

  pub open_control-IsConsistent : (a : App) → Good a → Good (open_control_channel btstack answers a)
  unfolding open_control_channel
  open_control-IsConsistent a v =
      if_rule Good (psm_of (λ d. d.hid_control_psm) (get_connected_device a) == 0)
        (λ _. disconnect_acl_after_error-IsConsistent btstack answers a v)
        λ _.
          let opened = leave btstack opening_control a refl v.pin in
          if_rule Good
            (not (
              (answers.l2cap_create_channel
                (psm_of (λ d. d.hid_control_psm) (get_connected_device a))).0
              == btstack.success))
            (λ _.
              disconnect_acl_after_error-IsConsistent btstack answers _
                (record { agrees = opened.agrees }))
            (λ _. record { agrees = opened.agrees })

  pub start_sdp-IsConsistent : (a : App) → Good a → Good (start_sdp_discovery btstack answers a)
  unfolding start_sdp_discovery
  start_sdp-IsConsistent a v =
      if_rule Good (not (a.current_state ==ₛ authenticating)) (λ _. v)
        λ e.
          let at = state_eq a.current_state authenticating (ground arith) in
          let started =
            advance btstack service_discovery (prepare_discovery a)
              (timer_off btstack v (ap is_busy at)) (λ e. cc) (λ _. v.link (ap is_linked at))
              v.pin in
          if_rule Good
            (not (
              answers.sdp_client_query_uuid16
                (transition_to_state service_discovery (prepare_discovery a)).connected_device_addr
              == btstack.success))
            (λ _.
              disconnect_acl_after_error-IsConsistent btstack answers _
                (record { agrees = started.agrees }))
            (λ _. record { agrees = started.agrees })

  pub control_packet-IsConsistent :
      (packet : List ℕ) (a : App) → Good a → Good (handle_control_packet btstack answers packet a)
  unfolding handle_control_packet
  control_packet-IsConsistent packet a v =
      if_rule Good (length packet == 0) (λ _. v)
        λ _.
          if_rule Good
            (a.current_state ==ₛ setting_boot_protocol
              && get_or packet 0 0 / 16 == btstack.handshake)
            (λ _.
              if_rule Good (get_or packet 0 0 % 16 == btstack.handshake_successful)
                (λ _. open_interrupt-IsConsistent a v)
                (λ _. disconnect_acl_after_error-IsConsistent btstack answers a v))
            (λ _. v)

  pub data_packet-IsConsistent :
      (channel : ℕ) (packet : List ℕ) (a : App)
      → Good a
      → Good (handle_hid_data_packet btstack answers channel packet a)
  unfolding handle_hid_data_packet
  data_packet-IsConsistent channel packet a v =
      if_rule Good (channel == a.hid_channels.control_cid)
        (λ _. control_packet-IsConsistent packet a v)
        λ _.
          if_rule Good
            (not (channel == a.hid_channels.interrupt_cid) || not a.hid_channels.interrupt_open)
            (λ _. v) (λ _. parsed _ _)
    where
      parsed :
          (keyboard : ReportQueue) (result : ParseResult)
          → Good (elim result [
            | ParseResult.ok ↦ record a { keyboard = keyboard }
            | ParseResult.unsupported ↦ a
            | ParseResult.invalid ↦ a
          ])
      parsed keyboard ParseResult.ok = record { agrees = v.agrees }
      parsed keyboard ParseResult.unsupported = v
      parsed keyboard ParseResult.invalid = v

  pub sdp_attribute-IsConsistent :
      (attribute_id attribute_length attribute_offset byte : ℕ) (a : App)
      → Good a
      → Good
          (sdp_attribute_byte btstack answers attribute_id attribute_length attribute_offset byte a)
  unfolding sdp_attribute_byte
  sdp_attribute-IsConsistent attribute_id attribute_length attribute_offset byte a v = record {
    agrees = v.agrees;
  }

  pub sdp_complete-IsConsistent :
      (status : ℕ) (a : App) → Good a → Good (sdp_complete btstack answers status a)
  unfolding sdp_complete sdp_device_complete
  sdp_complete-IsConsistent status a v =
      if_rule Good (status == 0)
        (λ _.
          option_rule Good (get_connected_device a)
            (λ _. disconnect_acl_after_error-IsConsistent btstack answers a v)
            λ dev _.
              if_rule Good
                (not ((complete_discovery dev).hid_control_psm == 0)
                  && not ((complete_discovery dev).hid_interrupt_psm == 0))
                (λ _. open_control-IsConsistent _ (record { agrees = v.agrees }))
                (λ _.
                  disconnect_acl_after_error-IsConsistent btstack answers _
                    (record { agrees = v.agrees })))
        (λ _. disconnect_acl_after_error-IsConsistent btstack answers a v)
