-- ===== src/Bt/App/Hid.antt =====
-- bt/bluetooth.c: the HID channels, service discovery, and the reports of the keyboard.
use picow_bt_kb_hid.Base.{
  ℕ, ◌/◌, ◌%◌, true, false, not, ◌&&◌, ◌||◌, List, replicate, length, get_or, Option, none, some,
  if◌then◌else◌, ◌==◌,
}
use picow_bt_kb_hid.Bt.State.{
  authenticating, service_discovery, opening_control, opening_interrupt, setting_boot_protocol,
  hid_connected, ◌==ₛ◌,
}
use picow_bt_kb_hid.Bt.Devices.{Device, device_manager_find, modify}
use picow_bt_kb_hid.Bt.BootReport.{ParseResult, hid_boot_keyboard_parse_input}
use picow_bt_kb_hid.Bt.Sdp.Feed.{sdp_parser_reset, sdp_parser_feed}
use picow_bt_kb_hid.Usb.Keyboard.{keyboard_send_report}
use picow_bt_kb_hid.Bt.App.Platform.{
  Btstack, Answers, sdp_query, create_channel, request_can_send_now,
}
use picow_bt_kb_hid.Bt.App.Model.{App, emit}
use picow_bt_kb_hid.Bt.App.Link.{transition_to_state, disconnect_acl_after_error}

-- `get_connected_device`.
abbrev pub get_connected_device : App → Option Device
get_connected_device a = device_manager_find a.devices a.connected_device_addr

-- A write through the pointer that `get_connected_device` returned.
abbrev pub modify_connected : (Device → Device) → App → App
modify_connected f a = record a { devices = modify a.connected_device_addr f a.devices }

-- The variable behind a pointer to a channel id, once `l2cap_create_channel` has returned.
abbrev pub written : Option ℕ → ℕ → ℕ
written none before = before
written (some cid) before = cid

-- The results of an earlier service discovery cleared.
unfoldable pub clear_discovery : Device → Device
clear_discovery d = record d {
  hid_control_psm = 0;
  hid_interrupt_psm = 0;
  hid_service_found = false;
  sdp_completed = false;
  report_descriptor_present = false;
  report_descriptor_too_large = false;
  report_descriptor_valid = false;
  report_has_keyboard = false;
  report_has_consumer_control = false;
  report_has_nkro_keyboard = false;
  report_uses_ids = false;
}

-- The device and the parser made ready for a service discovery.
abbrev pub prepare_discovery : App → App
prepare_discovery a =
    let a1 = modify_connected clear_discovery a in
    record a1 { sdp_parser = sdp_parser_reset a1.sdp_parser }

-- The PSM that a device offers, or 0 where there is no device.
abbrev pub psm_of : (Device → ℕ) → Option Device → ℕ
psm_of field none = 0
psm_of field (some d) = field d

-- What a completed service discovery writes to the device: the standard PSMs if one is missing.
unfoldable pub complete_discovery : Device → Device
complete_discovery d =
    let d1 = record d { sdp_completed = true } in
    if d1.hid_control_psm == 0 || d1.hid_interrupt_psm == 0
    then record d1 { hid_control_psm = 0x0011; hid_interrupt_psm = 0x0013 }
    else d1

module _ (btstack : Btstack) (answers : Answers) where
  -- `schedule_keyboard_led_report`.
  unfoldable pub schedule_keyboard_led_report : App → App
  schedule_keyboard_led_report a =
      let c = a.hid_channels in
      if not c.led_report_pending
        || c.led_can_send_requested
        || not c.control_open
        || not (a.current_state ==ₛ hid_connected)
      then a
      else let a1 = emit (request_can_send_now c.control_cid) a in
        if answers.l2cap_request_can_send_now_event c.control_cid == btstack.success
        then record a1 { hid_channels = record c { led_can_send_requested = true } }
        else a1

  -- `open_interrupt_channel`.
  unfoldable pub open_interrupt_channel : App → App
  open_interrupt_channel a =
      let psm = psm_of (λ d. d.hid_interrupt_psm) (get_connected_device a) in
      if psm == 0
      then disconnect_acl_after_error btstack answers a
      else let (status, cid) = answers.l2cap_create_channel psm in
        let a1 = transition_to_state opening_interrupt a in
        let a2 = emit (create_channel a1.connected_device_addr psm) (record a1 {
          hid_channels = record (a1.hid_channels) {
            interrupt_cid = written cid a1.hid_channels.interrupt_cid;
          };
        }) in
        if not (status == btstack.success)
        then disconnect_acl_after_error btstack answers a2
        else a2

  -- `open_control_channel`.
  unfoldable pub open_control_channel : App → App
  open_control_channel a =
      let psm = psm_of (λ d. d.hid_control_psm) (get_connected_device a) in
      if psm == 0
      then disconnect_acl_after_error btstack answers a
      else let (status, cid) = answers.l2cap_create_channel psm in
        let a1 = transition_to_state opening_control a in
        let a2 = emit (create_channel a1.connected_device_addr psm) (record a1 {
          hid_channels = record (a1.hid_channels) {
            control_cid = written cid a1.hid_channels.control_cid;
          };
        }) in
        if not (status == btstack.success)
        then disconnect_acl_after_error btstack answers a2
        else a2

  -- `start_sdp_discovery`.
  unfoldable pub start_sdp_discovery : App → App
  start_sdp_discovery a =
      if not (a.current_state ==ₛ authenticating)
      then a
      else let a1 = transition_to_state service_discovery (prepare_discovery a) in
        let a2 = emit (sdp_query a1.connected_device_addr) a1 in
        if not (answers.sdp_client_query_uuid16 a1.connected_device_addr == btstack.success)
        then disconnect_acl_after_error btstack answers a2
        else a2

  -- The branch of `handle_hid_data_packet` for the control channel.
  unfoldable pub handle_control_packet : List ℕ → App → App
  handle_control_packet packet a =
      if length packet == 0
      then a
      else let message_type = get_or packet 0 0 / 16 in
        let status = get_or packet 0 0 % 16 in
        if a.current_state ==ₛ setting_boot_protocol && message_type == btstack.handshake
        then (if status == btstack.handshake_successful
            then open_interrupt_channel a
            else disconnect_acl_after_error btstack answers a)
        else a

  -- `handle_hid_data_packet`.
  unfoldable pub handle_hid_data_packet : ℕ → List ℕ → App → App
  handle_hid_data_packet channel packet a =
      if channel == a.hid_channels.control_cid
      then handle_control_packet packet a
      else if not (channel == a.hid_channels.interrupt_cid) || not a.hid_channels.interrupt_open
      then a
      else let (result, report) =
          hid_boot_keyboard_parse_input packet (length packet)
            (record { report_id = 0; modifier = 0; keycodes = replicate 6 0 }) in
        elim result [
          | ParseResult.ok ↦ record a {
            keyboard = keyboard_send_report a.keyboard report.modifier report.keycodes;
          }
          | ParseResult.unsupported ↦ a
          | ParseResult.invalid ↦ a
        ]

  -- `handle_sdp_client_query_result` for `SDP_EVENT_QUERY_ATTRIBUTE_VALUE`.
  unfoldable pub sdp_attribute_byte : ℕ → ℕ → ℕ → ℕ → App → App
  sdp_attribute_byte attribute_id attribute_length attribute_offset byte a =
      let (p, f) =
        sdp_parser_feed a.sdp_parser attribute_id attribute_length attribute_offset byte in
      modify_connected f (record a { sdp_parser = p })

  -- `handle_sdp_client_query_result` for `SDP_EVENT_QUERY_COMPLETE`, where the device is known. The
  -- PSMs of the completed device are not 0, but for the test that the code makes.
  unfoldable pub sdp_device_complete : Device → App → App
  sdp_device_complete dev a =
      let dev1 = complete_discovery dev in
      let a1 = modify_connected complete_discovery a in
      if not (dev1.hid_control_psm == 0) && not (dev1.hid_interrupt_psm == 0)
      then open_control_channel (modify_connected (λ d. record d { hid_service_found = true }) a1)
      else disconnect_acl_after_error btstack answers a1

  -- `handle_sdp_client_query_result` for `SDP_EVENT_QUERY_COMPLETE`.
  unfoldable pub sdp_complete : ℕ → App → App
  sdp_complete status a =
      if status == 0
      then elim (get_connected_device a) [
        | some dev ↦ sdp_device_complete dev a
        | none ↦ disconnect_acl_after_error btstack answers a
      ]
      else disconnect_acl_after_error btstack answers a
