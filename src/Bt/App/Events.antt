-- ===== src/Bt/App/Events.antt =====
-- bt/bluetooth.c: `hci_event_handler`, a function for each of its cases, and the other callbacks.
use picow_bt_kb_hid.Base.{
  ℕ, ◌%◌, Bool, true, false, not, ◌&&◌, ◌||◌, List, [], ◌∷◌, Option, none, some, if◌then◌else◌,
  ◌==◌, leb, bit_and, bit_or, ◌*◌,
}
use picow_bt_kb_hid.Bt.Control.{BdAddr}
use picow_bt_kb_hid.Bt.State.{
  idle, inquiry, connecting, connected, authenticating, disconnected, setting_boot_protocol,
  hid_connected, ◌==ₛ◌,
}
use picow_bt_kb_hid.Bt.Channels.{
  closed_none, closed_interrupt, hid_channels_control_opened, hid_channels_interrupt_opened,
  hid_channels_closed, hid_channels_set_leds, hid_channels_request_led_sync,
}
use picow_bt_kb_hid.Bt.Devices.{
  Device, device_manager_find, device_manager_upsert, modify, device_manager_get_connection_target,
  device_manager_clear_connections,
}
use picow_bt_kb_hid.Bt.BootReport.{hid_boot_keyboard_output_packet}
use picow_bt_kb_hid.Bt.App.Platform.{
  Btstack, Answers, Event, acl_disconnect, request_security_level, request_can_send_now, send,
}
use picow_bt_kb_hid.Bt.App.Model.{App, emit}
use picow_bt_kb_hid.Bt.App.Link.{
  is_some, transition_to_state, start_idle_timer, begin_connection, inquiry_timer_handler,
  pairing_pin_timeout, release_usb_keyboard, reset_hid_channels, disconnect_acl_after_error,
  store_selected_device,
}
use picow_bt_kb_hid.Bt.App.Hid.{
  get_connected_device, schedule_keyboard_led_report, start_sdp_discovery, handle_hid_data_packet,
  sdp_attribute_byte, sdp_complete,
}
use picow_bt_kb_hid.Bt.App.Pairing.{
  on_pin_code_request, on_link_key_request, on_link_key_notification,
}

-- `handle_disconnected_state`.
unfoldable pub handle_disconnected_state : Btstack → App → App
handle_disconnected_state btstack a = record (reset_hid_channels (release_usb_keyboard a)) {
  acl_handle = btstack.invalid_handle;
}

-- The device that an update returned is a keyboard.
abbrev pub is_hid_supported : Option Device → Bool
is_hid_supported none = false
is_hid_supported (some d) = d.hid_supported

-- The request that selects the boot protocol, `(SET_PROTOCOL << 4) | MODE_BOOT` as a byte.
abbrev pub set_boot_protocol_request : Btstack → ℕ
set_boot_protocol_request btstack =
    bit_or (btstack.set_protocol * 16) btstack.protocol_mode_boot % 256

-- The keyboard that a finished inquiry connects to.
unfoldable pub inquiry_target : App → Option BdAddr
inquiry_target a =
    if a.auto_connect_enabled && a.selected_device_valid
    then (if is_hid_supported (device_manager_find a.devices a.selected_device_addr)
        then some a.selected_device_addr
        else none)
    else if a.auto_connect_enabled && not a.selected_device_valid
    then device_manager_get_connection_target a.devices
    else none

-- The target made the selected keyboard, where none was selected.
unfoldable pub adopt_target : Answers → BdAddr → App → App
adopt_target answers target a =
    if not a.selected_device_valid
    then store_selected_device answers
        (record a { selected_device_addr = target; selected_device_valid = true })
    else a

module _ (btstack : Btstack) (answers : Answers) where
  -- `BTSTACK_EVENT_STATE`.
  unfoldable pub on_btstack_state : Bool → App → App
  on_btstack_state working a =
      if not working
      then a
      else let a1 = transition_to_state idle (record a { stack_working = true }) in
        if a1.auto_connect_enabled && a1.selected_device_valid
        then (begin_connection btstack answers a1.selected_device_addr a1).0
        else a1

  -- `GAP_EVENT_INQUIRY_RESULT`.
  unfoldable pub on_inquiry_result : BdAddr → Bool → ℕ → ℕ → Option (List ℕ) → ℕ → App → App
  on_inquiry_result address has_rssi rssi class_of_device name name_length a =
      let (m, device, created) =
        device_manager_upsert a.devices address has_rssi rssi class_of_device name name_length in
      if is_hid_supported device
      then record a {
        devices = modify address (λ d. record d { bonded = is_some (answers.link_key address) }) m;
      }
      else record a { devices = m }

  -- `GAP_EVENT_INQUIRY_COMPLETE`.
  unfoldable pub on_inquiry_complete : App → App
  on_inquiry_complete a = if not (a.current_state ==ₛ inquiry) then a else elim (inquiry_target a) [
    | some target ↦
        (begin_connection btstack answers target
          (if a.auto_connect_enabled then adopt_target answers target a else a)).0
    | none ↦ start_idle_timer (transition_to_state idle a)
  ]

  -- The end of `HCI_EVENT_CONNECTION_COMPLETE` for a connection that a user cancelled.
  unfoldable pub complete_cancelled : ℕ → ℕ → App → App
  complete_cancelled status handle a =
      if status == btstack.success
      then emit (acl_disconnect handle)
          (transition_to_state connected (record a { acl_handle = handle }))
      else start_idle_timer (transition_to_state idle a)

  -- The end of `HCI_EVENT_CONNECTION_COMPLETE` for a connection that is wanted.
  unfoldable pub complete_wanted : ℕ → ℕ → BdAddr → App → App
  complete_wanted status handle address a =
      if status == 0
      then (let a1 =
            transition_to_state connected (reset_hid_channels (record a { acl_handle = handle })) in
          let a2 = transition_to_state authenticating (record a1 {
            devices = modify address (λ d. record d { connected = true }) a1.devices;
            connected_device_addr = address;
          }) in
          emit (request_security_level a2.acl_handle btstack.level_2) a2)
      else start_idle_timer (transition_to_state idle a)

  -- `HCI_EVENT_CONNECTION_COMPLETE`.
  unfoldable pub on_connection_complete : ℕ → ℕ → BdAddr → App → App
  on_connection_complete status handle address a =
      if not (a.current_state ==ₛ connecting)
      then (if status == btstack.success then emit (acl_disconnect handle) a else a)
      else let a1 = record a { connecting_device_valid = false } in
        if a1.connection_cancel_requested
        then complete_cancelled status handle (record a1 { connection_cancel_requested = false })
        else complete_wanted status handle address a1

  -- The control channel is open.
  unfoldable pub control_channel_opened : ℕ → App → App
  control_channel_opened cid a =
      let a1 =
        transition_to_state setting_boot_protocol
          (record a { hid_channels = hid_channels_control_opened a.hid_channels cid }) in
      let a2 = emit (request_can_send_now a1.hid_channels.control_cid) a1 in
      if not
        (answers.l2cap_request_can_send_now_event a2.hid_channels.control_cid == btstack.success)
      then disconnect_acl_after_error btstack answers a2
      else a2

  -- The interrupt channel is open.
  unfoldable pub interrupt_channel_opened : ℕ → App → App
  interrupt_channel_opened cid a =
      let a1 =
        transition_to_state hid_connected
          (record a { hid_channels = hid_channels_interrupt_opened a.hid_channels cid }) in
      schedule_keyboard_led_report btstack answers
        (record a1 { hid_channels = hid_channels_request_led_sync a1.hid_channels })

  -- `L2CAP_EVENT_CHANNEL_OPENED`.
  unfoldable pub on_channel_opened : ℕ → ℕ → ℕ → App → App
  on_channel_opened status psm cid a =
      if not (status == 0)
      then disconnect_acl_after_error btstack answers a
      else elim (get_connected_device a) [
        | none ↦ disconnect_acl_after_error btstack answers a
        | some dev ↦
            if psm == dev.hid_control_psm
            then control_channel_opened cid a
            else if psm == dev.hid_interrupt_psm
            then interrupt_channel_opened cid a
            else a
      ]

  -- The request for the boot protocol is sent.
  unfoldable pub send_boot_protocol : App → App
  send_boot_protocol a =
      let c = a.hid_channels in
      let packet = set_boot_protocol_request btstack ∷ [] in
      let a1 =
        emit (send c.control_cid packet)
          (record a { hid_channels = record c { boot_protocol_request_pending = false } }) in
      if not (answers.l2cap_send c.control_cid packet == btstack.success)
      then disconnect_acl_after_error btstack answers a1
      else a1

  -- The LED report is sent.
  unfoldable pub send_led_report : App → App
  send_led_report a =
      let c = a.hid_channels in
      let packet = hid_boot_keyboard_output_packet c.led_state in
      let a1 =
        emit (send c.control_cid packet)
          (record a { hid_channels = record c { led_can_send_requested = false } }) in
      if answers.l2cap_send c.control_cid packet == btstack.success
      then record a1 {
        hid_channels = record c { led_can_send_requested = false; led_report_pending = false };
      }
      else a1

  -- `L2CAP_EVENT_CAN_SEND_NOW`.
  unfoldable pub on_can_send_now : ℕ → App → App
  on_can_send_now cid a =
      let c = a.hid_channels in
      if cid == c.control_cid && c.boot_protocol_request_pending
      then send_boot_protocol a
      else if cid == c.control_cid && c.led_can_send_requested
      then send_led_report a
      else a

  -- `L2CAP_EVENT_CHANNEL_CLOSED`.
  unfoldable pub on_channel_closed : ℕ → App → App
  on_channel_closed cid a =
      let (c, closed) = hid_channels_closed a.hid_channels cid in
      let a1 = record a { hid_channels = c } in
      let a2 = if not (bit_and closed closed_interrupt == 0) then release_usb_keyboard a1 else a1 in
      if not (closed == closed_none)
        && not (a2.current_state ==ₛ disconnected)
        && not (a2.acl_handle == btstack.invalid_handle)
      then emit (acl_disconnect a2.acl_handle) a2
      else a2

  -- `GAP_EVENT_SECURITY_LEVEL`.
  unfoldable pub on_security_level : ℕ → ℕ → ℕ → App → App
  on_security_level handle status level a =
      if not (handle == a.acl_handle) || not (a.current_state ==ₛ authenticating)
      then a
      else if status == btstack.success && leb btstack.level_2 level
      then start_sdp_discovery btstack answers a
      else disconnect_acl_after_error btstack answers a

  -- `HCI_EVENT_AUTHENTICATION_COMPLETE_EVENT`.
  unfoldable pub on_authentication_complete : ℕ → ℕ → App → App
  on_authentication_complete handle status a =
      if handle == a.acl_handle
        && a.current_state ==ₛ authenticating
        && not (status == btstack.success)
      then disconnect_acl_after_error btstack answers a
      else a

  -- `HCI_EVENT_ENCRYPTION_CHANGE` and its second version.
  unfoldable pub on_encryption_change : ℕ → ℕ → ℕ → App → App
  on_encryption_change handle status enabled a =
      if not (handle == a.acl_handle) || not (a.current_state ==ₛ authenticating)
      then a
      else if status == btstack.success && not (enabled == 0)
      then start_sdp_discovery btstack answers a
      else disconnect_acl_after_error btstack answers a

  -- `HCI_EVENT_DISCONNECTION_COMPLETE`.
  unfoldable pub on_disconnection_complete : App → App
  on_disconnection_complete a =
      let a1 = transition_to_state disconnected a in
      let a2 = record a1 { devices = device_manager_clear_connections a1.devices } in
      start_idle_timer (transition_to_state idle (handle_disconnected_state btstack a2))

  -- `hci_event_handler`, `handle_sdp_client_query_result`, the timers and
  -- `bluetooth_set_keyboard_leds`.
  unfoldable pub handle : Event → App → App
  handle (Event.btstack_state working) a = on_btstack_state working a
  handle (Event.inquiry_result address has_rssi rssi class_of_device name name_length) a =
      on_inquiry_result address has_rssi rssi class_of_device name name_length a
  handle Event.inquiry_complete a = on_inquiry_complete a
  handle (Event.connection_complete status h address) a = on_connection_complete status h address a
  handle (Event.channel_opened status psm cid) a = on_channel_opened status psm cid a
  handle (Event.can_send_now cid) a = on_can_send_now cid a
  handle (Event.channel_closed cid) a = on_channel_closed cid a
  handle (Event.security_level h status level) a = on_security_level h status level a
  handle (Event.authentication_complete h status) a = on_authentication_complete h status a
  handle (Event.encryption_change h status enabled) a = on_encryption_change h status enabled a
  handle (Event.disconnection_complete h) a = on_disconnection_complete a
  handle (Event.pin_code_request address) a = on_pin_code_request answers address a
  handle (Event.link_key_request address) a = on_link_key_request answers address a
  handle (Event.link_key_notification size address notified) a =
      on_link_key_notification answers size address notified a
  handle (Event.data_packet channel packet) a =
      handle_hid_data_packet btstack answers channel packet a
  handle (Event.sdp_attribute_value attribute_id attribute_length attribute_offset byte) a =
      sdp_attribute_byte btstack answers attribute_id attribute_length attribute_offset byte a
  handle (Event.sdp_query_complete status) a = sdp_complete btstack answers status a
  handle Event.inquiry_timer_fired a = inquiry_timer_handler btstack answers a
  handle Event.pin_timer_fired a = pairing_pin_timeout a
  handle (Event.set_leds leds) a = record a {
    hid_channels = (hid_channels_set_leds a.hid_channels leds).0;
  }
  handle Event.other a = a
