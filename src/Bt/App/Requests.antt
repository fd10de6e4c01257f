-- ===== src/Bt/App/Requests.antt =====
-- bt/bluetooth.c: `execute_control_request`. What help and status print is left out.
use picow_bt_kb_hid.Base.{true, false, not, ◌&&◌, Option, none, some, if◌then◌else◌, ◌==◌}
use picow_bt_kb_hid.Bt.Control.{BdAddr, Action, Request}
use picow_bt_kb_hid.Bt.State.{idle, connecting, ◌==ₛ◌}
use picow_bt_kb_hid.Bt.Devices.{
  device_manager_init, device_manager_find, device_manager_get_connection_target,
  device_manager_clear_bonded,
}
use picow_bt_kb_hid.Bt.App.Platform.{Btstack, Answers, acl_disconnect, delete_all_link_keys}
use picow_bt_kb_hid.Bt.App.Model.{App, emit}
use picow_bt_kb_hid.Bt.App.Link.{
  start_inquiry, begin_connection, cancel_pending_connection, store_selected_device,
  delete_selected_device,
}
use picow_bt_kb_hid.Bt.App.Events.{is_hid_supported, adopt_target}

-- `BLUETOOTH_CONTROL_SCAN`.
unfoldable pub request_scan : App → App
request_scan a =
    if not (a.current_state ==ₛ idle)
    then a
    else start_inquiry (record a { auto_connect_enabled = false; devices = device_manager_init })

-- The keyboard that a reconnect goes to.
unfoldable pub reconnect_target : App → Option BdAddr
reconnect_target a =
    if a.selected_device_valid
    then some a.selected_device_addr
    else device_manager_get_connection_target a.devices

module _ (btstack : Btstack) (answers : Answers) where
  -- `BLUETOOTH_CONTROL_CONNECT`.
  unfoldable pub request_connect : BdAddr → App → App
  request_connect address a =
      if not (is_hid_supported (device_manager_find a.devices address))
      then a
      else if not (a.current_state ==ₛ idle)
      then a
      else let a1 = store_selected_device answers (record a {
        selected_device_addr = address;
        selected_device_valid = true;
        auto_connect_enabled = true;
      }) in
        (begin_connection btstack answers a1.selected_device_addr a1).0

  -- `BLUETOOTH_CONTROL_DISCONNECT`.
  unfoldable pub request_disconnect : App → App
  request_disconnect a =
      let a1 = record a { auto_connect_enabled = false } in
      if not (a1.acl_handle == btstack.invalid_handle)
      then emit (acl_disconnect a1.acl_handle) a1
      else if a1.current_state ==ₛ connecting && a1.connecting_device_valid
      then cancel_pending_connection a1
      else a1

  -- `BLUETOOTH_CONTROL_RECONNECT`.
  unfoldable pub request_reconnect : App → App
  request_reconnect a =
      let a1 = record a { auto_connect_enabled = true } in
      if not (a1.acl_handle == btstack.invalid_handle)
      then a1
      else if not (a1.current_state ==ₛ idle)
      then a1
      else elim (reconnect_target a1) [
        | some target ↦ (begin_connection btstack answers target (adopt_target answers target a1)).0
        | none ↦ start_inquiry a1
      ]

  -- `BLUETOOTH_CONTROL_FORGET`.
  unfoldable pub request_forget : App → App
  request_forget a =
      let a1 = emit delete_all_link_keys (
        delete_selected_device answers
          (record a { auto_connect_enabled = false; selected_device_valid = false })) in
      let a2 = record a1 { devices = device_manager_clear_bonded a1.devices } in
      if not (a2.acl_handle == btstack.invalid_handle)
      then emit (acl_disconnect a2.acl_handle) a2
      else cancel_pending_connection a2

  -- The `switch` of `execute_control_request`.
  unfoldable pub execute_action : Action → BdAddr → App → App
  execute_action Action.help address a = a
  execute_action Action.status address a = a
  execute_action Action.scan address a = request_scan a
  execute_action Action.connect address a = request_connect address a
  execute_action Action.disconnect address a = request_disconnect a
  execute_action Action.reconnect address a = request_reconnect a
  execute_action Action.forget address a = request_forget a

  -- `execute_control_request`.
  unfoldable pub execute_control_request : Request → App → App
  execute_control_request r a = execute_action r.action r.address a
