-- ===== src/Bt/App/Platform.antt =====
-- What bt/bluetooth.c takes from BTstack: constants, the answers of its functions during one event,
-- the events that it reports, and the calls that change something outside the firmware.
use picow_bt_kb_hid.Base.{ℕ, Bool, List, Option}
use picow_bt_kb_hid.Bt.Control.{BdAddr}
use picow_bt_kb_hid.Bt.State.{State}

-- The constants of BTstack's headers that the code compares with or sends.
pub record Btstack : Type 0 where
  -- `ERROR_CODE_SUCCESS`
  pub success : ℕ
  -- `HCI_CON_HANDLE_INVALID`
  pub invalid_handle : ℕ
  -- `LEVEL_2`
  pub level_2 : ℕ
  -- `HID_MESSAGE_TYPE_HANDSHAKE` and `HID_HANDSHAKE_PARAM_TYPE_SUCCESSFUL`
  pub handshake : ℕ
  pub handshake_successful : ℕ
  -- `HID_MESSAGE_TYPE_SET_PROTOCOL` and `HID_PROTOCOL_MODE_BOOT`
  pub set_protocol : ℕ
  pub protocol_mode_boot : ℕ
  -- `INVALID_LINK_KEY`
  pub invalid_link_key : ℕ

-- A link key and its type.
abbrev pub LinkKey : Type 0
LinkKey = List ℕ × ℕ

-- The answers of BTstack while one event is handled.
pub record Answers : Type 0 where
  -- the status of `hci_send_cmd(&hci_create_connection, …)`
  pub create_connection : BdAddr → ℕ
  -- the status of `l2cap_create_channel` for a PSM, and the channel id if it writes one
  pub l2cap_create_channel : ℕ → ℕ × Option ℕ
  pub l2cap_request_can_send_now_event : ℕ → ℕ
  pub l2cap_send : ℕ → List ℕ → ℕ
  pub sdp_client_query_uuid16 : BdAddr → ℕ
  -- `gap_get_link_key_for_bd_addr`, and the same after the code stored a key
  pub link_key : BdAddr → Option LinkKey
  pub link_key_after_store : BdAddr → Option LinkKey
  -- whether `btstack_tlv_get_instance` gives a store
  pub has_tlv : Bool

-- A call that changes something outside, with its arguments, or a warning of the state machine.
pub data Effect : Type 0 where
  inquiry_start : Effect
  create_connection : BdAddr → Effect
  create_connection_cancel : BdAddr → Effect
  acl_disconnect : ℕ → Effect
  request_security_level : ℕ → ℕ → Effect
  sdp_query : BdAddr → Effect
  create_channel : BdAddr → ℕ → Effect
  request_can_send_now : ℕ → Effect
  send : ℕ → List ℕ → Effect
  store_selected : BdAddr → Effect
  delete_selected : Effect
  drop_link_key : BdAddr → Effect
  store_link_key : BdAddr → LinkKey → Effect
  delete_all_link_keys : Effect
  pin_code_reply : BdAddr → Effect
  link_key_reply : BdAddr → Option LinkKey → Effect
  add_inquiry_timer remove_inquiry_timer add_pin_timer remove_pin_timer : Effect
  unexpected_transition : State → State → Effect

-- What the event loop hands to the application, with the fields that the code reads: the packets of
-- `hci_event_handler` and `handle_sdp_client_query_result`, the two timers, and the LEDs from USB.
pub data Event : Type 0 where
  -- `BTSTACK_EVENT_STATE`, and whether the state is `HCI_STATE_WORKING`
  btstack_state : Bool → Event
  -- address, RSSI available, RSSI, class of device, name, length of the name
  inquiry_result : BdAddr → Bool → ℕ → ℕ → Option (List ℕ) → ℕ → Event
  inquiry_complete : Event
  -- status, handle, address
  connection_complete : ℕ → ℕ → BdAddr → Event
  -- status, PSM, local CID
  channel_opened : ℕ → ℕ → ℕ → Event
  can_send_now : ℕ → Event
  channel_closed : ℕ → Event
  -- handle, status, level
  security_level : ℕ → ℕ → ℕ → Event
  -- handle, status
  authentication_complete : ℕ → ℕ → Event
  -- handle, status, enabled
  encryption_change : ℕ → ℕ → ℕ → Event
  disconnection_complete : ℕ → Event
  pin_code_request : BdAddr → Event
  link_key_request : BdAddr → Event
  -- size of the packet, address, key and type
  link_key_notification : ℕ → BdAddr → LinkKey → Event
  -- an `L2CAP_DATA_PACKET`: channel and bytes
  data_packet : ℕ → List ℕ → Event
  -- attribute id, length, offset and byte
  sdp_attribute_value : ℕ → ℕ → ℕ → ℕ → Event
  sdp_query_complete : ℕ → Event
  inquiry_timer_fired pin_timer_fired : Event
  set_leds : ℕ → Event
  -- any other packet or event, which is only logged or ignored
  other : Event
