-- ===== src/Bt/App/Link.antt =====
-- bt/bluetooth.c: the state machine of the connection, its timers, and the start of a connection.
pub mod Shape
use picow_bt_kb_hid.Base.{
  ◌+◌, Bool, true, false, not, ◌&&◌, ◌||◌, Option, none, some, if◌then◌else◌, ◌==◌,
}
use picow_bt_kb_hid.Base.Bytes.{bytes_eq}
use picow_bt_kb_hid.Bt.Control.{BdAddr}
use picow_bt_kb_hid.Bt.State.{
  State, idle, inquiry, connecting, authenticating, ◌==ₛ◌, bt_state_transition_allowed,
}
use picow_bt_kb_hid.Bt.Channels.{hid_channels_reset_connection}
use picow_bt_kb_hid.Bt.Devices.{
  Device, DeviceManager, device_manager_init, device_manager_find, device_manager_upsert, modify,
}
use picow_bt_kb_hid.Usb.Keyboard.{keyboard_release_all}
use picow_bt_kb_hid.Bt.App.Platform.{
  Btstack, Answers, LinkKey, inquiry_start, create_connection, create_connection_cancel,
  acl_disconnect, store_selected, delete_selected, add_inquiry_timer, remove_inquiry_timer,
  add_pin_timer, remove_pin_timer, unexpected_transition,
}
use picow_bt_kb_hid.Bt.App.Model.{App, emit}

-- Whether an answer is there.
abbrev pub is_some : Option LinkKey → Bool
is_some none = false
is_some (some k) = true

-- `clear_pairing_pin`.
unfoldable pub clear_pairing_pin : App → App
clear_pairing_pin a =
    if a.pairing_pin_timer_armed
    then emit remove_pin_timer
        (record a { pairing_pin_pending = false; pairing_pin_timer_armed = false })
    else record a { pairing_pin_pending = false }

-- `pairing_pin_timeout`.
unfoldable pub pairing_pin_timeout : App → App
pairing_pin_timeout a = record a { pairing_pin_timer_armed = false; pairing_pin_pending = false }

-- `show_pairing_pin`.
unfoldable pub show_pairing_pin : App → App
show_pairing_pin a =
    emit add_pin_timer
      (record (clear_pairing_pin a) { pairing_pin_pending = true; pairing_pin_timer_armed = true })

-- The `if` of `transition_to_state`: the new state, and a warning if the transition is not foreseen.
unfoldable pub enter_state : State → App → App
enter_state new_state a =
    if not (a.current_state ==ₛ new_state)
    then (if not (bt_state_transition_allowed a.current_state new_state)
        then emit (unexpected_transition a.current_state new_state)
            (record a { current_state = new_state })
        else record a { current_state = new_state })
    else a

-- `transition_to_state`.
unfoldable pub transition_to_state : State → App → App
transition_to_state new_state a =
    enter_state new_state (if not (new_state ==ₛ authenticating) then clear_pairing_pin a else a)

-- The removal of the inquiry timer, in `start_inquiry` and `begin_connection`.
unfoldable pub disarm_inquiry_timer : App → App
disarm_inquiry_timer a =
    if a.inquiry_timer_armed
    then emit remove_inquiry_timer (record a { inquiry_timer_armed = false })
    else a

-- `start_inquiry`.
unfoldable pub start_inquiry : App → App
start_inquiry a =
    if not (a.current_state ==ₛ idle)
    then a
    else let a1 = transition_to_state inquiry (disarm_inquiry_timer a) in
      emit inquiry_start (record a1 { inquiry_count = a1.inquiry_count + 1 })

-- `start_idle_timer`.
unfoldable pub start_idle_timer : App → App
start_idle_timer a =
    if not a.auto_connect_enabled || not a.selected_device_valid
    then a
    else if a.inquiry_timer_armed
    then a
    else emit add_inquiry_timer (record a { inquiry_timer_armed = true })

-- The saved keyboard in the list of devices, which makes room for it if the list is full.
unfoldable pub insert_saved : BdAddr → DeviceManager → DeviceManager × Option Device
insert_saved address m =
    let (m1, saved, _) = device_manager_upsert m address false 0 0x0540 none 0 in
    elim saved [
      | some d ↦ (m1, some d)
      | none ↦
          let (m2, saved2, _) =
            device_manager_upsert device_manager_init address false 0 0x0540 none 0 in
          (m2, saved2)
    ]

-- The address is that of the saved keyboard, which the list of devices does not have.
abbrev pub saved_missing : BdAddr → App → Bool
saved_missing address a =
    a.selected_device_valid
    && bytes_eq address a.selected_device_addr
    && elim (device_manager_find a.devices address) [ none ↦ true | some d ↦ false ]

-- The part of `begin_connection` that restores the saved keyboard to the list of devices.
unfoldable pub restore_saved : Answers → BdAddr → App → App
restore_saved answers address a =
    if saved_missing address a
    then (let (m, saved) = insert_saved address a.devices in
        elim saved [
          | none ↦ record a { devices = m }
          | some d ↦ record a {
            devices =
                modify address (λ e. record e { bonded = is_some (answers.link_key address) }) m;
          }
        ])
    else a

-- `release_usb_keyboard`.
unfoldable pub release_usb_keyboard : App → App
release_usb_keyboard a = record a { keyboard = keyboard_release_all a.keyboard }

-- `reset_hid_channels`.
unfoldable pub reset_hid_channels : App → App
reset_hid_channels a = record a { hid_channels = hid_channels_reset_connection a.hid_channels }

module _ (btstack : Btstack) (answers : Answers) where
  -- The end of `begin_connection`, from `Connecting to` on.
  unfoldable pub request_connection : BdAddr → App → App × Bool
  request_connection address a =
      let a1 = emit (create_connection address) (
        transition_to_state connecting (record a {
          connecting_device_addr = address;
          connecting_device_valid = true;
          connection_cancel_requested = false;
        })) in
      if not (answers.create_connection address == btstack.success)
      then (
        start_idle_timer (transition_to_state idle (record a1 { connecting_device_valid = false })),
        false,
      )
      else (a1, true)

  -- `begin_connection`.
  unfoldable pub begin_connection : BdAddr → App → App × Bool
  begin_connection address a =
      if not (a.current_state ==ₛ idle) && not (a.current_state ==ₛ inquiry)
      then (a, false)
      else request_connection address (restore_saved answers address (disarm_inquiry_timer a))

  -- `inquiry_timer_handler`.
  unfoldable pub inquiry_timer_handler : App → App
  inquiry_timer_handler a =
      let a1 = record a { inquiry_timer_armed = false } in
      if a1.current_state ==ₛ idle && a1.auto_connect_enabled && a1.selected_device_valid
      then (begin_connection a1.selected_device_addr a1).0
      else a1

  -- `disconnect_acl_after_error`; its arguments are only printed.
  unfoldable pub disconnect_acl_after_error : App → App
  disconnect_acl_after_error a =
      let a1 = release_usb_keyboard a in
      if not (a1.acl_handle == btstack.invalid_handle)
      then emit (acl_disconnect a1.acl_handle) a1
      else start_idle_timer (transition_to_state idle (reset_hid_channels a1))

-- `cancel_pending_connection`.
unfoldable pub cancel_pending_connection : App → App
cancel_pending_connection a =
    if not (a.current_state ==ₛ connecting) || not a.connecting_device_valid
    then a
    else emit (create_connection_cancel a.connecting_device_addr)
        (record a { connection_cancel_requested = true })

-- `store_selected_device`; its result is only printed.
unfoldable pub store_selected_device : Answers → App → App
store_selected_device answers a =
    if answers.has_tlv then emit (store_selected a.selected_device_addr) a else a

-- `delete_selected_device`.
unfoldable pub delete_selected_device : Answers → App → App
delete_selected_device answers a = if answers.has_tlv then emit delete_selected a else a
