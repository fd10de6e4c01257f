-- ===== src/Bt/App/Pairing.antt =====
-- bt/bluetooth.c: the cases of `hci_event_handler` for PIN codes and link keys.
use picow_bt_kb_hid.Base.{ℕ, Bool, true, false, ◌&&◌, Option, none, some, if◌then◌else◌, ◌==◌, ltb}
use picow_bt_kb_hid.Base.Bytes.{bytes_eq}
use picow_bt_kb_hid.Bt.Control.{BdAddr}
use picow_bt_kb_hid.Bt.Devices.{modify}
use picow_bt_kb_hid.Bt.App.Platform.{
  Answers, LinkKey, drop_link_key, store_link_key, pin_code_reply, link_key_reply,
}
use picow_bt_kb_hid.Bt.App.Model.{App, emit}
use picow_bt_kb_hid.Bt.App.Link.{show_pairing_pin, is_some}

-- `device->bonded` set for the device at an address, if there is one.
abbrev pub set_bonded : BdAddr → Bool → App → App
set_bonded address bonded a = record a {
  devices = modify address (λ d. record d { bonded = bonded }) a.devices;
}

module _ (answers : Answers) where
  -- `HCI_EVENT_PIN_CODE_REQUEST`.
  unfoldable pub on_pin_code_request : BdAddr → App → App
  on_pin_code_request address a =
      let a1 =
        if is_some (answers.link_key address)
        then set_bonded address false (emit (drop_link_key address) a)
        else a in
      emit (pin_code_reply address) (show_pairing_pin a1)

  -- `HCI_EVENT_LINK_KEY_REQUEST`; `none` is the reply with `INVALID_LINK_KEY`.
  unfoldable pub on_link_key_request : BdAddr → App → App
  on_link_key_request address a = emit (link_key_reply address (answers.link_key address)) a

-- `stored && stored_type == notified_type && memcmp(stored_key, notified_key) == 0`.
unfoldable pub is_verified : Option LinkKey → LinkKey → Bool
is_verified none notified = false
is_verified (some (key, type)) (notified_key, notified_type) =
    type == notified_type && bytes_eq key notified_key

module _ (answers : Answers) where
  -- `HCI_EVENT_LINK_KEY_NOTIFICATION`.
  unfoldable pub on_link_key_notification : ℕ → BdAddr → LinkKey → App → App
  on_link_key_notification size address notified a =
      if ltb size 25
      then a
      else if is_verified (answers.link_key address) notified
      then set_bonded address true a
      else set_bonded address (is_verified (answers.link_key_after_store address) notified)
          (emit (store_link_key address notified) a)
