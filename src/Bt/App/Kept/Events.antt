-- ===== src/Bt/App/Kept/Events.antt =====
-- What the cases of `hci_event_handler` leave alone.
use picow_bt_kb_hid.Base.{
  some, [], ◌∷◌, ℕ, ◌≡◌, Bool, true, not, ◌&&◌, if◌then◌else◌, arith, if_rule, option_rule, ◌==◌,
  List, Option, ◌∙◌,
}
use picow_bt_kb_hid.Bt.Control.{BdAddr}
use picow_bt_kb_hid.Bt.State.{
  idle, inquiry, connecting, connected, authenticating, setting_boot_protocol, hid_connected, ◌==ₛ◌,
}
use picow_bt_kb_hid.Bt.Channels.{
  hid_channels_request_led_sync, hid_channels_control_opened, hid_channels_interrupt_opened,
  hid_channels_reset_connection,
}
use picow_bt_kb_hid.Bt.Devices.{device_manager_upsert}
use picow_bt_kb_hid.Bt.App.Platform.{Btstack, Answers}
use picow_bt_kb_hid.Bt.App.Model.{App}
use picow_bt_kb_hid.Bt.App.Link.{
  transition_to_state, reset_hid_channels, disconnect_acl_after_error,
}
use picow_bt_kb_hid.Bt.App.Hid.{get_connected_device}
use picow_bt_kb_hid.Bt.App.Events.{
  is_hid_supported, set_boot_protocol_request, inquiry_target, adopt_target, on_btstack_state,
  on_inquiry_result, on_inquiry_complete, complete_cancelled, complete_wanted,
  on_connection_complete, control_channel_opened, interrupt_channel_opened, on_channel_opened,
  send_boot_protocol,
}
use picow_bt_kb_hid.Bt.App.Kept.{Kept, Kept-refl, Kept-trans, unchanged, marked}
use picow_bt_kb_hid.Bt.App.Kept.Link.{
  transition-Kept, disconnect_acl_after_error-Kept, idle-Kept, store-Kept, begin_connection-Kept,
}
use picow_bt_kb_hid.Bt.App.Kept.Hid.{schedule-Kept}

module _ (btstack : Btstack) (answers : Answers) where
  fails : (a : App) → Kept a (disconnect_acl_after_error btstack answers a)
  fails a = disconnect_acl_after_error-Kept btstack answers a

  pub adopt_target-Kept : (target : BdAddr) (a : App) → Kept a (adopt_target answers target a)
  unfolding adopt_target
  adopt_target-Kept target a =
      if_rule (Kept a) (not a.selected_device_valid)
        (λ _. Kept-trans (record { keeps = unchanged }) (store-Kept answers _)) (λ _. Kept-refl a)

  pub btstack_state-Kept :
      (working : Bool) (a : App) → Kept a (on_btstack_state btstack answers working a)
  unfolding on_btstack_state
  btstack_state-Kept working a =
      let a0 = record a { stack_working = true } in
      let b = transition_to_state idle a0 in
      let t : Kept a b = Kept-trans (record { keeps = unchanged }) (transition-Kept idle a0) in
      if_rule (Kept a) (not working) (λ _. Kept-refl a)
        λ _.
          if_rule (Kept a) (b.auto_connect_enabled && b.selected_device_valid)
            (λ e. Kept-trans t (
              begin_connection-Kept btstack answers b.selected_device_addr b
                (wanted b.auto_connect_enabled b.selected_device_valid e)))
            (λ _. t)
    where
      wanted : (x y : Bool) → (x && y) ≡ true → x ≡ true
      wanted x y e = ground arith

  pub inquiry_result-Kept :
      (address : BdAddr) (has_rssi : Bool) (rssi cod : ℕ) (name : Option (List ℕ)) (n : ℕ) (a : App)
      → Kept a (on_inquiry_result btstack answers address has_rssi rssi cod name n a)
  unfolding on_inquiry_result
  inquiry_result-Kept address has_rssi rssi cod name n a =
      if_rule (Kept a)
        (is_hid_supported (device_manager_upsert a.devices address has_rssi rssi cod name n).1)
        (λ _. record { keeps = unchanged }) (λ _. record { keeps = unchanged })

  -- A finished inquiry has a target only where automatic connections are wanted.
  target_wanted :
      (a : App) (target : BdAddr) → inquiry_target a ≡ some target → a.auto_connect_enabled ≡ true
  unfolding inquiry_target
  target_wanted a target e = ground arith

  pub inquiry_complete-Kept : (a : App) → Kept a (on_inquiry_complete btstack answers a)
  unfolding on_inquiry_complete
  inquiry_complete-Kept a =
      if_rule (Kept a) (not (a.current_state ==ₛ inquiry)) (λ _. Kept-refl a)
        λ _.
          option_rule (Kept a) (inquiry_target a) (λ _. idle-Kept a)
            λ target e.
              let adopted : Kept a
                  (if a.auto_connect_enabled then adopt_target answers target a else a) =
                if_rule (Kept a) a.auto_connect_enabled (λ _. adopt_target-Kept target a)
                  (λ _. Kept-refl a) in
              Kept-trans adopted (
                begin_connection-Kept btstack answers target _
                  (adopted.policy ∙ target_wanted a target e))

  pub connection_complete-Kept :
      (status h : ℕ) (address : BdAddr) (a : App)
      → Kept a (on_connection_complete btstack answers status h address a)
  unfolding on_connection_complete complete_cancelled complete_wanted reset_hid_channels
      hid_channels_reset_connection
  connection_complete-Kept status h address a =
      if_rule (Kept a) (not (a.current_state ==ₛ connecting))
        (λ _.
          if_rule (Kept a) (status == btstack.success) (λ _. record { keeps = unchanged })
            (λ _. Kept-refl a))
        λ _.
          if_rule (Kept a) a.connection_cancel_requested
            (λ _.
              if_rule (Kept a) (status == btstack.success)
                (λ _.
                  Kept-trans (record { keeps = unchanged })
                    (Kept-trans (transition-Kept connected _) (record { keeps = unchanged })))
                (λ _. Kept-trans (record { keeps = unchanged }) (idle-Kept _)))
            λ _.
              if_rule (Kept a) (status == 0)
                (λ _.
                  Kept-trans (record { keeps = unchanged })
                    (Kept-trans (transition-Kept connected _) (
                      Kept-trans (record { keeps = unchanged })
                        (Kept-trans (transition-Kept authenticating _)
                          (record { keeps = unchanged })))))
                (λ _. Kept-trans (record { keeps = unchanged }) (idle-Kept _))

  pub channel_opened-Kept :
      (status psm cid : ℕ) (a : App) → Kept a (on_channel_opened btstack answers status psm cid a)
  unfolding on_channel_opened control_channel_opened interrupt_channel_opened
      hid_channels_control_opened hid_channels_interrupt_opened hid_channels_request_led_sync
  channel_opened-Kept status psm cid a =
      let opened = record a { hid_channels = hid_channels_control_opened a.hid_channels cid } in
      let t : Kept a (transition_to_state setting_boot_protocol opened) =
        Kept-trans (record { keeps = unchanged }) (transition-Kept setting_boot_protocol opened) in
      let begun = record a { hid_channels = hid_channels_interrupt_opened a.hid_channels cid } in
      let ready = transition_to_state hid_connected begun in
      let up : Kept a ready =
        Kept-trans (record { keeps = unchanged }) (transition-Kept hid_connected begun) in
      let synced : Kept ready
          (record ready { hid_channels = hid_channels_request_led_sync ready.hid_channels }) =
        record { keeps = marked } in
      if_rule (Kept a) (not (status == 0)) (λ _. fails a)
        λ _.
          option_rule (Kept a) (get_connected_device a) (λ _. fails a)
            λ dev _.
              if_rule (Kept a) (psm == dev.hid_control_psm)
                (λ _.
                  if_rule (Kept a)
                    (not (
                      answers.l2cap_request_can_send_now_event
                        (transition_to_state setting_boot_protocol opened).hid_channels.control_cid
                      == btstack.success))
                    (λ _. Kept-trans t (Kept-trans (record { keeps = unchanged }) (fails _)))
                    (λ _. Kept-trans t (record { keeps = unchanged })))
                λ _.
                  if_rule (Kept a) (psm == dev.hid_interrupt_psm)
                    (λ _. Kept-trans up (Kept-trans synced (schedule-Kept btstack answers _)))
                    (λ _. Kept-refl a)

  pub send_boot_protocol-Kept : (a : App) → Kept a (send_boot_protocol btstack answers a)
  unfolding send_boot_protocol
  send_boot_protocol-Kept a =
      if_rule (Kept a)
        (not (
          answers.l2cap_send a.hid_channels.control_cid (set_boot_protocol_request btstack ∷ [])
          == btstack.success))
        (λ _. Kept-trans (record { keeps = unchanged }) (fails _))
        (λ _. record { keeps = unchanged })
