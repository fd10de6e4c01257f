-- ===== src/Bt/App/Consistent/Events.antt =====
-- The flags and the state after the cases of `hci_event_handler` in bt/bluetooth.c up to a
-- connection.
use picow_bt_kb_hid.Base.{
  ℕ, ◌≡◌, ◌≢◌, refl, ap, Bool, true, false, not, ◌&&◌, arith, if_rule, option_rule, ◌==◌, List,
  Option, ==_iff, ◌⊎◌, inl, inr,
}
use picow_bt_kb_hid.Bt.Control.{BdAddr}
use picow_bt_kb_hid.Bt.State.{idle, inquiry, connecting, connected, authenticating, ◌==ₛ◌}
use picow_bt_kb_hid.Bt.Channels.{hid_channels_reset_connection}
use picow_bt_kb_hid.Bt.Devices.{device_manager_upsert, modify}
use picow_bt_kb_hid.Bt.App.Platform.{Btstack, Answers}
use picow_bt_kb_hid.Bt.App.Model.{App}
use picow_bt_kb_hid.Bt.App.Link.{
  transition_to_state, reset_hid_channels, store_selected_device, disconnect_acl_after_error,
}
use picow_bt_kb_hid.Bt.App.Link.Shape.{state_eq, transition_shape}
use picow_bt_kb_hid.Bt.App.Events.{
  is_hid_supported, inquiry_target, adopt_target, on_btstack_state, on_inquiry_result,
  on_inquiry_complete, complete_cancelled, complete_wanted, on_connection_complete,
}
use picow_bt_kb_hid.Bt.App.Consistent.{IsConsistent, is_busy}
use picow_bt_kb_hid.Bt.App.Consistent.Link.{
  PinAgrees, leave, advance, timer_off, to_idle, begin_connection-IsConsistent,
  disconnect_acl_after_error-IsConsistent,
}

module _ (btstack : Btstack) (answers : Answers) where
  abbrev Good : App → Type 0
  Good = IsConsistent btstack

  fails : (a : App) → Good a → Good (disconnect_acl_after_error btstack answers a)
  fails a v = disconnect_acl_after_error-IsConsistent btstack answers a v

  pub adopt_target-IsConsistent :
      (target : BdAddr) (a : App) → Good a → Good (adopt_target answers target a)
  unfolding adopt_target store_selected_device
  adopt_target-IsConsistent target a v =
      if_rule Good (not a.selected_device_valid)
        (λ _.
          if_rule Good answers.has_tlv (λ _. record { agrees = v.agrees })
            (λ _. record { agrees = v.agrees }))
        (λ _. v)

  pub btstack_state-IsConsistent :
      (working : Bool) (a : App) → Good a → Good (on_btstack_state btstack answers working a)
  unfolding on_btstack_state
  btstack_state-IsConsistent working a v =
      let w = leave btstack idle (record a { stack_working = true }) refl v.pin in
      let b = transition_to_state idle (record a { stack_working = true }) in
      if_rule Good (not working) (λ _. v)
        λ _.
          if_rule Good (b.auto_connect_enabled && b.selected_device_valid)
            (λ _. begin_connection-IsConsistent btstack answers b.selected_device_addr b w) (λ _. w)

  pub inquiry_result-IsConsistent :
      (address : BdAddr) (has_rssi : Bool) (rssi cod : ℕ) (name : Option (List ℕ)) (n : ℕ) (a : App)
      → Good a
      → Good (on_inquiry_result btstack answers address has_rssi rssi cod name n a)
  unfolding on_inquiry_result
  inquiry_result-IsConsistent address has_rssi rssi cod name n a v =
      if_rule Good
        (is_hid_supported (device_manager_upsert a.devices address has_rssi rssi cod name n).1)
        (λ _. record { agrees = v.agrees }) (λ _. record { agrees = v.agrees })

  pub inquiry_complete-IsConsistent :
      (a : App) → Good a → Good (on_inquiry_complete btstack answers a)
  unfolding on_inquiry_complete
  inquiry_complete-IsConsistent a v =
      if_rule Good (not (a.current_state ==ₛ inquiry)) (λ _. v)
        λ _.
          option_rule Good (inquiry_target a) (λ _. to_idle btstack a v.pin)
            (λ target _. begin_connection-IsConsistent btstack answers target _ (
              if_rule Good a.auto_connect_enabled (λ _. adopt_target-IsConsistent target a v)
                (λ _. v)))

  cancelled-IsConsistent :
      (status h : ℕ) (a : App)
      → ((status ≡ 0) ⊎ (status ≡ btstack.success) → h ≢ btstack.invalid_handle)
      → a.inquiry_timer_armed ≡ false
      → PinAgrees a
      → Good (complete_cancelled btstack answers status h a)
  unfolding complete_cancelled
  cancelled-IsConsistent status h a ok off pin =
      if_rule Good (status == btstack.success)
        (λ e.
          let up =
            advance btstack connected (record a { acl_handle = h }) off (λ e. cc)
              (λ _. ok (inr ((==_iff status btstack.success).0 e))) pin in
          record { agrees = up.agrees })
        (λ _. to_idle btstack a pin)

  wanted-IsConsistent :
      (status h : ℕ) (address : BdAddr) (a : App)
      → ((status ≡ 0) ⊎ (status ≡ btstack.success) → h ≢ btstack.invalid_handle)
      → a.inquiry_timer_armed ≡ false
      → PinAgrees a
      → Good (complete_wanted btstack answers status h address a)
  unfolding complete_wanted reset_hid_channels
  wanted-IsConsistent status h address a ok off pin =
      if_rule Good (status == 0)
        (λ e.
          let linked = record a {
            acl_handle = h;
            hid_channels = hid_channels_reset_connection a.hid_channels;
          } in
          let up =
            advance btstack connected linked off (λ e. cc) (λ _. ok (inl ((==_iff status 0).0 e)))
              pin in
          let a1 = transition_to_state connected linked in
          let secured =
            advance btstack authenticating
              (record a1 {
                devices = modify address (λ d. record d { connected = true }) a1.devices;
                connected_device_addr = address;
              })
              (rw (transition_shape connected linked) off) (λ e. cc)
              (λ _. rw (transition_shape connected linked) (ok (inl ((==_iff status 0).0 e))))
              up.pin in
          record { agrees = secured.agrees })
        (λ _. to_idle btstack a pin)

  pub connection_complete-IsConsistent :
      (status h : ℕ) (address : BdAddr) (a : App)
      → ((status ≡ 0) ⊎ (status ≡ btstack.success) → h ≢ btstack.invalid_handle)
      → Good a
      → Good (on_connection_complete btstack answers status h address a)
  unfolding on_connection_complete
  connection_complete-IsConsistent status h address a ok v =
      if_rule Good (not (a.current_state ==ₛ connecting))
        (λ _. if_rule Good (status == btstack.success) (λ _. record { agrees = v.agrees }) (λ _. v))
        λ e.
          let off =
            timer_off btstack v (ap is_busy (state_eq a.current_state connecting (ground arith))) in
          if_rule Good a.connection_cancel_requested
            (λ _. cancelled-IsConsistent status h _ ok off v.pin)
            (λ _. wanted-IsConsistent status h address _ ok off v.pin)
