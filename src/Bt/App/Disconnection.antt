-- ===== src/Bt/App/Disconnection.antt =====
-- bt/bluetooth.c: what the end of a connection leaves.
use picow_bt_kb_hid.Base.{ℕ, ◌≡◌, refl, false, List, [], ◌∷◌, ◌∙◌, ap, map, All}
use mathlib.Core.Path.{subst}
use picow_bt_kb_hid.Bt.State.{State, idle, disconnected}
use picow_bt_kb_hid.Bt.Channels.{HidChannels, hid_channels_reset_connection}
use picow_bt_kb_hid.Bt.Devices.{Device, device_manager_clear_connections}
use picow_bt_kb_hid.Usb.Keyboard.{ReportQueue, keyboard_release_all, released}
use picow_bt_kb_hid.Usb.Keyboard.Refine.{pending, release_all_lem}
use picow_bt_kb_hid.Usb.Keyboard.Refine
use picow_bt_kb_hid.Bt.App.Platform.{Btstack, Answers, Event}
use picow_bt_kb_hid.Bt.App.Model.{App}
use picow_bt_kb_hid.Bt.App.Link.{
  transition_to_state, start_idle_timer, release_usb_keyboard, reset_hid_channels,
}
use picow_bt_kb_hid.Bt.App.Link.Shape.{transition_shape, start_idle_timer_shape, retry_timer}
use picow_bt_kb_hid.Bt.App.Events.{handle, on_disconnection_complete, handle_disconnected_state}

-- What a transition leaves of the fields that the end of a connection writes.
record SameLink (a b : App) : Type 0 where
  handle : b.acl_handle ≡ a.acl_handle
  channels : b.hid_channels ≡ a.hid_channels
  devices : b.devices ≡ a.devices
  keys : b.keyboard ≡ a.keyboard
  retry : retry_timer b ≡ retry_timer a

transition-SameLink : (s : State) (a : App) → SameLink a (transition_to_state s a)
transition-SameLink s a =
    rw (transition_shape s a)
      (record { handle = refl; channels = refl; devices = refl; keys = refl; retry = refl })

-- The channels are closed and what waited for them is cancelled. The LEDs and whether a report of
-- them is due are as before.
pub record IsClosed (c d : HidChannels) : Type 0 where
  pub control : (d.control_open ≡ false) × (d.control_cid ≡ 0)
  pub interrupt : (d.interrupt_open ≡ false) × (d.interrupt_cid ≡ 0)
  pub cancelled : (d.boot_protocol_request_pending ≡ false) × (d.led_can_send_requested ≡ false)
  pub leds : (d.led_state ≡ c.led_state) × (d.led_report_pending ≡ c.led_report_pending)

reset-IsClosed : (c : HidChannels) → IsClosed c (hid_channels_reset_connection c)
unfolding hid_channels_reset_connection
reset-IsClosed c = record {
  control = (refl, refl);
  interrupt = (refl, refl);
  cancelled = (refl, refl);
  leds = (refl, refl);
}

-- A device with its connection forgotten.
abbrev pub unconnected : Device → Device
unconnected d = record d { connected = false }

-- No device is connected, and the devices are as before but for their connections.
pub record IsDisconnected (before after : List Device) : Type 0 where
  pub none_connected : All (λ (d : Device). d.connected ≡ false) after
  pub same_devices : map unconnected after ≡ map unconnected before

clear-IsDisconnected :
    (devices : List Device) → IsDisconnected devices (device_manager_clear_connections devices)
unfolding device_manager_clear_connections
clear-IsDisconnected [] = record { none_connected = tt; same_devices = refl }
clear-IsDisconnected (d ∷ devices) =
    let rest = clear-IsDisconnected devices in
    record {
      none_connected = (refl, rest.none_connected);
      same_devices = ap (λ (l : List Device). unconnected d ∷ l) rest.same_devices;
    }

-- What is there after a connection has ended.
pub record IsReset (btstack : Btstack) (a b : App) : Type 0 where
  pub state : b.current_state ≡ idle
  pub handle : b.acl_handle ≡ btstack.invalid_handle
  pub channels : IsClosed a.hid_channels b.hid_channels
  pub devices : IsDisconnected a.devices b.devices
  pub keys : pending b.keyboard ≡ released ∷ []
  pub pin : b.pairing_pin_pending ≡ false
  pub retry : b.inquiry_timer_armed ≡ retry_timer a

-- Where the report ring is valid, every disconnection, in any state and of any handle, ends in
-- `Idle` with no handle, with both channels closed, what waited for them cancelled and the LEDs with
-- their pending report kept, with the same devices of which none is connected, with no PIN displayed
-- and a report that releases all keys as the only one for USB; and a retry is due afterwards if one
-- was before, or if automatic connections are wanted and a keyboard is selected.
pub disconnection-IsReset :
    (btstack : Btstack) (answers : Answers) (h : ℕ) (a : App)
    → Refine.IsValid a.keyboard
    → IsReset btstack a (handle btstack answers (Event.disconnection_complete h) a)
unfolding handle on_disconnection_complete handle_disconnected_state release_usb_keyboard
    reset_hid_channels
disconnection-IsReset btstack answers h a v = ended
  where
    left : App
    left = transition_to_state disconnected a

    gone : App
    gone = record left {
      devices = device_manager_clear_connections left.devices;
      keyboard = keyboard_release_all left.keyboard;
      hid_channels = hid_channels_reset_connection left.hid_channels;
      acl_handle = btstack.invalid_handle;
    }

    was : SameLink a left
    was = transition-SameLink disconnected a

    ended : IsReset btstack a (start_idle_timer (transition_to_state idle gone))
    ended =
        rw (start_idle_timer_shape (transition_to_state idle gone), transition_shape idle gone)
          (record {
            state = refl;
            handle = refl;
            channels =
                subst
                  (λ (c : HidChannels).
                    IsClosed c (hid_channels_reset_connection left.hid_channels))
                  was.channels (reset-IsClosed left.hid_channels);
            devices =
                subst
                  (λ (l : List Device).
                    IsDisconnected l (device_manager_clear_connections left.devices))
                  was.devices (clear-IsDisconnected left.devices);
            keys =
                ap (λ (q : ReportQueue). pending (keyboard_release_all q)) was.keys
                ∙ release_all_lem v;
            pin = refl;
            retry = was.retry;
          })
