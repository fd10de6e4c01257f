-- ===== src/Bt/Channels/Laws.antt =====
-- The bookkeeping of bt/hid_channels.c: what a closed channel leaves behind, and the LED state.
use picow_bt_kb_hid.Base.{ℕ, ◌≡◌, true, false, not, ◌||◌, ◌==◌, arith, bit_and}
use picow_bt_kb_hid.Bt.Channels.{
  HidChannels, hid_channels_reset_connection, hid_channels_control_opened,
  hid_channels_interrupt_opened, hid_channels_closed, hid_channels_set_leds,
  hid_channels_request_led_sync,
}

-- What waits for the control channel waits only while it is open.
pub record IsValid (c : HidChannels) : Type 0 where
  pub boot_needs_control : c.boot_protocol_request_pending ≡ true → c.control_open ≡ true
  pub send_needs_control : c.led_can_send_requested ≡ true → c.control_open ≡ true

pub reset-IsValid : (c : HidChannels) → IsValid (hid_channels_reset_connection c)
unfolding hid_channels_reset_connection
reset-IsValid c = ground arith

pub control_opened-IsValid :
    (c : HidChannels) (cid : ℕ) → IsValid (hid_channels_control_opened c cid)
unfolding hid_channels_control_opened
control_opened-IsValid c cid = ground arith

pub interrupt_opened-IsValid :
    (c : HidChannels) (cid : ℕ) → IsValid c → IsValid (hid_channels_interrupt_opened c cid)
unfolding hid_channels_interrupt_opened
interrupt_opened-IsValid c cid v = ground arith

pub closed-IsValid : (c : HidChannels) (cid : ℕ) → IsValid c → IsValid (hid_channels_closed c cid).0
unfolding hid_channels_closed
closed-IsValid c cid v = ground arith

pub set_leds-IsValid :
    (c : HidChannels) (leds : ℕ) → IsValid c → IsValid (hid_channels_set_leds c leds).0
unfolding hid_channels_set_leds
set_leds-IsValid c leds v = ground arith

pub request_led_sync-IsValid :
    (c : HidChannels) → IsValid c → IsValid (hid_channels_request_led_sync c)
unfolding hid_channels_request_led_sync
request_led_sync-IsValid c v = ground arith

-- Setting the LEDs asks for a report exactly if the masked LEDs differ from the LED state or a report
-- is pending already. Afterwards the masked LEDs are the LED state, a report is pending exactly if
-- one was asked for, and nothing else has changed.
pub set_leds_lem :
    (c : HidChannels) (leds : ℕ)
    → let (c', asked) = hid_channels_set_leds c leds in
      (asked ≡ (not (c.led_state == bit_and leds 0x1f) || c.led_report_pending))
      × (c'.led_report_pending ≡ asked)
      × (c'.led_state ≡ bit_and leds 0x1f)
      × (record c' { led_state = c.led_state; led_report_pending = c.led_report_pending } ≡ c)
unfolding hid_channels_set_leds
set_leds_lem c leds = ground arith

-- Losing the connection closes both channels and cancels what waited for them. LEDs set before are
-- kept: their masked value is the LED state, and a report of them is pending exactly if they differ
-- from the LEDs before or a report was pending then.
pub leds_survive_reset :
    (c : HidChannels) (leds : ℕ)
    → let c' = hid_channels_reset_connection (hid_channels_set_leds c leds).0 in
      (c'.led_state ≡ bit_and leds 0x1f)
      × (c'.led_report_pending ≡ (not (c.led_state == bit_and leds 0x1f) || c.led_report_pending))
      × (c'.control_open ≡ false)
      × (c'.control_cid ≡ 0)
      × (c'.interrupt_open ≡ false)
      × (c'.interrupt_cid ≡ 0)
      × (c'.boot_protocol_request_pending ≡ false)
      × (c'.led_can_send_requested ≡ false)
unfolding hid_channels_set_leds hid_channels_reset_connection
leds_survive_reset c leds = ground arith
