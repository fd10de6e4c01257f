-- ===== src/Bt/Channels.antt =====
-- bt/hid_channels.c and bt/hid_channels.h: the L2CAP channels of the HID profile and the LED state.
pub mod Laws
use picow_bt_kb_hid.Base.{
  ℕ, ◌+◌, Bool, true, false, not, ◌&&◌, if◌then◌else◌, ◌==◌, bit_and, bit_or,
}

-- `HidChannels`. A channel id (a CID) is a `uint16_t`, and 0 is no channel.
pub record HidChannels : Type 0 where
  pub control_cid : ℕ
  pub interrupt_cid : ℕ
  pub control_open : Bool
  pub interrupt_open : Bool
  pub boot_protocol_request_pending : Bool
  pub led_state : ℕ
  pub led_report_pending : Bool
  pub led_can_send_requested : Bool

-- `HID_CHANNEL_CLOSED_NONE`, `_CONTROL` and `_INTERRUPT`.
abbrev pub closed_none : ℕ
closed_none = 0

abbrev pub closed_control : ℕ
closed_control = 1

abbrev pub closed_interrupt : ℕ
closed_interrupt = 2

-- `hid_channels_init`.
abbrev pub hid_channels_init : HidChannels
hid_channels_init = record {
  control_cid = 0;
  interrupt_cid = 0;
  control_open = false;
  interrupt_open = false;
  boot_protocol_request_pending = false;
  led_state = 0;
  led_report_pending = false;
  led_can_send_requested = false;
}

-- `hid_channels_reset_connection`.
unfoldable pub hid_channels_reset_connection : HidChannels → HidChannels
hid_channels_reset_connection c = record c {
  control_cid = 0;
  interrupt_cid = 0;
  control_open = false;
  interrupt_open = false;
  boot_protocol_request_pending = false;
  led_can_send_requested = false;
}

-- `hid_channels_control_opened`.
unfoldable pub hid_channels_control_opened : HidChannels → ℕ → HidChannels
hid_channels_control_opened c cid = record c {
  control_cid = cid;
  control_open = true;
  boot_protocol_request_pending = true;
}

-- `hid_channels_interrupt_opened`.
unfoldable pub hid_channels_interrupt_opened : HidChannels → ℕ → HidChannels
hid_channels_interrupt_opened c cid = record c { interrupt_cid = cid; interrupt_open = true }

-- The first `if` of `hid_channels_closed`, with `result`.
abbrev pub close_control : HidChannels → ℕ → HidChannels × ℕ
close_control c cid =
    if not (cid == 0) && cid == c.control_cid
    then (
      record c {
        control_cid = 0;
        control_open = false;
        boot_protocol_request_pending = false;
        led_can_send_requested = false;
      },
      bit_or closed_none closed_control,
    )
    else (c, closed_none)

-- `hid_channels_closed`: the new channels and the set of the channels that were closed.
unfoldable pub hid_channels_closed : HidChannels → ℕ → HidChannels × ℕ
hid_channels_closed c cid =
    let (c', result) = close_control c cid in
    if not (cid == 0) && cid == c'.interrupt_cid
    then (record c' { interrupt_cid = 0; interrupt_open = false }, bit_or result closed_interrupt)
    else (c', result)

-- `hid_channels_set_leds`: the new channels, and whether a report is to be sent.
unfoldable pub hid_channels_set_leds : HidChannels → ℕ → HidChannels × Bool
hid_channels_set_leds c leds =
    let masked = bit_and leds 0x1f in
    if c.led_state == masked && not c.led_report_pending
    then (c, false)
    else (record c { led_state = masked; led_report_pending = true }, true)

-- `hid_channels_request_led_sync`.
unfoldable pub hid_channels_request_led_sync : HidChannels → HidChannels
hid_channels_request_led_sync c = record c { led_report_pending = true }
