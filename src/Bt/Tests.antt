-- ===== src/Bt/Tests.antt =====
-- The theorems on the components of bt/ at concrete values.
use picow_bt_kb_hid.Base.{
  ◌++◌, ℕ, ◌≡◌, ◌<◌, ◌↔◌, ◌⊎◌, refl, true, false, not, ◌||◌, ◌==◌, if◌then◌else◌, arith, List, [],
  ◌∷◌, none, some, length, replicate,
}
use picow_bt_kb_hid.Base.Bytes.{bytes_eq}
use picow_bt_kb_hid.Base.Text.{codes}
use picow_bt_kb_hid.Bt.Control.{BdAddr, Action, Request}
use picow_bt_kb_hid.Bt.State.{
  idle, connecting, connected, authenticating, bt_state_transition_allowed,
}
use picow_bt_kb_hid.Bt.State.Graph.{stage, ReachWithout, ReachWithout-stage-lt}
use picow_bt_kb_hid.Bt.Channels.{
  HidChannels, hid_channels_init, hid_channels_control_opened, hid_channels_set_leds,
  hid_channels_reset_connection,
}
use picow_bt_kb_hid.Bt.Channels.Laws.{set_leds_lem, leds_survive_reset}
use picow_bt_kb_hid.Bt.Command.{Command, control_command_parse}
use picow_bt_kb_hid.Bt.Command.Address.{print_address, control_command_parse-print_address}
use picow_bt_kb_hid.Bt.RequestQueue.{control_request_queue_init}
use picow_bt_kb_hid.Bt.RequestQueue.Refine.{Call, run, run_spec, run_refines}
use picow_bt_kb_hid.Bt.BootReport.{
  ParseResult, BootKeyboardReport, scan_keycodes, hid_boot_keyboard_report_valid,
  hid_boot_keyboard_parse_input,
}
use picow_bt_kb_hid.Bt.BootReport.Validity.{NoErrors, IsErrorUsage, AllSame, report_valid_iff}
use picow_bt_kb_hid.Bt.BootReport.RoundTrip.{
  boot_bytes, input_packet, parse_input-input_packet, parse_input_ok,
}
use picow_bt_kb_hid.Bt.Devices.{
  DeviceManager, max_devices, blank_device, device_manager_find, device_manager_upsert,
  device_manager_get_connection_target,
}
use picow_bt_kb_hid.Bt.Devices.Laws
use picow_bt_kb_hid.Bt.Devices.Upsert.{upsert-IsValid, find-upsert, upsert_created}
use picow_bt_kb_hid.Bt.Devices.Target.{IsChoice, get_connection_target-IsChoice}

abbrev address1 : BdAddr
address1 = 1 ∷ 2 ∷ 3 ∷ 4 ∷ 5 ∷ 6 ∷ []

abbrev address2 : BdAddr
address2 = 1 ∷ 2 ∷ 3 ∷ 4 ∷ 5 ∷ 7 ∷ []

-- A run that connects, but does not authenticate.
unauthenticated : ReachWithout authenticating idle connected
unfolding bt_state_transition_allowed
unauthenticated =
    ReachWithout.step connected (ReachWithout.step connecting ReachWithout.start refl (λ e. cc))
      refl (λ e. cc)

ReachWithout-stage-lt_example : stage connected < stage authenticating
ReachWithout-stage-lt_example =
    ReachWithout-stage-lt authenticating idle (omega arith) refl unauthenticated

abbrev open_control : HidChannels
open_control = hid_channels_control_opened hid_channels_init 64

set_leds_lem_example :
    let (c', asked) = hid_channels_set_leds open_control 0xff in
    (asked ≡ (not (open_control.led_state == 0x1f) || open_control.led_report_pending))
    × (c'.led_report_pending ≡ asked)
    × (c'.led_state ≡ 0x1f)
    × (record c' {
      led_state = open_control.led_state;
      led_report_pending = open_control.led_report_pending;
    }
        ≡ open_control)
set_leds_lem_example = set_leds_lem open_control 0xff

leds_survive_reset_example :
    let c' = hid_channels_reset_connection (hid_channels_set_leds open_control 2).0 in
    (c'.led_state ≡ 2)
    × (c'.led_report_pending
        ≡ (not (open_control.led_state == 2) || open_control.led_report_pending))
    × (c'.control_open ≡ false)
    × (c'.control_cid ≡ 0)
    × (c'.interrupt_open ≡ false)
    × (c'.interrupt_cid ≡ 0)
    × (c'.boot_protocol_request_pending ≡ false)
    × (c'.led_can_send_requested ≡ false)
leds_survive_reset_example = leds_survive_reset open_control 2

abbrev scan_request : Request
scan_request = record { action = Action.scan; address = replicate 6 0 }

abbrev some_calls : List Call
some_calls = Call.push scan_request ∷ Call.pop ∷ Call.pop ∷ []

run_refines_example : run control_request_queue_init some_calls ≡ run_spec [] some_calls
run_refines_example = run_refines some_calls

report_valid_iff_example :
    (hid_boot_keyboard_report_valid (0 ∷ 0 ∷ 1 ∷ 1 ∷ 1 ∷ 1 ∷ 1 ∷ 1 ∷ []) ≡ true) ↔ (
      (◌≡◌ {A = ℕ} 0 0)
      × (NoErrors (1 ∷ 1 ∷ 1 ∷ 1 ∷ 1 ∷ 1 ∷ [])
          ⊎ (IsErrorUsage 1 × AllSame 1 (1 ∷ 1 ∷ 1 ∷ 1 ∷ 1 ∷ 1 ∷ []))))
report_valid_iff_example = report_valid_iff 0 0 1 1 1 1 1 1

-- The key `a` with Shift, in a report with id 1.
abbrev shift_a : BootKeyboardReport
shift_a = record { report_id = 1; modifier = 2; keycodes = 4 ∷ 0 ∷ 0 ∷ 0 ∷ 0 ∷ 0 ∷ [] }

abbrev no_report : BootKeyboardReport
no_report = record { report_id = 0; modifier = 0; keycodes = replicate 6 0 }

parse_input-input_packet_example :
    let (result, report) =
      hid_boot_keyboard_parse_input
        (input_packet shift_a)
        (length (input_packet shift_a))
        no_report in
    (result ≡ (
      if hid_boot_keyboard_report_valid (boot_bytes shift_a)
      then ParseResult.ok
      else ParseResult.invalid))
    × ((result ≡ ParseResult.ok) → report ≡ shift_a)
parse_input-input_packet_example = parse_input-input_packet shift_a no_report refl

parse_input_ok_example :
    let report =
      (hid_boot_keyboard_parse_input
        (input_packet shift_a)
        (length (input_packet shift_a))
        no_report).1 in
    (hid_boot_keyboard_report_valid (boot_bytes report) ≡ true)
    × ((input_packet shift_a ≡ 0xa1 ∷ boot_bytes report)
        ⊎ (input_packet shift_a ≡ 0xa1 ∷ report.report_id ∷ boot_bytes report))
unfolding hid_boot_keyboard_parse_input hid_boot_keyboard_report_valid scan_keycodes
parse_input_ok_example = parse_input_ok (input_packet shift_a) no_report refl

-- One device, not known to be a keyboard.
abbrev one_device : DeviceManager
one_device = blank_device address1 ∷ []

one_device-IsValid : Laws.IsValid one_device
one_device-IsValid = record {
  bounded = omega arith;
  distinct = (tt, tt);
  names = ((refl, refl), tt);
}

upsert-IsValid_example :
    Laws.IsValid
      (device_manager_upsert one_device address2 true 200 0x0540 (some (codes "Keys")) 4).0
upsert-IsValid_example =
    upsert-IsValid one_device address2 true 200 0x0540 (some (codes "Keys")) 4 (omega arith)
      one_device-IsValid

find-upsert_example :
    device_manager_find
      (device_manager_upsert one_device address2 true 200 0x0540 none 0).0
      address1
    ≡ (if bytes_eq address2 address1
        then (device_manager_upsert one_device address2 true 200 0x0540 none 0).1
        else device_manager_find one_device address1)
find-upsert_example = find-upsert one_device address2 true 200 0x0540 none 0 address1

-- A list without a free place.
abbrev full_list : DeviceManager
full_list = replicate max_devices (blank_device address1)

upsert_created_example :
    let (m', device, created) = device_manager_upsert full_list address2 true 200 0x0540 none 0 in
    ((created ≡ true)
      ↔ ((device_manager_find full_list address2 ≡ none) × (length full_list < max_devices)))
    × (length m' ≡ (if created then 17 else 16))
    × ((device ≡ none)
        ↔ ((device_manager_find full_list address2 ≡ none) × (length full_list ≡ max_devices)))
    × ((device ≡ none) → m' ≡ full_list)
upsert_created_example = upsert_created full_list address2 true 200 0x0540 none 0 (omega arith)

get_connection_target-IsChoice_example :
    IsChoice one_device (device_manager_get_connection_target one_device)
get_connection_target-IsChoice_example = get_connection_target-IsChoice one_device

control_command_parse-print_address_example :
    control_command_parse (codes "connect " ++ print_address true 0x1a 2 3 4 5 0xff)
    ≡ some (Command.connect (0x1a ∷ 2 ∷ 3 ∷ 4 ∷ 5 ∷ 0xff ∷ []))
control_command_parse-print_address_example =
    control_command_parse-print_address true 0x1a 2 3 4 5 0xff (omega arith) (omega arith)
      (omega arith) (omega arith) (omega arith) (omega arith)
