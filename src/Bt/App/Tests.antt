-- ===== src/Bt/App/Tests.antt =====
-- The theorems on bt/bluetooth.c at concrete states and events.
use picow_bt_kb_hid.Base.{ℕ, ◌+◌, ◌≡◌, ◌⊎◌, true, false, List, [], ◌∷◌, none, some, arith}
use picow_bt_kb_hid.Bt.Control.{BdAddr}
use picow_bt_kb_hid.Bt.Devices.{blank_device}
use picow_bt_kb_hid.Bt.BootReport.{hid_boot_keyboard_output_packet}
use picow_bt_kb_hid.Usb.Keyboard.{hid_keyboard_task, keyboard_release_all}
use picow_bt_kb_hid.Usb.Keyboard.Refine.{start-IsValid}
use picow_bt_kb_hid.Bt.RequestQueue.Refine.{waiting}
use picow_bt_kb_hid.Base.{arith}
use picow_bt_kb_hid.Bt.App.Platform.{Btstack, Answers, Event, send}
use picow_bt_kb_hid.Bt.App.Model.{App}
use picow_bt_kb_hid.Bt.App.Events.{handle}
use picow_bt_kb_hid.Bt.App.Task.{initial, bluetooth_init, load_selected_device}
use picow_bt_kb_hid.Bt.App.Consistent.{IsConsistent}
use picow_bt_kb_hid.Bt.App.Kept.{requested}
use picow_bt_kb_hid.Bt.App.Kept.Forward.{Forwarded, handle_keyboard}
use picow_bt_kb_hid.Bt.App.Kept.Policy.{handle_policy}
use picow_bt_kb_hid.Bt.App.Kept.Leds.{handle_leds}
use picow_bt_kb_hid.Bt.App.Disconnection.{IsReset, disconnection-IsReset}
use picow_bt_kb_hid.Base.Text.{codes}
use picow_bt_kb_hid.Bt.App.Task.{bluetooth_task}
use picow_bt_kb_hid.Bt.App.Poll.{poll-drains}
use picow_bt_kb_hid.Bt.App.Inputs.{HasInputs, Reachable-HasInputs}
use picow_bt_kb_hid.Bt.App.Run.{Reachable, Reachable-IsConsistent}

-- Values for the constants of BTstack.
abbrev stack : Btstack
stack = record {
  success = 0;
  invalid_handle = 0xffff;
  level_2 = 2;
  handshake = 0;
  handshake_successful = 0;
  set_protocol = 7;
  protocol_mode_boot = 0;
  invalid_link_key = 0xff;
}

-- A stack that does all that it is asked.
abbrev willing : Answers
willing = record {
  create_connection = λ address. 0;
  l2cap_create_channel = λ psm. (0, some (64 + psm));
  l2cap_request_can_send_now_event = λ cid. 0;
  l2cap_send = λ cid packet. 0;
  sdp_client_query_uuid16 = λ address. 0;
  link_key = λ address. none;
  link_key_after_store = λ address. none;
  has_tlv = true;
}

abbrev saved_keyboard : BdAddr
saved_keyboard = 1 ∷ 2 ∷ 3 ∷ 4 ∷ 5 ∷ 6 ∷ []

abbrev started_app : App
started_app = bluetooth_init (some (6, saved_keyboard)) (initial stack)

-- Power-on with a saved keyboard, which then connects.
connected_run : Reachable stack (
    handle stack willing
      (Event.connection_complete 0 12 saved_keyboard)
      (handle stack willing (Event.btstack_state true) started_app))
connected_run =
    Reachable.handled willing (Event.connection_complete 0 12 saved_keyboard)
      (λ _. λ e. ground arith)
      (Reachable.handled willing (Event.btstack_state true) tt
        (Reachable.started (some (6, saved_keyboard))))

Reachable-IsConsistent_example : IsConsistent stack (
    handle stack willing
      (Event.connection_complete 0 12 saved_keyboard)
      (handle stack willing (Event.btstack_state true) started_app))
Reachable-IsConsistent_example = Reachable-IsConsistent stack connected_run

-- A poll that reads the command to scan.
poll-drains_example :
    waiting
      (bluetooth_task stack willing
        (λ _. willing)
        (codes "scan\n")
        true
        (handle stack willing
          (Event.connection_complete 0 12 saved_keyboard)
          (handle stack willing (Event.btstack_state true) started_app))).control_requests
    ≡ []
poll-drains_example = poll-drains stack willing (λ _. willing) (codes "scan\n") true connected_run

-- The state of `connected_run`, in which USB takes a report.
abbrev connected_app : App
connected_app =
    handle stack willing (Event.connection_complete 0 12 saved_keyboard)
      (handle stack willing (Event.btstack_state true) started_app)

Reachable-HasInputs_example : HasInputs (record connected_app {
  keyboard = (hid_keyboard_task true (λ _. true) connected_app.keyboard).0;
})
Reachable-HasInputs_example =
    Reachable-HasInputs stack (Reachable.reported true (λ _. true) connected_run)

handle_policy_example :
    let b = handle stack willing (Event.btstack_state true) started_app in
    (b.auto_connect_enabled ≡ started_app.auto_connect_enabled)
    × (started_app.auto_connect_enabled ≡ false
        → requested b.effects ≡ requested started_app.effects)
handle_policy_example = handle_policy stack willing (Event.btstack_state true) started_app

-- A connected keyboard whose LED report is about to be sent.
abbrev ready_app : App
ready_app = record started_app {
  devices = record (blank_device saved_keyboard) { connected = true } ∷ [];
  hid_channels = record {
    control_cid = 64;
    interrupt_cid = 65;
    control_open = true;
    interrupt_open = true;
    boot_protocol_request_pending = false;
    led_state = 2;
    led_report_pending = true;
    led_can_send_requested = true;
  };
}

-- The report of the key `a`.
abbrev key_packet : List ℕ
key_packet = 0xa1 ∷ 0 ∷ 0 ∷ 4 ∷ 0 ∷ 0 ∷ 0 ∷ 0 ∷ 0 ∷ []

handle_leds_example :
    let b = handle stack willing (Event.can_send_now 64) ready_app in
    (b.hid_channels.led_state ≡ ready_app.hid_channels.led_state)
    × (ready_app.hid_channels.led_report_pending ≡ true
        → (b.hid_channels.led_report_pending ≡ true)
          ⊎ ((◌≡◌ {A = ℕ} 0 0)
              × (b.effects
                  ≡ send ready_app.hid_channels.control_cid
                      (hid_boot_keyboard_output_packet ready_app.hid_channels.led_state)
                    ∷ ready_app.effects)))
handle_leds_example = handle_leds stack willing (Event.can_send_now 64) ready_app (λ leds e. cc)

handle_keyboard_example :
    let b = handle stack willing (Event.data_packet 65 key_packet) ready_app in
    (b.keyboard ≡ ready_app.keyboard)
    ⊎ (b.keyboard ≡ keyboard_release_all ready_app.keyboard)
    ⊎ ((channel : ℕ) × (packet : List ℕ) × (Event.data_packet 65 key_packet
          ≡ Event.data_packet channel packet)
        × Forwarded channel packet ready_app b)
handle_keyboard_example = handle_keyboard stack willing (Event.data_packet 65 key_packet) ready_app

disconnection-IsReset_example :
    IsReset stack ready_app (handle stack willing (Event.disconnection_complete 12) ready_app)
unfolding bluetooth_init load_selected_device initial
disconnection-IsReset_example = disconnection-IsReset stack willing 12 ready_app start-IsValid
