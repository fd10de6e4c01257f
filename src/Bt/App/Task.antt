-- ===== src/Bt/App/Task.antt =====
-- bt/bluetooth.c: `bluetooth_init` and `bluetooth_task`. What the poll of the event loop delivers is
-- handled before the rest of the task, by `Events`.
use picow_bt_kb_hid.Base.{
  ℕ, zero, suc, Bool, true, false, not, ◌&&◌, ◌||◌, List, [], ◌∷◌, ◌++◌, replicate, length, Option,
  none, some, take, drop, if◌then◌else◌, ◌==◌, ltb,
}
use picow_bt_kb_hid.Base.Text.{c_string}
use picow_bt_kb_hid.Bt.Control.{Action, Request}
use picow_bt_kb_hid.Bt.State.{initializing}
use picow_bt_kb_hid.Bt.Channels.{hid_channels_init}
use picow_bt_kb_hid.Bt.Command.{Command, control_command_parse}
use picow_bt_kb_hid.Bt.Devices.{device_manager_init}
use picow_bt_kb_hid.Bt.RequestQueue.{
  capacity, zero_request, control_request_queue_init, control_request_queue_push,
  control_request_queue_pop,
}
use picow_bt_kb_hid.Bt.Sdp.Feed.{buffer_size}
use picow_bt_kb_hid.Usb.Keyboard
use picow_bt_kb_hid.Bt.App.Platform.{Btstack, Answers}
use picow_bt_kb_hid.Bt.App.Model.{App}
use picow_bt_kb_hid.Bt.App.Hid.{schedule_keyboard_led_report}
use picow_bt_kb_hid.Bt.App.Requests.{execute_control_request}

-- The static variables before `bluetooth_init`.
unfoldable pub initial : Btstack → App
initial btstack = record {
  connected_device_addr = replicate 6 0;
  connecting_device_addr = replicate 6 0;
  connecting_device_valid = false;
  connection_cancel_requested = false;
  stack_working = false;
  startup_logged = false;
  current_state = initializing;
  inquiry_count = 0;
  inquiry_timer_armed = false;
  devices = device_manager_init;
  acl_handle = btstack.invalid_handle;
  hid_channels = hid_channels_init;
  command = [];
  sdp_parser = record { buffer = replicate buffer_size 0; completed_attribute_count = 0 };
  selected_device_addr = replicate 6 0;
  selected_device_valid = false;
  auto_connect_enabled = true;
  pairing_pin_pending = false;
  pairing_pin_timer_armed = false;
  control_requests = control_request_queue_init;
  keyboard = Keyboard.start;
  effects = [];
}

-- `load_selected_device`: `none` where there is no store, else the size that its `get_tag` answers
-- and the bytes of the tag, of which it writes at most six into the array.
unfoldable pub load_selected_device : Option (ℕ × List ℕ) → App → App
load_selected_device none a = a
load_selected_device (some (size, bytes)) a =
    let written = take 6 bytes in
    record a {
      selected_device_addr = written ++ drop (length written) a.selected_device_addr;
      selected_device_valid = size == 6;
    }

-- `bluetooth_init`, where the radio starts, up to the start of the controller.
unfoldable pub bluetooth_init : Option (ℕ × List ℕ) → App → App
bluetooth_init stored a =
    let a1 = record a {
      hid_channels = hid_channels_init;
      control_requests = control_request_queue_init;
    } in
    record (load_selected_device stored a1) { devices = device_manager_init }

-- `bluetooth_control_submit`.
unfoldable pub bluetooth_control_submit : Request → App → App × Bool
bluetooth_control_submit r a =
    let (q, accepted) = control_request_queue_push a.control_requests r in
    (record a { control_requests = q }, accepted)

-- The request that `submit_parsed_command` makes of a command.
abbrev pub request_of : Command → Request
request_of Command.help = record zero_request { action = Action.help }
request_of Command.status = record zero_request { action = Action.status }
request_of Command.scan = record zero_request { action = Action.scan }
request_of (Command.connect address) = record { action = Action.connect; address = address }
request_of Command.disconnect = record zero_request { action = Action.disconnect }
request_of Command.reconnect = record zero_request { action = Action.reconnect }
request_of Command.forget = record zero_request { action = Action.forget }

-- `submit_parsed_command`.
unfoldable pub submit_parsed_command : Command → App → App × Bool
submit_parsed_command command a = bluetooth_control_submit (request_of command) a

-- The end of a line in `bluetooth_task`. The parser reads the buffer up to its first zero byte.
unfoldable pub end_of_line : App → App
end_of_line a =
    if length a.command == 0 then a else elim (control_command_parse (c_string a.command)) [
      | none ↦ record a { command = [] }
      | some command ↦ record ((submit_parsed_command command a).0) { command = [] }
    ]

-- The body of the loop over the characters that `bluetooth_task` read. The buffer has 32 bytes.
unfoldable pub read_character : ℕ → App → App
read_character ch a =
    if ch == b'\r' || ch == b'\n'
    then end_of_line a
    else if ltb (length a.command) 31
    then record a { command = a.command ++ (ch ∷ []) }
    else record a { command = [] }

-- The loop itself.
unfoldable pub read_characters : List ℕ → App → App
read_characters [] a = a
read_characters (ch ∷ input) a = read_characters input (read_character ch a)

module _ (btstack : Btstack) where
  -- The loop that executes the queued requests, on fuel; `answers k` are those given to the request
  -- that leaves `k` rounds of fuel.
  unfoldable pub execute_requests : ℕ → (ℕ → Answers) → App → App
  execute_requests zero answers a = a
  execute_requests (suc fuel) answers a =
      let (q, request) = control_request_queue_pop a.control_requests in
      let a1 = record a { control_requests = q } in
      elim request [
        | none ↦ a1
        | some r ↦
            execute_requests fuel answers (execute_control_request btstack (answers fuel) r a1)
      ]

  -- `bluetooth_task` behind the poll: `input` are the characters from the CDC port, and `connected`
  -- the answer of `usb_serial_connected`. No request is added while the queue is emptied.
  unfoldable pub bluetooth_task : Answers → (ℕ → Answers) → List ℕ → Bool → App → App
  bluetooth_task answers later input connected a =
      let a1 = read_characters input (schedule_keyboard_led_report btstack answers a) in
      let a2 = execute_requests (suc capacity) later a1 in
      if a2.stack_working && not a2.startup_logged && connected
      then record a2 { startup_logged = true }
      else a2
