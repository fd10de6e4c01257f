-- ===== src/Web/Tests.antt =====
-- The theorems on the web page's side at concrete snapshots and requests.
use picow_bt_kb_hid.Base.{
  ℕ, ◌≡◌, refl, true, false, List, [], ◌∷◌, ◌++◌, some, replicate, take, drop, length-replicate,
  arith,
}
use picow_bt_kb_hid.Base.Text.{codes, c_string, strncpy}
use picow_bt_kb_hid.Base.Format.{digits, decimal, decimal_int8}
use picow_bt_kb_hid.Bt.Snapshot.{Snapshot, zero_device}
use picow_bt_kb_hid.Web.Json.{
  append_json_string, control_json_write_snapshot, max_snapshot_size, device_flags,
}
use picow_bt_kb_hid.Web.Json.Printer.{render, render_string, render_devices, render_device, escapes}
use picow_bt_kb_hid.Web.Json.Render.{IsWritten, write_snapshot-IsWritten, starts-IsWriting}
use picow_bt_kb_hid.Web.Json.Strings.{read_json}
use picow_bt_kb_hid.Web.Json.ReadBack.{read_json-append_json_string}
use picow_bt_kb_hid.Base.{◌⊎◌}
use picow_bt_kb_hid.Bt.Control.{Action}
use picow_bt_kb_hid.Bt.App.Model.{App}
use picow_bt_kb_hid.Bt.App.Task.{initial}
use picow_bt_kb_hid.Bt.App.Snapshot.{bluetooth_control_get_snapshot}
use picow_bt_kb_hid.Bt.App.Snapshot.Laws.{Shows, get_snapshot-Shows}
use picow_bt_kb_hid.Web.Json.{address_text}
use picow_bt_kb_hid.Web.Request.{scan_request, request_of_target}
use picow_bt_kb_hid.Web.Request.Address.{
  plain_address, connect_target, connect_request-plain_address,
}
use picow_bt_kb_hid.Web.Config.Connection.{Client, zero_client, Err, Lwip}
use picow_bt_kb_hid.Web.Config.Reply.{Firmware, reply_to}
use picow_bt_kb_hid.Web.Config.Callbacks.{
  receive_request, handle_request, accept_client, accept_slot,
}
use picow_bt_kb_hid.Web.Config.Clients.{IsValid, zero_client-IsValid, taken-IsValid}
use picow_bt_kb_hid.Web.Config.Receive.{IsAnswered, IsRefused, IsWaiting, receive-answers_or_waits}
use picow_bt_kb_hid.Web.Config.Timeout.{
  Happening, polled, received, session, poll_count, five_polls-close,
}
use picow_bt_kb_hid.Web.Config.Replies.{IsReply, IsStatus, reply_to-IsReply, reply_to-IsStatus}
use picow_bt_kb_hid.Web.Config.Respond.{whole_response, handle_request-whole}
use picow_bt_kb_hid.Web.Config.Server.{
  Web, Reachable, IsWeb, client_at, receive_at, Reachable-IsWeb,
}

-- Values for the constants of BTstack, and the application before it starts.
abbrev app : App
app = initial (record {
  success = 0;
  invalid_handle = 0xffff;
  level_2 = 2;
  handshake = 0;
  handshake_successful = 0;
  set_protocol = 7;
  protocol_mode_boot = 0;
  invalid_link_key = 0xff;
})

abbrev firmware : Firmware
firmware = record { version = codes "1.0"; web_ui_html = codes "<html></html>" }

-- lwIP does all that it is asked.
abbrev willing : Lwip
willing = record { write_header = true; write_body = true; tcp_close = true }

-- A client that has just been accepted.
abbrev new_client : Client
new_client = record zero_client { used = true; pcb = 7 }

new_client-IsValid : IsValid new_client
new_client-IsValid = taken-IsValid zero_client 7 zero_client-IsValid

abbrev get_status : List ℕ
get_status = codes "GET /api/status HTTP/1.1\r\n\r\n"

-- A snapshot with one device, whose name has a quote.
abbrev one_device : Snapshot
one_device = record {
  version = strncpy 32 (codes "1.0");
  state = strncpy 24 (codes "Ready");
  auto_connect = true;
  has_pairing_pin = false;
  pairing_pin = replicate 7 0;
  has_selected_device = true;
  selected_device = 0x01 ∷ 0x23 ∷ 0x45 ∷ 0x67 ∷ 0x89 ∷ 0xAB ∷ [];
  device_count = 1;
  devices =
      record zero_device { name = strncpy 64 (codes "K\"1"); rssi = 196; has_rssi = true }
      ∷ replicate 15 zero_device;
}

render_test :
    render one_device
    ≡ codes
        "{\"version\":\"1.0\",\"state\":\"Ready\",\"autoConnect\":true,\"pairingPin\":null,\"selectedDevice\":\"01:23:45:67:89:AB\",\"devices\":[{\"address\":\"00:00:00:00:00:00\",\"name\":\"K\\\"1\",\"rssi\":-60,\"hasRssi\":true,\"keyboard\":false,\"bonded\":false,\"connected\":false,\"reportDescriptorPresent\":false,\"reportDescriptorTooLarge\":false,\"reportDescriptorValid\":false,\"reportKeyboard\":false,\"reportConsumerControl\":false,\"reportNkro\":false,\"reportIds\":false}]}"
unfolding render render_string render_devices render_device escapes c_string strncpy device_flags
    decimal_int8 decimal digits
render_test = refl

-- A buffer that is too small.
write_snapshot-IsWritten_example :
    IsWritten 10 (render one_device) (control_json_write_snapshot one_device (replicate 10 0) 10)
write_snapshot-IsWritten_example =
    write_snapshot-IsWritten one_device (replicate 10 0) 10 refl (omega arith)

-- A text with a quote, a control character and a backslash, in an array with a byte behind it.
abbrev name_array : List ℕ
name_array = codes "a\"\n\\" ++ (0 ∷ 7 ∷ [])

read_json-append_json_string_example :
    let w' =
      append_json_string name_array
        (record { buffer = replicate 40 0; capacity = 40; length = 0; valid = true }) in
    let written = take w'.length w'.buffer in
    (w'.valid ≡ true)
    × (take 0 written ≡ [])
    × (read_json (drop 0 written) ≡ some (c_string name_array, []))
unfolding render_string escapes c_string
read_json-append_json_string_example =
    read_json-append_json_string 40 name_array []
      (record { buffer = replicate 40 0; capacity = 40; length = 0; valid = true }) (omega arith)
      (starts-IsWriting (replicate 40 0) 40 refl (omega arith))

get_snapshot-Shows_example :
    Shows (codes "1.0") app (bluetooth_control_get_snapshot (codes "1.0") app)
get_snapshot-Shows_example = get_snapshot-Shows (codes "1.0") app

connect_request-plain_address_example :
    (scan_request
        (codes "POST " ++ connect_target 0 0x1A 0x7D 0xDA 0x71 0x13 ++ (b' ' ∷ codes "HTTP/1.1"))
      ≡ some (codes "POST", connect_target 0 0x1A 0x7D 0xDA 0x71 0x13))
    × (request_of_target (connect_target 0 0x1A 0x7D 0xDA 0x71 0x13)
        ≡ some (record {
          action = Action.connect;
          address = 0 ∷ 0x1A ∷ 0x7D ∷ 0xDA ∷ 0x71 ∷ 0x13 ∷ [];
        }))
    × (address_text (0 ∷ 0x1A ∷ 0x7D ∷ 0xDA ∷ 0x71 ∷ 0x13 ∷ [])
        ≡ b'"' ∷ plain_address 0 0x1A 0x7D 0xDA 0x71 0x13 (b'"' ∷ []))
connect_request-plain_address_example =
    connect_request-plain_address 0 0x1A 0x7D 0xDA 0x71 0x13 (codes "HTTP/1.1") (omega arith)
      (omega arith) (omega arith) (omega arith) (omega arith) (omega arith)

receive-answers_or_waits_example :
    let s = receive_request firmware willing new_client (some get_status) false app [] in
    IsAnswered firmware willing new_client get_status app [] s
    ⊎ IsRefused firmware willing new_client get_status app [] s
    ⊎ IsWaiting firmware willing new_client get_status app [] s
receive-answers_or_waits_example =
    receive-answers_or_waits firmware willing new_client get_status app [] new_client-IsValid

-- A line, and then nothing more.
abbrev slow : List Happening
slow =
    received willing (some (codes "GET /")) false app []
    ∷ polled willing
    ∷ polled willing
    ∷ polled willing
    ∷ polled willing
    ∷ polled willing
    ∷ []

five_polls-close_example : session firmware slow new_client ≡ zero_client
unfolding poll_count
five_polls-close_example =
    five_polls-close firmware slow new_client new_client-IsValid (omega arith)

reply_to-IsReply_example : IsReply app (c_string get_status) (reply_to firmware app [] get_status)
reply_to-IsReply_example = reply_to-IsReply firmware app [] get_status

reply_to-IsStatus_example :
    IsStatus firmware app
      (reply_to firmware app (replicate max_snapshot_size 0) (get_status ++ (0 ∷ 0 ∷ [])))
unfolding c_string
reply_to-IsStatus_example =
    reply_to-IsStatus firmware app (replicate max_snapshot_size 0) (get_status ++ (0 ∷ 0 ∷ []))
      (codes "HTTP/1.1\r\n\r\n") (length-replicate {A = ℕ} max_snapshot_size 0) refl

handle_request-whole_example :
    (handle_request firmware willing new_client app []).done.calls
    ≡ whole_response 7 (reply_to firmware app [] new_client.request).response
handle_request-whole_example =
    handle_request-whole firmware willing new_client app [] (omega arith) refl refl refl

-- A connection, of which the first data is a part of a request.
abbrev idle_web : Web
idle_web = record {
  clients = replicate 2 zero_client;
  status_json = replicate max_snapshot_size 0;
  app = app;
}

abbrev connected_web : Web
connected_web = record idle_web { clients = (accept_client idle_web.clients 7 Err.ok).0 }

connected_run : Reachable firmware connected_web
connected_run = Reachable.accepted 7 Err.ok (omega arith) (Reachable.started app)

connected_used : (client_at connected_web 0).used ≡ true
unfolding accept_client accept_slot
connected_used = refl

Reachable-IsWeb_example :
    IsWeb (receive_at firmware willing 0 (some (codes "GET /")) false connected_web)
Reachable-IsWeb_example =
    Reachable-IsWeb firmware
      (Reachable.received willing 0 (some (codes "GET /")) false connected_used connected_run)
