-- ===== src/Web/Config/Callbacks.antt =====
-- web/web_config.c: the callbacks that lwIP calls, and the two functions of the main loop. A
-- callback's `arg` is the client that it was set to.
use picow_bt_kb_hid.Base.{
  ℕ, ◌+◌, ◌-◌, Bool, true, false, not, ◌&&◌, ◌||◌, List, [], ◌∷◌, ◌++◌, Option, none, some,
  if◌then◌else◌, ◌==◌, ltb, take, drop, length,
}
use picow_bt_kb_hid.Base.Bytes.{bytes_eq}
use picow_bt_kb_hid.Base.Text.{codes, c_string}
use picow_bt_kb_hid.Bt.App.Model.{App}
use picow_bt_kb_hid.Web.Config.Connection.{
  request_size, Client, Err, Call, Lwip, Done, close_client, after, send_response, json, ok, abrt,
  abort, recved, attach,
}
use picow_bt_kb_hid.Web.Config.Reply.{Firmware, reply_to}

-- What a callback that may answer a request leaves.
pub record Served : Type 0 where
  pub done : Done
  pub app : App
  pub status_json : List ℕ

-- `handle_request`.
unfoldable pub handle_request : Firmware → Lwip → Client → App → List ℕ → Served
handle_request firmware lwip client app status_json =
    let reply = reply_to firmware app status_json client.request in
    record {
      done = send_response lwip client reply.response;
      app = reply.app;
      status_json = reply.status_json;
    }

-- `strstr(text, "\r\n\r\n") != NULL`.
unfoldable pub has_header_end : List ℕ → Bool
has_header_end [] = false
has_header_end (ch ∷ text) = bytes_eq (take 4 (ch ∷ text)) (codes "\r\n\r\n") || has_header_end text

-- The request after `pbuf_copy_partial`, which copies what fits of the data, and the zero byte
-- behind it.
unfoldable pub copy_request : Client → List ℕ → Client
copy_request client data_ =
    let available = request_size - 1 - client.request_length in
    let copied = if ltb available (length data_) then available else length data_ in
    let at = client.request_length + copied in
    record client {
      request_length = at;
      request =
          take client.request_length client.request
          ++ take copied data_
          ++ (0 ∷ drop (at + 1) client.request);
    }

-- `receive_request`, on the data of the buffer, `none` if it is NULL, and on whether lwIP reports
-- an error.
unfoldable pub receive_request :
    Firmware → Lwip → Client → Option (List ℕ) → Bool → App → List ℕ → Served
receive_request firmware lwip client none error app status_json = record {
  done = close_client lwip client;
  app = app;
  status_json = status_json;
}
receive_request firmware lwip client (some data_) error app status_json =
    let available = request_size - 1 - client.request_length in
    let copied = if ltb available (length data_) then available else length data_ in
    let client' = copy_request client data_ in
    let acknowledged = recved client.pcb (length data_) ∷ [] in
    let handled = handle_request firmware lwip client' app status_json in
    if error
    then record { done = close_client lwip client; app = app; status_json = status_json }
    else if has_header_end (c_string client'.request)
    then record handled { done = after acknowledged handled.done }
    else if available == copied
    then record {
      done =
          after acknowledged
            (send_response lwip client' (json 400 (codes "{\"error\":\"request too large\"}")));
      app = app;
      status_json = status_json;
    }
    else record {
      done = record { client = client'; calls = acknowledged; result = ok };
      app = app;
      status_json = status_json;
    }

-- The loop of `accept_client` over the slots from `i` on; `none` where none is free.
unfoldable pub accept_slot : List Client → ℕ → ℕ → Option (List Client × List Call)
accept_slot [] pcb i = none
accept_slot (client ∷ rest) pcb i =
    let later = accept_slot rest pcb (i + 1) in
    if not client.used
    then some (record client { used = true; pcb = pcb } ∷ rest, attach pcb i ∷ [])
    else elim later [ none ↦ none | some (rest', calls) ↦ some (client ∷ rest', calls) ]

-- `accept_client`, on the connection and the error that lwIP reports.
unfoldable pub accept_client : List Client → ℕ → Err → List Client × List Call × Err
accept_client clients pcb ok = elim (accept_slot clients pcb 0) [
  | some (clients', calls) ↦ (clients', calls, ok)
  | none ↦ (clients, abort pcb ∷ [], abrt)
]
accept_client clients pcb error = (clients, [], error)

-- The answers of `tcp_new_ip_type`, `tcp_bind` and `tcp_listen_with_backlog` at start-up; 0 is NULL.
pub record Setup : Type 0 where
  pub tcp_new : ℕ
  pub tcp_bind : Bool
  pub tcp_listen : ℕ

-- `web_config_init` behind the start of the access point and of the DHCP server: `listener` and the
-- result.
unfoldable pub web_config_init : Setup → ℕ × Bool
web_config_init setup =
    if setup.tcp_new == 0 || not setup.tcp_bind
    then (setup.tcp_new, false)
    else if setup.tcp_listen == 0
    then (0, false)
    else (setup.tcp_listen, true)

-- `web_config_task`: `cdc_was_connected` after it, and whether it prints, on the answer of
-- `usb_serial_connected`.
unfoldable pub web_config_task : Bool → Bool → Bool × Bool
web_config_task connected cdc_was_connected = (connected, connected && not cdc_was_connected)
