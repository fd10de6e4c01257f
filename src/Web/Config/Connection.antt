-- ===== src/Web/Config/Connection.antt =====
-- web/web_config.c: a client, and how its connection is answered and closed. lwIP is a parameter:
-- the answers of its functions within one callback, and the calls that are made, in order. `pcb`
-- names a connection, 0 is NULL.
use picow_bt_kb_hid.Base.{
  ℕ, ◌+◌, ◌%◌, ◌^◌, Bool, false, not, List, [], ◌∷◌, ◌++◌, replicate, if◌then◌else◌, ◌==◌, leb,
  length,
}
use picow_bt_kb_hid.Base.Text.{codes}
use picow_bt_kb_hid.Base.Format.{decimal}

-- `WEB_MAX_CLIENTS`, `WEB_REQUEST_SIZE` and `WEB_RESPONSE_HEADER_SIZE`.
abbrev pub max_clients : ℕ
max_clients = 2

abbrev pub request_size : ℕ
request_size = 1536

abbrev pub response_header_size : ℕ
response_header_size = 256

-- `web_client_t`, without the array that `snprintf` writes the header of a response to.
pub record Client : Type 0 where
  pub used : Bool
  pub pcb : ℕ
  pub request_length : ℕ
  pub age_polls : ℕ
  pub request : List ℕ

-- `memset(client, 0, sizeof(*client))`.
abbrev pub zero_client : Client
zero_client = record {
  used = false;
  pcb = 0;
  request_length = 0;
  age_polls = 0;
  request = replicate request_size 0;
}

-- `ERR_OK`, `ERR_ABRT` and the errors that lwIP reports.
pub data Err : Type 0 where
  ok abrt : Err
  other : ℕ → Err

-- The calls of lwIP, with the connection. `detach` stands for the four calls that remove the
-- callbacks of a connection, and `attach` for those that set them, to the client of a slot.
pub data Call : Type 0 where
  detach close abort output : ℕ → Call
  write : ℕ → List ℕ → Call
  recved : ℕ → ℕ → Call
  attach : ℕ → ℕ → Call

-- Whether `tcp_write` of the header and of the body, and `tcp_close`, answer `ERR_OK`.
pub record Lwip : Type 0 where
  pub write_header : Bool
  pub write_body : Bool
  pub tcp_close : Bool

-- What a callback leaves of a client, the calls it makes and its result.
pub record Done : Type 0 where
  pub client : Client
  pub calls : List Call
  pub result : Err

-- `close_client`.
unfoldable pub close_client : Lwip → Client → Done
close_client lwip client =
    if client.pcb == 0
    then record { client = zero_client; calls = []; result = ok }
    else if lwip.tcp_close
    then record {
      client = zero_client;
      calls = detach client.pcb ∷ close client.pcb ∷ [];
      result = ok;
    }
    else record {
      client = zero_client;
      calls = detach client.pcb ∷ close client.pcb ∷ abort client.pcb ∷ [];
      result = abrt;
    }

-- Calls in front of those of the rest.
abbrev pub after : List Call → Done → Done
after calls d = record d { calls = calls ++ d.calls }

-- `poll_client`.
unfoldable pub poll_client : Lwip → Client → Done
poll_client lwip client =
    let older = record client { age_polls = (client.age_polls + 1) % 2 ^ 8 } in
    if leb 5 older.age_polls
    then close_client lwip older
    else record { client = older; calls = []; result = ok }

-- `client_error`.
unfoldable pub client_error : Client → Client
client_error client = zero_client

-- `reason`.
abbrev pub reason : ℕ → List ℕ
reason status =
    if status == 200
    then codes "OK"
    else if status == 202
    then codes "Accepted"
    else if status == 400
    then codes "Bad Request"
    else if status == 404
    then codes "Not Found"
    else if status == 405
    then codes "Method Not Allowed"
    else if status == 503
    then codes "Service Unavailable"
    else codes "Error"

-- The header of a response.
unfoldable pub response_header : ℕ → List ℕ → ℕ → List ℕ
response_header status content_type body_length =
    codes "HTTP/1.1 "
    ++ decimal status
    ++ codes " "
    ++ reason status
    ++ codes "\r\nContent-Type: "
    ++ content_type
    ++ codes "\r\nContent-Length: "
    ++ decimal (body_length % 2 ^ 32)
    ++ codes "\r\nCache-Control: no-store\r\nConnection: close\r\n\r\n"

-- A response: `status`, `content_type` and `body`.
pub record Response : Type 0 where
  pub status : ℕ
  pub content_type : List ℕ
  pub body : List ℕ

-- `send_response`.
unfoldable pub send_response : Lwip → Client → Response → Done
send_response lwip client r =
    let header = response_header r.status r.content_type (length r.body) in
    let closed = close_client lwip client in
    if leb response_header_size (length header)
    then closed
    else if not lwip.write_header
    then after (write client.pcb header ∷ []) closed
    else if not lwip.write_body
    then after (write client.pcb header ∷ write client.pcb r.body ∷ []) closed
    else after (write client.pcb header ∷ write client.pcb r.body ∷ output client.pcb ∷ []) closed

-- `respond_json`, up to the call of `send_response`.
abbrev pub json : ℕ → List ℕ → Response
json status text = record {
  status = status;
  content_type = codes "application/json; charset=utf-8";
  body = text;
}
