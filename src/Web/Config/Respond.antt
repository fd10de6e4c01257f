-- ===== src/Web/Config/Respond.antt =====
-- web/web_config.c: every request that is handled gets a whole response.
use picow_bt_kb_hid.Base.{
  ℕ, ◌%◌, ◌^◌, ◌≡◌, ◌≢◌, refl, sym, ap, leb-false, ◌∙◌, true, false, not, ◌&&◌, ◌||◌, List, [], ◌∷◌,
  if_rule, option_rule, ◌==◌, leb, length, arith,
}
use picow_bt_kb_hid.Base.Bytes.{bytes_eq}
use picow_bt_kb_hid.Base.Text.{codes, c_string}
use picow_bt_kb_hid.Base.AtMost.{AtMost, ◌and◌, exact, looser, decimal-AtMost}
use picow_bt_kb_hid.Bt.App.Model.{App}
use picow_bt_kb_hid.Bt.App.Snapshot.{bluetooth_control_get_snapshot}
use picow_bt_kb_hid.Bt.App.Task.{bluetooth_control_submit}
use picow_bt_kb_hid.Web.Json.{control_json_write_snapshot, max_snapshot_size}
use picow_bt_kb_hid.Web.Request.{scan_request, request_of_target}
use picow_bt_kb_hid.Web.Config.Connection.{
  response_header_size, Client, Call, Lwip, Done, close_client, reason, response_header, Response,
  json, send_response,
}
use picow_bt_kb_hid.Web.Config.Reply.{Reply, Firmware, status_reply, action_reply, route, reply_to}
use picow_bt_kb_hid.Web.Config.Callbacks.{handle_request}

reason-AtMost : (status : ℕ) → AtMost 19 (reason status)
reason-AtMost status = record { bound = ground arith }

-- A header fits into its array, by the length of the type of its content.
response_header-AtMost :
    (status : ℕ) (content_type : List ℕ) (body_length : ℕ)
    → AtMost 31 content_type
    → AtMost 200 (response_header status content_type body_length)
unfolding response_header
response_header-AtMost status content_type body_length h =
    looser
      (exact (codes "HTTP/1.1 ")
        and decimal-AtMost status
        and exact (codes " ")
        and reason-AtMost status
        and exact (codes "\r\nContent-Type: ")
        and h
        and exact (codes "\r\nContent-Length: ")
        and decimal-AtMost (body_length % 2 ^ 32)
        and exact (codes "\r\nCache-Control: no-store\r\nConnection: close\r\n\r\n"))
      (omega arith)

record HasShortType (r : Reply) : Type 0 where
  short : AtMost 31 r.response.content_type

json_type : AtMost 31 (codes "application/json; charset=utf-8")
json_type = exact (codes "application/json; charset=utf-8")

json-HasShortType :
    {status : ℕ} {text : List ℕ} {app : App} {status_json : List ℕ}
    → HasShortType (record { response = json status text; app = app; status_json = status_json })
json-HasShortType = record { short = json_type }

reply_to-HasShortType :
    (firmware : Firmware) (app : App) (status_json request : List ℕ)
    → HasShortType (reply_to firmware app status_json request)
unfolding reply_to route status_reply action_reply
reply_to-HasShortType firmware app status_json request =
    let P = HasShortType in
    option_rule P (scan_request (c_string request)) (λ _. json-HasShortType)
      λ (method, target) _.
        if_rule P (bytes_eq method (codes "GET") && bytes_eq target (codes "/api/status"))
          (λ _.
            option_rule P
              (control_json_write_snapshot (bluetooth_control_get_snapshot firmware.version app)
                status_json max_snapshot_size).1
              (λ _. json-HasShortType) (λ n _. json-HasShortType))
          λ _.
            if_rule P
              (bytes_eq method (codes "GET")
                && (bytes_eq target (codes "/") || bytes_eq target (codes "/index.html")))
              (λ _. record {
                short = looser (exact (codes "text/html; charset=utf-8")) (omega arith);
              })
              λ _.
                if_rule P (not (bytes_eq method (codes "POST"))) (λ _. json-HasShortType)
                  λ _.
                    option_rule P (request_of_target target) (λ _. json-HasShortType)
                      λ q _.
                        if_rule P (not (bluetooth_control_submit q app).1) (λ _. json-HasShortType)
                          (λ _. json-HasShortType)

-- The calls that send a response and close the connection.
abbrev pub whole_response : ℕ → Response → List Call
whole_response pcb r =
    Call.write pcb (response_header r.status r.content_type (length r.body))
    ∷ Call.write pcb r.body
    ∷ Call.output pcb
    ∷ Call.detach pcb
    ∷ Call.close pcb
    ∷ []

true-ne-false : true ≢ false
true-ne-false e = ground (arith, e)

close_client-calls :
    (lwip : Lwip) (c : Client)
    → c.pcb ≢ 0
    → lwip.tcp_close ≡ true
    → (close_client lwip c).calls ≡ Call.detach c.pcb ∷ Call.close c.pcb ∷ []
unfolding close_client
close_client-calls lwip c pcb closes =
    let P : Done → Type 0 = λ d. d.calls ≡ Call.detach c.pcb ∷ Call.close c.pcb ∷ [] in
    if_rule P (c.pcb == 0) (λ e. absurd (pcb (ground arith)))
      λ _. if_rule P lwip.tcp_close (λ _. refl) (λ e. absurd (true-ne-false (sym closes ∙ e)))

send_response-whole :
    (lwip : Lwip) (c : Client) (r : Response)
    → AtMost 31 r.content_type
    → c.pcb ≢ 0
    → lwip.write_header ≡ true
    → lwip.write_body ≡ true
    → lwip.tcp_close ≡ true
    → (send_response lwip c r).calls ≡ whole_response c.pcb r
unfolding send_response
send_response-whole lwip c r short pcb header body closes =
    let P : Done → Type 0 = λ d. d.calls ≡ whole_response c.pcb r in
    let closed = close_client-calls lwip c pcb closes in
    let text = response_header r.status r.content_type (length r.body) in
    let fits = leb-false response_header_size (length text) (
      omega
        (arith, (response_header-AtMost r.status r.content_type (length r.body) short).bound)) in
    if_rule P (leb response_header_size (length text)) (λ e. absurd (true-ne-false (sym e ∙ fits)))
      λ _.
        if_rule P (not lwip.write_header) (λ e. absurd (true-ne-false (sym e ∙ ap not header)))
          λ _.
            if_rule P (not lwip.write_body) (λ e. absurd (true-ne-false (sym e ∙ ap not body)))
              λ _.
                ap
                  (λ calls.
                    Call.write c.pcb text ∷ Call.write c.pcb r.body ∷ Call.output c.pcb ∷ calls)
                  closed

-- Whatever the request, and in any state of the application: where the connection of the client is
-- not NULL and lwIP takes both writes and the close, the header and the body of the response are
-- written whole, output, and the connection is closed.
pub handle_request-whole :
    (firmware : Firmware) (lwip : Lwip) (c : Client) (app : App) (status_json : List ℕ)
    → c.pcb ≢ 0
    → lwip.write_header ≡ true
    → lwip.write_body ≡ true
    → lwip.tcp_close ≡ true
    → (handle_request firmware lwip c app status_json).done.calls
      ≡ whole_response c.pcb (reply_to firmware app status_json c.request).response
unfolding handle_request
handle_request-whole firmware lwip c app status_json pcb header body closes =
    send_response-whole lwip c _ (reply_to-HasShortType firmware app status_json c.request).short
      pcb header body closes
