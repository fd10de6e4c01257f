-- ===== src/Web/Config/Replies.antt =====
-- web/web_config.c: what `handle_request` answers, and which requests reach the Bluetooth
-- application.
use picow_bt_kb_hid.Base.{
  ℕ, ◌≡◌, ◌≢◌, refl, sym, ap, ◌∙◌, Bool, true, false, not, ◌&&◌, ◌||◌, List, ◌∷◌, ◌++◌, take,
  Option, none, some, if_rule, option_rule, ◌==◌, length, arith,
}
use picow_bt_kb_hid.Base.Bytes.{bytes_eq, bytes_eq→eq}
use picow_bt_kb_hid.Base.Text.{codes, c_string}
use picow_bt_kb_hid.Bt.Control.{Request}
use picow_bt_kb_hid.Bt.RequestQueue.{Queue, capacity, control_request_queue_push}
use picow_bt_kb_hid.Bt.App.Model.{App}
use picow_bt_kb_hid.Bt.App.Snapshot.{bluetooth_control_get_snapshot}
use picow_bt_kb_hid.Bt.App.Task.{bluetooth_control_submit}
use picow_bt_kb_hid.Web.Json.{control_json_write_snapshot, max_snapshot_size}
use picow_bt_kb_hid.Web.Json.Printer.{render}
use picow_bt_kb_hid.Web.Json.Status.{write_snapshot-get_snapshot}
use picow_bt_kb_hid.Web.Request.{
  scan_request, scan_word, skip_spaces, scan_characters, request_of_target,
}
use picow_bt_kb_hid.Web.Config.Connection.{Response}
use picow_bt_kb_hid.Web.Config.Reply.{Reply, Firmware, status_reply, action_reply, route, reply_to}

-- A reply that leaves the application alone, or one that reports a request as accepted.
pub data IsReply (app : App) (text : List ℕ) (r : Reply) : Type 0 where
  quiet : r.app ≡ app → r.response.status ≢ 202 → IsReply app text r
  submits :
      (target : List ℕ) (q : Request)
      → scan_request text ≡ some (codes "POST", target)
      → request_of_target target ≡ some q
      → bluetooth_control_submit q app ≡ (r.app, true)
      → r.response.status ≡ 202
      → IsReply app text r

-- A request that is refused leaves the application as it is.
submit_refused :
    (q : Request) (app : App)
    → (bluetooth_control_submit q app).1 ≡ false
    → (bluetooth_control_submit q app).0 ≡ app
unfolding bluetooth_control_submit control_request_queue_push
submit_refused q app =
    if_rule
      (λ (x : Queue × Bool).
        x.1 ≡ false → ◌≡◌ {A = App} (record app { control_requests = x.0 }) app)
      (app.control_requests.count == capacity) (λ _ _. refl) (λ _ h. absurd (ground arith))

action_reply-IsReply :
    (app : App) (status_json text target : List ℕ)
    → scan_request text ≡ some (codes "POST", target)
    → IsReply app text (action_reply app status_json target)
unfolding action_reply
action_reply-IsReply app status_json text target scanned =
    option_rule (IsReply app text) (request_of_target target) (λ _. quiet refl (ground arith))
      (λ q asked.
        if_rule (IsReply app text) (not (bluetooth_control_submit q app).1)
          (λ refused. quiet (submit_refused q app (ground arith)) (ground arith))
          (λ done.
            submits target q scanned asked
              (ap (λ b. ((bluetooth_control_submit q app).0, b)) (ground arith)) refl))

status_reply-IsReply :
    (firmware : Firmware) (app : App) (status_json text : List ℕ)
    → IsReply app text (status_reply firmware app status_json)
unfolding status_reply
status_reply-IsReply firmware app status_json text =
    option_rule (IsReply app text)
      (control_json_write_snapshot (bluetooth_control_get_snapshot firmware.version app) status_json
        max_snapshot_size).1
      (λ _. quiet refl (ground arith)) (λ n _. quiet refl (ground arith))

-- A request changes nothing of the application but by submitting one control request, and then it
-- is answered with 202; it does so only if it is a POST whose target names an endpoint and the
-- queue accepts the control request of that endpoint. No other request is answered with 202.
pub reply_to-IsReply :
    (firmware : Firmware) (app : App) (status_json request : List ℕ)
    → IsReply app (c_string request) (reply_to firmware app status_json request)
unfolding reply_to route
reply_to-IsReply firmware app status_json request =
    option_rule (IsReply app (c_string request)) (scan_request (c_string request))
      (λ _. quiet refl (ground arith))
      (λ (method, target) scanned.
        let P = IsReply app (c_string request) in
        if_rule P (bytes_eq method (codes "GET") && bytes_eq target (codes "/api/status"))
          (λ _. status_reply-IsReply firmware app status_json (c_string request))
          λ _.
            if_rule P
              (bytes_eq method (codes "GET")
                && (bytes_eq target (codes "/") || bytes_eq target (codes "/index.html")))
              (λ _. quiet refl (ground arith))
              λ _.
                if_rule P (not (bytes_eq method (codes "POST"))) (λ _. quiet refl (ground arith))
                  (λ post.
                    let is_post = bytes_eq→eq method (codes "POST") (ground arith) in
                    action_reply-IsReply app status_json (c_string request) target
                      (scanned ∙ ap (λ m. some (m, target)) is_post)))

-- What the status is answered with.
pub record IsStatus (firmware : Firmware) (app : App) (r : Reply) : Type 0 where
  pub status : r.response.status ≡ 200
  pub body : r.response.body ≡ render (bluetooth_control_get_snapshot firmware.version app)
  pub app_is : r.app ≡ app
  pub storage : length r.status_json ≡ max_snapshot_size

some-ne-none : {n : ℕ} → ◌≢◌ {A = Option ℕ} (some n) none
some-ne-none e = ground (arith, e)

some-injective : {m n : ℕ} → ◌≡◌ {A = Option ℕ} (some m) (some n) → m ≡ n
some-injective e = ground (arith, e)

status_reply-IsStatus :
    (firmware : Firmware) (app : App) (status_json : List ℕ)
    → length status_json ≡ max_snapshot_size
    → IsStatus firmware app (status_reply firmware app status_json)
unfolding status_reply
status_reply-IsStatus firmware app status_json e =
    let s = bluetooth_control_get_snapshot firmware.version app in
    let result = control_json_write_snapshot s status_json max_snapshot_size in
    let w = write_snapshot-get_snapshot firmware.version app status_json e in
    option_rule (IsStatus firmware app) result.1
      (λ nothing. absurd (some-ne-none (sym w.answer ∙ nothing)))
      (λ n found. record {
        status = refl;
        body = ap (λ k. take k result.0) (some-injective (sym found ∙ w.answer)) ∙ w.text_is;
        app_is = refl;
        storage = w.storage;
      })

-- A GET of /api/status, with anything behind the target, is answered with status 200 and the whole
-- JSON text of a snapshot of the application, in any state of it, if the buffer for the text has
-- its declared size, which it keeps; so the answer that the status is too large is never sent.
pub reply_to-IsStatus :
    (firmware : Firmware) (app : App) (status_json request rest : List ℕ)
    → length status_json ≡ max_snapshot_size
    → c_string request ≡ codes "GET /api/status" ++ (b' ' ∷ rest)
    → IsStatus firmware app (reply_to firmware app status_json request)
unfolding reply_to route scan_request scan_word skip_spaces scan_characters bytes_eq
reply_to-IsStatus firmware app status_json request rest e text =
    rw (reply_to, text) (status_reply-IsStatus firmware app status_json e)

-- The buffer of the status keeps its size.
record Stores (r : Reply) : Type 0 where
  storage : length r.status_json ≡ max_snapshot_size

pub reply_to-storage :
    (firmware : Firmware) (app : App) (status_json request : List ℕ)
    → length status_json ≡ max_snapshot_size
    → length (reply_to firmware app status_json request).status_json ≡ max_snapshot_size
unfolding reply_to route action_reply
reply_to-storage firmware app status_json request e =
    (option_rule Stores (scan_request (c_string request)) (λ _. kept)
      λ (method, target) _.
        if_rule Stores (bytes_eq method (codes "GET") && bytes_eq target (codes "/api/status"))
          (λ _. record { storage = (status_reply-IsStatus firmware app status_json e).storage })
          λ _.
            if_rule Stores
              (bytes_eq method (codes "GET")
                && (bytes_eq target (codes "/") || bytes_eq target (codes "/index.html")))
              (λ _. kept)
              λ _.
                if_rule Stores (not (bytes_eq method (codes "POST"))) (λ _. kept)
                  λ _.
                    option_rule Stores (request_of_target target) (λ _. kept)
                      λ q _.
                        if_rule Stores (not (bluetooth_control_submit q app).1) (λ _. kept)
                          (λ _. kept)).storage
  where
    kept :
        {response : Response} {app' : App}
        → Stores (record { response = response; app = app'; status_json = status_json })
    kept = record { storage = e }
