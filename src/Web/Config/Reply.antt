-- ===== src/Web/Config/Reply.antt =====
-- web/web_config.c: what `handle_request` answers to a request.
use picow_bt_kb_hid.Base.{ℕ, not, ◌&&◌, ◌||◌, List, none, some, if◌then◌else◌, take, length}
use picow_bt_kb_hid.Base.Bytes.{bytes_eq}
use picow_bt_kb_hid.Base.Text.{codes, c_string}
use picow_bt_kb_hid.Bt.App.Model.{App}
use picow_bt_kb_hid.Bt.App.Snapshot.{bluetooth_control_get_snapshot}
use picow_bt_kb_hid.Bt.App.Task.{bluetooth_control_submit}
use picow_bt_kb_hid.Web.Json.{control_json_write_snapshot, max_snapshot_size}
use picow_bt_kb_hid.Web.Request.{scan_request, request_of_target}
use picow_bt_kb_hid.Web.Config.Connection.{Response, json}

-- What a request is answered, and what it leaves of the application and of `status_json`.
pub record Reply : Type 0 where
  pub response : Response
  pub app : App
  pub status_json : List ℕ

-- The version of the generated header, and the page of web/web_ui.c.
pub record Firmware : Type 0 where
  pub version : List ℕ
  pub web_ui_html : List ℕ

-- The branch of `GET /api/status`.
unfoldable pub status_reply : Firmware → App → List ℕ → Reply
status_reply firmware app status_json =
    let (buffer, written) =
      control_json_write_snapshot (bluetooth_control_get_snapshot firmware.version app) status_json
        max_snapshot_size in
    elim written [
      | none ↦ record {
        response = json 503 (codes "{\"error\":\"status too large\"}");
        app = app;
        status_json = buffer;
      }
      | some length ↦ record {
        response = json 200 (take length buffer);
        app = app;
        status_json = buffer;
      }
    ]

-- The branches of a POST.
unfoldable pub action_reply : App → List ℕ → List ℕ → Reply
action_reply app status_json target = elim (request_of_target target) [
  | none ↦ record {
    response = json 404 (codes "{\"error\":\"unknown endpoint\"}");
    app = app;
    status_json = status_json;
  }
  | some request ↦
      let (app', submitted) = bluetooth_control_submit request app in
      if not submitted
      then record {
        response = json 503 (codes "{\"error\":\"control queue full\"}");
        app = app';
        status_json = status_json;
      }
      else record {
        response = json 202 (codes "{\"accepted\":true}");
        app = app';
        status_json = status_json;
      }
]

-- The tests of `handle_request` behind `sscanf`.
unfoldable pub route : Firmware → App → List ℕ → List ℕ → List ℕ → Reply
route firmware app status_json method target =
    let get = bytes_eq method (codes "GET") in
    if get && bytes_eq target (codes "/api/status")
    then status_reply firmware app status_json
    else if get && (bytes_eq target (codes "/") || bytes_eq target (codes "/index.html"))
    then record {
      response = record {
        status = 200;
        content_type = codes "text/html; charset=utf-8";
        body = firmware.web_ui_html;
      };
      app = app;
      status_json = status_json;
    }
    else if not (bytes_eq method (codes "POST"))
    then record {
      response = json 405 (codes "{\"error\":\"method not allowed\"}");
      app = app;
      status_json = status_json;
    }
    else action_reply app status_json target

-- `handle_request`, up to the response that it sends.
unfoldable pub reply_to : Firmware → App → List ℕ → List ℕ → Reply
reply_to firmware app status_json request = elim (scan_request (c_string request)) [
  | none ↦ record {
    response = json 400 (codes "{\"error\":\"invalid request\"}");
    app = app;
    status_json = status_json;
  }
  | some (method, target) ↦ route firmware app status_json method target
]
