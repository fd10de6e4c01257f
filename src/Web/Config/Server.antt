-- ===== src/Web/Config/Server.antt =====
-- web/web_config.c: the two slots, and the states that the callbacks of lwIP reach.
use picow_bt_kb_hid.Base.{
  ℕ, suc, ◌+◌, ◌-◌, ◌==◌, ◌≡◌, ◌≢◌, refl, ap, ◌∙◌, Bool, true, not, List, [], ◌∷◌, replicate,
  Option, none, some, if_rule, option_rule, get_or, set, length, length-set, All, All-set,
  All-get_or, length-replicate,
}
use mathlib.Core.Path.{subst}
use picow_bt_kb_hid.Base.Text.{c_string}
use picow_bt_kb_hid.Bt.App.Model.{App}
use picow_bt_kb_hid.Web.Json.{max_snapshot_size}
use picow_bt_kb_hid.Web.Config.Connection.{
  Client, zero_client, max_clients, request_size, Err, Call, Lwip, poll_client, client_error,
}
use picow_bt_kb_hid.Web.Config.Reply.{Firmware}
use picow_bt_kb_hid.Web.Config.Callbacks.{
  Served, receive_request, handle_request, has_header_end, copy_request, accept_slot, accept_client,
}
use picow_bt_kb_hid.Web.Config.Clients.{
  IsValid, copied, zero_client-IsValid, taken-IsValid, poll_client-IsValid,
}
use picow_bt_kb_hid.Web.Config.Receive.{receive-IsValid}
use picow_bt_kb_hid.Web.Config.Replies.{reply_to-storage}

-- The static variables `clients` and `status_json`, and the Bluetooth application.
pub record Web : Type 0 where
  pub clients : List Client
  pub status_json : List ℕ
  pub app : App

-- The client of a slot.
abbrev pub client_at : Web → ℕ → Client
client_at w slot = get_or w.clients slot zero_client

-- `receive_request` for the client of a slot.
abbrev pub receive_at : Firmware → Lwip → ℕ → Option (List ℕ) → Bool → Web → Web
receive_at firmware lwip slot p error w =
    let served = receive_request firmware lwip (client_at w slot) p error w.app w.status_json in
    record {
      clients = set w.clients slot served.done.client;
      status_json = served.status_json;
      app = served.app;
    }

-- The states from power-on. A connection has no callback of a client that is not in use, since
-- closing removes them and an error ends the connection; a new connection is not NULL. Between two
-- callbacks the application does anything.
pub data Reachable (firmware : Firmware) : Web → Type 0 where
  started :
      (app : App)
      → Reachable firmware (record {
        clients = replicate max_clients zero_client;
        status_json = replicate max_snapshot_size 0;
        app = app;
      })
  accepted :
      {w : Web} (pcb : ℕ) (error : Err)
      → pcb ≢ 0
      → Reachable firmware w
      → Reachable firmware (record w { clients = (accept_client w.clients pcb error).0 })
  received :
      {w : Web} (lwip : Lwip) (slot : ℕ) (p : Option (List ℕ)) (error : Bool)
      → (client_at w slot).used ≡ true
      → Reachable firmware w
      → Reachable firmware (receive_at firmware lwip slot p error w)
  polled :
      {w : Web} (lwip : Lwip) (slot : ℕ)
      → (client_at w slot).used ≡ true
      → Reachable firmware w
      → Reachable firmware
          (record w { clients = set w.clients slot (poll_client lwip (client_at w slot)).client })
  failed :
      {w : Web} (slot : ℕ)
      → Reachable firmware w
      → Reachable firmware
          (record w { clients = set w.clients slot (client_error (client_at w slot)) })
  elsewhere :
      {w : Web} (app : App) → Reachable firmware w → Reachable firmware (record w { app = app })

pub record IsWeb (w : Web) : Type 0 where
  pub slots : length w.clients ≡ max_clients
  pub clients_valid : All IsValid w.clients
  pub storage : length w.status_json ≡ max_snapshot_size

-- What is found is the list with one slot taken.
record Taken (clients : List Client) (o : Option (List Client × List Call)) : Type 0 where
  slots : length (elim o [ none ↦ clients | some (clients', calls) ↦ clients' ]) ≡ length clients
  valid : All IsValid (elim o [ none ↦ clients | some (clients', calls) ↦ clients' ])

accept_slot-Taken :
    (clients : List Client) (pcb i : ℕ)
    → All IsValid clients
    → Taken clients (accept_slot clients pcb i)
unfolding accept_slot
accept_slot-Taken [] pcb i v = record { slots = refl; valid = v }
accept_slot-Taken (c ∷ rest) pcb i v =
    if_rule (Taken (c ∷ rest)) (not c.used)
      (λ _. record { slots = refl; valid = (taken-IsValid c pcb v.0, v.1) })
      (λ _. later (accept_slot rest pcb (i + 1)) (accept_slot-Taken rest pcb (i + 1) v.1))
  where
    later :
        (o : Option (List Client × List Call))
        → Taken rest o
        → Taken (c ∷ rest) (elim o [ none ↦ none | some (rest', calls) ↦ some (c ∷ rest', calls) ])
    later none t = record { slots = refl; valid = v }
    later (some (rest', calls)) t = record { slots = ap suc t.slots; valid = (v.0, t.valid) }

accept-IsWeb :
    (w : Web) (pcb : ℕ) (error : Err)
    → IsWeb w
    → IsWeb (record w { clients = (accept_client w.clients pcb error).0 })
unfolding accept_client
accept-IsWeb w pcb (Err.other e) v = record {
  slots = v.slots;
  clients_valid = v.clients_valid;
  storage = v.storage;
}
accept-IsWeb w pcb Err.abrt v = record {
  slots = v.slots;
  clients_valid = v.clients_valid;
  storage = v.storage;
}
accept-IsWeb w pcb Err.ok v =
    option_rule (λ (x : List Client × List Call × Err). IsWeb (record w { clients = x.0 }))
      (accept_slot w.clients pcb 0)
      (λ _. record { slots = v.slots; clients_valid = v.clients_valid; storage = v.storage })
      (λ found e.
        let t = subst (Taken w.clients) e (accept_slot-Taken w.clients pcb 0 v.clients_valid) in
        record { slots = t.slots ∙ v.slots; clients_valid = t.valid; storage = v.storage })

-- A callback of one client.
at_slot-IsWeb :
    (w : Web) (slot : ℕ) (c : Client)
    → IsWeb w
    → IsValid c
    → IsWeb (record w { clients = set w.clients slot c })
at_slot-IsWeb w slot c v valid = record {
  slots = length-set w.clients slot c ∙ v.slots;
  clients_valid = All-set IsValid w.clients slot c v.clients_valid valid;
  storage = v.storage;
}

failed-IsValid : (c : Client) → IsValid (client_error c)
unfolding client_error
failed-IsValid c = zero_client-IsValid

client_at-IsValid : (w : Web) (slot : ℕ) → IsWeb w → IsValid (client_at w slot)
client_at-IsValid w slot v =
    All-get_or IsValid w.clients slot zero_client v.clients_valid zero_client-IsValid

receive-storage :
    (firmware : Firmware) (lwip : Lwip) (c : Client) (p : Option (List ℕ)) (error : Bool)
    (app : App) (status_json : List ℕ)
    → length status_json ≡ max_snapshot_size
    → length (receive_request firmware lwip c p error app status_json).status_json
      ≡ max_snapshot_size
unfolding receive_request handle_request
receive-storage firmware lwip c none error app status_json e = e
receive-storage firmware lwip c (some data_) error app status_json e =
    let P : Served → Type 0 = λ s. length s.status_json ≡ max_snapshot_size in
    let client' = copy_request c data_ in
    if_rule P error (λ _. e)
      λ _.
        if_rule P (has_header_end (c_string client'.request))
          (λ _. reply_to-storage firmware app status_json client'.request e)
          λ _. if_rule P (request_size - 1 - c.request_length == copied c data_) (λ _. e) (λ _. e)

-- In every state that the callbacks reach, if lwIP calls none for a client that is not in use and
-- accepts no connection that is NULL: there are two slots, and in each the request lies within its
-- array with a zero byte behind it and place left for another byte, fewer than five polls have
-- passed, and a slot that is not in use is zero; the buffer for the status has its size.
pub Reachable-IsWeb : (firmware : Firmware) {w : Web} → Reachable firmware w → IsWeb w
Reachable-IsWeb firmware (started app) = record {
  slots = refl;
  clients_valid = (zero_client-IsValid, (zero_client-IsValid, tt));
  storage = length-replicate {A = ℕ} max_snapshot_size 0;
}
Reachable-IsWeb firmware (accepted pcb error some_pcb r) =
    accept-IsWeb _ pcb error (Reachable-IsWeb firmware r)
Reachable-IsWeb firmware (received {w} lwip slot p error used r) =
    let v = Reachable-IsWeb firmware r in
    let c = client_at-IsValid w slot v in
    let next =
      at_slot-IsWeb w slot _ v
        (receive-IsValid firmware lwip (client_at w slot) p error w.app w.status_json used c) in
    record {
      slots = next.slots;
      clients_valid = next.clients_valid;
      storage =
          receive-storage firmware lwip (client_at w slot) p error w.app w.status_json v.storage;
    }
Reachable-IsWeb firmware (polled {w} lwip slot used r) =
    let v = Reachable-IsWeb firmware r in
    at_slot-IsWeb w slot _ v
      (poll_client-IsValid lwip (client_at w slot) used (client_at-IsValid w slot v))
Reachable-IsWeb firmware (failed {w} slot r) =
    at_slot-IsWeb w slot _ (Reachable-IsWeb firmware r) (failed-IsValid (client_at w slot))
Reachable-IsWeb firmware (elsewhere app r) =
    let v = Reachable-IsWeb firmware r in
    record { slots = v.slots; clients_valid = v.clients_valid; storage = v.storage }
