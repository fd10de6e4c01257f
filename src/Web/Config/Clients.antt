-- ===== src/Web/Config/Clients.antt =====
-- web/web_config.c: what each callback makes of one client.
use picow_bt_kb_hid.Base.{
  ℕ, ◌+◌, ◌-◌, ◌%◌, ◌^◌, ◌<◌, ◌≡◌, refl, true, not, ◌⊎◌, inl, inr, List, if◌then◌else◌, if_rule,
  ◌==◌, ltb, leb, get_or, length, arith,
}
use picow_bt_kb_hid.Bt.App.Model.{App}
use picow_bt_kb_hid.Web.Config.Connection.{
  request_size, response_header_size, Client, zero_client, Lwip, Done, close_client, poll_client,
  Response, response_header, send_response,
}
use picow_bt_kb_hid.Web.Config.Reply.{Firmware}
use picow_bt_kb_hid.Web.Config.Callbacks.{handle_request}

-- The numbers of a client between two callbacks: the bytes of the request end before the last place
-- of the array but one, so there is room for another byte and for the zero byte that ends them.
pub record IsValid (c : Client) : Type 0 where
  pub storage : length c.request ≡ request_size
  pub room : c.request_length < request_size - 1
  pub ended : get_or c.request c.request_length 1 ≡ 0
  pub age : c.age_polls < 5
  pub state : (c.used ≡ true) ⊎ (c ≡ zero_client)

pub zero_client-IsValid : IsValid zero_client
zero_client-IsValid = record {
  storage = refl;
  room = omega arith;
  ended = refl;
  age = omega arith;
  state = inr refl;
}

-- A callback that closes leaves the client zero.
pub close_client-zero : (lwip : Lwip) (c : Client) → (close_client lwip c).client ≡ zero_client
unfolding close_client
close_client-zero lwip c =
    if_rule (λ (d : Done). d.client ≡ zero_client) (c.pcb == 0) (λ _. refl)
      λ _. if_rule (λ (d : Done). d.client ≡ zero_client) lwip.tcp_close (λ _. refl) (λ _. refl)

pub send_response-zero :
    (lwip : Lwip) (c : Client) (r : Response) → (send_response lwip c r).client ≡ zero_client
unfolding send_response
send_response-zero lwip c r =
    let P : Done → Type 0 = λ d. d.client ≡ zero_client in
    let closed = close_client-zero lwip c in
    if_rule P
      (leb response_header_size (length (response_header r.status r.content_type (length r.body))))
      (λ _. closed)
      λ _.
        if_rule P (not lwip.write_header) (λ _. closed)
          λ _. if_rule P (not lwip.write_body) (λ _. closed) (λ _. closed)

pub handle_request-zero :
    (firmware : Firmware) (lwip : Lwip) (c : Client) (app : App) (status_json : List ℕ)
    → (handle_request firmware lwip c app status_json).done.client ≡ zero_client
unfolding handle_request
handle_request-zero firmware lwip c app status_json = send_response-zero lwip c _

pub poll_client-IsValid :
    (lwip : Lwip) (c : Client) → c.used ≡ true → IsValid c → IsValid (poll_client lwip c).client
unfolding poll_client
poll_client-IsValid lwip c used v =
    let older : Client = record c { age_polls = (c.age_polls + 1) % 2 ^ 8 } in
    if_rule (λ (d : Done). IsValid d.client) (leb 5 older.age_polls)
      (λ _. rw (close_client-zero lwip older) zero_client-IsValid)
      (λ young. record {
        storage = v.storage;
        room = v.room;
        ended = v.ended;
        age = ground arith;
        state = inl used;
      })

-- The bytes that are copied, and where they end.
abbrev pub copied : Client → List ℕ → ℕ
copied c data_ =
    let available = request_size - 1 - c.request_length in
    if ltb available (length data_) then available else length data_

pub copied_in :
    (c : Client) (data_ : List ℕ) → IsValid c → c.request_length + copied c data_ < request_size
copied_in c data_ v = ground (arith, v.room)

-- Taking a free slot.
pub taken-IsValid :
    (c : Client) (pcb : ℕ) → IsValid c → IsValid (record c { used = true; pcb = pcb })
taken-IsValid c pcb v = record {
  storage = v.storage;
  room = v.room;
  ended = v.ended;
  age = v.age;
  state = inl refl;
}
