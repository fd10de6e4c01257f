-- ===== src/Web/Config/Receive.antt =====
-- web/web_config.c: `receive_request`, and what it makes of one client.
use picow_bt_kb_hid.Base.{
  ℕ, ◌+◌, ◌-◌, ◌<◌, ◌≤◌, ◌≡◌, refl, sym, ap, ◌∙◌, Bool, true, false, ◌⊎◌, inl, inr, List, [], ◌∷◌,
  ◌++◌, Option, none, some, if_rule, ◌==◌, take, length, length-append, length-take_le, take_all,
  arith,
}
use picow_bt_kb_hid.Base.Text.{codes, c_string}
use picow_bt_kb_hid.Bt.App.Model.{App}
use picow_bt_kb_hid.Web.Config.Connection.{
  request_size, Client, zero_client, Err, Call, Lwip, json, send_response,
}
use picow_bt_kb_hid.Web.Config.Reply.{Firmware}
use picow_bt_kb_hid.Web.Config.Callbacks.{
  Served, handle_request, has_header_end, copy_request, receive_request,
}
use picow_bt_kb_hid.Web.Config.Clients.{
  IsValid, zero_client-IsValid, close_client-zero, send_response-zero, handle_request-zero, copied,
}
use picow_bt_kb_hid.Web.Config.HeaderEnd.{HasEmptyLine, has_header_end_iff, none_found}
use picow_bt_kb_hid.Web.Config.Stored.{received, IsStored, copy_request-IsStored, searched}

module _ (firmware : Firmware) (lwip : Lwip) (c : Client) (data_ : List ℕ) (app : App)
    (status_json : List ℕ) where
  -- The end of a header is there: the request that is stored is answered, and the client is zero.
  pub record IsAnswered (s : Served) : Type 0 where
    pub finished : HasEmptyLine (c_string (received c data_))
    pub request : Client
    pub request_is : IsStored c data_ request
    pub client_is : s.done.client ≡ zero_client
    pub app_is : s.app ≡ (handle_request firmware lwip request app status_json).app
    pub calls_are :
        s.done.calls
        ≡ Call.recved c.pcb (length data_)
          ∷ (handle_request firmware lwip request app status_json).done.calls

  -- The data fills the array and no header ends: the client is told so with status 400 and is zero,
  -- and the application stays.
  pub record IsRefused (s : Served) : Type 0 where
    pub unfinished : ¬ HasEmptyLine (c_string (received c data_))
    pub full : request_size - 1 ≤ c.request_length + length data_
    pub request : Client
    pub request_is : IsStored c data_ request
    pub client_is : s.done.client ≡ zero_client
    pub app_is : s.app ≡ app
    pub calls_are :
        s.done.calls
        ≡ Call.recved c.pcb (length data_)
          ∷ (send_response lwip request
              (json 400 (codes "{\"error\":\"request too large\"}"))).calls

  -- There is room for more and no header ends: all of the data is stored, nothing is sent, and the
  -- application stays.
  pub record IsWaiting (s : Served) : Type 0 where
    pub unfinished : ¬ HasEmptyLine (c_string (received c data_))
    pub some_room : c.request_length + length data_ < request_size - 1
    pub whole : received c data_ ≡ take c.request_length c.request ++ data_
    pub request_is : IsStored c data_ s.done.client
    pub app_is : s.app ≡ app
    pub calls_are : s.done.calls ≡ Call.recved c.pcb (length data_) ∷ []
    pub result_is : s.done.result ≡ Err.ok

  -- On a valid client, of data without an error as much is stored as the array has room for. If the
  -- end of a header then stands among the bytes received, before any zero byte, the stored request is
  -- answered; if not and the array is full, the request is refused with status 400; either way the
  -- client ends zero. If neither, all of the data is stored behind the bytes that were there, the
  -- client waits and nothing is sent.
  pub receive-answers_or_waits :
      IsValid c
      → let s = receive_request firmware lwip c (some data_) false app status_json in
        IsAnswered s ⊎ IsRefused s ⊎ IsWaiting s
  unfolding receive_request
  receive-answers_or_waits v =
      let P : Served → Type 0 = λ s. IsAnswered s ⊎ IsRefused s ⊎ IsWaiting s in
      let stored = copy_request-IsStored c data_ v in
      let text = searched c data_ v in
      if_rule P (has_header_end (c_string (copy_request c data_).request))
        (λ e. inl (record {
          finished = (has_header_end_iff _).0 (ap has_header_end (sym text) ∙ e);
          request = copy_request c data_;
          request_is = stored;
          client_is = handle_request-zero firmware lwip (copy_request c data_) app status_json;
          app_is = refl;
          calls_are = refl;
        }))
        λ e.
          if_rule P (request_size - 1 - c.request_length == copied c data_)
            (λ full. inr (
              inl (record {
                unfinished = none_found (ap has_header_end (sym text) ∙ e);
                full = ground (arith, v.room);
                request = copy_request c data_;
                request_is = stored;
                client_is = send_response-zero lwip (copy_request c data_) _;
                app_is = refl;
                calls_are = refl;
              })))
            λ short. inr (
              inr (record {
                unfinished = none_found (ap has_header_end (sym text) ∙ e);
                some_room = ground (arith, v.room);
                whole =
                    ap (λ t. take c.request_length c.request ++ t)
                      (take_all (request_size - 1 - c.request_length) data_ (ground arith));
                request_is = stored;
                app_is = refl;
                calls_are = refl;
                result_is = refl;
              }))

  -- After data the client is zero, or it holds what was received and has room for more.
  pub receive-zero_or_waits :
      IsValid c
      → let s = receive_request firmware lwip c (some data_) false app status_json in
        (s.done.client ≡ zero_client) ⊎ IsWaiting s
  receive-zero_or_waits v = elim (receive-answers_or_waits v) [
    | inl answered ↦ inl answered.client_is
    | inr (inl refused) ↦ inl refused.client_is
    | inr (inr waits) ↦ inr waits
  ]

  waiting-IsValid : {s : Served} → c.used ≡ true → IsValid c → IsWaiting s → IsValid s.done.client
  waiting-IsValid used v w =
      let k = w.request_is in
      record {
        storage = k.storage;
        room = omega (
          arith,
          k.length_is,
          ap (λ (t : List ℕ). length t) w.whole,
          length-append (take c.request_length c.request) data_,
          length-take_le c.request_length c.request,
          w.some_room,
        );
        ended = k.ended;
        age = omega (arith, k.others.2, v.age);
        state = inl (k.others.0 ∙ used);
      }

pub receive-IsValid :
    (firmware : Firmware) (lwip : Lwip) (c : Client) (p : Option (List ℕ)) (error : Bool)
    (app : App) (status_json : List ℕ)
    → c.used ≡ true
    → IsValid c
    → IsValid (receive_request firmware lwip c p error app status_json).done.client
unfolding receive_request
receive-IsValid firmware lwip c none error app status_json used v =
    rw (close_client-zero lwip c) zero_client-IsValid
receive-IsValid firmware lwip c (some data_) true app status_json used v =
    rw (close_client-zero lwip c) zero_client-IsValid
receive-IsValid firmware lwip c (some data_) false app status_json used v =
    elim (receive-zero_or_waits firmware lwip c data_ app status_json v) [
      | inl closed ↦ rw closed zero_client-IsValid
      | inr waits ↦ waiting-IsValid firmware lwip c data_ app status_json used v waits
    ]
