-- ===== src/Web/Config/Timeout.antt =====
-- web/web_config.c: how long a client can keep its slot.
use picow_bt_kb_hid.Base.{
  ℕ, suc, ◌+◌, ◌%◌, ◌^◌, ◌≤◌, ◌≡◌, refl, ap, ◌∙◌, Bool, true, false, ◌⊎◌, inl, inr, List, [], ◌∷◌,
  Option, none, some, if◌then◌else◌, if_rule, leb, arith,
}
use picow_bt_kb_hid.Bt.App.Model.{App}
use picow_bt_kb_hid.Web.Config.Connection.{Client, zero_client, Lwip, Done, poll_client}
use picow_bt_kb_hid.Web.Config.Reply.{Firmware}
use picow_bt_kb_hid.Web.Config.Callbacks.{receive_request}
use picow_bt_kb_hid.Web.Config.Clients.{IsValid, close_client-zero, poll_client-IsValid}
use picow_bt_kb_hid.Web.Config.Receive.{receive-IsValid, receive-zero_or_waits}

-- What happens to a connection: lwIP polls it, or delivers data or an error, with any answers and any
-- state of the application by then.
pub data Happening : Type 0 where
  polled : Lwip → Happening
  received : Lwip → Option (List ℕ) → Bool → App → List ℕ → Happening

module _ (firmware : Firmware) where
  -- The client after a callback.
  abbrev pub callback : Happening → Client → Client
  callback (polled lwip) c = (poll_client lwip c).client
  callback (received lwip p error app status_json) c =
      (receive_request firmware lwip c p error app status_json).done.client

  -- The client after the callbacks, of which there are no more once it is closed.
  unfoldable pub session : List Happening → Client → Client
  session [] c = c
  session (h ∷ rest) c = let later = session rest (callback h c) in if c.used then later else c

  -- The number of polls.
  unfoldable pub poll_count : List Happening → ℕ
  poll_count [] = 0
  poll_count (polled lwip ∷ rest) = suc (poll_count rest)
  poll_count (received lwip p error app status_json ∷ rest) = poll_count rest

  -- A callback leaves the client closed, or its age grows by the polls.
  record IsLater (h : Happening) (c c' : Client) : Type 0 where
    valid : IsValid c'
    ages : (c' ≡ zero_client) ⊎ (c'.age_polls ≡ c.age_polls + poll_count (h ∷ []))

  poll-ages :
      (lwip : Lwip) (c : Client)
      → IsValid c
      → ((poll_client lwip c).client ≡ zero_client)
        ⊎ ((poll_client lwip c).client.age_polls ≡ c.age_polls + 1)
  unfolding poll_client
  poll-ages lwip c v =
      let older : Client = record c { age_polls = (c.age_polls + 1) % 2 ^ 8 } in
      if_rule (λ (d : Done). (d.client ≡ zero_client) ⊎ (d.client.age_polls ≡ c.age_polls + 1))
        (leb 5 older.age_polls) (λ _. inl (close_client-zero lwip older))
        (λ _. inr (omega (arith, v.age)))

  callback-IsLater :
      (h : Happening) (c : Client) → c.used ≡ true → IsValid c → IsLater h c (callback h c)
  unfolding poll_count receive_request
  callback-IsLater (polled lwip) c used v = record {
    valid = poll_client-IsValid lwip c used v;
    ages = poll-ages lwip c v;
  }
  callback-IsLater (received lwip p error app status_json) c used v = record {
    valid = receive-IsValid firmware lwip c p error app status_json used v;
    ages = receive-ages p error;
  }
    where
      receive-ages :
          (p : Option (List ℕ)) (error : Bool)
          → let c' = (receive_request firmware lwip c p error app status_json).done.client in
            (c' ≡ zero_client) ⊎ (c'.age_polls ≡ c.age_polls + 0)
      receive-ages none error = inl (close_client-zero lwip c)
      receive-ages (some data_) true = inl (close_client-zero lwip c)
      receive-ages (some data_) false =
          elim (receive-zero_or_waits firmware lwip c data_ app status_json v) [
            | inl closed ↦ inl closed
            | inr w ↦ inr (w.request_is.others.2 ∙ omega arith)
          ]

  poll_count-next :
      (h : Happening) (rest : List Happening)
      → poll_count (h ∷ rest) ≡ poll_count (h ∷ []) + poll_count rest
  unfolding poll_count
  poll_count-next (polled lwip) rest = omega arith
  poll_count-next (received lwip p error app status_json) rest = omega arith

  session-zero : (happenings : List Happening) → session happenings zero_client ≡ zero_client
  unfolding session
  session-zero [] = refl
  session-zero (h ∷ rest) = refl

  ends_from :
      (happenings : List Happening) (c : Client)
      → IsValid c
      → 5 ≤ c.age_polls + poll_count happenings
      → session happenings c ≡ zero_client
  unfolding session poll_count
  ends_from [] c v h = absurd (omega (arith, v.age))
  ends_from (x ∷ rest) c v h =
      if_rule (λ (d : Client). d ≡ zero_client) c.used
        (λ used.
          let l = callback-IsLater x c used v in
          elim l.ages [
            | inl e ↦ ap (session rest) e ∙ session-zero rest
            | inr e ↦
                ends_from rest (callback x c) l.valid (omega (arith, h, e, poll_count-next x rest))
          ])
        (λ unused. elim v.state [ inl used ↦ absurd (ground arith) | inr e ↦ e ])

  -- Whatever arrives, in any pieces, a valid client is closed and its slot free and zero after any
  -- callbacks with five polls among them.
  pub five_polls-close :
      (happenings : List Happening) (c : Client)
      → IsValid c
      → 5 ≤ poll_count happenings
      → session happenings c ≡ zero_client
  five_polls-close happenings c v h = ends_from happenings c v (omega arith)
