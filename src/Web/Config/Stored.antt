-- ===== src/Web/Config/Stored.antt =====
-- web/web_config.c: what `receive_request` stores of the data.
use picow_bt_kb_hid.Base.{
  ℕ, suc, ◌+◌, ◌-◌, ◌≡◌, refl, sym, ap, ap₂, ◌∙◌, inl, inr, List, [], ◌∷◌, ◌++◌, ltb, get_or, take,
  drop, length, length-append, length-take, length-drop, Bool-cases, take_all, take-append, arith,
}
use picow_bt_kb_hid.Base.Text.{c_string, c_string_ended}
use picow_bt_kb_hid.Web.Config.Connection.{request_size, Client}
use picow_bt_kb_hid.Web.Config.Callbacks.{copy_request}
use picow_bt_kb_hid.Web.Config.Clients.{IsValid, copied, copied_in}

-- The bytes received so far with the data, as far as the array has room for them.
abbrev pub received : Client → List ℕ → List ℕ
received c data_ =
    take c.request_length c.request ++ take (request_size - 1 - c.request_length) data_

take-copied :
    (c : Client) (data_ : List ℕ)
    → take (copied c data_) data_ ≡ take (request_size - 1 - c.request_length) data_
take-copied c data_ =
    let available = request_size - 1 - c.request_length in
    elim (Bool-cases (ltb available (length data_))) [
      | inl e ↦ rw e refl
      | inr e ↦ rw e (
          take_all (length data_) data_ (omega arith)
          ∙ sym (take_all available data_ (ground arith)))
    ]

get_or_end : (xs : List ℕ) (b : ℕ) (ys : List ℕ) (d : ℕ) → get_or (xs ++ (b ∷ ys)) (length xs) d ≡ b
get_or_end [] b ys d = refl
get_or_end (x ∷ xs) b ys d = get_or_end xs b ys d

-- The client with what was received stored, with a zero byte behind it.
pub record IsStored (c : Client) (data_ : List ℕ) (c' : Client) : Type 0 where
  pub storage : length c'.request ≡ request_size
  pub length_is : c'.request_length ≡ length (received c data_)
  pub text : take c'.request_length c'.request ≡ received c data_
  pub ended : get_or c'.request c'.request_length 1 ≡ 0
  pub others : (c'.used ≡ c.used) × (c'.pcb ≡ c.pcb) × (c'.age_polls ≡ c.age_polls)

module _ (c : Client) (data_ : List ℕ) (v : IsValid c) where
  stored_size :
      length (take c.request_length c.request ++ take (copied c data_) data_)
      ≡ c.request_length + copied c data_
  stored_size =
      length-append (take c.request_length c.request) (take (copied c data_) data_)
      ∙ ap₂ ◌+◌ (length-take c.request_length c.request (omega (arith, v.storage, v.room)))
          (length-take (copied c data_) data_ (ground arith))

  pub copy_request-IsStored : IsStored c data_ (copy_request c data_)
  unfolding copy_request
  copy_request-IsStored =
      let n = copied c data_ in
      let text = take c.request_length c.request ++ take n data_ in
      let behind = drop (c.request_length + n + 1) c.request in
      let inside = copied_in c data_ v in
      let same : text ≡ received c data_ =
        ap (λ t. take c.request_length c.request ++ t) (take-copied c data_) in
      record {
        storage =
            length-append text (0 ∷ behind)
            ∙ ap₂ ◌+◌ stored_size (ap suc (length-drop (c.request_length + n + 1) c.request))
            ∙ omega (arith, v.storage);
        length_is = sym stored_size ∙ ap (λ (t : List ℕ). length t) same;
        text =
            ap (λ k. take k (text ++ (0 ∷ behind))) (sym stored_size)
            ∙ take-append text (0 ∷ behind)
            ∙ same;
        ended =
            ap (λ k. get_or (text ++ (0 ∷ behind)) k 1) (sym stored_size)
            ∙ get_or_end text 0 behind 1;
        others = (refl, refl, refl);
      }

  -- The text that is searched for the end of the header.
  pub searched : c_string (copy_request c data_).request ≡ c_string (received c data_)
  unfolding copy_request
  searched =
      c_string_ended (take c.request_length c.request ++ take (copied c data_) data_)
        (drop (c.request_length + copied c data_ + 1) c.request)
      ∙ ap (λ t. c_string (take c.request_length c.request ++ t)) (take-copied c data_)
