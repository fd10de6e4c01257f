-- ===== src/Bt/Sdp/Reassembly.antt =====
-- bt/sdp_parser.c: the bytes of an attribute, fed one by one.
use picow_bt_kb_hid.Base.{
  ℕ, suc, ◌+◌, ◌%◌, ◌^◌, ◌≡◌, ◌≤◌, ◌<◌, refl, ap, sym, ◌∙◌, true, false, ◌||◌, List, [], ◌∷◌, ◌++◌,
  length, length-append, set, ◌==◌, leb, ltb, arith,
}
use picow_bt_kb_hid.Bt.Devices.{Device}
use picow_bt_kb_hid.Bt.Sdp.Feed.{SdpParser, buffer_size, parse_attribute, sdp_parser_feed}

-- The bytes of an attribute of `n` bytes, fed in order from `offset` on, with their effect on a
-- device.
unfoldable pub feed_from : SdpParser → ℕ → ℕ → ℕ → List ℕ → Device → SdpParser × Device
feed_from p attribute_id n offset [] d = (p, d)
feed_from p attribute_id n offset (b ∷ bytes) d =
    let (q, f) = sdp_parser_feed p attribute_id n offset b in
    feed_from q attribute_id n (offset + 1) bytes (f d)

assoc : (xs ys zs : List ℕ) → (xs ++ ys) ++ zs ≡ xs ++ (ys ++ zs)
assoc [] ys zs = refl
assoc (x ∷ xs) ys zs = ap (λ l. x ∷ l) (assoc xs ys zs)

set-append : (xs ys : List ℕ) (x y : ℕ) → set (xs ++ (y ∷ ys)) (length xs) x ≡ xs ++ (x ∷ ys)
set-append [] ys x y = refl
set-append (z ∷ xs) ys x y = ap (λ l. z ∷ l) (set-append xs ys x y)

module _ (p : SdpParser) (attribute_id n offset b : ℕ) (fits : n ≤ 256) where
  in_attribute : offset < n → (n == 0 || leb n offset) ≡ false
  in_attribute inside = ground arith

  in_buffer : ltb buffer_size n ≡ false
  in_buffer = ground arith

  -- One byte that is not the last is stored.
  feed_byte :
      offset + 1 < n
      → sdp_parser_feed p attribute_id n offset b
        ≡ (record p { buffer = set p.buffer offset b }, λ d. d)
  unfolding sdp_parser_feed
  feed_byte more =
      let e : (offset + 1 == n) ≡ false = ground arith in
      rw (in_attribute (omega arith), in_buffer, e) refl

  -- The last one completes the attribute.
  feed_last :
      offset + 1 ≡ n
      → sdp_parser_feed p attribute_id n offset b ≡ (
        record p {
          buffer = set p.buffer offset b;
          completed_attribute_count = (p.completed_attribute_count + 1) % 2 ^ 16;
        },
        parse_attribute attribute_id (set p.buffer offset b) n,
      )
  unfolding sdp_parser_feed
  feed_last last =
      let e : (offset + 1 == n) ≡ true = ground arith in
      rw (in_attribute (omega arith), in_buffer, e) refl

-- The state and the device once the attribute is complete, with these bytes in the buffer.
abbrev pub completed : SdpParser → ℕ → ℕ → List ℕ → Device → SdpParser × Device
completed p attribute_id n bytes d = (
  record p {
    buffer = bytes;
    completed_attribute_count = (p.completed_attribute_count + 1) % 2 ^ 16;
  },
  parse_attribute attribute_id bytes n d,
)

feed_rest :
    (p : SdpParser) (attribute_id n : ℕ) (before old bytes tail : List ℕ) (b : ℕ) (d : Device)
    → p.buffer ≡ before ++ (old ++ tail)
    → length old ≡ suc (length bytes)
    → n ≡ length before + suc (length bytes)
    → n ≤ 256
    → feed_from p attribute_id n (length before) (b ∷ bytes) d
      ≡ completed p attribute_id n (before ++ (b ∷ (bytes ++ tail))) d
unfolding feed_from
feed_rest p attribute_id n before [] bytes tail b d held same count fits = ground arith
feed_rest p attribute_id n before (o ∷ []) [] tail b d held same count fits =
    rw
      (
        feed_last p attribute_id n (length before) b fits (omega (arith, count)),
        held,
        set-append before tail b o,
      )
      refl
feed_rest p attribute_id n before (o ∷ x ∷ old) [] tail b d held same count fits = ground arith
feed_rest p attribute_id n before (o ∷ old) (b2 ∷ bytes) tail b d held same count fits =
    let q = record p { buffer = set p.buffer (length before) b } in
    let stored : q.buffer ≡ (before ++ (b ∷ [])) ++ (old ++ tail) =
      ap (λ (l : List ℕ). set l (length before) b) held
      ∙ set-append before (old ++ tail) b o
      ∙ sym (assoc before (b ∷ []) (old ++ tail)) in
    let one_more = length-append before (b ∷ []) in
    rw (feed_byte p attribute_id n (length before) b fits (omega (arith, count))) (
      ap (λ (k : ℕ). feed_from q attribute_id n k (b2 ∷ bytes) d) (sym one_more)
      ∙ feed_rest q attribute_id n (before ++ (b ∷ [])) old bytes tail b2 d stored
          (omega (arith, same)) (omega (arith, count, one_more)) fits
      ∙ ap (λ (l : List ℕ). completed p attribute_id n l d)
          (assoc before (b ∷ []) (b2 ∷ (bytes ++ tail))))

-- An attribute of 1 to 256 bytes that arrives byte by byte in order is parsed exactly once, at the
-- last byte, with its bytes at the front of the buffer and behind them what was there; the device
-- changes by this and by nothing else.
pub feed_from_lem :
    (p : SdpParser) (attribute_id b : ℕ) (bytes old tail : List ℕ) (d : Device)
    → p.buffer ≡ old ++ tail
    → length old ≡ length (b ∷ bytes)
    → length (b ∷ bytes) ≤ 256
    → feed_from p attribute_id (length (b ∷ bytes)) 0 (b ∷ bytes) d
      ≡ completed p attribute_id (length (b ∷ bytes)) ((b ∷ bytes) ++ tail) d
feed_from_lem p attribute_id b bytes old tail d held same fits =
    feed_rest p attribute_id (length (b ∷ bytes)) [] old bytes tail b d held same (omega arith) fits
