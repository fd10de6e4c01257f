-- ===== src/Web/Json/Render.antt =====
-- web/control_json.c: what of the text of a snapshot the writer leaves in its buffer.
use picow_bt_kb_hid.Base.{
  ℕ, zero, suc, ◌+◌, ◌-◌, ◌<◌, ◌≤◌, ◌≡◌, refl, sym, ap, ap₂, ◌∙◌, Bool, true, false, not, ◌||◌, ◌⊎◌,
  inl, inr, List, [], ◌∷◌, ◌++◌, Option, none, some, if◌then◌else◌, if_rule, Bool-cases, ◌==◌, ltb,
  leb, length, set, take, drop, length-append, length-take, length-take_le, length-drop, length-set,
  take_all, take-append, arith,
}
use mathlib.Core.Path.{subst}
use mathlib.Core.List.{append_assoc, append-nil}
use picow_bt_kb_hid.Base.Text.{codes, c_string}
use picow_bt_kb_hid.Bt.Snapshot.{Snapshot, ControlDevice}
use picow_bt_kb_hid.Web.Json.{
  Writer, vsnprintf, append_format, escape, append_characters, append_json_string, address_text,
  append_address, flag, device_flags, ◌>>>◌, append_device, append_devices, shown_count,
  append_snapshot, control_json_write_snapshot,
}
use picow_bt_kb_hid.Web.Json.Printer.{escapes, render_string, render_device, render_devices, render}

-- The writer holds the whole text, and a zero byte behind it.
pub record Holds (c : ℕ) (text : List ℕ) (w : Writer) : Type 0 where
  pub valid : w.valid ≡ true
  pub short : length text < c
  pub length_is : w.length ≡ length text
  pub rest : List ℕ
  pub buffer_is : w.buffer ≡ text ++ (0 ∷ rest)

-- The writer of a buffer of `c` bytes that was to write `text`.
pub record IsWriting (c : ℕ) (text : List ℕ) (w : Writer) : Type 0 where
  pub capacity_is : w.capacity ≡ c
  pub storage : length w.buffer ≡ c
  pub outcome : Holds c text w ⊎ ((w.valid ≡ false) × (c ≤ length text))

vsnprintf-storage :
    (buffer : List ℕ) (at room : ℕ) (text : List ℕ)
    → at + room ≤ length buffer
    → length (vsnprintf buffer at room text) ≡ length buffer
vsnprintf-storage buffer at room text h =
    if_rule (λ (xs : List ℕ). length xs ≡ length buffer) (room == 0) (λ e. refl)
      λ e.
        let written = take (room - 1) text in
        let behind = 0 ∷ drop (at + length written + 1) buffer in
        let short : length written ≤ room - 1 = length-take_le (room - 1) text in
        let some_room : 0 < room = ground arith in
        length-append (take at buffer) (written ++ behind)
        ∙ ap₂ ◌+◌ (length-take at buffer (omega arith)) (length-append written behind)
        ∙ omega (arith, length-drop (at + length written + 1) buffer)

vsnprintf_fits :
    (text rest : List ℕ) (room : ℕ) (t : List ℕ)
    → length t < room
    → vsnprintf (text ++ (0 ∷ rest)) (length text) room t
      ≡ (text ++ t) ++ (0 ∷ drop (length text + length t + 1) (text ++ (0 ∷ rest)))
vsnprintf_fits text rest room t h =
    let more : (room == 0) ≡ false = ground arith in
    rw (more, take_all (room - 1) t (omega arith), take-append text (0 ∷ rest))
      (sym (append_assoc text t _))

module _ (c : ℕ) where
  held : {text : List ℕ} {w : Writer} → IsWriting c text w → w.valid ≡ true → Holds c text w
  held v e = elim v.outcome [ inl f ↦ f | inr (e', full) ↦ absurd (ground arith) ]

  full_at : {text : List ℕ} {w : Writer} → IsWriting c text w → w.valid ≡ false → c ≤ length text
  full_at v e = elim v.outcome [ inl f ↦ absurd (ground (arith, f.valid)) | inr (e', full) ↦ full ]

  -- A writer that is full stays as it is.
  full_stays :
      {text : List ℕ} {w : Writer} (t : List ℕ)
      → IsWriting c text w
      → w.valid ≡ false
      → IsWriting c (text ++ t) w
  full_stays {text} t v e = record {
    capacity_is = v.capacity_is;
    storage = v.storage;
    outcome = inr (e, omega (arith, length-append text t, full_at v e));
  }

  append_format-IsWriting :
      (t text : List ℕ) (w : Writer)
      → IsWriting c text w
      → IsWriting c (text ++ t) (append_format t w)
  unfolding append_format
  append_format-IsWriting t text w v =
      if_rule (IsWriting c (text ++ t)) (not w.valid) (λ e. full_stays t v (ground arith))
        (λ e.
          let f = held v (ground arith) in
          let stays =
            vsnprintf-storage w.buffer w.length (w.capacity - w.length) t
              (omega (arith, v.capacity_is, v.storage, f.length_is, f.short)) in
          if_rule (IsWriting c (text ++ t)) (leb (w.capacity - w.length) (length t))
            (λ full. record {
              capacity_is = v.capacity_is;
              storage = stays ∙ v.storage;
              outcome =
                  inr (
                    refl,
                    ground (arith, length-append text t, f.short, f.length_is, v.capacity_is),
                  );
            })
            (λ fits. record {
              capacity_is = v.capacity_is;
              storage = stays ∙ v.storage;
              outcome = inl (record {
                valid = f.valid;
                short = ground (arith, length-append text t, f.short, f.length_is, v.capacity_is);
                length_is = ap (λ n. n + length t) f.length_is ∙ sym (length-append text t);
                rest = drop (length text + length t + 1) (text ++ (0 ∷ f.rest));
                buffer_is =
                    ap₂ (λ b n. vsnprintf b n (w.capacity - n) t) f.buffer_is f.length_is
                    ∙ vsnprintf_fits text f.rest (w.capacity - length text) t
                        (ground (arith, f.length_is, f.short, v.capacity_is));
              });
            }))

  -- A sequence of calls that writes `t`.
  abbrev pub Appends : List ℕ → (Writer → Writer) → Type 0
  Appends t f = (text : List ℕ) (w : Writer) → IsWriting c text w → IsWriting c (text ++ t) (f w)

  infixl 2 ◌then◌
  ◌then◌ :
      {t u : List ℕ} {f g : Writer → Writer}
      → Appends t f
      → Appends u g
      → Appends (t ++ u) (f >>> g)
  ◌then◌ {t} {u} {f} {g} hf hg text w v =
      subst (λ xs. IsWriting c xs (g (f w))) (append_assoc text t u)
        (hg (text ++ t) (f w) (hf text w v))

  Appends-nothing : Appends [] (λ w. w)
  Appends-nothing text w v = rw append-nil v

  append_format-Appends : (t : List ℕ) → Appends t (append_format t)
  append_format-Appends t text w v = append_format-IsWriting t text w v

  append_characters-Appends :
      (value : List ℕ) → Appends (escapes (c_string value)) (append_characters value)
  unfolding append_characters c_string escapes
  append_characters-Appends [] text w v = rw append-nil v
  append_characters-Appends (ch ∷ value) text w v =
      if_rule (IsWriting c (text ++ escapes (c_string (ch ∷ value)))) (not w.valid || ch == 0)
        (λ e. elim (Bool-cases w.valid) [
          | inr e' ↦ full_stays (escapes (c_string (ch ∷ value))) v e'
          | inl e' ↦ let z : (ch == 0) ≡ true = ground arith in rw (z, append-nil) v
        ])
        (λ e.
          let z : (ch == 0) ≡ false = ground arith in
          rw z ((append_format-Appends (escape ch) then append_characters-Appends value) text w v))

  pub append_json_string-Appends :
      (value : List ℕ) → Appends (render_string value) (append_json_string value)
  unfolding append_json_string render_string
  append_json_string-Appends value =
      append_format-Appends (b'"' ∷ [])
      then append_characters-Appends value
      then append_format-Appends (b'"' ∷ [])

  append_address-Appends :
      (address : List ℕ) → Appends (address_text address) (append_address address)
  unfolding append_address
  append_address-Appends address = append_format-Appends (address_text address)

  append_device-Appends :
      (first : Bool) (d : ControlDevice) → Appends (render_device first d) (append_device first d)
  unfolding append_device render_device
  append_device-Appends first d =
      append_format-Appends ((if first then [] else codes ",") ++ codes "{\"address\":")
      then append_address-Appends d.address
      then append_format-Appends (codes ",\"name\":")
      then append_json_string-Appends d.name
      then append_format-Appends (device_flags d)

  append_devices-Appends :
      (first : Bool) (devices : List ControlDevice)
      → Appends (render_devices first devices) (append_devices first devices)
  unfolding append_devices render_devices
  append_devices-Appends first [] = Appends-nothing
  append_devices-Appends first (d ∷ devices) =
      append_device-Appends first d then append_devices-Appends false devices

  choice-Appends :
      (b : Bool) {t u : List ℕ} {f g : Writer → Writer}
      → Appends t f
      → Appends u g
      → Appends (if b then t else u) (if b then f else g)
  choice-Appends true hf hg = hf
  choice-Appends false hf hg = hg

  append_snapshot-Appends : (s : Snapshot) → Appends (render s) (append_snapshot s)
  unfolding append_snapshot render
  append_snapshot-Appends s =
      append_format-Appends (codes "{\"version\":")
      then append_json_string-Appends s.version
      then append_format-Appends (codes ",\"state\":")
      then append_json_string-Appends s.state
      then append_format-Appends
          (codes ",\"autoConnect\":" ++ flag s.auto_connect ++ codes ",\"pairingPin\":")
      then choice-Appends s.has_pairing_pin (append_json_string-Appends s.pairing_pin)
          (append_format-Appends (codes "null"))
      then append_format-Appends (codes ",\"selectedDevice\":")
      then choice-Appends s.has_selected_device (append_address-Appends s.selected_device)
          (append_format-Appends (codes "null"))
      then append_format-Appends (codes ",\"devices\":[")
      then append_devices-Appends true (take (shown_count s) s.devices)
      then append_format-Appends (codes "]}")

-- What a call leaves in a buffer of `c` bytes, and its answer.
pub record IsWritten (c : ℕ) (text : List ℕ) (result : List ℕ × Option ℕ) : Type 0 where
  pub storage : length result.0 ≡ c
  pub answer : result.1 ≡ (if ltb (length text) c then some (length text) else none)
  pub contents :
      (if ltb (length text) c then take (suc (length text)) result.0 else drop (c - 1) result.0)
      ≡ (if ltb (length text) c then text ++ (0 ∷ []) else 0 ∷ [])

take_held : (text rest : List ℕ) → take (suc (length text)) (text ++ (0 ∷ rest)) ≡ text ++ (0 ∷ [])
take_held [] rest = refl
take_held (b ∷ text) rest = ap (λ xs. b ∷ xs) (take_held text rest)

last_set : (xs : List ℕ) (n : ℕ) → length xs ≡ suc n → drop n (set xs n 0) ≡ 0 ∷ []
last_set [] n e = absurd (omega arith)
last_set (x ∷ []) zero e = refl
last_set (x ∷ y ∷ xs) zero e = absurd (omega arith)
last_set (x ∷ xs) (suc n) e = last_set xs n (omega arith)

pub starts-IsWriting :
    (buffer : List ℕ) (c : ℕ)
    → length buffer ≡ c
    → 0 < c
    → IsWriting c [] (record { buffer = set buffer 0 0; capacity = c; length = 0; valid = true })
starts-IsWriting [] c e pos = absurd (omega arith)
starts-IsWriting (b ∷ buffer) c e pos = record {
  capacity_is = refl;
  storage = e;
  outcome =
      inl (record { valid = refl; short = pos; length_is = refl; rest = buffer; buffer_is = refl });
}

-- In a buffer of its capacity, at least one byte, the writer leaves the text of the whole snapshot
-- with a zero byte behind it and answers its length where both fit; else it answers false and
-- leaves a zero byte in the last place. The buffer keeps its size.
pub write_snapshot-IsWritten :
    (s : Snapshot) (buffer : List ℕ) (c : ℕ)
    → length buffer ≡ c
    → 0 < c
    → IsWritten c (render s) (control_json_write_snapshot s buffer c)
unfolding control_json_write_snapshot
write_snapshot-IsWritten s buffer c e pos =
    let w =
      append_snapshot s
        (record { buffer = set buffer 0 0; capacity = c; length = 0; valid = true }) in
    let v : IsWriting c (render s) w =
      append_snapshot-Appends c s [] _ (starts-IsWriting buffer c e pos) in
    if_rule (IsWritten c (render s)) (c == 0) (λ z. absurd (ground arith))
      λ z.
        if_rule (IsWritten c (render s)) w.valid
          (λ valid.
            let f = held c v valid in
            let fits : ltb (length (render s)) c ≡ true = ground (arith, f.short) in
            record {
              storage = v.storage;
              answer = rw fits (ap (λ (n : ℕ). some n) f.length_is);
              contents =
                  rw fits
                    (ap (take (suc (length (render s)))) f.buffer_is ∙ take_held (render s) f.rest);
            })
          (λ lost.
            let full = full_at c v lost in
            let cut : ltb (length (render s)) c ≡ false = ground arith in
            record {
              storage = length-set w.buffer (c - 1) 0 ∙ v.storage;
              answer = rw cut refl;
              contents = rw cut (last_set w.buffer (c - 1) (omega (arith, v.storage)));
            })
