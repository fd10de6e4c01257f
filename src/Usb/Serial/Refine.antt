-- ===== src/Usb/Serial/Refine.antt =====
-- The log ring of usb/usb_serial.c as the list of the bytes that the CDC port has yet to take.
use picow_bt_kb_hid.Base.{
  ℕ, zero, suc, ◌+◌, ◌-◌, ◌%◌, ◌^◌, ◌≤◌, ◌<◌, ◌≡◌, refl, sym, ap, ap₂, ◌∙◌, Bool, true, false, ◌&&◌,
  ◌||◌, not, List, [], ◌∷◌, ◌++◌, replicate, Option, none, some, if◌then◌else◌, if_rule, ◌==◌, ltb,
  leb, length, length-set, length-take, set, arith,
}
use mathlib.Core.List.{append_assoc, append-nil}
use picow_bt_kb_hid.Base.Window.{window, length-window, window_back}
use picow_bt_kb_hid.Usb.Serial.{
  Log, log_size, message_size, empty_log, append_bytes, message_of, usb_serial_printf,
}

pub record IsValid (l : Log) : Type 0 where
  pub storage : length l.buffer ≡ log_size
  pub head_in : l.head < log_size
  pub count_in : l.count ≤ log_size

-- The bytes that the port has yet to take, oldest first.
abbrev pub pending : Log → List ℕ
pending l = window 0 log_size l.buffer l.head l.count

-- The storage of the log as it is at power-on.
length-zeros : (n : ℕ) → length (replicate {A = ℕ} n 0) ≡ n
length-zeros zero = refl
length-zeros (suc n) = ap suc (length-zeros n)

pub empty_log-IsValid : IsValid empty_log
unfolding empty_log
empty_log-IsValid = record {
  storage = length-zeros log_size;
  head_in = omega arith;
  count_in = omega arith;
}

-- What appending keeps and adds.
pub record IsAppended (bs : List ℕ) (l l' : Log) : Type 0 where
  pub valid : IsValid l'
  pub bytes : pending l' ≡ pending l ++ bs
  pub count_is : l'.count ≡ l.count + length bs
  pub flag : l'.overflowed ≡ l.overflowed

abbrev pushed : ℕ → Log → Log
pushed b l = record l {
  buffer = set l.buffer ((l.head + l.count) % log_size) b;
  count = l.count + 1;
}

pushed-IsAppended :
    (b : ℕ) (l : Log) → IsValid l → l.count < log_size → IsAppended (b ∷ []) l (pushed b l)
pushed-IsAppended b l v room = record {
  valid = record {
    storage = length-set l.buffer ((l.head + l.count) % log_size) b ∙ v.storage;
    head_in = v.head_in;
    count_in = omega arith;
  };
  bytes =
      window_back 0 log_size l.buffer l.head l.count b (omega (arith, v.storage)) v.head_in room;
  count_is = refl;
  flag = refl;
}

append_bytes_step :
    (b : ℕ) (bs : List ℕ) (l : Log)
    → l.count < log_size
    → append_bytes (b ∷ bs) l ≡ append_bytes bs (pushed b l)
unfolding append_bytes
append_bytes_step b bs l room =
    ap₂ (λ i n. append_bytes bs (record l { buffer = set l.buffer i b; count = n })) (omega arith)
      (omega arith)

pub append_bytes-IsAppended :
    (bs : List ℕ) (l : Log)
    → IsValid l
    → l.count + length bs ≤ log_size
    → IsAppended bs l (append_bytes bs l)
unfolding append_bytes
append_bytes-IsAppended [] l v room = record {
  valid = v;
  bytes = sym (append-nil (pending l));
  count_is = omega arith;
  flag = refl;
}
append_bytes-IsAppended (b ∷ bs) l v room =
    let room' : l.count < log_size = omega arith in
    let one = pushed-IsAppended b l v room' in
    let more = append_bytes-IsAppended bs (pushed b l) one.valid (omega arith) in
    rw (append_bytes_step b bs l room') (record {
      valid = more.valid;
      bytes = more.bytes ∙ ap (λ xs. xs ++ bs) one.bytes ∙ append_assoc (pending l) (b ∷ []) bs;
      count_is = omega (arith, more.count_is);
      flag = more.flag;
    })

-- What is added to the bytes that wait when a text is printed: the message or nothing.
abbrev pub accepted : Bool → Option (List ℕ) → Log → List ℕ
accepted connected none l = []
accepted connected (some text) l =
    if connected && leb (length (pending l) + length (message_of text)) log_size
    then message_of text
    else []

-- Whether a message is lost.
abbrev pub lost : Bool → Option (List ℕ) → Log → Bool
lost connected none l = false
lost connected (some text) l =
    connected && not (leb (length (pending l) + length (message_of text)) log_size)

-- The number of bytes of a message.
abbrev message_length : List ℕ → ℕ
message_length text = if leb message_size (length text) then message_size - 1 else length text

length-message_of : (text : List ℕ) → length (message_of text) ≡ message_length text
length-message_of text = length-take _ text (ground arith)

room_lem :
    (text : List ℕ) (l : Log)
    → length (pending l) + length (message_of text) ≡ l.count + message_length text
room_lem text l =
    ap₂ ◌+◌ (length-window 0 log_size l.buffer l.head l.count) (length-message_of text)

accepted_empty : (text : List ℕ) → (length text == 0) ≡ true → message_of text ≡ []
accepted_empty [] e = refl
accepted_empty (b ∷ text) e = absurd (ground arith)

pub record IsPrinted (connected : Bool) (text : Option (List ℕ)) (l l' : Log) : Type 0 where
  pub valid : IsValid l'
  pub bytes : pending l' ≡ pending l ++ accepted connected text l
  pub flag : l'.overflowed ≡ (l.overflowed || lost connected text l)

unchanged :
    (connected : Bool) (text : Option (List ℕ)) (l : Log)
    → IsValid l
    → accepted connected text l ≡ []
    → lost connected text l ≡ false
    → IsPrinted connected text l l
unchanged connected text l v nothing kept = record {
  valid = v;
  bytes = rw (nothing, append-nil) refl;
  flag = ground arith;
}

-- Printing to a valid ring appends the first 127 bytes of the text, or nothing: nothing where the
-- port is not connected, the text cannot be formatted, or these bytes do not fit into what is left
-- of the 8192. It sets the overflow flag exactly where the port is connected and the bytes of a
-- formatted text do not fit, and it never clears it. The ring stays valid.
pub printf_refines :
    (connected : Bool) (text : Option (List ℕ)) (l : Log)
    → IsValid l
    → IsPrinted connected text l (usb_serial_printf connected text l)
unfolding usb_serial_printf
printf_refines false none l v = unchanged false none l v refl refl
printf_refines false (some text) l v = unchanged false (some text) l v refl refl
printf_refines true none l v = unchanged true none l v refl refl
printf_refines true (some text) l v =
    let size = room_lem text l in
    if_rule (IsPrinted true (some text) l) (length text == 0)
      (λ e.
        let fits : leb (length (pending l) + length (message_of text)) log_size ≡ true =
          rw size (ground arith) in
        unchanged true (some text) l v (rw fits (accepted_empty text e)) (rw fits refl))
      (λ e.
        if_rule (IsPrinted true (some text) l)
          (ltb (log_size - l.count) (message_length text % 2 ^ 16))
          (λ full.
            let full' : leb (length (pending l) + length (message_of text)) log_size ≡ false =
              rw size (ground arith) in
            record {
              valid = record { storage = v.storage; head_in = v.head_in; count_in = v.count_in };
              bytes = rw (full', append-nil) refl;
              flag = rw full' (ground arith);
            })
          (λ room.
            let fits : leb (length (pending l) + length (message_of text)) log_size ≡ true =
              rw size (ground arith) in
            let space : l.count + length (message_of text) ≤ log_size =
              rw (length-message_of text) (ground arith) in
            let added = append_bytes-IsAppended (message_of text) l v space in
            record {
              valid = added.valid;
              bytes = rw fits added.bytes;
              flag = rw fits (added.flag ∙ ground arith);
            }))
