-- ===== src/Usb/Demo/Typing.antt =====
-- usb/keyboard_demo.c: what any number of calls of `keyboard_demo_task` types.
use picow_bt_kb_hid.Base.{
  ℕ, zero, suc, ◌+◌, ◌%◌, ◌^◌, ◌≤◌, ◌<◌, ◌≡◌, refl, sym, ap, ◌∙◌, Bool, true, false, not, ◌||◌,
  List, [], ◌∷◌, if◌then◌else◌, if_rule, ◌==◌, take, length, get_or, arith,
}
use picow_bt_kb_hid.Usb.Keyboard.{ReportQueue, keyboard_type}
use picow_bt_kb_hid.Usb.Demo.{
  Key, Tinyusb, demo_keys, Demo, power_on, is_before, keyboard_demo_task,
}

-- What a session of calls types: each call with its answers and times.
pub record Call : Type 0 where
  pub tud_mounted : Bool
  pub tud_hid_ready : Bool
  pub first : ℕ
  pub now : ℕ
  pub after : ℕ

abbrev pub calls : Tinyusb → List Call → Demo × ReportQueue → Demo × ReportQueue
calls t [] state = state
calls t (c ∷ rest) (demo, queue) =
    calls t rest
      (keyboard_demo_task t c.tud_mounted c.tud_hid_ready c.first c.now c.after demo queue)

-- The queue after a list of keys is typed.
abbrev pub type_all : List Key → ReportQueue → ReportQueue
type_all [] queue = queue
type_all ((modifier, keycode) ∷ keys) queue = type_all keys (keyboard_type queue modifier keycode)

pub record IsTyping (t : Tinyusb) (queue : ReportQueue) (state : Demo × ReportQueue) : Type 0 where
  pub in_table : state.0.key_index ≤ 8
  pub ended : state.0.completed ≡ (state.0.key_index == 8)
  pub typed : state.1 ≡ type_all (take state.0.key_index (demo_keys t)) queue

type_all_next :
    (keys : List Key) (k : ℕ) (queue : ReportQueue)
    → k < length keys
    → type_all (take (suc k) keys) queue ≡ (
        let (modifier, keycode) = get_or keys k (0, 0) in
        keyboard_type (type_all (take k keys) queue) modifier keycode)
type_all_next [] k queue h = absurd (omega arith)
type_all_next (key ∷ keys) zero queue h = refl
type_all_next ((modifier, keycode) ∷ keys) (suc k) queue h =
    type_all_next keys k (keyboard_type queue modifier keycode) (omega arith)

module _ (t : Tinyusb) (queue : ReportQueue) where
  -- The next key of the table is typed.
  next-IsTyping :
      (demo : Demo) (now : ReportQueue) (at : ℕ)
      → IsTyping t queue (demo, now)
      → demo.completed ≡ false
      → let (modifier, keycode) = get_or (demo_keys t) demo.key_index (0, 0) in
        IsTyping t queue (
          record demo {
            key_index = (demo.key_index + 1) % 2 ^ 32;
            completed = (demo.key_index + 1) % 2 ^ 32 == length (demo_keys t);
            next_key_ms = at;
          },
          keyboard_type now modifier keycode,
        )
  next-IsTyping demo now at v e =
      let left : demo.key_index < 8 = ground (arith, v.in_table, v.ended) in
      let next : (demo.key_index + 1) % 2 ^ 32 ≡ suc demo.key_index = omega arith in
      record {
        in_table = omega arith;
        ended = refl;
        typed =
            ap
              (λ q.
                keyboard_type q (get_or (demo_keys t) demo.key_index (0, 0)).0
                  (get_or (demo_keys t) demo.key_index (0, 0)).1)
              v.typed
            ∙ sym (type_all_next (demo_keys t) demo.key_index queue left)
            ∙ ap (λ n. type_all (take n (demo_keys t)) queue) (sym next);
      }

  -- The part of the task behind the first call.
  abbrev types : Bool → ℕ → ℕ → ReportQueue → Demo → Demo × ReportQueue
  types ready now after q demo =
      if is_before now demo.next_key_ms || not ready
      then (demo, q)
      else let (modifier, keycode) = get_or (demo_keys t) demo.key_index (0, 0) in
        (
          record demo {
            key_index = (demo.key_index + 1) % 2 ^ 32;
            completed = (demo.key_index + 1) % 2 ^ 32 == length (demo_keys t);
            next_key_ms = (after + 50) % 2 ^ 32;
          },
          keyboard_type q modifier keycode,
        )

  types-IsTyping :
      (ready : Bool) (now after : ℕ) (q : ReportQueue) (demo : Demo)
      → IsTyping t queue (demo, q)
      → demo.completed ≡ false
      → IsTyping t queue (types ready now after q demo)
  types-IsTyping ready now after q demo v e =
      if_rule (IsTyping t queue) (is_before now demo.next_key_ms || not ready) (λ _. v)
        (λ _. next-IsTyping demo q ((after + 50) % 2 ^ 32) v e)

  call-IsTyping :
      (mounted ready : Bool) (first now after : ℕ) (demo : Demo) (q : ReportQueue)
      → IsTyping t queue (demo, q)
      → IsTyping t queue (keyboard_demo_task t mounted ready first now after demo q)
  unfolding keyboard_demo_task
  call-IsTyping mounted ready first now after demo q v =
      if_rule (IsTyping t queue) (demo.completed || not mounted) (λ e. v)
        λ e.
          if_rule (λ (d : Demo). IsTyping t queue (types ready now after q d)) demo.mounted
            (λ _. types-IsTyping ready now after q demo v (ground arith))
            (λ _.
              types-IsTyping ready now after q
                (record demo { mounted = true; next_key_ms = (first + 5000) % 2 ^ 32 })
                (record { in_table = v.in_table; ended = v.ended; typed = v.typed }) (ground arith))

  calls-IsTyping :
      (session : List Call) (state : Demo × ReportQueue)
      → IsTyping t queue state
      → IsTyping t queue (calls t session state)
  calls-IsTyping [] state v = v
  calls-IsTyping (c ∷ rest) (demo, q) v =
      calls-IsTyping rest _
        (call-IsTyping c.tud_mounted c.tud_hid_ready c.first c.now c.after demo q v)

  -- From power-on, with any answers and times, any number of calls has typed the first keys of the
  -- table, each once and in order, up to the index that the demo keeps, which is at most eight; the
  -- demo is completed exactly at index eight.
  pub demo_types : (session : List Call) → IsTyping t queue (calls t session (power_on, queue))
  unfolding power_on
  demo_types session =
      calls-IsTyping session (power_on, queue)
        (record { in_table = omega arith; ended = refl; typed = refl })
