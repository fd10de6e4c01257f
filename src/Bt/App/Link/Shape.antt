-- ===== src/Bt/App/Link/Shape.antt =====
-- What the helpers of bt/bluetooth.c change: each is the state before it with the named fields given
-- anew, and the calls it made.
use picow_bt_kb_hid.Base.{
  ◌≡◌, refl, ap, ◌∙◌, Bool, true, false, not, ◌&&◌, ◌||◌, if◌then◌else◌, Bool-cases, inl, inr,
  arith, if_rule, option_rule, ◌∷◌,
}
use picow_bt_kb_hid.Bt.Control.{BdAddr}
use picow_bt_kb_hid.Bt.State.{State, authenticating, ◌==ₛ◌, bt_state_transition_allowed}
use picow_bt_kb_hid.Bt.App.Platform.{Answers, add_inquiry_timer}
use picow_bt_kb_hid.Bt.App.Model.{App}
use picow_bt_kb_hid.Bt.App.Link.{
  clear_pairing_pin, enter_state, transition_to_state, disarm_inquiry_timer, start_idle_timer,
  restore_saved, insert_saved, saved_missing,
}

pub state_eq : (s t : State) → (s ==ₛ t) ≡ true → s ≡ t
state_eq s t h = ground arith

pub clear_pairing_pin_shape :
    (a : App)
    → clear_pairing_pin a ≡ record a {
      pairing_pin_pending = false;
      pairing_pin_timer_armed = false;
      effects = (clear_pairing_pin a).effects;
    }
unfolding clear_pairing_pin
clear_pairing_pin_shape a = elim (Bool-cases a.pairing_pin_timer_armed) [
  | inl e ↦ rw e refl
  | inr e ↦ rw e refl
]

pub enter_state_shape :
    (s : State) (a : App)
    → enter_state s a ≡ record a { current_state = s; effects = (enter_state s a).effects }
unfolding enter_state
enter_state_shape s a = elim (Bool-cases (a.current_state ==ₛ s)) [
  | inl e ↦ rw e (ap (λ t. record a { current_state = t }) (state_eq a.current_state s e))
  | inr e ↦ rw e (elim (Bool-cases (bt_state_transition_allowed a.current_state s)) [
    | inl ok ↦ rw ok refl
    | inr warn ↦ rw warn refl
  ])
]

-- A PIN stays on display only on the way to authentication.
abbrev pub keep_pin : State → Bool → Bool
keep_pin s shown = if s ==ₛ authenticating then shown else false

pub transition_shape :
    (s : State) (a : App)
    → transition_to_state s a ≡ record a {
      current_state = s;
      pairing_pin_pending = keep_pin s a.pairing_pin_pending;
      pairing_pin_timer_armed = keep_pin s a.pairing_pin_timer_armed;
      effects = (transition_to_state s a).effects;
    }
unfolding transition_to_state
transition_shape s a = elim (Bool-cases (s ==ₛ authenticating)) [
  | inl e ↦ rw e (enter_state_shape s a)
  | inr e ↦ rw e (
      enter_state_shape s (clear_pairing_pin a)
      ∙ ap
          (λ (b : App). record b {
            current_state = s;
            effects = (enter_state s (clear_pairing_pin a)).effects;
          })
          (clear_pairing_pin_shape a))
]

pub disarm_shape :
    (a : App)
    → disarm_inquiry_timer a
      ≡ record a { inquiry_timer_armed = false; effects = (disarm_inquiry_timer a).effects }
unfolding disarm_inquiry_timer
disarm_shape a = elim (Bool-cases a.inquiry_timer_armed) [ inl e ↦ rw e refl | inr e ↦ rw e refl ]

-- Whether the retry timer runs after `start_idle_timer`.
abbrev pub retry_timer : App → Bool
retry_timer a = a.inquiry_timer_armed || (a.auto_connect_enabled && a.selected_device_valid)

-- The retry timer runs afterwards if it ran before, or if there is a keyboard to retry.
pub start_idle_timer_shape :
    (a : App)
    → start_idle_timer a
      ≡ record a { inquiry_timer_armed = retry_timer a; effects = (start_idle_timer a).effects }
unfolding start_idle_timer
start_idle_timer_shape a =
    if_rule Shape (not a.auto_connect_enabled || not a.selected_device_valid)
      (λ e.
        ap (λ b. record a { inquiry_timer_armed = b })
          (off a.inquiry_timer_armed a.auto_connect_enabled a.selected_device_valid e))
      λ e.
        if_rule Shape a.inquiry_timer_armed
          (λ t.
            ap (λ b. record a { inquiry_timer_armed = b })
              (on a.inquiry_timer_armed a.auto_connect_enabled a.selected_device_valid t))
          (λ f.
            ap (λ b. record a { inquiry_timer_armed = b; effects = add_inquiry_timer ∷ a.effects })
              (set a.inquiry_timer_armed a.auto_connect_enabled a.selected_device_valid e))
  where
    Shape : App → Type 0
    Shape b = b ≡ record a { inquiry_timer_armed = retry_timer a; effects = b.effects }

    off : (t x y : Bool) → (not x || not y) ≡ true → t ≡ (t || (x && y))
    off t x y e = ground arith

    on : (t x y : Bool) → t ≡ true → t ≡ (t || (x && y))
    on t x y e = ground arith

    set : (t x y : Bool) → (not x || not y) ≡ false → true ≡ (t || (x && y))
    set t x y e = ground arith

-- Only the list of devices differs.
record OnlyDevices (a b : App) : Type 0 where
  same : b ≡ record a { devices = b.devices }

restore_saved-OnlyDevices :
    (answers : Answers) (address : BdAddr) (a : App)
    → OnlyDevices a (restore_saved answers address a)
unfolding restore_saved
restore_saved-OnlyDevices answers address a =
    if_rule (OnlyDevices a) (saved_missing address a)
      (λ _.
        option_rule (OnlyDevices a) (insert_saved address a.devices).1 (λ _. record { same = refl })
          (λ _ _. record { same = refl }))
      (λ _. record { same = refl })

pub restore_saved_shape :
    (answers : Answers) (address : BdAddr) (a : App)
    → restore_saved answers address a
      ≡ record a { devices = (restore_saved answers address a).devices }
restore_saved_shape answers address a = (restore_saved-OnlyDevices answers address a).same
