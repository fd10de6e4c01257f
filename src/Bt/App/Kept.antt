-- ===== src/Bt/App/Kept.antt =====
-- What the events of bt/bluetooth.c leave alone: the policy for automatic connections, the LED state
-- and its pending report, the commands and requests that wait, and the USB keyboard.
pub mod Link
pub mod Hid
pub mod Events
pub mod Handle
pub mod Forward
pub mod Policy
pub mod Leds
pub mod Requests
use picow_bt_kb_hid.Base.{
  ℕ, ◌≡◌, refl, ◌∙◌, Bool, true, false, List, [], ◌∷◌, ◌⊎◌, inl, inr, ap, set,
}
use picow_bt_kb_hid.Bt.Control.{BdAddr}
use picow_bt_kb_hid.Bt.RequestQueue.{Queue}
use picow_bt_kb_hid.Usb.Keyboard.{
  Report, released, ReportQueue, keyboard_release_all, keyboard_release, keyboard_send_report,
}
use picow_bt_kb_hid.Bt.App.Platform.{Effect, create_connection}
use picow_bt_kb_hid.Bt.App.Model.{App}

-- The addresses that connections were requested to, the last one first.
abbrev pub requested : List Effect → List BdAddr
requested [] = []
requested (create_connection address ∷ l) = address ∷ requested l
requested (_ ∷ l) = requested l

-- The values before and after, by the fields of the application that hold them.
pub record Keeps (auto auto' : Bool) (addresses addresses' : List BdAddr) (leds leds' : ℕ)
    (led_pending led_pending' : Bool) (keys keys' : ReportQueue) (q q' : Queue)
    (line line' : List ℕ) : Type 0 where
  pub policy : auto' ≡ auto
  pub quiet : auto ≡ false → addresses' ≡ addresses
  pub leds_stay : leds' ≡ leds
  pub leds_wait : led_pending ≡ true → led_pending' ≡ true
  pub keys_stay : (keys' ≡ keys) ⊎ (keys' ≡ keyboard_release_all keys)
  pub requests_stay : q' ≡ q
  pub line_stays : line' ≡ line

-- From one state of the application to another.
pub record Kept (a b : App) : Type 0 where
  pub keeps :
      Keeps a.auto_connect_enabled b.auto_connect_enabled
        (requested a.effects)
        (requested b.effects)
        a.hid_channels.led_state
        b.hid_channels.led_state
        a.hid_channels.led_report_pending
        b.hid_channels.led_report_pending
        a.keyboard
        b.keyboard
        a.control_requests
        b.control_requests
        a.command
        b.command
  pub open keeps use *

pub unchanged :
    {auto pending : Bool} {addresses : List BdAddr} {leds : ℕ} {keys : ReportQueue} {q : Queue}
    {line : List ℕ}
    → Keeps auto auto addresses addresses leds leds pending pending keys keys q q line line
unchanged = record {
  policy = refl;
  quiet = λ _. refl;
  leds_stay = refl;
  leds_wait = λ e. e;
  keys_stay = inl refl;
  requests_stay = refl;
  line_stays = refl;
}

-- All keys are released on the way.
pub freed :
    {auto pending : Bool} {addresses : List BdAddr} {leds : ℕ} {keys : ReportQueue} {q : Queue}
    {line : List ℕ}
    → Keeps auto auto addresses addresses leds leds pending pending keys
        (keyboard_release_all keys)
        q
        q
        line
        line
freed = record {
  policy = refl;
  quiet = λ _. refl;
  leds_stay = refl;
  leds_wait = λ e. e;
  keys_stay = inr refl;
  requests_stay = refl;
  line_stays = refl;
}

-- A report of the LEDs is asked for on the way.
pub marked :
    {auto pending : Bool} {addresses : List BdAddr} {leds : ℕ} {keys : ReportQueue} {q : Queue}
    {line : List ℕ}
    → Keeps auto auto addresses addresses leds leds pending true keys keys q q line line
marked = record {
  policy = refl;
  quiet = λ _. refl;
  leds_stay = refl;
  leds_wait = λ _. refl;
  keys_stay = inl refl;
  requests_stay = refl;
  line_stays = refl;
}

pub Kept-refl : (a : App) → Kept a a
Kept-refl a = record { keeps = unchanged }

release-twice :
    (k : ReportQueue) → keyboard_release_all (keyboard_release_all k) ≡ keyboard_release_all k
unfolding keyboard_release_all keyboard_release keyboard_send_report
release-twice k =
    ap (λ (l : List Report). record k { queue = l; head = 0; count = 1 }) (twice k.queue)
  where
    twice : (l : List Report) → set (set l 0 released) 0 released ≡ set l 0 released
    twice [] = refl
    twice (r ∷ l) = refl

pub Kept-trans : {a b c : App} → Kept a b → Kept b c → Kept a c
Kept-trans {a} {b} {c} v w = record {
  keeps = record {
    policy = w.policy ∙ v.policy;
    quiet = λ e. w.quiet (v.policy ∙ e) ∙ v.quiet e;
    leds_stay = w.leds_stay ∙ v.leds_stay;
    leds_wait = λ e. w.leds_wait (v.leds_wait e);
    keys_stay = joined a.keyboard b.keyboard c.keyboard v.keys_stay w.keys_stay;
    requests_stay = w.requests_stay ∙ v.requests_stay;
    line_stays = w.line_stays ∙ v.line_stays;
  };
}
  where
    joined :
        (x y z : ReportQueue)
        → (y ≡ x) ⊎ (y ≡ keyboard_release_all x)
        → (z ≡ y) ⊎ (z ≡ keyboard_release_all y)
        → (z ≡ x) ⊎ (z ≡ keyboard_release_all x)
    joined x y z (inl e) (inl f) = inl (f ∙ e)
    joined x y z (inl e) (inr f) = inr (f ∙ ap keyboard_release_all e)
    joined x y z (inr e) (inl f) = inr (f ∙ e)
    joined x y z (inr e) (inr f) = inr (f ∙ ap keyboard_release_all e ∙ release-twice x)
