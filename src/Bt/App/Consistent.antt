-- ===== src/Bt/App/Consistent.antt =====
-- How the flags, timers and handles of bt/bluetooth.c agree with the state of the connection.
pub mod Link
pub mod Hid
pub mod Events
pub mod Channel
pub mod Handle
pub mod Requests
use picow_bt_kb_hid.Base.{ℕ, ◌≡◌, ◌≢◌, Bool, true, false}
use picow_bt_kb_hid.Bt.State.{
  State, idle, inquiry, connecting, connected, service_discovery, authenticating,
}
use picow_bt_kb_hid.Bt.App.Platform.{Btstack}
use picow_bt_kb_hid.Bt.App.Model.{App}

-- The states in which the retry timer never runs.
abbrev pub is_busy : State → Bool
is_busy inquiry = true
is_busy connecting = true
is_busy connected = true
is_busy authenticating = true
is_busy service_discovery = true
is_busy _ = false

-- The states that only a link reaches.
abbrev pub is_linked : State → Bool
is_linked connected = true
is_linked authenticating = true
is_linked service_discovery = true
is_linked _ = false

-- The values that have to agree, by the fields of the application that hold them.
pub record Agrees (invalid handle : ℕ) (state : State) (shown armed target retry : Bool)
    : Type 0 where
  -- a PIN is shown exactly while its timer runs
  pub pin : shown ≡ armed
  -- a pending connection has an address that it can be cancelled by
  pub pending : state ≡ connecting → target ≡ true
  -- the retry timer does not run during an inquiry or a connection attempt
  pub timer : retry ≡ true → is_busy state ≡ false
  -- a link that is up or being secured has a handle
  pub link : is_linked state ≡ true → handle ≢ invalid

pub record IsConsistent (btstack : Btstack) (a : App) : Type 0 where
  pub agrees :
      Agrees btstack.invalid_handle a.acl_handle a.current_state a.pairing_pin_pending
        a.pairing_pin_timer_armed a.connecting_device_valid a.inquiry_timer_armed
  pub open agrees use *
