-- ===== src/Bt/State/Graph.antt =====
-- Runs through the graph of the allowed transitions of bt/bt_state.c.
use picow_bt_kb_hid.Base.{ℕ, ◌≡◌, ◌≢◌, ◌≤◌, ◌<◌, ◌+◌, arith, true}
use picow_bt_kb_hid.Bt.State.{
  State, initializing, idle, inquiry, connecting, connected, service_discovery, authenticating,
  ready, disconnected, opening_control, setting_boot_protocol, opening_interrupt, hid_connected,
  bt_state_transition_allowed,
}

-- How many stages of a connection attempt a state lies behind; 0 where none is under way.
abbrev pub stage : State → ℕ
stage initializing = 0
stage idle = 0
stage inquiry = 0
stage ready = 0
stage disconnected = 0
stage connecting = 1
stage connected = 2
stage authenticating = 3
stage service_discovery = 4
stage opening_control = 5
stage setting_boot_protocol = 6
stage opening_interrupt = 7
stage hid_connected = 8

-- A state that allowed transitions reach from `from` without passing `skipped`.
pub data ReachWithout (skipped from : State) : State → Type 0 where
  start : ReachWithout skipped from from
  step :
      {at : State} (next : State)
      → ReachWithout skipped from at
      → bt_state_transition_allowed at next ≡ true
      → next ≢ skipped
      → ReachWithout skipped from next

-- An allowed transition goes at most one stage forward.
stage-le-suc : (a b : State) → bt_state_transition_allowed a b ≡ true → stage b ≤ stage a + 1
unfolding bt_state_transition_allowed
stage-le-suc a b h = ground arith

-- The stages of an attempt are different states.
stage-injective : (a b : State) → 0 < stage a → stage b ≡ stage a → b ≡ a
stage-injective a b p e = ground arith

-- From a state before every stage, allowed transitions that skip one stage of a connection attempt
-- reach no state at or behind that stage: no such run is authenticated by skipping authentication,
-- or HID-connected by skipping any stage.
pub ReachWithout-stage-lt :
    (skipped from : State) {s : State}
    → 0 < stage skipped
    → stage from ≡ 0
    → ReachWithout skipped from s
    → stage s < stage skipped
ReachWithout-stage-lt skipped from p e start = omega arith
ReachWithout-stage-lt skipped from p e (step {at} next r h ne) =
    omega (arith, ReachWithout-stage-lt skipped from p e r, stage-le-suc at next h, other)
  where
    other : stage next ≢ stage skipped
    other q = ne (stage-injective skipped next p q)
