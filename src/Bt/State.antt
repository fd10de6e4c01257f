-- ===== src/Bt/State.antt =====
-- bt/bt_state.c and bt/bt_state.h: the connection states and the transitions between them.
pub mod Graph
use picow_bt_kb_hid.Base.{ℕ, Bool, true, false, ◌||◌, if◌then◌else◌, ◌==◌}
use Prim.Native.String.{String}

-- `bt_state_t`.
pub data State : Type 0 where
  initializing idle inquiry connecting connected service_discovery authenticating : State
  ready disconnected opening_control setting_boot_protocol opening_interrupt : State
  hid_connected : State

-- The value of the enumerator, by which C compares two states.
abbrev pub state_code : State → ℕ
state_code initializing = 0
state_code idle = 1
state_code inquiry = 2
state_code connecting = 3
state_code connected = 4
state_code service_discovery = 5
state_code authenticating = 6
state_code ready = 7
state_code disconnected = 8
state_code opening_control = 9
state_code setting_boot_protocol = 10
state_code opening_interrupt = 11
state_code hid_connected = 12

infix 50 ◌==ₛ◌
abbrev pub ◌==ₛ◌ : State → State → Bool
a ==ₛ b = state_code a == state_code b

-- `bt_state_name`.
unfoldable pub bt_state_name : State → String
bt_state_name initializing = "Initializing"
bt_state_name idle = "Idle"
bt_state_name inquiry = "Inquiry"
bt_state_name connecting = "Connecting"
bt_state_name connected = "Connected"
bt_state_name service_discovery = "ServiceDiscovery"
bt_state_name authenticating = "Authenticating"
bt_state_name ready = "Ready"
bt_state_name disconnected = "Disconnected"
bt_state_name opening_control = "OpeningControl"
bt_state_name setting_boot_protocol = "SettingBootProtocol"
bt_state_name opening_interrupt = "OpeningInterrupt"
bt_state_name hid_connected = "HIDConnected"

-- The `switch (from)` of `bt_state_transition_allowed`.
abbrev pub forward_allowed : State → State → Bool
forward_allowed idle to = to ==ₛ inquiry || to ==ₛ connecting
forward_allowed inquiry to = to ==ₛ connecting
forward_allowed connecting to = to ==ₛ connected
forward_allowed connected to = to ==ₛ authenticating
forward_allowed authenticating to = to ==ₛ service_discovery
forward_allowed service_discovery to = to ==ₛ opening_control
forward_allowed opening_control to = to ==ₛ setting_boot_protocol
forward_allowed setting_boot_protocol to = to ==ₛ opening_interrupt
forward_allowed opening_interrupt to = to ==ₛ hid_connected
forward_allowed disconnected to = to ==ₛ idle
forward_allowed initializing to = false
forward_allowed ready to = false
forward_allowed hid_connected to = false

-- `bt_state_transition_allowed`.
unfoldable pub bt_state_transition_allowed : State → State → Bool
bt_state_transition_allowed from to =
    if from ==ₛ to
    then true
    else if to ==ₛ idle || to ==ₛ disconnected
    then true
    else forward_allowed from to
