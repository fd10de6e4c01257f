-- ===== src/Bt/Control.antt =====
-- include/bluetooth_control.h: the requests that CDC and HTTP submit.
use picow_bt_kb_hid.Base.{ℕ, List}

-- `bd_addr_t`, a `uint8_t[6]`.
abbrev pub BdAddr : Type 0
BdAddr = List ℕ

-- `bluetooth_control_action_t`.
pub data Action : Type 0 where
  help status scan connect disconnect reconnect forget : Action

-- `bluetooth_control_request_t`.
pub record Request : Type 0 where
  pub action : Action
  pub address : BdAddr
