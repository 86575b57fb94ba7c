-- ===== src/Wire.antt =====
-- common/c/include/powersuit_proto/wire.h: the contract constants and the payload structs.
pub mod SafetyPayloads
pub mod ControlPayloads
pub mod TelemPayloads
pub mod LinkPayloads
use powersuit.Base.{ℕ}

-- Contract constants, in milliseconds but the last two.
abbrev pub heartbeat_timeout_ms : ℕ
heartbeat_timeout_ms = 50

abbrev pub rearm_window_ms : ℕ
rearm_window_ms = 250

abbrev pub cmd_stale_ms : ℕ
cmd_stale_ms = 200

abbrev pub estop_rearm_ms : ℕ
estop_rearm_ms = 1000

abbrev pub estop_repeat : ℕ
estop_repeat = 3

abbrev pub clear_estop_magic : ℕ
clear_estop_magic = 0x52A4C13A

-- Causes of an emergency stop.
abbrev pub estop_bms_short : ℕ
estop_bms_short = 1

abbrev pub estop_bms_overvolt : ℕ
estop_bms_overvolt = 2

abbrev pub estop_bms_undervolt : ℕ
estop_bms_undervolt = 3

abbrev pub estop_operator : ℕ
estop_operator = 4

abbrev pub estop_thermal : ℕ
estop_thermal = 5

abbrev pub estop_comm_loss : ℕ
estop_comm_loss = 6

abbrev pub estop_software : ℕ
estop_software = 7

-- Node safety states. The codes of `wire.h` are those of `code`.
pub data State : Type 0 where
  boot standby operational passive estop fault : State

abbrev pub code : State → ℕ
code boot = 0
code standby = 1
code operational = 2
code passive = 3
code estop = 4
code fault = 5

-- `ps_heartbeat_t`
pub record Heartbeat : Type 0 where
  pub seq : ℕ
  pub flags : ℕ
  pub src_state : ℕ
  pub uptime_ms : ℕ
