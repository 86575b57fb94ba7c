-- ===== src/Examples/NodeCases.antt =====
-- A node on its bus, and the display's warnings, at concrete values.
use powersuit.Base.{◌≡◌, refl, arith, true, false, some, List, [], ◌∷◌, length, All}
use powersuit.CanId.{CanFrame}
use powersuit.Wire.{standby}
use powersuit.Safety.{Call}
use powersuit.Safety.Latch.{IsLatched}
use powersuit.Safety.Gate.{Ready}
use powersuit.SafetyNode.{
  Node, safety_rx, tick_cb, can_state_cb, can_actuate, note_cmd, note_mode_set, raise_estop,
}
use powersuit.SafetyNode.Stop.{NodeIsValid, Stops, raise_estop-Stops}
use powersuit.SafetyNode.Gate.{can_actuate_opens}
use powersuit.Hud.{Hud, row}

abbrev arm : Node
arm = record {
  core = record {
    state = standby;
    estop_cause = 0;
    last_hb_seq = 7;
    last_hb_ms = 1000;
    hb_streak_start_ms = 0;
    last_cmd_ms = 990;
    clear_counter = 3;
    estop_since_ms = 0;
    have_hb = true;
    want_operational = true;
    on_transition = true;
  };
  node_id = 1;
  safety_low = 255;
  estop_seq = 65535;
  started = true;
}

arm-NodeIsValid : NodeIsValid arm
arm-NodeIsValid = record {
  node_id = omega arith;
  safety_low = omega arith;
  estop_seq = omega arith;
}

raise_estop-Stops_example :
    (n' : Node) × (frames : List CanFrame) × (calls : List Call) × (raise_estop arm 5000 5001 4 true
      ≡ some (n', frames, calls, true))
    × IsLatched n'.core
    × (can_actuate n' ≡ false)
    × (length frames ≡ 3)
    × All (Stops 4) frames
raise_estop-Stops_example =
    raise_estop-Stops arm 5000 5001 4 true arm-NodeIsValid refl (omega arith) (omega arith)
      (omega arith)

abbrev a_frame : CanFrame
a_frame = record { id = 0x00200100; dlc = 8; payload = 9 ∷ 0 ∷ 0 ∷ 2 ∷ 0 ∷ 0 ∷ 0 ∷ 0 ∷ [] }

arm_closed : can_actuate arm ≡ false
unfolding can_actuate
arm_closed = refl

can_actuate_opens_example :
    (can_actuate (safety_rx arm 1010 a_frame).0 ≡ false)
    × (can_actuate (can_state_cb arm 1010 2).0 ≡ false)
    × (can_actuate (note_cmd arm 1010) ≡ false)
    × (can_actuate (note_mode_set arm 1010 2).0 ≡ false)
    × (can_actuate (tick_cb arm 1010).0 ≡ true → (true ≡ true) × Ready arm.core 1010)
can_actuate_opens_example = can_actuate_opens arm 1010 a_frame 2 2 arm_closed

-- A list of warnings that is full.
abbrev full : Hud
full = record {
  safety_state = 2;
  battery_pct = 80;
  battery_valid = true;
  cloud_up = false;
  warnings = row (65 ∷ []) ∷ row (66 ∷ []) ∷ row [] ∷ row [] ∷ row [] ∷ row [] ∷ [];
  warning_count = 6;
}
