-- ===== src/Examples/LimbCases.antt =====
-- An arm that trips, and what brings it back.
use powersuit.Base.{
  ℕ, ◌≡◌, ◌≢◌, refl, sym, subst, ◌∙◌, get_or, arith, true, false, List, [], ◌∷◌, replicate, suc,
  zero,
}
use powersuit.Base.Int.{pos}
use powersuit.CanId.{CanFrame, id_type}
use powersuit.Wire.{operational, passive}
use powersuit.Bytes.{rd_u16}
use powersuit.Wire.ControlPayloads.{read_joint_cmd, read_mode_set}
use powersuit.Wire.SafetyPayloads.{read_heartbeat}
use powersuit.Safety.{tick, elapsed, on_heartbeat, on_mode_set, on_cmd}
use powersuit.SafetyNode.Tells.{IsTrip}
use powersuit.SafetyNode.{tick_cb, safety_rx, note_cmd, note_mode_set, can_actuate}
use powersuit.Limb.{
  Limb, Input, cfg_of, arm_joints, at_rest, setpoint_of, on_transition, handle_joint_cmd, run,
  drive, set_duty, control_frame, safety_frame, timer, bus_state, current, torque_limit,
}
use powersuit.Limb
use powersuit.Limb.Range.{boards, IsSafe, Fits, Within, run-IsSafe}
use powersuit.Limb.Drive.{IsOrdered, drive_needs}

abbrev pub arm : Limb
arm = record {
  board = arm_joints;
  node = record {
    core = record {
      state = operational;
      estop_cause = 0;
      last_hb_seq = 7;
      last_hb_ms = 1000;
      hb_streak_start_ms = 0;
      last_cmd_ms = 990;
      clear_counter = 3;
      estop_since_ms = 0;
      have_hb = true;
      want_operational = true;
      on_transition = true;
    };
    node_id = 1;
    safety_low = 0;
    estop_seq = 0;
    started = true;
  };
  setpoints =
      record { mode = 4; pos_crad = pos 90; vel_crad_s = pos 0; eff_cnm = pos 0 } ∷ at_rest ∷ [];
  torque_limit_cnm = pos 4000 ∷ pos 1500 ∷ [];
  oc_ticks = 0 ∷ 0 ∷ [];
  seq = replicate 256 0;
  joint_cmd_rx = 1;
  mode_set_rx = 1;
  cmd_rejected = 0;
  overcurrent_trips = 0;
}

-- A MODE_SET frame, a HEARTBEAT and a JOINT_CMD for the first joint.
abbrev pub mode_frame : ℕ → CanFrame
mode_frame m = record { id = 0x1200; dlc = 8; payload = m ∷ 0 ∷ 0 ∷ 0 ∷ 0 ∷ 0 ∷ 0 ∷ 0 ∷ [] }

abbrev pub beat : CanFrame
beat = record { id = 0x0100; dlc = 8; payload = 9 ∷ 0 ∷ 0 ∷ 0 ∷ 0 ∷ 0 ∷ 0 ∷ 0 ∷ [] }

abbrev command : CanFrame
command = record { id = 0x1000; dlc = 8; payload = 0 ∷ 2 ∷ 100 ∷ 0 ∷ 0 ∷ 0 ∷ 0 ∷ 0 ∷ [] }

abbrev back : List (ℕ × Input)
back =
    (1070, control_frame (mode_frame 1))
    ∷ (1080, control_frame (mode_frame 2))
    ∷ (1085, safety_frame beat)
    ∷ (1090, timer)
    ∷ (1095, control_frame command)
    ∷ []

abbrev tripped : Limb
tripped = (Limb.step arm 1060 timer).0

tripped_passive : tripped.node.core.state ≡ passive
unfolding Limb.step tick_cb tick elapsed
tripped_passive = refl

driven : drive (run tripped back) 0 (setpoint_of (run tripped back) 0) false ≡ set_duty 0
unfolding run Limb.step drive id_type read_joint_cmd tick_cb tick safety_rx on_heartbeat
    note_mode_set note_cmd elapsed on_mode_set read_mode_set on_cmd read_heartbeat rd_u16
    can_actuate
driven = refl

not_passive : operational ≢ passive
not_passive e = cc

drive_needs_example : ((run tripped back).node.core.state ≡ operational) × IsOrdered 0 back
drive_needs_example =
    drive_needs arm 1060 timer back 0 false refl (λ e. not_passive (e ∙ tripped_passive))
      (subst IsTrip (sym tripped_passive) tt) driven

arm-Fits : (j : ℕ) → Fits (cfg_of arm_joints j) (setpoint_of arm j)
arm-Fits zero = omega arith
arm-Fits (suc zero) = omega arith
arm-Fits (suc (suc j)) = omega arith

arm-Within : (j : ℕ) → Within (cfg_of arm_joints j) (get_or arm.torque_limit_cnm j (pos 0))
arm-Within zero = omega arith
arm-Within (suc zero) = omega arith
arm-Within (suc (suc j)) = omega arith

run-IsSafe_example : IsSafe arm_joints (run arm back)
run-IsSafe_example =
    run-IsSafe arm_joints boards.0 arm back
      (record { table = refl; joints = refl; fits = arm-Fits; limits = arm-Within })
