-- ===== src/Limb.antt =====
-- firmware/apps/node_limb/main: the commands, the setpoints and the single write path of an arm or a leg, in comms_task.c,
-- control_task.c, safety_glue.c and board_limb.h. The floating-point loops, the encoders and the converters are
-- not modelled: what they decide, that the current is over its limit and that the shaft turns fast, is an argument.
pub mod Range
pub mod Trips
pub mod Drive
use powersuit.Base.{
  ℕ, zero, suc, ◌+◌, ◌-◌, Bool, true, false, not, ◌&&◌, ◌||◌, Option, none, some, List, [], ◌∷◌,
  ◌++◌, map, take, replicate, set, get_or, ltb, leb, ◌==◌, if◌then◌else◌, u8, u32, min,
}
use powersuit.Base.Int.{ℤ, pos, negsuc, ltb_ℤ}
use powersuit.CanId.{CanFrame, id_type, t_mode_set, pack, node_orch}
use powersuit.Wire.{State, boot, standby, operational, passive, estop, fault, code, estop_software}
use powersuit.Wire.ControlPayloads.{JointCmd, read_joint_cmd, read_mode_set}
use powersuit.Safety.{Call}
use powersuit.SafetyNode.{
  Node, can_actuate, safety_rx, tick_cb, can_state_cb, note_cmd, note_mode_set, raise_estop,
}

-- `PS_T_JOINT_CMD`, `PS_LIMB_JOINT_COUNT`, `PS_JMODE_PASSIVE` and `PS_JMODE_IMPEDANCE`, `OVERCURRENT_TRIP_TICKS`
abbrev pub t_joint_cmd : ℕ
t_joint_cmd = 0x10

abbrev pub joint_count : ℕ
joint_count = 2

abbrev pub jmode_passive : ℕ
jmode_passive = 0

abbrev pub jmode_impedance : ℕ
jmode_impedance = 4

abbrev pub overcurrent_trip_ticks : ℕ
overcurrent_trip_ticks = 5

-- The limits of `ps_limb_joint_cfg_t`.
pub record JointCfg : Type 0 where
  pub pos_min_crad : ℤ
  pub pos_max_crad : ℤ
  pub torque_limit_cnm : ℤ

-- `PS_LIMB_JOINTS` of the arms and of the legs.
abbrev pub arm_joints : List JointCfg
arm_joints =
    record { pos_min_crad = negsuc 9; pos_max_crad = pos 260; torque_limit_cnm = pos 4000 }
    ∷ record { pos_min_crad = negsuc 156; pos_max_crad = pos 157; torque_limit_cnm = pos 1500 }
    ∷ []

abbrev pub leg_joints : List JointCfg
leg_joints =
    record { pos_min_crad = negsuc 51; pos_max_crad = pos 209; torque_limit_cnm = pos 8000 }
    ∷ record { pos_min_crad = pos 0; pos_max_crad = pos 244; torque_limit_cnm = pos 6000 }
    ∷ []

-- `limb_setpoint_t`
pub record Setpoint : Type 0 where
  pub mode : ℕ
  pub pos_crad : ℤ
  pub vel_crad_s : ℤ
  pub eff_cnm : ℤ

-- The variables of the files, with the node's safety state; `board` is the table that the image was built with.
pub record Limb : Type 0 where
  pub board : List JointCfg
  pub node : Node
  pub setpoints : List Setpoint
  pub torque_limit_cnm : List ℤ
  pub oc_ticks : List ℕ
  pub seq : List ℕ
  pub joint_cmd_rx : ℕ
  pub mode_set_rx : ℕ
  pub cmd_rejected : ℕ
  pub overcurrent_trips : ℕ

-- The calls that reach the motors, the loops and the bus.
pub data Act : Type 0 where
  set_duty : ℕ → Act
  brake : ℕ → Act
  disable : ℕ → Act
  reset_pids : Act
  can_send : CanFrame → Act

abbrev pub at_rest : Setpoint
at_rest = record { mode = jmode_passive; pos_crad = pos 0; vel_crad_s = pos 0; eff_cnm = pos 0 }

abbrev pub setpoint_of : Limb → ℕ → Setpoint
setpoint_of l j = get_or l.setpoints j at_rest

abbrev pub cfg_of : List JointCfg → ℕ → JointCfg
cfg_of board j =
    get_or board j (record { pos_min_crad = pos 0; pos_max_crad = pos 0; torque_limit_cnm = pos 0 })

-- `limb_setpoint_set`
unfoldable pub setpoint_set : Limb → ℕ → Setpoint → Limb
setpoint_set l joint sp =
    if leb joint_count joint then l else record l { setpoints = set l.setpoints joint sp }

-- `limb_setpoint_zero_all`
unfoldable pub setpoint_zero_all : Limb → Limb
setpoint_zero_all l = record l { setpoints = replicate joint_count at_rest }

-- `limb_safety_on_transition`
unfoldable pub on_transition : Limb → State → Limb × List Act
unfolding setpoint_zero_all
on_transition l boot = (l, [])
on_transition l standby = (l, [])
on_transition l operational = (l, reset_pids ∷ [])
on_transition l passive = (setpoint_zero_all l, [])
on_transition l estop = (setpoint_zero_all l, [])
on_transition l fault = (setpoint_zero_all l, [])

-- The calls of the callback, one after the other.
unfoldable pub transitions : Limb → List Call → Limb × List Act
unfolding on_transition
transitions l [] = (l, [])
transitions l (c ∷ cs) =
    let (l1, a1) = on_transition l c.new in let (l2, a2) = transitions l1 cs in (l2, a1 ++ a2)

-- The node's safety layer does something, and the callback hears of it.
unfoldable pub heard : Limb → Node × List Call → Limb × List Act
unfolding transitions
heard l (n, calls) = transitions (record l { node = n }) calls

abbrev pub clamp : ℤ → ℤ → ℤ → ℤ
clamp lo hi z = if ltb_ℤ z lo then lo else if ltb_ℤ hi z then hi else z

-- The part of `handle_joint_cmd` behind its tests.
unfoldable pub apply_cmd : Limb → ℕ → JointCmd → Limb
unfolding setpoint_set
apply_cmd l now cmd =
    let cfg = cfg_of l.board cmd.joint in
    let l1 = setpoint_set l cmd.joint (record {
      mode = cmd.mode;
      pos_crad = clamp cfg.pos_min_crad cfg.pos_max_crad cmd.pos_crad;
      vel_crad_s = cmd.vel_crad_s;
      eff_cnm = cmd.eff_cnm;
    }) in
    record l1 { node = note_cmd l1.node now; joint_cmd_rx = u32 (l1.joint_cmd_rx + 1) }

-- `handle_joint_cmd`
unfoldable pub handle_joint_cmd : Limb → ℕ → CanFrame → Limb
unfolding apply_cmd
handle_joint_cmd l now f =
    let cmd = read_joint_cmd f.payload in
    let rejected = record l { cmd_rejected = u32 (l.cmd_rejected + 1) } in
    if ltb f.dlc 8
    then rejected
    else if leb joint_count cmd.joint || ltb jmode_impedance cmd.mode
    then rejected
    else apply_cmd l now cmd

-- `handle_mode_set`: a frame of fewer bytes is read with zeros for those that are missing.
unfoldable pub handle_mode_set : Limb → ℕ → CanFrame → Limb × List Act
unfolding heard
handle_mode_set l now f =
    let n = if ltb f.dlc 8 then f.dlc else 8 in
    let ms = read_mode_set (take n f.payload ++ replicate 8 0) in
    let (l1, acts) = heard l (note_mode_set (note_cmd l.node now) now ms.target_state) in
    (record l1 { mode_set_rx = u32 (l1.mode_set_rx + 1) }, acts)

-- `control_rx_cb`
unfoldable pub control_rx : Limb → ℕ → CanFrame → Limb × List Act
unfolding handle_joint_cmd handle_mode_set
control_rx l now f =
    if id_type f.id == t_joint_cmd
    then (handle_joint_cmd l now f, [])
    else if id_type f.id == t_mode_set
    then handle_mode_set l now f
    else (l, [])

-- `joint_write`, without the bench mode; `fast` says that the shaft turns faster than the threshold.
unfoldable pub joint_write : Limb → ℕ → Bool → Bool → Act
joint_write l j energize fast =
    if energize && can_actuate l.node then set_duty j else if fast then brake j else disable j

-- The part of the control task that decides on the joint, from the setpoint that it has taken.
unfoldable pub drive : Limb → ℕ → Setpoint → Bool → Act
unfolding joint_write
drive l j sp fast = joint_write l j (not (sp.mode == jmode_passive)) fast

-- The overcurrent counter of the control task: at most one e-stop each time that it passes its limit.
unfoldable pub overcurrent : Limb → ℕ → Bool → ℕ → ℕ → Limb × List Act
unfolding heard
overcurrent l j over uptime now =
    let n = u32 (get_or l.oc_ticks j 0 + 1) in
    let l0 = record l { oc_ticks = set l.oc_ticks j 0 } in
    let l1 = record l0 { overcurrent_trips = u32 (l0.overcurrent_trips + 1) } in
    if not over
    then (l0, [])
    else if ltb overcurrent_trip_ticks n
    then elim (raise_estop l.node uptime now estop_software true) [
      | none ↦ (l1, [])
      | some (n', frames, calls, sent) ↦
          let (l2, acts) = heard l1 (n', calls) in (l2, map can_send frames ++ acts)
    ]
    else (record l { oc_ticks = set l.oc_ticks j n }, [])

-- `limb_param_set` of a joint's torque limit, of a value that is cut to an integer already.
unfoldable pub set_torque_limit : Limb → ℕ → ℤ → Limb
set_torque_limit l j v =
    let max = (cfg_of l.board j).torque_limit_cnm in
    let v1 = if ltb_ℤ v (pos 0) then pos 0 else v in
    record l { torque_limit_cnm = set l.torque_limit_cnm j (if ltb_ℤ max v1 then max else v1) }

-- `limb_telem_send`
unfoldable pub telem_send : Limb → ℕ → ℕ → List ℕ → ℕ → Limb × Act
telem_send l cls type payload len =
    let low = get_or l.seq type 0 in
    (
      record l { seq = set l.seq type (u8 (low + 1)) },
      can_send (record {
        id = pack cls l.node.node_id node_orch type low;
        dlc = len;
        payload = take len payload ++ replicate (8 - len) 0;
      }),
    )

-- The inputs that the limb reacts to.
pub data Input : Type 0 where
  control_frame : CanFrame → Input
  safety_frame : CanFrame → Input
  timer : Input
  bus_state : ℕ → Input
  current : ℕ → Bool → ℕ → Input
  torque_limit : ℕ → ℤ → Input

unfoldable pub step : Limb → ℕ → Input → Limb × List Act
unfolding control_rx heard overcurrent set_torque_limit
step l now (control_frame f) = control_rx l now f
step l now (safety_frame f) = heard l (safety_rx l.node now f)
step l now timer = heard l (tick_cb l.node now)
step l now (bus_state s) = heard l (can_state_cb l.node now s)
step l now (current j over uptime) = overcurrent l j over uptime now
step l now (torque_limit j v) = (set_torque_limit l j v, [])

-- A run over inputs, each with its time.
unfoldable pub run : Limb → List (ℕ × Input) → Limb
run l [] = l
run l ((now, i) ∷ is) = run (step l now i).0 is
