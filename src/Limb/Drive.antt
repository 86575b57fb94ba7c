-- ===== src/Limb/Drive.antt =====
-- node_limb: what it takes to drive a joint after a trip.
use native.Mathlib.Decide.{ℕ_discrete}
use powersuit.Base.{
  ℕ, zero, suc, ◌+◌, ◌≤◌, ◌≡◌, ◌≢◌, refl, ap, arith, by_if, Bool-cases, inl, inr, ◌⊎◌, Bool, true,
  false, not, ◌||◌, ◌&&◌, Option, none, some, List, [], ◌∷◌, ◌++◌, get_or, set, map, take,
  replicate, ltb, leb, if◌then◌else◌, ◌==◌, u32,
}
use powersuit.CanId.{CanFrame, id_type, t_mode_set}
use powersuit.Wire.{State, boot, standby, operational, passive, estop, fault, estop_software}
use powersuit.Wire.ControlPayloads.{read_joint_cmd, read_mode_set}
use powersuit.Safety.{Call}
use powersuit.SafetyNode.{
  Node, note_mode_set, note_cmd, raise_estop, safety_rx, tick_cb, can_state_cb, can_actuate,
}
use powersuit.Limb
use powersuit.Limb.{
  Limb, Setpoint, Act, Input, at_rest, setpoint_of, setpoint_set, setpoint_zero_all, on_transition,
  transitions, heard, apply_cmd, handle_joint_cmd, handle_mode_set, control_rx, overcurrent,
  set_torque_limit, run, drive, joint_write, set_duty, brake, disable, reset_pids, can_send,
  control_frame, safety_frame, timer, bus_state, current, torque_limit,
}
use powersuit.SafetyNode.Tells.{IsTrip, can_actuate_state}
use powersuit.Limb.Trips.{step-Rests}

-- A whole JOINT_CMD frame for the joint that asks for another mode than PASSIVE.
abbrev pub Commands : ℕ → CanFrame → Type 0
Commands j f =
    (id_type f.id ≡ 0x10)
    × (8 ≤ f.dlc)
    × ((read_joint_cmd f.payload).joint ≡ j)
    × ((read_joint_cmd f.payload).mode ≢ 0)

abbrev pub Orders : ℕ → Input → Type 0
Orders j (control_frame f) = Commands j f
Orders j (safety_frame f) = ⊥
Orders j timer = ⊥
Orders j (bus_state s) = ⊥
Orders j (current k over uptime) = ⊥
Orders j (torque_limit k v) = ⊥

abbrev mode_of : Limb → ℕ → ℕ
mode_of l j = (setpoint_of l j).mode

rest_mode : (n j : ℕ) → (get_or (replicate n at_rest) j at_rest).mode ≡ 0
rest_mode zero j = refl
rest_mode (suc n) zero = refl
rest_mode (suc n) (suc j) = rest_mode n j

written :
    (sps : List Setpoint) (i j : ℕ) (sp : Setpoint)
    → (get_or sps j at_rest).mode ≡ 0
    → (i ≡ j → sp.mode ≡ 0)
    → (get_or (set sps i sp) j at_rest).mode ≡ 0
written [] i j sp h q = h
written (x ∷ xs) zero zero sp h q = q refl
written (x ∷ xs) zero (suc j) sp h q = h
written (x ∷ xs) (suc i) zero sp h q = h
written (x ∷ xs) (suc i) (suc j) sp h q = written xs i j sp h (λ e. q (ap suc e))

module _ (j : ℕ) where
  abbrev Passive : Limb → Type 0
  Passive l = mode_of l j ≡ 0

  transition-Passive : (l : Limb) (st : State) → Passive l → Passive (on_transition l st).0
  unfolding on_transition setpoint_zero_all
  transition-Passive l boot h = h
  transition-Passive l standby h = h
  transition-Passive l operational h = h
  transition-Passive l passive h = rest_mode 2 j
  transition-Passive l estop h = rest_mode 2 j
  transition-Passive l fault h = rest_mode 2 j

  transitions-Passive : (l : Limb) (cs : List Call) → Passive l → Passive (transitions l cs).0
  unfolding transitions
  transitions-Passive l [] h = h
  transitions-Passive l (c ∷ cs) h =
      transitions-Passive (on_transition l c.new).0 cs (transition-Passive l c.new h)

  heard-Passive : (l : Limb) (r : Node × List Call) → Passive l → Passive (heard l r).0
  unfolding heard
  heard-Passive l r h = transitions-Passive (record l { node = r.0 }) r.1 h

  joint_cmd-Passive :
      (l : Limb) (now : ℕ) (f : CanFrame)
      → id_type f.id ≡ 0x10
      → Passive l
      → Passive (handle_joint_cmd l now f) ⊎ Commands j f
  unfolding handle_joint_cmd apply_cmd setpoint_set
  joint_cmd-Passive l now f e h = elim (Bool-cases (ltb f.dlc 8)) [
    | inl short ↦ rw short (inl h)
    | inr whole ↦ rw whole (elim (ℕ_discrete (read_joint_cmd f.payload).joint j) [
      | no other ↦ inl (stays (λ q. absurd (other q)))
      | yes here ↦ elim (ℕ_discrete (read_joint_cmd f.payload).mode 0) [
        | yes quiet ↦ inl (stays (λ _. quiet))
        | no wakes ↦ inr (e, ground arith, here, wakes)
      ]
    ])
  ]
    where
      applied :
          ((read_joint_cmd f.payload).joint ≡ j → (read_joint_cmd f.payload).mode ≡ 0)
          → Passive (apply_cmd l now (read_joint_cmd f.payload))
      applied q =
          by_if Passive (leb 2 (read_joint_cmd f.payload).joint) h
            (written l.setpoints (read_joint_cmd f.payload).joint j _ h q)

      stays :
          ((read_joint_cmd f.payload).joint ≡ j → (read_joint_cmd f.payload).mode ≡ 0)
          → let cmd = read_joint_cmd f.payload in
            Passive (
              if leb 2 cmd.joint || ltb 4 cmd.mode
              then record l { cmd_rejected = u32 (l.cmd_rejected + 1) }
              else apply_cmd l now cmd)
      stays q =
          by_if Passive
            (leb 2 (read_joint_cmd f.payload).joint || ltb 4 (read_joint_cmd f.payload).mode) h
            (applied q)

  step-Passive :
      (l : Limb) (now : ℕ) (i : Input) → Passive l → Passive (Limb.step l now i).0 ⊎ Orders j i
  unfolding Limb.step control_rx handle_mode_set overcurrent set_torque_limit
  step-Passive l now (control_frame f) h = elim (Bool-cases (id_type f.id == 0x10)) [
    | inl cmd ↦ rw cmd (joint_cmd-Passive l now f (ground arith) h)
    | inr other ↦
        rw other
          (inl (by_if (λ (r : Limb × List Act). Passive r.0) (id_type f.id == t_mode_set) mode h))
  ]
    where
      mode : Passive (handle_mode_set l now f).0
      mode =
          let n = if ltb f.dlc 8 then f.dlc else 8 in
          let target = (read_mode_set (take n f.payload ++ replicate 8 0)).target_state in
          heard-Passive l (note_mode_set (note_cmd l.node now) now target) h
  step-Passive l now (safety_frame f) h = inl (heard-Passive l (safety_rx l.node now f) h)
  step-Passive l now timer h = inl (heard-Passive l (tick_cb l.node now) h)
  step-Passive l now (bus_state st) h = inl (heard-Passive l (can_state_cb l.node now st) h)
  step-Passive l now (current k over uptime) h = inl (
      by_if (λ (r : Limb × List Act). Passive r.0) (not over) h
        (by_if (λ (r : Limb × List Act). Passive r.0) (ltb 5 (u32 (get_or l.oc_ticks k 0 + 1)))
          (raised (raise_estop l.node uptime now estop_software true)) h))
    where
      counted : Limb
      counted = record l {
        oc_ticks = set l.oc_ticks k 0;
        overcurrent_trips = u32 (l.overcurrent_trips + 1);
      }

      raised :
          (o : Option (Node × List CanFrame × List Call × Bool))
          → let r : Limb × List Act = elim o [
            | none ↦ (counted, [])
            | some (n', frames, calls, sent) ↦
                let (l2, acts) = heard counted (n', calls) in (l2, map can_send frames ++ acts)
          ] in
            Passive r.0
      raised none = h
      raised (some (n', frames, calls, sent)) = heard-Passive counted (n', calls) h
  step-Passive l now (torque_limit k v) h = inl h

-- One of the inputs commands the joint.
abbrev pub IsOrdered : ℕ → List (ℕ × Input) → Type 0
IsOrdered j [] = ⊥
IsOrdered j ((now, i) ∷ is) = Orders j i ⊎ IsOrdered j is

run-Passive :
    (j : ℕ) (l : Limb) (is : List (ℕ × Input)) → Passive j l → Passive j (run l is) ⊎ IsOrdered j is
unfolding run
run-Passive j l [] h = inl h
run-Passive j l ((now, i) ∷ is) h = elim (step-Passive j l now i h) [
  | inl still ↦ elim (run-Passive j (Limb.step l now i).0 is still) [
    | inl after ↦ inl after
    | inr later ↦ inr (inr later)
  ]
  | inr here ↦ inr (inl here)
]

is_duty : Act → Bool
is_duty (set_duty k) = true
is_duty (brake k) = false
is_duty (disable k) = false
is_duty reset_pids = false
is_duty (can_send f) = false

-- What the write path needs to drive a joint.
duty_needs :
    (l : Limb) (j : ℕ) (sp : Setpoint) (fast : Bool)
    → drive l j sp fast ≡ set_duty j
    → (sp.mode ≢ 0) × (can_actuate l.node ≡ true)
unfolding drive joint_write is_duty
duty_needs l j sp fast h = elim (Bool-cases (sp.mode == 0)) [
  | inl quiet ↦ absurd (closed (sp.mode == 0) (can_actuate l.node) fast (ap is_duty h) (inl quiet))
  | inr loud ↦ elim (Bool-cases (can_actuate l.node)) [
    | inl may ↦ (ground arith, may)
    | inr shut ↦ absurd (closed (sp.mode == 0) (can_actuate l.node) fast (ap is_duty h) (inr shut))
  ]
]
  where
    closed :
        (a b c : Bool)
        → is_duty (if not a && b then set_duty j else if c then brake j else disable j) ≡ true
        → (a ≡ true) ⊎ (b ≡ false)
        → ⊥
    closed true b true h _ = ground arith
    closed true b false h _ = ground arith
    closed false true c h (inl e) = ground arith
    closed false true c h (inr e) = ground arith
    closed false false true h _ = ground arith
    closed false false false h _ = ground arith

-- Let the node's callback be registered, and let an input change the node's state to PASSIVE, ESTOP or FAULT. If, after any
-- further inputs, the control task drives a joint by the setpoint that stands then, the node's state is OPERATIONAL and one
-- of the further inputs is a whole JOINT_CMD frame for this joint, in another mode than PASSIVE: no setpoint from
-- before a trip is resumed.
pub drive_needs :
    (l : Limb) (now : ℕ) (i : Input) (is : List (ℕ × Input)) (j : ℕ) (fast : Bool)
    → l.node.core.on_transition ≡ true
    → l.node.core.state ≢ (Limb.step l now i).0.node.core.state
    → IsTrip (Limb.step l now i).0.node.core.state
    → let after = run (Limb.step l now i).0 is in
      drive after j (setpoint_of after j) fast ≡ set_duty j
      → (after.node.core.state ≡ operational) × IsOrdered j is
drive_needs l now i is j fast on moved trip h =
    let l1 = (Limb.step l now i).0 in
    let after = run l1 is in
    let (wakes, may) = duty_needs after j (setpoint_of after j) fast h in
    let rest = (step-Rests l now i on).0 moved trip in
    let quiet : Passive j l1 = ap (λ (s : Setpoint). s.mode) (rest j) in
    (
      can_actuate_state after.node may,
      elim (run-Passive j l1 is quiet) [ inl still ↦ absurd (wakes still) | inr ordered ↦ ordered ],
    )
