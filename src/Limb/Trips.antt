-- ===== src/Limb/Trips.antt =====
-- node_limb: a trip puts every joint to rest, and only a command wakes it.
use powersuit.Base.{
  ℕ, zero, suc, ◌+◌, ◌≡◌, ◌≢◌, refl, sym, ap, subst, ◌∙◌, by_if, Bool, true, not, ◌||◌, Option,
  none, some, List, [], ◌∷◌, ◌++◌, get_or, set, map, take, replicate, ltb, leb, if◌then◌else◌, ◌==◌,
  u32,
}
use powersuit.CanId.{CanFrame, id_type, t_mode_set}
use powersuit.Wire.{State, boot, standby, operational, passive, estop, fault, estop_software}
use powersuit.Wire.ControlPayloads.{read_joint_cmd, read_mode_set}
use powersuit.Safety.{Call}
use powersuit.Safety.Calls.{Chain}
use powersuit.SafetyNode.{
  Node, note_mode_set, note_cmd, raise_estop, safety_rx, tick_cb, can_state_cb,
}
use powersuit.SafetyNode.Tells.{
  IsTrip, Tells, rx-Tells, tick-Tells, bus-Tells, mode-Tells, note_cmd_core, Raises, raise-Raises,
}
use powersuit.Limb
use powersuit.Limb.{
  Limb, Setpoint, Act, Input, at_rest, setpoint_of, setpoint_set, setpoint_zero_all, on_transition,
  transitions, heard, handle_joint_cmd, handle_mode_set, control_rx, overcurrent, set_torque_limit,
  can_send, control_frame, safety_frame, timer, bus_state, current, torque_limit,
}

-- Every joint is at rest.
abbrev pub AllRest : Limb → Type 0
AllRest l = (j : ℕ) → setpoint_of l j ≡ at_rest

rest_of : (n j : ℕ) → get_or (replicate n at_rest) j at_rest ≡ at_rest
rest_of zero j = refl
rest_of (suc n) zero = refl
rest_of (suc n) (suc j) = rest_of n j

-- The callback puts the joints to rest on a trip.
on_trip : (l : Limb) (st : State) → IsTrip st → AllRest (on_transition l st).0
unfolding on_transition setpoint_zero_all
on_trip l boot t j = elim t [ ]
on_trip l standby t j = elim t [ ]
on_trip l operational t j = elim t [ ]
on_trip l passive t j = rest_of 2 j
on_trip l estop t j = rest_of 2 j
on_trip l fault t j = rest_of 2 j

-- And so after calls that lead to one.
transitions_end :
    (l : Limb) (c : Call) (cs : List Call) (s s' : State)
    → Chain s (c ∷ cs) s'
    → IsTrip s'
    → AllRest (transitions l (c ∷ cs)).0
unfolding transitions
transitions_end l c [] s s' (_, _, e) t = on_trip l c.new (subst IsTrip (sym e) t)
transitions_end l c (d ∷ cs) s s' (_, _, ch) t =
    transitions_end (on_transition l c.new).0 d cs c.new s' ch t

heard_trip :
    (l : Limb) (n : Node) (r : Node × List Call)
    → Tells n r
    → n.core.state ≢ r.0.core.state
    → IsTrip r.0.core.state
    → AllRest (heard l r).0
unfolding heard
heard_trip l n (n', []) (ch, _) moved t = absurd (moved ch)
heard_trip l n (n', c ∷ cs) (ch, _) moved t =
    transitions_end (record l { node = n' }) c cs n.core.state n'.core.state ch t

-- The callback leaves the node as it is.
transitions_node : (l : Limb) (cs : List Call) → (transitions l cs).0.node ≡ l.node
unfolding transitions on_transition setpoint_zero_all
transitions_node l [] = refl
transitions_node l (c ∷ cs) = transitions_node (on_transition l c.new).0 cs ∙ same c.new
  where
    same : (st : State) → (on_transition l st).0.node ≡ l.node
    same boot = refl
    same standby = refl
    same operational = refl
    same passive = refl
    same estop = refl
    same fault = refl

-- The same of the limb, after what the callback did.
by_calls :
    (l : Limb) (n : Node) (r : Node × List Call)
    → Tells n r
    → n.core.state ≢ (heard l r).0.node.core.state
    → IsTrip (heard l r).0.node.core.state
    → AllRest (heard l r).0
unfolding heard
by_calls l n r tells moved t =
    let same = transitions_node (record l { node = r.0 }) r.1 in
    heard_trip l n r tells (λ e. moved (e ∙ ap (λ (m : Node). m.core.state) (sym same)))
      (subst (λ (m : Node). IsTrip m.core.state) same t)

-- The callback stays registered.
called :
    (l : Limb) (n : Node) (r : Node × List Call)
    → Tells n r
    → l.node.core.state ≡ n.core.state
    → (l.node.core.state ≢ (heard l r).0.node.core.state
        → IsTrip (heard l r).0.node.core.state
        → AllRest (heard l r).0)
      × ((heard l r).0.node.core.on_transition ≡ true)
unfolding heard
called l n r tells e = (
  λ moved t. by_calls l n r tells (λ q. moved (e ∙ q)) t,
  ap (λ (m : Node). m.core.on_transition) (transitions_node (record l { node = r.0 }) r.1)
      ∙ tells.1,
)

-- Where the node went from another state into PASSIVE, ESTOP or FAULT, every joint is at rest.
abbrev Rests : Limb → Limb → Type 0
Rests l l' = l.node.core.state ≢ l'.node.core.state → IsTrip l'.node.core.state → AllRest l'

setpoint_set_node : (l : Limb) (j : ℕ) (sp : Setpoint) → (setpoint_set l j sp).node ≡ l.node
unfolding setpoint_set
setpoint_set_node l j sp = by_if (λ (m : Limb). m.node ≡ l.node) (leb 2 j) refl refl

joint_cmd_state :
    (l : Limb) (now : ℕ) (f : CanFrame)
    → ((handle_joint_cmd l now f).node.core.state ≡ l.node.core.state)
      × ((handle_joint_cmd l now f).node.core.on_transition ≡ l.node.core.on_transition)
unfolding handle_joint_cmd
joint_cmd_state l now f =
    by_if Keeps (ltb f.dlc 8) (refl, refl)
      (by_if Keeps (leb 2 (read_joint_cmd f.payload).joint || ltb 4 (read_joint_cmd f.payload).mode)
        (refl, refl) (noted _ _))
  where
    Keeps : Limb → Type 0
    Keeps m =
        (m.node.core.state ≡ l.node.core.state)
        × (m.node.core.on_transition ≡ l.node.core.on_transition)

    noted :
        (j : ℕ) (sp : Setpoint)
        → let m = setpoint_set l j sp in
          Keeps (record m { node = note_cmd m.node now; joint_cmd_rx = u32 (m.joint_cmd_rx + 1) })
    noted j sp =
        let (a, b) = note_cmd_core (setpoint_set l j sp).node now in
        let same = setpoint_set_node l j sp in
        (a ∙ ap (λ (m : Node). m.core.state) same, b ∙ ap (λ (m : Node). m.core.on_transition) same)

-- An input that takes the node into PASSIVE, ESTOP or FAULT puts every joint to rest, and the callback stays registered.
pub step-Rests :
    (l : Limb) (now : ℕ) (i : Input)
    → l.node.core.on_transition ≡ true
    → Rests l (Limb.step l now i).0 × ((Limb.step l now i).0.node.core.on_transition ≡ true)
unfolding Limb.step control_rx handle_mode_set overcurrent set_torque_limit
step-Rests l now (control_frame f) on =
    by_if (λ (r : Limb × List Act). Rests l r.0 × (r.0.node.core.on_transition ≡ true))
      (id_type f.id == 0x10)
      (let (a, b) = joint_cmd_state l now f in (λ moved t. absurd (moved (sym a)), b ∙ on))
      (by_if (λ (r : Limb × List Act). Rests l r.0 × (r.0.node.core.on_transition ≡ true))
        (id_type f.id == t_mode_set) mode (λ moved t. absurd (moved refl), on))
  where
    noted : Node
    noted = note_cmd l.node now

    mode :
        Rests l (handle_mode_set l now f).0
        × ((handle_mode_set l now f).0.node.core.on_transition ≡ true)
    mode =
        let (a, b) = note_cmd_core l.node now in
        let n = if ltb f.dlc 8 then f.dlc else 8 in
        let target = (read_mode_set (take n f.payload ++ replicate 8 0)).target_state in
        let r = note_mode_set noted now target in
        called l noted r (mode-Tells noted now (b ∙ on) target) (sym a)
step-Rests l now (safety_frame f) on =
    called l l.node (safety_rx l.node now f) (rx-Tells l.node now on f) refl
step-Rests l now timer on = called l l.node (tick_cb l.node now) (tick-Tells l.node now on) refl
step-Rests l now (bus_state st) on =
    called l l.node (can_state_cb l.node now st) (bus-Tells l.node now on st) refl
step-Rests l now (current j over uptime) on =
    by_if P (not over) (λ moved t. absurd (moved refl), on)
      (by_if P (ltb 5 (u32 (get_or l.oc_ticks j 0 + 1)))
        (raised (raise_estop l.node uptime now estop_software true)
          (raise-Raises l.node uptime now on))
        (λ moved t. absurd (moved refl), on))
  where
    P : Limb × List Act → Type 0
    P r = Rests l r.0 × (r.0.node.core.on_transition ≡ true)

    counted : Limb
    counted = record l {
      oc_ticks = set l.oc_ticks j 0;
      overcurrent_trips = u32 (l.overcurrent_trips + 1);
    }

    raised :
        (o : Option (Node × List CanFrame × List Call × Bool))
        → Raises l.node o
        → let r : Limb × List Act = elim o [
          | none ↦ (counted, [])
          | some (n', frames, calls, sent) ↦
              let (l2, acts) = heard counted (n', calls) in (l2, map can_send frames ++ acts)
        ] in
          Rests l r.0 × (r.0.node.core.on_transition ≡ true)
    raised none h = (λ moved t. absurd (moved refl), on)
    raised (some (n', frames, calls, sent)) h = called counted l.node (n', calls) h refl
step-Rests l now (torque_limit j v) on = (λ moved t. absurd (moved refl), on)
