-- ===== src/Flight/Trips.antt =====
-- node_flight: a trip makes every target neutral, and only a command moves a flap away again.
use powersuit.Base.{
  ℕ, zero, suc, ◌<◌, ◌≡◌, ◌≢◌, refl, sym, ap, subst, ◌∙◌, by_if, ◌⊎◌, true, false, List, [], ◌∷◌,
  ◌++◌, get_or, take, replicate, ltb, leb, ◌==◌, if◌then◌else◌, test_bit,
}
use powersuit.Base.Int.{mag}
use powersuit.CanId.{CanFrame, id_type, t_mode_set}
use powersuit.Wire.{State, boot, standby, operational, passive, estop, fault}
use powersuit.Wire.ControlPayloads.{FlapCmd, read_flap_cmd, read_mode_set}
use powersuit.Safety.{Call}
use powersuit.Safety.Calls.{Chain}
use powersuit.SafetyNode.{Node, safety_rx, tick_cb, can_state_cb, note_cmd, note_mode_set}
use powersuit.SafetyNode.Tells.{
  IsTrip, Tells, rx-Tells, tick-Tells, bus-Tells, mode-Tells, note_cmd_core,
}
use powersuit.Flight.{
  Flight, Target, neutral, target_of, targets_set, targets_neutral_all, on_transition, transitions,
  heard, apply_cmd, handle_flap_cmd, handle_mode_set, control_rx,
}
use powersuit.Flight.Servo.{servo_tick}
use powersuit.Flight.Run
use powersuit.Flight.Run.{Input, run, control_frame, safety_frame, timer, bus_state, servo}

-- A target that asks for neutral, and a command that does not.
abbrev pub IsRest : Target → Type 0
IsRest t = (mag t.pos_pm ≡ 0) × (t.brake ≡ false)

abbrev pub Wakes : FlapCmd → Type 0
Wakes cmd = (0 < mag cmd.pos_pm) ⊎ (test_bit cmd.flags 0 ≡ true)

abbrev AllRest : Flight → Type 0
AllRest f = (i : ℕ) → IsRest (target_of f i)

pub neutral_of : (n i : ℕ) → IsRest (get_or (replicate n neutral) i neutral)
neutral_of zero i = (refl, refl)
neutral_of (suc n) zero = (refl, refl)
neutral_of (suc n) (suc i) = neutral_of n i

on_trip : (f : Flight) (st : State) → IsTrip st → AllRest (on_transition f st)
unfolding on_transition targets_neutral_all
on_trip f boot t i = elim t [ ]
on_trip f standby t i = elim t [ ]
on_trip f operational t i = elim t [ ]
on_trip f passive t i = neutral_of 12 i
on_trip f estop t i = neutral_of 12 i
on_trip f fault t i = neutral_of 12 i

transitions_end :
    (f : Flight) (c : Call) (cs : List Call) (s s' : State)
    → Chain s (c ∷ cs) s'
    → IsTrip s'
    → AllRest (transitions f (c ∷ cs))
unfolding transitions
transitions_end f c [] s s' (_, _, e) t = on_trip f c.new (subst IsTrip (sym e) t)
transitions_end f c (d ∷ cs) s s' (_, _, ch) t =
    transitions_end (on_transition f c.new) d cs c.new s' ch t

transitions_node : (f : Flight) (cs : List Call) → (transitions f cs).node ≡ f.node
unfolding transitions on_transition targets_neutral_all
transitions_node f [] = refl
transitions_node f (c ∷ cs) = transitions_node (on_transition f c.new) cs ∙ same c.new
  where
    same : (st : State) → (on_transition f st).node ≡ f.node
    same boot = refl
    same standby = refl
    same operational = refl
    same passive = refl
    same estop = refl
    same fault = refl

-- A change into PASSIVE, ESTOP or FAULT leaves every target neutral, and the callback registered.
abbrev Settles : Flight → Flight → Type 0
Settles f f' =
    (f.node.core.state ≢ f'.node.core.state → IsTrip f'.node.core.state → AllRest f')
    × (f'.node.core.on_transition ≡ true)

heard-Settles :
    (f : Flight) (n : Node) (r : Node × List Call)
    → Tells n r
    → f.node.core.state ≡ n.core.state
    → Settles f (heard f r)
unfolding heard
heard-Settles f n (n', []) (ch, on) e = (λ moved t. absurd (moved (e ∙ ch)), on)
heard-Settles f n (n', c ∷ cs) (ch, on) e =
    let same = transitions_node (record f { node = n' }) (c ∷ cs) in
    (
      λ moved t.
          transitions_end (record f { node = n' }) c cs n.core.state n'.core.state ch
            (subst (λ (m : Node). IsTrip m.core.state) same t),
      ap (λ (m : Node). m.core.on_transition) same ∙ on,
    )

-- Nothing but the clock of the last command changes in the node.
cmd_node :
    (f : Flight) (now : ℕ) (frame : CanFrame)
    → (f.node.core.state ≡ (handle_flap_cmd f now frame).node.core.state)
      × ((handle_flap_cmd f now frame).node.core.on_transition ≡ f.node.core.on_transition)
unfolding handle_flap_cmd apply_cmd
cmd_node f now frame =
    let cmd = read_flap_cmd frame.payload in
    by_if Same (ltb frame.dlc 8) (refl, refl)
      (by_if Same (leb 12 cmd.flap) (refl, refl)
        (noted (targets_set f cmd.flap _) (set_node cmd.flap _)))
  where
    Same : Flight → Type 0
    Same g =
        (f.node.core.state ≡ g.node.core.state)
        × (g.node.core.on_transition ≡ f.node.core.on_transition)

    set_node : (i : ℕ) (t : Target) → (targets_set f i t).node ≡ f.node
    set_node i t =
        unfold targets_set in by_if (λ (g : Flight). g.node ≡ f.node) (leb 12 i) refl refl

    noted : (g : Flight) → g.node ≡ f.node → Same (record g { node = note_cmd g.node now })
    noted g e =
        let (a, b) = note_cmd_core g.node now in
        (
          ap (λ (m : Node). m.core.state) (sym e) ∙ sym a,
          b ∙ ap (λ (m : Node). m.core.on_transition) e,
        )

pub step-Settles :
    (f : Flight) (now : ℕ) (i : Input)
    → f.node.core.on_transition ≡ true
    → Settles f (Run.step f now i)
unfolding Run.step control_rx handle_mode_set servo_tick
step-Settles f now (control_frame frame) on =
    by_if (Settles f) (id_type frame.id == 0x11)
      (let (a, b) = cmd_node f now frame in (λ moved t. absurd (moved a), b ∙ on))
      (by_if (Settles f) (id_type frame.id == t_mode_set) mode (λ moved t. absurd (moved refl), on))
  where
    mode : Settles f (handle_mode_set f now frame)
    mode =
        let (a, b) = note_cmd_core f.node now in
        let n = if ltb frame.dlc 8 then frame.dlc else 8 in
        let target = (read_mode_set (take n frame.payload ++ replicate 8 0)).target_state in
        heard-Settles f (note_cmd f.node now) (note_mode_set (note_cmd f.node now) now target)
          (mode-Tells (note_cmd f.node now) now (b ∙ on) target) (sym a)
step-Settles f now (safety_frame frame) on =
    heard-Settles f f.node (safety_rx f.node now frame) (rx-Tells f.node now on frame) refl
step-Settles f now timer on =
    heard-Settles f f.node (tick_cb f.node now) (tick-Tells f.node now on) refl
step-Settles f now (bus_state st) on =
    heard-Settles f f.node (can_state_cb f.node now st) (bus-Tells f.node now on st) refl
step-Settles f now (servo scale) on = (λ moved t. absurd (moved refl), on)
