-- ===== src/Flight/Run.antt =====
-- node_flight: what the node reacts to, the rounds of the servo task among it.
use powersuit.Base.{
  ℕ, ◌≡◌, refl, ◌∙◌, by_if, List, [], ◌∷◌, ◌++◌, take, replicate, ltb, leb, if◌then◌else◌, ◌==◌,
}
use powersuit.CanId.{CanFrame, id_type, t_mode_set}
use powersuit.Wire.{State, boot, standby, operational, passive, estop, fault}
use powersuit.Wire.ControlPayloads.{read_flap_cmd, read_mode_set}
use powersuit.Safety.{Call}
use powersuit.SafetyNode.{Node, safety_rx, tick_cb, can_state_cb, note_cmd, note_mode_set}
use powersuit.Flight.{
  Flight, Target, targets_set, targets_neutral_all, on_transition, transitions, heard, apply_cmd,
  handle_flap_cmd, handle_mode_set, control_rx,
}
use powersuit.Flight.Servo.{servo_tick}

pub data Input : Type 0 where
  control_frame : CanFrame → Input
  safety_frame : CanFrame → Input
  timer : Input
  bus_state : ℕ → Input
  servo : (ℕ → ℕ) → Input

unfoldable pub step : Flight → ℕ → Input → Flight
unfolding control_rx heard servo_tick
step f now (control_frame frame) = control_rx f now frame
step f now (safety_frame frame) = heard f (safety_rx f.node now frame)
step f now timer = heard f (tick_cb f.node now)
step f now (bus_state s) = heard f (can_state_cb f.node now s)
step f now (servo scale) = (servo_tick f scale).0

-- A run over inputs, each with its time.
unfoldable pub run : Flight → List (ℕ × Input) → Flight
run f [] = f
run f ((now, i) ∷ is) = run (step f now i) is

-- What only the servo task writes.
abbrev pub SameHorns : Flight → Flight → Type 0
SameHorns f f' = (f'.cur_pm ≡ f.cur_pm) × (f'.states ≡ f.states)

on_transition-SameHorns : (f : Flight) (st : State) → SameHorns f (on_transition f st)
unfolding on_transition targets_neutral_all
on_transition-SameHorns f boot = (refl, refl)
on_transition-SameHorns f standby = (refl, refl)
on_transition-SameHorns f operational = (refl, refl)
on_transition-SameHorns f passive = (refl, refl)
on_transition-SameHorns f estop = (refl, refl)
on_transition-SameHorns f fault = (refl, refl)

transitions-SameHorns : (f : Flight) (cs : List Call) → SameHorns f (transitions f cs)
unfolding transitions
transitions-SameHorns f [] = (refl, refl)
transitions-SameHorns f (c ∷ cs) =
    let (a, b) = on_transition-SameHorns f c.new in
    let (p, q) = transitions-SameHorns (on_transition f c.new) cs in (p ∙ a, q ∙ b)

pub heard-SameHorns : (f : Flight) (r : Node × List Call) → SameHorns f (heard f r)
unfolding heard
heard-SameHorns f r = transitions-SameHorns (record f { node = r.0 }) r.1

mode_set-SameHorns :
    (f : Flight) (now : ℕ) (frame : CanFrame) → SameHorns f (handle_mode_set f now frame)
unfolding handle_mode_set
mode_set-SameHorns f now frame =
    let n = if ltb frame.dlc 8 then frame.dlc else 8 in
    let target = (read_mode_set (take n frame.payload ++ replicate 8 0)).target_state in
    heard-SameHorns f (note_mode_set (note_cmd f.node now) now target)

targets_set-SameHorns : (f : Flight) (i : ℕ) (t : Target) → SameHorns f (targets_set f i t)
unfolding targets_set
targets_set-SameHorns f i t = by_if (SameHorns f) (leb 12 i) (refl, refl) (refl, refl)

flap_cmd-SameHorns :
    (f : Flight) (now : ℕ) (frame : CanFrame) → SameHorns f (handle_flap_cmd f now frame)
unfolding handle_flap_cmd apply_cmd
flap_cmd-SameHorns f now frame =
    by_if (SameHorns f) (ltb frame.dlc 8) (refl, refl)
      (by_if (SameHorns f) (leb 12 (read_flap_cmd frame.payload).flap) (refl, refl)
        (targets_set-SameHorns f (read_flap_cmd frame.payload).flap _))

pub control_rx-SameHorns :
    (f : Flight) (now : ℕ) (frame : CanFrame) → SameHorns f (control_rx f now frame)
unfolding control_rx
control_rx-SameHorns f now frame =
    by_if (SameHorns f) (id_type frame.id == 0x11) (flap_cmd-SameHorns f now frame) (
      by_if (SameHorns f) (id_type frame.id == t_mode_set) (mode_set-SameHorns f now frame)
        (refl, refl))
