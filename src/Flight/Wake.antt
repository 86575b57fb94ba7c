-- ===== src/Flight/Wake.antt =====
-- node_flight: what it takes to move a flap out of neutral after a trip.
use native.Mathlib.Decide.{ℕ_discrete}
use powersuit.Base.{
  ℕ, zero, suc, ◌≤◌, ◌<◌, ◌≡◌, ◌≢◌, refl, ap, ◌∙◌, arith, by_if, Bool-cases, inl, inr, ◌⊎◌, Bool,
  true, false, List, [], ◌∷◌, ◌++◌, get_or, set, take, replicate, ltb, leb, ◌==◌, if◌then◌else◌,
  test_bit,
}
use powersuit.Base.Int.{ℤ, pos, negsuc, mag}
use powersuit.CanId.{CanFrame, id_type, t_mode_set}
use powersuit.Wire.{State, boot, standby, operational, passive, estop, fault}
use powersuit.Wire.ControlPayloads.{read_flap_cmd, read_mode_set}
use powersuit.Safety.{Call}
use powersuit.SafetyNode.{
  Node, can_actuate, safety_rx, tick_cb, can_state_cb, note_cmd, note_mode_set,
}
use powersuit.SafetyNode.Tells.{IsTrip, can_actuate_state}
use powersuit.Flight.{
  Flight, Target, neutral, cfg_of, target_of, horn, clamp_pm, targets_set, targets_neutral_all,
  on_transition, transitions, heard, apply_cmd, handle_flap_cmd, handle_mode_set, control_rx,
}
use powersuit.Flight.Servo.{asked, servo_tick}
use powersuit.Flight.Neutral.{home_is, is_zero}
use powersuit.Flight.Trips.{IsRest, Wakes, neutral_of, step-Settles}
use powersuit.Flight.Run
use powersuit.Flight.Run.{Input, run, control_frame, safety_frame, timer, bus_state, servo}

-- A whole FLAP_CMD frame for the flap that asks for another place than neutral.
abbrev pub Commands : ℕ → CanFrame → Type 0
Commands i frame =
    (id_type frame.id ≡ 0x11)
    × (8 ≤ frame.dlc)
    × ((read_flap_cmd frame.payload).flap ≡ i)
    × Wakes (read_flap_cmd frame.payload)

abbrev pub Orders : ℕ → Input → Type 0
Orders i (control_frame frame) = Commands i frame
Orders i (safety_frame frame) = ⊥
Orders i timer = ⊥
Orders i (bus_state st) = ⊥
Orders i (servo scale) = ⊥

abbrev pub IsOrdered : ℕ → List (ℕ × Input) → Type 0
IsOrdered i [] = ⊥
IsOrdered i ((now, input) ∷ is) = Orders i input ⊎ IsOrdered i is

written :
    (ts : List Target) (j i : ℕ) (t : Target)
    → IsRest (get_or ts i neutral)
    → (j ≡ i → IsRest t)
    → IsRest (get_or (set ts j t) i neutral)
written [] j i t h q = h
written (x ∷ xs) zero zero t h q = q refl
written (x ∷ xs) zero (suc i) t h q = h
written (x ∷ xs) (suc j) zero t h q = h
written (x ∷ xs) (suc j) (suc i) t h q = written xs j i t h (λ e. q (ap suc e))

rest_or_wakes : (z : ℤ) (b : Bool) → ((mag z ≡ 0) × (b ≡ false)) ⊎ ((0 < mag z) ⊎ (b ≡ true))
rest_or_wakes z true = inr (inr refl)
rest_or_wakes z false = ground arith

clamped_rest : (z : ℤ) → mag z ≡ 0 → mag (clamp_pm z (negsuc 999) (pos 1000)) ≡ 0
clamped_rest z e = let same : z ≡ pos 0 = is_zero z (omega arith) in rw same refl

module _ (i : ℕ) where
  abbrev Rests : Flight → Type 0
  Rests f = IsRest (target_of f i)

  transition-Rests : (f : Flight) (st : State) → Rests f → Rests (on_transition f st)
  unfolding on_transition targets_neutral_all
  transition-Rests f boot h = h
  transition-Rests f standby h = h
  transition-Rests f operational h = h
  transition-Rests f passive h = neutral_of 12 i
  transition-Rests f estop h = neutral_of 12 i
  transition-Rests f fault h = neutral_of 12 i

  transitions-Rests : (f : Flight) (cs : List Call) → Rests f → Rests (transitions f cs)
  unfolding transitions
  transitions-Rests f [] h = h
  transitions-Rests f (c ∷ cs) h =
      transitions-Rests (on_transition f c.new) cs (transition-Rests f c.new h)

  heard-Rests : (f : Flight) (r : Node × List Call) → Rests f → Rests (heard f r)
  unfolding heard
  heard-Rests f r h = transitions-Rests (record f { node = r.0 }) r.1 h

  cmd-Rests :
      (f : Flight) (now : ℕ) (frame : CanFrame)
      → id_type frame.id ≡ 0x11
      → Rests f
      → Rests (handle_flap_cmd f now frame) ⊎ Commands i frame
  unfolding handle_flap_cmd apply_cmd targets_set
  cmd-Rests f now frame e h = elim (Bool-cases (ltb frame.dlc 8)) [
    | inl short ↦ rw short (inl h)
    | inr whole ↦ rw whole (elim (ℕ_discrete (read_flap_cmd frame.payload).flap i) [
      | no other ↦ inl (stays (λ q. absurd (other q)))
      | yes here ↦
          elim (rest_or_wakes (read_flap_cmd frame.payload).pos_pm
            (test_bit (read_flap_cmd frame.payload).flags 0)) [
              | inl (z, b) ↦
                  inl (stays (λ _. (clamped_rest (read_flap_cmd frame.payload).pos_pm z, b)))
              | inr wakes ↦ inr (e, ground arith, here, wakes)
            ]
    ])
  ]
    where
      told : Target
      told = record {
        pos_pm = clamp_pm (read_flap_cmd frame.payload).pos_pm (negsuc 999) (pos 1000);
        rate_lim = (read_flap_cmd frame.payload).rate_lim;
        brake = test_bit (read_flap_cmd frame.payload).flags 0;
      }

      stays :
          ((read_flap_cmd frame.payload).flap ≡ i → IsRest told)
          → Rests (
              if leb 12 (read_flap_cmd frame.payload).flap
              then f
              else apply_cmd f now (read_flap_cmd frame.payload))
      stays q = by_if Rests (leb 12 (read_flap_cmd frame.payload).flap) h (
          by_if Rests (leb 12 (read_flap_cmd frame.payload).flap) h
            (written f.targets (read_flap_cmd frame.payload).flap i told h q))

  step-Rests :
      (f : Flight) (now : ℕ) (input : Input)
      → Rests f
      → Rests (Run.step f now input) ⊎ Orders i input
  unfolding Run.step control_rx handle_mode_set servo_tick
  step-Rests f now (control_frame frame) h = elim (Bool-cases (id_type frame.id == 0x11)) [
    | inl cmd ↦ rw cmd (cmd-Rests f now frame (ground arith) h)
    | inr other ↦ rw other (inl (by_if Rests (id_type frame.id == t_mode_set) mode h))
  ]
    where
      mode : Rests (handle_mode_set f now frame)
      mode =
          let n = if ltb frame.dlc 8 then frame.dlc else 8 in
          let target = (read_mode_set (take n frame.payload ++ replicate 8 0)).target_state in
          heard-Rests f (note_mode_set (note_cmd f.node now) now target) h
  step-Rests f now (safety_frame frame) h = inl (heard-Rests f (safety_rx f.node now frame) h)
  step-Rests f now timer h = inl (heard-Rests f (tick_cb f.node now) h)
  step-Rests f now (bus_state st) h = inl (heard-Rests f (can_state_cb f.node now st) h)
  step-Rests f now (servo scale) h = inl h

  run-Rests : (f : Flight) (is : List (ℕ × Input)) → Rests f → Rests (run f is) ⊎ IsOrdered i is
  unfolding run
  run-Rests f [] h = inl h
  run-Rests f ((now, input) ∷ is) h = elim (step-Rests f now input h) [
    | inl still ↦ elim (run-Rests (Run.step f now input) is still) [
      | inl after ↦ inl after
      | inr later ↦ inr (inr later)
    ]
    | inr here ↦ inr (inl here)
  ]

-- A round that moves the flap away from neutral finds the gate open and a target that is not neutral.
away :
    (f : Flight) (scale : ℕ → ℕ) (i : ℕ)
    → i < 12
    → mag (horn f i) < mag (horn (servo_tick f scale).0 i)
    → (can_actuate f.node ≡ true) × ¬ IsRest (target_of f i)
away f scale i h further = elim (Bool-cases (can_actuate f.node)) [
  | inl may ↦ (may, λ r. back (ap (λ b. asked (cfg_of i) b (target_of f i)) may ∙ asks_rest r))
  | inr shut ↦ absurd (back (ap (λ b. asked (cfg_of i) b (target_of f i)) shut))
]
  where
    back : asked (cfg_of i) (can_actuate f.node) (target_of f i) ≡ pos 0 → ⊥
    back e = omega (arith, home_is f scale i h e, further)

    asks_rest : IsRest (target_of f i) → asked (cfg_of i) true (target_of f i) ≡ pos 0
    asks_rest (z, b) = rw b (is_zero (target_of f i).pos_pm (omega arith))

-- Let the node's callback be registered, and let an input change the node's state to PASSIVE, ESTOP or FAULT. If, after any
-- further inputs, a round of the servo task moves one of the twelve flaps away from neutral, the node's state is OPERATIONAL and one of the
-- further inputs is a whole FLAP_CMD frame for this flap that asks for another place than neutral.
pub away_needs :
    (f : Flight) (now : ℕ) (input : Input) (is : List (ℕ × Input)) (scale : ℕ → ℕ) (i : ℕ)
    → f.node.core.on_transition ≡ true
    → f.node.core.state ≢ (Run.step f now input).node.core.state
    → IsTrip (Run.step f now input).node.core.state
    → i < 12
    → let after = run (Run.step f now input) is in
      mag (horn after i) < mag (horn (servo_tick after scale).0 i)
      → (after.node.core.state ≡ operational) × IsOrdered i is
away_needs f now input is scale i on moved trip h further =
    let tripped = Run.step f now input in
    let after = run tripped is in
    let (may, awake) = away after scale i h further in
    (
      can_actuate_state after.node may,
      elim (run-Rests i tripped is ((step-Settles f now input on).0 moved trip i)) [
        | inl still ↦ absurd (awake still)
        | inr ordered ↦ ordered
      ],
    )
