-- ===== src/Examples/FlightCases.antt =====
-- A pair of wings: a trip and the way back, the way to neutral, and the sums of two flaps.
use powersuit.Base.{
  ℕ, ◌+◌, ◌*◌, ◌≤◌, ◌<◌, ◌≡◌, ◌≢◌, refl, sym, subst, ◌∙◌, arith, inl, inr, Bool, true, false, List,
  [], ◌∷◌, replicate, set, get_or, get_elem?, Option, some, zero, suc,
}
use powersuit.Base.Int.{ℤ, pos, mag}
use powersuit.CanId.{CanFrame, id_type}
use powersuit.Wire.{operational, passive}
use powersuit.Bytes.{rd_u16}
use powersuit.Wire.ControlPayloads.{read_flap_cmd, read_mode_set}
use powersuit.Wire.SafetyPayloads.{read_heartbeat}
use powersuit.Safety.{tick, elapsed, on_heartbeat, on_mode_set, on_cmd}
use powersuit.SafetyNode.{tick_cb, safety_rx, note_cmd, note_mode_set, can_actuate}
use powersuit.SafetyNode.Tells.{IsTrip}
use powersuit.Flight.{Flight, Pair, neutral, horn, on_transition, handle_flap_cmd}
use powersuit.Flight.Servo.{servo_tick}
use powersuit.Flight.Run
use powersuit.Flight.Run.{Input, run, control_frame, safety_frame, timer, bus_state, servo}
use powersuit.Flight.Limits.{IsSafe, Near, allowed, run_limits}
use powersuit.Flight.Tick.{InEnvelope, cfg_of-CfgIsValid}
use powersuit.Flight.Neutral.{StaysShut, Rate, Rates, shut_neutral}
use powersuit.Flight.Pairs.{HornsKept, even_pairs}
use powersuit.Flight.Wake.{IsOrdered, away_needs}
use powersuit.Examples.LimbCases.{arm, mode_frame, beat}

-- Flap 2 is at a tenth of its way up.
abbrev wings : Flight
wings = record {
  node = record arm.node { node_id = 5 };
  targets = replicate 12 neutral;
  states = replicate 12 (record { pos_pm = pos 0; target_pm = pos 0; at_limit = false });
  cur_pm = set (replicate 12 (pos 0)) 2 (pos 100);
  telem_seq = replicate 256 0;
}

-- FLAP_CMD for flap 2, to 300 permille.
abbrev command : CanFrame
command = record { id = 0x1100; dlc = 8; payload = 2 ∷ 0 ∷ 44 ∷ 1 ∷ 0 ∷ 0 ∷ 0 ∷ 0 ∷ [] }

abbrev back : List (ℕ × Input)
back =
    (1070, control_frame (mode_frame 1))
    ∷ (1080, control_frame (mode_frame 2))
    ∷ (1085, safety_frame beat)
    ∷ (1090, timer)
    ∷ (1095, control_frame command)
    ∷ []

-- A `rate_scale` of 1, and of 0.
abbrev full : ℕ → ℕ
full p = 10 * p

abbrev tripped : Flight
tripped = Run.step wings 1060 timer

tripped_passive : tripped.node.core.state ≡ passive
unfolding Run.step tick_cb tick elapsed
tripped_passive = refl

before : mag (horn (run tripped back) 2) ≡ 100
unfolding run Run.step id_type read_flap_cmd tick_cb tick safety_rx on_heartbeat note_mode_set
    note_cmd elapsed on_mode_set read_mode_set on_cmd read_heartbeat rd_u16 can_actuate
    on_transition handle_flap_cmd servo_tick
before = refl

after : mag (horn (servo_tick (run tripped back) full).0 2) ≡ 112
unfolding run Run.step id_type read_flap_cmd tick_cb tick safety_rx on_heartbeat note_mode_set
    note_cmd elapsed on_mode_set read_mode_set on_cmd read_heartbeat rd_u16 can_actuate
    on_transition handle_flap_cmd servo_tick powersuit.Base.Int.◌+ℤ◌ powersuit.Base.Int.◌-ℤ◌
    powersuit.Bytes.to_i16
after = refl

not_passive : operational ≢ passive
not_passive e = cc

away_needs_example : ((run tripped back).node.core.state ≡ operational) × IsOrdered 2 back
away_needs_example =
    away_needs wings 1060 timer back full 2 refl (λ e. not_passive (e ∙ tripped_passive))
      (subst IsTrip (sym tripped_passive) tt) (omega arith) (omega (arith, before, after))

in_middle : (n i : ℕ) → get_or (replicate n (pos 0)) i (pos 0) ≡ pos 0
in_middle zero i = refl
in_middle (suc n) zero = refl
in_middle (suc n) (suc i) = in_middle n i

at_zero : (i : ℕ) (z : ℤ) → z ≡ pos 0 → InEnvelope i z
at_zero i z e = let v = cfg_of-CfgIsValid i in subst (InEnvelope i) (sym e) (v.low.1, v.high.0)

wings-InEnvelope : (i : ℕ) → InEnvelope i (horn wings i)
wings-InEnvelope zero = omega arith
wings-InEnvelope (suc zero) = omega arith
wings-InEnvelope (suc (suc zero)) = omega arith
wings-InEnvelope (suc (suc (suc i))) = at_zero (suc (suc (suc i))) _ (in_middle 9 i)

wings-IsSafe : IsSafe wings
wings-IsSafe = record {
  horns = λ i h. wings-InEnvelope i;
  pairs = (omega arith, (omega arith, (omega arith, (omega arith, tt))));
}

run_limits_example :
    IsSafe (servo_tick (run wings back) full).0
    × (900 ≤ get_or (servo_tick (run wings back) full).1 2 0)
    × (get_or (servo_tick (run wings back) full).1 2 0 ≤ 2100)
    × Near
        (allowed (run wings back) 2)
        (horn (run wings back) 2)
        (horn (servo_tick (run wings back) full).0 2)
run_limits_example = run_limits wings back full 2 wings-IsSafe (λ p. omega arith) (omega arith)

-- The node does not hear the bus: the gate is shut.
abbrev silent : Flight
silent = record wings {
  node = record wings.node { core = record wings.node.core { state = passive } };
}

-- With the gate shut, a round takes twelve permille; the command in between has no effect.
abbrev rest_of : ℕ → List (ℕ × Input)
rest_of zero = []
rest_of (suc n) = (1200, servo full) ∷ rest_of n

silent-IsSafe : IsSafe silent
silent-IsSafe = record { horns = wings-IsSafe.horns; pairs = wings-IsSafe.pairs }

rest_of-StaysShut : (n : ℕ) (f : Flight) → can_actuate f.node ≡ false → StaysShut f (rest_of n)
unfolding Run.step servo_tick
rest_of-StaysShut zero f e = e
rest_of-StaysShut (suc n) f e = (e, rest_of-StaysShut n (Run.step f 1200 (servo full)) e)

full-Rate : Rate 10 full
full-Rate p h = inr (ground arith)

rest_of-Rates : (n : ℕ) → Rates 10 (rest_of n)
rest_of-Rates zero = tt
rest_of-Rates (suc n) = (full-Rate, rest_of-Rates n)

silent_shut : can_actuate silent.node ≡ false
unfolding can_actuate
silent_shut = refl

shut_neutral_example :
    (horn (run silent (rest_of 100)) 2 ≡ pos 0)
    × (get_or (servo_tick (run silent (rest_of 100)) full).1 2 0 ≡ 1500)
shut_neutral_example =
    shut_neutral silent (rest_of 100) 10 full 2 silent-IsSafe
      (rest_of-StaysShut 100 silent silent_shut) (rest_of-Rates 100) (omega arith) (omega arith)

-- Flaps 0 and 1 at their most, on the way to other places at the same rate.
abbrev spread : Flight
spread = record wings {
  targets =
      set (set wings.targets 0 (record { pos_pm = pos 500; rate_lim = 50; brake = false })) 1
        (record { pos_pm = pos 900; rate_lim = 50; brake = false });
  cur_pm = set (set wings.cur_pm 0 (pos 700)) 1 (pos 700);
}

abbrev top_pair : Pair
top_pair = record { a = 0; b = 1; joint_max_sum_pm = 1400 }

even_pairs_example : HornsKept top_pair (run spread (rest_of 1))
even_pairs_example = even_pairs 0 top_pair refl spread (rest_of 1) (omega arith) (refl, tt)

-- With a command for the first that is slower, the flaps pass their sum: the exclusion holds for their targets only.
abbrev uneven : Flight
uneven = record spread {
  targets = set spread.targets 0 (record { pos_pm = pos 500; rate_lim = 1; brake = false });
}

uneven_exceeds : let f = run uneven (rest_of 1) in mag (horn f 0) + mag (horn f 1) ≡ 1404
unfolding run Run.step can_actuate servo_tick powersuit.Base.Int.◌+ℤ◌ powersuit.Base.Int.◌-ℤ◌
uneven_exceeds = refl
