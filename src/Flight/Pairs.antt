-- ===== src/Flight/Pairs.antt =====
-- node_flight: the sum of two overlapping flaps on the horns themselves, not only in the targets.
use powersuit.Base.{
  ℕ, zero, suc, ◌+◌, ◌≤◌, ◌≡◌, refl, ap, subst, ◌∙◌, arith, Bool, some, List, [], ◌∷◌, get_or,
  get_elem?, All,
}
use powersuit.Base.Int.{pos, mag}
use powersuit.SafetyNode.{can_actuate, safety_rx, tick_cb, can_state_cb}
use powersuit.Flight.{
  Flight, FlapCfg, Pair, Target, flap_pairs, cfg_of, target_of, horn, control_rx, heard,
}
use powersuit.Flight.Servo.{slew, slew_step, servo_tick}
use powersuit.Flight.Motion.{slew_pair}
use powersuit.Flight.Exclusion.{want_of, Kept, PairIsValid}
use powersuit.Flight.Run
use powersuit.Flight.Run.{
  Input, run, SameHorns, heard-SameHorns, control_rx-SameHorns, control_frame, safety_frame, timer,
  bus_state, servo,
}
use powersuit.Flight.Tick.{wants, excluded, step_of, horn_is, pairs-PairIsValid}

-- In each round of the servo task both flaps have targets with the same rate.
abbrev pub EvenRates : Pair → Flight → List (ℕ × Input) → Type 0
EvenRates p f [] = Unit {0}
EvenRates p f ((now, control_frame frame) ∷ is) =
    EvenRates p (Run.step f now (control_frame frame)) is
EvenRates p f ((now, safety_frame frame) ∷ is) =
    EvenRates p (Run.step f now (safety_frame frame)) is
EvenRates p f ((now, timer) ∷ is) = EvenRates p (Run.step f now timer) is
EvenRates p f ((now, bus_state st) ∷ is) = EvenRates p (Run.step f now (bus_state st)) is
EvenRates p f ((now, servo scale) ∷ is) =
    ((target_of f p.a).rate_lim ≡ (target_of f p.b).rate_lim)
    × EvenRates p (Run.step f now (servo scale)) is

abbrev pub HornsKept : Pair → Flight → Type 0
HornsKept p f = mag (horn f p.a) + mag (horn f p.b) ≤ p.joint_max_sum_pm

picked :
    (P : Pair → Type 0) (ps : List Pair) (k : ℕ) {p : Pair}
    → All P ps
    → get_elem? ps k ≡ some p
    → P p
picked P [] k h e = cc
picked P (q ∷ ps) zero {p} h e = let same : q ≡ p = cc in subst P same h.0
picked P (q ∷ ps) (suc k) h e = picked P ps k h.1 e

-- The flaps of a pair are of one kind.
abbrev OneKind : Pair → Type 0
OneKind p = cfg_of p.a ≡ cfg_of p.b

one_kind : All OneKind flap_pairs
one_kind = (refl, (refl, (refl, (refl, tt))))

same_step :
    (scale : ℕ → ℕ) (c : FlapCfg) (b : Bool) (s t : Target)
    → s.rate_lim ≡ t.rate_lim
    → slew_step scale c b s ≡ slew_step scale c b t
unfolding slew_step
same_step scale c b s t e = ap (λ r. slew_step scale c b (record t { rate_lim = r })) e

module _ (k : ℕ) (p : Pair) (there : get_elem? flap_pairs k ≡ some p) where
  servo-HornsKept :
      (f : Flight) (scale : ℕ → ℕ)
      → (target_of f p.a).rate_lim ≡ (target_of f p.b).rate_lim
      → HornsKept p f
      → HornsKept p (servo_tick f scale).0
  servo-HornsKept f scale even h =
      let v = picked PairIsValid flap_pairs k pairs-PairIsValid there in
      let kind = picked OneKind flap_pairs k one_kind there in
      let aims = picked (Kept (wants f)) flap_pairs k (excluded f).0 there in
      let step : step_of f scale p.a ≡ step_of f scale p.b =
        ap (λ c. slew_step scale c (can_actuate f.node) (target_of f p.a)) kind
        ∙ same_step scale (cfg_of p.b) (can_actuate f.node) (target_of f p.a) (target_of f p.b)
            even in
      let first : horn (servo_tick f scale).0 p.a
          ≡ slew (step_of f scale p.b) (horn f p.a) (want_of (wants f) p.a) =
        horn_is f scale p.a v.1 ∙ ap (λ s. slew s (horn f p.a) (want_of (wants f) p.a)) step in
      omega (
        arith,
        ap mag first,
        ap mag (horn_is f scale p.b v.2),
        slew_pair (step_of f scale p.b) (horn f p.a) (horn f p.b) (want_of (wants f) p.a)
            (want_of (wants f) p.b) p.joint_max_sum_pm h aims,
      )

  same-HornsKept : (f f' : Flight) → HornsKept p f → SameHorns f f' → HornsKept p f'
  same-HornsKept f f' h (e, _) =
      omega (
        arith,
        h,
        ap (λ xs. mag (get_or xs p.a (pos 0))) e,
        ap (λ xs. mag (get_or xs p.b (pos 0))) e,
      )

  -- A pair of the table whose flaps are within its sum stays within it, whatever frames, ticks and bus states come, as long as
  -- both flaps have targets with the same rate in every round of the servo task.
  pub even_pairs :
      (f : Flight) (is : List (ℕ × Input))
      → HornsKept p f
      → EvenRates p f is
      → HornsKept p (run f is)
  unfolding run
  even_pairs f [] h e = h
  even_pairs f ((now, i) ∷ is) h e = even_pairs (Run.step f now i) is (one i e) (after i e)
    where
      after : (i : Input) → EvenRates p f ((now, i) ∷ is) → EvenRates p (Run.step f now i) is
      after (control_frame frame) e = e
      after (safety_frame frame) e = e
      after timer e = e
      after (bus_state st) e = e
      after (servo scale) e = e.1

      one : (i : Input) → EvenRates p f ((now, i) ∷ is) → HornsKept p (Run.step f now i)
      one (control_frame frame) e =
          unfold Run.step in
          same-HornsKept f (control_rx f now frame) h (control_rx-SameHorns f now frame)
      one (safety_frame frame) e =
          unfold Run.step in
          same-HornsKept f (heard f (safety_rx f.node now frame)) h
            (heard-SameHorns f (safety_rx f.node now frame))
      one timer e =
          unfold Run.step in
          same-HornsKept f (heard f (tick_cb f.node now)) h (heard-SameHorns f (tick_cb f.node now))
      one (bus_state st) e =
          unfold Run.step in
          same-HornsKept f (heard f (can_state_cb f.node now st)) h
            (heard-SameHorns f (can_state_cb f.node now st))
      one (servo scale) e = unfold Run.step in servo-HornsKept f scale e.0 h
