-- ===== src/Flight/Limits.antt =====
-- node_flight: no flap leaves its envelope, its pulses and its rate, and no pair of targets its sum.
use powersuit.Base.{
  ℕ, ◌+◌, ◌*◌, ◌/◌, ◌≤◌, ◌<◌, ◌≡◌, refl, sym, ap, subst, arith, Bool, true, false, ◌&&◌, ltb,
  if◌then◌else◌, List, [], ◌∷◌, get_or, All,
}
use powersuit.Base.Int.{ℤ, pos, mag, pos_part, neg_part}
use powersuit.SafetyNode.{can_actuate, safety_rx, tick_cb, can_state_cb}
use powersuit.Flight.{Flight, Pair, flap_pairs, cfg_of, target_of, horn}
use powersuit.Flight.Servo.{servo_tick}
use powersuit.Flight.Motion.{slew-Between, slew_bound, slew_step_bounds, flap_write_bounds}
use powersuit.Flight.Exclusion.{want_of}
use powersuit.Flight.Run
use powersuit.Flight.Run.{
  Input, run, SameHorns, heard-SameHorns, control_rx-SameHorns, control_frame, safety_frame, timer,
  bus_state, servo,
}
use powersuit.Flight.Tick.{
  InEnvelope, unknown, wants, cfg_of-CfgIsValid, wants-InEnvelope, excluded, step_of, horn_is,
  pulse_is, target_is,
}

-- The place that a flap is on its way to.
abbrev pub aim : Flight → ℕ → ℤ
aim f i = (get_or f.states i unknown).target_pm

abbrev pub AimsKept : Flight → Pair → Type 0
AimsKept f p = mag (aim f p.a) + mag (aim f p.b) ≤ p.joint_max_sum_pm

-- Every flap is in its envelope, and every pair of targets within its sum.
pub record IsSafe (f : Flight) : Type 0 where
  pub horns : (i : ℕ) → i < 12 → InEnvelope i (horn f i)
  pub pairs : All (AimsKept f) flap_pairs

same-IsSafe : {f : Flight} (f' : Flight) → SameHorns f f' → IsSafe f → IsSafe f'
same-IsSafe f' (a, b) s = record {
  horns = λ i h. subst (λ xs. InEnvelope i (get_or xs i (pos 0))) (sym a) (s.horns i h);
  pairs =
      subst
        (λ xs.
          All
            (λ (p : Pair).
              mag (get_or xs p.a unknown).target_pm + mag (get_or xs p.b unknown).target_pm
              ≤ p.joint_max_sum_pm)
            flap_pairs)
        (sym b) s.pairs;
}

servo-IsSafe : (f : Flight) (scale : ℕ → ℕ) → IsSafe f → IsSafe (servo_tick f scale).0
servo-IsSafe f scale s = record {
  horns = λ i h. subst (InEnvelope i) (sym (horn_is f scale i h)) (
      slew-Between (step_of f scale i) (horn f i) (want_of (wants f) i) (cfg_of i).env_min_pm
        (cfg_of i).env_max_pm (s.horns i h) (wants-InEnvelope f i h));
  pairs =
      let kept = (excluded f).0 in
      (
        aims 0 1 (omega arith) kept.0,
        (
          aims 2 3 (omega arith) kept.1.0,
          (aims 6 7 (omega arith) kept.1.1.0, (aims 8 9 (omega arith) kept.1.1.1.0, tt)),
        ),
      );
}
  where
    aims :
        (a b : ℕ) {most : ℕ}
        → (a < 12) × (b < 12)
        → mag (want_of (wants f) a) + mag (want_of (wants f) b) ≤ most
        → mag (aim (servo_tick f scale).0 a) + mag (aim (servo_tick f scale).0 b) ≤ most
    aims a b (p, q) h =
        omega (arith, h, ap mag (target_is f scale a p), ap mag (target_is f scale b q))

pub step-IsSafe : {f : Flight} (now : ℕ) (i : Input) → IsSafe f → IsSafe (Run.step f now i)
unfolding Run.step
step-IsSafe {f} now (control_frame frame) s =
    same-IsSafe (Run.step f now (control_frame frame)) (control_rx-SameHorns f now frame) s
step-IsSafe {f} now (safety_frame frame) s =
    same-IsSafe (Run.step f now (safety_frame frame))
      (heard-SameHorns f (safety_rx f.node now frame)) s
step-IsSafe {f} now timer s =
    same-IsSafe (Run.step f now timer) (heard-SameHorns f (tick_cb f.node now)) s
step-IsSafe {f} now (bus_state st) s =
    same-IsSafe (Run.step f now (bus_state st)) (heard-SameHorns f (can_state_cb f.node now st)) s
step-IsSafe {f} now (servo scale) s = servo-IsSafe f scale s

pub run-IsSafe : (f : Flight) (is : List (ℕ × Input)) → IsSafe f → IsSafe (run f is)
unfolding run
run-IsSafe f [] s = s
run-IsSafe f ((now, i) ∷ is) s = run-IsSafe (Run.step f now i) is (step-IsSafe now i s)

-- The two are at most so far apart.
abbrev pub Near : ℕ → ℤ → ℤ → Type 0
Near m x y =
    (pos_part y + neg_part x ≤ neg_part y + pos_part x + m)
    × (neg_part y + pos_part x ≤ pos_part y + neg_part x + m)

moved :
    (f : Flight) (scale : ℕ → ℕ) (i : ℕ)
    → i < 12
    → (m : ℕ) → step_of f scale i ≤ m
    → Near m (horn f i) (horn (servo_tick f scale).0 i)
moved f scale i h m less =
    subst (Near m (horn f i)) (sym (horn_is f scale i h))
      (omega (arith, slew_bound (step_of f scale i) (horn f i) (want_of (wants f) i), less))

-- How far a flap may move in a round: 25 permille, and little more than a tenth of the rate of a command that is obeyed.
abbrev pub allowed : Flight → ℕ → ℕ
allowed f i =
    let rate = (target_of f i).rate_lim in
    if can_actuate f.node && ltb 0 rate && ltb (1 + rate / 10) 25 then 1 + rate / 10 else 25

step_allowed :
    (f : Flight) (scale : ℕ → ℕ) (i : ℕ)
    → ((p : ℕ) → scale p ≤ 10 * p)
    → step_of f scale i ≤ allowed f i
step_allowed f scale i slow =
    let t = target_of f i in
    let (_, most, own) =
      slew_step_bounds scale (cfg_of i) (can_actuate f.node) t (cfg_of-CfgIsValid i) slow in
    by_cases (can_actuate f.node) (step_of f scale i) t.rate_lim most own
  where
    by_cases :
        (b : Bool) (s r : ℕ)
        → s ≤ 25
        → (b ≡ true → 0 < r → s ≤ 1 + r / 10)
        → s ≤ (if b && ltb 0 r && ltb (1 + r / 10) 25 then 1 + r / 10 else 25)
    by_cases false s r most own = most
    by_cases true s r most own = let own' = own refl in ground arith

-- From wings within their limits: whatever frames, ticks and bus states came, in any order, the next round of the servo task leaves
-- every flap in its envelope and every pair of targets within its sum, writes pulses in their mechanical range, and moves no flap, at
-- a `rate_scale` of at most 1, by more than 25 permille, nor by more than 1 + a tenth of the rate of a command that is obeyed.
pub run_limits :
    (f : Flight) (is : List (ℕ × Input)) (scale : ℕ → ℕ) (i : ℕ)
    → IsSafe f
    → ((p : ℕ) → scale p ≤ 10 * p)
    → i < 12
    → let g = run f is in
      let (g', pulses) = servo_tick g scale in
      IsSafe g'
      × ((cfg_of i).pulse_min_us ≤ get_or pulses i 0)
      × (get_or pulses i 0 ≤ (cfg_of i).pulse_max_us)
      × Near (allowed g i) (horn g i) (horn g' i)
run_limits f is scale i s slow h =
    let g = run f is in
    let (low, high) =
      flap_write_bounds (cfg_of i) (horn (servo_tick g scale).0 i) (cfg_of-CfgIsValid i) in
    (
      servo-IsSafe g scale (run-IsSafe f is s),
      omega (arith, low, pulse_is g scale i h),
      omega (arith, high, pulse_is g scale i h),
      moved g scale i h (allowed g i) (step_allowed g scale i slow),
    )
