-- ===== src/Flight/Neutral.antt =====
-- node_flight: with the gate of actuation shut the flaps go to neutral.
use powersuit.Base.{
  ℕ, ◌+◌, ◌-◌, ◌*◌, ◌/◌, ◌≤◌, ◌<◌, ◌≡◌, sym, ap, subst, ◌∙◌, arith, inl, ◌⊎◌, false, List, [], ◌∷◌,
  get_or, ltb, if◌then◌else◌,
}
use powersuit.Base.Int.{ℤ, pos, negsuc, mag}
use powersuit.SafetyNode.{can_actuate, safety_rx, tick_cb, can_state_cb}
use powersuit.Flight.{Flight, FlapCfg, Target, cfg_of, target_of, horn, clamp_pm}
use powersuit.Flight.Servo.{asked, clamp_targets, slew, slew_step, servo_tick, flap_write}
use powersuit.Flight.Motion.{CfgIsValid, slew_home, flap_write_home}
use powersuit.Flight.Exclusion.{want_of}
use powersuit.Flight.Run
use powersuit.Flight.Run.{
  Input, run, heard-SameHorns, control_rx-SameHorns, control_frame, safety_frame, timer, bus_state,
  servo,
}
use powersuit.Flight.Tick.{
  wants, cfg_of-CfgIsValid, clamped_is, excluded, step_of, horn_is, pulse_is, at_most_1000,
}
use powersuit.Flight.Limits.{IsSafe}

-- The gate is shut, now and after each of the inputs.
abbrev pub StaysShut : Flight → List (ℕ × Input) → Type 0
StaysShut f [] = can_actuate f.node ≡ false
StaysShut f ((now, i) ∷ is) = (can_actuate f.node ≡ false) × StaysShut (Run.step f now i) is

-- A rate at which the default of each flap is at least `m` permille in a round. The code steps by 1 at least.
abbrev pub Rate : ℕ → (ℕ → ℕ) → Type 0
Rate m scale = (p : ℕ) → 100 ≤ p → (m ≤ 1) ⊎ (m ≤ scale p * 10 / 1000)

-- So for every round of the servo task, and how many there are.
abbrev pub Rates : ℕ → List (ℕ × Input) → Type 0
Rates m [] = Unit {0}
Rates m ((now, control_frame frame) ∷ is) = Rates m is
Rates m ((now, safety_frame frame) ∷ is) = Rates m is
Rates m ((now, timer) ∷ is) = Rates m is
Rates m ((now, bus_state st) ∷ is) = Rates m is
Rates m ((now, servo scale) ∷ is) = Rate m scale × Rates m is

abbrev pub servo_rounds : List (ℕ × Input) → ℕ
servo_rounds [] = 0
servo_rounds ((now, control_frame frame) ∷ is) = servo_rounds is
servo_rounds ((now, safety_frame frame) ∷ is) = servo_rounds is
servo_rounds ((now, timer) ∷ is) = servo_rounds is
servo_rounds ((now, bus_state st) ∷ is) = servo_rounds is
servo_rounds ((now, servo scale) ∷ is) = 1 + servo_rounds is

pub is_zero : (z : ℤ) → mag z ≤ 0 → z ≡ pos 0
is_zero (pos n) h = let e : n ≡ 0 = omega arith in ap pos e
is_zero (negsuc n) h = absurd (omega arith)

centred : (c : FlapCfg) → CfgIsValid c → clamp_pm (pos 0) c.env_min_pm c.env_max_pm ≡ pos 0
centred c v = ground arith

-- A flap of which neutral is asked is on its way there.
want_home :
    (f : Flight) (i : ℕ)
    → i < 12
    → asked (cfg_of i) (can_actuate f.node) (target_of f i) ≡ pos 0
    → want_of (wants f) i ≡ pos 0
want_home f i h zero_asked =
    let clamped : want_of (clamp_targets f (can_actuate f.node)) i ≡ pos 0 =
      clamped_is f i h
      ∙ ap (λ z. clamp_pm z (cfg_of i).env_min_pm (cfg_of i).env_max_pm) zero_asked
      ∙ centred (cfg_of i) (cfg_of-CfgIsValid i) in
    is_zero (want_of (wants f) i) (omega (arith, (excluded f).1.smaller i, ap mag clamped))

pub home_is :
    (f : Flight) (scale : ℕ → ℕ) (i : ℕ)
    → i < 12
    → asked (cfg_of i) (can_actuate f.node) (target_of f i) ≡ pos 0
    → mag (horn (servo_tick f scale).0 i) ≡ mag (horn f i) - step_of f scale i
home_is f scale i h zero_asked =
    ap mag
      (horn_is f scale i h ∙ ap (slew (step_of f scale i) (horn f i)) (want_home f i h zero_asked))
    ∙ slew_home (step_of f scale i) (horn f i)

home_step :
    (scale : ℕ → ℕ) (m : ℕ) (c : FlapCfg) (t : Target)
    → CfgIsValid c
    → Rate m scale
    → m ≤ slew_step scale c false t
unfolding slew_step
home_step scale m c t v r = ground (
  arith,
  r (if ltb c.slew_max_pct_s c.slew_default_pct_s then c.slew_max_pct_s else c.slew_default_pct_s),
  v.rate,
)

module _ (m i : ℕ) (h : i < 12) where
  pub servo_home :
      (f : Flight) (scale : ℕ → ℕ)
      → can_actuate f.node ≡ false
      → Rate m scale
      → mag (horn (servo_tick f scale).0 i) ≤ mag (horn f i) - m
  servo_home f scale shut r =
      let far : m ≤ step_of f scale i =
        subst (λ b. m ≤ slew_step scale (cfg_of i) b (target_of f i)) (sym shut)
          (home_step scale m (cfg_of i) (target_of f i) (cfg_of-CfgIsValid i) r) in
      let neutral_asked : asked (cfg_of i) (can_actuate f.node) (target_of f i) ≡ pos 0 =
        ap (λ b. asked (cfg_of i) b (target_of f i)) shut in
      omega (arith, home_is f scale i h neutral_asked, far)

  run_home :
      (f : Flight) (is : List (ℕ × Input))
      → StaysShut f is
      → Rates m is
      → mag (horn (run f is) i) ≤ mag (horn f i) - m * servo_rounds is
  unfolding run Run.step
  run_home f [] s r = omega arith
  run_home f ((now, control_frame frame) ∷ is) (_, s) r = omega (
    arith,
    run_home (Run.step f now (control_frame frame)) is s r,
    ap (λ xs. mag (get_or xs i (pos 0))) (control_rx-SameHorns f now frame).0,
  )
  run_home f ((now, safety_frame frame) ∷ is) (_, s) r = omega (
    arith,
    run_home (Run.step f now (safety_frame frame)) is s r,
    ap (λ xs. mag (get_or xs i (pos 0))) (heard-SameHorns f (safety_rx f.node now frame)).0,
  )
  run_home f ((now, timer) ∷ is) (_, s) r = omega (
    arith,
    run_home (Run.step f now timer) is s r,
    ap (λ xs. mag (get_or xs i (pos 0))) (heard-SameHorns f (tick_cb f.node now)).0,
  )
  run_home f ((now, bus_state st) ∷ is) (_, s) r = omega (
    arith,
    run_home (Run.step f now (bus_state st)) is s r,
    ap (λ xs. mag (get_or xs i (pos 0))) (heard-SameHorns f (can_state_cb f.node now st)).0,
  )
  run_home f ((now, servo scale) ∷ is) (shut, s) (fast, r) =
      omega (arith, run_home (Run.step f now (servo scale)) is s r, servo_home f scale shut fast)

-- A run's last state has the gate shut as well.
shut_after :
    (f : Flight) (is : List (ℕ × Input)) → StaysShut f is → can_actuate (run f is).node ≡ false
unfolding run
shut_after f [] s = s
shut_after f ((now, i) ∷ is) (_, s) = shut_after (Run.step f now i) is s

-- Let the wings be within their limits and the gate of actuation stay shut, whatever frames, ticks and bus states come. When there
-- have been rounds of the servo task, at rates of `m` permille in a round or, for an `m` of 1, at any rate, for the whole throw of 1000
-- permille, every flap is in neutral, and so is its pulse of the next round.
pub shut_neutral :
    (f : Flight) (is : List (ℕ × Input)) (m : ℕ) (scale : ℕ → ℕ) (i : ℕ)
    → IsSafe f
    → StaysShut f is
    → Rates m is
    → i < 12
    → 1000 ≤ m * servo_rounds is
    → (horn (run f is) i ≡ pos 0)
      × (get_or (servo_tick (run f is) scale).1 i 0 ≡ (cfg_of i).pulse_neutral_us)
shut_neutral f is m scale i safe s r h enough =
    let v = cfg_of-CfgIsValid i in
    let there = is_zero (horn (run f is) i) (
      omega (
        arith,
        run_home m i h f is s r,
        enough,
        at_most_1000 (cfg_of i) (horn f i) v (safe.horns i h),
      )) in
    let slow : Rate 0 scale = λ p q. inl (omega arith) in
    let stays = servo_home 0 i h (run f is) scale (shut_after f is s) slow in
    let next : horn (servo_tick (run f is) scale).0 i ≡ pos 0 =
      is_zero _ (omega (arith, stays, ap mag there)) in
    (
      there,
      pulse_is (run f is) scale i h
          ∙ ap (flap_write (cfg_of i)) next
          ∙ flap_write_home (cfg_of i) v,
    )
