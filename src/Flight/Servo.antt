-- ===== src/Flight/Servo.antt =====
-- servo_task.c: the loop of the servo task, from the targets to the pulses.
use powersuit.Base.{
  ℕ, suc, ◌+◌, ◌-◌, ◌*◌, ◌/◌, Bool, true, false, not, ◌&&◌, ◌||◌, List, [], ◌∷◌, set, get_or,
  tabulate, ltb, ◌==◌, if◌then◌else◌,
}
use powersuit.Base.Int.{ℤ, pos, negsuc, sub_ℕ, ◌+ℤ◌, ◌-ℤ◌, eqb_ℤ, mag, pos_part}
use powersuit.SafetyNode.{can_actuate}
use powersuit.Flight.{
  Flight, FlapCfg, Pair, Target, FlapState, flap_count, flap_pairs, cfg_of, target_of, horn,
  clamp_pm,
}

-- The position that is asked for, before its clamp.
abbrev pub asked : FlapCfg → Bool → Target → ℤ
asked c can_act t = if not can_act then pos 0 else if t.brake then c.brake_pm else t.pos_pm

abbrev pub enveloped : FlapCfg → Bool → Target → ℤ
enveloped c can_act t = clamp_pm (asked c can_act t) c.env_min_pm c.env_max_pm

-- The arrays `want` and `limited`.
pub record Wants : Type 0 where
  pub want : List ℤ
  pub limited : List Bool

-- The first loop: the envelope.
unfoldable pub clamp_targets : Flight → Bool → Wants
clamp_targets f can_act = record {
  want = tabulate flap_count (λ i. enveloped (cfg_of i) can_act (target_of f i));
  limited = tabulate flap_count (λ i.
      let w = asked (cfg_of i) can_act (target_of f i) in
      let clamped = enveloped (cfg_of i) can_act (target_of f i) in
      not (eqb_ℤ clamped w)
      || eqb_ℤ clamped (cfg_of i).env_min_pm
      || eqb_ℤ clamped (cfg_of i).env_max_pm);
}

-- A magnitude is cut, down to 0; the sign stays.
abbrev pub reduce : ℕ → ℤ → ℤ
reduce cut (pos n) = pos (n - cut)
reduce cut (negsuc n) = sub_ℕ 0 (suc n - cut)

-- A round of the loop over the two members of a pair.
unfoldable pub pull : ℕ → Wants → ℕ → Wants
pull cut w f = record {
  want = set w.want f (reduce cut (get_or w.want f (pos 0)));
  limited = set w.limited f true;
}

-- A round of the second loop: the pairwise exclusion.
unfoldable pub exclude : Wants → Pair → Wants
unfolding pull
exclude w p =
    let sum = mag (get_or w.want p.a (pos 0)) + mag (get_or w.want p.b (pos 0)) in
    let cut = (sum - p.joint_max_sum_pm + 1) / 2 in
    if ltb p.joint_max_sum_pm sum then pull cut (pull cut w p.a) p.b else w

unfoldable pub exclude_all : Wants → List Pair → Wants
unfolding exclude
exclude_all w [] = w
exclude_all w (p ∷ ps) = exclude_all (exclude w p) ps

-- The step of a flap in one tick. `scale` is `(int32_t)((float)pct_s * 10.0f * rate_scale)`.
abbrev pub slew_pct : FlapCfg → Bool → Target → ℕ
slew_pct c can_act t =
    let pct =
      if can_act && (not (t.rate_lim == 0) && ltb t.rate_lim c.slew_default_pct_s)
      then t.rate_lim
      else c.slew_default_pct_s in
    if ltb c.slew_max_pct_s pct then c.slew_max_pct_s else pct

unfoldable pub slew_step : (ℕ → ℕ) → FlapCfg → Bool → Target → ℕ
slew_step scale c can_act t =
    let step = scale (slew_pct c can_act t) * 10 / 1000 in if ltb step 1 then 1 else step

unfoldable pub slew : ℕ → ℤ → ℤ → ℤ
slew step cur want = cur +ℤ clamp_pm (want -ℤ cur) (sub_ℕ 0 step) (pos step)

-- `flap_write`: the value of the comparator. The table has its pulses in their order, as have the differences here.
abbrev pub pulse_of : FlapCfg → ℤ → ℤ
pulse_of c (pos n) = pos (c.pulse_neutral_us + n * (c.pulse_max_us - c.pulse_neutral_us) / 1000)
pulse_of c (negsuc n) =
    sub_ℕ c.pulse_neutral_us (suc n * (c.pulse_neutral_us - c.pulse_min_us) / 1000)

unfoldable pub flap_write : FlapCfg → ℤ → ℕ
flap_write c pos_pm = pos_part (
    clamp_pm (pulse_of c (clamp_pm pos_pm c.env_min_pm c.env_max_pm)) (pos c.pulse_min_us)
      (pos c.pulse_max_us))

-- A round of the task with the rates that `scale` gives, and the values that go to the comparators.
unfoldable pub servo_tick : Flight → (ℕ → ℕ) → Flight × List ℕ
unfolding clamp_targets exclude_all slew_step slew flap_write
servo_tick f scale =
    let can_act = can_actuate f.node in
    let w = exclude_all (clamp_targets f can_act) flap_pairs in
    let next = tabulate flap_count (λ i.
      slew (slew_step scale (cfg_of i) can_act (target_of f i)) (horn f i)
        (get_or w.want i (pos 0))) in
    (
      record f {
        cur_pm = next;
        states = tabulate flap_count (λ i.
            let st : FlapState = record {
              pos_pm = get_or next i (pos 0);
              target_pm = get_or w.want i (pos 0);
              at_limit = get_or w.limited i false;
            } in
            st);
      },
      tabulate flap_count (λ i. flap_write (cfg_of i) (get_or next i (pos 0))),
    )
