-- ===== src/Flight/Tick.antt =====
-- servo_task.c: what a round of the servo task does to each flap.
use powersuit.Base.{
  ℕ, zero, suc, ◌≤◌, ◌<◌, ◌≡◌, sym, ap, subst, arith, false, length-tabulate, get_or,
  get_or-tabulate, All,
}
use powersuit.Base.Int.{ℤ, pos, negsuc, mag}
use powersuit.SafetyNode.{can_actuate}
use powersuit.Flight.{Flight, FlapState, FlapCfg, flap_pairs, cfg_of, target_of, horn}
use powersuit.Flight.Servo.{
  Wants, asked, enveloped, clamp_targets, exclude_all, slew, slew_step, flap_write, servo_tick,
}
use powersuit.Flight.Motion.{Between, CfgIsValid, clamp_pm-Between}
use powersuit.Flight.Exclusion.{want_of, PairIsValid, Kept, Alone, Shrinks, exclude_all-Kept}

pub cfg_of-CfgIsValid : (i : ℕ) → CfgIsValid (cfg_of i)
cfg_of-CfgIsValid zero = omega arith
cfg_of-CfgIsValid (suc zero) = omega arith
cfg_of-CfgIsValid (suc (suc zero)) = omega arith
cfg_of-CfgIsValid (suc (suc (suc zero))) = omega arith
cfg_of-CfgIsValid (suc (suc (suc (suc zero)))) = omega arith
cfg_of-CfgIsValid (suc (suc (suc (suc (suc zero))))) = omega arith
cfg_of-CfgIsValid (suc (suc (suc (suc (suc (suc zero)))))) = omega arith
cfg_of-CfgIsValid (suc (suc (suc (suc (suc (suc (suc zero))))))) = omega arith
cfg_of-CfgIsValid (suc (suc (suc (suc (suc (suc (suc (suc zero)))))))) = omega arith
cfg_of-CfgIsValid (suc (suc (suc (suc (suc (suc (suc (suc (suc zero))))))))) = omega arith
cfg_of-CfgIsValid (suc (suc (suc (suc (suc (suc (suc (suc (suc (suc zero)))))))))) = omega arith
cfg_of-CfgIsValid (suc (suc (suc (suc (suc (suc (suc (suc (suc (suc (suc zero))))))))))) =
    omega arith
cfg_of-CfgIsValid (suc (suc (suc (suc (suc (suc (suc (suc (suc (suc (suc (suc i)))))))))))) =
    omega arith

abbrev pub InEnvelope : ℕ → ℤ → Type 0
InEnvelope i z = Between (cfg_of i).env_min_pm (cfg_of i).env_max_pm z

pub at_most_1000 :
    (c : FlapCfg) (z : ℤ) → CfgIsValid c → Between c.env_min_pm c.env_max_pm z → mag z ≤ 1000
at_most_1000 c (pos n) v h = omega (arith, v.high, v.low)
at_most_1000 c (negsuc n) v h = omega (arith, v.high, v.low)

abbrev pub wants : Flight → Wants
wants f = exclude_all (clamp_targets f (can_actuate f.node)) flap_pairs

-- The places in the targets of the table's pairs.
pub pairs-PairIsValid : All PairIsValid flap_pairs
pairs-PairIsValid = omega arith

abbrev pub unknown : FlapState
unknown = record { pos_pm = pos 0; target_pm = pos 0; at_limit = false }

module _ (f : Flight) where
  pub clamped_is :
      (i : ℕ)
      → i < 12
      → want_of (clamp_targets f (can_actuate f.node)) i
        ≡ enveloped (cfg_of i) (can_actuate f.node) (target_of f i)
  unfolding clamp_targets
  clamped_is i h =
      get_or-tabulate 12 (λ k. enveloped (cfg_of k) (can_actuate f.node) (target_of f k)) i (pos 0)
        h

  clamped-InEnvelope :
      (i : ℕ) → i < 12 → InEnvelope i (want_of (clamp_targets f (can_actuate f.node)) i)
  clamped-InEnvelope i h =
      let v = cfg_of-CfgIsValid i in
      subst (InEnvelope i) (sym (clamped_is i h)) (
        clamp_pm-Between (asked (cfg_of i) (can_actuate f.node) (target_of f i))
          (cfg_of i).env_min_pm (cfg_of i).env_max_pm v.low.1 v.high.0)

  clamped_mag : (i : ℕ) → i < 12 → mag (want_of (clamp_targets f (can_actuate f.node)) i) ≤ 1000
  clamped_mag i h = at_most_1000 (cfg_of i) _ (cfg_of-CfgIsValid i) (clamped-InEnvelope i h)

  pub excluded :
      All (Kept (wants f)) flap_pairs × Shrinks (clamp_targets f (can_actuate f.node)) (wants f)
  unfolding clamp_targets
  excluded =
      exclude_all-Kept (clamp_targets f (can_actuate f.node)) flap_pairs pairs-PairIsValid
        (length-tabulate 12 (λ k. enveloped (cfg_of k) (can_actuate f.node) (target_of f k)))
        (
          pair 0 1 1400 (omega arith),
          (
            pair 2 3 1600 (omega arith),
            (pair 6 7 1400 (omega arith), (pair 8 9 1600 (omega arith), tt)),
          ),
        )
    where
      pair :
          (a b most : ℕ)
          → (a < 12) × (b < 12) × (1000 ≤ most)
          → Alone
              (clamp_targets f (can_actuate f.node))
              (record { a = a; b = b; joint_max_sum_pm = most })
      pair a b most (p, q, h) =
          (omega (arith, h, clamped_mag a p), omega (arith, h, clamped_mag b q))

  pub wants-InEnvelope : (i : ℕ) → i < 12 → InEnvelope i (want_of (wants f) i)
  wants-InEnvelope i h =
      let v = cfg_of-CfgIsValid i in
      excluded.1.inside i (cfg_of i).env_min_pm (cfg_of i).env_max_pm v.low.1 v.high.0
        (clamped-InEnvelope i h)

  module _ (scale : ℕ → ℕ) where
    abbrev pub step_of : ℕ → ℕ
    step_of i = slew_step scale (cfg_of i) (can_actuate f.node) (target_of f i)

    pub horn_is :
        (i : ℕ)
        → i < 12
        → horn (servo_tick f scale).0 i ≡ slew (step_of i) (horn f i) (want_of (wants f) i)
    unfolding servo_tick
    horn_is i h =
        get_or-tabulate 12 (λ k. slew (step_of k) (horn f k) (want_of (wants f) k)) i (pos 0) h

    pub pulse_is :
        (i : ℕ)
        → i < 12
        → get_or (servo_tick f scale).1 i 0 ≡ flap_write (cfg_of i) (horn (servo_tick f scale).0 i)
    unfolding servo_tick
    pulse_is i h =
        get_or-tabulate 12 (λ k. flap_write (cfg_of k) (horn (servo_tick f scale).0 k)) i 0 h

    pub target_is :
        (i : ℕ)
        → i < 12
        → (get_or (servo_tick f scale).0.states i unknown).target_pm ≡ want_of (wants f) i
    unfolding servo_tick
    target_is i h =
        ap (λ (st : FlapState). st.target_pm)
          (get_or-tabulate 12
            (λ k.
              let st : FlapState = record {
                pos_pm = horn (servo_tick f scale).0 k;
                target_pm = want_of (wants f) k;
                at_limit = get_or (wants f).limited k false;
              } in
              st)
            i unknown h)
