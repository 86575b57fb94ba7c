-- ===== src/Flight/Motion.antt =====
-- servo_task.c: one flap in one tick, its step and its pulse.
use powersuit.Base.{
  ℕ, ◌+◌, ◌-◌, ◌*◌, ◌/◌, ◌≤◌, ◌<◌, ◌≡◌, refl, arith, inl, inr, ◌⊎◌, Bool, true, false, ltb, ltb→lt,
  Bool-cases,
}
use powersuit.Base.Int.{
  ℤ, pos, negsuc, sub_ℕ, ◌-ℤ◌, ◌≤ℤ◌, ltb_ℤ, mag, pos_part, neg_part, +ℤ_parts, -ℤ_parts,
}
use powersuit.Flight.{FlapCfg, Target, clamp_pm}
use powersuit.Flight.Servo.{reduce, slew, slew_pct, slew_step, flap_write}

abbrev pub Between : ℤ → ℤ → ℤ → Type 0
Between lo hi z = (lo ≤ℤ z) × (z ≤ℤ hi)

-- A flap may be neutral, its pulses are in order, its throw is at most 1000 permille and its rates from 100 to 250 % a second.
pub record CfgIsValid (c : FlapCfg) : Type 0 where
  pub low : Between (negsuc 999) (pos 0) c.env_min_pm
  pub high : Between (pos 0) (pos 1000) c.env_max_pm
  pub pulse_low : c.pulse_min_us ≤ c.pulse_neutral_us
  pub pulse_high : c.pulse_neutral_us ≤ c.pulse_max_us
  pub rate :
      (100 ≤ c.slew_default_pct_s)
      × (c.slew_default_pct_s ≤ c.slew_max_pct_s)
      × (c.slew_max_pct_s ≤ 250)

pub clamp_pm-Between : (v lo hi : ℤ) → lo ≤ℤ pos 0 → pos 0 ≤ℤ hi → Between lo hi (clamp_pm v lo hi)
clamp_pm-Between v lo hi a b = ground arith

pub mag-reduce : (cut : ℕ) (z : ℤ) → mag (reduce cut z) ≡ mag z - cut
mag-reduce cut (pos n) = refl
mag-reduce cut (negsuc n) = ground arith

pub reduce-Between :
    (cut : ℕ) (z lo hi : ℤ)
    → lo ≤ℤ pos 0
    → pos 0 ≤ℤ hi
    → Between lo hi z
    → Between lo hi (reduce cut z)
reduce-Between cut (pos n) lo hi a b h = omega arith
reduce-Between cut (negsuc n) lo hi a b h = ground arith

one_part : (z : ℤ) → (pos_part z ≡ 0) ⊎ (neg_part z ≡ 0)
one_part (pos n) = inr refl
one_part (negsuc n) = inl refl

mag_parts : (z : ℤ) → mag z ≡ pos_part z + neg_part z
mag_parts (pos n) = omega arith
mag_parts (negsuc n) = omega arith

minus_parts : (s : ℕ) → (pos_part (sub_ℕ 0 s) ≡ 0) × (neg_part (sub_ℕ 0 s) ≡ s)
minus_parts s = ground arith

-- A whole step down or up, towards a place that is further away, or the place itself, which is not further than a step.
abbrev Steps : ℕ → ℤ → ℤ → ℤ → Type 0
Steps s x w r =
    ((pos_part r + neg_part x + s ≡ neg_part r + pos_part x)
      × (pos_part w + neg_part x + s < neg_part w + pos_part x))
    ⊎ ((pos_part r + neg_part x ≡ neg_part r + pos_part x + s)
        × (neg_part w + pos_part x + s < pos_part w + neg_part x))
    ⊎ ((pos_part r + neg_part w ≡ neg_part r + pos_part w)
        × (pos_part w + neg_part x ≤ neg_part w + pos_part x + s)
        × (neg_part w + pos_part x ≤ pos_part w + neg_part x + s))

slew-Steps : (s : ℕ) (x w : ℤ) → Steps s x w (slew s x w)
unfolding slew
slew-Steps s x w = elim (Bool-cases (ltb_ℤ (w -ℤ x) (sub_ℕ 0 s))) [
  | inl far ↦
      rw far
        (inl (omega (arith, minus_parts s, -ℤ_parts w x, +ℤ_parts x (sub_ℕ 0 s), ltb→lt _ _ far)))
  | inr near ↦ rw near (elim (Bool-cases (ltb_ℤ (pos s) (w -ℤ x))) [
    | inl far ↦ rw far (inr (inl (omega (arith, -ℤ_parts w x, +ℤ_parts x (pos s), ltb→lt _ _ far))))
    | inr there ↦ rw there (
        inr (
          inr (
            omega (
              arith,
              minus_parts s,
              -ℤ_parts w x,
              +ℤ_parts x (w -ℤ x),
              not_ltb _ _ near,
              not_ltb _ _ there,
            ))))
  ])
]
  where
    not_ltb : (a b : ℕ) → ltb a b ≡ false → b ≤ a
    not_ltb a b h = ground arith

-- The step does not leave the interval from here to there.
pub slew-Between :
    (s : ℕ) (x w lo hi : ℤ) → Between lo hi x → Between lo hi w → Between lo hi (slew s x w)
slew-Between s x w lo hi a b = omega (arith, slew-Steps s x w)

-- It is at most as long as allowed.
pub slew_bound :
    (s : ℕ) (x w : ℤ)
    → (pos_part (slew s x w) + neg_part x ≤ neg_part (slew s x w) + pos_part x + s)
      × (neg_part (slew s x w) + pos_part x ≤ pos_part (slew s x w) + neg_part x + s)
slew_bound s x w = omega (arith, slew-Steps s x w)

-- The magnitude is at most that of the place to go to, or falls by the whole step; it never grows by more than a step.
slew_toward :
    (s : ℕ) (x w : ℤ)
    → ((mag (slew s x w) ≤ mag w) ⊎ (mag (slew s x w) + s ≡ mag x)) × (mag (slew s x w) ≤ mag x + s)
slew_toward s x w =
    parts (one_part x) (one_part w) (one_part (slew s x w)) (mag_parts x) (mag_parts w)
      (mag_parts (slew s x w)) (slew-Steps s x w)
  where
    parts :
        {px nx pw nw pr nr mx mw mr : ℕ}
        → (px ≡ 0) ⊎ (nx ≡ 0)
        → (pw ≡ 0) ⊎ (nw ≡ 0)
        → (pr ≡ 0) ⊎ (nr ≡ 0)
        → mx ≡ px + nx
        → mw ≡ pw + nw
        → mr ≡ pr + nr
        → ((pr + nx + s ≡ nr + px) × (pw + nx + s < nw + px))
          ⊎ ((pr + nx ≡ nr + px + s) × (nw + px + s < pw + nx))
          ⊎ ((pr + nw ≡ nr + pw) × (pw + nx ≤ nw + px + s) × (nw + px ≤ pw + nx + s))
        → ((mr ≤ mw) ⊎ (mr + s ≡ mx)) × (mr ≤ mx + s)
    parts a b c d e f h = ground arith

-- Towards neutral the magnitude falls by the step.
pub slew_home : (s : ℕ) (x : ℤ) → mag (slew s x (pos 0)) ≡ mag x - s
slew_home s x = omega (
  arith,
  slew-Steps s x (pos 0),
  one_part x,
  one_part (slew s x (pos 0)),
  mag_parts x,
  mag_parts (slew s x (pos 0)),
)

-- With one step for both, two flaps that are within their sum stay within it on the way to places that are.
pub slew_pair :
    (s : ℕ) (x y v w : ℤ) (most : ℕ)
    → mag x + mag y ≤ most
    → mag v + mag w ≤ most
    → mag (slew s x v) + mag (slew s y w) ≤ most
slew_pair s x y v w most a b = omega (arith, slew_toward s x v, slew_toward s y w)

pub flap_write_bounds :
    (c : FlapCfg) (z : ℤ)
    → CfgIsValid c
    → (c.pulse_min_us ≤ flap_write c z) × (flap_write c z ≤ c.pulse_max_us)
unfolding flap_write
flap_write_bounds c z v = ground arith

pub flap_write_home : (c : FlapCfg) → CfgIsValid c → flap_write c (pos 0) ≡ c.pulse_neutral_us
unfolding flap_write
flap_write_home c v = ground arith

-- The step is at least 1; at a `rate_scale` of at most 1 it is at most 25, and at most a tenth of a command's rate.
pub slew_step_bounds :
    (scale : ℕ → ℕ) (c : FlapCfg) (can_act : Bool) (t : Target)
    → CfgIsValid c
    → ((p : ℕ) → scale p ≤ 10 * p)
    → (1 ≤ slew_step scale c can_act t)
      × (slew_step scale c can_act t ≤ 25)
      × (can_act ≡ true → 0 < t.rate_lim → slew_step scale c can_act t ≤ 1 + t.rate_lim / 10)
unfolding slew_step
slew_step_bounds scale c can_act t v h =
    let (most, own) = pct c can_act t in
    let less = h (slew_pct c can_act t) in
    (ground arith, ground (arith, v.rate), λ act lim. ground (arith, own act lim))
  where
    pct :
        (c : FlapCfg) (b : Bool) (t : Target)
        → (slew_pct c b t ≤ c.slew_max_pct_s)
          × (b ≡ true → 0 < t.rate_lim → slew_pct c b t ≤ t.rate_lim)
    pct c true t = ground arith
    pct c false t = ground arith
