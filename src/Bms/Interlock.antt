-- ===== src/Bms/Interlock.antt =====
-- bms_task.c: when the trips and the short-circuit latch are cleared.
use powersuit.Base.{
  ◌≡◌, refl, sym, ap, ap₂, get_or, ◌∙◌, arith, Bool, true, false, not, ◌&&◌, ◌||◌, inl, inr, ◌⊎◌,
  if◌then◌else◌,
}
use powersuit.Wire.{State, standby}
use powersuit.Safety.{same}
use powersuit.Bms.{Bms}
use powersuit.Bms.Sense.{Scale}
use powersuit.Bms.Task.{Inputs, sampled, round}
use powersuit.Bms.Family.{deb_of, trip_of, IsSized}
use powersuit.Bms.Critical.{Fam, index}
use powersuit.Bms.Rounds.{rearms, round-Turn, sampled_lem}

-- What it takes to clear the latches in a round: a clear was accepted, the suit is in STANDBY, and, where a short is
-- latched or is told in this very round, the comparator is below its threshold and the gate driver has closed again.
abbrev pub MayRearm : Bms → Inputs → Type 0
MayRearm s i =
    (s.rearm_requested ≡ true)
    × (i.pins.mirror_state ≡ standby)
    × (((s.short_latched ≡ false) × ((i.notified && s.trip_flag) ≡ false))
        ⊎ ((i.pins.comp_above ≡ false) × (i.pins.kill_fb_closed ≡ true)))

is_standby : (st : State) → same st standby ≡ true → st ≡ standby
is_standby st h = ground arith

conditions :
    (asked latched fired above closed : Bool) (st : State)
    → ((asked && same st standby && (not (latched || fired) || (not above && closed))) ≡ true
        → (asked ≡ true)
          × (st ≡ standby)
          × (((latched ≡ false) × (fired ≡ false)) ⊎ ((above ≡ false) × (closed ≡ true))))
      × ((asked ≡ true)
            × (st ≡ standby)
            × (((latched ≡ false) × (fired ≡ false)) ⊎ ((above ≡ false) × (closed ≡ true)))
          → (asked && same st standby && (not (latched || fired) || (not above && closed))) ≡ true)
conditions asked latched fired above closed st = (λ h. only h, λ h. enough h.0 h.1 h.2)
  where
    only :
        (asked && same st standby && (not (latched || fired) || (not above && closed))) ≡ true
        → (asked ≡ true)
          × (st ≡ standby)
          × (((latched ≡ false) × (fired ≡ false)) ⊎ ((above ≡ false) × (closed ≡ true)))
    only h = ground arith

    enough :
        asked ≡ true
        → st ≡ standby
        → ((latched ≡ false) × (fired ≡ false)) ⊎ ((above ≡ false) × (closed ≡ true))
        → (asked && same st standby && (not (latched || fired) || (not above && closed))) ≡ true
    enough a e (inl (l, f)) = ground arith
    enough a e (inr (l, f)) = ground arith

pub rearms-MayRearm :
    (s : Bms) (k : Scale) (i : Inputs)
    → (rearms (sampled s k i).0 i.pins ≡ true → MayRearm s i)
      × (MayRearm s i → rearms (sampled s k i).0 i.pins ≡ true)
rearms-MayRearm s k i =
    let p = i.pins in
    let (_, _, asked, latched, _, _) = sampled_lem s k i in
    let e : rearms (sampled s k i).0 p ≡ (
        s.rearm_requested
        && same p.mirror_state standby
        && (not (s.short_latched || (i.notified && s.trip_flag))
            || (not p.comp_above && p.kill_fb_closed))) =
      ap₂
        (λ a l.
          a && same p.mirror_state standby && (not l || (not p.comp_above && p.kill_fb_closed)))
        asked latched in
    let (only, enough) =
      conditions s.rearm_requested s.short_latched (i.notified && s.trip_flag) p.comp_above
        p.kill_fb_closed p.mirror_state in
    (λ h. only (sym e ∙ h), λ h. e ∙ enough h)

trip_kept :
    (now scanned was due : Bool)
    → was ≡ true
    → (if now then false else if scanned then (was || due) else was) ≡ false
    → now ≡ true
trip_kept true scanned was due h e = refl
trip_kept false true was due h e = ground arith
trip_kept false false was due h e = ground arith

short_kept :
    (now was fired : Bool)
    → was ≡ (true || fired)
    → (if now then false else was) ≡ false
    → now ≡ true
short_kept true was fired h e = refl
short_kept false was fired h e = cc

when_true : {A : Type 0} {b : Bool} (x y : A) → b ≡ true → (if b then x else y) ≡ x
when_true x y e = rw e refl

-- A tripped family is clear after a round only if a clear was accepted, the suit is in STANDBY and no short is latched
-- or told in this round, or the comparator is below its threshold and the gate driver has closed again. The
-- short-circuit latch is let go only under the same conditions, and under them every round lets it go and
-- clears every family and its counter.
pub round_rearm :
    (s : Bms) (k : Scale) (i : Inputs) (f : Fam)
    → IsSized s
    → let s' = (round s k i).0 in
      (trip_of s (index f) ≡ true → trip_of s' (index f) ≡ false → MayRearm s i)
      × (s.short_latched ≡ true → s'.short_latched ≡ false → MayRearm s i)
      × (MayRearm s i
          → (trip_of s' (index f) ≡ false) × (deb_of s' (index f) ≡ 0) × (s'.short_latched ≡ false))
round_rearm s k i f z =
    let s1 = (sampled s k i).0 in
    let (_, tripped, _, latched, _, _) = sampled_lem s k i in
    let t = round-Turn s k i f z in
    let now = rearms s1 i.pins in
    let (may, must) = rearms-MayRearm s k i in
    (
      λ was is. may (
          trip_kept now s1.full_scan_done _ _ (ap (λ l. get_or l (index f) false) tripped ∙ was)
            (sym t.trip_is ∙ is)),
      λ was is. may (
          short_kept now s1.short_latched (i.notified && s.trip_flag)
            (latched ∙ ap (λ b. b || (i.notified && s.trip_flag)) was) (sym t.short_is ∙ is)),
      λ h. (
        t.trip_is ∙ when_true _ _ (must h),
        t.deb_is ∙ when_true _ _ (must h),
        t.short_is ∙ when_true _ _ (must h),
      ),
    )
