-- ===== src/Bms/Rounds.antt =====
-- bms_task.c: a family, the short latch and the request to re-arm over a whole round of the task.
use powersuit.Base.{
  IsByte, All, bit_and, bit_or, ◌%◌, ◌-◌, ◌==◌, set, u32, ℕ, zero, suc, ◌+◌, ◌<◌, ◌≡◌, ◌≢◌, refl,
  sym, ap, ap₂, subst, ◌∙◌, arith, by_if, Bool, true, false, not, ◌&&◌, ◌||◌, Option, none, some,
  List, [], length, get_or, replicate, leb, ltb, if◌then◌else◌,
}
use powersuit.Base.Int.{ℤ}
use powersuit.Wire.{standby}
use powersuit.Safety.{same}
use powersuit.Bms.{Bms, Act, Times, raise_estop, warn}
use powersuit.Bms.Trip.{check_all, Finding, next_deb, findings, check_thresholds}
use powersuit.Bms.Short.{handle_short_trip, Pins, try_rearm, strobe, clear_families}
use powersuit.Bms.Sense.{Scale, sample_fast, slow_slot, read_slot}
use powersuit.Bms.Report.{
  Sources, reports, report_summary, report_cells, report_stats, report_version,
}
use powersuit.Bms.Task.{Inputs, sampled, round}
use powersuit.Bms.Family.{
  deb_of, trip_of, IsSized, Kept, Checked, raise_estop-Checked, warn-Checked, Stepped,
  check_all-Stepped,
}
use powersuit.Bms.Critical.{Fam, index, finding_of, finding_of-fam, findings_split, OthersThan}

-- Nothing of what escalation keeps is changed.
abbrev Unchanged : Bms → Bms → Type 0
Unchanged s s' = Checked s s.deb s.tripped s'

unchanged : (s : Bms) → Unchanged s s
unchanged s = (refl, refl, (refl, refl, refl), λ h. h)

both : (a b c : Bms) → Unchanged a b → Unchanged b c → Unchanged a c
both a b c (d, p, (x, y, z), w) (d', p', (x', y', z'), w') =
    (d' ∙ d, p' ∙ p, (x' ∙ x, y' ∙ y, z' ∙ z), λ h. w' (w h))

reports-Unchanged : (s : Bms) (r : Sources) → Unchanged s (reports s r).0
unfolding reports report_summary report_cells report_stats report_version
reports-Unchanged s r =
    let s1 = (report_summary s r).0 in
    let s2 = (report_cells s1 r).0 in
    let s3 = (report_stats s2 r).0 in
    both s s1 (reports s r).0 (if_kept s (s.tick % 100 == 0) _ (unchanged s)) (
      both s1 s2 (reports s r).0 (if_kept s1 (s1.tick % 1000 == 250) _ (unchanged s1)) (
        both s2 s3 (reports s r).0 (if_kept s2 (s2.tick % 1000 == 500) _ (unchanged s2))
          (if_kept s3 (s3.tick % 1000 == 750) _ (unchanged s3))))
  where
    if_kept :
        (a : Bms) (c : Bool) (b : Bms × List Act)
        → Unchanged a b.0
        → Unchanged a (if c then b else (a, [])).0
    if_kept a true b h = h
    if_kept a false b h = unchanged a

read_slot-Unchanged : (s : Bms) (k : Scale) (raw : Option ℕ) → Unchanged s (read_slot s k raw)
unfolding read_slot
read_slot-Unchanged s k none = unchanged s
read_slot-Unchanged s k (some raw) =
    by_if (Unchanged s) (ltb (s.tick % 16) 12) (unchanged s) (temperature (k.to_ntc_cc raw))
  where
    temperature :
        (o : Option ℤ)
        → Unchanged s
            (elim o [ none ↦ s | some c ↦ record s { ntc_cc = set s.ntc_cc (s.tick % 16 - 12) c } ])
    temperature none = unchanged s
    temperature (some c) = unchanged s

-- Sampling latches a short that the interrupt has told, and leaves the families and the request alone.
abbrev pub Latches : Bms → Bool → Bms → Type 0
Latches s fired s' =
    (s'.deb ≡ s.deb)
    × (s'.tripped ≡ s.tripped)
    × (s'.rearm_requested ≡ s.rearm_requested)
    × (s'.short_latched ≡ (s.short_latched || fired))
    × (s.full_scan_done ≡ true → s'.full_scan_done ≡ true)
    × (IsByte s.safety_low → IsByte s'.safety_low)

or_true : (b : Bool) → true ≡ (b || true)
or_true true = refl
or_true false = refl

or_false : (b : Bool) → b ≡ (b || false)
or_false true = refl
or_false false = refl

handle_short_trip-Latches : (s : Bms) (t : Times) → Latches s s.trip_flag (handle_short_trip s t).0
unfolding handle_short_trip
handle_short_trip-Latches s t = at s.trip_flag
  where
    latch : Bms
    latch = record s {
      trip_flag = false;
      short_latched = true;
      fault_bits = bit_and (bit_or s.fault_bits 1) 0xFF7F;
    }

    at : (b : Bool) → Latches s b (if not b then (s, []) else raise_estop latch t 1).0
    at false = (refl, refl, refl, or_false s.short_latched, λ h. h, λ h. h)
    at true =
        let (d, p, (l, r, c), w) = raise_estop-Checked latch t 1 in
        (d, p, r, l ∙ or_true s.short_latched, λ h. c ∙ h, w)

pub sampled_lem :
    (s : Bms) (k : Scale) (i : Inputs) → Latches s (i.notified && s.trip_flag) (sampled s k i).0
unfolding sampled sample_fast slow_slot
sampled_lem s k i =
    let s1 = (if i.notified then handle_short_trip s i.short_times else (s, [])).0 in
    let s2 = sample_fast (record s1 { tick = u32 (s1.tick + 1) }) k i.reading in
    let (d, p, r, l, c, w) = latched i.notified in
    let (d', p', (l', r', _), w') = read_slot-Unchanged s2 k i.reading.slow in
    (d' ∙ d, p' ∙ p, r' ∙ r, l' ∙ l, λ h. ap (λ b. b || leb 32 s2.tick) (c h), λ h. w' (w h))
  where
    latched :
        (told : Bool)
        → Latches s
            (told && s.trip_flag)
            (if told then handle_short_trip s i.short_times else (s, [])).0
    latched false = (refl, refl, refl, or_false s.short_latched, λ h. h, λ h. h)
    latched true = handle_short_trip-Latches s i.short_times

index-lt : (f : Fam) → index f < 6
index-lt f = ground arith

-- The conditions under which a round clears the latches.
abbrev pub rearms : Bms → Pins → Bool
rearms s p =
    s.rearm_requested
    && same p.mirror_state standby
    && (not s.short_latched || (not p.comp_above && p.kill_fb_closed))

abbrev Cleared : Bms → Bool → Bms → Type 0
Cleared s b s' =
    (s'.deb ≡ (if b then replicate 6 0 else s.deb))
    × (s'.tripped ≡ (if b then replicate 6 false else s.tripped))
    × (s'.short_latched ≡ (if b then false else s.short_latched))
    × (s'.full_scan_done ≡ s.full_scan_done)
    × (IsByte s.safety_low → IsByte s'.safety_low)

families_if :
    (s : Bms) (b : Bool) (x y : Bms)
    → Cleared s true x
    → Cleared s false y
    → Cleared s b (if b then x else y)
families_if s true x y h k = h
families_if s false x y h k = k

strobe-Cleared : (s : Bms) (p : Pins) → Cleared s p.kill_fb_closed (strobe s p).0
unfolding strobe clear_families
strobe-Cleared s p =
    families_if s p.kill_fb_closed _ _ (refl, refl, refl, refl, λ h. h)
      (refl, refl, refl, refl, λ h. h)

try_rearm_lem : (s : Bms) (t : Times) (p : Pins) → Cleared s (rearms s p) (try_rearm s t p).0
unfolding try_rearm clear_families
try_rearm_lem s t p =
    at s.rearm_requested (same p.mirror_state standby) s.short_latched p.comp_above refl
  where
    s1 : Bms
    s1 = record s { rearm_requested = false }

    at :
        (asked ready latched above : Bool)
        → s.short_latched ≡ latched
        → Cleared s
            (asked && ready && (not latched || (not above && p.kill_fb_closed)))
            (if not asked
              then (s, [])
              else if not ready
              then (s, [])
              else if not latched
              then (clear_families (record s1 { fault_bits = bit_and s1.fault_bits 0xFF81 }), [])
              else if above
              then warn s1 t 4 0xFFFF
              else strobe s1 p).0
    at false ready latched above e = (refl, refl, refl, refl, λ h. h)
    at true false latched above e = (refl, refl, refl, refl, λ h. h)
    at true true false above e = (refl, refl, e, refl, λ h. h)
    at true true true true e =
        let (d, q, (l, _, c), w) = warn-Checked s1 t 4 0xFFFF in (d, q, l, c, w)
    at true true true false e = strobe-Cleared s1 p

-- A family over a round, from the state after sampling: the latches are cleared, or the family counts.
pub record Turned (s1 s' : Bms) (cleared : Bool) (f : Fam) : Type 0 where
  pub short_is : s'.short_latched ≡ (if cleared then false else s1.short_latched)
  pub scan_is : s'.full_scan_done ≡ s1.full_scan_done
  pub sized : IsSized s'
  pub deb_is : deb_of s' (index f) ≡ (
      if cleared
      then 0
      else if s1.full_scan_done
      then next_deb (deb_of s1 (index f)) (finding_of f s1).crit
      else deb_of s1 (index f))
  pub trip_is : trip_of s' (index f) ≡ (
      if cleared
      then false
      else if s1.full_scan_done
      then (trip_of s1 (index f) || leb 50 (next_deb (deb_of s1 (index f)) (finding_of f s1).crit))
      else trip_of s1 (index f))

-- What the checks leave for a family, if the cells were scanned.
pub record Counted (s s' : Bms) (scanned : Bool) (f : Fam) : Type 0 where
  pub sized : IsSized s'
  pub kept : Kept s s'
  pub deb_is : deb_of s' (index f) ≡ (
      if scanned then next_deb (deb_of s (index f)) (finding_of f s).crit else deb_of s (index f))
  pub trip_is : trip_of s' (index f) ≡ (
      if scanned
      then (trip_of s (index f) || leb 50 (next_deb (deb_of s (index f)) (finding_of f s).crit))
      else trip_of s (index f))

module _ (s : Bms) (times : ℕ → Times) (f : Fam) (z : IsSized s) where
  -- The family's own check among the six.
  pub findings-Stepped :
      (t : Times) × (s0 : Bms) × (a : List Act) × (b : List Act) × Stepped s
        (check_all s times (findings s)).0
        s0
        t
        (finding_of f s)
        a
        b
        (check_all s times (findings s)).1
  findings-Stepped =
      let (pre, post, e, n, m) = findings_split f s in
      let c = finding_of f s in
      let fam : c.fam ≡ index f = (finding_of-fam f s).0 in
      let others : (l : List Finding) → OthersThan f l → All (λ (x : Finding). x.fam ≢ c.fam) l =
        λ l h. subst (λ j. All (λ (x : Finding). x.fam ≢ j) l) (sym fam) h in
      let (s0, a, b, r) =
        check_all-Stepped s times pre c post z (subst (λ j. j < 6) (sym fam) (index-lt f))
          (others pre n) (others post m) in
      (
        times c.fam,
        s0,
        a,
        b,
        subst
            (λ l. Stepped s (check_all s times l).0 s0 (times c.fam) c a b (check_all s times l).1)
            (sym e) r,
      )

  check_thresholds-Counted : Counted s (check_thresholds s times).0 s.full_scan_done f
  unfolding check_thresholds
  check_thresholds-Counted = at s.full_scan_done
    where
      at : (b : Bool) → Counted s (if not b then (s, []) else check_all s times (findings s)).0 b f
      at false = record { sized = z; kept = (refl, refl, refl); deb_is = refl; trip_is = refl }
      at true =
          let (_, _, _, _, r) = findings-Stepped in
          let fam : (finding_of f s).fam ≡ index f = (finding_of-fam f s).0 in
          let s' = (check_all s times (findings s)).0 in
          let n = (finding_of f s).crit in
          record {
            sized = r.sized;
            kept = r.kept;
            deb_is = subst (λ j. deb_of s' j ≡ next_deb (deb_of s j) n) fam r.deb_is;
            trip_is =
                subst (λ j. trip_of s' j ≡ (trip_of s j || leb 50 (next_deb (deb_of s j) n))) fam
                  r.trip_is;
          }

get_or-replicate_self : {A : Type 0} (n i : ℕ) (d : A) → get_or (replicate n d) i d ≡ d
get_or-replicate_self zero i d = refl
get_or-replicate_self (suc n) zero d = refl
get_or-replicate_self (suc n) (suc i) d = get_or-replicate_self n i d

get_if :
    {A : Type 0} (b : Bool) (n i : ℕ) (d : A) (xs : List A)
    → get_or (if b then replicate n d else xs) i d ≡ (if b then d else get_or xs i d)
get_if true n i d xs = get_or-replicate_self n i d
get_if false n i d xs = refl

length_if :
    {A : Type 0} (b : Bool) (d : A) (xs : List A)
    → length xs ≡ 6
    → length (if b then replicate 6 d else xs) ≡ 6
length_if true d xs h = refl
length_if false d xs h = h

pub round-Turn :
    (s : Bms) (k : Scale) (i : Inputs) (f : Fam)
    → IsSized s
    → Turned (sampled s k i).0 (round s k i).0 (rearms (sampled s k i).0 i.pins) f
unfolding round
round-Turn s k i f z =
    let s1 = (sampled s k i).0 in
    let s2 = (check_thresholds s1 i.check_times).0 in
    let s3 = (reports s2 i.sources).0 in
    let (d1, p1, _, _, _, w1) = sampled_lem s k i in
    let z1 : IsSized s1 = (ap length d1 ∙ z.0, ap length p1 ∙ z.1, w1 z.2) in
    let r = check_thresholds-Counted s1 i.check_times f z1 in
    let (d3, p3, (l3, q3, c3), w3) = reports-Unchanged s2 i.sources in
    let (d4, p4, l4, c4, w4) = try_rearm_lem s3 i.rearm_times i.pins in
    let same_test : rearms s3 i.pins ≡ rearms s1 i.pins =
      ap₂
        (λ asked latched.
          asked
          && same i.pins.mirror_state standby
          && (not latched || (not i.pins.comp_above && i.pins.kill_fb_closed)))
        (q3 ∙ r.kept.1) (l3 ∙ r.kept.0) in
    let now = rearms s3 i.pins in
    let j = index f in
    subst (λ b. Turned s1 (round s k i).0 b f) same_test
      (record {
        short_is = l4 ∙ ap (λ v. if now then false else v) (l3 ∙ r.kept.0);
        scan_is = c4 ∙ c3 ∙ r.kept.2;
        sized = (
          ap length d4 ∙ length_if now 0 s3.deb (ap length d3 ∙ r.sized.0),
          ap length p4 ∙ length_if now false s3.tripped (ap length p3 ∙ r.sized.1),
          w4 (w3 r.sized.2),
        );
        deb_is =
            ap (λ l. get_or l j 0) d4
            ∙ get_if now 6 j 0 s3.deb
            ∙ ap (λ v. if now then 0 else v) (ap (λ l. get_or l j 0) d3 ∙ r.deb_is);
        trip_is =
            ap (λ l. get_or l j false) p4
            ∙ get_if now 6 j false s3.tripped
            ∙ ap (λ v. if now then false else v) (ap (λ l. get_or l j false) p3 ∙ r.trip_is);
      })
