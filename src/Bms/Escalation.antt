-- ===== src/Bms/Escalation.antt =====
-- bms_task.c: what a trip sends, and that it stops the suit.
use powersuit.Base.{
  ℕ, ◌+◌, ◌≤◌, ◌≡◌, ◌≢◌, refl, sym, ap, subst, ◌∙◌, arith, Bool, true, false, not, List, [], ◌∷◌,
  ◌++◌, append_assoc, IsByte, get_or, leb, bit_or, bit_and, length, if◌then◌else◌, u32,
}
use powersuit.CanId.{CanFrame, pack, id_type, cls_safety, node_hub, node_broadcast, t_estop}
use powersuit.CanId.Layout.{unpack-pack}
use powersuit.Wire.SafetyPayloads.{read_estop, write_estop}
use powersuit.SpiFrame.{Record}
use powersuit.SafetyNode.Stop.{Stops, estop_frame-Stops}
use powersuit.Bms.{
  Bms, Act, Times, can_send, uplink_push, local_estop, raise_estop, send_safety_both, send_both,
  push_record,
}
use powersuit.Bms.Trip.{check, check_thresholds, Finding, next_deb}
use powersuit.Bms.Short.{handle_short_trip}
use powersuit.Bms.Sense.{Scale, sample_fast, slow_slot}
use powersuit.Bms.Task.{Inputs, sampled, round}
use powersuit.Bms.Family.{deb_of, trip_of, IsSized}
use powersuit.Bms.Critical.{Fam, index, cause_of, finding_of, finding_of-fam}
use powersuit.Bms.Rounds.{findings-Stepped, sampled_lem}
use powersuit.Bms.Debounce.{turn_due, deb_is, trip_is}

-- An e-stop as it leaves the task: three times on both buses, once to the orchestrator, and to the gateway.
abbrev pub stop_calls : CanFrame → Record → ℕ → List Act
stop_calls f r cause =
    can_send 0 f
    ∷ can_send 1 f
    ∷ can_send 0 f
    ∷ can_send 1 f
    ∷ can_send 0 f
    ∷ can_send 1 f
    ∷ uplink_push r
    ∷ local_estop cause
    ∷ []

-- Such calls stand among the actions; the frame stops every node that gets it, and the record carries the same frame.
abbrev pub Announced : ℕ → List Act → Type 0
Announced cause acts =
    (f : CanFrame) × (r : Record) × (pre : List Act) × (post : List Act) × (acts
      ≡ pre ++ (stop_calls f r cause ++ post))
    × Stops cause f
    × (r.id ≡ f.id)
    × (r.payload ≡ f.payload)

estop_type :
    (low : ℕ) → IsByte low → id_type (pack cls_safety node_hub node_broadcast t_estop low) ≡ t_estop
estop_type low h =
    (unpack-pack
      (record { cls = cls_safety; src = node_hub; dst = node_broadcast; type = t_estop; low = low })
      (record {
        cls = omega arith;
        src = omega arith;
        dst = omega arith;
        type = omega arith;
        low = h;
      })).4

raise-Announced :
    (s : Bms) (t : Times) (cause : ℕ)
    → IsByte s.safety_low
    → cause ≢ 0
    → Announced cause (raise_estop s t cause).1
unfolding raise_estop send_safety_both send_both push_record write_estop read_estop
raise-Announced s t cause low z =
    (_, _, [], [], refl, estop_frame-Stops _ (estop_type s.safety_low low) refl z, refl, refl)

among :
    {cause : ℕ} {acts : List Act} (a b : List Act)
    → Announced cause acts
    → Announced cause (a ++ (acts ++ b))
among {cause} {acts} a b (f, r, pre, post, e, st, i, p) =
    (f, r, a ++ pre, post ++ b, placed, st, i, p)
  where
    placed : a ++ (acts ++ b) ≡ (a ++ pre) ++ (stop_calls f r cause ++ (post ++ b))
    placed =
        ap (λ l. a ++ (l ++ b)) e
        ∙ ap (λ l. a ++ l)
            (append_assoc pre (stop_calls f r cause ++ post) b
              ∙ ap (λ l. pre ++ l) (append_assoc (stop_calls f r cause) post b))
        ∙ sym (append_assoc a pre (stop_calls f r cause ++ (post ++ b)))

check-Announced :
    (s : Bms) (t : Times) (c : Finding)
    → IsByte s.safety_low
    → c.cause ≢ 0
    → trip_of s c.fam ≡ false
    → leb 50 (next_deb (deb_of s c.fam) c.crit) ≡ true
    → Announced c.cause (check s t c).1
unfolding check
check-Announced s t c low z untripped due = rw (untripped, due) (raise-Announced _ t c.cause low z)

cause-ne : (f : Fam) → cause_of f ≢ 0
cause-ne f = ground arith

module _ (s : Bms) (k : Scale) (i : Inputs) (z : IsSized s) where
  sensed-IsSized : IsSized (sampled s k i).0
  sensed-IsSized =
      let (d, p, _, _, _, w) = sampled_lem s k i in (ap length d ∙ z.0, ap length p ∙ z.1, w z.2)

  family-Announced :
      (f : Fam)
      → trip_of s (index f) ≡ false
      → trip_of (round s k i).0 (index f) ≡ true
      → Announced (cause_of f) (check_thresholds (sampled s k i).0 i.check_times).1
  unfolding check_thresholds
  family-Announced f before after =
      let s1 = (sampled s k i).0 in
      let c = finding_of f s1 in
      let (d, p, _, _, _, _) = sampled_lem s k i in
      let (scanned, crit, counted) =
        (turn_due _ _ _ _ _ _ _ before (deb_is s k i f z) (trip_is s k i f z)).0 after in
      let (t, s0, a, b, r) = findings-Stepped s1 i.check_times f sensed-IsSized in
      let (fam, cause) = finding_of-fam f s1 in
      let deb0 : deb_of s0 c.fam ≡ deb_of s (index f) =
        r.deb_before ∙ ap (deb_of s1) fam ∙ ap (λ l. get_or l (index f) 0) d in
      let trip0 : trip_of s0 c.fam ≡ false =
        r.trip_before ∙ ap (trip_of s1) fam ∙ ap (λ l. get_or l (index f) false) p ∙ before in
      let acts =
        check-Announced s0 t c r.low_in (λ e. cause-ne f (sym cause ∙ e)) trip0
          (over (deb_of s0 c.fam) c.crit crit (subst (λ n. 49 ≤ n) (sym deb0) counted)) in
      rw scanned (
        subst (Announced (cause_of f)) (sym r.acts_are)
          (among a b (subst (λ v. Announced v (check s0 t c).1) cause acts)))
    where
      over : (n : ℕ) (crit : Bool) → crit ≡ true → 49 ≤ n → leb 50 (next_deb n crit) ≡ true
      over n crit e h = ground arith

  abbrev told_latched : Bms
  told_latched = record s {
    trip_flag = false;
    short_latched = true;
    fault_bits = bit_and (bit_or s.fault_bits 1) 0xFF7F;
  }

  short-Announced : s.trip_flag ≡ true → i.notified ≡ true → Announced 1 (sampled s k i).1
  unfolding sampled handle_short_trip
  short-Announced fired told = at i.notified told
    where
      fires :
          (b : Bool)
          → b ≡ true
          → Announced 1 (if not b then (s, []) else raise_estop told_latched i.short_times 1).1
      fires true e = raise-Announced told_latched i.short_times 1 z.2 (omega arith)
      fires false e = cc

      at :
          (b : Bool)
          → b ≡ true
          → let r1 = if b then handle_short_trip s i.short_times else (s, []) in
            Announced 1 (
              r1.1
              ++ (slow_slot
                  (sample_fast (record r1.0 { tick = u32 (r1.0.tick + 1) }) k i.reading)
                  k
                  i.reading).1)
      at true e = among [] _ (fires s.trip_flag fired)
      at false e = cc

-- A round in which a family trips, or that is told of a short, sends the e-stop with its cause: three times on both buses a
-- frame that stops every node which gets any of them, in any state and at any time; once to the
-- orchestrator; and to the gateway.
pub round_announces :
    (s : Bms) (k : Scale) (i : Inputs)
    → IsSized s
    → ((f : Fam)
        → trip_of s (index f) ≡ false
        → trip_of (round s k i).0 (index f) ≡ true
        → Announced (cause_of f) (round s k i).1)
      × (s.trip_flag ≡ true → i.notified ≡ true → Announced 1 (round s k i).1)
unfolding round
round_announces s k i z = (
  λ f before after. among (sampled s k i).1 _ (family-Announced s k i z f before after),
  λ fired told. among [] _ (short-Announced s k i z fired told),
)
