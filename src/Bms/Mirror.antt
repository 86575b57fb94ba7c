-- ===== src/Bms/Mirror.antt =====
-- bms_task.c and gateway_task.c: what a trip of the battery makes of the hub's mirror of the suit's state.
use powersuit.Base.{
  ℕ, ◌≡◌, sym, ap, ◌∙◌, subst, ◌⊎◌, inl, inr, Bool, true, false, List, [], ◌∷◌, ◌++◌, length,
}
use powersuit.Wire.{estop}
use powersuit.CanId.{CanFrame}
use powersuit.SpiFrame.{Record}
use powersuit.Safety.{same, on_local_fault}
use powersuit.Safety.Latch.{IsLatched, on_estop-IsLatched}
use powersuit.Gateway
use powersuit.Gateway.{Gateway, Action}
use powersuit.Gateway.Dispatch.{
  flag_after, flag_after-append, Tells, local_estop-Keeps, publish_mirror,
}
use powersuit.Bms.{Bms, Act, can_send, uplink_push, local_estop, mux_select, rearm_strobe, delay_ms}
use powersuit.Bms.Sense.{Scale}
use powersuit.Bms.Task.{Inputs, round}
use powersuit.Bms.Family.{trip_of, IsSized}
use powersuit.Bms.Critical.{Fam, index}
use powersuit.Bms.Escalation.{Announced, stop_calls, round_announces}

-- The calls of `hub_gateway_local_estop` among the task's actions reach the gateway; `clock` is the time by the number of
-- actions that are left.
unfoldable pub hear : Gateway → (ℕ → ℕ) → List Act → Gateway × List Action
hear g clock [] = (g, [])
hear g clock (can_send n f ∷ acts) = hear g clock acts
hear g clock (uplink_push r ∷ acts) = hear g clock acts
hear g clock (local_estop cause ∷ acts) =
    let (g1, a1) = Gateway.local_estop g (clock (length acts)) cause in
    let (g2, a2) = hear g1 clock acts in (g2, a1 ++ a2)
hear g clock (mux_select a b ∷ acts) = hear g clock acts
hear g clock (rearm_strobe b ∷ acts) = hear g clock acts
hear g clock (delay_ms n ∷ acts) = hear g clock acts

estop_latches : (g : Gateway) (now cause : ℕ) → IsLatched (Gateway.local_estop g now cause).0.mirror
unfolding Gateway.local_estop on_local_fault
estop_latches g now cause =
    subst IsLatched (sym (publish_mirror g _)) (on_estop-IsLatched g.mirror now cause).0

hear-Tells :
    (g : Gateway) (clock : ℕ → ℕ) (b : Bool) (acts : List Act)
    → Tells g b
    → Tells (hear g clock acts).0 (flag_after b (hear g clock acts).1)
unfolding hear
hear-Tells g clock b [] t = t
hear-Tells g clock b (can_send n f ∷ acts) t = hear-Tells g clock b acts t
hear-Tells g clock b (uplink_push r ∷ acts) t = hear-Tells g clock b acts t
hear-Tells g clock b (local_estop cause ∷ acts) t =
    let (g1, a1) = Gateway.local_estop g (clock (length acts)) cause in
    subst (Tells (hear g1 clock acts).0) (sym (flag_after-append b a1 (hear g1 clock acts).1)) (
      hear-Tells g1 clock (flag_after b a1) acts
        (local_estop-Keeps g (clock (length acts)) b t cause).0)
hear-Tells g clock b (mux_select x y ∷ acts) t = hear-Tells g clock b acts t
hear-Tells g clock b (rearm_strobe x ∷ acts) t = hear-Tells g clock b acts t
hear-Tells g clock b (delay_ms n ∷ acts) t = hear-Tells g clock b acts t

hear-IsLatched :
    (g : Gateway) (clock : ℕ → ℕ) (acts : List Act)
    → IsLatched g.mirror
    → IsLatched (hear g clock acts).0.mirror
unfolding hear
hear-IsLatched g clock [] h = h
hear-IsLatched g clock (can_send n f ∷ acts) h = hear-IsLatched g clock acts h
hear-IsLatched g clock (uplink_push r ∷ acts) h = hear-IsLatched g clock acts h
hear-IsLatched g clock (local_estop cause ∷ acts) h =
    hear-IsLatched (Gateway.local_estop g (clock (length acts)) cause).0 clock acts
      (estop_latches g (clock (length acts)) cause)
hear-IsLatched g clock (mux_select x y ∷ acts) h = hear-IsLatched g clock acts h
hear-IsLatched g clock (rearm_strobe x ∷ acts) h = hear-IsLatched g clock acts h
hear-IsLatched g clock (delay_ms n ∷ acts) h = hear-IsLatched g clock acts h

reached :
    (g : Gateway) (clock : ℕ → ℕ) (f : CanFrame) (r : Record) (cause : ℕ) (pre post : List Act)
    → IsLatched (hear g clock (pre ++ (stop_calls f r cause ++ post))).0.mirror
unfolding hear
reached g clock f r cause [] post =
    hear-IsLatched (Gateway.local_estop g (clock (length post)) cause).0 clock post
      (estop_latches g (clock (length post)) cause)
reached g clock f r cause (can_send n x ∷ pre) post = reached g clock f r cause pre post
reached g clock f r cause (uplink_push x ∷ pre) post = reached g clock f r cause pre post
reached g clock f r cause (local_estop c ∷ pre) post =
    reached (Gateway.local_estop g (clock (length (pre ++ (stop_calls f r cause ++ post)))) c).0
      clock f r cause pre post
reached g clock f r cause (mux_select x y ∷ pre) post = reached g clock f r cause pre post
reached g clock f r cause (rearm_strobe x ∷ pre) post = reached g clock f r cause pre post
reached g clock f r cause (delay_ms n ∷ pre) post = reached g clock f r cause pre post

Announced-latches :
    (g : Gateway) (clock : ℕ → ℕ) (b : Bool) {cause : ℕ} {acts : List Act}
    → Tells g b
    → Announced cause acts
    → IsLatched (hear g clock acts).0.mirror × (flag_after b (hear g clock acts).1 ≡ true)
Announced-latches g clock b {cause} {acts} t (f, r, pre, post, e, _, _, _) =
    let latched : IsLatched (hear g clock acts).0.mirror =
      subst (λ l. IsLatched (hear g clock l).0.mirror) (sym e)
        (reached g clock f r cause pre post) in
    (latched, (hear-Tells g clock b acts t).1 ∙ ap (λ st. same st estop) latched.stopped)

-- A family trips in the round, or the round is told of a short.
abbrev pub Trips : Bms → Scale → Inputs → Type 0
Trips s k i =
    ((f : Fam) × (trip_of s (index f) ≡ false) × (trip_of (round s k i).0 (index f) ≡ true))
    ⊎ ((s.trip_flag ≡ true) × (i.notified ≡ true))

-- Where the state of the mirror was published, a round of the battery task in which a family trips, or that is told of a
-- short, leaves the hub's mirror latched in ESTOP once the gateway has heard its calls, whatever the mirror's state
-- was, and the header's flag on the link to the orchestrator tells it, when no other call of `mirror_publish` overlaps
-- with its own.
pub trip_latches :
    (g : Gateway) (clock : ℕ → ℕ) (b : Bool) (s : Bms) (k : Scale) (i : Inputs)
    → Tells g b
    → IsSized s
    → Trips s k i
    → let (g', acts) = hear g clock (round s k i).1 in
      IsLatched g'.mirror × (flag_after b acts ≡ true)
trip_latches g clock b s k i t z (inl (f, before, after)) =
    Announced-latches g clock b t ((round_announces s k i z).0 f before after)
trip_latches g clock b s k i t z (inr (fired, told)) =
    Announced-latches g clock b t ((round_announces s k i z).1 fired told)
