-- ===== src/Gateway/Overlap.antt =====
-- gateway_task.c: the pairs of a critical section and a call of `mirror_publish`, as the tasks of the hub make them. A call reads its
-- state in the critical section, and the parts of `mirror_publish` are not under the lock, so that calls can overlap: each of
-- the three parts is a step of its own.
use powersuit.Base.{
  ℕ, zero, suc, ◌≡◌, refl, sym, ap, subst, ◌∙◌, arith, Bool, Bool-cases, inl, inr, ◌⊎◌, Option,
  none, some, List, [], ◌∷◌, ◌++◌, ◌==◌, if◌then◌else◌,
}
use powersuit.Wire.{State, code, estop}
use powersuit.Gateway.{Gateway, settle}
use powersuit.Gateway.Dispatch.{flag_after}
use powersuit.Safety
use powersuit.Safety.{Core, Event, same}

-- A call in flight: it has left the critical section with this state, or it has set the flag as well.
pub data InFlight : Type 0 where
  read told : State → InFlight

-- What the tasks share, with the header's flag, and the calls in flight, the oldest first.
pub record Shared : Type 0 where
  pub mirror : Core
  pub last_pub_state : ℕ
  pub flag : Bool
  pub calls : List InFlight

-- A critical section, and the next part of the call at an index.
pub data Part : Type 0 where
  enter : ℕ → Event → Part
  go_on : ℕ → Part

-- The list without the element at an index, and with another in its place.
abbrev without : ℕ → List InFlight → List InFlight
without i [] = []
without zero (c ∷ cs) = cs
without (suc i) (c ∷ cs) = c ∷ without i cs

abbrev in_place : ℕ → InFlight → List InFlight → List InFlight
in_place i d [] = []
in_place zero d (c ∷ cs) = d ∷ cs
in_place (suc i) d (c ∷ cs) = c ∷ in_place i d cs

abbrev call_at : ℕ → List InFlight → Option InFlight
call_at i [] = none
call_at zero (c ∷ cs) = some c
call_at (suc i) (c ∷ cs) = call_at i cs

-- The next part of `mirror_publish`: the test and the flag, or the note of the state.
unfoldable pub proceed : Shared → ℕ → Option InFlight → Shared
proceed s i none = s
proceed s i (some (read st)) =
    if code st == s.last_pub_state
    then record s { calls = without i s.calls }
    else record s { flag = same st estop; calls = in_place i (told st) s.calls }
proceed s i (some (told st)) = record s { last_pub_state = code st; calls = without i s.calls }

unfoldable pub part : Shared → Part → Shared
unfolding proceed
part s (enter now e) =
    let m = (Safety.step s.mirror now e).0 in
    record s { mirror = m; calls = s.calls ++ read m.state ∷ [] }
part s (go_on i) = proceed s i (call_at i s.calls)

unfoldable pub parts : Shared → List Part → Shared
unfolding part
parts s [] = s
parts s (p ∷ ps) = parts (part s p) ps

-- The three parts with nothing between them are what `Gateway.settle` does.
settle-parts :
    (g : Gateway) (b : Bool) (now : ℕ) (e : Event)
    → let r = settle g (Safety.step g.mirror now e).0 in
      parts
        (record { mirror = g.mirror; last_pub_state = g.last_pub_state; flag = b; calls = [] })
        (enter now e ∷ go_on 0 ∷ go_on 0 ∷ [])
      ≡ record {
        mirror = r.0.mirror;
        last_pub_state = r.0.last_pub_state;
        flag = flag_after b r.1;
        calls = [];
      }
unfolding parts settle
settle-parts g b now e =
    elim (Bool-cases (code (Safety.step g.mirror now e).0.state == g.last_pub_state)) [
      | inl noted ↦ rw noted refl
      | inr other ↦ rw other refl
    ]

-- No critical section is entered while a call is in flight.
abbrev pub Serial : Shared → List Part → Type 0
Serial s [] = Unit {0}
Serial s (enter now e ∷ ps) = (s.calls ≡ []) × Serial (part s (enter now e)) ps
Serial s (go_on i ∷ ps) = Serial (part s (go_on i)) ps

-- The state was published, and the flag tells if it is ESTOP.
abbrev pub Tells : Shared → Type 0
Tells s = (s.last_pub_state ≡ code s.mirror.state) × (s.flag ≡ same s.mirror.state estop)

-- Nothing is in flight and the flag tells; or one call is, with the state of the mirror, over an earlier state that was told, or
-- with the flag set.
abbrev Settled : Shared → Type 0
Settled s =
    ((s.calls ≡ []) × Tells s)
    ⊎ (((s.calls ≡ read s.mirror.state ∷ [])
          × ((st : State) × (s.last_pub_state ≡ code st) × (s.flag ≡ same st estop)))
        ⊎ ((s.calls ≡ told s.mirror.state ∷ []) × (s.flag ≡ same s.mirror.state estop)))

same-code : (s t : State) → code s ≡ code t → same s estop ≡ same t estop
same-code s t h = ap (λ n. n == code estop) h

go_on-Settled : (s : Shared) (i : ℕ) → Settled s → Settled (proceed s i (call_at i s.calls))
unfolding proceed
go_on-Settled s i (inl (idle, tells)) =
    subst (λ c. Settled (proceed s i c)) (sym (ap (call_at i) idle)) (inl (idle, tells))
go_on-Settled s (suc i) (inr (inl (one, before))) =
    subst (λ c. Settled (proceed s (suc i) c)) (sym (ap (call_at (suc i)) one))
      (inr (inl (one, before)))
go_on-Settled s zero (inr (inl (one, (st, noted, flag)))) =
    subst (λ c. Settled (proceed s zero c)) (sym (ap (call_at zero) one))
      (elim (Bool-cases (code s.mirror.state == s.last_pub_state)) [
        | inl same_code ↦
            (let now_noted : s.last_pub_state ≡ code s.mirror.state = sym (ground arith) in
              rw same_code (
                inl (
                  ap (without zero) one,
                  (now_noted, flag ∙ same-code st s.mirror.state (sym noted ∙ now_noted)),
                )))
        | inr other ↦ rw other (inr (inr (ap (in_place zero (told s.mirror.state)) one, refl)))
      ])
go_on-Settled s (suc i) (inr (inr (one, flag))) =
    subst (λ c. Settled (proceed s (suc i) c)) (sym (ap (call_at (suc i)) one))
      (inr (inr (one, flag)))
go_on-Settled s zero (inr (inr (one, flag))) =
    subst (λ c. Settled (proceed s zero c)) (sym (ap (call_at zero) one))
      (inl (ap (without zero) one, (refl, flag)))

enter-Settled :
    (s : Shared) (now : ℕ) (e : Event) → s.calls ≡ [] → Settled s → Settled (part s (enter now e))
unfolding part
enter-Settled s now e idle (inl (_, (noted, flag))) = inr (
    inl (
      ap (λ l. l ++ read (Safety.step s.mirror now e).0.state ∷ []) idle,
      (s.mirror.state, noted, flag),
    ))
enter-Settled s now e idle (inr (inl (one, _))) = cc
enter-Settled s now e idle (inr (inr (one, _))) = cc

parts-Settled : (s : Shared) (ps : List Part) → Settled s → Serial s ps → Settled (parts s ps)
unfolding parts part
parts-Settled s [] h serial = h
parts-Settled s (enter now e ∷ ps) h serial =
    parts-Settled (part s (enter now e)) ps (enter-Settled s now e serial.0 h) serial.1
parts-Settled s (go_on i ∷ ps) h serial =
    parts-Settled (part s (go_on i)) ps (go_on-Settled s i h) serial

done_Tells : (s : Shared) → Settled s → s.calls ≡ [] → Tells s
done_Tells s (inl (_, tells)) done = tells
done_Tells s (inr (inl (one, _))) done = cc
done_Tells s (inr (inr (one, _))) done = cc

-- In any run of the parts in which no critical section is entered while a call of `mirror_publish` is on its way, from a state in
-- which the flag tells whether the mirror is in ESTOP: whenever no call is on its way the flag tells it again, and the state that
-- was published last is the mirror's.
pub parts-Tells :
    (s : Shared) (ps : List Part)
    → s.calls ≡ []
    → Tells s
    → Serial s ps
    → (parts s ps).calls ≡ []
    → Tells (parts s ps)
parts-Tells s ps idle tells serial done =
    done_Tells (parts s ps) (parts-Settled s ps (inl (idle, tells)) serial) done
