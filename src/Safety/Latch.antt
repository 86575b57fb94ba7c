-- ===== src/Safety/Latch.antt =====
-- ps_safety_core.c: the latch of an emergency stop, and the counter that guards it.
use powersuit.Base.{
  ℕ, ◌≤◌, ◌≡◌, ◌≢◌, ◌⊎◌, refl, sym, subst, ◌∙◌, arith, true, false, List, [], ◌∷◌, All,
}
use powersuit.Wire.{estop, clear_estop_magic}
use powersuit.Safety.{Core, Event, clear, on_estop, on_clear, step, run}

-- Stopped, and no clear has been accepted since.
pub record IsLatched (c : Core) : Type 0 where
  pub stopped : c.state ≡ estop
  pub because : c.estop_cause ≢ 0

-- An e-stop latches a node from every state; a stop that is latched keeps its first cause.
pub on_estop-IsLatched :
    (c : Core) (t cause : ℕ)
    → IsLatched (on_estop c t cause).0 × (IsLatched c → (on_estop c t cause).0 ≡ c)
unfolding on_estop
on_estop-IsLatched c t cause = ground arith

-- The event is not a CLEAR_ESTOP that passes the counter `n`.
abbrev pub NoClear : ℕ → Event → Type 0
NoClear n (clear magic counter) = (magic ≢ clear_estop_magic) ⊎ (counter ≤ n)
NoClear n e = Unit

step-IsLatched :
    (c : Core) (t : ℕ) (e : Event)
    → IsLatched c
    → NoClear c.clear_counter e
    → IsLatched (step c t e).0
      × ((step c t e).0.estop_cause ≡ c.estop_cause)
      × ((step c t e).0.clear_counter ≡ c.clear_counter)
unfolding step
step-IsLatched c t e h n = ground arith

-- No sequence of events without a valid CLEAR_ESTOP takes a latched node out of ESTOP, or changes
-- the cause.
pub run-IsLatched :
    (es : List (ℕ × Event)) (c : Core)
    → IsLatched c
    → All (λ te. NoClear c.clear_counter te.1) es
    → IsLatched (run c es).0 × ((run c es).0.estop_cause ≡ c.estop_cause)
unfolding run
run-IsLatched [] c h n = (h, refl)
run-IsLatched ((t, e) ∷ es) c h n =
    let (h', same_cause, same_counter) = step-IsLatched c t e h n.0 in
    let later =
      run-IsLatched es (step c t e).0 h'
        (subst (λ k. All (λ te. NoClear k te.1) es) (sym same_counter) n.1) in
    (later.0, later.1 ∙ same_cause)

step-clear_counter : (c : Core) (t : ℕ) (e : Event) → c.clear_counter ≤ (step c t e).0.clear_counter
unfolding step
step-clear_counter c t e = ground arith

-- The counter never goes down.
pub run-clear_counter :
    (es : List (ℕ × Event)) (c : Core) → c.clear_counter ≤ (run c es).0.clear_counter
unfolding run
run-clear_counter [] c = omega arith
run-clear_counter ((t, e) ∷ es) c =
    omega (arith, step-clear_counter c t e, run-clear_counter es (step c t e).0)

-- A CLEAR_ESTOP that was accepted is refused for ever after, whatever happens in between, and so
-- is every one with a counter that is not greater.
pub on_clear_replay :
    (c : Core) (es : List (ℕ × Event)) (t t' magic magic' counter counter' : ℕ)
    → (on_clear c t magic counter).1 ≡ true
    → counter' ≤ counter
    → (on_clear (run (on_clear c t magic counter).0 es).0 t' magic' counter').1 ≡ false
unfolding on_clear
on_clear_replay c es t t' magic magic' counter counter' ok le =
    ground (arith, run-clear_counter es (on_clear c t magic counter).0)
