-- ===== src/Safety/Calls.antt =====
-- ps_safety_core.c: what the registered callback is told.
use powersuit.Base.{ℕ, ◌≡◌, ◌≢◌, refl, sym, subst, arith, true, List, [], ◌∷◌, ◌++◌}
use powersuit.Wire.{State}
use powersuit.Safety.{Core, Call, Event, step, run}

-- The calls lead from the state `s` to the state `s'`, each from where the one before it ended,
-- and none from a state to itself.
abbrev pub Chain : State → List Call → State → Type 0
Chain s [] s' = s ≡ s'
Chain s (x ∷ xs) s' = (s ≡ x.old) × (x.old ≢ x.new) × Chain x.new xs s'

Chain-append :
    (xs ys : List Call) (s s' s'' : State)
    → Chain s xs s'
    → Chain s' ys s''
    → Chain s (xs ++ ys) s''
Chain-append [] ys s s' s'' h k = subst (λ x. Chain x ys s'') (sym h) k
Chain-append (x ∷ xs) ys s s' s'' h k = (h.0, h.1, Chain-append xs ys x.new s' s'' h.2 k)

pub step-Chain :
    (c : Core) (t : ℕ) (e : Event)
    → c.on_transition ≡ true
    → Chain c.state (step c t e).1 (step c t e).0.state × ((step c t e).0.on_transition ≡ true)
unfolding step
step-Chain c t e r = ground arith

-- Over any sequence of events a callback that is registered hears of every change of state, in order, and of
-- nothing else.
pub run-Chain :
    (es : List (ℕ × Event)) (c : Core)
    → c.on_transition ≡ true
    → Chain c.state (run c es).1 (run c es).0.state
unfolding run
run-Chain [] c r = refl
run-Chain ((t, e) ∷ es) c r =
    Chain-append (step c t e).1 (run (step c t e).0 es).1 c.state (step c t e).0.state
      (run (step c t e).0 es).0.state (step-Chain c t e r).0
      (run-Chain es (step c t e).0 (step-Chain c t e r).1)
