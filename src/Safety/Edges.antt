-- ===== src/Safety/Edges.antt =====
-- ps_safety_core.c: the transitions of the state machine, each with the event that makes it.
use powersuit.Base.{
  ℕ, ◌≡◌, ◌≢◌, ◌⊎◌, inl, refl, arith, Bool, true, false, List, [], ◌∷◌, ◌==◌, test_bit,
}
use powersuit.Wire.{State, boot, standby, operational, passive, estop, fault, code}
use powersuit.Safety.{
  Core, Event, heartbeat, estop_frame, clear, cmd, mode_set, local_fault, bus_down, timer, step,
  run,
}

-- The events that can stop a node: a beat that carries the latch flag, an ESTOP frame, a local
-- fault, and the command to stop.
abbrev pub stops : Event → Bool
stops (heartbeat hb) = test_bit hb.flags 0
stops (estop_frame cause) = true
stops (clear magic counter) = false
stops cmd = false
stops (mode_set target) = target == code estop
stops (local_fault cause) = true
stops bus_down = false
stops timer = false

-- The diagram of the state machine.
pub data Edge : State → Event → State → Type 0 where
  started : Edge boot timer standby
  armed : Edge standby timer operational
  lost : Edge operational timer passive
  bus_lost : Edge operational bus_down passive
  rearmed : Edge passive timer operational
  released : Edge estop timer standby
  parked :
      (s : State) (n : ℕ)
      → n ≡ code standby
      → (s ≡ operational) ⊎ (s ≡ passive)
      → Edge s (mode_set n) standby
  limped :
      (s : State) (n : ℕ)
      → n ≡ code passive
      → (s ≡ operational) ⊎ (s ≡ standby)
      → Edge s (mode_set n) passive
  stopped : (s : State) (e : Event) → stops e ≡ true → Edge s e estop

-- Every event leaves the state as it is or takes an edge of the diagram.
pub step-Edge :
    (c : Core) (t : ℕ) (e : Event)
    → ((step c t e).0.state ≡ c.state) ⊎ Edge c.state e (step c t e).0.state
unfolding step
step-Edge c t (heartbeat hb) = ground (arith, stopped c.state (heartbeat hb))
step-Edge c t (estop_frame x) = ground (arith, stopped c.state (estop_frame x) refl)
step-Edge c t (clear m k) = ground arith
step-Edge c t cmd = inl refl
step-Edge c t (mode_set n) =
    ground (arith, stopped c.state (mode_set n), parked c.state n, limped c.state n)
step-Edge c t (local_fault x) = ground (arith, stopped c.state (local_fault x) refl)
step-Edge c t bus_down = ground (arith, bus_lost)
step-Edge c t timer = ground (arith, started, armed, lost, rearmed, released)

step-ne-fault : (c : Core) (t : ℕ) (e : Event) → c.state ≢ fault → (step c t e).0.state ≢ fault
unfolding step
step-ne-fault c t e h = ground arith

-- No sequence of events leads into FAULT from another state: no code enters it.
pub run-ne-fault : (es : List (ℕ × Event)) (c : Core) → c.state ≢ fault → (run c es).0.state ≢ fault
unfolding run
run-ne-fault [] c h = h
run-ne-fault ((t, e) ∷ es) c h = run-ne-fault es (step c t e).0 (step-ne-fault c t e h)
