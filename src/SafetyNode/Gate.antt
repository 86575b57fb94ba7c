-- ===== src/SafetyNode/Gate.antt =====
-- ps_safety_esp.c: what can open the gate of actuation.
use powersuit.Base.{by_if, ℕ, ◌≡◌, ◌≢◌, arith, true, false, Bool-cases, inl, inr, List, ◌==◌}
use powersuit.CanId.{CanFrame, id_type, t_heartbeat, t_estop, t_clear_estop}
use powersuit.Wire.{operational}
use powersuit.Wire.SafetyPayloads.{read_heartbeat, read_estop, read_clear_estop}
use powersuit.Safety.{
  Call, Event, step, timer, heartbeat, estop_frame, clear, cmd, mode_set, bus_down,
}
use powersuit.Safety.Gate.{Ready, energise_needs}
use powersuit.SafetyNode.{
  Node, safety_rx, tick_cb, can_state_cb, can_actuate, note_cmd, note_mode_set,
}

closed_core : (n : Node) → can_actuate n ≡ false → n.started ≡ true → n.core.state ≢ operational
unfolding can_actuate
closed_core n h s e = ground arith

gate_open : (n : Node) → can_actuate n ≡ true → n.started ≡ true × n.core.state ≡ operational
unfolding can_actuate
gate_open n h = ground arith

module _ (n : Node) (t : ℕ) (h : can_actuate n ≡ false) where
  -- An event opens the gate only if it is a tick, of a node that is ready.
  opens_at :
      (e : Event)
      → can_actuate (record n { core = (step n.core t e).0 }) ≡ true
      → (n.started ≡ true) × (e ≡ timer) × Ready n.core t
  opens_at e o =
      let (s, op) = gate_open (record n { core = (step n.core t e).0 }) o in
      let (at, ready) = energise_needs n.core t e (closed_core n h s) op in (s, at, ready)

  stays_closed :
      (e : Event) → e ≢ timer → can_actuate (record n { core = (step n.core t e).0 }) ≡ false
  stays_closed e ne = elim (Bool-cases (can_actuate (record n { core = (step n.core t e).0 }))) [
    | inl o ↦ absurd (ne (opens_at e o).1)
    | inr c ↦ c
  ]

  rx_closed : (f : CanFrame) → can_actuate (safety_rx n t f).0 ≡ false
  unfolding safety_rx step
  rx_closed f = elim (Bool-cases (id_type f.id == t_heartbeat)) [
    | inl e ↦ rw e (stays_closed (heartbeat (read_heartbeat f.payload)) (λ q. ground arith))
    | inr a ↦ elim (Bool-cases (id_type f.id == t_estop)) [
      | inl e ↦
          rw (a, e) (stays_closed (estop_frame (read_estop f.payload).cause) (λ q. ground arith))
      | inr b ↦ elim (Bool-cases (id_type f.id == t_clear_estop)) [
        | inl e ↦
            rw (a, b, e)
              (stays_closed
                (clear (read_clear_estop f.payload).magic (read_clear_estop f.payload).counter)
                (λ q. ground arith))
        | inr c ↦ rw (a, b, c) h
      ]
    ]
  ]

  bus_closed : (state : ℕ) → can_actuate (can_state_cb n t state).0 ≡ false
  unfolding can_state_cb step
  bus_closed state =
      by_if (λ (r : Node × List Call). can_actuate r.0 ≡ false) _
        (stays_closed bus_down (λ q. ground arith)) h

  cmd_closed : can_actuate (note_cmd n t) ≡ false
  unfolding note_cmd step
  cmd_closed = by_if (λ r. can_actuate r ≡ false) _ h (stays_closed cmd (λ q. ground arith))

  mode_closed : (target : ℕ) → can_actuate (note_mode_set n t target).0 ≡ false
  unfolding note_mode_set step
  mode_closed target =
      by_if (λ (r : Node × List Call). can_actuate r.0 ≡ false) _ h
        (stays_closed (mode_set target) (λ q. ground arith))

  tick_opens : can_actuate (tick_cb n t).0 ≡ true → (n.started ≡ true) × Ready n.core t
  unfolding tick_cb step
  tick_opens o = let (s, _, ready) = opens_at timer o in (s, ready)

-- While the gate of actuation is closed, no frame, report of the bus, command or mode request opens it; a tick opens it only
-- on a node that has started, was asked to be OPERATIONAL, has its heartbeat in time, and is in STANDBY, or in PASSIVE
-- after the re-arm window with a fresh command.
pub can_actuate_opens :
    (n : Node) (t : ℕ) (f : CanFrame) (state target : ℕ)
    → can_actuate n ≡ false
    → (can_actuate (safety_rx n t f).0 ≡ false)
      × (can_actuate (can_state_cb n t state).0 ≡ false)
      × (can_actuate (note_cmd n t) ≡ false)
      × (can_actuate (note_mode_set n t target).0 ≡ false)
      × (can_actuate (tick_cb n t).0 ≡ true → (n.started ≡ true) × Ready n.core t)
can_actuate_opens n t f state target h = (
  rx_closed n t h f,
  bus_closed n t h state,
  cmd_closed n t h,
  mode_closed n t h target,
  tick_opens n t h,
)
