-- ===== src/SafetyNode/Tells.antt =====
-- ps_safety_esp.c: what the callback of a node hears. Every call of the node's safety layer leads by its callbacks from the old
-- state to the new one.
use powersuit.Base.{
  ℕ, zero, suc, ◌+◌, ◌≡◌, refl, ap, subst, ◌∙◌, by_if, Bool, true, not, arith, Option, none, some,
  List, u16, ◌==◌,
}
use powersuit.CanId.{CanFrame, id_type, t_heartbeat, t_estop, t_clear_estop}
use powersuit.Wire.{State, boot, standby, operational, passive, estop, fault, estop_software}
use powersuit.Wire.SafetyPayloads.{read_heartbeat, read_estop, read_clear_estop, write_estop}
use powersuit.Safety
use powersuit.Safety.{same, Core, Call, step, on_cmd, on_estop}
use powersuit.Safety.Calls.{Chain, step-Chain}
use powersuit.SafetyNode.{
  Node, can_actuate, note_mode_set, note_cmd, raise_estop, safety_rx, tick_cb, can_state_cb,
  repeat_estop, send_safety,
}

-- A state into which a node trips.
abbrev pub IsTrip : State → Type 0
IsTrip boot = ⊥
IsTrip standby = ⊥
IsTrip operational = ⊥
IsTrip passive = Unit {0}
IsTrip estop = Unit {0}
IsTrip fault = Unit {0}

-- The node's callback is registered, and its calls lead from the old state to the new one.
abbrev pub Tells : Node → Node × List Call → Type 0
Tells n (n', calls) = Chain n.core.state calls n'.core.state × (n'.core.on_transition ≡ true)

module _ (n : Node) (now : ℕ) (on : n.core.on_transition ≡ true) where
  pub rx-Tells : (f : CanFrame) → Tells n (safety_rx n now f)
  unfolding safety_rx step
  rx-Tells f =
      by_if (Tells n) (id_type f.id == t_heartbeat)
        (step-Chain n.core now (Safety.heartbeat (read_heartbeat f.payload)) on)
        (by_if (Tells n) (id_type f.id == t_estop)
          (step-Chain n.core now (Safety.estop_frame (read_estop f.payload).cause) on)
          (by_if (Tells n) (id_type f.id == t_clear_estop)
            (step-Chain n.core now
              (Safety.clear (read_clear_estop f.payload).magic (read_clear_estop f.payload).counter)
              on)
            (refl, on)))

  pub tick-Tells : Tells n (tick_cb n now)
  unfolding tick_cb step
  tick-Tells = step-Chain n.core now Safety.timer on

  pub bus-Tells : (st : ℕ) → Tells n (can_state_cb n now st)
  unfolding can_state_cb step
  bus-Tells st = by_if (Tells n) _ (step-Chain n.core now Safety.bus_down on) (refl, on)

  pub mode-Tells : (target : ℕ) → Tells n (note_mode_set n now target)
  unfolding note_mode_set step
  mode-Tells target =
      by_if (Tells n) (not n.started) (refl, on) (step-Chain n.core now (Safety.mode_set target) on)

pub note_cmd_core :
    (n : Node) (now : ℕ)
    → ((note_cmd n now).core.state ≡ n.core.state)
      × ((note_cmd n now).core.on_transition ≡ n.core.on_transition)
unfolding note_cmd on_cmd
note_cmd_core n now =
    by_if
      (λ (m : Node). (m.core.state ≡ n.core.state) × (m.core.on_transition ≡ n.core.on_transition))
      (not n.started) (refl, refl) (refl, refl)

repeat_core : (k : ℕ) (n : Node) (p : List ℕ) → (repeat_estop k n p).0.core ≡ n.core
unfolding repeat_estop send_safety
repeat_core zero n p = refl
repeat_core (suc k) n p = repeat_core k (send_safety n t_estop p).0 p

-- What `ps_safety_raise_estop` gives, if it does not refuse.
abbrev pub Raises : Node → Option (Node × List CanFrame × List Call × Bool) → Type 0
Raises n none = Unit {0}
Raises n (some (n', frames, calls, sent)) = Tells n (n', calls)

pub raise-Raises :
    (n : Node) (uptime now : ℕ)
    → n.core.on_transition ≡ true
    → Raises n (raise_estop n uptime now estop_software true)
unfolding raise_estop step
raise-Raises n uptime now on = by_if (Raises n) (not n.started) tt (
    subst
      (λ (c : Core).
        Chain c.state (on_estop n1.core now estop_software).1
          (on_estop n1.core now estop_software).0.state
        × ((on_estop n1.core now estop_software).0.on_transition ≡ true))
      same
      (step-Chain n1.core now (Safety.local_fault estop_software)
        (ap (λ (c : Core). c.on_transition) same ∙ on)))
  where
    payload : List ℕ
    payload = write_estop (record {
      cause = estop_software;
      origin_node = n.node_id;
      seq = u16 (n.estop_seq + 1);
      uptime_ms = uptime;
    })

    n1 : Node
    n1 = (repeat_estop 3 (record n { estop_seq = u16 (n.estop_seq + 1) }) payload).0

    same : n1.core ≡ n.core
    same = repeat_core 3 (record n { estop_seq = u16 (n.estop_seq + 1) }) payload

pub can_actuate_state : (n : Node) → can_actuate n ≡ true → n.core.state ≡ operational
unfolding can_actuate
can_actuate_state n h = ground arith
