-- ===== src/Safety.antt =====
-- firmware/components/ps_safety: the node safety state machine of ps_safety_core.c.
-- `c->on_transition` is a flag that says whether a callback is registered; the calls made to it,
-- each `(old, new, cause)`, are returned beside the new state. The field `cb_arg`, an opaque
-- pointer handed to the callback, is left out.
pub mod Clock
pub mod Gate
pub mod Edges
pub mod Latch
pub mod Calls
pub mod Rearm
use powersuit.Base.{
  ℕ, zero, suc, ◌+◌, ◌-◌, ◌^◌, ◌%◌, Bool, true, false, not, ◌&&◌, ◌||◌, List, [], ◌∷◌, ◌++◌,
  if◌then◌else◌, ◌==◌, leb, ltb, sub32, test_bit,
}
use powersuit.Base.Int.{ℤ, pos, leb_ℤ, ltb_ℤ, signed32}
use powersuit.Wire.{
  State, boot, standby, operational, passive, estop, fault, code, Heartbeat, heartbeat_timeout_ms,
  rearm_window_ms, cmd_stale_ms, estop_rearm_ms, clear_estop_magic, estop_operator, estop_comm_loss,
  estop_software,
}

-- `ps_safety_core_t`
pub record Core : Type 0 where
  pub state : State
  pub estop_cause : ℕ
  pub last_hb_seq : ℕ
  pub last_hb_ms : ℕ
  pub hb_streak_start_ms : ℕ
  pub last_cmd_ms : ℕ
  pub clear_counter : ℕ
  pub estop_since_ms : ℕ
  pub have_hb : Bool
  pub want_operational : Bool
  pub on_transition : Bool

-- One call of the callback.
pub record Call : Type 0 where
  pub old : State
  pub new : State
  pub cause : ℕ

abbrev pub same : State → State → Bool
same a b = code a == code b

-- `elapsed`: the difference of two `uint32_t`, read as an `int32_t`.
unfoldable pub elapsed : ℕ → ℕ → ℤ
elapsed now_ms then_ms = signed32 (sub32 now_ms then_ms)

-- `go`
unfoldable pub go : Core → State → ℕ → Core × List Call
go c next cause = if same c.state next then (c, []) else (
  record c { state = next },
  if c.on_transition then record { old = c.state; new = next; cause = cause } ∷ [] else [],
)

unfoldable pub heartbeat_ok : Core → ℕ → Bool
heartbeat_ok c now_ms = c.have_hb && leb_ℤ (elapsed now_ms c.last_hb_ms) (pos heartbeat_timeout_ms)

unfoldable pub streak_ms : Core → ℕ → ℤ
streak_ms c now_ms = if c.have_hb then elapsed now_ms c.hb_streak_start_ms else pos 0

-- `ps_safety_core_init`
unfoldable pub init : ℕ → Bool → Core
init now_ms cb = record {
  state = boot;
  estop_cause = 0;
  last_hb_seq = 0;
  last_hb_ms = sub32 (sub32 now_ms heartbeat_timeout_ms) 1;
  hb_streak_start_ms = sub32 (sub32 now_ms heartbeat_timeout_ms) 1;
  last_cmd_ms = sub32 (sub32 now_ms cmd_stale_ms) 1;
  clear_counter = 0;
  estop_since_ms = 0;
  have_hb = false;
  want_operational = false;
  on_transition = cb;
}

abbrev is_estop : State → Bool
is_estop s = same s estop

-- `ps_safety_core_on_estop`
unfoldable pub on_estop : Core → ℕ → ℕ → Core × List Call
unfolding go
on_estop c now_ms cause =
    if is_estop c.state && not (c.estop_cause == 0)
    then (c, [])
    else let cause' = if cause == 0 then estop_software else cause in
      go (record c { estop_cause = cause'; estop_since_ms = now_ms; want_operational = false })
        estop cause'

-- The timestamps that `ps_safety_core_on_heartbeat` stores.
unfoldable pub note_beat : Core → ℕ → ℕ → Core
note_beat c now_ms seq =
    let broken = not c.have_hb || ltb_ℤ (pos heartbeat_timeout_ms) (elapsed now_ms c.last_hb_ms) in
    record c {
      hb_streak_start_ms = if broken then now_ms else c.hb_streak_start_ms;
      have_hb = true;
      last_hb_ms = now_ms;
      last_hb_seq = seq;
    }

-- `ps_safety_core_on_heartbeat`
unfoldable pub on_heartbeat : Core → ℕ → Heartbeat → Core × List Call
unfolding note_beat on_estop
on_heartbeat c now_ms hb =
    if c.have_hb && hb.seq == c.last_hb_seq
    then (c, [])
    else let c' = note_beat c now_ms hb.seq in
      if test_bit hb.flags 0 then on_estop c' now_ms estop_operator else (c', [])

-- `ps_safety_core_on_clear`; the result says whether the clear was accepted.
unfoldable pub on_clear : Core → ℕ → ℕ → ℕ → Core × Bool
on_clear c now_ms magic counter =
    if not (magic == clear_estop_magic)
    then (c, false)
    else if leb counter c.clear_counter
    then (c, false)
    else (
      if is_estop c.state
          then record c { clear_counter = counter; estop_cause = 0; estop_since_ms = now_ms }
          else record c { clear_counter = counter },
      true,
    )

-- `ps_safety_core_on_cmd`
unfoldable pub on_cmd : Core → ℕ → Core
on_cmd c now_ms = record c { last_cmd_ms = now_ms }

-- `ps_safety_core_on_mode_set`, with `target_state` the byte of the frame. A code that is none of
-- the four is the `default`.
unfoldable pub on_mode_set : Core → ℕ → ℕ → Core × List Call
unfolding go on_estop
on_mode_set c now_ms target_state =
    let off = record c { want_operational = false } in
    if target_state == code operational
    then (record c { want_operational = true }, [])
    else if target_state == code standby
    then (if same c.state operational || same c.state passive then go off standby 0 else (off, []))
    else if target_state == code passive
    then (if same c.state operational || same c.state standby then go off passive 0 else (off, []))
    else if target_state == code estop
    then on_estop c now_ms estop_operator
    else (c, [])

-- `ps_safety_core_on_local_fault`
unfoldable pub on_local_fault : Core → ℕ → ℕ → Core × List Call
unfolding on_estop
on_local_fault c now_ms estop_cause = on_estop c now_ms estop_cause

-- `ps_safety_core_on_bus_down`
unfoldable pub on_bus_down : Core → ℕ → Core × List Call
unfolding go
on_bus_down c now_ms =
    let c' = record c { have_hb = false } in
    if same c.state operational then go c' passive estop_comm_loss else (c', [])

-- `ps_safety_core_cmd_fresh`
unfoldable pub cmd_fresh : Core → ℕ → Bool
cmd_fresh c now_ms = ltb_ℤ (elapsed now_ms c.last_cmd_ms) (pos cmd_stale_ms)

-- The `switch` of `ps_safety_core_tick`, on the state.
tick_state : State → Core → ℕ → Core × List Call
unfolding go heartbeat_ok streak_ms cmd_fresh
tick_state boot c now_ms = go c standby 0
tick_state estop c now_ms =
    if c.estop_cause == 0
      && heartbeat_ok c now_ms
      && leb_ℤ (pos estop_rearm_ms) (streak_ms c now_ms)
    then go c standby 0
    else (c, [])
tick_state operational c now_ms =
    if not (heartbeat_ok c now_ms) then go c passive estop_comm_loss else (c, [])
tick_state standby c now_ms =
    if c.want_operational && heartbeat_ok c now_ms then go c operational 0 else (c, [])
tick_state passive c now_ms =
    if c.want_operational
      && heartbeat_ok c now_ms
      && leb_ℤ (pos rearm_window_ms) (streak_ms c now_ms)
      && leb_ℤ (pos 0) (elapsed c.last_cmd_ms c.hb_streak_start_ms)
      && cmd_fresh c now_ms
    then go c operational 0
    else (c, [])
tick_state fault c now_ms = (c, [])

-- `ps_safety_core_tick`; what it returns is the `state` of the new core.
unfoldable pub tick : Core → ℕ → Core × List Call
unfolding tick_state
tick c now_ms = tick_state c.state c now_ms

-- The events of the interface, fed at a time `now_ms`.
pub data Event : Type 0 where
  heartbeat : Heartbeat → Event
  estop_frame : ℕ → Event
  clear : ℕ → ℕ → Event
  cmd : Event
  mode_set : ℕ → Event
  local_fault : ℕ → Event
  bus_down : Event
  timer : Event

unfoldable pub step : Core → ℕ → Event → Core × List Call
unfolding on_heartbeat on_estop on_clear on_cmd on_mode_set on_local_fault on_bus_down tick
step c now_ms (heartbeat hb) = on_heartbeat c now_ms hb
step c now_ms (estop_frame cause) = on_estop c now_ms cause
step c now_ms (clear magic counter) = ((on_clear c now_ms magic counter).0, [])
step c now_ms cmd = (on_cmd c now_ms, [])
step c now_ms (mode_set target) = on_mode_set c now_ms target
step c now_ms (local_fault cause) = on_local_fault c now_ms cause
step c now_ms bus_down = on_bus_down c now_ms
step c now_ms timer = tick c now_ms

-- A run over events in the order in which they are fed, each with its time.
unfoldable pub run : Core → List (ℕ × Event) → Core × List Call
run c [] = (c, [])
run c ((t, e) ∷ es) =
    let (c', calls) = step c t e in let (c'', later) = run c' es in (c'', calls ++ later)
