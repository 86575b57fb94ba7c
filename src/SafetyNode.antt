-- ===== src/SafetyNode.antt =====
-- firmware/components/ps_safety/src/ps_safety_esp.c: the safety core on a node's CAN bus. The frames that it
-- sends are returned, in order; whether `ps_can_send` takes one is an argument.
pub mod Stop
pub mod Gate
pub mod Tells
use powersuit.Base.{
  ℕ, zero, suc, ◌+◌, ◌-◌, Bool, true, false, not, ◌&&◌, ◌||◌, Option, none, some, List, [], ◌∷◌,
  ◌++◌, u8, u16, ◌==◌, if◌then◌else◌, replicate, length, take,
}
use powersuit.CanId.{
  CanFrame, pack, id_type, cls_safety, node_broadcast, t_heartbeat, t_estop, t_clear_estop,
  t_node_fault,
}
use powersuit.Wire.{State, boot, operational, code}
use powersuit.Wire.SafetyPayloads.{
  Estop, NodeFault, read_heartbeat, read_estop, read_clear_estop, write_estop, write_node_fault,
}
use powersuit.Safety
use powersuit.Safety.{
  Core, Call, same, on_heartbeat, on_estop, on_clear, on_cmd, on_mode_set, on_bus_down, cmd_fresh,
  tick,
}

-- `PS_CAN_STATE_ERR_PASSIVE` and `PS_CAN_STATE_BUS_OFF`
abbrev pub err_passive : ℕ
err_passive = 1

abbrev pub bus_off : ℕ
bus_off = 2

-- The static struct `s`, less its handles. The callback of the core is always registered.
pub record Node : Type 0 where
  pub core : Core
  pub node_id : ℕ
  pub safety_low : ℕ
  pub estop_seq : ℕ
  pub started : Bool

-- `ps_safety_start`, when the calls that it makes succeed; `none` is the refusal of a node that has started.
unfoldable pub start : Node → ℕ → ℕ → Option Node
start n now node_id =
    if n.started
    then none
    else some (record {
      core = Safety.init now true;
      node_id = node_id;
      safety_low = 0;
      estop_seq = 0;
      started = true;
    })

-- `send_safety`, of a payload of at most eight bytes; what is left of `data` is zero.
unfoldable pub send_safety : Node → ℕ → List ℕ → Node × CanFrame
send_safety n type payload = (
  record n { safety_low = u8 (n.safety_low + 1) },
  record {
    id = pack cls_safety n.node_id node_broadcast type n.safety_low;
    dlc = length payload;
    payload = take 8 (payload ++ replicate 8 0);
  },
)

-- `safety_rx`
unfoldable pub safety_rx : Node → ℕ → CanFrame → Node × List Call
safety_rx n t f =
    if id_type f.id == t_heartbeat
    then (let (c, calls) = on_heartbeat n.core t (read_heartbeat f.payload) in
        (record n { core = c }, calls))
    else if id_type f.id == t_estop
    then (let (c, calls) = on_estop n.core t (read_estop f.payload).cause in
        (record n { core = c }, calls))
    else if id_type f.id == t_clear_estop
    then (let cl = read_clear_estop f.payload in
        let (c, accepted) = on_clear n.core t cl.magic cl.counter in (record n { core = c }, []))
    else (n, [])

-- `tick_cb`
unfoldable pub tick_cb : Node → ℕ → Node × List Call
tick_cb n now = let (c, calls) = tick n.core now in (record n { core = c }, calls)

-- `can_state_cb`
unfoldable pub can_state_cb : Node → ℕ → ℕ → Node × List Call
can_state_cb n now state =
    if state == bus_off || state == err_passive
    then (let (c, calls) = on_bus_down n.core now in (record n { core = c }, calls))
    else (n, [])

-- `ps_safety_state`
unfoldable pub node_state : Node → State
node_state n = if n.started then n.core.state else boot

-- `ps_safety_can_actuate`
unfoldable pub can_actuate : Node → Bool
can_actuate n = n.started && same n.core.state operational

-- `ps_safety_cmd_fresh`
unfoldable pub node_cmd_fresh : Node → ℕ → Bool
node_cmd_fresh n now = n.started && cmd_fresh n.core now

-- `ps_safety_note_cmd`
unfoldable pub note_cmd : Node → ℕ → Node
note_cmd n now = if not n.started then n else record n { core = on_cmd n.core now }

-- `ps_safety_note_mode_set`
unfoldable pub note_mode_set : Node → ℕ → ℕ → Node × List Call
note_mode_set n now target =
    if not n.started
    then (n, [])
    else let (c, calls) = on_mode_set n.core now target in (record n { core = c }, calls)

-- The three sends of `ps_safety_raise_estop`, `k` of them left.
unfoldable pub repeat_estop : ℕ → Node → List ℕ → Node × List CanFrame
unfolding send_safety
repeat_estop zero n payload = (n, [])
repeat_estop (suc k) n payload =
    let (n1, f) = send_safety n t_estop payload in
    let (n', fs) = repeat_estop k n1 payload in (n', f ∷ fs)

-- `ps_safety_raise_estop`; `sent` is what `ps_can_send` answers for the first frame. `none` is the refusal of
-- a node that has not started.
unfoldable pub raise_estop :
    Node → ℕ → ℕ → ℕ → Bool → Option (Node × List CanFrame × List Call × Bool)
unfolding repeat_estop
raise_estop n uptime now cause sent =
    let seq = u16 (n.estop_seq + 1) in
    let payload =
      write_estop
        (record { cause = cause; origin_node = n.node_id; seq = seq; uptime_ms = uptime }) in
    let (n', frames) = repeat_estop 3 (record n { estop_seq = seq }) payload in
    let (c, calls) = on_estop n'.core now cause in
    if not n.started then none else some (record n' { core = c }, frames, calls, sent)

-- `ps_safety_send_fault`
unfoldable pub send_fault : Node → ℕ → ℕ → ℕ → ℕ → Option (Node × CanFrame)
unfolding send_safety
send_fault n now fault_code severity detail =
    if not n.started
    then none
    else some (
        send_safety n t_node_fault (
          write_node_fault (record {
            fault_code = fault_code;
            severity = severity;
            detail = detail;
            uptime_ms = now;
          })))
