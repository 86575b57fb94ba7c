-- ===== src/Gateway.antt =====
-- firmware/apps/node_chest_hub/main/gateway_task.c: the hub's pump between the two CAN buses and the link to
-- the orchestrator, with its mirror of the suit's state. The calls it makes are returned as a list of
-- actions, in order; what `ps_can_send` and `ps_spib_uplink_push` answer is an argument. Times are
-- arguments, one for each reading of the clock that can differ.
pub mod Dispatch
pub mod Forward
pub mod Overlap
use powersuit.Base.{
  ℕ, zero, suc, ◌+◌, ◌-◌, ◌^◌, Bool, true, false, not, ◌&&◌, ◌||◌, Option, none, some, List, [],
  ◌∷◌, ◌++◌, take, drop, set, replicate, u8, u16, u32, sub32, low_bits, test_bit, bit_or, ltb, leb,
  ◌==◌, if◌then◌else◌,
}
use powersuit.CanId.{
  CanFrame, CanId, pack, unpack, cls_safety, cls_control, cls_mgmt, node_hub, node_orch,
  node_broadcast, t_heartbeat, t_estop, t_clear_estop, t_led_pattern, t_mode_set, t_time_sync,
  t_flow_ctl,
}
use powersuit.Wire.{State, code, estop}
use powersuit.Wire.SafetyPayloads.{read_heartbeat, read_estop, read_clear_estop}
use powersuit.Wire.ControlPayloads.{LedPattern, read_led_pattern, read_mode_set}
use powersuit.Wire.LinkPayloads.{read_time_sync, write_time_sync, read_flow_ctl}
use powersuit.Safety.{
  Core, Call, same, on_heartbeat, on_estop, on_clear, on_mode_set, on_local_fault, tick,
}
use powersuit.Router.{port_can1, port_can2, port_spi, port_local, port_bit, route}
use powersuit.SpiFrame.{Record}

-- The calls of the gateway that reach other parts.
pub data Action : Type 0 where
  can_send : ℕ → CanFrame → Action
  uplink_push : Record → Action
  set_estop_flag : Bool → Action
  clear_accepted : Action
  led_override : LedPattern → Action

-- What `ps_can_send` on each bus and `ps_spib_uplink_push` answer.
pub record Answers : Type 0 where
  pub can1_ok : Bool
  pub can2_ok : Bool
  pub uplink_ok : Bool

-- The variables of the file, `hub_gw_counters_t` last.
pub record Gateway : Type 0 where
  pub mirror : Core
  pub last_pub_state : ℕ
  pub epoch_ms_lo : ℕ
  pub epoch_ref_ms : ℕ
  pub epoch_valid : Bool
  pub time_seq : ℕ
  pub flow_level : List ℕ
  pub fwd_can1 : ℕ
  pub fwd_can2 : ℕ
  pub fwd_spi : ℕ
  pub local_consumed : ℕ
  pub anomalies : ℕ
  pub queue_drops : ℕ
  pub tx_timeouts : ℕ

-- `mirror_publish`
unfoldable pub publish : Gateway → State → Gateway × List Action
publish g state =
    if code state == g.last_pub_state
    then (g, [])
    else (record g { last_pub_state = code state }, set_estop_flag (same state estop) ∷ [])

-- A critical section that leaves the mirror `m`, and the call of `mirror_publish` behind it, when no other task is in such a pair
-- at that time. Gateway.Overlap has the steps of those that overlap.
unfoldable pub settle : Gateway → Core → Gateway × List Action
unfolding publish
settle g m = publish (record g { mirror = m }) m.state

-- `hub_gateway_safety_tick`
unfoldable pub safety_tick : Gateway → ℕ → Gateway × List Action
unfolding settle
safety_tick g now = settle g (tick g.mirror now).0

-- `hub_gateway_local_estop`
unfoldable pub local_estop : Gateway → ℕ → ℕ → Gateway × List Action
unfolding settle
local_estop g now cause = settle g (on_local_fault g.mirror now cause).0

-- `gw_local_safety`
unfoldable pub local_safety : Gateway → ℕ → CanFrame → ℕ → Gateway × List Action
unfolding settle
local_safety g now f type =
    if type == t_heartbeat
    then (if ltb f.dlc 8
        then (g, [])
        else settle g (on_heartbeat g.mirror now (read_heartbeat f.payload)).0)
    else if type == t_estop
    then (if ltb f.dlc 8
        then (g, [])
        else settle g (on_estop g.mirror now (read_estop f.payload).cause).0)
    else if type == t_clear_estop
    then (if ltb f.dlc 8
        then (g, [])
        else let cl = read_clear_estop f.payload in
          let (m, accepted) = on_clear g.mirror now cl.magic cl.counter in
          let (g', acts) = settle g m in
          (g', acts ++ (if accepted then clear_accepted ∷ [] else [])))
    else (g, [])

-- `gw_local_control`
unfoldable pub local_control : Gateway → ℕ → CanFrame → ℕ → Gateway × List Action
unfolding settle
local_control g now f type =
    if type == t_led_pattern
    then (if ltb f.dlc 8 then (g, []) else (g, led_override (read_led_pattern f.payload) ∷ []))
    else if type == t_mode_set
    then (if ltb f.dlc 1
        then (g, [])
        else settle g (on_mode_set g.mirror now (read_mode_set f.payload).target_state).0)
    else (g, [])

-- `gw_local_mgmt`
unfoldable pub local_mgmt : Gateway → ℕ → CanFrame → ℕ → ℕ → Gateway
local_mgmt g now f src type =
    if type == t_time_sync
    then (if ltb f.dlc 8 || not (src == node_orch) then g else record g {
      epoch_ms_lo = (read_time_sync f.payload).epoch_ms_lo;
      epoch_ref_ms = now;
      epoch_valid = true;
    })
    else if type == t_flow_ctl
    then (if ltb f.dlc 2
        then g
        else let fc = read_flow_ctl f.payload in
          if ltb fc.plane 8
          then record g { flow_level = set g.flow_level fc.plane fc.level }
          else g)
    else g

-- `gw_local_dispatch`
unfoldable pub local_dispatch : Gateway → ℕ → CanFrame → Gateway × List Action
unfolding local_safety local_control local_mgmt
local_dispatch g now f =
    let id = unpack f.id in
    let g' = record g { local_consumed = u32 (g.local_consumed + 1) } in
    if id.cls == cls_safety
    then local_safety g' now f id.type
    else if id.cls == cls_control
    then local_control g' now f id.type
    else if id.cls == cls_mgmt
    then (local_mgmt g' now f id.src id.type, [])
    else (g', [])

-- `origin_bus_tag`
unfoldable pub origin_bus_tag : ℕ → ℕ
origin_bus_tag origin_port =
    if origin_port == port_can1 then 0 else if origin_port == port_can2 then 1 else 3

-- The part of `hub_forward` for one bus.
unfoldable pub send_can1 : Gateway → Answers → CanFrame → Gateway × List Action
send_can1 g a f = (
  if a.can1_ok
      then record g { fwd_can1 = u32 (g.fwd_can1 + 1) }
      else record g { tx_timeouts = u32 (g.tx_timeouts + 1) },
  can_send 0 f ∷ [],
)

unfoldable pub send_can2 : Gateway → Answers → CanFrame → Gateway × List Action
send_can2 g a f = (
  if a.can2_ok
      then record g { fwd_can2 = u32 (g.fwd_can2 + 1) }
      else record g { tx_timeouts = u32 (g.tx_timeouts + 1) },
  can_send 1 f ∷ [],
)

-- The record that goes up, and the push.
unfoldable pub send_spi : Gateway → Answers → ℕ → ℕ → CanFrame → Gateway × List Action
unfolding origin_bus_tag
send_spi g a ts origin_port f = (
  if a.uplink_ok then record g { fwd_spi = u32 (g.fwd_spi + 1) } else g,
  uplink_push (record {
    id = f.id;
    bus = origin_bus_tag origin_port;
    dlc = f.dlc;
    ts_ms = u16 ts;
    payload = f.payload;
  })
      ∷ [],
)

-- `hub_forward` with the four bits of its mask; `ts` is the clock for the record, `now` that of the dispatch
-- after it.
unfoldable pub forward_to :
    Gateway → Answers → ℕ → ℕ → ℕ → CanFrame → Bool → Bool → Bool → Bool → Gateway × List Action
unfolding send_can1 send_can2 send_spi local_dispatch
forward_to g a ts now origin_port f to_can1 to_can2 to_spi to_local =
    let (g1, a1) = if to_can1 then send_can1 g a f else (g, []) in
    let (g2, a2) = if to_can2 then send_can2 g1 a f else (g1, []) in
    let (g3, a3) = if to_spi then send_spi g2 a ts origin_port f else (g2, []) in
    let (g4, a4) = if to_local then local_dispatch g3 now f else (g3, []) in
    (g4, a1 ++ (a2 ++ (a3 ++ a4)))

-- `hub_forward`
unfoldable pub forward : Gateway → Answers → ℕ → ℕ → ℕ → CanFrame → ℕ → Gateway × List Action
unfolding forward_to
forward g a ts now origin_port f mask =
    forward_to g a ts now origin_port f (test_bit mask port_can1) (test_bit mask port_can2)
      (test_bit mask port_spi) (test_bit mask port_local)

-- The body of the loop of `gw_pump_task`, for an item of the queue.
unfoldable pub pump : Gateway → Answers → ℕ → ℕ → ℕ → CanFrame → Gateway × List Action
unfolding forward
pump g a ts now port f =
    let mask = route port f.id in
    if mask == 0
    then (record g { anomalies = u32 (g.anomalies + 1) }, [])
    else forward g a ts now port f mask

-- The frame of a downlink record.
unfoldable pub frame_of : Record → CanFrame
frame_of r = record {
  id = low_bits r.id 29;
  dlc = if ltb 8 r.dlc then 8 else r.dlc;
  payload = r.payload;
}

-- The body of the loop of `gw_downlink_task`, for a record that was popped.
unfoldable pub downlink : Gateway → Answers → ℕ → ℕ → Record → Gateway × List Action
unfolding frame_of forward local_dispatch
downlink g a ts now r =
    let f = frame_of r in
    let mask = route port_spi f.id in
    if r.bus == 3
    then local_dispatch g now f
    else if mask == 0
    then (record g { anomalies = u32 (g.anomalies + 1) }, [])
    else forward g a ts now port_spi f mask

-- `hub_gateway_broadcast_time_sync`
unfoldable pub broadcast_time_sync : Gateway → Answers → ℕ → ℕ → Gateway × List Action
unfolding forward
broadcast_time_sync g a now ts =
    let epoch = if g.epoch_valid then u32 (g.epoch_ms_lo + sub32 now g.epoch_ref_ms) else 0 in
    let f : CanFrame = record {
      id = pack cls_mgmt node_hub node_broadcast t_time_sync 0;
      dlc = 8;
      payload = write_time_sync (record { epoch_ms_lo = epoch; seq = g.time_seq; rsvd = 0 });
    } in
    forward (record g { time_seq = u16 (g.time_seq + 1) }) a ts now port_local f
      (bit_or (port_bit port_can1) (port_bit port_can2))

-- `gw_rx_cb` with the queue's answer.
unfoldable pub rx_refused : Gateway → Bool → Gateway
rx_refused g sent = if sent then g else record g { queue_drops = u32 (g.queue_drops + 1) }
