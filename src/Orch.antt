-- ===== src/Orch.antt =====
-- orchestrator/ros2_ws/src/suit_canspi_bridge: the bridge process of the orchestrator, in heartbeat.cpp, estop_service.cpp
-- and main.cpp. A callback of the middleware and a round of the transport thread are one step each. The file of the clear counter is kept by a file system that is a parameter. The steady clock is in
-- nanoseconds.
pub mod Parser
pub mod Process
pub mod Beats
pub mod Traffic
pub mod OnWire
pub mod Heard
pub mod Silence
pub mod Spacing
pub mod Stops
pub mod Clears
pub mod Uplink
pub mod Downlink
use powersuit.Base.{
  ℕ, zero, suc, ◌+◌, ◌-◌, ◌/◌, Bool, true, false, not, ◌&&◌, Option, none, some, List, [], ◌∷◌,
  ◌++◌, ltb, if◌then◌else◌, u8, u16, u32,
}
use powersuit.CanId.{
  pack, cls_safety, node_orch, node_broadcast, t_heartbeat, t_estop, t_clear_estop,
}
use powersuit.Wire.{clear_estop_magic, estop_operator}
use powersuit.Wire.SafetyPayloads.{write_heartbeat, write_estop, write_clear_estop}
use powersuit.SpiFrame.{Record}

-- `PS_SPI_BUS_CAN1`, `PS_HEARTBEAT_PERIOD_MS`
abbrev pub bus_can1 : ℕ
bus_can1 = 0

abbrev pub heartbeat_period_ms : ℕ
heartbeat_period_ms = 10

-- `duration_cast` to milliseconds of the time since `past`.
abbrev pub ms_since : ℕ → ℕ → ℕ
ms_since past now = (now - past) / 1000000

-- The record of a whole payload on the safety class, from the orchestrator to everyone.
abbrev pub safety_record : ℕ → ℕ → List ℕ → Record
safety_record type low payload = record {
  id = pack cls_safety node_orch node_broadcast type low;
  bus = bus_can1;
  dlc = 8;
  ts_ms = 0;
  payload = payload;
}

-- `HeartbeatGateInputs`
pub record GateInputs : Type 0 where
  pub transport_healthy : Bool
  pub estop_latched : Bool
  pub rclcpp_ok : Bool

-- `heartbeat_gate_open`
abbrev pub heartbeat_gate_open : GateInputs → Bool
heartbeat_gate_open g = g.transport_healthy && not g.estop_latched && g.rclcpp_ok

-- `HeartbeatEmitter`
pub record Emitter : Type 0 where
  pub seq : ℕ
  pub have_last_emit : Bool
  pub last_emit : ℕ

-- The flags of a heartbeat: `PS_HB_ESTOP_LATCHED`, `PS_HB_DEGRADED` and `PS_HB_CLOUD_UP`.
abbrev pub hb_flags : Bool → Bool → Bool → ℕ
hb_flags latched degraded cloud_up =
    (if latched then 1 else 0) + (if degraded then 2 else 0) + (if cloud_up then 4 else 0)

-- `HeartbeatEmitter::tick`
unfoldable pub emit_beat : Emitter → ℕ → GateInputs → Bool → Bool → ℕ → ℕ → Emitter × Option Record
emit_beat e now gate cloud_up degraded src_state uptime_ms =
    if not (heartbeat_gate_open gate)
    then (e, none)
    else if e.have_last_emit && ltb (ms_since e.last_emit now) heartbeat_period_ms
    then (e, none)
    else (
      record { seq = u16 (e.seq + 1); have_last_emit = true; last_emit = now },
      some (
          safety_record t_heartbeat (u8 e.seq) (
            write_heartbeat (record {
              seq = e.seq;
              flags = hb_flags gate.estop_latched degraded cloud_up;
              src_state = src_state;
              uptime_ms = uptime_ms;
            }))),
    )

-- The file system, as the code uses it: a file that holds a number, or `none` where none can be read; the result of writing
-- a number to a file that is cut, or `none` where it cannot be opened; the directories above a path; the path of the same
-- name in /tmp.
pub record Files (S A : Type 0) : Type 0 where
  pub read : S → A → Option ℕ
  pub write : S → A → ℕ → Option S
  pub make_parents : S → A → S
  pub in_tmp : A → A

-- `EstopService`
pub record Service (A : Type 0) : Type 0 where
  pub counter_path : A
  pub seq : ℕ
  pub latched : Bool
  pub latched_cause : ℕ

module _ {S A : Type 0} (k : Files S A) where
  -- The number that a stream that cannot be read leaves is 0.
  abbrev pub last_counter : S → A → ℕ
  last_counter s path = elim (k.read s path) [ none ↦ 0 | some n ↦ n ]

  -- The writing of the number `next` in `load_and_bump_counter`.
  unfoldable pub save_counter : S → A → ℕ → S × A
  save_counter s path next = elim (k.write s path next) [
    | some s' ↦ (s', path)
    | none ↦ elim (k.write s (k.in_tmp path) next) [
      | some s' ↦ (s', k.in_tmp path)
      | none ↦ (s, k.in_tmp path)
    ]
  ]

  -- `load_and_bump_counter`
  unfoldable pub load_and_bump_counter : S → Service A → S × Service A × ℕ
  unfolding save_counter
  load_and_bump_counter s v =
      let next = u32 (last_counter s v.counter_path + 1) in
      let (s', path) = save_counter (k.make_parents s v.counter_path) v.counter_path next in
      (s', record v { counter_path = path }, next)

  -- The part of `handle` behind its first branch.
  unfoldable pub disengage : S → Service A → S × Service A × Record
  unfolding load_and_bump_counter
  disengage s v =
      let (s', v', counter) = load_and_bump_counter s v in
      (
        s',
        record v' { latched = false; latched_cause = 0 },
        safety_record t_clear_estop 0
            (write_clear_estop (record { magic = clear_estop_magic; counter = counter })),
      )

-- The loop of `handle` with `n` records left; `uptime` gives the reading of the clock in each round.
unfoldable pub stop_records : {A : Type 0} → ℕ → (ℕ → ℕ) → Service A → Service A × List Record
stop_records zero uptime v = (v, [])
stop_records (suc n) uptime v =
    let (v', rs) = stop_records n uptime (record v { seq = u16 (v.seq + 1) }) in
    (
      v',
      safety_record t_estop (u8 v.seq) (
            write_estop (record {
              cause = estop_operator;
              origin_node = node_orch;
              seq = v.seq;
              uptime_ms = uptime n;
            }))
          ∷ rs,
    )

-- The branch of `handle` for `engage`.
unfoldable pub engage : {A : Type 0} → (ℕ → ℕ) → Service A → Service A × List Record
unfolding stop_records
engage uptime v =
    let (v', rs) = stop_records 3 uptime v in
    (record v' { latched = true; latched_cause = estop_operator }, rs)
