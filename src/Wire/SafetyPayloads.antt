-- ===== src/Wire/SafetyPayloads.antt =====
-- wire.h: the SAFETY payloads, as records and as the eight bytes that `PS_WIRE_WRITE` copies and
-- `PS_WIRE_READ` reads.
use powersuit.Base.{ℕ, ◌≡◌, arith, List, ◌∷◌, ◌++◌, drop, length, IsByte, IsU16, IsU32}
use powersuit.Bytes.{at, rd_u16, rd_u32, wr_u16, wr_u32, rd-wr_u16, rd-wr_u32}
use powersuit.Wire.{Heartbeat}

-- Each field is in the range of its type.
abbrev pub HeartbeatFits : Heartbeat → Type 0
HeartbeatFits x = IsU16 x.seq × IsByte x.flags × IsByte x.src_state × IsU32 x.uptime_ms

unfoldable pub write_heartbeat : Heartbeat → List ℕ
unfolding wr_u16 wr_u32
write_heartbeat x = wr_u16 x.seq ++ (x.flags ∷ (x.src_state ∷ (wr_u32 x.uptime_ms)))

unfoldable pub read_heartbeat : List ℕ → Heartbeat
read_heartbeat p = record {
  seq = rd_u16 p;
  flags = at p 2;
  src_state = at p 3;
  uptime_ms = rd_u32 (drop 4 p);
}

pub read-write_heartbeat :
    (x : Heartbeat)
    → HeartbeatFits x
    → (read_heartbeat (write_heartbeat x) ≡ x) × (length (write_heartbeat x) ≡ 8)
unfolding read_heartbeat write_heartbeat
read-write_heartbeat x h = ground (
  arith,
  rd-wr_u16 x.seq (drop 2 (write_heartbeat x)),
  rd-wr_u32 x.uptime_ms (drop 8 (write_heartbeat x)),
)

-- `ps_estop_t`
pub record Estop : Type 0 where
  pub cause : ℕ
  pub origin_node : ℕ
  pub seq : ℕ
  pub uptime_ms : ℕ

-- Each field is in the range of its type.
abbrev pub EstopFits : Estop → Type 0
EstopFits x = IsByte x.cause × IsByte x.origin_node × IsU16 x.seq × IsU32 x.uptime_ms

unfoldable pub write_estop : Estop → List ℕ
unfolding wr_u16 wr_u32
write_estop x = x.cause ∷ (x.origin_node ∷ (wr_u16 x.seq ++ (wr_u32 x.uptime_ms)))

unfoldable pub read_estop : List ℕ → Estop
read_estop p = record {
  cause = at p 0;
  origin_node = at p 1;
  seq = rd_u16 (drop 2 p);
  uptime_ms = rd_u32 (drop 4 p);
}

pub read-write_estop :
    (x : Estop) → EstopFits x → (read_estop (write_estop x) ≡ x) × (length (write_estop x) ≡ 8)
unfolding read_estop write_estop
read-write_estop x h = ground (
  arith,
  rd-wr_u16 x.seq (drop 4 (write_estop x)),
  rd-wr_u32 x.uptime_ms (drop 8 (write_estop x)),
)

-- `ps_clear_estop_t`
pub record ClearEstop : Type 0 where
  pub magic : ℕ
  pub counter : ℕ

-- Each field is in the range of its type.
abbrev pub ClearEstopFits : ClearEstop → Type 0
ClearEstopFits x = IsU32 x.magic × IsU32 x.counter

unfoldable pub write_clear_estop : ClearEstop → List ℕ
unfolding wr_u16 wr_u32
write_clear_estop x = wr_u32 x.magic ++ (wr_u32 x.counter)

unfoldable pub read_clear_estop : List ℕ → ClearEstop
read_clear_estop p = record { magic = rd_u32 p; counter = rd_u32 (drop 4 p) }

pub read-write_clear_estop :
    (x : ClearEstop)
    → ClearEstopFits x
    → (read_clear_estop (write_clear_estop x) ≡ x) × (length (write_clear_estop x) ≡ 8)
unfolding read_clear_estop write_clear_estop
read-write_clear_estop x h = ground (
  arith,
  rd-wr_u32 x.magic (drop 4 (write_clear_estop x)),
  rd-wr_u32 x.counter (drop 8 (write_clear_estop x)),
)

-- `ps_node_fault_t`
pub record NodeFault : Type 0 where
  pub fault_code : ℕ
  pub severity : ℕ
  pub detail : ℕ
  pub uptime_ms : ℕ

-- Each field is in the range of its type.
abbrev pub NodeFaultFits : NodeFault → Type 0
NodeFaultFits x = IsByte x.fault_code × IsByte x.severity × IsU16 x.detail × IsU32 x.uptime_ms

unfoldable pub write_node_fault : NodeFault → List ℕ
unfolding wr_u16 wr_u32
write_node_fault x = x.fault_code ∷ (x.severity ∷ (wr_u16 x.detail ++ (wr_u32 x.uptime_ms)))

unfoldable pub read_node_fault : List ℕ → NodeFault
read_node_fault p = record {
  fault_code = at p 0;
  severity = at p 1;
  detail = rd_u16 (drop 2 p);
  uptime_ms = rd_u32 (drop 4 p);
}

read-write_node_fault :
    (x : NodeFault)
    → NodeFaultFits x
    → (read_node_fault (write_node_fault x) ≡ x) × (length (write_node_fault x) ≡ 8)
unfolding read_node_fault write_node_fault
read-write_node_fault x h = ground (
  arith,
  rd-wr_u16 x.detail (drop 4 (write_node_fault x)),
  rd-wr_u32 x.uptime_ms (drop 8 (write_node_fault x)),
)

-- Every SAFETY payload with its fields in range takes eight bytes, and is read back from them.
pub safety_roundtrip :
    ((x : Heartbeat)
      → HeartbeatFits x
      → (read_heartbeat (write_heartbeat x) ≡ x) × (length (write_heartbeat x) ≡ 8))
    × ((x : Estop) → EstopFits x → (read_estop (write_estop x) ≡ x) × (length (write_estop x) ≡ 8))
    × ((x : ClearEstop)
        → ClearEstopFits x
        → (read_clear_estop (write_clear_estop x) ≡ x) × (length (write_clear_estop x) ≡ 8))
    × ((x : NodeFault)
        → NodeFaultFits x
        → (read_node_fault (write_node_fault x) ≡ x) × (length (write_node_fault x) ≡ 8))
safety_roundtrip =
    (read-write_heartbeat, read-write_estop, read-write_clear_estop, read-write_node_fault)
