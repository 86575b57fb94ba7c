-- ===== src/Bms.antt =====
-- firmware/apps/node_chest_hub/main/bms_task.c: the battery task of the hub, its variables and what it sends.
-- The calls that reach other parts are returned as a list of actions, in order. What
-- `ps_can_send` and `ps_spib_uplink_push` answer is ignored by the code. The clock, the converter's raw values and
-- the pins are arguments. Log lines are left out.
pub mod Trip
pub mod Short
pub mod Sense
pub mod Report
pub mod Task
pub mod Family
pub mod Interlock
pub mod Debounce
pub mod Onset
pub mod Charge
pub mod Mirror
pub mod Critical
pub mod Rounds
pub mod Escalation
use powersuit.Base.{
  ℕ, zero, suc, ◌+◌, ◌-◌, ◌*◌, ◌%◌, ◌<◌, Bool, true, false, List, [], ◌∷◌, ◌++◌, get_or, set, take,
  replicate, u8, u16, u32, sub32, ltb, if◌then◌else◌, min,
}
use powersuit.Base.Int.{ℤ}
use powersuit.CanId.{
  CanFrame, pack, cls_safety, node_hub, node_broadcast, node_orch, t_estop, t_node_fault,
}
use powersuit.Wire.{estop_repeat}
use powersuit.Wire.SafetyPayloads.{write_estop, write_node_fault}
use powersuit.SpiFrame.{Record}

-- The sizes of board_hub.h.
abbrev pub cell_count : ℕ
cell_count = 12

abbrev pub cell_groups : ℕ
cell_groups = 4

abbrev pub scan_slots : ℕ
scan_slots = 16

-- The escalation families, `FAM_*`.
abbrev pub fam_ov : ℕ
fam_ov = 0

abbrev pub fam_uv : ℕ
fam_uv = 1

abbrev pub fam_ot : ℕ
fam_ot = 2

abbrev pub fam_ut : ℕ
fam_ut = 3

abbrev pub fam_ocd : ℕ
fam_ocd = 4

abbrev pub fam_occ : ℕ
fam_occ = 5

abbrev pub fam_count : ℕ
fam_count = 6

-- `BMS_FAULT_CODE`
abbrev pub fault_code_of : ℕ → ℕ
fault_code_of fam = u8 (0xB0 + fam)

-- `ps_can_stats_t`
pub record CanStats : Type 0 where
  pub rx_frames : ℕ
  pub tx_frames : ℕ
  pub rx_dropped : ℕ
  pub tx_timeouts : ℕ
  pub bus_errors : ℕ
  pub recoveries : ℕ

-- `ps_spib_stats_t`
pub record SpibStats : Type 0 where
  pub transactions : ℕ
  pub crc_errors : ℕ
  pub uplink_overflows : ℕ
  pub downlink_records : ℕ
  pub seq_gaps : ℕ

-- The variables of the file.
pub record Bms : Type 0 where
  pub trip_cycles : ℕ
  pub trip_flag : Bool
  pub rearm_requested : Bool
  pub cell_mv : List ℕ
  pub ntc_cc : List ℤ
  pub pack_cv : ℕ
  pub curr_ca : ℤ
  pub fault_bits : ℕ
  pub short_latched : Bool
  pub full_scan_done : Bool
  pub tick : ℕ
  pub deb : List ℕ
  pub tripped : List Bool
  pub warn_last_ms : List ℕ
  pub safety_low : ℕ
  pub estop_seq : ℕ
  pub summary_seq : ℕ
  pub cells_seq : ℕ
  pub stats_seq : ℕ
  pub cells_group : ℕ
  pub prev_can1 : CanStats
  pub prev_can2 : CanStats
  pub prev_spib : SpibStats

-- The calls that reach other parts.
pub data Act : Type 0 where
  can_send : ℕ → CanFrame → Act
  uplink_push : Record → Act
  local_estop : ℕ → Act
  mux_select : ℕ → ℕ → Act
  rearm_strobe : Bool → Act
  delay_ms : ℕ → Act

-- What the clock reads in one emission: `now_ms32()`, and the milliseconds of the record that goes up after it.
pub record Times : Type 0 where
  pub now : ℕ
  pub ts : ℕ

-- Eight bytes, zeros behind the first `dlc`.
abbrev pub padded : List ℕ → ℕ → List ℕ
padded payload dlc = take dlc payload ++ replicate (8 - dlc) 0

-- `bms_push_record`
unfoldable pub push_record : ℕ → ℕ → List ℕ → ℕ → Act
push_record ts id payload dlc =
    uplink_push
      (record { id = id; bus = 3; dlc = dlc; ts_ms = u16 ts; payload = padded payload dlc })

-- The loop of `bms_send_safety_both`, `r` rounds of it left.
unfoldable pub send_both : ℕ → CanFrame → List Act
send_both zero f = []
send_both (suc r) f = can_send 0 f ∷ can_send 1 f ∷ send_both r f

-- `bms_send_safety_both`
unfoldable pub send_safety_both : Bms → ℕ → ℕ → List ℕ → ℕ → ℕ → Bms × List Act
unfolding send_both push_record
send_safety_both s ts type payload dlc times =
    let id = pack cls_safety node_hub node_broadcast type s.safety_low in
    (
      record s { safety_low = u8 (s.safety_low + 1) },
      send_both times (record { id = id; dlc = dlc; payload = padded payload dlc })
          ++ push_record ts id payload dlc ∷ [],
    )

-- `bms_raise_estop`
unfoldable pub raise_estop : Bms → Times → ℕ → Bms × List Act
unfolding send_safety_both
raise_estop s t cause =
    let es = write_estop (record {
      cause = cause;
      origin_node = node_hub;
      seq = s.estop_seq;
      uptime_ms = u32 t.now;
    }) in
    let (s', acts) =
      send_safety_both (record s { estop_seq = u16 (s.estop_seq + 1) }) t.ts t_estop es 8
        estop_repeat in
    (s', acts ++ local_estop cause ∷ [])

-- `bms_warn`
unfoldable pub warn : Bms → Times → ℕ → ℕ → Bms × List Act
unfolding push_record
warn s t fam detail =
    if ltb (sub32 (u32 t.now) (get_or s.warn_last_ms fam 0)) 1000 then (s, []) else (
      record s {
        warn_last_ms = set s.warn_last_ms fam (u32 t.now);
        safety_low = u8 (s.safety_low + 1);
      },
      push_record t.ts (pack cls_safety node_hub node_orch t_node_fault s.safety_low)
            (write_node_fault (record {
              fault_code = fault_code_of fam;
              severity = 1;
              detail = detail;
              uptime_ms = u32 t.now;
            }))
            8
          ∷ [],
    )
