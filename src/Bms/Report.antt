-- ===== src/Bms/Report.antt =====
-- bms_task.c: the state of charge and the periodic reports.
use powersuit.Base.{
  ℕ, suc, ◌+◌, ◌*◌, ◌/◌, ◌%◌, List, [], ◌∷◌, ◌++◌, get_or, u8, u32, sub32, ltb, if◌then◌else◌, ◌==◌,
}
use powersuit.Base.Int.{ℤ, pos, negsuc, ltb_ℤ, sub_ℕ}
use powersuit.CanId.{pack, cls_telem, cls_mgmt, node_hub, node_orch}
use powersuit.Wire.{State, code}
use powersuit.Wire.TelemPayloads.{write_bms_summary, write_bms_cells, write_node_stats}
use powersuit.Wire.LinkPayloads.{write_version}
use powersuit.Bms.{Bms, Act, CanStats, SpibStats, push_record, cell_count, cell_groups}
use powersuit.Bms.Trip.{tmax}

-- `z * m / d` on `int32_t`, which cuts towards zero.
abbrev pub scaled : ℤ → ℕ → ℕ → ℤ
scaled (pos n) m d = pos (n * m / d)
scaled (negsuc n) m d = sub_ℕ 0 (suc n * m / d)

abbrev pub clamped : ℤ → ℤ → ℤ → ℤ
clamped lo hi z = if ltb_ℤ hi z then hi else if ltb_ℤ z lo then lo else z

-- The loop of `bms_soc_estimate`.
unfoldable pub sum_mv : ℕ → List ℕ → ℕ
sum_mv acc [] = acc
sum_mv acc (x ∷ xs) = sum_mv (u32 (acc + x)) xs

-- `bms_soc_estimate`
unfoldable pub soc_estimate : Bms → ℤ
unfolding sum_mv
soc_estimate s =
    clamped (pos 0) (pos 100) (scaled (sub_ℕ (sum_mv 0 s.cell_mv / cell_count) 3000) 100 1200)

unfoldable pub soc_byte : ℤ → ℕ
soc_byte (pos n) = u8 n
soc_byte (negsuc n) = 0

-- What a report reads beside the variables.
pub record Sources : Type 0 where
  pub summary_ts : ℕ
  pub ts : ℕ
  pub mirror_state : State
  pub can1 : CanStats
  pub can2 : CanStats
  pub spib : SpibStats

-- The four parts of `bms_reports`.
unfoldable pub report_summary : Bms → Sources → Bms × List Act
unfolding soc_byte push_record
report_summary s r =
    if s.tick % 100 == 0
    then (
      record s { summary_seq = u8 (s.summary_seq + 1) },
      push_record r.summary_ts (pack cls_telem node_hub node_orch 0x25 s.summary_seq)
            (write_bms_summary (record {
              pack_cv = s.pack_cv;
              current_ca = s.curr_ca;
              soc_pct = soc_byte (soc_estimate s);
              temp_max_c = clamped (negsuc 127) (pos 127) (scaled (tmax s) 1 100);
              fault_bits = s.fault_bits;
            }))
            8
          ∷ [],
    )
    else (s, [])

unfoldable pub report_cells : Bms → Sources → Bms × List Act
unfolding push_record
report_cells s r =
    if s.tick % 1000 == 250
    then (let g = s.cells_group in
        (
          record s { cells_group = (g + 1) % cell_groups; cells_seq = u8 (s.cells_seq + 1) },
          push_record r.ts (pack cls_telem node_hub node_orch 0x26 s.cells_seq)
                (write_bms_cells (record {
                  group = g;
                  rsvd = 0;
                  mv0 = get_or s.cell_mv (3 * g) 0;
                  mv1 = get_or s.cell_mv (3 * g + 1) 0;
                  mv2 = get_or s.cell_mv (3 * g + 2) 0;
                }))
                8
              ∷ [],
        ))
    else (s, [])

abbrev capped16 : ℕ → ℕ
capped16 n = if ltb 0xFFFF n then 0xFFFF else n

unfoldable pub report_stats : Bms → Sources → Bms × List Act
unfolding push_record
report_stats s r =
    if s.tick % 1000 == 500
    then (
      record s {
        prev_can1 = r.can1;
        prev_can2 = r.can2;
        prev_spib = r.spib;
        stats_seq = u8 (s.stats_seq + 1);
      },
      push_record r.ts (pack cls_telem node_hub node_orch 0x2A s.stats_seq)
            (write_node_stats (record {
              cpu_pct = 0;
              state = code r.mirror_state;
              rx_fps = capped16 (
                  u32 (
                    sub32 r.can1.rx_frames s.prev_can1.rx_frames
                    + sub32 r.can2.rx_frames s.prev_can2.rx_frames));
              tx_fps = capped16 (
                  u32 (
                    sub32 r.can1.tx_frames s.prev_can1.tx_frames
                    + sub32 r.can2.tx_frames s.prev_can2.tx_frames));
              err_cnt = capped16 (
                  u32 (
                    r.can1.bus_errors + r.can2.bus_errors + r.can1.rx_dropped + r.can2.rx_dropped
                    + r.spib.crc_errors + r.spib.seq_gaps + r.spib.uplink_overflows));
            }))
            8
          ∷ [],
    )
    else (s, [])

unfoldable pub report_version : Bms → Sources → Bms × List Act
unfolding push_record
report_version s r =
    if s.tick % 1000 == 750
    then (
      s,
      push_record r.ts (pack cls_mgmt node_hub node_orch 0x54 0)
            (write_version (record {
              major = 0;
              minor = 1;
              patch = 0;
              node_state = code r.mirror_state;
              git_short = 0;
            }))
            8
          ∷ [],
    )
    else (s, [])

-- `bms_reports`; at most one of the last three is due in a tick, so one reading of each source serves all.
unfoldable pub reports : Bms → Sources → Bms × List Act
unfolding report_summary report_cells report_stats report_version
reports s r =
    let (s1, a1) = report_summary s r in
    let (s2, a2) = report_cells s1 r in
    let (s3, a3) = report_stats s2 r in
    let (s4, a4) = report_version s3 r in (s4, a1 ++ (a2 ++ (a3 ++ a4)))
