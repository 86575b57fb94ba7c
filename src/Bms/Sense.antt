-- ===== src/Bms/Sense.antt =====
-- bms_task.c: sampling. What `adc_oneshot_read` answers is an argument, `none` for a failure, and the
-- floating-point scalings of board_hub.h are a parameter, from the raw value to the value that is stored.
use powersuit.Base.{
  ℕ, ◌+◌, ◌-◌, ◌%◌, ◌||◌, Option, none, some, List, [], ◌∷◌, set, u32, shr, ltb, leb, if◌then◌else◌,
}
use powersuit.Base.Int.{ℤ}
use powersuit.Bms.{Bms, Act, mux_select, cell_count, scan_slots}

-- The scalings of `adc_mv`, `bms_sample_fast` and `bms_slow_slot`. A raw value that is too near the end of the
-- converter's range for a temperature gives `none`.
pub record Scale : Type 0 where
  pub to_pack_cv : ℕ → ℕ
  pub to_curr_ca : ℕ → ℤ
  pub to_cell_mv : ℕ → ℕ
  pub to_ntc_cc : ℕ → Option ℤ

-- The raw values of one tick.
pub record Reading : Type 0 where
  pub pack_v : Option ℕ
  pub current : Option ℕ
  pub slow : Option ℕ

-- `bms_sample_fast`
unfoldable pub sample_fast : Bms → Scale → Reading → Bms
sample_fast s k r = record s {
  pack_cv = elim r.pack_v [ none ↦ s.pack_cv | some raw ↦ k.to_pack_cv raw ];
  curr_ca = elim r.current [ none ↦ s.curr_ca | some raw ↦ k.to_curr_ca raw ];
}

-- The slot of the tick: one cell or one temperature.
unfoldable pub read_slot : Bms → Scale → Option ℕ → Bms
read_slot s k none = s
read_slot s k (some raw) =
    let slot = s.tick % scan_slots in
    if ltb slot cell_count
    then record s { cell_mv = set s.cell_mv slot (k.to_cell_mv raw) }
    else elim (k.to_ntc_cc raw) [
      | none ↦ s
      | some c ↦ record s { ntc_cc = set s.ntc_cc (slot - cell_count) c }
    ]

-- The multiplexer's selection for the next tick.
unfoldable pub select_next : ℕ → List Act
select_next tick =
    let next = u32 (tick + 1) % scan_slots in
    if ltb next cell_count then mux_select (shr next 2 % 2) (shr next 3 % 2) ∷ [] else []

-- `bms_slow_slot`
unfoldable pub slow_slot : Bms → Scale → Reading → Bms × List Act
unfolding read_slot select_next
slow_slot s k r =
    let s' = read_slot s k r.slow in
    (record s' { full_scan_done = s.full_scan_done || leb 32 s.tick }, select_next s.tick)
