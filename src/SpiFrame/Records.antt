-- ===== src/SpiFrame/Records.antt =====
-- spi_frame.c: a record that is written into its slot is read back from it.
use powersuit.Base.{ℕ, ◌%◌, ◌^◌, ◌≤◌, ◌<◌, ◌≡◌, arith, List, ◌++◌, length, take-append, IsU16}
use native.Mathlib.Nat.{mod-eq_of_lt}
use powersuit.Base.Bits.{bit_or_beside}
use powersuit.Bytes.{rd-wr_u16, rd-wr_u32}
use powersuit.SpiFrame.{Record, ok, record_write, record_read}

-- The fields are in the ranges of the CAN bus and of the struct.
pub record Fits (r : Record) : Type 0 where
  pub id : r.id < 2 ^ 29
  pub bus : r.bus < 16
  pub dlc : r.dlc ≤ 8
  pub ts_ms : IsU16 r.ts_ms
  pub payload : length r.payload ≡ 8

pub length-record_write : (r : Record) → Fits r → length (record_write r) ≡ 16
unfolding record_write
length-record_write r h = omega (arith, h.payload)

-- Reading the slot of a record gives the record back, whatever bytes follow the slot.
pub record_read-write :
    (r : Record) (rest : List ℕ) → Fits r → record_read (record_write r ++ rest) ≡ (ok, r)
unfolding record_read record_write
record_read-write r rest h = ground (
  arith,
  rd-wr_u32 (r.id % 2 ^ 29),
  mod-eq_of_lt h.id,
  mod-eq_of_lt h.bus,
  bit_or_beside 4 r.bus r.dlc (omega arith),
  rd-wr_u16 r.ts_ms,
  take-append r.payload rest 8 h.payload,
)
