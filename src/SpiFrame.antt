-- ===== src/SpiFrame.antt =====
-- common/c/src/spi_frame.c: the frames of the link between the hub and the orchestrator. A buffer
-- is the list of its bytes, and its length the `len` that goes with the pointer.
pub mod Records
pub mod Build
pub mod Parse
pub mod Corrupt
pub mod Scan
use powersuit.Base.{
  ℕ, zero, suc, ◌+◌, ◌*◌, ◌-◌, Bool, true, false, not, ◌&&◌, Option, none, some, List, [], ◌∷◌,
  ◌++◌, length, get_or, drop, write_at, slice, replicate, ltb, leb, ◌==◌, if◌then◌else◌, bit_or,
  shl, shr, low_bits, u8,
}
use powersuit.Bytes.{at, rd_u16, rd_u32, wr_u16, wr_u32}
use powersuit.Crc.{update}

abbrev pub spi_magic : ℕ
spi_magic = 0xA55A

abbrev pub spi_ver : ℕ
spi_ver = 1

abbrev pub xfer_size : ℕ
xfer_size = 512

abbrev pub hdr_size : ℕ
hdr_size = 8

abbrev pub rec_size : ℕ
rec_size = 16

abbrev pub max_records : ℕ
max_records = 31

-- `PS_SPI_OK` and the `PS_SPI_E*` codes.
pub data Status : Type 0 where
  ok bad_magic bad_ver bad_count bad_crc short : Status

-- `ps_can_record_t`; `payload` is its `data[8]`.
pub record Record : Type 0 where
  pub id : ℕ
  pub bus : ℕ
  pub dlc : ℕ
  pub ts_ms : ℕ
  pub payload : List ℕ

-- `ps_spi_view_t`; `records` is the buffer from the pointer on.
pub record View : Type 0 where
  pub flags : ℕ
  pub count : ℕ
  pub seq : ℕ
  pub records : List ℕ

-- `ps_spi_record_write`: the 16 bytes of the slot.
unfoldable pub record_write : Record → List ℕ
unfolding wr_u16 wr_u32
record_write r =
    wr_u32 (low_bits r.id 29)
    ++ (u8 (bit_or (shl (low_bits r.bus 4) 4) (low_bits r.dlc 4))
        ∷ 0
        ∷ (wr_u16 r.ts_ms ++ r.payload))

-- `ps_spi_record_read`
unfoldable pub record_read : List ℕ → Status × Record
unfolding rd_u16 rd_u32
record_read p =
    let r : Record = record {
      id = low_bits (rd_u32 p) 29;
      bus = u8 (shr (at p 4) 4);
      dlc = u8 (low_bits (at p 4) 4);
      ts_ms = rd_u16 (drop 6 p);
      payload = slice 8 8 p;
    } in
    (if leb r.dlc 8 then ok else bad_count, r)

-- The loop of `ps_spi_frame_build` at record `i`.
unfoldable pub write_records : ℕ → List Record → List ℕ → List ℕ
unfolding record_write
write_records i [] buf = buf
write_records i (r ∷ rs) buf =
    write_records (i + 1) rs (write_at (hdr_size + i * rec_size) (record_write r) buf)

-- The checksum over `ver..seq` and `n` records.
unfoldable pub frame_crc : List ℕ → ℕ → ℕ
unfolding update
frame_crc buf n =
    let crc = update 0xFFFF (slice 2 4 buf) in update crc (slice hdr_size (n * rec_size) buf)

-- The buffer before the checksum is stored.
unfoldable pub build_body : ℕ → ℕ → List Record → List ℕ
unfolding write_records wr_u16
build_body flags seq recs =
    let buf = write_at 0 (wr_u16 spi_magic) (replicate xfer_size 0) in
    let buf = write_at 2 (spi_ver ∷ []) buf in
    let buf = write_at 3 (flags ∷ []) buf in
    let buf = write_at 4 (u8 (length recs) ∷ []) buf in
    let buf = write_at 5 (seq ∷ []) buf in write_records 0 recs buf

-- `ps_spi_frame_build`: the buffer and the bytes used, or `none` for the 0 of too many records.
unfoldable pub frame_build : ℕ → ℕ → List Record → Option (List ℕ × ℕ)
unfolding wr_u16
frame_build flags seq recs =
    if ltb max_records (length recs)
    then none
    else let buf = build_body flags seq recs in
      some
        (write_at 6 (wr_u16 (frame_crc buf (length recs))) buf, hdr_size + length recs * rec_size)

-- `ps_spi_frame_parse`: the status, and the view where it is `ok`.
unfoldable pub frame_parse : List ℕ → Status × Option View
frame_parse buf =
    if ltb (length buf) hdr_size
    then (short, none)
    else if not (rd_u16 buf == spi_magic)
    then (bad_magic, none)
    else if not (at buf 2 == spi_ver)
    then (bad_ver, none)
    else if ltb max_records (at buf 4)
    then (bad_count, none)
    else if ltb (length buf) (hdr_size + at buf 4 * rec_size)
    then (short, none)
    else if not (frame_crc buf (at buf 4) == rd_u16 (drop 6 buf))
    then (bad_crc, none)
    else (
      ok,
      some (record {
        flags = at buf 3;
        count = at buf 4;
        seq = at buf 5;
        records = drop hdr_size buf;
      }),
    )

-- `ps_spi_view_record`; `none` where the index is out of range and nothing is read.
unfoldable pub view_record : View → ℕ → Status × Option Record
view_record v i =
    if leb v.count i
    then (bad_count, none)
    else let (s, r) = record_read (drop (i * rec_size) v.records) in (s, some r)

-- The loop of `ps_spi_frame_scan`, with `n` offsets left to try from `i` on.
unfoldable pub scan_loop : List ℕ → ℕ → ℕ → Option ℕ
scan_loop buf zero i = none
scan_loop buf (suc n) i =
    let rest = scan_loop buf n (i + 1) in
    if at buf i == u8 (low_bits spi_magic 8) && at buf (i + 1) == u8 (shr spi_magic 8)
    then some i
    else rest

-- `ps_spi_frame_scan`; `none` is the -1. The loop runs while `i + 1 < len`.
unfoldable pub frame_scan : List ℕ → ℕ → Option ℕ
unfolding scan_loop
frame_scan buf from =
    if ltb (length buf) 2 then none else scan_loop buf (length buf - 1 - from) from
