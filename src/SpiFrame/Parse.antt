-- ===== src/SpiFrame/Parse.antt =====
-- spi_frame.c: a frame that was built is parsed back, and a frame that is accepted holds what its
-- header says.
use powersuit.Base.{
  ℕ, zero, suc, ◌+◌, ◌-◌, ◌*◌, ◌≤◌, ◌≡◌, refl, ap, ap₂, subst, ◌∙◌, arith, false, some, List, [],
  ◌∷◌, ◌++◌, append_assoc, length, drop, replicate, get_elem?, get_elem?-lt, drop-add, drop-append,
  length-append, length-replicate, leb, All, u8, shr,
}
use powersuit.Bytes.{rd_u16, rd_u16_as_sum, rd-wr_u16}
use powersuit.Crc.Detect.{update-IsU16}
use powersuit.SpiFrame.{
  Status, ok, Record, View, record_write, frame_build, frame_parse, view_record,
}
use powersuit.SpiFrame.Records.{Fits, length-record_write, record_read-write}
use powersuit.SpiFrame.Build.{
  slots, length-slots, header, checksum, frame_crc-slots, frame_build-slots,
}

-- The slot of record `i` begins the records from there on.
drop-slots :
    (rs : List Record) (i : ℕ) (rest : List ℕ) {r : Record}
    → All Fits rs
    → get_elem? rs i ≡ some r
    → (more : List ℕ) × (drop (i * 16) (slots rs ++ rest) ≡ record_write r ++ more) × Fits r
drop-slots [] i rest h e = cc
drop-slots (x ∷ xs) zero rest {r} h e =
    let same : x ≡ r = cc in
    (
      slots xs ++ rest,
      rw (← same) (append_assoc (record_write x) (slots xs) rest),
      subst Fits same h.0,
    )
drop-slots (x ∷ xs) (suc i) rest h e =
    let (more, d, f) = drop-slots xs i rest h.1 e in (more, skip ∙ d, f)
  where
    skip : drop (suc i * 16) (slots (x ∷ xs) ++ rest) ≡ drop (i * 16) (slots xs ++ rest)
    skip =
        ap₂ drop (let n : suc i * 16 ≡ 16 + i * 16 = omega arith in n)
          (append_assoc (record_write x) (slots xs) rest)
        ∙ drop-add 16 (i * 16) (record_write x ++ (slots xs ++ rest))
        ∙ ap (drop (i * 16))
            (drop-append (record_write x) (slots xs ++ rest) 16 (length-record_write x h.0))

module _ (flags seq : ℕ) (rs : List Record) (fit : All Fits rs) (few : length rs ≤ 31) where
  abbrev built : List ℕ → List ℕ
  built rest =
      header flags (length rs) seq (u8 (checksum flags seq rs)) (u8 (shr (checksum flags seq rs) 8))
      ++ (slots rs ++ rest)

  crc_read :
      (rest : List ℕ)
      → rd_u16 (u8 (checksum flags seq rs) ∷ u8 (shr (checksum flags seq rs) 8) ∷ rest)
        ≡ checksum flags seq rs
  crc_read rest =
      rd-wr_u16 (checksum flags seq rs) rest
        (update-IsU16 _ (slots rs) (update-IsU16 _ _ (omega arith)))

  abbrev view : List ℕ → View
  view rest = record { flags = flags; count = length rs; seq = seq; records = slots rs ++ rest }

  parse-built : (rest : List ℕ) → frame_parse (built rest) ≡ (ok, some (view rest))
  unfolding frame_parse
  parse-built rest = ground (
    arith,
    rd_u16_as_sum 0x5A 0xA5 (drop 2 (built rest)) (omega arith),
    crc_read (slots rs ++ rest),
    frame_crc-slots flags seq rs fit few (u8 (checksum flags seq rs))
        (u8 (shr (checksum flags seq rs) 8)) rest,
    length-append (slots rs) rest,
    length-slots rs fit,
  )

  view_record-slots :
      (rest : List ℕ) (i : ℕ) {r : Record}
      → get_elem? rs i ≡ some r
      → view_record (view rest) i ≡ (ok, some r)
  unfolding view_record
  view_record-slots rest i {r} e =
      let (more, d, f) = drop-slots rs i rest fit e in
      let inside : leb (length rs) i ≡ false = ground (arith, get_elem?-lt rs i e) in
      rw (inside, d) (ap (λ (o : Status × Record). (o.0, some o.1)) (record_read-write r more f))

-- A frame built from at most 31 records that fit their slots is 512 bytes long, and parses to a view
-- with the same flags, count and sequence number from which every record is read back.
pub parse-build :
    (flags seq : ℕ) (rs : List Record)
    → All Fits rs
    → length rs ≤ 31
    → (buf : List ℕ) × (v : View) × (frame_build flags seq rs ≡ some (buf, 8 + length rs * 16))
      × (length buf ≡ 512)
      × (frame_parse buf ≡ (ok, some v))
      × (v.flags ≡ flags)
      × (v.count ≡ length rs)
      × (v.seq ≡ seq)
      × ((i : ℕ) (r : Record) → get_elem? rs i ≡ some r → view_record v i ≡ (ok, some r))
parse-build flags seq rs fit few =
    let zeros = replicate {A = ℕ} (504 - 16 * length rs) 0 in
    (
      built flags seq rs fit few zeros,
      view flags seq rs fit few zeros,
      frame_build-slots flags seq rs fit few,
      omega (
        arith,
        length-append (slots rs) zeros,
        length-slots rs fit,
        length-replicate {0} {A = ℕ} (504 - 16 * length rs) 0,
      ),
      parse-built flags seq rs fit few zeros,
      refl,
      refl,
      refl,
      λ i r e. view_record-slots flags seq rs fit few zeros i e,
    )

-- A frame that is accepted has at most 31 records, and they lie inside the buffer.
pub parse_in_bounds :
    (buf : List ℕ) {v : View}
    → frame_parse buf ≡ (ok, some v)
    → (v.count ≤ 31) × (8 + v.count * 16 ≤ length buf) × (v.records ≡ drop 8 buf)
unfolding frame_parse
parse_in_bounds buf h = ground arith
