-- ===== src/SpiFrame/Build.antt =====
-- spi_frame.c: what `ps_spi_frame_build` leaves in its buffer.
use native.Mathlib.Nat.{mod-eq_of_lt}
use powersuit.Base.{
  ℕ, zero, suc, ◌+◌, ◌-◌, ◌*◌, ◌≤◌, ◌≡◌, refl, sym, ap, ap₂, ◌∙◌, arith, false, some, List, [], ◌∷◌,
  ◌++◌, append_assoc, length, drop, replicate, write_at, take-append, drop-append, length-append,
  ltb, All, u8, shr,
}
use powersuit.Bytes.{wr_u16}
use powersuit.Crc.{update}
use powersuit.SpiFrame.{Record, record_write, write_records, frame_crc, build_body, frame_build}
use powersuit.SpiFrame.Records.{Fits, length-record_write}

-- A write over bytes of the same number, where they stand between others.
pub write_at-between :
    (off : ℕ) (p z b s : List ℕ)
    → length p ≡ off
    → length z ≡ length b
    → write_at off b (p ++ (z ++ s)) ≡ p ++ (b ++ s)
write_at-between off p z b s e l =
    ap₂ (λ x y. x ++ (b ++ y)) (take-append p (z ++ s) off e)
      (ap (drop (off + length b)) (sym (append_assoc p z s))
        ∙ drop-append (p ++ z) s (off + length b) (omega (arith, length-append p z)))

-- The records in their slots, one after the other.
abbrev pub slots : List Record → List ℕ
slots [] = []
slots (r ∷ rs) = record_write r ++ slots rs

pub length-slots : (rs : List Record) → All Fits rs → length (slots rs) ≡ 16 * length rs
length-slots [] h = refl
length-slots (r ∷ rs) h = omega (
  arith,
  length-append (record_write r) (slots rs),
  length-record_write r h.0,
  length-slots rs h.1,
)

replicate-add : (n m a : ℕ) → replicate (n + m) a ≡ replicate n a ++ replicate m a
replicate-add zero m a = ap (λ k. replicate k a) (omega arith)
replicate-add (suc n) m a =
    let e : suc n + m ≡ suc (n + m) = omega arith in rw e (ap (λ l. a ∷ l) (replicate-add n m a))

abbrev zeros : ℕ → List ℕ
zeros n = replicate n 0

write_records-slots :
    (rs : List Record) (i k : ℕ) (pre : List ℕ)
    → All Fits rs
    → length pre ≡ 8 + i * 16
    → write_records i rs (pre ++ zeros (16 * length rs + k)) ≡ pre ++ (slots rs ++ zeros k)
unfolding write_records
write_records-slots [] i k pre h e = ap (λ n. pre ++ replicate {A = ℕ} n 0) (omega arith)
write_records-slots (r ∷ rs) i k pre h e =
    ap (write_records (i + 1) rs) (
      ap (λ z. write_at (8 + i * 16) (record_write r) (pre ++ z)) room
      ∙ write_at-between (8 + i * 16) pre (zeros 16) (record_write r) (zeros (16 * length rs + k)) e
          (sym (length-record_write r h.0))
      ∙ sym (append_assoc pre (record_write r) (zeros (16 * length rs + k))))
    ∙ write_records-slots rs (i + 1) k (pre ++ record_write r) h.1
        (omega (arith, length-append pre (record_write r), length-record_write r h.0))
    ∙ append_assoc pre (record_write r) (slots rs ++ zeros k)
    ∙ ap (λ l. pre ++ l) (sym (append_assoc (record_write r) (slots rs) (zeros k)))
  where
    room : zeros (16 * length (r ∷ rs) + k) ≡ zeros 16 ++ zeros (16 * length rs + k)
    room =
        (let e : 16 * length (r ∷ rs) + k ≡ 16 + (16 * length rs + k) = omega arith in
          ap (λ n. replicate {A = ℕ} n 0) e)
        ∙ replicate-add 16 (16 * length rs + k) 0

-- The header with two bytes for the checksum.
abbrev pub header : ℕ → ℕ → ℕ → ℕ → ℕ → List ℕ
header flags n seq lo hi = 0x5A ∷ 0xA5 ∷ 1 ∷ flags ∷ n ∷ seq ∷ lo ∷ hi ∷ []

-- The checksum of the fields and the slots.
abbrev pub checksum : ℕ → ℕ → List Record → ℕ
checksum flags seq rs = update (update 0xFFFF (1 ∷ flags ∷ length rs ∷ seq ∷ [])) (slots rs)

module _ (flags seq : ℕ) (rs : List Record) (fit : All Fits rs) (few : length rs ≤ 31) where
  build_body-slots :
      build_body flags seq rs
      ≡ header flags (length rs) seq 0 0 ++ (slots rs ++ replicate (504 - 16 * length rs) 0)
  unfolding build_body wr_u16
  build_body-slots =
      ap₂ (λ n z. write_records 0 rs (header flags n seq 0 0 ++ z)) (mod-eq_of_lt (omega arith))
        room
      ∙ write_records-slots rs 0 (504 - 16 * length rs) (header flags (length rs) seq 0 0) fit refl
    where
      room : replicate {A = ℕ} 504 0 ≡ replicate (16 * length rs + (504 - 16 * length rs)) 0
      room =
          let e : 504 ≡ 16 * length rs + (504 - 16 * length rs) = omega arith in
          ap (λ n. replicate {A = ℕ} n 0) e

  pub frame_crc-slots :
      (lo hi : ℕ) (rest : List ℕ)
      → frame_crc (header flags (length rs) seq lo hi ++ (slots rs ++ rest)) (length rs)
        ≡ checksum flags seq rs
  unfolding frame_crc
  frame_crc-slots lo hi rest =
      ap (update (update 0xFFFF (1 ∷ flags ∷ length rs ∷ seq ∷ [])))
        (take-append (slots rs) rest (length rs * 16) (omega (arith, length-slots rs fit)))

  -- The buffer that is handed over: the header with the checksum, the slots, and zeros up to 512.
  pub frame_build-slots :
      frame_build flags seq rs
      ≡ some (
        header flags
              (length rs)
              seq
              (u8 (checksum flags seq rs))
              (u8 (shr (checksum flags seq rs) 8))
            ++ (slots rs ++ replicate (504 - 16 * length rs) 0),
        8 + length rs * 16,
      )
  unfolding frame_build wr_u16
  frame_build-slots =
      let few' : ltb 31 (length rs) ≡ false = ground arith in
      rw (few', build_body-slots, frame_crc-slots 0 0 (replicate (504 - 16 * length rs) 0))
