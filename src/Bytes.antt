-- ===== src/Bytes.antt =====
-- Little-endian words in byte buffers: `rd_u16`, `rd_u32`, `wr_u16` and `wr_u32` of
-- common/c/src/spi_frame.c.
use powersuit.Base.{
  ℕ, suc, ◌+◌, ◌-◌, ◌*◌, ◌^◌, ◌≤◌, ◌<◌, ltb, if◌then◌else◌, ◌≡◌, arith, List, [], ◌∷◌, get_or,
  bit_or, shl, shr, u8, IsByte, IsU16, IsU32,
}
use powersuit.Base.Int.{ℤ, pos, negsuc, pos_part, neg_part}
use powersuit.Base.Bits.{bit_or_below}

-- The byte at `p[i]`.
abbrev pub at : List ℕ → ℕ → ℕ
at p i = get_or p i 0

unfoldable pub rd_u16 : List ℕ → ℕ
rd_u16 p = bit_or (at p 0) (shl (at p 1) 8)

unfoldable pub rd_u32 : List ℕ → ℕ
rd_u32 p = bit_or (bit_or (bit_or (at p 0) (shl (at p 1) 8)) (shl (at p 2) 16)) (shl (at p 3) 24)

-- The bytes that are stored from `p[0]` on.
unfoldable pub wr_u16 : ℕ → List ℕ
wr_u16 v = u8 v ∷ u8 (shr v 8) ∷ []

unfoldable pub wr_u32 : ℕ → List ℕ
wr_u32 v = u8 v ∷ u8 (shr v 8) ∷ u8 (shr v 16) ∷ u8 (shr v 24) ∷ []

pub rd_u16_as_sum : (a b : ℕ) (rest : List ℕ) → IsByte a → rd_u16 (a ∷ b ∷ rest) ≡ a + b * 256
unfolding rd_u16
rd_u16_as_sum a b rest h = bit_or_below 8 b a h

pub rd_u32_as_sum :
    (a b c d : ℕ) (rest : List ℕ)
    → IsByte a
    → IsByte b
    → IsByte c
    → rd_u32 (a ∷ b ∷ c ∷ d ∷ rest) ≡ a + b * 256 + c * 65536 + d * 16777216
unfolding rd_u32
rd_u32_as_sum a b c d rest ha hb hc = ground (
  arith,
  bit_or_below 8 b a ha,
  bit_or_below 16 c (a + b * 256) (omega arith),
  bit_or_below 24 d (a + b * 256 + c * 65536) (omega arith),
)

-- What is written is read back.
pub rd-wr_u16 : (v : ℕ) (rest : List ℕ) → IsU16 v → rd_u16 (u8 v ∷ u8 (shr v 8) ∷ rest) ≡ v
rd-wr_u16 v rest h = omega (arith, rd_u16_as_sum (u8 v) (u8 (shr v 8)) rest (omega arith))

pub rd-wr_u32 :
    (v : ℕ) (rest : List ℕ)
    → IsU32 v
    → rd_u32 (u8 v ∷ u8 (shr v 8) ∷ u8 (shr v 16) ∷ u8 (shr v 24) ∷ rest) ≡ v
rd-wr_u32 v rest h = omega (
  arith,
  rd_u32_as_sum (u8 v) (u8 (shr v 8)) (u8 (shr v 16)) (u8 (shr v 24)) rest (omega arith)
      (omega arith) (omega arith),
)

-- The bit patterns of `int16_t` and `int8_t`.
abbrev pub IsI16 : ℤ → Type 0
IsI16 z = (pos_part z < 2 ^ 15) × (neg_part z ≤ 2 ^ 15)

abbrev pub IsI8 : ℤ → Type 0
IsI8 z = (pos_part z < 2 ^ 7) × (neg_part z ≤ 2 ^ 7)

unfoldable pub of_i16 : ℤ → ℕ
of_i16 (pos n) = n
of_i16 (negsuc n) = 2 ^ 16 - suc n

unfoldable pub to_i16 : ℕ → ℤ
to_i16 w = if ltb w (2 ^ 15) then pos w else negsuc (2 ^ 16 - w - 1)

unfoldable pub of_i8 : ℤ → ℕ
of_i8 (pos n) = n
of_i8 (negsuc n) = 2 ^ 8 - suc n

unfoldable pub to_i8 : ℕ → ℤ
to_i8 w = if ltb w (2 ^ 7) then pos w else negsuc (2 ^ 8 - w - 1)

pub to_i16-of_i16 : (z : ℤ) → IsI16 z → (to_i16 (of_i16 z) ≡ z) × IsU16 (of_i16 z)
unfolding to_i16 of_i16
to_i16-of_i16 (pos n) h = ground arith
to_i16-of_i16 (negsuc n) h = ground arith

pub to_i8-of_i8 : (z : ℤ) → IsI8 z → (to_i8 (of_i8 z) ≡ z) × IsByte (of_i8 z)
unfolding to_i8 of_i8
to_i8-of_i8 (pos n) h = ground arith
to_i8-of_i8 (negsuc n) h = ground arith
