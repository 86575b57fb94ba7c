-- ===== src/Crc.antt =====
-- common/c/src/crc16.c: CRC16-CCITT-FALSE, bit by bit. A buffer and its length are a list of bytes.
pub mod Detect
use powersuit.Base.{ℕ, zero, suc, List, [], ◌∷◌, bit_xor, shl, u16, test_bit, if◌then◌else◌}

-- One round of the inner loop.
unfoldable pub bit_step : ℕ → ℕ
bit_step crc = if test_bit crc 15 then u16 (bit_xor (shl crc 1) 0x1021) else u16 (shl crc 1)

-- The inner loop, `n` rounds.
unfoldable pub bit_loop : ℕ → ℕ → ℕ
unfolding bit_step
bit_loop zero crc = crc
bit_loop (suc n) crc = bit_loop n (bit_step crc)

-- One round of the outer loop.
unfoldable pub byte_step : ℕ → ℕ → ℕ
unfolding bit_loop
byte_step crc d = bit_loop 8 (bit_xor crc (u16 (shl (u16 d) 8)))

-- `ps_crc16_update`
unfoldable pub update : ℕ → List ℕ → ℕ
unfolding byte_step
update crc [] = crc
update crc (d ∷ ds) = update (byte_step crc d) ds

-- `ps_crc16`
unfoldable pub crc16 : List ℕ → ℕ
unfolding update
crc16 ds = update 0xFFFF ds
