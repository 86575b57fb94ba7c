-- ===== src/Base/Words.antt =====
-- Machine words as native numbers: casts to the fixed widths, shifts, masks, wrapping arithmetic.
use Prim.Native.Nat.{ℕ, ◌+◌, ◌-◌, ◌*◌, ◌/◌, ◌%◌, ◌^◌, ◌<◌, compare, Ordering}
use mathlib.Core.Bool.{Bool, true, false}

-- `(uint8_t)n`, `(uint16_t)n`, `(uint32_t)n`
abbrev pub u8 : ℕ → ℕ
u8 n = n % 2 ^ 8

abbrev pub u16 : ℕ → ℕ
u16 n = n % 2 ^ 16

abbrev pub u32 : ℕ → ℕ
u32 n = n % 2 ^ 32

-- `x << k` before any cast, `x >> k`, and `x & (2^k - 1)`
abbrev pub shl : ℕ → ℕ → ℕ
shl x k = x * 2 ^ k

abbrev pub shr : ℕ → ℕ → ℕ
shr x k = x / 2 ^ k

abbrev pub low_bits : ℕ → ℕ → ℕ
low_bits x k = x % 2 ^ k

-- `x & (1 << k)` as a condition
abbrev pub test_bit : ℕ → ℕ → Bool
test_bit x k = elim (compare (x / 2 ^ k % 2) 0) [ Ordering.eq ↦ false | _ ↦ true ]

-- `uint32_t` subtraction; 2^32 is added first since `-` on ℕ stops at 0.
abbrev pub sub32 : ℕ → ℕ → ℕ
sub32 a b = (a + 2 ^ 32 - b) % 2 ^ 32

-- The value fits a byte, a half-word, a word.
abbrev pub IsByte : ℕ → Type 0
IsByte x = x < 2 ^ 8

abbrev pub IsU16 : ℕ → Type 0
IsU16 x = x < 2 ^ 16

abbrev pub IsU32 : ℕ → Type 0
IsU32 x = x < 2 ^ 32
