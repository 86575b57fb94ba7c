-- ===== src/Crc/Detect.antt =====
-- crc16.c: the checksum of a buffer is computed piecewise, and tells apart buffers that differ in
-- one byte.
use powersuit.Base.{
  ℕ, zero, suc, ◌-◌, ◌*◌, ◌%◌, ◌^◌, ◌≤◌, ◌<◌, ◌≡◌, ◌≢◌, refl, arith, ap, sym, ◌∙◌, List, [], ◌∷◌,
  ◌++◌, bit_xor, shl, u16, IsByte, IsU16,
}
use Prim.Native.Nat.{differ}
use native.Mathlib.Decide.{dec_lt}
use powersuit.Base.Bits.{
  bit_xor_digit, bit_xor_cancel_right, bit_xor_cancel_left, bit_xor-lt, bit_xor-mod,
}
use powersuit.Crc.{bit_step, bit_loop, byte_step, update}

-- Feeding a buffer in two pieces gives the checksum of the whole.
pub update-append : (crc : ℕ) (xs ys : List ℕ) → update crc (xs ++ ys) ≡ update (update crc xs) ys
unfolding update
update-append crc [] ys = refl
update-append crc (x ∷ xs) ys = update-append (byte_step crc x) xs ys

-- A round keeps the register at 16 bits.
bit_step-IsU16 : (crc : ℕ) → IsU16 (bit_step crc)
unfolding bit_step
bit_step-IsU16 crc = ground arith

bit_loop-IsU16 : (n crc : ℕ) → IsU16 crc → IsU16 (bit_loop n crc)
unfolding bit_loop
bit_loop-IsU16 zero crc h = h
bit_loop-IsU16 (suc n) crc h = bit_loop-IsU16 n (bit_step crc) (bit_step-IsU16 crc)

pub byte_step-IsU16 : (crc d : ℕ) → IsU16 crc → IsU16 (byte_step crc d)
unfolding byte_step
byte_step-IsU16 crc d h = bit_loop-IsU16 8 _ (bit_xor-lt 16 crc _ h (omega arith))

-- What a round does to a register with the top bit clear, and with it set.
bit_step_clear : (a : ℕ) → a < 2 ^ 15 → bit_step a ≡ 2 * a
unfolding bit_step
bit_step_clear a h = ground arith

bit_step_set : (a : ℕ) → 2 ^ 15 ≤ a → IsU16 a → bit_step a ≡ bit_xor (2 * a - 2 ^ 16) 0x1021
unfolding bit_step
bit_step_set a h k = ground (
  arith,
  bit_xor-mod 16 (2 * a) 0x1021,
  ap (λ x. bit_xor x 0x1021) (let e : 2 * a % 2 ^ 16 ≡ 2 * a - 2 ^ 16 = omega arith in e),
  ap (λ x. bit_xor x 0x1021 % 2 ^ 16) (let e : a * 2 ≡ 2 * a = omega arith in e),
)

-- The polynomial is odd, so the two kinds of round leave different lowest bits.
bit_step_set_odd : (a : ℕ) → 2 ^ 15 ≤ a → IsU16 a → bit_step a % 2 ≡ 1
bit_step_set_odd a h k = omega (
  arith,
  bit_step_set a h k,
  bit_xor_digit (2 * a - 2 ^ 16) 0x1021,
  ap (λ x. differ x 1) (let e : (2 * a - 2 ^ 16) % 2 ≡ 0 = omega arith in e),
)

bit_step_injective : (a b : ℕ) → IsU16 a → IsU16 b → bit_step a ≡ bit_step b → a ≡ b
bit_step_injective a b ha hb e = elim (dec_lt a (2 ^ 15)) [
  | yes p ↦ elim (dec_lt b (2 ^ 15)) [
    | yes q ↦ omega (arith, bit_step_clear a p, bit_step_clear b q)
    | no q ↦ absurd (omega (arith, bit_step_clear a p, bit_step_set_odd b (omega arith) hb))
  ]
  | no p ↦ elim (dec_lt b (2 ^ 15)) [
    | yes q ↦ absurd (omega (arith, bit_step_clear b q, bit_step_set_odd a (omega arith) ha))
    | no q ↦ omega (
      arith,
      bit_xor_cancel_right (2 * a - 2 ^ 16) (2 * b - 2 ^ 16) 0x1021
          (sym (bit_step_set a (omega arith) ha) ∙ e ∙ bit_step_set b (omega arith) hb),
    )
  ]
]

bit_loop_injective : (n a b : ℕ) → IsU16 a → IsU16 b → bit_loop n a ≡ bit_loop n b → a ≡ b
unfolding bit_loop
bit_loop_injective zero a b ha hb e = e
bit_loop_injective (suc n) a b ha hb e =
    bit_step_injective a b ha hb
      (bit_loop_injective n (bit_step a) (bit_step b) (bit_step-IsU16 a) (bit_step-IsU16 b) e)

-- Two registers that differ stay apart under the same byte.
byte_step_injective_register :
    (a b d : ℕ) → IsU16 a → IsU16 b → byte_step a d ≡ byte_step b d → a ≡ b
unfolding byte_step
byte_step_injective_register a b d ha hb e = bit_xor_cancel_right a b (u16 (shl (u16 d) 8)) (
    bit_loop_injective 8 _ _ (bit_xor-lt 16 a _ ha (omega arith))
      (bit_xor-lt 16 b _ hb (omega arith)) e)

-- Two bytes that differ part equal registers.
byte_step_injective_byte :
    (crc d d' : ℕ) → IsU16 crc → IsByte d → IsByte d' → byte_step crc d ≡ byte_step crc d' → d ≡ d'
unfolding byte_step
byte_step_injective_byte crc d d' h hd hd' e = omega (arith, shifted)
  where
    shifted : u16 (shl (u16 d) 8) ≡ u16 (shl (u16 d') 8)
    shifted = bit_xor_cancel_left _ _ crc (
        bit_loop_injective 8 _ _ (bit_xor-lt 16 crc _ h (omega arith))
          (bit_xor-lt 16 crc _ h (omega arith)) e)

pub update-IsU16 : (crc : ℕ) (xs : List ℕ) → IsU16 crc → IsU16 (update crc xs)
unfolding update
update-IsU16 crc [] h = h
update-IsU16 crc (x ∷ xs) h = update-IsU16 (byte_step crc x) xs (byte_step-IsU16 crc x h)

pub update_injective :
    (a b : ℕ) (xs : List ℕ) → IsU16 a → IsU16 b → update a xs ≡ update b xs → a ≡ b
unfolding update
update_injective a b [] ha hb e = e
update_injective a b (x ∷ xs) ha hb e = byte_step_injective_register a b x ha hb (
    update_injective (byte_step a x) (byte_step b x) xs (byte_step-IsU16 a x ha)
      (byte_step-IsU16 b x hb) e)

-- Two buffers that differ in exactly one byte have different checksums, from any 16-bit start.
pub update_detects :
    (crc : ℕ) (xs ys : List ℕ) (d d' : ℕ)
    → IsU16 crc
    → IsByte d
    → IsByte d'
    → d ≢ d'
    → update crc (xs ++ d ∷ ys) ≢ update crc (xs ++ d' ∷ ys)
unfolding update
update_detects crc xs ys d d' h hd hd' ne e = ne (
    byte_step_injective_byte start d d' hs hd hd' (
      update_injective (byte_step start d) (byte_step start d') ys (byte_step-IsU16 start d hs)
        (byte_step-IsU16 start d' hs)
        (sym (update-append crc xs (d ∷ ys)) ∙ e ∙ update-append crc xs (d' ∷ ys))))
  where
    start : ℕ
    start = update crc xs

    hs : IsU16 start
    hs = update-IsU16 crc xs h
