-- ===== src/Adpcm/Quantise.antt =====
-- adpcm_ima.c: the code of a difference, and what it stands for.
use powersuit.Base.{
  ℕ, ◌+◌, ◌*◌, ◌/◌, ◌≤◌, ◌<◌, ◌≡◌, arith, true, false, Bool, bit_or, if◌then◌else◌,
}
use powersuit.Adpcm.{quantise, dequantise}

-- With the sign bit clear.
quantise_up :
    (step diff : ℕ)
    → let (bits, vpdiff) = quantise step diff in
      (dequantise step (bit_or 0 bits) ≡ vpdiff) × (bit_or 0 bits < 16)
unfolding quantise dequantise
quantise_up step diff = ground arith

-- With the sign bit set.
quantise_down :
    (step diff : ℕ)
    → let (bits, vpdiff) = quantise step diff in
      (dequantise step (bit_or 8 bits) ≡ vpdiff) × (bit_or 8 bits < 16)
unfolding quantise dequantise
quantise_down step diff = ground arith

-- The decoder reads from the code the difference that the encoder settled on, with the sign bit set
-- or not, and the code has four bits.
pub dequantise-quantise :
    (sign : Bool) (step diff : ℕ)
    → let (bits, vpdiff) = quantise step diff in
      let code = bit_or (if sign then 8 else 0) bits in
      (dequantise step code ≡ vpdiff) × (code < 16)
dequantise-quantise true step diff = quantise_down step diff
dequantise-quantise false step diff = quantise_up step diff

-- What the code stands for is within an eighth of the step of the difference, and 2 for the rounding,
-- where the difference is below two steps; it never exceeds the difference by more than the eighth.
pub quantise_error :
    (step diff : ℕ)
    → let vpdiff = (quantise step diff).1 in
      (vpdiff ≤ diff + step / 8) × (diff < 2 * step → diff ≤ vpdiff + step / 8 + 2)
unfolding quantise
quantise_error step diff = ground arith
