-- ===== src/Adpcm/Codec.antt =====
-- adpcm_ima.c: the state of the codec stays in range.
use powersuit.Base.{ℕ, ◌≤◌, arith, List, [], ◌∷◌, u8, low_bits, shr}
use powersuit.Base.Int.{ℤ, pos, negsuc, ◌≤ℤ◌}
use powersuit.Adpcm.{
  Adpcm, clamp16, next_index, advance, encode_sample, decode_sample, encode, decode, init,
}

-- A 16-bit predictor and an index into the table of steps.
pub record IsValid (st : Adpcm) : Type 0 where
  pub index : st.step_index ≤ 88
  pub low : negsuc 32767 ≤ℤ st.predictor
  pub high : st.predictor ≤ℤ pos 32767

clamp16_bounds : (v : ℤ) → (negsuc 32767 ≤ℤ clamp16 v) × (clamp16 v ≤ℤ pos 32767)
unfolding clamp16
clamp16_bounds v = ground arith

next_index-le : (i code : ℕ) → next_index i code ≤ 88
unfolding next_index
next_index-le i code = ground arith

advance-IsValid : (st : Adpcm) (code vpdiff : ℕ) → IsValid (advance st code vpdiff)
unfolding advance
advance-IsValid st code vpdiff = record {
  index = next_index-le st.step_index code;
  low = (clamp16_bounds _).0;
  high = (clamp16_bounds _).1;
}

-- The initial state is in range, and every sample that is encoded or decoded leaves the state in
-- range, whatever the sample or the byte is.
pub sample-IsValid :
    IsValid init
    × ((st : Adpcm) (x : ℤ) → IsValid (encode_sample st x).0)
    × ((st : Adpcm) (code : ℕ) → IsValid (decode_sample st code).0)
unfolding init encode_sample decode_sample
sample-IsValid = (omega arith, λ st x. advance-IsValid st _ _, λ st code. advance-IsValid st _ _)

pub encode-IsValid : (st : Adpcm) (pcm : List ℤ) → IsValid st → IsValid (encode st pcm).0
unfolding encode
encode-IsValid st [] h = h
encode-IsValid st (x ∷ []) h = h
encode-IsValid st (x ∷ (y ∷ pcm)) h =
    let st1 = (encode_sample st x).0 in
    encode-IsValid (encode_sample st1 y).0 pcm (sample-IsValid.1 st1 y)

pub decode-IsValid : (st : Adpcm) (bytes : List ℕ) → IsValid st → IsValid (decode st bytes).0
unfolding decode
decode-IsValid st [] h = h
decode-IsValid st (b ∷ bytes) h =
    let st1 = (decode_sample st (u8 (low_bits b 4))).0 in
    decode-IsValid (decode_sample st1 (u8 (shr b 4))).0 bytes (sample-IsValid.2 st1 (u8 (shr b 4)))
