-- ===== src/Adpcm/Lockstep.antt =====
-- adpcm_ima.c: the decoder of a receiver follows the encoder of the sender.
use powersuit.Base.{
  ℕ, ◌+◌, ◌<◌, ◌≡◌, refl, ap, arith, List, [], ◌∷◌, bit_or, u8, low_bits, shr, shl,
}
use powersuit.Base.Int.{ℤ, pos, ltb_ℤ, ◌-ℤ◌, pos_part, neg_part}
use powersuit.Base.Bits.{bit_or_below}
use powersuit.Adpcm.{Adpcm, advance, encode_sample, decode_sample, encode, decode, step_of}
use powersuit.Adpcm.Quantise.{dequantise-quantise}

-- A code has four bits.
pub code-lt : (st : Adpcm) (x : ℤ) → (encode_sample st x).1 < 16
unfolding encode_sample
code-lt st x =
    (dequantise-quantise (ltb_ℤ (x -ℤ st.predictor) (pos 0)) (step_of st.step_index)
      (pos_part (x -ℤ st.predictor) + neg_part (x -ℤ st.predictor))).1

-- Decoding the code of a sample brings a decoder in the encoder's state to the encoder's new state,
-- and the sample that it puts out is the encoder's new prediction.
pub decode_sample-encode_sample :
    (st : Adpcm) (x : ℤ)
    → let (st', code) = encode_sample st x in decode_sample st code ≡ (st', st'.predictor)
unfolding encode_sample decode_sample
decode_sample-encode_sample st x =
    ap (λ v. let st' = advance st (encode_sample st x).1 v in (st', st'.predictor))
      (dequantise-quantise (ltb_ℤ (x -ℤ st.predictor) (pos 0)) (step_of st.step_index)
        (pos_part (x -ℤ st.predictor) + neg_part (x -ℤ st.predictor))).0

-- Two codes in a byte, the first in the low half.
nibbles :
    (lo hi : ℕ)
    → lo < 16
    → hi < 16
    → let b = u8 (bit_or lo (shl hi 4)) in (u8 (low_bits b 4) ≡ lo) × (u8 (shr b 4) ≡ hi)
nibbles lo hi h k = omega (arith, bit_or_below 4 hi lo h)

-- The encoder's predictions, one for each sample that is encoded.
abbrev pub predictions : Adpcm → List ℤ → List ℤ
predictions st [] = []
predictions st (x ∷ []) = []
predictions st (x ∷ (y ∷ pcm)) =
    let st1 = (encode_sample st x).0 in
    let st2 = (encode_sample st1 y).0 in st1.predictor ∷ (st2.predictor ∷ predictions st2 pcm)

-- Decoding what was encoded, from the same state, ends in the encoder's state and gives the encoder's
-- predictions, so that sender and receiver never drift apart.
pub decode-encode :
    (st : Adpcm) (pcm : List ℤ)
    → let (st', bytes) = encode st pcm in decode st bytes ≡ (st', predictions st pcm)
unfolding encode decode
decode-encode st [] = refl
decode-encode st (x ∷ []) = refl
decode-encode st (x ∷ (y ∷ pcm)) =
    let st1 = (encode_sample st x).0 in
    let (lo, hi) =
      nibbles (encode_sample st x).1 (encode_sample st1 y).1 (code-lt st x) (code-lt st1 y) in
    rw (
      lo,
      hi,
      decode_sample-encode_sample st x,
      decode_sample-encode_sample st1 y,
      decode-encode (encode_sample st1 y).0 pcm,
    )
