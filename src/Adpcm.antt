-- ===== src/Adpcm.antt =====
-- common/c/src/adpcm_ima.c: the IMA ADPCM codec of the voice streams.
pub mod Codec
pub mod Lockstep
pub mod Quantise
use powersuit.Base.{
  ℕ, ◌+◌, ◌-◌, ◌*◌, ◌/◌, Bool, true, false, not, List, [], ◌∷◌, get_or, bit_or, shl, shr, low_bits,
  u8, test_bit, leb, ltb, if◌then◌else◌,
}
use powersuit.Base.Int.{ℤ, pos, negsuc, pos_part, neg_part, ◌+ℤ◌, ◌-ℤ◌, ltb_ℤ}

abbrev pub step_table : List ℕ
step_table =
    7 ∷ 8 ∷ 9 ∷ 10 ∷ 11 ∷ 12 ∷ 13 ∷ 14 ∷ 16 ∷ 17 ∷ 19 ∷ 21 ∷ 23 ∷ 25 ∷ 28 ∷ 31 ∷ 34 ∷ 37 ∷ 41 ∷ 45
    ∷ 50 ∷ 55 ∷ 60 ∷ 66 ∷ 73 ∷ 80 ∷ 88 ∷ 97 ∷ 107 ∷ 118 ∷ 130 ∷ 143 ∷ 157 ∷ 173 ∷ 190 ∷ 209 ∷ 230
    ∷ 253 ∷ 279 ∷ 307 ∷ 337 ∷ 371 ∷ 408 ∷ 449 ∷ 494 ∷ 544 ∷ 598 ∷ 658 ∷ 724 ∷ 796 ∷ 876 ∷ 963 ∷ 1060
    ∷ 1166 ∷ 1282 ∷ 1411 ∷ 1552 ∷ 1707 ∷ 1878 ∷ 2066 ∷ 2272 ∷ 2499 ∷ 2749 ∷ 3024 ∷ 3327 ∷ 3660
    ∷ 4026 ∷ 4428 ∷ 4871 ∷ 5358 ∷ 5894 ∷ 6484 ∷ 7132 ∷ 7845 ∷ 8630 ∷ 9493 ∷ 10442 ∷ 11487 ∷ 12635
    ∷ 13899 ∷ 15289 ∷ 16818 ∷ 18500 ∷ 20350 ∷ 22385 ∷ 24623 ∷ 27086 ∷ 29794 ∷ 32767 ∷ []

-- `STEP_TABLE[i]`. The index is kept below 89; out of range the model reads 0.
unfoldable pub step_of : ℕ → ℕ
step_of i = get_or step_table i 0

abbrev pub index_table : List ℤ
index_table =
    negsuc 0
    ∷ negsuc 0
    ∷ negsuc 0
    ∷ negsuc 0
    ∷ pos 2
    ∷ pos 4
    ∷ pos 6
    ∷ pos 8
    ∷ negsuc 0
    ∷ negsuc 0
    ∷ negsuc 0
    ∷ negsuc 0
    ∷ pos 2
    ∷ pos 4
    ∷ pos 6
    ∷ pos 8
    ∷ []

-- `ps_adpcm_state_t`. The step index is never negative between two samples.
pub record Adpcm : Type 0 where
  pub predictor : ℤ
  pub step_index : ℕ

-- `ps_adpcm_init`
unfoldable pub init : Adpcm
init = record { predictor = pos 0; step_index = 0 }

unfoldable pub clamp16 : ℤ → ℤ
clamp16 v =
    if ltb_ℤ (pos 32767) v then pos 32767 else if ltb_ℤ v (negsuc 32767) then negsuc 32767 else v

-- The end of both functions: `step_index += INDEX_TABLE[code]`, kept within 0 and 88.
unfoldable pub next_index : ℕ → ℕ → ℕ
unfolding ◌+ℤ◌
next_index i code =
    let n = pos i +ℤ get_or index_table code (pos 0) in
    if ltb_ℤ n (pos 0) then 0 else if ltb_ℤ (pos 88) n then 88 else pos_part n

-- The new state of both functions, from the code and the difference that it stands for.
unfoldable pub advance : Adpcm → ℕ → ℕ → Adpcm
advance st code vpdiff = record {
  predictor =
      clamp16 (if test_bit code 3 then st.predictor -ℤ pos vpdiff else st.predictor +ℤ pos vpdiff);
  step_index = next_index st.step_index code;
}

-- The three comparisons of `encode_sample`, for the step and the size of the difference: the three
-- low bits of the code, and `vpdiff`.
unfoldable pub quantise : ℕ → ℕ → ℕ × ℕ
quantise step diff =
    let b2 = leb step diff in
    let diff2 = if b2 then diff - step else diff in
    let half = shr step 1 in
    let b1 = leb half diff2 in
    let diff1 = if b1 then diff2 - half else diff2 in
    let quarter = shr half 1 in
    let b0 = leb quarter diff1 in
    (
      bit_or (bit_or (if b2 then 4 else 0) (if b1 then 2 else 0)) (if b0 then 1 else 0),
      shr step 3
          + (if b2 then step else 0)
          + (if b1 then half else 0)
          + (if b0 then quarter else 0),
    )

-- `encode_sample`
unfoldable pub encode_sample : Adpcm → ℤ → Adpcm × ℕ
encode_sample st sample =
    let diff = sample -ℤ st.predictor in
    let (bits, vpdiff) = quantise (step_of st.step_index) (pos_part diff + neg_part diff) in
    let code = bit_or (if ltb_ℤ diff (pos 0) then 8 else 0) bits in (advance st code vpdiff, code)

-- The difference that a code stands for, in `decode_sample`.
unfoldable pub dequantise : ℕ → ℕ → ℕ
dequantise step code =
    shr step 3
    + (if test_bit code 2 then step else 0)
    + (if test_bit code 1 then shr step 1 else 0)
    + (if test_bit code 0 then shr step 2 else 0)

-- `decode_sample`
unfoldable pub decode_sample : Adpcm → ℕ → Adpcm × ℤ
decode_sample st code =
    let st' = advance st code (dequantise (step_of st.step_index) code) in (st', st'.predictor)

-- `ps_adpcm_encode`: the new state and the bytes. A last sample with no second is not read, as with
-- `n / 2` rounds.
unfoldable pub encode : Adpcm → List ℤ → Adpcm × List ℕ
encode st [] = (st, [])
encode st (x ∷ []) = (st, [])
encode st (x ∷ (y ∷ pcm)) =
    let (st1, lo) = encode_sample st x in
    let (st2, hi) = encode_sample st1 y in
    let (st', out) = encode st2 pcm in (st', u8 (bit_or lo (shl hi 4)) ∷ out)

-- `ps_adpcm_decode`: the new state and the samples.
unfoldable pub decode : Adpcm → List ℕ → Adpcm × List ℤ
decode st [] = (st, [])
decode st (b ∷ bytes) =
    let (st1, x) = decode_sample st (u8 (low_bits b 4)) in
    let (st2, y) = decode_sample st1 (u8 (shr b 4)) in
    let (st', out) = decode st2 bytes in (st', x ∷ (y ∷ out))
