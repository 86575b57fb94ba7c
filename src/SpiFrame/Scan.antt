-- ===== src/SpiFrame/Scan.antt =====
-- spi_frame.c: the search for the start of a frame in a stream.
use native.Mathlib.Decide.{ℕ_discrete, dec_le}
use powersuit.Base.{
  ℕ, zero, suc, ◌+◌, ◌-◌, ◌≤◌, ◌<◌, ◌≡◌, inl, inr, subst, arith, Option, none, some, List, length,
  ◌==◌, ◌&&◌, ltb, Bool-cases, u8, shr, low_bits,
}
use powersuit.Bytes.{at}
use powersuit.SpiFrame.{spi_magic, scan_loop, frame_scan}

-- The two bytes of the magic number, low one first, stand at `i`.
abbrev pub MagicAt : List ℕ → ℕ → Type 0
MagicAt buf i = (at buf i ≡ 0x5A) × (at buf (i + 1) ≡ 0xA5)

-- The first place of the magic number in [lo, hi), or none.
abbrev pub FirstMagic : List ℕ → ℕ → ℕ → Option ℕ → Type 0
FirstMagic buf lo hi none = (j : ℕ) → lo ≤ j → j < hi → ¬ (MagicAt buf j)
FirstMagic buf lo hi (some i) =
    (lo ≤ i) × (i < hi) × MagicAt buf i × ((j : ℕ) → lo ≤ j → j < i → ¬ (MagicAt buf j))

-- From the next place on to this one, where there is no magic number here.
widen :
    (buf : List ℕ) (i n : ℕ) (o : Option ℕ)
    → ¬ (MagicAt buf i)
    → FirstMagic buf (i + 1) (i + 1 + n) o
    → FirstMagic buf i (i + suc n) o
widen buf i n none away f = λ j lo hi m. elim (ℕ_discrete j i) [
  | yes e ↦ away (rw e at m)
  | no ne ↦ f j (omega arith) (omega arith) m
]
widen buf i n (some k) away f = (
  omega arith,
  omega arith,
  f.2,
  λ j lo hi m. elim (ℕ_discrete j i) [
    | yes e ↦ away (rw e at m)
    | no ne ↦ f.3 j (omega arith) hi m
  ],
)

scan_loop-first : (n : ℕ) (buf : List ℕ) (i : ℕ) → FirstMagic buf i (i + n) (scan_loop buf n i)
unfolding scan_loop
scan_loop-first zero buf i = λ j lo hi m. omega arith
scan_loop-first (suc n) buf i =
    elim (Bool-cases
      (at buf i == u8 (low_bits spi_magic 8) && at buf (i + 1) == u8 (shr spi_magic 8))) [
        | inl here ↦ rw here (omega arith, omega arith, ground arith, λ j lo hi m. omega arith)
        | inr away ↦ rw away (
            widen buf i n (scan_loop buf n (i + 1)) (λ m. ground arith)
              (scan_loop-first n buf (i + 1)))
      ]

-- The scan finds the first magic number at or after `from` that lies whole inside the buffer, and
-- nothing exactly when there is none.
pub frame_scan-first :
    (buf : List ℕ) (from : ℕ) → FirstMagic buf from (length buf - 1) (frame_scan buf from)
unfolding frame_scan
frame_scan-first buf from = elim (Bool-cases (ltb (length buf) 2)) [
  | inl tiny ↦ rw tiny (λ j lo hi m. ground arith)
  | inr two ↦ rw two (elim (dec_le from (length buf - 1)) [
    | yes p ↦
        let e : from + (length buf - 1 - from) ≡ length buf - 1 = omega arith in
        subst (λ k. FirstMagic buf from k (scan_loop buf (length buf - 1 - from) from)) e
          (scan_loop-first (length buf - 1 - from) buf from)
    | no p ↦
        let e : length buf - 1 - from ≡ 0 = omega arith in
        rw (e, scan_loop) (λ j lo hi m. omega arith)
  ])
]
