-- ===== src/Bms/Charge.antt =====
-- bms_task.c: the state of charge that is reported.
use powersuit.Base.{
  ℕ, ◌+◌, ◌-◌, ◌*◌, ◌/◌, ◌^◌, ◌%◌, ◌≤◌, min, ◌<◌, ◌≡◌, ap, ◌∙◌, arith, Bool-cases, inl, inr, leb,
  List, [], ◌∷◌, length, All, IsU16,
}
use powersuit.Base.Int.{pos, negsuc, sub_ℕ}
use powersuit.Bms.{Bms}
use powersuit.Bms.Report.{soc_estimate, sum_mv, scaled, clamped}

abbrev pub sum : List ℕ → ℕ
sum [] = 0
sum (x ∷ xs) = x + sum xs

sum-lt : (xs : List ℕ) → All IsU16 xs → sum xs ≤ 65535 * length xs
sum-lt [] h = omega arith
sum-lt (x ∷ xs) (b, h) = omega (arith, sum-lt xs h)

sum_mv-sum :
    (acc : ℕ) (xs : List ℕ) → All IsU16 xs → acc + sum xs < 2 ^ 32 → sum_mv acc xs ≡ acc + sum xs
unfolding sum_mv
sum_mv-sum acc [] h l = omega arith
sum_mv-sum acc (x ∷ xs) (b, h) l =
    ap (λ n. sum_mv n xs) (wrapped) ∙ sum_mv-sum (acc + x) xs h (omega arith) ∙ omega arith
  where
    wrapped : (acc + x) % 2 ^ 32 ≡ acc + x
    wrapped = omega arith

below : (n : ℕ) → clamped (pos 0) (pos 100) (scaled (negsuc n) 100 1200) ≡ pos 0
below n = ground arith

within : (n : ℕ) → clamped (pos 0) (pos 100) (scaled (pos n) 100 1200) ≡ pos (min 100 (n / 12))
within n = ground arith

percent :
    (a : ℕ)
    → clamped (pos 0) (pos 100) (scaled (sub_ℕ a 3000) 100 1200) ≡ pos (min 100 ((a - 3000) / 12))
percent a = elim (Bool-cases (leb 3000 a)) [
  | inl over ↦ rw over (within (a - 3000))
  | inr under ↦ rw under (below (3000 - a - 1) ∙ ground arith)
]

-- With twelve cells in range the estimate is a percentage: 0 up to an average of 3.00 V and 100 from 4.20 V, and between
-- them a whole percent for every 12 mV, rounded down.
pub soc_estimate_bounds :
    (s : Bms)
    → length s.cell_mv ≡ 12
    → All IsU16 s.cell_mv
    → let average = sum s.cell_mv / 12 in
      (n : ℕ) × (soc_estimate s ≡ pos n)
      × (n ≤ 100)
      × (average ≤ 3000 → n ≡ 0)
      × (4200 ≤ average → n ≡ 100)
      × (3000 ≤ average
          → average ≤ 4200
          → (n * 12 ≤ average - 3000) × (average - 3000 < n * 12 + 12))
unfolding soc_estimate
soc_estimate_bounds s twelve fits =
    let total : sum_mv 0 s.cell_mv ≡ sum s.cell_mv =
      sum_mv-sum 0 s.cell_mv fits (omega (arith, sum-lt s.cell_mv fits)) ∙ omega arith in
    (
      min 100 ((sum s.cell_mv / 12 - 3000) / 12),
      ap (λ t. clamped (pos 0) (pos 100) (scaled (sub_ℕ (t / 12) 3000) 100 1200)) total
          ∙ percent (sum s.cell_mv / 12),
      omega arith,
      λ h. omega arith,
      λ h. omega arith,
      λ h h'. omega arith,
    )
