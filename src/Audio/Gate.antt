-- ===== src/Audio/Gate.antt =====
-- firmware/components/ps_audio/src/energy_gate.c. The mean square that `pow` gives in `ps_egate_init` is
-- an argument, cut down to a whole number.
use powersuit.Base.{
  ℕ, suc, ◌+◌, ◌*◌, ◌/◌, ◌≤◌, ◌<◌, ◌≡◌, ◌≢◌, refl, arith, Bool, true, false, not, ◌&&◌, List, [],
  ◌∷◌, ◌⊎◌, inl, inr, length, All, sub32, leb, ltb, ◌==◌, if◌then◌else◌,
}
use powersuit.Bytes.{IsI16}
use native.Mathlib.Nat.{div-le_of_le-mul, mul-le-mul}
use powersuit.Base.Int.{ℤ, pos, negsuc}

-- `EGATE_NEEDS_QUIET`
abbrev pub needs_quiet : ℕ
needs_quiet = 4294967295

-- `ps_egate_t`
pub record Gate : Type 0 where
  pub threshold_q : ℕ
  pub hang_ms : ℕ
  pub max_utterance_ms : ℕ
  pub is_open : Bool
  pub opened_ms : ℕ
  pub last_voiced_ms : ℕ

-- `ps_egate_init`
unfoldable pub gate_init : ℕ → ℕ → ℕ → Gate
gate_init ms hang max = record {
  threshold_q = if ltb 2147483647 ms then 2147483647 else if ltb ms 1 then 1 else ms;
  hang_ms = hang;
  max_utterance_ms = max;
  is_open = false;
  opened_ms = 0;
  last_voiced_ms = 0;
}

-- The square of a sample.
unfoldable pub square : ℤ → ℕ
square (pos n) = n * n
square (negsuc n) = suc n * suc n

-- The accumulator after the samples.
unfoldable pub energy : List ℤ → ℕ
unfolding square
energy [] = 0
energy (s ∷ ss) = square s + energy ss

-- The state machine of `ps_egate_process` once it knows if the block is voiced.
unfoldable pub gate_step : Gate → Bool → ℕ → Gate
gate_step g voiced now =
    if g.is_open
    then (let last = if voiced then now else g.last_voiced_ms in
        if leb g.max_utterance_ms (sub32 now g.opened_ms)
        then record g { is_open = false; opened_ms = needs_quiet; last_voiced_ms = last }
        else if not voiced && leb g.hang_ms (sub32 now last)
        then record g { is_open = false; opened_ms = 0; last_voiced_ms = last }
        else record g { last_voiced_ms = last })
    else if g.opened_ms == needs_quiet
    then (if not voiced then record g { opened_ms = 0 } else g)
    else if voiced
    then record g { is_open = true; opened_ms = now; last_voiced_ms = now }
    else g

-- `ps_egate_process`; the answer is the field `is_open` of the result. The mean of the squares is
-- below 2 ^ 31, so its cast keeps it.
unfoldable pub gate_process : Gate → List ℤ → ℕ → Gate
unfolding gate_step energy
gate_process g [] now = g
gate_process g (s ∷ ss) now =
    gate_step g (leb g.threshold_q (energy (s ∷ ss) / length (s ∷ ss))) now

-- The block is one that the code calls voiced.
abbrev pub is_voiced : Gate → List ℤ → Bool
is_voiced g pcm = leb g.threshold_q (energy pcm / length pcm)

-- A gate that opens does so on a voiced block, while it is armed; a gate that stays open on a block has been
-- open for less than the utterance cap, and is within the hang time of the last voiced block.
pub gate_process-open :
    (g : Gate) (s : ℤ) (ss : List ℤ) (now : ℕ)
    → (gate_process g (s ∷ ss) now).is_open ≡ true
    → (g.is_open ≡ false × is_voiced g (s ∷ ss) ≡ true × g.opened_ms ≢ needs_quiet)
      ⊎ (g.is_open ≡ true
          × sub32 now g.opened_ms < g.max_utterance_ms
          × (is_voiced g (s ∷ ss) ≡ true ⊎ sub32 now g.last_voiced_ms < g.hang_ms))
unfolding gate_process gate_step
gate_process-open g s ss now h = ground arith

-- The gate after blocks, each with its time.
unfoldable pub gate_run : Gate → List (List ℤ × ℕ) → Gate
gate_run g [] = g
gate_run g ((pcm, now) ∷ blocks) = gate_run (gate_process g pcm now) blocks

-- A block that does not let a gate of this threshold re-arm.
abbrev pub IsLoud : ℕ → List ℤ × ℕ → Type 0
IsLoud t (pcm, now) = leb t (energy pcm / length pcm) ≡ true ⊎ pcm ≡ []

loud_step :
    (g : Gate) (pcm : List ℤ) (now : ℕ)
    → g.is_open ≡ false
    → g.opened_ms ≡ needs_quiet
    → IsLoud g.threshold_q (pcm, now)
    → gate_process g pcm now ≡ g
unfolding gate_process gate_step
loud_step g [] now h q v = refl
loud_step g (s ∷ ss) now h q (inl v) = rw (h, q, v) refl
loud_step g (s ∷ ss) now h q (inr e) = cc

-- After a forced close, blocks that are all voiced (or empty) leave the gate closed and unarmed, however many
-- they are and whenever they come.
pub gate_run-loud :
    (g : Gate) (blocks : List (List ℤ × ℕ))
    → g.is_open ≡ false
    → g.opened_ms ≡ needs_quiet
    → All (IsLoud g.threshold_q) blocks
    → gate_run g blocks ≡ g
unfolding gate_run
gate_run-loud g [] h q v = refl
gate_run-loud g ((pcm, now) ∷ blocks) h q (v, vs) =
    rw (loud_step g pcm now h q v) (gate_run-loud g blocks h q vs)

square_le : (s : ℤ) → IsI16 s → square s ≤ 1073741824
unfolding square
square_le (pos n) h = mul-le-mul {n₂ = 32768} {m₂ = 32768} (omega arith) (omega arith)
square_le (negsuc n) h = mul-le-mul {n₂ = 32768} {m₂ = 32768} (omega arith) (omega arith)

energy_le : (ss : List ℤ) → All IsI16 ss → energy ss ≤ length ss * 1073741824
unfolding energy
energy_le [] h = omega arith
energy_le (s ∷ ss) (h, hs) = omega (arith, square_le s h, energy_le ss hs)

-- The mean square of a block of 16-bit samples fits the signed 32-bit variable it is cast to.
pub mean_square_fits : (ss : List ℤ) → All IsI16 ss → energy ss / length ss < 2147483648
mean_square_fits ss h =
    let q : energy ss / length ss ≤ 1073741824 = div-le_of_le-mul (length ss) (energy_le ss h) in
    omega arith
