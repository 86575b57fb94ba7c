-- ===== src/Audio/Cadence.antt =====
-- audio_pkt.c: how many frames a sender emits, and how often it sends its state.
use powersuit.Base.{
  ℕ, zero, suc, ◌+◌, ◌-◌, ◌*◌, ◌≤◌, ◌<◌, min, ◌≡◌, refl, ap, arith, List, [], ◌∷◌, ◌++◌, length,
  take, drop, length-append, length-take, length-drop, ◌==◌, Bool-cases, inl, inr,
}
use powersuit.Base.Int.{ℤ}
use powersuit.Audio.{Tx, tx_flush, tx_loop, tx_push}

flush-pending : (tx : Tx) → (tx_flush tx).0.pending ≡ []
unfolding tx_flush
flush-pending tx = refl

loop_count :
    (fuel : ℕ) (tx : Tx) (pcm : List ℤ)
    → length tx.pending < 16
    → length pcm ≤ fuel
    → let (tx', _, emitted) = tx_loop fuel tx pcm in
      (16 * emitted + length tx'.pending ≡ length tx.pending + length pcm)
      × (length tx'.pending < 16)
unfolding tx_loop
loop_count zero tx [] h f = (omega arith, h)
loop_count zero tx (x ∷ xs) h f = absurd (omega arith)
loop_count (suc fuel) tx [] h f = (omega arith, h)
loop_count (suc fuel) tx (x ∷ xs) h f = elim (Bool-cases (length filled == 16)) [
  | inl full ↦ rw full (
      ground (
        arith,
        sizes,
        flush-pending (record tx { pending = filled }),
        ap length (flush-pending (record tx { pending = filled })),
        loop_count fuel (tx_flush (record tx { pending = filled })).0 rest,
      ))
  | inr room ↦
      rw room (ground (arith, sizes, loop_count fuel (record tx { pending = filled }) rest))
]
  where
    n : ℕ
    n = min (16 - length tx.pending) (length (x ∷ xs))

    filled : List ℤ
    filled = tx.pending ++ take n (x ∷ xs)

    rest : List ℤ
    rest = drop n (x ∷ xs)

    sizes :
        (length filled ≡ length tx.pending + n)
        × (length rest ≡ suc (length xs) - n)
        × (1 ≤ n)
        × (n ≤ 16 - length tx.pending)
        × (n ≤ suc (length xs))
    sizes = omega (
      arith,
      length-append tx.pending (take n (x ∷ xs)),
      length-take n (x ∷ xs),
      length-drop n (x ∷ xs),
    )

-- No sample is lost or made up, and fewer than a frame's worth wait: a call returns the number of
-- complete frames of sixteen among the samples that waited and those that it was given.
pub tx_push_count :
    (tx : Tx) (pcm : List ℤ)
    → length tx.pending < 16
    → let (tx', _, emitted) = tx_push tx pcm in
      (16 * emitted + length tx'.pending ≡ length tx.pending + length pcm)
      × (length tx'.pending < 16)
unfolding tx_push
tx_push_count tx pcm h = loop_count (length pcm) tx pcm h (omega arith)
