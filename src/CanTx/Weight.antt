-- ===== src/CanTx/Weight.antt =====
-- Sums over the classes of the transmit queue, by the weight of an item.
use native.Mathlib.Decide.{ℕ_discrete}
use powersuit.Base.{
  ℕ, zero, suc, ◌+◌, ◌≤◌, ◌<◌, ◌≡◌, ◌≢◌, refl, ap, arith, true, Option, none, some, List, [], ◌∷◌,
  ◌++◌, length,
}
use powersuit.Txq.{Txq, push}
use powersuit.Txq.Refine.{IsValid, items, push_refines, PopSpec}

abbrev pub weigh : (ℕ → ℕ) → List ℕ → ℕ
weigh w [] = 0
weigh w (x ∷ xs) = w x + weigh w xs

pub weigh-append : (w : ℕ → ℕ) (xs ys : List ℕ) → weigh w (xs ++ ys) ≡ weigh w xs + weigh w ys
weigh-append w [] ys = omega arith
weigh-append w (x ∷ xs) ys = omega (arith, weigh-append w xs ys)

-- Every item weighs one.
pub weigh-length : (xs : List ℕ) → weigh (λ _. 1) xs ≡ length xs
weigh-length [] = refl
weigh-length (x ∷ xs) = omega (arith, weigh-length xs)

-- The sum of `f` over `n` numbers from `c` on.
abbrev pub sum_over : (ℕ → ℕ) → ℕ → ℕ → ℕ
sum_over f zero c = 0
sum_over f (suc n) c = f c + sum_over f n (c + 1)

sum_over-same :
    (f g : ℕ → ℕ) (n c : ℕ) → ((j : ℕ) → c ≤ j → f j ≡ g j) → sum_over f n c ≡ sum_over g n c
sum_over-same f g zero c h = refl
sum_over-same f g (suc n) c h =
    omega (arith, h c (omega arith), sum_over-same f g n (c + 1) (λ j l. h j (omega arith)))

-- Two functions that differ in one place.
sum_over-change :
    (f g : ℕ → ℕ) (n c k : ℕ)
    → c ≤ k
    → k < c + n
    → ((j : ℕ) → j ≢ k → f j ≡ g j)
    → sum_over f n c + g k ≡ sum_over g n c + f k
sum_over-change f g zero c k l u h = absurd (omega arith)
sum_over-change f g (suc n) c k l u h = elim (ℕ_discrete c k) [
  | yes e ↦
      let same = sum_over-same f g n (c + 1) (λ j m. h j (λ q. omega (arith, q, m, e))) in
      omega (arith, same, ap f e, ap g e)
  | no ne ↦ omega (arith, h c ne, sum_over-change f g n (c + 1) k (omega arith) (omega arith) h)
]

sum_over-zero : (f : ℕ → ℕ) (n c : ℕ) → ((j : ℕ) → j < c + n → f j ≡ 0) → sum_over f n c ≡ 0
sum_over-zero f zero c h = refl
sum_over-zero f (suc n) c h =
    omega (arith, h c (omega arith), sum_over-zero f n (c + 1) (λ j l. h j (omega arith)))

-- The weight of what waits.
abbrev pub waiting : (ℕ → ℕ) → Txq → ℕ
waiting w q = sum_over (λ cls. weigh w (items q cls)) 8 0

pub waiting-none : (w : ℕ → ℕ) (q : Txq) → ((j : ℕ) → j < 8 → items q j ≡ []) → waiting w q ≡ 0
waiting-none w q h =
    sum_over-zero (λ j. weigh w (items q j)) 8 0 (λ j l. ap (weigh w) (h j (omega arith)))

pub class-le-waiting :
    (w : ℕ → ℕ) (q : Txq) (cls : ℕ) → cls < 8 → weigh w (items q cls) ≤ waiting w q
class-le-waiting w q cls h = among 8 0 (omega arith) (omega arith)
  where
    among :
        (n c : ℕ)
        → c ≤ cls
        → cls < c + n
        → weigh w (items q cls) ≤ sum_over (λ j. weigh w (items q j)) n c
    among zero c l u = absurd (omega arith)
    among (suc n) c l u = elim (ℕ_discrete c cls) [
      | yes e ↦ omega (arith, ap (λ j. weigh w (items q j)) e)
      | no ne ↦ omega (arith, among n (c + 1) (omega arith) (omega arith))
    ]

module _ (w : ℕ → ℕ) {q : Txq} (v : IsValid q) where
  -- An accepted push adds its item.
  pub waiting-push :
      (cls item : ℕ)
      → cls < 8
      → (push q cls item).1 ≡ true
      → waiting w (push q cls item).0 ≡ waiting w q + w item
  waiting-push cls item c accepted =
      let (_, _, done, _) = push_refines cls item v in
      let (own, others) = done accepted in
      omega (
        arith,
        sum_over-change (λ j. weigh w (items (push q cls item).0 j)) (λ j. weigh w (items q j)) 8 0
            cls (omega arith) (omega arith) (λ j n. ap (weigh w) (others j n)),
        ap (weigh w) own,
        weigh-append w (items q cls) (item ∷ []),
      )

  -- A pop takes its item away.
  pub waiting-pop :
      (out : Txq × Option ℕ) {x : ℕ}
      → PopSpec q out
      → out.1 ≡ some x
      → waiting w q ≡ waiting w out.0 + w x
  waiting-pop (q', none) s e = cc
  waiting-pop (q', some y) {x} ((cls, p), _) e =
      let same : y ≡ x = cc in
      omega (
        arith,
        sum_over-change (λ j. weigh w (items q' j)) (λ j. weigh w (items q j)) 8 0 cls (omega arith)
            p.class_in (λ j n. ap (weigh w) (p.others j n)),
        ap (weigh w) p.oldest,
        ap w same,
      )
