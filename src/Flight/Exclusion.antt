-- ===== src/Flight/Exclusion.antt =====
-- servo_task.c: the pairwise exclusion of flaps that overlap.
use native.Mathlib.Decide.{ℕ_discrete}
use powersuit.Base.{
  ℕ, ◌+◌, ◌-◌, ◌/◌, ◌≤◌, ◌<◌, ◌≡◌, ◌≢◌, refl, sym, ap, subst, ◌∙◌, arith, Bool-cases, inl, inr,
  List, [], ◌∷◌, length, length-set, get_or, get_or-set_self, get_or-set_ne, All, ltb, by_if,
}
use powersuit.Base.Int.{ℤ, pos, mag, ◌≤ℤ◌}
use powersuit.Flight.{Pair}
use powersuit.Flight.Servo.{Wants, reduce, pull, exclude, exclude_all}
use powersuit.Flight.Motion.{Between, mag-reduce, reduce-Between}

abbrev pub want_of : Wants → ℕ → ℤ
want_of w i = get_or w.want i (pos 0)

-- A pair of two flaps that exist.
abbrev pub PairIsValid : Pair → Type 0
PairIsValid p = (p.a ≢ p.b) × (p.a < 12) × (p.b < 12)

abbrev pub Kept : Wants → Pair → Type 0
Kept w p = mag (want_of w p.a) + mag (want_of w p.b) ≤ p.joint_max_sum_pm

-- Each of the two could have the whole sum.
abbrev pub Alone : Wants → Pair → Type 0
Alone w p = (mag (want_of w p.a) ≤ p.joint_max_sum_pm) × (mag (want_of w p.b) ≤ p.joint_max_sum_pm)

-- No magnitude grows, and what is between two bounds round neutral stays there.
pub record Shrinks (w w' : Wants) : Type 0 where
  pub as_long : length w'.want ≡ length w.want
  pub smaller : (i : ℕ) → mag (want_of w' i) ≤ mag (want_of w i)
  pub inside :
      (i : ℕ) (lo hi : ℤ)
      → lo ≤ℤ pos 0
      → pos 0 ≤ℤ hi
      → Between lo hi (want_of w i)
      → Between lo hi (want_of w' i)

Shrinks-refl : (w : Wants) → Shrinks w w
Shrinks-refl w = record { as_long = refl; smaller = λ i. omega arith; inside = λ i lo hi a b h. h }

Shrinks-trans : {u v w : Wants} → Shrinks u v → Shrinks v w → Shrinks u w
Shrinks-trans {u} {v} {w} a b = record {
  as_long = b.as_long ∙ a.as_long;
  smaller = λ i. omega (arith, a.smaller i, b.smaller i);
  inside = λ i lo hi p q h. b.inside i lo hi p q (a.inside i lo hi p q h);
}

pull_self :
    (cut : ℕ) (w : Wants) (f : ℕ)
    → f < length w.want
    → want_of (pull cut w f) f ≡ reduce cut (want_of w f)
unfolding pull
pull_self cut w f h = get_or-set_self w.want f (reduce cut (want_of w f)) (pos 0) h

pull_ne : (cut : ℕ) (w : Wants) (f i : ℕ) → f ≢ i → want_of (pull cut w f) i ≡ want_of w i
unfolding pull
pull_ne cut w f i n = get_or-set_ne w.want (reduce cut (want_of w f)) (pos 0) n

pull-Shrinks : (cut : ℕ) (w : Wants) (f : ℕ) → f < length w.want → Shrinks w (pull cut w f)
unfolding pull
pull-Shrinks cut w f h = record {
  as_long = length-set w.want f (reduce cut (want_of w f));
  smaller = λ i. elim (ℕ_discrete f i) [
    | yes e ↦
        subst (λ k. mag (want_of (pull cut w f) k) ≤ mag (want_of w k)) e
          (omega (arith, ap mag (pull_self cut w f h), mag-reduce cut (want_of w f)))
    | no n ↦ omega (arith, ap mag (pull_ne cut w f i n))
  ];
  inside = λ i lo hi a b q. elim (ℕ_discrete f i) [
    | yes e ↦
        subst (λ k. Between lo hi (want_of (pull cut w f) k)) e
          (subst (Between lo hi) (sym (pull_self cut w f h)) (
            reduce-Between cut (want_of w f) lo hi a b
              (subst (λ k. Between lo hi (want_of w k)) (sym e) q)))
    | no n ↦ subst (Between lo hi) (sym (pull_ne cut w f i n)) q
  ];
}

module _ (w : Wants) (p : Pair) (v : PairIsValid p) (twelve : length w.want ≡ 12) where
  cut : ℕ
  cut = (mag (want_of w p.a) + mag (want_of w p.b) - p.joint_max_sum_pm + 1) / 2

  second_there : p.b < length (pull cut w p.a).want
  second_there =
      omega (arith, (pull-Shrinks cut w p.a (omega (arith, v.1, twelve))).as_long, v.2, twelve)

  exclude-Shrinks : Shrinks w (exclude w p)
  unfolding exclude cut
  exclude-Shrinks =
      by_if (Shrinks w) _
        (Shrinks-trans (pull-Shrinks cut w p.a (omega (arith, v.1, twelve)))
          (pull-Shrinks cut (pull cut w p.a) p.b second_there))
        (Shrinks-refl w)

  exclude-Kept : Alone w p → Kept (exclude w p) p
  unfolding exclude cut
  exclude-Kept (x, y) =
      elim (Bool-cases (ltb p.joint_max_sum_pm (mag (want_of w p.a) + mag (want_of w p.b)))) [
        | inl over ↦ rw over (
            let first : want_of (pull cut (pull cut w p.a) p.b) p.a ≡ reduce cut (want_of w p.a) =
              pull_ne cut (pull cut w p.a) p.b p.a (λ e. v.0 (sym e))
              ∙ pull_self cut w p.a (omega (arith, v.1, twelve)) in
            let second : want_of (pull cut (pull cut w p.a) p.b) p.b ≡ reduce cut (want_of w p.b) =
              pull_self cut (pull cut w p.a) p.b second_there
              ∙ ap (reduce cut) (pull_ne cut w p.a p.b v.0) in
            halved (want_of w p.a) (want_of w p.b) p.joint_max_sum_pm x y first second)
        | inr within ↦ rw within (ground arith)
      ]
    where
      halved :
          (s t : ℤ) {s' t' : ℤ} (most : ℕ)
          → mag s ≤ most
          → mag t ≤ most
          → let c = (mag s + mag t - most + 1) / 2 in
            s' ≡ reduce c s → t' ≡ reduce c t → mag s' + mag t' ≤ most
      halved s t most a b e f =
          let c = (mag s + mag t - most + 1) / 2 in
          omega (arith, ap mag e, ap mag f, mag-reduce c s, mag-reduce c t)

-- After the loop over the pairs all of them are kept, and no magnitude has grown.
pub exclude_all-Kept :
    (w : Wants) (ps : List Pair)
    → All PairIsValid ps
    → length w.want ≡ 12
    → All (Alone w) ps
    → All (Kept (exclude_all w ps)) ps × Shrinks w (exclude_all w ps)
unfolding exclude_all
exclude_all-Kept w [] v l h = (tt, Shrinks-refl w)
exclude_all-Kept w (p ∷ ps) (v, vs) l (h, hs) =
    let now = exclude-Shrinks w p v l in
    let kept = exclude-Kept w p v l h in
    let (rest, later) = exclude_all-Kept (exclude w p) ps vs (now.as_long ∙ l) (still now ps hs) in
    ((omega (arith, kept, later.smaller p.a, later.smaller p.b), rest), Shrinks-trans now later)
  where
    still : {w' : Wants} → Shrinks w w' → (qs : List Pair) → All (Alone w) qs → All (Alone w') qs
    still s [] h = tt
    still s (q ∷ qs) ((a, b), h) =
        ((omega (arith, s.smaller q.a), omega (arith, s.smaller q.b)), still s qs h)
