-- ===== src/Bms/Onset.antt =====
-- bms_task.c: no trip without its debounce.
use powersuit.Base.{
  ℕ, ◌+◌, ◌≤◌, ◌≡◌, refl, sym, ap, ◌∙◌, arith, Bool-cases, Bool, true, false, inl, inr, ◌⊎◌, List,
  [], ◌∷◌, ◌++◌, length,
}
use powersuit.Bms.{Bms}
use powersuit.Bms.Sense.{Scale}
use powersuit.Bms.Task.{Inputs, sampled, round}
use powersuit.Bms.Family.{deb_of, trip_of, IsSized}
use powersuit.Bms.Critical.{Fam, index, finding_of-Critical}
use powersuit.Bms.Rounds.{round-Turn, sampled_lem}
use powersuit.Bms.Debounce.{rounds, IsBad, AllBad, turn_due, deb_turn, deb_is, trip_is}

-- Fifty rounds one after the other in which the family is critical, somewhere in the run.
abbrev pub BadStretch : Fam → Bms → Scale → List Inputs → Type 0
BadStretch f s k is =
    (pre : List Inputs) × (mid : List Inputs) × (post : List Inputs) × (is ≡ pre ++ (mid ++ post))
    × (50 ≤ length mid)
    × AllBad f (rounds s k pre) k mid

-- The same, or the run begins with rounds that go on from `n` counted ones.
abbrev Begun : Fam → ℕ → Bms → Scale → List Inputs → Type 0
Begun f n s k is =
    (mid : List Inputs) × (post : List Inputs) × (is ≡ mid ++ post)
    × (50 ≤ n + length mid)
    × AllBad f s k mid

-- A family counts only after the scans.
abbrev IsQuiet : Fam → Bms → Type 0
IsQuiet f s = s.full_scan_done ≡ false → deb_of s (index f) ≡ 0

quiet_turn :
    (cleared scanned crit : Bool) (n n' : ℕ)
    → scanned ≡ false
    → n ≡ 0
    → n' ≡ deb_turn cleared scanned crit n
    → n' ≡ 0
quiet_turn cleared scanned crit n n' h e g = ground arith

module _ (s : Bms) (k : Scale) (i : Inputs) (f : Fam) (z : IsSized s) where
  round-IsQuiet : IsQuiet f s → IsQuiet f (round s k i).0
  round-IsQuiet q h = quiet_turn _ _ _ _ _ unscanned (q before) (deb_is s k i f z)
    where
      unscanned : (sampled s k i).0.full_scan_done ≡ false
      unscanned = sym (round-Turn s k i f z).scan_is ∙ h

      before : s.full_scan_done ≡ false
      before = elim (Bool-cases s.full_scan_done) [
        | inl e ↦ cc (unscanned, (sampled_lem s k i).4 e)
        | inr e ↦ e
      ]

  -- What the round is for the run: its trip, a rest, or one more counted round.
  turned :
      trip_of s (index f) ≡ false
      → (trip_of (round s k i).0 (index f) ≡ true → IsBad f s k i × (49 ≤ deb_of s (index f)))
        × (trip_of (round s k i).0 (index f) ≡ false
            → IsQuiet f s
            → (deb_of (round s k i).0 (index f) ≡ 0)
              ⊎ (IsBad f s k i × (deb_of (round s k i).0 (index f) ≡ deb_of s (index f) + 1)))
  turned before =
      let (due, rest) = turn_due _ _ _ _ _ _ _ before (deb_is s k i f z) (trip_is s k i f z) in
      let crit = (finding_of-Critical f (sampled s k i).0).0 in
      (
        λ h. let (scanned, c, n) = due h in ((scanned, crit c), n),
        λ h q. elim (rest h) [
          | inl none_yet ↦ inl none_yet
          | inr (inl (scanned, c, e)) ↦ inr ((scanned, crit c), e)
          | inr (inr (_, unscanned, e)) ↦
              inl (round-IsQuiet q ((round-Turn s k i f z).scan_is ∙ unscanned))
        ],
      )

  later : (is : List Inputs) → BadStretch f (round s k i).0 k is → BadStretch f s k (i ∷ is)
  unfolding rounds
  later is (pre, mid, post, e, l, b) = (i ∷ pre, mid, post, ap (λ t. i ∷ t) e, l, b)

  afresh :
      (is : List Inputs)
      → deb_of (round s k i).0 (index f) ≡ 0
      → Begun f (deb_of (round s k i).0 (index f)) (round s k i).0 k is
      → BadStretch f s k (i ∷ is)
  unfolding rounds
  afresh is none_yet (mid, post, e, l, b) = (i ∷ [], mid, post, ap (λ t. i ∷ t) e, omega arith, b)

  one_more :
      (is : List Inputs)
      → IsBad f s k i
      → deb_of (round s k i).0 (index f) ≡ deb_of s (index f) + 1
      → Begun f (deb_of (round s k i).0 (index f)) (round s k i).0 k is
      → Begun f (deb_of s (index f)) s k (i ∷ is)
  one_more is bad more (mid, post, e, l, b) =
      (i ∷ mid, post, ap (λ t. i ∷ t) e, omega arith, (bad, b))

onset :
    (s : Bms) (k : Scale) (is : List Inputs) (f : Fam)
    → IsSized s
    → IsQuiet f s
    → trip_of s (index f) ≡ false
    → trip_of (rounds s k is) (index f) ≡ true
    → Begun f (deb_of s (index f)) s k is ⊎ BadStretch f s k is
unfolding rounds
onset s k [] f z q before after = cc
onset s k (i ∷ is) f z q before after =
    let s' = (round s k i).0 in
    let (due, rest) = turned s k i f z before in
    elim (Bool-cases (trip_of s' (index f))) [
      | inl now ↦ (let (bad, n) = due now in inl (i ∷ [], is, refl, omega arith, (bad, tt)))
      | inr not_yet ↦
          elim (onset s' k is f (round-Turn s k i f z).sized (round-IsQuiet s k i f z q) not_yet
            after) [
              | inr found ↦ inr (later s k i f z is found)
              | inl begun ↦ elim (rest not_yet q) [
                | inl none_yet ↦ inr (afresh s k i f z is none_yet begun)
                | inr (bad, more) ↦ inl (one_more s k i f z is bad more begun)
              ]
            ]
    ]

-- A family that has counted nothing and trips in a run of rounds was critical in 50 rounds of it one after the other, each
-- with two whole scans done before it.
pub trip_needs :
    (s : Bms) (k : Scale) (is : List Inputs) (f : Fam)
    → IsSized s
    → trip_of s (index f) ≡ false
    → deb_of s (index f) ≡ 0
    → trip_of (rounds s k is) (index f) ≡ true
    → BadStretch f s k is
unfolding rounds
trip_needs s k is f z before none_yet after = elim (onset s k is f z (λ _. none_yet) before after) [
  | inl (mid, post, e, l, b) ↦ ([], mid, post, e, omega arith, b)
  | inr found ↦ found
]
