-- ===== src/Bms/Debounce.antt =====
-- bms_task.c: the debounce over runs of the task's rounds.
use powersuit.Base.{
  ℕ, ◌+◌, ◌≤◌, ◌<◌, ◌≡◌, ap, ap₂, ◌∙◌, arith, Bool-cases, Bool, true, false, ◌||◌, inl, inr, ◌⊎◌,
  List, [], ◌∷◌, length, leb, get_or, if◌then◌else◌,
}
use powersuit.Bms.{Bms}
use powersuit.Bms.Trip.{next_deb}
use powersuit.Bms.Sense.{Scale}
use powersuit.Bms.Task.{Inputs, sampled, round}
use powersuit.Bms.Family.{deb_of, trip_of, IsSized}
use powersuit.Bms.Critical.{Fam, index, finding_of, Critical, finding_of-Critical}
use powersuit.Bms.Interlock.{MayRearm, rearms-MayRearm}
use powersuit.Bms.Rounds.{rearms, round-Turn, sampled_lem}

-- The state after rounds of the task.
unfoldable pub rounds : Bms → Scale → List Inputs → Bms
rounds s k [] = s
rounds s k (i ∷ is) = rounds (round s k i).0 k is

-- In the round's samples the family is critical, once two whole scans are done.
abbrev pub IsBad : Fam → Bms → Scale → Inputs → Type 0
IsBad f s k i = ((sampled s k i).0.full_scan_done ≡ true) × Critical f (sampled s k i).0

-- So in each of these rounds.
abbrev pub AllBad : Fam → Bms → Scale → List Inputs → Type 0
AllBad f s k [] = Unit {0}
AllBad f s k (i ∷ is) = IsBad f s k i × AllBad f (round s k i).0 k is

-- None of these rounds can clear the latches.
abbrev pub NeverRearms : Bms → Scale → List Inputs → Type 0
NeverRearms s k [] = Unit {0}
NeverRearms s k (i ∷ is) = (¬ (MayRearm s i)) × NeverRearms (round s k i).0 k is

-- One turn of a family, from its counter and its latch: critical or not.
abbrev pub deb_turn : Bool → Bool → Bool → ℕ → ℕ
deb_turn cleared scanned crit n = if cleared then 0 else if scanned then next_deb n crit else n

abbrev pub trip_turn : Bool → Bool → Bool → Bool → ℕ → Bool
trip_turn cleared scanned crit was n =
    if cleared then false else if scanned then (was || leb 50 (next_deb n crit)) else was

turn_bad :
    (cleared scanned crit was now : Bool) (n n' : ℕ)
    → cleared ≡ false
    → scanned ≡ true
    → crit ≡ true
    → n' ≡ deb_turn cleared scanned crit n
    → now ≡ trip_turn cleared scanned crit was n
    → (now ≡ true) ⊎ ((was ≡ false) × (n' ≡ n + 1) × (n' < 50))
turn_bad cleared scanned crit was now n n' h1 h2 h3 e f = ground arith

pub turn_due :
    (cleared scanned crit was now : Bool) (n n' : ℕ)
    → was ≡ false
    → n' ≡ deb_turn cleared scanned crit n
    → now ≡ trip_turn cleared scanned crit was n
    → (now ≡ true → (scanned ≡ true) × (crit ≡ true) × (49 ≤ n))
      × (now ≡ false
          → (n' ≡ 0)
            ⊎ ((scanned ≡ true) × (crit ≡ true) × (n' ≡ n + 1))
            ⊎ ((cleared ≡ false) × (scanned ≡ false) × (n' ≡ n)))
turn_due cleared scanned crit was now n n' h e f = (λ g. due g, λ g. quiet g)
  where
    due : now ≡ true → (scanned ≡ true) × (crit ≡ true) × (49 ≤ n)
    due g = ground arith

    quiet :
        now ≡ false
        → (n' ≡ 0)
          ⊎ ((scanned ≡ true) × (crit ≡ true) × (n' ≡ n + 1))
          ⊎ ((cleared ≡ false) × (scanned ≡ false) × (n' ≡ n))
    quiet g = ground arith

module _ (s : Bms) (k : Scale) (i : Inputs) (f : Fam) (z : IsSized s) where
  abbrev pub sensed : Bms
  sensed = (sampled s k i).0

  pub deb_is :
      deb_of (round s k i).0 (index f)
      ≡ deb_turn
          (rearms sensed i.pins)
          sensed.full_scan_done
          (finding_of f sensed).crit
          (deb_of s (index f))
  deb_is =
      (round-Turn s k i f z).deb_is
      ∙ ap (deb_turn (rearms sensed i.pins) sensed.full_scan_done (finding_of f sensed).crit)
          (ap (λ l. get_or l (index f) 0) (sampled_lem s k i).0)

  pub trip_is :
      trip_of (round s k i).0 (index f)
      ≡ trip_turn
          (rearms sensed i.pins)
          sensed.full_scan_done
          (finding_of f sensed).crit
          (trip_of s (index f))
          (deb_of s (index f))
  trip_is =
      (round-Turn s k i f z).trip_is
      ∙ ap₂ (trip_turn (rearms sensed i.pins) sensed.full_scan_done (finding_of f sensed).crit)
          (ap (λ l. get_or l (index f) false) (sampled_lem s k i).1)
          (ap (λ l. get_or l (index f) 0) (sampled_lem s k i).0)

  not_cleared : ¬ (MayRearm s i) → rearms sensed i.pins ≡ false
  not_cleared h = elim (Bool-cases (rearms sensed i.pins)) [
    | inl e ↦ absurd (h ((rearms-MayRearm s k i).0 e))
    | inr e ↦ e
  ]

  bad_round :
      IsBad f s k i
      → ¬ (MayRearm s i)
      → (trip_of (round s k i).0 (index f) ≡ true)
        ⊎ ((trip_of s (index f) ≡ false)
            × (deb_of (round s k i).0 (index f) ≡ deb_of s (index f) + 1)
            × (deb_of (round s k i).0 (index f) < 50))
  bad_round (scanned, crit) keeps =
      turn_bad _ _ _ _ _ _ _ (not_cleared keeps) scanned ((finding_of-Critical f sensed).1 crit)
        deb_is trip_is

-- From a family that is tripped, or that has counted some of the 50 rounds.
sustained_from :
    (s : Bms) (k : Scale) (is : List Inputs) (f : Fam)
    → IsSized s
    → AllBad f s k is
    → NeverRearms s k is
    → (trip_of s (index f) ≡ true)
      ⊎ ((deb_of s (index f) < 50) × (50 ≤ deb_of s (index f) + length is))
    → trip_of (rounds s k is) (index f) ≡ true
unfolding rounds
sustained_from s k [] f z bad never (inl h) = h
sustained_from s k [] f z bad never (inr (h, h')) = absurd (omega arith)
sustained_from s k (i ∷ is) f z (b, bad) (keeps, never) h =
    sustained_from (round s k i).0 k is f (round-Turn s k i f z).sized bad never
      (next h (bad_round s k i f z b keeps))
  where
    next :
        {was now : Bool} {n n' : ℕ}
        → (was ≡ true) ⊎ ((n < 50) × (50 ≤ n + length (i ∷ is)))
        → (now ≡ true) ⊎ ((was ≡ false) × (n' ≡ n + 1) × (n' < 50))
        → (now ≡ true) ⊎ ((n' < 50) × (50 ≤ n' + length is))
    next h (inl e) = inl e
    next (inl e) (inr (e', _, _)) = absurd (no_both e e')
      where
        no_both : {b : Bool} → b ≡ true → b ≡ false → ⊥
        no_both p q = cc
    next (inr (a, b)) (inr (_, e, l)) = inr (l, omega arith)

-- Whatever came before: when a family is critical in 50 rounds one after the other, each with two whole scans done before it and
-- none of which can clear the latches, it is tripped after them.
pub sustained_trips :
    (s : Bms) (k : Scale) (is : List Inputs) (f : Fam)
    → IsSized s
    → AllBad f s k is
    → NeverRearms s k is
    → 50 ≤ length is
    → trip_of (rounds s k is) (index f) ≡ true
unfolding rounds
sustained_trips s k [] f z bad never long = absurd (omega arith)
sustained_trips s k (i ∷ is) f z (b, bad) (keeps, never) long =
    sustained_from (round s k i).0 k is f (round-Turn s k i f z).sized bad never
      (first (deb_of s (index f)) (bad_round s k i f z b keeps))
  where
    first :
        {was now : Bool} (n : ℕ) {n' : ℕ}
        → (now ≡ true) ⊎ ((was ≡ false) × (n' ≡ n + 1) × (n' < 50))
        → (now ≡ true) ⊎ ((n' < 50) × (50 ≤ n' + length is))
    first n (inl e) = inl e
    first n (inr (_, e, l)) = inr (l, omega arith)
