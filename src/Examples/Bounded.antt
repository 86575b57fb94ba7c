-- ===== src/Examples/Bounded.antt =====
-- A queue of the real-time kernel that holds what is promised of it: a list with its capacity.
use powersuit.Base.{
  ℕ, ◌≤◌, ◌<◌, ◌≡◌, refl, arith, true, false, Option, none, some, List, [], ◌∷◌, ◌++◌, length, ltb,
  if◌then◌else◌,
}
use powersuit.Base.Queue.{Ops, Laws}

module _ (A : Type 0) where
  abbrev pub Bounded : Type 0
  Bounded = ℕ × List A

  unfoldable pub first_of : List A → ℕ → Option (A × Bounded)
  first_of [] cap = none
  first_of (x ∷ xs) cap = some (x, (cap, xs))

  abbrev pub bounded : Ops Bounded A
  bounded = record {
    send = λ q x. if ltb (length q.1) q.0 then some (q.0, q.1 ++ x ∷ []) else none;
    receive = λ q. first_of q.1 q.0;
    waiting = λ q. length q.1;
  }

  pub bounded_full : (q : Bounded) (x : A) → q.0 ≤ length q.1 → bounded.send q x ≡ none
  bounded_full q x h = let full : ltb (length q.1) q.0 ≡ false = ground arith in rw full refl

  pub bounded_room :
      (q : Bounded) (x : A)
      → length q.1 < q.0
      → (q' : Bounded) × (bounded.send q x ≡ some q') × (q'.1 ≡ q.1 ++ x ∷ []) × (q'.0 ≡ q.0)
  bounded_room q x h =
      let room : ltb (length q.1) q.0 ≡ true = ground arith in
      ((q.0, q.1 ++ x ∷ []), rw room refl, refl, refl)

  pub bounded_empty : (q : Bounded) → q.1 ≡ [] → first_of q.1 q.0 ≡ none
  unfolding first_of
  bounded_empty q e = rw e refl

  pub bounded_first :
      (q : Bounded) {x : A} {xs : List A}
      → q.1 ≡ x ∷ xs
      → (q' : Bounded) × (first_of q.1 q.0 ≡ some (x, q')) × (q'.1 ≡ xs) × (q'.0 ≡ q.0)
  unfolding first_of
  bounded_first q {x} {xs} e = ((q.0, xs), rw e refl, refl, refl)

  abbrev pub bounded_laws : Laws bounded
  bounded_laws = record {
    view = λ q. q.1;
    capacity = λ q. q.0;
    send_full = bounded_full;
    send_room = bounded_room;
    receive_empty = bounded_empty;
    receive_first = bounded_first;
    waiting_view = λ q. refl;
  }
