-- ===== src/CanTx/Opened.antt =====
-- ps_can.c: the state that `ps_can_open` leaves.
use powersuit.Base.{
  ℕ, zero, suc, ◌+◌, ◌≤◌, ◌≡◌, refl, sym, ap, subst, ◌∙◌, arith, ◌&&◌, none, some, List, [], ◌∷◌,
  ◌++◌, append_assoc, append-nil, length, length-append, ltb, leb, if◌then◌else◌,
}
use powersuit.Base.Queue.{Ops, Laws}
use powersuit.Txq
use powersuit.Txq.Refine.{init-IsValid}
use powersuit.CanTx.{prime, opened}
use powersuit.CanTx.Weight.{weigh, waiting, waiting-none}
use powersuit.CanTx.Slots.{total, IsSound}
use powersuit.CanTx.Pending.{one}

abbrev upto : ℕ → ℕ → List ℕ
upto zero i = []
upto (suc n) i = i ∷ upto n (i + 1)

weigh-upto : (n i j : ℕ) → weigh (one j) (upto n i) ≡ (if leb i j && ltb j (i + n) then 1 else 0)
weigh-upto zero i j = ground arith
weigh-upto (suc n) i j = ground (arith, weigh-upto n (i + 1) j)

module _ {Q : Type 0} (k : Ops Q ℕ) (laws : Laws k) where
  view-prime :
      (n i : ℕ) (q : Q)
      → length (laws.view q) + n ≤ laws.capacity q
      → (laws.view (prime k n i q) ≡ laws.view q ++ upto n i)
        × (laws.capacity (prime k n i q) ≡ laws.capacity q)
  unfolding prime
  view-prime zero i q h = (sym (append-nil (laws.view q)), refl)
  view-prime (suc n) i q h =
      let (q', e, view, room) = laws.send_room q i (omega arith) in
      let more : length (laws.view q') ≡ length (laws.view q) + 1 =
        ap length view ∙ length-append (laws.view q) (i ∷ []) in
      let (v, c) = view-prime n (i + 1) q' (omega (arith, more, room, h)) in
      subst
        (λ o.
          let q1 : Q = elim o [ none ↦ q | some p ↦ p ] in
          (laws.view (prime k n (i + 1) q1) ≡ laws.view q ++ upto (suc n) i)
          × (laws.capacity (prime k n (i + 1) q1) ≡ laws.capacity q))
        (sym e)
        (
          v
              ∙ ap (λ l. l ++ upto n (i + 1)) view
              ∙ append_assoc (laws.view q) (i ∷ []) (upto n (i + 1)),
          c ∙ room,
        )

  -- With a new queue for sixteen slots, `ps_can_open` leaves a sound state in which each of the sixteen slots is exactly
  -- once, and no other.
  pub opened-IsSound :
      (q : Q)
      → laws.view q ≡ []
      → laws.capacity q ≡ 16
      → IsSound k laws (opened k q)
        × ((i : ℕ) → total k laws (one i) (opened k q) ≡ (if ltb i 16 then 1 else 0))
  unfolding opened
  opened-IsSound q empty room =
      let (view, cap16) = view-prime 16 0 q (omega (arith, ap length empty, room)) in
      let slots : laws.view (prime k 16 0 q) ≡ upto 16 0 = view ∙ ap (λ l. l ++ upto 16 0) empty in
      let none_wait : (w : ℕ → ℕ) → waiting w Txq.init ≡ 0 =
        λ w. waiting-none w Txq.init init-IsValid.1 in
      (
        record {
          queue = init-IsValid.0;
          room = cap16 ∙ room;
          sixteen = omega (arith, ap (weigh (λ _. 1)) slots, none_wait (λ _. 1));
        },
        λ i. omega (arith, ap (weigh (one i)) slots, none_wait (one i)) ∙ trim i,
      )
    where
      trim : (i : ℕ) → weigh (one i) (upto 16 0) ≡ (if ltb i 16 then 1 else 0)
      trim i = weigh-upto 16 0 i ∙ ground arith
