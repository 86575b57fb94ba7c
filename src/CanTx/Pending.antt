-- ===== src/CanTx/Pending.antt =====
-- ps_can.c: what an accepted frame becomes, and that no later call overwrites it before it is reported sent.
use powersuit.Base.{
  ℕ, ◌+◌, ◌^◌, ◌/◌, ◌≤◌, ◌<◌, ◌≡◌, ◌≢◌, refl, sym, ap, subst, ◌∙◌, arith, inl, inr, ◌⊎◌, Bool, true,
  false, not, ◌&&◌, ◌||◌, Option, none, some, List, [], ◌∷◌, ◌++◌, length, set, get_or-set_ne, ltb,
  ◌==◌, if◌then◌else◌, u32,
}
use powersuit.Base.Queue.{Ops, Laws}
use powersuit.CanId.{CanFrame, id_cls}
use powersuit.Txq
use powersuit.Txq.{Txq}
use powersuit.Txq.Refine.{items, push_refines}
use powersuit.CanTx.{
  Ctx, release_slot, on_tx_done, fill, slot_at, enqueue, Meanwhile, reported, flushed, fed, called,
  meanwhile, waited, send_now, send, Sent, ok, no_mem, invalid_arg, invalid_state, timeout,
}
use powersuit.CanTx.Weight.{weigh, weigh-length, waiting, class-le-waiting, waiting-push}
use powersuit.CanTx.Slots.{free_of, total, IsSound, Conserves, release-Sound, loops_end}

both : {b : Bool} → b ≡ true → b ≡ false → ⊥
both p q = cc

not_mine : (d t : ℕ) → some d ≡ some t → (d == t) ≡ false → ⊥
not_mine d t p q = let e : d ≡ t = cc in ground arith

is_mine : (d t : ℕ) → (d == t) ≡ true → some d ≡ some t
is_mine d t q = let e : d ≡ t = ground arith in ap some e

nothing_done : {t : ℕ} → none ≡ some t → ⊥
nothing_done e = cc

module _ {Q : Type 0} (k : Ops Q ℕ) (laws : Laws k) where
  -- The slot that the driver has becomes free at its report, and no other report counts.
  abbrev pub Freed : Ctx Q → Option ℕ → Ctx Q → Type 0
  Freed c done c' =
      (c.tx_busy ≡ true
        → done ≡ some c.tx_slot
        → (c'.tx_busy ≡ false) × (length (free_of k laws c') ≡ length (free_of k laws c) + 1))
      × ((c.tx_busy ≡ false) ⊎ (done ≢ some c.tx_slot) → c' ≡ c)

  release-idle : (c : Ctx Q) (slot : ℕ) → (release_slot k c slot).tx_busy ≡ c.tx_busy
  unfolding release_slot
  release-idle c slot = refl

  -- In a sound state a report for the slot that the driver has leaves the driver without one and one slot more free, and
  -- any other report changes nothing. The state is sound after it, with every slot as often there as before.
  pub on_tx_done-Sound :
      (c : Ctx Q) (done : Option ℕ) (success : Bool)
      → IsSound k laws c
      → let c' = on_tx_done k c done success in
        IsSound k laws c' × Conserves k laws c c' × Freed c done c'
  unfolding on_tx_done
  on_tx_done-Sound c none success s = (s, λ w. refl, (λ _ d. absurd (nothing_done d), λ _. refl))
  on_tx_done-Sound c (some done) success s = at c.tx_busy (done == c.tx_slot) refl refl
    where
      freed : Ctx Q
      freed = release_slot k (record c { tx_busy = false }) c.tx_slot

      at :
          (busy mine : Bool)
          → c.tx_busy ≡ busy
          → (done == c.tx_slot) ≡ mine
          → let r =
              if busy && mine
              then (if success
                  then record freed { tx_frames = u32 (freed.tx_frames + 1) }
                  else record freed { bus_errors = u32 (freed.bus_errors + 1) })
              else c in
            IsSound k laws r × Conserves k laws c r × Freed c (some done) r
      at false mine e m = (s, λ w. refl, (λ b _. absurd (both b e), λ _. refl))
      at true false e m = (s, λ w. refl, (λ _ d. absurd (not_mine done c.tx_slot d m), λ _. refl))
      at true true e m =
          let (r, same, more) =
            release-Sound k laws {c = c} {c' = record c { tx_busy = false }} c.tx_slot (record {
              queue = s.queue;
              room = s.room;
              less = λ w. omega (arith, ap (λ b. if b then w c.tx_slot else 0) e);
              sixteen = s.sixteen;
            }) in
          reported success r same more
        where
          counts : {A : Type 0} → (c.tx_busy ≡ false) ⊎ (some done ≢ some c.tx_slot) → A
          counts (inl f) = absurd (both e f)
          counts (inr n) = absurd (n (is_mine done c.tx_slot m))

          idle : freed.tx_busy ≡ false
          idle = release-idle (record c { tx_busy = false }) c.tx_slot

          reported :
              (b : Bool)
              → IsSound k laws freed
              → Conserves k laws c freed
              → length (free_of k laws freed) ≡ length (free_of k laws c) + 1
              → let r =
                  if b
                  then record freed { tx_frames = u32 (freed.tx_frames + 1) }
                  else record freed { bus_errors = u32 (freed.bus_errors + 1) } in
                IsSound k laws r × Conserves k laws c r × Freed c (some done) r
          reported true r same more = (
            record { queue = r.queue; room = r.room; sixteen = r.sixteen },
            same,
            (λ _ _. (idle, more), λ h. counts h),
          )
          reported false r same more = (
            record { queue = r.queue; room = r.room; sixteen = r.sixteen },
            same,
            (λ _ _. (idle, more), λ h. counts h),
          )

  -- The frame is the last of its class, in a slot that was free and that is filled with it; the other classes and slots are
  -- as they were.
  pub record Accepted (c : Ctx Q) (f : CanFrame) (slot : ℕ) (c' : Ctx Q) : Type 0 where
    pub was_free : (free : List ℕ) × (free_of k laws c ≡ slot ∷ free)
    pub last : items c'.txq (id_cls f.id) ≡ items c.txq (id_cls f.id) ++ slot ∷ []
    pub classes : (j : ℕ) → j ≢ id_cls f.id → items c'.txq j ≡ items c.txq j
    pub filled : c'.slots ≡ set c.slots slot (fill (slot_at c.slots slot) f)

  id_cls-lt : (id : ℕ) → id_cls id < 8
  unfolding id_cls
  id_cls-lt id = omega arith

  enqueue-Accepted :
      (c : Ctx Q) (slot : ℕ) (q : Q) (free : List ℕ) (f : CanFrame)
      → IsSound k laws c
      → free_of k laws c ≡ slot ∷ free
      → laws.view q ≡ free
      → laws.capacity q ≡ 16
      → let (c', r) = enqueue k (record c { free_slots = q }) slot f in
        IsSound k laws c' × Conserves k laws c c' × (r ≡ ok) × Accepted c f slot c'
  unfolding enqueue
  enqueue-Accepted c slot q free f s first rest room =
      let cls = id_cls f.id in
      let (accepts, _, done, v) = push_refines cls slot s.queue in
      let few : length (items c.txq cls) < 16 = omega (
        arith,
        s.sixteen,
        ap (weigh (λ _. 1)) first,
        class-le-waiting (λ _. 1) c.txq cls (id_cls-lt f.id),
        weigh-length (items c.txq cls),
      ) in
      let accepted : (Txq.push c.txq cls slot).1 ≡ true = accepts ∙ both (id_cls-lt f.id) few in
      let c' : Ctx Q = record c {
        free_slots = q;
        slots = set c.slots slot (fill (slot_at c.slots slot) f);
        txq = (Txq.push c.txq cls slot).0;
      } in
      let same : Conserves k laws c c' = λ w. omega (
        arith,
        waiting-push w s.queue cls slot (id_cls-lt f.id) accepted,
        ap (weigh w) first,
        ap (weigh w) rest,
      ) in
      let (own, others) = done accepted in
      queued _ (Txq.push c.txq cls slot).1 accepted (
        record { queue = v; room = room; sixteen = same (λ _. 1) ∙ s.sixteen },
        same,
        refl,
        record { was_free = (free, first); last = own; classes = others; filled = refl },
      )
    where
      both : {n m : ℕ} → n < 8 → m < 16 → (ltb n 8 && ltb m 16) ≡ true
      both h h' = ground arith

      queued :
          {c' : Ctx Q} (lost : Ctx Q) (b : Bool)
          → b ≡ true
          → IsSound k laws c' × Conserves k laws c c' × (ok ≡ ok) × Accepted c f slot c'
          → let r : Ctx Q × Sent = if b then (c', ok) else (lost, no_mem) in
            IsSound k laws r.0 × Conserves k laws c r.0 × (r.1 ≡ ok) × Accepted c f slot r.0
      queued lost true e h = h
      queued lost false e h = cc

  -- The end of a call: a slot was free and the frame is accepted, or none was and nothing changes but a counter.
  abbrev pub Ended : Ctx Q → CanFrame → Ctx Q × Sent → Type 0
  Ended c f (c', r) =
      ((r ≡ ok) × ((slot : ℕ) × Accepted c f slot c'))
      ⊎ ((r ≡ timeout)
          × (free_of k laws c ≡ [])
          × (c' ≡ record c { tx_timeouts = u32 (c.tx_timeouts + 1) }))

  abbrev EndsSound : Ctx Q → CanFrame → Ctx Q × Sent → Type 0
  EndsSound c f (c', r) = IsSound k laws c' × Conserves k laws c c' × Ended c f (c', r)

  pub send_now-EndsSound :
      (c : Ctx Q) (f : CanFrame) → IsSound k laws c → EndsSound c f (send_now k c f)
  unfolding send_now
  send_now-EndsSound c f s = given (free_of k laws c) refl
    where
      taken : Option (ℕ × Q) → Ctx Q × Sent
      taken o = elim o [
        | none ↦ (record c { tx_timeouts = u32 (c.tx_timeouts + 1) }, timeout)
        | some (slot, q) ↦ enqueue k (record c { free_slots = q }) slot f
      ]

      given :
          (free : List ℕ) → free_of k laws c ≡ free → EndsSound c f (taken (k.receive c.free_slots))
      given [] e =
          subst (λ o. EndsSound c f (taken o)) (sym (laws.receive_empty c.free_slots e))
            (
              record { queue = s.queue; room = s.room; sixteen = s.sixteen },
              λ w. refl,
              inr (refl, e, refl),
            )
      given (slot ∷ free) e =
          let (q, got, view, room) = laws.receive_first c.free_slots e in
          let (s', same, done, acc) = enqueue-Accepted c slot q free f s e view (room ∙ s.room) in
          subst (λ o. EndsSound c f (taken o)) (sym got) (s', same, inl (done, (slot, acc)))

  meanwhile-Sound :
      (c : Ctx Q) (m : Meanwhile)
      → IsSound k laws c
      → IsSound k laws (meanwhile k c m) × Conserves k laws c (meanwhile k c m)
  unfolding meanwhile
  meanwhile-Sound c (reported done success) s =
      let (s', same, _) = on_tx_done-Sound c done success s in (s', same)
  meanwhile-Sound c flushed s =
      let (c', e, s', same, _, _) = (loops_end k laws (λ n. true) c s).0 in
      rw (meanwhile, e) (s', same)
  meanwhile-Sound c (fed accepts) s =
      let (c', slot, e, s', same, _) = (loops_end k laws accepts c s).1 in
      rw (meanwhile, e) (s', same)
  meanwhile-Sound c (called f) s = let (s', same, _) = send_now-EndsSound c f s in (s', same)

  -- No slot is free, at the start and after each thing that other tasks do.
  abbrev pub NeverFree : Ctx Q → List Meanwhile → Type 0
  NeverFree c [] = free_of k laws c ≡ []
  NeverFree c (m ∷ ms) = (free_of k laws c ≡ []) × NeverFree (meanwhile k c m) ms

  waited-Sound :
      (c : Ctx Q) (ms : List Meanwhile)
      → IsSound k laws c
      → IsSound k laws (waited k c ms)
        × Conserves k laws c (waited k c ms)
        × (free_of k laws (waited k c ms) ≡ [] → NeverFree c ms)
  unfolding waited
  waited-Sound c [] s = (s, λ w. refl, λ e. e)
  waited-Sound c (m ∷ ms) s =
      let next = meanwhile-Sound c m s in
      at (waited-Sound (meanwhile k c m) ms next.0) (free_of k laws c) refl
    where
      Kept : Ctx Q → Type 0
      Kept c' =
          IsSound k laws c'
          × Conserves k laws c c'
          × (free_of k laws c' ≡ [] → NeverFree c (m ∷ ms))

      going : Option (ℕ × Q) → Ctx Q
      going o = elim o [ none ↦ waited k (meanwhile k c m) ms | some r ↦ c ]

      Next : Type 0
      Next =
          let c2 = waited k (meanwhile k c m) ms in
          IsSound k laws c2
          × Conserves k laws (meanwhile k c m) c2
          × (free_of k laws c2 ≡ [] → NeverFree (meanwhile k c m) ms)

      at : Next → (free : List ℕ) → free_of k laws c ≡ free → Kept (going (k.receive c.free_slots))
      at (s2, same2, never) [] e =
          let (s1, same1) = meanwhile-Sound c m s in
          subst (λ o. Kept (going o)) (sym (laws.receive_empty c.free_slots e))
            (s2, λ w. same2 w ∙ same1 w, λ q. (e, never q))
      at n (slot ∷ free) e =
          let (q, got, _, _) = laws.receive_first c.free_slots e in
          subst (λ o. Kept (going o)) (sym got) (s, λ w. refl, λ z. let full = e in cc)

  -- A valid frame has at most eight bytes and a 29-bit identifier.
  abbrev pub IsFrame : CanFrame → Type 0
  IsFrame f = (f.dlc ≤ 8) × (f.id < 2 ^ 29)

  -- What becomes of a call with these answers, `c1` being the state at the end of its wait.
  abbrev pub Answered : Ctx Q → Bool → CanFrame → List Meanwhile → Ctx Q × Sent → Type 0
  Answered c off f ms (c', r) =
      let c1 = waited k c ms in
      IsSound k laws c'
      × Conserves k laws c c'
      × (((r ≡ ok) × IsFrame f × (off ≡ false) × ((slot : ℕ) × Accepted c1 f slot c'))
          ⊎ (((r ≡ timeout)
                × IsFrame f
                × (off ≡ false)
                × NeverFree c ms
                × (c' ≡ record c1 { tx_timeouts = u32 (c1.tx_timeouts + 1) }))
              ⊎ (((r ≡ invalid_state) × IsFrame f × (off ≡ true) × (c' ≡ c))
                  ⊎ ((r ≡ invalid_arg) × (¬ IsFrame f) × (c' ≡ c)))))

  pub send-Answered :
      (c : Ctx Q) (off : Bool) (f : CanFrame) (ms : List Meanwhile)
      → IsSound k laws c
      → Answered c off f ms (send k c off f ms)
  unfolding send
  send-Answered c off f ms s = valid (ltb 8 f.dlc || not (f.id / 2 ^ 29 == 0)) off refl refl
    where
      valid :
          (bad o : Bool)
          → (ltb 8 f.dlc || not (f.id / 2 ^ 29 == 0)) ≡ bad
          → off ≡ o
          → Answered c off f ms (
              if bad
              then (c, invalid_arg)
              else if o
              then (c, invalid_state)
              else send_now k (waited k c ms) f)
      valid true o e e' = (s, λ w. refl, inr (inr (inr (refl, λ h. absurd (ground arith), refl))))
      valid false true e e' =
          (s, λ w. refl, inr (inr (inl (refl, (ground arith, ground arith), e', refl))))
      valid false false e e' =
          let (s1, same1, never) = waited-Sound c ms s in
          let (s2, same2, ended) = send_now-EndsSound (waited k c ms) f s1 in
          let frame : IsFrame f = (ground arith, ground arith) in
          (
            s2,
            λ w. same2 w ∙ same1 w,
            elim ended [
              | inl (done, acc) ↦ inl (done, frame, e', acc)
              | inr (late, empty, same) ↦ inr (inl (late, frame, e', never empty, same))
            ],
          )

-- An item that weighs one, and any other nothing.
abbrev pub one : ℕ → ℕ → ℕ
one i j = if j == i then 1 else 0

module _ {Q : Type 0} (k : Ops Q ℕ) (laws : Laws k) where
  -- The slot waits or is with the driver.
  abbrev pub IsPending : Ctx Q → ℕ → Type 0
  IsPending c i = 0 < waiting (one i) c.txq + (if c.tx_busy then one i c.tx_slot else 0)

  -- The driver does not copy a frame: in a sound state where a slot is once and waits or is with the driver, the end of a call
  -- of `ps_can_send` leaves what the slot holds as it is, whatever it is asked to send and whatever it answers.
  pub send-pending :
      (c : Ctx Q) (f : CanFrame) (i : ℕ)
      → IsSound k laws c
      → total k laws (one i) c ≡ 1
      → IsPending c i
      → slot_at (send_now k c f).0.slots i ≡ slot_at c.slots i
  send-pending c f i s once pending =
      let (_, _, ended) = send_now-EndsSound k laws c f s in
      elim ended [
        | inr (_, _, same) ↦ ap (λ (x : Ctx Q). slot_at x.slots i) same
        | inl (_, (slot, acc)) ↦
            (let (free, first) = acc.was_free in
              let other : slot ≢ i = λ q. twice _ _ _ q (ap (weigh (one i)) first) once pending in
              ap (λ l. slot_at l i) acc.filled ∙ get_or-set_ne c.slots _ _ other)
      ]
    where
      twice :
          {slot all : ℕ} (free wait held : ℕ)
          → slot ≡ i
          → all ≡ one i slot + free
          → all + wait + held ≡ 1
          → 0 < wait + held
          → ⊥
      twice free wait held q e o p = ground arith
