-- ===== src/CanTx/Slots.antt =====
-- ps_can.c: no slot is lost, doubled or freed twice, and the loops over the queue come to an end.
use powersuit.Base.{
  ℕ, zero, suc, ◌+◌, ◌<◌, ◌≡◌, refl, sym, ap, subst, ◌∙◌, arith, inl, inr, ◌⊎◌, Bool, true, false,
  Option, none, some, List, [], ◌∷◌, ◌++◌, length, length-append, if◌then◌else◌,
}
use powersuit.Base.Queue.{Ops, Laws}
use powersuit.Txq
use powersuit.Txq.{Txq}
use powersuit.Txq.Refine.{IsValid, items, pop_refines, PopSpec}
use powersuit.CanTx.{
  Ctx, release_slot, give_up, flush_popped, flush_next, tx_flush, take_popped, take_next, feed,
}
use powersuit.CanTx.Weight.{weigh, weigh-append, weigh-length, waiting, waiting-none, waiting-pop}

module _ {Q : Type 0} (k : Ops Q ℕ) (laws : Laws k) where
  abbrev pub free_of : Ctx Q → List ℕ
  free_of c = laws.view c.free_slots

  -- What the slots weigh that are free, waiting or with the driver.
  abbrev pub total : (ℕ → ℕ) → Ctx Q → ℕ
  total w c = weigh w (free_of c) + waiting w c.txq + (if c.tx_busy then w c.tx_slot else 0)

  -- Sixteen slots in all, in a queue that holds as many.
  pub record IsSound (c : Ctx Q) : Type 0 where
    pub queue : IsValid c.txq
    pub room : laws.capacity c.free_slots ≡ 16
    pub sixteen : total (λ _. 1) c ≡ 16

  -- Every slot is as often there as before.
  abbrev pub Conserves : Ctx Q → Ctx Q → Type 0
  Conserves c c' = (w : ℕ → ℕ) → total w c' ≡ total w c

  -- A slot is out of the books: it was taken from a sound state and is in no place.
  pub record HasOut (c : Ctx Q) (slot : ℕ) (c' : Ctx Q) : Type 0 where
    pub queue : IsValid c'.txq
    pub room : laws.capacity c'.free_slots ≡ 16
    pub less : (w : ℕ → ℕ) → total w c' + w slot ≡ total w c
    pub sixteen : total (λ _. 1) c ≡ 16

  -- The slot comes back behind the free ones.
  returned :
      {c c' : Ctx Q} (slot : ℕ) (q : Q)
      → HasOut c slot c'
      → laws.view q ≡ free_of c' ++ slot ∷ []
      → laws.capacity q ≡ 16
      → let r = record c' { free_slots = q } in
        IsSound r × Conserves c r × (length (free_of r) ≡ length (free_of c') + 1)
  returned {c} {c'} slot q h view cap =
      let same : Conserves c (record c' { free_slots = q }) =
        λ w. omega (arith, ap (weigh w) view, weigh-append w (free_of c') (slot ∷ []), h.less w) in
      (
        record { queue = h.queue; room = cap; sixteen = same (λ _. 1) ∙ h.sixteen },
        same,
        omega (arith, ap length view, length-append (free_of c') (slot ∷ [])),
      )

  -- A slot that is out of the books has room in the queue.
  pub release-Sound :
      {c c' : Ctx Q} (slot : ℕ)
      → HasOut c slot c'
      → let r = release_slot k c' slot in
        IsSound r × Conserves c r × (length (free_of r) ≡ length (free_of c') + 1)
  unfolding release_slot
  release-Sound {c} {c'} slot h =
      let short : length (free_of c') < 16 =
        omega (arith, weigh-length (free_of c'), h.less (λ _. 1), h.sixteen) in
      let (q, e, view, cap) = laws.send_room c'.free_slots slot (omega (arith, short, h.room)) in
      taken (k.send c'.free_slots slot) e (returned slot q h view (cap ∙ h.room))
    where
      taken :
          {q : Q} (o : Option Q)
          → o ≡ some q
          → IsSound (record c' { free_slots = q })
            × Conserves c (record c' { free_slots = q })
            × (length (laws.view q) ≡ length (free_of c') + 1)
          → let r = record c' { free_slots = elim o [ none ↦ c'.free_slots | some p ↦ p ] } in
            IsSound r × Conserves c r × (length (free_of r) ≡ length (free_of c') + 1)
      taken none e p = absurd (none-ne e)
        where
          none-ne : {q : Q} → none ≡ some q → ⊥
          none-ne e = cc
      taken (some x) e p =
          subst
            (λ v.
              let r = record c' { free_slots = v } in
              IsSound r × Conserves c r × (length (free_of r) ≡ length (free_of c') + 1))
            (sym (same e)) p
        where
          same : {x q : Q} → some x ≡ some q → x ≡ q
          same e = cc

  pub give_up-Sound :
      {c c' : Ctx Q} (slot : ℕ)
      → HasOut c slot c'
      → let r = give_up k c' slot in
        IsSound r × Conserves c r × (length (free_of r) ≡ length (free_of c') + 1)
  unfolding give_up
  give_up-Sound slot h =
      let (s, same, more) = release-Sound slot h in
      (record { queue = s.queue; room = s.room; sixteen = s.sixteen }, same, more)

  -- Nothing waits and nothing is with the driver.
  abbrev pub IsIdle : Ctx Q → Type 0
  IsIdle c = (c.tx_busy ≡ false) × ((j : ℕ) → j < 8 → items c.txq j ≡ [])

  abbrev Flushed : Ctx Q → Ctx Q × Option ℕ → Type 0
  Flushed c (c', some slot) = HasOut c slot c' × (c'.free_slots ≡ c.free_slots)
  Flushed c (c', none) = IsSound c' × Conserves c c' × IsIdle c'

  flush_next-Flushed : (c : Ctx Q) → IsSound c → Flushed c (flush_next k c)
  unfolding flush_next flush_popped
  flush_next-Flushed c s = at (Txq.pop c.txq) (pop_refines s.queue)
    where
      none_waits :
          (q : Txq) (busy : Bool)
          → c.tx_busy ≡ busy
          → PopSpec c.txq (q, none)
          → Flushed c (
              if busy
              then (record c { txq = q; tx_busy = false }, some c.tx_slot)
              else (record c { txq = q }, none))
      none_waits q true e (same, empty) = (
        record {
          queue = subst IsValid (sym same) s.queue;
          room = s.room;
          less = λ w. omega (arith, ap (waiting w) same, ap (λ b. if b then w c.tx_slot else 0) e);
          sixteen = s.sixteen;
        },
        refl,
      )
      none_waits q false e (same, empty) =
          let conserved : Conserves c (record c { txq = q }) =
            λ w. omega (arith, ap (waiting w) same) in
          (
            record {
              queue = subst IsValid (sym same) s.queue;
              room = s.room;
              sixteen = conserved (λ _. 1) ∙ s.sixteen;
            },
            conserved,
            (e, λ j h. ap (λ t. items t j) same ∙ empty j h),
          )

      at : (out : Txq × Option ℕ) → PopSpec c.txq out → Flushed c (flush_popped k c out)
      at (q, some slot) p = (
        record {
          queue = p.1;
          room = s.room;
          less = λ w. omega (arith, waiting-pop w s.queue (q, some slot) p refl);
          sixteen = s.sixteen;
        },
        refl,
      )
      at (q, none) p = none_waits q c.tx_busy refl p

  abbrev Drains : ℕ → Ctx Q → Type 0
  Drains n c = (c' : Ctx Q) × (tx_flush k n c ≡ some c') × IsSound c' × Conserves c c' × IsIdle c'

  -- A round less of fuel, and a free slot more.
  drained : (n : ℕ) (c : Ctx Q) → IsSound c → 16 < n + length (free_of c) → Drains n c
  unfolding tx_flush
  drained zero c s enough = absurd (omega (arith, s.sixteen, weigh-length (free_of c), enough))
  drained (suc n) c s enough =
      at (flush_next k c) (flush_next-Flushed c s) (λ c1 s1 more. drained n c1 s1 more)
    where
      at :
          (r : Ctx Q × Option ℕ)
          → Flushed c r
          → ((c1 : Ctx Q) → IsSound c1 → 16 < n + length (free_of c1) → Drains n c1)
          → (c' : Ctx Q) × (elim r.1 [
            | none ↦ some r.0
            | some slot ↦ tx_flush k n (give_up k r.0 slot)
          ]
              ≡ some c')
            × IsSound c'
            × Conserves c c'
            × IsIdle c'
      at (c1, none) (s1, same, idle) rest = (c1, refl, s1, same, idle)
      at (c1, some slot) (out, free) rest =
          let (s1, same, more) = give_up-Sound slot out in
          let (c', e, s', same', idle) =
            rest (give_up k c1 slot) s1
              (omega (arith, more, enough, ap (λ q. length (laws.view q)) free)) in
          (c', e, s', λ w. same' w ∙ same w, idle)

  abbrev pub Taken : Ctx Q → Ctx Q × Option ℕ → Type 0
  Taken c (c', some slot) =
      IsSound c'
      × Conserves c c'
      × ((c'.tx_busy ≡ true) × (c'.tx_slot ≡ slot))
      × (c'.free_slots ≡ c.free_slots)
  Taken c (c', none) = IsSound c' × Conserves c c' × ((c'.tx_busy ≡ true) ⊎ IsIdle c')

  pub take_next-Taken : (c : Ctx Q) → IsSound c → Taken c (take_next k c)
  unfolding take_next take_popped
  take_next-Taken c s = when c.tx_busy refl
    where
      popped :
          c.tx_busy ≡ false
          → (out : Txq × Option ℕ) → PopSpec c.txq out
          → Taken c (take_popped k c out)
      popped e (q, some slot) p =
          let conserved : Conserves c (record c { txq = q; tx_busy = true; tx_slot = slot }) = λ w.
            omega (
              arith,
              waiting-pop w s.queue (q, some slot) p refl,
              ap (λ b. if b then w c.tx_slot else 0) e,
            ) in
          (
            record { queue = p.1; room = s.room; sixteen = conserved (λ _. 1) ∙ s.sixteen },
            conserved,
            (refl, refl),
            refl,
          )
      popped e (q, none) (same, empty) =
          let conserved : Conserves c (record c { txq = q }) =
            λ w. omega (arith, ap (waiting w) same) in
          (
            record {
              queue = subst IsValid (sym same) s.queue;
              room = s.room;
              sixteen = conserved (λ _. 1) ∙ s.sixteen;
            },
            conserved,
            inr (e, λ j h. ap (λ t. items t j) same ∙ empty j h),
          )

      when :
          (busy : Bool)
          → c.tx_busy ≡ busy
          → Taken c (if busy then (c, none) else take_popped k c (Txq.pop c.txq))
      when true e = (s, λ w. refl, inl e)
      when false e = popped e (Txq.pop c.txq) (pop_refines s.queue)

  -- The driver refuses the slot that it was given.
  refused :
      {c' : Ctx Q} (slot : ℕ)
      → IsSound c'
      → c'.tx_busy ≡ true
      → c'.tx_slot ≡ slot
      → HasOut c' slot (record c' { tx_busy = false })
  refused {c'} slot s e f = record {
    queue = s.queue;
    room = s.room;
    less = λ w. omega (arith, ap (λ b. if b then w c'.tx_slot else 0) e, ap w f);
    sixteen = s.sixteen;
  }

  -- What the driver has at the end: the slot that it took; else the one that it had, or nothing is left.
  abbrev pub Fed : Ctx Q → Option ℕ → Type 0
  Fed c (some slot) = (c.tx_busy ≡ true) × (c.tx_slot ≡ slot)
  Fed c none = (c.tx_busy ≡ true) ⊎ IsIdle c

  abbrev Feeds : ℕ → (ℕ → Bool) → Ctx Q → Type 0
  Feeds n accepts c =
      (c' : Ctx Q) × (slot : Option ℕ) × (feed k n accepts c ≡ some (c', slot))
      × IsSound c'
      × Conserves c c'
      × Fed c' slot

  fed :
      (n : ℕ) (accepts : ℕ → Bool) (c : Ctx Q)
      → IsSound c
      → 16 < n + length (free_of c)
      → Feeds n accepts c
  unfolding feed
  fed zero accepts c s enough = absurd (omega (arith, s.sixteen, weigh-length (free_of c), enough))
  fed (suc n) accepts c s enough =
      at (take_next k c) (take_next-Taken c s) (accepts n) (λ c1 s1 more. fed n accepts c1 s1 more)
    where
      at :
          (r : Ctx Q × Option ℕ)
          → Taken c r
          → (yes_now : Bool)
          → ((c1 : Ctx Q) → IsSound c1 → 16 < n + length (free_of c1) → Feeds n accepts c1)
          → (c' : Ctx Q) × (o : Option ℕ) × (◌≡◌ {A = Option (Ctx Q × Option ℕ)}
              (elim r.1 [
                | none ↦ some (r.0, none)
                | some slot ↦
                    let rest : Option (Ctx Q × Option ℕ) =
                      feed k n accepts (give_up k (record r.0 { tx_busy = false }) slot) in
                    if yes_now then some (r.0, some slot) else rest
              ])
              (some (c', o)))
            × IsSound c'
            × Conserves c c'
            × Fed c' o
      at (c1, none) (s1, same, idle) b rest = (c1, none, refl, s1, same, idle)
      at (c1, some slot) (s1, same, busy, free) true rest = (c1, some slot, refl, s1, same, busy)
      at (c1, some slot) (s1, same, busy, free) false rest =
          let (s2, same2, more) = give_up-Sound slot (refused {c' = c1} slot s1 busy.0 busy.1) in
          let (c', o, e, s', same', r) =
            rest (give_up k (record c1 { tx_busy = false }) slot) s2
              (omega (arith, more, enough, ap (λ q. length (laws.view q)) free)) in
          (c', o, e, s', λ w. same' w ∙ same2 w ∙ same w, r)

  -- From a sound state, with seventeen rounds at most, the flush at bus-off ends: every slot is free again and none waits or
  -- is with the driver. The transmit task's loop ends as well, whatever the driver answers: it leaves a slot
  -- with the driver, or nothing waiting. Both leave a sound state with every slot as often there as before.
  pub loops_end :
      (accepts : ℕ → Bool) (c : Ctx Q)
      → IsSound c
      → ((c' : Ctx Q) × (tx_flush k 17 c ≡ some c')
          × IsSound c'
          × Conserves c c'
          × IsIdle c'
          × (length (free_of c') ≡ 16))
        × ((c' : Ctx Q) × (slot : Option ℕ) × (feed k 17 accepts c ≡ some (c', slot))
            × IsSound c'
            × Conserves c c'
            × Fed c' slot)
  loops_end accepts c s =
      let (c', e, s', same, idle) = drained 17 c s (omega arith) in
      (
        (
          c',
          e,
          s',
          same,
          idle,
          omega (
            arith,
            s'.sixteen,
            weigh-length (free_of c'),
            waiting-none (λ _. 1) c'.txq idle.1,
            ap {B = ℕ} (λ (b : Bool). if b then 1 else 0) idle.0,
          ),
        ),
        fed 17 accepts c s (omega arith),
      )
