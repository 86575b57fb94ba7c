-- ===== src/Examples/TxCases.antt =====
-- The driver glue of a node: a frame on its way, the next one, the report, and the bus lost.
use powersuit.Base.{
  ℕ, zero, suc, ◌≡◌, refl, true, false, Option, none, some, List, [], ◌∷◌, length, ltb,
}
use powersuit.CanId.{CanFrame, id_cls}
use powersuit.Txq.{push, pop, init}
use powersuit.CanTx.{
  Ctx, send, send_now, waited, Meanwhile, called, flushed, ok, opened, on_tx_done, tx_flush,
  take_next, feed,
}
use powersuit.CanTx.Slots.{
  IsSound, Conserves, IsIdle, Fed, loops_end, free_of, Taken, take_next-Taken,
}
use powersuit.CanTx.Pending.{Freed, Answered, send-Answered, on_tx_done-Sound}
use powersuit.CanTx.Opened.{opened-IsSound}
use powersuit.Examples.Bounded.{Bounded, bounded, bounded_laws, first_of}

abbrev empty : Bounded ℕ
empty = (16, [])

abbrev fresh : Ctx (Bounded ℕ)
fresh = opened (bounded ℕ) empty

fresh-IsSound : IsSound (bounded ℕ) (bounded_laws ℕ) fresh
fresh-IsSound = (opened-IsSound (bounded ℕ) (bounded_laws ℕ) empty refl refl).0

abbrev first : CanFrame
first = record { id = 0x00200100; dlc = 8; payload = 9 ∷ 0 ∷ 0 ∷ 2 ∷ 0 ∷ 0 ∷ 0 ∷ 0 ∷ [] }

-- The context after `n` calls.
abbrev calls : ℕ → Ctx (Bounded ℕ) → Ctx (Bounded ℕ)
calls zero c = c
calls (suc n) c = calls n (send_now (bounded ℕ) c first).0

-- All slots wait to be sent.
abbrev full : Ctx (Bounded ℕ)
full = calls 16 fresh

none_free : full.free_slots.1 ≡ []
unfolding send_now opened first_of push id_cls init
none_free = refl

-- A call that finds no slot free, in whose time a frame of another task is refused and the bus is flushed.
abbrev while_it_waits : List Meanwhile
while_it_waits = called first ∷ flushed ∷ []

freed_in_time : (send (bounded ℕ) full false first while_it_waits).1 ≡ ok
unfolding send send_now waited opened first_of push id_cls init tx_flush pop
freed_in_time = refl

-- The first slot waits.
abbrev queued : Ctx (Bounded ℕ)
queued = (send (bounded ℕ) fresh false first []).0

answered :
    Answered
      (bounded ℕ)
      (bounded_laws ℕ)
      fresh
      false
      first
      []
      (send (bounded ℕ) fresh false first [])
answered = send-Answered (bounded ℕ) (bounded_laws ℕ) fresh false first [] fresh-IsSound

queued-IsSound : IsSound (bounded ℕ) (bounded_laws ℕ) queued
queued-IsSound = answered.0

loops_end_example :
    ((c' : Ctx (Bounded ℕ)) × (tx_flush (bounded ℕ) 17 queued ≡ some c')
      × IsSound (bounded ℕ) (bounded_laws ℕ) c'
      × Conserves (bounded ℕ) (bounded_laws ℕ) queued c'
      × IsIdle (bounded ℕ) (bounded_laws ℕ) c'
      × (length (free_of (bounded ℕ) (bounded_laws ℕ) c') ≡ 16))
    × ((c' : Ctx (Bounded ℕ)) × (slot : Option ℕ) × (feed (bounded ℕ) 17 (λ n. ltb n 16) queued
          ≡ some (c', slot))
        × IsSound (bounded ℕ) (bounded_laws ℕ) c'
        × Conserves (bounded ℕ) (bounded_laws ℕ) queued c'
        × Fed (bounded ℕ) (bounded_laws ℕ) c' slot)
loops_end_example = loops_end (bounded ℕ) (bounded_laws ℕ) (λ n. ltb n 16) queued queued-IsSound

-- The first slot is with the driver.
abbrev sending : Ctx (Bounded ℕ)
sending = (take_next (bounded ℕ) queued).0

taken : (take_next (bounded ℕ) queued).1 ≡ some 0
unfolding take_next send send_now waited opened first_of push id_cls init pop
taken = refl

sending-IsSound : IsSound (bounded ℕ) (bounded_laws ℕ) sending
sending-IsSound =
    of_slot (take_next (bounded ℕ) queued) taken
      (take_next-Taken (bounded ℕ) (bounded_laws ℕ) queued queued-IsSound)
  where
    of_slot :
        (r : Ctx (Bounded ℕ) × Option ℕ)
        → r.1 ≡ some 0
        → Taken (bounded ℕ) (bounded_laws ℕ) queued r
        → IsSound (bounded ℕ) (bounded_laws ℕ) r.0
    of_slot (c, none) e t = t.0
    of_slot (c, some slot) e t = t.0

on_tx_done-Sound_example :
    IsSound (bounded ℕ) (bounded_laws ℕ) (on_tx_done (bounded ℕ) sending (some 0) true)
    × Conserves (bounded ℕ) (bounded_laws ℕ) sending (on_tx_done (bounded ℕ) sending (some 0) true)
    × Freed
        (bounded ℕ)
        (bounded_laws ℕ)
        sending
        (some 0)
        (on_tx_done (bounded ℕ) sending (some 0) true)
on_tx_done-Sound_example =
    on_tx_done-Sound (bounded ℕ) (bounded_laws ℕ) sending (some 0) true sending-IsSound
