-- ===== src/CanTx.antt =====
-- firmware/components/ps_can/src/ps_can.c: sending. Sixteen slots hold the frames that are accepted and not yet reported
-- sent; a queue of the real-time kernel holds the free ones, ps_can_txq the waiting ones, and at most one is with
-- the driver. The kernel's queue is a parameter, and so is what `twai_node_transmit` answers. The reading of the
-- frame's length code, which the driver's helpers do, is the length itself.
pub mod Weight
pub mod Slots
pub mod Pending
pub mod Opened
use powersuit.Base.{
  ℕ, zero, suc, ◌+◌, ◌-◌, ◌^◌, ◌/◌, Bool, true, false, not, ◌&&◌, ◌||◌, Option, none, some, List,
  [], ◌∷◌, ◌++◌, take, drop, set, get_or, replicate, ltb, leb, ◌==◌, if◌then◌else◌, u32, min,
}
use powersuit.Base.Queue.{Ops}
use powersuit.CanId.{CanFrame, id_cls}
use powersuit.Txq
use powersuit.Txq.{Txq}

-- `PS_CAN_TX_SLOTS`
abbrev pub tx_slots : ℕ
tx_slots = 16

-- `ps_can_tx_slot_t`: the frame's header and the bytes behind it.
pub record Slot : Type 0 where
  pub id : ℕ
  pub buffer_len : ℕ
  pub bytes : List ℕ

-- The fields of `struct ps_can_ctx` that sending uses, with their counters.
pub record Ctx (Q : Type 0) : Type 0 where
  pub free_slots : Q
  pub slots : List Slot
  pub txq : Txq
  pub tx_busy : Bool
  pub tx_slot : ℕ
  pub tx_frames : ℕ
  pub tx_timeouts : ℕ
  pub bus_errors : ℕ

-- What `ps_can_send` answers.
pub data Sent : Type 0 where
  ok : Sent
  invalid_arg : Sent
  invalid_state : Sent
  timeout : Sent
  no_mem : Sent

-- What other tasks do: a frame is reported, the flush at bus-off, a round of the transmit task, and the end of another call of
-- `ps_can_send`.
pub data Meanwhile : Type 0 where
  reported : Option ℕ → Bool → Meanwhile
  flushed : Meanwhile
  fed : (ℕ → Bool) → Meanwhile
  called : CanFrame → Meanwhile

-- The slot is filled with the frame.
unfoldable pub fill : Slot → CanFrame → Slot
fill s f = record {
  id = f.id;
  buffer_len = f.dlc;
  bytes = take f.dlc f.payload ++ drop f.dlc s.bytes;
}

-- An index that is out of range reads an empty slot.
abbrev pub slot_at : List Slot → ℕ → Slot
slot_at slots i = get_or slots i (record { id = 0; buffer_len = 0; bytes = [] })

module _ {Q : Type 0} (k : Ops Q ℕ) where
  -- `release_slot`: a slot that the queue refuses is lost.
  unfoldable pub release_slot : Ctx Q → ℕ → Ctx Q
  release_slot c slot = record c {
    free_slots = elim (k.send c.free_slots slot) [ none ↦ c.free_slots | some q ↦ q ];
  }

  -- `on_tx_done`, with the slot whose frame is reported, `none` for a null pointer.
  unfoldable pub on_tx_done : Ctx Q → Option ℕ → Bool → Ctx Q
  unfolding release_slot
  on_tx_done c none success = c
  on_tx_done c (some done) success =
      if c.tx_busy && done == c.tx_slot
      then (let c1 = release_slot (record c { tx_busy = false }) c.tx_slot in
          if success
          then record c1 { tx_frames = u32 (c1.tx_frames + 1) }
          else record c1 { bus_errors = u32 (c1.bus_errors + 1) })
      else c

  -- A slot is given up: the end of a round of `tx_flush`, and the refusal in `tx_task`.
  unfoldable pub give_up : Ctx Q → ℕ → Ctx Q
  unfolding release_slot
  give_up c slot =
      let c1 = release_slot c slot in record c1 { tx_timeouts = u32 (c1.tx_timeouts + 1) }

  -- What `tx_flush` takes in a round, with the answer of `ps_can_txq_pop`: the next waiting slot, else the one that the
  -- driver has.
  unfoldable pub flush_popped : Ctx Q → Txq × Option ℕ → Ctx Q × Option ℕ
  flush_popped c (q, some slot) = (record c { txq = q }, some slot)
  flush_popped c (q, none) =
      if c.tx_busy
      then (record c { txq = q; tx_busy = false }, some c.tx_slot)
      else (record c { txq = q }, none)

  unfoldable pub flush_next : Ctx Q → Ctx Q × Option ℕ
  unfolding flush_popped
  flush_next c = flush_popped c (Txq.pop c.txq)

  -- `tx_flush`, with fuel; `none` means that it ran out.
  unfoldable pub tx_flush : ℕ → Ctx Q → Option (Ctx Q)
  unfolding give_up flush_next
  tx_flush zero c = none
  tx_flush (suc n) c = elim (flush_next c).1 [
    | none ↦ some (flush_next c).0
    | some slot ↦ tx_flush n (give_up (flush_next c).0 slot)
  ]

  -- What `tx_task` takes under the lock: the next waiting slot, if none is with the driver.
  unfoldable pub take_popped : Ctx Q → Txq × Option ℕ → Ctx Q × Option ℕ
  take_popped c (q, none) = (record c { txq = q }, none)
  take_popped c (q, some slot) = (record c { txq = q; tx_busy = true; tx_slot = slot }, some slot)

  unfoldable pub take_next : Ctx Q → Ctx Q × Option ℕ
  unfolding take_popped
  take_next c = if c.tx_busy then (c, none) else take_popped c (Txq.pop c.txq)

  -- The inner loop of `tx_task`: slots are handed to `twai_node_transmit` until it takes one; `accepts` tells
  -- its answer to each attempt.
  unfoldable pub feed : ℕ → (ℕ → Bool) → Ctx Q → Option (Ctx Q × Option ℕ)
  unfolding give_up take_next
  feed zero accepts c = none
  feed (suc n) accepts c = elim (take_next c).1 [
    | none ↦ some ((take_next c).0, none)
    | some slot ↦
        let rest = feed n accepts (give_up (record (take_next c).0 { tx_busy = false }) slot) in
        if accepts n then some ((take_next c).0, some slot) else rest
  ]

  -- The part of `ps_can_send` behind the slot that it got.
  unfoldable pub enqueue : Ctx Q → ℕ → CanFrame → Ctx Q × Sent
  unfolding fill give_up
  enqueue c slot f =
      let (q, queued) = Txq.push c.txq (id_cls f.id) slot in
      let c1 = record c { slots = set c.slots slot (fill (slot_at c.slots slot) f); txq = q } in
      if queued then (c1, ok) else (give_up c1 slot, no_mem)

  -- `ps_can_send` from the end of its wait on.
  unfoldable pub send_now : Ctx Q → CanFrame → Ctx Q × Sent
  unfolding enqueue
  send_now c f = elim (k.receive c.free_slots) [
    | none ↦ (record c { tx_timeouts = u32 (c.tx_timeouts + 1) }, timeout)
    | some (slot, q) ↦ enqueue (record c { free_slots = q }) slot f
  ]

  -- What another task does while a call waits. The loops end with this fuel.
  unfoldable pub meanwhile : Ctx Q → Meanwhile → Ctx Q
  unfolding on_tx_done tx_flush feed send_now
  meanwhile c (reported done success) = on_tx_done c done success
  meanwhile c flushed = elim (tx_flush 17 c) [ none ↦ c | some c' ↦ c' ]
  meanwhile c (fed accepts) = elim (feed 17 accepts c) [ none ↦ c | some r ↦ r.0 ]
  meanwhile c (called f) = (send_now c f).0

  -- The wait in `xQueueReceive`, until a slot is free or the time is over; the list is what happens in that time.
  unfoldable pub waited : Ctx Q → List Meanwhile → Ctx Q
  unfolding meanwhile
  waited c [] = c
  waited c (m ∷ ms) = elim (k.receive c.free_slots) [
    | none ↦ waited (meanwhile c m) ms
    | some r ↦ c
  ]

  -- `ps_can_send`, with the handle and the frame given; `off` says that the link is bus-off when the call looks, and the list is
  -- what other tasks do in its time.
  unfoldable pub send : Ctx Q → Bool → CanFrame → List Meanwhile → Ctx Q × Sent
  unfolding send_now waited
  send c off f ms =
      if ltb 8 f.dlc || not (f.id / 2 ^ 29 == 0)
      then (c, invalid_arg)
      else if off
      then (c, invalid_state)
      else send_now (waited c ms) f

  -- The loop of `ps_can_open` that puts the slots into the queue, `n` of them left.
  unfoldable pub prime : ℕ → ℕ → Q → Q
  prime zero i q = q
  prime (suc n) i q = prime n (i + 1) (elim (k.send q i) [ none ↦ q | some q' ↦ q' ])

  -- The fields after `ps_can_open`, with a queue that was just created.
  unfoldable pub opened : Q → Ctx Q
  unfolding prime
  opened q = record {
    free_slots = prime tx_slots 0 q;
    slots = replicate tx_slots (record { id = 0; buffer_len = 0; bytes = replicate 8 0 });
    txq = Txq.init;
    tx_busy = false;
    tx_slot = 0;
    tx_frames = 0;
    tx_timeouts = 0;
    bus_errors = 0;
  }
