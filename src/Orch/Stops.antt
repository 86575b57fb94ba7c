-- ===== src/Orch/Stops.antt =====
-- estop_service.cpp: what a stop of the operator does to a node that hears of it.
use powersuit.Base.{
  ℕ, zero, suc, ◌+◌, ◌≡◌, refl, ap, ◌∙◌, arith, true, List, ◌++◌, length, All, IsByte, IsU16, IsU32,
  u8, u16,
}
use powersuit.CanId.{CanId, id_type, cls_safety, node_orch, node_broadcast, t_estop}
use powersuit.CanId.Layout
use powersuit.CanId.Layout.{unpack-pack, pack_as_sum}
use powersuit.Wire.{estop_operator}
use powersuit.Wire.SafetyPayloads.{Estop, EstopFits, write_estop, read-write_estop}
use powersuit.SpiFrame.{Record}
use powersuit.SpiFrame.Records.{Fits}
use powersuit.SafetyNode.Stop.{Stops, estop_frame-Stops}
use powersuit.Gateway.{frame_of}
use powersuit.Orch.{Files, Service, safety_record, engage, stop_records}
use powersuit.Orch.Process
use powersuit.Orch.Process.{Process, on_engage}

-- The identifier of a record of the orchestrator's safety class has its type, and fits its slot.
pub safety_record_type :
    (type low : ℕ) (payload : List ℕ)
    → IsByte type
    → IsByte low
    → length payload ≡ 8
    → (id_type (safety_record type low payload).id ≡ type) × Fits (safety_record type low payload)
safety_record_type type low payload t l eight =
    let f : CanId = record {
      cls = cls_safety;
      src = node_orch;
      dst = node_broadcast;
      type = type;
      low = low;
    } in
    let fits : Layout.Fits f = record {
      cls = omega arith;
      src = omega arith;
      dst = omega arith;
      type = t;
      low = l;
    } in
    let (_, _, _, _, is_type, _) = unpack-pack f fits in
    (
      is_type,
      record {
        id = omega (arith, pack_as_sum f fits);
        bus = omega arith;
        dlc = omega arith;
        ts_ms = omega arith;
        payload = eight;
      },
    )

-- The frame that the hub makes of a record that fits has the record's identifier.
pub frame_of_id : (r : Record) → Fits r → (frame_of r).id ≡ r.id
unfolding frame_of
frame_of_id r f = omega (arith, f.id)

-- A record that stops every node which hears it, and that a frame can carry.
abbrev pub Halts : Record → Type 0
Halts r = Stops estop_operator (frame_of r) × Fits r

estop_record-Halts :
    (e : Estop) (low : ℕ)
    → EstopFits e
    → IsByte low
    → e.cause ≡ estop_operator
    → Halts (safety_record t_estop low (write_estop e))
unfolding frame_of
estop_record-Halts e low fits l cause =
    let (back, eight) = read-write_estop e fits in
    let r = safety_record t_estop low (write_estop e) in
    let (type, slot) = safety_record_type t_estop low (write_estop e) (omega arith) l eight in
    (
      estop_frame-Stops (frame_of r) (ap id_type (frame_of_id r slot) ∙ type)
          (ap (λ (x : Estop). x.cause) back ∙ cause) (omega arith),
      slot,
    )

stop_records-Halts :
    {A : Type 0} (n : ℕ) (uptime : ℕ → ℕ) (v : Service A)
    → IsU16 v.seq
    → ((i : ℕ) → IsU32 (uptime i))
    → (length (stop_records n uptime v).1 ≡ n) × All Halts (stop_records n uptime v).1
unfolding stop_records
stop_records-Halts {A} zero uptime v s u = (refl, tt)
stop_records-Halts {A} (suc n) uptime v s u =
    let v' : Service A = record v { seq = u16 (v.seq + 1) } in
    let (l, all) = stop_records-Halts n uptime v' (omega arith) u in
    let e : Estop = record {
      cause = estop_operator;
      origin_node = node_orch;
      seq = v.seq;
      uptime_ms = uptime n;
    } in
    (
      ap suc l,
      (estop_record-Halts e (u8 v.seq) (omega arith, omega arith, s, u n) (omega arith) refl, all),
    )

-- With a sequence number of 16 bits and clock readings of 32, a stop by the operator latches the orchestrator and puts three records
-- at the end of its queue, any one of which, when the hub hands it on, latches every node that hears it, whatever that node was
-- doing, closes its gate, and tells it the cause if it was not stopped before. The records fit the slots of a frame.
pub engage-Halts :
    {S A : Type 0} (k : Files S A) (o : Process S A) (uptime : ℕ → ℕ)
    → IsU16 o.service.seq
    → ((i : ℕ) → IsU32 (uptime i))
    → let o' = Process.step k o (on_engage uptime) in
      (o'.service.latched ≡ true)
      × (rs : List Record) × (o'.outbound ≡ o.outbound ++ rs)
      × (length rs ≡ 3)
      × All Halts rs
unfolding Process.step engage
engage-Halts k o uptime s u =
    let (three, all) = stop_records-Halts 3 uptime o.service s u in
    (refl, (stop_records 3 uptime o.service).1, refl, three, all)
