-- ===== src/SafetyNode/Stop.antt =====
-- ps_safety_esp.c: an e-stop that one node raises stops every node that hears any of its frames.
use powersuit.Base.{
  ℕ, zero, suc, ◌+◌, ◌<◌, ◌≡◌, ◌≢◌, refl, ap, ◌∙◌, arith, Bool, true, false, some, List, length,
  take-append, All, replicate, IsByte, IsU16, IsU32, u16,
}
use powersuit.CanId.{CanFrame, CanId, pack, id_type, cls_safety, node_broadcast, t_estop}
use powersuit.CanId.Layout.{unpack-pack}
use powersuit.Wire.{estop}
use powersuit.Wire.SafetyPayloads.{Estop, EstopFits, write_estop, read_estop, read-write_estop}
use powersuit.Safety.{Core, Call, on_estop}
use powersuit.Safety.Latch.{IsLatched, on_estop-IsLatched}
use powersuit.SafetyNode.{Node, safety_rx, send_safety, repeat_estop, raise_estop, can_actuate}

-- The node's numbers are in range.
pub record NodeIsValid (n : Node) : Type 0 where
  pub node_id : n.node_id < 32
  pub safety_low : IsByte n.safety_low
  pub estop_seq : IsU16 n.estop_seq

-- A frame that latches every node that gets it, whatever its state, at any time, and closes its gate; a node that
-- was not stopped keeps the cause.
abbrev pub Stops : ℕ → CanFrame → Type 0
Stops cause f =
    (m : Node) (t : ℕ)
    → IsLatched (safety_rx m t f).0.core
      × (can_actuate (safety_rx m t f).0 ≡ false)
      × (m.core.state ≢ estop → (safety_rx m t f).0.core.estop_cause ≡ cause)

latched_gate : (n : Node) → IsLatched n.core → can_actuate n ≡ false
unfolding can_actuate
latched_gate n h = ground (arith, h.stopped)

-- The first cause is kept.
on_estop_cause :
    (c : Core) (t cause : ℕ)
    → cause ≢ 0
    → c.state ≢ estop
    → (on_estop c t cause).0.estop_cause ≡ cause
unfolding on_estop
on_estop_cause c t cause z s = ground arith

estop_type :
    (n : Node)
    → NodeIsValid n
    → id_type (pack cls_safety n.node_id node_broadcast t_estop n.safety_low) ≡ t_estop
estop_type n v =
    let f : CanId = record {
      cls = cls_safety;
      src = n.node_id;
      dst = node_broadcast;
      type = t_estop;
      low = n.safety_low;
    } in
    let (_, _, _, _, type, _) = unpack-pack f (record {
      cls = omega arith;
      src = v.node_id;
      dst = omega arith;
      type = omega arith;
      low = v.safety_low;
    }) in
    type

-- Every ESTOP frame with a cause is such a frame.
pub estop_frame-Stops :
    (f : CanFrame) {cause : ℕ}
    → id_type f.id ≡ t_estop
    → (read_estop f.payload).cause ≡ cause
    → cause ≢ 0
    → Stops cause f
unfolding safety_rx
estop_frame-Stops f {cause} type c z m t =
    rw (type, c)
      (
        (on_estop-IsLatched m.core t cause).0,
        latched_gate (record m { core = (on_estop m.core t cause).0 })
            (on_estop-IsLatched m.core t cause).0,
        on_estop_cause m.core t cause z,
      )

send-Stops :
    (n : Node) (e : Estop)
    → NodeIsValid n
    → EstopFits e
    → e.cause ≢ 0
    → Stops e.cause (send_safety n t_estop (write_estop e)).1
unfolding send_safety
send-Stops n e v fits z =
    let (back, eight) = read-write_estop e fits in
    let payload = take-append (write_estop e) (replicate 8 0) 8 eight in
    estop_frame-Stops (send_safety n t_estop (write_estop e)).1 (estop_type n v)
      (ap (λ p. (read_estop p).cause) payload ∙ ap (λ (x : Estop). x.cause) back) z

repeat_estop-Stops :
    (k : ℕ) (n : Node) (e : Estop)
    → NodeIsValid n
    → EstopFits e
    → e.cause ≢ 0
    → All (Stops e.cause) (repeat_estop k n (write_estop e)).1
      × (length (repeat_estop k n (write_estop e)).1 ≡ k)
unfolding repeat_estop
repeat_estop-Stops zero n e v fits z = (tt, refl)
repeat_estop-Stops (suc k) n e v fits z =
    let n1 = (send_safety n t_estop (write_estop e)).0 in
    let v1 : NodeIsValid n1 = record {
      node_id = v.node_id;
      safety_low = omega arith;
      estop_seq = v.estop_seq;
    } in
    let (rest, count) = repeat_estop-Stops k n1 e v1 fits z in
    ((send-Stops n e v fits z, rest), ap suc count)

-- A node that has started, with its numbers in range, and raises an e-stop with a cause latches itself, closes its
-- own gate and hands over three
-- frames, any one of which latches every node that gets it, whatever that node was doing, closes its gate, and
-- tells it the cause if it was not stopped before.
pub raise_estop-Stops :
    (n : Node) (uptime now cause : ℕ) (sent : Bool)
    → NodeIsValid n
    → n.started ≡ true
    → IsByte cause
    → cause ≢ 0
    → IsU32 uptime
    → (n' : Node) × (frames : List CanFrame) × (calls : List Call) × (raise_estop n uptime now cause
          sent
        ≡ some (n', frames, calls, sent))
      × IsLatched n'.core
      × (can_actuate n' ≡ false)
      × (length frames ≡ 3)
      × All (Stops cause) frames
unfolding raise_estop
raise_estop-Stops n uptime now cause sent v st b z u =
    let seq = u16 (n.estop_seq + 1) in
    let e : Estop = record {
      cause = cause;
      origin_node = n.node_id;
      seq = seq;
      uptime_ms = uptime;
    } in
    let n0 = record n { estop_seq = seq } in
    let v0 : NodeIsValid n0 = record {
      node_id = v.node_id;
      safety_low = v.safety_low;
      estop_seq = omega arith;
    } in
    let (n1, frames) = repeat_estop 3 n0 (write_estop e) in
    let (c, calls) = on_estop n1.core now cause in
    let (stop, three) =
      repeat_estop-Stops 3 n0 e v0 (b, omega (arith, v.node_id), omega arith, u) z in
    let latched = (on_estop-IsLatched n1.core now cause).0 in
    let n' = record n1 { core = c } in
    (n', frames, calls, rw st refl, latched, latched_gate n' latched, three, stop)
