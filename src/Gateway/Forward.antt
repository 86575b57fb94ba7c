-- ===== src/Gateway/Forward.antt =====
-- gateway_task.c: what goes out for a frame that comes in, and in what order.
use powersuit.Base.{
  by_if, ℕ, ◌≡◌, refl, sym, ap, ◌∙◌, subst, Bool, true, false, ◌&&◌, List, [], ◌∷◌, ◌++◌, inl,
  test_bit, if◌then◌else◌, ◌==◌, u16,
}
use powersuit.CanId.{CanFrame, unpack}
use powersuit.Wire.{code, estop}
use powersuit.Safety.{Core, same}
use powersuit.Router.{port_can1, port_can2, port_spi, port_local, route}
use powersuit.Router.Policy.{Port, gets, other}
use powersuit.SpiFrame.{Record}
use powersuit.Gateway.{
  Gateway, Action, can_send, uplink_push, Answers, safety_tick, local_estop, forward_to,
  local_dispatch, origin_bus_tag, send_can1, send_can2, send_spi, forward, pump, frame_of, downlink,
}
use powersuit.Gateway.Dispatch.{
  flag_after, Tells, Follows, Keeps, local_dispatch-Keeps, safety_tick-Keeps, local_estop-Keeps,
}

abbrev if_on : Bool → Action → List Action
if_on true a = a ∷ []
if_on false a = []

abbrev record_of : ℕ → ℕ → CanFrame → Record
record_of ts o f = record {
  id = f.id;
  bus = origin_bus_tag o;
  dlc = f.dlc;
  ts_ms = u16 ts;
  payload = f.payload;
}

abbrev Unchanged : Gateway → Gateway → Type 0
Unchanged g g' = (g'.mirror ≡ g.mirror) × (g'.last_pub_state ≡ g.last_pub_state)

-- A part of the forwarding that is taken when its bit is set: it leaves the mirror alone and does one call.
abbrev Sends : Gateway → Bool → Action → Gateway × List Action → Type 0
Sends g on act (g', acts) = Unchanged g g' × (acts ≡ if_on on act)

module _ (g : Gateway) (a : Answers) (f : CanFrame) where
  Sends-can1 : (on : Bool) → Sends g on (can_send 0 f) (if on then send_can1 g a f else (g, []))
  unfolding send_can1
  Sends-can1 false = ((refl, refl), refl)
  Sends-can1 true = (by_if (Unchanged g) a.can1_ok (refl, refl) (refl, refl), refl)

  Sends-can2 : (on : Bool) → Sends g on (can_send 1 f) (if on then send_can2 g a f else (g, []))
  unfolding send_can2
  Sends-can2 false = ((refl, refl), refl)
  Sends-can2 true = (by_if (Unchanged g) a.can2_ok (refl, refl) (refl, refl), refl)

  Sends-spi :
      (ts o : ℕ) (on : Bool)
      → Sends g on (uplink_push (record_of ts o f)) (if on then send_spi g a ts o f else (g, []))
  unfolding send_spi
  Sends-spi ts o false = ((refl, refl), refl)
  Sends-spi ts o true = (by_if (Unchanged g) a.uplink_ok (refl, refl) (refl, refl), refl)

-- The calls for the other parts, in order.
abbrev pub outgoing : ℕ → ℕ → CanFrame → Bool → Bool → Bool → List Action
outgoing ts o f to_can1 to_can2 to_spi =
    if_on to_can1 (can_send 0 f)
    ++ (if_on to_can2 (can_send 1 f) ++ if_on to_spi (uplink_push (record_of ts o f)))

forward_to_lem :
    (g : Gateway) (a : Answers) (ts now o : ℕ) (f : CanFrame) (c1 c2 sp lo : Bool)
    → (g' : Gateway) × Unchanged g g'
      × (forward_to g a ts now o f c1 c2 sp lo ≡ (
        (if lo then local_dispatch g' now f else (g', [])).0,
        outgoing ts o f c1 c2 sp ++ (if lo then local_dispatch g' now f else (g', [])).1,
      ))
unfolding forward_to
forward_to_lem g a ts now o f c1 c2 sp lo =
    let r1 = if c1 then send_can1 g a f else (g, []) in
    let r2 = if c2 then send_can2 r1.0 a f else (r1.0, []) in
    let r3 = if sp then send_spi r2.0 a ts o f else (r2.0, []) in
    let r4 = if lo then local_dispatch r3.0 now f else (r3.0, []) in
    let ((m1, p1), e1) = Sends-can1 g a f c1 in
    let ((m2, p2), e2) = Sends-can2 r1.0 a f c2 in
    let ((m3, p3), e3) = Sends-spi r2.0 a f ts o sp in
    (
      r3.0,
      (m3 ∙ m2 ∙ m1, p3 ∙ p2 ∙ p1),
      ap (λ (acts : List Action). (r4.0, acts))
          (ap (λ x. x ++ (r2.1 ++ (r3.1 ++ r4.1))) e1
            ∙ ap (λ x. if_on c1 (can_send 0 f) ++ (x ++ (r3.1 ++ r4.1))) e2
            ∙ ap (λ x. if_on c1 (can_send 0 f) ++ (if_on c2 (can_send 1 f) ++ (x ++ r4.1))) e3
            ∙ regroup c1 c2 sp r4.1),
    )
  where
    regroup :
        (c1 c2 sp : Bool) (rest : List Action)
        → if_on c1 (can_send 0 f)
            ++ (if_on c2 (can_send 1 f) ++ (if_on sp (uplink_push (record_of ts o f)) ++ rest))
          ≡ outgoing ts o f c1 c2 sp ++ rest
    regroup true true true rest = refl
    regroup true true false rest = refl
    regroup true false true rest = refl
    regroup true false false rest = refl
    regroup false true true rest = refl
    regroup false true false rest = refl
    regroup false false true rest = refl
    regroup false false false rest = refl

flag_after-outgoing :
    (ts o : ℕ) (f : CanFrame) (c1 c2 sp b : Bool) (acts : List Action)
    → flag_after b (outgoing ts o f c1 c2 sp ++ acts) ≡ flag_after b acts
flag_after-outgoing ts o f true true true b acts = refl
flag_after-outgoing ts o f true true false b acts = refl
flag_after-outgoing ts o f true false true b acts = refl
flag_after-outgoing ts o f true false false b acts = refl
flag_after-outgoing ts o f false true true b acts = refl
flag_after-outgoing ts o f false true false b acts = refl
flag_after-outgoing ts o f false false true b acts = refl
flag_after-outgoing ts o f false false false b acts = refl

module _ (g : Gateway) (a : Answers) (ts now : ℕ) (b : Bool) (t : Tells g b) where
  dispatched :
      (g' : Gateway) (f : CanFrame) (lo : Bool)
      → Unchanged g g'
      → Keeps g now b (if lo then local_dispatch g' now f else (g', []))
  dispatched g' f lo (m, p) =
      let t' : Tells g' b = (
        p ∙ t.0 ∙ ap (λ (c : Core). code c.state) (sym m),
        t.1 ∙ ap (λ (c : Core). same c.state estop) (sym m),
      ) in
      let kept : Keeps g' now b (if lo then local_dispatch g' now f else (g', [])) =
        by_if (Keeps g' now b) lo (local_dispatch-Keeps g' now b f t') (t', inl refl) in
      (
        kept.0,
        subst (λ c. Follows c now (if lo then local_dispatch g' now f else (g', [])).0.mirror) m
            kept.1,
      )

  forward-Keeps : (o : ℕ) (f : CanFrame) (mask : ℕ) → Keeps g now b (forward g a ts now o f mask)
  unfolding forward
  forward-Keeps o f mask =
      let c1 = test_bit mask port_can1 in
      let c2 = test_bit mask port_can2 in
      let sp = test_bit mask port_spi in
      let lo = test_bit mask port_local in
      let (g', un, e) = forward_to_lem g a ts now o f c1 c2 sp lo in
      let kept = dispatched g' f lo un in
      let last = if lo then local_dispatch g' now f else (g', []) in
      subst (Keeps g now b) (sym e) (
        subst (λ v. Tells last.0 v) (sym (flag_after-outgoing ts o f c1 c2 sp b last.1)) kept.0,
        kept.1,
      )

  pump-Keeps : (o : ℕ) (f : CanFrame) → Keeps g now b (pump g a ts now o f)
  unfolding pump
  pump-Keeps o f =
      by_if (Keeps g now b) (route o f.id == 0) (t, inl refl) (forward-Keeps o f (route o f.id))

  downlink-Keeps : (r : Record) → Keeps g now b (downlink g a ts now r)
  unfolding downlink
  downlink-Keeps r =
      by_if (Keeps g now b) (r.bus == 3) (local_dispatch-Keeps g now b (frame_of r) t) (
        by_if (Keeps g now b) (route port_spi (frame_of r).id == 0) (t, inl refl)
          (forward-Keeps port_spi (frame_of r) (route port_spi (frame_of r).id)))

-- The inputs of the gateway that can change the mirror.
pub data Input : Type 0 where
  from_bus : Answers → ℕ → ℕ → CanFrame → Input
  from_link : Answers → ℕ → Record → Input
  timer : Input
  trip : ℕ → Input

abbrev pub react : Gateway → ℕ → Input → Gateway × List Action
react g now (from_bus a ts o f) = pump g a ts now o f
react g now (from_link a ts r) = downlink g a ts now r
react g now timer = safety_tick g now
react g now (trip cause) = local_estop g now cause

-- Where the state of the mirror was published and the link's flag says whether it is ESTOP, every frame of a bus,
-- record of the link, tick and trip leaves it so once its actions are done, and changes the mirror by at most one step of
-- the safety core, when no two of these calls overlap.
pub react-Keeps :
    (g : Gateway) (now : ℕ) (b : Bool) (i : Input)
    → Tells g b
    → Tells (react g now i).0 (flag_after b (react g now i).1)
      × Follows g.mirror now (react g now i).0.mirror
react-Keeps g now b (from_bus a ts o f) t = pump-Keeps g a ts now b t o f
react-Keeps g now b (from_link a ts r) t = downlink-Keeps g a ts now b t r
react-Keeps g now b timer t = safety_tick-Keeps g now b t
react-Keeps g now b (trip cause) t = local_estop-Keeps g now b t cause

-- The policy names the port, and the frame did not come from it.
abbrev pub reaches : Port → CanFrame → Port → Bool
reaches o f p = other o p && gets o (unpack f.id) p

-- These calls, then what the dispatch in the hub does if there is one.
abbrev Does : ℕ → ℕ → ℕ → CanFrame → List Action → Bool → Bool → Bool → Bool → Type 0
Does ts now o f acts c1 c2 sp lo =
    (g' : Gateway) × (acts
      ≡ outgoing ts o f c1 c2 sp ++ (if lo then (local_dispatch g' now f).1 else []))
