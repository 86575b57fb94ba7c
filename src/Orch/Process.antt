-- ===== src/Orch/Process.antt =====
-- main.cpp: the state of the process and its steps. What the terminals of the micro-ROS agent and the audio topics have for
-- the suit is an argument of a round, and what the suit has for them is returned; as are the commands, whose conversion
-- from floating point is left out.
use powersuit.Base.{
  ℕ, ◌+◌, Bool, true, false, not, ◌||◌, Option, none, some, List, [], ◌∷◌, ◌++◌, length, take, drop,
  ltb, ◌==◌, if◌then◌else◌,
}
use powersuit.CanId.{
  unpack, cls_safety, cls_telem, cls_xrce, cls_audio, cls_mgmt, t_estop, t_clear_estop,
  t_node_fault,
}
use powersuit.Wire.{code, operational, passive, estop}
use powersuit.SpiFrame.{Record, max_records}
use powersuit.Bridge.{flag_estop_latched, flag_more_pending}
use powersuit.Orch.{Emitter, Files, Service, ms_since, emit_beat, engage, disengage, GateInputs}
use powersuit.Orch.Parser.{Parser, ParseResult, k_ok, k_idle, k_error, build, parse}

-- The variables of `main` that change, and the files.
pub record Process (S A : Type 0) : Type 0 where
  pub files : S
  pub service : Service A
  pub emitter : Emitter
  pub frame_parser : Parser
  pub outbound : List Record
  pub cloud_up : Bool
  pub external_latched : Bool
  pub last_good_frame : ℕ

-- What a round of the transport thread reads.
pub record Polled : Type 0 where
  pub now : ℕ
  pub uptime_ms : ℕ
  pub rclcpp_ok : Bool
  pub xrce : List Record
  pub audio : List Record

-- The records that go on to the terminals, the audio topics and the telemetry.
pub data Handed : Type 0 where
  to_xrce to_audio to_telem : Record → Handed

-- `OutboundQueue::push` and `OutboundQueue::drain`
abbrev pub outbound_push : List Record → List Record → List Record
outbound_push q recs = q ++ recs

abbrev pub outbound_drain : List Record → ℕ → List Record × List Record
outbound_drain q max_n = (take max_n q, drop max_n q)

abbrev pub listed : Option Record → List Record
listed none = []
listed (some r) = r ∷ []

module _ {S A : Type 0} where
  -- `estop_latched` and `transport_healthy` of a round.
  abbrev pub estop_seen : Process S A → Bool
  estop_seen o = o.service.latched || o.external_latched

  abbrev pub healthy : Process S A → ℕ → Bool
  healthy o now = ltb (ms_since o.last_good_frame now) 100

  -- The gate of a round, and its `src_state`.
  abbrev pub gate_of : Process S A → Polled → GateInputs
  gate_of o p = record {
    transport_healthy = healthy o p.now;
    estop_latched = estop_seen o;
    rclcpp_ok = p.rclcpp_ok;
  }

  abbrev pub src_state : Process S A → Polled → ℕ
  src_state o p =
      if estop_seen o
      then code estop
      else if healthy o p.now
      then code operational
      else code passive

  -- The call of the heartbeat in a round.
  unfoldable pub tick_heartbeat : Process S A → Polled → Emitter × Option Record
  unfolding emit_beat
  tick_heartbeat o p =
      emit_beat o.emitter p.now (gate_of o p) o.cloud_up (not (healthy o p.now)) (src_state o p)
        p.uptime_ms

  -- `batch`, before its cut.
  unfoldable pub batch : Process S A → Polled → List Record
  unfolding tick_heartbeat
  batch o p =
      p.xrce
      ++ (p.audio ++ ((outbound_drain o.outbound max_records).0 ++ listed (tick_heartbeat o p).1))

  -- Steps 1 and 2 of a round: what goes into the frame, and the state after it.
  unfoldable pub transmit : Process S A → Polled → Process S A × Option (List ℕ × ℕ)
  unfolding tick_heartbeat batch build
  transmit o p =
      let whole = batch o p in
      let more = ltb max_records (length whole) in
      let flags =
        (if more then flag_more_pending else 0)
        + (if estop_seen o then flag_estop_latched else 0) in
      let left = (outbound_drain o.outbound max_records).1 in
      let (q, frame) =
        build o.frame_parser flags (if more then take max_records whole else whole) in
      (
        record o {
          emitter = (tick_heartbeat o p).0;
          frame_parser = q;
          outbound = if more then outbound_push left (drop max_records whole) else left;
        },
        frame,
      )

  -- The body of the loop over the received records.
  unfoldable pub dispatch : Process S A → Record → Process S A × List Handed
  dispatch o r =
      let parts = unpack r.id in
      if parts.cls == cls_telem
      then (o, to_telem r ∷ [])
      else if parts.cls == cls_xrce
      then (o, to_xrce r ∷ [])
      else if parts.cls == cls_audio
      then (o, to_audio r ∷ [])
      else if parts.cls == cls_safety
      then if parts.type == t_estop
        then (record o { external_latched = true }, [])
        else if parts.type == t_clear_estop
        then (record o { external_latched = false }, [])
        else if parts.type == t_node_fault
        then (o, to_telem r ∷ [])
        else (o, [])
      else if parts.cls == cls_mgmt
      then (o, to_telem r ∷ [])
      else (o, [])

  unfoldable pub dispatch_all : Process S A → List Record → Process S A × List Handed
  unfolding dispatch
  dispatch_all o [] = (o, [])
  dispatch_all o (r ∷ rs) =
      let (o1, hs) = dispatch o r in let (o2, hs') = dispatch_all o1 rs in (o2, hs ++ hs')

  -- What a round does with the result of the parser.
  unfoldable pub take_result : Process S A → ℕ → ParseResult → Process S A × List Handed
  unfolding dispatch_all
  take_result o now k_error = (o, [])
  take_result o now k_idle = (record o { last_good_frame = now }, [])
  take_result o now (k_ok rs flags seq) = dispatch_all (record o { last_good_frame = now }) rs

  -- Step 3 behind the exchange, with the bytes that came; `none` where the exchange failed.
  unfoldable pub receive : Process S A → ℕ → Option (List ℕ) → Process S A × List Handed
  unfolding take_result parse
  receive o now none = (o, [])
  receive o now (some buf) =
      let (q, result) = parse o.frame_parser buf in
      take_result (record o { frame_parser = q }) now result

  -- A round of the transport thread.
  unfoldable pub transport_round :
      Process S A → Polled → Option (List ℕ) → Process S A × Option (List ℕ × ℕ) × List Handed
  unfolding transmit receive
  transport_round o p rx =
      let (o1, frame) = transmit o p in
      let (o2, handed) = receive o1 p.now rx in (o2, frame, handed)

-- What the process reacts to: the service calls, the commands, the link status and the rounds.
pub data ProcessEvent : Type 0 where
  on_engage : (ℕ → ℕ) → ProcessEvent
  on_disengage : ProcessEvent
  on_command : List Record → ProcessEvent
  on_link : Bool → ProcessEvent
  on_round : Polled → Option (List ℕ) → ProcessEvent

module _ {S A : Type 0} (k : Files S A) where
  unfoldable pub step : Process S A → ProcessEvent → Process S A
  unfolding engage disengage transport_round
  step o (on_engage uptime) =
      let (v, rs) = engage uptime o.service in
      record o { service = v; outbound = outbound_push o.outbound rs }
  step o on_disengage =
      let (s, v, r) = disengage k o.files o.service in
      record o { files = s; service = v; outbound = outbound_push o.outbound (r ∷ []) }
  step o (on_command rs) = record o { outbound = outbound_push o.outbound rs }
  step o (on_link up) = record o { cloud_up = up }
  step o (on_round p rx) = (transport_round o p rx).0

  unfoldable pub run : Process S A → List ProcessEvent → Process S A
  unfolding step
  run o [] = o
  run o (e ∷ es) = run (step o e) es
