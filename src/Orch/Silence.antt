-- ===== src/Orch/Silence.antt =====
-- estop_service.cpp and main.cpp: a stop keeps the orchestrator silent.
use powersuit.Base.{
  ℕ, ◌+◌, ◌≡◌, refl, ap, ◌∙◌, arith, Bool, true, false, Option, none, List, [], ◌∷◌, ◌++◌, All,
}
use powersuit.SpiFrame.{Record}
use powersuit.SpiFrame.Records.{Fits}
use powersuit.Orch.Traffic.{count_beats, count_beats-append}
use powersuit.Orch.OnWire.{IsPlain, frame_records, on_wire, beat_of, step-Accounts}
use powersuit.Orch.{Files, Service, Emitter, GateInputs, heartbeat_gate_open, emit_beat, engage}
use powersuit.Orch.Process
use powersuit.Orch.Process.{
  Process, Polled, ProcessEvent, Handed, tick_heartbeat, estop_seen, run, transmit, receive,
  transport_round, dispatch, dispatch_all, take_result, on_engage, on_disengage, on_command,
  on_link, on_round, listed,
}
use powersuit.Orch.Beats.{received, transport_round-Same}
use powersuit.Orch.Heard.{NoClear, IsStop, receive-external, receive-stop}

shut : (g : GateInputs) → g.estop_latched ≡ true → heartbeat_gate_open g ≡ false
shut g e = ground arith

shut_gives_none :
    (e : Emitter) (now : ℕ) (g : GateInputs) (up bad : Bool) (st uptime : ℕ)
    → g.estop_latched ≡ true
    → (emit_beat e now g up bad st uptime).1 ≡ none
unfolding emit_beat
shut_gives_none e now g up bad st uptime q = let closed = shut g q in rw closed refl

module _ {S A : Type 0} where
  -- No heartbeat comes out of a process that is stopped.
  stopped_silent :
      (o : Process S A) (p : Polled) → estop_seen o ≡ true → (tick_heartbeat o p).1 ≡ none
  unfolding tick_heartbeat
  stopped_silent o p e = shut_gives_none o.emitter p.now _ o.cloud_up _ _ p.uptime_ms e

-- The event is not a call of the service that releases the stop.
abbrev pub NoRelease : ProcessEvent → Type 0
NoRelease on_disengage = ⊥
NoRelease (on_engage uptime) = Unit {0}
NoRelease (on_command rs) = Unit {0}
NoRelease (on_link up) = Unit {0}
NoRelease (on_round p rx) = Unit {0}

module _ {S A : Type 0} (k : Files S A) where
  -- The process is stopped when each of the events comes.
  abbrev StaysStopped : Process S A → List ProcessEvent → Type 0
  StaysStopped o [] = Unit {0}
  StaysStopped o (e ∷ es) = (estop_seen o ≡ true) × StaysStopped (Process.step k o e) es

  -- Heartbeats leave the queue only for the frames, and none is added.
  abbrev NoneAdded : Process S A → List ProcessEvent → Type 0
  NoneAdded o es =
      count_beats (on_wire k o es) + count_beats (run k o es).outbound ≡ count_beats o.outbound

  no_beat : (o : Process S A) (e : ProcessEvent) → estop_seen o ≡ true → listed (beat_of k o e) ≡ []
  no_beat o (on_round p rx) h = ap listed (stopped_silent o p h)
  no_beat o (on_engage uptime) h = refl
  no_beat o on_disengage h = refl
  no_beat o (on_command rs) h = refl
  no_beat o (on_link up) h = refl

  silent :
      (o : Process S A) (es : List ProcessEvent)
      → All IsPlain es
      → All Fits o.outbound
      → StaysStopped o es
      → NoneAdded o es
  unfolding on_wire run count_beats
  silent o [] i q h = omega arith
  silent o (e ∷ es) i q h =
      let (fit, here) = step-Accounts k o e i.0 q in
      let later = silent (Process.step k o e) es i.1 fit h.1 in
      omega (
        arith,
        here,
        later,
        ap count_beats (no_beat o e h.0),
        count_beats-append (frame_records k o e) (on_wire k (Process.step k o e) es),
      )

  step_latched :
      (o : Process S A) (e : ProcessEvent)
      → NoRelease e
      → o.service.latched ≡ true
      → (Process.step k o e).service.latched ≡ true
  unfolding Process.step engage
  step_latched o (on_round p rx) n h =
      ap (λ (v : Service A). v.latched) (transport_round-Same o p rx).1 ∙ h
  step_latched o (on_engage uptime) n h = refl
  step_latched o on_disengage n h = absurd n
  step_latched o (on_command rs) n h = h
  step_latched o (on_link up) n h = h

  engaged :
      (o : Process S A) (uptime : ℕ → ℕ)
      → (Process.step k o (on_engage uptime)).service.latched ≡ true
  unfolding Process.step engage
  engaged o uptime = refl

  held :
      (o : Process S A) (es : List ProcessEvent)
      → All NoRelease es
      → o.service.latched ≡ true
      → StaysStopped o es
  held o [] n h = tt
  held o (e ∷ es) n h = (rw h refl, held (Process.step k o e) es n.1 (step_latched o e n.0 h))

  -- Let the records that wait, the commands and what the terminals and audio topics have for the suit fit their slots, the last
  -- three being no heartbeats. From a call of the service that stops the suit until one that releases it, whatever commands, link
  -- reports, rounds and further stops come, no heartbeat is added: those in the frames, as read from their bytes, and those that
  -- still wait at the end are together as many as waited when the call came. Where none waited, no frame has one.
  pub engage_silences :
      (o : Process S A) (uptime : ℕ → ℕ) (es : List ProcessEvent)
      → All NoRelease es
      → All IsPlain es
      → All Fits o.outbound
      → let o' = Process.step k o (on_engage uptime) in
        count_beats (on_wire k o' es) + count_beats (run k o' es).outbound ≡ count_beats o.outbound
  unfolding count_beats frame_records
  engage_silences o uptime es n i q =
      let (fit, queued) = step-Accounts k o (on_engage uptime) tt q in
      let stopped = held (Process.step k o (on_engage uptime)) es n (engaged o uptime) in
      let rest = silent (Process.step k o (on_engage uptime)) es i fit stopped in
      omega (arith, rest, queued)

  -- In each round no CLEAR_ESTOP is received.
  abbrev pub HearsNoClear : Process S A → List ProcessEvent → Type 0
  HearsNoClear o [] = Unit {0}
  HearsNoClear o (on_round p rx ∷ es) =
      All NoClear (received (transmit o p).0 rx)
      × HearsNoClear (Process.step k o (on_round p rx)) es
  HearsNoClear o (on_engage uptime ∷ es) = HearsNoClear (Process.step k o (on_engage uptime)) es
  HearsNoClear o (on_disengage ∷ es) = HearsNoClear (Process.step k o on_disengage) es
  HearsNoClear o (on_command rs ∷ es) = HearsNoClear (Process.step k o (on_command rs)) es
  HearsNoClear o (on_link up ∷ es) = HearsNoClear (Process.step k o (on_link up)) es

  round_heard :
      (o : Process S A) (p : Polled) (rx : Option (List ℕ)) (before after : List Record)
      (stop : Record)
      → received (transmit o p).0 rx ≡ before ++ stop ∷ after
      → IsStop stop
      → All NoClear after
      → (Process.step k o (on_round p rx)).external_latched ≡ true
  unfolding Process.step transport_round
  round_heard o p rx before after stop got is_stop clear =
      receive-stop (transmit o p).0 p.now rx before after stop got is_stop clear

  either : (o : Process S A) → o.external_latched ≡ true → estop_seen o ≡ true
  either o h = ground arith

  outside :
      (o : Process S A) (es : List ProcessEvent)
      → o.external_latched ≡ true
      → HearsNoClear o es
      → StaysStopped o es
  unfolding Process.step transport_round transmit
  outside o [] h n = tt
  outside o (on_round p rx ∷ es) h n = (
    either o h,
    outside (Process.step k o (on_round p rx)) es (receive-external (transmit o p).0 p.now rx h n.0)
        n.1,
  )
  outside o (on_engage uptime ∷ es) h n =
      (either o h, outside (Process.step k o (on_engage uptime)) es h n)
  outside o (on_disengage ∷ es) h n = (either o h, outside (Process.step k o on_disengage) es h n)
  outside o (on_command rs ∷ es) h n =
      (either o h, outside (Process.step k o (on_command rs)) es h n)
  outside o (on_link up ∷ es) h n = (either o h, outside (Process.step k o (on_link up)) es h n)

  -- Let the records that wait, the commands and what the terminals and audio topics have for the suit fit their slots, the last
  -- three being no heartbeats. Once a round has received an ESTOP from the suit with no CLEAR_ESTOP behind it, no heartbeat is added
  -- until a round receives a CLEAR_ESTOP: the heartbeats in the frames, as read from their bytes, and those that wait at the end
  -- are together as many as waited behind that round. The calls of its own service that release a stop do not end this.
  pub outside_stop_lasts :
      (o : Process S A) (p : Polled) (rx : Option (List ℕ)) (before after : List Record)
      (stop : Record) (es : List ProcessEvent)
      → received (transmit o p).0 rx ≡ before ++ stop ∷ after
      → IsStop stop
      → All NoClear after
      → All IsPlain (on_round p rx ∷ es)
      → All Fits o.outbound
      → let o' = Process.step k o (on_round p rx) in
        HearsNoClear o' es
        → count_beats (on_wire k o' es) + count_beats (run k o' es).outbound
          ≡ count_beats o'.outbound
  outside_stop_lasts o p rx before after stop es got is_stop clear plain fits quiet =
      let o' = Process.step k o (on_round p rx) in
      silent o' es plain.1 (step-Accounts k o (on_round p rx) plain.0 fits).0
        (outside o' es (round_heard o p rx before after stop got is_stop clear) quiet)
