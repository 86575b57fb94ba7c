-- ===== src/Orch/Spacing.antt =====
-- main.cpp: the times and the numbers of the heartbeats in the frames, where no frame overflows.
use powersuit.Base.{
  ℕ, ◌≤◌, ◌≡◌, refl, sym, ap, ap₂, subst, ◌∙◌, arith, Bool, true, Option, none, List, [], ◌∷◌, ◌++◌,
  append-nil, length, take, drop, All, All-append, if◌then◌else◌, IsU16, u8, by_if, not, ltb, ◌&&◌,
  inl, inr, Bool-cases,
}
use powersuit.CanId.{t_heartbeat}
use powersuit.Wire.SafetyPayloads.{read_heartbeat, write_heartbeat}
use powersuit.SpiFrame.{Record}
use powersuit.Wire.{Heartbeat}
use powersuit.Bytes.{rd_u16, rd-wr_u16}
use powersuit.Orch.{
  Files, Emitter, GateInputs, emit_beat, safety_record, heartbeat_gate_open, ms_since,
}
use powersuit.Orch.Process
use powersuit.Orch.Process.{
  Process, Polled, ProcessEvent, listed, batch, gate_of, src_state, tick_heartbeat, transmit,
  transport_round, on_engage, on_disengage, on_command, on_link, on_round,
}
use powersuit.Orch.Downlink.{sent, take_all, left_over}
use powersuit.Orch.Beats.{given, beats, beats_of, AreSpaced, beats-AreSpaced, transport_round-Same}
use powersuit.Orch.Traffic.{is_beat, Plain, carried, carried-transmit, count_beats-Plain, All-drop}
use powersuit.Bridge.Flow.{All-take}
use powersuit.Orch.OnWire.{IsPlain, is_beat-safety_record, engage-Plain, disengage-Plain}

-- The heartbeats among the records, with the time of their frame and the number in their payload.
unfoldable pub timed : ℕ → List Record → List (ℕ × ℕ)
timed now [] = []
timed now (r ∷ rs) =
    let rest = timed now rs in
    if is_beat r then (now, (read_heartbeat r.payload).seq) ∷ rest else rest

timed-append : (now : ℕ) (xs ys : List Record) → timed now (xs ++ ys) ≡ timed now xs ++ timed now ys
unfolding timed
timed-append now [] ys = refl
timed-append now (x ∷ xs) ys =
    let rest = timed-append now xs ys in
    elim (Bool-cases (is_beat x)) [
      | inl beat ↦ rw (beat, rest) refl
      | inr other ↦ rw (other, rest) refl
    ]

timed-Plain : (now : ℕ) (rs : List Record) → All Plain rs → timed now rs ≡ []
unfolding timed
timed-Plain now [] h = refl
timed-Plain now (r ∷ rs) h = let no = h.0.1 in rw no (timed-Plain now rs h.1)

skip : (now : ℕ) (xs ys : List Record) → All Plain xs → timed now (xs ++ ys) ≡ timed now ys
skip now xs ys plain =
    timed-append now xs ys ∙ ap (λ l. l ++ timed now ys) (timed-Plain now xs plain)

heartbeat_timed :
    (e : Emitter) (now : ℕ) (hb : Heartbeat)
    → IsU16 e.seq
    → hb.seq ≡ e.seq
    → timed now (safety_record t_heartbeat (u8 e.seq) (write_heartbeat hb) ∷ []) ≡ (now, e.seq) ∷ []
unfolding timed read_heartbeat write_heartbeat
heartbeat_timed e now hb s same =
    let beat : is_beat (safety_record t_heartbeat (u8 e.seq) (write_heartbeat hb)) ≡ true =
      is_beat-safety_record t_heartbeat (u8 e.seq) (write_heartbeat hb) (omega arith)
        (omega arith) in
    let number : rd_u16 (write_heartbeat hb) ≡ e.seq =
      ground (arith, rd-wr_u16 hb.seq (drop 2 (write_heartbeat hb))) in
    rw (beat, number) refl

-- What an emitter gives reads back from the record, and its number stays in range.
abbrev Reads : ℕ → Emitter → Emitter × Option Record → Type 0
Reads now e r = (timed now (listed r.1) ≡ given now e r.1) × IsU16 r.0.seq

emit_beat-Reads :
    (e : Emitter) (now : ℕ) (gate : GateInputs) (up bad : Bool) (st uptime : ℕ)
    → IsU16 e.seq
    → Reads now e (emit_beat e now gate up bad st uptime)
unfolding emit_beat
emit_beat-Reads e now gate up bad st uptime s =
    let quiet : Reads now e (e, none) = (timed-Plain now [] tt, s) in
    by_if (Reads now e) (not (heartbeat_gate_open gate)) quiet (
      by_if (Reads now e) (e.have_last_emit && ltb (ms_since e.last_emit now) 10) quiet
        (heartbeat_timed e now _ s refl, omega arith))

module _ {S A : Type 0} where
  -- The round has no more records than its frame takes.
  abbrev Roomy : Process S A → Polled → Type 0
  Roomy o p = length (batch o p) ≤ 31

  -- The heartbeat in the frame of a round is the emitter's.
  round_timed :
      (o : Process S A) (p : Polled)
      → All Plain p.xrce × All Plain p.audio
      → All Plain o.outbound
      → Roomy o p
      → IsU16 o.emitter.seq
      → timed p.now (carried (transmit o p).1) ≡ given p.now o.emitter (tick_heartbeat o p).1
  unfolding batch tick_heartbeat
  round_timed o p (x, a) q room s =
      let beat = listed (tick_heartbeat o p).1 in
      let start = take 31 o.outbound in
      let whole : sent o p ≡ p.xrce ++ (p.audio ++ (start ++ beat)) =
        (take_all 31 (batch o p) (ground arith)).0 in
      ap (timed p.now) (carried-transmit o p (x, a) (count_beats-Plain o.outbound q).1 ∙ whole)
      ∙ skip p.now p.xrce _ x
      ∙ skip p.now p.audio _ a
      ∙ skip p.now start beat (All-take Plain 31 o.outbound q)
      ∙ (emit_beat-Reads o.emitter p.now (gate_of o p) o.cloud_up _ (src_state o p) p.uptime_ms s).0

  left-Plain :
      (o : Process S A) (p : Polled)
      → All Plain o.outbound
      → Roomy o p
      → All Plain (transmit o p).0.outbound
  left-Plain o p q room =
      let fits : drop 31 (batch o p) ≡ [] = (take_all 31 (batch o p) (ground arith)).1 in
      subst (All Plain)
        (sym (
          left_over o p ∙ ap (λ l. drop 31 o.outbound ++ l) fits ∙ append-nil (drop 31 o.outbound)))
        (All-drop Plain 31 o.outbound q)

  tick-IsU16 :
      (o : Process S A) (p : Polled) → IsU16 o.emitter.seq → IsU16 (tick_heartbeat o p).0.seq
  unfolding tick_heartbeat
  tick-IsU16 o p s =
      (emit_beat-Reads o.emitter p.now (gate_of o p) o.cloud_up _ (src_state o p) p.uptime_ms s).1

module _ {S A : Type 0} (k : Files S A) where
  -- The heartbeats in the frames of a run, with the times of the frames and the numbers in the payloads.
  unfoldable pub wire_beats : Process S A → List ProcessEvent → List (ℕ × ℕ)
  wire_beats o [] = []
  wire_beats o (on_round p rx ∷ es) =
      timed p.now (carried (transport_round o p rx).1)
      ++ wire_beats (Process.step k o (on_round p rx)) es
  wire_beats o (e ∷ es) = wire_beats (Process.step k o e) es

  -- No frame of the run overflows.
  abbrev pub StaysRoomy : Process S A → List ProcessEvent → Type 0
  StaysRoomy o [] = Unit {0}
  StaysRoomy o (on_round p rx ∷ es) =
      (length (batch o p) ≤ 31) × StaysRoomy (Process.step k o (on_round p rx)) es
  StaysRoomy o (on_engage uptime ∷ es) = StaysRoomy (Process.step k o (on_engage uptime)) es
  StaysRoomy o (on_disengage ∷ es) = StaysRoomy (Process.step k o on_disengage) es
  StaysRoomy o (on_command rs ∷ es) = StaysRoomy (Process.step k o (on_command rs)) es
  StaysRoomy o (on_link up ∷ es) = StaysRoomy (Process.step k o (on_link up)) es

  -- No heartbeat waits, and the next number is in range.
  abbrev IsReady : Process S A → Type 0
  IsReady o = All Plain o.outbound × IsU16 o.emitter.seq

  queued :
      (o o' : Process S A) (rs : List Record)
      → IsReady o
      → All Plain rs
      → o'.outbound ≡ o.outbound ++ rs
      → o'.emitter ≡ o.emitter
      → IsReady o'
  queued o o' rs (q, s) plain out same = (
    subst (All Plain) (sym out) (All-append Plain o.outbound rs q plain),
    subst (λ (e : Emitter). IsU16 e.seq) (sym same) s,
  )

  round-IsReady :
      (o : Process S A) (p : Polled) (rx : Option (List ℕ))
      → IsReady o
      → length (batch o p) ≤ 31
      → IsReady (Process.step k o (on_round p rx))
  unfolding Process.step
  round-IsReady o p rx (q, s) room =
      let (emitter, _, _, out) = transport_round-Same o p rx in
      (
        subst (All Plain) (sym out) (left-Plain o p q room),
        subst (λ (e : Emitter). IsU16 e.seq) (sym emitter) (tick-IsU16 o p s),
      )

  wire_beats-beats :
      (o : Process S A) (es : List ProcessEvent)
      → IsReady o
      → All IsPlain es
      → StaysRoomy o es
      → wire_beats o es ≡ beats k o es
  unfolding wire_beats beats beats_of transport_round Process.step
  wire_beats-beats o [] r i room = refl
  wire_beats-beats o (on_round p rx ∷ es) r i room =
      ap₂ (λ (a b : List (ℕ × ℕ)). a ++ b) (round_timed o p i.0 r.0 room.0 r.1)
        (wire_beats-beats (Process.step k o (on_round p rx)) es (round-IsReady o p rx r room.0) i.1
          room.1)
  wire_beats-beats o (on_engage uptime ∷ es) r i room =
      wire_beats-beats (Process.step k o (on_engage uptime)) es
        (queued o (Process.step k o (on_engage uptime)) _ r (engage-Plain uptime o.service) refl
          refl)
        i.1 room
  wire_beats-beats o (on_disengage ∷ es) r i room =
      wire_beats-beats (Process.step k o on_disengage) es
        (queued o (Process.step k o on_disengage) _ r (disengage-Plain k o.files o.service, tt) refl
          refl)
        i.1 room
  wire_beats-beats o (on_command rs ∷ es) r i room =
      wire_beats-beats (Process.step k o (on_command rs)) es
        (queued o (Process.step k o (on_command rs)) rs r i.0 refl refl) i.1 room
  wire_beats-beats o (on_link up ∷ es) r i room =
      wire_beats-beats (Process.step k o (on_link up)) es r i.1 room

  -- Let the records that wait, the commands and what the terminals and audio topics have for the suit fit their slots and be no
  -- heartbeats, the next number of the emitter be one of 16 bits, and no round have more records than fit its frame. Whatever
  -- service calls, commands, link reports and rounds come, in any order and at any times, the heartbeats in the frames, as read
  -- from their bytes, are at least 10 ms apart by the times of their rounds, and the number in the payload of each is the one that
  -- follows the number before, modulo 65536.
  pub wire_beats-AreSpaced :
      (o : Process S A) (es : List ProcessEvent)
      → All Plain o.outbound
      → IsU16 o.emitter.seq
      → All IsPlain es
      → StaysRoomy o es
      → AreSpaced (wire_beats o es)
  wire_beats-AreSpaced o es q s i room =
      subst AreSpaced (sym (wire_beats-beats o es (q, s) i room)) (beats-AreSpaced k o es)
