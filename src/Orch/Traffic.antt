-- ===== src/Orch/Traffic.antt =====
-- main.cpp: the heartbeats in the frames of the rounds, and those that wait in the queue. A heartbeat is told by the identifier of
-- a record, and the records of a frame are read from its bytes.
use powersuit.Base.{
  ℕ, zero, suc, ◌+◌, ◌≤◌, ◌≡◌, refl, sym, ap, ◌∙◌, arith, Bool, false, ◌&&◌, Option, none, some,
  List, [], ◌∷◌, ◌++◌, length, length-take, take, drop, take-append-drop, All, All-append,
  if◌then◌else◌, ◌==◌, subst,
}
use powersuit.CanId.{unpack, cls_safety, t_heartbeat}
use powersuit.SpiFrame.{Record, Status, View, ok, frame_parse, view_record}
use powersuit.SpiFrame.Records.{Fits}
use powersuit.SpiFrame.Parse.{parse-build}
use powersuit.Bridge.Flow.{All-take}
use powersuit.Orch.Parser.{read_records}
use powersuit.Orch.Uplink.{read_records-all}
use powersuit.Orch.Process.{
  Process, Polled, batch, listed, tick_heartbeat, transmit, gate_of, src_state,
}
use powersuit.Orch.Downlink.{sent, left_over, transmit_frame, build_frame, header, emit_beat-Fits}

-- The record is a heartbeat of the safety class.
abbrev pub is_beat : Record → Bool
is_beat r = ((unpack r.id).cls == cls_safety) && ((unpack r.id).type == t_heartbeat)

-- How many of the records are heartbeats.
unfoldable pub count_beats : List Record → ℕ
count_beats [] = 0
count_beats (r ∷ rs) = (if is_beat r then 1 else 0) + count_beats rs

pub count_beats-append :
    (xs ys : List Record) → count_beats (xs ++ ys) ≡ count_beats xs + count_beats ys
unfolding count_beats
count_beats-append [] ys = omega arith
count_beats-append (x ∷ xs) ys = let rest = count_beats-append xs ys in omega arith

-- A record that fits its slot and is no heartbeat.
abbrev pub Plain : Record → Type 0
Plain r = Fits r × (is_beat r ≡ false)

pub count_beats-Plain : (rs : List Record) → All Plain rs → (count_beats rs ≡ 0) × All Fits rs
unfolding count_beats
count_beats-Plain [] h = (refl, tt)
count_beats-Plain (r ∷ rs) h =
    let (none_here, fit) = count_beats-Plain rs h.1 in
    let no = h.0.1 in (rw (no, none_here) refl, (h.0.0, fit))

pub All-drop : (P : Record → Type 0) (n : ℕ) (rs : List Record) → All P rs → All P (drop n rs)
All-drop P zero rs h = h
All-drop P (suc n) [] h = tt
All-drop P (suc n) (r ∷ rs) h = All-drop P n rs h.1

-- The records of a view that was accepted.
abbrev records_of : Status × Option View → List Record
records_of (ok, some v) = read_records v v.count 0
records_of _ = []

-- The records that a frame carries, as its bytes give them.
unfoldable pub carried : Option (List ℕ × ℕ) → List Record
carried none = []
carried (some (buf, n)) = records_of (frame_parse buf)

module _ {S A : Type 0} (o : Process S A) (p : Polled) where
  -- The records that come into a round.
  abbrev pub InputIsPlain : Type 0
  InputIsPlain = All Plain p.xrce × All Plain p.audio

  batch-Fits : InputIsPlain → All Fits o.outbound → All Fits (batch o p)
  unfolding batch tick_heartbeat
  batch-Fits (x, a) q = All-append Fits p.xrce _ (count_beats-Plain p.xrce x).1 (
      All-append Fits p.audio _ (count_beats-Plain p.audio a).1 (
        All-append Fits (take 31 o.outbound) _ (All-take Fits 31 o.outbound q)
          (emit_beat-Fits o.emitter p.now (gate_of o p) o.cloud_up _ (src_state o p) p.uptime_ms)))

  -- The frame of a round carries the records that were put into it.
  pub carried-transmit : InputIsPlain → All Fits o.outbound → carried (transmit o p).1 ≡ sent o p
  unfolding carried
  carried-transmit plain q =
      let few : length (sent o p) ≤ 31 = omega (arith, length-take 31 (batch o p)) in
      let (buf, v, built, size, parsed, vf, vc, vs, reads) =
        parse-build (header o p) o.frame_parser.tx_seq (sent o p)
          (All-take Fits 31 (batch o p) (batch-Fits plain q)) few in
      ap carried (transmit_frame o p ∙ build_frame o.frame_parser (header o p) (sent o p) built)
      ∙ ap records_of parsed
      ∙ ap (λ n. read_records v n 0) vc
      ∙ read_records-all v (sent o p) 0
          (λ j r e. subst (λ n. view_record v n ≡ (ok, some r)) (omega arith) (reads j r e))

  -- A round moves heartbeats from the queue to the frame, and adds that of the emitter.
  pub round_beats :
      InputIsPlain
      → All Fits o.outbound
      → count_beats (carried (transmit o p).1) + count_beats (transmit o p).0.outbound
        ≡ count_beats o.outbound + count_beats (listed (tick_heartbeat o p).1)
  unfolding batch
  round_beats plain q =
      let b = batch o p in
      let beat = listed (tick_heartbeat o p).1 in
      let start = take 31 o.outbound in
      omega (
        arith,
        ap count_beats (carried-transmit plain q),
        ap count_beats (left_over o p) ∙ count_beats-append (drop 31 o.outbound) (drop 31 b),
        sym (ap count_beats (take-append-drop 31 b)) ∙ count_beats-append (take 31 b) (drop 31 b),
        sym (ap count_beats (take-append-drop 31 o.outbound))
            ∙ count_beats-append start (drop 31 o.outbound),
        count_beats-append p.xrce (p.audio ++ (start ++ beat)),
        count_beats-append p.audio (start ++ beat),
        count_beats-append start beat,
        (count_beats-Plain p.xrce plain.0).0,
        (count_beats-Plain p.audio plain.1).0,
      )

  pub left-Fits : InputIsPlain → All Fits o.outbound → All Fits (transmit o p).0.outbound
  left-Fits plain q = subst (All Fits) (sym (left_over o p)) (
      All-append Fits (drop 31 o.outbound) _ (All-drop Fits 31 o.outbound q)
        (All-drop Fits 31 (batch o p) (batch-Fits plain q)))
