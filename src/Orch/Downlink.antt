-- ===== src/Orch/Downlink.antt =====
-- main.cpp at the other end of ps_spibridge.c: no record is lost on its way into a frame, and the hub gets what is in it.
use mathlib.Core.List.{Perm, perm_append_comm}
use mathlib.Core.List.Perm
use powersuit.Base.{
  ℕ, zero, suc, ◌+◌, ◌*◌, ◌≤◌, ◌≡◌, refl, sym, ap, subst, ◌∙◌, arith, Bool, false, Option, some,
  List, [], ◌∷◌, ◌++◌, append_assoc, append-nil, length, take, drop, take-append-drop, length-take,
  All, All-append, by_if, not, ◌&&◌, u8, ltb, if◌then◌else◌, inl, inr, Bool-cases,
}
use powersuit.Base.Queue.{Ops, Laws, put_all}
use powersuit.SpiFrame.{Record, frame_build}
use powersuit.SpiFrame.Records.{Fits}
use powersuit.Bridge.{Bridge, handle_rx, flag_more_pending, flag_estop_latched}
use powersuit.Bridge.Flow.{DownIsValid, All-take, handle_rx-frame}
use powersuit.CanId.{t_heartbeat}
use powersuit.Bytes.{wr_u16, wr_u32}
use powersuit.Wire.{Heartbeat}
use powersuit.Wire.SafetyPayloads.{write_heartbeat}
use powersuit.Orch.{Emitter, GateInputs, heartbeat_gate_open, emit_beat, ms_since}
use powersuit.Orch.Stops.{safety_record_type}
use powersuit.Orch.Parser.{Parser, build}
use powersuit.Orch.Process.{
  Process, Polled, tick_heartbeat, batch, listed, healthy, estop_seen, gate_of, src_state, transmit,
}

pub take_all :
    (n : ℕ) (xs : List Record) → ltb n (length xs) ≡ false → (take n xs ≡ xs) × (drop n xs ≡ [])
take_all zero [] e = (refl, refl)
take_all zero (x ∷ xs) e = absurd (ground arith)
take_all (suc n) [] e = (refl, refl)
take_all (suc n) (x ∷ xs) e = let (a, b) = take_all n xs (ground arith) in (ap (λ l. x ∷ l) a, b)

-- The part of the queue that a round does not look at comes back into its place.
regrouped :
    (x a t h d : List Record) → Perm ((x ++ (a ++ (t ++ h))) ++ d) (x ++ (a ++ ((t ++ d) ++ h)))
regrouped x a t h d =
    let inner : (x ++ (a ++ (t ++ h))) ++ d ≡ x ++ (a ++ (t ++ (h ++ d))) =
      append_assoc x (a ++ (t ++ h)) d
      ∙ ap (λ l. x ++ l) (append_assoc a (t ++ h) d ∙ ap (λ l. a ++ l) (append_assoc t h d)) in
    let outer : x ++ (a ++ (t ++ (d ++ h))) ≡ x ++ (a ++ ((t ++ d) ++ h)) =
      ap (λ l. x ++ (a ++ l)) (sym (append_assoc t d h)) in
    subst (λ l. Perm l (x ++ (a ++ ((t ++ d) ++ h)))) (sym inner)
      (subst (λ l. Perm (x ++ (a ++ (t ++ (h ++ d)))) l) outer
        (Perm.append_left x (Perm.append_left a (Perm.append_left t (perm_append_comm h d)))))

module _ {S A : Type 0} where
  -- What goes into the frame of a round.
  abbrev pub sent : Process S A → Polled → List Record
  sent o p = take 31 (batch o p)

  -- All that there is to send in a round.
  abbrev pub offered : Process S A → Polled → List Record
  offered o p = p.xrce ++ (p.audio ++ (o.outbound ++ listed (tick_heartbeat o p).1))

  -- The queue after a round, whether there was an overflow or not.
  pub left_over :
      (o : Process S A) (p : Polled)
      → (transmit o p).0.outbound ≡ drop 31 o.outbound ++ drop 31 (batch o p)
  unfolding transmit
  left_over o p = elim (Bool-cases (ltb 31 (length (batch o p)))) [
    | inl more ↦ rw more refl
    | inr whole ↦ rw whole (
        sym (
          ap (λ l. drop 31 o.outbound ++ l) (take_all 31 (batch o p) whole).1
          ∙ append-nil (drop 31 o.outbound)))
  ]

  -- What is sent and what is left are together what there was to send.
  transmit-Perm :
      (o : Process S A) (p : Polled) → Perm (sent o p ++ (transmit o p).0.outbound) (offered o p)
  unfolding batch
  transmit-Perm o p =
      let b = batch o p in
      let d = drop 31 o.outbound in
      let h = listed (tick_heartbeat o p).1 in
      let start : (take 31 b ++ drop 31 b) ++ d ≡ b ++ d =
        ap (λ l. l ++ d) (take-append-drop 31 b) in
      let whole : Perm (b ++ d) (offered o p) =
        subst (λ l. Perm (b ++ d) (p.xrce ++ (p.audio ++ (l ++ h))))
          (take-append-drop 31 o.outbound) (regrouped p.xrce p.audio (take 31 o.outbound) h d) in
      subst (λ l. Perm (take 31 b ++ l) (offered o p)) (sym (left_over o p))
        (Perm.trans (Perm.append_left (take 31 b) (perm_append_comm d (drop 31 b))) (
          subst (λ l. Perm l (offered o p)) (sym start ∙ append_assoc (take 31 b) (drop 31 b) d)
            whole))

eight_bytes : (hb : Heartbeat) → length (write_heartbeat hb) ≡ 8
unfolding write_heartbeat wr_u16 wr_u32
eight_bytes hb = refl

pub emit_beat-Fits :
    (e : Emitter) (now : ℕ) (g : GateInputs) (up bad : Bool) (st uptime : ℕ)
    → All Fits (listed (emit_beat e now g up bad st uptime).1)
unfolding emit_beat
emit_beat-Fits e now g up bad st uptime =
    by_if (λ (r : Emitter × Option Record). All Fits (listed r.1)) (not (heartbeat_gate_open g)) tt
      (by_if (λ (r : Emitter × Option Record). All Fits (listed r.1))
        (e.have_last_emit && ltb (ms_since e.last_emit now) 10) tt
        (
          (safety_record_type t_heartbeat (u8 e.seq) _ (omega arith) (omega arith)
              (eight_bytes _)).1,
          tt,
        ))

pub build_frame :
    (q : Parser) (flags : ℕ) (rs : List Record) {f : List ℕ × ℕ}
    → frame_build flags q.tx_seq rs ≡ some f
    → (build q flags rs).1 ≡ some f
unfolding build
build_frame q flags rs e = rw (build, e) refl

module _ {S A : Type 0} where
  -- The bits of the header of a round's frame.
  abbrev pub header : Process S A → Polled → ℕ
  header o p =
      (if ltb 31 (length (batch o p)) then flag_more_pending else 0)
      + (if estop_seen o then flag_estop_latched else 0)

  pub transmit_frame :
      (o : Process S A) (p : Polled)
      → (transmit o p).1 ≡ (build o.frame_parser (header o p) (sent o p)).1
  unfolding transmit
  transmit_frame o p = elim (Bool-cases (ltb 31 (length (batch o p)))) [
    | inl more ↦ rw more refl
    | inr whole ↦ (let same = (take_all 31 (batch o p) whole).0 in rw (whole, same) refl)
  ]

module _ {S A : Type 0} {Q : Type 0} (k : Ops Q Record) (l : Laws k) where
  -- Let the records that wait fit their slots, and the hub's queues behave as documented, with a downlink queue for at least one
  -- record. Each round sends a frame of at most 31 records; what it sends and what it leaves in the queue are together, up to their
  -- order, what the terminals, the audio and the queue had and the heartbeat of the round; and the hub's downlink queue then
  -- holds what it held followed by the records of the frame, less the oldest where it is full.
  pub transmit_reaches :
      (b : Bridge Q) (o : Process S A) (p : Polled)
      → DownIsValid k l b
      → All Fits p.xrce
      → All Fits p.audio
      → All Fits o.outbound
      → (length (sent o p) ≤ 31)
        × Perm (sent o p ++ (transmit o p).0.outbound) (offered o p)
        × (buf : List ℕ) × ((transmit o p).1 ≡ some (buf, 8 + length (sent o p) * 16))
        × (l.view (handle_rx k b buf).downlink
            ≡ put_all (l.capacity b.downlink) (l.view b.downlink) (sent o p))
  unfolding tick_heartbeat batch
  transmit_reaches b o p d x a q =
      let few : length (sent o p) ≤ 31 = omega (arith, length-take 31 (batch o p)) in
      let all : All Fits (batch o p) = All-append Fits p.xrce _ x (
        All-append Fits p.audio _ a (
          All-append Fits (take 31 o.outbound) _ (All-take Fits 31 o.outbound q) (
            emit_beat-Fits o.emitter p.now (gate_of o p) o.cloud_up (not (healthy o p.now))
              (src_state o p) p.uptime_ms))) in
      let (buf, built, held) =
        handle_rx-frame k l b (header o p) o.frame_parser.tx_seq (sent o p)
          (All-take Fits 31 (batch o p) all) few d in
      (
        few,
        transmit-Perm o p,
        buf,
        transmit_frame o p ∙ build_frame o.frame_parser (header o p) (sent o p) built,
        held,
      )
