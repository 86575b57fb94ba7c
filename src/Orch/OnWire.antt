-- ===== src/Orch/OnWire.antt =====
-- main.cpp and estop_service.cpp: the records in the frames of a run, and how the heartbeats among them are accounted for.
use powersuit.Base.{
  ℕ, zero, suc, ◌+◌, ◌≡◌, refl, sym, ap, subst, ◌∙◌, arith, false, Option, none, List, [], ◌∷◌,
  ◌++◌, ◌&&◌, u16, All, All-append, length, ◌==◌, IsByte,
}
use powersuit.CanId.{
  CanId, cls_safety, node_orch, node_broadcast, t_heartbeat, t_estop, t_clear_estop,
}
use powersuit.CanId.Layout.{unpack-pack}
use powersuit.Bytes.{wr_u16, wr_u32}
use powersuit.Wire.SafetyPayloads.{write_estop, write_clear_estop}
use powersuit.SpiFrame.{Record}
use powersuit.SpiFrame.Records.{Fits}
use powersuit.Orch.{Files, Service, safety_record, engage, stop_records, disengage}
use powersuit.Orch.Stops.{safety_record_type}
use powersuit.Orch.Process
use powersuit.Orch.Process.{
  Process, ProcessEvent, listed, tick_heartbeat, transmit, transport_round, on_engage, on_disengage,
  on_command, on_link, on_round, run,
}
use powersuit.Orch.Beats.{transport_round-Same}
use powersuit.Orch.Traffic.{
  is_beat, count_beats, count_beats-append, count_beats-Plain, Plain, carried, round_beats,
  left-Fits,
}

-- A record of the orchestrator's safety class is a heartbeat if its type says so.
pub is_beat-safety_record :
    (type low : ℕ) (payload : List ℕ)
    → IsByte type
    → IsByte low
    → is_beat (safety_record type low payload) ≡ (type == t_heartbeat)
is_beat-safety_record type low payload t l =
    let f : CanId = record {
      cls = cls_safety;
      src = node_orch;
      dst = node_broadcast;
      type = type;
      low = low;
    } in
    let same =
      (unpack-pack f (record {
        cls = omega arith;
        src = omega arith;
        dst = omega arith;
        type = t;
        low = l;
      })).0 in
    ap (λ (i : CanId). (i.cls == cls_safety) && (i.type == t_heartbeat)) same

safety_record-Plain :
    (type low : ℕ) (payload : List ℕ)
    → IsByte type
    → IsByte low
    → length payload ≡ 8
    → (type == t_heartbeat) ≡ false
    → Plain (safety_record type low payload)
safety_record-Plain type low payload t l eight other = (
  (safety_record_type type low payload t l eight).1,
  is_beat-safety_record type low payload t l ∙ other,
)

stop_records-Plain :
    {A : Type 0} (n : ℕ) (uptime : ℕ → ℕ) (v : Service A) → All Plain (stop_records n uptime v).1
unfolding stop_records write_estop wr_u16 wr_u32
stop_records-Plain zero uptime v = tt
stop_records-Plain (suc n) uptime v = (
  safety_record-Plain t_estop _ _ (omega arith) (omega arith) refl refl,
  stop_records-Plain n uptime (record v { seq = u16 (v.seq + 1) }),
)

pub engage-Plain : {A : Type 0} (uptime : ℕ → ℕ) (v : Service A) → All Plain (engage uptime v).1
unfolding engage
engage-Plain uptime v = stop_records-Plain 3 uptime v

pub disengage-Plain :
    {S A : Type 0} (k : Files S A) (s : S) (v : Service A) → Plain (disengage k s v).2
unfolding disengage write_clear_estop wr_u32
disengage-Plain k s v = safety_record-Plain t_clear_estop 0 _ (omega arith) (omega arith) refl refl

-- The commands of an event, and what a round gets from the terminals and the audio topics, fit their slots and are no heartbeats.
abbrev pub IsPlain : ProcessEvent → Type 0
IsPlain (on_engage uptime) = Unit {0}
IsPlain on_disengage = Unit {0}
IsPlain (on_command rs) = All Plain rs
IsPlain (on_link up) = Unit {0}
IsPlain (on_round p rx) = All Plain p.xrce × All Plain p.audio

module _ {S A : Type 0} (k : Files S A) where
  -- The records in the frame of an event.
  unfoldable pub frame_records : Process S A → ProcessEvent → List Record
  frame_records o (on_round p rx) = carried (transport_round o p rx).1
  frame_records o _ = []

  -- The records in the frames of a run.
  unfoldable pub on_wire : Process S A → List ProcessEvent → List Record
  unfolding frame_records
  on_wire o [] = []
  on_wire o (e ∷ es) = frame_records o e ++ on_wire (Process.step k o e) es

  -- The heartbeat of an event.
  abbrev pub beat_of : Process S A → ProcessEvent → Option Record
  beat_of o (on_round p rx) = (tick_heartbeat o p).1
  beat_of o _ = none

  -- No heartbeat is lost or doubled by an event, and the records that wait still fit.
  abbrev Accounts : Process S A → ProcessEvent → Type 0
  Accounts o e =
      All Fits (Process.step k o e).outbound
      × (count_beats (frame_records o e) + count_beats (Process.step k o e).outbound
          ≡ count_beats o.outbound + count_beats (listed (beat_of o e)))

  -- The event puts these records into the queue.
  Accounts-queued :
      (q rs : List Record)
      → All Fits q
      → All Plain rs
      → All Fits (q ++ rs)
        × (count_beats [] + count_beats (q ++ rs) ≡ count_beats q + count_beats [])
  unfolding count_beats
  Accounts-queued q rs fit plain =
      let (no_beat, fits) = count_beats-Plain rs plain in
      (All-append Fits q rs fit fits, omega (arith, count_beats-append q rs, no_beat))

  pub step-Accounts :
      (o : Process S A) (e : ProcessEvent) → IsPlain e → All Fits o.outbound → Accounts o e
  unfolding Process.step frame_records transport_round count_beats
  step-Accounts o (on_engage uptime) i q =
      Accounts-queued o.outbound _ q (engage-Plain uptime o.service)
  step-Accounts o on_disengage i q =
      Accounts-queued o.outbound _ q (disengage-Plain k o.files o.service, tt)
  step-Accounts o (on_command rs) i q = Accounts-queued o.outbound rs q i
  step-Accounts o (on_link up) i q = (q, omega arith)
  step-Accounts o (on_round p rx) i q =
      let (_, _, _, left) = transport_round-Same o p rx in
      (
        subst (All Fits) (sym left) (left-Fits o p i q),
        ap (λ l. count_beats (carried (transmit o p).1) + count_beats l) left ∙ round_beats o p i q,
      )
