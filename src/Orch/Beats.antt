-- ===== src/Orch/Beats.antt =====
-- heartbeat.cpp and main.cpp: when the emitter gives a heartbeat, and what a round leaves as it was.
use powersuit.Base.{
  ℕ, ◌+◌, ◌-◌, ◌/◌, ◌≤◌, ◌≡◌, refl, sym, subst, ◌∙◌, arith, by_if, Bool-cases, inl, inr, ◌⊎◌, ◌≢◌,
  Bool, true, false, ◌&&◌, Option, none, some, List, [], ◌∷◌, ◌++◌, ltb, ◌==◌, u16,
}
use powersuit.CanId.{
  unpack, cls_safety, cls_telem, cls_xrce, cls_audio, cls_mgmt, t_estop, t_clear_estop,
  t_node_fault,
}
use powersuit.SpiFrame.{Record}
use powersuit.Orch.{Emitter, Files, emit_beat, GateInputs, ms_since, heartbeat_gate_open}
use powersuit.Orch.Parser.{ParseResult, k_ok, k_idle, k_error, parse}
use powersuit.Orch.Process
use powersuit.Orch.Process.{
  Process, Polled, ProcessEvent, tick_heartbeat, healthy, estop_seen, gate_of, Handed, run,
  transmit, receive, transport_round, dispatch, dispatch_all, take_result, on_engage, on_disengage,
  on_command, on_link, on_round,
}

-- The time and the sequence number of a heartbeat that the emitter gives.
abbrev pub given : ℕ → Emitter → Option Record → List (ℕ × ℕ)
given now e none = []
given now e (some r) = (now, e.seq) ∷ []

-- The later of two heartbeats comes 10 ms after the other or more, with the next sequence number.
abbrev Follow : ℕ → ℕ → List (ℕ × ℕ) → Type 0
Follow t s [] = Unit {0}
Follow t s ((t', s') ∷ bs) = (t + 10000000 ≤ t') × (s' ≡ u16 (s + 1)) × Follow t' s' bs

abbrev pub AreSpaced : List (ℕ × ℕ) → Type 0
AreSpaced [] = Unit {0}
AreSpaced ((t, s) ∷ bs) = Follow t s bs

-- The emitter after a heartbeat at `t` with number `s`.
abbrev Gave : ℕ → ℕ → Emitter → Type 0
Gave t s e = (e.have_last_emit ≡ true) × (e.last_emit ≡ t) × (e.seq ≡ u16 (s + 1))

-- What the emitter does: nothing, or it gives a heartbeat through an open gate, 10 ms after the last or more.
abbrev Gives : Emitter → ℕ → GateInputs → Emitter × Option Record → Type 0
Gives e now gate r =
    ((r.1 ≡ none) × (r.0 ≡ e))
    ⊎ ((heartbeat_gate_open gate ≡ true)
        × Gave now e.seq r.0
        × (e.have_last_emit ≡ true → e.last_emit + 10000000 ≤ now)
        × (r.1 ≢ none))

late : (past now : ℕ) → ltb ((now - past) / 1000000) 10 ≡ false → past + 10000000 ≤ now
late past now h = ground arith

emit_beat-Gives :
    (e : Emitter) (now : ℕ) (gate : GateInputs) (up bad : Bool) (st uptime : ℕ)
    → Gives e now gate (emit_beat e now gate up bad st uptime)
unfolding emit_beat
emit_beat-Gives e now gate up bad st uptime = elim (Bool-cases (heartbeat_gate_open gate)) [
  | inr shut ↦ rw shut (inl (refl, refl))
  | inl opened ↦
      rw opened (elim (Bool-cases (e.have_last_emit && ltb (ms_since e.last_emit now) 10)) [
        | inl soon ↦ rw soon (inl (refl, refl))
        | inr due ↦ rw due (
            inr (
              refl,
              (refl, refl, refl),
              λ on.
                  late e.last_emit now
                    (subst (λ b. (b && ltb (ms_since e.last_emit now) 10) ≡ false) on due),
              λ q. cc,
            ))
      ])
]

-- A heartbeat or none, and then the others.
Follow-given :
    (e : Emitter) (now : ℕ) (gate : GateInputs) (r : Emitter × Option Record) (t s : ℕ)
    (rest : List (ℕ × ℕ))
    → Gives e now gate r
    → Gave t s e
    → ((t' s' : ℕ) → Gave t' s' r.0 → Follow t' s' rest)
    → Follow t s (given now e r.1 ++ rest)
Follow-given e now gate (e', none) t s rest (inl (_, same)) g next =
    next t s (subst (Gave t s) (sym same) g)
Follow-given e now gate (e', none) t s rest (inr (_, _, _, some_beat)) g next =
    absurd (some_beat refl)
Follow-given e now gate (e', some r) t s rest (inl (no_beat, _)) g next = cc
Follow-given e now gate (e', some r) t s rest (inr (_, gave, due, _)) g next =
    (subst (λ l. l + 10000000 ≤ now) g.1 (due g.0), g.2, next now e.seq gave)

AreSpaced-given :
    (e : Emitter) (now : ℕ) (gate : GateInputs) (r : Emitter × Option Record) (rest : List (ℕ × ℕ))
    → Gives e now gate r
    → AreSpaced rest
    → ((t' s' : ℕ) → Gave t' s' r.0 → Follow t' s' rest)
    → AreSpaced (given now e r.1 ++ rest)
AreSpaced-given e now gate (e', none) rest g spaced next = spaced
AreSpaced-given e now gate (e', some r) rest (inl (no_beat, _)) spaced next = cc
AreSpaced-given e now gate (e', some r) rest (inr (_, gave, _, _)) spaced next = next now e.seq gave

module _ {S A : Type 0} where
  tick_heartbeat-Gives :
      (o : Process S A) (p : Polled) → Gives o.emitter p.now (gate_of o p) (tick_heartbeat o p)
  unfolding tick_heartbeat
  tick_heartbeat-Gives o p =
      emit_beat-Gives o.emitter p.now (gate_of o p) o.cloud_up _ _ p.uptime_ms

  -- The received records leave the emitter and the service as they are.
  abbrev Same : Process S A → Process S A → Type 0
  Same o o' =
      (o'.emitter ≡ o.emitter)
      × (o'.service ≡ o.service)
      × (o'.files ≡ o.files)
      × (o'.outbound ≡ o.outbound)

  -- What the records that are received may change: no test of the loop leads to more.
  pub by_class :
      (P : Process S A × List Handed → Type 0) (o : Process S A) (r : Record)
      → ((hs : List Handed) → P (o, hs))
      → P (record o { external_latched = true }, [])
      → (((unpack r.id).cls == cls_safety) && ((unpack r.id).type == t_clear_estop) ≡ true
          → P (record o { external_latched = false }, []))
      → P (dispatch o r)
  unfolding dispatch
  by_class P o r same stop clear = by_if P ((unpack r.id).cls == cls_telem) (same _) (
      by_if P ((unpack r.id).cls == cls_xrce) (same _) (
        by_if P ((unpack r.id).cls == cls_audio) (same _)
          (elim (Bool-cases ((unpack r.id).cls == cls_safety)) [
            | inr no_safety ↦
                rw no_safety (by_if P ((unpack r.id).cls == cls_mgmt) (same _) (same _))
            | inl safety ↦ rw safety (
                by_if P ((unpack r.id).type == t_estop) stop
                  (elim (Bool-cases ((unpack r.id).type == t_clear_estop)) [
                    | inl cleared ↦ rw cleared (clear (rw (safety, cleared) refl))
                    | inr other ↦
                        rw other (by_if P ((unpack r.id).type == t_node_fault) (same _) (same _))
                  ]))
          ])))

  dispatch_all-Same : (o : Process S A) (rs : List Record) → Same o (dispatch_all o rs).0
  unfolding dispatch_all
  dispatch_all-Same o [] = (refl, refl, refl, refl)
  dispatch_all-Same o (r ∷ rs) =
      let (a, b, e, g) = dispatch_all-Same (dispatch o r).0 rs in
      let (c, d, f, h) =
        by_class (λ (x : Process S A × List Handed). Same o x.0) o r
          (λ hs. (refl, refl, refl, refl)) (refl, refl, refl, refl)
          (λ q. (refl, refl, refl, refl)) in
      (a ∙ c, b ∙ d, e ∙ f, g ∙ h)

  receive-Same : (o : Process S A) (now : ℕ) (rx : Option (List ℕ)) → Same o (receive o now rx).0
  unfolding receive
  receive-Same o now none = (refl, refl, refl, refl)
  receive-Same o now (some buf) = taken (parse o.frame_parser buf).1
    where
      taken :
          (res : ParseResult)
          → Same o
              (take_result (record o { frame_parser = (parse o.frame_parser buf).0 }) now res).0
      taken k_error = unfold take_result in (refl, refl, refl, refl)
      taken k_idle = unfold take_result in (refl, refl, refl, refl)
      taken (k_ok rs flags seq) =
          unfold take_result in
          dispatch_all-Same
            (record o { frame_parser = (parse o.frame_parser buf).0; last_good_frame = now }) rs

  pub transport_round-Same :
      (o : Process S A) (p : Polled) (rx : Option (List ℕ))
      → ((transport_round o p rx).0.emitter ≡ (tick_heartbeat o p).0)
        × ((transport_round o p rx).0.service ≡ o.service)
        × ((transport_round o p rx).0.files ≡ o.files)
        × ((transport_round o p rx).0.outbound ≡ (transmit o p).0.outbound)
  unfolding transport_round transmit
  transport_round-Same o p rx = receive-Same (transmit o p).0 p.now rx

  -- The records that a round receives.
  unfoldable pub received : Process S A → Option (List ℕ) → List Record
  received o none = []
  received o (some buf) = elim ((parse o.frame_parser buf).1) [
    | k_ok rs flags seq ↦ rs
    | k_idle ↦ []
    | k_error ↦ []
  ]

  -- The heartbeats of an event.
  unfoldable pub beats_of : Process S A → ProcessEvent → List (ℕ × ℕ)
  beats_of o (on_round p rx) = given p.now o.emitter (tick_heartbeat o p).1
  beats_of o (on_engage uptime) = []
  beats_of o on_disengage = []
  beats_of o (on_command rs) = []
  beats_of o (on_link up) = []

module _ {S A : Type 0} (k : Files S A) where
  -- The heartbeats of a run, in their order, by the fields of the emitter; Orch.Spacing has those in the frames.
  unfoldable pub beats : Process S A → List ProcessEvent → List (ℕ × ℕ)
  unfolding beats_of
  beats o [] = []
  beats o (e ∷ es) = beats_of o e ++ beats (Process.step k o e) es

  follows :
      (o : Process S A) (es : List ProcessEvent) (t s : ℕ)
      → Gave t s o.emitter
      → Follow t s (beats o es)
  unfolding beats beats_of Process.step
  follows o [] t s g = tt
  follows o (on_round p rx ∷ es) t s g =
      let o' = (transport_round o p rx).0 in
      Follow-given o.emitter p.now (gate_of o p) (tick_heartbeat o p) t s (beats o' es)
        (tick_heartbeat-Gives o p) g
        (λ t' s' g'.
          follows o' es t' s' (subst (Gave t' s') (sym (transport_round-Same o p rx).0) g'))
  follows o (on_engage uptime ∷ es) t s g = follows (Process.step k o (on_engage uptime)) es t s g
  follows o (on_disengage ∷ es) t s g = follows (Process.step k o on_disengage) es t s g
  follows o (on_command rs ∷ es) t s g = follows (Process.step k o (on_command rs)) es t s g
  follows o (on_link up ∷ es) t s g = follows (Process.step k o (on_link up)) es t s g

  -- Whatever service calls, commands, link reports and rounds of the transport thread come, in any order and at any times, each
  -- heartbeat that the emitter gives comes at least 10 ms after the one before, and its field for the number is then one further
  -- on, modulo 65536.
  pub beats-AreSpaced : (o : Process S A) (es : List ProcessEvent) → AreSpaced (beats o es)
  unfolding beats beats_of Process.step
  beats-AreSpaced o [] = tt
  beats-AreSpaced o (on_round p rx ∷ es) =
      let o' = (transport_round o p rx).0 in
      AreSpaced-given o.emitter p.now (gate_of o p) (tick_heartbeat o p) (beats o' es)
        (tick_heartbeat-Gives o p) (beats-AreSpaced o' es)
        (λ t s g. follows o' es t s (subst (Gave t s) (sym (transport_round-Same o p rx).0) g))
  beats-AreSpaced o (on_engage uptime ∷ es) =
      beats-AreSpaced (Process.step k o (on_engage uptime)) es
  beats-AreSpaced o (on_disengage ∷ es) = beats-AreSpaced (Process.step k o on_disengage) es
  beats-AreSpaced o (on_command rs ∷ es) = beats-AreSpaced (Process.step k o (on_command rs)) es
  beats-AreSpaced o (on_link up ∷ es) = beats-AreSpaced (Process.step k o (on_link up)) es
