-- ===== src/Examples/SafetyCases.antt =====
-- The safety core on concrete nodes.
use powersuit.Base.{
  ℕ, ◌+◌, ◌%◌, ◌^◌, ◌≤◌, ◌<◌, ◌≡◌, ◌≢◌, ◌⊎◌, inr, refl, arith, true, List, [], ◌∷◌, ◌++◌, All,
}
use powersuit.Base.Int.{pos, leb_ℤ}
use powersuit.Wire.{
  State, standby, operational, passive, estop, Heartbeat, clear_estop_magic, estop_comm_loss,
}
use powersuit.Safety.{
  Core, Event, heartbeat, clear, timer, heartbeat_ok, cmd_fresh, streak_ms, step, run, tick,
  elapsed,
}
use powersuit.Safety.Gate.{Ready, energise_needs, deadman_window}
use powersuit.Safety.Edges.{Edge, step-Edge}
use powersuit.Safety.Latch.{IsLatched, run-IsLatched}
use powersuit.Safety.Rearm.{release_needs, release_happens, beats, total}

-- A node that runs, that waits for its first command, and two that are stopped.
abbrev node : State → ℕ → Core
node s cause = record {
  state = s;
  estop_cause = cause;
  last_hb_seq = 7;
  last_hb_ms = 1000;
  hb_streak_start_ms = 0;
  last_cmd_ms = 990;
  clear_counter = 3;
  estop_since_ms = 0;
  have_hb = true;
  want_operational = true;
  on_transition = true;
}

abbrev running : Core
running = node operational 0

abbrev stopped : Core
stopped = node estop 4

abbrev cleared : Core
cleared = node estop 0

abbrev beat : ℕ → Heartbeat
beat seq = record { seq = seq; flags = 0; src_state = 2; uptime_ms = 5 }

-- A replayed clear, a beat and a tick.
abbrev night : List (ℕ × Event)
night = (2000, clear clear_estop_magic 3) ∷ (2010, heartbeat (beat 8)) ∷ (2020, timer) ∷ []

run-IsLatched_example : IsLatched (run stopped night).0 × ((run stopped night).0.estop_cause ≡ 4)
run-IsLatched_example =
    run-IsLatched night stopped (record { stopped = refl; because = omega arith })
      (inr (omega arith), (tt, (tt, tt)))

deadman_window_example :
    let out = tick (step running 1040 (heartbeat (beat 8))).0 ((1040 + 51) % 2 ^ 32) in
    (51 ≤ 50 → out.0.state ≡ operational)
    × (50 < 51
        → (out.0.state ≡ passive)
          × (out.1 ≡ record { old = operational; new = passive; cause = estop_comm_loss } ∷ []))
deadman_window_example =
    deadman_window running (beat 8) 1040 51 refl refl (omega arith) (omega arith) (omega arith)
      (omega arith)

becomes_operational : (step (node passive 0) 1010 timer).0.state ≡ operational
unfolding step heartbeat_ok streak_ms cmd_fresh elapsed
becomes_operational = refl

passive-ne : passive ≢ operational
passive-ne e = ground arith

energise_needs_example : (timer ≡ timer) × Ready (node passive 0) 1010
energise_needs_example = energise_needs (node passive 0) 1010 timer passive-ne becomes_operational

step-Edge_example :
    ((step running 2000 timer).0.state ≡ operational)
    ⊎ Edge operational timer (step running 2000 timer).0.state
step-Edge_example = step-Edge running 2000 timer

-- Twenty beats, 50 ms apart.
abbrev gaps : List ℕ
gaps =
    50 ∷ 50 ∷ 50 ∷ 50 ∷ 50 ∷ 50 ∷ 50 ∷ 50 ∷ 50 ∷ 50 ∷ 50 ∷ 50 ∷ 50 ∷ 50 ∷ 50 ∷ 50 ∷ 50 ∷ 50 ∷ 50
    ∷ 50 ∷ []

abbrev begun : Core
begun = record cleared { hb_streak_start_ms = 1000 }

gaps-All : All (λ g. g ≤ 50) gaps
gaps-All = ground arith

release_happens_example :
    (run begun (beats 7 1000 gaps ++ (1000 + total gaps, timer) ∷ [])).0.state ≡ standby
release_happens_example =
    release_happens gaps begun
      (record {
        stopped = refl;
        cleared = refl;
        beating = refl;
        start = refl;
        last = refl;
        number = refl;
        small = omega arith;
      })
      gaps-All (omega arith) (omega arith) (omega arith)

is_released : (step cleared 1010 timer).0.state ≡ standby
unfolding step heartbeat_ok streak_ms elapsed
is_released = refl

standby-ne : (s : State) → s ≡ standby → s ≢ estop
standby-ne s e q = ground arith

release_needs_example :
    (timer ≡ timer)
    × ((step cleared 1010 timer).0.state ≡ standby)
    × (cleared.estop_cause ≡ 0)
    × (heartbeat_ok cleared 1010 ≡ true)
    × (leb_ℤ (pos 1000) (streak_ms cleared 1010) ≡ true)
release_needs_example = release_needs cleared 1010 timer refl (standby-ne _ is_released)
