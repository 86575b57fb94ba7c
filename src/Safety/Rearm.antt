-- ===== src/Safety/Rearm.antt =====
-- ps_safety_core.c: the way out of an emergency stop, and that steady beats do lead out.
use powersuit.Base.{
  ℕ, ◌+◌, ◌^◌, ◌≤◌, ◌<◌, ◌≡◌, ◌≢◌, arith, true, List, [], ◌∷◌, ◌++◌, u16, IsU16, All,
}
use powersuit.Base.Int.{pos, leb_ℤ}
use powersuit.Wire.{standby, estop}
use powersuit.Safety.{Core, Event, heartbeat, timer, elapsed, heartbeat_ok, streak_ms, step, run}

-- A stopped node leaves ESTOP only at a tick, for STANDBY, after a clear was accepted, with the
-- heartbeat in time and a streak of at least 1000 ms.
pub release_needs :
    (c : Core) (t : ℕ) (e : Event)
    → c.state ≡ estop
    → (step c t e).0.state ≢ estop
    → (e ≡ timer)
      × ((step c t e).0.state ≡ standby)
      × (c.estop_cause ≡ 0)
      × (heartbeat_ok c t ≡ true)
      × (leb_ℤ (pos 1000) (streak_ms c t) ≡ true)
unfolding step
release_needs c t e h n = ground arith

abbrev pub total : List ℕ → ℕ
total [] = 0
total (g ∷ gs) = g + total gs

-- Beats without flags, each `g` ms after the one before it and with the next sequence number.
abbrev pub beats : ℕ → ℕ → List ℕ → List (ℕ × Event)
beats seq t [] = []
beats seq t (g ∷ gs) =
    (t + g, heartbeat (record { seq = u16 (seq + 1); flags = 0; src_state = 0; uptime_ms = t + g }))
    ∷ beats (u16 (seq + 1)) (t + g) gs

-- Stopped and cleared, `t` being the time of the last beat and `t₀` that of the first.
pub record Waiting (t₀ t seq : ℕ) (c : Core) : Type 0 where
  pub stopped : c.state ≡ estop
  pub cleared : c.estop_cause ≡ 0
  pub beating : c.have_hb ≡ true
  pub start : c.hb_streak_start_ms ≡ t₀
  pub last : c.last_hb_ms ≡ t
  pub number : c.last_hb_seq ≡ seq
  pub small : IsU16 seq

beat-Waiting :
    {t₀ t seq : ℕ} (c : Core) (g : ℕ)
    → Waiting t₀ t seq c
    → g ≤ 50
    → t + g < 2 ^ 32
    → Waiting t₀
        (t + g)
        (u16 (seq + 1))
        (step c (t + g) (
          heartbeat
            (record { seq = u16 (seq + 1); flags = 0; src_state = 0; uptime_ms = t + g }))).0
unfolding step elapsed
beat-Waiting c g w h k = ground arith

-- The tick at the last beat, once the streak has lasted.
tick_releases :
    {t₀ t seq : ℕ} (c : Core)
    → Waiting t₀ t seq c
    → t₀ + 1000 ≤ t
    → t < t₀ + 2 ^ 31
    → t < 2 ^ 32
    → (step c t timer).0.state ≡ standby
unfolding step elapsed
tick_releases c w a b d = ground arith

-- A node that has been cleared returns to STANDBY when beats come at gaps of at most 50 ms until
-- the streak has lasted 1000 ms and it is ticked then, with no overflow of the clock on the way. The streak may have begun
-- before the clear, where the documents want beats after it.
pub release_happens :
    (gs : List ℕ) {t₀ t seq : ℕ} (c : Core)
    → Waiting t₀ t seq c
    → All (λ g. g ≤ 50) gs
    → t₀ + 1000 ≤ t + total gs
    → t + total gs < t₀ + 2 ^ 31
    → t + total gs < 2 ^ 32
    → (run c (beats seq t gs ++ (t + total gs, timer) ∷ [])).0.state ≡ standby
unfolding run
release_happens [] {t = t} c w small long bound fits =
    let e : t + 0 ≡ t = omega arith in
    rw e (tick_releases c w (omega arith) (omega arith) (omega arith))
release_happens (g ∷ gs) {t = t} c w small long bound fits =
    let e : t + (g + total gs) ≡ t + g + total gs = omega arith in
    rw e (
      release_happens gs _ (beat-Waiting c g w small.0 (omega arith)) small.1 (omega arith)
        (omega arith) (omega arith))
