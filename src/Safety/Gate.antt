-- ===== src/Safety/Gate.antt =====
-- ps_safety_core.c: what it takes to be OPERATIONAL, the one state in which a node actuates.
use powersuit.Base.{ℕ, ◌+◌, ◌^◌, ◌%◌, ◌≤◌, ◌<◌, ◌≡◌, ◌≢◌, ◌⊎◌, arith, true, [], ◌∷◌, IsU32}
use powersuit.Base.Int.{pos, leb_ℤ}
use powersuit.Wire.{standby, operational, passive, Heartbeat, estop_comm_loss}
use powersuit.Safety.{
  Core, Event, heartbeat, timer, heartbeat_ok, streak_ms, cmd_fresh, elapsed, tick, step,
}

-- After a tick a node is OPERATIONAL only if its heartbeat is in time at that tick.
pub tick-operational :
    (c : Core) (now_ms : ℕ)
    → (tick c now_ms).0.state ≡ operational
    → heartbeat_ok (tick c now_ms).0 now_ms ≡ true
unfolding tick
tick-operational c now_ms h = ground arith

-- What a node must have seen before it may leave STANDBY or PASSIVE for OPERATIONAL.
pub record Ready (c : Core) (now_ms : ℕ) : Type 0 where
  pub wanted : c.want_operational ≡ true
  pub beating : heartbeat_ok c now_ms ≡ true
  pub from :
      (c.state ≡ standby)
      ⊎ ((c.state ≡ passive)
          × (leb_ℤ (pos 250) (streak_ms c now_ms) ≡ true)
          × (leb_ℤ (pos 0) (elapsed c.last_cmd_ms c.hb_streak_start_ms) ≡ true)
          × (cmd_fresh c now_ms ≡ true))

-- Of all events only a tick makes a node OPERATIONAL that was not: OPERATIONAL has been asked for,
-- the heartbeat is in time, and from PASSIVE the beats have come for 250 ms and a fresh command
-- has arrived since they began.
pub energise_needs :
    (c : Core) (now_ms : ℕ) (e : Event)
    → c.state ≢ operational
    → (step c now_ms e).0.state ≡ operational
    → (e ≡ timer) × Ready c now_ms
unfolding step
energise_needs c now_ms e n h = ground arith

-- A node that is OPERATIONAL, has its callback registered, hears a new beat without the latch flag at time `t`, and is ticked
-- `k` ms later stays OPERATIONAL up to 50 ms and is PASSIVE from 51 ms on, up to the 2^31 ms where
-- the clock difference turns negative; the trip is reported as a loss of communication. The round at 50 ms itself, where the
-- documents want the trip already, still leaves the node OPERATIONAL.
pub deadman_window :
    (c : Core) (hb : Heartbeat) (t k : ℕ)
    → c.state ≡ operational
    → c.on_transition ≡ true
    → c.last_hb_seq ≢ hb.seq
    → hb.flags % 2 ≡ 0
    → IsU32 t
    → k < 2 ^ 31
    → let out = tick (step c t (heartbeat hb)).0 ((t + k) % 2 ^ 32) in
      (k ≤ 50 → out.0.state ≡ operational)
      × (50 < k
          → (out.0.state ≡ passive)
            × (out.1 ≡ record { old = operational; new = passive; cause = estop_comm_loss } ∷ []))
unfolding step tick elapsed
deadman_window c hb t k s r q f ht hk = ground arith
