-- ===== src/Safety/Clock.antt =====
-- ps_safety_core.c: the three time windows, as ranges of the wrapped difference of two readings.
use powersuit.Base.{ℕ, ◌^◌, ◌≤◌, ◌<◌, ◌≡◌, ◌⊎◌, ◌↔◌, arith, true, sub32}
use powersuit.Safety.{Core, elapsed, heartbeat_ok, cmd_fresh}

-- The age of a reading, as the code computes it before the cast to `int32_t`.
abbrev pub age : ℕ → ℕ → ℕ
age now_ms then_ms = sub32 now_ms then_ms

-- A heartbeat is in time exactly when there is one, and its age is at most 50 ms or has passed
-- 2^31 ms, where the cast turns negative.
pub heartbeat_ok_iff :
    (c : Core) (now_ms : ℕ)
    → (heartbeat_ok c now_ms ≡ true)
      ↔ ((c.have_hb ≡ true) × ((age now_ms c.last_hb_ms ≤ 50) ⊎ (2 ^ 31 ≤ age now_ms c.last_hb_ms)))
unfolding heartbeat_ok elapsed
heartbeat_ok_iff c now_ms = ground arith

-- A command is fresh exactly when its age is below 200 ms or has passed 2^31 ms: a command that is
-- 24.8 days old counts as fresh.
pub cmd_fresh_iff :
    (c : Core) (now_ms : ℕ)
    → (cmd_fresh c now_ms ≡ true)
      ↔ ((age now_ms c.last_cmd_ms < 200) ⊎ (2 ^ 31 ≤ age now_ms c.last_cmd_ms))
unfolding cmd_fresh elapsed
cmd_fresh_iff c now_ms = ground arith
