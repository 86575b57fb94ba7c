-- ===== src/Bms/Task.antt =====
-- bms_task.c: one round of `bms_task`.
use powersuit.Base.{ℕ, ◌+◌, Bool, List, [], ◌++◌, u32, if◌then◌else◌}
use powersuit.Bms.{Bms, Act, Times}
use powersuit.Bms.Trip.{check_thresholds}
use powersuit.Bms.Short.{handle_short_trip, Pins, try_rearm}
use powersuit.Bms.Sense.{Scale, Reading, sample_fast, slow_slot}
use powersuit.Bms.Report.{Sources, reports}

-- What a round meets: the notification, the clock in each part, the converter, the sources of the
-- reports, the pins.
pub record Inputs : Type 0 where
  pub notified : Bool
  pub short_times : Times
  pub reading : Reading
  pub check_times : ℕ → Times
  pub sources : Sources
  pub rearm_times : Times
  pub pins : Pins

-- The start of a round: the latch, the tick and the samples.
unfoldable pub sampled : Bms → Scale → Inputs → Bms × List Act
unfolding handle_short_trip sample_fast slow_slot
sampled s k i =
    let (s1, a1) = if i.notified then handle_short_trip s i.short_times else (s, []) in
    let s2 = sample_fast (record s1 { tick = u32 (s1.tick + 1) }) k i.reading in
    let (s3, a3) = slow_slot s2 k i.reading in (s3, a1 ++ a3)

-- The body of the loop of `bms_task`.
unfoldable pub round : Bms → Scale → Inputs → Bms × List Act
unfolding sampled check_thresholds reports try_rearm
round s k i =
    let (s1, a1) = sampled s k i in
    let (s2, a2) = check_thresholds s1 i.check_times in
    let (s3, a3) = reports s2 i.sources in
    let (s4, a4) = try_rearm s3 i.rearm_times i.pins in (s4, a1 ++ (a2 ++ (a3 ++ a4)))
