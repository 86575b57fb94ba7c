-- ===== src/Examples/PackCases.antt =====
-- The battery task on a current that stays too high, and on the way back from a trip.
use powersuit.Base.{
  ℕ, zero, suc, ◌*◌, ◌≤◌, ◌≡◌, refl, sym, subst, arith, ◌∙◌, Bool, true, false, inr, none, some,
  length, replicate,
}
use powersuit.Base.Int.{ℤ, pos}
use powersuit.Wire.{State, standby, operational}
use powersuit.Safety
use powersuit.Safety.Latch.{IsLatched}
use powersuit.Gateway.{Gateway}
use powersuit.Gateway.Dispatch.{flag_after}
use powersuit.Bms.{Bms, Times, CanStats, SpibStats}
use powersuit.Bms.Sense.{Scale, sample_fast, slow_slot, read_slot}
use powersuit.Bms.Task.{Inputs, sampled, round}
use powersuit.Bms.Family.{deb_of, trip_of, IsSized}
use powersuit.Bms.Critical.{Fam, index, cause_of, discharge, ◌<ℤ◌}
use powersuit.Bms.Rounds.{round-Turn, sampled_lem}
use powersuit.Bms.Interlock.{MayRearm, round_rearm}
use powersuit.Bms.Debounce.{rounds, AllBad, NeverRearms, sustained_trips}
use powersuit.Bms.Onset.{BadStretch, trip_needs}
use powersuit.Bms.Escalation.{Announced, round_announces}
use powersuit.Bms.Mirror.{hear, trip_latches}

abbrev no_frames : CanStats
no_frames = record {
  rx_frames = 0;
  tx_frames = 0;
  rx_dropped = 0;
  tx_timeouts = 0;
  bus_errors = 0;
  recoveries = 0;
}

abbrev no_transfers : SpibStats
no_transfers = record {
  transactions = 0;
  crc_errors = 0;
  uplink_overflows = 0;
  downlink_records = 0;
  seq_gaps = 0;
}

-- Both scans are done and nothing is tripped; the short-circuit latch fired.
abbrev battery : Bms
battery = record {
  trip_cycles = 1234;
  trip_flag = true;
  rearm_requested = true;
  cell_mv = replicate 12 3700;
  ntc_cc = replicate 4 (pos 2500);
  pack_cv = 4440;
  curr_ca = pos 0;
  fault_bits = 0x80;
  short_latched = false;
  full_scan_done = true;
  tick = 7;
  deb = replicate 6 0;
  tripped = replicate 6 false;
  warn_last_ms = replicate 6 0;
  safety_low = 255;
  estop_seq = 0;
  summary_seq = 0;
  cells_seq = 0;
  stats_seq = 0;
  cells_group = 0;
  prev_can1 = no_frames;
  prev_can2 = no_frames;
  prev_spib = no_transfers;
}

battery-IsSized : IsSized battery
battery-IsSized = (refl, refl, omega arith)

abbrev amps : Scale
amps = record {
  to_pack_cv = λ raw. raw;
  to_curr_ca = λ raw. pos (4 * raw);
  to_cell_mv = λ raw. raw;
  to_ntc_cc = λ raw. some (pos raw);
}

abbrev times : Times
times = record { now = 9000; ts = 9000 }

-- A round in which the converter tells 160 A; `told` is the notification of the latch.
abbrev load : Bool → State → Inputs
load told mirror = record {
  notified = told;
  short_times = times;
  reading = record { pack_v = none; current = some 4000; slow = none };
  check_times = λ _. times;
  sources = record {
    summary_ts = 9000;
    ts = 9000;
    mirror_state = mirror;
    can1 = no_frames;
    can2 = no_frames;
    spib = no_transfers;
  };
  rearm_times = times;
  pins = record {
    mirror_state = mirror;
    comp_above = false;
    kill_fb_closed = true;
    latch_fired = false;
    cleared_again = false;
  };
}

abbrev over : Inputs
over = load false operational

over_curr : (s : Bms) → (sampled s amps over).0.curr_ca ≡ pos 16000
unfolding sampled sample_fast slow_slot read_slot
over_curr s = refl

over-AllBad :
    (s : Bms) (n : ℕ)
    → IsSized s
    → s.full_scan_done ≡ true
    → AllBad discharge s amps (replicate n over)
over-AllBad s zero z h = tt
over-AllBad s (suc n) z h =
    let scanned : (sampled s amps over).0.full_scan_done ≡ true = (sampled_lem s amps over).4 h in
    let t = round-Turn s amps over discharge z in
    (
      (scanned, subst (λ (z : ℤ). pos 12000 <ℤ z) (sym (over_curr s)) (omega arith)),
      over-AllBad (round s amps over).0 n t.sized (t.scan_is ∙ scanned),
    )

over-NeverRearms : (s : Bms) (n : ℕ) → NeverRearms s amps (replicate n over)
over-NeverRearms s zero = tt
over-NeverRearms s (suc n) = (λ m. not_standby m.1, over-NeverRearms (round s amps over).0 n)
  where
    not_standby : ¬ (operational ≡ standby)
    not_standby e = cc

fifty : 50 ≤ length (replicate 50 over)
fifty = omega arith

sustained_trips_example : trip_of (rounds battery amps (replicate 50 over)) 4 ≡ true
sustained_trips_example =
    sustained_trips battery amps (replicate 50 over) discharge battery-IsSized
      (over-AllBad battery 50 battery-IsSized refl) (over-NeverRearms battery 50) fifty

overloaded : trip_of (rounds battery amps (replicate 60 over)) 4 ≡ true
overloaded =
    sustained_trips battery amps (replicate 60 over) discharge battery-IsSized
      (over-AllBad battery 60 battery-IsSized refl) (over-NeverRearms battery 60) (omega arith)

trip_needs_example : BadStretch discharge battery amps (replicate 60 over)
trip_needs_example =
    trip_needs battery amps (replicate 60 over) discharge battery-IsSized refl refl overloaded

-- The latch let the short through, a clear was accepted and the suit is in STANDBY.
abbrev waiting : Bms
waiting = record battery { trip_flag = false; short_latched = true; tripped = replicate 6 true }

round_rearm_example :
    let s' = (round waiting amps (load false standby)).0 in
    (trip_of waiting 4 ≡ true → trip_of s' 4 ≡ false → MayRearm waiting (load false standby))
    × (true ≡ true → s'.short_latched ≡ false → MayRearm waiting (load false standby))
    × (MayRearm waiting (load false standby)
        → (trip_of s' 4 ≡ false) × (deb_of s' 4 ≡ 0) × (s'.short_latched ≡ false))
round_rearm_example =
    round_rearm waiting amps (load false standby) discharge (refl, refl, omega arith)

round_announces_example :
    ((f : Fam)
      → trip_of battery (index f) ≡ false
      → trip_of (round battery amps (load true operational)).0 (index f) ≡ true
      → Announced (cause_of f) (round battery amps (load true operational)).1)
    × (true ≡ true → true ≡ true → Announced 1 (round battery amps (load true operational)).1)
round_announces_example = round_announces battery amps (load true operational) battery-IsSized

abbrev hub : Gateway
hub = record {
  mirror = record (Safety.init 0 true) { state = operational };
  last_pub_state = 2;
  epoch_ms_lo = 0;
  epoch_ref_ms = 0;
  epoch_valid = false;
  time_seq = 0;
  flow_level = replicate 8 0;
  fwd_can1 = 0;
  fwd_can2 = 0;
  fwd_spi = 0;
  local_consumed = 0;
  anomalies = 0;
  queue_drops = 0;
  tx_timeouts = 0;
}

trip_latches_example :
    let out = hear hub (λ _. 9000) (round battery amps (load true operational)).1 in
    IsLatched out.0.mirror × (flag_after false out.1 ≡ true)
trip_latches_example =
    trip_latches hub (λ _. 9000) false battery amps (load true operational) (refl, refl)
      battery-IsSized (inr (refl, refl))
