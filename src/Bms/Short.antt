-- ===== src/Bms/Short.antt =====
-- bms_task.c: the observer of the short-circuit latch, and the re-arming of the discharge gate.
use powersuit.Base.{
  ℕ, Bool, true, false, not, ◌||◌, List, [], ◌∷◌, replicate, if◌then◌else◌, bit_or, bit_and,
}
use powersuit.Wire.{State, standby, estop_bms_short}
use powersuit.Safety.{same}
use powersuit.Bms.{Bms, Act, Times, rearm_strobe, delay_ms, raise_estop, warn, fam_ocd, fam_count}
use powersuit.Bms.Trip.{fault_short_latch, fault_comp_armed}

-- `bms_sc_latch_isr`, with the cycle counter.
unfoldable pub sc_latch_isr : Bms → ℕ → Bms
sc_latch_isr s cycles = record s { trip_cycles = cycles; trip_flag = true }

-- `bms_handle_short_trip`
unfoldable pub handle_short_trip : Bms → Times → Bms × List Act
unfolding raise_estop
handle_short_trip s t =
    if not s.trip_flag
    then (s, [])
    else raise_estop
        (record s {
          trip_flag = false;
          short_latched = true;
          fault_bits = bit_and (bit_or s.fault_bits fault_short_latch) 0xFF7F;
        })
        t estop_bms_short

-- `hub_bms_notify_clear_accepted`
unfoldable pub notify_clear_accepted : Bms → Bms
notify_clear_accepted s = record s { rearm_requested = true }

-- What `bms_try_rearm` reads: the mirror's state, the comparator, and the gate driver after the strobe; and
-- whether the latch fired or a clear was accepted during the strobe.
pub record Pins : Type 0 where
  pub mirror_state : State
  pub comp_above : Bool
  pub kill_fb_closed : Bool
  pub latch_fired : Bool
  pub cleared_again : Bool

-- Monitoring starts afresh: the two `memset`.
unfoldable pub clear_families : Bms → Bms
clear_families s = record s { tripped = replicate fam_count false; deb = replicate fam_count 0 }

-- The part of `bms_try_rearm` behind the comparator's test: the strobe, and what the gate driver tells after it.
unfoldable pub strobe : Bms → Pins → Bms × List Act
unfolding clear_families
strobe s p =
    let s1 = record s {
      trip_flag = s.trip_flag || p.latch_fired;
      rearm_requested = s.rearm_requested || p.cleared_again;
    } in
    (
      if p.kill_fb_closed
          then clear_families (record s1 {
            short_latched = false;
            fault_bits = bit_or (bit_and s1.fault_bits 0xFFFE) fault_comp_armed;
          })
          else s1,
      rearm_strobe true ∷ delay_ms 10 ∷ rearm_strobe false ∷ delay_ms 1 ∷ [],
    )

-- `bms_try_rearm`; 0xFF81 is the complement of the six families' bits.
unfoldable pub try_rearm : Bms → Times → Pins → Bms × List Act
unfolding strobe warn
try_rearm s t p =
    if not s.rearm_requested
    then (s, [])
    else if not (same p.mirror_state standby)
    then (s, [])
    else let s1 = record s { rearm_requested = false } in
      if not s.short_latched
      then (clear_families (record s1 { fault_bits = bit_and s1.fault_bits 0xFF81 }), [])
      else if p.comp_above
      then warn s1 t fam_ocd 0xFFFF
      else strobe s1 p
