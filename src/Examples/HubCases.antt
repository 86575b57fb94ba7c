-- ===== src/Examples/HubCases.antt =====
-- The router, the gateway, the transmit queue and the identifiers on concrete frames.
use powersuit.Base.{ℕ, ◌≡◌, refl, ap, arith, true, false, ◌&&◌, List, [], ◌∷◌, test_bit}
use powersuit.CanId.{CanFrame, CanId, unpack, id_cls, id_src, id_dst, id_type, id_low}
use powersuit.CanId.Layout.{Fits, pack_fields, unpack-pack}
use powersuit.Wire.{standby, operational, estop, code}
use powersuit.Safety
use powersuit.Safety.{Core, timer, local_fault}
use powersuit.Router.{route}
use powersuit.Router.Policy.{can1, can2, index, gets, other, route-gets}
use powersuit.Gateway.{Gateway, Answers}
use powersuit.Gateway.Overlap
use powersuit.Gateway.Overlap.{Shared, Part, enter, go_on, part, parts, Serial, parts-Tells}
use powersuit.Txq
use powersuit.Txq.{Txq, push, pop}
use powersuit.Txq.Refine.{IsValid, init-IsValid, push_refines, pop_refines, PopSpec}

-- An e-stop of the right arm, and a command of the orchestrator to it.
abbrev stop_id : ℕ
stop_id = 0x00200200

route-gets_example :
    test_bit (route (index can1) stop_id) (index can2)
    ≡ (other can1 can2 && gets can1 (unpack stop_id) can2)
route-gets_example = route-gets can1 can2 stop_id

abbrev hub_node : Gateway
hub_node = record {
  mirror = record (Safety.init 0 true) { state = standby };
  last_pub_state = 1;
  epoch_ms_lo = 0;
  epoch_ref_ms = 0;
  epoch_valid = false;
  time_seq = 0;
  flow_level = 0 ∷ 0 ∷ 0 ∷ 0 ∷ 0 ∷ 0 ∷ 0 ∷ 0 ∷ [];
  fwd_can1 = 0;
  fwd_can2 = 0;
  fwd_spi = 0;
  local_consumed = 0;
  anomalies = 0;
  queue_drops = 0;
  tx_timeouts = 0;
}

abbrev answers : Answers
answers = record { can1_ok = true; can2_ok = false; uplink_ok = true }

abbrev stop_frame : CanFrame
stop_frame = record { id = stop_id; dlc = 8; payload = 4 ∷ 1 ∷ 0 ∷ 0 ∷ 0 ∷ 0 ∷ 0 ∷ 0 ∷ [] }

-- What the tasks share while the suit is operational.
abbrev shared : Shared
shared = record {
  mirror = record (Safety.init 0 true) { state = operational };
  last_pub_state = 2;
  flag = false;
  calls = [];
}

-- A tick without heartbeats and the call behind it, then a trip and the call behind it.
abbrev in_turn : List Part
in_turn = enter 100 timer ∷ go_on 0 ∷ go_on 0 ∷ enter 101 (local_fault 9) ∷ go_on 0 ∷ go_on 0 ∷ []

in_turn-Serial : Serial shared in_turn
unfolding part Safety.step Safety.init
in_turn-Serial = (refl, (refl, tt))

stop_told : parts shared in_turn ≡ record shared {
  mirror = (Safety.step (Safety.step shared.mirror 100 timer).0 101 (local_fault 9)).0;
  last_pub_state = code estop;
  flag = true;
}
unfolding parts Safety.step Safety.init
stop_told = refl

parts-Tells_example : Overlap.Tells (parts shared in_turn)
parts-Tells_example =
    parts-Tells shared in_turn refl (refl, refl) in_turn-Serial
      (ap (λ (s : Shared). s.calls) stop_told)

-- The trip comes while the call of the tick is on its way: the mirror is in ESTOP and so is the state that was published
-- last, but the flag is off, and no later call with ESTOP sets it.
abbrev overlapping : List Part
overlapping =
    enter 100 timer ∷ enter 101 (local_fault 9) ∷ go_on 1 ∷ go_on 0 ∷ go_on 0 ∷ go_on 0 ∷ []

stop_not_told : parts shared overlapping ≡ record shared {
  mirror = (Safety.step (Safety.step shared.mirror 100 timer).0 101 (local_fault 9)).0;
  last_pub_state = code estop;
  flag = false;
}
unfolding parts Safety.step Safety.init
stop_not_told = refl

after_push : IsValid (push Txq.init 2 9).0
after_push = (push_refines {q = Txq.init} 2 9 (init-IsValid.0)).3

pop_refines_example : PopSpec (push Txq.init 2 9).0 (pop (push Txq.init 2 9).0)
pop_refines_example = pop_refines after_push

abbrev voice_fields : CanId
voice_fields = record { cls = 4; src = 6; dst = 8; type = 0x41; low = 255 }

voice-Fits : Fits voice_fields
voice-Fits = record {
  cls = omega arith;
  src = omega arith;
  dst = omega arith;
  type = omega arith;
  low = omega arith;
}

unpack-pack_example :
    let id = pack_fields voice_fields in
    (unpack id ≡ voice_fields)
    × (id_cls id ≡ 4)
    × (id_src id ≡ 6)
    × (id_dst id ≡ 8)
    × (id_type id ≡ 0x41)
    × (id_low id ≡ 255)
unpack-pack_example = unpack-pack voice_fields voice-Fits
