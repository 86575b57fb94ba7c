-- ===== src/Examples/OrchCases.antt =====
-- An orchestrator that stops the suit, releases it and talks to the hub.
use powersuit.Base.{
  ℕ, ◌+◌, ◌*◌, ◌≤◌, ◌≡◌, refl, arith, true, false, Option, none, some, List, [], ◌∷◌, ◌++◌, length,
  All, replicate,
}
use powersuit.SafetyNode.{Node}
use powersuit.SpiFrame.{Record, frame_build}
use powersuit.Orch.{Files}
use powersuit.Orch.Process
use powersuit.Orch.Process.{
  Process, Polled, ProcessEvent, run, on_engage, on_disengage, on_command, on_link, on_round,
}
use powersuit.Orch.Beats.{received, AreSpaced}
use powersuit.Orch.Traffic.{Plain, count_beats}
use powersuit.Orch.OnWire.{IsPlain, on_wire}
use powersuit.Orch.Spacing.{StaysRoomy, wire_beats, wire_beats-AreSpaced}
use powersuit.Orch.Heard.{IsStop}
use powersuit.Orch.Silence.{HearsNoClear, engage_silences, outside_stop_lasts}
use powersuit.CanId.{unpack}
use powersuit.Orch.Stops.{Halts, engage-Halts}
use powersuit.Orch.Clears.{Laws, CanWrite, Accepts, clear_record, next_clear, clears_increase}
use powersuit.Orch.Parser.{k_ok, parse}
use powersuit.Orch.Uplink.{InStep, uplink_arrives}
use powersuit.Orch.Downlink.{sent, offered, transmit_reaches}
use powersuit.Examples.LimbCases.{arm}
use powersuit.Examples.LinkCases.{command, command-Fits, two, two-Fits, bridge}
use powersuit.Examples.Bounded.{bounded, bounded_laws}
use powersuit.Bridge.{build_tx, handle_rx}
use powersuit.Bridge.Flow.{header_flags}
use powersuit.Base.Queue.{put_all}
use mathlib.Core.List.{Perm}

-- One file.
abbrev one_file : Files (Option ℕ) ℕ
one_file = record {
  read = λ s p. s;
  write = λ s p n. some (some n);
  make_parents = λ s p. s;
  in_tmp = λ p. 1;
}

one_file_laws : Laws one_file
one_file_laws = record { kept = λ s p n s' e. cc; parents = λ s p q. refl }

abbrev orchestrator : Process (Option ℕ) ℕ
orchestrator = record {
  files = some 41;
  service = record { counter_path = 0; seq = 65535; latched = false; latched_cause = 0 };
  emitter = record { seq = 65535; have_last_emit = true; last_emit = 1000000000 };
  frame_parser = record {
    tx_seq = 7;
    have_rx_seq = true;
    last_rx_seq = 254;
    frames_ok = 9;
    idle_frames = 0;
    crc_errors = 0;
    seq_gaps = 0;
    resyncs = 0;
  };
  outbound = [];
  cloud_up = true;
  external_latched = false;
  last_good_frame = 990000000;
}

abbrev at_time : ℕ → Polled
at_time now = record { now = now; uptime_ms = 5; rclcpp_ok = true; xrce = []; audio = [] }

abbrev idle : Option (List ℕ)
idle = some (replicate 512 0)

-- Rounds at 8, 10 and 21 ms after the last heartbeat.
abbrev rounds_of : List ProcessEvent
rounds_of =
    on_round (at_time 1008000000) idle
    ∷ on_round (at_time 1010000000) idle
    ∷ on_round (at_time 1021000000) none
    ∷ []

-- A command waits behind which the operator stops the suit.
abbrev waiting : Process (Option ℕ) ℕ
waiting = record orchestrator { outbound = command ∷ [] }

rounds-IsPlain : All IsPlain rounds_of
rounds-IsPlain = ((tt, tt), ((tt, tt), ((tt, tt), tt)))

command-Plain : All Plain (command ∷ [])
unfolding unpack
command-Plain = ((command-Fits, refl), tt)

rounds-StaysRoomy : StaysRoomy one_file waiting rounds_of
unfolding Process.batch Process.tick_heartbeat Process.step powersuit.Bridge.all_zero
rounds-StaysRoomy = (omega arith, (omega arith, (omega arith, tt)))

-- The frames of the run carry the heartbeats.
beats_on_wire : wire_beats one_file waiting rounds_of ≡ (1010000000, 65535) ∷ (1021000000, 0) ∷ []
unfolding wire_beats powersuit.Orch.Spacing.timed powersuit.Orch.Traffic.carried
    Process.transport_round frame_build powersuit.SpiFrame.frame_parse powersuit.SpiFrame.build_body
    powersuit.Bytes.rd_u16 powersuit.SpiFrame.frame_crc powersuit.SpiFrame.view_record
    powersuit.SpiFrame.record_read unpack Process.step powersuit.Bridge.all_zero
    powersuit.Wire.SafetyPayloads.write_heartbeat powersuit.CanId.pack
    powersuit.Wire.SafetyPayloads.read_heartbeat
beats_on_wire = refl

wire_beats-AreSpaced_example : AreSpaced (wire_beats one_file waiting rounds_of)
wire_beats-AreSpaced_example =
    wire_beats-AreSpaced one_file waiting rounds_of command-Plain (omega arith) rounds-IsPlain
      rounds-StaysRoomy

engage_silences_example :
    let o' = Process.step one_file waiting (on_engage (λ i. i)) in
    count_beats (on_wire one_file o' rounds_of) + count_beats (run one_file o' rounds_of).outbound
    ≡ count_beats (command ∷ [])
engage_silences_example =
    engage_silences one_file waiting (λ i. i) rounds_of (tt, (tt, (tt, tt))) rounds-IsPlain
      (command-Fits, tt)

-- A heartbeat that does not fit the frame of its round waits in the queue, and a stop by the operator leaves it there.
abbrev packed : Process (Option ℕ) ℕ
packed = record orchestrator { outbound = replicate 31 command }

beat_waits :
    count_beats
      (Process.step one_file
        (Process.transmit packed (at_time 1010000000)).0
        (on_engage (λ i. i))).outbound
    ≡ 1
unfolding count_beats Process.transmit Process.step unpack powersuit.CanId.pack
beat_waits = refl

-- A release by the operator, and a round a second later in which nothing comes.
abbrev released : List ProcessEvent
released = on_disengage ∷ on_round (at_time 2021000000) none ∷ []

-- The e-stop of the right arm in a frame of the hub.
abbrev arm_stop : Record
arm_stop = record {
  id = 0x00200200;
  bus = 1;
  dlc = 8;
  ts_ms = 0;
  payload = 4 ∷ 1 ∷ 0 ∷ 0 ∷ 0 ∷ 0 ∷ 0 ∷ 0 ∷ [];
}

abbrev stop_frame : Option (List ℕ)
stop_frame = elim (frame_build 0 255 (arm_stop ∷ [])) [ none ↦ none | some f ↦ some f.0 ]

released-HearsNoClear :
    HearsNoClear one_file
      (Process.step one_file waiting (on_round (at_time 1010000000) stop_frame))
      released
unfolding received
released-HearsNoClear = (tt, tt)

stop_received :
    received (Process.transmit waiting (at_time 1010000000)).0 stop_frame ≡ [] ++ arm_stop ∷ []
unfolding received frame_build parse powersuit.Bridge.all_zero powersuit.SpiFrame.build_body
    powersuit.SpiFrame.frame_parse powersuit.Bytes.rd_u16 powersuit.SpiFrame.frame_crc
    powersuit.SpiFrame.view_record powersuit.SpiFrame.record_read
stop_received = refl

arm_stop-IsStop : IsStop arm_stop
unfolding unpack
arm_stop-IsStop = (refl, refl)

outside_stop_lasts_example :
    let o' = Process.step one_file waiting (on_round (at_time 1010000000) stop_frame) in
    count_beats (on_wire one_file o' released) + count_beats (run one_file o' released).outbound
    ≡ count_beats o'.outbound
outside_stop_lasts_example =
    outside_stop_lasts one_file waiting (at_time 1010000000) stop_frame [] [] arm_stop released
      stop_received arm_stop-IsStop tt ((tt, tt), (tt, ((tt, tt), tt))) (command-Fits, tt)
      released-HearsNoClear

engage-Halts_example :
    let o' = Process.step one_file orchestrator (on_engage (λ i. 7)) in
    (o'.service.latched ≡ true)
    × (rs : List Record) × (o'.outbound ≡ [] ++ rs)
    × (length rs ≡ 3)
    × All Halts rs
engage-Halts_example = engage-Halts one_file orchestrator (λ i. 7) (omega arith) (λ i. omega arith)

-- The process that is started again on the same file.
abbrev restarted : Process (Option ℕ) ℕ
restarted = record orchestrator { files = some 42 }

-- A node that took the first of the two clears.
abbrev cleared : Node
cleared = record arm.node { core = record arm.node.core { clear_counter = 42 } }

one_file-CanWrite : CanWrite one_file 0
one_file-CanWrite s n e = cc

files_left :
    some 42 ≡ (run one_file (Process.step one_file orchestrator on_disengage) rounds_of).files
unfolding run Process.step powersuit.Bridge.all_zero
files_left = refl

clears_increase_example :
    (next_clear one_file one_file_laws orchestrator ≡ clear_record 42)
    × Accepts cleared 5 (next_clear one_file one_file_laws restarted) 43
clears_increase_example =
    clears_increase one_file one_file_laws orchestrator rounds_of restarted cleared 5
      one_file-CanWrite (omega arith) files_left refl (omega arith)

-- The hub's next frame has the number 255, for which the orchestrator waits.
uplink_arrives_example :
    let b' = (build_tx (bounded Record) bridge).0 in
    (buf : List ℕ) × (n : ℕ) × ((build_tx (bounded Record) bridge).1 ≡ some (buf, n))
    × ((parse orchestrator.frame_parser buf).1
        ≡ k_ok two (header_flags (bounded Record) (bounded_laws Record) bridge) 255)
    × ((parse orchestrator.frame_parser buf).0.seq_gaps ≡ 0)
    × InStep (parse orchestrator.frame_parser buf).0 b'.tx_seq
    × (b'.uplink.1 ≡ [])
uplink_arrives_example =
    uplink_arrives (bounded Record) (bounded_laws Record) bridge orchestrator.frame_parser two-Fits
      (refl, refl)

-- Two records wait, and one comes from the terminals.
abbrev busy : Process (Option ℕ) ℕ
busy = record orchestrator { outbound = two }

abbrev with_xrce : Polled
with_xrce = record (at_time 1020000000) { xrce = command ∷ [] }

transmit_reaches_example :
    (length (sent busy with_xrce) ≤ 31)
    × Perm
        (sent busy with_xrce ++ (Process.transmit busy with_xrce).0.outbound)
        (offered busy with_xrce)
    × (buf : List ℕ) × ((Process.transmit busy with_xrce).1
        ≡ some (buf, 8 + length (sent busy with_xrce) * 16))
    × ((handle_rx (bounded Record) bridge buf).downlink.1
        ≡ put_all 2 (command ∷ []) (sent busy with_xrce))
transmit_reaches_example =
    transmit_reaches (bounded Record) (bounded_laws Record) bridge busy with_xrce
      (omega arith, omega arith) (command-Fits, tt) tt two-Fits

-- The order of the queue is not kept over an overflow: a clear that does not fit comes behind the stop that was queued after it.
abbrev numbered : ℕ → Record
numbered i = record command { id = i }

abbrev crowded : Process (Option ℕ) ℕ
crowded = record orchestrator {
  external_latched = true;
  outbound = replicate 30 command ++ numbered 3 ∷ numbered 2 ∷ numbered 2 ∷ numbered 2 ∷ [];
}

clear_overtaken :
    (Process.transmit crowded with_xrce).0.outbound
    ≡ numbered 2 ∷ numbered 2 ∷ numbered 2 ∷ numbered 3 ∷ []
unfolding Process.transmit
clear_overtaken = refl
