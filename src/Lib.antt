-- ===== src/Lib.antt =====
-- Powersuit: the firmware and the protocol of a powered suit. Eight nodes on two CAN buses and an
-- orchestrator behind an SPI link; this library models the parts that decide what is safe, where a
-- frame goes and what it carries.
--
-- The parts, with the files of the repository (paths from its root):
--  - CanId: the 29-bit identifiers of common/c/include/powersuit_proto/can_id.h (`ps_can_id_pack`,
--    `ps_can_id_unpack` and the accessors).
--  - Wire and its children: the payload structs of common/c/include/powersuit_proto/wire.h, each a
--    record with its little-endian bytes written and read.
--  - Crc: common/c/src/crc16.c. SpiFrame: common/c/src/spi_frame.c, the frames of the SPI link.
--  - Adpcm: common/c/src/adpcm_ima.c, the voice codec.
--  - Audio: firmware/components/ps_audio, with the packetizer (`ps_audio_tx_push`), the receiver
--    (`ps_audio_rx_on_frame`, `ps_audio_rx_pull`) and the energy gate (Audio.Gate).
--  - Safety: firmware/components/ps_safety/src/ps_safety_core.c, the state machine of every node. An
--    event of its interface is a constructor of `Event`, `step` feeds one and `run` a sequence.
--  - SafetyNode: firmware/components/ps_safety/src/ps_safety_esp.c, the core on a node's bus, with the
--    actuation gate (`ps_safety_can_actuate`) and the e-stop that a node raises.
--  - Hud: firmware/apps/node_helmet/main/hud_model.c, the warnings on the helmet's display.
--  - Router: firmware/components/ps_router, the table by which the hub routes (`ps_router_route`).
--  - Txq: firmware/components/ps_can/src/ps_can_txq.c, the order in which a node sends its frames.
--  - CanTx: the pool of transmit slots in firmware/components/ps_can/src/ps_can.c (`ps_can_send`, the
--    transmit task, `tx_flush`, `on_tx_done`), which keeps the waiting slots in a Txq.
--  - CanLink: the recovery from bus-off in firmware/components/ps_can/src/ps_can.c (`service_link`) and
--    the filter of its receive task.
--  - Bridge: firmware/components/ps_spibridge/src/ps_spibridge.c, the hub's end of the SPI link.
--  - Gateway: firmware/apps/node_chest_hub/main/gateway_task.c, the hub's pump. It uses the safety
--    core as its mirror of the suit's state, the router for every frame, and the bridge for the link.
--  - Bms: firmware/apps/node_chest_hub/main/bms_task.c, the battery task of the hub. `Bms.Task.round` is
--    one round of it, with the samples (Bms.Sense), the debounced trips (Bms.Trip), the short-circuit
--    latch and its re-arming (Bms.Short) and the reports (Bms.Report). Its trips reach the Gateway's
--    mirror by `hub_gateway_local_estop` (Bms.Mirror).
--  - Limb: firmware/apps/node_limb/main, the commands, the setpoints and the single write path of an
--    arm or a leg; the safety state is a SafetyNode, whose callback is `Limb.on_transition`.
--  - Flight: firmware/apps/node_flight/main, the commands to the flaps and the servo loop
--    (Flight.Servo), with a SafetyNode whose callback is `Flight.on_transition`.
--  - Orch: orchestrator/ros2_ws/src/suit_canspi_bridge, the heartbeat and the e-stop service, with the frame
--    parser (Orch.Parser) and the rounds of the transport thread in main.cpp (Orch.Process). Heartbeats
--    are looked for in the bytes of the frames (Orch.Traffic, Orch.OnWire, Orch.Spacing).
--  - Xrce: firmware/components/ps_uros/src/ps_uros_transport_can.c and xrce_demux.cpp of the orchestrator, the
--    byte stream of micro-ROS, sliced into frames.
--  - Base: the shared names, arrays, words, bit operations, circular buffers (Base.Window) and
--    bounded queues (Base.Queue). Bytes: reads and writes of little-endian words.
--  - Examples: concrete runs.
--
-- How the code is written down: a struct is a record and a function that changes it returns the new
-- record; bytes and machine words are native natural numbers with their reduction modulo a power of
-- two written out; arrays are lists with a default out of range; callbacks and calls into other parts are returned as lists, in order. Clock
-- readings are arguments. Locks are left out: each critical section is one step. In Gateway a critical
-- section and the call of `mirror_publish` behind it are one step too (`settle`), as they are where no
-- other task is between them; Gateway.Overlap has each part of such pairs as a step of its own, in any
-- order. The wait of `ps_can_send` for a slot is the list of what the other tasks do in its time
-- (`CanTx.Meanwhile`).
--
-- Loops are structural recursion, except `Audio.tx_loop`, which has fuel: every round takes at least
-- one sample, so the number of samples is enough, and the loops of the transmit task, `CanTx.tx_flush`
-- and `CanTx.feed`: every round puts one of sixteen slots back, so seventeen rounds are enough. The loops that slice
-- bytes, `Xrce.write_loop` and `Xrce.slice_loop`, take at least one byte in a round, so the number of
-- bytes is enough.
--
-- Parameters: the queues of the real-time kernel are a record of calls with the behaviour that their
-- documentation promises (Base.Queue.Ops and Laws); what `ps_can_send` answers is an argument of the
-- gateway; the threshold that `pow` gives is an argument of `Audio.Gate.gate_init`; the floating-point scalings
-- of the battery's converter are a record of functions (Bms.Sense.Scale); that a limb's current is over
-- its limit and that its shaft turns fast are arguments of the limb's inputs;
-- the product of a flap's rate and the floating-point `rate_scale` is a function that the servo loop takes; what the driver answers
-- to a frame is an argument of `CanTx.feed`; the file system that keeps the counter of the clears is a
-- record of calls (Orch.Files) with what is relied on in Orch.Clears.Laws, and so is the stream buffer
-- of the micro-ROS transport (Xrce.Stream, Xrce.Delivery.Laws).
--
-- Not modelled: register and driver code, task start-up, the floating-point control of joints and
-- the sensors of the wings, the micro-ROS session and its terminals, the audio topics and telemetry
-- messages of the orchestrator, the Python side, the tests and the tools.
pub mod Base
pub mod CanId
pub mod Crc
pub mod Wire
pub mod Safety
pub mod SafetyNode
pub mod Hud
pub mod Limb
pub mod Flight
pub mod Orch
pub mod Xrce
pub mod CanLink
pub mod CanTx
pub mod Router
pub mod Txq
pub mod Bytes
pub mod SpiFrame
pub mod Adpcm
pub mod Audio
pub mod Bms
pub mod Bridge
pub mod Gateway
mod Examples
