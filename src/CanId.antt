-- ===== src/CanId.antt =====
-- common/c/include/powersuit_proto/can_id.h: the 29-bit CAN identifier
-- class(3) | src(5) | dst(5) | type(8) | low(8), and the registries of classes, nodes and types.
pub mod Layout
use powersuit.Base.{ℕ, List, bit_or, shl, shr, low_bits, u8}

-- Message classes; the lower value wins arbitration.
abbrev pub cls_safety : ℕ
cls_safety = 0

abbrev pub cls_control : ℕ
cls_control = 1

abbrev pub cls_telem : ℕ
cls_telem = 2

abbrev pub cls_xrce : ℕ
cls_xrce = 3

abbrev pub cls_audio : ℕ
cls_audio = 4

abbrev pub cls_mgmt : ℕ
cls_mgmt = 5

-- The node registry.
abbrev pub node_broadcast : ℕ
node_broadcast = 0

abbrev pub node_arm_r : ℕ
node_arm_r = 1

abbrev pub node_arm_l : ℕ
node_arm_l = 2

abbrev pub node_leg_r : ℕ
node_leg_r = 3

abbrev pub node_leg_l : ℕ
node_leg_l = 4

abbrev pub node_flight : ℕ
node_flight = 5

abbrev pub node_helmet : ℕ
node_helmet = 6

abbrev pub node_hub : ℕ
node_hub = 7

abbrev pub node_orch : ℕ
node_orch = 8

-- The message types that the modelled code names.
abbrev pub t_heartbeat : ℕ
t_heartbeat = 0x01

abbrev pub t_estop : ℕ
t_estop = 0x02

abbrev pub t_clear_estop : ℕ
t_clear_estop = 0x03

abbrev pub t_node_fault : ℕ
t_node_fault = 0x04

abbrev pub t_mode_set : ℕ
t_mode_set = 0x12

abbrev pub t_led_pattern : ℕ
t_led_pattern = 0x13

abbrev pub t_audio_down : ℕ
t_audio_down = 0x40

abbrev pub t_audio_up : ℕ
t_audio_up = 0x41

abbrev pub t_audio_sync : ℕ
t_audio_sync = 0x42

abbrev pub t_time_sync : ℕ
t_time_sync = 0x50

abbrev pub t_flow_ctl : ℕ
t_flow_ctl = 0x51

-- `ps_can_frame_t` of firmware/components/ps_can
pub record CanFrame : Type 0 where
  pub id : ℕ
  pub dlc : ℕ
  pub payload : List ℕ

-- `ps_can_id_t`
pub record CanId : Type 0 where
  pub cls : ℕ
  pub src : ℕ
  pub dst : ℕ
  pub type : ℕ
  pub low : ℕ

-- `ps_can_id_pack`. `type` and `low` are `uint8_t` parameters, which the code does not mask.
unfoldable pub pack : ℕ → ℕ → ℕ → ℕ → ℕ → ℕ
pack cls src dst type low =
    bit_or
      (bit_or
        (bit_or (bit_or (shl (low_bits cls 3) 26) (shl (low_bits src 5) 21))
          (shl (low_bits dst 5) 16))
        (shl type 8))
      low

-- `ps_can_id_unpack`
unfoldable pub unpack : ℕ → CanId
unpack id = record {
  cls = u8 (low_bits (shr id 26) 3);
  src = u8 (low_bits (shr id 21) 5);
  dst = u8 (low_bits (shr id 16) 5);
  type = u8 (low_bits (shr id 8) 8);
  low = u8 (low_bits id 8);
}

-- The accessors of one field: `ps_can_id_cls`, `_src`, `_dst`, `_type` and `_low`.
unfoldable pub id_cls : ℕ → ℕ
id_cls id = u8 (low_bits (shr id 26) 3)

unfoldable pub id_src : ℕ → ℕ
id_src id = u8 (low_bits (shr id 21) 5)

unfoldable pub id_dst : ℕ → ℕ
id_dst id = u8 (low_bits (shr id 16) 5)

unfoldable pub id_type : ℕ → ℕ
id_type id = u8 (low_bits (shr id 8) 8)

unfoldable pub id_low : ℕ → ℕ
id_low id = u8 (low_bits id 8)
