-- ===== src/Flight.antt =====
-- firmware/apps/node_flight/main: the commands to the flaps, the targets and the servo loop with its single write path,
-- in comms_task.c, servo_task.c, safety_glue.c, node_flight.h and board_flight.h. The PWM bank is
-- not modelled: the values that are written to its comparators are returned. The product of a slew rate with the
-- parameter `rate_scale`, which is of floating point, is an argument. Values of `int16_t` are integers:
-- none of those that the loop computes leaves the range from -1000 to 1000.
pub mod Servo
pub mod Motion
pub mod Exclusion
pub mod Run
pub mod Tick
pub mod Limits
pub mod Neutral
pub mod Pairs
pub mod Trips
pub mod Wake
use powersuit.Base.{
  ℕ, zero, suc, ◌+◌, ◌-◌, ◌*◌, ◌/◌, Bool, true, false, not, ◌&&◌, ◌||◌, List, [], ◌∷◌, ◌++◌, take,
  replicate, set, get_or, tabulate, ltb, leb, ◌==◌, if◌then◌else◌, u8, min, test_bit,
}
use powersuit.Base.Int.{ℤ, pos, negsuc, sub_ℕ, ◌+ℤ◌, ◌-ℤ◌, ltb_ℤ, eqb_ℤ, mag, pos_part}
use powersuit.CanId.{CanFrame, id_type, t_mode_set, pack, node_orch, node_flight}
use powersuit.Wire.{State, boot, standby, operational, passive, estop, fault}
use powersuit.Wire.ControlPayloads.{FlapCmd, read_flap_cmd, read_mode_set}
use powersuit.Safety.{Call}
use powersuit.SafetyNode.{
  Node, can_actuate, safety_rx, tick_cb, can_state_cb, note_cmd, note_mode_set,
}

-- `PS_T_FLAP_CMD`, `PS_FLAP_COUNT`
abbrev pub t_flap_cmd : ℕ
t_flap_cmd = 0x11

abbrev pub flap_count : ℕ
flap_count = 12

-- `ps_flap_cfg_t`, less the pin.
pub record FlapCfg : Type 0 where
  pub pulse_min_us : ℕ
  pub pulse_neutral_us : ℕ
  pub pulse_max_us : ℕ
  pub env_min_pm : ℤ
  pub env_max_pm : ℤ
  pub brake_pm : ℤ
  pub slew_max_pct_s : ℕ
  pub slew_default_pct_s : ℕ

-- The three kinds of row of the table: the root, the middle and the tip of a wing.
abbrev root_flap : FlapCfg
root_flap = record {
  pulse_min_us = 900;
  pulse_neutral_us = 1500;
  pulse_max_us = 2100;
  env_min_pm = negsuc 899;
  env_max_pm = pos 900;
  brake_pm = pos 800;
  slew_max_pct_s = 250;
  slew_default_pct_s = 120;
}

abbrev middle_flap : FlapCfg
middle_flap = record {
  pulse_min_us = 900;
  pulse_neutral_us = 1500;
  pulse_max_us = 2100;
  env_min_pm = negsuc 999;
  env_max_pm = pos 1000;
  brake_pm = pos 900;
  slew_max_pct_s = 250;
  slew_default_pct_s = 120;
}

abbrev tip_flap : FlapCfg
tip_flap = record {
  pulse_min_us = 900;
  pulse_neutral_us = 1500;
  pulse_max_us = 2100;
  env_min_pm = negsuc 799;
  env_max_pm = pos 800;
  brake_pm = pos 700;
  slew_max_pct_s = 200;
  slew_default_pct_s = 100;
}

-- `PS_FLAP_TABLE`
abbrev pub flap_table : List FlapCfg
flap_table =
    root_flap ∷ root_flap ∷ middle_flap ∷ middle_flap ∷ tip_flap ∷ tip_flap ∷ root_flap ∷ root_flap
    ∷ middle_flap ∷ middle_flap ∷ tip_flap ∷ tip_flap ∷ []

abbrev pub cfg_of : ℕ → FlapCfg
cfg_of i = get_or flap_table i tip_flap

-- `ps_flap_pair_t`
pub record Pair : Type 0 where
  pub a : ℕ
  pub b : ℕ
  pub joint_max_sum_pm : ℕ

-- `PS_FLAP_PAIRS`
abbrev pub flap_pairs : List Pair
flap_pairs =
    record { a = 0; b = 1; joint_max_sum_pm = 1400 }
    ∷ record { a = 2; b = 3; joint_max_sum_pm = 1600 }
    ∷ record { a = 6; b = 7; joint_max_sum_pm = 1400 }
    ∷ record { a = 8; b = 9; joint_max_sum_pm = 1600 }
    ∷ []

-- `flight_target_t`
pub record Target : Type 0 where
  pub pos_pm : ℤ
  pub rate_lim : ℕ
  pub brake : Bool

abbrev pub neutral : Target
neutral = record { pos_pm = pos 0; rate_lim = 0; brake = false }

-- `flight_flap_state_t`
pub record FlapState : Type 0 where
  pub pos_pm : ℤ
  pub target_pm : ℤ
  pub at_limit : Bool

-- The variables of the files, with the node's safety state; `cur_pm` is the static array of `servo_task`.
pub record Flight : Type 0 where
  pub node : Node
  pub targets : List Target
  pub states : List FlapState
  pub cur_pm : List ℤ
  pub telem_seq : List ℕ

abbrev pub target_of : Flight → ℕ → Target
target_of f i = get_or f.targets i neutral

abbrev pub horn : Flight → ℕ → ℤ
horn f i = get_or f.cur_pm i (pos 0)

-- `flight_targets_set`
unfoldable pub targets_set : Flight → ℕ → Target → Flight
targets_set f flap t =
    if leb flap_count flap then f else record f { targets = set f.targets flap t }

-- `flight_targets_neutral_all`
unfoldable pub targets_neutral_all : Flight → Flight
targets_neutral_all f = record f { targets = replicate flap_count neutral }

-- `flight_safety_on_transition`
unfoldable pub on_transition : Flight → State → Flight
unfolding targets_neutral_all
on_transition f boot = f
on_transition f standby = f
on_transition f operational = f
on_transition f passive = targets_neutral_all f
on_transition f estop = targets_neutral_all f
on_transition f fault = targets_neutral_all f

unfoldable pub transitions : Flight → List Call → Flight
unfolding on_transition
transitions f [] = f
transitions f (c ∷ cs) = transitions (on_transition f c.new) cs

-- The node's safety layer does something, and the callback hears of it.
unfoldable pub heard : Flight → Node × List Call → Flight
unfolding transitions
heard f (n, calls) = transitions (record f { node = n }) calls

-- `clamp_pm`
abbrev pub clamp_pm : ℤ → ℤ → ℤ → ℤ
clamp_pm v lo hi = if ltb_ℤ v lo then lo else if ltb_ℤ hi v then hi else v

-- FLAP_CMD in `control_rx`, behind its tests.
unfoldable pub apply_cmd : Flight → ℕ → FlapCmd → Flight
unfolding targets_set
apply_cmd f now cmd =
    let f1 = targets_set f cmd.flap (record {
      pos_pm = clamp_pm cmd.pos_pm (negsuc 999) (pos 1000);
      rate_lim = cmd.rate_lim;
      brake = test_bit cmd.flags 0;
    }) in
    record f1 { node = note_cmd f1.node now }

unfoldable pub handle_flap_cmd : Flight → ℕ → CanFrame → Flight
unfolding apply_cmd
handle_flap_cmd f now frame =
    let cmd = read_flap_cmd frame.payload in
    if ltb frame.dlc 8 then f else if leb flap_count cmd.flap then f else apply_cmd f now cmd

-- MODE_SET in `control_rx`: a frame of fewer bytes is read with zeros for those that are missing.
unfoldable pub handle_mode_set : Flight → ℕ → CanFrame → Flight
unfolding heard
handle_mode_set f now frame =
    let n = if ltb frame.dlc 8 then frame.dlc else 8 in
    let ms = read_mode_set (take n frame.payload ++ replicate 8 0) in
    heard f (note_mode_set (note_cmd f.node now) now ms.target_state)

-- `control_rx`
unfoldable pub control_rx : Flight → ℕ → CanFrame → Flight
unfolding handle_flap_cmd handle_mode_set
control_rx f now frame =
    if id_type frame.id == t_flap_cmd
    then handle_flap_cmd f now frame
    else if id_type frame.id == t_mode_set
    then handle_mode_set f now frame
    else f

-- `flight_telem_send`, with the CAN handle set.
unfoldable pub telem_send : Flight → ℕ → ℕ → List ℕ → ℕ → Flight × CanFrame
telem_send f cls type payload len =
    let low = get_or f.telem_seq type 0 in
    let n = if ltb 8 len then 8 else len in
    (
      record f { telem_seq = set f.telem_seq type (u8 (low + 1)) },
      record {
        id = pack cls node_flight node_orch type low;
        dlc = len;
        payload = take n payload ++ replicate (8 - n) 0;
      },
    )
