-- ===== src/Wire/TelemPayloads.antt =====
-- wire.h: the TELEM payloads, as records and as the eight bytes that `PS_WIRE_WRITE` copies and
-- `PS_WIRE_READ` reads.
use powersuit.Base.{ℕ, ◌≡◌, arith, List, ◌∷◌, ◌++◌, drop, length, IsByte, IsU16}
use powersuit.Base.Int.{ℤ}
use powersuit.Bytes.{
  at, rd_u16, wr_u16, wr_u32, rd-wr_u16, IsI16, IsI8, of_i16, to_i16, of_i8, to_i8, to_i16-of_i16,
  to_i8-of_i8,
}

-- `ps_joint_state_t`
pub record JointState : Type 0 where
  pub joint : ℕ
  pub flags : ℕ
  pub pos_crad : ℤ
  pub vel_crad_s : ℤ
  pub eff_cnm : ℤ

-- Each field is in the range of its type.
abbrev pub JointStateFits : JointState → Type 0
JointStateFits x =
    IsByte x.joint × IsByte x.flags × IsI16 x.pos_crad × IsI16 x.vel_crad_s × IsI16 x.eff_cnm

unfoldable pub write_joint_state : JointState → List ℕ
unfolding wr_u16 wr_u32
write_joint_state x =
    x.joint
    ∷ (x.flags
        ∷ (wr_u16 (of_i16 x.pos_crad)
            ++ (wr_u16 (of_i16 x.vel_crad_s) ++ (wr_u16 (of_i16 x.eff_cnm)))))

unfoldable pub read_joint_state : List ℕ → JointState
read_joint_state p = record {
  joint = at p 0;
  flags = at p 1;
  pos_crad = to_i16 (rd_u16 (drop 2 p));
  vel_crad_s = to_i16 (rd_u16 (drop 4 p));
  eff_cnm = to_i16 (rd_u16 (drop 6 p));
}

read-write_joint_state :
    (x : JointState)
    → JointStateFits x
    → (read_joint_state (write_joint_state x) ≡ x) × (length (write_joint_state x) ≡ 8)
unfolding read_joint_state write_joint_state
read-write_joint_state x h = ground (
  arith,
  rd-wr_u16 (of_i16 x.pos_crad) (drop 4 (write_joint_state x)),
  to_i16-of_i16 x.pos_crad,
  rd-wr_u16 (of_i16 x.vel_crad_s) (drop 6 (write_joint_state x)),
  to_i16-of_i16 x.vel_crad_s,
  rd-wr_u16 (of_i16 x.eff_cnm) (drop 8 (write_joint_state x)),
  to_i16-of_i16 x.eff_cnm,
)

-- `ps_imu_quat_t`
pub record ImuQuat : Type 0 where
  pub qw : ℤ
  pub qx : ℤ
  pub qy : ℤ
  pub qz : ℤ

-- Each field is in the range of its type.
abbrev pub ImuQuatFits : ImuQuat → Type 0
ImuQuatFits x = IsI16 x.qw × IsI16 x.qx × IsI16 x.qy × IsI16 x.qz

unfoldable pub write_imu_quat : ImuQuat → List ℕ
unfolding wr_u16 wr_u32
write_imu_quat x =
    wr_u16 (of_i16 x.qw)
    ++ (wr_u16 (of_i16 x.qx) ++ (wr_u16 (of_i16 x.qy) ++ (wr_u16 (of_i16 x.qz))))

unfoldable pub read_imu_quat : List ℕ → ImuQuat
read_imu_quat p = record {
  qw = to_i16 (rd_u16 p);
  qx = to_i16 (rd_u16 (drop 2 p));
  qy = to_i16 (rd_u16 (drop 4 p));
  qz = to_i16 (rd_u16 (drop 6 p));
}

read-write_imu_quat :
    (x : ImuQuat)
    → ImuQuatFits x
    → (read_imu_quat (write_imu_quat x) ≡ x) × (length (write_imu_quat x) ≡ 8)
unfolding read_imu_quat write_imu_quat
read-write_imu_quat x h = ground (
  arith,
  rd-wr_u16 (of_i16 x.qw) (drop 2 (write_imu_quat x)),
  to_i16-of_i16 x.qw,
  rd-wr_u16 (of_i16 x.qx) (drop 4 (write_imu_quat x)),
  to_i16-of_i16 x.qx,
  rd-wr_u16 (of_i16 x.qy) (drop 6 (write_imu_quat x)),
  to_i16-of_i16 x.qy,
  rd-wr_u16 (of_i16 x.qz) (drop 8 (write_imu_quat x)),
  to_i16-of_i16 x.qz,
)

-- `ps_imu_acc_t`
pub record ImuAcc : Type 0 where
  pub ax : ℤ
  pub ay : ℤ
  pub az : ℤ
  pub rsvd : ℕ

-- Each field is in the range of its type.
abbrev pub ImuAccFits : ImuAcc → Type 0
ImuAccFits x = IsI16 x.ax × IsI16 x.ay × IsI16 x.az × IsU16 x.rsvd

unfoldable pub write_imu_acc : ImuAcc → List ℕ
unfolding wr_u16 wr_u32
write_imu_acc x =
    wr_u16 (of_i16 x.ax) ++ (wr_u16 (of_i16 x.ay) ++ (wr_u16 (of_i16 x.az) ++ (wr_u16 x.rsvd)))

unfoldable pub read_imu_acc : List ℕ → ImuAcc
read_imu_acc p = record {
  ax = to_i16 (rd_u16 p);
  ay = to_i16 (rd_u16 (drop 2 p));
  az = to_i16 (rd_u16 (drop 4 p));
  rsvd = rd_u16 (drop 6 p);
}

read-write_imu_acc :
    (x : ImuAcc)
    → ImuAccFits x
    → (read_imu_acc (write_imu_acc x) ≡ x) × (length (write_imu_acc x) ≡ 8)
unfolding read_imu_acc write_imu_acc
read-write_imu_acc x h = ground (
  arith,
  rd-wr_u16 (of_i16 x.ax) (drop 2 (write_imu_acc x)),
  to_i16-of_i16 x.ax,
  rd-wr_u16 (of_i16 x.ay) (drop 4 (write_imu_acc x)),
  to_i16-of_i16 x.ay,
  rd-wr_u16 (of_i16 x.az) (drop 6 (write_imu_acc x)),
  to_i16-of_i16 x.az,
  rd-wr_u16 x.rsvd (drop 8 (write_imu_acc x)),
)

-- `ps_imu_gyr_t`
pub record ImuGyr : Type 0 where
  pub gx : ℤ
  pub gy : ℤ
  pub gz : ℤ
  pub rsvd : ℕ

-- Each field is in the range of its type.
abbrev pub ImuGyrFits : ImuGyr → Type 0
ImuGyrFits x = IsI16 x.gx × IsI16 x.gy × IsI16 x.gz × IsU16 x.rsvd

unfoldable pub write_imu_gyr : ImuGyr → List ℕ
unfolding wr_u16 wr_u32
write_imu_gyr x =
    wr_u16 (of_i16 x.gx) ++ (wr_u16 (of_i16 x.gy) ++ (wr_u16 (of_i16 x.gz) ++ (wr_u16 x.rsvd)))

unfoldable pub read_imu_gyr : List ℕ → ImuGyr
read_imu_gyr p = record {
  gx = to_i16 (rd_u16 p);
  gy = to_i16 (rd_u16 (drop 2 p));
  gz = to_i16 (rd_u16 (drop 4 p));
  rsvd = rd_u16 (drop 6 p);
}

read-write_imu_gyr :
    (x : ImuGyr)
    → ImuGyrFits x
    → (read_imu_gyr (write_imu_gyr x) ≡ x) × (length (write_imu_gyr x) ≡ 8)
unfolding read_imu_gyr write_imu_gyr
read-write_imu_gyr x h = ground (
  arith,
  rd-wr_u16 (of_i16 x.gx) (drop 2 (write_imu_gyr x)),
  to_i16-of_i16 x.gx,
  rd-wr_u16 (of_i16 x.gy) (drop 4 (write_imu_gyr x)),
  to_i16-of_i16 x.gy,
  rd-wr_u16 (of_i16 x.gz) (drop 6 (write_imu_gyr x)),
  to_i16-of_i16 x.gz,
  rd-wr_u16 x.rsvd (drop 8 (write_imu_gyr x)),
)

-- `ps_force_t`
pub record Force : Type 0 where
  pub ch0 : ℤ
  pub ch1 : ℤ
  pub ch2 : ℤ
  pub ch3 : ℤ

-- Each field is in the range of its type.
abbrev pub ForceFits : Force → Type 0
ForceFits x = IsI16 x.ch0 × IsI16 x.ch1 × IsI16 x.ch2 × IsI16 x.ch3

unfoldable pub write_force : Force → List ℕ
unfolding wr_u16 wr_u32
write_force x =
    wr_u16 (of_i16 x.ch0)
    ++ (wr_u16 (of_i16 x.ch1) ++ (wr_u16 (of_i16 x.ch2) ++ (wr_u16 (of_i16 x.ch3))))

unfoldable pub read_force : List ℕ → Force
read_force p = record {
  ch0 = to_i16 (rd_u16 p);
  ch1 = to_i16 (rd_u16 (drop 2 p));
  ch2 = to_i16 (rd_u16 (drop 4 p));
  ch3 = to_i16 (rd_u16 (drop 6 p));
}

read-write_force :
    (x : Force) → ForceFits x → (read_force (write_force x) ≡ x) × (length (write_force x) ≡ 8)
unfolding read_force write_force
read-write_force x h = ground (
  arith,
  rd-wr_u16 (of_i16 x.ch0) (drop 2 (write_force x)),
  to_i16-of_i16 x.ch0,
  rd-wr_u16 (of_i16 x.ch1) (drop 4 (write_force x)),
  to_i16-of_i16 x.ch1,
  rd-wr_u16 (of_i16 x.ch2) (drop 6 (write_force x)),
  to_i16-of_i16 x.ch2,
  rd-wr_u16 (of_i16 x.ch3) (drop 8 (write_force x)),
  to_i16-of_i16 x.ch3,
)

-- `ps_bms_summary_t`
pub record BmsSummary : Type 0 where
  pub pack_cv : ℕ
  pub current_ca : ℤ
  pub soc_pct : ℕ
  pub temp_max_c : ℤ
  pub fault_bits : ℕ

-- Each field is in the range of its type.
abbrev pub BmsSummaryFits : BmsSummary → Type 0
BmsSummaryFits x =
    IsU16 x.pack_cv × IsI16 x.current_ca × IsByte x.soc_pct × IsI8 x.temp_max_c × IsU16 x.fault_bits

unfoldable pub write_bms_summary : BmsSummary → List ℕ
unfolding wr_u16 wr_u32
write_bms_summary x =
    wr_u16 x.pack_cv
    ++ (wr_u16 (of_i16 x.current_ca) ++ (x.soc_pct ∷ (of_i8 x.temp_max_c ∷ (wr_u16 x.fault_bits))))

unfoldable pub read_bms_summary : List ℕ → BmsSummary
read_bms_summary p = record {
  pack_cv = rd_u16 p;
  current_ca = to_i16 (rd_u16 (drop 2 p));
  soc_pct = at p 4;
  temp_max_c = to_i8 (at p 5);
  fault_bits = rd_u16 (drop 6 p);
}

read-write_bms_summary :
    (x : BmsSummary)
    → BmsSummaryFits x
    → (read_bms_summary (write_bms_summary x) ≡ x) × (length (write_bms_summary x) ≡ 8)
unfolding read_bms_summary write_bms_summary
read-write_bms_summary x h = ground (
  arith,
  rd-wr_u16 x.pack_cv (drop 2 (write_bms_summary x)),
  rd-wr_u16 (of_i16 x.current_ca) (drop 4 (write_bms_summary x)),
  to_i16-of_i16 x.current_ca,
  to_i8-of_i8 x.temp_max_c,
  rd-wr_u16 x.fault_bits (drop 8 (write_bms_summary x)),
)

-- `ps_bms_cells_t`
pub record BmsCells : Type 0 where
  pub group : ℕ
  pub rsvd : ℕ
  pub mv0 : ℕ
  pub mv1 : ℕ
  pub mv2 : ℕ

-- Each field is in the range of its type.
abbrev pub BmsCellsFits : BmsCells → Type 0
BmsCellsFits x = IsByte x.group × IsByte x.rsvd × IsU16 x.mv0 × IsU16 x.mv1 × IsU16 x.mv2

unfoldable pub write_bms_cells : BmsCells → List ℕ
unfolding wr_u16 wr_u32
write_bms_cells x = x.group ∷ (x.rsvd ∷ (wr_u16 x.mv0 ++ (wr_u16 x.mv1 ++ (wr_u16 x.mv2))))

unfoldable pub read_bms_cells : List ℕ → BmsCells
read_bms_cells p = record {
  group = at p 0;
  rsvd = at p 1;
  mv0 = rd_u16 (drop 2 p);
  mv1 = rd_u16 (drop 4 p);
  mv2 = rd_u16 (drop 6 p);
}

read-write_bms_cells :
    (x : BmsCells)
    → BmsCellsFits x
    → (read_bms_cells (write_bms_cells x) ≡ x) × (length (write_bms_cells x) ≡ 8)
unfolding read_bms_cells write_bms_cells
read-write_bms_cells x h = ground (
  arith,
  rd-wr_u16 x.mv0 (drop 4 (write_bms_cells x)),
  rd-wr_u16 x.mv1 (drop 6 (write_bms_cells x)),
  rd-wr_u16 x.mv2 (drop 8 (write_bms_cells x)),
)

-- `ps_aero_state_t`
pub record AeroState : Type 0 where
  pub ias_cms : ℕ
  pub q_pa : ℕ
  pub aoa_cdeg : ℤ
  pub flags : ℕ

-- Each field is in the range of its type.
abbrev pub AeroStateFits : AeroState → Type 0
AeroStateFits x = IsU16 x.ias_cms × IsU16 x.q_pa × IsI16 x.aoa_cdeg × IsU16 x.flags

unfoldable pub write_aero_state : AeroState → List ℕ
unfolding wr_u16 wr_u32
write_aero_state x =
    wr_u16 x.ias_cms ++ (wr_u16 x.q_pa ++ (wr_u16 (of_i16 x.aoa_cdeg) ++ (wr_u16 x.flags)))

unfoldable pub read_aero_state : List ℕ → AeroState
read_aero_state p = record {
  ias_cms = rd_u16 p;
  q_pa = rd_u16 (drop 2 p);
  aoa_cdeg = to_i16 (rd_u16 (drop 4 p));
  flags = rd_u16 (drop 6 p);
}

read-write_aero_state :
    (x : AeroState)
    → AeroStateFits x
    → (read_aero_state (write_aero_state x) ≡ x) × (length (write_aero_state x) ≡ 8)
unfolding read_aero_state write_aero_state
read-write_aero_state x h = ground (
  arith,
  rd-wr_u16 x.ias_cms (drop 2 (write_aero_state x)),
  rd-wr_u16 x.q_pa (drop 4 (write_aero_state x)),
  rd-wr_u16 (of_i16 x.aoa_cdeg) (drop 6 (write_aero_state x)),
  to_i16-of_i16 x.aoa_cdeg,
  rd-wr_u16 x.flags (drop 8 (write_aero_state x)),
)

-- `ps_flap_state_t`
pub record FlapState : Type 0 where
  pub flap : ℕ
  pub flags : ℕ
  pub pos_pm : ℤ
  pub target_pm : ℤ
  pub rsvd : ℕ

-- Each field is in the range of its type.
abbrev pub FlapStateFits : FlapState → Type 0
FlapStateFits x = IsByte x.flap × IsByte x.flags × IsI16 x.pos_pm × IsI16 x.target_pm × IsU16 x.rsvd

unfoldable pub write_flap_state : FlapState → List ℕ
unfolding wr_u16 wr_u32
write_flap_state x =
    x.flap
    ∷ (x.flags ∷ (wr_u16 (of_i16 x.pos_pm) ++ (wr_u16 (of_i16 x.target_pm) ++ (wr_u16 x.rsvd))))

unfoldable pub read_flap_state : List ℕ → FlapState
read_flap_state p = record {
  flap = at p 0;
  flags = at p 1;
  pos_pm = to_i16 (rd_u16 (drop 2 p));
  target_pm = to_i16 (rd_u16 (drop 4 p));
  rsvd = rd_u16 (drop 6 p);
}

read-write_flap_state :
    (x : FlapState)
    → FlapStateFits x
    → (read_flap_state (write_flap_state x) ≡ x) × (length (write_flap_state x) ≡ 8)
unfolding read_flap_state write_flap_state
read-write_flap_state x h = ground (
  arith,
  rd-wr_u16 (of_i16 x.pos_pm) (drop 4 (write_flap_state x)),
  to_i16-of_i16 x.pos_pm,
  rd-wr_u16 (of_i16 x.target_pm) (drop 6 (write_flap_state x)),
  to_i16-of_i16 x.target_pm,
  rd-wr_u16 x.rsvd (drop 8 (write_flap_state x)),
)

-- `ps_env_t`
pub record Env : Type 0 where
  pub temp_cc : ℤ
  pub rh_pm : ℕ
  pub press_dh_pa : ℕ
  pub rsvd : ℕ

-- Each field is in the range of its type.
abbrev pub EnvFits : Env → Type 0
EnvFits x = IsI16 x.temp_cc × IsU16 x.rh_pm × IsU16 x.press_dh_pa × IsU16 x.rsvd

unfoldable pub write_env : Env → List ℕ
unfolding wr_u16 wr_u32
write_env x =
    wr_u16 (of_i16 x.temp_cc) ++ (wr_u16 x.rh_pm ++ (wr_u16 x.press_dh_pa ++ (wr_u16 x.rsvd)))

unfoldable pub read_env : List ℕ → Env
read_env p = record {
  temp_cc = to_i16 (rd_u16 p);
  rh_pm = rd_u16 (drop 2 p);
  press_dh_pa = rd_u16 (drop 4 p);
  rsvd = rd_u16 (drop 6 p);
}

read-write_env : (x : Env) → EnvFits x → (read_env (write_env x) ≡ x) × (length (write_env x) ≡ 8)
unfolding read_env write_env
read-write_env x h = ground (
  arith,
  rd-wr_u16 (of_i16 x.temp_cc) (drop 2 (write_env x)),
  to_i16-of_i16 x.temp_cc,
  rd-wr_u16 x.rh_pm (drop 4 (write_env x)),
  rd-wr_u16 x.press_dh_pa (drop 6 (write_env x)),
  rd-wr_u16 x.rsvd (drop 8 (write_env x)),
)

-- `ps_node_stats_t`
pub record NodeStats : Type 0 where
  pub cpu_pct : ℕ
  pub state : ℕ
  pub rx_fps : ℕ
  pub tx_fps : ℕ
  pub err_cnt : ℕ

-- Each field is in the range of its type.
abbrev pub NodeStatsFits : NodeStats → Type 0
NodeStatsFits x =
    IsByte x.cpu_pct × IsByte x.state × IsU16 x.rx_fps × IsU16 x.tx_fps × IsU16 x.err_cnt

unfoldable pub write_node_stats : NodeStats → List ℕ
unfolding wr_u16 wr_u32
write_node_stats x =
    x.cpu_pct ∷ (x.state ∷ (wr_u16 x.rx_fps ++ (wr_u16 x.tx_fps ++ (wr_u16 x.err_cnt))))

unfoldable pub read_node_stats : List ℕ → NodeStats
read_node_stats p = record {
  cpu_pct = at p 0;
  state = at p 1;
  rx_fps = rd_u16 (drop 2 p);
  tx_fps = rd_u16 (drop 4 p);
  err_cnt = rd_u16 (drop 6 p);
}

read-write_node_stats :
    (x : NodeStats)
    → NodeStatsFits x
    → (read_node_stats (write_node_stats x) ≡ x) × (length (write_node_stats x) ≡ 8)
unfolding read_node_stats write_node_stats
read-write_node_stats x h = ground (
  arith,
  rd-wr_u16 x.rx_fps (drop 4 (write_node_stats x)),
  rd-wr_u16 x.tx_fps (drop 6 (write_node_stats x)),
  rd-wr_u16 x.err_cnt (drop 8 (write_node_stats x)),
)

-- Every TELEM payload with its fields in range takes eight bytes, and is read back from them.
pub telem_roundtrip :
    ((x : JointState)
      → JointStateFits x
      → (read_joint_state (write_joint_state x) ≡ x) × (length (write_joint_state x) ≡ 8))
    × ((x : ImuQuat)
        → ImuQuatFits x
        → (read_imu_quat (write_imu_quat x) ≡ x) × (length (write_imu_quat x) ≡ 8))
    × ((x : ImuAcc)
        → ImuAccFits x
        → (read_imu_acc (write_imu_acc x) ≡ x) × (length (write_imu_acc x) ≡ 8))
    × ((x : ImuGyr)
        → ImuGyrFits x
        → (read_imu_gyr (write_imu_gyr x) ≡ x) × (length (write_imu_gyr x) ≡ 8))
    × ((x : Force) → ForceFits x → (read_force (write_force x) ≡ x) × (length (write_force x) ≡ 8))
    × ((x : BmsSummary)
        → BmsSummaryFits x
        → (read_bms_summary (write_bms_summary x) ≡ x) × (length (write_bms_summary x) ≡ 8))
    × ((x : BmsCells)
        → BmsCellsFits x
        → (read_bms_cells (write_bms_cells x) ≡ x) × (length (write_bms_cells x) ≡ 8))
    × ((x : AeroState)
        → AeroStateFits x
        → (read_aero_state (write_aero_state x) ≡ x) × (length (write_aero_state x) ≡ 8))
    × ((x : FlapState)
        → FlapStateFits x
        → (read_flap_state (write_flap_state x) ≡ x) × (length (write_flap_state x) ≡ 8))
    × ((x : Env) → EnvFits x → (read_env (write_env x) ≡ x) × (length (write_env x) ≡ 8))
    × ((x : NodeStats)
        → NodeStatsFits x
        → (read_node_stats (write_node_stats x) ≡ x) × (length (write_node_stats x) ≡ 8))
telem_roundtrip = (
  read-write_joint_state, read-write_imu_quat, read-write_imu_acc, read-write_imu_gyr,
  read-write_force, read-write_bms_summary, read-write_bms_cells, read-write_aero_state,
  read-write_flap_state, read-write_env, read-write_node_stats,
)
