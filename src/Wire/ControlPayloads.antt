-- ===== src/Wire/ControlPayloads.antt =====
-- wire.h: the CONTROL payloads, as records and as the eight bytes that `PS_WIRE_WRITE` copies and
-- `PS_WIRE_READ` reads.
use powersuit.Base.{
  ℕ, ◌≡◌, arith, List, [], ◌∷◌, ◌++◌, drop, length, take, take-append, append-nil, IsByte, IsU16,
}
use powersuit.Base.Int.{ℤ}
use powersuit.Bytes.{at, rd_u16, wr_u16, wr_u32, rd-wr_u16, IsI16, of_i16, to_i16, to_i16-of_i16}

-- `ps_joint_cmd_t`
pub record JointCmd : Type 0 where
  pub joint : ℕ
  pub mode : ℕ
  pub pos_crad : ℤ
  pub vel_crad_s : ℤ
  pub eff_cnm : ℤ

-- Each field is in the range of its type.
abbrev pub JointCmdFits : JointCmd → Type 0
JointCmdFits x =
    IsByte x.joint × IsByte x.mode × IsI16 x.pos_crad × IsI16 x.vel_crad_s × IsI16 x.eff_cnm

unfoldable pub write_joint_cmd : JointCmd → List ℕ
unfolding wr_u16 wr_u32
write_joint_cmd x =
    x.joint
    ∷ (x.mode
        ∷ (wr_u16 (of_i16 x.pos_crad)
            ++ (wr_u16 (of_i16 x.vel_crad_s) ++ (wr_u16 (of_i16 x.eff_cnm)))))

unfoldable pub read_joint_cmd : List ℕ → JointCmd
read_joint_cmd p = record {
  joint = at p 0;
  mode = at p 1;
  pos_crad = to_i16 (rd_u16 (drop 2 p));
  vel_crad_s = to_i16 (rd_u16 (drop 4 p));
  eff_cnm = to_i16 (rd_u16 (drop 6 p));
}

read-write_joint_cmd :
    (x : JointCmd)
    → JointCmdFits x
    → (read_joint_cmd (write_joint_cmd x) ≡ x) × (length (write_joint_cmd x) ≡ 8)
unfolding read_joint_cmd write_joint_cmd
read-write_joint_cmd x h = ground (
  arith,
  rd-wr_u16 (of_i16 x.pos_crad) (drop 4 (write_joint_cmd x)),
  to_i16-of_i16 x.pos_crad,
  rd-wr_u16 (of_i16 x.vel_crad_s) (drop 6 (write_joint_cmd x)),
  to_i16-of_i16 x.vel_crad_s,
  rd-wr_u16 (of_i16 x.eff_cnm) (drop 8 (write_joint_cmd x)),
  to_i16-of_i16 x.eff_cnm,
)

-- `ps_flap_cmd_t`
pub record FlapCmd : Type 0 where
  pub flap : ℕ
  pub rate_lim : ℕ
  pub pos_pm : ℤ
  pub flags : ℕ
  pub rsvd : ℕ

-- Each field is in the range of its type.
abbrev pub FlapCmdFits : FlapCmd → Type 0
FlapCmdFits x = IsByte x.flap × IsByte x.rate_lim × IsI16 x.pos_pm × IsU16 x.flags × IsU16 x.rsvd

unfoldable pub write_flap_cmd : FlapCmd → List ℕ
unfolding wr_u16 wr_u32
write_flap_cmd x =
    x.flap ∷ (x.rate_lim ∷ (wr_u16 (of_i16 x.pos_pm) ++ (wr_u16 x.flags ++ (wr_u16 x.rsvd))))

unfoldable pub read_flap_cmd : List ℕ → FlapCmd
read_flap_cmd p = record {
  flap = at p 0;
  rate_lim = at p 1;
  pos_pm = to_i16 (rd_u16 (drop 2 p));
  flags = rd_u16 (drop 4 p);
  rsvd = rd_u16 (drop 6 p);
}

read-write_flap_cmd :
    (x : FlapCmd)
    → FlapCmdFits x
    → (read_flap_cmd (write_flap_cmd x) ≡ x) × (length (write_flap_cmd x) ≡ 8)
unfolding read_flap_cmd write_flap_cmd
read-write_flap_cmd x h = ground (
  arith,
  rd-wr_u16 (of_i16 x.pos_pm) (drop 4 (write_flap_cmd x)),
  to_i16-of_i16 x.pos_pm,
  rd-wr_u16 x.flags (drop 6 (write_flap_cmd x)),
  rd-wr_u16 x.rsvd (drop 8 (write_flap_cmd x)),
)

-- `ps_mode_set_t`
pub record ModeSet : Type 0 where
  pub target_state : ℕ
  pub rsvd : List ℕ

-- Each field is in the range of its type.
abbrev pub ModeSetFits : ModeSet → Type 0
ModeSetFits x = IsByte x.target_state × (length x.rsvd ≡ 7)

unfoldable pub write_mode_set : ModeSet → List ℕ
unfolding wr_u16 wr_u32
write_mode_set x = x.target_state ∷ (x.rsvd)

unfoldable pub read_mode_set : List ℕ → ModeSet
read_mode_set p = record { target_state = at p 0; rsvd = take 7 (drop 1 p) }

read-write_mode_set :
    (x : ModeSet)
    → ModeSetFits x
    → (read_mode_set (write_mode_set x) ≡ x) × (length (write_mode_set x) ≡ 8)
unfolding read_mode_set write_mode_set
read-write_mode_set x h = ground (arith, take-append x.rsvd [] 7, append-nil x.rsvd)

-- `ps_led_pattern_t`
pub record LedPattern : Type 0 where
  pub pattern_id : ℕ
  pub brightness : ℕ
  pub r : ℕ
  pub g : ℕ
  pub b : ℕ
  pub speed : ℕ
  pub rsvd : ℕ

-- Each field is in the range of its type.
abbrev pub LedPatternFits : LedPattern → Type 0
LedPatternFits x =
    IsByte x.pattern_id
    × IsByte x.brightness
    × IsByte x.r
    × IsByte x.g
    × IsByte x.b
    × IsByte x.speed
    × IsU16 x.rsvd

unfoldable pub write_led_pattern : LedPattern → List ℕ
unfolding wr_u16 wr_u32
write_led_pattern x =
    x.pattern_id ∷ (x.brightness ∷ (x.r ∷ (x.g ∷ (x.b ∷ (x.speed ∷ (wr_u16 x.rsvd))))))

unfoldable pub read_led_pattern : List ℕ → LedPattern
read_led_pattern p = record {
  pattern_id = at p 0;
  brightness = at p 1;
  r = at p 2;
  g = at p 3;
  b = at p 4;
  speed = at p 5;
  rsvd = rd_u16 (drop 6 p);
}

read-write_led_pattern :
    (x : LedPattern)
    → LedPatternFits x
    → (read_led_pattern (write_led_pattern x) ≡ x) × (length (write_led_pattern x) ≡ 8)
unfolding read_led_pattern write_led_pattern
read-write_led_pattern x h = ground (arith, rd-wr_u16 x.rsvd (drop 8 (write_led_pattern x)))

-- Every CONTROL payload with its fields in range takes eight bytes, and is read back from them.
pub control_roundtrip :
    ((x : JointCmd)
      → JointCmdFits x
      → (read_joint_cmd (write_joint_cmd x) ≡ x) × (length (write_joint_cmd x) ≡ 8))
    × ((x : FlapCmd)
        → FlapCmdFits x
        → (read_flap_cmd (write_flap_cmd x) ≡ x) × (length (write_flap_cmd x) ≡ 8))
    × ((x : ModeSet)
        → ModeSetFits x
        → (read_mode_set (write_mode_set x) ≡ x) × (length (write_mode_set x) ≡ 8))
    × ((x : LedPattern)
        → LedPatternFits x
        → (read_led_pattern (write_led_pattern x) ≡ x) × (length (write_led_pattern x) ≡ 8))
control_roundtrip =
    (read-write_joint_cmd, read-write_flap_cmd, read-write_mode_set, read-write_led_pattern)
