-- ===== src/Wire/LinkPayloads.antt =====
-- wire.h: the AUDIO and MGMT payloads, as records and as the eight bytes that `PS_WIRE_WRITE` copies and
-- `PS_WIRE_READ` reads.
use powersuit.Base.{ℕ, ◌≡◌, arith, List, ◌∷◌, ◌++◌, drop, length, IsByte, IsU16, IsU32}
use powersuit.Base.Int.{ℤ}
use powersuit.Bytes.{
  at, rd_u16, rd_u32, wr_u16, wr_u32, rd-wr_u16, rd-wr_u32, IsI16, of_i16, to_i16, to_i16-of_i16,
}

-- `ps_audio_sync_t`
pub record AudioSync : Type 0 where
  pub dir : ℕ
  pub step_index : ℕ
  pub predictor : ℤ
  pub frame_seq : ℕ
  pub rsvd : ℕ

-- Each field is in the range of its type.
abbrev pub AudioSyncFits : AudioSync → Type 0
AudioSyncFits x =
    IsByte x.dir × IsByte x.step_index × IsI16 x.predictor × IsU16 x.frame_seq × IsU16 x.rsvd

unfoldable pub write_audio_sync : AudioSync → List ℕ
unfolding wr_u16 wr_u32
write_audio_sync x =
    x.dir
    ∷ (x.step_index ∷ (wr_u16 (of_i16 x.predictor) ++ (wr_u16 x.frame_seq ++ (wr_u16 x.rsvd))))

unfoldable pub read_audio_sync : List ℕ → AudioSync
read_audio_sync p = record {
  dir = at p 0;
  step_index = at p 1;
  predictor = to_i16 (rd_u16 (drop 2 p));
  frame_seq = rd_u16 (drop 4 p);
  rsvd = rd_u16 (drop 6 p);
}

pub read-write_audio_sync :
    (x : AudioSync)
    → AudioSyncFits x
    → (read_audio_sync (write_audio_sync x) ≡ x) × (length (write_audio_sync x) ≡ 8)
unfolding read_audio_sync write_audio_sync
read-write_audio_sync x h = ground (
  arith,
  rd-wr_u16 (of_i16 x.predictor) (drop 4 (write_audio_sync x)),
  to_i16-of_i16 x.predictor,
  rd-wr_u16 x.frame_seq (drop 6 (write_audio_sync x)),
  rd-wr_u16 x.rsvd (drop 8 (write_audio_sync x)),
)

-- `ps_audio_ctl_t`
pub record AudioCtl : Type 0 where
  pub dir : ℕ
  pub cmd : ℕ
  pub sample_rate : ℕ
  pub rsvd : ℕ

-- Each field is in the range of its type.
abbrev pub AudioCtlFits : AudioCtl → Type 0
AudioCtlFits x = IsByte x.dir × IsByte x.cmd × IsU16 x.sample_rate × IsU32 x.rsvd

unfoldable pub write_audio_ctl : AudioCtl → List ℕ
unfolding wr_u16 wr_u32
write_audio_ctl x = x.dir ∷ (x.cmd ∷ (wr_u16 x.sample_rate ++ (wr_u32 x.rsvd)))

unfoldable pub read_audio_ctl : List ℕ → AudioCtl
read_audio_ctl p = record {
  dir = at p 0;
  cmd = at p 1;
  sample_rate = rd_u16 (drop 2 p);
  rsvd = rd_u32 (drop 4 p);
}

read-write_audio_ctl :
    (x : AudioCtl)
    → AudioCtlFits x
    → (read_audio_ctl (write_audio_ctl x) ≡ x) × (length (write_audio_ctl x) ≡ 8)
unfolding read_audio_ctl write_audio_ctl
read-write_audio_ctl x h = ground (
  arith,
  rd-wr_u16 x.sample_rate (drop 4 (write_audio_ctl x)),
  rd-wr_u32 x.rsvd (drop 8 (write_audio_ctl x)),
)

-- `ps_time_sync_t`
pub record TimeSync : Type 0 where
  pub epoch_ms_lo : ℕ
  pub seq : ℕ
  pub rsvd : ℕ

-- Each field is in the range of its type.
abbrev pub TimeSyncFits : TimeSync → Type 0
TimeSyncFits x = IsU32 x.epoch_ms_lo × IsU16 x.seq × IsU16 x.rsvd

unfoldable pub write_time_sync : TimeSync → List ℕ
unfolding wr_u16 wr_u32
write_time_sync x = wr_u32 x.epoch_ms_lo ++ (wr_u16 x.seq ++ (wr_u16 x.rsvd))

unfoldable pub read_time_sync : List ℕ → TimeSync
read_time_sync p = record {
  epoch_ms_lo = rd_u32 p;
  seq = rd_u16 (drop 4 p);
  rsvd = rd_u16 (drop 6 p);
}

pub read-write_time_sync :
    (x : TimeSync)
    → TimeSyncFits x
    → (read_time_sync (write_time_sync x) ≡ x) × (length (write_time_sync x) ≡ 8)
unfolding read_time_sync write_time_sync
read-write_time_sync x h = ground (
  arith,
  rd-wr_u32 x.epoch_ms_lo (drop 4 (write_time_sync x)),
  rd-wr_u16 x.seq (drop 6 (write_time_sync x)),
  rd-wr_u16 x.rsvd (drop 8 (write_time_sync x)),
)

-- `ps_flow_ctl_t`
pub record FlowCtl : Type 0 where
  pub plane : ℕ
  pub level : ℕ
  pub rsvd : ℕ
  pub rsvd2 : ℕ

-- Each field is in the range of its type.
abbrev pub FlowCtlFits : FlowCtl → Type 0
FlowCtlFits x = IsByte x.plane × IsByte x.level × IsU16 x.rsvd × IsU32 x.rsvd2

unfoldable pub write_flow_ctl : FlowCtl → List ℕ
unfolding wr_u16 wr_u32
write_flow_ctl x = x.plane ∷ (x.level ∷ (wr_u16 x.rsvd ++ (wr_u32 x.rsvd2)))

unfoldable pub read_flow_ctl : List ℕ → FlowCtl
read_flow_ctl p = record {
  plane = at p 0;
  level = at p 1;
  rsvd = rd_u16 (drop 2 p);
  rsvd2 = rd_u32 (drop 4 p);
}

read-write_flow_ctl :
    (x : FlowCtl)
    → FlowCtlFits x
    → (read_flow_ctl (write_flow_ctl x) ≡ x) × (length (write_flow_ctl x) ≡ 8)
unfolding read_flow_ctl write_flow_ctl
read-write_flow_ctl x h = ground (
  arith,
  rd-wr_u16 x.rsvd (drop 4 (write_flow_ctl x)),
  rd-wr_u32 x.rsvd2 (drop 8 (write_flow_ctl x)),
)

-- `ps_version_t`
pub record Version : Type 0 where
  pub major : ℕ
  pub minor : ℕ
  pub patch : ℕ
  pub node_state : ℕ
  pub git_short : ℕ

-- Each field is in the range of its type.
abbrev pub VersionFits : Version → Type 0
VersionFits x =
    IsByte x.major × IsByte x.minor × IsByte x.patch × IsByte x.node_state × IsU32 x.git_short

unfoldable pub write_version : Version → List ℕ
unfolding wr_u16 wr_u32
write_version x = x.major ∷ (x.minor ∷ (x.patch ∷ (x.node_state ∷ (wr_u32 x.git_short))))

unfoldable pub read_version : List ℕ → Version
read_version p = record {
  major = at p 0;
  minor = at p 1;
  patch = at p 2;
  node_state = at p 3;
  git_short = rd_u32 (drop 4 p);
}

read-write_version :
    (x : Version)
    → VersionFits x
    → (read_version (write_version x) ≡ x) × (length (write_version x) ≡ 8)
unfolding read_version write_version
read-write_version x h = ground (arith, rd-wr_u32 x.git_short (drop 8 (write_version x)))

-- Every AUDIO and MGMT payload with its fields in range takes eight bytes, and is read back from them.
pub link_roundtrip :
    ((x : AudioSync)
      → AudioSyncFits x
      → (read_audio_sync (write_audio_sync x) ≡ x) × (length (write_audio_sync x) ≡ 8))
    × ((x : AudioCtl)
        → AudioCtlFits x
        → (read_audio_ctl (write_audio_ctl x) ≡ x) × (length (write_audio_ctl x) ≡ 8))
    × ((x : TimeSync)
        → TimeSyncFits x
        → (read_time_sync (write_time_sync x) ≡ x) × (length (write_time_sync x) ≡ 8))
    × ((x : FlowCtl)
        → FlowCtlFits x
        → (read_flow_ctl (write_flow_ctl x) ≡ x) × (length (write_flow_ctl x) ≡ 8))
    × ((x : Version)
        → VersionFits x
        → (read_version (write_version x) ≡ x) × (length (write_version x) ≡ 8))
link_roundtrip = (
  read-write_audio_sync, read-write_audio_ctl, read-write_time_sync, read-write_flow_ctl,
  read-write_version,
)
