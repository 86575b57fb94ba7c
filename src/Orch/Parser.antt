-- ===== src/Orch/Parser.antt =====
-- frame_parser.cpp: the orchestrator's end of the frames.
use powersuit.Base.{
  ℕ, zero, suc, ◌+◌, ◌%◌, ◌^◌, Bool, true, not, ◌&&◌, Option, none, some, List, [], ◌∷◌, length,
  ◌==◌, if◌then◌else◌, u8,
}
use powersuit.SpiFrame.{Record, View, Status, ok, bad_magic, frame_parse, frame_build, view_record}
use powersuit.Bridge.{all_zero}

-- `FrameParser`, with its `FrameStats` as the last five fields.
pub record Parser : Type 0 where
  pub tx_seq : ℕ
  pub have_rx_seq : Bool
  pub last_rx_seq : ℕ
  pub frames_ok : ℕ
  pub idle_frames : ℕ
  pub crc_errors : ℕ
  pub seq_gaps : ℕ
  pub resyncs : ℕ

-- `ParseResult`, with what the parser fills in: the records, the flags and the sequence number.
pub data ParseResult : Type 0 where
  k_ok : List Record → ℕ → ℕ → ParseResult
  k_idle k_error : ParseResult

-- A counter of 64 bits goes on.
abbrev pub next_u64 : ℕ → ℕ
next_u64 n = (n + 1) % 2 ^ 64

-- `FrameParser::build`: the buffer and the bytes used, or `none` for the 0.
unfoldable pub build : Parser → ℕ → List Record → Parser × Option (List ℕ × ℕ)
build p flags recs = elim (frame_build flags p.tx_seq recs) [
  | none ↦ (p, none)
  | some frame ↦ (record p { tx_seq = u8 (p.tx_seq + 1) }, some frame)
]

-- The record that `ps_spi_view_record` gives, where it gives one, goes in front of the others.
abbrev pub push_read : Status × Option Record → List Record → List Record
push_read (ok, some r) rs = r ∷ rs
push_read _ rs = rs

-- The loop over the records of a view, with `n` left from `i` on.
unfoldable pub read_records : View → ℕ → ℕ → List Record
read_records v zero i = []
read_records v (suc n) i = push_read (view_record v i) (read_records v n (i + 1))

-- A frame that the parser refuses.
unfoldable pub refuse : Parser → Status → Parser
refuse p bad_magic = record p { resyncs = next_u64 p.resyncs }
refuse p _ = record p { crc_errors = next_u64 p.crc_errors }

-- The sequence check of a frame that parses.
unfoldable pub check_seq : Parser → ℕ → Parser
check_seq p seq =
    let gap = p.have_rx_seq && not (seq == u8 (p.last_rx_seq + 1)) in
    record p {
      seq_gaps = if gap then next_u64 p.seq_gaps else p.seq_gaps;
      have_rx_seq = true;
      last_rx_seq = seq;
    }

-- What `parse` does with what `ps_spi_frame_parse` gives.
unfoldable pub take_view : Parser → Status × Option View → Parser × ParseResult
unfolding refuse check_seq read_records
take_view p (ok, some v) =
    let p' = check_seq p v.seq in
    (record p' { frames_ok = next_u64 p'.frames_ok }, k_ok (read_records v v.count 0) v.flags v.seq)
take_view p (s, _) = (refuse p s, k_error)

-- `FrameParser::parse`
unfoldable pub parse : Parser → List ℕ → Parser × ParseResult
unfolding take_view
parse p buf =
    if all_zero (length buf) buf
    then (record p { idle_frames = next_u64 p.idle_frames }, k_idle)
    else take_view p (frame_parse buf)
