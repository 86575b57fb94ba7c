-- ===== src/Examples/LinkCases.antt =====
-- The frames of the link, their checksum and the bridge on concrete records.
use powersuit.Base.{
  ℕ, ◌≡◌, inl, inr, refl, arith, true, none, some, List, [], ◌∷◌, length, set, get_elem?, All,
}
use powersuit.Bytes.{rd_u16}
use powersuit.Crc.{update, byte_step, bit_loop, bit_step}
use powersuit.SpiFrame.{Record, View, ok, bad_crc, frame_build, frame_parse, frame_crc, view_record}
use powersuit.SpiFrame.Records.{Fits}
use powersuit.SpiFrame.Parse.{parse-build}
use powersuit.SpiFrame.Corrupt.{parse_detects}
use powersuit.Examples.Bounded.{Bounded}
use powersuit.Bridge.{Bridge}

abbrev pub command : Record
command = record {
  id = 0x05011000;
  bus = 0;
  dlc = 8;
  ts_ms = 500;
  payload = 1 ∷ 2 ∷ 3 ∷ 4 ∷ 5 ∷ 6 ∷ 7 ∷ 8 ∷ [];
}

pub command-Fits : Fits command
command-Fits = record {
  id = omega arith;
  bus = omega arith;
  dlc = omega arith;
  ts_ms = omega arith;
  payload = refl;
}

abbrev pub two : List Record
two = command ∷ command ∷ []

pub two-Fits : All Fits two
two-Fits = (command-Fits, (command-Fits, tt))

parse-build_example :
    (buf : List ℕ) × (v : View) × (frame_build 1 7 two ≡ some (buf, 40))
    × (length buf ≡ 512)
    × (frame_parse buf ≡ (ok, some v))
    × (v.flags ≡ 1)
    × (v.count ≡ 2)
    × (v.seq ≡ 7)
    × ((i : ℕ) (r : Record) → get_elem? two i ≡ some r → view_record v i ≡ (ok, some r))
parse-build_example = parse-build 1 7 two two-Fits (omega arith)

-- A frame with no record.
abbrev heading : List ℕ
heading = 0x5A ∷ 0xA5 ∷ 1 ∷ 0 ∷ 0 ∷ 7 ∷ 147 ∷ 130 ∷ []

abbrev empty_view : View
empty_view = record { flags = 0; count = 0; seq = 7; records = [] }

heading_parses : frame_parse heading ≡ (ok, some empty_view)
unfolding frame_parse frame_crc update byte_step bit_loop bit_step rd_u16
heading_parses = refl

parse_detects_example : frame_parse (set heading 5 9) ≡ (bad_crc, none)
parse_detects_example =
    parse_detects heading 5 9 heading_parses (inr (inl refl)) (omega arith) (omega arith)
      (omega arith)

abbrev pub bridge : Bridge (Bounded Record)
bridge = record {
  uplink = (256, two);
  downlink = (2, command ∷ []);
  data_ready = true;
  started = true;
  sticky_flags = 1;
  overflow_pending = true;
  tx_seq = 255;
  rx_seq = 3;
  have_rx_seq = true;
  downlink_drops = 0;
  transactions = 9;
  crc_errors = 0;
  uplink_overflows = 1;
  downlink_records = 3;
  seq_gaps = 0;
}
