-- ===== src/Bridge.antt =====
-- firmware/components/ps_spibridge/src/ps_spibridge.c: the bridge to the orchestrator. The two queues are a
-- parameter, by the calls that the code makes of them; the GPIO level is the field `data_ready`.
pub mod Flow
use powersuit.Base.{
  ℕ, zero, suc, ◌+◌, ◌-◌, ◌<◌, ◌/◌, Bool, true, false, not, ◌&&◌, Option, none, some, List, [], ◌∷◌,
  ◌++◌, length, u8, u32, ltb, ◌==◌, if◌then◌else◌, bit_or, bit_and, take,
}
use powersuit.Base.Queue.{Ops}
use powersuit.SpiFrame.{
  Record, View, Status, ok, short, hdr_size, max_records, frame_parse, frame_build, view_record,
}

abbrev pub flag_estop_latched : ℕ
flag_estop_latched = 1

abbrev pub flag_overflow : ℕ
flag_overflow = 2

abbrev pub flag_more_pending : ℕ
flag_more_pending = 4

abbrev pub flag_hub_fault : ℕ
flag_hub_fault = 8

-- The bridge's variables; `ps_spib_stats_t` is the last five fields.
pub record Bridge (Q : Type 0) : Type 0 where
  pub uplink : Q
  pub downlink : Q
  pub data_ready : Bool
  pub started : Bool
  pub sticky_flags : ℕ
  pub overflow_pending : Bool
  pub tx_seq : ℕ
  pub rx_seq : ℕ
  pub have_rx_seq : Bool
  pub downlink_drops : ℕ
  pub transactions : ℕ
  pub crc_errors : ℕ
  pub uplink_overflows : ℕ
  pub downlink_records : ℕ
  pub seq_gaps : ℕ

-- The loop of `spib_rx_is_idle`: the first `n` bytes are zero.
unfoldable pub all_zero : ℕ → List ℕ → Bool
all_zero zero bytes = true
all_zero (suc n) [] = true
all_zero (suc n) (b ∷ bytes) = if b == 0 then all_zero n bytes else false

-- `spib_rx_is_idle`
unfoldable pub rx_is_idle : List ℕ → Bool
unfolding all_zero
rx_is_idle rx =
    if length rx == 0
    then true
    else if ltb (length rx) hdr_size
    then false
    else all_zero hdr_size rx

module _ {Q : Type 0} (k : Ops Q Record) where
  -- `spib_update_data_ready`
  unfoldable pub update_data_ready : Bridge Q → Bridge Q
  update_data_ready b = record b { data_ready = ltb 0 (k.waiting b.uplink) }

  -- The part of the loop of `spib_handle_rx` under a full queue: the oldest record is dropped for the new
  -- one, and the results of the two calls are not looked at.
  unfoldable pub drop_oldest : Q → Record → Q
  drop_oldest q r =
      let room : Q = elim (k.receive q) [ none ↦ q | some (scrap, q') ↦ q' ] in
      elim (k.send room r) [ none ↦ room | some q' ↦ q' ]

  -- `rec` is given to the downlink queue.
  unfoldable pub deliver : Bridge Q → Record → Bridge Q
  unfolding drop_oldest
  deliver b r =
      let sent : Bridge Q = elim (k.send b.downlink r) [
        | none ↦ record b {
          downlink = drop_oldest b.downlink r;
          downlink_drops = u32 (b.downlink_drops + 1);
        }
        | some q ↦ record b { downlink = q }
      ] in
      record sent { downlink_records = u32 (sent.downlink_records + 1) }

  -- A record that `ps_spi_view_record` gives is delivered, any other result is counted.
  unfoldable pub take_read : Bridge Q → Status × Option Record → Bridge Q
  unfolding deliver
  take_read b (ok, some r) = deliver b r
  take_read b _ = record b { crc_errors = u32 (b.crc_errors + 1) }

  -- The body of the loop of `spib_handle_rx` at record `i`.
  unfoldable pub take_record : View → Bridge Q → ℕ → Bridge Q
  unfolding take_read
  take_record v b i = take_read b (view_record v i)

  -- The loop, with `n` records left from `i` on.
  unfoldable pub take_records : View → ℕ → ℕ → Bridge Q → Bridge Q
  unfolding take_record
  take_records v zero i b = b
  take_records v (suc n) i b = take_records v n (i + 1) (take_record v b i)

  -- The sequence check of a frame that parses.
  unfoldable pub note_seq : Bridge Q → ℕ → Bridge Q
  note_seq b seq =
      let gap = b.have_rx_seq && not (seq == u8 (b.rx_seq + 1)) in
      record b {
        seq_gaps = if gap then u32 (b.seq_gaps + 1) else b.seq_gaps;
        rx_seq = seq;
        have_rx_seq = true;
      }

  -- What `spib_handle_rx` does with what the parser gives.
  unfoldable pub take_parsed : Bridge Q → List ℕ → Status × Option View → Bridge Q
  unfolding rx_is_idle note_seq take_records
  take_parsed b rx (ok, some v) = take_records v v.count 0 (note_seq b v.seq)
  take_parsed b rx _ = if rx_is_idle rx then b else record b { crc_errors = u32 (b.crc_errors + 1) }

  -- `spib_handle_rx`; a transaction too short for a header is `short`, as the parser would say itself.
  unfoldable pub handle_rx : Bridge Q → List ℕ → Bridge Q
  unfolding take_parsed
  handle_rx b rx =
      take_parsed b rx (if ltb (length rx) hdr_size then (short, none) else frame_parse rx)

  -- The loop of `spib_build_tx` with `n` places left in `recs`.
  unfoldable pub drain : ℕ → Q → List Record × Q
  drain zero q = ([], q)
  drain (suc n) q = elim (k.receive q) [
    | none ↦ ([], q)
    | some (r, q') ↦ (let (rs, left) = drain n q' in (r ∷ rs, left))
  ]

  -- `spib_build_tx`: the state after it and the result of `ps_spi_frame_build`.
  unfoldable pub build_tx : Bridge Q → Bridge Q × Option (List ℕ × ℕ)
  unfolding drain
  build_tx b =
      let (recs, left) = drain max_records b.uplink in
      let flags =
        if b.overflow_pending then bit_or b.sticky_flags flag_overflow else b.sticky_flags in
      let flags' = if ltb 0 (k.waiting left) then bit_or flags flag_more_pending else flags in
      (
        record b { uplink = left; overflow_pending = false; tx_seq = u8 (b.tx_seq + 1) },
        frame_build flags' b.tx_seq recs,
      )

  -- One round of `spib_pump_task` that has clocked `bits` bits; the buffer goes back to the driver.
  unfoldable pub pump : Bridge Q → List ℕ → ℕ → Bridge Q × Option (List ℕ × ℕ)
  unfolding handle_rx build_tx update_data_ready
  pump b rx bits =
      let counted = record b { transactions = u32 (b.transactions + 1) } in
      let (b', frame) = build_tx (handle_rx counted (take (bits / 8) rx)) in
      (update_data_ready b', frame)

  -- `ps_spib_uplink_push`; `none` is the null pointer.
  unfoldable pub uplink_push : Bridge Q → Option Record → Bridge Q × Bool
  uplink_push b none = (b, false)
  uplink_push b (some r) = if not b.started then (b, false) else elim (k.send b.uplink r) [
    | none ↦ (
      record b { overflow_pending = true; uplink_overflows = u32 (b.uplink_overflows + 1) },
      false,
    )
    | some q ↦ (record b { uplink = q; data_ready = true }, true)
  ]

  -- `ps_spib_downlink_pop` with no wait.
  unfoldable pub downlink_pop : Bridge Q → Bridge Q × Option Record
  downlink_pop b = if not b.started then (b, none) else elim (k.receive b.downlink) [
    | none ↦ (b, none)
    | some (r, q) ↦ (record b { downlink = q }, some r)
  ]

-- `ps_spib_set_flag`; the complement of a byte is its difference from 255.
unfoldable pub set_flag : {Q : Type 0} → Bridge Q → ℕ → Bool → Bridge Q
set_flag b flag on =
    let flag' = bit_and flag (bit_or flag_estop_latched flag_hub_fault) in
    record b {
      sticky_flags =
          if on then bit_or b.sticky_flags flag' else bit_and b.sticky_flags (255 - flag');
    }
