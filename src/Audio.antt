-- ===== src/Audio.antt =====
-- firmware/components/ps_audio: the packetizer and depacketizer of audio_pkt.c. The emit callback is
-- the list of the frames that it is given, in order.
pub mod Gate
pub mod Ring
pub mod Stream
pub mod Cadence
use powersuit.Base.{
  ℕ, zero, suc, ◌+◌, ◌-◌, ◌%◌, ◌^◌, min, Bool, true, false, not, ◌||◌, List, [], ◌∷◌, ◌++◌, length,
  take, drop, set, get_or, replicate, u8, u16, u32, low_bits, leb, ltb, ◌==◌, if◌then◌else◌,
}
use powersuit.Base.Int.{ℤ, pos}
use powersuit.CanId.{
  pack, id_cls, id_type, id_low, cls_audio, t_audio_sync, t_audio_up, t_audio_down,
}
use powersuit.Wire.LinkPayloads.{AudioSync, write_audio_sync, read_audio_sync}
use powersuit.Adpcm
use powersuit.Adpcm.{Adpcm, encode, decode}

abbrev pub frame_bytes : ℕ
frame_bytes = 8

abbrev pub frame_samples : ℕ
frame_samples = 16

abbrev pub sync_interval : ℕ
sync_interval = 50

abbrev pub dir_up : ℕ
dir_up = 1

abbrev pub ring_samples : ℕ
ring_samples = 4096

-- `ps_audio_tx_t`; `pending` is the filled part of the array, so that its length is `pending_n`.
pub record Tx : Type 0 where
  pub enc : Adpcm
  pub frame_seq : ℕ
  pub dir : ℕ
  pub src_node : ℕ
  pub dst_node : ℕ
  pub frames_since_sync : ℕ
  pub started : Bool
  pub pending : List ℤ

-- What one call of the emit callback hands over; the payload has `dlc` bytes.
pub record Frame : Type 0 where
  pub id : ℕ
  pub payload : List ℕ
  pub dlc : ℕ

-- `ps_audio_tx_init`
unfoldable pub tx_init : ℕ → ℕ → ℕ → Tx
tx_init dir src_node dst_node = record {
  enc = Adpcm.init;
  frame_seq = 0;
  dir = dir;
  src_node = src_node;
  dst_node = dst_node;
  frames_since_sync = 0;
  started = false;
  pending = [];
}

-- `tx_emit_sync` and `ps_audio_tx_sync`
unfoldable pub tx_sync : Tx → Tx × List Frame
tx_sync tx = (
  record tx { frames_since_sync = 0; started = true },
  record {
    id = pack cls_audio tx.src_node tx.dst_node t_audio_sync (u8 (low_bits tx.frame_seq 8));
    payload = write_audio_sync (record {
      dir = tx.dir;
      step_index = u8 tx.enc.step_index;
      predictor = tx.enc.predictor;
      frame_seq = tx.frame_seq;
      rsvd = 0;
    });
    dlc = 8;
  }
      ∷ [],
)

-- A full frame goes out: the part of the loop of `ps_audio_tx_push` under `pending_n == 16`.
unfoldable pub tx_flush : Tx → Tx × List Frame
tx_flush tx =
    let (tx', syncs) =
      if not tx.started || leb sync_interval tx.frames_since_sync then tx_sync tx else (tx, []) in
    let (enc', bytes) = encode tx'.enc tx'.pending in
    let type : ℕ = if tx'.dir == dir_up then t_audio_up else t_audio_down in
    (
      record tx' {
        enc = enc';
        frame_seq = u16 (tx'.frame_seq + 1);
        frames_since_sync = u32 (tx'.frames_since_sync + 1);
        pending = [];
      },
      syncs
          ++ (record {
            id = pack cls_audio tx'.src_node tx'.dst_node type (u8 (low_bits tx'.frame_seq 8));
            payload = bytes;
            dlc = frame_bytes;
          }
              ∷ []),
    )

-- The loop of `ps_audio_tx_push`, on fuel; every round takes a sample, so the number of samples is
-- fuel enough. The result is the new state, the frames and `emitted`.
unfoldable pub tx_loop : ℕ → Tx → List ℤ → Tx × List Frame × ℕ
tx_loop zero tx pcm = (tx, [], 0)
tx_loop (suc fuel) tx [] = (tx, [], 0)
tx_loop (suc fuel) tx (x ∷ xs) =
    let n = min (frame_samples - length tx.pending) (length (x ∷ xs)) in
    let filled = record tx { pending = tx.pending ++ take n (x ∷ xs) } in
    let rest = drop n (x ∷ xs) in
    let (tx', frames) = tx_flush filled in
    let after_flush : Tx × List Frame × ℕ =
      (let (t, more, e) = tx_loop fuel tx' rest in (t, frames ++ more, e + 1)) in
    let no_flush : Tx × List Frame × ℕ = tx_loop fuel filled rest in
    if length filled.pending == frame_samples then after_flush else no_flush

-- `ps_audio_tx_push`
unfoldable pub tx_push : Tx → List ℤ → Tx × List Frame × ℕ
unfolding tx_loop
tx_push tx pcm = tx_loop (length pcm) tx pcm

-- `ps_audio_rx_t`
pub record Rx : Type 0 where
  pub dec : Adpcm
  pub expect_seq : ℕ
  pub locked : Bool
  pub gaps : ℕ
  pub ring : List ℤ
  pub head : ℕ
  pub tail : ℕ

-- `ps_audio_rx_init`; the ring's contents are what was there.
unfoldable pub rx_init : List ℤ → Rx
rx_init ring = record {
  dec = Adpcm.init;
  expect_seq = 0;
  locked = false;
  gaps = 0;
  ring = ring;
  head = 0;
  tail = 0;
}

-- The body of the loop of `rx_ring_push`.
unfoldable pub ring_put : Rx → ℤ → Rx
ring_put rx s =
    let head' = (rx.head + 1) % ring_samples in
    record rx {
      ring = set rx.ring rx.head s;
      head = head';
      tail = if head' == rx.tail then (rx.tail + 1) % ring_samples else rx.tail;
    }

-- `rx_ring_push`
unfoldable pub ring_push : Rx → List ℤ → Rx
ring_push rx [] = rx
ring_push rx (s ∷ ss) = ring_push (ring_put rx s) ss

-- A SYNC frame of enough bytes.
unfoldable pub rx_sync : Rx → List ℕ → Rx
rx_sync rx payload =
    let s = read_audio_sync payload in
    record rx {
      dec = record {
        predictor = s.predictor;
        step_index = if ltb 88 s.step_index then 88 else s.step_index;
      };
      expect_seq = u16 (low_bits s.frame_seq 8);
      locked = true;
    }

-- A voice frame of eight bytes while the receiver is locked.
unfoldable pub rx_voice : Rx → ℕ → List ℕ → Rx
rx_voice rx id payload =
    if id_low id == u8 rx.expect_seq
    then (let (dec', pcm) = decode rx.dec payload in
        record (ring_push rx pcm) { dec = dec'; expect_seq = u16 (low_bits (rx.expect_seq + 1) 8) })
    else let rx' = ring_push rx (replicate frame_samples (pos 0)) in
      record rx' { gaps = u32 (rx'.gaps + 1); locked = false }

-- `ps_audio_rx_on_frame`
unfoldable pub rx_on_frame : Rx → Frame → Rx
unfolding rx_sync rx_voice
rx_on_frame rx f =
    if not (id_cls f.id == cls_audio)
    then rx
    else if id_type f.id == t_audio_sync
    then (if ltb f.dlc 8 then rx else rx_sync rx f.payload)
    else if id_type f.id == t_audio_up || id_type f.id == t_audio_down
    then (if not (f.dlc == frame_bytes)
        then rx
        else if not rx.locked
        then rx
        else rx_voice rx f.id f.payload)
    else rx

-- `ps_audio_rx_available`
unfoldable pub rx_available : Rx → ℕ
rx_available rx = (rx.head + ring_samples - rx.tail) % ring_samples

-- The loop of `ps_audio_rx_pull`, `n` samples.
unfoldable pub pull_loop : ℕ → Rx → Rx × List ℤ
pull_loop zero rx = (rx, [])
pull_loop (suc n) rx =
    let (rx', out) = pull_loop n (record rx { tail = (rx.tail + 1) % ring_samples }) in
    (rx', get_or rx.ring rx.tail (pos 0) ∷ out)

-- `ps_audio_rx_pull`
unfoldable pub rx_pull : Rx → ℕ → Rx × List ℤ
unfolding pull_loop rx_available
rx_pull rx max_samples = pull_loop (min max_samples (rx_available rx)) rx

-- A receiver is fed a list of frames.
unfoldable pub feed : Rx → List Frame → Rx
feed rx [] = rx
feed rx (f ∷ fs) = feed (rx_on_frame rx f) fs
