-- ===== src/Audio/Stream.antt =====
-- audio_pkt.c: what one node packs and another unpacks.
use powersuit.Base.{
  ℕ, zero, suc, ◌+◌, ◌-◌, ◌%◌, ◌^◌, ◌<◌, min, ◌≡◌, refl, sym, ap, ◌∙◌, subst, arith, true, not,
  ◌||◌, List, [], ◌∷◌, ◌++◌, length, take, drop, u8, u16, u32, low_bits, leb, ◌==◌, if◌then◌else◌,
  IsByte, IsU16, Bool-cases, ◌⊎◌, inl, inr,
}
use powersuit.Base.Int.{ℤ, pos, negsuc, ◌≤ℤ◌}
use powersuit.Bytes.{IsI16}
use powersuit.CanId.{
  CanId, pack, id_cls, id_type, id_low, cls_audio, t_audio_sync, t_audio_up, t_audio_down,
}
use powersuit.CanId.Layout.{unpack-pack}
use powersuit.Wire.LinkPayloads.{AudioSync, read-write_audio_sync}
use powersuit.Adpcm.{encode, decode}
use powersuit.Adpcm.Codec
use powersuit.Adpcm.Codec.{encode-IsValid}
use powersuit.Adpcm.Lockstep.{decode-encode, predictions}
use powersuit.Audio.{
  Tx, Frame, Rx, tx_sync, tx_flush, tx_loop, tx_push, ring_put, ring_push, rx_on_frame, feed,
}

-- The sender's state is in the ranges of its fields, and the nodes fit an identifier.
pub record TxIsValid (tx : Tx) : Type 0 where
  pub enc : Codec.IsValid tx.enc
  pub frame_seq : IsU16 tx.frame_seq
  pub dir : IsByte tx.dir
  pub src_node : tx.src_node < 32
  pub dst_node : tx.dst_node < 32

-- The receiver is in step with a sender that has begun: same codec state, and the sender's next
-- sequence number is the one that is expected.
pub record InStep (tx : Tx) (rx : Rx) : Type 0 where
  pub locked : rx.locked ≡ true
  pub dec : rx.dec ≡ tx.enc
  pub expect : rx.expect_seq ≡ tx.frame_seq % 256

-- The fields that an audio identifier carries.
audio_id :
    (src dst type low : ℕ)
    → src < 32
    → dst < 32
    → IsByte type
    → IsByte low
    → let id = pack cls_audio src dst type low in
      (id_cls id ≡ 4) × (id_type id ≡ type) × (id_low id ≡ low)
audio_id src dst type low a b c d =
    let f : CanId = record { cls = cls_audio; src = src; dst = dst; type = type; low = low } in
    let (_, cls, _, _, type', low') =
      unpack-pack f (record { cls = omega arith; src = a; dst = b; type = c; low = d }) in
    (cls, type', low')

-- The codec's range is that of `int16_t`.
IsI16-of_range : (p : ℤ) → negsuc 32767 ≤ℤ p → p ≤ℤ pos 32767 → IsI16 p
IsI16-of_range (pos n) l h = omega arith
IsI16-of_range (negsuc n) l h = omega arith

sync_payload : Tx → AudioSync
sync_payload tx = record {
  dir = tx.dir;
  step_index = u8 tx.enc.step_index;
  predictor = tx.enc.predictor;
  frame_seq = tx.frame_seq;
  rsvd = 0;
}

-- What a SYNC makes of a receiver.
abbrev synced : Tx → Rx → Rx
synced tx rx = record rx { dec = tx.enc; expect_seq = tx.frame_seq % 256; locked = true }

sync_received : (tx : Tx) (rx : Rx) → TxIsValid tx → feed rx (tx_sync tx).1 ≡ synced tx rx
unfolding tx_sync feed rx_on_frame sync_payload
sync_received tx rx v = ground (
  arith,
  audio_id tx.src_node tx.dst_node t_audio_sync (tx.frame_seq % 2 ^ 8 % 2 ^ 8) v.src_node v.dst_node
      (omega arith) (omega arith),
  read-write_audio_sync (sync_payload tx) (
    v.dir,
    omega arith,
    IsI16-of_range tx.enc.predictor v.enc.low v.enc.high,
    v.frame_seq,
    omega arith,
  ),
)

ring_push-keeps :
    (rx : Rx) (ss : List ℤ)
    → ((ring_push rx ss).dec ≡ rx.dec)
      × ((ring_push rx ss).expect_seq ≡ rx.expect_seq)
      × ((ring_push rx ss).locked ≡ rx.locked)
      × ((ring_push rx ss).gaps ≡ rx.gaps)
unfolding ring_push ring_put
ring_push-keeps rx [] = (refl, refl, refl, refl)
ring_push-keeps rx (s ∷ ss) = ring_push-keeps (ring_put rx s) ss

-- A voice frame of type `type` with the pending samples of a sender.
abbrev voice_frame : Tx → ℕ → Frame
voice_frame tx type = record {
  id = pack cls_audio tx.src_node tx.dst_node type (u8 (low_bits tx.frame_seq 8));
  payload = (encode tx.enc tx.pending).1;
  dlc = 8;
}

-- What a voice frame makes of a receiver in step.
abbrev heard : Tx → Rx → Rx
heard tx rx = record (ring_push rx (predictions tx.enc tx.pending)) {
  dec = (encode tx.enc tx.pending).0;
  expect_seq = (tx.frame_seq + 1) % 256;
}

voice_received :
    (tx : Tx) (rx : Rx) (type : ℕ)
    → (type ≡ t_audio_up) ⊎ (type ≡ t_audio_down)
    → TxIsValid tx
    → InStep tx rx
    → rx_on_frame rx (voice_frame tx type) ≡ heard tx rx
unfolding rx_on_frame
voice_received tx rx type t v s = ground (
  arith,
  audio_id tx.src_node tx.dst_node type (tx.frame_seq % 2 ^ 8 % 2 ^ 8) v.src_node v.dst_node
      (omega arith) (omega arith),
  ap (λ d. decode d (encode tx.enc tx.pending).1) s.dec,
  decode-encode tx.enc tx.pending,
)

pub feed-append : (rx : Rx) (xs ys : List Frame) → feed rx (xs ++ ys) ≡ feed (feed rx xs) ys
unfolding feed
feed-append rx [] ys = refl
feed-append rx (x ∷ xs) ys = feed-append (rx_on_frame rx x) xs ys

-- A sender that has begun has its receiver in step.
abbrev pub Linked : Tx → Rx → Type 0
Linked tx rx = tx.started ≡ true → InStep tx rx

-- What a piece of the stream leaves: the sender valid, the receiver linked to it, and no gap counted.
pub record Kept (tx : Tx) (rx rx' : Rx) : Type 0 where
  pub valid : TxIsValid tx
  pub linked : Linked tx rx'
  pub gaps : rx'.gaps ≡ rx.gaps

abbrev type_of : Tx → ℕ
type_of tx = if tx.dir == 1 then t_audio_up else t_audio_down

type_of-cases : (tx : Tx) → (type_of tx ≡ t_audio_up) ⊎ (type_of tx ≡ t_audio_down)
type_of-cases tx = ground arith

-- The voice frame of a sender that is in step with its receiver, and the sender after it.
abbrev spoken : Tx → Tx
spoken tx = record tx {
  enc = (encode tx.enc tx.pending).0;
  frame_seq = u16 (tx.frame_seq + 1);
  frames_since_sync = u32 (tx.frames_since_sync + 1);
  pending = [];
}

spoken-Kept :
    (tx : Tx) (rx : Rx)
    → TxIsValid tx
    → InStep tx rx
    → Kept (spoken tx) rx (feed rx (voice_frame tx (type_of tx) ∷ []))
unfolding feed
spoken-Kept tx rx v s = rw (voice_received tx rx (type_of tx) (type_of-cases tx) v s) (record {
  valid = record {
    enc = encode-IsValid tx.enc tx.pending v.enc;
    frame_seq = omega arith;
    dir = v.dir;
    src_node = v.src_node;
    dst_node = v.dst_node;
  };
  linked = λ _. record {
    locked = (ring_push-keeps rx (predictions tx.enc tx.pending)).2 ∙ s.locked;
    dec = refl;
    expect = omega arith;
  };
  gaps = (ring_push-keeps rx (predictions tx.enc tx.pending)).3;
})

-- A SYNC that goes out before the voice frame.
sync-Kept :
    (tx : Tx) (rx : Rx)
    → TxIsValid tx
    → let tx1 = (tx_sync tx).0 in
      Kept (spoken tx1) rx (feed rx ((tx_sync tx).1 ++ voice_frame tx1 (type_of tx1) ∷ []))
unfolding tx_sync
sync-Kept tx rx v =
    let tx1 = record tx { frames_since_sync = 0; started = true } in
    let v1 : TxIsValid tx1 = record {
      enc = v.enc;
      frame_seq = v.frame_seq;
      dir = v.dir;
      src_node = v.src_node;
      dst_node = v.dst_node;
    } in
    let k =
      spoken-Kept tx1 (synced tx rx) v1 (record { locked = refl; dec = refl; expect = refl }) in
    let e =
      feed-append rx (tx_sync tx).1 (voice_frame tx1 (type_of tx1) ∷ [])
      ∙ ap (λ r. feed r (voice_frame tx1 (type_of tx1) ∷ [])) (sync_received tx rx v) in
    subst (Kept (spoken tx1) rx) (sym e)
      (record { valid = k.valid; linked = k.linked; gaps = k.gaps })

flush-Kept :
    (tx : Tx) (rx : Rx)
    → TxIsValid tx
    → Linked tx rx
    → Kept (tx_flush tx).0 rx (feed rx (tx_flush tx).1)
unfolding tx_flush
flush-Kept tx rx v l = elim (Bool-cases (not tx.started || leb 50 tx.frames_since_sync)) [
  | inl need ↦ rw need (sync-Kept tx rx v)
  | inr running ↦ rw running (spoken-Kept tx rx v (l (ground arith)))
]

Kept-trans : {tx : Tx} {rx rx' rx'' : Rx} → rx'.gaps ≡ rx.gaps → Kept tx rx' rx'' → Kept tx rx rx''
Kept-trans g k = record { valid = k.valid; linked = k.linked; gaps = k.gaps ∙ g }

loop-Kept :
    (fuel : ℕ) (tx : Tx) (rx : Rx) (pcm : List ℤ)
    → TxIsValid tx
    → Linked tx rx
    → Kept (tx_loop fuel tx pcm).0 rx (feed rx (tx_loop fuel tx pcm).1)
unfolding tx_loop feed
loop-Kept zero tx rx pcm v l = record { valid = v; linked = l; gaps = refl }
loop-Kept (suc fuel) tx rx [] v l = record { valid = v; linked = l; gaps = refl }
loop-Kept (suc fuel) tx rx (x ∷ xs) v l = elim (Bool-cases (length filled.pending == 16)) [
  | inl full ↦ rw full (
      rw feed-append (
        Kept-trans k.gaps
          (loop-Kept fuel (tx_flush filled).0 (feed rx (tx_flush filled).1) rest k.valid k.linked)))
  | inr room ↦ rw room (loop-Kept fuel filled rx rest v' l')
]
  where
    n : ℕ
    n = min (16 - length tx.pending) (length (x ∷ xs))

    filled : Tx
    filled = record tx { pending = tx.pending ++ take n (x ∷ xs) }

    rest : List ℤ
    rest = drop n (x ∷ xs)

    v' : TxIsValid filled
    v' = record {
      enc = v.enc;
      frame_seq = v.frame_seq;
      dir = v.dir;
      src_node = v.src_node;
      dst_node = v.dst_node;
    }

    l' : Linked filled rx
    l' = λ b. record { locked = (l b).locked; dec = (l b).dec; expect = (l b).expect }

    k : Kept (tx_flush filled).0 rx (feed rx (tx_flush filled).1)
    k = flush-Kept filled rx v' l'

-- Whatever samples a sender in a valid state is given, and however they are cut into calls, a receiver that gets its
-- frames in order stays in step with it once the stream has begun, with the sender's codec state and
-- the next sequence number, and counts no gap.
pub push-Kept :
    (tx : Tx) (rx : Rx) (pcm : List ℤ)
    → TxIsValid tx
    → Linked tx rx
    → Kept (tx_push tx pcm).0 rx (feed rx (tx_push tx pcm).1)
unfolding tx_push
push-Kept tx rx pcm v l = loop-Kept (length pcm) tx rx pcm v l
