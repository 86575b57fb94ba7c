-- ===== src/Examples/VoiceCases.antt =====
-- The codec, the voice stream and the energy gate on concrete samples.
use powersuit.Base.{◌≡◌, arith, false, List, [], ◌∷◌, replicate}
use powersuit.Base.Int.{ℤ, pos, negsuc}
use powersuit.CanId.{node_helmet, node_orch}
use powersuit.Adpcm
use powersuit.Adpcm.{Adpcm, encode, decode, quantise}
use powersuit.Adpcm.Codec.{sample-IsValid}
use powersuit.Adpcm.Lockstep.{decode-encode, predictions}
use powersuit.Audio.{Tx, Rx, tx_push, feed}
use powersuit.Audio.Stream.{TxIsValid, Linked, Kept, push-Kept}
use powersuit.Audio.Gate.{Gate}

abbrev word : List ℤ
word = pos 100 ∷ negsuc 4000 ∷ pos 32767 ∷ negsuc 32767 ∷ []

decode-encode_example :
    let (st', bytes) = encode Adpcm.init word in
    decode Adpcm.init bytes ≡ (st', predictions Adpcm.init word)
decode-encode_example = decode-encode Adpcm.init word

abbrev mic : Tx
mic = record {
  enc = record { predictor = pos 0; step_index = 0 };
  frame_seq = 65535;
  dir = 1;
  src_node = node_helmet;
  dst_node = node_orch;
  frames_since_sync = 0;
  started = false;
  pending = [];
}

abbrev speaker : Rx
speaker = record {
  dec = record { predictor = pos 0; step_index = 0 };
  expect_seq = 0;
  locked = false;
  gaps = 0;
  ring = replicate 4096 (pos 0);
  head = 4095;
  tail = 4000;
}

mic-TxIsValid : TxIsValid mic
unfolding Adpcm.init
mic-TxIsValid = record {
  enc = sample-IsValid.0;
  frame_seq = omega arith;
  dir = omega arith;
  src_node = omega arith;
  dst_node = omega arith;
}

mic-Linked : Linked mic speaker
mic-Linked h = ground arith

push-Kept_example : Kept (tx_push mic word).0 speaker (feed speaker (tx_push mic word).1)
push-Kept_example = push-Kept mic speaker word mic-TxIsValid mic-Linked

abbrev gate : Gate
gate = record {
  threshold_q = 1000;
  hang_ms = 300;
  max_utterance_ms = 8000;
  is_open = false;
  opened_ms = 0;
  last_voiced_ms = 0;
}
