-- ===== src/Audio/Ring.antt =====
-- audio_pkt.c: the ring of decoded samples is a queue of at most 4095, which drops its oldest sample
-- when it is full.
use powersuit.Base.{
  ℕ, zero, suc, ◌+◌, ◌-◌, ◌%◌, ◌≤◌, ◌<◌, min, ◌≡◌, refl, sym, ap, ◌∙◌, arith, true, false, List, [],
  ◌∷◌, ◌++◌, length, take, drop, take-min, drop-min, get_or, length-set, ltb, ◌==◌, Bool-cases, inl,
  inr,
}
use powersuit.Base.Int.{ℤ, pos}
use powersuit.Base.Window
use powersuit.Base.Queue.{put, put_all}
use powersuit.Base.Window.{length-window, window-pos, window-set}
use powersuit.Audio.{Rx, ring_put, ring_push, rx_available, pull_loop, rx_pull}

pub record RingIsValid (rx : Rx) : Type 0 where
  pub slots : length rx.ring ≡ 4096
  pub head_in : rx.head < 4096
  pub tail_in : rx.tail < 4096

-- The samples that wait, oldest first.
abbrev pub contents : Rx → List ℤ
contents rx = Window.window (pos 0) 4096 rx.ring rx.tail ((rx.head + 4096 - rx.tail) % 4096)

pub length-contents : (rx : Rx) → length (contents rx) ≡ (rx.head + 4096 - rx.tail) % 4096
length-contents rx = length-window (pos 0) 4096 rx.ring rx.tail _

ring_put-IsValid : (rx : Rx) (s : ℤ) → RingIsValid rx → RingIsValid (ring_put rx s)
unfolding ring_put
ring_put-IsValid rx s v = ground (arith, length-set rx.ring rx.head s)

one_before :
    (h t : ℕ) → h < 4096 → t < 4096 → (h + 1) % 4096 ≡ t → h ≡ ((t + 1) % 4096 + 4094) % 4096
one_before h t hh ht e = omega arith

module _ (rx : Rx) (s : ℤ) (v : RingIsValid rx) where
  put_room :
      (rx.head + 1) % 4096 == rx.tail ≡ false → contents (ring_put rx s) ≡ put 4095 (contents rx) s
  unfolding ring_put
  put_room room =
      let a : ℕ = (rx.head + 4096 - rx.tail) % 4096 in
      let small : ltb (length (contents rx)) 4095 ≡ true = ground (arith, length-contents rx) in
      let next : ((rx.head + 1) % 4096 + 4096 - rx.tail) % 4096 ≡ a + 1 = ground arith in
      rw (room, small, next)
        (window-set (pos 0) 4096 rx.ring s a rx.tail rx.head v.slots v.tail_in (omega arith)
          (omega arith))

  put_full :
      (rx.head + 1) % 4096 == rx.tail ≡ true → contents (ring_put rx s) ≡ put 4095 (contents rx) s
  unfolding ring_put
  put_full full =
      let met : (rx.head + 1) % 4096 ≡ rx.tail = ground arith in
      let at_end = one_before rx.head rx.tail v.head_in v.tail_in met in
      let a : (rx.head + 4096 - rx.tail) % 4096 ≡ 4095 = ground arith in
      let big : ltb (length (contents rx)) 4095 ≡ false = ground (arith, length-contents rx) in
      let next : ((rx.head + 1) % 4096 + 4096 - (rx.tail + 1) % 4096) % 4096 ≡ 4094 + 1 =
        ground arith in
      let old = window-pos (pos 0) 4096 rx.ring rx.tail 4095 (omega arith) in
      rw (full, big, next, a)
        (window-set (pos 0) 4096 rx.ring s 4094 ((rx.tail + 1) % 4096) rx.head v.slots (omega arith)
            (omega arith) at_end
          ∙ ap (λ l. drop 1 l ++ s ∷ []) (sym old))

ring_put-contents :
    (rx : Rx) (s : ℤ) → RingIsValid rx → contents (ring_put rx s) ≡ put 4095 (contents rx) s
ring_put-contents rx s v = elim (Bool-cases ((rx.head + 1) % 4096 == rx.tail)) [
  | inl full ↦ put_full rx s v full
  | inr room ↦ put_room rx s v room
]

-- From a well-formed ring, pushing samples is queueing them one by one in a queue that holds at most 4095 and
-- drops its oldest sample when it is full; the ring stays well-formed.
pub ring_push-put_all :
    (rx : Rx) (ss : List ℤ)
    → RingIsValid rx
    → RingIsValid (ring_push rx ss) × contents (ring_push rx ss) ≡ put_all 4095 (contents rx) ss
unfolding ring_push
ring_push-put_all rx [] v = (v, refl)
ring_push-put_all rx (s ∷ ss) v =
    let (v', e) = ring_push-put_all (ring_put rx s) ss (ring_put-IsValid rx s v) in
    (v', e ∙ ap (λ q. put_all 4095 q ss) (ring_put-contents rx s v))

abbrev advance_tail : Rx → Rx
advance_tail rx = record rx { tail = (rx.tail + 1) % 4096 }

contents_pos :
    (rx : Rx)
    → RingIsValid rx
    → 0 < rx_available rx
    → contents rx ≡ get_or rx.ring rx.tail (pos 0) ∷ contents (advance_tail rx)
unfolding rx_available
contents_pos rx v h =
    let next : (rx.head + 4096 - (rx.tail + 1) % 4096) % 4096
        ≡ (rx.head + 4096 - rx.tail) % 4096 - 1 =
      ground (arith, v.head_in, v.tail_in) in
    rw next (window-pos (pos 0) 4096 rx.ring rx.tail _ h)

pull_loop_lem :
    (n : ℕ) (rx : Rx)
    → RingIsValid rx
    → n ≤ rx_available rx
    → (pull_loop n rx).1 ≡ take n (contents rx)
      × contents (pull_loop n rx).0 ≡ drop n (contents rx)
      × RingIsValid (pull_loop n rx).0
unfolding pull_loop rx_available
pull_loop_lem zero rx v h = (refl, refl, v)
pull_loop_lem (suc n) rx v h =
    let v' : RingIsValid (advance_tail rx) = record {
      slots = v.slots;
      head_in = v.head_in;
      tail_in = omega arith;
    } in
    let fewer : n ≤ rx_available (advance_tail rx) = ground (arith, v.head_in, v.tail_in) in
    let (out, left, valid) = pull_loop_lem n (advance_tail rx) v' fewer in
    rw (contents_pos rx v (omega arith))
      (ap (λ l. get_or rx.ring rx.tail (pos 0) ∷ l) out, left, valid)

-- From a well-formed ring, `ps_audio_rx_pull` hands out the oldest samples, as many as are asked for or as there
-- are, leaves the others in their order, and keeps the ring well-formed.
pub rx_pull_lem :
    (rx : Rx) (n : ℕ)
    → RingIsValid rx
    → (rx_pull rx n).1 ≡ take n (contents rx)
      × contents (rx_pull rx n).0 ≡ drop n (contents rx)
      × RingIsValid (rx_pull rx n).0
unfolding rx_pull rx_available
rx_pull_lem rx n v =
    let (out, left, valid) = pull_loop_lem (min n (rx_available rx)) rx v (omega arith) in
    (
      out ∙ take-min n (contents rx) (length-contents rx),
      left ∙ drop-min n (contents rx) (length-contents rx),
      valid,
    )
