-- ===== src/Xrce/Delivery.antt =====
-- ps_uros_transport_can.c and xrce_demux.cpp: the bytes arrive in their order.
use powersuit.Base.{
  ℕ, zero, suc, ◌+◌, ◌-◌, ◌≤◌, ◌<◌, ◌≡◌, refl, sym, ap, ap₂, ◌∙◌, arith, min, Bool, true, false,
  Bool-cases, inl, inr, ◌⊎◌, List, [], ◌∷◌, ◌++◌, append_assoc, append-nil, length, take, drop, map,
  replicate, take-append, take-append-drop, length-take, length-drop, All, ltb, ◌==◌,
}
use powersuit.CanId.{CanFrame}
use powersuit.Gateway.{frame_of}
use powersuit.Xrce.{
  Stream, Uros, EdgeNode, xrce_rx, xrce_rx_all, zero_padded, write_loop, uros_write, stream_record,
  slice_loop, poll_outbound,
}

-- The bytes that a frame carries.
abbrev pub carried : CanFrame → List ℕ
carried f = take f.dlc f.payload

abbrev pub all_carried : List CanFrame → List ℕ
all_carried [] = []
all_carried (f ∷ fs) = carried f ++ all_carried fs

take_more :
    (m w : ℕ) (xs : List ℕ) → take (length (take m xs) + w) xs ≡ take m xs ++ take w (drop m xs)
take_more zero w xs = let e : 0 + w ≡ w = omega arith in ap (λ n. take n xs) e
take_more (suc m) w [] = let e : 0 + w ≡ w = omega arith in ap (λ n. take {A = ℕ} n []) e
take_more (suc m) w (x ∷ xs) =
    let e : length (x ∷ take m xs) + w ≡ suc (length (take m xs) + w) = omega arith in
    ap (λ n. take n (x ∷ xs)) e ∙ ap (λ l. x ∷ l) (take_more m w xs)

chunk_carried : (c : List ℕ) → take (length c) (zero_padded c) ≡ c
chunk_carried c = take-append c (replicate (8 - length c) 0) (length c) refl

-- Between one and eight bytes.
abbrev pub IsChunk : CanFrame → Type 0
IsChunk f = (0 < f.dlc) × (f.dlc ≤ 8)

-- The first frames that were offered are taken.
abbrev pub AllTaken : ℕ → (ℕ → Bool) → Type 0
AllTaken zero sends = Unit {0}
AllTaken (suc n) sends = (sends 0 ≡ true) × AllTaken n (λ i. sends (suc i))

-- All the bytes are in frames, or the frame after these is refused and bytes are left.
abbrev Ends : (ℕ → Bool) → List ℕ → ℕ → ℕ → Type 0
Ends sends buf frames written =
    (written ≡ length buf) ⊎ ((written < length buf) × (sends frames ≡ false))

write_loop_lem :
    (node_id n : ℕ) (sends : ℕ → Bool) (buf : List ℕ)
    → length buf ≤ n
    → let (frames, written) = write_loop node_id n sends buf in
      (all_carried frames ≡ take written buf)
      × (written ≤ length buf)
      × All IsChunk frames
      × AllTaken (length frames) sends
      × Ends sends buf (length frames) written
unfolding write_loop
write_loop_lem node_id zero sends [] h = (refl, omega arith, tt, tt, inl refl)
write_loop_lem node_id zero sends (b ∷ bs) h = absurd (omega arith)
write_loop_lem node_id (suc n) sends [] h = (refl, omega arith, tt, tt, inl refl)
write_loop_lem node_id (suc n) sends (b ∷ bs) h = elim (Bool-cases (sends 0)) [
  | inr refused ↦ rw refused (refl, omega arith, tt, tt, inr (omega arith, refused))
  | inl taken ↦
      (let buf = b ∷ bs in
        let (bytes, most, chunks, before, ends) =
          write_loop_lem node_id n (λ i. sends (suc i)) (drop 8 buf)
            (omega (arith, length-drop 8 buf, h)) in
        let w = (write_loop node_id n (λ i. sends (suc i)) (drop 8 buf)).1 in
        let size : length (take 8 buf) + length (drop 8 buf) ≡ length buf =
          omega (arith, length-take 8 buf, length-drop 8 buf) in
        rw taken (
          ap₂ (λ x y. x ++ y) (chunk_carried (take 8 buf)) bytes ∙ sym (take_more 8 w buf),
          omega (arith, most, size),
          ((omega (arith, length-take 8 buf), omega (arith, length-take 8 buf)), chunks),
          (taken, before),
          elim ends [
            | inl all ↦ inl (omega (arith, all, size))
            | inr (less, no_more) ↦ inr (omega (arith, less, size), no_more)
          ],
        ))
]

-- `ps_uros_write` returns: it has sent the first bytes of its buffer, as many as it says, in frames of one to eight bytes, in their
-- order, and `ps_can_send` has taken each of these. Either that is all and the error byte is 0, or bytes are left, `ps_can_send` has
-- refused the frame after these, and the error byte is 1.
pub uros_write_bytes :
    (node_id : ℕ) (sends : ℕ → Bool) (buf : List ℕ)
    → let (frames, written, err) = uros_write node_id sends buf in
      (all_carried frames ≡ take written buf)
      × (written ≤ length buf)
      × All IsChunk frames
      × AllTaken (length frames) sends
      × (((written ≡ length buf) × (err ≡ 0))
          ⊎ ((written < length buf) × (sends (length frames) ≡ false) × (err ≡ 1)))
unfolding uros_write
uros_write_bytes node_id sends buf =
    let (bytes, most, chunks, before, ends) =
      write_loop_lem node_id (length buf) sends buf (omega arith) in
    (
      bytes,
      most,
      chunks,
      before,
      elim ends [
        | inl all ↦ inl (all, ground arith)
        | inr (less, refused) ↦ inr (less, refused, ground arith)
      ],
    )

-- What the documentation promises of the stream buffer: it takes as many bytes as it has room for, in their order.
pub record Laws {S : Type 0} (k : Stream S) : Type 0 where
  pub view : S → List ℕ
  pub room : S → ℕ
  pub send_count : (s : S) (xs : List ℕ) → (k.send s xs).1 ≡ min (length xs) (room s)
  pub send_view : (s : S) (xs : List ℕ) → view (k.send s xs).0 ≡ view s ++ take (k.send s xs).1 xs
  pub send_room : (s : S) (xs : List ℕ) → room (k.send s xs).0 ≡ room s - (k.send s xs).1

module _ {S : Type 0} (k : Stream S) (l : Laws k) where
  -- A frame of a chunk for which there is room.
  rx_chunk :
      (u : Uros S) (node : EdgeNode) (c : List ℕ)
      → 0 < length c
      → length c ≤ 8
      → length c ≤ l.room u.rx
      → let u' = xrce_rx k u (frame_of (stream_record node c)) in
        (l.view u'.rx ≡ l.view u.rx ++ c)
        × (l.room u'.rx ≡ l.room u.rx - length c)
        × (u'.rx_overruns ≡ u.rx_overruns)
  unfolding xrce_rx frame_of
  rx_chunk u node c some_byte most fits =
      let dlc : ltb 8 (length c) ≡ false = ground arith in
      let some' : (length c == 0) ≡ false = ground arith in
      let bytes = chunk_carried c in
      let all : (k.send u.rx c).1 ≡ length c = omega (arith, l.send_count u.rx c, fits) in
      let whole : ((k.send u.rx c).1 == length c) ≡ true = ground arith in
      let taken : take (k.send u.rx c).1 c ≡ c = ap (λ n. take n c) all ∙ take_whole c in
      rw (dlc, some', bytes, whole)
        (
          l.send_view u.rx c ∙ ap (λ x. l.view u.rx ++ x) taken,
          l.send_room u.rx c ∙ ap (λ n. l.room u.rx - n) all,
          refl,
        )
    where
      take_whole : (xs : List ℕ) → take (length xs) xs ≡ xs
      take_whole [] = refl
      take_whole (x ∷ xs) = ap (λ t. x ∷ t) (take_whole xs)

  slices_lem :
      (n : ℕ) (u : Uros S) (node : EdgeNode) (bytes : List ℕ)
      → length bytes ≤ n
      → length bytes ≤ l.room u.rx
      → let u' = xrce_rx_all k u (map frame_of (slice_loop node n bytes)) in
        (l.view u'.rx ≡ l.view u.rx ++ bytes) × (u'.rx_overruns ≡ u.rx_overruns)
  unfolding slice_loop xrce_rx_all
  slices_lem zero u node [] h fits = (sym (append-nil (l.view u.rx)), refl)
  slices_lem zero u node (b ∷ bs) h fits = absurd (omega arith)
  slices_lem (suc n) u node [] h fits = (sym (append-nil (l.view u.rx)), refl)
  slices_lem (suc n) u node (b ∷ bs) h fits =
      let buf = b ∷ bs in
      let c = take 8 buf in
      let (now, left, count) =
        rx_chunk u node c (omega (arith, length-take 8 buf)) (omega (arith, length-take 8 buf))
          (omega (arith, length-take 8 buf, fits)) in
      let u1 = xrce_rx k u (frame_of (stream_record node c)) in
      let (later, same) =
        slices_lem n u1 node (drop 8 buf) (omega (arith, length-drop 8 buf, h))
          (omega (arith, left, length-drop 8 buf, length-take 8 buf, fits)) in
      (
        later
            ∙ ap (λ x. x ++ drop 8 buf) now
            ∙ append_assoc (l.view u.rx) c (drop 8 buf)
            ∙ ap (λ x. l.view u.rx ++ x) (take-append-drop 8 buf),
        same ∙ count,
      )

  -- For a stream buffer that behaves as documented: what a terminal gives is cut into records, and when the node has received the
  -- frames of these records, one after the other, and has had room for the bytes, its stream holds what it held followed by exactly
  -- these bytes, and no overrun is counted.
  pub slices_arrive :
      (u : Uros S) (node : EdgeNode) (bytes : List ℕ)
      → length bytes ≤ l.room u.rx
      → let u' = xrce_rx_all k u (map frame_of (poll_outbound ((node, bytes) ∷ []))) in
        (l.view u'.rx ≡ l.view u.rx ++ bytes) × (u'.rx_overruns ≡ u.rx_overruns)
  unfolding poll_outbound
  slices_arrive u node bytes fits =
      let alone : slice_loop node (length bytes) bytes ++ []
          ≡ slice_loop node (length bytes) bytes =
        append-nil (slice_loop node (length bytes) bytes) in
      rw alone (slices_lem (length bytes) u node bytes (omega arith) fits)
