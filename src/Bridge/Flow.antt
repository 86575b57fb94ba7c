-- ===== src/Bridge/Flow.antt =====
-- ps_spibridge.c: what the two queues hold after each call, for any queues that behave as documented.
use powersuit.Base.{
  ℕ, zero, suc, ◌+◌, ◌-◌, ◌*◌, ◌≤◌, ◌<◌, ◌≡◌, refl, ap, ◌∙◌, arith, false, some, List, [], ◌∷◌,
  ◌++◌, length, take, drop, get_elem?, All, ltb, if◌then◌else◌, bit_or, Bool-cases, ◌⊎◌, inl, inr,
  u8, length-take, length-append, length-drop, ltb→lt, subst, ap₂,
}
use powersuit.Base.Queue.{Ops, Laws, put, put_all}
use powersuit.SpiFrame.{Record, View, ok, frame_parse, frame_build, view_record}
use powersuit.SpiFrame.Records.{Fits}
use powersuit.SpiFrame.Parse.{parse-build}
use powersuit.Bridge.{
  Bridge, flag_overflow, flag_more_pending, drop_oldest, deliver, take_read, take_record,
  take_records, note_seq, take_parsed, handle_rx, drain, build_tx,
}

pub All-take : {A : Type 0} (P : A → Type 0) (n : ℕ) (xs : List A) → All P xs → All P (take n xs)
All-take P zero xs h = tt
All-take P (suc n) [] h = h
All-take P (suc n) (x ∷ xs) (h, hs) = (h, All-take P n xs hs)

ltb_left : (n : ℕ) {a : ℕ} → a ≡ n - 31 → ltb 0 a ≡ ltb 31 n
ltb_left n e = ground arith

List-cases : {A : Type 0} (xs : List A) → (xs ≡ []) ⊎ ((x : A) × (ys : List A) × (xs ≡ x ∷ ys))
List-cases [] = inl refl
List-cases (x ∷ xs) = inr (x, xs, refl)

length-put :
    {A : Type 0} (cap : ℕ) (q : List A) (x : A)
    → 0 < cap
    → length q ≤ cap
    → length (put cap q x) ≤ cap
length-put cap q x p h = elim (Bool-cases (ltb (length q) cap)) [
  | inl room ↦ rw room (omega (arith, length-append q (x ∷ []), ltb→lt _ _ room))
  | inr full ↦ rw full (omega (arith, length-append (drop 1 q) (x ∷ []), length-drop 1 q))
]

module _ {Q : Type 0} (k : Ops Q Record) (l : Laws k) where
  -- The downlink queue can hold something and holds no more than it can.
  abbrev pub DownIsValid : Bridge Q → Type 0
  DownIsValid b = (0 < l.capacity b.downlink) × (length (l.view b.downlink) ≤ l.capacity b.downlink)

  drop_oldest_lem :
      (q : Q) (r : Record)
      → 0 < l.capacity q
      → length (l.view q) ≡ l.capacity q
      → (l.view (drop_oldest k q r) ≡ drop 1 (l.view q) ++ r ∷ [])
        × (l.capacity (drop_oldest k q r) ≡ l.capacity q)
  unfolding drop_oldest
  drop_oldest_lem q r p full = elim (List-cases (l.view q)) [
    | inl e ↦ absurd (omega (arith, ap length e))
    | inr (x, xs, e) ↦
        (let (q1, got, left, c1) = l.receive_first q e in
          let (q2, sent, now, c2) = l.send_room q1 r (omega (arith, ap length e, ap length left)) in
          rw (drop_oldest, got, sent, e) (now ∙ ap (λ xs. xs ++ r ∷ []) left, c2 ∙ c1))
  ]

  deliver_lem :
      (b : Bridge Q) (r : Record)
      → DownIsValid b
      → (l.view (deliver k b r).downlink ≡ put (l.capacity b.downlink) (l.view b.downlink) r)
        × (l.capacity (deliver k b r).downlink ≡ l.capacity b.downlink)
  unfolding deliver
  deliver_lem b r (p, v) =
      elim (Bool-cases (ltb (length (l.view b.downlink)) (l.capacity b.downlink))) [
        | inl room ↦
            (let (q, sent, now, c) = l.send_room b.downlink r (ltb→lt _ _ room) in
              rw (sent, room) (now, c))
        | inr full ↦
            (let e : length (l.view b.downlink) ≡ l.capacity b.downlink = ground arith in
              rw (l.send_full b.downlink r (omega arith), full) (drop_oldest_lem b.downlink r p e))
      ]

  drain_lem :
      (n : ℕ) (q : Q)
      → ((drain k n q).0 ≡ take n (l.view q)) × (l.view (drain k n q).1 ≡ drop n (l.view q))
  unfolding drain
  drain_lem zero q = (refl, refl)
  drain_lem (suc n) q = elim (List-cases (l.view q)) [
    | inl e ↦ rw (drain, l.receive_empty q e, e) (refl, refl)
    | inr (x, xs, e) ↦
        (let (q1, got, left, c1) = l.receive_first q e in
          let (first, rest) = drain_lem n q1 in
          rw (drain, got, e) (ap (λ l. x ∷ l) (first ∙ ap (take n) left), rest ∙ ap (drop n) left))
  ]

  deliver-DownIsValid : (b : Bridge Q) (r : Record) → DownIsValid b → DownIsValid (deliver k b r)
  deliver-DownIsValid b r v =
      let (now, c) = deliver_lem b r v in
      let small = length-put (l.capacity b.downlink) (l.view b.downlink) r v.0 v.1 in
      rw (now, c) (v.0, small)

  -- The records that the view reads from `i` on.
  abbrev Reads : View → ℕ → List Record → Type 0
  Reads v i rs =
      (j : ℕ) (r : Record) → get_elem? rs j ≡ some r → view_record v (i + j) ≡ (ok, some r)

  take_records_lem :
      (v : View) (rs : List Record) (i : ℕ) (b : Bridge Q)
      → Reads v i rs
      → DownIsValid b
      → l.view (take_records k v (length rs) i b).downlink
        ≡ put_all (l.capacity b.downlink) (l.view b.downlink) rs
  unfolding take_records take_record take_read
  take_records_lem v [] i b h d = refl
  take_records_lem v (r ∷ rs) i b h d =
      let here : view_record v i ≡ (ok, some r) =
        (let e : i + 0 ≡ i = omega arith in
          subst (λ n. view_record v n ≡ (ok, some r)) e (h 0 r refl)) in
      let rest : Reads v (i + 1) rs = λ j r' e.
        (let q : i + suc j ≡ i + 1 + j = omega arith in
          subst (λ n. view_record v n ≡ (ok, some r')) q (h (suc j) r' e)) in
      let (now, c) = deliver_lem b r d in
      rw (take_records, take_record, here)
        (take_records_lem v rs (i + 1) (deliver k b r) rest (deliver-DownIsValid b r d)
          ∙ ap₂ (λ n q. put_all n q rs) c now)

  -- For queues that behave as documented, with a downlink queue for at least one record, a frame that was
  -- built from at most 31 records that fit their slots reaches that queue whole and in order: the
  -- queue then holds what it held followed by the records, less the oldest where it is full.
  pub handle_rx-frame :
      (b : Bridge Q) (flags seq : ℕ) (rs : List Record)
      → All Fits rs
      → length rs ≤ 31
      → DownIsValid b
      → (buf : List ℕ) × (frame_build flags seq rs ≡ some (buf, 8 + length rs * 16))
        × (l.view (handle_rx k b buf).downlink
            ≡ put_all (l.capacity b.downlink) (l.view b.downlink) rs)
  unfolding handle_rx take_parsed note_seq
  handle_rx-frame b flags seq rs fit few d =
      let (buf, v, built, size, parsed, vf, vc, vs, reads) = parse-build flags seq rs fit few in
      let from_0 : Reads v 0 rs = λ j r e.
        (let z : j ≡ 0 + j = omega arith in
          subst (λ n. view_record v n ≡ (ok, some r)) z (reads j r e)) in
      let enough : ltb (length buf) 8 ≡ false = ground arith in
      (buf, built, rw (enough, parsed, vc) (take_records_lem v rs 0 (note_seq k b v.seq) from_0 d))

  -- The flags that the next frame carries: those that stick, the overflow that is to be told, and whether more
  -- than one frame of records waits.
  abbrev pub header_flags : Bridge Q → ℕ
  header_flags b =
      let f = if b.overflow_pending then bit_or b.sticky_flags flag_overflow else b.sticky_flags in
      if ltb 31 (length (l.view b.uplink)) then bit_or f flag_more_pending else f

  -- For queues that behave as documented, where the waiting records fit their slots, `spib_build_tx`
  -- builds a frame that parses, has the next sequence number, tells the flags that stick, a pending
  -- overflow and whether records are left over, and reads back as the first 31 waiting records in
  -- order, as many as that; the queue keeps the others, and the overflow is told once.
  pub build_tx-frame :
      (b : Bridge Q)
      → All Fits (l.view b.uplink)
      → (buf : List ℕ) × (v : View) × ((build_tx k b).1
          ≡ some (buf, 8 + length (take 31 (l.view b.uplink)) * 16))
        × (frame_parse buf ≡ (ok, some v))
        × (v.flags ≡ header_flags b)
        × (v.count ≡ length (take 31 (l.view b.uplink)))
        × (v.seq ≡ b.tx_seq)
        × ((i : ℕ) (r : Record)
            → get_elem? (take 31 (l.view b.uplink)) i ≡ some r
            → view_record v i ≡ (ok, some r))
        × (l.view (build_tx k b).0.uplink ≡ drop 31 (l.view b.uplink))
        × ((build_tx k b).0.overflow_pending ≡ false)
        × ((build_tx k b).0.tx_seq ≡ u8 (b.tx_seq + 1))
  unfolding build_tx
  build_tx-frame b fit =
      let q = b.uplink in
      let (sent, left) = drain_lem 31 q in
      let few : length (take 31 (l.view q)) ≤ 31 = omega (arith, length-take 31 (l.view q)) in
      let fits = All-take Fits 31 (l.view q) fit in
      let (buf, v, built, size, parsed, vf, vc, vs, reads) =
        parse-build (header_flags b) b.tx_seq (take 31 (l.view q)) fits few in
      let more : ltb 0 (k.waiting (drain k 31 q).1) ≡ ltb 31 (length (l.view q)) =
        ltb_left (length (l.view q))
          (l.waiting_view (drain k 31 q).1 ∙ ap length left ∙ length-drop 31 (l.view q)) in
      (buf, v, rw (build_tx, more, sent) built, parsed, vf, vc, vs, reads, left, refl, refl)
