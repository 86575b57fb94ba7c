-- ===== src/Orch/Uplink.antt =====
-- frame_parser.cpp at the other end of ps_spibridge.c: what the hub sends arrives.
use powersuit.Base.{
  ℕ, suc, ◌+◌, ◌*◌, ◌≡◌, ◌≢◌, refl, sym, ap, ap₂, subst, ◌∙◌, arith, true, false, none, some, List,
  [], ◌∷◌, length, take, drop, get_elem?, All, ltb, u8, inl, inr, Bool-cases,
}
use powersuit.Base.Queue.{Ops, Laws}
use powersuit.Bytes.{rd_u16}
use powersuit.SpiFrame.{Record, View, ok, short, bad_magic, frame_parse, view_record}
use powersuit.SpiFrame.Records.{Fits}
use powersuit.Bridge.{Bridge, all_zero, build_tx}
use powersuit.Bridge.Flow.{header_flags, build_tx-frame}
use powersuit.Orch.Parser.{
  Parser, ParseResult, k_ok, next_u64, push_read, read_records, check_seq, take_view, parse,
}

-- The view gives the records, from the index on.
abbrev pub Gives : View → ℕ → List Record → Type 0
Gives v i rs = (j : ℕ) (r : Record) → get_elem? rs j ≡ some r → view_record v (i + j) ≡ (ok, some r)

pub read_records-all :
    (v : View) (rs : List Record) (i : ℕ) → Gives v i rs → read_records v (length rs) i ≡ rs
unfolding read_records
read_records-all v [] i g = refl
read_records-all v (r ∷ rs) i g =
    let here : view_record v i ≡ (ok, some r) =
      subst (λ n. view_record v n ≡ (ok, some r)) (omega arith) (g 0 r refl) in
    let later : Gives v (i + 1) rs =
      λ j x e. subst (λ n. view_record v n ≡ (ok, some x)) (omega arith) (g (suc j) x e) in
    ap₂ push_read here (read_records-all v rs (i + 1) later)

-- A buffer of zeros is no frame.
zeros_start :
    (b c : ℕ) (bs : List ℕ) (n : ℕ) → all_zero (suc (suc n)) (b ∷ c ∷ bs) ≡ true → (b ≡ 0) × (c ≡ 0)
unfolding all_zero
zeros_start b c bs n h = ground arith

no_frame : (bs : List ℕ) (v : View) → frame_parse (0 ∷ 0 ∷ bs) ≢ (ok, some v)
unfolding frame_parse rd_u16
no_frame bs v e = elim (Bool-cases (ltb (length (0 ∷ 0 ∷ bs)) 8)) [
  | inl small ↦ (let refuses : frame_parse (0 ∷ 0 ∷ bs) ≡ (short, none) = rw small refl in cc)
  | inr whole ↦ (let refuses : frame_parse (0 ∷ 0 ∷ bs) ≡ (bad_magic, none) = rw whole refl in cc)
]

frame_no_zeros :
    (buf : List ℕ) (v : View) → frame_parse buf ≡ (ok, some v) → all_zero (length buf) buf ≡ false
unfolding frame_parse
frame_no_zeros [] v e = cc
frame_no_zeros (b ∷ []) v e = cc
frame_no_zeros (b ∷ c ∷ bs) v e = elim (Bool-cases (all_zero (length (b ∷ c ∷ bs)) (b ∷ c ∷ bs))) [
  | inr some_bit ↦ some_bit
  | inl zeros ↦
      (let (x, y) = zeros_start b c bs (length bs) zeros in
        absurd (
          no_frame bs v (
            subst (λ d. frame_parse (0 ∷ d ∷ bs) ≡ (ok, some v)) y
              (subst (λ d. frame_parse (d ∷ c ∷ bs) ≡ (ok, some v)) x e))))
]

-- A frame that parses is taken with all of its records.
pub parse_takes :
    (p : Parser) (buf : List ℕ) (v : View) (rs : List Record)
    → frame_parse buf ≡ (ok, some v)
    → v.count ≡ length rs
    → Gives v 0 rs
    → parse p buf ≡ (
        let q = check_seq p v.seq in
        (record q { frames_ok = next_u64 q.frames_ok }, k_ok rs v.flags v.seq))
unfolding parse take_view
parse_takes p buf v rs parsed count gives =
    let some_bit = frame_no_zeros buf v parsed in
    let all : read_records v v.count 0 ≡ rs =
      ap (λ n. read_records v n 0) count ∙ read_records-all v rs 0 gives in
    rw (some_bit, parsed, all) refl

-- The parser waits for the sequence number of the hub's next frame.
abbrev pub InStep : Parser → ℕ → Type 0
InStep p seq = (p.have_rx_seq ≡ true) × (seq ≡ u8 (p.last_rx_seq + 1))

check_seq-InStep :
    (p : Parser) (seq : ℕ)
    → InStep p seq
    → ((check_seq p seq).seq_gaps ≡ p.seq_gaps) × InStep (check_seq p seq) (u8 (seq + 1))
unfolding check_seq
check_seq-InStep p seq (h, e) = ground arith

module _ {Q : Type 0} (k : Ops Q Record) (l : Laws k) where
  -- For queues that behave as documented, where the hub's waiting records fit their slots and the orchestrator is in step with the
  -- hub, the frame that the hub builds gives the orchestrator the first 31 of them, in order, with the flags and the sequence
  -- number; it counts no gap, is in step with the hub's next frame, and the hub keeps the other records.
  pub uplink_arrives :
      (b : Bridge Q) (p : Parser)
      → All Fits (l.view b.uplink)
      → InStep p b.tx_seq
      → let b' = (build_tx k b).0 in
        (buf : List ℕ) × (n : ℕ) × ((build_tx k b).1 ≡ some (buf, n))
        × ((parse p buf).1 ≡ k_ok (take 31 (l.view b.uplink)) (header_flags k l b) b.tx_seq)
        × ((parse p buf).0.seq_gaps ≡ p.seq_gaps)
        × InStep (parse p buf).0 b'.tx_seq
        × (l.view b'.uplink ≡ drop 31 (l.view b.uplink))
  uplink_arrives b p fit step =
      let (buf, v, built, parsed, vf, vc, vs, reads, left, _, next) = build_tx-frame k l b fit in
      let gives : Gives v 0 (take 31 (l.view b.uplink)) =
        λ j r e. subst (λ n. view_record v n ≡ (ok, some r)) (omega arith) (reads j r e) in
      let taken = parse_takes p buf v (take 31 (l.view b.uplink)) parsed vc gives in
      let (same, (on, after)) = check_seq-InStep p b.tx_seq step in
      let state : (parse p buf).0 ≡ record (check_seq p b.tx_seq) {
        frames_ok = next_u64 (check_seq p b.tx_seq).frames_ok;
      } =
        ap (λ (x : Parser × ParseResult). x.0) taken
        ∙ ap (λ s. record (check_seq p s) { frames_ok = next_u64 (check_seq p s).frames_ok }) vs in
      (
        buf,
        8 + length (take 31 (l.view b.uplink)) * 16,
        built,
        ap (λ (x : Parser × ParseResult). x.1) taken ∙ ap₂ (k_ok (take 31 (l.view b.uplink))) vf vs,
        ap (λ (q : Parser). q.seq_gaps) state ∙ same,
        (
          ap (λ (q : Parser). q.have_rx_seq) state ∙ on,
          next ∙ after ∙ ap (λ (q : Parser). u8 (q.last_rx_seq + 1)) (sym state),
        ),
        left,
      )
