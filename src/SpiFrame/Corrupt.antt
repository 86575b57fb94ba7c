-- ===== src/SpiFrame/Corrupt.antt =====
-- spi_frame.c: a frame in which one byte was damaged on the way is refused.
use powersuit.Base.{
  ℕ, ◌+◌, ◌-◌, ◌*◌, ◌≤◌, ◌<◌, ◌≡◌, ◌≢◌, ◌⊎◌, inl, inr, sym, ap, ap₂, ◌∙◌, arith, none, some, List,
  length, take, drop, set, slice, length-set, length-take, length-drop, take-set, drop-set,
  drop-set_before, get_or-drop, get_or-take, get_or-set_ne, set-beyond, split_at, IsByte, IsU16,
}
use powersuit.Bytes.{at, rd_u16}
use powersuit.Crc.{update}
use powersuit.Crc.Detect.{update_detects, update_injective, update-IsU16}
use powersuit.SpiFrame.Parse.{parse_in_bounds}
use powersuit.SpiFrame.{ok, bad_crc, View, frame_crc, frame_parse}

-- A checksum tells apart a buffer and the same buffer with another byte at `i`.
update-set :
    (crc : ℕ) (xs : List ℕ) (i d : ℕ)
    → IsU16 crc
    → i < length xs
    → IsByte (at xs i)
    → IsByte d
    → at xs i ≢ d
    → update crc xs ≢ update crc (set xs i d)
update-set crc xs i d h inside b b' ne e =
    let (p, q) = split_at xs i 0 d inside in
    update_detects crc (take i xs) (drop (i + 1) xs) (at xs i) d h b b' ne
      (sym (ap (update crc) p) ∙ e ∙ ap (update crc) q)

-- The damage reaches the checksum: by the fields between `ver` and `seq` …
crc_field :
    (buf : List ℕ) (n i d : ℕ)
    → i < 4
    → 6 ≤ length buf
    → IsByte (at buf (2 + i))
    → IsByte d
    → at buf (2 + i) ≢ d
    → frame_crc buf n ≢ frame_crc (set buf (2 + i) d) n
unfolding frame_crc
crc_field buf n i d h l b b' ne e =
    update-set 0xFFFF (slice 2 4 buf) i d (omega arith)
      (omega (arith, length-take 4 (drop 2 buf), length-drop 2 buf)) (rw here b) b' (rw here ne)
      (update_injective _ _ (slice 8 (n * 16) buf)
        (update-IsU16 0xFFFF (slice 2 4 buf) (omega arith))
        (update-IsU16 0xFFFF (set (slice 2 4 buf) i d) (omega arith)) (e ∙ ap₂ update field tail))
  where
    here : at (slice 2 4 buf) i ≡ at buf (2 + i)
    here = get_or-take 4 (drop 2 buf) i 0 h ∙ get_or-drop 2 buf i 0

    field : update 0xFFFF (slice 2 4 (set buf (2 + i) d)) ≡ update 0xFFFF (set (slice 2 4 buf) i d)
    field = ap (update 0xFFFF) (ap (take 4) (drop-set 2 buf i d) ∙ take-set 4 (drop 2 buf) i d)

    tail : slice 8 (n * 16) (set buf (2 + i) d) ≡ slice 8 (n * 16) buf
    tail = ap (take (n * 16)) (drop-set_before 8 buf (2 + i) d (omega arith))

-- … or by the records.
crc_record :
    (buf : List ℕ) (n i d : ℕ)
    → i < n * 16
    → 8 + n * 16 ≤ length buf
    → IsByte (at buf (8 + i))
    → IsByte d
    → at buf (8 + i) ≢ d
    → frame_crc buf n ≢ frame_crc (set buf (8 + i) d) n
unfolding frame_crc
crc_record buf n i d h l b b' ne e =
    update-set (update 0xFFFF (slice 2 4 buf)) (slice 8 (n * 16) buf) i d
      (update-IsU16 0xFFFF (slice 2 4 buf) (omega arith))
      (omega (arith, length-take (n * 16) (drop 8 buf), length-drop 8 buf)) (rw here b) b'
      (rw here ne) (e ∙ ap₂ update front records)
  where
    here : at (slice 8 (n * 16) buf) i ≡ at buf (8 + i)
    here = get_or-take (n * 16) (drop 8 buf) i 0 h ∙ get_or-drop 8 buf i 0

    beyond : set (take 4 (drop 2 buf)) (6 + i) d ≡ take 4 (drop 2 buf)
    beyond = set-beyond (take 4 (drop 2 buf)) (6 + i) d (omega (arith, length-take 4 (drop 2 buf)))

    front : update 0xFFFF (slice 2 4 (set buf (8 + i) d)) ≡ update 0xFFFF (slice 2 4 buf)
    front = ap (update 0xFFFF) (
        ap (take 4) (
          ap (λ k. drop 2 (set buf k d)) (let e' : 8 + i ≡ 2 + (6 + i) = omega arith in e')
          ∙ drop-set 2 buf (6 + i) d)
        ∙ take-set 4 (drop 2 buf) (6 + i) d
        ∙ beyond)

    records : slice 8 (n * 16) (set buf (8 + i) d) ≡ set (slice 8 (n * 16) buf) i d
    records = ap (take (n * 16)) (drop-set 8 buf i d) ∙ take-set (n * 16) (drop 8 buf) i d

-- The bytes of an accepted frame that the checksum covers, but for `ver` and `count`, which decide
-- how the frame is read.
abbrev pub IsCovered : View → ℕ → Type 0
IsCovered v i = (i ≡ 3) ⊎ (i ≡ 5) ⊎ ((8 ≤ i) × (i < 8 + v.count * 16))

-- Another byte at a place that neither the length, the magic number, `ver`, `count` nor the stored
-- checksum read leaves the tests as they were, up to the checksum.
refused_by_crc :
    (buf : List ℕ) {v : View} (i d : ℕ)
    → frame_parse buf ≡ (ok, some v)
    → 3 ≤ i
    → i ≢ 4
    → i ≢ 6
    → i ≢ 7
    → frame_crc buf v.count ≢ frame_crc (set buf i d) v.count
    → frame_parse (set buf i d) ≡ (bad_crc, none)
unfolding frame_parse rd_u16
refused_by_crc buf {v} i d h lo n4 n6 n7 crc = ground (
  arith,
  length-set buf i d,
  get_or-set_ne buf {i = i} {j = 0} d 0 (omega arith),
  get_or-set_ne buf {i = i} {j = 1} d 0 (omega arith),
  get_or-set_ne buf {i = i} {j = 2} d 0 (omega arith),
  get_or-set_ne buf {i = i} {j = 4} d 0 (omega arith),
  get_or-set_ne buf {i = i} {j = 6} d 0 (omega arith),
  get_or-set_ne buf {i = i} {j = 7} d 0 (omega arith),
  get_or-drop 6 buf 0 0,
  get_or-drop 6 buf 1 0,
  get_or-drop 6 (set buf i d) 0 0,
  get_or-drop 6 (set buf i d) 1 0,
)

-- At a place that is written as an offset from where the checksum begins.
field_differs :
    (buf : List ℕ) {v : View} (i d : ℕ)
    → frame_parse buf ≡ (ok, some v)
    → (k : ℕ) → k < 4
    → i ≡ 2 + k
    → IsByte (at buf i)
    → IsByte d
    → at buf i ≢ d
    → frame_crc buf v.count ≢ frame_crc (set buf i d) v.count
field_differs buf {v} i d h k small e b b' ne = rw e (
    crc_field buf v.count k d small (omega (arith, parse_in_bounds buf h)) (rw e at b) b'
      (rw e at ne))

record_differs :
    (buf : List ℕ) {v : View} (i d : ℕ)
    → frame_parse buf ≡ (ok, some v)
    → (k : ℕ) → k < v.count * 16
    → i ≡ 8 + k
    → IsByte (at buf i)
    → IsByte d
    → at buf i ≢ d
    → frame_crc buf v.count ≢ frame_crc (set buf i d) v.count
record_differs buf {v} i d h k small e b b' ne = rw e (
    crc_record buf v.count k d small (omega (arith, parse_in_bounds buf h)) (rw e at b) b'
      (rw e at ne))

-- Changing one byte of an accepted frame, the flags, the sequence number or any byte of a record,
-- makes it refused for its checksum.
pub parse_detects :
    (buf : List ℕ) {v : View} (i d : ℕ)
    → frame_parse buf ≡ (ok, some v)
    → IsCovered v i
    → IsByte (at buf i)
    → IsByte d
    → at buf i ≢ d
    → frame_parse (set buf i d) ≡ (bad_crc, none)
parse_detects buf {v} i d h (inl c) b b' ne =
    refused_by_crc buf i d h (omega arith) (omega arith) (omega arith) (omega arith)
      (field_differs buf i d h 1 (omega arith) c b b' ne)
parse_detects buf {v} i d h (inr (inl c)) b b' ne =
    refused_by_crc buf i d h (omega arith) (omega arith) (omega arith) (omega arith)
      (field_differs buf i d h 3 (omega arith) c b b' ne)
parse_detects buf {v} i d h (inr (inr (lo, hi))) b b' ne =
    refused_by_crc buf i d h (omega arith) (omega arith) (omega arith) (omega arith)
      (record_differs buf i d h (i - 8) (omega arith) (omega arith) b b' ne)
