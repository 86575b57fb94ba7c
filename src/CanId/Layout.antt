-- ===== src/CanId/Layout.antt =====
-- can_id.h: packing and unpacking an identifier are inverse, and the class ranks the identifiers.
use powersuit.Base.{ℕ, ◌+◌, ◌*◌, ◌^◌, ◌<◌, ◌≡◌, arith, IsByte}
use native.Mathlib.Nat.{mod-eq_of_lt}
use powersuit.Base.Bits.{bit_or_beside}
use powersuit.CanId.{CanId, pack, unpack, id_cls, id_src, id_dst, id_type, id_low}

-- Every field fits its place.
pub record Fits (f : CanId) : Type 0 where
  pub cls : f.cls < 8
  pub src : f.src < 32
  pub dst : f.dst < 32
  pub type : IsByte f.type
  pub low : IsByte f.low

abbrev pub pack_fields : CanId → ℕ
pack_fields f = pack f.cls f.src f.dst f.type f.low

-- The fields stand side by side, so the identifier is a sum.
pub pack_as_sum :
    (f : CanId)
    → Fits f
    → pack_fields f ≡ f.cls * 2 ^ 26 + f.src * 2 ^ 21 + f.dst * 2 ^ 16 + f.type * 2 ^ 8 + f.low
unfolding pack
pack_as_sum f h = ground (
  arith,
  mod-eq_of_lt h.cls,
  mod-eq_of_lt h.src,
  mod-eq_of_lt h.dst,
  bit_or_beside 26 f.cls (f.src * 2 ^ 21) (omega arith),
  bit_or_beside 21 (f.cls * 32 + f.src) (f.dst * 2 ^ 16) (omega arith),
  bit_or_beside 16 (f.cls * 1024 + f.src * 32 + f.dst) (f.type * 2 ^ 8) (omega arith),
  bit_or_beside 8 (f.cls * 262144 + f.src * 8192 + f.dst * 256 + f.type) f.low (omega arith),
)

-- Unpacking gives back the five fields that were packed, when each fits its place, and the five
-- accessors read the same fields.
pub unpack-pack :
    (f : CanId)
    → Fits f
    → let id = pack_fields f in
      (unpack id ≡ f)
      × (id_cls id ≡ f.cls)
      × (id_src id ≡ f.src)
      × (id_dst id ≡ f.dst)
      × (id_type id ≡ f.type)
      × (id_low id ≡ f.low)
unfolding unpack id_cls id_src id_dst id_type id_low
unpack-pack f h = ground (arith, pack_as_sum f h)

unpack-Fits : (id : ℕ) → Fits (unpack id)
unfolding unpack
unpack-Fits id = omega arith

-- Packing the fields of a 29-bit identifier gives the identifier back.
pub pack-unpack : (id : ℕ) → id < 2 ^ 29 → pack_fields (unpack id) ≡ id
unfolding unpack
pack-unpack id h = omega (arith, pack_as_sum (unpack id) (unpack-Fits id))

-- A frame of a lower class has the lower identifier, whatever the other fields are.
pub pack_class_mono :
    (f g : CanId) → Fits f → Fits g → f.cls < g.cls → pack_fields f < pack_fields g
pack_class_mono f g hf hg h = omega (arith, pack_as_sum f hf, pack_as_sum g hg)
