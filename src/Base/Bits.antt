-- ===== src/Base/Bits.antt =====
-- Laws of `bit_xor` and `bit_or` at variables. Each is the lowest digit and the rest, and a law
-- for every width is an induction on a bound for the operands.
use Prim.Native.Nat.{ℕ, zero, suc, ◌+◌, ◌*◌, ◌/◌, ◌%◌, ◌^◌, ◌≤◌, ◌<◌, max, differ}
use Prim.Native.Nat.{bit_or, bit_xor, digits, bit_or-bitwise, bit_xor-bitwise}
use mathlib.Core.Path.{◌≡◌, refl, sym, ap, ap₂, ◌∙◌, ◌≡⟨◌⟩◌, ◌∎}
use native.Mathlib.Nat.{
  pow-suc, one-le-pow, mod-lt, mod-eq_of_lt, div-add-mod, add-mul-mod_self_right,
}
use native.Mathlib.Omega.{arith}

-- Once the fuel covers the first number, more fuel changes nothing.
digits_enough :
    (f : ℕ → ℕ → ℕ) (n m a b : ℕ)
    → a ≤ n
    → a ≤ m
    → digits (λ y. y) f n a b ≡ digits (λ y. y) f m a b
digits_enough f zero zero a b p q = refl
digits_enough f zero (suc m) zero b p q = refl
digits_enough f zero (suc m) (suc a) b p q = absurd (omega arith)
digits_enough f (suc n) zero zero b p q = refl
digits_enough f (suc n) zero (suc a) b p q = absurd (omega arith)
digits_enough f (suc n) (suc m) zero b p q = refl
digits_enough f (suc n) (suc m) (suc a) b p q =
    omega (arith, digits_enough f n m (suc a / 2) (b / 2) (omega arith) (omega arith))

pub bit_or_digit : (a b : ℕ) → bit_or a b ≡ bit_or (a / 2) (b / 2) * 2 + max (a % 2) (b % 2)
bit_or_digit zero b = omega (arith, bit_or-bitwise 0 b, bit_or-bitwise 0 (b / 2))
bit_or_digit (suc a) b = omega (
  arith,
  bit_or-bitwise (suc a) b,
  bit_or-bitwise (suc a / 2) (b / 2),
  digits_enough max a (suc a / 2) (suc a / 2) (b / 2) (omega arith) (omega arith),
)

zero-bit_xor : (b : ℕ) → bit_xor 0 b ≡ b
zero-bit_xor b = bit_xor-bitwise 0 b

zero-differ : (b : ℕ) → differ 0 b ≡ b
zero-differ b = refl

pub bit_xor_digit : (a b : ℕ) → bit_xor a b ≡ bit_xor (a / 2) (b / 2) * 2 + differ (a % 2) (b % 2)
bit_xor_digit zero b = omega (arith, zero-bit_xor b, zero-bit_xor (b / 2), zero-differ (b % 2))
bit_xor_digit (suc a) b = omega (
  arith,
  bit_xor-bitwise (suc a) b,
  bit_xor-bitwise (suc a / 2) (b / 2),
  digits_enough differ a (suc a / 2) (suc a / 2) (b / 2) (omega arith) (omega arith),
)

-- On single digits.
differ_digit : (x y : ℕ) → x < 2 → y < 2 → (differ x y < 2) × (differ (differ x y) y ≡ x)
differ_digit zero zero p q = (omega arith, refl)
differ_digit zero (suc zero) p q = (omega arith, refl)
differ_digit (suc zero) zero p q = (omega arith, refl)
differ_digit (suc zero) (suc zero) p q = (omega arith, refl)
differ_digit zero (suc (suc y)) p q = absurd (omega arith)
differ_digit (suc zero) (suc (suc y)) p q = absurd (omega arith)
differ_digit (suc (suc x)) y p q = absurd (omega arith)

differ_comm : (x y : ℕ) → differ x y ≡ differ y x
differ_comm zero zero = refl
differ_comm zero (suc y) = refl
differ_comm (suc x) zero = refl
differ_comm (suc x) (suc y) = differ_comm x y

xor_twice_below : (n a b : ℕ) → a ≤ n → b ≤ n → bit_xor (bit_xor a b) b ≡ a
xor_twice_below zero zero zero p q = refl
xor_twice_below zero zero (suc b) p q = absurd (omega arith)
xor_twice_below zero (suc a) b p q = absurd (omega arith)
xor_twice_below (suc n) a b p q = omega (
  arith,
  bit_xor_digit a b,
  bit_xor_digit (bit_xor a b) b,
  xor_twice_below n (a / 2) (b / 2) (omega arith) (omega arith),
  half,
  differ_digit (a % 2) (b % 2) (omega arith) (omega arith),
  digit,
)
  where
    low : differ (a % 2) (b % 2) < 2
    low = (differ_digit (a % 2) (b % 2) (omega arith) (omega arith)).0

    half : bit_xor (bit_xor a b / 2) (b / 2) ≡ bit_xor (bit_xor (a / 2) (b / 2)) (b / 2)
    half = ap (λ x. bit_xor x (b / 2)) (omega (arith, bit_xor_digit a b, low))

    digit : differ (bit_xor a b % 2) (b % 2) ≡ differ (differ (a % 2) (b % 2)) (b % 2)
    digit = ap (λ x. differ x (b % 2)) (omega (arith, bit_xor_digit a b, low))

-- Exclusive or with the same word twice gives the first word back.
pub bit_xor_twice : (a b : ℕ) → bit_xor (bit_xor a b) b ≡ a
bit_xor_twice a b = xor_twice_below (a + b) a b (omega arith) (omega arith)

xor_comm_below : (n a b : ℕ) → a ≤ n → b ≤ n → bit_xor a b ≡ bit_xor b a
xor_comm_below zero zero zero p q = refl
xor_comm_below zero zero (suc b) p q = absurd (omega arith)
xor_comm_below zero (suc a) b p q = absurd (omega arith)
xor_comm_below (suc n) a b p q = omega (
  arith,
  bit_xor_digit a b,
  bit_xor_digit b a,
  xor_comm_below n (a / 2) (b / 2) (omega arith) (omega arith),
  differ_comm (a % 2) (b % 2),
)

pub bit_xor_comm : (a b : ℕ) → bit_xor a b ≡ bit_xor b a
bit_xor_comm a b = xor_comm_below (a + b) a b (omega arith) (omega arith)

pub bit_xor_cancel_right : (a b c : ℕ) → bit_xor a c ≡ bit_xor b c → a ≡ b
bit_xor_cancel_right a b c e = sym (bit_xor_twice a c) ∙ ap (λ x. bit_xor x c) e ∙ bit_xor_twice b c

pub bit_xor_cancel_left : (a b c : ℕ) → bit_xor c a ≡ bit_xor c b → a ≡ b
bit_xor_cancel_left a b c e = bit_xor_cancel_right a b c (bit_xor_comm a c ∙ e ∙ bit_xor_comm c b)

-- No digit is set above those of the operands.
pub bit_xor-lt : (k a b : ℕ) → a < 2 ^ k → b < 2 ^ k → bit_xor a b < 2 ^ k
bit_xor-lt zero zero zero p q = omega arith
bit_xor-lt zero zero (suc b) p q = absurd (omega arith)
bit_xor-lt zero (suc a) b p q = absurd (omega arith)
bit_xor-lt (suc k) a b p q = omega (
  arith,
  pow-suc 2 k,
  bit_xor_digit a b,
  bit_xor-lt k (a / 2) (b / 2) (omega (arith, pow-suc 2 k)) (omega (arith, pow-suc 2 k)),
  differ_digit (a % 2) (b % 2) (omega arith) (omega arith),
)

mul_two_pow : (q k : ℕ) → q * 2 ^ suc k ≡ q * 2 ^ k * 2
mul_two_pow q k = omega (arith, ap (λ (t : ℕ). q * t) (pow-suc 2 k))

or_zero_below : (n a : ℕ) → a ≤ n → bit_or a 0 ≡ a
or_zero_below zero zero h = refl
or_zero_below zero (suc a) h = absurd (omega arith)
or_zero_below (suc n) zero h = refl
or_zero_below (suc n) (suc a) h =
    omega (arith, bit_or_digit (suc a) 0, or_zero_below n (suc a / 2) (omega arith))

-- A field put beside another by `|` is a sum, where they share no digit.
pub bit_or_beside : (k q r : ℕ) → r < 2 ^ k → bit_or (q * 2 ^ k) r ≡ q * 2 ^ k + r
bit_or_beside zero q zero h = omega (arith, or_zero_below (q * 2 ^ 0) (q * 2 ^ 0) (omega arith))
bit_or_beside zero q (suc r) h = absurd (omega arith)
bit_or_beside (suc k) q r h = omega (
  arith,
  bit_or_digit (q * 2 ^ suc k) r,
  mul_two_pow q k,
  ap (λ x. bit_or x (r / 2)) halves,
  bit_or_beside k q (r / 2) (omega (arith, pow-suc 2 k)),
)
  where
    halves : q * 2 ^ suc k / 2 ≡ q * 2 ^ k
    halves = omega (arith, mul_two_pow q k)

-- A number below a multiple of `2 * p`, from its half below a multiple of `p`.
double_mod : (x d p : ℕ) → d < 2 → 0 < p → (x * 2 + d) % (p * 2) ≡ x % p * 2 + d
double_mod x d p h k =
    rw split (rw add-mul-mod_self_right (mod-eq_of_lt (omega (arith, mod-lt x {m = p} k))))
  where
    split : x * 2 + d ≡ x % p * 2 + d + x / p * (p * 2)
    split = omega (arith, div-add-mod x p)

mod_of_digit : (k x d n : ℕ) → d < 2 → n ≡ x * 2 + d → n % 2 ^ suc k ≡ x % 2 ^ k * 2 + d
mod_of_digit k x d n h e =
    ap₂ ◌%◌ e (omega (arith, pow-suc 2 k)) ∙ double_mod x d (2 ^ k) h (one-le-pow k 2 (omega arith))

-- Cutting both words to their low digits commutes with exclusive or.
pub bit_xor-mod : (k a b : ℕ) → bit_xor a b % 2 ^ k ≡ bit_xor (a % 2 ^ k) (b % 2 ^ k)
bit_xor-mod zero a b =
    (let e : bit_xor a b % 2 ^ 0 ≡ 0 = omega arith in e)
    ∙ sym (
        ap₂ bit_xor (let e : a % 2 ^ 0 ≡ 0 = omega arith in e)
          (let e : b % 2 ^ 0 ≡ 0 = omega arith in e))
bit_xor-mod (suc k) a b =
    bit_xor a b % 2 ^ suc k
    ≡⟨ mod_of_digit k (bit_xor (a / 2) (b / 2)) _ _ low (bit_xor_digit a b) ⟩
      bit_xor (a / 2) (b / 2) % 2 ^ k * 2 + differ (a % 2) (b % 2)
    ≡⟨ ap (λ x. x * 2 + differ (a % 2) (b % 2)) (bit_xor-mod k (a / 2) (b / 2)) ⟩
      bit_xor (a / 2 % 2 ^ k) (b / 2 % 2 ^ k) * 2 + differ (a % 2) (b % 2)
    ≡⟨ ap₂ ◌+◌ (ap (λ x. x * 2) (ap₂ bit_xor (sym (cut a).0) (sym (cut b).0)))
        (ap₂ differ (sym (cut a).1) (sym (cut b).1)) ⟩
      bit_xor (a % 2 ^ suc k / 2) (b % 2 ^ suc k / 2) * 2
      + differ (a % 2 ^ suc k % 2) (b % 2 ^ suc k % 2)
    ≡⟨ sym (bit_xor_digit (a % 2 ^ suc k) (b % 2 ^ suc k)) ⟩
      bit_xor (a % 2 ^ suc k) (b % 2 ^ suc k) ∎
  where
    low : differ (a % 2) (b % 2) < 2
    low = (differ_digit (a % 2) (b % 2) (omega arith) (omega arith)).0

    cut : (x : ℕ) → (x % 2 ^ suc k / 2 ≡ x / 2 % 2 ^ k) × (x % 2 ^ suc k % 2 ≡ x % 2)
    cut x = omega (arith, mod_of_digit k (x / 2) (x % 2) x (omega arith) (omega arith))

max_comm : (x y : ℕ) → max x y ≡ max y x
max_comm x y = omega arith

or_comm_below : (n a b : ℕ) → a ≤ n → b ≤ n → bit_or a b ≡ bit_or b a
or_comm_below zero zero zero p q = refl
or_comm_below zero zero (suc b) p q = absurd (omega arith)
or_comm_below zero (suc a) b p q = absurd (omega arith)
or_comm_below (suc n) a b p q = omega (
  arith,
  bit_or_digit a b,
  bit_or_digit b a,
  or_comm_below n (a / 2) (b / 2) (omega arith) (omega arith),
)

pub bit_or_comm : (a b : ℕ) → bit_or a b ≡ bit_or b a
bit_or_comm a b = or_comm_below (a + b) a b (omega arith) (omega arith)

-- The same with the low field written first.
pub bit_or_below : (k q r : ℕ) → r < 2 ^ k → bit_or r (q * 2 ^ k) ≡ r + q * 2 ^ k
bit_or_below k q r h = omega (arith, bit_or_comm r (q * 2 ^ k), bit_or_beside k q r h)
