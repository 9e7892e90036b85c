-- ===== src/Frame/Xor.antt =====
-- The laws of exclusive or that checksums of frames rest on.
use Prim.Native.Nat.{digits, differ, bit_xor-bitwise}
use native.Mathlib.Nat.{pow-suc}
use ha_marstek_ble.Prelude.{
  ℕ, zero, suc, ◌+◌, ◌*◌, ◌/◌, ◌%◌, ◌^◌, ◌≤◌, ◌<◌, ◌≡◌, refl, bit_xor, [], ◌∷◌, arith,
}
use ha_marstek_ble.Struct.{Bytes}
use ha_marstek_ble.Frame.{xor_from, IsBytes}

abbrev xor_digits : ℕ → ℕ → ℕ → ℕ
xor_digits n a b = digits (λ y. y) differ n a b

xor_digits_fuel : (n m a b : ℕ) → a ≤ n → a ≤ m → xor_digits n a b ≡ xor_digits m a b
xor_digits_fuel zero zero a b p q = refl
xor_digits_fuel zero (suc m) zero b p q = refl
xor_digits_fuel zero (suc m) (suc a) b p q = absurd (omega arith)
xor_digits_fuel (suc n) zero zero b p q = refl
xor_digits_fuel (suc n) zero (suc a) b p q = absurd (omega arith)
xor_digits_fuel (suc n) (suc m) zero b p q = refl
xor_digits_fuel (suc n) (suc m) (suc a) b p q =
    omega (arith, xor_digits_fuel n m (suc a / 2) (b / 2) (omega arith) (omega arith))

bit_xor_step : (a b : ℕ) → bit_xor a b ≡ bit_xor (a / 2) (b / 2) * 2 + differ (a % 2) (b % 2)
bit_xor_step zero b = omega (arith, bit_xor-bitwise 0 b, bit_xor-bitwise 0 (b / 2))
bit_xor_step (suc a) b = omega (
  arith,
  bit_xor-bitwise (suc a) b,
  bit_xor-bitwise (suc a / 2) (b / 2),
  xor_digits_fuel a (suc a / 2) (suc a / 2) (b / 2) (omega arith) (omega arith),
)

differ-lt : (x y : ℕ) → x < 2 → y < 2 → differ x y < 2
differ-lt zero y h k = k
differ-lt (suc zero) zero h k = omega arith
differ-lt (suc zero) (suc y) h k = omega arith
differ-lt (suc (suc x)) y h k = absurd (omega arith)

differ_comm : (x y : ℕ) → differ x y ≡ differ y x
differ_comm zero zero = refl
differ_comm zero (suc y) = refl
differ_comm (suc x) zero = refl
differ_comm (suc x) (suc y) = differ_comm x y

differ_cancel : (x y z : ℕ) → x < 2 → y < 2 → z < 2 → differ x y ≡ differ x z → y ≡ z
differ_cancel zero y z hx hy hz e = e
differ_cancel (suc zero) zero zero hx hy hz e = refl
differ_cancel (suc zero) zero (suc zero) hx hy hz e = absurd (omega arith)
differ_cancel (suc zero) (suc zero) zero hx hy hz e = absurd (omega arith)
differ_cancel (suc zero) (suc zero) (suc zero) hx hy hz e = refl
differ_cancel (suc zero) (suc (suc y)) z hx hy hz e = absurd (omega arith)
differ_cancel (suc zero) y (suc (suc z)) hx hy hz e = absurd (omega arith)
differ_cancel (suc (suc x)) y z hx hy hz e = absurd (omega arith)

-- The lowest digit and the others of an equation between two results.
xor_parts :
    (a b c d : ℕ)
    → bit_xor a b ≡ bit_xor c d
    → (bit_xor (a / 2) (b / 2) ≡ bit_xor (c / 2) (d / 2))
      × (differ (a % 2) (b % 2) ≡ differ (c % 2) (d % 2))
xor_parts a b c d e = omega (
  arith,
  bit_xor_step a b,
  bit_xor_step c d,
  differ-lt (a % 2) (b % 2) (omega arith) (omega arith),
  differ-lt (c % 2) (d % 2) (omega arith) (omega arith),
)

bit_xor_cancel : (n a b c : ℕ) → b ≤ n → c ≤ n → bit_xor a b ≡ bit_xor a c → b ≡ c
bit_xor_cancel zero a b c hb hc e = omega arith
bit_xor_cancel (suc n) a b c hb hc e =
    let (high, low) = xor_parts a b a c e in
    omega (
      arith,
      bit_xor_cancel n (a / 2) (b / 2) (c / 2) (omega arith) (omega arith) high,
      differ_cancel (a % 2) (b % 2) (c % 2) (omega arith) (omega arith) (omega arith) low,
    )

bit_xor_comm : (n a b : ℕ) → a ≤ n → b ≤ n → bit_xor a b ≡ bit_xor b a
bit_xor_comm zero zero zero ha hb = refl
bit_xor_comm zero zero (suc b) ha hb = absurd (omega arith)
bit_xor_comm zero (suc a) b ha hb = absurd (omega arith)
bit_xor_comm (suc n) a b ha hb = omega (
  arith,
  bit_xor_step a b,
  bit_xor_step b a,
  differ_comm (a % 2) (b % 2),
  bit_xor_comm n (a / 2) (b / 2) (omega arith) (omega arith),
)

-- The right operand is determined by the left one and the result.
pub bit_xor_right : (a b c : ℕ) → bit_xor a b ≡ bit_xor a c → b ≡ c
bit_xor_right a b c = bit_xor_cancel (b + c) a b c (omega arith) (omega arith)

-- The left operand is determined by the right one and the result.
pub bit_xor_left : (a b c : ℕ) → bit_xor a c ≡ bit_xor b c → a ≡ b
bit_xor_left a b c e = bit_xor_right c a b (
    omega (
      arith,
      bit_xor_comm (a + c) a c (omega arith) (omega arith),
      bit_xor_comm (b + c) b c (omega arith) (omega arith),
    ))

bit_xor-lt_pow : (k a b : ℕ) → a < 2 ^ k → b < 2 ^ k → bit_xor a b < 2 ^ k
bit_xor-lt_pow zero zero zero ha hb = omega arith
bit_xor-lt_pow zero zero (suc b) ha hb = absurd (omega arith)
bit_xor-lt_pow zero (suc a) b ha hb = absurd (omega arith)
bit_xor-lt_pow (suc k) a b ha hb = omega (
  arith,
  pow-suc 2 k,
  bit_xor_step a b,
  differ-lt (a % 2) (b % 2) (omega arith) (omega arith),
  bit_xor-lt_pow k (a / 2) (b / 2) (omega (arith, pow-suc 2 k)) (omega (arith, pow-suc 2 k)),
)

-- A checksum of bytes is a byte.
pub xor_from-lt : (c : ℕ) (bytes : Bytes) → c < 256 → IsBytes bytes → xor_from c bytes < 256
unfolding xor_from
xor_from-lt c [] hc hb = hc
xor_from-lt c (b ∷ bytes) hc hb =
    xor_from-lt (bit_xor c b) bytes (bit_xor-lt_pow 8 c b hc hb.0) hb.1

-- The checksum from different starts is different.
pub xor_from_start : (c d : ℕ) (bytes : Bytes) → xor_from c bytes ≡ xor_from d bytes → c ≡ d
unfolding xor_from
xor_from_start c d [] e = e
xor_from_start c d (b ∷ bytes) e =
    bit_xor_left c d b (xor_from_start (bit_xor c b) (bit_xor d b) bytes e)
