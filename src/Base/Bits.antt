-- ===== src/Base/Bits.antt =====
-- Shifts and masks of machine words, and `|` of fields that do not overlap as a sum.
use Prim.Native.Nat.{ℕ, zero, suc, ◌+◌, ◌*◌, ◌/◌, ◌%◌, ◌^◌, ◌≤◌, ◌<◌, max, bit_or, digits}
use Prim.Native.Nat.{bit_or-bitwise}
use mathlib.Core.Path.{◌≡◌, refl, ap}
use native.Mathlib.Omega.{arith}
use native.Mathlib.Nat.{pow-suc}

-- x << k, x >> k and x & (2 ^ k - 1).
abbrev pub shl : ℕ → ℕ → ℕ
shl x k = x * 2 ^ k

abbrev pub shr : ℕ → ℕ → ℕ
shr x k = x / 2 ^ k

abbrev pub low_bits : ℕ → ℕ → ℕ
low_bits x k = x % 2 ^ k

abbrev pub IsByte : ℕ → Type 0
IsByte b = b < 256

or_digits-fuel :
    (n m a b : ℕ) → a ≤ n → a ≤ m → digits (λ b. b) max n a b ≡ digits (λ b. b) max m a b
or_digits-fuel zero zero a b p q = refl
or_digits-fuel zero (suc m) zero b p q = refl
or_digits-fuel zero (suc m) (suc a) b p q = absurd (omega arith)
or_digits-fuel (suc n) zero zero b p q = refl
or_digits-fuel (suc n) zero (suc a) b p q = absurd (omega arith)
or_digits-fuel (suc n) (suc m) zero b p q = refl
or_digits-fuel (suc n) (suc m) (suc a) b p q =
    omega (arith, or_digits-fuel n m (suc a / 2) (b / 2) (omega arith) (omega arith))

zero-bit_or : (b : ℕ) → bit_or 0 b ≡ b
zero-bit_or b = bit_or-bitwise 0 b

bit_or_step : (a b : ℕ) → bit_or a b ≡ bit_or (a / 2) (b / 2) * 2 + max (a % 2) (b % 2)
bit_or_step zero b = omega (arith, zero-bit_or b, zero-bit_or (b / 2))
bit_or_step (suc a) b = omega (
  arith,
  bit_or-bitwise (suc a) b,
  bit_or-bitwise (suc a / 2) (b / 2),
  or_digits-fuel a (suc a / 2) (suc a / 2) (b / 2) (omega arith) (omega arith),
)

bit_or-zero_fuel : (n a : ℕ) → a ≤ n → bit_or a 0 ≡ a
bit_or-zero_fuel n zero h = refl
bit_or-zero_fuel zero (suc a) h = absurd (omega arith)
bit_or-zero_fuel (suc n) (suc a) h =
    omega (arith, bit_or_step (suc a) 0, bit_or-zero_fuel n (suc a / 2) (omega arith))

-- A word over a free low field of `k` bits.
pub bit_or-disjoint : (k a b : ℕ) → b < 2 ^ k → bit_or (a * 2 ^ k) b ≡ a * 2 ^ k + b
bit_or-disjoint zero a zero h = omega (arith, bit_or-zero_fuel (a * 1) (a * 1))
bit_or-disjoint zero a (suc b) h = absurd (omega arith)
bit_or-disjoint (suc k) a b h =
    let e : a * 2 ^ suc k ≡ 2 * (a * 2 ^ k) = omega (arith, ap (λ (t : ℕ). a * t) (pow-suc 2 k)) in
    let half : 2 * (a * 2 ^ k) / 2 ≡ a * 2 ^ k = omega arith in
    let below : b / 2 < 2 ^ k = omega (arith, pow-suc 2 k) in
    let step = rw (half, bit_or-disjoint k a (b / 2) below) at (bit_or_step (2 * (a * 2 ^ k)) b) in
    rw e (omega (arith, step))

bit_or-disjoint_low : (k a b : ℕ) → b < 2 ^ k → bit_or b (a * 2 ^ k) ≡ b + a * 2 ^ k
bit_or-disjoint_low zero a zero h = omega (arith, zero-bit_or (a * 1))
bit_or-disjoint_low zero a (suc b) h = absurd (omega arith)
bit_or-disjoint_low (suc k) a b h =
    let e : a * 2 ^ suc k ≡ 2 * (a * 2 ^ k) = omega (arith, ap (λ (t : ℕ). a * t) (pow-suc 2 k)) in
    let half : 2 * (a * 2 ^ k) / 2 ≡ a * 2 ^ k = omega arith in
    let below : b / 2 < 2 ^ k = omega (arith, pow-suc 2 k) in
    let step =
      rw (half, bit_or-disjoint_low k a (b / 2) below) at (bit_or_step b (2 * (a * 2 ^ k))) in
    rw e (omega (arith, step))

-- `x | y` is `x + y` where `x` is a multiple of 2 ^ k and `y` is below it.
pub bit_or-add : (k q x y : ℕ) → x ≡ q * 2 ^ k → y < 2 ^ k → bit_or x y ≡ x + y
bit_or-add k q x y e h = rw e (bit_or-disjoint k q y h)

-- And where `y` is the multiple.
pub bit_or-add_low : (k q x y : ℕ) → y ≡ q * 2 ^ k → x < 2 ^ k → bit_or x y ≡ x + y
bit_or-add_low k q x y e h = rw e (bit_or-disjoint_low k q x h)
