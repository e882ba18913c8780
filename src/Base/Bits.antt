-- ===== src/Base/Bits.antt =====
-- `|` of disjoint bit fields and `^` with a mask of ones as arithmetic, at every width, from the
-- digit recursion that the native operations stand for.
pub mod Xor
use Prim.Native.Nat.{digits, bit_or-bitwise, bit_xor-bitwise, differ}
use native.Mathlib.Nat.{one-le-pow}
use ultra_patch.Base.{
  ℕ, zero, suc, ◌+◌, ◌-◌, ◌*◌, ◌/◌, ◌%◌, ◌^◌, ◌≤◌, ◌<◌, ◌≡◌, refl, ap, max, bit_or, bit_xor,
  pow-suc, arith,
}

-- The digit recursion on a table `f` for one digit, with the fuel last.
module _ (f : ℕ → ℕ → ℕ) where
  abbrev by_digits : ℕ → ℕ → ℕ → ℕ
  by_digits a b fuel = digits (λ rest. rest) f fuel a b

  -- Fuel beyond the first number is never used.
  by_digits_fuel : (b a x y : ℕ) → a ≤ x → a ≤ y → by_digits a b x ≡ by_digits a b y
  by_digits_fuel b (suc a) (suc x) (suc y) h k =
      let below = by_digits_fuel (b / 2) (suc a / 2) x y (omega arith) (omega arith) in
      omega (arith, below)
  by_digits_fuel b (suc a) (suc x) zero h k = absurd (omega arith)
  by_digits_fuel b (suc a) zero y h k = absurd (omega arith)
  by_digits_fuel b zero (suc x) (suc y) h k = refl
  by_digits_fuel b zero (suc x) zero h k = refl
  by_digits_fuel b zero zero (suc y) h k = refl
  by_digits_fuel b zero zero zero h k = refl

zero-bit_or : (x : ℕ) → bit_or 0 x ≡ x
zero-bit_or x = bit_or-bitwise 0 x

zero-bit_xor : (x : ℕ) → bit_xor 0 x ≡ x
zero-bit_xor x = bit_xor-bitwise 0 x

-- One binary digit of `|` and of `^`.
or_lowest : (x y : ℕ) → bit_or x y ≡ max (x % 2) (y % 2) + 2 * bit_or (x / 2) (y / 2)
or_lowest zero y = let half = zero-bit_or (y / 2) in omega (arith, half, zero-bit_or y)
or_lowest (suc x) y =
    let all = bit_or-bitwise (suc x) y in
    let half = bit_or-bitwise (suc x / 2) (y / 2) in
    let fuel = by_digits_fuel max (y / 2) (suc x / 2) x (suc x / 2) (omega arith) (omega arith) in
    omega (arith, all, half, fuel)

pub xor_lowest : (x y : ℕ) → bit_xor x y ≡ differ (x % 2) (y % 2) + 2 * bit_xor (x / 2) (y / 2)
xor_lowest zero y = let half = zero-bit_xor (y / 2) in ground (arith, half, zero-bit_xor y)
xor_lowest (suc x) y =
    let all = bit_xor-bitwise (suc x) y in
    let half = bit_xor-bitwise (suc x / 2) (y / 2) in
    let fuel =
      by_digits_fuel differ (y / 2) (suc x / 2) x (suc x / 2) (omega arith) (omega arith) in
    omega (arith, all, half, fuel)

shifted_double : (q k : ℕ) → q * 2 ^ suc k ≡ 2 * (q * 2 ^ k)
shifted_double q k = omega (arith, ap (λ (t : ℕ). q * t) (pow-suc 2 k))

-- A field shifted above `k` low bits joins them as a sum.
pub bit_or_high : (k r q : ℕ) → r < 2 ^ k → bit_or r (q * 2 ^ k) ≡ r + q * 2 ^ k
bit_or_high zero zero q h = omega (arith, zero-bit_or (q * 2 ^ 0))
bit_or_high zero (suc r) q h = absurd (omega arith)
bit_or_high (suc k) r q h =
    ground
      (arith, or_lowest r (q * 2 ^ suc k), shifted_double q k, pow-suc 2 k, bit_or_high k (r / 2) q)

pub differ_bits : (a : ℕ) → a < 2 → (differ a 0 ≡ a) × (differ a 1 ≡ 1 - a)
differ_bits zero h = (refl, refl)
differ_bits (suc zero) h = (refl, refl)
differ_bits (suc (suc a)) h = absurd (omega arith)

-- `^` with `k` ones is the complement on `k` bits.
pub bit_xor_ones : (k x : ℕ) → x < 2 ^ k → bit_xor x (2 ^ k - 1) ≡ 2 ^ k - 1 - x
bit_xor_ones zero zero h = omega (arith, zero-bit_xor (2 ^ 0 - 1))
bit_xor_ones zero (suc x) h = absurd (omega arith)
bit_xor_ones (suc k) x h = ground (
  arith,
  xor_lowest x (2 ^ suc k - 1),
  let e : (2 ^ suc k - 1) % 2 ≡ 1 = omega (arith, pow-suc 2 k, one-le-pow k 2 (omega arith)) in e,
  let e : (2 ^ suc k - 1) / 2 ≡ 2 ^ k - 1 = omega (arith, pow-suc 2 k) in e,
  differ_bits (x % 2) (omega arith),
  pow-suc 2 k,
  bit_xor_ones k (x / 2),
)

bit_xor-zero_below : (k x : ℕ) → x < 2 ^ k → bit_xor x 0 ≡ x
bit_xor-zero_below zero zero h = zero-bit_xor 0
bit_xor-zero_below zero (suc x) h = absurd (omega arith)
bit_xor-zero_below (suc k) x h =
    ground (arith, xor_lowest x 0, differ_bits (x % 2), pow-suc 2 k, bit_xor-zero_below k (x / 2))

pub bit_xor-zero : (x : ℕ) → x < 2 ^ 32 → bit_xor x 0 ≡ x
bit_xor-zero x h = bit_xor-zero_below 32 x h

bit_or-zero_below : (k x : ℕ) → x ≤ k → bit_or x 0 ≡ x
bit_or-zero_below k zero h = zero-bit_or 0
bit_or-zero_below zero (suc x) h = absurd (omega arith)
bit_or-zero_below (suc k) (suc x) h =
    omega (arith, or_lowest (suc x) 0, bit_or-zero_below k (suc x / 2) (omega arith))

-- The same with the shifted field first.
pub bit_or_low : (k q r : ℕ) → r < 2 ^ k → bit_or (q * 2 ^ k) r ≡ q * 2 ^ k + r
bit_or_low zero q zero h = omega (arith, bit_or-zero_below (q * 2 ^ 0) (q * 2 ^ 0) (omega arith))
bit_or_low zero q (suc r) h = absurd (omega arith)
bit_or_low (suc k) q r h =
    ground
      (arith, or_lowest (q * 2 ^ suc k) r, shifted_double q k, pow-suc 2 k, bit_or_low k q (r / 2))

-- One digit between higher digits and `k` lower ones that it joins.
pub bit_or_middle :
    (k q r b : ℕ)
    → r < 2 ^ k
    → b < 2
    → bit_or (q * 2 ^ suc k + r) (b * 2 ^ k) ≡ q * 2 ^ suc k + r + b * 2 ^ k
bit_or_middle zero q zero b h hb = ground (
  arith,
  or_lowest (q * 2 ^ 1 + 0) (b * 2 ^ 0),
  bit_or-zero_below ((q * 2 ^ 1 + 0) / 2) ((q * 2 ^ 1 + 0) / 2),
)
bit_or_middle zero q (suc r) b h hb = absurd (omega arith)
bit_or_middle (suc k) q r b h hb = ground (
  arith,
  or_lowest (q * 2 ^ suc (suc k) + r) (b * 2 ^ suc k),
  shifted_double q (suc k),
  shifted_double b k,
  pow-suc 2 k,
  bit_or_middle k q (r / 2) b,
)
