-- ===== src/Base/Bits/Xor.antt =====
-- `^` on words: its width, its top bit, and what one operand says of the other.
use Prim.Native.Nat.{differ}
use ultra_patch.Base.{
  ℕ, zero, suc, ◌/◌, ◌%◌, ◌^◌, ◌≤◌, ◌<◌, ◌≡◌, ◌⊎◌, refl, bit_xor, pow-suc, arith,
}
use ultra_patch.Base.Bits.{xor_lowest, differ_bits}

-- A digit is 0 or 1.
digit : (x : ℕ) → (x % 2 ≡ 0) ⊎ (x % 2 ≡ 1)
digit x = ground arith

differ_lt : (a b : ℕ) → a < 2 → b < 2 → differ a b < 2
differ_lt zero zero h k = omega arith
differ_lt zero (suc zero) h k = omega arith
differ_lt zero (suc (suc b)) h k = absurd (omega arith)
differ_lt (suc zero) zero h k = omega arith
differ_lt (suc zero) (suc zero) h k = omega arith
differ_lt (suc zero) (suc (suc b)) h k = absurd (omega arith)
differ_lt (suc (suc a)) b h k = absurd (omega arith)

differ_cancel : (a b p : ℕ) → a < 2 → b < 2 → p < 2 → differ a p ≡ differ b p → a ≡ b
differ_cancel a b zero ha hb hp e =
    let x = differ_bits a ha in let y = differ_bits b hb in omega arith
differ_cancel a b (suc zero) ha hb hp e =
    let x = differ_bits a ha in let y = differ_bits b hb in omega arith
differ_cancel a b (suc (suc p)) ha hb hp e = absurd (omega arith)

differ_comm : (a b : ℕ) → a < 2 → b < 2 → differ a b ≡ differ b a
differ_comm zero zero h k = refl
differ_comm zero (suc zero) h k = refl
differ_comm zero (suc (suc b)) h k = absurd (omega arith)
differ_comm (suc zero) zero h k = refl
differ_comm (suc zero) (suc zero) h k = refl
differ_comm (suc zero) (suc (suc b)) h k = absurd (omega arith)
differ_comm (suc (suc a)) b h k = absurd (omega arith)

pub bit_xor-lt : (k x y : ℕ) → x < 2 ^ k → y < 2 ^ k → bit_xor x y < 2 ^ k
bit_xor-lt zero zero zero h e = omega arith
bit_xor-lt zero (suc x) y h e = absurd (omega arith)
bit_xor-lt zero zero (suc y) h e = absurd (omega arith)
bit_xor-lt (suc k) x y h e =
    let p = pow-suc 2 k in
    let ih = bit_xor-lt k (x / 2) (y / 2) (omega arith) (omega arith) in
    let low = differ_lt (x % 2) (y % 2) (omega arith) (omega arith) in omega (arith, xor_lowest x y)

pub bit_xor_comm : (k x y : ℕ) → x < 2 ^ k → y < 2 ^ k → bit_xor x y ≡ bit_xor y x
bit_xor_comm zero zero zero h e = refl
bit_xor_comm zero (suc x) y h e = absurd (omega arith)
bit_xor_comm zero zero (suc y) h e = absurd (omega arith)
bit_xor_comm (suc k) x y h e =
    let p = pow-suc 2 k in
    let ih = bit_xor_comm k (x / 2) (y / 2) (omega arith) (omega arith) in
    let low = differ_comm (x % 2) (y % 2) (omega arith) (omega arith) in
    omega (arith, xor_lowest x y, xor_lowest y x)

pub bit_xor_cancel :
    (k x y m : ℕ) → x < 2 ^ k → y < 2 ^ k → m < 2 ^ k → bit_xor x m ≡ bit_xor y m → x ≡ y
bit_xor_cancel zero x y m h e f same = omega arith
bit_xor_cancel (suc k) x y m h e f same =
    let p = pow-suc 2 k in
    let a = differ_lt (x % 2) (m % 2) (omega arith) (omega arith) in
    let b = differ_lt (y % 2) (m % 2) (omega arith) (omega arith) in
    let lx = xor_lowest x m in
    let ly = xor_lowest y m in
    let ih =
      bit_xor_cancel k (x / 2) (y / 2) (m / 2) (omega arith) (omega arith) (omega arith)
        (omega arith) in
    let low =
      differ_cancel (x % 2) (y % 2) (m % 2) (omega arith) (omega arith) (omega arith)
        (omega arith) in
    omega arith

-- A bit above the other operand stays.
pub bit_xor-≥ : (k x m : ℕ) → x < 2 ^ k → 2 ^ k ≤ m → m < 2 ^ suc k → 2 ^ k ≤ bit_xor x m
bit_xor-≥ zero zero m h lo hi =
    let p = pow-suc 2 0 in let one : m ≡ 1 = omega arith in rw one (omega arith)
bit_xor-≥ zero (suc x) m h lo hi = absurd (omega arith)
bit_xor-≥ (suc k) x m h lo hi =
    let p = pow-suc 2 k in
    let q = pow-suc 2 (suc k) in
    let ih = bit_xor-≥ k (x / 2) (m / 2) (omega arith) (omega arith) (omega arith) in
    omega (arith, xor_lowest x m)
