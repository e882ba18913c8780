-- ===== src/Model/Digits.antt =====
-- The binary digits of a value, from the top.
use ultra_patch.Base.{ℕ, suc, ◌+◌, ◌*◌, ◌/◌, ◌%◌, ◌^◌, ◌≤◌, ◌<◌, ◌≡◌, ap, ◌∙◌, ◌==◌, pow-suc, arith}
use native.Mathlib.Nat.{div-add-mod', mod-lt, one-le-pow, mul-add-mod_self_right, mod-eq_of_lt}
use ultra_patch.Model.{bit_value}

pub bit_value_of_mod : (x : ℕ) → bit_value (x % 2 == 1) ≡ x % 2
bit_value_of_mod x = ground arith

-- The lowest `i + 1` digits are digit `i` and the lowest `i`.
pub low_digits_suc : (x i : ℕ) → x % 2 ^ suc i ≡ x / 2 ^ i % 2 * 2 ^ i + x % 2 ^ i
low_digits_suc x i =
    let b = 2 ^ i in
    let pos : 0 < b = one-le-pow i 2 (omega arith) in
    let q = x / b in
    let e1 : q * b + x % b ≡ x = div-add-mod' x b in
    let e3 : q / 2 * 2 + q % 2 ≡ q = div-add-mod' q 2 in
    let e4 : q * b ≡ q / 2 * 2 * b + q % 2 * b = omega (arith, ap (λ (t : ℕ). t * b) e3) in
    let p : 2 ^ suc i ≡ b * 2 = pow-suc 2 i in
    let e5 : q / 2 * 2 ^ suc i ≡ q / 2 * 2 * b = omega (arith, ap (λ (t : ℕ). q / 2 * t) p) in
    let digit : q % 2 * b ≤ 1 * b = (let h : q % 2 ≤ 1 = omega arith in grind arith) in
    let split : x ≡ q / 2 * 2 ^ suc i + (q % 2 * b + x % b) = omega arith in
    let small = mod-lt x pos in
    ap (λ (t : ℕ). t % 2 ^ suc i) split
    ∙ mul-add-mod_self_right (q / 2) (2 ^ suc i) (q % 2 * b + x % b)
    ∙ mod-eq_of_lt (omega arith)

-- Digits read from the top onto an accumulator.
pub digit_step :
    (x m i : ℕ)
    → m * 2 ^ suc i + x % 2 ^ suc i ≡ (m * 2 + bit_value (x / 2 ^ i % 2 == 1)) * 2 ^ i + x % 2 ^ i
digit_step x m i =
    rw (bit_value_of_mod (x / 2 ^ i))
      (omega (arith, low_digits_suc x i, ap (λ (t : ℕ). m * t) (pow-suc 2 i)))
