-- ===== src/Coder/Bitlen.antt =====
-- bitlen32 and the rounding that re_flush_opt does with it.
use native.Mathlib.Nat.{pow-suc, one-le-pow, mod-lt, div-add-mod', mul-mod_left, add-mod_right}
use ultra_patch.Base.{
  ℕ, zero, suc, ◌+◌, ◌-◌, ◌*◌, ◌/◌, ◌%◌, ◌^◌, ◌≤◌, ◌<◌, ◌≡◌, refl, ap, ◌∙◌, ◌⊎◌, inl, inr, ◌==◌,
  arith, Bool-cases, ◌≢◌,
}
use ultra_patch.Coder.Encoder.{REnc, bitlen32_loop, bitlen32, round_low}

-- `t` is the position of the top bit of `v`.
abbrev pub IsTopBit : ℕ → ℕ → Type 0
IsTopBit v t = (2 ^ t ≤ v) × (v < 2 ^ (t + 1))

next_power : (v t : ℕ) → v / 2 < 2 ^ (t + 1) → v < 2 ^ (suc t + 1)
next_power v t h =
    let e : suc t + 1 ≡ suc (t + 1) = omega arith in rw e (omega (arith, pow-suc 2 (t + 1)))

bitlen32_loop_lem :
    (fuel n v : ℕ)
    → 0 < v
    → v < 2 ^ fuel
    → (t : ℕ) × (bitlen32_loop fuel n v ≡ n + t + 1) × IsTopBit v t
unfolding bitlen32_loop
bitlen32_loop_lem zero n v pos h = absurd (omega arith)
bitlen32_loop_lem (suc fuel) n v pos h = elim (Bool-cases (v / 2 == 0)) [
  | inl one ↦ let e : v ≡ 1 = ground arith in rw one (0, omega arith, (omega arith, omega arith))
  | inr more ↦
      let (t, e, b) =
        bitlen32_loop_lem fuel (n + 1) (v / 2) (ground arith) (omega (arith, pow-suc 2 fuel)) in
      rw more (suc t, omega arith, (let lo = b.0 in omega (arith, pow-suc 2 t), next_power v t b.1))
]

-- bitlen32 finds the top bit of every word but 0.
pub bitlen32-IsTopBit :
    (v : ℕ) → 0 < v → v < 2 ^ 32 → (1 ≤ bitlen32 v) × IsTopBit v (bitlen32 v - 1)
unfolding bitlen32
bitlen32-IsTopBit v pos h =
    let (t, e, b) = bitlen32_loop_lem 32 0 v pos h in
    let f : bitlen32_loop 32 0 v - 1 ≡ t = omega arith in (omega arith, rw f b)

pub two_pow-add24 : (k : ℕ) → 2 ^ (k + 24) ≡ 2 ^ k * 2 ^ 24
two_pow-add24 zero = refl
two_pow-add24 (suc k) =
    let e : suc k + 24 ≡ suc (k + 24) = omega arith in
    rw e (omega (arith, pow-suc 2 (k + 24), pow-suc 2 k, two_pow-add24 k))

pub two_pow_mono : (a b : ℕ) → a ≤ b → 2 ^ a ≤ 2 ^ b
two_pow_mono a zero h = let e : a ≡ 0 = omega arith in rw e (omega arith)
two_pow_mono zero (suc b) h = one-le-pow (suc b) 2 (omega arith)
two_pow_mono (suc a) (suc b) h = omega (arith, two_pow_mono a b, pow-suc 2 a, pow-suc 2 b)

round_up :
    (low m : ℕ) → 0 < m → low % m ≢ 0 → (low ≤ (low + m) / m * m) × ((low + m) / m * m < low + m)
round_up low m pos ne =
    let total = div-add-mod' (low + m) m in
    let small = mod-lt (low + m) pos in let same = add-mod_right low m in (omega arith, omega arith)

low_zeros : (q t x k : ℕ) → q * 2 ^ t ≡ x → t ≡ k + 24 → x % 2 ^ 24 ≡ 0
low_zeros q t x k e f =
    let p : 2 ^ t ≡ 2 ^ k * 2 ^ 24 = ap (λ (z : ℕ). 2 ^ z) f ∙ two_pow-add24 k in
    let m : q * 2 ^ t ≡ q * 2 ^ k * 2 ^ 24 = omega (arith, ap (λ (z : ℕ). q * z) p) in
    rw (← e, m) (mul-mod_left (q * 2 ^ k) (2 ^ 24))

pub le_or_lt : (a b : ℕ) → (a ≤ b) ⊎ (b < a)
le_or_lt a b = grind arith

-- Rounding moves `low` up by less than the range, to a multiple of 2^24.
pub round_low_lem :
    (r : REnc)
    → 2 ^ 24 ≤ r.range
    → r.range < 2 ^ 32
    → (r.low ≤ (round_low r).low)
      × ((round_low r).low < r.low + r.range)
      × ((round_low r).low % 2 ^ 24 ≡ 0)
unfolding round_low
round_low_lem r wide word = elim (Bool-cases (r.low % 2 ^ t == 0)) [
  | inl whole ↦ rw whole (
    omega arith,
    omega arith,
    low_zeros (r.low / 2 ^ t) t r.low (t - 24) (ground (arith, div-add-mod' r.low (2 ^ t))) large',
  )
  | inr part ↦
      let ne : r.low % 2 ^ t ≢ 0 = ground arith in
      let (up, near) = round_up r.low (2 ^ t) pos ne in
      rw part (up, omega (arith, top.1), low_zeros _ t _ (t - 24) refl large')
]
  where
    t : ℕ
    t = bitlen32 r.range - 1

    top : (1 ≤ bitlen32 r.range) × IsTopBit r.range t
    top = bitlen32-IsTopBit r.range (omega arith) word

    pos : 0 < 2 ^ t
    pos = one-le-pow t 2 (omega arith)

    large : 24 ≤ t
    large = elim (le_or_lt 24 t) [
      | inl h ↦ h
      | inr h ↦ absurd (omega (arith, two_pow_mono (t + 1) 24 (omega arith), top.1))
    ]

    large' : t ≡ t - 24 + 24
    large' = omega (arith, large)
