-- ===== src/Field/Thumb/Pack.antt =====
-- A BL immediate that is packed into two halfwords is unpacked again.
use ultra_patch.Base.{
  ℕ, zero, suc, ◌+◌, ◌-◌, ◌*◌, ◌/◌, ◌%◌, ◌^◌, ◌<◌, ◌≡◌, refl, arith, bit_or, ap, ◌∙◌, List, get_or,
  ap₂,
}
use ultra_patch.Base.Bits.{bit_or_low, bit_or_middle, bit_or_high}
use ultra_patch.Base.Word.{sub32}
use ultra_patch.Field.Thumb.{bl_imm24, bl_upper, bl_lower, bl_pack, bl_dereloc, flip_bit}

flip_twice : (j s : ℕ) → j < 2 → s < 2 → (flip_bit (flip_bit j s) s ≡ j) × (flip_bit j s < 2)
flip_twice zero zero h k = (refl, omega arith)
flip_twice zero (suc zero) h k = (refl, omega arith)
flip_twice (suc zero) zero h k = (refl, omega arith)
flip_twice (suc zero) (suc zero) h k = (refl, omega arith)
flip_twice (suc (suc j)) s h k = absurd (omega arith)
flip_twice j (suc (suc s)) h k = absurd (omega arith)

upper_fields :
    (s x : ℕ) → s < 2 → x < 2 ^ 10 → bit_or (bit_or 0xf000 (s * 2 ^ 10)) x ≡ 0xf000 + s * 2 ^ 10 + x
upper_fields s x h k =
    let a = bit_or_middle 10 30 0 s (omega arith) h in
    let b = bit_or_low 10 (60 + s) x k in
    let join : 30 * 2 ^ 11 + 0 + s * 2 ^ 10 ≡ (60 + s) * 2 ^ 10 = omega arith in
    ap (λ t. bit_or t x) (a ∙ join) ∙ b ∙ omega arith

lower_fields :
    (i j x : ℕ)
    → i < 2
    → j < 2
    → x < 2 ^ 11
    → bit_or (bit_or (bit_or 0xd000 (i * 2 ^ 13)) (j * 2 ^ 11)) x
      ≡ 0xd000 + i * 2 ^ 13 + j * 2 ^ 11 + x
lower_fields i j x h k l =
    let a = bit_or_middle 13 3 (2 ^ 12) i (omega arith) h in
    let b = bit_or_middle 11 (13 + 2 * i) 0 j (omega arith) k in
    let c = bit_or_low 11 (26 + 4 * i + j) x l in
    let high : 3 * 2 ^ 14 + 2 ^ 12 + i * 2 ^ 13 ≡ (13 + 2 * i) * 2 ^ 12 + 0 = omega arith in
    let middle : (13 + 2 * i) * 2 ^ 12 + 0 + j * 2 ^ 11 ≡ (26 + 4 * i + j) * 2 ^ 11 = omega arith in
    ap (λ t. bit_or (bit_or t (j * 2 ^ 11)) x) (a ∙ high)
    ∙ ap (λ t. bit_or t x) (b ∙ middle)
    ∙ c
    ∙ omega arith

imm_fields :
    (x y s i j : ℕ)
    → x < 2 ^ 10
    → y < 2 ^ 11
    → s < 2
    → i < 2
    → j < 2
    → bit_or (bit_or (bit_or (bit_or (x * 2 ^ 11) y) (s * 2 ^ 23)) (i * 2 ^ 22)) (j * 2 ^ 21)
      ≡ x * 2 ^ 11 + y + s * 2 ^ 23 + i * 2 ^ 22 + j * 2 ^ 21
imm_fields x y s i j hx hy hs hi hj =
    let r = x * 2 ^ 11 + y in
    let a = bit_or_low 11 x y hy in
    let b = bit_or_high 23 r s (omega arith) in
    let c = bit_or_middle 22 s r i (omega arith) hi in
    let d = bit_or_middle 21 (2 * s + i) r j (omega arith) hj in
    let sign : r + s * 2 ^ 23 ≡ s * 2 ^ 23 + r = omega arith in
    let next : s * 2 ^ 23 + r + i * 2 ^ 22 ≡ (2 * s + i) * 2 ^ 22 + r = omega arith in
    ap (λ t. bit_or (bit_or (bit_or t (s * 2 ^ 23)) (i * 2 ^ 22)) (j * 2 ^ 21)) a
    ∙ ap (λ t. bit_or (bit_or t (i * 2 ^ 22)) (j * 2 ^ 21)) (b ∙ sign)
    ∙ ap (λ t. bit_or t (j * 2 ^ 21)) (c ∙ next)
    ∙ d
    ∙ omega arith

-- The fields of a pair of halfwords.
bl_imm24_fields :
    (s x i j y : ℕ)
    → s < 2
    → x < 2 ^ 10
    → i < 2
    → j < 2
    → y < 2 ^ 11
    → bl_imm24 (0xf000 + s * 2 ^ 10 + x) (0xd000 + i * 2 ^ 13 + j * 2 ^ 11 + y)
      ≡ x * 2 ^ 11 + y + s * 2 ^ 23 + flip_bit i s * 2 ^ 22 + flip_bit j s * 2 ^ 21
unfolding bl_imm24
bl_imm24_fields s x i j y hs hx hi hj hy =
    let sign : (0xf000 + s * 2 ^ 10 + x) / 2 ^ 10 % 2 ≡ s = omega arith in
    let upper : (0xf000 + s * 2 ^ 10 + x) % 2 ^ 10 ≡ x = omega arith in
    let first : (0xd000 + i * 2 ^ 13 + j * 2 ^ 11 + y) / 2 ^ 13 % 2 ≡ i = omega arith in
    let second : (0xd000 + i * 2 ^ 13 + j * 2 ^ 11 + y) / 2 ^ 11 % 2 ≡ j = omega arith in
    let lower : (0xd000 + i * 2 ^ 13 + j * 2 ^ 11 + y) % 2 ^ 11 ≡ y = omega arith in
    rw (sign, upper, first, second, lower)
      (imm_fields x y s (flip_bit i s) (flip_bit j s) hx hy hs (flip_twice i s hi hs).1
        (flip_twice j s hj hs).1)

halves_back : (n : ℕ) → n < 2 ^ 24 → bl_imm24 (bl_upper n) (bl_lower n) ≡ n
unfolding bl_upper bl_lower
halves_back n h =
    let s = n / 2 ^ 23 % 2 in
    let i = n / 2 ^ 22 % 2 in
    let j = n / 2 ^ 21 % 2 in
    let x = n / 2 ^ 11 % 2 ^ 10 in
    let y = n % 2 ^ 11 in
    let (back_i, low_i) = flip_twice i s (omega arith) (omega arith) in
    let (back_j, low_j) = flip_twice j s (omega arith) (omega arith) in
    let u : bl_upper n ≡ 0xf000 + s * 2 ^ 10 + x =
      ap (λ (t : ℕ). t % 2 ^ 16) (upper_fields s x (omega arith) (omega arith)) ∙ omega arith in
    let l : bl_lower n ≡ 0xd000 + flip_bit i s * 2 ^ 13 + flip_bit j s * 2 ^ 11 + y =
      ap (λ (t : ℕ). t % 2 ^ 16)
        (lower_fields (flip_bit i s) (flip_bit j s) y low_i low_j (omega arith))
      ∙ omega arith in
    ap₂ bl_imm24 u l
    ∙ bl_imm24_fields s x (flip_bit i s) (flip_bit j s) y (omega arith) (omega arith) low_i low_j
        (omega arith)
    ∙ rw (back_i, back_j) (omega arith)

-- The little-endian halfword at byte `i` of a list.
abbrev pub half_at : List ℕ → ℕ → ℕ
half_at bytes i = get_or bytes i 0 + get_or bytes (i + 1) 0 * 2 ^ 8

bl_pack_halves :
    (n : ℕ) → (half_at (bl_pack n) 0 ≡ bl_upper n) × (half_at (bl_pack n) 2 ≡ bl_lower n)
unfolding bl_pack bl_upper bl_lower
bl_pack_halves n = (omega arith, omega arith)

-- For every pair of halfwords and every 32-bit delta, the four bytes that rc_bl_dereloc makes are two
-- little-endian halfwords whose immediate is the old one less the delta, modulo 2^24.
pub bl_imm24-bl_dereloc :
    (up lo delta : ℕ)
    → delta < 2 ^ 32
    → bl_imm24 (half_at (bl_dereloc up lo delta) 0) (half_at (bl_dereloc up lo delta) 2)
      ≡ (bl_imm24 up lo + 2 ^ 32 - delta) % 2 ^ 24
unfolding bl_dereloc
bl_imm24-bl_dereloc up lo delta h =
    let n = sub32 (bl_imm24 up lo) delta % 2 ^ 24 in
    let (u, l) = bl_pack_halves n in ap₂ bl_imm24 u l ∙ halves_back n (omega arith) ∙ omega arith
