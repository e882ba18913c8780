-- ===== src/Wire/Zigzag.antt =====
-- Signed values on the wire: rc_i32_from_u32, rc_unzz32_value and rc_zz_abs of src/rc_models.h, and
-- rc_zz32, rc_natural_desc and rc_dir_is_natural of src/enc_internal.h.
use ultra_patch.Base.{
  ℕ, ◌+◌, ◌-◌, ◌*◌, ◌/◌, ◌%◌, ◌^◌, ◌<◌, ◌≡◌, Bool, true, false, Option, none, some, ltb, leb, ◌==◌,
  if◌then◌else◌, bit_xor, arith, ◌||◌,
}
use ultra_patch.Base.Int.{ℤ, pos, negsuc}
use ultra_patch.Base.Word.{IsU32, IsI32, u32, sub32, to_u32}
use ultra_patch.Base.Bits.{bit_xor_ones, bit_xor-zero}

-- INT32_MIN + (u - 2^31) for the upper half.
unfoldable pub i32_from_u32 : ℕ → ℤ
i32_from_u32 u = if leb u 0x7fff_ffff then pos u else negsuc (2 ^ 31 - 1 - (u - 2 ^ 31))

-- (u >> 1) ^ (0u - (u & 1u))
unfoldable pub unzz32_value : ℕ → ℤ
unzz32_value u = i32_from_u32 (bit_xor (u / 2) (sub32 0 (u % 2)))

unfoldable pub zz32 : ℤ → ℕ
zz32 (pos n) = u32 (to_u32 (pos n) * 2)
zz32 (negsuc n) = sub32 (u32 (sub32 0 (to_u32 (negsuc n)) * 2)) 1

-- `none` is the return of 0; `*out` is the value otherwise.
unfoldable pub zz_abs : ℕ → ℕ → ℕ → Option ℕ
zz_abs base z max =
    if z % 2 == 1
    then (let m = u32 (z / 2 + 1) in if ltb base m then none else some (base - m))
    else (let d = z / 2 in if ltb max d || ltb (max - d) base then none else some (u32 (base + d)))

unfoldable pub natural_desc : ℕ → ℕ → Bool
natural_desc from_size to_size = ltb from_size to_size

unfoldable pub dir_is_natural : ℕ → ℕ → Bool → Bool
dir_is_natural from_size to_size true = natural_desc from_size to_size
dir_is_natural from_size to_size false = if natural_desc from_size to_size then false else true

xor_even : (u : ℕ) → IsU32 u → u % 2 ≡ 0 → unzz32_value u ≡ pos (u / 2)
unfolding unzz32_value i32_from_u32
xor_even u h e = ground (arith, bit_xor-zero (u / 2))

xor_odd : (u : ℕ) → IsU32 u → u % 2 ≡ 1 → unzz32_value u ≡ negsuc (u / 2)
unfolding unzz32_value i32_from_u32
xor_odd u h e = ground (arith, bit_xor_ones 32 (u / 2))

-- Zigzag decoding in plain arithmetic: even codes are the non-negative values.
pub unzz32_value_lem :
    (u : ℕ) → IsU32 u → unzz32_value u ≡ (if u % 2 == 0 then pos (u / 2) else negsuc (u / 2))
unzz32_value_lem u h = ground (arith, xor_even u h, xor_odd u h)

-- What zz32 writes for an int32.
pub zz32_pos : (n : ℕ) → n < 2 ^ 31 → zz32 (pos n) ≡ 2 * n
unfolding zz32
zz32_pos n h = omega arith

pub zz32_negsuc : (n : ℕ) → n < 2 ^ 31 → zz32 (negsuc n) ≡ 2 * n + 1
unfolding zz32
zz32_negsuc n h = omega arith

pub zz32-IsU32 : (v : ℤ) → IsI32 v → IsU32 (zz32 v)
zz32-IsU32 (pos n) h = omega (arith, zz32_pos n h)
zz32-IsU32 (negsuc n) h = omega (arith, zz32_negsuc n h)

-- rc_unzz32_value undoes rc_zz32 on every int32.
pub unzz32_value-zz32 : (v : ℤ) → IsI32 v → unzz32_value (zz32 v) ≡ v
unzz32_value-zz32 (pos n) h = ground (arith, zz32_pos n h, unzz32_value_lem (2 * n))
unzz32_value-zz32 (negsuc n) h = ground (arith, zz32_negsuc n h, unzz32_value_lem (2 * n + 1))

-- rc_zz32 undoes rc_unzz32_value on every word, so each word has exactly one meaning.
pub zz32-unzz32_value : (u : ℕ) → IsU32 u → zz32 (unzz32_value u) ≡ u
zz32-unzz32_value u h = ground (arith, unzz32_value_lem u h, zz32_pos (u / 2), zz32_negsuc (u / 2))
