-- ===== src/Field/Thumb.antt =====
-- The Thumb relocation fields of src/rc_models.h: BL pairs, LDR literal loads and their targets, with
-- rc_u32le_put. A halfword is a number below 2^16; `% 2 ^ n` is a mask of the n lowest bits.
pub mod Pack
use ultra_patch.Base.{
  ℕ, suc, ◌+◌, ◌-◌, ◌*◌, ◌/◌, ◌%◌, ◌^◌, Bool, true, false, ◌&&◌, ◌||◌, not, List, [], ◌∷◌, ltb, leb,
  ◌==◌, if◌then◌else◌, bit_and, bit_or, bit_xor,
}
use ultra_patch.Base.Int.{ℤ, pos, negsuc, ◌+ℤ◌, ◌-ℤ◌, ltb_ℤ, pos_part}
use ultra_patch.Base.Word.{u8, u16, u32, sub32, add32, to_u32}
use ultra_patch.Wire.Zigzag.{i32_from_u32}

-- INT32_MAX and INT32_MIN bound the values of int32_t.
abbrev pub is_i32 : ℤ → Bool
is_i32 (pos n) = ltb n (2 ^ 31)
is_i32 (negsuc n) = ltb n (2 ^ 31)

unfoldable pub u32le_put : ℕ → List ℕ
u32le_put v = u8 v ∷ u8 (v / 2 ^ 8) ∷ u8 (v / 2 ^ 16) ∷ u8 (v / 2 ^ 24) ∷ []

unfoldable pub bl_pattern : ℕ → ℕ → Bool
bl_pattern up lo = bit_and up 0xf800 == 0xf000 && bit_and lo 0xd000 == 0xd000

-- The bits i1 and i2 of the immediate from the bits j1 and j2 of the instruction, and back.
abbrev pub flip_bit : ℕ → ℕ → ℕ
flip_bit j s = 1 - bit_xor j s

unfoldable pub bl_imm24 : ℕ → ℕ → ℕ
bl_imm24 up lo =
    let s = up / 2 ^ 10 % 2 in
    let i1 = flip_bit (lo / 2 ^ 13 % 2) s in
    let i2 = flip_bit (lo / 2 ^ 11 % 2) s in
    bit_or
      (bit_or (bit_or (bit_or (up % 2 ^ 10 * 2 ^ 11) (lo % 2 ^ 11)) (s * 2 ^ 23)) (i1 * 2 ^ 22))
      (i2 * 2 ^ 21)

-- The two halfwords of a packed immediate.
unfoldable pub bl_upper : ℕ → ℕ
bl_upper imm24 =
    u16 (bit_or (bit_or 0xf000 (imm24 / 2 ^ 23 % 2 * 2 ^ 10)) (imm24 / 2 ^ 11 % 2 ^ 10))

unfoldable pub bl_lower : ℕ → ℕ
bl_lower imm24 =
    let s = imm24 / 2 ^ 23 % 2 in
    let j1 = flip_bit (imm24 / 2 ^ 22 % 2) s in
    let j2 = flip_bit (imm24 / 2 ^ 21 % 2) s in
    u16 (bit_or (bit_or (bit_or 0xd000 (j1 * 2 ^ 13)) (j2 * 2 ^ 11)) (imm24 % 2 ^ 11))

unfoldable pub bl_pack : ℕ → List ℕ
bl_pack imm24 =
    let u = bl_upper imm24 in
    let l = bl_lower imm24 in u8 u ∷ u8 (u / 2 ^ 8) ∷ u8 l ∷ u8 (l / 2 ^ 8) ∷ []

-- The sign is bit 23.
unfoldable pub bl_imm24s : ℕ → ℕ → ℤ
bl_imm24s up lo =
    let imm = bl_imm24 up lo in
    i32_from_u32 (if imm / 2 ^ 23 % 2 == 1 then bit_or imm 0xff00_0000 else imm)

unfoldable pub bl_target : ℕ → ℕ → ℕ → ℕ
bl_target pc up lo = let s = bl_imm24s up lo in u32 (pc + 4 + to_u32 (s +ℤ s))

unfoldable pub bl_dereloc : ℕ → ℕ → ℕ → List ℕ
bl_dereloc up lo delta = bl_pack (sub32 (bl_imm24 up lo) delta % 2 ^ 24)

unfoldable pub thumb_ldr_lit : ℕ → Bool
thumb_ldr_lit up = bit_and up 0xf800 == 0x4800

unfoldable pub ldr_target : ℕ → ℕ → ℕ
ldr_target addr imm8 = u32 (u32 (addr / 2 ^ 2 + imm8 + 1) * 2 ^ 2)

-- `dl` is at least 0 where the code calls it; `fp0 > INT32_MAX - dl` is an end beyond int32_t.
unfoldable pub ldr_target_in_op : ℤ → ℕ → ℕ → Bool
ldr_target_in_op fp0 dl fpk =
    let end = fp0 +ℤ pos dl in
    fpk % 2 ^ 2 == 0 && is_i32 end && not (ltb_ℤ end (pos 4)) && leb fpk (pos_part end - 4)

-- The first even address at or above fp0, 0 and fpk - 1024.
unfoldable pub ldr_scan_first : ℤ → ℕ → ℕ
ldr_scan_first fp0 fpk =
    let lo = i32_from_u32 fpk -ℤ pos 1024 in
    let lo' = if ltb_ℤ lo fp0 then fp0 else lo in
    let lo'' = if ltb_ℤ lo' (pos 0) then 0 else pos_part lo' in
    if lo'' % 2 == 1 then lo'' + 1 else lo''
