-- ===== src/Envelope/Put.antt =====
-- What emit_wire_blob appends, field by field, and single fields read back.
use mathlib.Core.List.{append_assoc}
use ultra_patch.Base.{
  ℕ, ◌+◌, ◌-◌, ◌*◌, ◌/◌, ◌^◌, ◌≤◌, ◌<◌, ◌≡◌, refl, sym, ap, ◌∙◌, some, List, [], ◌∷◌, ◌++◌, arith,
  Bool-cases, inl, inr,
}
use ultra_patch.Base.Int.{pos, negsuc, ◌-ℤ◌}
use ultra_patch.Base.Word.{IsU32, u8}
use ultra_patch.Base.Bits.{bit_or_high}
use ultra_patch.Wire.Zigzag.{zz32, zz_abs, dir_is_natural, zz32_pos, zz32_negsuc}
use ultra_patch.Wire.Uleb.{
  buf_put_u32le, put_uleb, put_uleb_overlong, env_u32le, max_image, env_byte,
}
use ultra_patch.Envelope.{Geometry, wire_from_crc, put_fields, put_size_delta, put_seek}
use ultra_patch.Wire.Uleb.Read.{put_uleb_loop-append, put_uleb_overlong_loop-append, overlong_bytes}
use ultra_patch.Coder.Bitlen.{le_or_lt}

-- The writers only append.
pub put_uleb-append : (b : List ℕ) (v : ℕ) → put_uleb b v ≡ b ++ put_uleb [] v
unfolding put_uleb
put_uleb-append b v =
    put_uleb_loop-append 5 b v ∙ ap (λ t. b ++ t) (sym (put_uleb_loop-append 5 [] v))

put_uleb_overlong-append :
    (b : List ℕ) (v : ℕ) → put_uleb_overlong b v ≡ b ++ put_uleb_overlong [] v
unfolding put_uleb_overlong
put_uleb_overlong-append b v =
    rw (put_uleb_overlong_loop-append 5 b v, put_uleb_overlong_loop-append 5 [] v)
      (append_assoc b (overlong_bytes 5 v) (0 ∷ []))

buf_put_u32le-append : (b : List ℕ) (v : ℕ) → buf_put_u32le b v ≡ b ++ buf_put_u32le [] v
unfolding buf_put_u32le
buf_put_u32le-append b v = simp append_assoc refl

put_size_delta-append : (b : List ℕ) (g : Geometry) → put_size_delta b g ≡ b ++ put_size_delta [] g
unfolding put_size_delta
put_size_delta-append b g = elim (Bool-cases (dir_is_natural g.from_size g.to_size g.desc)) [
  | inl e ↦ rw e (put_uleb-append b _)
  | inr e ↦ rw e (put_uleb_overlong-append b _)
]

put_seek-append : (b : List ℕ) (g : Geometry) → put_seek b g ≡ b ++ put_seek [] g
unfolding put_seek
put_seek-append b g = elim (Bool-cases g.desc) [
  | inl e ↦ rw e (put_uleb-append b _)
  | inr e ↦ rw e (put_uleb-append b _)
]

-- The blob is the fields one after the other.
pub put_fields-append :
    (g : Geometry) (left : ℕ) (rest : List ℕ)
    → put_fields [] g left ++ rest
      ≡ buf_put_u32le [] (wire_from_crc g.from_crc)
        ++ (buf_put_u32le [] g.to_crc
            ++ (put_uleb [] g.from_size
                ++ (put_size_delta [] g ++ (put_seek [] g ++ (put_uleb [] left ++ rest)))))
unfolding put_fields
put_fields-append g left rest =
    let b2 = buf_put_u32le (buf_put_u32le [] (wire_from_crc g.from_crc)) g.to_crc in
    let b3 = put_uleb b2 g.from_size in
    let b4 = put_size_delta b3 g in
    rw
      (
        put_uleb-append (put_seek b4 g) left,
        put_seek-append b4 g,
        put_size_delta-append b3 g,
        put_uleb-append b2 g.from_size,
        buf_put_u32le-append (buf_put_u32le [] (wire_from_crc g.from_crc)) g.to_crc,
      )
      (simp append_assoc refl)

pub env_u32le-buf_put_u32le :
    (v : ℕ) (rest : List ℕ) → IsU32 v → env_u32le (buf_put_u32le [] v ++ rest) ≡ some (v, rest)
unfolding env_u32le buf_put_u32le env_byte
env_u32le-buf_put_u32le v rest h =
    let two = bit_or_high 8 (u8 v) (u8 (v / 2 ^ 8)) (omega arith) in
    let three = bit_or_high 16 (u8 v + u8 (v / 2 ^ 8) * 2 ^ 8) (u8 (v / 2 ^ 16)) (omega arith) in
    let four =
      bit_or_high 24 (u8 v + u8 (v / 2 ^ 8) * 2 ^ 8 + u8 (v / 2 ^ 16) * 2 ^ 16) (u8 (v / 2 ^ 24))
        (omega arith) in
    let sum : u8 v + u8 (v / 2 ^ 8) * 2 ^ 8 + u8 (v / 2 ^ 16) * 2 ^ 16 + u8 (v / 2 ^ 24) * 2 ^ 24
        ≡ v =
      omega arith in
    ap (λ (x : ℕ). some (x, rest)) (rw (two, three) (four ∙ sum))

zz_abs_up : (base n : ℕ) → base + n ≤ max_image → zz_abs base (2 * n) max_image ≡ some (base + n)
unfolding zz_abs
zz_abs_up base n h = ground arith

zz_abs_down :
    (base n : ℕ)
    → n < base
    → base ≤ max_image
    → zz_abs base (2 * n + 1) max_image ≡ some (base - (n + 1))
unfolding zz_abs
zz_abs_down base n h hb = ground arith

-- For a base and a value within MAX_IMAGE: rc_zz_abs gets the value back from the zigzag code of its
-- difference to the base.
pub zz_abs-zz32 :
    (base v : ℕ)
    → base ≤ max_image
    → v ≤ max_image
    → zz_abs base (zz32 (pos v -ℤ pos base)) max_image ≡ some v
unfolding ◌-ℤ◌
zz_abs-zz32 base v hb hv = elim (le_or_lt base v) [
  | inl up ↦
      let e : pos v -ℤ pos base ≡ pos (v - base) = ground arith in
      let sum : base + (v - base) ≡ v = omega arith in
      rw (e, zz32_pos (v - base) (omega arith), zz_abs_up base (v - base) (omega arith), sum) refl
  | inr down ↦
      let e : pos v -ℤ pos base ≡ negsuc (base - v - 1) = ground arith in
      let sum : base - (base - v - 1 + 1) ≡ v = omega arith in
      rw
        (
          e,
          zz32_negsuc (base - v - 1) (omega arith),
          zz_abs_down base (base - v - 1) (omega arith) hb,
          sum,
        )
        refl
]
