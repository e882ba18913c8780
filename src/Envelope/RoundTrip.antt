-- ===== src/Envelope/RoundTrip.antt =====
-- The decoder reads the envelope that the encoder wrote.
use mathlib.Core.List.{append_assoc}
use ultra_patch.Base.{
  ℕ, ◌+◌, ◌-◌, ◌*◌, ◌/◌, ◌%◌, ◌^◌, ◌≤◌, ◌<◌, ◌≡◌, refl, true, false, not, some, List, [], ◌∷◌, ◌++◌,
  length, ltb, max, if◌then◌else◌, arith, Bool-cases, inl, inr,
}
use ultra_patch.Base.Int.{pos, ◌-ℤ◌}
use ultra_patch.Base.Word.{u32, IsU32, IsI32}
use ultra_patch.Base.Bits.{differ_bits, xor_lowest, bit_xor-zero}
use ultra_patch.Wire.Zigzag.{zz32, natural_desc, dir_is_natural, zz32-IsU32, unzz32_value-zz32}
use ultra_patch.Wire.Uleb.{buf_put_u32le, put_uleb, env_uleb, env_zz_abs, max_image}
use ultra_patch.Wire.Uleb.RoundTrip.{env_uleb-put_uleb, env_uleb-put_uleb_overlong}
use ultra_patch.Envelope.{
  Geometry, wire_from_crc, put_fields, put_size_delta, put_seek, emit_wire_blob, Sizes, Walk,
  read_sizes, read_walk, is_desc, fields, read_fields, read_fp_end, read_fp_start, within_capacity,
  fields_of,
}
use ultra_patch.Envelope.Put.{env_u32le-buf_put_u32le, zz_abs-zz32, put_fields-append}

-- The revision only changes the lowest bit of the source CRC.
pub wire_from_crc_lem : (crc : ℕ) → IsU32 crc → wire_from_crc crc ≡ crc / 2 * 2 + (1 - crc % 2)
unfolding wire_from_crc
wire_from_crc_lem crc h =
    let low = (differ_bits (crc % 2) (omega arith)).1 in
    omega (arith, xor_lowest crc 1, bit_xor-zero (crc / 2) (omega arith), low)

-- What an envelope can carry: sizes within the limit and the partition, and for the seek of the chosen
-- direction a position within the limit or any int32.
pub record IsGeometry (capacity : ℕ) (g : Geometry) (e : ℕ) : Type 0 where
  pub from_crc : IsU32 g.from_crc
  pub to_crc : IsU32 g.to_crc
  pub from_size : g.from_size ≤ max_image
  pub to_size : g.to_size ≤ max_image
  pub span : max g.from_size g.to_size ≤ capacity
  pub fp_end : (g.fp_end ≡ pos e) × (e ≤ max_image)
  pub fp_start : IsI32 g.fp_start

-- What the reads are to find.
abbrev pub sizes_of : Geometry → Sizes
sizes_of g = record {
  want_from = wire_from_crc g.from_crc;
  want_to = g.to_crc;
  from_size = g.from_size;
  to_size = g.to_size;
  overlong = not (dir_is_natural g.from_size g.to_size g.desc);
}

abbrev pub walk_of : Geometry → ℕ → ℕ → Walk
walk_of g e left = record {
  fwd = not g.desc;
  fp_end = if g.desc then e else g.from_size;
  fp_start = if g.desc then pos 0 else g.fp_start;
  body_left = left;
}

is_desc-sizes_of : (g : Geometry) → is_desc (sizes_of g) ≡ g.desc
unfolding is_desc dir_is_natural natural_desc
is_desc-sizes_of g = ground arith

zz32-small : (a b : ℕ) → a ≤ max_image → b ≤ max_image → zz32 (pos a -ℤ pos b) < 2 ^ 28
unfolding ◌-ℤ◌ zz32
zz32-small a b ha hb = ground arith

env_uleb-put_size_delta :
    (capacity : ℕ) (g : Geometry) (e : ℕ) (rest : List ℕ)
    → IsGeometry capacity g e
    → env_uleb (put_size_delta [] g ++ rest) true
      ≡ some (
        zz32 (pos g.to_size -ℤ pos g.from_size),
        not (dir_is_natural g.from_size g.to_size g.desc),
        rest,
      )
unfolding put_size_delta
env_uleb-put_size_delta capacity g e rest h =
    let small = zz32-small g.to_size g.from_size h.to_size h.from_size in
    elim (Bool-cases (dir_is_natural g.from_size g.to_size g.desc)) [
      | inl n ↦
          rw n (env_uleb-put_uleb (zz32 (pos g.to_size -ℤ pos g.from_size)) rest true (omega arith))
      | inr n ↦
          rw n (env_uleb-put_uleb_overlong (zz32 (pos g.to_size -ℤ pos g.from_size)) rest small).0
    ]

read_sizes-fields :
    (capacity : ℕ) (g : Geometry) (e : ℕ) (rest : List ℕ)
    → IsGeometry capacity g e
    → read_sizes (
        buf_put_u32le [] (wire_from_crc g.from_crc)
        ++ (buf_put_u32le [] g.to_crc
            ++ (put_uleb [] g.from_size ++ (put_size_delta [] g ++ rest))))
      ≡ some (sizes_of g, rest)
unfolding read_sizes
read_sizes-fields capacity g e rest h =
    let crc : IsU32 (wire_from_crc g.from_crc) =
      let c = h.from_crc in omega (arith, wire_from_crc_lem g.from_crc c) in
    let fit = h.from_size in
    let small : ltb max_image g.from_size ≡ false = ground arith in
    rw
      (
        env_u32le-buf_put_u32le (wire_from_crc g.from_crc)
            (buf_put_u32le [] g.to_crc
              ++ (put_uleb [] g.from_size ++ (put_size_delta [] g ++ rest)))
            crc,
        env_u32le-buf_put_u32le g.to_crc (put_uleb [] g.from_size ++ (put_size_delta [] g ++ rest))
            h.to_crc,
        env_uleb-put_uleb g.from_size (put_size_delta [] g ++ rest) false (omega arith),
        small,
        env_uleb-put_size_delta capacity g e rest h,
        zz_abs-zz32 g.from_size g.to_size h.from_size h.to_size,
      )
      refl

read_walk-fields :
    (capacity : ℕ) (g : Geometry) (e left : ℕ) (rest : List ℕ)
    → IsGeometry capacity g e
    → IsU32 left
    → read_walk (sizes_of g) (put_seek [] g ++ (put_uleb [] left ++ rest))
      ≡ some (walk_of g e left, rest)
unfolding read_walk read_fp_end read_fp_start put_seek env_zz_abs
read_walk-fields capacity g e left rest h small =
    let (at, fits) = h.fp_end in
    let last = env_uleb-put_uleb left rest false small in
    elim (Bool-cases g.desc) [
      | inl d ↦
          let z = zz32-small e g.from_size fits h.from_size in
          rw
            (
              is_desc-sizes_of g,
              d,
              at,
              env_uleb-put_uleb (zz32 (pos e -ℤ pos g.from_size)) (put_uleb [] left ++ rest) false
                  (omega arith),
              zz_abs-zz32 g.from_size e h.from_size fits,
              last,
            )
            refl
      | inr d ↦
          rw
            (
              is_desc-sizes_of g,
              d,
              env_uleb-put_uleb (zz32 g.fp_start) (put_uleb [] left ++ rest) false
                  (zz32-IsU32 g.fp_start h.fp_start),
              unzz32_value-zz32 g.fp_start h.fp_start,
              last,
            )
            refl
    ]

pub read_fields-put_fields :
    (capacity : ℕ) (g : Geometry) (e left : ℕ) (rest : List ℕ)
    → IsGeometry capacity g e
    → IsU32 left
    → read_fields capacity (put_fields [] g left ++ rest)
      ≡ fields (sizes_of g) (walk_of g e left) rest
unfolding read_fields within_capacity fields_of
read_fields-put_fields capacity g e left rest h small =
    let span = h.span in
    let inside : ltb capacity (max g.from_size g.to_size) ≡ false = ground arith in
    rw
      (
        put_fields-append g left rest,
        read_sizes-fields capacity g e (put_seek [] g ++ (put_uleb [] left ++ rest)) h,
        inside,
        read_walk-fields capacity g e left rest h small,
      )
      refl

-- For sizes within the limit and the partition, a source walk that the envelope can carry, and a body
-- that begins with a zero byte: the encoder emits a blob, and the decoder, whatever follows it, reads
-- from it the wire form of the source CRC, the target CRC, the sizes, the direction, the seek of that
-- direction and the length of the body without its zero byte, and stands before the body.
pub read_fields-emit_wire_blob :
    (capacity : ℕ) (g : Geometry) (e : ℕ) (bytes more : List ℕ)
    → IsGeometry capacity g e
    → IsU32 (length bytes)
    → (blob : List ℕ) × (emit_wire_blob g (0 ∷ bytes) ≡ some blob)
      × (read_fields capacity (blob ++ more)
          ≡ fields (sizes_of g) (walk_of g e (length bytes)) (bytes ++ more))
unfolding emit_wire_blob
read_fields-emit_wire_blob capacity g e bytes more h small =
    let fit : ltb 0xffff_ffff (length bytes) ≡ false = ground arith in
    let word : u32 (length bytes) ≡ length bytes = omega arith in
    let blob = put_fields [] g (length bytes) ++ bytes in
    (
      blob,
      rw (fit, word) refl,
      rw (append_assoc (put_fields [] g (length bytes)) bytes more)
          (read_fields-put_fields capacity g e (length bytes) (bytes ++ more) h small),
    )
