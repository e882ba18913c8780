-- ===== src/Envelope.antt =====
-- The envelope of a patch: emit_wire_blob of src/patch_generate.c, and the reads with which
-- up_decode_header of src/patch_apply.h begins, with rc_wire_from_crc of src/rc_models.h.
-- A read is `none` where the code returns 0; the rest of the source stays with the result.
pub mod Put
pub mod RoundTrip
use ultra_patch.Base.{
  ℕ, ◌+◌, ◌-◌, ◌*◌, ◌^◌, ◌==◌, Bool, true, false, not, ◌||◌, ◌&&◌, Option, none, some, List, [],
  ◌∷◌, ◌++◌, length, ltb, leb, max, if◌then◌else◌, bit_xor,
}
use ultra_patch.Base.Int.{ℤ, pos, ◌-ℤ◌}
use ultra_patch.Base.Word.{u32}
use ultra_patch.Wire.Zigzag.{zz32, unzz32_value, zz_abs, natural_desc, dir_is_natural}
use ultra_patch.Wire.Uleb.{
  buf_put_u32le, buf_write, put_uleb, put_uleb_overlong, env_u32le, env_uleb, env_zz_abs, max_image,
  ◌>>=◌,
}

-- PATCH_WIRE_VERSION
abbrev pub patch_wire_version : ℕ
patch_wire_version = 1

unfoldable pub wire_from_crc : ℕ → ℕ
wire_from_crc crc = bit_xor crc patch_wire_version

-- What the encoder puts into an envelope, apart from the body.
pub record Geometry : Type 0 where
  pub from_crc : ℕ
  pub to_crc : ℕ
  pub from_size : ℕ
  pub to_size : ℕ
  pub desc : Bool
  pub fp_end : ℤ
  pub fp_start : ℤ

-- The size delta, canonical for the natural direction.
unfoldable pub put_size_delta : List ℕ → Geometry → List ℕ
put_size_delta b g =
    let zd = zz32 (pos g.to_size -ℤ pos g.from_size) in
    if dir_is_natural g.from_size g.to_size g.desc then put_uleb b zd else put_uleb_overlong b zd

-- The end of the source walk for a descending apply, its start for an ascending one.
unfoldable pub put_seek : List ℕ → Geometry → List ℕ
put_seek b g =
    if g.desc then put_uleb b (zz32 (g.fp_end -ℤ pos g.from_size)) else put_uleb b (zz32 g.fp_start)

unfoldable pub put_fields : List ℕ → Geometry → ℕ → List ℕ
put_fields blob g body_left =
    let b1 = buf_put_u32le blob (wire_from_crc g.from_crc) in
    let b2 = buf_put_u32le b1 g.to_crc in
    let b3 = put_uleb b2 g.from_size in put_uleb (put_seek (put_size_delta b3 g) g) body_left

-- `none` is the call of die on a body that does not begin with the dropped zero byte.
unfoldable pub emit_wire_blob : Geometry → List ℕ → Option (List ℕ)
emit_wire_blob g [] = none
emit_wire_blob g (b ∷ bytes) =
    if not (b == 0) || ltb 0xffff_ffff (length bytes)
    then none
    else some (buf_write (put_fields [] g (u32 (length bytes))) bytes)

-- want_from, want_to, the two sizes and the overlong mark.
pub record Sizes : Type 0 where
  pub want_from : ℕ
  pub want_to : ℕ
  pub from_size : ℕ
  pub to_size : ℕ
  pub overlong : Bool

-- The target size is found as rc_zz_abs finds it.
unfoldable pub read_sizes : List ℕ → Option (Sizes × List ℕ)
read_sizes src = do
  (want_from, s1) ← env_u32le src
  (want_to, s2) ← env_u32le s1
  (fs, _o, s3) ← env_uleb s2 false
  (if ltb max_image fs then none else do
    (z, ov, s4) ← env_uleb s3 true
    ts ← zz_abs fs z max_image
    some (
      record {
        want_from = want_from;
        want_to = want_to;
        from_size = fs;
        to_size = ts;
        overlong = ov;
      },
      s4,
    ))

-- g_FWD, fp_end, fp_start and the length of the body.
pub record Walk : Type 0 where
  pub fwd : Bool
  pub fp_end : ℕ
  pub fp_start : ℤ
  pub body_left : ℕ

-- desc: (ts > fs) != ov
unfoldable pub is_desc : Sizes → Bool
is_desc s = if ltb s.from_size s.to_size then not s.overlong else s.overlong

unfoldable pub read_fp_end : Sizes → List ℕ → Option (ℕ × List ℕ)
read_fp_end s src = if is_desc s then env_zz_abs src s.from_size else some (s.from_size, src)

unfoldable pub read_fp_start : Sizes → List ℕ → Option (ℤ × List ℕ)
read_fp_start s src =
    if is_desc s
    then some (pos 0, src)
    else do (z, _o, rest) ← env_uleb src false; some (unzz32_value z, rest)

unfoldable pub read_walk : Sizes → List ℕ → Option (Walk × List ℕ)
read_walk s src = do
  (fpe, s1) ← read_fp_end s src
  (fps, s2) ← read_fp_start s s1
  (bl, _o, s3) ← env_uleb s2 false
  some (record { fwd = not (is_desc s); fp_end = fpe; fp_start = fps; body_left = bl }, s3)

-- A header that was read, REJ_RESOURCE for an image beyond the partition, or a plain refusal.
pub data Fields : Type 0 where
  fields : Sizes → Walk → List ℕ → Fields
  resource : Fields
  refused : Fields

unfoldable pub fields_of : Sizes → Option (Walk × List ℕ) → Fields
fields_of s none = refused
fields_of s (some (w, rest)) = fields s w rest

unfoldable pub within_capacity : ℕ → Option (Sizes × List ℕ) → Fields
within_capacity capacity none = refused
within_capacity capacity (some (s, rest)) =
    if ltb capacity (max s.from_size s.to_size) then resource else fields_of s (read_walk s rest)

-- The reads of up_decode_header up to the length of the body, for a partition of `capacity` bytes.
unfoldable pub read_fields : ℕ → List ℕ → Fields
read_fields capacity src = within_capacity capacity (read_sizes src)
