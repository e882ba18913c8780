-- ===== src/Apply/Relocs.antt =====
-- The relocation fields that src/patch_apply.h finds while it copies: up_psrc_ldr_take, up_psrc_ldr_put,
-- up_grow_ldr_take, the up_hy_ functions and up_field_at.
pub mod Packed
use ultra_patch.Base.{
  ℕ, zero, suc, ◌+◌, ◌-◌, ◌*◌, ◌/◌, ◌%◌, ◌^◌, Bool, true, false, ◌&&◌, ◌||◌, not, List, [], ◌∷◌,
  ltb, leb, ◌==◌, if◌then◌else◌, bit_or,
}
use ultra_patch.Base.Int.{ℤ, pos, negsuc, ◌+ℤ◌, ◌-ℤ◌, ltb_ℤ}
use ultra_patch.Base.Word.{u8, u16, u32, add32, sub32, to_u32}
use ultra_patch.Coder.Decoder.{RangeDec}
use ultra_patch.Model.{update}
use ultra_patch.Model.Init.{PreKdModels}
use ultra_patch.Delta.Cache.{DrStream}
use ultra_patch.Delta.Stream.{DeltaModel, pull_delta}
use ultra_patch.Field.ShiftMap.{smap_pred_bl, smap_pred_ex}
use ultra_patch.Field.Thumb.{
  bl_pattern, bl_target, bl_dereloc, thumb_ldr_lit, ldr_target, ldr_target_in_op, ldr_scan_first,
  u32le_put,
}
use ultra_patch.Wire.Zigzag.{i32_from_u32}
use ultra_patch.Apply.Content.{Geo}

-- The models and the map that relocation fields use, and the ring of literal-pool targets, which is a
-- bit for each index.
pub record Relocs : Type 0 where
  pub pre : PreKdModels
  pub dr_bl : DrStream
  pub dr_ex : DrStream
  pub smap_b : ℕ → ℕ
  pub smap_v : ℕ → ℤ
  pub smap_n : ℕ
  pub psrc_ldr : ℕ → Bool
  pub psrc_even : ℕ
  pub psrc_lo : ℕ

-- The address that psrc_even holds before the first query, UINT32_MAX.
abbrev pub no_even : ℕ
no_even = 0xffff_ffff

-- The target mask is UP_PSRC_TGT_MASK + 1 = 256.
abbrev pub ldr_index : ℕ → ℕ
ldr_index fpk = fpk / 2 ^ 2 % 256

unfoldable pub psrc_ldr_take : Relocs → ℕ → Bool × Relocs
psrc_ldr_take r fpk =
    let i = ldr_index fpk in (r.psrc_ldr i, record r { psrc_ldr = update r.psrc_ldr i false })

unfoldable pub psrc_ldr_put : Relocs → ℕ → Relocs
psrc_ldr_put r fpk = record r { psrc_ldr = update r.psrc_ldr (ldr_index fpk) true }

-- DR_KCAP_BL and DR_KCAP_EX
abbrev pub dr_kcap_bl : ℕ
dr_kcap_bl = 152

abbrev pub dr_kcap_ex : ℕ
dr_kcap_ex = 88

-- 0, 1 with the bytes, and 2 of up_field_at.
pub data Field : Type 0 where
  no_field : Field
  packed : List ℕ → Field
  suppressed : Field

unfoldable pub pull_bl : Relocs → RangeDec → ℤ × Relocs × RangeDec
pull_bl r rc =
    let m : DeltaModel = record { stream = r.dr_bl; gix = r.pre.dibl; dval = r.pre.dval } in
    let (v, m1, rc1) = pull_delta dr_kcap_bl m rc in
    (v, record r { dr_bl = m1.stream; pre = record (r.pre) { dibl = m1.gix; dval = m1.dval } }, rc1)

unfoldable pub pull_ex : Relocs → RangeDec → ℤ × Relocs × RangeDec
pull_ex r rc =
    let m : DeltaModel = record { stream = r.dr_ex; gix = r.pre.diex; dval = r.pre.dval } in
    let (v, m1, rc1) = pull_delta dr_kcap_ex m rc in
    (v, record r { dr_ex = m1.stream; pre = record (r.pre) { diex = m1.gix; dval = m1.dval } }, rc1)

-- Everything below is in terms of the geometry and of up_image_flash_read on the flash as it is.
module _ (geo : Geo) (flash : ℕ → ℕ) where
  unfoldable pub hy_src_peek : ℤ → ℕ
  hy_src_peek (pos fp) = if ltb fp geo.from_size then flash fp else 0
  hy_src_peek (negsuc n) = 0

  -- The halfword at `a`.
  unfoldable pub src_half : ℕ → ℕ
  unfolding hy_src_peek
  src_half a =
      let fp = i32_from_u32 a in bit_or (hy_src_peek fp) (hy_src_peek (fp +ℤ pos 1) * 2 ^ 8)

  -- The scan down from `a` to `lo`, two bytes a round, and the last address.
  unfoldable pub grow_scan : ℕ → Relocs → ℕ → ℕ → ℕ → ℕ × Relocs
  unfolding src_half
  grow_scan zero r lo a fpk = (a, r)
  grow_scan (suc fuel) r lo a fpk =
      let up = src_half (a - 2) in
      let t = ldr_target (a - 2) (u8 up) in
      let r1 = if thumb_ldr_lit up && leb t fpk then psrc_ldr_put r t else r in
      let rest = grow_scan fuel r1 lo (a - 2) fpk in if ltb lo a then rest else (a, r)

  unfoldable pub grow_ldr_take : Relocs → ℤ → ℕ → ℕ → Bool × Relocs
  unfolding grow_scan
  grow_ldr_take r fp0 dl fpk =
      let lo = ldr_scan_first fp0 fpk in
      let from = if r.psrc_even == no_even then fpk else r.psrc_even in
      let (a, r1) = grow_scan (from - lo) r lo from fpk in
      if ldr_target_in_op fp0 dl fpk
      then psrc_ldr_take (record r1 { psrc_even = a }) fpk
      else (false, r)

  unfoldable pub hy_half_rec : Relocs → ℕ → ℕ → ℕ → Relocs
  hy_half_rec r a lo hi =
      if thumb_ldr_lit (bit_or lo (hi * 2 ^ 8)) then psrc_ldr_put r (ldr_target a lo) else r

  unfoldable pub hy_src_rec : Relocs → ℤ → ℕ → Relocs
  unfolding hy_half_rec
  hy_src_rec r (negsuc n) v = r
  hy_src_rec r (pos a) v =
      let odd = if r.psrc_even == a - 1 then hy_half_rec r (a - 1) r.psrc_lo v else r in
      let even : Relocs = record r { psrc_lo = v; psrc_even = a } in
      if ltb a geo.from_size then (if a % 2 == 1 then odd else even) else r

  unfoldable pub hy_word4_peek : ℤ → ℕ
  unfolding hy_src_peek
  hy_word4_peek fp =
      bit_or
        (bit_or (bit_or (hy_src_peek fp) (hy_src_peek (fp +ℤ pos 1) * 2 ^ 8))
          (hy_src_peek (fp +ℤ pos 2) * 2 ^ 16))
        (hy_src_peek (fp +ℤ pos 3) * 2 ^ 24)

  unfoldable pub hy_word4_rec : Relocs → ℕ → ℕ → Relocs
  unfolding hy_half_rec
  hy_word4_rec r fpk w =
      let r1 = hy_half_rec r fpk (u8 w) (u8 (w / 2 ^ 8)) in
      let r2 = hy_half_rec r1 (add32 fpk 2) (u8 (w / 2 ^ 16)) (u8 (w / 2 ^ 24)) in
      if geo.fwd then r2 else r

  -- The query for a literal-pool target, at aligned addresses only.
  unfoldable pub ldr_query : Relocs → ℤ → ℕ → ℕ → Bool × Relocs
  unfolding grow_ldr_take
  ldr_query r fp0 dl fpk =
      if fpk % 2 ^ 2 == 0
      then (if geo.fwd then psrc_ldr_take r fpk else grow_ldr_take r fp0 dl fpk)
      else (false, r)

  -- A BL pair takes the target bit of the aligned word that it overlaps.
  unfoldable pub bl_overlap : Relocs → ℕ → Relocs
  bl_overlap r fpk =
      let (hit, r1) = psrc_ldr_take r (if geo.fwd then add32 fpk 2 else sub32 fpk 2) in
      if fpk / 2 % 2 == 1 then r1 else r

  unfoldable pub bl_field : Relocs → RangeDec → ℕ → ℕ → Field × Relocs × RangeDec
  unfolding pull_bl hy_word4_rec
  bl_field r rc fpk w =
      let up = u16 w in
      let lo = u16 (w / 2 ^ 16) in
      let (res, r1, rc1) = pull_bl r rc in
      let pred = smap_pred_bl r1.smap_b r1.smap_v r1.smap_n fpk (bl_target fpk up lo) in
      if rc1.rcerr then (no_field, r1, rc1) else (
        packed (bl_dereloc up lo (add32 (to_u32 pred) (to_u32 res))),
        hy_word4_rec r1 fpk w,
        rc1,
      )

  unfoldable pub ex_field : Relocs → RangeDec → ℕ → ℕ → Field × Relocs × RangeDec
  unfolding pull_ex hy_word4_rec
  ex_field r rc fpk w =
      let (res, r1, rc1) = pull_ex r rc in
      let pred = smap_pred_ex r1.smap_b r1.smap_v r1.smap_n w in
      if rc1.rcerr then (no_field, r1, rc1) else (
        packed (u32le_put (sub32 w (add32 (to_u32 pred) (to_u32 res)))),
        hy_word4_rec r1 fpk w,
        rc1,
      )

  -- Past the guards: BL first, then a literal that an instruction of the same operation loads.
  unfoldable pub field_kind : Relocs → RangeDec → ℤ → ℕ → ℕ → Bool → ℕ → Field × Relocs × RangeDec
  unfolding ldr_query bl_overlap bl_field ex_field
  field_kind r rc fp0 fpk w pure dl =
      let (hit, r1) = ldr_query r fp0 dl fpk in
      let r2 = bl_overlap r1 fpk in
      if bl_pattern (u16 w) (u16 (w / 2 ^ 16))
      then (if pure then bl_field r2 rc fpk w else (suppressed, r2, rc))
      else if pure && hit
      then ex_field r1 rc fpk w
      else (no_field, r1, rc)

  unfoldable pub field_at : Relocs → RangeDec → ℤ → ℕ → ℕ → Bool → ℕ → Field × Relocs × RangeDec
  unfolding field_kind
  field_at r rc fp0 ks w pure dl =
      let fpk = add32 (to_u32 fp0) ks in
      if ltb_ℤ (fp0 +ℤ pos ks) (pos 0)
        || ltb geo.from_size fpk
        || ltb (geo.from_size - fpk) 4
        || fpk % 2 == 1
      then (no_field, r, rc)
      else field_kind r rc fp0 fpk w pure dl
