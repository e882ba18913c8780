-- ===== src/Apply/Relocs/Packed.antt =====
-- up_field_at of src/patch_apply.h packs a field only when its delta was read without an error.
use ultra_patch.Base.{
  ℕ, ◌-◌, ◌/◌, ◌%◌, ◌^◌, ◌≡◌, Bool, false, ◌&&◌, ◌||◌, ltb, ◌==◌, Bool-cases, inl, inr,
}
use ultra_patch.Base.Int.{ℤ, pos, ◌+ℤ◌, ltb_ℤ}
use ultra_patch.Base.Word.{u16, add32, to_u32}
use ultra_patch.Coder.Decoder.{RangeDec}
use ultra_patch.Field.Thumb.{bl_pattern}
use ultra_patch.Apply.Content.{Geo}
use ultra_patch.Apply.Relocs.{
  Relocs, Field, no_field, packed, suppressed, pull_bl, pull_ex, ldr_query, bl_overlap, bl_field,
  ex_field, field_kind, field_at,
}

abbrev pub IsClear : Field → Bool → Type 0
IsClear no_field rcerr = Unit
IsClear (packed bytes) rcerr = rcerr ≡ false
IsClear suppressed rcerr = Unit

abbrev IsSound : Field × Relocs × RangeDec → Type 0
IsSound r = IsClear r.0 r.2.rcerr

module _ (geo : Geo) (flash : ℕ → ℕ) where
  bl_field-IsSound :
      (r : Relocs) (rc : RangeDec) (fpk w : ℕ) → IsSound (bl_field geo flash r rc fpk w)
  unfolding bl_field
  bl_field-IsSound r rc fpk w =
      let rc1 = (pull_bl r rc).2 in elim (Bool-cases rc1.rcerr) [ inl e ↦ rw e tt | inr e ↦ rw e e ]

  ex_field-IsSound :
      (r : Relocs) (rc : RangeDec) (fpk w : ℕ) → IsSound (ex_field geo flash r rc fpk w)
  unfolding ex_field
  ex_field-IsSound r rc fpk w =
      let rc1 = (pull_ex r rc).2 in elim (Bool-cases rc1.rcerr) [ inl e ↦ rw e tt | inr e ↦ rw e e ]

  field_kind-IsSound :
      (r : Relocs) (rc : RangeDec) (fp0 : ℤ) (fpk w : ℕ) (pure : Bool) (dl : ℕ)
      → IsSound (field_kind geo flash r rc fp0 fpk w pure dl)
  unfolding field_kind
  field_kind-IsSound r rc fp0 fpk w pure dl =
      let (hit, r1) = ldr_query geo flash r fp0 dl fpk in
      let r2 = bl_overlap geo flash r1 fpk in
      elim (Bool-cases (bl_pattern (u16 w) (u16 (w / 2 ^ 16)))) [
        | inl e ↦ elim (Bool-cases pure) [
          | inl k ↦ rw (e, k) (bl_field-IsSound r2 rc fpk w)
          | inr k ↦ rw (e, k) tt
        ]
        | inr e ↦ elim (Bool-cases (pure && hit)) [
          | inl k ↦ rw (e, k) (ex_field-IsSound r1 rc fpk w)
          | inr k ↦ rw (e, k) tt
        ]
      ]

  pub field_at-IsClear :
      (r : Relocs) (rc : RangeDec) (fp0 : ℤ) (ks w : ℕ) (pure : Bool) (dl : ℕ)
      → IsClear
          (field_at geo flash r rc fp0 ks w pure dl).0
          (field_at geo flash r rc fp0 ks w pure dl).2.rcerr
  unfolding field_at
  field_at-IsClear r rc fp0 ks w pure dl =
      let fpk = add32 (to_u32 fp0) ks in
      let out =
        ltb_ℤ (fp0 +ℤ pos ks) (pos 0)
        || ltb geo.from_size fpk
        || ltb (geo.from_size - fpk) 4
        || fpk % 2 == 1 in
      elim (Bool-cases out) [
        | inl e ↦ rw e tt
        | inr e ↦ rw e (field_kind-IsSound r rc fp0 fpk w pure dl)
      ]
