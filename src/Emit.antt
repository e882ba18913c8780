-- ===== src/Emit.antt =====
-- The classification of relocation fields in src/enc_emit.c, the index of literal-load targets in
-- src/enc_field.c, and op_diff_byte of src/enc_internal.h. An image is a function from the offset.
pub mod Restores
pub mod Candidates
pub mod Tokens
pub mod Geometry
pub mod Map
use ultra_patch.Base.{
  ℕ, zero, suc, ◌+◌, ◌-◌, ◌*◌, ◌/◌, ◌%◌, ◌^◌, Bool, true, false, ◌&&◌, ◌||◌, not, List, [], ◌∷◌,
  Option, none, some, ltb, leb, ◌==◌, if◌then◌else◌, bit_or,
}
use ultra_patch.Base.Int.{ℤ, pos, negsuc, ◌+ℤ◌, ltb_ℤ}
use ultra_patch.Base.Word.{u8, u16, sub32, to_u32}
use ultra_patch.Model.{update}
use ultra_patch.Wire.Zigzag.{i32_from_u32}
use ultra_patch.Field.ShiftMap.{smap_pred_bl, smap_pred_ex}
use ultra_patch.Field.Thumb.{
  bl_pattern, bl_imm24s, bl_target, bl_dereloc, thumb_ldr_lit, ldr_target, ldr_target_in_op,
}

-- rc_u16le and rc_u32le at an offset.
abbrev pub u16le : (ℕ → ℕ) → ℕ → ℕ
u16le p a = u16 (bit_or (p a) (p (a + 1) * 2 ^ 8))

abbrev pub u32le : (ℕ → ℕ) → ℕ → ℕ
u32le p a =
    bit_or (bit_or (bit_or (p a) (p (a + 1) * 2 ^ 8)) (p (a + 2) * 2 ^ 16)) (p (a + 3) * 2 ^ 24)

-- An image and its size.
pub record Image : Type 0 where
  pub bytes : ℕ → ℕ
  pub size : ℕ

-- A byte of the source, 0 outside of it.
unfoldable pub source_byte : Image → ℤ → ℕ
source_byte frm (pos fp) = if ltb fp frm.size then frm.bytes fp else 0
source_byte frm (negsuc n) = 0

unfoldable pub op_diff_byte : Image → Image → ℤ → ℕ → ℕ
unfolding source_byte
op_diff_byte frm tob fp tp = (tob.bytes tp + 2 ^ 8 - source_byte frm fp) % 2 ^ 8

-- The distance from the nearest literal load before it, for each aligned word; 0 for none.
abbrev pub LdrTargetIndex : Type 0
LdrTargetIndex = ℕ → ℕ

-- The halfword at `a`, when it loads a literal of the source.
unfoldable pub index_halfword : Image → LdrTargetIndex → ℕ → LdrTargetIndex
index_halfword source idx a =
    let up = u16le source.bytes a in
    let t = ldr_target a (up % 2 ^ 8) in
    let back = u16 (sub32 t a) in
    if not (thumb_ldr_lit up)
    then idx
    else if ltb source.size t || ltb (source.size - t) 4
    then idx
    else if idx (t / 2 ^ 2) == 0 || ltb back (idx (t / 2 ^ 2))
    then update idx (t / 2 ^ 2) back
    else idx

-- One round for each complete halfword.
unfoldable pub index_build_loop : ℕ → Image → LdrTargetIndex → ℕ → LdrTargetIndex
index_build_loop zero source idx a = idx
index_build_loop (suc left) source idx a =
    index_build_loop left source (index_halfword source idx a) (a + 2)

unfoldable pub ldr_target_index_build : Image → LdrTargetIndex
unfolding index_build_loop index_halfword
ldr_target_index_build source = index_build_loop (source.size / 2) source (λ i. 0) 0

unfoldable pub ldr_target_index_query : LdrTargetIndex → ℤ → ℕ → ℕ → Bool
ldr_target_index_query idx fp0 dl fpk =
    let back = idx (fpk / 2 ^ 2) in
    ldr_target_in_op fp0 dl fpk
    && not (back == 0)
    && not (ltb_ℤ (i32_from_u32 (sub32 fpk back)) fp0)

abbrev address_of : ℤ → ℕ → Option ℕ
address_of (pos a) size = if ltb size (a + 4) then none else some a
address_of (negsuc n) size = none

-- The address of four bytes that lie inside.
unfoldable pub field_addr : ℤ → ℕ → ℕ → Option ℕ
field_addr fp0 k size = address_of (fp0 +ℤ pos k) size

unfoldable pub is_local_bl : Image → ℕ → Bool
is_local_bl frm fpk =
    fpk % 2 == 0
    && not (ltb frm.size fpk)
    && not (ltb (frm.size - fpk) 4)
    && bl_pattern (u16le frm.bytes fpk) (u16le frm.bytes (fpk + 2))

-- EV_NONE, EV_BL, EV_EX and EV_SBL, with the delta and the key of the two that have them.
pub data Event : Type 0 where
  ev_none : Event
  ev_bl : ℤ → ℕ → Event
  ev_ex : ℤ → ℕ → Event
  ev_sbl : Event

-- Four bytes that are the same in the source and in the target.
unfoldable pub same_field : Image → Image → ℤ → ℕ → Bool
same_field frm tob fp tp =
    op_diff_byte frm tob fp tp == 0
    && op_diff_byte frm tob (fp +ℤ pos 1) (tp + 1) == 0
    && op_diff_byte frm tob (fp +ℤ pos 2) (tp + 2) == 0
    && op_diff_byte frm tob (fp +ℤ pos 3) (tp + 3) == 0

-- memcmp with four bytes of the target.
unfoldable pub holds : Image → ℕ → List ℕ → Bool
holds tob tp [] = true
holds tob tp (b ∷ bytes) = tob.bytes tp == b && holds tob (tp + 1) bytes

-- A BL pair of the source that may change; it is verified.
unfoldable pub classify_bl : Image → Image → ℕ → ℕ → Event
classify_bl frm tob fpk tpk =
    let fu = u16le frm.bytes fpk in
    let fl = u16le frm.bytes (fpk + 2) in
    let tu = u16le tob.bytes tpk in
    let tl = u16le tob.bytes (tpk + 2) in
    let delta = i32_from_u32 (sub32 (to_u32 (bl_imm24s fu fl)) (to_u32 (bl_imm24s tu tl))) in
    if bl_pattern tu tl && holds tob tpk (bl_dereloc fu fl (to_u32 delta))
    then ev_bl delta (bl_target fpk fu fl)
    else ev_sbl

unfoldable pub classify_ex : Image → Image → ℕ → ℕ → Event
classify_ex frm tob fpk tpk =
    let word = u32le frm.bytes fpk in ev_ex (i32_from_u32 (sub32 word (u32le tob.bytes tpk))) word

-- The four bytes at `k` of a copy, `tpk` being where they lie in the target when they lie inside; `none`
-- is the call of die.
unfoldable pub classify_at :
    Image → Image → LdrTargetIndex → Bool → ℤ → ℕ → Option ℕ → ℕ → Option Event
classify_at frm tob ldr pure fp0 dl (some tpk) fpk =
    if is_local_bl frm fpk
    then (if pure then some (classify_bl frm tob fpk tpk) else some ev_sbl)
    else if pure && ldr_target_index_query ldr fp0 dl fpk
    then some (classify_ex frm tob fpk tpk)
    else some ev_none
classify_at frm tob ldr pure fp0 dl none fpk =
    if is_local_bl frm fpk
    then some ev_sbl
    else if pure && ldr_target_index_query ldr fp0 dl fpk
    then none
    else some ev_none

unfoldable pub classify_source :
    Image → Image → LdrTargetIndex → Bool → ℤ → ℕ → Option ℕ → Option ℕ → Option Event
classify_source frm tob ldr pure fp0 dl tpk none = some ev_none
classify_source frm tob ldr pure fp0 dl tpk (some fpk) = classify_at frm tob ldr pure fp0 dl tpk fpk

unfoldable pub classify_field : Image → Image → LdrTargetIndex → Bool → ℤ → ℕ → ℕ → ℕ → Option Event
unfolding classify_source classify_at classify_bl classify_ex
classify_field frm tob ldr merge_fields fp0 tp0 dl k =
    classify_source frm tob ldr (merge_fields || same_field frm tob (fp0 +ℤ pos k) (tp0 + k)) fp0 dl
      (field_addr (pos tp0) k tob.size) (field_addr fp0 k frm.size)

-- The residual of a delta under a shift map of `mn` entries. A BL field is `true`.
unfoldable pub smap_resid : (ℕ → ℕ) → (ℕ → ℤ) → ℕ → Bool → ℕ → ℕ → ℤ → ℤ
smap_resid mb mv mn bl k1 k2 need =
    let pred = if bl then smap_pred_bl mb mv mn k1 k2 else smap_pred_ex mb mv mn k2 in
    i32_from_u32 (sub32 (to_u32 need) (to_u32 pred))
