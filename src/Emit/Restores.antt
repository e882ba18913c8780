-- ===== src/Emit/Restores.antt =====
-- The delta of a field that classify_field of src/enc_emit.c has found makes the decoder of
-- src/patch_apply.h write the bytes of the target.
use ultra_patch.Base.{
  ℕ, ◌+◌, ◌*◌, ◌/◌, ◌^◌, ◌≤◌, ◌<◌, ◌≡◌, refl, Bool, true, false, ◌&&◌, ◌||◌, Option, none, some,
  if◌then◌else◌, if_cases, arith, ap, sym, ◌∙◌, bit_or, ◌∷◌, subst, [],
}
use ultra_patch.Base.Int.{ℤ, pos, negsuc, ◌+ℤ◌}
use ultra_patch.Base.Word.{sub32, add32, to_u32, u8}
use ultra_patch.Base.Bits.{bit_or_high}
use ultra_patch.Wire.Zigzag.{i32_from_u32}
use ultra_patch.Field.ShiftMap.{smap_pred_bl, smap_pred_ex}
use ultra_patch.Field.Thumb.{bl_target, bl_dereloc, u32le_put}
use ultra_patch.Emit.{
  u16le, u32le, Image, LdrTargetIndex, field_addr, is_local_bl, Event, ev_none, ev_bl, ev_ex,
  ev_sbl, same_field, holds, classify_bl, classify_ex, classify_at, classify_source, classify_field,
  smap_resid, ldr_target_index_query, bl_imm24s, bl_pattern,
}

pub to_u32-i32_from_u32 : (u : ℕ) → u < 2 ^ 32 → to_u32 (i32_from_u32 u) ≡ u
unfolding i32_from_u32
to_u32-i32_from_u32 u h = ground arith

to_u32-lt : (v : ℤ) → to_u32 v < 2 ^ 32
to_u32-lt (pos n) = omega arith
to_u32-lt (negsuc n) = omega arith

-- The decoder adds the prediction that the encoder has taken off, modulo 2^32.
recombines : (p d : ℕ) → p < 2 ^ 32 → d < 2 ^ 32 → add32 p (to_u32 (i32_from_u32 (sub32 d p))) ≡ d
recombines p d hp hd = let e = to_u32-i32_from_u32 (sub32 d p) (omega arith) in rw e (omega arith)

pub add32-smap_resid :
    (mb : ℕ → ℕ) (mv : ℕ → ℤ) (mn : ℕ) (bl : Bool) (k1 k2 : ℕ) (need : ℤ)
    → add32
        (to_u32 (if bl then smap_pred_bl mb mv mn k1 k2 else smap_pred_ex mb mv mn k2))
        (to_u32 (smap_resid mb mv mn bl k1 k2 need))
      ≡ to_u32 need
unfolding smap_resid
add32-smap_resid mb mv mn bl k1 k2 need =
    let p = if bl then smap_pred_bl mb mv mn k1 k2 else smap_pred_ex mb mv mn k2 in
    recombines (to_u32 p) (to_u32 need) (to_u32-lt p) (to_u32-lt need)

abbrev pub AreBytes : (ℕ → ℕ) → Type 0
AreBytes p = (a : ℕ) → p a < 2 ^ 8

word_sum :
    (a b c d : ℕ)
    → a < 2 ^ 8
    → b < 2 ^ 8
    → c < 2 ^ 8
    → d < 2 ^ 8
    → bit_or (bit_or (bit_or a (b * 2 ^ 8)) (c * 2 ^ 16)) (d * 2 ^ 24)
      ≡ a + b * 2 ^ 8 + c * 2 ^ 16 + d * 2 ^ 24
word_sum a b c d ha hb hc hd =
    let x = bit_or_high 8 a b ha in
    let y = bit_or_high 16 (a + b * 2 ^ 8) c (omega arith) in
    let z = bit_or_high 24 (a + b * 2 ^ 8 + c * 2 ^ 16) d (omega arith) in
    ap (λ t. bit_or (bit_or t (c * 2 ^ 16)) (d * 2 ^ 24)) x ∙ ap (λ t. bit_or t (d * 2 ^ 24)) y ∙ z

u32le_lem :
    (p : ℕ → ℕ) (a : ℕ)
    → AreBytes p
    → u32le p a ≡ p a + p (a + 1) * 2 ^ 8 + p (a + 2) * 2 ^ 16 + p (a + 3) * 2 ^ 24
u32le_lem p a h = word_sum (p a) (p (a + 1)) (p (a + 2)) (p (a + 3)) (h _) (h _) (h _) (h _)

u32le-lt : (p : ℕ → ℕ) (a : ℕ) → AreBytes p → u32le p a < 2 ^ 32
u32le-lt p a h =
    let b0 = h a in
    let b1 = h (a + 1) in
    let b2 = h (a + 2) in let b3 = h (a + 3) in let e = u32le_lem p a h in omega arith

put_bytes :
    (a b c d : ℕ)
    → a < 2 ^ 8
    → b < 2 ^ 8
    → c < 2 ^ 8
    → d < 2 ^ 8
    → u32le_put (a + b * 2 ^ 8 + c * 2 ^ 16 + d * 2 ^ 24) ≡ a ∷ b ∷ c ∷ d ∷ []
unfolding u32le_put
put_bytes a b c d ha hb hc hd =
    let p : u8 (a + b * 2 ^ 8 + c * 2 ^ 16 + d * 2 ^ 24) ≡ a = omega arith in
    let q : u8 ((a + b * 2 ^ 8 + c * 2 ^ 16 + d * 2 ^ 24) / 2 ^ 8) ≡ b = omega arith in
    let r : u8 ((a + b * 2 ^ 8 + c * 2 ^ 16 + d * 2 ^ 24) / 2 ^ 16) ≡ c = omega arith in
    let s : u8 ((a + b * 2 ^ 8 + c * 2 ^ 16 + d * 2 ^ 24) / 2 ^ 24) ≡ d = omega arith in
    ground arith

holds_bytes :
    (tob : Image) (t : ℕ)
    → holds tob t (tob.bytes t ∷ tob.bytes (t + 1) ∷ tob.bytes (t + 2) ∷ tob.bytes (t + 3) ∷ [])
      ≡ true
unfolding holds
holds_bytes tob t =
    let two : t + 1 + 1 ≡ t + 2 = omega arith in
    let three : t + 2 + 1 ≡ t + 3 = omega arith in rw (two, three) (ground arith)

holds-u32le :
    (tob : Image) (t : ℕ) → AreBytes tob.bytes → holds tob t (u32le_put (u32le tob.bytes t)) ≡ true
holds-u32le tob t h =
    ap (λ w. holds tob t (u32le_put w)) (u32le_lem tob.bytes t h)
    ∙ ap (holds tob t) (put_bytes _ _ _ _ (h t) (h (t + 1)) (h (t + 2)) (h (t + 3)))
    ∙ holds_bytes tob t

second : (a b : Bool) → (a && b) ≡ true → b ≡ true
second a b h = ground arith

taken_back : (w t : ℕ) → w < 2 ^ 32 → t < 2 ^ 32 → sub32 w (sub32 w t) ≡ t
taken_back w t hw ht = omega arith

field_addr-inside :
    (tp0 k size : ℕ) → tp0 + k + 4 ≤ size → field_addr (pos tp0) k size ≡ some (tp0 + k)
unfolding field_addr ◌+ℤ◌
field_addr-inside tp0 k size h = ground arith

-- What the decoder writes for the fields that ship a delta: up_field_at with the same map.
module _ (mb : ℕ → ℕ) (mv : ℕ → ℤ) (mn : ℕ) (frm tob : Image) where
  abbrev pub Restores : ℕ → ℕ → Event → Type 0
  Restores fpk tpk ev_none = Unit
  Restores fpk tpk ev_sbl = Unit
  Restores fpk tpk (ev_bl delta k2) =
      (k2 ≡ bl_target fpk (u16le frm.bytes fpk) (u16le frm.bytes (fpk + 2)))
      × (holds tob tpk (
            bl_dereloc (u16le frm.bytes fpk) (u16le frm.bytes (fpk + 2)) (
              add32 (to_u32 (smap_pred_bl mb mv mn fpk k2))
                (to_u32 (smap_resid mb mv mn true fpk k2 delta))))
          ≡ true)
  Restores fpk tpk (ev_ex delta k2) =
      (k2 ≡ u32le frm.bytes fpk)
      × (holds tob tpk (
            u32le_put (
              sub32 k2 (
                add32 (to_u32 (smap_pred_ex mb mv mn k2))
                  (to_u32 (smap_resid mb mv mn false fpk k2 delta)))))
          ≡ true)

  classify_bl-Restores : (fpk tpk : ℕ) → Restores fpk tpk (classify_bl frm tob fpk tpk)
  unfolding classify_bl
  classify_bl-Restores fpk tpk =
      let fu = u16le frm.bytes fpk in
      let fl = u16le frm.bytes (fpk + 2) in
      let tu = u16le tob.bytes tpk in
      let tl = u16le tob.bytes (tpk + 2) in
      let delta = i32_from_u32 (sub32 (to_u32 (bl_imm24s fu fl)) (to_u32 (bl_imm24s tu tl))) in
      if_cases (Restores fpk tpk)
        (bl_pattern tu tl && holds tob tpk (bl_dereloc fu fl (to_u32 delta)))
        (ev_bl delta (bl_target fpk fu fl)) ev_sbl
        (λ e. (
          refl,
          ap (λ d. holds tob tpk (bl_dereloc fu fl d))
                (add32-smap_resid mb mv mn true fpk (bl_target fpk fu fl) delta)
              ∙ second (bl_pattern tu tl) (holds tob tpk (bl_dereloc fu fl (to_u32 delta))) e,
        ))
        (λ e. tt)

  classify_ex-Restores :
      (fpk tpk : ℕ)
      → AreBytes frm.bytes
      → AreBytes tob.bytes
      → Restores fpk tpk (classify_ex frm tob fpk tpk)
  unfolding classify_ex
  classify_ex-Restores fpk tpk hf ht =
      let w = u32le frm.bytes fpk in
      let t = u32le tob.bytes tpk in
      let delta = i32_from_u32 (sub32 w t) in
      let hw = u32le-lt frm.bytes fpk hf in
      let hv = u32le-lt tob.bytes tpk ht in
      (
        refl,
        ap (λ d. holds tob tpk (u32le_put (sub32 w d)))
              (add32-smap_resid mb mv mn false fpk w delta
                ∙ to_u32-i32_from_u32 (sub32 w t) (omega arith))
            ∙ ap (λ d. holds tob tpk (u32le_put d)) (taken_back w t hw hv)
            ∙ holds-u32le tob tpk ht,
      )

  classify_at-Restores :
      (ldr : LdrTargetIndex) (pure : Bool) (fp0 : ℤ) (dl tpk fpk : ℕ)
      → AreBytes frm.bytes
      → AreBytes tob.bytes
      → (e : Event) × (classify_at frm tob ldr pure fp0 dl (some tpk) fpk ≡ some e)
        × Restores fpk tpk e
  unfolding classify_at
  classify_at-Restores ldr pure fp0 dl tpk fpk hf ht =
      let P : Option Event → Type 0 = λ o. (e : Event) × (o ≡ some e) × Restores fpk tpk e in
      let bl = classify_bl frm tob fpk tpk in
      let ex = classify_ex frm tob fpk tpk in
      let shipped = pure && ldr_target_index_query ldr fp0 dl fpk in
      if_cases P (is_local_bl frm fpk) (if pure then some bl else some ev_sbl)
        (if shipped then some ex else some ev_none)
        (λ c.
          if_cases P pure (some bl) (some ev_sbl) (λ d. (bl, refl, classify_bl-Restores fpk tpk))
            (λ d. (ev_sbl, refl, tt)))
        (λ c.
          if_cases P shipped (some ex) (some ev_none)
            (λ d. (ex, refl, classify_ex-Restores fpk tpk hf ht)) (λ d. (ev_none, refl, tt)))

  -- Where the field's source address lies outside, nothing is found.
  abbrev pub RestoresAt : Option ℕ → ℕ → Event → Type 0
  RestoresAt none tpk e = e ≡ ev_none
  RestoresAt (some fpk) tpk e = Restores fpk tpk e

  classify_source-Restores :
      (ldr : LdrTargetIndex) (pure : Bool) (fp0 : ℤ) (dl tpk : ℕ) (fpk : Option ℕ)
      → AreBytes frm.bytes
      → AreBytes tob.bytes
      → (e : Event) × (classify_source frm tob ldr pure fp0 dl (some tpk) fpk ≡ some e)
        × RestoresAt fpk tpk e
  unfolding classify_source
  classify_source-Restores ldr pure fp0 dl tpk none hf ht = (ev_none, refl, refl)
  classify_source-Restores ldr pure fp0 dl tpk (some fpk) hf ht =
      classify_at-Restores ldr pure fp0 dl tpk fpk hf ht

  -- When both images are bytes and the four bytes of a field lie inside the target, classify_field finds
  -- an event and does not die. Outside of the source it finds none. For a BL or EX event its
  -- key is the one from which the decoder predicts, and under every shift map the residual that is
  -- shipped for its delta makes the decoder's sum and packing give the four bytes of the target.
  pub classify_field-Restores :
      (ldr : LdrTargetIndex) (merge_fields : Bool) (fp0 : ℤ) (tp0 dl k : ℕ)
      → AreBytes frm.bytes
      → AreBytes tob.bytes
      → tp0 + k + 4 ≤ tob.size
      → (e : Event) × (classify_field frm tob ldr merge_fields fp0 tp0 dl k ≡ some e)
        × RestoresAt (field_addr fp0 k frm.size) (tp0 + k) e
  unfolding classify_field
  classify_field-Restores ldr merge_fields fp0 tp0 dl k hf ht fit =
      let pure = merge_fields || same_field frm tob (fp0 +ℤ pos k) (tp0 + k) in
      let found = field_addr-inside tp0 k tob.size fit in
      let src = field_addr fp0 k frm.size in
      subst
        (λ o.
          (e : Event) × (classify_source frm tob ldr pure fp0 dl o src ≡ some e)
          × RestoresAt src (tp0 + k) e)
        (sym found) (classify_source-Restores ldr pure fp0 dl (tp0 + k) src hf ht)
