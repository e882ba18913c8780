-- ===== src/Apply/Sticky.antt =====
-- The error latch g_rcerr of src/patch_apply.h stays set through the reads of content.
use ultra_patch.Base.{
  ℕ, zero, suc, ◌+◌, ◌≡◌, refl, Bool, true, false, not, ltb, if◌then◌else◌, Bool-cases, inl, inr,
  if_true, ◌||◌,
}
use ultra_patch.Base.Int.{pos}
use ultra_patch.Apply.Pages.{Device}
use ultra_patch.Apply.Content.{
  Geo, Content, failed, content_loop, next_content, read_uleb_loop, read_uleb, token_rounds,
}
use ultra_patch.Apply.Copy.{
  Applying, Op, LitCur, stopped, output, litcur_step, litcur_init, take_literal,
}
use ultra_patch.Base.Word.{add32, to_u32, sub32}
use ultra_patch.Delta.Cache.{eq_ℤ}

content_loop-failed :
    (geo : Geo) (out_read : ℕ → ℕ) (fuel : ℕ) (c : Content) (tag : Bool)
    → failed c ≡ true
    → failed (content_loop geo out_read fuel c tag).1 ≡ true
unfolding content_loop
content_loop-failed geo out_read zero c tag h = refl
content_loop-failed geo out_read (suc fuel) c tag h =
    if_true (λ (r : ℕ × Content). failed r.1 ≡ true) _ _ _ h refl

-- A read on a failed state fails, and returns 0 in the code.
pub next_content-failed :
    (geo : Geo) (out_read : ℕ → ℕ) (c : Content) (tag : Bool)
    → failed c ≡ true
    → failed (next_content geo out_read c tag).1 ≡ true
unfolding next_content
next_content-failed geo out_read c tag h = content_loop-failed geo out_read token_rounds c tag h

read_uleb_loop-failed :
    (geo : Geo) (out_read : ℕ → ℕ) (fuel : ℕ) (c : Content) (acc sh : ℕ)
    → failed c ≡ true
    → failed (read_uleb_loop geo out_read fuel c acc sh).1 ≡ true
unfolding read_uleb_loop
read_uleb_loop-failed geo out_read zero c acc sh h = refl
read_uleb_loop-failed geo out_read (suc fuel) c acc sh h =
    if_true (λ (r : ℕ × Content). failed r.1 ≡ true) _ _ _ h h

pub read_uleb-failed :
    (geo : Geo) (out_read : ℕ → ℕ) (c : Content)
    → failed c ≡ true
    → failed (read_uleb geo out_read c).1 ≡ true
unfolding read_uleb
read_uleb-failed geo out_read c h = read_uleb_loop-failed geo out_read 5 c 0 0 h

module _ {F : Type 0} (dev : Device F) (geo : Geo) where
  pub litcur_step-failed :
      (st : Applying F) (op : Op) (lc : LitCur)
      → stopped st ≡ true
      → failed (litcur_step dev geo st op lc).1 ≡ true
  unfolding litcur_step
  litcur_step-failed st op lc h =
      let out = output dev geo st in
      let (g, c1) = read_uleb geo out st.content in
      let np = if geo.fwd then add32 (to_u32 lc.nextpos) g else sub32 (to_u32 lc.nextpos) g in
      let bad = read_uleb-failed geo out st.content h in
      elim (Bool-cases (not (ltb lc.li op.nl))) [
        | inl e ↦ rw e h
        | inr e ↦ elim (Bool-cases (ltb op.dl g || ltb op.dl np)) [
          | inl d ↦ rw (e, d) refl
          | inr d ↦ rw (e, d) (next_content-failed geo out c1 false bad)
        ]
      ]

  pub litcur_init-failed :
      (st : Applying F) (op : Op) → stopped st ≡ true → failed (litcur_init dev geo st op).1 ≡ true
  unfolding litcur_init
  litcur_init-failed st op h =
      litcur_step-failed st op
        (record { nextpos = pos (if geo.fwd then 0 else op.dl); litb = 0; li = 0 }) h

  pub take_literal-failed :
      (st : Applying F) (op : Op) (lc : LitCur) (k : ℕ)
      → stopped st ≡ true
      → failed (take_literal dev geo st op lc k).2 ≡ true
  unfolding take_literal
  take_literal-failed st op lc k h = elim (Bool-cases (eq_ℤ (pos k) lc.nextpos)) [
    | inl e ↦ rw e (litcur_step-failed st op (record lc { li = lc.li + 1 }) h)
    | inr e ↦ rw e h
  ]
