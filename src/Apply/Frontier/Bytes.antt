-- ===== src/Apply/Frontier/Bytes.antt =====
-- Single bytes: up_wr_copy and the steps of up_wr_extras of src/patch_apply.h write one address, or
-- stop.
use ultra_patch.Base.{ℕ, ◌+◌, ◌%◌, ◌≡◌, inl, inr, refl, Bool, true, false, ◌==◌, Bool-cases}
use ultra_patch.Base.Int.{ℤ}
use ultra_patch.Base.Word.{u8}
use ultra_patch.Apply.Pages.{Device}
use ultra_patch.Apply.Content.{Geo, failed, next_content}
use ultra_patch.Apply.Copy.{Applying, Op, LitCur, stopped, output, wr_extra, take_literal, wr_copy}
use ultra_patch.Apply.Sticky.{next_content-failed, take_literal-failed}
use ultra_patch.Apply.Frontier.{Wrote, not_both}

-- A later failure that the latch would have caused shows that it was clear.
pub was_clear : (b c : Bool) → (b ≡ true → c ≡ true) → c ≡ false → b ≡ false
was_clear true c f e = absurd (not_both c (f refl) e)
was_clear false c f e = refl

module _ {F : Type 0} (dev : Device F) (geo : Geo) where
  pub wr_extra-Wrote :
      (st : Applying F) (a : ℕ)
      → Wrote dev st a (wr_extra dev geo st a) × ((wr_extra dev geo st a).tp ≡ st.tp)
  unfolding wr_extra
  wr_extra-Wrote st a =
      let out = output dev geo st in
      let (b, c) = next_content geo out st.content (a % 2 == 1) in
      elim (Bool-cases (failed c)) [
        | inl e ↦ rw e (inl (e, refl), refl)
        | inr e ↦
            let clear =
              was_clear (stopped st) (failed c)
                (λ h. next_content-failed geo out st.content (a % 2 == 1) h) e in
            rw e (inr (clear, (b, refl)), refl)
      ]

  pub wr_copy-Wrote :
      (st : Applying F) (op : Op) (lc : LitCur) (fp : ℤ) (k src : ℕ)
      → Wrote dev st (op.tp0 + k) (wr_copy dev geo st op lc fp k src).0
        × ((wr_copy dev geo st op lc fp k src).0.tp ≡ st.tp)
  unfolding wr_copy
  wr_copy-Wrote st op lc fp k src =
      let (db, lc1, c1) = take_literal dev geo st op lc k in
      elim (Bool-cases (failed c1)) [
        | inl e ↦ rw e (inl (e, refl), refl)
        | inr e ↦
            let clear =
              was_clear (stopped st) (failed c1) (λ h. take_literal-failed dev geo st op lc k h)
                e in
            rw e (inr (clear, (u8 (db + src), refl)), refl)
      ]
