-- ===== src/Apply/Frontier/Copies.antt =====
-- The loops of src/patch_apply.h that write the extras, a window and the copy of an operation.
use ultra_patch.Base.{
  ℕ, zero, suc, ◌+◌, ◌-◌, ◌*◌, ◌/◌, ◌≤◌, ◌<◌, ◌≡◌, inr, refl, sym, ap, Bool, true, false,
  if◌then◌else◌, List, get_or, arith, if_cases, ◌^◌,
}
use ultra_patch.Base.Int.{pos, ◌+ℤ◌}
use ultra_patch.Base.Word.{u8}
use ultra_patch.Apply.Pages.{Device, Pages, out_write}
use ultra_patch.Apply.Content.{Geo}
use ultra_patch.Apply.Copy.{
  Applying, Op, LitCur, Loop, stopped, wr_extra, wr_extras, wr_copy, put_packed, put_copies, loop_k,
  copy_byte,
}
use ultra_patch.Apply.Frontier.{
  Between, Moves, Advance, Wrote, Advance-Wrote, Advance-stopped, subst,
}
use ultra_patch.Apply.Frontier.Bytes.{wr_extra-Wrote, wr_copy-Wrote}

-- The frontier in a segment of `n` addresses from `lo` on of which `left` are to come.
abbrev pub spot : Bool → ℕ → ℕ → ℕ → ℕ
spot true lo n left = lo + (n - left)
spot false lo n left = lo + left

-- The address that is next.
abbrev pub next_at : Bool → ℕ → ℕ → ℕ
next_at fwd n left = if fwd then n - suc left else left

pub spot-Moves :
    (fwd : Bool) (lo n left : ℕ)
    → left < n
    → Moves fwd (spot fwd lo n (suc left)) (lo + next_at fwd n left) (spot fwd lo n left)
spot-Moves true lo n left h = (refl, omega arith)
spot-Moves false lo n left h = (omega arith, refl)

-- What is known of the start `a` of the path and a segment: the path comes from before it.
pub spot-start :
    (fwd : Bool) (a lo n k left : ℕ)
    → Between fwd a (spot fwd lo n n) (spot fwd lo n 0)
    → left ≤ k
    → k ≤ n
    → Between fwd a (spot fwd lo n k) (spot fwd lo n left)
spot-start true a lo n k left h i j = (omega arith, omega arith)
spot-start false a lo n k left h i j = (omega arith, omega arith)

module _ {F : Type 0} (dev : Device F) (geo : Geo) (p : Pages F) (a tp : ℕ) where
  abbrev Comes : ℕ → Applying F → Type 0
  Comes b st = Advance dev geo.fwd p a b tp st

  -- The segment lies ahead of the start.
  abbrev Ahead : ℕ → ℕ → Type 0
  Ahead lo n = Between geo.fwd a (spot geo.fwd lo n n) (spot geo.fwd lo n 0)

  pub wr_extras-Advance :
      (left : ℕ) (st : Applying F) (op : Op)
      → left ≤ op.el
      → Ahead (op.tp0 + op.dl) op.el
      → Comes (spot geo.fwd (op.tp0 + op.dl) op.el left) st
      → Comes (spot geo.fwd (op.tp0 + op.dl) op.el 0) (wr_extras dev geo left st op)
  unfolding wr_extras
  wr_extras-Advance zero st op h far s = s
  wr_extras-Advance (suc left) st op h far s =
      let fwd = geo.fwd in
      let lo = op.tp0 + op.dl in
      let addr = lo + next_at fwd op.el left in
      let st1 = wr_extra dev geo st addr in
      let (w, t) = wr_extra-Wrote dev geo st addr in
      if_cases (λ r. Comes (spot fwd lo op.el 0) r) (stopped st) st (wr_extras dev geo left st1 op)
        (λ e.
          Advance-stopped dev fwd p a (spot fwd lo op.el (suc left)) (spot fwd lo op.el 0) tp st s
            (spot-start fwd a lo op.el (suc left) 0 far (omega arith) h) e)
        (λ e. wr_extras-Advance left st1 op (omega arith) far (
          Advance-Wrote dev fwd p a (spot fwd lo op.el (suc left)) addr (spot fwd lo op.el left) tp
            st st1 s (spot-start fwd a lo op.el (suc left) left far (omega arith) h)
            (spot-Moves fwd lo op.el left h) w t))

  -- A window of which four bytes go to addresses from `lo` on.
  pub put_packed-Advance :
      (left : ℕ) (st : Applying F) (op : Op) (a0 : ℕ) (bytes : List ℕ)
      → left ≤ 4
      → Ahead (op.tp0 + a0) 4
      → stopped st ≡ false
      → Comes (spot geo.fwd (op.tp0 + a0) 4 left) st
      → Comes (spot geo.fwd (op.tp0 + a0) 4 0) (put_packed dev geo left st op a0 bytes)
  unfolding put_packed
  put_packed-Advance zero st op a0 bytes h far clear s = s
  put_packed-Advance (suc left) st op a0 bytes h far clear s =
      let fwd = geo.fwd in
      let lo = op.tp0 + a0 in
      let b = next_at fwd 4 left in
      let st1 : Applying F = record st {
        pages = out_write dev st.pages (lo + b) (get_or bytes b 0);
      } in
      put_packed-Advance left st1 op a0 bytes (omega arith) far clear (
        Advance-Wrote dev fwd p a (spot fwd lo 4 (suc left)) (lo + b) (spot fwd lo 4 left) tp st st1
          s (spot-start fwd a lo 4 (suc left) left far (omega arith) h) (spot-Moves fwd lo 4 left h)
          (inr (clear, (get_or bytes b 0, refl))) refl)

  pub put_copies-Advance :
      (left : ℕ) (st : Applying F) (op : Op) (lc : LitCur) (a0 w : ℕ)
      → left ≤ 4
      → Ahead (op.tp0 + a0) 4
      → Comes (spot geo.fwd (op.tp0 + a0) 4 left) st
      → Comes (spot geo.fwd (op.tp0 + a0) 4 0) (put_copies dev geo left st op lc a0 w).0
  unfolding put_copies
  put_copies-Advance zero st op lc a0 w h far s = s
  put_copies-Advance (suc left) st op lc a0 w h far s =
      let fwd = geo.fwd in
      let lo = op.tp0 + a0 in
      let b = next_at fwd 4 left in
      let src = u8 (w / 2 ^ (8 * b)) in
      let r = wr_copy dev geo st op lc (op.fp0 +ℤ pos (a0 + b)) (a0 + b) src in
      let (wrote, t) = wr_copy-Wrote dev geo st op lc (op.fp0 +ℤ pos (a0 + b)) (a0 + b) src in
      let sum : op.tp0 + (a0 + b) ≡ lo + b = omega arith in
      put_copies-Advance left r.0 op r.1 a0 w (omega arith) far (
        Advance-Wrote dev fwd p a (spot fwd lo 4 (suc left)) (lo + b) (spot fwd lo 4 left) tp st r.0
          s (spot-start fwd a lo 4 (suc left) left far (omega arith) h) (spot-Moves fwd lo 4 left h)
          (subst (λ n. Wrote dev st n r.0) sum wrote) t)

  -- The next byte of the copy.
  pub copy_byte-Advance :
      (op : Op) (l : Loop F) (src : ℕ)
      → 0 < l.left
      → l.left ≤ op.dl
      → Ahead op.tp0 op.dl
      → Comes (spot geo.fwd op.tp0 op.dl l.left) l.st
      → Comes (spot geo.fwd op.tp0 op.dl (l.left - 1)) (copy_byte dev geo op l src).st
  unfolding copy_byte
  copy_byte-Advance op l src some_left fit far s =
      let fwd = geo.fwd in
      let k = loop_k dev geo op l in
      let less = l.left - 1 in
      let same : suc less ≡ l.left = omega arith in
      let (wrote, t) = wr_copy-Wrote dev geo l.st op l.lc (op.fp0 +ℤ pos k) k src in
      let at : k ≡ next_at fwd op.dl less =
        ap (λ (n : ℕ). if fwd then op.dl - n else less) (sym same) in
      Advance-Wrote dev fwd p a (spot fwd op.tp0 op.dl l.left) (op.tp0 + next_at fwd op.dl less)
        (spot fwd op.tp0 op.dl less) tp l.st _ s
        (spot-start fwd a op.tp0 op.dl l.left less far (omega arith) fit)
        (subst
          (λ n.
            Moves fwd (spot fwd op.tp0 op.dl n) (op.tp0 + next_at fwd op.dl less)
              (spot fwd op.tp0 op.dl less))
          same (spot-Moves fwd op.tp0 op.dl less (omega arith)))
        (subst
          (λ n.
            Wrote dev l.st (op.tp0 + n) (wr_copy dev geo l.st op l.lc (op.fp0 +ℤ pos k) k src).0)
          at wrote)
        t
