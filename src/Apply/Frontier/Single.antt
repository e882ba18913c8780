-- ===== src/Apply/Frontier/Single.antt =====
-- One operation of src/patch_apply.h takes the frontier from one end of its addresses to the other.
use ultra_patch.Base.{
  ℕ, ◌+◌, ◌≡◌, refl, sym, subst, Bool, true, false, ltb, if◌then◌else◌, if_cases, some, arith,
}
use ultra_patch.Base.Int.{pos, negsuc, ◌+ℤ◌}
use ultra_patch.Field.Thumb.{is_i32}
use ultra_patch.Apply.Pages.{Device, Pages}
use ultra_patch.Apply.Content.{Geo, read_uleb}
use ultra_patch.Apply.Relocs.{no_even}
use ultra_patch.Apply.Copy.{Applying, Op, Loop, stop, output, litcur_init, wr_extras, copy_loop}
use ultra_patch.Apply.Step.{Lengths, Place, op_copy, op_content, op_at}
use ultra_patch.Apply.Sticky.{litcur_init-failed, read_uleb-failed}
use ultra_patch.Apply.Frontier.{Between, Advance, Advance-quiet, Advance-stopped, not_both}
use ultra_patch.Apply.Frontier.Copies.{spot, wr_extras-Advance}
use ultra_patch.Apply.Frontier.Loops.{copy_loop-Advance}

-- Where an operation of `dl + el` addresses from `t` on begins and ends.
abbrev pub op_from : Bool → ℕ → ℕ → ℕ → ℕ
op_from true t dl el = t
op_from false t dl el = t + dl + el

abbrev pub op_to : Bool → ℕ → ℕ → ℕ → ℕ
op_to true t dl el = t + dl + el
op_to false t dl el = t

-- The copy and the extras as segments of the operation.
copy_ahead :
    (fwd : Bool) (a t dl el : ℕ)
    → Between fwd a (op_from fwd t dl el) (op_to fwd t dl el)
    → Between fwd a (spot fwd t dl dl) (spot fwd t dl 0)
copy_ahead true a t dl el h = (omega arith, omega arith)
copy_ahead false a t dl el h = (omega arith, omega arith)

extras_ahead :
    (fwd : Bool) (a t dl el : ℕ)
    → Between fwd a (op_from fwd t dl el) (op_to fwd t dl el)
    → Between fwd a (spot fwd (t + dl) el el) (spot fwd (t + dl) el 0)
extras_ahead true a t dl el h = (omega arith, omega arith)
extras_ahead false a t dl el h = (omega arith, omega arith)

copy_first : (fwd : Bool) (t dl el : ℕ) → fwd ≡ true → op_from fwd t dl el ≡ spot fwd t dl dl
copy_first true t dl el e = omega arith
copy_first false t dl el e = absurd (not_both true refl (sym e))

extras_first :
    (fwd : Bool) (t dl el : ℕ)
    → fwd ≡ false
    → (op_from fwd t dl el ≡ spot fwd (t + dl) el el) × (spot fwd (t + dl) el 0 ≡ spot fwd t dl dl)
extras_first true t dl el e = absurd (not_both true refl e)
extras_first false t dl el e = (refl, omega arith)

extras_last :
    (fwd : Bool) (t dl el : ℕ)
    → fwd ≡ true
    → (spot fwd t dl 0 ≡ spot fwd (t + dl) el el) × (spot fwd (t + dl) el 0 ≡ op_to fwd t dl el)
extras_last true t dl el e = (omega arith, omega arith)
extras_last false t dl el e = absurd (not_both true refl (sym e))

copy_last : (fwd : Bool) (t dl el : ℕ) → fwd ≡ false → spot fwd t dl 0 ≡ op_to fwd t dl el
copy_last true t dl el e = absurd (not_both true refl e)
copy_last false t dl el e = omega arith

module _ {F : Type 0} (dev : Device F) (geo : Geo) (p : Pages F) (a tp : ℕ) where
  abbrev Comes : ℕ → Applying F → Type 0
  Comes b st = Advance dev geo.fwd p a b tp st

  op_copy-Advance :
      (st : Applying F) (op : Op)
      → Between geo.fwd a (op_from geo.fwd op.tp0 op.dl op.el) (op_to geo.fwd op.tp0 op.dl op.el)
      → Comes (op_from geo.fwd op.tp0 op.dl op.el) st
      → Comes (op_to geo.fwd op.tp0 op.dl op.el) (op_copy dev geo st op)
  unfolding op_copy
  op_copy-Advance st op far s =
      let fwd = geo.fwd in
      let t = op.tp0 in
      let start = op_from fwd t op.dl op.el in
      let st1 : Applying F = record st {
        relocs = record (st.relocs) { psrc_ldr = λ i. false; psrc_even = no_even };
      } in
      let s1 = Advance-quiet dev fwd p a start tp st st1 s refl refl (λ bad. bad) in
      let extras = extras_ahead fwd a t op.dl op.el far in
      let st2 = if geo.fwd then st1 else wr_extras dev geo op.el st1 op in
      let s2 =
        if_cases (Comes (spot fwd t op.dl op.dl)) fwd st1 (wr_extras dev geo op.el st1 op)
          (λ e. subst (λ n. Comes n st1) (copy_first fwd t op.dl op.el e) s1)
          (λ e.
            let (from, to) = extras_first fwd t op.dl op.el e in
            subst (λ n. Comes n (wr_extras dev geo op.el st1 op)) to
              (wr_extras-Advance dev geo p a tp op.el st1 op (omega arith) extras
                (subst (λ n. Comes n st1) from s1))) in
      let (lc, c) = litcur_init dev geo st2 op in
      let st3 : Applying F = record st2 { content = c } in
      let s3 =
        Advance-quiet dev fwd p a (spot fwd t op.dl op.dl) tp st2 st3 s2 refl refl
          (λ bad. litcur_init-failed dev geo st2 op bad) in
      let loop : Loop F = record {
        st = st3;
        lc = lc;
        srcw = 0;
        srcw_at = negsuc 3;
        left = op.dl;
      } in
      let st4 = (copy_loop dev geo op.dl op loop).st in
      let s4 =
        copy_loop-Advance dev geo p a tp op.dl op loop (copy_ahead fwd a t op.dl op.el far)
          (omega arith) (omega arith) s3 in
      if_cases (Comes (op_to fwd t op.dl op.el)) fwd (wr_extras dev geo op.el st4 op) st4
        (λ e.
          let (from, to) = extras_last fwd t op.dl op.el e in
          subst (λ n. Comes n (wr_extras dev geo op.el st4 op)) to
            (wr_extras-Advance dev geo p a tp op.el st4 op (omega arith) extras
              (subst (λ n. Comes n st4) from s4)))
        (λ e. subst (λ n. Comes n st4) (copy_last fwd t op.dl op.el e) s4)

  op_content-Advance :
      (st : Applying F) (pl : Place) (g : Lengths)
      → Between geo.fwd a (op_from geo.fwd pl.tp0 g.dl g.el) (op_to geo.fwd pl.tp0 g.dl g.el)
      → Comes (op_from geo.fwd pl.tp0 g.dl g.el) st
      → Comes (op_to geo.fwd pl.tp0 g.dl g.el) (op_content dev geo st pl g)
  unfolding op_content
  op_content-Advance st pl g far s =
      let fwd = geo.fwd in
      let start = op_from fwd pl.tp0 g.dl g.el in
      let end = op_to fwd pl.tp0 g.dl g.el in
      let (nl, c) = read_uleb geo (output dev geo st) st.content in
      let st1 : Applying F = record st { content = c } in
      let s1 =
        Advance-quiet dev fwd p a start tp st st1 s refl refl
          (λ bad. read_uleb-failed geo (output dev geo st) st.content bad) in
      let op : Op = record { tp0 = pl.tp0; fp0 = pl.fp0; dl = g.dl; el = g.el; nl = nl } in
      if_cases (Comes end) (ltb g.dl nl) (stop st1) (op_copy dev geo st1 op)
        (λ e.
          Advance-stopped dev fwd p a start end tp (stop st1)
            (Advance-quiet dev fwd p a start tp st1 (stop st1) s1 refl refl (λ bad. refl)) far refl)
        (λ e. op_copy-Advance st1 op far s1)

  -- The operation moves the cursor to its end before it writes.
  pub op_at-Advance :
      (st : Applying F) (pl : Place) (g : Lengths) (from_tp : ℕ)
      → tp ≡ pl.tp
      → Between geo.fwd a (op_from geo.fwd pl.tp0 g.dl g.el) (op_to geo.fwd pl.tp0 g.dl g.el)
      → Advance dev geo.fwd p a (op_from geo.fwd pl.tp0 g.dl g.el) from_tp st
      → Comes (op_to geo.fwd pl.tp0 g.dl g.el) (op_at dev geo st g (some pl))
  unfolding op_at
  op_at-Advance st pl g from_tp at far s =
      let fwd = geo.fwd in
      let start = op_from fwd pl.tp0 g.dl g.el in
      let end = op_to fwd pl.tp0 g.dl g.el in
      let st1 : Applying F = record st { tp = pl.tp; fp = pl.fp } in
      let s1 : Comes start st1 = record {
        at = s.at;
        path = s.path;
        within = s.within;
        ends = s.ends;
        cursor = sym at;
      } in
      if_cases (Comes end) (is_i32 (pl.fp0 +ℤ pos g.dl)) (op_content dev geo st1 pl g) (stop st1)
        (λ e. op_content-Advance st1 pl g far s1)
        (λ e.
          Advance-stopped dev fwd p a start end tp (stop st1)
            (Advance-quiet dev fwd p a start tp st1 (stop st1) s1 refl refl (λ bad. refl)) far refl)
