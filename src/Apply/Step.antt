-- ===== src/Apply/Step.antt =====
-- One operation of a patch and the loop over them: up_apply_op of src/patch_apply.h and the loop of
-- up_decode_body.
use ultra_patch.Base.{
  ℕ, zero, suc, ◌+◌, ◌-◌, Bool, false, ◌&&◌, ◌||◌, not, Option, none, some, ltb, ◌==◌,
  if◌then◌else◌,
}
use ultra_patch.Base.Int.{ℤ, pos, negsuc, ◌+ℤ◌, ◌-ℤ◌}
use ultra_patch.Wire.Zigzag.{unzz32_value}
use ultra_patch.Model.Golomb.{s_ug_gamma}
use ultra_patch.Field.Thumb.{is_i32}
use ultra_patch.Apply.Pages.{Device}
use ultra_patch.Apply.Content.{Geo, read_uleb}
use ultra_patch.Apply.Relocs.{Relocs, no_even}
use ultra_patch.Apply.Copy.{
  Applying, Op, Loop, stopped, stop, output, litcur_init, wr_extras, copy_loop,
}

-- The geometry of an operation as it stands on the wire.
pub record Lengths : Type 0 where
  pub dl : ℕ
  pub el : ℕ
  pub adj : ℤ

-- tp0 and fp0, and the cursors after the operation.
pub record Place : Type 0 where
  pub tp0 : ℕ
  pub fp0 : ℤ
  pub tp : ℕ
  pub fp : ℤ

unfoldable pub read_lengths : {F : Type 0} → Applying F → Lengths × Applying F
read_lengths st =
    let c = st.content in
    let pre = st.relocs.pre in
    let (dl, gdl, rc1) = s_ug_gamma pre.gdl c.rc in
    let (el, gel, rc2) = s_ug_gamma pre.gel rc1 in
    let (adj, gadj, rc3) = s_ug_gamma pre.gadj rc2 in
    (
      record { dl = dl; el = el; adj = unzz32_value adj },
      record st {
        content = record c { rc = rc3 };
        relocs = record (st.relocs) { pre = record pre { gdl = gdl; gel = gel; gadj = gadj } };
      },
    )

-- The place of an ascending and of a descending operation, `none` where a cursor would leave its
-- range.
unfoldable pub place_up : ℕ → ℕ → ℤ → Lengths → Option Place
place_up to_size tp fp g =
    let nw = g.dl + g.el in
    let near = fp +ℤ pos g.dl in
    let nfp = near +ℤ g.adj in
    if ltb to_size nw || ltb (to_size - nw) tp || not (is_i32 near) || not (is_i32 nfp)
    then none
    else some (record { tp0 = tp; fp0 = fp; tp = tp + nw; fp = nfp })

unfoldable pub place_down : ℕ → ℤ → Lengths → Option Place
place_down tp fp g =
    let nw = g.dl + g.el in
    let near = fp -ℤ pos g.dl in
    let nfp = near -ℤ g.adj in
    if ltb tp nw || not (is_i32 near) || not (is_i32 nfp)
    then none
    else some (record { tp0 = tp - nw; fp0 = nfp; tp = tp - nw; fp = nfp })

-- The guards of up_apply_op on the lengths: within the image, and not both 0.
unfoldable pub lengths_fit : Geo → Lengths → Bool
lengths_fit geo g =
    not (ltb geo.image_span g.dl)
    && not (ltb (geo.image_span - g.dl) g.el)
    && not (g.dl + g.el == 0)

module _ {F : Type 0} (dev : Device F) (geo : Geo) where
  -- The content of an operation whose count of literals is read: extras come after the copy going up
  -- and before it going down.
  unfoldable pub op_copy : Applying F → Op → Applying F
  op_copy st op =
      let r : Relocs = record (st.relocs) { psrc_ldr = λ i. false; psrc_even = no_even } in
      let st1 : Applying F = record st { relocs = r } in
      let st2 = if geo.fwd then st1 else wr_extras dev geo op.el st1 op in
      let (lc, c) = litcur_init dev geo st2 op in
      let start : Loop F = record {
        st = record st2 { content = c };
        lc = lc;
        srcw = 0;
        srcw_at = negsuc 3;
        left = op.dl;
      } in
      let st3 = (copy_loop dev geo op.dl op start).st in
      if geo.fwd then wr_extras dev geo op.el st3 op else st3

  unfoldable pub op_content : Applying F → Place → Lengths → Applying F
  unfolding op_copy
  op_content st p g =
      let (nl, c) = read_uleb geo (output dev geo st) st.content in
      let st1 : Applying F = record st { content = c } in
      if ltb g.dl nl
      then stop st1
      else op_copy st1 (record { tp0 = p.tp0; fp0 = p.fp0; dl = g.dl; el = g.el; nl = nl })

  unfoldable pub op_at : Applying F → Lengths → Option Place → Applying F
  unfolding op_content
  op_at st g none = stop st
  op_at st g (some p) =
      let st1 : Applying F = record st { tp = p.tp; fp = p.fp } in
      if is_i32 (p.fp0 +ℤ pos g.dl) then op_content st1 p g else stop st1

  unfoldable pub apply_op : Applying F → Applying F
  unfolding op_at
  apply_op st =
      let (g, st1) = read_lengths st in
      let place =
        if geo.fwd then place_up geo.to_size st.tp st.fp g else place_down st.tp st.fp g in
      if stopped st1 || not (lengths_fit geo g) then stop st1 else op_at st1 g place

  -- Where the frontier has to arrive.
  unfoldable pub arrived : Applying F → Bool
  arrived st = if geo.fwd then st.tp == geo.to_size else st.tp == 0

  -- Every operation that is accepted moves the frontier, so that to_size rounds and the last test are
  -- enough.
  unfoldable pub ops_loop : ℕ → Applying F → Applying F
  unfolding apply_op arrived
  ops_loop zero st = st
  ops_loop (suc fuel) st =
      let rest = ops_loop fuel (apply_op st) in if stopped st || arrived st then st else rest
