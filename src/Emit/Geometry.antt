-- ===== src/Emit/Geometry.antt =====
-- emit_geom of src/enc_emit.c, and the lengths that apply_op of src/patch_apply.h reads.
use ultra_patch.Base.{ℕ, ◌<◌, ◌≡◌, refl, List}
use ultra_patch.Base.Word.{IsI32}
use ultra_patch.Coder.Encoder.{REnc}
use ultra_patch.Coder.Decoder.{RangeDec}
use ultra_patch.Coder.Value.{IsBytes}
use ultra_patch.Coder.Renorm.{IsReady, Contains}
use ultra_patch.Coder.Sync.{Tracks}
use ultra_patch.Coder.Step.{Later, Later-trans}
use ultra_patch.Model.Golomb.{ugg_encode}
use ultra_patch.Model.Golomb.RoundTrip.{ugg_encode-Later, s_ug_gamma-ugg_encode}
use ultra_patch.Model.Init.{PreKdModels, IsPreKd}
use ultra_patch.Wire.Zigzag.{zz32, unzz32_value-zz32}
use ultra_patch.Apply.Copy.{Applying}
use ultra_patch.Apply.Step.{Lengths, read_lengths}
use ultra_patch.Plan.{PlanOp}

unfoldable pub emit_geom : REnc → PreKdModels → PlanOp → REnc × PreKdModels
emit_geom r pre o =
    let (r1, gdl) = ugg_encode pre.gdl r o.diff_len in
    let (r2, gel) = ugg_encode pre.gel r1 o.extra_len in
    let (r3, gadj) = ugg_encode pre.gadj r2 (zz32 o.adj) in
    (r3, record pre { gdl = gdl; gel = gel; gadj = gadj })

-- Lengths and an adjustment that the Gamma code takes.
pub record IsShippable (o : PlanOp) : Type 0 where
  pub copied : o.diff_len < 0xffff_ffff
  pub added : o.extra_len < 0xffff_ffff
  pub moved : zz32 o.adj < 0xffff_ffff
  pub word : IsI32 o.adj

unfoldable pub lengths_of : PlanOp → Lengths
lengths_of o = record { dl = o.diff_len; el = o.extra_len; adj = o.adj }

-- The decoder's state with the coder and the models given.
unfoldable pub reading : {F : Type 0} → Applying F → RangeDec → PreKdModels → Applying F
reading st d pre = record st {
  content = record (st.content) { rc = d };
  relocs = record (st.relocs) { pre = pre };
}

pub emit_geom-Later :
    (r : REnc) (pre : PreKdModels) (o : PlanOp)
    → IsShippable o
    → IsReady r
    → IsPreKd pre
    → Later r (emit_geom r pre o).0
unfolding emit_geom
emit_geom-Later r pre o f ready h =
    let (l1, g1) = ugg_encode-Later pre.gdl r o.diff_len f.copied ready h.diff_lens in
    let (r1, gdl) = ugg_encode pre.gdl r o.diff_len in
    let (l2, g2) = ugg_encode-Later pre.gel r1 o.extra_len f.added l1.ready h.extra_lens in
    let (r2, gel) = ugg_encode pre.gel r1 o.extra_len in
    let (l3, g3) = ugg_encode-Later pre.gadj r2 (zz32 o.adj) f.moved l2.ready h.adjs in
    Later-trans l1 (Later-trans l2 l3)

module _ (bytes more : List ℕ) (hb : IsBytes bytes) where
  -- The decoder reads the lengths and the adjustment of every operation that the encoder ships, with the
  -- three models in step, and changes nothing else.
  pub read_lengths-emit_geom :
      {F : Type 0} (st : Applying F) (r : REnc) (d : RangeDec) (pre : PreKdModels) (o : PlanOp)
      → IsShippable o
      → IsReady r
      → IsPreKd pre
      → Contains bytes (emit_geom r pre o).0
      → Tracks bytes more r d
      → (d' : RangeDec) × Tracks bytes more (emit_geom r pre o).0 d'
        × (read_lengths (reading st d pre) ≡ (lengths_of o, reading st d' (emit_geom r pre o).1))
  unfolding emit_geom read_lengths reading lengths_of
  read_lengths-emit_geom st r d pre o f ready h k t =
      let (l1, g1) = ugg_encode-Later pre.gdl r o.diff_len f.copied ready h.diff_lens in
      let (r1, gdl) = ugg_encode pre.gdl r o.diff_len in
      let (l2, g2) = ugg_encode-Later pre.gel r1 o.extra_len f.added l1.ready h.extra_lens in
      let (r2, gel) = ugg_encode pre.gel r1 o.extra_len in
      let (l3, g3) = ugg_encode-Later pre.gadj r2 (zz32 o.adj) f.moved l2.ready h.adjs in
      let k2 = l3.back bytes hb k in
      let k1 = l2.back bytes hb k2 in
      let (e1, m1, t1) =
        s_ug_gamma-ugg_encode bytes more hb pre.gdl r d o.diff_len f.copied ready h.diff_lens k1
          t in
      let (e2, m2, t2) =
        s_ug_gamma-ugg_encode bytes more hb pre.gel r1 _ o.extra_len f.added l1.ready h.extra_lens
          k2 t1 in
      let (e3, m3, t3) =
        s_ug_gamma-ugg_encode bytes more hb pre.gadj r2 _ (zz32 o.adj) f.moved l2.ready h.adjs k
          t2 in
      (_, t3, rw (e1, m1, e2, m2, e3, m3, unzz32_value-zz32 o.adj f.word) refl)
