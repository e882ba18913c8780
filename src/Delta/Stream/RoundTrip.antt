-- ===== src/Delta/Stream/RoundTrip.antt =====
-- The reader's deltas are the writer's, and the two caches stay equal.
use native.Mathlib.Numerals.{add-one}
use ultra_patch.Base.{
  ℕ, suc, ◌+◌, ◌<◌, ◌≡◌, refl, sym, ◌∙◌, Bool, true, false, List, leb, arith, inl, inr,
}
use ultra_patch.Base.Int.{ℤ}
use ultra_patch.Base.Word.{IsI32}
use ultra_patch.Coder.Prob.{s_bit_rate}
use ultra_patch.Coder.Encoder.{REnc, re_bit}
use ultra_patch.Coder.Decoder.{RangeDec, s_bit_r}
use ultra_patch.Coder.Value.{IsBytes}
use ultra_patch.Coder.Renorm.{IsReady, Contains}
use ultra_patch.Coder.Sync.{Tracks}
use ultra_patch.Coder.Step.{Later, Returns}
use ultra_patch.Delta.Cache.{dr_rep_ctx, mtf_promote_i32, mtf_insert_i32}
use ultra_patch.Delta.Stream.{
  DeltaModel, hit_encode, esc_encode, trans_encode, delta_encode, pull_hit, pull_escape, pull_fresh,
  pull_delta, idx_clamp, put_at, take_at,
}
use ultra_patch.Model.Codecs.{re_bit-advances, s_bit_r-Returns}
use ultra_patch.Model.Unary.{unary_encode-Later, s_unary-unary_encode, take_at-put_at}
use ultra_patch.Delta.Escape.{bv_encode-Later, s_bv-bv_encode}
use ultra_patch.Delta.Cache.Transition.{dr_transition-cases}
use ultra_patch.Delta.Stream.Later.{
  IsDelta, put_rep, put_rep-Later, hit_encode-Later, esc_encode-Later,
}

-- `m` with another cache.
abbrev with_cache : DeltaModel → ℕ → (ℕ → ℤ) → DeltaModel
with_cache m k dic = record m { stream = record (m.stream) { k = k; dic = dic } }

module _ (bytes more : List ℕ) (hb : IsBytes bytes) where
  pull_fresh-hit_encode :
      (cap : ℕ) (m : DeltaModel) (r : REnc) (d : RangeDec) (j : ℕ)
      → suc j < m.stream.k
      → IsReady r
      → IsDelta cap m
      → Contains bytes
          (hit_encode (with_cache m m.stream.k (mtf_promote_i32 m.stream.dic (suc j))) r j).0
      → Tracks bytes more r d
      → Returns bytes more hb
          (hit_encode (with_cache m m.stream.k (mtf_promote_i32 m.stream.dic (suc j))) r j).0
          (m.stream.dic (suc j))
          (hit_encode (with_cache m m.stream.k (mtf_promote_i32 m.stream.dic (suc j))) r j).1
          (pull_fresh cap m d)
  unfolding hit_encode pull_fresh pull_hit
  pull_fresh-hit_encode cap m r d j inside ready g c t =
      let (l, hits) = re_bit-advances m.stream.hit r true ready g.hits in
      let r' = (re_bit r m.stream.hit true s_bit_rate).0 in
      let back = (unary_encode-Later m.gix idx_clamp j r' l.ready g.indices).0.back bytes hb c in
      let (e, em, t') = s_bit_r-Returns bytes more hb m.stream.hit r d true ready g.hits back t in
      let d' = (s_bit_r d m.stream.hit s_bit_rate).2 in
      let used = g.used in
      let (e2, em2, t2) =
        s_unary-unary_encode bytes more hb m.gix idx_clamp cap j r' d' (omega arith) l.ready
          g.indices c t' in
      let fits : leb m.stream.k (j + 1) ≡ false = ground arith in
      rw (e, em, e2, em2, fits, add-one j) (refl, refl, t2)

  pull_fresh-esc_encode :
      (cap : ℕ) (m : DeltaModel) (r : REnc) (d : RangeDec) (delta : ℤ)
      → IsI32 delta
      → IsReady r
      → IsDelta cap m
      → Contains bytes (esc_encode m r delta).0
      → Tracks bytes more r d
      → Returns bytes more hb
          (esc_encode m r delta).0
          delta
          (with_cache
            (esc_encode m r delta).1
            (mtf_insert_i32 m.stream.dic m.stream.k cap delta).0
            (mtf_insert_i32 m.stream.dic m.stream.k cap delta).1)
          (pull_fresh cap m d)
  unfolding esc_encode pull_fresh pull_escape
  pull_fresh-esc_encode cap m r d delta i32 ready g c t =
      let (l, hits) = re_bit-advances m.stream.hit r false ready g.hits in
      let r' = (re_bit r m.stream.hit false s_bit_rate).0 in
      let back = (bv_encode-Later m.dval r' delta l.ready g.escapes).0.back bytes hb c in
      let (e, em, t') = s_bit_r-Returns bytes more hb m.stream.hit r d false ready g.hits back t in
      let d' = (s_bit_r d m.stream.hit s_bit_rate).2 in
      let (e2, em2, t2) =
        s_bv-bv_encode bytes more hb m.dval r' d' delta i32 l.ready g.escapes c t' in
      rw (e, em, e2, em2) (refl, refl, t2)

  -- up_pull_delta returns every int32 that delta_xfer coded, and ends with the same cache and models.
  pub pull_delta-delta_encode :
      (cap : ℕ) (m : DeltaModel) (r : REnc) (d : RangeDec) (delta : ℤ)
      → IsI32 delta
      → IsReady r
      → IsDelta cap m
      → Contains bytes (delta_encode cap m r delta).0
      → Tracks bytes more r d
      → Returns bytes more hb
          (delta_encode cap m r delta).0
          delta
          (delta_encode cap m r delta).1
          (pull_delta cap m d)
  unfolding delta_encode pull_delta trans_encode esc_encode
  pull_delta-delta_encode cap m r d delta i32 ready g c t =
      elim (dr_transition-cases cap m.stream delta) [
        | inl w ↦
            let (e, em, t') =
              take_at-put_at bytes more hb m.stream.rep ri r d true ready g.reps (rw w.is at c) t in
            rw (w.is, e, em) (sym w.front, refl, t')
        | inr (inl w) ↦
            let (l, g') = fresh false in
            let c' : Contains bytes
                (hit_encode (with_cache after m.stream.k (mtf_promote_i32 m.stream.dic (suc w.j)))
                  r' w.j).0 =
              rw w.is at c in
            let back =
              (hit_encode-Later cap
                  (with_cache after m.stream.k (mtf_promote_i32 m.stream.dic (suc w.j))) r' w.j
                  l.ready (same_cache _ g')).0.back
                bytes hb c' in
            let (e, em, t') =
              take_at-put_at bytes more hb m.stream.rep ri r d false ready g.reps back t in
            let d' = (take_at m.stream.rep ri d).2 in
            let (e2, em2, t2) =
              pull_fresh-hit_encode cap after r' d' w.j w.inside l.ready (same_cache _ g') c' t' in
            rw (w.is, e, em) (e2 ∙ w.entry, em2, t2)
        | inr (inr w) ↦
            let (l, g') = fresh false in
            let c' : Contains bytes (esc_encode after r' delta).0 = rw w.is at c in
            let back =
              (esc_encode-Later cap after r' delta l.ready (same_cache _ g')).0.back bytes hb c' in
            let (e, em, t') =
              take_at-put_at bytes more hb m.stream.rep ri r d false ready g.reps back t in
            let d' = (take_at m.stream.rep ri d).2 in
            let (e2, em2, t2) =
              pull_fresh-esc_encode cap after r' d' delta i32 l.ready (same_cache _ g') c' t' in
            rw (w.is, e, em) (e2, em2, t2)
      ]
    where
      ri : ℕ
      ri = dr_rep_ctx m.stream.rh (m.stream.dic 0)

      r' : REnc
      r' = (put_at m.stream.rep ri r false).0

      -- The models between a repeat bit of 0 and the hit bit.
      after : DeltaModel
      after = record m {
        stream = record (m.stream) { rep = (put_at m.stream.rep ri r false).1; rh = 0 };
      }

      fresh : (b : Bool) → Later r (put_at m.stream.rep ri r b).0 × IsDelta cap (put_rep m r ri b)
      fresh b = put_rep-Later cap m r ri b ready g

      same_cache :
          (dic : ℕ → ℤ)
          → IsDelta cap (put_rep m r ri false)
          → IsDelta cap (with_cache after m.stream.k dic)
      same_cache dic h = record {
        reps = h.reps;
        hits = h.hits;
        used = h.used;
        indices = h.indices;
        escapes = h.escapes;
      }
