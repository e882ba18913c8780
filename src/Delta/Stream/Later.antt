-- ===== src/Delta/Stream/Later.antt =====
-- Coding a delta keeps the encoder between two bits and the models usable.
use ultra_patch.Base.{ℕ, ◌≤◌, ◌<◌, Bool, true, false, inl, inr}
use ultra_patch.Base.Int.{ℤ}
use ultra_patch.Coder.Prob.{IsProb}
use ultra_patch.Coder.Encoder.{REnc}
use ultra_patch.Coder.Renorm.{IsReady}
use ultra_patch.Coder.Step.{Later, Later-refl, Later-trans}
use ultra_patch.Model.{AllProbs, AllByteProbs}
use ultra_patch.Delta.Cache.{DrTrans, rep_tr, hit_tr, esc_tr, died, dr_transition}
use ultra_patch.Delta.Stream.{
  DeltaModel, hit_encode, esc_encode, trans_encode, delta_encode, idx_clamp, put_at,
}
use ultra_patch.Model.Codecs.{re_bit-advances}
use ultra_patch.Model.Unary.{unary_encode-Later, put_at-Later}
use ultra_patch.Delta.Escape.{bv_encode-Later}
use ultra_patch.Delta.Cache.Transition.{dr_transition-used, dr_transition-cases}

-- Usable models, and a cache with at least one entry in use and at most `cap`.
pub record IsDelta (cap : ℕ) (m : DeltaModel) : Type 0 where
  pub reps : AllProbs m.stream.rep
  pub hits : IsProb m.stream.hit
  pub used : (0 < m.stream.k) × (m.stream.k ≤ cap)
  pub indices : AllProbs m.gix
  pub escapes : AllByteProbs m.dval

pub hit_encode-Later :
    (cap : ℕ) (m : DeltaModel) (r : REnc) (idx : ℕ)
    → IsReady r
    → IsDelta cap m
    → Later r (hit_encode m r idx).0 × IsDelta cap (hit_encode m r idx).1
unfolding hit_encode
hit_encode-Later cap m r idx ready g =
    let (l, hits) = re_bit-advances m.stream.hit r true ready g.hits in
    let (l', indices) = unary_encode-Later m.gix idx_clamp idx _ l.ready g.indices in
    (
      Later-trans l l',
      record { reps = g.reps; hits = hits; used = g.used; indices = indices; escapes = g.escapes },
    )

pub esc_encode-Later :
    (cap : ℕ) (m : DeltaModel) (r : REnc) (delta : ℤ)
    → IsReady r
    → IsDelta cap m
    → Later r (esc_encode m r delta).0 × IsDelta cap (esc_encode m r delta).1
unfolding esc_encode
esc_encode-Later cap m r delta ready g =
    let (l, hits) = re_bit-advances m.stream.hit r false ready g.hits in
    let (l', escapes) = bv_encode-Later m.dval _ delta l.ready g.escapes in
    (
      Later-trans l l',
      record { reps = g.reps; hits = hits; used = g.used; indices = g.indices; escapes = escapes },
    )

-- `m` after its repeat bit.
abbrev pub put_rep : DeltaModel → REnc → ℕ → Bool → DeltaModel
put_rep m r ri b = record m { stream = record (m.stream) { rep = (put_at m.stream.rep ri r b).1 } }

pub put_rep-Later :
    (cap : ℕ) (m : DeltaModel) (r : REnc) (ri : ℕ) (b : Bool)
    → IsReady r
    → IsDelta cap m
    → Later r (put_at m.stream.rep ri r b).0 × IsDelta cap (put_rep m r ri b)
put_rep-Later cap m r ri b ready g =
    let (l, reps) = put_at-Later m.stream.rep ri r b ready g.reps in
    (
      l,
      record {
        reps = reps;
        hits = g.hits;
        used = g.used;
        indices = g.indices;
        escapes = g.escapes;
      },
    )

trans_encode-Later :
    (cap : ℕ) (m : DeltaModel) (r : REnc) (delta : ℤ) (ri : ℕ) (t : DrTrans)
    → IsReady r
    → IsDelta cap m
    → Later r (trans_encode m r delta ri t).0 × IsDelta cap (trans_encode m r delta ri t).1
unfolding trans_encode
trans_encode-Later cap m r delta ri rep_tr ready g = put_rep-Later cap m r ri true ready g
trans_encode-Later cap m r delta ri (hit_tr idx) ready g =
    let (l, g') = put_rep-Later cap m r ri false ready g in
    let (l', g'') = hit_encode-Later cap (put_rep m r ri false) _ idx l.ready g' in
    (Later-trans l l', g'')
trans_encode-Later cap m r delta ri esc_tr ready g =
    let (l, g') = put_rep-Later cap m r ri false ready g in
    let (l', g'') = esc_encode-Later cap (put_rep m r ri false) _ delta l.ready g' in
    (Later-trans l l', g'')
trans_encode-Later cap m r delta ri died ready g = (Later-refl r ready, g)

-- `m` with the stream after the transition for a delta.
abbrev moved : ℕ → DeltaModel → ℤ → DeltaModel
moved cap m delta = record m { stream = (dr_transition cap m.stream delta).2 }

kept_used :
    (cap : ℕ) (m : DeltaModel) (delta : ℤ)
    → IsDelta cap m
    → (0 < (dr_transition cap m.stream delta).2.k) × ((dr_transition cap m.stream delta).2.k ≤ cap)
kept_used cap m delta g = dr_transition-used cap m.stream delta g.used.0 g.used.1

moved-IsDelta :
    (cap : ℕ) (m : DeltaModel) (delta : ℤ) → IsDelta cap m → IsDelta cap (moved cap m delta)
moved-IsDelta cap m delta g = elim (dr_transition-cases cap m.stream delta) [
  | inl c ↦ let u = rw c.is at (kept_used cap m delta g) in rw c.is (keep u)
  | inr (inl c) ↦ let u = rw c.is at (kept_used cap m delta g) in rw c.is (keep u)
  | inr (inr c) ↦ let u = rw c.is at (kept_used cap m delta g) in rw c.is (keep u)
]
  where
    keep :
        {k : ℕ} {rh : ℕ} {dic : ℕ → ℤ}
        → (0 < k) × (k ≤ cap)
        → IsDelta cap (record m { stream = record (m.stream) { k = k; rh = rh; dic = dic } })
    keep u = record {
      reps = g.reps;
      hits = g.hits;
      used = u;
      indices = g.indices;
      escapes = g.escapes;
    }

-- Coding a delta advances the encoder and keeps the models usable.
pub delta_encode-Later :
    (cap : ℕ) (m : DeltaModel) (r : REnc) (delta : ℤ)
    → IsReady r
    → IsDelta cap m
    → Later r (delta_encode cap m r delta).0 × IsDelta cap (delta_encode cap m r delta).1
unfolding delta_encode
delta_encode-Later cap m r delta ready g =
    let (ri, t, s) = dr_transition cap m.stream delta in
    trans_encode-Later cap (moved cap m delta) r delta ri t ready (moved-IsDelta cap m delta g)
