-- ===== src/Model/Unary.antt =====
-- The adaptive unary prefix: unary_xfer in its encoding mode (src/enc_rc.c) and up_s_unary
-- (src/patch_apply.h).
use ultra_patch.Base.{
  ℕ, zero, suc, ◌+◌, ◌≤◌, ◌≡◌, ap, ◌∙◌, Bool, true, false, List, ◌==◌, if◌then◌else◌, arith, ltb,
  Bool-cases, inl, inr,
}
use ultra_patch.Coder.Prob.{s_bit_rate}
use ultra_patch.Coder.Encoder.{REnc, re_bit}
use ultra_patch.Coder.Decoder.{RangeDec, s_bit_r}
use ultra_patch.Model.{update, AllProbs}
use ultra_patch.Coder.Renorm.{IsReady, Contains}
use ultra_patch.Coder.Value.{IsBytes}
use ultra_patch.Coder.Step.{Later, re_bit-Later, Later-trans, Returns, s_bit_r-re_bit}
use ultra_patch.Coder.Sync.{Tracks}
use ultra_patch.Coder.Prob.Bounds.{adapt-IsProb}

-- min(pos, clampmax), the index of the prior.
abbrev pub clamp : ℕ → ℕ → ℕ
clamp clampmax pos = if ltb pos clampmax then pos else clampmax

-- re_bit and up_s_bit on a[i], at the shared rate.
unfoldable pub put_at : (ℕ → ℕ) → ℕ → REnc → Bool → REnc × (ℕ → ℕ)
put_at a i r bit = let (r', p) = re_bit r (a i) bit s_bit_rate in (r', update a i p)

unfoldable pub take_at : (ℕ → ℕ) → ℕ → RangeDec → Bool × (ℕ → ℕ) × RangeDec
take_at a i d = let (b, p, d') = s_bit_r d (a i) s_bit_rate in (b, update a i p, d')

-- `left` ones from position `pos`, then the zero.
unfoldable pub unary_encode_loop : ℕ → ℕ → ℕ → (ℕ → ℕ) → REnc → REnc × (ℕ → ℕ)
unary_encode_loop zero pos clampmax u r = put_at u (clamp clampmax pos) r false
unary_encode_loop (suc left) pos clampmax u r =
    let (r', u') = put_at u (clamp clampmax pos) r true in
    unary_encode_loop left (pos + 1) clampmax u' r'

unfoldable pub unary_encode : (ℕ → ℕ) → ℕ → REnc → ℕ → REnc × (ℕ → ℕ)
unary_encode u clampmax r v = unary_encode_loop v 0 clampmax u r

-- `room` is cap - cl: a one that takes cl past the cap is the error.
unfoldable pub s_unary_loop : ℕ → ℕ → ℕ → (ℕ → ℕ) → RangeDec → ℕ × (ℕ → ℕ) × RangeDec
s_unary_loop zero cl clampmax u d =
    let (b, u', d') = take_at u (clamp clampmax cl) d in
    if b then (0, u', record d' { rcerr = true }) else (cl, u', d')
s_unary_loop (suc room) cl clampmax u d =
    let (b, u', d') = take_at u (clamp clampmax cl) d in
    let more = s_unary_loop room (cl + 1) clampmax u' d' in if b then more else (cl, u', d')

unfoldable pub s_unary : (ℕ → ℕ) → ℕ → ℕ → RangeDec → ℕ × (ℕ → ℕ) × RangeDec
s_unary u clampmax cap d = s_unary_loop cap 0 clampmax u d

pub put_at-Later :
    (a : ℕ → ℕ) (i : ℕ) (r : REnc) (bit : Bool)
    → IsReady r
    → AllProbs a
    → Later r (put_at a i r bit).0 × AllProbs (put_at a i r bit).1
unfolding put_at re_bit
put_at-Later a i r bit v h = (
  re_bit-Later r (a i) bit s_bit_rate v (h i),
  λ j. elim (Bool-cases (i == j)) [
    | inl e ↦ rw e (adapt-IsProb (a i) bit (h i)).0
    | inr e ↦ rw e (h j)
  ],
)

pub unary_encode_loop-Later :
    (left pos clampmax : ℕ) (u : ℕ → ℕ) (r : REnc)
    → IsReady r
    → AllProbs u
    → Later r (unary_encode_loop left pos clampmax u r).0
      × AllProbs (unary_encode_loop left pos clampmax u r).1
unfolding unary_encode_loop
unary_encode_loop-Later zero pos clampmax u r v h = put_at-Later u (clamp clampmax pos) r false v h
unary_encode_loop-Later (suc left) pos clampmax u r v h =
    let (l, h') = put_at-Later u (clamp clampmax pos) r true v h in
    let (l', h'') = unary_encode_loop-Later left (pos + 1) clampmax _ _ l.ready h' in
    (Later-trans l l', h'')

module _ (bytes more : List ℕ) (hb : IsBytes bytes) where
  pub take_at-put_at :
      (a : ℕ → ℕ) (i : ℕ) (r : REnc) (d : RangeDec) (bit : Bool)
      → IsReady r
      → AllProbs a
      → Contains bytes (put_at a i r bit).0
      → Tracks bytes more r d
      → Returns bytes more hb (put_at a i r bit).0 bit (put_at a i r bit).1 (take_at a i d)
  unfolding put_at take_at re_bit
  take_at-put_at a i r d bit v h c t =
      let (e, p, t') = s_bit_r-re_bit bytes more hb r d (a i) bit s_bit_rate v (h i) c t in
      (e, ap (λ x. update a i x) p, t')

  s_unary_loop-unary_encode_loop :
      (room left pos clampmax : ℕ) (u : ℕ → ℕ) (r : REnc) (d : RangeDec)
      → left ≤ room
      → IsReady r
      → AllProbs u
      → Contains bytes (unary_encode_loop left pos clampmax u r).0
      → Tracks bytes more r d
      → Returns bytes more hb
          (unary_encode_loop left pos clampmax u r).0
          (pos + left)
          (unary_encode_loop left pos clampmax u r).1
          (s_unary_loop room pos clampmax u d)
  unfolding unary_encode_loop s_unary_loop
  s_unary_loop-unary_encode_loop zero zero pos clampmax u r d h v hp c t =
      let (e, m, t') = take_at-put_at u (clamp clampmax pos) r d false v hp c t in
      rw e (omega arith, m, t')
  s_unary_loop-unary_encode_loop zero (suc left) pos clampmax u r d h v hp c t =
      absurd (omega arith)
  s_unary_loop-unary_encode_loop (suc room) zero pos clampmax u r d h v hp c t =
      let (e, m, t') = take_at-put_at u (clamp clampmax pos) r d false v hp c t in
      rw e (omega arith, m, t')
  s_unary_loop-unary_encode_loop (suc room) (suc left) pos clampmax u r d h v hp c t =
      let (l, hp') = put_at-Later u (clamp clampmax pos) r true v hp in
      let (r', u') = put_at u (clamp clampmax pos) r true in
      let c' =
        (unary_encode_loop-Later left (pos + 1) clampmax u' r' l.ready hp').0.back bytes hb c in
      let (e, m, t') = take_at-put_at u (clamp clampmax pos) r d true v hp c' t in
      let d' = (take_at u (clamp clampmax pos) d).2 in
      let ih =
        s_unary_loop-unary_encode_loop room left (pos + 1) clampmax u' r' d' (omega arith) l.ready
          hp' c t' in
      let sum : pos + 1 + left ≡ pos + suc left = omega arith in rw (e, m) (ih.0 ∙ sum, ih.1, ih.2)

  -- The reader returns any value up to its cap that the writer coded, with the same priors.
  pub s_unary-unary_encode :
      (u : ℕ → ℕ) (clampmax cap v : ℕ) (r : REnc) (d : RangeDec)
      → v ≤ cap
      → IsReady r
      → AllProbs u
      → Contains bytes (unary_encode u clampmax r v).0
      → Tracks bytes more r d
      → Returns bytes more hb
          (unary_encode u clampmax r v).0
          v
          (unary_encode u clampmax r v).1
          (s_unary u clampmax cap d)
  unfolding unary_encode s_unary
  s_unary-unary_encode u clampmax cap v r d h ready hp c t =
      let (e, m, t') = s_unary_loop-unary_encode_loop cap v 0 clampmax u r d h ready hp c t in
      (omega arith, m, t')

pub unary_encode-Later :
    (u : ℕ → ℕ) (clampmax v : ℕ) (r : REnc)
    → IsReady r
    → AllProbs u
    → Later r (unary_encode u clampmax r v).0 × AllProbs (unary_encode u clampmax r v).1
unfolding unary_encode
unary_encode-Later u clampmax v r ready hp = unary_encode_loop-Later v 0 clampmax u r ready hp
