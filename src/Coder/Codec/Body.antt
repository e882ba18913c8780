-- ===== src/Coder/Codec/Body.antt =====
-- A whole body of symbols, from the start of the coder to the flush, and symbols in pairs.
use ultra_patch.Base.{ℕ, ◌≡◌, false, List, ◌∷◌, ◌++◌, length, ap₂}
use ultra_patch.Coder.Encoder.{REnc, re_init, re_flush_opt}
use ultra_patch.Coder.Decoder.{RangeDec, rc_init}
use ultra_patch.Coder.Value.{IsBytes}
use ultra_patch.Coder.Renorm.{IsReady, Contains}
use ultra_patch.Coder.Sync.{Tracks}
use ultra_patch.Coder.Step.{Later, Later-trans, Returns}
use ultra_patch.Coder.Flush.{re_flush_opt_lem}
use ultra_patch.Coder.RoundTrip.{re_init-IsReady, rc_init-Tracks}
use ultra_patch.Coder.Codec.{Codec, Every, put_all, take_all, put_all-Later, take_all-put_all}

-- What the reader makes of the flushed body of a run of symbols, with `more` behind it.
abbrev pub ReadsBack : {V M : Type 0} → Codec V M → M → List V → List ℕ → Type 0
ReadsBack c m vs more =
    (bytes : List ℕ) × (re_flush_opt (put_all c m re_init vs).0 ≡ 0 ∷ bytes)
    × ((take_all c (length vs) m (rc_init (bytes ++ more) (length bytes))).0 ≡ vs)
    × ((take_all c (length vs) m (rc_init (bytes ++ more) (length bytes))).2.rcerr ≡ false)

pub read_body :
    {V M : Type 0} (c : Codec V M) (m : M) (vs : List V) (more : List ℕ)
    → Every c.Fits vs
    → c.Good m
    → ReadsBack c m vs more
read_body c m vs more f g =
    let ready = (put_all-Later c m re_init vs f re_init-IsReady g).0.ready in
    let (bytes, e, hb, k) = re_flush_opt_lem (put_all c m re_init vs).0 ready in
    let start = rc_init-Tracks bytes more hb in
    let (same, models, t) =
      take_all-put_all c bytes more hb m re_init _ vs f re_init-IsReady g k start in
    (bytes, e, same, t.supplies.clean)

-- A symbol of one kind and then a symbol of another, on models of their own.
module _ {V M W N : Type 0} (c : Codec V M) (s : Codec W N) where
  abbrev pub pair_put : M × N → REnc → V × W → REnc × (M × N)
  pair_put (m, n) r (v, w) =
      let (r', m') = c.put m r v in let (r'', n') = s.put n r' w in (r'', (m', n'))

  abbrev pub pair_take : M × N → RangeDec → (V × W) × (M × N) × RangeDec
  pair_take (m, n) d =
      let (v, m', d') = c.take m d in let (w, n', d'') = s.take n d' in ((v, w), (m', n'), d'')

  pub pair_advances :
      (m : M × N) (r : REnc) (v : V × W)
      → c.Fits v.0 × s.Fits v.1
      → IsReady r
      → c.Good m.0 × s.Good m.1
      → Later r (pair_put m r v).0 × (c.Good (pair_put m r v).1.0 × s.Good (pair_put m r v).1.1)
  pair_advances (m, n) r (v, w) (fv, fw) ready (gm, gn) =
      let (l, gm') = c.advances m r v fv ready gm in
      let (l', gn') = s.advances n _ w fw l.ready gn in (Later-trans l l', (gm', gn'))

  pub pair-Returns :
      (bytes more : List ℕ) (hb : IsBytes bytes) (m : M × N) (r : REnc) (d : RangeDec) (v : V × W)
      → c.Fits v.0 × s.Fits v.1
      → IsReady r
      → c.Good m.0 × s.Good m.1
      → Contains bytes (pair_put m r v).0
      → Tracks bytes more r d
      → Returns bytes more hb (pair_put m r v).0 v (pair_put m r v).1 (pair_take m d)
  pair-Returns bytes more hb (m, n) r d (v, w) (fv, fw) ready (gm, gn) k t =
      let (l, gm') = c.advances m r v fv ready gm in
      let (r', m') = c.put m r v in
      let k' = (s.advances n r' w fw l.ready gn).0.back bytes hb k in
      let (e, em, t') = c.returns bytes more hb m r d v fv ready gm k' t in
      let (e2, em2, t2) = s.returns bytes more hb n r' (c.take m d).2 w fw l.ready gn k t' in
      (ap₂ (λ (x : V) (y : W). (x, y)) e e2, ap₂ (λ (x : M) (y : N). (x, y)) em em2, t2)

  abbrev pub pair_codec : Codec (V × W) (M × N)
  pair_codec = record {
    put = pair_put;
    take = pair_take;
    Good = λ m. c.Good m.0 × s.Good m.1;
    Fits = λ v. c.Fits v.0 × s.Fits v.1;
    advances = pair_advances;
    returns = pair-Returns;
  }
