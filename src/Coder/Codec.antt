-- ===== src/Coder/Codec.antt =====
-- What a symbol of the body promises: a writer and a reader that share an adaptive model. A codec
-- carries over to runs of symbols, and two codecs to a codec of pairs.
pub mod Body
use ultra_patch.Base.{
  ℕ, zero, suc, ◌≡◌, refl, sym, ap, ◌∙◌, Bool, true, false, List, [], ◌∷◌, ◌++◌, length, subst,
}
use ultra_patch.Coder.Encoder.{REnc, re_init, re_flush_opt}
use ultra_patch.Coder.Decoder.{RangeDec, rc_init}
use ultra_patch.Coder.Value.{IsBytes}
use ultra_patch.Coder.Renorm.{IsReady, Contains}
use ultra_patch.Coder.Sync.{Tracks}
use ultra_patch.Coder.Step.{Later, Later-refl, Later-trans, Returns}

-- Operations and laws of one kind of symbol with values V and models M.
pub record Codec (V M : Type 0) : Type 1 where
  pub put : M → REnc → V → REnc × M
  pub take : M → RangeDec → V × M × RangeDec
  pub Good : M → Type 0
  pub Fits : V → Type 0
  pub advances :
      (m : M) (r : REnc) (v : V)
      → Fits v
      → IsReady r
      → Good m
      → Later r (put m r v).0 × Good (put m r v).1
  pub returns :
      (bytes more : List ℕ) (hb : IsBytes bytes) (m : M) (r : REnc) (d : RangeDec) (v : V)
      → Fits v
      → IsReady r
      → Good m
      → Contains bytes (put m r v).0
      → Tracks bytes more r d
      → Returns bytes more hb (put m r v).0 v (put m r v).1 (take m d)

unfoldable pub Every : {V : Type 0} → (V → Type 0) → List V → Type 0
Every P [] = Unit {0}
Every P (v ∷ vs) = P v × Every P vs

module _ {V M : Type 0} (c : Codec V M) where
  unfoldable pub put_all : M → REnc → List V → REnc × M
  put_all m r [] = (r, m)
  put_all m r (v ∷ vs) = let (r', m') = c.put m r v in put_all m' r' vs

  unfoldable pub take_all : ℕ → M → RangeDec → List V × M × RangeDec
  take_all zero m d = ([], m, d)
  take_all (suc n) m d =
      let (v, m', d') = c.take m d in let (vs, m'', d'') = take_all n m' d' in (v ∷ vs, m'', d'')

  pub put_all-Later :
      (m : M) (r : REnc) (vs : List V)
      → Every c.Fits vs
      → IsReady r
      → c.Good m
      → Later r (put_all m r vs).0 × c.Good (put_all m r vs).1
  unfolding put_all Every
  put_all-Later m r [] f v g = (Later-refl r v, g)
  put_all-Later m r (x ∷ vs) (fx, f) v g =
      let (l, g') = c.advances m r x fx v g in
      let (l', g'') = put_all-Later (c.put m r x).1 (c.put m r x).0 vs f l.ready g' in
      (Later-trans l l', g'')

  pub take_all-put_all :
      (bytes more : List ℕ) (hb : IsBytes bytes) (m : M) (r : REnc) (d : RangeDec) (vs : List V)
      → Every c.Fits vs
      → IsReady r
      → c.Good m
      → Contains bytes (put_all m r vs).0
      → Tracks bytes more r d
      → Returns bytes more hb (put_all m r vs).0 vs (put_all m r vs).1 (take_all (length vs) m d)
  unfolding put_all take_all Every
  take_all-put_all bytes more hb m r d [] f v g k t = (refl, refl, t)
  take_all-put_all bytes more hb m r d (x ∷ vs) (fx, f) v g k t =
      let (l, g') = c.advances m r x fx v g in
      let (r', m') = c.put m r x in
      let k' = (put_all-Later m' r' vs f l.ready g').0.back bytes hb k in
      let (e, em, t') = c.returns bytes more hb m r d x fx v g k' t in
      let d' = (c.take m d).2 in
      let ih = take_all-put_all bytes more hb m' r' d' vs f l.ready g' k t' in
      let joined : V → M → List V × M × RangeDec =
        λ y mm. let (ys, m2, d2) = take_all (length vs) mm d' in (y ∷ ys, m2, d2) in
      let (last, models) = put_all m' r' vs in
      let result = Returns bytes more hb last (x ∷ vs) models in
      subst (λ y. result (joined y (c.take m d).1)) (sym e)
        (subst (λ mm. result (joined x mm)) (sym em) (ap (λ (y : List V). x ∷ y) ih.0, ih.1, ih.2))
