-- ===== src/Model/Golomb/Rice.antt =====
-- Rice codes read back, and the indices of the mantissa tables.
use native.Mathlib.Nat.{div-add-mod', one-le-pow, mod-lt}
use ultra_patch.Base.{
  ℕ, zero, suc, ◌+◌, ◌*◌, ◌/◌, ◌%◌, ◌^◌, ◌≤◌, ◌<◌, ◌≡◌, refl, ap, ◌∙◌, Bool, true, false, List,
  ◌==◌, if◌then◌else◌, arith, Bool-cases, inl, ltb, inr, ◌&&◌, not, bit_or,
}
use ultra_patch.Coder.Encoder.{REnc}
use ultra_patch.Coder.Decoder.{RangeDec}
use ultra_patch.Model.{AllProbs}
use ultra_patch.Model.Unary.{unary_encode, s_unary, unary_encode-Later, s_unary-unary_encode}
use ultra_patch.Model.Golomb.{
  UgRice, ugr_put, ugr_encode, s_ug_rice, rice_feasible, ug_c, rice_unary_max, ug_ctx, ugg_mant_idx,
  gamma_mant, u32,
}
use ultra_patch.Coder.Renorm.{IsReady, Contains}
use ultra_patch.Coder.Value.{IsBytes}
use ultra_patch.Coder.Step.{Later, Returns, Later-trans}
use ultra_patch.Coder.Sync.{Tracks}
use ultra_patch.Model.Golomb.RoundTrip.{mant_encode-Later, s_ug_mant-mant_encode}
use ultra_patch.Coder.Bitlen.{le_or_lt}
use ultra_patch.Base.Bits.{bit_or_low}

abbrev pub RiceProbs : UgRice → Type 0
RiceProbs g = AllProbs g.u × ((i : ℕ) → AllProbs (g.m i))

row-AllProbs :
    (i : ℕ) (row : ℕ → ℕ) (m : ℕ → ℕ → ℕ)
    → AllProbs row
    → ((j : ℕ) → AllProbs (m j))
    → (j : ℕ) → AllProbs (if i == j then row else m j)
row-AllProbs i row m hr hm j = elim (Bool-cases (i == j)) [ inl e ↦ rw e hr | inr e ↦ rw e (hm j) ]

ugr_put-Later :
    (g : UgRice) (r : REnc) (v cl : ℕ)
    → IsReady r
    → RiceProbs g
    → Later r (ugr_put g r v cl).0 × RiceProbs (ugr_put g r v cl).1
unfolding ugr_put
ugr_put-Later g r v cl ready (hu, hm) =
    let (l, hu') = unary_encode-Later g.u ug_ctx cl r ready hu in
    let (l', row) = mant_encode-Later g.k ug_c (g.m (ug_c cl)) _ v l.ready (hm (ug_c cl)) in
    (Later-trans l l', (hu', row-AllProbs (ug_c cl) _ g.m row hm))

pub ugr_encode-Later :
    (g : UgRice) (r : REnc) (v : ℕ)
    → rice_feasible v g.k ≡ true
    → IsReady r
    → RiceProbs g
    → Later r (ugr_encode g r v).0 × RiceProbs (ugr_encode g r v).1
unfolding ugr_encode
ugr_encode-Later g r v f ready probs = rw f (ugr_put-Later g r v (v / 2 ^ g.k) ready probs)

div_mono : (a b m : ℕ) → 0 < m → a ≤ b → a / m ≤ b / m
div_mono a b m pos h = elim (le_or_lt (a / m) (b / m)) [
  | inl k ↦ k
  | inr k ↦
      let step : (b / m + 1) * m ≤ a / m * m = grind arith in
      let lo = div-add-mod' a m in
      let hi = div-add-mod' b m in let r = mod-lt b pos in absurd (omega arith)
]

-- A feasible value passes the reader's test for an overlong quotient.
quotient_fits :
    (v k : ℕ)
    → v < 2 ^ 32
    → rice_feasible v k ≡ true
    → (v / 2 ^ k ≤ rice_unary_max) × (ltb (0xffff_ffff / 2 ^ k) (v / 2 ^ k) ≡ false)
unfolding rice_feasible
quotient_fits v k h f =
    let mono : v / 2 ^ k ≤ 0xffff_ffff / 2 ^ k =
      div_mono v 0xffff_ffff (2 ^ k) (one-le-pow k 2 (omega arith)) (omega arith) in
    (ground arith, ground arith)

and_false : (b : Bool) → (b && false) ≡ false
and_false true = refl
and_false false = refl

abbrev put_row : UgRice → ℕ → (ℕ → ℕ) → (ℕ → ℕ) → UgRice
put_row g cl u row = record g { u = u; m = λ i. if ug_c cl == i then row else g.m i }

-- A word is its quotient and its low bits.
rice_split : (v k : ℕ) → v < 2 ^ 32 → bit_or (u32 (v / 2 ^ k * 2 ^ k)) (0 * 2 ^ k + v % 2 ^ k) ≡ v
rice_split v k h =
    let whole = div-add-mod' v (2 ^ k) in
    let cut : u32 (v / 2 ^ k * 2 ^ k) ≡ v / 2 ^ k * 2 ^ k = omega arith in
    let low : 0 * 2 ^ k + v % 2 ^ k ≡ v % 2 ^ k = omega arith in
    rw (cut, low)
      (bit_or_low k (v / 2 ^ k) (v % 2 ^ k) (mod-lt v (one-le-pow k 2 (omega arith))) ∙ omega arith)

module _ (bytes more : List ℕ) (hb : IsBytes bytes) where
  -- up_s_ug_rice returns every word that is feasible for the parameter and that ugr_encode wrote, with
  -- the same model.
  pub s_ug_rice-ugr_encode :
      (g : UgRice) (r : REnc) (d : RangeDec) (v : ℕ)
      → v < 2 ^ 32
      → rice_feasible v g.k ≡ true
      → IsReady r
      → RiceProbs g
      → Contains bytes (ugr_encode g r v).0
      → Tracks bytes more r d
      → Returns bytes more hb (ugr_encode g r v).0 v (ugr_encode g r v).1 (s_ug_rice g d)
  unfolding ugr_encode ugr_put s_ug_rice
  s_ug_rice-ugr_encode g r d v word f ready (hu, hm) c0 t =
      let cl = v / 2 ^ g.k in
      let c : Contains bytes (ugr_put g r v cl).0 = rw f at c0 in
      let (short, fits) = quotient_fits v g.k word f in
      let (l, hu') = unary_encode-Later g.u ug_ctx cl r ready hu in
      let r' = (unary_encode g.u ug_ctx r cl).0 in
      let c' =
        (mant_encode-Later g.k ug_c (g.m (ug_c cl)) r' v l.ready (hm (ug_c cl))).0.back bytes hb
          c in
      let (e, mu, t') =
        s_unary-unary_encode bytes more hb g.u ug_ctx rice_unary_max cl r d short ready hu c' t in
      let (_cl, _u, d') = s_unary g.u ug_ctx rice_unary_max d in
      let (e2, row, t2) =
        s_ug_mant-mant_encode bytes more hb g.k ug_c (g.m (ug_c cl)) r' d' v 0 0 (omega arith)
          l.ready (hm (ug_c cl)) c t' in
      let whole = rice_split v g.k word in
      let ok = t'.supplies.clean in
      rw (f, e, mu, ok, fits, and_false (not (g.k == 0)))
        (
          ap (λ (x : ℕ). bit_or (u32 (cl * 2 ^ g.k)) x) e2 ∙ whole,
          ap (λ (x : ℕ → ℕ). put_row g cl (unary_encode g.u ug_ctx r cl).1 x) row,
          t2,
        )

-- For every bit position below the length `cl` of a Gamma value, the mantissa index lies in the compact
-- table, and every clamped index lies in a row of the square table.
pub mant_idx_bounds :
    (cl pos x : ℕ) → pos < cl → (ugg_mant_idx (ug_c cl) pos < gamma_mant) × (ug_c x < ug_ctx + 1)
unfolding ugg_mant_idx
mant_idx_bounds (suc zero) pos x h = ground arith
mant_idx_bounds (suc (suc zero)) pos x h = ground arith
mant_idx_bounds (suc (suc (suc zero))) pos x h = ground arith
mant_idx_bounds (suc (suc (suc (suc zero)))) pos x h = ground arith
mant_idx_bounds (suc (suc (suc (suc (suc zero))))) pos x h = ground arith
mant_idx_bounds (suc (suc (suc (suc (suc (suc cl)))))) pos x h = ground arith
mant_idx_bounds zero pos x h = absurd (omega arith)
