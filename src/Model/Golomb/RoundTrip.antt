-- ===== src/Model/Golomb/RoundTrip.antt =====
-- Gamma and Rice codes read back.
use native.Mathlib.Nat.{add-mod_left, mod-eq_of_lt, pow-suc, one-le-pow}
use native.Mathlib.Numerals.{add-one}
use ultra_patch.Base.{
  ℕ, zero, suc, ◌+◌, ◌-◌, ◌*◌, ◌/◌, ◌%◌, ◌^◌, ◌≤◌, ◌<◌, ◌≡◌, refl, sym, ap, ◌∙◌, Bool, true, false,
  List, ◌==◌, arith, subst, inl, inr, bit_or,
}
use ultra_patch.Coder.Encoder.{REnc, bitlen32}
use ultra_patch.Coder.Decoder.{RangeDec}
use ultra_patch.Model.{bit_value, AllProbs}
use ultra_patch.Model.Unary.{
  put_at, take_at, unary_encode, s_unary, put_at-Later, take_at-put_at, unary_encode-Later,
  s_unary-unary_encode,
}
use ultra_patch.Model.Golomb.{
  mant_encode, s_ug_mant, UgGamma, ugg_encode, s_ug_gamma, ugg_put, ugg_mant_idx, ug_ctx, ug_c,
  gamma_unary_max, sub32,
}
use ultra_patch.Coder.Renorm.{IsReady, Contains}
use ultra_patch.Coder.Value.{IsBytes}
use ultra_patch.Coder.Step.{Later, Later-refl, Returns, Later-trans}
use ultra_patch.Coder.Sync.{Tracks}
use ultra_patch.Model.Digits.{digit_step}
use ultra_patch.Coder.Bitlen.{IsTopBit, bitlen32-IsTopBit, le_or_lt, two_pow_mono}
use ultra_patch.Base.Bits.{bit_or_low}

pub mant_encode-Later :
    (n : ℕ) (at a : ℕ → ℕ) (r : REnc) (v : ℕ)
    → IsReady r
    → AllProbs a
    → Later r (mant_encode n at a r v).0 × AllProbs (mant_encode n at a r v).1
unfolding mant_encode
mant_encode-Later zero at a r v ready h = (Later-refl r ready, h)
mant_encode-Later (suc sig) at a r v ready h =
    let (l, h') = put_at-Later a (at sig) r (v / 2 ^ sig % 2 == 1) ready h in
    let (l', h'') = mant_encode-Later sig at _ _ v l.ready h' in (Later-trans l l', h'')

or_bit :
    (acc q sig : ℕ) (bit : Bool)
    → acc ≡ q * 2 ^ suc sig
    → bit_or acc (bit_value bit * 2 ^ sig) ≡ (q * 2 + bit_value bit) * 2 ^ sig
or_bit acc q sig bit e =
    let p = pow-suc 2 sig in
    let small : bit_value bit * 2 ^ sig < 2 ^ suc sig = bit_small sig bit in
    rw e (
      bit_or_low (suc sig) q (bit_value bit * 2 ^ sig) small
      ∙ omega (arith, ap (λ (t : ℕ). q * t) p))
  where
    bit_small : (s : ℕ) (b : Bool) → bit_value b * 2 ^ s < 2 ^ suc s
    bit_small s true = omega (arith, pow-suc 2 s, one-le-pow s 2 (omega arith))
    bit_small s false = omega (arith, pow-suc 2 s, one-le-pow s 2 (omega arith))

module _ (bytes more : List ℕ) (hb : IsBytes bytes) where
  -- The bits go below the multiple of 2^n that `acc` is.
  pub s_ug_mant-mant_encode :
      (n : ℕ) (at a : ℕ → ℕ) (r : REnc) (d : RangeDec) (v acc q : ℕ)
      → acc ≡ q * 2 ^ n
      → IsReady r
      → AllProbs a
      → Contains bytes (mant_encode n at a r v).0
      → Tracks bytes more r d
      → Returns bytes more hb
          (mant_encode n at a r v).0
          (q * 2 ^ n + v % 2 ^ n)
          (mant_encode n at a r v).1
          (s_ug_mant n at a d acc)
  unfolding mant_encode s_ug_mant
  s_ug_mant-mant_encode zero at a r d v acc q e0 ready h c t = (omega arith, refl, t)
  s_ug_mant-mant_encode (suc sig) at a r d v acc q e0 ready h c t =
      let bit = v / 2 ^ sig % 2 == 1 in
      let (l, h') = put_at-Later a (at sig) r bit ready h in
      let (r', a') = put_at a (at sig) r bit in
      let c' = (mant_encode-Later sig at a' r' v l.ready h').0.back bytes hb c in
      let (e, m, t') = take_at-put_at bytes more hb a (at sig) r d bit ready h c' t in
      let d' = (take_at a (at sig) d).2 in
      let acc' = bit_or acc (bit_value bit * 2 ^ sig) in
      let ih =
        s_ug_mant-mant_encode sig at a' r' d' v acc' (q * 2 + bit_value bit)
          (or_bit acc q sig bit e0) l.ready h' c t' in
      let sum = sym (digit_step v q sig) in
      let (last, models) = mant_encode sig at a' r' v in
      let result = Returns bytes more hb last (q * 2 ^ suc sig + v % 2 ^ suc sig) models in
      subst
        (λ b.
          result
            (s_ug_mant sig at (take_at a (at sig) d).1 d' (bit_or acc (bit_value b * 2 ^ sig))))
        (sym e) (subst (λ x. result (s_ug_mant sig at x d' acc')) (sym m) (ih.0 ∙ sum, ih.1, ih.2))

-- The number of bits below the top bit of a word, and the word rebuilt from them.
top_bit_small : (v t : ℕ) → v < 2 ^ 32 → 2 ^ t ≤ v → t ≤ 31
top_bit_small v t h lo = elim (le_or_lt t 31) [
  | inl k ↦ k
  | inr k ↦ absurd (omega (arith, two_pow_mono 32 t k))
]

top_bit_split :
    (v t : ℕ)
    → v < 0xffff_ffff
    → IsTopBit (v + 1) t
    → (t ≤ 31) × (sub32 (bit_or (2 ^ t) (0 * 2 ^ t + (v + 1) % 2 ^ t)) 1 ≡ v)
top_bit_split v t h (lo, hi) =
    let e : v + 1 ≡ 2 ^ t + (v + 1 - 2 ^ t) = omega arith in
    let twice : 2 ^ (t + 1) ≡ 2 ^ t * 2 = rw (add-one t) (pow-suc 2 t) in
    let m : (v + 1) % 2 ^ t ≡ v + 1 - 2 ^ t =
      ap (λ (x : ℕ). x % 2 ^ t) e
      ∙ add-mod_left (2 ^ t) (v + 1 - 2 ^ t)
      ∙ mod-eq_of_lt (omega arith) in
    let low : 0 * 2 ^ t + (v + 1) % 2 ^ t ≡ v + 1 - 2 ^ t = omega arith in
    let one : 2 ^ t ≡ 1 * 2 ^ t = omega arith in
    let joined : bit_or (2 ^ t) (v + 1 - 2 ^ t) ≡ v + 1 =
      ap (λ (x : ℕ). bit_or x (v + 1 - 2 ^ t)) one
      ∙ bit_or_low t 1 (v + 1 - 2 ^ t) (omega arith)
      ∙ omega arith in
    (top_bit_small (v + 1) t (omega arith) lo, rw (low, joined) (omega arith))

abbrev pub GammaProbs : UgGamma → Type 0
GammaProbs g = AllProbs g.u × AllProbs g.m

ugg_put-Later :
    (g : UgGamma) (r : REnc) (mm cl : ℕ)
    → IsReady r
    → GammaProbs g
    → Later r (ugg_put g r mm cl).0 × GammaProbs (ugg_put g r mm cl).1
unfolding ugg_put
ugg_put-Later g r mm cl ready (hu, hm) =
    let (l, hu') = unary_encode-Later g.u ug_ctx cl r ready hu in
    let (l', hm') =
      mant_encode-Later cl (λ sig. ugg_mant_idx (ug_c cl) (cl - 1 - sig)) g.m _ mm l.ready hm in
    (Later-trans l l', (hu', hm'))

ugg_encode-eq :
    (g : UgGamma) (r : REnc) (v : ℕ)
    → v < 0xffff_ffff
    → ugg_encode g r v ≡ ugg_put g r (v + 1) (bitlen32 (v + 1) - 1)
unfolding ugg_encode
ugg_encode-eq g r v h = let e : (v == 0xffff_ffff) ≡ false = ground arith in rw e

-- Coding a Gamma value advances the encoder and keeps the model usable.
pub ugg_encode-Later :
    (g : UgGamma) (r : REnc) (v : ℕ)
    → v < 0xffff_ffff
    → IsReady r
    → GammaProbs g
    → Later r (ugg_encode g r v).0 × GammaProbs (ugg_encode g r v).1
ugg_encode-Later g r v h ready probs =
    rw (ugg_encode-eq g r v h) (ugg_put-Later g r (v + 1) (bitlen32 (v + 1) - 1) ready probs)

module _ (bytes more : List ℕ) (hb : IsBytes bytes) where
  s_ug_gamma-ugg_put :
      (g : UgGamma) (r : REnc) (d : RangeDec) (mm cl : ℕ)
      → cl ≤ 31
      → IsReady r
      → GammaProbs g
      → Contains bytes (ugg_put g r mm cl).0
      → Tracks bytes more r d
      → Returns bytes more hb
          (ugg_put g r mm cl).0
          (sub32 (bit_or (2 ^ cl) (0 * 2 ^ cl + mm % 2 ^ cl)) 1)
          (ugg_put g r mm cl).1
          (s_ug_gamma g d)
  unfolding ugg_put s_ug_gamma
  s_ug_gamma-ugg_put g r d mm cl h ready (hu, hm) c t =
      let at : ℕ → ℕ = λ sig. ugg_mant_idx (ug_c cl) (cl - 1 - sig) in
      let (l, hu') = unary_encode-Later g.u ug_ctx cl r ready hu in
      let r' = (unary_encode g.u ug_ctx r cl).0 in
      let c' = (mant_encode-Later cl at g.m r' mm l.ready hm).0.back bytes hb c in
      let (e, mu, t') =
        s_unary-unary_encode bytes more hb g.u ug_ctx gamma_unary_max cl r d h ready hu c' t in
      let (_cl, _u, d') = s_unary g.u ug_ctx gamma_unary_max d in
      let (e2, mm2, t2) =
        s_ug_mant-mant_encode bytes more hb cl at g.m r' d' mm 0 0 (omega arith) l.ready hm c t' in
      rw (e, mu)
        (
          ap (λ (x : ℕ). sub32 (bit_or (2 ^ cl) x) 1) e2,
          ap
              (λ (x : ℕ → ℕ).
                let y : UgGamma = record { u = (unary_encode g.u ug_ctx r cl).1; m = x } in y)
              mm2,
          t2,
        )

  -- up_s_ug_gamma returns every value below 2^32 - 1 that ugg_encode wrote, with the same model.
  pub s_ug_gamma-ugg_encode :
      (g : UgGamma) (r : REnc) (d : RangeDec) (v : ℕ)
      → v < 0xffff_ffff
      → IsReady r
      → GammaProbs g
      → Contains bytes (ugg_encode g r v).0
      → Tracks bytes more r d
      → Returns bytes more hb (ugg_encode g r v).0 v (ugg_encode g r v).1 (s_ug_gamma g d)
  s_ug_gamma-ugg_encode g r d v h ready probs c t =
      let top = (bitlen32-IsTopBit (v + 1) (omega arith) (omega arith)).1 in
      let (small, e) = top_bit_split v (bitlen32 (v + 1) - 1) h top in
      let c' = rw (ugg_encode-eq g r v h) at c in
      let (e2, m, t') =
        s_ug_gamma-ugg_put g r d (v + 1) (bitlen32 (v + 1) - 1) small ready probs c' t in
      rw (ugg_encode-eq g r v h) (e2 ∙ e, m, t')
