-- ===== src/Model/Golomb/Bound.antt =====
-- The values that the Gamma reader of src/patch_apply.h can return, whatever the stream holds.
use native.Mathlib.Nat.{one-le-pow, pow-le-pow_right}
use ultra_patch.Base.{
  ℕ, zero, suc, ◌+◌, ◌-◌, ◌*◌, ◌^◌, ◌≤◌, ◌<◌, ◌≡◌, sym, ap, ◌∙◌, subst, Bool, true, false, arith,
  bit_or, Bool-cases, inl, inr, pow-suc,
}
use ultra_patch.Base.Bits.{bit_or_low}
use ultra_patch.Coder.Decoder.{RangeDec}
use ultra_patch.Model.{bit_value}
use ultra_patch.Model.Unary.{clamp, take_at, s_unary_loop, s_unary}
use ultra_patch.Model.Golomb.{
  UgGamma, gamma_unary_max, ug_ctx, ug_c, ugg_mant_idx, s_ug_mant, s_ug_gamma, sub32,
}

s_unary_loop-bound :
    (room cl clampmax : ℕ) (u : ℕ → ℕ) (d : RangeDec)
    → (s_unary_loop room cl clampmax u d).0 ≤ cl + room
unfolding s_unary_loop
s_unary_loop-bound zero cl clampmax u d =
    let (b, u', d') = take_at u (clamp clampmax cl) d in
    elim (Bool-cases b) [ inl e ↦ rw e (omega arith) | inr e ↦ rw e (omega arith) ]
s_unary_loop-bound (suc room) cl clampmax u d =
    let (b, u', d') = take_at u (clamp clampmax cl) d in
    let more = s_unary_loop-bound room (cl + 1) clampmax u' d' in
    elim (Bool-cases b) [ inl e ↦ rw e (omega arith) | inr e ↦ rw e (omega arith) ]

-- A digit below `q`, in units of `p`, the next unit being twice as large.
digit_below :
    (b : Bool) (q p next : ℕ)
    → next ≡ p * 2
    → 0 < p
    → (bit_value b * p < next)
      × (q * next + bit_value b * p ≡ (2 * q + bit_value b) * p)
      × ((2 * q + bit_value b + 1) * p ≤ (q + 1) * next)
digit_below true q p next e h =
    let m = ap (λ (t : ℕ). q * t) e in (omega arith, omega arith, omega arith)
digit_below false q p next e h =
    let m = ap (λ (t : ℕ). q * t) e in (omega arith, omega arith, omega arith)

-- The bits that are read stand below the ones before.
s_ug_mant-bound :
    (cnt : ℕ) (at : ℕ → ℕ) (a : ℕ → ℕ) (d : RangeDec) (q : ℕ)
    → (s_ug_mant cnt at a d (q * 2 ^ cnt)).0 < (q + 1) * 2 ^ cnt
unfolding s_ug_mant
s_ug_mant-bound zero at a d q = omega arith
s_ug_mant-bound (suc sig) at a d q =
    let (b, a', d') = take_at a (at sig) d in
    let one = one-le-pow sig 2 (omega arith) in
    let (bit, join, room) = digit_below b q (2 ^ sig) (2 ^ suc sig) (pow-suc 2 sig) (omega arith) in
    let sum = bit_or_low (suc sig) q (bit_value b * 2 ^ sig) bit ∙ join in
    let below = s_ug_mant-bound sig at a' d' (2 * q + bit_value b) in
    subst (λ v. (s_ug_mant sig at a' d' v).0 < (q + 1) * 2 ^ suc sig) (sym sum) (omega arith)

mant_small :
    (cnt : ℕ) (at : ℕ → ℕ) (a : ℕ → ℕ) (d : RangeDec) → (s_ug_mant cnt at a d 0).0 < 2 ^ cnt
mant_small cnt at a d =
    let nothing : 0 * 2 ^ cnt ≡ 0 = omega arith in
    let unit : (0 + 1) * 2 ^ cnt ≡ 2 ^ cnt = omega arith in
    subst (λ n. (s_ug_mant cnt at a d 0).0 < n) unit
      (subst (λ v. (s_ug_mant cnt at a d v).0 < (0 + 1) * 2 ^ cnt) nothing
        (s_ug_mant-bound cnt at a d 0))

gamma_value : (cl mant : ℕ) → cl ≤ 31 → mant < 2 ^ cl → sub32 (bit_or (2 ^ cl) mant) 1 < 0xffff_ffff
gamma_value cl mant h k =
    let unit : 2 ^ cl ≡ 1 * 2 ^ cl = omega arith in
    let join = ap (λ t. bit_or t mant) unit ∙ bit_or_low cl 1 mant k in
    let top : 2 ^ cl ≤ 2 ^ 31 = pow-le-pow_right {n = 2} (omega arith) h in
    let one = one-le-pow cl 2 (omega arith) in rw join (omega arith)

-- A Gamma value that is read is below 2^32 - 1, so that its successor does not wrap.
pub s_ug_gamma-bound : (g : UgGamma) (d : RangeDec) → (s_ug_gamma g d).0 < 0xffff_ffff
unfolding s_ug_gamma s_unary
s_ug_gamma-bound g d =
    let (cl, u', d') = s_unary g.u ug_ctx gamma_unary_max d in
    let at = λ (sig : ℕ). ugg_mant_idx (ug_c cl) (cl - 1 - sig) in
    gamma_value cl (s_ug_mant cl at g.m d' 0).0 (s_unary_loop-bound gamma_unary_max 0 ug_ctx g.u d)
      (mant_small cl at g.m d')
