-- ===== src/Model/Golomb.antt =====
-- The Gamma and Rice codes: ugg_xfer and ugr_xfer in their encoding mode (src/enc_rc.c),
-- up_s_ug_mant, up_s_ug_mant_gamma, up_s_ug_rice and up_s_ug_gamma (src/patch_apply.h), with
-- rc_rice_feasible, rc_ugg_mant_idx and the initial models of src/rc_models.h.
pub mod RoundTrip
pub mod Bound
pub mod Rice
use ultra_patch.Base.{
  ℕ, zero, suc, ◌+◌, ◌-◌, ◌*◌, ◌/◌, ◌%◌, ◌^◌, ◌≤◌, ◌<◌, ◌≡◌, refl, sym, ap, ◌∙◌, Bool, true, false,
  List, ◌==◌, if◌then◌else◌, arith, ltb, ◌||◌, ◌&&◌, not, leb, bit_or,
}
use ultra_patch.Coder.Encoder.{REnc, bitlen32}
use ultra_patch.Coder.Decoder.{RangeDec}
use ultra_patch.Model.{update, bit_value, AllProbs}
use ultra_patch.Model.Unary.{clamp, put_at, take_at, unary_encode, s_unary}
use ultra_patch.Coder.Prob.{phalf, pbit}
use ultra_patch.Base.Word.{u8, sub32, u32}

-- UP_UG_CTX, UP_RC_UNARY_MAX and RC_RICE_UNARY_MAX
abbrev pub ug_ctx : ℕ
ug_ctx = 6

abbrev pub gamma_unary_max : ℕ
gamma_unary_max = 31

abbrev pub rice_unary_max : ℕ
rice_unary_max = 2 ^ 20

abbrev pub ug_c : ℕ → ℕ
ug_c x = if ltb x ug_ctx then x else ug_ctx

-- UP_UG_GAMMA_MANT
abbrev pub gamma_mant : ℕ
gamma_mant = ug_ctx * (ug_ctx - 1) / 2 + (ug_ctx + 1)

unfoldable pub ugg_mant_idx : ℕ → ℕ → ℕ
ugg_mant_idx row pos =
    if ltb row ug_ctx then row * (row - 1) / 2 + pos else ug_ctx * (ug_ctx - 1) / 2 + ug_c pos

pub record UgGamma : Type 0 where
  pub u : ℕ → ℕ
  pub m : ℕ → ℕ

pub record UgRice : Type 0 where
  pub k : ℕ
  pub u : ℕ → ℕ
  pub m : ℕ → ℕ → ℕ

unfoldable pub ugg_init : UgGamma
ugg_init = record { u = λ i. phalf; m = λ i. phalf }

unfoldable pub ugr_init : ℕ → UgRice
ugr_init k = record { k = u8 k; u = λ i. phalf; m = λ i j. phalf }

-- rc_seed_cont_u and rc_ugg_seed_cont: the first priors lean towards a one.
unfoldable pub ugg_seed_cont : UgGamma → ℕ → UgGamma
ugg_seed_cont g depth = record g {
  u = λ i. if ltb i depth && leb i ug_ctx then pbit / 16 else g.u i;
}

unfoldable pub rice_feasible : ℕ → ℕ → Bool
rice_feasible v k = ltb k 32 && leb (v / 2 ^ k) rice_unary_max

-- The `left` lowest bits of `v`, the top one first; `at` gives the prior for the count of bits below.
unfoldable pub mant_encode : ℕ → (ℕ → ℕ) → (ℕ → ℕ) → REnc → ℕ → REnc × (ℕ → ℕ)
mant_encode zero at a r v = (r, a)
mant_encode (suc sig) at a r v =
    let (r', a') = put_at a (at sig) r (v / 2 ^ sig % 2 == 1) in mant_encode sig at a' r' v

-- v |= bit << sig, from bit `left - 1` down.
unfoldable pub s_ug_mant : ℕ → (ℕ → ℕ) → (ℕ → ℕ) → RangeDec → ℕ → ℕ × (ℕ → ℕ) × RangeDec
s_ug_mant zero at a d v = (v, a, d)
s_ug_mant (suc sig) at a d v =
    let (b, a', d') = take_at a (at sig) d in
    s_ug_mant sig at a' d' (bit_or v (bit_value b * 2 ^ sig))

-- Gamma ships v + 1: the count of bits below its top bit in unary, then those bits.
unfoldable pub ugg_put : UgGamma → REnc → ℕ → ℕ → REnc × UgGamma
ugg_put g r mm cl =
    let (r', u') = unary_encode g.u ug_ctx r cl in
    let (r'', m') = mant_encode cl (λ sig. ugg_mant_idx (ug_c cl) (cl - 1 - sig)) g.m r' mm in
    (r'', record { u = u'; m = m' })

unfoldable pub ugg_encode : UgGamma → REnc → ℕ → REnc × UgGamma
unfolding ugg_put
ugg_encode g r v =
    if v == 0xffff_ffff
    then (record r { coding_overflow = true }, g)
    else ugg_put g r (v + 1) (bitlen32 (v + 1) - 1)

unfoldable pub s_ug_gamma : UgGamma → RangeDec → ℕ × UgGamma × RangeDec
s_ug_gamma g d =
    let (cl, u', d') = s_unary g.u ug_ctx gamma_unary_max d in
    let (mant, m', d'') = s_ug_mant cl (λ sig. ugg_mant_idx (ug_c cl) (cl - 1 - sig)) g.m d' 0 in
    (sub32 (bit_or (2 ^ cl) mant) 1, record { u = u'; m = m' }, d'')

-- Rice ships v >> k in unary, then the k lowest bits, in the row of the clamped quotient.
unfoldable pub ugr_put : UgRice → REnc → ℕ → ℕ → REnc × UgRice
ugr_put g r v cl =
    let (r', u') = unary_encode g.u ug_ctx r cl in
    let (r'', row) = mant_encode g.k ug_c (g.m (ug_c cl)) r' v in
    (r'', record g { u = u'; m = λ i. if ug_c cl == i then row else g.m i })

unfoldable pub ugr_encode : UgRice → REnc → ℕ → REnc × UgRice
unfolding ugr_put
ugr_encode g r v =
    if rice_feasible v g.k
    then ugr_put g r v (v / 2 ^ g.k)
    else (record r { coding_overflow = true }, g)

unfoldable pub s_ug_rice : UgRice → RangeDec → ℕ × UgRice × RangeDec
s_ug_rice g d =
    let (cl, u', d') = s_unary g.u ug_ctx rice_unary_max d in
    let (mant, row, d'') = s_ug_mant g.k ug_c (g.m (ug_c cl)) d' 0 in
    if d'.rcerr || (not (g.k == 0) && ltb (0xffff_ffff / 2 ^ g.k) cl)
    then (0, record g { u = u' }, record d' { rcerr = true })
    else (
      bit_or (u32 (cl * 2 ^ g.k)) mant,
      record g { u = u'; m = λ i. if ug_c cl == i then row else g.m i },
      d'',
    )
