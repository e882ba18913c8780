-- ===== src/Model/Init.antt =====
-- The models at the start of a body: up_idx_init, up_fl_init, rc_init_prekd and rc_init_tok of
-- src/rc_models.h, with the groups of models that both sides hold.
use ultra_patch.Base.{
  ℕ, ◌+◌, ◌-◌, ◌*◌, ◌/◌, ◌%◌, ◌^◌, Bool, arith, ltb, leb, ◌&&◌, Bool-cases, inl, inr,
}
use ultra_patch.Coder.Prob.{phalf, pbit, IsProb}
use ultra_patch.Model.{AllProbs, AllByteProbs, bit_value}
use ultra_patch.Model.Tree.{bt_init}
use ultra_patch.Model.Golomb.{UgGamma, UgRice, ugg_init, ugr_init, ugg_seed_cont}
use ultra_patch.Model.Golomb.RoundTrip.{GammaProbs}
use ultra_patch.Model.Golomb.Rice.{RiceProbs}

-- RC_IDX_SEED
unfoldable pub idx_init : ℕ → ℕ
idx_init i = 2816

-- The order-2 token flag: a probability for each of the last two flags, and those flags.
pub record Flag1 : Type 0 where
  pub m : ℕ → ℕ
  pub h : ℕ

unfoldable pub fl_init : Flag1
fl_init = record { m = λ i. phalf; h = 0 }

unfoldable pub fl_hist : ℕ → Bool → ℕ
fl_hist h b = (h * 2 + bit_value b) % 4

pub record PreKdModels : Type 0 where
  pub dval : ℕ → ℕ
  pub dibl : ℕ → ℕ
  pub diex : ℕ → ℕ
  pub gdl : UgGamma
  pub gel : UgGamma
  pub gadj : UgGamma

pub record TokModels : Type 0 where
  pub gd : UgRice
  pub go : UgRice
  pub gl : UgGamma
  pub gs : UgGamma
  pub glo : UgGamma
  pub outb : ℕ
  pub flag : Flag1
  pub rep0 : ℕ → ℕ

-- The depths are RC_SEED_DEPTH_GDL and RC_SEED_DEPTH_GADJ.
unfoldable pub init_prekd : PreKdModels
init_prekd = record {
  dval = bt_init;
  dibl = idx_init;
  diex = idx_init;
  gdl = ugg_seed_cont ugg_init 6;
  gel = ugg_init;
  gadj = ugg_seed_cont ugg_init 3;
}

-- RC_SEED_DEPTH_GL is 1, RC_REP0_INIT is three quarters of the scale.
unfoldable pub init_tok : ℕ → ℕ → TokModels
init_tok kd ko = record {
  gd = ugr_init kd;
  go = ugr_init ko;
  gl = ugg_seed_cont ugg_init 1;
  gs = ugg_init;
  glo = ugg_init;
  outb = phalf;
  flag = fl_init;
  rep0 = λ i. pbit - pbit / 2 ^ 2;
}

pub ugg_init-GammaProbs : GammaProbs ugg_init
unfolding ugg_init
ugg_init-GammaProbs = (λ i. (omega arith, omega arith), λ i. (omega arith, omega arith))

pub ugr_init-RiceProbs : (k : ℕ) → RiceProbs (ugr_init k)
unfolding ugr_init
ugr_init-RiceProbs k = (λ i. (omega arith, omega arith), λ i j. (omega arith, omega arith))

-- Seeding keeps every prior usable.
pub ugg_seed_cont-GammaProbs :
    (g : UgGamma) (depth : ℕ) → GammaProbs g → GammaProbs (ugg_seed_cont g depth)
unfolding ugg_seed_cont
ugg_seed_cont-GammaProbs g depth (hu, hm) = (
  λ i. elim (Bool-cases (ltb i depth && leb i 6)) [
    | inl e ↦ rw e (omega arith, omega arith)
    | inr e ↦ rw e (hu i)
  ],
  hm,
)

pub record IsPreKd (m : PreKdModels) : Type 0 where
  pub escapes : AllByteProbs m.dval
  pub bl_indices : AllProbs m.dibl
  pub ex_indices : AllProbs m.diex
  pub diff_lens : GammaProbs m.gdl
  pub extra_lens : GammaProbs m.gel
  pub adjs : GammaProbs m.gadj

pub record IsTok (m : TokModels) : Type 0 where
  pub dists : RiceProbs m.gd
  pub outs : RiceProbs m.go
  pub match_lens : GammaProbs m.gl
  pub span_lens : GammaProbs m.gs
  pub out_lens : GammaProbs m.glo
  pub out_enable : IsProb m.outb
  pub flags : AllProbs m.flag.m
  pub reuses : AllProbs m.rep0

-- For every pair of Rice parameters, every probability of both groups of models starts strictly between
-- the ends of its scale.
pub init_groups : (kd ko : ℕ) → IsPreKd init_prekd × IsTok (init_tok kd ko)
unfolding init_prekd init_tok bt_init idx_init fl_init
init_groups kd ko = (
  record {
    escapes = λ i. (omega arith, omega arith);
    bl_indices = λ i. (omega arith, omega arith);
    ex_indices = λ i. (omega arith, omega arith);
    diff_lens = ugg_seed_cont-GammaProbs ugg_init 6 ugg_init-GammaProbs;
    extra_lens = ugg_init-GammaProbs;
    adjs = ugg_seed_cont-GammaProbs ugg_init 3 ugg_init-GammaProbs;
  },
  record {
    dists = ugr_init-RiceProbs kd;
    outs = ugr_init-RiceProbs ko;
    match_lens = ugg_seed_cont-GammaProbs ugg_init 1 ugg_init-GammaProbs;
    span_lens = ugg_init-GammaProbs;
    out_lens = ugg_init-GammaProbs;
    out_enable = (omega arith, omega arith);
    flags = λ i. (omega arith, omega arith);
    reuses = λ i. (omega arith, omega arith);
  },
)
