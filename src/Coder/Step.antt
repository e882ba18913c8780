-- ===== src/Coder/Step.antt =====
-- One adaptive or raw bit on both sides: the decoder's bit, its adapted probability and its state
-- agree with the encoder's.
use ultra_patch.Base.{ℕ, ◌/◌, ◌≡◌, ap, Bool, List}
use ultra_patch.Coder.Prob.{prob_bound, adapt, IsProb, Splits}
use ultra_patch.Coder.Prob.Bounds.{prob_bound-Splits, raw_bound-Splits}
use ultra_patch.Coder.Encoder.{REnc, code_bit, re_bit, re_raw}
use ultra_patch.Coder.Decoder.{RangeDec, rc_decode, s_bit_r, s_raw}
use ultra_patch.Coder.Value.{IsBytes}
use ultra_patch.Coder.Renorm.{IsReady, Contains, code_bit-IsReady, Contains-code_bit}
use ultra_patch.Coder.Sync.{Tracks, rc_decode-code_bit}

-- `s` is a later state of the encoder than `r`.
pub record Later (r s : REnc) : Type 0 where
  pub ready : IsReady s
  pub back : (bytes : List ℕ) → IsBytes bytes → Contains bytes s → Contains bytes r

pub Later-refl : (r : REnc) → IsReady r → Later r r
Later-refl r v = record { ready = v; back = λ bytes hb c. c }

pub Later-trans : {r s t : REnc} → Later r s → Later s t → Later r t
Later-trans p q = record {
  ready = q.ready;
  back = λ bytes hb c. p.back bytes hb (q.back bytes hb c);
}

pub code_bit-Later :
    (r : REnc) (bound : ℕ) (bit : Bool)
    → IsReady r
    → Splits bound r.range
    → Later r (code_bit r bound bit)
code_bit-Later r bound bit v s = record {
  ready = code_bit-IsReady r bound bit v s;
  back = λ bytes hb c. (Contains-code_bit bytes r bound bit hb v s c).1;
}

pub re_bit-Later :
    (r : REnc) (p : ℕ) (bit : Bool) (rate : ℕ)
    → IsReady r
    → IsProb p
    → Later r (re_bit r p bit rate).0
unfolding re_bit
re_bit-Later r p bit rate v hp =
    code_bit-Later r (prob_bound r.range p) bit v (prob_bound-Splits r.range p v.wide hp)

pub re_raw-Later : (r : REnc) (bit : Bool) → IsReady r → Later r (re_raw r bit)
unfolding re_raw
re_raw-Later r bit v = code_bit-Later r (r.range / 2) bit v (raw_bound-Splits r.range v.wide)

module _ (bytes more : List ℕ) (hb : IsBytes bytes) where
  -- The decoder's result for a symbol: the value, the new models and a state in step.
  abbrev pub Returns {ℓ κ} :
      {V : Type ℓ} {M : Type κ} → REnc → V → M → V × M × RangeDec → Type (ℓ ⊔ κ)
  Returns s v m res = (res.0 ≡ v) × (res.1 ≡ m) × Tracks bytes more s res.2

  -- The core step, at a bound that the decoder computes from its own range.
  pub code_bit-Returns :
      (r : REnc) (d : RangeDec) (bound bound' : ℕ) (bit : Bool)
      → IsReady r
      → Splits bound r.range
      → bound' ≡ bound
      → Contains bytes (code_bit r bound bit)
      → Tracks bytes more r d
      → ((rc_decode d bound').0 ≡ bit)
        × Tracks bytes more (code_bit r bound bit) (rc_decode d bound').1
  code_bit-Returns r d bound bound' bit v s e c t =
      rw e (rc_decode-code_bit bytes more r d bound bit hb v s c t)

  pub s_bit_r-re_bit :
      (r : REnc) (d : RangeDec) (p : ℕ) (bit : Bool) (rate : ℕ)
      → IsReady r
      → IsProb p
      → Contains bytes (re_bit r p bit rate).0
      → Tracks bytes more r d
      → Returns (re_bit r p bit rate).0 bit (adapt p bit rate) (s_bit_r d p rate)
  unfolding re_bit s_bit_r
  s_bit_r-re_bit r d p bit rate v hp c t =
      let (b, t') =
        code_bit-Returns r d (prob_bound r.range p) (prob_bound d.range p) bit v
          (prob_bound-Splits r.range p v.wide hp) (ap (λ (x : ℕ). prob_bound x p) t.same_range) c
          t in
      (b, ap (λ x. adapt p x rate) b, t')

  pub s_raw-re_raw :
      (r : REnc) (d : RangeDec) (bit : Bool)
      → IsReady r
      → Contains bytes (re_raw r bit)
      → Tracks bytes more r d
      → ((s_raw d).0 ≡ bit) × Tracks bytes more (re_raw r bit) (s_raw d).1
  unfolding re_raw s_raw
  s_raw-re_raw r d bit v c t =
      code_bit-Returns r d (r.range / 2) (d.range / 2) bit v (raw_bound-Splits r.range v.wide)
        (ap (λ (x : ℕ). x / 2) t.same_range) c t
