-- ===== src/Model/Codecs.antt =====
-- The symbols of the body as codecs: adaptive and raw bits, bytes, unary prefixes, Gamma and Rice
-- values.
use ultra_patch.Base.{ℕ, ◌^◌, ◌≤◌, ◌<◌, ◌≡◌, refl, ap, Bool, true, List, ◌∙◌, Bool-cases, inl, inr}
use ultra_patch.Coder.Prob.{s_bit_rate, IsProb}
use ultra_patch.Coder.Codec.{Codec}
use ultra_patch.Coder.Encoder.{REnc, re_bit}
use ultra_patch.Coder.Decoder.{RangeDec, s_bit_r}
use ultra_patch.Model.{AllProbs, AllByteProbs}
use ultra_patch.Coder.Step.{re_bit-Later, s_bit_r-re_bit, Later, Returns}
use ultra_patch.Model.Tree.{bt_encode, s_bt, bt_encode-Later, s_bt-bt_encode}
use ultra_patch.Model.Unary.{unary_encode, s_unary, unary_encode-Later, s_unary-unary_encode}
use ultra_patch.Model.Golomb.{
  UgGamma, UgRice, ugg_encode, ugr_encode, s_ug_gamma, s_ug_rice, rice_feasible, ugr_put,
}
use ultra_patch.Model.Golomb.RoundTrip.{GammaProbs, ugg_encode-Later, s_ug_gamma-ugg_encode}
use ultra_patch.Model.Golomb.Rice.{RiceProbs, s_ug_rice-ugr_encode, ugr_encode-Later}
use ultra_patch.Coder.Renorm.{IsReady, Contains}
use ultra_patch.Coder.Value.{IsBytes}
use ultra_patch.Coder.Prob.Bounds.{adapt-IsProb}
use ultra_patch.Coder.Sync.{Tracks}

pub re_bit-advances :
    (p : ℕ) (r : REnc) (b : Bool)
    → IsReady r
    → IsProb p
    → Later r (re_bit r p b s_bit_rate).0 × IsProb (re_bit r p b s_bit_rate).1
unfolding re_bit
re_bit-advances p r b ready g = (re_bit-Later r p b s_bit_rate ready g, (adapt-IsProb p b g).0)

pub s_bit_r-Returns :
    (bytes more : List ℕ) (hb : IsBytes bytes) (p : ℕ) (r : REnc) (d : RangeDec) (b : Bool)
    → IsReady r
    → IsProb p
    → Contains bytes (re_bit r p b s_bit_rate).0
    → Tracks bytes more r d
    → Returns bytes more hb
        (re_bit r p b s_bit_rate).0
        b
        (re_bit r p b s_bit_rate).1
        (s_bit_r d p s_bit_rate)
unfolding re_bit
s_bit_r-Returns bytes more hb p r d b ready g c t =
    s_bit_r-re_bit bytes more hb r d p b s_bit_rate ready g c t

-- re_bit and up_s_bit at the shared rate.
abbrev pub bit_codec : Codec Bool ℕ
bit_codec = record {
  put = λ m r b. re_bit r m b s_bit_rate;
  take = λ m d. s_bit_r d m s_bit_rate;
  Good = IsProb;
  Fits = λ b. Unit {0};
  advances = λ m r b _f ready g. re_bit-advances m r b ready g;
  returns =
      λ bytes more hb m r d b _f ready g c t. s_bit_r-Returns bytes more hb m r d b ready g c t;
}

abbrev pub byte_codec : Codec ℕ (ℕ → ℕ)
byte_codec = record {
  put = bt_encode;
  take = s_bt;
  Good = AllByteProbs;
  Fits = λ v. v < 256;
  advances = λ m r v _f ready g. bt_encode-Later m r v ready g;
  returns =
      λ bytes more hb m r d v f ready g c t. s_bt-bt_encode bytes more hb m r d v f ready g c t;
}

-- Values up to the reader's cap.
abbrev pub unary_codec : ℕ → ℕ → Codec ℕ (ℕ → ℕ)
unary_codec clampmax cap = record {
  put = λ m r v. unary_encode m clampmax r v;
  take = λ m d. s_unary m clampmax cap d;
  Good = AllProbs;
  Fits = λ v. v ≤ cap;
  advances = λ m r v _f ready g. unary_encode-Later m clampmax v r ready g;
  returns = λ bytes more hb m r d v f ready g c t.
      s_unary-unary_encode bytes more hb m clampmax cap v r d f ready g c t;
}

abbrev pub gamma_codec : Codec ℕ UgGamma
gamma_codec = record {
  put = ugg_encode;
  take = s_ug_gamma;
  Good = GammaProbs;
  Fits = λ v. v < 0xffff_ffff;
  advances = ugg_encode-Later;
  returns = λ bytes more hb m r d v f ready g c t.
      s_ug_gamma-ugg_encode bytes more hb m r d v f ready g c t;
}

pub ugr_encode-k : (m : UgRice) (r : REnc) (v : ℕ) → (ugr_encode m r v).1.k ≡ m.k
unfolding ugr_encode ugr_put
ugr_encode-k m r v = elim (Bool-cases (rice_feasible v m.k)) [
  | inl e ↦ rw e refl
  | inr e ↦ rw e refl
]

pub ugr_encode-advances :
    (k : ℕ) (m : UgRice) (r : REnc) (v : ℕ)
    → rice_feasible v k ≡ true
    → IsReady r
    → RiceProbs m × (m.k ≡ k)
    → Later r (ugr_encode m r v).0 × (RiceProbs (ugr_encode m r v).1 × ((ugr_encode m r v).1.k ≡ k))
ugr_encode-advances k m r v f ready (probs, e) =
    let (l, probs') = ugr_encode-Later m r v (ap (λ x. rice_feasible v x) e ∙ f) ready probs in
    (l, (probs', ugr_encode-k m r v ∙ e))

-- Words that are feasible for the parameter `k` of the model.
abbrev pub rice_codec : ℕ → Codec ℕ UgRice
rice_codec k = record {
  put = ugr_encode;
  take = s_ug_rice;
  Good = λ m. RiceProbs m × (m.k ≡ k);
  Fits = λ v. (v < 2 ^ 32) × (rice_feasible v k ≡ true);
  advances = λ m r v f ready g. ugr_encode-advances k m r v f.1 ready g;
  returns = λ bytes more hb m r d v f ready g c t.
      s_ug_rice-ugr_encode bytes more hb m r d v f.0 (ap (λ x. rice_feasible v x) g.1 ∙ f.1) ready
        g.0 c t;
}
