-- ===== src/Model/Tree.antt =====
-- The byte tree: bt_xfer in its encoding mode and bt_encode of src/enc_rc.c, up_s_bt of
-- src/patch_apply.h, up_bt_init of src/rc_models.h.
use ultra_patch.Base.{
  ℕ, zero, suc, ◌+◌, ◌-◌, ◌*◌, ◌/◌, ◌%◌, ◌^◌, ◌≤◌, ◌<◌, refl, sym, ap, ◌∙◌, Bool, List, ◌==◌, arith,
  Bool-cases, inl, inr, subst, pow-suc,
}
use ultra_patch.Coder.Prob.{bt_adapt}
use ultra_patch.Coder.Encoder.{REnc, code_bit}
use ultra_patch.Coder.Decoder.{RangeDec, rc_decode}
use ultra_patch.Model.{update, bit_value, AllByteProbs}
use ultra_patch.Coder.Renorm.{IsReady, Contains}
use ultra_patch.Coder.Value.{IsBytes}
use ultra_patch.Coder.Step.{
  Later, Later-refl, code_bit-Later, Returns, Later-trans, code_bit-Returns,
}
use ultra_patch.Coder.Prob.Bounds.{bt_adapt-IsByteProb, tree_bound-Splits}
use ultra_patch.Coder.Sync.{Tracks}
use ultra_patch.Model.Digits.{digit_step}

-- RC_LIT0_RATE, RC_LIT1_RATE and RC_DVAL_RATE
abbrev pub tree_rate : ℕ
tree_rate = 4

unfoldable pub bt_init : ℕ → ℕ
bt_init i = 128

-- Bits `i - 1` down to 0 of the byte, below the node `m`.
unfoldable pub bt_encode_loop : ℕ → (ℕ → ℕ) → REnc → ℕ → ℕ → REnc × (ℕ → ℕ)
bt_encode_loop zero t r byte m = (r, t)
bt_encode_loop (suc i) t r byte m =
    let bit = byte / 2 ^ i % 2 == 1 in
    let p = t (m - 1) in
    bt_encode_loop i (update t (m - 1) (bt_adapt p bit tree_rate))
      (code_bit r (r.range / 2 ^ 8 * p) bit) byte (m * 2 + bit_value bit)

unfoldable pub bt_encode : (ℕ → ℕ) → REnc → ℕ → REnc × (ℕ → ℕ)
bt_encode t r byte = bt_encode_loop 8 t r byte 1

unfoldable pub s_bt_loop : ℕ → (ℕ → ℕ) → RangeDec → ℕ → ℕ × (ℕ → ℕ) × RangeDec
s_bt_loop zero t d m = (m, t, d)
s_bt_loop (suc i) t d m =
    let p = t (m - 1) in
    let (b, d') = rc_decode d (d.range / 2 ^ 8 * p) in
    s_bt_loop i (update t (m - 1) (bt_adapt p b tree_rate)) d' (m * 2 + bit_value b)

unfoldable pub s_bt : (ℕ → ℕ) → RangeDec → ℕ × (ℕ → ℕ) × RangeDec
s_bt t d = let (m, t', d') = s_bt_loop 8 t d 1 in (m - 256, t', d')

update-AllByteProbs :
    (t : ℕ → ℕ) (i : ℕ) (bit : Bool)
    → AllByteProbs t
    → AllByteProbs (update t i (bt_adapt (t i) bit tree_rate))
update-AllByteProbs t i bit h j = elim (Bool-cases (i == j)) [
  | inl e ↦ rw e (bt_adapt-IsByteProb (t i) bit (h i)).0
  | inr e ↦ rw e (h j)
]

-- Coding a byte advances the encoder and keeps the tree usable.
pub bt_encode_loop-Later :
    (i : ℕ) (t : ℕ → ℕ) (r : REnc) (byte m : ℕ)
    → IsReady r
    → AllByteProbs t
    → Later r (bt_encode_loop i t r byte m).0 × AllByteProbs (bt_encode_loop i t r byte m).1
unfolding bt_encode_loop
bt_encode_loop-Later zero t r byte m v h = (Later-refl r v, h)
bt_encode_loop-Later (suc i) t r byte m v h =
    let bit = byte / 2 ^ i % 2 == 1 in
    let l = code_bit-Later r _ bit v (tree_bound-Splits r.range (t (m - 1)) v.wide (h (m - 1))) in
    let (later, probs) =
      bt_encode_loop-Later i _ _ byte _ l.ready (update-AllByteProbs t (m - 1) bit h) in
    (Later-trans l later, probs)

module _ (bytes more : List ℕ) (hb : IsBytes bytes) where
  s_bt_loop-bt_encode_loop :
      (i : ℕ) (t : ℕ → ℕ) (r : REnc) (d : RangeDec) (byte m : ℕ)
      → IsReady r
      → AllByteProbs t
      → Contains bytes (bt_encode_loop i t r byte m).0
      → Tracks bytes more r d
      → Returns bytes more hb
          (bt_encode_loop i t r byte m).0
          (m * 2 ^ i + byte % 2 ^ i)
          (bt_encode_loop i t r byte m).1
          (s_bt_loop i t d m)
  unfolding bt_encode_loop s_bt_loop
  s_bt_loop-bt_encode_loop zero t r d byte m v h c tr = (omega arith, refl, tr)
  s_bt_loop-bt_encode_loop (suc i) t r d byte m v h c tr =
      let bit = byte / 2 ^ i % 2 == 1 in
      let p = t (m - 1) in
      let s = tree_bound-Splits r.range p v.wide (h (m - 1)) in
      let l = code_bit-Later r (r.range / 2 ^ 8 * p) bit v s in
      let t' = update t (m - 1) (bt_adapt p bit tree_rate) in
      let h' = update-AllByteProbs t (m - 1) bit h in
      let r' = code_bit r (r.range / 2 ^ 8 * p) bit in
      let m' = m * 2 + bit_value bit in
      let c' = (bt_encode_loop-Later i t' r' byte m' l.ready h').0.back bytes hb c in
      let (e, tr') =
        code_bit-Returns bytes more hb r d (r.range / 2 ^ 8 * p) (d.range / 2 ^ 8 * p) bit v s
          (ap (λ (x : ℕ). x / 2 ^ 8 * p) tr.same_range) c' tr in
      let d' = (rc_decode d (d.range / 2 ^ 8 * p)).1 in
      let ih = s_bt_loop-bt_encode_loop i t' r' d' byte m' l.ready h' c tr' in
      let (last, models) = bt_encode_loop i t' r' byte m' in
      subst
        (λ x.
          Returns bytes more hb last (m * 2 ^ suc i + byte % 2 ^ suc i) models
            (s_bt_loop i (update t (m - 1) (bt_adapt p x tree_rate)) d' (m * 2 + bit_value x)))
        (sym e) (ih.0 ∙ sym (digit_step byte m i), ih.1, ih.2)

  -- up_s_bt returns the byte that bt_encode wrote, with the same adapted tree, and stays in step.
  pub s_bt-bt_encode :
      (t : ℕ → ℕ) (r : REnc) (d : RangeDec) (byte : ℕ)
      → byte < 256
      → IsReady r
      → AllByteProbs t
      → Contains bytes (bt_encode t r byte).0
      → Tracks bytes more r d
      → Returns bytes more hb (bt_encode t r byte).0 byte (bt_encode t r byte).1 (s_bt t d)
  unfolding bt_encode s_bt
  s_bt-bt_encode t r d byte small v h c tr =
      let (e, models, tr') = s_bt_loop-bt_encode_loop 8 t r d byte 1 v h c tr in
      (omega arith, models, tr')

pub bt_encode-Later :
    (t : ℕ → ℕ) (r : REnc) (byte : ℕ)
    → IsReady r
    → AllByteProbs t
    → Later r (bt_encode t r byte).0 × AllByteProbs (bt_encode t r byte).1
unfolding bt_encode
bt_encode-Later t r byte v h = bt_encode_loop-Later 8 t r byte 1 v h

s_bt_loop-between :
    (i : ℕ) (t : ℕ → ℕ) (d : RangeDec) (m : ℕ)
    → (m * 2 ^ i ≤ (s_bt_loop i t d m).0) × ((s_bt_loop i t d m).0 < (m + 1) * 2 ^ i)
unfolding s_bt_loop
s_bt_loop-between zero t d m = (omega arith, omega arith)
s_bt_loop-between (suc i) t d m =
    let (b, d') = rc_decode d (d.range / 2 ^ 8 * t (m - 1)) in
    let m' = m * 2 + bit_value b in
    let (lo, hi) =
      s_bt_loop-between i (update t (m - 1) (bt_adapt (t (m - 1)) b tree_rate)) d' m' in
    let up : m' * 2 ^ i ≤ (m * 2 + 1) * 2 ^ i = grind arith in
    let down : m * 2 * 2 ^ i ≤ m' * 2 ^ i = grind arith in
    let p = pow-suc 2 i in
    (omega (arith, ap (λ (t : ℕ). m * t) p), omega (arith, ap (λ (t : ℕ). (m + 1) * t) p))

-- Whatever it reads, up_s_bt hands out a byte.
pub s_bt-IsByte : (t : ℕ → ℕ) (d : RangeDec) → (s_bt t d).0 < 256
unfolding s_bt
s_bt-IsByte t d = omega (arith, s_bt_loop-between 8 t d 1)
