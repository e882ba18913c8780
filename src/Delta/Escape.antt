-- ===== src/Delta/Escape.antt =====
-- The escape value of a delta: bv_xfer in its encoding mode (src/enc_emit.c) and up_s_bv
-- (src/patch_apply.h), a zigzag uLEB whose bytes go through the adaptive byte tree.
use ultra_patch.Base.{
  ℕ, zero, suc, ◌+◌, ◌*◌, ◌/◌, ◌%◌, ◌^◌, ◌≤◌, ◌<◌, ◌≡◌, refl, ap, ◌∙◌, true, false, List, ◌==◌,
  if◌then◌else◌, arith, bit_or, ◌⊎◌, inl, inr, Bool-cases,
}
use ultra_patch.Base.Int.{ℤ}
use ultra_patch.Base.Word.{u32, IsI32}
use ultra_patch.Coder.Encoder.{REnc}
use ultra_patch.Coder.Decoder.{RangeDec}
use ultra_patch.Wire.Zigzag.{zz32, unzz32_value, zz32-IsU32, unzz32_value-zz32}
use ultra_patch.Wire.Uleb.{uleb32_overflow}
use ultra_patch.Model.Tree.{bt_encode, s_bt, s_bt-IsByte, bt_encode-Later, s_bt-bt_encode}
use ultra_patch.Coder.Renorm.{IsReady, Contains}
use ultra_patch.Model.{AllByteProbs}
use ultra_patch.Coder.Step.{Later, Later-refl, Later-trans, Returns}
use ultra_patch.Wire.Uleb.Read.{joined, continued, lowest_group}
use ultra_patch.Coder.Value.{IsBytes}
use ultra_patch.Wire.Uleb.RoundTrip.{Fits, Fits-next}
use ultra_patch.Coder.Sync.{Tracks}
use ultra_patch.Wire.Uleb.RoundTrip.{top_fits}

-- The writer's rounds: one for each seven bits of a word.
abbrev pub bv_rounds : ℕ
bv_rounds = 5

unfoldable pub bv_encode_loop : ℕ → (ℕ → ℕ) → REnc → ℕ → REnc × (ℕ → ℕ)
bv_encode_loop zero t r v = (r, t)
bv_encode_loop (suc fuel) t r v =
    let b = v % 128 in
    let w = v / 128 in
    let (r', t') = bt_encode t r (if w == 0 then b else bit_or b 0x80) in
    let more = bv_encode_loop fuel t' r' w in if w == 0 then (r', t') else more

unfoldable pub bv_encode : (ℕ → ℕ) → REnc → ℤ → REnc × (ℕ → ℕ)
bv_encode t r x = bv_encode_loop bv_rounds t r (zz32 x)

-- The reader's do-while loop. An overflow sets the error and makes the value 0.
unfoldable pub s_bv_loop : ℕ → (ℕ → ℕ) → RangeDec → ℕ → ℕ → ℕ × (ℕ → ℕ) × RangeDec
s_bv_loop zero t d acc sh = (acc, t, d)
s_bv_loop (suc fuel) t d acc sh =
    let (b, t', d') = s_bt t d in
    let acc' = bit_or acc (u32 (b % 128 * 2 ^ sh)) in
    let more = s_bv_loop fuel t' d' acc' (sh + 7) in
    if uleb32_overflow sh b
    then (0, t', record d' { rcerr = true })
    else if b / 128 % 2 == 1
    then more
    else (acc', t', d')

unfoldable pub s_bv : (ℕ → ℕ) → RangeDec → ℤ × (ℕ → ℕ) × RangeDec
s_bv t d = let (acc, t', d') = s_bv_loop bv_rounds t d 0 0 in (unzz32_value acc, t', d')

-- At bit 28 a byte that asks for another one is an overflow.
last_round : (b : ℕ) → b < 256 → (uleb32_overflow 28 b ≡ true) ⊎ ((b / 128 % 2 == 1) ≡ false)
last_round b h = ground arith

-- From bit 28 - 7 * n on, n + 1 rounds are enough for the loop of up_s_bv, whatever it reads: every
-- larger number of rounds gives the same result. At bit 0 these are the five rounds of the model.
pub s_bv_loop-rounds :
    (n fuel sh : ℕ) (t : ℕ → ℕ) (d : RangeDec) (acc : ℕ)
    → sh + 7 * n ≡ 28
    → n ≤ fuel
    → s_bv_loop (suc fuel) t d acc sh ≡ s_bv_loop (suc n) t d acc sh
unfolding s_bv_loop
s_bv_loop-rounds zero fuel sh t d acc e h =
    let at : sh ≡ 28 = omega arith in
    elim (last_round (s_bt t d).0 (s_bt-IsByte t d)) [
      | inl over ↦ rw (at, over)
      | inr ends ↦ rw ends
    ]
s_bv_loop-rounds (suc n) zero sh t d acc e h = absurd (omega arith)
s_bv_loop-rounds (suc n) (suc fuel) sh t d acc e h =
    let (b, t', d') = s_bt t d in
    let acc' = bit_or acc (u32 (b % 128 * 2 ^ sh)) in
    let ih = s_bv_loop-rounds n fuel (sh + 7) t' d' acc' (omega arith) (omega arith) in
    ap
      (λ x.
        if uleb32_overflow sh b
        then (0, t', record d' { rcerr = true })
        else if b / 128 % 2 == 1
        then x
        else (acc', t', d'))
      ih

-- Coding an escape value advances the encoder and keeps the tree usable.
bv_encode_loop-Later :
    (fuel : ℕ) (t : ℕ → ℕ) (r : REnc) (v : ℕ)
    → IsReady r
    → AllByteProbs t
    → Later r (bv_encode_loop fuel t r v).0 × AllByteProbs (bv_encode_loop fuel t r v).1
unfolding bv_encode_loop
bv_encode_loop-Later zero t r v ready h = (Later-refl r ready, h)
bv_encode_loop-Later (suc fuel) t r v ready h = elim (Bool-cases (v / 128 == 0)) [
  | inl e ↦ rw e (bt_encode-Later t r (v % 128) ready h)
  | inr e ↦
      let (l, h') = bt_encode-Later t r (bit_or (v % 128) 0x80) ready h in
      let (l', h'') = bv_encode_loop-Later fuel _ _ (v / 128) l.ready h' in
      rw e (Later-trans l l', h'')
]

pub bv_encode-Later :
    (t : ℕ → ℕ) (r : REnc) (x : ℤ)
    → IsReady r
    → AllByteProbs t
    → Later r (bv_encode t r x).0 × AllByteProbs (bv_encode t r x).1
unfolding bv_encode
bv_encode-Later t r x ready h = bv_encode_loop-Later bv_rounds t r (zz32 x) ready h

-- One round of the reader on the byte that one round of the writer makes.
s_bv_loop_last :
    (fuel : ℕ) (t : ℕ → ℕ) (d : RangeDec) (acc sh g : ℕ)
    → (s_bt t d).0 ≡ g
    → g < 128
    → uleb32_overflow sh g ≡ false
    → acc < 2 ^ sh
    → acc + g * 2 ^ sh < 2 ^ 32
    → s_bv_loop (suc fuel) t d acc sh ≡ (acc + g * 2 ^ sh, (s_bt t d).1, (s_bt t d).2)
unfolding s_bv_loop
s_bv_loop_last fuel t d acc sh g e small fine hv fits =
    let low : g % 128 ≡ g = omega arith in
    let stop : (g / 128 % 2 == 1) ≡ false = ground arith in
    rw (e, fine, stop, low, joined g acc sh hv fits)

s_bv_loop_more :
    (fuel : ℕ) (t : ℕ → ℕ) (d : RangeDec) (acc sh g : ℕ)
    → (s_bt t d).0 ≡ g + 128
    → g < 128
    → sh < 28
    → acc < 2 ^ sh
    → acc + g * 2 ^ sh < 2 ^ 32
    → s_bv_loop (suc fuel) t d acc sh
      ≡ s_bv_loop fuel (s_bt t d).1 (s_bt t d).2 (acc + g * 2 ^ sh) (sh + 7)
unfolding s_bv_loop
s_bv_loop_more fuel t d acc sh g e small hs hv fits =
    let low : (g + 128) % 128 ≡ g = omega arith in
    let fine : uleb32_overflow sh (g + 128) ≡ false = ground arith in
    let go_on : ((g + 128) / 128 % 2 == 1) ≡ true = ground arith in
    rw (e, fine, go_on, low, joined g acc sh hv fits)

module _ (bytes more : List ℕ) (hb : IsBytes bytes) where
  s_bv_loop-bv_encode_loop :
      (k : ℕ) (t : ℕ → ℕ) (r : REnc) (d : RangeDec) (v acc sh : ℕ)
      → Fits 28 (2 ^ 32) k acc sh v
      → IsReady r
      → AllByteProbs t
      → Contains bytes (bv_encode_loop (suc k) t r v).0
      → Tracks bytes more r d
      → Returns bytes more hb
          (bv_encode_loop (suc k) t r v).0
          (acc + v * 2 ^ sh)
          (bv_encode_loop (suc k) t r v).1
          (s_bv_loop (suc k) t d acc sh)
  unfolding bv_encode_loop
  s_bv_loop-bv_encode_loop zero t r d v acc sh (hv, fits, e) ready h c tk =
      let small : v ≤ 15 = top_fits v acc sh fits (omega arith) in
      let w : (v / 128 == 0) ≡ true = ground arith in
      let low : v % 128 ≡ v = omega arith in
      let c' = rw (w, low) at c in
      let (e1, m, tk') = s_bt-bt_encode bytes more hb t r d v (omega arith) ready h c' tk in
      rw (w, low, s_bv_loop_last 0 t d acc sh v e1 (omega arith) (ground arith) hv fits)
        (refl, m, tk')
  s_bv_loop-bv_encode_loop (suc k) t r d v acc sh (hv, fits, e) ready h c tk =
      elim (Bool-cases (v / 128 == 0)) [
        | inl w ↦
            let low : v % 128 ≡ v = ground arith in
            let c' = rw (w, low) at c in
            let (e1, m, tk') = s_bt-bt_encode bytes more hb t r d v (ground arith) ready h c' tk in
            rw
              (w, low, s_bv_loop_last (suc k) t d acc sh v e1 (ground arith) (ground arith) hv fits)
              (refl, m, tk')
        | inr w ↦
            let g = v % 128 in
            let mark = continued g (omega arith) in
            let c' = rw (w, mark) at c in
            let (l, h') = bt_encode-Later t r (g + 128) ready h in
            let (r', t') = bt_encode t r (g + 128) in
            let back =
              (bv_encode_loop-Later (suc k) t' r' (v / 128) l.ready h').0.back bytes hb c' in
            let (e1, m, tk') =
              s_bt-bt_encode bytes more hb t r d (g + 128) (omega arith) ready h back tk in
            let step =
              s_bv_loop_more (suc k) t d acc sh g e1 (omega arith) (omega arith) hv
                (omega (arith, lowest_group sh v)) in
            let next = Fits-next 28 (2 ^ 32) k acc sh v (hv, fits, e) in
            let ih =
              s_bv_loop-bv_encode_loop k t' r' (s_bt t d).2 (v / 128) (acc + g * 2 ^ sh) (sh + 7)
                next l.ready h' c' tk' in
            let sum : acc + g * 2 ^ sh + v / 128 * 2 ^ (sh + 7) ≡ acc + v * 2 ^ sh =
              omega (arith, lowest_group sh v) in
            rw (w, mark, step, m) (ih.0 ∙ sum, ih.1, ih.2)
      ]

  -- up_s_bv returns every int32 that bv_xfer coded, with the same adapted tree.
  pub s_bv-bv_encode :
      (t : ℕ → ℕ) (r : REnc) (d : RangeDec) (x : ℤ)
      → IsI32 x
      → IsReady r
      → AllByteProbs t
      → Contains bytes (bv_encode t r x).0
      → Tracks bytes more r d
      → Returns bytes more hb (bv_encode t r x).0 x (bv_encode t r x).1 (s_bv t d)
  unfolding bv_encode s_bv
  s_bv-bv_encode t r d x i ready h c tk =
      let word = zz32-IsU32 x i in
      let (e, m, tk') =
        s_bv_loop-bv_encode_loop 4 t r d (zz32 x) 0 0 (omega arith, omega arith, omega arith) ready
          h c tk in
      let whole : 0 + zz32 x * 1 ≡ zz32 x = omega arith in
      (ap (λ (y : ℕ). unzz32_value y) (e ∙ whole) ∙ unzz32_value-zz32 x i, m, tk')
