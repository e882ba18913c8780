-- ===== src/Emit/Tokens/Spans.antt =====
-- A run of literals: content_cursor_to (src/enc_lz.c) and calls of up_next_content
-- (src/patch_apply.h).
use ultra_patch.Base.{
  ℕ, zero, suc, ◌+◌, ◌-◌, ◌≤◌, ◌<◌, ◌≡◌, refl, Bool, true, false, List, [], ◌∷◌, arith, ◌∙◌, ltb,
  ◌==◌,
}
use ultra_patch.Coder.Decoder.{RangeDec}
use ultra_patch.Coder.Value.{IsBytes}
use ultra_patch.Coder.Renorm.{Contains}
use ultra_patch.Coder.Sync.{Tracks}
use ultra_patch.Apply.Content.{
  Content, Geo, span, failed, replay, content_loop, next_content, token_rounds,
}
use ultra_patch.Emit.Tokens.{ContentCursor, put_literal, put_literals}
use ultra_patch.Emit.Tokens.RoundTrip.{synced}
use ultra_patch.Emit.Tokens.Literals.{
  IsSpelling, passed, replay-put_literal, put_literal-Later, put_literals-Later,
}

module _ (content : ℕ → ℕ) where
  -- The `n` bytes from `a`.
  unfoldable pub spelled : ℕ → ℕ → List ℕ
  spelled zero a = []
  spelled (suc n) a = content a ∷ spelled n (a + 1)

  -- What they leave of a decoder's state, apart from what is in step with the encoder.
  unfoldable pub all_passed : ℕ → ℕ → Content → Content
  all_passed zero a c = c
  all_passed (suc n) a c = all_passed n (a + 1) (passed (content a) c)

passed-span :
    (b : ℕ) (c : Content) → 1 < c.tok_left → c.tok_mode ≡ span → (passed b c).tok_mode ≡ span
unfolding passed
passed-span b c more mode = let left : (c.tok_left - 1 == 0) ≡ false = ground arith in rw left mode

module _ (geo : Geo) (out_read : ℕ → ℕ) where
  -- `n` calls of up_next_content, for the addresses from `a` with their tags.
  unfoldable pub pull : (ℕ → Bool) → ℕ → ℕ → Content → List ℕ × Content
  pull tags zero a c = ([], c)
  pull tags (suc n) a c =
      let (b, c1) = next_content geo out_read c (tags a) in
      let (bs, c2) = pull tags n (a + 1) c1 in (b ∷ bs, c2)

  content_loop-replay :
      (fuel : ℕ) (c : Content) (tag : Bool)
      → 0 < fuel
      → failed c ≡ false
      → 0 < c.tok_left
      → content_loop geo out_read fuel c tag ≡ replay geo out_read c tag
  unfolding content_loop
  content_loop-replay zero c tag some_fuel clean more = absurd (omega arith)
  content_loop-replay (suc fuel) c tag some_fuel clean more =
      let play : ltb 0 c.tok_left ≡ true = ground arith in rw (clean, play) refl

  next_content-replay :
      (c : Content) (tag : Bool)
      → failed c ≡ false
      → 0 < c.tok_left
      → next_content geo out_read c tag ≡ replay geo out_read c tag
  unfolding next_content token_rounds
  next_content-replay c tag clean more =
      content_loop-replay token_rounds c tag (omega arith) clean more

module _ (content : ℕ → ℕ) (tags : ℕ → Bool) (content_n : ℕ) (geo : Geo) (out_read : ℕ → ℕ)
    (bytes more : List ℕ) (hb : IsBytes bytes) where
  put_literal-place :
      (w : ContentCursor)
      → ((put_literal content tags content_n w).start
            + (put_literal content tags content_n w).span_pos
          ≡ w.start + w.span_pos + 1)
        × ((put_literal content tags content_n w).pos ≡ w.pos + 1)
  unfolding put_literal
  put_literal-place w = (omega arith, refl)

  pull_within :
      (n a : ℕ) (w : ContentCursor) (d : RangeDec) (c : Content)
      → a ≡ w.start + w.span_pos
      → n ≤ c.tok_left
      → (0 < n → c.tok_mode ≡ span)
      → ((i : ℕ) → content i < 256)
      → IsSpelling w
      → Contains bytes (put_literals content tags content_n n w).rc
      → Tracks bytes more w.rc d
      → (d' : RangeDec) × Tracks bytes more (put_literals content tags content_n n w).rc d'
        × (pull geo out_read tags n w.pos (synced w d c) ≡ (
          spelled content n a,
          synced (put_literals content tags content_n n w) d' (all_passed content n a c),
        ))
  unfolding put_literals pull spelled all_passed synced passed
  pull_within zero a w d c at enough mode small h k t = (d, t, refl)
  pull_within (suc n) a w d c at enough mode small h k t =
      let (l, h1) = put_literal-Later content tags content_n w h in
      let w1 = put_literal content tags content_n w in
      let k1 = (put_literals-Later content tags content_n n w1 h1).0.back bytes hb k in
      let in_span = mode (omega arith) in
      let (d1, t1, e1) =
        replay-put_literal content tags content_n geo out_read bytes more hb w d c in_span (small _)
          h k1 t in
      let first =
        next_content-replay geo out_read (synced w d c) (tags w.pos) t.supplies.clean (omega arith)
        ∙ e1 in
      let step : next_content geo out_read (synced w d c) (tags w.pos)
          ≡ (content a, synced w1 d1 (passed (content a) c)) =
        rw at first in
      let (start1, pos1) = put_literal-place w in
      let (d2, t2, e2) =
        pull_within n (a + 1) w1 d1 (passed (content a) c) (omega (arith, start1)) (omega arith)
          (λ some_left. passed-span (content a) c (omega arith) in_span) small h1 k t1 in
      (d2, t2, rw (step, e2) refl)

  -- Inside a span, a decoder in step with the encoder pulls exactly the bytes of content that the encoder
  -- writes, for as many as are left of the span, whatever their tags, with both literal models still in
  -- step.
  pub pull-put_literals :
      (n a : ℕ) (w : ContentCursor) (d : RangeDec) (c : Content)
      → a ≡ w.start + w.span_pos
      → n ≤ c.tok_left
      → c.tok_mode ≡ span
      → ((i : ℕ) → content i < 256)
      → IsSpelling w
      → Contains bytes (put_literals content tags content_n n w).rc
      → Tracks bytes more w.rc d
      → (d' : RangeDec) × Tracks bytes more (put_literals content tags content_n n w).rc d'
        × (pull geo out_read tags n w.pos (synced w d c) ≡ (
          spelled content n a,
          synced (put_literals content tags content_n n w) d' (all_passed content n a c),
        ))
  pull-put_literals n a w d c at enough mode small h k t =
      pull_within n a w d c at enough (λ some_left. mode) small h k t
