-- ===== src/Emit/Tokens/Literals.antt =====
-- The literals of a span: content_cursor_to (src/enc_lz.c) and up_emit_ring with the replay of
-- up_next_content (src/patch_apply.h).
use ultra_patch.Base.{
  ℕ, zero, suc, ◌+◌, ◌-◌, ◌%◌, ◌<◌, ◌≡◌, refl, Bool, true, false, List, Bool-cases, inl, inr, ◌==◌,
  if◌then◌else◌, sym, subst,
}
use ultra_patch.Base.Word.{add32}
use ultra_patch.Coder.Decoder.{RangeDec}
use ultra_patch.Coder.Value.{IsBytes}
use ultra_patch.Coder.Renorm.{IsReady, Contains}
use ultra_patch.Coder.Sync.{Tracks}
use ultra_patch.Coder.Step.{Later, Later-refl, Later-trans}
use ultra_patch.Model.{AllByteProbs, update}
use ultra_patch.Model.Tree.{bt_encode, s_bt, s_bt-bt_encode, bt_encode-Later}
use ultra_patch.Apply.Content.{Content, Geo, span, idle, up_ring, lit0_sel, replay, emit_ring}
use ultra_patch.Emit.Tokens.{ContentCursor, put_literal, put_literals}
use ultra_patch.Emit.Tokens.RoundTrip.{synced}

-- The encoder and the literal trees can be written with.
pub record IsSpelling (w : ContentCursor) : Type 0 where
  pub ready : IsReady w.rc
  pub even : (i : ℕ) → AllByteProbs (w.lit0 i)
  pub odd : AllByteProbs w.lit1

-- One byte less of the token and one more of history.
unfoldable pub passed : ℕ → Content → Content
passed b c = record c {
  ring = update c.ring (c.ototal % up_ring) b;
  ototal = add32 c.ototal 1;
  tok_left = c.tok_left - 1;
  tok_mode = if c.tok_left - 1 == 0 then idle else c.tok_mode;
}

rows :
    (i : ℕ) (t : ℕ → ℕ) (trees : ℕ → ℕ → ℕ)
    → AllByteProbs t
    → ((j : ℕ) → AllByteProbs (trees j))
    → (j : ℕ) → AllByteProbs (update trees i t j)
rows i t trees one all j = elim (Bool-cases (i == j)) [ inl e ↦ rw e one | inr e ↦ rw e (all j) ]

module _ (content : ℕ → ℕ) (tags : ℕ → Bool) (content_n : ℕ) where
  abbrev literal_at : ContentCursor → ℕ
  literal_at w = content (w.start + w.span_pos)

  put_literal-odd :
      (w : ContentCursor)
      → tags w.pos ≡ true
      → (put_literal content tags content_n w).rc ≡ (bt_encode w.lit1 w.rc (literal_at w)).0
  unfolding put_literal
  put_literal-odd w e = rw e refl

  put_literal-even :
      (w : ContentCursor)
      → tags w.pos ≡ false
      → (put_literal content tags content_n w).rc
        ≡ (bt_encode (w.lit0 (lit0_sel w.prevlit)) w.rc (literal_at w)).0
  unfolding put_literal
  put_literal-even w e = rw e refl

  module _ (geo : Geo) (out_read : ℕ → ℕ) (bytes more : List ℕ) (hb : IsBytes bytes) where
    -- A decoder in a span, in step with the encoder, reads the literal that the encoder writes next, in
    -- the tree of its tag, and puts it into the history.
    pub replay-put_literal :
        (w : ContentCursor) (d : RangeDec) (c : Content)
        → c.tok_mode ≡ span
        → literal_at w < 256
        → IsSpelling w
        → Contains bytes (put_literal content tags content_n w).rc
        → Tracks bytes more w.rc d
        → (d' : RangeDec) × Tracks bytes more (put_literal content tags content_n w).rc d'
          × (replay geo out_read (synced w d c) (tags w.pos) ≡ (
            literal_at w,
            synced (put_literal content tags content_n w) d' (passed (literal_at w) c),
          ))
    unfolding put_literal replay synced passed emit_ring
    replay-put_literal w d c mode byte h k t = elim (Bool-cases (tags w.pos)) [
      | inl tag ↦
          let q = put_literal-odd w tag in
          let k' = subst (Contains bytes) q k in
          let (e, em, t') =
            s_bt-bt_encode bytes more hb w.lit1 w.rc d (literal_at w) byte h.ready h.odd k' t in
          let d' = (s_bt w.lit1 d).2 in
          let clean = t'.supplies.clean in
          (d', subst (λ r. Tracks bytes more r d') (sym q) t', rw (mode, tag, e, em, clean) refl)
      | inr tag ↦
          let q = put_literal-even w tag in
          let k' = subst (Contains bytes) q k in
          let sel = lit0_sel w.prevlit in
          let (e, em, t') =
            s_bt-bt_encode bytes more hb (w.lit0 sel) w.rc d (literal_at w) byte h.ready
              (h.even sel) k' t in
          let d' = (s_bt (w.lit0 sel) d).2 in
          let clean = t'.supplies.clean in
          (d', subst (λ r. Tracks bytes more r d') (sym q) t', rw (mode, tag, e, em, clean) refl)
    ]

  pub put_literal-Later :
      (w : ContentCursor)
      → IsSpelling w
      → Later w.rc (put_literal content tags content_n w).rc
        × IsSpelling (put_literal content tags content_n w)
  unfolding put_literal
  put_literal-Later w h = elim (Bool-cases (tags w.pos)) [
    | inl tag ↦
        let (l, probs) = bt_encode-Later w.lit1 w.rc (literal_at w) h.ready h.odd in
        rw tag (l, record { ready = l.ready; even = h.even; odd = probs })
    | inr tag ↦
        let sel = lit0_sel w.prevlit in
        let (l, probs) = bt_encode-Later (w.lit0 sel) w.rc (literal_at w) h.ready (h.even sel) in
        rw tag (l, record { ready = l.ready; even = rows sel _ w.lit0 probs h.even; odd = h.odd })
  ]

  pub put_literals-Later :
      (n : ℕ) (w : ContentCursor)
      → IsSpelling w
      → Later w.rc (put_literals content tags content_n n w).rc
        × IsSpelling (put_literals content tags content_n n w)
  unfolding put_literals
  put_literals-Later zero w h = (Later-refl w.rc h.ready, h)
  put_literals-Later (suc n) w h =
      let (l, h1) = put_literal-Later w h in
      let (l', h2) = put_literals-Later n (put_literal content tags content_n w) h1 in
      (Later-trans l l', h2)
