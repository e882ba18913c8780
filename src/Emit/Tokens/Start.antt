-- ===== src/Emit/Tokens/Start.antt =====
-- A whole token header: content_cursor_start_token (src/enc_lz.c) against up_next_content
-- (src/patch_apply.h).
use ultra_patch.Base.{ℕ, ◌≡◌, true, false, List, some, arith, sym, subst, ◌∙◌}
use ultra_patch.Coder.Decoder.{RangeDec}
use ultra_patch.Coder.Value.{IsBytes}
use ultra_patch.Coder.Renorm.{Contains}
use ultra_patch.Coder.Sync.{Tracks}
use ultra_patch.Apply.Content.{Content, Geo, span, read_token, out_match}
use ultra_patch.Emit.Tokens.{
  Token, span_token, match_token, out_token, ContentCursor, put_match_flag, put_span, put_out_match,
  put_match, put_token,
}
use ultra_patch.Emit.Tokens.Later.{
  IsWriting, Writes, Writes-IsWriting, Writes-trans, put_match_flag-Writes,
}
use ultra_patch.Emit.Tokens.RoundTrip.{synced, starts}
use ultra_patch.Emit.Tokens.Header.{FitsMatch, Fits, begun, Comes, at_match, put_match-Writes}
use ultra_patch.Emit.Tokens.Kinds.{
  announced, match_start, out_start, span_start, span-Writes, out-Writes,
}

module _ (geo : Geo) (out_read : ℕ → ℕ) (bytes more : List ℕ) (hb : IsBytes bytes) where
  -- What put_token did with a span.
  started_span :
      (w v : ContentCursor) (start len : ℕ)
      → put_token w (span_token start len) ≡ some v
      → (w.last_span ≡ false) × (put_span w start len ≡ v)
  unfolding put_token
  started_span w v start len e = ground arith

  put_token-match :
      (w v : ContentCursor) (dist len : ℕ)
      → put_token w (match_token dist len) ≡ some v
      → put_match (put_match_flag w) dist len ≡ v
  unfolding put_token
  put_token-match w v dist len e = cc

  put_token-out :
      (w v : ContentCursor) (p len : ℕ)
      → put_token w (out_token p len) ≡ some v
      → put_out_match (announced geo out_read bytes more hb w) p len ≡ v
  unfolding put_token
  put_token-out w v p len e = cc

  refit_match :
      (w : ContentCursor) (c : Content) (dist len : ℕ)
      → FitsMatch c w dist len
      → FitsMatch c (put_match_flag w) dist len
  unfolding put_match_flag
  refit_match w c dist len f = record {
    positive = f.positive;
    held = f.held;
    near = f.near;
    nonempty = f.nonempty;
    bounded = f.bounded;
    feasible = f.feasible;
  }

  -- A token that is started leaves an encoder to go on with.
  pub put_token-Writes :
      (w v : ContentCursor) (c : Content) (token : Token)
      → put_token w token ≡ some v
      → Fits geo c w token
      → IsWriting w
      → Writes w v
  unfolding Fits
  put_token-Writes w v c (span_token start len) e (n, s) h =
      subst (Writes w) (started_span w v start len e).1
        (span-Writes geo out_read bytes more hb w start len n s h)
  put_token-Writes w v c (match_token dist len) e f h =
      let l = put_match_flag-Writes w h in
      let f1 = refit_match w c dist len f in
      let l' =
        put_match-Writes geo out_read bytes more hb (put_match_flag w) c dist len f1
          (Writes-IsWriting l) in
      subst (Writes w) (put_token-match w v dist len e) (Writes-trans l l')
  put_token-Writes w v c (out_token p len) e f h =
      subst (Writes w) (put_token-out w v p len e)
        (out-Writes geo out_read bytes more hb w p len f h)

  -- For every token that the encoder starts and that fits the decoder's limits, a decoder in step with the
  -- encoder reads the token's header to the token's kind, length and source, with every model, history and
  -- expectation equal to the encoder's and its coder still in step, in any bytes that contain what the
  -- encoder has written.
  pub read_token-put_token :
      (w v : ContentCursor) (d : RangeDec) (c : Content) (token : Token)
      → put_token w token ≡ some v
      → c.last_span ≡ w.last_span
      → Fits geo c w token
      → IsWriting w
      → Contains bytes v.rc
      → Tracks bytes more w.rc d
      → (d' : RangeDec) × Tracks bytes more v.rc d'
        × (read_token geo out_read (synced w d c) ≡ begun c token (synced v d' c))
  unfolding begun Fits
  read_token-put_token w v d c (span_token start len) e same (n, s) h k t =
      let (first, q) = started_span w v start len e in
      subst
        (Comes geo out_read bytes more hb (read_token geo out_read (synced w d c))
          (λ u d'. starts span c.tok_src len true (synced u d' c)))
        q
        (span_start geo out_read bytes more hb w d c start len (same ∙ first) n s h
          (subst (λ u. Contains bytes u.rc) (sym q) k) t)
  read_token-put_token w v d c (match_token dist len) e same f h k t =
      let q = put_token-match w v dist len e in
      subst
        (Comes geo out_read bytes more hb (read_token geo out_read (synced w d c))
          (at_match geo out_read bytes more hb c dist len))
        q
        (match_start geo out_read bytes more hb w d c dist len same (refit_match w c dist len f) h
          (subst (λ u. Contains bytes u.rc) (sym q) k) t)
  read_token-put_token w v d c (out_token p len) e same f h k t =
      let q = put_token-out w v p len e in
      subst
        (Comes geo out_read bytes more hb (read_token geo out_read (synced w d c))
          (λ u d'. starts out_match p len false (synced u d' c)))
        q
        (out_start geo out_read bytes more hb w d c p len same f h
          (subst (λ u. Contains bytes u.rc) (sym q) k) t)
