-- ===== src/Emit/Tokens.antt =====
-- Writing the content tokens: fl_encode and models_init_content of src/enc_rc.c, rc_outmatch_delta and ContentCursor of
-- src/enc_internal.h, content_cursor_start_token and content_cursor_to of src/enc_lz.c. The statistics,
-- which only the price tables read, are left out.
pub mod Later
pub mod RoundTrip
pub mod Header
pub mod Kinds
pub mod Start
pub mod Literals
pub mod Spans
use ultra_patch.Base.{
  ℕ, zero, suc, ◌+◌, ◌-◌, Bool, true, false, ◌||◌, List, [], ◌∷◌, Option, none, some, ltb, ◌==◌,
  if◌then◌else◌, length,
}
use ultra_patch.Base.Word.{sub32}
use ultra_patch.Coder.Prob.{s_bit_rate}
use ultra_patch.Coder.Encoder.{REnc, re_bit}
use ultra_patch.Model.{update, bit_value}
use ultra_patch.Model.Tree.{bt_encode}
use ultra_patch.Model.Unary.{put_at}
use ultra_patch.Model.Golomb.{ugg_encode, ugr_encode}
use ultra_patch.Model.Init.{Flag1, TokModels, fl_hist, init_tok}
use ultra_patch.Wire.Zigzag.{zz32, i32_from_u32}
use ultra_patch.Wire.Uleb.{◌>>=◌}
use ultra_patch.Apply.Content.{
  TokMode, idle, span, backref, lit0_sel, outmatch_min, outmatch_next_expect,
}

-- The types 'S', 'R' and 'O', with the fields that each uses. An out-match keeps its position in `dist`.
pub data Token : Type 0 where
  span_token : ℕ → ℕ → Token
  match_token : ℕ → ℕ → Token
  out_token : ℕ → ℕ → Token

-- The cursor with the models and the encoder it writes to; `seq` is what tok_i has not passed yet.
pub record ContentCursor : Type 0 where
  pub fwd : Bool
  pub out_en : Bool
  pub rc : REnc
  pub lit0 : ℕ → ℕ → ℕ
  pub lit1 : ℕ → ℕ
  pub tok : TokModels
  pub rep0h : ℕ
  pub last_dist : ℕ
  pub oexp : ℕ
  pub seq : List Token
  pub pos : ℕ
  pub span_pos : ℕ
  pub tok_mode : TokMode
  pub tok_left : ℕ
  pub last_span : Bool
  pub prevlit : ℕ
  pub start : ℕ

-- The models of the content, from the two seeded trees and the Rice parameters.
unfoldable pub models_init_content : (ℕ → ℕ) → (ℕ → ℕ) → ℕ → ℕ → (ℕ → ℕ → ℕ) × (ℕ → ℕ) × TokModels
models_init_content seed0 seed1 kd ko = (λ i. seed0, seed1, init_tok kd ko)

-- A cursor on those models, with the encoder `rc`.
unfoldable pub content_cursor_init :
    List Token → (ℕ → ℕ → ℕ) × (ℕ → ℕ) × TokModels → REnc → Bool → Bool → ℕ → ContentCursor
content_cursor_init seq (lit0, lit1, tok) rc fwd out_en oexp = record {
  fwd = fwd;
  out_en = out_en;
  rc = rc;
  lit0 = lit0;
  lit1 = lit1;
  tok = tok;
  rep0h = 0;
  last_dist = 0;
  oexp = oexp;
  seq = seq;
  pos = 0;
  span_pos = 0;
  tok_mode = idle;
  tok_left = 0;
  last_span = false;
  prevlit = 0;
  start = 0;
}

unfoldable pub outmatch_delta : ℕ → ℕ → ℕ
outmatch_delta p expected = zz32 (i32_from_u32 (sub32 p expected))

unfoldable pub fl_encode : Flag1 → REnc → Bool → REnc × Flag1
fl_encode f r b = let (r', m) = put_at f.m f.h r b in (r', record { m = m; h = fl_hist f.h b })

-- The flag of a match, which is implicit after a span; last_span is false already where it is not.
unfoldable pub put_match_flag : ContentCursor → ContentCursor
unfolding fl_encode
put_match_flag w =
    let f = w.tok.flag in
    let known : Flag1 = record f { h = fl_hist f.h true } in
    let (rc, flag) = if w.last_span then (w.rc, known) else fl_encode f w.rc true in
    record w { rc = rc; tok = record (w.tok) { flag = flag }; last_span = false }

unfoldable pub put_span : ContentCursor → ℕ → ℕ → ContentCursor
unfolding fl_encode
put_span w start len =
    let (rc1, flag) = fl_encode w.tok.flag w.rc false in
    let (rc2, gs) = ugg_encode w.tok.gs rc1 (sub32 len 1) in
    record w {
      rc = rc2;
      tok = record (w.tok) { flag = flag; gs = gs };
      tok_mode = span;
      tok_left = len;
      span_pos = 0;
      last_span = true;
      start = start;
    }

-- The bit that says whether the last distance is used again.
unfoldable pub put_rep0 : ContentCursor → Bool → ContentCursor
put_rep0 w b =
    let (rc, rep0) = put_at w.tok.rep0 w.rep0h w.rc b in
    record w { rc = rc; tok = record (w.tok) { rep0 = rep0 }; rep0h = bit_value b }

unfoldable pub put_outb : ContentCursor → Bool → ContentCursor
put_outb w b =
    let (rc, outb) = re_bit w.rc w.tok.outb b s_bit_rate in
    record w { rc = rc; tok = record (w.tok) { outb = outb } }

unfoldable pub put_out_match : ContentCursor → ℕ → ℕ → ContentCursor
unfolding outmatch_delta
put_out_match w p len =
    let (rc1, go) = ugr_encode w.tok.go w.rc (outmatch_delta p w.oexp) in
    let (rc2, glo) = ugg_encode w.tok.glo rc1 (sub32 len outmatch_min) in
    record w {
      rc = rc2;
      tok = record (w.tok) { go = go; glo = glo };
      oexp = outmatch_next_expect w.fwd p len;
      tok_mode = backref;
      tok_left = len;
    }

unfoldable pub put_length : ContentCursor → ℕ → ContentCursor
put_length w len =
    let (rc, gl) = ugg_encode w.tok.gl w.rc (sub32 len 1) in
    record w { rc = rc; tok = record (w.tok) { gl = gl }; tok_mode = backref; tok_left = len }

unfoldable pub put_distance : ContentCursor → ℕ → ContentCursor
put_distance w dist =
    let (rc, gd) = ugr_encode w.tok.gd w.rc (sub32 dist 1) in
    record w { rc = rc; tok = record (w.tok) { gd = gd }; last_dist = dist }

-- A match: the last distance again, or a fresh one.
unfoldable pub put_match : ContentCursor → ℕ → ℕ → ContentCursor
unfolding put_rep0 put_outb put_distance put_length
put_match w dist len =
    let fresh = put_rep0 w false in
    put_length
      (if dist == w.last_dist
        then put_rep0 w true
        else put_distance (if w.out_en then put_outb fresh false else fresh) dist)
      len

-- One token; `none` is the call of die.
unfoldable pub put_token : ContentCursor → Token → Option ContentCursor
unfolding put_match_flag put_span put_rep0 put_outb put_out_match put_match
put_token w (span_token start len) = if w.last_span then none else some (put_span w start len)
put_token w (out_token p len) =
    some (put_out_match (put_outb (put_rep0 (put_match_flag w) false) true) p len)
put_token w (match_token dist len) = some (put_match (put_match_flag w) dist len)

unfoldable pub take_token : ContentCursor → List Token → Option ContentCursor
unfolding put_token
take_token w [] = none
take_token w (t ∷ ts) = put_token (record w { seq = ts }) t

unfoldable pub content_cursor_start_token : ContentCursor → Option ContentCursor
unfolding take_token
content_cursor_start_token w = take_token w w.seq

-- The content with its tags and its length.
module _ (content : ℕ → ℕ) (tags : ℕ → Bool) (content_n : ℕ) where
  -- A literal, in the tree of its tag.
  unfoldable pub put_literal : ContentCursor → ContentCursor
  put_literal w =
      let b = content (w.start + w.span_pos) in
      let sel = lit0_sel w.prevlit in
      let (rc1, t1) = bt_encode w.lit1 w.rc b in
      let (rc0, t0) = bt_encode (w.lit0 sel) w.rc b in
      let coded : REnc × (ℕ → ℕ → ℕ) × (ℕ → ℕ) =
        if tags w.pos then (rc1, w.lit0, t1) else (rc0, update w.lit0 sel t0, w.lit1) in
      let (rc, lit0, lit1) = coded in
      record w {
        rc = rc;
        lit0 = lit0;
        lit1 = lit1;
        prevlit = b;
        pos = w.pos + 1;
        span_pos = w.span_pos + 1;
      }

  unfoldable pub put_literals : ℕ → ContentCursor → ContentCursor
  unfolding put_literal
  put_literals zero w = w
  put_literals (suc nn) w = put_literals nn (put_literal w)

  -- The `nn` bytes of the token that lie before the end.
  unfoldable pub pass_bytes : TokMode → ℕ → ContentCursor → ContentCursor
  unfolding put_literals
  pass_bytes span nn w = put_literals nn w
  pass_bytes other nn w =
      let p = w.pos + nn in
      record w { pos = p; prevlit = if nn == 0 then w.prevlit else content (p - 1) }

  unfoldable pub pass_token : ℕ → ContentCursor → ContentCursor
  unfolding pass_bytes
  pass_token end w =
      let nn = if ltb w.tok_left (end - w.pos) then w.tok_left else end - w.pos in
      let w1 = pass_bytes w.tok_mode nn w in
      record w1 {
        tok_left = w.tok_left - nn;
        tok_mode = if w.tok_left - nn == 0 then idle else w.tok_mode;
      }

  unfoldable pub ensure_token : TokMode → ContentCursor → Option ContentCursor
  unfolding content_cursor_start_token
  ensure_token idle w = content_cursor_start_token w
  ensure_token busy w = some w

  -- The rounds of the loop, each of which ends a token or reaches the end.
  unfoldable pub cursor_loop : ℕ → ℕ → ContentCursor → Option ContentCursor
  unfolding pass_token ensure_token
  cursor_loop zero end w = none
  cursor_loop (suc rounds) end w =
      if ltb w.pos end
      then (do w1 ← ensure_token w.tok_mode w; cursor_loop rounds end (pass_token end w1))
      else some w

  unfoldable pub content_cursor_to : ContentCursor → ℕ → Option ContentCursor
  unfolding cursor_loop
  content_cursor_to w end =
      if ltb end w.pos || ltb content_n end then none else cursor_loop (length w.seq + 2) end w
