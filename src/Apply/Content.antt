-- ===== src/Apply/Content.antt =====
-- The content bytes of src/patch_apply.h: up_emit_ring, up_next_content, up_read_uleb and the token
-- state of up_ApplyState and PatchApply, with rc_lit0_sel and the out-match positions of
-- src/rc_models.h.
use ultra_patch.Base.{
  ℕ, zero, suc, ◌+◌, ◌-◌, ◌*◌, ◌/◌, ◌%◌, ◌^◌, Bool, true, false, ◌||◌, not, List, [], ◌∷◌, ltb, leb,
  ◌==◌, if◌then◌else◌, bit_or, get_or,
}
use ultra_patch.Base.Int.{ℤ}
use ultra_patch.Base.Word.{u32, add32, sub32, to_u32}
use ultra_patch.Coder.Prob.{s_bit_rate}
use ultra_patch.Coder.Decoder.{RangeDec, s_bit_r}
use ultra_patch.Model.{update, bit_value}
use ultra_patch.Model.Tree.{s_bt}
use ultra_patch.Model.Unary.{take_at}
use ultra_patch.Model.Golomb.{s_ug_gamma, s_ug_rice}
use ultra_patch.Model.Init.{Flag1, TokModels, fl_hist}
use ultra_patch.Wire.Zigzag.{unzz32_value}
use ultra_patch.Wire.Uleb.{uleb32_overflow}

-- RC_LIT0_MAP4
abbrev pub lit0_map4 : List ℕ
lit0_map4 =
    5 ∷ 0 ∷ 0 ∷ 0 ∷ 0 ∷ 0 ∷ 0 ∷ 0 ∷ 0 ∷ 0 ∷ 0 ∷ 0 ∷ 0 ∷ 0 ∷ 49 ∷ 1 ∷ 34 ∷ 34 ∷ 34 ∷ 34 ∷ 34 ∷ 34
    ∷ 34 ∷ 34 ∷ 17 ∷ 17 ∷ 17 ∷ 17 ∷ 17 ∷ 17 ∷ 17 ∷ 1 ∷ 19 ∷ 51 ∷ 51 ∷ 19 ∷ 17 ∷ 17 ∷ 17 ∷ 17 ∷ 1
    ∷ 17 ∷ 19 ∷ 19 ∷ 48 ∷ 16 ∷ 0 ∷ 16 ∷ 51 ∷ 51 ∷ 51 ∷ 51 ∷ 51 ∷ 3 ∷ 51 ∷ 51 ∷ 51 ∷ 51 ∷ 51 ∷ 51
    ∷ 51 ∷ 51 ∷ 51 ∷ 3 ∷ 51 ∷ 51 ∷ 17 ∷ 3 ∷ 51 ∷ 19 ∷ 51 ∷ 19 ∷ 34 ∷ 34 ∷ 34 ∷ 34 ∷ 34 ∷ 34 ∷ 34
    ∷ 34 ∷ 0 ∷ 2 ∷ 48 ∷ 0 ∷ 34 ∷ 34 ∷ 18 ∷ 18 ∷ 0 ∷ 0 ∷ 16 ∷ 16 ∷ 1 ∷ 17 ∷ 17 ∷ 1 ∷ 2 ∷ 17 ∷ 1 ∷ 32
    ∷ 1 ∷ 32 ∷ 33 ∷ 2 ∷ 17 ∷ 17 ∷ 17 ∷ 32 ∷ 17 ∷ 17 ∷ 17 ∷ 0 ∷ 1 ∷ 0 ∷ 0 ∷ 0 ∷ 0 ∷ 0 ∷ 0 ∷ 0 ∷ 5 ∷ 0
    ∷ 0 ∷ 64 ∷ 0 ∷ 0 ∷ 0 ∷ 0 ∷ []

unfoldable pub lit0_sel : ℕ → ℕ
lit0_sel p = get_or lit0_map4 (p / 2) 0 / 2 ^ (p % 2 * 4) % 16

-- RC_OUTMATCH_MIN
abbrev pub outmatch_min : ℕ
outmatch_min = 4

unfoldable pub outmatch_pos : ℕ → ℤ → ℕ
outmatch_pos expected delta = add32 expected (to_u32 delta)

unfoldable pub outmatch_next_expect : Bool → ℕ → ℕ → ℕ
outmatch_next_expect fwd pos len = if fwd then add32 pos len else sub32 pos len

-- g_FWD, g_from_size, g_to_size and g_image_span.
pub record Geo : Type 0 where
  pub fwd : Bool
  pub from_size : ℕ
  pub to_size : ℕ
  pub image_span : ℕ

-- tok_mode
pub data TokMode : Type 0 where
  idle : TokMode
  span : TokMode
  backref : TokMode
  out_match : TokMode

-- What decoding the content stream changes. `ring` is a function from the masked index.
pub record Content : Type 0 where
  pub rc : RangeDec
  pub lit0 : ℕ → ℕ → ℕ
  pub lit1 : ℕ → ℕ
  pub tok : TokModels
  pub out_en : Bool
  pub litprev : ℕ
  pub rep0h : ℕ
  pub oexp : ℕ
  pub lastdist : ℕ
  pub ring : ℕ → ℕ
  pub ototal : ℕ
  pub tok_left : ℕ
  pub tok_src : ℕ
  pub tok_mode : TokMode
  pub last_span : Bool

-- UP_RING, for WINDOW_LOG = 11
abbrev pub up_ring : ℕ
up_ring = 2 ^ 11

-- g_rcerr and its setting.
abbrev pub failed : Content → Bool
failed c = c.rc.rcerr

abbrev pub fail : Content → Content
fail c = record c { rc = record (c.rc) { rcerr = true } }

unfoldable pub emit_ring : Content → ℕ → Content
emit_ring c b = record c {
  ring = update c.ring (c.ototal % up_ring) b;
  ototal = add32 c.ototal 1;
  litprev = b;
}

-- A literal of a span, from the tree of its tag.
unfoldable pub span_byte : Content → Bool → ℕ × Content
span_byte c tag =
    let sel = lit0_sel c.litprev in
    let (b1, t1, rc1) = s_bt c.lit1 c.rc in
    let (b0, t0, rc0) = s_bt (c.lit0 sel) c.rc in
    if tag
    then (b1, record c { lit1 = t1; rc = rc1 })
    else (b0, record c { lit0 = update c.lit0 sel t0; rc = rc0 })

-- The bound on the rounds of the loop of up_next_content.
unfoldable pub token_rounds : ℕ
token_rounds = 2 ^ 16

-- Everything below is in terms of the geometry and of up_out_read on the pages as they are.
module _ (geo : Geo) (out_read : ℕ → ℕ) where
  unfoldable pub token_byte : TokMode → Content → Bool → ℕ × Content
  unfolding span_byte
  token_byte span c tag = span_byte c tag
  token_byte backref c tag =
      (c.ring (c.tok_src % up_ring), record c { tok_src = add32 c.tok_src 1 })
  token_byte out_match c tag = (
    out_read c.tok_src,
    record c { tok_src = if geo.fwd then add32 c.tok_src 1 else sub32 c.tok_src 1 },
  )
  token_byte idle c tag = (
    out_read c.tok_src,
    record c { tok_src = if geo.fwd then add32 c.tok_src 1 else sub32 c.tok_src 1 },
  )

  -- One byte of the token in progress.
  unfoldable pub replay : Content → Bool → ℕ × Content
  unfolding token_byte
  replay c tag =
      let (b, c1) = token_byte c.tok_mode c tag in
      let c2 = emit_ring c1 b in
      if failed c1 then (0, fail c1) else (
        b,
        record c2 {
          tok_left = c2.tok_left - 1;
          tok_mode = if c2.tok_left - 1 == 0 then idle else c2.tok_mode;
        },
      )

  -- The flag of the next token, which is implicit after a span.
  unfoldable pub read_flag : Content → Bool × Content
  read_flag c =
      let f = c.tok.flag in
      let (b, m, rc) = take_at f.m f.h c.rc in
      let known : Flag1 = record f { h = fl_hist f.h true } in
      let read : Flag1 = record { m = m; h = fl_hist f.h b } in
      if c.last_span
      then (true, record c { tok = record (c.tok) { flag = known } })
      else (b, record c { rc = rc; tok = record (c.tok) { flag = read } })

  unfoldable pub read_span : Content → Content
  read_span c =
      let (v, gs, rc) = s_ug_gamma c.tok.gs c.rc in
      record c {
        rc = rc;
        tok = record (c.tok) { gs = gs };
        tok_mode = span;
        tok_left = add32 v 1;
        last_span = true;
      }

  -- An out-match lies within the image and is replayed in the direction of the writes.
  unfoldable pub read_out_match : Content → Content
  read_out_match c =
      let (z, go, rc1) = s_ug_rice c.tok.go c.rc in
      let p = outmatch_pos c.oexp (unzz32_value z) in
      let (v, glo, rc2) = s_ug_gamma c.tok.glo rc1 in
      let ln = add32 v outmatch_min in
      let c2 : Content = record c { rc = rc2; tok = record (c.tok) { go = go; glo = glo } } in
      let over = if geo.fwd then ltb (geo.image_span - p) ln else ltb (p + 1) ln in
      if rc2.rcerr || leb geo.image_span p || over then fail c2 else record c2 {
        oexp = outmatch_next_expect geo.fwd p ln;
        tok_mode = out_match;
        tok_src = p;
        tok_left = ln;
        last_span = false;
      }

  -- The length of a back-reference at distance `d`, which lies in the history and in the ring.
  unfoldable pub read_backref : Content → ℕ → Content
  read_backref c d =
      let (v, gl, rc) = s_ug_gamma c.tok.gl c.rc in
      let c1 : Content = record c { rc = rc; tok = record (c.tok) { gl = gl } } in
      if d == 0 || ltb c.ototal d || leb up_ring (d - 1) then fail c1 else record c1 {
        tok_mode = backref;
        tok_src = sub32 c.ototal d;
        tok_left = add32 v 1;
        last_span = false;
      }

  unfoldable pub read_distance : Content → Content
  unfolding read_backref
  read_distance c =
      let (v, gd, rc) = s_ug_rice c.tok.gd c.rc in
      let d = add32 v 1 in
      read_backref (record c { rc = rc; tok = record (c.tok) { gd = gd }; lastdist = d }) d

  -- A match that does not reuse the last distance: an out-match where they are enabled and the bit
  -- says so.
  unfoldable pub read_fresh : Content → Content
  unfolding read_distance read_out_match
  read_fresh c =
      let (ob, outb, rc) = s_bit_r c.rc c.tok.outb s_bit_rate in
      let c1 : Content = record c { rc = rc; tok = record (c.tok) { outb = outb } } in
      if not c.out_en then read_distance c else if ob then read_out_match c1 else read_distance c1

  unfoldable pub read_match : Content → Content
  unfolding read_fresh read_backref
  read_match c =
      let (rb, rep0, rc) = take_at c.tok.rep0 c.rep0h c.rc in
      let c1 : Content = record c {
        rc = rc;
        tok = record (c.tok) { rep0 = rep0 };
        rep0h = bit_value rb;
      } in
      if rb then read_backref c1 c1.lastdist else read_fresh c1

  unfoldable pub read_token : Content → Content
  unfolding read_flag read_span read_match
  read_token c =
      let (is_match, c1) = read_flag c in if is_match then read_match c1 else read_span c1

  -- The rounds of the loop: a token that is read has a byte to replay in the next round, unless its
  -- length wraps to 0, as only an out-match's of 2^32 - 4 or more can.
  unfoldable pub content_loop : ℕ → Content → Bool → ℕ × Content
  unfolding replay read_token
  content_loop zero c tag = (0, fail c)
  content_loop (suc fuel) c tag =
      let more = content_loop fuel (read_token c) tag in
      if failed c then (0, fail c) else if ltb 0 c.tok_left then replay c tag else more

  unfoldable pub next_content : Content → Bool → ℕ × Content
  unfolding content_loop
  next_content c tag = content_loop token_rounds c tag

  -- Five bytes at most: the shift is 28 at the fifth, where a byte above 15 is refused, also one
  -- with its continuation bit.
  unfoldable pub read_uleb_loop : ℕ → Content → ℕ → ℕ → ℕ × Content
  unfolding next_content
  read_uleb_loop zero c acc sh = (0, fail c)
  read_uleb_loop (suc fuel) c acc sh =
      let (b, c1) = next_content c false in
      let acc1 = bit_or acc (u32 (b % 128 * 2 ^ sh)) in
      let more = read_uleb_loop fuel c1 acc1 (sh + 7) in
      if failed c
      then (0, c)
      else if failed c1
      then (0, c1)
      else if uleb32_overflow sh b
      then (0, fail c1)
      else if b / 128 % 2 == 1
      then more
      else (acc1, c1)

  unfoldable pub read_uleb : Content → ℕ × Content
  unfolding read_uleb_loop
  read_uleb c = read_uleb_loop 5 c 0 0
