-- ===== src/Emit/Tokens/Later.antt =====
-- What writing a part of a token's header leaves: the stages of content_cursor_start_token
-- (src/enc_lz.c).
use ultra_patch.Base.{ℕ, ◌<◌, Bool, true, ◌≡◌, Bool-cases, inl, inr}
use ultra_patch.Base.Word.{sub32}
use ultra_patch.Coder.Renorm.{IsReady}
use ultra_patch.Coder.Step.{Later, Later-refl, Later-trans}
use ultra_patch.Model.Unary.{put_at-Later}
use ultra_patch.Model.Codecs.{re_bit-advances}
use ultra_patch.Model.Golomb.{rice_feasible}
use ultra_patch.Model.Golomb.RoundTrip.{ugg_encode-Later}
use ultra_patch.Model.Golomb.Rice.{ugr_encode-Later}
use ultra_patch.Model.Init.{IsTok}
use ultra_patch.Apply.Content.{outmatch_min}
use ultra_patch.Emit.Tokens.{
  ContentCursor, fl_encode, put_match_flag, put_rep0, put_outb, put_distance, put_length,
  put_out_match, outmatch_delta, ugg_encode,
}

-- The encoder and the token models can be written with.
pub record IsWriting (w : ContentCursor) : Type 0 where
  pub ready : IsReady w.rc
  pub models : IsTok w.tok

-- `v` is written after `w`.
pub record Writes (w v : ContentCursor) : Type 0 where
  pub later : Later w.rc v.rc
  pub models : IsTok v.tok

pub Writes-IsWriting : {w v : ContentCursor} → Writes w v → IsWriting v
Writes-IsWriting h = record { ready = h.later.ready; models = h.models }

pub Writes-trans : {w v u : ContentCursor} → Writes w v → Writes v u → Writes w u
Writes-trans h k = record { later = Later-trans h.later k.later; models = k.models }

unfoldable pub with_flag : ContentCursor → Bool → ContentCursor
with_flag w b =
    let (rc, flag) = fl_encode w.tok.flag w.rc b in
    record w { rc = rc; tok = record (w.tok) { flag = flag } }

unfoldable pub with_span_length : ContentCursor → ℕ → ContentCursor
with_span_length w len =
    let (rc, gs) = ugg_encode w.tok.gs w.rc (sub32 len 1) in
    record w { rc = rc; tok = record (w.tok) { gs = gs } }

pub with_flag-Writes : (w : ContentCursor) (b : Bool) → IsWriting w → Writes w (with_flag w b)
unfolding with_flag fl_encode
with_flag-Writes w b h =
    let m = h.models in
    let (l, probs) = put_at-Later w.tok.flag.m w.tok.flag.h w.rc b h.ready m.flags in
    record {
      later = l;
      models = record {
        dists = m.dists;
        outs = m.outs;
        match_lens = m.match_lens;
        span_lens = m.span_lens;
        out_lens = m.out_lens;
        out_enable = m.out_enable;
        flags = probs;
        reuses = m.reuses;
      };
    }

pub with_span_length-Writes :
    (w : ContentCursor) (len : ℕ)
    → sub32 len 1 < 0xffff_ffff
    → IsWriting w
    → Writes w (with_span_length w len)
unfolding with_span_length
with_span_length-Writes w len fits h =
    let m = h.models in
    let (l, probs) = ugg_encode-Later w.tok.gs w.rc (sub32 len 1) fits h.ready m.span_lens in
    record {
      later = l;
      models = record {
        dists = m.dists;
        outs = m.outs;
        match_lens = m.match_lens;
        span_lens = probs;
        out_lens = m.out_lens;
        out_enable = m.out_enable;
        flags = m.flags;
        reuses = m.reuses;
      };
    }

pub put_rep0-Writes : (w : ContentCursor) (b : Bool) → IsWriting w → Writes w (put_rep0 w b)
unfolding put_rep0
put_rep0-Writes w b h =
    let m = h.models in
    let (l, probs) = put_at-Later w.tok.rep0 w.rep0h w.rc b h.ready m.reuses in
    record {
      later = l;
      models = record {
        dists = m.dists;
        outs = m.outs;
        match_lens = m.match_lens;
        span_lens = m.span_lens;
        out_lens = m.out_lens;
        out_enable = m.out_enable;
        flags = m.flags;
        reuses = probs;
      };
    }

pub put_outb-Writes : (w : ContentCursor) (b : Bool) → IsWriting w → Writes w (put_outb w b)
unfolding put_outb
put_outb-Writes w b h =
    let m = h.models in
    let (l, prob) = re_bit-advances w.tok.outb w.rc b h.ready m.out_enable in
    record {
      later = l;
      models = record {
        dists = m.dists;
        outs = m.outs;
        match_lens = m.match_lens;
        span_lens = m.span_lens;
        out_lens = m.out_lens;
        out_enable = prob;
        flags = m.flags;
        reuses = m.reuses;
      };
    }

pub put_distance-Writes :
    (w : ContentCursor) (dist : ℕ)
    → rice_feasible (sub32 dist 1) w.tok.gd.k ≡ true
    → IsWriting w
    → Writes w (put_distance w dist)
unfolding put_distance
put_distance-Writes w dist fits h =
    let m = h.models in
    let (l, probs) = ugr_encode-Later w.tok.gd w.rc (sub32 dist 1) fits h.ready m.dists in
    record {
      later = l;
      models = record {
        dists = probs;
        outs = m.outs;
        match_lens = m.match_lens;
        span_lens = m.span_lens;
        out_lens = m.out_lens;
        out_enable = m.out_enable;
        flags = m.flags;
        reuses = m.reuses;
      };
    }

pub put_length-Writes :
    (w : ContentCursor) (len : ℕ)
    → sub32 len 1 < 0xffff_ffff
    → IsWriting w
    → Writes w (put_length w len)
unfolding put_length
put_length-Writes w len fits h =
    let m = h.models in
    let (l, probs) = ugg_encode-Later w.tok.gl w.rc (sub32 len 1) fits h.ready m.match_lens in
    record {
      later = l;
      models = record {
        dists = m.dists;
        outs = m.outs;
        match_lens = probs;
        span_lens = m.span_lens;
        out_lens = m.out_lens;
        out_enable = m.out_enable;
        flags = m.flags;
        reuses = m.reuses;
      };
    }

pub put_out_match-Writes :
    (w : ContentCursor) (p : ℕ) (len : ℕ)
    → rice_feasible (outmatch_delta p w.oexp) w.tok.go.k ≡ true
    → sub32 len outmatch_min < 0xffff_ffff
    → IsWriting w
    → Writes w (put_out_match w p len)
unfolding put_out_match
put_out_match-Writes w p len fits fits' h =
    let m = h.models in
    let z = outmatch_delta p w.oexp in
    let (l, outs) = ugr_encode-Later w.tok.go w.rc z fits h.ready m.outs in
    let (l', lens) =
      ugg_encode-Later w.tok.glo _ (sub32 len outmatch_min) fits' l.ready m.out_lens in
    record {
      later = Later-trans l l';
      models = record {
        dists = m.dists;
        outs = outs;
        match_lens = m.match_lens;
        span_lens = m.span_lens;
        out_lens = lens;
        out_enable = m.out_enable;
        flags = m.flags;
        reuses = m.reuses;
      };
    }

pub put_match_flag-Writes : (w : ContentCursor) → IsWriting w → Writes w (put_match_flag w)
unfolding put_match_flag with_flag
put_match_flag-Writes w h = elim (Bool-cases w.last_span) [
  | inl e ↦ rw e (record {
    later = Later-refl w.rc h.ready;
    models = record {
      dists = h.models.dists;
      outs = h.models.outs;
      match_lens = h.models.match_lens;
      span_lens = h.models.span_lens;
      out_lens = h.models.out_lens;
      out_enable = h.models.out_enable;
      flags = h.models.flags;
      reuses = h.models.reuses;
    };
  })
  | inr e ↦
      let k = with_flag-Writes w true h in rw e (record { later = k.later; models = k.models })
]
