-- ===== src/Emit/Tokens/Kinds.antt =====
-- The header of each kind of token: content_cursor_start_token (src/enc_lz.c) and up_next_content
-- (src/patch_apply.h).
use ultra_patch.Base.{
  ℕ, ◌<◌, ◌≡◌, refl, true, false, List, arith, Bool-cases, inl, inr, ◌==◌, sym, subst, ◌∙◌,
}
use ultra_patch.Base.Word.{sub32}
use ultra_patch.Coder.Decoder.{RangeDec}
use ultra_patch.Coder.Value.{IsBytes}
use ultra_patch.Coder.Renorm.{Contains}
use ultra_patch.Coder.Sync.{Tracks}
use ultra_patch.Apply.Content.{
  Content, Geo, span, read_flag, read_match, read_token, read_span, outmatch_min, out_match,
}
use ultra_patch.Emit.Tokens.{
  ContentCursor, put_match_flag, put_span, put_rep0, put_outb, put_out_match, put_match,
}
use ultra_patch.Emit.Tokens.Later.{
  IsWriting, Writes, Writes-IsWriting, Writes-trans, with_flag, with_span_length, with_flag-Writes,
  with_span_length-Writes, put_rep0-Writes, put_outb-Writes, put_out_match-Writes,
  put_match_flag-Writes,
}
use ultra_patch.Emit.Tokens.RoundTrip.{
  synced, starts, read_flag-with_flag, read_flag-put_match_flag, read_span-with_span_length,
  read_fresh-put_outb, read_match-put_rep0, read_out_match-put_out_match,
}
use ultra_patch.Emit.Tokens.Header.{
  FitsMatch, FitsOut, Comes, at_match, put_match-again, put_match-enabled, put_match-disabled,
  again, enabled_match, disabled_match, put_match-Writes,
}

module _ (geo : Geo) (out_read : ℕ → ℕ) (bytes more : List ℕ) (hb : IsBytes bytes) where
  read_token-match :
      (x y : Content)
      → read_flag geo out_read x ≡ (true, y)
      → read_token geo out_read x ≡ read_match geo out_read y
  unfolding read_token
  read_token-match x y e = rw e refl

  read_token-span :
      (x y : Content)
      → read_flag geo out_read x ≡ (false, y)
      → read_token geo out_read x ≡ read_span geo out_read y
  unfolding read_token
  read_token-span x y e = rw e refl

  read_match-put_match :
      (w : ContentCursor) (d : RangeDec) (c : Content) (dist len : ℕ)
      → FitsMatch c w dist len
      → IsWriting w
      → Contains bytes (put_match w dist len).rc
      → Tracks bytes more w.rc d
      → Comes geo out_read bytes more hb
          (read_match geo out_read (synced w d c))
          (at_match geo out_read bytes more hb c dist len)
          (put_match w dist len)
  read_match-put_match w d c dist len f h k t =
      let Reads : ContentCursor → Type 0 =
        Comes geo out_read bytes more hb (read_match geo out_read (synced w d c))
          (at_match geo out_read bytes more hb c dist len) in
      elim (Bool-cases (dist == w.last_dist)) [
        | inl e ↦
            let q = put_match-again w dist len e in
            let same : w.last_dist ≡ dist = ground arith in
            subst Reads (sym q) (
              again geo out_read bytes more hb w d c dist len same f h
                (subst (λ v. Contains bytes v.rc) q k) t)
        | inr e ↦ elim (Bool-cases w.out_en) [
          | inl on ↦
              let q = put_match-enabled w dist len e on in
              subst Reads (sym q) (
                enabled_match geo out_read bytes more hb w d c dist len on f h
                  (subst (λ v. Contains bytes v.rc) q k) t)
          | inr off ↦
              let q = put_match-disabled w dist len e off in
              subst Reads (sym q) (
                disabled_match geo out_read bytes more hb w d c dist len off f h
                  (subst (λ v. Contains bytes v.rc) q k) t)
        ]
      ]

  pub match_start :
      (w : ContentCursor) (d : RangeDec) (c : Content) (dist len : ℕ)
      → c.last_span ≡ w.last_span
      → FitsMatch c (put_match_flag w) dist len
      → IsWriting w
      → Contains bytes (put_match (put_match_flag w) dist len).rc
      → Tracks bytes more w.rc d
      → Comes geo out_read bytes more hb
          (read_token geo out_read (synced w d c))
          (at_match geo out_read bytes more hb c dist len)
          (put_match (put_match_flag w) dist len)
  match_start w d c dist len same f h k t =
      let w1 = put_match_flag w in
      let h1 = Writes-IsWriting (put_match_flag-Writes w h) in
      let k1 =
        (put_match-Writes geo out_read bytes more hb w1 c dist len f h1).later.back bytes hb k in
      let (d1, t1, e1) = read_flag-put_match_flag geo out_read bytes more hb w d c same h k1 t in
      let (d2, t2, e2) = read_match-put_match w1 d1 c dist len f h1 k t1 in
      (d2, t2, read_token-match (synced w d c) (synced w1 d1 c) e1 ∙ e2)

  -- The cursor behind the bits that announce an out-match.
  abbrev pub announced : ContentCursor → ContentCursor
  announced w = put_outb (put_rep0 (put_match_flag w) false) true

  refit_out :
      (w : ContentCursor) (p len : ℕ) → FitsOut geo w p len → FitsOut geo (announced w) p len
  unfolding put_match_flag put_rep0 put_outb
  refit_out w p len f = record {
    enabled = f.enabled;
    way = f.way;
    inside = f.inside;
    bounded = f.bounded;
    long = f.long;
    ends = f.ends;
    expected = f.expected;
    feasible = f.feasible;
  }

  out_short :
      (w : ContentCursor) (p len : ℕ) → FitsOut geo w p len → sub32 len outmatch_min < 0xffff_ffff
  out_short w p len f =
      let a = f.inside in
      let b = f.bounded in
      let l = f.long in
      let e = f.ends in elim (Bool-cases w.fwd) [ inl way ↦ ground arith | inr way ↦ ground arith ]

  pub out_start :
      (w : ContentCursor) (d : RangeDec) (c : Content) (p len : ℕ)
      → c.last_span ≡ w.last_span
      → FitsOut geo w p len
      → IsWriting w
      → Contains bytes (put_out_match (announced w) p len).rc
      → Tracks bytes more w.rc d
      → Comes geo out_read bytes more hb
          (read_token geo out_read (synced w d c))
          (λ v d'. starts out_match p len false (synced v d' c))
          (put_out_match (announced w) p len)
  unfolding put_match_flag put_rep0
  out_start w d c p len same f h k t =
      let w1 = put_match_flag w in
      let w2 = put_rep0 w1 false in
      let w3 = put_outb w2 true in
      let h1 = Writes-IsWriting (put_match_flag-Writes w h) in
      let l2 = put_rep0-Writes w1 false h1 in
      let h2 = Writes-IsWriting l2 in
      let l3 = put_outb-Writes w2 true h2 in
      let h3 = Writes-IsWriting l3 in
      let f3 = refit_out w p len f in
      let short : sub32 len outmatch_min < 0xffff_ffff = out_short w p len f in
      let k3 = (put_out_match-Writes w3 p len f3.feasible short h3).later.back bytes hb k in
      let k2 = l3.later.back bytes hb k3 in
      let k1 = l2.later.back bytes hb k2 in
      let (d1, t1, e1) = read_flag-put_match_flag geo out_read bytes more hb w d c same h k1 t in
      let (d2, t2, e2) = read_match-put_rep0 geo out_read bytes more hb w1 d1 c false h1 k2 t1 in
      let (d3, t3, e3) =
        read_fresh-put_outb geo out_read bytes more hb w2 d2 c true f.enabled h2 k3 t2 in
      let (d4, t4, e4) =
        read_out_match-put_out_match geo out_read bytes more hb w3 d3 c p len f3.way f3.inside
          f3.bounded f3.long f3.ends f3.expected f3.feasible h3 k t3 in
      (d4, t4, read_token-match (synced w d c) (synced w1 d1 c) e1 ∙ e2 ∙ e3 ∙ e4)

  put_span-stages :
      (w : ContentCursor) (d : RangeDec) (c : Content) (start len : ℕ)
      → ((put_span w start len).rc ≡ (with_span_length (with_flag w false) len).rc)
        × (synced (put_span w start len) d c
            ≡ synced (with_span_length (with_flag w false) len) d c)
  unfolding put_span with_span_length with_flag synced
  put_span-stages w d c start len = (refl, refl)

  pub span_start :
      (w : ContentCursor) (d : RangeDec) (c : Content) (start len : ℕ)
      → c.last_span ≡ false
      → 0 < len
      → len < 0xffff_ffff
      → IsWriting w
      → Contains bytes (put_span w start len).rc
      → Tracks bytes more w.rc d
      → Comes geo out_read bytes more hb
          (read_token geo out_read (synced w d c))
          (λ v d'. starts span c.tok_src len true (synced v d' c))
          (put_span w start len)
  unfolding put_span with_span_length with_flag synced
  span_start w d c start len first some_bytes small h k t =
      let w1 = with_flag w false in
      let h1 = Writes-IsWriting (with_flag-Writes w false h) in
      let short : sub32 len 1 < 0xffff_ffff = omega arith in
      let k1 = (with_span_length-Writes w1 len short h1).later.back bytes hb k in
      let (d1, t1, e1) = read_flag-with_flag geo out_read bytes more hb w d c false first h k1 t in
      let (d2, t2, e2) =
        read_span-with_span_length geo out_read bytes more hb w1 d1 c len some_bytes small h1 k
          t1 in
      (d2, t2, read_token-span (synced w d c) (synced w1 d1 c) e1 ∙ e2)

  pub span-Writes :
      (w : ContentCursor) (start len : ℕ)
      → 0 < len
      → len < 0xffff_ffff
      → IsWriting w
      → Writes w (put_span w start len)
  unfolding put_span with_flag with_span_length
  span-Writes w start len n s h =
      let l = with_flag-Writes w false h in
      let short : sub32 len 1 < 0xffff_ffff = omega arith in
      let l' = with_span_length-Writes (with_flag w false) len short (Writes-IsWriting l) in
      record { later = (Writes-trans l l').later; models = l'.models }

  pub out-Writes :
      (w : ContentCursor) (p len : ℕ)
      → FitsOut geo w p len
      → IsWriting w
      → Writes w (put_out_match (announced w) p len)
  out-Writes w p len f h =
      let l1 = put_match_flag-Writes w h in
      let l2 = put_rep0-Writes (put_match_flag w) false (Writes-IsWriting l1) in
      let l3 = put_outb-Writes (put_rep0 (put_match_flag w) false) true (Writes-IsWriting l2) in
      let l4 =
        put_out_match-Writes (announced w) p len (refit_out w p len f).feasible
          (out_short w p len f) (Writes-IsWriting l3) in
      Writes-trans l1 (Writes-trans l2 (Writes-trans l3 l4))
