-- ===== src/Emit/Tokens/RoundTrip.antt =====
-- The stages of a token's header on both sides: content_cursor_start_token (src/enc_lz.c) and
-- up_next_content (src/patch_apply.h).
use ultra_patch.Base.{
  ℕ, ◌+◌, ◌-◌, ◌^◌, ◌≤◌, ◌<◌, ◌≡◌, refl, Bool, true, false, List, arith, Bool-cases, inl, inr, ◌==◌,
  if◌then◌else◌, ltb, leb, ◌||◌, sym, subst, ◌∙◌,
}
use ultra_patch.Base.Word.{IsU32, IsI32, sub32, to_u32, add32}
use ultra_patch.Coder.Decoder.{RangeDec}
use ultra_patch.Coder.Value.{IsBytes}
use ultra_patch.Coder.Renorm.{Contains}
use ultra_patch.Coder.Sync.{Tracks}
use ultra_patch.Model.Unary.{take_at-put_at}
use ultra_patch.Model.Codecs.{s_bit_r-Returns}
use ultra_patch.Model.Golomb.{rice_feasible}
use ultra_patch.Model.Golomb.RoundTrip.{s_ug_gamma-ugg_encode, ugg_encode-Later}
use ultra_patch.Model.Golomb.Rice.{s_ug_rice-ugr_encode, ugr_encode-Later}
use ultra_patch.Model.Golomb.{ugr_encode}
use ultra_patch.Wire.Zigzag.{i32_from_u32, unzz32_value, unzz32_value-zz32, zz32-IsU32}
use ultra_patch.Apply.Content.{
  Content, TokMode, span, backref, out_match, Geo, read_flag, read_span, read_backref,
  read_distance, read_fresh, read_match, read_out_match, outmatch_pos, outmatch_min, up_ring,
}
use ultra_patch.Emit.Tokens.{
  ContentCursor, put_match_flag, put_rep0, put_outb, put_distance, put_length, put_out_match,
  fl_encode, outmatch_delta,
}
use ultra_patch.Emit.Tokens.Later.{IsWriting, with_flag, with_span_length}

-- The decoder's state that holds what the cursor holds, with the coder `d` and what the cursor has no
-- part in from `c`.
unfoldable pub synced : ContentCursor → RangeDec → Content → Content
synced w d c = record c {
  rc = d;
  lit0 = w.lit0;
  lit1 = w.lit1;
  tok = w.tok;
  out_en = w.out_en;
  litprev = w.prevlit;
  rep0h = w.rep0h;
  oexp = w.oexp;
  lastdist = w.last_dist;
}

-- A state at the start of a token.
unfoldable pub starts : TokMode → ℕ → ℕ → Bool → Content → Content
starts mode src len after_span c = record c {
  tok_mode = mode;
  tok_src = src;
  tok_left = len;
  last_span = after_span;
}

i32_from_u32-IsI32 : (u : ℕ) → IsU32 u → IsI32 (i32_from_u32 u)
unfolding i32_from_u32
i32_from_u32-IsI32 u h = elim (Bool-cases (leb u 0x7fff_ffff)) [
  | inl e ↦ rw e (ground arith)
  | inr e ↦ rw e (ground arith)
]

word_sum : (p e : ℕ) → IsU32 p → IsU32 e → add32 e (to_u32 (i32_from_u32 (sub32 p e))) ≡ p
unfolding i32_from_u32
word_sum p e hp he = ground arith

pub outmatch_delta-IsU32 : (p e : ℕ) → IsU32 (outmatch_delta p e)
unfolding outmatch_delta
outmatch_delta-IsU32 p e =
    let u = sub32 p e in zz32-IsU32 (i32_from_u32 u) (i32_from_u32-IsI32 u (omega arith))

-- rc_outmatch_pos undoes rc_outmatch_delta.
pub outmatch_pos-outmatch_delta :
    (p e : ℕ) → IsU32 p → IsU32 e → outmatch_pos e (unzz32_value (outmatch_delta p e)) ≡ p
unfolding outmatch_pos outmatch_delta
outmatch_pos-outmatch_delta p e hp he =
    let u = sub32 p e in
    let back = unzz32_value-zz32 (i32_from_u32 u) (i32_from_u32-IsI32 u (omega arith)) in
    rw back (word_sum p e hp he)

put_match_flag-known :
    (w : ContentCursor) (d : RangeDec) (c : Content)
    → w.last_span ≡ true
    → (put_match_flag w).rc ≡ w.rc
unfolding put_match_flag
put_match_flag-known w d c e = rw e refl

put_match_flag-coded :
    (w : ContentCursor) → w.last_span ≡ false → put_match_flag w ≡ with_flag w true
unfolding put_match_flag with_flag
put_match_flag-coded w e = rw e refl

module _ (geo : Geo) (out_read : ℕ → ℕ) (bytes more : List ℕ) (hb : IsBytes bytes) where
  abbrev Answers : Content → Content → Bool → ContentCursor → Type 0
  Answers x c b v =
      (d' : RangeDec) × Tracks bytes more v.rc d' × (read_flag geo out_read x ≡ (b, synced v d' c))

  pub read_flag-with_flag :
      (w : ContentCursor) (d : RangeDec) (c : Content) (b : Bool)
      → c.last_span ≡ false
      → IsWriting w
      → Contains bytes (with_flag w b).rc
      → Tracks bytes more w.rc d
      → (d' : RangeDec) × Tracks bytes more (with_flag w b).rc d'
        × (read_flag geo out_read (synced w d c) ≡ (b, synced (with_flag w b) d' c))
  unfolding with_flag fl_encode read_flag synced
  read_flag-with_flag w d c b first h k t =
      let (e, em, t') =
        take_at-put_at bytes more hb w.tok.flag.m w.tok.flag.h w.rc d b h.ready h.models.flags k
          t in
      (_, t', rw (first, e, em) refl)

  pub read_flag-put_match_flag :
      (w : ContentCursor) (d : RangeDec) (c : Content)
      → c.last_span ≡ w.last_span
      → IsWriting w
      → Contains bytes (put_match_flag w).rc
      → Tracks bytes more w.rc d
      → (d' : RangeDec) × Tracks bytes more (put_match_flag w).rc d'
        × (read_flag geo out_read (synced w d c) ≡ (true, synced (put_match_flag w) d' c))
  unfolding put_match_flag with_flag read_flag synced
  read_flag-put_match_flag w d c same h k t = elim (Bool-cases w.last_span) [
    | inl e ↦ (
      d,
      subst (λ r. Tracks bytes more r d) (sym (put_match_flag-known w d c e)) t,
      rw (same, e) refl,
    )
    | inr e ↦
        let coded = put_match_flag-coded w e in
        let k' = subst (λ v. Contains bytes v.rc) coded k in
        subst (Answers (synced w d c) c true) (sym coded)
          (read_flag-with_flag w d c true (same ∙ e) h k' t)
  ]

  pub read_span-with_span_length :
      (w : ContentCursor) (d : RangeDec) (c : Content) (len : ℕ)
      → 0 < len
      → len < 0xffff_ffff
      → IsWriting w
      → Contains bytes (with_span_length w len).rc
      → Tracks bytes more w.rc d
      → (d' : RangeDec) × Tracks bytes more (with_span_length w len).rc d'
        × (read_span geo out_read (synced w d c)
            ≡ starts span c.tok_src len true (synced (with_span_length w len) d' c))
  unfolding with_span_length read_span synced starts
  read_span-with_span_length w d c len some_bytes small h k t =
      let v = sub32 len 1 in
      let (e, em, t') =
        s_ug_gamma-ugg_encode bytes more hb w.tok.gs w.rc d v (omega arith) h.ready
          h.models.span_lens k t in
      let back : add32 v 1 ≡ len = omega arith in (_, t', rw (e, em, back) refl)

  pub read_backref-put_length :
      (w : ContentCursor) (d : RangeDec) (c : Content) (dist len : ℕ)
      → 0 < dist
      → dist ≤ c.ototal
      → dist ≤ up_ring
      → 0 < len
      → len < 0xffff_ffff
      → IsWriting w
      → Contains bytes (put_length w len).rc
      → Tracks bytes more w.rc d
      → (d' : RangeDec) × Tracks bytes more (put_length w len).rc d'
        × (read_backref geo out_read (synced w d c) dist
            ≡ starts backref (sub32 c.ototal dist) len false (synced (put_length w len) d' c))
  unfolding put_length read_backref synced starts
  read_backref-put_length w d c dist len far held near some_bytes small h k t =
      let v = sub32 len 1 in
      let (e, em, t') =
        s_ug_gamma-ugg_encode bytes more hb w.tok.gl w.rc d v (omega arith) h.ready
          h.models.match_lens k t in
      let back : add32 v 1 ≡ len = omega arith in
      let fine : (dist == 0 || ltb c.ototal dist || leb up_ring (dist - 1)) ≡ false =
        ground arith in
      (_, t', rw (e, em, back, fine) refl)

  pub read_distance-put_distance :
      (w : ContentCursor) (d : RangeDec) (c : Content) (dist : ℕ)
      → 0 < dist
      → dist < 2 ^ 32
      → rice_feasible (sub32 dist 1) w.tok.gd.k ≡ true
      → IsWriting w
      → Contains bytes (put_distance w dist).rc
      → Tracks bytes more w.rc d
      → (d' : RangeDec) × Tracks bytes more (put_distance w dist).rc d'
        × (read_distance geo out_read (synced w d c)
            ≡ read_backref geo out_read (synced (put_distance w dist) d' c) dist)
  unfolding put_distance read_distance synced
  read_distance-put_distance w d c dist far small fits h k t =
      let v = sub32 dist 1 in
      let (e, em, t') =
        s_ug_rice-ugr_encode bytes more hb w.tok.gd w.rc d v (omega arith) fits h.ready
          h.models.dists k t in
      let back : add32 v 1 ≡ dist = omega arith in (_, t', rw (e, em, back) refl)

  pub read_fresh-put_outb :
      (w : ContentCursor) (d : RangeDec) (c : Content) (b : Bool)
      → w.out_en ≡ true
      → IsWriting w
      → Contains bytes (put_outb w b).rc
      → Tracks bytes more w.rc d
      → (d' : RangeDec) × Tracks bytes more (put_outb w b).rc d'
        × (read_fresh geo out_read (synced w d c) ≡ (
            if b
            then read_out_match geo out_read (synced (put_outb w b) d' c)
            else read_distance geo out_read (synced (put_outb w b) d' c)))
  unfolding put_outb read_fresh synced
  read_fresh-put_outb w d c b enabled h k t =
      let (e, em, t') =
        s_bit_r-Returns bytes more hb w.tok.outb w.rc d b h.ready h.models.out_enable k t in
      (_, t', rw (e, em, enabled) refl)

  pub read_fresh-disabled :
      (w : ContentCursor) (d : RangeDec) (c : Content)
      → w.out_en ≡ false
      → read_fresh geo out_read (synced w d c) ≡ read_distance geo out_read (synced w d c)
  unfolding read_fresh synced
  read_fresh-disabled w d c off = rw off refl

  pub read_match-put_rep0 :
      (w : ContentCursor) (d : RangeDec) (c : Content) (b : Bool)
      → IsWriting w
      → Contains bytes (put_rep0 w b).rc
      → Tracks bytes more w.rc d
      → (d' : RangeDec) × Tracks bytes more (put_rep0 w b).rc d'
        × (read_match geo out_read (synced w d c) ≡ (
            if b
            then read_backref geo out_read (synced (put_rep0 w b) d' c) w.last_dist
            else read_fresh geo out_read (synced (put_rep0 w b) d' c)))
  unfolding put_rep0 read_match synced
  read_match-put_rep0 w d c b h k t =
      let (e, em, t') =
        take_at-put_at bytes more hb w.tok.rep0 w.rep0h w.rc d b h.ready h.models.reuses k t in
      (_, t', rw (e, em) refl)

  -- An out-match's position and length, in the direction of the writes.
  pub read_out_match-put_out_match :
      (w : ContentCursor) (d : RangeDec) (c : Content) (p len : ℕ)
      → geo.fwd ≡ w.fwd
      → p < geo.image_span
      → geo.image_span ≤ 2 ^ 31
      → outmatch_min ≤ len
      → len ≤ (if w.fwd then geo.image_span - p else p + 1)
      → IsU32 w.oexp
      → rice_feasible (outmatch_delta p w.oexp) w.tok.go.k ≡ true
      → IsWriting w
      → Contains bytes (put_out_match w p len).rc
      → Tracks bytes more w.rc d
      → (d' : RangeDec) × Tracks bytes more (put_out_match w p len).rc d'
        × (read_out_match geo out_read (synced w d c)
            ≡ starts out_match p len false (synced (put_out_match w p len) d' c))
  unfolding put_out_match read_out_match synced starts
  read_out_match-put_out_match w d c p len way inside bounded long fits_in word fits h k t =
      let z = outmatch_delta p w.oexp in
      let v = sub32 len outmatch_min in
      let (l, _probs) = ugr_encode-Later w.tok.go w.rc z fits h.ready h.models.outs in
      let small : v < 0xffff_ffff = ground arith in
      let (r1, glo) = ugr_encode w.tok.go w.rc z in
      let k1 =
        (ugg_encode-Later w.tok.glo r1 v small l.ready h.models.out_lens).0.back bytes hb k in
      let (e, em, t1) =
        s_ug_rice-ugr_encode bytes more hb w.tok.go w.rc d z (outmatch_delta-IsU32 p w.oexp) fits
          h.ready h.models.outs k1 t in
      let (e2, em2, t2) =
        s_ug_gamma-ugg_encode bytes more hb w.tok.glo r1 _ v small l.ready h.models.out_lens k t1 in
      let back : add32 v outmatch_min ≡ len = ground arith in
      let place = outmatch_pos-outmatch_delta p w.oexp (omega arith) word in
      let over : (if w.fwd then ltb (geo.image_span - p) len else ltb (p + 1) len) ≡ false =
        ground arith in
      let out : leb geo.image_span p ≡ false = ground arith in
      let clean = t2.supplies.clean in
      (_, t2, rw (e, em, e2, em2, back, place, way, out, over, clean) refl)
