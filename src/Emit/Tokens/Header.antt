-- ===== src/Emit/Tokens/Header.antt =====
-- The header of a token, written by content_cursor_start_token (src/enc_lz.c) and read by
-- up_next_content (src/patch_apply.h).
use ultra_patch.Base.{
  ℕ, ◌+◌, ◌-◌, ◌^◌, ◌≤◌, ◌<◌, ◌≡◌, refl, Bool, true, false, List, arith, Bool-cases, inl, inr, ◌==◌,
  if◌then◌else◌, sym, subst, ap, ◌∙◌,
}
use ultra_patch.Base.Word.{IsU32, sub32}
use ultra_patch.Coder.Decoder.{RangeDec}
use ultra_patch.Coder.Value.{IsBytes}
use ultra_patch.Coder.Renorm.{Contains}
use ultra_patch.Coder.Sync.{Tracks}
use ultra_patch.Model.Golomb.{rice_feasible}
use ultra_patch.Apply.Content.{
  Content, span, backref, out_match, Geo, read_match, read_backref, read_distance, outmatch_min,
  up_ring,
}
use ultra_patch.Emit.Tokens.{
  Token, span_token, match_token, out_token, ContentCursor, put_rep0, put_outb, put_distance,
  put_length, put_match, outmatch_delta,
}
use ultra_patch.Emit.Tokens.Later.{
  IsWriting, Writes, Writes-IsWriting, Writes-trans, put_rep0-Writes, put_outb-Writes,
  put_distance-Writes, put_length-Writes,
}
use ultra_patch.Emit.Tokens.RoundTrip.{
  synced, starts, read_backref-put_length, read_distance-put_distance, read_fresh-put_outb,
  read_fresh-disabled, read_match-put_rep0,
}

-- A match that lies in the history and in the ring, at a distance that the Rice code takes.
pub record FitsMatch (c : Content) (w : ContentCursor) (dist len : ℕ) : Type 0 where
  pub positive : 0 < dist
  pub held : dist ≤ c.ototal
  pub near : dist ≤ up_ring
  pub nonempty : 0 < len
  pub bounded : len < 0xffff_ffff
  pub feasible : rice_feasible (sub32 dist 1) w.tok.gd.k ≡ true

-- An out-match that lies in the image, in the direction of the writes.
pub record FitsOut (geo : Geo) (w : ContentCursor) (p len : ℕ) : Type 0 where
  pub enabled : w.out_en ≡ true
  pub way : geo.fwd ≡ w.fwd
  pub inside : p < geo.image_span
  pub bounded : geo.image_span ≤ 2 ^ 31
  pub long : outmatch_min ≤ len
  pub ends : len ≤ (if w.fwd then geo.image_span - p else p + 1)
  pub expected : IsU32 w.oexp
  pub feasible : rice_feasible (outmatch_delta p w.oexp) w.tok.go.k ≡ true

unfoldable pub Fits : Geo → Content → ContentCursor → Token → Type 0
Fits geo c w (span_token start len) = (0 < len) × (len < 0xffff_ffff)
Fits geo c w (match_token dist len) = FitsMatch c w dist len
Fits geo c w (out_token p len) = FitsOut geo w p len

-- The state of the decoder that has read the token's header; a back-reference is an index of the ring.
unfoldable pub begun : Content → Token → Content → Content
unfolding starts
begun c (span_token start len) x = starts span c.tok_src len true x
begun c (match_token dist len) x = starts backref (sub32 c.ototal dist) len false x
begun c (out_token p len) x = starts out_match p len false x

pub put_match-again :
    (w : ContentCursor) (dist len : ℕ)
    → (dist == w.last_dist) ≡ true
    → put_match w dist len ≡ put_length (put_rep0 w true) len
unfolding put_match
put_match-again w dist len e = rw e refl

pub put_match-enabled :
    (w : ContentCursor) (dist len : ℕ)
    → (dist == w.last_dist) ≡ false
    → w.out_en ≡ true
    → put_match w dist len ≡ put_length (put_distance (put_outb (put_rep0 w false) false) dist) len
unfolding put_match put_rep0
put_match-enabled w dist len e on = rw (e, on) refl

pub put_match-disabled :
    (w : ContentCursor) (dist len : ℕ)
    → (dist == w.last_dist) ≡ false
    → w.out_en ≡ false
    → put_match w dist len ≡ put_length (put_distance (put_rep0 w false) dist) len
unfolding put_match put_rep0
put_match-disabled w dist len e off = rw (e, off) refl

module _ (geo : Geo) (out_read : ℕ → ℕ) (bytes more : List ℕ) (hb : IsBytes bytes) where
  -- The decoder comes from `x` to the state after `v`, given what it becomes of a coder.
  abbrev pub Comes : Content → (ContentCursor → RangeDec → Content) → ContentCursor → Type 0
  Comes x f v = (d' : RangeDec) × Tracks bytes more v.rc d' × (x ≡ f v d')

  abbrev pub at_match : Content → ℕ → ℕ → ContentCursor → RangeDec → Content
  at_match c dist len v d' = starts backref (sub32 c.ototal dist) len false (synced v d' c)

  pub again :
      (w : ContentCursor) (d : RangeDec) (c : Content) (dist len : ℕ)
      → w.last_dist ≡ dist
      → FitsMatch c w dist len
      → IsWriting w
      → Contains bytes (put_length (put_rep0 w true) len).rc
      → Tracks bytes more w.rc d
      → Comes
          (read_match geo out_read (synced w d c))
          (at_match c dist len)
          (put_length (put_rep0 w true) len)
  again w d c dist len same f h k t =
      let w1 = put_rep0 w true in
      let h1 = Writes-IsWriting (put_rep0-Writes w true h) in
      let small : sub32 len 1 < 0xffff_ffff = (let b = f.bounded in omega arith) in
      let k1 = (put_length-Writes w1 len small h1).later.back bytes hb k in
      let (d1, t1, e1) = read_match-put_rep0 geo out_read bytes more hb w d c true h k1 t in
      let (d2, t2, e2) =
        read_backref-put_length geo out_read bytes more hb w1 d1 c dist len f.positive f.held f.near
          f.nonempty f.bounded h1 k t1 in
      let by_last = ap (λ y. read_backref geo out_read (synced w1 d1 c) y) same in
      (d2, t2, e1 ∙ by_last ∙ e2)

  at_distance :
      (w : ContentCursor) (d : RangeDec) (c : Content) (dist len : ℕ)
      → FitsMatch c w dist len
      → IsWriting w
      → Contains bytes (put_length (put_distance w dist) len).rc
      → Tracks bytes more w.rc d
      → Comes
          (read_distance geo out_read (synced w d c))
          (at_match c dist len)
          (put_length (put_distance w dist) len)
  at_distance w d c dist len f h k t =
      let w1 = put_distance w dist in
      let h1 = Writes-IsWriting (put_distance-Writes w dist f.feasible h) in
      let small : sub32 len 1 < 0xffff_ffff =
        (let b = f.bounded in let n = f.nonempty in omega arith) in
      let k1 = (put_length-Writes w1 len small h1).later.back bytes hb k in
      let word : dist < 2 ^ 32 = (let b = f.near in omega arith) in
      let (d1, t1, e1) =
        read_distance-put_distance geo out_read bytes more hb w d c dist f.positive word f.feasible
          h k1 t in
      let (d2, t2, e2) =
        read_backref-put_length geo out_read bytes more hb w1 d1 c dist len f.positive f.held f.near
          f.nonempty f.bounded h1 k t1 in
      (d2, t2, e1 ∙ e2)

  put_length_distance-Writes :
      (w : ContentCursor) (c : Content) (dist len : ℕ)
      → FitsMatch c w dist len
      → IsWriting w
      → Writes w (put_length (put_distance w dist) len)
  put_length_distance-Writes w c dist len f h =
      let l = put_distance-Writes w dist f.feasible h in
      let small : sub32 len 1 < 0xffff_ffff =
        (let b = f.bounded in let n = f.nonempty in omega arith) in
      Writes-trans l (put_length-Writes (put_distance w dist) len small (Writes-IsWriting l))

  refit_rep0 :
      (w : ContentCursor) (c : Content) (dist len : ℕ) (b : Bool)
      → FitsMatch c w dist len
      → FitsMatch c (put_rep0 w b) dist len
  unfolding put_rep0
  refit_rep0 w c dist len b f = record {
    positive = f.positive;
    held = f.held;
    near = f.near;
    nonempty = f.nonempty;
    bounded = f.bounded;
    feasible = f.feasible;
  }

  refit_outb :
      (w : ContentCursor) (c : Content) (dist len : ℕ) (b : Bool)
      → FitsMatch c w dist len
      → FitsMatch c (put_outb w b) dist len
  unfolding put_outb
  refit_outb w c dist len b f = record {
    positive = f.positive;
    held = f.held;
    near = f.near;
    nonempty = f.nonempty;
    bounded = f.bounded;
    feasible = f.feasible;
  }

  put_rep0-out_en : (w : ContentCursor) (b : Bool) → (put_rep0 w b).out_en ≡ w.out_en
  unfolding put_rep0
  put_rep0-out_en w b = refl

  pub enabled_match :
      (w : ContentCursor) (d : RangeDec) (c : Content) (dist len : ℕ)
      → w.out_en ≡ true
      → FitsMatch c w dist len
      → IsWriting w
      → Contains bytes (put_length (put_distance (put_outb (put_rep0 w false) false) dist) len).rc
      → Tracks bytes more w.rc d
      → Comes
          (read_match geo out_read (synced w d c))
          (at_match c dist len)
          (put_length (put_distance (put_outb (put_rep0 w false) false) dist) len)
  enabled_match w d c dist len on f h k t =
      let w1 = put_rep0 w false in
      let w2 = put_outb w1 false in
      let h1 = Writes-IsWriting (put_rep0-Writes w false h) in
      let l2 = put_outb-Writes w1 false h1 in
      let h2 = Writes-IsWriting l2 in
      let f2 = refit_outb w1 c dist len false (refit_rep0 w c dist len false f) in
      let k2 = (put_length_distance-Writes w2 c dist len f2 h2).later.back bytes hb k in
      let k1 = l2.later.back bytes hb k2 in
      let (d1, t1, e1) = read_match-put_rep0 geo out_read bytes more hb w d c false h k1 t in
      let on1 = put_rep0-out_en w false ∙ on in
      let (d2, t2, e2) =
        read_fresh-put_outb geo out_read bytes more hb w1 d1 c false on1 h1 k2 t1 in
      let (d3, t3, e3) = at_distance w2 d2 c dist len f2 h2 k t2 in (d3, t3, e1 ∙ e2 ∙ e3)

  pub disabled_match :
      (w : ContentCursor) (d : RangeDec) (c : Content) (dist len : ℕ)
      → w.out_en ≡ false
      → FitsMatch c w dist len
      → IsWriting w
      → Contains bytes (put_length (put_distance (put_rep0 w false) dist) len).rc
      → Tracks bytes more w.rc d
      → Comes
          (read_match geo out_read (synced w d c))
          (at_match c dist len)
          (put_length (put_distance (put_rep0 w false) dist) len)
  disabled_match w d c dist len off f h k t =
      let w1 = put_rep0 w false in
      let h1 = Writes-IsWriting (put_rep0-Writes w false h) in
      let f1 = refit_rep0 w c dist len false f in
      let k1 = (put_length_distance-Writes w1 c dist len f1 h1).later.back bytes hb k in
      let (d1, t1, e1) = read_match-put_rep0 geo out_read bytes more hb w d c false h k1 t in
      let e2 =
        read_fresh-disabled geo out_read bytes more hb w1 d1 c (put_rep0-out_en w false ∙ off) in
      let (d3, t3, e3) = at_distance w1 d1 c dist len f1 h1 k t1 in (d3, t3, e1 ∙ e2 ∙ e3)

  again-Writes :
      (w : ContentCursor) (c : Content) (dist len : ℕ)
      → FitsMatch c w dist len
      → IsWriting w
      → Writes w (put_length (put_rep0 w true) len)
  again-Writes w c dist len f h =
      let l = put_rep0-Writes w true h in
      let small : sub32 len 1 < 0xffff_ffff =
        (let b = f.bounded in let n = f.nonempty in omega arith) in
      Writes-trans l (put_length-Writes (put_rep0 w true) len small (Writes-IsWriting l))

  fresh-Writes :
      (w : ContentCursor) (c : Content) (dist len : ℕ)
      → (dist == w.last_dist) ≡ false
      → FitsMatch c w dist len
      → IsWriting w
      → Writes w (put_match w dist len)
  fresh-Writes w c dist len e f h =
      let l = put_rep0-Writes w false h in
      let w1 = put_rep0 w false in
      let h1 = Writes-IsWriting l in
      let f1 = refit_rep0 w c dist len false f in
      elim (Bool-cases w.out_en) [
        | inl on ↦
            let l2 = put_outb-Writes w1 false h1 in
            let f2 = refit_outb w1 c dist len false f1 in
            subst (Writes w) (sym (put_match-enabled w dist len e on)) (
              Writes-trans l (
                Writes-trans l2 (
                  put_length_distance-Writes (put_outb w1 false) c dist len f2
                    (Writes-IsWriting l2))))
        | inr off ↦
            subst (Writes w) (sym (put_match-disabled w dist len e off))
              (Writes-trans l (put_length_distance-Writes w1 c dist len f1 h1))
      ]

  pub put_match-Writes :
      (w : ContentCursor) (c : Content) (dist len : ℕ)
      → FitsMatch c w dist len
      → IsWriting w
      → Writes w (put_match w dist len)
  put_match-Writes w c dist len f h = elim (Bool-cases (dist == w.last_dist)) [
    | inl e ↦ subst (Writes w) (sym (put_match-again w dist len e)) (again-Writes w c dist len f h)
    | inr e ↦ fresh-Writes w c dist len e f h
  ]
