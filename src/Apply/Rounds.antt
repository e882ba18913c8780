-- ===== src/Apply/Rounds.antt =====
-- How many rounds the loop of up_next_content in src/patch_apply.h takes.
use ultra_patch.Base.{
  ℕ, suc, ◌+◌, ◌-◌, ◌<◌, ◌≡◌, ◌⊎◌, inl, inr, refl, ap, Bool, true, not, ◌||◌, ◌==◌, ltb, leb,
  if◌then◌else◌, if_cases, arith, Bool-cases,
}
use ultra_patch.Base.Word.{add32}
use ultra_patch.Coder.Prob.{s_bit_rate}
use ultra_patch.Coder.Decoder.{s_bit_r}
use ultra_patch.Model.Unary.{take_at}
use ultra_patch.Model.Golomb.{s_ug_gamma, s_ug_rice}
use ultra_patch.Model.Golomb.Bound.{s_ug_gamma-bound}
use ultra_patch.Apply.Content.{
  Geo, out_match, Content, failed, fail, up_ring, read_span, read_out_match, read_backref,
  read_distance, read_fresh, read_match, read_token, content_loop, replay, outmatch_pos, read_flag,
  outmatch_min,
}
use ultra_patch.Model.{bit_value}
use ultra_patch.Wire.Zigzag.{unzz32_value}

-- A token that can be replayed, an error, or an out-match.
abbrev IsRead : Content → Type 0
IsRead c = (failed c ≡ true) ⊎ ((0 < c.tok_left) ⊎ (c.tok_mode ≡ out_match))

same_branch :
    {A : Type 0} → (t : Bool) (x y z : A) → t ≡ true → (if t then x else y) ≡ (if t then x else z)
same_branch t x y z e = rw e refl

module _ (geo : Geo) (out_read : ℕ → ℕ) where
  read_span-IsRead : (c : Content) → IsRead (read_span geo out_read c)
  unfolding read_span
  read_span-IsRead c = let h = s_ug_gamma-bound c.tok.gs c.rc in inr (inl (omega arith))

  read_backref-IsRead : (c : Content) (d : ℕ) → IsRead (read_backref geo out_read c d)
  unfolding read_backref
  read_backref-IsRead c d =
      let h = s_ug_gamma-bound c.tok.gl c.rc in
      elim (Bool-cases (d == 0 || ltb c.ototal d || leb up_ring (d - 1))) [
        | inl e ↦ rw e (inl refl)
        | inr e ↦ rw e (inr (inl (omega arith)))
      ]

  read_out_match-IsRead : (c : Content) → IsRead (read_out_match geo out_read c)
  unfolding read_out_match
  read_out_match-IsRead c =
      let (z, go, rc1) = s_ug_rice c.tok.go c.rc in
      let p = outmatch_pos c.oexp (unzz32_value z) in
      let (v, glo, rc2) = s_ug_gamma c.tok.glo rc1 in
      let ln = add32 v outmatch_min in
      let over = if geo.fwd then ltb (geo.image_span - p) ln else ltb (p + 1) ln in
      elim (Bool-cases (rc2.rcerr || leb geo.image_span p || over)) [
        | inl e ↦ rw e (inl refl)
        | inr e ↦ rw e (inr (inr refl))
      ]

  read_distance-IsRead : (c : Content) → IsRead (read_distance geo out_read c)
  unfolding read_distance
  read_distance-IsRead c =
      let (v, gd, rc) = s_ug_rice c.tok.gd c.rc in
      let d = add32 v 1 in
      read_backref-IsRead (record c { rc = rc; tok = record (c.tok) { gd = gd }; lastdist = d }) d

  read_fresh-IsRead : (c : Content) → IsRead (read_fresh geo out_read c)
  unfolding read_fresh
  read_fresh-IsRead c =
      let (ob, outb, rc) = s_bit_r c.rc c.tok.outb s_bit_rate in
      let c1 : Content = record c { rc = rc; tok = record (c.tok) { outb = outb } } in
      let far = read_distance geo out_read c1 in
      if_cases IsRead (not c.out_en) (read_distance geo out_read c)
        (if ob then read_out_match geo out_read c1 else far) (λ e. read_distance-IsRead c)
        (λ e.
          if_cases IsRead ob (read_out_match geo out_read c1) far (λ d. read_out_match-IsRead c1)
            (λ d. read_distance-IsRead c1))

  read_match-IsRead : (c : Content) → IsRead (read_match geo out_read c)
  unfolding read_match
  read_match-IsRead c =
      let (rb, rep0, rc) = take_at c.tok.rep0 c.rep0h c.rc in
      let c1 : Content = record c {
        rc = rc;
        tok = record (c.tok) { rep0 = rep0 };
        rep0h = bit_value rb;
      } in
      if_cases IsRead rb (read_backref geo out_read c1 c1.lastdist) (read_fresh geo out_read c1)
        (λ e. read_backref-IsRead c1 c1.lastdist) (λ e. read_fresh-IsRead c1)

  read_token-IsRead : (c : Content) → IsRead (read_token geo out_read c)
  unfolding read_token
  read_token-IsRead c =
      let (is_match, c1) = read_flag geo out_read c in
      if_cases IsRead is_match (read_match geo out_read c1) (read_span geo out_read c1)
        (λ e. read_match-IsRead c1) (λ e. read_span-IsRead c1)

  -- In a state that has failed or has a byte to replay, the first round is the last.
  one_round :
      (fuel : ℕ) (c : Content) (tag : Bool)
      → (failed c ≡ true) ⊎ (0 < c.tok_left)
      → content_loop geo out_read (suc fuel) c tag ≡ content_loop geo out_read 1 c tag
  unfolding content_loop
  one_round fuel c tag (inl bad) =
      same_branch (failed c) (0, fail c)
        (if ltb 0 c.tok_left
          then replay geo out_read c tag
          else content_loop geo out_read fuel (read_token geo out_read c) tag)
        (if ltb 0 c.tok_left
          then replay geo out_read c tag
          else content_loop geo out_read 0 (read_token geo out_read c) tag)
        bad
  one_round fuel c tag (inr more) =
      let play : ltb 0 c.tok_left ≡ true = ground arith in
      ap (λ (r : ℕ × Content). if failed c then (0, fail c) else r)
        (same_branch (ltb 0 c.tok_left) (replay geo out_read c tag)
          (content_loop geo out_read fuel (read_token geo out_read c) tag)
          (content_loop geo out_read 0 (read_token geo out_read c) tag) play)

  -- An out-match whose length wraps to 0.
  abbrev pub IsWrapped : Content → Type 0
  IsWrapped c = (c.tok_mode ≡ out_match) × (c.tok_left ≡ 0)

  playable : (c : Content) → IsRead c → (IsWrapped c → ⊥) → (failed c ≡ true) ⊎ (0 < c.tok_left)
  playable c (inl bad) h = inl bad
  playable c (inr (inl more)) h = inr more
  playable c (inr (inr out)) h = elim (Bool-cases (c.tok_left == 0)) [
    | inl e ↦ absurd (h (out, ground arith))
    | inr e ↦ inr (ground arith)
  ]

  -- For every state of the token stream whose next token is not an out-match with a length that wraps
  -- to 0: a byte of content takes two rounds of the loop at most, so that more fuel changes nothing.
  pub content_loop-read_token :
      (fuel : ℕ) (c : Content) (tag : Bool)
      → (IsWrapped (read_token geo out_read c) → ⊥)
      → content_loop geo out_read (suc (suc fuel)) c tag ≡ content_loop geo out_read 2 c tag
  unfolding content_loop
  content_loop-read_token fuel c tag h =
      let c1 = read_token geo out_read c in
      ap
        (λ (r : ℕ × Content).
          if failed c
          then (0, fail c)
          else if ltb 0 c.tok_left
          then replay geo out_read c tag
          else r)
        (one_round fuel c1 tag (playable c1 (read_token-IsRead c) h))
