-- ===== src/Apply/Copy.antt =====
-- The copy of an operation in src/patch_apply.h: up_LitCur, up_litcur_step, up_litcur_init, up_wr_extras,
-- up_wr_copy and the loop of up_apply_op.
use ultra_patch.Base.{
  ℕ, zero, suc, ◌+◌, ◌-◌, ◌*◌, ◌/◌, ◌%◌, ◌^◌, Bool, false, ◌||◌, not, List, ltb, leb, ◌==◌,
  if◌then◌else◌, bit_or, get_or,
}
use ultra_patch.Base.Int.{ℤ, pos, negsuc, ◌+ℤ◌, ◌-ℤ◌, ltb_ℤ}
use ultra_patch.Base.Word.{u8, u32, add32, sub32, to_u32}
use ultra_patch.Delta.Cache.{eq_ℤ}
use ultra_patch.Apply.Pages.{Device, Pages, image_flash_read, out_read, out_write}
use ultra_patch.Apply.Content.{Geo, Content, failed, fail, next_content, read_uleb}
use ultra_patch.Apply.Relocs.{
  Relocs, Field, no_field, packed, suppressed, hy_src_peek, hy_src_rec, hy_word4_peek, field_at,
}

-- The state of the apply phase. `tp` and `fp` are the cursors of up_ApplyState, of which the first is
-- never negative.
pub record Applying (F : Type 0) : Type 0 where
  pub content : Content
  pub relocs : Relocs
  pub pages : Pages F
  pub tp : ℕ
  pub fp : ℤ

-- The literal cursor; its step is the direction and its limit the length of the copy. `nextpos` is
-- -1 when no literal is left.
pub record LitCur : Type 0 where
  pub nextpos : ℤ
  pub litb : ℕ
  pub li : ℕ

-- An operation in progress: where it writes and reads, how much it copies, and its literals.
pub record Op : Type 0 where
  pub tp0 : ℕ
  pub fp0 : ℤ
  pub dl : ℕ
  pub el : ℕ
  pub nl : ℕ

-- The loop: `left` bytes of the copy are to come, so that k is dl - left going up and left - 1 going
-- down, and a window of four bytes fits exactly when four are left.
pub record Loop (F : Type 0) : Type 0 where
  pub st : Applying F
  pub lc : LitCur
  pub srcw : ℕ
  pub srcw_at : ℤ
  pub left : ℕ

abbrev pub stopped : {F : Type 0} → Applying F → Bool
stopped st = failed st.content

abbrev pub stop : {F : Type 0} → Applying F → Applying F
stop st = record st { content = fail st.content }

module _ {F : Type 0} (dev : Device F) (geo : Geo) where
  -- The output as it is read back, and the source.
  abbrev pub output : Applying F → ℕ → ℕ
  output st = out_read dev st.pages

  abbrev pub source : Applying F → ℕ → ℕ
  source st = image_flash_read dev st.pages.flash

  unfoldable pub litcur_step : Applying F → Op → LitCur → LitCur × Content
  litcur_step st op lc =
      let (g, c1) = read_uleb geo (output st) st.content in
      let np = if geo.fwd then add32 (to_u32 lc.nextpos) g else sub32 (to_u32 lc.nextpos) g in
      let (b, c2) = next_content geo (output st) c1 false in
      if not (ltb lc.li op.nl)
      then (record lc { nextpos = negsuc 0 }, st.content)
      else if ltb op.dl g || ltb op.dl np
      then (record lc { nextpos = negsuc 0 }, fail c1)
      else (record lc { nextpos = if failed c2 then negsuc 0 else pos np; litb = b }, c2)

  unfoldable pub litcur_init : Applying F → Op → LitCur × Content
  unfolding litcur_step
  litcur_init st op =
      litcur_step st op (record { nextpos = pos (if geo.fwd then 0 else op.dl); litb = 0; li = 0 })

  -- One extra byte at address `a`.
  unfoldable pub wr_extra : Applying F → ℕ → Applying F
  wr_extra st a =
      let (b, c) = next_content geo (output st) st.content (a % 2 == 1) in
      if failed c
      then record st { content = c }
      else record st { content = c; pages = out_write dev st.pages a b }

  -- The last `left` of the extra bytes in the direction of the writes.
  unfoldable pub wr_extras : ℕ → Applying F → Op → Applying F
  unfolding wr_extra
  wr_extras zero st op = st
  wr_extras (suc left) st op =
      let e = if geo.fwd then op.el - suc left else left in
      let rest = wr_extras left (wr_extra st (op.tp0 + op.dl + e)) op in
      if stopped st then st else rest

  -- The literal for position `k`, if the cursor stands there, and the cursor after it.
  unfoldable pub take_literal : Applying F → Op → LitCur → ℕ → ℕ × LitCur × Content
  unfolding litcur_step
  take_literal st op lc k =
      let (lc1, c1) = litcur_step st op (record lc { li = lc.li + 1 }) in
      if eq_ℤ (pos k) lc.nextpos then (lc.litb, lc1, c1) else (0, lc, st.content)

  unfoldable pub wr_copy : Applying F → Op → LitCur → ℤ → ℕ → ℕ → Applying F × LitCur
  unfolding take_literal
  wr_copy st op lc fp k src =
      let (db, lc1, c1) = take_literal st op lc k in
      let r = if geo.fwd then hy_src_rec geo (source st) st.relocs fp src else st.relocs in
      if failed c1 then (record st { content = c1 }, lc1) else (
        record st {
          content = c1;
          relocs = r;
          pages = out_write dev st.pages (op.tp0 + k) (u8 (db + src));
        },
        lc1,
      )

  -- The last `left` bytes of the window at `a0` with the word `w`: the packed bytes, or copies.
  unfoldable pub put_packed : ℕ → Applying F → Op → ℕ → List ℕ → Applying F
  put_packed zero st op a0 bytes = st
  put_packed (suc left) st op a0 bytes =
      let b = if geo.fwd then 4 - suc left else left in
      put_packed left
        (record st { pages = out_write dev st.pages (op.tp0 + a0 + b) (get_or bytes b 0) }) op a0
        bytes

  unfoldable pub put_copies : ℕ → Applying F → Op → LitCur → ℕ → ℕ → Applying F × LitCur
  unfolding wr_copy
  put_copies zero st op lc a0 w = (st, lc)
  put_copies (suc left) st op lc a0 w =
      let b = if geo.fwd then 4 - suc left else left in
      let (st1, lc1) = wr_copy st op lc (op.fp0 +ℤ pos (a0 + b)) (a0 + b) (u8 (w / 2 ^ (8 * b))) in
      put_copies left st1 op lc1 a0 w

  abbrev pub loop_k : Op → Loop F → ℕ
  loop_k op l = if geo.fwd then op.dl - l.left else l.left - 1

  -- The source word at `a0`, which slides by a byte where it can.
  unfoldable pub slide_word : Op → Loop F → ℕ → ℕ
  slide_word op l a0 =
      let up =
        bit_or (l.srcw / 2 ^ 8) (hy_src_peek geo (source l.st) (op.fp0 +ℤ pos (a0 + 3)) * 2 ^ 24) in
      let down = bit_or (u32 (l.srcw * 2 ^ 8)) (hy_src_peek geo (source l.st) (op.fp0 +ℤ pos a0)) in
      let step = if geo.fwd then pos 1 else negsuc 0 in
      if eq_ℤ (pos a0) (l.srcw_at +ℤ step)
      then (if geo.fwd then up else down)
      else hy_word4_peek geo (source l.st) (op.fp0 +ℤ pos a0)

  abbrev pub is_pure : LitCur → ℕ → Bool
  is_pure lc a0 =
      ltb_ℤ lc.nextpos (pos 0) || ltb_ℤ lc.nextpos (pos a0) || not (ltb_ℤ lc.nextpos (pos (a0 + 4)))

  -- A single byte of the copy.
  unfoldable pub copy_byte : Op → Loop F → ℕ → Loop F
  unfolding wr_copy
  copy_byte op l src =
      let k = loop_k op l in
      let (st1, lc1) = wr_copy l.st op l.lc (op.fp0 +ℤ pos k) k src in
      record l { st = st1; lc = lc1; left = l.left - 1 }

  -- What follows the detection in the window at `a0`.
  unfoldable pub copy_field : Op → Loop F → ℕ → Field → Loop F
  unfolding copy_byte put_packed put_copies
  copy_field op l a0 no_field = copy_byte op l (if geo.fwd then u8 l.srcw else u8 (l.srcw / 2 ^ 24))
  copy_field op l a0 (packed bytes) = record l {
    st = put_packed 4 l.st op a0 bytes;
    left = l.left - 4;
  }
  copy_field op l a0 suppressed =
      let (st1, lc1) = put_copies 4 l.st op l.lc a0 l.srcw in
      record l { st = st1; lc = lc1; left = l.left - 4 }

  unfoldable pub copy_window : Op → Loop F → ℕ → Loop F
  unfolding slide_word copy_field
  copy_window op l a0 =
      let w = slide_word op l a0 in
      let st = l.st in
      let (fa, r, rc) =
        field_at geo (source st) st.relocs st.content.rc op.fp0 a0 w (is_pure l.lc a0) op.dl in
      copy_field op
        (record l {
          st = record st { relocs = r; content = record (st.content) { rc = rc } };
          srcw = w;
          srcw_at = pos a0;
        })
        a0 fa

  -- Too few bytes for a window: the byte may still be in the last word.
  unfoldable pub copy_tail : Op → Loop F → Loop F
  unfolding copy_byte
  copy_tail op l =
      let k = loop_k op l in
      let d = to_u32 (pos k -ℤ l.srcw_at) in
      copy_byte op l (
        if ltb d 4
        then u8 (l.srcw / 2 ^ (8 * d))
        else hy_src_peek geo (source l.st) (op.fp0 +ℤ pos k))

  unfoldable pub copy_round : Op → Loop F → Loop F
  unfolding copy_window copy_tail
  copy_round op l =
      let k = loop_k op l in
      if leb 4 l.left then copy_window op l (if geo.fwd then k else k - 3) else copy_tail op l

  -- Every round takes a byte at least, so that a round for each byte is enough.
  unfoldable pub copy_loop : ℕ → Op → Loop F → Loop F
  unfolding copy_round
  copy_loop zero op l = l
  copy_loop (suc fuel) op l =
      let next = copy_round op l in
      let rest = copy_loop fuel op next in if l.left == 0 || stopped l.st then l else rest
