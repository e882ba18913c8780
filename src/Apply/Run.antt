-- ===== src/Apply/Run.antt =====
-- A whole run of the decoder in src/patch_apply.h: up_flash_hist, up_decode_header, up_decode_body and
-- patch_apply_run. CRC32_DECODE is the default of the header, not an integrator's.
use ultra_patch.Base.{
  ℕ, zero, suc, ◌+◌, ◌-◌, ◌*◌, ◌%◌, Bool, true, false, ◌&&◌, ◌||◌, not, List, ltb, ◌==◌, max,
  if◌then◌else◌, bit_or,
}
use ultra_patch.Base.Int.{pos}
use ultra_patch.Base.Word.{u16, u32, add32}
use ultra_patch.Coder.Decoder.{RangeDec, rc_init, s_raw}
use ultra_patch.Model.{update, bit_value}
use ultra_patch.Model.Golomb.{s_ug_gamma}
use ultra_patch.Model.Init.{init_prekd, init_tok}
use ultra_patch.Model.Seed.{lit_tree_from_hist}
use ultra_patch.Delta.Cache.{dr_init}
use ultra_patch.Wire.Zigzag.{unzz32_value}
use ultra_patch.Crc.{crc32_decode_default}
use ultra_patch.Envelope.{
  Sizes, Walk, Fields, fields, resource, refused, wire_from_crc, read_fields,
}
use ultra_patch.Apply.Pages.{Device, image_flash_read, orow_commit_all, orow_reset}
use ultra_patch.Apply.Content.{Geo, Content, TokMode, idle, span, backref, out_match}
use ultra_patch.Apply.Relocs.{Relocs}
use ultra_patch.Apply.Copy.{Applying, stopped}
use ultra_patch.Apply.Step.{ops_loop}

-- The parity histograms of `left` bytes from offset `i` on.
unfoldable pub flash_hist : (ℕ → ℕ) → ℕ → ℕ → (ℕ → ℕ) → (ℕ → ℕ) → (ℕ → ℕ) × (ℕ → ℕ)
flash_hist flash zero i hist0 hist1 = (hist0, hist1)
flash_hist flash (suc left) i hist0 hist1 =
    let v = flash i in
    if i % 2 == 1
    then flash_hist flash left (i + 1) hist0 (update hist1 v (add32 (hist1 v) 1))
    else flash_hist flash left (i + 1) (update hist0 v (add32 (hist0 v) 1)) hist1

unfoldable pub raw_bits : ℕ → ℕ → RangeDec → ℕ × RangeDec
raw_bits zero v rc = (v, rc)
raw_bits (suc nb) v rc =
    let (b, rc1) = s_raw rc in raw_bits nb (bit_or (u32 (v * 2)) (bit_value b)) rc1

-- The shift map while it is read, `last` being its last boundary.
pub record MapReader : Type 0 where
  pub rc : RangeDec
  pub relocs : Relocs
  pub last : ℕ

unfoldable pub map_entry : MapReader → ℕ → MapReader
map_entry m i =
    let r = m.relocs in
    let (g, gdl, rc1) = s_ug_gamma r.pre.gdl m.rc in
    let gap = if i == 0 then g else add32 g 1 in
    let (z, gadj, rc2) = s_ug_gamma r.pre.gadj rc1 in
    let b = m.last + gap in
    if ltb (0xffff_ffff - m.last) gap
    then record m {
      rc = record rc1 { rcerr = true };
      relocs = record r { pre = record (r.pre) { gdl = gdl } };
    }
    else record m {
      rc = rc2;
      relocs = record r {
        pre = record (r.pre) { gdl = gdl; gadj = gadj };
        smap_b = update r.smap_b i b;
        smap_v = update r.smap_v i (unzz32_value z);
      };
      last = b;
    }

-- Entries from `i` on, `left` of them.
unfoldable pub read_map : ℕ → ℕ → MapReader → MapReader
unfolding map_entry
read_map zero i m = m
read_map (suc left) i m =
    let rest = read_map left (i + 1) (map_entry m i) in if m.rc.rcerr then m else rest

-- UP_SMAP_CAP
abbrev pub smap_cap : ℕ
smap_cap = 48

-- RC_KFIELD_BITS
abbrev pub kfield_bits : ℕ
kfield_bits = 4

-- The models and the map before the map is read; what the code leaves unset there is 0.
unfoldable pub relocs_start : Relocs
relocs_start = record {
  pre = init_prekd;
  dr_bl = dr_init (λ i. pos 0);
  dr_ex = dr_init (λ i. pos 0);
  smap_b = λ i. 0;
  smap_v = λ i. pos 0;
  smap_n = 0;
  psrc_ldr = λ i. false;
  psrc_even = 0;
  psrc_lo = 0;
}

-- The token state behind the three raw fields of the header of the body.
unfoldable pub content_start : Geo → RangeDec → (ℕ → ℕ) → (ℕ → ℕ) → Content
unfolding raw_bits
content_start geo rc tree0 tree1 =
    let (out_en, rc1) = s_raw rc in
    let (kd, rc2) = raw_bits kfield_bits 0 rc1 in
    let (ko, rc3) = raw_bits kfield_bits 0 rc2 in
    record {
      rc = if out_en then rc3 else rc2;
      lit0 = λ c. tree0;
      lit1 = tree1;
      tok = init_tok kd (if out_en then ko else 0);
      out_en = out_en;
      litprev = 0;
      rep0h = 0;
      oexp = if geo.fwd then 0 else geo.to_size;
      lastdist = 0;
      ring = λ i. 0;
      ototal = 0;
      tok_left = 0;
      tok_src = 0;
      tok_mode = idle;
      last_span = false;
    }

-- REJ_RESOURCE and REJ_CORRUPT
pub data Reject : Type 0 where
  rej_resource : Reject
  rej_corrupt : Reject

-- PATCH_APPLY_DONE, or PATCH_APPLY_ERROR with g_reject.
pub data PatchApplyResult : Type 0 where
  done : PatchApplyResult
  error : Reject → PatchApplyResult

unfoldable pub geo_of : Sizes → Walk → Geo
geo_of s w = record {
  fwd = w.fwd;
  from_size = s.from_size;
  to_size = s.to_size;
  image_span = max s.from_size s.to_size;
}

abbrev pub is_idle : TokMode → Bool
is_idle idle = true
is_idle span = false
is_idle backref = false
is_idle out_match = false

module _ {F : Type 0} (dev : Device F) where
  -- CRC32_DECODE of the first `size` bytes of the image.
  abbrev pub image_crc : F → ℕ → ℕ
  image_crc f size = crc32_decode_default (dev.flash_read f) dev.image_base size

  -- The gate on the source image.
  unfoldable pub check_source : F → Fields → Fields
  check_source f (fields s w rest) =
      if wire_from_crc (image_crc f s.from_size) == s.want_from then fields s w rest else refused
  check_source f resource = resource
  check_source f refused = refused

  unfoldable pub decode_header : F → List ℕ → Fields
  unfolding check_source
  decode_header f src = check_source f (read_fields dev.capacity src)

  -- The two kinds of literal trees.
  unfoldable pub seed_trees : F → ℕ → (ℕ → ℕ) × (ℕ → ℕ)
  unfolding flash_hist
  seed_trees f fs =
      let (hist0, hist1) = flash_hist (image_flash_read dev f) fs 0 (λ i. 1) (λ i. 1) in
      (lit_tree_from_hist (λ i. 0) hist0, lit_tree_from_hist (λ i. 0) hist1)

  unfoldable pub apply_start : F → Sizes → Walk → MapReader → ℕ → Applying F
  unfolding seed_trees content_start
  apply_start f s w m mn =
      let (tree0, tree1) = seed_trees f s.from_size in
      record {
        content = content_start (geo_of s w) m.rc tree0 tree1;
        relocs = record (m.relocs) { smap_n = u16 mn };
        pages =
            orow_reset dev
              (record { flash = f; base = λ i. 0; dirty = λ i. false; buf = λ i j. 0 });
        tp = if w.fwd then 0 else s.to_size;
        fp = if w.fwd then w.fp_start else pos w.fp_end;
      }

  -- The apply phase: the device as it is left, and whether the body was decoded.
  unfoldable pub apply_phase : Geo → Applying F → F × Bool
  apply_phase geo st =
      let st1 = ops_loop dev geo (suc geo.to_size) st in
      if stopped st
      then (st.pages.flash, false)
      else if stopped st1 || not (is_idle st1.content.tok_mode)
      then (st1.pages.flash, false)
      else ((orow_commit_all dev geo.fwd geo.to_size st1.pages).flash, true)

  -- The verdict on a decoded body is the CRC of the image.
  unfoldable pub verdict : Sizes → F × Bool → F × PatchApplyResult
  verdict s (f, decoded) =
      (f, if decoded && image_crc f s.to_size == s.want_to then done else error rej_corrupt)

  -- What follows an accepted header.
  unfoldable pub run_body : F → Sizes → Walk → List ℕ → F × PatchApplyResult
  unfolding apply_start read_map apply_phase verdict
  run_body f s w rest =
      let rc0 = rc_init rest w.body_left in
      let (mn, gdl, rc1) = s_ug_gamma relocs_start.pre.gdl rc0 in
      let r = relocs_start in
      let m =
        read_map mn 0 (record {
          rc = rc1;
          relocs = record r { pre = record (r.pre) { gdl = gdl } };
          last = 0;
        }) in
      if rc0.rcerr
      then (f, error rej_corrupt)
      else if ltb smap_cap mn
      then (f, error rej_resource)
      else if m.rc.rcerr
      then (f, error rej_corrupt)
      else verdict s (apply_phase (geo_of s w) (apply_start f s w m mn))

  unfoldable pub run_header : F → Fields → F × PatchApplyResult
  unfolding run_body
  run_header f (fields s w rest) = run_body f s w rest
  run_header f resource = (f, error rej_resource)
  run_header f refused = (f, error rej_corrupt)

  unfoldable pub patch_apply_run : F → List ℕ → F × PatchApplyResult
  unfolding decode_header run_header
  patch_apply_run f src = run_header f (decode_header f src)
