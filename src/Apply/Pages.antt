-- ===== src/Apply/Pages.antt =====
-- The write-back cache of output pages of src/patch_apply.h: up_image_flash_read and the up_orow_ and
-- up_out_ functions. The flash primitives, the base of the image and the size of its partition belong
-- to the integrator.
pub mod Law
pub mod Commit
pub mod Load
pub mod Put
pub mod Write
use ultra_patch.Base.{
  ℕ, ◌+◌, ◌-◌, ◌*◌, ◌/◌, ◌%◌, ◌^◌, ◌≤◌, ◌<◌, ◌≡◌, Bool, true, false, ◌&&◌, not, ltb, leb, ◌==◌,
  if◌then◌else◌,
}
use ultra_patch.Base.Word.{u32}
use ultra_patch.Model.{update}

-- OUTROW
abbrev pub outrow : ℕ
outrow = 256

-- flash_read and flash_write_page on a device whose contents are an `F`, PATCH_IMAGE_BASE and
-- PATCH_IMAGE_CAPACITY. A page is a function from the offset.
pub record Device (F : Type 0) : Type 0 where
  pub flash_read : F → ℕ → ℕ
  pub flash_write_page : F → ℕ → (ℕ → ℕ) → F
  pub image_base : ℕ
  pub capacity : ℕ

-- UP_OROW_NONE
abbrev pub orow_none : ℕ
orow_none = 0xffff_ffff

abbrev pub page_base : ℕ → ℕ
page_base a = a / outrow * outrow

-- UP_OROW_SLOT, for OUTROW_DEPTH = 2
abbrev pub orow_slot : ℕ → ℕ
orow_slot base = base / outrow % 2

-- The device with g_orow_base, g_orow_dirty and g_orow_buf.
pub record Pages (F : Type 0) : Type 0 where
  pub flash : F
  pub base : ℕ → ℕ
  pub dirty : ℕ → Bool
  pub buf : ℕ → ℕ → ℕ

module _ {F : Type 0} (dev : Device F) where
  unfoldable pub image_flash_read : F → ℕ → ℕ
  image_flash_read f image_offset = dev.flash_read f (u32 (dev.image_base + image_offset))

  unfoldable pub orow_commit_slot : Pages F → ℕ → Pages F
  orow_commit_slot p s =
      let f = dev.flash_write_page p.flash (u32 (dev.image_base + p.base s)) (p.buf s) in
      record p {
        flash = if not (p.base s == orow_none) && p.dirty s then f else p.flash;
        dirty = update p.dirty s false;
        base = update p.base s orow_none;
      }

  -- The slot of the last page that an ascending apply writes.
  unfoldable pub last_slot : Bool → ℕ → ℕ
  last_slot fwd to_size =
      if fwd && not (to_size == 0) then orow_slot (page_base (to_size - 1)) else 0

  -- `last ^ 1` is the other slot.
  unfoldable pub orow_commit_all : Bool → ℕ → Pages F → Pages F
  unfolding last_slot
  orow_commit_all fwd to_size p =
      let last = last_slot fwd to_size in orow_commit_slot (orow_commit_slot p (1 - last)) last

  unfoldable pub orow_reset : Pages F → Pages F
  orow_reset p = record p { base = λ s. orow_none; dirty = λ s. false }

  unfoldable pub out_read : Pages F → ℕ → ℕ
  out_read p a =
      let b = page_base a in
      let s = orow_slot b in if p.base s == b then p.buf s (a - b) else image_flash_read p.flash a

  -- A new page in a slot: the old one is committed and the complete page is read.
  unfoldable pub load_page : Pages F → ℕ → Pages F
  load_page p b =
      let s = orow_slot b in
      let q = orow_commit_slot p s in
      record q {
        buf = update q.buf s (λ x. image_flash_read q.flash (b + x));
        base = update q.base s b;
      }

  unfoldable pub put_byte : Pages F → ℕ → ℕ → ℕ → Pages F
  put_byte p s off v =
      if p.buf s off == v
      then p
      else record p { buf = update p.buf s (update (p.buf s) off v); dirty = update p.dirty s true }

  unfoldable pub out_write : Pages F → ℕ → ℕ → Pages F
  out_write p a v =
      let b = page_base a in
      let s = orow_slot b in put_byte (if p.base s == b then p else load_page p b) s (a - b) v
