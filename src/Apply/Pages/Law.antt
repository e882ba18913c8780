-- ===== src/Apply/Pages/Law.antt =====
-- What the decoder of src/patch_apply.h relies on in the flash primitives, and the invariant of its page
-- cache.
use ultra_patch.Base.{
  ℕ, ◌+◌, ◌-◌, ◌%◌, ◌^◌, ◌≤◌, ◌<◌, ◌≡◌, false, ◌&&◌, ltb, leb, ◌==◌, if◌then◌else◌,
}
use ultra_patch.Apply.Pages.{
  Device, Pages, outrow, orow_none, page_base, orow_slot, image_flash_read,
}

-- The addresses of the image below `limit`, at most the partition. The write of an aligned page of
-- them programs the complete page and changes nothing else of
-- them; they consist of complete pages and end within the address space, as the header asserts of the
-- partition.
pub record IsDevice {F : Type 0} (dev : Device F) (limit : ℕ) : Type 0 where
  pub writes :
      (f : F) (a : ℕ) (page : ℕ → ℕ) (x : ℕ)
      → a % outrow ≡ 0
      → dev.image_base ≤ a
      → a + outrow ≤ dev.image_base + limit
      → dev.image_base ≤ x
      → x < dev.image_base + limit
      → dev.flash_read (dev.flash_write_page f a page) x
        ≡ (if leb a x && ltb x (a + outrow) then page (x - a) else dev.flash_read f x)
  pub base_aligned : dev.image_base % outrow ≡ 0
  pub limit_aligned : limit % outrow ≡ 0
  pub addresses : dev.image_base + limit ≤ 2 ^ 32

-- An occupied slot holds a page below the limit that belongs there, and a clean one the contents of
-- the flash.
pub record Occupied {F : Type 0} (dev : Device F) (limit : ℕ) (p : Pages F) (s : ℕ) : Type 0 where
  pub aligned : page_base (p.base s) ≡ p.base s
  pub slot : orow_slot (p.base s) ≡ s
  pub inside : p.base s + outrow ≤ limit
  pub clean :
      p.dirty s ≡ false
      → (x : ℕ) → x < outrow
      → p.buf s x ≡ image_flash_read dev p.flash (p.base s + x)

abbrev pub IsPages : {F : Type 0} → Device F → ℕ → Pages F → Type 0
IsPages dev limit p = (s : ℕ) → (p.base s == orow_none) ≡ false → Occupied dev limit p s

-- The slot of an address.
abbrev pub slot_of : ℕ → ℕ
slot_of x = orow_slot (page_base x)
