-- ===== src/Apply/Pages/Load.antt =====
-- What loading a page into its slot does to the cache: up_out_write of src/patch_apply.h on a page
-- change.
use ultra_patch.Base.{
  ℕ, ◌+◌, ◌-◌, ◌≤◌, ◌<◌, ◌≡◌, refl, sym, ap, ◌∙◌, true, false, ◌==◌, arith, subst, Bool-cases, inl,
  inr,
}
use ultra_patch.Apply.Pages.{
  Device, Pages, outrow, orow_none, page_base, orow_slot, image_flash_read, orow_commit_slot,
  out_read, load_page,
}
use ultra_patch.Apply.Pages.Law.{IsDevice, Occupied, IsPages, slot_of}
use ultra_patch.Apply.Pages.Commit.{
  out_read-commit, commit-IsPages, commit-emptied, Occupied-cong, out_read-miss, out_read-hit,
  page_inside, out_read-cong,
}

module _ {F : Type 0} (dev : Device F) (limit : ℕ) (law : IsDevice dev limit) where
  -- What loading a page leaves: its slot holds it, with the contents of the flash.
  pub load-base : (p : Pages F) (b : ℕ) → (load_page dev p b).base (orow_slot b) ≡ b
  unfolding load_page
  load-base p b = let e : (orow_slot b == orow_slot b) ≡ true = ground arith in rw e refl

  load-elsewhere :
      (p : Pages F) (b t : ℕ)
      → (orow_slot b == t) ≡ false
      → (load_page dev p b).base t ≡ (orow_commit_slot dev p (orow_slot b)).base t
  unfolding load_page
  load-elsewhere p b t h = rw h refl

  pub load-flash :
      (p : Pages F) (b : ℕ)
      → (load_page dev p b).flash ≡ (orow_commit_slot dev p (orow_slot b)).flash
  unfolding load_page
  load-flash p b = refl

  load-dirty :
      (p : Pages F) (b : ℕ)
      → (load_page dev p b).dirty ≡ (orow_commit_slot dev p (orow_slot b)).dirty
  unfolding load_page
  load-dirty p b = refl

  commit-clean : (p : Pages F) (s : ℕ) → (orow_commit_slot dev p s).dirty s ≡ false
  unfolding orow_commit_slot
  commit-clean p s = let e : (s == s) ≡ true = ground arith in rw e refl

  load-buf :
      (p : Pages F) (b x : ℕ)
      → (load_page dev p b).buf (orow_slot b) x
        ≡ image_flash_read dev (orow_commit_slot dev p (orow_slot b)).flash (b + x)
  unfolding load_page
  load-buf p b x = let e : (orow_slot b == orow_slot b) ≡ true = ground arith in rw e refl

  load-buf_elsewhere :
      (p : Pages F) (b t : ℕ)
      → (orow_slot b == t) ≡ false
      → (load_page dev p b).buf t ≡ (orow_commit_slot dev p (orow_slot b)).buf t
  unfolding load_page
  load-buf_elsewhere p b t h = rw h refl

  pub load-IsPages :
      (p : Pages F) (b : ℕ)
      → page_base b ≡ b
      → b + outrow ≤ limit
      → IsPages dev limit p
      → IsPages dev limit (load_page dev p b)
  load-IsPages p b al inside good t h =
      let q = orow_commit_slot dev p (orow_slot b) in
      elim (Bool-cases (orow_slot b == t)) [
        | inl e ↦
            let same : orow_slot b ≡ t = ground arith in
            subst (λ u. Occupied dev limit (load_page dev p b) u) same
              (let base = load-base p b in
                record {
                  aligned = ap page_base base ∙ al ∙ sym base;
                  slot = ap orow_slot base;
                  inside = subst (λ c. c + outrow ≤ limit) (sym base) inside;
                  clean = λ d x fit.
                      load-buf p b x
                      ∙ ap (λ c. image_flash_read dev q.flash (c + x)) (sym base)
                      ∙ ap
                          (λ f. image_flash_read dev f ((load_page dev p b).base (orow_slot b) + x))
                          (sym (load-flash p b));
                })
        | inr e ↦
            let at = load-elsewhere p b t e in
            let o =
              commit-IsPages dev limit law p (orow_slot b) good t
                (ap (λ c. c == orow_none) (sym at) ∙ h) in
            Occupied-cong dev limit law q (load_page dev p b) t o at (load-buf_elsewhere p b t e)
              (ap (λ f. f t) (load-dirty p b))
              (λ x fit. ap (λ f. image_flash_read dev f (q.base t + x)) (load-flash p b))
      ]

  -- In the slot that was filled, every address reads the flash: through the new page or past it.
  loaded_byte :
      (p : Pages F) (b x : ℕ)
      → orow_slot b ≡ slot_of x
      → out_read dev (load_page dev p b) x
        ≡ image_flash_read dev (orow_commit_slot dev p (orow_slot b)).flash x
  loaded_byte p b x same =
      let q = orow_commit_slot dev p (orow_slot b) in
      let r = load_page dev p b in
      let base = ap r.base (sym same) ∙ load-base p b in
      elim (Bool-cases (b == page_base x)) [
        | inl e ↦
            let page : b ≡ page_base x = ground arith in
            let sum : b + (x - page_base x) ≡ x = omega arith in
            out_read-hit dev limit law r x (base ∙ page)
            ∙ ap (λ s. r.buf s (x - page_base x)) (sym same)
            ∙ load-buf p b (x - page_base x)
            ∙ ap (λ y. image_flash_read dev q.flash y) sum
        | inr e ↦
            out_read-miss dev limit law r x (ap (λ c. c == page_base x) base ∙ e)
            ∙ ap (λ f. image_flash_read dev f x) (load-flash p b)
      ]

  pub out_read-load :
      (p : Pages F) (b x : ℕ)
      → IsPages dev limit p
      → b + outrow ≤ limit
      → x < limit
      → out_read dev (load_page dev p b) x ≡ out_read dev p x
  out_read-load p b x good inside fit =
      let q = orow_commit_slot dev p (orow_slot b) in
      let r = load_page dev p b in
      let before = out_read-commit dev limit law p (orow_slot b) x good fit in
      elim (Bool-cases (orow_slot b == slot_of x)) [
        | inl e ↦
            let same : orow_slot b ≡ slot_of x = ground arith in
            let empty = ap q.base (sym same) ∙ commit-emptied dev limit law p (orow_slot b) in
            let i = page_inside dev limit law x fit in
            let l = law.addresses in
            let gone = out_read-miss dev limit law q x (ground arith) in
            loaded_byte p b x same ∙ sym gone ∙ before
        | inr e ↦
            out_read-cong dev limit law q r x (load-elsewhere p b (slot_of x) e)
              (load-buf_elsewhere p b (slot_of x) e)
              (ap (λ f. image_flash_read dev f x) (load-flash p b))
            ∙ before
      ]
