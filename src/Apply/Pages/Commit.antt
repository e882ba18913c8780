-- ===== src/Apply/Pages/Commit.antt =====
-- What committing a slot of the page cache does: nothing that up_out_read can see.
use ultra_patch.Base.{
  ℕ, ◌+◌, ◌-◌, ◌≤◌, ◌<◌, ◌≡◌, refl, sym, ap, ◌∙◌, true, false, ◌&&◌, ltb, leb, ◌==◌, if◌then◌else◌,
  arith, subst, Bool-cases, inl, inr,
}
use ultra_patch.Base.Word.{u32}
use ultra_patch.Apply.Pages.{
  Device, Pages, outrow, orow_none, page_base, orow_slot, image_flash_read, orow_commit_slot,
  out_read,
}
use ultra_patch.Apply.Pages.Law.{IsDevice, Occupied, IsPages, slot_of}

module _ {F : Type 0} (dev : Device F) (limit : ℕ) (law : IsDevice dev limit) where
  pub out_read-hit :
      (p : Pages F) (x : ℕ)
      → p.base (orow_slot (page_base x)) ≡ page_base x
      → out_read dev p x ≡ p.buf (orow_slot (page_base x)) (x - page_base x)
  unfolding out_read
  out_read-hit p x h =
      let e : (p.base (orow_slot (page_base x)) == page_base x) ≡ true = ground arith in rw e refl

  pub out_read-miss :
      (p : Pages F) (x : ℕ)
      → (p.base (orow_slot (page_base x)) == page_base x) ≡ false
      → out_read dev p x ≡ image_flash_read dev p.flash x
  unfolding out_read
  out_read-miss p x h = rw h refl

  -- A page write as the image sees it.
  pub image_flash_read-write :
      (f : F) (b : ℕ) (page : ℕ → ℕ) (x : ℕ)
      → page_base b ≡ b
      → b + outrow ≤ limit
      → x < limit
      → image_flash_read dev (dev.flash_write_page f (u32 (dev.image_base + b)) page) x
        ≡ (if b == page_base x then page (x - b) else image_flash_read dev f x)
  unfolding image_flash_read
  image_flash_read-write f b page x al inside fit =
      let l = law.addresses in
      let ba = law.base_aligned in
      let w =
        law.writes f (u32 (dev.image_base + b)) page (u32 (dev.image_base + x)) (omega arith)
          (omega arith) (omega arith) (omega arith) (omega arith) in
      let same : (leb (u32 (dev.image_base + b)) (u32 (dev.image_base + x))
            && ltb (u32 (dev.image_base + x)) (u32 (dev.image_base + b) + outrow))
          ≡ (b == page_base x) =
        ground arith in
      let off : u32 (dev.image_base + x) - u32 (dev.image_base + b) ≡ x - b = omega arith in
      w ∙ rw (same, off) refl

  occupied :
      (p : Pages F) (s b : ℕ) → p.base s ≡ b → b + outrow ≤ limit → (p.base s == orow_none) ≡ false
  occupied p s b e inside = let l = law.addresses in ground arith

  pub page_inside : (x : ℕ) → x < limit → page_base x + outrow ≤ limit
  page_inside x h = let c = law.limit_aligned in omega arith

  -- A test for equality decides what its branch may assume.
  branch : (a b : ℕ) (f : ℕ → ℕ) (r : ℕ) → (if a == b then f a else r) ≡ (if a == b then f b else r)
  branch a b f r = elim (Bool-cases (a == b)) [
    | inl e ↦ let same : a ≡ b = ground arith in rw same refl
    | inr e ↦ rw e refl
  ]

  -- The flash after a commit: only a dirty page of an occupied slot is written.
  pub committed :
      (p : Pages F) (s x : ℕ)
      → IsPages dev limit p
      → x < limit
      → image_flash_read dev (orow_commit_slot dev p s).flash x ≡ (
          if p.base s == page_base x
          then p.buf s (x - page_base x)
          else image_flash_read dev p.flash x)
  unfolding orow_commit_slot
  committed p s x good fit =
      let inside = page_inside x fit in
      elim (Bool-cases (p.base s == orow_none)) [
        | inl e ↦
            let apart : (p.base s == page_base x) ≡ false =
              (let l = law.addresses in ground arith) in
            rw (e, apart) refl
        | inr e ↦
            let o = good s e in
            elim (Bool-cases (p.dirty s)) [
              | inl d ↦
                  rw (e, d)
                    (image_flash_read-write p.flash (p.base s) (p.buf s) x o.aligned o.inside fit
                      ∙ branch (p.base s) (page_base x) (λ y. p.buf s (x - y))
                          (image_flash_read dev p.flash x))
              | inr d ↦
                  rw (e, d)
                    elim (Bool-cases (p.base s == page_base x)) [
                      | inl h ↦
                          let sum : p.base s + (x - page_base x) ≡ x = ground arith in
                          rw h (
                            sym (
                              o.clean d (x - page_base x) (omega arith)
                              ∙ ap (λ y. image_flash_read dev p.flash y) sum))
                      | inr h ↦ rw h refl
                    ]
            ]
      ]

  pub commit-elsewhere :
      (p : Pages F) (s t : ℕ) → (s == t) ≡ false → (orow_commit_slot dev p s).base t ≡ p.base t
  unfolding orow_commit_slot
  commit-elsewhere p s t h = rw h refl

  pub commit-emptied : (p : Pages F) (s : ℕ) → (orow_commit_slot dev p s).base s ≡ orow_none
  unfolding orow_commit_slot
  commit-emptied p s = let e : (s == s) ≡ true = ground arith in rw e refl

  commit-buf : (p : Pages F) (s : ℕ) → (orow_commit_slot dev p s).buf ≡ p.buf
  unfolding orow_commit_slot
  commit-buf p s = refl

  pub out_read_lem :
      (p : Pages F) (x : ℕ)
      → out_read dev p x ≡ (
          if p.base (slot_of x) == page_base x
          then p.buf (slot_of x) (x - page_base x)
          else image_flash_read dev p.flash x)
  unfolding out_read
  out_read_lem p x = refl

  -- What is read back depends on one slot and on one byte of the flash.
  pub out_read-cong :
      (p q : Pages F) (x : ℕ)
      → q.base (slot_of x) ≡ p.base (slot_of x)
      → q.buf (slot_of x) ≡ p.buf (slot_of x)
      → image_flash_read dev q.flash x ≡ image_flash_read dev p.flash x
      → out_read dev q x ≡ out_read dev p x
  out_read-cong p q x hb hf hr = out_read_lem q x ∙ rw (hb, hf, hr) refl ∙ sym (out_read_lem p x)

  -- The page of an address stands in no slot but its own.
  pub apart :
      (p : Pages F) (s x : ℕ)
      → IsPages dev limit p
      → x < limit
      → (s == slot_of x) ≡ false
      → (p.base s == page_base x) ≡ false
  apart p s x good fit e = elim (Bool-cases (p.base s == page_base x)) [
    | inl h ↦
        let at : p.base s ≡ page_base x = ground arith in
        let o = good s (occupied p s (page_base x) at (page_inside x fit)) in
        let own : s ≡ slot_of x = sym o.slot ∙ ap orow_slot at in absurd (ground arith)
    | inr h ↦ h
  ]

  -- Committing a slot changes nothing that is read back.
  pub out_read-commit :
      (p : Pages F) (s x : ℕ)
      → IsPages dev limit p
      → x < limit
      → out_read dev (orow_commit_slot dev p s) x ≡ out_read dev p x
  out_read-commit p s x good fit =
      let q = orow_commit_slot dev p s in
      let t = slot_of x in
      let inside = page_inside x fit in
      let l = law.addresses in
      let flash = committed p s x good fit in
      elim (Bool-cases (s == t)) [
        | inl e ↦
            let same : s ≡ t = ground arith in
            let empty = commit-emptied p s in
            let gone : (q.base t == page_base x) ≡ false =
              subst (λ u. (q.base u == page_base x) ≡ false) same (ground arith) in
            out_read-miss q x gone
            ∙ flash
            ∙ subst
                (λ u.
                  (if p.base u == page_base x
                    then p.buf u (x - page_base x)
                    else image_flash_read dev p.flash x)
                  ≡ out_read dev p x)
                (sym same) (sym (out_read_lem p x))
        | inr e ↦
            let other : (p.base s == page_base x) ≡ false = apart p s x good fit e in
            out_read-cong p q x (commit-elsewhere p s t e) (ap (λ f. f t) (commit-buf p s))
              (flash ∙ rw other refl)
      ]

  commit-dirty :
      (p : Pages F) (s t : ℕ) → (s == t) ≡ false → (orow_commit_slot dev p s).dirty t ≡ p.dirty t
  unfolding orow_commit_slot
  commit-dirty p s t h = rw h refl

  pub Occupied-cong :
      (p q : Pages F) (t : ℕ)
      → Occupied dev limit p t
      → q.base t ≡ p.base t
      → q.buf t ≡ p.buf t
      → q.dirty t ≡ p.dirty t
      → ((x : ℕ)
          → x < outrow
          → image_flash_read dev q.flash (p.base t + x)
            ≡ image_flash_read dev p.flash (p.base t + x))
      → Occupied dev limit q t
  Occupied-cong p q t o hb hf hd hr = record {
    aligned = ap page_base hb ∙ o.aligned ∙ sym hb;
    slot = ap orow_slot hb ∙ o.slot;
    inside = subst (λ b. b + outrow ≤ limit) (sym hb) o.inside;
    clean = λ d x fit.
        ap (λ f. f x) hf
        ∙ o.clean (sym hd ∙ d) x fit
        ∙ sym (hr x fit)
        ∙ ap (λ b. image_flash_read dev q.flash (b + x)) (sym hb);
  }

  -- The flash below an occupied slot is not touched when another slot is committed.
  elsewhere_kept :
      (p : Pages F) (s t x : ℕ)
      → IsPages dev limit p
      → Occupied dev limit p t
      → (s == t) ≡ false
      → x < outrow
      → image_flash_read dev (orow_commit_slot dev p s).flash (p.base t + x)
        ≡ image_flash_read dev p.flash (p.base t + x)
  elsewhere_kept p s t x good o e fit =
      let inside = o.inside in
      let al = o.aligned in
      let y = p.base t + x in
      let page : page_base y ≡ p.base t = omega arith in
      let own : slot_of y ≡ t = ap orow_slot page ∙ o.slot in
      let other = apart p s y good (omega arith) (ap (λ u. s == u) own ∙ e) in
      committed p s y good (omega arith) ∙ rw other refl

  pub commit-IsPages :
      (p : Pages F) (s : ℕ) → IsPages dev limit p → IsPages dev limit (orow_commit_slot dev p s)
  commit-IsPages p s good t h = elim (Bool-cases (s == t)) [
    | inl e ↦
        let same : s ≡ t = ground arith in
        let empty = ap (λ u. (orow_commit_slot dev p s).base u) (sym same) ∙ commit-emptied p s in
        absurd (ground arith)
    | inr e ↦
        let at = commit-elsewhere p s t e in
        let o = good t (ap (λ b. b == orow_none) (sym at) ∙ h) in
        Occupied-cong p (orow_commit_slot dev p s) t o at (ap (λ f. f t) (commit-buf p s))
          (commit-dirty p s t e) (λ x fit. elsewhere_kept p s t x good o e fit)
  ]
