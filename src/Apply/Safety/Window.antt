-- ===== src/Apply/Safety/Window.antt =====
-- The pages that up_out_write of src/patch_apply.h has not committed yet: the flash of the frontier's row
-- and of the row behind it is still the old one.
use ultra_patch.Base.{
  ℕ, ◌+◌, ◌-◌, ◌/◌, ◌≤◌, ◌<◌, ◌≡◌, refl, sym, ap, ◌∙◌, subst, Bool, true, false, ◌==◌,
  if◌then◌else◌, arith, Bool-cases, inl, inr,
}
use ultra_patch.Apply.Pages.{
  Device, Pages, outrow, orow_none, page_base, orow_slot, image_flash_read, load_page, out_read,
  out_write,
}
use ultra_patch.Apply.Pages.Law.{IsDevice, IsPages, slot_of}
use ultra_patch.Apply.Pages.Commit.{committed, commit-elsewhere, page_inside, out_read-hit}
use ultra_patch.Apply.Pages.Load.{load-flash, load-base}
use ultra_patch.Apply.Pages.Put.{put-flash, put-base}
use ultra_patch.Apply.Frontier.{Frontier, still, wrote, Moves}
use ultra_patch.Apply.Safety.{
  Below, Outside, step_inside, step-Outside, Frontier-keeps, out_read-Frontier,
}

-- The row of `x` is the frontier's, or next to it, or has not been reached.
abbrev pub Near : Bool → ℕ → ℕ → Type 0
Near true x b = b / outrow ≤ x / outrow + 1
Near false x b = x / outrow ≤ (b - 1) / outrow + 1

-- A page that has been written to before the frontier `b`.
abbrev Reached : Bool → ℕ → ℕ → Type 0
Reached true base b = base < b
Reached false base b = b < base + outrow

Near-back : (fwd : Bool) (x b addr c : ℕ) → Moves fwd b addr c → Near fwd x c → Near fwd x b
Near-back true x b addr c m h = omega arith
Near-back false x b addr c m h = omega arith

-- The page that gives way to that of `addr` is two rows off.
evicted :
    (fwd : Bool) (x b addr c base : ℕ)
    → Moves fwd b addr c
    → Near fwd x c
    → Reached fwd base b
    → page_base base ≡ base
    → orow_slot base ≡ slot_of addr
    → (base == page_base addr) ≡ false
    → (base == page_base x) ≡ false
evicted true x b addr c base m near r al same other = ground arith
evicted false x b addr c base m near r al same other = ground arith

module _ {F : Type 0} (dev : Device F) (limit : ℕ) (law : IsDevice dev limit) where
  cached : Pages F → ℕ → Bool
  cached p a = p.base (slot_of a) == page_base a

  -- A write changes the flash when it needs the slot of another page.
  write_flash :
      (p : Pages F) (a v x : ℕ)
      → IsPages dev limit p
      → x < limit
      → image_flash_read dev (out_write dev p a v).flash x ≡ (
          if p.base (slot_of a) == page_base a
          then image_flash_read dev p.flash x
          else if p.base (slot_of a) == page_base x
          then p.buf (slot_of a) (x - page_base x)
          else image_flash_read dev p.flash x)
  unfolding out_write
  write_flash p a v x good fit =
      let b = page_base a in
      let q = if p.base (slot_of a) == b then p else load_page dev p b in
      let put = put-flash dev limit law q (slot_of a) (a - b) v in
      ap (λ f. image_flash_read dev f x) put ∙ elim (Bool-cases (p.base (slot_of a) == b)) [
        | inl e ↦ rw e refl
        | inr e ↦ rw e (
            ap (λ f. image_flash_read dev f x) (load-flash dev limit law p b)
            ∙ committed dev limit law p (slot_of a) x good fit)
      ]

  load-elsewhere :
      (p : Pages F) (b t : ℕ) → (orow_slot b == t) ≡ false → (load_page dev p b).base t ≡ p.base t
  unfolding load_page
  load-elsewhere p b t h = rw h (commit-elsewhere dev limit law p (orow_slot b) t h)

  -- The page of the address comes into its slot.
  write-base :
      (p : Pages F) (a v t : ℕ)
      → (out_write dev p a v).base t ≡ (if slot_of a == t then page_base a else p.base t)
  unfolding out_write
  write-base p a v t =
      let b = page_base a in
      let q = if p.base (slot_of a) == b then p else load_page dev p b in
      let put = put-base dev limit law q (slot_of a) (a - b) v in
      ap (λ f. f t) put ∙ elim (Bool-cases (p.base (slot_of a) == b)) [
        | inl e ↦ elim (Bool-cases (slot_of a == t)) [
          | inl same ↦
              let at : slot_of a ≡ t = ground arith in
              let here : p.base (slot_of a) ≡ b = ground arith in
              rw (e, same) (ap p.base (sym at) ∙ here)
          | inr other ↦ rw (e, other) refl
        ]
        | inr e ↦ elim (Bool-cases (slot_of a == t)) [
          | inl same ↦
              let at : slot_of a ≡ t = ground arith in
              rw (e, same) (ap (load_page dev p b).base (sym at) ∙ load-base dev limit law p b)
          | inr other ↦ rw (e, other) (load-elsewhere p b t other)
        ]
      ]

  -- Every page in the cache has been written to on the way to the frontier.
  abbrev pub AllReached : Bool → Pages F → ℕ → Type 0
  AllReached fwd p b = (t : ℕ) → (p.base t == orow_none) ≡ false → Reached fwd (p.base t) b

  Reached-further :
      (fwd : Bool) (b addr c base : ℕ)
      → Moves fwd b addr c
      → Reached fwd base b
      → Reached fwd base c
  Reached-further true b addr c base m r = omega arith
  Reached-further false b addr c base m r = omega arith

  Reached-here : (fwd : Bool) (b addr c : ℕ) → Moves fwd b addr c → Reached fwd (page_base addr) c
  Reached-here true b addr c m = omega arith
  Reached-here false b addr c m = omega arith

  Frontier-AllReached :
      (fwd : Bool) {p : Pages F} {a : ℕ} {q : Pages F} {b : ℕ}
      → Frontier dev fwd p a q b
      → AllReached fwd p a
      → AllReached fwd q b
  Frontier-AllReached fwd still h t taken = h t taken
  Frontier-AllReached fwd (wrote {q = q} {b = b} addr c v path m) h t taken =
      let before = Frontier-AllReached fwd path h in
      let w = write-base q addr v t in
      elim (Bool-cases (slot_of addr == t)) [
        | inl same ↦
            let at : (out_write dev q addr v).base t ≡ page_base addr = w ∙ rw same refl in
            subst (λ y. Reached fwd y c) (sym at) (Reached-here fwd b addr c m)
        | inr other ↦
            let at : (out_write dev q addr v).base t ≡ q.base t = w ∙ rw other refl in
            subst (λ y. Reached fwd y c) (sym at)
              (Reached-further fwd b addr c (q.base t) m
                (before t (ap (λ y. y == orow_none) (sym at) ∙ taken)))
      ]

  -- The page of `x`, in whatever slot, is what up_out_read reads.
  own_buf :
      (p : Pages F) (s x : ℕ)
      → IsPages dev limit p
      → x < limit
      → p.base s ≡ page_base x
      → p.buf s (x - page_base x) ≡ out_read dev p x
  own_buf p s x good fit at =
      let l = law.addresses in
      let i = page_inside dev limit law x fit in
      let o = good s (ground arith) in
      let own : s ≡ slot_of x = sym o.slot ∙ ap orow_slot at in
      ap (λ u. p.buf u (x - page_base x)) own
      ∙ sym (out_read-hit dev limit law p x (ap p.base (sym own) ∙ at))

  -- While a row is near the frontier its flash is the old one.
  pub Frontier-Near :
      (fwd : Bool) {p : Pages F} {a : ℕ} {q : Pages F} {b : ℕ}
      → Frontier dev fwd p a q b
      → Below fwd a b limit
      → IsPages dev limit p
      → AllReached fwd p a
      → (x : ℕ) → x < limit
      → Near fwd x b
      → image_flash_read dev q.flash x ≡ image_flash_read dev p.flash x
  Frontier-Near fwd still low good empty x fit near = refl
  Frontier-Near fwd (wrote {q = q} {b = b} addr c v path m) low good empty x fit near =
      let (before, inside) = step_inside addr c limit path m low in
      let (gq, _i) =
        Frontier-keeps dev limit law (λ f. Unit {0}) (λ f addr page al lo hi i. tt) path before good
          tt in
      let ih = Frontier-Near fwd path before good empty x fit (Near-back fwd x b addr c m near) in
      let w = write_flash q addr v x gq fit in
      elim (Bool-cases (q.base (slot_of addr) == page_base addr)) [
        | inl e ↦ w ∙ rw e ih
        | inr e ↦ elim (Bool-cases (q.base (slot_of addr) == orow_none)) [
          | inl none_there ↦
              let apart : (q.base (slot_of addr) == page_base x) ≡ false =
                (let l = law.addresses in
                  let i = page_inside dev limit law x fit in ground arith) in
              w ∙ rw (e, apart) ih
          | inr taken ↦
              let o = gq (slot_of addr) taken in
              let r = Frontier-AllReached fwd path empty (slot_of addr) taken in
              let apart =
                evicted fwd x b addr c (q.base (slot_of addr)) m near r o.aligned o.slot e in
              w ∙ rw (e, apart) ih
        ]
      ]

  -- A byte that the path does not write stays in the flash, also when its page is committed.
  pub Frontier-Outside :
      (fwd : Bool) {p : Pages F} {a : ℕ} {q : Pages F} {b : ℕ}
      → Frontier dev fwd p a q b
      → Below fwd a b limit
      → IsPages dev limit p
      → (x : ℕ) → x < limit
      → out_read dev p x ≡ image_flash_read dev p.flash x
      → Outside fwd a b x
      → image_flash_read dev q.flash x ≡ image_flash_read dev p.flash x
  Frontier-Outside fwd still low good x fit first out = refl
  Frontier-Outside fwd (wrote {q = q} {b = b} addr c v path m) low good x fit first out =
      let (before, inside) = step_inside addr c limit path m low in
      let (gq, _i) =
        Frontier-keeps dev limit law (λ f. Unit {0}) (λ f addr page al lo hi i. tt) path before good
          tt in
      let (_apart, out') = step-Outside addr c path m x out in
      let ih = Frontier-Outside fwd path before good x fit first out' in
      let seen = out_read-Frontier dev limit law path before good x fit out' ∙ first in
      let w = write_flash q addr v x gq fit in
      elim (Bool-cases (q.base (slot_of addr) == page_base addr)) [
        | inl e ↦ w ∙ rw e ih
        | inr e ↦ elim (Bool-cases (q.base (slot_of addr) == page_base x)) [
          | inl hit ↦
              let at : q.base (slot_of addr) ≡ page_base x = ground arith in
              w ∙ rw (e, hit) (own_buf q (slot_of addr) x gq fit at ∙ seen)
          | inr miss ↦ w ∙ rw (e, miss) ih
        ]
      ]
