-- ===== src/Plan/Hazard/Reads.antt =====
-- A finished plan (finalize_ops, row_covered of src/enc_internal.h) against the page cache that the
-- decoder writes through (up_out_write, up_image_flash_read of src/patch_apply.h).
use ultra_patch.Base.{
  ℕ, ◌+◌, ◌≤◌, ◌<◌, ◌≡◌, refl, sym, ap, ◌∙◌, Bool, true, false, List, ◌∷◌, ltb, if◌then◌else◌,
  arith, Bool-cases, inl, inr,
}
use ultra_patch.Base.Int.{pos, ◌+ℤ◌}
use ultra_patch.Apply.Pages.{Device, Pages, image_flash_read, orow_reset, out_read}
use ultra_patch.Apply.Pages.Law.{IsDevice}
use ultra_patch.Apply.Pages.Commit.{out_read-miss, page_inside}
use ultra_patch.Apply.Frontier.{Frontier}
use ultra_patch.Apply.Safety.{Below, Outside}
use ultra_patch.Apply.Safety.Start.{start-IsPages}
use ultra_patch.Apply.Safety.Window.{Near, AllReached, Frontier-Near, Frontier-Outside}
use ultra_patch.Plan.{PlanOp, row_covered, hazard_of, finalize_ops}
use ultra_patch.Plan.Finalize.{Cursors, cursors, after, in_order}
use ultra_patch.Plan.Hazard.{AreSafe, finalize_ops-AreSafe}

-- Where an operation of a plan stands: `d` are the cursors in front of it, those of the plan being `c`.
pub data Occurs (o : PlanOp) (d : Cursors) : Cursors → List PlanOp → Type 0 where
  here : (ops : List PlanOp) → Occurs o d d (o ∷ ops)
  there :
      (c : Cursors) (first : PlanOp) (ops : List PlanOp)
      → Occurs o d (after c first) ops
      → Occurs o d c (first ∷ ops)

-- The frontier `b` has not passed the byte at `t`.
abbrev pub Before : Bool → ℕ → ℕ → Type 0
Before true b t = b ≤ t
Before false b t = t < b

-- An ascending apply starts at 0, a descending one at the end of the target.
abbrev pub first_frontier : Bool → ℕ → ℕ
first_frontier fwd to_size = if fwd then 0 else to_size

-- A byte that is not in hazard is in a row near the frontier or behind the target.
clear_row :
    (fwd : Bool) (from_size to_size a t b : ℕ)
    → hazard_of fwd from_size to_size (pos a) t ≡ false
    → a < from_size
    → a < to_size
    → Before fwd b t
    → Near fwd a b
unfolding hazard_of row_covered
clear_row true from_size to_size a t b clear source target before = ground arith
clear_row false from_size to_size a t b clear source target before = ground arith

AreSafe-Occurs :
    (fwd : Bool) (from_size to_size : ℕ) (d : Cursors) (o : PlanOp) (c : Cursors)
    (ops : List PlanOp)
    → Occurs o d c ops
    → AreSafe fwd from_size to_size c ops
    → (x : ℕ) → x < o.diff_len
    → hazard_of fwd from_size to_size (d.fp +ℤ pos x) (d.tp + x) ≡ false
AreSafe-Occurs fwd from_size to_size d o c ops (here rest) safe x lt = safe.0 x lt
AreSafe-Occurs fwd from_size to_size d o c ops (there e first rest at) safe x lt =
    AreSafe-Occurs fwd from_size to_size d o (after e first) rest at safe.1 x lt

module _ {F : Type 0} (dev : Device F) (limit : ℕ) (law : IsDevice dev limit) where
  reset-AllReached :
      (fwd : Bool) (p : Pages F) (b : ℕ) → AllReached dev limit law fwd (orow_reset dev p) b
  unfolding orow_reset
  reset-AllReached fwd p b t taken = absurd (ground arith)

  reset-flash : (p : Pages F) → (orow_reset dev p).flash ≡ p.flash
  unfolding orow_reset
  reset-flash p = refl

  reset-out_read :
      (p : Pages F) (x : ℕ)
      → x < limit
      → out_read dev (orow_reset dev p) x ≡ image_flash_read dev (orow_reset dev p).flash x
  unfolding orow_reset
  reset-out_read p x fit =
      let l = law.addresses in
      let i = page_inside dev limit law x fit in
      out_read-miss dev limit law (orow_reset dev p) x (ground arith)

  path-Below :
      (fwd : Bool) (to_size b t : ℕ)
      → to_size ≤ limit
      → t < to_size
      → Before fwd b t
      → Below fwd (first_frontier fwd to_size) b limit
  path-Below true to_size b t fit target before = omega arith
  path-Below false to_size b t fit target before = omega arith

  path-Outside :
      (fwd : Bool) (to_size b t x : ℕ)
      → t < to_size
      → to_size ≤ x
      → Before fwd b t
      → Outside fwd (first_frontier fwd to_size) b x
  path-Outside true to_size b t x target far before = omega arith
  path-Outside false to_size b t x target far before = omega arith

  -- For every plan and every byte of a copy in its finished form that comes from inside the source and goes
  -- inside the target: as long as the decoder, which starts with an empty cache and writes the target's bytes
  -- in order, has not passed the byte's place in the target, the flash at the byte's address in the source is
  -- the flash at the start, on a device that holds both images.
  pub finalize_ops-image_flash_read :
      (fwd : Bool) (from_size to_size : ℕ) (ops : List PlanOp) (o : PlanOp) (c : Cursors)
      (x a b : ℕ) (p q : Pages F)
      → from_size ≤ limit
      → to_size ≤ limit
      → Occurs o c
          (cursors 0 (finalize_ops fwd from_size to_size ops).fp_start)
          (in_order (finalize_ops fwd from_size to_size ops).out)
      → x < o.diff_len
      → c.fp +ℤ pos x ≡ pos a
      → a < from_size
      → c.tp + x < to_size
      → Before fwd b (c.tp + x)
      → Frontier dev fwd (orow_reset dev p) (first_frontier fwd to_size) q b
      → image_flash_read dev q.flash a ≡ image_flash_read dev p.flash a
  finalize_ops-image_flash_read fwd from_size to_size ops o c x a b p q fit_from fit_to at lt from
        source target before path =
      let r = finalize_ops fwd from_size to_size ops in
      let safe = finalize_ops-AreSafe fwd from_size to_size ops in
      let clear =
        AreSafe-Occurs fwd from_size to_size c o (cursors 0 r.fp_start) (in_order r.out) at safe x
          lt in
      let low = path-Below fwd to_size b (c.tp + x) fit_to target before in
      let good = start-IsPages dev limit p in
      let same = ap (λ f. image_flash_read dev f a) (reset-flash p) in
      elim (Bool-cases (ltb a to_size)) [
        | inl shared ↦
            let near =
              clear_row fwd from_size to_size a (c.tp + x) b
                (ap (λ y. hazard_of fwd from_size to_size y (c.tp + x)) (sym from) ∙ clear) source
                (ground arith) before in
            Frontier-Near dev limit law fwd path low good
              (reset-AllReached fwd p (first_frontier fwd to_size)) a (omega arith) near
            ∙ same
        | inr beyond ↦
            Frontier-Outside dev limit law fwd path low good a (omega arith)
              (reset-out_read p a (omega arith))
              (path-Outside fwd to_size b (c.tp + x) a target (ground arith) before)
            ∙ same
      ]
