-- ===== src/Apply/Safety.antt =====
-- What the flash is subject to along the frontier of src/patch_apply.h: only page writes in the
-- partition.
pub mod Start
pub mod Run
pub mod Verdict
pub mod Window
use ultra_patch.Base.{
  ℕ, suc, ◌+◌, ◌-◌, ◌*◌, ◌/◌, ◌%◌, ◌≤◌, ◌<◌, ◌≡◌, ◌⊎◌, inl, inr, refl, sym, ap, ◌∙◌, subst, Bool,
  true, false, not, ◌&&◌, ◌==◌, if◌then◌else◌, if_cases, arith, Bool-cases, max,
}
use ultra_patch.Base.Word.{u32}
use ultra_patch.Apply.Pages.{
  Device, Pages, outrow, orow_none, page_base, orow_slot, image_flash_read, orow_commit_slot,
  orow_commit_all, last_slot, load_page, put_byte, out_read, out_write,
}
use ultra_patch.Apply.Pages.Law.{IsDevice, IsPages, slot_of}
use ultra_patch.Apply.Pages.Commit.{commit-IsPages}
use ultra_patch.Apply.Pages.Load.{load-flash}
use ultra_patch.Apply.Pages.Put.{put-flash}
use ultra_patch.Apply.Pages.Write.{out_write-IsPages, out_read-out_write}
use ultra_patch.Apply.Frontier.{Frontier, still, wrote, Moves, Between}

-- A property of the device that page-aligned writes of complete pages below the limit keep.
abbrev pub IsKept : {F : Type 0} → Device F → ℕ → (F → Type 0) → Type 0
IsKept dev limit I =
    (f : _) (addr : ℕ) (page : ℕ → ℕ)
    → addr % outrow ≡ 0
    → dev.image_base ≤ addr
    → addr + outrow ≤ dev.image_base + limit
    → I f
    → I (dev.flash_write_page f addr page)

-- Where a path may start and end: the addresses that it passes are below the limit.
abbrev pub Below : Bool → ℕ → ℕ → ℕ → Type 0
Below true a b limit = b ≤ limit
Below false a b limit = a ≤ limit

-- The addresses that a path does not write.
abbrev pub Outside : Bool → ℕ → ℕ → ℕ → Type 0
Outside true a b x = b ≤ x
Outside false a b x = a ≤ x

module _ {F : Type 0} {dev : Device F} where
  pub Frontier-descends :
      {p : Pages F} {a : ℕ} {q : Pages F} {b : ℕ} → Frontier dev false p a q b → b ≤ a
  Frontier-descends still = omega arith
  Frontier-descends (wrote addr c v path m) = let h = Frontier-descends path in omega arith

  -- The last step of a path below the limit.
  step_inside :
      {fwd : Bool} {p : Pages F} {a : ℕ} {q : Pages F} {b : ℕ} (addr c limit : ℕ)
      → Frontier dev fwd p a q b
      → Moves fwd b addr c
      → Below fwd a c limit
      → Below fwd a b limit × (addr < limit)
  step_inside {fwd = true} addr c limit path m low = (omega arith, omega arith)
  step_inside {fwd = false} addr c limit path m low =
      let h = Frontier-descends path in (low, omega arith)

  step-Outside :
      {fwd : Bool} {p : Pages F} {a : ℕ} {q : Pages F} {b : ℕ} (addr c : ℕ)
      → Frontier dev fwd p a q b
      → Moves fwd b addr c
      → (x : ℕ) → Outside fwd a c x
      → ((x == addr) ≡ false) × Outside fwd a b x
  step-Outside {fwd = true} addr c path m x out = (ground arith, omega arith)
  step-Outside {fwd = false} addr c path m x out =
      let h = Frontier-descends path in (ground arith, out)

module _ {F : Type 0} (dev : Device F) (limit : ℕ) (law : IsDevice dev limit) where
  module _ (I : F → Type 0) (keeps : IsKept dev limit I) where
    commit_keeps :
        (p : Pages F) (s : ℕ) → IsPages dev limit p → I p.flash → I (orow_commit_slot dev p s).flash
    unfolding orow_commit_slot
    commit_keeps p s good i =
        let addr = u32 (dev.image_base + p.base s) in
        if_cases I (not (p.base s == orow_none) && p.dirty s)
          (dev.flash_write_page p.flash addr (p.buf s)) p.flash
          (λ e.
            let taken : (p.base s == orow_none) ≡ false = ground arith in
            let o = good s taken in
            let inside = o.inside in
            let al = o.aligned in
            let l = law.addresses in
            let lb = law.base_aligned in
            keeps p.flash addr (p.buf s) (omega arith) (omega arith) (omega arith) i)
          (λ e. i)

    out_write_keeps :
        (p : Pages F) (a v : ℕ) → IsPages dev limit p → I p.flash → I (out_write dev p a v).flash
    unfolding out_write
    out_write_keeps p a v good i =
        let b = page_base a in
        let q = if p.base (orow_slot b) == b then p else load_page dev p b in
        let iq =
          if_cases (λ (r : Pages F). I r.flash) (p.base (orow_slot b) == b) p (load_page dev p b)
            (λ e. i)
            (λ e.
              subst I (sym (load-flash dev limit law p b)) (commit_keeps p (orow_slot b) good i)) in
        subst I (sym (put-flash dev limit law q (orow_slot b) (a - b) v)) iq

    pub commit_all_keeps :
        (p : Pages F) (fwd : Bool) (to_size : ℕ)
        → IsPages dev limit p
        → I p.flash
        → I (orow_commit_all dev fwd to_size p).flash
    unfolding orow_commit_all
    commit_all_keeps p fwd to_size good i =
        let last = last_slot dev fwd to_size in
        let q = orow_commit_slot dev p (1 - last) in
        commit_keeps q last (commit-IsPages dev limit law p (1 - last) good)
          (commit_keeps p (1 - last) good i)

    -- Along a path in the partition the property is kept and the cache stays well-formed.
    pub Frontier-keeps :
        {fwd : Bool} {p : Pages F} {a : ℕ} {q : Pages F} {b : ℕ}
        → Frontier dev fwd p a q b
        → Below fwd a b limit
        → IsPages dev limit p
        → I p.flash
        → IsPages dev limit q × I q.flash
    Frontier-keeps still low good i = (good, i)
    Frontier-keeps (wrote {q = q} addr c v path m) low good i =
        let (before, fit) = step_inside addr c limit path m low in
        let (gq, iq) = Frontier-keeps path before good i in
        (out_write-IsPages dev limit law q addr v fit gq, out_write_keeps q addr v gq iq)

  -- Nothing outside the path changes as it is read back.
  pub out_read-Frontier :
      {fwd : Bool} {p : Pages F} {a : ℕ} {q : Pages F} {b : ℕ}
      → Frontier dev fwd p a q b
      → Below fwd a b limit
      → IsPages dev limit p
      → (x : ℕ) → x < limit
      → Outside fwd a b x
      → out_read dev q x ≡ out_read dev p x
  out_read-Frontier still low good x fit out = refl
  out_read-Frontier (wrote {q = q} addr c v path m) low good x fit out =
      let (before, inside) = step_inside addr c limit path m low in
      let (gq, _i) =
        Frontier-keeps (λ f. Unit {0}) (λ f addr page al lo hi i. tt) path before good tt in
      let (apart, out') = step-Outside addr c path m x out in
      out_read-out_write dev limit law q addr v x gq inside fit
      ∙ rw apart (out_read-Frontier path before good x fit out')
