-- ===== src/Apply/Pages/Write.antt =====
-- up_out_write and up_orow_commit_all of src/patch_apply.h against a plain array of bytes.
use ultra_patch.Base.{
  [], ℕ, ◌-◌, ◌<◌, ◌≡◌, refl, sym, ap, ◌∙◌, Bool, ◌==◌, if◌then◌else◌, arith, subst, Bool-cases,
  inl, inr, List, ◌∷◌,
}
use ultra_patch.Apply.Pages.{
  Device, Pages, orow_none, page_base, image_flash_read, orow_commit_slot, orow_commit_all,
  out_read, load_page, put_byte, out_write, last_slot,
}
use ultra_patch.Apply.Pages.Law.{IsDevice, IsPages, slot_of}
use ultra_patch.Apply.Pages.Commit.{
  out_read-commit, commit-IsPages, commit-emptied, out_read-miss, page_inside, commit-elsewhere,
}
use ultra_patch.Apply.Pages.Load.{load-base, load-IsPages, out_read-load}
use ultra_patch.Apply.Pages.Put.{out_read-put, put-IsPages}

-- Writes in their order, to the array and to the cache.
abbrev pub write_array : (ℕ → ℕ) → List (ℕ × ℕ) → ℕ → ℕ
write_array f [] x = f x
write_array f (w ∷ ws) x = write_array (λ y. if y == w.0 then w.1 else f y) ws x

abbrev pub InCapacity : ℕ → List (ℕ × ℕ) → Type 0
InCapacity capacity [] = Unit {0}
InCapacity capacity (w ∷ ws) = (w.0 < capacity) × InCapacity capacity ws

module _ {F : Type 0} (dev : Device F) where
  abbrev pub out_write_all : Pages F → List (ℕ × ℕ) → Pages F
  out_write_all p [] = p
  out_write_all p (w ∷ ws) = out_write_all (out_write dev p w.0 w.1) ws

module _ {F : Type 0} (dev : Device F) (limit : ℕ) (law : IsDevice dev limit) where
  -- The cache before the byte is put: the page of the address is in its slot.
  loaded : Pages F → ℕ → Pages F
  loaded p a = if p.base (slot_of a) == page_base a then p else load_page dev p (page_base a)

  loaded-base : (p : Pages F) (a : ℕ) → (loaded p a).base (slot_of a) ≡ page_base a
  unfolding loaded
  loaded-base p a = elim (Bool-cases (p.base (slot_of a) == page_base a)) [
    | inl e ↦ let at : p.base (slot_of a) ≡ page_base a = ground arith in rw e at
    | inr e ↦ rw e (load-base dev limit law p (page_base a))
  ]

  loaded-IsPages :
      (p : Pages F) (a : ℕ) → a < limit → IsPages dev limit p → IsPages dev limit (loaded p a)
  unfolding loaded
  loaded-IsPages p a fit good = elim (Bool-cases (p.base (slot_of a) == page_base a)) [
    | inl e ↦ rw e good
    | inr e ↦ rw e (
        load-IsPages dev limit law p (page_base a) (omega arith) (page_inside dev limit law a fit)
          good)
  ]

  out_read-loaded :
      (p : Pages F) (a x : ℕ)
      → IsPages dev limit p
      → a < limit
      → x < limit
      → out_read dev (loaded p a) x ≡ out_read dev p x
  unfolding loaded
  out_read-loaded p a x good fit h = elim (Bool-cases (p.base (slot_of a) == page_base a)) [
    | inl e ↦ rw e refl
    | inr e ↦
        rw e
          (out_read-load dev limit law p (page_base a) x good (page_inside dev limit law a fit) h)
  ]

  out_write-loaded :
      (p : Pages F) (a v : ℕ)
      → out_write dev p a v ≡ put_byte dev (loaded p a) (slot_of a) (a - page_base a) v
  unfolding loaded out_write
  out_write-loaded p a v = refl

  -- On a well-formed cache and for addresses below the limit of the device, a byte that up_out_write writes is read
  -- back at its address, and every other address reads as before.
  pub out_read-out_write :
      (p : Pages F) (a v x : ℕ)
      → IsPages dev limit p
      → a < limit
      → x < limit
      → out_read dev (out_write dev p a v) x ≡ (if x == a then v else out_read dev p x)
  out_read-out_write p a v x good fit h =
      ap (λ q. out_read dev q x) (out_write-loaded p a v)
      ∙ out_read-put dev limit law (loaded p a) a v x (loaded-base p a)
      ∙ ap (λ y. if x == a then v else y) (out_read-loaded p a x good fit h)

  -- A write below the limit keeps the cache well-formed.
  pub out_write-IsPages :
      (p : Pages F) (a v : ℕ)
      → a < limit
      → IsPages dev limit p
      → IsPages dev limit (out_write dev p a v)
  out_write-IsPages p a v fit good =
      subst (λ q. IsPages dev limit q) (sym (out_write-loaded p a v))
        (put-IsPages dev limit law (loaded p a) (slot_of a) (a - page_base a) v
          (loaded-IsPages p a fit good))

  emptied_stays :
      (p : Pages F) (s t : ℕ) → p.base t ≡ orow_none → (orow_commit_slot dev p s).base t ≡ orow_none
  emptied_stays p s t h = elim (Bool-cases (s == t)) [
    | inl e ↦
        let same : s ≡ t = ground arith in
        ap (orow_commit_slot dev p s).base (sym same) ∙ commit-emptied dev limit law p s
    | inr e ↦ commit-elsewhere dev limit law p s t e ∙ h
  ]

  last_slot_small : (fwd : Bool) (to_size : ℕ) → last_slot dev fwd to_size < 2
  unfolding last_slot
  last_slot_small fwd to_size = ground arith

  -- After the final flush the flash holds what was read back before.
  pub image_flash_read-commit_all :
      (p : Pages F) (fwd : Bool) (to_size x : ℕ)
      → IsPages dev limit p
      → x < limit
      → image_flash_read dev (orow_commit_all dev fwd to_size p).flash x ≡ out_read dev p x
  unfolding orow_commit_all
  image_flash_read-commit_all p fwd to_size x good fit =
      let last = last_slot dev fwd to_size in
      let small = last_slot_small fwd to_size in
      let q = orow_commit_slot dev p (1 - last) in
      let r = orow_commit_slot dev q last in
      let l = law.addresses in
      let i = page_inside dev limit law x fit in
      let empty : r.base (slot_of x) ≡ orow_none = elim (Bool-cases (slot_of x == last)) [
        | inl e ↦
            let same : slot_of x ≡ last = ground arith in
            ap r.base same ∙ commit-emptied dev limit law q last
        | inr e ↦
            let other : slot_of x ≡ 1 - last = ground arith in
            emptied_stays q last (slot_of x)
              (ap q.base other ∙ commit-emptied dev limit law p (1 - last))
      ] in
      sym (out_read-miss dev limit law r x (ground arith))
      ∙ out_read-commit dev limit law q last x (commit-IsPages dev limit law p (1 - last) good) fit
      ∙ out_read-commit dev limit law p (1 - last) x good fit

  out_read-out_write_all :
      (ws : List (ℕ × ℕ)) (p : Pages F) (f : ℕ → ℕ) (x : ℕ)
      → IsPages dev limit p
      → InCapacity limit ws
      → ((y : ℕ) → y < limit → out_read dev p y ≡ f y)
      → x < limit
      → out_read dev (out_write_all dev p ws) x ≡ write_array f ws x
  out_read-out_write_all [] p f x good fits same fit = same x fit
  out_read-out_write_all (w ∷ ws) p f x good fits same fit =
      out_read-out_write_all ws (out_write dev p w.0 w.1) (λ y. if y == w.0 then w.1 else f y) x
        (out_write-IsPages p w.0 w.1 fits.0 good) fits.1
        (λ y k.
          out_read-out_write p w.0 w.1 y good fits.0 k
          ∙ ap (λ r. if y == w.0 then w.1 else r) (same y k))
        fit

  out_write_all-IsPages :
      (ws : List (ℕ × ℕ)) (p : Pages F)
      → IsPages dev limit p
      → InCapacity limit ws
      → IsPages dev limit (out_write_all dev p ws)
  out_write_all-IsPages [] p good fits = good
  out_write_all-IsPages (w ∷ ws) p good fits =
      out_write_all-IsPages ws (out_write dev p w.0 w.1) (out_write-IsPages p w.0 w.1 fits.0 good)
        fits.1

  -- On a device that programs complete pages, for every well-formed cache and every sequence of writes
  -- below its limit, in either direction: after the final flush each address below it holds what
  -- the writes leave in a plain array that began as the output read back.
  pub orow_commit_all-out_write_all :
      (p : Pages F) (ws : List (ℕ × ℕ)) (fwd : Bool) (to_size x : ℕ)
      → IsPages dev limit p
      → InCapacity limit ws
      → x < limit
      → image_flash_read dev (orow_commit_all dev fwd to_size (out_write_all dev p ws)).flash x
        ≡ write_array (out_read dev p) ws x
  orow_commit_all-out_write_all p ws fwd to_size x good fits fit =
      image_flash_read-commit_all (out_write_all dev p ws) fwd to_size x
        (out_write_all-IsPages ws p good fits) fit
      ∙ out_read-out_write_all ws p (out_read dev p) x good fits (λ y k. refl) fit
