-- ===== src/Host/Device.antt =====
-- The emulator of src/patch_host_backend.c is a device as the decoder relies on it, up to the size
-- of the emulated flash.
use ultra_patch.Base.{
  ℕ, ◌+◌, ◌-◌, ◌/◌, ◌%◌, ◌^◌, ◌≤◌, ◌<◌, ◌≡◌, refl, true, ◌&&◌, ◌||◌, not, some, ltb, leb, ◌==◌,
  if◌then◌else◌, if_cases, arith, ap, sym, ◌∙◌, subst,
}
use ultra_patch.Base.Int.{pos, negsuc}
use ultra_patch.Base.Word.{add32}
use ultra_patch.Apply.Pages.{outrow}
use ultra_patch.Apply.Pages.Law.{IsDevice}
use ultra_patch.Host.Nvm.{
  Nvm, nvm_relative_addr, note_row, count_erase, program, read_at, write_at, nvm_flash_read,
  nvm_flash_write_page,
}
use ultra_patch.Host.Run.{nvm_device}
use ultra_patch.Delta.Cache.{eq_ℤ}

relative : (base a : ℕ) → base ≤ a → a < 2 ^ 32 → nvm_relative_addr base a ≡ some (a - base)
unfolding nvm_relative_addr
relative base a h k = ground arith

-- What a write leaves alone, beside the flash: the counters of refused writes and the canary.
pub record SameGate (a b : Nvm) : Type 0 where
  pub unaligned : b.unaligned ≡ a.unaligned
  pub oob_page_writes : b.oob_page_writes ≡ a.oob_page_writes
  pub preserve_from : b.preserve_from ≡ a.preserve_from
  pub tail_canary : b.tail_canary ≡ a.tail_canary
  pub tail_n : b.tail_n ≡ a.tail_n

alike :
    {a b : Nvm}
    → b.unaligned ≡ a.unaligned
    → b.oob_page_writes ≡ a.oob_page_writes
    → b.preserve_from ≡ a.preserve_from
    → b.tail_canary ≡ a.tail_canary
    → b.tail_n ≡ a.tail_n
    → SameGate a b
alike u o p c n = record {
  unaligned = u;
  oob_page_writes = o;
  preserve_from = p;
  tail_canary = c;
  tail_n = n;
}

note_row-SameGate : (nvm : Nvm) (er : ℕ) → SameGate nvm (note_row nvm er)
unfolding note_row
note_row-SameGate nvm er =
    let d = if ltb nvm.last_erow er then pos 1 else negsuc 0 in
    let moved : Nvm =
      if eq_ℤ nvm.edir (pos 0)
      then record nvm { edir = d }
      else if eq_ℤ d nvm.edir
      then nvm
      else record nvm { finv = nvm.finv + 1 } in
    let P : Nvm → Type 0 =
      λ n. SameGate nvm (record n { last_erow = er; ecount = nvm.ecount + 1 }) in
    if_cases P (nvm.ecount == 0 || er == nvm.last_erow) nvm moved
      (λ e. alike refl refl refl refl refl)
      (λ e.
        if_cases P (eq_ℤ nvm.edir (pos 0)) (record nvm { edir = d })
          (if eq_ℤ d nvm.edir then nvm else record nvm { finv = nvm.finv + 1 })
          (λ c. alike refl refl refl refl refl)
          (λ c.
            if_cases P (eq_ℤ d nvm.edir) nvm (record nvm { finv = nvm.finv + 1 })
              (λ b. alike refl refl refl refl refl) (λ b. alike refl refl refl refl refl)))

-- A programmed page, in addresses of the flash and of the device.
programmed :
    {base : ℕ}
    → (flash page : ℕ → ℕ) (a x : ℕ) → base ≤ a
    → base ≤ x
    → program flash (a - base) page (x - base)
      ≡ (if leb a x && ltb x (a + outrow) then page (x - a) else flash (x - base))
programmed {base} flash page a x lo from =
    let same : (leb (a - base) (x - base) && ltb (x - base) (a - base + outrow))
        ≡ (leb a x && ltb x (a + outrow)) =
      ground arith in
    let off : x - base - (a - base) ≡ x - a = omega arith in rw (same, off) refl

module _ (base flash_n : ℕ) where
  abbrev written : Nvm → (ℕ → ℕ) → ℕ → Nvm
  written nvm page row = record (note_row (count_erase nvm (row / outrow)) (row / outrow)) {
    flash = program nvm.flash row page;
  }

  -- The write at an aligned address inside the flash is the branch that programs.
  write_at-inside :
      (P : Nvm → Type 0) (nvm : Nvm) (page : ℕ → ℕ) (row : ℕ)
      → row % outrow ≡ 0
      → row + outrow ≤ flash_n
      → P (written nvm page row)
      → P (write_at base flash_n nvm page (some row))
  unfolding write_at
  write_at-inside P nvm page row al inside h =
      if_cases P (not (row % outrow == 0)) (record nvm { unaligned = add32 nvm.unaligned 1 })
        (if ltb flash_n row || ltb (flash_n - row) outrow
          then record nvm { oob_page_writes = add32 nvm.oob_page_writes 1 }
          else written nvm page row)
        (λ e. absurd (ground arith))
        (λ e.
          if_cases P (ltb flash_n row || ltb (flash_n - row) outrow)
            (record nvm { oob_page_writes = add32 nvm.oob_page_writes 1 }) (written nvm page row)
            (λ c. absurd (ground arith)) (λ c. h))

  pub flash_write_page-inside :
      (P : Nvm → Type 0) (nvm : Nvm) (a : ℕ) (page : ℕ → ℕ)
      → base % outrow ≡ 0
      → base + flash_n ≤ 2 ^ 32
      → a % outrow ≡ 0
      → base ≤ a
      → a + outrow ≤ base + flash_n
      → P (written nvm page (a - base))
      → P (nvm_flash_write_page base flash_n nvm a page)
  unfolding nvm_flash_write_page
  flash_write_page-inside P nvm a page bal fit al lo hi h =
      subst (λ o. P (write_at base flash_n nvm page o)) (sym (relative base a lo (omega arith)))
        (write_at-inside P nvm page (a - base) (omega arith) (omega arith) h)

  pub flash_read-inside :
      (nvm : Nvm) (a : ℕ)
      → base + flash_n ≤ 2 ^ 32
      → base ≤ a
      → a < base + flash_n
      → (nvm_flash_read base flash_n nvm a).0 ≡ nvm.flash (a - base)
  unfolding nvm_flash_read read_at
  flash_read-inside nvm a fit lo hi =
      let e : ltb (a - base) flash_n ≡ true = ground arith in
      ap (λ o. (read_at base flash_n nvm o).0) (relative base a lo (omega arith)) ∙ rw e refl

  written-SameGate : (nvm : Nvm) (page : ℕ → ℕ) (row : ℕ) → SameGate nvm (written nvm page row)
  unfolding count_erase
  written-SameGate nvm page row =
      let h = note_row-SameGate (count_erase nvm (row / outrow)) (row / outrow) in
      record {
        unaligned = h.unaligned;
        oob_page_writes = h.oob_page_writes;
        preserve_from = h.preserve_from;
        tail_canary = h.tail_canary;
        tail_n = h.tail_n;
      }

  pub nvm_device-IsDevice :
      base % outrow ≡ 0
      → flash_n % outrow ≡ 0
      → base + flash_n ≤ 2 ^ 32
      → (capacity : ℕ) → IsDevice (nvm_device base capacity flash_n) flash_n
  nvm_device-IsDevice bal fal fit capacity = record {
    writes = λ f a page x al lo hi from to.
        flash_write_page-inside
          (λ n. (nvm_flash_read base flash_n n x).0 ≡ (
            if leb a x && ltb x (a + outrow)
            then page (x - a)
            else (nvm_flash_read base flash_n f x).0))
          f a page bal fit al lo hi
          (flash_read-inside (written f page (a - base)) x fit from to
            ∙ programmed f.flash page a x lo from
            ∙ ap (λ v. if leb a x && ltb x (a + outrow) then page (x - a) else v)
                (sym (flash_read-inside f x fit from to)));
    base_aligned = bal;
    limit_aligned = fal;
    addresses = fit;
  }

  pub flash_write_page-SameGate :
      (nvm0 nvm : Nvm) (a : ℕ) (page : ℕ → ℕ)
      → base % outrow ≡ 0
      → base + flash_n ≤ 2 ^ 32
      → a % outrow ≡ 0
      → base ≤ a
      → a + outrow ≤ base + flash_n
      → SameGate nvm0 nvm
      → SameGate nvm0 (nvm_flash_write_page base flash_n nvm a page)
  flash_write_page-SameGate nvm0 nvm a page bal fit al lo hi h =
      flash_write_page-inside (SameGate nvm0) nvm a page bal fit al lo hi (
        let g = written-SameGate nvm page (a - base) in
        record {
          unaligned = g.unaligned ∙ h.unaligned;
          oob_page_writes = g.oob_page_writes ∙ h.oob_page_writes;
          preserve_from = g.preserve_from ∙ h.preserve_from;
          tail_canary = g.tail_canary ∙ h.tail_canary;
          tail_n = g.tail_n ∙ h.tail_n;
        })
