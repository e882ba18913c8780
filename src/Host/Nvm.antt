-- ===== src/Host/Nvm.antt =====
-- The flash emulator of src/patch_host_backend.c with its write-safety counters.
use ultra_patch.Base.{
  ℕ, zero, suc, ◌+◌, ◌-◌, ◌*◌, ◌/◌, ◌%◌, ◌^◌, ◌&&◌, ◌||◌, not, Option, none, some, ltb, leb, ◌==◌,
  if◌then◌else◌,
}
use ultra_patch.Base.Int.{ℤ, pos, negsuc}
use ultra_patch.Base.Word.{u8, u32, add32, sub32}
use ultra_patch.Delta.Cache.{eq_ℤ}
use ultra_patch.Model.{update}
use ultra_patch.Apply.Pages.{outrow}

-- The globals that a page write changes, then those of the canary. sc_flash_n, which nothing but
-- nvm_init sets, is the argument `flash_n` below.
pub record Nvm : Type 0 where
  pub flash : ℕ → ℕ
  pub erasecnt : ℕ → ℕ
  pub erows : ℕ
  pub amplified : ℕ
  pub unaligned : ℕ
  pub oob_page_writes : ℕ
  pub oob_reads : ℕ
  pub erases : ℕ
  pub finv : ℕ
  pub last_erow : ℕ
  pub edir : ℤ
  pub ecount : ℕ
  pub preserve_from : ℕ
  pub tail_canary : ℕ → ℕ
  pub tail_n : ℕ

-- sc_flash_n
unfoldable pub flash_size : ℕ → ℕ
flash_size span = if span == 0 then 0 else (span + (outrow - 1)) / outrow * outrow

-- The pad's generator after `n` steps.
abbrev pub lcg : ℕ → ℕ
lcg r = u32 (r * 1_664_525 + 1_013_904_223)

unfoldable pub pad : ℕ → ℕ → ℕ
pad zero r = r
pad (suc n) r = pad n (lcg r)

-- The flash with `from` at its start and the pad behind.
unfoldable pub padded : (ℕ → ℕ) → ℕ → ℕ → ℕ → ℕ
unfolding pad
padded from from_n pad_seed a =
    if ltb a from_n then from a else u8 (pad (a - from_n + 1) pad_seed / 2 ^ 24)

-- `none` is the call of die.
unfoldable pub nvm_init : (ℕ → ℕ) → ℕ → ℕ → ℕ → ℕ → Option Nvm
unfolding flash_size padded
nvm_init from from_n span preserve_from pad_seed =
    let n = flash_size span in
    let flash = padded from from_n pad_seed in
    if ltb span from_n || ltb span preserve_from || ltb (0xffff_ffff - (outrow - 1)) span
    then none
    else some (record {
      flash = flash;
      erasecnt = λ i. 0;
      erows = 0;
      amplified = 0;
      unaligned = 0;
      oob_page_writes = 0;
      oob_reads = 0;
      erases = 0;
      finv = 0;
      last_erow = 0;
      edir = pos 0;
      ecount = 0;
      preserve_from = preserve_from;
      tail_canary = λ i. flash (preserve_from + i);
      tail_n = n - preserve_from;
    })

-- The bytes of the canary that differ, of the `left` ones from `i` on.
unfoldable pub canary_loop : ℕ → Nvm → ℕ → ℕ → ℕ
canary_loop zero nvm i bad = bad
canary_loop (suc left) nvm i bad =
    canary_loop left nvm (i + 1)
      (if nvm.flash (nvm.preserve_from + i) == nvm.tail_canary i then bad else add32 bad 1)

unfoldable pub nvm_canary_bad : Nvm → ℕ
unfolding canary_loop
nvm_canary_bad nvm = canary_loop nvm.tail_n nvm 0 0

-- The causes of nvm_gate_err.
pub data GateErr : Type 0 where
  write_unaligned : GateErr
  write_out_of_bounds : GateErr
  read_out_of_bounds : GateErr
  tail_corrupted : GateErr
  write_amplification : GateErr
  frontier_inversion : GateErr

unfoldable pub nvm_gate_err : Nvm → Option GateErr
unfolding nvm_canary_bad
nvm_gate_err nvm =
    if not (nvm.unaligned == 0)
    then some write_unaligned
    else if not (nvm.oob_page_writes == 0)
    then some write_out_of_bounds
    else if not (nvm.oob_reads == 0)
    then some read_out_of_bounds
    else if not (nvm_canary_bad nvm == 0)
    then some tail_corrupted
    else if not (nvm.amplified == 0)
    then some write_amplification
    else if not (nvm.finv == 0)
    then some frontier_inversion
    else none

-- PATCH_IMAGE_BASE is `base`.
unfoldable pub nvm_relative_addr : ℕ → ℕ → Option ℕ
nvm_relative_addr base absolute = if ltb absolute base then none else some (sub32 absolute base)

-- The direction of a step between rows, and the count of inversions after it.
unfoldable pub note_row : Nvm → ℕ → Nvm
note_row nvm er =
    let d = if ltb nvm.last_erow er then pos 1 else negsuc 0 in
    let moved : Nvm =
      if eq_ℤ nvm.edir (pos 0)
      then record nvm { edir = d }
      else if eq_ℤ d nvm.edir
      then nvm
      else record nvm { finv = nvm.finv + 1 } in
    let seen = if nvm.ecount == 0 || er == nvm.last_erow then nvm else moved in
    record seen { last_erow = er; ecount = nvm.ecount + 1 }

-- The erase count of a row stops at 255.
unfoldable pub count_erase : Nvm → ℕ → Nvm
count_erase nvm er =
    let e = nvm.erasecnt er in
    let e' = if ltb e 255 then e + 1 else e in
    record nvm {
      erases = nvm.erases + 1;
      erasecnt = update nvm.erasecnt er e';
      erows = if e' == 1 then add32 nvm.erows 1 else nvm.erows;
      amplified = if e' == 2 then add32 nvm.amplified 1 else nvm.amplified;
    }

abbrev pub program : (ℕ → ℕ) → ℕ → (ℕ → ℕ) → ℕ → ℕ
program flash row page a = if leb row a && ltb a (row + outrow) then page (a - row) else flash a

module _ (base flash_n : ℕ) where
  unfoldable pub read_at : Nvm → Option ℕ → ℕ × Nvm
  read_at nvm none = (0xff, record nvm { oob_reads = add32 nvm.oob_reads 1 })
  read_at nvm (some a) =
      if ltb a flash_n
      then (nvm.flash a, nvm)
      else (0xff, record nvm { oob_reads = add32 nvm.oob_reads 1 })

  unfoldable pub nvm_flash_read : Nvm → ℕ → ℕ × Nvm
  unfolding read_at nvm_relative_addr
  nvm_flash_read nvm a = read_at nvm (nvm_relative_addr base a)

  unfoldable pub write_at : Nvm → (ℕ → ℕ) → Option ℕ → Nvm
  unfolding note_row count_erase
  write_at nvm page none = record nvm { oob_page_writes = add32 nvm.oob_page_writes 1 }
  write_at nvm page (some row) =
      let er = row / outrow in
      let noted = note_row (count_erase nvm er) er in
      if not (row % outrow == 0)
      then record nvm { unaligned = add32 nvm.unaligned 1 }
      else if ltb flash_n row || ltb (flash_n - row) outrow
      then record nvm { oob_page_writes = add32 nvm.oob_page_writes 1 }
      else record noted { flash = program nvm.flash row page }

  unfoldable pub nvm_flash_write_page : Nvm → ℕ → (ℕ → ℕ) → Nvm
  unfolding write_at nvm_relative_addr
  nvm_flash_write_page nvm a page = write_at nvm page (nvm_relative_addr base a)
