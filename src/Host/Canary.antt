-- ===== src/Host/Canary.antt =====
-- The emulator of src/patch_host_backend.c as nvm_init leaves it, and the check of its canary.
use ultra_patch.Base.{
  ℕ, zero, suc, ◌+◌, ◌-◌, ◌≤◌, ◌<◌, ◌≡◌, refl, true, ◌||◌, Option, none, some, ltb, ◌==◌, if_cases,
  arith,
}
use ultra_patch.Wire.Uleb.{max_image}
use ultra_patch.Apply.Pages.{outrow}
use ultra_patch.Host.Nvm.{Nvm, flash_size, nvm_init, canary_loop}

-- The emulator after nvm_init: no write was refused, and the canary holds the tail of the flash.
pub record Fresh (span ts : ℕ) (nvm : Nvm) : Type 0 where
  pub unaligned : nvm.unaligned ≡ 0
  pub oob_page_writes : nvm.oob_page_writes ≡ 0
  pub preserve_from : nvm.preserve_from ≡ ts
  pub tail_n : nvm.tail_n ≡ flash_size span - ts
  pub canary : (i : ℕ) → nvm.tail_canary i ≡ nvm.flash (ts + i)
  pub covered : ts ≤ span

abbrev pub OnFresh : ℕ → ℕ → Option Nvm → Type 0
OnFresh span ts none = ⊥
OnFresh span ts (some nvm) = Fresh span ts nvm

pub nvm_init-Fresh :
    (from : ℕ → ℕ) (from_n span ts seed : ℕ)
    → from_n ≤ span
    → ts ≤ span
    → span ≤ max_image
    → OnFresh span ts (nvm_init from from_n span ts seed)
unfolding nvm_init
nvm_init-Fresh from from_n span ts seed hf ht hs =
    if_cases (OnFresh span ts)
      (ltb span from_n || ltb span ts || ltb (0xffff_ffff - (outrow - 1)) span) none _
      (λ e. absurd (ground arith))
      (λ e. record {
        unaligned = refl;
        oob_page_writes = refl;
        preserve_from = refl;
        tail_n = refl;
        canary = λ i. refl;
        covered = ground arith;
      })

pub canary_intact :
    (left : ℕ) (nvm : Nvm) (i : ℕ)
    → ((j : ℕ) → i ≤ j → j < i + left → nvm.flash (nvm.preserve_from + j) ≡ nvm.tail_canary j)
    → canary_loop left nvm i 0 ≡ 0
unfolding canary_loop
canary_intact zero nvm i h = refl
canary_intact (suc left) nvm i h =
    let here = h i (omega arith) (omega arith) in
    let e : (nvm.flash (nvm.preserve_from + i) == nvm.tail_canary i) ≡ true = ground arith in
    rw e (canary_intact left nvm (i + 1) (λ j lo hi. h j (omega arith) (omega arith)))
