-- ===== src/Host/Safety.antt =====
-- What the runs of src/patch_host_backend.c find in the counters and in the canary of the emulator.
use ultra_patch.Base.{
  ℕ, ◌+◌, ◌-◌, ◌%◌, ◌^◌, ◌≤◌, ◌<◌, ◌≡◌, refl, List, Option, none, some, arith, ap, sym, subst, ◌∙◌,
  max,
}
use ultra_patch.Base.Word.{u32}
use ultra_patch.Wire.Uleb.{◌>>=◌, max_image}
use ultra_patch.Envelope.{Fields, fields, resource, refused}
use ultra_patch.Apply.Pages.{Device, outrow, image_flash_read}
use ultra_patch.Apply.Run.{decode_header, patch_apply_run, done, PatchApplyResult}
use ultra_patch.Apply.Safety.Run.{Fits, run_header_keeps}
use ultra_patch.Apply.Safety.Verdict.{run_header-Delivered, IsDone}
use ultra_patch.Host.Nvm.{Nvm, flash_size, nvm_init, nvm_canary_bad}
use ultra_patch.Host.Run.{
  nvm_device, peek_envelope_sizes, peeked, span_of, host_nvm, HostApply, outcome, host_apply_blob,
  pad_seed_loop,
}
use ultra_patch.Host.Device.{
  SameGate, nvm_device-IsDevice, flash_write_page-SameGate, flash_read-inside,
}
use ultra_patch.Apply.Safety.Start.{decode_header-Promise}
use ultra_patch.Host.Peek.{
  PeeksFields, flash_size_covers, peeked-le, decode_header-Peeks, flash_size_bounded, peeked-some,
}
use ultra_patch.Host.Canary.{Fresh, OnFresh, nvm_init-Fresh, canary_intact}

SameGate-refl : (nvm : Nvm) → SameGate nvm nvm
SameGate-refl nvm = record {
  unaligned = refl;
  oob_page_writes = refl;
  preserve_from = refl;
  tail_canary = refl;
  tail_n = refl;
}

module _ (base capacity : ℕ) (blob : List ℕ) (from : ℕ → ℕ) (from_n : ℕ) where
  abbrev flash_n : ℕ
  flash_n = flash_size (span_of blob from_n)

  abbrev dev : Device Nvm
  dev = nvm_device base capacity flash_n

  -- An accepted target lies in the emulated flash, and the canary begins behind it.
  header_peeked : (h : Fields) → PeeksFields (peek_envelope_sizes blob) h → Fits flash_n h
  unfolding span_of
  header_peeked (fields s w rest) e =
      let p = peeked-some blob from_n (s.from_size, s.to_size) e in
      let covers = flash_size_covers (span_of blob from_n) in
      let ts = ap (λ (q : ℕ × ℕ). q.1) p in
      let sum = ap (λ (q : ℕ × ℕ). max (max from_n q.0) q.1) p in omega arith
  header_peeked resource e = tt
  header_peeked refused e = tt

  -- Every run leaves the counters of refused writes and the canary alone.
  run-SameGate :
      (nvm : Nvm)
      → base % outrow ≡ 0
      → base + flash_n ≤ 2 ^ 32
      → SameGate nvm (patch_apply_run dev nvm blob).0
  unfolding patch_apply_run
  run-SameGate nvm bal fit =
      let law =
        nvm_device-IsDevice base flash_n bal (flash_size_covers (span_of blob from_n)).1 fit
          capacity in
      let h = decode_header dev nvm blob in
      run_header_keeps dev flash_n law (SameGate nvm)
        (λ f addr page al lo hi g.
          flash_write_page-SameGate base flash_n nvm f addr page bal fit al lo hi g)
        nvm h (header_peeked h (decode_header-Peeks dev nvm blob)) (SameGate-refl nvm)

  image_read :
      (nvm : Nvm) (x : ℕ)
      → base + flash_n ≤ 2 ^ 32
      → x < flash_n
      → image_flash_read dev nvm x ≡ nvm.flash x
  unfolding image_flash_read
  image_read nvm x fit hi =
      let at : u32 (base + x) - base ≡ x = omega arith in
      flash_read-inside base flash_n nvm (u32 (base + x)) fit (omega arith) (omega arith)
      ∙ ap (λ a. nvm.flash a) at

  -- A run that is done leaves the flash behind the target as it was.
  done-beyond :
      (nvm : Nvm)
      → base % outrow ≡ 0
      → base + flash_n ≤ 2 ^ 32
      → (patch_apply_run dev nvm blob).1 ≡ done
      → (x : ℕ) → (peeked blob from_n).1 ≤ x
      → x < flash_n
      → (patch_apply_run dev nvm blob).0.flash x ≡ nvm.flash x
  unfolding patch_apply_run
  done-beyond nvm bal fit e x lo hi =
      let law =
        nvm_device-IsDevice base flash_n bal (flash_size_covers (span_of blob from_n)).1 fit
          capacity in
      let h = decode_header dev nvm blob in
      let pf = decode_header-Peeks dev nvm blob in
      let (s, w, rest, eh, d) =
        run_header-Delivered dev flash_n law nvm h (header_peeked h pf)
          (decode_header-Promise dev nvm blob) (subst IsDone (sym e) tt) in
      let known = subst (PeeksFields (peek_envelope_sizes blob)) eh pf in
      let ts = ap (λ (q : ℕ × ℕ). q.1) (peeked-some blob from_n _ known) in
      sym (image_read (patch_apply_run dev nvm blob).0 x fit hi)
      ∙ d.beyond x (omega arith) hi
      ∙ image_read nvm x fit hi

-- What an apply on the emulator finds: no refused write, and after success the old tail.
pub record IsClean (ha : HostApply) : Type 0 where
  pub unaligned : ha.nvm.unaligned ≡ 0
  pub oob_page_writes : ha.nvm.oob_page_writes ≡ 0
  pub tail : ha.rc ≡ done → nvm_canary_bad ha.nvm ≡ 0

outcome-parts :
    (d : Device Nvm) (nvm : Nvm) (blob : List ℕ) (r : Nvm × PatchApplyResult) (h : Fields)
    → ((outcome d nvm blob r h).nvm ≡ r.0) × ((outcome d nvm blob r h).rc ≡ r.1)
outcome-parts d nvm blob r (fields s w rest) = (refl, refl)
outcome-parts d nvm blob r resource = (refl, refl)
outcome-parts d nvm blob r refused = (refl, refl)

module _ (base capacity : ℕ) (blob : List ℕ) (from : ℕ → ℕ) (from_n : ℕ) where
  abbrev span : ℕ
  span = span_of blob from_n

  abbrev host_device : Device Nvm
  host_device = nvm_device base capacity (flash_size span)

  tail_intact :
      (nvm : Nvm)
      → Fresh span (peeked blob from_n).1 nvm
      → base % outrow ≡ 0
      → base + flash_size span ≤ 2 ^ 32
      → (patch_apply_run host_device nvm blob).1 ≡ done
      → nvm_canary_bad (patch_apply_run host_device nvm blob).0 ≡ 0
  unfolding nvm_canary_bad
  tail_intact nvm fresh bal fit e =
      let f = (patch_apply_run host_device nvm blob).0 in
      let g = run-SameGate base capacity blob from from_n nvm bal fit in
      let start = g.preserve_from ∙ fresh.preserve_from in
      let count = g.tail_n ∙ fresh.tail_n in
      canary_intact f.tail_n f 0 (λ j lo hi.
        let beyond =
          done-beyond base capacity blob from from_n nvm bal fit e (f.preserve_from + j)
            (omega arith) (omega arith) in
        beyond
        ∙ ap (λ a. nvm.flash (a + j)) start
        ∙ sym (ap (λ c. c j) g.tail_canary ∙ fresh.canary j))

  outcome-IsClean :
      (nvm : Nvm)
      → Fresh span (peeked blob from_n).1 nvm
      → base % outrow ≡ 0
      → base + flash_size span ≤ 2 ^ 32
      → IsClean (
          outcome host_device nvm blob
            (patch_apply_run host_device nvm blob)
            (decode_header host_device nvm blob))
  outcome-IsClean nvm fresh bal fit =
      let g = run-SameGate base capacity blob from from_n nvm bal fit in
      let r = patch_apply_run host_device nvm blob in
      let (en, er) = outcome-parts host_device nvm blob r (decode_header host_device nvm blob) in
      record {
        unaligned = ap (λ n. n.unaligned) en ∙ g.unaligned ∙ fresh.unaligned;
        oob_page_writes =
            ap (λ n. n.oob_page_writes) en ∙ g.oob_page_writes ∙ fresh.oob_page_writes;
        tail = λ e. ap nvm_canary_bad en ∙ tail_intact nvm fresh bal fit (sym er ∙ e);
      }

  from_fresh :
      (o : Option Nvm)
      → OnFresh span (peeked blob from_n).1 o
      → base % outrow ≡ 0
      → base + flash_size span ≤ 2 ^ 32
      → (ha : HostApply) × ((o >>= λ nvm. some (
            outcome host_device nvm blob
              (patch_apply_run host_device nvm blob)
              (decode_header host_device nvm blob)))
          ≡ some ha)
        × IsClean ha
  from_fresh none fresh bal fit = absurd fresh
  from_fresh (some nvm) fresh bal fit = (
    outcome host_device nvm blob (patch_apply_run host_device nvm blob)
        (decode_header host_device nvm blob),
    refl,
    outcome-IsClean nvm fresh bal fit,
  )

  -- When the base is aligned, a partition of MAX_IMAGE ends within the 32-bit addresses and the old
  -- image is no larger: every apply of a blob on the emulator, whatever its bytes and its verdict,
  -- comes to an end without a page write that is unaligned or out of bounds, and when it reports DONE the
  -- canary finds the flash from the target's size on as it was.
  pub host_apply_blob-IsClean :
      base % outrow ≡ 0
      → base + max_image ≤ 2 ^ 32
      → from_n ≤ max_image
      → (ha : HostApply) × (host_apply_blob base capacity blob from from_n ≡ some ha) × IsClean ha
  unfolding host_apply_blob host_nvm span_of
  host_apply_blob-IsClean bal fit small =
      let (fs, ts) = peeked blob from_n in
      let seed = pad_seed_loop 8 0 blob in
      let (bf, bt) = peeked-le blob from_n small in
      let s = max (max from_n fs) ts in
      let covers = flash_size_bounded s (omega arith) in
      from_fresh (nvm_init from from_n s ts seed)
        (nvm_init-Fresh from from_n s ts seed (omega arith) (omega arith) (omega arith)) bal
        (omega arith)
