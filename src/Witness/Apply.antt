-- ===== src/Witness/Apply.antt =====
-- The theorems on the decoder at concrete inputs: a patch of 17 bytes that makes an image of one byte,
-- and a page cache over a small device.
use ultra_patch.Base.{
  ℕ, ◌-◌, ◌^◌, ◌≡◌, ◌⊎◌, refl, true, false, List, [], ◌∷◌, arith, sym, ◌∙◌, some, ◌==◌, ap,
  if◌then◌else◌,
}
use ultra_patch.Envelope.{Sizes, Walk, fields, wire_from_crc, refused}
use ultra_patch.Field.Thumb.{bl_imm24, bl_dereloc}
use ultra_patch.Field.Thumb.Pack.{half_at, bl_imm24-bl_dereloc}
use ultra_patch.Apply.Pages.{
  Pages, orow_none, image_flash_read, orow_commit_all, out_read, out_write,
}
use ultra_patch.Apply.Pages.Law.{IsDevice, IsPages}
use ultra_patch.Apply.Pages.Write.{
  write_array, out_write_all, out_read-out_write, orow_commit_all-out_write_all,
}
use ultra_patch.Apply.Copy.{stopped}
use ultra_patch.Apply.Step.{apply_op, ops_loop, arrived}
use ultra_patch.Apply.Run.{
  geo_of, decode_header, patch_apply_run, error, rej_corrupt, check_source, run_header, image_crc,
}
use ultra_patch.Apply.Frontier.Progress.{OnWay, Goes, apply_op-Goes}
use ultra_patch.Apply.Safety.Start.{IsAccepted, apply_start-Starts, ops_loop-apply_start}
use ultra_patch.Apply.Safety.Run.{patch_apply_run-IsKept}
use ultra_patch.Witness.Run.{
  chip, erased, blob, blob_applies, blob_sizes, foreign, blob_walk, foreign_sizes, blob_start,
  foreign_walk, blob_map, foreign_reads, blob_start_clear, foreign_differs, first_token_left,
}
use ultra_patch.Apply.Safety.Verdict.{
  Delivered, patch_apply_run-done, patch_apply_run-gated, IsDone,
}
use ultra_patch.Apply.Content.{content_loop}
use ultra_patch.Apply.Rounds.{content_loop-read_token}
use ultra_patch.Host.Run.{HostApply, host_apply_blob}
use ultra_patch.Host.Safety.{IsClean, host_apply_blob-IsClean}

pub chip-IsDevice : IsDevice chip chip.capacity
chip-IsDevice = record {
  writes = λ f a page x al lo hi from to. refl;
  base_aligned = refl;
  limit_aligned = refl;
  addresses = omega arith;
}

-- The flash and an empty cache.
abbrev fresh : Pages (ℕ → ℕ)
fresh = record { flash = erased; base = λ s. orow_none; dirty = λ s. false; buf = λ s x. 0 }

fresh-IsPages : IsPages chip chip.capacity fresh
fresh-IsPages s h = absurd (ground arith)

-- Five writes in three pages, one of them twice.
abbrev writes : List (ℕ × ℕ)
writes = (3, 7) ∷ (300, 8) ∷ (600, 9) ∷ (3, 1) ∷ (601, 2) ∷ []

out_read-out_write_example : out_read chip (out_write chip fresh 300 8) 300 ≡ 8
out_read-out_write_example =
    out_read-out_write chip chip.capacity chip-IsDevice fresh 300 8 300 fresh-IsPages (omega arith)
      (omega arith)

orow_commit_all-out_write_all_example :
    image_flash_read chip (orow_commit_all chip true 700 (out_write_all chip fresh writes)).flash 3
    ≡ write_array (out_read chip fresh) writes 3
orow_commit_all-out_write_all_example =
    orow_commit_all-out_write_all chip chip.capacity chip-IsDevice fresh writes true 700 3
      fresh-IsPages (omega arith, (omega arith, (omega arith, (omega arith, (omega arith, tt)))))
      (omega arith)

last_write : write_array (out_read chip fresh) writes 3 ≡ 1
last_write = refl

ops_loop-apply_start_example :
    OnWay chip
      (geo_of blob_sizes blob_walk)
      blob_start.pages
      blob_start.tp
      (ops_loop chip (geo_of blob_sizes blob_walk) 2 blob_start)
    × ((stopped (ops_loop chip (geo_of blob_sizes blob_walk) 2 blob_start) ≡ true)
        ⊎ (arrived chip
              (geo_of blob_sizes blob_walk)
              (ops_loop chip (geo_of blob_sizes blob_walk) 2 blob_start)
            ≡ true))
ops_loop-apply_start_example = ops_loop-apply_start chip erased blob_sizes blob_walk blob_map 0

apply_op-Goes_example :
    Goes chip
      (geo_of blob_sizes blob_walk)
      blob_start.pages
      blob_start.tp
      blob_start.tp
      (apply_op chip (geo_of blob_sizes blob_walk) blob_start)
apply_op-Goes_example =
    apply_op-Goes chip (geo_of blob_sizes blob_walk) blob_start.pages blob_start.tp blob_start
      (apply_start-Starts chip chip.capacity erased blob_sizes blob_walk blob_map 0).way
      blob_start_clear

-- The byte before the image.
abbrev BeforeImage : (ℕ → ℕ) → Type 0
BeforeImage f = f (2 ^ 27 - 1) ≡ 255

patch_apply_run-IsKept_example : (patch_apply_run chip erased blob).0 (2 ^ 27 - 1) ≡ 255
patch_apply_run-IsKept_example =
    patch_apply_run-IsKept chip chip-IsDevice BeforeImage erased blob
      (λ f addr page al low high i. ground arith) refl

patch_apply_run-done_example :
    (s : Sizes) × (w : Walk) × (rest : List ℕ) × (decode_header chip erased blob ≡ fields s w rest)
    × Delivered chip chip.capacity erased (patch_apply_run chip erased blob).0 s
patch_apply_run-done_example = patch_apply_run-done chip chip-IsDevice erased blob blob_applies

patch_apply_run-gated_example :
    ((s : Sizes) × (w : Walk) × (rest : List ℕ) × (decode_header chip erased foreign
        ≡ fields s w rest)
      × IsAccepted chip erased s)
    ⊎ (((patch_apply_run chip erased foreign).0 ≡ erased)
        × (IsDone (patch_apply_run chip erased foreign).1 → ⊥))
patch_apply_run-gated_example = patch_apply_run-gated chip erased foreign

-- The source is not the one that this patch is for.
foreign_refused : patch_apply_run chip erased foreign ≡ (erased, error rej_corrupt)
unfolding patch_apply_run decode_header check_source run_header
foreign_refused =
    let differs : (wire_from_crc (image_crc chip erased foreign_sizes.from_size)
          == foreign_sizes.want_from)
        ≡ false =
      ground (arith, foreign_differs) in
    ap (λ h. run_header chip erased (check_source chip erased h)) foreign_reads
    ∙ ap (λ b. run_header chip erased (if b then fields foreign_sizes foreign_walk [] else refused))
        differs

bl_imm24-bl_dereloc_example :
    bl_imm24 (half_at (bl_dereloc 0xf7ff 0xfffe 6) 0) (half_at (bl_dereloc 0xf7ff 0xfffe 6) 2)
    ≡ 0xff_fff8
unfolding bl_imm24
bl_imm24-bl_dereloc_example = bl_imm24-bl_dereloc 0xf7ff 0xfffe 6 (omega arith)

content_loop-read_token_example :
    content_loop
      (geo_of blob_sizes blob_walk)
      (out_read chip blob_start.pages)
      1000
      blob_start.content
      false
    ≡ content_loop
        (geo_of blob_sizes blob_walk)
        (out_read chip blob_start.pages)
        2
        blob_start.content
        false
content_loop-read_token_example =
    content_loop-read_token (geo_of blob_sizes blob_walk) (out_read chip blob_start.pages) 998
      blob_start.content false (λ w. let e = sym w.1 ∙ first_token_left in absurd (omega arith))

-- The host applies the blob to an image of no bytes.
host_apply_blob-IsClean_example :
    (ha : HostApply) × (host_apply_blob 8192 (2 ^ 26) blob (λ a. 0) 0 ≡ some ha) × IsClean ha
host_apply_blob-IsClean_example =
    host_apply_blob-IsClean 8192 (2 ^ 26) blob (λ a. 0) 0 (omega arith) (omega arith) (omega arith)
