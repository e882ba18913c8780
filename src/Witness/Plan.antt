-- ===== src/Witness/Plan.antt =====
-- Plans: one whose copy lies far behind the output, going up: its bytes become literals.
use ultra_patch.Base.{
  zero, suc, ◌≡◌, refl, true, List, [], ◌∷◌, arith, if◌then◌else◌, some, ◌==◌, Bool, suc, false,
  if_cases, length, ℕ,
}
use ultra_patch.Base.Int.{pos, ◌+ℤ◌, negsuc}
use ultra_patch.Plan.{
  PlanOp, row_covered, hazard_of, copy_hazard_at, push_seek, final_op_push, run_end, Split,
  split_loop, final_op, finalize_loop, finalize_ops,
}
use ultra_patch.Plan.Finalize.{walk, cursors, in_order, finalize_ops-walk, split_loop-ends}
use ultra_patch.Emit.{
  Image, classify_field, Event, classify_source, classify_at, classify_bl, field_addr, is_local_bl,
  ev_bl,
}
use ultra_patch.Plan.Runs.{split_nonzero_diff_runs}
use ultra_patch.Plan.Runs.Walk.{split_nonzero_diff_runs-walk}
use ultra_patch.Emit.Restores.{RestoresAt, classify_field-Restores}
use ultra_patch.Field.Thumb.{bl_pattern, bl_imm24, bl_imm24s}
use ultra_patch.Field.Thumb.{
  bl_imm24s, bl_target, bl_dereloc, bl_pack, bl_upper, bl_lower, bl_imm24, bl_pattern,
}
use ultra_patch.Wire.Zigzag.{i32_from_u32}
use ultra_patch.Emit.{
  holds, same_field, op_diff_byte, source_byte, field_addr, is_local_bl, classify_source,
  classify_at, classify_bl,
}
use ultra_patch.Base.Int.{ℤ, ◌≤ℤ◌}
use ultra_patch.Plan.Hazard.Reads.{Occurs, here, there, finalize_ops-image_flash_read}
use ultra_patch.Plan.Finalize.{rev_onto}
use ultra_patch.Apply.Pages.{Pages, out_write, orow_reset, image_flash_read}
use ultra_patch.Apply.Frontier.{still, wrote}
use ultra_patch.Witness.Run.{chip, erased}
use ultra_patch.Witness.Apply.{chip-IsDevice}
use ultra_patch.Emit.Candidates.{SegCand, cmp_seg, FieldInj, smap_build_full}
use ultra_patch.Emit.Candidates.Ascending.{IsSorted, entry_at, smap_build_full-Ascends}
use ultra_patch.Field.ShiftMap.{Ascends}

abbrev late_copy : List PlanOp
late_copy =
    record { diff_len = 0; extra_len = 600; adj = pos 0 }
    ∷ record { diff_len = 3; extra_len = 2; adj = pos 1 }
    ∷ []

late_copy_final : finalize_ops true 2048 2048 late_copy ≡ record {
  out =
      record { diff_len = 0; extra_len = 2; adj = pos 1 }
      ∷ record { diff_len = 0; extra_len = 3; adj = pos 3 }
      ∷ record { diff_len = 0; extra_len = 600; adj = pos 0 }
      ∷ [];
  fp_start = pos 0;
}
unfolding row_covered hazard_of copy_hazard_at push_seek final_op_push run_end split_loop final_op
    finalize_loop finalize_ops ◌+ℤ◌
late_copy_final = refl

finalize_ops-walk_example :
    (let r = finalize_ops true 2048 2048 late_copy in walk (cursors 0 r.fp_start) (in_order r.out))
    ≡ walk (cursors 0 (pos 0)) late_copy
finalize_ops-walk_example = finalize_ops-walk true 2048 2048 late_copy

abbrev unsplit : Split
unsplit = record { final = record { out = []; fp_start = pos 0 }; seg = 0; k = 0 }

split_loop-ends_example : (split_loop 3 (copy_hazard_at true 2048 2048 (pos 0) 600) 3 unsplit).k ≡ 3
split_loop-ends_example =
    split_loop-ends 3 (copy_hazard_at true 2048 2048 (pos 0) 600) 3 unsplit (omega arith)
      (omega arith)

-- The old plan with one byte in four different in a copy of eight.
abbrev old_image : Image
old_image = record { bytes = λ a. if a == 1 then 0xf0 else if a == 3 then 0xf8 else 0; size = 8 }

abbrev new_image : Image
new_image = record {
  bytes = λ a. if a == 1 then 0xf0 else if a == 2 then 1 else if a == 3 then 0xf8 else 0;
  size = 8;
}

abbrev one_copy : List PlanOp
one_copy = record { diff_len = 8; extra_len = 0; adj = pos 0 } ∷ []

split_nonzero_diff_runs-walk_example :
    walk
      (cursors 0 (pos 0))
      (split_nonzero_diff_runs true old_image new_image (λ b. 8) (λ b. 8) one_copy)
    ≡ walk (cursors 0 (pos 0)) one_copy
split_nonzero_diff_runs-walk_example =
    split_nonzero_diff_runs-walk true old_image new_image (λ b. 8) (λ b. 8) one_copy
      (cursors 0 (pos 0))

-- The difference is in a branch, whose delta is -1.
branch_event :
    classify_field old_image new_image (λ i. 0) true (pos 0) 0 8 0 ≡ some (ev_bl (negsuc 0) 4)
unfolding classify_field classify_source classify_at classify_bl is_local_bl field_addr bl_pattern
    bl_imm24 bl_imm24s bl_target bl_dereloc bl_pack bl_upper bl_lower i32_from_u32 holds same_field
    op_diff_byte source_byte ◌+ℤ◌
branch_event = refl

classify_field-Restores_example :
    (e : Event) × (classify_field old_image new_image (λ i. 0) true (pos 0) 0 8 0 ≡ some e)
    × RestoresAt
        (λ i. 0)
        (λ i. pos 0)
        0
        old_image
        new_image
        (field_addr (pos 0) 0 old_image.size)
        0
        e
classify_field-Restores_example =
    classify_field-Restores (λ i. 0) (λ i. pos 0) 0 old_image new_image (λ i. 0) true (pos 0) 0 8 0
      (λ a. ground arith) (λ a. ground arith) (omega arith)

-- A copy of what lies a hundred bytes back, in the same row of flash.
abbrev near_copy : PlanOp
near_copy = record { diff_len = 3; extra_len = 2; adj = pos 0 }

abbrev near_plan : List PlanOp
near_plan = record { diff_len = 0; extra_len = 100; adj = pos 0 } ∷ near_copy ∷ []

near_copy-Occurs :
    (let r = finalize_ops true 512 512 near_plan in
      Occurs near_copy (cursors 100 (pos 0)) (cursors 0 r.fp_start) (in_order r.out))
unfolding row_covered hazard_of copy_hazard_at push_seek final_op_push run_end split_loop final_op
    finalize_loop finalize_ops ◌+ℤ◌ in_order rev_onto
near_copy-Occurs =
    there (cursors 0 (pos 0)) (record { diff_len = 0; extra_len = 100; adj = pos 0 })
      (near_copy ∷ []) (here [])

abbrev unwritten : Pages (ℕ → ℕ)
unwritten = record { flash = erased; base = λ s. 0; dirty = λ s. false; buf = λ s x. 0 }

-- The first two bytes are written to the cache, and the second of them is still in the flash.
abbrev two_written : Pages (ℕ → ℕ)
two_written = out_write chip (out_write chip (orow_reset chip unwritten) 0 7) 1 8

next_byte : pos 0 +ℤ pos 1 ≡ pos 1
unfolding ◌+ℤ◌
next_byte = refl

finalize_ops-image_flash_read_example :
    image_flash_read chip two_written.flash 1 ≡ image_flash_read chip erased 1
finalize_ops-image_flash_read_example =
    finalize_ops-image_flash_read chip chip.capacity chip-IsDevice true 512 512 near_plan near_copy
      (cursors 100 (pos 0)) 1 1 2 unwritten two_written (omega arith) (omega arith) near_copy-Occurs
      (omega arith) next_byte (omega arith) (omega arith) (omega arith)
      (wrote 1 2 8 (wrote 0 1 7 still (refl, refl)) (refl, refl))

-- An insertion sort in the place of qsort.
at_most : ℤ → Bool
at_most (pos zero) = true
at_most (pos (suc n)) = false
at_most (negsuc n) = true

put_in : SegCand → List SegCand → List SegCand
put_in x [] = x ∷ []
put_in x (y ∷ ys) = let rest = put_in x ys in if at_most (cmp_seg x y) then x ∷ y ∷ ys else y ∷ rest

sort_seg : List SegCand → List SegCand
sort_seg [] = []
sort_seg (x ∷ xs) = put_in x (sort_seg xs)

at_most-le : (x y : SegCand) → at_most (cmp_seg x y) ≡ true → cmp_seg x y ≤ℤ pos 0
unfolding at_most cmp_seg
at_most-le x y h = ground arith

at_most-ge : (x y : SegCand) → at_most (cmp_seg x y) ≡ false → cmp_seg y x ≤ℤ pos 0
unfolding at_most cmp_seg
at_most-ge x y h = ground arith

put_in-behind :
    (x z : SegCand) (ys : List SegCand)
    → cmp_seg z x ≤ℤ pos 0
    → IsSorted (z ∷ ys)
    → IsSorted (z ∷ put_in x ys)
unfolding put_in
put_in-behind x z [] le h = (le, tt)
put_in-behind x z (y ∷ ys) le h =
    if_cases (λ (l : List SegCand). IsSorted (z ∷ l)) (at_most (cmp_seg x y)) (x ∷ y ∷ ys)
      (y ∷ put_in x ys) (λ e. (le, (at_most-le x y e, h.1)))
      (λ e. (h.0, put_in-behind x y ys (at_most-ge x y e) h.1))

put_in-IsSorted : (x : SegCand) (ys : List SegCand) → IsSorted ys → IsSorted (put_in x ys)
unfolding put_in
put_in-IsSorted x [] h = tt
put_in-IsSorted x (y ∷ ys) h =
    if_cases IsSorted (at_most (cmp_seg x y)) (x ∷ y ∷ ys) (y ∷ put_in x ys)
      (λ e. (at_most-le x y e, h)) (λ e. put_in-behind x y ys (at_most-ge x y e) h)

sort_seg-IsSorted : (xs : List SegCand) → IsSorted (sort_seg xs)
unfolding sort_seg
sort_seg-IsSorted [] = tt
sort_seg-IsSorted (x ∷ xs) = put_in-IsSorted x (sort_seg xs) (sort_seg-IsSorted xs)

abbrev literal_field : List FieldInj
literal_field = record { cc = 0; ex = true; k1 = 8; need = negsuc 3; k2 = 5 } ∷ []

smap_build_full-Ascends_example :
    (let m = smap_build_full sort_seg (λ r. r) one_copy (pos 0) 8 8 literal_field true in
      Ascends (λ i. (entry_at m i).b) (length m))
smap_build_full-Ascends_example =
    smap_build_full-Ascends sort_seg (λ r. r) sort_seg-IsSorted one_copy (pos 0) 8 8 literal_field
      true
