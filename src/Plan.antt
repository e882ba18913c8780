-- ===== src/Plan.antt =====
-- The finalisation of a plan in src/enc_plan.c, with row_covered of src/enc_internal.h: copies that
-- would read flash already committed become literals, and pure seeks are folded away.
pub mod Finalize
pub mod Hazard
pub mod Runs
use ultra_patch.Base.{
  ℕ, zero, suc, ◌+◌, ◌-◌, ◌/◌, Bool, true, false, ◌&&◌, ◌||◌, not, List, [], ◌∷◌, ltb, leb, ◌==◌,
  if◌then◌else◌,
}
use ultra_patch.Base.Int.{ℤ, pos, negsuc, ◌+ℤ◌}
use ultra_patch.Apply.Pages.{outrow}

-- Op: lengths are never negative.
pub record PlanOp : Type 0 where
  pub diff_len : ℕ
  pub extra_len : ℕ
  pub adj : ℤ

-- `out` and `fp_start`; the vector has its last operation first.
pub record Final : Type 0 where
  pub out : List PlanOp
  pub fp_start : ℤ

-- OUTROW_DEPTH - 1 is 1. Going up, a row below 0 is compared like row 0.
unfoldable pub row_covered : Bool → ℕ → ℕ → Bool
row_covered fwd a t =
    if fwd then leb (t / outrow - 1) (a / outrow) else leb (a / outrow) (t / outrow + 1)

-- A byte of the copy that is read at `a` for the target's byte `t`.
unfoldable pub hazard_of : Bool → ℕ → ℕ → ℤ → ℕ → Bool
hazard_of fwd from_size to_size (negsuc a) t = false
hazard_of fwd from_size to_size (pos a) t =
    ltb a from_size
    && ltb a to_size
    && (if fwd then ltb a t else ltb t a)
    && not (row_covered fwd a t)

unfoldable pub copy_hazard_at : Bool → ℕ → ℕ → ℤ → ℕ → ℕ → Bool
copy_hazard_at fwd from_size to_size fp0 tp0 k =
    hazard_of fwd from_size to_size (fp0 +ℤ pos k) (tp0 + k)

-- A pure seek extends the last operation, or the start when there is none.
unfoldable pub push_seek : List PlanOp → ℤ → ℤ → Final
push_seek [] fp_start adj = record { out = []; fp_start = fp_start +ℤ adj }
push_seek (last ∷ out) fp_start adj = record {
  out = record last { adj = last.adj +ℤ adj } ∷ out;
  fp_start = fp_start;
}

unfoldable pub final_op_push : Final → PlanOp → Final
final_op_push s o =
    if o.diff_len == 0 && o.extra_len == 0
    then push_seek s.out s.fp_start o.adj
    else record s { out = o ∷ s.out }

-- The inner loop: the end of a run of hazardous bytes, of which at most `left` are to come.
unfoldable pub run_end : (ℕ → Bool) → ℕ → ℕ → ℕ
run_end hz zero k = k
run_end hz (suc left) k = if hz k then run_end hz left (k + 1) else k

-- The outer loop, which ends at the state, the start of the segment and `k`.
pub record Split : Type 0 where
  pub final : Final
  pub seg : ℕ
  pub k : ℕ

-- A safe stretch from `seg` with the hazardous run up to `e` as literals; the source skips the run.
abbrev pub literalize : Split → ℕ → Split
literalize s e = record {
  final =
      final_op_push s.final
        (record { diff_len = s.k - s.seg; extra_len = e - s.k; adj = pos (e - s.k) });
  seg = e;
  k = e;
}

-- Every round moves `k`, so the length of the copy is enough fuel.
unfoldable pub split_loop : ℕ → (ℕ → Bool) → ℕ → Split → Split
split_loop zero hz dl s = s
split_loop (suc fuel) hz dl s =
    let next =
      if hz s.k then literalize s (run_end hz (dl - s.k) s.k) else record s { k = s.k + 1 } in
    let rest = split_loop fuel hz dl next in if ltb s.k dl then rest else s

-- The rest of an operation. Without a split `seg` is 0, so this is the operation itself.
unfoldable pub final_op : (ℕ → Bool) → PlanOp → Final → Final
final_op hz o f =
    let s = split_loop o.diff_len hz o.diff_len (record { final = f; seg = 0; k = 0 }) in
    final_op_push s.final (record o { diff_len = o.diff_len - s.seg })

unfoldable pub finalize_loop : Bool → ℕ → ℕ → List PlanOp → ℕ → ℤ → Final → Final
finalize_loop fwd from_size to_size [] tp0 fp0 f = f
finalize_loop fwd from_size to_size (o ∷ ops) tp0 fp0 f =
    finalize_loop fwd from_size to_size ops (tp0 + (o.diff_len + o.extra_len))
      (fp0 +ℤ pos o.diff_len +ℤ o.adj) (final_op (copy_hazard_at fwd from_size to_size fp0 tp0) o f)

unfoldable pub finalize_ops : Bool → ℕ → ℕ → List PlanOp → Final
finalize_ops fwd from_size to_size ops =
    finalize_loop fwd from_size to_size ops 0 (pos 0) (record { out = []; fp_start = pos 0 })
