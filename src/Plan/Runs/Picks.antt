-- ===== src/Plan/Runs/Picks.antt =====
-- The runs that split_nonzero_diff_runs of src/enc_field.c finds, and which of them it picks.
use ultra_patch.Base.{
  ℕ, zero, suc, ◌+◌, ◌-◌, ◌≤◌, ◌<◌, ◌≡◌, refl, Bool, true, false, not, List, [], ◌∷◌, Option, none,
  some, ltb, ◌==◌, arith, ap, sym, ◌∙◌, if_cases, if◌then◌else◌, length,
}
use ultra_patch.Model.{update}
use ultra_patch.Plan.{PlanOp, run_end}
use ultra_patch.Plan.Finalize.{run_end-≥, run_end-≤}
use ultra_patch.Plan.Runs.{
  Run, find_runs, run_at, seg_at, SplitScratch, choose_loop, choose_run, choose_runs, take_bits,
  add_runs, prefix_sums, add_run,
}

-- Runs that follow one another from `from` on, up to the end of a copy.
abbrev pub Follows : ℕ → ℕ → List Run → Type 0
Follows dl from [] = Unit
Follows dl from (r ∷ rs) = (from ≤ r.begin) × (r.begin ≤ r.end) × (r.end ≤ dl) × Follows dl r.end rs

pub find_runs-Follows :
    (fuel : ℕ) (diff : ℕ → ℕ) (dl scan : ℕ)
    → scan ≤ dl
    → Follows dl scan (find_runs fuel diff dl scan)
unfolding find_runs
find_runs-Follows zero diff dl scan h = tt
find_runs-Follows (suc fuel) diff dl scan h =
    let b = run_end (λ k. diff k == 0) (dl - scan) scan in
    let e = run_end (λ k. not (diff k == 0)) (dl - (b + 1)) (b + 1) in
    let hb = run_end-≥ (λ k. diff k == 0) (dl - scan) scan in
    let he = run_end-≥ (λ k. not (diff k == 0)) (dl - (b + 1)) (b + 1) in
    let hd = run_end-≤ (λ k. not (diff k == 0)) (dl - (b + 1)) (b + 1) in
    let r : Run = record { begin = b; end = e } in
    if_cases (Follows dl scan) (ltb b dl) (r ∷ find_runs fuel diff dl e) []
      (λ lt.
        let inside : e ≤ dl = ground arith in
        (hb, omega arith, inside, find_runs-Follows fuel diff dl e inside))
      (λ ge. tt)

-- A run at or after place `p`.
pub run_at-Follows :
    (dl from : ℕ) (runs : List Run) (s : ℕ)
    → Follows dl from runs
    → s < length runs
    → (from ≤ (run_at runs s).begin)
      × ((run_at runs s).begin ≤ (run_at runs s).end)
      × ((run_at runs s).end ≤ dl)
run_at-Follows dl from [] s h lt = absurd (omega arith)
run_at-Follows dl from (r ∷ rs) zero h lt = (h.0, h.1, h.2)
run_at-Follows dl from (r ∷ rs) (suc s) h lt =
    let (a, b, c) = run_at-Follows dl r.end rs s h.3 (omega arith) in
    let p = h.0 in let q = h.1 in (omega arith, b, c)

pub seg_at-≤ :
    (dl from : ℕ) (runs : List Run) (p s : ℕ)
    → Follows dl from runs
    → p ≤ s
    → s < length runs
    → seg_at runs p ≤ (run_at runs s).begin
seg_at-≤ dl from runs zero s h le lt = omega arith
seg_at-≤ dl from [] (suc p) s h le lt = absurd (omega arith)
seg_at-≤ dl from (r ∷ rs) (suc p) zero h le lt = absurd (omega arith)
seg_at-≤ dl from (r ∷ rs) (suc zero) (suc s) h le lt =
    (run_at-Follows dl r.end rs s h.3 (omega arith)).0
seg_at-≤ dl from (r ∷ rs) (suc (suc p)) (suc s) h le lt =
    seg_at-≤ dl r.end rs (suc p) s h.3 (omega arith) (omega arith)

-- Every choice is a run that the segment has.
abbrev pub Picks : ℕ → (ℕ → Option ℕ) → Type 0
Picks n ft = (p s : ℕ) → ft p ≡ some s → (p ≤ s) × (s < n)

pub keeps_picks :
    (n p s' : ℕ) (take : Option ℕ)
    → p ≤ s'
    → s' < n
    → (better : Bool) → ((s : ℕ) → take ≡ some s → (p ≤ s) × (s < n))
    → (s : ℕ) → (if better then some s' else take) ≡ some s
    → (p ≤ s) × (s < n)
keeps_picks n p s' take le lt true h s e = ground arith
keeps_picks n p s' take le lt false h s e = h s e

pub choose_loop-Picks :
    (l0 l1 : ℕ → ℕ) (fwd : Bool) (runs : List Run) (sc : SplitScratch) (n p left v : ℕ)
    → (take : Option ℕ) → p + left ≤ n
    → ((s : ℕ) → take ≡ some s → (p ≤ s) × (s < n))
    → (s : ℕ) → (choose_loop l0 l1 fwd runs sc p left v take).1 ≡ some s
    → (p ≤ s) × (s < n)
unfolding choose_loop
choose_loop-Picks l0 l1 fwd runs sc n p zero v take le h s e = h s e
choose_loop-Picks l0 l1 fwd runs sc n p (suc left) v take le h s e =
    let c = take_bits l0 l1 fwd runs sc p (p + left) in
    let better = ltb (c + 8) v in
    choose_loop-Picks l0 l1 fwd runs sc n p left (if better then c else v)
      (if better then some (p + left) else take) (omega arith)
      (keeps_picks n p (p + left) take (omega arith) (omega arith) better h) s e

pub update-Picks :
    (n p : ℕ) (ft : ℕ → Option ℕ) (take : Option ℕ)
    → Picks n ft
    → ((s : ℕ) → take ≡ some s → (p ≤ s) × (s < n))
    → Picks n (update ft p take)
update-Picks n p ft take h k q s =
    if_cases (λ o. o ≡ some s → (q ≤ s) × (s < n)) (p == q) take (ft q)
      (λ same e. let r = k s e in let (a, b) = r in (ground arith, b)) (λ other e. h q s e)

pub choose_runs-Picks :
    (l0 l1 : ℕ → ℕ) (fwd : Bool) (runs : List Run) (o : PlanOp) (xf left : ℕ) (sc : SplitScratch)
    → left ≤ length runs + 1
    → Picks (length runs) sc.ft
    → Picks (length runs) (choose_runs l0 l1 fwd runs o xf left sc).ft
unfolding choose_runs choose_run
choose_runs-Picks l0 l1 fwd runs o xf zero sc le h = h
choose_runs-Picks l0 l1 fwd runs o xf (suc left) sc le h =
    choose_runs-Picks l0 l1 fwd runs o xf left (choose_run l0 l1 fwd runs o xf sc left)
      (omega arith)
      (update-Picks (length runs) left sc.ft _ h (
        choose_loop-Picks l0 l1 fwd runs sc (length runs) left (length runs - left) _ none
          (omega arith) (λ s e. absurd (ground arith))))

pub seg_at-inside :
    (dl from : ℕ) (runs : List Run) (p : ℕ)
    → Follows dl from runs
    → p ≤ length runs
    → seg_at runs p ≤ dl
seg_at-inside dl from runs zero h le = omega arith
seg_at-inside dl from runs (suc p) h le = (run_at-Follows dl from runs p h (omega arith)).2

pub add_runs-ft :
    (l0 l1 to diff : ℕ → ℕ) (tp : ℕ) (runs : List Run) (left j : ℕ) (sc : SplitScratch)
    → (add_runs l0 l1 to diff tp runs left j sc).ft ≡ sc.ft
unfolding add_runs add_run
add_runs-ft l0 l1 to diff tp runs zero j sc = refl
add_runs-ft l0 l1 to diff tp runs (suc left) j sc =
    add_runs-ft l0 l1 to diff tp runs left (j + 1) (add_run l0 l1 to diff tp runs sc j)

pub prefix_sums-Picks :
    (l0 l1 to diff : ℕ → ℕ) (tp : ℕ) (runs : List Run)
    → Picks (length runs) (prefix_sums l0 l1 to diff tp runs).ft
unfolding prefix_sums
prefix_sums-Picks l0 l1 to diff tp runs p s e =
    let none_yet =
      ap (λ (ft : ℕ → Option ℕ). ft p) (add_runs-ft l0 l1 to diff tp runs (length runs) 0 _) in
    let bad = sym none_yet ∙ e in absurd (ground arith)
