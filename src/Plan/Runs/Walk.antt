-- ===== src/Plan/Runs/Walk.antt =====
-- split_nonzero_diff_runs of src/enc_field.c leaves a plan's total effect on both cursors as it is.
use native.Mathlib.Numerals.{add-one}
use ultra_patch.Base.{
  ℕ, zero, suc, ◌+◌, ◌-◌, ◌≤◌, ◌≡◌, refl, Bool, true, ◌&&◌, ◌||◌, List, [], ◌∷◌, ◌++◌, Option, none,
  some, ltb, ◌==◌, arith, ap, sym, ◌∙◌, if_cases, if◌then◌else◌, length,
}
use ultra_patch.Base.Int.{ℤ, pos, negsuc, ◌+ℤ◌}
use ultra_patch.Emit.{Image, op_diff_byte}
use ultra_patch.Plan.{PlanOp}
use ultra_patch.Plan.Finalize.{Cursors, cursors, after, walk, +ℤ_zero, same, rest_of, stretch}
use ultra_patch.Plan.Runs.{
  Run, find_runs, run_at, seg_at, choose_runs, taken, split_tail, is_zero, split_op, op_runs,
  split_nonzero_diff_runs_budget, split_nonzero_diff_runs, take_run, prefix_sums, transitions_of,
  extra_proxy_bits,
}
use ultra_patch.Plan.Runs.Picks.{
  Follows, choose_runs-Picks, Picks, prefix_sums-Picks, seg_at-inside, find_runs-Follows,
  run_at-Follows, seg_at-≤,
}

walk-append : (c : Cursors) (xs ys : List PlanOp) → walk c (xs ++ ys) ≡ walk (walk c xs) ys
unfolding walk
walk-append c [] ys = refl
walk-append c (x ∷ xs) ys = walk-append (after c x) xs ys

-- The cursors `s` bytes into a copy.
abbrev into : Cursors → ℕ → Cursors
into c s = cursors (c.tp + s) (c.fp +ℤ pos s)

-- A run that is taken moves both cursors to its end.
after_run :
    (c : Cursors) (seg : ℕ) (r : Run)
    → seg ≤ r.begin
    → r.begin ≤ r.end
    → after (into c seg) (record {
      diff_len = r.begin - seg;
      extra_len = r.end - r.begin;
      adj = pos (r.end - r.begin);
    })
      ≡ into c r.end
after_run c seg r h k = same (omega arith) (stretch c.fp seg r.begin r.end h k)

-- The runs taken lead to the end of the last one, which lies inside the copy.
abbrev LeadsTo : Cursors → ℕ → ℕ → List PlanOp × ℕ → Type 0
LeadsTo c dl seg (ops, last) = (walk (into c seg) ops ≡ into c last) × (last ≤ dl)

-- One round, whatever the choice is.
taken_step :
    (fuel : ℕ) (ft : ℕ → Option ℕ) (runs : List Run) (p : ℕ) (c : Cursors) (dl : ℕ)
    → Follows dl 0 runs
    → Picks (length runs) ft
    → p ≤ length runs
    → (o : Option ℕ) → ft p ≡ o
    → ((s : ℕ)
        → s + 1 ≤ length runs
        → LeadsTo c dl (seg_at runs (s + 1)) (taken fuel ft runs (s + 1)))
    → LeadsTo c dl (seg_at runs p) (take_run runs p o (taken fuel ft runs))
unfolding walk
taken_step fuel ft runs p c dl h k le none e ih = (refl, seg_at-inside dl 0 runs p h le)
taken_step fuel ft runs p c dl h k le (some s) e ih =
    let (ps, sn) = k p s e in
    let (a, b, d) = run_at-Follows dl 0 runs s h sn in
    let seg_le = seg_at-≤ dl 0 runs p s h ps sn in
    let (rest, inside) = ih s (omega arith) in
    let next : seg_at runs (s + 1) ≡ (run_at runs s).end = rw (add-one s) refl in
    (
      ap (λ c'. walk c' (taken fuel ft runs (s + 1)).0)
            (after_run c (seg_at runs p) (run_at runs s) seg_le b ∙ ap (into c) (sym next))
          ∙ rest,
      inside,
    )

taken-LeadsTo :
    (fuel : ℕ) (ft : ℕ → Option ℕ) (runs : List Run) (p : ℕ) (c : Cursors) (dl : ℕ)
    → Follows dl 0 runs
    → Picks (length runs) ft
    → p ≤ length runs
    → LeadsTo c dl (seg_at runs p) (taken fuel ft runs p)
unfolding taken walk
taken-LeadsTo zero ft runs p c dl h k le = (refl, seg_at-inside dl 0 runs p h le)
taken-LeadsTo (suc fuel) ft runs p c dl h k le =
    let ih = taken-LeadsTo fuel ft runs in
    taken_step fuel ft runs p c dl h k le (ft p) refl (λ s lt. ih (s + 1) c dl h k lt)

is_zero-eq : (a : ℤ) → is_zero a ≡ true → a ≡ pos 0
is_zero-eq (pos n) h = ground arith
is_zero-eq (negsuc n) h = absurd (ground arith)

-- Taking nothing, where nothing is left, is the operation too.
tail_walk :
    (c : Cursors) (o : PlanOp) (seg : ℕ)
    → seg ≤ o.diff_len
    → walk (into c seg) (
        if (o.diff_len - seg == 0 && o.extra_len == 0 && is_zero o.adj)
        then []
        else record o { diff_len = o.diff_len - seg } ∷ [])
      ≡ after c o
unfolding walk
tail_walk c o seg le =
    let t = o.diff_len - seg in
    let empty = t == 0 && o.extra_len == 0 && is_zero o.adj in
    if_cases (λ ops. walk (into c seg) ops ≡ after c o) empty [] (record o { diff_len = t } ∷ [])
      (λ e.
        let last : is_zero o.adj ≡ true = ground arith in
        let whole : seg ≡ o.diff_len = ground arith in
        let none_extra : o.extra_len ≡ 0 = ground arith in
        same (omega arith) (
          ap (λ n. c.fp +ℤ pos n) whole
          ∙ sym (+ℤ_zero (c.fp +ℤ pos o.diff_len))
          ∙ ap (λ a. c.fp +ℤ pos o.diff_len +ℤ a) (sym (is_zero-eq o.adj last))))
      (λ e. same (omega arith) (ap (λ a. a +ℤ o.adj) (rest_of c.fp seg o.diff_len le)))

walk-one : (c : Cursors) (o : PlanOp) → walk c (o ∷ []) ≡ after c o
unfolding walk
walk-one c o = refl

split_tail-walk :
    (c : Cursors) (o : PlanOp) (r : List PlanOp × ℕ)
    → LeadsTo c o.diff_len 0 r
    → walk c (split_tail o r) ≡ after c o
unfolding split_tail
split_tail-walk c o (ops, seg) (led, inside) =
    let start : c ≡ into c 0 = same (omega arith) (sym (+ℤ_zero c.fp)) in
    let empty = o.diff_len - seg == 0 && o.extra_len == 0 && is_zero o.adj in
    let rest = if empty then [] else record o { diff_len = o.diff_len - seg } ∷ [] in
    if_cases (λ l. walk c (ops ++ l) ≡ after c o) (seg == 0) (o ∷ []) rest
      (λ e.
        let at : seg ≡ 0 = ground arith in
        walk-append c ops (o ∷ [])
        ∙ ap (λ d. walk d (o ∷ [])) (ap (λ d. walk d ops) start ∙ led ∙ ap (into c) at ∙ sym start)
        ∙ walk-one c o)
      (λ e.
        walk-append c ops rest
        ∙ ap (λ d. walk d rest) (ap (λ d. walk d ops) start ∙ led)
        ∙ tail_walk c o seg inside)

module _ (fwd : Bool) (from to : Image) (l0 l1 : ℕ → ℕ) where
  split_op-walk :
      (c : Cursors) (o : PlanOp) (tp : ℕ) (fp : ℤ)
      → walk c (split_op fwd from to l0 l1 o tp fp (op_runs fwd from to l0 l1 o tp fp)) ≡ after c o
  unfolding split_op op_runs prefix_sums
  split_op-walk c o tp fp =
      let diff : ℕ → ℕ = λ k. op_diff_byte from to (fp +ℤ pos k) (tp + k) in
      let runs = find_runs o.diff_len diff o.diff_len 0 in
      let xf = extra_proxy_bits to.bytes (tp + o.diff_len) o.extra_len l0 l1 in
      let sc0 = prefix_sums l0 l1 to.bytes diff tp runs in
      let sc = choose_runs l0 l1 fwd runs o xf (length runs + 1) sc0 in
      let picks =
        choose_runs-Picks l0 l1 fwd runs o xf (length runs + 1) sc0 (omega arith)
          (prefix_sums-Picks l0 l1 to.bytes diff tp runs) in
      split_tail-walk c o (taken (length runs) sc.ft runs 0) (
        taken-LeadsTo (length runs) sc.ft runs 0 c o.diff_len
          (find_runs-Follows o.diff_len diff o.diff_len 0 (omega arith)) picks (omega arith))

  budget-walk :
      (ops : List PlanOp) (c : Cursors) (tp : ℕ) (fp : ℤ) (left : ℕ)
      → walk c (split_nonzero_diff_runs_budget fwd from to l0 l1 ops tp fp left) ≡ walk c ops
  unfolding split_nonzero_diff_runs_budget walk
  budget-walk [] c tp fp left = refl
  budget-walk (o ∷ ops) c tp fp left =
      let runs = op_runs fwd from to l0 l1 o tp fp in
      let keeps = length runs == 0 || ltb left (transitions_of runs) in
      let left' = if keeps then left else left - transitions_of runs in
      let tp' = tp + (o.diff_len + o.extra_len) in
      let fp' = fp +ℤ pos o.diff_len +ℤ o.adj in
      let rest = split_nonzero_diff_runs_budget fwd from to l0 l1 ops tp' fp' left' in
      let split = split_op fwd from to l0 l1 o tp fp runs in
      walk-append c (if keeps then o ∷ [] else split) rest
      ∙ ap (λ d. walk d rest)
          (if_cases (λ l. walk c l ≡ after c o) keeps (o ∷ []) split (λ e. walk-one c o)
            (λ e. split_op-walk c o tp fp))
      ∙ budget-walk ops (after c o) tp' fp' left'

  -- For every plan, pair of images, direction and price tables, the operations after splitting write as
  -- many bytes as the plan's and leave the source cursor where the plan leaves it, from any
  -- cursors at which both start.
  pub split_nonzero_diff_runs-walk :
      (ops : List PlanOp) (c : Cursors)
      → walk c (split_nonzero_diff_runs fwd from to l0 l1 ops) ≡ walk c ops
  unfolding split_nonzero_diff_runs
  split_nonzero_diff_runs-walk ops c = budget-walk ops c 0 (pos 0) 33_554_432
