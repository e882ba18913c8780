-- ===== src/Plan/Finalize.antt =====
-- finalize_ops of src/enc_plan.c leaves the plan's total effect on both cursors as it is.
use ultra_patch.Base.{
  ℕ, zero, suc, ◌+◌, ◌-◌, ◌≤◌, ◌≡◌, refl, Bool, true, List, [], ◌∷◌, ltb, ◌==◌, arith, ap₂, ap, sym,
  ◌∙◌, if_cases, ◌<◌, ◌&&◌, if◌then◌else◌,
}
use ultra_patch.Base.Int.{ℤ, pos, ◌+ℤ◌, +ℤ_assoc}
use ultra_patch.Plan.{
  copy_hazard_at, finalize_ops, PlanOp, Final, push_seek, final_op_push, run_end, Split, literalize,
  split_loop, final_op, finalize_loop,
}

-- The cursors of the target and the source.
pub record Cursors : Type 0 where
  pub tp : ℕ
  pub fp : ℤ

abbrev pub after : Cursors → PlanOp → Cursors
after c o = record { tp = c.tp + (o.diff_len + o.extra_len); fp = c.fp +ℤ pos o.diff_len +ℤ o.adj }

-- Where the operations of a plan lead, in order, and of a vector with its last operation first.
unfoldable pub walk : Cursors → List PlanOp → Cursors
walk c [] = c
walk c (o ∷ ops) = walk (after c o) ops

unfoldable pub reach : Cursors → List PlanOp → Cursors
reach c [] = c
reach c (o ∷ out) = after (reach c out) o

-- The vector in the order of its index.
unfoldable pub rev_onto : List PlanOp → List PlanOp → List PlanOp
rev_onto [] ops = ops
rev_onto (o ∷ out) ops = rev_onto out (o ∷ ops)

unfoldable pub in_order : List PlanOp → List PlanOp
unfolding rev_onto
in_order out = rev_onto out []

abbrev pub reached : Final → Cursors
reached f = reach (record { tp = 0; fp = f.fp_start }) f.out

pub +ℤ_zero : (a : ℤ) → a +ℤ pos 0 ≡ a
unfolding ◌+ℤ◌
+ℤ_zero a = ground arith

abbrev pub cursors : ℕ → ℤ → Cursors
cursors t a = record { tp = t; fp = a }

-- Cursors are equal when their parts are.
pub same : {t u : ℕ} {a b : ℤ} → t ≡ u → a ≡ b → cursors t a ≡ cursors u b
same p q = ap₂ cursors p q

push_seek-reached :
    (out : List PlanOp) (s adj : ℤ)
    → reached (push_seek out s adj)
      ≡ after
          (reached (record { out = out; fp_start = s }))
          (record { diff_len = 0; extra_len = 0; adj = adj })
unfolding push_seek reach
push_seek-reached [] s adj = same (omega arith) (ap (λ a. a +ℤ adj) (sym (+ℤ_zero s)))
push_seek-reached (x ∷ out) s adj =
    let r = reach (cursors 0 s) out in
    let a = r.fp +ℤ pos x.diff_len in
    same (omega arith)
      (sym (+ℤ_assoc a x.adj adj) ∙ ap (λ b. b +ℤ adj) (sym (+ℤ_zero (a +ℤ x.adj))))

-- An operation without output seeks.
seek-reached :
    (f : Final) (d e : ℕ) (adj : ℤ)
    → d ≡ 0
    → e ≡ 0
    → reached (push_seek f.out f.fp_start adj)
      ≡ after (reached f) (record { diff_len = d; extra_len = e; adj = adj })
seek-reached f d e adj hd he =
    push_seek-reached f.out f.fp_start adj
    ∙ ap₂ (λ d e. after (reached f) (record { diff_len = d; extra_len = e; adj = adj })) (sym hd)
        (sym he)

pub final_op_push-reached :
    (f : Final) (o : PlanOp) → reached (final_op_push f o) ≡ after (reached f) o
unfolding final_op_push reach
final_op_push-reached f o =
    if_cases (λ g. reached g ≡ after (reached f) o) (o.diff_len == 0 && o.extra_len == 0)
      (push_seek f.out f.fp_start o.adj) (record f { out = o ∷ f.out })
      (λ h. seek-reached f o.diff_len o.extra_len o.adj (ground arith) (ground arith)) (λ h. refl)

pub rest_of : (a : ℤ) (x y : ℕ) → x ≤ y → a +ℤ pos x +ℤ pos (y - x) ≡ a +ℤ pos y
unfolding ◌+ℤ◌
rest_of a x y xy = ground arith

pub stretch :
    (a : ℤ) (x y z : ℕ) → x ≤ y → y ≤ z → a +ℤ pos x +ℤ pos (y - x) +ℤ pos (z - y) ≡ a +ℤ pos z
unfolding ◌+ℤ◌
stretch a x y z xy yz = ground arith

pub run_end-≥ : (hz : ℕ → Bool) (left k : ℕ) → k ≤ run_end hz left k
unfolding run_end
run_end-≥ hz zero k = omega arith
run_end-≥ hz (suc left) k =
    if_cases (λ e. k ≤ e) (hz k) (run_end hz left (k + 1)) k
      (λ h. let i = run_end-≥ hz left (k + 1) in omega arith) (λ h. omega arith)

pub run_end-≤ : (hz : ℕ → Bool) (left k : ℕ) → run_end hz left k ≤ k + left
unfolding run_end
run_end-≤ hz zero k = omega arith
run_end-≤ hz (suc left) k =
    if_cases (λ e. e ≤ k + suc left) (hz k) (run_end hz left (k + 1)) k
      (λ h. let i = run_end-≤ hz left (k + 1) in omega arith) (λ h. omega arith)

-- A run that has started has a byte.
run_end-> : (hz : ℕ → Bool) (left k : ℕ) → 0 < left → hz k ≡ true → k < run_end hz left k
unfolding run_end
run_end-> hz zero k some_left h = omega arith
run_end-> hz (suc left) k some_left h =
    if_cases (λ e. k < e) (hz k) (run_end hz left (k + 1)) k
      (λ e. let i = run_end-≥ hz left (k + 1) in omega arith) (λ e. ground arith)

-- The loop has pushed the bytes before `seg`, both in the target and in the source.
pub record Pushed (c : Cursors) (dl : ℕ) (s : Split) : Type 0 where
  pub target : (reached s.final).tp ≡ c.tp + s.seg
  pub source : (reached s.final).fp ≡ c.fp +ℤ pos s.seg
  pub order : s.seg ≤ s.k
  pub inside : s.k ≤ dl

pub literalize-Pushed :
    (c : Cursors) (dl : ℕ) (s : Split) (e : ℕ)
    → s.k ≤ e
    → e ≤ dl
    → Pushed c dl s
    → Pushed c dl (literalize s e)
literalize-Pushed c dl s e le inside h =
    let o = h.order in
    let t0 = h.target in
    let piece : PlanOp = record {
      diff_len = s.k - s.seg;
      extra_len = e - s.k;
      adj = pos (e - s.k);
    } in
    let p = final_op_push-reached s.final piece in
    let t = ap (λ c. c.tp) p in
    let goal : (reached (final_op_push s.final piece)).tp ≡ c.tp + e = omega arith in
    record {
      target = goal;
      source =
          ap (λ c. c.fp) p
          ∙ ap (λ a. a +ℤ pos (s.k - s.seg) +ℤ pos (e - s.k)) h.source
          ∙ stretch c.fp s.seg s.k e o le;
      order = omega arith;
      inside = inside;
    }

split_loop-Pushed :
    (fuel : ℕ) (hz : ℕ → Bool) (c : Cursors) (dl : ℕ) (s : Split)
    → Pushed c dl s
    → Pushed c dl (split_loop fuel hz dl s)
unfolding split_loop
split_loop-Pushed zero hz c dl s h = h
split_loop-Pushed (suc fuel) hz c dl s h =
    let e = run_end hz (dl - s.k) s.k in
    let next = if hz s.k then literalize s e else record s { k = s.k + 1 } in
    if_cases (Pushed c dl) (ltb s.k dl) (split_loop fuel hz dl next) s
      (λ lt. split_loop-Pushed fuel hz c dl next (
        if_cases (Pushed c dl) (hz s.k) (literalize s e) (record s { k = s.k + 1 })
          (λ y.
            let i = run_end-≤ hz (dl - s.k) s.k in
            literalize-Pushed c dl s e (run_end-≥ hz (dl - s.k) s.k) (ground arith) h)
          (λ n.
            let o = h.order in
            record {
              target = h.target;
              source = h.source;
              order = omega arith;
              inside = ground arith;
            })))
      (λ ge. h)

pub final_op-reached :
    (hz : ℕ → Bool) (o : PlanOp) (f : Final) → reached (final_op hz o f) ≡ after (reached f) o
unfolding final_op
final_op-reached hz o f =
    let s0 : Split = record { final = f; seg = 0; k = 0 } in
    let s = split_loop o.diff_len hz o.diff_len s0 in
    let h = split_loop-Pushed o.diff_len hz (reached f) o.diff_len s0 (record {
      target = omega arith;
      source = sym (+ℤ_zero (reached f).fp);
      order = omega arith;
      inside = omega arith;
    }) in
    let t = h.target in
    let r = h.order in
    let i = h.inside in
    final_op_push-reached s.final (record o { diff_len = o.diff_len - s.seg })
    ∙ same (omega arith) (
        ap (λ a. a +ℤ pos (o.diff_len - s.seg) +ℤ o.adj) h.source
        ∙ ap (λ a. a +ℤ o.adj) (rest_of (reached f).fp s.seg o.diff_len (omega arith)))

-- From inside a copy of `dl` bytes, with fuel for the bytes still to come, the splitting loop ends at
-- the end of the copy, whichever bytes are in hazard.
pub split_loop-ends :
    (fuel : ℕ) (hz : ℕ → Bool) (dl : ℕ) (s : Split)
    → s.k ≤ dl
    → dl ≤ fuel + s.k
    → (split_loop fuel hz dl s).k ≡ dl
unfolding split_loop
split_loop-ends zero hz dl s h enough = omega arith
split_loop-ends (suc fuel) hz dl s h enough =
    let e = run_end hz (dl - s.k) s.k in
    let next = if hz s.k then literalize s e else record s { k = s.k + 1 } in
    if_cases (λ r. r.k ≡ dl) (ltb s.k dl) (split_loop fuel hz dl next) s
      (λ lt.
        if_cases (λ n. (split_loop fuel hz dl n).k ≡ dl) (hz s.k) (literalize s e)
          (record s { k = s.k + 1 })
          (λ y.
            let i = run_end-≤ hz (dl - s.k) s.k in
            let more : s.k < e = run_end-> hz (dl - s.k) s.k (ground arith) y in
            split_loop-ends fuel hz dl (literalize s e) (ground arith) (omega arith))
          (λ n. split_loop-ends fuel hz dl (record s { k = s.k + 1 }) (ground arith) (omega arith)))
      (λ ge. ground arith)

pub finalize_loop-walk :
    (fwd : Bool) (from_size to_size : ℕ) (ops : List PlanOp) (tp0 : ℕ) (fp0 : ℤ) (f : Final)
    → reached (finalize_loop fwd from_size to_size ops tp0 fp0 f) ≡ walk (reached f) ops
unfolding finalize_loop walk
finalize_loop-walk fwd from_size to_size [] tp0 fp0 f = refl
finalize_loop-walk fwd from_size to_size (o ∷ ops) tp0 fp0 f =
    let hz = copy_hazard_at fwd from_size to_size fp0 tp0 in
    finalize_loop-walk fwd from_size to_size ops (tp0 + (o.diff_len + o.extra_len))
      (fp0 +ℤ pos o.diff_len +ℤ o.adj) (final_op hz o f)
    ∙ ap (λ c. walk c ops) (final_op-reached hz o f)

pub walk-rev_onto :
    (c : Cursors) (out ops : List PlanOp) → walk c (rev_onto out ops) ≡ walk (reach c out) ops
unfolding rev_onto reach walk
walk-rev_onto c [] ops = refl
walk-rev_onto c (o ∷ out) ops = walk-rev_onto c out (o ∷ ops)

-- Finalisation keeps the effect of a plan: from the start that it returns, the finished operations
-- write as many bytes as the plan's and leave the source cursor where the plan leaves it. This holds
-- for every plan, direction and pair of sizes.
pub finalize_ops-walk :
    (fwd : Bool) (from_size to_size : ℕ) (ops : List PlanOp)
    → (let r = finalize_ops fwd from_size to_size ops in
        walk (cursors 0 r.fp_start) (in_order r.out))
      ≡ walk (cursors 0 (pos 0)) ops
unfolding finalize_ops reach walk in_order
finalize_ops-walk fwd from_size to_size ops =
    let r = finalize_ops fwd from_size to_size ops in
    walk-rev_onto (cursors 0 r.fp_start) r.out []
    ∙ finalize_loop-walk fwd from_size to_size ops 0 (pos 0) (record { out = []; fp_start = pos 0 })
