-- ===== src/Plan/Hazard.antt =====
-- No copy that finalize_ops of src/enc_plan.c leaves reads a byte in hazard.
pub mod Reads
use ultra_patch.Base.{
  ℕ, zero, suc, ◌+◌, ◌-◌, ◌≤◌, ◌<◌, ◌≡◌, refl, Bool, false, ◌&&◌, List, [], ◌∷◌, ltb, ◌==◌, arith,
  ap, ap₂, sym, subst, ◌∙◌, if_cases, if◌then◌else◌, Bool-cases, inl, inr,
}
use ultra_patch.Base.Int.{ℤ, pos, ◌+ℤ◌}
use ultra_patch.Plan.{
  PlanOp, Final, hazard_of, copy_hazard_at, push_seek, final_op_push, run_end, Split, literalize,
  split_loop, final_op, finalize_loop, finalize_ops,
}
use ultra_patch.Plan.Finalize.{
  Cursors, cursors, after, reach, reached, rev_onto, in_order, final_op-reached, Pushed,
  literalize-Pushed, split_loop-ends, +ℤ_zero, run_end-≥, run_end-≤,
}

further : (a : ℤ) (m n : ℕ) → a +ℤ pos m +ℤ pos n ≡ a +ℤ pos (m + n)
unfolding ◌+ℤ◌
further a m n = ground arith

module _ (fwd : Bool) (from_size to_size : ℕ) where
  -- A copy of `n` bytes from the cursors on without a byte in hazard.
  abbrev pub IsSafe : Cursors → ℕ → Type 0
  IsSafe c n = (x : ℕ) → x < n → hazard_of fwd from_size to_size (c.fp +ℤ pos x) (c.tp + x) ≡ false

  -- Every copy of a plan is safe, in order, and of a vector with its last operation first.
  abbrev pub AreSafe : Cursors → List PlanOp → Type 0
  AreSafe c [] = Unit
  AreSafe c (o ∷ ops) = IsSafe c o.diff_len × AreSafe (after c o) ops

  abbrev OutSafe : Cursors → List PlanOp → Type 0
  OutSafe c [] = Unit
  OutSafe c (o ∷ out) = OutSafe c out × IsSafe (reach c out) o.diff_len

  abbrev FinalSafe : Final → Type 0
  FinalSafe f = OutSafe (cursors 0 f.fp_start) f.out

  push_seek-Safe :
      (out : List PlanOp) (s adj : ℤ) → OutSafe (cursors 0 s) out → FinalSafe (push_seek out s adj)
  unfolding push_seek
  push_seek-Safe [] s adj h = tt
  push_seek-Safe (x ∷ out) s adj h = h

  final_op_push-Safe :
      (f : Final) (o : PlanOp)
      → FinalSafe f
      → IsSafe (reached f) o.diff_len
      → FinalSafe (final_op_push f o)
  unfolding final_op_push
  final_op_push-Safe f o h k =
      if_cases FinalSafe (o.diff_len == 0 && o.extra_len == 0) (push_seek f.out f.fp_start o.adj)
        (record f { out = o ∷ f.out }) (λ e. push_seek-Safe f.out f.fp_start o.adj h) (λ e. (h, k))

  -- At the head of the splitting loop the bytes of the open segment are safe.
  record Open (c : Cursors) (dl : ℕ) (s : Split) : Type 0 where
    pushed : Pushed c dl s
    safe : FinalSafe s.final
    clear :
        (k : ℕ)
        → s.seg ≤ k
        → k < s.k
        → hazard_of fwd from_size to_size (c.fp +ℤ pos k) (c.tp + k) ≡ false

  -- The open segment as a copy of its own, up to `n`.
  segment-IsSafe :
      (c : Cursors) (dl : ℕ) (s : Split) → Open c dl s → IsSafe (reached s.final) (s.k - s.seg)
  segment-IsSafe c dl s h x lt =
      let p = h.pushed in
      ap₂ (hazard_of fwd from_size to_size) (ap (λ a. a +ℤ pos x) p.source ∙ further c.fp s.seg x)
        (ap (λ t. t + x) p.target ∙ omega arith)
      ∙ h.clear (s.seg + x) (omega arith) (omega arith)

  step_clear :
      (c : Cursors) (dl : ℕ) (s : Split)
      → Open c dl s
      → s.k < dl
      → hazard_of fwd from_size to_size (c.fp +ℤ pos s.k) (c.tp + s.k) ≡ false
      → Open c dl (record s { k = s.k + 1 })
  step_clear c dl s h lt here =
      let p = h.pushed in
      let o = p.order in
      record {
        pushed = record {
          target = p.target;
          source = p.source;
          order = omega arith;
          inside = omega arith;
        };
        safe = h.safe;
        clear = λ k lo hi. elim (Bool-cases (k == s.k)) [
          | inl same ↦
              let at : k ≡ s.k = ground arith in
              subst (λ n. hazard_of fwd from_size to_size (c.fp +ℤ pos n) (c.tp + n) ≡ false)
                (sym at) here
          | inr other ↦ h.clear k lo (ground arith)
        ];
      }

  literalize-Open :
      (c : Cursors) (dl : ℕ) (s : Split) (e : ℕ)
      → s.k ≤ e
      → e ≤ dl
      → Open c dl s
      → Open c dl (literalize s e)
  literalize-Open c dl s e le inside h = record {
    pushed = literalize-Pushed c dl s e le inside h.pushed;
    safe =
        final_op_push-Safe s.final
          (record { diff_len = s.k - s.seg; extra_len = e - s.k; adj = pos (e - s.k) }) h.safe
          (segment-IsSafe c dl s h);
    clear = λ k lo hi. absurd (omega arith);
  }

  split_loop-Open :
      (fuel : ℕ) (c : Cursors) (dl : ℕ) (s : Split)
      → Open c dl s
      → Open c dl (split_loop fuel (copy_hazard_at fwd from_size to_size c.fp c.tp) dl s)
  unfolding split_loop copy_hazard_at
  split_loop-Open zero c dl s h = h
  split_loop-Open (suc fuel) c dl s h =
      let hz = copy_hazard_at fwd from_size to_size c.fp c.tp in
      let e = run_end hz (dl - s.k) s.k in
      let stepped : Split = record s { k = s.k + 1 } in
      let next = if hz s.k then literalize s e else stepped in
      if_cases (Open c dl) (ltb s.k dl) (split_loop fuel hz dl next) s
        (λ lt. split_loop-Open fuel c dl next (
          if_cases (Open c dl) (hz s.k) (literalize s e) stepped
            (λ y.
              let i = run_end-≤ hz (dl - s.k) s.k in
              literalize-Open c dl s e (run_end-≥ hz (dl - s.k) s.k) (ground arith) h)
            (λ n. step_clear c dl s h (ground arith) n)))
        (λ ge. h)

  final_op-Safe :
      (c : Cursors) (o : PlanOp) (f : Final)
      → FinalSafe f
      → reached f ≡ c
      → FinalSafe (final_op (copy_hazard_at fwd from_size to_size c.fp c.tp) o f)
  unfolding final_op
  final_op-Safe c o f h e =
      let hz = copy_hazard_at fwd from_size to_size c.fp c.tp in
      let start : Split = record { final = f; seg = 0; k = 0 } in
      let s = split_loop o.diff_len hz o.diff_len start in
      let opened = split_loop-Open o.diff_len c o.diff_len start (record {
        pushed = record {
          target = ap (λ d. d.tp) e ∙ omega arith;
          source = ap (λ d. d.fp) e ∙ sym (+ℤ_zero c.fp);
          order = omega arith;
          inside = omega arith;
        };
        safe = h;
        clear = λ k lo hi. absurd (omega arith);
      }) in
      let ends = split_loop-ends o.diff_len hz o.diff_len start (omega arith) (omega arith) in
      final_op_push-Safe s.final (record o { diff_len = o.diff_len - s.seg }) opened.safe
        (subst (λ n. IsSafe (reached s.final) (n - s.seg)) ends
          (segment-IsSafe c o.diff_len s opened))

  finalize_loop-Safe :
      (ops : List PlanOp) (tp0 : ℕ) (fp0 : ℤ) (f : Final)
      → FinalSafe f
      → reached f ≡ cursors tp0 fp0
      → FinalSafe (finalize_loop fwd from_size to_size ops tp0 fp0 f)
  unfolding finalize_loop
  finalize_loop-Safe [] tp0 fp0 f h e = h
  finalize_loop-Safe (o ∷ ops) tp0 fp0 f h e =
      let hz = copy_hazard_at fwd from_size to_size fp0 tp0 in
      finalize_loop-Safe ops (tp0 + (o.diff_len + o.extra_len)) (fp0 +ℤ pos o.diff_len +ℤ o.adj)
        (final_op hz o f) (final_op-Safe (cursors tp0 fp0) o f h e)
        (final_op-reached hz o f ∙ ap (λ c. after c o) e)

  rev_onto-AreSafe :
      (c : Cursors) (out ops : List PlanOp)
      → OutSafe c out
      → AreSafe (reach c out) ops
      → AreSafe c (rev_onto out ops)
  unfolding rev_onto reach
  rev_onto-AreSafe c [] ops h k = k
  rev_onto-AreSafe c (o ∷ out) ops h k = rev_onto-AreSafe c out (o ∷ ops) h.0 (h.1, k)

  -- For every plan, after finalisation no byte of a copy is in hazard: at the cursors that the finished
  -- operations reach from the returned start, none reads a byte of both images that lies behind the
  -- target's and whose row the window of uncommitted pages does not cover.
  pub finalize_ops-AreSafe :
      (ops : List PlanOp)
      → let r = finalize_ops fwd from_size to_size ops in
        AreSafe (cursors 0 r.fp_start) (in_order r.out)
  unfolding finalize_ops in_order reach
  finalize_ops-AreSafe ops =
      let r = finalize_ops fwd from_size to_size ops in
      rev_onto-AreSafe (cursors 0 r.fp_start) r.out []
        (finalize_loop-Safe ops 0 (pos 0) (record { out = []; fp_start = pos 0 }) tt refl) tt
