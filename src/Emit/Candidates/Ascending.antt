-- ===== src/Emit/Candidates/Ascending.antt =====
-- The boundaries that smap_build_full of src/enc_field.c delivers ascend, as the lookup of
-- src/rc_models.h needs them.
use ultra_patch.Base.{
  ℕ, zero, suc, ◌-◌, ◌≤◌, ◌<◌, ◌≡◌, refl, Bool, List, [], ◌∷◌, ◌==◌, arith, if_cases, length,
  get_or,
}
use ultra_patch.Base.Int.{ℤ, pos, ◌≤ℤ◌}
use ultra_patch.Field.ShiftMap.{Ascends}
use ultra_patch.Plan.{PlanOp}
use ultra_patch.Emit.Candidates.{
  FieldInj, SegCand, SegRank, cmp_seg, Entry, dedupe, smap_build_full,
}

-- What qsort documents of its result: each element is in order with the next by cmp_seg.
abbrev pub IsSorted : List SegCand → Type 0
IsSorted [] = Unit
IsSorted (x ∷ []) = Unit
IsSorted (x ∷ y ∷ xs) = (cmp_seg x y ≤ℤ pos 0) × IsSorted (y ∷ xs)

cmp_seg-le : (x y : SegCand) → cmp_seg x y ≤ℤ pos 0 → x.b ≤ y.b
unfolding cmp_seg
cmp_seg-le x y h = ground arith

abbrev Descends : List Entry → Type 0
Descends [] = Unit
Descends (e ∷ []) = Unit
Descends (e ∷ f ∷ out) = (f.b < e.b) × Descends (f ∷ out)

-- The last entry is at or below the next candidate.
abbrev Meets : List Entry → List SegCand → Type 0
Meets [] cs = Unit
Meets (e ∷ out) [] = Unit
Meets (e ∷ out) (c ∷ cs) = e.b ≤ c.b

IsSorted-tail : (c : SegCand) (cs : List SegCand) → IsSorted (c ∷ cs) → IsSorted cs
IsSorted-tail c [] h = tt
IsSorted-tail c (d ∷ cs) h = h.1

Meets-next :
    (e : Entry) (out : List Entry) (c : SegCand) (cs : List SegCand)
    → e.b ≡ c.b
    → IsSorted (c ∷ cs)
    → Meets (e ∷ out) cs
Meets-next e out c [] same h = tt
Meets-next e out c (d ∷ cs) same h = let le = cmp_seg-le c d h.0 in omega arith

-- A later value at the same boundary.
revalued :
    (e : Entry) (out : List Entry) (v : ℤ)
    → Descends (e ∷ out)
    → Descends (record e { v = v } ∷ out)
revalued e [] v h = tt
revalued e (f ∷ out) v h = h

dedupe-Descends :
    (out : List Entry) (cs : List SegCand)
    → Descends out
    → Meets out cs
    → IsSorted cs
    → Descends (dedupe out cs)
unfolding dedupe
dedupe-Descends out [] d m h = d
dedupe-Descends [] (c ∷ cs) d m h =
    let n : Entry = record { b = c.b; v = c.v } in
    dedupe-Descends (n ∷ []) cs tt (Meets-next n [] c cs refl h) (IsSorted-tail c cs h)
dedupe-Descends (e ∷ out) (c ∷ cs) d m h =
    let n : Entry = record { b = c.b; v = c.v } in
    let merged : Entry = record e { v = c.v } in
    if_cases (λ (o : List Entry). Descends (dedupe o cs)) (e.b == c.b) (merged ∷ out) (n ∷ e ∷ out)
      (λ same.
        dedupe-Descends (merged ∷ out) cs (revalued e out c.v d)
          (Meets-next merged out c cs (ground arith) h) (IsSorted-tail c cs h))
      (λ other.
        dedupe-Descends (n ∷ e ∷ out) cs (ground arith, d) (Meets-next n (e ∷ out) c cs refl h)
          (IsSorted-tail c cs h))

-- The entry at place `i` of a map whose last entry is first.
abbrev entry_zero : Entry
entry_zero = record { b = 0; v = pos 0 }

abbrev pub entry_at : List Entry → ℕ → Entry
entry_at m i = get_or m (length m - 1 - i) entry_zero

Descends-below :
    (e : Entry) (out : List Entry) (q : ℕ)
    → Descends (e ∷ out)
    → q < length out
    → (get_or out q entry_zero).b < e.b
Descends-below e [] q d h = absurd (omega arith)
Descends-below e (f ∷ out) zero d h = d.0
Descends-below e (f ∷ out) (suc q) d h =
    let i = Descends-below f out q d.1 (omega arith) in let a = d.0 in omega arith

Descends-get :
    (m : List Entry) (p q : ℕ)
    → Descends m
    → p < q
    → q < length m
    → (get_or m q entry_zero).b < (get_or m p entry_zero).b
Descends-get [] p q d lt h = absurd (omega arith)
Descends-get (e ∷ out) p zero d lt h = absurd (omega arith)
Descends-get (e ∷ out) zero (suc q) d lt h = Descends-below e out q d (omega arith)
Descends-get (e ∷ []) (suc p) (suc q) d lt h = absurd (omega arith)
Descends-get (e ∷ f ∷ out) (suc p) (suc q) d lt h =
    Descends-get (f ∷ out) p q d.1 (omega arith) (omega arith)

-- For every plan, field list and direction, when the sort of the candidates returns lists in order, the
-- boundaries of the full map ascend strictly, as the binary search in the map requires.
pub smap_build_full-Ascends :
    (sort_seg : List SegCand → List SegCand) (sort_rank : List SegRank → List SegRank)
    → ((xs : List SegCand) → IsSorted (sort_seg xs))
    → (ops : List PlanOp) (fp_start : ℤ) (from_size to_size : ℕ) (inj : List FieldInj) (fwd : Bool)
    → let m = smap_build_full sort_seg sort_rank ops fp_start from_size to_size inj fwd in
      Ascends (λ i. (entry_at m i).b) (length m)
unfolding smap_build_full
smap_build_full-Ascends sort_seg sort_rank sorts ops fp_start from_size to_size inj fwd i j lt h =
    let m = smap_build_full sort_seg sort_rank ops fp_start from_size to_size inj fwd in
    Descends-get m (length m - 1 - j) (length m - 1 - i) (dedupe-Descends [] _ tt tt (sorts _))
      (omega arith) (omega arith)
