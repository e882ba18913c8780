-- ===== src/Field/ShiftMap.antt =====
-- The piecewise shift map: rc_smap_at and the two predictions of src/rc_models.h. Boundaries and values
-- are functions from their index, `n` of them in use.
use native.Mathlib.Numerals.{add-one}
use ultra_patch.Base.{
  ℕ, zero, suc, ◌+◌, ◌-◌, ◌/◌, ◌≤◌, ◌<◌, ◌≡◌, refl, Option, none, some, ltb, leb, if◌then◌else◌,
  arith, Bool-cases, inl, inr, ap, sym, ◌∙◌,
}
use ultra_patch.Base.Int.{ℤ, pos, negsuc}
use ultra_patch.Base.Word.{sub32, to_u32}
use ultra_patch.Wire.Zigzag.{i32_from_u32}

-- `r` is none for -1 and `top` is hi + 1, since both can be -1 in the source.
unfoldable pub smap_search : ℕ → (ℕ → ℕ) → ℕ → ℕ → ℕ → Option ℕ → Option ℕ
smap_search zero b x lo top r = r
smap_search (suc fuel) b x lo top r =
    let mid = (lo + (top - 1)) / 2 in
    let right = smap_search fuel b x (mid + 1) top (some mid) in
    let left = smap_search fuel b x lo mid r in
    if ltb lo top then (if leb (b mid) x then right else left) else r

abbrev pub value_at : (ℕ → ℤ) → Option ℕ → ℤ
value_at v none = pos 0
value_at v (some r) = v r

-- Each round at least halves the distance, so `n` rounds and one for the last test are enough.
unfoldable pub smap_at : (ℕ → ℕ) → (ℕ → ℤ) → ℕ → ℕ → ℤ
smap_at b v n x = value_at v (smap_search (suc n) b x 0 n none)

-- C divides towards 0.
abbrev pub half : ℤ → ℤ
half (pos n) = pos (n / 2)
half (negsuc n) = if ltb n 1 then pos 0 else negsuc ((n + 1) / 2 - 1)

unfoldable pub smap_pred_bl : (ℕ → ℕ) → (ℕ → ℤ) → ℕ → ℕ → ℕ → ℤ
smap_pred_bl b v n pc target =
    half (i32_from_u32 (sub32 (to_u32 (smap_at b v n pc)) (to_u32 (smap_at b v n target))))

unfoldable pub smap_pred_ex : (ℕ → ℕ) → (ℕ → ℤ) → ℕ → ℕ → ℤ
smap_pred_ex b v n word = i32_from_u32 (sub32 0 (to_u32 (smap_at b v n word)))

-- The boundaries ascend.
abbrev pub Ascends : (ℕ → ℕ) → ℕ → Type 0
Ascends b n = (i j : ℕ) → i < j → j < n → b i < b j

-- The linear specification: the value of the last boundary at or below the key, else 0.
unfoldable pub last_value : (ℕ → ℕ) → (ℕ → ℤ) → ℕ → ℕ → ℤ
last_value b v zero x = pos 0
last_value b v (suc n) x = let before = last_value b v n x in if leb (b n) x then v n else before

index_before : ℕ → Option ℕ
index_before zero = none
index_before (suc k) = some k

-- The search ends between the boundaries at or below the key and those above it.
record Between (b : ℕ → ℕ) (n x e : ℕ) : Type 0 where
  inside : e ≤ n
  below : (i : ℕ) → i < e → b i ≤ x
  above : (i : ℕ) → e ≤ i → i < n → x < b i

index_before-add : (m : ℕ) → index_before (m + 1) ≡ some m
unfolding index_before
index_before-add m = rw (add-one m) refl

monotone : (b : ℕ → ℕ) (n i j : ℕ) → Ascends b n → i ≤ j → j < n → b i ≤ b j
monotone b n i j asc h k = elim (Bool-cases (ltb i j)) [
  | inl less ↦ let l = asc i j (ground arith) k in omega arith
  | inr same ↦ let e : i ≡ j = ground arith in rw e (omega arith)
]

smap_search_lem :
    (fuel : ℕ) (b : ℕ → ℕ) (n x lo top : ℕ)
    → Ascends b n
    → lo ≤ top
    → top ≤ n
    → top < lo + fuel
    → ((i : ℕ) → i < lo → b i ≤ x)
    → ((i : ℕ) → top ≤ i → i < n → x < b i)
    → (e : ℕ) × (smap_search fuel b x lo top (index_before lo) ≡ index_before e) × Between b n x e
unfolding smap_search
smap_search_lem zero b n x lo top asc h k f below above = absurd (omega arith)
smap_search_lem (suc fuel) b n x lo top asc h k f below above = elim (Bool-cases (ltb lo top)) [
  | inr done ↦ rw done (
    lo,
    refl,
    record { inside = omega arith; below = below; above = λ i p q. above i (ground arith) q },
  )
  | inl apart ↦
      let mid = (lo + (top - 1)) / 2 in
      let less : lo < top = ground arith in
      elim (Bool-cases (leb (b mid) x)) [
        | inl low ↦
            let fits : b mid ≤ x = ground arith in
            let (e, found, ends) =
              smap_search_lem fuel b n x (mid + 1) top asc (omega arith) k (omega arith)
                (λ i p. let w = monotone b n i mid asc (omega arith) (omega arith) in omega arith)
                above in
            rw (apart, low)
              (
                e,
                ap (λ r. smap_search fuel b x (mid + 1) top r) (sym (index_before-add mid)) ∙ found,
                ends,
              )
        | inr high ↦
            let beyond : x < b mid = ground arith in
            let (e, found, ends) =
              smap_search_lem fuel b n x lo mid asc (omega arith) (omega arith) (omega arith) below
                (λ i p q. let w = monotone b n mid i asc p q in omega arith) in
            rw (apart, high) (e, found, ends)
      ]
]

-- The linear scan finds the same boundary.
last_value_lem :
    (b : ℕ → ℕ) (v : ℕ → ℤ) (n x e : ℕ)
    → Between b n x e
    → last_value b v n x ≡ value_at v (index_before e)
unfolding last_value index_before
last_value_lem b v zero x zero g = refl
last_value_lem b v zero x (suc e) g = let i = g.inside in absurd (omega arith)
last_value_lem b v (suc n) x e g = elim (Bool-cases (leb (b n) x)) [
  | inl low ↦
      let fits : b n ≤ x = ground arith in
      elim (Bool-cases (ltb n e)) [
        | inl last ↦ let top : e ≡ suc n = (let i = g.inside in ground arith) in rw (low, top) refl
        | inr out ↦ let a = g.above n (ground arith) (omega arith) in absurd (omega arith)
      ]
  | inr high ↦
      let beyond : x < b n = ground arith in
      elim (Bool-cases (ltb n e)) [
        | inl last ↦ let a = g.below n (ground arith) in absurd (omega arith)
        | inr out ↦ rw high (
            last_value_lem b v n x e (record {
              inside = ground arith;
              below = g.below;
              above = λ i p q. g.above i p (omega arith);
            }))
      ]
]

-- On ascending boundaries the binary search of rc_smap_at, for every number of entries and every key,
-- returns the value of the last boundary at or below the key, and 0 when there is none.
pub smap_at_lem :
    (b : ℕ → ℕ) (v : ℕ → ℤ) (n x : ℕ) → Ascends b n → smap_at b v n x ≡ last_value b v n x
unfolding smap_at index_before
smap_at_lem b v n x asc =
    let (e, found, ends) =
      smap_search_lem (suc n) b n x 0 n asc (omega arith) (omega arith) (omega arith)
        (λ i p. absurd (omega arith)) (λ i p q. absurd (omega arith)) in
    ap (value_at v) found ∙ sym (last_value_lem b v n x e ends)
