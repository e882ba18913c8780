-- ===== src/Delta/Cache/Transition.antt =====
-- The three ways in which a delta meets the cache, and what they keep of it.
use ultra_patch.Base.{
  ℕ, zero, suc, ◌-◌, ◌≤◌, ◌<◌, ◌≡◌, ◌≢◌, ◌⊎◌, inl, inr, refl, sym, ap, ◌∙◌, false, Option, none,
  some, leb, ◌==◌, if◌then◌else◌, arith, Bool-cases,
}
use ultra_patch.Base.Int.{ℤ}
use ultra_patch.Delta.Cache.{
  eq_ℤ, eq_ℤ-eq, eq_ℤ-refl, DrStream, rep_tr, hit_tr, esc_tr, found_transition, dr_transition,
  dr_rep_ctx, mtf_promote_i32, mtf_insert_i32, find_from, find_from-some, find_from-none,
}

-- The delta is the last one, at the front.
pub record Repeats (cap : ℕ) (s : DrStream) (delta : ℤ) : Type 0 where
  pub front : delta ≡ s.dic 0
  pub is : dr_transition cap s delta ≡ (dr_rep_ctx s.rh (s.dic 0), rep_tr, record s { rh = 1 })

-- It is entry j + 1, which moves to the front.
pub record Hits (cap : ℕ) (s : DrStream) (delta : ℤ) : Type 0 where
  pub j : ℕ
  pub inside : suc j < s.k
  pub entry : s.dic (suc j) ≡ delta
  pub is : dr_transition cap s delta ≡ (
    dr_rep_ctx s.rh (s.dic 0),
    hit_tr j,
    record s { rh = 0; dic = mtf_promote_i32 s.dic (suc j) },
  )

-- It is no entry in use, and goes in at the front.
pub record Misses (cap : ℕ) (s : DrStream) (delta : ℤ) : Type 0 where
  pub absent : (x : ℕ) → x < s.k → s.dic x ≢ delta
  pub is : dr_transition cap s delta ≡ (
    dr_rep_ctx s.rh (s.dic 0),
    esc_tr,
    record s {
      rh = 0;
      k = (mtf_insert_i32 s.dic s.k cap delta).0;
      dic = (mtf_insert_i32 s.dic s.k cap delta).1;
    },
  )

not_eq_ℤ : (a b : ℤ) → eq_ℤ a b ≡ false → a ≢ b
not_eq_ℤ a b h e = ground (arith, ap (λ (x : ℤ). eq_ℤ a x) e, eq_ℤ-refl a)

search_cases :
    (n : ℕ) (dic : ℕ → ℤ) (delta : ℤ)
    → (find_from n 0 dic delta ≡ none) ⊎ ((j : ℕ) × (find_from n 0 dic delta ≡ some j))
search_cases n dic delta = of_option (find_from n 0 dic delta)
  where
    of_option : (o : Option ℕ) → (o ≡ none) ⊎ ((j : ℕ) × (o ≡ some j))
    of_option none = inl refl
    of_option (some j) = inr (j, refl)

found_entry :
    (cap j : ℕ) (s : DrStream) (delta : ℤ)
    → find_from s.k 0 s.dic delta ≡ some j
    → eq_ℤ delta (s.dic 0) ≡ false
    → Hits cap s delta
unfolding dr_transition found_transition
found_entry cap zero s delta e new =
    let same = (find_from-some s.k 0 s.dic delta 0 e).2 in
    absurd (ground (arith, ap (λ (x : ℤ). eq_ℤ delta x) same, eq_ℤ-refl delta))
found_entry cap (suc j) s delta e new =
    let (lo, hi, same) = find_from-some s.k 0 s.dic delta (suc j) e in
    record { j = j; inside = omega arith; entry = same; is = rw (new, e) }

-- For every stream and delta: the delta stands at the front and dr_transition reports a repeat; or it
-- is a later entry in use, which is reported as a hit and moves to the front; or it is no entry in
-- use, which is reported as an escape and inserts it at the front. It is never the call of die.
pub dr_transition-cases :
    (cap : ℕ) (s : DrStream) (delta : ℤ)
    → Repeats cap s delta ⊎ (Hits cap s delta ⊎ Misses cap s delta)
unfolding dr_transition found_transition
dr_transition-cases cap s delta = elim (Bool-cases (eq_ℤ delta (s.dic 0))) [
  | inl same ↦ inl (record { front = eq_ℤ-eq delta (s.dic 0) same; is = rw same })
  | inr new ↦ elim (search_cases s.k s.dic delta) [
    | inl e ↦ inr (
        inr (record {
          absent = λ x h.
              not_eq_ℤ (s.dic x) delta
                (find_from-none s.k 0 s.dic delta e x (omega arith) (omega arith));
          is = rw (new, e);
        }))
    | inr (j, e) ↦ inr (inl (found_entry cap j s delta e new))
  ]
]

insert-used :
    (dic : ℕ → ℤ) (k cap : ℕ) (v : ℤ)
    → 0 < k
    → k ≤ cap
    → (0 < (mtf_insert_i32 dic k cap v).0) × ((mtf_insert_i32 dic k cap v).0 ≤ cap)
unfolding mtf_insert_i32
insert-used dic k cap v lo hi = ground arith

-- The entries in use stay within the capacity.
pub dr_transition-used :
    (cap : ℕ) (s : DrStream) (delta : ℤ)
    → 0 < s.k
    → s.k ≤ cap
    → (0 < (dr_transition cap s delta).2.k) × ((dr_transition cap s delta).2.k ≤ cap)
dr_transition-used cap s delta lo hi = elim (dr_transition-cases cap s delta) [
  | inl c ↦ rw c.is (lo, hi)
  | inr (inl c) ↦ rw c.is (lo, hi)
  | inr (inr c) ↦ rw c.is (insert-used s.dic s.k cap delta lo hi)
]

-- No two entries in use hold the same delta.
unfoldable pub Distinct : (ℕ → ℤ) → ℕ → Type 0
Distinct dic k = (i j : ℕ) → i < k → j < k → dic i ≡ dic j → i ≡ j

promoted_from : ℕ → ℕ → ℕ
promoted_from p i = if i == 0 then p else if leb i p then i - 1 else i

mtf_promote_i32-entry : (dic : ℕ → ℤ) (p i : ℕ) → mtf_promote_i32 dic p i ≡ dic (promoted_from p i)
unfolding mtf_promote_i32 promoted_from
mtf_promote_i32-entry dic p i = ground arith

promoted_from-inj : (p i j : ℕ) → promoted_from p i ≡ promoted_from p j → i ≡ j
unfolding promoted_from
promoted_from-inj p i j h = ground arith

promoted_from-lt : (p i k : ℕ) → p < k → i < k → promoted_from p i < k
unfolding promoted_from
promoted_from-lt p i k hp h = ground arith

pub mtf_promote_i32-Distinct :
    (dic : ℕ → ℤ) (p k : ℕ) → p < k → Distinct dic k → Distinct (mtf_promote_i32 dic p) k
unfolding Distinct
mtf_promote_i32-Distinct dic p k hp ds i j hi hj e =
    let same = sym (mtf_promote_i32-entry dic p i) ∙ e ∙ mtf_promote_i32-entry dic p j in
    promoted_from-inj p i j
      (ds _ _ (promoted_from-lt p i k hp hi) (promoted_from-lt p j k hp hj) same)

-- Behind the new front each entry is the one that stood before it.
mtf_insert_i32-entry :
    (dic : ℕ → ℤ) (k cap : ℕ) (v : ℤ) (i : ℕ)
    → k ≤ cap
    → suc i < (mtf_insert_i32 dic k cap v).0
    → ((mtf_insert_i32 dic k cap v).1 (suc i) ≡ dic i) × (i < k)
unfolding mtf_insert_i32
mtf_insert_i32-entry dic k cap v i hc hi = (ground arith, ground arith)

mtf_insert_i32-front : (dic : ℕ → ℤ) (k cap : ℕ) (v : ℤ) → (mtf_insert_i32 dic k cap v).1 0 ≡ v
unfolding mtf_insert_i32
mtf_insert_i32-front dic k cap v = refl

pub mtf_insert_i32-Distinct :
    (dic : ℕ → ℤ) (k cap : ℕ) (v : ℤ)
    → k ≤ cap
    → ((x : ℕ) → x < k → dic x ≢ v)
    → Distinct dic k
    → Distinct (mtf_insert_i32 dic k cap v).1 (mtf_insert_i32 dic k cap v).0
unfolding Distinct
mtf_insert_i32-Distinct dic k cap v hc absent ds zero zero hi hj e = refl
mtf_insert_i32-Distinct dic k cap v hc absent ds zero (suc j) hi hj e =
    let (at, inside) = mtf_insert_i32-entry dic k cap v j hc hj in
    absurd (absent j (omega arith) (sym at ∙ sym e ∙ mtf_insert_i32-front dic k cap v))
mtf_insert_i32-Distinct dic k cap v hc absent ds (suc i) zero hi hj e =
    let (at, inside) = mtf_insert_i32-entry dic k cap v i hc hi in
    absurd (absent i (omega arith) (sym at ∙ e ∙ mtf_insert_i32-front dic k cap v))
mtf_insert_i32-Distinct dic k cap v hc absent ds (suc i) (suc j) hi hj e =
    let (at_i, inside_i) = mtf_insert_i32-entry dic k cap v i hc hi in
    let (at_j, inside_j) = mtf_insert_i32-entry dic k cap v j hc hj in
    let same : i ≡ j = ds i j (omega arith) (omega arith) (sym at_i ∙ e ∙ at_j) in omega arith

-- When the entries in use are distinct and at most `cap`, they are distinct after a transition too,
-- and the delta stands at the front.
pub dr_transition-Distinct :
    (cap : ℕ) (s : DrStream) (delta : ℤ)
    → s.k ≤ cap
    → Distinct s.dic s.k
    → Distinct (dr_transition cap s delta).2.dic (dr_transition cap s delta).2.k
      × ((dr_transition cap s delta).2.dic 0 ≡ delta)
unfolding promoted_from
dr_transition-Distinct cap s delta hi ds = elim (dr_transition-cases cap s delta) [
  | inl c ↦ rw c.is (ds, sym c.front)
  | inr (inl c) ↦ rw c.is (
    mtf_promote_i32-Distinct s.dic (suc c.j) s.k c.inside ds,
    mtf_promote_i32-entry s.dic (suc c.j) 0 ∙ c.entry,
  )
  | inr (inr c) ↦ rw c.is (
    mtf_insert_i32-Distinct s.dic s.k cap delta hi c.absent ds,
    mtf_insert_i32-front s.dic s.k cap delta,
  )
]
