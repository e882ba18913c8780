-- ===== src/Delta/Cache.antt =====
-- The move-to-front cache of recent deltas: rc_mtf_promote_i32, rc_mtf_insert_i32, rc_dr_rep_ctx and
-- rc_dr_init of src/rc_models.h, dr_transition of src/enc_emit.c.
-- The array `dic` is a function from its index; its first `k` entries are in use.
pub mod Transition
use ultra_patch.Base.{
  ℕ, zero, suc, ◌+◌, ◌-◌, ◌≤◌, ◌<◌, ◌≡◌, ◌≢◌, refl, sym, ap, ◌∙◌, Bool, true, false, ◌&&◌, Option,
  none, some, ◌==◌, ltb, leb, if◌then◌else◌, arith, bit_or, Bool-cases, inl, inr, ◌⊎◌, subst,
}
use ultra_patch.Base.Int.{ℤ, pos, negsuc, pos_part, neg_part, eq_of_parts}
use ultra_patch.Coder.Prob.{phalf, IsProb}
use ultra_patch.Model.{AllProbs}

-- `a == b` on int32_t
abbrev pub eq_ℤ : ℤ → ℤ → Bool
eq_ℤ a b = pos_part a == pos_part b && neg_part a == neg_part b

unfoldable pub mtf_promote_i32 : (ℕ → ℤ) → ℕ → ℕ → ℤ
mtf_promote_i32 dic j i = if i == 0 then dic j else if leb i j then dic (i - 1) else dic i

-- The new entries in use and the new array.
unfoldable pub mtf_insert_i32 : (ℕ → ℤ) → ℕ → ℕ → ℤ → ℕ × (ℕ → ℤ)
mtf_insert_i32 dic k cap v =
    let n = if ltb k cap then k else cap - 1 in
    (
      if ltb k cap then k + 1 else k,
      λ i. if i == 0 then v else if leb i n then dic (i - 1) else dic i,
    )

unfoldable pub dr_rep_ctx : ℕ → ℤ → ℕ
dr_rep_ctx rh last = bit_or rh (if eq_ℤ last (pos 0) then 2 else 0)

-- up_DRStream with the cache array that belongs to it.
pub record DrStream : Type 0 where
  pub k : ℕ
  pub rep : ℕ → ℕ
  pub hit : ℕ
  pub rh : ℕ
  pub dic : ℕ → ℤ

-- UP_DR_HIT_INIT
abbrev pub dr_hit_init : ℕ
dr_hit_init = 576

unfoldable pub dr_init : (ℕ → ℤ) → DrStream
dr_init dic = record {
  k = 1;
  rep = λ i. phalf;
  hit = dr_hit_init;
  rh = 0;
  dic = λ i. if i == 0 then pos 0 else dic i;
}

-- The first of `left` entries from index `i` on that holds the delta.
unfoldable pub find_from : ℕ → ℕ → (ℕ → ℤ) → ℤ → Option ℕ
find_from zero i dic delta = none
find_from (suc left) i dic delta =
    let later = find_from left (i + 1) dic delta in if eq_ℤ (dic i) delta then some i else later

-- DRTrans; `died` is the call of die.
pub data DrTrans : Type 0 where
  rep_tr : DrTrans
  hit_tr : ℕ → DrTrans
  esc_tr : DrTrans
  died : DrTrans

-- What dr_transition does after the search.
unfoldable pub found_transition : ℕ → DrStream → ℤ → Option ℕ → DrTrans × DrStream
found_transition cap s delta none =
    let (k, dic) = mtf_insert_i32 s.dic s.k cap delta in (esc_tr, record s { k = k; dic = dic })
found_transition cap s delta (some zero) = (died, s)
found_transition cap s delta (some (suc j)) =
    (hit_tr j, record s { dic = mtf_promote_i32 s.dic (suc j) })

-- The context of the repeat bit, the transition and the stream after it.
unfoldable pub dr_transition : ℕ → DrStream → ℤ → ℕ × DrTrans × DrStream
unfolding dr_rep_ctx
dr_transition cap s delta =
    let ri = dr_rep_ctx s.rh (s.dic 0) in
    if eq_ℤ delta (s.dic 0)
    then (ri, rep_tr, record s { rh = 1 })
    else (let s' : DrStream = record s { rh = 0 } in
        let (t, s'') = found_transition cap s' delta (find_from s.k 0 s.dic delta) in (ri, t, s''))

pub eq_ℤ-eq : (a b : ℤ) → eq_ℤ a b ≡ true → a ≡ b
eq_ℤ-eq a b h = eq_of_parts a b (ground arith)

pub eq_ℤ-refl : (a : ℤ) → eq_ℤ a a ≡ true
eq_ℤ-refl a = ground arith

-- What the search finds is an entry in range that holds the delta.
pub find_from-some :
    (left i : ℕ) (dic : ℕ → ℤ) (delta : ℤ) (j : ℕ)
    → find_from left i dic delta ≡ some j
    → (i ≤ j) × (j < i + left) × (dic j ≡ delta)
unfolding find_from
find_from-some zero i dic delta j h = absurd (ground arith)
find_from-some (suc left) i dic delta j h = elim (Bool-cases (eq_ℤ (dic i) delta)) [
  | inl e ↦
      (let at : i ≡ j = ground arith in
        (omega arith, omega arith, ap dic (sym at) ∙ eq_ℤ-eq (dic i) delta e))
  | inr e ↦
      let (lo, hi, same) = find_from-some left (i + 1) dic delta j (rw e at h) in
      (omega arith, omega arith, same)
]

-- What it does not find is nowhere among them.
pub find_from-none :
    (left i : ℕ) (dic : ℕ → ℤ) (delta : ℤ)
    → find_from left i dic delta ≡ none
    → (x : ℕ) → i ≤ x
    → x < i + left
    → eq_ℤ (dic x) delta ≡ false
unfolding find_from
find_from-none zero i dic delta h x lo hi = absurd (omega arith)
find_from-none (suc left) i dic delta h x lo hi = elim (Bool-cases (eq_ℤ (dic i) delta)) [
  | inl e ↦ absurd (ground arith)
  | inr e ↦ elim (Bool-cases (i == x)) [
    | inl at ↦
        (let here : i ≡ x = ground arith in subst (λ (y : ℕ). eq_ℤ (dic y) delta ≡ false) here e)
    | inr off ↦ find_from-none left (i + 1) dic delta (rw e at h) x (ground arith) (omega arith)
  ]
]
