-- ===== src/Model/Seed.antt =====
-- The literal trees that are seeded from the source image: rc_lit_seed_prob and rc_lit_tree_from_hist
-- of src/rc_models.h.
use native.Mathlib.Nat.{div-add-mod', one-le-pow, div-eq_of_lt-le}
use ultra_patch.Base.{
  ℕ, zero, suc, ◌+◌, ◌-◌, ◌*◌, ◌/◌, ◌^◌, ◌≤◌, ◌<◌, ◌≡◌, ap, ◌∙◌, arith, ltb, leb, ◌==◌,
  if◌then◌else◌, Bool-cases, inl, inr, pow-suc, sym, ◌⊎◌,
}
use ultra_patch.Base.Word.{u8, u16, u32}
use ultra_patch.Coder.Prob.{phalf, pbit, IsProb, IsByteProb}
use ultra_patch.Model.{update}
use ultra_patch.Coder.Bitlen.{le_or_lt}

-- `bits` rounds of the long division of `num` by `den`, the quotient so far being `pr`.
unfoldable pub seed_division : ℕ → ℕ → ℕ → ℕ → ℕ
seed_division zero num den pr = pr
seed_division (suc bits) num den pr =
    let num' = u32 (num * 2) in
    let pr' = u32 (pr * 2) in
    if leb den num'
    then seed_division bits (num' - den) den (pr' + 1)
    else seed_division bits num' den pr'

-- RC_PROB_BITS is 12.
unfoldable pub lit_seed_prob : ℕ → ℕ → ℕ
lit_seed_prob num den =
    let pr = (seed_division 13 num den 0 + 1) / 2 in
    if den == 0 then phalf else if pr == 0 then 1 else u16 (pr - pr / 2 ^ 12)

-- The seed of one node, in the scale of a byte tree.
unfoldable pub lit_node : ℕ → ℕ → ℕ
unfolding lit_seed_prob
lit_node l total =
    let q = u16 ((lit_seed_prob l total + 8) / 2 ^ 4) in
    u8 (if q == 0 then 1 else if ltb q 256 then q else 255)

-- Nodes i .. base - 1 of the level that starts at `base`, where `left` is base - i; sums replace the
-- front of the histogram.
unfoldable pub tree_level : ℕ → ℕ → ℕ → (ℕ → ℕ) → (ℕ → ℕ) → (ℕ → ℕ) × (ℕ → ℕ)
tree_level zero i base t hist = (t, hist)
tree_level (suc left) i base t hist =
    let l = hist (2 * i) in
    let total = u32 (l + hist (2 * i + 1)) in
    tree_level left (i + 1) base (update t (base + i - 1) (lit_node l total)) (update hist i total)

-- The levels 2^levels / 2, ..., 2, 1.
unfoldable pub tree_levels : ℕ → (ℕ → ℕ) → (ℕ → ℕ) → (ℕ → ℕ) × (ℕ → ℕ)
tree_levels zero t hist = (t, hist)
tree_levels (suc levels) t hist =
    let (t', hist') = tree_level (2 ^ levels) 0 (2 ^ levels) t hist in tree_levels levels t' hist'

unfoldable pub lit_tree_from_hist : (ℕ → ℕ) → (ℕ → ℕ) → ℕ → ℕ
lit_tree_from_hist t hist = (tree_levels 8 t hist).0

double : (x bits : ℕ) → x * 2 * 2 ^ bits ≡ x * 2 ^ suc bits
double x bits = omega (arith, ap (λ (t : ℕ). x * t) (pow-suc 2 bits))

quotient_small : (pr bits : ℕ) → pr * 2 ^ suc bits + 2 ^ suc bits ≤ 2 ^ 13 → pr < 2 ^ 13
quotient_small pr bits fit =
    let one = one-le-pow (suc bits) 2 (omega arith) in
    let m : pr * 1 ≤ pr * 2 ^ suc bits = grind arith in omega arith

-- The rounds compute a quotient of `num * 2^bits` by `den`, behind the quotient so far.
seed_division_lem :
    (bits num den pr : ℕ)
    → den ≤ 2 ^ 26
    → num ≤ den
    → pr * 2 ^ bits + 2 ^ bits ≤ 2 ^ 13
    → (r : ℕ) × (r ≤ den)
      × ((num < den) → (r < den))
      × (seed_division bits num den pr * den + r ≡ (pr * den + num) * 2 ^ bits)
unfolding seed_division
seed_division_lem zero num den pr hm h fit = (num, h, (λ k. k), omega arith)
seed_division_lem (suc bits) num den pr hm h fit =
    let p = pow-suc 2 bits in
    let p1 = ap (λ (t : ℕ). pr * t) p in
    let n2 : u32 (num * 2) ≡ num * 2 = omega arith in
    let q2 : u32 (pr * 2) ≡ pr * 2 = omega (arith, quotient_small pr bits fit) in
    elim (Bool-cases (leb den (num * 2))) [
      | inl e ↦
          let (r, hr, strict, er) =
            seed_division_lem bits (num * 2 - den) den (pr * 2 + 1) hm (ground arith)
              (omega arith) in
          let sum : (pr * 2 + 1) * den + (num * 2 - den) ≡ (pr * den + num) * 2 = ground arith in
          rw (n2, q2, e)
            (
              r,
              hr,
              (λ k. strict (omega arith)),
              er ∙ ap (λ (t : ℕ). t * 2 ^ bits) sum ∙ double (pr * den + num) bits,
            )
      | inr e ↦
          let (r, hr, strict, er) =
            seed_division_lem bits (num * 2) den (pr * 2) hm (ground arith) (omega arith) in
          let sum : pr * 2 * den + num * 2 ≡ (pr * den + num) * 2 = ground arith in
          rw (n2, q2, e)
            (
              r,
              hr,
              (λ k. strict (ground arith)),
              er ∙ ap (λ (t : ℕ). t * 2 ^ bits) sum ∙ double (pr * den + num) bits,
            )
    ]

-- What the long division is for: 4096 * num / den rounded half up, kept between 1 and 4095.
abbrev pub rounded_ratio : ℕ → ℕ → ℕ
rounded_ratio num den =
    let x = (num * 2 ^ 13 / den + 1) / 2 in if x == 0 then 1 else if ltb x pbit then x else pbit - 1

seed_quotient :
    (num den : ℕ) → den ≤ 2 ^ 26 → num < den → seed_division 13 num den 0 ≡ num * 2 ^ 13 / den
seed_quotient num den hm h =
    let (r, hr, strict, er) = seed_division_lem 13 num den 0 hm (omega arith) (omega arith) in
    let k = strict h in
    let one_more : (seed_division 13 num den 0 + 1) * den ≡ seed_division 13 num den 0 * den + den =
      omega arith in
    sym (div-eq_of_lt-le den (omega arith) (omega arith))

quotient_below : (num den q : ℕ) → 0 < den → q * den ≤ num * 2 ^ 13 → num ≤ den → q ≤ 2 ^ 13
quotient_below num den q pos h k = elim (le_or_lt q (2 ^ 13)) [
  | inl fits ↦ fits
  | inr over ↦ let m : (2 ^ 13 + 1) * den ≤ q * den = grind arith in absurd (omega arith)
]

-- For a count below the total of at most 2^26, the seed is the rounded ratio.
pub lit_seed_prob_lem :
    (num den : ℕ) → den ≤ 2 ^ 26 → num < den → lit_seed_prob num den ≡ rounded_ratio num den
unfolding lit_seed_prob
lit_seed_prob_lem num den hm h =
    let fit =
      quotient_below num den (num * 2 ^ 13 / den) (omega arith)
        (omega (arith, div-add-mod' (num * 2 ^ 13) den)) (omega arith) in
    rw (seed_quotient num den hm h) (ground arith)

seed_division-bound :
    (bits num den pr : ℕ)
    → pr * 2 ^ bits + 2 ^ bits ≤ 2 ^ 13
    → seed_division bits num den pr < 2 ^ 13
unfolding seed_division
seed_division-bound zero num den pr fit = omega arith
seed_division-bound (suc bits) num den pr fit =
    let p = pow-suc 2 bits in
    let p1 = ap (λ (t : ℕ). pr * t) p in
    let q2 : u32 (pr * 2) ≡ pr * 2 = omega (arith, quotient_small pr bits fit) in
    elim (Bool-cases (leb den (u32 (num * 2)))) [
      | inl e ↦
          rw (q2, e) (seed_division-bound bits (u32 (num * 2) - den) den (pr * 2 + 1) (omega arith))
      | inr e ↦ rw (q2, e) (seed_division-bound bits (u32 (num * 2)) den (pr * 2) (omega arith))
    ]

-- Every seed is usable, whatever the counts.
pub lit_seed_prob-IsProb : (num den : ℕ) → IsProb (lit_seed_prob num den)
unfolding lit_seed_prob
lit_seed_prob-IsProb num den = elim (Bool-cases (den == 0)) [
  | inl e ↦ rw e (omega arith, omega arith)
  | inr e ↦ let fit = seed_division-bound 13 num den 0 (omega arith) in rw e (ground arith)
]

lit_node-IsByteProb : (l total : ℕ) → IsByteProb (lit_node l total)
unfolding lit_node
lit_node-IsByteProb l total = let h = lit_seed_prob-IsProb l total in ground arith

-- After a level, a node is usable when it was so before or belongs to the level.
tree_level-IsByteProb :
    (left i base : ℕ) (t hist : ℕ → ℕ) (x : ℕ)
    → 0 < base
    → IsByteProb (t x) ⊎ ((base + i ≤ x + 1) × (x + 1 < base + i + left))
    → IsByteProb ((tree_level left i base t hist).0 x)
unfolding tree_level
tree_level-IsByteProb zero i base t hist x pos (inl h) = h
tree_level-IsByteProb zero i base t hist x pos (inr h) = absurd (omega arith)
tree_level-IsByteProb (suc left) i base t hist x pos h =
    let total = u32 (hist (2 * i) + hist (2 * i + 1)) in
    let node = lit_node (hist (2 * i)) total in
    let t' = update t (base + i - 1) node in
    tree_level-IsByteProb left (i + 1) base t' (update hist i total) x pos
      (elim (Bool-cases (base + i - 1 == x)) [
        | inl e ↦ inl (rw e (lit_node-IsByteProb (hist (2 * i)) total))
        | inr e ↦ elim h [ inl good ↦ inl (rw e good) | inr range ↦ inr (ground arith) ]
      ])

tree_levels-IsByteProb :
    (levels : ℕ) (t hist : ℕ → ℕ) (x : ℕ)
    → IsByteProb (t x) ⊎ (x + 1 < 2 ^ levels)
    → IsByteProb ((tree_levels levels t hist).0 x)
unfolding tree_levels
tree_levels-IsByteProb zero t hist x (inl h) = h
tree_levels-IsByteProb zero t hist x (inr h) = absurd (omega arith)
tree_levels-IsByteProb (suc levels) t hist x h =
    let one = one-le-pow levels 2 (omega arith) in
    let base = 2 ^ levels in
    let (t', hist') = tree_level base 0 base t hist in
    let level = tree_level-IsByteProb base 0 base t hist x (omega arith) in
    tree_levels-IsByteProb levels t' hist' x (elim h [
      | inl good ↦ inl (level (inl good))
      | inr small ↦ elim (le_or_lt base (x + 1)) [
        | inl here ↦ inl (level (inr (omega arith, omega (arith, pow-suc 2 levels))))
        | inr below ↦ inr below
      ]
    ])

-- Whatever the histogram and the tree before, each of the 255 nodes ends as a usable probability.
pub lit_tree_from_hist-IsByteProb :
    (t hist : ℕ → ℕ) (x : ℕ) → x < 255 → IsByteProb (lit_tree_from_hist t hist x)
unfolding lit_tree_from_hist
lit_tree_from_hist-IsByteProb t hist x h = tree_levels-IsByteProb 8 t hist x (inr (omega arith))
