-- ===== src/Coder/Prefix.antt =====
-- Numbers spelled by zero-padded bytes: a prefix sees only what an index sees, so trailing zeros do
-- not count.
use native.Mathlib.Nat.{pow-suc}
use ultra_patch.Base.{
  ℕ, zero, suc, ◌+◌, ◌*◌, ◌^◌, ◌≡◌, refl, ap, ◌∙◌, inl, inr, List, [], ◌∷◌, ◌++◌, ◌==◌, length,
  get_or, take, drop, arith, Bool-cases,
}
use ultra_patch.Coder.Encoder.{trim_cons, trim_zeros}
use ultra_patch.Coder.Value.{IsBytes, num_from}
use ultra_patch.Coder.Renorm.{prefix}

-- The same byte at every index, zeros following the last.
abbrev pub SameBytes : List ℕ → List ℕ → Type 0
SameBytes xs ys = (k : ℕ) → get_or xs k 0 ≡ get_or ys k 0

pub prefix-ext : (xs ys : List ℕ) (n : ℕ) → SameBytes xs ys → prefix xs n ≡ prefix ys n
unfolding prefix
prefix-ext xs ys zero h = refl
prefix-ext xs ys (suc n) h = omega (arith, prefix-ext xs ys n h, h n)

pub prefix-cons :
    (b : ℕ) (bs : List ℕ) (n : ℕ) → prefix (b ∷ bs) (suc n) ≡ b * 256 ^ n + prefix bs n
unfolding prefix
prefix-cons b bs zero = omega arith
prefix-cons b bs (suc n) = omega (arith, prefix-cons b bs n, ap (λ (t : ℕ). b * t) (pow-suc 256 n))

prefix-nil : (n : ℕ) → prefix [] n ≡ 0
unfolding prefix
prefix-nil zero = refl
prefix-nil (suc n) = omega (arith, prefix-nil n)

num_from-prefix :
    (a : ℕ) (bs : List ℕ) → num_from a bs ≡ a * 256 ^ length bs + prefix bs (length bs)
unfolding num_from
num_from-prefix a [] = omega (arith, prefix-nil 0)
num_from-prefix a (b ∷ bs) = omega (
  arith,
  num_from-prefix (a * 256 + b) bs,
  prefix-cons b bs (length bs),
  ap (λ (t : ℕ). a * t) (pow-suc 256 (length bs)),
)

pub num_from-zero : (bs : List ℕ) → num_from 0 bs ≡ prefix bs (length bs)
num_from-zero bs = omega (arith, num_from-prefix 0 bs)

trim_cons-SameBytes : (b : ℕ) (t : List ℕ) → SameBytes (trim_cons b t) (b ∷ t)
trim_cons-SameBytes b (x ∷ xs) k = unfold trim_cons in refl
trim_cons-SameBytes b [] zero = unfold trim_cons in ground arith
trim_cons-SameBytes b [] (suc k) = elim (Bool-cases (b == 0)) [
  | inl e ↦ unfold trim_cons in rw e
  | inr e ↦ unfold trim_cons in rw e
]

pub trim_zeros-SameBytes : (xs : List ℕ) → SameBytes (trim_zeros xs) xs
unfolding trim_zeros
trim_zeros-SameBytes [] k = refl
trim_zeros-SameBytes (b ∷ bs) zero = trim_cons-SameBytes b (trim_zeros bs) 0
trim_zeros-SameBytes (b ∷ bs) (suc k) =
    trim_cons-SameBytes b (trim_zeros bs) (suc k) ∙ trim_zeros-SameBytes bs k

pub take_drop-SameBytes :
    (n : ℕ) (xs ys : List ℕ) → SameBytes ys (drop n xs) → SameBytes (take n xs ++ ys) xs
take_drop-SameBytes zero xs ys h k = h k
take_drop-SameBytes (suc n) [] ys h k = h k
take_drop-SameBytes (suc n) (x ∷ xs) ys h zero = refl
take_drop-SameBytes (suc n) (x ∷ xs) ys h (suc k) = take_drop-SameBytes n xs ys h k

pub SameBytes-IsBytes : (xs ys : List ℕ) → SameBytes xs ys → IsBytes ys → IsBytes xs
SameBytes-IsBytes xs ys h b k = rw (h k) (b k)
