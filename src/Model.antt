-- ===== src/Model.antt =====
-- The entropy models of src/rc_models.h with the coders of src/enc_rc.c and the readers of
-- src/patch_apply.h. An array of probabilities is a function from its index; every index that the
-- code forms is shown to be in range where it is computed from data.
pub mod Digits
pub mod Tree
pub mod Unary
pub mod Golomb
pub mod Codecs
pub mod Init
pub mod Seed
use ultra_patch.Base.{ℕ, ◌≡◌, Bool, true, false, ◌==◌, if◌then◌else◌}
use ultra_patch.Coder.Prob.{IsProb, IsByteProb}

-- An array after `a[i] = v`.
abbrev pub update {ℓ} : {A : Type ℓ} → (ℕ → A) → ℕ → A → ℕ → A
update a i v j = if i == j then v else a j

abbrev pub bit_value : Bool → ℕ
bit_value true = 1
bit_value false = 0

abbrev pub AllProbs : (ℕ → ℕ) → Type 0
AllProbs a = (i : ℕ) → IsProb (a i)

abbrev pub AllByteProbs : (ℕ → ℕ) → Type 0
AllByteProbs a = (i : ℕ) → IsByteProb (a i)
