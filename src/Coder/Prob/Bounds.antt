-- ===== src/Coder/Prob/Bounds.antt =====
-- Adaptation never reaches an end of the scale, so that every bound splits the range.
use ultra_patch.Base.{ℕ, ◌*◌, ◌/◌, ◌^◌, ◌≤◌, Bool, true, false, arith}
use ultra_patch.Coder.Prob.{
  ktop, s_bit_rate, prob_bound, adapt, bt_adapt, IsProb, IsByteProb, Splits,
}

-- Adapting at the shared rate keeps a scalar probability strictly between 0 and 4096, and moves it
-- down on a 1 and up on a 0.
pub adapt-IsProb :
    (p : ℕ) (bit : Bool)
    → IsProb p
    → IsProb (adapt p bit s_bit_rate)
      × (adapt p true s_bit_rate ≤ p)
      × (p ≤ adapt p false s_bit_rate)
unfolding adapt
adapt-IsProb p true h = omega arith
adapt-IsProb p false h = omega arith

-- So does a byte-tree probability between 0 and 256, at the rate of every tree.
pub bt_adapt-IsByteProb :
    (p : ℕ) (bit : Bool)
    → IsByteProb p
    → IsByteProb (bt_adapt p bit 4) × (bt_adapt p true 4 ≤ p) × (p ≤ bt_adapt p false 4)
unfolding bt_adapt
bt_adapt-IsByteProb p true h = omega arith
bt_adapt-IsByteProb p false h = omega arith

-- A usable probability splits every normalised range.
pub prob_bound-Splits : (range p : ℕ) → ktop ≤ range → IsProb p → Splits (prob_bound range p) range
unfolding prob_bound
prob_bound-Splits range p h hp =
    let low : 1 ≤ range / 2 ^ 12 = omega arith in
    let below : range / 2 ^ 12 * p ≤ range / 2 ^ 12 * 4095 = grind arith in
    let above : range / 2 ^ 12 * 1 ≤ range / 2 ^ 12 * p = grind arith in (omega arith, omega arith)

pub tree_bound-Splits :
    (range p : ℕ) → ktop ≤ range → IsByteProb p → Splits (range / 2 ^ 8 * p) range
tree_bound-Splits range p h hp =
    let low : 1 ≤ range / 2 ^ 8 = omega arith in
    let below : range / 2 ^ 8 * p ≤ range / 2 ^ 8 * 255 = grind arith in
    let above : range / 2 ^ 8 * 1 ≤ range / 2 ^ 8 * p = grind arith in (omega arith, omega arith)

pub raw_bound-Splits : (range : ℕ) → ktop ≤ range → Splits (range / 2) range
raw_bound-Splits range h = omega arith
