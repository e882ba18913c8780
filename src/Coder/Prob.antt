-- ===== src/Coder/Prob.antt =====
-- The probabilities of src/rc_models.h: adaptation, and the bounds that split a range.
pub mod Bounds
use ultra_patch.Base.{ℕ, ◌+◌, ◌-◌, ◌*◌, ◌/◌, ◌^◌, ◌≤◌, ◌<◌, Bool, true, false, if◌then◌else◌}
use ultra_patch.Base.Word.{u8, u16}

-- RC_KTOP, RC_PBIT, RC_PHALF and RC_S_BIT_RATE
abbrev pub ktop : ℕ
ktop = 2 ^ 24

abbrev pub pbit : ℕ
pbit = 4096

abbrev pub phalf : ℕ
phalf = 2048

abbrev pub s_bit_rate : ℕ
s_bit_rate = 4

-- RC_PROB_BOUND; the product stays below 2^32 for a 12-bit probability.
unfoldable pub prob_bound : ℕ → ℕ → ℕ
prob_bound range prob = range / 2 ^ 12 * prob

-- A bit is a Bool, true for 1.
unfoldable pub adapt : ℕ → Bool → ℕ → ℕ
adapt p bit rate = u16 (if bit then p - p / 2 ^ rate else p + (pbit - p) / 2 ^ rate)

unfoldable pub bt_adapt : ℕ → Bool → ℕ → ℕ
bt_adapt p bit rate = u8 (if bit then p - p / 2 ^ rate else p + (256 - p) / 2 ^ rate)

-- A usable scalar probability, and a usable byte-tree probability: neither end of its scale.
abbrev pub IsProb : ℕ → Type 0
IsProb p = (0 < p) × (p < pbit)

abbrev pub IsByteProb : ℕ → Type 0
IsByteProb p = (0 < p) × (p < 256)

-- A bound that splits a range into two parts, neither empty.
abbrev pub Splits : ℕ → ℕ → Type 0
Splits bound range = (0 < bound) × (bound < range)
