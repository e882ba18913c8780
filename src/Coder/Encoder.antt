-- ===== src/Coder/Encoder.antt =====
-- REnc and its operations, of src/enc_internal.h and src/enc_rc.c.
use ultra_patch.Base.{
  ℕ, zero, suc, ◌+◌, ◌-◌, ◌*◌, ◌/◌, ◌%◌, ◌^◌, Bool, true, false, ◌||◌, List, [], ◌∷◌, ◌++◌, ltb,
  ◌==◌, if◌then◌else◌, length, take, drop,
}
use ultra_patch.Base.Word.{u8, u32}
use ultra_patch.Coder.Prob.{ktop, prob_bound, adapt}

-- `csz` counts the pending bytes, the cached one included, and is never near the top of its type.
pub record REnc : Type 0 where
  pub low : ℕ
  pub range : ℕ
  pub cache : ℕ
  pub csz : ℕ
  pub out : List ℕ
  pub coding_overflow : Bool

-- The inner loop of re_shift_low: the cached byte, then the pending 0xff bytes, each with the carry.
unfoldable pub put_pending : ℕ → ℕ → ℕ → List ℕ → List ℕ
put_pending zero c carry out = out
put_pending (suc csz) c carry out = put_pending csz 0xff carry (out ++ (u8 (c + carry) ∷ []))

unfoldable pub shift_low : REnc → REnc
shift_low r =
    let low' = r.low * 2 ^ 8 % 2 ^ 32 in
    if ltb r.low 0xff00_0000 || ltb 0xffff_ffff r.low
    then record r {
      out = put_pending r.csz r.cache (u8 (r.low / 2 ^ 32)) r.out;
      cache = u8 (r.low / 2 ^ 24);
      csz = 1;
      low = low';
    }
    else record r { csz = r.csz + 1; low = low' }

unfoldable pub re_init : REnc
re_init = record {
  low = 0;
  range = 0xffff_ffff;
  cache = 0;
  csz = 1;
  out = [];
  coding_overflow = false;
}

-- The split that re_bit, re_raw and bt_xfer make at a bound.
unfoldable pub narrow : REnc → ℕ → Bool → REnc
narrow r bound false = record r { range = bound }
narrow r bound true = record r { low = r.low + bound; range = u32 (r.range + 2 ^ 32 - bound) }

-- while (range < RC_KTOP) { range <<= 8; re_shift_low; }. A range above 0 needs three rounds at most.
unfoldable pub renorm : ℕ → REnc → REnc
renorm zero r = r
renorm (suc fuel) r =
    let more = renorm fuel (shift_low (record r { range = u32 (r.range * 2 ^ 8) })) in
    if ltb r.range ktop then more else r

abbrev pub renorm_rounds : ℕ
renorm_rounds = 3

-- One coded bit at a given bound.
unfoldable pub code_bit : REnc → ℕ → Bool → REnc
code_bit r bound bit = renorm renorm_rounds (narrow r bound bit)

-- The new state of the coder and the adapted probability.
unfoldable pub re_bit : REnc → ℕ → Bool → ℕ → REnc × ℕ
re_bit r prob bit rate = (code_bit r (prob_bound r.range prob) bit, adapt prob bit rate)

unfoldable pub re_raw : REnc → Bool → REnc
re_raw r bit = code_bit r (r.range / 2) bit

-- bitlen32: the loop runs once for each bit, 32 times at most.
unfoldable pub bitlen32_loop : ℕ → ℕ → ℕ → ℕ
bitlen32_loop zero n v = n
bitlen32_loop (suc fuel) n v =
    let more = bitlen32_loop fuel (n + 1) (v / 2) in if v / 2 == 0 then n + 1 else more

unfoldable pub bitlen32 : ℕ → ℕ
bitlen32 v = bitlen32_loop 32 0 v

-- Round `low` up to a multiple of the largest power of two that fits the range.
unfoldable pub round_low : REnc → REnc
round_low r =
    let t = bitlen32 r.range - 1 in
    if r.low % 2 ^ t == 0 then r else record r { low = (r.low + 2 ^ t) / 2 ^ t * 2 ^ t }

unfoldable pub shift_times : ℕ → REnc → REnc
shift_times zero r = r
shift_times (suc n) r = shift_times n (shift_low r)

-- The trailing zeros of a list, taken off.
unfoldable pub trim_cons : ℕ → List ℕ → List ℕ
trim_cons b [] = if b == 0 then [] else b ∷ []
trim_cons b (x ∷ xs) = b ∷ x ∷ xs

unfoldable pub trim_zeros : List ℕ → List ℕ
unfolding trim_cons
trim_zeros [] = []
trim_zeros (b ∷ bs) = trim_cons b (trim_zeros bs)

-- The five bytes of the state, without the zeros that the decoder's padding supplies.
unfoldable pub re_flush_opt : REnc → List ℕ
re_flush_opt r =
    let base = length r.out in
    let full = (shift_times 5 (round_low r)).out in
    let d = take base full ++ trim_zeros (drop base full) in if length d == 0 then 0 ∷ [] else d

-- put_raw_bits: the top bit first.
unfoldable pub put_raw_bits : REnc → ℕ → ℕ → REnc
put_raw_bits r v zero = r
put_raw_bits r v (suc sh) = put_raw_bits (re_raw r (v / 2 ^ sh % 2 == 1)) v sh
