-- ===== src/Coder/Decoder.antt =====
-- The range decoder of src/patch_apply.h: up_RangeDec with the counted body bytes behind it.
use ultra_patch.Base.{
  ℕ, zero, suc, ◌+◌, ◌-◌, ◌*◌, ◌/◌, ◌^◌, Bool, true, false, List, [], ◌∷◌, ltb, ◌==◌, if◌then◌else◌,
  bit_or,
}
use ultra_patch.Base.Word.{u32}
use ultra_patch.Coder.Prob.{ktop, prob_bound, adapt}

-- `src` is what the callback still has to give; `rcerr` is g_rcerr and `body_left` g_body_left.
pub record RangeDec : Type 0 where
  pub range : ℕ
  pub code : ℕ
  pub src : List ℕ
  pub body_left : ℕ
  pub rcerr : Bool

-- An end of the source in the counted body sets the error; past the count zeros are supplied.
unfoldable pub pull_body : RangeDec → List ℕ → ℕ × RangeDec
pull_body d [] = (0, record d { body_left = 0; rcerr = true })
pull_body d (b ∷ src) = (b, record d { src = src; body_left = d.body_left - 1 })

unfoldable pub next_byte : RangeDec → ℕ × RangeDec
unfolding pull_body
next_byte d = if d.body_left == 0 then (0, d) else pull_body d d.src

-- code = (code << 8) | next_byte
unfoldable pub refill : RangeDec → RangeDec
refill d = let (b, d') = next_byte d in record d' { code = bit_or (u32 (d.code * 2 ^ 8)) b }

unfoldable pub refill_times : ℕ → RangeDec → RangeDec
refill_times zero d = d
refill_times (suc n) d = refill_times n (refill d)

-- The state after the envelope, with `n` body bytes to come.
unfoldable pub rc_init : List ℕ → ℕ → RangeDec
rc_init src n =
    refill_times 4
      (record { range = 0xffff_ffff; code = 0; src = src; body_left = n; rcerr = false })

-- while (range < RC_KTOP) { code = (code << 8) | up_next_byte(pa); range <<= 8; }
unfoldable pub refill_round : RangeDec → RangeDec
refill_round d = let d' = refill d in record d' { range = u32 (d'.range * 2 ^ 8) }

unfoldable pub renorm_dec : ℕ → RangeDec → RangeDec
renorm_dec zero d = d
renorm_dec (suc fuel) d =
    let more = renorm_dec fuel (refill_round d) in if ltb d.range ktop then more else d

-- The part of the range in which the code lies.
unfoldable pub choose : RangeDec → ℕ → Bool × RangeDec
choose d bound =
    if ltb d.code bound
    then (false, record d { range = bound })
    else (true, record d { code = d.code - bound; range = u32 (d.range + 2 ^ 32 - bound) })

unfoldable pub rc_decode : RangeDec → ℕ → Bool × RangeDec
rc_decode d bound = let (b, d') = choose d bound in (b, renorm_dec 3 d')

-- The bit, the adapted probability and the new state.
unfoldable pub s_bit_r : RangeDec → ℕ → ℕ → Bool × ℕ × RangeDec
s_bit_r d prob rate =
    let (b, d') = rc_decode d (prob_bound d.range prob) in (b, adapt prob b rate, d')

unfoldable pub s_raw : RangeDec → Bool × RangeDec
s_raw d = rc_decode d (d.range / 2)
