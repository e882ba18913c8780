-- ===== src/Wire/Uleb.antt =====
-- uLEB128 in the envelope: put_uleb, put_uleb_overlong, buf_put and buf_write of src/enc_util.c, and
-- up_env_byte, up_env_u32le, up_env_uleb and up_env_zz_abs of src/patch_apply.h.
-- A Buf is the list of its bytes; the byte source is the list of the bytes still to come, as
-- pull_next of src/patch_host_backend.c hands them out. `none` is a return of 0.
pub mod Read
pub mod RoundTrip
use ultra_patch.Base.{
  ℕ, zero, suc, ◌+◌, ◌-◌, ◌*◌, ◌/◌, ◌%◌, ◌^◌, Bool, true, false, ◌&&◌, not, Option, none, some,
  List, [], ◌∷◌, ◌++◌, ltb, ◌==◌, if◌then◌else◌, bit_or,
}
use ultra_patch.Base.Word.{u8, u32}
use ultra_patch.Wire.Zigzag.{zz_abs}

abbrev pub buf_put : List ℕ → ℕ → List ℕ
buf_put b v = b ++ (v ∷ [])

abbrev pub buf_write : List ℕ → List ℕ → List ℕ
buf_write b p = b ++ p

unfoldable pub buf_put_u32le : List ℕ → ℕ → List ℕ
buf_put_u32le b v =
    buf_put (buf_put (buf_put (buf_put b (u8 v)) (u8 (v / 2 ^ 8))) (u8 (v / 2 ^ 16)))
      (u8 (v / 2 ^ 24))

-- The loops run once for each seven bits; five rounds cover 35.
abbrev pub uleb_rounds : ℕ
uleb_rounds = 5

pub put_uleb_loop : ℕ → List ℕ → ℕ → List ℕ
put_uleb_loop zero b v = b
put_uleb_loop (suc fuel) b v =
    let x = v % 128 in
    let w = v / 128 in
    let more = put_uleb_loop fuel (buf_put b (bit_or x 0x80)) w in
    if w == 0 then buf_put b x else more

unfoldable pub put_uleb : List ℕ → ℕ → List ℕ
put_uleb b v = put_uleb_loop uleb_rounds b v

pub put_uleb_overlong_loop : ℕ → List ℕ → ℕ → List ℕ
put_uleb_overlong_loop zero b v = b
put_uleb_overlong_loop (suc fuel) b v =
    let x = v % 128 in
    let w = v / 128 in
    let b' = buf_put b (bit_or x 0x80) in
    let more = put_uleb_overlong_loop fuel b' w in if w == 0 then b' else more

unfoldable pub put_uleb_overlong : List ℕ → ℕ → List ℕ
put_uleb_overlong b v = buf_put (put_uleb_overlong_loop uleb_rounds b v) 0

unfoldable pub env_byte : List ℕ → Option (ℕ × List ℕ)
env_byte [] = none
env_byte (b ∷ src) = some (b, src)

infixl 5 ◌>>=◌
abbrev pub ◌>>=◌ {ℓ κ} : {A : Type ℓ} {B : Type κ} → Option A → (A → Option B) → Option B
none >>= f = none
some a >>= f = f a

unfoldable pub env_u32le : List ℕ → Option (ℕ × List ℕ)
unfolding env_byte
env_u32le src = do
  (b0, s1) ← env_byte src
  (b1, s2) ← env_byte s1
  (b2, s3) ← env_byte s2
  (b3, s4) ← env_byte s3
  some (bit_or (bit_or (bit_or b0 (b1 * 2 ^ 8)) (b2 * 2 ^ 16)) (b3 * 2 ^ 24), s4)

-- UP_ULEB32_OVERFLOW
abbrev pub uleb32_overflow : ℕ → ℕ → Bool
uleb32_overflow sh b = sh == 28 && ltb 15 b

unfoldable pub uleb_overlong : ℕ → ℕ → Bool
uleb_overlong n last = ltb 1 n && last == 0

-- The do-while loop: the value, the count of bytes, the last byte and what follows.
unfoldable pub env_uleb_loop : List ℕ → ℕ → ℕ → ℕ → Option (ℕ × ℕ × ℕ × List ℕ)
env_uleb_loop [] v sh n = none
env_uleb_loop (b ∷ src) v sh n =
    let v' = bit_or v (u32 (b % 128 * 2 ^ sh)) in
    let more = env_uleb_loop src v' (sh + 7) (n + 1) in
    if uleb32_overflow sh b
    then none
    else if b / 128 % 2 == 1
    then more
    else some (v', n + 1, b, src)

-- `want_ov` is the test `ov != NULL`: without it an overlong form is refused.
unfoldable pub env_uleb : List ℕ → Bool → Option (ℕ × Bool × List ℕ)
unfolding uleb_overlong
env_uleb src want_ov = do
  (v, n, last, rest) ← env_uleb_loop src 0 0 0
  (let o = uleb_overlong n last in if o && not want_ov then none else some (v, o, rest))

-- MAX_IMAGE
abbrev pub max_image : ℕ
max_image = 64 * 2 ^ 20

unfoldable pub env_zz_abs : List ℕ → ℕ → Option (ℕ × List ℕ)
env_zz_abs src base = do
  (z, _o, rest) ← env_uleb src false
  v ← zz_abs base z max_image
  some (v, rest)
