-- ===== src/Wire/Uleb/Read.antt =====
-- What one round of the uLEB reader does with a byte that the writer makes, and the writers' bytes.
use native.Mathlib.Numerals.{towards_suc}
use mathlib.Core.List.{append-nil, append_assoc}
use ultra_patch.Base.{
  true, false, ℕ, zero, suc, ◌+◌, ◌*◌, ◌/◌, ◌%◌, ◌^◌, ◌<◌, ◌≡◌, sym, ap, false, some, List, [], ◌∷◌,
  ◌++◌, ◌==◌, if◌then◌else◌, bit_or, arith,
}
use ultra_patch.Base.Bits.{bit_or_high}
use ultra_patch.Base.Word.{u32}
use ultra_patch.Wire.Uleb.{
  buf_put, put_uleb_loop, put_uleb_overlong_loop, env_uleb_loop, uleb32_overflow,
}

pub next_group : (sh : ℕ) → 128 * 2 ^ sh ≡ 2 ^ (sh + 7)
next_group sh = simp towards_suc (omega arith)

-- A value `v` that begins at bit `sh` is its seven lowest bits there and the rest seven bits above.
pub lowest_group : (sh v : ℕ) → v % 128 * 2 ^ sh + v / 128 * 2 ^ (sh + 7) ≡ v * 2 ^ sh
lowest_group sh v =
    let whole : v / 128 * 128 + v % 128 ≡ v = omega arith in
    let above = ap (λ (power : ℕ). v / 128 * power) (next_group sh) in
    omega (arith, above, ap (λ (sum : ℕ). sum * 2 ^ sh) whole)

pub continued : (x : ℕ) → x < 128 → bit_or x 0x80 ≡ x + 128
continued x h = bit_or_high 7 x 1 h

pub joined :
    (g v sh : ℕ)
    → v < 2 ^ sh
    → v + g * 2 ^ sh < 2 ^ 32
    → bit_or v (u32 (g * 2 ^ sh)) ≡ v + g * 2 ^ sh
joined g v sh hv fits =
    let e : u32 (g * 2 ^ sh) ≡ g * 2 ^ sh = omega arith in rw e (bit_or_high sh v g hv)

-- A byte with the continuation bit over the group `g`.
pub env_uleb_loop_more :
    (g v sh n : ℕ) (src : List ℕ)
    → g < 128
    → sh < 28
    → v < 2 ^ sh
    → v + g * 2 ^ sh < 2 ^ 32
    → env_uleb_loop ((g + 128) ∷ src) v sh n ≡ env_uleb_loop src (v + g * 2 ^ sh) (sh + 7) (n + 1)
unfolding env_uleb_loop
env_uleb_loop_more g v sh n src hg hs hv fits =
    let low : (g + 128) % 128 ≡ g = omega arith in
    let fine : uleb32_overflow sh (g + 128) ≡ false = ground arith in
    let more : ((g + 128) / 128 % 2 == 1) ≡ true = ground arith in
    rw (fine, more, low, joined g v sh hv fits)

-- A byte without it ends the number.
pub env_uleb_loop_last :
    (g v sh n : ℕ) (src : List ℕ)
    → g < 128
    → uleb32_overflow sh g ≡ false
    → v < 2 ^ sh
    → v + g * 2 ^ sh < 2 ^ 32
    → env_uleb_loop (g ∷ src) v sh n ≡ some (v + g * 2 ^ sh, n + 1, g, src)
unfolding env_uleb_loop
env_uleb_loop_last g v sh n src hg hs hv fits =
    let low : g % 128 ≡ g = omega arith in
    let last : (g / 128 % 2 == 1) ≡ false = ground arith in
    rw (hs, last, low, joined g v sh hv fits)

-- The bytes that each writer appends.
unfoldable pub uleb_bytes : ℕ → ℕ → List ℕ
uleb_bytes zero v = []
uleb_bytes (suc k) v =
    let more = uleb_bytes k (v / 128) in
    if v / 128 == 0 then (v % 128) ∷ [] else (v % 128 + 128) ∷ more

unfoldable pub overlong_bytes : ℕ → ℕ → List ℕ
overlong_bytes zero v = []
overlong_bytes (suc k) v =
    let more = overlong_bytes k (v / 128) in
    if v / 128 == 0 then (v % 128 + 128) ∷ [] else (v % 128 + 128) ∷ more

pub put_uleb_loop-append : (k : ℕ) (b : List ℕ) (v : ℕ) → put_uleb_loop k b v ≡ b ++ uleb_bytes k v
unfolding put_uleb_loop uleb_bytes
put_uleb_loop-append zero b v = sym (append-nil b)
put_uleb_loop-append (suc k) b v = ground (
  arith,
  continued (v % 128),
  put_uleb_loop-append k (buf_put b (v % 128 + 128)) (v / 128),
  append_assoc b ((v % 128 + 128) ∷ []) (uleb_bytes k (v / 128)),
)

pub put_uleb_overlong_loop-append :
    (k : ℕ) (b : List ℕ) (v : ℕ) → put_uleb_overlong_loop k b v ≡ b ++ overlong_bytes k v
unfolding put_uleb_overlong_loop overlong_bytes
put_uleb_overlong_loop-append zero b v = sym (append-nil b)
put_uleb_overlong_loop-append (suc k) b v = ground (
  arith,
  continued (v % 128),
  put_uleb_overlong_loop-append k (buf_put b (v % 128 + 128)) (v / 128),
  append_assoc b ((v % 128 + 128) ∷ []) (overlong_bytes k (v / 128)),
)
