-- ===== src/Wire/Uleb/RoundTrip.antt =====
-- The uLEB reader on what the writers append.
use mathlib.Core.List.{append_assoc}
use ultra_patch.Base.{
  ℕ, zero, suc, ◌+◌, ◌*◌, ◌/◌, ◌%◌, ◌^◌, ◌≤◌, ◌<◌, ◌≡◌, refl, ap, ◌∙◌, ◌⊎◌, inl, inr, ◌≢◌, Bool,
  true, false, none, some, List, [], ◌∷◌, ◌++◌, not, ◌&&◌, ◌==◌, arith,
}
use ultra_patch.Base.Word.{IsU32}
use ultra_patch.Wire.Uleb.{
  put_uleb, put_uleb_overlong, env_uleb_loop, env_uleb, uleb32_overflow, uleb_overlong,
}
use ultra_patch.Wire.Uleb.Read.{
  next_group, lowest_group, env_uleb_loop_more, env_uleb_loop_last, uleb_bytes, overlong_bytes,
  put_uleb_loop-append, put_uleb_overlong_loop-append,
}

-- The loop reads a value `w` whose bytes begin at bit `sh`, after `n` bytes.
abbrev Yields : List ℕ → ℕ → ℕ → ℕ → ℕ → ℕ → ℕ → List ℕ → Type 0
Yields src v sh n w count last rest =
    env_uleb_loop src v sh n ≡ some (v + w * 2 ^ sh, count, last, rest)

-- One more byte in front, when something is left above it.
Yields-next :
    (v sh n w count last : ℕ) (src rest : List ℕ)
    → sh < 28
    → v < 2 ^ sh
    → v + w * 2 ^ sh < 2 ^ 32
    → Yields src (v + w % 128 * 2 ^ sh) (sh + 7) (n + 1) (w / 128) count last rest
    → Yields ((w % 128 + 128) ∷ src) v sh n w count last rest
Yields-next v sh n w count last src rest hs hv fits y =
    let sum : v + w % 128 * 2 ^ sh + w / 128 * 2 ^ (sh + 7) ≡ v + w * 2 ^ sh =
      omega (arith, lowest_group sh w) in
    env_uleb_loop_more (w % 128) v sh n src (omega arith) hs hv (omega (arith, lowest_group sh w))
    ∙ y
    ∙ ap (λ (t : ℕ). some (t, count, last, rest)) sum

-- The bit position and the value read so far stay in range; `top` is the last bit position.
abbrev pub Fits : ℕ → ℕ → ℕ → ℕ → ℕ → ℕ → Type 0
Fits top bound k v sh w = (v < 2 ^ sh) × (v + w * 2 ^ sh < bound) × (sh + 7 * k ≡ top)

group_below : (v w sh : ℕ) → v < 2 ^ sh → v + w % 128 * 2 ^ sh < 2 ^ (sh + 7)
group_below v w sh hv =
    let e : w % 128 ≤ 127 = omega arith in
    let m : w % 128 * 2 ^ sh ≤ 127 * 2 ^ sh = grind arith in omega (arith, next_group sh)

pub Fits-next :
    (top bound k v sh w : ℕ)
    → Fits top bound (suc k) v sh w
    → Fits top bound k (v + w % 128 * 2 ^ sh) (sh + 7) (w / 128)
Fits-next top bound k v sh w h =
    (group_below v w sh h.0, omega (arith, lowest_group sh w), omega arith)

top_small : (w v sh : ℕ) → v + w * 2 ^ sh < 2 ^ 28 → sh ≡ 21 → w / 128 ≡ 0
top_small w v sh h e =
    let e' : 2 ^ sh ≡ 2 ^ 21 = ap (λ (t : ℕ). 2 ^ t) e in
    let m : w * 2 ^ sh ≡ w * 2 ^ 21 = ap (λ (t : ℕ). w * t) e' in omega arith

pub top_fits : (w v sh : ℕ) → v + w * 2 ^ sh < 2 ^ 32 → sh ≡ 28 → w ≤ 15
top_fits w v sh h e =
    let e' : 2 ^ sh ≡ 2 ^ 28 = ap (λ (t : ℕ). 2 ^ t) e in
    let m : w * 2 ^ sh ≡ w * 2 ^ 28 = ap (λ (t : ℕ). w * t) e' in omega arith

zero_or_not : (w : ℕ) → (w ≢ 0) ⊎ (w ≡ 0)
zero_or_not zero = inr refl
zero_or_not (suc w) = inl (omega arith)

-- A canonical form: its last byte is 0 only for the value 0, in one byte.
abbrev ReadsCanonical : List ℕ → ℕ → ℕ → ℕ → ℕ → List ℕ → Type 0
ReadsCanonical src v sh n w rest =
    (count : ℕ) × (last : ℕ) × Yields src v sh n w count last rest
    × ((last ≢ 0) ⊎ ((w ≡ 0) × (count ≡ n + 1)))

last_ReadsCanonical :
    (v sh n w : ℕ) (rest : List ℕ)
    → w < 128
    → uleb32_overflow sh w ≡ false
    → v < 2 ^ sh
    → v + w * 2 ^ sh < 2 ^ 32
    → ReadsCanonical (w ∷ rest) v sh n w rest
last_ReadsCanonical v sh n w rest small fine hv fits = (
  n + 1,
  w,
  env_uleb_loop_last w v sh n rest small fine hv fits,
  elim (zero_or_not w) [ inl ne ↦ inl ne | inr e ↦ inr (e, refl) ],
)

uleb_bytes-ReadsCanonical :
    (k v sh n w : ℕ) (rest : List ℕ)
    → Fits 28 (2 ^ 32) k v sh w
    → ReadsCanonical (uleb_bytes (suc k) w ++ rest) v sh n w rest
unfolding uleb_bytes
uleb_bytes-ReadsCanonical zero v sh n w rest (hv, fits, e) =
    let small : w ≤ 15 = top_fits w v sh fits (omega arith) in
    let t : (w / 128 == 0) ≡ true = ground arith in
    let low : w % 128 ≡ w = omega arith in
    rw (t, low) (last_ReadsCanonical v sh n w rest (omega arith) (ground arith) hv fits)
uleb_bytes-ReadsCanonical (suc k) v sh n w rest (hv, fits, e) = elim (zero_or_not (w / 128)) [
  | inr small ↦
      let t : (w / 128 == 0) ≡ true = ground arith in
      let low : w % 128 ≡ w = omega arith in
      rw (t, low) (last_ReadsCanonical v sh n w rest (omega arith) (ground arith) hv fits)
  | inl big ↦
      let t : (w / 128 == 0) ≡ false = ground arith in
      let (count, last, y, ends) =
        uleb_bytes-ReadsCanonical k (v + w % 128 * 2 ^ sh) (sh + 7) (n + 1) (w / 128) rest
          (Fits-next 28 (2 ^ 32) k v sh w (hv, fits, e)) in
      rw t (
        count,
        last,
        Yields-next v sh n w count last (uleb_bytes (suc k) (w / 128) ++ rest) rest (omega arith) hv
            fits y,
        elim ends [ inl ne ↦ inl ne | inr z ↦ absurd (big z.0) ],
      )
]

canonical_mark :
    (w count last : ℕ) → (last ≢ 0) ⊎ ((w ≡ 0) × (count ≡ 1)) → uleb_overlong count last ≡ false
unfolding uleb_overlong
canonical_mark w count last (inl ne) = ground arith
canonical_mark w count last (inr (z, one)) = ground arith

env_uleb-Yields :
    (src rest : List ℕ) (w count last : ℕ) (o want_ov : Bool)
    → Yields src 0 0 0 w count last rest
    → uleb_overlong count last ≡ o
    → (o && not want_ov) ≡ false
    → env_uleb src want_ov ≡ some (w, o, rest)
unfolding env_uleb
env_uleb-Yields src rest w count last o want_ov y mark fine =
    let e : 0 + w * 1 ≡ w = omega arith in rw (y, mark, fine, e)

-- The reader gets back every uint32 that put_uleb wrote, sees no overlong mark, and leaves what
-- follows.
pub env_uleb-put_uleb :
    (v : ℕ) (rest : List ℕ) (want_ov : Bool)
    → IsU32 v
    → env_uleb (put_uleb [] v ++ rest) want_ov ≡ some (v, false, rest)
unfolding put_uleb
env_uleb-put_uleb v rest want_ov h =
    let (count, last, y, ends) =
      uleb_bytes-ReadsCanonical 4 0 0 0 v rest (omega arith, omega arith, omega arith) in
    rw (put_uleb_loop-append 5 [] v)
      (env_uleb-Yields _ rest v count last false want_ov y (canonical_mark v count last ends) refl)

-- An overlong form ends in one more byte, which is 0.
abbrev ReadsOverlong : List ℕ → ℕ → ℕ → ℕ → ℕ → List ℕ → Type 0
ReadsOverlong src v sh n w rest = (count : ℕ) × Yields src v sh n w count 0 rest × (n + 1 < count)

ending_ReadsOverlong :
    (v sh n w : ℕ) (rest : List ℕ)
    → w < 128
    → sh < 28
    → v < 2 ^ sh
    → v + w * 2 ^ sh < 2 ^ 28
    → ReadsOverlong ((w % 128 + 128) ∷ 0 ∷ rest) v sh n w rest
ending_ReadsOverlong v sh n w rest small hs hv fits =
    let low : w % 128 ≡ w = omega arith in
    let none_above : w / 128 ≡ 0 = omega arith in
    let next = group_below v w sh hv in
    let total : v + w % 128 * 2 ^ sh < 2 ^ 28 = rw low fits in
    (
      n + 1 + 1,
      Yields-next v sh n w (n + 1 + 1) 0 (0 ∷ rest) rest hs hv (omega arith) (
          rw none_above (
            env_uleb_loop_last 0 _ (sh + 7) (n + 1) rest (omega arith) (ground arith) next
              (omega arith))),
      omega arith,
    )

room_left :
    (k v sh w : ℕ) → v + w * 2 ^ sh < 2 ^ 28 → sh + 7 * suc k ≡ 28 → w / 128 ≢ 0 → sh + 7 < 28
room_left zero v sh w h e big = absurd (big (top_small w v sh h (omega arith)))
room_left (suc k) v sh w h e big = omega arith

overlong_bytes-ReadsOverlong :
    (k v sh n w : ℕ) (rest : List ℕ)
    → sh < 28
    → Fits 28 (2 ^ 28) k v sh w
    → ReadsOverlong (overlong_bytes (suc k) w ++ (0 ∷ rest)) v sh n w rest
unfolding overlong_bytes
overlong_bytes-ReadsOverlong zero v sh n w rest hs (hv, fits, e) = absurd (omega arith)
overlong_bytes-ReadsOverlong (suc k) v sh n w rest hs (hv, fits, e) = elim (zero_or_not (w / 128)) [
  | inr small ↦
      let t : (w / 128 == 0) ≡ true = ground arith in
      rw t (ending_ReadsOverlong v sh n w rest (omega arith) hs hv fits)
  | inl big ↦
      let t : (w / 128 == 0) ≡ false = ground arith in
      let (count, y, long) =
        overlong_bytes-ReadsOverlong k (v + w % 128 * 2 ^ sh) (sh + 7) (n + 1) (w / 128) rest
          (room_left k v sh w fits e big) (Fits-next 28 (2 ^ 28) k v sh w (hv, fits, e)) in
      rw t (
        count,
        Yields-next v sh n w count 0 (overlong_bytes (suc k) (w / 128) ++ (0 ∷ rest)) rest hs hv
            (omega arith) y,
        omega arith,
      )
]

overlong_mark : (count : ℕ) → 1 < count → uleb_overlong count 0 ≡ true
unfolding uleb_overlong
overlong_mark count h = ground arith

-- A value below 2^28 that put_uleb_overlong wrote is read back with the overlong mark, by a reader
-- that wants the mark, and refused by one that does not.
pub env_uleb-put_uleb_overlong :
    (v : ℕ) (rest : List ℕ)
    → v < 2 ^ 28
    → (env_uleb (put_uleb_overlong [] v ++ rest) true ≡ some (v, true, rest))
      × (env_uleb (put_uleb_overlong [] v ++ rest) false ≡ none)
unfolding put_uleb_overlong env_uleb
env_uleb-put_uleb_overlong v rest h =
    let (count, y, long) =
      overlong_bytes-ReadsOverlong 4 0 0 0 v rest (omega arith)
        (omega arith, omega arith, omega arith) in
    let value : 0 + v * 1 ≡ v = omega arith in
    let mark : uleb_overlong count 0 ≡ true = overlong_mark count long in
    rw (put_uleb_overlong_loop-append 5 [] v, append_assoc (overlong_bytes 5 v) (0 ∷ []) rest, y)
      (rw mark (rw value refl, refl))
