-- ===== src/Coder/Value.antt =====
-- The number that the encoder's state stands for: the bytes written, the pending ones and `low`, read
-- as one number in base 256. A shift multiplies it by 256, carries included.
use ultra_patch.Base.{
  ℕ, zero, suc, ◌+◌, ◌-◌, ◌*◌, ◌/◌, ◌%◌, ◌^◌, ◌≤◌, ◌<◌, ◌≡◌, refl, ap, ◌∙◌, ◌⊎◌, inl, inr, Bool,
  true, false, ◌||◌, List, [], ◌∷◌, ◌++◌, ltb, length, length-append, arith, Bool-cases, get_or,
  pow-suc,
}
use ultra_patch.Base.Word.{u8, u32}
use ultra_patch.Coder.Encoder.{REnc, put_pending, shift_low}

-- Big-endian bytes after the digits `a`.
unfoldable pub num_from : ℕ → List ℕ → ℕ
num_from a [] = a
num_from a (b ∷ bs) = num_from (a * 256 + b) bs

-- `m` bytes 0xff after the digits `a`.
unfoldable pub ones : ℕ → ℕ → ℕ
ones a zero = a
ones a (suc m) = ones (a * 256 + 255) m

pub num_from-append : (a : ℕ) (xs ys : List ℕ) → num_from a (xs ++ ys) ≡ num_from (num_from a xs) ys
unfolding num_from
num_from-append a [] ys = refl
num_from-append a (x ∷ xs) ys = num_from-append (a * 256 + x) xs ys

ones-suc : (a m : ℕ) → ones a (suc m) ≡ ones a m * 256 + 255
unfolding ones
ones-suc a zero = refl
ones-suc a (suc m) = ones-suc (a * 256 + 255) m

-- The digits that are settled up to a carry.
abbrev pub high : REnc → ℕ
high r = ones (num_from 0 r.out * 256 + r.cache) (r.csz - 1)

abbrev pub value : REnc → ℕ
value r = high r * 2 ^ 32 + r.low

-- The count of digits above `low`.
abbrev pub places : REnc → ℕ
places r = length r.out + r.csz

snoc : (out : List ℕ) (b : ℕ) → num_from 0 (out ++ (b ∷ [])) ≡ num_from 0 out * 256 + b
snoc out b = rw num_from-append (unfold num_from in refl)

put_pending_plain :
    (m : ℕ) (out : List ℕ) → num_from 0 (put_pending m 0xff 0 out) ≡ ones (num_from 0 out) m
unfolding put_pending ones
put_pending_plain zero out = refl
put_pending_plain (suc m) out =
    put_pending_plain m (out ++ (255 ∷ [])) ∙ ap (λ (t : ℕ). ones t m) (snoc out 255)

-- With a carry the pending bytes become zeros, and the digits before them go up by one.
put_pending_carry :
    (m x : ℕ) (out : List ℕ)
    → num_from 0 out ≡ x + 1
    → num_from 0 (put_pending m 0xff 1 out) ≡ ones x m + 1
unfolding put_pending ones
put_pending_carry zero x out e = e
put_pending_carry (suc m) x out e =
    put_pending_carry m (x * 256 + 255) (out ++ (0 ∷ [])) (omega (arith, snoc out 0))

length-put_pending :
    (m c carry : ℕ) (out : List ℕ) → length (put_pending m c carry out) ≡ length out + m
unfolding put_pending
length-put_pending zero c carry out = omega arith
length-put_pending (suc m) c carry out = omega (
  arith,
  length-put_pending m 255 carry (out ++ (u8 (c + carry) ∷ [])),
  length-append out (u8 (c + carry) ∷ []),
)

abbrev pub IsBytes : List ℕ → Type 0
IsBytes bytes = (k : ℕ) → get_or bytes k 0 < 256

snoc-IsBytes : (out : List ℕ) (b : ℕ) → b < 256 → IsBytes out → IsBytes (out ++ (b ∷ []))
snoc-IsBytes [] b hb h zero = hb
snoc-IsBytes [] b hb h (suc k) = omega arith
snoc-IsBytes (x ∷ xs) b hb h zero = h 0
snoc-IsBytes (x ∷ xs) b hb h (suc k) = snoc-IsBytes xs b hb (λ j. h (suc j)) k

put_pending-IsBytes :
    (m c carry : ℕ) (out : List ℕ) → IsBytes out → IsBytes (put_pending m c carry out)
unfolding put_pending
put_pending-IsBytes zero c carry out h = h
put_pending-IsBytes (suc m) c carry out h =
    put_pending-IsBytes m 255 carry _ (snoc-IsBytes out (u8 (c + carry)) (omega arith) h)

-- What keeps a carry inside the pending bytes.
pub record IsCoder (r : REnc) : Type 0 where
  pub pending : 0 < r.csz
  pub byte : r.cache < 256
  pub span : r.low + r.range ≤ 2 ^ 33
  pub room : (r.low + r.range ≤ 2 ^ 32) ⊎ (r.cache < 255)
  pub live : 0 < r.range
  pub bytes : IsBytes r.out
  pub bounded : value r + r.range ≤ 256 ^ (places r + 3)

put_all_pending :
    (csz c carry : ℕ) (out : List ℕ)
    → 0 < csz
    → c < 256
    → carry < 2
    → (carry ≡ 0) ⊎ (c < 255)
    → num_from 0 (put_pending csz c carry out) ≡ ones (num_from 0 out * 256 + c) (csz - 1) + carry
put_all_pending zero c carry out pos hc h2 ok = absurd (omega arith)
put_all_pending (suc m) c zero out pos hc h2 ok =
    let e : u8 (c + 0) ≡ c = omega arith in
    let f : suc m - 1 ≡ m = omega arith in
    unfold put_pending in rw (e, f, put_pending_plain m (out ++ (c ∷ [])), snoc out c) (omega arith)
put_all_pending (suc m) c (suc zero) out pos hc h2 ok =
    let e : u8 (c + 1) ≡ c + 1 = omega arith in
    let f : suc m - 1 ≡ m = omega arith in
    unfold put_pending in
    rw (e, f)
      (put_pending_carry m (num_from 0 out * 256 + c) (out ++ ((c + 1) ∷ []))
        (omega (arith, snoc out (c + 1))))
put_all_pending (suc m) c (suc (suc carry)) out pos hc h2 ok = absurd (omega arith)

-- One round of the renormalisation loop: the range, then the low end.
abbrev pub round : REnc → REnc
round r = shift_low (record r { range = u32 (r.range * 2 ^ 8) })

-- A round keeps the invariant, and multiplies the value and the range by 256.
pub record Rounded (r s : REnc) : Type 0 where
  pub keeps : IsCoder s
  pub low_end : s.low < 2 ^ 32
  pub scaled : value s ≡ value r * 256
  pub wider : s.range ≡ r.range * 256
  pub places_suc : places s ≡ places r + 1

flushing : ℕ → Bool
flushing low = ltb low 0xff00_0000 || ltb 0xffff_ffff low

carry_ok :
    (r : REnc) → IsCoder r → flushing r.low ≡ true → (u8 (r.low / 2 ^ 32) ≡ 0) ⊎ (r.cache < 255)
unfolding flushing
carry_ok r v f = elim v.room [ inr h ↦ inr h | inl h ↦ inl (let l = v.live in omega arith) ]

room_flushing :
    (low range : ℕ)
    → low + range ≤ 2 ^ 33
    → flushing low ≡ true
    → (low * 2 ^ 8 % 2 ^ 32 + u32 (range * 2 ^ 8) ≤ 2 ^ 32) ⊎ (u8 (low / 2 ^ 24) < 255)
unfolding flushing
room_flushing low range span f = elim (Bool-cases (ltb (u8 (low / 2 ^ 24)) 255)) [
  | inl h ↦ inr (ground arith)
  | inr h ↦ inl (ground arith)
]

bounded_suc :
    (v w v' w' p p' : ℕ)
    → v + w ≤ 256 ^ (p + 3)
    → v' ≡ v * 256
    → w' ≡ w * 256
    → p' ≡ p + 1
    → v' + w' ≤ 256 ^ (p' + 3)
bounded_suc v w v' w' p p' h e f g =
    let k : p' + 3 ≡ suc (p + 3) = omega arith in rw k (omega (arith, pow-suc 256 (p + 3)))

-- The cached byte goes out and the top byte of `low` takes its place.
flushing_step :
    (r : REnc) → IsCoder r → r.range < 2 ^ 24 → flushing r.low ≡ true → Rounded r (round r)
unfolding flushing shift_low
flushing_step r v small f =
    let total =
      put_all_pending r.csz r.cache (u8 (r.low / 2 ^ 32)) r.out v.pending v.byte (omega arith)
        (carry_ok r v f) in
    let sent = put_pending r.csz r.cache (u8 (r.low / 2 ^ 32)) r.out in
    let scaled : ones (num_from 0 sent * 256 + u8 (r.low / 2 ^ 24)) (1 - 1) * 2 ^ 32
          + r.low * 2 ^ 8 % 2 ^ 32
        ≡ value r * 256 =
      unfold ones in omega (arith, total) in
    let placed : length sent + 1 ≡ places r + 1 =
      omega (arith, length-put_pending r.csz r.cache (u8 (r.low / 2 ^ 32)) r.out) in
    let wider : u32 (r.range * 2 ^ 8) ≡ r.range * 256 = omega arith in
    rw f (record {
      keeps = record {
        bytes = put_pending-IsBytes r.csz r.cache _ r.out v.bytes;
        bounded = bounded_suc _ _ _ _ (places r) (length sent + 1) v.bounded scaled wider placed;
        pending = omega arith;
        byte = omega arith;
        span = omega arith;
        room = room_flushing r.low r.range v.span f;
        live = let l = v.live in omega arith;
      };
      low_end = omega arith;
      scaled = scaled;
      wider = wider;
      places_suc = placed;
    })

room_pending :
    (r : REnc)
    → IsCoder r
    → r.range < 2 ^ 24
    → flushing r.low ≡ false
    → (r.low * 2 ^ 8 % 2 ^ 32 + u32 (r.range * 2 ^ 8) ≤ 2 ^ 32) ⊎ (r.cache < 255)
unfolding flushing
room_pending r v small f = elim v.room [ inl h ↦ inl (ground arith) | inr h ↦ inr h ]

pending_scaled :
    (r : REnc)
    → IsCoder r
    → flushing r.low ≡ false
    → ones (num_from 0 r.out * 256 + r.cache) (r.csz + 1 - 1) * 2 ^ 32 + r.low * 2 ^ 8 % 2 ^ 32
      ≡ value r * 256
unfolding flushing
pending_scaled r v f =
    let e : r.csz + 1 - 1 ≡ suc (r.csz - 1) = let p = v.pending in omega arith in
    rw (e, ones-suc) (ground arith)

-- A top byte 0xff without a carry joins the pending bytes.
round_pending :
    (r : REnc) → IsCoder r → r.range < 2 ^ 24 → flushing r.low ≡ false → Rounded r (round r)
unfolding flushing shift_low
round_pending r v small f = rw f (record {
  keeps = record {
    bytes = v.bytes;
    bounded =
        bounded_suc (value r) r.range _ _ (places r) (length r.out + (r.csz + 1)) v.bounded
          (pending_scaled r v f) (omega arith) (omega arith);
    pending = omega arith;
    byte = v.byte;
    span = omega arith;
    room = room_pending r v small f;
    live = let l = v.live in omega arith;
  };
  low_end = omega arith;
  scaled = pending_scaled r v f;
  wider = omega arith;
  places_suc = omega arith;
})

-- Every round of the renormalisation loop is exact.
pub round-Rounded : (r : REnc) → IsCoder r → r.range < 2 ^ 24 → Rounded r (round r)
round-Rounded r v small = elim (Bool-cases (flushing r.low)) [
  | inl f ↦ flushing_step r v small f
  | inr f ↦ round_pending r v small f
]
