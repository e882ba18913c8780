-- ===== src/Coder/Flush.antt =====
-- The flush spells a number of the interval, and the decoder starts in step with the encoder.
use ultra_patch.Base.{
  ℕ, zero, suc, ◌+◌, ◌-◌, ◌*◌, ◌%◌, ◌^◌, ◌≤◌, ◌<◌, ◌≡◌, refl, ap, ◌∙◌, inl, inr, true, List, [],
  ◌∷◌, ◌++◌, ltb, ◌==◌, length, get_or, take, drop, arith, Bool-cases, pow-suc, ◌||◌, ◌≢◌,
}
use ultra_patch.Coder.Encoder.{
  REnc, shift_low, round_low, shift_times, trim_zeros, re_flush_opt, bitlen32,
}
use ultra_patch.Coder.Value.{IsBytes, num_from, ones, value, places, IsCoder, round-Rounded}
use ultra_patch.Coder.Renorm.{IsReady, prefix, Contains}
use ultra_patch.Coder.Prefix.{
  SameBytes, prefix-ext, prefix-cons, num_from-zero, trim_zeros-SameBytes, take_drop-SameBytes,
  SameBytes-IsBytes,
}
use ultra_patch.Coder.Bitlen.{round_low_lem}

-- A shift does not look at the range.
shift_low-range :
    (r : REnc) (x : ℕ) → shift_low (record r { range = x }) ≡ record (shift_low r) { range = x }
unfolding shift_low
shift_low-range r x = elim (Bool-cases (ltb r.low 0xff00_0000 || ltb 0xffff_ffff r.low)) [
  | inl e ↦ rw e
  | inr e ↦ rw e
]

-- The encoder without a claim on the range.
abbrev IsLow : REnc → Type 0
IsLow r = IsCoder (record r { range = 1 })

record Shifted (r s : REnc) : Type 0 where
  keeps : IsLow s
  scaled : value s ≡ value r * 256
  places_suc : places s ≡ places r + 1

IsCoder-narrower :
    (r : REnc) (x y : ℕ)
    → 0 < x
    → x ≤ y
    → IsCoder (record r { range = y })
    → IsCoder (record r { range = x })
IsCoder-narrower r x y pos h v = record {
  pending = v.pending;
  byte = v.byte;
  bytes = v.bytes;
  bounded = let b = v.bounded in omega arith;
  span = let s = v.span in omega arith;
  room = elim v.room [ inl k ↦ inl (omega arith) | inr k ↦ inr k ];
  live = pos;
}

shift_low-Shifted : (r : REnc) → IsLow r → Shifted r (shift_low r)
shift_low-Shifted r v =
    let q =
      rw (shift_low-range r 256) at (round-Rounded (record r { range = 1 }) v (omega arith)) in
    record {
      keeps = IsCoder-narrower (shift_low r) 1 256 (omega arith) (omega arith) q.keeps;
      scaled = q.scaled;
      places_suc = q.places_suc;
    }

low-shift_low : (r : REnc) → (shift_low r).low ≡ r.low * 2 ^ 8 % 2 ^ 32
unfolding shift_low
low-shift_low r = elim (Bool-cases (ltb r.low 0xff00_0000 || ltb 0xffff_ffff r.low)) [
  | inl e ↦ rw e
  | inr e ↦ rw e
]

-- With an empty `low` a shift sends all that is pending.
Settled : REnc → Type 0
Settled r = (r.low ≡ 0) × (r.cache ≡ 0) × (r.csz ≡ 1)

shift_low-Settled : (r : REnc) → r.low ≡ 0 → Settled (shift_low r)
unfolding shift_low Settled
shift_low-Settled r e = rw e (refl, refl, refl)

shift_times-Shifted :
    (n : ℕ) (r : REnc)
    → IsLow r
    → IsLow (shift_times n r)
      × (value (shift_times n r) ≡ value r * 256 ^ n)
      × (places (shift_times n r) ≡ places r + n)
unfolding shift_times
shift_times-Shifted zero r v = (v, omega arith, omega arith)
shift_times-Shifted (suc n) r v =
    let q = shift_low-Shifted r v in
    let (keeps, scaled, moved) = shift_times-Shifted n (shift_low r) q.keeps in
    let s = q.scaled in
    let p = q.places_suc in
    (
      keeps,
      omega (arith, ap (λ (t : ℕ). t * 256 ^ n) s, ap (λ (t : ℕ). value r * t) (pow-suc 256 n)),
      omega arith,
    )

five_shifts-Settled : (r : REnc) → r.low % 2 ^ 24 ≡ 0 → Settled (shift_times 5 r)
unfolding shift_times Settled
five_shifts-Settled r e =
    let l1 : (shift_low r).low ≡ 0 = omega (arith, low-shift_low r) in
    let l2 = (shift_low-Settled (shift_low r) l1).0 in
    let l3 = (shift_low-Settled _ l2).0 in
    let l4 = (shift_low-Settled _ l3).0 in shift_low-Settled _ l4

-- Five shifts send the whole value, when its 24 lowest bits are 0.
five_shifts_out :
    (r : REnc)
    → IsLow r
    → r.low % 2 ^ 24 ≡ 0
    → (num_from 0 (shift_times 5 r).out ≡ value r) × (length (shift_times 5 r).out ≡ places r + 4)
unfolding Settled
five_shifts_out r v e =
    let (keeps, scaled, moved) = shift_times-Shifted 5 r v in
    let (low, cache, csz) = five_shifts-Settled r e in
    let all : value (shift_times 5 r) ≡ num_from 0 (shift_times 5 r).out * 2 ^ 40 =
      rw (low, cache, csz) (unfold ones in omega arith) in
    (omega arith, omega arith)

shift_times-IsBytes : (n : ℕ) (r : REnc) → IsLow r → IsBytes (shift_times n r).out
shift_times-IsBytes n r v = (shift_times-Shifted n r v).0.bytes

-- Rounding changes nothing but `low`.
round_low-record : (r : REnc) → round_low r ≡ record r { low = (round_low r).low }
unfolding round_low
round_low-record r = elim (Bool-cases (r.low % 2 ^ (bitlen32 r.range - 1) == 0)) [
  | inl e ↦ rw e
  | inr e ↦ rw e
]

IsLow-round_low :
    (r : REnc)
    → IsReady r
    → IsLow (round_low r)
      × (value r ≤ value (round_low r))
      × (value (round_low r) < value r + r.range)
IsLow-round_low r v =
    let (up, near, whole) = round_low_lem r v.wide v.word in
    let b = v.coder.bounded in
    let s = v.coder.span in
    rw (round_low-record r) (
      record {
        pending = v.coder.pending;
        byte = v.coder.byte;
        bytes = v.coder.bytes;
        span = omega arith;
        room = elim v.coder.room [ inl h ↦ inl (omega arith) | inr h ↦ inr h ];
        live = omega arith;
        bounded = omega arith;
      },
      omega arith,
      omega arith,
    )

places-round_low : (r : REnc) → places (round_low r) ≡ places r
places-round_low r = rw (round_low-record r)

-- The body reads like the bytes before the zeros were trimmed, and is never empty.
re_flush_opt-SameBytes :
    (r : REnc)
    → SameBytes (re_flush_opt r) (shift_times 5 (round_low r)).out × (length (re_flush_opt r) ≢ 0)
unfolding re_flush_opt
re_flush_opt-SameBytes r = elim (Bool-cases (length d == 0)) [
  | inl empty ↦ rw empty ((λ k. zero_byte k ∙ rw (nil_of d empty) at (same k)), omega arith)
  | inr some_left ↦ rw some_left (same, ground arith)
]
  where
    full : List ℕ
    full = (shift_times 5 (round_low r)).out

    d : List ℕ
    d = take (length r.out) full ++ trim_zeros (drop (length r.out) full)

    same : SameBytes d full
    same =
        take_drop-SameBytes (length r.out) full _ (trim_zeros-SameBytes (drop (length r.out) full))

    zero_byte : (k : ℕ) → get_or (0 ∷ []) k 0 ≡ get_or {A = ℕ} [] k 0
    zero_byte zero = refl
    zero_byte (suc k) = refl

    nil_of : (xs : List ℕ) → (length xs == 0) ≡ true → xs ≡ []
    nil_of [] h = refl
    nil_of (x ∷ xs) h = absurd (ground arith)

-- A number below 256^n in n + 1 bytes begins with a zero byte.
leading_zero :
    (body : List ℕ) (n v : ℕ)
    → length body ≢ 0
    → prefix body (suc n) ≡ v
    → v < 256 ^ n
    → (bytes : List ℕ) × (body ≡ 0 ∷ bytes) × (prefix bytes n ≡ v)
leading_zero [] n v ne e h = absurd (ne refl)
leading_zero (zero ∷ bytes) n v ne e h = (bytes, refl, omega (arith, prefix-cons 0 bytes n))
leading_zero (suc b ∷ bytes) n v ne e h =
    absurd (
      let m : 256 ^ n ≤ suc b * 256 ^ n = grind arith in omega (arith, prefix-cons (suc b) bytes n))

tail_IsBytes : (body bytes : List ℕ) → body ≡ 0 ∷ bytes → IsBytes body → IsBytes bytes
tail_IsBytes body bytes e h k = rw e at (h (suc k))

-- The flushed body is a zero byte, which the envelope drops, and bytes that lie in the interval of
-- the state.
pub re_flush_opt_lem :
    (r : REnc)
    → IsReady r
    → (bytes : List ℕ) × (re_flush_opt r ≡ 0 ∷ bytes) × IsBytes bytes × Contains bytes r
re_flush_opt_lem r v =
    let (low, lo, hi) = IsLow-round_low r v in
    let (same, nonempty) = re_flush_opt-SameBytes r in
    let (sum, len) = five_shifts_out (round_low r) low (round_low_lem r v.wide v.word).2 in
    let full = (shift_times 5 (round_low r)).out in
    let placed = places-round_low r in
    let bound = v.coder.bounded in
    let count : length full ≡ suc (places r + 3) = omega arith in
    let spelled : prefix (re_flush_opt r) (suc (places r + 3)) ≡ value (round_low r) =
      rw (prefix-ext _ full _ same, ← count, ← num_from-zero) sum in
    let (bytes, e, total) =
      leading_zero (re_flush_opt r) (places r + 3) _ nonempty spelled (omega arith) in
    (
      bytes,
      e,
      (λ k.
          tail_IsBytes _ bytes e
            (SameBytes-IsBytes _ full same (shift_times-IsBytes 5 (round_low r) low)) k),
      rw total (lo, hi),
    )
