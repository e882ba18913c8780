-- ===== src/Coder/Renorm.antt =====
-- Coding one bit keeps the encoder's invariant and narrows the interval of values that the final
-- bytes may have.
use ultra_patch.Base.{
  ℕ, zero, suc, ◌+◌, ◌*◌, ◌^◌, ◌≤◌, ◌<◌, ◌≡◌, inl, inr, Bool, true, false, List, get_or, arith,
  Bool-cases, ltb, ap, pow-suc,
}
use ultra_patch.Coder.Prob.{ktop, Splits}
use ultra_patch.Coder.Encoder.{REnc, narrow, renorm, renorm_rounds, code_bit}
use ultra_patch.Coder.Value.{value, places, IsCoder, Rounded, round-Rounded, round, IsBytes}

-- The encoder between two bits.
pub record IsReady (r : REnc) : Type 0 where
  pub coder : IsCoder r
  pub wide : ktop ≤ r.range
  pub word : r.range < 2 ^ 32

-- The number that the first `k` bytes of `bytes` spell, zeros following the last.
unfoldable pub prefix : List ℕ → ℕ → ℕ
prefix bytes zero = 0
prefix bytes (suc k) = prefix bytes k * 256 + get_or bytes k 0

-- The bytes spell a number in the interval of the state.
abbrev pub Contains : List ℕ → REnc → Type 0
Contains bytes r =
    (value r ≤ prefix bytes (places r + 3)) × (prefix bytes (places r + 3) < value r + r.range)

pub narrow-IsCoder :
    (r : REnc) (bound : ℕ) (bit : Bool)
    → IsReady r
    → Splits bound r.range
    → IsCoder (narrow r bound bit)
unfolding narrow
narrow-IsCoder r bound false v s = record {
  pending = v.coder.pending;
  bytes = v.coder.bytes;
  bounded = let b = v.coder.bounded in let w = v.word in omega arith;
  byte = v.coder.byte;
  span = let h = v.coder.span in omega arith;
  room = elim v.coder.room [ inl h ↦ inl (omega arith) | inr h ↦ inr h ];
  live = s.0;
}
narrow-IsCoder r bound true v s = record {
  pending = v.coder.pending;
  bytes = v.coder.bytes;
  bounded = let b = v.coder.bounded in let w = v.word in omega arith;
  byte = v.coder.byte;
  span = let h = v.coder.span in let w = v.word in omega arith;
  room = let w = v.word in elim v.coder.room [ inl h ↦ inl (omega arith) | inr h ↦ inr h ];
  live = let w = v.word in omega arith;
}

-- The interval before a round holds what the interval after it holds.
pub Contains-round :
    (bytes : List ℕ) (r s : REnc)
    → IsBytes bytes
    → Rounded r s
    → Contains bytes s
    → Contains bytes r
unfolding prefix
Contains-round bytes r s hb q c =
    let p = q.places_suc in
    let e : places s + 3 ≡ suc (places r + 3) = omega arith in
    let (lo, hi) = rw e at c in
    let b = hb (places r + 3) in let sc = q.scaled in let w = q.wider in (omega arith, omega arith)

pub Contains-narrow :
    (bytes : List ℕ) (r : REnc) (bound : ℕ) (bit : Bool)
    → IsReady r
    → Splits bound r.range
    → Contains bytes (narrow r bound bit)
    → Contains bytes r
unfolding narrow
Contains-narrow bytes r bound false v s c = (c.0, omega arith)
Contains-narrow bytes r bound true v s c = let w = v.word in (omega arith, omega arith)

-- What the loop does to a state that needs `k` rounds at most.
pub record Renormed (r s : REnc) : Type 0 where
  pub ready : IsReady s
  pub back : (bytes : List ℕ) → IsBytes bytes → Contains bytes s → Contains bytes r

pub renorm-Renormed :
    (k : ℕ) (r : REnc)
    → IsCoder r
    → r.range < 2 ^ 32
    → ktop ≤ r.range * 256 ^ k
    → Renormed r (renorm k r)
unfolding renorm
renorm-Renormed zero r v w h = record {
  ready = record { coder = v; wide = omega arith; word = w };
  back = λ bytes hb c. c;
}
renorm-Renormed (suc k) r v w h = elim (Bool-cases (ltb r.range ktop)) [
  | inr big ↦ rw big (record {
    ready = record { coder = v; wide = ground arith; word = w };
    back = λ bytes hb c. c;
  })
  | inl small ↦
      let below : r.range < 2 ^ 24 = ground arith in
      let q = round-Rounded r v below in
      let wider = q.wider in
      let rest =
        renorm-Renormed k (round r) q.keeps (omega arith)
          (rw wider (omega (arith, ap (λ (t : ℕ). r.range * t) (pow-suc 256 k)))) in
      rw small (record {
        ready = rest.ready;
        back = λ bytes hb c. Contains-round bytes r (round r) hb q (rest.back bytes hb c);
      })
]

pub narrow-range :
    (r : REnc) (bound : ℕ) (bit : Bool)
    → IsReady r
    → Splits bound r.range
    → (narrow r bound bit).range < 2 ^ 32
unfolding narrow
narrow-range r bound false v s = let w = v.word in omega arith
narrow-range r bound true v s = omega arith

pub enough_rounds : (r : REnc) → IsCoder r → ktop ≤ r.range * 256 ^ renorm_rounds
enough_rounds r v = let l = v.live in omega arith

pub code_bit-Renormed :
    (r : REnc) (bound : ℕ) (bit : Bool)
    → IsReady r
    → Splits bound r.range
    → Renormed (narrow r bound bit) (code_bit r bound bit)
unfolding code_bit
code_bit-Renormed r bound bit v s =
    let c = narrow-IsCoder r bound bit v s in
    renorm-Renormed 3 (narrow r bound bit) c (narrow-range r bound bit v s) (enough_rounds _ c)

-- After every coded bit the encoder is between two bits again: the loop of three rounds is long
-- enough, and no carry is lost.
pub code_bit-IsReady :
    (r : REnc) (bound : ℕ) (bit : Bool)
    → IsReady r
    → Splits bound r.range
    → IsReady (code_bit r bound bit)
code_bit-IsReady r bound bit v s = (code_bit-Renormed r bound bit v s).ready

pub Contains-code_bit :
    (bytes : List ℕ) (r : REnc) (bound : ℕ) (bit : Bool)
    → IsBytes bytes
    → IsReady r
    → Splits bound r.range
    → Contains bytes (code_bit r bound bit)
    → Contains bytes (narrow r bound bit) × Contains bytes r
Contains-code_bit bytes r bound bit hb v s c =
    let n = (code_bit-Renormed r bound bit v s).back bytes hb c in
    (n, Contains-narrow bytes r bound bit v s n)
