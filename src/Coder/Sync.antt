-- ===== src/Coder/Sync.antt =====
-- The decoder in step with the encoder: equal ranges, and a code that is the distance of the bytes
-- from the encoder's value.
use ultra_patch.Base.{
  ℕ, zero, suc, ◌+◌, ◌-◌, ◌*◌, ◌^◌, ◌≤◌, ◌<◌, ◌≡◌, refl, sym, ap, inl, inr, Bool, true, false, List,
  [], ◌∷◌, ◌++◌, ltb, ◌==◌, length, get_or, drop, arith, Bool-cases, bit_or, pow-suc,
}
use ultra_patch.Base.Bits.{bit_or_low}
use ultra_patch.Base.Word.{u32}
use ultra_patch.Coder.Prob.{ktop, Splits}
use ultra_patch.Coder.Encoder.{REnc, narrow, renorm, code_bit}
use ultra_patch.Coder.Decoder.{
  RangeDec, pull_body, next_byte, refill, refill_round, renorm_dec, choose, rc_decode,
}
use ultra_patch.Coder.Value.{IsBytes, value, places, IsCoder, round, round-Rounded}
use ultra_patch.Coder.Renorm.{
  IsReady, prefix, Contains, Contains-round, Contains-code_bit, narrow-IsCoder, renorm-Renormed,
  narrow-range, enough_rounds,
}

-- After `k` bytes of `bytes`, `more` following them in the source, no error being set.
pub record Supplies (bytes more : List ℕ) (k : ℕ) (d : RangeDec) : Type 0 where
  pub counted : d.body_left ≡ length bytes - k
  pub source : d.src ≡ drop k bytes ++ more
  pub clean : d.rcerr ≡ false

drop-past : (bytes : List ℕ) (k : ℕ) → length bytes - k ≡ 0 → drop k bytes ≡ []
drop-past [] zero h = refl
drop-past [] (suc k) h = refl
drop-past (b ∷ bs) zero h = absurd (omega arith)
drop-past (b ∷ bs) (suc k) h = drop-past bs k (omega arith)

get_or-past : (bytes : List ℕ) (k : ℕ) → length bytes - k ≡ 0 → get_or bytes k 0 ≡ 0
get_or-past [] k h = refl
get_or-past (b ∷ bs) zero h = absurd (omega arith)
get_or-past (b ∷ bs) (suc k) h = get_or-past bs k (omega arith)

drop-cons :
    (bytes : List ℕ) (k : ℕ)
    → 0 < length bytes - k
    → drop k bytes ≡ get_or bytes k 0 ∷ drop (suc k) bytes
drop-cons [] k h = absurd (omega arith)
drop-cons (b ∷ bs) zero h = refl
drop-cons (b ∷ bs) (suc k) h = drop-cons bs k (omega arith)

-- A byte of the body, or a padding zero; the range and the code are left alone.
pub record Read (bytes more : List ℕ) (k : ℕ) (d : RangeDec) (r : ℕ × RangeDec) : Type 0 where
  pub byte : r.0 ≡ get_or bytes k 0
  pub supplies : Supplies bytes more (suc k) r.1
  pub same_code : r.1.code ≡ d.code
  pub same_range : r.1.range ≡ d.range

pub next_byte-Read :
    (bytes more : List ℕ) (k : ℕ) (d : RangeDec)
    → Supplies bytes more k d
    → Read bytes more k d (next_byte d)
unfolding next_byte
next_byte-Read bytes more k d s = elim (Bool-cases (d.body_left == 0)) [
  | inl empty ↦
      let c = s.counted in
      let e : length bytes - k ≡ 0 = ground arith in
      let e' : length bytes - suc k ≡ 0 = omega arith in
      rw empty (record {
        byte = sym (get_or-past bytes k e);
        supplies = record {
          counted = ground arith;
          source = rw (s.source, drop-past bytes k e, drop-past bytes (suc k) e');
          clean = s.clean;
        };
        same_code = refl;
        same_range = refl;
      })
  | inr some_left ↦
      let c = s.counted in
      let e : 0 < length bytes - k = ground arith in
      let src : d.src ≡ get_or bytes k 0 ∷ (drop (suc k) bytes ++ more) =
        rw (s.source, drop-cons bytes k e) in
      rw (some_left, src, pull_body)
        (record {
          byte = refl;
          supplies = record { counted = omega arith; source = refl; clean = s.clean };
          same_code = refl;
          same_range = refl;
        })
]

pub record Tracks (bytes more : List ℕ) (r : REnc) (d : RangeDec) : Type 0 where
  pub same_range : d.range ≡ r.range
  pub distance : d.code + value r ≡ prefix bytes (places r + 3)
  pub supplies : Supplies bytes more (places r + 3) d

-- The decoder makes the choice that the encoder coded, if the bytes lie in the part that it kept.
choose-Tracks :
    (bytes more : List ℕ) (r : REnc) (d : RangeDec) (bound : ℕ) (bit : Bool)
    → IsReady r
    → Splits bound r.range
    → Tracks bytes more r d
    → Contains bytes (narrow r bound bit)
    → ((choose d bound).0 ≡ bit) × Tracks bytes more (narrow r bound bit) (choose d bound).1
unfolding choose narrow
choose-Tracks bytes more r d bound false v s t c =
    let dist = t.distance in
    let small : ltb d.code bound ≡ true = ground arith in
    rw small (
      refl,
      record {
        same_range = refl;
        distance = dist;
        supplies = record {
          counted = t.supplies.counted;
          source = t.supplies.source;
          clean = t.supplies.clean;
        };
      },
    )
choose-Tracks bytes more r d bound true v s t c =
    let dist = t.distance in
    let big : ltb d.code bound ≡ false = ground arith in
    let above : bound ≤ d.code = ground arith in
    rw big (
      refl,
      record {
        same_range = rw t.same_range;
        distance = omega arith;
        supplies = record {
          counted = t.supplies.counted;
          source = t.supplies.source;
          clean = t.supplies.clean;
        };
      },
    )

pub refill_code :
    (code b : ℕ) → code < 2 ^ 24 → b < 256 → bit_or (u32 (code * 2 ^ 8)) b ≡ code * 256 + b
refill_code code b h hb =
    let e : u32 (code * 2 ^ 8) ≡ code * 2 ^ 8 = omega arith in rw e (bit_or_low 8 code b hb)

-- One round on both sides.
refill_round-Tracks :
    (bytes more : List ℕ) (r : REnc) (d : RangeDec)
    → IsBytes bytes
    → IsCoder r
    → r.range < 2 ^ 24
    → Contains bytes r
    → Tracks bytes more r d
    → Tracks bytes more (round r) (refill_round d)
unfolding refill_round refill
refill_round-Tracks bytes more r d hb v small c t =
    let q = round-Rounded r v small in
    let n = next_byte-Read bytes more (places r + 3) d t.supplies in
    let dist = t.distance in
    let p = q.places_suc in
    let k : places (round r) + 3 ≡ suc (places r + 3) = omega arith in
    record {
      same_range = let w = q.wider in rw (n.same_range, t.same_range, w) (omega arith);
      distance =
          rw
            (
              k,
              n.byte,
              refill_code d.code (get_or bytes (places r + 3) 0) (omega arith) (hb _),
              q.scaled,
            )
            (unfold prefix in omega arith);
      supplies =
          let u = n.supplies in
          rw k (record { counted = u.counted; source = u.source; clean = u.clean });
    }

-- Both loops make the same rounds.
renorm_dec-Tracks :
    (k : ℕ) (bytes more : List ℕ) (r : REnc) (d : RangeDec)
    → IsBytes bytes
    → IsCoder r
    → r.range < 2 ^ 32
    → ktop ≤ r.range * 256 ^ k
    → Contains bytes (renorm k r)
    → Tracks bytes more r d
    → Tracks bytes more (renorm k r) (renorm_dec k d)
unfolding renorm renorm_dec
renorm_dec-Tracks zero bytes more r d hb v w h c t = t
renorm_dec-Tracks (suc k) bytes more r d hb v w h c t = elim (Bool-cases (ltb r.range ktop)) [
  | inr big ↦ let big' : ltb d.range ktop ≡ false = rw t.same_range big in rw (big, big') t
  | inl small ↦
      let small' : ltb d.range ktop ≡ true = rw t.same_range small in
      let below : r.range < 2 ^ 24 = ground arith in
      let q = round-Rounded r v below in
      let wider = q.wider in
      let enough : ktop ≤ (round r).range * 256 ^ k =
        rw wider (omega (arith, ap (λ (t : ℕ). r.range * t) (pow-suc 256 k))) in
      let word : (round r).range < 2 ^ 32 = omega arith in
      let c' : Contains bytes (renorm k (round r)) = rw small at c in
      let back = (renorm-Renormed k (round r) q.keeps word enough).back bytes hb c' in
      let t' =
        refill_round-Tracks bytes more r d hb v below (Contains-round bytes r (round r) hb q back)
          t in
      rw (small, small')
        (renorm_dec-Tracks k bytes more (round r) (refill_round d) hb q.keeps word enough c' t')
]

-- The decoder returns the bit that the encoder coded at the same bound and stays in step with it,
-- for every byte string in the interval of the encoder's next state.
pub rc_decode-code_bit :
    (bytes more : List ℕ) (r : REnc) (d : RangeDec) (bound : ℕ) (bit : Bool)
    → IsBytes bytes
    → IsReady r
    → Splits bound r.range
    → Contains bytes (code_bit r bound bit)
    → Tracks bytes more r d
    → ((rc_decode d bound).0 ≡ bit) × Tracks bytes more (code_bit r bound bit) (rc_decode d bound).1
unfolding rc_decode code_bit
rc_decode-code_bit bytes more r d bound bit hb v s c t =
    let inside = (Contains-code_bit bytes r bound bit hb v s c).0 in
    let (b, t') = choose-Tracks bytes more r d bound bit v s t inside in
    let v' = narrow-IsCoder r bound bit v s in
    (
      b,
      renorm_dec-Tracks 3 bytes more (narrow r bound bit) (choose d bound).1 hb v'
          (narrow-range r bound bit v s) (enough_rounds _ v') c t',
    )
