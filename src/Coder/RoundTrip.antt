-- ===== src/Coder/RoundTrip.antt =====
-- Whole runs of the coder: any sequence of bits, at probabilities that the caller chooses as it goes,
-- comes back from the flushed bytes.
use ultra_patch.Base.{
  ℕ, zero, suc, ◌*◌, ◌/◌, ◌^◌, ◌≤◌, ◌<◌, ◌≡◌, refl, sym, ap, ◌∙◌, Bool, false, List, [], ◌∷◌, ◌++◌,
  length, get_or, arith, inl, pow-suc, subst,
}
use ultra_patch.Coder.Encoder.{REnc, re_init, re_flush_opt, code_bit}
use ultra_patch.Coder.Decoder.{RangeDec, refill, refill_times, rc_init, rc_decode}
use ultra_patch.Coder.Value.{IsBytes, num_from, ones}
use ultra_patch.Coder.Renorm.{IsReady, Contains, prefix}
use ultra_patch.Coder.Sync.{Tracks, Supplies, next_byte-Read, refill_code}
use ultra_patch.Coder.Prob.{prob_bound, IsProb, ktop, IsByteProb, Splits}
use ultra_patch.Coder.Step.{Later, code_bit-Later, Later-refl, code_bit-Returns, Later-trans}
use ultra_patch.Coder.Prob.Bounds.{prob_bound-Splits, tree_bound-Splits, raw_bound-Splits}
use ultra_patch.Coder.Flush.{re_flush_opt_lem}

-- The encoder starts between two bits, with the value 0 in the whole interval.
pub re_init-IsReady : IsReady re_init
unfolding re_init ones num_from
re_init-IsReady = record {
  coder = record {
    pending = omega arith;
    byte = omega arith;
    span = omega arith;
    room = inl (omega arith);
    live = omega arith;
    bytes = none_yet;
    bounded = omega arith;
  };
  wide = omega arith;
  word = omega arith;
}
  where
    none_yet : IsBytes []
    none_yet k = omega arith

-- `n` bytes read, with the code that they spell.
record Filled (bytes more : List ℕ) (n : ℕ) (d : RangeDec) : Type 0 where
  code : d.code ≡ prefix bytes n
  supplies : Supplies bytes more n d
  range : d.range ≡ 0xffff_ffff

refill-Filled :
    (bytes more : List ℕ) (n : ℕ) (d : RangeDec)
    → IsBytes bytes
    → prefix bytes n < 2 ^ 24
    → Filled bytes more n d
    → Filled bytes more (suc n) (refill d)
unfolding refill
refill-Filled bytes more n d hb small f =
    let q = next_byte-Read bytes more n d f.supplies in
    let e = f.code in
    record {
      code =
          rw (q.byte, refill_code d.code (get_or bytes n 0) (omega arith) (hb n), e)
            (unfold prefix in refl);
      supplies =
          let u = q.supplies in record { counted = u.counted; source = u.source; clean = u.clean };
      range = q.same_range ∙ f.range;
    }

prefix-lt : (bytes : List ℕ) (n : ℕ) → IsBytes bytes → prefix bytes n < 256 ^ n
unfolding prefix
prefix-lt bytes zero hb = omega arith
prefix-lt bytes (suc n) hb = let b = hb n in omega (arith, prefix-lt bytes n hb, pow-suc 256 n)

refill_four :
    (bytes more : List ℕ) (d : RangeDec)
    → IsBytes bytes
    → Filled bytes more 0 d
    → Filled bytes more 4 (refill_times 4 d)
unfolding refill_times
refill_four bytes more d hb f0 =
    let f1 = refill-Filled bytes more 0 d hb (omega (arith, prefix-lt bytes 0 hb)) f0 in
    let f2 = refill-Filled bytes more 1 _ hb (omega (arith, prefix-lt bytes 1 hb)) f1 in
    let f3 = refill-Filled bytes more 2 _ hb (omega (arith, prefix-lt bytes 2 hb)) f2 in
    refill-Filled bytes more 3 _ hb (prefix-lt bytes 3 hb) f3

rc_init-Filled :
    (bytes more : List ℕ)
    → IsBytes bytes
    → Filled bytes more 4 (rc_init (bytes ++ more) (length bytes))
unfolding rc_init
rc_init-Filled bytes more hb = refill_four bytes more _ hb (record {
  code = unfold prefix in refl;
  supplies = record { counted = omega arith; source = refl; clean = refl };
  range = refl;
})

-- The four bytes that the decoder starts with put it in step with a fresh encoder.
pub rc_init-Tracks :
    (bytes more : List ℕ)
    → IsBytes bytes
    → Tracks bytes more re_init (rc_init (bytes ++ more) (length bytes))
unfolding re_init ones num_from
rc_init-Tracks bytes more hb =
    let f = rc_init-Filled bytes more hb in
    record {
      same_range = f.range;
      distance = let e = f.code in omega arith;
      supplies =
          let u = f.supplies in record { counted = u.counted; source = u.source; clean = u.clean };
    }

-- The three ways in which the program bounds a bit.
pub data Bound : Type 0 where
  scalar : ℕ → Bound
  tree : ℕ → Bound
  raw : Bound

unfoldable pub bound_at : Bound → ℕ → ℕ
bound_at (scalar p) range = prob_bound range p
bound_at (tree p) range = range / 2 ^ 8 * p
bound_at raw range = range / 2

abbrev pub IsUsable : Bound → Type 0
IsUsable (scalar p) = IsProb p
IsUsable (tree p) = IsByteProb p
IsUsable raw = Unit {0}

bound_at-Splits :
    (b : Bound) (range : ℕ) → ktop ≤ range → IsUsable b → Splits (bound_at b range) range
unfolding bound_at
bound_at-Splits (scalar p) range h u = prob_bound-Splits range p h u
bound_at-Splits (tree p) range h u = tree_bound-Splits range p h u
bound_at-Splits raw range h u = raw_bound-Splits range h

-- Bits coded one after the other; the model chooses each bound from the bits before it.
module _ (model : List Bool → Bound) where
  unfoldable pub encode_bits : List Bool → REnc → List Bool → REnc
  encode_bits past r [] = r
  encode_bits past r (b ∷ bits) =
      encode_bits (b ∷ past) (code_bit r (bound_at (model past) r.range) b) bits

  unfoldable pub decode_bits : List Bool → RangeDec → ℕ → List Bool × RangeDec
  decode_bits past d zero = ([], d)
  decode_bits past d (suc n) =
      let (b, d') = rc_decode d (bound_at (model past) d.range) in
      let (bits, d'') = decode_bits (b ∷ past) d' n in (b ∷ bits, d'')

  module _ (usable : (past : List Bool) → IsUsable (model past)) where
    encode_bits-Later :
        (past : List Bool) (r : REnc) (bits : List Bool)
        → IsReady r
        → Later r (encode_bits past r bits)
    unfolding encode_bits
    encode_bits-Later past r [] v = Later-refl r v
    encode_bits-Later past r (b ∷ bits) v =
        let l =
          code_bit-Later r _ b v (bound_at-Splits (model past) r.range v.wide (usable past)) in
        Later-trans l (encode_bits-Later (b ∷ past) _ bits l.ready)

    decode_bits-encode_bits :
        (bytes more : List ℕ) (past : List Bool) (r : REnc) (d : RangeDec) (bits : List Bool)
        → IsBytes bytes
        → IsReady r
        → Contains bytes (encode_bits past r bits)
        → Tracks bytes more r d
        → ((decode_bits past d (length bits)).0 ≡ bits)
          × Tracks bytes more (encode_bits past r bits) (decode_bits past d (length bits)).1
    unfolding encode_bits decode_bits
    decode_bits-encode_bits bytes more past r d [] hb v c t = (refl, t)
    decode_bits-encode_bits bytes more past r d (b ∷ bits) hb v c t =
        let l =
          code_bit-Later r _ b v (bound_at-Splits (model past) r.range v.wide (usable past)) in
        let c' = (encode_bits-Later (b ∷ past) _ bits l.ready).back bytes hb c in
        let (e, t') =
          code_bit-Returns bytes more hb r d (bound_at (model past) r.range)
            (bound_at (model past) d.range) b v
            (bound_at-Splits (model past) r.range v.wide (usable past))
            (ap (λ (x : ℕ). bound_at (model past) x) t.same_range) c' t in
        let d' = (rc_decode d (bound_at (model past) d.range)).1 in
        let s = encode_bits (b ∷ past) (code_bit r (bound_at (model past) r.range) b) bits in
        let ih = decode_bits-encode_bits bytes more (b ∷ past) _ d' bits hb l.ready c t' in
        subst
          (λ x.
            ((x ∷ (decode_bits (x ∷ past) d' (length bits)).0) ≡ b ∷ bits)
            × Tracks bytes more s (decode_bits (x ∷ past) d' (length bits)).1)
          (sym e) (ap (λ (t : List Bool). b ∷ t) ih.0, ih.1)

    -- For every model of usable probabilities, every run of bits and whatever follows the body: the
    -- flushed body is a zero byte, which is not sent, and counted bytes from which the decoder,
    -- choosing its bounds by the same model, returns exactly these bits without an error.
    pub decode_bits-re_flush_opt :
        (bits : List Bool) (more : List ℕ)
        → (bytes : List ℕ) × (re_flush_opt (encode_bits [] re_init bits) ≡ 0 ∷ bytes)
          × ((decode_bits [] (rc_init (bytes ++ more) (length bytes)) (length bits)).0 ≡ bits)
          × ((decode_bits [] (rc_init (bytes ++ more) (length bytes)) (length bits)).1.rcerr
              ≡ false)
    decode_bits-re_flush_opt bits more =
        let final = encode_bits [] re_init bits in
        let ready = (encode_bits-Later [] re_init bits re_init-IsReady).ready in
        let (bytes, e, hb, c) = re_flush_opt_lem final ready in
        let start = rc_init-Tracks bytes more hb in
        let (same, t) =
          decode_bits-encode_bits bytes more [] re_init _ bits hb re_init-IsReady c start in
        (bytes, e, same, t.supplies.clean)
