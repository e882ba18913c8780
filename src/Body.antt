-- ===== src/Body.antt =====
-- Runs of symbols from the start of a body to its flush, as emit_body of src/enc_emit.c makes them,
-- read by the routines of src/patch_apply.h.
use ultra_patch.Base.{ℕ, ◌^◌, ◌<◌, ◌≡◌, true, List}
use ultra_patch.Base.Int.{ℤ}
use ultra_patch.Base.Word.{IsI32}
use ultra_patch.Coder.Codec.{Codec, Every}
use ultra_patch.Coder.Codec.Body.{ReadsBack, read_body}
use ultra_patch.Model.{AllByteProbs}
use ultra_patch.Model.Golomb.{UgGamma, UgRice, rice_feasible}
use ultra_patch.Model.Golomb.RoundTrip.{GammaProbs}
use ultra_patch.Model.Golomb.Rice.{RiceProbs}
use ultra_patch.Model.Codecs.{byte_codec, gamma_codec, rice_codec}
use ultra_patch.Delta.Stream.{DeltaModel, delta_encode, pull_delta}
use ultra_patch.Delta.Stream.Later.{IsDelta, delta_encode-Later}
use ultra_patch.Delta.Stream.RoundTrip.{pull_delta-delta_encode}

-- For every usable Gamma model, every list of values below 2^32 - 1 and whatever follows the body: the
-- values coded one after the other and flushed make a zero byte and counted bytes, from which the
-- reader gets back exactly these values without an error.
pub gamma_values :
    (m : UgGamma) (vs : List ℕ) (more : List ℕ)
    → GammaProbs m
    → Every (λ v. v < 0xffff_ffff) vs
    → ReadsBack gamma_codec m vs more
gamma_values m vs more g f = read_body gamma_codec m vs more f g

-- For every usable Rice model with parameter k, every list of 32-bit words that are feasible for k and
-- whatever follows the body: the reader gets back exactly these words, without an error, from the
-- flushed body.
pub rice_values :
    (k : ℕ) (m : UgRice) (vs : List ℕ) (more : List ℕ)
    → RiceProbs m
    → m.k ≡ k
    → Every (λ v. (v < 2 ^ 32) × (rice_feasible v k ≡ true)) vs
    → ReadsBack (rice_codec k) m vs more
rice_values k m vs more g e f = read_body (rice_codec k) m vs more f (g, e)

-- For every usable byte tree, every list of bytes and whatever follows the body: the reader gets back
-- exactly these bytes, without an error, from the flushed body.
pub tree_bytes :
    (t : ℕ → ℕ) (vs : List ℕ) (more : List ℕ)
    → AllByteProbs t
    → Every (λ v. v < 256) vs
    → ReadsBack byte_codec t vs more
tree_bytes t vs more g f = read_body byte_codec t vs more f g

-- One stream of relocation deltas with a cache of `cap` entries.
abbrev pub delta_codec : ℕ → Codec ℤ DeltaModel
delta_codec cap = record {
  put = delta_encode cap;
  take = pull_delta cap;
  Good = IsDelta cap;
  Fits = IsI32;
  advances = λ m r v _f ready g. delta_encode-Later cap m r v ready g;
  returns = λ bytes more hb m r d v f ready g c t.
      pull_delta-delta_encode bytes more hb cap m r d v f ready g c t;
}

-- For every capacity of the cache, every stream with usable models and between one and that many
-- entries in use, every list of int32 deltas and whatever follows the body: the reader gets back
-- exactly these deltas, without an error, from the flushed body.
pub deltas :
    (cap : ℕ) (m : DeltaModel) (vs : List ℤ) (more : List ℕ)
    → IsDelta cap m
    → Every IsI32 vs
    → ReadsBack (delta_codec cap) m vs more
deltas cap m vs more g f = read_body (delta_codec cap) m vs more f g
