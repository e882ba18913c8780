-- ===== src/Witness.antt =====
-- The theorems at concrete inputs.
mod Run
mod Apply
mod Plan
mod Tokens
use ultra_patch.Base.{
  ℕ, ◌^◌, ◌<◌, ◌≡◌, refl, Bool, true, false, List, [], ◌∷◌, ◌++◌, length, some, none, arith, ◌≤◌,
  ◌⊎◌, ◌/◌, ◌*◌, ◌+◌, ◌-◌, ◌%◌, ◌≢◌,
}
use ultra_patch.Base.Int.{ℤ, pos, negsuc, ◌-ℤ◌}
use ultra_patch.Base.Word.{IsI32}
use ultra_patch.Coder.Encoder.{re_init, re_flush_opt, code_bit, bitlen32}
use ultra_patch.Coder.Decoder.{rc_init}
use ultra_patch.Coder.RoundTrip.{
  Bound, scalar, tree, raw, encode_bits, decode_bits, IsUsable, decode_bits-re_flush_opt,
  re_init-IsReady,
}
use ultra_patch.Coder.Prob.{IsProb, Splits, adapt, IsByteProb, s_bit_rate, bt_adapt}
use ultra_patch.Coder.Codec.{Every}
use ultra_patch.Coder.Codec.Body.{ReadsBack}
use ultra_patch.Model.{AllByteProbs}
use ultra_patch.Model.Tree.{bt_init, s_bt, s_bt-IsByte}
use ultra_patch.Model.Golomb.{
  ugg_init, ugr_init, rice_feasible, ugg_mant_idx, ug_c, gamma_mant, ug_ctx,
}
use ultra_patch.Model.Golomb.Rice.{mant_idx_bounds}
use ultra_patch.Model.Codecs.{byte_codec, gamma_codec, rice_codec}
use ultra_patch.Delta.Cache.{DrStream, dr_init, dr_transition}
use ultra_patch.Delta.Stream.{DeltaModel}
use ultra_patch.Delta.Stream.Later.{IsDelta}
use ultra_patch.Body.{gamma_values, rice_values, tree_bytes, deltas, delta_codec}
use ultra_patch.Model.Init.{
  ugg_init-GammaProbs, ugr_init-RiceProbs, idx_init, IsPreKd, init_prekd, IsTok, init_tok,
  init_groups,
}
use ultra_patch.Delta.Cache.Transition.{
  Distinct, Repeats, dr_transition-Distinct, Hits, Misses, dr_transition-cases,
}
use ultra_patch.Wire.Uleb.{env_uleb, put_uleb, put_uleb_overlong, max_image}
use ultra_patch.Wire.Zigzag.{unzz32_value, zz32, zz_abs, unzz32_value-zz32, zz32-unzz32_value}
use ultra_patch.Envelope.{Geometry, emit_wire_blob, wire_from_crc, read_fields, fields}
use ultra_patch.Envelope.Put.{zz_abs-zz32}
use ultra_patch.Envelope.RoundTrip.{
  IsGeometry, sizes_of, walk_of, read_fields-emit_wire_blob, wire_from_crc_lem,
}
use ultra_patch.Coder.Renorm.{IsReady, code_bit-IsReady, Contains}
use ultra_patch.Model.Seed.{
  lit_seed_prob, rounded_ratio, lit_tree_from_hist, lit_seed_prob_lem,
  lit_tree_from_hist-IsByteProb,
}
use ultra_patch.Coder.Value.{IsBytes}
use ultra_patch.Delta.Escape.{s_bv_loop, s_bv_loop-rounds}
use ultra_patch.Wire.Uleb.RoundTrip.{env_uleb-put_uleb, env_uleb-put_uleb_overlong}
use ultra_patch.Coder.Prob.Bounds.{adapt-IsProb, bt_adapt-IsByteProb}
use ultra_patch.Coder.Bitlen.{IsTopBit, bitlen32-IsTopBit}
use ultra_patch.Coder.Flush.{re_flush_opt_lem}
use ultra_patch.Field.ShiftMap.{smap_at, last_value, smap_search, smap_at_lem}
use ultra_patch.Crc.Detects.{crc32_buf-one_byte}
use ultra_patch.Crc.{
  crc32_decode_default, crc32_buf, flash_bytes, crc32_loop, crc32_decode_default-crc32_buf,
  crc_bits,
}

-- A model of all three kinds of bounds: the kind depends on the bit before.
abbrev turns : List Bool → Bound
turns [] = raw
turns (true ∷ past) = scalar 3000
turns (false ∷ past) = tree 17

turns-IsUsable : (past : List Bool) → IsUsable (turns past)
turns-IsUsable [] = tt
turns-IsUsable (true ∷ past) = (omega arith, omega arith)
turns-IsUsable (false ∷ past) = (omega arith, omega arith)

abbrev some_bits : List Bool
some_bits = true ∷ true ∷ false ∷ true ∷ false ∷ []

abbrev trailer : List ℕ
trailer = 7 ∷ 9 ∷ []

decode_bits-re_flush_opt_example :
    (bytes : List ℕ) × (re_flush_opt (encode_bits turns [] re_init some_bits) ≡ 0 ∷ bytes)
    × ((decode_bits turns [] (rc_init (bytes ++ trailer) (length bytes)) 5).0 ≡ some_bits)
    × ((decode_bits turns [] (rc_init (bytes ++ trailer) (length bytes)) 5).1.rcerr ≡ false)
decode_bits-re_flush_opt_example = decode_bits-re_flush_opt turns turns-IsUsable some_bits trailer

abbrev values : List ℕ
values = 0 ∷ 5 ∷ 300 ∷ 0xffff_fffe ∷ []

values-Every : Every (λ v. v < 0xffff_ffff) values
unfolding Every
values-Every = (omega arith, (omega arith, (omega arith, (omega arith, tt))))

gamma_values_example : ReadsBack gamma_codec ugg_init values trailer
gamma_values_example = gamma_values ugg_init values trailer ugg_init-GammaProbs values-Every

abbrev words : List ℕ
words = 1 ∷ 9 ∷ 0x7f_ffff ∷ []

words-Every : Every (λ v. (v < 2 ^ 32) × (rice_feasible v 3 ≡ true)) words
unfolding Every rice_feasible
words-Every = ((omega arith, refl), ((omega arith, refl), ((omega arith, refl), tt)))

ugr_init-k : (ugr_init 3).k ≡ 3
unfolding ugr_init
ugr_init-k = refl

rice_values_example : ReadsBack (rice_codec 3) (ugr_init 3) words trailer
rice_values_example =
    rice_values 3 (ugr_init 3) words trailer (ugr_init-RiceProbs 3) ugr_init-k words-Every

abbrev octets : List ℕ
octets = 0 ∷ 0xe8 ∷ 0xff ∷ []

octets-Every : Every (λ v. v < 256) octets
unfolding Every
octets-Every = (omega arith, (omega arith, (omega arith, tt)))

bt_init-AllByteProbs : AllByteProbs bt_init
unfolding bt_init
bt_init-AllByteProbs i = (omega arith, omega arith)

tree_bytes_example : ReadsBack byte_codec bt_init octets trailer
tree_bytes_example = tree_bytes bt_init octets trailer bt_init-AllByteProbs octets-Every

abbrev fresh_stream : DrStream
fresh_stream = dr_init (λ i. pos 0)

abbrev fresh_deltas : DeltaModel
fresh_deltas = record { stream = fresh_stream; gix = idx_init; dval = bt_init }

fresh_deltas-IsDelta : IsDelta 152 fresh_deltas
unfolding dr_init idx_init
fresh_deltas-IsDelta = record {
  reps = λ i. (omega arith, omega arith);
  hits = (omega arith, omega arith);
  used = (omega arith, omega arith);
  indices = λ i. (omega arith, omega arith);
  escapes = bt_init-AllByteProbs;
}

-- A repeat, two escapes, a hit and the two ends of int32.
abbrev shifts : List ℤ
shifts = pos 0 ∷ negsuc 3 ∷ pos 128 ∷ negsuc 3 ∷ pos 0x7fff_ffff ∷ negsuc 0x7fff_ffff ∷ []

shifts-Every : Every IsI32 shifts
unfolding Every
shifts-Every =
    (omega arith, (omega arith, (omega arith, (omega arith, (omega arith, (omega arith, tt))))))

deltas_example : ReadsBack (delta_codec 152) fresh_deltas shifts trailer
deltas_example = deltas 152 fresh_deltas shifts trailer fresh_deltas-IsDelta shifts-Every

fresh_used : fresh_stream.k ≤ 152
unfolding dr_init
fresh_used = omega arith

one_entry-Distinct : Distinct fresh_stream.dic fresh_stream.k
unfolding Distinct dr_init
one_entry-Distinct i j hi hj e = omega arith

dr_transition-Distinct_example :
    Distinct
      (dr_transition 152 fresh_stream (pos 7)).2.dic
      (dr_transition 152 fresh_stream (pos 7)).2.k
    × ((dr_transition 152 fresh_stream (pos 7)).2.dic 0 ≡ pos 7)
dr_transition-Distinct_example =
    dr_transition-Distinct 152 fresh_stream (pos 7) fresh_used one_entry-Distinct

dr_transition-cases_example :
    Repeats 152 fresh_stream (pos 0)
    ⊎ (Hits 152 fresh_stream (pos 0) ⊎ Misses 152 fresh_stream (pos 0))
dr_transition-cases_example = dr_transition-cases 152 fresh_stream (pos 0)

env_uleb-put_uleb_example : env_uleb (put_uleb [] 300 ++ trailer) false ≡ some (300, false, trailer)
env_uleb-put_uleb_example = env_uleb-put_uleb 300 trailer false (omega arith)

env_uleb-put_uleb_overlong_example :
    (env_uleb (put_uleb_overlong [] 300 ++ trailer) true ≡ some (300, true, trailer))
    × (env_uleb (put_uleb_overlong [] 300 ++ trailer) false ≡ none)
env_uleb-put_uleb_overlong_example = env_uleb-put_uleb_overlong 300 trailer (omega arith)

zz_abs-zz32_example : zz_abs 4096 (zz32 (pos 1000 -ℤ pos 4096)) max_image ≡ some 1000
zz_abs-zz32_example = zz_abs-zz32 4096 1000 (omega arith) (omega arith)

-- A growing image, applied upwards: the unnatural direction.
abbrev grows : Geometry
grows = record {
  from_crc = 0xcbf4_3926;
  to_crc = 0xdead_beef;
  from_size = 1000;
  to_size = 1300;
  desc = false;
  fp_end = pos 900;
  fp_start = negsuc 15;
}

grows-IsGeometry : IsGeometry 4096 grows 900
grows-IsGeometry = record {
  from_crc = omega arith;
  to_crc = omega arith;
  from_size = omega arith;
  to_size = omega arith;
  span = omega arith;
  fp_end = (refl, omega arith);
  fp_start = omega arith;
}

read_fields-emit_wire_blob_example :
    (blob : List ℕ) × (emit_wire_blob grows (0 ∷ octets) ≡ some blob)
    × (read_fields 4096 (blob ++ trailer)
        ≡ fields (sizes_of grows) (walk_of grows 900 (length octets)) (octets ++ trailer))
read_fields-emit_wire_blob_example =
    read_fields-emit_wire_blob 4096 grows 900 octets trailer grows-IsGeometry (omega arith)

wire_from_crc_lem_example : wire_from_crc 0xcbf4_3926 ≡ 0xcbf4_3926 / 2 * 2 + (1 - 0xcbf4_3926 % 2)
wire_from_crc_lem_example = wire_from_crc_lem 0xcbf4_3926 (omega arith)

start_Splits : Splits 0x7fff_f000 re_init.range
unfolding re_init
start_Splits = (omega arith, omega arith)

code_bit-IsReady_example : IsReady (code_bit re_init 0x7fff_f000 true)
code_bit-IsReady_example = code_bit-IsReady re_init 0x7fff_f000 true re_init-IsReady start_Splits

re_flush_opt_lem_example :
    (bytes : List ℕ) × (re_flush_opt re_init ≡ 0 ∷ bytes) × IsBytes bytes × Contains bytes re_init
re_flush_opt_lem_example = re_flush_opt_lem re_init re_init-IsReady

lit_seed_prob_lem_example : lit_seed_prob 3 7 ≡ rounded_ratio 3 7
lit_seed_prob_lem_example = lit_seed_prob_lem 3 7 (omega arith) (omega arith)

lit_tree_from_hist-IsByteProb_example : IsByteProb (lit_tree_from_hist bt_init (λ i. 1) 254)
lit_tree_from_hist-IsByteProb_example =
    lit_tree_from_hist-IsByteProb bt_init (λ i. 1) 254 (omega arith)

s_bv_loop-rounds_example :
    s_bv_loop 101 bt_init (rc_init octets 3) 0 0 ≡ s_bv_loop 5 bt_init (rc_init octets 3) 0 0
s_bv_loop-rounds_example =
    s_bv_loop-rounds 4 100 0 bt_init (rc_init octets 3) 0 (omega arith) (omega arith)

mant_idx_bounds_example : (ugg_mant_idx (ug_c 31) 30 < gamma_mant) × (ug_c 40 < ug_ctx + 1)
mant_idx_bounds_example = mant_idx_bounds 31 30 40 (omega arith)

s_bt-IsByte_example : (s_bt bt_init (rc_init octets 3)).0 < 256
s_bt-IsByte_example = s_bt-IsByte bt_init (rc_init octets 3)

-- Boundaries 10, 110, 210 with the values 0, 8, 16.
smap_at_lem_example :
    smap_at (λ i. 100 * i + 10) (λ i. pos (8 * i)) 3 209
    ≡ last_value (λ i. 100 * i + 10) (λ i. pos (8 * i)) 3 209
smap_at_lem_example =
    smap_at_lem (λ i. 100 * i + 10) (λ i. pos (8 * i)) 3 209 (λ i j less inside. omega arith)

smap_at_209 : smap_at (λ i. 100 * i + 10) (λ i. pos (8 * i)) 3 209 ≡ pos 8
unfolding smap_at smap_search
smap_at_209 = refl

-- Seven bytes, of which the middle one is changed.
middle_differs : (let a : ℕ = 4 in a) ≢ 9
middle_differs e = absurd (omega arith)

crc32_buf-one_byte_example :
    crc32_buf ((1 ∷ 2 ∷ 3 ∷ []) ++ (4 ∷ 5 ∷ 6 ∷ 7 ∷ []))
    ≢ crc32_buf ((1 ∷ 2 ∷ 3 ∷ []) ++ (9 ∷ 5 ∷ 6 ∷ 7 ∷ []))
crc32_buf-one_byte_example =
    crc32_buf-one_byte (1 ∷ 2 ∷ 3 ∷ []) (5 ∷ 6 ∷ 7 ∷ []) 4 9
      (omega arith, (omega arith, (omega arith, tt)))
      (omega arith, (omega arith, (omega arith, tt))) (omega arith) (omega arith) middle_differs

crc32_decode_default-crc32_buf_example :
    crc32_decode_default (λ a. a % 256) 0x30 9 ≡ crc32_buf (flash_bytes (λ a. a % 256) 9 0x30 0)
crc32_decode_default-crc32_buf_example = crc32_decode_default-crc32_buf (λ a. a % 256) 0x30 9

-- The check value of the CRC, of the digits 1 to 9.
crc32_check_value :
    crc32_buf (0x31 ∷ 0x32 ∷ 0x33 ∷ 0x34 ∷ 0x35 ∷ 0x36 ∷ 0x37 ∷ 0x38 ∷ 0x39 ∷ []) ≡ 0xcbf4_3926
unfolding crc32_buf crc32_loop crc_bits
crc32_check_value = refl
