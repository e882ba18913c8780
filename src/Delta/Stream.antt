-- ===== src/Delta/Stream.antt =====
-- One delta of a stream: delta_xfer in its encoding mode (src/enc_emit.c) and up_pull_delta
-- (src/patch_apply.h).
pub mod Later
pub mod RoundTrip
use ultra_patch.Base.{
  ℕ, zero, suc, ◌+◌, ◌-◌, ◌*◌, ◌/◌, ◌%◌, ◌^◌, ◌≤◌, ◌<◌, Bool, true, false, leb, if◌then◌else◌,
}
use ultra_patch.Base.Int.{ℤ, pos}
use ultra_patch.Coder.Prob.{s_bit_rate}
use ultra_patch.Coder.Encoder.{REnc, re_bit}
use ultra_patch.Coder.Decoder.{RangeDec, s_bit_r}
use ultra_patch.Model.{bit_value}
use ultra_patch.Model.Unary.{put_at, take_at, unary_encode, s_unary}
use ultra_patch.Delta.Escape.{bv_encode, s_bv}
use ultra_patch.Delta.Cache.{
  DrStream, DrTrans, rep_tr, hit_tr, esc_tr, died, dr_transition, dr_rep_ctx, mtf_promote_i32,
  mtf_insert_i32,
}

-- A stream (DR_BL or DR_EX), its index priors (dibl or diex) and the tree of the escape bytes (dval).
pub record DeltaModel : Type 0 where
  pub stream : DrStream
  pub gix : ℕ → ℕ
  pub dval : ℕ → ℕ

-- UP_IDX_CTX - 1
abbrev pub idx_clamp : ℕ
idx_clamp = 4

unfoldable pub hit_encode : DeltaModel → REnc → ℕ → REnc × DeltaModel
hit_encode m r idx =
    let (r', hit) = re_bit r m.stream.hit true s_bit_rate in
    let (r'', u) = unary_encode m.gix idx_clamp r' idx in
    (r'', record m { stream = record (m.stream) { hit = hit }; gix = u })

unfoldable pub esc_encode : DeltaModel → REnc → ℤ → REnc × DeltaModel
esc_encode m r delta =
    let (r', hit) = re_bit r m.stream.hit false s_bit_rate in
    let (r'', t) = bv_encode m.dval r' delta in
    (r'', record m { stream = record (m.stream) { hit = hit }; dval = t })

-- The coding of a transition out of context `ri`.
unfoldable pub trans_encode : DeltaModel → REnc → ℤ → ℕ → DrTrans → REnc × DeltaModel
trans_encode m r delta ri rep_tr =
    let (r', rep) = put_at m.stream.rep ri r true in
    (r', record m { stream = record (m.stream) { rep = rep } })
trans_encode m r delta ri (hit_tr idx) =
    let (r', rep) = put_at m.stream.rep ri r false in
    hit_encode (record m { stream = record (m.stream) { rep = rep } }) r' idx
trans_encode m r delta ri esc_tr =
    let (r', rep) = put_at m.stream.rep ri r false in
    esc_encode (record m { stream = record (m.stream) { rep = rep } }) r' delta
trans_encode m r delta ri died = (r, m)

unfoldable pub delta_encode : ℕ → DeltaModel → REnc → ℤ → REnc × DeltaModel
delta_encode cap m r delta =
    let (ri, t, s) = dr_transition cap m.stream delta in
    trans_encode (record m { stream = s }) r delta ri t

-- The reader after the repeat bit: a cache hit, and an escape.
unfoldable pub pull_hit : ℕ → DeltaModel → RangeDec → ℤ × DeltaModel × RangeDec
pull_hit cap m d =
    let (idx, u, d') = s_unary m.gix idx_clamp cap d in
    let j = idx + 1 in
    let s = m.stream in
    if leb s.k j
    then (pos 0, record m { gix = u }, record d' { rcerr = true })
    else (s.dic j, record m { gix = u; stream = record s { dic = mtf_promote_i32 s.dic j } }, d')

unfoldable pub pull_escape : ℕ → DeltaModel → RangeDec → ℤ × DeltaModel × RangeDec
pull_escape cap m d =
    let (v, t, d') = s_bv m.dval d in
    let s = m.stream in
    let (k, dic) = mtf_insert_i32 s.dic s.k cap v in
    (v, record m { dval = t; stream = record s { k = k; dic = dic } }, d')

unfoldable pub pull_fresh : ℕ → DeltaModel → RangeDec → ℤ × DeltaModel × RangeDec
pull_fresh cap m d =
    let (hb, hit, d') = s_bit_r d m.stream.hit s_bit_rate in
    let m' : DeltaModel = record m { stream = record (m.stream) { hit = hit } } in
    if hb then pull_hit cap m' d' else pull_escape cap m' d'

unfoldable pub pull_delta : ℕ → DeltaModel → RangeDec → ℤ × DeltaModel × RangeDec
unfolding dr_rep_ctx
pull_delta cap m d =
    let s = m.stream in
    let (rb, rep, d') = take_at s.rep (dr_rep_ctx s.rh (s.dic 0)) d in
    let m' : DeltaModel = record m { stream = record s { rep = rep; rh = bit_value rb } } in
    if rb then (s.dic 0, m', d') else pull_fresh cap m' d'
