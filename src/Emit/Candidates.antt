-- ===== src/Emit/Candidates.antt =====
-- The candidates of the shift map: smap_build_full of src/enc_field.c, with opwalk_build of
-- src/enc_util.c and field_inj_key of src/enc_internal.h. qsort of the C library is a parameter for
-- each of the two orders.
pub mod Ascending
use ultra_patch.Base.{
  ℕ, zero, suc, ◌+◌, ◌-◌, ◌*◌, ◌^◌, Bool, true, false, ◌&&◌, ◌||◌, not, List, [], ◌∷◌, ◌++◌, Option,
  none, some, ltb, leb, ◌==◌, if◌then◌else◌, length, take, max,
}
use ultra_patch.Base.Int.{ℤ, pos, negsuc, ◌+ℤ◌, ◌-ℤ◌}
use ultra_patch.Base.Word.{sub32, to_u32}
use ultra_patch.Delta.Cache.{eq_ℤ}
use ultra_patch.Wire.Zigzag.{i32_from_u32}
use ultra_patch.Plan.{PlanOp}

-- OpWalkEnt: an operation and the cursors at its start.
pub record OpWalkEnt : Type 0 where
  pub tp : ℕ
  pub fp : ℤ
  pub op : PlanOp

unfoldable pub opwalk_loop : List PlanOp → ℕ → ℤ → List OpWalkEnt
opwalk_loop [] tp fp = []
opwalk_loop (o ∷ ops) tp fp =
    record { tp = tp; fp = fp; op = o }
    ∷ opwalk_loop ops (tp + (o.diff_len + o.extra_len)) (fp +ℤ pos o.diff_len +ℤ o.adj)

unfoldable pub opwalk_build : List PlanOp → ℤ → List OpWalkEnt
unfolding opwalk_loop
opwalk_build ops fp_start = opwalk_loop ops 0 fp_start

-- FieldInj, of which `ex` is the test for EV_EX.
pub record FieldInj : Type 0 where
  pub cc : ℕ
  pub ex : Bool
  pub k1 : ℕ
  pub need : ℤ
  pub k2 : ℕ

unfoldable pub reverse_onto : List FieldInj → List FieldInj → List FieldInj
reverse_onto [] out = out
reverse_onto (x ∷ xs) out = reverse_onto xs (x ∷ out)

-- The arena in the order of its keys.
unfoldable pub field_inj_keys : List FieldInj → Bool → List FieldInj
unfolding reverse_onto
field_inj_keys inj fwd = if fwd then inj else reverse_onto inj []

pub record SegCand : Type 0 where
  pub b : ℕ
  pub v : ℤ
  pub w : ℕ
  pub ord : ℕ

pub record SegRank : Type 0 where
  pub w : ℕ
  pub ord : ℕ

-- (x > y) - (x < y)
abbrev pub three_way : ℕ → ℕ → ℤ
three_way x y = if ltb y x then pos 1 else if ltb x y then negsuc 0 else pos 0

unfoldable pub cmp_seg : SegCand → SegCand → ℤ
cmp_seg x y = if not (x.b == y.b) then three_way x.b y.b else three_way x.ord y.ord

unfoldable pub cmp_seg_rank : SegRank → SegRank → ℤ
cmp_seg_rank x y = if not (x.w == y.w) then three_way x.w y.w else three_way x.ord y.ord

-- INT32_MIN
abbrev pub int32_min : ℤ
int32_min = negsuc (2 ^ 31 - 1)

-- One entry, when its copy is not empty and begins inside the source.
abbrev pub copy_cand : ℕ → ℕ → ℤ → ℕ → Option SegCand
copy_cand dl tp (negsuc n) ord = none
copy_cand dl tp (pos fp) ord =
    if ltb 0 dl then some (record { b = fp; v = pos tp -ℤ pos fp; w = dl; ord = ord }) else none

abbrev pub with_cand : Option SegCand → (ℕ → List SegCand) → ℕ → List SegCand
with_cand none later ord = later ord
with_cand (some c) later ord = c ∷ later (ord + 1)

-- Candidates from the copies, `ord` being the count of those before.
unfoldable pub op_cands : List OpWalkEnt → ℕ → List SegCand
op_cands [] ord = []
op_cands (e ∷ walk) ord = with_cand (copy_cand e.op.diff_len e.tp e.fp ord) (op_cands walk) ord

-- Literal fields, except one whose inverse the wire cannot carry.
unfoldable pub ex_cands : List FieldInj → ℕ → List SegCand
ex_cands [] en = []
ex_cands (f ∷ fs) en =
    let use_it = f.ex && not (eq_ℤ f.need int32_min) in
    let c : SegCand = record {
      b = f.k2;
      v = i32_from_u32 (sub32 0 (to_u32 f.need));
      w = 0;
      ord = en;
    } in
    let rest = ex_cands fs (if use_it then en + 1 else en) in if use_it then c ∷ rest else rest

-- A run of `n` neighbours with the value `v`, which began at `b`, and those behind it.
unfoldable pub value_run : ℕ → ℤ → ℕ → List SegCand → ℕ → List SegCand
value_run b v n [] ord = record { b = b; v = v; w = n; ord = ord } ∷ []
value_run b v n (y ∷ ys) ord =
    let same = eq_ℤ y.v v in
    let rest =
      value_run (if same then b else y.b) (if same then v else y.v) (if same then n + 1 else 1) ys
        (if same then ord else ord + 1) in
    if same then rest else record { b = b; v = v; w = n; ord = ord } ∷ rest

-- Each run of one value becomes a candidate, whose weight is its length.
unfoldable pub value_runs : List SegCand → ℕ → List SegCand
unfolding value_run
value_runs [] ord = []
value_runs (x ∷ xs) ord = value_run x.b x.v 1 xs ord

-- The places of the lightest candidates.
unfoldable pub ranks : List SegCand → ℕ → List SegRank
ranks [] i = []
ranks (c ∷ pool) i = record { w = c.w; ord = i } ∷ ranks pool (i + 1)

unfoldable pub is_dropped : List SegRank → ℕ → Bool
is_dropped [] i = false
is_dropped (r ∷ rs) i = r.ord == i || is_dropped rs i

unfoldable pub kept_from : List SegRank → List SegCand → ℕ → List SegCand
kept_from drop [] i = []
kept_from drop (c ∷ pool) i =
    let rest = kept_from drop pool (i + 1) in if is_dropped drop i then rest else c ∷ rest

-- An entry of the map.
pub record Entry : Type 0 where
  pub b : ℕ
  pub v : ℤ

-- Adjacent candidates with one boundary give one entry with the later value; the map has its last
-- entry first.
unfoldable pub dedupe : List Entry → List SegCand → List Entry
dedupe out [] = out
dedupe [] (c ∷ cs) = dedupe (record { b = c.b; v = c.v } ∷ []) cs
dedupe (e ∷ out) (c ∷ cs) =
    let n : Entry = record { b = c.b; v = c.v } in
    dedupe (if e.b == c.b then record e { v = c.v } ∷ out else n ∷ e ∷ out) cs

module _ (sort_seg : List SegCand → List SegCand) (sort_rank : List SegRank → List SegRank) where
  -- At most SMAP_POOL_MAX candidates stay.
  unfoldable pub smap_pretrim : List SegCand → List SegCand
  unfolding ranks kept_from
  smap_pretrim pool =
      let drop = take (length pool - 160) (sort_rank (ranks pool 0)) in
      if leb (length pool) 160 then pool else kept_from drop pool 0

  unfoldable pub smap_build_full : List PlanOp → ℤ → ℕ → ℕ → List FieldInj → Bool → List Entry
  unfolding opwalk_build op_cands ex_cands value_runs smap_pretrim dedupe field_inj_keys
  smap_build_full ops fp_start from_size to_size inj fwd =
      let copies = op_cands (opwalk_build ops fp_start) 0 in
      let n = length copies in
      let end : SegCand = record {
        b = max from_size to_size;
        v = pos 0;
        w = 0x7fff_ffff;
        ord = n;
      } in
      let ex = ex_cands (field_inj_keys inj fwd) 0 in
      let runs = if length ex == 0 then [] else value_runs (sort_seg ex) (n + 1) in
      dedupe [] (sort_seg (smap_pretrim (copies ++ end ∷ runs)))
