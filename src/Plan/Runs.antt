-- ===== src/Plan/Runs.antt =====
-- split_nonzero_diff_runs of src/enc_field.c: dense runs of differing bytes become extra bytes with an
-- equal skip of the source where that is estimated to be cheaper. Estimates are 64-bit sums of code
-- lengths in the source, far below 2^64, and plain numbers here.
pub mod Picks
pub mod Walk
use ultra_patch.Base.{
  ℕ, zero, suc, ◌+◌, ◌-◌, ◌*◌, ◌/◌, ◌%◌, ◌^◌, Bool, true, false, ◌&&◌, ◌||◌, not, List, [], ◌∷◌,
  ◌++◌, Option, none, some, ltb, leb, ◌==◌, if◌then◌else◌, get_or, length,
}
use ultra_patch.Base.Int.{ℤ, pos, negsuc, ◌+ℤ◌}
use ultra_patch.Base.Word.{u8, u32, sub32}
use ultra_patch.Model.{update}
use ultra_patch.Coder.Encoder.{bitlen32}
use ultra_patch.Wire.Zigzag.{zz32}
use ultra_patch.Emit.{Image, op_diff_byte}
use ultra_patch.Plan.{PlanOp, run_end}

-- The length of the Gamma code of x + 1.
unfoldable pub dz_bits_u32 : ℕ → ℕ
dz_bits_u32 x = let n = bitlen32 (u32 (x + 1)) in 2 * bitlen32 n - 1 + n - 1

-- A round for each seven bits of a word.
unfoldable pub uleb_proxy_loop : ℕ → ℕ → (ℕ → ℕ) → ℕ
uleb_proxy_loop zero v l0 = 0
uleb_proxy_loop (suc fuel) v l0 =
    let more = l0 (v % 2 ^ 7 + 2 ^ 7) + uleb_proxy_loop fuel (v / 2 ^ 7) l0 in
    if v / 2 ^ 7 == 0 then l0 (v % 2 ^ 7) else more

unfoldable pub uleb_proxy_bits : ℕ → (ℕ → ℕ) → ℕ
unfolding uleb_proxy_loop
uleb_proxy_bits v l0 = uleb_proxy_loop 5 v l0

unfoldable pub extra_proxy_bits : (ℕ → ℕ) → ℕ → ℕ → (ℕ → ℕ) → (ℕ → ℕ) → ℕ
extra_proxy_bits to abs_begin zero l0 l1 = 0
extra_proxy_bits to abs_begin (suc len) l0 l1 =
    let rest = extra_proxy_bits to (abs_begin + 1) len l0 l1 in
    (if abs_begin % 2 == 1 then l1 (to abs_begin) else l0 (to abs_begin)) + rest

-- A run of differing bytes of a copy.
pub record Run : Type 0 where
  pub begin : ℕ
  pub end : ℕ

-- The runs from `scan` on; each round passes a byte at least.
unfoldable pub find_runs : ℕ → (ℕ → ℕ) → ℕ → ℕ → List Run
find_runs zero diff dl scan = []
find_runs (suc fuel) diff dl scan =
    let b = run_end (λ k. diff k == 0) (dl - scan) scan in
    let e = run_end (λ k. not (diff k == 0)) (dl - (b + 1)) (b + 1) in
    let rest = find_runs fuel diff dl e in
    if ltb b dl then record { begin = b; end = e } ∷ rest else []

abbrev pub run_at : List Run → ℕ → Run
run_at runs i = get_or runs i (record { begin = 0; end = 0 })

-- The start of the segment after `p` runs.
abbrev pub seg_at : List Run → ℕ → ℕ
seg_at runs zero = 0
seg_at runs (suc p) = (run_at runs p).end

-- SplitScratch: the prefix sums `w`, `gp` and `cnt`, the prices `x`, and for each start the best price
-- `e` with the first run to take, `ft`, none for -1.
pub record SplitScratch : Type 0 where
  pub w : ℕ → ℕ
  pub gp : ℕ → ℕ
  pub cnt : ℕ → ℕ
  pub x : ℕ → ℕ
  pub e : ℕ → ℕ
  pub ft : ℕ → Option ℕ

-- What the bytes from `k` on cost as literals.
unfoldable pub literal_bits : (ℕ → ℕ) → (ℕ → ℕ) → ℕ → ℕ → ℕ
literal_bits diff l0 zero k = 0
literal_bits diff l0 (suc left) k = l0 (diff k) + literal_bits diff l0 left (k + 1)

-- The prices of one operation, whose copy starts at `tp` and has the bytes `diff`.
module _ (l0 l1 : ℕ → ℕ) (to : ℕ → ℕ) (diff : ℕ → ℕ) (tp : ℕ) (runs : List Run) where
  -- The entries for run `j`.
  unfoldable pub add_run : SplitScratch → ℕ → SplitScratch
  unfolding literal_bits
  add_run sc j =
      let r = run_at runs j in
      let w =
        literal_bits diff l0 (r.end - r.begin) r.begin
        + (r.end - r.begin - 1) * uleb_proxy_bits 1 l0 in
      let gap = uleb_proxy_bits (r.begin - (run_at runs (j - 1)).end + 1) l0 in
      record sc {
        w = update sc.w (j + 1) (sc.w j + w);
        cnt = update sc.cnt (j + 1) (u32 (sc.cnt j + (r.end - r.begin)));
        gp = if ltb 0 j then update sc.gp j (sc.gp (j - 1) + gap) else sc.gp;
        x = update sc.x j (extra_proxy_bits to (tp + r.begin) (r.end - r.begin) l0 l1);
      }

  unfoldable pub add_runs : ℕ → ℕ → SplitScratch → SplitScratch
  add_runs zero j sc = sc
  add_runs (suc left) j sc = add_runs left (j + 1) (add_run sc j)

  unfoldable pub prefix_sums : SplitScratch
  unfolding add_runs add_run
  prefix_sums =
      add_runs (length runs) 0
        (record { w = λ i. 0; gp = λ i. 0; cnt = λ i. 0; x = λ i. 0; e = λ i. 0; ft = λ i. none })

-- The choice among the runs of one operation.
module _ (l0 l1 : ℕ → ℕ) (fwd : Bool) (runs : List Run) where
  unfoldable pub split_diff_bits : SplitScratch → ℕ → ℕ → ℕ → ℕ → ℕ
  split_diff_bits sc p e endpos seg =
      let gap =
        if fwd
        then uleb_proxy_bits ((run_at runs p).begin - seg) l0
        else uleb_proxy_bits (endpos - (run_at runs (e - 1)).end + 1) l0 in
      let more = gap + (sc.w e - sc.w p) + (sc.gp (e - 1) - sc.gp p) in
      uleb_proxy_bits (sub32 (sc.cnt e) (sc.cnt p)) l0 + (if ltb p e then more else 0)

  -- The price of taking run `s` out of a segment that starts after `p` runs.
  unfoldable pub take_bits : SplitScratch → ℕ → ℕ → ℕ
  unfolding split_diff_bits
  take_bits sc p s =
      let r = run_at runs s in
      let seg = seg_at runs p in
      let len = r.end - r.begin in
      dz_bits_u32 (r.begin - seg)
      + dz_bits_u32 len
      + dz_bits_u32 (zz32 (pos len))
      + 2
      + split_diff_bits sc p s r.begin seg
      + sc.x s
      + sc.e (s + 1)

  -- The scan down over the runs p + left - 1 to p, with the best price and the run taken for it. A
  -- split has to gain more than SPLIT_GAIN_MARGIN_BITS.
  unfoldable pub choose_loop : SplitScratch → ℕ → ℕ → ℕ → Option ℕ → ℕ × Option ℕ
  unfolding take_bits
  choose_loop sc p zero v take = (v, take)
  choose_loop sc p (suc left) v take =
      let c = take_bits sc p (p + left) in
      let better = ltb (c + 8) v in
      choose_loop sc p left (if better then c else v) (if better then some (p + left) else take)

  module _ (o : PlanOp) (xf : ℕ) where
    unfoldable pub choose_run : SplitScratch → ℕ → SplitScratch
    unfolding choose_loop
    choose_run sc p =
        let n = length runs in
        let seg = seg_at runs p in
        let v =
          dz_bits_u32 (o.diff_len - seg)
          + dz_bits_u32 o.extra_len
          + dz_bits_u32 (zz32 o.adj)
          + 2
          + split_diff_bits sc p n o.diff_len seg
          + xf in
        let (e, take) = choose_loop sc p (n - p) v none in
        record sc { e = update sc.e p e; ft = update sc.ft p take }

    -- The starts after `left` runs down to 0.
    unfoldable pub choose_runs : ℕ → SplitScratch → SplitScratch
    unfolding choose_run
    choose_runs zero sc = sc
    choose_runs (suc left) sc = choose_runs left (choose_run sc left)

-- Run `s` after the first `p`, and the operations of the runs taken with where the last one ends. Each
-- round passes a run at least.
abbrev pub with_run : List Run → ℕ → ℕ → List PlanOp × ℕ → List PlanOp × ℕ
with_run runs p s (ops, seg) =
    let r = run_at runs s in
    let len = r.end - r.begin in
    (record { diff_len = r.begin - seg_at runs p; extra_len = len; adj = pos len } ∷ ops, seg)

abbrev pub take_run : List Run → ℕ → Option ℕ → (ℕ → List PlanOp × ℕ) → List PlanOp × ℕ
take_run runs p none later = ([], seg_at runs p)
take_run runs p (some s) later = with_run runs p s (later (s + 1))

unfoldable pub taken : ℕ → (ℕ → Option ℕ) → List Run → ℕ → List PlanOp × ℕ
taken zero ft runs p = ([], seg_at runs p)
taken (suc fuel) ft runs p = take_run runs p (ft p) (taken fuel ft runs)

abbrev pub is_zero : ℤ → Bool
is_zero (pos n) = n == 0
is_zero (negsuc n) = false

-- What is left of the operation.
unfoldable pub split_tail : PlanOp → List PlanOp × ℕ → List PlanOp
split_tail o (ops, seg) =
    let tail = o.diff_len - seg in
    let rest : List PlanOp =
      if tail == 0 && o.extra_len == 0 && is_zero o.adj
      then []
      else record o { diff_len = tail } ∷ [] in
    ops ++ (if seg == 0 then o ∷ [] else rest)

-- `transitions` of one operation.
abbrev pub transitions_of : List Run → ℕ
transitions_of runs = length runs * (length runs + 1) / 2

module _ (fwd : Bool) (from to : Image) (l0 l1 : ℕ → ℕ) where
  unfoldable pub op_runs : PlanOp → ℕ → ℤ → List Run
  unfolding find_runs
  op_runs o tp fp =
      find_runs o.diff_len (λ k. op_diff_byte from to (fp +ℤ pos k) (tp + k)) o.diff_len 0

  unfoldable pub split_op : PlanOp → ℕ → ℤ → List Run → List PlanOp
  unfolding prefix_sums choose_runs taken split_tail
  split_op o tp fp runs =
      let diff : ℕ → ℕ = λ k. op_diff_byte from to (fp +ℤ pos k) (tp + k) in
      let xf = extra_proxy_bits to.bytes (tp + o.diff_len) o.extra_len l0 l1 in
      let sc0 = prefix_sums l0 l1 to.bytes diff tp runs in
      let sc = choose_runs l0 l1 fwd runs o xf (length runs + 1) sc0 in
      split_tail o (taken (length runs) sc.ft runs 0)

  -- An operation with no run or over the budget stays as it is.
  unfoldable pub split_nonzero_diff_runs_budget : List PlanOp → ℕ → ℤ → ℕ → List PlanOp
  split_nonzero_diff_runs_budget [] tp fp transitions_left = []
  split_nonzero_diff_runs_budget (o ∷ ops) tp fp transitions_left =
      let runs = op_runs o tp fp in
      let keeps = length runs == 0 || ltb transitions_left (transitions_of runs) in
      let left = if keeps then transitions_left else transitions_left - transitions_of runs in
      let rest =
        split_nonzero_diff_runs_budget ops (tp + (o.diff_len + o.extra_len))
          (fp +ℤ pos o.diff_len +ℤ o.adj) left in
      (if keeps then o ∷ [] else split_op o tp fp runs) ++ rest

  -- SPLIT_TRANSITION_BUDGET
  unfoldable pub split_nonzero_diff_runs : List PlanOp → List PlanOp
  unfolding split_nonzero_diff_runs_budget split_op op_runs
  split_nonzero_diff_runs ops = split_nonzero_diff_runs_budget ops 0 (pos 0) 33_554_432
