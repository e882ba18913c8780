-- ===== src/Emit/Map.antt =====
-- The header of the shift map: smap_wire_feasible and the map's part of emit_body in src/enc_emit.c,
-- and the map reader of src/patch_apply.h.
use ultra_patch.Base.{
  ℕ, zero, suc, ◌+◌, ◌-◌, ◌<◌, ◌≡◌, refl, Bool, true, false, ◌&&◌, ◌||◌, not, List, ltb, leb, ◌==◌,
  if◌then◌else◌, arith, ◌∙◌, ap, sym, subst,
}
use ultra_patch.Base.Int.{ℤ}
use ultra_patch.Base.Word.{IsU32, IsI32, sub32, add32}
use ultra_patch.Coder.Encoder.{REnc}
use ultra_patch.Coder.Decoder.{RangeDec}
use ultra_patch.Coder.Value.{IsBytes}
use ultra_patch.Coder.Renorm.{IsReady, Contains}
use ultra_patch.Coder.Sync.{Tracks}
use ultra_patch.Coder.Step.{Later, Later-refl, Later-trans}
use ultra_patch.Model.{update}
use ultra_patch.Model.Golomb.{ugg_encode}
use ultra_patch.Model.Golomb.RoundTrip.{ugg_encode-Later, s_ug_gamma-ugg_encode}
use ultra_patch.Model.Init.{PreKdModels, IsPreKd}
use ultra_patch.Wire.Zigzag.{zz32, zz32-IsU32, unzz32_value-zz32}
use ultra_patch.Apply.Relocs.{Relocs}
use ultra_patch.Apply.Run.{MapReader, map_entry, read_map}

-- Boundaries and values by their index.
module _ (mb : ℕ → ℕ) (mv : ℕ → ℤ) where
  unfoldable pub wire_gap : ℕ → ℕ → ℕ
  wire_gap i prev = if i == 0 then mb i else sub32 (sub32 (mb i) prev) 1

  unfoldable pub feasible_loop : ℕ → ℕ → ℕ → Bool
  unfolding wire_gap
  feasible_loop zero i prev = true
  feasible_loop (suc left) i prev =
      let rest = feasible_loop left (i + 1) (mb i) in
      if not (i == 0) && leb (mb i) prev
      then false
      else if wire_gap i prev == 0xffff_ffff || zz32 (mv i) == 0xffff_ffff
      then false
      else rest

  unfoldable pub smap_wire_feasible : ℕ → Bool
  unfolding feasible_loop
  smap_wire_feasible mn = feasible_loop mn 0 0

  unfoldable pub put_entry : ℕ → ℕ → REnc → PreKdModels → REnc × PreKdModels
  unfolding wire_gap
  put_entry i prev r pre =
      let (r1, gdl) = ugg_encode pre.gdl r (wire_gap i prev) in
      let (r2, gadj) = ugg_encode pre.gadj r1 (zz32 (mv i)) in
      (r2, record pre { gdl = gdl; gadj = gadj })

  -- The entries from `i` on, `left` of them.
  unfoldable pub put_map : ℕ → ℕ → ℕ → REnc → PreKdModels → REnc × PreKdModels
  unfolding put_entry
  put_map zero i prev r pre = (r, pre)
  put_map (suc left) i prev r pre =
      let (r1, pre1) = put_entry i prev r pre in put_map left (i + 1) (mb i) r1 pre1

  -- The reader's state with these entries in it.
  unfoldable pub with_entry : ℕ → Relocs → Relocs
  with_entry i r = record r { smap_b = update r.smap_b i (mb i); smap_v = update r.smap_v i (mv i) }

  unfoldable pub with_entries : ℕ → ℕ → Relocs → Relocs
  with_entries zero i r = r
  with_entries (suc left) i r = with_entries left (i + 1) (with_entry i r)

  unfoldable pub last_boundary : ℕ → ℕ → ℕ → ℕ
  last_boundary zero i prev = prev
  last_boundary (suc left) i prev = last_boundary left (i + 1) (mb i)

  feasible_gap :
      (left i prev : ℕ)
      → feasible_loop (suc left) i prev ≡ true
      → IsU32 (mb i)
      → IsU32 prev
      → wire_gap i prev < 0xffff_ffff
  unfolding feasible_loop wire_gap
  feasible_gap left i prev f word before = ground arith

  feasible_value :
      (left i prev : ℕ)
      → feasible_loop (suc left) i prev ≡ true
      → IsI32 (mv i)
      → zz32 (mv i) < 0xffff_ffff
  unfolding feasible_loop
  feasible_value left i prev f word = let w = zz32-IsU32 (mv i) word in ground arith

  feasible_rest :
      (left i prev : ℕ)
      → feasible_loop (suc left) i prev ≡ true
      → feasible_loop left (i + 1) (mb i) ≡ true
  unfolding feasible_loop
  feasible_rest left i prev f = ground arith

  -- The reader adds the gap to the last boundary.
  feasible_sum :
      (left i prev : ℕ)
      → feasible_loop (suc left) i prev ≡ true
      → IsU32 (mb i)
      → IsU32 prev
      → (i ≡ 0 → prev ≡ 0)
      → prev + (if i == 0 then wire_gap i prev else add32 (wire_gap i prev) 1) ≡ mb i
  unfolding feasible_loop wire_gap
  feasible_sum left i prev f word before start = ground arith

same_if : (b : Bool) (x y : MapReader) → b ≡ false → (if b then x else y) ≡ y
same_if b x y e = rw e refl

read_map-zero : (i : ℕ) (x : MapReader) → read_map zero i x ≡ x
unfolding read_map
read_map-zero i x = refl

read_map-step :
    (left i : ℕ) (x y : MapReader)
    → x.rc.rcerr ≡ false
    → map_entry x i ≡ y
    → read_map (suc left) i x ≡ read_map left (i + 1) y
unfolding read_map
read_map-step left i x y clean e =
    same_if x.rc.rcerr x (read_map left (i + 1) (map_entry x i)) clean
    ∙ ap (λ z. read_map left (i + 1) z) e

abbrev pub reader : MapReader → RangeDec → PreKdModels → MapReader
reader m d pre = record m { rc = d; relocs = record (m.relocs) { pre = pre } }

put_entry-Later :
    (mb : ℕ → ℕ) (mv : ℕ → ℤ) (i prev : ℕ) (r : REnc) (pre : PreKdModels)
    → wire_gap mb mv i prev < 0xffff_ffff
    → zz32 (mv i) < 0xffff_ffff
    → IsReady r
    → IsPreKd pre
    → Later r (put_entry mb mv i prev r pre).0 × IsPreKd (put_entry mb mv i prev r pre).1
unfolding put_entry
put_entry-Later mb mv i prev r pre gap z ready h =
    let (l1, g1) = ugg_encode-Later pre.gdl r (wire_gap mb mv i prev) gap ready h.diff_lens in
    let (r1, gdl) = ugg_encode pre.gdl r (wire_gap mb mv i prev) in
    let (l2, g2) = ugg_encode-Later pre.gadj r1 (zz32 (mv i)) z l1.ready h.adjs in
    (
      Later-trans l1 l2,
      record {
        escapes = h.escapes;
        bl_indices = h.bl_indices;
        ex_indices = h.ex_indices;
        diff_lens = g1;
        extra_lens = h.extra_lens;
        adjs = g2;
      },
    )

pub put_map-Later :
    (mb : ℕ → ℕ) (mv : ℕ → ℤ) (left i prev : ℕ) (r : REnc) (pre : PreKdModels)
    → feasible_loop mb mv left i prev ≡ true
    → ((j : ℕ) → IsU32 (mb j))
    → ((j : ℕ) → IsI32 (mv j))
    → IsU32 prev
    → IsReady r
    → IsPreKd pre
    → Later r (put_map mb mv left i prev r pre).0 × IsPreKd (put_map mb mv left i prev r pre).1
unfolding put_map
put_map-Later mb mv zero i prev r pre f words values before ready h = (Later-refl r ready, h)
put_map-Later mb mv (suc left) i prev r pre f words values before ready h =
    let gap = feasible_gap mb mv left i prev f (words i) before in
    let z = feasible_value mb mv left i prev f (values i) in
    let (l1, h1) = put_entry-Later mb mv i prev r pre gap z ready h in
    let (l2, h2) =
      put_map-Later mb mv left (i + 1) (mb i) _ _ (feasible_rest mb mv left i prev f) words values
        (words i) l1.ready h1 in
    (Later-trans l1 l2, h2)

module _ (mb : ℕ → ℕ) (mv : ℕ → ℤ) (bytes more : List ℕ) (hb : IsBytes bytes) where
  map_entry-put_entry :
      (left i : ℕ) (m : MapReader) (r : REnc) (d : RangeDec) (pre : PreKdModels)
      → feasible_loop mb mv (suc left) i m.last ≡ true
      → IsU32 (mb i)
      → IsI32 (mv i)
      → IsU32 m.last
      → (i ≡ 0 → m.last ≡ 0)
      → IsReady r
      → IsPreKd pre
      → Contains bytes (put_entry mb mv i m.last r pre).0
      → Tracks bytes more r d
      → (d' : RangeDec) × Tracks bytes more (put_entry mb mv i m.last r pre).0 d'
        × (map_entry (reader m d pre) i
            ≡ reader
                (record m { relocs = with_entry mb mv i m.relocs; last = mb i })
                d'
                (put_entry mb mv i m.last r pre).1)
  unfolding put_entry map_entry with_entry
  map_entry-put_entry left i m r d pre f word value before start ready h k t =
      let g = wire_gap mb mv i m.last in
      let gap = feasible_gap mb mv left i m.last f word before in
      let z = feasible_value mb mv left i m.last f value in
      let (l1, g1) = ugg_encode-Later pre.gdl r g gap ready h.diff_lens in
      let (r1, gdl) = ugg_encode pre.gdl r g in
      let (l2, g2) = ugg_encode-Later pre.gadj r1 (zz32 (mv i)) z l1.ready h.adjs in
      let k1 = l2.back bytes hb k in
      let (e1, m1, t1) =
        s_ug_gamma-ugg_encode bytes more hb pre.gdl r d g gap ready h.diff_lens k1 t in
      let (e2, m2, t2) =
        s_ug_gamma-ugg_encode bytes more hb pre.gadj r1 _ (zz32 (mv i)) z l1.ready h.adjs k t1 in
      let sum = feasible_sum mb mv left i m.last f word before start in
      let room : ltb (0xffff_ffff - m.last) (if i == 0 then g else add32 g 1) ≡ false =
        ground arith in
      (_, t2, rw (e1, m1, e2, m2, unzz32_value-zz32 (mv i) value, room, sum) refl)

  map_rest :
      (left i : ℕ) (m : MapReader) (r : REnc) (d : RangeDec) (pre : PreKdModels)
      → feasible_loop mb mv left i m.last ≡ true
      → ((j : ℕ) → IsU32 (mb j))
      → ((j : ℕ) → IsI32 (mv j))
      → IsU32 m.last
      → (i ≡ 0 → m.last ≡ 0)
      → IsReady r
      → IsPreKd pre
      → Contains bytes (put_map mb mv left i m.last r pre).0
      → Tracks bytes more r d
      → (d' : RangeDec) × Tracks bytes more (put_map mb mv left i m.last r pre).0 d'
        × (read_map left i (reader m d pre)
            ≡ reader
                (record m {
                  relocs = with_entries mb mv left i m.relocs;
                  last = last_boundary mb mv left i m.last;
                })
                d'
                (put_map mb mv left i m.last r pre).1)
  unfolding put_map with_entries last_boundary with_entry
  map_rest zero i m r d pre f words values before start ready h k t =
      (d, t, read_map-zero i (reader m d pre))
  map_rest (suc left) i m r d pre f words values before start ready h k t =
      let gap = feasible_gap mb mv left i m.last f (words i) before in
      let z = feasible_value mb mv left i m.last f (values i) in
      let (l1, h1) = put_entry-Later mb mv i m.last r pre gap z ready h in
      let (r1, pre1) = put_entry mb mv i m.last r pre in
      let rest = feasible_rest mb mv left i m.last f in
      let m1 : MapReader = record m { relocs = with_entry mb mv i m.relocs; last = mb i } in
      let (l2, _h2) =
        put_map-Later mb mv left (i + 1) (mb i) r1 pre1 rest words values (words i) l1.ready h1 in
      let k1 = l2.back bytes hb k in
      let (d1, t1, e1) =
        map_entry-put_entry left i m r d pre f (words i) (values i) before start ready h k1 t in
      let (d2, t2, e2) =
        map_rest left (i + 1) m1 r1 d1 pre1 rest words values (words i) (λ e. absurd (omega arith))
          l1.ready h1 k t1 in
      let clean = t.supplies.clean in
      (d2, t2, read_map-step left i (reader m d pre) (reader m1 d1 pre1) clean e1 ∙ e2)

  -- Every map that smap_wire_feasible accepts is read back entry by entry, with the two models and the coder
  -- in step and without an error, where the reader starts at boundary 0.
  pub read_map-put_map :
      (mn : ℕ) (m : MapReader) (r : REnc) (d : RangeDec) (pre : PreKdModels)
      → smap_wire_feasible mb mv mn ≡ true
      → ((j : ℕ) → IsU32 (mb j))
      → ((j : ℕ) → IsI32 (mv j))
      → m.last ≡ 0
      → IsReady r
      → IsPreKd pre
      → Contains bytes (put_map mb mv mn 0 0 r pre).0
      → Tracks bytes more r d
      → (d' : RangeDec) × Tracks bytes more (put_map mb mv mn 0 0 r pre).0 d'
        × (read_map mn 0 (reader m d pre)
            ≡ reader
                (record m {
                  relocs = with_entries mb mv mn 0 m.relocs;
                  last = last_boundary mb mv mn 0 0;
                })
                d'
                (put_map mb mv mn 0 0 r pre).1)
  unfolding smap_wire_feasible
  read_map-put_map mn m r d pre f words values start ready h k t =
      let m0 : MapReader = record m { last = 0 } in
      subst
        (λ y.
          (d' : RangeDec) × Tracks bytes more (put_map mb mv mn 0 0 r pre).0 d'
          × (read_map mn 0 (reader (record m { last = y }) d pre)
              ≡ reader
                  (record m {
                    relocs = with_entries mb mv mn 0 m.relocs;
                    last = last_boundary mb mv mn 0 0;
                  })
                  d' (put_map mb mv mn 0 0 r pre).1))
        (sym start) (map_rest mn 0 m0 r d pre f words values (omega arith) (λ e. refl) ready h k t)
