-- ===== src/Apply/Safety/Run.antt =====
-- Whole runs of patch_apply_run in src/patch_apply.h: what becomes of the flash, and what a verdict says.
use ultra_patch.Base.{
  ℕ, suc, ◌≤◌, inr, sym, subst, Bool, true, false, not, ◌||◌, if◌then◌else◌, if_cases, arith, ltb,
  List,
}
use ultra_patch.Coder.Decoder.{rc_init}
use ultra_patch.Model.Golomb.{s_ug_gamma}
use ultra_patch.Envelope.{Sizes, Walk, Fields, fields, resource, refused}
use ultra_patch.Apply.Pages.{Device, orow_commit_all}
use ultra_patch.Apply.Pages.Law.{IsDevice, IsPages}
use ultra_patch.Apply.Content.{Geo}
use ultra_patch.Apply.Copy.{Applying, stopped}
use ultra_patch.Apply.Step.{ops_loop}
use ultra_patch.Apply.Run.{
  rej_resource, rej_corrupt, PatchApplyResult, error, geo_of, is_idle, decode_header, apply_start,
  apply_phase, verdict, run_body, run_header, patch_apply_run, relocs_start, read_map, smap_cap,
}
use ultra_patch.Apply.Frontier.Progress.{ops_loop-ends}
use ultra_patch.Apply.Safety.{IsKept, commit_all_keeps, Frontier-keeps}
use ultra_patch.Apply.Safety.Start.{
  Promise, decode_header-Promise, Starts, apply_start-Starts, apply_start-flash, path-Below,
}

-- A header that is accepted has a target below the limit.
abbrev pub Fits : ℕ → Fields → Type 0
Fits limit (fields s w rest) = s.to_size ≤ limit
Fits limit resource = Unit
Fits limit refused = Unit

module _ {F : Type 0} (dev : Device F) (limit : ℕ) (law : IsDevice dev limit) where
  -- The pages at the end of the loop.
  pub loop_keeps :
      (I : F → Type 0)
      → IsKept dev limit I
      → (geo : Geo) (st : Applying F) → Starts dev limit geo st
      → geo.to_size ≤ limit
      → I st.pages.flash
      → IsPages dev limit (ops_loop dev geo (suc geo.to_size) st).pages
        × I (ops_loop dev geo (suc geo.to_size) st).pages.flash
  loop_keeps I keeps geo st h fit i =
      let st1 = ops_loop dev geo (suc geo.to_size) st in
      let (way, _e) =
        ops_loop-ends dev geo st.pages st.tp (suc geo.to_size) st h.way (inr h.enough) in
      Frontier-keeps dev limit law I keeps way.comes.path
        (path-Below geo.fwd st.tp way.comes.at st1.tp geo.to_size limit way.comes.within way.ahead
          h.inside fit)
        h.pages_good i

  apply_phase_keeps :
      (I : F → Type 0)
      → IsKept dev limit I
      → (geo : Geo) (st : Applying F) → Starts dev limit geo st
      → geo.to_size ≤ limit
      → I st.pages.flash
      → I (apply_phase dev geo st).0
  unfolding apply_phase
  apply_phase_keeps I keeps geo st h fit i =
      let st1 = ops_loop dev geo (suc geo.to_size) st in
      let (good, i1) = loop_keeps I keeps geo st h fit i in
      let last = (orow_commit_all dev geo.fwd geo.to_size st1.pages).flash in
      let underrun = stopped st1 || not (is_idle st1.content.tok_mode) in
      if_cases (λ (r : F × Bool). I r.0) (stopped st) (st.pages.flash, false)
        (if underrun then (st1.pages.flash, false) else (last, true)) (λ e. i)
        (λ e.
          if_cases (λ (r : F × Bool). I r.0) underrun (st1.pages.flash, false) (last, true)
            (λ d. i1)
            (λ d. commit_all_keeps dev limit law I keeps st1.pages geo.fwd geo.to_size good i1))

  run_body_keeps :
      (I : F → Type 0)
      → IsKept dev limit I
      → (f : F) (s : Sizes) (w : Walk) (rest : List ℕ) → s.to_size ≤ limit
      → I f
      → I (run_body dev f s w rest).0
  unfolding run_body verdict geo_of
  run_body_keeps I keeps f s w rest fit i =
      let rc0 = rc_init rest w.body_left in
      let (mn, gdl, rc1) = s_ug_gamma relocs_start.pre.gdl rc0 in
      let r = relocs_start in
      let m =
        read_map mn 0 (record {
          rc = rc1;
          relocs = record r { pre = record (r.pre) { gdl = gdl } };
          last = 0;
        }) in
      let P : F × PatchApplyResult → Type 0 = λ o. I o.0 in
      let phase = apply_phase dev (geo_of s w) (apply_start dev f s w m mn) in
      let last = verdict dev s phase in
      let corrupt : F × PatchApplyResult = (f, error rej_corrupt) in
      let full : F × PatchApplyResult = (f, error rej_resource) in
      if_cases P rc0.rcerr corrupt
        (if ltb smap_cap mn then full else if m.rc.rcerr then corrupt else last) (λ e. i)
        (λ e.
          if_cases P (ltb smap_cap mn) full (if m.rc.rcerr then corrupt else last) (λ d. i)
            (λ d.
              if_cases P m.rc.rcerr corrupt last (λ c. i)
                (λ c.
                  apply_phase_keeps I keeps (geo_of s w) (apply_start dev f s w m mn)
                    (apply_start-Starts dev limit f s w m mn) fit
                    (subst I (sym (apply_start-flash dev f s w m mn)) i))))

  pub run_header_keeps :
      (I : F → Type 0)
      → IsKept dev limit I
      → (f : F) (h : Fields) → Fits limit h
      → I f
      → I (run_header dev f h).0
  unfolding run_header
  run_header_keeps I keeps f (fields s w rest) fit i = run_body_keeps I keeps f s w rest fit i
  run_header_keeps I keeps f resource fit i = i
  run_header_keeps I keeps f refused fit i = i

module _ {F : Type 0} (dev : Device F) where
  pub Promise-Fits : (f : F) (h : Fields) → Promise dev f h → Fits dev.capacity h
  Promise-Fits f (fields s w rest) a = let fit = a.in_partition in omega arith
  Promise-Fits f resource a = tt
  Promise-Fits f refused a = tt

  -- On a device that programs complete pages, for every source of bytes and whatever the flash holds: a
  -- property of the flash that complete page writes, at aligned addresses inside the partition, keep is
  -- kept by the whole run, also when the patch is malformed and the run ends with an error.
  pub patch_apply_run-IsKept :
      IsDevice dev dev.capacity
      → (I : F → Type 0) (f : F) (src : List ℕ) → IsKept dev dev.capacity I
      → I f
      → I (patch_apply_run dev f src).0
  unfolding patch_apply_run
  patch_apply_run-IsKept law I f src keeps i =
      let h = decode_header dev f src in
      run_header_keeps dev dev.capacity law I keeps f h
        (Promise-Fits f h (decode_header-Promise dev f src)) i
