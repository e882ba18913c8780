-- ===== src/Apply/Safety/Verdict.antt =====
-- What PATCH_APPLY_DONE of patch_apply_run in src/patch_apply.h says, and the gates of the header.
use ultra_patch.Base.{
  ℕ, suc, ◌≤◌, ◌<◌, ◌≡◌, inl, inr, ◌⊎◌, refl, sym, ◌∙◌, subst, Bool, true, false, not, ◌&&◌, ◌||◌,
  ◌==◌, if◌then◌else◌, if_cases, arith, ltb, List,
}
use ultra_patch.Coder.Decoder.{rc_init}
use ultra_patch.Model.Golomb.{s_ug_gamma}
use ultra_patch.Envelope.{Sizes, Walk, Fields, fields, resource, refused}
use ultra_patch.Apply.Pages.{Device, Pages, image_flash_read, orow_commit_all, out_read, orow_reset}
use ultra_patch.Apply.Pages.Law.{IsDevice}
use ultra_patch.Apply.Pages.Commit.{page_inside, out_read-miss}
use ultra_patch.Apply.Pages.Write.{image_flash_read-commit_all}
use ultra_patch.Apply.Content.{Geo}
use ultra_patch.Apply.Copy.{Applying, stopped}
use ultra_patch.Apply.Step.{ops_loop}
use ultra_patch.Apply.Run.{
  MapReader, rej_resource, rej_corrupt, PatchApplyResult, done, error, geo_of, is_idle, image_crc,
  decode_header, apply_start, apply_phase, verdict, run_body, run_header, patch_apply_run,
  relocs_start, read_map, smap_cap,
}
use ultra_patch.Apply.Frontier.Progress.{ops_loop-ends}
use ultra_patch.Apply.Safety.{out_read-Frontier}
use ultra_patch.Apply.Safety.Start.{
  IsAccepted, Promise, decode_header-Promise, Starts, apply_start-Starts, path-Below, path-Outside,
}
use ultra_patch.Apply.Frontier.{not_both}
use ultra_patch.Apply.Safety.Run.{loop_keeps, Fits, Promise-Fits}

both : (a b : Bool) → (a && b) ≡ true → a ≡ true
both true b h = refl
both false b h = absurd (not_both true refl (sym h))

-- PATCH_APPLY_DONE
abbrev pub IsDone : PatchApplyResult → Type 0
IsDone done = Unit
IsDone (error r) = ⊥

module _ {F : Type 0} (dev : Device F) where
  -- What a run from `f` to `f'` has delivered.
  pub record Delivered (limit : ℕ) (f f' : F) (s : Sizes) : Type 0 where
    pub accepted : IsAccepted dev f s
    pub target_crc : image_crc dev f' s.to_size ≡ s.want_to
    pub beyond :
        (x : ℕ) → s.to_size ≤ x → x < limit → image_flash_read dev f' x ≡ image_flash_read dev f x

module _ {F : Type 0} (dev : Device F) (limit : ℕ) (law : IsDevice dev limit) where
  loop_beyond :
      (geo : Geo) (st : Applying F)
      → Starts dev limit geo st
      → geo.to_size ≤ limit
      → (x : ℕ) → geo.to_size ≤ x
      → x < limit
      → out_read dev (ops_loop dev geo (suc geo.to_size) st).pages x ≡ out_read dev st.pages x
  loop_beyond geo st h fit x out inside =
      let st1 = ops_loop dev geo (suc geo.to_size) st in
      let (way, _e) =
        ops_loop-ends dev geo st.pages st.tp (suc geo.to_size) st h.way (inr h.enough) in
      let at = way.comes.at in
      let within = way.comes.within in
      out_read-Frontier dev limit law way.comes.path
        (path-Below geo.fwd st.tp at st1.tp geo.to_size limit within way.ahead h.inside fit)
        h.pages_good x inside
        (path-Outside geo.fwd st.tp at st1.tp geo.to_size x within way.ahead h.inside out)

  apply_phase_beyond :
      (geo : Geo) (st : Applying F)
      → Starts dev limit geo st
      → geo.to_size ≤ limit
      → (apply_phase dev geo st).1 ≡ true
      → (x : ℕ) → geo.to_size ≤ x
      → x < limit
      → image_flash_read dev (apply_phase dev geo st).0 x ≡ out_read dev st.pages x
  unfolding apply_phase
  apply_phase_beyond geo st h fit =
      let st1 = ops_loop dev geo (suc geo.to_size) st in
      let (good, _i) =
        loop_keeps dev limit law (λ f. Unit {0}) (λ f addr page al lo hi i. tt) geo st h fit tt in
      let last = (orow_commit_all dev geo.fwd geo.to_size st1.pages).flash in
      let underrun = stopped st1 || not (is_idle st1.content.tok_mode) in
      let P : F × Bool → Type 0 = λ r.
        r.1 ≡ true
        → (x : ℕ) → geo.to_size ≤ x
        → x < limit
        → image_flash_read dev r.0 x ≡ out_read dev st.pages x in
      if_cases P (stopped st) (st.pages.flash, false)
        (if underrun then (st1.pages.flash, false) else (last, true))
        (λ e k. absurd (not_both true refl (sym k)))
        (λ e.
          if_cases P underrun (st1.pages.flash, false) (last, true)
            (λ d k. absurd (not_both true refl (sym k)))
            (λ d k x out inside.
              image_flash_read-commit_all dev limit law st1.pages geo.fwd geo.to_size x good inside
              ∙ loop_beyond geo st h fit x out inside))

  apply_start-out_read :
      (f : F) (s : Sizes) (w : Walk) (m : MapReader) (mn x : ℕ)
      → x < limit
      → out_read dev (apply_start dev f s w m mn).pages x ≡ image_flash_read dev f x
  unfolding apply_start orow_reset
  apply_start-out_read f s w m mn x fit =
      let l = law.addresses in
      let i = page_inside dev limit law x fit in
      let p : Pages F = record { flash = f; base = λ i. 0; dirty = λ i. false; buf = λ i j. 0 } in
      out_read-miss dev limit law (orow_reset dev p) x (ground arith)

  verdict-Delivered :
      (f : F) (s : Sizes) (w : Walk) (m : MapReader) (mn : ℕ)
      → s.to_size ≤ limit
      → IsAccepted dev f s
      → let o = verdict dev s (apply_phase dev (geo_of s w) (apply_start dev f s w m mn)) in
        IsDone o.1 → Delivered dev limit f o.0 s
  unfolding verdict geo_of
  verdict-Delivered f s w m mn fit a =
      let st = apply_start dev f s w m mn in
      let geo = geo_of s w in
      let (f', decoded) = apply_phase dev geo st in
      if_cases (λ (v : PatchApplyResult). IsDone v → Delivered dev limit f f' s)
        (decoded && image_crc dev f' s.to_size == s.want_to) done (error rej_corrupt)
        (λ e k. record {
          accepted = a;
          target_crc = ground arith;
          beyond = λ x out inside.
              apply_phase_beyond geo st (apply_start-Starts dev limit f s w m mn) fit
                (both decoded (image_crc dev f' s.to_size == s.want_to) e) x out inside
              ∙ apply_start-out_read f s w m mn x inside;
        })
        (λ e k. absurd k)

  run_body-Delivered :
      (f : F) (s : Sizes) (w : Walk) (rest : List ℕ)
      → s.to_size ≤ limit
      → IsAccepted dev f s
      → IsDone (run_body dev f s w rest).1
      → Delivered dev limit f (run_body dev f s w rest).0 s
  unfolding run_body
  run_body-Delivered f s w rest fit a =
      let rc0 = rc_init rest w.body_left in
      let (mn, gdl, rc1) = s_ug_gamma relocs_start.pre.gdl rc0 in
      let r = relocs_start in
      let m =
        read_map mn 0 (record {
          rc = rc1;
          relocs = record r { pre = record (r.pre) { gdl = gdl } };
          last = 0;
        }) in
      let P : F × PatchApplyResult → Type 0 = λ o. IsDone o.1 → Delivered dev limit f o.0 s in
      let last = verdict dev s (apply_phase dev (geo_of s w) (apply_start dev f s w m mn)) in
      let corrupt : F × PatchApplyResult = (f, error rej_corrupt) in
      let full : F × PatchApplyResult = (f, error rej_resource) in
      if_cases P rc0.rcerr corrupt
        (if ltb smap_cap mn then full else if m.rc.rcerr then corrupt else last) (λ e k. absurd k)
        (λ e.
          if_cases P (ltb smap_cap mn) full (if m.rc.rcerr then corrupt else last) (λ d k. absurd k)
            (λ d.
              if_cases P m.rc.rcerr corrupt last (λ c k. absurd k)
                (λ c. verdict-Delivered f s w m mn fit a)))

  pub run_header-Delivered :
      (f : F) (h : Fields)
      → Fits limit h
      → Promise dev f h
      → IsDone (run_header dev f h).1
      → (s : Sizes) × (w : Walk) × (rest : List ℕ) × (h ≡ fields s w rest)
        × Delivered dev limit f (run_header dev f h).0 s
  unfolding run_header
  run_header-Delivered f (fields s w rest) fit a k =
      (s, w, rest, refl, run_body-Delivered f s w rest fit a k)
  run_header-Delivered f resource fit a k = absurd k
  run_header-Delivered f refused fit a k = absurd k

module _ {F : Type 0} (dev : Device F) where
  -- On a device that programs complete pages, when a run reports DONE: the header was read and accepted,
  -- so both sizes fit the partition and the source had the CRC that the header names; the image has the
  -- target's CRC over the target's size; and every byte of the partition beyond the target is as it was.
  pub patch_apply_run-done :
      IsDevice dev dev.capacity
      → (f : F) (src : List ℕ) → (patch_apply_run dev f src).1 ≡ done
      → (s : Sizes) × (w : Walk) × (rest : List ℕ) × (decode_header dev f src ≡ fields s w rest)
        × Delivered dev dev.capacity f (patch_apply_run dev f src).0 s
  unfolding patch_apply_run
  patch_apply_run-done law f src e =
      let h = decode_header dev f src in
      let promise = decode_header-Promise dev f src in
      run_header-Delivered dev dev.capacity law f h (Promise-Fits dev f h promise) promise
        (subst IsDone (sym e) tt)

  -- The header is accepted, or nothing is done.
  abbrev IsGated : F → Fields → F × PatchApplyResult → Type 0
  IsGated f h o =
      ((s : Sizes) × (w : Walk) × (rest : List ℕ) × (h ≡ fields s w rest) × IsAccepted dev f s)
      ⊎ ((o.0 ≡ f) × (IsDone o.1 → ⊥))

  run_header-IsGated : (f : F) (h : Fields) → Promise dev f h → IsGated f h (run_header dev f h)
  unfolding run_header
  run_header-IsGated f (fields s w rest) a = inl (s, w, rest, refl, a)
  run_header-IsGated f resource a = inr (refl, λ k. k)
  run_header-IsGated f refused a = inr (refl, λ k. k)

  -- For every byte source and every flash, either the header was read to its end, both of its sizes fit the
  -- partition, and the source image has the CRC that it names, tagged with the wire's version; or the run
  -- does not report DONE and leaves the flash as it was.
  pub patch_apply_run-gated :
      (f : F) (src : List ℕ)
      → ((s : Sizes) × (w : Walk) × (rest : List ℕ) × (decode_header dev f src ≡ fields s w rest)
          × IsAccepted dev f s)
        ⊎ (((patch_apply_run dev f src).0 ≡ f) × (IsDone (patch_apply_run dev f src).1 → ⊥))
  unfolding patch_apply_run
  patch_apply_run-gated f src =
      run_header-IsGated f (decode_header dev f src) (decode_header-Promise dev f src)
