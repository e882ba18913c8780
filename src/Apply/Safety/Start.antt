-- ===== src/Apply/Safety/Start.antt =====
-- The header and the start of a run of patch_apply_run in src/patch_apply.h.
use ultra_patch.Base.{
  ℕ, suc, ◌≤◌, ◌<◌, ◌≡◌, ◌⊎◌, inr, refl, sym, subst, Bool, true, false, ◌==◌, if◌then◌else◌,
  if_cases, arith, max, ltb, List, Option, none, some,
}
use ultra_patch.Envelope.{
  Sizes, Walk, Fields, fields, resource, refused, wire_from_crc, read_sizes, read_walk, fields_of,
  within_capacity, read_fields,
}
use ultra_patch.Apply.Pages.{Device, Pages, orow_reset}
use ultra_patch.Apply.Pages.Law.{IsPages}
use ultra_patch.Apply.Content.{Geo}
use ultra_patch.Apply.Copy.{Applying, stopped}
use ultra_patch.Apply.Step.{ops_loop, arrived}
use ultra_patch.Apply.Run.{MapReader, geo_of, image_crc, check_source, decode_header, apply_start}
use ultra_patch.Apply.Frontier.{still, Between}
use ultra_patch.Apply.Frontier.Progress.{OnWay, goal, distance, ops_loop-ends}
use ultra_patch.Apply.Safety.{Below, Outside}

-- An ascending run begins at 0 and a descending one at the size of the target.
start_range :
    (fwd : Bool) (to_size : ℕ)
    → Between fwd (if fwd then 0 else to_size) (if fwd then 0 else to_size) (goal fwd to_size)
      × ((if fwd then 0 else to_size) ≤ to_size)
      × (distance fwd to_size (if fwd then 0 else to_size) < suc to_size)
start_range true to_size = ((omega arith, omega arith), omega arith, omega arith)
start_range false to_size = ((omega arith, omega arith), omega arith, omega arith)

still_Between : (fwd : Bool) (n : ℕ) → Between fwd n n n
still_Between true n = (omega arith, omega arith)
still_Between false n = (omega arith, omega arith)

-- A path to a frontier before the end stays in the target.
pub path-Below :
    (fwd : Bool) (a at tp to_size limit : ℕ)
    → Between fwd a at tp
    → Between fwd a tp (goal fwd to_size)
    → a ≤ to_size
    → to_size ≤ limit
    → Below fwd a at limit
path-Below true a at tp to_size limit h k start fit = omega arith
path-Below false a at tp to_size limit h k start fit = omega arith

pub path-Outside :
    (fwd : Bool) (a at tp to_size x : ℕ)
    → Between fwd a at tp
    → Between fwd a tp (goal fwd to_size)
    → a ≤ to_size
    → to_size ≤ x
    → Outside fwd a at x
path-Outside true a at tp to_size x h k start out = omega arith
path-Outside false a at tp to_size x h k start out = omega arith

module _ {F : Type 0} (dev : Device F) where
  -- What an accepted header promises: an image in the partition, and the source that the patch is for.
  pub record IsAccepted (f : F) (s : Sizes) : Type 0 where
    pub in_partition : max s.from_size s.to_size ≤ dev.capacity
    pub source_crc : wire_from_crc (image_crc dev f s.from_size) ≡ s.want_from

  abbrev pub Promise : F → Fields → Type 0
  Promise f (fields s w rest) = IsAccepted f s
  Promise f resource = Unit
  Promise f refused = Unit

  abbrev InPartition : Fields → Type 0
  InPartition (fields s w rest) = max s.from_size s.to_size ≤ dev.capacity
  InPartition resource = Unit
  InPartition refused = Unit

  fields_of-InPartition :
      (s : Sizes) (o : Option (Walk × List ℕ))
      → max s.from_size s.to_size ≤ dev.capacity
      → InPartition (fields_of s o)
  unfolding fields_of
  fields_of-InPartition s none h = tt
  fields_of-InPartition s (some wr) h = h

  within_capacity-InPartition :
      (o : Option (Sizes × List ℕ)) → InPartition (within_capacity dev.capacity o)
  unfolding within_capacity
  within_capacity-InPartition none = tt
  within_capacity-InPartition (some sr) =
      let s = sr.0 in
      if_cases InPartition (ltb dev.capacity (max s.from_size s.to_size)) resource
        (fields_of s (read_walk s sr.1)) (λ e. tt)
        (λ e. fields_of-InPartition s (read_walk s sr.1) (ground arith))

  check_source-Promise : (f : F) (h : Fields) → InPartition h → Promise f (check_source dev f h)
  unfolding check_source
  check_source-Promise f (fields s w rest) h =
      if_cases (Promise f) (wire_from_crc (image_crc dev f s.from_size) == s.want_from)
        (fields s w rest) refused (λ e. record { in_partition = h; source_crc = ground arith })
        (λ e. tt)
  check_source-Promise f resource h = tt
  check_source-Promise f refused h = tt

  pub decode_header-Promise : (f : F) (src : List ℕ) → Promise f (decode_header dev f src)
  unfolding decode_header read_fields
  decode_header-Promise f src =
      check_source-Promise f (within_capacity dev.capacity (read_sizes src))
        (within_capacity-InPartition (read_sizes src))

  pub start-IsPages : (limit : ℕ) (p : Pages F) → IsPages dev limit (orow_reset dev p)
  unfolding orow_reset
  start-IsPages limit p s h = absurd (ground arith)

  -- A state from which the loop starts.
  pub record Starts (limit : ℕ) (geo : Geo) (st : Applying F) : Type 0 where
    pub pages_good : IsPages dev limit st.pages
    pub way : OnWay dev geo st.pages st.tp st
    pub inside : st.tp ≤ geo.to_size
    pub enough : distance geo.fwd geo.to_size st.tp < suc geo.to_size

  begins :
      (limit : ℕ) (geo : Geo) (st : Applying F)
      → IsPages dev limit st.pages
      → st.tp ≡ (if geo.fwd then 0 else geo.to_size)
      → Starts limit geo st
  begins limit geo st good at =
      let (range, inside, enough) = start_range geo.fwd geo.to_size in
      let ahead = subst (λ n. Between geo.fwd n n (goal geo.fwd geo.to_size)) (sym at) range in
      record {
        pages_good = good;
        way = record {
          comes = record {
            at = st.tp;
            path = still;
            within = still_Between geo.fwd st.tp;
            ends = inr refl;
            cursor = refl;
          };
          ahead = ahead;
        };
        inside = subst (λ n. n ≤ geo.to_size) (sym at) inside;
        enough = subst (λ n. distance geo.fwd geo.to_size n < suc geo.to_size) (sym at) enough;
      }

  pub apply_start-Starts :
      (limit : ℕ) (f : F) (s : Sizes) (w : Walk) (m : MapReader) (mn : ℕ)
      → Starts limit (geo_of s w) (apply_start dev f s w m mn)
  unfolding geo_of apply_start
  apply_start-Starts limit f s w m mn =
      begins limit (geo_of s w) (apply_start dev f s w m mn)
        (start-IsPages limit
          (record { flash = f; base = λ i. 0; dirty = λ i. false; buf = λ i j. 0 }))
        refl

  pub apply_start-flash :
      (f : F) (s : Sizes) (w : Walk) (m : MapReader) (mn : ℕ)
      → (apply_start dev f s w m mn).pages.flash ≡ f
  unfolding apply_start orow_reset
  apply_start-flash f s w m mn = refl

  -- For every device, header, map and state of the body: with the fuel that the model gives it, the loop
  -- over the operations ends with the error latch set or with the frontier at its end. Either way the
  -- pages come of those at the start by writing consecutive addresses, each once, ascending or
  -- descending, from the start of the frontier to its end at most.
  pub ops_loop-apply_start :
      (f : F) (s : Sizes) (w : Walk) (m : MapReader) (mn : ℕ)
      → let start = apply_start dev f s w m mn in
        let st = ops_loop dev (geo_of s w) (suc s.to_size) start in
        OnWay dev (geo_of s w) start.pages start.tp st
        × ((stopped st ≡ true) ⊎ (arrived dev (geo_of s w) st ≡ true))
  unfolding geo_of
  ops_loop-apply_start f s w m mn =
      let st = apply_start dev f s w m mn in
      let h = apply_start-Starts dev.capacity f s w m mn in
      ops_loop-ends dev (geo_of s w) st.pages st.tp (suc s.to_size) st h.way (inr h.enough)
