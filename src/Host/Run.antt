-- ===== src/Host/Run.antt =====
-- The host's runs of the decoder in src/patch_host_backend.c: peek_envelope_sizes, host_apply_blob, the
-- contract of CRC32_READY, selfcheck and the decision of decode_patch. Files are the lists of their
-- bytes. PATCH_IMAGE_BASE and PATCH_IMAGE_CAPACITY are the arguments `base` and `capacity`.
use ultra_patch.Base.{
  ℕ, zero, suc, ◌+◌, ◌-◌, ◌*◌, Bool, true, false, ◌&&◌, ◌||◌, not, List, [], ◌∷◌, Option, none,
  some, ltb, ◌==◌, if◌then◌else◌, length, max, drop,
}
use ultra_patch.Base.Word.{u32}
use ultra_patch.Coder.Decoder.{rc_init}
use ultra_patch.Model.Golomb.{s_ug_gamma}
use ultra_patch.Wire.Zigzag.{zz_abs}
use ultra_patch.Wire.Uleb.{env_uleb, max_image, ◌>>=◌}
use ultra_patch.Envelope.{Sizes, Walk, Fields, fields, resource, refused}
use ultra_patch.Apply.Pages.{Device}
use ultra_patch.Apply.Step.{ops_loop}
use ultra_patch.Apply.Run.{
  Reject, PatchApplyResult, done, error, geo_of, decode_header, apply_start, patch_apply_run,
  relocs_start, read_map,
}
use ultra_patch.Host.Nvm.{
  Nvm, GateErr, flash_size, nvm_init, nvm_gate_err, nvm_flash_read, nvm_flash_write_page,
}

-- The flash primitives of the decoder. A read is its byte; its count of reads out of bounds is left
-- out, since the decoder cannot see it.
abbrev pub nvm_device : ℕ → ℕ → ℕ → Device Nvm
nvm_device base capacity flash_n = record {
  flash_read = λ nvm a. (nvm_flash_read base flash_n nvm a).0;
  flash_write_page = nvm_flash_write_page base flash_n;
  image_base = base;
  capacity = capacity;
}

-- Both sizes, from the blob behind its two CRCs.
unfoldable pub peek_envelope_sizes : List ℕ → Option (ℕ × ℕ)
peek_envelope_sizes blob = do
  (f, _o, s1) ← env_uleb (drop 8 blob) false
  (if ltb max_image f
      then none
      else do (z, _v, s2) ← env_uleb s1 true; ts ← zz_abs f z max_image; some (f, ts))

-- The pad's seed from the first `left` bytes.
unfoldable pub pad_seed_loop : ℕ → ℕ → List ℕ → ℕ
pad_seed_loop zero seed blob = seed
pad_seed_loop (suc left) seed [] = seed
pad_seed_loop (suc left) seed (b ∷ blob) =
    pad_seed_loop left (u32 (seed * 1_664_525 + 1_013_904_223 + b)) blob

-- What crc32_ready_hook records.
pub record Ready : Type 0 where
  pub calls : ℕ
  pub pull_pos : ℕ
  pub erases_seen : ℕ

abbrev pub no_ready : Ready
no_ready = record { calls = 0; pull_pos = 0; erases_seen = 0 }

unfoldable pub crc32_ready_hook : Ready → ℕ → ℕ → Ready
crc32_ready_hook r pull_i erases = record {
  calls = r.calls + 1;
  pull_pos = pull_i;
  erases_seen = erases;
}

-- The header calls the hook when it has been accepted, `rest` being what is not pulled yet.
unfoldable pub ready_of : Nvm → List ℕ → Fields → Ready
unfolding crc32_ready_hook
ready_of nvm blob (fields s w rest) =
    crc32_ready_hook no_ready (length blob - length rest) nvm.erases
ready_of nvm blob resource = no_ready
ready_of nvm blob refused = no_ready

-- HostApply, with the geometry that the accessors of the decoder return after a run, and the flash.
pub record HostApply : Type 0 where
  pub nvm : Nvm
  pub rc : PatchApplyResult
  pub consumed : ℕ
  pub from_size : ℕ
  pub to_size : ℕ
  pub ready : Ready

module _ {F : Type 0} (dev : Device F) where
  -- What a body that is decoded to its end leaves of the source.
  unfoldable pub body_rest : F → Sizes → Walk → List ℕ → List ℕ
  body_rest f s w rest =
      let rc0 = rc_init rest w.body_left in
      let (mn, gdl, rc1) = s_ug_gamma relocs_start.pre.gdl rc0 in
      let r = relocs_start in
      let m =
        read_map mn 0 (record {
          rc = rc1;
          relocs = record r { pre = record (r.pre) { gdl = gdl } };
          last = 0;
        }) in
      (ops_loop dev (geo_of s w) (suc s.to_size) (apply_start dev f s w m mn)).content.rc.src

-- The outcome of a run. The count of bytes consumed and the sizes are read only after a header that
-- was accepted, and are 0 otherwise.
abbrev pub outcome : Device Nvm → Nvm → List ℕ → Nvm × PatchApplyResult → Fields → HostApply
outcome dev nvm blob (f, rc) (fields s w rest) = record {
  nvm = f;
  rc = rc;
  consumed = length blob - length (body_rest dev nvm s w rest);
  from_size = s.from_size;
  to_size = s.to_size;
  ready = ready_of nvm blob (fields s w rest);
}
outcome dev nvm blob (f, rc) resource = record {
  nvm = f;
  rc = rc;
  consumed = 0;
  from_size = 0;
  to_size = 0;
  ready = no_ready;
}
outcome dev nvm blob (f, rc) refused = record {
  nvm = f;
  rc = rc;
  consumed = 0;
  from_size = 0;
  to_size = 0;
  ready = no_ready;
}

abbrev pub peeked_of : ℕ → Option (ℕ × ℕ) → ℕ × ℕ
peeked_of from_n none = (from_n, from_n)
peeked_of from_n (some p) = p

-- fs and ts, and the span of the flash.
unfoldable pub peeked : List ℕ → ℕ → ℕ × ℕ
unfolding peek_envelope_sizes
peeked blob from_n = peeked_of from_n (peek_envelope_sizes blob)

unfoldable pub span_of : List ℕ → ℕ → ℕ
unfolding peeked
span_of blob from_n = let (fs, ts) = peeked blob from_n in max (max from_n fs) ts

-- The emulator as nvm_init leaves it.
unfoldable pub host_nvm : List ℕ → (ℕ → ℕ) → ℕ → Option Nvm
unfolding span_of pad_seed_loop nvm_init
host_nvm blob from from_n =
    nvm_init from from_n (span_of blob from_n) (peeked blob from_n).1 (pad_seed_loop 8 0 blob)

unfoldable pub host_apply_blob : ℕ → ℕ → List ℕ → (ℕ → ℕ) → ℕ → Option HostApply
unfolding host_nvm
host_apply_blob base capacity blob from from_n = do
  nvm ← host_nvm blob from from_n
  (let dev = nvm_device base capacity (flash_size (span_of blob from_n)) in
      some (outcome dev nvm blob (patch_apply_run dev nvm blob) (decode_header dev nvm blob)))

pub data ReadyErr : Type 0 where
  fired_twice : ReadyErr
  fired_after_write : ReadyErr
  fired_outside_header : ReadyErr
  not_fired : ReadyErr

abbrev pub is_done : PatchApplyResult → Bool
is_done done = true
is_done (error r) = false

unfoldable pub ready_invariant_err : Ready → PatchApplyResult → Option ReadyErr
ready_invariant_err r rc =
    if ltb 1 r.calls
    then some fired_twice
    else if r.calls == 1 && not (r.erases_seen == 0)
    then some fired_after_write
    else if r.calls == 1 && (ltb r.pull_pos 12 || ltb 27 r.pull_pos)
    then some fired_outside_header
    else if is_done rc && not (r.calls == 1)
    then some not_fired
    else none

-- The causes of selfcheck and of decode_patch.
pub data CheckErr : Type 0 where
  too_short : CheckErr
  ready_violated : ReadyErr → CheckErr
  rejected : Reject → CheckErr
  not_consumed : CheckErr
  size_mismatch : CheckErr
  image_differs : CheckErr
  gate : GateErr → CheckErr
  fatal : CheckErr

-- memcmp of `left` bytes from offset `i` on.
unfoldable pub same_bytes : ℕ → ℕ → (ℕ → ℕ) → (ℕ → ℕ) → Bool
same_bytes zero i a b = true
same_bytes (suc left) i a b = a i == b i && same_bytes left (i + 1) a b

abbrev pub gate_of : Option GateErr → Option CheckErr
gate_of none = none
gate_of (some e) = some (gate e)

-- The checks behind an apply that is done.
unfoldable pub check_done : HostApply → ℕ → ℕ → (ℕ → ℕ) → ℕ → Option CheckErr
unfolding same_bytes
check_done ha blob_n from_n to to_n =
    if not (ha.consumed == blob_n)
    then some not_consumed
    else if not (ha.from_size == from_n) || not (ha.to_size == to_n)
    then some size_mismatch
    else if not (same_bytes to_n 0 ha.nvm.flash to)
    then some image_differs
    else gate_of (nvm_gate_err ha.nvm)

-- A violation of the hook's contract outranks a rejection, and that the other checks.
abbrev pub ranked : Option ReadyErr → PatchApplyResult → Option CheckErr → Option CheckErr
ranked (some e) rc other = some (ready_violated e)
ranked none (error r) other = some (rejected r)
ranked none done other = other

abbrev pub checked : Option HostApply → (HostApply → Option CheckErr) → Option CheckErr
checked none check = some fatal
checked (some ha) check = ranked (ready_invariant_err ha.ready ha.rc) ha.rc (check ha)

-- `none` is NULL: the patch may be shipped.
unfoldable pub selfcheck : ℕ → ℕ → List ℕ → (ℕ → ℕ) → ℕ → (ℕ → ℕ) → ℕ → Option CheckErr
unfolding host_apply_blob ready_invariant_err check_done
selfcheck base capacity blob from from_n to to_n =
    if ltb (length blob) 8
    then some too_short
    else checked (host_apply_blob base capacity blob from from_n)
        (λ ha. check_done ha (length blob) from_n to to_n)

-- The checks of decode_patch behind an apply that is done.
unfoldable pub accept_done : HostApply → ℕ → ℕ → Option CheckErr
accept_done ha blob_n image_n =
    if not (ha.consumed == blob_n)
    then some not_consumed
    else if not (ha.from_size == image_n)
    then some size_mismatch
    else gate_of (nvm_gate_err ha.nvm)

-- `none` is the branch that replaces the image by the first to_size bytes of the flash.
unfoldable pub decode_patch : ℕ → ℕ → List ℕ → (ℕ → ℕ) → ℕ → Option CheckErr
unfolding host_apply_blob ready_invariant_err accept_done
decode_patch base capacity blob image image_n =
    if ltb (length blob) 12
    then some too_short
    else checked (host_apply_blob base capacity blob image image_n)
        (λ ha. accept_done ha (length blob) image_n)
