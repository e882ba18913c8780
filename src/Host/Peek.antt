-- ===== src/Host/Peek.antt =====
-- The header of a blob as the host peeks at it in src/patch_host_backend.c: peek_envelope_sizes and the
-- geometry of the emulated flash that host_apply_blob draws from it.
use ultra_patch.Base.{
  ℕ, ◌+◌, ◌-◌, ◌/◌, ◌%◌, ◌≤◌, ◌≡◌, refl, Bool, true, false, ◌||◌, List, [], ◌∷◌, Option, none, some,
  ltb, ◌==◌, if◌then◌else◌, if_cases, arith, ap, max, drop, Bool-cases, inl, inr,
}
use ultra_patch.Base.Word.{u32}
use ultra_patch.Wire.Zigzag.{zz_abs}
use ultra_patch.Wire.Uleb.{◌>>=◌, env_byte, env_u32le, env_uleb, max_image}
use ultra_patch.Envelope.{
  Sizes, Walk, Fields, fields, resource, refused, read_sizes, read_walk, fields_of, within_capacity,
  read_fields, wire_from_crc,
}
use ultra_patch.Apply.Pages.{Device, outrow}
use ultra_patch.Apply.Run.{check_source, decode_header, image_crc}
use ultra_patch.Host.Nvm.{flash_size}
use ultra_patch.Host.Run.{peek_envelope_sizes, peeked, peeked_of}

-- Behind the CRCs the decoder reads the sizes as they were peeked at.
abbrev pub Peeks : Option (ℕ × ℕ) → Option (Sizes × List ℕ) → Type 0
Peeks p none = Unit
Peeks p (some (s, rest)) = p ≡ some (s.from_size, s.to_size)

module _ (want_from want_to : ℕ) where
  abbrev pub sizes : ℕ → ℕ → Bool → Sizes
  sizes f ts ov = record {
    want_from = want_from;
    want_to = want_to;
    from_size = f;
    to_size = ts;
    overlong = ov;
  }

  pub peek_target :
      (f : ℕ) (ov : Bool) (rest : List ℕ) (ts : Option ℕ)
      → Peeks (ts >>= λ t. some (f, t)) (ts >>= λ t. some (sizes f t ov, rest))
  peek_target f ov rest none = tt
  peek_target f ov rest (some ts) = refl

  pub peek_delta :
      (f : ℕ) (d : Option (ℕ × Bool × List ℕ))
      → Peeks
          (d >>= λ x. (zz_abs f x.0 max_image >>= λ t. some (f, t)))
          (d >>= λ x. (zz_abs f x.0 max_image >>= λ t. some (sizes f t x.1, x.2)))
  peek_delta f none = tt
  peek_delta f (some (z, ov, rest)) = peek_target f ov rest (zz_abs f z max_image)

  pub peek_source :
      (u : Option (ℕ × Bool × List ℕ))
      → Peeks
          (u >>= λ x.
            if ltb max_image x.0
            then none
            else (env_uleb x.2 true >>= λ y. (zz_abs x.0 y.0 max_image >>= λ t. some (x.0, t))))
          (u >>= λ x.
            if ltb max_image x.0
            then none
            else (env_uleb x.2 true >>= λ y.
                (zz_abs x.0 y.0 max_image >>= λ t. some (sizes x.0 t y.1, y.2))))
  peek_source none = tt
  peek_source (some (f, o, rest)) = elim (Bool-cases (ltb max_image f)) [
    | inl e ↦ rw e tt
    | inr e ↦ rw e (peek_delta f (env_uleb rest true))
  ]

pub peek-read_sizes : (blob : List ℕ) → Peeks (peek_envelope_sizes blob) (read_sizes blob)
unfolding read_sizes env_u32le env_byte peek_envelope_sizes
peek-read_sizes [] = tt
peek-read_sizes (a ∷ []) = tt
peek-read_sizes (a ∷ b ∷ []) = tt
peek-read_sizes (a ∷ b ∷ c ∷ []) = tt
peek-read_sizes (a ∷ b ∷ c ∷ d ∷ []) = tt
peek-read_sizes (a ∷ b ∷ c ∷ d ∷ e ∷ []) = tt
peek-read_sizes (a ∷ b ∷ c ∷ d ∷ e ∷ f ∷ []) = tt
peek-read_sizes (a ∷ b ∷ c ∷ d ∷ e ∷ f ∷ g ∷ []) = tt
peek-read_sizes (a ∷ b ∷ c ∷ d ∷ e ∷ f ∷ g ∷ h ∷ blob) = peek_source _ _ (env_uleb blob false)

-- What an accepted header says of the sizes that were peeked at.
abbrev pub PeeksFields : Option (ℕ × ℕ) → Fields → Type 0
PeeksFields p (fields s w rest) = p ≡ some (s.from_size, s.to_size)
PeeksFields p resource = Unit
PeeksFields p refused = Unit

pub fields_of-Peeks :
    (p : Option (ℕ × ℕ)) (s : Sizes) (o : Option (Walk × List ℕ))
    → p ≡ some (s.from_size, s.to_size)
    → PeeksFields p (fields_of s o)
unfolding fields_of
fields_of-Peeks p s none e = tt
fields_of-Peeks p s (some (w, rest)) e = e

pub within_capacity-Peeks :
    (p : Option (ℕ × ℕ)) (capacity : ℕ) (o : Option (Sizes × List ℕ))
    → Peeks p o
    → PeeksFields p (within_capacity capacity o)
unfolding within_capacity
within_capacity-Peeks p capacity none h = tt
within_capacity-Peeks p capacity (some (s, rest)) h =
    if_cases (PeeksFields p) (ltb capacity (max s.from_size s.to_size)) resource
      (fields_of s (read_walk s rest)) (λ e. tt) (λ e. fields_of-Peeks p s (read_walk s rest) h)

module _ {F : Type 0} (dev : Device F) where
  pub check_source-Peeks :
      (p : Option (ℕ × ℕ)) (f : F) (h : Fields)
      → PeeksFields p h
      → PeeksFields p (check_source dev f h)
  unfolding check_source
  check_source-Peeks p f (fields s w rest) h =
      if_cases (PeeksFields p) (wire_from_crc (image_crc dev f s.from_size) == s.want_from)
        (fields s w rest) refused (λ e. h) (λ e. tt)
  check_source-Peeks p f resource h = tt
  check_source-Peeks p f refused h = tt

  pub decode_header-Peeks :
      (f : F) (blob : List ℕ) → PeeksFields (peek_envelope_sizes blob) (decode_header dev f blob)
  unfolding decode_header read_fields
  decode_header-Peeks f blob =
      check_source-Peeks (peek_envelope_sizes blob) f
        (within_capacity dev.capacity (read_sizes blob))
        (within_capacity-Peeks (peek_envelope_sizes blob) dev.capacity (read_sizes blob)
          (peek-read_sizes blob))

pub peeked-some :
    (blob : List ℕ) (from_n : ℕ) (p : ℕ × ℕ)
    → peek_envelope_sizes blob ≡ some p
    → peeked blob from_n ≡ p
unfolding peeked
peeked-some blob from_n p e = ap (peeked_of from_n) e

-- Sizes that were peeked at are at most MAX_IMAGE.
abbrev pub AreSmall : Option (ℕ × ℕ) → Type 0
AreSmall none = Unit
AreSmall (some (f, t)) = (f ≤ max_image) × (t ≤ max_image)

abbrev pub IsSmall : Option ℕ → Type 0
IsSmall none = Unit
IsSmall (some t) = t ≤ max_image

pub zz_abs-IsSmall : (f z : ℕ) → f ≤ max_image → IsSmall (zz_abs f z max_image)
unfolding zz_abs
zz_abs-IsSmall f z h =
    let m = u32 (z / 2 + 1) in
    let d = z / 2 in
    if_cases IsSmall (z % 2 == 1) (if ltb f m then none else some (f - m))
      (if ltb max_image d || ltb (max_image - d) f then none else some (u32 (f + d)))
      (λ e. if_cases IsSmall (ltb f m) none (some (f - m)) (λ c. tt) (λ c. omega arith))
      (λ e.
        if_cases IsSmall (ltb max_image d || ltb (max_image - d) f) none (some (u32 (f + d)))
          (λ c. tt) (λ c. ground arith))

pub target-AreSmall :
    (f : ℕ) (o : Option ℕ) → f ≤ max_image → IsSmall o → AreSmall (o >>= λ t. some (f, t))
target-AreSmall f none h k = tt
target-AreSmall f (some t) h k = (h, k)

pub delta-AreSmall :
    (f : ℕ) (d : Option (ℕ × Bool × List ℕ))
    → f ≤ max_image
    → AreSmall (d >>= λ x. (zz_abs f x.0 max_image >>= λ t. some (f, t)))
delta-AreSmall f none h = tt
delta-AreSmall f (some (z, ov, rest)) h =
    target-AreSmall f (zz_abs f z max_image) h (zz_abs-IsSmall f z h)

pub source-AreSmall :
    (u : Option (ℕ × Bool × List ℕ))
    → AreSmall (
        u >>= λ x.
        if ltb max_image x.0
        then none
        else (env_uleb x.2 true >>= λ y. (zz_abs x.0 y.0 max_image >>= λ t. some (x.0, t))))
source-AreSmall none = tt
source-AreSmall (some (f, o, rest)) =
    if_cases AreSmall (ltb max_image f) none
      (env_uleb rest true >>= λ y. (zz_abs f y.0 max_image >>= λ t. some (f, t))) (λ e. tt)
      (λ e. delta-AreSmall f (env_uleb rest true) (ground arith))

pub peeked_of-le :
    (from_n : ℕ) (o : Option (ℕ × ℕ))
    → from_n ≤ max_image
    → AreSmall o
    → ((peeked_of from_n o).0 ≤ max_image) × ((peeked_of from_n o).1 ≤ max_image)
peeked_of-le from_n none h k = (h, h)
peeked_of-le from_n (some p) h k = k

pub peeked-le :
    (blob : List ℕ) (from_n : ℕ)
    → from_n ≤ max_image
    → ((peeked blob from_n).0 ≤ max_image) × ((peeked blob from_n).1 ≤ max_image)
unfolding peeked peek_envelope_sizes
peeked-le blob from_n h =
    peeked_of-le from_n (peek_envelope_sizes blob) h
      (source-AreSmall (env_uleb (drop 8 blob) false))

pub flash_size_bounded : (span : ℕ) → span ≤ max_image → flash_size span ≤ max_image
unfolding flash_size
flash_size_bounded span h = ground arith

pub flash_size_covers : (span : ℕ) → (span ≤ flash_size span) × (flash_size span % outrow ≡ 0)
unfolding flash_size
flash_size_covers span = (ground arith, ground arith)
