-- ===== src/Apply/Pages/Put.antt =====
-- What a byte put into a cached page does to the cache: the end of up_out_write of src/patch_apply.h.
use ultra_patch.Base.{
  ℕ, ◌+◌, ◌-◌, ◌≤◌, ◌≡◌, refl, sym, ap, ◌∙◌, Bool, true, false, ◌==◌, if◌then◌else◌, arith, subst,
  Bool-cases, inl, inr, ◌&&◌, ap₂,
}
use ultra_patch.Model.{update}
use ultra_patch.Apply.Pages.{
  Device, Pages, outrow, orow_none, page_base, orow_slot, image_flash_read, out_read, put_byte,
}
use ultra_patch.Apply.Pages.Law.{IsDevice, IsPages, slot_of}
use ultra_patch.Apply.Pages.Commit.{out_read-miss, out_read-hit}

marked : (s t : ℕ) (d : ℕ → Bool) → (s == t) ≡ true → update d s true t ≡ false → ⊥
marked s t d e h =
    let k : update d s true t ≡ true = rw e refl in (let e2 = sym k ∙ h in absurd (ground arith))

unmarked : (s t : ℕ) (d : ℕ → Bool) → (s == t) ≡ false → d t ≡ update d s true t
unmarked s t d e = rw e refl

-- A byte that already holds the value.
same_value :
    {F : Type 0}
    → (p : Pages F) (s off v t x : ℕ) → p.buf s off ≡ v
    → (if s == t && off == x then v else p.buf t x) ≡ p.buf t x
same_value p s off v t x h = elim (Bool-cases (s == t && off == x)) [
  | inl e ↦
      let at : s ≡ t = ground arith in
      let by : off ≡ x = ground arith in rw e (sym h ∙ ap₂ p.buf at by)
  | inr e ↦ rw e refl
]

own_byte : (s off : ℕ) → (s == s && off == off) ≡ true
own_byte s off = ground arith

-- Two addresses differ in the slot or in the offset, where the slots hold their pages.
other_byte :
    {F : Type 0}
    → (p : Pages F) (a x : ℕ) → p.base (slot_of a) ≡ page_base a
    → p.base (slot_of x) ≡ page_base x
    → (x == a) ≡ false
    → (slot_of a == slot_of x && a - page_base a == x - page_base x) ≡ false
other_byte p a x h k e =
    elim (Bool-cases (slot_of a == slot_of x && a - page_base a == x - page_base x)) [
      | inl both ↦
          let slots : slot_of a ≡ slot_of x = ground arith in
          let offs : a - page_base a ≡ x - page_base x = ground arith in
          let pages = sym h ∙ ap p.base slots ∙ k in absurd (ground arith)
      | inr apart ↦ apart
    ]

module _ {F : Type 0} (dev : Device F) (limit : ℕ) (law : IsDevice dev limit) where
  -- A byte put into the page at slot `s`.
  pub put-base : (p : Pages F) (s off v : ℕ) → (put_byte dev p s off v).base ≡ p.base
  unfolding put_byte
  put-base p s off v = elim (Bool-cases (p.buf s off == v)) [
    | inl e ↦ rw e refl
    | inr e ↦ rw e refl
  ]

  pub put-flash : (p : Pages F) (s off v : ℕ) → (put_byte dev p s off v).flash ≡ p.flash
  unfolding put_byte
  put-flash p s off v = elim (Bool-cases (p.buf s off == v)) [
    | inl e ↦ rw e refl
    | inr e ↦ rw e refl
  ]

  put-kept : (p : Pages F) (s off v : ℕ) → (p.buf s off == v) ≡ true → put_byte dev p s off v ≡ p
  unfolding put_byte
  put-kept p s off v e = rw e refl

  put-changed :
      (p : Pages F) (s off v : ℕ)
      → (p.buf s off == v) ≡ false
      → put_byte dev p s off v
        ≡ record p { buf = update p.buf s (update (p.buf s) off v); dirty = update p.dirty s true }
  unfolding put_byte
  put-changed p s off v e = rw e refl

  put-buf :
      (p : Pages F) (s off v t x : ℕ)
      → (put_byte dev p s off v).buf t x ≡ (if s == t && off == x then v else p.buf t x)
  put-buf p s off v t x = elim (Bool-cases (p.buf s off == v)) [
    | inl e ↦
        let is_v : p.buf s off ≡ v = ground arith in
        ap (λ q. q.buf t x) (put-kept p s off v e) ∙ sym (same_value p s off v t x is_v)
    | inr e ↦ ap (λ q. q.buf t x) (put-changed p s off v e) ∙ elim (Bool-cases (s == t)) [
      | inl h ↦ let same : s ≡ t = ground arith in rw (h, same) refl
      | inr h ↦ rw h refl
    ]
  ]

  -- A byte that ends clean was clean and is unchanged.
  put-dirty :
      (p : Pages F) (s off v t : ℕ)
      → (put_byte dev p s off v).dirty t ≡ false
      → (p.dirty t ≡ false) × ((put_byte dev p s off v).buf t ≡ p.buf t)
  put-dirty p s off v t h = elim (Bool-cases (p.buf s off == v)) [
    | inl e ↦
        let kept = put-kept p s off v e in
        (ap (λ q. q.dirty t) (sym kept) ∙ h, ap (λ q. q.buf t) kept)
    | inr e ↦
        let changed = put-changed p s off v e in
        let after = ap (λ q. q.dirty t) (sym changed) ∙ h in
        elim (Bool-cases (s == t)) [
          | inl k ↦ absurd (marked s t p.dirty k after)
          | inr k ↦ (unmarked s t p.dirty k ∙ after, ap (λ q. q.buf t) changed ∙ rw k refl)
        ]
  ]

  pub put-IsPages :
      (p : Pages F) (s off v : ℕ) → IsPages dev limit p → IsPages dev limit (put_byte dev p s off v)
  put-IsPages p s off v good t h =
      let base = put-base p s off v in
      let o = good t (ap (λ f. f t == orow_none) (sym base) ∙ h) in
      let flash = put-flash p s off v in
      record {
        aligned = subst (λ f. page_base (f t) ≡ f t) (sym base) o.aligned;
        slot = ap (λ f. orow_slot (f t)) base ∙ o.slot;
        inside = subst (λ f. f t + outrow ≤ limit) (sym base) o.inside;
        clean = λ d x fit.
            (let (c, same) = put-dirty p s off v t d in
              ap (λ g. g x) same
              ∙ o.clean c x fit
              ∙ ap₂ (λ f g. image_flash_read dev f (g t + x)) (sym flash) (sym base));
      }

  -- An address that is not written.
  out_read-unwritten :
      (p : Pages F) (a v x : ℕ)
      → p.base (slot_of a) ≡ page_base a
      → (x == a) ≡ false
      → out_read dev (put_byte dev p (slot_of a) (a - page_base a) v) x
        ≡ (if x == a then v else out_read dev p x)
  out_read-unwritten p a v x h e =
      let s = slot_of a in
      let off = a - page_base a in
      let t = slot_of x in
      let q = put_byte dev p s off v in
      let base = ap (λ f. f t) (put-base p s off v) in
      let flash = ap (λ f. image_flash_read dev f x) (put-flash p s off v) in
      elim (Bool-cases (p.base t == page_base x)) [
        | inl k ↦
            let held : p.base t ≡ page_base x = ground arith in
            let other : (s == t && off == x - page_base x) ≡ false = other_byte p a x h held e in
            out_read-hit dev limit law q x (base ∙ held)
            ∙ put-buf p s off v t (x - page_base x)
            ∙ rw (other, e) (sym (out_read-hit dev limit law p x held))
        | inr k ↦
            out_read-miss dev limit law q x (ap (λ b. b == page_base x) base ∙ k)
            ∙ flash
            ∙ rw e (sym (out_read-miss dev limit law p x k))
      ]

  -- The byte is read back at its address, and everything else as before.
  pub out_read-put :
      (p : Pages F) (a v x : ℕ)
      → p.base (slot_of a) ≡ page_base a
      → out_read dev (put_byte dev p (slot_of a) (a - page_base a) v) x
        ≡ (if x == a then v else out_read dev p x)
  out_read-put p a v x h =
      let s = slot_of a in
      let off = a - page_base a in
      let q = put_byte dev p s off v in
      let base = ap (λ f. f (slot_of x)) (put-base p s off v) in
      let buf = put-buf p s off v (slot_of x) (x - page_base x) in
      elim (Bool-cases (x == a)) [
        | inl e ↦
            let same : x ≡ a = ground arith in
            let own : (s == slot_of x && off == x - page_base x) ≡ true =
              rw same (own_byte s off) in
            out_read-hit dev limit law q x
              (base ∙ ap (λ y. p.base (slot_of y)) same ∙ h ∙ ap page_base (sym same))
            ∙ buf
            ∙ rw (own, e) refl
        | inr e ↦ out_read-unwritten p a v x h e
      ]
