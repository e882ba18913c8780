-- ===== src/Apply/Frontier/Loops.antt =====
-- The copy loop of up_apply_op in src/patch_apply.h, a round at a time.
use ultra_patch.Base.{
  ℕ, zero, suc, ◌+◌, ◌-◌, ◌*◌, ◌/◌, ◌≤◌, ◌<◌, ◌≡◌, inl, inr, refl, sym, ap, ◌∙◌, subst, Bool, true,
  false, ◌==◌, ◌||◌, leb, Bool-cases, if◌then◌else◌, if_cases, arith, ◌^◌, ltb,
}
use ultra_patch.Base.Int.{pos, ◌+ℤ◌, ◌-ℤ◌}
use ultra_patch.Base.Word.{u8, to_u32}
use ultra_patch.Apply.Pages.{Device, Pages}
use ultra_patch.Apply.Content.{Geo}
use ultra_patch.Apply.Relocs.{Field, no_field, packed, suppressed, field_at, hy_src_peek}
use ultra_patch.Apply.Relocs.Packed.{IsClear, field_at-IsClear}
use ultra_patch.Apply.Copy.{
  Applying, Op, Loop, stopped, source, loop_k, is_pure, copy_byte, copy_field, copy_window,
  copy_tail, copy_loop, slide_word, copy_round,
}
use ultra_patch.Apply.Frontier.{Between, Advance, Advance-quiet, Advance-stopped, not_both}
use ultra_patch.Apply.Frontier.Copies.{
  spot, spot-start, put_packed-Advance, put_copies-Advance, copy_byte-Advance,
}

second : (a b : Bool) → a ≡ false → (a || b) ≡ true → b ≡ true
second true b h k = absurd (not_both true refl h)
second false b h k = k

neither : (a b : Bool) → (a || b) ≡ false → b ≡ false
neither true b h = absurd (not_both true refl h)
neither false b h = h

-- A window of four bytes within the segment, from its start to its end.
abbrev window_at : Bool → ℕ → ℕ → ℕ
window_at fwd n left = if fwd then n - left else left - 4

window_start :
    (fwd : Bool) (lo n left : ℕ)
    → 4 ≤ left
    → left ≤ n
    → spot fwd lo n left ≡ spot fwd (lo + window_at fwd n left) 4 4
window_start true lo n left h k = omega arith
window_start false lo n left h k = omega arith

window_end :
    (fwd : Bool) (lo n left : ℕ)
    → 4 ≤ left
    → left ≤ n
    → spot fwd (lo + window_at fwd n left) 4 0 ≡ spot fwd lo n (left - 4)
window_end true lo n left h k = omega arith
window_end false lo n left h k = omega arith

window_ahead :
    (fwd : Bool) (a lo n left : ℕ)
    → Between fwd a (spot fwd lo n n) (spot fwd lo n 0)
    → 4 ≤ left
    → left ≤ n
    → Between fwd a
        (spot fwd (lo + window_at fwd n left) 4 4)
        (spot fwd (lo + window_at fwd n left) 4 0)
window_ahead true a lo n left h k i = (omega arith, omega arith)
window_ahead false a lo n left h k i = (omega arith, omega arith)

module _ {F : Type 0} (dev : Device F) (geo : Geo) (p : Pages F) (a tp : ℕ) where
  abbrev Comes : ℕ → Applying F → Type 0
  Comes b st = Advance dev geo.fwd p a b tp st

  abbrev Ahead : ℕ → ℕ → Type 0
  Ahead lo n = Between geo.fwd a (spot geo.fwd lo n n) (spot geo.fwd lo n 0)

  -- A loop on its way, and one that has gone on by at least a byte.
  record Runs (op : Op) (l : Loop F) : Type 0 where
    pub fit : l.left ≤ op.dl
    pub comes : Comes (spot geo.fwd op.tp0 op.dl l.left) l.st

  byte-Runs :
      (op : Op) (l : Loop F) (src : ℕ)
      → Ahead op.tp0 op.dl
      → 0 < l.left
      → Runs op l
      → Runs op (copy_byte dev geo op l src) × ((copy_byte dev geo op l src).left < l.left)
  unfolding copy_byte
  byte-Runs op l src far more r =
      let less : l.left - 1 < l.left = omega arith in
      let fit = r.fit in
      (
        record {
          fit = omega arith;
          comes = copy_byte-Advance dev geo p a tp op l src more r.fit far r.comes;
        },
        less,
      )

  -- A window that was written from its start to its end.
  window-Runs :
      (op : Op) (l l' : Loop F)
      → 4 ≤ l.left
      → Runs op l
      → l'.left ≡ l.left - 4
      → Comes (spot geo.fwd (op.tp0 + window_at geo.fwd op.dl l.left) 4 0) l'.st
      → Runs op l' × (l'.left < l.left)
  window-Runs op l l' more r e s =
      let fit = r.fit in
      let at = window_end geo.fwd op.tp0 op.dl l.left more r.fit in
      (
        record {
          fit = omega arith;
          comes = subst (λ n. Comes n l'.st) (at ∙ ap (λ n. spot geo.fwd op.tp0 op.dl n) (sym e)) s;
        },
        omega arith,
      )

  field-Runs :
      (op : Op) (l : Loop F) (fa : Field)
      → Ahead op.tp0 op.dl
      → 4 ≤ l.left
      → Runs op l
      → IsClear fa (stopped l.st)
      → Runs op (copy_field dev geo op l (window_at geo.fwd op.dl l.left) fa)
        × ((copy_field dev geo op l (window_at geo.fwd op.dl l.left) fa).left < l.left)
  unfolding copy_field
  field-Runs op l no_field far more r clear =
      byte-Runs op l (if geo.fwd then u8 l.srcw else u8 (l.srcw / 2 ^ 24)) far (omega arith) r
  field-Runs op l (packed bytes) far more r clear =
      let a0 = window_at geo.fwd op.dl l.left in
      window-Runs op l (copy_field dev geo op l a0 (packed bytes)) more r refl (
        put_packed-Advance dev geo p a tp 4 l.st op a0 bytes (omega arith)
          (window_ahead geo.fwd a op.tp0 op.dl l.left far more r.fit) clear
          (subst (λ n. Comes n l.st) (window_start geo.fwd op.tp0 op.dl l.left more r.fit) r.comes))
  field-Runs op l suppressed far more r clear =
      let a0 = window_at geo.fwd op.dl l.left in
      window-Runs op l (copy_field dev geo op l a0 suppressed) more r refl (
        put_copies-Advance dev geo p a tp 4 l.st op l.lc a0 l.srcw (omega arith)
          (window_ahead geo.fwd a op.tp0 op.dl l.left far more r.fit)
          (subst (λ n. Comes n l.st) (window_start geo.fwd op.tp0 op.dl l.left more r.fit) r.comes))

  -- The anchor of the window that the round looks at.
  anchor :
      (op : Op) (l : Loop F)
      → (if geo.fwd then loop_k dev geo op l else loop_k dev geo op l - 3)
        ≡ window_at geo.fwd op.dl l.left
  anchor op l = elim (Bool-cases geo.fwd) [ inl e ↦ rw e refl | inr e ↦ rw e (omega arith) ]

  copy_window-Runs :
      (op : Op) (l : Loop F)
      → Ahead op.tp0 op.dl
      → 4 ≤ l.left
      → stopped l.st ≡ false
      → Runs op l
      → Runs op (copy_window dev geo op l (window_at geo.fwd op.dl l.left))
        × ((copy_window dev geo op l (window_at geo.fwd op.dl l.left)).left < l.left)
  unfolding copy_window
  copy_window-Runs op l far more clear r =
      let a0 = window_at geo.fwd op.dl l.left in
      let w = slide_word dev geo op l a0 in
      let flash = source dev geo l.st in
      let pure = is_pure dev geo l.lc a0 in
      let (fa, rel, rc) = field_at geo flash l.st.relocs l.st.content.rc op.fp0 a0 w pure op.dl in
      let sound = field_at-IsClear geo flash l.st.relocs l.st.content.rc op.fp0 a0 w pure op.dl in
      let found : Applying F = record (l.st) {
        relocs = rel;
        content = record (l.st.content) { rc = rc };
      } in
      let l1 : Loop F = record l { st = found; srcw = w; srcw_at = pos a0 } in
      field-Runs op l1 fa far more
        (record {
          fit = r.fit;
          comes =
              Advance-quiet dev geo.fwd p a (spot geo.fwd op.tp0 op.dl l.left) tp l.st found r.comes
                refl refl (λ bad. absurd (not_both (stopped l.st) bad clear));
        })
        sound

  copy_round-Runs :
      (op : Op) (l : Loop F)
      → Ahead op.tp0 op.dl
      → 0 < l.left
      → stopped l.st ≡ false
      → Runs op l
      → Runs op (copy_round dev geo op l) × ((copy_round dev geo op l).left < l.left)
  unfolding copy_round copy_tail
  copy_round-Runs op l far some_left clear r =
      let k = loop_k dev geo op l in
      let d = to_u32 (pos k -ℤ l.srcw_at) in
      let src =
        if ltb d 4
        then u8 (l.srcw / 2 ^ (8 * d))
        else hy_src_peek geo (source dev geo l.st) (op.fp0 +ℤ pos k) in
      if_cases (λ (r : Loop F). Runs op r × (r.left < l.left)) (leb 4 l.left)
        (copy_window dev geo op l (if geo.fwd then k else k - 3)) (copy_byte dev geo op l src)
        (λ e.
          subst
            (λ n.
              Runs op (copy_window dev geo op l n) × ((copy_window dev geo op l n).left < l.left))
            (sym (anchor op l)) (copy_window-Runs op l far (ground arith) clear r))
        (λ e. byte-Runs op l src far some_left r)

  -- With a round for each byte that is left, the copy comes to its end or stops.
  pub copy_loop-Advance :
      (fuel : ℕ) (op : Op) (l : Loop F)
      → Ahead op.tp0 op.dl
      → l.left ≤ fuel
      → l.left ≤ op.dl
      → Comes (spot geo.fwd op.tp0 op.dl l.left) l.st
      → Comes (spot geo.fwd op.tp0 op.dl 0) (copy_loop dev geo fuel op l).st
  unfolding copy_loop
  copy_loop-Advance zero op l far enough fit s =
      let none_left : l.left ≡ 0 = omega arith in
      subst (λ n. Comes (spot geo.fwd op.tp0 op.dl n) l.st) none_left s
  copy_loop-Advance (suc fuel) op l far enough fit s =
      let fwd = geo.fwd in
      let l1 = copy_round dev geo op l in
      if_cases (λ (r : Loop F). Comes (spot fwd op.tp0 op.dl 0) r.st) (l.left == 0 || stopped l.st)
        l (copy_loop dev geo fuel op l1)
        (λ e. elim (Bool-cases (l.left == 0)) [
          | inl z ↦
              let none_left : l.left ≡ 0 = ground arith in
              subst (λ n. Comes (spot fwd op.tp0 op.dl n) l.st) none_left s
          | inr z ↦
              Advance-stopped dev fwd p a (spot fwd op.tp0 op.dl l.left) (spot fwd op.tp0 op.dl 0)
                tp l.st s (spot-start fwd a op.tp0 op.dl l.left 0 far (omega arith) fit)
                (second (l.left == 0) (stopped l.st) z e)
        ])
        (λ e.
          let some_left : 0 < l.left = ground arith in
          let (r, less) =
            copy_round-Runs op l far some_left (neither (l.left == 0) (stopped l.st) e)
              (record { fit = fit; comes = s }) in
          copy_loop-Advance fuel op l1 far (omega arith) r.fit r.comes)
