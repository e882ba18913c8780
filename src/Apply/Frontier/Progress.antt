-- ===== src/Apply/Frontier/Progress.antt =====
-- Every operation of src/patch_apply.h that is accepted brings the frontier closer to its end, and the
-- loop of up_decode_body ends there or with an error.
use ultra_patch.Base.{
  ℕ, zero, suc, ◌+◌, ◌-◌, ◌≤◌, ◌<◌, ◌≡◌, ◌⊎◌, inl, inr, refl, sym, subst, Bool, true, false, ltb,
  not, ◌||◌, if◌then◌else◌, if_cases, Option, none, some, arith,
}
use ultra_patch.Base.Int.{ℤ, pos, ◌+ℤ◌, ◌-ℤ◌}
use ultra_patch.Field.Thumb.{is_i32}
use ultra_patch.Apply.Pages.{Device, Pages}
use ultra_patch.Apply.Content.{Geo}
use ultra_patch.Apply.Copy.{Applying, stopped, stop}
use ultra_patch.Apply.Step.{
  Lengths, Place, read_lengths, place_up, place_down, lengths_fit, op_at, apply_op, arrived,
  ops_loop,
}
use ultra_patch.Apply.Frontier.{Between, Advance, Advance-quiet, not_both, Advance-subst}
use ultra_patch.Apply.Frontier.Single.{op_from, op_to, op_at-Advance}

-- Where the frontier ends, and how far it has to go.
abbrev pub goal : Bool → ℕ → ℕ
goal true to_size = to_size
goal false to_size = 0

abbrev pub distance : Bool → ℕ → ℕ → ℕ
distance true to_size tp = to_size - tp
distance false to_size tp = tp

-- A place for an operation between a cursor and the end.
record IsPlace (fwd : Bool) (to_size tp : ℕ) (g : Lengths) (pl : Place) : Type 0 where
  pub from : op_from fwd pl.tp0 g.dl g.el ≡ tp
  pub to : op_to fwd pl.tp0 g.dl g.el ≡ pl.tp
  pub range : Between fwd tp pl.tp (goal fwd to_size)
  pub closer : distance fwd to_size pl.tp < distance fwd to_size tp

abbrev PlaceOf : Bool → ℕ → ℕ → Lengths → Option Place → Type 0
PlaceOf fwd to_size tp g none = Unit
PlaceOf fwd to_size tp g (some pl) = IsPlace fwd to_size tp g pl

lengths_positive : (geo : Geo) (g : Lengths) → lengths_fit geo g ≡ true → 0 < g.dl + g.el
unfolding lengths_fit
lengths_positive geo g h = ground arith

places :
    (fwd : Bool) (to_size tp : ℕ) (fp : ℤ) (g : Lengths)
    → 0 < g.dl + g.el
    → PlaceOf fwd to_size tp g (if fwd then place_up to_size tp fp g else place_down tp fp g)
unfolding place_up place_down
places true to_size tp fp g more =
    let nw = g.dl + g.el in
    let near = fp +ℤ pos g.dl in
    let nfp = near +ℤ g.adj in
    let refuse = ltb to_size nw || ltb (to_size - nw) tp || not (is_i32 near) || not (is_i32 nfp) in
    let pl : Place = record { tp0 = tp; fp0 = fp; tp = tp + nw; fp = nfp } in
    if_cases (PlaceOf true to_size tp g) refuse none (some pl) (λ e. tt)
      (λ e.
        let wide : nw ≤ to_size = ground arith in
        let room : tp ≤ to_size - nw = ground arith in
        record {
          from = refl;
          to = omega arith;
          range = (omega arith, omega arith);
          closer = omega arith;
        })
places false to_size tp fp g more =
    let nw = g.dl + g.el in
    let near = fp -ℤ pos g.dl in
    let nfp = near -ℤ g.adj in
    let refuse = ltb tp nw || not (is_i32 near) || not (is_i32 nfp) in
    let pl : Place = record { tp0 = tp - nw; fp0 = nfp; tp = tp - nw; fp = nfp } in
    if_cases (PlaceOf false to_size tp g) refuse none (some pl) (λ e. tt)
      (λ e.
        let room : nw ≤ tp = ground arith in
        record {
          from = omega arith;
          to = refl;
          range = (omega arith, omega arith);
          closer = omega arith;
        })

fits : (a b : Bool) → (a || not b) ≡ false → b ≡ true
fits a true h = refl
fits a false h = absurd (ground arith)

either : (a b : Bool) → (a || b) ≡ true → (a ≡ true) ⊎ (b ≡ true)
either true b h = inl refl
either false b h = inr h

left_clear : (a b : Bool) → (a || b) ≡ false → a ≡ false
left_clear true b h = h
left_clear false b h = refl

module _ {F : Type 0} (dev : Device F) (geo : Geo) (p : Pages F) (a : ℕ) where
  -- The frontier is at the cursor, on a path from `a` to the end.
  pub record OnWay (st : Applying F) : Type 0 where
    pub comes : Advance dev geo.fwd p a st.tp st.tp st
    pub ahead : Between geo.fwd a st.tp (goal geo.fwd geo.to_size)

  -- What an operation makes of a state on its way: closer to the end, or stopped before it.
  pub record Goes (tp : ℕ) (st : Applying F) : Type 0 where
    pub way : OnWay st
    pub closer :
        (stopped st ≡ true) ⊎ (distance geo.fwd geo.to_size st.tp < distance geo.fwd geo.to_size tp)

  stops : (tp : ℕ) (st : Applying F) → OnWay st → Goes tp (stop st)
  stops tp st h = record {
    way = record {
      comes =
          Advance-quiet dev geo.fwd p a st.tp st.tp st (stop st) h.comes refl refl (λ bad. refl);
      ahead = h.ahead;
    };
    closer = inl refl;
  }

  Between-far :
      (fwd : Bool) (x y z w : ℕ)
      → Between fwd x y w
      → Between fwd y z w
      → Between fwd x y z × Between fwd x z w
  Between-far true x y z w h k = ((omega arith, omega arith), (omega arith, omega arith))
  Between-far false x y z w h k = ((omega arith, omega arith), (omega arith, omega arith))

  op_at-Goes :
      (st : Applying F) (g : Lengths) (o : Option Place)
      → OnWay st
      → PlaceOf geo.fwd geo.to_size st.tp g o
      → Goes st.tp (op_at dev geo st g o)
  unfolding op_at
  op_at-Goes st g none h k = stops st.tp st h
  op_at-Goes st g (some pl) h k =
      let (span, ahead) =
        Between-far geo.fwd a st.tp pl.tp (goal geo.fwd geo.to_size) h.ahead k.range in
      let r = op_at dev geo st g (some pl) in
      let far =
        subst (λ n. Between geo.fwd a n (op_to geo.fwd pl.tp0 g.dl g.el)) (sym k.from)
          (subst (λ n. Between geo.fwd a st.tp n) (sym k.to) span) in
      let s = op_at-Advance dev geo p a pl.tp st pl g st.tp refl far (
        Advance-subst dev geo.fwd p a st.tp (op_from geo.fwd pl.tp0 g.dl g.el) st.tp st h.comes
          (sym k.from)) in
      let comes =
        Advance-subst dev geo.fwd p a (op_to geo.fwd pl.tp0 g.dl g.el) pl.tp pl.tp r s k.to in
      let at = sym s.cursor in
      record {
        way = record {
          comes = subst (λ n. Advance dev geo.fwd p a n n r) at comes;
          ahead = subst (λ n. Between geo.fwd a n (goal geo.fwd geo.to_size)) at ahead;
        };
        closer = inr (
            subst (λ n. distance geo.fwd geo.to_size n < distance geo.fwd geo.to_size st.tp) at
              k.closer);
      }

  -- From a state without an error whose frontier is at its cursor, an operation leads to such a state
  -- again that is strictly closer to the end, or sets the error latch; what it wrote on the way are
  -- consecutive addresses, each once.
  pub apply_op-Goes :
      (st : Applying F) → OnWay st → stopped st ≡ false → Goes st.tp (apply_op dev geo st)
  unfolding apply_op read_lengths
  apply_op-Goes st h clear =
      let (g, st1) = read_lengths st in
      let place =
        if geo.fwd then place_up geo.to_size st.tp st.fp g else place_down st.tp st.fp g in
      let h1 : OnWay st1 = record {
        comes =
            Advance-quiet dev geo.fwd p a st.tp st.tp st st1 h.comes refl refl
              (λ bad. absurd (not_both (stopped st) bad clear));
        ahead = h.ahead;
      } in
      if_cases (Goes st.tp) (stopped st1 || not (lengths_fit geo g)) (stop st1)
        (op_at dev geo st1 g place) (λ e. stops st.tp st1 h1)
        (λ e. op_at-Goes st1 g place h1 (
          places geo.fwd geo.to_size st.tp st.fp g
            (lengths_positive geo g (fits (stopped st1) (lengths_fit geo g) e))))

  -- With fuel beyond the distance the loop ends with an error or at the end.
  pub ops_loop-ends :
      (fuel : ℕ) (st : Applying F)
      → OnWay st
      → (stopped st ≡ true) ⊎ (distance geo.fwd geo.to_size st.tp < fuel)
      → OnWay (ops_loop dev geo fuel st)
        × ((stopped (ops_loop dev geo fuel st) ≡ true)
            ⊎ (arrived dev geo (ops_loop dev geo fuel st) ≡ true))
  unfolding ops_loop
  ops_loop-ends zero st h (inl bad) = (h, inl bad)
  ops_loop-ends zero st h (inr fit) = absurd (omega arith)
  ops_loop-ends (suc fuel) st h enough =
      let st1 = apply_op dev geo st in
      if_cases (λ (r : Applying F). OnWay r × ((stopped r ≡ true) ⊎ (arrived dev geo r ≡ true)))
        (stopped st || arrived dev geo st) st (ops_loop dev geo fuel st1)
        (λ e. (h, either (stopped st) (arrived dev geo st) e))
        (λ e.
          let clear = left_clear (stopped st) (arrived dev geo st) e in
          let goes = apply_op-Goes st h clear in
          ops_loop-ends fuel st1 goes.way (elim goes.closer [
            | inl bad ↦ inl bad
            | inr less ↦ elim enough [
              | inl bad ↦ absurd (not_both (stopped st) bad clear)
              | inr fit ↦ inr (omega arith)
            ]
          ]))
