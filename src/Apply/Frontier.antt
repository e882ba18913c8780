-- ===== src/Apply/Frontier.antt =====
-- The frontier of the writes: up_apply_op of src/patch_apply.h writes the addresses one after the
-- other, ascending or descending.
pub mod Bytes
pub mod Copies
pub mod Loops
pub mod Single
pub mod Progress
use ultra_patch.Base.{
  ℕ, suc, ◌+◌, ◌-◌, ◌≤◌, ◌<◌, ◌≡◌, ◌⊎◌, inl, inr, refl, sym, ap, ◌∙◌, subst, Bool, true, false,
  if◌then◌else◌, arith,
}
use ultra_patch.Apply.Pages.{Device, Pages, out_write}
use ultra_patch.Apply.Copy.{Applying, stopped}

-- From frontier `b` the address that is written, and the next frontier.
abbrev pub Moves : Bool → ℕ → ℕ → ℕ → Type 0
Moves true b addr c = (addr ≡ b) × (c ≡ b + 1)
Moves false b addr c = (b ≡ addr + 1) × (c ≡ addr)

-- The pages that come of `p` by writing from frontier `a` to `b`, each address once.
pub data Frontier {F : Type 0} (dev : Device F) (fwd : Bool) (p : Pages F) (a : ℕ)
    : Pages F → ℕ → Type 0 where
  still : Frontier dev fwd p a p a
  wrote :
      {q : Pages F} {b : ℕ} (addr c v : ℕ)
      → Frontier dev fwd p a q b
      → Moves fwd b addr c
      → Frontier dev fwd p a (out_write dev q addr v) c

-- `b` lies between `a` and `c` in the direction of the writes.
abbrev pub Between : Bool → ℕ → ℕ → ℕ → Type 0
Between true a b c = (a ≤ b) × (b ≤ c)
Between false a b c = (c ≤ b) × (b ≤ a)

-- A state that has come to the frontier `b`, or has stopped on the way there. Its cursor is `tp`.
pub record Advance {F : Type 0} (dev : Device F) (fwd : Bool) (p : Pages F) (a b tp : ℕ)
    (st : Applying F) : Type 0 where
  pub at : ℕ
  pub path : Frontier dev fwd p a st.pages at
  pub within : Between fwd a at b
  pub ends : (stopped st ≡ true) ⊎ (at ≡ b)
  pub cursor : st.tp ≡ tp

-- What a step does that is to write the byte at one address.
abbrev pub Wrote : {F : Type 0} → Device F → Applying F → ℕ → Applying F → Type 0
Wrote dev st addr st' =
    ((stopped st' ≡ true) × (st'.pages ≡ st.pages))
    ⊎ ((stopped st ≡ false) × ((v : ℕ) × (st'.pages ≡ out_write dev st.pages addr v)))

Between-further :
    (fwd : Bool) (a m b c : ℕ) → Between fwd a m b → Between fwd a b c → Between fwd a m c
Between-further true a m b c h k = (h.0, omega arith)
Between-further false a m b c h k = (omega arith, h.1)

Between-end : (fwd : Bool) (a b c : ℕ) → Between fwd a b c → Between fwd a c c
Between-end true a b c h = (omega arith, omega arith)
Between-end false a b c h = (omega arith, omega arith)

pub not_both : (b : Bool) → b ≡ true → b ≡ false → ⊥
not_both b h k = let e = sym h ∙ k in absurd (ground arith)

-- The write of a state that has not stopped, whose frontier is therefore `b`.
wrote_at :
    {F : Type 0}
    → (dev : Device F) (fwd : Bool) (p : Pages F) (a b addr c tp v : ℕ) (st st' : Applying F)
    → (h_at : ℕ) → h_at ≡ b
    → Frontier dev fwd p a st.pages h_at
    → Between fwd a c c
    → Moves fwd b addr c
    → st'.pages ≡ out_write dev st.pages addr v
    → st'.tp ≡ tp
    → Advance dev fwd p a c tp st'
wrote_at dev fwd p a b addr c tp v st st' h_at at path far m w e =
    let path' = subst (λ n. Frontier dev fwd p a st.pages n) at path in
    record {
      at = c;
      path = subst (λ q. Frontier dev fwd p a q c) (sym w) (wrote addr c v path' m);
      within = far;
      ends = inr refl;
      cursor = e;
    }

module _ {F : Type 0} (dev : Device F) (fwd : Bool) (p : Pages F) (a : ℕ) where
  pub Advance-Wrote :
      (b addr c tp : ℕ) (st st' : Applying F)
      → Advance dev fwd p a b tp st
      → Between fwd a b c
      → Moves fwd b addr c
      → Wrote dev st addr st'
      → st'.tp ≡ st.tp
      → Advance dev fwd p a c tp st'
  Advance-Wrote b addr c tp st st' h far m (inl (bad, same)) e = record {
    at = h.at;
    path = subst (λ q. Frontier dev fwd p a q h.at) (sym same) h.path;
    within = Between-further fwd a h.at b c h.within far;
    ends = inl bad;
    cursor = e ∙ h.cursor;
  }
  Advance-Wrote b addr c tp st st' h far m (inr (going, (v, w))) e = elim h.ends [
    | inl bad ↦ absurd (not_both (stopped st) bad going)
    | inr at ↦
        wrote_at dev fwd p a b addr c tp v st st' h.at at h.path (Between-end fwd a b c far) m w
          (e ∙ h.cursor)
  ]

  -- A step that writes nothing and does not clear the latch.
  pub Advance-quiet :
      (b tp : ℕ) (st st' : Applying F)
      → Advance dev fwd p a b tp st
      → st'.pages ≡ st.pages
      → st'.tp ≡ st.tp
      → (stopped st ≡ true → stopped st' ≡ true)
      → Advance dev fwd p a b tp st'
  Advance-quiet b tp st st' h same e keep = record {
    at = h.at;
    path = subst (λ q. Frontier dev fwd p a q h.at) (sym same) h.path;
    within = h.within;
    ends = elim h.ends [ inl bad ↦ inl (keep bad) | inr at ↦ inr at ];
    cursor = e ∙ h.cursor;
  }

  -- A state that has stopped may be said to be on the way to any later frontier.
  pub Advance-stopped :
      (b c tp : ℕ) (st : Applying F)
      → Advance dev fwd p a b tp st
      → Between fwd a b c
      → stopped st ≡ true
      → Advance dev fwd p a c tp st
  Advance-stopped b c tp st h far bad = record {
    at = h.at;
    path = h.path;
    within = Between-further fwd a h.at b c h.within far;
    ends = inl bad;
    cursor = h.cursor;
  }

  pub Advance-subst :
      (b c tp : ℕ) (st : Applying F)
      → Advance dev fwd p a b tp st
      → b ≡ c
      → Advance dev fwd p a c tp st
  Advance-subst b c tp st h e = subst (λ n. Advance dev fwd p a n tp st) e h
