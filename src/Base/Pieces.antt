-- ===== src/Base/Pieces.antt =====
-- What stands among the pieces of a text that is split.
use Prim.Native.Nat.{ℕ}
use mathlib.Core.Path.{◌≡◌, refl}
use mathlib.Core.Bool.{Bool, true}
use mathlib.Core.Logic.{inl, inr}
use mathlib.Core.List.{List, [], ◌∷◌, ◌++◌}
use native.Mathlib.Omega.{arith}
use elrond.Base.Tests.{◌==◌, Bool-cases}
use elrond.Base.Lists.{any}
use elrond.Base.Strings.{Text}
use elrond.Base.Trim.{split}

pub split-cons : (sep : ℕ) (s : Text) → (p : Text) × (ps : List Text) × (split sep s ≡ p ∷ ps)
unfolding split
split-cons sep [] = ([], [], refl)
split-cons sep (c ∷ cs) =
    let (p, ps, q) = split-cons sep cs in
    elim (Bool-cases (c == sep)) [
      | inl h ↦ ([], p ∷ ps, rw (q, h) refl)
      | inr h ↦ (c ∷ p, ps, rw (q, h) refl)
    ]

module _ (P : Text → Bool) (sep : ℕ) where
  split-separator :
      (b : Text) (pieces : List Text)
      → split sep b ≡ pieces
      → any P pieces ≡ true
      → (p : Text) × (ps : List Text) × (split sep (sep ∷ b) ≡ p ∷ ps) × (any P ps ≡ true)
  unfolding split
  split-separator b [] e h = absurd cc
  split-separator b (piece ∷ pieces) e h =
      let same : (sep == sep) ≡ true = ground arith in ([], piece ∷ pieces, rw (e, same) refl, h)

  -- the pieces behind a separator stay pieces
  pub split-behind :
      (a b : Text)
      → any P (split sep b) ≡ true
      → (p : Text) × (ps : List Text) × (split sep (a ++ sep ∷ b) ≡ p ∷ ps) × (any P ps ≡ true)
  unfolding split
  split-behind [] b h = split-separator b (split sep b) refl h
  split-behind (c ∷ a) b h =
      let (p, ps, e, g) = split-behind a b h in
      elim (Bool-cases (c == sep)) [
        | inl t ↦ ([], p ∷ ps, rw (e, t) refl, ground (arith, g))
        | inr f ↦ (c ∷ p, ps, rw (e, f) refl, g)
      ]
