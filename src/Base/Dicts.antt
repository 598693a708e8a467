-- ===== src/Base/Dicts.antt =====
-- A `HashMap<String, V>` as a list of its entries. Where the program walks a map, it meets the entries
-- in the order of the list; the standard library leaves the order open.
use Prim.Native.Nat.{suc, ◌≤◌, ◌+◌}
use mathlib.Core.Path.{◌≡◌, refl, ap, sym}
use mathlib.Core.Bool.{Bool, true}
use mathlib.Core.Logic.{inl, inr}
use mathlib.Core.Option.{Option, none, some}
use mathlib.Core.List.{List, [], ◌∷◌}
use native.Mathlib.Omega.{arith}
use elrond.Base.Lists.{In, length}
use elrond.Base.Strings.{Text, text_eq, text_eq_iff, text_eq_refl}
use elrond.Base.Tests.{if◌then◌else◌, is_some}

abbrev pub Dict : Type 0 → Type 0
Dict V = List (Text × V)

module _ {V : Type 0} where
  unfoldable pub lookup : Text → Dict V → Option V
  lookup k [] = none
  lookup k ((j, v) ∷ m) = if text_eq j k then some v else lookup k m

  -- `insert`, and a write through `entry` or `get_mut`: in place, or a new entry
  unfoldable pub insert : Text → V → Dict V → Dict V
  insert k v [] = (k, v) ∷ []
  insert k v ((j, w) ∷ m) = if text_eq j k then (j, v) ∷ m else (j, w) ∷ insert k v m

  unfoldable pub remove : Text → Dict V → Dict V
  remove k [] = []
  remove k ((j, v) ∷ m) = let rest = remove k m in if text_eq j k then rest else (j, v) ∷ rest

  abbrev pub contains_key : Text → Dict V → Bool
  contains_key k m = is_some (lookup k m)

  pub lookup-insert :
      (key asked : Text) (v : V) (m : Dict V)
      → lookup asked (insert key v m) ≡ (if text_eq key asked then some v else lookup asked m)
  unfolding lookup insert
  lookup-insert key asked v [] = refl
  lookup-insert key asked v ((held, old) ∷ m) = ground (
    arith,
    text_eq_iff key asked,
    text_eq_iff held key,
    text_eq_iff held asked,
    lookup-insert key asked v m,
  )

  pub lookup-remove :
      (k j : Text) (m : Dict V) → lookup j (remove k m) ≡ (if text_eq k j then none else lookup j m)
  unfolding lookup remove
  lookup-remove k j [] = ground arith
  lookup-remove k j ((i, w) ∷ m) =
      ground (arith, text_eq_iff k j, text_eq_iff i k, text_eq_iff i j, lookup-remove k j m)

  pub length-insert :
      (k : Text) (v : V) (m : Dict V)
      → length (insert k v m) ≡ (if contains_key k m then length m else suc (length m))
  unfolding lookup insert
  length-insert k v [] = refl
  length-insert k v ((j, w) ∷ m) = ground (arith, length-insert k v m)

  pub length-remove :
      (k : Text) (m : Dict V)
      → (length (remove k m) ≤ length m)
        × (length (remove k m) + (if contains_key k m then 1 else 0) ≤ length m)
  unfolding lookup remove
  length-remove k [] = omega arith
  length-remove k ((j, v) ∷ m) = ground (arith, length-remove k m)

  pub In-contains_key : (e : Text × V) (m : Dict V) → In e m → contains_key e.0 m ≡ true
  unfolding lookup
  In-contains_key e [] h = absurd h
  In-contains_key e ((j, v) ∷ m) (inl q) = rw (ap (λ p. text_eq p.0 e.0) (sym q), text_eq_refl e.0)
  In-contains_key e ((j, v) ∷ m) (inr n) = ground (arith, In-contains_key e m n)
