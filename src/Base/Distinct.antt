-- ===== src/Base/Distinct.antt =====
-- Dictionaries that hold each key once, as a `HashMap` does.
use Prim.Native.Nat.{ℕ, ◌+◌}
use mathlib.Core.Path.{◌≡◌, refl, ap, sym}
use mathlib.Core.Bool.{true, false}
use mathlib.Core.Option.{none, some}
use mathlib.Core.List.{[], ◌∷◌}
use mathlib.Core.Logic.{inl, inr}
use elrond.Base.Lists.{In}
use native.Mathlib.Omega.{arith}
use elrond.Base.Strings.{Text, text_eq, text_eq_iff}
use elrond.Base.Dicts.{
  Dict, lookup, insert, remove, contains_key, lookup-insert, lookup-remove, In-contains_key,
}
use elrond.Base.Tests.{unwrap_or}

module _ {V : Type 0} where
  abbrev pub IsDistinct : Dict V → Type 0
  IsDistinct [] = Unit
  IsDistinct ((k, v) ∷ m) = (contains_key k m ≡ false) × IsDistinct m

  pub insert-IsDistinct : (k : Text) (v : V) (m : Dict V) → IsDistinct m → IsDistinct (insert k v m)
  unfolding insert lookup
  insert-IsDistinct k v [] d = (refl, tt)
  insert-IsDistinct k v ((j, w) ∷ m) d =
      ground (
        arith,
        text_eq_iff j k,
        text_eq_iff k j,
        lookup-insert k j v m,
        insert-IsDistinct k v m d.1,
      )

  pub remove-IsDistinct : (k : Text) (m : Dict V) → IsDistinct m → IsDistinct (remove k m)
  unfolding remove
  remove-IsDistinct k [] d = tt
  remove-IsDistinct k ((j, w) ∷ m) d =
      ground (arith, lookup-remove k j m, remove-IsDistinct k m d.1)

  pub In-lookup : (k : Text) (v : V) (m : Dict V) → IsDistinct m → In (k, v) m → lookup k m ≡ some v
  unfolding lookup
  In-lookup k v [] d i = absurd i
  In-lookup k v ((j, w) ∷ m) d (inl e) =
      let same : text_eq j k ≡ true = (text_eq_iff j k).1 (sym (ap (λ p. p.0) e)) in
      rw (same, ap (λ p. p.1) e) refl
  In-lookup k v ((j, w) ∷ m) d (inr i) =
      ground (arith, text_eq_iff j k, In-contains_key (k, v) m i, In-lookup k v m d.1 i)

-- what a map to numbers holds, a missing key counting as 0
abbrev pub count : Text → Dict ℕ → ℕ
count k m = unwrap_or (lookup k m) 0

-- the sum of a measure over the entries
module _ {V : Type 0} (f : V → ℕ) where
  abbrev pub sum_of : Dict V → ℕ
  sum_of [] = 0
  sum_of ((k, v) ∷ m) = f v + sum_of m

  abbrev pub size_at : Text → Dict V → ℕ
  size_at k m = elim (lookup k m) [ none ↦ 0 | some v ↦ f v ]

  pub sum_of-insert :
      (k : Text) (v : V) (m : Dict V) → sum_of (insert k v m) + size_at k m ≡ sum_of m + f v
  unfolding insert lookup
  sum_of-insert k v [] = omega arith
  sum_of-insert k v ((j, w) ∷ m) = ground (arith, sum_of-insert k v m)

  pub remove-missing : (k : Text) (m : Dict V) → contains_key k m ≡ false → remove k m ≡ m
  unfolding remove lookup
  remove-missing k [] h = refl
  remove-missing k ((j, w) ∷ m) h = ground (arith, remove-missing k m)

  pub sum_of-remove :
      (k : Text) (m : Dict V) → IsDistinct m → sum_of (remove k m) + size_at k m ≡ sum_of m
  unfolding remove lookup
  sum_of-remove k [] d = omega arith
  sum_of-remove k ((j, w) ∷ m) d =
      ground (arith, text_eq_iff j k, remove-missing k m, sum_of-remove k m d.1)
