-- ===== src/Base/Lists.antt =====
-- Lists over the native numbers, with the library's names.
use Prim.Native.Nat.{ℕ, zero, suc, ◌+◌}
use mathlib.Core.Path.{subst, ◌≡◌, refl}
use mathlib.Core.Bool.{Bool, true, false, ◌&&◌, ◌||◌}
use mathlib.Core.Logic.{◌⊎◌, inl, inr}
use mathlib.Core.Option.{Option, none, some}
use mathlib.Core.List.{List, [], ◌∷◌, ◌++◌}
use native.Mathlib.Omega.{arith}
use elrond.Base.Tests.{if◌then◌else◌, Bool-cases}

module _ {ℓ} {A : Type ℓ} where
  abbrev pub length : List A → ℕ
  length [] = 0
  length (x ∷ xs) = suc (length xs)

  abbrev pub get_elem? : List A → ℕ → Option A
  get_elem? [] i = none
  get_elem? (x ∷ xs) zero = some x
  get_elem? (x ∷ xs) (suc i) = get_elem? xs i

  abbrev pub take : ℕ → List A → List A
  take zero xs = []
  take (suc n) [] = []
  take (suc n) (x ∷ xs) = x ∷ take n xs

  abbrev pub drop : ℕ → List A → List A
  drop zero xs = xs
  drop (suc n) [] = []
  drop (suc n) (x ∷ xs) = drop n xs

  abbrev pub replicate : ℕ → A → List A
  replicate zero a = []
  replicate (suc n) a = a ∷ replicate n a

  abbrev pub is_empty : List A → Bool
  is_empty [] = true
  is_empty (_ ∷ _) = false

  -- `Vec::retain`, `Iterator::filter`
  abbrev pub retain : (A → Bool) → List A → List A
  retain p [] = []
  retain p (x ∷ xs) = let rest = retain p xs in if p x then x ∷ rest else rest

  -- `Iterator::any`
  abbrev pub any : (A → Bool) → List A → Bool
  any p [] = false
  any p (x ∷ xs) = p x || any p xs

  abbrev pub all : (A → Bool) → List A → Bool
  all p [] = true
  all p (x ∷ xs) = p x && all p xs

  -- every element, as a product that the tactics read
  abbrev pub All {κ} : (A → Type κ) → List A → Type κ
  All P [] = Unit
  All P (x ∷ xs) = P x × All P xs

  pub length-append : (xs ys : List A) → length (xs ++ ys) ≡ length xs + length ys
  length-append [] ys = omega arith
  length-append (x ∷ xs) ys = omega (arith, length-append xs ys)

  pub All-append {κ} : (P : A → Type κ) (xs ys : List A) → All P xs → All P ys → All P (xs ++ ys)
  All-append P [] ys h k = k
  All-append P (x ∷ xs) ys h k = (h.0, All-append P xs ys h.1 k)

module _ {A : Type 0} where
  -- membership, as a sum that the tactics read
  abbrev pub In : A → List A → Type 0
  In a [] = ⊥
  In a (x ∷ xs) = (a ≡ x) ⊎ In a xs

  pub In-eq : (a b : A) (xs : List A) → a ≡ b → In a xs → In b xs
  In-eq a b xs e m = subst (λ c. In c xs) e m

  pub All-In {κ} : (P : A → Type κ) (a : A) (xs : List A) → All P xs → In a xs → P a
  All-In P a [] h m = absurd m
  All-In P a (x ∷ xs) h (inl e) = rw e h.0
  All-In P a (x ∷ xs) h (inr m) = All-In P a xs h.1 m

  pub In-retain : (p : A → Bool) (a : A) (xs : List A) → In a xs → p a ≡ true → In a (retain p xs)
  In-retain p a [] m h = absurd m
  In-retain p a (x ∷ xs) (inl e) h = rw (← e) (rw h (inl refl))
  In-retain p a (x ∷ xs) (inr m) h = elim (Bool-cases (p x)) [
    | inl t ↦ rw t (inr (In-retain p a xs m h))
    | inr f ↦ rw f (In-retain p a xs m h)
  ]

  pub retain-In : (p : A → Bool) (a : A) (xs : List A) → In a (retain p xs) → In a xs × (p a ≡ true)
  retain-In p a [] m = absurd m
  retain-In p a (x ∷ xs) m = elim (Bool-cases (p x)) [
    | inl t ↦ elim (split (rw t at m)) [
      | inl e ↦ (inl e, rw e t)
      | inr n ↦ let (i, q) = retain-In p a xs n in (inr i, q)
    ]
    | inr f ↦ let (i, q) = retain-In p a xs (rw f at m) in (inr i, q)
  ]
    where
      split : In a (x ∷ retain p xs) → (a ≡ x) ⊎ In a (retain p xs)
      split n = n

  pub In-All {κ} : (P : A → Type κ) (xs : List A) → ((a : A) → In a xs → P a) → All P xs
  In-All P [] f = tt
  In-All P (x ∷ xs) f = (f x (inl refl), In-All P xs (λ a m. f a (inr m)))

  pub In-is_empty : (a : A) (xs : List A) → In a xs → is_empty xs ≡ false
  In-is_empty a [] m = absurd m
  In-is_empty a (x ∷ xs) m = refl
