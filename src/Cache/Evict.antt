-- ===== src/Cache/Evict.antt =====
-- The store keeps each key once and counts its bytes, and each round of the loop of `put` takes one
-- variant out, so that as many rounds as there are variants are enough.
use elrond.Base.{
  ℕ, suc, ◌+◌, ◌≡◌, refl, inl, inr, Option, none, some, List, [], ◌∷◌, map, arith, leb,
  if◌then◌else◌, Option-cases, is_some, unwrap_or, if-intro, length, In, Text, text_eq, Dict,
  lookup, IsDistinct, insert-IsDistinct, remove-IsDistinct, sum_of, size_at, sum_of-insert,
  sum_of-remove,
}
use elrond.Cache.{
  State, Entry, sum, entry_bytes, take_variant, sooner, soonest_of, soonest, put_back, without,
  entry_count,
}

abbrev pub bytes_of : List Entry → ℕ
bytes_of vs = sum (map entry_bytes vs)

abbrev pub IsStore : State → Type 0
IsStore s = IsDistinct s.entries × (s.total_bytes ≡ sum_of bytes_of s.entries)

-- what is taken out and what stays make up the whole
abbrev pub IsParts : List Entry → Option (Entry × List Entry) → Type 0
IsParts vs none = Unit
IsParts vs (some (old, rest)) =
    (bytes_of rest + entry_bytes old ≡ bytes_of vs) × (suc (length rest) ≡ length vs)

pub take_variant-IsParts : (sig : Text) (vs : List Entry) → IsParts vs (take_variant sig vs)
unfolding take_variant
take_variant-IsParts sig [] = tt
take_variant-IsParts sig (v ∷ vs) =
    if-intro (IsParts (v ∷ vs)) (text_eq v.vary_signature sig) (some (v, vs)) _
      (λ _. (omega arith, refl)) (λ _. below (take_variant sig vs) (take_variant-IsParts sig vs))
  where
    below :
        (o : Option (Entry × List Entry))
        → IsParts vs o
        → IsParts (v ∷ vs) (elim o [ none ↦ none | some (old, rest) ↦ some (old, v ∷ rest) ])
    below none h = tt
    below (some (old, rest)) h = (omega (arith, h.0), omega (arith, h.1))

pub put_back-sum :
    (f : List Entry → ℕ) (k : Text) (vs : List Entry) (m : Dict (List Entry))
    → f [] ≡ 0
    → IsDistinct m
    → sum_of f (put_back k vs m) + size_at f k m ≡ sum_of f m + f vs
put_back-sum f k [] m z d = omega (arith, sum_of-remove f k m d)
put_back-sum f k (v ∷ vs) m z d = sum_of-insert f k (v ∷ vs) m

pub put_back-IsDistinct :
    (k : Text) (vs : List Entry) (m : Dict (List Entry))
    → IsDistinct m
    → IsDistinct (put_back k vs m)
put_back-IsDistinct k [] m d = remove-IsDistinct k m d
put_back-IsDistinct k (v ∷ vs) m d = insert-IsDistinct k (v ∷ vs) m d

pub size_at-some :
    (f : List Entry → ℕ) (k : Text) (vs : List Entry) (m : Dict (List Entry))
    → lookup k m ≡ some vs
    → size_at f k m ≡ f vs
size_at-some f k vs m q = ground (arith, q)

pub size_at-lookup :
    (k : Text) (m : Dict (List Entry)) → bytes_of (unwrap_or (lookup k m) []) ≡ size_at bytes_of k m
size_at-lookup k m = elim (Option-cases (lookup k m)) [
  | inl n ↦ ground (arith, n)
  | inr (vs, q) ↦ ground (arith, q)
]

pub without-IsStore :
    (k : Text) (s : State) (vs : List Entry) (o : Option (Entry × List Entry))
    → IsStore s
    → lookup k s.entries ≡ some vs
    → IsParts vs o
    → IsStore (without k s vs o)
      × (entry_count (without k s vs o) + (if is_some o then 1 else 0) ≡ entry_count s)
without-IsStore k s vs none (d, t) q p =
    let b = put_back-sum bytes_of k vs s.entries refl d in
    let n = put_back-sum length k vs s.entries refl d in
    let bq = size_at-some bytes_of k vs s.entries q in
    let nq = size_at-some length k vs s.entries q in
    ((put_back-IsDistinct k vs s.entries d, omega arith), omega arith)
without-IsStore k s vs (some (old, rest)) (d, t) q (pb, pn) =
    let b = put_back-sum bytes_of k rest s.entries refl d in
    let n = put_back-sum length k rest s.entries refl d in
    let bq = size_at-some bytes_of k vs s.entries q in
    let nq = size_at-some length k vs s.entries q in
    ((put_back-IsDistinct k rest s.entries d, omega arith), omega arith)

-- a property of the target, if there is one
abbrev pub Holds : (Text × Entry → Type 0) → Option (Text × Entry) → Type 0
Holds P none = Unit
Holds P (some e) = P e

sooner-Holds :
    (P : Text × Entry → Type 0) (k : Text) (best : Option (Text × Entry)) (v : Entry)
    → Holds P best
    → P (k, v)
    → Holds P (sooner k best v)
unfolding sooner
sooner-Holds P k none v h p = p
sooner-Holds P k (some b) v h p =
    if-intro (Holds P) (leb b.1.expires_at v.expires_at) (some b) (some (k, v)) (λ _. h) (λ _. p)

soonest_of-Holds :
    (P : Text × Entry → Type 0) (k : Text) (best : Option (Text × Entry)) (vs : List Entry)
    → Holds P best
    → ((v : Entry) → In v vs → P (k, v))
    → Holds P (soonest_of k best vs)
unfolding soonest_of
soonest_of-Holds P k best [] h f = h
soonest_of-Holds P k best (v ∷ vs) h f =
    soonest_of-Holds P k (sooner k best v) vs (sooner-Holds P k best v h (f v (inl refl)))
      (λ w i. f w (inr i))

pub soonest-Holds :
    (P : Text × Entry → Type 0) (best : Option (Text × Entry)) (m : Dict (List Entry))
    → Holds P best
    → ((k : Text) (vs : List Entry) (v : Entry) → In (k, vs) m → In v vs → P (k, v))
    → Holds P (soonest best m)
unfolding soonest
soonest-Holds P best [] h f = h
soonest-Holds P best ((k, vs) ∷ m) h f =
    soonest-Holds P (soonest_of k best vs) m
      (soonest_of-Holds P k best vs h (λ v i. f k vs v (inl refl) i))
      (λ j ws v i n. f j ws v (inr i) n)
