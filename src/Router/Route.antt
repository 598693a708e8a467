-- ===== src/Router/Route.antt =====
-- The precedence of the locations of a server, as they are declared.
use elrond.Base.{
  ℕ, ◌≤◌, ◌≡◌, refl, ap, ◌∙◌, ◌↔◌, inl, inr, Bool, true, false, Option, none, some, List, [], ◌∷◌,
  ◌++◌, append-nil, append_assoc, arith, leb, if-intro, length, All, In, All-In, In-All, Text,
}
use elrond.Router.{
  Location, insert_sorted, sort_prefixes, matches_prefix, Kind, ServerState, first_prefix,
  push_location, push_all, exact, prefix, regex, first_exact, first_regex, route, build_locations,
}

module _ {A : Type 0} where
  -- longest first
  abbrev IsSorted : List (Location A) → Type 0
  IsSorted [] = Unit
  IsSorted (l ∷ ls) = All (λ m. length m.path ≤ length l.path) ls × IsSorted ls

  insert_sorted-All {κ} :
      (P : Location A → Type κ) (l : Location A) (ls : List (Location A))
      → P l
      → All P ls
      → All P (insert_sorted l ls)
  unfolding insert_sorted
  insert_sorted-All P l [] p ps = (p, tt)
  insert_sorted-All P l (m ∷ ms) p ps =
      if-intro (All P) (leb (length m.path) (length l.path)) _ _ (λ _. (p, ps))
        (λ _. (ps.0, insert_sorted-All P l ms p ps.1))

  All-le :
      (a b : ℕ) (ms : List (Location A))
      → a ≤ b
      → All (λ m. length m.path ≤ a) ms
      → All (λ m. length m.path ≤ b) ms
  All-le a b [] h k = tt
  All-le a b (m ∷ ms) h k = (omega (arith, k.0), All-le a b ms h k.1)

  insert_sorted-IsSorted :
      (l : Location A) (ls : List (Location A)) → IsSorted ls → IsSorted (insert_sorted l ls)
  unfolding insert_sorted
  insert_sorted-IsSorted l [] s = (tt, tt)
  insert_sorted-IsSorted l (m ∷ ms) s =
      if-intro IsSorted (leb (length m.path) (length l.path)) _ _
        (λ h. ((ground arith, All-le (length m.path) (length l.path) ms (ground arith) s.0), s))
        (λ h. (
          insert_sorted-All (λ x. length x.path ≤ length m.path) l ms (ground arith) s.0,
          insert_sorted-IsSorted l ms s.1,
        ))

  sort_prefixes-IsSorted : (ls : List (Location A)) → IsSorted (sort_prefixes ls)
  unfolding sort_prefixes
  sort_prefixes-IsSorted [] = tt
  sort_prefixes-IsSorted (l ∷ ls) =
      insert_sorted-IsSorted l (sort_prefixes ls) (sort_prefixes-IsSorted ls)

  insert_sorted-In :
      (a l : Location A) (ls : List (Location A)) → In a (insert_sorted l ls) ↔ In a (l ∷ ls)
  unfolding insert_sorted
  insert_sorted-In a l [] = (λ i. i, λ i. i)
  insert_sorted-In a l (m ∷ ms) =
      if-intro (λ xs. In a xs ↔ In a (l ∷ m ∷ ms)) (leb (length m.path) (length l.path)) _ _
        (λ _. (λ i. i, λ i. i)) (λ _. swapped (insert_sorted l ms) (insert_sorted-In a l ms))
    where
      swapped :
          (xs : List (Location A)) → (In a xs ↔ In a (l ∷ ms)) → In a (m ∷ xs) ↔ In a (l ∷ m ∷ ms)
      swapped xs h = ground (arith, h.0, h.1)

  sort_prefixes-In : (a : Location A) (ls : List (Location A)) → In a (sort_prefixes ls) ↔ In a ls
  unfolding sort_prefixes
  sort_prefixes-In a [] = (λ i. i, λ i. i)
  sort_prefixes-In a (l ∷ ls) =
      let ih = sort_prefixes-In a ls in
      let h = insert_sorted-In a l (sort_prefixes ls) in ground (arith, ih.0, ih.1, h.0, h.1)

  -- a list that answers with the first match, sorted by length, answers with a longest
  abbrev pub IsLongest : Text → List (Location A) → Option (Location A) → Type 0
  IsLongest path ls none = All (λ m. matches_prefix path m ≡ false) ls
  IsLongest path ls (some l) =
      In l ls
      × (matches_prefix path l ≡ true)
      × All (λ m. matches_prefix path m ≡ true → length m.path ≤ length l.path) ls

  first_prefix-IsLongest :
      (path : Text) (ls : List (Location A))
      → IsSorted ls
      → IsLongest path ls (first_prefix path ls)
  unfolding first_prefix
  first_prefix-IsLongest path [] s = tt
  first_prefix-IsLongest path (l ∷ ls) s =
      if-intro (IsLongest path (l ∷ ls)) (matches_prefix path l) _ _
        (λ h. (inl refl, h, ((λ _. omega arith), weaken ls s.0)))
        (λ h. below h (first_prefix path ls) (first_prefix-IsLongest path ls s.1))
    where
      weaken :
          (ms : List (Location A))
          → All (λ m. length m.path ≤ length l.path) ms
          → All (λ m. matches_prefix path m ≡ true → length m.path ≤ length l.path) ms
      weaken [] k = tt
      weaken (m ∷ ms) k = ((λ _. k.0), weaken ms k.1)

      below :
          matches_prefix path l ≡ false
          → (o : Option (Location A)) → IsLongest path ls o
          → IsLongest path (l ∷ ls) o
      below h none k = (h, k)
      below h (some m) (i, t, k) = (inr i, t, ((λ e. ground arith), k))

  All-iff {κ} :
      (P : Location A → Type κ) (xs ys : List (Location A))
      → ((a : Location A) → In a xs → In a ys)
      → All P ys
      → All P xs
  All-iff P xs ys f k = In-All P xs (λ a i. All-In P a ys k (f a i))

  sort_prefixes-IsLongest :
      (path : Text) (ls : List (Location A)) (o : Option (Location A))
      → IsLongest path (sort_prefixes ls) o
      → IsLongest path ls o
  sort_prefixes-IsLongest path ls none k =
      All-iff (λ m. matches_prefix path m ≡ false) ls (sort_prefixes ls)
        (λ a i. (sort_prefixes-In a ls).1 i) k
  sort_prefixes-IsLongest path ls (some l) (i, t, k) = (
    (sort_prefixes-In l ls).0 i,
    t,
    All-iff (λ m. matches_prefix path m ≡ true → length m.path ≤ length l.path) ls
        (sort_prefixes ls) (λ a j. (sort_prefixes-In a ls).1 j) k,
  )

  -- the location that the kinds before it leave a request to
  abbrev pub OrElse :
      Option (Location A) → (Option (Location A) → Type 0) → Option (Location A) → Type 0
  OrElse (some l) P o = o ≡ some l
  OrElse none P o = P o

module _ {Re A : Type 0} where
  -- the locations of each kind, as declared
  abbrev pub exacts : List (Kind Re × Location A) → List (Location A)
  exacts [] = []
  exacts ((exact, l) ∷ ls) = l ∷ exacts ls
  exacts ((prefix, l) ∷ ls) = exacts ls
  exacts ((regex re, l) ∷ ls) = exacts ls

  abbrev pub regexes : List (Kind Re × Location A) → List (Re × Location A)
  regexes [] = []
  regexes ((exact, l) ∷ ls) = regexes ls
  regexes ((prefix, l) ∷ ls) = regexes ls
  regexes ((regex re, l) ∷ ls) = (re, l) ∷ regexes ls

  abbrev pub prefixes : List (Kind Re × Location A) → List (Location A)
  prefixes [] = []
  prefixes ((exact, l) ∷ ls) = prefixes ls
  prefixes ((prefix, l) ∷ ls) = l ∷ prefixes ls
  prefixes ((regex re, l) ∷ ls) = prefixes ls

  abbrev extended : ServerState Re A → List (Kind Re × Location A) → ServerState Re A
  extended s ls = record {
    exact_locs = s.exact_locs ++ exacts ls;
    regex_locs = s.regex_locs ++ regexes ls;
    prefix_locs = s.prefix_locs ++ prefixes ls;
  }

  push_all-extended :
      (s : ServerState Re A) (ls : List (Kind Re × Location A)) → push_all s ls ≡ extended s ls
  unfolding push_all push_location
  push_all-extended s [] =
      rw (append-nil s.exact_locs, append-nil s.regex_locs, append-nil s.prefix_locs) refl
  push_all-extended s ((exact, l) ∷ ls) =
      push_all-extended (push_location s exact l) ls
      ∙ rw (append_assoc s.exact_locs (l ∷ []) (exacts ls)) refl
  push_all-extended s ((prefix, l) ∷ ls) =
      push_all-extended (push_location s prefix l) ls
      ∙ rw (append_assoc s.prefix_locs (l ∷ []) (prefixes ls)) refl
  push_all-extended s ((regex re, l) ∷ ls) =
      push_all-extended (push_location s (regex re) l) ls
      ∙ rw (append_assoc s.regex_locs ((re, l) ∷ []) (regexes ls)) refl

  build_locations-eq :
      (ls : List (Kind Re × Location A))
      → build_locations ls ≡ record {
        exact_locs = exacts ls;
        regex_locs = regexes ls;
        prefix_locs = sort_prefixes (prefixes ls);
      }
  unfolding build_locations
  build_locations-eq ls =
      ap (λ (s : ServerState Re A). record s { prefix_locs = sort_prefixes s.prefix_locs })
        (push_all-extended (record { exact_locs = []; regex_locs = []; prefix_locs = [] }) ls)

  -- Of the locations of a server as they are declared, the first exact one of the path answers; if
  -- there is none, the first regex that matches; if there is none, one of the prefixes of the path
  -- of which none is longer; and nothing answers if there is none.
  pub route-IsLongest :
      (is_match : Re → Text → Bool) (ls : List (Kind Re × Location A)) (path : Text)
      → OrElse
          (first_exact path (exacts ls))
          (OrElse (first_regex is_match path (regexes ls)) (IsLongest path (prefixes ls)))
          (route is_match (build_locations ls) path)
  unfolding route
  route-IsLongest is_match ls path = rw (build_locations-eq ls) (
      chosen (first_exact path (exacts ls)) (first_regex is_match path (regexes ls))
        (first_prefix path (sort_prefixes (prefixes ls)))
        (sort_prefixes-IsLongest path (prefixes ls) _ (
          first_prefix-IsLongest path (sort_prefixes (prefixes ls))
            (sort_prefixes-IsSorted (prefixes ls)))))
    where
      chosen :
          (e r p : Option (Location A))
          → IsLongest path (prefixes ls) p
          → OrElse e
              (OrElse r (IsLongest path (prefixes ls)))
              (elim e [ some l ↦ some l | none ↦ elim r [ some l ↦ some l | none ↦ p ] ])
      chosen (some l) r p h = refl
      chosen none (some l) p h = refl
      chosen none none p h = h
