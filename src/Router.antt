-- ===== src/Router.antt =====
-- src/app.rs: which virtual host and which location answer a request, and which upstream a
-- `proxy_pass` names. The regexes of the `regex` crate are a parameter.
pub mod Route
pub mod Host
pub mod Resolve
pub mod Listeners
pub mod Upstreams
mod Tests
use elrond.Base.{
  Bool, ◌||◌, Option, none, some, List, [], ◌∷◌, ◌++◌, leb, if◌then◌else◌, length, Text, codes,
  text_eq, starts_with,
}

-- `LocationKind` of src/config/ast.rs, the two regex kinds with their compiled regex
pub data Kind (Re : Type 0) : Type 0 where
  exact : Kind Re
  prefix : Kind Re
  regex : Re → Kind Re

-- `A` is all that a location holds besides its path
pub record Location (A : Type 0) : Type 0 where
  pub path : Text
  pub action : A

pub record ServerState (Re A : Type 0) : Type 0 where
  pub exact_locs : List (Location A)
  pub regex_locs : List (Re × Location A)
  pub prefix_locs : List (Location A)

module _ {A : Type 0} where
  abbrev pub first_exact : Text → List (Location A) → Option (Location A)
  first_exact path [] = none
  first_exact path (l ∷ ls) =
      let rest = first_exact path ls in if text_eq l.path path then some l else rest

  abbrev pub matches_prefix : Text → Location A → Bool
  matches_prefix path l = text_eq l.path (codes "/") || starts_with path l.path

  unfoldable pub first_prefix : Text → List (Location A) → Option (Location A)
  unfolding starts_with text_eq
  first_prefix path [] = none
  first_prefix path (l ∷ ls) =
      let rest = first_prefix path ls in if matches_prefix path l then some l else rest

module _ {Re A : Type 0} (is_match : Re → Text → Bool) where
  abbrev pub first_regex : Text → List (Re × Location A) → Option (Location A)
  first_regex path [] = none
  first_regex path ((re, l) ∷ ls) =
      let rest = first_regex path ls in if is_match re path then some l else rest

  unfoldable pub route : ServerState Re A → Text → Option (Location A)
  unfolding first_prefix text_eq
  route s path = elim (first_exact path s.exact_locs) [
    | some l ↦ some l
    | none ↦ elim (first_regex path s.regex_locs) [
      | some l ↦ some l
      | none ↦ first_prefix path s.prefix_locs
    ]
  ]

module _ {A : Type 0} where
  -- `sort_by` on the length of the path, longest first; the sort is stable
  unfoldable pub insert_sorted : Location A → List (Location A) → List (Location A)
  insert_sorted l [] = l ∷ []
  insert_sorted l (m ∷ ms) =
      let rest = insert_sorted l ms in
      if leb (length m.path) (length l.path) then l ∷ m ∷ ms else m ∷ rest

  unfoldable pub sort_prefixes : List (Location A) → List (Location A)
  unfolding insert_sorted
  sort_prefixes [] = []
  sort_prefixes (l ∷ ls) = insert_sorted l (sort_prefixes ls)

module _ {Re A : Type 0} where
  -- the `match` on the kind, in the loop of `build` over the locations of a server
  unfoldable pub push_location : ServerState Re A → Kind Re → Location A → ServerState Re A
  push_location s exact l = record s { exact_locs = s.exact_locs ++ l ∷ [] }
  push_location s prefix l = record s { prefix_locs = s.prefix_locs ++ l ∷ [] }
  push_location s (regex re) l = record s { regex_locs = s.regex_locs ++ (re, l) ∷ [] }

  unfoldable pub push_all : ServerState Re A → List (Kind Re × Location A) → ServerState Re A
  unfolding push_location
  push_all s [] = s
  push_all s ((kind, l) ∷ ls) = push_all (push_location s kind l) ls

  unfoldable pub build_locations : List (Kind Re × Location A) → ServerState Re A
  unfolding push_all sort_prefixes
  build_locations ls =
      let s = push_all (record { exact_locs = []; regex_locs = []; prefix_locs = [] }) ls in
      record s { prefix_locs = sort_prefixes s.prefix_locs }
