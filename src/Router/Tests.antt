-- ===== src/Router/Tests.antt =====
-- A server with locations of each kind, and the theorem at it.
use elrond.Base.{ℕ, ◌≡◌, refl, Bool, some, List, [], ◌∷◌, Text, codes, text_eq, starts_with}
use elrond.Router.{
  Kind, exact, Location, first_prefix, route, insert_sorted, sort_prefixes, push_location, push_all,
  build_locations, prefix, regex,
}
use elrond.Router.Route.{route-IsLongest}

-- a regex by its end: the test is on the whole path
abbrev whole : Text → Text → Bool
whole re path = text_eq re path

abbrev at : Text → ℕ → Location ℕ
at path n = record { path = path; action = n }

abbrev locations : List (Kind Text × Location ℕ)
locations =
    (prefix, at (codes "/") 1)
    ∷ (prefix, at (codes "/api/") 2)
    ∷ (regex (codes "/x"), at (codes "/x") 3)
    ∷ (exact, at (codes "/api/") 4)
    ∷ []

longest : route whole (build_locations locations) (codes "/api/v1") ≡ some (at (codes "/api/") 2)
unfolding route build_locations push_all push_location sort_prefixes insert_sorted first_prefix
    starts_with text_eq
longest = refl

route-IsLongest_example :
    route whole (build_locations locations) (codes "/api/") ≡ some (at (codes "/api/") 4)
unfolding text_eq
route-IsLongest_example = route-IsLongest whole locations (codes "/api/")
