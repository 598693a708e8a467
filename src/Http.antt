-- ===== src/Http.antt =====
-- A response on its way to the client, as the handlers of src/server.rs pass it on, and what they
-- read of headers. The body is what `collect` makes of it: nothing if collecting it fails.
use elrond.Base.{
  ℕ, ◌≤◌, ◌<◌, ◌≡◌, Bool, true, Option, some, List, [], ◌∷◌, ◌>>=?◌, All, Text, text_eq,
  to_ascii_lowercase, split,
}
use elrond.Proxy.Headers.{HeaderMapApi}

module _ (H : HeaderMapApi) where
  pub record Reply : Type 0 where
    pub status : ℕ
    pub headers : H.Map
    pub body : Option (List ℕ)

  -- `get`, then `to_str`
  abbrev pub get_str : Text → H.Map → Option Text
  get_str name m = H.get name m >>=? λ v. H.to_str v

-- What is documented of `to_str` and `from_str`: visible characters of ASCII are always permitted,
-- and they are all that `to_str` gives.
abbrev pub IsVisible : Text → Type 0
IsVisible s = All (λ c. (32 ≤ c) × (c < 127)) s

pub record IsHeaderValue (H : HeaderMapApi) : Type 0 where
  pub to_str-IsVisible : (v s : Text) → H.to_str v ≡ some s → IsVisible s
  pub IsVisible-is_value : (s : Text) → IsVisible s → H.is_value s ≡ true

-- `eq_ignore_ascii_case`
abbrev pub same_word : Text → Text → Bool
same_word a b = text_eq (to_ascii_lowercase a) (to_ascii_lowercase b)

-- the first piece of a `split`
abbrev pub first_of : List Text → Text
first_of [] = []
first_of (p ∷ ps) = p

abbrev pub before : ℕ → Text → Text
before sep s = first_of (split sep s)
