-- ===== src/Cache.antt =====
-- src/cache.rs. The state is what the mutex guards; a poisoned mutex and the metrics are left out.
-- `Instant` is a number, and so is a `Duration`. `hyper`'s `HeaderMap` is a parameter.
pub mod Decide
pub mod Evict
pub mod Bounds
pub mod Lookup
pub mod Runs
mod Tests
use elrond.Base.{
  ℕ, zero, suc, ◌+◌, ◌-◌, ◌*◌, Bool, true, false, not, Option, none, some, List, [], ◌∷◌, ◌++◌, map,
  ltb, leb, if◌then◌else◌, unwrap_or, length, is_empty, retain, Text, codes, text_eq, Dict, lookup,
  insert, remove, sum_of, trim, to_ascii_lowercase, split,
}

-- What the cache asks of a `HeaderMap`; `to_str` refuses values that are not visible ASCII.
pub record HeaderApi : Type 1 where
  pub Map : Type 0
  pub has : Text → Map → Bool  -- `get(..).is_some()`
  pub get_str : Text → Map → Option Text  -- `get`, then `to_str`
  pub all_str : Text → Map → List Text  -- `get_all`, those that `to_str` accepts

abbrev pub max_entry_bytes : ℕ
max_entry_bytes = 4 * 1024 * 1024

pub record Entry : Type 0 where
  pub status : ℕ
  pub headers : List (Text × Text)
  pub body : List ℕ
  pub expires_at : ℕ
  pub vary_headers : List Text
  pub vary_signature : Text

pub record State : Type 0 where
  pub entries : Dict (List Entry)
  pub total_bytes : ℕ

abbrev pub sum : List ℕ → ℕ
sum [] = 0
sum (n ∷ ns) = n + sum ns

-- header names, values and signatures are ASCII: as many bytes as code points
abbrev pub entry_bytes : Entry → ℕ
entry_bytes e =
    let header_bytes = sum (map (λ h. length h.0 + length h.1) e.headers) in
    let vary_bytes = sum (map length e.vary_headers) + length e.vary_signature in
    length e.body + header_bytes + vary_bytes

-- the first variant of a signature, and the others: `position` and `remove`
unfoldable pub take_variant : Text → List Entry → Option (Entry × List Entry)
take_variant sig [] = none
take_variant sig (v ∷ vs) =
    let below = take_variant sig vs in
    if text_eq v.vary_signature sig
    then some (v, vs)
    else elim below [ none ↦ none | some (old, rest) ↦ some (old, v ∷ rest) ]

-- the soonest to expire, the first of equals, with its key
unfoldable pub sooner : Text → Option (Text × Entry) → Entry → Option (Text × Entry)
sooner k none v = some (k, v)
sooner k (some best) v = if leb best.1.expires_at v.expires_at then some best else some (k, v)

unfoldable pub soonest_of : Text → Option (Text × Entry) → List Entry → Option (Text × Entry)
unfolding sooner
soonest_of k best [] = best
soonest_of k best (v ∷ vs) = soonest_of k (sooner k best v) vs

unfoldable pub soonest : Option (Text × Entry) → Dict (List Entry) → Option (Text × Entry)
unfolding soonest_of
soonest best [] = best
soonest best ((k, vs) ∷ m) = soonest (soonest_of k best vs) m

-- what is left of a key; a key without variants goes
abbrev pub put_back : Text → List Entry → Dict (List Entry) → Dict (List Entry)
put_back k [] m = remove k m
put_back k (v ∷ vs) m = insert k (v ∷ vs) m

abbrev pub without : Text → State → List Entry → Option (Entry × List Entry) → State
without k s vs none = record s { entries = put_back k vs s.entries }
without k s vs (some (removed, rest)) = record {
  entries = put_back k rest s.entries;
  total_bytes = s.total_bytes - entry_bytes removed;
}

-- the body of the loop of `put`, on the target that it found
unfoldable pub evict : Text → Text → State → State
unfolding take_variant
evict k sig s = elim (lookup k s.entries) [
  | none ↦ s
  | some vs ↦ without k s vs (take_variant sig vs)
]

-- the loop of `put`, on fuel
unfoldable pub evict_until : ℕ → ℕ → ℕ → State → State
unfolding soonest evict
evict_until zero max_bytes size s = s
evict_until (suc fuel) max_bytes size s = elim (ltb max_bytes (s.total_bytes + size)) [
  | false ↦ s
  | true ↦ elim (soonest none s.entries) [
    | none ↦ s
    | some (k, v) ↦ evict_until fuel max_bytes size (evict k v.vary_signature s)
  ]
]

-- `values().map(|v| v.len()).sum()`: each round of the loop takes one of them
abbrev pub entry_count : State → ℕ
entry_count s = sum_of length s.entries

-- the end of `put`: the variant of the same signature is replaced
abbrev pub replace : Entry → List Entry → Option (Entry × List Entry) → List Entry × ℕ
replace entry vs none = (vs ++ entry ∷ [], 0)
replace entry vs (some (old, rest)) = (rest ++ entry ∷ [], entry_bytes old)

unfoldable pub store : Text → Entry → State → State
unfolding take_variant
store key entry s =
    let variants = unwrap_or (lookup key s.entries) [] in
    let (stored, replaced) = replace entry variants (take_variant entry.vary_signature variants) in
    record {
      entries = insert key stored s.entries;
      total_bytes = s.total_bytes - replaced + entry_bytes entry;
    }

unfoldable pub put : ℕ → Text → Entry → State → State
unfolding evict_until store
put max_bytes key entry s =
    let size = entry_bytes entry in
    if ltb max_bytes size then s else store key entry (evict_until (entry_count s) max_bytes size s)

module _ (H : HeaderApi) where
  unfoldable pub build_signature : H.Map → List Text → Text
  build_signature req [] = []
  build_signature req (name ∷ names) =
      (name ++ b'=' ∷ unwrap_or (H.get_str name req) []) ++ 0 ∷ build_signature req names

  unfoldable pub matching : H.Map → List Entry → Option Entry
  unfolding build_signature
  matching req [] = none
  matching req (v ∷ vs) =
      let rest = matching req vs in
      if text_eq (build_signature req v.vary_headers) v.vary_signature then some v else rest

  -- the state afterwards, and what was found
  unfoldable pub get : ℕ → Text → H.Map → State → State × Option Entry
  unfolding matching
  get now key req s = elim (lookup key s.entries) [
    | none ↦ (s, none)
    | some vs ↦
        let stale = retain (λ v. leb v.expires_at now) vs in
        let fresh = retain (λ v. not (leb v.expires_at now)) vs in
        (
          record {
            entries = put_back key fresh s.entries;
            total_bytes = s.total_bytes - sum (map entry_bytes stale);
          },
          matching req fresh,
        )
  ]

  unfoldable pub parse_vary : H.Map → List Text
  unfolding trim split
  parse_vary headers = tokens (H.all_str (codes "vary") headers)
    where
      named : List Text → List Text
      named ts = retain (λ t. not (is_empty t)) (map (λ t. to_ascii_lowercase (trim t)) ts)

      tokens : List Text → List Text
      tokens [] = []
      tokens (s ∷ ss) = named (split b',' s) ++ tokens ss
