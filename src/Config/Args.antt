-- ===== src/Config/Args.antt =====
-- The argument parsers of src/config/build.rs. A message is a constructor; the line number that each
-- of them shows is left out.
pub mod Zones
mod Tests
use elrond.Base.{
  Result, ok, err, ℕ, ◌/◌, max, Bool, true, false, Option, none, some, List, [], ◌∷◌, ◌++◌,
  if◌then◌else◌, unwrap_or, is_empty, Text, codes, text_eq, ◌>>=◌, parse_below, split_once,
  strip_prefix,
}
use elrond.Config.Measures.{parse_size, parse_duration}
use elrond.Template.{Segment, parse_template}

pub data Complaint : Type 0 where
  too_few_arguments missing_name missing_rate : Complaint
  not_name_size : Complaint
  invalid_size invalid_rate invalid_number invalid_status invalid_time not_on_off : Text → Complaint
  missing_switch missing_zone missing_path : Complaint

abbrev pub Parsed {ℓ} : Type ℓ → Type ℓ
Parsed A = Result Complaint A

-- `ok_or_else`
abbrev pub or_complain {ℓ} : {A : Type ℓ} → Option A → Complaint → Parsed A
or_complain none e = err e
or_complain (some a) e = ok a

unfoldable pub parse_on_off : Option Text → Parsed Bool
unfolding text_eq
parse_on_off none = err missing_switch
parse_on_off (some s) =
    if text_eq s (codes "on")
    then ok true
    else if text_eq s (codes "off")
    then ok false
    else err (not_on_off s)

-- `NAME:SIZE`
unfoldable pub name_size : Text → Parsed (Text × ℕ)
unfolding split_once parse_size
name_size spec = do
  (n, size) ← or_complain (split_once b':' spec) not_name_size
  bytes ← or_complain (parse_size size) (invalid_size size)
  ok (n, bytes)

-- The loop of `parse_cache_valid` over all but the last argument: the codes read, and at `any` none.
unfoldable pub status_args : List ℕ → List Text → Parsed (List ℕ)
unfolding parse_below text_eq
status_args read [] = ok read
status_args read (c ∷ cs) =
    let further = or_complain (parse_below 65536 c) (invalid_status c) >>= λ code.
    status_args (read ++ code ∷ []) cs in
    if text_eq c (codes "any") then ok [] else further

-- `split_last`
abbrev pub split_last : Text → List Text → List Text × Text
split_last a [] = ([], a)
split_last a (b ∷ bs) = let (head, last) = split_last b bs in (a ∷ head, last)

unfoldable pub parse_cache_valid : List Text → Parsed (List ℕ × ℕ)
unfolding status_args parse_duration
parse_cache_valid [] = err too_few_arguments
parse_cache_valid (a ∷ given) = do
  let (head, last) = split_last a given
  ttl ← or_complain (parse_duration last) (invalid_time last)
  statuses ← status_args [] head
  ok (statuses, ttl)

pub record CacheZone : Type 0 where
  pub zone_name : Text
  pub max_bytes : ℕ

-- the loop of `parse_cache_path`; other arguments are passed over
unfoldable pub cache_args : Option CacheZone → List Text → Parsed (Option CacheZone)
unfolding strip_prefix name_size
cache_args zone [] = ok zone
cache_args zone (a ∷ rest) = elim (strip_prefix a (codes "keys_zone=")) [
  | none ↦ cache_args zone rest
  | some spec ↦ name_size spec >>= λ ns.
      cache_args (some (record { zone_name = ns.0; max_bytes = ns.1 })) rest
]

unfoldable pub parse_cache_path : List Text → Parsed CacheZone
unfolding cache_args
parse_cache_path given =
    if is_empty given
    then err too_few_arguments
    else (do zone ← cache_args none given; or_complain zone missing_zone)

pub record LimitConnZoneDecl : Type 0 where
  pub conn_name : Text
  pub conn_key : List Segment
  pub conn_entries : ℕ

pub record LimitReqZoneDecl (R : Type 0) : Type 0 where
  pub req_name : Text
  pub req_key : List Segment
  pub rate_per_sec : R
  pub req_entries : ℕ

-- What the loop over the arguments has found: name and entries, and the rate.
abbrev pub Found : Type 0 → Type 0
Found R = Option (Text × ℕ) × Option R

unfoldable pub conn_args : Option (Text × ℕ) → List Text → Parsed (Option (Text × ℕ))
unfolding strip_prefix name_size
conn_args found [] = ok found
conn_args found (a ∷ rest) = elim (strip_prefix a (codes "zone=")) [
  | none ↦ conn_args found rest
  | some spec ↦ name_size spec >>= λ ns. conn_args (some (ns.0, max (ns.1 / 16) 1)) rest
]

unfoldable pub parse_limit_conn_zone : List Text → Parsed LimitConnZoneDecl
unfolding conn_args parse_template
parse_limit_conn_zone [] = err too_few_arguments
parse_limit_conn_zone (_ ∷ []) = err too_few_arguments
parse_limit_conn_zone (key ∷ a ∷ rest) = do
  found ← conn_args none (a ∷ rest)
  (name, entries) ← or_complain found missing_name
  ok (record { conn_name = name; conn_key = parse_template key; conn_entries = entries })

unfoldable pub parse_limit_conn : List Text → Parsed (Text × ℕ)
unfolding strip_prefix parse_below
parse_limit_conn [] = err too_few_arguments
parse_limit_conn (_ ∷ []) = err too_few_arguments
parse_limit_conn (z ∷ n ∷ _) = do
  max_conn ← or_complain (parse_below 4294967296 n) (invalid_number n)
  ok (unwrap_or (strip_prefix z (codes "zone=")) z, max_conn)

-- `parse_rate` of src/limit.rs reads an `f64`, and is an argument.
module _ {R : Type 0} (parse_rate : Text → Option R) where
  unfoldable pub req_args : Found R → List Text → Parsed (Found R)
  unfolding strip_prefix name_size
  req_args found [] = ok found
  req_args found (a ∷ rest) = elim (strip_prefix a (codes "zone=")) [
    | some spec ↦ name_size spec >>= λ ns. req_args (some (ns.0, max (ns.1 / 64) 1), found.1) rest
    | none ↦ elim (strip_prefix a (codes "rate=")) [
      | none ↦ req_args found rest
      | some rs ↦
          or_complain (parse_rate rs) (invalid_rate rs) >>= λ r. req_args (found.0, some r) rest
    ]
  ]

  unfoldable pub parse_limit_req_zone : List Text → Parsed (LimitReqZoneDecl R)
  unfolding req_args parse_template
  parse_limit_req_zone [] = err too_few_arguments
  parse_limit_req_zone (_ ∷ []) = err too_few_arguments
  parse_limit_req_zone (_ ∷ _ ∷ []) = err too_few_arguments
  parse_limit_req_zone (key ∷ a ∷ b ∷ rest) = do
    found ← req_args (none, none) (a ∷ b ∷ rest)
    (name, entries) ← or_complain found.0 missing_name
    rate ← or_complain found.1 missing_rate
    ok (record {
      req_name = name;
      req_key = parse_template key;
      rate_per_sec = rate;
      req_entries = entries;
    })

-- the loop of `parse_limit_req`
unfoldable pub limit_args : Option Text → ℕ → List Text → Parsed (Option Text × ℕ)
unfolding strip_prefix parse_below
limit_args zone burst [] = ok (zone, burst)
limit_args zone burst (a ∷ rest) = elim (strip_prefix a (codes "zone=")) [
  | some z ↦ limit_args (some z) burst rest
  | none ↦ elim (strip_prefix a (codes "burst=")) [
    | none ↦ limit_args zone burst rest
    | some b ↦
        or_complain (parse_below 4294967296 b) (invalid_number b) >>= λ n. limit_args zone n rest
  ]
]

unfoldable pub parse_limit_req : List Text → Parsed (Text × ℕ)
unfolding limit_args
parse_limit_req given = do
  (zone, burst) ← limit_args none 0 given
  z ← or_complain zone missing_zone
  ok (z, burst)
