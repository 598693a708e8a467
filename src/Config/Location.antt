-- ===== src/Config/Location.antt =====
-- `build_location` and `parse_location_pattern` of src/config/build.rs, and what they build of
-- src/config/ast.rs. A duration is its milliseconds, and a message a constructor with no line.
pub mod Build
pub mod Content
mod Tests
use elrond.Base.{
  Result, ok, err, ℕ, Bool, true, false, not, ◌||◌, Option, none, some, List, [], ◌∷◌,
  if◌then◌else◌, is_empty, Text, codes, text_eq, ◌>>=◌, parse_below, strip_prefix,
}
use elrond.Config.Upstream.{UpstreamError}
use elrond.Config.Args.{Complaint}
use elrond.Config.Measures.{parse_duration}
use elrond.Config.Parser.{Directives, directive, nil, cons, Block, no_block, block}
use elrond.Template.{Segment, parse_template}

pub data BuildError : Type 0 where
  complaint : Complaint → BuildError
  missing_argument missing_block not_known : Text → BuildError
  bad_status bad_duration : Text → BuildError
  too_few_entries status_not_last : BuildError
  several_contents content_beside_try_files no_root no_action : BuildError
  no_user_file half_a_certificate : BuildError
  no_pattern : Text → BuildError
  bad_size bad_listen bad_protocol : Text → BuildError
  of_upstream : UpstreamError → BuildError
  no_user bad_integer map_arguments map_output : BuildError
  stream_ssl no_proxy_pass : BuildError
  no_location_pattern return_at_server no_listen no_certificate : BuildError

abbrev pub Building {ℓ} : Type ℓ → Type ℓ
Building A = Result BuildError A

abbrev pub or_error {ℓ} : {A : Type ℓ} → Option A → BuildError → Building A
or_error none e = err e
or_error (some a) e = ok a

-- an error of an argument parser, passed on
abbrev pub lift {ℓ} : {A : Type ℓ} → Result Complaint A → Building A
lift (ok a) = ok a
lift (err e) = err (complaint e)

pub data LocationKind : Type 0 where
  exact prefix : LocationKind
  regex : Text → Bool → LocationKind  -- the pattern, and whether case is ignored

pub data TryFilesEntry : Type 0 where
  path_entry : List Segment → TryFilesEntry
  status_entry : ℕ → TryFilesEntry

pub data Action : Type 0 where
  return_action : ℕ → List Segment → Action
  proxy_pass root_action alias_action : Text → Action
  metrics_action : Action
  try_files_action : Text → List TryFilesEntry → Action

-- all that a location holds besides its kind, its path and its action
pub record Settings : Type 0 where
  pub set_headers : List (Text × List Segment)
  pub add_headers : List (Text × List Segment)
  pub expires : Option ℕ
  pub gzip : Option Bool
  pub autoindex : Bool
  pub auth_basic_realm : Option Text
  pub auth_basic_user_file : Option Text
  pub limit_req : Option (Text × ℕ)
  pub limit_conn : Option (Text × ℕ)
  pub access_rules : List (Bool × Text)
  pub proxy_connect_timeout : Option ℕ
  pub proxy_read_timeout : Option ℕ
  pub auth_request : Option (List Segment)
  pub mirrors : List (List Segment)
  pub proxy_ssl_verify : Bool
  pub proxy_ssl_certificate : Option Text
  pub proxy_ssl_certificate_key : Option Text
  pub proxy_cache : Option Text
  pub proxy_cache_key : Option (List Segment)
  pub proxy_cache_valid : List (List ℕ × ℕ)

pub record Location : Type 0 where
  pub kind : LocationKind
  pub pattern : Text
  pub action : Action
  pub settings : Settings

-- the locals of `build_location`
pub record Draft : Type 0 where
  pub action : Option Action
  pub try_files : Option (List TryFilesEntry)
  pub settings : Settings

abbrev pub default_settings : Settings
default_settings = record {
  set_headers = [];
  add_headers = [];
  expires = none;
  gzip = none;
  autoindex = false;
  auth_basic_realm = none;
  auth_basic_user_file = none;
  limit_req = none;
  limit_conn = none;
  access_rules = [];
  proxy_connect_timeout = none;
  proxy_read_timeout = none;
  auth_request = none;
  mirrors = [];
  proxy_ssl_verify = true;
  proxy_ssl_certificate = none;
  proxy_ssl_certificate_key = none;
  proxy_cache = none;
  proxy_cache_key = none;
  proxy_cache_valid = [];
}

abbrev pub first : List Text → Option Text
first [] = none
first (a ∷ _) = some a

-- the second argument, or an empty one
abbrev pub second : List Text → Text
second (_ ∷ b ∷ _) = b
second _ = []

-- `arg1`
abbrev pub arg1 : Text → List Text → Building Text
arg1 name given = or_error (first given) (missing_argument name)

-- `expect_block`
abbrev pub expect_block : Text → Block → Building Directives
expect_block name no_block = err (missing_block name)
expect_block name (block ds) = ok ds

-- a directive that gives the location its content
unfoldable pub is_content : Text → Bool
unfolding text_eq
is_content name =
    text_eq name (codes "return")
    || text_eq name (codes "proxy_pass")
    || text_eq name (codes "root")
    || text_eq name (codes "alias")
    || text_eq name (codes "metrics")

-- the arms that make a candidate
unfoldable pub content_of : Text → List Text → Building Action
unfolding text_eq
content_of name given =
    if text_eq name (codes "return")
    then (arg1 name given >>= λ s. or_error (parse_below 65536 s) (bad_status s) >>= λ status.
        ok (return_action status (parse_template (second given))))
    else if text_eq name (codes "proxy_pass")
    then (arg1 name given >>= λ t. ok (proxy_pass t))
    else if text_eq name (codes "root")
    then (arg1 name given >>= λ dir. ok (root_action dir))
    else if text_eq name (codes "alias")
    then (arg1 name given >>= λ dir. ok (alias_action dir))
    else ok metrics_action

-- the loop of the `try_files` arm
unfoldable pub try_entries : List Text → Building (List TryFilesEntry)
unfolding strip_prefix
try_entries [] = ok []
try_entries (raw ∷ rest) = elim (strip_prefix raw (codes "=")) [
  | some code ↦
      if not (is_empty rest)
      then err status_not_last
      else (or_error (parse_below 65536 code) (bad_status raw) >>= λ n. ok (status_entry n ∷ []))
  | none ↦ try_entries rest >>= λ entries. ok (path_entry (parse_template raw) ∷ entries)
]

unfoldable pub try_files_of : List Text → Building (List TryFilesEntry)
unfolding try_entries
try_files_of (a ∷ b ∷ rest) = try_entries (a ∷ b ∷ rest)
try_files_of _ = err too_few_entries

-- `parse_location_pattern`, of the arguments from `first` on
unfoldable pub parse_location_pattern : Text → List Text → Building (LocationKind × Text)
unfolding text_eq
parse_location_pattern mark rest =
    let pattern = or_error (first rest) (no_pattern mark) in
    if text_eq mark (codes "=")
    then (pattern >>= λ p. ok (exact, p))
    else if text_eq mark (codes "~")
    then (pattern >>= λ p. ok (regex p false, p))
    else if text_eq mark (codes "~*")
    then (pattern >>= λ p. ok (regex p true, p))
    else if text_eq mark (codes "^~")
    then (pattern >>= λ p. ok (prefix, p))
    else ok (prefix, mark)
