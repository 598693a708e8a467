-- ===== src/Config/Upstream.antt =====
-- `build_upstream` and `parse_health_check` of src/config/build.rs, and what they build of
-- src/config/ast.rs. A duration is its milliseconds.
pub mod Declared
mod Tests
use elrond.Base.{
  Result, ok, err, ℕ, Bool, true, false, ◌||◌, Option, none, some, List, [], ◌∷◌, ◌++◌,
  if◌then◌else◌, is_empty, Text, codes, text_eq, ◌>>=◌, parse_below, strip_prefix,
}
use elrond.Balancer.{LbMethod, round_robin, least_conn, ip_hash}
use elrond.Config.Measures.{parse_duration}
use elrond.Config.Parser.{Directives, directive, nil, cons}

pub data UpstreamError : Type 0 where
  no_address no_servers : UpstreamError
  invalid_weight invalid_max_fails invalid_timeout invalid_check unknown_directive :
      Text → UpstreamError

abbrev pub Built : Type 0 → Type 0
Built A = Result UpstreamError A

abbrev pub or_fail : {A : Type 0} → Option A → UpstreamError → Built A
or_fail none e = err e
or_fail (some a) e = ok a

pub record UpstreamServer : Type 0 where
  pub addr : Text
  pub weight : ℕ  -- u32
  pub max_fails : ℕ  -- u32
  pub fail_timeout : ℕ
  pub backup : Bool
  pub down : Bool

-- `default`, with its address
abbrev pub server_at : Text → UpstreamServer
server_at a = record {
  addr = a;
  weight = 1;
  max_fails = 1;
  fail_timeout = 10000;
  backup = false;
  down = false;
}

pub record HealthCheckCfg : Type 0 where
  pub uri : Text
  pub interval : ℕ
  pub timeout : ℕ
  pub fails : ℕ  -- u32
  pub passes : ℕ  -- u32
  pub expected_status : ℕ  -- u16

abbrev pub default_check : HealthCheckCfg
default_check = record {
  uri = codes "/";
  interval = 5000;
  timeout = 2000;
  fails = 2;
  passes = 2;
  expected_status = 200;
}

pub record Upstream : Type 0 where
  pub upstream_name : Text
  pub method : LbMethod
  pub servers : List UpstreamServer
  pub health_check : Option HealthCheckCfg

-- an argument behind the address; unknown ones are passed over
unfoldable pub server_arg : UpstreamServer → Text → Built UpstreamServer
unfolding strip_prefix parse_below parse_duration text_eq
server_arg s a = elim (strip_prefix a (codes "weight=")) [
  | some w ↦
      or_fail (parse_below 4294967296 w) (invalid_weight w) >>= λ n. ok (record s { weight = n })
  | none ↦ elim (strip_prefix a (codes "max_fails=")) [
    | some n ↦ or_fail (parse_below 4294967296 n) (invalid_max_fails n) >>= λ m.
        ok (record s { max_fails = m })
    | none ↦ elim (strip_prefix a (codes "fail_timeout=")) [
      | some t ↦
          or_fail (parse_duration t) (invalid_timeout t) >>= λ d. ok (record s { fail_timeout = d })
      | none ↦
          if text_eq a (codes "backup")
          then ok (record s { backup = true })
          else if text_eq a (codes "down")
          then ok (record s { down = true })
          else ok s
    ]
  ]
]

unfoldable pub server_args : UpstreamServer → List Text → Built UpstreamServer
unfolding server_arg
server_args s [] = ok s
server_args s (a ∷ rest) = server_arg s a >>= λ s'. server_args s' rest

unfoldable pub check_arg : HealthCheckCfg → Text → Built HealthCheckCfg
unfolding strip_prefix parse_below parse_duration
check_arg hc a = elim (strip_prefix a (codes "uri=")) [
  | some v ↦ ok (record hc { uri = v })
  | none ↦ elim (strip_prefix a (codes "interval=")) [
    | some v ↦ or_fail (parse_duration v) (invalid_check v) >>= λ d. ok (record hc { interval = d })
    | none ↦ elim (strip_prefix a (codes "timeout=")) [
      | some v ↦
          or_fail (parse_duration v) (invalid_check v) >>= λ d. ok (record hc { timeout = d })
      | none ↦ elim (strip_prefix a (codes "fails=")) [
        | some v ↦ or_fail (parse_below 4294967296 v) (invalid_check v) >>= λ n.
            ok (record hc { fails = n })
        | none ↦ elim (strip_prefix a (codes "passes=")) [
          | some v ↦ or_fail (parse_below 4294967296 v) (invalid_check v) >>= λ n.
              ok (record hc { passes = n })
          | none ↦ elim (strip_prefix a (codes "match=")) [
            | some v ↦ or_fail (parse_below 65536 v) (invalid_check v) >>= λ n.
                ok (record hc { expected_status = n })
            | none ↦ ok hc
          ]
        ]
      ]
    ]
  ]
]

unfoldable pub parse_health_check : HealthCheckCfg → List Text → Built HealthCheckCfg
unfolding check_arg
parse_health_check hc [] = ok hc
parse_health_check hc (a ∷ rest) = check_arg hc a >>= λ hc'. parse_health_check hc' rest

-- a directive of the block, on what the block has declared so far
unfoldable pub upstream_directive : Upstream → Text → List Text → Built Upstream
unfolding server_args parse_health_check text_eq
upstream_directive u name given =
    if text_eq name (codes "server")
    then elim given [
      | [] ↦ err no_address
      | a ∷ rest ↦
          server_args (server_at a) rest >>= λ s. ok (record u { servers = u.servers ++ s ∷ [] })
    ]
    else if text_eq name (codes "least_conn")
    then ok (record u { method = least_conn })
    else if text_eq name (codes "ip_hash")
    then ok (record u { method = ip_hash })
    else if text_eq name (codes "hash")
        || text_eq name (codes "keepalive")
        || text_eq name (codes "zone")
    then ok u
    else if text_eq name (codes "health_check")
    then (parse_health_check default_check given >>= λ hc. ok (record u { health_check = some hc }))
    else err (unknown_directive name)

unfoldable pub upstream_directives : Upstream → Directives → Built Upstream
unfolding upstream_directive
upstream_directives u nil = ok u
upstream_directives u (cons (directive name given _ _) ds) =
    upstream_directive u name given >>= λ u'. upstream_directives u' ds

unfoldable pub build_upstream : Text → Directives → Built Upstream
unfolding upstream_directives
build_upstream name dirs = do
  u ←
      upstream_directives
        (record { upstream_name = name; method = round_robin; servers = []; health_check = none })
        dirs
  if is_empty u.servers then err no_servers else ok u
