-- ===== src/Config/Http.antt =====
-- `build`, `build_http`, `build_stream`, `build_stream_server` and `build_map` of
-- src/config/build.rs, and what they build of src/config/ast.rs.
use elrond.Base.{
  Result, ok, err, Bool, false, ◌||◌, Option, none, some, List, [], ◌∷◌, ◌++◌, if◌then◌else◌,
  is_none, unwrap_or, any, Text, codes, text_eq, ◌>>=◌, strip_prefix,
}
use elrond.Config.Args.{
  CacheZone, parse_cache_path, LimitConnZoneDecl, LimitReqZoneDecl, parse_limit_conn_zone,
  parse_limit_req_zone,
}
use elrond.Config.Upstream.{UpstreamError, Upstream, build_upstream}
use elrond.Config.Parser.{Directives, directive, nil, cons, Block}
use elrond.Template.{parse_template}
use elrond.Server.{MapDecl, MapRule, matching, default_rule}
use elrond.Config.Location.{
  Building, or_error, lift, first, arg1, expect_block, not_known, of_upstream, map_arguments,
  map_output, stream_ssl, no_proxy_pass, no_listen,
}
use elrond.Config.Server.{build_server, Net, Server, parse_listen}

-- an error of an upstream, passed on
abbrev pub lift_upstream : Result UpstreamError Upstream → Building Upstream
lift_upstream (ok u) = ok u
lift_upstream (err e) = err (of_upstream e)

-- the block of a `map`: a name is the pattern, its first argument the value
unfoldable pub map_rules : Directives → List MapRule
unfolding text_eq parse_template
map_rules nil = []
map_rules (cons (directive name given _ _) ds) =
    record {
      pattern = if text_eq name (codes "default") then default_rule else matching name;
      value = parse_template (unwrap_or (first given) []);
    }
    ∷ map_rules ds

unfoldable pub build_map : List Text → Directives → Building MapDecl
unfolding map_rules parse_template strip_prefix
build_map (source ∷ output ∷ _) entries =
    or_error (strip_prefix output (codes "$")) map_output >>= λ name.
    ok (record { source = parse_template source; output_name = name; rules = map_rules entries })
build_map _ entries = err map_arguments

abbrev pub one_of : Text → List Text → Bool
one_of name names = any (λ n. text_eq name n) names

abbrev pub ignored_in_http : List Text
ignored_in_http =
    codes "include"
    ∷ codes "error_log"
    ∷ codes "sendfile"
    ∷ codes "tcp_nopush"
    ∷ codes "tcp_nodelay"
    ∷ codes "keepalive_timeout"
    ∷ codes "types_hash_max_size"
    ∷ codes "default_type"
    ∷ codes "gzip"
    ∷ codes "server_tokens"
    ∷ codes "client_max_body_size"
    ∷ codes "log_format"
    ∷ codes "types"
    ∷ codes "map_hash_bucket_size"
    ∷ codes "map_hash_max_size"
    ∷ []

abbrev pub ignored_in_stream : List Text
ignored_in_stream =
    codes "include"
    ∷ codes "access_log"
    ∷ codes "error_log"
    ∷ codes "log_format"
    ∷ codes "proxy_timeout"
    ∷ codes "proxy_connect_timeout"
    ∷ codes "tcp_nodelay"
    ∷ codes "resolver"
    ∷ []

-- the upstream that a directive with a block declares
abbrev pub upstream_of : Text → List Text → Block → Building Upstream
upstream_of name given b =
    arg1 name given >>= λ u. expect_block name b >>= λ dirs. lift_upstream (build_upstream u dirs)

module _ (N : Net) {R : Type 0} (parse_rate : Text → Option R) where
  open N use {SocketAddr}

  pub record Http : Type 0 where
    pub access_log : Option Text
    pub upstreams : List Upstream
    pub servers : List (Server N)
    pub cache_zones : List CacheZone
    pub limit_req_zones : List (LimitReqZoneDecl R)
    pub limit_conn_zones : List LimitConnZoneDecl
    pub maps : List MapDecl

  unfoldable pub http_directive : Http → Text → List Text → Block → Building Http
  unfolding text_eq
  http_directive h name given b =
      if text_eq name (codes "access_log")
      then (arg1 name given >>= λ a. ok (record h { access_log = some a }))
      else if text_eq name (codes "upstream")
      then (upstream_of name given b >>= λ u. ok (record h { upstreams = h.upstreams ++ u ∷ [] }))
      else if text_eq name (codes "server")
      then (expect_block name b >>= λ dirs.
          build_server N dirs >>= λ s. ok (record h { servers = h.servers ++ s ∷ [] }))
      else if text_eq name (codes "proxy_cache_path")
      then (lift (parse_cache_path given) >>= λ z.
          ok (record h { cache_zones = h.cache_zones ++ z ∷ [] }))
      else if text_eq name (codes "limit_req_zone")
      then (lift (parse_limit_req_zone parse_rate given) >>= λ z.
          ok (record h { limit_req_zones = h.limit_req_zones ++ z ∷ [] }))
      else if text_eq name (codes "limit_conn_zone")
      then (lift (parse_limit_conn_zone given) >>= λ z.
          ok (record h { limit_conn_zones = h.limit_conn_zones ++ z ∷ [] }))
      else if text_eq name (codes "map")
      then (expect_block name b >>= λ dirs.
          build_map given dirs >>= λ m. ok (record h { maps = h.maps ++ m ∷ [] }))
      else if one_of name ignored_in_http
      then ok h
      else err (not_known name)

  unfoldable pub http_directives : Http → Directives → Building Http
  http_directives h nil = ok h
  http_directives h (cons (directive name given b _) ds) =
      http_directive h name given b >>= λ h'. http_directives h' ds

  abbrev pub empty_http : Http
  empty_http = record {
    access_log = none;
    upstreams = [];
    servers = [];
    cache_zones = [];
    limit_req_zones = [];
    limit_conn_zones = [];
    maps = [];
  }

  unfoldable pub build_http : Directives → Building Http
  unfolding http_directives
  build_http dirs = http_directives empty_http dirs

  pub record StreamServer : Type 0 where
    pub listen : Option SocketAddr
    pub proxy_pass : Option Text
    pub udp : Bool

  unfoldable pub stream_server_directive : StreamServer → Text → List Text → Building StreamServer
  unfolding text_eq
  stream_server_directive s name given =
      if text_eq name (codes "listen")
      then (arg1 name given >>= λ a.
          if one_of (codes "ssl") given
          then err stream_ssl
          else (parse_listen N a >>= λ addr.
              ok (record s { udp = s.udp || one_of (codes "udp") given; listen = some addr })))
      else if text_eq name (codes "proxy_pass")
      then (arg1 name given >>= λ t. ok (record s { proxy_pass = some t }))
      else if one_of name (
          codes "include"
          ∷ codes "proxy_timeout"
          ∷ codes "proxy_connect_timeout"
          ∷ codes "tcp_nodelay"
          ∷ [])
      then ok s
      else err (not_known name)

  unfoldable pub stream_server_directives : StreamServer → Directives → Building StreamServer
  stream_server_directives s nil = ok s
  stream_server_directives s (cons (directive name given _ _) ds) =
      stream_server_directive s name given >>= λ s'. stream_server_directives s' ds

  unfoldable pub build_stream_server : Directives → Building StreamServer
  build_stream_server dirs =
      stream_server_directives (record { listen = none; proxy_pass = none; udp = false }) dirs
      >>= λ s.
          if is_none s.listen
          then err no_listen
          else if is_none s.proxy_pass
          then err no_proxy_pass
          else ok s

  pub record Stream : Type 0 where
    pub upstreams : List Upstream
    pub servers : List StreamServer

  unfoldable pub stream_directives : Stream → Directives → Building Stream
  unfolding text_eq
  stream_directives s nil = ok s
  stream_directives s (cons (directive name given b _) ds) =
      let upstream = upstream_of name given b >>= λ u.
      stream_directives (record s { upstreams = s.upstreams ++ u ∷ [] }) ds in
      let server = expect_block name b >>= λ dirs. build_stream_server dirs >>= λ v.
      stream_directives (record s { servers = s.servers ++ v ∷ [] }) ds in
      let passed = stream_directives s ds in
      if text_eq name (codes "upstream")
      then upstream
      else if text_eq name (codes "server")
      then server
      else if one_of name ignored_in_stream
      then passed
      else err (not_known name)

  unfoldable pub build_stream : Directives → Building Stream
  unfolding stream_directives
  build_stream dirs = stream_directives (record { upstreams = []; servers = [] }) dirs
