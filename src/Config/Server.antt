-- ===== src/Config/Server.antt =====
-- `build_server` and `parse_listen` of src/config/build.rs, and `Server` of src/config/ast.rs. The
-- parser of socket addresses and `to_lowercase` are the standard library's, and arguments.
pub mod Checked
mod Tests
use elrond.Base.{
  ok, err, ℕ, Bool, false, ◌&&◌, ◌||◌, Option, none, some, List, [], ◌∷◌, ◌++◌, map, if◌then◌else◌,
  is_none, any, Text, codes, text_eq, ◌>>=◌, parse_below,
}
use elrond.Config.Args.{parse_on_off}
use elrond.Config.Measures.{parse_size}
use elrond.Config.Parser.{Directives, directive, nil, cons, Block}
use elrond.Template.{Segment, parse_template}
use elrond.Config.Location.{
  Building, or_error, lift, Location, first, second, arg1, expect_block, parse_location_pattern,
  not_known, bad_size, bad_listen, bad_protocol, no_location_pattern, return_at_server, no_listen,
  no_certificate,
}
use elrond.Config.Location.Build.{build_location}

pub data TlsVersion : Type 0 where
  tls12 tls13 : TlsVersion

-- the fields that the loop only sets
pub record ServerSettings : Type 0 where
  pub server_name : Option Text
  pub ssl_certificate : Option Text
  pub ssl_certificate_key : Option Text
  pub ssl_protocols : List TlsVersion
  pub gzip : Option Bool
  pub gzip_types : List Text
  pub gzip_min_length : Option ℕ
  pub add_headers : List (Text × List Segment)
  pub client_max_body_size : Option ℕ

-- The standard library's: an address, and how it is made and read.
pub record Net : Type 1 where
  pub SocketAddr : Type 0
  pub any_address : ℕ → SocketAddr  -- 0.0.0.0 and this port
  pub parse_addr : Text → Option SocketAddr
  pub to_lowercase : Text → Text

-- the directives that are passed over
abbrev ignored : List Text
ignored =
    codes "ssl_ciphers"
    ∷ codes "ssl_prefer_server_ciphers"
    ∷ codes "ssl_session_cache"
    ∷ codes "ssl_session_timeout"
    ∷ codes "ssl_session_tickets"
    ∷ codes "ssl_dhparam"
    ∷ codes "ssl_ecdh_curve"
    ∷ codes "ssl_stapling"
    ∷ codes "gzip_disable"
    ∷ codes "gzip_comp_level"
    ∷ codes "gzip_proxied"
    ∷ codes "gzip_vary"
    ∷ codes "gzip_buffers"
    ∷ codes "root"
    ∷ codes "include"
    ∷ codes "access_log"
    ∷ codes "error_log"
    ∷ codes "index"
    ∷ codes "error_page"
    ∷ []

-- the first pass
unfoldable pub find_root : Option Text → Directives → Building (Option Text)
unfolding text_eq
find_root root nil = ok root
find_root root (cons (directive name given _ _) ds) =
    let found = arg1 name given >>= λ r. find_root (some r) ds in
    let kept = find_root root ds in if text_eq name (codes "root") then found else kept

unfoldable pub protocols_of : List Text → Building (List TlsVersion)
unfolding text_eq
protocols_of [] = ok []
protocols_of (a ∷ rest) =
    let further = λ (v : TlsVersion). protocols_of rest >>= λ vs. ok (v ∷ vs) in
    if text_eq a (codes "TLSv1.2")
    then further tls12
    else if text_eq a (codes "TLSv1.3")
    then further tls13
    else err (bad_protocol a)

abbrev size_of : Text → Building ℕ
size_of v = or_error (parse_size v) (bad_size v)

module _ (N : Net) where
  open N use {SocketAddr, any_address, parse_addr, to_lowercase}

  pub record Server : Type 0 where
    pub listen : Option SocketAddr
    pub root : Option Text
    pub locations : List Location
    pub tls : Bool
    pub http3 : Bool
    pub settings : ServerSettings

  unfoldable pub parse_listen : Text → Building SocketAddr
  unfolding parse_below
  parse_listen s = elim (parse_below 65536 s) [
    | some port ↦ ok (any_address port)
    | none ↦ or_error (parse_addr s) (bad_listen s)
  ]

  -- the arms that set a field, and those that do nothing
  unfoldable pub server_setting : Text → List Text → ServerSettings → Building ServerSettings
  unfolding text_eq
  server_setting name given s =
      if text_eq name (codes "server_name")
      then ok (record s { server_name = first given })
      else if text_eq name (codes "ssl_certificate")
      then (arg1 name given >>= λ c. ok (record s { ssl_certificate = some c }))
      else if text_eq name (codes "ssl_certificate_key")
      then (arg1 name given >>= λ c. ok (record s { ssl_certificate_key = some c }))
      else if text_eq name (codes "ssl_protocols")
      then (protocols_of given >>= λ vs. ok (record s { ssl_protocols = s.ssl_protocols ++ vs }))
      else if text_eq name (codes "client_max_body_size")
      then (arg1 name given >>= λ v.
          size_of v >>= λ n. ok (record s { client_max_body_size = some n }))
      else if text_eq name (codes "gzip")
      then (lift (parse_on_off (first given)) >>= λ b. ok (record s { gzip = some b }))
      else if text_eq name (codes "gzip_types")
      then ok (record s { gzip_types = s.gzip_types ++ map to_lowercase given })
      else if text_eq name (codes "add_header")
      then (arg1 name given >>= λ n.
          ok (record s { add_headers = s.add_headers ++ (n, parse_template (second given)) ∷ [] }))
      else if text_eq name (codes "gzip_min_length")
      then (arg1 name given >>= λ v. size_of v >>= λ n. ok (record s { gzip_min_length = some n }))
      else if text_eq name (codes "return")
      then err return_at_server
      else if any (λ n. text_eq name n) ignored
      then ok s
      else err (not_known name)

  -- the `listen` arm
  unfoldable pub listen_at : Server → List Text → Building Server
  unfolding text_eq
  listen_at server given = arg1 (codes "listen") given >>= λ a.
      let quic = any (λ x. text_eq x (codes "http3") || text_eq x (codes "quic")) given in
      let ssl = any (λ x. text_eq x (codes "ssl")) given in
      parse_listen a >>= λ addr. ok (record server {
        tls = server.tls || ssl || quic;
        http3 = server.http3 || quic;
        listen = some addr;
      })

  -- the `location` arm
  unfoldable pub add_location : Server → List Text → Block → Building Server
  add_location server [] b = err no_location_pattern
  add_location server (a ∷ rest) b = parse_location_pattern a rest >>= λ kp.
      expect_block (codes "location") b >>= λ dirs.
      build_location kp.1 kp.0 dirs server.root >>= λ l.
      ok (record server { locations = server.locations ++ l ∷ [] })

  unfoldable pub server_directive : Server → Text → List Text → Block → Building Server
  server_directive server name given b =
      if text_eq name (codes "listen")
      then listen_at server given
      else if text_eq name (codes "location")
      then add_location server given b
      else (server_setting name given server.settings >>= λ s. ok (record server { settings = s }))

  unfoldable pub server_directives : Server → Directives → Building Server
  server_directives server nil = ok server
  server_directives server (cons (directive name given b _) ds) =
      server_directive server name given b >>= λ server'. server_directives server' ds

  abbrev pub empty_server : Option Text → Server
  empty_server root = record {
    listen = none;
    root = root;
    locations = [];
    tls = false;
    http3 = false;
    settings = record {
      server_name = none;
      ssl_certificate = none;
      ssl_certificate_key = none;
      ssl_protocols = [];
      gzip = none;
      gzip_types = [];
      gzip_min_length = none;
      add_headers = [];
      client_max_body_size = none;
    };
  }

  -- the checks behind the loop
  unfoldable pub checked_server : Server → Building Server
  checked_server s =
      if is_none s.listen
      then err no_listen
      else if s.tls
          && (is_none s.settings.ssl_certificate || is_none s.settings.ssl_certificate_key)
      then err no_certificate
      else ok s

  unfoldable pub build_server : Directives → Building Server
  build_server dirs =
      find_root none dirs >>= λ root. server_directives (empty_server root) dirs >>= checked_server
