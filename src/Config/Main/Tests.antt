-- ===== src/Config/Main/Tests.antt =====
-- A whole configuration, one that is refused, and the theorem at the first.
use elrond.Base.{
  ok, err, ℕ, ◌≡◌, refl, Bool, true, false, Option, none, some, List, [], ◌∷◌, Text, codes,
  to_ascii_lowercase,
}
use elrond.Config.Parser.{Directives, directive, nil, cons, no_block, block}
use elrond.Config.Location.{Building, missing_block, is_content, content_of, parse_location_pattern}
use elrond.Config.Server.{
  Net, find_root, parse_listen, listen_at, add_location, server_directive, server_directives,
  checked_server, build_server,
}
use elrond.Config.Http.{build_http, http_directives, http_directive}
use elrond.Config.Upstream.{build_upstream, upstream_directives}
use elrond.Config.Location.Build.{
  build_location, location_directive, location_directives, settle, checked,
}
use elrond.Config.Args.{parse_limit_conn_zone}
use elrond.Config.Main.{build, main_directives, main_directive}

abbrev ports : Net
ports = record {
  SocketAddr = ℕ;
  any_address = λ port. port;
  parse_addr = λ _. none;
  to_lowercase = to_ascii_lowercase;
}

abbrev rate : Text → Option Text
rate t = some t

abbrev line : Text → List Text → Directives → Directives
line name given ds = cons (directive name given no_block 1) ds

abbrev within : Text → List Text → Directives → Directives → Directives
within name given body ds = cons (directive name given (block body) 1) ds

abbrev site : Directives
site = line (codes "listen") (codes "80" ∷ []) (
    within (codes "location") (codes "/" ∷ [])
      (line (codes "proxy_pass") (codes "http://pool" ∷ []) nil) nil)

abbrev conf : Directives
conf =
    within (codes "http") []
      (line (codes "limit_conn_zone") (codes "$remote_addr" ∷ codes "zone=addr:1m" ∷ []) (
        within (codes "upstream") (codes "pool" ∷ [])
          (line (codes "server") (codes "a:80" ∷ []) nil) (within (codes "server") [] site nil)))
      nil

-- `http` without a block
bare_refused : build ports rate (line (codes "http") [] nil) ≡ err (missing_block (codes "http"))
unfolding build main_directives main_directive
bare_refused = refl

abbrev is_ok : {A : Type 0} → Building A → Bool
is_ok (ok _) = true
is_ok (err _) = false

-- the whole one is accepted
conf_accepted : is_ok (build ports rate conf) ≡ true
unfolding build main_directives main_directive build_http http_directives http_directive
    build_server find_root server_directives server_directive listen_at parse_listen add_location
    parse_location_pattern build_location location_directives location_directive is_content
    content_of settle checked checked_server build_upstream upstream_directives
    parse_limit_conn_zone
conf_accepted = refl
