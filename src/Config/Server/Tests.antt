-- ===== src/Config/Server/Tests.antt =====
-- A server without `listen`.
use elrond.Base.{err, ℕ, ◌≡◌, refl, none, to_ascii_lowercase}
use elrond.Config.Parser.{nil}
use elrond.Config.Location.{no_listen}
use elrond.Config.Server.{build_server, Net, find_root, server_directives, checked_server}

abbrev ports : Net
ports = record {
  SocketAddr = ℕ;
  any_address = λ port. port;
  parse_addr = λ _. none;
  to_lowercase = to_ascii_lowercase;
}

no_listen_refused : build_server ports nil ≡ err no_listen
unfolding build_server find_root server_directives checked_server
no_listen_refused = refl
