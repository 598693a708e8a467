-- ===== src/Config/Upstream/Tests.antt =====
-- An upstream of two servers, and the theorem at it.
use elrond.Base.{ok, ◌≡◌, refl, true, false, none, [], ◌∷◌, arith, codes}
use elrond.Balancer.{least_conn}
use elrond.Config.Upstream.{UpstreamServer, build_upstream}
use elrond.Config.Upstream.Declared.{build_upstream-print, method_print, servers_print, IsServer}

abbrev primary : UpstreamServer
primary = record {
  addr = codes "10.0.0.1:80";
  weight = 3;
  max_fails = 2;
  fail_timeout = 5000;
  backup = false;
  down = false;
}

abbrev spare : UpstreamServer
spare = record primary { addr = codes "10.0.0.2:80"; backup = true }

fits : {s : UpstreamServer} → s.weight ≡ 3 → s.max_fails ≡ 2 → s.fail_timeout ≡ 5000 → IsServer s
fits w m t = record {
  weight_fits = omega arith;
  max_fails_fits = omega arith;
  timeout_fits = omega arith;
}

build_upstream-print_example :
    build_upstream (codes "app") (method_print least_conn (servers_print (primary ∷ spare ∷ [])))
    ≡ ok (record {
      upstream_name = codes "app";
      method = least_conn;
      servers = primary ∷ spare ∷ [];
      health_check = none;
    })
build_upstream-print_example =
    build_upstream-print (codes "app") least_conn primary (spare ∷ [])
      (fits {s = primary} refl refl refl, (fits {s = spare} refl refl refl, tt))
