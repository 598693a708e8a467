-- ===== src/Router/Upstreams/Tests.antt =====
-- An upstream of which one server is down, and the theorem at it.
use elrond.Base.{◌≡◌, ◌↔◌, true, none, [], ◌∷◌, arith, codes}
use elrond.Net.{IpAddr, v4}
use elrond.Balancer.{round_robin, pick_inner, effective_weight}
use elrond.Config.Upstream.{Upstream, server_at}
use elrond.Router.Upstreams.{lower_upstream, AllDown, lower_upstream-pick_inner}

abbrev pool : Upstream
pool = record {
  upstream_name = codes "pool";
  method = round_robin;
  servers = record (server_at (codes "a:80")) { down = true } ∷ server_at (codes "b:80") ∷ [];
  health_check = none;
}

abbrev client : IpAddr
client = v4 (10 ∷ 0 ∷ 0 ∷ 1 ∷ [])

lower_upstream-pick_inner_example :
    ((pick_inner (λ _. 0) 1000 (lower_upstream pool) client []).1 ≡ none) ↔ AllDown pool.servers
unfolding effective_weight
lower_upstream-pick_inner_example =
    lower_upstream-pick_inner (λ _. 0) pool 1000 client (omega arith)
