-- ===== src/Router/Upstreams.antt =====
-- The balancers that `build` of src/app.rs makes of the upstreams, and where one has nobody to pick.
mod Tests
use elrond.Base.{
  ℕ, suc, ◌^◌, ◌<◌, ◌≡◌, refl, sym, ap, ◌∙◌, ◌↔◌, inl, inr, Bool, true, false, not, Option, none,
  some, List, [], ◌∷◌, map, if◌then◌else◌, Bool-cases, All, Text, codes, text_eq,
}
use elrond.Net.{IpAddr}
use elrond.Peer.{Peer, is_available}
use elrond.Peer.Health.{IsFresh}
use elrond.Balancer.{Balancer, total_weight, slots_from, pick_inner, is_excluded}
use elrond.Balancer.Eligible.{IsCandidate, pick_inner-none}
use elrond.Config.Upstream.{UpstreamServer, Upstream}

abbrev pub lower_peer : UpstreamServer → Peer
lower_peer s = record {
  addr = s.addr;
  weight = s.weight;
  max_fails = s.max_fails;
  fail_timeout = s.fail_timeout;
  backup = s.backup;
  down = s.down;
  in_flight = 0;
  consecutive_failures = 0;
  failed_until_ms = 0;
}

abbrev pub lower_upstream : Upstream → Balancer
lower_upstream u = record {
  name = u.upstream_name;
  method = u.method;
  peers = map lower_peer u.servers;
  scheme = codes "http";
  rr_counter = 0;
}

-- the loop over the upstreams: of two with one name the later replaces the earlier
unfoldable pub lower_upstreams : List Upstream → (Text → Option Balancer) → Text → Option Balancer
lower_upstreams [] balancers = balancers
lower_upstreams (u ∷ ups) balancers =
    lower_upstreams ups
      (λ name. if text_eq name u.upstream_name then some (lower_upstream u) else balancers name)

-- every server is marked `down`
abbrev pub AllDown : List UpstreamServer → Type 0
AllDown servers = All (λ s. s.down ≡ true) servers

lower_peer-is_available :
    (s : UpstreamServer) (now : ℕ) → is_available (lower_peer s) now ≡ not s.down
unfolding is_available
lower_peer-is_available s now = by_flag s.down
  where
    by_flag : (b : Bool) → (if b then false else true) ≡ not b
    by_flag true = refl
    by_flag false = refl

IsCandidate-unless_down :
    (i now : ℕ) (s : UpstreamServer) → (¬ (IsCandidate now [] (i, lower_peer s))) ↔ (s.down ≡ true)
IsCandidate-unless_down i now s = elim (Bool-cases s.down) [
  | inl e ↦ (λ _. e, λ _ c. let a = sym (lower_peer-is_available s now) ∙ c.available in absurd cc)
  | inr e ↦ (
    λ n. absurd (
        n (record {
          available = lower_peer-is_available s now ∙ ap not e;
          not_excluded = unfold is_excluded in refl;
        })),
    λ d. absurd cc,
  )
]

slots-AllDown :
    (i now : ℕ) (servers : List UpstreamServer)
    → All (λ p. ¬ (IsCandidate now [] p)) (slots_from i (map lower_peer servers)) ↔ AllDown servers
slots-AllDown i now [] = (λ _. tt, λ _. tt)
slots-AllDown i now (s ∷ servers) =
    let here = IsCandidate-unless_down i now s in
    let behind = slots-AllDown (suc i) now servers in
    (λ h. (here.0 h.0, behind.0 h.1), λ h. (here.1 h.0, behind.1 h.1))

module _ (hash : IpAddr → ℕ) where
  -- A balancer as `build` makes it, whose weights sum to less than 2^32, has a peer for the first
  -- request, at any time and from any address, unless every server of the upstream is marked `down`;
  -- and then it has none.
  pub lower_upstream-pick_inner :
      (u : Upstream) (now : ℕ) (client_ip : IpAddr)
      → total_weight (slots_from 0 (map lower_peer u.servers)) < 2 ^ 32
      → ((pick_inner hash now (lower_upstream u) client_ip []).1 ≡ none) ↔ AllDown u.servers
  lower_upstream-pick_inner u now client_ip l =
      let picked = pick_inner-none hash now (lower_upstream u) client_ip [] l in
      let downs = slots-AllDown 0 now u.servers in
      (λ e. downs.0 (picked.0 e), λ d. picked.1 (downs.1 d))
