-- ===== src/Router/Resolve.antt =====
-- `ProxyTarget::resolve` and `resolve_proxy` of src/app.rs. An `Arc<Balancer>` that lives in one of
-- the two maps is named by its map and its key, since requests share the balancer behind it.
use elrond.Base.{
  ◌≡◌, refl, inl, inr, true, false, Option, none, some, [], ◌∷◌, arith, if◌then◌else◌, Bool-cases,
  is_some, unwrap_or, All-of, is_empty, Text, codes, text_eq_iff, text_eq_refl, Dict, lookup,
  insert, contains_key, lookup-insert, strip_prefix, trim_end_matches,
}
use elrond.Peer.{Peer}
use elrond.Balancer.{Balancer, round_robin}

pub data Place : Type 0 where
  named : Text → Place
  ephemeral : Text → Place

abbrev pub strip_or : Text → Text → Text
strip_or p s = unwrap_or (strip_prefix s p) s

abbrev pub http : Text
http = codes "http://"

abbrev pub https : Text
https = codes "https://"

-- the peer that both functions make of a direct address
abbrev pub direct_peer : Text → Peer
direct_peer addr = record {
  addr = addr;
  weight = 1;
  max_fails = 1;
  fail_timeout = 10000;
  backup = false;
  down = false;
  in_flight = 0;
  consecutive_failures = 0;
  failed_until_ms = 0;
}

abbrev pub direct_balancer : Text → Text → Balancer
direct_balancer scheme addr = record {
  name = addr;
  method = round_robin;
  peers = direct_peer addr ∷ [];
  scheme = scheme;
  rr_counter = 0;
}

-- scheme and rest of a target
unfoldable pub scheme_of : Text → Text × Text
unfolding strip_prefix
scheme_of s = elim (strip_prefix s https) [
  | some rest ↦ (codes "https", rest)
  | none ↦ elim (strip_prefix s http) [
    | some rest ↦ (codes "http", rest)
    | none ↦ (codes "http", s)
  ]
]

unfoldable pub resolve_proxy : Text → Dict Balancer → Balancer
unfolding scheme_of trim_end_matches lookup
resolve_proxy target balancers =
    let (scheme, rest) = scheme_of target in
    let host = trim_end_matches b'/' rest in
    unwrap_or (lookup host balancers) (direct_balancer scheme host)

-- the balancer of a direct address; an address without a scheme has no slash left to trim
abbrev pub ephemeral_balancer : Text → Balancer
ephemeral_balancer host =
    let (scheme, addr) = scheme_of host in direct_balancer scheme (trim_end_matches b'/' addr)

-- The maps are asked for the bare address and for the address; a new one goes to the second.
unfoldable pub resolve_host :
    Text → Text → Dict Balancer → Dict Balancer → Dict Balancer × Option Place
unfolding lookup insert scheme_of trim_end_matches
resolve_host host bare balancers direct =
    if is_empty host
    then (direct, none)
    else if contains_key bare balancers
    then (direct, some (named bare))
    else if contains_key host direct
    then (direct, some (ephemeral host))
    else (insert host (ephemeral_balancer host) direct, some (ephemeral host))

-- `resolve` of a dynamic target whose template is rendered: the ephemeral map afterwards and the
-- balancer. The locks of the map are left out.
unfoldable pub resolve : Text → Dict Balancer → Dict Balancer → Dict Balancer × Option Place
unfolding strip_prefix trim_end_matches resolve_host
resolve rendered balancers direct =
    let host = trim_end_matches b'/' (strip_or http rendered) in
    let bare =
      trim_end_matches b'/'
        (elim (strip_prefix host http) [ some s ↦ s | none ↦ strip_or https host ]) in
    resolve_host host bare balancers direct

-- a balancer in its map
abbrev pub balancer_at : Place → Dict Balancer → Dict Balancer → Option Balancer
balancer_at (named k) balancers direct = lookup k balancers
balancer_at (ephemeral k) balancers direct = lookup k direct

-- Resolved again the same, to a balancer that is there, and no balancer replaced.
abbrev pub IsKept :
    (Dict Balancer → Dict Balancer × Option Place)
    → Dict Balancer
    → Dict Balancer
    → Dict Balancer × Option Place
    → Type 0
IsKept again balancers direct r =
    (again r.0 ≡ r)
    × All-of r.1 (λ p. is_some (balancer_at p balancers r.0) ≡ true)
    × ((k : Text) (b : Balancer) → lookup k direct ≡ some b → lookup k r.0 ≡ some b)

resolve_host-IsKept :
    (host bare : Text) (balancers direct : Dict Balancer)
    → IsKept
        (resolve_host host bare balancers)
        balancers
        direct
        (resolve_host host bare balancers direct)
unfolding resolve_host
resolve_host-IsKept host bare balancers direct = elim (Bool-cases (is_empty host)) [
  | inl h ↦ rw h (refl, tt, (λ k b q. q))
  | inr h ↦ elim (Bool-cases (contains_key bare balancers)) [
    | inl n ↦ rw (h, n) (refl, n, (λ k b q. q))
    | inr n ↦ elim (Bool-cases (contains_key host direct)) [
      | inl d ↦ rw (h, n, d) (rw d refl, d, (λ k b q. q))
      | inr d ↦
          let added : Dict Balancer = insert host (ephemeral_balancer host) direct in
          let there : contains_key host added ≡ true =
            ground (
              arith,
              lookup-insert host host (ephemeral_balancer host) direct,
              text_eq_refl host,
            ) in
          rw (h, n, d)
            (
              rw there refl,
              there,
              (λ k b q. ground (
                arith,
                text_eq_iff host k,
                lookup-insert host k (ephemeral_balancer host) direct,
              )),
            )
    ]
  ]
]

-- A target that resolves does so to a balancer that is there; to resolve it again gives the same
-- balancer and makes no other; and no balancer made before is replaced, so that its counters stay.
pub resolve-IsKept :
    (rendered : Text) (balancers direct : Dict Balancer)
    → IsKept (resolve rendered balancers) balancers direct (resolve rendered balancers direct)
unfolding resolve
resolve-IsKept rendered balancers direct = resolve_host-IsKept _ _ balancers direct
