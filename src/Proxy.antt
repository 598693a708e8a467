-- ===== src/Proxy.antt =====
-- src/proxy.rs: a request goes to a peer of the upstream, and on to another one if it fails and may
-- be sent again. Requests that run at the same time are left out, as are the metrics and the log.
pub mod Retry
pub mod InFlight
pub mod Headers
pub mod Outbound
pub mod Among
pub mod Answers
mod Tests
use elrond.Base.{
  ℕ, zero, suc, ◌+◌, min, max, Bool, not, ◌&&◌, ◌||◌, Option, none, some, List, [], ◌∷◌, ◌++◌, ltb,
  leb, if◌then◌else◌, length, Text, codes, text_eq,
}
use elrond.Net.{IpAddr}
use elrond.Peer.{Peer, record_success, record_failure, enter, drop_guard}
use elrond.Balancer.{Balancer, Slot, pick, pick_excluding}
use elrond.Cache.{HeaderApi, Entry, State, put, build_signature, get, parse_vary}
use elrond.Cache.Decide.{store_for, decide_caching, bypass}

-- The world of one request: hyper's client and bodies, and the clock. The exchange with a peer is
-- `forward_to_peer` under the read timeout: nothing on an error or a timeout.
pub record Upstream (H : HeaderApi) : Type 1 where
  pub Response : Type 0
  pub status : Response → ℕ
  pub headers : Response → H.Map
  pub pairs : Response → List (Text × Text)  -- the headers, one by one
  pub body : Response → Option (List ℕ)  -- `collect` may fail
  pub exchange : ℕ → Peer → Option Response  -- at each attempt
  pub picked_at : ℕ → ℕ  -- milliseconds, when an attempt picks
  pub ended_at : ℕ → ℕ  -- and when it has ended
  pub now : ℕ  -- when the cache is asked
  pub stored_at : ℕ  -- and when it stores

abbrev pub max_attempts : ℕ
max_attempts = 3

-- a method of the peer that a slot stands for
abbrev pub update_at : ℕ → (Peer → Peer) → List Peer → List Peer
update_at i f [] = []
update_at zero f (p ∷ ps) = f p ∷ ps
update_at (suc i) f (p ∷ ps) = p ∷ update_at i f ps

abbrev pub on_peer : Slot → (Peer → Peer) → Balancer → Balancer
on_peer s f b = record b { peers = update_at s.0 f b.peers }

abbrev pub is_retry_safe : Text → Bool
is_retry_safe method =
    text_eq method (codes "GET")
    || text_eq method (codes "HEAD")
    || text_eq method (codes "OPTIONS")
    || text_eq method (codes "DELETE")

abbrev pub is_server_error : ℕ → Bool
is_server_error status = leb 500 status && ltb status 600

pub data Label : Type 0 where
  unlabelled miss skipped : Label

-- `proxy_cache` of a location, with the key of the request already rendered
pub record ProxyCache : Type 0 where
  pub key : Text
  pub max_bytes : ℕ
  pub valid_rules : List (List ℕ × ℕ)

module _ (H : HeaderApi) (U : Upstream H) (hash : IpAddr → ℕ) where
  -- how the loop ends: the balancer, the addresses that the request was sent to, in order, the last
  -- server error, and the answer
  pub record Outcome : Type 0 where
    pub balancer : Balancer
    pub asked : List Text
    pub last : Option U.Response
    pub answer : Option (Slot × U.Response)

  -- a request was sent to this address first
  abbrev pub and_asked : Text → Outcome → Outcome
  and_asked a o = record o { asked = a ∷ o.asked }

  -- the loop of `forward`: as many attempts as are left, from attempt `k`
  unfoldable pub attempts : ℕ → ℕ → IpAddr → Balancer → List Text → Option U.Response → Outcome
  unfolding pick_excluding enter drop_guard record_success record_failure
  attempts zero k client_ip b excluded last = record {
    balancer = b;
    asked = [];
    last = last;
    answer = none;
  }
  attempts (suc left) k client_ip b excluded last =
      let (b', picked) = pick_excluding hash (U.picked_at k) b client_ip excluded in
      elim picked [
        | none ↦ record { balancer = b'; asked = []; last = last; answer = none }
        | some s ↦
            let entered = on_peer s enter b' in
            let failed = on_peer s drop_guard (on_peer s (record_failure (U.ended_at k)) entered) in
            let excluded' = excluded ++ s.1.addr ∷ [] in
            elim (U.exchange k s.1) [
              | none ↦ and_asked s.1.addr (attempts left (suc k) client_ip failed excluded' last)
              | some resp ↦
                  let retried = attempts left (suc k) client_ip failed excluded' (some resp) in
                  if is_server_error (U.status resp) then and_asked s.1.addr retried else record {
                    balancer = on_peer s drop_guard (on_peer s record_success entered);
                    asked = s.1.addr ∷ [];
                    last = last;
                    answer = some (s, resp);
                  }
            ]
      ]

  pub data Answer : Type 0 where
    cached : Entry → Answer
    relayed : U.Response → Label → Answer
    bodiless : U.Response → Answer
    bad_gateway : Answer

  -- the cache afterwards, and the response
  unfoldable pub maybe_cache :
      Option ProxyCache → Text → H.Map → U.Response → State → State × Answer
  unfolding decide_caching put parse_vary build_signature text_eq
  maybe_cache none method req resp s = (s, relayed resp unlabelled)
  maybe_cache (some c) method req resp s =
      if not (text_eq method (codes "GET")) then (s, relayed resp skipped) else elim (U.body resp) [
        | none ↦ (s, bodiless resp)
        | some body ↦
            elim (decide_caching H method (U.headers resp) (U.status resp) (length body)
              c.valid_rules) [
                | bypass _ ↦ (s, relayed resp skipped)
                | store_for ttl ↦
                    let vary_headers = parse_vary H (U.headers resp) in
                    let entry : Entry = record {
                      status = U.status resp;
                      headers = U.pairs resp;
                      body = body;
                      expires_at = U.stored_at + ttl;
                      vary_headers = vary_headers;
                      vary_signature = build_signature H req vary_headers;
                    } in
                    (put c.max_bytes c.key entry s, relayed resp miss)
              ]
      ]

  -- `forward_once_with_incoming`
  unfoldable pub forward_once : IpAddr → Balancer → Balancer × Answer
  unfolding pick enter drop_guard record_success record_failure
  forward_once client_ip b =
      let (b', picked) = pick hash (U.picked_at 0) b client_ip in
      elim picked [
        | none ↦ (b', bad_gateway)
        | some s ↦
            let entered = on_peer s enter b' in
            let failed = on_peer s drop_guard (on_peer s (record_failure (U.ended_at 0)) entered) in
            elim (U.exchange 0 s.1) [
              | none ↦ (failed, bad_gateway)
              | some resp ↦
                  if is_server_error (U.status resp) then (failed, relayed resp unlabelled) else (
                    on_peer s drop_guard (on_peer s record_success entered),
                    relayed resp unlabelled,
                  )
            ]
      ]

  abbrev pub attempts_of : Balancer → ℕ
  attempts_of b = min max_attempts (max (length b.peers) 1)

  -- the end of `forward`
  unfoldable pub finish : Option ProxyCache → Text → H.Map → Outcome → State → State × Answer
  unfolding maybe_cache
  finish cache method req o s = elim o.answer [
    | some (_, resp) ↦ maybe_cache cache method req resp s
    | none ↦ elim o.last [ none ↦ (s, bad_gateway) | some resp ↦ (s, relayed resp unlabelled) ]
  ]

  unfoldable pub forward_upstream :
      Option ProxyCache → Text → H.Map → IpAddr → State → Balancer → State × Balancer × Answer
  unfolding attempts forward_once finish
  forward_upstream cache method req client_ip s b =
      if not (is_retry_safe method)
      then (let (b', answer) = forward_once client_ip b in (s, b', answer))
      else let o = attempts (attempts_of b) 0 client_ip b [] none in
        let (s', answer) = finish cache method req o s in (s', o.balancer, answer)

  -- the cache is asked first, by a GET
  unfoldable pub forward :
      Option ProxyCache → Text → H.Map → IpAddr → State → Balancer → State × Balancer × Answer
  unfolding get forward_upstream text_eq
  forward none method req client_ip s b = forward_upstream none method req client_ip s b
  forward (some c) method req client_ip s b =
      if not (text_eq method (codes "GET"))
      then forward_upstream (some c) method req client_ip s b
      else let (s', found) = get H U.now c.key req s in
        elim found [
          | some entry ↦ (s', b, cached entry)
          | none ↦ forward_upstream (some c) method req client_ip s' b
        ]
