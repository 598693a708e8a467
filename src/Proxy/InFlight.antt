-- ===== src/Proxy/InFlight.antt =====
-- The guard of every attempt is dropped: no request leaves a counter changed.
use elrond.Base.{
  ℕ, zero, suc, ◌<◌, ◌≡◌, refl, sym, subst, ap, ◌∙◌, not, Option, none, some, List, [], ◌∷◌, ◌++◌,
  map, arith, if-intro, option-intro, is_empty, All, Text, codes, text_eq,
}
use elrond.Net.{IpAddr}
use elrond.Peer.{Peer, record_success, record_failure, enter, drop_guard}
use elrond.Balancer.{Balancer, pick_inner, Slot, pool_of, pick, pick_excluding}
use elrond.Cache.{HeaderApi, State, get}
use elrond.Proxy.{
  Upstream, update_at, on_peer, is_retry_safe, is_server_error, ProxyCache, Outcome, attempts,
  Answer, forward_once, attempts_of, forward_upstream, forward,
}

abbrev pub in_flights : List Peer → List ℕ
in_flights ps = map (λ p. p.in_flight) ps

abbrev pub IsSmall : List Peer → Type 0
IsSmall ps = All (λ n. n < 4294967296) (in_flights ps)

drop_guard-enter :
    (g : Peer → Peer) (p : Peer)
    → ((q : Peer) → (g q).in_flight ≡ q.in_flight)
    → p.in_flight < 4294967296
    → (drop_guard (g (enter p))).in_flight ≡ p.in_flight
unfolding drop_guard enter
drop_guard-enter g p f l = omega (arith, f (enter p))

update_at-in_flights :
    (i : ℕ) (g : Peer → Peer) (ps : List Peer)
    → ((p : Peer) → (g p).in_flight ≡ p.in_flight)
    → IsSmall ps
    → in_flights (update_at i drop_guard (update_at i g (update_at i enter ps))) ≡ in_flights ps
update_at-in_flights i g [] f h = refl
update_at-in_flights zero g (p ∷ ps) f h = ap (λ n. n ∷ in_flights ps) (drop_guard-enter g p f h.0)
update_at-in_flights (suc i) g (p ∷ ps) f h =
    ap (λ ns. p.in_flight ∷ ns) (update_at-in_flights i g ps f h.1)

record_failure-in_flight : (now : ℕ) (p : Peer) → (record_failure now p).in_flight ≡ p.in_flight
unfolding record_failure
record_failure-in_flight now p = ground arith

record_success-in_flight : (p : Peer) → (record_success p).in_flight ≡ p.in_flight
unfolding record_success
record_success-in_flight p = refl

module _ (H : HeaderApi) (U : Upstream H) (hash : IpAddr → ℕ) where
  pub pick_inner-peers :
      (now : ℕ) (b : Balancer) (ip : IpAddr) (ex : List Text)
      → (pick_inner hash now b ip ex).0.peers ≡ b.peers
  unfolding pick_inner
  pick_inner-peers now b ip ex =
      if-intro (λ (r : Balancer × Option Slot). r.0.peers ≡ b.peers)
        (is_empty (pool_of now ex b.peers)) (b, none) _ (λ _. refl) (λ _. refl)

  -- the counters of the one are those of the other
  abbrev AreKept : Balancer → Balancer → Type 0
  AreKept b b' = in_flights b'.peers ≡ in_flights b.peers

  on_peer-AreKept :
      (s : Slot) (g : Peer → Peer) (b b' : Balancer)
      → ((p : Peer) → (g p).in_flight ≡ p.in_flight)
      → IsSmall b.peers
      → b'.peers ≡ b.peers
      → AreKept b (on_peer s drop_guard (on_peer s g (on_peer s enter b')))
  on_peer-AreKept s g b b' f h e =
      subst
        (λ ps.
          in_flights (update_at s.0 drop_guard (update_at s.0 g (update_at s.0 enter ps)))
          ≡ in_flights b.peers)
        (sym e) (update_at-in_flights s.0 g b.peers f h)

  attempts-AreKept :
      (left k : ℕ) (ip : IpAddr) (b : Balancer) (excluded : List Text) (last : Option U.Response)
      → IsSmall b.peers
      → AreKept b (attempts H U hash left k ip b excluded last).balancer
  unfolding attempts pick_excluding
  attempts-AreKept zero k ip b excluded last h = refl
  attempts-AreKept (suc left) k ip b excluded last h =
      let b' : Balancer = (pick_excluding hash (U.picked_at k) b ip excluded).0 in
      let e : b'.peers ≡ b.peers = pick_inner-peers (U.picked_at k) b ip excluded in
      let P : Outcome H U hash → Type 0 = λ o. AreKept b o.balancer in
      option-intro P (pick_excluding hash (U.picked_at k) b ip excluded).1 _ _
        (λ n. ap in_flights e)
        (λ s q.
          let failed : Balancer =
            on_peer s drop_guard (on_peer s (record_failure (U.ended_at k)) (on_peer s enter b')) in
          let kept : AreKept b failed =
            on_peer-AreKept s (record_failure (U.ended_at k)) b b'
              (record_failure-in_flight (U.ended_at k)) h e in
          let h' : IsSmall failed.peers = subst (λ ns. All (λ n. n < 4294967296) ns) (sym kept) h in
          let again : (l : Option U.Response)
              → P (attempts H U hash left (suc k) ip failed (excluded ++ s.1.addr ∷ []) l) =
            λ l. attempts-AreKept left (suc k) ip failed (excluded ++ s.1.addr ∷ []) l h' ∙ kept in
          option-intro P (U.exchange k s.1) _ _ (λ _. again last)
            (λ resp _.
              if-intro P (is_server_error (U.status resp)) _ _ (λ _. again (some resp))
                (λ _. on_peer-AreKept s record_success b b' record_success-in_flight h e)))

  forward_once-AreKept :
      (ip : IpAddr) (b : Balancer) → IsSmall b.peers → AreKept b (forward_once H U hash ip b).0
  unfolding forward_once pick
  forward_once-AreKept ip b h =
      let b' : Balancer = (pick hash (U.picked_at 0) b ip).0 in
      let e : b'.peers ≡ b.peers = pick_inner-peers (U.picked_at 0) b ip [] in
      let P : Balancer × Answer H U hash → Type 0 = λ r. AreKept b r.0 in
      option-intro P (pick hash (U.picked_at 0) b ip).1 _ _ (λ n. ap in_flights e)
        (λ s q.
          let failed =
            on_peer-AreKept s (record_failure (U.ended_at 0)) b b'
              (record_failure-in_flight (U.ended_at 0)) h e in
          option-intro P (U.exchange 0 s.1) _ _ (λ _. failed)
            (λ resp _.
              if-intro P (is_server_error (U.status resp)) _ _ (λ _. failed)
                (λ _. on_peer-AreKept s record_success b b' record_success-in_flight h e)))

  forward_upstream-AreKept :
      (cache : Option ProxyCache) (method : Text) (req : H.Map) (ip : IpAddr) (s : State)
      (b : Balancer)
      → IsSmall b.peers
      → AreKept b (forward_upstream H U hash cache method req ip s b).1
  unfolding forward_upstream
  forward_upstream-AreKept cache method req ip s b h =
      if-intro (λ (r : State × Balancer × Answer H U hash). AreKept b r.1)
        (not (is_retry_safe method)) _ _ (λ _. forward_once-AreKept ip b h)
        (λ _. attempts-AreKept (attempts_of H U hash b) 0 ip b [] none h)

  -- Whatever the method, the cache, and the answers of the peers, once a request has been forwarded
  -- the in-flight counter of every peer is what it was before, if each was below 2 ^ 32.
  pub forward-in_flights :
      (cache : Option ProxyCache) (method : Text) (req : H.Map) (ip : IpAddr) (s : State)
      (b : Balancer)
      → IsSmall b.peers
      → in_flights (forward H U hash cache method req ip s b).1.peers ≡ in_flights b.peers
  unfolding forward
  forward-in_flights none method req ip s b h = forward_upstream-AreKept none method req ip s b h
  forward-in_flights (some c) method req ip s b h =
      let P : State × Balancer × Answer H U hash → Type 0 = λ r. AreKept b r.1 in
      if-intro P (not (text_eq method (codes "GET"))) _ _
        (λ _. forward_upstream-AreKept (some c) method req ip s b h)
        (λ _.
          option-intro P (get H U.now c.key req s).1 _ _
            (λ _. forward_upstream-AreKept (some c) method req ip (get H U.now c.key req s).0 b h)
            (λ entry _. refl))
