-- ===== src/Proxy/Tests.antt =====
-- Two peers of which the first always fails, header maps as dictionaries, and the theorems at them.
use elrond.Base.{
  ℕ, ◌≡◌, refl, true, false, none, some, [], ◌∷◌, arith, if◌then◌else◌, Text, codes, text_eq,
  text_eq_iff, Dict, lookup, insert, remove,
}
use elrond.Net.{IpAddr, v4}
use elrond.Peer.{Peer}
use elrond.Balancer.{Balancer, round_robin, Slot, is_excluded}
use elrond.Cache.{HeaderApi, State}
use elrond.Proxy.{Upstream, attempts, forward, is_server_error}
use elrond.Proxy.InFlight.{forward-in_flights, in_flights}
use elrond.Proxy.Retry.{forward-IsRun, IsRun}
use elrond.Proxy.Among.{is_steady}
use elrond.Balancer.{effective_weight}
use elrond.Proxy.Answers.{attempts_of-answered, AllAnswer}
use elrond.Proxy.Headers.{HeaderMapApi}

abbrev no_headers : HeaderApi
no_headers = record { Map = Unit; has = λ _ _. false; get_str = λ _ _. none; all_str = λ _ _. [] }

-- a response is its status; the peer `a` answers 503
abbrev upstream : Upstream no_headers
upstream = record {
  Response = ℕ;
  status = λ s. s;
  headers = λ _. tt;
  pairs = λ _. [];
  body = λ _. some [];
  exchange = λ _ p. some (if text_eq p.addr (codes "a") then 503 else 200);
  picked_at = λ _. 1000;
  ended_at = λ _. 1000;
  now = 0;
  stored_at = 0;
}

abbrev peer : Text → Peer
peer addr = record {
  addr = addr;
  weight = 1;
  max_fails = 1;
  fail_timeout = 10000;
  backup = false;
  down = false;
  in_flight = 0;
  consecutive_failures = 0;
  failed_until_ms = 0;
}

abbrev pair : Balancer
pair = record {
  name = codes "up";
  method = round_robin;
  peers = peer (codes "a") ∷ peer (codes "b") ∷ [];
  scheme = codes "http";
  rr_counter = 0;
}

abbrev client : IpAddr
client = v4 (127 ∷ 0 ∷ 0 ∷ 1 ∷ [])

forward-IsRun_example :
    IsRun no_headers upstream
      (λ _. 0)
      2
      []
      (attempts no_headers upstream (λ _. 0) 2 0 client pair [] none)
forward-IsRun_example = forward-IsRun no_headers upstream (λ _. 0) client pair

abbrev empty_store : State
empty_store = record { entries = []; total_bytes = 0 }

forward-in_flights_example :
    in_flights
      (forward no_headers upstream (λ _. 0) none (codes "GET") tt client empty_store pair).1.peers
    ≡ 0 ∷ 0 ∷ []
forward-in_flights_example =
    forward-in_flights no_headers upstream (λ _. 0) none (codes "GET") tt client empty_store pair
      (omega arith, (omega arith, tt))

abbrev dict : HeaderMapApi
dict = record {
  Map = Dict Text;
  get = λ k m. lookup k m;
  insert = λ k v m. insert k v m;
  remove = λ k m. remove k m;
  is_value = λ _. true;
  to_str = λ v. some v;
}

-- `a` answers 503, so the other peer is found
b_answers : AllAnswer no_headers upstream (λ _. 0) (codes "a" ∷ [])
unfolding is_excluded
b_answers k p h =
    (200, ground (arith, h, text_eq_iff (codes "a") p.addr, text_eq_iff p.addr (codes "a")), refl)

attempts_of-answered_example :
    (s : Slot) × (resp : ℕ) × ((attempts no_headers upstream
        (λ _. 0)
        2
        0
        client
        pair
        []
        none).answer
      ≡ some (s, resp))
    × (is_server_error resp ≡ false)
unfolding is_steady is_excluded effective_weight text_eq
attempts_of-answered_example =
    attempts_of-answered no_headers upstream (λ _. 0) (codes "a" ∷ []) b_answers client pair
      (refl, omega arith) (omega arith)
