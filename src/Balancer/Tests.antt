-- ===== src/Balancer/Tests.antt =====
-- The balancer on a pool of three peers, and the theorems at it.
use Prim.Native.Nat.{◌%◌}
use elrond.Base.{
  ℕ, ◌≡◌, ◌↔◌, ◌⊎◌, refl, Bool, true, false, none, some, List, [], ◌∷◌, ◌++◌, map, All, In, take,
  drop, codes, text_eq, arith,
}
use elrond.Net.{IpAddr, v4}
use elrond.Peer.{Peer, is_available}
use elrond.Balancer.{
  LbMethod, round_robin, least_conn, Balancer, Slot, slots_from, effective_weight, total_weight,
  pick_weighted_rr, score, min_from, pick_least_conn, is_excluded, is_eligible, pool_of, pick_inner,
}
use elrond.Balancer.Eligible.{IsCandidate, pick_inner-IsCandidate, pick_inner-none}
use elrond.Balancer.RoundRobin.{schedule, picks, picks-round}

abbrev peer : ℕ → ℕ → Bool → ℕ → Peer
peer n weight backup in_flight = record {
  addr = n ∷ [];
  weight = weight;
  max_fails = 1;
  fail_timeout = 10000;
  backup = backup;
  down = false;
  in_flight = in_flight;
  consecutive_failures = 0;
  failed_until_ms = 0;
}

abbrev peers : List Peer
peers = peer 1 2 false 5 ∷ peer 2 1 false 1 ∷ peer 3 1 true 0 ∷ []

abbrev balancer : LbMethod → Balancer
balancer m = record {
  name = codes "app";
  method = m;
  peers = peers;
  scheme = codes "http";
  rr_counter = 4;
}

abbrev client : IpAddr
client = v4 (10 ∷ 0 ∷ 0 ∷ 1 ∷ [])

abbrev hash : IpAddr → ℕ
hash ip = 7

abbrev slot_one : Slot
slot_one = (0, peer 1 2 false 5)

abbrev slot_two : Slot
slot_two = (1, peer 2 1 false 1)

abbrev pool : List Slot
pool = slot_one ∷ slot_two ∷ []

-- with the first two peers excluded, the backup takes over
backup_takes_over :
    (pick_inner hash 0 (balancer round_robin) client ((1 ∷ []) ∷ (2 ∷ []) ∷ [])).1
    ≡ some (2, peer 3 1 true 0)
unfolding pick_inner pool_of is_eligible is_excluded is_available text_eq pick_weighted_rr
    effective_weight
backup_takes_over = refl

least_conn_picks : (pick_inner hash 0 (balancer least_conn) client []).1 ≡ some slot_two
unfolding pick_inner pool_of is_eligible is_excluded is_available text_eq pick_least_conn min_from
    score
least_conn_picks = refl

pick_inner-IsCandidate_example :
    In slot_two (slots_from 0 peers)
    × IsCandidate 0 [] slot_two
    × ((slot_two.1.backup ≡ false)
        ⊎ All (λ p. (p.1.backup ≡ true) ⊎ (¬ (IsCandidate 0 [] p))) (slots_from 0 peers))
pick_inner-IsCandidate_example =
    pick_inner-IsCandidate hash 0 (balancer least_conn) client [] slot_two least_conn_picks

pick_inner-none_example :
    ((pick_inner hash 0 (balancer round_robin) client []).1 ≡ none)
    ↔ All (λ p. ¬ (IsCandidate 0 [] p)) (slots_from 0 peers)
unfolding effective_weight
pick_inner-none_example = pick_inner-none hash 0 (balancer round_robin) client [] (omega arith)

picks-round_example :
    picks (total_weight pool) 4 pool
    ≡ map some (
        drop (4 % total_weight pool) (schedule pool)
        ++ take (4 % total_weight pool) (schedule pool))
unfolding effective_weight
picks-round_example = picks-round 4 pool (omega arith) (omega arith) (omega arith)

-- from counter 4 the round is: the first peer's second turn, the second peer, the first again
round_from_four : picks 3 4 pool ≡ some slot_one ∷ some slot_two ∷ some slot_one ∷ []
unfolding picks pick_weighted_rr effective_weight
round_from_four = refl
