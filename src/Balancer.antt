-- ===== src/Balancer.antt =====
-- src/app.rs, `Balancer`: which peer of an upstream takes the next request.
-- A peer is an `Arc<Peer>` shared with the guards and the health checks: a slot pairs it with its
-- place in `peers`, which stands for the identity of that allocation.
pub mod Eligible
pub mod RoundRobin
pub mod LeastConn
mod Tests
use elrond.Base.{
  ℕ, zero, suc, ◌+◌, ◌-◌, ◌*◌, ◌/◌, ◌%◌, ◌^◌, max, Bool, true, false, not, ◌&&◌, ◌||◌, Option, none,
  some, List, [], ◌∷◌, ltb, leb, ◌==◌, if◌then◌else◌, get_elem?, length, any, is_empty, retain,
  Text, text_eq,
}
use elrond.Net.{IpAddr}
use elrond.Peer.{Peer, u32, is_available}

-- src/config/ast.rs
pub data LbMethod : Type 0 where
  round_robin least_conn ip_hash : LbMethod

pub record Balancer : Type 0 where
  pub name : Text
  pub method : LbMethod
  pub peers : List Peer
  pub scheme : Text
  pub rr_counter : ℕ  -- usize

abbrev pub Slot : Type 0
Slot = ℕ × Peer

abbrev pub slots_from : ℕ → List Peer → List Slot
slots_from i [] = []
slots_from i (p ∷ ps) = (i, p) ∷ slots_from (suc i) ps

unfoldable pub effective_weight : Slot → ℕ
effective_weight s = max s.1.weight 1

-- `pool.iter().map(|p| p.weight.max(1)).sum()`, before it is cut to a `u32`
abbrev pub total_weight : List Slot → ℕ
total_weight [] = 0
total_weight (s ∷ pool) = effective_weight s + total_weight pool

-- the loop of `pick_weighted_rr`
unfoldable pub walk : List Slot → ℕ → Option Slot
walk [] target = none
walk (s ∷ pool) target =
    let w = effective_weight s in
    let rest = walk pool (target - w) in if ltb target w then some s else rest

abbrev pub first : List Slot → Option Slot
first [] = none
first (s ∷ _) = some s

-- what is answered when the loop ends with no answer
abbrev pub or_first : List Slot → Option Slot → Option Slot
or_first pool none = first pool
or_first pool (some s) = some s

-- The counter after the pick, and the pick.
unfoldable pub pick_weighted_rr : ℕ → List Slot → ℕ × Option Slot
unfolding walk
pick_weighted_rr counter pool =
    let total = u32 (total_weight pool) in
    if total == 0
    then (counter, none)
    else ((counter + 1) % 2 ^ 64, or_first pool (walk pool (u32 counter % total)))

-- in_flight * 1_000_000 / weight; a `u32` times a million fits a `u64`
unfoldable pub score : Slot → ℕ
unfolding effective_weight
score s = s.1.in_flight * 1000000 / effective_weight s

-- `min_by_key`: the first of the least
unfoldable pub min_from : Slot → List Slot → Slot
min_from best [] = best
min_from best (s ∷ pool) = min_from (if ltb (score s) (score best) then s else best) pool

unfoldable pub pick_least_conn : List Slot → Option Slot
unfolding min_from
pick_least_conn [] = none
pick_least_conn (s ∷ pool) = some (min_from s pool)

-- `excluded.iter().any(|x| x == &p.addr)`
unfoldable pub is_excluded : List Text → Peer → Bool
is_excluded exclude p = any (λ x. text_eq x p.addr) exclude

-- the filter of both pools; the flag says which of them
unfoldable pub is_eligible : Bool → ℕ → List Text → Slot → Bool
is_eligible backup now exclude s =
    (if backup then s.1.backup else not s.1.backup)
    && is_available s.1 now
    && not (is_excluded exclude s.1)

unfoldable pub pool_of : ℕ → List Text → List Peer → List Slot
pool_of now exclude peers =
    let primaries = retain (is_eligible false now exclude) (slots_from 0 peers) in
    if is_empty primaries
    then retain (is_eligible true now exclude) (slots_from 0 peers)
    else primaries

-- `DefaultHasher` is the standard library's; its value for an address is a parameter.
module _ (hash : IpAddr → ℕ) where
  unfoldable pub pick_ip_hash : List Slot → IpAddr → Option Slot
  pick_ip_hash pool client_ip = get_elem? pool (hash client_ip % length pool)

  -- the last `match` of `pick_inner`, with the counter
  unfoldable pub pick_by : LbMethod → ℕ → List Slot → IpAddr → ℕ × Option Slot
  pick_by round_robin counter pool ip = pick_weighted_rr counter pool
  pick_by least_conn counter pool ip = (counter, pick_least_conn pool)
  pick_by ip_hash counter pool ip = (counter, pick_ip_hash pool ip)

  unfoldable pub pick_inner : ℕ → Balancer → IpAddr → List Text → Balancer × Option Slot
  unfolding pick_by
  pick_inner now b client_ip exclude =
      let pool = pool_of now exclude b.peers in
      if is_empty pool
      then (b, none)
      else let (counter, picked) = pick_by b.method b.rr_counter pool client_ip in
        (record b { rr_counter = counter }, picked)

  -- the three entry points
  unfoldable pub pick : ℕ → Balancer → IpAddr → Balancer × Option Slot
  unfolding pick_inner
  pick now b ip = pick_inner now b ip []

  unfoldable pub pick_excluding : ℕ → Balancer → IpAddr → List Text → Balancer × Option Slot
  unfolding pick_inner
  pick_excluding now b ip exclude = pick_inner now b ip exclude

  unfoldable pub pick_for_addr : ℕ → Balancer → IpAddr → Balancer × Option Slot
  unfolding pick_inner
  pick_for_addr now b ip = pick_inner now b ip []
