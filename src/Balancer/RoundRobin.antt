-- ===== src/Balancer/RoundRobin.antt =====
-- Weighted round robin against a schedule: each slot of the pool as often as its weight.
use elrond.Base.{
  ℕ, zero, suc, ◌+◌, ◌-◌, ◌%◌, ◌^◌, ◌≤◌, ◌<◌, ◌≡◌, refl, sym, ◌∙◌, ap, Option, some, List, [], ◌∷◌,
  ◌++◌, map, ltb, if◌then◌else◌, length, length-append, get_elem?, replicate, take, drop, arith,
}
use native.Mathlib.Nat.{sub-zero, mod-eq_of_lt, mod-lt, add-zero, add_assoc, suc-add}
use mathlib.Core.Path.{subst}
use mathlib.Core.List.{map-append}
use native.Mathlib.Numerals.{add-one, one-add}
use Prim.Native.Nat.add
use elrond.Balancer.{Slot, effective_weight, total_weight, walk, pick_weighted_rr}

-- Each slot as often as its weight, in the order of the pool.
abbrev pub schedule : List Slot → List Slot
schedule [] = []
schedule (s ∷ pool) = replicate (effective_weight s) s ++ schedule pool

-- `n` successive picks from the same pool.
unfoldable pub picks : ℕ → ℕ → List Slot → List (Option Slot)
picks zero counter pool = []
picks (suc n) counter pool =
    let (counter', picked) = pick_weighted_rr counter pool in picked ∷ picks n counter' pool

get_elem?-replicate :
    (n i : ℕ) (s : Slot) (rest : List Slot)
    → get_elem? (replicate n s ++ rest) i ≡ (if ltb i n then some s else get_elem? rest (i - n))
get_elem?-replicate zero i s rest = ground (arith, sub-zero i)
get_elem?-replicate (suc n) zero s rest = ground arith
get_elem?-replicate (suc n) (suc i) s rest = ground (arith, get_elem?-replicate n i s rest)

walk-schedule : (pool : List Slot) (t : ℕ) → walk pool t ≡ get_elem? (schedule pool) t
unfolding walk
walk-schedule [] t = refl
walk-schedule (s ∷ pool) t =
    rw (get_elem?-replicate (effective_weight s) t s (schedule pool))
      (rw (walk-schedule pool (t - effective_weight s)))

length-replicate : (n : ℕ) (s : Slot) → length (replicate n s) ≡ n
length-replicate zero s = refl
length-replicate (suc n) s = omega (arith, length-replicate n s)

length-schedule : (pool : List Slot) → length (schedule pool) ≡ total_weight pool
length-schedule [] = refl
length-schedule (s ∷ pool) = omega (
  arith,
  length-append (replicate (effective_weight s) s) (schedule pool),
  length-replicate (effective_weight s) s,
  length-schedule pool,
)

-- In range there is an element, and it heads what is left to drop.
drop-get_elem? :
    (xs : List Slot) (i : ℕ)
    → i < length xs
    → (x : Slot) × (get_elem? xs i ≡ some x) × (drop i xs ≡ x ∷ drop (suc i) xs)
drop-get_elem? [] i l = absurd (omega arith)
drop-get_elem? (x ∷ xs) zero l = (x, refl, refl)
drop-get_elem? (x ∷ xs) (suc i) l = drop-get_elem? xs i (omega arith)

-- One pick is one reading of the schedule.
pick-schedule :
    (c : ℕ) (pool : List Slot)
    → 0 < total_weight pool
    → total_weight pool < 2 ^ 32
    → c < 2 ^ 32
    → pick_weighted_rr c pool ≡ (c + 1, get_elem? (schedule pool) (c % total_weight pool))
unfolding pick_weighted_rr
pick-schedule c pool p l b =
    let total : total_weight pool % 2 ^ 32 ≡ total_weight pool = mod-eq_of_lt l in
    let low : c % 2 ^ 32 ≡ c = mod-eq_of_lt b in
    let (s, found, _) =
      drop-get_elem? (schedule pool) (c % total_weight pool)
        (omega (arith, length-schedule pool, mod-lt c p)) in
    ground (arith, total, low, found, walk-schedule pool (c % total_weight pool), mod-eq_of_lt l)

mod-suc : (c t : ℕ) → c % t + 1 < t → (c + 1) % t ≡ c % t + 1
mod-suc c t h = grind arith

-- A run of picks that does not pass the end of the schedule reads a stretch of it.
picks-stretch :
    (n c r : ℕ) (pool : List Slot)
    → total_weight pool < 2 ^ 32
    → c + n ≤ 2 ^ 32
    → (0 < n → c % total_weight pool ≡ r)
    → r + n ≤ total_weight pool
    → picks n c pool ≡ map some (take n (drop r (schedule pool)))
unfolding picks
picks-stretch zero c r pool l b e h = refl
picks-stretch (suc n) c r pool l b e h =
    let (s, found, rest) = drop-get_elem? (schedule pool) r (omega (arith, length-schedule pool)) in
    let at_r : c % total_weight pool ≡ r = e (omega arith) in
    let later : 0 < n → (c + 1) % total_weight pool ≡ suc r =
      λ q. omega (arith, mod-suc c (total_weight pool) (omega arith)) in
    rw (pick-schedule c pool (omega arith) l (omega arith), at_r, found, rest)
      (ap (◌∷◌ (some s)) (picks-stretch n (c + 1) (suc r) pool l (omega arith) later (omega arith)))

picks-append :
    (m n c : ℕ) (pool : List Slot)
    → 0 < total_weight pool
    → total_weight pool < 2 ^ 32
    → c + m ≤ 2 ^ 32
    → picks (m + n) c pool ≡ picks m c pool ++ picks n (c + m) pool
unfolding picks
picks-append zero n c pool p l b = rw (add.zero, add-zero)
picks-append (suc m) n c pool p l b =
    rw (suc-add, pick-schedule c pool p l (omega arith))
      (ap (◌∷◌ (get_elem? (schedule pool) (c % total_weight pool)))
        (picks-append m n (c + 1) pool p l (omega arith) ∙ rw (add_assoc, add-one, one-add)))

take_all : (n : ℕ) (xs : List Slot) → length xs ≤ n → take n xs ≡ xs
take_all zero [] h = refl
take_all zero (x ∷ xs) h = absurd (omega arith)
take_all (suc n) [] h = refl
take_all (suc n) (x ∷ xs) h = ap (◌∷◌ x) (take_all n xs (omega arith))

length-drop : (n : ℕ) (xs : List Slot) → length (drop n xs) ≡ length xs - n
length-drop zero xs = omega arith
length-drop (suc n) [] = omega arith
length-drop (suc n) (x ∷ xs) = omega (arith, length-drop n xs)

mod-turn : (c t : ℕ) → 0 < t → (c + (t - c % t)) % t ≡ 0
mod-turn c t h = grind (arith, mod-lt c h)

-- A full round of `total` picks from a pool whose weights sum to `total`, positive and below 2^32,
-- at a counter that stays below 2^32 through the round: the answers are the schedule, in which each
-- slot stands `max(weight, 1)` times in a row, entered at the counter's place and read once around.
pub picks-round :
    (c : ℕ) (pool : List Slot)
    → 0 < total_weight pool
    → c + total_weight pool ≤ 2 ^ 32
    → total_weight pool < 2 ^ 32
    → picks (total_weight pool) c pool
      ≡ map some (
          drop (c % total_weight pool) (schedule pool)
          ++ take (c % total_weight pool) (schedule pool))
picks-round c pool p b l =
    let r = c % total_weight pool in
    let in_range : r < total_weight pool = mod-lt c p in
    let e : (total_weight pool - r) + r ≡ total_weight pool = omega arith in
    subst (λ n. picks n c pool ≡ map some (drop r (schedule pool) ++ take r (schedule pool))) e
      (picks-append (total_weight pool - r) r c pool p l (omega arith)
        ∙ rw
            (
              picks-stretch (total_weight pool - r) c r pool l (omega arith) (λ _. refl)
                  (omega arith),
              picks-stretch r (c + (total_weight pool - r)) 0 pool l (omega arith)
                  (λ _. mod-turn c (total_weight pool) p) (omega arith),
              take_all (total_weight pool - r) (drop r (schedule pool))
                  (omega (arith, length-drop r (schedule pool), length-schedule pool)),
            )
            (sym (map-append some (drop r (schedule pool)) (take r (schedule pool)))))
