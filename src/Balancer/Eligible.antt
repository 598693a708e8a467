-- ===== src/Balancer/Eligible.antt =====
-- What a pick may answer, by every method, and when it answers nothing.
use native.Mathlib.Nat.{mod-lt, mod-eq_of_lt}
use elrond.Base.{
  ℕ, zero, suc, ◌-◌, ◌%◌, ◌^◌, ◌≤◌, ◌<◌, ◌≡◌, ◌≢◌, ◌↔◌, ◌⊎◌, inl, inr, refl, Bool, true, false,
  none, some, List, [], ◌∷◌, ltb, length, get_elem?, is_empty, retain, In, In-eq, In-retain,
  retain-In, In-All, All-In, In-is_empty, All, Text, Bool-cases, Option-cases, arith,
}
use elrond.Net.{IpAddr}
use elrond.Peer.{Peer, u32, is_available}
use elrond.Balancer.{
  LbMethod, round_robin, least_conn, ip_hash, Balancer, Slot, slots_from, effective_weight,
  total_weight, walk, pick_weighted_rr, score, min_from, pick_least_conn, is_excluded, is_eligible,
  pool_of, pick_ip_hash, pick_by, pick_inner,
}

-- A slot may take a request: it is up, out of its cooldown, and did not fail for this request.
pub record IsCandidate (now : ℕ) (exclude : List Text) (s : Slot) : Type 0 where
  pub available : is_available s.1 now ≡ true
  pub not_excluded : is_excluded exclude s.1 ≡ false

is_eligible-IsCandidate :
    (backup : Bool) (now : ℕ) (exclude : List Text) (s : Slot)
    → is_eligible backup now exclude s ≡ true
    → IsCandidate now exclude s × (s.1.backup ≡ backup)
unfolding is_eligible
is_eligible-IsCandidate backup now exclude s h = ground arith

IsCandidate-is_eligible :
    (backup : Bool) (now : ℕ) (exclude : List Text) (s : Slot)
    → s.1.backup ≡ backup
    → IsCandidate now exclude s
    → is_eligible backup now exclude s ≡ true
unfolding is_eligible
IsCandidate-is_eligible backup now exclude s e c = ground arith

get_elem?-In : (xs : List Slot) (i : ℕ) (s : Slot) → get_elem? xs i ≡ some s → In s xs
get_elem?-In [] i s e = cc
get_elem?-In (x ∷ xs) zero s e = inl (ground arith)
get_elem?-In (x ∷ xs) (suc i) s e = inr (get_elem?-In xs i s e)

get_elem?-lt : (xs : List Slot) (i : ℕ) → i < length xs → (s : Slot) × (get_elem? xs i ≡ some s)
get_elem?-lt [] i l = absurd (omega arith)
get_elem?-lt (x ∷ xs) zero l = (x, refl)
get_elem?-lt (x ∷ xs) (suc i) l = get_elem?-lt xs i (omega arith)

walk-In : (pool : List Slot) (t : ℕ) (s : Slot) → walk pool t ≡ some s → In s pool
unfolding walk
walk-In [] t s e = cc
walk-In (x ∷ pool) t s e = elim (Bool-cases (ltb t (effective_weight x))) [
  | inl h ↦ inl (ground arith)
  | inr h ↦ inr (walk-In pool (t - effective_weight x) s (rw h at e))
]

min_from-In : (best : Slot) (pool : List Slot) → In (min_from best pool) (best ∷ pool)
unfolding min_from
min_from-In best [] = inl refl
min_from-In best (x ∷ pool) = elim (Bool-cases (ltb (score x) (score best))) [
  | inl h ↦
      In-eq (min_from x pool) (min_from best (x ∷ pool)) (best ∷ x ∷ pool) (ground arith)
        (inr (min_from-In x pool))
  | inr h ↦
      In-eq (min_from best pool) (min_from best (x ∷ pool)) (best ∷ x ∷ pool) (ground arith)
        (weaken (min_from best pool) (min_from-In best pool))
]
  where
    weaken : (m : Slot) → In m (best ∷ pool) → In m (best ∷ x ∷ pool)
    weaken m (inl e) = inl e
    weaken m (inr i) = inr (inr i)

rr-In : (c : ℕ) (pool : List Slot) (s : Slot) → (pick_weighted_rr c pool).1 ≡ some s → In s pool
unfolding pick_weighted_rr
rr-In c [] s e = ground arith
rr-In c (x ∷ pool) s e =
    let t = u32 c % u32 (total_weight (x ∷ pool)) in
    elim (Option-cases (walk (x ∷ pool) t)) [
      | inl n ↦ inl (ground arith)
      | inr (y, f) ↦ In-eq y s (x ∷ pool) (ground arith) (walk-In (x ∷ pool) t y f)
    ]

module _ (hash : IpAddr → ℕ) where
  pick_by-In :
      (m : LbMethod) (c : ℕ) (pool : List Slot) (ip : IpAddr) (s : Slot)
      → (pick_by hash m c pool ip).1 ≡ some s
      → In s pool
  unfolding pick_by pick_least_conn pick_ip_hash
  pick_by-In round_robin c pool ip s e = rr-In c pool s e
  pick_by-In least_conn c [] ip s e = cc
  pick_by-In least_conn c (x ∷ pool) ip s e =
      In-eq (min_from x pool) s (x ∷ pool) (ground arith) (min_from-In x pool)
  pick_by-In ip_hash c pool ip s e = get_elem?-In pool (hash ip % length pool) s e

  pick_by-some :
      (m : LbMethod) (c : ℕ) (x : Slot) (pool : List Slot) (ip : IpAddr)
      → total_weight (x ∷ pool) < 2 ^ 32
      → (pick_by hash m c (x ∷ pool) ip).1 ≢ none
  unfolding pick_by pick_least_conn pick_ip_hash pick_weighted_rr effective_weight
  pick_by-some round_robin c x pool ip l =
      let total : total_weight (x ∷ pool) % 2 ^ 32 ≡ total_weight (x ∷ pool) = mod-eq_of_lt l in
      elim (Option-cases (walk (x ∷ pool) (u32 c % u32 (total_weight (x ∷ pool))))) [
        | inl n ↦ ground (arith, total, n)
        | inr (y, f) ↦ ground (arith, total, f)
      ]
  pick_by-some least_conn c x pool ip l = ground arith
  pick_by-some ip_hash c x pool ip l =
      let (s, e) =
        get_elem?-lt (x ∷ pool) (hash ip % length (x ∷ pool)) (mod-lt (hash ip) (omega arith)) in
      ground (arith, e)

-- the pool that `pick_inner` hands on holds candidates only
pool_of-In :
    (now : ℕ) (exclude : List Text) (peers : List Peer) (s : Slot)
    → In s (pool_of now exclude peers)
    → In s (slots_from 0 peers) × IsCandidate now exclude s
unfolding pool_of
pool_of-In now exclude peers s m =
    let slots = slots_from 0 peers in
    elim (Bool-cases (is_empty (retain (is_eligible false now exclude) slots))) [
      | inl h ↦
          let (i, q) = retain-In (is_eligible true now exclude) s slots (rw h at m) in
          (i, (is_eligible-IsCandidate true now exclude s q).0)
      | inr h ↦
          let (i, q) = retain-In (is_eligible false now exclude) s slots (rw h at m) in
          (i, (is_eligible-IsCandidate false now exclude s q).0)
    ]

-- a backup stands in the pool only if no primary is a candidate
pool_of-backup :
    (now : ℕ) (exclude : List Text) (peers : List Peer) (s p : Slot)
    → In s (pool_of now exclude peers)
    → s.1.backup ≡ true
    → In p (slots_from 0 peers)
    → p.1.backup ≡ false
    → ¬ (IsCandidate now exclude p)
unfolding pool_of
pool_of-backup now exclude peers s p m b i f c =
    let slots = slots_from 0 peers in
    let primary = IsCandidate-is_eligible false now exclude p f c in
    let found : is_empty (retain (is_eligible false now exclude) slots) ≡ false =
      In-is_empty p (retain (is_eligible false now exclude) slots)
        (In-retain (is_eligible false now exclude) p slots i primary) in
    let (_, q) = retain-In (is_eligible false now exclude) s slots (rw found at m) in
    let (_, e) = is_eligible-IsCandidate false now exclude s q in cc

pool_of-empty :
    (now : ℕ) (exclude : List Text) (peers : List Peer) (s : Slot)
    → is_empty (pool_of now exclude peers) ≡ true
    → In s (slots_from 0 peers)
    → ¬ (IsCandidate now exclude s)
unfolding pool_of
pool_of-empty now exclude peers s e i c =
    let slots = slots_from 0 peers in
    let kept = λ (k : Bool) (h : s.1.backup ≡ k).
      In-is_empty s (retain (is_eligible k now exclude) slots) (
        In-retain (is_eligible k now exclude) s slots i
          (IsCandidate-is_eligible k now exclude s h c)) in
    elim (Bool-cases s.1.backup) [
      | inl h ↦ ground (arith, kept true h)
      | inr h ↦ ground (arith, kept false h)
    ]

pool-cases : (pool : List Slot) → (pool ≡ []) ⊎ ((x : Slot) × (r : List Slot) × (pool ≡ x ∷ r))
pool-cases [] = inl refl
pool-cases (x ∷ r) = inr (x, r, refl)

total_weight-retain :
    (p : Slot → Bool) (xs : List Slot) → total_weight (retain p xs) ≤ total_weight xs
total_weight-retain p [] = omega arith
total_weight-retain p (x ∷ xs) = ground (arith, total_weight-retain p xs)

total_weight-pool :
    (now : ℕ) (exclude : List Text) (peers : List Peer)
    → total_weight (pool_of now exclude peers) ≤ total_weight (slots_from 0 peers)
unfolding pool_of
total_weight-pool now exclude peers =
    let slots = slots_from 0 peers in
    elim (Bool-cases (is_empty (retain (is_eligible false now exclude) slots))) [
      | inl h ↦ rw h (total_weight-retain (is_eligible true now exclude) slots)
      | inr h ↦ rw h (total_weight-retain (is_eligible false now exclude) slots)
    ]

module _ (hash : IpAddr → ℕ) where
  pick_inner-In :
      (now : ℕ) (b : Balancer) (ip : IpAddr) (exclude : List Text) (s : Slot)
      → (pick_inner hash now b ip exclude).1 ≡ some s
      → In s (pool_of now exclude b.peers)
  unfolding pick_inner
  pick_inner-In now b ip exclude s e =
      let pool = pool_of now exclude b.peers in
      elim (Bool-cases (is_empty pool)) [
        | inl h ↦ ground arith
        | inr h ↦ pick_by-In hash b.method b.rr_counter pool ip s (rw h at e)
      ]

  -- What `pick_inner` answers, by every method, is one of the balancer's peers that is available and
  -- not excluded; and it is a primary, or else none of the primaries is available and not excluded.
  pub pick_inner-IsCandidate :
      (now : ℕ) (b : Balancer) (ip : IpAddr) (exclude : List Text) (s : Slot)
      → (pick_inner hash now b ip exclude).1 ≡ some s
      → In s (slots_from 0 b.peers)
        × IsCandidate now exclude s
        × ((s.1.backup ≡ false)
            ⊎ All
                (λ p. (p.1.backup ≡ true) ⊎ (¬ (IsCandidate now exclude p)))
                (slots_from 0 b.peers))
  pick_inner-IsCandidate now b ip exclude s e =
      let m = pick_inner-In now b ip exclude s e in
      let (i, c) = pool_of-In now exclude b.peers s m in
      (
        i,
        c,
        elim (Bool-cases s.1.backup) [
          | inr f ↦ inl f
          | inl t ↦ inr (
              In-All (λ p. (p.1.backup ≡ true) ⊎ (¬ (IsCandidate now exclude p)))
                (slots_from 0 b.peers)
                (λ p j. elim (Bool-cases p.1.backup) [
                  | inl u ↦ inl u
                  | inr v ↦ inr (pool_of-backup now exclude b.peers s p m t j v)
                ]))
        ],
      )

  pick_inner-some :
      (now : ℕ) (b : Balancer) (ip : IpAddr) (exclude : List Text)
      → total_weight (pool_of now exclude b.peers) < 2 ^ 32
      → (pick_inner hash now b ip exclude).1 ≡ none
      → (p : Slot) → In p (slots_from 0 b.peers)
      → ¬ (IsCandidate now exclude p)
  unfolding pick_inner
  pick_inner-some now b ip exclude l e p m =
      let pool = pool_of now exclude b.peers in
      elim (pool-cases pool) [
        | inl h ↦ pool_of-empty now exclude b.peers p (rw h) m
        | inr (x, r, h) ↦
            absurd (pick_by-some hash b.method b.rr_counter x r ip (rw h at l) (rw h at e))
      ]

  -- For a balancer whose weights (each at least 1) sum to less than 2^32, `pick_inner` answers
  -- nothing exactly when none of its peers, primary or backup, is available and not excluded.
  pub pick_inner-none :
      (now : ℕ) (b : Balancer) (ip : IpAddr) (exclude : List Text)
      → total_weight (slots_from 0 b.peers) < 2 ^ 32
      → ((pick_inner hash now b ip exclude).1 ≡ none)
        ↔ All (λ p. ¬ (IsCandidate now exclude p)) (slots_from 0 b.peers)
  pick_inner-none now b ip exclude l =
      let slots = slots_from 0 b.peers in
      let pool = pool_of now exclude b.peers in
      let small : total_weight pool < 2 ^ 32 =
        omega (arith, total_weight-pool now exclude b.peers) in
      (
        λ e.
            In-All (λ p. ¬ (IsCandidate now exclude p)) slots
              (λ p m c. pick_inner-some now b ip exclude small e p m c),
        λ f. elim (pool-cases pool) [
          | inl h ↦ unfold pick_inner in rw h
          | inr (x, r, h) ↦
              let m : In x pool = rw h (inl refl) in
              let (i, c) = pool_of-In now exclude b.peers x m in
              absurd (All-In (λ p. ¬ (IsCandidate now exclude p)) x slots f i c)
        ],
      )
