-- ===== src/Limit/Conn/Guards.antt =====
-- The counter of a key is the number of its guards alive, whatever happens to other keys.
use elrond.Base.{
  ℕ, ◌+◌, ◌-◌, ◌≤◌, ◌≡◌, refl, inl, inr, true, false, not, ◌&&◌, some, List, [], ◌∷◌, ◌++◌, arith,
  leb, if◌then◌else◌, Bool-cases, Option-cases, length, Text, text_eq, text_eq_iff, Dict, lookup,
  contains_key, lookup-insert, lookup-remove, IsDistinct, insert-IsDistinct, remove-IsDistinct,
  count,
}
use elrond.Limit.Conn.{Zone, first_dead, evict, try_acquire, drop_guard}

-- The zone beside the guards that requests hold, each by its key.
pub record World : Type 0 where
  pub zone : Zone
  pub guards : List Text

-- `limit_conn` gives every location its own cap; `cap` is the cap of the key's requests.
module _ (cap : Text → ℕ) where
  -- one request that comes, or one that ends
  pub data Step : World → World → Type 0 where
    admitted :
        (key : Text) (w : World)
        → (try_acquire key (cap key) w.zone).1 ≡ true
        → Step w (record { zone = (try_acquire key (cap key) w.zone).0; guards = key ∷ w.guards })
    denied :
        (key : Text) (w : World)
        → (try_acquire key (cap key) w.zone).1 ≡ false
        → Step w (record { zone = (try_acquire key (cap key) w.zone).0; guards = w.guards })
    ended :
        (key : Text) (before after : List Text) (z : Zone)
        → Step
            (record { zone = z; guards = before ++ key ∷ after })
            (record { zone = drop_guard key z; guards = before ++ after })

  pub data Reach : World → World → Type 0 where
    here : {w : World} → Reach w w
    next : {u v w : World} → Reach u v → Step v w → Reach u w

-- the guards of a key that are alive
unfoldable pub held : Text → List Text → ℕ
held k [] = 0
held k (j ∷ gs) = (if text_eq j k then 1 else 0) + held k gs

held-append : (k : Text) (xs ys : List Text) → held k (xs ++ ys) ≡ held k xs + held k ys
unfolding held
held-append k [] ys = omega arith
held-append k (j ∷ xs) ys = omega (arith, held-append k xs ys)

first_dead-count :
    (d : Text) (m : Dict ℕ) → IsDistinct m → first_dead m ≡ some d → lookup d m ≡ some 0
unfolding first_dead lookup
first_dead-count d [] u h = cc
first_dead-count d ((k, v) ∷ m) u h = ground (arith, text_eq_iff k d, first_dead-count d m u.1)

evict-count :
    (k key : Text) (z : Zone) → IsDistinct z.counts → count k (evict key z) ≡ count k z.counts
unfolding evict
evict-count k key z u =
    elim (Bool-cases (not (contains_key key z.counts) && leb z.max_entries (length z.counts))) [
      | inl full ↦ rw full (elim (Option-cases (first_dead z.counts)) [
        | inl n ↦ rw n refl
        | inr (d, q) ↦ rw q (
            ground
              (arith, text_eq_iff d k, first_dead-count d z.counts u q, lookup-remove d k z.counts))
      ])
      | inr room ↦ rw room refl
    ]

evict-IsDistinct : (key : Text) (z : Zone) → IsDistinct z.counts → IsDistinct (evict key z)
unfolding evict
evict-IsDistinct key z u =
    elim (Bool-cases (not (contains_key key z.counts) && leb z.max_entries (length z.counts))) [
      | inl full ↦ rw full (elim (Option-cases (first_dead z.counts)) [
        | inl n ↦ rw n u
        | inr (d, q) ↦ rw q (remove-IsDistinct d z.counts u)
      ])
      | inr room ↦ rw room u
    ]

-- each key once, and its counter the number of its guards, at most its cap
abbrev pub IsCounted : (Text → ℕ) → World → Type 0
IsCounted cap w =
    IsDistinct w.zone.counts
    × ((k : Text) → (count k w.zone.counts ≡ held k w.guards) × (held k w.guards ≤ cap k))

try_acquire-accepted :
    (key : Text) (max_conn : ℕ) (z : Zone)
    → IsDistinct z.counts
    → (try_acquire key max_conn z).1 ≡ not (leb max_conn (count key z.counts))
unfolding try_acquire
try_acquire-accepted key max_conn z u = rw (← evict-count key key z u) (ground arith)

pub try_acquire-count :
    (k key : Text) (max_conn : ℕ) (z : Zone)
    → IsDistinct z.counts
    → count k (try_acquire key max_conn z).0.counts
      ≡ count k z.counts + (if (try_acquire key max_conn z).1 && text_eq key k then 1 else 0)
unfolding try_acquire
try_acquire-count k key max_conn z u = rw (← evict-count k key z u) (
    ground (
      arith,
      text_eq_iff key k,
      lookup-insert key k (count key (evict key z)) (evict key z),
      lookup-insert key k (count key (evict key z) + 1) (evict key z),
    ))

pub try_acquire-IsDistinct :
    (key : Text) (max_conn : ℕ) (z : Zone)
    → IsDistinct z.counts
    → IsDistinct (try_acquire key max_conn z).0.counts
unfolding try_acquire
try_acquire-IsDistinct key max_conn z u =
    elim (Bool-cases (leb max_conn (count key (evict key z)))) [
      | inl h ↦ rw h (insert-IsDistinct key _ (evict key z) (evict-IsDistinct key z u))
      | inr h ↦ rw h (insert-IsDistinct key _ (evict key z) (evict-IsDistinct key z u))
    ]

pub drop_guard-count :
    (k key : Text) (z : Zone)
    → count k (drop_guard key z).counts ≡ count k z.counts - (if text_eq key k then 1 else 0)
unfolding drop_guard
drop_guard-count k key z = elim (Option-cases (lookup key z.counts)) [
  | inl n ↦ rw n (ground (arith, text_eq_iff key k))
  | inr (v, q) ↦ rw q (ground (arith, text_eq_iff key k, lookup-insert key k (v - 1) z.counts))
]

pub drop_guard-IsDistinct :
    (key : Text) (z : Zone) → IsDistinct z.counts → IsDistinct (drop_guard key z).counts
unfolding drop_guard
drop_guard-IsDistinct key z u = elim (Option-cases (lookup key z.counts)) [
  | inl n ↦ rw n u
  | inr (v, q) ↦ rw q (insert-IsDistinct key (v - 1) z.counts u)
]

Step-IsCounted :
    (limit : Text → ℕ) {u v : World} → Step limit u v → IsCounted limit u → IsCounted limit v
unfolding held
Step-IsCounted limit (admitted key w y) (d, h) = (
  try_acquire-IsDistinct key (limit key) w.zone d,
  λ k. ground (
    arith,
    h k,
    y,
    text_eq_iff key k,
    try_acquire-accepted key (limit key) w.zone d,
    try_acquire-count k key (limit key) w.zone d,
  ),
)
Step-IsCounted limit (denied key w n) (d, h) = (
  try_acquire-IsDistinct key (limit key) w.zone d,
  λ k. ground (arith, h k, n, try_acquire-count k key (limit key) w.zone d),
)
Step-IsCounted limit (ended key before after z) (d, h) = (
  drop_guard-IsDistinct key z d,
  λ k. ground (
    arith,
    h k,
    drop_guard-count k key z,
    held-append k before after,
    held-append k before (key ∷ after),
  ),
)

-- From a zone whose counters are the numbers of the guards alive, at most the caps, any interleaving
-- of requests admitted, requests denied and requests that end keeps them so: whatever is evicted,
-- no key ever has more requests in flight than its cap.
pub Reach-IsCounted :
    (limit : Text → ℕ) {u v : World} → Reach limit u v → IsCounted limit u → IsCounted limit v
Reach-IsCounted limit here h = h
Reach-IsCounted limit (next r st) h = Step-IsCounted limit st (Reach-IsCounted limit r h)
