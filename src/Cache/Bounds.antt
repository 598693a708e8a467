-- ===== src/Cache/Bounds.antt =====
-- `put` keeps the count of the bytes right and never goes above the cap of the store.
use elrond.Base.{
  ℕ, zero, suc, ◌+◌, ◌-◌, ◌≤◌, ◌≡◌, refl, sym, subst, ap, inl, inr, true, false, Option, none, some,
  List, [], ◌∷◌, ◌++◌, arith, ltb, is_some, is_none, unwrap_or, if-intro, bool-intro, length, In,
  Text, text_eq, text_eq_iff, Dict, lookup, insert, IsDistinct, insert-IsDistinct, In-lookup,
  sum_of, size_at, sum_of-insert, sum_of-remove,
}
use elrond.Cache.{
  State, Entry, take_variant, sooner, soonest_of, soonest, evict, entry_count, without, evict_until,
  entry_bytes, replace, store, put,
}
use elrond.Cache.Evict.{
  IsStore, bytes_of, take_variant-IsParts, without-IsStore, Holds, soonest-Holds, IsParts,
  size_at-lookup,
}

In-take_variant :
    (v : Entry) (vs : List Entry) → In v vs → is_some (take_variant v.vary_signature vs) ≡ true
unfolding take_variant
In-take_variant v [] i = absurd i
In-take_variant v (w ∷ vs) (inl e) =
    let same : text_eq w.vary_signature v.vary_signature ≡ true =
      (text_eq_iff w.vary_signature v.vary_signature).1 (ap (λ x. x.vary_signature) (sym e)) in
    rw same refl
In-take_variant v (w ∷ vs) (inr i) = ground (arith, In-take_variant v vs i)

sooner-is_none :
    (k : Text) (best : Option (Text × Entry)) (v : Entry) → is_none (sooner k best v) ≡ false
unfolding sooner
sooner-is_none k none v = refl
sooner-is_none k (some b) v = ground arith

soonest_of-is_none :
    (k : Text) (best : Option (Text × Entry)) (vs : List Entry)
    → is_none (soonest_of k best vs) ≡ true
    → (is_none best ≡ true) × (bytes_of vs ≡ 0)
unfolding soonest_of
soonest_of-is_none k best [] h = (h, refl)
soonest_of-is_none k best (v ∷ vs) h =
    ground (arith, soonest_of-is_none k (sooner k best v) vs h, sooner-is_none k best v)

soonest-is_none :
    (best : Option (Text × Entry)) (m : Dict (List Entry))
    → is_none (soonest best m) ≡ true
    → (is_none best ≡ true) × (sum_of bytes_of m ≡ 0)
unfolding soonest
soonest-is_none best [] h = (h, refl)
soonest-is_none best ((k, vs) ∷ m) h =
    let (n, z) = soonest-is_none (soonest_of k best vs) m h in
    let (b, y) = soonest_of-is_none k best vs n in (b, omega arith)

-- a target that the loop of `put` can find
abbrev IsTarget : Dict (List Entry) → Text × Entry → Type 0
IsTarget m e = (vs : List Entry) × (lookup e.0 m ≡ some vs) × In e.1 vs

soonest-IsTarget : (m : Dict (List Entry)) → IsDistinct m → Holds (IsTarget m) (soonest none m)
soonest-IsTarget m d =
    soonest-Holds (IsTarget m) none m tt (λ k vs v i n. (vs, In-lookup k vs m d i, n))

evict-found :
    (k sig : Text) (s : State) (vs : List Entry)
    → lookup k s.entries ≡ some vs
    → evict k sig s ≡ without k s vs (take_variant sig vs)
unfolding evict
evict-found k sig s vs q =
    ap (λ o. elim o [ none ↦ s | some ws ↦ without k s ws (take_variant sig ws) ]) q

-- a round of the loop
abbrev IsRound : State → State → Type 0
IsRound s s' = IsStore s' × (suc (entry_count s') ≡ entry_count s)

evict-IsRound :
    (e : Text × Entry) (s : State)
    → IsStore s
    → IsTarget s.entries e
    → IsRound s (evict e.0 e.1.vary_signature s)
evict-IsRound e s h (vs, q, i) =
    let sig : Text = e.1.vary_signature in
    let (store', counted) =
      without-IsStore e.0 s vs (take_variant sig vs) h q (take_variant-IsParts sig vs) in
    let taken = In-take_variant e.1 vs i in
    subst (IsRound s) (sym (evict-found e.0 sig s vs q)) (store', ground arith)

length-bytes : (m : Dict (List Entry)) → sum_of length m ≡ 0 → sum_of bytes_of m ≡ 0
length-bytes [] h = refl
length-bytes ((k, []) ∷ m) h = omega (arith, length-bytes m)
length-bytes ((k, v ∷ vs) ∷ m) h = omega arith

-- the end of the loop: there is room, or the store is empty
abbrev pub HasRoom : ℕ → ℕ → State → Type 0
HasRoom max_bytes size s = IsStore s × (s.total_bytes + size ≤ max_bytes)

evict_until-HasRoom :
    (fuel max_bytes size : ℕ) (s : State)
    → entry_count s ≤ fuel
    → size ≤ max_bytes
    → IsStore s
    → HasRoom max_bytes size (evict_until fuel max_bytes size s)
unfolding evict_until
evict_until-HasRoom zero max_bytes size s f le h =
    (h, omega (arith, length-bytes s.entries (omega arith), h.1))
evict_until-HasRoom (suc fuel) max_bytes size s f le h =
    bool-intro (HasRoom max_bytes size) (ltb max_bytes (s.total_bytes + size)) s _
      (λ room. (h, ground arith))
      (λ full.
        target (soonest none s.entries) (soonest-IsTarget s.entries h.0)
          (soonest-is_none none s.entries)
          (λ s' f' h'. evict_until-HasRoom fuel max_bytes size s' f' le h'))
  where
    target :
        (o : Option (Text × Entry))
        → Holds (IsTarget s.entries) o
        → (is_none o ≡ true
            → (is_none {A = Text × Entry} none ≡ true) × (sum_of bytes_of s.entries ≡ 0))
        → ((s' : State)
            → entry_count s' ≤ fuel
            → IsStore s'
            → HasRoom max_bytes size (evict_until fuel max_bytes size s'))
        → HasRoom max_bytes size (elim o [
          | none ↦ s
          | some (k, v) ↦ evict_until fuel max_bytes size (evict k v.vary_signature s)
        ])
    target none t z again = (h, omega (arith, (z refl).1, h.1))
    target (some e) t z again =
        let (h', n) = evict-IsRound e s h t in
        again (evict e.0 e.1.vary_signature s) (omega arith) h'

bytes_of-snoc :
    (vs : List Entry) (v : Entry) → bytes_of (vs ++ v ∷ []) ≡ bytes_of vs + entry_bytes v
bytes_of-snoc [] v = omega arith
bytes_of-snoc (w ∷ vs) v = omega (arith, bytes_of-snoc vs v)

store-IsStore :
    (max_bytes : ℕ) (key : Text) (entry : Entry) (s : State)
    → HasRoom max_bytes (entry_bytes entry) s
    → IsStore (store key entry s) × ((store key entry s).total_bytes ≤ max_bytes)
unfolding store
store-IsStore max_bytes key entry s (h, room) =
    replaced (unwrap_or (lookup key s.entries) []) (size_at-lookup key s.entries)
      (take_variant entry.vary_signature _) (take_variant-IsParts entry.vary_signature _)
  where
    stored_again :
        (ws : List Entry) (old : ℕ)
        → bytes_of ws + old ≡ size_at bytes_of key s.entries
        → (IsDistinct (insert key (ws ++ entry ∷ []) s.entries)
            × (s.total_bytes - old + entry_bytes entry
                ≡ sum_of bytes_of (insert key (ws ++ entry ∷ []) s.entries)))
          × (s.total_bytes - old + entry_bytes entry ≤ max_bytes)
    stored_again ws old q =
        let inserted = sum_of-insert bytes_of key (ws ++ entry ∷ []) s.entries in
        let removed = sum_of-remove bytes_of key s.entries h.0 in
        let total = bytes_of-snoc ws entry in
        ((insert-IsDistinct key _ s.entries h.0, omega (arith, h.1)), omega arith)

    replaced :
        (vs : List Entry)
        → bytes_of vs ≡ size_at bytes_of key s.entries
        → (o : Option (Entry × List Entry)) → IsParts vs o
        → let (stored, old) = replace entry vs o in
          (IsDistinct (insert key stored s.entries)
            × (s.total_bytes - old + entry_bytes entry
                ≡ sum_of bytes_of (insert key stored s.entries)))
          × (s.total_bytes - old + entry_bytes entry ≤ max_bytes)
    replaced vs q none p = stored_again vs 0 (omega arith)
    replaced vs q (some (old, rest)) p = stored_again rest (entry_bytes old) (omega (arith, p.0))

-- On a store that holds each key once and counts its bytes, whose cap the count does not exceed,
-- `put` leaves such a store: the loop of evictions ends within its fuel and leaves room, or nothing.
pub put-IsStore :
    (max_bytes : ℕ) (key : Text) (entry : Entry) (s : State)
    → IsStore s
    → s.total_bytes ≤ max_bytes
    → IsStore (put max_bytes key entry s) × ((put max_bytes key entry s).total_bytes ≤ max_bytes)
unfolding put
put-IsStore max_bytes key entry s h le =
    if-intro (λ t. IsStore t × (t.total_bytes ≤ max_bytes)) (ltb max_bytes (entry_bytes entry)) s _
      (λ _. (h, le))
      (λ fits. store-IsStore max_bytes key entry _ (
        evict_until-HasRoom (entry_count s) max_bytes (entry_bytes entry) s (omega arith)
          (ground arith) h))
