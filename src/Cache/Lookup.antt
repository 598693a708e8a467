-- ===== src/Cache/Lookup.antt =====
-- What `get` finds, and that it finds what `put` stored.
use mathlib.Core.Option.{some-injective, none-ne-some}
use elrond.Base.{
  ℕ, ◌+◌, ◌-◌, ◌≤◌, ◌<◌, ◌≡◌, refl, sym, subst, ap, ◌∙◌, inl, inr, true, false, not, Option, none,
  some, List, [], ◌∷◌, ◌++◌, arith, ltb, leb, Bool-cases, Option-cases, is_some, unwrap_or, retain,
  In, In-retain, retain-In, Text, text_eq, text_eq_iff, text_eq_refl, lookup, lookup-insert,
}
use elrond.Cache.{
  State, HeaderApi, Entry, build_signature, matching, get, entry_bytes, take_variant, put_back,
  evict_until, entry_count, replace, store, put,
}
use elrond.Cache.Evict.{IsStore, bytes_of, put_back-sum, put_back-IsDistinct, size_at-some}

module _ (H : HeaderApi) where
  -- a variant that answers the request
  abbrev pub Answers : ℕ → H.Map → Entry → Type 0
  Answers now req v =
      (now < v.expires_at) × (build_signature H req v.vary_headers ≡ v.vary_signature)

  matching-some :
      (req : H.Map) (vs : List Entry) (v : Entry)
      → matching H req vs ≡ some v
      → In v vs × (build_signature H req v.vary_headers ≡ v.vary_signature)
  unfolding matching
  matching-some req [] v h = cc
  matching-some req (w ∷ vs) v h =
      elim (Bool-cases (text_eq (build_signature H req w.vary_headers) w.vary_signature)) [
        | inl t ↦
            let e : w ≡ v = some-injective _ _ (rw t at h) in
            (
              inl (sym e),
              subst (λ x. build_signature H req x.vary_headers ≡ x.vary_signature) e
                  ((text_eq_iff _ _).0 t),
            )
        | inr f ↦ let (i, q) = matching-some req vs v (rw f at h) in (inr i, q)
      ]

  In-matching :
      (req : H.Map) (vs : List Entry) (v : Entry)
      → In v vs
      → build_signature H req v.vary_headers ≡ v.vary_signature
      → is_some (matching H req vs) ≡ true
  unfolding matching
  In-matching req [] v i q = absurd i
  In-matching req (w ∷ vs) v (inl e) q =
      let same : text_eq (build_signature H req w.vary_headers) w.vary_signature ≡ true =
        (text_eq_iff _ _).1
          (subst (λ x. build_signature H req x.vary_headers ≡ x.vary_signature) e q) in
      rw same refl
  In-matching req (w ∷ vs) v (inr i) q = ground (arith, In-matching req vs v i q)

  -- what `get` does with the variants of the key
  abbrev visit : ℕ → Text → H.Map → State → List Entry → State × Option Entry
  visit now key req s vs = (
    record {
      entries = put_back key (retain (λ v. not (leb v.expires_at now)) vs) s.entries;
      total_bytes = s.total_bytes - bytes_of (retain (λ v. leb v.expires_at now) vs);
    },
    matching H req (retain (λ v. not (leb v.expires_at now)) vs),
  )

  get-present :
      (now : ℕ) (key : Text) (req : H.Map) (s : State) (vs : List Entry)
      → lookup key s.entries ≡ some vs
      → get H now key req s ≡ visit now key req s vs
  unfolding get
  get-present now key req s vs q =
      ap (λ o. elim o [ none ↦ (s, none) | some ws ↦ visit now key req s ws ]) q

  get-missing :
      (now : ℕ) (key : Text) (req : H.Map) (s : State)
      → lookup key s.entries ≡ none
      → get H now key req s ≡ (s, none)
  unfolding get
  get-missing now key req s q =
      ap (λ o. elim o [ none ↦ (s, none) | some ws ↦ visit now key req s ws ]) q

  -- What `get` finds is a variant stored under the key, not yet expired, whose signature is the
  -- one of the request.
  pub get-Answers :
      (now : ℕ) (key : Text) (req : H.Map) (s : State) (v : Entry)
      → (get H now key req s).1 ≡ some v
      → (vs : List Entry) × (lookup key s.entries ≡ some vs) × In v vs × Answers now req v
  get-Answers now key req s v h = elim (Option-cases (lookup key s.entries)) [
    | inl n ↦ absurd (none-ne-some v (sym (ap (λ r. r.1) (get-missing now key req s n)) ∙ h))
    | inr (vs, q) ↦
        let found = sym (ap (λ r. r.1) (get-present now key req s vs q)) ∙ h in
        let (i, same) = matching-some req _ v found in
        let (stored, fresh) = retain-In (λ w. not (leb w.expires_at now)) v vs i in
        (vs, q, stored, (ground arith, same))
  ]

  get-finds :
      (now : ℕ) (key : Text) (req : H.Map) (s : State) (vs : List Entry) (v : Entry)
      → lookup key s.entries ≡ some vs
      → In v vs
      → Answers now req v
      → is_some (get H now key req s).1 ≡ true
  get-finds now key req s vs v q i (fresh, same) =
      let kept = In-retain (λ w. not (leb w.expires_at now)) v vs i (ground arith) in
      ap (λ r. is_some r.1) (get-present now key req s vs q) ∙ In-matching req _ v kept same

  store-In :
      (key : Text) (entry : Entry) (s : State)
      → (vs : List Entry) × (lookup key (store key entry s).entries ≡ some vs) × In entry vs
  unfolding store
  store-In key entry s =
      let vs = unwrap_or (lookup key s.entries) [] in
      let stored = (replace entry vs (take_variant entry.vary_signature vs)).0 in
      (
        stored,
        rw (lookup-insert key key stored s.entries, text_eq_refl key) refl,
        replaced vs (take_variant entry.vary_signature vs),
      )
    where
      at_end : (ws : List Entry) → In entry (ws ++ entry ∷ [])
      at_end [] = inl refl
      at_end (w ∷ ws) = inr (at_end ws)

      replaced :
          (vs : List Entry) (o : Option (Entry × List Entry)) → In entry (replace entry vs o).0
      replaced vs none = at_end vs
      replaced vs (some (old, rest)) = at_end rest

  -- Whatever the store holds and evicts, a request that a variant answers finds one right after it
  -- was put, if its size is within the cap.
  pub put-get :
      (max_bytes now : ℕ) (key : Text) (req : H.Map) (entry : Entry) (s : State)
      → entry_bytes entry ≤ max_bytes
      → Answers now req entry
      → is_some (get H now key req (put max_bytes key entry s)).1 ≡ true
  unfolding put
  put-get max_bytes now key req entry s le a =
      let fits : ltb max_bytes (entry_bytes entry) ≡ false = ground arith in
      let s' : State = evict_until (entry_count s) max_bytes (entry_bytes entry) s in
      let (vs, q, i) = store-In key entry s' in
      rw fits (get-finds now key req (store key entry s') vs entry q i a)

  -- `get` keeps each key once and the count of the bytes.
  pub get-IsStore :
      (now : ℕ) (key : Text) (req : H.Map) (s : State) → IsStore s → IsStore (get H now key req s).0
  get-IsStore now key req s (d, t) = elim (Option-cases (lookup key s.entries)) [
    | inl n ↦ subst (λ r. IsStore r.0) (sym (get-missing now key req s n)) (d, t)
    | inr (vs, q) ↦
        let fresh = retain (λ v. not (leb v.expires_at now)) vs in
        let sum = put_back-sum bytes_of key fresh s.entries refl d in
        let parts = retain-bytes now vs in
        let before = size_at-some bytes_of key vs s.entries q in
        subst (λ r. IsStore r.0) (sym (get-present now key req s vs q))
          (put_back-IsDistinct key fresh s.entries d, omega arith)
  ]
    where
      retain-bytes :
          (now : ℕ) (vs : List Entry)
          → bytes_of (retain (λ v. leb v.expires_at now) vs)
              + bytes_of (retain (λ v. not (leb v.expires_at now)) vs)
            ≡ bytes_of vs
      retain-bytes now [] = refl
      retain-bytes now (v ∷ vs) = ground (arith, retain-bytes now vs)
