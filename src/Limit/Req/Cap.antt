-- ===== src/Limit/Req/Cap.antt =====
-- The zone never holds more buckets than its cap, whatever keys the requests bring.
use elrond.Base.{
  ℕ, suc, ◌-◌, ◌≤◌, max, ◌≡◌, refl, ◌⊎◌, inl, inr, true, List, [], ◌∷◌, arith, ltb, leb, Bool-cases,
  length, In, Text, Dict, contains_key, length-insert, length-remove, In-contains_key,
}
use elrond.Limit.Req.{Float, Zone, Bucket, oldest_from, make_room, allow_locked, drop_oldest}

-- One request: when it comes, its key, and the burst of its location.
pub record Request : Type 0 where
  pub now : ℕ
  pub key : Text
  pub burst : ℕ

module _ (F : Float) where
  -- the zone after the requests, in their order
  unfoldable pub serve : Zone F → List Request → Zone F
  serve z [] = z
  serve z (r ∷ rs) = serve (allow_locked F r.now r.key r.burst z).0 rs

  oldest-In :
      (best : Text × Bucket F) (m : Dict (Bucket F))
      → (e : Text × Bucket F) × In e (best ∷ m) × (oldest_from F best m ≡ e.0)
  oldest-In best [] = (best, inl refl, refl)
  oldest-In best (x ∷ m) = elim (Bool-cases (ltb x.1.last best.1.last)) [
    | inl h ↦ let (e, i, q) = oldest-In x m in (e, inr i, rw h q)
    | inr h ↦ let (e, i, q) = oldest-In best m in (e, skip e i, rw h q)
  ]
    where
      skip : (e : Text × Bucket F) → In e (best ∷ m) → In e (best ∷ x ∷ m)
      skip e (inl q) = inl q
      skip e (inr i) = inr (inr i)

  length-drop_oldest : (m : Dict (Bucket F)) → length (drop_oldest F m) ≤ length m - 1
  unfolding drop_oldest
  length-drop_oldest [] = omega arith
  length-drop_oldest (e ∷ m) =
      let (o, i, q) = oldest-In e m in
      let there = In-contains_key o (e ∷ m) i in
      rw q (ground (arith, there, length-remove o.0 (e ∷ m)))

  make_room-room :
      (key : Text) (z : Zone F)
      → length z.buckets ≤ max z.max_entries 1
      → ((contains_key key (make_room F key z) ≡ true)
          × (length (make_room F key z) ≤ max z.max_entries 1))
        ⊎ (suc (length (make_room F key z)) ≤ max z.max_entries 1)
  unfolding make_room
  make_room-room key z h = elim (Bool-cases (contains_key key z.buckets)) [
    | inl c ↦ inl (rw c (c, h))
    | inr c ↦ elim (Bool-cases (leb z.max_entries (length z.buckets))) [
      | inl full ↦ inr (rw (c, full) (omega (arith, length-drop_oldest z.buckets)))
      | inr room ↦ inr (rw (c, room) (ground arith))
    ]
  ]

  allow_locked-cap :
      (now : ℕ) (key : Text) (burst : ℕ) (z : Zone F)
      → length z.buckets ≤ max z.max_entries 1
      → length (allow_locked F now key burst z).0.buckets ≤ max z.max_entries 1
  unfolding allow_locked
  allow_locked-cap now key burst z h =
      rw (length-insert key _ (make_room F key z)) (ground (arith, make_room-room key z h))

  -- A zone that holds at most `max_entries` buckets, or one where that is 0, still does after any
  -- requests, with any keys, bursts and times.
  pub serve-cap :
      (z : Zone F) (rs : List Request)
      → length z.buckets ≤ max z.max_entries 1
      → length (serve z rs).buckets ≤ max z.max_entries 1
  unfolding serve allow_locked
  serve-cap z [] h = h
  serve-cap z (r ∷ rs) h =
      serve-cap (allow_locked F r.now r.key r.burst z).0 rs
        (allow_locked-cap r.now r.key r.burst z h)
