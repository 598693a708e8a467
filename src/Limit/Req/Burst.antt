-- ===== src/Limit/Req/Burst.antt =====
-- A fresh key gets its burst and one more request at once, and then has to wait for the refill.
use elrond.Base.{
  ℕ, zero, suc, ◌-◌, ◌≤◌, ◌<◌, ◌≡◌, refl, ap, ◌∙◌, inl, inr, Bool, true, none, some, List, [], ◌∷◌,
  arith, ltb, leb, if◌then◌else◌, Bool-cases, length, get_elem?, Text, text_eq_refl, Dict, lookup,
  lookup-insert, lookup-remove,
}
use elrond.Limit.Req.{
  Float, Bucket, Zone, oldest_from, drop_oldest, make_room, bucket_of, allow_locked, refilled,
}

-- IEEE 754 on the integers up to 2 ^ 32, which `f64` holds exactly, and no time at a finite rate.
pub record IsExact (F : Float) : Type 0 where
  pub add_one : (a : ℕ) → a ≤ 4294967296 → F.add (F.of_ℕ a) (F.of_ℕ 1) ≡ F.of_ℕ (suc a)
  pub sub_one : (a : ℕ) → a ≤ 4294967296 → F.sub (F.of_ℕ (suc a)) (F.of_ℕ 1) ≡ F.of_ℕ a
  pub least_le : (a b : ℕ) → a ≤ b → b ≤ 4294967296 → F.least (F.of_ℕ a) (F.of_ℕ b) ≡ F.of_ℕ a
  pub ge_one : (a : ℕ) → a ≤ 4294967296 → F.ge (F.of_ℕ a) (F.of_ℕ 1) ≡ leb 1 a
  pub no_time :
      (a : ℕ) (r : F.Val)
      → a ≤ 4294967296
      → F.is_finite r ≡ true
      → F.add (F.of_ℕ a) (F.mul (F.seconds 0) r) ≡ F.of_ℕ a

module _ (F : Float) where
  -- the answers to `n` requests of one key at one instant
  unfoldable pub answers : ℕ → Text → ℕ → ℕ → Zone F → List Bool
  answers now key burst zero z = []
  answers now key burst (suc n) z =
      let (z', accepted) = allow_locked F now key burst z in accepted ∷ answers now key burst n z'

  make_room-present :
      (key : Text) (z : Zone F) (b : Bucket F)
      → lookup key z.buckets ≡ some b
      → lookup key (make_room F key z) ≡ some b
  unfolding make_room
  make_room-present key z b h = rw (h, h)

  drop_oldest-fresh :
      (key : Text) (m : Dict (Bucket F)) → lookup key m ≡ none → lookup key (drop_oldest F m) ≡ none
  unfolding drop_oldest
  drop_oldest-fresh key [] q = q
  drop_oldest-fresh key (e ∷ m) q = ground (arith, q, lookup-remove (oldest_from F e m) key (e ∷ m))

  make_room-fresh :
      (key : Text) (z : Zone F)
      → lookup key z.buckets ≡ none
      → lookup key (make_room F key z) ≡ none
  unfolding make_room
  make_room-fresh key z h = elim (Bool-cases (leb z.max_entries (length z.buckets))) [
    | inl full ↦ rw (h, full) (drop_oldest-fresh key z.buckets h)
    | inr room ↦ rw (h, room, h)
  ]

  refilled-idle :
      (now burst t : ℕ) (z : Zone F)
      → IsExact F
      → F.is_finite z.rate_per_sec ≡ true
      → suc burst ≤ 4294967296
      → t ≤ suc burst
      → refilled F z (F.of_ℕ (suc burst)) now (record { tokens = F.of_ℕ t; last = now }) ≡ F.of_ℕ t
  refilled-idle now burst t z x fin small le =
      let none_passed : now - now ≡ 0 = omega arith in
      let small_t : t ≤ 4294967296 = omega arith in
      ap (λ k. F.least (F.add (F.of_ℕ t) (F.mul (F.seconds k) z.rate_per_sec)) (F.of_ℕ (suc burst)))
        none_passed
      ∙ (ap (λ v. F.least v (F.of_ℕ (suc burst))) (x.no_time t z.rate_per_sec small_t fin)
          ∙ x.least_le t (suc burst) le small)

  -- a bucket that holds `t` tokens
  abbrev bucket_with : ℕ → ℕ → Bucket F
  bucket_with t now = record { tokens = F.of_ℕ t; last = now }

  -- one request on a bucket that holds `t` tokens since this instant
  allow_locked-step :
      (now : ℕ) (key : Text) (burst t : ℕ) (z : Zone F)
      → IsExact F
      → F.is_finite z.rate_per_sec ≡ true
      → suc burst ≤ 4294967296
      → t ≤ suc burst
      → bucket_of F key (F.of_ℕ (suc burst)) now (make_room F key z) ≡ bucket_with t now
      → (lookup key (allow_locked F now key burst z).0.buckets ≡ some (bucket_with (t - 1) now))
        × ((allow_locked F now key burst z).1 ≡ leb 1 t)
  unfolding allow_locked
  allow_locked-step now key burst t z x fin small le e =
      let small_burst : burst ≤ 4294967296 = omega arith in
      let small_t : t ≤ 4294967296 = omega arith in
      rw
        (
          x.add_one burst small_burst,
          e,
          refilled-idle now burst t z x fin small le,
          x.ge_one t small_t,
        )
        (rw (lookup-insert key key _ (make_room F key z), text_eq_refl key, left t small_t)
          (refl, refl))
    where
      left :
          (n : ℕ)
          → n ≤ 4294967296
          → (if leb 1 n then F.sub (F.of_ℕ n) (F.of_ℕ 1) else F.of_ℕ n) ≡ F.of_ℕ (n - 1)
      left zero h = refl
      left (suc n) h = ground (arith, x.sub_one n)

  answers-present :
      (now : ℕ) (key : Text) (burst n i t : ℕ) (z : Zone F)
      → IsExact F
      → F.is_finite z.rate_per_sec ≡ true
      → suc burst ≤ 4294967296
      → t ≤ suc burst
      → bucket_of F key (F.of_ℕ (suc burst)) now (make_room F key z) ≡ bucket_with t now
      → i < n
      → get_elem? (answers now key burst n z) i ≡ some (ltb i t)
  unfolding answers
  answers-present now key burst zero i t z x fin small le e lt = ground arith
  answers-present now key burst (suc n) zero t z x fin small le e lt =
      ground (arith, allow_locked-step now key burst t z x fin small le e)
  answers-present now key burst (suc n) (suc i) t z x fin small le e lt =
      let z' : Zone F = (allow_locked F now key burst z).0 in
      let fin' : F.is_finite z'.rate_per_sec ≡ true = unfold allow_locked in fin in
      let (there, _) = allow_locked-step now key burst t z x fin small le e in
      let e' : bucket_of F key (F.of_ℕ (suc burst)) now (make_room F key z')
          ≡ bucket_with (t - 1) now =
        rw (make_room-present key z' (bucket_with (t - 1) now) there) refl in
      ground (
        arith,
        answers-present now key burst n i (t - 1) z' x fin' small (omega arith) e' (omega arith),
      )

  -- Where the arithmetic is exact on the integers up to 2 ^ 32, the rate is finite and the burst is
  -- below 2 ^ 32, of the requests that a key without a bucket makes at one instant the first `burst + 1` are accepted
  -- and all the others denied, whatever other keys the zone holds and whatever it evicts.
  pub answers-fresh :
      (now : ℕ) (key : Text) (burst n i : ℕ) (z : Zone F)
      → IsExact F
      → F.is_finite z.rate_per_sec ≡ true
      → burst < 4294967296
      → lookup key z.buckets ≡ none
      → i < n
      → get_elem? (answers now key burst n z) i ≡ some (leb i burst)
  answers-fresh now key burst n i z x fin small h lt =
      let e : bucket_of F key (F.of_ℕ (suc burst)) now (make_room F key z)
          ≡ bucket_with (suc burst) now =
        rw (make_room-fresh key z h) refl in
      ground (
        arith,
        answers-present now key burst n i (suc burst) z x fin (omega arith) (omega arith) e lt,
      )
