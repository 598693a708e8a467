-- ===== src/Limit/Req.antt =====
-- `LimitReqZone` of src/limit.rs. The `f64` of the buckets is a parameter, and an `Instant` is its
-- nanoseconds. The zone is what the mutex guards; a poisoned mutex is `none`. The metric that each
-- branch counts is its verdict, allowed or denied.
pub mod Cap
pub mod Burst
mod Tests
use elrond.Base.{
  ◌-◌, Bool, true, not, ◌&&◌, Option, none, some, [], ◌∷◌, ltb, leb, if◌then◌else◌, unwrap_or,
  length, Text, Dict, lookup, insert, remove, contains_key,
}
use Prim.Native.Nat.{ℕ}

-- What the zone uses of `f64`.
pub record Float : Type 1 where
  pub Val : Type 0
  pub of_ℕ : ℕ → Val  -- `as f64`
  pub seconds : ℕ → Val  -- `as_secs_f64` of a number of nanoseconds
  pub add : Val → Val → Val
  pub sub : Val → Val → Val
  pub mul : Val → Val → Val
  pub least : Val → Val → Val  -- `min`
  pub ge : Val → Val → Bool
  pub is_finite : Val → Bool

module _ (F : Float) where
  open F use {Val, of_ℕ, seconds, add, sub, mul, least, ge}

  pub record Bucket : Type 0 where
    pub tokens : Val
    pub last : ℕ

  -- the fields that `allow` uses
  pub record Zone : Type 0 where
    pub rate_per_sec : Val
    pub max_entries : ℕ
    pub buckets : Dict Bucket

  -- `min_by` on `last`: the first of the least
  abbrev pub oldest_from : Text × Bucket → Dict Bucket → Text
  oldest_from best [] = best.0
  oldest_from best (e ∷ m) = oldest_from (if ltb e.1.last best.1.last then e else best) m

  unfoldable pub drop_oldest : Dict Bucket → Dict Bucket
  drop_oldest [] = []
  drop_oldest (e ∷ m) = remove (oldest_from e m) (e ∷ m)

  -- the eviction of `allow`
  unfoldable pub make_room : Text → Zone → Dict Bucket
  unfolding drop_oldest
  make_room key z =
      if not (contains_key key z.buckets) && leb z.max_entries (length z.buckets)
      then drop_oldest z.buckets
      else z.buckets

  -- `or_insert` of a full bucket
  abbrev pub bucket_of : Text → Val → ℕ → Dict Bucket → Bucket
  bucket_of key capacity now m = unwrap_or (lookup key m) (record { tokens = capacity; last = now })

  -- `duration_since` answers zero for an earlier instant
  abbrev pub refilled : Zone → Val → ℕ → Bucket → Val
  refilled z capacity now b =
      least (add b.tokens (mul (seconds (now - b.last)) z.rate_per_sec)) capacity

  -- `allow` on the state behind the lock: the zone afterwards, and whether the request is accepted
  unfoldable pub allow_locked : ℕ → Text → ℕ → Zone → Zone × Bool
  unfolding make_room
  allow_locked now key burst z =
      let capacity = add (of_ℕ burst) (of_ℕ 1) in
      let room = make_room key z in
      let tokens = refilled z capacity now (bucket_of key capacity now room) in
      let accepted = ge tokens (of_ℕ 1) in
      let left = if accepted then sub tokens (of_ℕ 1) else tokens in
      (record z { buckets = insert key (record { tokens = left; last = now }) room }, accepted)

  -- a poisoned mutex lets every request in
  unfoldable pub allow : ℕ → Text → ℕ → Option Zone → Option Zone × Bool
  unfolding allow_locked
  allow now key burst none = (none, true)
  allow now key burst (some z) =
      let (z', accepted) = allow_locked now key burst z in (some z', accepted)
