-- ===== src/Peer/Health.antt =====
-- Passive health over every history of outcomes, against a description that keeps no counters.
use elrond.Base.{
  ℕ, suc, ◌+◌, ◌^◌, ◌≤◌, ◌<◌, max, Bool, false, not, ◌&&◌, List, [], ◌∷◌, ◌≡◌, refl, ltb, leb,
  if◌then◌else◌, length, arith,
}
use elrond.Peer.{Peer, is_available, record_success, record_failure}

-- How one exchange with the peer ended; a failure carries the clock.
pub data Outcome : Type 0 where
  success : Outcome
  failure : ℕ → Outcome

-- A history, its latest outcome first.
abbrev pub History : Type 0
History = List Outcome

unfoldable pub record_outcome : Outcome → Peer → Peer
unfolding record_success record_failure
record_outcome success p = record_success p
record_outcome (failure now) p = record_failure now p

unfoldable pub replay : Peer → History → Peer
replay p [] = p
replay p (o ∷ earlier) = record_outcome o (replay p earlier)

-- The failures since the last success.
abbrev pub failing_run : History → ℕ
failing_run [] = 0
failing_run (success ∷ earlier) = 0
failing_run (failure now ∷ earlier) = suc (failing_run earlier)

-- Whether the history bars the peer at time `t`: its last outcomes are at least `max_fails`
-- failures (one, if that is 0), and the latest of them is less than `fail_timeout` old.
abbrev pub barred : Peer → History → ℕ → Bool
barred p [] t = false
barred p (success ∷ earlier) t = false
barred p (failure now ∷ earlier) t =
    leb (max p.max_fails 1) (failing_run (failure now ∷ earlier)) && ltb t (now + p.fail_timeout)

-- The clock readings are those of a `u64` that the cooldown does not overflow, and are not 0.
abbrev pub InRange : Peer → History → Type 0
InRange p [] = Unit
InRange p (success ∷ earlier) = InRange p earlier
InRange p (failure now ∷ earlier) = (0 < now) × (now + p.fail_timeout < 2 ^ 64) × InRange p earlier

-- A peer as `build` makes it: no failure is on record.
pub record IsFresh (p : Peer) : Type 0 where
  pub no_failures : p.consecutive_failures ≡ 0
  pub no_cooldown : p.failed_until_ms ≡ 0

-- The cooldown that the history calls for.
abbrev cooldown : Peer → History → ℕ
cooldown p [] = 0
cooldown p (success ∷ earlier) = 0
cooldown p (failure now ∷ earlier) =
    if leb (max p.max_fails 1) (failing_run (failure now ∷ earlier))
    then now + p.fail_timeout
    else 0

-- What `replay` keeps, and what the two counters hold.
record Tracks (p : Peer) (h : History) (q : Peer) : Type 0 where
  max_fails_kept : q.max_fails ≡ p.max_fails
  fail_timeout_kept : q.fail_timeout ≡ p.fail_timeout
  down_kept : q.down ≡ p.down
  counts : q.consecutive_failures ≡ failing_run h
  cools : q.failed_until_ms ≡ cooldown p h

failing_run-le-length : (h : History) → failing_run h ≤ length h
failing_run-le-length [] = omega arith
failing_run-le-length (success ∷ h) = omega arith
failing_run-le-length (failure now ∷ h) = omega (arith, failing_run-le-length h)

-- below the threshold no cooldown is pending
cooldown_low : (p : Peer) (h : History) → failing_run h < max p.max_fails 1 → cooldown p h ≡ 0
cooldown_low p [] l = refl
cooldown_low p (success ∷ h) l = refl
cooldown_low p (failure now ∷ h) l = ground arith

record_failure-Tracks :
    (p q : Peer) (h : History) (now : ℕ)
    → Tracks p h q
    → now + p.fail_timeout < 2 ^ 64
    → failing_run h + 1 < 2 ^ 32
    → Tracks p (failure now ∷ h) (record_outcome (failure now) q)
unfolding record_outcome
record_failure-Tracks p q h now t r s = ground (arith, cooldown_low p h)

record_success-Tracks :
    (p q : Peer) (h : History) → Tracks p h q → Tracks p (success ∷ h) (record_outcome success q)
unfolding record_outcome
record_success-Tracks p q h t = ground arith

replay-Tracks :
    (p : Peer) (h : History) → IsFresh p → InRange p h → length h < 2 ^ 32 → Tracks p h (replay p h)
unfolding replay
replay-Tracks p [] f r l = ground arith
replay-Tracks p (success ∷ h) f r l =
    record_success-Tracks p (replay p h) h (replay-Tracks p h f r (omega arith))
replay-Tracks p (failure now ∷ h) f r l =
    record_failure-Tracks p (replay p h) h now (replay-Tracks p h f r.2 (omega arith)) r.1
      (omega (arith, failing_run-le-length h))

-- For a fresh peer and a history of fewer than 2^32 outcomes, whose clock readings are positive and
-- do not overflow a `u64` with `fail_timeout`, the counters give the peer out at time `t` exactly
-- when it is not `down` and the history does not bar it.
pub is_available-replay :
    (p : Peer) (h : History) (t : ℕ)
    → IsFresh p
    → InRange p h
    → length h < 2 ^ 32
    → is_available (replay p h) t ≡ not p.down && not (barred p h t)
is_available-replay p [] t f r l =
    let k = replay-Tracks p [] f r l in unfold is_available in ground arith
is_available-replay p (success ∷ h) t f r l =
    let k = replay-Tracks p (success ∷ h) f r l in unfold is_available in ground arith
is_available-replay p (failure now ∷ h) t f r l =
    let k = replay-Tracks p (failure now ∷ h) f r l in unfold is_available in ground arith
