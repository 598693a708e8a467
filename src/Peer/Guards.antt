-- ===== src/Peer/Guards.antt =====
-- The in-flight counter over every interleaving of `enter` and of dropped guards.
use elrond.Base.{ℕ, suc, ◌^◌, ◌<◌, ◌≡◌, arith}
use elrond.Peer.{Peer, enter, drop_guard}

-- A peer together with the number of its guards that are alive.
pub record Held : Type 0 where
  pub peer : Peer
  pub guards : ℕ

-- A request enters, or one of those in flight ends and drops its guard.
pub data Step : Held → Held → Type 0 where
  entered : (s : Held) → Step s (record { peer = enter s.peer; guards = suc s.guards })
  dropped :
      (p : Peer) (n : ℕ)
      → Step (record { peer = p; guards = suc n }) (record { peer = drop_guard p; guards = n })

-- Runs in which fewer than 2^32 requests are in flight at any time.
pub data Reach (s : Held) : Held → Type 0 where
  here : Reach s s
  next : {t u : Held} → Reach s t → Step t u → u.guards < 2 ^ 32 → Reach s u

Step-in_flight :
    {t u : Held}
    → Step t u
    → t.guards < 2 ^ 32
    → u.guards < 2 ^ 32
    → t.peer.in_flight ≡ t.guards
    → u.peer.in_flight ≡ u.guards
unfolding enter drop_guard
Step-in_flight (entered s) lt lu h = omega arith
Step-in_flight (dropped p n) lt lu h = omega arith

Reach-bounded : {s t : Held} → s.guards < 2 ^ 32 → Reach s t → t.guards < 2 ^ 32
Reach-bounded l here = l
Reach-bounded l (next r st b) = b

-- From a peer whose counter is the number of its live guards, as long as fewer than 2^32 are alive
-- at a time, every interleaving of entries and drops leaves the counter equal to that number.
pub Reach-in_flight :
    {s t : Held}
    → s.guards < 2 ^ 32
    → s.peer.in_flight ≡ s.guards
    → Reach s t
    → t.peer.in_flight ≡ t.guards
Reach-in_flight l h here = h
Reach-in_flight l h (next r st b) = Step-in_flight st (Reach-bounded l r) b (Reach-in_flight l h r)
