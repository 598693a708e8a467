-- ===== src/Proxy/Retry.antt =====
-- The loop of `forward` sends a request to different peers, at most `MAX_ATTEMPTS` of them.
use elrond.Base.{
  ℕ, zero, suc, ◌≤◌, ◌≡◌, refl, Bool, true, false, ◌||◌, Option, none, some, List, [], ◌∷◌, ◌++◌,
  arith, All-of, if-intro, option-intro, length, any, All, Text, text_eq,
}
use elrond.Net.{IpAddr}
use elrond.Peer.{Peer, record_failure, enter, drop_guard}
use elrond.Balancer.{Balancer, is_excluded, pick_excluding, Slot}
use elrond.Balancer.Eligible.{pick_inner-IsCandidate}
use elrond.Cache.{HeaderApi}
use elrond.Proxy.{and_asked, Upstream, is_server_error, Outcome, attempts, on_peer, attempts_of}

-- no address twice
abbrev pub IsUnrepeated : List Text → Type 0
IsUnrepeated [] = Unit
IsUnrepeated (x ∷ xs) = (any (λ y. text_eq x y) xs ≡ false) × IsUnrepeated xs

any-snoc : (f : Text → Bool) (xs : List Text) (y : Text) → any f (xs ++ y ∷ []) ≡ any f xs || f y
any-snoc f [] y = ground arith
any-snoc f (x ∷ xs) y = ground (arith, any-snoc f xs y)

pub IsUnrepeated-snoc :
    (xs : List Text) (p : Peer)
    → IsUnrepeated xs
    → is_excluded xs p ≡ false
    → IsUnrepeated (xs ++ p.addr ∷ [])
unfolding is_excluded
IsUnrepeated-snoc [] p u h = (refl, tt)
IsUnrepeated-snoc (x ∷ xs) p u h = (
  rw (any-snoc (λ y. text_eq x y) xs p.addr) (ground arith),
  IsUnrepeated-snoc xs p u.1 (ground arith),
)

-- the last address
abbrev pub final : List Text → Option Text
final [] = none
final (a ∷ []) = some a
final (a ∷ b ∷ more) = final (b ∷ more)

-- addresses that are none of those and not this one
fresh-before :
    (before : List Text) (a : Text) (asked : List Text)
    → All (λ b. any (λ x. text_eq x b) (before ++ a ∷ []) ≡ false) asked
    → All (λ b. any (λ x. text_eq x b) before ≡ false) asked
fresh-before before a [] h = tt
fresh-before before a (b ∷ asked) h =
    (ground (arith, any-snoc (λ x. text_eq x b) before a, h.0), fresh-before before a asked h.1)

fresh-last :
    (before : List Text) (a : Text) (asked : List Text)
    → All (λ b. any (λ x. text_eq x b) (before ++ a ∷ []) ≡ false) asked
    → any (λ b. text_eq a b) asked ≡ false
fresh-last before a [] h = refl
fresh-last before a (b ∷ asked) h =
    ground (arith, any-snoc (λ x. text_eq x b) before a, h.0, fresh-last before a asked h.1)

module _ (H : HeaderApi) (U : Upstream H) (hash : IpAddr → ℕ) where
  -- What is asked by a loop that may still make `left` attempts, and has these addresses behind it.
  pub record IsRun (left : ℕ) (before : List Text) (o : Outcome H U hash) : Type 0 where
    pub fresh : All (λ a. any (λ x. text_eq x a) before ≡ false) o.asked
    pub unrepeated : IsUnrepeated o.asked
    pub bounded : length o.asked ≤ left
    pub answered :
        All-of o.answer
          (λ a. (final o.asked ≡ some a.0.1.addr) × (is_server_error (U.status a.1) ≡ false))
    pub failed : All-of o.last (λ resp. is_server_error (U.status resp) ≡ true)

  final-cons :
      (a : Text) (o : Option (Slot × U.Response)) (asked : List Text)
      → All-of o (λ r. (final asked ≡ some r.0.1.addr) × (is_server_error (U.status r.1) ≡ false))
      → All-of o
          (λ r. (final (a ∷ asked) ≡ some r.0.1.addr) × (is_server_error (U.status r.1) ≡ false))
  final-cons a none asked h = tt
  final-cons a (some r) [] h = absurd cc
  final-cons a (some r) (b ∷ asked) h = h

  IsRun-suc :
      (left : ℕ) (before : List Text) (a : Text) (o : Outcome H U hash)
      → any (λ x. text_eq x a) before ≡ false
      → IsRun left (before ++ a ∷ []) o
      → IsRun (suc left) before (and_asked H U hash a o)
  IsRun-suc left before a o free r = record {
    fresh = (free, fresh-before before a o.asked r.fresh);
    unrepeated = (fresh-last before a o.asked r.fresh, r.unrepeated);
    bounded = omega (arith, r.bounded);
    answered = final-cons a o.answer o.asked r.answered;
    failed = r.failed;
  }

  pub picked-free :
      (k : ℕ) (ip : IpAddr) (b : Balancer) (excluded : List Text) (s : Slot)
      → (pick_excluding hash (U.picked_at k) b ip excluded).1 ≡ some s
      → is_excluded excluded s.1 ≡ false
  unfolding pick_excluding
  picked-free k ip b excluded s q =
      (pick_inner-IsCandidate hash (U.picked_at k) b ip excluded s q).1.not_excluded

  -- the balancer once an attempt has failed
  abbrev pub after_failure : ℕ → Slot → Balancer → Balancer
  after_failure k s b =
      on_peer s drop_guard (on_peer s (record_failure (U.ended_at k)) (on_peer s enter b))

  attempts-IsRun :
      (left k : ℕ) (ip : IpAddr) (b : Balancer) (excluded : List Text) (last : Option U.Response)
      → All-of last (λ resp. is_server_error (U.status resp) ≡ true)
      → IsRun left excluded (attempts H U hash left k ip b excluded last)
  unfolding attempts pick_excluding
  attempts-IsRun zero k ip b excluded last l = record {
    fresh = tt;
    unrepeated = tt;
    bounded = omega arith;
    answered = tt;
    failed = l;
  }
  attempts-IsRun (suc left) k ip b excluded last l =
      option-intro (IsRun (suc left) excluded) (pick_excluding hash (U.picked_at k) b ip excluded).1
        _ _
        (λ n. record {
          fresh = tt;
          unrepeated = tt;
          bounded = omega arith;
          answered = tt;
          failed = l;
        })
        (λ s q.
          let free : any (λ x. text_eq x s.1.addr) excluded ≡ false =
            unfold is_excluded in picked-free k ip b excluded s q in
          let failed : Balancer =
            after_failure k s (pick_excluding hash (U.picked_at k) b ip excluded).0 in
          option-intro (IsRun (suc left) excluded) (U.exchange k s.1) _ _
            (λ _.
              IsRun-suc left excluded s.1.addr _ free
                (attempts-IsRun left (suc k) ip failed (excluded ++ s.1.addr ∷ []) last l))
            (λ resp _.
              if-intro (IsRun (suc left) excluded) (is_server_error (U.status resp)) _ _
                (λ e.
                  IsRun-suc left excluded s.1.addr _ free (
                    attempts-IsRun left (suc k) ip failed (excluded ++ s.1.addr ∷ []) (some resp)
                      e))
                (λ e. record {
                  fresh = (free, tt);
                  unrepeated = (refl, tt);
                  bounded = omega arith;
                  answered = (refl, e);
                  failed = l;
                })))

  -- A request that may be sent again is sent to peers of different addresses: no address is asked
  -- twice, and there are at most three of them and no more than there are peers, or one. The answer
  -- that ends the loop is no server error and comes from the address that was asked last; the
  -- response that is kept for giving up is a server error.
  pub forward-IsRun :
      (ip : IpAddr) (b : Balancer)
      → IsRun
          (attempts_of H U hash b)
          []
          (attempts H U hash (attempts_of H U hash b) 0 ip b [] none)
  forward-IsRun ip b = attempts-IsRun (attempts_of H U hash b) 0 ip b [] none tt
