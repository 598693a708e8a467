-- ===== src/Proxy/Answers.antt =====
-- The loop of `forward` of src/proxy.rs finds a peer that answers, if few enough do not.
use elrond.Base.{
  ℕ, zero, suc, ◌+◌, ◌^◌, ◌<◌, ◌≡◌, refl, sym, subst, ap, ◌∙◌, ◌≢◌, inl, inr, true, false, Option,
  none, some, List, [], ◌∷◌, ◌++◌, arith, Bool-cases, is_some, All-of, if-intro, option-intro,
  length, any, length-append, In, In-eq, All-In, Text,
}
use elrond.Net.{IpAddr}
use elrond.Peer.{drop_guard, enter, Peer, record_failure, is_available}
use elrond.Balancer.{
  Balancer, is_excluded, pick_excluding, Slot, slots_from, total_weight, pick_inner,
}
use elrond.Balancer.Eligible.{IsCandidate, pick_inner-IsCandidate, pick_inner-none, IsCandidate}
use elrond.Cache.{HeaderApi}
use elrond.Proxy.{Upstream, attempts, update_at, is_server_error, Outcome, attempts_of}
use elrond.Proxy.InFlight.{pick_inner-peers}
use elrond.Proxy.Among.{
  are_among, length-are_among, are_among-snoc, not-among, any-update_at, update_at-fuse,
  total_weight-update_at, steady-In, failed-weight, is_steady,
}
use elrond.Proxy.Retry.{
  final, forward-IsRun, IsUnrepeated, after_failure, IsUnrepeated-snoc, picked-free,
}

module _ (H : HeaderApi) (U : Upstream H) (hash : IpAddr → ℕ) (bad : List Text) where
  -- at every attempt, a peer whose address is none of the bad ones answers, with no server error
  abbrev pub AllAnswer : Type 0
  AllAnswer =
      (k : ℕ) (p : Peer)
      → is_excluded bad p ≡ false
      → (resp : U.Response) × (U.exchange k p ≡ some resp)
        × (is_server_error (U.status resp) ≡ false)

  -- the balancer has a steady peer, and weights that fit
  abbrev pub IsReady : Balancer → Type 0
  IsReady b = (any (is_steady bad) b.peers ≡ true) × (total_weight (slots_from 0 b.peers) < 2 ^ 32)

  after_failure-IsReady :
      (k : ℕ) (s : Slot) (b : Balancer)
      → In s (slots_from 0 b.peers)
      → is_excluded bad s.1 ≡ true
      → IsReady b
      → IsReady (after_failure H U hash k s b)
  after_failure-IsReady k s b m x (h, w) =
      let g : Peer → Peer = λ p. drop_guard (record_failure (U.ended_at k) (enter p)) in
      let e : (after_failure H U hash k s b).peers ≡ update_at s.0 g b.peers =
        ap (update_at s.0 drop_guard)
          (update_at-fuse (record_failure (U.ended_at k)) enter s.0 b.peers)
        ∙ update_at-fuse drop_guard (λ p. record_failure (U.ended_at k) (enter p)) s.0 b.peers in
      let idle : is_steady bad s.1 ≡ false = unfold is_steady in ground (arith, x) in
      subst (λ ps. (any (is_steady bad) ps ≡ true) × (total_weight (slots_from 0 ps) < 2 ^ 32))
        (sym e)
        (
          any-update_at (is_steady bad) g 0 s.0 s.1 b.peers
              (In-eq s (0 + s.0, s.1) (slots_from 0 b.peers)
                (ap (λ (j : ℕ). (j, s.1)) (omega arith)) m)
              idle h,
          omega (arith, w, total_weight-update_at g 0 s.0 b.peers (failed-weight (U.ended_at k))),
        )

  steady-IsCandidate :
      (now : ℕ) (excluded : List Text) (s : Slot)
      → are_among bad excluded ≡ true
      → is_steady bad s.1 ≡ true
      → IsCandidate now excluded s
  unfolding is_steady is_available is_excluded
  steady-IsCandidate now excluded s among h = record {
    available = ground (arith, h);
    not_excluded = not-among bad excluded s.1.addr among (ground (arith, h));
  }

  ready-picks :
      (now : ℕ) (ip : IpAddr) (b : Balancer) (excluded : List Text)
      → IsReady b
      → are_among bad excluded ≡ true
      → (pick_inner hash now b ip excluded).1 ≢ none
  ready-picks now ip b excluded (h, w) among n =
      let (s, m, g) = steady-In bad 0 b.peers h in
      All-In (λ p. ¬ (IsCandidate now excluded p)) s (slots_from 0 b.peers)
        ((pick_inner-none hash now b ip excluded w).0 n) m
        (steady-IsCandidate now excluded s among g)

  -- a peer that does not answer is one of the bad ones
  failed-bad :
      AllAnswer
      → (k : ℕ) (p : Peer)
      → ((resp : U.Response) → U.exchange k p ≡ some resp → is_server_error (U.status resp) ≡ true)
      → is_excluded bad p ≡ true
  failed-bad answers k p h = elim (Bool-cases (is_excluded bad p)) [
    | inl t ↦ t
    | inr f ↦ let (resp, e, fine) = answers k p f in let error = h resp e in absurd cc
  ]

  among-snoc :
      (excluded : List Text) (p : Peer)
      → are_among bad excluded ≡ true
      → is_excluded bad p ≡ true
      → are_among bad (excluded ++ p.addr ∷ []) ≡ true
  unfolding is_excluded
  among-snoc excluded p h x = are_among-snoc bad excluded p.addr ∙ ground (arith, h, x)

  exchanged :
      (o : Option U.Response) (a b : U.Response)
      → o ≡ some a
      → o ≡ some b
      → is_server_error (U.status a) ≡ true
      → is_server_error (U.status b) ≡ true
  exchanged none a b e g h = absurd cc
  exchanged (some c) a b e g h =
      let same : a ≡ b = cc in
      subst (λ (r : U.Response). is_server_error (U.status r) ≡ true) same h

  abbrev IsAnswered : Outcome H U hash → Type 0
  IsAnswered o = is_some o.answer ≡ true

  attempts-IsAnswered :
      AllAnswer
      → (left k : ℕ) (ip : IpAddr) (b : Balancer) (excluded : List Text) (last : Option U.Response)
      → IsReady b
      → IsUnrepeated excluded
      → are_among bad excluded ≡ true
      → length bad < length excluded + left
      → IsAnswered (attempts H U hash left k ip b excluded last)
  unfolding attempts pick_excluding
  attempts-IsAnswered answers zero k ip b excluded last r u among lt =
      absurd (omega (arith, lt, length-are_among bad excluded u among))
  attempts-IsAnswered answers (suc left) k ip b excluded last r u among lt =
      let b' = (pick_excluding hash (U.picked_at k) b ip excluded).0 in
      let r' : IsReady b' =
        subst (λ ps. (any (is_steady bad) ps ≡ true) × (total_weight (slots_from 0 ps) < 2 ^ 32))
          (sym (pick_inner-peers H U hash (U.picked_at k) b ip excluded)) r in
      option-intro IsAnswered (pick_excluding hash (U.picked_at k) b ip excluded).1 _ _
        (λ n. absurd (ready-picks (U.picked_at k) ip b excluded r among n))
        (λ s q.
          let m : In s (slots_from 0 b'.peers) =
            subst (λ ps. In s (slots_from 0 ps))
              (sym (pick_inner-peers H U hash (U.picked_at k) b ip excluded))
              (pick_inner-IsCandidate hash (U.picked_at k) b ip excluded s q).0 in
          let again : (l : Option U.Response)
              → is_excluded bad s.1 ≡ true
              → IsAnswered (
                  attempts H U hash left (suc k) ip (after_failure H U hash k s b')
                    (excluded ++ s.1.addr ∷ []) l) =
            λ l x.
              attempts-IsAnswered answers left (suc k) ip (after_failure H U hash k s b')
                (excluded ++ s.1.addr ∷ []) l (after_failure-IsReady k s b' m x r')
                (IsUnrepeated-snoc excluded s.1 u (picked-free H U hash k ip b excluded s q))
                (among-snoc excluded s.1 among x)
                (omega (arith, lt, length-append excluded (s.1.addr ∷ []))) in
          option-intro IsAnswered (U.exchange k s.1) _ _
            (λ n. again last (failed-bad answers k s.1 (λ resp e. absurd cc)))
            (λ resp e.
              if-intro IsAnswered (is_server_error (U.status resp)) _ _
                (λ error. again (some resp) (
                  failed-bad answers k s.1
                    (λ resp' e'. exchanged (U.exchange k s.1) resp resp' e e' error)))
                (λ _. refl)))

  -- A request that may be sent again is answered by a peer, with no server error, if the weights of
  -- the peers (each at least 1) sum to less than 2^32, those peers answer whose address is none of
  -- some that are fewer than the attempts, and one of them is always to be had: neither down nor
  -- failed. Whichever peers the balancer picks, and though the others may be picked first.
  pub attempts_of-answered :
      AllAnswer
      → (ip : IpAddr) (b : Balancer) → IsReady b
      → length bad < attempts_of H U hash b
      → (s : Slot) × (resp : U.Response) × ((attempts H U hash
            (attempts_of H U hash b)
            0
            ip
            b
            []
            none).answer
          ≡ some (s, resp))
        × (is_server_error (U.status resp) ≡ false)
  attempts_of-answered answers ip b r lt =
      go (attempts H U hash (attempts_of H U hash b) 0 ip b [] none).answer
        (attempts-IsAnswered answers (attempts_of H U hash b) 0 ip b [] none r tt refl
          (omega (arith, lt)))
        (forward-IsRun H U hash ip b).answered
    where
      go :
          (o : Option (Slot × U.Response))
          → is_some o ≡ true
          → All-of o (λ a.
            (final (attempts H U hash (attempts_of H U hash b) 0 ip b [] none).asked
              ≡ some a.0.1.addr)
            × (is_server_error (U.status a.1) ≡ false))
          → (s : Slot) × (resp : U.Response) × (o ≡ some (s, resp))
            × (is_server_error (U.status resp) ≡ false)
      go none h a = absurd cc
      go (some (s, resp)) h a = (s, resp, refl, a.1)
