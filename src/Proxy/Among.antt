-- ===== src/Proxy/Among.antt =====
-- Texts among others, without repetition, and the peers that an attempt of src/proxy.rs leaves alone.
use elrond.Base.{
  ℕ, zero, suc, ◌+◌, ◌≤◌, ◌≡◌, refl, sym, subst, ap, ◌∙◌, inl, inr, Bool, true, false, not, ◌&&◌,
  List, [], ◌∷◌, ◌++◌, arith, ◌==◌, if◌then◌else◌, Bool-cases, length, any, In, In-eq, Text,
  text_eq, text_eq_iff,
}
use elrond.Peer.{drop_guard, enter, Peer, record_failure}
use elrond.Balancer.{is_excluded, Slot, slots_from, effective_weight, total_weight}
use elrond.Proxy.{update_at}
use elrond.Proxy.Retry.{IsUnrepeated}

-- every text of `xs` is one of `bad`
abbrev pub are_among : List Text → List Text → Bool
are_among bad [] = true
are_among bad (x ∷ xs) = any (λ y. text_eq y x) bad && are_among bad xs

-- one text taken out of a list
abbrev without : Text → List Text → List Text
without x [] = []
without x (y ∷ ys) = let rest = without x ys in if text_eq y x then ys else y ∷ rest

length-without :
    (x : Text) (ys : List Text)
    → any (λ y. text_eq y x) ys ≡ true
    → suc (length (without x ys)) ≡ length ys
length-without x [] h = absurd cc
length-without x (y ∷ ys) h = ground (arith, length-without x ys, h)

any-without :
    (x z : Text) (ys : List Text)
    → text_eq x z ≡ false
    → any (λ y. text_eq y z) ys ≡ true
    → any (λ y. text_eq y z) (without x ys) ≡ true
any-without x z [] n h = h
any-without x z (y ∷ ys) n h = ground (arith, any-without x z ys n, n, h, text_eq_iff y x)

are_among-without :
    (x : Text) (bad xs : List Text)
    → any (λ y. text_eq x y) xs ≡ false
    → are_among bad xs ≡ true
    → are_among (without x bad) xs ≡ true
are_among-without x bad [] n h = refl
are_among-without x bad (z ∷ xs) n h =
    ground (arith, n, h, any-without x z bad, are_among-without x bad xs)

both : (a b : Bool) → (a && b) ≡ true → (a ≡ true) × (b ≡ true)
both a b h = ground (arith, h)

-- as many different texts are no more than those that they are among
pub length-are_among :
    (bad xs : List Text) → IsUnrepeated xs → are_among bad xs ≡ true → length xs ≤ length bad
length-are_among bad [] u h = omega arith
length-are_among bad (x ∷ xs) u h =
    let (among, rest) = both (any (λ y. text_eq y x) bad) (are_among bad xs) h in
    omega (
      arith,
      length-without x bad among,
      length-are_among (without x bad) xs u.1 (are_among-without x bad xs u.0 rest),
    )

pub are_among-snoc :
    (bad xs : List Text) (x : Text)
    → are_among bad (xs ++ x ∷ []) ≡ are_among bad xs && any (λ y. text_eq y x) bad
are_among-snoc bad [] x = ground arith
are_among-snoc bad (z ∷ xs) x = ground (arith, are_among-snoc bad xs x)

pub not-among :
    (bad xs : List Text) (a : Text)
    → are_among bad xs ≡ true
    → any (λ y. text_eq y a) bad ≡ false
    → any (λ y. text_eq y a) xs ≡ false
not-among bad [] a h n = refl
not-among bad (x ∷ xs) a h n =
    let (among, rest) = both (any (λ y. text_eq y x) bad) (are_among bad xs) h in
    elim (Bool-cases (text_eq x a)) [
      | inl t ↦
          let there : any (λ y. text_eq y a) bad ≡ true =
            subst (λ z. any (λ y. text_eq y z) bad ≡ true) ((text_eq_iff x a).0 t) among in
          absurd cc
      | inr f ↦ rw f (not-among bad xs a rest n)
    ]

-- A peer that can always be picked, and whose address is none of these.
unfoldable pub is_steady : List Text → Peer → Bool
is_steady bad p = not p.down && p.failed_until_ms == 0 && not (is_excluded bad p)

slots_from-le : (n : ℕ) (s : Slot) (ps : List Peer) → In s (slots_from n ps) → n ≤ s.0
slots_from-le n s [] m = absurd m
slots_from-le n s (p ∷ ps) (inl e) = let same = ap (λ (t : Slot). t.0) e in omega (arith, same)
slots_from-le n s (p ∷ ps) (inr m) = omega (arith, slots_from-le (suc n) s ps m)

-- a peer that is not steady replaced by another, the steady ones stay
pub any-update_at :
    (f : Peer → Bool) (g : Peer → Peer) (n i : ℕ) (p : Peer) (ps : List Peer)
    → In (n + i, p) (slots_from n ps)
    → f p ≡ false
    → any f ps ≡ true
    → any f (update_at i g ps) ≡ true
any-update_at f g n i p [] m h a = absurd m
any-update_at f g n zero p (q ∷ ps) (inl e) h a =
    let same : f q ≡ false = ap (λ (t : Slot). f t.1) (sym e) ∙ h in ground (arith, same, a)
any-update_at f g n zero p (q ∷ ps) (inr m) h a =
    let low : suc n ≤ n + 0 = slots_from-le (suc n) (n + 0, p) ps m in absurd (omega (arith, low))
any-update_at f g n (suc i) p (q ∷ ps) (inl e) h a =
    let same : n + suc i ≡ n = ap (λ (t : Slot). t.0) e in absurd (omega (arith, same))
any-update_at f g n (suc i) p (q ∷ ps) (inr m) h a =
    let index : n + suc i ≡ suc n + i = omega arith in
    let m' = In-eq _ _ (slots_from (suc n) ps) (ap (λ (j : ℕ). (j, p)) index) m in
    ground (arith, a, any-update_at f g (suc n) i p ps m' h)

pub update_at-fuse :
    (f g : Peer → Peer) (i : ℕ) (ps : List Peer)
    → update_at i f (update_at i g ps) ≡ update_at i (λ p. f (g p)) ps
update_at-fuse f g i [] = refl
update_at-fuse f g zero (p ∷ ps) = refl
update_at-fuse f g (suc i) (p ∷ ps) = ap (◌∷◌ p) (update_at-fuse f g i ps)

pub total_weight-update_at :
    (f : Peer → Peer) (n i : ℕ) (ps : List Peer)
    → ((p : Peer) → (f p).weight ≡ p.weight)
    → total_weight (slots_from n (update_at i f ps)) ≡ total_weight (slots_from n ps)
unfolding effective_weight
total_weight-update_at f n i [] h = refl
total_weight-update_at f n zero (p ∷ ps) h = rw (h p) refl
total_weight-update_at f n (suc i) (p ∷ ps) h =
    ap (λ w. effective_weight (n, p) + w) (total_weight-update_at f (suc n) i ps h)

pub steady-In :
    (bad : List Text) (n : ℕ) (ps : List Peer)
    → any (is_steady bad) ps ≡ true
    → (s : Slot) × In s (slots_from n ps) × (is_steady bad s.1 ≡ true)
steady-In bad n [] h = absurd cc
steady-In bad n (p ∷ ps) h = elim (Bool-cases (is_steady bad p)) [
  | inl t ↦ ((n, p), inl refl, t)
  | inr f ↦ let (s, m, g) = steady-In bad (suc n) ps (ground (arith, f, h)) in (s, inr m, g)
]

pub failed-weight :
    (now : ℕ) (p : Peer) → (drop_guard (record_failure now (enter p))).weight ≡ p.weight
unfolding drop_guard record_failure enter
failed-weight now p = ground arith
