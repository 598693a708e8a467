-- ===== src/Access/Rules.antt =====
-- The first rule that matches decides.
use elrond.Base.{◌≡◌, refl, ap, inl, inr, true, false, List, [], ◌∷◌, ◌++◌, Bool-cases, All}
use elrond.Net.{IpAddr}
use elrond.Access.{AccessRule, is_allow, matches, check}

-- If no rule of `earlier` matches the address and `r` does, then whatever rules follow, `check`
-- answers by `r`: true if it allows, false if it denies.
pub check-append :
    (earlier later : List AccessRule) (r : AccessRule) (addr : IpAddr)
    → All (λ q. matches q.target addr ≡ false) earlier
    → matches r.target addr ≡ true
    → check (earlier ++ r ∷ later) addr ≡ is_allow r.action
unfolding check
check-append [] later r addr n m = rw m
check-append (q ∷ earlier) later r addr n m = rw n.0 (check-append earlier later r addr n.1 m)

-- An address that `check` refuses is matched by a rule that denies, and no rule before it matches;
-- so an address that no rule matches is let in.
pub check_refused :
    (rules : List AccessRule) (addr : IpAddr)
    → check rules addr ≡ false
    → (earlier : List AccessRule) × (r : AccessRule) × (later : List AccessRule) × (rules
        ≡ earlier ++ r ∷ later)
      × All (λ q. matches q.target addr ≡ false) earlier
      × (matches r.target addr ≡ true)
      × (is_allow r.action ≡ false)
unfolding check
check_refused [] addr e = cc
check_refused (q ∷ rules) addr e = elim (Bool-cases (matches q.target addr)) [
  | inl m ↦ ([], q, rules, refl, tt, m, rw m at e)
  | inr n ↦
      let (earlier, r, later, split, none_match, m, d) = check_refused rules addr (rw n at e) in
      (q ∷ earlier, r, later, ap (◌∷◌ q) split, (n, none_match), m, d)
]
