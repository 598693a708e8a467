-- ===== src/Access/Tests.antt =====
-- The blocks and rules of the source's own tests.
use elrond.Base.{
  ok, ℕ, ◌≡◌, refl, subst, Bool, true, false, Option, none, some, List, [], ◌∷◌, arith,
  if◌then◌else◌, All-of, Text, codes, text_eq, IfOk,
}
use elrond.Access.Target.{parse_target, IsTarget, parse_target-IsTarget}
use elrond.Net.{IpAddr, IsIp, IpAddr, v4}
use elrond.Access.{AccessRule, allow, deny, all, cidr, matches, cidr_match, check}
use elrond.Access.Rules.{check-append}

abbrev four : ℕ → ℕ → ℕ → ℕ → List ℕ
four a b c d = a ∷ b ∷ c ∷ d ∷ []

-- /25 splits the last octet at the high bit
half_of_last_octet :
    (cidr_match (v4 (four 192 168 1 0)) 25 (v4 (four 192 168 1 127)) ≡ true)
    × (cidr_match (v4 (four 192 168 1 0)) 25 (v4 (four 192 168 1 128)) ≡ false)
unfolding cidr_match
half_of_last_octet = (refl, refl)

abbrev ten_only : List AccessRule
ten_only =
    record { action = allow; target = cidr (v4 (four 10 0 0 0)) 8 }
    ∷ record { action = deny; target = all }
    ∷ []

abbrev outside : IpAddr
outside = v4 (four 192 168 1 1)

outside_refused : check ten_only outside ≡ false
unfolding matches
outside_refused =
    check-append (record { action = allow; target = cidr (v4 (four 10 0 0 0)) 8 } ∷ []) []
      (record { action = deny; target = all }) outside (refl, tt) refl

-- the one address that is read
abbrev ten : Text → Option IpAddr
ten s = if text_eq s (codes "10.0.0.0") then some (v4 (four 10 0 0 0)) else none

ten-IsIp : (s : Text) (a : IpAddr) → ten s ≡ some a → IsIp a
ten-IsIp s a = octets (text_eq s (codes "10.0.0.0"))
  where
    octets : (b : Bool) → (if b then some (v4 (four 10 0 0 0)) else none) ≡ some a → IsIp a
    octets true e = subst (λ o. All-of o IsIp) e (record { count = refl; bytes = omega arith })
    octets false e = absurd cc

ten_read : parse_target ten (codes "10.0.0.0/8") ≡ ok (cidr (v4 (four 10 0 0 0)) 8)
unfolding parse_target
ten_read = refl

parse_target-IsTarget_example : IfOk (parse_target ten (codes "10.0.0.0/8")) IsTarget
parse_target-IsTarget_example = parse_target-IsTarget ten ten-IsIp (codes "10.0.0.0/8")
