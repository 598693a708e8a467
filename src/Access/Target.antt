-- ===== src/Access/Target.antt =====
-- `parse_target` of src/access.rs: the argument of `allow` and `deny`. The parser of addresses is the
-- standard library's, and an argument.
use elrond.Base.{
  Result, ok, err, ℕ, ◌≤◌, ◌≡◌, refl, ◌↔◌, true, Option, none, some, arith, ltb, if◌then◌else◌,
  if-intro, option-intro, take, Text, codes, text_eq, ◌>>=◌, IfOk, IfOk->>=, parse_below,
  split_once,
}
use elrond.Net.{IpAddr, v4, v6, IsIp}
use elrond.Access.{AccessTarget, all, ip, cidr, matches, cidr_match}
use elrond.Access.Prefix.{address_bits, mask_match-take}

pub data TargetError : Type 0 where
  bad_base bad_bits too_large bad_address : TargetError

abbrev or_target {ℓ} : {A : Type ℓ} → Option A → TargetError → Result TargetError A
or_target none e = err e
or_target (some a) e = ok a

abbrev pub max_bits : IpAddr → ℕ
max_bits (v4 _) = 32
max_bits (v6 _) = 128

module _ (parse_ip : Text → Option IpAddr) where
  unfoldable pub parse_target : Text → Result TargetError AccessTarget
  unfolding text_eq split_once parse_below
  parse_target s = if text_eq s (codes "all") then ok all else elim (split_once b'/' s) [
    | some (base, bits) ↦ or_target (parse_ip base) bad_base >>= λ base_ip.
        or_target (parse_below 256 bits) bad_bits >>= λ n.
        if ltb (max_bits base_ip) n then err too_large else ok (cidr base_ip n)
    | none ↦ or_target (parse_ip s) bad_address >>= λ a. ok (ip a)
  ]

-- the two addresses are of one family, and share their first n bits
abbrev pub SharesBits : IpAddr → ℕ → IpAddr → Type 0
SharesBits (v4 b) n (v4 a) = take n (address_bits b) ≡ take n (address_bits a)
SharesBits (v6 b) n (v6 a) = take n (address_bits b) ≡ take n (address_bits a)
SharesBits (v4 b) n (v6 a) = ⊥
SharesBits (v6 b) n (v4 a) = ⊥

-- what a target that is read stands for
abbrev pub IsTarget : AccessTarget → Type 0
IsTarget all = Unit
IsTarget (ip b) = IsIp b
IsTarget (cidr b n) =
    IsIp b
    × (n ≤ max_bits b)
    × ((a : IpAddr) → IsIp a → (matches (cidr b n) a ≡ true) ↔ SharesBits b n a)

cidr-SharesBits :
    (b : IpAddr) (n : ℕ)
    → IsIp b
    → n ≤ max_bits b
    → (a : IpAddr) → IsIp a
    → (matches (cidr b n) a ≡ true) ↔ SharesBits b n a
unfolding matches cidr_match
cidr-SharesBits (v4 b) n i h (v4 a) j = mask_match-take 4 n b a i j (omega (arith, h))
cidr-SharesBits (v6 b) n i h (v6 a) j = mask_match-take 16 n b a i j (omega (arith, h))
cidr-SharesBits (v4 b) n i h (v6 a) j = (λ e. absurd cc, λ e. absurd e)
cidr-SharesBits (v6 b) n i h (v4 a) j = (λ e. absurd cc, λ e. absurd e)

module _ (parse_ip : Text → Option IpAddr)
    (parsed : (s : Text) (a : IpAddr) → parse_ip s ≡ some a → IsIp a) where
  or_target-IsTarget :
      (s : Text) (e : TargetError) (f : IpAddr → Result TargetError AccessTarget)
      → ((a : IpAddr) → IsIp a → IfOk (f a) IsTarget)
      → IfOk (or_target (parse_ip s) e >>= f) IsTarget
  or_target-IsTarget s e f h = read (parse_ip s) refl
    where
      read : (o : Option IpAddr) → parse_ip s ≡ o → IfOk (or_target o e >>= f) IsTarget
      read none q = tt
      read (some a) q = h a (parsed s a q)

  -- Where the parser of addresses gives octets: a block that is accepted has no more bits than its
  -- family, and matches exactly the addresses of its family that share its first bits.
  pub parse_target-IsTarget : (s : Text) → IfOk (parse_target parse_ip s) IsTarget
  unfolding parse_target
  parse_target-IsTarget s =
      let Good : Result TargetError AccessTarget → Type 0 = λ r. IfOk r IsTarget in
      if-intro Good (text_eq s (codes "all")) _ _ (λ _. tt)
        (λ _.
          option-intro Good (split_once b'/' s) _ _
            (λ _. or_target-IsTarget s bad_address _ (λ a i. i))
            (λ p _. or_target-IsTarget p.0 bad_base _ (λ b i.
              IfOk->>= IsTarget (or_target (parse_below 256 p.1) bad_bits) _ (λ n.
                if-intro Good (ltb (max_bits b) n) _ _ (λ _. tt)
                  (λ l. (i, ground (arith, l), cidr-SharesBits b n i (ground (arith, l))))))))
