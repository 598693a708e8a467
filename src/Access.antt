-- ===== src/Access.antt =====
-- src/access.rs: `allow` and `deny` rules over addresses and CIDR blocks.
pub mod Prefix
pub mod Rules
pub mod Target
mod Tests
use Prim.Native.Nat.{bit_and}
use elrond.Base.{
  ℕ, ◌-◌, ◌*◌, ◌/◌, ◌%◌, ◌^◌, Bool, true, false, not, List, [], ◌∷◌, ltb, ◌==◌, if◌then◌else◌,
  unwrap_or, get_elem?, take, text_eq,
}
use elrond.Net.{IpAddr, v4, v6, ip_eq}

pub data AccessAction : Type 0 where
  allow deny : AccessAction

pub data AccessTarget : Type 0 where
  all : AccessTarget
  ip : IpAddr → AccessTarget
  cidr : IpAddr → ℕ → AccessTarget

pub record AccessRule : Type 0 where
  pub action : AccessAction
  pub target : AccessTarget

-- `xs[i]`. A slice of 4 or 16 octets is never read past its end here: see `Prefix`.
abbrev pub octet : List ℕ → ℕ → ℕ
octet xs i = unwrap_or (get_elem? xs i) 0

-- `0xFFu8 << (8 - tail_bits)`
abbrev pub tail_mask : ℕ → ℕ
tail_mask tail_bits = 255 * 2 ^ (8 - tail_bits) % 256

unfoldable pub mask_match : List ℕ → List ℕ → ℕ → ℕ → Bool
unfolding text_eq
mask_match base addr bits total =
    let full_bytes = bits / 8 in
    let tail_bits = bits % 8 in
    let mask = tail_mask tail_bits in
    if ltb total bits
    then false
    else if bits == 0
    then true
    else if not (text_eq (take full_bytes base) (take full_bytes addr))
    then false
    else if tail_bits == 0
    then true
    else bit_and (octet base full_bytes) mask == bit_and (octet addr full_bytes) mask

unfoldable pub cidr_match : IpAddr → ℕ → IpAddr → Bool
unfolding mask_match
cidr_match (v4 b) bits (v4 c) = mask_match b c bits 32
cidr_match (v6 b) bits (v6 c) = mask_match b c bits 128
cidr_match _ bits _ = false

unfoldable pub matches : AccessTarget → IpAddr → Bool
unfolding ip_eq cidr_match
matches all addr = true
matches (ip b) addr = ip_eq b addr
matches (cidr base bits) addr = cidr_match base bits addr

abbrev pub is_allow : AccessAction → Bool
is_allow allow = true
is_allow deny = false

unfoldable pub check : List AccessRule → IpAddr → Bool
check [] addr = true
check (r ∷ rules) addr =
    let rest = check rules addr in if matches r.target addr then is_allow r.action else rest
