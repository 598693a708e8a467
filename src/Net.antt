-- ===== src/Net.antt =====
-- The addresses of the standard library's `std::net` that the program passes around.
use elrond.Base.{ℕ, ◌<◌, ◌≡◌, Bool, false, List, All, length, text_eq}

-- `Ipv4Addr` by its four octets, `Ipv6Addr` by its sixteen.
pub data IpAddr : Type 0 where
  v4 : List ℕ → IpAddr
  v6 : List ℕ → IpAddr

-- n octets, each a byte
pub record IsOctets (n : ℕ) (xs : List ℕ) : Type 0 where
  pub count : length xs ≡ n
  pub bytes : All (λ x. x < 256) xs

-- `PartialEq` of `IpAddr`
unfoldable pub ip_eq : IpAddr → IpAddr → Bool
unfolding text_eq
ip_eq (v4 a) (v4 b) = text_eq a b
ip_eq (v6 a) (v6 b) = text_eq a b
ip_eq _ _ = false

abbrev pub IsIp : IpAddr → Type 0
IsIp (v4 a) = IsOctets 4 a
IsIp (v6 a) = IsOctets 16 a
