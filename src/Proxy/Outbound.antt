-- ===== src/Proxy/Outbound.antt =====
-- The request headers that src/proxy.rs sends upstream, against docs/security-model.md.
use elrond.Base.{
  ◌&&◌, Option, none, some, List, [], ◌∷◌, ◌++◌, if◌then◌else◌, any, Text, codes, text_eq,
}
use elrond.Proxy.Headers.{HeaderMapApi}

-- the headers that the document lists as stripped
abbrev pub stripped : List Text
stripped =
    codes "connection"
    ∷ codes "keep-alive"
    ∷ codes "proxy-authenticate"
    ∷ codes "proxy-authorization"
    ∷ codes "te"
    ∷ codes "trailers"
    ∷ codes "transfer-encoding"
    ∷ codes "upgrade"
    ∷ []

-- an address behind those of a list, as far as it can be read
abbrev pub behind : Option Text → Text → Text
behind none ip = codes ", " ++ ip
behind (some addresses) ip = addresses ++ codes ", " ++ ip

module _ (H : HeaderMapApi) where
  -- the client's own chain of addresses, and its address behind it
  abbrev pub client_chain : Text → Option Text → Text
  client_chain ip none = ip
  client_chain ip (some existing) = behind (H.to_str existing) ip

  -- a header of the request that is sent where `proxy_set_header` does not name it
  abbrev pub sent : Text → Text → Text → H.Map → Option Text
  sent ip scheme name m =
      let addresses = client_chain ip (H.get (codes "x-forwarded-for") m) in
      if text_eq (codes "x-forwarded-proto") name && H.is_value scheme
      then some scheme
      else if text_eq (codes "x-forwarded-for") name && H.is_value addresses
      then some addresses
      else if text_eq (codes "x-real-ip") name
      then some ip
      else if any (λ h. text_eq h name) stripped
      then none
      else H.get name m
