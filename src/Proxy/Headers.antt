-- ===== src/Proxy/Headers.antt =====
-- The request headers that `forward_to_peer` of src/proxy.rs sends upstream.
use elrond.Base.{
  ◌≡◌, refl, ap, ap₂, ◌∙◌, Bool, true, not, ◌&&◌, Option, none, some, List, [], ◌∷◌, ◌++◌, arith,
  if◌then◌else◌, unwrap_or, is_empty, any, Text, codes, text_eq,
}

-- `hyper`'s `HeaderMap` and the test of `HeaderValue::from_str`
pub record HeaderMapApi : Type 1 where
  pub Map : Type 0
  pub get : Text → Map → Option Text
  pub insert : Text → Text → Map → Map
  pub remove : Text → Map → Map
  pub is_value : Text → Bool
  pub to_str : Text → Option Text

-- What is documented of them: each name has one value after `insert` and none after `remove`.
pub record IsHeaderMap (H : HeaderMapApi) : Type 0 where
  pub get-insert :
      (k j v : Text) (m : H.Map)
      → H.get j (H.insert k v m) ≡ (if text_eq k j then some v else H.get j m)
  pub get-remove :
      (k j : Text) (m : H.Map) → H.get j (H.remove k m) ≡ (if text_eq k j then none else H.get j m)

-- `HOP_BY_HOP`
abbrev pub hop_by_hop : List Text
hop_by_hop =
    codes "connection"
    ∷ codes "keep-alive"
    ∷ codes "proxy-authenticate"
    ∷ codes "proxy-authorization"
    ∷ codes "te"
    ∷ codes "trailers"
    ∷ codes "transfer-encoding"
    ∷ codes "upgrade"
    ∷ []

module _ (H : HeaderMapApi) where
  abbrev pub remove_all : List Text → H.Map → H.Map
  remove_all [] m = m
  remove_all (h ∷ hs) m = remove_all hs (H.remove h m)

  -- `from_str`, then `insert` if there is a value
  abbrev pub insert_value : Text → Text → H.Map → H.Map
  insert_value name value m = if H.is_value value then H.insert name value m else m

  abbrev pub chain : Text → Option Text → Text
  chain ip none = ip
  chain ip (some existing) = unwrap_or (H.to_str existing) [] ++ codes ", " ++ ip

  -- the `match` on `x-forwarded-for`
  abbrev pub append_client : Text → Option Text → H.Map → H.Map
  append_client ip none m = H.insert (codes "x-forwarded-for") ip m
  append_client ip (some existing) m =
      insert_value (codes "x-forwarded-for") (chain ip (some existing)) m

  unfoldable pub add_forwarding_headers : Text → Text → H.Map → H.Map
  add_forwarding_headers ip scheme m =
      if not (H.is_value ip)
      then m
      else let real = H.insert (codes "x-real-ip") ip m in
        let forwarded = append_client ip (H.get (codes "x-forwarded-for") real) real in
        insert_value (codes "x-forwarded-proto") scheme forwarded

  -- the headers of `proxy_set_header`, each with its template rendered
  unfoldable pub apply_proxy_set_headers : List (Text × Text) → H.Map → H.Map
  apply_proxy_set_headers [] m = m
  apply_proxy_set_headers ((name, value) ∷ list) m =
      apply_proxy_set_headers list
        (if is_empty value then H.remove name m else insert_value name value m)

  -- the headers that `forward_to_peer` sends
  unfoldable pub outbound : Text → Text → List (Text × Text) → H.Map → H.Map
  unfolding add_forwarding_headers apply_proxy_set_headers
  outbound ip scheme list m =
      apply_proxy_set_headers list (add_forwarding_headers ip scheme (remove_all hop_by_hop m))

  -- The value that `proxy_set_header` leaves a header with.
  abbrev pub overridden : Text → List (Text × Text) → Option Text → Option Text
  overridden j [] v = v
  overridden j ((name, value) ∷ list) v = overridden j list (
      if not (text_eq name j)
      then v
      else if is_empty value
      then none
      else if H.is_value value
      then some value
      else v)

  module _ (laws : IsHeaderMap H) where
    apply_proxy_set_headers-get :
        (j : Text) (list : List (Text × Text)) (m : H.Map)
        → H.get j (apply_proxy_set_headers list m) ≡ overridden j list (H.get j m)
    unfolding apply_proxy_set_headers
    apply_proxy_set_headers-get j [] m = refl
    apply_proxy_set_headers-get j ((name, value) ∷ list) m =
        apply_proxy_set_headers-get j list _ ∙ ap (overridden j list) (one name value)
      where
        one :
            (name value : Text)
            → H.get j (if is_empty value then H.remove name m else insert_value name value m) ≡ (
                if not (text_eq name j)
                then H.get j m
                else if is_empty value
                then none
                else if H.is_value value
                then some value
                else H.get j m)
        one name value = ground (arith, laws.get-insert name j value m, laws.get-remove name j m)

    remove_all-get :
        (j : Text) (hs : List Text) (m : H.Map)
        → H.get j (remove_all hs m) ≡ (if any (λ h. text_eq h j) hs then none else H.get j m)
    remove_all-get j [] m = refl
    remove_all-get j (h ∷ hs) m =
        ground (arith, remove_all-get j hs (H.remove h m), laws.get-remove h j m)

    -- what the forwarding headers are, from the chain that came in and the value
    abbrev pub forwarded : Text → Text → Text → Option Text → Option Text → Option Text
    forwarded ip scheme j came v =
        if text_eq (codes "x-forwarded-proto") j && H.is_value scheme
        then some scheme
        else if text_eq (codes "x-forwarded-for") j && H.is_value (chain ip came)
        then some (chain ip came)
        else if text_eq (codes "x-real-ip") j
        then some ip
        else v

    insert_value-get :
        (k v j : Text) (m : H.Map)
        → H.get j (insert_value k v m) ≡ (if text_eq k j && H.is_value v then some v else H.get j m)
    insert_value-get k v j m = ground (arith, laws.get-insert k j v m)

    append_client-get :
        (ip j : Text) (o : Option Text) (m : H.Map)
        → H.is_value ip ≡ true
        → H.get j (append_client ip o m) ≡ (
            if text_eq (codes "x-forwarded-for") j && H.is_value (chain ip o)
            then some (chain ip o)
            else H.get j m)
    append_client-get ip j none m v =
        ground (arith, laws.get-insert (codes "x-forwarded-for") j ip m)
    append_client-get ip j (some existing) m v =
        insert_value-get (codes "x-forwarded-for") (chain ip (some existing)) j m

    real_ip-get :
        (ip : Text) (m : H.Map)
        → H.get (codes "x-forwarded-for") (H.insert (codes "x-real-ip") ip m)
          ≡ H.get (codes "x-forwarded-for") m
    unfolding text_eq
    real_ip-get ip m = laws.get-insert (codes "x-real-ip") (codes "x-forwarded-for") ip m

    add_forwarding_headers-get :
        (ip scheme j : Text) (m : H.Map)
        → H.is_value ip ≡ true
        → H.get j (add_forwarding_headers ip scheme m)
          ≡ forwarded ip scheme j (H.get (codes "x-forwarded-for") m) (H.get j m)
    unfolding add_forwarding_headers
    add_forwarding_headers-get ip scheme j m v =
        let real : H.Map = H.insert (codes "x-real-ip") ip m in
        let client = append_client-get ip j (H.get (codes "x-forwarded-for") real) real v in
        rw
          (
            v,
            insert_value-get (codes "x-forwarded-proto") scheme j _,
            client,
            real_ip-get ip m,
            laws.get-insert (codes "x-real-ip") j ip m,
          )
          refl

    -- Where the client's address is a header value: a header goes upstream as the last usable
    -- `proxy_set_header` of its name says; without one, the protocol, address and forwarding headers
    -- are set from the connection (the client's chain of addresses is kept in front), the
    -- hop-by-hop headers are gone, and any other header is as the client sent it.
    pub outbound-get :
        (ip scheme : Text) (list : List (Text × Text)) (j : Text) (m : H.Map)
        → H.is_value ip ≡ true
        → H.get j (outbound ip scheme list m)
          ≡ overridden j list (
              forwarded ip scheme j
                (H.get (codes "x-forwarded-for") m)
                (if any (λ h. text_eq h j) hop_by_hop then none else H.get j m))
    unfolding outbound text_eq
    outbound-get ip scheme list j m v =
        let kept = remove_all hop_by_hop m in
        apply_proxy_set_headers-get j list (add_forwarding_headers ip scheme kept)
        ∙ ap (overridden j list) (
            add_forwarding_headers-get ip scheme j kept v
            ∙ ap₂ (forwarded ip scheme j) (remove_all-get (codes "x-forwarded-for") hop_by_hop m)
                (remove_all-get j hop_by_hop m))
