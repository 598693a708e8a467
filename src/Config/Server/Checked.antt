-- ===== src/Config/Server/Checked.antt =====
-- What a server that `build_server` of src/config/build.rs accepts holds.
use elrond.Base.{
  ◌≡◌, refl, sym, subst, ◌⊎◌, inl, inr, Bool, true, false, ◌&&◌, ◌||◌, Option, none, some, List, [],
  ◌∷◌, arith, is_some, is_none, if-intro, All, All-append, Text, codes, text_eq, IfOk, IfOk-bind,
  IfOk->>=,
}
use elrond.Config.Parser.{Directives, directive, nil, cons, Block}
use elrond.Config.Location.{Location, Building, arg1, expect_block, parse_location_pattern}
use elrond.Config.Location.Build.{build_location}
use elrond.Config.Location.Content.{IsBuilt, build_location-IsBuilt}
use elrond.Config.Server.{
  build_server, Net, find_root, Server, parse_listen, server_setting, listen_at, add_location,
  server_directive, server_directives, empty_server, checked_server,
}

-- a location that some block makes under this root
abbrev pub HasBlock : Option Text → Location → Type 0
HasBlock root l = (dirs : Directives) × IsBuilt dirs root l

module _ (N : Net) where
  -- What the loop keeps of a server with this root.
  abbrev IsSound : Option Text → Server N → Type 0
  IsSound root s =
      (s.root ≡ root) × ((s.http3 ≡ false) ⊎ (s.tls ≡ true)) × All (HasBlock root) s.locations

  implied :
      (tls http3 ssl quic : Bool)
      → (http3 ≡ false) ⊎ (tls ≡ true)
      → ((http3 || quic) ≡ false) ⊎ ((tls || ssl || quic) ≡ true)
  implied tls http3 ssl true h = inr (ground arith)
  implied tls http3 ssl false (inl h) = inl (ground (arith, h))
  implied tls http3 ssl false (inr h) = inr (ground (arith, h))

  listen_at-IsSound :
      (root : Option Text) (s : Server N) (given : List Text)
      → IsSound root s
      → IfOk (listen_at N s given) (IsSound root)
  unfolding listen_at
  listen_at-IsSound root s given (r, h, ls) =
      IfOk->>= (IsSound root) (arg1 (codes "listen") given) _ (λ a.
        IfOk->>= (IsSound root) (parse_listen N a) _ (λ addr. (r, implied s.tls s.http3 _ _ h, ls)))

  add_location-IsSound :
      (root : Option Text) (s : Server N) (given : List Text) (b : Block)
      → IsSound root s
      → IfOk (add_location N s given b) (IsSound root)
  unfolding add_location
  add_location-IsSound root s [] b h = tt
  add_location-IsSound root s (a ∷ rest) b (r, h, ls) =
      IfOk->>= (IsSound root) (parse_location_pattern a rest) _ (λ kp.
        IfOk->>= (IsSound root) (expect_block (codes "location") b) _ (λ dirs.
          IfOk-bind (IsBuilt dirs s.root) (IsSound root) (build_location kp.1 kp.0 dirs s.root) _
            (build_location-IsBuilt kp.1 kp.0 dirs s.root)
            (λ l built. (
              r,
              h,
              All-append (HasBlock root) s.locations (l ∷ []) ls
                  ((dirs, subst (λ o. IsBuilt dirs o l) r built), tt),
            ))))

  server_directive-IsSound :
      (root : Option Text) (s : Server N) (name : Text) (given : List Text) (b : Block)
      → IsSound root s
      → IfOk (server_directive N s name given b) (IsSound root)
  unfolding server_directive
  server_directive-IsSound root s name given b h =
      let Sound : Building (Server N) → Type 0 = λ r. IfOk r (IsSound root) in
      if-intro Sound (text_eq name (codes "listen")) _ _ (λ _. listen_at-IsSound root s given h)
        (λ _.
          if-intro Sound (text_eq name (codes "location")) _ _
            (λ _. add_location-IsSound root s given b h)
            (λ _. IfOk->>= (IsSound root) (server_setting N name given s.settings) _ (λ t. h)))

  server_directives-IsSound :
      (root : Option Text) (s : Server N) (ds : Directives)
      → IsSound root s
      → IfOk (server_directives N s ds) (IsSound root)
  unfolding server_directives
  server_directives-IsSound root s nil h = h
  server_directives-IsSound root s (cons (directive name given b line) ds) h =
      IfOk-bind (IsSound root) (IsSound root) (server_directive N s name given b) _
        (server_directive-IsSound root s name given b h)
        (λ s' k. server_directives-IsSound root s' ds k)

  pub record IsServer (s : Server N) : Type 0 where
    pub listens : is_some s.listen ≡ true
    pub certified :
        (s.tls ≡ false)
        ⊎ ((is_some s.settings.ssl_certificate ≡ true)
            × (is_some s.settings.ssl_certificate_key ≡ true))
    pub quic : (s.http3 ≡ false) ⊎ (s.tls ≡ true)
    pub built : All (HasBlock s.root) s.locations

  both_there :
      (tls : Bool) (cert key : Option Text)
      → (tls && (is_none cert || is_none key)) ≡ false
      → (tls ≡ false) ⊎ ((is_some cert ≡ true) × (is_some key ≡ true))
  both_there false cert key h = inl refl
  both_there true (some _) (some _) h = inr (refl, refl)
  both_there true (some _) none h = absurd cc
  both_there true none key h = absurd cc

  listening : {A : Type 0} (o : Option A) → is_none o ≡ false → is_some o ≡ true
  listening none h = absurd cc
  listening (some _) h = refl

  checked_server-IsServer :
      (root : Option Text) (s : Server N) → IsSound root s → IfOk (checked_server N s) (IsServer)
  unfolding checked_server
  checked_server-IsServer root s (r, h, ls) =
      let Good : Building (Server N) → Type 0 = λ b. IfOk b IsServer in
      if-intro Good (is_none s.listen) _ _ (λ _. tt)
        (λ l.
          if-intro Good
            (s.tls
              && (is_none s.settings.ssl_certificate || is_none s.settings.ssl_certificate_key))
            _ _ (λ _. tt)
            (λ c. record {
              listens = listening s.listen l;
              certified = both_there s.tls _ _ c;
              quic = h;
              built = subst (λ o. All (HasBlock o) s.locations) (sym r) ls;
            }))

  -- A server that is accepted listens; with TLS it has a certificate and its key; with HTTP/3 it
  -- has TLS; and each of its locations is one that `build_location` accepts under the server's
  -- root, whether that stands in front of the location or behind it.
  pub build_server-IsServer : (dirs : Directives) → IfOk (build_server N dirs) IsServer
  unfolding build_server
  build_server-IsServer dirs = IfOk->>= IsServer (find_root none dirs) _ (λ root.
      IfOk-bind (IsSound root) IsServer (server_directives N (empty_server N root) dirs) _
        (server_directives-IsSound root (empty_server N root) dirs (refl, inl refl, tt))
        (checked_server-IsServer root))
