-- ===== src/Config/Main/Whole.antt =====
-- What a configuration that `build` of src/config/build.rs accepts holds.
use elrond.Base.{
  ok, err, ◌≤◌, Option, List, [], ◌∷◌, All-of, if-intro, any, All, All-append, Text, codes, text_eq,
  IfOk, IfOk-bind, IfOk->>=,
}
use elrond.Config.Args.{
  Parsed, parse_cache_path, LimitConnZoneDecl, LimitReqZoneDecl, parse_limit_conn_zone,
  parse_limit_req_zone,
}
use elrond.Config.Args.Zones.{parse_limit_conn_zone-IsPositive, parse_limit_req_zone-IsPositive}
use elrond.Config.Parser.{Directives, directive, nil, cons, Block}
use elrond.Config.Location.{arg1, Building, lift, expect_block}
use elrond.Config.Server.{Net, build_server}
use elrond.Config.Server.Checked.{IsServer, build_server-IsServer}
use elrond.Config.Main.Streams.{HasServers, upstream_of-HasServers, IsStream, build_stream-IsStream}
use elrond.Config.Http.{
  ignored_in_http, Http, upstream_of, http_directive, build_map, http_directives, empty_http,
  build_http, build_stream,
}
use elrond.Config.Main.{
  Config, main_directive, main_directives, global_directive, default_config, build,
}

lift-IfOk : {A : Type 0} (P : A → Type 0) (r : Parsed A) → IfOk r P → IfOk (lift r) P
lift-IfOk P (ok a) h = h
lift-IfOk P (err e) h = tt

module _ (N : Net) {R : Type 0} (parse_rate : Text → Option R) where
  -- The servers are sound, the upstreams have peers, and the zones room.
  abbrev pub IsHttp : Http N parse_rate → Type 0
  IsHttp h =
      All HasServers h.upstreams
      × All (IsServer N) h.servers
      × All (λ (z : LimitReqZoneDecl R). 1 ≤ z.req_entries) h.limit_req_zones
      × All (λ (z : LimitConnZoneDecl). 1 ≤ z.conn_entries) h.limit_conn_zones

  http_directive-IsHttp :
      (h : Http N parse_rate) (name : Text) (given : List Text) (b : Block)
      → IsHttp h
      → IfOk (http_directive N parse_rate h name given b) IsHttp
  unfolding http_directive
  http_directive-IsHttp h name given b i =
      let Good : Building (Http N parse_rate) → Type 0 = λ r. IfOk r IsHttp in
      let (us, ss, rs, cs) = i in
      if-intro Good (text_eq name (codes "access_log")) _ _
        (λ _. IfOk->>= IsHttp (arg1 name given) _ (λ a. i))
        (λ _.
          if-intro Good (text_eq name (codes "upstream")) _ _
            (λ _.
              IfOk-bind HasServers IsHttp (upstream_of name given b) _
                (upstream_of-HasServers name given b)
                (λ u k. (All-append HasServers h.upstreams (u ∷ []) us (k, tt), ss, rs, cs)))
            (λ _.
              if-intro Good (text_eq name (codes "server")) _ _
                (λ _. IfOk->>= IsHttp (expect_block name b) _ (λ dirs.
                  IfOk-bind (IsServer N) IsHttp (build_server N dirs) _
                    (build_server-IsServer N dirs)
                    (λ s k. (us, All-append (IsServer N) h.servers (s ∷ []) ss (k, tt), rs, cs))))
                (λ _.
                  if-intro Good (text_eq name (codes "proxy_cache_path")) _ _
                    (λ _. IfOk->>= IsHttp (lift (parse_cache_path given)) _ (λ z. i))
                    (λ _.
                      if-intro Good (text_eq name (codes "limit_req_zone")) _ _
                        (λ _.
                          IfOk-bind (λ (z : LimitReqZoneDecl R). 1 ≤ z.req_entries) IsHttp
                            (lift (parse_limit_req_zone parse_rate given)) _
                            (lift-IfOk _ (parse_limit_req_zone parse_rate given)
                              (parse_limit_req_zone-IsPositive parse_rate given))
                            (λ z k.
                              (us, ss, All-append _ h.limit_req_zones (z ∷ []) rs (k, tt), cs)))
                        (λ _.
                          if-intro Good (text_eq name (codes "limit_conn_zone")) _ _
                            (λ _.
                              IfOk-bind (λ (z : LimitConnZoneDecl). 1 ≤ z.conn_entries) IsHttp
                                (lift (parse_limit_conn_zone given)) _
                                (lift-IfOk _ (parse_limit_conn_zone given)
                                  (parse_limit_conn_zone-IsPositive given))
                                (λ z k. (
                                  us,
                                  ss,
                                  rs,
                                  All-append _ h.limit_conn_zones (z ∷ []) cs (k, tt),
                                )))
                            (λ _.
                              if-intro Good (text_eq name (codes "map")) _ _
                                (λ _.
                                  IfOk->>= IsHttp (expect_block name b) _
                                    (λ dirs. IfOk->>= IsHttp (build_map given dirs) _ (λ m. i)))
                                (λ _.
                                  if-intro Good (any (λ n. text_eq name n) ignored_in_http) _ _
                                    (λ _. i) (λ _. tt))))))))

  http_directives-IsHttp :
      (h : Http N parse_rate) (ds : Directives)
      → IsHttp h
      → IfOk (http_directives N parse_rate h ds) IsHttp
  unfolding http_directives
  http_directives-IsHttp h nil i = i
  http_directives-IsHttp h (cons (directive name given b line) ds) i =
      IfOk-bind IsHttp IsHttp (http_directive N parse_rate h name given b) _
        (http_directive-IsHttp h name given b i) (λ h' k. http_directives-IsHttp h' ds k)

  build_http-IsHttp : (dirs : Directives) → IfOk (build_http N parse_rate dirs) IsHttp
  unfolding build_http
  build_http-IsHttp dirs = http_directives-IsHttp (empty_http N parse_rate) dirs (tt, tt, tt, tt)

  abbrev pub IsConfig : Config N parse_rate → Type 0
  IsConfig c = All-of c.http IsHttp × All-of c.stream (IsStream N parse_rate)

  main_directive-IsConfig :
      (c : Config N parse_rate) (name : Text) (given : List Text) (b : Block)
      → IsConfig c
      → IfOk (main_directive N parse_rate c name given b) IsConfig
  unfolding main_directive
  main_directive-IsConfig c name given b i =
      let Good : Building (Config N parse_rate) → Type 0 = λ r. IfOk r IsConfig in
      if-intro Good (text_eq name (codes "http")) _ _
        (λ _. IfOk->>= IsConfig (expect_block name b) _ (λ dirs.
          IfOk-bind IsHttp IsConfig (build_http N parse_rate dirs) _ (build_http-IsHttp dirs)
            (λ h k. (k, i.1))))
        (λ _.
          if-intro Good (text_eq name (codes "stream")) _ _
            (λ _. IfOk->>= IsConfig (expect_block name b) _ (λ dirs.
              IfOk-bind (IsStream N parse_rate) IsConfig (build_stream N parse_rate dirs) _
                (build_stream-IsStream N parse_rate dirs) (λ s k. (i.0, k))))
            (λ _. IfOk->>= IsConfig (global_directive c.globals name given) _ (λ g. i)))

  main_directives-IsConfig :
      (c : Config N parse_rate) (ds : Directives)
      → IsConfig c
      → IfOk (main_directives N parse_rate c ds) IsConfig
  unfolding main_directives
  main_directives-IsConfig c nil i = i
  main_directives-IsConfig c (cons (directive name given b line) ds) i =
      IfOk-bind IsConfig IsConfig (main_directive N parse_rate c name given b) _
        (main_directive-IsConfig c name given b i) (λ c' k. main_directives-IsConfig c' ds k)

  pub build-IsConfig : (dirs : Directives) → IfOk (build N parse_rate dirs) IsConfig
  unfolding build
  build-IsConfig dirs = main_directives-IsConfig (default_config N parse_rate) dirs (tt, tt)
