-- ===== src/Config/Main/Streams.antt =====
-- What an upstream and a `stream` block that src/config/build.rs accepts hold.
use elrond.Base.{
  ok, err, ◌≡◌, refl, true, false, Option, none, some, List, [], ◌∷◌, ◌++◌, is_some, is_none,
  if-intro, is_empty, All, All-append, Text, codes, text_eq, IfOk, IfOk-bind, IfOk->>=,
}
use elrond.Balancer.{round_robin}
use elrond.Config.Upstream.{Upstream, build_upstream, Built, upstream_directives}
use elrond.Config.Parser.{Directives, directive, nil, cons, Block}
use elrond.Config.Location.{arg1, Building, expect_block}
use elrond.Config.Server.{Net}
use elrond.Config.Http.{
  lift_upstream, upstream_of, ignored_in_stream, one_of, StreamServer, Stream, build_stream_server,
  stream_server_directives, stream_directives, build_stream,
}

abbrev pub HasServers : Upstream → Type 0
HasServers u = is_empty u.servers ≡ false

build_upstream-HasServers :
    (name : Text) (dirs : Directives) → IfOk (build_upstream name dirs) HasServers
unfolding build_upstream
build_upstream-HasServers name dirs =
    IfOk->>= HasServers
      (upstream_directives
        (record { upstream_name = name; method = round_robin; servers = []; health_check = none })
        dirs)
      _
      (λ u.
        if-intro (λ (r : Built Upstream). IfOk r HasServers) (is_empty u.servers) _ _ (λ _. tt)
          (λ h. h))

lift_upstream-IfOk :
    (P : Upstream → Type 0) (r : Built Upstream) → IfOk r P → IfOk (lift_upstream r) P
lift_upstream-IfOk P (ok u) h = h
lift_upstream-IfOk P (err e) h = tt

pub upstream_of-HasServers :
    (name : Text) (given : List Text) (b : Block) → IfOk (upstream_of name given b) HasServers
upstream_of-HasServers name given b = IfOk->>= HasServers (arg1 name given) _ (λ u.
    IfOk->>= HasServers (expect_block name b) _ (λ dirs.
      lift_upstream-IfOk HasServers (build_upstream u dirs) (build_upstream-HasServers u dirs)))

-- a stream server has an address and somebody to pass to
pub record IsPassing {A : Type 0} (listen : Option A) (proxy_pass : Option Text) : Type 0 where
  pub listens : is_some listen ≡ true
  pub passes : is_some proxy_pass ≡ true

given-is_some : {A : Type 0} (o : Option A) → is_none o ≡ false → is_some o ≡ true
given-is_some none h = absurd cc
given-is_some (some _) h = refl

module _ (N : Net) {R : Type 0} (parse_rate : Text → Option R) where
  abbrev pub IsStreamServer : StreamServer N parse_rate → Type 0
  IsStreamServer s = IsPassing s.listen s.proxy_pass

  build_stream_server-IsStreamServer :
      (dirs : Directives) → IfOk (build_stream_server N parse_rate dirs) IsStreamServer
  unfolding build_stream_server
  build_stream_server-IsStreamServer dirs =
      let Good : Building (StreamServer N parse_rate) → Type 0 = λ r. IfOk r IsStreamServer in
      IfOk->>= IsStreamServer
        (stream_server_directives N parse_rate
          (record { listen = none; proxy_pass = none; udp = false }) dirs)
        _
        (λ s.
          if-intro Good (is_none s.listen) _ _ (λ _. tt)
            (λ l.
              if-intro Good (is_none s.proxy_pass) _ _ (λ _. tt)
                (λ p. record {
                  listens = given-is_some s.listen l;
                  passes = given-is_some s.proxy_pass p;
                })))

  abbrev pub IsStream : Stream N parse_rate → Type 0
  IsStream s = All HasServers s.upstreams × All IsStreamServer s.servers

  stream_directives-IsStream :
      (s : Stream N parse_rate) (ds : Directives)
      → IsStream s
      → IfOk (stream_directives N parse_rate s ds) IsStream
  unfolding stream_directives
  stream_directives-IsStream s nil i = i
  stream_directives-IsStream s (cons (directive name given b line) ds) (us, ss) =
      let Good : Building (Stream N parse_rate) → Type 0 = λ r. IfOk r IsStream in
      if-intro Good (text_eq name (codes "upstream")) _ _
        (λ _.
          IfOk-bind HasServers IsStream (upstream_of name given b) _
            (upstream_of-HasServers name given b)
            (λ u k.
              stream_directives-IsStream (record s { upstreams = s.upstreams ++ u ∷ [] }) ds
                (All-append HasServers s.upstreams (u ∷ []) us (k, tt), ss)))
        (λ _.
          if-intro Good (text_eq name (codes "server")) _ _
            (λ _. IfOk->>= IsStream (expect_block name b) _ (λ dirs.
              IfOk-bind IsStreamServer IsStream (build_stream_server N parse_rate dirs) _
                (build_stream_server-IsStreamServer dirs)
                (λ v k.
                  stream_directives-IsStream (record s { servers = s.servers ++ v ∷ [] }) ds
                    (us, All-append IsStreamServer s.servers (v ∷ []) ss (k, tt)))))
            (λ _.
              if-intro Good (one_of name ignored_in_stream) _ _
                (λ _. stream_directives-IsStream s ds (us, ss)) (λ _. tt)))

  pub build_stream-IsStream : (dirs : Directives) → IfOk (build_stream N parse_rate dirs) IsStream
  unfolding build_stream
  build_stream-IsStream dirs =
      stream_directives-IsStream (record { upstreams = []; servers = [] }) dirs (tt, tt)
