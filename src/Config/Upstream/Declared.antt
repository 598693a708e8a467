-- ===== src/Config/Upstream/Declared.antt =====
-- An upstream as a configuration declares it.
use elrond.Base.{
  ok, err, ℕ, ◌<◌, ◌≡◌, refl, ap, ◌∙◌, Bool, true, false, none, List, [], ◌∷◌, ◌++◌, append-nil,
  append_assoc, arith, if◌then◌else◌, is_empty, All, Text, codes, text_eq, ◌>>=◌, decimal,
  parse_below-decimal, strip_prefix,
}
use elrond.Balancer.{LbMethod, round_robin, least_conn, ip_hash}
use elrond.Config.Measures.{usize, timed}
use elrond.Config.Measures.Printed.{parse_duration-unit}
use elrond.Config.Parser.{Directives, nil, directive, no_block, cons}
use elrond.Config.Upstream.{
  or_fail, UpstreamServer, server_at, server_arg, server_args, invalid_weight, invalid_max_fails,
  invalid_timeout, Upstream, upstream_directive, upstream_directives, build_upstream, no_servers,
}

-- the flags of a server, then its numbers
abbrev pub server_flags : UpstreamServer → List Text
server_flags s =
    (if s.backup then codes "backup" ∷ [] else []) ++ (if s.down then codes "down" ∷ [] else [])

abbrev pub server_print : UpstreamServer → List Text
server_print s =
    s.addr
    ∷ (codes "weight=" ++ decimal s.weight)
    ∷ (codes "max_fails=" ++ decimal s.max_fails)
    ∷ (codes "fail_timeout=" ++ decimal s.fail_timeout ++ codes "ms")
    ∷ server_flags s

abbrev pub method_print : LbMethod → Directives → Directives
method_print round_robin ds = ds
method_print least_conn ds = cons (directive (codes "least_conn") [] no_block 1) ds
method_print ip_hash ds = cons (directive (codes "ip_hash") [] no_block 1) ds

abbrev pub servers_print : List UpstreamServer → Directives
servers_print [] = nil
servers_print (s ∷ ss) =
    cons (directive (codes "server") (server_print s) no_block 1) (servers_print ss)

-- the numbers of a server fit their types
pub record IsServer (s : UpstreamServer) : Type 0 where
  pub weight_fits : s.weight < 4294967296
  pub max_fails_fits : s.max_fails < 4294967296
  pub timeout_fits : s.fail_timeout < usize

weight-arg :
    (s : UpstreamServer) (n : ℕ)
    → n < 4294967296
    → server_arg s (codes "weight=" ++ decimal n) ≡ ok (record s { weight = n })
unfolding server_arg
weight-arg s n h =
    ap (λ o. or_fail o (invalid_weight (decimal n)) >>= λ m. ok (record s { weight = m }))
      (parse_below-decimal 4294967296 n h)

max_fails-arg :
    (s : UpstreamServer) (n : ℕ)
    → n < 4294967296
    → server_arg s (codes "max_fails=" ++ decimal n) ≡ ok (record s { max_fails = n })
unfolding server_arg
max_fails-arg s n h =
    ap (λ o. or_fail o (invalid_max_fails (decimal n)) >>= λ m. ok (record s { max_fails = m }))
      (parse_below-decimal 4294967296 n h)

timeout-arg :
    (s : UpstreamServer) (n : ℕ)
    → n < usize
    → server_arg s (codes "fail_timeout=" ++ decimal n ++ codes "ms")
      ≡ ok (record s { fail_timeout = n })
unfolding server_arg timed
timeout-arg s n h =
    ap
      (λ o. or_fail o (invalid_timeout (decimal n ++ codes "ms")) >>= λ m.
        ok (record s { fail_timeout = m }))
      (parse_duration-unit n b'm' (codes "s") h (omega arith, (omega arith, tt)))

-- a server of these numbers and flags
abbrev server_of : Text → ℕ → ℕ → ℕ → Bool → Bool → UpstreamServer
server_of a w m t b d = record {
  addr = a;
  weight = w;
  max_fails = m;
  fail_timeout = t;
  backup = b;
  down = d;
}

flags-args :
    (a : Text) (w m t : ℕ) (b d : Bool)
    → server_args (server_of a w m t false false) (server_flags (server_of a w m t b d))
      ≡ ok (server_of a w m t b d)
unfolding server_args server_arg strip_prefix text_eq
flags-args a w m t true true = refl
flags-args a w m t true false = refl
flags-args a w m t false true = refl
flags-args a w m t false false = refl

server_args-cons :
    (s s' : UpstreamServer) (a : Text) (rest : List Text)
    → server_arg s a ≡ ok s'
    → server_args s (a ∷ rest) ≡ server_args s' rest
unfolding server_args
server_args-cons s s' a rest e = ap (λ r. r >>= λ x. server_args x rest) e

-- the arguments behind the address
abbrev server_rest : UpstreamServer → List Text
server_rest s =
    (codes "weight=" ++ decimal s.weight)
    ∷ (codes "max_fails=" ++ decimal s.max_fails)
    ∷ (codes "fail_timeout=" ++ decimal s.fail_timeout ++ codes "ms")
    ∷ server_flags s

server_args-print :
    (s : UpstreamServer) → IsServer s → server_args (server_at s.addr) (server_rest s) ≡ ok s
server_args-print s h =
    let first = weight-arg (server_at s.addr) s.weight h.weight_fits in
    let second =
      max_fails-arg (server_of s.addr s.weight 1 10000 false false) s.max_fails h.max_fails_fits in
    let third =
      timeout-arg (server_of s.addr s.weight s.max_fails 10000 false false) s.fail_timeout
        h.timeout_fits in
    server_args-cons _ _ _ _ first
    ∙ (server_args-cons _ _ _ _ second
        ∙ (server_args-cons _ _ _ _ third
            ∙ flags-args s.addr s.weight s.max_fails s.fail_timeout s.backup s.down))

server-directive :
    (u : Upstream) (s : UpstreamServer)
    → IsServer s
    → upstream_directive u (codes "server") (server_print s)
      ≡ ok (record u { servers = u.servers ++ s ∷ [] })
unfolding upstream_directive text_eq
server-directive u s h =
    ap (λ r. r >>= λ x. ok (record u { servers = u.servers ++ x ∷ [] })) (server_args-print s h)

servers-directives :
    (u : Upstream) (ss : List UpstreamServer)
    → All IsServer ss
    → upstream_directives u (servers_print ss) ≡ ok (record u { servers = u.servers ++ ss })
unfolding upstream_directives
servers-directives u [] h = rw (append-nil u.servers) refl
servers-directives u (s ∷ ss) h =
    ap (λ r. r >>= λ x. upstream_directives x (servers_print ss)) (server-directive u s h.0)
    ∙ (servers-directives (record u { servers = u.servers ++ s ∷ [] }) ss h.1
        ∙ rw (append_assoc u.servers (s ∷ []) ss) refl)

-- An upstream with at least one server, declared by its method and then its servers with all their
-- numbers and flags, is built as it was declared: the method, and the servers in their order.
pub build_upstream-print :
    (name : Text) (m : LbMethod) (s : UpstreamServer) (ss : List UpstreamServer)
    → All IsServer (s ∷ ss)
    → build_upstream name (method_print m (servers_print (s ∷ ss)))
      ≡ ok (record { upstream_name = name; method = m; servers = s ∷ ss; health_check = none })
unfolding build_upstream
build_upstream-print name m s ss h =
    ap (λ r. r >>= λ u. if is_empty u.servers then err no_servers else ok u) (declared m)
  where
    undeclared : LbMethod → Upstream
    undeclared k = record { upstream_name = name; method = k; servers = []; health_check = none }

    declared :
        (k : LbMethod)
        → upstream_directives (undeclared round_robin) (method_print k (servers_print (s ∷ ss)))
          ≡ ok (record { upstream_name = name; method = k; servers = s ∷ ss; health_check = none })
    declared round_robin = servers-directives (undeclared round_robin) (s ∷ ss) h
    declared least_conn = servers-directives (undeclared least_conn) (s ∷ ss) h
    declared ip_hash = servers-directives (undeclared ip_hash) (s ∷ ss) h
