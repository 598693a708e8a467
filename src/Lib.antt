-- ===== src/Lib.antt =====
-- Elrond is a web server and reverse proxy in the style of nginx: a configuration text becomes
-- tokens, a tree of directives and a runtime; a request is given to a virtual host and a location,
-- passes the location's checks, and is answered by a file, by the cache, or by a peer of an upstream.
-- The paths are those of the repository.
--
-- Base      the shared types: texts as lists of code points, `Result`, maps as lists of entries in
--           the order in which they are walked, decimal numbers, the lists and tests on native numbers
-- Net       the addresses of `std::net`
-- Config    src/config/lexer.rs (Lexer: `lex`) and src/config/parser.rs (Parser: `parse`,
--           `parse_block`), each with its printer for the round trip, and the argument parsers of
--           src/config/build.rs (Measures for sizes and durations, Args for directives) with its
--           blocks, which become the records of src/config/ast.rs: `build_upstream` (Upstream),
--           `build_location` (Location), `build_server` (Server), `build_http` and
--           `build_stream` (Http), and `build` over them (Main); and src/config/mod.rs, `load` and
--           `expand_includes` (Include)
-- Template  src/template.rs and src/request_ctx.rs: `Template::parse`, `render`, and `RequestCtx`
-- Peer      src/app.rs, `Peer` and `InflightGuard`: `is_available`, `record_success`,
--           `record_failure`, `enter` and the drop of the guard
-- Health    src/health.rs: `probe_once`, and the probes that `start` spawns over the peers
-- Balancer  src/app.rs, `Balancer`: `pick_inner` over the primary and the backup pool,
--           `pick_weighted_rr`, `pick_least_conn`, `pick_ip_hash`
-- Router    src/app.rs: `ServerState::route` with the locations that `build` sorts (Route),
--           `ListenerCfg::pick_state` (Host), the listeners and the balancers that `build`
--           makes (Listeners, Upstreams), `ProxyTarget::resolve` and `resolve_proxy` (Resolve)
-- Access    src/access.rs: `matches`, `cidr_match`, `mask_match`, `check`; `parse_target` (Target)
-- Limit     src/limit.rs: the token buckets of `LimitReqZone` (Req) and the counters and guards of
--           `LimitConnZone` (Conn)
-- Cache     src/cache.rs: `CacheStore::get` and `put`, `build_signature`, `parse_vary`,
--           `decide_caching`
-- Proxy     src/proxy.rs: `forward` with its retries over Peer, Balancer and Cache,
--           `forward_once_with_incoming`, `maybe_cache`, and the request headers (Headers, Outbound)
-- Static    src/static_files.rs: `serve` and `try_files` (Files, Serve), the ranges (Range), the
--           escapes and encodings of a listing (Escape, with `percent_decode` of src/request_ctx.rs)
-- Http      the responses that the handlers pass on, over hyper's header map
-- Gzip      src/gzip.rs: `maybe_compress` with its tests
-- Auth      src/auth.rs: the htpasswd file (`load`, `parse_htpasswd`) and `check`
-- Server    src/server.rs, which puts the parts together: `handle_listener` and `handle` (Handle), the
--           maps (Vars), the checks of a location with `enforce` and `enforce_conn` of src/limit.rs,
--           `check` of src/auth_request.rs and `dispatch` of src/mirror.rs (Gates), the actions over
--           Static and Proxy (Action), and the end of the response (Decorate, Complete)
-- HttpDate  src/http_date.rs: `format`, `days_to_date`
--
-- Machine integers wrap where the source's do; a bound that keeps them from it is a hypothesis.
-- Each module that keeps state behind a lock is modelled by what the lock guards, one locked
-- section a step. Where a loop of the source is on fuel here, the caller gives it the length of
-- the input (the lexer, the parser, the templates), the number itself where it prints one, a bound
-- on the years of a date, the number of cached variants (the evictions of `put`), or the number of
-- files (the depth of includes), and the results say that this is enough.
--
-- The state that requests share is a record whose fields are functions or maps: an `Arc` of the source
-- is a key, and two locations that name one zone, cache or upstream share what stands under it.
--
-- Parameters: the standard hasher, `f64`, the parser of socket addresses, the regexes, hyper's
-- header map and client, base64, bcrypt and the encoder of flate2, the clock and the file system.
-- Their hypotheses (exact small integers of `f64`, a header map that gives back what was put in,
-- an encoder that has an inverse) are records or section parameters beside the code that needs
-- them.
--
-- Not modelled: the sockets and the stream proxy that copies between them, TLS and HTTP/3, the
-- process and its signals, the metrics and the log, what a spawned mirror sends, the timer of the
-- health checks, and as yet the rest of `build` in src/app.rs: the locations with their zones,
-- headers and certificates.
pub mod Base
pub mod Peer
pub mod Auth
pub mod Balancer
pub mod Net
pub mod Access
pub mod Config
pub mod Http
pub mod Health
pub mod Gzip
pub mod HttpDate
pub mod Limit
pub mod Cache
pub mod Proxy
pub mod Router
pub mod Server
pub mod Static
pub mod Template
