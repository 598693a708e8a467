-- ===== src/Server.antt =====
-- What src/server.rs works on: a request, a virtual host with its locations, and the state that the
-- requests share. An `Arc` is a key: two locations that name one zone, cache or upstream share it.
pub mod Vars
pub mod Decorate
pub mod Action
pub mod Gates
pub mod Handle
pub mod Complete
pub mod Kept
pub mod Slots
pub mod Refusal
mod Tests
use elrond.Base.{ℕ, Bool, Option, List, if◌then◌else◌, is_some, Text, text_eq, Dict}
use elrond.Net.{IpAddr}
use elrond.Proxy.Headers.{HeaderMapApi}
use elrond.Http.{get_str}
use elrond.Template.{Segment}
use elrond.Template.Context.{RequestCtx}
use elrond.Auth.{Crypto, AuthBasic}
use elrond.Access.{AccessRule}
use elrond.Balancer.{Balancer}
use elrond.Cache.{State, HeaderApi}
use elrond.Proxy.{Upstream}
use elrond.Router.{ServerState}
use elrond.Router.Resolve.{Place}
use elrond.Static.Files.{Fs, StaticKind}
use elrond.Limit.Req.{Float, Zone as ReqZone}
use elrond.Limit.Conn.{Zone as ConnZone}

-- the headers as the cache reads them
abbrev pub cache_api : (H : HeaderMapApi) → (Text → H.Map → List Text) → HeaderApi
cache_api H get_all = record {
  Map = H.Map;
  has = λ name m. is_some (H.get name m);
  get_str = λ name m. get_str H name m;
  all_str = get_all;
}

-- how a request to another service ends: its URL is none, it is answered, or neither in time
pub data Outcome : Type 0 where
  malformed : Text → Outcome
  answered : ℕ → Outcome
  unsent late : Outcome

-- What one request meets outside the repository: other crates, the file system, and the clock.
pub record Env : Type 1 where
  pub H : HeaderMapApi
  pub of_pairs : List (Text × Text) → H.Map
  pub get_all : Text → H.Map → List Text
  pub Re : Type 0
  pub is_match : Re → Text → Bool
  pub floats : Float
  pub crypto : Crypto
  pub upstream : Upstream (cache_api H get_all)
  pub hash : IpAddr → ℕ
  pub gzip_bytes : List ℕ → Option (List ℕ)
  pub from_utf8_lossy : List ℕ → Text
  pub fs : Fs
  pub subrequest : Text → List (Text × Text) → Outcome
  pub metrics : Text  -- what `metrics::render` prints
  pub limited_at : ℕ  -- the instant at which the rate is asked
  pub now_secs : Option ℕ  -- since the epoch, if that is past

-- a rule of a `map`: a literal to match, or the default
pub data MapPattern : Type 0 where
  matching : Text → MapPattern
  default_rule : MapPattern

pub record MapRule : Type 0 where
  pub pattern : MapPattern
  pub value : List Segment

pub record MapDecl : Type 0 where
  pub source : List Segment
  pub output_name : Text
  pub rules : List MapRule

-- a zone by its name, with the template of its keys, and the burst or the cap of the location
pub record LimitApply : Type 0 where
  pub zone : Text
  pub key_template : List Segment
  pub bound : ℕ

-- `ProxyTarget`: the balancer of a fixed one is there; a dynamic one has an ephemeral map
pub data Target : Type 0 where
  fixed : Text → Place → Target
  dynamic : List Segment → Text → Target

pub record CacheRt : Type 0 where
  pub store : Text
  pub max_bytes : ℕ
  pub key_template : List Segment
  pub valid_rules : List (List ℕ × ℕ)

-- `TryFilesEntryRt`
pub data EntryRt : Type 0 where
  at_template : List Segment → EntryRt
  at_status : ℕ → EntryRt

pub data ActionRt : Type 0 where
  returns : ℕ → List Segment → ActionRt
  proxies : Target → Option CacheRt → ActionRt
  serves : Text → StaticKind → ActionRt
  exposes_metrics : ActionRt
  tries_files : Text → List EntryRt → ActionRt

-- `LocationRt` besides its path
pub record LocationRt : Type 0 where
  pub action : ActionRt
  pub add_headers : List (Text × List Segment)
  pub expires : Option ℕ
  pub gzip : Option Bool
  pub autoindex : Bool
  pub auth : Option AuthBasic
  pub limit_req : Option LimitApply
  pub limit_conn : Option LimitApply
  pub access_rules : List AccessRule
  pub auth_request : Option (List Segment)
  pub mirrors : List (List Segment)

module _ (E : Env) where
  open E use {H, Re, floats, from_utf8_lossy}

  pub record Request : Type 0 where
    pub peer : IpAddr
    pub peer_text : Text  -- the address, printed
    pub method : Text
    pub path : Text
    pub query : Option Text
    pub path_and_query : Option Text
    pub authority : Option Text
    pub headers : H.Map

  -- `ServerState` of a virtual host
  pub record Vhost : Type 0 where
    pub server_name : Option Text
    pub scheme : Text
    pub gzip : Bool
    pub gzip_types : List Text
    pub gzip_min_length : ℕ
    pub maps : List MapDecl
    pub client_max_body_size : ℕ
    pub h3_advertised_port : Option ℕ
    pub locations : ServerState Re LocationRt

  -- What requests share: the zones, the caches, the named balancers, and for each dynamic target
  -- the balancers of the addresses met. `sent` are the requests that mirrors have spawned.
  pub record Shared : Type 0 where
    pub req_zones : Text → Option (ReqZone floats)
    pub conn_zones : Text → ConnZone
    pub stores : Text → State
    pub named_balancers : Dict Balancer
    pub direct_balancers : Text → Dict Balancer
    pub sent : List (Text × Text)

  abbrev pub context_of : Vhost → Request → Dict Text → RequestCtx
  context_of state req vars = record {
    peer_ip = req.peer_text;
    name = state.server_name;
    method = req.method;
    path = req.path;
    query = req.query;
    path_and_query = req.path_and_query;
    authority = req.authority;
    client_scheme = state.scheme;
    header = λ name. get_str H name req.headers;
    user_vars = vars;
    from_utf8_lossy = from_utf8_lossy;
  }

-- a shared thing replaced
abbrev pub set_at : {A : Type 0} → Text → A → (Text → A) → Text → A
set_at key a f k = if text_eq key k then a else f k
