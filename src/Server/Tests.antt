-- ===== src/Server/Tests.antt =====
-- A virtual host with a barred location and an open one, a world with one request in flight, and the
-- theorems at them.
use elrond.Base.{
  ℕ, ◌+◌, ◌-◌, ◌*◌, ◌/◌, min, ◌≡◌, refl, ◌⊎◌, inl, true, false, none, some, [], ◌∷◌, leb, Text,
  codes, text_eq, decimal, Dict, lookup, insert, remove, lookup-insert, lookup-remove,
}
use elrond.Net.{v4}
use elrond.Proxy.Headers.{HeaderMapApi, IsHeaderMap}
use elrond.Template.{remote_addr, uri, unknown, literal, var}
use elrond.Access.{check, matches, deny, all}
use elrond.Limit.Req.{Float}
use elrond.Limit.Conn.{Zone}
use elrond.Static.Files.{Fs, failed, not_found}
use elrond.Router.{Location, route}
use elrond.Proxy.{Upstream}
use elrond.Server.{
  Env, cache_api, MapDecl, LimitApply, LocationRt, Request, Vhost, Shared, unsent, matching,
  default_rule, returns, ActionRt,
}
use elrond.Server.Vars.{evaluate, described, evaluate-described}
use elrond.Server.Handle.{too_large, handle_route, full_context, handle}
use elrond.Server.Refusal.{IsUntouched, acting, handle-IsBarred}
use elrond.Server.Complete.{complete-get}
use elrond.Server.Action.{text_reply}
use elrond.Server.Handle.{complete}
use elrond.Server.Slots.{IsReleased, handle-IsReleased}

abbrev dict : HeaderMapApi
dict = record {
  Map = Dict Text;
  get = λ k m. lookup k m;
  insert = λ k v m. insert k v m;
  remove = λ k m. remove k m;
  is_value = λ _. true;
  to_str = λ v. some v;
}

dict-IsHeaderMap : IsHeaderMap dict
dict-IsHeaderMap = record {
  get-insert = λ k j v m. lookup-insert k j v m;
  get-remove = λ k j m. lookup-remove k j m;
}

abbrev whole : Float
whole = record {
  Val = ℕ;
  of_ℕ = λ n. n;
  seconds = λ ns. ns / 1000000000;
  add = ◌+◌;
  sub = ◌-◌;
  mul = ◌*◌;
  least = min;
  ge = λ a b. leb b a;
  is_finite = λ _. true;
}

-- no peer answers
abbrev silent : Upstream (cache_api dict (λ _ _. []))
silent = record {
  Response = ℕ;
  status = λ s. s;
  headers = λ _. [];
  pairs = λ _. [];
  body = λ _. some [];
  exchange = λ _ _. none;
  picked_at = λ _. 0;
  ended_at = λ _. 0;
  now = 0;
  stored_at = 0;
}

abbrev no_files : Fs
no_files = record {
  metadata = λ _. failed not_found;
  read = λ _. failed not_found;
  read_range = λ _ _ _. failed not_found;
  listing = λ _ _. none;
}

abbrev env : Env
env = record {
  H = dict;
  of_pairs = λ m. m;
  get_all = λ _ _. [];
  Re = Text;
  is_match = text_eq;
  floats = whole;
  crypto = record {
    decode_base64 = λ s. some s;
    from_utf8 = λ s. some s;
    verify = λ p h. some (text_eq p h);
  };
  upstream = silent;
  hash = λ _. 0;
  gzip_bytes = λ _. none;
  from_utf8_lossy = λ s. s;
  fs = no_files;
  subrequest = λ _ _. unsent;
  metrics = [];
  limited_at = 0;
  now_secs = some 0;
}

abbrev slots : LimitApply
slots = record { zone = codes "slots"; key_template = var remote_addr ∷ []; bound = 2 }

abbrev open_location : LocationRt
open_location = record {
  action = returns 200 (var (unknown (codes "section")) ∷ []);
  add_headers = (codes "x-section", var (unknown (codes "section")) ∷ []) ∷ [];
  expires = some 60;
  gzip = none;
  autoindex = false;
  auth = none;
  limit_req = none;
  limit_conn = some slots;
  access_rules = [];
  auth_request = none;
  mirrors = [];
}

abbrev barred_location : LocationRt
barred_location = record open_location {
  access_rules = record { action = deny; target = all } ∷ [];
}

abbrev barred_at : Location LocationRt
barred_at = record { path = codes "/admin"; action = barred_location }

abbrev section : MapDecl
section = record {
  source = var uri ∷ [];
  output_name = codes "section";
  rules =
      record { pattern = default_rule; value = literal (codes "public") ∷ [] }
      ∷ record { pattern = matching (codes "/admin"); value = literal (codes "private") ∷ [] }
      ∷ [];
}

abbrev state : Vhost env
state = record {
  server_name = none;
  scheme = codes "https";
  gzip = false;
  gzip_types = [];
  gzip_min_length = 20;
  maps = section ∷ [];
  client_max_body_size = 10;
  h3_advertised_port = some 443;
  locations = record {
    exact_locs = barred_at ∷ [];
    regex_locs = [];
    prefix_locs = record { path = codes "/"; action = open_location } ∷ [];
  };
}

abbrev asking : Text → Request env
asking p = record {
  peer = v4 (10 ∷ 0 ∷ 0 ∷ 1 ∷ []);
  peer_text = codes "10.0.0.1";
  method = codes "GET";
  path = p;
  query = none;
  path_and_query = none;
  authority = none;
  headers = [];
}

-- a request of the same address is in flight
abbrev zones : Text → Zone
zones name = record { max_entries = 8; counts = (codes "10.0.0.1", 1) ∷ [] }

abbrev world : Shared env
world = record {
  req_zones = λ _. none;
  conn_zones = zones;
  stores = λ _. record { entries = []; total_bytes = 0 };
  named_balancers = [];
  direct_balancers = λ _. [];
  sent = [];
}

barred_403 : (handle env state (asking (codes "/admin")) world).1.status ≡ 403
unfolding handle matches
barred_403 = refl

open_public : (handle env state (asking (codes "/")) world).1.body ≡ some (codes "public")
unfolding handle
open_public = refl

evaluate-described_example :
    lookup (codes "section") (evaluate env state (asking (codes "/admin")) (section ∷ []) [])
    ≡ some (described env state (asking (codes "/admin")) section [])
unfolding evaluate
evaluate-described_example = evaluate-described env state (asking (codes "/admin")) [] [] section tt

handle-IsReleased_example : IsReleased env world (handle env state (asking (codes "/")) world).0
unfolding lookup
handle-IsReleased_example =
    handle-IsReleased env state (asking (codes "/")) world (λ zone. (refl, tt))

found : route text_eq state.locations (codes "/admin") ≡ some barred_at
unfolding route text_eq
found = refl

handle-IsBarred_example :
    IsUntouched env world (handle env state (asking (codes "/admin")) world).0
    × (too_large env 10 [] ≡ true
        ⊎ ((a : ActionRt)
            → handle_route env state
                (full_context env state (asking (codes "/admin")))
                (some (acting env a barred_at))
                (asking (codes "/admin"))
                world
              ≡ handle env state (asking (codes "/admin")) world))
unfolding matches check
handle-IsBarred_example =
    handle-IsBarred env state (asking (codes "/admin")) world barred_at found refl

-- `expires` wins over an `add_header` of the same name
complete-get_example :
    dict.get
      (codes "cache-control")
      (complete env state
        (full_context env state (asking (codes "/")))
        (record open_location {
          add_headers = (codes "cache-control", literal (codes "no-store") ∷ []) ∷ [];
        })
        []
        (text_reply env 200 (codes "hi"))).headers
    ≡ some (codes "max-age=60")
unfolding decimal text_eq
complete-get_example =
    complete-get env dict-IsHeaderMap state (full_context env state (asking (codes "/")))
      (record open_location {
        add_headers = (codes "cache-control", literal (codes "no-store") ∷ []) ∷ [];
      })
      [] (text_reply env 200 (codes "hi")) (codes "cache-control") (inl refl)
