-- ===== src/Server/Action.antt =====
-- What a location does, in src/server.rs, once the request is let in.
use elrond.Base.{ℕ, Bool, Option, none, some, [], ◌∷◌, ◌++◌, map, Text, codes, insert}
use elrond.Http.{Reply, get_str}
use elrond.HttpDate.{format}
use elrond.Template.{render}
use elrond.Template.Context.{RequestCtx}
use elrond.Balancer.{Balancer}
use elrond.Cache.{State}
use elrond.Proxy.{
  forward, Upstream, Label, ProxyCache, Answer, unlabelled, miss, skipped, cached, relayed,
  bodiless, bad_gateway,
}
use elrond.Proxy.Headers.{insert_value}
use elrond.Router.Resolve.{resolve, Place, balancer_at, named, ephemeral}
use elrond.Static.Files.{text, Response, Asked}
use elrond.Static.Mime.{mime_for}
use elrond.Static.Serve.{Entry, serve, try_files, at_path, with_status}
use elrond.Server.{
  Env, cache_api, Target, CacheRt, EntryRt, LocationRt, Request, Shared, set_at, fixed, dynamic,
  at_template, at_status, returns, proxies, serves, exposes_metrics, tries_files, ActionRt,
}

-- `x-cache`, by the label of the response
abbrev label_text : Label → Option Text
label_text unlabelled = none
label_text miss = some (codes "MISS")
label_text skipped = some (codes "BYPASS")

module _ (E : Env) where
  open E use {H, of_pairs, get_all, upstream, hash, fs, metrics}

  -- a response whose headers are built in a list
  abbrev pub reply_of : Response → Reply H
  reply_of r = record { status = r.status; headers = of_pairs r.headers; body = some r.body }

  abbrev pub text_reply : ℕ → Text → Reply H
  text_reply status body = reply_of (text status body)

  abbrev mark_cache : Option Text → H.Map → H.Map
  mark_cache none m = m
  mark_cache (some label) m = insert_value H (codes "x-cache") label m

  abbrev U : Upstream (cache_api H get_all)
  U = upstream

  -- `cached_response`, `mark_cache`, and the 502 of `forward`
  unfoldable pub relay : Answer (cache_api H get_all) upstream hash → Reply H
  relay (cached entry) = record {
    status = entry.status;
    headers = of_pairs (entry.headers ++ (codes "x-cache", codes "HIT") ∷ []);
    body = some entry.body;
  }
  relay (relayed resp label) = record {
    status = U.status resp;
    headers = mark_cache (label_text label) (U.headers resp);
    body = U.body resp;
  }
  relay (bodiless resp) = record {
    status = U.status resp;
    headers = U.headers resp;
    body = some [];
  }
  relay bad_gateway = text_reply 502 (codes "502 Bad Gateway\n")

  -- the balancer that a target names
  abbrev pub holder : Shared E → Text → Place → Option Balancer
  holder w key place = balancer_at place w.named_balancers (w.direct_balancers key)

  -- `target.resolve`: the world afterwards, and the balancer's place
  unfoldable pub resolve_target : RequestCtx → Target → Shared E → Shared E × Option (Text × Place)
  unfolding resolve render
  resolve_target ctx (fixed key place) w = (w, some (key, place))
  resolve_target ctx (dynamic template key) w =
      let (direct, found) =
        resolve (render ctx template) w.named_balancers (w.direct_balancers key) in
      (
        record w { direct_balancers = set_at key direct w.direct_balancers },
        elim found [ none ↦ none | some place ↦ some (key, place) ],
      )

  -- the balancer after a request, where it was
  unfoldable pub put_back : Text → Place → Balancer → Shared E → Shared E
  unfolding insert
  put_back key (named k) b w = record w { named_balancers = insert k b w.named_balancers }
  put_back key (ephemeral k) b w = record w {
    direct_balancers = set_at key (insert k b (w.direct_balancers key)) w.direct_balancers;
  }

  -- `proxy_cache` of the location, with the key of this request
  abbrev keyed : RequestCtx → CacheRt → ProxyCache
  keyed ctx c = record {
    key = render ctx c.key_template;
    max_bytes = c.max_bytes;
    valid_rules = c.valid_rules;
  }

  abbrev no_store : State
  no_store = record { entries = []; total_bytes = 0 }

  -- `proxy::forward` on the balancer and on the cache of the location
  unfoldable pub forward_with :
      RequestCtx
      → Option CacheRt
      → Request E
      → Text
      → Place
      → Balancer
      → Shared E
      → Shared E × Reply H
  unfolding forward relay put_back
  forward_with ctx none req key place b w =
      let (_, b', answer) =
        forward (cache_api H get_all) upstream hash none req.method req.headers req.peer no_store
          b in
      (put_back key place b' w, relay answer)
  forward_with ctx (some c) req key place b w =
      let (s', b', answer) =
        forward (cache_api H get_all) upstream hash (some (keyed ctx c)) req.method req.headers
          req.peer (w.stores c.store) b in
      (put_back key place b' (record w { stores = set_at c.store s' w.stores }), relay answer)

  abbrev unresolved : Reply H
  unresolved = text_reply 502 (codes "502 Bad Gateway (empty / unresolvable proxy_pass)\n")

  -- a balancer that is found at a place; a place that a target names has one
  abbrev pub forward_found :
      RequestCtx
      → Option CacheRt
      → Request E
      → Text
      → Place
      → Shared E
      → Option Balancer
      → Shared E × Reply H
  forward_found ctx cache req key place w none = (w, unresolved)
  forward_found ctx cache req key place w (some b) = forward_with ctx cache req key place b w

  -- what a target has resolved to; one that does not resolve is answered 502
  abbrev pub forward_to :
      RequestCtx
      → Option CacheRt
      → Request E
      → Shared E
      → Option (Text × Place)
      → Shared E × Reply H
  forward_to ctx cache req w none = (w, unresolved)
  forward_to ctx cache req w (some (key, place)) =
      forward_found ctx cache req key place w (holder w key place)

  unfoldable pub proxy :
      RequestCtx → Target → Option CacheRt → Request E → Shared E → Shared E × Reply H
  unfolding resolve_target forward_with
  proxy ctx target cache req w =
      let (w', found) = resolve_target ctx target w in forward_to ctx cache req w' found

  abbrev asked_of : Request E → Asked
  asked_of req = record {
    if_none_match = get_str H (codes "if-none-match") req.headers;
    range = get_str H (codes "range") req.headers;
  }

  abbrev rendered : RequestCtx → EntryRt → Entry
  rendered ctx (at_template t) = at_path (render ctx t)
  rendered ctx (at_status code) = with_status code

  abbrev metrics_reply : Reply H
  metrics_reply = record {
    status = 200;
    headers =
        of_pairs ((codes "content-type", codes "text/plain; version=0.0.4; charset=utf-8") ∷ []);
    body = some metrics;
  }

  -- the `match` on the action
  unfoldable pub perform_action :
      RequestCtx → Bool → ActionRt → Request E → Shared E → Shared E × Reply H
  unfolding proxy serve try_files render format mime_for
  perform_action ctx autoindex (returns status body) req w =
      (w, text_reply status (render ctx body))
  perform_action ctx autoindex (serves root kind) req w = (
    w,
    reply_of (serve format mime_for fs root kind req.path (asked_of req) req.method autoindex),
  )
  perform_action ctx autoindex (proxies target cache) req w = proxy ctx target cache req w
  perform_action ctx autoindex exposes_metrics req w = (w, metrics_reply)
  perform_action ctx autoindex (tries_files root entries) req w =
      let tried =
        try_files format mime_for fs root (map (rendered ctx) entries) (asked_of req) req.method in
      (w, reply_of tried)

  abbrev pub perform : RequestCtx → LocationRt → Request E → Shared E → Shared E × Reply H
  perform ctx loc req w = perform_action ctx loc.autoindex loc.action req w
