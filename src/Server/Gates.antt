-- ===== src/Server/Gates.antt =====
-- What may refuse a request before its location acts: the rate, the connections, the service that
-- authorizes and the password; and the mirrors. src/server.rs, src/limit.rs, src/auth_request.rs
-- and src/mirror.rs. A spawned mirror is noted in the world; its answer is discarded.
use elrond.Base.{
  Bool, true, ◌&&◌, Option, none, some, List, [], ◌∷◌, ◌++◌, map, ltb, leb, if◌then◌else◌,
  unwrap_or, is_empty, Text, codes, decimal, trim,
}
use elrond.Http.{Reply}
use elrond.Template.{render, Segment}
use elrond.Template.Context.{RequestCtx}
use elrond.Limit.Req.{allow}
use elrond.Limit.Conn.{try_acquire, drop_guard}
use elrond.Auth.{check, AuthBasic}
use elrond.Server.{
  Env, Outcome, LimitApply, Request, Shared, set_at, malformed, answered, unsent, late,
}
use elrond.Server.Action.{text_reply}

module _ (E : Env) where
  open E use {H, of_pairs, crypto, floats, limited_at, subrequest}

  -- `deny_response`
  abbrev pub deny_response : Reply H
  deny_response = text_reply E 503 (codes "503 Service Unavailable\n")

  -- `enforce`, of a location that has a rate: whether the request is let in
  unfoldable pub enforce : RequestCtx → Option LimitApply → Shared E → Shared E × Bool
  unfolding render allow
  enforce ctx none w = (w, true)
  enforce ctx (some apply) w =
      let key = render ctx apply.key_template in
      let (zone, allowed) = allow floats limited_at key apply.bound (w.req_zones apply.zone) in
      (record w { req_zones = set_at apply.zone zone w.req_zones }, allowed)

  -- a slot of a zone for a key, none asked for, or none left
  pub data Slot : Type 0 where
    held : Text → Text → Slot
    unasked full : Slot

  -- `enforce_conn`
  unfoldable pub enforce_conn : RequestCtx → Option LimitApply → Shared E → Shared E × Slot
  unfolding render try_acquire
  enforce_conn ctx none w = (w, unasked)
  enforce_conn ctx (some apply) w =
      let key = render ctx apply.key_template in
      let (zone, acquired) = try_acquire key apply.bound (w.conn_zones apply.zone) in
      (
        record w { conn_zones = set_at apply.zone zone w.conn_zones },
        if acquired then held apply.zone key else full,
      )

  -- the guard is dropped
  unfoldable pub release : Slot → Shared E → Shared E
  unfolding drop_guard
  release unasked w = w
  release full w = w
  release (held zone key) w = record w {
    conn_zones = set_at zone (drop_guard key (w.conn_zones zone)) w.conn_zones;
  }

  -- the URLs to which `dispatch` sends the request: those that are not empty
  unfoldable pub mirror_urls : RequestCtx → List (List Segment) → List Text
  unfolding render trim
  mirror_urls ctx [] = []
  mirror_urls ctx (t ∷ ts) =
      let url = trim (render ctx t) in
      let further = mirror_urls ctx ts in if is_empty url then further else url ∷ further

  unfoldable pub dispatch : RequestCtx → List (List Segment) → Text → Shared E → Shared E
  unfolding mirror_urls
  dispatch ctx mirrors method w = record w {
    sent = w.sent ++ map (λ url. (method, url)) (mirror_urls ctx mirrors);
  }

  -- `FORWARDED_HEADERS`, those that the client has sent
  abbrev forwarded : List Text → Request E → List (Text × Text)
  forwarded [] req = []
  forwarded (name ∷ names) req =
      elim (H.get name req.headers) [ none ↦ [] | some v ↦ (name, v) ∷ [] ] ++ forwarded names req

  abbrev header_value : Text → Text
  header_value s = if H.is_value s then s else []

  abbrev subrequest_headers : RequestCtx → Request E → List (Text × Text)
  subrequest_headers ctx req =
      (codes "user-agent", codes "elrond-auth-request")
      ∷ (forwarded (codes "authorization" ∷ codes "cookie" ∷ codes "user-agent" ∷ []) req
          ++ (codes "x-original-uri", header_value (unwrap_or ctx.path_and_query ctx.path))
            ∷ (codes "x-original-method", header_value ctx.method)
            ∷ [])

  -- how the answer of the service, or the lack of one, is taken
  unfoldable pub outcome_of : Text → Outcome → Option (Reply H)
  unfolding decimal
  outcome_of url (malformed why) = some (
      text_reply E 500 (
        codes "auth_request: bad subrequest URL '"
        ++ (url ++ (codes "': " ++ (why ++ codes "\n")))))
  outcome_of url (answered status) =
      if leb 200 status && ltb status 300
      then none
      else some (text_reply E status (decimal status ++ codes " (auth_request denied)\n"))
  outcome_of url unsent =
      some (text_reply E 500 (codes "auth_request: subrequest connect / send error\n"))
  outcome_of url late = some (text_reply E 504 (codes "auth_request: subrequest timed out\n"))

  -- `auth_request::check`: nothing, or the refusal
  unfoldable pub authorize : RequestCtx → Option (List Segment) → Request E → Option (Reply H)
  unfolding render trim outcome_of
  authorize ctx none req = none
  authorize ctx (some template) req =
      let url = trim (render ctx template) in
      if is_empty url
      then some (text_reply E 500 (codes "auth_request: empty URL\n"))
      else outcome_of url (subrequest url (subrequest_headers ctx req))

  -- `auth::check`, where the location has users
  unfoldable pub authenticate : Option AuthBasic → Request E → Option (Reply H)
  unfolding check
  authenticate none req = none
  authenticate (some auth) req = check H of_pairs crypto auth req.headers
