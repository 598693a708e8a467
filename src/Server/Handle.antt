-- ===== src/Server/Handle.antt =====
-- `handle_listener` and `handle` of src/server.rs: from a request to its response. The metrics and
-- the access log are left out.
use elrond.Base.{
  ℕ, ◌*◌, Bool, true, false, not, ◌&&◌, Option, none, some, List, [], ◌++◌, ltb, if◌then◌else◌,
  unwrap_or, or_else, ◌>>=?◌, is_empty, Text, codes, decimal,
}
use elrond.Http.{Reply, get_str}
use elrond.Access.{check}
use elrond.Gzip.{maybe_compress, content_length}
use elrond.Template.Context.{RequestCtx}
use elrond.Router.{route, Location}
use elrond.Router.Host.{pick_state, VirtualHost}
use elrond.Server.{Env, ActionRt, LocationRt, Request, Vhost, Shared, context_of, proxies}
use elrond.Server.Vars.{evaluate}
use elrond.Server.Decorate.{advertise, apply_add_headers, apply_expiry}
use elrond.Server.Action.{text_reply, perform, perform_action}
use elrond.Server.Gates.{
  enforce, deny_response, enforce_conn, release, dispatch, authorize, authenticate, held, unasked,
  full, Slot,
}

abbrev pub proxy_gzip_max_collect : ℕ
proxy_gzip_max_collect = 256 * 1024

module _ (E : Env) where
  open E use {H, Re, is_match, gzip_bytes, now_secs}

  -- is the length that the request declares over the bound; 0 is no bound
  unfoldable pub too_large : ℕ → H.Map → Bool
  unfolding content_length
  too_large bound headers =
      ltb 0 bound && (elim (content_length H headers) [ none ↦ false | some n ↦ ltb bound n ])

  unfoldable pub too_large_reply : ℕ → Reply H
  unfolding decimal
  too_large_reply bound =
      text_reply E 413
        (codes "413 Request Entity Too Large (limit " ++ (decimal bound ++ codes " bytes)\n"))

  -- A refusal is answered at once; a response of the action is completed.
  pub data Progress : Type 0 where
    refused : Reply H → Progress
    acted : Reply H → Progress

  -- a refusal, where there is one, before what comes next
  abbrev pub unless : Option (Reply H) → Shared E → Shared E × Progress → Shared E × Progress
  unless none w next = next
  unless (some denied) w next = (w, refused denied)

  abbrev pub as_acted : Shared E × Reply H → Shared E × Progress
  as_acted (w, resp) = (w, acted resp)

  -- behind the limits, with the slot held
  unfoldable pub admit : RequestCtx → LocationRt → Request E → Shared E → Shared E × Progress
  unfolding authorize authenticate perform_action
  admit ctx loc req w =
      unless (authorize E ctx loc.auth_request req) w
        (unless (authenticate E loc.auth req) w (as_acted (perform E ctx loc req w)))

  -- with the slot that was asked for; it is released at the end of the arm
  abbrev pub leave : Slot E → Shared E → Shared E × Progress → Shared E × Progress
  leave full w inside = (w, refused (deny_response E))
  leave unasked w inside = inside
  leave (held zone key) w inside = (release E (held zone key) inside.0, inside.1)

  -- behind `limit_req`
  unfoldable pub occupy : RequestCtx → LocationRt → Request E → Shared E → Shared E × Progress
  unfolding enforce_conn admit release dispatch
  occupy ctx loc req w =
      let (w1, slot) = enforce_conn E ctx loc.limit_conn w in
      leave slot w1 (admit ctx loc req (dispatch E ctx loc.mirrors req.method w1))

  abbrev pub access_denied : LocationRt → Request E → Bool
  access_denied loc req = not (is_empty loc.access_rules) && not (check loc.access_rules req.peer)

  abbrev pub forbidden : Reply H
  forbidden = text_reply E 403 (codes "403 Forbidden\n")

  -- behind `allow` and `deny`
  unfoldable pub pass_rate : RequestCtx → LocationRt → Request E → Shared E → Shared E × Progress
  unfolding enforce occupy
  pass_rate ctx loc req w =
      let (w1, allowed) = enforce E ctx loc.limit_req w in
      let inside = occupy ctx loc req w1 in
      if allowed then inside else (w1, refused (deny_response E))

  -- the arm of a location that is found
  unfoldable pub enter_location :
      RequestCtx → LocationRt → Request E → Shared E → Shared E × Progress
  unfolding pass_rate check
  enter_location ctx loc req w =
      let inside = pass_rate ctx loc req w in
      if access_denied loc req then (w, refused forbidden) else inside

  abbrev pub max_collect_of : ActionRt → Option ℕ
  max_collect_of (proxies _ _) = some proxy_gzip_max_collect
  max_collect_of _ = none

  abbrev pub with_headers : Reply H → H.Map → Reply H
  with_headers resp m = record resp { headers = m }

  -- what a location does to its responses
  unfoldable pub complete : Vhost E → RequestCtx → LocationRt → H.Map → Reply H → Reply H
  unfolding advertise apply_add_headers apply_expiry maybe_compress
  complete state ctx loc req_headers resp =
      let advertised = advertise H state.scheme state.h3_advertised_port resp.headers in
      let added = apply_add_headers H loc.add_headers ctx advertised in
      let resp' = with_headers resp (apply_expiry H now_secs loc.expires added) in
      if unwrap_or loc.gzip state.gzip
      then maybe_compress H gzip_bytes resp' req_headers true state.gzip_types
          (max_collect_of loc.action) state.gzip_min_length
      else resp'

  unfoldable pub finish : Vhost E → RequestCtx → LocationRt → H.Map → Progress → Reply H
  unfolding complete
  finish state ctx loc req_headers (refused denied) = denied
  finish state ctx loc req_headers (acted resp) = complete state ctx loc req_headers resp

  unfoldable pub handle_route :
      Vhost E
      → RequestCtx
      → Option (Location LocationRt)
      → Request E
      → Shared E
      → Shared E × Reply H
  unfolding enter_location finish advertise
  handle_route state ctx none req w =
      let missing = text_reply E 404 (codes "404 Not Found\n") in
      (w, with_headers missing (advertise H state.scheme state.h3_advertised_port missing.headers))
  handle_route state ctx (some l) req w =
      let (w', step) = enter_location ctx l.action req w in
      (w', finish state ctx l.action req.headers step)

  -- the context in which the templates of the location are rendered
  abbrev pub full_context : Vhost E → Request E → RequestCtx
  full_context state req = context_of E state req (evaluate E state req state.maps [])

  unfoldable pub handle : Vhost E → Request E → Shared E → Shared E × Reply H
  unfolding too_large too_large_reply evaluate route handle_route
  handle state req w =
      let ctx = full_context state req in
      if too_large state.client_max_body_size req.headers
      then (w, too_large_reply state.client_max_body_size)
      else handle_route state ctx (route is_match state.locations req.path) req w

  -- `handle_listener`; a listener has a virtual host
  abbrev pub host_header : Request E → Option Text
  host_header req = or_else (get_str H (codes "host") req.headers) req.authority

  unfoldable pub handle_listener :
      List (VirtualHost (Vhost E)) → Request E → Shared E → Option (Shared E × Reply H)
  unfolding pick_state handle
  handle_listener vhosts req w =
      pick_state vhosts (host_header req) >>=? λ state. some (handle state req w)
