-- ===== src/Server/Kept.antt =====
-- The parts of a request's way through src/server.rs that leave the zones of `limit_conn` alone.
use elrond.Base.{◌≡◌, refl, ◌∙◌, Bool, Option, none, some, Text}
use elrond.Template.Context.{RequestCtx}
use elrond.Balancer.{Balancer}
use elrond.Router.Resolve.{Place, named, ephemeral}
use elrond.Server.{
  Env, Target, CacheRt, LocationRt, Request, fixed, dynamic, ActionRt, returns, proxies, serves,
  exposes_metrics, tries_files, Shared, LimitApply,
}
use elrond.Server.Action.{
  resolve_target, put_back, forward_with, proxy, holder, forward_found, forward_to, perform_action,
}
use elrond.Http.{Reply}
use elrond.Server.Gates.{enforce, authorize, authenticate}
use elrond.Server.Handle.{Progress, admit, unless}

module _ (E : Env) where
  put_back-conn_zones :
      (key : Text) (place : Place) (b : Balancer) (w : Shared E)
      → (put_back E key place b w).conn_zones ≡ w.conn_zones
  unfolding put_back
  put_back-conn_zones key (named k) b w = refl
  put_back-conn_zones key (ephemeral k) b w = refl

  forward_with-conn_zones :
      (ctx : RequestCtx) (cache : Option CacheRt) (req : Request E) (key : Text) (place : Place)
      (b : Balancer) (w : Shared E)
      → (forward_with E ctx cache req key place b w).0.conn_zones ≡ w.conn_zones
  unfolding forward_with
  forward_with-conn_zones ctx none req key place b w = put_back-conn_zones key place _ w
  forward_with-conn_zones ctx (some c) req key place b w = put_back-conn_zones key place _ _

  resolve_target-conn_zones :
      (ctx : RequestCtx) (t : Target) (w : Shared E)
      → (resolve_target E ctx t w).0.conn_zones ≡ w.conn_zones
  unfolding resolve_target
  resolve_target-conn_zones ctx (fixed key place) w = refl
  resolve_target-conn_zones ctx (dynamic template key) w = refl

  forward_found-conn_zones :
      (ctx : RequestCtx) (cache : Option CacheRt) (req : Request E) (key : Text) (place : Place)
      (w : Shared E) (o : Option Balancer)
      → (forward_found E ctx cache req key place w o).0.conn_zones ≡ w.conn_zones
  forward_found-conn_zones ctx cache req key place w none = refl
  forward_found-conn_zones ctx cache req key place w (some b) =
      forward_with-conn_zones ctx cache req key place b w

  forward_to-conn_zones :
      (ctx : RequestCtx) (cache : Option CacheRt) (req : Request E) (w : Shared E)
      (found : Option (Text × Place))
      → (forward_to E ctx cache req w found).0.conn_zones ≡ w.conn_zones
  forward_to-conn_zones ctx cache req w none = refl
  forward_to-conn_zones ctx cache req w (some (key, place)) =
      forward_found-conn_zones ctx cache req key place w (holder E w key place)

  perform_action-conn_zones :
      (ctx : RequestCtx) (autoindex : Bool) (action : ActionRt) (req : Request E) (w : Shared E)
      → (perform_action E ctx autoindex action req w).0.conn_zones ≡ w.conn_zones
  unfolding perform_action proxy
  perform_action-conn_zones ctx autoindex (returns status body) req w = refl
  perform_action-conn_zones ctx autoindex (serves root kind) req w = refl
  perform_action-conn_zones ctx autoindex (proxies target cache) req w =
      forward_to-conn_zones ctx cache req (resolve_target E ctx target w).0
        (resolve_target E ctx target w).1
      ∙ resolve_target-conn_zones ctx target w
  perform_action-conn_zones ctx autoindex exposes_metrics req w = refl
  perform_action-conn_zones ctx autoindex (tries_files root entries) req w = refl

  unless-conn_zones :
      (o : Option (Reply E.H)) (w : Shared E) (later : Shared E × Progress E)
      → later.0.conn_zones ≡ w.conn_zones
      → (unless E o w later).0.conn_zones ≡ w.conn_zones
  unless-conn_zones none w later h = h
  unless-conn_zones (some r) w later h = refl

  pub admit-conn_zones :
      (ctx : RequestCtx) (loc : LocationRt) (req : Request E) (w : Shared E)
      → (admit E ctx loc req w).0.conn_zones ≡ w.conn_zones
  unfolding admit
  admit-conn_zones ctx loc req w = unless-conn_zones (authorize E ctx loc.auth_request req) w _ (
      unless-conn_zones (authenticate E loc.auth req) w _
        (perform_action-conn_zones ctx loc.autoindex loc.action req w))

  pub enforce-conn_zones :
      (ctx : RequestCtx) (o : Option LimitApply) (w : Shared E)
      → (enforce E ctx o w).0.conn_zones ≡ w.conn_zones
  unfolding enforce
  enforce-conn_zones ctx none w = refl
  enforce-conn_zones ctx (some apply) w = refl
