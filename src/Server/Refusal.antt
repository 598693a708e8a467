-- ===== src/Server/Refusal.antt =====
-- A request that a gate of src/server.rs refuses never reaches the action of its location.
use elrond.Base.{
  ◌≡◌, refl, sym, subst, ap, ◌∙◌, ◌⊎◌, inl, inr, Bool, true, false, ◌||◌, Option, none, some, arith,
  Bool-cases, is_some,
}
use elrond.Http.{Reply}
use elrond.Router.{route, Location}
use elrond.Template.Context.{RequestCtx}
use elrond.Server.{Env, ActionRt, LocationRt, Request, Shared, LimitApply, Vhost}
use elrond.Server.Gates.{
  Slot, authorize, authenticate, deny_response, enforce, enforce_conn, release, dispatch, held,
  unasked, full,
}
use elrond.Server.Handle.{
  handle, too_large, full_context, handle_route, Progress, unless, occupy, access_denied, refused,
  admit, leave, pass_rate, forbidden, enter_location, finish,
}

abbrev pub with_action : ActionRt → LocationRt → LocationRt
with_action a loc = record loc { action = a }

not_first : (a b c : Bool) → a ≡ false → (a || b || c) ≡ true → (b || c) ≡ true
not_first a b c f h = ground (arith, f, h)

module _ (E : Env) where
  -- What the actions of locations change: the caches and the balancers.
  pub record IsUntouched (w w' : Shared E) : Type 0 where
    pub stores : w'.stores ≡ w.stores
    pub named : w'.named_balancers ≡ w.named_balancers
    pub direct : w'.direct_balancers ≡ w.direct_balancers

  -- the rules bar the address, or the service does not authorize, or the password is none
  abbrev pub is_barred : RequestCtx → LocationRt → Request E → Bool
  is_barred ctx loc req =
      access_denied E loc req
      || is_some (authorize E ctx loc.auth_request req)
      || is_some (authenticate E loc.auth req)

  unless-twice :
      (o p : Option (Reply E.H)) (w : Shared E)
      → (is_some o || is_some p) ≡ true
      → (r : Reply E.H) × ((later : Shared E × Progress E)
          → unless E o w (unless E p w later) ≡ (w, refused r))
  unless-twice none none w h = absurd cc
  unless-twice none (some r) w h = (r, λ later. refl)
  unless-twice (some r) p w h = (r, λ later. refl)

  -- A way through the gates that ends the same for every action, with nothing touched.
  abbrev IsBarrier : Shared E → (ActionRt → Shared E × Progress E) → Type 0
  IsBarrier w way =
      (r : Reply E.H) × (w' : Shared E) × IsUntouched w w'
      × ((a : ActionRt) → way a ≡ (w', refused r))

  untouched : (w : Shared E) → IsUntouched w w
  untouched w = record { stores = refl; named = refl; direct = refl }

  IsUntouched-trans : {u v w : Shared E} → IsUntouched u v → IsUntouched v w → IsUntouched u w
  IsUntouched-trans h g = record {
    stores = g.stores ∙ h.stores;
    named = g.named ∙ h.named;
    direct = g.direct ∙ h.direct;
  }

  enforce-IsUntouched :
      (ctx : RequestCtx) (o : Option LimitApply) (w : Shared E)
      → IsUntouched w (enforce E ctx o w).0
  unfolding enforce
  enforce-IsUntouched ctx none w = untouched w
  enforce-IsUntouched ctx (some apply) w = record { stores = refl; named = refl; direct = refl }

  enforce_conn-IsUntouched :
      (ctx : RequestCtx) (o : Option LimitApply) (w : Shared E)
      → IsUntouched w (enforce_conn E ctx o w).0
  unfolding enforce_conn
  enforce_conn-IsUntouched ctx none w = untouched w
  enforce_conn-IsUntouched ctx (some apply) w = record {
    stores = refl;
    named = refl;
    direct = refl;
  }

  leave-barred :
      (slot : Slot E) (w w1 w2 : Shared E) (r : Reply E.H)
      → IsUntouched w w1
      → IsUntouched w w2
      → IsBarrier w (λ a. leave E slot w1 (w2, refused r))
  unfolding release
  leave-barred full w w1 w2 r h g = (deny_response E, w1, h, λ a. refl)
  leave-barred unasked w w1 w2 r h g = (r, w2, g, λ a. refl)
  leave-barred (held zone key) w w1 w2 r h g = (
    r,
    release E (held zone key) w2,
    record { stores = g.stores; named = g.named; direct = g.direct },
    λ a. refl,
  )

  -- two steps with the same end
  IsBarrier-eq :
      (w : Shared E) (way way' : ActionRt → Shared E × Progress E)
      → ((a : ActionRt) → way a ≡ way' a)
      → IsBarrier w way'
      → IsBarrier w way
  IsBarrier-eq w way way' e (r, w', u, h) = (r, w', u, λ a. e a ∙ h a)

  occupy-barred :
      (ctx : RequestCtx) (loc : LocationRt) (req : Request E) (w : Shared E)
      → (is_some (authorize E ctx loc.auth_request req) || is_some (authenticate E loc.auth req))
        ≡ true
      → IsBarrier w (λ a. occupy E ctx (with_action a loc) req w)
  unfolding occupy admit
  occupy-barred ctx loc req w h =
      let e = enforce_conn E ctx loc.limit_conn w in
      let u = enforce_conn-IsUntouched ctx loc.limit_conn w in
      let w2 = dispatch E ctx loc.mirrors req.method e.0 in
      let (r, end) = unless-twice _ _ w2 h in
      let u2 : IsUntouched w w2 =
        unfold dispatch in record { stores = u.stores; named = u.named; direct = u.direct } in
      IsBarrier-eq w _ (λ a. leave E e.1 e.0 (w2, refused r)) (λ a. ap (leave E e.1 e.0) (end _))
        (leave-barred e.1 w e.0 w2 r u u2)

  pass_rate-barred :
      (ctx : RequestCtx) (loc : LocationRt) (req : Request E) (w : Shared E)
      → (is_some (authorize E ctx loc.auth_request req) || is_some (authenticate E loc.auth req))
        ≡ true
      → IsBarrier w (λ a. pass_rate E ctx (with_action a loc) req w)
  unfolding pass_rate
  pass_rate-barred ctx loc req w h =
      let u = enforce-IsUntouched ctx loc.limit_req w in
      let w1 = (enforce E ctx loc.limit_req w).0 in
      let (r, w', u', end) = occupy-barred ctx loc req w1 h in
      elim (Bool-cases (enforce E ctx loc.limit_req w).1) [
        | inl t ↦ rw t (r, w', IsUntouched-trans u u', end)
        | inr f ↦ rw f (deny_response E, w1, u, λ a. refl)
      ]

  enter_location-barred :
      (ctx : RequestCtx) (loc : LocationRt) (req : Request E) (w : Shared E)
      → is_barred ctx loc req ≡ true
      → IsBarrier w (λ a. enter_location E ctx (with_action a loc) req w)
  unfolding enter_location
  enter_location-barred ctx loc req w h = elim (Bool-cases (access_denied E loc req)) [
    | inl t ↦ rw t (forbidden E, w, untouched w, λ a. refl)
    | inr f ↦ rw f (pass_rate-barred ctx loc req w (not_first (access_denied E loc req) _ _ f h))
  ]

  -- a location with another action
  abbrev pub acting : ActionRt → Location LocationRt → Location LocationRt
  acting a l = record l { action = with_action a l.action }

  handle_route-barred :
      (state : Vhost E) (ctx : RequestCtx) (l : Location LocationRt) (req : Request E)
      (w : Shared E)
      → is_barred ctx l.action req ≡ true
      → (r : Reply E.H) × (w' : Shared E) × IsUntouched w w'
        × ((a : ActionRt) → handle_route E state ctx (some (acting a l)) req w ≡ (w', r))
  unfolding handle_route finish
  handle_route-barred state ctx l req w h =
      let (r, w', u, end) = enter_location-barred ctx l.action req w h in
      (
        r,
        w',
        u,
        λ a. ap (λ p. (p.0, finish E state ctx (with_action a l.action) req.headers p.1)) (end a),
      )

  -- A request that a location bars, by its rules, by the service that it asks or by its password,
  -- changes no cache and no balancer; and within the bound on bodies it is answered the same, with
  -- the same effects, whatever the action of the location is.
  pub handle-IsBarred :
      (state : Vhost E) (req : Request E) (w : Shared E) (l : Location LocationRt)
      → route E.is_match state.locations req.path ≡ some l
      → is_barred (full_context E state req) l.action req ≡ true
      → IsUntouched w (handle E state req w).0
        × (too_large E state.client_max_body_size req.headers ≡ true
            ⊎ ((a : ActionRt)
                → handle_route E state (full_context E state req) (some (acting a l)) req w
                  ≡ handle E state req w))
  unfolding handle
  handle-IsBarred state req w l found h =
      let ctx = full_context E state req in
      let (r, w', u, end) = handle_route-barred state ctx l req w h in
      let same : handle_route E state ctx (route E.is_match state.locations req.path) req w
          ≡ (w', r) =
        ap (λ o. handle_route E state ctx o req w) found ∙ end l.action.action in
      elim (Bool-cases (too_large E state.client_max_body_size req.headers)) [
        | inl t ↦ rw t (untouched w, inl refl)
        | inr f ↦ rw f (
          subst (λ (p : Shared E × Reply E.H). IsUntouched w p.0) (sym same) u,
          inr (λ a. end a ∙ sym same),
        )
      ]
