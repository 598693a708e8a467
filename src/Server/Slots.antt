-- ===== src/Server/Slots.antt =====
-- The slots that requests of src/server.rs take from the zones of `limit_conn`.
use elrond.Base.{
  ℕ, ◌≡◌, refl, sym, subst, ap, ◌∙◌, inl, inr, true, false, Option, none, some, arith, Bool-cases,
  if-intro, Text, text_eq, text_eq_iff, text_eq_refl, IsDistinct, count,
}
use elrond.Template.Context.{RequestCtx}
use elrond.Limit.Conn.{try_acquire, drop_guard}
use elrond.Limit.Conn.Guards.{
  try_acquire-IsDistinct, drop_guard-IsDistinct, try_acquire-count, drop_guard-count,
}
use elrond.Template.{render}
use elrond.Router.{route, route, Location}
use elrond.Server.{Env, LocationRt, Request, Shared, LimitApply, set_at, Vhost}
use elrond.Http.{Reply}
use elrond.Limit.Conn.{Zone}
use elrond.Server.Kept.{admit-conn_zones, enforce-conn_zones}
use elrond.Server.Gates.{enforce_conn, enforce, release, dispatch, deny_response}
use elrond.Server.Handle.{
  handle, too_large, full_context, handle, Progress, occupy, leave, enter_location, handle_route,
  too_large, too_large_reply, access_denied, forbidden, pass_rate, refused,
}

module _ (E : Env) where
  abbrev pub AreZones : Shared E → Type 0
  AreZones w = (zone : Text) → IsDistinct (w.conn_zones zone).counts

  -- the zone still holds a key once, and the counter of every key is what it was
  abbrev pub IsSame : Zone → Zone → Type 0
  IsSame z z' = IsDistinct z'.counts × ((key : Text) → count key z'.counts ≡ count key z.counts)

  abbrev pub IsReleased : Shared E → Shared E → Type 0
  IsReleased w w' = (zone : Text) → IsSame (w.conn_zones zone) (w'.conn_zones zone)

  -- a zone, after an acquisition that is denied or whose guard is dropped
  try_acquire-denied :
      (key : Text) (max_conn : ℕ) (z : Zone)
      → IsDistinct z.counts
      → (try_acquire key max_conn z).1 ≡ false
      → IsSame z (try_acquire key max_conn z).0
  try_acquire-denied key max_conn z d n = (
    try_acquire-IsDistinct key max_conn z d,
    λ k. ground (arith, n, try_acquire-count k key max_conn z d),
  )

  try_acquire-dropped :
      (key : Text) (max_conn : ℕ) (z : Zone)
      → IsDistinct z.counts
      → (try_acquire key max_conn z).1 ≡ true
      → IsSame z (drop_guard key (try_acquire key max_conn z).0)
  try_acquire-dropped key max_conn z d y = (
    drop_guard-IsDistinct key _ (try_acquire-IsDistinct key max_conn z d),
    λ k. ground (
      arith,
      y,
      try_acquire-count k key max_conn z d,
      drop_guard-count k key (try_acquire key max_conn z).0,
    ),
  )

  -- a zone replaced by one that is the same
  set_at-IsSame :
      (name zone : Text) (z : Zone) (zones : Text → Zone)
      → ((n : Text) → IsDistinct (zones n).counts)
      → IsSame (zones name) z
      → IsSame (zones zone) (set_at name z zones zone)
  set_at-IsSame name zone z zones d h = elim (Bool-cases (text_eq name zone)) [
    | inl t ↦ rw t (subst (λ n. IsSame (zones n) z) ((text_eq_iff name zone).0 t) h)
    | inr f ↦ rw f (d zone, λ k. refl)
  ]

  set_at-twice :
      (name zone : Text) (z z' : Zone) (zones : Text → Zone)
      → set_at name z' (set_at name z zones) zone ≡ set_at name z' zones zone
  set_at-twice name zone z z' zones = elim (Bool-cases (text_eq name zone)) [
    | inl t ↦ rw t refl
    | inr f ↦ rw f refl
  ]

  set_at-same : (name : Text) (z : Zone) (zones : Text → Zone) → set_at name z zones name ≡ z
  set_at-same name z zones = rw (text_eq_refl name) refl

  released-IsSame :
      (name k zone : Text) (bound : ℕ) (zones g : Text → Zone)
      → ((n : Text) → IsDistinct (zones n).counts)
      → (try_acquire k bound (zones name)).1 ≡ true
      → g ≡ set_at name (try_acquire k bound (zones name)).0 zones
      → IsSame (zones zone) (set_at name (drop_guard k (g name)) g zone)
  released-IsSame name k zone bound zones g d y h =
      let z' = (try_acquire k bound (zones name)).0 in
      let e : set_at name (drop_guard k (g name)) g zone
          ≡ set_at name (drop_guard k z') zones zone =
        ap (λ f. set_at name (drop_guard k (f name)) f zone) h
        ∙ ap (λ z. set_at name (drop_guard k z) (set_at name z' zones) zone)
            (set_at-same name z' zones)
        ∙ set_at-twice name zone z' (drop_guard k z') zones in
      subst (IsSame (zones zone)) (sym e) (
        set_at-IsSame name zone (drop_guard k z') zones d
          (try_acquire-dropped k bound (zones name) (d name) y))

  leave-IsReleased :
      (ctx : RequestCtx) (o : Option LimitApply) (w : Shared E) (inside : Shared E × Progress E)
      → AreZones w
      → inside.0.conn_zones ≡ (enforce_conn E ctx o w).0.conn_zones
      → IsReleased w (leave E (enforce_conn E ctx o w).1 (enforce_conn E ctx o w).0 inside).0
  unfolding enforce_conn release
  leave-IsReleased ctx none w inside d h =
      subst (λ f. (zone : Text) → IsSame (w.conn_zones zone) (f zone)) (sym h)
        (λ zone. (d zone, λ key. refl))
  leave-IsReleased ctx (some apply) w inside d h =
      let k = render ctx apply.key_template in
      let z = w.conn_zones apply.zone in
      elim (Bool-cases (try_acquire k apply.bound z).1) [
        | inl y ↦ rw y (λ zone.
            released-IsSame apply.zone k zone apply.bound w.conn_zones inside.0.conn_zones d y h)
        | inr n ↦ rw n (λ zone.
            set_at-IsSame apply.zone zone _ w.conn_zones d
              (try_acquire-denied k apply.bound z (d apply.zone) n))
      ]

  occupy-IsReleased :
      (ctx : RequestCtx) (loc : LocationRt) (req : Request E) (w : Shared E)
      → AreZones w
      → IsReleased w (occupy E ctx loc req w).0
  unfolding occupy
  occupy-IsReleased ctx loc req w d =
      unfold dispatch in
      leave-IsReleased ctx loc.limit_conn w _ d (admit-conn_zones E ctx loc req _)

  abbrev Released : Shared E → Shared E × Progress E → Type 0
  Released w r = IsReleased w r.0

  pass_rate-IsReleased :
      (ctx : RequestCtx) (loc : LocationRt) (req : Request E) (w : Shared E)
      → AreZones w
      → IsReleased w (pass_rate E ctx loc req w).0
  unfolding pass_rate
  pass_rate-IsReleased ctx loc req w d =
      let w1 = (enforce E ctx loc.limit_req w).0 in
      let kept : IsReleased w w1 =
        subst (λ f. (zone : Text) → IsSame (w.conn_zones zone) (f zone))
          (sym (enforce-conn_zones E ctx loc.limit_req w)) (λ zone. (d zone, λ key. refl)) in
      let inside : IsReleased w (occupy E ctx loc req w1).0 = λ zone.
        let same = occupy-IsReleased ctx loc req w1 (λ n. (kept n).0) zone in
        (same.0, λ key. same.1 key ∙ (kept zone).1 key) in
      if-intro (Released w) (enforce E ctx loc.limit_req w).1 (occupy E ctx loc req w1)
        (w1, refused (deny_response E)) (λ _. inside) (λ _. kept)

  enter_location-IsReleased :
      (ctx : RequestCtx) (loc : LocationRt) (req : Request E) (w : Shared E)
      → AreZones w
      → IsReleased w (enter_location E ctx loc req w).0
  unfolding enter_location
  enter_location-IsReleased ctx loc req w d =
      if-intro (Released w) (access_denied E loc req) (w, refused (forbidden E))
        (pass_rate E ctx loc req w) (λ _. λ zone. (d zone, λ key. refl))
        (λ _. pass_rate-IsReleased ctx loc req w d)

  handle_route-IsReleased :
      (state : Vhost E) (ctx : RequestCtx) (o : Option (Location LocationRt)) (req : Request E)
      (w : Shared E)
      → AreZones w
      → IsReleased w (handle_route E state ctx o req w).0
  unfolding handle_route
  handle_route-IsReleased state ctx none req w d = λ zone. (d zone, λ key. refl)
  handle_route-IsReleased state ctx (some l) req w d =
      enter_location-IsReleased ctx l.action req w d

  -- Whatever becomes of a request, refused at any gate or answered by its action, afterwards every
  -- zone of `limit_conn` holds each key once and counts for every key what it counted before.
  pub handle-IsReleased :
      (state : Vhost E) (req : Request E) (w : Shared E)
      → AreZones w
      → IsReleased w (handle E state req w).0
  unfolding handle
  handle-IsReleased state req w d =
      let ctx = full_context E state req in
      if-intro (λ (r : Shared E × Reply E.H). IsReleased w r.0)
        (too_large E state.client_max_body_size req.headers)
        (w, too_large_reply E state.client_max_body_size)
        (handle_route E state ctx (route E.is_match state.locations req.path) req w)
        (λ _. λ zone. (d zone, λ key. refl))
        (λ _. handle_route-IsReleased state ctx (route E.is_match state.locations req.path) req w d)
