-- ===== src/Server/Decorate.antt =====
-- The headers that src/server.rs adds to a response of a location: `alt-svc`, then those of
-- `add_header`, then those of `expires`.
use elrond.Base.{
  ℕ, ◌+◌, ◌-◌, ◌^◌, min, ◌≡◌, refl, sym, ap, ◌∙◌, inl, inr, Bool, true, false, ◌&&◌, Option, none,
  some, List, [], ◌∷◌, ◌++◌, if◌then◌else◌, Bool-cases, or_else, or_else_assoc, Text, codes,
  text_eq, decimal,
}
use elrond.HttpDate.{format}
use elrond.Proxy.Headers.{HeaderMapApi, IsHeaderMap, insert_value}
use elrond.Template.{Segment, render}
use elrond.Template.Context.{RequestCtx}

or_else-if :
    {A : Type 0} (b : Bool) (a : A) (o : Option A)
    → (if b then some a else o) ≡ or_else (if b then some a else none) o
or_else-if true a o = refl
or_else-if false a o = refl

module _ (H : HeaderMapApi) where
  unfoldable pub advertise : Text → Option ℕ → H.Map → H.Map
  advertise over none m = m
  advertise over (some port) m =
      if text_eq over (codes "https")
      then insert_value H (codes "alt-svc")
          (codes "h3=\":" ++ (decimal port ++ codes "\"; ma=86400")) m
      else m

  unfoldable pub apply_add_headers : List (Text × List Segment) → RequestCtx → H.Map → H.Map
  apply_add_headers [] ctx m = m
  apply_add_headers ((name, template) ∷ rest) ctx m =
      apply_add_headers rest ctx (insert_value H name (render ctx template) m)

  -- `saturating_add` of the `u64` of the seconds
  abbrev pub saturated : ℕ → ℕ → ℕ
  saturated a b = min (a + b) (2 ^ 64 - 1)

  unfoldable pub apply_expires : Option ℕ → ℕ → H.Map → H.Map
  apply_expires now secs m =
      let aged = insert_value H (codes "cache-control") (codes "max-age=" ++ decimal secs) m in
      elim now [
        | none ↦ aged
        | some n ↦ insert_value H (codes "expires") (format (saturated n secs)) aged
      ]

  unfoldable pub apply_expiry : Option ℕ → Option ℕ → H.Map → H.Map
  unfolding apply_expires
  apply_expiry now none m = m
  apply_expiry now (some secs) m = apply_expires now secs m

  -- What a name is given: the value, if it is one and the name is this one.
  abbrev pub set_to : Text → Text → Text → Option Text
  set_to asked name value = if H.is_value value && text_eq name asked then some value else none

  -- by the last of the headers that gives it one
  abbrev pub last_set : Text → RequestCtx → List (Text × List Segment) → Option Text
  last_set asked ctx [] = none
  last_set asked ctx ((name, template) ∷ rest) =
      or_else (last_set asked ctx rest) (set_to asked name (render ctx template))

  -- by `expires`
  abbrev pub expiry_set : Text → Option ℕ → Option ℕ → Option Text
  expiry_set asked now none = none
  expiry_set asked now (some secs) =
      or_else
        (elim now [
          | none ↦ none
          | some n ↦ set_to asked (codes "expires") (format (saturated n secs))
        ])
        (set_to asked (codes "cache-control") (codes "max-age=" ++ decimal secs))

  -- and by the advertisement of HTTP/3
  abbrev pub advert_set : Text → Text → Option ℕ → Option Text
  advert_set asked over none = none
  advert_set asked over (some port) =
      if text_eq over (codes "https")
      then set_to asked (codes "alt-svc") (codes "h3=\":" ++ (decimal port ++ codes "\"; ma=86400"))
      else none

  module _ (laws : IsHeaderMap H) where
    insert_value-get :
        (asked name value : Text) (m : H.Map)
        → H.get asked (insert_value H name value m)
          ≡ or_else (set_to asked name value) (H.get asked m)
    insert_value-get asked name value m = elim (Bool-cases (H.is_value value)) [
      | inl t ↦ rw t (laws.get-insert name asked value m ∙ or_else-if (text_eq name asked) _ _)
      | inr f ↦ rw f refl
    ]

    apply_add_headers-get :
        (asked : Text) (hs : List (Text × List Segment)) (ctx : RequestCtx) (m : H.Map)
        → H.get asked (apply_add_headers hs ctx m) ≡ or_else (last_set asked ctx hs) (H.get asked m)
    unfolding apply_add_headers
    apply_add_headers-get asked [] ctx m = refl
    apply_add_headers-get asked ((name, t) ∷ hs) ctx m =
        apply_add_headers-get asked hs ctx _
        ∙ ap (or_else (last_set asked ctx hs)) (insert_value-get asked name (render ctx t) m)
        ∙ sym (or_else_assoc (last_set asked ctx hs) _ _)

    apply_expiry-get :
        (asked : Text) (now secs : Option ℕ) (m : H.Map)
        → H.get asked (apply_expiry now secs m)
          ≡ or_else (expiry_set asked now secs) (H.get asked m)
    unfolding apply_expiry apply_expires
    apply_expiry-get asked now none m = refl
    apply_expiry-get asked none (some secs) m = insert_value-get asked _ _ m
    apply_expiry-get asked (some n) (some secs) m =
        insert_value-get asked (codes "expires") (format (saturated n secs)) _
        ∙ ap (or_else (set_to asked (codes "expires") (format (saturated n secs))))
            (insert_value-get asked (codes "cache-control") (codes "max-age=" ++ decimal secs) m)
        ∙ sym (or_else_assoc (set_to asked (codes "expires") (format (saturated n secs))) _ _)

    advertise-get :
        (asked over : Text) (port : Option ℕ) (m : H.Map)
        → H.get asked (advertise over port m) ≡ or_else (advert_set asked over port) (H.get asked m)
    unfolding advertise
    advertise-get asked over none m = refl
    advertise-get asked over (some port) m = elim (Bool-cases (text_eq over (codes "https"))) [
      | inl t ↦ rw t (insert_value-get asked _ _ m)
      | inr f ↦ rw f refl
    ]

    -- A header of the response is the one of `expires` if that gives it a value, or else of the last
    -- `add_header` that does, or else the advertisement of HTTP/3, or else the one that was there.
    pub decorate-get :
        (asked over : Text) (port now secs : Option ℕ) (hs : List (Text × List Segment))
        (ctx : RequestCtx) (m : H.Map)
        → H.get asked (apply_expiry now secs (apply_add_headers hs ctx (advertise over port m)))
          ≡ or_else (expiry_set asked now secs) (
              or_else
                (last_set asked ctx hs)
                (or_else (advert_set asked over port) (H.get asked m)))
    decorate-get asked over port now secs hs ctx m =
        apply_expiry-get asked now secs _
        ∙ ap (or_else (expiry_set asked now secs)) (
            apply_add_headers-get asked hs ctx _
            ∙ ap (or_else (last_set asked ctx hs)) (advertise-get asked over port m))
