-- ===== src/Config/Args/Zones.antt =====
-- The zones that a configuration declares.
use elrond.Base.{
  ℕ, ◌/◌, ◌≤◌, max, Option, none, some, List, [], ◌∷◌, arith, All-of, option-intro, Text, codes,
  ◌>>=◌, IfOk, IfOk-bind, IfOk->>=, strip_prefix,
}
use elrond.Config.Args.{
  Parsed, name_size, conn_args, parse_limit_conn_zone, or_complain, LimitConnZoneDecl,
  LimitReqZoneDecl, Found, req_args, parse_limit_req_zone, missing_name, missing_rate, invalid_rate,
}

-- what the loops have found holds at least one entry
abbrev IsPositive : Option (Text × ℕ) → Type 0
IsPositive o = All-of o (λ ns. 1 ≤ ns.1)

conn_args-IsPositive :
    (found : Option (Text × ℕ)) (given : List Text)
    → IsPositive found
    → IfOk (conn_args found given) IsPositive
unfolding conn_args
conn_args-IsPositive found [] h = h
conn_args-IsPositive found (a ∷ rest) h =
    option-intro (λ (r : Parsed (Option (Text × ℕ))). IfOk r IsPositive)
      (strip_prefix a (codes "zone=")) _ _ (λ _. conn_args-IsPositive found rest h)
      (λ spec _.
        IfOk->>= IsPositive (name_size spec) _
          (λ ns. conn_args-IsPositive (some (ns.0, max (ns.1 / 16) 1)) rest (omega arith)))

named-IsPositive :
    {B : Type 0} (P : B → Type 0) (found : Option (Text × ℕ)) (f : Text × ℕ → Parsed B)
    → IsPositive found
    → ((ns : Text × ℕ) → 1 ≤ ns.1 → IfOk (f ns) P)
    → IfOk (or_complain found missing_name >>= f) P
named-IsPositive P none f h g = tt
named-IsPositive P (some ns) f h g = g ns h

pub parse_limit_conn_zone-IsPositive :
    (given : List Text) → IfOk (parse_limit_conn_zone given) (λ d. 1 ≤ d.conn_entries)
unfolding parse_limit_conn_zone
parse_limit_conn_zone-IsPositive [] = tt
parse_limit_conn_zone-IsPositive (_ ∷ []) = tt
parse_limit_conn_zone-IsPositive (key ∷ a ∷ rest) =
    IfOk-bind IsPositive (λ (d : LimitConnZoneDecl). 1 ≤ d.conn_entries) (conn_args none (a ∷ rest))
      _ (conn_args-IsPositive none (a ∷ rest) tt)
      (λ found h.
        named-IsPositive (λ (d : LimitConnZoneDecl). 1 ≤ d.conn_entries) found _ h (λ _ k. k))

module _ {R : Type 0} (parse_rate : Text → Option R) where
  req_args-IsPositive :
      (found : Found R) (given : List Text)
      → IsPositive found.0
      → IfOk (req_args parse_rate found given) (λ f. IsPositive f.0)
  unfolding req_args
  req_args-IsPositive found [] h = h
  req_args-IsPositive found (a ∷ rest) h =
      let G : Parsed (Found R) → Type 0 = λ r. IfOk r (λ f. IsPositive f.0) in
      option-intro G (strip_prefix a (codes "zone=")) _ _
        (λ _.
          option-intro G (strip_prefix a (codes "rate=")) _ _
            (λ _. req_args-IsPositive found rest h)
            (λ rs _.
              IfOk->>= (λ (f : Found R). IsPositive f.0)
                (or_complain (parse_rate rs) (invalid_rate rs)) _
                (λ r. req_args-IsPositive (found.0, some r) rest h)))
        (λ spec _.
          IfOk->>= (λ (f : Found R). IsPositive f.0) (name_size spec) _
            (λ ns.
              req_args-IsPositive (some (ns.0, max (ns.1 / 64) 1), found.1) rest (omega arith)))

  pub parse_limit_req_zone-IsPositive :
      (given : List Text) → IfOk (parse_limit_req_zone parse_rate given) (λ d. 1 ≤ d.req_entries)
  unfolding parse_limit_req_zone
  parse_limit_req_zone-IsPositive [] = tt
  parse_limit_req_zone-IsPositive (_ ∷ []) = tt
  parse_limit_req_zone-IsPositive (_ ∷ _ ∷ []) = tt
  parse_limit_req_zone-IsPositive (key ∷ a ∷ b ∷ rest) =
      let P : LimitReqZoneDecl R → Type 0 = λ d. 1 ≤ d.req_entries in
      IfOk-bind (λ (f : Found R). IsPositive f.0) P
        (req_args parse_rate (none, none) (a ∷ b ∷ rest)) _
        (req_args-IsPositive (none, none) (a ∷ b ∷ rest) tt)
        (λ found h.
          named-IsPositive P found.0 _ h
            (λ ns k. IfOk->>= P (or_complain found.1 missing_rate) _ (λ _. k)))

  -- Whatever the arguments, a zone that the configuration declares, for requests or for connections,
  -- has room for at least one entry, also where the size given is less than an entry takes.
  pub zones-IsPositive :
      (given : List Text)
      → IfOk (parse_limit_conn_zone given) (λ d. 1 ≤ d.conn_entries)
        × IfOk (parse_limit_req_zone parse_rate given) (λ d. 1 ≤ d.req_entries)
  zones-IsPositive given =
      (parse_limit_conn_zone-IsPositive given, parse_limit_req_zone-IsPositive given)
