-- ===== src/Router/Host.antt =====
-- `ListenerCfg::pick_state` of src/app.rs: the virtual host of a request by its `Host` header.
use elrond.Base.{
  ℕ, ◌≡◌, refl, sym, ap, ◌∙◌, ◌≢◌, Bool, false, Option, none, some, List, [], ◌∷◌, ◌++◌, arith,
  if◌then◌else◌, All, Text, text_eq, to_ascii_lowercase, split, split-cons,
}

pub record VirtualHost (S : Type 0) : Type 0 where
  pub server_name : Option Text
  pub state : S

abbrev pub first_piece : List Text → Text → Text
first_piece [] h = h
first_piece (p ∷ _) h = p

module _ {S : Type 0} where
  -- `vhosts[0].state`; the index panics on a listener without hosts, which `none` stands for
  abbrev pub default_state : List (VirtualHost S) → Option S
  default_state [] = none
  default_state (v ∷ _) = some v.state

  abbrev pub is_named : Text → VirtualHost S → Bool
  is_named host v = elim v.server_name [
    | none ↦ false
    | some name ↦ text_eq (to_ascii_lowercase name) host
  ]

  abbrev pub first_named : Text → List (VirtualHost S) → Option S
  first_named host [] = none
  first_named host (v ∷ vs) =
      let rest = first_named host vs in if is_named host v then some v.state else rest

  unfoldable pub pick_state : List (VirtualHost S) → Option Text → Option S
  unfolding split text_eq
  pick_state vhosts none = default_state vhosts
  pick_state vhosts (some h) =
      let host = to_ascii_lowercase (first_piece (split b':' h) h) in
      elim (first_named host vhosts) [ none ↦ default_state vhosts | some state ↦ some state ]

split-free : (sep : ℕ) (xs : Text) → All (λ c. c ≢ sep) xs → split sep xs ≡ xs ∷ []
unfolding split
split-free sep [] h = refl
split-free sep (c ∷ cs) h = rw (split-free sep cs h.1) (ground (arith, h.0))

split-sep :
    (sep : ℕ) (xs rest : Text)
    → All (λ c. c ≢ sep) xs
    → split sep (xs ++ sep ∷ rest) ≡ xs ∷ split sep rest
unfolding split
split-sep sep [] rest h = let (p, ps, q) = split-cons sep rest in rw q (ground arith)
split-sep sep (c ∷ cs) rest h = rw (split-sep sep cs rest h.1) (ground (arith, h.0))

module _ {S : Type 0} where
  -- The port of the `Host` header and the case of its letters make no difference: a host name with
  -- a port behind it picks what the same name, in any case and without a port, picks.
  pub pick_state-port :
      (vhosts : List (VirtualHost S)) (host same port : Text)
      → All (λ c. c ≢ b':') host
      → All (λ c. c ≢ b':') same
      → to_ascii_lowercase host ≡ to_ascii_lowercase same
      → pick_state vhosts (some (host ++ b':' ∷ port)) ≡ pick_state vhosts (some same)
  unfolding pick_state
  pick_state-port vhosts host same port h k e =
      ap
        (λ name. elim (first_named name vhosts) [
          | none ↦ default_state vhosts
          | some state ↦ some state
        ])
        (ap (λ ps. to_ascii_lowercase (first_piece ps (host ++ b':' ∷ port)))
            (split-sep b':' host port h)
          ∙ (e
              ∙ sym (ap (λ ps. to_ascii_lowercase (first_piece ps same)) (split-free b':' same k))))
