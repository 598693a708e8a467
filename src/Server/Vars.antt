-- ===== src/Server/Vars.antt =====
-- The variables of the `map` blocks, which `handle` of src/server.rs evaluates in their order.
use elrond.Base.{
  ◌≡◌, refl, ap, ◌∙◌, inl, inr, Bool, true, false, Option, none, some, List, [], ◌∷◌, ◌++◌,
  if◌then◌else◌, Bool-cases, or_else, All, Text, text_eq, text_eq_refl, Dict, lookup, insert,
  lookup-insert,
}
use elrond.Template.{render, Segment}
use elrond.Server.{
  context_of, Env, MapRule, MapDecl, Request, Vhost, matching, default_rule, MapPattern,
}

-- the first rule that matches, and the first default
unfoldable pub choose : Text → List MapRule → Option MapRule → Option MapRule
unfolding text_eq
choose source [] fallback = fallback
choose source (r ∷ rules) fallback =
    let kept = choose source rules fallback in
    let defaulted = choose source rules (elim fallback [ none ↦ some r | some d ↦ some d ]) in
    elim r.pattern [
      | matching s ↦ if text_eq s source then some r else kept
      | default_rule ↦ defaulted
    ]

module _ (E : Env) (state : Vhost E) (req : Request E) where
  unfoldable pub value_of : MapDecl → Dict Text → Text
  unfolding choose render
  value_of m vars =
      let stage = context_of E state req vars in
      elim (choose (render stage m.source) m.rules none) [
        | none ↦ []
        | some r ↦ render stage r.value
      ]

  -- the loop over the maps
  unfoldable pub evaluate : List MapDecl → Dict Text → Dict Text
  unfolding value_of insert
  evaluate [] vars = vars
  evaluate (m ∷ maps) vars = evaluate maps (insert m.output_name (value_of m vars) vars)

-- The rule as it is described: the first literal that is the source, or else the first default.
abbrev pub find : {A : Type 0} → (A → Bool) → List A → Option A
find p [] = none
find p (x ∷ xs) = let rest = find p xs in if p x then some x else rest

abbrev pub is_literal : Text → MapRule → Bool
is_literal source r = elim r.pattern [ matching s ↦ text_eq s source | default_rule ↦ false ]

abbrev pub is_default : MapRule → Bool
is_default r = elim r.pattern [ matching s ↦ false | default_rule ↦ true ]

-- what the rules are to choose
abbrev IsChosen : Text → List MapRule → Option MapRule → Type 0
IsChosen source rules fallback =
    choose source rules fallback
    ≡ or_else (find (is_literal source) rules) (or_else fallback (find is_default rules))

choose-rule :
    (source : Text) (p : MapPattern) (v : List Segment) (rules : List MapRule)
    (fallback : Option MapRule)
    → ((o : Option MapRule) → IsChosen source rules o)
    → IsChosen source (record { pattern = p; value = v } ∷ rules) fallback
unfolding choose
choose-rule source (matching s) v rules fallback ih = elim (Bool-cases (text_eq s source)) [
  | inl t ↦ rw t refl
  | inr f ↦ rw f (ih fallback)
]
choose-rule source default_rule v rules none ih = ih (some _)
choose-rule source default_rule v rules (some d) ih = ih (some d)

choose-find :
    (source : Text) (rules : List MapRule) (fallback : Option MapRule)
    → IsChosen source rules fallback
unfolding choose
choose-find source [] none = refl
choose-find source [] (some d) = refl
choose-find source (r ∷ rules) fallback =
    choose-rule source r.pattern r.value rules fallback (choose-find source rules)

module _ (E : Env) (state : Vhost E) (req : Request E) where
  -- what a map is described to give, where the variables are these
  abbrev pub described : MapDecl → Dict Text → Text
  described m vars =
      let stage = context_of E state req vars in
      elim (or_else (find (is_literal (render stage m.source)) m.rules) (find is_default m.rules)) [
        | none ↦ []
        | some r ↦ render stage r.value
      ]

  value_of-described :
      (m : MapDecl) (vars : Dict Text) → value_of E state req m vars ≡ described m vars
  unfolding value_of
  value_of-described m vars =
      ap (λ o. elim o [ none ↦ [] | some r ↦ render (context_of E state req vars) r.value ])
        (choose-find (render (context_of E state req vars) m.source) m.rules none)

  evaluate-append :
      (earlier later : List MapDecl) (vars : Dict Text)
      → evaluate E state req (earlier ++ later) vars
        ≡ evaluate E state req later (evaluate E state req earlier vars)
  unfolding evaluate
  evaluate-append [] later vars = refl
  evaluate-append (m ∷ earlier) later vars = evaluate-append earlier later _

  -- maps of other names leave a variable alone
  evaluate-others :
      (maps : List MapDecl) (name : Text) (vars : Dict Text)
      → All (λ m. text_eq m.output_name name ≡ false) maps
      → lookup name (evaluate E state req maps vars) ≡ lookup name vars
  unfolding evaluate
  evaluate-others [] name vars h = refl
  evaluate-others (m ∷ maps) name vars h =
      evaluate-others maps name _ h.1 ∙ lookup-insert m.output_name name _ vars ∙ rw h.0 refl

  -- The variable of a map that no later one overwrites has the value of the first literal that is
  -- the rendered source, or else of the first default, or else the empty text. The source and the
  -- value are both rendered where the variables are those of the maps before it.
  pub evaluate-described :
      (earlier later : List MapDecl) (m : MapDecl)
      → All (λ n. text_eq n.output_name m.output_name ≡ false) later
      → lookup m.output_name (evaluate E state req (earlier ++ m ∷ later) [])
        ≡ some (described m (evaluate E state req earlier []))
  evaluate-described earlier later m h =
      ap (lookup m.output_name) (evaluate-append earlier (m ∷ later) [])
      ∙ unfold evaluate in
        evaluate-others later m.output_name _ h
        ∙ lookup-insert m.output_name m.output_name _ _
        ∙ rw (text_eq_refl m.output_name)
            (ap some (value_of-described m (evaluate E state req earlier [])))
