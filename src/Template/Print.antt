-- ===== src/Template/Print.antt =====
-- A template in which every variable stands in braces, parsed and rendered.
use elrond.Base.{
  ℕ, zero, suc, ◌≤◌, ◌≡◌, refl, ap, ◌∙◌, ◌≢◌, true, false, List, [], ◌∷◌, ◌++◌, append-nil,
  append_assoc, arith, ◌==◌, length, All, length-append, Text, codes,
}
use elrond.Template.{
  Segment, classify, read_braced, read_name, flush, parse_loop, render_var, var, parse_template,
  render, VarRef,
}
use elrond.Template.Context.{RequestCtx}

-- The pieces of a template: a text, and the name of the variable behind it.
abbrev pub print : List (Text × Text) → Text → Text
print [] last = last
print ((l, n) ∷ ps) last = l ++ codes "${" ++ n ++ b'}' ∷ print ps last

-- no text holds a `$`, and no name a closing brace
abbrev pub IsClean : List (Text × Text) → Text → Type 0
IsClean [] last = All (λ c. c ≢ b'$') last
IsClean ((l, n) ∷ ps) last = All (λ c. c ≢ b'$') l × All (λ c. c ≢ b'}') n × IsClean ps last

-- the segments, behind a literal that is being read
abbrev segments_of : Text → List (Text × Text) → Text → List Segment
segments_of lit [] last = flush (lit ++ last)
segments_of lit ((l, n) ∷ ps) last = flush (lit ++ l) ++ var (classify n) ∷ segments_of [] ps last

read_braced-name :
    (acc n rest : Text)
    → All (λ c. c ≢ b'}') n
    → read_braced acc (n ++ b'}' ∷ rest) ≡ (acc ++ n, true, rest)
unfolding read_braced
read_braced-name acc [] rest h = rw (append-nil acc) refl
read_braced-name acc (c ∷ n) rest h =
    let open_still : (c == b'}') ≡ false = ground (arith, h.0) in
    rw open_still
      (read_braced-name (acc ++ c ∷ []) n rest h.1 ∙ rw (append_assoc acc (c ∷ []) n) refl)

parse_loop-plain :
    (fuel c : ℕ) (lit cs : Text)
    → c ≢ b'$'
    → parse_loop (suc fuel) lit (c ∷ cs) ≡ parse_loop fuel (lit ++ c ∷ []) cs
unfolding parse_loop
parse_loop-plain fuel c lit cs h =
    let plain : (c == b'$') ≡ false = ground (arith, h) in rw plain refl

parse_loop-var :
    (fuel : ℕ) (lit n rest : Text)
    → All (λ c. c ≢ b'}') n
    → parse_loop (suc fuel) lit (codes "${" ++ n ++ b'}' ∷ rest)
      ≡ flush lit ++ var (classify n) ∷ parse_loop fuel [] rest
unfolding parse_loop read_name
parse_loop-var fuel lit n rest h = rw (read_braced-name [] n rest h) refl

parse_loop-print :
    (fuel : ℕ) (lit : Text) (ps : List (Text × Text)) (last : Text)
    → length (print ps last) ≤ fuel
    → IsClean ps last
    → parse_loop fuel lit (print ps last) ≡ segments_of lit ps last
parse_loop-print zero lit [] [] le h = unfold parse_loop in rw (append-nil lit) refl
parse_loop-print zero lit [] (c ∷ cs) le h = absurd (omega arith)
parse_loop-print zero lit (([], n) ∷ ps) last le h = absurd (omega arith)
parse_loop-print zero lit ((c ∷ l, n) ∷ ps) last le h = absurd (omega arith)
parse_loop-print (suc fuel) lit [] [] le h = unfold parse_loop in rw (append-nil lit) refl
parse_loop-print (suc fuel) lit [] (c ∷ cs) le h =
    parse_loop-plain fuel c lit cs h.0
    ∙ (parse_loop-print fuel (lit ++ c ∷ []) [] cs (omega arith) h.1
        ∙ ap flush (append_assoc lit (c ∷ []) cs))
parse_loop-print (suc fuel) lit (([], n) ∷ ps) last le h =
    parse_loop-var fuel lit n (print ps last) h.1
    ∙ rw (append-nil lit) (
        ap (λ r. flush lit ++ var (classify n) ∷ r)
          (parse_loop-print fuel [] ps last (omega (arith, length-append n (b'}' ∷ print ps last)))
            h.2))
parse_loop-print (suc fuel) lit ((c ∷ l, n) ∷ ps) last le h =
    parse_loop-plain fuel c lit _ h.0.0
    ∙ (parse_loop-print fuel (lit ++ c ∷ []) ((l, n) ∷ ps) last (omega arith) (h.0.1, h.1, h.2)
        ∙ ap (λ r. flush r ++ var (classify n) ∷ segments_of [] ps last)
            (append_assoc lit (c ∷ []) l))

-- what a template stands for
abbrev pub substituted : RequestCtx → List (Text × Text) → Text → Text
substituted ctx [] last = last
substituted ctx ((l, n) ∷ ps) last = l ++ (render_var ctx (classify n) ++ substituted ctx ps last)

render-flush :
    (ctx : RequestCtx) (l : Text) (segments : List Segment)
    → render ctx (flush l ++ segments) ≡ l ++ render ctx segments
unfolding render
render-flush ctx [] segments = refl
render-flush ctx (c ∷ l) segments = refl

render-var :
    (ctx : RequestCtx) (v : VarRef) (segments : List Segment)
    → render ctx (var v ∷ segments) ≡ render_var ctx v ++ render ctx segments
unfolding render
render-var ctx v segments = refl

render-segments_of :
    (ctx : RequestCtx) (ps : List (Text × Text)) (last : Text)
    → render ctx (segments_of [] ps last) ≡ substituted ctx ps last
render-segments_of ctx [] [] = unfold render in refl
render-segments_of ctx [] (c ∷ cs) = unfold render in append-nil (c ∷ cs)
render-segments_of ctx ((l, n) ∷ ps) last =
    let further = segments_of [] ps last in
    render-flush ctx l (var (classify n) ∷ further)
    ∙ (ap (λ r. l ++ r) (render-var ctx (classify n) further)
        ∙ ap (λ r. l ++ (render_var ctx (classify n) ++ r)) (render-segments_of ctx ps last))

-- A template whose variables stand in braces, and whose texts hold no `$`, renders as its texts with
-- the value of each variable in its place; the parser takes every character, within its fuel.
pub render-parse_template :
    (ctx : RequestCtx) (ps : List (Text × Text)) (last : Text)
    → IsClean ps last
    → render ctx (parse_template (print ps last)) ≡ substituted ctx ps last
unfolding parse_template
render-parse_template ctx ps last h =
    ap (render ctx) (parse_loop-print (length (print ps last)) [] ps last (omega arith) h)
    ∙ render-segments_of ctx ps last
