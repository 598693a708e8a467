-- ===== src/Config/Parser/RoundTrip.antt =====
-- Trees to tokens and back.
use elrond.Base.{
  ok, ℕ, zero, suc, ◌+◌, ◌-◌, ◌≤◌, ◌≡◌, refl, ◌∙◌, Bool, true, false, List, [], ◌∷◌, ◌++◌,
  append-nil, append_assoc, arith, length, Text,
}
use elrond.Config.Lexer.{Token, token, word, open_brace, close_brace, semicolon}
use elrond.Config.Parser.{
  Directive, Block, Directives, read_args, directive, no_block, block, nil, cons, parse_block,
  parse,
}

abbrev pub words : ℕ → List Text → List Token → List Token
words line [] rest = rest
words line (a ∷ args) rest = token (word a) line ∷ words line args rest

-- The tokens of a tree, in front of those that follow; each on the line of its directive.
unfoldable mutual
  pub unparse_directive : Directive → List Token → List Token
  unparse_directive (directive name args b line) rest =
      token (word name) line ∷ words line args (unparse_block line b rest)

  pub unparse_block : ℕ → Block → List Token → List Token
  unparse_block line no_block rest = token semicolon line ∷ rest
  unparse_block line (block ds) rest =
      token open_brace line ∷ unparse ds (token close_brace line ∷ rest)

  pub unparse : Directives → List Token → List Token
  unparse nil rest = rest
  unparse (cons d ds) rest = unparse_directive d (unparse ds rest)

-- fuel for a tree: one for each directive and each end of a block
mutual
  cost_directive : Directive → ℕ
  cost_directive (directive name args b line) = cost_block b

  cost_block : Block → ℕ
  cost_block no_block = 0
  cost_block (block ds) = suc (cost ds)

  cost : Directives → ℕ
  cost nil = 0
  cost (cons d ds) = suc (cost_directive d + cost ds)

read_args-words :
    (line : ℕ) (name : Text) (done args : List Text) (rest : List Token)
    → read_args line name done (words line args rest) ≡ read_args line name (done ++ args) rest
unfolding read_args
read_args-words line name done [] rest = rw append-nil
read_args-words line name done (a ∷ args) rest =
    read_args-words line name (done ++ a ∷ []) args rest ∙ rw append_assoc

-- Where the directives of a file or of a block end.
abbrev Ends : Bool → List Token → List Token → Type 0
Ends false rest tail = (rest ≡ []) × (tail ≡ [])
Ends true rest tail = (line : ℕ) × (rest ≡ token close_brace line ∷ tail)

parse_block-end :
    (fuel : ℕ) (nested : Bool) (rest tail : List Token)
    → Ends nested rest tail
    → parse_block (suc fuel) nested rest ≡ ok (nil, tail)
unfolding parse_block
parse_block-end fuel false rest tail (e, f) = rw (e, f)
parse_block-end fuel true rest tail (line, e) = rw e

parse_block_leaf :
    (fuel line : ℕ) (nested : Bool) (name : Text) (args : List Text) (rest : List Token)
    {ds : Directives} {tail : List Token}
    → parse_block fuel nested rest ≡ ok (ds, tail)
    → parse_block
        (suc fuel)
        nested
        (token (word name) line ∷ words line args (token semicolon line ∷ rest))
      ≡ ok (cons (directive name args no_block line) ds, tail)
unfolding parse_block
parse_block_leaf fuel line nested name args rest h =
    rw (read_args-words line name [] args (token semicolon line ∷ rest)) (rw h)

parse_block_nested :
    (fuel line : ℕ) (nested : Bool) (name : Text) (args : List Text) (inside rest : List Token)
    {inner ds : Directives} {tail : List Token}
    → parse_block fuel true inside ≡ ok (inner, rest)
    → parse_block fuel nested rest ≡ ok (ds, tail)
    → parse_block
        (suc fuel)
        nested
        (token (word name) line ∷ words line args (token open_brace line ∷ inside))
      ≡ ok (cons (directive name args (block inner) line) ds, tail)
unfolding parse_block
parse_block_nested fuel line nested name args inside rest g h =
    rw (read_args-words line name [] args (token open_brace line ∷ inside)) (rw (g, h))

parse_block-unparse :
    (ds : Directives) (fuel : ℕ) (nested : Bool) (rest tail : List Token)
    → Ends nested rest tail
    → cost ds ≤ fuel
    → parse_block (suc fuel) nested (unparse ds rest) ≡ ok (ds, tail)
unfolding unparse unparse_directive unparse_block cost cost_directive cost_block
parse_block-unparse nil fuel nested rest tail e l = parse_block-end fuel nested rest tail e
parse_block-unparse (cons d ds) zero nested rest tail e l = absurd (omega arith)
parse_block-unparse (cons (directive name args no_block line) ds) (suc fuel) nested rest tail e l =
    parse_block_leaf (suc fuel) line nested name args (unparse ds rest)
      (parse_block-unparse ds fuel nested rest tail e (omega arith))
parse_block-unparse (cons (directive name args (block inner) line) ds) (suc fuel) nested rest tail e
      l =
    parse_block_nested (suc fuel) line nested name args
      (unparse inner (token close_brace line ∷ unparse ds rest)) (unparse ds rest)
      (parse_block-unparse inner fuel true (token close_brace line ∷ unparse ds rest)
        (unparse ds rest) (line, refl) (omega arith))
      (parse_block-unparse ds fuel nested rest tail e (omega arith))

length-words :
    (line : ℕ) (args : List Text) (rest : List Token) → length rest ≤ length (words line args rest)
length-words line [] rest = omega arith
length-words line (a ∷ args) rest = omega (arith, length-words line args rest)

mutual
  unfolding unparse unparse_directive unparse_block cost cost_directive cost_block

  cost_directive-le :
      (d : Directive) (rest : List Token)
      → 2 + cost_directive d + length rest ≤ length (unparse_directive d rest)
  cost_directive-le (directive name args b line) rest =
      omega (arith, length-words line args (unparse_block line b rest), cost_block-le line b rest)

  cost_block-le :
      (line : ℕ) (b : Block) (rest : List Token)
      → 1 + cost_block b + length rest ≤ length (unparse_block line b rest)
  cost_block-le line no_block rest = omega arith
  cost_block-le line (block ds) rest = omega (arith, cost-le ds (token close_brace line ∷ rest))

  cost-le : (ds : Directives) (rest : List Token) → cost ds + length rest ≤ length (unparse ds rest)
  cost-le nil rest = omega arith
  cost-le (cons d ds) rest = omega (arith, cost_directive-le d (unparse ds rest), cost-le ds rest)

cost_cons-lt :
    (d : Directive) (ds : Directives) → suc (cost (cons d ds)) ≤ length (unparse (cons d ds) [])
unfolding unparse cost
cost_cons-lt d ds = omega (arith, cost_directive-le d (unparse ds []), cost-le ds [])

-- Every tree of directives, printed as tokens, parses back to itself, names, arguments, blocks and
-- line numbers included.
pub parse-unparse : (ds : Directives) → parse (unparse ds []) ≡ ok ds
parse-unparse nil = unfold parse unparse in refl
parse-unparse (cons d ds) =
    parse_of_block (unparse (cons d ds) []) (cons d ds) (length (unparse (cons d ds) []) - 1)
      (omega (arith, cost_cons-lt d ds))
      (parse_block-unparse (cons d ds) (length (unparse (cons d ds) []) - 1) false [] []
        (refl, refl) (omega (arith, cost_cons-lt d ds)))
  where
    parse_of_block :
        (tokens : List Token) (tree : Directives) (fuel : ℕ)
        → length tokens ≡ suc fuel
        → parse_block (suc fuel) false tokens ≡ ok (tree, [])
        → parse tokens ≡ ok tree
    parse_of_block tokens tree fuel l h = unfold parse in rw (l, h)
