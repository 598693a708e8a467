-- ===== src/Config/Parser/Tests.antt =====
-- The tree of a small configuration.
use elrond.Base.{ok, err, ℕ, ◌≡◌, refl, List, [], ◌∷◌, Text, codes}
use elrond.Config.Lexer.{token, word, Token, open_brace, close_brace, semicolon}
use elrond.Config.Parser.Kinds.{Accounts}
use elrond.Config.Parser.RoundTrip.{parse-unparse, unparse}
use elrond.Config.Parser.Total.{parse-Accounts}
use elrond.Config.Parser.{
  parse, Directive, Directives, missing_close, unexpected_close, expected_end, end_in_directive,
  directive, no_block, block, nil, cons,
}

abbrev w : ℕ → Text → Token
w line name = token (word name) line

abbrev leaf : Text → List Text → ℕ → Directive
leaf name args line = directive name args no_block line

abbrev tokens : List Token
tokens =
    w 1 (codes "http")
    ∷ token open_brace 1
    ∷ w 2 (codes "listen")
    ∷ w 2 (codes "80")
    ∷ token semicolon 2
    ∷ token close_brace 3
    ∷ []

abbrev tree : Directives
tree =
    cons
      (directive (codes "http") [] (block (cons (leaf (codes "listen") (codes "80" ∷ []) 2) nil)) 1)
      nil

parse-tokens : parse tokens ≡ ok tree
unfolding parse
parse-tokens = refl

parse_errors :
    (parse (w 4 (codes "a") ∷ token close_brace 5 ∷ []) ≡ err (expected_end 5))
    × (parse (w 4 (codes "a") ∷ []) ≡ err (end_in_directive 4 (codes "a")))
    × (parse (token close_brace 5 ∷ []) ≡ err (unexpected_close 5))
    × (parse (w 4 (codes "a") ∷ token open_brace 4 ∷ []) ≡ err missing_close)
unfolding parse
parse_errors = (refl, refl, refl, refl)

parse-unparse_example : parse (unparse tree []) ≡ ok tree
parse-unparse_example = parse-unparse tree

parse-Accounts_example : Accounts tokens (parse tokens)
parse-Accounts_example = parse-Accounts tokens
