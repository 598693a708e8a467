-- ===== src/Config/Parser.antt =====
-- src/config/parser.rs: tokens to a tree of directives. The tokens from `pos` on stand for `pos`.
pub mod RoundTrip
pub mod Kinds
pub mod Total
mod Tests
use elrond.Base.{
  Result, ok, err, ℕ, zero, suc, Bool, true, false, List, [], ◌∷◌, ◌++◌, if◌then◌else◌, length,
  Text, ◌>>=◌,
}
use elrond.Config.Lexer.{Token, word, open_brace, close_brace, semicolon}

-- A directive: its name, its arguments, its block, and its line. `Option<Vec<Directive>>` is the
-- type `Block`, since a data type cannot stand in a list of itself.
mutual
  pub data Directive : Type 0 where
    directive : Text → List Text → Block → ℕ → Directive

  pub data Block : Type 0 where
    no_block : Block
    block : Directives → Block

  pub data Directives : Type 0 where
    nil : Directives
    cons : Directive → Directives → Directives

-- The messages, each with its line where it has one; the name is of the directive that is cut off.
pub data ParseError : Type 0 where
  missing_close : ParseError
  unexpected_close unexpected_semicolon unexpected_open : ℕ → ParseError
  expected_end : ℕ → ParseError
  end_in_directive : ℕ → Text → ParseError
  out_of_fuel : ParseError

-- how the arguments of a directive end: at a semicolon, or at the brace that opens its block
pub data ArgsEnd : Type 0 where
  at_semicolon at_open : ArgsEnd

-- the inner loop of `parse_block`, up to the token that ends the arguments
unfoldable pub read_args :
    ℕ → Text → List Text → List Token → Result ParseError (List Text × ArgsEnd × List Token)
read_args line name args [] = err (end_in_directive line name)
read_args line name args (t ∷ tokens) =
    let more = λ (w : Text). read_args line name (args ++ w ∷ []) tokens in
    elim t.kind [
      | word w ↦ more w
      | semicolon ↦ ok (args, at_semicolon, tokens)
      | open_brace ↦ ok (args, at_open, tokens)
      | close_brace ↦ err (expected_end t.line)
    ]

-- `parse_block`, each round of its loop and each block inside on one unit of fuel: the directives
-- read and the tokens behind them.
unfoldable pub parse_block : ℕ → Bool → List Token → Result ParseError (Directives × List Token)
unfolding read_args
parse_block fuel nested [] = if nested then err missing_close else ok (nil, [])
parse_block zero nested (t ∷ tokens) = err out_of_fuel
parse_block (suc fuel) nested (t ∷ tokens) =
    let word_case = λ (name : Text). (do
      (args, ending, rest) ← read_args t.line name [] tokens
      (b, rest') ← elim ending [
        | at_semicolon ↦ ok (no_block, rest)
        | at_open ↦ do (inner, behind) ← parse_block fuel true rest; ok (block inner, behind)
      ]
      (dirs, end) ← parse_block fuel nested rest'
      ok (cons (directive name args b t.line) dirs, end)) in
    elim t.kind [
      | word name ↦ word_case name
      | close_brace ↦ if nested then ok (nil, tokens) else err (unexpected_close t.line)
      | semicolon ↦ err (unexpected_semicolon t.line)
      | open_brace ↦ err (unexpected_open t.line)
    ]

unfoldable pub parse : List Token → Result ParseError Directives
unfolding parse_block
parse tokens = do (dirs, _) ← parse_block (length tokens) false tokens; ok dirs
