-- ===== src/Config/Parser/Kinds.antt =====
-- What the parser has read, by the kinds of the tokens, and what it leaves.
use elrond.Base.{
  Result, ok, err, ℕ, ◌≤◌, ◌<◌, ◌≡◌, refl, sym, ap, ◌∙◌, ◌⊎◌, Bool, true, false, List, [], ◌∷◌,
  ◌++◌, append-nil, append_assoc, arith, length, Text,
}
use elrond.Config.Lexer.{Token, token, word, TokKind, open_brace, semicolon, close_brace}
use elrond.Config.Parser.{
  Directives, ParseError, ArgsEnd, read_args, at_semicolon, at_open, Directive, Block, directive,
  no_block, block, nil, cons,
}
use elrond.Config.Parser.RoundTrip.{unparse, words, unparse_directive, unparse_block}

abbrev pub kinds : List Token → List TokKind
kinds [] = []
kinds (t ∷ tokens) = t.kind ∷ kinds tokens

-- a message of the source, which the end of the fuel is not
abbrev pub IsMessage : ParseError → Type 0
IsMessage ParseError.out_of_fuel = ⊥
IsMessage _ = Unit

-- The result of a parse: a tree whose print has the kinds of the tokens read, or a message.
abbrev pub Accounts : List Token → Result ParseError Directives → Type 0
Accounts tokens (ok ds) = kinds tokens ≡ kinds (unparse ds [])
Accounts tokens (err e) = IsMessage e

abbrev pub end_token : ArgsEnd → Token
end_token at_semicolon = token semicolon 0
end_token at_open = token open_brace 0

-- what `read_args` has read, and what is left
abbrev pub ArgsRead :
    List Text → List Token → Result ParseError (List Text × ArgsEnd × List Token) → Type 0
ArgsRead args tokens (ok (args', ending, rest)) =
    (more : List Text) × (args' ≡ args ++ more)
    × (kinds tokens ≡ kinds (words 0 more (end_token ending ∷ rest)))
    × (length rest < length tokens)
ArgsRead args tokens (err e) = IsMessage e

args_word :
    (args : List Text) (line : ℕ) (w : Text) (tokens : List Token)
    (r : Result ParseError (List Text × ArgsEnd × List Token))
    → ArgsRead (args ++ w ∷ []) tokens r
    → ArgsRead args (token (word w) line ∷ tokens) r
args_word args line w tokens (ok (args', ending, rest)) (more, e, k, l) =
    (w ∷ more, e ∙ append_assoc args (w ∷ []) more, ap (◌∷◌ (word w)) k, omega arith)
args_word args line w tokens (err e) h = h

read_args_step :
    (line : ℕ) (name : Text) (args : List Text) (kind : TokKind) (l : ℕ) (tokens : List Token)
    → ((w : Text) → ArgsRead (args ++ w ∷ []) tokens (read_args line name (args ++ w ∷ []) tokens))
    → ArgsRead args (token kind l ∷ tokens) (read_args line name args (token kind l ∷ tokens))
unfolding read_args
read_args_step line name args (word w) l tokens ih = args_word args l w tokens _ (ih w)
read_args_step line name args semicolon l tokens ih = ([], sym (append-nil args), refl, omega arith)
read_args_step line name args open_brace l tokens ih =
    ([], sym (append-nil args), refl, omega arith)
read_args_step line name args close_brace l tokens ih = tt

pub read_args-ArgsRead :
    (line : ℕ) (name : Text) (args : List Text) (tokens : List Token)
    → ArgsRead args tokens (read_args line name args tokens)
read_args-ArgsRead line name args [] = unfold read_args in tt
read_args-ArgsRead line name args (t ∷ tokens) =
    read_args_step line name args t.kind t.line tokens
      (λ w. read_args-ArgsRead line name (args ++ w ∷ []) tokens)

-- the tokens behind what was read, and the brace that closes it
abbrev pub closing : Bool → List Token → List Token
closing true rest = token close_brace 0 ∷ rest
closing false rest = rest

abbrev pub BlockRead : Bool → List Token → Result ParseError (Directives × List Token) → Type 0
BlockRead nested tokens (ok (ds, rest)) =
    (kinds tokens ≡ kinds (unparse ds (closing nested rest)))
    × (length rest ≤ length tokens)
    × ((nested ≡ true) ⊎ (rest ≡ []))
BlockRead nested tokens (err e) = IsMessage e

-- the kinds of a print do not depend on the lines
pub kinds-words :
    (l m : ℕ) (args : List Text) (r s : List Token)
    → kinds r ≡ kinds s
    → kinds (words l args r) ≡ kinds (words m args s)
kinds-words l m [] r s e = e
kinds-words l m (a ∷ args) r s e = ap (◌∷◌ (word a)) (kinds-words l m args r s e)

mutual
  unfolding unparse unparse_directive unparse_block

  pub kinds-directive :
      (d : Directive) (r s : List Token)
      → kinds r ≡ kinds s
      → kinds (unparse_directive d r) ≡ kinds (unparse_directive d s)
  kinds-directive (directive name args b line) r s e = ap (◌∷◌ (word name)) (
      kinds-words line line args (unparse_block line b r) (unparse_block line b s)
        (kinds-block line b r s e))

  pub kinds-block :
      (line : ℕ) (b : Block) (r s : List Token)
      → kinds r ≡ kinds s
      → kinds (unparse_block line b r) ≡ kinds (unparse_block line b s)
  kinds-block line no_block r s e = ap (◌∷◌ semicolon) e
  kinds-block line (block ds) r s e = ap (◌∷◌ open_brace) (
      kinds-unparse ds (token close_brace line ∷ r) (token close_brace line ∷ s)
        (ap (◌∷◌ close_brace) e))

  pub kinds-unparse :
      (ds : Directives) (r s : List Token)
      → kinds r ≡ kinds s
      → kinds (unparse ds r) ≡ kinds (unparse ds s)
  kinds-unparse nil r s e = e
  kinds-unparse (cons d ds) r s e =
      kinds-directive d (unparse ds r) (unparse ds s) (kinds-unparse ds r s e)

pub kinds_open :
    (line : ℕ) (args : List Text) (rest : List Token) (inner : Directives) (behind : List Token)
    → kinds rest ≡ kinds (unparse inner (token close_brace 0 ∷ behind))
    → kinds (words 0 args (token open_brace 0 ∷ rest))
      ≡ kinds (words line args (unparse_block line (block inner) behind))
unfolding unparse_block
kinds_open line args rest inner behind e =
    kinds-words 0 line args (token open_brace 0 ∷ rest)
      (token open_brace line ∷ unparse inner (token close_brace line ∷ behind))
      (ap (◌∷◌ open_brace) (
        e
        ∙ kinds-unparse inner (token close_brace 0 ∷ behind) (token close_brace line ∷ behind)
            refl))
