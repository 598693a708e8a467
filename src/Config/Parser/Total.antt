-- ===== src/Config/Parser/Total.antt =====
-- The parser ends on every list of tokens, and accepts only what a tree prints as.
use elrond.Base.{
  Result, ok, err, ℕ, zero, suc, ◌≤◌, ◌<◌, ◌≡◌, refl, ap, ◌∙◌, inl, inr, Bool, true, false, List,
  [], ◌∷◌, arith, length, Text, ◌>>=◌, IfErr,
}
use elrond.Config.Lexer.{Token, token, word, TokKind, open_brace, semicolon, close_brace}
use elrond.Config.Parser.{
  Directives, ParseError, ArgsEnd, read_args, at_semicolon, at_open, Directive, directive, no_block,
  block, cons, parse_block, parse,
}
use elrond.Config.Parser.Kinds.{
  IsMessage, kinds, Accounts, ArgsRead, read_args-ArgsRead, closing, BlockRead, kinds-words,
  kinds-directive, kinds_open,
}
use elrond.Config.Parser.RoundTrip.{unparse, words, unparse_directive, unparse_block}

-- one directive in front of a block that is read
BlockRead-cons :
    (nested : Bool) (d : Directive) (t : Token) (tokens rest : List Token)
    (r : Result ParseError (Directives × List Token))
    → kinds (t ∷ tokens) ≡ kinds (unparse_directive d rest)
    → length rest ≤ length tokens
    → BlockRead nested rest r
    → BlockRead nested (t ∷ tokens) (r >>= λ read. ok (cons d read.0, read.1))
unfolding unparse
BlockRead-cons nested d t tokens rest (ok (ds, end)) k l (h, m, n) =
    (k ∙ kinds-directive d rest (unparse ds (closing nested end)) h, omega arith, n)
BlockRead-cons nested d t tokens rest (err e) k l h = h

module _ (fuel : ℕ)
    (ih : (nested : Bool) (tokens : List Token)
      → length tokens ≤ fuel
      → BlockRead nested tokens (parse_block fuel nested tokens)) where
  -- a directive whose block is read
  block_step :
      (nested : Bool) (name : Text) (args : List Text) (line : ℕ) (tokens rest : List Token)
      (r : Result ParseError (Directives × List Token))
      → kinds tokens ≡ kinds (words 0 args (token open_brace 0 ∷ rest))
      → length rest < length tokens
      → length tokens ≤ fuel
      → BlockRead true rest r
      → BlockRead nested (token (word name) line ∷ tokens) (do
        (b, rest') ← (r >>= λ read. ok (block read.0, read.1))
        (dirs, end) ← parse_block fuel nested rest'
        ok (cons (directive name args b line) dirs, end))
  block_step nested name args line tokens rest (err e) k l m h = h
  block_step nested name args line tokens rest (ok (inner, behind)) k l m h =
      BlockRead-cons nested (directive name args (block inner) line) (token (word name) line) tokens
        behind (parse_block fuel nested behind)
        (unfold unparse_directive in
          ap (◌∷◌ (word name)) (k ∙ kinds_open line args rest inner behind h.0))
        (omega arith) (ih nested behind (omega arith))

  args_step :
      (nested : Bool) (name : Text) (line : ℕ) (tokens : List Token)
      (r : Result ParseError (List Text × ArgsEnd × List Token))
      → read_args line name [] tokens ≡ r
      → ArgsRead [] tokens r
      → length tokens ≤ fuel
      → BlockRead nested
          (token (word name) line ∷ tokens)
          (parse_block (suc fuel) nested (token (word name) line ∷ tokens))
  unfolding parse_block
  args_step nested name line tokens (err e) q a m = rw q a
  args_step nested name line tokens (ok (args, at_semicolon, rest)) q (more, e, k, l) m =
      rw (q, e)
        (BlockRead-cons nested (directive name more no_block line) (token (word name) line) tokens
          rest (parse_block fuel nested rest)
          (unfold unparse_directive unparse_block in
            ap (◌∷◌ (word name)) (
              k
              ∙ kinds-words 0 line more (token semicolon 0 ∷ rest) (token semicolon line ∷ rest)
                  refl))
          (omega arith) (ih nested rest (omega arith)))
  args_step nested name line tokens (ok (args, at_open, rest)) q (more, e, k, l) m =
      rw (q, e)
        (block_step nested name more line tokens rest (parse_block fuel true rest) k l m
          (ih true rest (omega arith)))

  token_step :
      (nested : Bool) (kind : TokKind) (line : ℕ) (tokens : List Token)
      → length tokens ≤ fuel
      → BlockRead nested
          (token kind line ∷ tokens)
          (parse_block (suc fuel) nested (token kind line ∷ tokens))
  token_step nested (word name) line tokens m =
      args_step nested name line tokens (read_args line name [] tokens) refl
        (read_args-ArgsRead line name [] tokens) m
  token_step true close_brace line tokens m =
      unfold parse_block unparse in (refl, omega arith, inl refl)
  token_step false close_brace line tokens m = unfold parse_block in tt
  token_step nested semicolon line tokens m = unfold parse_block in tt
  token_step nested open_brace line tokens m = unfold parse_block in tt

parse_block-BlockRead :
    (fuel : ℕ) (nested : Bool) (tokens : List Token)
    → length tokens ≤ fuel
    → BlockRead nested tokens (parse_block fuel nested tokens)
parse_block-BlockRead fuel true [] l = unfold parse_block in tt
parse_block-BlockRead fuel false [] l = unfold parse_block unparse in (refl, omega arith, inr refl)
parse_block-BlockRead zero nested (t ∷ tokens) l = absurd (omega arith)
parse_block-BlockRead (suc fuel) nested (t ∷ tokens) l =
    token_step fuel (λ n ts m. parse_block-BlockRead fuel n ts m) nested t.kind t.line tokens
      (omega arith)

-- On every list of tokens the parser answers, within its fuel, one of the source's messages or a tree
-- whose print has exactly the kinds of the tokens: all of them are read, and none is made up.
pub parse-Accounts : (tokens : List Token) → Accounts tokens (parse tokens)
parse-Accounts tokens =
    whole (parse_block (length tokens) false tokens) refl
      (parse_block-BlockRead (length tokens) false tokens (omega arith))
  where
    whole :
        (r : Result ParseError (Directives × List Token))
        → parse_block (length tokens) false tokens ≡ r
        → BlockRead false tokens r
        → Accounts tokens (parse tokens)
    whole (ok (ds, rest)) q (k, l, n) =
        let none_left : rest ≡ [] = elim n [ inl e ↦ cc | inr e ↦ e ] in
        unfold parse in rw q (k ∙ ap (λ r. kinds (unparse ds r)) none_left)
    whole (err e) q h = unfold parse in rw q h

pub parse-IsMessage : (tokens : List Token) → IfErr (parse tokens) IsMessage
parse-IsMessage tokens = reported (parse tokens) (parse-Accounts tokens)
  where
    reported : (r : Result ParseError Directives) → Accounts tokens r → IfErr r IsMessage
    reported (ok ds) h = tt
    reported (err e) h = h
