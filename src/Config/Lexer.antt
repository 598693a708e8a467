-- ===== src/Config/Lexer.antt =====
-- src/config/lexer.rs. A `char` is its code point; the rest of the input stands for the iterator.
pub mod Total
pub mod Print
pub mod RoundTrip
mod Tests
use elrond.Base.{
  Result, ok, err, zero, suc, ◌+◌, Bool, ◌||◌, Option, none, some, List, [], ◌∷◌, ◌++◌, ◌==◌,
  if◌then◌else◌, length, Text, is_whitespace,
}
use Prim.Native.Nat.{ℕ}

-- `Word` holds a bareword or a quoted string, with quotes and escapes resolved.
pub data TokKind : Type 0 where
  word : Text → TokKind
  open_brace close_brace semicolon : TokKind

pub record Token : Type 0 where
  pub kind : TokKind
  pub line : ℕ

-- The one message of the lexer, with its line; and the end of the fuel, which is never met.
pub data LexError : Type 0 where
  unterminated_string : ℕ → LexError
  out_of_fuel : LexError

-- a character that ends a bareword
unfoldable pub is_delimiter : ℕ → Bool
unfolding is_whitespace
is_delimiter c = is_whitespace c || c == b'{' || c == b'}' || c == b';' || c == b'#'

-- `#`: up to the newline, which is left
unfoldable pub skip_comment : Text → Text
skip_comment [] = []
skip_comment (c ∷ cs) = let rest = skip_comment cs in if c == b'\n' then c ∷ cs else rest

-- a bareword: `s` with what is read behind it, and the rest
unfoldable pub read_word : Text → Text → Text × Text
read_word s [] = (s, [])
read_word s (c ∷ cs) =
    let more = read_word (s ++ c ∷ []) cs in if is_delimiter c then (s, c ∷ cs) else more

-- what a backslash and a character stand for
unfoldable pub unescape : ℕ → ℕ
unescape c =
    if c == b'n' then b'\n' else if c == b't' then b'\t' else if c == b'r' then b'\r' else c

-- Behind the opening quote: the string, the line at its end and the rest. `none` at the end of the
-- input. A newline counts only where no backslash stands before it.
unfoldable pub read_quoted : ℕ → ℕ → Text → Text → Option (Text × ℕ × Text)
unfolding unescape
read_quoted quote line s [] = none
read_quoted quote line s (c ∷ []) = if c == quote then some (s, line, []) else none
read_quoted quote line s (c ∷ d ∷ cs) =
    let escaped = read_quoted quote line (s ++ unescape d ∷ []) cs in
    let newline = read_quoted quote (line + 1) (s ++ c ∷ []) (d ∷ cs) in
    let plain = read_quoted quote line (s ++ c ∷ []) (d ∷ cs) in
    if c == quote
    then some (s, line, d ∷ cs)
    else if c == b'\\'
    then escaped
    else if c == b'\n'
    then newline
    else plain

abbrev pub token : TokKind → ℕ → Token
token kind line = record { kind = kind; line = line }

-- One round of the loop per unit of fuel.
unfoldable pub lex_loop : ℕ → ℕ → List Token → Text → Result LexError (List Token)
lex_loop fuel line tokens [] = ok tokens
lex_loop zero line tokens (c ∷ cs) = err out_of_fuel
lex_loop (suc fuel) line tokens (c ∷ cs) =
    let newline = lex_loop fuel (line + 1) tokens cs in
    let space = lex_loop fuel line tokens cs in
    let comment = lex_loop fuel line tokens (skip_comment (c ∷ cs)) in
    let punctuation = λ (kind : TokKind). lex_loop fuel line (tokens ++ token kind line ∷ []) cs in
    let quoted : Result LexError (List Token) = elim (read_quoted c line [] cs) [
      | none ↦ err (unterminated_string line)
      | some (s, line', rest) ↦ lex_loop fuel line' (tokens ++ token (word s) line ∷ []) rest
    ] in
    let bareword =
      λ (read : Text × Text). lex_loop fuel line (tokens ++ token (word read.0) line ∷ []) read.1 in
    if c == b'\n'
    then newline
    else if is_whitespace c
    then space
    else if c == b'#'
    then comment
    else if c == b'{'
    then punctuation open_brace
    else if c == b'}'
    then punctuation close_brace
    else if c == b';'
    then punctuation semicolon
    else if c == b'"' || c == b'\''
    then quoted
    else bareword (read_word [] (c ∷ cs))

unfoldable pub lex : Text → Result LexError (List Token)
unfolding lex_loop skip_comment read_word read_quoted is_delimiter
lex input = lex_loop (length input) 1 [] input
