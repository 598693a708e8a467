-- ===== src/Config/Lexer/Total.antt =====
-- The lexer ends on every input, and its line numbers are lines of the input.
use elrond.Base.{
  Result, ok, err, ℕ, zero, suc, ◌+◌, ◌≤◌, ◌≡◌, true, false, ◌||◌, Option, none, some, List, [],
  ◌∷◌, ◌++◌, arith, ◌==◌, if◌then◌else◌, if-intro, option-intro, length, All, All-append, Text,
  IfErr, is_whitespace,
}
use elrond.Config.Lexer.{
  Token, lex, LexError, is_delimiter, skip_comment, read_word, read_quoted, lex_loop,
  unterminated_string, out_of_fuel, TokKind, unescape, token, open_brace, close_brace, semicolon,
  word,
}

abbrev pub newlines : Text → ℕ
newlines [] = 0
newlines (c ∷ cs) = (if c == b'\n' then 1 else 0) + newlines cs

-- Every token, or the error, is on a line up to `n`; and the fuel has not run out.
abbrev pub EndsBy : ℕ → Result LexError (List Token) → Type 0
EndsBy n (ok tokens) = All (λ t. t.line ≤ n) tokens
EndsBy n (err (unterminated_string l)) = l ≤ n
EndsBy n (err out_of_fuel) = ⊥

-- what is left is no longer than `cs`, and holds no more newlines
record IsRest (rest cs : Text) : Type 0 where
  shorter : length rest ≤ length cs
  fewer : newlines rest ≤ newlines cs

skip_comment-IsRest : (cs : Text) → IsRest (skip_comment cs) cs
unfolding skip_comment
skip_comment-IsRest [] = omega arith
skip_comment-IsRest (c ∷ cs) = ground (arith, skip_comment-IsRest cs)

read_word-IsRest : (s cs : Text) → IsRest (read_word s cs).1 cs
unfolding read_word
read_word-IsRest s [] = omega arith
read_word-IsRest s (c ∷ cs) = ground (arith, read_word-IsRest (s ++ c ∷ []) cs)

comment-IsRest : (c : ℕ) (cs : Text) → (c == b'#') ≡ true → IsRest (skip_comment (c ∷ cs)) cs
unfolding skip_comment
comment-IsRest c cs h = ground (arith, skip_comment-IsRest cs)

not_delimiter :
    (c : ℕ)
    → is_whitespace c ≡ false
    → (c == b'#') ≡ false
    → (c == b'{') ≡ false
    → (c == b'}') ≡ false
    → (c == b';') ≡ false
    → is_delimiter c ≡ false
unfolding is_delimiter
not_delimiter c h i j k l = rw (h, i, j, k, l)

-- a word takes its first character
read_word_first : (c : ℕ) (cs : Text) → is_delimiter c ≡ false → IsRest (read_word [] (c ∷ cs)).1 cs
unfolding read_word
read_word_first c cs h = rw h (read_word-IsRest (c ∷ []) cs)

abbrev Closes : ℕ → Text → Option (Text × ℕ × Text) → Type 0
Closes line cs none = Unit
Closes line cs (some (s, line', rest)) =
    (length rest ≤ length cs) × (line' + newlines rest ≤ line + newlines cs)

Closes-longer :
    (line line' : ℕ) (cs cs' : Text) (o : Option (Text × ℕ × Text))
    → length cs ≤ length cs'
    → line + newlines cs ≤ line' + newlines cs'
    → Closes line cs o
    → Closes line' cs' o
Closes-longer line line' cs cs' none l m h = tt
Closes-longer line line' cs cs' (some r) l m h = omega arith

read_quoted-Closes : (quote line : ℕ) (s cs : Text) → Closes line cs (read_quoted quote line s cs)
unfolding read_quoted
read_quoted-Closes quote line s [] = tt
read_quoted-Closes quote line s (c ∷ []) =
    if-intro (Closes line (c ∷ [])) (c == quote) _ _ (λ e. (omega arith, omega arith)) (λ e. tt)
read_quoted-Closes quote line s (c ∷ d ∷ cs) =
    let all = c ∷ d ∷ cs in
    if-intro (Closes line all) (c == quote) _ _ (λ e. (omega arith, omega arith))
      (λ e.
        if-intro (Closes line all) (c == b'\\') _ _
          (λ f.
            Closes-longer line line cs all _ (omega arith) (omega arith)
              (read_quoted-Closes quote line (s ++ unescape d ∷ []) cs))
          (λ f.
            if-intro (Closes line all) (c == b'\n') _ _
              (λ g.
                Closes-longer (line + 1) line (d ∷ cs) all _ (omega arith) (ground arith)
                  (read_quoted-Closes quote (line + 1) (s ++ c ∷ []) (d ∷ cs)))
              (λ g.
                Closes-longer line line (d ∷ cs) all _ (omega arith) (omega arith)
                  (read_quoted-Closes quote line (s ++ c ∷ []) (d ∷ cs)))))

module _ (n : ℕ) where
  lex_loop-EndsBy :
      (fuel line : ℕ) (tokens : List Token) (cs : Text)
      → length cs ≤ fuel
      → line + newlines cs ≤ n
      → All (λ t. t.line ≤ n) tokens
      → EndsBy n (lex_loop fuel line tokens cs)
  unfolding lex_loop
  lex_loop-EndsBy fuel line tokens [] l m a = a
  lex_loop-EndsBy zero line tokens (c ∷ cs) l m a = absurd (omega arith)
  lex_loop-EndsBy (suc fuel) line tokens (c ∷ cs) l m a =
      let next = λ (kind : TokKind).
        All-append (λ t. t.line ≤ n) tokens (token kind line ∷ []) a (omega arith, tt) in
      if-intro (EndsBy n) (c == b'\n') _ _
        (λ e. lex_loop-EndsBy fuel (line + 1) tokens cs (omega arith) (ground arith) a)
        (λ _.
          if-intro (EndsBy n) (is_whitespace c) _ _
            (λ e. lex_loop-EndsBy fuel line tokens cs (omega arith) (omega arith) a)
            (λ space.
              if-intro (EndsBy n) (c == b'#') _ _
                (λ e.
                  let rest = comment-IsRest c cs e in
                  lex_loop-EndsBy fuel line tokens (skip_comment (c ∷ cs)) (omega arith)
                    (omega arith) a)
                (λ hash.
                  if-intro (EndsBy n) (c == b'{') _ _
                    (λ e.
                      lex_loop-EndsBy fuel line (tokens ++ token open_brace line ∷ []) cs
                        (omega arith) (omega arith) (next open_brace))
                    (λ opening.
                      if-intro (EndsBy n) (c == b'}') _ _
                        (λ e.
                          lex_loop-EndsBy fuel line (tokens ++ token close_brace line ∷ []) cs
                            (omega arith) (omega arith) (next close_brace))
                        (λ closing.
                          if-intro (EndsBy n) (c == b';') _ _
                            (λ e.
                              lex_loop-EndsBy fuel line (tokens ++ token semicolon line ∷ []) cs
                                (omega arith) (omega arith) (next semicolon))
                            (λ semi.
                              if-intro (EndsBy n) (c == b'"' || c == b'\'') _ _
                                (λ e.
                                  option-intro (EndsBy n) (read_quoted c line [] cs) _ _
                                    (λ q. omega arith)
                                    (λ r q.
                                      let closes : Closes line cs (some r) =
                                        rw q at (read_quoted-Closes c line [] cs) in
                                      lex_loop-EndsBy fuel r.1
                                        (tokens ++ token (word r.0) line ∷ []) r.2 (omega arith)
                                        (omega arith) (next (word r.0))))
                                (λ e.
                                  let rest =
                                    read_word_first c cs
                                      (not_delimiter c space hash opening closing semi) in
                                  lex_loop-EndsBy fuel line
                                    (tokens ++ token (word (read_word [] (c ∷ cs)).0) line ∷ [])
                                    (read_word [] (c ∷ cs)).1 (omega arith) (omega arith)
                                    (next (word (read_word [] (c ∷ cs)).0)))))))))

-- On every input `lex` either gives tokens, each on a line of the input, or the message that a string
-- is not closed, with a line of the input: it never stops for want of fuel, and no line number passes
-- one more than the number of newlines.
pub lex-EndsBy : (input : Text) → EndsBy (1 + newlines input) (lex input)
unfolding lex
lex-EndsBy input =
    lex_loop-EndsBy (1 + newlines input) (length input) 1 [] input (omega arith) (omega arith) tt

-- the one message of the source
abbrev pub IsReported : LexError → Type 0
IsReported (unterminated_string l) = Unit
IsReported out_of_fuel = ⊥

pub lex-IsReported : (input : Text) → IfErr (lex input) IsReported
lex-IsReported input = reported (lex input) (lex-EndsBy input)
  where
    reported :
        (r : Result LexError (List Token)) → EndsBy (1 + newlines input) r → IfErr r IsReported
    reported (ok tokens) h = tt
    reported (err (unterminated_string l)) h = tt
    reported (err out_of_fuel) h = h
