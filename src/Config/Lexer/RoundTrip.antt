-- ===== src/Config/Lexer/RoundTrip.antt =====
-- Printing tokens and reading them back.
use elrond.Base.{
  ok, ℕ, zero, suc, ◌+◌, ◌≤◌, ◌≡◌, refl, ◌∙◌, true, false, List, [], ◌∷◌, ◌++◌, append-nil,
  append_assoc, arith, ◌==◌, length, All, length-append, Text, is_whitespace,
}
use elrond.Config.Lexer.{
  Token, lex, is_delimiter, token, word, open_brace, close_brace, semicolon, read_word, lex_loop,
}
use native.Mathlib.Nat.{add-zero}
use elrond.Config.Lexer.Print.{
  Piece, IsBare, IsPrintable, escape, print, render, number, read_quoted-escape, quoted, bare,
  opening, closing, ending,
}
use elrond.Config.Lexer.Total.{newlines}

lex_quoted :
    (fuel line : ℕ) (tokens : List Token) (w rest : Text)
    → lex_loop (suc fuel) line tokens (print (quoted w) rest)
      ≡ lex_loop fuel (line + newlines w) (tokens ++ token (word w) line ∷ []) rest
unfolding lex_loop is_whitespace
lex_quoted fuel line tokens w rest = rw (read_quoted-escape line [] w rest)

read_word-delimiter :
    (s w rest : Text) (d : ℕ)
    → All (λ c. is_delimiter c ≡ false) w
    → is_delimiter d ≡ true
    → read_word s (w ++ (d ∷ rest)) ≡ (s ++ w, d ∷ rest)
unfolding read_word
read_word-delimiter s [] rest d a h = rw (h, append-nil)
read_word-delimiter s (c ∷ w) rest d a h =
    rw a.0 (read_word-delimiter (s ++ c ∷ []) w rest d a.1 h ∙ rw append_assoc)

not_newline : (c : ℕ) → is_whitespace c ≡ false → (c == b'\n') ≡ false
unfolding is_whitespace
not_newline c h = ground arith

lex_space :
    (fuel line : ℕ) (tokens : List Token) (rest : Text)
    → lex_loop (suc fuel) line tokens (b' ' ∷ rest) ≡ lex_loop fuel line tokens rest
unfolding lex_loop is_whitespace
lex_space fuel line tokens rest = refl

not_delimiter_parts :
    (c : ℕ)
    → is_delimiter c ≡ false
    → (is_whitespace c ≡ false)
      × ((c == b'\n') ≡ false)
      × ((c == b'#') ≡ false)
      × ((c == b'{') ≡ false)
      × ((c == b'}') ≡ false)
      × ((c == b';') ≡ false)
unfolding is_delimiter
not_delimiter_parts c h =
    let space : is_whitespace c ≡ false = ground arith in
    (space, not_newline c space, ground arith, ground arith, ground arith, ground arith)

lex_bare :
    (fuel line : ℕ) (tokens : List Token) (w rest : Text)
    → IsBare w
    → lex_loop (suc (suc fuel)) line tokens (print (bare w) rest)
      ≡ lex_loop fuel line (tokens ++ token (word w) line ∷ []) rest
unfolding lex_loop
lex_bare fuel line tokens [] rest h = absurd h
lex_bare fuel line tokens (c ∷ w) rest h =
    let (space, newline, hash, opens, closes, ends) = not_delimiter_parts c h.1.0 in
    let read =
      read_word-delimiter [] (c ∷ w) rest b' ' h.1 (unfold is_delimiter is_whitespace in refl) in
    rw (newline, space, hash, opens, closes, ends, h.0, read)
      (lex_space fuel line (tokens ++ token (word (c ∷ w)) line ∷ []) rest)

lex_punctuation :
    (fuel line : ℕ) (tokens : List Token) (rest : Text)
    → (lex_loop (suc fuel) line tokens (print opening rest)
        ≡ lex_loop fuel line (tokens ++ token open_brace line ∷ []) rest)
      × (lex_loop (suc fuel) line tokens (print closing rest)
          ≡ lex_loop fuel line (tokens ++ token close_brace line ∷ []) rest)
      × (lex_loop (suc fuel) line tokens (print ending rest)
          ≡ lex_loop fuel line (tokens ++ token semicolon line ∷ []) rest)
unfolding lex_loop is_whitespace
lex_punctuation fuel line tokens rest = (refl, refl, refl)

lex_loop-nil : (fuel line : ℕ) (tokens : List Token) → lex_loop fuel line tokens [] ≡ ok tokens
unfolding lex_loop
lex_loop-nil zero line tokens = refl
lex_loop-nil (suc fuel) line tokens = refl

print_long : (p : Piece) (rest : Text) → IsPrintable p → ¬ (length (print p rest) ≤ 0)
print_long (quoted w) rest h l = omega arith
print_long (bare []) rest h l = h
print_long (bare (c ∷ w)) rest h l = omega arith
print_long opening rest h l = omega arith
print_long closing rest h l = omega arith
print_long ending rest h l = omega arith

lex_loop-render :
    (fuel line : ℕ) (tokens : List Token) (ps : List Piece)
    → All IsPrintable ps
    → length (render ps) ≤ fuel
    → lex_loop fuel line tokens (render ps) ≡ ok (tokens ++ number line ps)
lex_loop-render fuel line tokens [] h l = rw append-nil (lex_loop-nil fuel line tokens)
lex_loop-render zero line tokens (p ∷ ps) h l = absurd (print_long p (render ps) h.0 l)
lex_loop-render (suc fuel) line tokens (quoted w ∷ ps) h l =
    lex_quoted fuel line tokens w (render ps)
    ∙ lex_loop-render fuel (line + newlines w) (tokens ++ token (word w) line ∷ []) ps h.1
        (omega (arith, length-append (escape w) (b'"' ∷ render ps)))
    ∙ rw append_assoc
lex_loop-render (suc fuel) line tokens (bare [] ∷ ps) h l = absurd h.0
lex_loop-render (suc zero) line tokens (bare (c ∷ w) ∷ ps) h l =
    absurd (omega (arith, length-append w (b' ' ∷ render ps)))
lex_loop-render (suc (suc fuel)) line tokens (bare (c ∷ w) ∷ ps) h l =
    lex_bare fuel line tokens (c ∷ w) (render ps) h.0
    ∙ lex_loop-render fuel line (tokens ++ token (word (c ∷ w)) line ∷ []) ps h.1
        (omega (arith, length-append w (b' ' ∷ render ps)))
    ∙ rw (append_assoc, add-zero)
lex_loop-render (suc fuel) line tokens (opening ∷ ps) h l =
    (lex_punctuation fuel line tokens (render ps)).0
    ∙ lex_loop-render fuel line (tokens ++ token open_brace line ∷ []) ps h.1 (omega arith)
    ∙ rw (append_assoc, add-zero)
lex_loop-render (suc fuel) line tokens (closing ∷ ps) h l =
    (lex_punctuation fuel line tokens (render ps)).1
    ∙ lex_loop-render fuel line (tokens ++ token close_brace line ∷ []) ps h.1 (omega arith)
    ∙ rw (append_assoc, add-zero)
lex_loop-render (suc fuel) line tokens (ending ∷ ps) h l =
    (lex_punctuation fuel line tokens (render ps)).2
    ∙ lex_loop-render fuel line (tokens ++ token semicolon line ∷ []) ps h.1 (omega arith)
    ∙ rw (append_assoc, add-zero)

-- Printing tokens, quoted and escaped or bare where a bareword can stand, and lexing the print gives
-- the tokens back, each with the line on which it starts in the print.
pub lex-render : (ps : List Piece) → All IsPrintable ps → lex (render ps) ≡ ok (number 1 ps)
unfolding lex
lex-render ps h = lex_loop-render (length (render ps)) 1 [] ps h (omega arith)
