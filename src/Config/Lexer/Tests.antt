-- ===== src/Config/Lexer/Tests.antt =====
-- A configuration in the source's syntax, and its tokens.
use elrond.Base.{ok, err, ◌≡◌, refl, List, [], ◌∷◌, Text, codes, is_whitespace}
use elrond.Config.Lexer.Print.{render, Piece, number, quoted, bare, ending}
use elrond.Config.Lexer.RoundTrip.{lex-render}
use elrond.Config.Lexer.{
  word, lex, token, open_brace, close_brace, semicolon, unterminated_string, is_delimiter,
}

abbrev file : Text
file = codes "# c\nlisten 80;\nl { x \"a\\\"b\n\" }"

lex-file :
    lex file
    ≡ ok (
        token (word (codes "listen")) 2
        ∷ token (word (codes "80")) 2
        ∷ token semicolon 2
        ∷ token (word (codes "l")) 3
        ∷ token open_brace 3
        ∷ token (word (codes "x")) 3
        ∷ token (word (codes "a\"b\n")) 3
        ∷ token close_brace 4
        ∷ [])
unfolding lex
lex-file = refl

lex_unterminated : lex (codes "a\n\"b") ≡ err (unterminated_string 2)
unfolding lex
lex_unterminated = refl

-- a quoted word with a quote, a backslash and a newline in it, and two barewords
abbrev pieces : List Piece
pieces = bare (codes "return") ∷ bare (codes "200") ∷ quoted (codes "say \"hi\"\n") ∷ ending ∷ []

lex-render_example : lex (render pieces) ≡ ok (number 1 pieces)
unfolding is_delimiter is_whitespace
lex-render_example = lex-render pieces (
  (refl, (refl, (refl, (refl, (refl, (refl, (refl, tt))))))),
  ((refl, (refl, (refl, (refl, tt)))), (tt, (tt, tt))),
)
