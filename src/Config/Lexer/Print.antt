-- ===== src/Config/Lexer/Print.antt =====
-- Printing tokens: words in quotes or bare, and the string reader on what is printed in quotes.
use elrond.Base.{
  ℕ, ◌+◌, ◌≡◌, refl, ap, ◌∙◌, inl, inr, Bool, true, false, ◌||◌, some, List, [], ◌∷◌, ◌++◌,
  append-nil, append_assoc, arith, ◌==◌, if◌then◌else◌, Bool-cases, All, Text,
}
use elrond.Config.Lexer.{
  Token, TokKind, is_delimiter, read_quoted, token, word, open_brace, close_brace, semicolon,
}
use native.Mathlib.Nat.{add-zero, add_assoc}
use elrond.Config.Lexer.Total.{newlines}

-- One token in print. A word may stand bare where no character of it ends it, or in quotes.
pub data Piece : Type 0 where
  quoted bare : Text → Piece
  opening closing ending : Piece

abbrev pub kind_of : Piece → TokKind
kind_of (quoted w) = word w
kind_of (bare w) = word w
kind_of opening = open_brace
kind_of closing = close_brace
kind_of ending = semicolon

abbrev pub is_quote : ℕ → Bool
is_quote c = c == b'"' || c == b'\''

-- A bareword is not empty, starts with no quote, and no character of it is a delimiter.
abbrev pub IsBare : Text → Type 0
IsBare [] = ⊥
IsBare (c ∷ w) = (is_quote c ≡ false) × All (λ d. is_delimiter d ≡ false) (c ∷ w)

abbrev pub IsPrintable : Piece → Type 0
IsPrintable (bare w) = IsBare w
IsPrintable _ = Unit

unfoldable pub escape : Text → Text
escape [] = []
escape (c ∷ w) = if c == b'"' || c == b'\\' then b'\\' ∷ c ∷ escape w else c ∷ escape w

-- A bareword is followed by a space.
abbrev pub print : Piece → Text → Text
print (quoted w) rest = b'"' ∷ (escape w ++ (b'"' ∷ rest))
print (bare w) rest = w ++ (b' ' ∷ rest)
print opening rest = b'{' ∷ rest
print closing rest = b'}' ∷ rest
print ending rest = b';' ∷ rest

abbrev pub render : List Piece → Text
render [] = []
render (p ∷ ps) = print p (render ps)

-- the newlines inside a quoted word are those of the print
abbrev pub lines_in : Piece → ℕ
lines_in (quoted w) = newlines w
lines_in _ = 0

-- The tokens, each with the line that it starts on.
abbrev pub number : ℕ → List Piece → List Token
number line [] = []
number line (p ∷ ps) = token (kind_of p) line ∷ number (line + lines_in p) ps

read_close :
    (line : ℕ) (s rest : Text) → read_quoted b'"' line s (b'"' ∷ rest) ≡ some (s, line, rest)
unfolding read_quoted
read_close line s [] = refl
read_close line s (d ∷ rest) = refl

read_escaped :
    (line c : ℕ) (s rest : Text)
    → (c == b'"' || c == b'\\') ≡ true
    → read_quoted b'"' line s (b'\\' ∷ c ∷ rest) ≡ read_quoted b'"' line (s ++ c ∷ []) rest
unfolding read_quoted
read_escaped line c s rest h = ap (λ d. read_quoted b'"' line (s ++ d ∷ []) rest) (ground arith)

read_plain :
    (line c d : ℕ) (s rest : Text)
    → (c == b'"' || c == b'\\') ≡ false
    → read_quoted b'"' line s (c ∷ d ∷ rest)
      ≡ read_quoted b'"' (line + (if c == b'\n' then 1 else 0)) (s ++ c ∷ []) (d ∷ rest)
unfolding read_quoted
read_plain line c d s rest h = elim (Bool-cases (c == b'\n')) [
  | inl n ↦
      let e : line + (if c == b'\n' then 1 else 0) ≡ line + 1 = ground arith in rw e (ground arith)
  | inr n ↦
      let e : line + (if c == b'\n' then 1 else 0) ≡ line = ground arith in rw e (ground arith)
]

escape_head : (w rest : Text) → (d : ℕ) × (cs : Text) × (escape w ++ (b'"' ∷ rest) ≡ d ∷ cs)
unfolding escape
escape_head [] rest = (b'"', rest, refl)
escape_head (c ∷ w) rest = elim (Bool-cases (c == b'"' || c == b'\\')) [
  | inl e ↦ (b'\\', c ∷ (escape w ++ (b'"' ∷ rest)), rw e)
  | inr p ↦ (c, escape w ++ (b'"' ∷ rest), rw p)
]

pub read_quoted-escape :
    (line : ℕ) (s w rest : Text)
    → read_quoted b'"' line s (escape w ++ (b'"' ∷ rest)) ≡ some (s ++ w, line + newlines w, rest)
unfolding escape
read_quoted-escape line s [] rest = rw (append-nil, add-zero) (read_close line s rest)
read_quoted-escape line s (c ∷ w) rest = elim (Bool-cases (c == b'"' || c == b'\\')) [
  | inl e ↦
      let same : line + newlines (c ∷ w) ≡ line + newlines w = ground arith in
      rw (e, same)
        (read_escaped line c s (escape w ++ (b'"' ∷ rest)) e
          ∙ read_quoted-escape line (s ++ c ∷ []) w rest
          ∙ rw append_assoc)
  | inr p ↦
      let (d, cs, head) = escape_head w rest in
      let step = read_plain line c d s cs p in
      let ih = read_quoted-escape (line + (if c == b'\n' then 1 else 0)) (s ++ c ∷ []) w rest in
      rw p (rw head (step ∙ rw (← head) (ih ∙ rw (append_assoc, add_assoc))))
]
