-- ===== src/Static/Escape.antt =====
-- The escapes of the directory listing of src/static_files.rs, and the decoder of query arguments
-- of src/request_ctx.rs.
use elrond.Base.{
  ℕ, ◌+◌, ◌-◌, ◌*◌, ◌/◌, ◌%◌, ◌<◌, ◌≡◌, refl, ap, ◌∙◌, ◌≢◌, inl, inr, Bool, true, false, ◌&&◌, ◌||◌,
  Option, none, some, List, [], ◌∷◌, ◌++◌, arith, ltb, leb, ◌==◌, if◌then◌else◌, Bool-cases, ◌>>=?◌,
  if-intro, All, All-append, Text, codes,
}

abbrev escape_with : (ℕ → Text) → Text → Text
escape_with f [] = []
escape_with f (c ∷ cs) = f c ++ escape_with f cs

unfoldable pub html_char : ℕ → Text
html_char c =
    if c == b'<'
    then codes "&lt;"
    else if c == b'>'
    then codes "&gt;"
    else if c == b'&'
    then codes "&amp;"
    else if c == b'"'
    then codes "&quot;"
    else c ∷ []

unfoldable pub attr_char : ℕ → Text
unfolding html_char
attr_char c = if c == 39 then codes "&#39;" else html_char c

-- what is pushed
unfoldable pub push_html_escaped : Text → Text
unfolding html_char
push_html_escaped s = escape_with html_char s

unfoldable pub push_attr_escaped : Text → Text
unfolding attr_char
push_attr_escaped s = escape_with attr_char s

-- a digit of `HEX`
abbrev pub hex_upper : ℕ → ℕ
hex_upper n = if ltb n 10 then b'0' + n else b'A' + (n - 10)

unfoldable pub is_unreserved : ℕ → Bool
is_unreserved b =
    (leb b'A' b && leb b b'Z')
    || (leb b'a' b && leb b b'z')
    || (leb b'0' b && leb b b'9')
    || b == b'-'
    || b == b'_'
    || b == b'.'
    || b == b'~'

-- on the bytes of the name
unfoldable pub url_encode_segment : List ℕ → Text
unfolding is_unreserved
url_encode_segment [] = []
url_encode_segment (b ∷ bs) =
    let rest = url_encode_segment bs in
    if is_unreserved b then b ∷ rest else b'%' ∷ hex_upper (b / 16) ∷ hex_upper (b % 16) ∷ rest

unfoldable pub hex_digit : ℕ → Option ℕ
hex_digit b =
    if leb b'0' b && leb b b'9'
    then some (b - b'0')
    else if leb b'a' b && leb b b'f'
    then some (b - b'a' + 10)
    else if leb b'A' b && leb b b'F'
    then some (b - b'A' + 10)
    else none

-- The two digits behind a `%`, if they are there; `(h << 4) | l` is `16 * h + l`.
abbrev pub both_digits : ℕ → ℕ → Option ℕ
both_digits h l = hex_digit h >>=? λ x. hex_digit l >>=? λ y. some (16 * x + y)

-- `percent_decode`, before the bytes are read as UTF-8
unfoldable pub percent_decode : List ℕ → List ℕ
unfolding hex_digit
percent_decode [] = []
percent_decode (b ∷ []) = (if b == b'+' then b' ' else b) ∷ []
percent_decode (b ∷ c ∷ []) = (if b == b'+' then b' ' else b) ∷ percent_decode (c ∷ [])
percent_decode (b ∷ c ∷ d ∷ bs) =
    let plain = percent_decode (c ∷ d ∷ bs) in
    let coded = percent_decode bs in
    if b == b'+'
    then b' ' ∷ plain
    else if b == b'%'
    then elim (both_digits c d) [ none ↦ b ∷ plain | some n ↦ n ∷ coded ]
    else b ∷ plain

-- a byte that is neither `+` nor `%` is kept
percent_decode_plain :
    (b : ℕ) (rest : List ℕ)
    → (b == b'+') ≡ false
    → (b == b'%') ≡ false
    → percent_decode (b ∷ rest) ≡ b ∷ percent_decode rest
unfolding percent_decode
percent_decode_plain b [] p q = rw p refl
percent_decode_plain b (c ∷ []) p q = rw p refl
percent_decode_plain b (c ∷ d ∷ rest) p q = rw (p, q) refl

hex_digit-hex_upper : (n : ℕ) → n < 16 → hex_digit (hex_upper n) ≡ some n
unfolding hex_digit
hex_digit-hex_upper n h = ground arith

percent_decode_coded :
    (b : ℕ) (rest : List ℕ)
    → b < 256
    → percent_decode (b'%' ∷ hex_upper (b / 16) ∷ hex_upper (b % 16) ∷ rest)
      ≡ b ∷ percent_decode rest
unfolding percent_decode
percent_decode_coded b rest h =
    rw (hex_digit-hex_upper (b / 16) (omega arith), hex_digit-hex_upper (b % 16) (omega arith))
      (ap (λ n. n ∷ percent_decode rest) (omega arith))

-- A name that is encoded for a link and decoded as a query argument is the name again.
pub percent_decode-url_encode_segment :
    (bs : List ℕ) → All (λ b. b < 256) bs → percent_decode (url_encode_segment bs) ≡ bs
unfolding url_encode_segment
percent_decode-url_encode_segment [] h = unfold percent_decode in refl
percent_decode-url_encode_segment (b ∷ bs) h =
    let ih = percent_decode-url_encode_segment bs h.1 in
    elim (Bool-cases (is_unreserved b)) [
      | inl u ↦ rw u (
          percent_decode_plain b _ (unreserved_plus b u) (unreserved_percent b u)
          ∙ ap (λ r. b ∷ r) ih)
      | inr u ↦ rw u (percent_decode_coded b _ h.0 ∙ ap (λ r. b ∷ r) ih)
    ]
  where
    unreserved_plus : (b : ℕ) → is_unreserved b ≡ true → (b == b'+') ≡ false
    unreserved_plus b u = ground arith

    unreserved_percent : (b : ℕ) → is_unreserved b ≡ true → (b == b'%') ≡ false
    unreserved_percent b u = ground arith

-- no character that opens or closes a tag, or closes an attribute's value
abbrev pub IsInert : ℕ → Type 0
IsInert c = (c ≢ b'<') × (c ≢ b'>') × (c ≢ b'"')

abbrev pub IsQuiet : ℕ → Type 0
IsQuiet c = IsInert c × (c ≢ 39)

html_char-All : (c : ℕ) → All IsInert (html_char c)
unfolding html_char
html_char-All c =
    let G : Text → Type 0 = All IsInert in
    if-intro G (c == b'<') _ _ (λ _. ground arith)
      (λ p.
        if-intro G (c == b'>') _ _ (λ _. ground arith)
          (λ q.
            if-intro G (c == b'&') _ _ (λ _. ground arith)
              (λ r. if-intro G (c == b'"') _ _ (λ _. ground arith) (λ t. ground arith))))

attr_char-All : (c : ℕ) → All IsQuiet (attr_char c)
unfolding attr_char html_char
attr_char-All c =
    let G : Text → Type 0 = All IsQuiet in
    if-intro G (c == 39) _ _ (λ _. ground arith)
      (λ n.
        if-intro G (c == b'<') _ _ (λ _. ground arith)
          (λ p.
            if-intro G (c == b'>') _ _ (λ _. ground arith)
              (λ q.
                if-intro G (c == b'&') _ _ (λ _. ground arith)
                  (λ r. if-intro G (c == b'"') _ _ (λ _. ground arith) (λ t. ground arith)))))

escape_with-All :
    (P : ℕ → Type 0) (f : ℕ → Text) (s : Text) → ((c : ℕ) → All P (f c)) → All P (escape_with f s)
escape_with-All P f [] h = tt
escape_with-All P f (c ∷ cs) h =
    All-append P (f c) (escape_with f cs) (h c) (escape_with-All P f cs h)

-- Whatever the name of a file, what is written of it into the page holds no `<`, `>` or double
-- quote, and what is written into an attribute no single quote either.
pub push_escaped-IsQuiet :
    (s : Text) → All IsInert (push_html_escaped s) × All IsQuiet (push_attr_escaped s)
unfolding push_html_escaped push_attr_escaped
push_escaped-IsQuiet s = (
  escape_with-All IsInert html_char s html_char-All,
  escape_with-All IsQuiet attr_char s attr_char-All,
)
