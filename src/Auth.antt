-- ===== src/Auth.antt =====
-- src/auth.rs: basic authentication against an htpasswd file. The file system, base64, UTF-8 and bcrypt
-- are parameters; the user-facing words of an error are its constructor.
pub mod Admits
mod Tests
use elrond.Base.{
  Result, ok, err, ℕ, ◌+◌, Bool, false, not, ◌||◌, Option, none, some, List, [], ◌∷◌, ◌++◌, ◌==◌,
  if◌then◌else◌, unwrap_or, ◌>>=?◌, is_empty, Text, codes, text_eq, ◌>>=◌, Dict, lookup, insert,
  trim, split, split_once, starts_with,
}
use elrond.Proxy.Headers.{HeaderMapApi}
use elrond.Http.{Reply, get_str, same_word}

pub record AuthBasic : Type 0 where
  pub realm : Text
  pub users : Dict Text

pub data Complaint : Type 0 where
  unreadable no_users : Complaint
  no_colon : ℕ → Complaint
  weak_hash : ℕ → Text → Complaint

unfoldable pub is_bcrypt : Text → Bool
unfolding starts_with
is_bcrypt hash =
    starts_with hash (codes "$2y$")
    || starts_with hash (codes "$2a$")
    || starts_with hash (codes "$2b$")

-- `lines`: the pieces between the newlines, without a last one that is empty and without a carriage
-- return at the end of one
abbrev pub strip_return : Text → Text
strip_return [] = []
strip_return (c ∷ []) = if c == 13 then [] else c ∷ []
strip_return (c ∷ d ∷ cs) = c ∷ strip_return (d ∷ cs)

abbrev pub without_last : List Text → List Text
without_last [] = []
without_last (p ∷ []) = if is_empty p then [] else strip_return p ∷ []
without_last (p ∷ q ∷ ps) = strip_return p ∷ without_last (q ∷ ps)

unfoldable pub lines : Text → List Text
unfolding split
lines s = without_last (split 10 s)

-- what one line of the file is
pub data Line : Type 0 where
  skipped : Line
  entry : Text → Text → Line
  refused : Complaint → Line

unfoldable pub judge : ℕ → Option (Text × Text) → Line
unfolding is_bcrypt
judge line_no none = refused (no_colon line_no)
judge line_no (some (user, hash)) =
    if is_bcrypt hash then entry user hash else refused (weak_hash line_no user)

unfoldable pub read_line : ℕ → Text → Line
unfolding trim split_once starts_with judge
read_line line_no raw =
    let line = trim raw in
    if is_empty line || starts_with line (codes "#")
    then skipped
    else judge line_no (split_once b':' line)

-- the loop of `parse_htpasswd`, from a line of this number
unfoldable pub parse_lines : ℕ → List Text → Dict Text → Result Complaint (Dict Text)
unfolding read_line insert
parse_lines line_no [] out = ok out
parse_lines line_no (raw ∷ raws) out = elim (read_line line_no raw) [
  | skipped ↦ parse_lines (line_no + 1) raws out
  | refused why ↦ err why
  | entry user hash ↦ parse_lines (line_no + 1) raws (insert user hash out)
]

unfoldable pub parse_htpasswd : Text → Result Complaint (Dict Text)
unfolding parse_lines lines
parse_htpasswd file = parse_lines 1 (lines file) []

-- `load`, from what `read_to_string` gives
unfoldable pub load : Option Text → Text → Result Complaint AuthBasic
unfolding parse_htpasswd
load none realm = err unreadable
load (some file) realm = parse_htpasswd file >>= λ users.
    if is_empty users then err no_users else ok (record { realm = realm; users = users })

-- two `replace`s, of the backslash and then of the quote
unfoldable pub escape_quoted : Text → Text
escape_quoted [] = []
escape_quoted (c ∷ cs) =
    (if c == b'\\' then b'\\' ∷ b'\\' ∷ [] else if c == b'"' then b'\\' ∷ b'"' ∷ [] else c ∷ [])
    ++ escape_quoted cs

-- What the check asks of other crates.
pub record Crypto : Type 0 where
  pub decode_base64 : Text → Option (List ℕ)
  pub from_utf8 : List ℕ → Option Text
  pub verify : Text → Text → Option Bool  -- of a password, against a hash

-- `splitn(2, ' ')`: the first piece, and the rest if there is a space
abbrev pub scheme_of : Text → Text × Option Text
scheme_of value = elim (split_once b' ' value) [
  | none ↦ (value, none)
  | some (scheme, rest) ↦ (scheme, some rest)
]

module _ (H : HeaderMapApi) (of_pairs : List (Text × Text) → H.Map) (C : Crypto) where
  unfoldable pub parse_authorization : H.Map → Option Text
  unfolding split_once trim text_eq
  parse_authorization headers = get_str H (codes "authorization") headers >>=? λ value.
      let (scheme, rest) = scheme_of value in
      if not (same_word scheme (codes "basic"))
      then none
      else rest >>=? λ b64. C.decode_base64 (trim b64) >>=? λ bytes. C.from_utf8 bytes

  unfoldable pub challenge_response : Text → Reply H
  unfolding escape_quoted
  challenge_response realm =
      let www_authenticate = codes "Basic realm=\"" ++ (escape_quoted realm ++ codes "\"") in
      let plain : Text × Text = (codes "content-type", codes "text/plain; charset=utf-8") in
      let headers : List (Text × Text) =
        if H.is_value www_authenticate
        then plain ∷ (codes "www-authenticate", www_authenticate) ∷ []
        else plain ∷ [] in
      record { status = 401; headers = of_pairs headers; body = some (codes "401 Unauthorized\n") }

  -- a password against the hash of its user, if there is one
  abbrev pub accepts : Text → Option Text → Bool
  accepts password none = false
  accepts password (some hash) = unwrap_or (C.verify password hash) false

  -- do these credentials, cut at the colon, belong to a user
  unfoldable pub is_user : Dict Text → Option (Text × Text) → Bool
  unfolding lookup
  is_user users none = false
  is_user users (some (user, password)) = accepts password (lookup user users)

  -- nothing, or the challenge
  unfoldable pub check : AuthBasic → H.Map → Option (Reply H)
  unfolding parse_authorization split_once is_user challenge_response
  check auth headers = elim (parse_authorization headers) [
    | none ↦ some (challenge_response auth.realm)
    | some creds ↦
        if is_user auth.users (split_once b':' creds)
        then none
        else some (challenge_response auth.realm)
  ]
