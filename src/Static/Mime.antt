-- ===== src/Static/Mime.antt =====
-- `mime_for` of src/static_files.rs: the type of a file by the extension of its path.
use elrond.Base.{
  ℕ, Option, none, some, [], ◌∷◌, ◌==◌, if◌then◌else◌, unwrap_or, ◌>>=?◌, Text, codes, Dict, lookup,
  trim_end_matches,
}

-- the text behind the last dot, if there is one, behind the piece that it is read from
unfoldable pub after_last : ℕ → Text → Option Text
after_last sep [] = none
after_last sep (c ∷ cs) = elim (after_last sep cs) [
  | some s ↦ some s
  | none ↦ if c == sep then some cs else none
]

-- `Path::extension`: a file name that starts with its only dot has none
unfoldable pub extension : Text → Option Text
unfolding after_last trim_end_matches
extension path =
    let trimmed = trim_end_matches b'/' path in
    elim (unwrap_or (after_last b'/' trimmed) trimmed) [
      | [] ↦ none
      | c ∷ name ↦ after_last b'.' name
    ]

abbrev types : Dict Text
types =
    (codes "html", codes "text/html; charset=utf-8")
    ∷ (codes "htm", codes "text/html; charset=utf-8")
    ∷ (codes "css", codes "text/css; charset=utf-8")
    ∷ (codes "js", codes "application/javascript; charset=utf-8")
    ∷ (codes "mjs", codes "application/javascript; charset=utf-8")
    ∷ (codes "json", codes "application/json")
    ∷ (codes "txt", codes "text/plain; charset=utf-8")
    ∷ (codes "text", codes "text/plain; charset=utf-8")
    ∷ (codes "xml", codes "application/xml")
    ∷ (codes "svg", codes "image/svg+xml")
    ∷ (codes "png", codes "image/png")
    ∷ (codes "jpg", codes "image/jpeg")
    ∷ (codes "jpeg", codes "image/jpeg")
    ∷ (codes "gif", codes "image/gif")
    ∷ (codes "webp", codes "image/webp")
    ∷ (codes "ico", codes "image/x-icon")
    ∷ (codes "wasm", codes "application/wasm")
    ∷ (codes "pdf", codes "application/pdf")
    ∷ (codes "woff", codes "font/woff")
    ∷ (codes "woff2", codes "font/woff2")
    ∷ []

unfoldable pub mime_for : Text → Text
unfolding extension lookup
mime_for path =
    unwrap_or (extension path >>=? λ e. lookup e types) (codes "application/octet-stream")
