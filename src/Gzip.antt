-- ===== src/Gzip.antt =====
-- src/gzip.rs: a finite body is compressed for a client that accepts it. The encoder of `flate2` is a
-- parameter, which answers nothing on an error.
pub mod Offer
pub mod Faithful
pub mod Others
mod Tests
use elrond.Base.{
  ℕ, ◌^◌, Bool, true, false, not, ◌||◌, Option, none, some, List, [], ◌∷◌, ◌++◌, ltb, ◌==◌,
  if◌then◌else◌, is_some, ◌>>=?◌, length, is_empty, any, Text, codes, text_eq, decimal, parse_below,
  insert, trim, to_ascii_lowercase, split,
}
use elrond.Proxy.Headers.{HeaderMapApi}
use elrond.Http.{Reply, get_str, same_word, before}

-- `DEFAULT_TYPES`
abbrev pub default_types : List Text
default_types =
    codes "text/html"
    ∷ codes "text/css"
    ∷ codes "text/plain"
    ∷ codes "text/javascript"
    ∷ codes "text/xml"
    ∷ codes "application/javascript"
    ∷ codes "application/x-javascript"
    ∷ codes "application/json"
    ∷ codes "application/xml"
    ∷ codes "application/atom+xml"
    ∷ codes "application/rss+xml"
    ∷ codes "image/svg+xml"
    ∷ codes "font/woff"
    ∷ codes "font/woff2"
    ∷ []

-- one item of `Accept-Encoding`, its weight cut off
unfoldable pub offers_gzip : Text → Bool
unfolding trim split text_eq
offers_gzip item =
    let word = trim (before b';' (trim item)) in
    same_word word (codes "gzip") || text_eq word (codes "*")

unfoldable pub status_eligible : ℕ → Bool
status_eligible s = s == 200 || s == 203 || s == 206 || s == 301 || s == 302

-- does a `Vary` name the header that compression depends on
unfoldable pub names_encoding : Text → Bool
unfolding trim split text_eq
names_encoding existing =
    any (λ p. same_word (trim p) (codes "accept-encoding")) (split b',' existing)

unfoldable pub vary_of : Option Text → Text
unfolding names_encoding
vary_of none = codes "Accept-Encoding"
vary_of (some existing) =
    if is_empty existing
    then codes "Accept-Encoding"
    else if names_encoding existing
    then existing
    else existing ++ codes ", Accept-Encoding"

-- the cap on what is buffered, against the length that the response declares
abbrev pub exceeds_cap : Option ℕ → Option ℕ → Bool
exceeds_cap none len = false
exceeds_cap (some cap) none = true
exceeds_cap (some cap) (some n) = ltb cap n

module _ (H : HeaderMapApi) where
  unfoldable pub client_accepts_gzip : H.Map → Bool
  unfolding offers_gzip split
  client_accepts_gzip headers = elim (get_str H (codes "accept-encoding") headers) [
    | none ↦ false
    | some v ↦ any offers_gzip (split b',' v)
  ]

  unfoldable pub content_type_eligible : H.Map → List Text → Bool
  unfolding trim split text_eq
  content_type_eligible headers extra = elim (get_str H (codes "content-type") headers) [
    | none ↦ false
    | some ct ↦
        let mime = to_ascii_lowercase (trim (before b';' ct)) in
        any (λ t. text_eq t mime) default_types || any (λ t. text_eq t mime) extra
  ]

  -- `content-length`, as a `usize`
  unfoldable pub content_length : H.Map → Option ℕ
  unfolding parse_below
  content_length headers =
      get_str H (codes "content-length") headers >>=? λ s. parse_below (2 ^ 64) s

  -- the response with its body compressed
  unfoldable pub encoded : Reply H → List ℕ → Reply H
  unfolding vary_of decimal
  encoded resp compressed =
      let h = H.insert (codes "content-encoding") (codes "gzip") resp.headers in
      let h' = H.insert (codes "content-length") (decimal (length compressed)) h in
      let vary = vary_of (get_str H (codes "vary") h') in
      record resp {
        headers = if H.is_value vary then H.insert (codes "vary") vary h' else h';
        body = some compressed;
      }

  module _ (gzip_bytes : List ℕ → Option (List ℕ)) where
    -- the collected body, unless it is a tiny one
    unfoldable pub compress_collected : Reply H → ℕ → List ℕ → Reply H
    unfolding encoded
    compress_collected resp min_length collected =
        if ltb (length collected) min_length
        then resp
        else elim (gzip_bytes collected) [ none ↦ resp | some compressed ↦ encoded resp compressed ]

    -- once the headers have let the response pass
    unfoldable pub compress_body : Reply H → ℕ → Reply H
    unfolding compress_collected
    compress_body resp min_length = elim resp.body [
      | none ↦ record resp { body = some [] }
      | some collected ↦ compress_collected resp min_length collected
    ]

    unfoldable pub maybe_compress : Reply H → H.Map → Bool → List Text → Option ℕ → ℕ → Reply H
    unfolding client_accepts_gzip status_eligible content_type_eligible content_length compress_body
    maybe_compress resp req_headers gzip_enabled gzip_types max_collect min_length =
        if not gzip_enabled || not (client_accepts_gzip req_headers)
        then resp
        else if not (status_eligible resp.status)
        then resp
        else if is_some (H.get (codes "content-encoding") resp.headers)
        then resp
        else if not (content_type_eligible resp.headers gzip_types)
        then resp
        else if exceeds_cap max_collect (content_length resp.headers)
        then resp
        else compress_body resp min_length
