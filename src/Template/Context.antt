-- ===== src/Template/Context.antt =====
-- `RequestCtx` of src/request_ctx.rs. The URI is in its parts, whose characters are ASCII, and the
-- headers are what `get` and `to_str` make of them; `String::from_utf8_lossy` is a field.
use elrond.Base.{
  ℕ, Option, none, some, List, [], ◌∷◌, if◌then◌else◌, unwrap_or, ◌>>=?◌, Text, codes, text_eq,
  Dict, trim, split, split_once,
}
use elrond.Static.Escape.{percent_decode}

pub record RequestCtx : Type 0 where
  pub peer_ip : Text
  pub name : Option Text  -- `server_name`
  pub method : Text
  pub path : Text
  pub query : Option Text
  pub path_and_query : Option Text
  pub authority : Option Text
  pub client_scheme : Text
  pub header : Text → Option Text
  pub user_vars : Dict Text
  pub from_utf8_lossy : List ℕ → Text

unfoldable pub host_of : RequestCtx → Text
host_of ctx = elim (ctx.header (codes "host")) [
  | some v ↦ v
  | none ↦ elim ctx.authority [ some a ↦ a | none ↦ unwrap_or ctx.name [] ]
]

-- the first pair of the name; a pair without `=` has an empty value
unfoldable pub first_arg : Text → List Text → Option Text
unfolding split_once text_eq
first_arg name [] = none
first_arg name (pair ∷ pairs) =
    let (k, v) = unwrap_or (split_once b'=' pair) (pair, []) in
    let further = first_arg name pairs in if text_eq k name then some v else further

unfoldable pub query_arg : RequestCtx → Text → Option Text
unfolding first_arg split percent_decode
query_arg ctx name = ctx.query >>=? λ q.
    first_arg name (split b'&' q) >>=? λ v. some (ctx.from_utf8_lossy (percent_decode v))

unfoldable pub first_cookie : Text → List Text → Option Text
unfolding split_once trim text_eq
first_cookie name [] = none
first_cookie name (kv ∷ kvs) =
    let further = first_cookie name kvs in
    elim (split_once b'=' (trim kv)) [
      | none ↦ further
      | some (k, v) ↦ if text_eq k name then some v else further
    ]

unfoldable pub cookie : RequestCtx → Text → Option Text
unfolding first_cookie split
cookie ctx name = ctx.header (codes "cookie") >>=? λ raw. first_cookie name (split b';' raw)
