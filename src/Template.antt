-- ===== src/Template.antt =====
-- src/template.rs and src/request_ctx.rs: the variables in configuration values, and the parts of a
-- request that they name.
pub mod Context
pub mod Print
mod Tests
use elrond.Base.{
  ℕ, zero, suc, Bool, true, false, not, ◌&&◌, ◌||◌, none, some, List, [], ◌∷◌, ◌++◌, map, leb, ◌==◌,
  if◌then◌else◌, unwrap_or, length, is_empty, Text, codes, text_eq, lookup, strip_prefix,
}
use elrond.Template.Context.{RequestCtx, host_of, query_arg, cookie}

pub data VarRef : Type 0 where
  host remote_addr request_uri uri request_method args scheme server_name : VarRef
  arg http cookie_value unknown : Text → VarRef

pub data Segment : Type 0 where
  literal : Text → Segment
  var : VarRef → Segment

unfoldable pub classify : Text → VarRef
unfolding strip_prefix text_eq
classify name = elim (strip_prefix name (codes "arg_")) [
  | some rest ↦ arg rest
  | none ↦ elim (strip_prefix name (codes "http_")) [
    | some rest ↦ http rest
    | none ↦ elim (strip_prefix name (codes "cookie_")) [
      | some rest ↦ cookie_value rest
      | none ↦
          if text_eq name (codes "host")
          then host
          else if text_eq name (codes "remote_addr")
          then remote_addr
          else if text_eq name (codes "request_uri")
          then request_uri
          else if text_eq name (codes "uri") || text_eq name (codes "document_uri")
          then uri
          else if text_eq name (codes "request_method")
          then request_method
          else if text_eq name (codes "args") || text_eq name (codes "query_string")
          then args
          else if text_eq name (codes "scheme")
          then scheme
          else if text_eq name (codes "server_name")
          then server_name
          else unknown name
    ]
  ]
]

-- behind `${`: the name up to the brace, whether there was one, and the rest
unfoldable pub read_braced : Text → Text → Text × Bool × Text
read_braced n [] = (n, false, [])
read_braced n (c ∷ cs) =
    let more = read_braced (n ++ c ∷ []) cs in if c == b'}' then (n, true, cs) else more

-- `is_ascii_alphanumeric`, or an underscore
unfoldable pub is_name_char : ℕ → Bool
is_name_char c =
    (leb b'a' c && leb c b'z')
    || (leb b'A' c && leb c b'Z')
    || (leb b'0' c && leb c b'9')
    || c == b'_'

unfoldable pub read_bare : Text → Text → Text × Text
unfolding is_name_char
read_bare n [] = (n, [])
read_bare n (c ∷ cs) =
    let more = read_bare (n ++ c ∷ []) cs in if is_name_char c then more else (n, c ∷ cs)

-- behind a `$`: the name, whether it is recognized, and the rest
unfoldable pub read_name : Text → Text × Bool × Text
unfolding read_braced read_bare
read_name [] = ([], false, [])
read_name (c ∷ cs) =
    if c == b'{'
    then read_braced [] cs
    else (let (n, rest) = read_bare [] (c ∷ cs) in (n, not (is_empty n), rest))

-- a literal is pushed if there is one
abbrev pub flush : Text → List Segment
flush [] = []
flush (c ∷ cs) = literal (c ∷ cs) ∷ []

-- the loop of `parse`, on fuel
unfoldable pub parse_loop : ℕ → Text → Text → List Segment
unfolding read_name classify
parse_loop zero lit cs = flush lit
parse_loop (suc fuel) lit [] = flush lit
parse_loop (suc fuel) lit (c ∷ cs) =
    let (name, recognized, rest) = read_name cs in
    let kept = parse_loop fuel (lit ++ c ∷ []) cs in
    let restored = parse_loop fuel (lit ++ b'$' ∷ name) rest in
    let further = flush lit ++ var (classify name) ∷ parse_loop fuel [] rest in
    if not (c == b'$') then kept else if not recognized then restored else further

unfoldable pub parse_template : Text → List Segment
unfolding parse_loop
parse_template input = parse_loop (length input) [] input

-- `replace('_', "-")`
abbrev pub hyphenated : Text → Text
hyphenated s = map (λ c. if c == b'_' then b'-' else c) s

-- what a variable pushes
unfoldable pub render_var : RequestCtx → VarRef → Text
unfolding host_of query_arg cookie lookup
render_var ctx host = host_of ctx
render_var ctx remote_addr = ctx.peer_ip
render_var ctx request_uri = unwrap_or ctx.path_and_query ctx.path
render_var ctx uri = ctx.path
render_var ctx request_method = ctx.method
render_var ctx args = unwrap_or ctx.query []
render_var ctx scheme = ctx.client_scheme
render_var ctx server_name = unwrap_or ctx.name []
render_var ctx (arg n) = unwrap_or (query_arg ctx n) []
render_var ctx (http n) = unwrap_or (ctx.header (hyphenated n)) []
render_var ctx (cookie_value n) = unwrap_or (cookie ctx n) []
render_var ctx (unknown n) = unwrap_or (lookup n ctx.user_vars) []

unfoldable pub render : RequestCtx → List Segment → Text
unfolding render_var
render ctx [] = []
render ctx (literal s ∷ segments) = s ++ render ctx segments
render ctx (var v ∷ segments) = render_var ctx v ++ render ctx segments
