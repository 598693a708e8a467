-- ===== src/Template/Tests.antt =====
-- A request, its variables, and the theorems at it.
use elrond.Base.{
  ◌≡◌, refl, none, some, [], ◌∷◌, arith, if◌then◌else◌, codes, text_eq, is_whitespace, trim_start,
  trim_end, trim, split, split_once, strip_prefix,
}
use elrond.Static.Escape.{percent_decode, hex_digit}
use elrond.Template.{
  literal, classify, read_braced, read_name, parse_loop, parse_template, render_var, render,
}
use elrond.Template.Context.{RequestCtx, host_of, first_arg, query_arg, first_cookie, cookie}
use elrond.Template.Print.{render-parse_template}

abbrev ctx : RequestCtx
ctx = record {
  peer_ip = codes "10.0.0.9";
  name = some (codes "example.com");
  method = codes "GET";
  path = codes "/p";
  query = some (codes "a=1&id=x%2Fy");
  path_and_query = some (codes "/p?a=1&id=x%2Fy");
  authority = none;
  client_scheme = codes "http";
  header = λ n. if text_eq n (codes "cookie") then some (codes "s=7; sid=abc") else none;
  user_vars = [];
  from_utf8_lossy = λ bs. bs;
}

argument : query_arg ctx (codes "id") ≡ some (codes "x/y")
unfolding query_arg first_arg split split_once percent_decode hex_digit text_eq
argument = refl

session : cookie ctx (codes "sid") ≡ some (codes "abc")
unfolding cookie first_cookie split split_once trim trim_start trim_end is_whitespace text_eq
session = refl

-- a brace that is not closed loses its brace
unclosed : parse_template (codes "a${host") ≡ literal (codes "a$host") ∷ []
unfolding parse_template parse_loop read_name read_braced classify strip_prefix text_eq
unclosed = refl

render-parse_template_example :
    render ctx (parse_template (codes "${scheme}://${host}/x")) ≡ codes "http://example.com/x"
unfolding classify render_var host_of strip_prefix text_eq
render-parse_template_example =
    render-parse_template ctx (([], codes "scheme") ∷ (codes "://", codes "host") ∷ []) (codes "/x")
      (ground arith)
