-- ===== src/Config/Location/Build.antt =====
-- The loop of `build_location` of src/config/build.rs, and what it checks behind it.
use elrond.Base.{
  ok, err, ℕ, Bool, true, false, not, ◌&&◌, Option, none, some, List, [], ◌∷◌, ◌++◌, if◌then◌else◌,
  is_some, is_none, unwrap_or, any, Text, codes, text_eq, ◌>>=◌,
}
use elrond.Config.Args.{parse_on_off, parse_limit_req, parse_cache_valid, parse_limit_conn}
use elrond.Config.Measures.{parse_duration}
use elrond.Config.Parser.{Directives, directive, nil, cons}
use elrond.Template.{parse_template}
use elrond.Config.Location.{
  Settings, Building, or_error, lift, LocationKind, TryFilesEntry, Action, Location, Draft,
  default_settings, first, second, arg1, is_content, content_of, try_files_of, not_known,
  bad_duration, several_contents, content_beside_try_files, no_root, no_action, no_user_file,
  half_a_certificate, root_action, try_files_action,
}

abbrev one_of : Text → List Text → Bool
one_of name names = any (λ n. text_eq name n) names

-- the directives that are passed over
abbrev ignored : List Text
ignored =
    codes "proxy_cache_bypass"
    ∷ codes "proxy_no_cache"
    ∷ codes "proxy_cache_lock"
    ∷ codes "proxy_cache_use_stale"
    ∷ codes "proxy_cache_revalidate"
    ∷ codes "proxy_cache_methods"
    ∷ codes "proxy_cache_min_uses"
    ∷ codes "limit_req_status"
    ∷ codes "limit_conn_status"
    ∷ codes "proxy_ssl_trusted_certificate"
    ∷ codes "proxy_ssl_server_name"
    ∷ codes "proxy_ssl_session_reuse"
    ∷ codes "proxy_ssl_protocols"
    ∷ codes "proxy_ssl_ciphers"
    ∷ codes "include"
    ∷ codes "index"
    ∷ codes "proxy_buffering"
    ∷ codes "proxy_send_timeout"
    ∷ codes "proxy_next_upstream"
    ∷ codes "proxy_hide_header"
    ∷ codes "proxy_pass_header"
    ∷ codes "proxy_redirect"
    ∷ []

abbrev pub duration_of : Text → Building ℕ
duration_of v = or_error (parse_duration v) (bad_duration v)

-- the arms of the proxy, but for `proxy_pass`
unfoldable pub proxy_setting : Text → List Text → Settings → Option (Building Settings)
unfolding text_eq parse_duration parse_on_off parse_cache_valid parse_template
proxy_setting name given s =
    if text_eq name (codes "proxy_set_header")
    then some (
        arg1 name given >>= λ n.
        ok (record s { set_headers = s.set_headers ++ (n, parse_template (second given)) ∷ [] }))
    else if text_eq name (codes "proxy_cache")
    then some (arg1 name given >>= λ z. ok (record s { proxy_cache = some z }))
    else if text_eq name (codes "proxy_cache_key")
    then some (arg1 name given >>= λ k. ok (record s { proxy_cache_key = some (parse_template k) }))
    else if text_eq name (codes "proxy_cache_valid")
    then some (
        lift (parse_cache_valid given) >>= λ rule.
        ok (record s { proxy_cache_valid = s.proxy_cache_valid ++ rule ∷ [] }))
    else if text_eq name (codes "proxy_connect_timeout")
    then some (
        arg1 name given >>= λ v.
        duration_of v >>= λ d. ok (record s { proxy_connect_timeout = some d }))
    else if text_eq name (codes "proxy_read_timeout")
    then some (
        arg1 name given >>= λ v.
        duration_of v >>= λ d. ok (record s { proxy_read_timeout = some d }))
    else if text_eq name (codes "proxy_ssl_verify")
    then some (lift (parse_on_off (first given)) >>= λ b. ok (record s { proxy_ssl_verify = b }))
    else if text_eq name (codes "proxy_ssl_certificate")
    then some (arg1 name given >>= λ c. ok (record s { proxy_ssl_certificate = some c }))
    else if text_eq name (codes "proxy_ssl_certificate_key")
    then some (arg1 name given >>= λ c. ok (record s { proxy_ssl_certificate_key = some c }))
    else none

-- the other arms that make no candidate, but for `try_files`
unfoldable pub setting : Text → List Text → Settings → Building Settings
unfolding text_eq parse_duration parse_on_off parse_limit_req parse_limit_conn parse_template
setting name given s =
    if text_eq name (codes "add_header")
    then (arg1 name given >>= λ n.
        ok (record s { add_headers = s.add_headers ++ (n, parse_template (second given)) ∷ [] }))
    else if text_eq name (codes "expires")
    then (arg1 name given >>= λ v. duration_of v >>= λ d. ok (record s { expires = some d }))
    else if text_eq name (codes "gzip")
    then (lift (parse_on_off (first given)) >>= λ b. ok (record s { gzip = some b }))
    else if text_eq name (codes "autoindex")
    then (lift (parse_on_off (first given)) >>= λ b. ok (record s { autoindex = b }))
    else if text_eq name (codes "auth_basic")
    then (arg1 name given >>= λ realm.
        ok (record s {
          auth_basic_realm = if text_eq realm (codes "off") then none else some realm;
        }))
    else if text_eq name (codes "auth_basic_user_file")
    then (arg1 name given >>= λ f. ok (record s { auth_basic_user_file = some f }))
    else if text_eq name (codes "limit_req")
    then (lift (parse_limit_req given) >>= λ l. ok (record s { limit_req = some l }))
    else if text_eq name (codes "limit_conn")
    then (lift (parse_limit_conn given) >>= λ l. ok (record s { limit_conn = some l }))
    else if text_eq name (codes "allow")
    then (arg1 name given >>= λ t.
        ok (record s { access_rules = s.access_rules ++ (true, t) ∷ [] }))
    else if text_eq name (codes "deny")
    then (arg1 name given >>= λ t.
        ok (record s { access_rules = s.access_rules ++ (false, t) ∷ [] }))
    else if text_eq name (codes "auth_request")
    then (arg1 name given >>= λ v. ok (record s { auth_request = some (parse_template v) }))
    else if text_eq name (codes "mirror")
    then (arg1 name given >>= λ v. ok (record s { mirrors = s.mirrors ++ parse_template v ∷ [] }))
    else if one_of name ignored
    then ok s
    else err (not_known name)

-- a candidate, where there is none yet
abbrev pub put_action : Draft → Action → Building Draft
put_action draft found =
    if is_some draft.action then err several_contents else ok (record draft { action = some found })

abbrev pub with_settings : Draft → Settings → Building Draft
with_settings draft s = ok (record draft { settings = s })

unfoldable pub location_directive : Draft → Text → List Text → Building Draft
location_directive draft name given =
    if is_content name
    then (content_of name given >>= put_action draft)
    else if text_eq name (codes "try_files")
    then (try_files_of given >>= λ entries. ok (record draft { try_files = some entries }))
    else (unwrap_or (proxy_setting name given draft.settings) (setting name given draft.settings)
        >>= with_settings draft)

unfoldable pub location_directives : Draft → Directives → Building Draft
location_directives draft nil = ok draft
location_directives draft (cons (directive name given _ _) ds) =
    location_directive draft name given >>= λ draft'. location_directives draft' ds

-- the action that the content directive, `try_files` and the root of the server come to
unfoldable pub settle : Option (List TryFilesEntry) → Option Action → Option Text → Building Action
settle (some entries) (some (root_action dir)) server_root = ok (try_files_action dir entries)
settle (some entries) (some _) server_root = err content_beside_try_files
settle (some entries) none server_root =
    or_error server_root no_root >>= λ r. ok (try_files_action r entries)
settle none (some a) server_root = ok a
settle none none server_root = or_error server_root no_action >>= λ r. ok (root_action r)

abbrev pub same : Bool → Bool → Bool
same true b = b
same false b = not b

-- the two checks at the end
unfoldable pub checked : Settings → Building Settings
checked s =
    if is_some s.auth_basic_realm && is_none s.auth_basic_user_file
    then err no_user_file
    else if not (same (is_some s.proxy_ssl_certificate) (is_some s.proxy_ssl_certificate_key))
    then err half_a_certificate
    else ok s

unfoldable pub build_location : Text → LocationKind → Directives → Option Text → Building Location
build_location pattern kind dirs server_root =
    location_directives (record { action = none; try_files = none; settings = default_settings })
      dirs
    >>= λ draft. settle draft.try_files draft.action server_root >>= λ action.
        checked draft.settings >>= λ settings.
        ok (record { kind = kind; pattern = pattern; action = action; settings = settings })
