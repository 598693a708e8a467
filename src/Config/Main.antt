-- ===== src/Config/Main.antt =====
-- `build` of src/config/build.rs: the directives of a whole configuration.
pub mod Streams
pub mod Whole
mod Tests
use elrond.Base.{
  ok, err, ℕ, ◌^◌, Option, none, some, List, [], ◌∷◌, if◌then◌else◌, any, Text, codes, text_eq,
  ◌>>=◌, parse_below,
}
use elrond.Config.Parser.{Directives, directive, nil, cons, Block}
use elrond.Config.Location.{
  BuildError, arg1, Building, or_error, expect_block, not_known, no_user, bad_integer,
}
use elrond.Config.Server.{Net}
use elrond.Config.Http.{Http, build_http, Stream, build_stream}

abbrev ignored : List Text
ignored =
    codes "events"
    ∷ codes "include"
    ∷ codes "load_module"
    ∷ codes "daemon"
    ∷ codes "master_process"
    ∷ codes "worker_shutdown_timeout"
    ∷ []

-- the fields that are only set
pub record Globals : Type 0 where
  pub worker_processes : Option Text
  pub pid : Option Text
  pub error_log : Option Text
  pub user : Option Text
  pub group : Option Text
  pub worker_rlimit_nofile : Option ℕ

-- the `user` arm
abbrev user_of : Globals → List Text → Building Globals
user_of g [] = err no_user
user_of g (u ∷ []) = ok (record g { user = some u })
user_of g (u ∷ v ∷ _) = ok (record g { user = some u; group = some v })

unfoldable pub global_directive : Globals → Text → List Text → Building Globals
unfolding text_eq parse_below
global_directive g name given =
    if text_eq name (codes "worker_processes")
    then (arg1 name given >>= λ v. ok (record g { worker_processes = some v }))
    else if text_eq name (codes "pid")
    then (arg1 name given >>= λ v. ok (record g { pid = some v }))
    else if text_eq name (codes "error_log")
    then (arg1 name given >>= λ v. ok (record g { error_log = some v }))
    else if text_eq name (codes "user")
    then user_of g given
    else if text_eq name (codes "worker_rlimit_nofile")
    then (arg1 name given >>= λ v. or_error (parse_below (2 ^ 64) v) bad_integer >>= λ n.
        ok (record g { worker_rlimit_nofile = some n }))
    else if any (λ n. text_eq name n) ignored
    then ok g
    else err (not_known name)

module _ (N : Net) {R : Type 0} (parse_rate : Text → Option R) where
  pub record Config : Type 0 where
    pub globals : Globals
    pub http : Option (Http N parse_rate)
    pub stream : Option (Stream N parse_rate)

  unfoldable pub main_directive : Config → Text → List Text → Block → Building Config
  unfolding text_eq
  main_directive c name given b =
      if text_eq name (codes "http")
      then (expect_block name b >>= λ dirs.
          build_http N parse_rate dirs >>= λ h. ok (record c { http = some h }))
      else if text_eq name (codes "stream")
      then (expect_block name b >>= λ dirs.
          build_stream N parse_rate dirs >>= λ s. ok (record c { stream = some s }))
      else (global_directive c.globals name given >>= λ g. ok (record c { globals = g }))

  unfoldable pub main_directives : Config → Directives → Building Config
  main_directives c nil = ok c
  main_directives c (cons (directive name given b _) ds) =
      main_directive c name given b >>= λ c'. main_directives c' ds

  abbrev pub default_config : Config
  default_config = record {
    globals = record {
      worker_processes = none;
      pid = none;
      error_log = none;
      user = none;
      group = none;
      worker_rlimit_nofile = none;
    };
    http = none;
    stream = none;
  }

  unfoldable pub build : Directives → Building Config
  build dirs = main_directives default_config dirs
