-- ===== src/Config/Include/Tests.antt =====
-- Two files, of which one takes the other in, and the theorems at them.
use elrond.Base.{
  err, ℕ, ◌≡◌, refl, Bool, true, false, Option, none, some, List, [], ◌∷◌, if◌then◌else◌, any, Text,
  codes, text_eq, IfOk, to_ascii_lowercase,
}
use elrond.Config.Parser.{parse, directive, nil, cons, no_block}
use elrond.Config.Server.{Net}
use elrond.Config.Main.Whole.{IsConfig}
use elrond.Config.Lexer.{lex}
use elrond.Config.Include.{expand_dirs, include_file, Disk, load, expand_includes, include_cycle}
use elrond.Config.Include.Flat.{IsExpanded, expand_includes-IsExpanded}
use elrond.Config.Include.Done.{IsDone, IsDisk, load-IsDone}

abbrev ports : Net
ports = record {
  SocketAddr = ℕ;
  any_address = λ port. port;
  parse_addr = λ _. none;
  to_lowercase = to_ascii_lowercase;
}

abbrev rate : Text → Option Text
rate t = some t

data Name : Type 0 where
  main_conf part_conf absent : Name

abbrev name_eq : Name → Name → Bool
name_eq main_conf main_conf = true
name_eq main_conf part_conf = false
name_eq main_conf absent = false
name_eq part_conf main_conf = false
name_eq part_conf part_conf = true
name_eq part_conf absent = false
name_eq absent main_conf = false
name_eq absent part_conf = false
name_eq absent absent = true

abbrev there : Name → Option Name
there main_conf = some main_conf
there part_conf = some part_conf
there absent = none

abbrev text_of : Text → Name → Option Text
text_of part main_conf = some (codes "include part.conf;")
text_of part part_conf = some part
text_of part absent = none

-- the disk on which `part.conf` holds this text
abbrev disk : Text → Disk
disk part = record {
  PathBuf = Name;
  path_eq = name_eq;
  is_absolute = λ _. false;
  of_text = λ _. absent;
  join = λ _ raw. if text_eq raw (codes "part.conf") then part_conf else absent;
  parent = λ _. none;
  canonicalize = there;
  read_to_string = text_of part;
}

abbrev files : List Name
files = main_conf ∷ part_conf ∷ []

disk-IsDisk : (part : Text) → IsDisk (disk part) files
disk-IsDisk part = record { sound = sound; complete = complete; found = found }
  where
    sound : (p q : Name) → name_eq p q ≡ true → p ≡ q
    sound main_conf main_conf h = refl
    sound part_conf part_conf h = refl
    sound absent absent h = refl
    sound main_conf part_conf h = absurd cc
    sound main_conf absent h = absurd cc
    sound part_conf main_conf h = absurd cc
    sound part_conf absent h = absurd cc
    sound absent main_conf h = absurd cc
    sound absent part_conf h = absurd cc

    complete : (p : Name) → name_eq p p ≡ true
    complete main_conf = refl
    complete part_conf = refl
    complete absent = refl

    found : (p q : Name) → there p ≡ some q → any (λ f. name_eq f q) files ≡ true
    found p main_conf h = refl
    found p part_conf h = refl
    found main_conf absent h = absurd cc
    found part_conf absent h = absurd cc
    found absent absent h = absurd cc

abbrev web : Text
web = codes "http { server { listen 80; root /www; location / { } } }"

-- a file that takes itself in
self_included : load (disk (codes "include part.conf;")) ports rate 2 main_conf ≡ err include_cycle
unfolding load expand_includes lex parse expand_dirs text_eq include_file
self_included = refl

load-IsDone_example :
    IsDone (load (disk web) ports rate 2 main_conf)
    × IfOk (load (disk web) ports rate 2 main_conf) (IsConfig ports rate)
load-IsDone_example = load-IsDone (disk web) files (disk-IsDisk web) ports rate main_conf

expand_includes-IsExpanded_example :
    IfOk
      (expand_includes
        (disk web)
        2
        main_conf
        (main_conf ∷ [])
        (cons (directive (codes "include") (codes "part.conf" ∷ []) no_block 1) nil))
      (IsExpanded (disk web))
expand_includes-IsExpanded_example =
    expand_includes-IsExpanded (disk web) 2 main_conf (main_conf ∷ [])
      (cons (directive (codes "include") (codes "part.conf" ∷ []) no_block 1) nil)
