-- ===== src/Config/Include.antt =====
-- `load` and `expand_includes` of src/config/mod.rs. The paths and the file system are the standard
-- library's, and arguments: a failure of theirs is `none`.
pub mod Flat
pub mod Done
mod Tests
use elrond.Base.{
  Result, ok, err, ℕ, zero, suc, Bool, Option, none, some, List, [], ◌∷◌, if◌then◌else◌, unwrap_or,
  any, Text, codes, text_eq, ◌>>=◌,
}
use elrond.Config.Lexer.{LexError, lex}
use elrond.Config.Parser.{
  ParseError, parse, Directives, directive, nil, cons, Block, no_block, block,
}
use elrond.Config.Location.{BuildError, first}
use elrond.Config.Server.{Net}
use elrond.Config.Main.{Config, build}

pub record Disk : Type 1 where
  pub PathBuf : Type 0
  pub path_eq : PathBuf → PathBuf → Bool
  pub is_absolute : Text → Bool
  pub of_text : Text → PathBuf
  pub join : PathBuf → Text → PathBuf
  pub parent : PathBuf → Option PathBuf
  pub canonicalize : PathBuf → Option PathBuf
  pub read_to_string : PathBuf → Option Text

-- The messages; and the end of the fuel, which is never met.
pub data LoadError : Type 0 where
  no_path cannot_find cannot_read include_cycle : LoadError
  not_lexed : LexError → LoadError
  not_parsed : ParseError → LoadError
  not_built : BuildError → LoadError
  too_deep : LoadError

abbrev pub Loading {ℓ} : Type ℓ → Type ℓ
Loading A = Result LoadError A

abbrev pub or_load {ℓ} : {A : Type ℓ} → Option A → LoadError → Loading A
or_load none e = err e
or_load (some a) e = ok a

abbrev pub lift_load {ℓ} : {E : Type 0} {A : Type ℓ} → (E → LoadError) → Result E A → Loading A
lift_load f (ok a) = ok a
lift_load f (err e) = err (f e)

-- `out.extend`
unfoldable pub extend : Directives → Directives → Directives
extend nil ds' = ds'
extend (cons d ds) ds' = cons d (extend ds ds')

-- the directives of a text
unfoldable pub read_tree : Text → Loading Directives
read_tree t = lift_load not_lexed (lex t) >>= λ tokens. lift_load not_parsed (parse tokens)

module _ (D : Disk) where
  open D use {PathBuf, path_eq, is_absolute, of_text, join, parent, canonicalize, read_to_string}

  abbrev pub is_visited : PathBuf → List PathBuf → Bool
  is_visited path visited = any (λ v. path_eq v path) visited

  abbrev pub candidate : PathBuf → Text → PathBuf
  candidate base raw = if is_absolute raw then of_text raw else join base raw

  abbrev pub parent_of : PathBuf → PathBuf
  parent_of path = unwrap_or (parent path) (of_text (codes "."))

  -- How the trees of included files are expanded: from their folder, and what stands open.
  abbrev pub Expander : Type 0
  Expander = PathBuf → List PathBuf → Directives → Loading Directives

  -- An `include`. `visited` is given back as it was: what is put in is taken out again.
  unfoldable pub include_file : Expander → PathBuf → List PathBuf → List Text → Loading Directives
  include_file further base visited given = or_load (first given) no_path >>= λ raw.
      or_load (canonicalize (candidate base raw)) cannot_find >>= λ path.
      if is_visited path visited
      then err include_cycle
      else (or_load (read_to_string path) cannot_read >>= λ t.
          read_tree t >>= λ sub. further (parent_of path) (path ∷ visited) sub)

  -- the loop of `expand_includes`, and its descent into blocks
  unfoldable mutual
    pub expand_dirs : Expander → PathBuf → List PathBuf → Directives → Loading Directives
    expand_dirs further base visited nil = ok nil
    expand_dirs further base visited (cons (directive name given b line) ds) =
        if text_eq name (codes "include")
        then (include_file further base visited given >>= λ expanded.
            expand_dirs further base visited ds >>= λ out. ok (extend expanded out))
        else (expand_block further base visited b >>= λ b'.
            expand_dirs further base visited ds >>= λ out.
            ok (cons (directive name given b' line) out))

    pub expand_block : Expander → PathBuf → List PathBuf → Block → Loading Block
    expand_block further base visited no_block = ok no_block
    expand_block further base visited (block ds) =
        expand_dirs further base visited ds >>= λ ds'. ok (block ds')

  -- `expand_includes`, where so many files may stand open
  unfoldable pub expand_includes : ℕ → Expander
  expand_includes zero base visited dirs = err too_deep
  expand_includes (suc fuel) base visited dirs =
      expand_dirs (expand_includes fuel) base visited dirs

  module _ (N : Net) {R : Type 0} (parse_rate : Text → Option R) where
    unfoldable pub load : ℕ → PathBuf → Loading (Config N parse_rate)
    unfolding read_tree
    load fuel path = or_load (canonicalize path) cannot_find >>= λ abs.
        or_load (read_to_string abs) cannot_read >>= λ t. read_tree t >>= λ dirs.
        expand_includes fuel (parent_of abs) (abs ∷ []) dirs >>= λ expanded.
        lift_load not_built (build N parse_rate expanded)
