-- ===== src/Config/Include/Done.antt =====
-- The depth of the includes of src/config/mod.rs: `visited` keeps it below the number of files.
use elrond.Base.{
  Result, ok, err, ℕ, zero, suc, ◌+◌, ◌≤◌, ◌≡◌, refl, subst, inl, inr, Bool, true, false, ◌||◌,
  Option, none, some, List, [], ◌∷◌, arith, if◌then◌else◌, Bool-cases, if-intro, length, any, Text,
  codes, text_eq, ◌>>=◌, IfOk, IfErr, IfErr-bind, IfOk->>=,
}
use elrond.Config.Parser.{parse, Block, Directives, directive, no_block, block, nil, cons}
use elrond.Config.Lexer.Total.{IsReported, lex-IsReported}
use elrond.Config.Parser.Kinds.{IsMessage}
use elrond.Config.Parser.Total.{parse-IsMessage}
use elrond.Config.Lexer.{lex}
use elrond.Config.Main.Whole.{IsConfig, build-IsConfig}
use elrond.Config.Location.{first}
use elrond.Config.Server.{Net}
use elrond.Config.Main.{Config, build}
use elrond.Config.Main.Whole.{IsConfig, build-IsConfig}
use elrond.Config.Include.{
  load, parent_of, candidate, Disk, LoadError, Loading, or_load, lift_load, read_tree, is_visited,
  no_path, cannot_find, cannot_read, include_cycle, not_lexed, not_parsed, not_built, too_deep,
  parent_of, Expander, include_file, expand_dirs, expand_block, expand_includes, load,
}

-- one of the source's messages: no fuel has run out, here, in the lexer or in the parser
abbrev pub IsAnswer : LoadError → Type 0
IsAnswer no_path = Unit
IsAnswer cannot_find = Unit
IsAnswer cannot_read = Unit
IsAnswer include_cycle = Unit
IsAnswer (not_lexed e) = IsReported e
IsAnswer (not_parsed e) = IsMessage e
IsAnswer (not_built e) = Unit
IsAnswer too_deep = ⊥

-- an answer, or one of the messages
abbrev pub IsDone {ℓ} : {A : Type ℓ} → Loading A → Type 0
IsDone r = IfErr r IsAnswer

IsDone-or_load {ℓ κ} :
    {A : Type ℓ} {B : Type κ} (o : Option A) (e : LoadError) (f : A → Loading B)
    → IsAnswer e
    → ((a : A) → o ≡ some a → IsDone (f a))
    → IsDone (or_load o e >>= f)
IsDone-or_load none e f h k = h
IsDone-or_load (some a) e f h k = k a refl

IsDone-lift_load {ℓ} :
    {E : Type 0} {A : Type ℓ} (f : E → LoadError) (r : Result E A)
    → IfErr r (λ e. IsAnswer (f e))
    → IsDone (lift_load f r)
IsDone-lift_load f (ok a) h = tt
IsDone-lift_load f (err e) h = h

lift_load-IfOk {ℓ κ} :
    {E : Type 0} {A : Type ℓ} (P : A → Type κ) (f : E → LoadError) (r : Result E A)
    → IfOk r P
    → IfOk (lift_load f r) P
lift_load-IfOk P f (ok a) h = h
lift_load-IfOk P f (err e) h = tt

any_error {ℓ} : {E : Type 0} {A : Type ℓ} (r : Result E A) → IfErr r (λ _. Unit {0})
any_error (ok a) = tt
any_error (err e) = tt

read_tree-IsDone : (t : Text) → IsDone (read_tree t)
unfolding read_tree
read_tree-IsDone t =
    IfErr-bind IsAnswer (lift_load not_lexed (lex t)) _
      (IsDone-lift_load not_lexed (lex t) (lex-IsReported t))
      (λ tokens. IsDone-lift_load not_parsed (parse tokens) (parse-IsMessage tokens))

module _ (D : Disk) where
  open D use {PathBuf, path_eq, canonicalize, read_to_string}

  -- These are the files that there are, and `path_eq` tells paths apart.
  pub record IsDisk (files : List PathBuf) : Type 0 where
    pub sound : (p q : PathBuf) → path_eq p q ≡ true → p ≡ q
    pub complete : (p : PathBuf) → path_eq p p ≡ true
    pub found : (p q : PathBuf) → canonicalize p ≡ some q → any (λ f. path_eq f q) files ≡ true

  -- how many of the files do not stand open
  unopened : List PathBuf → List PathBuf → ℕ
  unopened [] visited = 0
  unopened (f ∷ fs) visited = (if is_visited D f visited then 0 else 1) + unopened fs visited

  one_fewer : (a b : Bool) → (if a || b then 0 else 1) ≤ (if b then 0 else 1)
  one_fewer true true = omega arith
  one_fewer true false = omega arith
  one_fewer false b = omega arith

  unopened-le :
      (fs visited : List PathBuf) (p : PathBuf) → unopened fs (p ∷ visited) ≤ unopened fs visited
  unfolding unopened
  unopened-le [] visited p = omega arith
  unopened-le (f ∷ fs) visited p =
      omega (arith, unopened-le fs visited p, one_fewer (path_eq p f) (is_visited D f visited))

  unopened-length : (fs visited : List PathBuf) → unopened fs visited ≤ length fs
  unfolding unopened
  unopened-length [] visited = omega arith
  unopened-length (f ∷ fs) visited =
      omega (arith, unopened-length fs visited, at_most (is_visited D f visited))
    where
      at_most : (b : Bool) → (if b then 0 else 1) ≤ 1
      at_most true = omega arith
      at_most false = omega arith

  module _ (files : List PathBuf) (K : IsDisk files) where
    unopened-fewer :
        (fs visited : List PathBuf) (p : PathBuf)
        → is_visited D p visited ≡ false
        → any (λ f. path_eq f p) fs ≡ true
        → unopened fs (p ∷ visited) + 1 ≤ unopened fs visited
    unfolding unopened
    unopened-fewer [] visited p u h = absurd cc
    unopened-fewer (f ∷ fs) visited p u h = elim (Bool-cases (path_eq f p)) [
      | inl e ↦ here (K.sound f p e)
      | inr e ↦ omega (
        arith,
        unopened-fewer fs visited p u (later e),
        one_fewer (path_eq p f) (is_visited D f visited),
      )
    ]
      where
        later : path_eq f p ≡ false → any (λ g. path_eq g p) fs ≡ true
        later e = subst (λ b. (b || any (λ g. path_eq g p) fs) ≡ true) e h

        here :
            f ≡ p
            → (if path_eq p f || is_visited D f visited then 0 else 1)
                + unopened fs (p ∷ visited)
                + 1
              ≤ (if is_visited D f visited then 0 else 1) + unopened fs visited
        here e = rw (e, u, K.complete p) (omega (arith, unopened-le fs visited p))

    module _ (further : Expander D) (base : PathBuf) (visited : List PathBuf)
        (deeper : (b p : PathBuf) (ds : Directives)
          → unopened files (p ∷ visited) + 1 ≤ unopened files visited
          → IsDone (further b (p ∷ visited) ds)) where
      include_file-IsDone : (given : List Text) → IsDone (include_file D further base visited given)
      unfolding include_file
      include_file-IsDone given = IsDone-or_load (first given) no_path _ tt (λ raw _.
          IsDone-or_load (canonicalize (candidate D base raw)) cannot_find _ tt (λ p e.
            if-intro (λ (r : Loading Directives). IsDone r) (is_visited D p visited) _ _ (λ _. tt)
              (λ u. IsDone-or_load (read_to_string p) cannot_read _ tt (λ t _.
                IfErr-bind IsAnswer (read_tree t) _ (read_tree-IsDone t)
                  (λ sub. deeper _ p sub (unopened-fewer files visited p u (K.found _ p e)))))))

      mutual
        unfolding expand_dirs expand_block

        expand_dirs-IsDone : (ds : Directives) → IsDone (expand_dirs D further base visited ds)
        expand_dirs-IsDone nil = tt
        expand_dirs-IsDone (cons (directive name given b line) ds) =
            if-intro (λ (r : Loading Directives). IsDone r) (text_eq name (codes "include")) _ _
              (λ _.
                IfErr-bind IsAnswer (include_file D further base visited given) _
                  (include_file-IsDone given)
                  (λ xs.
                    IfErr-bind IsAnswer (expand_dirs D further base visited ds) _
                      (expand_dirs-IsDone ds) (λ ys. tt)))
              (λ _.
                IfErr-bind IsAnswer (expand_block D further base visited b) _
                  (expand_block-IsDone b)
                  (λ b'.
                    IfErr-bind IsAnswer (expand_dirs D further base visited ds) _
                      (expand_dirs-IsDone ds) (λ ys. tt)))

        expand_block-IsDone : (b : Block) → IsDone (expand_block D further base visited b)
        expand_block-IsDone no_block = tt
        expand_block-IsDone (block ds) =
            IfErr-bind IsAnswer (expand_dirs D further base visited ds) _ (expand_dirs-IsDone ds)
              (λ ys. tt)

    expand_includes-IsDone :
        (fuel : ℕ) (base : PathBuf) (visited : List PathBuf) (ds : Directives)
        → unopened files visited + 1 ≤ fuel
        → IsDone (expand_includes D fuel base visited ds)
    unfolding expand_includes
    expand_includes-IsDone zero base visited ds h = absurd (omega (arith, h))
    expand_includes-IsDone (suc fuel) base visited ds h =
        expand_dirs-IsDone (expand_includes D fuel) base visited
          (λ b p s k. expand_includes-IsDone fuel b (p ∷ visited) s (omega (arith, h, k))) ds

  -- On a disk with these files, as many levels as there are files are enough to load a configuration:
  -- whatever they hold and however they include one another, the result is a configuration or one of
  -- the messages. A configuration that is loaded is one as `build` makes it (`IsConfig`).
  pub load-IsDone :
      (files : List PathBuf) (K : IsDisk files) (N : Net) {R : Type 0}
      (parse_rate : Text → Option R) (start : PathBuf)
      → IsDone (load D N parse_rate (length files) start)
        × IfOk (load D N parse_rate (length files) start) (IsConfig N parse_rate)
  unfolding load
  load-IsDone files K N parse_rate start =
      let Good : Config N parse_rate → Type 0 = IsConfig N parse_rate in
      let expansion = λ (p : PathBuf) (dirs : Directives).
        expand_includes D (length files) (parent_of D p) (p ∷ []) dirs in
      (
        IsDone-or_load (canonicalize start) cannot_find _ tt (λ p e.
            IsDone-or_load (read_to_string p) cannot_read _ tt (λ t _.
              IfErr-bind IsAnswer (read_tree t) _ (read_tree-IsDone t) (λ dirs.
                IfErr-bind IsAnswer (expansion p dirs) _
                  (expand_includes-IsDone files K (length files) (parent_of D p) (p ∷ []) dirs (
                    omega (
                      arith,
                      unopened-fewer files K files [] p refl (K.found start p e),
                      unopened-length files [],
                    )))
                  (λ ds.
                    IsDone-lift_load not_built (build N parse_rate ds)
                      (any_error (build N parse_rate ds)))))),
        IfOk->>= Good (or_load (canonicalize start) cannot_find) _ (λ p.
            IfOk->>= Good (or_load (read_to_string p) cannot_read) _ (λ t.
              IfOk->>= Good (read_tree t) _ (λ dirs. IfOk->>= Good (expansion p dirs) _ (λ ds.
                lift_load-IfOk Good not_built (build N parse_rate ds)
                  (build-IsConfig N parse_rate ds))))),
      )
