-- ===== src/Config/Include/Flat.antt =====
-- What `expand_includes` of src/config/mod.rs leaves of the includes.
use elrond.Base.{
  ok, err, ℕ, zero, suc, ◌≡◌, refl, false, List, if-intro, Text, codes, text_eq, IfOk, IfOk-bind,
  IfOk->>=,
}
use elrond.Config.Parser.{Directives, directive, nil, cons, Block, no_block, block}
use elrond.Config.Location.{first}
use elrond.Config.Include.{
  no_path, cannot_find, cannot_read, read_tree, Disk, Loading, Expander, extend, include_file,
  expand_dirs, expand_block, expand_includes, is_visited, or_load, candidate,
}

-- no `include`, at any depth
mutual
  pub IsFlat : Directives → Type 0
  IsFlat nil = Unit
  IsFlat (cons (directive name given b line) ds) =
      (text_eq name (codes "include") ≡ false) × IsFlatBlock b × IsFlat ds

  pub IsFlatBlock : Block → Type 0
  IsFlatBlock no_block = Unit
  IsFlatBlock (block ds) = IsFlat ds

extend-IsFlat : (ds ds' : Directives) → IsFlat ds → IsFlat ds' → IsFlat (extend ds ds')
unfolding extend IsFlat
extend-IsFlat nil ds' h k = k
extend-IsFlat (cons (directive name given b line) ds) ds' (n, f, h) k =
    (n, f, extend-IsFlat ds ds' h k)

module _ (D : Disk) where
  open D use {PathBuf, canonicalize, read_to_string}

  module _ (further : Expander D)
      (below : (base : PathBuf) (visited : List PathBuf) (ds : Directives)
        → IfOk (further base visited ds) IsFlat)
      (base : PathBuf) (visited : List PathBuf) where
    include_file-IsFlat :
        (given : List Text) → IfOk (include_file D further base visited given) IsFlat
    unfolding include_file
    include_file-IsFlat given = IfOk->>= IsFlat (or_load (first given) no_path) _ (λ raw.
        IfOk->>= IsFlat (or_load (canonicalize (candidate D base raw)) cannot_find) _ (λ p.
          if-intro (λ (r : Loading Directives). IfOk r IsFlat) (is_visited D p visited) _ _
            (λ _. tt)
            (λ _.
              IfOk->>= IsFlat (or_load (read_to_string p) cannot_read) _
                (λ t. IfOk->>= IsFlat (read_tree t) _ (λ sub. below _ _ sub)))))

    mutual
      unfolding expand_dirs expand_block IsFlat IsFlatBlock

      expand_dirs-IsFlat : (ds : Directives) → IfOk (expand_dirs D further base visited ds) IsFlat
      expand_dirs-IsFlat nil = tt
      expand_dirs-IsFlat (cons (directive name given b line) ds) =
          if-intro (λ (r : Loading Directives). IfOk r IsFlat) (text_eq name (codes "include")) _ _
            (λ _.
              IfOk-bind IsFlat IsFlat (include_file D further base visited given) _
                (include_file-IsFlat given)
                (λ xs h.
                  IfOk-bind IsFlat IsFlat (expand_dirs D further base visited ds) _
                    (expand_dirs-IsFlat ds) (λ ys k. extend-IsFlat xs ys h k)))
            (λ n.
              IfOk-bind IsFlatBlock IsFlat (expand_block D further base visited b) _
                (expand_block-IsFlat b)
                (λ b' h.
                  IfOk-bind IsFlat IsFlat (expand_dirs D further base visited ds) _
                    (expand_dirs-IsFlat ds) (λ ys k. (n, h, k))))

      expand_block-IsFlat : (b : Block) → IfOk (expand_block D further base visited b) IsFlatBlock
      expand_block-IsFlat no_block = tt
      expand_block-IsFlat (block ds) =
          IfOk-bind IsFlat IsFlatBlock (expand_dirs D further base visited ds) _
            (expand_dirs-IsFlat ds) (λ ys k. k)

  expand_includes-IsFlat :
      (fuel : ℕ) (base : PathBuf) (visited : List PathBuf) (ds : Directives)
      → IfOk (expand_includes D fuel base visited ds) IsFlat
  unfolding expand_includes
  expand_includes-IsFlat zero base visited ds = tt
  expand_includes-IsFlat (suc fuel) base visited ds =
      expand_dirs-IsFlat (expand_includes D fuel) (λ b v s. expand_includes-IsFlat fuel b v s) base
        visited ds

  module _ (further : Expander D) (base : PathBuf) (visited : List PathBuf) where
    mutual
      unfolding expand_dirs expand_block IsFlat IsFlatBlock

      expand_dirs-fixed :
          (ds : Directives) → IsFlat ds → expand_dirs D further base visited ds ≡ ok ds
      expand_dirs-fixed nil h = refl
      expand_dirs-fixed (cons (directive name given b line) ds) (n, f, h) =
          rw (n, expand_block-fixed b f, expand_dirs-fixed ds h) refl

      expand_block-fixed :
          (b : Block) → IsFlatBlock b → expand_block D further base visited b ≡ ok b
      expand_block-fixed no_block h = refl
      expand_block-fixed (block ds) h = rw (expand_dirs-fixed ds h) refl

  -- A tree without includes, which a further expansion leaves as it is.
  pub record IsExpanded (ds : Directives) : Type 0 where
    pub flat : IsFlat ds
    pub again :
        (fuel : ℕ) (base : PathBuf) (visited : List PathBuf)
        → expand_includes D (suc fuel) base visited ds ≡ ok ds

  -- A tree that is expanded, from whatever folder, has no include at any depth, neither its own nor
  -- one of a file that it takes in; and to expand it again, from any folder, changes nothing.
  pub expand_includes-IsExpanded :
      (fuel : ℕ) (base : PathBuf) (visited : List PathBuf) (ds : Directives)
      → IfOk (expand_includes D fuel base visited ds) IsExpanded
  expand_includes-IsExpanded fuel base visited ds =
      whole (expand_includes D fuel base visited ds) (expand_includes-IsFlat fuel base visited ds)
    where
      whole : (r : Loading Directives) → IfOk r IsFlat → IfOk r IsExpanded
      whole (ok ds') h = record {
        flat = h;
        again =
            λ n b v. unfold expand_includes in expand_dirs-fixed (expand_includes D n) b v ds' h;
      }
      whole (err e) h = tt
