-- ===== src/Static/Below.antt =====
-- Nothing outside the root is ever looked at.
use elrond.Base.{
  ℕ, ◌+◌, ◌-◌, ◌≡◌, refl, ap, inl, inr, Bool, true, false, not, Option, none, some, List, [], ◌∷◌,
  if◌then◌else◌, Bool-cases, unwrap_or, is_empty, Text, codes, text_eq, starts_with,
}
use elrond.Static.Range.{parse_single_range}
use elrond.Static.Contained.{IsContained, components_safe-IsContained}
use elrond.Static.Files.{
  Fs, Metadata, components_safe, join, serve_whole, Io, match_io, Response, StaticKind, rel_of,
  Asked, not_modified, matches_etag, not_found, other_error, done, failed, unsatisfiable,
  trim_start_matches, at_root,
}
use elrond.Static.Serve.{
  serve_range, etag_for, serve_file, missing, listing_page, serve_dir, serve, answer_range, Entry,
  try_entries, try_files, at_path, with_status,
}

-- Two file systems that are alike at a path.
pub record AreAlikeAt (fs other : Fs) (p : Text) : Type 0 where
  pub metadata_eq : fs.metadata p ≡ other.metadata p
  pub read_eq : fs.read p ≡ other.read p
  pub read_range_eq :
      (start length : ℕ) → fs.read_range p start length ≡ other.read_range p start length
  pub listing_eq : (uri : Text) → fs.listing p uri ≡ other.listing p uri

-- They are alike below a root: at every path that a relative path without a segment `..` joins to
-- it, and at the index in it.
abbrev pub AreAlikeBelow : Fs → Fs → Text → Type 0
AreAlikeBelow fs other root =
    (rel : Text)
    → IsContained rel
    → AreAlikeAt fs other (join root rel)
      × AreAlikeAt fs other (join (join root rel) (codes "index.html"))

match_io-eq :
    {A B : Type 0} {o o' : Io A} {f g : A → B} {x y x' y' : B}
    → o ≡ o'
    → ((a : A) → f a ≡ g a)
    → x ≡ x'
    → y ≡ y'
    → match_io o f x y ≡ match_io o' g x' y'
match_io-eq {o = done a} e h p q = rw (← e) (h a)
match_io-eq {o = failed not_found} e h p q = rw (← e) p
match_io-eq {o = failed other_error} e h p q = rw (← e) q

module _ (http_date : ℕ → Text) (mime_for : Text → Text) where
  module _ (fs other : Fs) where
    serve_whole-alike :
        (path : Text) (meta : Metadata) (etag : Option Text) (head_only : Bool)
        → AreAlikeAt fs other path
        → serve_whole http_date mime_for fs path meta etag head_only
          ≡ serve_whole http_date mime_for other path meta etag head_only
    unfolding serve_whole
    serve_whole-alike path meta etag true a = refl
    serve_whole-alike path meta etag false a = match_io-eq a.read_eq (λ _. refl) refl refl

    answer_range-alike :
        (path : Text) (meta : Metadata) (etag : Option Text) (head_only : Bool) (raw : Text)
        (o : Option (ℕ × ℕ))
        → AreAlikeAt fs other path
        → answer_range http_date mime_for fs path meta etag head_only raw o
          ≡ answer_range http_date mime_for other path meta etag head_only raw o
    unfolding answer_range
    answer_range-alike path meta etag true raw (some r) a = refl
    answer_range-alike path meta etag false raw (some r) a =
        match_io-eq (a.read_range_eq r.0 (r.1 - r.0 + 1)) (λ _. refl) refl refl
    answer_range-alike path meta etag head_only raw none a =
        ap
          (λ r.
            if starts_with raw (codes "bytes=")
            then unsatisfiable http_date mime_for meta.len
            else r)
          (serve_whole-alike path meta etag head_only a)

    serve_range-alike :
        (path : Text) (meta : Metadata) (etag : Option Text) (head_only : Bool)
        (range : Option Text)
        → AreAlikeAt fs other path
        → serve_range http_date mime_for fs path meta etag head_only range
          ≡ serve_range http_date mime_for other path meta etag head_only range
    unfolding serve_range
    serve_range-alike path meta etag head_only none a = serve_whole-alike path meta etag head_only a
    serve_range-alike path meta etag head_only (some raw) a =
        answer_range-alike path meta etag head_only raw (parse_single_range raw meta.len) a

    serve_file-alike :
        (path : Text) (meta : Metadata) (asked : Asked) (method : Text)
        → AreAlikeAt fs other path
        → serve_file http_date mime_for fs path meta asked method
          ≡ serve_file http_date mime_for other path meta asked method
    unfolding serve_file
    serve_file-alike path meta asked method a =
        ap
          (λ r.
            if matches_etag http_date mime_for (etag_for meta) asked.if_none_match
            then not_modified http_date mime_for (unwrap_or (etag_for meta) []) meta.mtime_secs
            else r)
          (serve_range-alike path meta (etag_for meta) (text_eq method (codes "HEAD")) asked.range
            a)

    serve_dir-alike :
        (full_path uri : Text) (asked : Asked) (method : Text) (autoindex : Bool)
        → AreAlikeAt fs other full_path
        → AreAlikeAt fs other (join full_path (codes "index.html"))
        → serve_dir http_date mime_for fs full_path uri asked method autoindex
          ≡ serve_dir http_date mime_for other full_path uri asked method autoindex
    unfolding serve_dir
    serve_dir-alike full_path uri asked method autoindex a b =
        match_io-eq b.metadata_eq (λ m. serve_file-alike _ m asked method b)
          (ap (λ l. if autoindex then listing_page l else missing) (a.listing_eq uri)) refl

    either :
        (c : Bool) {x y x' y' : Response}
        → x ≡ x'
        → y ≡ y'
        → (if c then x else y) ≡ (if c then x' else y')
    either true p q = p
    either false p q = q

    -- `serve` answers the same from two file systems that are alike below the root, that is at every
    -- path that a relative path with no segment `..` joins to it: whatever the path of the request,
    -- it looks at no other.
    pub serve-alike :
        (root : Text) (kind : StaticKind) (uri : Text) (asked : Asked) (method : Text)
        (autoindex : Bool)
        → AreAlikeBelow fs other root
        → serve http_date mime_for fs root kind uri asked method autoindex
          ≡ serve http_date mime_for other root kind uri asked method autoindex
    unfolding serve
    serve-alike root kind uri asked method autoindex below =
        elim (Bool-cases (components_safe (rel_of kind uri))) [
          | inr h ↦ rw h refl
          | inl h ↦
              let (a, b) =
                below (rel_of kind uri) (components_safe-IsContained (rel_of kind uri) h) in
              rw h (
                match_io-eq a.metadata_eq
                  (λ meta.
                    either meta.is_dir
                      (serve_dir-alike (join root (rel_of kind uri)) uri asked method autoindex a b)
                      (serve_file-alike (join root (rel_of kind uri)) meta asked method a))
                  refl refl)
        ]

    if_safe :
        (c : Bool) {x y x' y' : Response}
        → x ≡ x'
        → (c ≡ true → y ≡ y')
        → (if not c then x else y) ≡ (if not c then x' else y')
    if_safe true p q = q refl
    if_safe false p q = p

    try_entries-alike :
        (root : Text) (entries : List Entry) (asked : Asked) (method : Text)
        → AreAlikeBelow fs other root
        → try_entries http_date mime_for fs root entries asked method
          ≡ try_entries http_date mime_for other root entries asked method
    unfolding try_entries
    try_entries-alike root [] asked method below = refl
    try_entries-alike root (with_status code ∷ rest) asked method below =
        either (is_empty rest) refl (try_entries-alike root rest asked method below)
    try_entries-alike root (at_path rendered ∷ rest) asked method below =
        let further = try_entries-alike root rest asked method below in
        let served = serve-alike root at_root rendered asked method false below in
        let last = either (is_empty rest) served further in
        let rel : Text = trim_start_matches b'/' rendered in
        if_safe (components_safe rel) (either (is_empty rest) refl further) (λ h.
          match_io-eq (below rel (components_safe-IsContained rel h)).0.metadata_eq
            (λ meta. either meta.is_file served last) last last)

    -- So does `try_files`, whatever its entries render to.
    pub try_files-alike :
        (root : Text) (entries : List Entry) (asked : Asked) (method : Text)
        → AreAlikeBelow fs other root
        → try_files http_date mime_for fs root entries asked method
          ≡ try_files http_date mime_for other root entries asked method
    unfolding try_files
    try_files-alike root [] asked method below = refl
    try_files-alike root (e ∷ es) asked method below =
        try_entries-alike root (e ∷ es) asked method below
