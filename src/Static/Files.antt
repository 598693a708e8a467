-- ===== src/Static/Files.antt =====
-- `serve` and `try_files` of src/static_files.rs. The file system and `http_date::format` are
-- arguments; a body is its bytes. The listing of a directory is an argument too.
use elrond.Base.{
  ℕ, zero, suc, ◌+◌, ◌-◌, ◌/◌, ◌%◌, Bool, true, false, not, ◌&&◌, ◌||◌, Option, none, some, List,
  [], ◌∷◌, ◌++◌, map, ltb, ◌==◌, if◌then◌else◌, unwrap_or, any, Text, codes, text_eq, decimal, trim,
  split, starts_with, strip_prefix,
}

pub data IoError : Type 0 where
  not_found other_error : IoError

pub data Io (A : Type 0) : Type 0 where
  done : A → Io A
  failed : IoError → Io A

-- the `match` that tells an absent file from other errors
abbrev pub match_io : {A B : Type 0} → Io A → (A → B) → B → B → B
match_io (done a) f absent refused = f a
match_io (failed not_found) f absent refused = absent
match_io (failed other_error) f absent refused = refused

pub record Metadata : Type 0 where
  pub is_dir : Bool
  pub is_file : Bool
  pub len : ℕ
  pub mtime_secs : Option ℕ  -- `modified`, in seconds since the epoch

-- tokio's `fs`, by path
pub record Fs : Type 0 where
  pub metadata : Text → Io Metadata
  pub read : Text → Io (List ℕ)
  pub read_range : Text → ℕ → ℕ → Io (List ℕ)
  pub listing : Text → Text → Option (List ℕ)  -- the page, if `read_dir` succeeds

pub record Response : Type 0 where
  pub status : ℕ
  pub headers : List (Text × Text)
  pub body : List ℕ

-- `text` of src/body.rs
abbrev pub text : ℕ → Text → Response
text status body = record {
  status = status;
  headers = (codes "content-type", codes "text/plain; charset=utf-8") ∷ [];
  body = body;
}

pub data StaticKind : Type 0 where
  at_root : StaticKind
  alias : Text → StaticKind

unfoldable pub trim_start_matches : ℕ → Text → Text
trim_start_matches p [] = []
trim_start_matches p (c ∷ cs) =
    let rest = trim_start_matches p cs in if c == p then rest else c ∷ cs

-- `Path::components` of a path without a root: the pieces between the slashes, where empty pieces
-- and dots are passed over
abbrev pub is_parent : Text → Bool
is_parent piece = text_eq piece (codes "..")

unfoldable pub components_safe : Text → Bool
unfolding split starts_with text_eq
components_safe p = not (starts_with p (codes "/")) && not (any is_parent (split b'/' p))

-- `Path::join`
abbrev pub ends_with_slash : Text → Bool
ends_with_slash [] = true
ends_with_slash (c ∷ []) = c == b'/'
ends_with_slash (c ∷ d ∷ cs) = ends_with_slash (d ∷ cs)

unfoldable pub join : Text → Text → Text
unfolding starts_with
join p q =
    if starts_with q (codes "/") then q else if ends_with_slash p then p ++ q else p ++ b'/' ∷ q

unfoldable pub rel_of : StaticKind → Text → Text
unfolding strip_prefix trim_start_matches
rel_of at_root req_path = trim_start_matches b'/' req_path
rel_of (alias p) req_path = trim_start_matches b'/' (unwrap_or (strip_prefix req_path p) req_path)

-- the headers of the request that `serve` reads, those that `to_str` accepts
pub record Asked : Type 0 where
  pub if_none_match : Option Text
  pub range : Option Text

-- what `format` prints of an ETag: the size and the time in hexadecimal
abbrev hex_lower : ℕ → ℕ
hex_lower n = if ltb n 10 then b'0' + n else b'a' + (n - 10)

unfoldable pub hex_onto : ℕ → ℕ → Text → Text
hex_onto zero n acc = acc
hex_onto (suc fuel) n acc =
    let acc' = hex_lower (n % 16) ∷ acc in
    let rest = hex_onto fuel (n / 16) acc' in if n / 16 == 0 then acc' else rest

unfoldable pub etag_of : ℕ → ℕ → Text
unfolding hex_onto
etag_of size secs =
    codes "W/\"" ++ hex_onto (suc size) size [] ++ b'-' ∷ hex_onto (suc secs) secs [] ++ codes "\""

module _ (http_date : ℕ → Text) (mime_for : Text → Text) where
  abbrev pub validators : Option Text → Option ℕ → List (Text × Text)
  validators etag mtime =
      elim etag [ none ↦ [] | some et ↦ (codes "etag", et) ∷ [] ]
      ++ elim mtime [ none ↦ [] | some m ↦ (codes "last-modified", http_date m) ∷ [] ]

  unfoldable pub not_modified : Text → Option ℕ → Response
  not_modified etag mtime = record {
    status = 304;
    headers = validators (some etag) mtime;
    body = [];
  }

  -- a tag of the list is that of the file, or a star
  unfoldable pub matches_etag : Option Text → Option Text → Bool
  unfolding split trim text_eq
  matches_etag none asked = false
  matches_etag (some et) none = false
  matches_etag (some et) (some v) =
      any (λ tok. text_eq tok et || text_eq tok (codes "*")) (map trim (split b',' v))

  unfoldable pub partial_of : Text → ℕ → Option Text → Option ℕ → ℕ × ℕ → List ℕ → Response
  unfolding decimal
  partial_of path size etag mtime r body = record {
    status = 206;
    headers =
        (codes "content-type", mime_for path)
        ∷ (codes "content-length", decimal (r.1 - r.0 + 1))
        ∷ (codes "accept-ranges", codes "bytes")
        ∷ (
          codes "content-range",
          codes "bytes " ++ decimal r.0 ++ b'-' ∷ decimal r.1 ++ b'/' ∷ decimal size,
        )
        ∷ validators etag mtime;
    body = body;
  }

  unfoldable pub whole_of : Text → ℕ → Option Text → Option ℕ → Bool → List ℕ → Response
  unfolding decimal
  whole_of path size etag mtime head_only body = record {
    status = 200;
    headers =
        (codes "content-type", mime_for path)
        ∷ (codes "accept-ranges", codes "bytes")
        ∷ ((if head_only then (codes "content-length", decimal size) ∷ [] else [])
            ++ validators etag mtime);
    body = body;
  }

  unfoldable pub unsatisfiable : ℕ → Response
  unfolding decimal
  unsatisfiable size = record {
    status = 416;
    headers =
        (codes "content-type", codes "text/plain; charset=utf-8")
        ∷ (codes "content-range", codes "bytes */" ++ decimal size)
        ∷ [];
    body = codes "416 Range Not Satisfiable\n";
  }

  -- the full body, at the end of `serve_file`
  unfoldable pub serve_whole : Fs → Text → Metadata → Option Text → Bool → Response
  unfolding whole_of
  serve_whole fs path meta etag head_only =
      if head_only
      then whole_of path meta.len etag meta.mtime_secs true []
      else match_io (fs.read path) (λ b. whole_of path meta.len etag meta.mtime_secs false b)
          (text 404 (codes "404 Not Found\n")) (text 403 (codes "403 Forbidden\n"))
