-- ===== src/Static/Serve.antt =====
-- The handlers `serve` and `try_files` of src/static_files.rs.
use elrond.Base.{
  ℕ, ◌+◌, ◌-◌, Bool, false, not, Option, none, some, List, [], ◌∷◌, ◌++◌, if◌then◌else◌, unwrap_or,
  is_empty, Text, codes, text_eq, decimal, starts_with,
}
use elrond.Static.Range.{parse_single_range}
use elrond.Static.Files.{
  Fs, Metadata, Response, text, StaticKind, trim_start_matches, components_safe, join, rel_of,
  Asked, etag_of, not_modified, matches_etag, partial_of, unsatisfiable, serve_whole, at_root,
  match_io,
}

-- an entry of `try_files`, its template rendered
pub data Entry : Type 0 where
  at_path : Text → Entry
  with_status : ℕ → Entry

-- without a time of modification there is no tag
abbrev pub etag_for : Metadata → Option Text
etag_for meta = elim meta.mtime_secs [ none ↦ none | some s ↦ some (etag_of meta.len s) ]

abbrev pub forbidden : Response
forbidden = text 403 (codes "403 Forbidden\n")

abbrev pub missing : Response
missing = text 404 (codes "404 Not Found\n")

-- `render_directory_listing`
abbrev pub listing_page : Option (List ℕ) → Response
listing_page none = forbidden
listing_page (some html) = record {
  status = 200;
  headers = (codes "content-type", codes "text/html; charset=utf-8") ∷ [];
  body = html;
}

module _ (http_date : ℕ → Text) (mime_for : Text → Text) where
  -- a range header, with the range that it asks for, if it is one
  unfoldable pub answer_range :
      Fs → Text → Metadata → Option Text → Bool → Text → Option (ℕ × ℕ) → Response
  unfolding partial_of unsatisfiable serve_whole starts_with
  answer_range fs path meta etag head_only raw (some r) =
      if head_only
      then partial_of http_date mime_for path meta.len etag meta.mtime_secs r []
      else let refused = text 500 (codes "500 Internal Server Error\n") in
        match_io (fs.read_range path r.0 (r.1 - r.0 + 1))
          (λ b. partial_of http_date mime_for path meta.len etag meta.mtime_secs r b) refused
          refused
  answer_range fs path meta etag head_only raw none =
      if starts_with raw (codes "bytes=")
      then unsatisfiable http_date mime_for meta.len
      else serve_whole http_date mime_for fs path meta etag head_only

  -- once the tag of the client did not match
  unfoldable pub serve_range : Fs → Text → Metadata → Option Text → Bool → Option Text → Response
  unfolding answer_range parse_single_range
  serve_range fs path meta etag head_only none =
      serve_whole http_date mime_for fs path meta etag head_only
  serve_range fs path meta etag head_only (some raw) =
      answer_range fs path meta etag head_only raw (parse_single_range raw meta.len)

  -- a file that is there
  unfoldable pub serve_file : Fs → Text → Metadata → Asked → Text → Response
  unfolding serve_range matches_etag not_modified etag_of text_eq
  serve_file fs path meta asked method =
      let etag = etag_for meta in
      if matches_etag http_date mime_for etag asked.if_none_match
      then not_modified http_date mime_for (unwrap_or etag []) meta.mtime_secs
      else serve_range fs path meta etag (text_eq method (codes "HEAD")) asked.range

  -- a directory: its index, or its listing
  unfoldable pub serve_dir : Fs → Text → Text → Asked → Text → Bool → Response
  unfolding serve_file join
  serve_dir fs full_path req_path asked method autoindex =
      let index_path = join full_path (codes "index.html") in
      match_io (fs.metadata index_path) (λ m. serve_file fs index_path m asked method)
        (if autoindex then listing_page (fs.listing full_path req_path) else missing) forbidden

  unfoldable pub serve : Fs → Text → StaticKind → Text → Asked → Text → Bool → Response
  unfolding rel_of components_safe join serve_file serve_dir
  serve fs root kind req_path asked method autoindex =
      let rel = rel_of kind req_path in
      let full_path = join root rel in
      if not (components_safe rel)
      then forbidden
      else match_io (fs.metadata full_path)
          (λ meta.
            if meta.is_dir
            then serve_dir fs full_path req_path asked method autoindex
            else serve_file fs full_path meta asked method)
          missing forbidden

  -- the loop of `try_files`; the last entry is the one that nothing follows
  unfoldable pub try_entries : Fs → Text → List Entry → Asked → Text → Response
  unfolding serve join components_safe trim_start_matches decimal
  try_entries fs root [] asked method = missing
  try_entries fs root (with_status code ∷ rest) asked method =
      let further = try_entries fs root rest asked method in
      if is_empty rest then text code (decimal code ++ codes " \n") else further
  try_entries fs root (at_path rendered ∷ rest) asked method =
      let further = try_entries fs root rest asked method in
      let rel = trim_start_matches b'/' rendered in
      let served = serve fs root at_root rendered asked method false in
      if not (components_safe rel)
      then (if is_empty rest then forbidden else further)
      else let last = if is_empty rest then served else further in
        match_io (fs.metadata (join root rel)) (λ meta. if meta.is_file then served else last) last
          last

  unfoldable pub try_files : Fs → Text → List Entry → Asked → Text → Response
  unfolding try_entries
  try_files fs root [] asked method = text 500 (codes "500 Internal Server Error\n")
  try_files fs root (e ∷ es) asked method = try_entries fs root (e ∷ es) asked method
