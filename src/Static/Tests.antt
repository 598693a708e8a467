-- ===== src/Static/Tests.antt =====
-- A root with one file of ten bytes, and the theorems at it.
use elrond.Base.{
  ℕ, ◌≡◌, refl, ap, inl, inr, true, false, none, some, [], ◌∷◌, ◌++◌, arith, ◌==◌, if◌then◌else◌,
  ==_iff, Bool-cases, All-of, All, Text, codes, text_eq, is_digit, read_digits, unsigned,
  parse_below, is_whitespace, trim_start, trim_end, trim, split, split_once, starts_with,
  strip_prefix,
}
use elrond.Static.Range.{
  parse_single_range, range_of, single_of, IsWithin, parse_single_range-IsWithin,
}
use elrond.Static.Escape.{
  push_html_escaped, push_attr_escaped, url_encode_segment, percent_decode,
  percent_decode-url_encode_segment, IsInert, IsQuiet, push_escaped-IsQuiet,
}
use elrond.Static.Files.{
  Fs, Metadata, Response, trim_start_matches, components_safe, join, rel_of, Asked, matches_etag,
  partial_of, not_found, done, failed, at_root, ends_with_slash,
}
use elrond.Static.Serve.{answer_range, serve_range, serve_file, serve}
use elrond.Static.Contained.{IsContained}
use elrond.Static.Below.{AreAlikeBelow, AreAlikeAt, serve-alike}

abbrev info : Metadata
info = record { is_dir = false; is_file = true; len = 10; mtime_secs = some 255 }

-- `at` is the one file there is
abbrev one_file : Text → Fs
one_file at = record {
  metadata = λ p. if text_eq p at then done info else failed not_found;
  read = λ p. if text_eq p at then done (codes "0123456789") else failed not_found;
  read_range = λ p start n. done (codes "345");
  listing = λ _ _. none;
}

abbrev get_range : Asked
get_range = record { if_none_match = none; range = some (codes "bytes=3-5") }

abbrev date : ℕ → Text
date n = codes "date"

abbrev mime : Text → Text
mime p = codes "text/plain"

served : Response
served =
    serve date mime (one_file (codes "/www/a.txt")) (codes "/www") at_root (codes "/a.txt")
      get_range (codes "GET") false

partial : (served.status ≡ 206) × (served.body ≡ codes "345")
unfolding served serve serve_file serve_range answer_range partial_of parse_single_range single_of
    range_of parse_below unsigned read_digits is_digit rel_of trim_start_matches components_safe
    join matches_etag strip_prefix split_once split trim trim_start trim_end is_whitespace
    starts_with text_eq
partial = (refl, refl)

-- `..` is refused
refused :
    (serve date mime
      (one_file (codes "/etc"))
      (codes "/www")
      at_root
      (codes "/../etc")
      get_range
      (codes "GET")
      false).status
    ≡ 403
unfolding serve rel_of trim_start_matches components_safe split starts_with text_eq
refused = refl

parse_single_range-IsWithin_example :
    All-of (parse_single_range (codes "bytes=3-") 10) (IsWithin 10)
parse_single_range-IsWithin_example = parse_single_range-IsWithin (codes "bytes=3-") 10

percent_decode-url_encode_segment_example :
    percent_decode (url_encode_segment (codes "a b")) ≡ codes "a b"
percent_decode-url_encode_segment_example =
    percent_decode-url_encode_segment (codes "a b") (omega arith, (omega arith, (omega arith, tt)))

push_escaped-IsQuiet_example :
    All IsInert (push_html_escaped (codes "<b>")) × All IsQuiet (push_attr_escaped (codes "<b>"))
push_escaped-IsQuiet_example = push_escaped-IsQuiet (codes "<b>")

-- a second file, outside the root
abbrev two_files : Fs
two_files = record {
  metadata = λ p.
      if text_eq p (codes "/etc") then done info else (one_file (codes "/www/a.txt")).metadata p;
  read = λ p. if text_eq p (codes "/etc") then done [] else (one_file (codes "/www/a.txt")).read p;
  read_range = λ p start n. done (codes "345");
  listing = λ _ _. none;
}

alike_at : (r : Text) → AreAlikeAt (one_file (codes "/www/a.txt")) two_files (b'/' ∷ b'w' ∷ r)
unfolding text_eq
alike_at r = record {
  metadata_eq = refl;
  read_eq = refl;
  read_range_eq = λ _ _. refl;
  listing_eq = λ _. refl;
}

join_below : (rel : Text) → IsContained rel → join (codes "/www") rel ≡ codes "/www/" ++ rel
unfolding join starts_with
join_below [] h = refl
join_below (c ∷ cs) h = elim (Bool-cases (c == b'/')) [
  | inl e ↦ absurd (h.relative cs (ap (λ x. x ∷ cs) ((==_iff _ _).0 e)))
  | inr e ↦ rw e refl
]

index_below :
    (r : Text) → (s : Text) × (join (b'/' ∷ b'w' ∷ r) (codes "index.html") ≡ b'/' ∷ b'w' ∷ s)
unfolding join starts_with
index_below r = elim (Bool-cases (ends_with_slash (b'/' ∷ b'w' ∷ r))) [
  | inl h ↦ (r ++ codes "index.html", rw h refl)
  | inr h ↦ (r ++ b'/' ∷ codes "index.html", rw h refl)
]

alike : AreAlikeBelow (one_file (codes "/www/a.txt")) two_files (codes "/www")
alike rel h =
    let (s, e) = index_below (codes "ww/" ++ rel) in
    rw (join_below rel h) (alike_at (codes "ww/" ++ rel), rw e (alike_at s))

serve-alike_example :
    serve date mime
      (one_file (codes "/www/a.txt"))
      (codes "/www")
      at_root
      (codes "/../etc")
      get_range
      (codes "GET")
      false
    ≡ serve date mime two_files
        (codes "/www")
        at_root
        (codes "/../etc")
        get_range
        (codes "GET")
        false
serve-alike_example =
    serve-alike date mime (one_file (codes "/www/a.txt")) two_files (codes "/www") at_root
      (codes "/../etc") get_range (codes "GET") false alike
