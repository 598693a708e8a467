-- ===== src/Config/Args/Tests.antt =====
-- Arguments as they stand in a configuration.
use elrond.Base.{
  ok, ◌≡◌, refl, some, List, [], ◌∷◌, Text, codes, text_eq, is_digit, read_digits, unsigned,
  parse_below, is_whitespace, trim_start, trim_end, trim,
}
use elrond.Config.Args.{status_args, parse_cache_valid}
use elrond.Config.Measures.{parse_size, parse_duration, split_digits, scaled, read_measured, timed}

-- ten bytes are room for one entry
abbrev tiny : List Text
tiny = codes "$remote_addr" ∷ codes "zone=a:10" ∷ codes "rate=5r/s" ∷ []

-- a product past 2 ^ 64 wraps: as many gibibytes as 2 ^ 34 are no bytes at all
wrapped : parse_size (codes "17179869184g") ≡ some 0
unfolding parse_size read_measured split_digits scaled parse_below unsigned read_digits is_digit
    trim trim_start trim_end is_whitespace text_eq
wrapped = refl

valid : parse_cache_valid (codes "200" ∷ codes "10m" ∷ []) ≡ ok (200 ∷ [], 600000)
unfolding parse_cache_valid status_args parse_duration read_measured split_digits timed parse_below
    unsigned read_digits is_digit trim trim_start trim_end is_whitespace text_eq
valid = refl
