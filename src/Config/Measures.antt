-- ===== src/Config/Measures.antt =====
-- `parse_size` and `parse_duration` of src/config/build.rs.
pub mod Printed
use elrond.Base.{
  ℕ, ◌*◌, ◌%◌, not, Option, none, some, [], ◌∷◌, if◌then◌else◌, ◌>>=?◌, Text, codes, text_eq,
  is_digit, parse_below, trim, to_ascii_lowercase,
}

abbrev pub usize : ℕ
usize = 18446744073709551616

-- `find` of the first character that is no digit, and `split_at` there
unfoldable pub split_digits : Text → Option (Text × Text)
unfolding is_digit
split_digits [] = none
split_digits (c ∷ cs) =
    let further = split_digits cs in
    if not (is_digit c)
    then some ([], c ∷ cs)
    else elim further [ none ↦ none | some (ds, unit) ↦ some (c ∷ ds, unit) ]

-- the products wrap, rest they do in a release build
unfoldable pub scaled : ℕ → Text → Option ℕ
unfolding text_eq
scaled n unit =
    if text_eq unit (codes "k")
    then some (n * 1024 % usize)
    else if text_eq unit (codes "m")
    then some (n * 1048576 % usize)
    else if text_eq unit (codes "g")
    then some (n * 1073741824 % usize)
    else none

-- a number alone, or a number and its unit: the two ways of `parse_size` and `parse_duration`
abbrev pub or_measured : (ℕ → ℕ) → Option ℕ → Option ℕ → Option ℕ
or_measured alone (some n) measured = some (alone n)
or_measured alone none measured = measured

unfoldable pub read_measured : (ℕ → ℕ) → (ℕ → Text → Option ℕ) → Text → Option ℕ
unfolding parse_below split_digits
read_measured alone in_unit s =
    or_measured alone (parse_below usize s)
      (split_digits s >>=? λ parts. parse_below usize parts.0 >>=? λ n. in_unit n parts.1)

unfoldable pub parse_size : Text → Option ℕ
unfolding trim read_measured scaled
parse_size text = read_measured (λ n. n) (λ n unit. scaled n (to_ascii_lowercase unit)) (trim text)

-- a duration in milliseconds; the products of its seconds wrap
unfoldable pub timed : ℕ → Text → Option ℕ
unfolding text_eq
timed n unit =
    if text_eq unit (codes "ms")
    then some n
    else if text_eq unit (codes "s")
    then some (n * 1000)
    else if text_eq unit (codes "m")
    then some (n * 60 % usize * 1000)
    else if text_eq unit (codes "h")
    then some (n * 3600 % usize * 1000)
    else if text_eq unit (codes "d")
    then some (n * 86400 % usize * 1000)
    else none

unfoldable pub parse_duration : Text → Option ℕ
unfolding trim read_measured timed
parse_duration text = read_measured (λ n. n * 1000) timed (trim text)
