-- ===== src/Static/RangePrint.antt =====
-- Ranges as clients print them, read back.
use elrond.Base.{
  ℕ, ◌-◌, ◌≤◌, ◌<◌, min, ◌≡◌, refl, ap, ◌∙◌, false, some, [], ◌∷◌, ◌++◌, arith, ◌==◌, ◌>>=?◌,
  is_empty, any, All, Text, codes, decimal, decimal-head, parse_below-decimal, trim, split_once,
  strip_prefix, trim-solid, IsDigit, decimal-All, digits-solid,
}
use elrond.Static.Range.{parse_single_range, range_of, single_of}

trim-digits : (s : Text) → All IsDigit s → trim s ≡ s
trim-digits s h = trim-solid s (digits-solid s h)

split_once-digits :
    (xs ys : Text) → All IsDigit xs → split_once b'-' (xs ++ b'-' ∷ ys) ≡ some (xs, ys)
unfolding split_once
split_once-digits [] ys h = refl
split_once-digits (c ∷ cs) ys h = rw (split_once-digits cs ys h.1) (ground (arith, h.0))

any-digits :
    (xs ys : Text) → All IsDigit xs → any (λ c. c == b',') (xs ++ ys) ≡ any (λ c. c == b',') ys
any-digits [] ys h = refl
any-digits (c ∷ cs) ys h = ground (arith, any-digits cs ys h.1, h.0)

no_comma : (s : Text) → All IsDigit s → any (λ c. c == b',') s ≡ false
no_comma [] h = refl
no_comma (c ∷ cs) h = ground (arith, no_comma cs h.1, h.0)

strip_prefix-bytes : (s : Text) → strip_prefix (codes "bytes=" ++ s) (codes "bytes=") ≡ some s
unfolding strip_prefix
strip_prefix-bytes s = refl

decimal-filled : (n : ℕ) → is_empty (decimal n) ≡ false
decimal-filled n = let (c, cs, e, _) = decimal-head n in rw e refl

range_of-printed :
    (start end size : ℕ)
    → start ≤ end
    → start < size
    → end < 18446744073709551616
    → range_of (decimal start) (decimal end) size ≡ some (start, min end (size - 1))
unfolding range_of
range_of-printed start end size le lt small =
    let some_bytes : (size == 0) ≡ false = ground arith in
    rw
      (
        some_bytes,
        decimal-filled start,
        decimal-filled end,
        parse_below-decimal 18446744073709551616 start (omega arith),
        parse_below-decimal 18446744073709551616 end small,
      )
      (ground arith)

single_of-printed :
    (start end size : ℕ)
    → single_of size (decimal start ++ b'-' ∷ decimal end)
      ≡ range_of (decimal start) (decimal end) size
unfolding single_of
single_of-printed start end size =
    let ds = decimal-All start in
    let de = decimal-All end in
    rw
      (
        any-digits (decimal start) (b'-' ∷ decimal end) ds,
        no_comma (decimal end) de,
        split_once-digits (decimal start) (decimal end) ds,
        trim-digits (decimal start) ds,
        trim-digits (decimal end) de,
      )
      refl

-- A range that is printed as `bytes=start-end`, for a start within the file, is read as the range
-- from the start to the end, or to the last byte of the file if that is sooner.
pub parse_single_range-printed :
    (start end size : ℕ)
    → start ≤ end
    → start < size
    → end < 18446744073709551616
    → parse_single_range (codes "bytes=" ++ decimal start ++ b'-' ∷ decimal end) size
      ≡ some (start, min end (size - 1))
unfolding parse_single_range
parse_single_range-printed start end size le lt small =
    ap (λ o. o >>=? λ rest. single_of size rest)
      (strip_prefix-bytes (decimal start ++ b'-' ∷ decimal end))
    ∙ (single_of-printed start end size ∙ range_of-printed start end size le lt small)
