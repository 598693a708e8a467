-- ===== src/Config/Measures/Printed.antt =====
-- Sizes and durations as they are written, read back.
use elrond.Base.{
  ℕ, ◌+◌, ◌-◌, ◌*◌, ◌≤◌, ◌<◌, ◌≡◌, refl, ap, ap₂, ◌∙◌, true, false, Option, none, some, [], ◌∷◌,
  ◌++◌, arith, ◌==◌, ◌>>=?◌, is_empty, All, All-append, Text, codes, text_eq, decimal, is_digit,
  read_digits, unsigned, parse_below, decimal-head, parse_below-decimal, is_whitespace, trim,
  to_ascii_lowercase, trim-solid, IsDigit, decimal-All, digits-solid,
}
use elrond.Config.Measures.{
  usize, split_digits, scaled, or_measured, read_measured, parse_size, timed, parse_duration,
}

-- a letter behind the digits
abbrev pub IsLetter : ℕ → Type 0
IsLetter c = (97 ≤ c) × (c ≤ 122)

letter-solid : (c : ℕ) → IsLetter c → is_whitespace c ≡ false
unfolding is_whitespace
letter-solid c h = ground arith

letter-digit : (c : ℕ) → IsLetter c → is_digit c ≡ false
unfolding is_digit
letter-digit c h = ground arith

digit-is_digit : (c : ℕ) → IsDigit c → is_digit c ≡ true
unfolding is_digit
digit-is_digit c h = ground arith

trim-unit :
    (ds : Text) (c : ℕ) (cs : Text)
    → All IsDigit ds
    → All IsLetter (c ∷ cs)
    → trim (ds ++ c ∷ cs) ≡ ds ++ c ∷ cs
trim-unit ds c cs h k =
    trim-solid (ds ++ c ∷ cs)
      (All-append (λ x. is_whitespace x ≡ false) ds (c ∷ cs) (digits-solid ds h) (solid (c ∷ cs) k))
  where
    solid : (s : Text) → All IsLetter s → All (λ x. is_whitespace x ≡ false) s
    solid [] k = tt
    solid (x ∷ s) k = (letter-solid x k.0, solid s k.1)

split_digits-unit :
    (ds : Text) (c : ℕ) (cs : Text)
    → All IsDigit ds
    → IsLetter c
    → split_digits (ds ++ c ∷ cs) ≡ some (ds, c ∷ cs)
unfolding split_digits
split_digits-unit [] c cs h k = rw (letter-digit c k) refl
split_digits-unit (d ∷ ds) c cs h k =
    rw (digit-is_digit d h.0, split_digits-unit ds c cs h.1 k) refl

read_digits-unit :
    (acc : ℕ) (ds : Text) (c : ℕ) (cs : Text)
    → All IsDigit ds
    → IsLetter c
    → read_digits acc (ds ++ c ∷ cs) ≡ none
unfolding read_digits
read_digits-unit acc [] c cs h k = rw (letter-digit c k) refl
read_digits-unit acc (d ∷ ds) c cs h k =
    rw (digit-is_digit d h.0) (read_digits-unit (10 * acc + (d - b'0')) ds c cs h.1 k)

unsigned-unit :
    (ds : Text) (c : ℕ) (cs : Text)
    → All IsDigit ds
    → IsLetter c
    → is_empty ds ≡ false
    → unsigned (ds ++ c ∷ cs) ≡ none
unfolding unsigned
unsigned-unit [] c cs h k e = cc
unsigned-unit (d ∷ []) c cs h k e =
    let plain : (d == b'+') ≡ false = ground (arith, h.0) in
    rw plain (read_digits-unit 0 (d ∷ []) c cs h k)
unsigned-unit (d ∷ d' ∷ ds) c cs h k e =
    let plain : (d == b'+') ≡ false = ground (arith, h.0) in
    rw plain (read_digits-unit 0 (d ∷ d' ∷ ds) c cs h k)

decimal-filled : (n : ℕ) → is_empty (decimal n) ≡ false
decimal-filled n = let (c, cs, e, _) = decimal-head n in rw e refl

parse_below-unit :
    (n c : ℕ) (cs : Text) → IsLetter c → parse_below usize (decimal n ++ c ∷ cs) ≡ none
unfolding parse_below
parse_below-unit n c cs k =
    rw (unsigned-unit (decimal n) c cs (decimal-All n) k (decimal-filled n)) refl

read_measured-unit :
    (alone : ℕ → ℕ) (in_unit : ℕ → Text → Option ℕ) (n c : ℕ) (cs : Text)
    → n < usize
    → IsLetter c
    → read_measured alone in_unit (decimal n ++ c ∷ cs) ≡ in_unit n (c ∷ cs)
unfolding read_measured
read_measured-unit alone in_unit n c cs lt k =
    ap₂ (or_measured alone) (parse_below-unit n c cs k) (
      ap (λ o. o >>=? λ parts. parse_below usize parts.0 >>=? λ m. in_unit m parts.1)
        (split_digits-unit (decimal n) c cs (decimal-All n) k))
    ∙ ap (λ o. o >>=? λ m. in_unit m (c ∷ cs)) (parse_below-decimal usize n lt)

parse_size-unit :
    (n c : ℕ)
    → n < usize
    → IsLetter c
    → parse_size (decimal n ++ c ∷ []) ≡ scaled n (to_ascii_lowercase (c ∷ []))
unfolding parse_size
parse_size-unit n c lt k =
    let in_unit : ℕ → Text → Option ℕ = λ m unit. scaled m (to_ascii_lowercase unit) in
    ap (read_measured (λ m. m) in_unit) (trim-unit (decimal n) c [] (decimal-All n) (k, tt))
    ∙ read_measured-unit (λ m. m) in_unit n c [] lt k

pub parse_duration-unit :
    (n c : ℕ) (cs : Text)
    → n < usize
    → All IsLetter (c ∷ cs)
    → parse_duration (decimal n ++ c ∷ cs) ≡ timed n (c ∷ cs)
unfolding parse_duration
parse_duration-unit n c cs lt k =
    ap (read_measured (λ m. m * 1000) timed) (trim-unit (decimal n) c cs (decimal-All n) k)
    ∙ read_measured-unit (λ m. m * 1000) timed n c cs lt k.0

-- A number of which as many gibibytes are fewer than 2 ^ 64 bytes is read back: with the unit k, m
-- or g behind it as a size of that many bytes, and with ms, s, m, h or d as a duration of that many
-- milliseconds.
pub parse_measured-printed :
    (n : ℕ)
    → n * 1073741824 < usize
    → (parse_size (decimal n ++ codes "k") ≡ some (n * 1024))
      × (parse_size (decimal n ++ codes "m") ≡ some (n * 1048576))
      × (parse_size (decimal n ++ codes "g") ≡ some (n * 1073741824))
      × (parse_duration (decimal n ++ codes "ms") ≡ some n)
      × (parse_duration (decimal n ++ codes "s") ≡ some (n * 1000))
      × (parse_duration (decimal n ++ codes "m") ≡ some (n * 60000))
      × (parse_duration (decimal n ++ codes "h") ≡ some (n * 3600000))
      × (parse_duration (decimal n ++ codes "d") ≡ some (n * 86400000))
unfolding scaled timed text_eq
parse_measured-printed n lt =
    let small : n < usize = omega arith in
    (
      parse_size-unit n b'k' small (omega arith) ∙ ap some (omega arith),
      parse_size-unit n b'm' small (omega arith) ∙ ap some (omega arith),
      parse_size-unit n b'g' small (omega arith) ∙ ap some (omega arith),
      parse_duration-unit n b'm' (codes "s") small (omega arith, (omega arith, tt)),
      parse_duration-unit n b's' [] small (omega arith, tt),
      parse_duration-unit n b'm' [] small (omega arith, tt) ∙ ap some (omega arith),
      parse_duration-unit n b'h' [] small (omega arith, tt) ∙ ap some (omega arith),
      parse_duration-unit n b'd' [] small (omega arith, tt) ∙ ap some (omega arith),
    )
