-- ===== src/Base/Decimal.antt =====
-- Numbers in decimal, as `{}` and `{:0w}` print them and as `parse` reads them.
use Prim.Native.Nat.{ℕ, zero, suc, ◌+◌, ◌-◌, ◌*◌, ◌/◌, ◌%◌, ◌≤◌, ◌<◌}
use mathlib.Core.Path.{◌≡◌, refl}
use mathlib.Core.Bool.{Bool, true, false, ◌&&◌}
use mathlib.Core.Option.{Option, none, some}
use mathlib.Core.List.{[], ◌∷◌, ◌++◌}
use native.Mathlib.Omega.{arith}
use elrond.Base.Lists.{length, replicate}
use elrond.Base.Strings.{Text}
use mathlib.Core.Logic.{inl, inr}
use mathlib.Core.Path.{◌∙◌, ap, sym}
use elrond.Base.Tests.{Bool-cases, lt→ltb, ◌==◌, ltb, leb, if◌then◌else◌, ◌>>=?◌}

-- the digits of `n` in front of those that are there, a unit of fuel to a digit
unfoldable pub digits_onto : ℕ → ℕ → Text → Text
digits_onto zero n acc = acc
digits_onto (suc fuel) n acc =
    let acc' = (b'0' + n % 10) ∷ acc in
    let rest = digits_onto fuel (n / 10) acc' in if n / 10 == 0 then acc' else rest

-- `{}` of an unsigned integer
unfoldable pub decimal : ℕ → Text
unfolding digits_onto
decimal n = digits_onto (suc n) n []

-- `{:0w}`
unfoldable pub padded : ℕ → ℕ → Text
unfolding decimal
padded width n = let digits = decimal n in replicate (width - length digits) b'0' ++ digits

unfoldable pub is_digit : ℕ → Bool
is_digit c = leb b'0' c && leb c b'9'

-- the value of a run of digits, read behind the value `acc`; `none` at any other character
unfoldable pub read_digits : ℕ → Text → Option ℕ
unfolding is_digit
read_digits acc [] = some acc
read_digits acc (c ∷ cs) =
    let rest = read_digits (10 * acc + (c - b'0')) cs in if is_digit c then rest else none

-- behind an optional `+` there is at least one digit
unfoldable pub unsigned : Text → Option ℕ
unfolding read_digits
unsigned [] = none
unsigned (c ∷ []) = if c == b'+' then none else read_digits 0 (c ∷ [])
unsigned (c ∷ d ∷ cs) = if c == b'+' then read_digits 0 (d ∷ cs) else read_digits 0 (c ∷ d ∷ cs)

-- `str::parse` of an unsigned integer below `bound`
unfoldable pub parse_below : ℕ → Text → Option ℕ
unfolding unsigned
parse_below bound s = unsigned s >>=? λ n. if ltb n bound then some n else none

read_digits-digit :
    (a d : ℕ) (rest : Text)
    → d < 10
    → read_digits a ((b'0' + d) ∷ rest) ≡ read_digits (10 * a + d) rest
unfolding read_digits
read_digits-digit a d rest h =
    let test : is_digit (b'0' + d) ≡ true = unfold is_digit in ground arith in
    let value : 10 * a + (b'0' + d - b'0') ≡ 10 * a + d = omega arith in rw (test, value)

read_digits-digits_onto :
    (fuel n : ℕ) (rest : Text)
    → n < fuel
    → read_digits 0 (digits_onto fuel n rest) ≡ read_digits n rest
unfolding digits_onto
read_digits-digits_onto zero n rest h = absurd (omega arith)
read_digits-digits_onto (suc fuel) n rest h = elim (Bool-cases (n / 10 == 0)) [
  | inl last ↦
      let small : 10 * 0 + n % 10 ≡ n = ground arith in
      rw last (read_digits-digit 0 (n % 10) rest (omega arith) ∙ rw small)
  | inr more ↦
      let value : 10 * (n / 10) + n % 10 ≡ n = omega arith in
      rw more (
        read_digits-digits_onto fuel (n / 10) ((b'0' + n % 10) ∷ rest) (ground arith)
        ∙ read_digits-digit (n / 10) (n % 10) rest (omega arith)
        ∙ rw value)
]

-- a digit stays at the head of what is written in front of it
digits_onto-head :
    (fuel n d : ℕ) (rest : Text)
    → d < 10
    → (c : ℕ) × (cs : Text) × (digits_onto fuel n ((b'0' + d) ∷ rest) ≡ c ∷ cs) × (b'0' ≤ c)
unfolding digits_onto
digits_onto-head zero n d rest h = (b'0' + d, rest, refl, omega arith)
digits_onto-head (suc fuel) n d rest h = elim (Bool-cases (n / 10 == 0)) [
  | inl last ↦ (b'0' + n % 10, (b'0' + d) ∷ rest, rw last, omega arith)
  | inr more ↦
      let (c, cs, e, g) =
        digits_onto-head fuel (n / 10) (n % 10) ((b'0' + d) ∷ rest) (omega arith) in
      (c, cs, rw more e, g)
]

pub decimal-head : (n : ℕ) → (c : ℕ) × (cs : Text) × (decimal n ≡ c ∷ cs) × (b'0' ≤ c)
unfolding decimal digits_onto
decimal-head n = elim (Bool-cases (n / 10 == 0)) [
  | inl last ↦ (b'0' + n % 10, [], rw last, omega arith)
  | inr more ↦
      let (c, cs, e, g) = digits_onto-head n (n / 10) (n % 10) [] (omega arith) in
      (c, cs, rw more e, g)
]

pub read_digits-decimal : (n : ℕ) → read_digits 0 (decimal n) ≡ some n
read_digits-decimal n =
    unfold decimal in
    read_digits-digits_onto (suc n) n [] (omega arith) ∙ unfold read_digits in refl

unsigned_plain :
    (c : ℕ) (cs : Text) → (c == b'+') ≡ false → unsigned (c ∷ cs) ≡ read_digits 0 (c ∷ cs)
unfolding unsigned
unsigned_plain c [] h = rw h
unsigned_plain c (d ∷ cs) h = rw h

-- reading what was printed gives the number back
pub parse_below-decimal : (bound n : ℕ) → n < bound → parse_below bound (decimal n) ≡ some n
unfolding parse_below
parse_below-decimal bound n h =
    let (c, cs, e, g) = decimal-head n in
    let plain = unsigned_plain c cs (ground arith) in
    let value : unsigned (decimal n) ≡ some n =
      ap unsigned e ∙ plain ∙ sym (ap (read_digits 0) e) ∙ read_digits-decimal n in
    rw (value, lt→ltb n bound h)
