-- ===== src/Base/Digits.antt =====
-- The characters of a printed number.
use Prim.Native.Nat.{ℕ, zero, suc, ◌+◌, ◌/◌, ◌%◌, ◌≤◌}
use mathlib.Core.Path.{◌≡◌}
use mathlib.Core.Bool.{false}
use mathlib.Core.List.{[], ◌∷◌}
use native.Mathlib.Omega.{arith}
use elrond.Base.Lists.{All}
use elrond.Base.Strings.{Text}
use elrond.Base.Decimal.{digits_onto, decimal}
use elrond.Base.Trim.{is_whitespace}
use elrond.Base.Tests.{◌==◌, if-intro}

abbrev pub IsDigit : ℕ → Type 0
IsDigit c = (48 ≤ c) × (c ≤ 57)

digits_onto-All : (fuel n : ℕ) (acc : Text) → All IsDigit acc → All IsDigit (digits_onto fuel n acc)
unfolding digits_onto
digits_onto-All zero n acc h = h
digits_onto-All (suc fuel) n acc h =
    let h' : All IsDigit ((b'0' + n % 10) ∷ acc) = ((omega arith, omega arith), h) in
    if-intro (All IsDigit) (n / 10 == 0) _ _ (λ _. h') (λ _. digits_onto-All fuel (n / 10) _ h')

pub decimal-All : (n : ℕ) → All IsDigit (decimal n)
unfolding decimal
decimal-All n = digits_onto-All (suc n) n [] tt

digit-solid : (c : ℕ) → IsDigit c → is_whitespace c ≡ false
unfolding is_whitespace
digit-solid c h = ground arith

pub digits-solid : (s : Text) → All IsDigit s → All (λ c. is_whitespace c ≡ false) s
digits-solid [] h = tt
digits-solid (c ∷ cs) h = (digit-solid c h.0, digits-solid cs h.1)
