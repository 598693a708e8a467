-- ===== src/Base/Trim.antt =====
-- The operations of `str` that cut text: `trim`, `split`, `split_once`, `starts_with`, `strip_prefix`.
use Prim.Native.Nat.{ℕ, ◌+◌}
use mathlib.Core.Bool.{Bool, true, false, ◌&&◌, ◌||◌}
use mathlib.Core.Option.{Option, none, some}
use mathlib.Core.List.{List, [], ◌∷◌, map}
use mathlib.Core.Path.{◌≡◌, refl}
use elrond.Base.Lists.{All}
use elrond.Base.Strings.{Text}
use elrond.Base.Tests.{◌==◌, leb, if◌then◌else◌}

-- `char::is_whitespace`, the Unicode property White_Space
unfoldable pub is_whitespace : ℕ → Bool
is_whitespace c =
    c == 32
    || (leb 9 c && leb c 13)
    || c == 0x85
    || c == 0xa0
    || c == 0x1680
    || (leb 0x2000 c && leb c 0x200a)
    || c == 0x2028
    || c == 0x2029
    || c == 0x202f
    || c == 0x205f
    || c == 0x3000

-- `trim_start`, and `trim_end` as its mirror image
unfoldable pub trim_start : Text → Text
unfolding is_whitespace
trim_start [] = []
trim_start (c ∷ cs) = let rest = trim_start cs in if is_whitespace c then rest else c ∷ cs

unfoldable pub trim_end : Text → Text
unfolding is_whitespace
trim_end [] = []
trim_end (c ∷ cs) = elim (trim_end cs) [
  | [] ↦ if is_whitespace c then [] else c ∷ []
  | d ∷ ds ↦ c ∷ d ∷ ds
]

unfoldable pub trim : Text → Text
unfolding trim_start trim_end
trim s = trim_end (trim_start s)

-- `to_ascii_lowercase`
abbrev pub to_ascii_lowercase : Text → Text
to_ascii_lowercase s = map (λ c. if leb b'A' c && leb c b'Z' then c + 32 else c) s

-- `split` at a character: one piece more than there are characters
unfoldable pub split : ℕ → Text → List Text
split sep [] = [] ∷ []
split sep (c ∷ cs) = elim (split sep cs) [
  | [] ↦ []
  | piece ∷ pieces ↦ if c == sep then [] ∷ piece ∷ pieces else (c ∷ piece) ∷ pieces
]

-- `split_once` at the first such character
unfoldable pub split_once : ℕ → Text → Option (Text × Text)
split_once sep [] = none
split_once sep (c ∷ cs) =
    let rest = split_once sep cs in
    if c == sep then some ([], cs) else elim rest [ none ↦ none | some (a, b) ↦ some (c ∷ a, b) ]

unfoldable pub starts_with : Text → Text → Bool
starts_with s [] = true
starts_with [] (p ∷ ps) = false
starts_with (c ∷ cs) (p ∷ ps) = c == p && starts_with cs ps

unfoldable pub strip_prefix : Text → Text → Option Text
strip_prefix s [] = some s
strip_prefix [] (p ∷ ps) = none
strip_prefix (c ∷ cs) (p ∷ ps) = let rest = strip_prefix cs ps in if c == p then rest else none

-- `trim_end_matches` of a character
unfoldable pub trim_end_matches : ℕ → Text → Text
trim_end_matches p [] = []
trim_end_matches p (c ∷ cs) = elim (trim_end_matches p cs) [
  | [] ↦ if c == p then [] else c ∷ []
  | d ∷ ds ↦ c ∷ d ∷ ds
]

-- text without white space is kept
trim_end-solid : (s : Text) → All (λ c. is_whitespace c ≡ false) s → trim_end s ≡ s
unfolding trim_end
trim_end-solid [] h = refl
trim_end-solid (c ∷ []) h = rw h.0 refl
trim_end-solid (c ∷ d ∷ ds) h = rw (trim_end-solid (d ∷ ds) h.1) refl

pub trim-solid : (s : Text) → All (λ c. is_whitespace c ≡ false) s → trim s ≡ s
unfolding trim trim_start
trim-solid [] h = trim_end-solid [] tt
trim-solid (c ∷ cs) h = rw h.0 (trim_end-solid (c ∷ cs) h)
