-- ===== src/Access/Prefix.antt =====
-- A CIDR block holds the addresses that share its leading bits.
use Prim.Native.Nat.{bit_and}
use elrond.Base.{
  ℕ, zero, suc, ◌+◌, ◌-◌, ◌*◌, ◌/◌, ◌%◌, ◌^◌, ◌≤◌, ◌<◌, ◌≡◌, refl, sym, ap, ◌∙◌, ◌↔◌, inl, inr,
  Bool, true, ◌&&◌, List, [], ◌∷◌, ◌++◌, arith, ◌==◌, if◌then◌else◌, ==_iff, Bool-cases, length,
  take, All, text_eq,
}
use mathlib.Core.Path.{subst}
use elrond.Net.{IsOctets}
use elrond.Access.{tail_mask, octet, mask_match}

-- The bits of a byte, the high bit first.
abbrev pub byte_bits : ℕ → List ℕ
byte_bits x =
    (x / 128 % 2)
    ∷ (x / 64 % 2)
    ∷ (x / 32 % 2)
    ∷ (x / 16 % 2)
    ∷ (x / 8 % 2)
    ∷ (x / 4 % 2)
    ∷ (x / 2 % 2)
    ∷ (x % 2)
    ∷ []

abbrev pub address_bits : List ℕ → List ℕ
address_bits [] = []
address_bits (x ∷ xs) = byte_bits x ++ address_bits xs

passes : (ℕ → Bool) → ℕ → Bool
passes test zero = true
passes test (suc k) = passes test k && test k

passes_below :
    (test : ℕ → Bool) (bound i : ℕ) → i < bound → passes test bound ≡ true → test i ≡ true
unfolding passes
passes_below test zero i small e = absurd (omega arith)
passes_below test (suc k) i small e = ground (arith, passes_below test k i)

-- masking keeps the high bits, for each width of the tail
masks : ℕ → ℕ → Bool
masks t x = bit_and x (tail_mask t) == x / 2 ^ (8 - t) * 2 ^ (8 - t)

mask_table : passes (λ t. passes (masks t) 256) 8 ≡ true
unfolding passes masks
mask_table = refl

bit_and-tail_mask :
    (t x : ℕ) → t < 8 → x < 256 → bit_and x (tail_mask t) ≡ x / 2 ^ (8 - t) * 2 ^ (8 - t)
bit_and-tail_mask t x ht hx = (==_iff _ _).0 (
    unfold masks in
    passes_below (masks t) 256 x hx (passes_below (λ t. passes (masks t) 256) 8 t ht mask_table))

-- the leading bits of two bytes agree exactly when the bytes agree above the tail
tail_bits :
    (t x y : ℕ) (xs ys : List ℕ)
    → t < 8
    → x < 256
    → y < 256
    → (take t (byte_bits x ++ xs) ≡ take t (byte_bits y ++ ys))
      ↔ (x / 2 ^ (8 - t) ≡ y / 2 ^ (8 - t))
tail_bits zero x y xs ys h hx hy = ground arith
tail_bits (suc zero) x y xs ys h hx hy = ground arith
tail_bits (suc (suc zero)) x y xs ys h hx hy = ground arith
tail_bits (suc (suc (suc zero))) x y xs ys h hx hy = ground arith
tail_bits (suc (suc (suc (suc zero)))) x y xs ys h hx hy = ground arith
tail_bits (suc (suc (suc (suc (suc zero))))) x y xs ys h hx hy = ground arith
tail_bits (suc (suc (suc (suc (suc (suc zero)))))) x y xs ys h hx hy = ground arith
tail_bits (suc (suc (suc (suc (suc (suc (suc zero))))))) x y xs ys h hx hy = ground arith
tail_bits (suc (suc (suc (suc (suc (suc (suc (suc t)))))))) x y xs ys h hx hy = absurd (omega arith)

-- the number of bits in `k` octets and a tail
abbrev width : ℕ → ℕ → ℕ
width zero t = t
width (suc k) t = suc (suc (suc (suc (suc (suc (suc (suc (width k t))))))))

width_lem : (k t : ℕ) → width k t ≡ 8 * k + t
width_lem zero t = omega arith
width_lem (suc k) t = omega (arith, width_lem k t)

-- the two comparisons of `mask_match`, on whole octets and on the tail
compared : List ℕ → List ℕ → ℕ → ℕ → Bool
compared base addr k t =
    text_eq (take k base) (take k addr)
    && (if t == 0
        then true
        else bit_and (octet base k) (tail_mask t) == bit_and (octet addr k) (tail_mask t))

masked_eq :
    (t x y : ℕ)
    → t < 8
    → x < 256
    → y < 256
    → (bit_and x (tail_mask t) ≡ bit_and y (tail_mask t)) ↔ (x / 2 ^ (8 - t) ≡ y / 2 ^ (8 - t))
masked_eq t x y h hx hy =
    let mx = bit_and-tail_mask t x h hx in
    let my = bit_and-tail_mask t y h hy in
    (
      λ e. scaled t (x / 2 ^ (8 - t)) (y / 2 ^ (8 - t)) h (sym mx ∙ e ∙ my),
      λ e. mx ∙ ap (λ v. v * 2 ^ (8 - t)) e ∙ sym my,
    )
  where
    scaled : (s a b : ℕ) → s < 8 → a * 2 ^ (8 - s) ≡ b * 2 ^ (8 - s) → a ≡ b
    scaled zero a b l e = omega arith
    scaled (suc zero) a b l e = omega arith
    scaled (suc (suc zero)) a b l e = omega arith
    scaled (suc (suc (suc zero))) a b l e = omega arith
    scaled (suc (suc (suc (suc zero)))) a b l e = omega arith
    scaled (suc (suc (suc (suc (suc zero))))) a b l e = omega arith
    scaled (suc (suc (suc (suc (suc (suc zero)))))) a b l e = omega arith
    scaled (suc (suc (suc (suc (suc (suc (suc zero))))))) a b l e = omega arith
    scaled (suc (suc (suc (suc (suc (suc (suc (suc s)))))))) a b l e = absurd (omega arith)

compared_tail :
    (x y t : ℕ) (xs ys : List ℕ)
    → suc t < 8
    → x < 256
    → y < 256
    → (compared (x ∷ xs) (y ∷ ys) 0 (suc t) ≡ true)
      ↔ (take (suc t) (address_bits (x ∷ xs)) ≡ take (suc t) (address_bits (y ∷ ys)))
unfolding compared text_eq
compared_tail x y t xs ys h hx hy =
    let (there, back) = tail_bits (suc t) x y (address_bits xs) (address_bits ys) h hx hy in
    let (down, up) = masked_eq (suc t) x y h hx hy in
    let test = ==_iff (bit_and x (tail_mask (suc t))) (bit_and y (tail_mask (suc t))) in
    (λ e. back (down (test.0 (ground arith))), λ e. ground (arith, test.1 (up (there e))))

byte_bits-injective :
    (x y : ℕ) (xs ys : List ℕ)
    → x < 256
    → y < 256
    → byte_bits x ++ xs ≡ byte_bits y ++ ys
    → (x ≡ y) × (xs ≡ ys)
byte_bits-injective x y xs ys hx hy e = ground arith

compared_octet :
    (x y k t : ℕ) (xs ys : List ℕ)
    → compared (x ∷ xs) (y ∷ ys) (suc k) t ≡ (x == y && compared xs ys k t)
unfolding compared text_eq
compared_octet x y k t xs ys = ground arith

compared-take :
    (k t : ℕ) (base addr : List ℕ)
    → length base ≡ length addr
    → All (λ x. x < 256) base
    → All (λ x. x < 256) addr
    → t < 8
    → width k t ≤ 8 * length base
    → (compared base addr k t ≡ true)
      ↔ (take (width k t) (address_bits base) ≡ take (width k t) (address_bits addr))
compared-take zero zero base addr l b a h w = (λ _. refl, λ _. unfold compared text_eq in refl)
compared-take zero (suc t) [] addr l b a h w = absurd (omega arith)
compared-take zero (suc t) (x ∷ xs) [] l b a h w = absurd (omega arith)
compared-take zero (suc t) (x ∷ xs) (y ∷ ys) l b a h w = compared_tail x y t xs ys h b.0 a.0
compared-take (suc k) t [] addr l b a h w = absurd (omega arith)
compared-take (suc k) t (x ∷ xs) [] l b a h w = absurd (omega arith)
compared-take (suc k) t (x ∷ xs) (y ∷ ys) l b a h w =
    let (there, back) = compared-take k t xs ys (omega arith) b.1 a.1 h (omega arith) in
    let step = compared_octet x y k t xs ys in
    (
      λ e. ground (arith, step, there),
      λ e.
          let (same, rest) =
            byte_bits-injective x y (take (width k t) (address_bits xs))
              (take (width k t) (address_bits ys)) b.0 a.0 e in
          ground (arith, step, back rest),
    )

mask_match-compared :
    (n bits : ℕ) (base addr : List ℕ)
    → bits ≤ 8 * n
    → mask_match base addr bits (8 * n) ≡ compared base addr (bits / 8) (bits % 8)
unfolding mask_match compared text_eq
mask_match-compared n bits base addr l = elim (Bool-cases (bits == 0)) [
  | inl z ↦ let none_left : bits ≡ 0 = ground arith in rw none_left (ground arith)
  | inr p ↦ ground arith
]

-- For two addresses of `n` octets and a prefix of at most 8 n bits, `mask_match` answers true exactly
-- when the first `bits` bits of the two addresses are the same.
pub mask_match-take :
    (n bits : ℕ) (base addr : List ℕ)
    → IsOctets n base
    → IsOctets n addr
    → bits ≤ 8 * n
    → (mask_match base addr bits (8 * n) ≡ true)
      ↔ (take bits (address_bits base) ≡ take bits (address_bits addr))
mask_match-take n bits base addr b a l =
    let k = bits / 8 in
    let t = bits % 8 in
    let e : width k t ≡ bits = omega (arith, width_lem k t) in
    let same = mask_match-compared n bits base addr l in
    let (there, back) =
      compared-take k t base addr (b.count ∙ sym a.count) b.bytes a.bytes (omega arith)
        (omega (arith, b.count)) in
    subst
      (λ w.
        (mask_match base addr bits (8 * n) ≡ true)
        ↔ (take w (address_bits base) ≡ take w (address_bits addr)))
      e (λ h. there (sym same ∙ h), λ h. same ∙ back h)
