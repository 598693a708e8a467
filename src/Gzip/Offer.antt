-- ===== src/Gzip/Offer.antt =====
-- What `client_accepts_gzip` of src/gzip.rs takes for an offer.
use elrond.Base.{
  ◌≡◌, refl, ◌⊎◌, inl, inr, Bool, true, false, ◌||◌, Option, none, some, List, [], ◌∷◌, Bool-cases,
  any, In, Text, codes, text_eq, trim, split,
}
use elrond.Proxy.Headers.{HeaderMapApi}
use elrond.Http.{get_str, same_word, before}
use elrond.Gzip.{offers_gzip, client_accepts_gzip}

any-In :
    {A : Type 0} (p : A → Bool) (xs : List A) → any p xs ≡ true → (x : A) × In x xs × (p x ≡ true)
any-In p [] h = absurd cc
any-In p (x ∷ xs) h = elim (Bool-cases (p x)) [
  | inl t ↦ (x, inl refl, t)
  | inr f ↦ let (y, m, q) = any-In p xs (drop_first (p x) (any p xs) f h) in (y, inr m, q)
]
  where
    drop_first : (a b : Bool) → a ≡ false → (a || b) ≡ true → b ≡ true
    drop_first true b e g = absurd cc
    drop_first false b e g = g

-- the word of an item, without its weight
abbrev pub word_of : Text → Text
word_of item = trim (before b';' (trim item))

module _ (H : HeaderMapApi) where
  -- An item of the request's `Accept-Encoding` names gzip, in any case of its letters, or is `*`.
  pub record IsOffered (req : H.Map) : Type 0 where
    pub value : Text
    pub item : Text
    pub given : get_str H (codes "accept-encoding") req ≡ some value
    pub among : In item (split b',' value)
    pub named :
        (same_word (word_of item) (codes "gzip") ≡ true)
        ⊎ (text_eq (word_of item) (codes "*") ≡ true)

  either_is : (a b : Bool) → (a || b) ≡ true → (a ≡ true) ⊎ (b ≡ true)
  either_is true b h = inl refl
  either_is false b h = inr h

  pub client_accepts_gzip-IsOffered :
      (req : H.Map) → client_accepts_gzip H req ≡ true → IsOffered req
  unfolding client_accepts_gzip
  client_accepts_gzip-IsOffered req h = read (get_str H (codes "accept-encoding") req) refl h
    where
      read :
          (o : Option Text)
          → get_str H (codes "accept-encoding") req ≡ o
          → (elim o [ none ↦ false | some v ↦ any offers_gzip (split b',' v) ]) ≡ true
          → IsOffered req
      read none e g = absurd cc
      read (some v) e g =
          let (item, m, offers) = any-In offers_gzip (split b',' v) g in
          record {
            value = v;
            item = item;
            given = e;
            among = m;
            named = unfold offers_gzip in either_is _ _ offers;
          }
