-- ===== src/Static/Contained.antt =====
-- The paths that `components_safe` of src/static_files.rs lets through, by their characters.
use elrond.Base.{
  ◌≡◌, refl, ◌≢◌, ◌⊎◌, inl, inr, Bool, true, false, not, ◌&&◌, [], ◌∷◌, ◌++◌, append_assoc, arith,
  any, Text, codes, text_eq, split, starts_with, split-cons, split-behind,
}
use elrond.Static.Files.{components_safe, is_parent}

-- where a segment may begin, and where it may end
abbrev pub Opens : Text → Type 0
Opens before = (before ≡ []) ⊎ ((b : Text) × (before ≡ b ++ b'/' ∷ []))

abbrev pub Closes : Text → Type 0
Closes after = (after ≡ []) ⊎ ((a : Text) × (after ≡ b'/' ∷ a))

-- The path is relative, and none of its segments is `..`.
pub record IsContained (rel : Text) : Type 0 where
  pub relative : (cs : Text) → rel ≢ b'/' ∷ cs
  pub no_parent :
      (before after : Text) → Opens before → Closes after → rel ≢ before ++ (codes ".." ++ after)

parent-first :
    (after : Text) → Closes after → any is_parent (split b'/' (codes ".." ++ after)) ≡ true
unfolding split text_eq
parent-first after (inl e) = rw e refl
parent-first after (inr (a, e)) = let (p, ps, q) = split-cons b'/' a in rw (e, q) refl

parent-among :
    (before after : Text)
    → Opens before
    → Closes after
    → any is_parent (split b'/' (before ++ (codes ".." ++ after))) ≡ true
parent-among before after (inl e) k = rw e (parent-first after k)
parent-among before after (inr (b, e)) k =
    let (p, ps, q, h) =
      split-behind is_parent b'/' b (codes ".." ++ after) (parent-first after k) in
    rw (e, append_assoc b (b'/' ∷ []) (codes ".." ++ after), q) (ground (arith, h))

pub components_safe-IsContained : (rel : Text) → components_safe rel ≡ true → IsContained rel
unfolding components_safe
components_safe-IsContained rel h = record {
  relative = λ cs e.
      let begins : starts_with rel (codes "/") ≡ true = rw e (unfold starts_with in refl) in
      absurd (both (starts_with rel (codes "/")) (any is_parent (split b'/' rel)) h (inl begins));
  no_parent = λ before after o c e.
      let parent : any is_parent (split b'/' rel) ≡ true = rw e (parent-among before after o c) in
      absurd (both (starts_with rel (codes "/")) (any is_parent (split b'/' rel)) h (inr parent));
}
  where
    both : (a b : Bool) → (not a && not b) ≡ true → (a ≡ true) ⊎ (b ≡ true) → ⊥
    both false false e (inl p) = absurd cc
    both false false e (inr p) = absurd cc
    both true b e p = absurd cc
    both false true e p = absurd cc
