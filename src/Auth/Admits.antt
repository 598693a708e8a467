-- ===== src/Auth/Admits.antt =====
-- Who passes the check of src/auth.rs: those whom a line of the file names.
use elrond.Base.{
  Result, ok, err, ℕ, ◌+◌, ◌≡◌, refl, subst, inl, inr, Bool, true, false, ◌||◌, Option, none, some,
  List, [], ◌∷◌, arith, if◌then◌else◌, Bool-cases, unwrap_or, if-intro, is_empty, In, Text, codes,
  text_eq_iff, IfOk, IfOk-bind, Dict, lookup, insert, lookup-insert, trim, split_once, starts_with,
}
use elrond.Proxy.Headers.{HeaderMapApi}
use elrond.Auth.{
  is_bcrypt, lines, read_line, parse_lines, entry, Line, judge, skipped, refused, AuthBasic,
  Complaint, parse_htpasswd, load, Crypto, parse_authorization, is_user, accepts, check,
  challenge_response,
}

-- A line of the file that lists a user with a hash, at some number.
abbrev pub IsListed : Text → Text → Text → Type 0
IsListed file user hash =
    (raw : Text) × (n : ℕ) × In raw (lines file) × (read_line n raw ≡ entry user hash)

judge-bcrypt :
    (n : ℕ) (o : Option (Text × Text)) (user hash : Text)
    → judge n o ≡ entry user hash
    → is_bcrypt hash ≡ true
unfolding judge
judge-bcrypt n none user hash h = absurd cc
judge-bcrypt n (some (u, p)) user hash h = elim (Bool-cases (is_bcrypt p)) [
  | inl t ↦ cc
  | inr f ↦ absurd cc
]

read_line-bcrypt :
    (n : ℕ) (raw user hash : Text) → read_line n raw ≡ entry user hash → is_bcrypt hash ≡ true
unfolding read_line
read_line-bcrypt n raw user hash h =
    elim (Bool-cases (is_empty (trim raw) || starts_with (trim raw) (codes "#"))) [
      | inl t ↦ absurd cc
      | inr f ↦ judge-bcrypt n (split_once b':' (trim raw)) user hash cc
    ]

module _ (Q : Text → Text → Type 0) where
  abbrev pub IsHeld : Dict Text → Type 0
  IsHeld users = (user hash : Text) → lookup user users ≡ some hash → Q user hash

  insert-IsHeld :
      (user hash : Text) (users : Dict Text)
      → IsHeld users
      → Q user hash
      → IsHeld (insert user hash users)
  insert-IsHeld user hash users h q u p e =
      ground (arith, text_eq_iff user u, lookup-insert user u hash users, e, h u p)

  parse_lines-IsHeld :
      (n : ℕ) (raws : List Text) (out : Dict Text)
      → IsHeld out
      → ((raw : Text) (m : ℕ) (user hash : Text)
          → In raw raws
          → read_line m raw ≡ entry user hash
          → Q user hash)
      → IfOk (parse_lines n raws out) IsHeld
  unfolding parse_lines
  parse_lines-IsHeld n [] out h q = h
  parse_lines-IsHeld n (raw ∷ raws) out h q =
      go (read_line n raw) refl
        (λ out' h'. parse_lines-IsHeld (n + 1) raws out' h' (λ r m u p i e. q r m u p (inr i) e))
    where
      go :
          (line : Line)
          → read_line n raw ≡ line
          → ((out' : Dict Text) → IsHeld out' → IfOk (parse_lines (n + 1) raws out') IsHeld)
          → IfOk
              (elim line [
                | skipped ↦ parse_lines (n + 1) raws out
                | refused why ↦ err why
                | entry user hash ↦ parse_lines (n + 1) raws (insert user hash out)
              ])
              IsHeld
      go skipped e ih = ih out h
      go (refused why) e ih = tt
      go (entry u p) e ih = ih (insert u p out) (insert-IsHeld u p out h (q raw n u p (inl refl) e))

no_user : (user hash : Text) → lookup user [] ≡ some hash → ⊥
unfolding lookup
no_user user hash e = cc

load-IsHeld :
    (file realm : Text)
    → IfOk
        (load (some file) realm)
        (λ auth. IsHeld (λ user hash. IsListed file user hash) auth.users)
unfolding load parse_htpasswd
load-IsHeld file realm =
    IfOk-bind (IsHeld (IsListed file)) _ (parse_lines 1 (lines file) []) _
      (parse_lines-IsHeld (IsListed file) 1 (lines file) [] (λ u p e. absurd (no_user u p e))
        (λ raw m u p i e. (raw, m, i, e)))
      (λ users held.
        if-intro
          (λ (r : Result Complaint AuthBasic). IfOk r (λ auth. IsHeld (IsListed file) auth.users))
          (is_empty users) _ _ (λ _. tt) (λ _. held))

module _ (H : HeaderMapApi) (of_pairs : List (Text × Text) → H.Map) (C : Crypto) where
  -- The credentials of the header are a user's whom the file lists, with the password of its hash.
  pub record IsAdmitted (file : Text) (headers : H.Map) : Type 0 where
    pub user : Text
    pub password : Text
    pub hash : Text
    pub credentials :
        (creds : Text) × (parse_authorization H of_pairs C headers ≡ some creds)
        × (split_once b':' creds ≡ some (user, password))
    pub listed : IsListed file user hash
    pub bcrypt : is_bcrypt hash ≡ true
    pub verified : C.verify password hash ≡ some true

  accepts-verified :
      (password : Text) (o : Option Text)
      → accepts H of_pairs C password o ≡ true
      → (hash : Text) × (o ≡ some hash) × (C.verify password hash ≡ some true)
  accepts-verified password none h = absurd cc
  accepts-verified password (some hash) h = (hash, refl, go (C.verify password hash) h)
    where
      go : (o : Option Bool) → unwrap_or o false ≡ true → o ≡ some true
      go none e = absurd cc
      go (some b) e = cc

  is_user-IsAdmitted :
      (file : Text) (headers : H.Map) (users : Dict Text) (creds : Text) (o : Option (Text × Text))
      → IsHeld (IsListed file) users
      → parse_authorization H of_pairs C headers ≡ some creds
      → split_once b':' creds ≡ o
      → is_user H of_pairs C users o ≡ true
      → IsAdmitted file headers
  unfolding is_user
  is_user-IsAdmitted file headers users creds none held p c h = absurd cc
  is_user-IsAdmitted file headers users creds (some (user, password)) held p c h =
      let (hash, found, v) = accepts-verified password (lookup user users) h in
      let listed = held user hash found in
      record {
        user = user;
        password = password;
        hash = hash;
        credentials = (creds, p, c);
        listed = listed;
        bcrypt = read_line-bcrypt listed.1 listed.0 user hash listed.3;
        verified = v;
      }

  -- Whoever passes the check of a file that was loaded has given the name of a user whom a line of
  -- the file lists, and a password that bcrypt verifies against that line's hash, a bcrypt hash.
  pub check-IsAdmitted :
      (file realm : Text) (auth : AuthBasic) (headers : H.Map)
      → load (some file) realm ≡ ok auth
      → check H of_pairs C auth headers ≡ none
      → IsAdmitted file headers
  unfolding check
  check-IsAdmitted file realm auth headers loaded passed =
      let held : IsHeld (IsListed file) auth.users =
        subst (λ r. IfOk r (λ a. IsHeld (IsListed file) a.users)) loaded (load-IsHeld file realm) in
      go held (parse_authorization H of_pairs C headers) refl passed
    where
      go :
          IsHeld (IsListed file) auth.users
          → (o : Option Text) → parse_authorization H of_pairs C headers ≡ o
          → elim o [
            | none ↦ some (challenge_response H of_pairs C auth.realm)
            | some creds ↦
                if is_user H of_pairs C auth.users (split_once b':' creds)
                then none
                else some (challenge_response H of_pairs C auth.realm)
          ]
            ≡ none
          → IsAdmitted file headers
      go held none p e = absurd cc
      go held (some creds) p e =
          elim (Bool-cases (is_user H of_pairs C auth.users (split_once b':' creds))) [
            | inl t ↦ is_user-IsAdmitted file headers auth.users creds _ held p refl t
            | inr f ↦ absurd cc
          ]
