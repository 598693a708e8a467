-- ===== src/Router/Listeners/Grouped.antt =====
-- One block staged: the hosts of each address, and the listeners apart. From `build` of src/app.rs.
use elrond.Base.{
  ◌≡◌, refl, sym, ◌⊎◌, inl, inr, Bool, true, false, not, ◌&&◌, Option, none, some, List, [], ◌∷◌,
  ◌++◌, append-nil, arith, if◌then◌else◌, Bool-cases, is_none, if-intro, length, is_empty, All,
  length-append, IfOk, IfOk-bind,
}
use elrond.Config.Location.Build.{same}
use elrond.Router.Host.{VirtualHost}
use elrond.Router.Listeners.{
  Staged, ListenerCfg, Grouping, empty_listener, pushed, add_vhost, stage,
}

-- it has a host, and all of its blocks have a certificate or none has
pub record IsListener {Addr S Cert : Type 0} (l : ListenerCfg Addr S Cert) : Type 0 where
  pub served : is_empty l.vhosts ≡ false
  pub uniform : (is_empty l.tls_paths ≡ true) ⊎ (length l.tls_paths ≡ length l.vhosts)

-- the equality of addresses
pub record IsEquality {Addr : Type 0} (addr_eq : Addr → Addr → Bool) : Type 0 where
  pub sound : (a b : Addr) → addr_eq a b ≡ true → a ≡ b
  pub complete : (a : Addr) → addr_eq a a ≡ true

abbrev pub one_if {ℓ} : {A : Type ℓ} → Bool → A → List A
one_if true a = a ∷ []
one_if false a = []

append-is_empty : {A : Type 0} (xs : List A) (x : A) → is_empty (xs ++ x ∷ []) ≡ false
append-is_empty [] x = refl
append-is_empty (_ ∷ _) x = refl

module _ {Addr S Cert : Type 0} where
  -- what a block makes of the listener of its address
  record IsJoined (l : ListenerCfg Addr S Cert) (v : VirtualHost S) (l' : ListenerCfg Addr S Cert)
      : Type 0 where
    same_addr : l'.addr ≡ l.addr
    one_more : l'.vhosts ≡ l.vhosts ++ v ∷ []
    is_listener : IsListener l'

  add_vhost-IsJoined :
      (l : ListenerCfg Addr S Cert) (v : VirtualHost S) (cert : Option Cert)
      → (is_empty l.tls_paths ≡ true) ⊎ (length l.tls_paths ≡ length l.vhosts)
      → IfOk (add_vhost l v cert) (IsJoined l v)
  unfolding add_vhost
  add_vhost-IsJoined l v cert u =
      if-intro (λ (r : Grouping Addr (ListenerCfg Addr S Cert)). IfOk r (IsJoined l v))
        (not (is_empty l.vhosts) && not (same (is_empty l.tls_paths) (is_none cert))) _ _ (λ _. tt)
        (λ h. record {
          same_addr = refl;
          one_more = refl;
          is_listener = record {
            served = append-is_empty l.vhosts v;
            uniform = uniform_after l.vhosts l.tls_paths cert u h;
          };
        })
    where
      uniform_after :
          (vs : List (VirtualHost S)) (paths : List Cert) (c : Option Cert)
          → (is_empty paths ≡ true) ⊎ (length paths ≡ length vs)
          → (not (is_empty vs) && not (same (is_empty paths) (is_none c))) ≡ false
          → (is_empty (pushed paths c) ≡ true) ⊎ (length (pushed paths c) ≡ length (vs ++ v ∷ []))
      uniform_after [] [] none w h = inl refl
      uniform_after [] [] (some c) w h = inr refl
      uniform_after [] (p ∷ ps) c (inl e) h = absurd cc
      uniform_after [] (p ∷ ps) c (inr e) h = absurd (omega (arith, e))
      uniform_after (x ∷ xs) [] none w h = inl refl
      uniform_after (x ∷ xs) [] (some c) w h = absurd cc
      uniform_after (x ∷ xs) (p ∷ ps) none w h = absurd cc
      uniform_after (x ∷ xs) (p ∷ ps) (some c) (inl e) h = absurd cc
      uniform_after (x ∷ xs) (p ∷ ps) (some c) (inr e) h =
          inr (omega (arith, e, length-append (p ∷ ps) (c ∷ []), length-append (x ∷ xs) (v ∷ [])))

module _ {Addr S Cert : Type 0} (addr_eq : Addr → Addr → Bool) where
  -- the hosts of the listener at an address
  unfoldable pub hosts_at : Addr → List (ListenerCfg Addr S Cert) → List (VirtualHost S)
  hosts_at a [] = []
  hosts_at a (l ∷ ls) = if addr_eq l.addr a then l.vhosts else hosts_at a ls

  -- the hosts of the blocks with an address, in the order of the blocks
  unfoldable pub blocks_at : Addr → List (Staged Addr S Cert) → List (VirtualHost S)
  blocks_at a [] = []
  blocks_at a (s ∷ staged) = one_if (addr_eq s.addr a) s.vhost ++ blocks_at a staged

  -- no two listeners have one address
  unfoldable pub AreApart : List (ListenerCfg Addr S Cert) → Type 0
  AreApart [] = Unit
  AreApart (l ∷ ls) =
      All (λ (m : ListenerCfg Addr S Cert). addr_eq l.addr m.addr ≡ false) ls × AreApart ls

  module _ (K : IsEquality addr_eq) where
    pub stage-hosts :
        (a : Addr) (ls : List (ListenerCfg Addr S Cert)) (s : Staged Addr S Cert)
        → All IsListener ls
        → IfOk
            (stage addr_eq ls s)
            (λ ls'. hosts_at a ls' ≡ hosts_at a ls ++ one_if (addr_eq s.addr a) s.vhost)
    unfolding stage hosts_at
    stage-hosts a [] s h =
        IfOk-bind (IsJoined (empty_listener s.addr) s.vhost) _
          (add_vhost (empty_listener s.addr) s.vhost s.cert) _
          (add_vhost-IsJoined (empty_listener s.addr) s.vhost s.cert (inl refl))
          (λ l' j. rw (j.same_addr, j.one_more) (fresh (addr_eq s.addr a)))
      where
        fresh : (b : Bool) → (if b then s.vhost ∷ [] else []) ≡ one_if b s.vhost
        fresh true = refl
        fresh false = refl
    stage-hosts a (l ∷ ls) s (i, h) = elim (Bool-cases (addr_eq l.addr s.addr)) [
      | inl e ↦ rw e (
          IfOk-bind (IsJoined l s.vhost) _ (add_vhost l s.vhost s.cert) _
            (add_vhost-IsJoined l s.vhost s.cert i.uniform)
            (λ l' j.
              rw (j.same_addr, j.one_more, sym (K.sound l.addr s.addr e))
                (onto (addr_eq l.addr a))))
      | inr e ↦ rw e (
          IfOk-bind (λ ls'. hosts_at a ls' ≡ hosts_at a ls ++ one_if (addr_eq s.addr a) s.vhost) _
            (stage addr_eq ls s) _ (stage-hosts a ls s h)
            (λ ls' k. past e (addr_eq l.addr a) (addr_eq s.addr a) refl refl ls' k))
    ]
      where
        onto :
            (b : Bool)
            → (if b then l.vhosts ++ s.vhost ∷ [] else hosts_at a ls)
              ≡ (if b then l.vhosts else hosts_at a ls) ++ one_if b s.vhost
        onto true = refl
        onto false = sym (append-nil (hosts_at a ls))

        alike : addr_eq l.addr a ≡ true → addr_eq s.addr a ≡ true → addr_eq l.addr s.addr ≡ true
        alike p q = rw (K.sound l.addr a p, K.sound s.addr a q) (K.complete a)

        past :
            addr_eq l.addr s.addr ≡ false
            → (b c : Bool) → addr_eq l.addr a ≡ b
            → addr_eq s.addr a ≡ c
            → (ls' : List (ListenerCfg Addr S Cert))
            → hosts_at a ls' ≡ hosts_at a ls ++ one_if c s.vhost
            → (if b then l.vhosts else hosts_at a ls')
              ≡ (if b then l.vhosts else hosts_at a ls) ++ one_if c s.vhost
        past e true true p q ls' k = let m = alike p q in absurd cc
        past e true false p q ls' k = sym (append-nil l.vhosts)
        past e false c p q ls' k = k

  pub stage-All :
      (ls : List (ListenerCfg Addr S Cert)) (s : Staged Addr S Cert)
      → All IsListener ls
      → IfOk (stage addr_eq ls s) (λ ls'. All IsListener ls')
  unfolding stage
  stage-All [] s h =
      IfOk-bind (IsJoined (empty_listener s.addr) s.vhost) _
        (add_vhost (empty_listener s.addr) s.vhost s.cert) _
        (add_vhost-IsJoined (empty_listener s.addr) s.vhost s.cert (inl refl))
        (λ l' j. (j.is_listener, tt))
  stage-All (l ∷ ls) s (i, h) =
      if-intro
        (λ (r : Grouping Addr (List (ListenerCfg Addr S Cert))). IfOk r (λ ls'. All IsListener ls'))
        (addr_eq l.addr s.addr) _ _
        (λ _.
          IfOk-bind (IsJoined l s.vhost) _ (add_vhost l s.vhost s.cert) _
            (add_vhost-IsJoined l s.vhost s.cert i.uniform) (λ l' j. (j.is_listener, h)))
        (λ _.
          IfOk-bind (λ ls'. All IsListener ls') _ (stage addr_eq ls s) _ (stage-All ls s h)
            (λ ls' k. (i, k)))

  -- another address than these
  abbrev pub IsApart : Addr → List (ListenerCfg Addr S Cert) → Type 0
  IsApart x ls = All (λ (m : ListenerCfg Addr S Cert). addr_eq x m.addr ≡ false) ls

  pub stage-AreApart :
      (ls : List (ListenerCfg Addr S Cert)) (s : Staged Addr S Cert)
      → All IsListener ls
      → AreApart ls
      → IfOk (stage addr_eq ls s) (λ ls'.
        AreApart ls' × ((x : Addr) → IsApart x ls → addr_eq x s.addr ≡ false → IsApart x ls'))
  unfolding stage AreApart
  stage-AreApart [] s h k =
      IfOk-bind (IsJoined (empty_listener s.addr) s.vhost) _
        (add_vhost (empty_listener s.addr) s.vhost s.cert) _
        (add_vhost-IsJoined (empty_listener s.addr) s.vhost s.cert (inl refl))
        (λ l' j. ((tt, tt), λ x _ e. (rw j.same_addr e, tt)))
  stage-AreApart (l ∷ ls) s (i, h) (p, k) =
      if-intro
        (λ (r : Grouping Addr (List (ListenerCfg Addr S Cert))). IfOk r (λ ls'.
          AreApart ls'
          × ((x : Addr) → IsApart x (l ∷ ls) → addr_eq x s.addr ≡ false → IsApart x ls')))
        (addr_eq l.addr s.addr) _ _
        (λ _.
          IfOk-bind (IsJoined l s.vhost) _ (add_vhost l s.vhost s.cert) _
            (add_vhost-IsJoined l s.vhost s.cert i.uniform)
            (λ l' j. ((rw j.same_addr p, k), λ x q _. (rw j.same_addr q.0, q.1))))
        (λ n.
          IfOk-bind
            (λ ls'.
              AreApart ls' × ((x : Addr) → IsApart x ls → addr_eq x s.addr ≡ false → IsApart x ls'))
            _ (stage addr_eq ls s) _ (stage-AreApart ls s h k)
            (λ ls' w. ((w.1 l.addr p n, w.0), λ x q e. (q.0, w.1 x q.1 e))))
