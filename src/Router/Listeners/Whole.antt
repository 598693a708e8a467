-- ===== src/Router/Listeners/Whole.antt =====
-- The whole grouping by address in `build` of src/app.rs, with `pick_state` on what it gives.
use elrond.Base.{
  ok, err, ◌≡◌, refl, sym, ap, ◌∙◌, Bool, true, false, Option, none, some, List, [], ◌∷◌, ◌++◌,
  append-nil, append_assoc, is_some, is_empty, All, Text, IfOk, IfOk-bind, to_ascii_lowercase,
  split,
}
use elrond.Router.Host.{VirtualHost, pick_state, first_named, first_piece, default_state}
use elrond.Router.Listeners.{Staged, ListenerCfg, Grouping, stage, group_onto, group}
use elrond.Router.Listeners.Grouped.{
  IsListener, IsEquality, one_if, hosts_at, blocks_at, AreApart, IsApart, stage-hosts, stage-All,
  stage-AreApart,
}

module _ {S : Type 0} where
  default_state-is_some :
      (vs : List (VirtualHost S)) → is_empty vs ≡ false → is_some (default_state vs) ≡ true
  default_state-is_some [] h = absurd cc
  default_state-is_some (v ∷ vs) h = refl

  pick_state-is_some :
      (vs : List (VirtualHost S)) (host : Option Text)
      → is_empty vs ≡ false
      → is_some (pick_state vs host) ≡ true
  unfolding pick_state
  pick_state-is_some vs none h = default_state-is_some vs h
  pick_state-is_some vs (some host) h =
      either (first_named (to_ascii_lowercase (first_piece (split b':' host) host)) vs)
    where
      either :
          (o : Option S)
          → is_some (elim o [ none ↦ default_state vs | some state ↦ some state ]) ≡ true
      either none = default_state-is_some vs h
      either (some state) = refl

module _ {Addr S Cert : Type 0} (addr_eq : Addr → Addr → Bool) where
  -- what the loop keeps: these listeners hold the hosts of those, and of these blocks
  record IsGrown (before after : List (ListenerCfg Addr S Cert))
      (staged : List (Staged Addr S Cert)) : Type 0 where
    each : All IsListener after
    apart : AreApart addr_eq after
    grown :
        (a : Addr)
        → hosts_at addr_eq a after ≡ hosts_at addr_eq a before ++ blocks_at addr_eq a staged

  gather :
      (before : List (ListenerCfg Addr S Cert)) (s : Staged Addr S Cert)
      (r : Grouping Addr (List (ListenerCfg Addr S Cert)))
      → IfOk r (λ ls. All IsListener ls)
      → IfOk r (λ ls.
        AreApart addr_eq ls
        × ((x : Addr) → IsApart addr_eq x before → addr_eq x s.addr ≡ false → IsApart addr_eq x ls))
      → ((a : Addr)
          → IfOk r (λ ls.
            hosts_at addr_eq a ls ≡ hosts_at addr_eq a before ++ one_if (addr_eq s.addr a) s.vhost))
      → IfOk r (λ ls. IsGrown before ls (s ∷ []))
  gather before s (ok ls) e p g = record {
    each = e;
    apart = p.0;
    grown = λ a.
        unfold blocks_at in g a ∙ ap (λ x. hosts_at addr_eq a before ++ x) (sym (append-nil _));
  }
  gather before s (err m) e p g = tt

  module _ (K : IsEquality addr_eq) where
    group_onto-IsGrown :
        (before : List (ListenerCfg Addr S Cert)) (staged : List (Staged Addr S Cert))
        → All IsListener before
        → AreApart addr_eq before
        → IfOk (group_onto addr_eq before staged) (λ ls. IsGrown before ls staged)
    unfolding group_onto
    group_onto-IsGrown before [] e p = record {
      each = e;
      apart = p;
      grown = λ a. unfold blocks_at in sym (append-nil (hosts_at addr_eq a before));
    }
    group_onto-IsGrown before (s ∷ staged) e p =
        IfOk-bind (λ ls. IsGrown before ls (s ∷ [])) _ (stage addr_eq before s) _
          (gather before s (stage addr_eq before s) (stage-All addr_eq before s e)
            (stage-AreApart addr_eq before s e p) (λ a. stage-hosts addr_eq K a before s e))
          (λ mid g.
            further mid g (group_onto addr_eq mid staged)
              (group_onto-IsGrown mid staged g.each g.apart))
      where
        further :
            (mid : List (ListenerCfg Addr S Cert))
            → IsGrown before mid (s ∷ [])
            → (r : Grouping Addr (List (ListenerCfg Addr S Cert)))
            → IfOk r (λ ls. IsGrown mid ls staged)
            → IfOk r (λ ls. IsGrown before ls (s ∷ staged))
        further mid g (ok ls) k = record {
          each = k.each;
          apart = k.apart;
          grown = λ a.
              unfold blocks_at in
              (k.grown a
                ∙ ap (λ x. x ++ blocks_at addr_eq a staged)
                    (g.grown a ∙ ap (λ x. hosts_at addr_eq a before ++ x) (append-nil _))
                ∙ append_assoc (hosts_at addr_eq a before) (one_if (addr_eq s.addr a) s.vhost)
                    (blocks_at addr_eq a staged));
        }
        further mid g (err m) k = tt

  -- What the listeners are for these blocks.
  pub record IsGrouped (staged : List (Staged Addr S Cert)) (ls : List (ListenerCfg Addr S Cert))
      : Type 0 where
    pub each : All IsListener ls
    pub apart : AreApart addr_eq ls
    pub hosts : (a : Addr) → hosts_at addr_eq a ls ≡ blocks_at addr_eq a staged
    pub picks : (host : Option Text) → All (λ l. is_some (pick_state l.vhosts host) ≡ true) ls

  -- Where the server blocks are accepted and the equality of addresses is one: no two listeners have
  -- one address; the listener of an address has exactly the hosts of that address, in the order of
  -- their blocks, and an address without a block has none; its blocks all have a certificate or none
  -- has; and `pick_state` finds a host for every request, so its index is never out of range.
  pub group-IsGrouped :
      IsEquality addr_eq
      → (staged : List (Staged Addr S Cert)) → IfOk (group addr_eq staged) (IsGrouped staged)
  group-IsGrouped K staged =
      finish (group addr_eq staged) (group_onto-IsGrown K [] staged tt (unfold AreApart in tt))
    where
      all_pick :
          (host : Option Text) (ls : List (ListenerCfg Addr S Cert))
          → All IsListener ls
          → All (λ (l : ListenerCfg Addr S Cert). is_some (pick_state l.vhosts host) ≡ true) ls
      all_pick host [] h = tt
      all_pick host (l ∷ ls) (i, h) =
          (pick_state-is_some l.vhosts host i.served, all_pick host ls h)

      finish :
          (r : Grouping Addr (List (ListenerCfg Addr S Cert)))
          → IfOk r (λ ls. IsGrown [] ls staged)
          → IfOk r (IsGrouped staged)
      finish (ok ls) g = record {
        each = g.each;
        apart = g.apart;
        hosts = λ a. unfold hosts_at in g.grown a;
        picks = λ host. all_pick host ls g.each;
      }
      finish (err m) g = tt
