-- ===== src/Router/Listeners.antt =====
-- The listeners that `build` of src/app.rs makes of the server blocks: one for each address.
pub mod Grouped
pub mod Whole
mod Tests
use elrond.Base.{
  Result, ok, err, Bool, not, ◌&&◌, Option, none, some, List, [], ◌∷◌, ◌++◌, if◌then◌else◌, is_none,
  is_empty, ◌>>=◌,
}
use elrond.Config.Location.Build.{same}
use elrond.Router.Host.{VirtualHost}

-- an entry of `staged`: a server block, lowered
pub record Staged (Addr S Cert : Type 0) : Type 0 where
  pub addr : Addr
  pub vhost : VirtualHost S
  pub cert : Option Cert

-- `tls` and `h3_tls`, which rustls makes of `tls_paths`, are left out.
pub record ListenerCfg (Addr S Cert : Type 0) : Type 0 where
  pub addr : Addr
  pub vhosts : List (VirtualHost S)
  pub tls_paths : List Cert

-- the one message, with its address
pub data GroupError (Addr : Type 0) : Type 0 where
  mixed_tls : Addr → GroupError Addr

abbrev pub Grouping : Type 0 → Type 0 → Type 0
Grouping Addr A = Result (GroupError Addr) A

abbrev pub pushed : {Cert : Type 0} → List Cert → Option Cert → List Cert
pushed paths none = paths
pushed paths (some c) = paths ++ c ∷ []

module _ {Addr S Cert : Type 0} where
  abbrev pub empty_listener : Addr → ListenerCfg Addr S Cert
  empty_listener a = record { addr = a; vhosts = []; tls_paths = [] }

  -- a block onto the listener of its address
  unfoldable pub add_vhost :
      ListenerCfg Addr S Cert
      → VirtualHost S
      → Option Cert
      → Grouping Addr (ListenerCfg Addr S Cert)
  add_vhost entry vhost cert =
      if not (is_empty entry.vhosts) && not (same (is_empty entry.tls_paths) (is_none cert))
      then err (mixed_tls entry.addr)
      else ok (record entry {
        tls_paths = pushed entry.tls_paths cert;
        vhosts = entry.vhosts ++ vhost ∷ [];
      })

module _ {Addr S Cert : Type 0} (addr_eq : Addr → Addr → Bool) where
  -- `listener_map` in the order of `order`: the entry of the address, or a new one at the end
  unfoldable pub stage :
      List (ListenerCfg Addr S Cert)
      → Staged Addr S Cert
      → Grouping Addr (List (ListenerCfg Addr S Cert))
  stage [] s = add_vhost (empty_listener s.addr) s.vhost s.cert >>= λ l. ok (l ∷ [])
  stage (l ∷ ls) s =
      let later = stage ls s >>= λ ls'. ok (l ∷ ls') in
      if addr_eq l.addr s.addr then (add_vhost l s.vhost s.cert >>= λ l'. ok (l' ∷ ls)) else later

  -- the loop over `staged`
  unfoldable pub group_onto :
      List (ListenerCfg Addr S Cert)
      → List (Staged Addr S Cert)
      → Grouping Addr (List (ListenerCfg Addr S Cert))
  group_onto ls [] = ok ls
  group_onto ls (s ∷ staged) = stage ls s >>= λ ls'. group_onto ls' staged

  abbrev pub group : List (Staged Addr S Cert) → Grouping Addr (List (ListenerCfg Addr S Cert))
  group staged = group_onto [] staged
