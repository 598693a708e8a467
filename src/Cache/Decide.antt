-- ===== src/Cache/Decide.antt =====
-- `decide_caching` of src/cache.rs, and the responses that it lets be stored.
use elrond.Base.{
  ℕ, ◌≤◌, ◌≡◌, Bool, false, not, ◌||◌, Option, none, some, List, [], ◌∷◌, map, ltb, ◌==◌,
  if◌then◌else◌, is_empty, retain, any, Text, codes, text_eq, trim, to_ascii_lowercase, split,
}
use elrond.Cache.{HeaderApi, max_entry_bytes, parse_vary}

pub data BypassReason : Type 0 where
  method_not_get has_set_cookie vary_star cache_control_disallows too_large no_rule : BypassReason

pub data CacheDecision : Type 0 where
  store_for : ℕ → CacheDecision
  bypass : BypassReason → CacheDecision

abbrev pub contains_status : List ℕ → ℕ → Bool
contains_status statuses status = any (λ c. c == status) statuses

-- the time of the last rule that matches: without statuses it matches them all
unfoldable pub ttl_from : Option ℕ → ℕ → List (List ℕ × ℕ) → Option ℕ
ttl_from ttl status [] = ttl
ttl_from ttl status ((statuses, d) ∷ rules) =
    ttl_from (if is_empty statuses || contains_status statuses status then some d else ttl) status
      rules

unfoldable pub disallows : Text → Bool
unfolding trim split text_eq
disallows cc =
    any
      (λ tok.
        text_eq tok (codes "no-store")
        || text_eq tok (codes "private")
        || text_eq tok (codes "no-cache"))
      (map trim (split b',' (to_ascii_lowercase cc)))

abbrev pub refuses : Option Text → Bool
refuses none = false
refuses (some cc) = disallows cc

module _ (H : HeaderApi) where
  unfoldable pub decide_caching : Text → H.Map → ℕ → ℕ → List (List ℕ × ℕ) → CacheDecision
  unfolding parse_vary ttl_from disallows text_eq
  decide_caching method headers status body_len valid_rules =
      if not (text_eq method (codes "GET"))
      then bypass method_not_get
      else if H.has (codes "set-cookie") headers
      then bypass has_set_cookie
      else if any (λ s. text_eq s (codes "*")) (parse_vary H headers)
      then bypass vary_star
      else if refuses (H.get_str (codes "cache-control") headers)
      then bypass cache_control_disallows
      else if ltb max_entry_bytes body_len
      then bypass too_large
      else elim (ttl_from none status valid_rules) [ none ↦ bypass no_rule | some d ↦ store_for d ]

-- the rules for a status
abbrev pub applying : ℕ → List (List ℕ × ℕ) → List (List ℕ × ℕ)
applying status rules = retain (λ r. is_empty r.0 || contains_status r.0 status) rules

abbrev pub last_of : Option ℕ → List (List ℕ × ℕ) → Option ℕ
last_of ttl [] = ttl
last_of ttl (r ∷ rs) = last_of (some r.1) rs

module _ (H : HeaderApi) where
  -- what a response has to be
  pub record IsStorable (method : Text) (headers : H.Map) (status body_len : ℕ)
      (rules : List (List ℕ × ℕ)) (d : ℕ) : Type 0 where
    pub is_get : method ≡ codes "GET"
    pub no_cookie : H.has (codes "set-cookie") headers ≡ false
    pub no_star : any (λ s. text_eq s (codes "*")) (parse_vary H headers) ≡ false
    pub allowed : refuses (H.get_str (codes "cache-control") headers) ≡ false
    pub fits : body_len ≤ 4194304
    pub ruled : last_of none (applying status rules) ≡ some d
