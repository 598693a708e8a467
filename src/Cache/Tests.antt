-- ===== src/Cache/Tests.antt =====
-- A store of forty bytes, requests as lists of headers, and the theorems at them.
use elrond.Base.{
  ℕ, ◌≡◌, refl, true, none, some, List, [], ◌∷◌, arith, is_some, In, Text, codes, text_eq, Dict,
  lookup, insert, remove, contains_key,
}
use elrond.Cache.{
  State, HeaderApi, Entry, take_variant, sooner, soonest_of, soonest, evict, evict_until, store,
  put, build_signature, matching, get,
}
use elrond.Cache.Runs.{Use, asked, run, IsBounded, run-IsBounded}
use elrond.Cache.Lookup.{put-get, Answers, get-Answers}

abbrev by_name : HeaderApi
by_name = record {
  Map = Dict Text;
  has = λ name m. contains_key name m;
  get_str = λ name m. lookup name m;
  all_str = λ name m. elim (lookup name m) [ none ↦ [] | some v ↦ v ∷ [] ];
}

abbrev gzip : Dict Text
gzip = (codes "accept-encoding", codes "gzip") ∷ []

abbrev entry : ℕ → Entry
entry expires_at = record {
  status = 200;
  headers = [];
  body = 1 ∷ 2 ∷ 3 ∷ [];
  expires_at = expires_at;
  vary_headers = codes "accept-encoding" ∷ [];
  vary_signature = codes "accept-encoding=gzip\0";
}

abbrev empty_store : State
empty_store = record { entries = []; total_bytes = 0 }

-- 39 bytes each: the second put evicts the first
one_left :
    put 40 (codes "/b") (entry 70) (put 40 (codes "/a") (entry 60) empty_store)
    ≡ record { entries = (codes "/b", entry 70 ∷ []) ∷ []; total_bytes = 39 }
unfolding put store evict_until soonest soonest_of sooner evict take_variant lookup insert remove
    text_eq
one_left = refl

abbrev stored : State
stored = record { entries = (codes "/a", entry 60 ∷ []) ∷ []; total_bytes = 39 }

get-Answers_example :
    (vs : List Entry) × (lookup (codes "/a") stored.entries ≡ some vs)
    × In (entry 60) vs
    × Answers by_name 59 gzip (entry 60)
unfolding get matching build_signature lookup text_eq
get-Answers_example = get-Answers by_name 59 (codes "/a") gzip stored (entry 60) refl

put-get_example :
    is_some (get by_name 59 (codes "/a") gzip (put 40 (codes "/a") (entry 60) stored)).1 ≡ true
unfolding build_signature lookup text_eq
put-get_example =
    put-get by_name 40 59 (codes "/a") gzip (entry 60) stored (omega arith) (omega arith, refl)

abbrev stored_at : Text → Use by_name 40
stored_at key = Use.stored key (entry 60)

run-IsBounded_example : IsBounded by_name 40 (
    run by_name 40
      (stored_at (codes "/a") ∷ asked 60 (codes "/a") gzip ∷ stored_at (codes "/b") ∷ [])
      (record { entries = []; total_bytes = 0 }))
run-IsBounded_example =
    run-IsBounded by_name 40
      (stored_at (codes "/a") ∷ asked 60 (codes "/a") gzip ∷ stored_at (codes "/b") ∷ [])
