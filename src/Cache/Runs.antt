-- ===== src/Cache/Runs.antt =====
-- A cache of src/cache.rs over the requests of its life.
use elrond.Base.{ℕ, ◌≤◌, refl, Option, List, [], ◌∷◌, arith, option-intro, Text, lookup}
use elrond.Cache.{Entry, State, HeaderApi, get, put, Entry}
use elrond.Cache.Evict.{IsStore}
use elrond.Cache.Bounds.{put-IsStore}
use elrond.Cache.Lookup.{get-IsStore}

module _ (H : HeaderApi) (max_bytes : ℕ) where
  -- a key is asked for at a time, or an entry is stored
  pub data Use : Type 0 where
    asked : ℕ → Text → H.Map → Use
    stored : Text → Entry → Use

  unfoldable pub use_once : Use → State → State
  unfolding get put
  use_once (asked now key req) s = (get H now key req s).0
  use_once (stored key entry) s = put max_bytes key entry s

  unfoldable pub run : List Use → State → State
  run [] s = s
  run (u ∷ us) s = run us (use_once u s)

  -- Bytes counted right, and within the cap.
  abbrev pub IsBounded : State → Type 0
  IsBounded s = IsStore s × (s.total_bytes ≤ max_bytes)

  get-total_bytes :
      (now : ℕ) (key : Text) (req : H.Map) (s : State)
      → (get H now key req s).0.total_bytes ≤ s.total_bytes
  unfolding get
  get-total_bytes now key req s =
      option-intro (λ (r : State × Option Entry). r.0.total_bytes ≤ s.total_bytes)
        (lookup key s.entries) _ _ (λ _. omega arith) (λ vs _. omega arith)

  use_once-IsBounded : (u : Use) (s : State) → IsBounded s → IsBounded (use_once u s)
  unfolding use_once
  use_once-IsBounded (asked now key req) s (h, le) =
      (get-IsStore H now key req s h, omega (arith, get-total_bytes now key req s))
  use_once-IsBounded (stored key entry) s (h, le) = put-IsStore max_bytes key entry s h le

  run-from-IsBounded : (us : List Use) (s : State) → IsBounded s → IsBounded (run us s)
  unfolding run
  run-from-IsBounded [] s h = h
  run-from-IsBounded (u ∷ us) s h = run-from-IsBounded us _ (use_once-IsBounded u s h)

  -- Whatever is asked and stored, in any order, from an empty cache: it holds each key once, its
  -- counter is the sum of the bytes of the entries that it holds, and it never exceeds its cap.
  pub run-IsBounded :
      (us : List Use) → IsBounded (run us (record { entries = []; total_bytes = 0 }))
  run-IsBounded us = run-from-IsBounded us _ ((tt, refl), omega arith)
