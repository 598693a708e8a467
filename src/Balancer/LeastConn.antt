-- ===== src/Balancer/LeastConn.antt =====
-- Least connections: the pick has the least score, and stands before all others that have it.
use elrond.Base.{◌≤◌, ◌<◌, ◌≡◌, ◌⊎◌, List, [], ◌∷◌, All}
use elrond.Balancer.{Slot, score}

abbrev pub IsFirstLeast : Slot → List Slot → Type 0
IsFirstLeast m [] = ⊥
IsFirstLeast m (x ∷ pool) =
    ((m ≡ x) × All (λ y. score m ≤ score y) pool) ⊎ ((score m < score x) × IsFirstLeast m pool)
