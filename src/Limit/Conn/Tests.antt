-- ===== src/Limit/Conn/Tests.antt =====
-- One key that may hold two connections, and the theorems at it.
use elrond.Base.{◌≡◌, refl, false, [], arith, Text, codes, text_eq, lookup, insert}
use elrond.Limit.Conn.{first_dead, evict, try_acquire, drop_guard}
use elrond.Limit.Conn.Guards.{World, held, IsCounted, Reach-IsCounted, admitted, ended, here, next}

abbrev idle : World
idle = record { zone = record { max_entries = 2; counts = [] }; guards = [] }

abbrev alice : Text
alice = codes "alice"

-- the third is denied
third_denied :
    (try_acquire alice 2 (try_acquire alice 2 (try_acquire alice 2 idle.zone).0).0).1 ≡ false
unfolding try_acquire evict first_dead lookup insert text_eq
third_denied = refl

Reach-IsCounted_example :
    IsCounted
      (λ _. 2)
      (record { zone = drop_guard alice (try_acquire alice 2 idle.zone).0; guards = [] })
unfolding try_acquire evict first_dead lookup insert text_eq held
Reach-IsCounted_example =
    Reach-IsCounted (λ _. 2) {u = idle}
      (next (next here (admitted alice idle refl))
        (ended alice [] [] (try_acquire alice 2 idle.zone).0))
      (tt, λ k. (refl, omega arith))
