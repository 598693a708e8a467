-- ===== src/Limit/Conn.antt =====
-- `LimitConnZone` of src/limit.rs: the counters behind the mutex, and the guards that are alive. A
-- poisoned mutex and the metrics are left out.
pub mod Guards
mod Tests
use elrond.Base.{
  ℕ, ◌+◌, ◌-◌, Bool, true, false, not, ◌&&◌, Option, none, some, [], ◌∷◌, leb, ◌==◌, if◌then◌else◌,
  unwrap_or, length, Text, Dict, lookup, insert, remove, contains_key, count,
}

-- the fields that `try_acquire` uses
pub record Zone : Type 0 where
  pub max_entries : ℕ
  pub counts : Dict ℕ

-- `find` of an entry whose count is zero
unfoldable pub first_dead : Dict ℕ → Option Text
first_dead [] = none
first_dead ((k, v) ∷ m) = if v == 0 then some k else first_dead m

unfoldable pub evict : Text → Zone → Dict ℕ
unfolding first_dead
evict key z =
    if not (contains_key key z.counts) && leb z.max_entries (length z.counts)
    then elim (first_dead z.counts) [ none ↦ z.counts | some d ↦ remove d z.counts ]
    else z.counts

-- the zone afterwards, and whether it gives a guard
unfoldable pub try_acquire : Text → ℕ → Zone → Zone × Bool
unfolding evict
try_acquire key max_conn z =
    let room = evict key z in
    let count = unwrap_or (lookup key room) 0 in
    if leb max_conn count
    then (record z { counts = insert key count room }, false)
    else (record z { counts = insert key (count + 1) room }, true)

abbrev lowered : Text → Dict ℕ → Option ℕ → Dict ℕ
lowered key m none = m
lowered key m (some count) = insert key (count - 1) m

-- `drop` of a guard of the key
unfoldable pub drop_guard : Text → Zone → Zone
drop_guard key z = record z { counts = lowered key z.counts (lookup key z.counts) }
