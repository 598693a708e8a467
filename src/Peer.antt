-- ===== src/Peer.antt =====
-- src/app.rs, `Peer` and `InflightGuard`: an upstream endpoint and its live health state.
-- The atomics are plain fields, since each method touches one at a time and is a step of its own.
-- A `Duration` is its milliseconds; the clock reading `now_ms()` is an argument.
pub mod Health
pub mod Guards
mod Tests
use elrond.Base.{
  ℕ, ◌+◌, ◌-◌, ◌%◌, ◌^◌, max, Bool, true, false, not, ◌&&◌, ◌||◌, List, [], ◌∷◌, leb, ◌==◌,
  if◌then◌else◌, Text,
}

pub record Peer : Type 0 where
  pub addr : Text
  pub weight : ℕ  -- u32
  pub max_fails : ℕ  -- u32
  pub fail_timeout : ℕ  -- milliseconds
  pub backup : Bool
  pub down : Bool
  pub in_flight : ℕ  -- u32
  pub consecutive_failures : ℕ  -- u32
  pub failed_until_ms : ℕ  -- u64

-- fixed-width arithmetic wraps, as the atomics do and as a release build does
abbrev pub u32 : ℕ → ℕ
u32 n = n % 2 ^ 32

abbrev pub u64 : ℕ → ℕ
u64 n = n % 2 ^ 64

unfoldable pub is_available : Peer → ℕ → Bool
is_available p now_ms =
    if p.down then false else p.failed_until_ms == 0 || leb p.failed_until_ms now_ms

unfoldable pub record_success : Peer → Peer
record_success p = record p { consecutive_failures = 0; failed_until_ms = 0 }

-- `now_ms` is the clock when the cooldown is set
unfoldable pub record_failure : ℕ → Peer → Peer
record_failure now_ms p =
    let n = u32 (p.consecutive_failures + 1) in
    let counted = record p { consecutive_failures = n } in
    if leb (max p.max_fails 1) n
    then record counted { failed_until_ms = u64 (now_ms + p.fail_timeout) }
    else counted

-- `enter` counts one more request in flight; dropping the guard that it returns takes it back
unfoldable pub enter : Peer → Peer
enter p = record p { in_flight = u32 (p.in_flight + 1) }

-- `fetch_sub` wraps below zero
unfoldable pub drop_guard : Peer → Peer
drop_guard p = record p { in_flight = u32 (p.in_flight + 2 ^ 32 - 1) }
