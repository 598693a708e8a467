-- ===== src/Peer/Tests.antt =====
-- The health record of one peer, and the theorem at it.
use elrond.Base.{◌≡◌, refl, true, false, not, ◌&&◌, [], ◌∷◌, arith, codes}
use elrond.Peer.{Peer, is_available}
use elrond.Peer.Health.{
  success, failure, History, replay, record_outcome, barred, is_available-replay,
}

abbrev peer : Peer
peer = record {
  addr = codes "127.0.0.1:3000";
  weight = 1;
  max_fails = 2;
  fail_timeout = 10000;
  backup = false;
  down = false;
  in_flight = 0;
  consecutive_failures = 0;
  failed_until_ms = 0;
}

-- two failures after a success, the latest at 900
abbrev history : History
history = failure 900 ∷ failure 500 ∷ success ∷ failure 100 ∷ []

out_until_cooled :
    (is_available (replay peer history) 10899 ≡ false)
    × (is_available (replay peer history) 10900 ≡ true)
unfolding replay record_outcome is_available
out_until_cooled = (refl, refl)

is_available-replay_example :
    is_available (replay peer history) 10899 ≡ not peer.down && not (barred peer history 10899)
is_available-replay_example =
    is_available-replay peer history 10899 (record { no_failures = refl; no_cooldown = refl })
      (omega arith) (omega arith)
