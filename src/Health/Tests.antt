-- ===== src/Health/Tests.antt =====
-- Two peers of which one is down, their probes, and the theorem at the first.
use elrond.Base.{◌≡◌, refl, Bool, true, false, some, List, [], ◌∷◌, get_elem?, Text, codes}
use elrond.Config.Upstream.{default_check}
use elrond.Peer.{Peer}
use elrond.Peer.Health.{replay}
use elrond.Health.{answered, timed_out, Ending, probe_url, spawned, run_probes}
use elrond.Health.Probes.{heard, run_probes-replay}

abbrev peer : Text → Bool → Peer
peer a out = record {
  addr = a;
  weight = 1;
  max_fails = 1;
  fail_timeout = 10000;
  backup = false;
  down = out;
  in_flight = 0;
  consecutive_failures = 0;
  failed_until_ms = 0;
}

abbrev peers : List Peer
peers = peer (codes "a:80") false ∷ peer (codes "b:80") true ∷ peer (codes "c:80") false ∷ []

-- a tick passes over the one that is down
tick_spawned : spawned 0 peers ≡ 0 ∷ 2 ∷ []
unfolding spawned
tick_spawned = refl

abbrev endings : List Ending
endings =
    record { place = 2; client = λ _. timed_out; now_ms = 100 }
    ∷ record { place = 0; client = λ _. answered 500; now_ms = 120 }
    ∷ record { place = 0; client = λ _. answered 200; now_ms = 5120 }
    ∷ []

run_probes-replay_example :
    get_elem? (run_probes default_check endings peers) 0
    ≡ some (
        replay
          (peer (codes "a:80") false)
          (heard default_check (probe_url (peer (codes "a:80") false) default_check) 0 [] endings))
run_probes-replay_example =
    run_probes-replay default_check 0 (peer (codes "a:80") false) endings peers refl
