-- ===== src/Health.antt =====
-- src/health.rs: the probes of an upstream's peers. Hyper's client and the timer are arguments: what
-- a probe meets is an `Exchange`, and which of the spawned probes ends next is a list of endings.
pub mod Probes
mod Tests
use elrond.Base.{ℕ, zero, suc, ◌+◌, List, [], ◌∷◌, ◌++◌, ◌==◌, if◌then◌else◌, Text, codes}
use elrond.Peer.{Peer, record_success, record_failure}
use elrond.Config.Upstream.{HealthCheckCfg}

-- how the exchange of a probe ends
pub data Exchange : Type 0 where
  bad_uri failed timed_out : Exchange
  answered : ℕ → Exchange

abbrev pub probe_url : Peer → HealthCheckCfg → Text
probe_url peer cfg = codes "http://" ++ peer.addr ++ cfg.uri

-- `client.request` under the timeout
abbrev pub Client : Type 0
Client = Text → Exchange

-- `probe_once`, of which `record_failure` reads the clock
unfoldable pub probe_once : Client → ℕ → HealthCheckCfg → Peer → Peer
unfolding record_success record_failure
probe_once client now_ms cfg peer = elim (client (probe_url peer cfg)) [
  | bad_uri ↦ record_failure now_ms peer
  | answered status ↦
      if status == cfg.expected_status then record_success peer else record_failure now_ms peer
  | failed ↦ record_failure now_ms peer
  | timed_out ↦ record_failure now_ms peer
]

-- A probe that ends: the place of its peer, the client that it met, and the clock.
pub record Ending : Type 0 where
  pub place : ℕ
  pub client : Client
  pub now_ms : ℕ

-- the effect of a probe on the peers that it shares with the balancer
unfoldable pub end_at : HealthCheckCfg → ℕ → Client → ℕ → List Peer → List Peer
end_at cfg place client now_ms [] = []
end_at cfg zero client now_ms (p ∷ peers) = probe_once client now_ms cfg p ∷ peers
end_at cfg (suc place) client now_ms (p ∷ peers) = p ∷ end_at cfg place client now_ms peers

-- the places that one tick spawns a probe for
unfoldable pub spawned : ℕ → List Peer → List ℕ
spawned place [] = []
spawned place (p ∷ peers) =
    if p.down then spawned (place + 1) peers else place ∷ spawned (place + 1) peers

-- the probes end one by one, in the order of the list
unfoldable pub run_probes : HealthCheckCfg → List Ending → List Peer → List Peer
run_probes cfg [] peers = peers
run_probes cfg (e ∷ endings) peers =
    run_probes cfg endings (end_at cfg e.place e.client e.now_ms peers)
