-- ===== src/Health/Probes.antt =====
-- Probes in any order, against the history of each peer: src/health.rs with `Peer` of src/app.rs.
use elrond.Base.{
  ℕ, zero, suc, ◌≡◌, refl, sym, subst, ap, ◌∙◌, inl, inr, Bool, true, false, Option, some, List, [],
  ◌∷◌, ◌++◌, arith, ◌==◌, if◌then◌else◌, ==_iff, Bool-cases, ◌>>=?◌, if-intro, get_elem?, Text,
  codes,
}
use elrond.Peer.{Peer, record_success, record_failure}
use elrond.Peer.Health.{Outcome, success, failure, History, record_outcome, replay}
use elrond.Config.Upstream.{HealthCheckCfg}
use elrond.Health.{
  Client, Exchange, bad_uri, failed, timed_out, answered, probe_url, probe_once, Ending, end_at,
  run_probes,
}

-- what an exchange says of the peer
abbrev pub verdict : HealthCheckCfg → ℕ → Exchange → Outcome
verdict cfg now (answered status) = if status == cfg.expected_status then success else failure now
verdict cfg now bad_uri = failure now
verdict cfg now failed = failure now
verdict cfg now timed_out = failure now

-- the outcomes for the peer at a place, whose probes go to this address; the latest first
unfoldable pub heard : HealthCheckCfg → Text → ℕ → History → List Ending → History
heard cfg url place h [] = h
heard cfg url place h (e ∷ endings) =
    heard cfg url place (if e.place == place then verdict cfg e.now_ms (e.client url) ∷ h else h)
      endings

probe_once-outcome :
    (client : Client) (now : ℕ) (cfg : HealthCheckCfg) (q : Peer)
    → probe_once client now cfg q ≡ record_outcome (verdict cfg now (client (probe_url q cfg))) q
unfolding probe_once
probe_once-outcome client now cfg q = by_exchange (client (probe_url q cfg))
  where
    by_exchange :
        (x : Exchange)
        → (elim x [
          | bad_uri ↦ record_failure now q
          | answered status ↦
              if status == cfg.expected_status then record_success q else record_failure now q
          | failed ↦ record_failure now q
          | timed_out ↦ record_failure now q
        ])
          ≡ record_outcome (verdict cfg now x) q
    by_exchange bad_uri = unfold record_outcome in refl
    by_exchange failed = unfold record_outcome in refl
    by_exchange timed_out = unfold record_outcome in refl
    by_exchange (answered status) =
        unfold record_outcome in by_status (status == cfg.expected_status)
      where
        by_status :
            (b : Bool)
            → (if b then record_success q else record_failure now q)
              ≡ record_outcome (if b then success else failure now) q
        by_status true = unfold record_outcome in refl
        by_status false = unfold record_outcome in refl

record_outcome-addr : (o : Outcome) (q : Peer) → (record_outcome o q).addr ≡ q.addr
unfolding record_outcome record_success record_failure
record_outcome-addr success q = refl
record_outcome-addr (failure now) q =
    if-intro (λ (r : Peer). r.addr ≡ q.addr) _ _ _ (λ _. refl) (λ _. refl)

replay-addr : (p : Peer) (h : History) → (replay p h).addr ≡ p.addr
unfolding replay
replay-addr p [] = refl
replay-addr p (o ∷ h) = record_outcome-addr o (replay p h) ∙ replay-addr p h

-- a probe that ends for a place changes the peer there, and no other
end_at-here :
    (cfg : HealthCheckCfg) (i : ℕ) (client : Client) (now : ℕ) (peers : List Peer) (q : Peer)
    → get_elem? peers i ≡ some q
    → get_elem? (end_at cfg i client now peers) i ≡ some (probe_once client now cfg q)
unfolding end_at
end_at-here cfg i client now [] q h = absurd cc
end_at-here cfg zero client now (p ∷ peers) q h =
    ap (λ (o : Option Peer). o >>=? λ x. some (probe_once client now cfg x)) h
end_at-here cfg (suc i) client now (p ∷ peers) q h = end_at-here cfg i client now peers q h

end_at-there :
    (cfg : HealthCheckCfg) (j i : ℕ) (client : Client) (now : ℕ) (peers : List Peer)
    → (j == i) ≡ false
    → get_elem? (end_at cfg j client now peers) i ≡ get_elem? peers i
unfolding end_at
end_at-there cfg j i client now [] n = refl
end_at-there cfg zero zero client now (p ∷ peers) n = absurd cc
end_at-there cfg zero (suc i) client now (p ∷ peers) n = refl
end_at-there cfg (suc j) zero client now (p ∷ peers) n = refl
end_at-there cfg (suc j) (suc i) client now (p ∷ peers) n =
    end_at-there cfg j i client now peers (ground (arith, n))

run_probes-from :
    (cfg : HealthCheckCfg) (i : ℕ) (p : Peer) (endings : List Ending) (h : History)
    (peers : List Peer)
    → get_elem? peers i ≡ some (replay p h)
    → get_elem? (run_probes cfg endings peers) i
      ≡ some (replay p (heard cfg (probe_url p cfg) i h endings))
unfolding run_probes heard
run_probes-from cfg i p [] h peers e = e
run_probes-from cfg i p (x ∷ endings) h peers e = elim (Bool-cases (x.place == i)) [
  | inl same ↦ rw same (
      run_probes-from cfg i p endings (verdict cfg x.now_ms (x.client (probe_url p cfg)) ∷ h) _ (
        subst
          (λ j.
            get_elem? (end_at cfg j x.client x.now_ms peers) i
            ≡ some (replay p (verdict cfg x.now_ms (x.client (probe_url p cfg)) ∷ h)))
          (sym ((==_iff _ _).0 same))
          (end_at-here cfg i x.client x.now_ms peers (replay p h) e
            ∙ ap some (
                probe_once-outcome x.client x.now_ms cfg (replay p h)
                ∙ ap
                    (λ a.
                      record_outcome
                        (verdict cfg x.now_ms (x.client (codes "http://" ++ a ++ cfg.uri)))
                        (replay p h))
                    (replay-addr p h)
                ∙ (unfold replay in refl)))))
  | inr other ↦ rw other (
      run_probes-from cfg i p endings h _
        (end_at-there cfg x.place i x.client x.now_ms peers other ∙ e))
]

-- In whatever order the probes end, the peer at a place is what the record of its own outcomes makes
-- of it (`replay`, in the order in which they ended): the probes of the other peers do not touch it,
-- and an outcome is a success exactly when the answer has the expected status. So active checks and
-- requests share one record of health.
pub run_probes-replay :
    (cfg : HealthCheckCfg) (i : ℕ) (p : Peer) (endings : List Ending) (peers : List Peer)
    → get_elem? peers i ≡ some p
    → get_elem? (run_probes cfg endings peers) i
      ≡ some (replay p (heard cfg (probe_url p cfg) i [] endings))
run_probes-replay cfg i p endings peers e =
    run_probes-from cfg i p endings [] peers (unfold replay in e)
