-- ===== src/Tests/Caches.antt =====
-- internal/platform/gateway_cache.go at concrete states.
use k8s_panel.Base.{ℕ, ◌+◌, ◌≡◌, refl, true, false, none, some, List, [], ◌∷◌, arith, text_dec}
use k8s_panel.Domain.{err, invalid_state}
use k8s_panel.Governor.{pressure_critical}
use k8s_panel.Cache.{begin_build, Cache, Entry, new_gateway_cache, get_start, get_finish, gateways}
use k8s_panel.Cache.Bounds.{Call, starts, finishes, invalidates, reconciles, run, IsBounded}
use k8s_panel.Base.Maps.{lookup}
use k8s_panel.Cache.Stale.{invalidations}
use k8s_panel.Cache.Gateways.{drop_step, count, reconciles}
use k8s_panel.Cache.Bounds
use k8s_panel.Cache.Gateways
use k8s_panel.Cache.Stale

abbrev pub entry : ℕ → ℕ → Entry
entry gateway last_used = record { fingerprint = 70 ∷ []; gateway = gateway; last_used = last_used }

abbrev pub cache : Cache
cache = record {
  entries = (1 ∷ [], entry 11 5) ∷ (2 ∷ [], entry 12 4) ∷ [];
  builds = [];
  generations = λ k. 0;
  maximum = 2;
  capacity = 2;
  ttl = 60_000_000_000;
  closed = false;
}

-- The credentials of the second cluster changed, so that a build begins; then it is invalidated.
stale_build_example :
    let c' = run (Bounds.invalidates (2 ∷ []) ∷ []) (get_start 6 (2 ∷ []) (71 ∷ []) cache).0 in
    let r = get_finish 8 (2 ∷ []) (71 ∷ []) 0 (some 13) none c' in
    (r.0.entries ≡ c'.entries) × (r.1 ≡ 13 ∷ []) × (r.2 ≡ err invalid_state)
unfolding get_start begin_build lookup text_dec invalidations
stale_build_example =
    Stale.stale_build (2 ∷ []) 6 (71 ∷ []) cache 0 (Bounds.invalidates (2 ∷ []) ∷ []) 8 13
      (ground arith) refl (ground arith) (ground arith)

abbrev new_cache : Cache
new_cache = record {
  entries = [];
  builds = [];
  generations = λ k. 0;
  maximum = 1;
  capacity = 1;
  ttl = 60_000_000_000;
  closed = false;
}

abbrev calls : List Call
calls =
    starts 1 (1 ∷ []) (70 ∷ [])
    ∷ finishes 2 (1 ∷ []) (70 ∷ []) 0 (some 11) none
    ∷ starts 3 (2 ∷ []) (70 ∷ [])
    ∷ finishes 4 (2 ∷ []) (70 ∷ []) 0 (some 12) none
    ∷ []

run-new-IsBounded_example : IsBounded (run calls new_cache)
unfolding new_gateway_cache
run-new-IsBounded_example = Bounds.run-new-IsBounded 1 60_000_000_000 calls {c = new_cache} refl

-- Under critical pressure one entry stays, the one that was used last.
drop_step-count_example :
    count 12 (gateways (drop_step (Gateways.reconciles 7 true pressure_critical) cache).0.entries)
      + count 12 (drop_step (Gateways.reconciles 7 true pressure_critical) cache).1
    ≡ 1
unfolding count gateways
drop_step-count_example =
    Gateways.drop_step-count 12 (Gateways.reconciles 7 true pressure_critical) cache
