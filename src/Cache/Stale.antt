-- ===== src/Cache/Stale.antt =====
-- internal/platform/gateway_cache.go: a build, and an invalidation of its cluster in between.
use k8s_panel.Base.{
  ℕ, ◌+◌, ◌%◌, ◌^◌, ◌<◌, ◌≡◌, refl, Option, none, some, List, [], ◌∷◌, arith, if◌then◌else◌, Text,
  same,
}
use k8s_panel.Domain.{invalid_state, Failure, err}
use k8s_panel.Cache.{
  builds_at, begin_build, Cache, get_start, get_finish, invalidate, reconcile, close,
}
use k8s_panel.Cache.Bounds.{Call, starts, finishes, invalidates, reconciles, closes, step, run}

-- How often a run invalidates a cluster.
unfoldable pub invalidations : Text → List Call → ℕ
invalidations id [] = 0
invalidations id (invalidates k ∷ ss) = (if same k id then 1 else 0) + invalidations id ss
invalidations id (starts now k fingerprint ∷ ss) = invalidations id ss
invalidations id (finishes now k fingerprint generation gateway failure ∷ ss) = invalidations id ss
invalidations id (reconciles now adaptive pressure ∷ ss) = invalidations id ss
invalidations id (closes ∷ ss) = invalidations id ss

module _ (id : Text) where
  generation-start :
      (now : ℕ) (k fingerprint : Text) (c : Cache)
      → (get_start now k fingerprint c).0.generations id ≡ c.generations id
  unfolding get_start
  generation-start now k fingerprint c = ground arith

  generation-finish :
      (now : ℕ) (k fingerprint : Text) (n : ℕ) (gateway : Option ℕ) (failure : Failure) (c : Cache)
      → (get_finish now k fingerprint n gateway failure c).0.generations id ≡ c.generations id
  unfolding get_finish
  generation-finish now k fingerprint n gateway (some e) c = refl
  generation-finish now k fingerprint n none none c = refl
  generation-finish now k fingerprint n (some g) none c = ground arith

  generation-run :
      (ss : List Call) (c : Cache)
      → c.generations id < 2 ^ 64
      → (run ss c).generations id ≡ (c.generations id + invalidations id ss) % 2 ^ 64
  unfolding run step invalidations reconcile close invalidate
  generation-run [] c b = ground arith
  generation-run (starts now k fingerprint ∷ ss) c b = ground (
    arith,
    generation-start now k fingerprint c,
    generation-run ss (get_start now k fingerprint c).0,
  )
  generation-run (finishes now k fingerprint n gateway failure ∷ ss) c b = ground (
    arith,
    generation-finish now k fingerprint n gateway failure c,
    generation-run ss (get_finish now k fingerprint n gateway failure c).0,
  )
  generation-run (invalidates k ∷ ss) c b = ground (arith, generation-run ss (invalidate k c).0)
  generation-run (reconciles now adaptive pressure ∷ ss) c b =
      ground (arith, generation-run ss (reconcile now adaptive pressure c).0)
  generation-run (closes ∷ ss) c b = ground (arith, generation-run ss (close c).0)

  begin_build-generation :
      (fingerprint : Text) (c : Cache) {n : ℕ}
      → (begin_build id fingerprint c).1 ≡ builds_at n
      → n ≡ c.generations id
  unfolding begin_build
  begin_build-generation fingerprint c h = ground arith

  get_start-generation :
      (now : ℕ) (fingerprint : Text) (c : Cache) {n : ℕ}
      → (get_start now id fingerprint c).2 ≡ builds_at n
      → n ≡ c.generations id
  unfolding get_start
  get_start-generation now fingerprint c h = ground arith

  -- A build that `Get` began before the cluster was invalidated, any number of times below 2^64
  -- and between any other steps of the cache, the generation of the cluster being below 2^64,
  -- fails as an invalid state when it ends with a gateway: the gateway is retired and the cache
  -- keeps the entries that it has.
  pub stale_build :
      (now : ℕ) (fingerprint : Text) (c : Cache) (n : ℕ) (ss : List Call) (later g : ℕ)
      → c.generations id < 2 ^ 64
      → (get_start now id fingerprint c).2 ≡ builds_at n
      → 0 < invalidations id ss
      → invalidations id ss < 2 ^ 64
      → let c' = run ss (get_start now id fingerprint c).0 in
        let r = get_finish later id fingerprint n (some g) none c' in
        (r.0.entries ≡ c'.entries) × (r.1 ≡ g ∷ []) × (r.2 ≡ err invalid_state)
  unfolding get_finish
  stale_build now fingerprint c n ss later g b s i j = ground (
    arith,
    get_start-generation now fingerprint c s,
    generation-start now id fingerprint c,
    generation-run ss (get_start now id fingerprint c).0,
  )
