-- ===== src/Cache/Bounds.antt =====
-- internal/platform/gateway_cache.go: the size and the capacity of the cache.
use k8s_panel.Base.{
  ℕ, zero, suc, ◌+◌, ◌≤◌, ◌≡◌, refl, ◌⊎◌, inl, inr, Bool, true, false, Option, none, some, List, [],
  ◌∷◌, arith, if◌then◌else◌, Option-cases, length, Text,
}
use k8s_panel.Base.Maps.{
  lookup, store, Occurs, Occurs-here, Occurs-later, length-delete-le, length-delete, length-store,
}
use k8s_panel.Domain.{Failure, ok}
use k8s_panel.Governor.{Pressure}
use k8s_panel.Cache.{
  Entry, Entries, Cache, maximum_cache_size, expire, precedes, oldest_from, evict_one, evict_loop,
  evict, take_entry, get_start, get_finish, invalidate, reconcile, close, adaptive_capacity,
  new_gateway_cache,
}

length-expire-le : (now ttl : ℕ) (es : Entries) → length (expire now ttl es).0 ≤ length es
unfolding expire
length-expire-le now ttl [] = omega arith
length-expire-le now ttl ((k, e) ∷ es) = ground (arith, length-expire-le now ttl es)

length-take_entry-le : (k : Text) (es : Entries) → length (take_entry k es).0 ≤ length es
unfolding take_entry
length-take_entry-le k es = ground (arith, length-delete-le k es)

length-take_entry :
    (k : Text) (es : Entries) → Occurs k es → length (take_entry k es).0 + 1 ≡ length es
unfolding take_entry
length-take_entry k es h = ground (arith, length-delete k es)

oldest_from-Occurs :
    (k : Text) (e : Entry) (es : Entries)
    → ((oldest_from k e es).0 ≡ k) ⊎ Occurs (oldest_from k e es).0 es
unfolding oldest_from
oldest_from-Occurs k e [] = inl refl
oldest_from-Occurs k e ((j, f) ∷ es) =
    pick (precedes j f k e) (oldest_from-Occurs j f es) (oldest_from-Occurs k e es)
  where
    pick :
        (b : Bool)
        → ((oldest_from j f es).0 ≡ j) ⊎ Occurs (oldest_from j f es).0 es
        → ((oldest_from k e es).0 ≡ k) ⊎ Occurs (oldest_from k e es).0 es
        → ((oldest_from (if b then j else k) (if b then f else e) es).0 ≡ k)
          ⊎ Occurs (oldest_from (if b then j else k) (if b then f else e) es).0 ((j, f) ∷ es)
    pick true (inl p) _ = inr (rw p (Occurs-here j f es))
    pick true (inr p) _ = inr (Occurs-later _ j f es p)
    pick false _ (inl p) = inl p
    pick false _ (inr p) = inr (Occurs-later _ j f es p)

length-evict_one :
    (k : Text) (e : Entry) (es : Entries) → length (evict_one ((k, e) ∷ es)).0 ≡ length es
unfolding evict_one
length-evict_one k e es =
    let h : Occurs (oldest_from k e es).0 ((k, e) ∷ es) = elim (oldest_from-Occurs k e es) [
      | inl p ↦ rw p (Occurs-here k e es)
      | inr p ↦ Occurs-later _ k e es p
    ] in
    omega (arith, length-take_entry (oldest_from k e es).0 ((k, e) ∷ es) h)

-- The rounds are enough: as many as the entries over the capacity.
length-evict_loop-le :
    (n capacity : ℕ) (es : Entries) → length es ≤ n → length (evict_loop n capacity es).0 ≤ capacity
unfolding evict_loop
length-evict_loop-le zero capacity es h = omega arith
length-evict_loop-le (suc n) capacity [] h = ground arith
length-evict_loop-le (suc n) capacity ((k, e) ∷ es) h =
    ground
      (arith, length-evict_one k e es, length-evict_loop-le n capacity (evict_one ((k, e) ∷ es)).0)

length-evict-le : (capacity : ℕ) (es : Entries) → length (evict capacity es).0 ≤ capacity
unfolding evict
length-evict-le capacity es = length-evict_loop-le (length es) capacity es (omega arith)

pub record IsBounded (c : Cache) : Type 0 where
  pub fits : length c.entries ≤ c.capacity
  pub positive : 1 ≤ c.capacity
  pub within : c.capacity ≤ c.maximum
  pub small : c.maximum ≤ maximum_cache_size

-- A step of one of the calls on the cache.
pub data Call : Type 0 where
  starts : ℕ → Text → Text → Call
  finishes : ℕ → Text → Text → ℕ → Option ℕ → Failure → Call
  invalidates : Text → Call
  reconciles : ℕ → Bool → Pressure → Call
  closes : Call

unfoldable pub step : Call → Cache → Cache
step (starts now id fingerprint) c = (get_start now id fingerprint c).0
step (finishes now id fingerprint generation gateway failure) c =
    (get_finish now id fingerprint generation gateway failure c).0
step (invalidates id) c = (invalidate id c).0
step (reconciles now adaptive pressure) c = (reconcile now adaptive pressure c).0
step closes c = (close c).0

unfoldable pub run : List Call → Cache → Cache
run [] c = c
run (s ∷ ss) c = run ss (step s c)

get_start-IsBounded :
    (now : ℕ) (id fingerprint : Text) (c : Cache)
    → IsBounded c
    → IsBounded (get_start now id fingerprint c).0
unfolding get_start
get_start-IsBounded now id fingerprint c v =
    let kept = (expire now c.ttl c.entries).0 in
    elim (Option-cases (lookup id kept)) [
      | inl p ↦ ground (arith, length-expire-le now c.ttl c.entries)
      | inr (x, p) ↦ ground (
        arith,
        length-expire-le now c.ttl c.entries,
        length-delete-le id kept,
        length-store id (record x { last_used = now }) kept,
      )
    ]

get_finish-IsBounded :
    (now : ℕ) (id fingerprint : Text) (generation : ℕ) (gateway : Option ℕ) (failure : Failure)
    (c : Cache)
    → IsBounded c
    → IsBounded (get_finish now id fingerprint generation gateway failure c).0
unfolding get_finish
get_finish-IsBounded now id fingerprint generation gateway (some e) c v = ground arith
get_finish-IsBounded now id fingerprint generation none none c v = ground arith
get_finish-IsBounded now id fingerprint generation (some g) none c v = ground (
  arith,
  length-evict-le c.capacity (
      store id (record { fingerprint = fingerprint; gateway = g; last_used = now })
        (take_entry id c.entries).0),
)

adaptive_capacity_bounds :
    (maximum : ℕ) (adaptive : Bool) (pressure : Pressure)
    → 1 ≤ maximum
    → (1 ≤ adaptive_capacity maximum adaptive pressure)
      × (adaptive_capacity maximum adaptive pressure ≤ maximum)
unfolding adaptive_capacity
adaptive_capacity_bounds maximum adaptive pressure h = ground arith

reconcile-IsBounded :
    (now : ℕ) (adaptive : Bool) (pressure : Pressure) (c : Cache)
    → IsBounded c
    → IsBounded (reconcile now adaptive pressure c).0
unfolding reconcile
reconcile-IsBounded now adaptive pressure c v = ground (
  arith,
  adaptive_capacity_bounds c.maximum adaptive pressure,
  length-evict-le (adaptive_capacity c.maximum adaptive pressure) (expire now c.ttl c.entries).0,
)

step-IsBounded : (s : Call) (c : Cache) → IsBounded c → IsBounded (step s c)
unfolding step invalidate close
step-IsBounded (starts now id fingerprint) c v = get_start-IsBounded now id fingerprint c v
step-IsBounded (finishes now id fingerprint generation gateway failure) c v =
    get_finish-IsBounded now id fingerprint generation gateway failure c v
step-IsBounded (invalidates id) c v = ground (arith, length-take_entry-le id c.entries)
step-IsBounded (reconciles now adaptive pressure) c v =
    reconcile-IsBounded now adaptive pressure c v
step-IsBounded closes c v = ground arith

run-IsBounded : (ss : List Call) (c : Cache) → IsBounded c → IsBounded (run ss c)
unfolding run
run-IsBounded [] c v = v
run-IsBounded (s ∷ ss) c v = run-IsBounded ss (step s c) (step-IsBounded s c v)

-- From a new cache on, after any interleaving of the steps of its calls, it holds no more entries than
-- its capacity of the moment, which lies between 1 and its maximum, and that is at most 64.
pub run-new-IsBounded :
    (maximum ttl : ℕ) (ss : List Call) {c : Cache}
    → new_gateway_cache maximum ttl ≡ ok c
    → IsBounded (run ss c)
unfolding new_gateway_cache
run-new-IsBounded maximum ttl ss {c} e = run-IsBounded ss c (ground arith)
