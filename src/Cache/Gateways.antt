-- ===== src/Cache/Gateways.antt =====
-- internal/platform/gateway_cache.go: where the gateways go that the cache held.
use k8s_panel.Base.{
  ℕ, zero, suc, ◌+◌, ◌≡◌, refl, inl, inr, Bool, some, List, [], ◌∷◌, ◌++◌, arith, ◌==◌,
  if◌then◌else◌, Option-cases, length, Text,
}
use k8s_panel.Base.Maps.{lookup, delete}
use k8s_panel.Governor.{Pressure}
use k8s_panel.Cache.{
  adaptive_capacity, Entry, Entries, Cache, expire, oldest_from, evict_one, evict_loop, evict,
  take_entry, invalidate, reconcile, close, gateways,
}

-- How often a gateway occurs.
unfoldable pub count : ℕ → List ℕ → ℕ
count g [] = 0
count g (h ∷ hs) = (if h == g then 1 else 0) + count g hs

count-append : (g : ℕ) (xs ys : List ℕ) → count g (xs ++ ys) ≡ count g xs + count g ys
unfolding count
count-append g [] ys = omega arith
count-append g (x ∷ xs) ys = omega (arith, count-append g xs ys)

module _ (g : ℕ) where
  expire-count :
      (now ttl : ℕ) (es : Entries)
      → count g (gateways (expire now ttl es).0) + count g (expire now ttl es).1
        ≡ count g (gateways es)
  unfolding expire gateways count
  expire-count now ttl [] = refl
  expire-count now ttl ((k, e) ∷ es) = ground (arith, expire-count now ttl es)

  delete-count :
      (k : Text) (es : Entries) (e : Entry)
      → lookup k es ≡ some e
      → count g (gateways (delete k es)) + count g (e.gateway ∷ []) ≡ count g (gateways es)
  unfolding lookup delete gateways count
  delete-count k [] e h = cc
  delete-count k ((j, f) ∷ es) e h = ground (arith, delete-count k es e)

  take_entry-count :
      (k : Text) (es : Entries)
      → count g (gateways (take_entry k es).0) + count g (take_entry k es).1 ≡ count g (gateways es)
  unfolding take_entry count
  take_entry-count k es = elim (Option-cases (lookup k es)) [
    | inl e ↦ rw (e, take_entry) (omega arith)
    | inr (x, e) ↦ rw (e, take_entry) (delete-count k es x e)
  ]

  evict_one-count :
      (es : Entries)
      → count g (gateways (evict_one es).0) + count g (evict_one es).1 ≡ count g (gateways es)
  unfolding evict_one count gateways
  evict_one-count [] = refl
  evict_one-count ((k, e) ∷ es) = take_entry-count (oldest_from k e es).0 ((k, e) ∷ es)

  evict_loop-count :
      (n capacity : ℕ) (es : Entries)
      → count g (gateways (evict_loop n capacity es).0) + count g (evict_loop n capacity es).1
        ≡ count g (gateways es)
  unfolding evict_loop count
  evict_loop-count zero capacity es = omega arith
  evict_loop-count (suc n) capacity es = ground (
    arith,
    evict_one-count es,
    evict_loop-count n capacity (evict_one es).0,
    count-append g (evict_one es).1 (evict_loop n capacity (evict_one es).0).1,
  )

  evict-count :
      (capacity : ℕ) (es : Entries)
      → count g (gateways (evict capacity es).0) + count g (evict capacity es).1
        ≡ count g (gateways es)
  unfolding evict
  evict-count capacity es = evict_loop-count (length es) capacity es

-- The calls that drop gateways.
pub data Drop : Type 0 where
  invalidates : Text → Drop
  reconciles : ℕ → Bool → Pressure → Drop
  closes : Drop

unfoldable pub drop_step : Drop → Cache → Cache × List ℕ
drop_step (invalidates id) c = invalidate id c
drop_step (reconciles now adaptive pressure) c = reconcile now adaptive pressure c
drop_step closes c = close c

-- An invalidation, a reconciliation and a closing lose no gateway and make none up: each gateway of
-- the cache stays in it or is handed to the caller to be closed, as often as it was there.
pub drop_step-count :
    (g : ℕ) (d : Drop) (c : Cache)
    → count g (gateways (drop_step d c).0.entries) + count g (drop_step d c).1
      ≡ count g (gateways c.entries)
unfolding drop_step invalidate reconcile close gateways count
drop_step-count g (invalidates id) c = take_entry-count g id c.entries
drop_step-count g (reconciles now adaptive pressure) c = ground (
  arith,
  expire-count g now c.ttl c.entries,
  evict-count g (adaptive_capacity c.maximum adaptive pressure) (expire now c.ttl c.entries).0,
  count-append g (expire now c.ttl c.entries).1
      (evict (adaptive_capacity c.maximum adaptive pressure) (expire now c.ttl c.entries).0).1,
)
drop_step-count g closes c = ground arith
