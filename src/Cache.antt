-- ===== src/Cache.antt =====
-- internal/platform/gateway_cache.go: the cache of Kubernetes gateways. A gateway is a number that
-- names it; a duration or a time is a number of nanoseconds. The lock is given up while a gateway is
-- built, so `Get` is two steps, `get_start` and `get_finish`; each operation returns the gateways it
-- retires, whose idle connections the caller then closes.
pub mod Gateways
pub mod Bounds
pub mod Stale
pub mod Oldest
pub mod Get
use k8s_panel.Base.{
  ℕ, zero, suc, ◌+◌, ◌-◌, ◌*◌, ◌/◌, ◌%◌, ◌^◌, ◌≤◌, ◌<◌, ◌≡◌, refl, sym, ap, ◌∙◌, ◌≢◌, ◌↔◌, ◌⊎◌, inl,
  inr, Bool, true, false, not, ◌&&◌, ◌||◌, Option, none, some, List, [], ◌∷◌, ◌++◌, map, arith,
  ℕ_discrete, ltb, leb, ◌==◌, if◌then◌else◌, holds, Bool-cases, Option-cases, length, take, drop,
  length-append, length-take, length-drop, All, keep, Text, runes, text_dec, same, is_empty, utf8,
  byte_length, is_space, is_control, trim_space, contains_rune, has_prefix, fold, equal_fold,
  Absent, AllDistinct, map_option, Holds,
}
use Prim.Native.Nat.{max}
use k8s_panel.Base.Maps.{lookup, delete, store}
use k8s_panel.Domain.{Failure, Error, Result, ok, err, other, invalid_state}
use k8s_panel.Governor.{
  Pressure, pressure_unknown, pressure_normal, pressure_constrained, pressure_critical,
}

abbrev pub maximum_cache_size : ℕ
maximum_cache_size = 64

-- One minute and one hour.
abbrev pub minimum_cache_ttl : ℕ
minimum_cache_ttl = 60_000_000_000

abbrev pub maximum_cache_ttl : ℕ
maximum_cache_ttl = 3_600_000_000_000

pub record Entry : Type 0 where
  pub fingerprint : Text
  pub gateway : ℕ
  pub last_used : ℕ

abbrev pub Entries : Type 0
Entries = List (Text × Entry)

pub record Cache : Type 0 where
  pub entries : Entries
  -- The fingerprints of the builds in progress.
  pub builds : List (Text × Text)
  pub generations : Text → ℕ
  pub maximum : ℕ
  pub capacity : ℕ
  pub ttl : ℕ
  pub closed : Bool

unfoldable pub new_gateway_cache : ℕ → ℕ → Result Cache
unfolding runes
new_gateway_cache maximum ttl =
    if ltb maximum 1 || ltb maximum_cache_size maximum
    then err (other (runes "Kubernetes client cache size must be between 1 and 64"))
    else if ltb ttl minimum_cache_ttl || ltb maximum_cache_ttl ttl
    then err (other (runes "Kubernetes client cache TTL must be between 1m and 1h"))
    else ok (record {
      entries = [];
      builds = [];
      generations = λ k. 0;
      maximum = maximum;
      capacity = maximum;
      ttl = ttl;
      closed = false;
    })

-- `expireLocked`: the entries that stay, and the gateways of the others.
unfoldable pub expire : ℕ → ℕ → Entries → Entries × List ℕ
expire now ttl [] = ([], [])
expire now ttl ((k, e) ∷ es) =
    let (kept, retired) = expire now ttl es in
    if ltb now (e.last_used + ttl) then ((k, e) ∷ kept, retired) else (kept, e.gateway ∷ retired)

-- `<` on strings.
unfoldable pub text_lt : Text → Text → Bool
text_lt [] [] = false
text_lt [] (d ∷ t) = true
text_lt (c ∷ s) [] = false
text_lt (c ∷ s) (d ∷ t) = ltb c d || (c == d && text_lt s t)

-- Is an entry used less recently than another, identifiers deciding between equal times?
unfoldable pub precedes : Text → Entry → Text → Entry → Bool
precedes k e j f = ltb e.last_used f.last_used || (e.last_used == f.last_used && text_lt k j)

-- The inner loop of `evictLocked`, from the entry that it has found.
unfoldable pub oldest_from : Text → Entry → Entries → Text × Entry
oldest_from k e [] = (k, e)
oldest_from k e ((j, f) ∷ es) =
    let sooner = precedes j f k e in
    oldest_from (if sooner then j else k) (if sooner then f else e) es

-- The entries without the one of a key, and its gateway.
unfoldable pub take_entry : Text → Entries → Entries × List ℕ
take_entry id es = elim (lookup id es) [ some e ↦ (delete id es, e.gateway ∷ []) | none ↦ (es, []) ]

-- One round of `evictLocked`: the entries that stay, and the gateway that goes.
unfoldable pub evict_one : Entries → Entries × List ℕ
unfolding oldest_from precedes take_entry
evict_one [] = ([], [])
evict_one ((k, e) ∷ es) = take_entry (oldest_from k e es).0 ((k, e) ∷ es)

-- `evictLocked`, with as many rounds as there are entries.
unfoldable pub evict_loop : ℕ → ℕ → Entries → Entries × List ℕ
evict_loop zero capacity es = (es, [])
evict_loop (suc fuel) capacity es =
    let (es', gone) = evict_one es in
    let (es'', retired) = evict_loop fuel capacity es' in
    if ltb capacity (length es) then (es'', gone ++ retired) else (es, [])

unfoldable pub evict : ℕ → Entries → Entries × List ℕ
unfolding evict_loop
evict capacity es = evict_loop (length es) capacity es

-- How `Get` goes on after it has looked: it fails, it has a gateway, it waits for the build of
-- another caller, or it builds at a generation.
pub data Start : Type 0 where
  refuses : Error → Start
  hits : ℕ → Start
  waits : Text → Start
  builds_at : ℕ → Start

-- The rest of `get_start`, once expired entries and an entry of other credentials are gone.
unfoldable pub begin_build : Text → Text → Cache → Cache × Start
begin_build id fingerprint c = elim (lookup id c.builds) [
  | some pending ↦ (c, waits pending)
  | none ↦ (record c { builds = store id fingerprint c.builds }, builds_at (c.generations id))
]

unfoldable pub get_start : ℕ → Text → Text → Cache → Cache × List ℕ × Start
unfolding begin_build expire
get_start now id fingerprint c =
    if c.closed
    then (c, [], refuses invalid_state)
    else let (kept, retired) = expire now c.ttl c.entries in
      elim (lookup id kept) [
        | some e ↦
            if same e.fingerprint fingerprint
            then (
              record c { entries = store id (record e { last_used = now }) kept },
              retired,
              hits e.gateway,
            )
            else let (c', start) =
                begin_build id fingerprint (record c { entries = delete id kept }) in
              (c', retired ++ e.gateway ∷ [], start)
        | none ↦
            let (c', start) = begin_build id fingerprint (record c { entries = kept }) in
            (c', retired, start)
      ]

-- After another caller's build is done: its error, if it was for the same credentials, or none, and
-- then the loop looks again.
unfoldable pub get_waited : Text → Text → Failure → Failure
get_waited fingerprint pending failure = if same pending fingerprint then failure else none

-- After the build: `gateway` and `failure` are what the builder returned.
unfoldable pub get_finish :
    ℕ → Text → Text → ℕ → Option ℕ → Failure → Cache → Cache × List ℕ × Result ℕ
unfolding take_entry evict runes
get_finish now id fingerprint generation gateway (some e) c =
    (record c { builds = delete id c.builds }, elim gateway [ none ↦ [] | some g ↦ g ∷ [] ], err e)
get_finish now id fingerprint generation none none c = (
  record c { builds = delete id c.builds },
  [],
  err (other (runes "Kubernetes gateway builder returned no gateway")),
)
get_finish now id fingerprint generation (some g) none c =
    if c.closed || not (c.generations id == generation)
    then (record c { builds = delete id c.builds }, g ∷ [], err invalid_state)
    else let (es, replaced) = take_entry id c.entries in
      let (es', evicted) =
        evict c.capacity
          (store id (record { fingerprint = fingerprint; gateway = g; last_used = now }) es) in
      (record c { builds = delete id c.builds; entries = es' }, replaced ++ evicted, ok g)

-- A `uint64` counter for each cluster.
unfoldable pub invalidate : Text → Cache → Cache × List ℕ
unfolding take_entry
invalidate id c =
    let (es, retired) = take_entry id c.entries in
    (
      record c {
        generations = λ k. if same id k then (c.generations k + 1) % 2 ^ 64 else c.generations k;
        entries = es;
      },
      retired,
    )

unfoldable pub adaptive_capacity : ℕ → Bool → Pressure → ℕ
adaptive_capacity maximum false pressure = maximum
adaptive_capacity maximum true pressure_constrained = max 1 ((maximum + 1) / 2)
adaptive_capacity maximum true pressure_critical = 1
adaptive_capacity maximum true pressure_normal = maximum
adaptive_capacity maximum true pressure_unknown = maximum

unfoldable pub reconcile : ℕ → Bool → Pressure → Cache → Cache × List ℕ
unfolding expire evict adaptive_capacity
reconcile now adaptive pressure c =
    if c.closed
    then (c, [])
    else let capacity = adaptive_capacity c.maximum adaptive pressure in
      let (kept, expired) = expire now c.ttl c.entries in
      let (es, evicted) = evict capacity kept in
      (record c { capacity = capacity; entries = es }, expired ++ evicted)

unfoldable pub gateways : Entries → List ℕ
gateways [] = []
gateways ((k, e) ∷ es) = e.gateway ∷ gateways es

unfoldable pub close : Cache → Cache × List ℕ
unfolding gateways
close c =
    if c.closed then (c, []) else (record c { closed = true; entries = [] }, gateways c.entries)
