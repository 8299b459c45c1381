-- ===== src/Cache/Get.antt =====
-- internal/platform/gateway_cache.go: `Get` as a whole, a list of the rounds of its loop.
use k8s_panel.Base.{ℕ, Option, none, some, List, [], ◌∷◌, ◌++◌, Text}
use k8s_panel.Domain.{Failure, Result, ok, err}
use k8s_panel.Cache.{Cache, refuses, hits, waits, builds_at, get_start, get_waited, get_finish}

-- One round: the clock at its head; what others do to the cache while it waits or builds; where it
-- waits, the error of its context and that of the build it waits for; where it builds, what the
-- builder returns and the clock afterwards.
pub record Round : Type 0 where
  pub now : ℕ
  pub others : Cache → Cache
  pub ended : Failure
  pub pending : Failure
  pub gateway : Option ℕ
  pub failure : Failure
  pub later : ℕ

-- The cache, the gateways that are retired, and the answer: `none` where it still waits after these rounds.
unfoldable pub get_rounds : List Round → Text → Text → Cache → Cache × List ℕ × Option (Result ℕ)
get_rounds [] id fingerprint c = (c, [], none)
get_rounds (r ∷ rs) id fingerprint c =
    let (c', retired, start) = get_start r.now id fingerprint c in
    let (c'', gone, answer) = get_rounds rs id fingerprint (r.others c') in
    elim start [
      | refuses e ↦ (c', retired, some (err e))
      | hits g ↦ (c', retired, some (ok g))
      | waits pending ↦ elim (r.ended) [
        | some e ↦ (r.others c', retired, some (err e))
        | none ↦ elim (get_waited fingerprint pending r.pending) [
          | some e ↦ (r.others c', retired, some (err e))
          | none ↦ (c'', retired ++ gone, answer)
        ]
      ]
      | builds_at n ↦
          let (built, replaced, result) =
            get_finish r.later id fingerprint n r.gateway r.failure (r.others c') in
          (built, retired ++ replaced, some result)
    ]

-- `Get`, with what `ctx.Err()` returns at its head.
unfoldable pub get : Failure → List Round → Text → Text → Cache → Cache × List ℕ × Option (Result ℕ)
get (some e) rs id fingerprint c = (c, [], some (err e))
get none rs id fingerprint c = get_rounds rs id fingerprint c
