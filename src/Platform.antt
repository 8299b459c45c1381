-- ===== src/Platform.antt =====
-- internal/platform/service.go: the panel that the service works on, the slot that a read of a cluster needs, and
-- the gateway that it gets. The retired gateways, whose idle connections are closed, are left out here.
pub mod Reads
pub mod Locks
pub mod Clusters
pub mod Repositories
pub mod Watched
use k8s_panel.Base.{ℕ, Option, none, some, List, if◌then◌else◌, holds, Text, runes}
use k8s_panel.Domain.{
  Cluster, Failure, Result, ok, err, wrapped, busy, invalid_state, disabled, ClusterStatus-dec,
}
use k8s_panel.Governor.{Floats, Governor, Sample, try_acquire, give_back}
use k8s_panel.Cache.{Cache, reconcile}
use k8s_panel.Cache.Get.{Round, get}
use k8s_panel.Store.File.{File, get_cluster}

-- The governor of reads, the cache of gateways and the store, of the float and file types F and C.
pub record Panel (F C : Type 0) : Type 0 where
  pub governor : Governor F
  pub cache : Cache
  pub file : File C

-- What a read of a cluster is answered: the context at its calls, the sample of the host and the
-- clock, the rounds of `gatewayCache.Get`; and what others do before it has its gateway, and while it
-- asks the cluster.
pub record Visit (F C : Type 0) : Type 0 where
  pub at_read : Failure
  pub sample : Sample F
  pub sampled_at : ℕ
  pub at_store : Failure
  pub at_get : Failure
  pub rounds : List Round
  pub meanwhile : Panel F C → Panel F C
  pub during : Panel F C → Panel F C

-- The release that `acquireKubernetesRead` returned.
unfoldable pub released : {F C : Type 0} → Panel F C → Panel F C
unfolding give_back
released p = record p { governor = give_back p.governor }

module _ (floats : Floats) where
  open floats use {Float}

  unfoldable pub acquire_kubernetes_read :
      {C : Type 0} → Failure → Sample Float → ℕ → Panel Float C → Panel Float C × Failure
  acquire_kubernetes_read (some e) sample now p = (p, some e)
  acquire_kubernetes_read none sample now p =
      let (g, s, granted) = try_acquire floats p.governor sample now in
      (
        record p { governor = g; cache = (reconcile now s.adaptive s.pressure p.cache).0 },
        if granted then none else some busy,
      )

-- `fingerprint` is the SHA-256 of what a connection to the cluster needs.
module _ (fingerprint : Cluster → Text) {F C : Type 0} where
  unfoldable pub gateway_for_cluster :
      Visit F C → Cluster → Panel F C → Panel F C × Option (Result ℕ)
  unfolding runes
  gateway_for_cluster v cluster p =
      let (c, _, answer) = get v.at_get v.rounds cluster.id (fingerprint cluster) p.cache in
      elim answer [
        | none ↦ (record p { cache = c }, none)
        | some (ok g) ↦ (record p { cache = c }, some (ok g))
        | some (err e) ↦
            (record p { cache = c }, some (err (wrapped (runes "create Kubernetes gateway") e)))
      ]

  unfoldable pub kube_gateway : Visit F C → Text → Panel F C → Panel F C × Option (Result ℕ)
  kube_gateway v id p = elim (get_cluster v.at_store id p.file.state) [
    | err e ↦ (p, some (err e))
    | ok cluster ↦
        if holds (ClusterStatus-dec cluster.status disabled)
        then (p, some (err invalid_state))
        else gateway_for_cluster v cluster p
  ]
