-- ===== src/Platform/Clusters/Probing.antt =====
-- internal/platform/service.go: the test of the connection to a cluster.
use k8s_panel.Base.{ℕ, Bool, Option, none, some, [], if◌then◌else◌, holds, Text, runes}
use k8s_panel.Domain.{
  Cluster, Failure, Result, ok, err, wrapped, invalid_state, connected, disabled, ClusterStatus-dec,
}
use k8s_panel.Governor.{Floats}
use k8s_panel.Cache.{Cache, invalidate}
use k8s_panel.Store.Disk.{Codec, Call}
use k8s_panel.Store.File.{write, get_cluster, updates_cluster}
use k8s_panel.Operations.{audit}
use k8s_panel.Platform.{Panel, Visit, gateway_for_cluster, acquire_kubernetes_read, released}
use k8s_panel.Platform.Clusters.{
  ClusterView, cluster_view, Caller, Note, cluster_event, cluster_failure,
}

-- What the test is answered: its visit, the version that the probe finds, the clock, the update, the
-- audit, and what others do between the last two.
pub record Probe (F C : Type 0) : Type 0 where
  pub visit : Visit F C
  pub version : ℕ → Result Text
  pub checked_at : ℕ
  pub at_update : Failure
  pub update_fails : Call → Bool
  pub between : Panel F C → Panel F C
  pub note : Note

-- The cluster after a probe.
unfoldable pub probed : Result Text → ℕ → Cluster → Cluster
probed (ok version) now c = record c {
  status = connected;
  version = version;
  last_error_code = [];
  last_checked_at = now;
  updated_at = now;
}
probed (err e) now c =
    let (status, code) = cluster_failure e in
    record c { status = status; last_error_code = code; last_checked_at = now; updated_at = now }

unfoldable pub probe_result : Result Text → Text
unfolding runes
probe_result (ok version) = runes "succeeded"
probe_result (err e) = runes "failed"

abbrev pub failure_in {ℓ} : {A : Type ℓ} → Result A → Failure
failure_in (ok a) = none
failure_in (err e) = some e

-- `if probeErr != nil { s.gatewayCache.Invalidate(id) }`
unfoldable pub forget_failed : Result Text → Text → Cache → Cache
forget_failed (ok version) id c = c
forget_failed (err e) id c = (invalidate id c).0

module _ (fingerprint : Cluster → Text) (codec : Codec) {F : Type 0} where
  open codec use {Contents}

  -- The test from the answer of the probe on. A view of `none` is the empty one.
  unfoldable pub record_probe :
      Probe F Contents
      → Caller
      → Text
      → Cluster
      → Result Text
      → Panel F Contents
      → Panel F Contents × Option ClusterView × Failure
  unfolding runes probe_result
  record_probe a caller id cluster answer p =
      let c = probed answer a.checked_at cluster in
      let (file, failure) = write codec a.update_fails (updates_cluster a.at_update c) p.file in
      let p' = record p { file = file; cache = forget_failed answer id p.cache } in
      elim failure [
        | some e ↦ (p', none, some e)
        | none ↦
            let q = a.between p' in
            let (file', failure') =
              audit codec a.note.at_audit a.note.audit_id a.note.audit_fails
                (cluster_event caller (runes "cluster.connection_test") (probe_result answer) id
                  c.name c.last_error_code a.note.audited_at)
                q.file in
            elim failure' [
              | some e ↦ (
                record q { file = file' },
                none,
                some (wrapped (runes "write connection test audit") e),
              )
              | none ↦ (record q { file = file' }, some (cluster_view c), failure_in answer)
            ]
      ]

  -- `testClusterConnection`: the panel, and the answer, `none` where it still waits for a gateway.
  unfoldable pub test_connection :
      Probe F Contents
      → Caller
      → Text
      → Panel F Contents
      → Panel F Contents × Option (Option ClusterView × Failure)
  unfolding record_probe
  test_connection a caller id p = elim (get_cluster a.visit.at_store id p.file.state) [
    | err e ↦ (p, some (none, some e))
    | ok cluster ↦
        if holds (ClusterStatus-dec cluster.status disabled)
        then (p, some (none, some invalid_state))
        else let (p', gateway) =
            gateway_for_cluster fingerprint a.visit cluster (a.visit.meanwhile p) in
          elim gateway [
            | none ↦ (p', none)
            | some (err e) ↦ (p', some (none, some e))
            | some (ok g) ↦
                let (q, view, failure) =
                  record_probe a caller id cluster (a.version g) (a.visit.during p') in
                (q, some (view, failure))
          ]
  ]

module _ (floats : Floats) (fingerprint : Cluster → Text) (codec : Codec) where
  open codec use {Contents}
  open floats use {Float}

  unfoldable pub test_cluster_connection :
      Probe Float Contents
      → Caller
      → Text
      → Panel Float Contents
      → Panel Float Contents × Option (Option ClusterView × Failure)
  test_cluster_connection a caller id p =
      let (p', failure) =
        acquire_kubernetes_read floats a.visit.at_read a.visit.sample a.visit.sampled_at p in
      elim failure [
        | some e ↦ (p', some (none, some e))
        | none ↦
            let (q, answer) =
              test_connection fingerprint codec a caller id
                (record p' { cache = (invalidate id p'.cache).0 }) in
            elim answer [ none ↦ (q, none) | some r ↦ (released q, some r) ]
      ]
