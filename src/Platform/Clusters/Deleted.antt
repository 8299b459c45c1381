-- ===== src/Platform/Clusters/Deleted.antt =====
-- internal/platform/service.go: a deletion of a cluster and its audit event.
use k8s_panel.Base.{
  List, ◌⊎◌, ◌≡◌, inl, inr, none, some, [], ◌∷◌, ◌++◌, arith, Bool-cases, Option-cases, Text, runes,
  same,
}
use k8s_panel.Domain.{Cluster, AuditEvent, Error, Failure, Result-cases, ok}
use k8s_panel.Store.Items.{find, remove}
use k8s_panel.Store.Changes.{cluster_id, delete_cluster}
use k8s_panel.Store.History.{trim_audit_history}
use k8s_panel.Store.Disk.{Codec}
use k8s_panel.Store.State.{State}
use k8s_panel.Store.File.{File, write, change, get_cluster, deletes_cluster}
use k8s_panel.Operations.{audit}
use k8s_panel.Platform.{Panel}
use k8s_panel.Platform.Clusters.{Caller}
use k8s_panel.Platform.Clusters.Lifecycle.{Deletion, deletion_event}
use k8s_panel.Platform.Clusters.Lifecycle
use k8s_panel.Platform.Clusters.Stored.{same-eq, write-none, audit-none, get_cluster-ok}
use k8s_panel.Platform.Clusters.Refused.{clusters}

delete_cluster-remove :
    (ctx : Failure) (id : Text) (s : State) {s' : State}
    → delete_cluster ctx id s ≡ ok s'
    → (remove cluster_id id s.clusters ≡ some s'.clusters) × (s'.audit_events ≡ s.audit_events)
unfolding delete_cluster
delete_cluster-remove (some e) id s h = cc
delete_cluster-remove none id s h = elim (Option-cases (remove cluster_id id s.clusters)) [
  | inl e ↦ absurd (ground arith)
  | inr (ys, e) ↦ ground (arith, e)
]

module _ (codec : Codec) {F : Type 0} where
  open codec use {Contents}

  -- The panel once the deletion is audited, and the failure of that.
  unfoldable pub audited :
      Deletion F Contents → Caller → Text → Cluster → Panel F Contents → Panel F Contents × Failure
  audited a caller id cluster p =
      let p' = a.meanwhile p in
      let (file, failure) =
        audit codec a.note.at_audit a.note.audit_id a.note.audit_fails
          (deletion_event caller id cluster a.note.audited_at) p'.file in
      (record p' { file = file }, failure)

  -- A deletion that succeeds found the cluster stored under the name that the caller gave; it recorded its event
  -- as the last of the trail, which was then trimmed; and after that it removed the cluster, and nothing else of the clusters,
  -- from what the others had left.
  pub delete_cluster-ok :
      (a : Deletion F Contents) (caller : Caller) (id expected_name : Text) (p : Panel F Contents)
      → let t = Lifecycle.delete_cluster codec a caller id expected_name p in
        t.1 ≡ none
        → (cluster : Cluster) × (k : Text) × (find cluster_id id (clusters p) ≡ some cluster)
          × (expected_name ≡ cluster.name)
          × ((audited a caller id cluster p).0.file.state.audit_events
              ≡ trim_audit_history (
                  (a.meanwhile p).file.state.audit_events
                  ++ deletion_event caller id cluster a.note.audited_at k ∷ []))
          × (remove cluster_id id (clusters (a.between (audited a caller id cluster p).0))
              ≡ some (clusters t.0))
  unfolding Lifecycle.delete_cluster audited change
  delete_cluster-ok a caller id expected_name p h =
      elim (Result-cases (get_cluster a.at_store id p.file.state)) [
        | inr (x, e) ↦ absurd (ground (arith, e))
        | inl (cluster, e) ↦ elim (Bool-cases (same expected_name cluster.name)) [
          | inr d ↦ absurd (ground (arith, e, d))
          | inl d ↦
              let event = deletion_event caller id cluster a.note.audited_at in
              let t =
                audit codec a.note.at_audit a.note.audit_id a.note.audit_fails event
                  (a.meanwhile p).file in
              let q = a.between (audited a caller id cluster p).0 in
              let w = deletes_cluster a.at_delete id in
              elim (Option-cases t.1) [
                | inr (x, f) ↦ absurd (ground (arith, e, d, f))
                | inl f ↦ elim (Option-cases (write codec a.delete_fails w q.file).1) [
                  | inr (x, g) ↦ absurd (ground (arith, e, d, f, g))
                  | inl g ↦
                      let (k, _, l) =
                        audit-none codec a.note.at_audit a.note.audit_id a.note.audit_fails event
                          (a.meanwhile p).file f in
                      let r =
                        delete_cluster-remove a.at_delete id q.file.state
                          (write-none codec a.delete_fails w q.file g) in
                      (
                        cluster,
                        k,
                        (get_cluster-ok a.at_store id p.file.state e).0,
                        same-eq expected_name cluster.name d,
                        l,
                        rw (e, d, f, g, Lifecycle.delete_cluster) r.0,
                      )
                ]
              ]
        ]
      ]

  -- What others do leaves the store as it is.
  abbrev pub LeavesFile : (Panel F Contents → Panel F Contents) → Type 0
  LeavesFile others = (p : Panel F Contents) → (others p).file ≡ p.file

  -- The trail of a failed deletion: as it was, or with the event of a deletion that was confirmed, whose result is "succeeded", as the
  -- last, and then the store has failed to delete the cluster.
  abbrev pub LeavesTrail :
      Deletion F Contents
      → Caller
      → Text
      → Text
      → Panel F Contents
      → List AuditEvent
      → Error
      → Type 0
  LeavesTrail a caller id expected_name p trail e =
      (trail ≡ p.file.state.audit_events)
      ⊎ ((cluster : Cluster) × (k : Text) × (find cluster_id id (clusters p) ≡ some cluster)
          × (expected_name ≡ cluster.name)
          × ((write codec a.delete_fails (deletes_cluster a.at_delete id)
                (a.between (audited a caller id cluster p).0).file).1
              ≡ some e)
          × (trail
              ≡ trim_audit_history (
                  p.file.state.audit_events
                  ++ deletion_event caller id cluster a.note.audited_at k ∷ []))
          × ((deletion_event caller id cluster a.note.audited_at k).result ≡ runes "succeeded"))
