-- ===== src/Platform/Clusters/Stored.antt =====
-- internal/store/file.go: what the methods on clusters do to a lookup.
use k8s_panel.Base.{
  refl, ap, Bool, true, ◌≡◌, inl, inr, none, some, List, [], ◌∷◌, ◌++◌, arith, Option-cases, Text,
  same,
}
use k8s_panel.Domain.{err, ok, Result, Cluster, AuditEvent, Error, Failure}
use k8s_panel.Store.Items.{find, replace}
use k8s_panel.Store.State.{State}
use k8s_panel.Store.History.{trim_audit_history}
use k8s_panel.Store.Changes.{create_audit_event, rotate_cluster_credentials, cluster_id}
use k8s_panel.Store.Disk.{Codec, Call}
use k8s_panel.Store.File.{creates_audit_event, File, Write, write, commit, change, get_cluster}
use k8s_panel.Store.Transitions.{find-replace}
use k8s_panel.Operations.{audit}

pub same-eq : (a b : Text) → same a b ≡ true → a ≡ b
same-eq a b h = ground arith

pub find-id :
    (k : Text) (cs : List Cluster) {c : Cluster} → find cluster_id k cs ≡ some c → c.id ≡ k
unfolding find
find-id k [] h = cc
find-id k (x ∷ cs) {c} h = ground (arith, find-id k cs {c = c})

pub get_cluster-ok :
    (ctx : Failure) (k : Text) (s : State) {c : Cluster}
    → get_cluster ctx k s ≡ ok c
    → (find cluster_id k s.clusters ≡ some c) × (c.id ≡ k)
unfolding get_cluster
get_cluster-ok (some e) k s h = cc
get_cluster-ok none k s {c} h = elim (Option-cases (find cluster_id k s.clusters)) [
  | inl e ↦ absurd (ground arith)
  | inr (x, e) ↦
      let p : find cluster_id k s.clusters ≡ some c = ground arith in (p, find-id k s.clusters p)
]

-- A rotation that the store accepts found the expected cluster, and stores the updated one in its place.
pub rotate-find :
    (ctx : Failure) (expected updated : Cluster) (a : AuditEvent) (s : State) {s' : State}
    → rotate_cluster_credentials ctx expected updated a s ≡ ok s'
    → (find cluster_id expected.id s.clusters ≡ some expected)
      × (find cluster_id updated.id s'.clusters ≡ some updated)
      × (s'.audit_events ≡ trim_audit_history (s.audit_events ++ a ∷ []))
unfolding rotate_cluster_credentials
rotate-find ctx expected updated a s h =
    elim (Option-cases (replace cluster_id updated s.clusters)) [
      | inl e ↦ absurd (ground arith)
      | inr (ys, e) ↦ ground (arith, find-replace cluster_id updated.id updated s.clusters e)
    ]

module _ (codec : Codec) where
  open codec use {Contents}

  -- A write that reports no failure has the change in memory, and one that fails none.
  pub write-none :
      (fails : Call → Bool) (w : Write) (f : File Contents)
      → (write codec fails w f).1 ≡ none
      → change w f.state ≡ ok (write codec fails w f).0.state
  unfolding write commit
  write-none fails w f h = ground arith

  pub write-some :
      (fails : Call → Bool) (w : Write) (f : File Contents) {e : _}
      → (write codec fails w f).1 ≡ some e
      → (write codec fails w f).0.state ≡ f.state
  unfolding write commit
  write-some fails w f h = ground arith

  pub create_audit_event-clusters :
      (ctx : Failure) (e : AuditEvent) (s : State) {s' : State}
      → create_audit_event ctx e s ≡ ok s'
      → (s'.clusters ≡ s.clusters)
        × (s'.audit_events ≡ trim_audit_history (s.audit_events ++ e ∷ []))
  unfolding create_audit_event
  create_audit_event-clusters ctx e s h = ground arith

  write-event :
      (ctx : Failure) (e : AuditEvent) (fails : Call → Bool) (f : File Contents)
      → let r = write codec fails (creates_audit_event ctx e) f in
        r.1 ≡ none
        → (r.0.state.clusters ≡ f.state.clusters)
          × (r.0.state.audit_events ≡ trim_audit_history (f.state.audit_events ++ e ∷ []))
  unfolding change
  write-event ctx e fails f h =
      create_audit_event-clusters ctx e f.state (write-none fails (creates_audit_event ctx e) f h)

  -- An audit leaves the clusters as they are.
  pub audit-clusters :
      (ctx : Failure) (id : Result Text) (fails : Call → Bool) (event : Text → AuditEvent)
      (f : File Contents)
      → (audit codec ctx id fails event f).0.state.clusters ≡ f.state.clusters
  unfolding audit
  audit-clusters ctx (err e) fails event f = refl
  audit-clusters ctx (ok id) fails event f =
      let w = creates_audit_event ctx (event id) in
      elim (Option-cases (write codec fails w f).1) [
        | inl e ↦ (write-event ctx (event id) fails f e).0
        | inr (x, e) ↦ ap (λ (s : State). s.clusters) (write-some fails w f e)
      ]

  -- An audit that succeeds appends its event.
  pub audit-none :
      (ctx : Failure) (id : Result Text) (fails : Call → Bool) (event : Text → AuditEvent)
      (f : File Contents)
      → (audit codec ctx id fails event f).1 ≡ none
      → (k : Text) × (id ≡ ok k)
        × ((audit codec ctx id fails event f).0.state.audit_events
            ≡ trim_audit_history (f.state.audit_events ++ event k ∷ []))
  unfolding audit
  audit-none ctx (err e) fails event f h = cc
  audit-none ctx (ok id) fails event f h = (id, refl, (write-event ctx (event id) fails f h).1)

  -- An audit that fails leaves the memory as it is.
  pub audit-some :
      (ctx : Failure) (id : Result Text) (fails : Call → Bool) (event : Text → AuditEvent)
      (f : File Contents) {e : Error}
      → (audit codec ctx id fails event f).1 ≡ some e
      → (audit codec ctx id fails event f).0.state ≡ f.state
  unfolding audit
  audit-some ctx (err x) fails event f h = refl
  audit-some ctx (ok id) fails event f h = write-some fails (creates_audit_event ctx (event id)) f h
