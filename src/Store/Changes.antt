-- ===== src/Store/Changes.antt =====
-- internal/store/file.go: what each method that writes computes under the lock, before it commits:
-- the next state, or the error it returns instead. The argument `ctx` is what `ctx.Err()` returns.
use k8s_panel.Base.{
  Bool, true, ◌||◌, not, Option, none, some, List, [], ◌∷◌, ◌++◌, Text, runes, same, is_empty,
  ℕ_discrete, text_dec, holds,
}
use k8s_panel.Domain.{
  Cluster, Repository, Operation, OperationState, AuditEvent, Failure, Result, ok, err, not_found,
  conflict, invalid_state, other, ◌>>=◌, ◌>>◌, guard, State-dec, Environment-dec, ClusterStatus-dec,
}
use k8s_panel.Store.Items.{find, replace, remove, contains, clashes, update}
use k8s_panel.Store.History.{trim_operation_history, trim_audit_history}
use k8s_panel.Store.State.{State}

-- `==` on clusters.
unfoldable pub Cluster-dec : Discrete Cluster
unfolding ℕ_discrete text_dec Environment-dec ClusterStatus-dec
Cluster-dec = hlevel (ℕ_discrete, text_dec, Environment-dec, ClusterStatus-dec)

abbrev pub or_not_found {ℓ} : {A : Type ℓ} → Option A → Result A
or_not_found none = err not_found
or_not_found (some a) = ok a

abbrev pub live : Failure → Result (Unit {0})
live none = ok tt
live (some e) = err e

abbrev pub cluster_id : Cluster → Text
cluster_id c = c.id

abbrev pub cluster_name : Cluster → Text
cluster_name c = c.name

abbrev pub repository_id : Repository → Text
repository_id r = r.id

abbrev pub repository_name : Repository → Text
repository_name r = r.name

abbrev pub operation_id : Operation → Text
operation_id o = o.id

abbrev pub event_id : AuditEvent → Text
event_id e = e.id

unfoldable pub create_cluster : Failure → Cluster → State → Result State
create_cluster ctx cluster s = do
  live ctx
  guard (not (clashes cluster_id cluster_name cluster s.clusters)) conflict
  ok (record s { clusters = s.clusters ++ cluster ∷ [] })

unfoldable pub update_cluster : Failure → Cluster → State → Result State
update_cluster ctx cluster s = do
  live ctx
  (found, clusters) ← update cluster_id cluster_name cluster s.clusters
  guard found not_found
  ok (record s { clusters = clusters })

-- The stored cluster must be, in every field, the one that the caller read.
unfoldable pub rotate_cluster_credentials :
    Failure → Cluster → Cluster → AuditEvent → State → Result State
rotate_cluster_credentials ctx expected updated audit s = do
  live ctx
  guard (not (is_empty expected.id || not (same updated.id expected.id)))
      (other (runes "credential rotation cluster is invalid"))
  guard (not (is_empty audit.id || not (same audit.cluster_id updated.id)))
      (other (runes "credential rotation audit is invalid"))
  stored ← or_not_found (find cluster_id expected.id s.clusters)
  guard (holds (Cluster-dec stored expected)) conflict
  guard (not (contains event_id audit.id s.audit_events)) conflict
  clusters ← or_not_found (replace cluster_id updated s.clusters)
  ok (record s {
    clusters = clusters;
    audit_events = trim_audit_history (s.audit_events ++ audit ∷ []);
  })

unfoldable pub delete_cluster : Failure → Text → State → Result State
delete_cluster ctx id s = do
  live ctx
  clusters ← or_not_found (remove cluster_id id s.clusters)
  ok (record s { clusters = clusters })

unfoldable pub create_repository : Failure → Repository → State → Result State
create_repository ctx repository s = do
  live ctx
  guard (not (clashes repository_id repository_name repository s.repositories)) conflict
  ok (record s { repositories = s.repositories ++ repository ∷ [] })

unfoldable pub update_repository : Failure → Repository → State → Result State
update_repository ctx repository s = do
  live ctx
  (found, repositories) ← update repository_id repository_name repository s.repositories
  guard found not_found
  ok (record s { repositories = repositories })

unfoldable pub delete_repository : Failure → Text → State → Result State
delete_repository ctx id s = do
  live ctx
  repositories ← or_not_found (remove repository_id id s.repositories)
  ok (record s { repositories = repositories })

unfoldable pub create_operation : Failure → Operation → State → Result State
create_operation ctx operation s = do
  live ctx
  guard (not (contains operation_id operation.id s.operations)) conflict
  ok (record s { operations = trim_operation_history (s.operations ++ operation ∷ []) })

unfoldable pub update_operation : Failure → Operation → State → Result State
update_operation ctx operation s = do
  live ctx
  operations ← or_not_found (replace operation_id operation s.operations)
  ok (record s { operations = operations })

-- The part of `TransitionOperation` that depends on whether an audit event comes with it.
abbrev pub valid_audit : Operation → Option AuditEvent → Bool
valid_audit operation none = true
valid_audit operation (some a) = not (is_empty a.id || not (same a.operation_id operation.id))

abbrev pub fresh_audit : Option AuditEvent → List AuditEvent → Bool
fresh_audit none es = true
fresh_audit (some a) es = not (contains event_id a.id es)

abbrev pub with_audit : Option AuditEvent → List AuditEvent → List AuditEvent
with_audit none es = es
with_audit (some a) es = trim_audit_history (es ++ a ∷ [])

unfoldable pub transition_operation :
    Failure → OperationState → Operation → Option AuditEvent → State → Result State
transition_operation ctx expected operation audit s = do
  live ctx
  guard (not (is_empty operation.id)) (other (runes "operation ID is required"))
  guard (valid_audit operation audit) (other (runes "operation transition audit is invalid"))
  stored ← or_not_found (find operation_id operation.id s.operations)
  guard (holds (State-dec stored.state expected)) invalid_state
  guard (fresh_audit audit s.audit_events) conflict
  operations ← or_not_found (replace operation_id operation s.operations)
  ok (record s { operations = operations; audit_events = with_audit audit s.audit_events })

unfoldable pub create_audit_event : Failure → AuditEvent → State → Result State
create_audit_event ctx event s = do
  live ctx
  guard (not (contains event_id event.id s.audit_events)) conflict
  ok (record s { audit_events = trim_audit_history (s.audit_events ++ event ∷ []) })
