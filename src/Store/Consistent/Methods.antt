-- ===== src/Store/Consistent/Methods.antt =====
-- internal/store/file.go: the invariant of the stored state, through each method that writes.
use k8s_panel.Base.{
  is_empty, same, holds, ◌||◌, not, Text, fold, [], ◌∷◌, ◌++◌, Option, some, ◌≡◌, arith,
}
use k8s_panel.Domain.{
  State-dec, Cluster, Repository, Operation, AuditEvent, Failure, OperationState, conflict,
  not_found,
}
use k8s_panel.Store.Items.{find, replace, remove, contains, clashes, update}
use k8s_panel.Store.Items.Keys.{contains-Absent, map-replace, map-replace_found}
use k8s_panel.Store.History.Keys.{AllDistinct-trim_operation_history}
use k8s_panel.Store.State.{State}
use k8s_panel.Store.Changes.{
  Cluster-dec, valid_audit, create_cluster, update_cluster, rotate_cluster_credentials,
  delete_cluster, create_repository, update_repository, delete_repository, create_operation,
  update_operation, transition_operation, create_audit_event, live, cluster_id, cluster_name,
  repository_id, repository_name, operation_id, event_id, fresh_audit,
}
use k8s_panel.Store.Consistent.{
  IsConsistent, Consistent, bind-Consistent, guard-Consistent, found-Consistent, not-true,
  Named-added, Named-update, Named-remove, AllDistinct-added, Bounded-added, Bounded-with_audit,
}

module _ (ctx : Failure) (s : State) (v : IsConsistent s) where
  pub create_cluster-Consistent : (c : Cluster) → Consistent (create_cluster ctx c s)
  unfolding create_cluster
  create_cluster-Consistent c = bind-Consistent (live ctx) _ λ _ _.
      guard-Consistent (not (clashes cluster_id cluster_name c s.clusters)) conflict _ λ h. record {
        clusters = Named-added cluster_id cluster_name c s.clusters (not-true _ h) v.clusters;
        repositories = v.repositories;
        operations = v.operations;
        events = v.events;
      }

  pub update_cluster-Consistent : (c : Cluster) → Consistent (update_cluster ctx c s)
  unfolding update_cluster
  update_cluster-Consistent c = bind-Consistent (live ctx) _ λ _ _.
      bind-Consistent (update cluster_id cluster_name c s.clusters) _ λ r e.
        guard-Consistent r.0 not_found _ λ _. record {
          clusters = Named-update cluster_id cluster_name c s.clusters e v.clusters;
          repositories = v.repositories;
          operations = v.operations;
          events = v.events;
        }

  pub rotate-Consistent :
      (expected updated : Cluster) (a : AuditEvent)
      → fold updated.name ≡ fold expected.name
      → Consistent (rotate_cluster_credentials ctx expected updated a s)
  unfolding rotate_cluster_credentials
  rotate-Consistent expected updated a same_name = bind-Consistent (live ctx) _ λ _ _.
      guard-Consistent (not (is_empty expected.id || not (same updated.id expected.id))) _ _
        λ valid.
          guard-Consistent (not (is_empty a.id || not (same a.cluster_id updated.id))) _ _ λ _.
            found-Consistent (find cluster_id expected.id s.clusters) _ λ stored f.
              guard-Consistent (holds (Cluster-dec stored expected)) conflict _ λ equal.
                guard-Consistent (not (contains event_id a.id s.audit_events)) conflict _ λ fresh.
                  found-Consistent (replace cluster_id updated s.clusters) _ λ clusters r.
                    let i : updated.id ≡ expected.id = ground arith in
                    let c : stored ≡ expected = ground arith in
                    let g : find cluster_id updated.id s.clusters ≡ some stored = rw i f in
                    let n : fold updated.name ≡ fold stored.name = rw c same_name in
                    record {
                      clusters = (
                        rw (map-replace cluster_id updated s.clusters r) v.clusters.0,
                        rw
                            (map-replace_found cluster_id (λ (c : Cluster). fold c.name) updated
                              stored s.clusters g n r)
                            v.clusters.1,
                      );
                      repositories = v.repositories;
                      operations = v.operations;
                      events = Bounded-added a s.audit_events (not-true _ fresh) v.events;
                    }

  pub delete_cluster-Consistent : (id : Text) → Consistent (delete_cluster ctx id s)
  unfolding delete_cluster
  delete_cluster-Consistent id = bind-Consistent (live ctx) _ λ _ _.
      found-Consistent (remove cluster_id id s.clusters) _ λ clusters r. record {
        clusters = Named-remove cluster_id cluster_name id s.clusters r v.clusters;
        repositories = v.repositories;
        operations = v.operations;
        events = v.events;
      }

  pub create_repository-Consistent : (r : Repository) → Consistent (create_repository ctx r s)
  unfolding create_repository
  create_repository-Consistent r = bind-Consistent (live ctx) _ λ _ _.
      guard-Consistent (not (clashes repository_id repository_name r s.repositories)) conflict _
        λ h. record {
          clusters = v.clusters;
          repositories =
              Named-added repository_id repository_name r s.repositories (not-true _ h)
                v.repositories;
          operations = v.operations;
          events = v.events;
        }

  pub update_repository-Consistent : (r : Repository) → Consistent (update_repository ctx r s)
  unfolding update_repository
  update_repository-Consistent r = bind-Consistent (live ctx) _ λ _ _.
      bind-Consistent (update repository_id repository_name r s.repositories) _ λ p e.
        guard-Consistent p.0 not_found _ λ _. record {
          clusters = v.clusters;
          repositories =
              Named-update repository_id repository_name r s.repositories e v.repositories;
          operations = v.operations;
          events = v.events;
        }

  pub delete_repository-Consistent : (id : Text) → Consistent (delete_repository ctx id s)
  unfolding delete_repository
  delete_repository-Consistent id = bind-Consistent (live ctx) _ λ _ _.
      found-Consistent (remove repository_id id s.repositories) _ λ repositories r. record {
        clusters = v.clusters;
        repositories =
            Named-remove repository_id repository_name id s.repositories r v.repositories;
        operations = v.operations;
        events = v.events;
      }

  pub create_operation-Consistent : (o : Operation) → Consistent (create_operation ctx o s)
  unfolding create_operation
  create_operation-Consistent o = bind-Consistent (live ctx) _ λ _ _.
      guard-Consistent (not (contains operation_id o.id s.operations)) conflict _ λ h. record {
        clusters = v.clusters;
        repositories = v.repositories;
        operations = AllDistinct-trim_operation_history (s.operations ++ o ∷ []) (
            AllDistinct-added operation_id s.operations o
              (contains-Absent operation_id o.id s.operations (not-true _ h)) v.operations);
        events = v.events;
      }

  pub update_operation-Consistent : (o : Operation) → Consistent (update_operation ctx o s)
  unfolding update_operation
  update_operation-Consistent o = bind-Consistent (live ctx) _ λ _ _.
      found-Consistent (replace operation_id o s.operations) _ λ operations r. record {
        clusters = v.clusters;
        repositories = v.repositories;
        operations = rw (map-replace operation_id o s.operations r) v.operations;
        events = v.events;
      }

  pub transition_operation-Consistent :
      (expected : OperationState) (o : Operation) (a : Option AuditEvent)
      → Consistent (transition_operation ctx expected o a s)
  unfolding transition_operation
  transition_operation-Consistent expected o a = bind-Consistent (live ctx) _ λ _ _.
      guard-Consistent (not (is_empty o.id)) _ _ λ _. guard-Consistent (valid_audit o a) _ _ λ _.
        found-Consistent (find operation_id o.id s.operations) _ λ stored _.
          guard-Consistent (holds (State-dec stored.state expected)) _ _ λ _.
            guard-Consistent (fresh_audit a s.audit_events) _ _ λ fresh.
              found-Consistent (replace operation_id o s.operations) _ λ operations r. record {
                clusters = v.clusters;
                repositories = v.repositories;
                operations = rw (map-replace operation_id o s.operations r) v.operations;
                events = Bounded-with_audit a s.audit_events fresh v.events;
              }

  pub create_audit_event-Consistent : (e : AuditEvent) → Consistent (create_audit_event ctx e s)
  unfolding create_audit_event
  create_audit_event-Consistent e = bind-Consistent (live ctx) _ λ _ _.
      guard-Consistent (not (contains event_id e.id s.audit_events)) conflict _ λ h. record {
        clusters = v.clusters;
        repositories = v.repositories;
        operations = v.operations;
        events = Bounded-added e s.audit_events (not-true _ h) v.events;
      }
