-- ===== src/Store/File.antt =====
-- internal/store/file.go: `File` and its methods. A method holds the lock of the store while it
-- reads and commits, so it is one step from a file to a file.
use k8s_panel.Base.{Bool, Option, none, some, Text, List, [], ◌∷◌}
use k8s_panel.Domain.{
  Cluster, Repository, Operation, OperationState, AuditEvent, Failure, Result, ok, err, ◌>>◌,
}
use k8s_panel.Store.Items.{find}
use k8s_panel.Store.State.{State}
use k8s_panel.Store.Disk.{Codec, Disk, Call, persist}
use k8s_panel.Store.Changes.{
  create_cluster, update_cluster, rotate_cluster_credentials, delete_cluster, create_repository,
  update_repository, delete_repository, create_operation, update_operation, transition_operation,
  create_audit_event, live, or_not_found,
}

pub record File (C : Type 0) : Type 0 where
  pub state : State
  pub disk : Disk C

-- A call of a method that writes, with its arguments.
pub data Write : Type 0 where
  creates_cluster updates_cluster : Failure → Cluster → Write
  rotates_credentials : Failure → Cluster → Cluster → AuditEvent → Write
  deletes_cluster : Failure → Text → Write
  creates_repository updates_repository : Failure → Repository → Write
  deletes_repository : Failure → Text → Write
  creates_operation updates_operation : Failure → Operation → Write
  transitions_operation : Failure → OperationState → Operation → Option AuditEvent → Write
  creates_audit_event : Failure → AuditEvent → Write

-- What the method computes before it commits.
unfoldable pub change : Write → State → Result State
change (creates_cluster ctx c) = create_cluster ctx c
change (updates_cluster ctx c) = update_cluster ctx c
change (rotates_credentials ctx expected updated a) =
    rotate_cluster_credentials ctx expected updated a
change (deletes_cluster ctx id) = delete_cluster ctx id
change (creates_repository ctx r) = create_repository ctx r
change (updates_repository ctx r) = update_repository ctx r
change (deletes_repository ctx id) = delete_repository ctx id
change (creates_operation ctx o) = create_operation ctx o
change (updates_operation ctx o) = update_operation ctx o
change (transitions_operation ctx expected o a) = transition_operation ctx expected o a
change (creates_audit_event ctx e) = create_audit_event ctx e

unfoldable pub get_cluster : Failure → Text → State → Result Cluster
get_cluster ctx id s = do live ctx; or_not_found (find (λ c. c.id) id s.clusters)

unfoldable pub get_repository : Failure → Text → State → Result Repository
get_repository ctx id s = do live ctx; or_not_found (find (λ r. r.id) id s.repositories)

unfoldable pub get_operation : Failure → Text → State → Result Operation
get_operation ctx id s = do live ctx; or_not_found (find (λ o. o.id) id s.operations)

module _ (codec : Codec) where
  open codec use {Contents}

  -- The memory follows the disk only where `persist` succeeds.
  unfoldable pub commit : (Call → Bool) → State → File Contents → File Contents × Failure
  commit fails next f =
      let (disk, failure) = persist codec fails next f.disk in
      elim failure [
        | none ↦ (record { state = next; disk = disk }, none)
        | some e ↦ (record f { disk = disk }, some e)
      ]

  unfoldable pub write : (Call → Bool) → Write → File Contents → File Contents × Failure
  unfolding commit
  write fails w f = elim (change w f.state) [ ok next ↦ commit fails next f | err e ↦ (f, some e) ]

  -- A run of calls, each with the answers of the operating system to it.
  unfoldable pub run : List ((Call → Bool) × Write) → File Contents → File Contents
  run [] f = f
  run ((fails, w) ∷ rest) f = run rest (write fails w f).0
