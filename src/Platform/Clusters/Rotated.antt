-- ===== src/Platform/Clusters/Rotated.antt =====
-- internal/platform/service.go: a rotation of credentials that succeeds.
use k8s_panel.Base.{ℕ, ◌≡◌, ◌≢◌, refl, true, false, none, some, [], Text, runes}
use k8s_panel.Domain.{Cluster, Error, Failure, Result, ok, err, disabled}
use k8s_panel.Governor.{Floats}
use k8s_panel.Store.Items.{find}
use k8s_panel.Store.Changes.{cluster_id}
use k8s_panel.Store.Disk.{Codec}
use k8s_panel.Platform.{Panel, acquire_kubernetes_read}
use k8s_panel.Platform.Locks.{Locks, target_lock, set_lock, try_acquire_target_lock}
use k8s_panel.Platform.Clusters.{ClusterView, cluster_view, Caller, labelled, cluster_aad}
use k8s_panel.Platform.Clusters.Rotation.{
  Rotation, RotationInput, Desk, rotated, rotate_cluster_credentials, credential_rotation_lock,
}

labelled-ok : (m : Text) (r : Result Text) (t : Text) → labelled m r ≡ ok t → r ≡ ok t
labelled-ok m (ok a) t h = h
labelled-ok m (err e) t h = cc

pub try_acquire-free :
    (ctx : Failure) (n : ℕ) (locks : Locks)
    → ctx ≡ none
    → locks n ≡ false
    → try_acquire_target_lock ctx n locks ≡ (set_lock n true locks, none)
unfolding try_acquire_target_lock
try_acquire-free none n locks h k = rw k refl
try_acquire-free (some e) n locks h k = cc

module _ (seal : Text → Text → Result Text) (codec : Codec) {F : Type 0} where
  open codec use {Contents}

  -- What a rotation has found and done, from a desk to a panel.
  pub Rotates :
      Rotation F Contents
      → Text
      → RotationInput
      → Desk F Contents
      → Panel F Contents
      → ClusterView
      → Type 0
  Rotates r id input d q view =
      (current : Cluster) × (g : ℕ) × (version : Text) × (token : Text) × (ca : Text) × (find
          cluster_id id d.panel.file.state.clusters
        ≡ some current)
      × (current.status ≢ disabled)
      × (input.confirmation ≡ current.name)
      × (r.candidate ≡ some g)
      × (r.version g ≡ ok version)
      × (seal input.bearer_token (cluster_aad id (runes "bearer_token")) ≡ ok token)
      × (find cluster_id id (r.during d).panel.file.state.clusters ≡ some current)
      × (find cluster_id id q.file.state.clusters
          ≡ some (rotated version token ca r.checked_at current))
      × (view ≡ cluster_view (rotated version token ca r.checked_at current))

module _ (floats : Floats) (seal : Text → Text → Result Text) (codec : Codec) where
  open codec use {Contents}
  open floats use {Float}

  -- The desk on which a rotation that has its lock and its slot works.
  abbrev pub held_desk : Rotation Float Contents → Text → Desk Float Contents → Desk Float Contents
  held_desk r id d = record {
    panel = (acquire_kubernetes_read floats r.at_read r.sample r.sampled_at d.panel).0;
    locks = set_lock (target_lock id [] credential_rotation_lock) true d.locks;
  }

  -- Any rotation of a cluster at a desk is refused, and leaves the desk as it is.
  abbrev pub Excludes : Text → Desk Float Contents → Type 0
  Excludes id d =
      (r : Rotation Float Contents) (caller : Caller) (input : RotationInput)
      → (e : Error) × (rotate_cluster_credentials floats seal codec r caller id input d
          ≡ (d, err e))
