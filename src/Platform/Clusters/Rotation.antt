-- ===== src/Platform/Clusters/Rotation.antt =====
-- internal/platform/service.go: the rotation of the credentials of a cluster.
use k8s_panel.Base.{ℕ, Bool, false, Option, none, some, [], if◌then◌else◌, holds, Text, runes, same}
use k8s_panel.Domain.{
  Cluster, AuditEvent, Error, Failure, Result, ok, err, wrapped, other, invalid_state, connected,
  disabled, ClusterStatus-dec, ◌>>=◌,
}
use k8s_panel.Governor.{Floats, Sample}
use k8s_panel.Cache.{invalidate}
use k8s_panel.Validation.Names.{require}
use k8s_panel.Validation.Inputs.{validate_cluster_credential_rotation_input}
use k8s_panel.Store.Disk.{Codec, Call}
use k8s_panel.Store.File.{write, get_cluster, rotates_credentials}
use k8s_panel.Operations.{audit}
use k8s_panel.Platform.{Panel, released, acquire_kubernetes_read}
use k8s_panel.Platform.Locks.{Locks, target_lock, set_lock, try_acquire_target_lock}
use k8s_panel.Platform.Clusters.{
  ClusterView, cluster_view, Caller, Note, cluster_event, seal_credentials,
}

pub record RotationInput : Type 0 where
  pub ca_cert : Text
  pub bearer_token : Text
  pub confirmation : Text

-- A panel and the locks of targets.
pub record Desk (F C : Type 0) : Type 0 where
  pub panel : Panel F C
  pub locks : Locks

-- What a rotation is answered: the gateway that is built for the new credentials or the error, the
-- version that its probe finds, what others do to the panel and to the locks meanwhile, and the
-- rest of the calls.
pub record Rotation (F C : Type 0) : Type 0 where
  pub at_lock : Failure
  pub at_read : Failure
  pub sample : Sample F
  pub sampled_at : ℕ
  pub at_store : Failure
  pub candidate : Option ℕ
  pub build_failure : Failure
  pub version : ℕ → Result Text
  pub during : Desk F C → Desk F C
  pub checked_at : ℕ
  pub note : Note
  pub at_rotate : Failure
  pub rotate_fails : Call → Bool

abbrev pub credential_rotation_lock : Text
unfolding runes
credential_rotation_lock = runes "cluster-credentials"

-- The tests on the cluster that was read.
unfoldable pub may_rotate : Text → Cluster → Failure
unfolding runes
may_rotate confirmation current =
    if holds (ClusterStatus-dec current.status disabled)
    then some invalid_state
    else require (same confirmation current.name) (runes "confirmation")
        (runes "must match the cluster name")

-- The version that the candidate finds.
unfoldable pub candidate_version : Failure → Option ℕ → (ℕ → Result Text) → Result Text
unfolding runes
candidate_version (some e) candidate version = err e
candidate_version none none version =
    err (other (runes "Kubernetes gateway builder returned no gateway"))
candidate_version none (some g) version = version g

-- The cluster with the credentials that were probed.
unfoldable pub rotated : Text → Text → Text → ℕ → Cluster → Cluster
rotated version token ca now current = record current {
  ca_cert_ciphertext = ca;
  bearer_token_ciphertext = token;
  status = connected;
  version = version;
  last_error_code = [];
  last_checked_at = now;
  updated_at = now;
}

module _ (seal : Text → Text → Result Text) (codec : Codec) {F : Type 0} where
  open codec use {Contents}

  unfoldable pub record_credential_rotation_failure :
      Note → Caller → Cluster → Error → Panel F Contents → Panel F Contents × Error
  unfolding runes
  record_credential_rotation_failure n caller cluster cause p =
      let (file, failure) =
        audit codec n.at_audit n.audit_id n.audit_fails
          (cluster_event caller (runes "cluster.credentials.rotate") (runes "failed") cluster.id
            cluster.name (runes "candidate credential validation failed") n.audited_at)
          p.file in
      elim failure [
        | some e ↦ (record p { file = file }, wrapped (runes "write credential rotation audit") e)
        | none ↦ (record p { file = file }, cause)
      ]

  -- The version and the two ciphertexts, once the candidate has answered its probe.
  unfoldable pub candidate_credentials :
      Rotation F Contents → Text → RotationInput → Result (Text × Text × Text)
  candidate_credentials r id input = do
    version ← candidate_version r.build_failure r.candidate r.version
    (token, ca) ← seal_credentials seal id input.bearer_token input.ca_cert
    ok (version, token, ca)

  unfoldable pub rotation_event : Rotation F Contents → Caller → Text → Cluster → Text → AuditEvent
  unfolding runes
  rotation_event r caller id current audit_id =
      cluster_event caller (runes "cluster.credentials.rotate") (runes "succeeded") id current.name
        (runes "connection credentials rotated") r.note.audited_at audit_id

  -- The end of the rotation, from the new ciphertexts on.
  unfoldable pub store_rotation :
      Rotation F Contents
      → Caller
      → Text
      → Cluster
      → Cluster
      → Panel F Contents
      → Panel F Contents × Result ClusterView
  unfolding runes
  store_rotation r caller id current updated p = elim (r.note.audit_id) [
    | err e ↦ (p, err (wrapped (runes "create audit ID") e))
    | ok audit_id ↦
        let (file, failure) =
          write codec r.rotate_fails
            (rotates_credentials r.at_rotate current updated
              (rotation_event r caller id current audit_id))
            p.file in
        elim failure [
          | some e ↦ (record p { file = file }, err e)
          | none ↦ (
            record p { file = file; cache = (invalidate id p.cache).0 },
            ok (cluster_view updated),
          )
        ]
  ]

  -- The rotation from its slot on.
  unfoldable pub rotate_admitted :
      Rotation F Contents
      → Caller
      → Text
      → RotationInput
      → Desk F Contents
      → Desk F Contents × Result ClusterView
  unfolding record_credential_rotation_failure store_rotation
  rotate_admitted r caller id input d = elim (get_cluster r.at_store id d.panel.file.state) [
    | err e ↦ (d, err e)
    | ok current ↦ elim (may_rotate input.confirmation current) [
      | some e ↦ (d, err e)
      | none ↦
          let x = r.during d in
          elim (candidate_credentials r id input) [
            | err e ↦
                let (q, cause) =
                  record_credential_rotation_failure r.note caller current e x.panel in
                (record x { panel = q }, err cause)
            | ok (version, token, ca) ↦
                let (q, answer) =
                  store_rotation r caller id current (rotated version token ca r.checked_at current)
                    x.panel in
                (record x { panel = q }, answer)
          ]
    ]
  ]

module _ (floats : Floats) (seal : Text → Text → Result Text) (codec : Codec) where
  open codec use {Contents}
  open floats use {Float}

  unfoldable pub rotate_cluster_credentials :
      Rotation Float Contents
      → Caller
      → Text
      → RotationInput
      → Desk Float Contents
      → Desk Float Contents × Result ClusterView
  unfolding rotate_admitted
  rotate_cluster_credentials r caller id input d =
      elim (validate_cluster_credential_rotation_input input.ca_cert input.bearer_token
        input.confirmation) [
          | some e ↦ (d, err e)
          | none ↦
              let lock = target_lock id [] credential_rotation_lock in
              let (locks, refused) = try_acquire_target_lock r.at_lock lock d.locks in
              elim refused [
                | some e ↦ (d, err e)
                | none ↦
                    let (p, failure) =
                      acquire_kubernetes_read floats r.at_read r.sample r.sampled_at d.panel in
                    elim failure [
                      | some e ↦ (record { panel = p; locks = set_lock lock false locks }, err e)
                      | none ↦
                          let (x, answer) =
                            rotate_admitted seal codec r caller id input
                              (record { panel = p; locks = locks }) in
                          (
                            record {
                              panel = released x.panel;
                              locks = set_lock lock false x.locks;
                            },
                            answer,
                          )
                    ]
              ]
        ]
