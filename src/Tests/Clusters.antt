-- ===== src/Tests/Clusters.antt =====
-- internal/platform/service.go at concrete states: the methods on one cluster.
use k8s_panel.Cache.{get_finish, reconcile, get_start}
use k8s_panel.Base.{
  fold, is_control, contains_rune, trim_space, byte_length, ℕ, ◌≡◌, refl, false, none, some, [],
  ◌∷◌, ◌++◌, text_dec, Text, runes,
}
use k8s_panel.Platform.Clusters.Lifecycle.{new_cluster, Creation, Deletion, deletion_event}
use k8s_panel.Store.Items.{clashes, contains, find, remove}
use k8s_panel.Validation.Origins.{
  is_root_path, validate_https_url, is_origin, Url, ClusterInput, validate_cluster_input,
}
use k8s_panel.Platform.Clusters.Created.{IsTested}
use k8s_panel.Platform.Clusters.{seal_credentials, Caller, Note, ClusterView}
use k8s_panel.Domain.{
  development, context_canceled, Cluster, Result, ok, err, ClusterStatus-dec, forbidden,
}
use k8s_panel.Base.Maps.{lookup}
use k8s_panel.Platform.{gateway_for_cluster, Panel, acquire_kubernetes_read}
use k8s_panel.Names.{bounded_pattern}
use k8s_panel.Validation.Inputs.{
  PodLogRequest, validate_cluster_credentials, validate_cluster_credential_rotation_input,
}
use k8s_panel.Platform.Clusters.Rotation.{
  store_rotation, candidate_version, candidate_credentials, may_rotate, rotate_admitted, Rotation,
  RotationInput, Desk, rotated, rotate_cluster_credentials, credential_rotation_lock,
}
use k8s_panel.Governor.{safe_ratio, capacity, snapshot, try_acquire}
use k8s_panel.Store.Changes.{create_audit_event, cluster_id}
use k8s_panel.Operations.{audit}
use k8s_panel.Store.Disk.{persist}
use k8s_panel.Store.File.{change, write, get_cluster}
use k8s_panel.Cache.Get.{get_rounds, get}
use k8s_panel.Platform.Locks.{try_acquire_target_lock, target_lock}
use k8s_panel.Store.History.{trim_audit_history}
use k8s_panel.Store.State.{State}
use k8s_panel.Store.Open.{never}
use k8s_panel.Platform.Clusters.Refused.{clusters}
use k8s_panel.Platform.Clusters.Probing.{Probe, test_connection}
use k8s_panel.Platform.Clusters.Files.{file_clusters}
use k8s_panel.Platform.Clusters.Deleted.{audited}
use k8s_panel.Tests.Governors.{percent}
use k8s_panel.Tests.Stores.{plain, cluster}
use k8s_panel.Tests.Reads.{panel, visit, fingerprint}
use k8s_panel.Platform.Clusters.Created
use k8s_panel.Platform.Watched.Recorded
use k8s_panel.Store.Changes
use k8s_panel.Platform.Clusters.Rotated
use k8s_panel.Platform.Clusters.Refused
use k8s_panel.Platform.Clusters.Probed
use k8s_panel.Platform.Clusters.Lifecycle
use k8s_panel.Platform.Clusters.Deleted
use k8s_panel.Tests.Governors

abbrev caller : Caller
caller = record { actor = b'a' ∷ []; request_id = b'r' ∷ [] }

abbrev note : Note
note = record { at_audit = none; audit_id = ok (b'n' ∷ []); audited_at = 30; audit_fails = never }

-- A cipher that puts a mark in front.
abbrev seal : Text → Text → Result Text
seal plain aad = ok (b'#' ∷ plain)

abbrev input : RotationInput
input = record { ca_cert = []; bearer_token = b't' ∷ []; confirmation = b'A' ∷ [] }

abbrev rotation : Rotation ℕ State
rotation = record {
  at_lock = none;
  at_read = none;
  sample = Governors.busy;
  sampled_at = 6;
  at_store = none;
  candidate = some 14;
  build_failure = none;
  version = λ g. ok (b'v' ∷ []);
  during = λ p. p;
  checked_at = 20;
  note = note;
  at_rotate = none;
  rotate_fails = never;
}

abbrev desk : Desk ℕ State
desk = record { panel = panel; locks = λ k. false }

abbrev id : Text
id = 1 ∷ []

abbrev lock : ℕ
lock = target_lock id [] credential_rotation_lock

abbrev rotated_desk : Desk ℕ State × Result ClusterView
rotated_desk = rotate_cluster_credentials percent seal plain rotation caller id input desk

abbrev new : Cluster
new = rotated (b'v' ∷ []) (b'#' ∷ b't' ∷ []) [] 20 cluster

abbrev refused : Rotation ℕ State
refused = record rotation { version = λ g. err forbidden }

rotate_cluster_credentials-err_example :
    let t = rotate_cluster_credentials percent seal plain refused caller id input desk in
    Refused.Keeps plain never (clusters panel) t.0.panel × (t.0.locks 5 ≡ false)
unfolding rotate_cluster_credentials validate_cluster_credential_rotation_input
    validate_cluster_credentials try_acquire_target_lock acquire_kubernetes_read try_acquire
    snapshot capacity safe_ratio reconcile rotate_admitted get_cluster find text_dec may_rotate
    ClusterStatus-dec candidate_credentials candidate_version seal_credentials store_rotation
    byte_length trim_space contains_rune is_control bounded_pattern audit write change
    create_audit_event contains persist file_clusters
rotate_cluster_credentials-err_example =
    Refused.rotate_cluster_credentials-err percent seal plain refused caller id input desk forbidden
      5 refl (λ d. (refl, refl, λ k. refl)) refl

-- While the cluster is probed, another caller stores other credentials.
abbrev overwritten : Panel ℕ State → Panel ℕ State
overwritten p = record p {
  file = record {
    state = record (p.file.state) {
      clusters = record cluster { bearer_token_ciphertext = 9 ∷ [] } ∷ [];
    };
    disk = p.file.disk;
  };
}

abbrev probe : Probe ℕ State
probe = record {
  visit = record visit { during = overwritten };
  version = λ g. ok (b'v' ∷ []);
  checked_at = 20;
  at_update = none;
  update_fails = never;
  between = λ p. p;
  note = note;
}

abbrev deletion : Deletion ℕ State
deletion = record {
  at_store = none;
  meanwhile = λ p. p;
  note = note;
  between = λ p. p;
  at_delete = none;
  delete_fails = never;
}

delete_cluster-ok_example :
    let t = Lifecycle.delete_cluster plain deletion caller id (b'A' ∷ []) panel in
    (c : Cluster) × (k : Text) × (find cluster_id id (clusters panel) ≡ some c)
    × ((b'A' ∷ []) ≡ c.name)
    × ((audited plain deletion caller id c panel).0.file.state.audit_events
        ≡ trim_audit_history
            (panel.file.state.audit_events ++ deletion_event caller id c 30 k ∷ []))
    × (remove cluster_id id (clusters (audited plain deletion caller id c panel).0)
        ≡ some (clusters t.0))
unfolding Lifecycle.delete_cluster get_cluster find text_dec audit write change create_audit_event
    contains persist Changes.delete_cluster remove
delete_cluster-ok_example =
    Deleted.delete_cluster-ok plain deletion caller id (b'A' ∷ []) panel refl

-- The context ends before the deletion.
abbrev ended : Deletion ℕ State
ended = record deletion { at_delete = some context_canceled }

abbrev logs_input : PodLogRequest
logs_input = record {
  namespace = b'a' ∷ [];
  pod = b'p' ∷ [];
  container = b'c' ∷ [];
  tail_lines = 100;
  previous = false;
  timestamps = false;
}

abbrev logs_of : ℕ → PodLogRequest → Result Text
logs_of g i = ok (b'l' ∷ [])

abbrev origin : Text → Result Url
unfolding runes
origin s = ok (record {
  scheme = runes "https";
  host = b'h' ∷ [];
  has_user = false;
  path = [];
  raw_query = [];
  fragment = [];
})

abbrev cluster_input : ClusterInput
cluster_input = record {
  name = b'B' ∷ [];
  environment = some development;
  server = b'h' ∷ b'/' ∷ [];
  ca_cert = [];
  bearer_token = b't' ∷ [];
}

-- The gateway of the new cluster cannot be built.
abbrev creation : Creation ℕ State
creation = record {
  target_failure = none;
  cluster_id = ok (b'2' ∷ []);
  created_at = 9;
  at_create = none;
  create_fails = never;
  between = λ p. p;
  note = note;
  probe = record probe {
    visit = record visit {
      rounds =
          record {
            now = 6;
            others = λ c. c;
            ended = none;
            pending = none;
            gateway = none;
            failure = some forbidden;
            later = 6;
          }
          ∷ [];
    };
  };
}

create_cluster-ok_example :
    let t =
      Lifecycle.create_cluster fingerprint plain origin seal creation caller cluster_input panel in
    (i : Text) × (token : Text) × (ca : Text) × (validate_cluster_input origin cluster_input ≡ none)
    × (creation.target_failure ≡ none)
    × (creation.cluster_id ≡ ok i)
    × (seal_credentials seal i (b't' ∷ []) [] ≡ ok (token, ca))
    × IsTested fingerprint plain origin seal creation caller
        (new_cluster i cluster_input development token ca 9)
        none
        t.0
unfolding Lifecycle.create_cluster validate_cluster_input bounded_pattern is_origin
    validate_https_url text_dec is_root_path validate_cluster_credentials byte_length trim_space
    contains_rune is_control seal_credentials write change Changes.create_cluster clashes
    new_cluster fold persist audit create_audit_event contains test_connection get_cluster find
    ClusterStatus-dec gateway_for_cluster get get_rounds get_start lookup get_finish
create_cluster-ok_example =
    Created.create_cluster-ok fingerprint plain origin seal creation caller cluster_input panel none
      (λ p. refl) refl
