-- ===== src/Platform/Clusters.antt =====
-- internal/platform/service.go: what the methods on clusters share; `ClusterView` and `clusterView` are in
-- internal/platform/views.go. `seal` and `open_sealed` are the calls of the cipher.
pub mod Probing
pub mod Rotation
pub mod Lifecycle
pub mod Stored
pub mod Rotated
pub mod Refused
pub mod Probed
pub mod Deleted
pub mod Sealed
pub mod Created
pub mod Files
use k8s_panel.Base.{
  ℕ, Bool, true, false, not, ◌&&◌, Option, none, some, List, [], ◌∷◌, ◌++◌, if◌then◌else◌, Text,
  runes, same, is_empty,
}
use k8s_panel.Domain.{
  Cluster, Environment, ClusterStatus, AuditEvent, Error, Failure, Result, ok, err, root, wrapped,
  other, forbidden, unauthorized, timeout, degraded, unreachable, ◌>>=◌,
}
use k8s_panel.Store.Disk.{Call}

pub record ClusterView : Type 0 where
  pub id : Text
  pub name : Text
  pub environment : Environment
  pub server : Text
  pub status : ClusterStatus
  pub version : Text
  pub last_error_code : Text
  pub credentials_configured : Bool
  pub last_checked_at : ℕ
  pub created_at : ℕ
  pub updated_at : ℕ

unfoldable pub cluster_view : Cluster → ClusterView
cluster_view c = record {
  id = c.id;
  name = c.name;
  environment = c.environment;
  server = c.server;
  status = c.status;
  version = c.version;
  last_error_code = c.last_error_code;
  credentials_configured = not (is_empty c.bearer_token_ciphertext);
  last_checked_at = c.last_checked_at;
  created_at = c.created_at;
  updated_at = c.updated_at;
}

-- Who calls a method.
pub record Caller : Type 0 where
  pub actor : Text
  pub request_id : Text

-- What `audit` is answered: the context, the identifier, the clock and the system calls.
pub record Note : Type 0 where
  pub at_audit : Failure
  pub audit_id : Result Text
  pub audited_at : ℕ
  pub audit_fails : Call → Bool

-- `newAuditEvent` for an action on a cluster, behind the identifier that it got.
unfoldable pub cluster_event : Caller → Text → Text → Text → Text → Text → ℕ → Text → AuditEvent
cluster_event caller action result cluster_id target summary now id = record {
  id = id;
  request_id = caller.request_id;
  operation_id = [];
  actor = caller.actor;
  action = action;
  result = result;
  cluster_id = cluster_id;
  namespace = [];
  target = target;
  summary = summary;
  created_at = now;
}

-- `fmt.Errorf` around the error of a call.
abbrev pub labelled {ℓ} : {A : Type ℓ} → Text → Result A → Result A
labelled m (ok a) = ok a
labelled m (err e) = err (wrapped m e)

unfoldable pub cluster_aad : Text → Text → Text
unfolding runes
cluster_aad id field = runes "cluster:" ++ id ++ runes ":" ++ field

-- The ciphertexts of a token and of a certificate, which may be empty.
unfoldable pub seal_credentials :
    (Text → Text → Result Text) → Text → Text → Text → Result (Text × Text)
unfolding runes
seal_credentials seal id token ca = do
  token' ←
      labelled (runes "encrypt cluster token") (seal token (cluster_aad id (runes "bearer_token")))
  ca' ←
      if is_empty ca
      then ok []
      else labelled (runes "encrypt cluster CA") (seal ca (cluster_aad id (runes "ca_cert")))
  ok (token', ca')

pub record Connection : Type 0 where
  pub server : Text
  pub ca_cert : Text
  pub bearer_token : Text

unfoldable pub cluster_connection : (Text → Text → Result Text) → Cluster → Result Connection
unfolding runes
cluster_connection open_sealed c = do
  token ←
      labelled (runes "decrypt cluster token")
        (open_sealed c.bearer_token_ciphertext (cluster_aad c.id (runes "bearer_token")))
  ca ←
      if is_empty c.ca_cert_ciphertext
      then ok []
      else labelled (runes "decrypt cluster CA")
          (open_sealed c.ca_cert_ciphertext (cluster_aad c.id (runes "ca_cert")))
  ok (record { server = c.server; ca_cert = ca; bearer_token = token })

-- The cases of `clusterFailure`, at the error under the wrappings.
unfoldable pub failure_of : Error → ClusterStatus × Text
unfolding runes
failure_of forbidden = (degraded, runes "permission_denied")
failure_of unauthorized = (unreachable, runes "credentials_rejected")
failure_of timeout = (unreachable, runes "upstream_timeout")
failure_of _ = (unreachable, runes "upstream_unavailable")

unfoldable pub cluster_failure : Error → ClusterStatus × Text
cluster_failure e = failure_of (root e)
