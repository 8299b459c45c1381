-- ===== src/Validation/Inputs.antt =====
-- internal/domain/validation.go: the tests on requests for workloads, releases, logs and events.
use k8s_panel.Base.{
  ℕ, ◌+◌, Bool, true, false, not, ◌&&◌, ◌||◌, Option, none, some, map, ltb, leb, ◌==◌,
  if◌then◌else◌, Text, runes, same, is_empty, byte_length, is_space, is_control, trim_space,
  contains_rune,
}
use k8s_panel.Domain.{
  Failure, invalid, OperationKind, workload_scale, workload_restart, workload_image, helm_install,
  helm_upgrade, helm_rollback, helm_uninstall,
}
use k8s_panel.Names.{valid_dns_label, valid_dns_subdomain, resource_name_pattern}
use k8s_panel.Validation.Names.{require, ◌then_check◌, validate_namespace}

pub record WorkloadReference : Type 0 where
  pub kind : Text
  pub namespace : Text
  pub name : Text

-- A number of replicas, an `int32` that is 0 or more, or that is negative.
pub data Replicas : Type 0 where
  at_least : ℕ → Replicas
  negative : Replicas

pub record WorkloadOperationInput : Type 0 where
  pub cluster_id : Text
  pub reference : WorkloadReference
  pub resource_version : Text
  pub replicas : Option Replicas
  pub confirmation : Text

pub record WorkloadImageChange : Type 0 where
  pub reference : WorkloadReference
  pub resource_version : Text
  pub container : Text
  pub current_image : Text
  pub image : Text

pub record WorkloadImageOperationInput : Type 0 where
  pub cluster_id : Text
  pub change : WorkloadImageChange
  pub confirmation : Text

pub record PodLogRequest : Type 0 where
  pub namespace : Text
  pub pod : Text
  pub container : Text
  pub tail_lines : ℕ
  pub previous : Bool
  pub timestamps : Bool

abbrev pub max_workload_replicas : ℕ
max_workload_replicas = 1000

abbrev pub max_container_image_bytes : ℕ
max_container_image_bytes = 1024

abbrev pub max_pod_log_tail_lines : ℕ
max_pod_log_tail_lines = 2000

abbrev pub max_cluster_event_limit : ℕ
max_cluster_event_limit = 500

abbrev pub max_cluster_bearer_token_bytes : ℕ
max_cluster_bearer_token_bytes = 65536

abbrev pub max_cluster_ca_cert_bytes : ℕ
max_cluster_ca_cert_bytes = 262144

-- `strings.ToLower` on a kind, which is compared with ASCII words alone: the letters of ASCII, and
-- the Kelvin sign, whose lower case is `k`.
lower_rune : ℕ → ℕ
lower_rune c = if leb b'A' c && leb c b'Z' then c + 32 else if c == 0x212a then b'k' else c

unfoldable pub to_lower : Text → Text
unfolding lower_rune
to_lower = map lower_rune

-- `strings.ToLower(strings.TrimSpace(kind))`
unfoldable pub normal_kind : Text → Text
unfolding to_lower trim_space
normal_kind kind = to_lower (trim_space kind)

unfoldable pub valid_workload_kind : Text → Bool
unfolding runes
valid_workload_kind kind =
    same kind (runes "deployment")
    || same kind (runes "statefulset")
    || same kind (runes "daemonset")
    || same kind (runes "job")
    || same kind (runes "cronjob")
    || same kind (runes "pod")

unfoldable pub validate_workload_reference : WorkloadReference → Failure
unfolding runes
validate_workload_reference reference =
    require (valid_workload_kind (normal_kind reference.kind)) (runes "kind")
      (runes "must be deployment, statefulset, daemonset, job, cronjob or pod")
    then_check require (valid_dns_label reference.namespace) (runes "namespace")
        (runes "must be a valid Kubernetes namespace")
    then_check require (valid_dns_subdomain reference.name) (runes "name")
        (runes "must be a valid Kubernetes resource name")

unfoldable pub validate_deployment_reference : WorkloadReference → Failure
unfolding runes
validate_deployment_reference reference =
    validate_workload_reference reference
    then_check require (same (normal_kind reference.kind) (runes "deployment")) (runes "kind")
        (runes "must be deployment")

unfoldable pub validate_workload_list : Text → Text → Failure
unfolding runes
validate_workload_list namespace kind =
    (if is_empty namespace then none else validate_namespace namespace)
    then_check require (is_empty (normal_kind kind) || valid_workload_kind (normal_kind kind))
        (runes "kind") (runes "must be deployment, statefulset, daemonset, job, cronjob or pod")

-- The test on a resource version, once trimmed.
unfoldable pub valid_resource_version : Text → Bool
valid_resource_version v = not (is_empty v || ltb 256 (byte_length v) || contains_rune is_control v)

unfoldable pub validate_replicas : OperationKind → Option Replicas → Failure
unfolding runes
validate_replicas workload_scale none = some (invalid (runes "replicas") (runes "is required"))
validate_replicas workload_scale (some negative) =
    some (invalid (runes "replicas") (runes "must be between 0 and 1000"))
validate_replicas workload_scale (some (at_least n)) =
    require (leb n max_workload_replicas) (runes "replicas") (runes "must be between 0 and 1000")
validate_replicas _ none = none
validate_replicas _ (some r) =
    some (invalid (runes "replicas") (runes "must not be provided for restart"))

abbrev pub is_scale_or_restart : OperationKind → Bool
is_scale_or_restart workload_scale = true
is_scale_or_restart workload_restart = true
is_scale_or_restart workload_image = false
is_scale_or_restart helm_install = false
is_scale_or_restart helm_upgrade = false
is_scale_or_restart helm_rollback = false
is_scale_or_restart helm_uninstall = false

unfoldable pub validate_workload_operation_input : OperationKind → WorkloadOperationInput → Failure
unfolding runes validate_replicas
validate_workload_operation_input kind input =
    require (is_scale_or_restart kind) (runes "kind")
      (runes "must be workload.scale or workload.restart")
    then_check require (not (is_empty (trim_space input.cluster_id))) (runes "cluster_id")
        (runes "is required")
    then_check validate_workload_reference input.reference
    then_check require (same (normal_kind input.reference.kind) (runes "deployment")) (runes "kind")
        (runes "only Deployment operations are supported")
    then_check require (valid_resource_version (trim_space input.resource_version))
        (runes "resource_version") (runes "must be a valid value no longer than 256 characters")
    then_check validate_replicas kind input.replicas

-- The test that images and bearer tokens share: no blanks and no control characters.
abbrev pub blank_or_control : ℕ → Bool
blank_or_control c = is_space c || is_control c

unfoldable pub validate_container_image : Text → Text → Failure
unfolding runes
validate_container_image field image =
    require
      (not (
        is_empty image
        || ltb max_container_image_bytes (byte_length image)
        || not (same image (trim_space image))
        || contains_rune blank_or_control image))
      field
      (runes "must be a non-empty image reference no longer than 1024 bytes without whitespace")

unfoldable pub validate_workload_image_change : WorkloadImageChange → Failure
unfolding runes
validate_workload_image_change change =
    validate_workload_reference change.reference
    then_check require (same (normal_kind change.reference.kind) (runes "deployment"))
        (runes "kind") (runes "only Deployment image updates are supported")
    then_check require (valid_resource_version (trim_space change.resource_version))
        (runes "resource_version") (runes "must be a valid value no longer than 256 characters")
    then_check require (valid_dns_label change.container) (runes "container")
        (runes "must be a valid Kubernetes container name")
    then_check validate_container_image (runes "current_image") change.current_image
    then_check validate_container_image (runes "image") change.image
    then_check require (not (same change.current_image change.image)) (runes "image")
        (runes "must differ from the current image")

unfoldable pub validate_workload_image_operation_input : WorkloadImageOperationInput → Failure
unfolding runes
validate_workload_image_operation_input input =
    require (not (is_empty (trim_space input.cluster_id))) (runes "cluster_id")
      (runes "is required")
    then_check validate_workload_image_change input.change

unfoldable pub validate_pod_log_request : PodLogRequest → Failure
unfolding runes
validate_pod_log_request input =
    validate_workload_reference
      (record { kind = runes "pod"; namespace = input.namespace; name = input.pod })
    then_check require (valid_dns_label input.container) (runes "container")
        (runes "must be a valid Kubernetes container name")
    then_check require (leb 1 input.tail_lines && leb input.tail_lines max_pod_log_tail_lines)
        (runes "tail_lines") (runes "must be between 1 and 2000")

unfoldable pub validate_kubernetes_event_list : Text → Text → ℕ → Failure
unfolding runes
validate_kubernetes_event_list namespace event_type limit =
    (if is_empty namespace then none else validate_namespace namespace)
    then_check require
        (is_empty event_type
          || same event_type (runes "Normal")
          || same event_type (runes "Warning"))
        (runes "type") (runes "must be Normal or Warning")
    then_check require (leb 1 limit && leb limit max_cluster_event_limit) (runes "limit")
        (runes "must be between 1 and 500")

unfoldable pub validate_cluster_credentials : Text → Text → Failure
unfolding runes
validate_cluster_credentials ca_cert bearer_token =
    require
      (not (
        is_empty bearer_token
        || ltb max_cluster_bearer_token_bytes (byte_length bearer_token)
        || not (same bearer_token (trim_space bearer_token))
        || contains_rune blank_or_control bearer_token))
      (runes "bearer_token")
      (runes
        "must be non-empty, no longer than 64 KiB and contain no whitespace or control characters")
    then_check require (leb (byte_length ca_cert) max_cluster_ca_cert_bytes) (runes "ca_cert")
        (runes "must not exceed 256 KiB")

unfoldable pub validate_cluster_credential_rotation_input : Text → Text → Text → Failure
unfolding runes
validate_cluster_credential_rotation_input ca_cert bearer_token confirmation =
    validate_cluster_credentials ca_cert bearer_token
    then_check require (resource_name_pattern confirmation) (runes "confirmation")
        (runes "must be a valid cluster name")

unfoldable pub validate_helm_release_reference : Text → Text → Failure
unfolding runes
validate_helm_release_reference namespace release_name =
    require (valid_dns_label namespace) (runes "namespace")
      (runes "must be a valid Kubernetes namespace")
    then_check require (valid_dns_label release_name) (runes "release_name")
        (runes "must be a valid Helm release name")
