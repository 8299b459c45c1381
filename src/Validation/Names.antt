-- ===== src/Validation/Names.antt =====
-- internal/domain/validation.go: the tests on the names of Kubernetes resources.
use k8s_panel.Base.{
  ℕ, Bool, true, false, not, ◌&&◌, ◌||◌, Option, none, some, [], ◌∷◌, leb, ◌==◌, if◌then◌else◌,
  Text, runes, same, is_empty, byte_length, is_control, trim_space, contains_rune, has_prefix,
  map_option,
}
use k8s_panel.Domain.{Failure, invalid}
use k8s_panel.Names.{valid_dns_label, valid_dns_subdomain, resource_name_pattern}

-- `nil` where the test holds, else a validation error.
abbrev pub require : Bool → Text → Text → Failure
require true field message = none
require false field message = some (invalid field message)

-- `if err := first; err != nil { return err }; return second`
infixl 6 ◌then_check◌
abbrev pub ◌then_check◌ : Failure → Failure → Failure
none then_check second = second
some e then_check second = some e

-- `strings.Cut(s, sep)` at a separator of one character: what is before it and after it, if it occurs.
unfoldable pub cut : ℕ → Text → Option (Text × Text)
cut sep [] = none
cut sep (c ∷ s) = if c == sep then some ([], s) else map_option (λ p. (c ∷ p.0, p.1)) (cut sep s)

unfoldable pub validate_namespace : Text → Failure
unfolding runes
validate_namespace namespace =
    require (valid_dns_label namespace) (runes "namespace")
      (runes "must be a valid Kubernetes namespace")

unfoldable pub validate_node_name : Text → Failure
unfolding runes
validate_node_name name =
    require (valid_dns_subdomain name) (runes "name") (runes "must be a valid Kubernetes node name")

unfoldable pub validate_certificate_signing_request_name : Text → Failure
unfolding runes
validate_certificate_signing_request_name name =
    require (valid_dns_subdomain name) (runes "name")
      (runes "must be a valid Kubernetes CertificateSigningRequest name")

unfoldable pub validate_priority_class_name : Text → Failure
unfolding runes
validate_priority_class_name name =
    require (valid_dns_subdomain name) (runes "name")
      (runes "must be a valid Kubernetes PriorityClass name")

unfoldable pub validate_runtime_class_name : Text → Failure
unfolding runes
validate_runtime_class_name name =
    require (valid_dns_subdomain name) (runes "name")
      (runes "must be a valid Kubernetes RuntimeClass name")

unfoldable pub validate_runtime_class_handler : Text → Failure
unfolding runes
validate_runtime_class_handler handler =
    require (valid_dns_label handler) (runes "handler")
      (runes "must be a valid Kubernetes RuntimeClass handler")

unfoldable pub validate_csi_driver_name : Text → Failure
unfolding runes
validate_csi_driver_name name =
    require (valid_dns_subdomain name) (runes "name")
      (runes "must be a valid Kubernetes CSIDriver name")

unfoldable pub validate_volume_attachment_name : Text → Failure
unfolding runes
validate_volume_attachment_name name =
    require (valid_dns_subdomain name) (runes "name")
      (runes "must be a valid Kubernetes VolumeAttachment name")

unfoldable pub validate_persistent_volume_name : Text → Failure
unfolding runes
validate_persistent_volume_name name =
    require (valid_dns_subdomain name) (runes "name")
      (runes "must be a valid Kubernetes PersistentVolume name")

unfoldable pub validate_storage_class_name : Text → Failure
unfolding runes
validate_storage_class_name name =
    require (valid_dns_subdomain name) (runes "name")
      (runes "must be a valid Kubernetes StorageClass name")

unfoldable pub validate_csi_storage_capacity_name : Text → Failure
unfolding runes
validate_csi_storage_capacity_name name =
    require (valid_dns_subdomain name) (runes "name")
      (runes "must be a valid Kubernetes CSIStorageCapacity name")

unfoldable pub validate_volume_attributes_class_name : Text → Failure
unfolding runes
validate_volume_attributes_class_name name =
    require (valid_dns_subdomain name) (runes "name")
      (runes "must be a valid Kubernetes VolumeAttributesClass name")

unfoldable pub validate_admission_webhook_configuration_name : Text → Failure
unfolding runes
validate_admission_webhook_configuration_name name =
    require (valid_dns_subdomain name) (runes "name")
      (runes "must be a valid Kubernetes admission webhook configuration name")

unfoldable pub validate_admission_policy_resource_name : Text → Failure
unfolding runes
validate_admission_policy_resource_name name =
    require (valid_dns_subdomain name) (runes "name")
      (runes "must be a valid Kubernetes admission policy resource name")

unfoldable pub validate_custom_resource_definition_name : Text → Failure
unfolding runes
validate_custom_resource_definition_name name = elim (cut b'.' name) [
  | none ↦
      some
        (invalid (runes "name") (runes "must be a valid Kubernetes CustomResourceDefinition name"))
  | some (resource, group) ↦
      require (valid_dns_subdomain name && valid_dns_label resource && valid_dns_subdomain group)
        (runes "name") (runes "must be a valid Kubernetes CustomResourceDefinition name")
]

unfoldable pub validate_api_service_name : Text → Failure
unfolding runes
validate_api_service_name name = elim (cut b'.' name) [
  | none ↦ some (invalid (runes "name") (runes "must be a valid Kubernetes APIService name"))
  | some (version, group) ↦
      require
        (leb (byte_length name) 253
          && valid_dns_label version
          && (is_empty group || valid_dns_subdomain group))
        (runes "name") (runes "must be a valid Kubernetes APIService name")
]

unfoldable pub validate_operation_id : Text → Failure
unfolding runes has_prefix
validate_operation_id id =
    require (has_prefix id (runes "op_") && resource_name_pattern id) (runes "operation_id")
      (runes "must be a valid operation identifier")

unfoldable pub valid_rbac_resource_name : Text → Bool
unfolding runes
valid_rbac_resource_name value =
    not (is_empty value)
    && leb (byte_length value) 253
    && not (same value (runes "."))
    && not (same value (runes ".."))
    && same value (trim_space value)
    && not (contains_rune (λ c. c == b'/' || c == b'%') value)
    && not (contains_rune is_control value)
