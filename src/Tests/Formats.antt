-- ===== src/Tests/Formats.antt =====
-- internal/domain/validation.go and internal/kubernetes/version_skew.go at concrete strings.
use k8s_panel.Base.{
  [], ◌≤◌, ◌≡◌, refl, true, false, none, some, ◌∷◌, Text, runes, text_dec, is_empty, byte_length,
  is_control, trim_space, contains_rune,
}
use k8s_panel.Versions.Skew.{is_supported}
use k8s_panel.Versions.{
  classify_node_version, ComponentVersion, parse_component_version, valid_version_suffix,
}
use k8s_panel.Domain.{workload_scale}
use k8s_panel.Names.{valid_dns_label, valid_dns_subdomain, all_labels, split}
use k8s_panel.Validation.Inputs.{
  validate_workload_reference, valid_workload_kind, WorkloadOperationInput, at_least,
  validate_workload_operation_input, normal_kind, valid_resource_version,
}
use k8s_panel.Validation.Accepted.{Fitting}
use k8s_panel.Versions.Parser.{Reads}
use k8s_panel.Versions.Skew
use k8s_panel.Names.Labels
use k8s_panel.Validation.Accepted
use k8s_panel.Versions.Parser

valid_dns_subdomain_lem_example : valid_dns_subdomain (runes "a.b-c") ≡ true
unfolding byte_length runes all_labels split
valid_dns_subdomain_lem_example = Labels.valid_dns_subdomain_lem (runes "a.b-c")

abbrev scale_input : WorkloadOperationInput
scale_input = record {
  cluster_id = runes "c";
  reference = record { kind = runes "Deployment"; namespace = runes "web"; name = runes "app" };
  resource_version = runes "42";
  replicas = some (at_least 3);
  confirmation = runes "app";
}

scale_accepted : validate_workload_operation_input workload_scale scale_input ≡ none
unfolding validate_workload_operation_input trim_space validate_workload_reference
    valid_workload_kind text_dec normal_kind valid_dns_label valid_dns_subdomain
    valid_resource_version contains_rune is_control
scale_accepted = refl

validate_workload_operation_input-none_example :
    Fitting workload_scale (some (at_least 3))
    × (is_empty (trim_space (runes "c")) ≡ false)
    × (normal_kind (runes "Deployment") ≡ runes "deployment")
    × (valid_dns_label (runes "web") ≡ true)
    × (valid_dns_subdomain (runes "app") ≡ true)
    × (valid_resource_version (trim_space (runes "42")) ≡ true)
validate_workload_operation_input-none_example =
    Accepted.validate_workload_operation_input-none workload_scale scale_input scale_accepted

abbrev version : ComponentVersion
version = record { major = 1; minor = 29; patch = 3 }

version_parsed : parse_component_version (runes "v1.29.3+k3s1") ≡ some version
unfolding parse_component_version runes
version_parsed = refl

parse_component_version-some_example :
    (s t u suffix : Text) × (runes "v1.29.3+k3s1" ≡ b'v' ∷ s)
    × Reads s 1 (b'.' ∷ t)
    × Reads t 29 (b'.' ∷ u)
    × Reads u 3 suffix
    × (valid_version_suffix suffix ≡ true)
    × (byte_length (runes "v1.29.3+k3s1") ≤ 128)
parse_component_version-some_example =
    Parser.parse_component_version-some (runes "v1.29.3+k3s1") {v = version} version_parsed

-- Server 1.29 with a kubelet of 1.26.
classify_node_version-supported_example :
    is_supported
      (classify_node_version [] [] version (record { major = 1; minor = 26; patch = 0 })).status
    ≡ true
classify_node_version-supported_example =
    Skew.classify_node_version-supported [] [] version (record { major = 1; minor = 26; patch = 0 })
