-- ===== src/Platform/Reads/Paths.antt =====
-- internal/platform/service.go: what a read puts into the path of its request.
use k8s_panel.Base.{
  ◌≡◌, Bool, true, not, ◌&&◌, ◌||◌, List, [], ◌∷◌, ◌==◌, All, Text, same, contains_rune,
}
use k8s_panel.Platform.Reads.{
  Query, asks_summary, asks_namespaces, asks_nodes, asks_node_detail, asks_node_events,
  asks_custom_resource_definitions, asks_custom_resource_definition,
  asks_certificate_signing_requests, asks_certificate_signing_request, asks_priority_classes,
  asks_priority_class, asks_runtime_classes, asks_runtime_class, asks_api_services,
  asks_admission_webhook_configurations, asks_admission_webhook_configuration,
  asks_validating_admission_policies, asks_validating_admission_policy,
  asks_validating_admission_policy_bindings, asks_validating_admission_policy_binding, asks_events,
  asks_workloads, asks_services, asks_ingresses, asks_endpoint_slices, asks_network_policies,
  asks_config_maps, asks_persistent_volume_claims, asks_persistent_volumes, asks_storage_classes,
  asks_volume_attachments, asks_csi_storage_capacities, asks_volume_attributes_classes,
  asks_csi_drivers, asks_csi_driver, asks_csi_nodes, asks_csi_node, asks_resource_quotas,
  asks_pod_security_admission_namespaces, asks_node_version_skew, asks_deprecated_api_requests,
  asks_endpoint_certificate, asks_api_server_readiness, asks_disruption_budgets, asks_limit_ranges,
  asks_horizontal_pod_autoscalers, asks_pod_disruption_budgets, asks_access_resources,
  asks_access_resource_detail, asks_workload_detail, asks_deployment_revision_history,
  asks_workload_events,
}

-- A text that may stand between two slashes of a path: it has no slash and no percent sign, and is
-- neither of the two texts of dots that lead elsewhere.
unfoldable pub is_segment : Text → Bool
is_segment s =
    not (contains_rune (λ c. c == b'/' || c == b'%') s)
    && not (same s (b'.' ∷ []))
    && not (same s (b'.' ∷ b'.' ∷ []))

-- The names and namespaces of a query, which go into the path of its request.
unfoldable pub path_texts : Query → List Text
path_texts asks_summary = []
path_texts asks_namespaces = []
path_texts asks_nodes = []
path_texts (asks_node_detail name) = name ∷ []
path_texts (asks_node_events name limit) = name ∷ []
path_texts asks_custom_resource_definitions = []
path_texts (asks_custom_resource_definition name) = name ∷ []
path_texts asks_certificate_signing_requests = []
path_texts (asks_certificate_signing_request name) = name ∷ []
path_texts asks_priority_classes = []
path_texts (asks_priority_class name) = name ∷ []
path_texts asks_runtime_classes = []
path_texts (asks_runtime_class name) = name ∷ []
path_texts asks_api_services = []
path_texts (asks_admission_webhook_configurations kind) = []
path_texts (asks_admission_webhook_configuration kind name) = name ∷ []
path_texts asks_validating_admission_policies = []
path_texts (asks_validating_admission_policy name) = name ∷ []
path_texts asks_validating_admission_policy_bindings = []
path_texts (asks_validating_admission_policy_binding name) = name ∷ []
path_texts (asks_events namespace event_type limit) = namespace ∷ []
path_texts (asks_workloads namespace kind) = namespace ∷ []
path_texts (asks_services namespace) = namespace ∷ []
path_texts (asks_ingresses namespace) = namespace ∷ []
path_texts (asks_endpoint_slices namespace) = namespace ∷ []
path_texts (asks_network_policies namespace) = namespace ∷ []
path_texts (asks_config_maps namespace) = namespace ∷ []
path_texts (asks_persistent_volume_claims namespace) = namespace ∷ []
path_texts asks_persistent_volumes = []
path_texts asks_storage_classes = []
path_texts asks_volume_attachments = []
path_texts (asks_csi_storage_capacities namespace) = namespace ∷ []
path_texts asks_volume_attributes_classes = []
path_texts asks_csi_drivers = []
path_texts (asks_csi_driver name) = name ∷ []
path_texts asks_csi_nodes = []
path_texts (asks_csi_node name) = name ∷ []
path_texts (asks_resource_quotas namespace) = namespace ∷ []
path_texts asks_pod_security_admission_namespaces = []
path_texts asks_node_version_skew = []
path_texts asks_deprecated_api_requests = []
path_texts asks_endpoint_certificate = []
path_texts asks_api_server_readiness = []
path_texts asks_disruption_budgets = []
path_texts (asks_limit_ranges namespace) = namespace ∷ []
path_texts (asks_horizontal_pod_autoscalers namespace) = namespace ∷ []
path_texts (asks_pod_disruption_budgets namespace) = namespace ∷ []
path_texts (asks_access_resources kind namespace) = namespace ∷ []
path_texts (asks_access_resource_detail reference) = reference.namespace ∷ reference.name ∷ []
path_texts (asks_workload_detail reference) = reference.namespace ∷ reference.name ∷ []
path_texts (asks_deployment_revision_history reference) = reference.namespace ∷ reference.name ∷ []
path_texts (asks_workload_events reference limit) = reference.namespace ∷ reference.name ∷ []

abbrev pub Segments : List Text → Type 0
Segments ss = All (λ s. is_segment s ≡ true) ss
