-- ===== src/Platform/Reads/Serve.antt =====
-- internal/platform/service.go: the read methods as one dispatch on what is asked for.
use k8s_panel.Base.{ℕ, Text}
use k8s_panel.Domain.{Cluster, Result}
use k8s_panel.Governor.{Floats}
use k8s_panel.Platform.{Panel, Visit}
use k8s_panel.Platform.Reads.{
  Query, Outcome, asks_summary, asks_namespaces, asks_nodes, asks_node_detail, asks_node_events,
  asks_custom_resource_definitions, asks_custom_resource_definition,
  asks_certificate_signing_requests, asks_certificate_signing_request, asks_priority_classes,
  asks_priority_class, asks_runtime_classes, asks_runtime_class, asks_api_services,
  asks_admission_webhook_configurations, asks_admission_webhook_configuration,
  asks_validating_admission_policies, asks_validating_admission_policy,
  asks_validating_admission_policy_bindings, asks_validating_admission_policy_binding, asks_events,
  asks_workloads, asks_services, asks_ingresses, asks_endpoint_slices, asks_network_policies,
  asks_config_maps, asks_persistent_volume_claims, asks_persistent_volumes, asks_storage_classes,
  asks_volume_attachments, asks_csi_storage_capacities, asks_volume_attributes_classes,
  asks_csi_drivers, asks_csi_driver, asks_csi_nodes, asks_csi_node, asks_resource_quotas,
  asks_pod_security_admission_namespaces, asks_node_version_skew, asks_deprecated_api_requests,
  asks_endpoint_certificate, asks_api_server_readiness, asks_disruption_budgets, asks_limit_ranges,
  asks_horizontal_pod_autoscalers, asks_pod_disruption_budgets, asks_access_resources,
  asks_access_resource_detail, asks_workload_detail, asks_deployment_revision_history,
  asks_workload_events,
}
use k8s_panel.Platform.Reads.Methods.Lists.{
  summary, namespaces, nodes, custom_resource_definitions, certificate_signing_requests,
  priority_classes, runtime_classes, api_services, validating_admission_policies,
  validating_admission_policy_bindings, persistent_volumes, storage_classes, volume_attachments,
  volume_attributes_classes, csi_drivers, csi_nodes, pod_security_admission_namespaces,
  node_version_skew, deprecated_api_requests, endpoint_certificate, api_server_readiness,
  disruption_budgets,
}
use k8s_panel.Platform.Reads.Methods.Scoped.{
  events, workloads, services, ingresses, endpoint_slices, network_policies, config_maps,
  persistent_volume_claims, csi_storage_capacities, resource_quotas, limit_ranges,
  horizontal_pod_autoscalers, pod_disruption_budgets,
}
use k8s_panel.Platform.Reads.Methods.Named.{
  node_detail, node_events, custom_resource_definition, certificate_signing_request, priority_class,
  runtime_class, admission_webhook_configurations, admission_webhook_configuration,
  validating_admission_policy, validating_admission_policy_binding, csi_driver, csi_node,
  access_resources, access_resource_detail, workload_detail, deployment_revision_history,
  workload_events,
}

module _ (floats : Floats) (fingerprint : Cluster → Text) {C Reply : Type 0}
    (ask : ℕ → Query → Result Reply) where
  open floats use {Float}

  unfoldable pub serve : Visit Float C → Text → Query → Panel Float C → Outcome Float C Reply
  serve v id asks_summary = summary floats fingerprint ask v id
  serve v id asks_namespaces = namespaces floats fingerprint ask v id
  serve v id asks_nodes = nodes floats fingerprint ask v id
  serve v id (asks_node_detail name) = node_detail floats fingerprint ask v id name
  serve v id (asks_node_events name limit) = node_events floats fingerprint ask v id name limit
  serve v id asks_custom_resource_definitions =
      custom_resource_definitions floats fingerprint ask v id
  serve v id (asks_custom_resource_definition name) =
      custom_resource_definition floats fingerprint ask v id name
  serve v id asks_certificate_signing_requests =
      certificate_signing_requests floats fingerprint ask v id
  serve v id (asks_certificate_signing_request name) =
      certificate_signing_request floats fingerprint ask v id name
  serve v id asks_priority_classes = priority_classes floats fingerprint ask v id
  serve v id (asks_priority_class name) = priority_class floats fingerprint ask v id name
  serve v id asks_runtime_classes = runtime_classes floats fingerprint ask v id
  serve v id (asks_runtime_class name) = runtime_class floats fingerprint ask v id name
  serve v id asks_api_services = api_services floats fingerprint ask v id
  serve v id (asks_admission_webhook_configurations kind) =
      admission_webhook_configurations floats fingerprint ask v id kind
  serve v id (asks_admission_webhook_configuration kind name) =
      admission_webhook_configuration floats fingerprint ask v id kind name
  serve v id asks_validating_admission_policies =
      validating_admission_policies floats fingerprint ask v id
  serve v id (asks_validating_admission_policy name) =
      validating_admission_policy floats fingerprint ask v id name
  serve v id asks_validating_admission_policy_bindings =
      validating_admission_policy_bindings floats fingerprint ask v id
  serve v id (asks_validating_admission_policy_binding name) =
      validating_admission_policy_binding floats fingerprint ask v id name
  serve v id (asks_events namespace event_type limit) =
      events floats fingerprint ask v id namespace event_type limit
  serve v id (asks_workloads namespace kind) = workloads floats fingerprint ask v id namespace kind
  serve v id (asks_services namespace) = services floats fingerprint ask v id namespace
  serve v id (asks_ingresses namespace) = ingresses floats fingerprint ask v id namespace
  serve v id (asks_endpoint_slices namespace) =
      endpoint_slices floats fingerprint ask v id namespace
  serve v id (asks_network_policies namespace) =
      network_policies floats fingerprint ask v id namespace
  serve v id (asks_config_maps namespace) = config_maps floats fingerprint ask v id namespace
  serve v id (asks_persistent_volume_claims namespace) =
      persistent_volume_claims floats fingerprint ask v id namespace
  serve v id asks_persistent_volumes = persistent_volumes floats fingerprint ask v id
  serve v id asks_storage_classes = storage_classes floats fingerprint ask v id
  serve v id asks_volume_attachments = volume_attachments floats fingerprint ask v id
  serve v id (asks_csi_storage_capacities namespace) =
      csi_storage_capacities floats fingerprint ask v id namespace
  serve v id asks_volume_attributes_classes = volume_attributes_classes floats fingerprint ask v id
  serve v id asks_csi_drivers = csi_drivers floats fingerprint ask v id
  serve v id (asks_csi_driver name) = csi_driver floats fingerprint ask v id name
  serve v id asks_csi_nodes = csi_nodes floats fingerprint ask v id
  serve v id (asks_csi_node name) = csi_node floats fingerprint ask v id name
  serve v id (asks_resource_quotas namespace) =
      resource_quotas floats fingerprint ask v id namespace
  serve v id asks_pod_security_admission_namespaces =
      pod_security_admission_namespaces floats fingerprint ask v id
  serve v id asks_node_version_skew = node_version_skew floats fingerprint ask v id
  serve v id asks_deprecated_api_requests = deprecated_api_requests floats fingerprint ask v id
  serve v id asks_endpoint_certificate = endpoint_certificate floats fingerprint ask v id
  serve v id asks_api_server_readiness = api_server_readiness floats fingerprint ask v id
  serve v id asks_disruption_budgets = disruption_budgets floats fingerprint ask v id
  serve v id (asks_limit_ranges namespace) = limit_ranges floats fingerprint ask v id namespace
  serve v id (asks_horizontal_pod_autoscalers namespace) =
      horizontal_pod_autoscalers floats fingerprint ask v id namespace
  serve v id (asks_pod_disruption_budgets namespace) =
      pod_disruption_budgets floats fingerprint ask v id namespace
  serve v id (asks_access_resources kind namespace) =
      access_resources floats fingerprint ask v id kind namespace
  serve v id (asks_access_resource_detail reference) =
      access_resource_detail floats fingerprint ask v id reference
  serve v id (asks_workload_detail reference) =
      workload_detail floats fingerprint ask v id reference
  serve v id (asks_deployment_revision_history reference) =
      deployment_revision_history floats fingerprint ask v id reference
  serve v id (asks_workload_events reference limit) =
      workload_events floats fingerprint ask v id reference limit
