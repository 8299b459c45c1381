-- ===== src/Platform/Reads/Methods/Lists.antt =====
-- internal/platform/service.go: the read methods with no argument but the cluster.
use k8s_panel.Base.{ℕ, none, Text}
use k8s_panel.Domain.{Cluster, Result}
use k8s_panel.Governor.{Floats}
use k8s_panel.Platform.{Panel, Visit}
use k8s_panel.Platform.Reads.{
  Query, Outcome, read, asks_summary, asks_namespaces, asks_nodes, asks_custom_resource_definitions,
  asks_certificate_signing_requests, asks_priority_classes, asks_runtime_classes, asks_api_services,
  asks_validating_admission_policies, asks_validating_admission_policy_bindings,
  asks_persistent_volumes, asks_storage_classes, asks_volume_attachments,
  asks_volume_attributes_classes, asks_csi_drivers, asks_csi_nodes,
  asks_pod_security_admission_namespaces, asks_node_version_skew, asks_deprecated_api_requests,
  asks_endpoint_certificate, asks_api_server_readiness, asks_disruption_budgets,
}

module _ (floats : Floats) (fingerprint : Cluster → Text) {C Reply : Type 0}
    (ask : ℕ → Query → Result Reply) where
  open floats use {Float}

  unfoldable pub summary : Visit Float C → Text → Panel Float C → Outcome Float C Reply
  summary v id = read floats fingerprint ask v id none asks_summary

  unfoldable pub namespaces : Visit Float C → Text → Panel Float C → Outcome Float C Reply
  namespaces v id = read floats fingerprint ask v id none asks_namespaces

  unfoldable pub nodes : Visit Float C → Text → Panel Float C → Outcome Float C Reply
  nodes v id = read floats fingerprint ask v id none asks_nodes

  unfoldable pub custom_resource_definitions :
      Visit Float C → Text → Panel Float C → Outcome Float C Reply
  custom_resource_definitions v id =
      read floats fingerprint ask v id none asks_custom_resource_definitions

  unfoldable pub certificate_signing_requests :
      Visit Float C → Text → Panel Float C → Outcome Float C Reply
  certificate_signing_requests v id =
      read floats fingerprint ask v id none asks_certificate_signing_requests

  unfoldable pub priority_classes : Visit Float C → Text → Panel Float C → Outcome Float C Reply
  priority_classes v id = read floats fingerprint ask v id none asks_priority_classes

  unfoldable pub runtime_classes : Visit Float C → Text → Panel Float C → Outcome Float C Reply
  runtime_classes v id = read floats fingerprint ask v id none asks_runtime_classes

  unfoldable pub api_services : Visit Float C → Text → Panel Float C → Outcome Float C Reply
  api_services v id = read floats fingerprint ask v id none asks_api_services

  unfoldable pub validating_admission_policies :
      Visit Float C → Text → Panel Float C → Outcome Float C Reply
  validating_admission_policies v id =
      read floats fingerprint ask v id none asks_validating_admission_policies

  unfoldable pub validating_admission_policy_bindings :
      Visit Float C → Text → Panel Float C → Outcome Float C Reply
  validating_admission_policy_bindings v id =
      read floats fingerprint ask v id none asks_validating_admission_policy_bindings

  unfoldable pub persistent_volumes : Visit Float C → Text → Panel Float C → Outcome Float C Reply
  persistent_volumes v id = read floats fingerprint ask v id none asks_persistent_volumes

  unfoldable pub storage_classes : Visit Float C → Text → Panel Float C → Outcome Float C Reply
  storage_classes v id = read floats fingerprint ask v id none asks_storage_classes

  unfoldable pub volume_attachments : Visit Float C → Text → Panel Float C → Outcome Float C Reply
  volume_attachments v id = read floats fingerprint ask v id none asks_volume_attachments

  unfoldable pub volume_attributes_classes :
      Visit Float C → Text → Panel Float C → Outcome Float C Reply
  volume_attributes_classes v id =
      read floats fingerprint ask v id none asks_volume_attributes_classes

  unfoldable pub csi_drivers : Visit Float C → Text → Panel Float C → Outcome Float C Reply
  csi_drivers v id = read floats fingerprint ask v id none asks_csi_drivers

  unfoldable pub csi_nodes : Visit Float C → Text → Panel Float C → Outcome Float C Reply
  csi_nodes v id = read floats fingerprint ask v id none asks_csi_nodes

  unfoldable pub pod_security_admission_namespaces :
      Visit Float C → Text → Panel Float C → Outcome Float C Reply
  pod_security_admission_namespaces v id =
      read floats fingerprint ask v id none asks_pod_security_admission_namespaces

  unfoldable pub node_version_skew : Visit Float C → Text → Panel Float C → Outcome Float C Reply
  node_version_skew v id = read floats fingerprint ask v id none asks_node_version_skew

  unfoldable pub deprecated_api_requests :
      Visit Float C → Text → Panel Float C → Outcome Float C Reply
  deprecated_api_requests v id = read floats fingerprint ask v id none asks_deprecated_api_requests

  unfoldable pub endpoint_certificate : Visit Float C → Text → Panel Float C → Outcome Float C Reply
  endpoint_certificate v id = read floats fingerprint ask v id none asks_endpoint_certificate

  unfoldable pub api_server_readiness : Visit Float C → Text → Panel Float C → Outcome Float C Reply
  api_server_readiness v id = read floats fingerprint ask v id none asks_api_server_readiness

  unfoldable pub disruption_budgets : Visit Float C → Text → Panel Float C → Outcome Float C Reply
  disruption_budgets v id = read floats fingerprint ask v id none asks_disruption_budgets
