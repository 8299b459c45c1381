-- ===== src/Platform/Reads/Methods/Named.antt =====
-- internal/platform/service.go: the read methods on a kind, a name or a reference.
use k8s_panel.Base.{ℕ, Text}
use k8s_panel.Domain.{Cluster, Result}
use k8s_panel.Governor.{Floats}
use k8s_panel.Validation.Names.{
  ◌then_check◌, validate_node_name, validate_custom_resource_definition_name,
  validate_certificate_signing_request_name, validate_priority_class_name,
  validate_runtime_class_name, validate_csi_driver_name,
  validate_admission_webhook_configuration_name, validate_admission_policy_resource_name,
}
use k8s_panel.Validation.Inputs.{
  WorkloadReference, normal_kind, validate_workload_reference, validate_deployment_reference,
}
use k8s_panel.Validation.Access.{
  AccessResourceReference, validate_access_resource_scope, validate_access_resource_reference,
  validate_admission_webhook_configuration_kind,
}
use k8s_panel.Platform.{Panel, Visit}
use k8s_panel.Platform.Reads.{
  Query, Outcome, read, asks_node_detail, asks_node_events, asks_custom_resource_definition,
  asks_certificate_signing_request, asks_priority_class, asks_runtime_class,
  asks_admission_webhook_configurations, asks_admission_webhook_configuration,
  asks_validating_admission_policy, asks_validating_admission_policy_binding, asks_csi_driver,
  asks_csi_node, asks_access_resources, asks_access_resource_detail, asks_workload_detail,
  asks_deployment_revision_history, asks_workload_events,
}
use k8s_panel.Platform.Reads.Methods.Scoped.{event_limit}

module _ (floats : Floats) (fingerprint : Cluster → Text) {C Reply : Type 0}
    (ask : ℕ → Query → Result Reply) where
  open floats use {Float}

  unfoldable pub node_detail : Visit Float C → Text → Text → Panel Float C → Outcome Float C Reply
  node_detail v id name =
      read floats fingerprint ask v id (validate_node_name name) (asks_node_detail name)

  unfoldable pub node_events :
      Visit Float C → Text → Text → ℕ → Panel Float C → Outcome Float C Reply
  node_events v id name limit =
      read floats fingerprint ask v id (validate_node_name name then_check event_limit limit)
        (asks_node_events name limit)

  unfoldable pub custom_resource_definition :
      Visit Float C → Text → Text → Panel Float C → Outcome Float C Reply
  custom_resource_definition v id name =
      read floats fingerprint ask v id (validate_custom_resource_definition_name name)
        (asks_custom_resource_definition name)

  unfoldable pub certificate_signing_request :
      Visit Float C → Text → Text → Panel Float C → Outcome Float C Reply
  certificate_signing_request v id name =
      read floats fingerprint ask v id (validate_certificate_signing_request_name name)
        (asks_certificate_signing_request name)

  unfoldable pub priority_class :
      Visit Float C → Text → Text → Panel Float C → Outcome Float C Reply
  priority_class v id name =
      read floats fingerprint ask v id (validate_priority_class_name name)
        (asks_priority_class name)

  unfoldable pub runtime_class : Visit Float C → Text → Text → Panel Float C → Outcome Float C Reply
  runtime_class v id name =
      read floats fingerprint ask v id (validate_runtime_class_name name) (asks_runtime_class name)

  unfoldable pub admission_webhook_configurations :
      Visit Float C → Text → Text → Panel Float C → Outcome Float C Reply
  admission_webhook_configurations v id kind =
      read floats fingerprint ask v id (validate_admission_webhook_configuration_kind kind)
        (asks_admission_webhook_configurations kind)

  unfoldable pub admission_webhook_configuration :
      Visit Float C → Text → Text → Text → Panel Float C → Outcome Float C Reply
  admission_webhook_configuration v id kind name =
      read floats fingerprint ask v id
        (validate_admission_webhook_configuration_kind kind
          then_check validate_admission_webhook_configuration_name name)
        (asks_admission_webhook_configuration kind name)

  unfoldable pub validating_admission_policy :
      Visit Float C → Text → Text → Panel Float C → Outcome Float C Reply
  validating_admission_policy v id name =
      read floats fingerprint ask v id (validate_admission_policy_resource_name name)
        (asks_validating_admission_policy name)

  unfoldable pub validating_admission_policy_binding :
      Visit Float C → Text → Text → Panel Float C → Outcome Float C Reply
  validating_admission_policy_binding v id name =
      read floats fingerprint ask v id (validate_admission_policy_resource_name name)
        (asks_validating_admission_policy_binding name)

  unfoldable pub csi_driver : Visit Float C → Text → Text → Panel Float C → Outcome Float C Reply
  csi_driver v id name =
      read floats fingerprint ask v id (validate_csi_driver_name name) (asks_csi_driver name)

  unfoldable pub csi_node : Visit Float C → Text → Text → Panel Float C → Outcome Float C Reply
  csi_node v id name =
      read floats fingerprint ask v id (validate_node_name name) (asks_csi_node name)

  unfoldable pub access_resources :
      Visit Float C → Text → Text → Text → Panel Float C → Outcome Float C Reply
  access_resources v id kind namespace =
      read floats fingerprint ask v id (validate_access_resource_scope kind namespace)
        (asks_access_resources kind namespace)

  unfoldable pub access_resource_detail :
      Visit Float C → Text → AccessResourceReference → Panel Float C → Outcome Float C Reply
  access_resource_detail v id reference =
      read floats fingerprint ask v id (validate_access_resource_reference reference)
        (asks_access_resource_detail reference)

  unfoldable pub workload_detail :
      Visit Float C → Text → WorkloadReference → Panel Float C → Outcome Float C Reply
  workload_detail v id reference =
      read floats fingerprint ask v id (validate_workload_reference reference)
        (asks_workload_detail reference)

  unfoldable pub deployment_revision_history :
      Visit Float C → Text → WorkloadReference → Panel Float C → Outcome Float C Reply
  deployment_revision_history v id reference =
      let normal = record reference { kind = normal_kind reference.kind } in
      read floats fingerprint ask v id (validate_deployment_reference normal)
        (asks_deployment_revision_history normal)

  unfoldable pub workload_events :
      Visit Float C → Text → WorkloadReference → ℕ → Panel Float C → Outcome Float C Reply
  workload_events v id reference limit =
      read floats fingerprint ask v id
        (validate_workload_reference reference then_check event_limit limit)
        (asks_workload_events reference limit)
