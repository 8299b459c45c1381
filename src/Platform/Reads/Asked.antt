-- ===== src/Platform/Reads/Asked.antt =====
-- internal/platform/service.go: when a read method asks the gateway of a cluster.
use mathlib.Core.Path.{subst}
use k8s_panel.Base.{
  ℕ, ◌≡◌, refl, sym, ◌≢◌, inl, inr, true, none, some, [], ◌∷◌, arith, Option-cases, Text,
}
use k8s_panel.Domain.{Cluster, Failure, Result, ok, err, Result-cases, disabled}
use k8s_panel.Governor.{Floats}
use k8s_panel.Validation.Inputs.{
  WorkloadReference, normal_kind, validate_deployment_reference, validate_workload_list,
  validate_kubernetes_event_list,
}
use k8s_panel.Validation.Accepted.{then_check-none}
use k8s_panel.Store.File.{get_cluster}
use k8s_panel.Platform.{Panel, Visit, kube_gateway, acquire_kubernetes_read}
use k8s_panel.Platform.Reads.{
  Query, admitted, read, asks_summary, asks_namespaces, asks_nodes, asks_node_detail,
  asks_node_events, asks_custom_resource_definitions, asks_custom_resource_definition,
  asks_certificate_signing_requests, asks_certificate_signing_request, asks_priority_classes,
  asks_priority_class, asks_runtime_classes, asks_runtime_class, asks_api_services,
  asks_admission_webhook_configurations, asks_admission_webhook_configuration,
  asks_validating_admission_policies, asks_validating_admission_policy,
  asks_validating_admission_policy_bindings, asks_validating_admission_policy_binding, asks_events,
  asks_workloads, asks_services, asks_ingresses, asks_endpoint_slices, asks_network_policies,
  asks_config_maps, asks_persistent_volume_claims, asks_persistent_volumes, asks_storage_classes,
  asks_volume_attachments, asks_csi_storage_capacities, asks_volume_attributes_classes,
  asks_csi_drivers, asks_csi_driver, asks_csi_nodes, asks_csi_node, asks_resource_quotas,
  asks_pod_security_admission_namespaces, asks_node_version_skew, asks_deprecated_api_requests,
  asks_endpoint_certificate, asks_api_server_readiness, asks_disruption_budgets, asks_limit_ranges,
  asks_horizontal_pod_autoscalers, asks_pod_disruption_budgets, asks_access_resources,
  asks_access_resource_detail, asks_workload_detail, asks_deployment_revision_history,
  asks_workload_events,
}
use k8s_panel.Platform.Reads.Methods.Lists.{
  summary, namespaces, nodes, custom_resource_definitions, certificate_signing_requests,
  priority_classes, runtime_classes, api_services, validating_admission_policies,
  validating_admission_policy_bindings, persistent_volumes, storage_classes, volume_attachments,
  volume_attributes_classes, csi_drivers, csi_nodes, pod_security_admission_namespaces,
  node_version_skew, deprecated_api_requests, endpoint_certificate, api_server_readiness,
  disruption_budgets,
}
use k8s_panel.Platform.Reads.Methods.Scoped.{
  events, workloads, services, ingresses, endpoint_slices, network_policies, config_maps,
  persistent_volume_claims, csi_storage_capacities, resource_quotas, limit_ranges,
  horizontal_pod_autoscalers, pod_disruption_budgets,
}
use k8s_panel.Platform.Reads.Methods.Named.{
  node_detail, node_events, custom_resource_definition, certificate_signing_request, priority_class,
  runtime_class, admission_webhook_configurations, admission_webhook_configuration,
  validating_admission_policy, validating_admission_policy_binding, csi_driver, csi_node,
  access_resources, access_resource_detail, workload_detail, deployment_revision_history,
  workload_events,
}
use k8s_panel.Platform.Reads.Serve.{serve}
use k8s_panel.Platform.Reads.Paths.{path_texts, Segments, is_segment}
use k8s_panel.Platform.Reads.Segments.{
  if_empty-segment, optional_namespace-segment, namespace-segment, crd_name-segment,
  workload-Segments, scope-segment, access-Segments, node_name-segment,
  certificate_signing_request_name-segment, priority_class_name-segment, runtime_class_name-segment,
  csi_driver_name-segment, admission_webhook_configuration_name-segment,
  admission_policy_resource_name-segment,
}

events-segment :
    (namespace event_type : Text) (limit : ℕ)
    → validate_kubernetes_event_list namespace event_type limit ≡ none
    → is_segment namespace ≡ true
unfolding validate_kubernetes_event_list
events-segment namespace event_type limit h =
    if_empty-segment namespace (then_check-none _ _ (then_check-none _ _ h).0).0

workloads-segment :
    (namespace kind : Text)
    → validate_workload_list namespace kind ≡ none
    → is_segment namespace ≡ true
unfolding validate_workload_list
workloads-segment namespace kind h = if_empty-segment namespace (then_check-none _ _ h).0

deployment-Segments :
    (r : WorkloadReference)
    → validate_deployment_reference r ≡ none
    → Segments (r.namespace ∷ r.name ∷ [])
unfolding validate_deployment_reference
deployment-Segments r h = workload-Segments r (then_check-none _ _ h).0

-- A cluster that is stored and not disabled.
abbrev pub Enabled : {F C : Type 0} → Visit F C → Text → Panel F C → Type 0
Enabled v id p =
    (cluster : Cluster) × (get_cluster v.at_store id p.file.state ≡ ok cluster)
    × (cluster.status ≢ disabled)

kube_gateway-Enabled :
    (fingerprint : Cluster → Text) {F C : Type 0} (v : Visit F C) (id : Text) (p : Panel F C)
    (g : ℕ)
    → (kube_gateway fingerprint v id p).1 ≡ some (ok g)
    → Enabled v id p
unfolding kube_gateway
kube_gateway-Enabled fingerprint v id p g h =
    elim (Result-cases (get_cluster v.at_store id p.file.state)) [
      | inl (cluster, e) ↦ (cluster, e, ground arith)
      | inr (x, e) ↦ ground (arith, e)
    ]

module _ (floats : Floats) (fingerprint : Cluster → Text) {C Reply : Type 0}
    (ask : ℕ → Query → Result Reply) where
  open floats use {Float}

  -- What holds where a read asks for q: the texts that go into the path are segments, the governor had a
  -- slot, and the cluster is stored and not disabled when the read looks for its gateway.
  pub MayAsk : Visit Float C → Text → Panel Float C → Query → Type 0
  MayAsk v id p q =
      let r = acquire_kubernetes_read floats v.at_read v.sample v.sampled_at p in
      Segments (path_texts q) × (r.1 ≡ none) × Enabled v id (v.meanwhile r.0)

  admitted-asked :
      (v : Visit Float C) (id : Text) (q : Query) (p : Panel Float C) (g : ℕ) (q' : Query)
      → (admitted floats fingerprint ask v id q p).asked ≡ some (g, q')
      → (q' ≡ q) × Enabled v id (v.meanwhile p)
  unfolding admitted
  admitted-asked v id q p g q' h =
      let r = kube_gateway fingerprint v id (v.meanwhile p) in
      elim (Option-cases r.1) [
        | inl e ↦ ground (arith, e)
        | inr (err x, e) ↦ ground (arith, e)
        | inr (ok g', e) ↦ (ground (arith, e), kube_gateway-Enabled fingerprint v id _ g' e)
      ]

  read-MayAsk :
      (v : Visit Float C) (id : Text) (check : Failure) (q : Query) (p : Panel Float C) (g : ℕ)
      (q' : Query)
      → (check ≡ none → Segments (path_texts q))
      → (read floats fingerprint ask v id check q p).asked ≡ some (g, q')
      → MayAsk v id p q'
  unfolding read MayAsk
  read-MayAsk v id (some e) q p g q' s h = cc
  read-MayAsk v id none q p g q' s h =
      let r = acquire_kubernetes_read floats v.at_read v.sample v.sampled_at p in
      elim (Option-cases r.1) [
        | inl e ↦
            let (k, b) = admitted-asked v id q r.0 g q' (ground (arith, e)) in
            (subst (λ (q : Query). Segments (path_texts q)) (sym k) (s refl), e, b)
        | inr (x, e) ↦ ground (arith, e)
      ]

  -- A read method asks a cluster only in good order: where it asks the gateway anything, the question's names
  -- and namespaces have no slash and no percent sign and are no dots that lead elsewhere in a path, the governor has granted
  -- the read a slot, and the cluster is stored and not disabled when the read looks for its gateway.
  pub serve-MayAsk :
      (v : Visit Float C) (id : Text) (q : Query) (p : Panel Float C) (g : ℕ) (q' : Query)
      → (serve floats fingerprint ask v id q p).asked ≡ some (g, q')
      → MayAsk v id p q'
  unfolding serve path_texts summary namespaces nodes node_detail node_events
      custom_resource_definitions custom_resource_definition certificate_signing_requests
      certificate_signing_request priority_classes priority_class runtime_classes runtime_class
      api_services admission_webhook_configurations admission_webhook_configuration
      validating_admission_policies validating_admission_policy validating_admission_policy_bindings
      validating_admission_policy_binding events workloads services ingresses endpoint_slices
      network_policies config_maps persistent_volume_claims persistent_volumes storage_classes
      volume_attachments csi_storage_capacities volume_attributes_classes csi_drivers csi_driver
      csi_nodes csi_node resource_quotas pod_security_admission_namespaces node_version_skew
      deprecated_api_requests endpoint_certificate api_server_readiness disruption_budgets
      limit_ranges horizontal_pod_autoscalers pod_disruption_budgets access_resources
      access_resource_detail workload_detail deployment_revision_history workload_events
  serve-MayAsk v id asks_summary p g q' h = read-MayAsk v id _ _ p g q' (λ _. _) h
  serve-MayAsk v id asks_namespaces p g q' h = read-MayAsk v id _ _ p g q' (λ _. _) h
  serve-MayAsk v id asks_nodes p g q' h = read-MayAsk v id _ _ p g q' (λ _. _) h
  serve-MayAsk v id (asks_node_detail name) p g q' h =
      read-MayAsk v id _ _ p g q' (λ e. (node_name-segment name e, _)) h
  serve-MayAsk v id (asks_node_events name limit) p g q' h =
      read-MayAsk v id _ _ p g q' (λ e. (node_name-segment name ((then_check-none _ _ e).0), _)) h
  serve-MayAsk v id asks_custom_resource_definitions p g q' h =
      read-MayAsk v id _ _ p g q' (λ _. _) h
  serve-MayAsk v id (asks_custom_resource_definition name) p g q' h =
      read-MayAsk v id _ _ p g q' (λ e. (crd_name-segment name e, _)) h
  serve-MayAsk v id asks_certificate_signing_requests p g q' h =
      read-MayAsk v id _ _ p g q' (λ _. _) h
  serve-MayAsk v id (asks_certificate_signing_request name) p g q' h =
      read-MayAsk v id _ _ p g q' (λ e. (certificate_signing_request_name-segment name e, _)) h
  serve-MayAsk v id asks_priority_classes p g q' h = read-MayAsk v id _ _ p g q' (λ _. _) h
  serve-MayAsk v id (asks_priority_class name) p g q' h =
      read-MayAsk v id _ _ p g q' (λ e. (priority_class_name-segment name e, _)) h
  serve-MayAsk v id asks_runtime_classes p g q' h = read-MayAsk v id _ _ p g q' (λ _. _) h
  serve-MayAsk v id (asks_runtime_class name) p g q' h =
      read-MayAsk v id _ _ p g q' (λ e. (runtime_class_name-segment name e, _)) h
  serve-MayAsk v id asks_api_services p g q' h = read-MayAsk v id _ _ p g q' (λ _. _) h
  serve-MayAsk v id (asks_admission_webhook_configurations kind) p g q' h =
      read-MayAsk v id _ _ p g q' (λ _. _) h
  serve-MayAsk v id (asks_admission_webhook_configuration kind name) p g q' h =
      read-MayAsk v id _ _ p g q'
        (λ e. (admission_webhook_configuration_name-segment name (then_check-none _ _ e).1, _)) h
  serve-MayAsk v id asks_validating_admission_policies p g q' h =
      read-MayAsk v id _ _ p g q' (λ _. _) h
  serve-MayAsk v id (asks_validating_admission_policy name) p g q' h =
      read-MayAsk v id _ _ p g q' (λ e. (admission_policy_resource_name-segment name e, _)) h
  serve-MayAsk v id asks_validating_admission_policy_bindings p g q' h =
      read-MayAsk v id _ _ p g q' (λ _. _) h
  serve-MayAsk v id (asks_validating_admission_policy_binding name) p g q' h =
      read-MayAsk v id _ _ p g q' (λ e. (admission_policy_resource_name-segment name e, _)) h
  serve-MayAsk v id (asks_events namespace event_type limit) p g q' h =
      read-MayAsk v id _ _ p g q' (λ e. (events-segment namespace event_type limit e, _)) h
  serve-MayAsk v id (asks_workloads namespace kind) p g q' h =
      read-MayAsk v id _ _ p g q' (λ e. (workloads-segment namespace kind e, _)) h
  serve-MayAsk v id (asks_services namespace) p g q' h =
      read-MayAsk v id _ _ p g q' (λ e. (optional_namespace-segment namespace e, _)) h
  serve-MayAsk v id (asks_ingresses namespace) p g q' h =
      read-MayAsk v id _ _ p g q' (λ e. (optional_namespace-segment namespace e, _)) h
  serve-MayAsk v id (asks_endpoint_slices namespace) p g q' h =
      read-MayAsk v id _ _ p g q' (λ e. (optional_namespace-segment namespace e, _)) h
  serve-MayAsk v id (asks_network_policies namespace) p g q' h =
      read-MayAsk v id _ _ p g q' (λ e. (optional_namespace-segment namespace e, _)) h
  serve-MayAsk v id (asks_config_maps namespace) p g q' h =
      read-MayAsk v id _ _ p g q' (λ e. (optional_namespace-segment namespace e, _)) h
  serve-MayAsk v id (asks_persistent_volume_claims namespace) p g q' h =
      read-MayAsk v id _ _ p g q' (λ e. (optional_namespace-segment namespace e, _)) h
  serve-MayAsk v id asks_persistent_volumes p g q' h = read-MayAsk v id _ _ p g q' (λ _. _) h
  serve-MayAsk v id asks_storage_classes p g q' h = read-MayAsk v id _ _ p g q' (λ _. _) h
  serve-MayAsk v id asks_volume_attachments p g q' h = read-MayAsk v id _ _ p g q' (λ _. _) h
  serve-MayAsk v id (asks_csi_storage_capacities namespace) p g q' h =
      read-MayAsk v id _ _ p g q' (λ e. (optional_namespace-segment namespace e, _)) h
  serve-MayAsk v id asks_volume_attributes_classes p g q' h = read-MayAsk v id _ _ p g q' (λ _. _) h
  serve-MayAsk v id asks_csi_drivers p g q' h = read-MayAsk v id _ _ p g q' (λ _. _) h
  serve-MayAsk v id (asks_csi_driver name) p g q' h =
      read-MayAsk v id _ _ p g q' (λ e. (csi_driver_name-segment name e, _)) h
  serve-MayAsk v id asks_csi_nodes p g q' h = read-MayAsk v id _ _ p g q' (λ _. _) h
  serve-MayAsk v id (asks_csi_node name) p g q' h =
      read-MayAsk v id _ _ p g q' (λ e. (node_name-segment name e, _)) h
  serve-MayAsk v id (asks_resource_quotas namespace) p g q' h =
      read-MayAsk v id _ _ p g q' (λ e. (namespace-segment namespace e, _)) h
  serve-MayAsk v id asks_pod_security_admission_namespaces p g q' h =
      read-MayAsk v id _ _ p g q' (λ _. _) h
  serve-MayAsk v id asks_node_version_skew p g q' h = read-MayAsk v id _ _ p g q' (λ _. _) h
  serve-MayAsk v id asks_deprecated_api_requests p g q' h = read-MayAsk v id _ _ p g q' (λ _. _) h
  serve-MayAsk v id asks_endpoint_certificate p g q' h = read-MayAsk v id _ _ p g q' (λ _. _) h
  serve-MayAsk v id asks_api_server_readiness p g q' h = read-MayAsk v id _ _ p g q' (λ _. _) h
  serve-MayAsk v id asks_disruption_budgets p g q' h = read-MayAsk v id _ _ p g q' (λ _. _) h
  serve-MayAsk v id (asks_limit_ranges namespace) p g q' h =
      read-MayAsk v id _ _ p g q' (λ e. (namespace-segment namespace e, _)) h
  serve-MayAsk v id (asks_horizontal_pod_autoscalers namespace) p g q' h =
      read-MayAsk v id _ _ p g q' (λ e. (namespace-segment namespace e, _)) h
  serve-MayAsk v id (asks_pod_disruption_budgets namespace) p g q' h =
      read-MayAsk v id _ _ p g q' (λ e. (namespace-segment namespace e, _)) h
  serve-MayAsk v id (asks_access_resources kind namespace) p g q' h =
      read-MayAsk v id _ _ p g q' (λ e. (scope-segment kind namespace e, _)) h
  serve-MayAsk v id (asks_access_resource_detail reference) p g q' h =
      read-MayAsk v id _ _ p g q' (λ e. access-Segments reference e) h
  serve-MayAsk v id (asks_workload_detail reference) p g q' h =
      read-MayAsk v id _ _ p g q' (λ e. workload-Segments reference e) h
  serve-MayAsk v id (asks_deployment_revision_history reference) p g q' h =
      read-MayAsk v id _ _ p g q'
        (λ e. deployment-Segments (record reference { kind = normal_kind reference.kind }) e) h
  serve-MayAsk v id (asks_workload_events reference limit) p g q' h =
      read-MayAsk v id _ _ p g q' (λ e. workload-Segments reference (then_check-none _ _ e).0) h
