-- ===== src/Platform/Reads/Slots.antt =====
-- internal/platform/service.go: the slots of the reads.
use k8s_panel.Base.{
  ℕ, ◌+◌, ◌≡◌, refl, ◌∙◌, ◌⊎◌, inl, inr, none, some, arith, Bool-cases, Option-cases, Text,
}
use k8s_panel.Domain.{Cluster, Failure, Result, Error, ok, err, busy}
use k8s_panel.Governor.{Floats, Sample, try_acquire, give_back}
use k8s_panel.Platform.{
  Panel, Visit, released, acquire_kubernetes_read, kube_gateway, gateway_for_cluster,
}
use k8s_panel.Platform.Reads.{
  Query, Outcome, admitted, read, asks_summary, asks_namespaces, asks_nodes, asks_node_detail,
  asks_node_events, asks_custom_resource_definitions, asks_custom_resource_definition,
  asks_certificate_signing_requests, asks_certificate_signing_request, asks_priority_classes,
  asks_priority_class, asks_runtime_classes, asks_runtime_class, asks_api_services,
  asks_admission_webhook_configurations, asks_admission_webhook_configuration,
  asks_validating_admission_policies, asks_validating_admission_policy,
  asks_validating_admission_policy_bindings, asks_validating_admission_policy_binding, asks_events,
  asks_workloads, asks_services, asks_ingresses, asks_endpoint_slices, asks_network_policies,
  asks_config_maps, asks_persistent_volume_claims, asks_persistent_volumes, asks_storage_classes,
  asks_volume_attachments, asks_csi_storage_capacities, asks_volume_attributes_classes,
  asks_csi_drivers, asks_csi_driver, asks_csi_nodes, asks_csi_node, asks_resource_quotas,
  asks_pod_security_admission_namespaces, asks_node_version_skew, asks_deprecated_api_requests,
  asks_endpoint_certificate, asks_api_server_readiness, asks_disruption_budgets, asks_limit_ranges,
  asks_horizontal_pod_autoscalers, asks_pod_disruption_budgets, asks_access_resources,
  asks_access_resource_detail, asks_workload_detail, asks_deployment_revision_history,
  asks_workload_events,
}
use k8s_panel.Platform.Reads.Methods.Lists.{
  summary, namespaces, nodes, custom_resource_definitions, certificate_signing_requests,
  priority_classes, runtime_classes, api_services, validating_admission_policies,
  validating_admission_policy_bindings, persistent_volumes, storage_classes, volume_attachments,
  volume_attributes_classes, csi_drivers, csi_nodes, pod_security_admission_namespaces,
  node_version_skew, deprecated_api_requests, endpoint_certificate, api_server_readiness,
  disruption_budgets,
}
use k8s_panel.Platform.Reads.Methods.Scoped.{
  events, workloads, services, ingresses, endpoint_slices, network_policies, config_maps,
  persistent_volume_claims, csi_storage_capacities, resource_quotas, limit_ranges,
  horizontal_pod_autoscalers, pod_disruption_budgets,
}
use k8s_panel.Platform.Reads.Methods.Named.{
  node_detail, node_events, custom_resource_definition, certificate_signing_request, priority_class,
  runtime_class, admission_webhook_configurations, admission_webhook_configuration,
  validating_admission_policy, validating_admission_policy_binding, csi_driver, csi_node,
  access_resources, access_resource_detail, workload_detail, deployment_revision_history,
  workload_events,
}
use k8s_panel.Platform.Reads.Serve.{serve}

-- What others do leaves the count of the slots as it is.
abbrev pub Quiet : {F C : Type 0} → (Panel F C → Panel F C) → Type 0
Quiet {F} {C} others = (p : Panel F C) → (others p).governor.active ≡ p.governor.active

pub kube_gateway-active :
    (fingerprint : Cluster → Text) {F C : Type 0} (v : Visit F C) (id : Text) (p : Panel F C)
    → (kube_gateway fingerprint v id p).0.governor.active ≡ p.governor.active
unfolding kube_gateway gateway_for_cluster
kube_gateway-active fingerprint v id p = ground arith

-- A read that gets a slot takes one, and one that gets none takes none.
pub acquire-active :
    (floats : Floats) {C : Type 0} (ctx : Failure) (sample : Sample floats.Float) (now : ℕ)
    (p : Panel floats.Float C)
    → let r = acquire_kubernetes_read floats ctx sample now p in
      ((r.1 ≡ none) × (r.0.governor.active ≡ p.governor.active + 1))
      ⊎ ((e : Error) × (r.1 ≡ some e) × (r.0.governor.active ≡ p.governor.active))
unfolding acquire_kubernetes_read try_acquire
acquire-active floats (some e) sample now p = inr (e, refl, refl)
acquire-active floats none sample now p =
    elim (Bool-cases (try_acquire floats p.governor sample now).2) [
      | inl t ↦ inl (ground (arith, t))
      | inr t ↦ inr (busy, ground (arith, t), ground (arith, t))
    ]

module _ (floats : Floats) (fingerprint : Cluster → Text) {C Reply : Type 0}
    (ask : ℕ → Query → Result Reply) where
  open floats use {Float}

  -- How many slots a read leaves taken, of as many before it: as many, unless it still waits for
  -- its gateway, when it has one more.
  pub Balances : ℕ → Outcome Float C Reply → Type 0
  Balances n r =
      ((answer : Result Reply) × (r.answer ≡ some answer) × (r.panel.governor.active ≡ n))
      ⊎ ((r.answer ≡ none) × (r.panel.governor.active ≡ n + 1))

  admitted-Balances :
      (v : Visit Float C) (id : Text) (q : Query) (p : Panel Float C) (n : ℕ)
      → Quiet v.meanwhile
      → Quiet v.during
      → p.governor.active ≡ n + 1
      → Balances n (admitted floats fingerprint ask v id q p)
  unfolding admitted released give_back Balances
  admitted-Balances v id q p n quiet quiet' h =
      let r = kube_gateway fingerprint v id (v.meanwhile p) in
      let k : r.0.governor.active ≡ n + 1 =
        kube_gateway-active fingerprint v id (v.meanwhile p) ∙ quiet p ∙ h in
      elim (Option-cases r.1) [
        | inl e ↦ rw (e, admitted) (inr (refl, k))
        | inr (err x, e) ↦ rw (e, admitted) (inl (err x, refl, ground arith))
        | inr (ok g, e) ↦ rw (e, admitted) (inl (ask g q, refl, ground (arith, quiet' r.0)))
      ]

  read-Balances :
      (v : Visit Float C) (id : Text) (check : Failure) (q : Query) (p : Panel Float C)
      → Quiet v.meanwhile
      → Quiet v.during
      → Balances p.governor.active (read floats fingerprint ask v id check q p)
  unfolding read Balances
  read-Balances v id (some e) q p quiet quiet' = inl (err e, refl, refl)
  read-Balances v id none q p quiet quiet' =
      let r = acquire_kubernetes_read floats v.at_read v.sample v.sampled_at p in
      elim (acquire-active floats v.at_read v.sample v.sampled_at p) [
        | inl (e, k) ↦ rw (e, read) (admitted-Balances v id q r.0 p.governor.active quiet quiet' k)
        | inr (x, e, k) ↦ rw (e, read) (inl (err x, refl, k))
      ]

  -- Each read that `serve` dispatches gives its slot back: whatever it asks for, and whether its arguments are
  -- refused, the governor is busy, the cluster cannot be reached or is asked, where the others leave the count of
  -- slots as it is and an answer comes, as many slots are taken as before; where none comes, the read waits for
  -- its gateway with one slot more.
  pub serve-Balances :
      (v : Visit Float C) (id : Text) (q : Query) (p : Panel Float C)
      → Quiet v.meanwhile
      → Quiet v.during
      → Balances p.governor.active (serve floats fingerprint ask v id q p)
  unfolding serve summary namespaces nodes node_detail node_events custom_resource_definitions
      custom_resource_definition certificate_signing_requests certificate_signing_request
      priority_classes priority_class runtime_classes runtime_class api_services
      admission_webhook_configurations admission_webhook_configuration validating_admission_policies
      validating_admission_policy validating_admission_policy_bindings
      validating_admission_policy_binding events workloads services ingresses endpoint_slices
      network_policies config_maps persistent_volume_claims persistent_volumes storage_classes
      volume_attachments csi_storage_capacities volume_attributes_classes csi_drivers csi_driver
      csi_nodes csi_node resource_quotas pod_security_admission_namespaces node_version_skew
      deprecated_api_requests endpoint_certificate api_server_readiness disruption_budgets
      limit_ranges horizontal_pod_autoscalers pod_disruption_budgets access_resources
      access_resource_detail workload_detail deployment_revision_history workload_events
  serve-Balances v id asks_summary p quiet quiet' = read-Balances v id _ _ p quiet quiet'
  serve-Balances v id asks_namespaces p quiet quiet' = read-Balances v id _ _ p quiet quiet'
  serve-Balances v id asks_nodes p quiet quiet' = read-Balances v id _ _ p quiet quiet'
  serve-Balances v id (asks_node_detail name) p quiet quiet' = read-Balances v id _ _ p quiet quiet'
  serve-Balances v id (asks_node_events name limit) p quiet quiet' =
      read-Balances v id _ _ p quiet quiet'
  serve-Balances v id asks_custom_resource_definitions p quiet quiet' =
      read-Balances v id _ _ p quiet quiet'
  serve-Balances v id (asks_custom_resource_definition name) p quiet quiet' =
      read-Balances v id _ _ p quiet quiet'
  serve-Balances v id asks_certificate_signing_requests p quiet quiet' =
      read-Balances v id _ _ p quiet quiet'
  serve-Balances v id (asks_certificate_signing_request name) p quiet quiet' =
      read-Balances v id _ _ p quiet quiet'
  serve-Balances v id asks_priority_classes p quiet quiet' = read-Balances v id _ _ p quiet quiet'
  serve-Balances v id (asks_priority_class name) p quiet quiet' =
      read-Balances v id _ _ p quiet quiet'
  serve-Balances v id asks_runtime_classes p quiet quiet' = read-Balances v id _ _ p quiet quiet'
  serve-Balances v id (asks_runtime_class name) p quiet quiet' =
      read-Balances v id _ _ p quiet quiet'
  serve-Balances v id asks_api_services p quiet quiet' = read-Balances v id _ _ p quiet quiet'
  serve-Balances v id (asks_admission_webhook_configurations kind) p quiet quiet' =
      read-Balances v id _ _ p quiet quiet'
  serve-Balances v id (asks_admission_webhook_configuration kind name) p quiet quiet' =
      read-Balances v id _ _ p quiet quiet'
  serve-Balances v id asks_validating_admission_policies p quiet quiet' =
      read-Balances v id _ _ p quiet quiet'
  serve-Balances v id (asks_validating_admission_policy name) p quiet quiet' =
      read-Balances v id _ _ p quiet quiet'
  serve-Balances v id asks_validating_admission_policy_bindings p quiet quiet' =
      read-Balances v id _ _ p quiet quiet'
  serve-Balances v id (asks_validating_admission_policy_binding name) p quiet quiet' =
      read-Balances v id _ _ p quiet quiet'
  serve-Balances v id (asks_events namespace event_type limit) p quiet quiet' =
      read-Balances v id _ _ p quiet quiet'
  serve-Balances v id (asks_workloads namespace kind) p quiet quiet' =
      read-Balances v id _ _ p quiet quiet'
  serve-Balances v id (asks_services namespace) p quiet quiet' =
      read-Balances v id _ _ p quiet quiet'
  serve-Balances v id (asks_ingresses namespace) p quiet quiet' =
      read-Balances v id _ _ p quiet quiet'
  serve-Balances v id (asks_endpoint_slices namespace) p quiet quiet' =
      read-Balances v id _ _ p quiet quiet'
  serve-Balances v id (asks_network_policies namespace) p quiet quiet' =
      read-Balances v id _ _ p quiet quiet'
  serve-Balances v id (asks_config_maps namespace) p quiet quiet' =
      read-Balances v id _ _ p quiet quiet'
  serve-Balances v id (asks_persistent_volume_claims namespace) p quiet quiet' =
      read-Balances v id _ _ p quiet quiet'
  serve-Balances v id asks_persistent_volumes p quiet quiet' = read-Balances v id _ _ p quiet quiet'
  serve-Balances v id asks_storage_classes p quiet quiet' = read-Balances v id _ _ p quiet quiet'
  serve-Balances v id asks_volume_attachments p quiet quiet' = read-Balances v id _ _ p quiet quiet'
  serve-Balances v id (asks_csi_storage_capacities namespace) p quiet quiet' =
      read-Balances v id _ _ p quiet quiet'
  serve-Balances v id asks_volume_attributes_classes p quiet quiet' =
      read-Balances v id _ _ p quiet quiet'
  serve-Balances v id asks_csi_drivers p quiet quiet' = read-Balances v id _ _ p quiet quiet'
  serve-Balances v id (asks_csi_driver name) p quiet quiet' = read-Balances v id _ _ p quiet quiet'
  serve-Balances v id asks_csi_nodes p quiet quiet' = read-Balances v id _ _ p quiet quiet'
  serve-Balances v id (asks_csi_node name) p quiet quiet' = read-Balances v id _ _ p quiet quiet'
  serve-Balances v id (asks_resource_quotas namespace) p quiet quiet' =
      read-Balances v id _ _ p quiet quiet'
  serve-Balances v id asks_pod_security_admission_namespaces p quiet quiet' =
      read-Balances v id _ _ p quiet quiet'
  serve-Balances v id asks_node_version_skew p quiet quiet' = read-Balances v id _ _ p quiet quiet'
  serve-Balances v id asks_deprecated_api_requests p quiet quiet' =
      read-Balances v id _ _ p quiet quiet'
  serve-Balances v id asks_endpoint_certificate p quiet quiet' =
      read-Balances v id _ _ p quiet quiet'
  serve-Balances v id asks_api_server_readiness p quiet quiet' =
      read-Balances v id _ _ p quiet quiet'
  serve-Balances v id asks_disruption_budgets p quiet quiet' = read-Balances v id _ _ p quiet quiet'
  serve-Balances v id (asks_limit_ranges namespace) p quiet quiet' =
      read-Balances v id _ _ p quiet quiet'
  serve-Balances v id (asks_horizontal_pod_autoscalers namespace) p quiet quiet' =
      read-Balances v id _ _ p quiet quiet'
  serve-Balances v id (asks_pod_disruption_budgets namespace) p quiet quiet' =
      read-Balances v id _ _ p quiet quiet'
  serve-Balances v id (asks_access_resources kind namespace) p quiet quiet' =
      read-Balances v id _ _ p quiet quiet'
  serve-Balances v id (asks_access_resource_detail reference) p quiet quiet' =
      read-Balances v id _ _ p quiet quiet'
  serve-Balances v id (asks_workload_detail reference) p quiet quiet' =
      read-Balances v id _ _ p quiet quiet'
  serve-Balances v id (asks_deployment_revision_history reference) p quiet quiet' =
      read-Balances v id _ _ p quiet quiet'
  serve-Balances v id (asks_workload_events reference limit) p quiet quiet' =
      read-Balances v id _ _ p quiet quiet'
